-- ===== src/Book/Cancel/Volume.antt =====
-- What a side's volume becomes when a level is taken from.
use titan_lob.Prelude.{◌<◌, ◌≡◌, Bool, true, false, Bool-cases, inl, inr, ℤ, ◌+ℤ◌, ◌-ℤ◌}
use titan_lob.Bitmap.{max_price_levels}
use titan_lob.Book.Types.{PriceLevel, empty}
use titan_lob.Book.State.{BookSide, price_to_index}
use titan_lob.Book.Volume.Side.{sum_volume-update, side_volume}
use titan_lob.Book.Best.Tracked.{SameLevels, bid_remove-SameLevels, ask_remove-SameLevels}
use titan_lob.Book.Cancel.{update_best_after_remove, take_level}

pub remove-SameLevels :
    (is_buy : Bool) (s : BookSide) (price : ℤ)
    → SameLevels s (update_best_after_remove is_buy s price)
remove-SameLevels true s price = bid_remove-SameLevels s price
remove-SameLevels false s price = ask_remove-SameLevels s price

-- A level that becomes another changes the side's volume by the difference.
pub take_level-side_volume :
    (is_buy : Bool) (s : BookSide) (price : ℤ) (l : PriceLevel)
    → price_to_index price < max_price_levels
    → side_volume (take_level is_buy s price l)
      ≡ side_volume s +ℤ (l.total_volume -ℤ (s.levels (price_to_index price)).total_volume)
unfolding take_level side_volume
take_level-side_volume is_buy s price l h = elim (Bool-cases (empty l)) [
  | inl e ↦
      rw (e, (remove-SameLevels is_buy _ price).levels)
        (sum_volume-update s.levels (price_to_index price) max_price_levels l h)
  | inr e ↦ rw e (sum_volume-update s.levels (price_to_index price) max_price_levels l h)
]
