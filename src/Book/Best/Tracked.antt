-- ===== src/Book/Best/Tracked.antt =====
-- order_book.h: the levels and their count in the updates of the best prices.
use titan_lob.Prelude.{◌≡◌, ℤ, arith}
use titan_lob.Book.State.{BookSide}
use titan_lob.Book.Best.{
  update_best_bid_after_add, update_best_ask_after_add, update_best_bid_after_remove,
  update_best_ask_after_remove,
}

pub record SameLevels (s s' : BookSide) : Type 0 where
  pub levels : s'.levels ≡ s.levels
  pub level_count : s'.level_count ≡ s.level_count

pub bid_add-SameLevels :
    (s : BookSide) (price : ℤ) → SameLevels s (update_best_bid_after_add s price)
unfolding update_best_bid_after_add
bid_add-SameLevels s price = ground arith

pub ask_add-SameLevels :
    (s : BookSide) (price : ℤ) → SameLevels s (update_best_ask_after_add s price)
unfolding update_best_ask_after_add
ask_add-SameLevels s price = ground arith

pub bid_remove-SameLevels :
    (s : BookSide) (price : ℤ) → SameLevels s (update_best_bid_after_remove s price)
unfolding update_best_bid_after_remove
bid_remove-SameLevels s price = ground arith

pub ask_remove-SameLevels :
    (s : BookSide) (price : ℤ) → SameLevels s (update_best_ask_after_remove s price)
unfolding update_best_ask_after_remove
ask_remove-SameLevels s price = ground arith
