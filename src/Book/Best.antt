-- ===== src/Book/Best.antt =====
-- order_book.h, the best price of each side and the word of the bitmap that it lies in.
pub mod Tracked
pub mod Marks
pub mod BidSide
pub mod AskSide
use titan_lob.Prelude.{
  ℕ, ◌/◌, Bool, ◌||◌, if◌then◌else◌, ℤ, pos, negsuc, pos_part, ltb_ℤ, leb_ℤ, eqb_ℤ,
}
use titan_lob.Bitmap
use titan_lob.Bitmap.{bitmap_words}
use titan_lob.Protocol.Messages.{int64_max}
use titan_lob.Book.Types.{empty}
use titan_lob.Book.State.{BookSide, no_bid, price_to_index, index_to_price}

unfoldable pub update_best_bid_after_add : BookSide → ℤ → BookSide
update_best_bid_after_add s price =
    let idx : ℕ = price_to_index price in
    let marked : BookSide = record s { bitmap = Bitmap.set s.bitmap idx } in
    if ltb_ℤ s.best (pos 0) || ltb_ℤ s.best price
    then record marked { best = price; best_word = pos (idx / 64) }
    else marked

unfoldable pub update_best_ask_after_add : BookSide → ℤ → BookSide
update_best_ask_after_add s price =
    let idx : ℕ = price_to_index price in
    let marked : BookSide = record s { bitmap = Bitmap.set s.bitmap idx } in
    if eqb_ℤ s.best int64_max || ltb_ℤ price s.best
    then record marked { best = price; best_word = pos (idx / 64) }
    else marked

-- The mark of a level that has become empty is taken away.
pub unmark : BookSide → ℕ → BookSide
unmark s idx = if empty (s.levels idx) then record s { bitmap = Bitmap.clear s.bitmap idx } else s

-- `new_best / 64` runs only for `new_best >= 0`.
unfoldable pub update_best_bid_after_remove : BookSide → ℤ → BookSide
unfolding unmark
update_best_bid_after_remove s removed_price =
    let u : BookSide = unmark s (price_to_index removed_price) in
    let new_best : ℤ = Bitmap.find_highest u.bitmap u.best_word in
    if eqb_ℤ removed_price s.best
    then (if leb_ℤ (pos 0) new_best
        then record u { best = index_to_price new_best; best_word = pos (pos_part new_best / 64) }
        else record u { best = no_bid; best_word = negsuc 0 })
    else u

unfoldable pub update_best_ask_after_remove : BookSide → ℤ → BookSide
unfolding unmark
update_best_ask_after_remove s removed_price =
    let u : BookSide = unmark s (price_to_index removed_price) in
    let new_best : ℤ = Bitmap.find_lowest u.bitmap bitmap_words u.best_word in
    if eqb_ℤ removed_price s.best
    then (if leb_ℤ (pos 0) new_best
        then record u { best = index_to_price new_best; best_word = pos (pos_part new_best / 64) }
        else record u { best = int64_max; best_word = pos 0 })
    else u
