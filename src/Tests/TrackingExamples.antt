-- ===== src/Tests/TrackingExamples.antt =====
-- The best prices at concrete sides.
use titan_lob.Prelude.{◌≡◌, refl, true, false, arith, pos}
use titan_lob.Book.Types.{PriceLevel, reset_level, empty}
use titan_lob.Book.State.{BookSide, new_bid, new_ask}
use titan_lob.Book.Add.{put_level}
use titan_lob.Book.Best.{update_best_ask_after_add}
use titan_lob.Book.Cancel.{take_level}
use titan_lob.Book.Tracking.{
  IsTracked, IsBest, new_bid-IsTracked, new_ask-IsTracked, put_level-IsTracked,
  take_level-IsTracked,
}

-- a level that holds the order at index 0
abbrev one_order : PriceLevel
one_order = record reset_level { head = 0; tail = 0; count = 1 }

put_level_example :
    let s' = put_level true new_bid (pos 70) (empty (new_bid.levels 70)) one_order in
    IsTracked true s' × IsBest true s'
put_level_example =
    put_level-IsTracked true new_bid 70 one_order (omega arith) refl new_bid-IsTracked

abbrev one_ask : BookSide
one_ask = put_level false new_ask (pos 70) (empty (new_ask.levels 70)) one_order

one_ask-IsTracked : IsTracked false one_ask
one_ask-IsTracked =
    (put_level-IsTracked false new_ask 70 one_order (omega arith) refl new_ask-IsTracked).0

one_ask_holds : empty (one_ask.levels 70) ≡ false
unfolding put_level update_best_ask_after_add
one_ask_holds = refl

take_level_example :
    let s' = take_level false one_ask (pos 70) reset_level in IsTracked false s' × IsBest false s'
take_level_example =
    take_level-IsTracked false one_ask 70 reset_level (omega arith) one_ask_holds one_ask-IsTracked
