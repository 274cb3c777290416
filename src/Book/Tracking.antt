-- ===== src/Book/Tracking.antt =====
-- The best prices through the book's operations: what a method does to a side when it has written a
-- level back, at the start, and at a reset.
use titan_lob.Prelude.{
  ℕ, zero, suc, ◌%◌, ◌∙◌, ◌<◌, ◌≡◌, refl, Bool, true, false, Bool-cases, inl, inr, arith, pos,
  negsuc, update,
}
use titan_lob.Bits.{digit}
use titan_lob.Bitmap.{max_price_levels, test}
use titan_lob.Bitmap.Levels.{test-digit}
use titan_lob.Bitmap.Find.{Highest, Lowest}
use titan_lob.Book.Types.{PriceLevel, empty}
use titan_lob.Book.State.{BookSide, new_bid, new_ask}
use titan_lob.Book.Links.{count_up, count_down}
use titan_lob.Book.Best.Marks.{Marks-keep}
use titan_lob.Book.Best.BidSide.{
  BidTracked, bid_add-BidTracked, bid_remove-BidTracked, BestBid, BidTracked-best,
}
use titan_lob.Book.Best.AskSide.{
  AskTracked, ask_add-AskTracked, ask_remove-AskTracked, BestAsk, AskTracked-best,
}
use titan_lob.Book.Add.{put_level}
use titan_lob.Book.Cancel.{take_level}

-- The bitmap, the best price and its word agree with the levels.
abbrev pub IsTracked : (is_buy : Bool) → BookSide → Type 0
IsTracked true s = BidTracked s
IsTracked false s = AskTracked s

-- the highest level with an order for bids, the lowest for asks
abbrev pub IsBest : (is_buy : Bool) → BookSide → Type 0
IsBest true s = BestBid s.levels s.best
IsBest false s = BestAsk s.levels s.best

pub IsTracked-IsBest : (is_buy : Bool) (s : BookSide) → IsTracked is_buy s → IsBest is_buy s
IsTracked-IsBest true s t = BidTracked-best s t
IsTracked-IsBest false s t = AskTracked-best s t

pub keep-IsTracked :
    (is_buy : Bool) (s : BookSide) (n : ℕ) (level : PriceLevel)
    → empty level ≡ false
    → empty (s.levels n) ≡ false
    → IsTracked is_buy s
    → IsTracked is_buy (record s { levels = update s.levels n level })
keep-IsTracked true s n level full before t = record {
  words = t.words;
  marks = Marks-keep s.bitmap s.levels n level t.marks full before;
  best = t.best;
  word = t.word;
}
keep-IsTracked false s n level full before t = record {
  low = t.low;
  words = t.words;
  marks = Marks-keep s.bitmap s.levels n level t.marks full before;
  lowest = t.lowest;
  best = t.best;
  word = t.word;
}

put_kept :
    (is_buy : Bool) (s : BookSide) (n : ℕ) (level : PriceLevel) (was_empty : Bool)
    → was_empty ≡ empty (s.levels n)
    → n < max_price_levels
    → empty level ≡ false
    → IsTracked is_buy s
    → IsTracked is_buy (put_level is_buy s (pos n) was_empty level)
unfolding put_level
put_kept true s n level true e lt full t =
    bid_add-BidTracked s n (count_up s.level_count) level lt full t
put_kept false s n level true e lt full t =
    ask_add-AskTracked s n (count_up s.level_count) level lt full t
put_kept is_buy s n level false e lt full t = keep-IsTracked is_buy s n level full (ground arith) t

-- When an order has been linked into a level of the book, the side's bitmap, best price and word are
-- right again, and the best price is the best of the levels that hold an order.
pub put_level-IsTracked :
    (is_buy : Bool) (s : BookSide) (n : ℕ) (level : PriceLevel)
    → n < max_price_levels
    → empty level ≡ false
    → IsTracked is_buy s
    → let s' = put_level is_buy s (pos n) (empty (s.levels n)) level in
      IsTracked is_buy s' × IsBest is_buy s'
put_level-IsTracked is_buy s n level lt full t =
    let k = put_kept is_buy s n level (empty (s.levels n)) refl lt full t in
    (k, IsTracked-IsBest is_buy _ k)

take_kept :
    (is_buy : Bool) (s : BookSide) (n : ℕ) (level : PriceLevel)
    → n < max_price_levels
    → empty (s.levels n) ≡ false
    → IsTracked is_buy s
    → IsTracked is_buy (take_level is_buy s (pos n) level)
unfolding take_level
take_kept true s n level lt before t = elim (Bool-cases (empty level)) [
  | inl gone ↦ rw gone (bid_remove-BidTracked s n (count_down s.level_count) level lt before gone t)
  | inr full ↦ rw full (keep-IsTracked true s n level full before t)
]
take_kept false s n level lt before t = elim (Bool-cases (empty level)) [
  | inl gone ↦ rw gone (ask_remove-AskTracked s n (count_down s.level_count) level lt before gone t)
  | inr full ↦ rw full (keep-IsTracked false s n level full before t)
]

-- When orders have been taken from a level of the book that held one, the side's bitmap, best price
-- and word are right again, whether an order is left at the level or not, and the best price is the
-- best of the levels that hold an order.
pub take_level-IsTracked :
    (is_buy : Bool) (s : BookSide) (n : ℕ) (level : PriceLevel)
    → n < max_price_levels
    → empty (s.levels n) ≡ false
    → IsTracked is_buy s
    → let s' = take_level is_buy s (pos n) level in IsTracked is_buy s' × IsBest is_buy s'
take_level-IsTracked is_buy s n level lt before t =
    let k = take_kept is_buy s n level lt before t in (k, IsTracked-IsBest is_buy _ k)

digit-zero : (k : ℕ) → digit 0 k ≡ false
digit-zero zero = refl
digit-zero (suc k) = digit-zero k

no_marks : (i : ℕ) → test (λ _. 0) i ≡ false
no_marks i = test-digit (λ _. 0) i ∙ digit-zero (i % 64)

pub new_bid-IsTracked : IsTracked true new_bid
new_bid-IsTracked = record {
  words = λ w. omega arith;
  marks = λ i lt. no_marks i;
  best = Highest.missing (λ j h. no_marks j);
  word = refl;
}

pub new_ask-IsTracked : IsTracked false new_ask
new_ask-IsTracked = record {
  low = negsuc 0;
  words = λ w. omega arith;
  marks = λ i lt. no_marks i;
  lowest = Lowest.missing (λ j p h. no_marks j);
  best = refl;
  word = refl;
}
