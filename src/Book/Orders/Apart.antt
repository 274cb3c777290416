-- ===== src/Book/Orders/Apart.antt =====
-- The two sides of the book in order_book.h: no bid meets an ask.
use titan_lob.Prelude.{
  ℕ, ◌≡◌, ◌<◌, sym, ap, ◌∙◌, ◌⊎◌, inl, inr, Bool, true, false, not, Bool-cases, some, arith, ℤ, pos,
  ◌<ℤ◌, ltb_ℤ, eqb_ℤ, update, update_lem, leb,
}
use titan_lob.Bitmap.{max_price_levels}
use titan_lob.Protocol.Messages.{int64_max}
use titan_lob.Book.Types.{Order, PriceLevel, OrderLocation, location_is_buy, empty}
use titan_lob.Book.State.{BookSide, Book, price_to_index, own_side, other_side}
use titan_lob.Book.Best.BidSide.{BestBid, BidTracked-best}
use titan_lob.Book.Best.AskSide.{BestAsk, AskTracked-best}
use titan_lob.Book.Add.{set_side, rest_order, make_order, add_order_internal}
use titan_lob.Book.Cancel.{cancel_active, is_cancellable, cancel_order_internal}
use titan_lob.Book.Api.{is_aggressive}
use titan_lob.Book.Match.{
  Walk, Incoming, Progress, opposite_side_empty, is_worse, finish_walk, skip_level, match_loop,
}
use titan_lob.Book.Match.Rounds.{best_of, level_of, match_loop_inv}
use titan_lob.Book.Cancel.Volume.{remove-SameLevels}
use titan_lob.Book.Match.Ends.{own_other}
use titan_lob.Book.Orders.Cancelled.{cancelled_full}
use titan_lob.Book.Orders.{IsSound}
use titan_lob.Book.Orders.Sides.{put_level-levels, take_level-levels}

-- Every bid is below every ask.
abbrev pub Apart : (bids asks : ℕ → PriceLevel) → Type 0
Apart bids asks =
    (i j : ℕ)
    → i < max_price_levels
    → j < max_price_levels
    → empty (bids i) ≡ false
    → empty (asks j) ≡ false
    → i < j

-- A level that has an order before it changes.
bids_taken :
    (bids asks : ℕ → PriceLevel) (n : ℕ) (l : PriceLevel)
    → empty (bids n) ≡ false
    → Apart bids asks
    → Apart (update bids n l) asks
bids_taken bids asks n l full a i j p q e f = ground (arith, update_lem bids n l i, a i j, a n j)

asks_taken :
    (bids asks : ℕ → PriceLevel) (n : ℕ) (l : PriceLevel)
    → empty (asks n) ≡ false
    → Apart bids asks
    → Apart bids (update asks n l)
asks_taken bids asks n l full a i j p q e f = ground (arith, update_lem asks n l j, a i j, a i n)

bids_put :
    (bids asks : ℕ → PriceLevel) (n : ℕ) (l : PriceLevel)
    → ((j : ℕ) → j < max_price_levels → empty (asks j) ≡ false → n < j)
    → Apart bids asks
    → Apart (update bids n l) asks
bids_put bids asks n l below a i j p q e f = ground (arith, update_lem bids n l i, a i j, below j)

asks_put :
    (bids asks : ℕ → PriceLevel) (n : ℕ) (l : PriceLevel)
    → ((i : ℕ) → i < max_price_levels → empty (bids i) ≡ false → i < n)
    → Apart bids asks
    → Apart bids (update asks n l)
asks_put bids asks n l above a i j p q e f = ground (arith, update_lem asks n l j, a i j, above i)

-- The prices of the two sides.
pub uncrossed : (b : Book) → IsSound b → Apart b.bid.levels b.ask.levels → b.bid.best <ℤ b.ask.best
uncrossed b h a =
    best_below b.bid.best b.ask.best (BidTracked-best b.bid h.bids) (AskTracked-best b.ask h.asks)
  where
    best_below : (p q : ℤ) → BestBid b.bid.levels p → BestAsk b.ask.levels q → p <ℤ q
    best_below _ _ (BestBid.highest i p e above) (BestAsk.lowest j q f below) =
        omega (arith, a i j p q e f)
    best_below _ _ (BestBid.highest i p e above) (BestAsk.no_asks gone) = omega arith
    best_below _ _ (BestBid.no_bids gone) (BestAsk.lowest j q f below) = omega arith
    best_below _ _ (BestBid.no_bids gone) (BestAsk.no_asks gone') = omega arith

-- An order at `n` meets none of the levels of the other side.
abbrev pub MeetsNone : Book → Bool → ℕ → Type 0
MeetsNone b true n = (j : ℕ) → j < max_price_levels → empty (b.ask.levels j) ≡ false → n < j
MeetsNone b false n = (i : ℕ) → i < max_price_levels → empty (b.bid.levels i) ≡ false → i < n

asks_above :
    (levels : ℕ → PriceLevel) (best : ℤ) (n : ℕ)
    → BestAsk levels best
    → (eqb_ℤ best int64_max ≡ true) ⊎ (pos n <ℤ best)
    → (j : ℕ) → j < max_price_levels
    → empty (levels j) ≡ false
    → n < j
asks_above levels _ n (BestAsk.lowest i inside full below) h j p e = ground (arith, below j, h)
asks_above levels _ n (BestAsk.no_asks gone) h j p e = absurd (ground (arith, gone j))

bids_below :
    (levels : ℕ → PriceLevel) (best : ℤ) (n : ℕ)
    → BestBid levels best
    → (ltb_ℤ best (pos 0) ≡ true) ⊎ (best <ℤ pos n)
    → (i : ℕ) → i < max_price_levels
    → empty (levels i) ≡ false
    → i < n
bids_below levels _ n (BestBid.highest k inside full above) h i p e = ground (arith, above i, h)
bids_below levels _ n (BestBid.no_bids gone) h i p e = absurd (ground (arith, gone i))

-- An order that finds the other side empty, or its best price worse, meets none.
pub worse-MeetsNone :
    (b : Book) (order_id : ℕ) (side : Bool) (n : ℕ)
    → IsSound b
    → (opposite_side_empty side b ≡ true)
      ⊎ (is_worse
            (record { order_id = order_id; is_buy = side; price = pos n })
            (other_side side b).best
          ≡ true)
    → MeetsNone b side n
worse-MeetsNone b order_id true n h w =
    asks_above b.ask.levels b.ask.best n (AskTracked-best b.ask h.asks)
      (elim w [ inl e ↦ inl e | inr e ↦ inr (ground arith) ])
worse-MeetsNone b order_id false n h w =
    bids_below b.bid.levels b.bid.best n (BidTracked-best b.bid h.bids)
      (elim w [ inl e ↦ inl e | inr e ↦ inr (ground arith) ])

pub passive-MeetsNone :
    (b : Book) (side : Bool) (n : ℕ)
    → IsSound b
    → is_aggressive b side (pos n) ≡ false
    → MeetsNone b side n
passive-MeetsNone b true n h e =
    asks_above b.ask.levels b.ask.best n (AskTracked-best b.ask h.asks) (ground arith)
passive-MeetsNone b false n h e =
    bids_below b.bid.levels b.bid.best n (BidTracked-best b.bid h.bids) (ground arith)

abbrev pub IsApart : Book → Type 0
IsApart b = Apart b.bid.levels b.ask.levels

-- The sides of a book with another side.
set_side-IsApart :
    (side : Bool) (b : Book) (s : BookSide) (n : ℕ) (l : PriceLevel)
    → s.levels ≡ update (own_side side b).levels n l
    → (empty ((own_side side b).levels n) ≡ false) ⊎ MeetsNone b side n
    → IsApart b
    → IsApart (set_side side b s)
set_side-IsApart true b s n l e h a = rw e (elim h [
  | inl full ↦ bids_taken b.bid.levels b.ask.levels n l full a
  | inr none ↦ bids_put b.bid.levels b.ask.levels n l none a
])
set_side-IsApart false b s n l e h a = rw e (elim h [
  | inl full ↦ asks_taken b.bid.levels b.ask.levels n l full a
  | inr none ↦ asks_put b.bid.levels b.ask.levels n l none a
])

rest_order-IsApart :
    (b : Book) (side : Bool) (order : Order)
    → MeetsNone b side (price_to_index order.price)
    → IsApart b
    → IsApart (rest_order b side order)
unfolding rest_order
rest_order-IsApart b side order none a =
    set_side-IsApart side b _ (price_to_index order.price) _
      (put_level-levels side _ (own_side side b) order.price _) (inr none) a

-- An order that meets none of the other side rests below it, or above it.
pub add_order_internal-IsApart :
    (b : Book) (order_id : ℕ) (side : Bool) (n : ℕ) (quantity : ℤ) (user_id : ℕ)
    → MeetsNone b side n
    → IsApart b
    → IsApart (add_order_internal b order_id side (pos n) quantity user_id)
unfolding add_order_internal
add_order_internal-IsApart b order_id side n quantity user_id none a =
    elim (Bool-cases (leb max_price_levels n)) [
      | inl out ↦ rw out a
      | inr inside ↦ rw inside (
          rest_order-IsApart b side
            (make_order order_id side (pos n) quantity (pos 0) (pos 0) user_id false) none a)
    ]

-- `cancel_order_internal` brings no bid up to an ask.
pub cancel_order_internal-IsApart :
    (b : Book) (order_id : ℕ) → IsSound b → IsApart b → IsApart (cancel_order_internal b order_id)
unfolding cancel_order_internal cancel_active
cancel_order_internal-IsApart b order_id h a = elim (Bool-cases (is_cancellable b order_id)) [
  | inr cannot ↦ rw cannot a
  | inl can ↦
      let loc : OrderLocation = b.index.location order_id in
      let side : Bool = location_is_buy loc in
      rw can (
        set_side-IsApart side b _ (price_to_index loc.price) _
          (take_level-levels side (own_side side b) loc.price _)
          (inl (cancelled_full b order_id h can)) a)
]

skip_level-IsApart :
    (inc : Incoming) (t : Progress) → IsApart t.book → IsApart (skip_level inc t).book
unfolding skip_level
skip_level-IsApart inc t p = elim (Bool-cases inc.is_buy) [
  | inl e ↦ rw (e, (remove-SameLevels false t.book.ask t.book.ask.best).levels) p
  | inr e ↦ rw (e, (remove-SameLevels true t.book.bid t.book.bid.best).levels) p
]

finish_walk-IsApart :
    (inc : Incoming) (t : Progress) (w : Walk)
    → empty (level_of inc t) ≡ false
    → IsApart t.book
    → IsApart (finish_walk inc t (best_of inc t) w).book
unfolding finish_walk
finish_walk-IsApart inc t w full p =
    set_side-IsApart (not inc.is_buy) t.book _ (price_to_index (best_of inc t)) w.level
      (take_level-levels (not inc.is_buy) (other_side inc.is_buy t.book) (best_of inc t) w.level
        ∙ ap (λ s. update s.levels (price_to_index (best_of inc t)) w.level)
            (sym (own_other inc.is_buy t.book)))
      (inl (
        ap (λ s. empty (s.levels (price_to_index (best_of inc t)))) (own_other inc.is_buy t.book)
        ∙ full))
      p

-- What a match takes from the other side, it takes from levels that hold orders.
pub match_loop-IsApart :
    (fuel : ℕ) (inc : Incoming) (side_empty : Bool) (s s' : Progress)
    → match_loop fuel inc side_empty s ≡ some s'
    → IsApart s.book
    → IsApart s'.book
match_loop-IsApart fuel inc side_empty s s' h a =
    match_loop_inv inc (λ t. IsApart t.book) (λ t p stays. skip_level-IsApart inc t p)
      (λ k t w p stays full e. finish_walk-IsApart inc t w full p) fuel side_empty s s' h a
