-- ===== src/Book/Orders/Sides.antt =====
-- The two sides of the book of order_book.h and the one array of levels that the lists are kept in.
use titan_lob.Prelude.{
  ℕ, ◌+◌, ◌*◌, ◌/◌, ◌%◌, ◌≡◌, ◌<◌, refl, ap, ◌∙◌, Bool, true, false, not, ◌==◌, Bool-cases, inl,
  inr, arith, ℤ, pos, ltb_ℤ, eqb_ℤ, update, update_lem,
}
use titan_lob.Bitmap.{max_price_levels}
use titan_lob.Pool.{ObjectPool}
use titan_lob.Protocol.Messages.{int64_max}
use titan_lob.Book.Types.{Order, is_buy, PriceLevel, empty}
use titan_lob.Book.State.{BookSide, OrderIndex, Emitter, Book, price_to_index, own_side, other_side}
use titan_lob.Book.Best.BidSide.{BestBid}
use titan_lob.Book.Best.AskSide.{BestAsk}
use titan_lob.Book.Add.{set_side, put_level}
use titan_lob.Book.Add.Rest.{add-SameLevels}
use titan_lob.Book.Cancel.{take_level}
use titan_lob.Book.Cancel.Volume.{remove-SameLevels}
use titan_lob.Book.Match.{opposite_side_empty}
use titan_lob.Book.Links.Lists.{place, home}
use titan_lob.Book.Volume.Held.{Exact, Revolumed}
use titan_lob.Book.Tracking.{IsTracked, IsBest}
use titan_lob.Book.Orders.{Frame, Shown, levels_of, IsSound}

pub levels_of-place :
    (side : Bool) (b : Book) (n : ℕ) → levels_of b (place side n) ≡ (own_side side b).levels n
unfolding place
levels_of-place true b n =
    let odd : ((n * 2 + 1) % 2 == 1) ≡ true = ground arith in
    let half : (n * 2 + 1) / 2 ≡ n = omega arith in rw (odd, half) refl
levels_of-place false b n =
    let even : ((n * 2 + 0) % 2 == 1) ≡ false = ground arith in
    let half : (n * 2 + 0) / 2 ≡ n = omega arith in rw (even, half) refl

pub home_of : (o : Order) → home o ≡ place (is_buy o) (price_to_index o.price)
unfolding home
home_of o = refl

-- A side with another level is the array with another level.
pub levels_of-set :
    (side : Bool) (b : Book) (s : BookSide) (n : ℕ) (l : PriceLevel)
    → s.levels ≡ update (own_side side b).levels n l
    → (j : ℕ) → levels_of (set_side side b s) j ≡ update (levels_of b) (place side n) l j
unfolding place
levels_of-set true b s n l e j = rw e (elim (Bool-cases (j % 2 == 1)) [
  | inl odd ↦ rw odd (
      update_lem b.bid.levels n l (j / 2)
      ∙ ground (arith, update_lem (levels_of b) (n * 2 + 1) l j))
  | inr even ↦ rw even (ground (arith, update_lem (levels_of b) (n * 2 + 1) l j))
])
levels_of-set false b s n l e j = rw e (elim (Bool-cases (j % 2 == 1)) [
  | inl odd ↦ rw odd (ground (arith, update_lem (levels_of b) (n * 2 + 0) l j))
  | inr even ↦ rw even (
      update_lem b.ask.levels n l (j / 2)
      ∙ ground (arith, update_lem (levels_of b) (n * 2 + 0) l j))
])

pub put_level-levels :
    (side was_empty : Bool) (s : BookSide) (price : ℤ) (l : PriceLevel)
    → (put_level side s price was_empty l).levels ≡ update s.levels (price_to_index price) l
unfolding put_level
put_level-levels side true s price l = (add-SameLevels side _ price).levels
put_level-levels side false s price l = refl

pub take_level-levels :
    (side : Bool) (s : BookSide) (price : ℤ) (l : PriceLevel)
    → (take_level side s price l).levels ≡ update s.levels (price_to_index price) l
unfolding take_level
take_level-levels side s price l = elim (Bool-cases (empty l)) [
  | inl e ↦ rw e (remove-SameLevels side _ price).levels
  | inr e ↦ rw e refl
]

pub IsSound-IsTracked : (b : Book) (side : Bool) → IsSound b → IsTracked side (own_side side b)
IsSound-IsTracked b true h = h.bids
IsSound-IsTracked b false h = h.asks

-- A book with another side.
pub set_side-IsSound :
    (side : Bool) (b : Book) (s : BookSide) (p : ObjectPool Order) (x : OrderIndex) (out : Emitter)
    → IsSound b
    → IsTracked side s
    → Frame p x (levels_of (set_side side b s))
    → Shown p
    → Exact p (levels_of (set_side side b s))
    → IsSound (record (set_side side b s) { order_pool = p; index = x; out = out })
set_side-IsSound true b s p x out h t f sh e = record {
  frame = f;
  shown = sh;
  volumes = e;
  bids = t;
  asks = h.asks;
}
set_side-IsSound false b s p x out h t f sh e = record {
  frame = f;
  shown = sh;
  volumes = e;
  bids = h.bids;
  asks = t;
}

-- The same with the index as it is.
pub set_side_pool-IsSound :
    (side : Bool) (b : Book) (s : BookSide) (p : ObjectPool Order)
    → IsSound b
    → IsTracked side s
    → Frame p b.index (levels_of (set_side side b s))
    → Shown p
    → Exact p (levels_of (set_side side b s))
    → IsSound (record (set_side side b s) { order_pool = p })
set_side_pool-IsSound true b s p h t f sh e = record {
  frame = f;
  shown = sh;
  volumes = e;
  bids = t;
  asks = h.asks;
}
set_side_pool-IsSound false b s p h t f sh e = record {
  frame = f;
  shown = sh;
  volumes = e;
  bids = h.bids;
  asks = t;
}

-- the best level of a side
pub record BestAt (s : BookSide) (n : ℕ) : Type 0 where
  pub best : s.best ≡ pos n
  pub inside : n < max_price_levels
  pub full : empty (s.levels n) ≡ false

bid_at :
    (levels : ℕ → PriceLevel) (best : ℤ)
    → BestBid levels best
    → ltb_ℤ best (pos 0) ≡ false
    → (n : ℕ) × (best ≡ pos n) × (n < max_price_levels) × (empty (levels n) ≡ false)
bid_at levels _ (BestBid.highest i inside full above) h = (i, refl, inside, full)
bid_at levels _ (BestBid.no_bids gone) h = absurd (ground arith)

ask_at :
    (levels : ℕ → PriceLevel) (best : ℤ)
    → BestAsk levels best
    → eqb_ℤ best int64_max ≡ false
    → (n : ℕ) × (best ≡ pos n) × (n < max_price_levels) × (empty (levels n) ≡ false)
ask_at levels _ (BestAsk.lowest i inside full below) h = (i, refl, inside, full)
ask_at levels _ (BestAsk.no_asks gone) h = absurd (ground arith)

-- A side with an order has a best level, which holds an order.
pub best_at :
    (is_buy : Bool) (b : Book)
    → IsBest (not is_buy) (other_side is_buy b)
    → opposite_side_empty is_buy b ≡ false
    → (n : ℕ) × BestAt (other_side is_buy b) n
best_at true b h e =
    let (n, best, inside, full) = ask_at b.ask.levels b.ask.best h e in
    (n, record { best = best; inside = inside; full = full })
best_at false b h e =
    let (n, best, inside, full) = bid_at b.bid.levels b.bid.best h e in
    (n, record { best = best; inside = inside; full = full })

-- The volume that a side's new level counts.
pub set_side-Revolumed :
    (side : Bool) (b : Book) (s : BookSide) (n k : ℕ) (l : PriceLevel)
    → s.levels ≡ update (own_side side b).levels n l
    → place side n ≡ k
    → Revolumed (levels_of b) (levels_of (set_side side b s)) k l.total_volume
set_side-Revolumed side b s n k l e at m =
    ap (λ l. l.total_volume)
      (levels_of-set side b s n l e m ∙ ap (λ t. update (levels_of b) t l m) at)
    ∙ ground (arith, update_lem (levels_of b) k l m)
