-- ===== src/Book/Orders/Reach.antt =====
-- The public methods of `OptimizedOrderBook` in order_book.h, one after the other, as long as no
-- order is all-or-none or fill-or-kill.
use mathlib.Core.Path.{subst}
use titan_lob.Prelude.{
  ℕ, ◌+◌, ◌≡◌, ◌≤◌, ◌<◌, refl, sym, ap, ◌∙◌, inl, inr, Bool, Bool-cases, some, some_inj, arith, ℤ,
  pos, pos_part, ◌<ℤ◌, ltb_ℤ,
}
use titan_lob.Bitmap.{max_price_levels}
use titan_lob.Pool.{null_index}
use titan_lob.Pool.Invariant.{new-IsValid}
use titan_lob.Book.Types.{TimeInForce, gtc, ioc, fok, aon, default_order}
use titan_lob.Book.State.{Book, new, own_side}
use titan_lob.Book.Links.Lists.{place}
use titan_lob.Book.Volume.Held.{held}
use titan_lob.Book.Orders.Sides.{levels_of-place}
use titan_lob.Book.Add.{add_order_internal}
use titan_lob.Book.Match.{Progress, opposite_side_empty, incoming, start_progress, rest_remainder}
use titan_lob.Book.Api.{is_aggressive, add_order, match_order, cancel_order}
use titan_lob.Book.Orders.{IsSound}
use titan_lob.Book.Orders.Reset.{empty-IsSound}
use titan_lob.Book.Orders.Added.{HasRoom, add_order_internal-IsSound}
use titan_lob.Book.Orders.Cancelled.{cancel_order_internal-IsSound}
use titan_lob.Book.Orders.Matched.{
  IsImmediate, Reached, reach, match_internal_at, remainder-IsSound,
}
use titan_lob.Book.Orders.Apart.{
  IsApart, worse-MeetsNone, passive-MeetsNone, add_order_internal-IsApart,
  cancel_order_internal-IsApart, match_loop-IsApart, uncrossed,
}

-- A sound book in which no bid meets an ask.
pub record IsOrderly (b : Book) : Type 0 where
  pub sound : IsSound b
  pub apart : IsApart b

module _ (fuel : ℕ) (b : Book) (order_id : ℕ) (side : Bool) (n : ℕ) (qty : ℤ) (h : IsOrderly b)
    (more : pos 0 <ℤ qty) (lt : n < max_price_levels) (room : HasRoom b order_id)
    (enough : pos_part qty + 1 < fuel) where
  remainder-IsApart :
      (tif : TimeInForce) (s : Progress)
      → IsImmediate tif
      → Reached fuel b order_id side n qty h.sound s
      → IsApart (rest_remainder (incoming order_id side (pos n)) tif s)
  unfolding rest_remainder
  remainder-IsApart gtc s t r =
      let apart =
        match_loop-IsApart fuel (incoming order_id side (pos n)) (opposite_side_empty side b)
          (start_progress b qty) s r.looped h.apart in
      elim (Bool-cases (ltb_ℤ (pos 0) s.remaining_qty)) [
        | inr done ↦ rw done apart
        | inl left ↦ rw left (
            add_order_internal-IsApart s.book order_id side n s.remaining_qty 0
              (elim r.filled.stopped [
                | inl none ↦ absurd (ground arith)
                | inr worse ↦ worse-MeetsNone s.book order_id side n r.filled.sound worse
              ])
              apart)
      ]
  remainder-IsApart ioc s t r =
      match_loop-IsApart fuel (incoming order_id side (pos n)) (opposite_side_empty side b)
        (start_progress b qty) s r.looped h.apart
  remainder-IsApart fok s t r = absurd t
  remainder-IsApart aon s t r = absurd t

  match_order-IsOrderly :
      (tif : TimeInForce)
      → IsImmediate tif
      → (b' : Book) × (match_order fuel b order_id side (pos n) qty tif ≡ some b') × IsOrderly b'
  unfolding match_order
  match_order-IsOrderly tif t =
      let (s, r) = reach fuel b order_id side n qty h.sound enough (omega arith) in
      let e = match_internal_at fuel b order_id side n qty h.sound tif s t r in
      (
        rest_remainder (incoming order_id side (pos n)) tif s,
        rw e refl,
        record {
          sound = remainder-IsSound fuel b order_id side n qty h.sound tif s t lt room r;
          apart = remainder-IsApart tif s t r;
        },
      )

  -- `add_order` returns with enough fuel, whether it matches or rests.
  add_order-IsOrderly :
      (user_id : ℕ)
      → (b' : Book) × (add_order fuel b order_id side (pos n) qty user_id ≡ some b') × IsOrderly b'
  unfolding add_order match_order
  add_order-IsOrderly user_id = elim (Bool-cases (is_aggressive b side (pos n))) [
    | inl meets ↦ let (b', e, o) = match_order-IsOrderly gtc tt in (b', rw (add_order, meets) e, o)
    | inr rests ↦ (
      add_order_internal b order_id side (pos n) qty user_id,
      rw (add_order, rests) refl,
      record {
        sound = add_order_internal-IsSound b order_id side n qty user_id h.sound room lt more;
        apart =
            add_order_internal-IsApart b order_id side n qty user_id
              (passive-MeetsNone b side n h.sound rests) h.apart;
      },
    )
  ]

-- The constructor gives an orderly book.
new-IsOrderly : (capacity : ℕ) → 0 < capacity → capacity ≤ null_index → IsOrderly (new capacity)
unfolding new
new-IsOrderly capacity some_room small =
    let v = new-IsValid default_order capacity some_room small in
    record {
      sound = empty-IsSound (new capacity) v.0 v.1 (λ id lt. refl);
      apart = λ i j p q e f. absurd (ground arith);
    }

-- A call of a public method, with an order that the book can take.
pub data Step : Book → Book → Type 0 where
  added :
      (fuel : ℕ) (b b' : Book) (order_id : ℕ) (side : Bool) (n : ℕ) (qty : ℤ) (user_id : ℕ)
      → pos 0 <ℤ qty
      → n < max_price_levels
      → HasRoom b order_id
      → pos_part qty + 1 < fuel
      → add_order fuel b order_id side (pos n) qty user_id ≡ some b'
      → Step b b'
  matched :
      (fuel : ℕ) (b b' : Book) (order_id : ℕ) (side : Bool) (n : ℕ) (qty : ℤ) (tif : TimeInForce)
      → IsImmediate tif
      → pos 0 <ℤ qty
      → n < max_price_levels
      → HasRoom b order_id
      → pos_part qty + 1 < fuel
      → match_order fuel b order_id side (pos n) qty tif ≡ some b'
      → Step b b'
  cancelled : (b : Book) (order_id : ℕ) → Step b (cancel_order b order_id)

pub data Reachable : Book → Type 0 where
  start : (capacity : ℕ) → 0 < capacity → capacity ≤ null_index → Reachable (new capacity)
  then : (b b' : Book) → Reachable b → Step b b' → Reachable b'

cancel_order-IsOrderly :
    (b : Book) (order_id : ℕ) → IsOrderly b → IsOrderly (cancel_order b order_id)
unfolding cancel_order
cancel_order-IsOrderly b order_id h = record {
  sound = cancel_order_internal-IsSound b order_id h.sound;
  apart = cancel_order_internal-IsApart b order_id h.sound h.apart;
}

Step-IsOrderly : (b b' : Book) → Step b b' → IsOrderly b → IsOrderly b'
Step-IsOrderly _ _ (Step.added fuel b b' order_id side n qty user_id more lt room enough e) h =
    let (b1, e1, o) =
      add_order-IsOrderly fuel b order_id side n qty h more lt room enough user_id in
    subst IsOrderly (some_inj (sym e1 ∙ e)) o
Step-IsOrderly _ _ (Step.matched fuel b b' order_id side n qty tif t more lt room enough e) h =
    let (b1, e1, o) =
      match_order-IsOrderly fuel b order_id side n qty h more lt room enough tif t in
    subst IsOrderly (some_inj (sym e1 ∙ e)) o
Step-IsOrderly _ _ (Step.cancelled b order_id) h = cancel_order-IsOrderly b order_id h

-- A book that the public methods reach from the constructor is in order.
pub Reachable-IsOrderly : (b : Book) → Reachable b → IsOrderly b
Reachable-IsOrderly _ (Reachable.start capacity some_room small) =
    new-IsOrderly capacity some_room small
Reachable-IsOrderly _ (Reachable.then b b' r s) = Step-IsOrderly b b' s (Reachable-IsOrderly b r)

-- In a book that is reached from a new one by adds, GTC and IOC matches and cancels, the best bid is
-- below the best ask; where a side is empty, its best price is the value that says so. The orders of
-- the calls have positive quantities, prices of the book, and ids that are not active when they are
-- used, and the vectors have room.
pub best_bid_below_best_ask : (b : Book) → Reachable b → b.bid.best <ℤ b.ask.best
best_bid_below_best_ask b r = let o = Reachable-IsOrderly b r in uncrossed b o.sound o.apart

-- In every book reached so, the total volume of a level is what the live orders at its price and on its
-- side hold: the sum of the quantities that they show and hide.
pub level_volumes :
    (b : Book) (side : Bool) (n : ℕ)
    → Reachable b
    → ((own_side side b).levels n).total_volume ≡ held b.order_pool (place side n)
level_volumes b side n r =
    ap (λ l. l.total_volume) (sym (levels_of-place side b n))
    ∙ (Reachable-IsOrderly b r).sound.volumes (place side n)

-- In every book reached so, without FOK and AON matches, an order with a positive quantity, at a price
-- of the book and under an id that is not active, gets its answer: with fuel for more rounds than its quantity and one, `add_order`
-- returns, and `match_order` does for GTC and IOC; what they return is reached again.
pub add_order-returns :
    (fuel : ℕ) (b : Book) (order_id : ℕ) (side : Bool) (n : ℕ) (qty : ℤ) (user_id : ℕ)
    (tif : TimeInForce)
    → Reachable b
    → IsImmediate tif
    → pos 0 <ℤ qty
    → n < max_price_levels
    → HasRoom b order_id
    → pos_part qty + 1 < fuel
    → ((b' : Book) × (add_order fuel b order_id side (pos n) qty user_id ≡ some b') × Reachable b')
      × ((b' : Book) × (match_order fuel b order_id side (pos n) qty tif ≡ some b') × Reachable b')
add_order-returns fuel b order_id side n qty user_id tif r t more lt room enough =
    let o = Reachable-IsOrderly b r in
    let (b1, e1, o1) =
      add_order-IsOrderly fuel b order_id side n qty o more lt room enough user_id in
    let (b2, e2, o2) =
      match_order-IsOrderly fuel b order_id side n qty o more lt room enough tif t in
    (
      (
        b1,
        e1,
        Reachable.then b b1 r
            (Step.added fuel b b1 order_id side n qty user_id more lt room enough e1),
      ),
      (
        b2,
        e2,
        Reachable.then b b2 r
            (Step.matched fuel b b2 order_id side n qty tif t more lt room enough e2),
      ),
    )
