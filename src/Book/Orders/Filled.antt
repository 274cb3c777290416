-- ===== src/Book/Orders/Filled.antt =====
-- `match_internal` of order_book.h on a sound book: what it does to the orders of the two sides.
use mathlib.Core.Path.{ap₂}
use titan_lob.Prelude.{
  ℕ, zero, suc, ◌+◌, ◌≡◌, ◌<◌, refl, sym, ap, ◌∙◌, ◌⊎◌, inl, inr, Bool, true, false, not,
  Bool-cases, some, ℤ, pos, pos_part, ◌+ℤ◌, ◌-ℤ◌, ◌≤ℤ◌, ltb_ℤ, ltb_ℤ→ge, int_laws, parts_of_eq,
}
use titan_lob.Bitmap.{max_price_levels}
use titan_lob.Book.Types.{TimeInForce, gtc, ioc, fok, aon}
use titan_lob.Book.State.{Book, own_side, other_side}
use titan_lob.Book.Links.Lists.{place}
use titan_lob.Book.Volume.Side.{sum_volume, side_volume}
use titan_lob.Book.Volume.Held.{held, sum_to}
use titan_lob.Book.Add.{add_order_internal}
use titan_lob.Book.Add.Rest.{Rested, adds-Rested}
use titan_lob.Book.Match.{
  Progress, is_worse, opposite_side_empty, match_internal, incoming, start_progress, rest_remainder,
}
use titan_lob.Book.Match.Conserve.{Settles, match_loop-Settles}
use titan_lob.Book.Match.Ends.{own_other}
use titan_lob.Book.Orders.{IsSound}
use titan_lob.Book.Orders.Added.{HasRoom}
use titan_lob.Book.Orders.Apart.{MeetsNone, worse-MeetsNone}
use titan_lob.Book.Orders.Matched.{
  IsImmediate, Reached, reach, match_internal_at, remainder-IsSound,
}
use titan_lob.Book.Orders.Sides.{levels_of-place}

-- What the live orders of a side hold, over all its prices: the quantities that they show and hide.
unfoldable pub orders_volume : Bool → Book → ℤ
orders_volume side b = sum_to (λ n. held b.order_pool (place side n)) max_price_levels

-- The counters of a sound book tell what its orders hold.
pub side_volume-orders_volume :
    (side : Bool) (b : Book) → IsSound b → side_volume (own_side side b) ≡ orders_volume side b
unfolding side_volume orders_volume sum_to sum_volume
side_volume-orders_volume side b h = sums max_price_levels
  where
    sums :
        (n : ℕ)
        → sum_volume (own_side side b).levels n ≡ sum_to (λ n. held b.order_pool (place side n)) n
    sums zero = refl
    sums (suc n) =
        ap₂ (λ x y. x +ℤ y) (sums n)
          (ap (λ l. l.total_volume) (sym (levels_of-place side b n)) ∙ h.volumes (place side n))

-- what of `left` rests
abbrev pub rest_of : TimeInForce → ℤ → ℤ
rest_of gtc left = left
rest_of ioc left = pos 0
rest_of fok left = pos 0
rest_of aon left = left

-- A match of `qty` at the price `n`: `left` of it is not filled, the orders of the other side have lost
-- the others exactly, and `left` comes to the own side or is dropped. Nothing is left that an order of the
-- other side would meet, and the levels at prices that the incoming order does not accept are as before.
pub record Matches (tif : TimeInForce) (side : Bool) (n : ℕ) (qty : ℤ) (b b' : Book) : Type 0 where
  pub left : ℤ
  pub nonneg : pos 0 ≤ℤ left
  pub fills : orders_volume (not side) b ≡ orders_volume (not side) b' +ℤ (qty -ℤ left)
  pub rests : orders_volume side b' ≡ orders_volume side b +ℤ rest_of tif left
  pub complete : (left ≡ pos 0) ⊎ MeetsNone b' side n
  pub limited :
      (m : ℕ)
      → is_worse (record { order_id = 0; is_buy = side; price = pos n }) (pos m) ≡ true
      → (other_side side b').levels m ≡ (other_side side b).levels m

MeetsNone-same :
    (b b' : Book) (side : Bool) (n : ℕ)
    → other_side side b' ≡ other_side side b
    → MeetsNone b side n
    → MeetsNone b' side n
MeetsNone-same b b' true n e h = rw e h
MeetsNone-same b b' false n e h = rw e h

module _ (fuel : ℕ) (b : Book) (order_id : ℕ) (side : Bool) (n : ℕ) (qty : ℤ) (h : IsSound b) where
  -- What the loop has filled, in the orders of a sound book with the same other side.
  filled_from :
      (s : Progress) (b' : Book)
      → Settles (incoming order_id side (pos n)) (start_progress b qty) s
      → IsSound b'
      → other_side side b' ≡ other_side side s.book
      → orders_volume (not side) b ≡ orders_volume (not side) b' +ℤ (qty -ℤ s.remaining_qty)
  filled_from s b' t h' same =
      let before : side_volume (other_side side b) ≡ orders_volume (not side) b =
        ap side_volume (sym (own_other side b)) ∙ side_volume-orders_volume (not side) b h in
      let after : side_volume (other_side side s.book) ≡ orders_volume (not side) b' =
        ap side_volume (sym same ∙ sym (own_other side b'))
        ∙ side_volume-orders_volume (not side) b' h' in
      let e = parts_of_eq (rw (before, after) at t.balanced) in omega (int_laws, e)

  own_kept :
      (s : Progress) (b' : Book)
      → Settles (incoming order_id side (pos n)) (start_progress b qty) s
      → IsSound b'
      → (gain : ℤ) → side_volume (own_side side b') ≡ side_volume (own_side side s.book) +ℤ gain
      → orders_volume side b' ≡ orders_volume side b +ℤ gain
  own_kept s b' t h' gain e =
      sym (side_volume-orders_volume side b' h')
      ∙ e
      ∙ ap (λ v. v +ℤ gain) (ap side_volume t.own ∙ side_volume-orders_volume side b h)

  -- The end of a match, with what rests.
  closes :
      (tif : TimeInForce) (s : Progress) (b' : Book)
      → Reached fuel b order_id side n qty h s
      → IsSound b'
      → other_side side b' ≡ other_side side s.book
      → side_volume (own_side side b')
        ≡ side_volume (own_side side s.book) +ℤ rest_of tif s.remaining_qty
      → Matches tif side n qty b b'
  closes tif s b' r h' same gain =
      let t =
        match_loop-Settles fuel (incoming order_id side (pos n)) (opposite_side_empty side b)
          (start_progress b qty) s r.looped in
      record {
        left = s.remaining_qty;
        nonneg = r.filled.nonneg;
        fills = filled_from s b' t h' same;
        rests = own_kept s b' t h' (rest_of tif s.remaining_qty) gain;
        complete = elim r.filled.stopped [
          | inl none ↦ inl none
          | inr stops ↦ inr (
              MeetsNone-same s.book b' side n same
                (worse-MeetsNone s.book order_id side n r.filled.sound stops))
        ];
        limited = λ m worse. ap (λ t. t.levels m) same ∙ r.limited m worse;
      }

  -- The remainder of a match, with the orders that it leaves.
  remainder-Matches :
      (tif : TimeInForce) (s : Progress)
      → IsImmediate tif
      → n < max_price_levels
      → HasRoom b order_id
      → Reached fuel b order_id side n qty h s
      → Matches tif side n qty b (rest_remainder (incoming order_id side (pos n)) tif s)
  unfolding rest_remainder
  remainder-Matches gtc s t lt room r =
      let h' = remainder-IsSound fuel b order_id side n qty h gtc s t lt room r in
      elim (Bool-cases (ltb_ℤ (pos 0) s.remaining_qty)) [
        | inl more ↦
            let a : Rested side s.book
                (add_order_internal s.book order_id side (pos n) s.remaining_qty 0)
                s.remaining_qty =
              (adds-Rested s.book order_id side (pos n) s.remaining_qty (pos 0) 0 lt).0 in
            rw more (
              closes gtc s (add_order_internal s.book order_id side (pos n) s.remaining_qty 0) r
                (rw more at h') a.other a.gained)
        | inr done ↦
            let least = r.filled.nonneg in
            let most = ltb_ℤ→ge (pos 0) s.remaining_qty done in
            rw done (closes gtc s s.book r r.filled.sound refl (omega (int_laws, least, most)))
      ]
  remainder-Matches ioc s t lt room r = closes ioc s s.book r r.filled.sound refl (omega int_laws)
  remainder-Matches fok s t lt room r = absurd t
  remainder-Matches aon s t lt room r = absurd t

  -- A GTC or IOC match on a sound book returns, with fuel for more rounds than its quantity and one, and
  -- the book that it returns is sound. What is not filled is not negative and meets no order of the other
  -- side, whose levels at prices that the order does not accept are as they were. The rest of the
  -- quantity is exactly what the live orders of the other side hold less than before,
  -- and what the live orders of the own side hold more is the part that is not filled for GTC, nothing for
  -- IOC. The quantity is not negative, the price one of the book's, and the id not active.
  pub match_internal-Matches :
      (tif : TimeInForce)
      → IsImmediate tif
      → pos_part qty + 1 < fuel
      → pos 0 ≤ℤ qty
      → n < max_price_levels
      → HasRoom b order_id
      → (b' : Book) × (count : ℕ) × (match_internal fuel b order_id side (pos n) qty tif
          ≡ some (b', count))
        × IsSound b'
        × Matches tif side n qty b b'
  match_internal-Matches tif t enough nonneg lt room =
      let (s, r) = reach fuel b order_id side n qty h enough nonneg in
      (
        rest_remainder (incoming order_id side (pos n)) tif s,
        s.trade_count,
        match_internal_at fuel b order_id side n qty h tif s t r,
        remainder-IsSound fuel b order_id side n qty h tif s t lt room r,
        remainder-Matches tif s t lt room r,
      )
