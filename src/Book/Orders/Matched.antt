-- ===== src/Book/Orders/Matched.antt =====
-- `match_internal` of order_book.h on a sound book, for GTC and IOC: it ends, and the book stays sound.
use titan_lob.Prelude.{
  ℕ, ◌+◌, ◌≡◌, ◌<◌, refl, inl, inr, Bool, Bool-cases, some, arith, ℤ, pos, pos_part, ◌≤ℤ◌, ltb_ℤ,
  ltb_ℤ→lt,
}
use titan_lob.Bitmap.{max_price_levels}
use titan_lob.Book.Types.{TimeInForce, gtc, ioc, fok, aon}
use titan_lob.Book.State.{Book}
use titan_lob.Book.Match.{
  Incoming, Progress, opposite_side_empty, match_loop, match_rest, match_internal, incoming,
  start_progress, rest_remainder,
}
use titan_lob.Book.Match.Shrinks.{Shrinks, match_loop-Shrinks}
use titan_lob.Book.Match.Ends.{Filled, Limited, match_loop-returns}
use titan_lob.Book.Orders.{IsSound}
use titan_lob.Book.Orders.Added.{HasRoom, add_order_internal-IsSound}

-- The time in force of an order that is matched without a look at what is available.
abbrev pub IsImmediate : TimeInForce → Type 0
IsImmediate gtc = Unit
IsImmediate ioc = Unit
IsImmediate fok = ⊥
IsImmediate aon = ⊥

pub HasRoom-Shrinks :
    (b b' : Book) (order_id : ℕ)
    → HasRoom b order_id
    → Shrinks b.order_pool b.index b'.order_pool b'.index
    → HasRoom b' order_id
HasRoom-Shrinks b b' order_id room s =
    let pools = s.pool_size in
    let sizes = s.index_size in
    let pool = room.pool in
    let index = room.index in
    record {
      pool = omega arith;
      fits = room.fits;
      index = omega arith;
      fresh = λ lt. ground (arith, s.active order_id, room.fresh);
    }

module _ (fuel : ℕ) (b : Book) (order_id : ℕ) (side : Bool) (n : ℕ) (qty : ℤ) (h : IsSound b) where
  -- What the loop reaches.
  pub record Reached (s : Progress) : Type 0 where
    pub looped :
        match_loop fuel
          (incoming order_id side (pos n))
          (opposite_side_empty side b)
          (start_progress b qty)
        ≡ some s
    pub filled : Filled (incoming order_id side (pos n)) s
    pub limited : Limited (incoming order_id side (pos n)) (start_progress b qty) s
    pub shrinks : Shrinks b.order_pool b.index s.book.order_pool s.book.index

  pub reach : pos_part qty + 1 < fuel → pos 0 ≤ℤ qty → (s : Progress) × Reached s
  reach enough nonneg =
      let inc : Incoming = incoming order_id side (pos n) in
      let (s, e, f, limited) =
        match_loop-returns inc fuel (opposite_side_empty side b) (start_progress b qty) enough h
          nonneg refl in
      (
        s,
        record {
          looped = e;
          filled = f;
          limited = limited;
          shrinks =
              match_loop-Shrinks fuel inc (opposite_side_empty side b) (start_progress b qty) s e;
        },
      )

  match_rest_at :
      (tif : TimeInForce) (s : Progress)
      → Reached s
      → match_rest fuel b (incoming order_id side (pos n)) qty tif
        ≡ some (rest_remainder (incoming order_id side (pos n)) tif s, s.trade_count)
  unfolding match_rest
  match_rest_at tif s r = rw (r.looped, match_rest) refl

  pub match_internal_at :
      (tif : TimeInForce) (s : Progress)
      → IsImmediate tif
      → Reached s
      → match_internal fuel b order_id side (pos n) qty tif
        ≡ some (rest_remainder (incoming order_id side (pos n)) tif s, s.trade_count)
  unfolding match_internal
  match_internal_at gtc s t r = match_rest_at gtc s r
  match_internal_at ioc s t r = match_rest_at ioc s r
  match_internal_at fok s t r = absurd t
  match_internal_at aon s t r = absurd t

  pub remainder-IsSound :
      (tif : TimeInForce) (s : Progress)
      → IsImmediate tif
      → n < max_price_levels
      → HasRoom b order_id
      → Reached s
      → IsSound (rest_remainder (incoming order_id side (pos n)) tif s)
  unfolding rest_remainder
  remainder-IsSound gtc s t lt room r = elim (Bool-cases (ltb_ℤ (pos 0) s.remaining_qty)) [
    | inl more ↦ rw more (
        add_order_internal-IsSound s.book order_id side n s.remaining_qty 0 r.filled.sound
          (HasRoom-Shrinks b s.book order_id room r.shrinks) lt
          (ltb_ℤ→lt (pos 0) s.remaining_qty more))
    | inr done ↦ rw done r.filled.sound
  ]
  remainder-IsSound ioc s t lt room r = r.filled.sound
  remainder-IsSound fok s t lt room r = absurd t
  remainder-IsSound aon s t lt room r = absurd t
