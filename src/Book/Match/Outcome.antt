-- ===== src/Book/Match/Outcome.antt =====
-- `match_internal` of order_book.h as a whole: where the quantity of the incoming order goes.
use mathlib.Core.Path.{subst}
use titan_lob.Prelude.{
  ℕ, ◌<◌, ◌≡◌, refl, ap, Bool, false, Bool-cases, Option-cases, some, some_inj, none≢some, inl, inr,
  ℤ, pos, ◌+ℤ◌, ◌-ℤ◌, ◌≤ℤ◌, ltb_ℤ, ltb_ℤ→ge, int_laws, parts_of_eq,
}
use titan_lob.Bitmap.{max_price_levels}
use titan_lob.Book.Types.{TimeInForce, gtc, ioc, fok, aon}
use titan_lob.Book.State.{Book, price_to_index, own_side, other_side}
use titan_lob.Book.Volume.Side.{side_volume}
use titan_lob.Book.Add.{add_order_internal, add_aon_internal}
use titan_lob.Book.Add.Rest.{Rested, adds-Rested}
use titan_lob.Book.Available.{calculate_available_quantity}
use titan_lob.Book.Match.{
  Incoming, incoming, Progress, opposite_side_empty, match_loop, rest_remainder, start_progress,
  match_rest, match_if_available, match_internal,
}
use titan_lob.Book.Match.Conserve.{Settles, match_loop-Settles}

-- what the other side has lost
abbrev pub filled : Bool → Book → Book → ℤ
filled is_buy b b' = side_volume (other_side is_buy b) -ℤ side_volume (other_side is_buy b')

-- what the own side has gained
abbrev pub rested : Bool → Book → Book → ℤ
rested is_buy b b' = side_volume (own_side is_buy b') -ℤ side_volume (own_side is_buy b)

-- Where the quantity `qty` of an incoming order goes: what is not filled rests for GTC and AON;
-- nothing rests for IOC and FOK, and no more is filled than asked for.
abbrev pub Disposed : TimeInForce → Bool → Book → Book → ℤ → Type 0
Disposed gtc is_buy b b' qty = filled is_buy b b' +ℤ rested is_buy b b' ≡ qty
Disposed aon is_buy b b' qty = filled is_buy b b' +ℤ rested is_buy b b' ≡ qty
Disposed ioc is_buy b b' qty =
    (filled is_buy b b' ≤ℤ qty) × (own_side is_buy b' ≡ own_side is_buy b)
Disposed fok is_buy b b' qty =
    (filled is_buy b b' ≤ℤ qty) × (own_side is_buy b' ≡ own_side is_buy b)

module _ (b : Book) (inc : Incoming) (qty : ℤ) (s : Progress)
    (h : Settles inc (start_progress b qty) s) where
  filled_eq : filled inc.is_buy b s.book ≡ qty -ℤ s.remaining_qty
  filled_eq = let e = parts_of_eq h.balanced in omega (int_laws, e)

  dropped :
      pos 0 ≤ℤ qty
      → (filled inc.is_buy b s.book ≤ℤ qty) × (own_side inc.is_buy s.book ≡ own_side inc.is_buy b)
  dropped pos_qty =
      let e = parts_of_eq filled_eq in
      let left = h.nonneg pos_qty in (omega (int_laws, e, left), h.own)

  rests :
      (b' : Book)
      → Rested inc.is_buy s.book b' s.remaining_qty
      → filled inc.is_buy b b' +ℤ rested inc.is_buy b b' ≡ qty
  rests b' r = rw (r.other, r.gained, h.own) (let e = parts_of_eq filled_eq in omega (int_laws, e))

  nothing_left :
      pos 0 ≤ℤ qty
      → ltb_ℤ (pos 0) s.remaining_qty ≡ false
      → filled inc.is_buy b s.book +ℤ rested inc.is_buy b s.book ≡ qty
  nothing_left pos_qty none_left =
      let e = parts_of_eq filled_eq in
      let least = h.nonneg pos_qty in
      let most = ltb_ℤ→ge (pos 0) s.remaining_qty none_left in
      rw h.own (omega (int_laws, e, least, most))

  settles-Disposed :
      (tif : TimeInForce)
      → price_to_index inc.price < max_price_levels
      → pos 0 ≤ℤ qty
      → Disposed tif inc.is_buy b (rest_remainder inc tif s) qty
  unfolding rest_remainder
  settles-Disposed gtc lt pos_qty = elim (Bool-cases (ltb_ℤ (pos 0) s.remaining_qty)) [
    | inl more ↦ rw more (
        rests (add_order_internal s.book inc.order_id inc.is_buy inc.price s.remaining_qty 0)
          (adds-Rested s.book inc.order_id inc.is_buy inc.price s.remaining_qty (pos 0) 0 lt).0)
    | inr done ↦ rw done (nothing_left pos_qty done)
  ]
  settles-Disposed aon lt pos_qty = elim (Bool-cases (ltb_ℤ (pos 0) s.remaining_qty)) [
    | inl more ↦ rw more (
        rests (add_aon_internal s.book inc.order_id inc.is_buy inc.price s.remaining_qty 0)
          (adds-Rested s.book inc.order_id inc.is_buy inc.price s.remaining_qty (pos 0) 0 lt).2)
    | inr done ↦ rw done (nothing_left pos_qty done)
  ]
  settles-Disposed ioc lt pos_qty = dropped pos_qty
  settles-Disposed fok lt pos_qty = dropped pos_qty

module _ (fuel : ℕ) (b b' : Book) (inc : Incoming) (qty : ℤ) (n : ℕ)
    (lt : price_to_index inc.price < max_price_levels) (pos_qty : pos 0 ≤ℤ qty) where
  match_rest-Disposed :
      (tif : TimeInForce)
      → match_rest fuel b inc qty tif ≡ some (b', n)
      → Disposed tif inc.is_buy b b' qty
  unfolding match_rest
  match_rest-Disposed tif h =
      elim (Option-cases
        (match_loop fuel inc (opposite_side_empty inc.is_buy b) (start_progress b qty))) [
          | inl short ↦ absurd (none≢some (rw (short, match_rest) at h))
          | inr (s, e) ↦
              let result : some (rest_remainder inc tif s, s.trade_count) ≡ some (b', n) =
                rw (match_rest, e) at h in
              subst (λ r. Disposed tif inc.is_buy b r qty) (ap (λ r. r.0) (some_inj result))
                (settles-Disposed b inc qty s
                  (match_loop-Settles fuel inc (opposite_side_empty inc.is_buy b)
                    (start_progress b qty) s e)
                  tif lt pos_qty)
        ]

  match_if_available-Disposed :
      (tif : TimeInForce) (otherwise : Book)
      → Disposed tif inc.is_buy b otherwise qty
      → match_if_available fuel b inc qty tif otherwise ≡ some (b', n)
      → Disposed tif inc.is_buy b b' qty
  unfolding match_if_available
  match_if_available-Disposed tif otherwise d h =
      elim (Option-cases (calculate_available_quantity fuel b inc.is_buy inc.price qty)) [
        | inl short ↦ absurd (none≢some (rw (match_if_available, short) at h))
        | inr (available, e) ↦ elim (Bool-cases (ltb_ℤ available qty)) [
          | inl less ↦
              let result : some (otherwise, 0) ≡ some (b', n) =
                rw (match_if_available, e, less) at h in
              subst (λ r. Disposed tif inc.is_buy b r qty) (ap (λ r. r.0) (some_inj result)) d
          | inr enough ↦ match_rest-Disposed tif (rw (match_if_available, e, enough) at h)
        ]
      ]

-- Where a match returns, nothing of a quantity that is not negative is lost or made up. For GTC and
-- AON what the other side of the book loses and what the own side gains add up to it; for IOC and FOK
-- the own side is as it was, and the other side loses no more. The price is one of the book's.
pub match_internal-Disposed :
    (fuel : ℕ) (b b' : Book) (order_id : ℕ) (is_buy : Bool) (price qty : ℤ) (tif : TimeInForce)
    → (n : ℕ) → price_to_index price < max_price_levels
    → pos 0 ≤ℤ qty
    → match_internal fuel b order_id is_buy price qty tif ≡ some (b', n)
    → Disposed tif is_buy b b' qty
unfolding match_internal
match_internal-Disposed fuel b b' order_id is_buy price qty gtc n lt pos_qty h =
    match_rest-Disposed fuel b b' (incoming order_id is_buy price) qty n lt pos_qty gtc h
match_internal-Disposed fuel b b' order_id is_buy price qty ioc n lt pos_qty h =
    match_rest-Disposed fuel b b' (incoming order_id is_buy price) qty n lt pos_qty ioc h
match_internal-Disposed fuel b b' order_id is_buy price qty fok n lt pos_qty h =
    match_if_available-Disposed fuel b b' (incoming order_id is_buy price) qty n lt pos_qty fok b
      (omega (int_laws, pos_qty), refl) h
match_internal-Disposed fuel b b' order_id is_buy price qty aon n lt pos_qty h =
    match_if_available-Disposed fuel b b' (incoming order_id is_buy price) qty n lt pos_qty aon
      (add_aon_internal b order_id is_buy price qty 0) all_rests h
  where
    r : Rested is_buy b (add_aon_internal b order_id is_buy price qty 0) qty
    r = (adds-Rested b order_id is_buy price qty (pos 0) 0 lt).2

    all_rests :
        filled is_buy b (add_aon_internal b order_id is_buy price qty 0)
          +ℤ rested is_buy b (add_aon_internal b order_id is_buy price qty 0)
        ≡ qty
    all_rests = rw (r.other, r.gained) (omega int_laws)
