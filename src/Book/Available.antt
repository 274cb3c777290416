-- ===== src/Book/Available.antt =====
-- order_book.h, `calculate_available_quantity`: how much of an incoming order the book could fill.
-- The walk over a level's list takes fuel, `none` when it runs out.
use titan_lob.Prelude.{
  ℕ, zero, suc, ◌-◌, Bool, true, false, not, ◌&&◌, ◌==◌, if◌then◌else◌, Option, none, some, ℤ, pos,
  negsuc, ◌+ℤ◌, ◌-ℤ◌, ltb_ℤ, leb_ℤ, eqb_ℤ, min_ℤ, leb,
}
use titan_lob.Bitmap.{max_price_levels}
use titan_lob.Pool.{ObjectPool, null_index}
use titan_lob.Protocol.Messages.{int64_max}
use titan_lob.Book.Types.{Order, is_aon, total_quantity, PriceLevel, empty}
use titan_lob.Book.State.{Book}

-- The two locals of the method.
pub record Tally : Type 0 where
  pub available : ℤ
  pub remaining : ℤ

abbrev pub take_fill : Tally → ℤ → Tally
take_fill t fillable = record {
  available = t.available +ℤ fillable;
  remaining = t.remaining -ℤ fillable;
}

-- One order of a level: an all-or-none order is counted whole or not at all.
unfoldable pub tally_order : Order → Tally → Tally
tally_order order t =
    let order_total : ℤ = total_quantity order in
    if is_aon order
    then (if leb_ℤ order_total t.remaining then take_fill t order_total else t)
    else take_fill t (min_ℤ t.remaining order_total)

-- `while (curr != NULL_INDEX && remaining > 0)`
unfoldable pub tally_list : (fuel : ℕ) → ObjectPool Order → ℕ → Tally → Option Tally
tally_list zero p curr t = none
tally_list (suc fuel) p curr t =
    let rest = tally_list fuel p (p.pool curr).next (tally_order (p.pool curr) t) in
    if not (curr == null_index) && ltb_ℤ (pos 0) t.remaining then rest else some t

-- One price of the loop.
unfoldable pub tally_level : (fuel : ℕ) → ObjectPool Order → PriceLevel → Tally → Option Tally
tally_level fuel p level t =
    if empty level
    then some t
    else if eqb_ℤ level.total_aon_volume (pos 0)
    then some (take_fill t (min_ℤ t.remaining level.total_volume))
    else tally_list fuel p level.head t

-- Asks from price `n` up, with `rounds` levels left below MAX_PRICE_LEVELS: where none is left, the
-- source breaks.
unfoldable pub tally_asks :
    (fuel : ℕ) → ObjectPool Order → (ℕ → PriceLevel) → ℤ → (rounds n : ℕ) → Tally → Option Tally
tally_asks fuel p levels limit_price zero n t = some t
tally_asks fuel p levels limit_price (suc rounds) n t =
    elim (leb_ℤ (pos n) limit_price && ltb_ℤ (pos 0) t.remaining) [
      | true ↦ elim (tally_level fuel p (levels n) t) [
        | none ↦ none
        | some t' ↦ tally_asks fuel p levels limit_price rounds (suc n) t'
      ]
      | false ↦ some t
    ]

-- Bids from price `n` down; `n` counts the prices left, so that the price is `n - 1`. Below 0 the
-- source's loop goes through prices that it skips.
unfoldable pub tally_bids :
    (fuel : ℕ) → ObjectPool Order → (ℕ → PriceLevel) → ℤ → (n : ℕ) → Tally → Option Tally
tally_bids fuel p levels limit_price zero t = some t
tally_bids fuel p levels limit_price (suc n) t =
    elim (leb_ℤ limit_price (pos n) && ltb_ℤ (pos 0) t.remaining) [
      | true ↦ elim (if leb max_price_levels n then some t else tally_level fuel p (levels n) t) [
        | none ↦ none
        | some t' ↦ tally_bids fuel p levels limit_price n t'
      ]
      | false ↦ some t
    ]

abbrev pub start_tally : ℤ → Tally
start_tally incoming_qty = record { available = pos 0; remaining = incoming_qty }

abbrev pub available_of : Option Tally → Option ℤ
available_of none = none
available_of (some t) = some t.available

-- A best ask below 0 is none that the book ever has; its loop would start past every level.
unfoldable pub calculate_available_quantity :
    (fuel : ℕ) → Book → (is_buy : Bool) → (limit_price incoming_qty : ℤ) → Option ℤ
calculate_available_quantity fuel b true limit_price incoming_qty =
    if eqb_ℤ b.ask.best int64_max then some (pos 0) else elim b.ask.best [
      | pos n ↦ available_of (
          tally_asks fuel b.order_pool b.ask.levels limit_price (max_price_levels - n) n
            (start_tally incoming_qty))
      | negsuc _ ↦ some (pos 0)
    ]
calculate_available_quantity fuel b false limit_price incoming_qty = elim b.bid.best [
  | pos n ↦
      available_of
        (tally_bids fuel b.order_pool b.bid.levels limit_price (suc n) (start_tally incoming_qty))
  | negsuc _ ↦ some (pos 0)
]
