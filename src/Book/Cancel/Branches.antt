-- ===== src/Book/Cancel/Branches.antt =====
-- `cancel_order_internal` of order_book.h, on each branch.
use titan_lob.Prelude.{
  ℕ, ◌≡◌, refl, ap, ◌∙◌, Bool, true, false, ◌==◌, if◌then◌else◌, arith, ◌-ℤ◌, int_laws, parts_of_eq,
  ◌∷◌, update_lem,
}
use titan_lob.Bits.{digit, digit-bit_and, bit_and-pow_eq_zero}
use titan_lob.Pool
use titan_lob.Pool.{ObjectPool}
use titan_lob.Book.Types.{
  Order, total_quantity, PriceLevel, OrderLocation, location_is_buy, is_active, set_active,
}
use titan_lob.Book.State.{BookSide, Book, price_to_index, own_side, other_side}
use titan_lob.Book.Links.{list_remove}
use titan_lob.Book.Links.Chain.{list_remove-OnlyLinks}
use titan_lob.Book.Volume.{remove_from_level_volume}
use titan_lob.Book.Volume.Sums.{remove_from_level_volume_lem}
use titan_lob.Book.Volume.Side.{side_volume}
use titan_lob.Book.Add.{set_side}
use titan_lob.Book.Cancel.{
  take_level, deactivate, cancel_active, is_cancellable, cancel_order_internal,
}
use titan_lob.Book.Cancel.Volume.{take_level-side_volume}

pub set_active-is_active : (loc : OrderLocation) → is_active (set_active loc false) ≡ false
set_active-is_active loc =
    let bit = digit-bit_and 1 loc.flags 0xfd in
    let mask : digit 0xfd 1 ≡ false = refl in
    let tested = bit_and-pow_eq_zero 1 (set_active loc false).flags in ground arith

-- the order that a number leads to, and its side
abbrev pub order_at : Book → ℕ → Order
order_at b order_id = b.order_pool.pool (b.index.location order_id).pool_idx

abbrev pub side_at : Book → ℕ → Bool
side_at b order_id = location_is_buy (b.index.location order_id)

pub record Cancelled (b : Book) (order_id : ℕ) (b' : Book) : Type 0 where
  pub volume :
      side_volume (own_side (side_at b order_id) b')
      ≡ side_volume (own_side (side_at b order_id) b) -ℤ total_quantity (order_at b order_id)
  pub other : other_side (side_at b order_id) b' ≡ other_side (side_at b order_id) b
  pub inactive : is_active (b'.index.location order_id) ≡ false
  pub others : (j : ℕ) → (j == order_id) ≡ false → b'.index.location j ≡ b.index.location j
  pub freed :
      b'.order_pool.free_indices ≡ (b.index.location order_id).pool_idx ∷ b.order_pool.free_indices
  pub again : cancel_order_internal b' order_id ≡ b'

set_side_lem :
    (is_buy : Bool) (b : Book) (s : BookSide)
    → (own_side is_buy (set_side is_buy b s) ≡ s)
      × (other_side is_buy (set_side is_buy b s) ≡ other_side is_buy b)
set_side_lem true b s = (refl, refl)
set_side_lem false b s = (refl, refl)

-- The level that the order leaves, and its volume.
module _ (b : Book) (order_id : ℕ) where
  abbrev loc : OrderLocation
  loc = b.index.location order_id

  abbrev level_before : PriceLevel
  level_before = (own_side (side_at b order_id) b).levels (price_to_index loc.price)

  abbrev removed : ObjectPool Order × PriceLevel
  removed =
      list_remove b.order_pool (remove_from_level_volume level_before (order_at b order_id))
        loc.pool_idx

  removed_volume :
      removed.1.total_volume ≡ level_before.total_volume -ℤ total_quantity (order_at b order_id)
  removed_volume =
      let links =
        list_remove-OnlyLinks b.order_pool
          (remove_from_level_volume level_before (order_at b order_id)) loc.pool_idx in
      let loss =
        parts_of_eq (remove_from_level_volume_lem level_before (order_at b order_id)).volume in
      links.1.total ∙ omega (int_laws, loss)

  sides :
      (own_side (side_at b order_id) (cancel_active b order_id)
        ≡ take_level (side_at b order_id) (own_side (side_at b order_id) b) loc.price removed.1)
      × (other_side (side_at b order_id) (cancel_active b order_id)
          ≡ other_side (side_at b order_id) b)
  unfolding cancel_active
  sides =
      set_side_lem (side_at b order_id) b
        (take_level (side_at b order_id) (own_side (side_at b order_id) b) loc.price removed.1)

  inactive_after : is_active ((cancel_active b order_id).index.location order_id) ≡ false
  unfolding cancel_active deactivate
  inactive_after =
      ap is_active (
        update_lem b.index.location order_id (set_active (b.index.location order_id) false)
          order_id)
      ∙ same
    where
      same :
          is_active (
            if order_id == order_id
            then set_active (b.index.location order_id) false
            else b.index.location order_id)
          ≡ false
      same =
          let here : (order_id == order_id) ≡ true = ground arith in
          rw here (set_active-is_active (b.index.location order_id))

  cancel_active-Cancelled :
      is_cancellable b order_id ≡ true → Cancelled b order_id (cancel_active b order_id)
  unfolding cancel_active cancel_order_internal deactivate Pool.free
  cancel_active-Cancelled h = record {
    volume =
        ap side_volume sides.0
        ∙ take_level-side_volume (side_at b order_id) (own_side (side_at b order_id) b) loc.price
            removed.1 (ground arith)
        ∙ (let loss = parts_of_eq removed_volume in omega (int_laws, loss));
    other = sides.1;
    inactive = inactive_after;
    others = λ j ne.
        update_lem b.index.location order_id (set_active (b.index.location order_id) false) j
        ∙ rw ne refl;
    freed =
        ap (λ is. loc.pool_idx ∷ is)
          (list_remove-OnlyLinks b.order_pool
            (remove_from_level_volume level_before (order_at b order_id))
            loc.pool_idx).0.free_indices;
    again =
        let gone : is_cancellable (cancel_active b order_id) order_id ≡ false =
          let off = inactive_after in ground arith in
        rw gone refl;
  }

-- `cancel_order_internal` of an order that is known, active and at a price of the book takes the order's
-- whole quantity off the volume of its side, leaves the other side alone, makes that order inactive and
-- no other, gives its place back to the pool, and does nothing when it is called again.
pub cancel_order_internal-Cancelled :
    (b : Book) (order_id : ℕ)
    → is_cancellable b order_id ≡ true
    → Cancelled b order_id (cancel_order_internal b order_id)
unfolding cancel_order_internal
cancel_order_internal-Cancelled b order_id h =
    rw (cancel_order_internal, h) (cancel_active-Cancelled b order_id h)
