-- ===== src/Book/Volume/Sums.antt =====
-- What the volume operations add to the sums of a level.
use titan_lob.Prelude.{◌≡◌, Bool, true, false, Bool-cases, inl, inr, ℤ, pos, ◌+ℤ◌, ◌-ℤ◌, int_laws}
use titan_lob.Book.Types.{Order, is_aon, total_quantity, PriceLevel}
use titan_lob.Book.Volume.{add_to_level_volume, remove_from_level_volume, adjust_level_volume}

-- what the all-or-none and the plain orders of a level do not account for
abbrev pub unaccounted : PriceLevel → ℤ
unaccounted l = l.total_volume -ℤ (l.total_aon_volume +ℤ l.total_non_aon_volume)

-- The level has gained `total`, of which `visible` shows; all of it is accounted for.
pub record Gains (l l' : PriceLevel) (total visible : ℤ) : Type 0 where
  pub volume : l'.total_volume ≡ l.total_volume +ℤ total
  pub shown : l'.total_visible_volume ≡ l.total_visible_volume +ℤ visible
  pub accounted : unaccounted l' ≡ unaccounted l
  pub same_head : l'.head ≡ l.head
  pub same_tail : l'.tail ≡ l.tail
  pub same_count : l'.count ≡ l.count

-- Adding an order gains its quantity.
pub add_to_level_volume_lem :
    (l : PriceLevel) (o : Order) → Gains l (add_to_level_volume l o) (total_quantity o) o.quantity
unfolding add_to_level_volume
add_to_level_volume_lem l o = elim (Bool-cases (is_aon o)) [
  | inl e ↦ rw e (omega int_laws)
  | inr e ↦ rw e (omega int_laws)
]

-- Removing an order loses its quantity.
pub remove_from_level_volume_lem :
    (l : PriceLevel) (o : Order)
    → Gains l (remove_from_level_volume l o) (pos 0 -ℤ total_quantity o) (pos 0 -ℤ o.quantity)
unfolding remove_from_level_volume
remove_from_level_volume_lem l o = elim (Bool-cases (is_aon o)) [
  | inl e ↦ rw e (omega int_laws)
  | inr e ↦ rw e (omega int_laws)
]

-- An adjustment gains its two deltas.
pub adjust_level_volume_lem :
    (l : PriceLevel) (visible_delta hidden_delta : ℤ) (aon : Bool)
    → Gains l
        (adjust_level_volume l visible_delta hidden_delta aon)
        (visible_delta +ℤ hidden_delta)
        visible_delta
unfolding adjust_level_volume
adjust_level_volume_lem l visible_delta hidden_delta true = omega int_laws
adjust_level_volume_lem l visible_delta hidden_delta false = omega int_laws
