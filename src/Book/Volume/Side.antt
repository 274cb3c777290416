-- ===== src/Book/Volume/Side.antt =====
-- The volume of a side of the book: the sum over its levels.
use titan_lob.Prelude.{
  ℕ, zero, suc, ◌≤◌, ◌<◌, ◌≡◌, refl, false, ◌==◌, Bool-cases, inl, inr, ==_iff, arith, ℤ, pos, ◌+ℤ◌,
  ◌-ℤ◌, int_laws, update, update_lem,
}
use titan_lob.Bitmap.{max_price_levels}
use titan_lob.Book.Types.{PriceLevel}
use titan_lob.Book.State.{BookSide}

unfoldable pub sum_volume : (ℕ → PriceLevel) → ℕ → ℤ
sum_volume levels zero = pos 0
sum_volume levels (suc n) = sum_volume levels n +ℤ (levels n).total_volume

sum_volume-update_out :
    (levels : ℕ → PriceLevel) (i n : ℕ) (l : PriceLevel)
    → n ≤ i
    → sum_volume (update levels i l) n ≡ sum_volume levels n
unfolding sum_volume
sum_volume-update_out levels i zero l h = refl
sum_volume-update_out levels i (suc n) l h =
    let other : (n == i) ≡ false = ground arith in
    rw (sum_volume-update_out levels i n l (omega arith), update_lem levels i l n, other)

-- Writing a level below `n` changes the sum by what the level changes.
pub sum_volume-update :
    (levels : ℕ → PriceLevel) (i n : ℕ) (l : PriceLevel)
    → i < n
    → sum_volume (update levels i l) n
      ≡ sum_volume levels n +ℤ (l.total_volume -ℤ (levels i).total_volume)
unfolding sum_volume
sum_volume-update levels i zero l h = absurd (omega arith)
sum_volume-update levels i (suc n) l h = elim (Bool-cases (n == i)) [
  | inl e ↦
      let same : n ≡ i = (==_iff n i).0 e in
      rw (sum_volume-update_out levels i n l (omega arith), update_lem levels i l n, e, same)
        (omega int_laws)
  | inr ne ↦
      rw (sum_volume-update levels i n l (ground arith), update_lem levels i l n, ne)
        (omega int_laws)
]

-- The volume of all the levels of a side.
unfoldable pub side_volume : BookSide → ℤ
side_volume s = sum_volume s.levels max_price_levels
