-- ===== src/Bitmap/Levels.antt =====
-- `bitmap_set`, `bitmap_clear` and `bitmap_test`: the words are a set of level indices.
use titan_lob.Prelude.{
  ℕ, ◌-◌, ◌/◌, ◌%◌, ◌^◌, ◌<◌, ◌≡◌, sym, ap, ◌∙◌, inl, inr, not, ◌&&◌, ◌||◌, arith, ◌==◌, Bool-cases,
  ==_iff,
}
use titan_lob.Bits.{
  digit, digit-bit_and, digit-bit_or, digit-pow, digit-clear_mask, bit_and-pow_eq_zero, pow_lt,
  bit_or_lt, bit_and-le,
}
use titan_lob.Bitmap.{Words, set, clear, test}

-- Each word is a `uint64_t`.
abbrev pub IsWords : Words → Type 0
IsWords bitmap = (w : ℕ) → bitmap w < 2 ^ 64

pub test-digit : (bitmap : Words) (i : ℕ) → test bitmap i ≡ digit (bitmap (i / 64)) (i % 64)
unfolding test
test-digit bitmap i = ground (arith, bit_and-pow_eq_zero (i % 64) (bitmap (i / 64)))

pub set-IsWords : (bitmap : Words) (i : ℕ) → IsWords bitmap → IsWords (set bitmap i)
unfolding set
set-IsWords bitmap i is w = ground (
  arith,
  is w,
  bit_or_lt 64 (bitmap (i / 64)) (2 ^ (i % 64)) (is (i / 64)) (pow_lt 64 (i % 64) (omega arith)),
)

pub clear-IsWords : (bitmap : Words) (i : ℕ) → IsWords bitmap → IsWords (clear bitmap i)
unfolding clear
clear-IsWords bitmap i is w = ground (
  arith,
  is w,
  is (i / 64),
  bit_and-le (bitmap (i / 64)) (bitmap (i / 64)) (2 ^ 64 - 1 - 2 ^ (i % 64)) (omega arith),
)

digit-set :
    (bitmap : Words) (i j : ℕ)
    → digit (set bitmap i (j / 64)) (j % 64) ≡ ((j == i) || digit (bitmap (j / 64)) (j % 64))
unfolding set
digit-set bitmap i j = elim (Bool-cases ((j / 64) == (i / 64))) [
  | inl same ↦ rw (same, (==_iff _ _).0 same, digit-bit_or, digit-pow) (ground arith)
  | inr apart ↦ rw apart (ground arith)
]

-- Setting a level's bit adds exactly that level.
pub test-set : (bitmap : Words) (i j : ℕ) → test (set bitmap i) j ≡ ((j == i) || test bitmap j)
test-set bitmap i j =
    test-digit (set bitmap i) j
    ∙ digit-set bitmap i j
    ∙ ap (λ b. (j == i) || b) (sym (test-digit bitmap j))

digit-clear :
    (bitmap : Words) (i j : ℕ)
    → digit (clear bitmap i (j / 64)) (j % 64) ≡ (not (j == i) && digit (bitmap (j / 64)) (j % 64))
unfolding clear
digit-clear bitmap i j = elim (Bool-cases ((j / 64) == (i / 64))) [
  | inl same ↦
      rw
        (
          same,
          (==_iff _ _).0 same,
          digit-bit_and,
          digit-clear_mask 64 (i % 64) (j % 64) (omega arith),
        )
        (ground arith)
  | inr apart ↦ rw apart (ground arith)
]

-- Clearing a level's bit takes away exactly that level.
pub test-clear :
    (bitmap : Words) (i j : ℕ) → test (clear bitmap i) j ≡ (not (j == i) && test bitmap j)
test-clear bitmap i j =
    test-digit (clear bitmap i) j
    ∙ digit-clear bitmap i j
    ∙ ap (λ b. not (j == i) && b) (sym (test-digit bitmap j))
