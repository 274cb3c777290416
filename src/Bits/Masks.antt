-- ===== src/Bits/Masks.antt =====
-- Single bits: of a sum of masks, of a power of two, and of its complement in a word.
use Prim.Native.Nat.{bit_and, bit_or, bit_and-bitwise}
use native.Mathlib.Nat.{pow-suc, one-le-pow}
use titan_lob.Prelude.{
  ℕ, zero, suc, ◌-◌, ◌/◌, ◌%◌, ◌^◌, ◌≤◌, ◌<◌, ◌≡◌, refl, ◌∙◌, Bool, false, ◌&&◌, ◌||◌, not, arith,
  ltb, ◌==◌,
}
use titan_lob.Bits.Step.{bit_and-halves, bit_or-halves}

-- bit `k` of `w`
abbrev pub digit : ℕ → ℕ → Bool
digit w zero = w % 2 == 1
digit w (suc k) = digit (w / 2) k

pub digit-bit_and : (k a b : ℕ) → digit (bit_and a b) k ≡ (digit a k && digit b k)
digit-bit_and zero a b = ground (arith, bit_and-halves a b)
digit-bit_and (suc k) a b =
    let half : bit_and a b / 2 ≡ bit_and (a / 2) (b / 2) = omega (arith, bit_and-halves a b) in
    rw half (digit-bit_and k (a / 2) (b / 2))

pub digit-bit_or : (k a b : ℕ) → digit (bit_or a b) k ≡ (digit a k || digit b k)
digit-bit_or zero a b = ground (arith, bit_or-halves a b)
digit-bit_or (suc k) a b =
    let half : bit_or a b / 2 ≡ bit_or (a / 2) (b / 2) = omega (arith, bit_or-halves a b) in
    rw half (digit-bit_or k (a / 2) (b / 2))

digit-zero : (k : ℕ) → digit 0 k ≡ false
digit-zero zero = refl
digit-zero (suc k) = digit-zero k

pub digit-pow : (k j : ℕ) → digit (2 ^ k) j ≡ (j == k)
digit-pow zero zero = refl
digit-pow zero (suc j) = digit-zero j ∙ ground arith
digit-pow (suc k) zero = ground (arith, pow-suc 2 k)
digit-pow (suc k) (suc j) =
    let half : 2 ^ suc k / 2 ≡ 2 ^ k = omega (arith, pow-suc 2 k) in
    rw half (digit-pow k j ∙ ground arith)

digit-ones : (m j : ℕ) → digit (2 ^ m - 1) j ≡ ltb j m
digit-ones zero j = digit-zero j ∙ ground arith
digit-ones (suc m) zero = ground (arith, pow-suc 2 m, one-le-pow m 2)
digit-ones (suc m) (suc j) =
    let half : (2 ^ suc m - 1) / 2 ≡ 2 ^ m - 1 = omega (arith, pow-suc 2 m, one-le-pow m 2) in
    rw half (digit-ones m j ∙ ground arith)

pub pow_lt : (m k : ℕ) → k < m → 2 ^ k < 2 ^ m
pow_lt zero k h = elim h [ ]
pow_lt (suc m) zero h = omega (arith, pow-suc 2 m, one-le-pow m 2)
pow_lt (suc m) (suc k) h = omega (arith, pow-suc 2 m, pow-suc 2 k, pow_lt m k (omega arith))

-- `~(1 << k)` in a word of `m` bits
pub digit-clear_mask : (m k j : ℕ) → k < m → digit (2 ^ m - 1 - 2 ^ k) j ≡ (ltb j m && not (j == k))
digit-clear_mask zero k j h = elim h [ ]
digit-clear_mask (suc m) zero zero h = ground (arith, pow-suc 2 m, one-le-pow m 2)
digit-clear_mask (suc m) zero (suc j) h =
    let half : (2 ^ suc m - 1 - 2 ^ 0) / 2 ≡ 2 ^ m - 1 =
      omega (arith, pow-suc 2 m, one-le-pow m 2) in
    rw half (digit-ones m j ∙ ground arith)
digit-clear_mask (suc m) (suc k) zero h = ground (arith, pow-suc 2 m, pow-suc 2 k, pow_lt m k)
digit-clear_mask (suc m) (suc k) (suc j) h =
    let half : (2 ^ suc m - 1 - 2 ^ suc k) / 2 ≡ 2 ^ m - 1 - 2 ^ k =
      omega (arith, pow-suc 2 m, pow-suc 2 k, pow_lt m k (omega arith)) in
    rw half (digit-clear_mask m k j (omega arith) ∙ ground arith)

-- A number with no bit below `m` that is below 2 ^ m is 0.
pub eq_zero_of_digits : (m w : ℕ) → w < 2 ^ m → ((j : ℕ) → j < m → digit w j ≡ false) → w ≡ 0
eq_zero_of_digits zero w h none = omega arith
eq_zero_of_digits (suc m) w h none =
    let low : (w % 2 == 1) ≡ false = none 0 (omega arith) in
    let rest : w / 2 ≡ 0 =
      eq_zero_of_digits m (w / 2) (omega (arith, pow-suc 2 m))
        (λ j p. none (suc j) (omega arith)) in
    ground arith

bit_and-zero : (a bound : ℕ) → a ≤ bound → bit_and a 0 ≡ 0
bit_and-zero zero fuel h = refl
bit_and-zero (suc a) (suc bound) h =
    let low : bit_and (suc a / 2) 0 ≡ 0 = bit_and-zero (suc a / 2) bound (omega arith) in
    omega (arith, bit_and-halves (suc a) 0, low)
bit_and-zero (suc a) zero h = absurd (omega arith)

-- `(w & (1 << k)) != 0` tells bit `k`.
pub bit_and-pow_eq_zero : (k w : ℕ) → (bit_and w (2 ^ k) == 0) ≡ not (digit w k)
bit_and-pow_eq_zero zero w =
    ground (arith, bit_and-halves w 1, bit_and-zero (w / 2) (w / 2) (omega arith))
bit_and-pow_eq_zero (suc k) w =
    let half : 2 ^ suc k / 2 ≡ 2 ^ k = omega (arith, pow-suc 2 k) in
    ground (arith, half, bit_and-halves w (2 ^ suc k), pow-suc 2 k, bit_and-pow_eq_zero k (w / 2))

pub bit_or_lt : (m a b : ℕ) → a < 2 ^ m → b < 2 ^ m → bit_or a b < 2 ^ m
bit_or_lt zero zero zero ha hb = omega arith
bit_or_lt zero zero (suc b) ha hb = absurd (omega arith)
bit_or_lt zero (suc a) b ha hb = absurd (omega arith)
bit_or_lt (suc m) a b ha hb = omega (
  arith,
  pow-suc 2 m,
  bit_or-halves a b,
  bit_or_lt m (a / 2) (b / 2) (omega (arith, pow-suc 2 m)) (omega (arith, pow-suc 2 m)),
)

pub bit_and-le : (fuel a b : ℕ) → a ≤ fuel → bit_and a b ≤ a
bit_and-le fuel zero b h = omega (arith, bit_and-halves 0 b, zero_and (b / 2))
  where
    zero_and : (b : ℕ) → bit_and 0 b ≡ 0
    zero_and b = bit_and-bitwise 0 b
bit_and-le zero (suc a) b h = absurd (omega arith)
bit_and-le (suc fuel) (suc a) b h =
    omega (arith, bit_and-halves (suc a) b, bit_and-le fuel (suc a / 2) (b / 2) (omega arith))
