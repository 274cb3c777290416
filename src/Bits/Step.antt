-- ===== src/Bits/Step.antt =====
-- What `&` and `|` are in terms of the halves of their arguments. The library gives each operation a
-- meaning by a recursion that counts down a bound on its first argument.
use Prim.Native.Nat.{
  bit_and, bit_or, bitwise, digits, max, min, bit_or-bitwise, bit_and-bitwise, bit_xor,
  bit_xor-bitwise, differ,
}
use mathlib.Core.Path.{◌≡◌, refl, ap, ◌∙◌}
use native.Mathlib.Omega.{arith}
use titan_lob.Prelude.{ℕ, zero, suc, ◌+◌, ◌-◌, ◌*◌, ◌/◌, ◌%◌, ◌≤◌}

module _ (tail_of : ℕ → ℕ) (bit : ℕ → ℕ → ℕ) where
  abbrev run : ℕ → ℕ → ℕ → ℕ
  run bound x y = digits tail_of bit bound x y

  -- One more than a bound changes nothing,
  one_more : (bound x y : ℕ) → x ≤ bound → run (suc bound) x y ≡ run bound x y
  one_more zero zero y le = refl
  one_more zero (suc x) y le = elim le [ ]
  one_more (suc bound) zero y le = refl
  one_more (suc bound) (suc x) y le =
      ap (λ high. high * 2 + bit (suc x % 2) (y % 2))
        (one_more bound (suc x / 2) (y / 2) (omega arith))

  -- and so does any number more.
  more : (extra bound x y : ℕ) → x ≤ bound → run (extra + bound) x y ≡ run bound x y
  more zero bound x y le = ap (λ n. run n x y) (omega arith)
  more (suc extra) bound x y le =
      let sum : suc extra + bound ≡ suc (extra + bound) = omega arith in
      ap (λ n. run n x y) sum ∙ one_more (extra + bound) x y (omega arith) ∙ more extra bound x y le

  halves :
      (x y : ℕ)
      → bit (suc x % 2) (y % 2) + 2 * bitwise tail_of bit (suc x / 2) (y / 2)
        ≡ bitwise tail_of bit (suc x) y
  halves x y =
      let half : ℕ = suc x / 2 in
      let bound : x ≡ (x - half) + half = omega arith in
      let same : run ((x - half) + half) half (y / 2) ≡ run half half (y / 2) =
        more (x - half) half half (y / 2) (omega arith) in
      let fits : run x half (y / 2) ≡ run half half (y / 2) =
        ap (λ n. run n half (y / 2)) bound ∙ same in
      omega (arith, fits)

pub bit_or-halves : (x y : ℕ) → bit_or x y ≡ max (x % 2) (y % 2) + 2 * bit_or (x / 2) (y / 2)
bit_or-halves zero y = simp bit_or-bitwise (omega arith)
bit_or-halves (suc x) y = simp bit_or-bitwise (omega (arith, halves (λ y. y) max x y))

pub bit_and-halves : (x y : ℕ) → bit_and x y ≡ min (x % 2) (y % 2) + 2 * bit_and (x / 2) (y / 2)
bit_and-halves zero y = simp bit_and-bitwise (omega arith)
bit_and-halves (suc x) y = simp bit_and-bitwise (omega (arith, halves (λ _. zero) min x y))

pub bit_xor-halves : (x y : ℕ) → bit_xor x y ≡ differ (x % 2) (y % 2) + 2 * bit_xor (x / 2) (y / 2)
bit_xor-halves zero y = simp bit_xor-bitwise (omega arith)
bit_xor-halves (suc x) y = simp bit_xor-bitwise (omega (arith, halves (λ y. y) differ x y))
