-- ===== src/Prelude/Arrays.antt =====
-- A C array is a function from its indices; `slice` lists the cells from an index on.
use Prim.Native.Nat.{ℕ, zero, suc, ◌+◌, ◌-◌, ◌<◌}
use mathlib.Core.Path.{◌≡◌, refl, ap, ap₂, ◌∙◌, ◌≡⟨◌⟩◌, ◌∎}
use mathlib.Core.Bool.{◌&&◌}
use mathlib.Core.List.{List, [], ◌∷◌, ◌++◌}
use native.Mathlib.Omega.{arith}
use titan_lob.Prelude.Tests.{ltb, leb, ◌==◌, if◌then◌else◌}
use titan_lob.Prelude.Lists.{length}

module _ {ℓ} {A : Type ℓ} where
  -- `a[i] = v`
  unfoldable pub update : (ℕ → A) → ℕ → A → ℕ → A
  update a i v j = if j == i then v else a j

  -- `memcpy(dst + at, src + from, n * sizeof(A))` for arrays that do not overlap
  unfoldable pub copy : (dst : ℕ → A) (at : ℕ) (src : ℕ → A) (from n : ℕ) → ℕ → A
  copy dst at src from n j = if leb at j && ltb j (at + n) then src (from + (j - at)) else dst j

  -- the `n` cells from index `i` on
  abbrev pub slice : (ℕ → A) → ℕ → ℕ → List A
  slice a i zero = []
  slice a i (suc n) = a i ∷ slice a (i + 1) n

  pub update_lem :
      (a : ℕ → A) (i : ℕ) (v : A) (j : ℕ) → update a i v j ≡ (if j == i then v else a j)
  unfolding update
  update_lem a i v j = refl

  pub copy_lem :
      (dst : ℕ → A) (at : ℕ) (src : ℕ → A) (from n j : ℕ)
      → copy dst at src from n j
        ≡ (if leb at j && ltb j (at + n) then src (from + (j - at)) else dst j)
  unfolding copy
  copy_lem dst at src from n j = refl

  pub length-slice : (a : ℕ → A) (i n : ℕ) → length (slice a i n) ≡ n
  length-slice a i zero = refl
  length-slice a i (suc n) = ap suc (length-slice a (i + 1) n)

  pub slice_ext :
      (a b : ℕ → A) (i k n : ℕ)
      → ((j : ℕ) → j < n → a (i + j) ≡ b (k + j))
      → slice a i n ≡ slice b k n
  slice_ext a b i k zero h = refl
  slice_ext a b i k (suc n) h =
      ap₂ ◌∷◌ (ap a (omega arith) ∙ h 0 (omega arith) ∙ ap b (omega arith)) (
        slice_ext a b (i + 1) (k + 1) n
          (λ j p. ap a (omega arith) ∙ h (suc j) (omega arith) ∙ ap b (omega arith)))

  slice_congr : (a : ℕ → A) (i k m n : ℕ) → i ≡ k → m ≡ n → slice a i m ≡ slice a k n
  slice_congr a i k m n p q = ap₂ (slice a) p q

  pub slice-append : (a : ℕ → A) (i m n : ℕ) → slice a i (m + n) ≡ slice a i m ++ slice a (i + m) n
  slice-append a i zero n = slice_congr a i (i + 0) (0 + n) n (omega arith) (omega arith)
  slice-append a i (suc m) n =
      slice a i (suc m + n)
      ≡⟨ slice_congr a i i (suc m + n) (suc (m + n)) refl (omega arith) ⟩ slice a i (suc (m + n))
      ≡⟨ ap (λ t. a i ∷ t) (slice-append a (i + 1) m n) ⟩
        a i ∷ (slice a (i + 1) m ++ slice a (i + 1 + m) n)
      ≡⟨ ap (λ t. a i ∷ (slice a (i + 1) m ++ t))
          (slice_congr a (i + 1 + m) (i + suc m) n n (omega arith) refl) ⟩
        slice a i (suc m) ++ slice a (i + suc m) n ∎
