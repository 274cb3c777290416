-- ===== src/Bitmap/Words.antt =====
-- One word: where its highest and its lowest bit stand.
use titan_lob.Prelude.{
  ℕ, zero, suc, ◌-◌, ◌/◌, ◌^◌, ◌<◌, ◌≡◌, ◌≢◌, ◌⊎◌, inl, inr, true, false, arith, Bool-cases,
}
use titan_lob.Bits.{digit, eq_zero_of_digits}
use titan_lob.Bitmap.{clz, ctz}

-- `b` is the highest set bit of the `n` low bits of `w`.
pub record IsHighest (n w b : ℕ) : Type 0 where
  pub inside : b < n
  pub is_set : digit w b ≡ true
  pub above : (j : ℕ) → b < j → j < n → digit w j ≡ false

pub record IsLowest (n w b : ℕ) : Type 0 where
  pub inside : b < n
  pub is_set : digit w b ≡ true
  pub below : (j : ℕ) → j < b → digit w j ≡ false

abbrev NoBit : ℕ → ℕ → Type 0
NoBit n w = (j : ℕ) → j < n → digit w j ≡ false

lt_or_last : {j n : ℕ} → j < suc n → (j < n) ⊎ (j ≡ n)
lt_or_last h = omega arith

clz-cases : (n w : ℕ) → NoBit n w ⊎ ((clz n w < n) × IsHighest n w (n - 1 - clz n w))
unfolding clz
clz-cases zero w = inl (λ j h. elim h [ ])
clz-cases (suc n) w = elim (Bool-cases (digit w n)) [
  | inl here ↦ rw here (
      inr (
        omega arith,
        record {
          inside = omega arith;
          is_set = rw (top n) here;
          above = λ j p q. absurd (omega arith);
        },
      ))
  | inr gone ↦ rw gone (elim (clz-cases n w) [
    | inl none ↦ inl (λ j h. below_or_top none gone j h)
    | inr (fits, is) ↦ inr (
      omega arith,
      rw (shift fits) (record {
        inside = omega (arith, is.inside);
        is_set = is.is_set;
        above = λ j p q. above_or_top is gone j p q;
      }),
    )
  ])
]
  where
    top : (m : ℕ) → suc m - 1 - 0 ≡ m
    top m = omega arith

    shift : clz n w < n → suc n - 1 - suc (clz n w) ≡ n - 1 - clz n w
    shift h = omega arith

    below_or_top : NoBit n w → digit w n ≡ false → (j : ℕ) → j < suc n → digit w j ≡ false
    below_or_top none gone j h = elim (lt_or_last h) [ inl p ↦ none j p | inr e ↦ rw e gone ]

    above_or_top :
        {b : ℕ}
        → IsHighest n w b
        → digit w n ≡ false
        → (j : ℕ) → b < j
        → j < suc n
        → digit w j ≡ false
    above_or_top is gone j p q = elim (lt_or_last q) [ inl r ↦ is.above j p r | inr e ↦ rw e gone ]

ctz-cases : (n w : ℕ) → NoBit n w ⊎ IsLowest n w (ctz n w)
unfolding ctz
ctz-cases zero w = inl (λ j h. elim h [ ])
ctz-cases (suc n) w = elim (Bool-cases (digit w 0)) [
  | inl here ↦
      rw here (inr (record { inside = omega arith; is_set = here; below = λ j h. elim h [ ] }))
  | inr gone ↦ rw gone (elim (ctz-cases n (w / 2)) [
    | inl none ↦ inl (no_bit none gone)
    | inr is ↦
        inr
          (record { inside = omega (arith, is.inside); is_set = is.is_set; below = below is gone })
  ])
]
  where
    no_bit : NoBit n (w / 2) → digit w 0 ≡ false → (j : ℕ) → j < suc n → digit w j ≡ false
    no_bit none gone zero h = gone
    no_bit none gone (suc j) h = none j (omega arith)

    below :
        {b : ℕ} → IsLowest n (w / 2) b → digit w 0 ≡ false → (j : ℕ) → j < suc b → digit w j ≡ false
    below is gone zero h = gone
    below is gone (suc j) h = is.below j (omega arith)

-- In a word that is not 0, `63 - clz` is the highest bit, and `ctz` the lowest.
pub clz-IsHighest : (w : ℕ) → w < 2 ^ 64 → w ≢ 0 → IsHighest 64 w (63 - clz 64 w)
clz-IsHighest w small ne = elim (clz-cases 64 w) [
  | inl none ↦ absurd (ne (eq_zero_of_digits 64 w small none))
  | inr (fits, is) ↦ is
]

pub ctz-IsLowest : (w : ℕ) → w < 2 ^ 64 → w ≢ 0 → IsLowest 64 w (ctz 64 w)
ctz-IsLowest w small ne = elim (ctz-cases 64 w) [
  | inl none ↦ absurd (ne (eq_zero_of_digits 64 w small none))
  | inr is ↦ is
]
