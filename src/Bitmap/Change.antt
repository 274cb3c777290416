-- ===== src/Bitmap/Change.antt =====
-- The extreme level after a mark is set or taken away.
use native.Mathlib.Decide.{dec_lt}
use titan_lob.Prelude.{
  ℕ, ◌≤◌, ◌<◌, ◌≡◌, ◌∙◌, true, false, ◌||◌, ◌==◌, arith, if◌then◌else◌, ℤ, pos, ltb_ℤ,
}
use titan_lob.Bitmap.{Words, set, clear, test}
use titan_lob.Bitmap.Levels.{test-set, test-clear}
use titan_lob.Bitmap.Find.{Highest, Lowest}

module _ (bitmap : Words) (n : ℕ) where
  set_self : test (set bitmap n) n ≡ true
  set_self = test-set bitmap n n ∙ ground arith

  set_other : (j : ℕ) → (j == n) ≡ false → test bitmap j ≡ false → test (set bitmap n) j ≡ false
  set_other j ne h = test-set bitmap n j ∙ rw (ne, h)

  set_kept : (j : ℕ) → test bitmap j ≡ true → test (set bitmap n) j ≡ true
  set_kept j h = test-set bitmap n j ∙ ground arith

  clear_other : (j : ℕ) → test bitmap j ≡ false → test (clear bitmap n) j ≡ false
  clear_other j h = test-clear bitmap n j ∙ ground arith

  clear_kept : (j : ℕ) → (j == n) ≡ false → test bitmap j ≡ true → test (clear bitmap n) j ≡ true
  clear_kept j ne h = test-clear bitmap n j ∙ rw (ne, h)

  -- A new mark is the highest if it is above the highest, or if there was none.
  pub Highest-set :
      {limit : ℕ} {r : ℤ}
      → n < limit
      → Highest bitmap limit r
      → Highest (set bitmap n) limit (if ltb_ℤ r (pos 0) || ltb_ℤ r (pos n) then pos n else r)
  Highest-set lt (Highest.missing none) =
      Highest.found n lt set_self (λ j p q. set_other j (ground arith) (none j q))
  Highest-set {limit} lt (Highest.found i inside at above) = elim (dec_lt i n) [
    | yes p ↦
        let higher : (ltb_ℤ (pos i) (pos 0) || ltb_ℤ (pos i) (pos n)) ≡ true = ground arith in
        rw higher (
          Highest.found n lt set_self
            (λ j q r. set_other j (ground arith) (above j (omega arith) r)))
    | no p ↦
        let lower : (ltb_ℤ (pos i) (pos 0) || ltb_ℤ (pos i) (pos n)) ≡ false = ground arith in
        rw lower (
          Highest.found i inside (set_kept i at)
            (λ j q r. set_other j (ground arith) (above j q r)))
  ]

  -- Taking another mark away leaves the highest.
  pub Highest-clear :
      {limit i : ℕ}
      → (i == n) ≡ false
      → Highest bitmap limit (pos i)
      → Highest (clear bitmap n) limit (pos i)
  Highest-clear ne (Highest.found i inside at above) =
      Highest.found i inside (clear_kept i ne at) (λ j p q. clear_other j (above j p q))

  pub Lowest-set :
      {start limit : ℕ} {r : ℤ}
      → start ≤ n
      → n < limit
      → Lowest bitmap start limit r
      → Lowest (set bitmap n) start limit (if ltb_ℤ r (pos 0) || ltb_ℤ (pos n) r then pos n else r)
  Lowest-set from lt (Lowest.missing none) =
      Lowest.found n from lt set_self (λ j p q. set_other j (ground arith) (none j p (omega arith)))
  Lowest-set from lt (Lowest.found i begin inside at below) = elim (dec_lt n i) [
    | yes p ↦
        let lower : (ltb_ℤ (pos i) (pos 0) || ltb_ℤ (pos n) (pos i)) ≡ true = ground arith in
        rw lower (
          Lowest.found n from lt set_self
            (λ j q r. set_other j (ground arith) (below j q (omega arith))))
    | no p ↦
        let higher : (ltb_ℤ (pos i) (pos 0) || ltb_ℤ (pos n) (pos i)) ≡ false = ground arith in
        rw higher (
          Lowest.found i begin inside (set_kept i at)
            (λ j q r. set_other j (ground arith) (below j q r)))
  ]

  pub Lowest-clear :
      {start limit i : ℕ}
      → (i == n) ≡ false
      → Lowest bitmap start limit (pos i)
      → Lowest (clear bitmap n) start limit (pos i)
  Lowest-clear ne (Lowest.found i begin inside at below) =
      Lowest.found i begin inside (clear_kept i ne at) (λ j p q. clear_other j (below j p q))

-- A search of a part that holds all the marks finds the extreme of the whole.
pub Highest-widen :
    (bitmap : Words) {low limit : ℕ} {r : ℤ}
    → low ≤ limit
    → ((j : ℕ) → low ≤ j → j < limit → test bitmap j ≡ false)
    → Highest bitmap low r
    → Highest bitmap limit r
Highest-widen bitmap {low} le none (Highest.found i inside at above) =
    Highest.found i (omega arith) at
      (λ j p q. elim (dec_lt j low) [ yes h ↦ above j p h | no h ↦ none j (omega arith) q ])
Highest-widen bitmap {low} le none (Highest.missing gone) =
    Highest.missing
      (λ j q. elim (dec_lt j low) [ yes h ↦ gone j h | no h ↦ none j (omega arith) q ])

pub Lowest-widen :
    (bitmap : Words) {start limit : ℕ} {r : ℤ}
    → ((j : ℕ) → j < start → test bitmap j ≡ false)
    → Lowest bitmap start limit r
    → Lowest bitmap 0 limit r
Lowest-widen bitmap {start} none (Lowest.found i begin inside at below) =
    Lowest.found i (omega arith) inside at
      (λ j p q. elim (dec_lt j start) [ yes h ↦ none j h | no h ↦ below j (omega arith) q ])
Lowest-widen bitmap {start} none (Lowest.missing gone) =
    Lowest.missing
      (λ j p q. elim (dec_lt j start) [ yes h ↦ none j h | no h ↦ gone j (omega arith) q ])
