-- ===== src/Bitmap/Find.antt =====
-- `bitmap_find_highest` and `bitmap_find_lowest`: the extreme level of a range of words.
use titan_lob.Prelude.{
  ℕ, zero, suc, ◌+◌, ◌-◌, ◌*◌, ◌/◌, ◌%◌, ◌≤◌, ◌<◌, ◌≡◌, refl, sym, inl, inr, Bool, true, false,
  arith, ◌==◌, Bool-cases, ==_iff, ℤ, pos, negsuc,
}
use mathlib.Core.Path.{subst}
use native.Mathlib.Decide.{dec_lt}
use titan_lob.Bits.{digit}
use titan_lob.Bitmap.{Words, test, highest_below, find_highest, lowest_from, find_lowest}
use titan_lob.Bitmap.Words.{IsHighest, clz-IsHighest, IsLowest, ctz-IsLowest}
use titan_lob.Bitmap.Levels.{IsWords, test-digit}

-- The highest marked level below `limit`, or -1 where there is none.
pub data Highest (bitmap : Words) (limit : ℕ) : ℤ → Type 0 where
  found :
      (i : ℕ)
      → i < limit
      → test bitmap i ≡ true
      → ((j : ℕ) → i < j → j < limit → test bitmap j ≡ false)
      → Highest bitmap limit (pos i)
  missing : ((j : ℕ) → j < limit → test bitmap j ≡ false) → Highest bitmap limit (negsuc 0)

-- The lowest marked level in `start ≤ i < limit`, or -1.
pub data Lowest (bitmap : Words) (start limit : ℕ) : ℤ → Type 0 where
  found :
      (i : ℕ)
      → start ≤ i
      → i < limit
      → test bitmap i ≡ true
      → ((j : ℕ) → start ≤ j → j < i → test bitmap j ≡ false)
      → Lowest bitmap start limit (pos i)
  missing :
      ((j : ℕ) → start ≤ j → j < limit → test bitmap j ≡ false)
      → Lowest bitmap start limit (negsuc 0)

digit-zero : (k : ℕ) → digit 0 k ≡ false
digit-zero zero = refl
digit-zero (suc k) = digit-zero k

module _ (bitmap : Words) where
  -- no level is marked in a word that is 0
  empty_word : (w j : ℕ) → (bitmap w == 0) ≡ true → j / 64 ≡ w → test bitmap j ≡ false
  empty_word w j e q = rw (test-digit bitmap j, q, (==_iff _ _).0 e) (digit-zero (j % 64))

  in_word :
      (w b j : ℕ) (v : Bool) → b < 64 → j ≡ w * 64 + b → digit (bitmap w) b ≡ v → test bitmap j ≡ v
  in_word w b j v small e d =
      let word : j / 64 ≡ w = omega arith in
      let place : j % 64 ≡ b = omega arith in rw (test-digit bitmap j, word, place) d

  extend_up :
      (w : ℕ) {r : ℤ}
      → Highest bitmap (w * 64) r
      → (bitmap w == 0) ≡ true
      → Highest bitmap (suc w * 64) r
  extend_up w (found i lt at above) e = found i (omega arith) at (λ j p q. split j p q)
    where
      split : (j : ℕ) → i < j → j < suc w * 64 → test bitmap j ≡ false
      split j p q = elim (dec_lt j (w * 64)) [
        | yes low ↦ above j p low
        | no high ↦ empty_word w j e (omega arith)
      ]
  extend_up w (missing none) e = missing split
    where
      split : (j : ℕ) → j < suc w * 64 → test bitmap j ≡ false
      split j q = elim (dec_lt j (w * 64)) [
        | yes low ↦ none j low
        | no high ↦ empty_word w j e (omega arith)
      ]

  top_of_word :
      (w : ℕ) {b : ℕ} → IsHighest 64 (bitmap w) b → Highest bitmap (suc w * 64) (pos (w * 64 + b))
  top_of_word w {b} is =
      found (w * 64 + b) (omega (arith, is.inside))
        (in_word w b (w * 64 + b) true is.inside refl is.is_set)
        (λ j p q.
          in_word w (j - w * 64) j false (omega arith) (omega arith)
            (is.above (j - w * 64) (omega arith) (omega arith)))

  highest_below-Highest :
      IsWords bitmap → (n : ℕ) → Highest bitmap (n * 64) (highest_below bitmap n)
  unfolding highest_below
  highest_below-Highest is zero = missing (λ j h. absurd (omega arith))
  highest_below-Highest is (suc w) = elim (Bool-cases (bitmap w == 0)) [
    | inl e ↦ rw e (extend_up w (highest_below-Highest is w) e)
    | inr ne ↦ rw ne (top_of_word w (clz-IsHighest (bitmap w) (is w) (ground arith)))
  ]

  extend_down :
      (w limit : ℕ) {r : ℤ}
      → Lowest bitmap (suc w * 64) limit r
      → (bitmap w == 0) ≡ true
      → Lowest bitmap (w * 64) limit r
  extend_down w limit (found i start lt at below) e = found i (omega arith) lt at split
    where
      split : (j : ℕ) → w * 64 ≤ j → j < i → test bitmap j ≡ false
      split j p q = elim (dec_lt j (suc w * 64)) [
        | yes low ↦ empty_word w j e (omega arith)
        | no high ↦ below j (omega arith) q
      ]
  extend_down w limit (missing none) e = missing split
    where
      split : (j : ℕ) → w * 64 ≤ j → j < limit → test bitmap j ≡ false
      split j p q = elim (dec_lt j (suc w * 64)) [
        | yes low ↦ empty_word w j e (omega arith)
        | no high ↦ none j (omega arith) q
      ]

  bottom_of_word :
      (w limit : ℕ) {b : ℕ}
      → IsLowest 64 (bitmap w) b
      → suc w * 64 ≤ limit
      → Lowest bitmap (w * 64) limit (pos (w * 64 + b))
  bottom_of_word w limit {b} is fits =
      found (w * 64 + b) (omega arith) (omega (arith, is.inside))
        (in_word w b (w * 64 + b) true is.inside refl is.is_set)
        (λ j p q.
          in_word w (j - w * 64) j false (omega (arith, is.inside)) (omega arith)
            (is.below (j - w * 64) (omega arith)))

  lowest_from-Lowest :
      IsWords bitmap
      → (rounds w : ℕ) → Lowest bitmap (w * 64) ((w + rounds) * 64) (lowest_from bitmap rounds w)
  unfolding lowest_from
  lowest_from-Lowest is zero w = missing (λ j p q. absurd (omega arith))
  lowest_from-Lowest is (suc rounds) w = elim (Bool-cases (bitmap w == 0)) [
    | inl e ↦
        rw (e, limit)
          (extend_down w ((suc w + rounds) * 64) (lowest_from-Lowest is rounds (suc w)) e)
    | inr ne ↦ rw ne (
        bottom_of_word w ((w + suc rounds) * 64) (ctz-IsLowest (bitmap w) (is w) (ground arith))
          (omega arith))
  ]
    where
      limit : (w + suc rounds) * 64 ≡ (suc w + rounds) * 64
      limit = omega arith

-- From a word on down, `bitmap_find_highest` gives the highest marked level, and -1 exactly where
-- no level is marked in those words.
pub find_highest_lem :
    (bitmap : Words) (start_word : ℕ)
    → IsWords bitmap
    → Highest bitmap (suc start_word * 64) (find_highest bitmap (pos start_word))
unfolding find_highest
find_highest_lem bitmap start_word is = highest_below-Highest bitmap is (suc start_word)

-- From a word on up, `bitmap_find_lowest` gives the lowest marked level below the end of the words,
-- and -1 exactly where there is none.
pub find_lowest_lem :
    (bitmap : Words) (num_words start_word : ℕ)
    → IsWords bitmap
    → start_word ≤ num_words
    → Lowest bitmap
        (start_word * 64)
        (num_words * 64)
        (find_lowest bitmap num_words (pos start_word))
unfolding find_lowest
find_lowest_lem bitmap num_words start_word is fits =
    let rounds : num_words ≡ start_word + (num_words - start_word) = omega arith in
    subst
      (λ n.
        Lowest bitmap (start_word * 64) (n * 64)
          (lowest_from bitmap (num_words - start_word) start_word))
      (sym rounds) (lowest_from-Lowest bitmap is (num_words - start_word) start_word)
