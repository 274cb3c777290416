-- ===== src/Logger/Written.antt =====
-- logger.h: what a buffer holds after `log`, and after a round of `log_batch`.
use mathlib.Core.Path.{ap₂}
use titan_lob.Prelude.{
  ℕ, zero, suc, ◌+◌, ◌-◌, ◌≡◌, ◌≤◌, ◌<◌, refl, ap, ◌∙◌, arith, List, [], ◌∷◌, ◌++◌, length, take,
  get_or, slice, slice_ext, slice-append, update, update_lem, copy, copy_lem, ltb, leb, ◌&&◌, true,
  ◌==◌, if◌then◌else◌,
}
use titan_lob.Protocol.Output.{OutputMsg}
use titan_lob.Logger.{BinaryLogger, contents, remaining, log, log_batch_round}

slice-take :
    {A : Type 0} (a : ℕ → A) (i n : ℕ) (xs : List A) (d : A)
    → n ≤ length xs
    → ((j : ℕ) → j < n → a (i + j) ≡ get_or xs j d)
    → slice a i n ≡ take n xs
slice-take a i zero xs d le h = refl
slice-take a i (suc n) [] d le h = absurd (omega arith)
slice-take a i (suc n) (x ∷ xs) d le h = ap₂ ◌∷◌ (ap a (omega arith) ∙ h 0 (omega arith)) (
    slice-take a (i + 1) n xs d (omega arith)
      (λ j lt. ap a (omega arith) ∙ h (suc j) (omega arith)))

-- `log` puts its message behind the others.
pub log-contents :
    (l : BinaryLogger) (msg : OutputMsg)
    → contents (log l msg).write_buffer ≡ contents l.write_buffer ++ (msg ∷ [])
unfolding log
log-contents l msg =
    let n : ℕ = l.write_buffer.count in
    let a : ℕ → OutputMsg = l.write_buffer.data_of in
    let here : update a n msg (0 + n) ≡ msg =
      let at = update_lem a n msg (0 + n) in
      let e : (0 + n == n) ≡ true = ground arith in at ∙ rw e refl in
    slice-append (update a n msg) 0 n 1
    ∙ ap₂ ◌++◌
        (slice_ext (update a n msg) a 0 0 n (λ j lt. update_lem a n msg (0 + j) ∙ ground arith))
        (ap (λ x. x ∷ []) here)

-- the number of messages that a round copies
abbrev pub copied : BinaryLogger → List OutputMsg → ℕ
copied l msgs =
    if ltb (length msgs) (remaining l.write_buffer) then length msgs else remaining l.write_buffer

pub copied_le : (l : BinaryLogger) (msgs : List OutputMsg) → copied l msgs ≤ length msgs
copied_le l msgs = ground arith

-- A round of `log_batch` puts as many messages behind the others as it copies.
pub log_batch_round-contents :
    (default : OutputMsg) (l : BinaryLogger) (msgs : List OutputMsg)
    → contents (log_batch_round default l msgs).0.write_buffer
      ≡ contents l.write_buffer ++ take (copied l msgs) msgs
unfolding log_batch_round
log_batch_round-contents default l msgs =
    let n : ℕ = l.write_buffer.count in
    let a : ℕ → OutputMsg = l.write_buffer.data_of in
    let k : ℕ = copied l msgs in
    let le : k ≤ length msgs = copied_le l msgs in
    let b : ℕ → OutputMsg = copy a n (λ i. get_or msgs i default) 0 k in
    slice-append b 0 n k
    ∙ ap₂ ◌++◌
        (slice_ext b a 0 0 n
          (λ j lt. copy_lem a n (λ i. get_or msgs i default) 0 k (0 + j) ∙ ground arith))
        (slice-take b (0 + n) k msgs default le
          (λ j lt. copy_lem a n (λ i. get_or msgs i default) 0 k (0 + n + j) ∙ within n k j lt))
  where
    within :
        (n k j : ℕ)
        → j < k
        → (if leb n (0 + n + j) && ltb (0 + n + j) (n + k)
            then get_or msgs (0 + (0 + n + j - n)) default
            else l.write_buffer.data_of (0 + n + j))
          ≡ get_or msgs j default
    within n k j lt =
        let inside : (leb n (0 + n + j) && ltb (0 + n + j) (n + k)) ≡ true = ground arith in
        rw inside (ap (λ i. get_or msgs i default) (omega arith))
