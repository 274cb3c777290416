-- ===== src/Gateway/Receive.antt =====
-- `recv_exact` of gateway.h over a stream that arrives in pieces.
use titan_lob.Prelude.{
  ℕ, zero, suc, ◌+◌, ◌-◌, ◌≤◌, ◌<◌, ◌≡◌, refl, sym, ap, ◌∙◌, ◌⊎◌, inl, inr, Bool, true, false,
  Option, some, List, [], ◌∷◌, ◌++◌, ltb, leb, copy, copy_lem, length, length-append, get_or, slice,
  slice-append, slice_ext, arith,
}
use mathlib.Core.List.{append_assoc}
use mathlib.Core.Path.{ap₂}
use titan_lob.Protocol.Wire.{Bytes}
use native.Mathlib.Decide.{dec_lt}
use titan_lob.Gateway.{recv_exact}

-- A blocking socket whose peer sends the bytes `pending` and then closes: a call for `n > 0` bytes
-- gives some of the next ones, at most `n`, and none only at the end.
pub record IsOrderly {S : Type 0} (recv : S → ℕ → List ℕ × S) (pending : S → List ℕ) : Type 0 where
  pub delivers :
      (s : S) (n : ℕ)
      → 0 < n
      → let (xs, s') = recv s n in
        (pending s ≡ xs ++ pending s') × (length xs ≤ n) × (0 < length (pending s) → 0 < length xs)

slice_of_list : (xs : List ℕ) → slice (λ i. get_or xs i 0) 0 (length xs) ≡ xs
slice_of_list [] = refl
slice_of_list (x ∷ xs) =
    ap (λ t. x ∷ t)
      (slice_ext (λ i. get_or (x ∷ xs) i 0) (λ i. get_or xs i 0) 1 0 (length xs) shift
        ∙ slice_of_list xs)
  where
    shift : (j : ℕ) → j < length xs → get_or (x ∷ xs) (1 + j) 0 ≡ get_or xs (0 + j) 0
    shift j h =
        let up : 1 + j ≡ suc j = omega arith in
        let here : 0 + j ≡ j = omega arith in rw (up, here) refl

module _ {S : Type 0} (recv : S → ℕ → List ℕ × S) (pending : S → List ℕ) where
  -- The buffer and the socket after `n` bytes have gone to `at` and on.
  pub record Filled (s : S) (buffer : Bytes) (at n : ℕ) (result : Option (Bool × Bytes × S))
      : Type 0 where
    pub filled : Bytes
    pub rest : S
    pub returned : result ≡ some (true, filled, rest)
    pub stream : pending s ≡ slice filled at n ++ pending rest
    pub outside : (j : ℕ) → (j < at) ⊎ (at + n ≤ j) → filled j ≡ buffer j

  -- The call gave up.
  pub record GaveUp (result : Option (Bool × Bytes × S)) : Type 0 where
    pub buffer : Bytes
    pub rest : S
    pub returned : result ≡ some (false, buffer, rest)

  -- A piece of the stream goes to the buffer, and the loop goes on behind it.
  after_piece :
      (s s' : S) (xs : List ℕ) (buffer : Bytes) (start num_bytes total : ℕ)
      → (result result' : Option (Bool × Bytes × S)) → pending s ≡ xs ++ pending s'
      → total + length xs ≤ num_bytes
      → result' ≡ result
      → Filled s'
          (copy buffer (start + total) (λ i. get_or xs i 0) 0 (length xs))
          (start + (total + length xs))
          (num_bytes - (total + length xs))
          result
      → Filled s buffer (start + total) (num_bytes - total) result'
  after_piece s s' xs buffer start num_bytes total result result' came le same f = record {
    filled = f.filled;
    rest = f.rest;
    returned = same ∙ f.returned;
    stream =
        came
        ∙ ap₂ ◌++◌ (sym piece) f.stream
        ∙ sym (
            append_assoc (slice f.filled at (length xs))
              (slice f.filled (start + (total + length xs)) left) (pending f.rest))
        ∙ ap (λ t. t ++ pending f.rest) (sym whole);
    outside = λ j h. f.outside j (wider j h) ∙ untouched j h;
  }
    where
      at : ℕ
      at = start + total

      left : ℕ
      left = num_bytes - (total + length xs)

      piece : slice f.filled at (length xs) ≡ xs
      piece =
          slice_ext f.filled (λ i. get_or xs i 0) at 0 (length xs)
            (λ j h.
              f.outside (at + j) (inl (omega arith))
              ∙ copy_lem buffer at (λ i. get_or xs i 0) 0 (length xs) (at + j)
              ∙ (let back : at + j - at ≡ j = omega arith in
                  let low : leb at (at + j) ≡ true = ground arith in
                  let high : ltb (at + j) (at + length xs) ≡ true = ground arith in
                  rw (low, high, back) refl))
          ∙ slice_of_list xs

      whole :
          slice f.filled at (num_bytes - total)
          ≡ slice f.filled at (length xs) ++ slice f.filled (start + (total + length xs)) left
      whole =
          ap (slice f.filled at) (omega arith)
          ∙ slice-append f.filled at (length xs) left
          ∙ ap (λ k. slice f.filled at (length xs) ++ slice f.filled k left) (omega arith)

      wider :
          (j : ℕ)
          → (j < at) ⊎ (at + (num_bytes - total) ≤ j)
          → (j < start + (total + length xs)) ⊎ (start + (total + length xs) + left ≤ j)
      wider j (inl h) = inl (omega arith)
      wider j (inr h) = inr (omega arith)

      untouched :
          (j : ℕ)
          → (j < at) ⊎ (at + (num_bytes - total) ≤ j)
          → copy buffer at (λ i. get_or xs i 0) 0 (length xs) j ≡ buffer j
      untouched j h = copy_lem buffer at (λ i. get_or xs i 0) 0 (length xs) j ∙ ground arith

  module _ (orderly : IsOrderly recv pending) where
    -- `recv_exact` from `total` bytes on, where enough bytes are to come: it returns true after at
    -- most as many calls as bytes are missing, with exactly the next bytes of the stream in the
    -- buffer, however they arrive, and the cells outside alone.
    pub recv_exact-Filled :
        (fuel : ℕ) (s : S) (buffer : Bytes) (start num_bytes total : ℕ)
        → total ≤ num_bytes
        → num_bytes - total < fuel
        → num_bytes - total ≤ length (pending s)
        → Filled s buffer
            (start + total)
            (num_bytes - total)
            (recv_exact recv fuel s buffer start num_bytes total)
    unfolding recv_exact
    recv_exact-Filled zero s buffer start num_bytes total le lt enough = absurd (omega arith)
    recv_exact-Filled (suc fuel) s buffer start num_bytes total le lt enough =
        elim (dec_lt total num_bytes) [
          | yes more ↦
              let (xs, s') = recv s (num_bytes - total) in
              let d = orderly.delivers s (num_bytes - total) (omega arith) in
              let some_bytes : 0 < length xs = d.2 (omega arith) in
              let sum = length-append xs (pending s') in
              let split : length (pending s) ≡ length (xs ++ pending s') = ap length d.0 in
              after_piece s s' xs buffer start num_bytes total _ _ d.0 (omega (arith, d.1))
                (ground arith)
                (recv_exact-Filled fuel s'
                  (copy buffer (start + total) (λ i. get_or xs i 0) 0 (length xs)) start num_bytes
                  (total + length xs) (omega (arith, d.1)) (omega arith) (omega arith))
          | no done ↦ record {
            filled = buffer;
            rest = s;
            returned = ground arith;
            stream =
                let zero_left : 0 ≡ num_bytes - total = omega arith in
                ap (λ k. slice buffer (start + total) k ++ pending s) zero_left;
            outside = λ j h. refl;
          }
        ]

    -- Where the stream ends before, `recv_exact` returns false.
    pub recv_exact-GaveUp :
        (fuel : ℕ) (s : S) (buffer : Bytes) (start num_bytes total : ℕ)
        → num_bytes - total < fuel
        → length (pending s) < num_bytes - total
        → GaveUp (recv_exact recv fuel s buffer start num_bytes total)
    unfolding recv_exact
    recv_exact-GaveUp zero s buffer start num_bytes total lt few = absurd (omega arith)
    recv_exact-GaveUp (suc fuel) s buffer start num_bytes total lt few =
        let (xs, s') = recv s (num_bytes - total) in
        let d = orderly.delivers s (num_bytes - total) (omega arith) in
        let sum = length-append xs (pending s') in
        let split : length (pending s) ≡ length (xs ++ pending s') = ap length d.0 in
        elim (dec_lt 0 (length xs)) [
          | yes more ↦
              let g =
                recv_exact-GaveUp fuel s'
                  (copy buffer (start + total) (λ i. get_or xs i 0) 0 (length xs)) start num_bytes
                  (total + length xs) (omega arith) (omega arith) in
              record {
                buffer = g.buffer;
                rest = g.rest;
                returned = let r = g.returned in ground arith;
              }
          | no ended ↦ record { buffer = buffer; rest = s'; returned = ground arith }
        ]
