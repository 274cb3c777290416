-- ===== src/Web/Sha1/Bounds.antt =====
-- titan_ws_server.h: the padding of `sha1::compute`, and its digest.
use titan_lob.Prelude.{
  ℕ, zero, suc, ◌+◌, ◌-◌, ◌*◌, ◌/◌, ◌%◌, ◌^◌, ◌≡◌, ◌≤◌, ◌<◌, refl, arith, List, [], ◌∷◌, length,
  get_or, leb, true,
}
use titan_lob.Web.Base64.RoundTrip.{AreBytes}
use titan_lob.Web.Sha1.{padded_length, padded, compute}

get_or_past : (xs : List ℕ) (j : ℕ) → length xs ≤ j → get_or xs j 0 ≡ 0
get_or_past [] j h = refl
get_or_past (x ∷ xs) zero h = absurd (omega arith)
get_or_past (x ∷ xs) (suc j) h = get_or_past xs j (omega arith)

-- The parts of the padded message.
pub record IsPadded (message : List ℕ) : Type 0 where
  pub whole : padded_length (length message) % 64 ≡ 0
  pub enough : length message + 9 ≤ padded_length (length message)
  pub least : padded_length (length message) ≤ length message + 72
  pub kept : (j : ℕ) → j < length message → padded message j ≡ get_or message j 0
  pub marked : padded message (length message) ≡ 0x80
  pub zeros :
      (j : ℕ) → length message < j → j + 8 < padded_length (length message) → padded message j ≡ 0
  pub bits :
      (i : ℕ)
      → i < 8
      → padded message (padded_length (length message) - 1 - i)
        ≡ length message * 8 / 2 ^ (i * 8) % 256

-- The padding of a message of less than 2^61 bytes is whole chunks of 64 bytes, with room for its mark and
-- its eight bytes of length and less than one chunk more; the message, the mark 0x80, zeros and the
-- number of the message's bits stand in it, with nothing written over.
pub padded_lem : (message : List ℕ) → length message < 2 ^ 61 → IsPadded message
unfolding padded
padded_lem message short = record {
  whole = omega arith;
  enough = omega arith;
  least = omega arith;
  kept = λ j lt. ground arith;
  marked = ground arith;
  zeros = λ j lt lt'. ground (arith, get_or_past message j);
  bits = λ i lt. last i lt;
}
  where
    last :
        (i : ℕ)
        → i < 8
        → padded message (padded_length (length message) - 1 - i)
          ≡ length message * 8 / 2 ^ (i * 8) % 256
    last i lt =
        let p : ℕ = padded_length (length message) in
        let back : p - 1 - (p - 1 - i) ≡ i = omega arith in
        let inside : leb (p - 8) (p - 1 - i) ≡ true = ground arith in
        let fits : length message * 8 % 2 ^ 64 ≡ length message * 8 = omega arith in
        rw (inside, back, fits) refl

-- The digest has twenty bytes.
pub digest-AreBytes :
    (message : List ℕ) → (length (compute message) ≡ 20) × AreBytes (compute message)
unfolding compute
digest-AreBytes message = (refl, ground arith)
