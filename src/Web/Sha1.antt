-- ===== src/Web/Sha1.antt =====
-- titan_ws_server.h, `sha1::compute`. A `uint32_t` is a number below 2^32; `x << n` is `x * 2 ^ n % 2 ^ 32`.
pub mod Bounds
use Prim.Native.Nat.{bit_and, bit_or, bit_xor}
use titan_lob.Prelude.{
  ℕ, zero, suc, ◌+◌, ◌-◌, ◌*◌, ◌/◌, ◌%◌, ◌^◌, ltb, leb, if◌then◌else◌, List, [], ◌∷◌, ◌++◌, length,
  get_or, ◌==◌, update,
}

-- on a `uint32_t`
abbrev pub word : ℕ → ℕ
word n = n % 2 ^ 32

-- `~b`
abbrev pub complement : ℕ → ℕ
complement b = 2 ^ 32 - 1 - b

unfoldable pub left_rotate : (value count : ℕ) → ℕ
left_rotate value count = bit_or (word (value * 2 ^ count)) (value / 2 ^ (32 - count))

abbrev pub padded_length : ℕ → ℕ
padded_length len = ((len + 8) / 64 + 1) * 64

-- The padded message: the message, 0x80, zeros, and the number of its bits in the last eight bytes.
unfoldable pub padded : List ℕ → ℕ → ℕ
padded message j =
    let len : ℕ = length message in
    let ml : ℕ = len * 8 % 2 ^ 64 in
    let padded_len : ℕ = padded_length len in
    if leb (padded_len - 8) j
    then ml / 2 ^ ((padded_len - 1 - j) * 8) % 256
    else if j == len
    then 0x80
    else get_or message j 0

-- `w[0]` to `w[15]` from the chunk, and the loop that fills the rest of `w` up to 80, `n` words still
-- to come from index `i` on.
unfoldable pub chunk_word : (ℕ → ℕ) → (chunk i : ℕ) → ℕ
chunk_word bytes chunk i =
    bytes (chunk + i * 4) * 2 ^ 24
    + bytes (chunk + i * 4 + 1) * 2 ^ 16
    + bytes (chunk + i * 4 + 2) * 2 ^ 8
    + bytes (chunk + i * 4 + 3)

unfoldable pub extend : (n i : ℕ) → (ℕ → ℕ) → ℕ → ℕ
unfolding left_rotate update
extend zero i w = w
extend (suc n) i w = extend n (i + 1) (
    update w i (
      left_rotate (bit_xor (bit_xor (bit_xor (w (i - 3)) (w (i - 8))) (w (i - 14))) (w (i - 16)))
        1))

-- the five words of the state
pub record State : Type 0 where
  pub a : ℕ
  pub b : ℕ
  pub c : ℕ
  pub d : ℕ
  pub e : ℕ

-- One round of the loop over the 80 words.
unfoldable pub round : (i w : ℕ) → State → State
unfolding left_rotate
round i w s =
    let f : ℕ =
      if ltb i 20
      then bit_or (bit_and s.b s.c) (bit_and (complement s.b) s.d)
      else if ltb i 40
      then bit_xor (bit_xor s.b s.c) s.d
      else if ltb i 60
      then bit_or (bit_or (bit_and s.b s.c) (bit_and s.b s.d)) (bit_and s.c s.d)
      else bit_xor (bit_xor s.b s.c) s.d in
    let k : ℕ =
      if ltb i 20
      then 0x5A827999
      else if ltb i 40
      then 0x6ED9EBA1
      else if ltb i 60
      then 0x8F1BBCDC
      else 0xCA62C1D6 in
    record {
      a = word (left_rotate s.a 5 + f + s.e + k + w);
      b = s.a;
      c = left_rotate s.b 30;
      d = s.c;
      e = s.d;
    }

unfoldable pub rounds : (n i : ℕ) → (ℕ → ℕ) → State → State
unfolding round
rounds zero i w s = s
rounds (suc n) i w s = rounds n (i + 1) w (round i (w i) s)

-- One chunk of 64 bytes.
unfoldable pub process_chunk : (ℕ → ℕ) → (chunk : ℕ) → State → State
unfolding chunk_word extend rounds
process_chunk bytes chunk h =
    let w : ℕ → ℕ = extend 64 16 (λ i. chunk_word bytes chunk i) in
    let s : State = rounds 80 0 w h in
    record {
      a = word (h.a + s.a);
      b = word (h.b + s.b);
      c = word (h.c + s.c);
      d = word (h.d + s.d);
      e = word (h.e + s.e);
    }

-- The loop over the chunks, `n` of them still to come.
unfoldable pub chunks : (ℕ → ℕ) → (n chunk : ℕ) → State → State
unfolding process_chunk
chunks bytes zero chunk h = h
chunks bytes (suc n) chunk h = chunks bytes n (chunk + 64) (process_chunk bytes chunk h)

abbrev pub start : State
start = record { a = 0x67452301; b = 0xEFCDAB89; c = 0x98BADCFE; d = 0x10325476; e = 0xC3D2E1F0 }

-- four bytes of the digest
abbrev pub word_bytes : ℕ → List ℕ
word_bytes h = (h / 2 ^ 24 % 256) ∷ (h / 2 ^ 16 % 256) ∷ (h / 2 ^ 8 % 256) ∷ (h % 256) ∷ []

unfoldable pub compute : List ℕ → List ℕ
unfolding padded chunks
compute message =
    let h : State = chunks (padded message) (padded_length (length message) / 64) 0 start in
    word_bytes h.a ++ (word_bytes h.b ++ (word_bytes h.c ++ (word_bytes h.d ++ word_bytes h.e)))
