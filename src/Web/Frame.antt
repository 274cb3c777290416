-- ===== src/Web/Frame.antt =====
-- titan_ws_server.h, the frames of the websocket protocol: `encode_frame` and `decode_frame`. A string and
-- a vector of bytes are lists of numbers below 256; `x & 0x7F` is `x % 128`, `x & 0xFF` is `x % 256`, and
-- `(x << 8) | y` for a byte `y` is `x * 256 + y`. `recv s n` is a call for at most `n` bytes: the bytes
-- that it delivers, none where it returns 0 or an error, and the socket then.
pub mod Masks
pub mod RoundTrip
use Prim.Native.Nat.{bit_or, bit_xor}
use titan_lob.Prelude.{
  ℕ, zero, suc, ◌+◌, ◌-◌, ◌*◌, ◌/◌, ◌%◌, ◌^◌, Bool, true, false, not, ◌&&◌, leb, ltb, ◌==◌,
  if◌then◌else◌, List, [], ◌∷◌, ◌++◌, Option, none, some, length, get_or,
}

-- the bytes of a length, `i` of them, the highest first
unfoldable pub length_bytes : (i len : ℕ) → List ℕ
length_bytes zero len = []
length_bytes (suc i) len = (len / 2 ^ (i * 8) % 256) ∷ length_bytes i len

unfoldable pub encode_frame : List ℕ → (opcode : ℕ) → List ℕ
unfolding length_bytes
encode_frame message opcode =
    let len : ℕ = length message in
    let size : List ℕ =
      if leb len 125
      then len ∷ []
      else if leb len 65535
      then 126 ∷ (len / 2 ^ 8 % 256) ∷ (len % 256) ∷ []
      else 127 ∷ length_bytes 8 len in
    bit_or 0x80 opcode ∷ (size ++ message)

-- the loop over `ext`, on a `uint64_t`
abbrev pub join_bytes : ℕ → List ℕ → ℕ
join_bytes n [] = n
join_bytes n (e ∷ es) = join_bytes ((n * 256 + e) % 2 ^ 64) es

-- byte `i` of the mask
abbrev pub mask_byte : List ℕ → ℕ → ℕ
mask_byte [] i = 0
mask_byte (m ∷ ms) zero = m
mask_byte (m ∷ ms) (suc i) = mask_byte ms i

-- `payload[i] ^= mask[i % 4]` from index `i` on
unfoldable pub apply_mask : List ℕ → (i : ℕ) → List ℕ → List ℕ
apply_mask mask i [] = []
apply_mask mask i (b ∷ bs) = bit_xor b (mask_byte mask (i % 4)) ∷ apply_mask mask (i + 1) bs

pub data Decoded (S : Type 0) : Type 0 where
  failed : S → Decoded S
  decoded : List ℕ → S → Decoded S

module _ {S : Type 0} (recv : S → ℕ → List ℕ × S) where
  -- `while (received < payload_len)`, with `left` bytes still to come; its fuel bounds the calls of
  -- `recv`, and `left` more than that is never needed.
  unfoldable pub receive_payload : (fuel left : ℕ) → S → List ℕ → Option (Decoded S)
  receive_payload zero left s payload = none
  receive_payload (suc fuel) left s payload =
      let (xs, s') = recv s left in
      let rest = receive_payload fuel (left - length xs) s' (payload ++ xs) in
      if left == 0
      then some (decoded payload s)
      else if length xs == 0
      then some (failed s')
      else rest

  -- From the payload on; `message` is empty when `decode_frame` is called.
  unfoldable pub decode_payload :
      (masked : Bool) (mask : List ℕ) (payload_len : ℕ) → S → Option (Decoded S)
  unfolding apply_mask
  decode_payload masked mask payload_len s =
      if ltb 0 payload_len && ltb payload_len (1024 * 1024)
      then elim (receive_payload (suc payload_len) payload_len s []) [
        | none ↦ none
        | some (failed s') ↦ some (failed s')
        | some (decoded payload s') ↦
            some (decoded (if masked then apply_mask mask 0 payload else payload) s')
      ]
      else some (decoded [] s)

  -- From the mask on.
  unfoldable pub decode_masked : (masked : Bool) (payload_len : ℕ) → S → Option (Decoded S)
  decode_masked masked payload_len s =
      let (mask, s') = recv s 4 in
      if masked
      then (if length mask == 4 then decode_payload true mask payload_len s' else some (failed s'))
      else decode_payload false [] payload_len s

  -- From the extended length on; the two bytes of the header are `first` and `second`.
  unfoldable pub decode_length : (first second : ℕ) → S → Option (Decoded S)
  decode_length first second s =
      let opcode : ℕ = first % 16 in
      let masked : Bool = second / 128 % 2 == 1 in
      let payload_len : ℕ = second % 128 in
      let (ext2, s2) = recv s 2 in
      let (ext8, s8) = recv s 8 in
      if opcode == 0x08
      then some (failed s)
      else if payload_len == 126
      then (if length ext2 == 2
          then decode_masked masked (join_bytes 0 ext2) s2
          else some (failed s2))
      else if payload_len == 127
      then (if length ext8 == 8
          then decode_masked masked (join_bytes 0 ext8) s8
          else some (failed s8))
      else decode_masked masked payload_len s

  unfoldable pub decode_frame : S → Option (Decoded S)
  decode_frame s =
      let (header, s') = recv s 2 in
      if length header == 2
      then decode_length (get_or header 0 0) (get_or header 1 0) s'
      else some (failed s')
