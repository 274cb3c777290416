-- ===== src/Web/Frame/RoundTrip.antt =====
-- titan_ws_server.h: `decode_frame` on what a client sends, and on what `encode_frame` makes.
use titan_lob.Prelude.{
  ℕ, suc, ◌+◌, ◌-◌, ◌*◌, ◌/◌, ◌%◌, ◌^◌, ◌≡◌, ◌≤◌, ◌<◌, refl, ap, ◌∙◌, inl, inr, Bool, true, false,
  ◌&&◌, leb, ltb, ◌==◌, if◌then◌else◌, Bool-cases, List, [], ◌∷◌, ◌++◌, some, length, take, drop,
  arith,
}
use mathlib.Core.List.{append_assoc}
use titan_lob.Web.Frame.{
  length_bytes, encode_frame, join_bytes, apply_mask, decoded, receive_payload, decode_payload,
  decode_masked, decode_length, decode_frame,
}
use titan_lob.Web.Frame.Masks.{under_mask}

-- a socket at which everything has arrived
abbrev pub buffered : List ℕ → ℕ → List ℕ × List ℕ
buffered s n = (take n s, drop n s)

take-append : {A : Type 0} (xs ys : List A) → take (length xs) (xs ++ ys) ≡ xs
take-append [] ys = refl
take-append (x ∷ xs) ys = ap (λ t. x ∷ t) (take-append xs ys)

drop-append : {A : Type 0} (xs ys : List A) → drop (length xs) (xs ++ ys) ≡ ys
drop-append [] ys = refl
drop-append (x ∷ xs) ys = drop-append xs ys

-- The length of a frame as the protocol has it, with the bit that says whether a mask follows.
abbrev pub size_bytes : (masked : Bool) → ℕ → List ℕ
size_bytes masked len =
    let bit : ℕ = if masked then 128 else 0 in
    if leb len 125
    then (bit + len) ∷ []
    else if leb len 65535
    then (bit + 126) ∷ length_bytes 2 len
    else (bit + 127) ∷ length_bytes 8 len

-- A text frame of a client, by RFC 6455: the mask before the masked payload.
abbrev pub client_frame : (m0 m1 m2 m3 : ℕ) → List ℕ → List ℕ
client_frame m0 m1 m2 m3 message =
    0x81
    ∷ (size_bytes true (length message) ++ (m0 ∷ m1 ∷ m2 ∷ m3 ∷ under_mask m0 m1 m2 m3 message))

receive_buffered :
    (x : ℕ) (xs rest : List ℕ)
    → receive_payload buffered (suc (length (x ∷ xs))) (length (x ∷ xs)) (x ∷ xs ++ rest) []
      ≡ some (decoded (x ∷ xs) rest)
unfolding receive_payload
receive_buffered x xs rest =
    let n : ℕ = length xs in
    let zero_left : suc n - suc n ≡ 0 = omega arith in
    let not_none : (suc n == 0) ≡ false = ground arith in
    rw (take-append xs rest, drop-append xs rest, not_none, zero_left) refl

decode_payload-buffered :
    (masked : Bool) (mask payload rest : List ℕ)
    → 0 < length payload
    → length payload < 1024 * 1024
    → decode_payload buffered masked mask (length payload) (payload ++ rest)
      ≡ some (decoded (if masked then apply_mask mask 0 payload else payload) rest)
unfolding decode_payload
decode_payload-buffered masked mask [] rest more small = absurd (omega arith)
decode_payload-buffered masked mask (x ∷ xs) rest more small =
    let fits : (ltb 0 (length (x ∷ xs)) && ltb (length (x ∷ xs)) (1024 * 1024)) ≡ true =
      ground arith in
    rw (fits, receive_buffered x xs rest) refl

two_bytes : (len : ℕ) → len < 2 ^ 16 → join_bytes 0 (length_bytes 2 len) ≡ len
unfolding length_bytes
two_bytes len lt = omega arith

eight_bytes : (len : ℕ) → len < 2 ^ 20 → join_bytes 0 (length_bytes 8 len) ≡ len
unfolding length_bytes
eight_bytes len lt = omega arith

flag-cases :
    (masked : Bool) (len : ℕ)
    → len < 128
    → let second = (if masked then 128 else 0) + len in
      ((second / 128 % 2 == 1) ≡ masked) × (second % 128 ≡ len)
flag-cases true len lt = (ground arith, omega arith)
flag-cases false len lt = (ground arith, omega arith)

-- What the header says.
decode_header :
    (masked : Bool) (len : ℕ) (tail : List ℕ)
    → len < 1024 * 1024
    → decode_frame buffered (0x81 ∷ (size_bytes masked len ++ tail))
      ≡ decode_masked buffered masked len tail
unfolding decode_frame decode_length length_bytes
decode_header masked len tail small = elim (Bool-cases (leb len 125)) [
  | inl short ↦
      let f = flag-cases masked len (ground arith) in
      let plain : (len == 126) ≡ false = ground arith in
      let plain' : (len == 127) ≡ false = ground arith in rw (short, f.0, f.1, plain, plain') refl
  | inr long ↦ elim (Bool-cases (leb len 65535)) [
    | inl middle ↦
        let f = flag-cases masked 126 (omega arith) in
        rw (long, middle, f.0, f.1)
          (ap (λ n. decode_masked buffered masked n tail) (two_bytes len (ground arith)))
    | inr large ↦
        let f = flag-cases masked 127 (omega arith) in
        rw (long, large, f.0, f.1)
          (ap (λ n. decode_masked buffered masked n tail) (eight_bytes len (omega arith)))
  ]
]

encode_lem :
    (message : List ℕ)
    → encode_frame message 0x01 ≡ 0x81 ∷ (size_bytes false (length message) ++ message)
unfolding encode_frame length_bytes
encode_lem message =
    let n : ℕ = length message in
    let same : 0 + n ≡ n = omega arith in
    let last : n / 1 % 256 ≡ n % 256 = omega arith in rw (same, last) refl

-- `decode_frame` reads back what `encode_frame` makes of a message of less than a megabyte, when the
-- whole frame has arrived, and leaves at the socket what comes after it.
pub decode-encode_frame :
    (message rest : List ℕ)
    → 0 < length message
    → length message < 1024 * 1024
    → decode_frame buffered (encode_frame message 0x01 ++ rest) ≡ some (decoded message rest)
unfolding decode_masked
decode-encode_frame message rest more small =
    ap (λ t. decode_frame buffered (t ++ rest)) (encode_lem message)
    ∙ ap (λ t. decode_frame buffered (0x81 ∷ t))
        (append_assoc (size_bytes false (length message)) message rest)
    ∙ decode_header false (length message) (message ++ rest) small
    ∙ decode_payload-buffered false [] message rest more small

oversized_payload :
    (masked : Bool) (mask payload : List ℕ) (len : ℕ)
    → 1024 * 1024 ≤ len
    → decode_payload buffered masked mask len payload ≡ some (decoded [] payload)
unfolding decode_payload
oversized_payload masked mask payload len large =
    let out : (ltb 0 len && ltb len (1024 * 1024)) ≡ false = ground arith in
    rw (decode_payload, out) refl

-- A masked frame of a client that says it holds a megabyte or more is taken for an empty message, and its
-- payload stays at the socket, where the next call takes it for a frame.
pub decode-oversized :
    (len m0 m1 m2 m3 : ℕ) (payload : List ℕ)
    → 1024 * 1024 ≤ len
    → len < 2 ^ 64
    → decode_frame buffered (0x81 ∷ 0xff ∷ (length_bytes 8 len ++ (m0 ∷ m1 ∷ m2 ∷ m3 ∷ payload)))
      ≡ some (decoded [] payload)
unfolding decode_frame decode_length decode_masked length_bytes
decode-oversized len m0 m1 m2 m3 payload large fits =
    let size : join_bytes 0 (length_bytes 8 len) ≡ len = omega arith in
    ap (λ n. decode_payload buffered true (m0 ∷ m1 ∷ m2 ∷ m3 ∷ []) n payload) size
    ∙ oversized_payload true (m0 ∷ m1 ∷ m2 ∷ m3 ∷ []) payload len large
