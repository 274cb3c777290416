-- ===== src/Web/Base64/RoundTrip.antt =====
-- titan_ws_server.h: what `base64::encode` makes of bytes can be read back.
use titan_lob.Prelude.{
  ℕ, zero, suc, ◌+◌, ◌-◌, ◌*◌, ◌/◌, ◌%◌, ◌^◌, ◌≡◌, ◌<◌, refl, ap, inl, inr, Bool, true, false, ◌&&◌,
  ltb, ◌==◌, ==_iff, if◌then◌else◌, Bool-cases, List, [], ◌∷◌, length, get_or, arith,
}
use mathlib.Core.Path.{ap₂}
use titan_lob.Web.Base64.{chars, pad, digit_at, encode}

-- the value of a character of the alphabet
abbrev pub value_of : ℕ → ℕ
value_of c =
    if ltb c 48
    then (if c == 43 then 62 else 63)
    else if ltb c 58
    then c + 4
    else if ltb c 91
    then c - 65
    else c - 71

abbrev holds_below : (ℕ → Bool) → ℕ → Bool
holds_below f zero = true
holds_below f (suc n) = f n && holds_below f n

holds_at : (f : ℕ → Bool) (n i : ℕ) → holds_below f n ≡ true → i < n → f i ≡ true
holds_at f zero i h lt = absurd (omega arith)
holds_at f (suc n) i h lt = elim (Bool-cases (i == n)) [
  | inl e ↦ rw ((==_iff i n).0 e) (ground arith)
  | inr ne ↦ holds_at f n i (ground arith) (ground arith)
]

-- The characters of the alphabet stand for their places, and the padding is none of them.
value_of-chars :
    (i : ℕ) → i < 64 → (value_of (get_or chars i 0) ≡ i) × ((get_or chars i 0 == pad) ≡ false)
value_of-chars i lt =
    let a = holds_at (λ j. value_of (get_or chars j 0) == j) 64 i refl lt in
    let b = holds_at (λ j. if get_or chars j 0 == pad then false else true) 64 i refl lt in
    (ground arith, ground arith)

digit_at-value_of :
    (n shift : ℕ)
    → (value_of (digit_at n shift) ≡ n / 2 ^ shift % 64) × ((digit_at n shift == pad) ≡ false)
digit_at-value_of n shift = value_of-chars (n / 2 ^ shift % 64) (omega arith)

-- What a reader of base64 makes of it: four characters give three bytes, two or one.
abbrev pub decode : List ℕ → List ℕ
decode [] = []
decode (c0 ∷ []) = []
decode (c0 ∷ c1 ∷ []) = []
decode (c0 ∷ c1 ∷ c2 ∷ []) = []
decode (c0 ∷ c1 ∷ c2 ∷ c3 ∷ rest) =
    let n : ℕ = value_of c0 * 2 ^ 18 + value_of c1 * 2 ^ 12 in
    let n2 : ℕ = n + value_of c2 * 2 ^ 6 in
    let n3 : ℕ = n2 + value_of c3 in
    let more = decode rest in
    if c2 == pad
    then (n / 2 ^ 16) ∷ []
    else if c3 == pad
    then (n2 / 2 ^ 16) ∷ (n2 / 2 ^ 8 % 256) ∷ []
    else (n3 / 2 ^ 16) ∷ (n3 / 2 ^ 8 % 256) ∷ (n3 % 256) ∷ more

abbrev pub AreBytes : List ℕ → Type 0
AreBytes [] = Unit
AreBytes (b ∷ bs) = (b < 256) × AreBytes bs

-- Base64 text of bytes is read back as these bytes, and has four characters for each three of them or
-- part of three.
pub decode-encode :
    (bs : List ℕ)
    → AreBytes bs
    → (decode (encode bs) ≡ bs) × (length (encode bs) ≡ (length bs + 2) / 3 * 4)
unfolding encode
decode-encode [] h = (refl, refl)
decode-encode (a ∷ []) (p, h) =
    let n : ℕ = a * 2 ^ 16 in
    let d0 = digit_at-value_of n 18 in
    let d1 = digit_at-value_of n 12 in (rw (d0.0, d1.0) (ap (λ x. x ∷ []) (omega arith)), refl)
decode-encode (a ∷ b ∷ []) (p, (q, h)) =
    let n : ℕ = a * 2 ^ 16 + b * 2 ^ 8 in
    let d0 = digit_at-value_of n 18 in
    let d1 = digit_at-value_of n 12 in
    let d2 = digit_at-value_of n 6 in
    (rw (d0.0, d1.0, d2.0, d2.1) (ap₂ (λ x y. x ∷ y ∷ []) (omega arith) (omega arith)), refl)
decode-encode (a ∷ b ∷ c ∷ rest) (p, (q, (r, h))) =
    let n : ℕ = a * 2 ^ 16 + b * 2 ^ 8 + c in
    let d0 = digit_at-value_of n 18 in
    let d1 = digit_at-value_of n 12 in
    let d2 = digit_at-value_of n 6 in
    let d3 = digit_at-value_of n 0 in
    let (again, size) = decode-encode rest h in
    (
      rw (d0.0, d1.0, d2.0, d2.1, d3.0, d3.1, again)
          (ap₂ ◌∷◌ (omega arith) (ap₂ ◌∷◌ (omega arith) (ap (λ x. x ∷ rest) (omega arith)))),
      omega (arith, size),
    )
