-- ===== src/Web/Base64.antt =====
-- titan_ws_server.h, `base64::encode`. A string is the list of its codes; `x & 0x3F` is `x % 64`, and
-- `|` of numbers without common bits is `+`.
pub mod RoundTrip
use Prim.Native.String.{String}
use Prim.Native.Char.{code}
use titan_lob.Prelude.{ℕ, ◌+◌, ◌*◌, ◌/◌, ◌%◌, ◌^◌, List, [], ◌∷◌, get_or}

abbrev pub codes : String → List ℕ
codes String.[] = []
codes (String.◌∷◌ c s) = code c ∷ codes s

abbrev pub chars : List ℕ
chars = codes "ABCDEFGHIJKLMNOPQRSTUVWXYZabcdefghijklmnopqrstuvwxyz0123456789+/"

-- `'='`
abbrev pub pad : ℕ
pad = 61

-- `chars[(n >> shift) & 0x3F]`
abbrev pub digit_at : (n shift : ℕ) → ℕ
digit_at n shift = get_or chars (n / 2 ^ shift % 64) 0

-- The rounds of the loop: three bytes, or what is left of them.
unfoldable pub encode : List ℕ → List ℕ
encode [] = []
encode (a ∷ []) = let n : ℕ = a * 2 ^ 16 in digit_at n 18 ∷ digit_at n 12 ∷ pad ∷ pad ∷ []
encode (a ∷ b ∷ []) =
    let n : ℕ = a * 2 ^ 16 + b * 2 ^ 8 in digit_at n 18 ∷ digit_at n 12 ∷ digit_at n 6 ∷ pad ∷ []
encode (a ∷ b ∷ c ∷ rest) =
    let n : ℕ = a * 2 ^ 16 + b * 2 ^ 8 + c in
    digit_at n 18 ∷ digit_at n 12 ∷ digit_at n 6 ∷ digit_at n 0 ∷ encode rest
