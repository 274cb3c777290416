-- ===== src/Web/Frame/Masks.antt =====
-- titan_ws_server.h: the mask of a client's frame, and how the server takes it off.
use Prim.Native.Nat.{bit_xor, differ}
use titan_lob.Prelude.{
  ℕ, zero, suc, ◌+◌, ◌*◌, ◌/◌, ◌%◌, ◌≡◌, ◌≤◌, ◌<◌, ◌⊎◌, inl, inr, refl, ap, ◌∙◌, arith, List, [],
  ◌∷◌, length,
}
use titan_lob.Bits.{bit_xor-halves}
use titan_lob.Web.Frame.{apply_mask}

bit-cases : (a : ℕ) → (a % 2 ≡ 0) ⊎ (a % 2 ≡ 1)
bit-cases a = ground arith

differ-bits :
    (a b : ℕ) → (differ (a % 2) (b % 2) < 2) × (differ (differ (a % 2) (b % 2)) (b % 2) ≡ a % 2)
differ-bits a b = elim (bit-cases a) [
  | inl e ↦
      rw e
        (elim (bit-cases b) [ inl f ↦ rw f (omega arith, refl) | inr f ↦ rw f (omega arith, refl) ])
  | inr e ↦
      rw e
        (elim (bit-cases b) [ inl f ↦ rw f (omega arith, refl) | inr f ↦ rw f (omega arith, refl) ])
]

xor_twice : (fuel a m : ℕ) → a ≤ fuel → m ≤ fuel → bit_xor (bit_xor a m) m ≡ a
xor_twice zero a m p q =
    let z : a ≡ 0 = omega arith in let z' : m ≡ 0 = omega arith in rw (z, z') refl
xor_twice (suc fuel) a m p q =
    let h = bit_xor-halves a m in
    let d = differ-bits a m in
    let low : bit_xor a m % 2 ≡ differ (a % 2) (m % 2) = omega (arith, d.0) in
    let high : bit_xor a m / 2 ≡ bit_xor (a / 2) (m / 2) = omega (arith, d.0) in
    let rest = xor_twice fuel (a / 2) (m / 2) (omega arith) (omega arith) in
    bit_xor-halves (bit_xor a m) m ∙ rw (low, high, d.1, rest) (omega arith)

-- The payload under a mask, by RFC 6455: the four bytes of the mask in turn, over and over.
abbrev pub under_mask : (m0 m1 m2 m3 : ℕ) → List ℕ → List ℕ
under_mask m0 m1 m2 m3 [] = []
under_mask m0 m1 m2 m3 (b ∷ bs) = bit_xor b m0 ∷ under_mask m1 m2 m3 m0 bs

xor_back : (b m : ℕ) → bit_xor (bit_xor b m) m ≡ b
xor_back b m = xor_twice (b + m) b m (omega arith) (omega arith)

-- The four bytes of the mask from an index on that is a multiple of four.
turns :
    (i q : ℕ)
    → i ≡ 4 * q
    → (i % 4 ≡ 0) × ((i + 1) % 4 ≡ 1) × ((i + 1 + 1) % 4 ≡ 2) × ((i + 1 + 1 + 1) % 4 ≡ 3)
turns i q e = (omega arith, omega arith, omega arith, omega arith)

unmask :
    (m0 m1 m2 m3 i q : ℕ) (bs : List ℕ)
    → i ≡ 4 * q
    → apply_mask (m0 ∷ m1 ∷ m2 ∷ m3 ∷ []) i (under_mask m0 m1 m2 m3 bs) ≡ bs
unfolding apply_mask
unmask m0 m1 m2 m3 i q [] e = refl
unmask m0 m1 m2 m3 i q (a ∷ []) e = let t = turns i q e in rw (t.0, xor_back a m0) refl
unmask m0 m1 m2 m3 i q (a ∷ b ∷ []) e =
    let t = turns i q e in rw (t.0, t.1, xor_back a m0, xor_back b m1) refl
unmask m0 m1 m2 m3 i q (a ∷ b ∷ c ∷ []) e =
    let t = turns i q e in rw (t.0, t.1, t.2, xor_back a m0, xor_back b m1, xor_back c m2) refl
unmask m0 m1 m2 m3 i q (a ∷ b ∷ c ∷ d ∷ bs) e =
    let t = turns i q e in
    let rest = unmask m0 m1 m2 m3 (i + 1 + 1 + 1 + 1) (q + 1) bs (omega arith) in
    rw (t.0, t.1, t.2, t.3, xor_back a m0, xor_back b m1, xor_back c m2, xor_back d m3, rest) refl

-- `decode_frame` takes such a mask off.
pub apply_mask-under_mask :
    (m0 m1 m2 m3 : ℕ) (bs : List ℕ)
    → apply_mask (m0 ∷ m1 ∷ m2 ∷ m3 ∷ []) 0 (under_mask m0 m1 m2 m3 bs) ≡ bs
apply_mask-under_mask m0 m1 m2 m3 bs = unmask m0 m1 m2 m3 0 0 bs (omega arith)

pub length-under_mask :
    (m0 m1 m2 m3 : ℕ) (bs : List ℕ) → length (under_mask m0 m1 m2 m3 bs) ≡ length bs
length-under_mask m0 m1 m2 m3 [] = refl
length-under_mask m0 m1 m2 m3 (b ∷ bs) = ap suc (length-under_mask m1 m2 m3 m0 bs)
