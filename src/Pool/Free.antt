-- ===== src/Pool/Free.antt =====
-- Stacks of indices: membership, distinctness, and the stack that `push_down` builds.
use titan_lob.Prelude.{
  ℕ, zero, suc, ◌+◌, ◌%◌, ◌^◌, ◌≤◌, ◌<◌, ◌≡◌, refl, Bool, true, false, ◌||◌, ◌&&◌, List, [], ◌∷◌,
  arith, ◌==◌, ltb, leb, length, if◌then◌else◌, Bool-cases, inl, inr,
}
use titan_lob.Pool.{push_down}

abbrev pub has : ℕ → List ℕ → Bool
has i [] = false
has i (j ∷ js) = (i == j) || has i js

abbrev pub Distinct : List ℕ → Type 0
Distinct [] = Unit {0}
Distinct (i ∷ is) = (has i is ≡ false) × Distinct is

-- every index is below `n`
abbrev pub AllBelow : ℕ → List ℕ → Type 0
AllBelow n [] = Unit {0}
AllBelow n (i ∷ is) = (i < n) × AllBelow n is

pub lt_of_has : (n i : ℕ) (is : List ℕ) → AllBelow n is → has i is ≡ true → i < n
lt_of_has n i [] b h = absurd (cc)
lt_of_has n i (j ∷ js) b h = ground (arith, lt_of_has n i js b.1)

pub AllBelow-mono : (n m : ℕ) (is : List ℕ) → n ≤ m → AllBelow n is → AllBelow m is
AllBelow-mono n m [] le b = tt
AllBelow-mono n m (i ∷ is) le b = (omega arith, AllBelow-mono n m is le b.1)

pub length-push_down : (lo n : ℕ) (is : List ℕ) → length (push_down lo n is) ≡ n + length is
unfolding push_down
length-push_down lo zero is = omega arith
length-push_down lo (suc n) is = omega (arith, length-push_down lo n (((lo + n) % 2 ^ 32) ∷ is))

pub has-push_down :
    (lo n i : ℕ) (is : List ℕ)
    → lo + n ≤ 2 ^ 32
    → has i (push_down lo n is) ≡ ((leb lo i && ltb i (lo + n)) || has i is)
unfolding push_down
has-push_down lo zero i is h = ground arith
has-push_down lo (suc n) i is h = ground (arith, has-push_down lo n i (((lo + n) % 2 ^ 32) ∷ is))

pub AllBelow-push_down :
    (lo n m : ℕ) (is : List ℕ)
    → lo + n ≤ m
    → m ≤ 2 ^ 32
    → AllBelow m is
    → AllBelow m (push_down lo n is)
unfolding push_down
AllBelow-push_down lo zero m is h k b = b
AllBelow-push_down lo (suc n) m is h k b =
    AllBelow-push_down lo n m (((lo + n) % 2 ^ 32) ∷ is) (omega arith) k (omega arith, b)

-- Pushing fresh indices keeps a stack free of repetition.
pub Distinct-push_down :
    (lo n : ℕ) (is : List ℕ)
    → lo + n ≤ 2 ^ 32
    → ((i : ℕ) → lo ≤ i → i < lo + n → has i is ≡ false)
    → Distinct is
    → Distinct (push_down lo n is)
unfolding push_down
Distinct-push_down lo zero is h new d = d
Distinct-push_down lo (suc n) is h new d =
    let last : (lo + n) % 2 ^ 32 ≡ lo + n = omega arith in
    rw last (
      Distinct-push_down lo n ((lo + n) ∷ is) (omega arith)
        (λ i p q. ground (arith, new i p (omega arith)))
        (new (lo + n) (omega arith) (omega arith), d))

pub fresh_of_AllBelow : (n i : ℕ) (is : List ℕ) → AllBelow n is → n ≤ i → has i is ≡ false
fresh_of_AllBelow n i [] b h = refl
fresh_of_AllBelow n i (j ∷ js) b h = ground (arith, fresh_of_AllBelow n i js b.1)

without : ℕ → List ℕ → List ℕ
without n [] = []
without n (i ∷ is) = if i == n then without n is else i ∷ without n is

has-without : (n i : ℕ) (is : List ℕ) → has i is ≡ false → has i (without n is) ≡ false
unfolding without
has-without n i [] h = refl
has-without n i (j ∷ js) h = ground (arith, has-without n i js)

Distinct-without : (n : ℕ) (is : List ℕ) → Distinct is → Distinct (without n is)
unfolding without
Distinct-without n [] d = tt
Distinct-without n (i ∷ is) (new, d) = elim (Bool-cases (i == n)) [
  | inl e ↦ rw e (Distinct-without n is d)
  | inr ne ↦ rw ne (has-without n i is new, Distinct-without n is d)
]

AllBelow-without : (n : ℕ) (is : List ℕ) → AllBelow (suc n) is → AllBelow n (without n is)
unfolding without
AllBelow-without n [] b = tt
AllBelow-without n (i ∷ is) (lt, b) = elim (Bool-cases (i == n)) [
  | inl e ↦ rw e (AllBelow-without n is b)
  | inr ne ↦ rw ne (ground arith, AllBelow-without n is b)
]

without-fresh : (n : ℕ) (is : List ℕ) → has n is ≡ false → length (without n is) ≡ length is
unfolding without
without-fresh n [] h = refl
without-fresh n (i ∷ is) h = ground (arith, without-fresh n is)

length-without : (n : ℕ) (is : List ℕ) → Distinct is → length is ≤ suc (length (without n is))
unfolding without
length-without n [] d = omega arith
length-without n (i ∷ is) (new, d) = elim (Bool-cases (i == n)) [
  | inl e ↦
      rw e (let fresh : has n is ≡ false = ground arith in omega (arith, without-fresh n is fresh))
  | inr ne ↦ rw ne (omega (arith, length-without n is d))
]

-- Distinct indices below `n` are at most `n`.
pub length_of_Distinct : (n : ℕ) (is : List ℕ) → AllBelow n is → Distinct is → length is ≤ n
length_of_Distinct n [] b d = omega arith
length_of_Distinct zero (i ∷ is) b d = absurd (omega arith)
length_of_Distinct (suc n) (i ∷ is) b d = omega (
  arith,
  length-without n (i ∷ is) d,
  length_of_Distinct n (without n (i ∷ is)) (AllBelow-without n (i ∷ is) b)
      (Distinct-without n (i ∷ is) d),
)
