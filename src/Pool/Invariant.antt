-- ===== src/Pool/Invariant.antt =====
-- object_pool.h: what `allocate`, `free` and `reset` do to the indices in use.
use titan_lob.Prelude.{
  ℕ, ◌+◌, ◌-◌, ◌*◌, ◌≤◌, ◌<◌, ◌≡◌, refl, sym, ap, ◌∙◌, Bool, true, false, not, ◌||◌, ◌&&◌, List, [],
  ◌∷◌, arith, ◌==◌, ltb, length, if◌then◌else◌,
}
use titan_lob.Pool.{null_index, ObjectPool, new, grow, take_back, allocate, free, reset, used_count}
use titan_lob.Pool.Free.{
  has, Distinct, AllBelow, length-push_down, has-push_down, AllBelow-push_down, Distinct-push_down,
  length_of_Distinct,
}

module _ {A : Type 0} where
  -- `idx` has been handed out and not given back
  abbrev pub in_use : ObjectPool A → ℕ → Bool
  in_use p idx = ltb idx p.size && not (has idx p.free_indices)

  -- The stack holds indices of the vector, each once, and NULL_INDEX is not one of them.
  pub record IsValid (p : ObjectPool A) : Type 0 where
    pub positive : 0 < p.size
    pub small : p.size ≤ null_index
    pub below : AllBelow p.size p.free_indices
    pub distinct : Distinct p.free_indices

  pub record Allocated (p : ObjectPool A) (idx : ℕ) (p' : ObjectPool A) : Type 0 where
    pub valid : IsValid p'
    pub inside : idx < p'.size
    pub was_free : in_use p idx ≡ false
    pub others : (j : ℕ) → in_use p' j ≡ ((j == idx) || in_use p j)
    pub objects : (j : ℕ) → p'.pool j ≡ p.pool j
    pub used : used_count p' ≡ used_count p + 1
    pub grown : p.size ≤ p'.size

module _ {A : Type 0} (default : A) where
  pub new-IsValid :
      (n : ℕ)
      → 0 < n
      → n ≤ null_index
      → IsValid (new default n) × ((j : ℕ) → in_use (new default n) j ≡ false)
  unfolding new
  new-IsValid n pos small = (
    record {
      positive = pos;
      small = small;
      below = AllBelow-push_down 0 n n [] (omega arith) (omega arith) tt;
      distinct = Distinct-push_down 0 n [] (omega arith) (λ i p q. refl) tt;
    },
    λ j. ground (arith, has-push_down 0 n j []),
  )

  -- After `reset` a valid pool is valid and has no index in use.
  pub reset-IsValid :
      {p : ObjectPool A}
      → IsValid p
      → IsValid (reset default p) × ((j : ℕ) → in_use (reset default p) j ≡ false)
  unfolding reset
  reset-IsValid {p} v = (
    record {
      positive = v.positive;
      small = v.small;
      below = AllBelow-push_down 0 p.size p.size [] (omega arith) (omega (arith, v.small)) tt;
      distinct = Distinct-push_down 0 p.size [] (omega (arith, v.small)) (λ i q r. refl) tt;
    },
    λ j. ground (arith, has-push_down 0 p.size j [], v.small),
  )

  grow-IsValid :
      (p : ObjectPool A)
      → p.free_indices ≡ []
      → IsValid p
      → p.size * 2 ≤ null_index
      → IsValid (grow default p)
        × ((j : ℕ) → in_use (grow default p) j ≡ in_use p j)
        × (used_count (grow default p) ≡ used_count p)
        × (length (grow default p).free_indices ≡ p.size)
  unfolding grow used_count
  grow-IsValid p e v room = rw e (
    record {
      positive = omega (arith, v.positive);
      small = room;
      below =
          AllBelow-push_down p.size (p.size * 2 - p.size) (p.size * 2) [] (omega arith)
            (omega arith) tt;
      distinct =
          Distinct-push_down p.size (p.size * 2 - p.size) [] (omega arith) (λ i q r. refl) tt;
    },
    λ j. ground (arith, has-push_down p.size (p.size * 2 - p.size) j []),
    omega (arith, length-push_down p.size (p.size * 2 - p.size) []),
    omega (arith, length-push_down p.size (p.size * 2 - p.size) []),
  )

  module _ (objects : ℕ → A) (size initial : ℕ) where
    -- the pool with a given stack
    abbrev pool_of : List ℕ → ObjectPool A
    pool_of is = record {
      pool = objects;
      size = size;
      free_indices = is;
      initial_capacity = initial;
    }

    take_back-Allocated :
        (idx : ℕ) (rest : List ℕ)
        → IsValid (pool_of (idx ∷ rest))
        → Allocated (pool_of (idx ∷ rest)) idx (pool_of rest)
    unfolding used_count
    take_back-Allocated idx rest v = record {
      valid = record {
        positive = v.positive;
        small = v.small;
        below = v.below.1;
        distinct = v.distinct.1;
      };
      inside = v.below.0;
      was_free = ground arith;
      others = λ j. ground arith;
      objects = λ j. refl;
      used = omega (arith, length_of_Distinct size (idx ∷ rest) v.below v.distinct);
      grown = omega arith;
    }

    take_back_lem :
        (is : List ℕ)
        → 0 < length is
        → IsValid (pool_of is)
        → let (idx, p') = take_back default (pool_of is) in Allocated (pool_of is) idx p'
    unfolding take_back
    take_back_lem [] pos v = absurd (omega arith)
    take_back_lem (idx ∷ rest) pos v = take_back-Allocated idx rest v

  -- What holds of the grown pool holds of the pool.
  ungrow :
      (p : ObjectPool A) {idx : ℕ} {p' : ObjectPool A}
      → p.free_indices ≡ []
      → IsValid p
      → p.size * 2 ≤ null_index
      → Allocated (grow default p) idx p'
      → Allocated p idx p'
  unfolding grow
  ungrow p {idx} {p'} e v room a =
      let g = grow-IsValid p e v room in
      record {
        valid = a.valid;
        inside = a.inside;
        was_free = sym (g.1 idx) ∙ a.was_free;
        others = λ j. a.others j ∙ ap (λ b. (j == idx) || b) (g.1 j);
        objects = a.objects;
        used = a.used ∙ ap (λ n. n + 1) g.2;
        grown = omega (arith, a.grown);
      }

  allocate_at :
      (objects : ℕ → A) (size initial : ℕ) (is : List ℕ)
      → IsValid (pool_of objects size initial is)
      → size * 2 ≤ null_index
      → let (idx, p') = allocate default (pool_of objects size initial is) in
        Allocated (pool_of objects size initial is) idx p'
  unfolding allocate
  allocate_at objects size initial (i ∷ is) v room =
      take_back_lem objects size initial (i ∷ is) (omega arith) v
  allocate_at objects size initial [] v room =
      let p : ObjectPool A = pool_of objects size initial [] in
      let g = grow-IsValid p refl v room in
      ungrow p refl v room (
        take_back_lem objects (size * 2) initial (grow default p).free_indices
          (omega (arith, g.3, v.positive)) g.0)

  -- `allocate` on a valid pool gives an index that was not in use, and marks that one alone; it keeps
  -- every object, and the pool stays valid. The vector doubles when no index is free, for which its
  -- indices must fit `uint32_t` beside NULL_INDEX.
  pub allocate_lem :
      (p : ObjectPool A)
      → IsValid p
      → p.size * 2 ≤ null_index
      → let (idx, p') = allocate default p in Allocated p idx p'
  allocate_lem p v room = allocate_at p.pool p.size p.initial_capacity p.free_indices v room

  -- `free` of an index in use takes that one alone out of use and resets its object, and the pool
  -- stays valid.
  pub free_lem :
      (p : ObjectPool A) (idx : ℕ)
      → IsValid p
      → in_use p idx ≡ true
      → let p' = free default p idx in
        IsValid p'
        × ((j : ℕ) → in_use p' j ≡ (not (j == idx) && in_use p j))
        × (used_count p' + 1 ≡ used_count p)
        × ((j : ℕ) → p'.pool j ≡ (if j == idx then default else p.pool j))
  unfolding free used_count
  free_lem p idx v used =
      let new : has idx p.free_indices ≡ false = ground arith in
      let lt : idx < p.size = ground arith in
      (
        record {
          positive = v.positive;
          small = v.small;
          below = (lt, v.below);
          distinct = (new, v.distinct);
        },
        λ j. ground arith,
        omega (
          arith,
          length_of_Distinct p.size (idx ∷ p.free_indices) (lt, v.below) (new, v.distinct),
        ),
        λ j. refl,
      )
