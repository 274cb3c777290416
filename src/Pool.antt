-- ===== src/Pool.antt =====
-- object_pool.h: a vector of objects and a stack of the indices that are free. The stack is a list
-- with the back of `free_indices_` first. `T{}` is a parameter.
pub mod Free
pub mod Invariant
use titan_lob.Prelude.{ℕ, zero, suc, ◌+◌, ◌-◌, ◌*◌, ◌%◌, ◌^◌, List, [], ◌∷◌, update, length}

abbrev pub null_index : ℕ
null_index = 2 ^ 32 - 1

pub record ObjectPool {ℓ} (A : Type ℓ) : Type ℓ where
  pub pool : ℕ → A
  pub size : ℕ
  pub free_indices : List ℕ
  pub initial_capacity : ℕ

-- The loop `for (i = lo + n; i > lo; --i) free_indices_.push_back((uint32_t)(i - 1))`.
unfoldable pub push_down : (lo n : ℕ) → List ℕ → List ℕ
push_down lo zero free_indices = free_indices
push_down lo (suc n) free_indices = push_down lo n (((lo + n) % 2 ^ 32) ∷ free_indices)

module _ {ℓ} {A : Type ℓ} (default : A) where
  unfoldable pub new : ℕ → ObjectPool A
  unfolding push_down
  new capacity = record {
    pool = λ _. default;
    size = capacity;
    free_indices = push_down 0 capacity [];
    initial_capacity = capacity;
  }

  -- `pool_.resize(new_size)` fills the new cells with `T{}`; those cells were never written.
  unfoldable pub grow : ObjectPool A → ObjectPool A
  unfolding push_down
  grow p = record p {
    size = p.size * 2;
    free_indices = push_down p.size (p.size * 2 - p.size) p.free_indices;
  }

  -- `back()` and `pop_back()`; on an empty vector they are undefined, and give NULL_INDEX here.
  unfoldable pub take_back : ObjectPool A → ℕ × ObjectPool A
  take_back p = elim p.free_indices [
    | [] ↦ (null_index, p)
    | idx ∷ rest ↦ (idx, record p { free_indices = rest })
  ]

  unfoldable pub allocate : ObjectPool A → ℕ × ObjectPool A
  unfolding take_back grow
  allocate p = elim p.free_indices [ [] ↦ take_back (grow p) | _ ∷ _ ↦ take_back p ]

  unfoldable pub free : ObjectPool A → ℕ → ObjectPool A
  unfolding update
  free p idx = record p { pool = update p.pool idx default; free_indices = idx ∷ p.free_indices }

  -- The objects stay as they are.
  unfoldable pub reset : ObjectPool A → ObjectPool A
  unfolding push_down
  reset p = record p { free_indices = push_down 0 p.size [] }

module _ {ℓ} {A : Type ℓ} where
  unfoldable pub capacity : ObjectPool A → ℕ
  capacity p = p.size

  unfoldable pub free_count : ObjectPool A → ℕ
  free_count p = length p.free_indices

  unfoldable pub used_count : ObjectPool A → ℕ
  used_count p = p.size - length p.free_indices
