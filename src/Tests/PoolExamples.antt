-- ===== src/Tests/PoolExamples.antt =====
-- The object pool at concrete inputs.
use titan_lob.Prelude.{ℕ, ◌+◌, ◌≡◌, refl, not, ◌&&◌, ◌==◌, if◌then◌else◌, [], arith}
use titan_lob.Pool.{ObjectPool, allocate, free, used_count}
use titan_lob.Pool.Invariant.{in_use, IsValid, Allocated, allocate_lem, free_lem}

-- Two objects, both handed out: the next allocation doubles the vector.
abbrev all_used : ObjectPool ℕ
all_used = record { pool = λ i. i; size = 2; free_indices = []; initial_capacity = 2 }

all_used-IsValid : IsValid all_used
all_used-IsValid = record { positive = omega arith; small = omega arith; below = tt; distinct = tt }

allocate_example : let (idx, p') = allocate 0 all_used in Allocated all_used idx p'
allocate_example = allocate_lem 0 all_used all_used-IsValid (omega arith)

free_example :
    let p' = free 0 all_used 1 in
    IsValid p'
    × ((j : ℕ) → in_use p' j ≡ (not (j == 1) && in_use all_used j))
    × (used_count p' + 1 ≡ used_count all_used)
    × ((j : ℕ) → p'.pool j ≡ (if j == 1 then 0 else all_used.pool j))
free_example = free_lem 0 all_used 1 all_used-IsValid refl
