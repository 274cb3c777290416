-- ===== src/Tests/RingExamples.antt =====
-- The ring buffer at concrete inputs.
use titan_lob.Prelude.{
  ◌&&◌, leb, false, ℕ, ◌*◌, ◌-◌, ◌≡◌, [], ◌∷◌, ◌++◌, arith, ltb, if◌then◌else◌, slice, length,
}
use Prim.Native.Nat.{min}
use titan_lob.Ring.{
  size_mod, sub_size, capacity, RingBuffer, push_batch, try_push, try_push_with_cached_tail,
  try_pop, pop_batch,
}
use titan_lob.Ring.Contents.{IsValid, contents}
use titan_lob.Ring.Push.{push_batch_lem, try_push_lem, IsStale, try_push_with_cached_tail_lem}
use titan_lob.Ring.Pop.{Popped, pop_front, pop_batch_lem, try_pop_lem}

-- Two elements, across the wrap of the counters.
abbrev two : RingBuffer ℕ
two = record { buffer = λ i. i; head = 1; tail = size_mod - 1 }

two-IsValid : IsValid two
two-IsValid = omega arith

push_batch_example :
    let (m, r') = push_batch two (λ i. 10 * i) 3 in
    (m ≡ min 3 (capacity - length (contents two)))
    × (contents r' ≡ contents two ++ slice (λ i. 10 * i) 0 m)
    × IsValid r'
push_batch_example = push_batch_lem (λ i. 10 * i) 3 two-IsValid

try_push_example :
    let (b, r') = try_push two 7 in
    (b ≡ ltb (length (contents two)) capacity)
    × (contents r' ≡ contents two ++ (if b then 7 ∷ [] else []))
    × IsValid r'
try_push_example = try_push_lem 7 two-IsValid

two-IsStale : IsStale two (size_mod - 3)
two-IsStale = omega arith

try_push_with_cached_tail_example :
    let (b, r') = try_push_with_cached_tail two 7 (size_mod - 3) in
    (b ≡ ltb (sub_size (two.head) (size_mod - 3)) capacity)
    × (contents r' ≡ contents two ++ (if b then 7 ∷ [] else []))
    × IsValid r'
    × ((b && leb capacity (length (contents two))) ≡ false)
try_push_with_cached_tail_example =
    try_push_with_cached_tail_lem 7 (size_mod - 3) two-IsValid two-IsStale

pop_batch_example :
    let (m, out', r') = pop_batch two (λ _. 0) 5 in
    (m ≡ min 5 (length (contents two))) × Popped two (λ _. 0) m out' r'
pop_batch_example = pop_batch_lem (λ _. 0) 5 two-IsValid

try_pop_example :
    let (o, r') = try_pop two in ((o, contents r') ≡ pop_front (contents two)) × IsValid r'
try_pop_example = try_pop_lem two-IsValid
