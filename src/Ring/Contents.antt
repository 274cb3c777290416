-- ===== src/Ring/Contents.antt =====
-- The queue that a ring holds, and when a ring is well formed.
use titan_lob.Prelude.{
  ℕ, ◌≤◌, ◌<◌, ◌≡◌, refl, true, ◌↔◌, List, [], arith, slice, length, length-slice,
}
use titan_lob.Ring.{size_mod, mask, sub_size, capacity, RingBuffer, new, empty, full, size_approx}

module _ {ℓ} {A : Type ℓ} where
  -- the elements between the counters
  abbrev pub count : RingBuffer A → ℕ
  count r = sub_size r.head r.tail

  pub record IsValid (r : RingBuffer A) : Type 0 where
    pub head_in : r.head < size_mod
    pub tail_in : r.tail < size_mod
    pub fits : count r ≤ capacity

  -- oldest first
  abbrev pub contents : RingBuffer A → List A
  contents r = slice (λ i. r.buffer (mask i)) r.tail (count r)

  pub length-contents : (r : RingBuffer A) → length (contents r) ≡ count r
  length-contents r = length-slice (λ i. r.buffer (mask i)) r.tail (count r)

  new-IsValid : (default : A) → IsValid (new default) × (contents (new default) ≡ [])
  unfolding new
  new-IsValid default = (omega arith, refl)

  -- The three observers tell how many elements a valid ring holds.
  pub observers_lem :
      {r : RingBuffer A}
      → IsValid r
      → ((empty r ≡ true) ↔ (length (contents r) ≡ 0))
        × ((full r ≡ true) ↔ (length (contents r) ≡ capacity))
        × (size_approx r ≡ length (contents r))
  unfolding empty full size_approx
  observers_lem {r} v = ground (arith, length-contents r)
