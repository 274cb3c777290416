-- ===== src/Ring/Push.antt =====
-- What the producer's operations do to the queue.
use titan_lob.Prelude.{
  ◌&&◌, leb, false, ℕ, ◌+◌, ◌-◌, ◌≤◌, ◌<◌, ◌≡◌, ◌∙◌, [], ◌∷◌, ◌++◌, arith, ltb, if◌then◌else◌,
  update, slice, length, slice-append, slice_ext,
}
use Prim.Native.Nat.{min}
use mathlib.Core.List.{append-nil}
use mathlib.Core.Path.{ap, ap₂}
use titan_lob.Ring.{
  size, size_mod, mask, add_size, sub_size, capacity, RingBuffer, write_chunks, push_batch_at,
  push_batch, try_push, try_push_with_cached_tail,
}
use titan_lob.Ring.Contents.{count, IsValid, contents, length-contents}

module _ {A : Type 0} where
  -- A write just past `used` elements from `tail` on leaves those alone.
  write_chunks_old :
      (buffer batch : ℕ → A) (tail used m j : ℕ)
      → used + m < size
      → j < used
      → write_chunks buffer (mask (tail + used)) batch m (mask (tail + j))
        ≡ buffer (mask (tail + j))
  unfolding write_chunks
  write_chunks_old buffer batch tail used m j room h = ground arith

  write_chunks_new :
      (buffer batch : ℕ → A) (tail used m j : ℕ)
      → used + m < size
      → j < m
      → write_chunks buffer (mask (tail + used)) batch m (mask (tail + used + j)) ≡ batch j
  unfolding write_chunks
  write_chunks_new buffer batch tail used m j room h = ground arith

  -- What a push of the first `m` cells of `batch` leaves.
  record Pushed (r : RingBuffer A) (batch : ℕ → A) (m : ℕ) (r' : RingBuffer A) : Type 0 where
    valid : IsValid r'
    queue : contents r' ≡ contents r ++ slice batch 0 m

  write_chunks-Pushed :
      (r : RingBuffer A) (batch : ℕ → A) (m : ℕ)
      → IsValid r
      → count r + m ≤ capacity
      → Pushed r batch m (record r {
        buffer = write_chunks r.buffer (mask r.head) batch m;
        head = add_size r.head m;
      })
  write_chunks-Pushed r batch m v room = record {
    valid = record { head_in = omega arith; tail_in = v.tail_in; fits = omega arith };
    queue =
        ap (slice new_cell r.tail) grown
        ∙ slice-append new_cell r.tail (count r) m
        ∙ ap₂ ◌++◌ (slice_ext new_cell old_cell r.tail r.tail (count r) kept)
            (slice_ext new_cell batch (r.tail + count r) 0 m added);
  }
    where
      old_cell : ℕ → A
      old_cell i = r.buffer (mask i)

      new_cell : ℕ → A
      new_cell i = write_chunks r.buffer (mask r.head) batch m (mask i)

      grown : sub_size (add_size r.head m) r.tail ≡ count r + m
      grown = omega arith

      index : mask r.head ≡ mask (r.tail + count r)
      index = omega arith

      kept : (j : ℕ) → j < count r → new_cell (r.tail + j) ≡ old_cell (r.tail + j)
      kept j h = rw index (write_chunks_old r.buffer batch r.tail (count r) m j (omega arith) h)

      added : (j : ℕ) → j < m → new_cell (r.tail + count r + j) ≡ batch (0 + j)
      added j h =
          let start : 0 + j ≡ j = omega arith in
          rw (index, start) (write_chunks_new r.buffer batch r.tail (count r) m j (omega arith) h)

  -- `push_batch` takes as many cells of the batch as fit, returns their number, and appends exactly
  -- those to the queue of a valid ring.
  pub push_batch_lem :
      {r : RingBuffer A} (batch : ℕ → A) (n : ℕ)
      → IsValid r
      → let (m, r') = push_batch r batch n in
        (m ≡ min n (capacity - length (contents r)))
        × (contents r' ≡ contents r ++ slice batch 0 m)
        × IsValid r'
  unfolding push_batch push_batch_at
  push_batch_lem {r} batch n v = ground (
    arith,
    length-contents r,
    append-nil (contents r),
    write_chunks-Pushed r batch n v,
    write_chunks-Pushed r batch (capacity - count r) v,
  )

  cell-append :
      (r : RingBuffer A) (x : A)
      → IsValid r
      → count r < capacity
      → Pushed r
          (λ _. x)
          1
          (record r { buffer = update r.buffer (mask r.head) x; head = add_size r.head 1 })
  unfolding update
  cell-append r x v room = record {
    valid = record { head_in = omega arith; tail_in = v.tail_in; fits = omega arith };
    queue =
        ap (slice new_cell r.tail) grown
        ∙ slice-append new_cell r.tail (count r) 1
        ∙ ap₂ ◌++◌ (slice_ext new_cell old_cell r.tail r.tail (count r) kept)
            (slice_ext new_cell (λ _. x) (r.tail + count r) 0 1 added);
  }
    where
      old_cell : ℕ → A
      old_cell i = r.buffer (mask i)

      new_cell : ℕ → A
      new_cell i = update r.buffer (mask r.head) x (mask i)

      grown : sub_size (add_size r.head 1) r.tail ≡ count r + 1
      grown = omega arith

      kept : (j : ℕ) → j < count r → new_cell (r.tail + j) ≡ old_cell (r.tail + j)
      kept j h = ground arith

      added : (j : ℕ) → j < 1 → new_cell (r.tail + count r + j) ≡ x
      added j h = ground arith

  -- `try_push` returns whether the queue of a valid ring has room, and puts the item at its end if
  -- so; it keeps the ring valid, and a full ring as it is.
  pub try_push_lem :
      {r : RingBuffer A} (x : A)
      → IsValid r
      → let (b, r') = try_push r x in
        (b ≡ ltb (length (contents r)) capacity)
        × (contents r' ≡ contents r ++ (if b then x ∷ [] else []))
        × IsValid r'
  unfolding try_push
  try_push_lem {r} x v =
      ground (arith, length-contents r, append-nil (contents r), cell-append r x v)

  -- A tail that was loaded earlier: the true tail has moved on towards the head since.
  pub record IsStale (r : RingBuffer A) (cached : ℕ) : Type 0 where
    pub cached_in : cached < size_mod
    pub behind : count r ≤ sub_size r.head cached
    pub cached_fits : sub_size r.head cached ≤ capacity

  -- With a stale tail the push may be refused for nothing, but an accepted item goes to the end of a
  -- queue that had room for it, and a refusal changes nothing.
  pub try_push_with_cached_tail_lem :
      {r : RingBuffer A} (x : A) (cached : ℕ)
      → IsValid r
      → IsStale r cached
      → let (b, r') = try_push_with_cached_tail r x cached in
        (b ≡ ltb (sub_size r.head cached) capacity)
        × (contents r' ≡ contents r ++ (if b then x ∷ [] else []))
        × IsValid r'
        × ((b && leb capacity (length (contents r))) ≡ false)
  unfolding try_push_with_cached_tail
  try_push_with_cached_tail_lem {r} x cached v s =
      ground (arith, length-contents r, append-nil (contents r), cell-append r x v)
