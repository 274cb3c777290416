-- ===== src/Ring/Pop.antt =====
-- What the consumer's operations do to the queue.
use Prim.Native.Nat.{min}
use titan_lob.Prelude.{
  ℕ, ◌+◌, ◌-◌, ◌≤◌, ◌<◌, ◌≡◌, ap, ◌∙◌, Option, none, some, List, [], ◌∷◌, ◌++◌, arith, slice,
  length, slice-append, slice_ext,
}
use titan_lob.Ring.{size, mask, add_size, sub_size, RingBuffer, read_chunks, try_pop, pop_batch}
use titan_lob.Ring.Contents.{count, IsValid, contents, length-contents}

module _ {A : Type 0} where
  read_chunks_lem :
      (out buffer : ℕ → A) (tail m j : ℕ)
      → m < size
      → j < m
      → read_chunks out buffer (mask tail) m j ≡ buffer (mask (tail + j))
  unfolding read_chunks
  read_chunks_lem out buffer tail m j room h = ground arith

  read_chunks_rest :
      (out buffer : ℕ → A) (tail m j : ℕ)
      → m < size
      → m ≤ j
      → read_chunks out buffer (mask tail) m j ≡ out j
  unfolding read_chunks
  read_chunks_rest out buffer tail m j room h = ground arith

  -- After `m` elements are taken off, the queue is their list and what is left.
  split_off :
      (r : RingBuffer A) (m : ℕ)
      → IsValid r
      → m ≤ count r
      → (contents r
          ≡ slice (λ i. r.buffer (mask i)) r.tail m
            ++ contents (record r { tail = add_size r.tail m }))
        × IsValid (record r { tail = add_size r.tail m })
  split_off r m v le = (
    ap (slice cell r.tail) whole
        ∙ slice-append cell r.tail m (count r - m)
        ∙ ap (λ t. slice cell r.tail m ++ t)
            (slice_ext cell cell (r.tail + m) (add_size r.tail m) (count r - m) wrap
              ∙ ap (slice cell (add_size r.tail m)) left),
    record { head_in = v.head_in; tail_in = omega arith; fits = omega arith },
  )
    where
      cell : ℕ → A
      cell i = r.buffer (mask i)

      whole : count r ≡ m + (count r - m)
      whole = omega arith

      left : count r - m ≡ sub_size r.head (add_size r.tail m)
      left = omega arith

      wrap : (j : ℕ) → j < count r - m → cell (r.tail + m + j) ≡ cell (add_size r.tail m + j)
      wrap j h = ap r.buffer (omega arith)

  -- What is known when `m` elements of `r` have been read into `out`, giving `out'` and `r'`.
  pub record Popped (r : RingBuffer A) (out : ℕ → A) (m : ℕ) (out' : ℕ → A) (r' : RingBuffer A)
      : Type 0 where
    pub queue : contents r ≡ slice out' 0 m ++ contents r'
    pub rest : (j : ℕ) → m ≤ j → out' j ≡ out j
    pub valid : IsValid r'

  read_chunks-Popped :
      (r : RingBuffer A) (out : ℕ → A) (m : ℕ)
      → IsValid r
      → m ≤ count r
      → Popped r out m
          (read_chunks out r.buffer (mask r.tail) m)
          (record r { tail = add_size r.tail m })
  read_chunks-Popped r out m v le = record {
    queue =
        (split_off r m v le).0
        ∙ ap (λ t. t ++ contents (record r { tail = add_size r.tail m }))
            (slice_ext (λ i. r.buffer (mask i)) (read_chunks out r.buffer (mask r.tail) m) r.tail 0
              m same);
    rest = λ j h. read_chunks_rest out r.buffer r.tail m j (omega arith) h;
    valid = (split_off r m v le).1;
  }
    where
      same :
          (j : ℕ)
          → j < m
          → r.buffer (mask (r.tail + j)) ≡ read_chunks out r.buffer (mask r.tail) m (0 + j)
      same j h =
          let start : 0 + j ≡ j = omega arith in
          rw (start, read_chunks_lem out r.buffer r.tail m j (omega arith) h)

  -- `pop_batch` takes as many elements as there are and as are asked for, oldest first: it returns
  -- their number, writes exactly them at the start of `out`, and leaves the rest of a valid ring's
  -- queue and the rest of `out`.
  pub pop_batch_lem :
      {r : RingBuffer A} (out : ℕ → A) (n : ℕ)
      → IsValid r
      → let (m, out', r') = pop_batch r out n in
        (m ≡ min n (length (contents r))) × Popped r out m out' r'
  unfolding pop_batch
  pop_batch_lem {r} out n v =
      ground (
        arith,
        length-contents r,
        read_chunks-Popped r out n v,
        read_chunks-Popped r out (count r) v,
      )

  -- the queue's own removal
  abbrev pub pop_front : List A → Option A × List A
  pop_front [] = (none, [])
  pop_front (x ∷ xs) = (some x, xs)

  -- `try_pop` takes the oldest element of a valid ring off, fails on an empty one and then changes
  -- nothing, and keeps the ring valid.
  pub try_pop_lem :
      {r : RingBuffer A}
      → IsValid r
      → let (o, r') = try_pop r in ((o, contents r') ≡ pop_front (contents r)) × IsValid r'
  unfolding try_pop
  try_pop_lem {r} v = ground (arith, length-contents r, split_off r 1 v)
