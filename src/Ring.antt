-- ===== src/Ring.antt =====
-- ring_buffer.h: the ring buffer between one producer and one consumer, at the size that
-- order_book.h gives it (`OUTPUT_BUFFER_SIZE`). `head` and `tail` are the two atomic counters; they
-- run on for ever, modulo 2^64, and `& mask` takes them to an index.
pub mod Contents
pub mod Push
pub mod Pop
use titan_lob.Prelude.{
  ℕ, zero, suc, ◌+◌, ◌-◌, ◌%◌, ◌^◌, Bool, true, false, ◌&&◌, Option, none, some, List, ◌==◌, ltb,
  if◌then◌else◌, update, copy, slice,
}

-- The template parameter `Size`, a power of two. `x & mask` is `x % size`.
abbrev pub size : ℕ
size = 2 ^ 20

abbrev pub size_mod : ℕ
size_mod = 2 ^ 64

abbrev pub mask : ℕ → ℕ
mask x = x % size

-- `size_t` addition and subtraction wrap.
abbrev pub add_size : (counter n : ℕ) → ℕ
add_size counter n = (counter + n) % size_mod

abbrev pub sub_size : ℕ → ℕ → ℕ
sub_size a b = (a + size_mod - b) % size_mod

pub record RingBuffer {ℓ} (A : Type ℓ) : Type ℓ where
  pub buffer : ℕ → A
  pub head : ℕ
  pub tail : ℕ

module _ {ℓ} {A : Type ℓ} where
  -- `RingBuffer() = default`: the cells are default values, the counters 0.
  unfoldable pub new : A → RingBuffer A
  new default = record { buffer = λ _. default; head = 0; tail = 0 }

  -- The write of `to_write` cells of a batch from index `write_idx` on, in one chunk or in two.
  unfoldable pub write_chunks : (ℕ → A) → ℕ → (ℕ → A) → ℕ → ℕ → A
  unfolding copy
  write_chunks buffer write_idx batch_data to_write =
      let first_chunk = size - write_idx in
      if ltb first_chunk to_write
      then copy (copy buffer write_idx batch_data 0 first_chunk) 0 batch_data first_chunk
          (to_write - first_chunk)
      else copy buffer write_idx batch_data 0 to_write

  -- What `push_batch` does when it has loaded `current_tail`.
  unfoldable pub push_batch_at : RingBuffer A → (current_tail : ℕ) → (ℕ → A) → ℕ → ℕ × RingBuffer A
  unfolding write_chunks
  push_batch_at r current_tail batch_data count =
      let used = mask (sub_size r.head current_tail) in
      let available = size - 1 - used in
      let to_write = if ltb count available then count else available in
      if to_write == 0 then (0, r) else (
        to_write,
        record r {
          buffer = write_chunks r.buffer (mask r.head) batch_data to_write;
          head = add_size r.head to_write;
        },
      )

  unfoldable pub push_batch : RingBuffer A → (ℕ → A) → ℕ → ℕ × RingBuffer A
  unfolding push_batch_at
  push_batch r batch_data count =
      if count == 0 then (0, r) else push_batch_at r r.tail batch_data count

  unfoldable pub try_push_with_cached_tail : RingBuffer A → A → ℕ → Bool × RingBuffer A
  unfolding update
  try_push_with_cached_tail r item cached_tail =
      if mask (add_size r.head 1) == mask cached_tail then (false, r) else (
        true,
        record r { buffer = update r.buffer (mask r.head) item; head = add_size r.head 1 },
      )

  unfoldable pub try_push : RingBuffer A → A → Bool × RingBuffer A
  unfolding update
  try_push r item = if mask (add_size r.head 1) == mask r.tail then (false, r) else (
    true,
    record r { buffer = update r.buffer (mask r.head) item; head = add_size r.head 1 },
  )

  -- `none` where `try_pop` returns false and leaves `item` alone.
  unfoldable pub try_pop : RingBuffer A → Option A × RingBuffer A
  try_pop r =
      if mask r.tail == mask r.head && r.tail == r.head
      then (none, r)
      else (some (r.buffer (mask r.tail)), record r { tail = add_size r.tail 1 })

  -- The read of `to_read` cells from index `read_idx` on into `out`, in one chunk or in two.
  unfoldable pub read_chunks : (ℕ → A) → (ℕ → A) → ℕ → ℕ → ℕ → A
  unfolding copy
  read_chunks out buffer read_idx to_read =
      let first_chunk = size - read_idx in
      if ltb first_chunk to_read
      then copy (copy out 0 buffer read_idx first_chunk) first_chunk buffer 0
          (to_read - first_chunk)
      else copy out 0 buffer read_idx to_read

  -- The number read, the caller's array and the ring after `pop_batch`.
  unfoldable pub pop_batch : RingBuffer A → (ℕ → A) → ℕ → ℕ × (ℕ → A) × RingBuffer A
  unfolding read_chunks
  pop_batch r out max_count =
      let available = sub_size r.head r.tail in
      let to_read = if ltb max_count available then max_count else available in
      if to_read == 0 then (0, out, r) else (
        to_read,
        read_chunks out r.buffer (mask r.tail) to_read,
        record r { tail = add_size r.tail to_read },
      )

  unfoldable pub empty : RingBuffer A → Bool
  empty r = r.head == r.tail

  unfoldable pub full : RingBuffer A → Bool
  full r = mask (add_size r.head 1) == mask r.tail

  unfoldable pub size_approx : RingBuffer A → ℕ
  size_approx r = sub_size r.head r.tail

abbrev pub capacity : ℕ
capacity = size - 1
