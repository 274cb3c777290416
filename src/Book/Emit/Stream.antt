-- ===== src/Book/Emit/Stream.antt =====
-- The messages on their way out: those in the ring, then those of the batch.
use titan_lob.Prelude.{
  ℕ, ◌+◌, ◌%◌, ◌^◌, ◌≤◌, ◌<◌, ◌≡◌, refl, sym, ap, ◌∙◌, true, false, ltb, leb, List, [], ◌∷◌, ◌++◌,
  arith, update, update_lem, length, slice, slice-append, slice_ext,
}
use mathlib.Core.List.{append_assoc, append-nil}
use mathlib.Core.Path.{ap₂}
use native.Mathlib.Decide.{dec_lt}
use titan_lob.Ring
use titan_lob.Ring.{capacity, RingBuffer}
use titan_lob.Ring.Contents.{IsValid, contents}
use titan_lob.Ring.Push.{push_batch_lem}
use titan_lob.Protocol.Output.{OutputMsg}
use titan_lob.Book.State.{Emitter, batch_size}
use titan_lob.Book.Emit.{flush_batch, put_message}

-- between two calls the batch is never full
pub record IsReady (e : Emitter) : Type 0 where
  pub ring : IsValid e.output_buffer
  pub batch : e.batch_count < batch_size

-- oldest first
abbrev pub stream : Emitter → List OutputMsg
stream e = contents e.output_buffer ++ slice e.batch_buffer 0 e.batch_count

-- The emitter holds these messages, and has dropped no more.
pub record Holds (e' : Emitter) (messages : List OutputMsg) (dropped : ℕ) : Type 0 where
  pub ready : IsReady e'
  pub order : stream e' ≡ messages
  pub none_lost : e'.messages_dropped ≡ dropped

-- A flush with room in the ring for the whole batch moves the batch behind what the ring holds, in order,
-- leaves the batch empty enough for the next message, and drops nothing.
pub flush_batch-Holds :
    (e : Emitter)
    → IsValid e.output_buffer
    → length (contents e.output_buffer) + e.batch_count ≤ capacity
    → Holds (flush_batch e) (stream e) e.messages_dropped
unfolding flush_batch
flush_batch-Holds e valid room = elim (dec_lt 0 e.batch_count) [
  | yes some_left ↦
      let (m, r) = Ring.push_batch e.output_buffer e.batch_buffer e.batch_count in
      let p = push_batch_lem e.batch_buffer e.batch_count valid in
      let all : m ≡ e.batch_count = omega (arith, p.0) in
      let first : ltb 0 e.batch_count ≡ true = ground arith in
      let none_dropped : ltb m e.batch_count ≡ false = ground arith in
      rw (first, none_dropped)
        (record {
          ready = record { ring = p.2; batch = omega arith };
          order =
              append-nil (contents r)
              ∙ p.1
              ∙ ap (λ k. contents e.output_buffer ++ slice e.batch_buffer 0 k) all;
          none_lost = refl;
        })
  | no gone ↦
      let first : ltb 0 e.batch_count ≡ false = ground arith in
      rw first (record {
        ready = record { ring = valid; batch = omega arith };
        order = refl;
        none_lost = refl;
      })
]

-- a message in the next cell of the batch
batch-append :
    (batch : ℕ → OutputMsg) (n : ℕ) (msg : OutputMsg)
    → slice (update batch n msg) 0 (n + 1) ≡ slice batch 0 n ++ msg ∷ []
batch-append batch n msg =
    slice-append (update batch n msg) 0 n 1
    ∙ ap₂ ◌++◌
        (slice_ext (update batch n msg) batch 0 0 n
          (λ j h. update_lem batch n msg (0 + j) ∙ ground arith))
        (ap (λ x. x ∷ []) (update_lem batch n msg (0 + n) ∙ ground arith))

-- A message that the book puts out goes behind all those before it and none is dropped, while the ring
-- has room for the batch and the message; a batch that it fills goes to the ring.
pub put_message-Holds :
    (e : Emitter) (msg : OutputMsg)
    → IsReady e
    → length (contents e.output_buffer) + e.batch_count < capacity
    → Holds (put_message e msg) (stream e ++ msg ∷ []) e.messages_dropped
unfolding put_message
put_message-Holds e msg is room = elim (dec_lt (e.batch_count + 1) batch_size) [
  | yes more ↦
      let count : (e.batch_count + 1) % 2 ^ 8 ≡ e.batch_count + 1 = omega arith in
      let open_batch : leb batch_size (e.batch_count + 1) ≡ false = ground arith in
      rw (count, open_batch)
        (record {
          ready = record { ring = is.ring; batch = more };
          order = behind;
          none_lost = refl;
        })
  | no full ↦
      let count : (e.batch_count + 1) % 2 ^ 8 ≡ e.batch_count + 1 = omega (arith, is.batch) in
      let full_batch : leb batch_size (e.batch_count + 1) ≡ true = ground arith in
      let h =
        flush_batch-Holds
          (record e {
            batch_buffer = update e.batch_buffer e.batch_count msg;
            batch_count = e.batch_count + 1;
          })
          is.ring (omega arith) in
      rw (count, full_batch)
        (record { ready = h.ready; order = h.order ∙ behind; none_lost = h.none_lost })
]
  where
    behind :
        contents e.output_buffer
          ++ slice (update e.batch_buffer e.batch_count msg) 0 (e.batch_count + 1)
        ≡ stream e ++ msg ∷ []
    behind =
        ap (λ t. contents e.output_buffer ++ t) (batch-append e.batch_buffer e.batch_count msg)
        ∙ sym (
            append_assoc (contents e.output_buffer) (slice e.batch_buffer 0 e.batch_count)
              (msg ∷ []))
