-- ===== src/Book/Emit.antt =====
-- order_book.h, what the book emits: messages collect in a batch, and a full batch goes to the ring.
pub mod Stream
use titan_lob.Prelude.{ℕ, ◌+◌, ◌-◌, ◌%◌, ◌^◌, not, ltb, leb, if◌then◌else◌, ℤ, update}
use titan_lob.Ring
use titan_lob.Protocol.Output.{OutputMsg, make_trade, make_accepted, make_cancelled}
use titan_lob.Book.State.{Emitter, batch_size}

abbrev pub count_64 : ℕ → ℕ → ℕ
count_64 n k = (n + k) % 2 ^ 64

unfoldable pub flush_batch : Emitter → Emitter
flush_batch e =
    if ltb 0 e.batch_count
    then (let (pushed, ring) = Ring.push_batch e.output_buffer e.batch_buffer e.batch_count in
        record e {
          output_buffer = ring;
          messages_dropped =
              if ltb pushed e.batch_count
              then count_64 e.messages_dropped (e.batch_count - pushed)
              else e.messages_dropped;
          batch_count = 0;
        })
    else e

-- `batch_buffer_[batch_count_++] = msg`, and the flush of a full batch.
unfoldable pub put_message : Emitter → OutputMsg → Emitter
unfolding flush_batch update
put_message e msg =
    let e' : Emitter = record e {
      batch_buffer = update e.batch_buffer e.batch_count msg;
      batch_count = (e.batch_count + 1) % 2 ^ 8;
    } in
    if leb batch_size e'.batch_count then flush_batch e' else e'

unfoldable pub emit_trade : Emitter → (buy_id sell_id : ℕ) → (price qty : ℤ) → Emitter
emit_trade e buy_id sell_id price qty =
    let e' : Emitter = record e { trades_executed = count_64 e.trades_executed 1 } in
    if e.use_ring_buffer
    then put_message e' (make_trade e.current_timestamp buy_id sell_id price qty)
    else e'

unfoldable pub emit_order_accepted : Emitter → (order_id side : ℕ) → (price qty : ℤ) → Emitter
emit_order_accepted e order_id side price qty =
    if not e.emit_accepts
    then e
    else if e.use_ring_buffer
    then put_message e (make_accepted e.current_timestamp order_id side price qty)
    else e

unfoldable pub emit_order_cancelled : Emitter → ℕ → ℤ → Emitter
emit_order_cancelled e order_id cancelled_qty =
    if not e.emit_cancels
    then e
    else if e.use_ring_buffer
    then put_message e (make_cancelled e.current_timestamp order_id cancelled_qty)
    else e
