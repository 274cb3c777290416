-- ===== src/Tests/EmitExamples.antt =====
-- The emission of messages at concrete inputs.
use titan_lob.Prelude.{◌++◌, [], ◌∷◌, arith, true, pos}
use titan_lob.Protocol.Output.{make_cancelled, make_trade}
use titan_lob.Book.State.{Emitter}
use titan_lob.Book.Emit.{put_message}
use titan_lob.Book.Emit.Stream.{IsReady, stream, Holds, put_message-Holds}

-- A batch with one cell left.
abbrev nearly_full : Emitter
nearly_full = record {
  output_buffer = record { buffer = λ _. make_cancelled 0 0 (pos 0); head = 0; tail = 0 };
  use_ring_buffer = true;
  emit_accepts = true;
  emit_cancels = true;
  batch_buffer = λ i. make_cancelled 0 i (pos 1);
  batch_count = 63;
  current_timestamp = 0;
  messages_processed = 0;
  trades_executed = 0;
  messages_dropped = 0;
}

nearly_full-IsReady : IsReady nearly_full
nearly_full-IsReady = record {
  ring = record { head_in = omega arith; tail_in = omega arith; fits = omega arith };
  batch = omega arith;
}

put_message_example :
    Holds
      (put_message nearly_full (make_trade 0 1 2 (pos 100) (pos 5)))
      (stream nearly_full ++ make_trade 0 1 2 (pos 100) (pos 5) ∷ [])
      0
put_message_example =
    put_message-Holds nearly_full (make_trade 0 1 2 (pos 100) (pos 5)) nearly_full-IsReady
      (omega arith)
