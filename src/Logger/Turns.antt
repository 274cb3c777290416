-- ===== src/Logger/Turns.antt =====
-- logger.h: the thread that logs and the flush thread, step by step. A step of the flush thread is a whole
-- round of it: it reaches no more than the flush buffer, which the other thread leaves alone while
-- `flush_pending_` is true. `waiting` says that the first thread stands in the loop of `trigger_flush`;
-- `todo` is what `log_batch` has still to copy, and `logged` is what was copied to the buffers so far.
use titan_lob.Prelude.{
  ◌*◌, ◌≡◌, ◌≤◌, ◌<◌, List, [], ◌∷◌, ◌++◌, length, take, Bool, true, false, ℤ, pos,
}
use titan_lob.Protocol.Output.{OutputMsg}
use titan_lob.Logger.{
  BinaryLogger, buffer_capacity, msg_size, is_full, contents, new, log, log_batch_round,
  trigger_flush, flush_round,
}
use titan_lob.Logger.Written.{copied}

pub record Threads : Type 0 where
  pub logger : BinaryLogger
  pub waiting : Bool
  pub todo : List OutputMsg
  pub logged : List OutputMsg

-- after a copy: a full buffer calls `trigger_flush`
abbrev after : BinaryLogger → (todo logged : List OutputMsg) → Threads
after l todo logged = record {
  logger = l;
  waiting = is_full l.write_buffer;
  todo = todo;
  logged = logged;
}

-- What `::write` does on a file that takes everything: it gives the bytes that it was given.
abbrev pub WritesAll : (List OutputMsg → List OutputMsg → ℤ × List OutputMsg) → Type 0
WritesAll write =
    (file msgs : List OutputMsg) → write file msgs ≡ (pos (length msgs * msg_size), file ++ msgs)

module _ (default : OutputMsg) (write : List OutputMsg → List OutputMsg → ℤ × List OutputMsg) where
  pub data Turn : Threads → Threads → Type 0 where
    logs :
        (t : Threads) (msg : OutputMsg)
        → t.waiting ≡ false
        → t.todo ≡ []
        → Turn t (after (log t.logger msg) [] (t.logged ++ (msg ∷ [])))
    begins :
        (t : Threads) (msgs : List OutputMsg)
        → t.waiting ≡ false
        → t.todo ≡ []
        → Turn t (record t { todo = msgs })
    copies :
        (t : Threads)
        → t.waiting ≡ false
        → Turn t (
            after
              (log_batch_round default t.logger t.todo).0
              (log_batch_round default t.logger t.todo).1
              (t.logged ++ take (copied t.logger t.todo) t.todo))
    swaps :
        (t : Threads)
        → t.waiting ≡ true
        → t.logger.flush_pending ≡ false
        → Turn t (record t { logger = trigger_flush t.logger; waiting = false })
    flushes :
        (t : Threads)
        → t.logger.flush_pending ≡ true
        → Turn t (record t { logger = flush_round write t.logger })

  pub data Reaches (fd : ℤ) : Threads → Type 0 where
    start : Reaches fd (record { logger = new default fd; waiting = false; todo = []; logged = [] })
    turn : (t t' : Threads) → Reaches fd t → Turn t t' → Reaches fd t'

  -- The file, the buffer that is being flushed and the buffer that is being filled hold what was logged, in
  -- order; a buffer that is at rest is empty; the buffer that is being filled has room unless the thread
  -- waits.
  pub record InTurn (fd : ℤ) (t : Threads) : Type 0 where
    pub kept :
        t.logger.file ++ (contents t.logger.flush_buffer ++ contents t.logger.write_buffer)
        ≡ t.logged
    pub rests : t.logger.flush_pending ≡ false → t.logger.flush_buffer.count ≡ 0
    pub bounded : t.logger.write_buffer.count ≤ buffer_capacity
    pub room : t.waiting ≡ false → t.logger.write_buffer.count < buffer_capacity
    pub same_file : t.logger.fd ≡ fd
