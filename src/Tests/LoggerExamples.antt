-- ===== src/Tests/LoggerExamples.antt =====
-- The logger on a short log.
use titan_lob.Prelude.{◌*◌, ◌≡◌, refl, false, List, [], ◌∷◌, ◌++◌, length, ℤ, pos, negsuc}
use titan_lob.Protocol.Output.{OutputMsg, make_cancelled}
use titan_lob.Logger
use titan_lob.Logger.{buffer_capacity, msg_size, log, trigger_flush}
use titan_lob.Logger.Turns.{Threads, Reaches}
use titan_lob.Logger.Unopened.{unopened_overflow}

abbrev first_msg : OutputMsg
first_msg = make_cancelled 0 7 (pos 3)

abbrev append_all : List OutputMsg → List OutputMsg → ℤ × List OutputMsg
append_all file msgs = (pos (length msgs * msg_size), file ++ msgs)

abbrev begun : Threads
begun = record { logger = Logger.new first_msg (pos 3); waiting = false; todo = []; logged = [] }

-- one message logged
abbrev one_logged : Threads
one_logged = record {
  logger = log begun.logger first_msg;
  waiting = Logger.is_full (log begun.logger first_msg).write_buffer;
  todo = [];
  logged = [] ++ (first_msg ∷ []);
}

unopened_overflow_example :
    (t : Threads) × Reaches first_msg append_all (negsuc 0) t
    × (t.waiting ≡ false)
    × (t.todo ≡ [])
    × (t.logger.write_buffer.count ≡ buffer_capacity)
unopened_overflow_example = unopened_overflow first_msg append_all (negsuc 0) refl
