-- ===== src/Logger.antt =====
-- logger.h: the log of the book's messages. The thread that logs fills one buffer while the flush thread
-- writes the other to the file; `flush_pending_` says whose turn it is. `::write` is a parameter: from
-- what the file holds and the messages to write it gives the bytes that it returns and what the file
-- holds then. The two buffers are reached through the two pointers only, so that the state has a buffer
-- for each pointer and `std::swap` exchanges them.
pub mod Turns
pub mod Written
pub mod Unopened
use titan_lob.Prelude.{
  ℕ, ◌+◌, ◌-◌, ◌*◌, ◌%◌, ◌^◌, Bool, true, false, not, ◌&&◌, leb, ltb, ◌==◌, if◌then◌else◌, List, [],
  ◌∷◌, ◌++◌, ℤ, pos, negsuc, ltb_ℤ, leb_ℤ, update, copy, slice, length, take, drop, get_or,
}
use titan_lob.Protocol.Output.{OutputMsg}

-- `sizeof(OutputMsg)`: the tag with its padding, the timestamp, and the union.
abbrev pub msg_size : ℕ
msg_size = 64

abbrev pub buffer_capacity : ℕ
buffer_capacity = 65536

-- The reserved words, which are 0, are left out.
pub record FileHeader : Type 0 where
  pub magic : ℕ
  pub version : ℕ
  pub msg_size : ℕ
  pub timestamp_start : ℕ

abbrev pub create_header : FileHeader
create_header = record {
  magic = 0x574F4C46504545;
  version = 1;
  msg_size = msg_size;
  timestamp_start = 0;
}

abbrev pub is_valid : FileHeader → Bool
is_valid h = (h.magic == 0x574F4C46504545) && (h.version == 1) && (h.msg_size == msg_size)

pub record MessageBuffer : Type 0 where
  pub data_of : ℕ → OutputMsg
  pub count : ℕ

abbrev pub empty_buffer : OutputMsg → MessageBuffer
empty_buffer default = record { data_of = λ _. default; count = 0 }

abbrev pub reset : MessageBuffer → MessageBuffer
reset b = record b { count = 0 }

abbrev pub is_full : MessageBuffer → Bool
is_full b = leb buffer_capacity b.count

abbrev pub remaining : MessageBuffer → ℕ
remaining b = buffer_capacity - b.count

-- the messages of a buffer
abbrev pub contents : MessageBuffer → List OutputMsg
contents b = slice b.data_of 0 b.count

pub record BinaryLogger : Type 0 where
  pub write_buffer : MessageBuffer
  pub flush_buffer : MessageBuffer
  pub flush_pending : Bool
  pub running : Bool
  pub fd : ℤ
  pub file : List OutputMsg
  pub messages_logged : ℕ
  pub bytes_written : ℕ
  pub flushes_completed : ℕ

-- a `uint64_t` counter
abbrev pub add_count : ℕ → ℕ → ℕ
add_count n k = (n + k) % 2 ^ 64

-- The constructor, past the header: `fd` is what `::open` gives at last.
unfoldable pub new : OutputMsg → ℤ → BinaryLogger
new default fd = record {
  write_buffer = empty_buffer default;
  flush_buffer = empty_buffer default;
  flush_pending = false;
  running = true;
  fd = fd;
  file = [];
  messages_logged = 0;
  bytes_written = 0;
  flushes_completed = 0;
}

-- `log` up to the test for a full buffer.
unfoldable pub log : BinaryLogger → OutputMsg → BinaryLogger
unfolding update
log l msg = record l {
  write_buffer = record (l.write_buffer) {
    data_of = update l.write_buffer.data_of l.write_buffer.count msg;
    count = l.write_buffer.count + 1;
  };
  messages_logged = add_count l.messages_logged 1;
}

-- One round of `log_batch` up to the same test, and the messages that are left.
unfoldable pub log_batch_round :
    OutputMsg → BinaryLogger → List OutputMsg → BinaryLogger × List OutputMsg
unfolding copy
log_batch_round default l msgs =
    let space : ℕ = remaining l.write_buffer in
    let to_copy : ℕ = if ltb (length msgs) space then length msgs else space in
    (
      record l {
        write_buffer = record (l.write_buffer) {
          data_of =
              copy l.write_buffer.data_of l.write_buffer.count (λ i. get_or msgs i default) 0
                to_copy;
          count = l.write_buffer.count + to_copy;
        };
        messages_logged = add_count l.messages_logged to_copy;
      },
      drop to_copy msgs,
    )

-- `trigger_flush` once `flush_pending_` is false.
unfoldable pub trigger_flush : BinaryLogger → BinaryLogger
trigger_flush l = record l {
  write_buffer = l.flush_buffer;
  flush_buffer = l.write_buffer;
  flush_pending = true;
}

module _ (write : List OutputMsg → List OutputMsg → ℤ × List OutputMsg) where
  -- A round of the flush thread once `flush_pending_` is true.
  unfoldable pub flush_round : BinaryLogger → BinaryLogger
  flush_round l =
      let (written, file) = write l.file (contents l.flush_buffer) in
      let flushed : BinaryLogger =
        if ltb 0 l.flush_buffer.count && leb_ℤ (pos 0) l.fd
        then record l {
          file = file;
          bytes_written =
              if ltb_ℤ (pos 0) written
              then add_count l.bytes_written (elim written [ pos n ↦ n | negsuc _ ↦ 0 ])
              else l.bytes_written;
          flush_buffer = reset l.flush_buffer;
          flushes_completed = add_count l.flushes_completed 1;
        }
        else l in
      record flushed { flush_pending = false }

  -- `flush_sync` once `flush_pending_` is false.
  unfoldable pub flush_sync : BinaryLogger → BinaryLogger
  flush_sync l =
      let bytes : ℕ = l.write_buffer.count * msg_size in
      let (_, file) = write l.file (contents l.write_buffer) in
      if l.write_buffer.count == 0
      then l
      else record (if leb_ℤ (pos 0) l.fd
          then record l { file = file; bytes_written = add_count l.bytes_written bytes }
          else l) { write_buffer = reset l.write_buffer }

  -- What the flush thread does when `running_` is false: the loop ends, and what is left is written.
  unfoldable pub flush_last : BinaryLogger → BinaryLogger
  flush_last l =
      let bytes : ℕ = l.flush_buffer.count * msg_size in
      let (_, file) = write l.file (contents l.flush_buffer) in
      if ltb 0 l.flush_buffer.count && leb_ℤ (pos 0) l.fd
      then record l { file = file; bytes_written = add_count l.bytes_written bytes }
      else l

  -- The destructor, when the flush thread is at rest: the flush of what was logged, the end of the thread.
  unfoldable pub close : BinaryLogger → BinaryLogger
  unfolding flush_sync flush_last
  close l =
      let l' : BinaryLogger = if ltb 0 l.write_buffer.count then flush_sync l else l in
      flush_last (record l' { running = false; flush_pending = true })

-- `BinaryLogReader` on the bytes of the file past the header, as whole messages, so that a last message
-- that was cut off is not modelled: where the reader stands, and what it counts.
pub record BinaryLogReader : Type 0 where
  pub fd : ℤ
  pub rest : List OutputMsg
  pub messages_read : ℕ

unfoldable pub read : BinaryLogReader → OutputMsg → Bool × OutputMsg × BinaryLogReader
read r msg = if ltb_ℤ r.fd (pos 0) then (false, msg, r) else elim r.rest [
  | [] ↦ (false, msg, r)
  | next ∷ rest ↦
      (true, next, record r { rest = rest; messages_read = add_count r.messages_read 1 })
]

-- A read gives as many messages as there are, at most `max_count`.
unfoldable pub read_batch : BinaryLogReader → (max_count : ℕ) → ℕ × List OutputMsg × BinaryLogReader
read_batch r max_count =
    if ltb_ℤ r.fd (pos 0)
    then (0, [], r)
    else (let msgs : List OutputMsg = take max_count r.rest in
        (
          length msgs,
          msgs,
          record r {
            rest = drop max_count r.rest;
            messages_read = add_count r.messages_read (length msgs);
          },
        ))
