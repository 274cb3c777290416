-- ===== src/Feed/Live.antt =====
-- The live feed of main.cpp: how much of its buffer is in use.
use titan_lob.Prelude.{
  ℕ, zero, suc, ◌+◌, ◌-◌, ◌≡◌, ◌≤◌, ◌<◌, ◌⊎◌, inl, inr, refl, true, ◌||◌, none, some, Option-cases,
  Bool-cases, List, length, get_or, copy, ltb, arith,
}
use titan_lob.Protocol.Messages.{header_size}
use titan_lob.Protocol.Wire.{Bytes, cast_header}
use titan_lob.Book.State.{Book}
use titan_lob.Feed.{
  dispatch_message, from_offset, LiveFeed, live_buffer_size, parse_buffer, receive_bytes,
}

-- What the loop does on its way from a start: the offsets that it stands at, with the book there.
module _ (match_fuel : ℕ) (buffer : Bytes) (buffer_used : ℕ) (first : Book) where
  -- the length that the header at an offset names
  abbrev pub length_at : ℕ → ℕ
  length_at offset = (cast_header (from_offset buffer offset) 0).length

  pub data Comes : ℕ → Book → Type 0 where
    at_front : Comes 0 first
    passes :
        (offset : ℕ) (b : Book)
        → Comes offset b
        → (ltb (length_at offset) header_size || ltb 256 (length_at offset)) ≡ true
        → Comes (offset + 1) b
    dispatches :
        (offset : ℕ) (b b' : Book)
        → Comes offset b
        → dispatch_message match_fuel b (from_offset buffer offset) (length_at offset) ≡ some b'
        → Comes (offset + length_at offset) b'

  -- The loop comes to a complete message whose call of the book does not return with its fuel.
  pub record Stalls : Type 0 where
    pub offset : ℕ
    pub book : Book
    pub comes : Comes offset book
    pub complete : offset + length_at offset ≤ buffer_used
    pub stuck :
        dispatch_message match_fuel book (from_offset buffer offset) (length_at offset) ≡ none

module _ (match_fuel : ℕ) (buffer : Bytes) (buffer_used : ℕ) (first : Book) where
  -- The loop ends within the bytes that are used, and what it leaves is less than the longest message.
  parse_buffer-returns :
      (fuel offset msg_count : ℕ) (b : Book)
      → offset ≤ buffer_used
      → buffer_used < offset + fuel
      → Comes match_fuel buffer buffer_used first offset b
      → Stalls match_fuel buffer buffer_used first
        ⊎ ((b' : Book) × (offset' : ℕ) × (count' : ℕ) × (parse_buffer fuel match_fuel buffer
                buffer_used offset msg_count b
              ≡ some (b', offset', count'))
            × (offset' ≤ buffer_used)
            × (buffer_used < offset' + 256))
  unfolding parse_buffer
  parse_buffer-returns zero offset msg_count b le short c = absurd (omega arith)
  parse_buffer-returns (suc fuel) offset msg_count b le enough c =
      let msg_len : ℕ = (cast_header (from_offset buffer offset) 0).length in
      elim (Bool-cases (ltb buffer_used (offset + header_size))) [
        | inl few ↦ inr (rw (parse_buffer, few) (b, offset, msg_count, refl, le, ground arith))
        | inr more ↦ elim (Bool-cases (ltb msg_len header_size || ltb 256 msg_len)) [
          | inl odd ↦
              rw (parse_buffer, more, odd)
                (parse_buffer-returns fuel (offset + 1) msg_count b (ground arith) (omega arith)
                  (Comes.passes offset b c odd))
          | inr proper ↦ elim (Bool-cases (ltb buffer_used (offset + msg_len))) [
            | inl part ↦ inr (
                rw (parse_buffer, more, proper, part)
                  (b, offset, msg_count, refl, le, ground arith))
            | inr whole ↦
                elim (Option-cases
                  (dispatch_message match_fuel b (from_offset buffer offset) msg_len)) [
                    | inl stuck ↦ inl (record {
                      offset = offset;
                      book = b;
                      comes = c;
                      complete = ground arith;
                      stuck = stuck;
                    })
                    | inr (b', e) ↦
                        rw (parse_buffer, more, proper, whole, e)
                          (parse_buffer-returns fuel (offset + msg_len) (suc msg_count) b'
                            (ground arith) (ground arith) (Comes.dispatches offset b b' c e))
                  ]
          ]
        ]
      ]

-- the buffer after `recv`
abbrev pub filled : LiveFeed → List ℕ → Bytes
filled s received = copy s.buffer s.buffer_used (λ i. get_or received i 0) 0 (length received)

-- From a buffer with fewer than 256 bytes in use, whatever `recv` gives fits, and after its messages are
-- dispatched fewer than 256 bytes are in use again, so that the next `recv` has room for more than 3840:
-- it never is a call for no bytes, whose result would read as the end of the connection. Otherwise the
-- loop comes to a complete message whose call of the book does not return with its fuel.
pub receive_bytes-Bounded :
    (match_fuel : ℕ) (s : LiveFeed) (received : List ℕ)
    → s.buffer_used < 256
    → length received ≤ live_buffer_size - s.buffer_used
    → Stalls match_fuel (filled s received) (s.buffer_used + length received) s.book
      ⊎ ((s' : LiveFeed) × (receive_bytes match_fuel s received ≡ some s')
          × (s.buffer_used + length received ≤ live_buffer_size)
          × (s'.buffer_used < 256)
          × (3840 < live_buffer_size - s'.buffer_used))
unfolding receive_bytes
receive_bytes-Bounded match_fuel s received small fits =
    let used : ℕ = s.buffer_used + length received in
    elim (parse_buffer-returns match_fuel (filled s received) used s.book (suc used) 0 s.msg_count
      s.book (omega arith) (omega arith) Comes.at_front) [
        | inl stuck ↦ inl stuck
        | inr (b', offset', count', e, le, less) ↦
            inr (rw (receive_bytes, e) (_, refl, omega arith, omega arith, omega arith))
      ]
