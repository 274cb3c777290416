-- ===== src/Feed.antt =====
-- main.cpp: the dispatch of a message from the bridge or from a recorded file, the loop that replays a
-- file, and the loop of the live feed past its `recv`. `running` is read once in each round of the
-- replay: `running r` is its value when `r` rounds are left. The snapshots that the loops broadcast now
-- and then do not change the book and are left out, and so is the time.
pub mod Dispatch
pub mod Replay
pub mod Live
pub mod Parse
pub mod Pieces
pub mod Agreement
use titan_lob.Prelude.{
  ℕ, zero, suc, ◌+◌, ◌-◌, List, [], ◌∷◌, length, get_or, copy, Bool, true, false, not, ◌&&◌, ◌||◌,
  Option, none, some, ◌==◌, ltb, if◌then◌else◌,
}
use titan_lob.Protocol.MsgType
use titan_lob.Protocol.Side
use titan_lob.Protocol.Messages.{MsgAddOrder, MsgCancel, MsgModify, header_size}
use titan_lob.Protocol.Wire.{Bytes, cast_header, cast_add_order, cast_cancel, cast_modify}
use titan_lob.Book.State.{Book}
use titan_lob.Book.Api.{add_order, cancel_order, add_order_no_lock, cancel_order_no_lock}
use titan_lob.Gateway.{to_uint32}

unfoldable pub dispatch_message : (fuel : ℕ) → Book → Bytes → (len : ℕ) → Option Book
dispatch_message fuel b buffer len =
    let type : ℕ = (cast_header buffer 0).type in
    let add : MsgAddOrder = cast_add_order buffer 0 in
    let cancel : MsgCancel = cast_cancel buffer 0 in
    let modify : MsgModify = cast_modify buffer 0 in
    if ltb len header_size
    then some b
    else if type == MsgType.add_order
    then (if ltb len 44
        then some b
        else add_order fuel b add.order_id (add.side == Side.buy) add.price add.quantity
            (to_uint32 add.user_id))
    else if type == MsgType.cancel_order
    then (if ltb len 19 then some b else some (cancel_order b cancel.order_id))
    else if type == MsgType.modify_order
    then (if ltb len 35 then some b else some (cancel_order b modify.order_id))
    else some b

unfoldable pub dispatch_message_no_lock : (fuel : ℕ) → Book → Bytes → (len : ℕ) → Option Book
dispatch_message_no_lock fuel b buffer len =
    let type : ℕ = (cast_header buffer 0).type in
    let add : MsgAddOrder = cast_add_order buffer 0 in
    let cancel : MsgCancel = cast_cancel buffer 0 in
    if ltb len header_size
    then some b
    else if type == MsgType.add_order
    then (if ltb len 44
        then some b
        else add_order_no_lock fuel b add.order_id (add.side == Side.buy) add.price add.quantity
            (to_uint32 add.user_id))
    else if type == MsgType.cancel_order
    then (if ltb len 19 then some b else some (cancel_order_no_lock b cancel.order_id))
    else some b

-- `data.data() + offset`
abbrev pub from_offset : Bytes → ℕ → Bytes
from_offset buffer offset i = buffer (offset + i)

-- The loop over a file of `size` bytes: the book and `msg_count` at its end.
unfoldable pub replay :
    (fuel match_fuel : ℕ) (running : ℕ → Bool)
    → Bytes
    → (size offset msg_count : ℕ) → Book
    → Option (Book × ℕ)
replay zero match_fuel running file size offset msg_count b = none
replay (suc fuel) match_fuel running file size offset msg_count b =
    let msg_len : ℕ = (cast_header (from_offset file offset) 0).length in
    elim (not (ltb offset size && running fuel)
      || (ltb size (offset + header_size) || (msg_len == 0 || ltb size (offset + msg_len)))) [
        | true ↦ some (b, msg_count)
        | false ↦ elim (dispatch_message_no_lock match_fuel b (from_offset file offset) msg_len) [
          | none ↦ none
          | some b' ↦ replay fuel match_fuel running file size (offset + msg_len) (suc msg_count) b'
        ]
      ]

-- The live feed: its buffer of 4096 bytes, how much of it is used, and what it has done so far.
abbrev pub live_buffer_size : ℕ
live_buffer_size = 4096

pub record LiveFeed : Type 0 where
  pub book : Book
  pub buffer : Bytes
  pub buffer_used : ℕ
  pub msg_count : ℕ

-- `while (offset + sizeof(MsgHeader) <= buffer_used)`: where it stops, with the book and `msg_count`. A
-- length that no message has is passed over byte by byte.
unfoldable pub parse_buffer :
    (fuel match_fuel : ℕ)
    → Bytes
    → (buffer_used offset msg_count : ℕ) → Book
    → Option (Book × ℕ × ℕ)
parse_buffer zero match_fuel buffer buffer_used offset msg_count b = none
parse_buffer (suc fuel) match_fuel buffer buffer_used offset msg_count b =
    let msg_len : ℕ = (cast_header (from_offset buffer offset) 0).length in
    elim (ltb buffer_used (offset + header_size)) [
      | true ↦ some (b, offset, msg_count)
      | false ↦ elim (ltb msg_len header_size || ltb 256 msg_len) [
        | true ↦ parse_buffer fuel match_fuel buffer buffer_used (offset + 1) msg_count b
        | false ↦ elim (ltb buffer_used (offset + msg_len)) [
          | true ↦ some (b, offset, msg_count)
          | false ↦ elim (dispatch_message match_fuel b (from_offset buffer offset) msg_len) [
            | none ↦ none
            | some b' ↦
                parse_buffer fuel match_fuel buffer buffer_used (offset + msg_len) (suc msg_count)
                  b'
          ]
        ]
      ]
    ]

-- What follows a `recv` that gave `received`, at most what the buffer has room for: the messages that are
-- complete are dispatched, and `memmove` puts the rest at the front. The loop is given fuel for a round
-- for each byte.
unfoldable pub receive_bytes : (match_fuel : ℕ) → LiveFeed → (received : List ℕ) → Option LiveFeed
unfolding parse_buffer copy
receive_bytes match_fuel s received =
    let used : ℕ = s.buffer_used + length received in
    let buffer : Bytes =
      copy s.buffer s.buffer_used (λ i. get_or received i 0) 0 (length received) in
    elim (parse_buffer (suc used) match_fuel buffer used 0 s.msg_count s.book) [
      | none ↦ none
      | some (b, offset, msg_count) ↦ some (record {
        book = b;
        buffer = if ltb 0 offset then copy buffer 0 buffer offset (used - offset) else buffer;
        buffer_used = used - offset;
        msg_count = msg_count;
      })
    ]

-- What `recv` gives the live loop: bytes, nothing so far, or the end of the connection or an error.
pub data Received : Type 0 where
  some_bytes : List ℕ → Received
  not_yet : Received
  ended : Received

-- The live loop, one round for each call of `recv`; where the list ends, `running` is false.
unfoldable pub live_loop : (match_fuel : ℕ) → List Received → LiveFeed → Option LiveFeed
live_loop match_fuel [] s = some s
live_loop match_fuel (some_bytes received ∷ rs) s = elim (receive_bytes match_fuel s received) [
  | none ↦ none
  | some s' ↦ live_loop match_fuel rs s'
]
live_loop match_fuel (not_yet ∷ rs) s = live_loop match_fuel rs s
live_loop match_fuel (ended ∷ rs) s = some s
