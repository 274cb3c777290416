-- ===== src/Gateway.antt =====
-- gateway.h, `TcpGateway`: the loop that receives the messages of a client and hands them to the order
-- book. The socket and `recv` are parameters: `recv s n` gives the bytes that a call for at most `n`
-- bytes delivers, none where it returns 0 or an error. The text on cerr and cout is left out.
pub mod Receive
pub mod Dispatch
pub mod Session
use titan_lob.Prelude.{
  ℕ, zero, suc, ◌+◌, ◌-◌, ◌%◌, ◌^◌, Bool, true, false, ◌||◌, not, Option, none, some, List, ◌==◌,
  ltb, if◌then◌else◌, copy, length, get_or,
}
use titan_lob.Protocol.{side_to_bool}
use titan_lob.Protocol.MsgType
use titan_lob.Protocol.Messages.{
  MsgAddOrder, MsgAddIceberg, MsgAddAon, MsgCancel, MsgModify, MsgExecute, header_size,
}
use titan_lob.Protocol.Wire.{
  Bytes, cast_header, cast_add_order, cast_add_iceberg, cast_add_aon, cast_cancel, cast_modify,
  cast_execute,
}
use titan_lob.Book.Types.{tif_from_protocol}
use titan_lob.Book.State.{Book}
use titan_lob.Book.Api.{add_order, cancel_order, match_order}

abbrev pub max_message_size : ℕ
max_message_size = 1024

-- `static_cast<uint32_t>`
abbrev pub to_uint32 : ℕ → ℕ
to_uint32 n = n % 2 ^ 32

-- The switch of `process_message`; `add_order` and `match_order` take fuel.
unfoldable pub process_message : (fuel : ℕ) → Bytes → Book → Option Book
process_message fuel buffer b =
    let type : ℕ = (cast_header buffer 0).type in
    let add : MsgAddOrder = cast_add_order buffer 0 in
    let iceberg : MsgAddIceberg = cast_add_iceberg buffer 0 in
    let all : MsgAddAon = cast_add_aon buffer 0 in
    let cancel : MsgCancel = cast_cancel buffer 0 in
    let modify : MsgModify = cast_modify buffer 0 in
    let execute : MsgExecute = cast_execute buffer 0 in
    if type == MsgType.add_order
    then add_order fuel b add.order_id (side_to_bool add.side) add.price add.quantity
        (to_uint32 add.user_id)
    else if type == MsgType.add_iceberg
    then add_order fuel b iceberg.order_id (side_to_bool iceberg.side) iceberg.price
        iceberg.visible_quantity (to_uint32 iceberg.user_id)
    else if type == MsgType.add_aon
    then add_order fuel b all.order_id (side_to_bool all.side) all.price all.quantity
        (to_uint32 all.user_id)
    else if type == MsgType.cancel_order
    then some (cancel_order b cancel.order_id)
    else if type == MsgType.modify_order
    then some (cancel_order b modify.order_id)
    else if type == MsgType.execute
    then match_order fuel b execute.order_id (side_to_bool execute.side) execute.price
        execute.quantity (tif_from_protocol execute.time_in_force)
    else some b

-- What the loop knows after it has tried to read a message: it stops, or it has the message in its
-- buffer.
pub data Reading (S : Type 0) : Type 0 where
  stopped : S → Reading S
  received : Bytes → S → Reading S

module _ {S : Type 0} (recv : S → ℕ → List ℕ × S) where
  -- The loop of `recv_exact`, which has written `total` bytes from `buffer + start` on. Its fuel bounds
  -- the calls of `recv`. The cast of the missing bytes to `int` is the identity below 2^31, and no caller
  -- asks for more than 1013.
  unfoldable pub recv_exact :
      (fuel : ℕ) → S → Bytes → (start num_bytes total : ℕ) → Option (Bool × Bytes × S)
  recv_exact zero s buffer start num_bytes total = none
  recv_exact (suc fuel) s buffer start num_bytes total =
      let (xs, s') = recv s (num_bytes - total) in
      let rest =
        recv_exact fuel s' (copy buffer (start + total) (λ i. get_or xs i 0) 0 (length xs)) start
          num_bytes (total + length xs) in
      if ltb total num_bytes
      then (if length xs == 0 then some (false, buffer, s') else rest)
      else some (true, buffer, s)

  -- The rest of the message, once its header is in the buffer.
  unfoldable pub read_body : S → Bytes → Option (Reading S)
  read_body s buffer =
      let total_length : ℕ = (cast_header buffer 0).length in
      let remaining_bytes : ℕ = total_length - header_size in
      if ltb total_length header_size || ltb max_message_size total_length
      then some (stopped s)
      else if remaining_bytes == 0
      then some (received buffer s)
      else elim (recv_exact (suc remaining_bytes) s buffer header_size remaining_bytes 0) [
        | none ↦ none
        | some (ok, buffer', s') ↦ some (if ok then received buffer' s' else stopped s')
      ]

  unfoldable pub read_message : S → Bytes → Option (Reading S)
  read_message s buffer = elim (recv_exact (suc header_size) s buffer 0 header_size 0) [
    | none ↦ none
    | some (ok, buffer', s') ↦ if ok then read_body s' buffer' else some (stopped s')
  ]

  -- `handle_client`: the socket, which it then closes, and the book at its end. `running r` is what
  -- `running_.load` gives when `r` rounds are left; `match_fuel` is for the calls of the book.
  unfoldable pub handle_client :
      (fuel match_fuel : ℕ) → (running : ℕ → Bool) → S → Bytes → Book → Option (S × Book)
  handle_client zero match_fuel running s buffer b = none
  handle_client (suc fuel) match_fuel running s buffer b = elim (running fuel) [
    | false ↦ some (s, b)
    | true ↦ elim (read_message s buffer) [
      | none ↦ none
      | some (stopped s') ↦ some (s', b)
      | some (received buffer' s') ↦ elim (process_message match_fuel buffer' b) [
        | none ↦ none
        | some b' ↦ handle_client fuel match_fuel running s' buffer' b'
      ]
    ]
  ]
