-- ===== src/Gateway/Dispatch.antt =====
-- `process_message` of gateway.h on the messages of protocol.h, and the call that it makes for each.
use titan_lob.Prelude.{ℕ, ◌≡◌, ◌≤◌, refl, sym, ap, ◌∙◌, Option, some, List, length, arith}
use titan_lob.Protocol.{side_to_bool}
use titan_lob.Protocol.MsgType
use titan_lob.Protocol.Messages.{
  MsgHeader, MsgAddOrder, MsgAddIceberg, MsgAddAon, MsgCancel, MsgModify, MsgExecute,
}
use titan_lob.Protocol.Wire.{
  Bytes, cast_header, cast_add_order, cast_add_iceberg, cast_add_aon, cast_cancel, cast_modify,
  cast_execute,
}
use titan_lob.Protocol.Wire.Image.{
  bytes, IsHeader, image_header, image_add_order, IsAddOrder, image_add_iceberg, IsAddIceberg,
  image_add_aon, IsAddAon, image_cancel, IsCancel, image_modify, IsModify, image_execute, IsExecute,
}
use titan_lob.Protocol.Wire.RoundTrip.{
  cast-image_header, cast-image_add_order, cast-image_add_iceberg, cast-image_add_aon,
  cast-image_cancel, cast-image_modify, cast-image_execute,
}
use titan_lob.Protocol.Wire.Extent.{
  Agree, cast_header_ext, cast_add_order_ext, header-cast_add_order, cast_add_iceberg_ext,
  header-cast_add_iceberg, cast_add_aon_ext, header-cast_add_aon, cast_cancel_ext,
  header-cast_cancel, cast_modify_ext, header-cast_modify, cast_execute_ext, header-cast_execute,
}
use titan_lob.Book.Types.{tif_from_protocol}
use titan_lob.Book.State.{Book}
use titan_lob.Book.Api.{add_order, cancel_order, match_order}
use titan_lob.Gateway.{to_uint32, process_message}

-- The messages that a client sends.
pub data Message : Type 0 where
  plain : MsgAddOrder → Message
  iceberg : MsgAddIceberg → Message
  whole : MsgAddAon → Message
  cancel : MsgCancel → Message
  modify : MsgModify → Message
  execute : MsgExecute → Message
  heartbeat : MsgHeader → Message

unfoldable pub image : Message → List ℕ
image (plain m) = image_add_order m
image (iceberg m) = image_add_iceberg m
image (whole m) = image_add_aon m
image (cancel m) = image_cancel m
image (modify m) = image_modify m
image (execute m) = image_execute m
image (heartbeat h) = image_header h

-- The fields fit their types, and the header tells the kind and the length.
abbrev pub IsMessage : Message → Type 0
IsMessage (plain m) = IsAddOrder m × (m.header.type ≡ MsgType.add_order) × (m.header.length ≡ 44)
IsMessage (iceberg m) =
    IsAddIceberg m × (m.header.type ≡ MsgType.add_iceberg) × (m.header.length ≡ 52)
IsMessage (whole m) = IsAddAon m × (m.header.type ≡ MsgType.add_aon) × (m.header.length ≡ 44)
IsMessage (cancel m) = IsCancel m × (m.header.type ≡ MsgType.cancel_order) × (m.header.length ≡ 19)
IsMessage (modify m) = IsModify m × (m.header.type ≡ MsgType.modify_order) × (m.header.length ≡ 35)
IsMessage (execute m) = IsExecute m × (m.header.type ≡ MsgType.execute) × (m.header.length ≡ 45)
IsMessage (heartbeat h) = IsHeader h × (h.type ≡ MsgType.heartbeat) × (h.length ≡ 11)

-- What the gateway makes of each: the two special kinds of order rest as plain ones, the iceberg with
-- its visible quantity alone, and a modification only cancels.
unfoldable pub perform : (fuel : ℕ) → Message → Book → Option Book
perform fuel (plain m) b =
    add_order fuel b m.order_id (side_to_bool m.side) m.price m.quantity (to_uint32 m.user_id)
perform fuel (iceberg m) b =
    add_order fuel b m.order_id (side_to_bool m.side) m.price m.visible_quantity
      (to_uint32 m.user_id)
perform fuel (whole m) b =
    add_order fuel b m.order_id (side_to_bool m.side) m.price m.quantity (to_uint32 m.user_id)
perform fuel (cancel m) b = some (cancel_order b m.order_id)
perform fuel (modify m) b = some (cancel_order b m.order_id)
perform fuel (execute m) b =
    match_order fuel b m.order_id (side_to_bool m.side) m.price m.quantity
      (tif_from_protocol m.time_in_force)
perform fuel (heartbeat h) b = some b

abbrev pub header_of : Message → MsgHeader
header_of (plain m) = m.header
header_of (iceberg m) = m.header
header_of (whole m) = m.header
header_of (cancel m) = m.header
header_of (modify m) = m.header
header_of (execute m) = m.header
header_of (heartbeat h) = h

-- The header of a message is read from its first bytes, its length with it.
pub cast_header-image :
    (m : Message) (buffer : Bytes)
    → IsMessage m
    → Agree 11 buffer (bytes (image m))
    → (cast_header buffer 0 ≡ header_of m)
      × ((header_of m).length ≡ length (image m))
      × (11 ≤ length (image m))
      × (length (image m) ≤ 52)
unfolding image image_add_order image_add_iceberg image_add_aon image_cancel image_modify
    image_execute
cast_header-image (plain m) buffer (is, kind, size) agree = (
  cast_header_ext 11 buffer (bytes (image_add_order m)) agree (omega arith)
      ∙ sym (header-cast_add_order (bytes (image_add_order m)))
      ∙ ap (λ r. r.header) (cast-image_add_order m is),
  size,
  omega arith,
  omega arith,
)
cast_header-image (iceberg m) buffer (is, kind, size) agree = (
  cast_header_ext 11 buffer (bytes (image_add_iceberg m)) agree (omega arith)
      ∙ sym (header-cast_add_iceberg (bytes (image_add_iceberg m)))
      ∙ ap (λ r. r.header) (cast-image_add_iceberg m is),
  size,
  omega arith,
  omega arith,
)
cast_header-image (whole m) buffer (is, kind, size) agree = (
  cast_header_ext 11 buffer (bytes (image_add_aon m)) agree (omega arith)
      ∙ sym (header-cast_add_aon (bytes (image_add_aon m)))
      ∙ ap (λ r. r.header) (cast-image_add_aon m is),
  size,
  omega arith,
  omega arith,
)
cast_header-image (cancel m) buffer (is, kind, size) agree = (
  cast_header_ext 11 buffer (bytes (image_cancel m)) agree (omega arith)
      ∙ sym (header-cast_cancel (bytes (image_cancel m)))
      ∙ ap (λ r. r.header) (cast-image_cancel m is),
  size,
  omega arith,
  omega arith,
)
cast_header-image (modify m) buffer (is, kind, size) agree = (
  cast_header_ext 11 buffer (bytes (image_modify m)) agree (omega arith)
      ∙ sym (header-cast_modify (bytes (image_modify m)))
      ∙ ap (λ r. r.header) (cast-image_modify m is),
  size,
  omega arith,
  omega arith,
)
cast_header-image (execute m) buffer (is, kind, size) agree = (
  cast_header_ext 11 buffer (bytes (image_execute m)) agree (omega arith)
      ∙ sym (header-cast_execute (bytes (image_execute m)))
      ∙ ap (λ r. r.header) (cast-image_execute m is),
  size,
  omega arith,
  omega arith,
)
cast_header-image (heartbeat h) buffer (is, kind, size) agree = (
  cast_header_ext 11 buffer (bytes (image_header h)) agree (omega arith) ∙ cast-image_header h is,
  size,
  omega arith,
  omega arith,
)

-- Whatever follows a well-formed message in the buffer, `process_message` makes the call of `perform`.
pub process_message-image :
    (fuel : ℕ) (m : Message) (buffer : Bytes) (b : Book)
    → IsMessage m
    → Agree (length (image m)) buffer (bytes (image m))
    → process_message fuel buffer b ≡ perform fuel m b
unfolding process_message perform image image_add_order image_add_iceberg image_add_aon image_cancel
    image_modify image_execute
process_message-image fuel (plain m) buffer b (is, kind, size) agree =
    let read : cast_add_order buffer 0 ≡ m =
      cast_add_order_ext 44 buffer (bytes (image_add_order m)) agree (omega arith)
      ∙ cast-image_add_order m is in
    let type : (cast_header buffer 0).type ≡ MsgType.add_order =
      ap (λ h. h.type) (sym (header-cast_add_order buffer) ∙ ap (λ r. r.header) read) ∙ kind in
    rw (type, read) refl
process_message-image fuel (iceberg m) buffer b (is, kind, size) agree =
    let read : cast_add_iceberg buffer 0 ≡ m =
      cast_add_iceberg_ext 52 buffer (bytes (image_add_iceberg m)) agree (omega arith)
      ∙ cast-image_add_iceberg m is in
    let type : (cast_header buffer 0).type ≡ MsgType.add_iceberg =
      ap (λ h. h.type) (sym (header-cast_add_iceberg buffer) ∙ ap (λ r. r.header) read) ∙ kind in
    rw (type, read) refl
process_message-image fuel (whole m) buffer b (is, kind, size) agree =
    let read : cast_add_aon buffer 0 ≡ m =
      cast_add_aon_ext 44 buffer (bytes (image_add_aon m)) agree (omega arith)
      ∙ cast-image_add_aon m is in
    let type : (cast_header buffer 0).type ≡ MsgType.add_aon =
      ap (λ h. h.type) (sym (header-cast_add_aon buffer) ∙ ap (λ r. r.header) read) ∙ kind in
    rw (type, read) refl
process_message-image fuel (cancel m) buffer b (is, kind, size) agree =
    let read : cast_cancel buffer 0 ≡ m =
      cast_cancel_ext 19 buffer (bytes (image_cancel m)) agree (omega arith)
      ∙ cast-image_cancel m is in
    let type : (cast_header buffer 0).type ≡ MsgType.cancel_order =
      ap (λ h. h.type) (sym (header-cast_cancel buffer) ∙ ap (λ r. r.header) read) ∙ kind in
    rw (type, read) refl
process_message-image fuel (modify m) buffer b (is, kind, size) agree =
    let read : cast_modify buffer 0 ≡ m =
      cast_modify_ext 35 buffer (bytes (image_modify m)) agree (omega arith)
      ∙ cast-image_modify m is in
    let type : (cast_header buffer 0).type ≡ MsgType.modify_order =
      ap (λ h. h.type) (sym (header-cast_modify buffer) ∙ ap (λ r. r.header) read) ∙ kind in
    rw (type, read) refl
process_message-image fuel (execute m) buffer b (is, kind, size) agree =
    let read : cast_execute buffer 0 ≡ m =
      cast_execute_ext 45 buffer (bytes (image_execute m)) agree (omega arith)
      ∙ cast-image_execute m is in
    let type : (cast_header buffer 0).type ≡ MsgType.execute =
      ap (λ h. h.type) (sym (header-cast_execute buffer) ∙ ap (λ r. r.header) read) ∙ kind in
    rw (type, read) refl
process_message-image fuel (heartbeat h) buffer b (is, kind, size) agree =
    let read : cast_header buffer 0 ≡ h =
      cast_header_ext 11 buffer (bytes (image_header h)) agree (omega arith)
      ∙ cast-image_header h is in
    let type : (cast_header buffer 0).type ≡ MsgType.heartbeat = ap (λ h. h.type) read ∙ kind in
    rw type refl
