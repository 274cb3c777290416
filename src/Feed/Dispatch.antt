-- ===== src/Feed/Dispatch.antt =====
-- The two dispatch functions of main.cpp on the messages of protocol.h.
use titan_lob.Prelude.{ℕ, ◌≡◌, refl, ap, ◌∙◌, Option, some, ◌==◌, length, arith}
use titan_lob.Protocol.Side
use titan_lob.Protocol.Wire.{Bytes, cast_header, cast_add_order, cast_cancel, cast_modify}
use titan_lob.Protocol.Wire.Image.{
  bytes, image_add_order, image_add_iceberg, image_add_aon, image_cancel, image_modify,
  image_execute,
}
use titan_lob.Protocol.Wire.RoundTrip.{cast-image_add_order, cast-image_cancel, cast-image_modify}
use titan_lob.Protocol.Wire.Extent.{Agree, cast_add_order_ext, cast_cancel_ext, cast_modify_ext}
use titan_lob.Book.State.{Book}
use titan_lob.Book.Api.{add_order, cancel_order, add_order_no_lock, cancel_order_no_lock}
use titan_lob.Gateway.{to_uint32}
use titan_lob.Gateway.Dispatch.{
  Message, plain, iceberg, whole, cancel, modify, execute, heartbeat, image, IsMessage, header_of,
  cast_header-image,
}
use titan_lob.Feed.{dispatch_message, dispatch_message_no_lock}

-- What the live feed makes of a message: orders of the special kinds and executions are passed over.
unfoldable pub perform_live : (fuel : ℕ) → Message → Book → Option Book
perform_live fuel (plain m) b =
    add_order fuel b m.order_id (m.side == Side.buy) m.price m.quantity (to_uint32 m.user_id)
perform_live fuel (cancel m) b = some (cancel_order b m.order_id)
perform_live fuel (modify m) b = some (cancel_order b m.order_id)
perform_live fuel _ b = some b

-- What the replay makes of it: a modification is passed over as well.
unfoldable pub perform_replay : (fuel : ℕ) → Message → Book → Option Book
perform_replay fuel (plain m) b =
    add_order_no_lock fuel b m.order_id (m.side == Side.buy) m.price m.quantity
      (to_uint32 m.user_id)
perform_replay fuel (cancel m) b = some (cancel_order_no_lock b m.order_id)
perform_replay fuel _ b = some b

type_read :
    (m : Message) (buffer : Bytes)
    → IsMessage m
    → Agree (length (image m)) buffer (bytes (image m))
    → (cast_header buffer 0).type ≡ (header_of m).type
type_read m buffer is agree =
    let sizes = cast_header-image m (bytes (image m)) is (λ j h. refl) in
    ap (λ h. h.type) (cast_header-image m buffer is (λ j h. agree j (omega (arith, sizes.2)))).0

-- Whatever follows a well-formed message, the two functions make the calls above.
pub dispatch-image :
    (fuel : ℕ) (m : Message) (buffer : Bytes) (b : Book)
    → IsMessage m
    → Agree (length (image m)) buffer (bytes (image m))
    → (dispatch_message fuel b buffer (length (image m)) ≡ perform_live fuel m b)
      × (dispatch_message_no_lock fuel b buffer (length (image m)) ≡ perform_replay fuel m b)
unfolding dispatch_message dispatch_message_no_lock perform_live perform_replay image
    image_add_order image_add_iceberg image_add_aon image_cancel image_modify image_execute
dispatch-image fuel (plain m) buffer b (is, kind, size) agree =
    let read : cast_add_order buffer 0 ≡ m =
      cast_add_order_ext 44 buffer (bytes (image_add_order m)) agree (omega arith)
      ∙ cast-image_add_order m is in
    let type = type_read (plain m) buffer (is, kind, size) agree ∙ kind in
    rw (type, read) (refl, refl)
dispatch-image fuel (cancel m) buffer b (is, kind, size) agree =
    let read : cast_cancel buffer 0 ≡ m =
      cast_cancel_ext 19 buffer (bytes (image_cancel m)) agree (omega arith)
      ∙ cast-image_cancel m is in
    let type = type_read (cancel m) buffer (is, kind, size) agree ∙ kind in
    rw (type, read) (refl, refl)
dispatch-image fuel (modify m) buffer b (is, kind, size) agree =
    let read : cast_modify buffer 0 ≡ m =
      cast_modify_ext 35 buffer (bytes (image_modify m)) agree (omega arith)
      ∙ cast-image_modify m is in
    let type = type_read (modify m) buffer (is, kind, size) agree ∙ kind in
    rw (type, read) (refl, refl)
dispatch-image fuel (iceberg m) buffer b (is, kind, size) agree =
    let type = type_read (iceberg m) buffer (is, kind, size) agree ∙ kind in rw type (refl, refl)
dispatch-image fuel (whole m) buffer b (is, kind, size) agree =
    let type = type_read (whole m) buffer (is, kind, size) agree ∙ kind in rw type (refl, refl)
dispatch-image fuel (execute m) buffer b (is, kind, size) agree =
    let type = type_read (execute m) buffer (is, kind, size) agree ∙ kind in rw type (refl, refl)
dispatch-image fuel (heartbeat h) buffer b (is, kind, size) agree =
    let type = type_read (heartbeat h) buffer (is, kind, size) agree ∙ kind in rw type (refl, refl)
