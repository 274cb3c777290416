-- ===== src/Protocol/Wire/RoundTrip.antt =====
-- A packed struct and its bytes.
use titan_lob.Prelude.{ℕ, ◌^◌, ◌<◌, ◌≡◌, ap, ◌∙◌, arith, ℤ, pos, negsuc}
use titan_lob.Protocol.Wire.{cast_header}
use titan_lob.Protocol.Wire.Image.{IsHeader, image_header}
use titan_lob.Protocol.Messages.{
  MsgHeader, MsgAddOrder, MsgAddIceberg, MsgAddAon, MsgCancel, MsgModify, MsgExecute,
}
use titan_lob.Protocol.Wire.{
  load_le, to_int64, cast_add_order, cast_add_iceberg, cast_add_aon, cast_cancel, cast_modify,
  cast_execute,
}
use titan_lob.Protocol.Wire.Image.{
  store_le, of_int64, IsInt64, bytes, image_add_order, IsAddOrder, image_add_iceberg, IsAddIceberg,
  image_add_aon, IsAddAon, image_cancel, IsCancel, image_modify, IsModify, image_execute, IsExecute,
}

to_int64-of_int64 : (a : ℤ) → IsInt64 a → to_int64 (of_int64 a) ≡ a
to_int64-of_int64 (pos n) h = ground arith
to_int64-of_int64 (negsuc n) h = ground arith

of_int64_lt : (a : ℤ) → IsInt64 a → of_int64 a < 2 ^ 64
of_int64_lt (pos n) h = omega arith
of_int64_lt (negsuc n) h = omega arith

word : (w : ℕ) → w < 2 ^ 64 → load_le 8 (bytes (store_le 8 w)) 0 ≡ w
word w h = omega arith

half_word : (w : ℕ) → w < 2 ^ 16 → load_le 2 (bytes (store_le 2 w)) 0 ≡ w
half_word w h = omega arith

one_byte : (w : ℕ) → w < 2 ^ 8 → load_le 1 (bytes (store_le 1 w)) 0 ≡ w
one_byte w h = omega arith

int_word : (a : ℤ) → IsInt64 a → to_int64 (load_le 8 (bytes (store_le 8 (of_int64 a))) 0) ≡ a
int_word a h = ap to_int64 (word (of_int64 a) (of_int64_lt a h)) ∙ to_int64-of_int64 a h

pub cast-image_header : (h : MsgHeader) → IsHeader h → cast_header (bytes (image_header h)) 0 ≡ h
unfolding cast_header
cast-image_header h is = λ i. record {
  type = one_byte h.type is.type_in i;
  length = half_word h.length is.length_in i;
  timestamp = word h.timestamp is.timestamp_in i;
}

-- A `MsgAddOrder` whose fields fit their types is what `msg_cast` reads from its memory image.
pub cast-image_add_order :
    (m : MsgAddOrder) → IsAddOrder m → cast_add_order (bytes (image_add_order m)) 0 ≡ m
unfolding cast_add_order image_add_order
cast-image_add_order m is = λ i. record {
  header = record {
    type = one_byte m.header.type is.header_in.type_in i;
    length = half_word m.header.length is.header_in.length_in i;
    timestamp = word m.header.timestamp is.header_in.timestamp_in i;
  };
  order_id = word m.order_id is.order_id_in i;
  user_id = word m.user_id is.user_id_in i;
  side = one_byte m.side is.side_in i;
  price = int_word m.price is.price_in i;
  quantity = int_word m.quantity is.quantity_in i;
}

-- A `MsgAddIceberg` whose fields fit their types is what `msg_cast` reads from its memory image.
pub cast-image_add_iceberg :
    (m : MsgAddIceberg) → IsAddIceberg m → cast_add_iceberg (bytes (image_add_iceberg m)) 0 ≡ m
unfolding cast_add_iceberg image_add_iceberg
cast-image_add_iceberg m is = λ i. record {
  header = record {
    type = one_byte m.header.type is.header_in.type_in i;
    length = half_word m.header.length is.header_in.length_in i;
    timestamp = word m.header.timestamp is.header_in.timestamp_in i;
  };
  order_id = word m.order_id is.order_id_in i;
  user_id = word m.user_id is.user_id_in i;
  side = one_byte m.side is.side_in i;
  price = int_word m.price is.price_in i;
  total_quantity = int_word m.total_quantity is.total_quantity_in i;
  visible_quantity = int_word m.visible_quantity is.visible_quantity_in i;
}

-- A `MsgAddAon` whose fields fit their types is what `msg_cast` reads from its memory image.
pub cast-image_add_aon : (m : MsgAddAon) → IsAddAon m → cast_add_aon (bytes (image_add_aon m)) 0 ≡ m
unfolding cast_add_aon image_add_aon
cast-image_add_aon m is = λ i. record {
  header = record {
    type = one_byte m.header.type is.header_in.type_in i;
    length = half_word m.header.length is.header_in.length_in i;
    timestamp = word m.header.timestamp is.header_in.timestamp_in i;
  };
  order_id = word m.order_id is.order_id_in i;
  user_id = word m.user_id is.user_id_in i;
  side = one_byte m.side is.side_in i;
  price = int_word m.price is.price_in i;
  quantity = int_word m.quantity is.quantity_in i;
}

-- A `MsgCancel` whose fields fit their types is what `msg_cast` reads from its memory image.
pub cast-image_cancel : (m : MsgCancel) → IsCancel m → cast_cancel (bytes (image_cancel m)) 0 ≡ m
unfolding cast_cancel image_cancel
cast-image_cancel m is = λ i. record {
  header = record {
    type = one_byte m.header.type is.header_in.type_in i;
    length = half_word m.header.length is.header_in.length_in i;
    timestamp = word m.header.timestamp is.header_in.timestamp_in i;
  };
  order_id = word m.order_id is.order_id_in i;
}

-- A `MsgModify` whose fields fit their types is what `msg_cast` reads from its memory image.
pub cast-image_modify : (m : MsgModify) → IsModify m → cast_modify (bytes (image_modify m)) 0 ≡ m
unfolding cast_modify image_modify
cast-image_modify m is = λ i. record {
  header = record {
    type = one_byte m.header.type is.header_in.type_in i;
    length = half_word m.header.length is.header_in.length_in i;
    timestamp = word m.header.timestamp is.header_in.timestamp_in i;
  };
  order_id = word m.order_id is.order_id_in i;
  new_price = int_word m.new_price is.new_price_in i;
  new_quantity = int_word m.new_quantity is.new_quantity_in i;
}

-- A `MsgExecute` whose fields fit their types is what `msg_cast` reads from its memory image.
pub cast-image_execute :
    (m : MsgExecute) → IsExecute m → cast_execute (bytes (image_execute m)) 0 ≡ m
unfolding cast_execute image_execute
cast-image_execute m is = λ i. record {
  header = record {
    type = one_byte m.header.type is.header_in.type_in i;
    length = half_word m.header.length is.header_in.length_in i;
    timestamp = word m.header.timestamp is.header_in.timestamp_in i;
  };
  order_id = word m.order_id is.order_id_in i;
  user_id = word m.user_id is.user_id_in i;
  side = one_byte m.side is.side_in i;
  price = int_word m.price is.price_in i;
  quantity = int_word m.quantity is.quantity_in i;
  time_in_force = one_byte m.time_in_force is.time_in_force_in i;
}
