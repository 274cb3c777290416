-- ===== src/Protocol/Wire.antt =====
-- `msg_cast` of protocol.h: a packed struct read out of a buffer of bytes, at the offsets that
-- `#pragma pack(push, 1)` gives its fields, on a little-endian machine with two's complement.
pub mod Image
pub mod Extent
pub mod RoundTrip
use titan_lob.Prelude.{ℕ, zero, suc, ◌+◌, ◌-◌, ◌*◌, ◌^◌, ltb, if◌then◌else◌, ℤ, pos, negsuc}
use titan_lob.Protocol.Messages.{
  MsgHeader, MsgAddOrder, MsgAddIceberg, MsgAddAon, MsgCancel, MsgModify, MsgExecute,
}

-- a buffer of bytes
abbrev pub Bytes : Type 0
Bytes = ℕ → ℕ

-- the unsigned number in the `n` bytes from `off` on
abbrev pub load_le : ℕ → Bytes → ℕ → ℕ
load_le zero buf off = 0
load_le (suc n) buf off = buf off + 256 * load_le n buf (off + 1)

-- the `int64_t` with a bit pattern
abbrev pub to_int64 : ℕ → ℤ
to_int64 w = if ltb w (2 ^ 63) then pos w else negsuc (2 ^ 64 - 1 - w)

abbrev pub load_int64 : Bytes → ℕ → ℤ
load_int64 buf off = to_int64 (load_le 8 buf off)

pub cast_header : Bytes → ℕ → MsgHeader
cast_header buf at = record {
  type = load_le 1 buf at;
  length = load_le 2 buf (at + 1);
  timestamp = load_le 8 buf (at + 3);
}

pub cast_add_order : Bytes → ℕ → MsgAddOrder
unfolding cast_header
cast_add_order buf at = record {
  header = cast_header buf at;
  order_id = load_le 8 buf (at + 11);
  user_id = load_le 8 buf (at + 19);
  side = load_le 1 buf (at + 27);
  price = load_int64 buf (at + 28);
  quantity = load_int64 buf (at + 36);
}

pub cast_add_iceberg : Bytes → ℕ → MsgAddIceberg
unfolding cast_header
cast_add_iceberg buf at = record {
  header = cast_header buf at;
  order_id = load_le 8 buf (at + 11);
  user_id = load_le 8 buf (at + 19);
  side = load_le 1 buf (at + 27);
  price = load_int64 buf (at + 28);
  total_quantity = load_int64 buf (at + 36);
  visible_quantity = load_int64 buf (at + 44);
}

pub cast_add_aon : Bytes → ℕ → MsgAddAon
unfolding cast_header
cast_add_aon buf at = record {
  header = cast_header buf at;
  order_id = load_le 8 buf (at + 11);
  user_id = load_le 8 buf (at + 19);
  side = load_le 1 buf (at + 27);
  price = load_int64 buf (at + 28);
  quantity = load_int64 buf (at + 36);
}

pub cast_cancel : Bytes → ℕ → MsgCancel
unfolding cast_header
cast_cancel buf at = record { header = cast_header buf at; order_id = load_le 8 buf (at + 11) }

pub cast_modify : Bytes → ℕ → MsgModify
unfolding cast_header
cast_modify buf at = record {
  header = cast_header buf at;
  order_id = load_le 8 buf (at + 11);
  new_price = load_int64 buf (at + 19);
  new_quantity = load_int64 buf (at + 27);
}

pub cast_execute : Bytes → ℕ → MsgExecute
unfolding cast_header
cast_execute buf at = record {
  header = cast_header buf at;
  order_id = load_le 8 buf (at + 11);
  user_id = load_le 8 buf (at + 19);
  side = load_le 1 buf (at + 27);
  price = load_int64 buf (at + 28);
  quantity = load_int64 buf (at + 36);
  time_in_force = load_le 1 buf (at + 44);
}
