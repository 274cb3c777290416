-- ===== src/Protocol/Wire/Image.antt =====
-- The memory image of a packed struct: the bytes that a sender of protocol.h's structs puts on the
-- wire.
use titan_lob.Prelude.{
  ℕ, zero, suc, ◌-◌, ◌/◌, ◌%◌, ◌^◌, ◌<◌, ℤ, pos, negsuc, List, [], ◌∷◌, ◌++◌, get_or,
}
use titan_lob.Protocol.Messages.{
  MsgHeader, MsgAddOrder, MsgAddIceberg, MsgAddAon, MsgCancel, MsgModify, MsgExecute,
}
use titan_lob.Protocol.Wire.{Bytes}

-- the `n` low bytes of a number, lowest first
abbrev pub store_le : ℕ → ℕ → List ℕ
store_le zero w = []
store_le (suc n) w = (w % 256) ∷ store_le n (w / 256)

-- the bit pattern of an `int64_t`
abbrev pub of_int64 : ℤ → ℕ
of_int64 (pos n) = n
of_int64 (negsuc n) = 2 ^ 64 - 1 - n

-- `-2^63 ≤ a < 2^63`
abbrev pub IsInt64 : ℤ → Type 0
IsInt64 (pos n) = n < 2 ^ 63
IsInt64 (negsuc n) = n < 2 ^ 63

-- a buffer that holds these bytes
abbrev pub bytes : List ℕ → Bytes
bytes xs i = get_or xs i 0

pub record IsHeader (h : MsgHeader) : Type 0 where
  pub type_in : h.type < 2 ^ 8
  pub length_in : h.length < 2 ^ 16
  pub timestamp_in : h.timestamp < 2 ^ 64

abbrev pub image_header : MsgHeader → List ℕ
image_header h = store_le 1 h.type ++ (store_le 2 h.length ++ store_le 8 h.timestamp)

-- each field fits its type
pub record IsAddOrder (m : MsgAddOrder) : Type 0 where
  pub header_in : IsHeader m.header
  pub order_id_in : m.order_id < 2 ^ 64
  pub user_id_in : m.user_id < 2 ^ 64
  pub side_in : m.side < 2 ^ 8
  pub price_in : IsInt64 m.price
  pub quantity_in : IsInt64 m.quantity

unfoldable pub image_add_order : MsgAddOrder → List ℕ
image_add_order m =
    image_header m.header
    ++ (store_le 8 m.order_id
        ++ (store_le 8 m.user_id
            ++ (store_le 1 m.side
                ++ (store_le 8 (of_int64 m.price) ++ (store_le 8 (of_int64 m.quantity))))))

-- each field fits its type
pub record IsAddIceberg (m : MsgAddIceberg) : Type 0 where
  pub header_in : IsHeader m.header
  pub order_id_in : m.order_id < 2 ^ 64
  pub user_id_in : m.user_id < 2 ^ 64
  pub side_in : m.side < 2 ^ 8
  pub price_in : IsInt64 m.price
  pub total_quantity_in : IsInt64 m.total_quantity
  pub visible_quantity_in : IsInt64 m.visible_quantity

unfoldable pub image_add_iceberg : MsgAddIceberg → List ℕ
image_add_iceberg m =
    image_header m.header
    ++ (store_le 8 m.order_id
        ++ (store_le 8 m.user_id
            ++ (store_le 1 m.side
                ++ (store_le 8 (of_int64 m.price)
                    ++ (store_le 8 (of_int64 m.total_quantity)
                        ++ (store_le 8 (of_int64 m.visible_quantity)))))))

-- each field fits its type
pub record IsAddAon (m : MsgAddAon) : Type 0 where
  pub header_in : IsHeader m.header
  pub order_id_in : m.order_id < 2 ^ 64
  pub user_id_in : m.user_id < 2 ^ 64
  pub side_in : m.side < 2 ^ 8
  pub price_in : IsInt64 m.price
  pub quantity_in : IsInt64 m.quantity

unfoldable pub image_add_aon : MsgAddAon → List ℕ
image_add_aon m =
    image_header m.header
    ++ (store_le 8 m.order_id
        ++ (store_le 8 m.user_id
            ++ (store_le 1 m.side
                ++ (store_le 8 (of_int64 m.price) ++ (store_le 8 (of_int64 m.quantity))))))

-- each field fits its type
pub record IsCancel (m : MsgCancel) : Type 0 where
  pub header_in : IsHeader m.header
  pub order_id_in : m.order_id < 2 ^ 64

unfoldable pub image_cancel : MsgCancel → List ℕ
image_cancel m = image_header m.header ++ (store_le 8 m.order_id)

-- each field fits its type
pub record IsModify (m : MsgModify) : Type 0 where
  pub header_in : IsHeader m.header
  pub order_id_in : m.order_id < 2 ^ 64
  pub new_price_in : IsInt64 m.new_price
  pub new_quantity_in : IsInt64 m.new_quantity

unfoldable pub image_modify : MsgModify → List ℕ
image_modify m =
    image_header m.header
    ++ (store_le 8 m.order_id
        ++ (store_le 8 (of_int64 m.new_price) ++ (store_le 8 (of_int64 m.new_quantity))))

-- each field fits its type
pub record IsExecute (m : MsgExecute) : Type 0 where
  pub header_in : IsHeader m.header
  pub order_id_in : m.order_id < 2 ^ 64
  pub user_id_in : m.user_id < 2 ^ 64
  pub side_in : m.side < 2 ^ 8
  pub price_in : IsInt64 m.price
  pub quantity_in : IsInt64 m.quantity
  pub time_in_force_in : m.time_in_force < 2 ^ 8

unfoldable pub image_execute : MsgExecute → List ℕ
image_execute m =
    image_header m.header
    ++ (store_le 8 m.order_id
        ++ (store_le 8 m.user_id
            ++ (store_le 1 m.side
                ++ (store_le 8 (of_int64 m.price)
                    ++ (store_le 8 (of_int64 m.quantity) ++ (store_le 1 m.time_in_force))))))
