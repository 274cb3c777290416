-- ===== src/Protocol/Messages.antt =====
-- The inbound messages of protocol.h, and their `create` functions. The `length` of each is the
-- `sizeof` that the source asserts of the packed struct.
use titan_lob.Prelude.{ℕ, ◌-◌, ◌^◌, Bool, ℤ, pos, if◌then◌else◌}
use titan_lob.Protocol.MsgType
use titan_lob.Protocol.Side
use titan_lob.Protocol.Tif

abbrev pub int64_max : ℤ
int64_max = pos (2 ^ 63 - 1)

pub record MsgHeader : Type 0 where
  pub type : ℕ
  pub length : ℕ
  pub timestamp : ℕ

abbrev pub header : ℕ → ℕ → ℕ → MsgHeader
header type length ts = record { type = type; length = length; timestamp = ts }

abbrev pub header_size : ℕ
header_size = 11

pub record MsgAddOrder : Type 0 where
  pub header : MsgHeader
  pub order_id : ℕ
  pub user_id : ℕ
  pub side : ℕ
  pub price : ℤ
  pub quantity : ℤ

pub create_add_order :
    (ts : ℕ)
    → (order_id : ℕ) → (user_id : ℕ) → (side : ℕ) → (price : ℤ) → (quantity : ℤ) → MsgAddOrder
create_add_order ts order_id user_id side price quantity = record {
  header = header MsgType.add_order 44 ts;
  order_id = order_id;
  user_id = user_id;
  side = side;
  price = price;
  quantity = quantity;
}

pub record MsgAddIceberg : Type 0 where
  pub header : MsgHeader
  pub order_id : ℕ
  pub user_id : ℕ
  pub side : ℕ
  pub price : ℤ
  pub total_quantity : ℤ
  pub visible_quantity : ℤ

pub create_add_iceberg :
    (ts : ℕ)
    → (order_id : ℕ) → (user_id : ℕ) → (side : ℕ) → (price : ℤ) → (total_quantity : ℤ)
    → (visible_quantity : ℤ) → MsgAddIceberg
create_add_iceberg ts order_id user_id side price total_quantity visible_quantity = record {
  header = header MsgType.add_iceberg 52 ts;
  order_id = order_id;
  user_id = user_id;
  side = side;
  price = price;
  total_quantity = total_quantity;
  visible_quantity = visible_quantity;
}

pub record MsgAddAon : Type 0 where
  pub header : MsgHeader
  pub order_id : ℕ
  pub user_id : ℕ
  pub side : ℕ
  pub price : ℤ
  pub quantity : ℤ

pub create_add_aon :
    (ts : ℕ)
    → (order_id : ℕ) → (user_id : ℕ) → (side : ℕ) → (price : ℤ) → (quantity : ℤ) → MsgAddAon
create_add_aon ts order_id user_id side price quantity = record {
  header = header MsgType.add_aon 44 ts;
  order_id = order_id;
  user_id = user_id;
  side = side;
  price = price;
  quantity = quantity;
}

pub record MsgCancel : Type 0 where
  pub header : MsgHeader
  pub order_id : ℕ

pub create_cancel : (ts : ℕ) → (order_id : ℕ) → MsgCancel
create_cancel ts order_id = record {
  header = header MsgType.cancel_order 19 ts;
  order_id = order_id;
}

pub record MsgModify : Type 0 where
  pub header : MsgHeader
  pub order_id : ℕ
  pub new_price : ℤ
  pub new_quantity : ℤ

pub create_modify : (ts : ℕ) → (order_id : ℕ) → (new_price : ℤ) → (new_quantity : ℤ) → MsgModify
create_modify ts order_id new_price new_quantity = record {
  header = header MsgType.modify_order 35 ts;
  order_id = order_id;
  new_price = new_price;
  new_quantity = new_quantity;
}

pub record MsgExecute : Type 0 where
  pub header : MsgHeader
  pub order_id : ℕ
  pub user_id : ℕ
  pub side : ℕ
  pub price : ℤ
  pub quantity : ℤ
  pub time_in_force : ℕ

pub create_execute :
    (ts : ℕ)
    → (order_id : ℕ) → (user_id : ℕ) → (side : ℕ) → (price : ℤ) → (quantity : ℤ)
    → (time_in_force : ℕ) → MsgExecute
create_execute ts order_id user_id side price quantity time_in_force = record {
  header = header MsgType.execute 45 ts;
  order_id = order_id;
  user_id = user_id;
  side = side;
  price = price;
  quantity = quantity;
  time_in_force = time_in_force;
}

pub record MsgAddStop : Type 0 where
  pub header : MsgHeader
  pub order_id : ℕ
  pub user_id : ℕ
  pub side : ℕ
  pub trigger_price : ℤ
  pub limit_price : ℤ
  pub quantity : ℤ
  pub is_market : ℕ

pub create_add_stop :
    (ts : ℕ)
    → (order_id : ℕ) → (user_id : ℕ) → (side : ℕ) → (trigger_price : ℤ) → (limit_price : ℤ)
    → (quantity : ℤ) → (is_market : Bool) → MsgAddStop
create_add_stop ts order_id user_id side trigger_price limit_price quantity is_market = record {
  header = header MsgType.add_stop 53 ts;
  order_id = order_id;
  user_id = user_id;
  side = side;
  trigger_price = trigger_price;
  limit_price = limit_price;
  quantity = quantity;
  is_market = (if is_market then 1 else 0);
}

pub record MsgHeartbeat : Type 0 where
  pub header : MsgHeader

pub create_heartbeat : (ts : ℕ) → MsgHeartbeat
create_heartbeat ts = record { header = header MsgType.heartbeat 11 ts }

pub record MsgReset : Type 0 where
  pub header : MsgHeader

pub create_reset : (ts : ℕ) → MsgReset
create_reset ts = record { header = header MsgType.reset 11 ts }

pub market_buy : (ts order_id user_id : ℕ) (quantity : ℤ) → MsgExecute
unfolding create_execute
market_buy ts order_id user_id quantity =
    create_execute ts order_id user_id Side.buy int64_max quantity Tif.ioc

pub market_sell : (ts order_id user_id : ℕ) (quantity : ℤ) → MsgExecute
unfolding create_execute
market_sell ts order_id user_id quantity =
    create_execute ts order_id user_id Side.sell (pos 0) quantity Tif.ioc
