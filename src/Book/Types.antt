-- ===== src/Book/Types.antt =====
-- The structs of order_book.h. A flag byte is a number, read and written by its masks.
use Prim.Native.Nat.{bit_and, bit_or}
use titan_lob.Prelude.{ℕ, Bool, not, ◌==◌, if◌then◌else◌, ℤ, pos, ltb_ℤ, ◌+ℤ◌}
use titan_lob.Pool.{null_index}
use titan_lob.Protocol.Tif

pub data TimeInForce : Type 0 where
  gtc ioc fok aon : TimeInForce

pub tif_from_protocol : ℕ → TimeInForce
tif_from_protocol t =
    if t == Tif.gtc
    then gtc
    else if t == Tif.ioc
    then ioc
    else if t == Tif.fok
    then fok
    else if t == Tif.aon
    then aon
    else gtc

-- `flags & 0x01` and `flags & 0x02`; `~0x01` and `~0x02` are cut to the byte they are stored in.
abbrev pub flag0 : ℕ → Bool
flag0 flags = not (bit_and flags 0x01 == 0)

abbrev pub flag1 : ℕ → Bool
flag1 flags = not (bit_and flags 0x02 == 0)

abbrev pub set_flag0 : ℕ → Bool → ℕ
set_flag0 flags v = if v then bit_or flags 0x01 else bit_and flags 0xfe

abbrev pub set_flag1 : ℕ → Bool → ℕ
set_flag1 flags v = if v then bit_or flags 0x02 else bit_and flags 0xfd

pub record Order : Type 0 where
  pub order_id : ℕ
  pub price : ℤ
  pub quantity : ℤ
  pub hidden_quantity : ℤ
  pub peak_size : ℤ
  pub next : ℕ
  pub prev : ℕ
  pub user_id_low : ℕ
  pub flags : ℕ

abbrev pub is_iceberg : Order → Bool
is_iceberg o = ltb_ℤ (pos 0) o.peak_size

abbrev pub total_quantity : Order → ℤ
total_quantity o = o.quantity +ℤ o.hidden_quantity

abbrev pub is_buy : Order → Bool
is_buy o = flag0 o.flags

abbrev pub is_aon : Order → Bool
is_aon o = flag1 o.flags

abbrev pub set_buy : Order → Bool → Order
set_buy o v = record o { flags = set_flag0 o.flags v }

abbrev pub set_aon : Order → Bool → Order
set_aon o v = record o { flags = set_flag1 o.flags v }

-- `Order{}`: every field is 0.
abbrev pub default_order : Order
default_order = record {
  order_id = 0;
  price = pos 0;
  quantity = pos 0;
  hidden_quantity = pos 0;
  peak_size = pos 0;
  next = 0;
  prev = 0;
  user_id_low = 0;
  flags = 0;
}

pub record PriceLevel : Type 0 where
  pub head : ℕ
  pub tail : ℕ
  pub count : ℕ
  pub total_volume : ℤ
  pub total_visible_volume : ℤ
  pub total_aon_volume : ℤ
  pub total_non_aon_volume : ℤ

abbrev pub empty : PriceLevel → Bool
empty level = level.head == null_index

-- The state that `PriceLevel::reset` and the default member values give.
abbrev pub reset_level : PriceLevel
reset_level = record {
  head = null_index;
  tail = null_index;
  count = 0;
  total_volume = pos 0;
  total_visible_volume = pos 0;
  total_aon_volume = pos 0;
  total_non_aon_volume = pos 0;
}

pub record OrderLocation : Type 0 where
  pub price : ℤ
  pub pool_idx : ℕ
  pub flags : ℕ

abbrev pub location_is_buy : OrderLocation → Bool
location_is_buy loc = flag0 loc.flags

abbrev pub is_active : OrderLocation → Bool
is_active loc = flag1 loc.flags

abbrev pub location_set_buy : OrderLocation → Bool → OrderLocation
location_set_buy loc v = record loc { flags = set_flag0 loc.flags v }

abbrev pub set_active : OrderLocation → Bool → OrderLocation
set_active loc v = record loc { flags = set_flag1 loc.flags v }

abbrev pub default_location : OrderLocation
default_location = record { price = pos 0; pool_idx = 0; flags = 0 }
