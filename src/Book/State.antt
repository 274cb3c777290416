-- ===== src/Book/State.antt =====
-- The members of `OptimizedOrderBook`. What the class holds twice, for bids and for asks, is a
-- `BookSide`; its `order_index_` and the counters beside it are an `OrderIndex`; what it emits goes
-- through an `Emitter`. The mutex is left out: each public method holds it from its first line on, so
-- that methods follow one another.
use titan_lob.Prelude.{
  ℕ, ◌+◌, ◌-◌, ◌*◌, ◌%◌, ◌^◌, Bool, true, ltb, leb, if◌then◌else◌, ℤ, pos, negsuc,
}
use titan_lob.Bitmap.{Words}
use titan_lob.Pool
use titan_lob.Pool.{ObjectPool}
use titan_lob.Ring
use titan_lob.Ring.{RingBuffer}
use titan_lob.Protocol.Messages.{int64_max}
use titan_lob.Protocol.Output.{OutputMsg, make_cancelled}
use titan_lob.Book.Types.{
  Order, default_order, PriceLevel, reset_level, OrderLocation, default_location,
}

abbrev pub batch_size : ℕ
batch_size = 64

abbrev pub initial_order_capacity : ℕ
initial_order_capacity = 5000000

pub record BookSide : Type 0 where
  pub levels : ℕ → PriceLevel
  pub bitmap : Words
  pub best : ℤ
  pub best_word : ℤ
  pub level_count : ℕ

pub record OrderIndex : Type 0 where
  pub location : ℕ → OrderLocation
  pub size : ℕ
  pub active_order_count : ℕ
  pub max_order_id : ℕ

pub record Emitter : Type 0 where
  pub output_buffer : RingBuffer OutputMsg
  pub use_ring_buffer : Bool
  pub emit_accepts : Bool
  pub emit_cancels : Bool
  pub batch_buffer : ℕ → OutputMsg
  pub batch_count : ℕ
  pub current_timestamp : ℕ
  pub messages_processed : ℕ
  pub trades_executed : ℕ
  pub messages_dropped : ℕ

pub record Book : Type 0 where
  pub bid : BookSide
  pub ask : BookSide
  pub order_pool : ObjectPool Order
  pub index : OrderIndex
  pub out : Emitter

-- `-1`, the best bid where there is no bid
abbrev pub no_bid : ℤ
no_bid = negsuc 0

-- PRICE_OFFSET is 0; the cast of a negative price to `size_t` adds 2^64.
abbrev pub price_to_index : ℤ → ℕ
price_to_index (pos n) = n
price_to_index (negsuc n) = 2 ^ 64 - 1 - n

abbrev pub index_to_price : ℤ → ℤ
index_to_price idx = idx

-- `is_buy ? bid_levels_ : ask_levels_` and its like
abbrev pub own_side : Bool → Book → BookSide
own_side is_buy b = if is_buy then b.bid else b.ask

abbrev pub other_side : Bool → Book → BookSide
other_side is_buy b = if is_buy then b.ask else b.bid

-- `std::vector::resize` fills with default values.
abbrev pub resize : OrderIndex → ℕ → OrderIndex
resize x n = record x {
  location = λ i. if ltb i x.size then x.location i else default_location;
  size = n;
}

-- `std::max`
abbrev pub max_size : ℕ → ℕ → ℕ
max_size a b = if ltb a b then b else a

unfoldable pub ensure_capacity : OrderIndex → ℕ → OrderIndex
ensure_capacity x order_id =
    let grown : OrderIndex =
      if leb x.size order_id
      then resize x (max_size ((order_id + 1) % 2 ^ 64) (x.size * 2 % 2 ^ 64))
      else x in
    if ltb grown.max_order_id order_id then record grown { max_order_id = order_id } else grown

abbrev pub new_bid : BookSide
new_bid = record {
  levels = λ _. reset_level;
  bitmap = λ _. 0;
  best = no_bid;
  best_word = negsuc 0;
  level_count = 0;
}

abbrev pub new_ask : BookSide
new_ask = record {
  levels = λ _. reset_level;
  bitmap = λ _. 0;
  best = int64_max;
  best_word = pos 0;
  level_count = 0;
}

abbrev pub default_msg : OutputMsg
default_msg = make_cancelled 0 0 (pos 0)

-- The constructor.
unfoldable pub new : ℕ → Book
new order_capacity = record {
  bid = new_bid;
  ask = new_ask;
  order_pool = Pool.new default_order order_capacity;
  index = record {
    location = λ _. default_location;
    size = initial_order_capacity;
    active_order_count = 0;
    max_order_id = 0;
  };
  out = record {
    output_buffer = Ring.new default_msg;
    use_ring_buffer = true;
    emit_accepts = true;
    emit_cancels = true;
    batch_buffer = λ _. default_msg;
    batch_count = 0;
    current_timestamp = 0;
    messages_processed = 0;
    trades_executed = 0;
    messages_dropped = 0;
  };
}
