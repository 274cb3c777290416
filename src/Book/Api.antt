-- ===== src/Book/Api.antt =====
-- order_book.h, the public methods of `OptimizedOrderBook`. Those that match take the fuel of
-- `match_internal`. The variants with `_no_lock` have the bodies of the others, without the lock.
pub mod Blocked
pub mod Snapshot
use titan_lob.Prelude.{
  ℕ, zero, suc, ◌+◌, Bool, true, false, not, ◌&&◌, if◌then◌else◌, Option, none, some, List, [], ◌∷◌,
  ℤ, pos, ltb_ℤ, leb_ℤ, eqb_ℤ, ltb,
}
use titan_lob.Bitmap.{max_price_levels}
use titan_lob.Pool
use titan_lob.Ring
use titan_lob.Protocol.Messages.{int64_max}
use titan_lob.Book.Types.{
  TimeInForce, gtc, Order, default_order, PriceLevel, reset_level, OrderLocation, set_active,
}
use titan_lob.Book.State.{
  BookSide, OrderIndex, Emitter, Book, no_bid, price_to_index, new_bid, new_ask,
}
use titan_lob.Book.Emit.{flush_batch}
use titan_lob.Book.Add.{add_order_internal}
use titan_lob.Book.Cancel.{cancel_order_internal}
use titan_lob.Book.Match.{match_internal}

-- whether a new order meets the other side
abbrev pub is_aggressive : Book → Bool → ℤ → Bool
is_aggressive b is_buy price =
    if is_buy
    then not (eqb_ℤ b.ask.best int64_max) && leb_ℤ b.ask.best price
    else leb_ℤ (pos 0) b.bid.best && leb_ℤ price b.bid.best

abbrev book_of : Option (Book × ℕ) → Option Book
book_of none = none
book_of (some (b, _)) = some b

unfoldable pub add_order :
    (fuel : ℕ)
    → Book
    → (order_id : ℕ) (is_buy : Bool) (price quantity : ℤ) (user_id : ℕ) → Option Book
add_order fuel b order_id is_buy price quantity user_id =
    if is_aggressive b is_buy price
    then book_of (match_internal fuel b order_id is_buy price quantity gtc)
    else some (add_order_internal b order_id is_buy price quantity user_id)

unfoldable pub add_order_no_lock :
    (fuel : ℕ)
    → Book
    → (order_id : ℕ) (is_buy : Bool) (price quantity : ℤ) (user_id : ℕ) → Option Book
add_order_no_lock fuel b order_id is_buy price quantity user_id =
    if is_aggressive b is_buy price
    then book_of (match_internal fuel b order_id is_buy price quantity gtc)
    else some (add_order_internal b order_id is_buy price quantity user_id)

unfoldable pub cancel_order : Book → ℕ → Book
cancel_order b order_id = cancel_order_internal b order_id

unfoldable pub cancel_order_no_lock : Book → ℕ → Book
cancel_order_no_lock b order_id = cancel_order_internal b order_id

unfoldable pub match_order :
    (fuel : ℕ)
    → Book
    → (order_id : ℕ) (is_buy : Bool) (price quantity : ℤ) → TimeInForce
    → Option Book
match_order fuel b order_id is_buy price quantity tif =
    book_of (match_internal fuel b order_id is_buy price quantity tif)

-- The loop `for (i = 0; i <= max_order_id_ && i < order_index_.size(); ++i)` that ends
-- `reset_internal`.
unfoldable pub deactivate_all : OrderIndex → OrderIndex
deactivate_all x = record x {
  location = λ i.
      if not (ltb x.max_order_id i) && ltb i x.size
      then set_active (x.location i) false
      else x.location i;
  active_order_count = 0;
}

unfoldable pub reset_internal : Book → Book
unfolding deactivate_all
reset_internal b = record b {
  bid = new_bid;
  ask = new_ask;
  order_pool = Pool.reset default_order b.order_pool;
  index = deactivate_all b.index;
}

-- The setters of the output flags.
unfoldable pub use_ring_buffer_output : Book → Bool → Book
use_ring_buffer_output b enable = record b { out = record (b.out) { use_ring_buffer = enable } }

unfoldable pub set_benchmark_mode : Book → Bool → Book
set_benchmark_mode b trades_only = record b {
  out = record (b.out) { emit_accepts = not trades_only; emit_cancels = not trades_only };
}

unfoldable pub set_emit_accepts : Book → Bool → Book
set_emit_accepts b enable = record b { out = record (b.out) { emit_accepts = enable } }

unfoldable pub set_emit_cancels : Book → Bool → Book
set_emit_cancels b enable = record b { out = record (b.out) { emit_cancels = enable } }

unfoldable pub flush_output_buffer : Book → Book
flush_output_buffer b = record b { out = flush_batch b.out }

unfoldable pub get_best_bid : Book → ℤ
get_best_bid b = if leb_ℤ (pos 0) b.bid.best then b.bid.best else pos 0

unfoldable pub get_best_ask : Book → ℤ
get_best_ask b = b.ask.best

unfoldable pub get_best_bid_volume : Book → ℤ
get_best_bid_volume b =
    if ltb_ℤ b.bid.best (pos 0)
    then pos 0
    else (b.bid.levels (price_to_index b.bid.best)).total_visible_volume

unfoldable pub get_best_ask_volume : Book → ℤ
get_best_ask_volume b =
    if eqb_ℤ b.ask.best int64_max
    then pos 0
    else (b.ask.levels (price_to_index b.ask.best)).total_visible_volume

-- The levels with a visible volume among `n` from index `i` on, with their prices, in ascending
-- order: the iteration order of `std::map<int64_t, int64_t>`.
unfoldable pub snapshot_from : (ℕ → PriceLevel) → (i n : ℕ) → List (ℤ × ℤ)
snapshot_from levels i zero = []
snapshot_from levels i (suc n) =
    let rest = snapshot_from levels (i + 1) n in
    if ltb_ℤ (pos 0) (levels i).total_visible_volume
    then (pos i, (levels i).total_visible_volume) ∷ rest
    else rest

-- The same in descending order, as `std::greater` has it.
unfoldable pub snapshot_down : (ℕ → PriceLevel) → (n : ℕ) → List (ℤ × ℤ)
snapshot_down levels zero = []
snapshot_down levels (suc i) =
    let rest = snapshot_down levels i in
    if ltb_ℤ (pos 0) (levels i).total_visible_volume
    then (pos i, (levels i).total_visible_volume) ∷ rest
    else rest

unfoldable pub get_bids_snapshot : Book → List (ℤ × ℤ)
get_bids_snapshot b = snapshot_down b.bid.levels max_price_levels

unfoldable pub get_asks_snapshot : Book → List (ℤ × ℤ)
get_asks_snapshot b = snapshot_from b.ask.levels 0 max_price_levels

-- The counters.
unfoldable pub messages_processed : Book → ℕ
messages_processed b = b.out.messages_processed

unfoldable pub trades_executed : Book → ℕ
trades_executed b = b.out.trades_executed

unfoldable pub messages_dropped : Book → ℕ
messages_dropped b = b.out.messages_dropped

unfoldable pub order_count : Book → ℕ
order_count b = b.index.active_order_count

unfoldable pub bid_levels : Book → ℕ
bid_levels b = b.bid.level_count

unfoldable pub ask_levels : Book → ℕ
ask_levels b = b.ask.level_count

unfoldable pub pool_capacity : Book → ℕ
pool_capacity b = Pool.capacity b.order_pool

unfoldable pub pool_used : Book → ℕ
pool_used b = Pool.used_count b.order_pool

unfoldable pub output_buffer_size : Book → ℕ
output_buffer_size b = Ring.size_approx b.out.output_buffer
