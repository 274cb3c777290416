-- ===== src/Book/Add.antt =====
-- order_book.h, the three methods that rest an order: plain, iceberg, all-or-none.
pub mod Rest
use titan_lob.Prelude.{
  ℕ, ◌+◌, ◌%◌, ◌^◌, Bool, true, false, leb, if◌then◌else◌, ℤ, pos, ◌-ℤ◌, min_ℤ, update,
}
use titan_lob.Bitmap.{max_price_levels}
use titan_lob.Pool
use titan_lob.Pool.{ObjectPool, null_index}
use titan_lob.Protocol.{bool_to_side}
use titan_lob.Book.Types.{
  Order, default_order, set_buy, set_aon, PriceLevel, empty, OrderLocation, location_set_buy,
  set_active,
}
use titan_lob.Book.State.{
  BookSide, OrderIndex, Emitter, Book, price_to_index, own_side, ensure_capacity,
}
use titan_lob.Book.Links.{list_push_back, count_up}
use titan_lob.Book.Volume.{add_to_level_volume}
use titan_lob.Book.Best.{update_best_bid_after_add, update_best_ask_after_add}
use titan_lob.Book.Emit.{count_64, emit_order_accepted}

abbrev pub set_side : Bool → Book → BookSide → Book
set_side is_buy b s = if is_buy then record b { bid = s } else record b { ask = s }

abbrev pub update_best_after_add : Bool → BookSide → ℤ → BookSide
update_best_after_add is_buy s price =
    if is_buy then update_best_bid_after_add s price else update_best_ask_after_add s price

-- The side after its level `price_idx` has become `level`.
unfoldable pub put_level : Bool → BookSide → ℤ → (was_empty : Bool) → PriceLevel → BookSide
unfolding update
put_level is_buy s price was_empty level =
    let s' : BookSide = record s { levels = update s.levels (price_to_index price) level } in
    if was_empty
    then update_best_after_add is_buy (record s' { level_count = count_up s'.level_count }) price
    else s'

unfoldable pub index_order : OrderIndex → ℕ → Bool → ℤ → ℕ → OrderIndex
unfolding ensure_capacity update
index_order x order_id is_buy price idx =
    let x' : OrderIndex = ensure_capacity x order_id in
    let loc : OrderLocation = record { price = price; pool_idx = idx; flags = 0 } in
    record x' {
      location = update x'.location order_id (set_active (location_set_buy loc is_buy) true);
      active_order_count = count_64 x'.active_order_count 1;
    }

-- `Order& order = order_pool_[idx]` and the assignments to its fields.
unfoldable pub write_order : ObjectPool Order → ℕ → Order → ObjectPool Order
unfolding update
write_order p idx order = record p { pool = update p.pool idx order }

-- The part that the three methods share, from `allocate` to the update of the index: they differ in
-- the fields of the order that they write.
unfoldable pub rest_order : Book → Bool → Order → Book
rest_order b is_buy order =
    let s : BookSide = own_side is_buy b in
    let level : PriceLevel = s.levels (price_to_index order.price) in
    let (idx, p) = Pool.allocate default_order b.order_pool in
    let (p', linked) = list_push_back (write_order p idx order) level idx in
    let level' : PriceLevel = add_to_level_volume linked (p'.pool idx) in
    record (set_side is_buy b (put_level is_buy s order.price (empty level) level')) {
      order_pool = p';
      index = index_order b.index order.order_id is_buy order.price idx;
    }

-- The fields of a new order.
abbrev pub make_order :
    (order_id : ℕ) (is_buy : Bool) (price quantity hidden_quantity peak_size : ℤ) (user_id : ℕ)
    → (aon : Bool) → Order
make_order order_id is_buy price quantity hidden_quantity peak_size user_id aon =
    let order : Order = record {
      order_id = order_id;
      price = price;
      quantity = quantity;
      hidden_quantity = hidden_quantity;
      peak_size = peak_size;
      next = null_index;
      prev = null_index;
      user_id_low = user_id;
      flags = 0;
    } in
    set_aon (set_buy order is_buy) aon

abbrev pub accept : Book → ℕ → Bool → ℤ → ℤ → Book
accept b order_id is_buy price qty = record b {
  out = emit_order_accepted b.out order_id (bool_to_side is_buy) price qty;
}

unfoldable pub add_order_internal :
    Book → (order_id : ℕ) (is_buy : Bool) (price quantity : ℤ) (user_id : ℕ) → Book
add_order_internal b order_id is_buy price quantity user_id =
    if leb max_price_levels (price_to_index price)
    then b
    else (let order : Order =
          make_order order_id is_buy price quantity (pos 0) (pos 0) user_id false in
        accept (rest_order b is_buy order) order_id is_buy price quantity)

unfoldable pub add_iceberg_internal :
    Book
    → (order_id : ℕ) (is_buy : Bool) (price total_quantity visible_quantity : ℤ) (user_id : ℕ)
    → Book
add_iceberg_internal b order_id is_buy price total_quantity visible_quantity user_id =
    if leb max_price_levels (price_to_index price)
    then b
    else (let display_qty : ℤ = min_ℤ visible_quantity total_quantity in
        let hidden_qty : ℤ = total_quantity -ℤ display_qty in
        let order : Order =
          make_order order_id is_buy price display_qty hidden_qty visible_quantity user_id false in
        accept (rest_order b is_buy order) order_id is_buy price display_qty)

unfoldable pub add_aon_internal :
    Book → (order_id : ℕ) (is_buy : Bool) (price quantity : ℤ) (user_id : ℕ) → Book
add_aon_internal b order_id is_buy price quantity user_id =
    if leb max_price_levels (price_to_index price)
    then b
    else (let order : Order =
          make_order order_id is_buy price quantity (pos 0) (pos 0) user_id true in
        accept (rest_order b is_buy order) order_id is_buy price quantity)
