-- ===== src/Book/Cancel.antt =====
-- order_book.h, `cancel_order_internal` and `modify_order_internal`.
pub mod Volume
pub mod Branches
use titan_lob.Prelude.{
  ℕ, ◌+◌, ◌-◌, ◌%◌, ◌^◌, Bool, false, not, ◌&&◌, ◌||◌, leb, if◌then◌else◌, ℤ, pos, ◌+ℤ◌, ◌-ℤ◌,
  leb_ℤ, eqb_ℤ, update,
}
use titan_lob.Bitmap.{max_price_levels}
use titan_lob.Pool
use titan_lob.Pool.{ObjectPool}
use titan_lob.Book.Types.{
  Order, default_order, is_aon, PriceLevel, empty, OrderLocation, location_is_buy, is_active,
  set_active,
}
use titan_lob.Book.State.{BookSide, OrderIndex, Book, price_to_index, own_side}
use titan_lob.Book.Links.{list_remove, count_down}
use titan_lob.Book.Volume.{remove_from_level_volume, adjust_level_volume}
use titan_lob.Book.Best.{update_best_bid_after_remove, update_best_ask_after_remove}
use titan_lob.Book.Emit.{emit_order_cancelled}
use titan_lob.Book.Add.{set_side, add_order_internal}

abbrev pub update_best_after_remove : Bool → BookSide → ℤ → BookSide
update_best_after_remove is_buy s price =
    if is_buy then update_best_bid_after_remove s price else update_best_ask_after_remove s price

-- `active_order_count_--` on a `size_t`
abbrev pub count_down_64 : ℕ → ℕ
count_down_64 n = (n + 2 ^ 64 - 1) % 2 ^ 64

-- The side after its level at `price` has become `level`: an empty level leaves the counts.
unfoldable pub take_level : Bool → BookSide → ℤ → PriceLevel → BookSide
unfolding update
take_level is_buy s price level =
    let s' : BookSide = record s { levels = update s.levels (price_to_index price) level } in
    if empty level
    then update_best_after_remove is_buy (record s' { level_count = count_down s'.level_count })
        price
    else s'

-- `set_active(false)` and `active_order_count_--`
unfoldable pub deactivate : OrderIndex → ℕ → OrderIndex
unfolding update
deactivate x order_id = record x {
  location = update x.location order_id (set_active (x.location order_id) false);
  active_order_count = count_down_64 x.active_order_count;
}

-- What `cancel_order_internal` does past its guards.
unfoldable pub cancel_active : Book → ℕ → Book
cancel_active b order_id =
    let loc : OrderLocation = b.index.location order_id in
    let is_buy : Bool = location_is_buy loc in
    let s : BookSide = own_side is_buy b in
    let level : PriceLevel = s.levels (price_to_index loc.price) in
    let order : Order = b.order_pool.pool loc.pool_idx in
    let cancelled_qty : ℤ = order.quantity +ℤ order.hidden_quantity in
    let (p, level') =
      list_remove b.order_pool (remove_from_level_volume level order) loc.pool_idx in
    record (set_side is_buy b (take_level is_buy s loc.price level')) {
      order_pool = Pool.free default_order p loc.pool_idx;
      index = deactivate b.index order_id;
      out = emit_order_cancelled b.out order_id cancelled_qty;
    }

-- The guards of both methods: the order is known, active, and at a price of the book.
abbrev pub is_cancellable : Book → ℕ → Bool
is_cancellable b order_id =
    let loc : OrderLocation = b.index.location order_id in
    not (leb b.index.size order_id || not (is_active loc))
    && not (leb max_price_levels (price_to_index loc.price))

unfoldable pub cancel_order_internal : Book → ℕ → Book
cancel_order_internal b order_id = if is_cancellable b order_id then cancel_active b order_id else b

unfoldable pub modify_order_internal : Book → ℕ → (new_price new_quantity : ℤ) → Book
unfolding update
modify_order_internal b order_id new_price new_quantity =
    let loc : OrderLocation = b.index.location order_id in
    let is_buy : Bool = location_is_buy loc in
    let s : BookSide = own_side is_buy b in
    let idx : ℕ = price_to_index loc.price in
    let order : Order = b.order_pool.pool loc.pool_idx in
    let delta : ℤ = new_quantity -ℤ order.quantity in
    if not (is_cancellable b order_id)
    then b
    else if eqb_ℤ new_price loc.price && leb_ℤ new_quantity order.quantity
    then record (set_side is_buy b (record s {
      levels =
          update s.levels idx (adjust_level_volume (s.levels idx) delta (pos 0) (is_aon order));
    })) {
      order_pool = record (b.order_pool) {
        pool = update b.order_pool.pool loc.pool_idx (record order { quantity = new_quantity });
      };
    }
    else add_order_internal (cancel_order_internal b order_id) order_id is_buy new_price
        new_quantity 0
