-- ===== src/Book/Match.antt =====
-- order_book.h, `match_internal`. Both loops take fuel: `none` means that it ran out, so that a
-- match which gives `none` at every fuel does not end.
pub mod Fill
pub mod Conserve
pub mod Outcome
pub mod Rounds
pub mod Stuck
pub mod Walking
pub mod Level
pub mod Shrinks
pub mod Ends
use titan_lob.Prelude.{
  ℕ, zero, suc, Bool, true, false, not, ◌&&◌, ◌||◌, ltb, leb, ◌==◌, if◌then◌else◌, Option, none,
  some, ℤ, pos, ◌-ℤ◌, ltb_ℤ, leb_ℤ, eqb_ℤ, min_ℤ, update,
}
use titan_lob.Bitmap.{max_price_levels}
use titan_lob.Pool
use titan_lob.Pool.{ObjectPool, null_index}
use titan_lob.Protocol.Messages.{int64_max}
use titan_lob.Book.Types.{
  TimeInForce, gtc, ioc, fok, aon, Order, default_order, is_aon, total_quantity, PriceLevel, empty,
  OrderLocation,
}
use titan_lob.Book.State.{BookSide, OrderIndex, Emitter, Book, price_to_index, other_side}
use titan_lob.Book.Links.{list_push_back, list_remove, count_down}
use titan_lob.Book.Volume.{add_to_level_volume, remove_from_level_volume, adjust_level_volume}
use titan_lob.Book.Emit.{emit_trade, count_64}
use titan_lob.Book.Add.{write_order, set_side, add_order_internal, add_aon_internal}
use titan_lob.Book.Cancel.{update_best_after_remove, deactivate, take_level}
use titan_lob.Book.Available.{calculate_available_quantity}

-- What the walk over a level's orders changes.
pub record Walk : Type 0 where
  pub level : PriceLevel
  pub order_pool : ObjectPool Order
  pub index : OrderIndex
  pub out : Emitter
  pub remaining_qty : ℤ
  pub trade_count : ℕ

-- The incoming order: what stays the same during a match.
pub record Incoming : Type 0 where
  pub order_id : ℕ
  pub is_buy : Bool
  pub price : ℤ

-- An iceberg order whose visible part is gone shows its next part, behind the others.
unfoldable pub replenish_order : Walk → ℕ → Walk
unfolding write_order update
replenish_order w curr =
    let order : Order = w.order_pool.pool curr in
    let replenish : ℤ =
      min_ℤ (if ltb_ℤ (pos 0) order.peak_size then order.peak_size else order.hidden_quantity)
        order.hidden_quantity in
    let (p1, level1) = list_remove w.order_pool (remove_from_level_volume w.level order) curr in
    let p2 : ObjectPool Order = write_order p1 curr (record (p1.pool curr) {
      quantity = replenish;
      hidden_quantity = order.hidden_quantity -ℤ replenish;
    }) in
    let (p3, level3) = list_push_back p2 level1 curr in
    let loc : OrderLocation = w.index.location order.order_id in
    record w {
      level = add_to_level_volume level3 (p3.pool curr);
      order_pool = p3;
      index =
          if ltb order.order_id w.index.size
          then record (w.index) {
            location = update w.index.location order.order_id (record loc { pool_idx = curr });
          }
          else w.index;
    }

-- An order with nothing left is taken out of the book.
unfoldable pub remove_order : Walk → ℕ → Walk
unfolding deactivate
remove_order w curr =
    let order_id : ℕ = (w.order_pool.pool curr).order_id in
    let (p1, level1) = list_remove w.order_pool w.level curr in
    record w {
      level = level1;
      order_pool = Pool.free default_order p1 curr;
      index = if ltb order_id w.index.size then deactivate w.index order_id else w.index;
    }

-- The trade with the order at `curr`: its message, and what it takes from both orders.
unfoldable pub trade_with : Incoming → (current_best : ℤ) → ℕ → Walk → Walk
unfolding write_order
trade_with inc current_best curr w =
    let order : Order = w.order_pool.pool curr in
    let trade_qty : ℤ = min_ℤ w.remaining_qty order.quantity in
    let buy_id : ℕ = if inc.is_buy then inc.order_id else order.order_id in
    let sell_id : ℕ = if inc.is_buy then order.order_id else inc.order_id in
    record w {
      out = emit_trade w.out buy_id sell_id current_best trade_qty;
      trade_count = count_64 w.trade_count 1;
      remaining_qty = w.remaining_qty -ℤ trade_qty;
      level = adjust_level_volume w.level (pos 0 -ℤ trade_qty) (pos 0) (is_aon order);
      order_pool =
          write_order w.order_pool curr (record order { quantity = order.quantity -ℤ trade_qty });
    }

-- What happens to the order at `curr` after its trade.
unfoldable pub settle_order : ℕ → Walk → Walk
settle_order curr w =
    let order : Order = w.order_pool.pool curr in
    if not (eqb_ℤ order.quantity (pos 0))
    then w
    else if ltb_ℤ (pos 0) order.hidden_quantity
    then replenish_order w curr
    else remove_order w curr

-- One round of the inner loop: an all-or-none order that cannot be filled whole is passed over.
unfoldable pub visit_order : Incoming → (current_best : ℤ) → ℕ → Walk → Walk
visit_order inc current_best curr w =
    let order : Order = w.order_pool.pool curr in
    if is_aon order && ltb_ℤ w.remaining_qty (total_quantity order)
    then w
    else settle_order curr (trade_with inc current_best curr w)

-- `while (curr != NULL_INDEX && remaining_qty > 0)`; `next_idx` is read before the round.
unfoldable pub match_level : (fuel : ℕ) → Incoming → (current_best : ℤ) → ℕ → Walk → Option Walk
match_level zero inc current_best curr w = none
match_level (suc fuel) inc current_best curr w =
    let next_idx : ℕ = (w.order_pool.pool curr).next in
    let rest = match_level fuel inc current_best next_idx (visit_order inc current_best curr w) in
    if not (curr == null_index) && ltb_ℤ (pos 0) w.remaining_qty then rest else some w

-- The locals of the outer loop, with the book.
pub record Progress : Type 0 where
  pub book : Book
  pub remaining_qty : ℤ
  pub trade_count : ℕ

abbrev pub opposite_side_empty : Bool → Book → Bool
opposite_side_empty is_buy b =
    if is_buy then eqb_ℤ b.ask.best int64_max else ltb_ℤ b.bid.best (pos 0)

-- `best_price > price` for a buy, `best_price < price` for a sell
abbrev pub is_worse : Incoming → ℤ → Bool
is_worse inc best_price =
    if inc.is_buy then ltb_ℤ inc.price best_price else ltb_ℤ best_price inc.price

abbrev pub start_walk : Incoming → Progress → Walk
start_walk inc s = record {
  level =
      (other_side inc.is_buy s.book).levels (price_to_index (other_side inc.is_buy s.book).best);
  order_pool = s.book.order_pool;
  index = s.book.index;
  out = s.book.out;
  remaining_qty = s.remaining_qty;
  trade_count = s.trade_count;
}

-- The book after the walk over the level at `current_best`.
unfoldable pub finish_walk : Incoming → Progress → (current_best : ℤ) → Walk → Progress
finish_walk inc s current_best w =
    let side : BookSide = other_side inc.is_buy s.book in
    record {
      book =
          record (set_side (not inc.is_buy) s.book
            (take_level (not inc.is_buy) side current_best w.level)) {
              order_pool = w.order_pool;
              index = w.index;
              out = w.out;
            };
      remaining_qty = w.remaining_qty;
      trade_count = w.trade_count;
    }

-- The round of the outer loop at an empty level.
unfoldable pub skip_level : Incoming → Progress → Progress
skip_level inc s =
    let side : BookSide = other_side inc.is_buy s.book in
    record s {
      book =
          set_side (not inc.is_buy) s.book
            (update_best_after_remove (not inc.is_buy) side side.best);
    }

-- The outer loop; `side_empty` is the local `opposite_side_empty`, which the round at an empty level
-- does not compute again.
unfoldable pub match_loop : (fuel : ℕ) → Incoming → (side_empty : Bool) → Progress → Option Progress
match_loop zero inc side_empty s = none
match_loop (suc fuel) inc side_empty s =
    let best_price : ℤ = (other_side inc.is_buy s.book).best in
    let level : PriceLevel = (other_side inc.is_buy s.book).levels (price_to_index best_price) in
    elim (ltb_ℤ (pos 0) s.remaining_qty && not side_empty) [
      | false ↦ some s
      | true ↦ elim (is_worse inc best_price || leb max_price_levels (price_to_index best_price)) [
        | true ↦ some s
        | false ↦ elim (empty level) [
          | true ↦ match_loop fuel inc side_empty (skip_level inc s)
          | false ↦ elim (match_level fuel inc best_price level.head (start_walk inc s)) [
            | none ↦ none
            | some w ↦
                let s' : Progress = finish_walk inc s best_price w in
                match_loop fuel inc (opposite_side_empty inc.is_buy s'.book) s'
          ]
        ]
      ]
    ]

-- The end of the method: what is left rests, or is dropped.
unfoldable pub rest_remainder : Incoming → TimeInForce → Progress → Book
rest_remainder inc gtc s =
    if ltb_ℤ (pos 0) s.remaining_qty
    then add_order_internal s.book inc.order_id inc.is_buy inc.price s.remaining_qty 0
    else s.book
rest_remainder inc aon s =
    if ltb_ℤ (pos 0) s.remaining_qty
    then add_aon_internal s.book inc.order_id inc.is_buy inc.price s.remaining_qty 0
    else s.book
rest_remainder inc ioc s = s.book
rest_remainder inc fok s = s.book

abbrev pub incoming : ℕ → Bool → ℤ → Incoming
incoming order_id is_buy price = record { order_id = order_id; is_buy = is_buy; price = price }

abbrev pub start_progress : Book → ℤ → Progress
start_progress b quantity = record { book = b; remaining_qty = quantity; trade_count = 0 }

-- From the outer loop on: the book and the number of trades.
unfoldable pub match_rest :
    (fuel : ℕ) → Book → Incoming → (quantity : ℤ) → TimeInForce → Option (Book × ℕ)
match_rest fuel b inc quantity tif =
    elim (match_loop fuel inc (opposite_side_empty inc.is_buy b) (start_progress b quantity)) [
      | none ↦ none
      | some s ↦ some (rest_remainder inc tif s, s.trade_count)
    ]

-- The checks for fill-or-kill and for all-or-none: what to do when less is available.
unfoldable pub match_if_available :
    (fuel : ℕ)
    → Book
    → Incoming
    → (quantity : ℤ) → TimeInForce
    → (otherwise : Book) → Option (Book × ℕ)
match_if_available fuel b inc quantity tif otherwise =
    elim (calculate_available_quantity fuel b inc.is_buy inc.price quantity) [
      | none ↦ none
      | some available ↦
          if ltb_ℤ available quantity
          then some (otherwise, 0)
          else match_rest fuel b inc quantity tif
    ]

unfoldable pub match_internal :
    (fuel : ℕ)
    → Book
    → (order_id : ℕ) (is_buy : Bool) (price quantity : ℤ) → TimeInForce
    → Option (Book × ℕ)
match_internal fuel b order_id is_buy price quantity fok =
    match_if_available fuel b (incoming order_id is_buy price) quantity fok b
match_internal fuel b order_id is_buy price quantity aon =
    match_if_available fuel b (incoming order_id is_buy price) quantity aon
      (add_aon_internal b order_id is_buy price quantity 0)
match_internal fuel b order_id is_buy price quantity gtc =
    match_rest fuel b (incoming order_id is_buy price) quantity gtc
match_internal fuel b order_id is_buy price quantity ioc =
    match_rest fuel b (incoming order_id is_buy price) quantity ioc
