-- ===== src/Book/Add/Rest.antt =====
-- What resting an order adds to its side of the book.
use titan_lob.Prelude.{
  ℕ, ◌<◌, ◌≡◌, refl, ap, ◌∙◌, Bool, true, false, leb, arith, ℤ, pos, ◌+ℤ◌, ◌-ℤ◌, min_ℤ, int_laws,
  parts_of_eq,
}
use titan_lob.Bitmap.{max_price_levels}
use titan_lob.Pool
use titan_lob.Pool.{ObjectPool}
use titan_lob.Book.Types.{Order, default_order, total_quantity, PriceLevel, empty}
use titan_lob.Book.State.{BookSide, Book, price_to_index, own_side, other_side}
use titan_lob.Book.Links.{list_push_back}
use titan_lob.Book.Links.Chain.{list_push_back-OnlyLinks}
use titan_lob.Book.Volume.{add_to_level_volume}
use titan_lob.Book.Volume.Sums.{add_to_level_volume_lem}
use titan_lob.Book.Volume.Side.{sum_volume-update, side_volume}
use titan_lob.Book.Best.Tracked.{SameLevels, bid_add-SameLevels, ask_add-SameLevels}
use titan_lob.Book.Add.{
  update_best_after_add, put_level, write_order, rest_order, make_order, add_order_internal,
  add_iceberg_internal, add_aon_internal,
}

pub add-SameLevels :
    (is_buy : Bool) (s : BookSide) (price : ℤ) → SameLevels s (update_best_after_add is_buy s price)
add-SameLevels true s price = bid_add-SameLevels s price
add-SameLevels false s price = ask_add-SameLevels s price

put_level-side_volume :
    (is_buy was_empty : Bool) (s : BookSide) (price : ℤ) (l : PriceLevel)
    → price_to_index price < max_price_levels
    → side_volume (put_level is_buy s price was_empty l)
      ≡ side_volume s +ℤ (l.total_volume -ℤ (s.levels (price_to_index price)).total_volume)
unfolding put_level side_volume
put_level-side_volume is_buy true s price l h =
    rw (add-SameLevels is_buy _ price).levels
      (sum_volume-update s.levels (price_to_index price) max_price_levels l h)
put_level-side_volume is_buy false s price l h =
    sum_volume-update s.levels (price_to_index price) max_price_levels l h

pub write_order_self :
    (p : ObjectPool Order) (idx : ℕ) (o : Order) → (write_order p idx o).pool idx ≡ o
unfolding write_order
write_order_self p idx o = ground arith

-- The level gains the order's quantity.
linked_volume :
    (p : ObjectPool Order) (level : PriceLevel) (idx : ℕ) (o : Order)
    → let (p', linked) = list_push_back (write_order p idx o) level idx in
      (add_to_level_volume linked (p'.pool idx)).total_volume
      ≡ level.total_volume +ℤ total_quantity o
linked_volume p level idx o =
    let (p', linked) = list_push_back (write_order p idx o) level idx in
    let links = list_push_back-OnlyLinks (write_order p idx o) level idx in
    let same = links.0.data_of idx in
    (add_to_level_volume_lem linked (p'.pool idx)).volume
    ∙ rw (links.1.total, same.quantity, same.hidden_quantity, write_order_self p idx o)

-- A resting order adds its quantity to its side's volume, and leaves the other side alone.
pub rest_order-side_volume :
    (b : Book) (is_buy : Bool) (order : Order)
    → price_to_index order.price < max_price_levels
    → (side_volume (own_side is_buy (rest_order b is_buy order))
        ≡ side_volume (own_side is_buy b) +ℤ total_quantity order)
      × (other_side is_buy (rest_order b is_buy order) ≡ other_side is_buy b)
unfolding rest_order
rest_order-side_volume b true order h =
    let (idx, p) = Pool.allocate default_order b.order_pool in
    let level : PriceLevel = b.bid.levels (price_to_index order.price) in
    let gain = parts_of_eq (linked_volume p level idx order) in
    (put_level-side_volume true (empty level) b.bid order.price _ h ∙ omega (int_laws, gain), refl)
rest_order-side_volume b false order h =
    let (idx, p) = Pool.allocate default_order b.order_pool in
    let level : PriceLevel = b.ask.levels (price_to_index order.price) in
    let gain = parts_of_eq (linked_volume p level idx order) in
    (put_level-side_volume false (empty level) b.ask order.price _ h ∙ omega (int_laws, gain), refl)

-- The own side has gained `qty`, and the other side is as it was.
pub record Rested (is_buy : Bool) (b b' : Book) (qty : ℤ) : Type 0 where
  pub gained : side_volume (own_side is_buy b') ≡ side_volume (own_side is_buy b) +ℤ qty
  pub other : other_side is_buy b' ≡ other_side is_buy b

rest_order-Rested :
    (b b' : Book) (is_buy : Bool) (order : Order) (qty : ℤ)
    → price_to_index order.price < max_price_levels
    → total_quantity order ≡ qty
    → own_side is_buy b' ≡ own_side is_buy (rest_order b is_buy order)
    → other_side is_buy b' ≡ other_side is_buy (rest_order b is_buy order)
    → Rested is_buy b b' qty
rest_order-Rested b b' is_buy order qty h total own other = record {
  gained =
      ap side_volume own
      ∙ (rest_order-side_volume b is_buy order h).0
      ∙ ap (λ q. side_volume (own_side is_buy b) +ℤ q) total;
  other = other ∙ (rest_order-side_volume b is_buy order h).1;
}

in_book :
    (price : ℤ)
    → price_to_index price < max_price_levels
    → leb max_price_levels (price_to_index price) ≡ false
in_book price h = ground arith

-- The three methods, at a price of the book, add the quantity that they are given to the volume of
-- the order's side, visible and hidden parts together, and leave the other side alone.
pub adds-Rested :
    (b : Book) (order_id : ℕ) (is_buy : Bool) (price quantity visible : ℤ) (user_id : ℕ)
    → price_to_index price < max_price_levels
    → Rested is_buy b (add_order_internal b order_id is_buy price quantity user_id) quantity
      × Rested is_buy b
          (add_iceberg_internal b order_id is_buy price quantity visible user_id)
          quantity
      × Rested is_buy b (add_aon_internal b order_id is_buy price quantity user_id) quantity
unfolding add_order_internal add_iceberg_internal add_aon_internal
adds-Rested b order_id true price quantity visible user_id h = rw (in_book price h) (
  rest_order-Rested b _ true (make_order order_id true price quantity (pos 0) (pos 0) user_id false)
      quantity h (omega int_laws) refl refl,
  rest_order-Rested b _ true
      (make_order order_id true price (min_ℤ visible quantity) (quantity -ℤ min_ℤ visible quantity)
        visible user_id false)
      quantity h (omega int_laws) refl refl,
  rest_order-Rested b _ true (make_order order_id true price quantity (pos 0) (pos 0) user_id true)
      quantity h (omega int_laws) refl refl,
)
adds-Rested b order_id false price quantity visible user_id h = rw (in_book price h) (
  rest_order-Rested b _ false
      (make_order order_id false price quantity (pos 0) (pos 0) user_id false) quantity h
      (omega int_laws) refl refl,
  rest_order-Rested b _ false
      (make_order order_id false price (min_ℤ visible quantity) (quantity -ℤ min_ℤ visible quantity)
        visible user_id false)
      quantity h (omega int_laws) refl refl,
  rest_order-Rested b _ false
      (make_order order_id false price quantity (pos 0) (pos 0) user_id true) quantity h
      (omega int_laws) refl refl,
)
