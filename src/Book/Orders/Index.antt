-- ===== src/Book/Orders/Index.antt =====
-- The index by order id in order_book.h, through `add_order_internal` and `cancel_order_internal`.
use titan_lob.Prelude.{
  ℕ, ◌+◌, ◌*◌, ◌^◌, ap, ◌≡◌, ◌≢◌, ◌<◌, ◌≤◌, Bool, true, false, not, ◌&&◌, ◌||◌, ◌==◌, leb, ℤ, arith,
  update, if◌then◌else◌, refl,
}
use titan_lob.Book.Types.{
  Order, is_buy, OrderLocation, default_location, location_set_buy, set_active, location_is_buy,
  is_active,
}
use titan_lob.Book.State.{OrderIndex, ensure_capacity}
use titan_lob.Book.Add.{index_order}
use titan_lob.Book.Cancel.{deactivate}
use titan_lob.Book.Cancel.Branches.{set_active-is_active}
use titan_lob.Book.Orders.{reach_of, Indexed}

-- Only the ids, prices and sides of the live orders matter, and the entries of the index.
pub Indexed-ext :
    {live live' : ℕ → Bool} {orders orders' : ℕ → Order} {x x' : OrderIndex}
    → Indexed live orders x
    → ((j : ℕ) → live' j ≡ live j)
    → ((j : ℕ) → live j ≡ true → (orders' j).order_id ≡ (orders j).order_id)
    → ((j : ℕ) → live j ≡ true → (orders' j).price ≡ (orders j).price)
    → ((j : ℕ) → live j ≡ true → (orders' j).flags ≡ (orders j).flags)
    → ((id : ℕ) → x'.location id ≡ x.location id)
    → reach_of x' ≡ reach_of x
    → Indexed live' orders' x'
Indexed-ext {orders} {orders'} {x} {x'} h l id price flags loc sizes =
    let size : x'.size ≡ x.size = ap (λ t. t.0) sizes in
    let most : x'.max_order_id ≡ x.max_order_id = ap (λ t. t.1) sizes in
    record {
      known = λ i k. ground (arith, l i, id i, h.known i);
      points = λ i k. ground (arith, l i, id i, h.points i, loc (orders i).order_id);
      active = λ i k. ground (arith, l i, id i, h.active i, loc (orders i).order_id);
      same_price =
          λ i k. ground (arith, l i, id i, price i, h.same_price i, loc (orders i).order_id);
      same_side = λ i k. ground (arith, l i, id i, flags i, h.same_side i, loc (orders i).order_id);
      located = λ i k a. ground (arith, l (x.location i).pool_idx, h.located i, loc i);
      named = λ i k a. ground (arith, id (x.location i).pool_idx, h.located i, h.named i, loc i);
      seen = λ i k a. ground (arith, h.seen i, loc i, most);
    }

module _ {live live' : ℕ → Bool} {orders orders' : ℕ → Order} {x : OrderIndex}
    (h : Indexed live orders x) (idx : ℕ) where
  -- The entry of an order that leaves the book is not active any more.
  pub deactivate-Indexed :
      live idx ≡ true
      → ((j : ℕ) → live' j ≡ (not (j == idx) && live j))
      → ((j : ℕ) → j ≢ idx → (orders' j).order_id ≡ (orders j).order_id)
      → ((j : ℕ) → j ≢ idx → (orders' j).price ≡ (orders j).price)
      → ((j : ℕ) → j ≢ idx → (orders' j).flags ≡ (orders j).flags)
      → Indexed live' orders' (deactivate x (orders idx).order_id)
  unfolding deactivate update
  deactivate-Indexed here l id price flags =
      let k0 = h.known idx here in
      let p0 = h.points idx here in
      let gone = set_active-is_active (x.location (orders idx).order_id) in
      record {
        known = λ i k. ground (arith, l i, id i, h.known i);
        points = λ i k. ground (arith, l i, id i, h.points i, p0);
        active = λ i k. ground (arith, l i, id i, h.active i, h.points i, p0);
        same_price = λ i k. ground (arith, l i, id i, price i, h.same_price i, h.points i, p0);
        same_side = λ i k. ground (arith, l i, id i, flags i, h.same_side i, h.points i, p0);
        located = λ i k a. ground (arith, l (x.location i).pool_idx, h.located i, h.named i, gone);
        named = λ i k a. ground (arith, id (x.location i).pool_idx, h.located i, h.named i, gone);
        seen = λ i k a. ground (arith, h.seen i, gone);
      }

-- What `ensure_capacity` leaves where the new size fits a `size_t`.
record Ensured (x x' : OrderIndex) (id : ℕ) : Type 0 where
  grown : x.size ≤ x'.size
  enough : id < x'.size
  kept : (j : ℕ) → j < x.size → x'.location j ≡ x.location j
  fresh :
      (j : ℕ)
      → x.size ≤ j
      → x'.location j ≡ (if leb x.size id then default_location else x.location j)
  fixed : leb x.size id ≡ false → x'.size ≡ x.size
  most : (id ≤ x'.max_order_id) × (x.max_order_id ≤ x'.max_order_id)

ensure_capacity-Ensured :
    (x : OrderIndex) (id : ℕ)
    → id + 1 < 2 ^ 64
    → x.size * 2 < 2 ^ 64
    → Ensured x (ensure_capacity x id) id
unfolding ensure_capacity
ensure_capacity-Ensured x id fits room = record {
  grown = ground arith;
  enough = ground arith;
  kept = λ j lt. ground arith;
  fresh = λ j ge. ground arith;
  fixed = λ e. ground arith;
  most = (ground arith, ground arith);
}

-- The entry that a resting order gets.
abbrev entry : Bool → ℤ → ℕ → OrderLocation
entry side price idx =
    set_active (location_set_buy (record { price = price; pool_idx = idx; flags = 0 }) side) true

entry-is_active : (side : Bool) (price : ℤ) (idx : ℕ) → is_active (entry side price idx) ≡ true
entry-is_active true price idx = refl
entry-is_active false price idx = refl

entry-is_buy : (side : Bool) (price : ℤ) (idx : ℕ) → location_is_buy (entry side price idx) ≡ side
entry-is_buy true price idx = refl
entry-is_buy false price idx = refl

index_order_at :
    (x : OrderIndex) (id : ℕ) (side : Bool) (price : ℤ) (idx j : ℕ)
    → (index_order x id side price idx).location j
      ≡ (if j == id then entry side price idx else (ensure_capacity x id).location j)
unfolding index_order update
index_order_at x id side price idx j = refl

index_order_size :
    (x : OrderIndex) (id : ℕ) (side : Bool) (price : ℤ) (idx : ℕ)
    → (index_order x id side price idx).size ≡ (ensure_capacity x id).size
unfolding index_order
index_order_size x id side price idx = refl

index_order_most :
    (x : OrderIndex) (id : ℕ) (side : Bool) (price : ℤ) (idx : ℕ)
    → (index_order x id side price idx).max_order_id ≡ (ensure_capacity x id).max_order_id
unfolding index_order
index_order_most x id side price idx = refl

module _ {live live' : ℕ → Bool} {orders orders' : ℕ → Order} {x : OrderIndex}
    (h : Indexed live orders x) (idx id : ℕ) (fits : id + 1 < 2 ^ 64)
    (room : x.size * 2 < 2 ^ 64) where
  -- An order under an id that is not active gets its entry.
  pub index_order-Indexed :
      live idx ≡ false
      → (id < x.size → is_active (x.location id) ≡ false)
      → ((j : ℕ) → live' j ≡ ((j == idx) || live j))
      → ((j : ℕ) → j ≢ idx → (orders' j).order_id ≡ (orders j).order_id)
      → ((j : ℕ) → j ≢ idx → (orders' j).price ≡ (orders j).price)
      → ((j : ℕ) → j ≢ idx → (orders' j).flags ≡ (orders j).flags)
      → (orders' idx).order_id ≡ id
      → Indexed live' orders' (index_order x id (is_buy (orders' idx)) (orders' idx).price idx)
  index_order-Indexed out new l same_id same_price same_flags named =
      let price = (orders' idx).price in
      let side = is_buy (orders' idx) in
      let at = index_order_at x id side price idx in
      let sized = index_order_size x id side price idx in
      let e = ensure_capacity-Ensured x id fits room in
      let act = entry-is_active side price idx in
      let buy = entry-is_buy side price idx in
      let grown = e.grown in
      let enough = e.enough in
      let fixed = e.fixed in
      let most = e.most in
      let most_same = index_order_most x id side price idx in
      record {
        known = λ i k. ground (arith, l i, same_id i, h.known i);
        points = λ i k. ground (
          arith,
          l i,
          same_id i,
          h.points i,
          h.known i,
          h.active i,
          at (orders' i).order_id,
          e.kept (orders' i).order_id,
        );
        active = λ i k. ground (
          arith,
          l i,
          same_id i,
          h.active i,
          h.known i,
          at (orders' i).order_id,
          e.kept (orders' i).order_id,
        );
        same_price = λ i k. ground (
          arith,
          l i,
          same_id i,
          same_price i,
          h.same_price i,
          h.known i,
          h.active i,
          at (orders' i).order_id,
          e.kept (orders' i).order_id,
        );
        same_side = λ i k. ground (
          arith,
          l i,
          same_id i,
          same_flags i,
          h.same_side i,
          h.known i,
          h.active i,
          at (orders' i).order_id,
          e.kept (orders' i).order_id,
        );
        located = λ i k a.
            ground
              (arith, at i, l (x.location i).pool_idx, l idx, h.located i, e.kept i, e.fresh i);
        named = λ i k a. ground (
          arith,
          at i,
          same_id (x.location i).pool_idx,
          h.located i,
          h.named i,
          e.kept i,
          e.fresh i,
        );
        seen = λ i k a. ground (arith, at i, h.seen i, e.kept i, e.fresh i, most, most_same);
      }
