-- ===== src/Book/Orders/Added.antt =====
-- The methods of order_book.h that rest an order keep a sound book sound.
use titan_lob.Prelude.{
  ℕ, ◌+◌, ◌*◌, ◌^◌, ◌≡◌, ◌≢◌, ◌≤◌, ◌<◌, refl, sym, ap, ◌∙◌, Bool, true, false, ◌||◌, ◌==◌, ==_iff,
  Bool-cases, ◌⊎◌, inl, inr, arith, ℤ, pos, ◌-ℤ◌, ◌<ℤ◌, ◌≤ℤ◌, min_ℤ, ltb_ℤ, ltb_ℤ→ge, int_laws,
  update, update_lem, leb,
}
use titan_lob.Bitmap.{max_price_levels}
use titan_lob.Pool
use titan_lob.Pool.{ObjectPool, null_index}
use titan_lob.Pool.Invariant.{in_use, allocate_lem}
use titan_lob.Book.Types.{Order, default_order, is_buy, PriceLevel, empty, is_active}
use titan_lob.Book.State.{BookSide, OrderIndex, Emitter, Book, price_to_index, own_side}
use titan_lob.Book.Links.{list_push_back}
use titan_lob.Book.Links.Chain.{list_push_back-OnlyLinks}
use titan_lob.Book.Links.Lists.{home, place, push_ends}
use titan_lob.Book.Volume.{add_to_level_volume}
use titan_lob.Book.Match.Walking.{add_volume_ends}
use titan_lob.Book.Add.{
  put_level, write_order, set_side, rest_order, index_order, make_order, add_order_internal,
  add_iceberg_internal,
}
use titan_lob.Book.Tracking.{IsTracked, put_level-IsTracked}
use titan_lob.Book.Orders.{Placed, Frame, Shown, levels_of, IsSound}
use titan_lob.Book.Orders.Steps.{
  Frame-requantify, SameObjects-in_use, write_order_at, write_order_free,
}
use titan_lob.Book.Orders.Rest.{rest-Frame}
use titan_lob.Book.Orders.Volumes.{rest-Exact}
use titan_lob.Book.Orders.Sides.{
  set_side-Revolumed, levels_of-place, home_of, levels_of-set, put_level-levels, IsSound-IsTracked,
  set_side-IsSound,
}

-- What is needed for another order: its id is not active, and the vectors can double.
pub record HasRoom (b : Book) (order_id : ℕ) : Type 0 where
  pub pool : b.order_pool.size * 2 ≤ null_index
  pub fits : order_id + 1 < 2 ^ 64
  pub index : b.index.size * 2 < 2 ^ 64
  pub fresh : order_id < b.index.size → is_active (b.index.location order_id) ≡ false

allocated :
    {p : ObjectPool Order}
    → Shown p
    → (level : PriceLevel) (order : Order) → Pool.Invariant.IsValid p
    → p.size * 2 ≤ null_index
    → pos 0 <ℤ order.quantity
    → pos 0 ≤ℤ order.hidden_quantity
    → let (idx, p1) = Pool.allocate default_order p in
      let (p3, _) = list_push_back (write_order p1 idx order) level idx in Shown p3
allocated {p} s level order valid room quantity hidden =
    let (idx, p1) = Pool.allocate default_order p in
    let a = allocate_lem default_order p valid room in
    let p2 = write_order p1 idx order in
    let (p3, level3) = list_push_back p2 level idx in
    let again = (list_push_back-OnlyLinks p2 level idx).0 in
    let at = λ (j : ℕ). write_order_at p1 idx j order in
    let fr = write_order_free p1 idx order in
    let live : (j : ℕ) → in_use p3 j ≡ ((j == idx) || in_use p j) =
      λ j. SameObjects-in_use again j ∙ rw (fr.0, fr.1) (a.others j) in
    record {
      quantity = λ j h.
          ground (arith, live j, at j, a.objects j, (again.data_of j).quantity, s.quantity j);
      hidden = λ j h.
          ground (arith, live j, at j, a.objects j, (again.data_of j).hidden_quantity, s.hidden j);
    }

-- A list with an order in it has a first one.
linked_full :
    {p : ObjectPool Order} {x : OrderIndex} (levels : ℕ → PriceLevel) (k : ℕ) (level : PriceLevel)
    → Frame p x (update levels k level)
    → level.tail ≢ null_index
    → empty level ≡ false
linked_full levels k level f ne =
    let at : update levels k level k ≡ level =
      update_lem levels k level k ∙ rw ((==_iff k k).1 refl) refl in
    let filled : level.head ≢ null_index =
      λ none. ne (ap (λ l. l.tail) (sym at) ∙ f.linked.no_head k (ap (λ l. l.head) at ∙ none)) in
    ground arith

put-IsTracked :
    (side : Bool) (s : BookSide) (price : ℤ) (n : ℕ) (level : PriceLevel)
    → price ≡ pos n
    → n < max_price_levels
    → empty level ≡ false
    → IsTracked side s
    → IsTracked side (put_level side s price (empty (s.levels (price_to_index price))) level)
put-IsTracked side s price n level e lt full t =
    rw e (put_level-IsTracked side s n level lt full t).0

-- An order that is put into a sound book with room for it.
pub rest_order-IsSound :
    (b : Book) (side : Bool) (order : Order) (n : ℕ)
    → IsSound b
    → HasRoom b order.order_id
    → Placed order
    → order.price ≡ pos n
    → is_buy order ≡ side
    → pos 0 <ℤ order.quantity
    → pos 0 ≤ℤ order.hidden_quantity
    → IsSound (rest_order b side order)
unfolding rest_order
rest_order-IsSound b side order n h room placed price own quantity hidden =
    let s : BookSide = own_side side b in
    let level : PriceLevel = s.levels (price_to_index order.price) in
    let (idx, p1) = Pool.allocate default_order b.order_pool in
    let (p3, level3) = list_push_back (write_order p1 idx order) level idx in
    let level' = add_to_level_volume level3 (p3.pool idx) in
    let ends = add_volume_ends level3 (p3.pool idx) in
    let k : ℕ = home order in
    let at : k ≡ place side (price_to_index order.price) =
      home_of order ∙ ap (λ t. place t (price_to_index order.price)) own in
    let level_at : levels_of b k ≡ level =
      ap (levels_of b) at ∙ levels_of-place side b (price_to_index order.price) in
    let frame =
      rest-Frame level order h.frame (ap (λ l. l.head) (sym level_at))
        (ap (λ l. l.tail) (sym level_at)) placed room.pool room.fits room.index room.fresh in
    let levels =
      levels_of-set side b (put_level side s order.price (empty level) level')
        (price_to_index order.price) level'
        (put_level-levels side (empty level) s order.price level') in
    let frame' : Frame p3 (index_order b.index order.order_id side order.price idx)
        (update (levels_of b) k level') =
      Frame-requantify (rw own at frame) refl refl (λ j. refl) (λ j. refl) (λ j. refl) (λ j. refl)
        (λ j. refl) (λ j. refl) refl
        (λ j.
          ground (arith, update_lem (levels_of b) k level' j, update_lem (levels_of b) k level3 j))
        (λ j.
          ground
            (arith, update_lem (levels_of b) k level' j, update_lem (levels_of b) k level3 j)) in
    let a = allocate_lem default_order b.order_pool h.frame.valid room.pool in
    let pushed = push_ends (write_order p1 idx order) level idx in
    let full : empty level' ≡ false = linked_full (levels_of b) k level' frame' (λ none.
      let inside = a.inside in
      let small = a.valid.small in let e = pushed.1 in omega (arith, sym e ∙ sym ends.1 ∙ none)) in
    set_side-IsSound side b (put_level side s order.price (empty level) level') p3
      (index_order b.index order.order_id side order.price idx)
      (set_side side b (put_level side s order.price (empty level) level')).out h
      (put-IsTracked side s order.price n level' price (rw price at placed.inside) full
        (IsSound-IsTracked b side h))
      (Frame-requantify frame' refl refl (λ j. refl) (λ j. refl) (λ j. refl) (λ j. refl) (λ j. refl)
        (λ j. refl) refl
        (λ j. ap (λ l. l.head) (levels j ∙ ap (λ m. update (levels_of b) m level' j) (sym at)))
        (λ j. ap (λ l. l.tail) (levels j ∙ ap (λ m. update (levels_of b) m level' j) (sym at))))
      (allocated h.shown level order h.frame.valid room.pool quantity hidden)
      (rest-Exact b.order_pool (levels_of b)
        (levels_of (set_side side b (put_level side s order.price (empty level) level'))) level
        order h.frame.valid room.pool h.volumes (ap (λ l. l.total_volume) (sym level_at))
        (set_side-Revolumed side b (put_level side s order.price (empty level) level')
          (price_to_index order.price) k level'
          (put_level-levels side (empty level) s order.price level') (sym at)))

-- A new order that is not all-or-none, as the two methods below make it.
made :
    (order_id : ℕ) (side : Bool) (n : ℕ) (quantity hidden peak : ℤ) (user_id : ℕ)
    → n < max_price_levels
    → let o = make_order order_id side (pos n) quantity hidden peak user_id false in
      Placed o × (is_buy o ≡ side)
made order_id true n quantity hidden peak user_id lt =
    (record { on_grid = refl; inside = lt; plain = refl }, refl)
made order_id false n quantity hidden peak user_id lt =
    (record { on_grid = refl; inside = lt; plain = refl }, refl)

IsSound-out : (b : Book) (out : Emitter) → IsSound b → IsSound (record b { out = out })
IsSound-out b out h = record {
  frame = h.frame;
  shown = h.shown;
  volumes = h.volumes;
  bids = h.bids;
  asks = h.asks;
}

module _ (b : Book) (order_id : ℕ) (side : Bool) (n : ℕ) (quantity : ℤ) (user_id : ℕ)
    (h : IsSound b) (room : HasRoom b order_id) (lt : n < max_price_levels) where
  in_book : leb max_price_levels n ≡ false
  in_book = ground arith

  pub add_order_internal-IsSound :
      pos 0 <ℤ quantity → IsSound (add_order_internal b order_id side (pos n) quantity user_id)
  unfolding add_order_internal
  add_order_internal-IsSound more =
      let (placed, own) = made order_id side n quantity (pos 0) (pos 0) user_id lt in
      rw in_book (
        IsSound-out _ _ (
          rest_order-IsSound b side
            (make_order order_id side (pos n) quantity (pos 0) (pos 0) user_id false) n h room
            placed refl own more (omega arith)))

  pub add_iceberg_internal-IsSound :
      (visible : ℤ)
      → pos 0 <ℤ quantity
      → pos 0 <ℤ visible
      → IsSound (add_iceberg_internal b order_id side (pos n) quantity visible user_id)
  unfolding add_iceberg_internal
  add_iceberg_internal-IsSound visible more shows =
      let display = min_ℤ visible quantity in
      let (placed, own) = made order_id side n display (quantity -ℤ display) visible user_id lt in
      rw in_book (
        IsSound-out _ _ (
          rest_order-IsSound b side
            (make_order order_id side (pos n) display (quantity -ℤ display) visible user_id false) n
            h room placed refl own (ground arith) (left (Bool-cases (ltb_ℤ quantity visible)))))
    where
      left :
          (ltb_ℤ quantity visible ≡ true) ⊎ (ltb_ℤ quantity visible ≡ false)
          → pos 0 ≤ℤ quantity -ℤ min_ℤ visible quantity
      left (inl e) = rw e (omega int_laws)
      left (inr e) = rw e (let l = ltb_ℤ→ge quantity visible e in omega (int_laws, l))
