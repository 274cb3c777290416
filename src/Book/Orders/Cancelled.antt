-- ===== src/Book/Orders/Cancelled.antt =====
-- `cancel_order_internal` of order_book.h keeps a sound book sound.
use mathlib.Core.Path.{subst}
use titan_lob.Prelude.{
  ℕ, ◌≡◌, ◌<◌, refl, sym, ap, ◌∙◌, Bool, true, false, Bool-cases, inl, inr, arith, ℤ, pos, ◌+ℤ◌,
  ◌-ℤ◌, update,
}
use titan_lob.Bitmap.{max_price_levels}
use titan_lob.Pool
use titan_lob.Pool.{ObjectPool, null_index}
use titan_lob.Pool.Invariant.{in_use, free_lem}
use titan_lob.Book.Types.{
  Order, total_quantity, default_order, is_buy, PriceLevel, OrderLocation, location_is_buy, empty,
  is_active,
}
use titan_lob.Book.State.{BookSide, OrderIndex, Book, price_to_index, own_side}
use titan_lob.Book.Links.{list_remove}
use titan_lob.Book.Links.Chain.{list_remove-OnlyLinks}
use titan_lob.Book.Links.Wiring.{Wired-full}
use titan_lob.Book.Links.Lists.{home, place}
use titan_lob.Book.Volume.{remove_from_level_volume}
use titan_lob.Book.Match.Walking.{remove_volume_ends}
use titan_lob.Book.Match.Shrinks.{Shrinks, Shrinks-refl, deactivate-Shrinks}
use titan_lob.Book.Cancel.{
  take_level, cancel_active, is_cancellable, cancel_order_internal, deactivate,
}
use titan_lob.Book.Tracking.{IsTracked, take_level-IsTracked}
use titan_lob.Book.Emit.{emit_order_cancelled}
use titan_lob.Book.Orders.{Placed, Frame, Shown, levels_of, IsSound}
use titan_lob.Book.Orders.Steps.{
  Frame-requantify, SameObjects-in_use, SameObjects-IsValid, remove-Frame,
}
use titan_lob.Book.Volume.Held.{remove_total}
use titan_lob.Book.Add.{set_side}
use titan_lob.Book.Orders.Volumes.{remove-Exact}
use titan_lob.Book.Orders.Sides.{
  set_side-Revolumed, levels_of-place, home_of, levels_of-set, take_level-levels, IsSound-IsTracked,
  set_side-IsSound,
}

-- The order that an active id stands for.
pub record Found (b : Book) (order_id : ℕ) : Type 0 where
  pub live : in_use b.order_pool (b.index.location order_id).pool_idx ≡ true
  pub named : (b.order_pool.pool (b.index.location order_id).pool_idx).order_id ≡ order_id
  pub placed : Placed (b.order_pool.pool (b.index.location order_id).pool_idx)
  pub price :
      (b.index.location order_id).price
      ≡ (b.order_pool.pool (b.index.location order_id).pool_idx).price
  pub side :
      location_is_buy (b.index.location order_id)
      ≡ is_buy (b.order_pool.pool (b.index.location order_id).pool_idx)

pub found :
    (b : Book) (order_id : ℕ) → IsSound b → is_cancellable b order_id ≡ true → Found b order_id
found b order_id h can =
    let i : ℕ = (b.index.location order_id).pool_idx in
    let inside : order_id < b.index.size = ground arith in
    let on : is_active (b.index.location order_id) ≡ true = ground arith in
    let live = h.frame.indexed.located order_id inside on in
    let named = h.frame.indexed.named order_id inside on in
    record {
      live = live;
      named = named;
      placed = h.frame.placed i live;
      price =
          ap (λ id. (b.index.location id).price) (sym named) ∙ h.frame.indexed.same_price i live;
      side =
          ap (λ id. location_is_buy (b.index.location id)) (sym named)
          ∙ h.frame.indexed.same_side i live;
    }

removed :
    {p : ObjectPool Order} (level : PriceLevel) (idx : ℕ)
    → Pool.Invariant.IsValid p
    → in_use p idx ≡ true
    → Shown p
    → Shown (Pool.free default_order (list_remove p level idx).0 idx)
removed {p} level idx valid here s =
    let (p1, level1) = list_remove p level idx in
    let same = (list_remove-OnlyLinks p level idx).0 in
    let fr =
      free_lem default_order p1 idx (SameObjects-IsValid same valid)
        (SameObjects-in_use same idx ∙ here) in
    record {
      quantity = λ j h. ground (
        arith,
        fr.1 j,
        fr.3 j,
        SameObjects-in_use same j,
        (same.data_of j).quantity,
        s.quantity j,
      );
      hidden = λ j h. ground (
        arith,
        fr.1 j,
        fr.3 j,
        SameObjects-in_use same j,
        (same.data_of j).hidden_quantity,
        s.hidden j,
      );
    }

-- The level of a live order is not empty.
pub level_full :
    {p : ObjectPool Order} {x : OrderIndex} {levels : ℕ → PriceLevel} (f : Frame p x levels)
    (idx : ℕ)
    → in_use p idx ≡ true
    → empty (levels (home (p.pool idx))) ≡ false
level_full f idx here = let full = Wired-full f.linked idx here in ground arith

-- The level of an order that can be cancelled holds an order.
pub cancelled_full :
    (b : Book) (order_id : ℕ)
    → IsSound b
    → is_cancellable b order_id ≡ true
    → let loc = b.index.location order_id in
      empty ((own_side (location_is_buy loc) b).levels (price_to_index loc.price)) ≡ false
cancelled_full b order_id h can =
    let loc : OrderLocation = b.index.location order_id in
    let order : Order = b.order_pool.pool loc.pool_idx in
    let side : Bool = location_is_buy loc in
    let fd = found b order_id h can in
    let at : place side (price_to_index loc.price) ≡ home order = sym (
      home_of order
      ∙ ap (λ t. place t (price_to_index order.price)) (sym fd.side)
      ∙ ap (λ q. place side (price_to_index q)) (sym fd.price)) in
    ap (λ l. empty l) (sym (levels_of-place side b (price_to_index loc.price)))
    ∙ ap (λ k. empty (levels_of b k)) at
    ∙ level_full h.frame loc.pool_idx fd.live

take-IsTracked :
    (side : Bool) (s : BookSide) (price : ℤ) (level : PriceLevel)
    → price ≡ pos (price_to_index price)
    → price_to_index price < max_price_levels
    → empty (s.levels (price_to_index price)) ≡ false
    → IsTracked side s
    → IsTracked side (take_level side s price level)
take-IsTracked side s (pos n) level e lt full t = (take_level-IsTracked side s n level lt full t).0
take-IsTracked side s (ℤ.negsuc n) level e lt full t = absurd (ground arith)

cancel_active-IsSound :
    (b : Book) (order_id : ℕ)
    → IsSound b
    → is_cancellable b order_id ≡ true
    → IsSound (cancel_active b order_id)
unfolding cancel_active
cancel_active-IsSound b order_id h can =
    let loc : OrderLocation = b.index.location order_id in
    let idx : ℕ = loc.pool_idx in
    let order : Order = b.order_pool.pool idx in
    let side : Bool = location_is_buy loc in
    let s : BookSide = own_side side b in
    let n : ℕ = price_to_index loc.price in
    let level0 : PriceLevel = remove_from_level_volume (s.levels n) order in
    let ends = remove_volume_ends (s.levels n) order in
    let (p1, level1) = list_remove b.order_pool level0 idx in
    let fd = found b order_id h can in
    let at : place side n ≡ home order = sym (
      home_of order
      ∙ ap (λ t. place t (price_to_index order.price)) (sym fd.side)
      ∙ ap (λ q. place side (price_to_index q)) (sym fd.price)) in
    let level_at : levels_of b (home order) ≡ s.levels n =
      ap (levels_of b) (sym at) ∙ levels_of-place side b n in
    let frame =
      remove-Frame h.frame level0 idx fd.live (ends.0 ∙ ap (λ l. l.head) (sym level_at))
        (ends.1 ∙ ap (λ l. l.tail) (sym level_at)) in
    let levels =
      levels_of-set side b (take_level side s loc.price level1) n level1
        (take_level-levels side s loc.price level1) in
    set_side-IsSound side b (take_level side s loc.price level1) (Pool.free default_order p1 idx)
      (deactivate b.index order_id)
      (emit_order_cancelled b.out order_id (order.quantity +ℤ order.hidden_quantity)) h
      (take-IsTracked side s loc.price level1 (rw fd.price fd.placed.on_grid)
        (rw fd.price fd.placed.inside)
        (ap (λ l. empty l) (sym level_at) ∙ level_full h.frame idx fd.live)
        (IsSound-IsTracked b side h))
      (Frame-requantify
        (subst
          (λ id.
            Frame (Pool.free default_order p1 idx) (deactivate b.index id)
              (update (levels_of b) (home order) level1))
          fd.named frame)
        refl refl (λ j. refl) (λ j. refl) (λ j. refl) (λ j. refl) (λ j. refl) (λ j. refl) refl
        (λ j. ap (λ l. l.head) (levels j ∙ ap (λ m. update (levels_of b) m level1 j) at))
        (λ j. ap (λ l. l.tail) (levels j ∙ ap (λ m. update (levels_of b) m level1 j) at)))
      (removed level0 idx h.frame.valid fd.live h.shown)
      (remove-Exact b.order_pool (levels_of b)
        (levels_of (set_side side b (take_level side s loc.price level1))) level0 idx
        level1.total_volume h.frame.valid fd.live h.volumes
        (set_side-Revolumed side b (take_level side s loc.price level1) n (home order) level1
          (take_level-levels side s loc.price level1) at)
        ((list_remove-OnlyLinks b.order_pool level0 idx).1.total
          ∙ remove_total (s.levels n) order
          ∙ ap (λ l. l.total_volume -ℤ total_quantity order) (sym level_at)))

-- Whatever id `cancel_order_internal` is given, a sound book stays sound.
pub cancel_order_internal-IsSound :
    (b : Book) (order_id : ℕ) → IsSound b → IsSound (cancel_order_internal b order_id)
unfolding cancel_order_internal
cancel_order_internal-IsSound b order_id h = elim (Bool-cases (is_cancellable b order_id)) [
  | inl can ↦ rw can (cancel_active-IsSound b order_id h can)
  | inr cannot ↦ rw cannot h
]

-- A cancelled id can be used again.
pub cancel_order_internal-Shrinks :
    (b : Book) (order_id : ℕ)
    → let b' = cancel_order_internal b order_id in
      Shrinks b.order_pool b.index b'.order_pool b'.index
unfolding cancel_order_internal cancel_active Pool.free
cancel_order_internal-Shrinks b order_id = elim (Bool-cases (is_cancellable b order_id)) [
  | inr cannot ↦ rw cannot (Shrinks-refl b.order_pool b.index)
  | inl can ↦ rw can (record {
    pool_size = (list_remove-OnlyLinks b.order_pool _ _).0.size;
    index_size = (deactivate-Shrinks b.order_pool b.index order_id).index_size;
    active = (deactivate-Shrinks b.order_pool b.index order_id).active;
  })
]
