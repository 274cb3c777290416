-- ===== src/Book/Orders/Modified.antt =====
-- `modify_order_internal` of order_book.h keeps a sound book sound.
use titan_lob.Prelude.{
  ℕ, ◌*◌, ◌^◌, ◌≡◌, ◌≤◌, ◌<◌, refl, sym, ap, ◌∙◌, Bool, true, false, ◌&&◌, Bool-cases, inl, inr,
  arith, ℤ, pos, ◌+ℤ◌, ◌-ℤ◌, ◌<ℤ◌, leb_ℤ, eqb_ℤ, int_laws, update, update_lem,
}
use titan_lob.Bitmap.{max_price_levels}
use titan_lob.Pool.{null_index}
use titan_lob.Book.Types.{Order, is_aon, PriceLevel, OrderLocation, location_is_buy, empty}
use titan_lob.Book.State.{BookSide, Book, price_to_index, own_side}
use titan_lob.Book.Links.Lists.{home, place}
use titan_lob.Book.Volume.{adjust_level_volume}
use titan_lob.Book.Match.Walking.{adjust_volume_ends}
use titan_lob.Book.Add.{set_side}
use titan_lob.Book.Cancel.{is_cancellable, cancel_order_internal, modify_order_internal}
use titan_lob.Book.Cancel.Branches.{cancel_order_internal-Cancelled}
use titan_lob.Book.Tracking.{keep-IsTracked}
use titan_lob.Book.Orders.{levels_of, IsSound}
use titan_lob.Book.Orders.Steps.{Frame-requantify}
use titan_lob.Book.Volume.Held.{adjust_total}
use titan_lob.Book.Orders.Volumes.{write-Exact}
use titan_lob.Book.Orders.Sides.{
  set_side-Revolumed, levels_of-place, home_of, levels_of-set, IsSound-IsTracked,
  set_side_pool-IsSound,
}
use titan_lob.Book.Orders.Added.{add_order_internal-IsSound}
use titan_lob.Book.Orders.Cancelled.{
  found, level_full, cancel_order_internal-IsSound, cancel_order_internal-Shrinks,
}

-- The order in its place with another quantity.
abbrev requantified : Book → ℕ → ℤ → Book
requantified b order_id new_quantity =
    let loc : OrderLocation = b.index.location order_id in
    let side : Bool = location_is_buy loc in
    let s : BookSide = own_side side b in
    let n : ℕ = price_to_index loc.price in
    let order : Order = b.order_pool.pool loc.pool_idx in
    record (set_side side b (record s {
      levels = update s.levels n (
          adjust_level_volume (s.levels n) (new_quantity -ℤ order.quantity) (pos 0) (is_aon order));
    })) {
      order_pool = record (b.order_pool) {
        pool = update b.order_pool.pool loc.pool_idx (record order { quantity = new_quantity });
      };
    }

requantified-IsSound :
    (b : Book) (order_id : ℕ) (new_quantity : ℤ)
    → IsSound b
    → is_cancellable b order_id ≡ true
    → pos 0 <ℤ new_quantity
    → IsSound (requantified b order_id new_quantity)
unfolding titan_lob.Book.Add.write_order
requantified-IsSound b order_id new_quantity h can more =
    let loc : OrderLocation = b.index.location order_id in
    let idx : ℕ = loc.pool_idx in
    let side : Bool = location_is_buy loc in
    let s : BookSide = own_side side b in
    let n : ℕ = price_to_index loc.price in
    let order : Order = b.order_pool.pool idx in
    let level : PriceLevel =
      adjust_level_volume (s.levels n) (new_quantity -ℤ order.quantity) (pos 0) (is_aon order) in
    let ends =
      adjust_volume_ends (s.levels n) (new_quantity -ℤ order.quantity) (pos 0) (is_aon order) in
    let s' : BookSide = record s { levels = update s.levels n level } in
    let fd = found b order_id h can in
    let at : place side n ≡ home order = sym (
      home_of order
      ∙ ap (λ t. place t (price_to_index order.price)) (sym fd.side)
      ∙ ap (λ q. place side (price_to_index q)) (sym fd.price)) in
    let level_at : levels_of b (place side n) ≡ s.levels n = levels_of-place side b n in
    let full : empty (s.levels n) ≡ false =
      ap (λ l. empty l) (sym level_at)
      ∙ ap (λ k. empty (levels_of b k)) at
      ∙ level_full h.frame idx fd.live in
    let full' : empty level ≡ false = let e = ends.0 in ground arith in
    let levels = levels_of-set side b s' n level refl in
    let wrote =
      λ (j : ℕ). update_lem b.order_pool.pool idx (record order { quantity = new_quantity }) j in
    set_side_pool-IsSound side b s'
      (record (b.order_pool) {
        pool = update b.order_pool.pool idx (record order { quantity = new_quantity });
      })
      h (keep-IsTracked side s n level full' full (IsSound-IsTracked b side h))
      (Frame-requantify h.frame refl refl (λ j. ground (arith, wrote j))
        (λ j. ground (arith, wrote j)) (λ j. ground (arith, wrote j)) (λ j. ground (arith, wrote j))
        (λ j. ground (arith, wrote j)) (λ j. refl) refl
        (λ j.
          ap (λ l. l.head) (levels j)
          ∙ ground (arith, update_lem (levels_of b) (place side n) level j, level_at, ends.0))
        (λ j.
          ap (λ l. l.tail) (levels j)
          ∙ ground (arith, update_lem (levels_of b) (place side n) level j, level_at, ends.1)))
      (record {
        quantity = λ j l. ground (arith, wrote j, h.shown.quantity j);
        hidden = λ j l. ground (arith, wrote j, h.shown.hidden j);
      })
      (write-Exact b.order_pool (levels_of b) (levels_of (set_side side b s')) idx new_quantity
        level.total_volume fd.live h.volumes
        (set_side-Revolumed side b s' n (home order) level refl at)
        (adjust_total (s.levels n) (new_quantity -ℤ order.quantity) (pos 0) (is_aon order)
          ∙ ap (λ l. l.total_volume +ℤ ((new_quantity -ℤ order.quantity) +ℤ pos 0))
              (sym (ap (levels_of b) (sym at) ∙ level_at))
          ∙ omega int_laws))

-- `modify_order_internal` to a positive quantity, at a price of the book, keeps a sound book sound.
pub modify_order_internal-IsSound :
    (b : Book) (order_id n : ℕ) (new_quantity : ℤ)
    → IsSound b
    → b.order_pool.size * 2 ≤ null_index
    → b.index.size * 2 < 2 ^ 64
    → n < max_price_levels
    → pos 0 <ℤ new_quantity
    → IsSound (modify_order_internal b order_id (pos n) new_quantity)
unfolding modify_order_internal
modify_order_internal-IsSound b order_id n new_quantity h pool index lt more =
    elim (Bool-cases (is_cancellable b order_id)) [
      | inr cannot ↦ rw cannot h
      | inl can ↦
          rw can
            (elim (Bool-cases (
              eqb_ℤ (pos n) (b.index.location order_id).price
              && leb_ℤ new_quantity
                  (b.order_pool.pool (b.index.location order_id).pool_idx).quantity)) [
                    | inl same ↦ rw same (requantified-IsSound b order_id new_quantity h can more)
                    | inr other ↦
                        let less = cancel_order_internal-Shrinks b order_id in
                        let gone = (cancel_order_internal-Cancelled b order_id can).inactive in
                        let pools = less.pool_size in
                        let sizes = less.index_size in
                        let inside : order_id < b.index.size = ground arith in
                        rw other (
                          add_order_internal-IsSound (cancel_order_internal b order_id) order_id
                            (location_is_buy (b.index.location order_id)) n new_quantity 0
                            (cancel_order_internal-IsSound b order_id h)
                            (record {
                              pool = omega (arith, pools, pool);
                              fits = omega (arith, inside, index);
                              index = omega (arith, sizes, index);
                              fresh = λ _. gone;
                            })
                            lt more)
                  ])
    ]
