-- ===== src/Book/Orders/Steps.antt =====
-- What the operations of order_book.h on the pool, the lists and the index do to the orders of the
-- book together: an order that leaves, one that is replenished, and one that comes to rest.
use titan_lob.Prelude.{
  ℕ, ◌≡◌, ◌≢◌, refl, sym, ap, ◌∙◌, true, not, ◌&&◌, ◌==◌, ==_iff, ℤ, arith, update, update_lem,
  if◌then◌else◌,
}
use titan_lob.Pool
use titan_lob.Pool.{ObjectPool, null_index}
use titan_lob.Pool.Invariant.{IsValid, in_use, free_lem}
use titan_lob.Book.Types.{Order, default_order, PriceLevel}
use titan_lob.Book.State.{OrderIndex}
use titan_lob.Book.Links.{list_push_back, list_remove}
use titan_lob.Book.Links.Chain.{
  SameData, SameObjects, list_remove-OnlyLinks, list_push_back-OnlyLinks,
}
use titan_lob.Book.Links.Lists.{
  home, Linked, Wired-ext, Wired-live, list_remove-Linked, list_push_back-Linked,
}
use titan_lob.Book.Add.{write_order}
use titan_lob.Book.Cancel.{deactivate}
use titan_lob.Book.Orders.{reach_of, Placed, Frame}
use titan_lob.Book.Orders.Index.{Indexed-ext, deactivate-Indexed}

pub SameObjects-in_use :
    {p p' : ObjectPool Order} → SameObjects p p' → (j : ℕ) → in_use p' j ≡ in_use p j
SameObjects-in_use s j = rw (s.size, s.free_indices) refl

pub SameObjects-IsValid : {p p' : ObjectPool Order} → SameObjects p p' → IsValid p → IsValid p'
SameObjects-IsValid s v = record {
  positive = rw s.size v.positive;
  small = rw s.size v.small;
  below = rw (s.size, s.free_indices) v.below;
  distinct = rw s.free_indices v.distinct;
}

pub Placed-same : {o o' : Order} → o'.price ≡ o.price → o'.flags ≡ o.flags → Placed o → Placed o'
Placed-same e f h = record {
  on_grid = rw e h.on_grid;
  inside = rw e h.inside;
  plain = rw f h.plain;
}

pub write_order_at :
    (p : ObjectPool Order) (idx j : ℕ) (o : Order)
    → (write_order p idx o).pool j ≡ (if j == idx then o else p.pool j)
unfolding write_order update
write_order_at p idx j o = refl

pub write_order_free :
    (p : ObjectPool Order) (idx : ℕ) (o : Order)
    → ((write_order p idx o).size ≡ p.size) × ((write_order p idx o).free_indices ≡ p.free_indices)
unfolding write_order
write_order_free p idx o = (refl, refl)

pub home_same : (o o' : Order) → o'.price ≡ o.price → o'.flags ≡ o.flags → home o' ≡ home o
unfolding home
home_same o o' e f = rw (e, f) refl

-- A level with other volumes and other quantities in the orders.
pub Frame-requantify :
    {p p' : ObjectPool Order} {x x' : OrderIndex} {levels levels' : ℕ → PriceLevel}
    → Frame p x levels
    → p'.size ≡ p.size
    → p'.free_indices ≡ p.free_indices
    → ((j : ℕ) → (p'.pool j).order_id ≡ (p.pool j).order_id)
    → ((j : ℕ) → (p'.pool j).price ≡ (p.pool j).price)
    → ((j : ℕ) → (p'.pool j).flags ≡ (p.pool j).flags)
    → ((j : ℕ) → (p'.pool j).next ≡ (p.pool j).next)
    → ((j : ℕ) → (p'.pool j).prev ≡ (p.pool j).prev)
    → ((j : ℕ) → x'.location j ≡ x.location j)
    → reach_of x' ≡ reach_of x
    → ((k : ℕ) → (levels' k).head ≡ (levels k).head)
    → ((k : ℕ) → (levels' k).tail ≡ (levels k).tail)
    → Frame p' x' levels'
Frame-requantify {p} {p'} f s fr id price flags next prev loc size head tail = record {
  valid = record {
    positive = rw s f.valid.positive;
    small = rw s f.valid.small;
    below = rw (s, fr) f.valid.below;
    distinct = rw fr f.valid.distinct;
  };
  linked = Wired-ext live next prev (λ j. home_same _ _ (price j) (flags j)) head tail f.linked;
  indexed = Indexed-ext f.indexed live (λ j h. id j) (λ j h. price j) (λ j h. flags j) loc size;
  placed = λ i h. Placed-same (price i) (flags i) (f.placed i (sym (live i) ∙ h));
}
  where
    live : (j : ℕ) → in_use p' j ≡ in_use p j
    live j = rw (s, fr) refl

pub proper : {p : ObjectPool Order} {idx : ℕ} → IsValid p → in_use p idx ≡ true → idx ≢ null_index
proper {p} {idx} v h = let small = v.small in ground arith

pub write-IsValid :
    (p : ObjectPool Order) (idx : ℕ) (o : Order) → IsValid p → IsValid (write_order p idx o)
unfolding write_order
write-IsValid p idx o v = record {
  positive = v.positive;
  small = v.small;
  below = v.below;
  distinct = v.distinct;
}

update_twice :
    (levels : ℕ → PriceLevel) (k k' : ℕ) (a b : PriceLevel) (j : ℕ)
    → k' ≡ k
    → update (update levels k a) k' b j ≡ update levels k b j
unfolding update
update_twice levels k k' a b j e = ground arith

-- The data that an order keeps when it is written with other quantities between two changes of links.
rewritten :
    (pool : ℕ → Order) (idx j : ℕ) (quantity hidden : ℤ) {o o2 o3 : Order}
    → SameData o2 o3
    → o2 ≡ (
        if j == idx
        then record (pool idx) { quantity = quantity; hidden_quantity = hidden }
        else pool j)
    → SameData o (pool j)
    → (o3.order_id ≡ o.order_id) × (o3.price ≡ o.price) × (o3.flags ≡ o.flags)
rewritten pool idx j quantity hidden h e k =
    let a = h.order_id in
    let b = h.price in
    let c = h.flags in let a' = k.order_id in let b' = k.price in let c' = k.flags in ground arith

module _ {p : ObjectPool Order} {x : OrderIndex} {levels : ℕ → PriceLevel} (f : Frame p x levels)
    (level : PriceLevel) (idx : ℕ) (here : in_use p idx ≡ true)
    (same_head : level.head ≡ (levels (home (p.pool idx))).head)
    (same_tail : level.tail ≡ (levels (home (p.pool idx))).tail) where
  -- An order is unlinked, freed and deactivated.
  pub remove-Frame :
      let (p1, level1) = list_remove p level idx in
      Frame
        (Pool.free default_order p1 idx)
        (deactivate x (p.pool idx).order_id)
        (update levels (home (p.pool idx)) level1)
  remove-Frame =
      let (p1, level1) = list_remove p level idx in
      let same = (list_remove-OnlyLinks p level idx).0 in
      let fr =
        free_lem default_order p1 idx (SameObjects-IsValid same f.valid)
          (SameObjects-in_use same idx ∙ here) in
      let live : (j : ℕ)
          → in_use (Pool.free default_order p1 idx) j ≡ (not (j == idx) && in_use p j) =
        λ j. fr.1 j ∙ ap (λ t. not (j == idx) && t) (SameObjects-in_use same j) in
      let stays : (j : ℕ)
          → (not (j == idx) && in_use p j) ≡ true
          → (Pool.free default_order p1 idx).pool j ≡ p1.pool j =
        λ j h. ground (arith, fr.3 j) in
      let keeps : (j : ℕ)
          → j ≢ idx
          → SameData (p.pool j) ((Pool.free default_order p1 idx).pool j) =
        λ j ne.
          let e : (Pool.free default_order p1 idx).pool j ≡ p1.pool j = ground (arith, fr.3 j) in
          rw e (same.data_of j) in
      record {
        valid = fr.0;
        linked =
            Wired-ext live (λ j. refl) (λ j. refl) (λ j. refl) (λ j. refl) (λ j. refl)
              (Wired-live
                (list_remove-Linked (in_use p) p levels f.linked level idx same_head same_tail here)
                (λ j h. ap (λ o. o.next) (stays j h)) (λ j h. ap (λ o. o.prev) (stays j h))
                (λ j h. ap home (stays j h)));
        indexed =
            deactivate-Indexed f.indexed idx here live (λ j ne. (keeps j ne).order_id)
              (λ j ne. (keeps j ne).price) (λ j ne. (keeps j ne).flags);
        placed = λ i h.
            let both = live i in
            let ne : i ≢ idx = ground arith in
            let was : in_use p i ≡ true = ground arith in
            Placed-same (keeps i ne).price (keeps i ne).flags (f.placed i was);
      }

  -- An order is unlinked, written with other quantities, and linked behind the others.
  pub replenish-Frame :
      (quantity hidden : ℤ)
      → let (p1, level1) = list_remove p level idx in
        let p2 =
          write_order p1 idx
            (record (p1.pool idx) { quantity = quantity; hidden_quantity = hidden }) in
        let (p3, level3) = list_push_back p2 level1 idx in
        Frame p3 x (update levels (home (p.pool idx)) level3)
  replenish-Frame quantity hidden =
      let (p1, level1) = list_remove p level idx in
      let next : Order = record (p1.pool idx) { quantity = quantity; hidden_quantity = hidden } in
      let p2 = write_order p1 idx next in
      let (p3, level3) = list_push_back p2 level1 idx in
      let k : ℕ = home (p.pool idx) in
      let same = (list_remove-OnlyLinks p level idx).0 in
      let again = (list_push_back-OnlyLinks p2 level1 idx).0 in
      let at = write_order_at p1 idx in
      let fr = write_order_free p1 idx next in
      let own : SameData (p.pool idx) (p1.pool idx) = same.data_of idx in
      let same_home : home (p2.pool idx) ≡ k =
        ap home (at idx next ∙ rw ((==_iff idx idx).1 refl) refl)
        ∙ home_same (p.pool idx) next own.price own.flags in
      let without : Linked (λ j. not (j == idx) && in_use p j) p2.pool (update levels k level1) =
        Wired-live
          (list_remove-Linked (in_use p) p levels f.linked level idx same_head same_tail here)
          (λ j h. let e = at j next in ground arith) (λ j h. let e = at j next in ground arith)
          (λ j h. ap home (let e = at j next in ground arith)) in
      let ends : update levels k level1 (home (p2.pool idx)) ≡ level1 =
        ap (update levels k level1) same_home
        ∙ update_lem levels k level1 k
        ∙ rw ((==_iff k k).1 refl) refl in
      let linked =
        list_push_back-Linked (λ j. not (j == idx) && in_use p j) p2 (update levels k level1)
          without level1 idx (sym (ap (λ l. l.head) ends)) (sym (ap (λ l. l.tail) ends))
          (ground arith) (proper f.valid here) in
      let twice : (j : ℕ)
          → update (update levels k level1) (home (p2.pool idx)) level3 j
            ≡ update levels k level3 j =
        λ j. update_twice levels k (home (p2.pool idx)) level1 level3 j same_home in
      let live : (j : ℕ) → in_use p3 j ≡ in_use p j =
        λ j. SameObjects-in_use again j ∙ rw (fr.0, fr.1) (SameObjects-in_use same j) in
      let kept : (j : ℕ)
          → ((p3.pool j).order_id ≡ (p.pool j).order_id)
            × ((p3.pool j).price ≡ (p.pool j).price)
            × ((p3.pool j).flags ≡ (p.pool j).flags) =
        λ j.
          rewritten p1.pool idx j quantity hidden (again.data_of j) (at j next) (same.data_of j) in
      record {
        valid =
            SameObjects-IsValid again
              (write-IsValid p1 idx next (SameObjects-IsValid same f.valid));
        linked =
            Wired-ext (λ j. live j ∙ ground arith) (λ j. refl) (λ j. refl) (λ j. refl)
              (λ j. ap (λ l. l.head) (sym (twice j))) (λ j. ap (λ l. l.tail) (sym (twice j)))
              linked;
        indexed =
            Indexed-ext f.indexed live (λ j h. (kept j).0) (λ j h. (kept j).1) (λ j h. (kept j).2)
              (λ j. refl) refl;
        placed = λ i h. Placed-same (kept i).1 (kept i).2 (f.placed i (sym (live i) ∙ h));
      }
