-- ===== src/Book/Orders/Volumes.antt =====
-- The volumes of the levels in order_book.h through the steps that change an order: what `rest_order`,
-- `cancel_order_internal` and `match_internal` do to the pool, with the level that they write back.
use titan_lob.Prelude.{
  ℕ, ◌*◌, ◌≡◌, ◌≢◌, ◌≤◌, refl, sym, ap, ◌∙◌, true, ◌||◌, ◌==◌, ==_iff, arith, ℤ, ◌+ℤ◌, ◌-ℤ◌,
  int_laws, if◌then◌else◌,
}
use mathlib.Core.Path.{ap₂}
use titan_lob.Pool
use titan_lob.Pool.{ObjectPool, null_index}
use titan_lob.Pool.Invariant.{IsValid, in_use, allocate_lem, free_lem}
use titan_lob.Book.Types.{Order, default_order, total_quantity, PriceLevel}
use titan_lob.Book.Links.{list_push_back, list_remove}
use titan_lob.Book.Links.Chain.{SameData, list_remove-OnlyLinks, list_push_back-OnlyLinks}
use titan_lob.Book.Links.Lists.{home, home-SameData}
use titan_lob.Book.Volume.{add_to_level_volume}
use titan_lob.Book.Volume.Held.{
  Exact, Revolumed, Exact-rewrite, Exact-remove, Exact-insert, add_total,
}
use titan_lob.Book.Add.{write_order}
use titan_lob.Book.Orders.Steps.{
  SameObjects-in_use, SameObjects-IsValid, write_order_at, write_order_free,
}

pub total-SameData : (o o' : Order) → SameData o o' → total_quantity o' ≡ total_quantity o
total-SameData o o' h = ap₂ (λ a b. a +ℤ b) h.quantity h.hidden_quantity

free_size : (p : ObjectPool Order) (idx : ℕ) → (Pool.free default_order p idx).size ≡ p.size
unfolding Pool.free
free_size p idx = refl

-- An order is unlinked and freed.
pub remove-Exact :
    (p : ObjectPool Order) (levels levels' : ℕ → PriceLevel) (level : PriceLevel) (idx : ℕ) (v : ℤ)
    → IsValid p
    → in_use p idx ≡ true
    → Exact p levels
    → Revolumed levels levels' (home (p.pool idx)) v
    → v ≡ (levels (home (p.pool idx))).total_volume -ℤ total_quantity (p.pool idx)
    → Exact (Pool.free default_order (list_remove p level idx).0 idx) levels'
remove-Exact p levels levels' level idx v valid here e levels_change e' =
    let p1 = (list_remove p level idx).0 in
    let same = (list_remove-OnlyLinks p level idx).0 in
    let fr =
      free_lem default_order p1 idx (SameObjects-IsValid same valid)
        (SameObjects-in_use same idx ∙ here) in
    let stays : (j : ℕ) → j ≢ idx → (Pool.free default_order p1 idx).pool j ≡ p1.pool j =
      λ j ne. ground (arith, fr.3 j) in
    Exact-remove p (Pool.free default_order p1 idx) levels levels' idx v e
      (free_size p1 idx ∙ same.size) (λ j ne. ground (arith, fr.1 j, SameObjects-in_use same j))
      (λ j ne. ap home (stays j ne) ∙ home-SameData _ _ (same.data_of j))
      (λ j ne. ap (λ o. total_quantity o) (stays j ne) ∙ total-SameData _ _ (same.data_of j)) here
      (ground (arith, fr.1 idx)) levels_change e'

-- An order is written with other quantities.
pub write-Exact :
    (p : ObjectPool Order) (levels levels' : ℕ → PriceLevel) (idx : ℕ) (quantity : ℤ) (v : ℤ)
    → in_use p idx ≡ true
    → Exact p levels
    → Revolumed levels levels' (home (p.pool idx)) v
    → v ≡ (levels (home (p.pool idx))).total_volume +ℤ (quantity -ℤ (p.pool idx).quantity)
    → Exact (write_order p idx (record (p.pool idx) { quantity = quantity })) levels'
unfolding home
write-Exact p levels levels' idx quantity v here e levels_change e' =
    let next : Order = record (p.pool idx) { quantity = quantity } in
    let at = λ (j : ℕ). write_order_at p idx j next in
    let self : (write_order p idx next).pool idx ≡ next =
      at idx ∙ rw ((==_iff idx idx).1 refl) refl in
    Exact-rewrite p (write_order p idx next) levels levels' idx v e (write_order_free p idx next).0
      (λ j. rw ((write_order_free p idx next).0, (write_order_free p idx next).1) refl)
      (λ j. ground (arith, at j)) (λ j ne. ground (arith, at j)) here levels_change
      (e' ∙ rw self (omega int_laws))

kept_home :
    (pool pool' : ℕ → Order) (idx : ℕ) (quantity hidden : ℤ) (j : ℕ)
    → pool' j ≡ (
        if j == idx
        then record (pool idx) { quantity = quantity; hidden_quantity = hidden }
        else pool j)
    → home (pool' j) ≡ home (pool j)
unfolding home
kept_home pool pool' idx quantity hidden j h = ground (arith, h)

-- An order is unlinked, written with other quantities, and linked behind the others.
pub replenish-Exact :
    (p : ObjectPool Order) (levels levels' : ℕ → PriceLevel) (level : PriceLevel) (idx : ℕ)
    (quantity hidden : ℤ) (v : ℤ)
    → in_use p idx ≡ true
    → Exact p levels
    → let (p1, level1) = list_remove p level idx in
      let p2 =
        write_order p1 idx
          (record (p1.pool idx) { quantity = quantity; hidden_quantity = hidden }) in
      Revolumed levels levels' (home (p.pool idx)) v
      → v
        ≡ (levels (home (p.pool idx))).total_volume
          +ℤ ((quantity +ℤ hidden) -ℤ total_quantity (p.pool idx))
      → Exact (list_push_back p2 level1 idx).0 levels'
replenish-Exact p levels levels' level idx quantity hidden v here e levels_change e' =
    let (p1, level1) = list_remove p level idx in
    let next : Order = record (p1.pool idx) { quantity = quantity; hidden_quantity = hidden } in
    let p2 = write_order p1 idx next in
    let p3 = (list_push_back p2 level1 idx).0 in
    let same = (list_remove-OnlyLinks p level idx).0 in
    let again = (list_push_back-OnlyLinks p2 level1 idx).0 in
    let at = λ (j : ℕ). write_order_at p1 idx j next in
    let fr = write_order_free p1 idx next in
    let self : p2.pool idx ≡ next = at idx ∙ rw ((==_iff idx idx).1 refl) refl in
    let other : (j : ℕ) → j ≢ idx → p2.pool j ≡ p1.pool j = λ j ne. ground (arith, at j) in
    Exact-rewrite p p3 levels levels' idx v e (again.size ∙ fr.0 ∙ same.size)
      (λ j. SameObjects-in_use again j ∙ rw (fr.0, fr.1) (SameObjects-in_use same j))
      (λ j.
        home-SameData _ _ (again.data_of j)
        ∙ kept_home p1.pool p2.pool idx quantity hidden j (at j)
        ∙ home-SameData _ _ (same.data_of j))
      (λ j ne.
        total-SameData _ _ (again.data_of j)
        ∙ ap (λ o. total_quantity o) (other j ne)
        ∙ total-SameData _ _ (same.data_of j))
      here levels_change
      (e'
        ∙ ap (λ t. (levels (home (p.pool idx))).total_volume +ℤ (t -ℤ total_quantity (p.pool idx)))
            (sym (total-SameData _ _ (again.data_of idx) ∙ ap (λ o. total_quantity o) self)))

-- An order is allocated, written and linked behind its level, which counts it.
pub rest-Exact :
    (p : ObjectPool Order) (levels levels' : ℕ → PriceLevel) (level : PriceLevel) (order : Order)
    → IsValid p
    → p.size * 2 ≤ null_index
    → Exact p levels
    → level.total_volume ≡ (levels (home order)).total_volume
    → let (idx, p1) = Pool.allocate default_order p in
      let (p3, level3) = list_push_back (write_order p1 idx order) level idx in
      Revolumed levels levels' (home order) (add_to_level_volume level3 (p3.pool idx)).total_volume
      → Exact p3 levels'
rest-Exact p levels levels' level order valid room e same_level levels_change =
    let (idx, p1) = Pool.allocate default_order p in
    let a = allocate_lem default_order p valid room in
    let p2 = write_order p1 idx order in
    let (p3, level3) = list_push_back p2 level idx in
    let at = λ (j : ℕ). write_order_at p1 idx j order in
    let fr = write_order_free p1 idx order in
    let links = list_push_back-OnlyLinks p2 level idx in
    let again = links.0 in
    let objects = a.objects in
    let grown = a.grown in
    let inside = a.inside in
    let size : p3.size ≡ p1.size = again.size ∙ fr.0 in
    let self : p2.pool idx ≡ order = at idx ∙ rw ((==_iff idx idx).1 refl) refl in
    let other : (j : ℕ) → j ≢ idx → p2.pool j ≡ p.pool j =
      λ j ne. ground (arith, at j, objects j) in
    let live : (j : ℕ) → in_use p3 j ≡ ((j == idx) || in_use p j) =
      λ j. SameObjects-in_use again j ∙ rw (fr.0, fr.1) (a.others j) in
    let own_home : home (p3.pool idx) ≡ home order =
      home-SameData _ _ (again.data_of idx) ∙ ap home self in
    Exact-insert p p3 levels levels' idx (add_to_level_volume level3 (p3.pool idx)).total_volume e
      (omega (arith, grown, size)) (omega (arith, inside, size)) (λ j ne. ground (arith, live j))
      (λ j ne. home-SameData _ _ (again.data_of j) ∙ ap home (other j ne))
      (λ j ne. total-SameData _ _ (again.data_of j) ∙ ap (λ o. total_quantity o) (other j ne))
      a.was_free (ground (arith, live idx)) (rw own_home levels_change)
      (add_total level3 (p3.pool idx)
        ∙ ap (λ t. t +ℤ total_quantity (p3.pool idx))
            (links.1.total ∙ same_level ∙ ap (λ k. (levels k).total_volume) (sym own_home)))
