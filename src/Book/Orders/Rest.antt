-- ===== src/Book/Orders/Rest.antt =====
-- `rest_order` of order_book.h on the orders of the book.
use titan_lob.Prelude.{
  ℕ, ◌+◌, ◌*◌, ◌^◌, ◌≡◌, ◌≢◌, ◌≤◌, ◌<◌, refl, sym, ap, ◌∙◌, true, false, ◌||◌, ◌==◌, ==_iff, arith,
  update, Bool-cases, inl, inr,
}
use titan_lob.Pool
use titan_lob.Pool.{ObjectPool, null_index}
use titan_lob.Pool.Invariant.{in_use, allocate_lem}
use titan_lob.Book.Types.{Order, default_order, is_buy, PriceLevel, is_active}
use titan_lob.Book.State.{OrderIndex}
use titan_lob.Book.Links.{list_push_back}
use titan_lob.Book.Links.Chain.{SameData, list_push_back-OnlyLinks}
use titan_lob.Book.Links.Lists.{home, Linked, Wired-ext, Wired-live, list_push_back-Linked}
use titan_lob.Book.Add.{write_order, index_order}
use titan_lob.Book.Orders.{Placed, Frame}
use titan_lob.Book.Orders.Index.{index_order-Indexed}
use titan_lob.Book.Orders.Steps.{
  SameObjects-in_use, SameObjects-IsValid, write_order_at, write_order_free, write-IsValid,
  Placed-same,
}

-- An order is allocated, written, linked behind its level, and indexed.
pub rest-Frame :
    {p : ObjectPool Order} {x : OrderIndex} {levels : ℕ → PriceLevel} (level : PriceLevel)
    (order : Order)
    → Frame p x levels
    → level.head ≡ (levels (home order)).head
    → level.tail ≡ (levels (home order)).tail
    → Placed order
    → p.size * 2 ≤ null_index
    → order.order_id + 1 < 2 ^ 64
    → x.size * 2 < 2 ^ 64
    → (order.order_id < x.size → is_active (x.location order.order_id) ≡ false)
    → let (idx, p1) = Pool.allocate default_order p in
      let (p3, level3) = list_push_back (write_order p1 idx order) level idx in
      Frame p3
        (index_order x order.order_id (is_buy order) order.price idx)
        (update levels (home order) level3)
rest-Frame {p} {x} {levels} level order f same_head same_tail good room fits sized new =
    let (idx, p1) = Pool.allocate default_order p in
    let a = allocate_lem default_order p f.valid room in
    let p2 = write_order p1 idx order in
    let (p3, level3) = list_push_back p2 level idx in
    let at = λ (j : ℕ). write_order_at p1 idx j order in
    let fr = write_order_free p1 idx order in
    let objects = a.objects in
    let out = a.was_free in
    let here : p2.pool idx ≡ order = at idx ∙ rw ((==_iff idx idx).1 refl) refl in
    let others : (j : ℕ) → in_use p j ≡ true → p2.pool j ≡ p.pool j =
      λ j h. ground (arith, at j, objects j) in
    let before : Linked (in_use p) p2.pool levels =
      Wired-live f.linked (λ j h. ap (λ o. o.next) (others j h))
        (λ j h. ap (λ o. o.prev) (others j h)) (λ j h. ap home (others j h)) in
    let same_home : home (p2.pool idx) ≡ home order = ap home here in
    let valid = a.valid in
    let linked =
      list_push_back-Linked (in_use p) p2 levels before level idx
        (same_head ∙ sym (ap (λ k. (levels k).head) same_home))
        (same_tail ∙ sym (ap (λ k. (levels k).tail) same_home)) out
        (let inside = a.inside in let small = valid.small in omega arith) in
    let again = (list_push_back-OnlyLinks p2 level idx).0 in
    let live : (j : ℕ) → in_use p3 j ≡ ((j == idx) || in_use p j) =
      λ j. SameObjects-in_use again j ∙ rw (fr.0, fr.1) (a.others j) in
    let own : SameData order (p3.pool idx) = rw here at (again.data_of idx) in
    let kept : (j : ℕ) → j ≢ idx → SameData (p.pool j) (p3.pool j) = λ j ne.
      let e : p2.pool j ≡ p.pool j = ground (arith, at j, objects j) in rw e at (again.data_of j) in
    let indexed =
      index_order-Indexed {orders' = p3.pool} f.indexed idx order.order_id fits sized out new live
        (λ j ne. (kept j ne).order_id) (λ j ne. (kept j ne).price) (λ j ne. (kept j ne).flags)
        own.order_id in
    record {
      valid = SameObjects-IsValid again (write-IsValid p1 idx order valid);
      linked =
          Wired-ext live (λ j. refl) (λ j. refl) (λ j. refl)
            (λ j. ap (λ k. (update levels k level3 j).head) (sym same_home))
            (λ j. ap (λ k. (update levels k level3 j).tail) (sym same_home)) linked;
      indexed = rw (own.price, own.flags) at indexed;
      placed = λ i h. elim (Bool-cases (i == idx)) [
        | inl e ↦ rw ((==_iff i idx).0 e) (Placed-same own.price own.flags good)
        | inr ne ↦
            let l = live i in
            let k = kept i (ground arith) in Placed-same k.price k.flags (f.placed i (ground arith))
      ];
    }
