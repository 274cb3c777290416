-- ===== src/Book/Match/Walking.antt =====
-- The walk over a level in `match_internal` of order_book.h, where no order is all-or-none: it takes
-- the orders from the head of the level, and keeps the orders of the book in order.
use titan_lob.Prelude.{
  ℕ, ◌≡◌, ◌≢◌, refl, sym, ap, ◌∙◌, ◌⊎◌, inl, inr, Bool, true, ◌==◌, ==_iff, if◌then◌else◌,
  Bool-cases, arith, ℤ, pos, ◌+ℤ◌, ◌-ℤ◌, ◌<ℤ◌, ◌≤ℤ◌, ltb, ltb_ℤ, ltb_ℤ→ge, min_ℤ, int_laws, update,
  update_lem,
}
use titan_lob.Pool.{ObjectPool, null_index}
use titan_lob.Pool.Invariant.{in_use, free_lem}
use titan_lob.Book.Types.{Order, default_order, is_aon, total_quantity, PriceLevel}
use titan_lob.Book.State.{OrderIndex}
use titan_lob.Book.Links.{list_push_back, list_remove}
use titan_lob.Book.Links.Chain.{list_remove-OnlyLinks, list_push_back-OnlyLinks}
use titan_lob.Book.Links.Lists.{home, remove_ends, push_ends}
use titan_lob.Book.Volume.{remove_from_level_volume, add_to_level_volume, adjust_level_volume}
use titan_lob.Book.Add.{write_order}
use titan_lob.Book.Match.{Walk, Incoming, replenish_order, remove_order, trade_with}
use titan_lob.Book.Volume.Held.{Exact, Revolumed, adjust_total, add_total, remove_total}
use titan_lob.Book.Orders.Volumes.{remove-Exact, replenish-Exact, write-Exact, total-SameData}
use titan_lob.Book.Orders.{Frame, Shown}
use titan_lob.Book.Orders.Steps.{
  Frame-requantify, remove-Frame, replenish-Frame, SameObjects-in_use, SameObjects-IsValid,
  write_order_at, write_order_free,
}

-- The book's orders during a walk over the level at the place `k`.
pub record WalkSound (levels : ℕ → PriceLevel) (k : ℕ) (w : Walk) : Type 0 where
  pub frame : Frame w.order_pool w.index (update levels k w.level)
  pub shown : Shown w.order_pool
  pub volumes : Exact w.order_pool (update levels k w.level)

-- What is known between a trade with the order at `curr`, the first of the level, and its settlement.
pub record Traded (levels : ℕ → PriceLevel) (k : ℕ) (w : Walk) (curr : ℕ) : Type 0 where
  pub frame : Frame w.order_pool w.index (update levels k w.level)
  pub others :
      (j : ℕ) → j ≢ curr → in_use w.order_pool j ≡ true → pos 0 <ℤ (w.order_pool.pool j).quantity
  pub hidden :
      (j : ℕ) → in_use w.order_pool j ≡ true → pos 0 ≤ℤ (w.order_pool.pool j).hidden_quantity
  pub live : in_use w.order_pool curr ≡ true
  pub volumes : Exact w.order_pool (update levels k w.level)
  pub at_head : w.level.head ≡ curr
  pub first : (w.order_pool.pool curr).prev ≡ null_index
  pub at_place : home (w.order_pool.pool curr) ≡ k
  pub tail : w.level.tail ≢ null_index

-- The walk after a settlement: what comes next is the head of the level, or nothing.
pub record Settled (levels : ℕ → PriceLevel) (k : ℕ) (w w' : Walk) (curr : ℕ) : Type 0 where
  pub sound : WalkSound levels k w'
  pub next :
      ((w.order_pool.pool curr).next ≡ null_index) ⊎ ((w.order_pool.pool curr).next ≡ w'.level.head)
  pub same : w'.remaining_qty ≡ w.remaining_qty

pub add_volume_ends :
    (l : PriceLevel) (o : Order)
    → ((add_to_level_volume l o).head ≡ l.head) × ((add_to_level_volume l o).tail ≡ l.tail)
unfolding add_to_level_volume
add_volume_ends l o = ground arith

pub remove_volume_ends :
    (l : PriceLevel) (o : Order)
    → ((remove_from_level_volume l o).head ≡ l.head)
      × ((remove_from_level_volume l o).tail ≡ l.tail)
unfolding remove_from_level_volume
remove_volume_ends l o = ground arith

pub adjust_volume_ends :
    (l : PriceLevel) (v h : ℤ) (a : Bool)
    → ((adjust_level_volume l v h a).head ≡ l.head) × ((adjust_level_volume l v h a).tail ≡ l.tail)
unfolding adjust_level_volume
adjust_volume_ends l v h a = ground arith

-- A level written over the one at its place.
rewrite_level :
    {p : ObjectPool Order} {x : OrderIndex} (levels : ℕ → PriceLevel) (k k' : ℕ)
    (a b c : PriceLevel)
    → k' ≡ k
    → c.head ≡ b.head
    → c.tail ≡ b.tail
    → Frame p x (update (update levels k a) k' b)
    → Frame p x (update levels k c)
rewrite_level {p} {x} levels k k' a b c e h t f =
    Frame-requantify f refl refl (λ j. refl) (λ j. refl) (λ j. refl) (λ j. refl) (λ j. refl)
      (λ j. refl) refl
      (λ j. ground (
        arith,
        update_lem levels k c j,
        update_lem (update levels k a) k' b j,
        update_lem levels k a j,
      ))
      (λ j. ground (
        arith,
        update_lem levels k c j,
        update_lem (update levels k a) k' b j,
        update_lem levels k a j,
      ))

module _ (levels : ℕ → PriceLevel) (k : ℕ) (w : Walk) (curr : ℕ) (t : Traded levels k w curr) where
  level_at : update levels k w.level (home (w.order_pool.pool curr)) ≡ w.level
  level_at = update_lem levels k w.level _ ∙ rw ((==_iff _ k).1 t.at_place) refl

  -- The level after the walk has another volume.
  relevel :
      (l : PriceLevel)
      → Revolumed
          (update levels k w.level)
          (update levels k l)
          (home (w.order_pool.pool curr))
          l.total_volume
  relevel l m = ground (arith, update_lem levels k l m, update_lem levels k w.level m, t.at_place)

  pub remove_order-Settled :
      total_quantity (w.order_pool.pool curr) ≡ pos 0
      → Settled levels k w (remove_order w curr) curr
  unfolding remove_order
  remove_order-Settled spent =
      let p = w.order_pool in
      let order_id = (p.pool curr).order_id in
      let (p1, level1) = list_remove p w.level curr in
      let known = t.frame.indexed.known curr t.live in
      let inside : ltb order_id w.index.size ≡ true = ground arith in
      let same = (list_remove-OnlyLinks p w.level curr).0 in
      let fr =
        free_lem default_order p1 curr (SameObjects-IsValid same t.frame.valid)
          (SameObjects-in_use same curr ∙ t.live) in
      let ends = remove_ends p w.level curr in
      let first = t.first in
      record {
        sound = rw inside (record {
          frame =
              rewrite_level levels k (home (p.pool curr)) w.level level1 level1 t.at_place refl refl
                (remove-Frame t.frame w.level curr t.live (ap (λ l. l.head) (sym level_at))
                  (ap (λ l. l.tail) (sym level_at)));
          shown = record {
            quantity = λ j h. ground (
              arith,
              fr.1 j,
              fr.3 j,
              SameObjects-in_use same j,
              (same.data_of j).quantity,
              t.others j,
            );
            hidden = λ j h. ground (
              arith,
              fr.1 j,
              fr.3 j,
              SameObjects-in_use same j,
              (same.data_of j).hidden_quantity,
              t.hidden j,
            );
          };
          volumes =
              remove-Exact p (update levels k w.level) (update levels k level1) w.level curr
                level1.total_volume t.frame.valid t.live t.volumes (relevel level1)
                ((list_remove-OnlyLinks p w.level curr).1.total
                  ∙ rw spent (ap (λ l. l.total_volume) (sym level_at) ∙ omega int_laws));
        });
        next = inr (ground arith);
        same = refl;
      }

  -- what the replenished order shows
  abbrev part : ℤ
  part =
      min_ℤ
        (if ltb_ℤ (pos 0) (w.order_pool.pool curr).peak_size
          then (w.order_pool.pool curr).peak_size
          else (w.order_pool.pool curr).hidden_quantity)
        (w.order_pool.pool curr).hidden_quantity

  part_lem :
      ltb_ℤ (pos 0) (w.order_pool.pool curr).hidden_quantity ≡ true
      → (pos 0 <ℤ part) × (pos 0 ≤ℤ (w.order_pool.pool curr).hidden_quantity -ℤ part)
  part_lem more = (
    ground arith,
    elim (Bool-cases (ltb_ℤ (pos 0) (w.order_pool.pool curr).peak_size)) [
      | inl e ↦
          rw e
            (elim (Bool-cases
              (ltb_ℤ (w.order_pool.pool curr).hidden_quantity (w.order_pool.pool curr).peak_size)) [
                | inl e' ↦ rw e' (omega int_laws)
                | inr e' ↦ rw e' (
                    let l =
                      ltb_ℤ→ge (w.order_pool.pool curr).hidden_quantity
                        (w.order_pool.pool curr).peak_size e' in
                    omega (int_laws, l))
              ])
      | inr e ↦
          rw e
            (elim (Bool-cases (
              ltb_ℤ (w.order_pool.pool curr).hidden_quantity
                (w.order_pool.pool curr).hidden_quantity)) [
                  | inl e' ↦ rw e' (omega int_laws)
                  | inr e' ↦ rw e' (omega int_laws)
                ])
    ],
  )

  pub replenish_order-Settled :
      ltb_ℤ (pos 0) (w.order_pool.pool curr).hidden_quantity ≡ true
      → Settled levels k w (replenish_order w curr) curr
  unfolding replenish_order
  replenish_order-Settled more =
      let p = w.order_pool in
      let order : Order = p.pool curr in
      let left = order.hidden_quantity -ℤ part in
      let level0 = remove_from_level_volume w.level order in
      let (p1, level1) = list_remove p level0 curr in
      let next : Order = record (p1.pool curr) { quantity = part; hidden_quantity = left } in
      let p2 = write_order p1 curr next in
      let (p3, level3) = list_push_back p2 level1 curr in
      let level4 = add_to_level_volume level3 (p3.pool curr) in
      let ends0 = remove_volume_ends w.level order in
      let ends1 = remove_ends p level0 curr in
      let ends3 = push_ends p2 level1 curr in
      let ends4 = add_volume_ends level3 (p3.pool curr) in
      let frame : Frame p3 w.index (update levels k level4) =
        rewrite_level levels k (home order) w.level level3 level4 t.at_place ends4.0 ends4.1 (
          replenish-Frame t.frame level0 curr t.live (ends0.0 ∙ ap (λ l. l.head) (sym level_at))
            (ends0.1 ∙ ap (λ l. l.tail) (sym level_at)) part left) in
      let known = t.frame.indexed.known curr t.live in
      let inside : ltb order.order_id w.index.size ≡ true = ground arith in
      let points = t.frame.indexed.points curr t.live in
      let same = (list_remove-OnlyLinks p level0 curr).0 in
      let again = (list_push_back-OnlyLinks p2 level1 curr).0 in
      let at : (j : ℕ) → p2.pool j ≡ (if j == curr then next else p1.pool j) =
        λ j. write_order_at p1 curr j next in
      let fr = write_order_free p1 curr next in
      let live : (j : ℕ) → in_use p3 j ≡ in_use p j =
        λ j. SameObjects-in_use again j ∙ rw (fr.0, fr.1) (SameObjects-in_use same j) in
      let first = t.first in
      let tail = t.tail in
      let self : p2.pool curr ≡ next = at curr ∙ rw ((==_iff curr curr).1 refl) refl in
      let sum : total_quantity (p3.pool curr) ≡ part +ℤ left =
        total-SameData _ _ (again.data_of curr) ∙ ap (λ o. total_quantity o) self in
      let counted : level4.total_volume
          ≡ (update levels k w.level (home order)).total_volume
            +ℤ ((part +ℤ left) -ℤ total_quantity order) =
        add_total level3 (p3.pool curr)
        ∙ rw
            (
              sum,
              (list_push_back-OnlyLinks p2 level1 curr).1.total,
              (list_remove-OnlyLinks p level0 curr).1.total,
              remove_total w.level order,
              level_at,
            )
            (omega int_laws) in
      let shows = part_lem more in
      record {
        sound = record {
          frame =
              Frame-requantify frame refl refl (λ j. refl) (λ j. refl) (λ j. refl) (λ j. refl)
                (λ j. refl)
                (λ j. rw inside (update_lem w.index.location order.order_id _ j ∙ ground arith))
                (rw inside refl) (λ j. refl) (λ j. refl);
          shown = record {
            quantity = λ j h. ground (
              arith,
              live j,
              at j,
              (again.data_of j).quantity,
              (same.data_of j).quantity,
              t.others j,
              shows.0,
            );
            hidden = λ j h. ground (
              arith,
              live j,
              at j,
              (again.data_of j).hidden_quantity,
              (same.data_of j).hidden_quantity,
              t.hidden j,
              shows.1,
            );
          };
          volumes =
              replenish-Exact p (update levels k w.level) (update levels k level4) level0 curr part
                left level4.total_volume t.live t.volumes (relevel level4) counted;
        };
        next = ground arith;
        same = refl;
      }

same_home : (o : Order) (q : ℤ) → home (record o { quantity = q }) ≡ home o
unfolding home
same_home o q = refl

-- The trade with the first order of the level.
pub trade_with-Traded :
    (levels : ℕ → PriceLevel) (k : ℕ) (inc : Incoming) (best : ℤ) (curr : ℕ) (w : Walk)
    → WalkSound levels k w
    → curr ≢ null_index
    → curr ≡ w.level.head
    → Traded levels k (trade_with inc best curr w) curr
unfolding trade_with
trade_with-Traded levels k inc best curr w s ne e =
    let p = w.order_pool in
    let order : Order = p.pool curr in
    let trade_qty = min_ℤ w.remaining_qty order.quantity in
    let traded : Order = record order { quantity = order.quantity -ℤ trade_qty } in
    let at : (j : ℕ)
        → (write_order p curr traded).pool j ≡ (if j == curr then traded else p.pool j) =
      λ j. write_order_at p curr j traded in
    let fr = write_order_free p curr traded in
    let level' = adjust_level_volume w.level (pos 0 -ℤ trade_qty) (pos 0) (is_aon order) in
    let ends = adjust_volume_ends w.level (pos 0 -ℤ trade_qty) (pos 0) (is_aon order) in
    let here : update levels k w.level k ≡ w.level =
      update_lem levels k w.level k ∙ rw ((==_iff k k).1 refl) refl in
    let head : (update levels k w.level k).head ≡ curr = ap (λ l. l.head) here ∙ sym e in
    let some_head : (update levels k w.level k).head ≢ null_index = ground arith in
    let head_live = s.frame.linked.head_live k some_head in
    let head_first = s.frame.linked.head_first k some_head in
    let head_key = s.frame.linked.head_key k some_head in
    let place : home order ≡ k = ap (λ i. home (p.pool i)) (sym head) ∙ head_key in
    let live : (j : ℕ) → in_use (write_order p curr traded) j ≡ in_use p j =
      λ j. rw (fr.0, fr.1) refl in
    let self : (write_order p curr traded).pool curr ≡ traded =
      at curr ∙ rw ((==_iff curr curr).1 refl) refl in
    record {
      frame =
          Frame-requantify s.frame fr.0 fr.1 (λ j. ground (arith, at j)) (λ j. ground (arith, at j))
            (λ j. ground (arith, at j)) (λ j. ground (arith, at j)) (λ j. ground (arith, at j))
            (λ j. refl) refl
            (λ j. ground (arith, update_lem levels k w.level j, update_lem levels k level' j))
            (λ j. ground (arith, update_lem levels k w.level j, update_lem levels k level' j));
      others = λ j ne h. ground (arith, at j, live j, s.shown.quantity j);
      hidden = λ j h. ground (arith, at j, live j, s.shown.hidden j);
      live = live curr ∙ ap (in_use p) (sym head) ∙ head_live;
      volumes =
          write-Exact p (update levels k w.level) (update levels k level') curr
            (order.quantity -ℤ trade_qty) level'.total_volume (ap (in_use p) (sym head) ∙ head_live)
            s.volumes
            (λ m.
              ground (arith, update_lem levels k w.level m, update_lem levels k level' m, place))
            (adjust_total w.level (pos 0 -ℤ trade_qty) (pos 0) (is_aon order)
              ∙ rw (place, here) (omega int_laws));
      at_head = ends.0 ∙ sym e;
      first = ap (λ o. o.prev) self ∙ ap (λ i. (p.pool i).prev) (sym head) ∙ head_first;
      at_place = ap home self ∙ same_home order _ ∙ ap (λ i. home (p.pool i)) (sym head) ∙ head_key;
      tail =
          λ none. some_head (s.frame.linked.no_tail k (ap (λ l. l.tail) here ∙ sym ends.1 ∙ none));
    }
