-- ===== src/Book/Match/Shrinks.antt =====
-- What a match in order_book.h does to the sizes of the pool and of the index, and to the orders that
-- are active: it adds none.
use mathlib.Core.Path.{subst}
use titan_lob.Prelude.{
  ℕ, zero, suc, ◌≡◌, refl, ◌∙◌, some, some_inj, none≢some, not, Bool, true, inl, inr, Bool-cases,
  arith, ℤ, pos, ◌-ℤ◌, ltb_ℤ, eqb_ℤ, min_ℤ, update, ◌&&◌, ◌==◌, if◌then◌else◌,
}
use titan_lob.Pool
use titan_lob.Pool.{ObjectPool, null_index}
use titan_lob.Book.Types.{Order, default_order, is_active, is_aon, total_quantity}
use titan_lob.Book.State.{OrderIndex}
use titan_lob.Book.Links.{list_remove}
use titan_lob.Book.Links.Chain.{list_remove-OnlyLinks, list_push_back-OnlyLinks}
use titan_lob.Book.Volume.{remove_from_level_volume}
use titan_lob.Book.Add.{write_order}
use titan_lob.Book.Cancel.{deactivate}
use titan_lob.Book.Cancel.Branches.{set_active-is_active}
use titan_lob.Book.Match.{
  Walk, Incoming, replenish_order, remove_order, trade_with, settle_order, visit_order, match_level,
  Progress, start_walk, finish_walk, skip_level, match_loop,
}
use titan_lob.Book.Match.Rounds.{best_of, level_of, match_loop_inv}
use titan_lob.Book.Orders.Steps.{write_order_free}

pub record Shrinks (p : ObjectPool Order) (x : OrderIndex) (p' : ObjectPool Order) (x' : OrderIndex)
    : Type 0 where
  pub pool_size : p'.size ≡ p.size
  pub index_size : x'.size ≡ x.size
  pub active : (id : ℕ) → is_active (x'.location id) ≡ true → is_active (x.location id) ≡ true

pub Shrinks-refl : (p : ObjectPool Order) (x : OrderIndex) → Shrinks p x p x
Shrinks-refl p x = record { pool_size = refl; index_size = refl; active = λ id h. h }

pub Shrinks-trans :
    {p q r : ObjectPool Order} {x y z : OrderIndex}
    → Shrinks p x q y
    → Shrinks q y r z
    → Shrinks p x r z
Shrinks-trans h k = record {
  pool_size = k.pool_size ∙ h.pool_size;
  index_size = k.index_size ∙ h.index_size;
  active = λ id a. h.active id (k.active id a);
}

pub deactivate-Shrinks :
    (p : ObjectPool Order) (x : OrderIndex) (id : ℕ) → Shrinks p x p (deactivate x id)
unfolding deactivate update
deactivate-Shrinks p x id = record {
  pool_size = refl;
  index_size = refl;
  active = λ j h. let gone = set_active-is_active (x.location id) in ground arith;
}

free_size : (p : ObjectPool Order) (idx : ℕ) → (Pool.free default_order p idx).size ≡ p.size
unfolding Pool.free
free_size p idx = refl

remove_order-Shrinks :
    (w : Walk) (curr : ℕ)
    → let w' = remove_order w curr in Shrinks w.order_pool w.index w'.order_pool w'.index
unfolding remove_order
remove_order-Shrinks w curr =
    let same = (list_remove-OnlyLinks w.order_pool w.level curr).0 in
    let d = deactivate-Shrinks w.order_pool w.index (w.order_pool.pool curr).order_id in
    let d_size = d.index_size in
    record {
      pool_size = free_size _ curr ∙ same.size;
      index_size = ground arith;
      active = λ id h. ground (arith, d.active id);
    }

replenish_order-Shrinks :
    (w : Walk) (curr : ℕ)
    → let w' = replenish_order w curr in Shrinks w.order_pool w.index w'.order_pool w'.index
unfolding replenish_order update
replenish_order-Shrinks w curr =
    let order : Order = w.order_pool.pool curr in
    let level0 = remove_from_level_volume w.level order in
    let (p1, level1) = list_remove w.order_pool level0 curr in
    let same = (list_remove-OnlyLinks w.order_pool level0 curr).0 in
    let part : ℤ =
      min_ℤ (if ltb_ℤ (pos 0) order.peak_size then order.peak_size else order.hidden_quantity)
        order.hidden_quantity in
    let next : Order = record (p1.pool curr) {
      quantity = part;
      hidden_quantity = order.hidden_quantity -ℤ part;
    } in
    let again = (list_push_back-OnlyLinks (write_order p1 curr next) level1 curr).0 in
    record {
      pool_size = again.size ∙ (write_order_free p1 curr next).0 ∙ same.size;
      index_size = ground arith;
      active = λ id h. ground arith;
    }

trade_with-Shrinks :
    (inc : Incoming) (best : ℤ) (curr : ℕ) (w : Walk)
    → let w' = trade_with inc best curr w in Shrinks w.order_pool w.index w'.order_pool w'.index
unfolding trade_with
trade_with-Shrinks inc best curr w = record {
  pool_size =
      let order : Order = w.order_pool.pool curr in
      (write_order_free w.order_pool curr
        (record order { quantity = order.quantity -ℤ min_ℤ w.remaining_qty order.quantity })).0;
  index_size = refl;
  active = λ id h. h;
}

settle_order-Shrinks :
    (curr : ℕ) (w : Walk)
    → let w' = settle_order curr w in Shrinks w.order_pool w.index w'.order_pool w'.index
unfolding settle_order
settle_order-Shrinks curr w = elim (Bool-cases (eqb_ℤ (w.order_pool.pool curr).quantity (pos 0))) [
  | inr left ↦ rw left (Shrinks-refl w.order_pool w.index)
  | inl spent ↦
      rw spent (elim (Bool-cases (ltb_ℤ (pos 0) (w.order_pool.pool curr).hidden_quantity)) [
        | inl more ↦ rw more (replenish_order-Shrinks w curr)
        | inr gone ↦ rw gone (remove_order-Shrinks w curr)
      ])
]

pub visit_order-Shrinks :
    (inc : Incoming) (best : ℤ) (curr : ℕ) (w : Walk)
    → let w' = visit_order inc best curr w in Shrinks w.order_pool w.index w'.order_pool w'.index
unfolding visit_order
visit_order-Shrinks inc best curr w =
    elim (Bool-cases (
      is_aon (w.order_pool.pool curr)
      && ltb_ℤ w.remaining_qty (total_quantity (w.order_pool.pool curr)))) [
        | inl pass ↦ rw pass (Shrinks-refl w.order_pool w.index)
        | inr fill ↦ rw fill (
            Shrinks-trans (trade_with-Shrinks inc best curr w)
              (settle_order-Shrinks curr (trade_with inc best curr w)))
      ]

match_level-Shrinks :
    (fuel : ℕ) (inc : Incoming) (best : ℤ) (curr : ℕ) (w w' : Walk)
    → match_level fuel inc best curr w ≡ some w'
    → Shrinks w.order_pool w.index w'.order_pool w'.index
unfolding match_level
match_level-Shrinks zero inc best curr w w' h = absurd (none≢some h)
match_level-Shrinks (suc fuel) inc best curr w w' h =
    elim (Bool-cases (not (curr == null_index) && ltb_ℤ (pos 0) w.remaining_qty)) [
      | inl more ↦ Shrinks-trans (visit_order-Shrinks inc best curr w) (
          match_level-Shrinks fuel inc best (w.order_pool.pool curr).next
            (visit_order inc best curr w) w' (rw more at h))
      | inr done ↦
          let stopped : some w ≡ some w' = rw done at h in
          subst (λ v. Shrinks w.order_pool w.index v.order_pool v.index) (some_inj stopped)
            (Shrinks-refl w.order_pool w.index)
    ]

skip_level-Shrinks :
    (inc : Incoming) (s : Progress)
    → let s' = skip_level inc s in
      Shrinks s.book.order_pool s.book.index s'.book.order_pool s'.book.index
unfolding skip_level
skip_level-Shrinks inc s = elim (Bool-cases inc.is_buy) [
  | inl e ↦ rw e (Shrinks-refl s.book.order_pool s.book.index)
  | inr e ↦ rw e (Shrinks-refl s.book.order_pool s.book.index)
]

finish_walk-Shrinks :
    (inc : Incoming) (s : Progress) (best : ℤ) (w : Walk)
    → Shrinks s.book.order_pool s.book.index w.order_pool w.index
    → let s' = finish_walk inc s best w in
      Shrinks s.book.order_pool s.book.index s'.book.order_pool s'.book.index
unfolding finish_walk
finish_walk-Shrinks inc s best w h = h

pub match_loop-Shrinks :
    (fuel : ℕ) (inc : Incoming) (side_empty : Bool) (s s' : Progress)
    → match_loop fuel inc side_empty s ≡ some s'
    → Shrinks s.book.order_pool s.book.index s'.book.order_pool s'.book.index
match_loop-Shrinks fuel inc side_empty s s' h =
    match_loop_inv inc (λ t. Shrinks s.book.order_pool s.book.index t.book.order_pool t.book.index)
      (λ t p stays. Shrinks-trans p (skip_level-Shrinks inc t))
      (λ k t w p stays full e. Shrinks-trans p (
        finish_walk-Shrinks inc t (best_of inc t) w
          (match_level-Shrinks k inc (best_of inc t) (level_of inc t).head (start_walk inc t) w e)))
      fuel side_empty s s' h (Shrinks-refl s.book.order_pool s.book.index)
