-- ===== src/Book/Match/Fill.antt =====
-- One round of the walk over a level in `match_internal` of order_book.h: the incoming order and the
-- volumes of the level.
use titan_lob.Prelude.{
  ℕ, ◌≡◌, refl, ap, ◌∙◌, ◌&&◌, if◌then◌else◌, Bool-cases, inl, inr, arith, ℤ, pos, ◌-ℤ◌, ◌≤ℤ◌,
  ltb_ℤ, ltb_ℤ→lt, eqb_ℤ, eqb_ℤ→eq, min_ℤ, int_laws,
}
use titan_lob.Pool.{ObjectPool}
use titan_lob.Book.Types.{Order, is_aon, total_quantity, PriceLevel}
use titan_lob.Book.Links.{list_push_back, list_remove}
use titan_lob.Book.Links.Chain.{SameVolumes, list_remove-OnlyLinks, list_push_back-OnlyLinks}
use titan_lob.Book.Volume.Sums.{
  unaccounted, Gains, add_to_level_volume_lem, remove_from_level_volume_lem,
  adjust_level_volume_lem,
}
use titan_lob.Book.Volume.{remove_from_level_volume}
use titan_lob.Book.Add.{write_order}
use titan_lob.Book.Match.{
  Walk, Incoming, replenish_order, remove_order, trade_with, settle_order, visit_order,
}

-- what is left of the incoming order, less what the level holds
abbrev pub balance : Walk → ℤ
balance w = w.remaining_qty -ℤ w.level.total_volume

pub record Conserves (w w' : Walk) : Type 0 where
  pub balanced : balance w' ≡ balance w
  pub accounted : unaccounted w'.level ≡ unaccounted w.level
  pub nonneg : pos 0 ≤ℤ w.remaining_qty → pos 0 ≤ℤ w'.remaining_qty

pub Conserves-refl : (w : Walk) → Conserves w w
Conserves-refl w = record { balanced = refl; accounted = refl; nonneg = λ h. h }

pub Conserves-trans : {u v w : Walk} → Conserves u v → Conserves v w → Conserves u w
Conserves-trans h k = record {
  balanced = k.balanced ∙ h.balanced;
  accounted = k.accounted ∙ h.accounted;
  nonneg = λ p. k.nonneg (h.nonneg p);
}

min_leaves : (a b : ℤ) → pos 0 ≤ℤ a → pos 0 ≤ℤ a -ℤ min_ℤ a b
min_leaves a b h = elim (Bool-cases (ltb_ℤ b a)) [
  | inl less ↦ rw less (let p = ltb_ℤ→lt b a less in omega (int_laws, p))
  | inr more ↦ rw more (omega int_laws)
]

trade_with-Conserves :
    (inc : Incoming) (best : ℤ) (curr : ℕ) (w : Walk) → Conserves w (trade_with inc best curr w)
unfolding trade_with
trade_with-Conserves inc best curr w =
    let order : Order = w.order_pool.pool curr in
    let trade_qty : ℤ = min_ℤ w.remaining_qty order.quantity in
    let g = adjust_level_volume_lem w.level (pos 0 -ℤ trade_qty) (pos 0) (is_aon order) in
    record {
      balanced = rw g.volume (omega int_laws);
      accounted = g.accounted;
      nonneg = λ h. min_leaves w.remaining_qty order.quantity h;
    }

remove_order-Conserves : (curr : ℕ) (w : Walk) → Conserves w (remove_order w curr)
unfolding remove_order
remove_order-Conserves curr w =
    let same = (list_remove-OnlyLinks w.order_pool w.level curr).1 in
    record {
      balanced = rw same.total;
      accounted = rw (same.total, same.aon, same.non_aon);
      nonneg = λ h. h;
    }

-- Levels that gain and lose the same are in balance.
regained :
    {l l1 l2 l3 l4 : PriceLevel} {lost gained a b : ℤ}
    → Gains l l1 (pos 0 -ℤ lost) a
    → SameVolumes l1 l2
    → SameVolumes l2 l3
    → Gains l3 l4 gained b
    → gained ≡ lost
    → (l4.total_volume ≡ l.total_volume) × (unaccounted l4 ≡ unaccounted l)
regained {l} {l1} {l2} {l3} {l4} g s t h e = (
  rw (h.volume, e, t.total, s.total, g.volume) (omega int_laws),
  h.accounted ∙ rw (t.total, t.aon, t.non_aon, s.total, s.aon, s.non_aon) g.accounted,
)

written : (p : ObjectPool Order) (idx : ℕ) (o : Order) → (write_order p idx o).pool idx ≡ o
unfolding write_order
written p idx o = ground arith

-- The part that shows next and the part that stays hidden are what was hidden.
replenished :
    (p : ObjectPool Order) (level : PriceLevel) (curr : ℕ) (o o' : Order) (replenish : ℤ)
    → o.quantity ≡ pos 0
    → let (p', _) =
        list_push_back
          (write_order p curr
            (record o' { quantity = replenish; hidden_quantity = o.hidden_quantity -ℤ replenish }))
          level
          curr in
      total_quantity (p'.pool curr) ≡ total_quantity o
replenished p level curr o o' replenish spent =
    let next : Order = record o' {
      quantity = replenish;
      hidden_quantity = o.hidden_quantity -ℤ replenish;
    } in
    let links = list_push_back-OnlyLinks (write_order p curr next) level curr in
    let same = links.0.data_of curr in
    rw (same.quantity, same.hidden_quantity, written p curr next, spent) (omega int_laws)

replenish_order-Conserves :
    (curr : ℕ) (w : Walk)
    → (w.order_pool.pool curr).quantity ≡ pos 0
    → Conserves w (replenish_order w curr)
unfolding replenish_order
replenish_order-Conserves curr w spent =
    let order : Order = w.order_pool.pool curr in
    let replenish : ℤ =
      min_ℤ (if ltb_ℤ (pos 0) order.peak_size then order.peak_size else order.hidden_quantity)
        order.hidden_quantity in
    let level0 : PriceLevel = remove_from_level_volume w.level order in
    let (p1, level1) = list_remove w.order_pool level0 curr in
    let next : Order = record (p1.pool curr) {
      quantity = replenish;
      hidden_quantity = order.hidden_quantity -ℤ replenish;
    } in
    let (p3, level3) = list_push_back (write_order p1 curr next) level1 curr in
    let sums =
      regained (remove_from_level_volume_lem w.level order)
        (list_remove-OnlyLinks w.order_pool level0 curr).1
        (list_push_back-OnlyLinks (write_order p1 curr next) level1 curr).1
        (add_to_level_volume_lem level3 (p3.pool curr))
        (replenished p1 level1 curr order (p1.pool curr) replenish spent) in
    record { balanced = ap (λ v. w.remaining_qty -ℤ v) sums.0; accounted = sums.1; nonneg = λ h. h }

settle_order-Conserves : (curr : ℕ) (w : Walk) → Conserves w (settle_order curr w)
unfolding settle_order
settle_order-Conserves curr w =
    elim (Bool-cases (eqb_ℤ (w.order_pool.pool curr).quantity (pos 0))) [
      | inr left ↦ rw left (Conserves-refl w)
      | inl spent ↦
          rw spent (elim (Bool-cases (ltb_ℤ (pos 0) (w.order_pool.pool curr).hidden_quantity)) [
            | inl more ↦ rw more (
                replenish_order-Conserves curr w
                  (eqb_ℤ→eq (w.order_pool.pool curr).quantity (pos 0) spent))
            | inr gone ↦ rw gone (remove_order-Conserves curr w)
          ])
    ]

pub visit_order-Conserves :
    (inc : Incoming) (best : ℤ) (curr : ℕ) (w : Walk) → Conserves w (visit_order inc best curr w)
unfolding visit_order
visit_order-Conserves inc best curr w =
    elim (Bool-cases (is_aon o && ltb_ℤ w.remaining_qty (total_quantity o))) [
      | inl pass ↦ rw pass (Conserves-refl w)
      | inr fill ↦ rw fill (
          Conserves-trans (trade_with-Conserves inc best curr w)
            (settle_order-Conserves curr (trade_with inc best curr w)))
    ]
  where
    o : Order
    o = w.order_pool.pool curr
