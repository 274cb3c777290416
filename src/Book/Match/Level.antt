-- ===== src/Book/Match/Level.antt =====
-- The inner loop of `match_internal` of order_book.h, where no order is all-or-none: every round
-- trades, so that the loop ends, and the orders of the book stay in order.
use titan_lob.Prelude.{
  ℕ, zero, suc, ◌≡◌, ◌≢◌, ◌<◌, refl, sym, ap, ◌∙◌, ◌⊎◌, inl, inr, true, false, not, ◌&&◌, ◌==◌,
  ==_iff, Bool-cases, arith, some, ℤ, pos, negsuc, pos_part, ◌-ℤ◌, ◌<ℤ◌, ◌≤ℤ◌, ltb_ℤ, ltb_ℤ→lt,
  ltb_ℤ→ge, eqb_ℤ, eqb_ℤ→eq, min_ℤ, int_laws, parts_of_eq, update, update_lem,
}
use titan_lob.Pool.{null_index}
use titan_lob.Pool.Invariant.{in_use}
use titan_lob.Book.Types.{Order, PriceLevel}
use titan_lob.Book.Match.{Walk, Incoming, trade_with, settle_order, visit_order, match_level}
use titan_lob.Book.Add.{write_order}
use titan_lob.Book.Orders.Steps.{write_order_at}
use titan_lob.Book.Match.Walking.{
  WalkSound, Traded, Settled, remove_order-Settled, replenish_order-Settled, trade_with-Traded,
}

-- What the trade leaves of both orders.
traded_lem :
    (inc : Incoming) (best : ℤ) (curr : ℕ) (w : Walk)
    → let w' = trade_with inc best curr w in
      (w'.remaining_qty
        ≡ w.remaining_qty -ℤ min_ℤ w.remaining_qty (w.order_pool.pool curr).quantity)
      × ((w'.order_pool.pool curr).quantity
          ≡ (w.order_pool.pool curr).quantity
            -ℤ min_ℤ w.remaining_qty (w.order_pool.pool curr).quantity)
      × ((w'.order_pool.pool curr).next ≡ (w.order_pool.pool curr).next)
unfolding trade_with
traded_lem inc best curr w =
    let order : Order = w.order_pool.pool curr in
    let traded : Order = record order {
      quantity = order.quantity -ℤ min_ℤ w.remaining_qty order.quantity;
    } in
    let at : (write_order w.order_pool curr traded).pool curr ≡ traded =
      write_order_at w.order_pool curr curr traded ∙ rw ((==_iff curr curr).1 refl) refl in
    (refl, ap (λ o. o.quantity) at, ap (λ o. o.next) at)

-- What gets smaller needs less fuel.
pub less_fuel : (a b : ℤ) (n : ℕ) → pos_part b < suc n → pos 0 ≤ℤ a → a <ℤ b → pos_part a < n
less_fuel (pos a) (pos b) n h p l = omega arith
less_fuel (pos a) (negsuc b) n h p l = absurd (omega arith)
less_fuel (negsuc a) b n h p l = absurd (omega arith)

-- One of the two is used up.
used_up :
    (a b : ℤ)
    → pos 0 <ℤ a
    → pos 0 <ℤ b
    → (a -ℤ min_ℤ a b <ℤ a)
      × (pos 0 ≤ℤ a -ℤ min_ℤ a b)
      × (pos 0 ≤ℤ b -ℤ min_ℤ a b)
      × ((a -ℤ min_ℤ a b ≡ pos 0) ⊎ (b -ℤ min_ℤ a b ≡ pos 0))
used_up a b p q = elim (Bool-cases (ltb_ℤ b a)) [
  | inl e ↦ rw e (
      let l = ltb_ℤ→lt b a e in
      (omega int_laws, omega int_laws, omega int_laws, inr (omega int_laws)))
  | inr e ↦ rw e (
      let l = ltb_ℤ→ge b a e in
      (omega int_laws, omega int_laws, omega int_laws, inl (omega int_laws)))
]

-- A round at the first order of the level.
record Visited (levels : ℕ → PriceLevel) (k : ℕ) (w w' : Walk) (curr : ℕ) : Type 0 where
  sound : WalkSound levels k w'
  less : w'.remaining_qty <ℤ w.remaining_qty
  nonneg : pos 0 ≤ℤ w'.remaining_qty
  next :
      (w'.remaining_qty ≡ pos 0)
      ⊎ (((w.order_pool.pool curr).next ≡ null_index)
          ⊎ ((w.order_pool.pool curr).next ≡ w'.level.head))

module _ (levels : ℕ → PriceLevel) (k : ℕ) where
  -- An order that is not used up stays where it is.
  kept-Traded :
      (w : Walk) (curr : ℕ)
      → Traded levels k w curr
      → pos 0 <ℤ (w.order_pool.pool curr).quantity
      → WalkSound levels k w
  kept-Traded w curr t some_left = record {
    frame = t.frame;
    shown = record {
      quantity = λ j h. elim (Bool-cases (j == curr)) [
        | inl e ↦ rw ((==_iff j curr).0 e) some_left
        | inr ne ↦ t.others j (ground arith) h
      ];
      hidden = t.hidden;
    };
    volumes = t.volumes;
  }

  settle_spent :
      (w : Walk) (curr : ℕ)
      → Traded levels k w curr
      → (w.order_pool.pool curr).quantity ≡ pos 0
      → Settled levels k w (settle_order curr w) curr
  unfolding settle_order
  settle_spent w curr t spent =
      rw spent (elim (Bool-cases (ltb_ℤ (pos 0) (w.order_pool.pool curr).hidden_quantity)) [
        | inl more ↦ rw more (replenish_order-Settled levels k w curr t more)
        | inr gone ↦
            let hidden = t.hidden curr t.live in
            let most = ltb_ℤ→ge (pos 0) (w.order_pool.pool curr).hidden_quantity gone in
            let q = parts_of_eq spent in
            rw gone (remove_order-Settled levels k w curr t (omega (int_laws, hidden, most, q)))
      ])

  settle_left :
      (w : Walk) (curr : ℕ)
      → eqb_ℤ (w.order_pool.pool curr).quantity (pos 0) ≡ false
      → settle_order curr w ≡ w
  unfolding settle_order
  settle_left w curr h = rw h refl

  head-in_use :
      (w : Walk) (curr : ℕ)
      → WalkSound levels k w
      → curr ≢ null_index
      → curr ≡ w.level.head
      → in_use w.order_pool curr ≡ true
  head-in_use w curr s ne e =
      let level_at : update levels k w.level k ≡ w.level =
        update_lem levels k w.level k ∙ rw ((==_iff k k).1 refl) refl in
      let head : (update levels k w.level k).head ≡ curr = ap (λ l. l.head) level_at ∙ sym e in
      ap (in_use w.order_pool) (sym head) ∙ s.frame.linked.head_live k (λ z. ne (sym head ∙ z))

  module _ (inc : Incoming) (best : ℤ) where
    visit_order-Visited :
        (curr : ℕ) (w : Walk)
        → WalkSound levels k w
        → pos 0 <ℤ w.remaining_qty
        → curr ≢ null_index
        → curr ≡ w.level.head
        → Visited levels k w (visit_order inc best curr w) curr
    unfolding visit_order
    visit_order-Visited curr w s more ne e =
        let here = head-in_use w curr s ne e in
        let plain = (s.frame.placed curr here).plain in
        let w1 : Walk = trade_with inc best curr w in
        let t : Traded levels k w1 curr = trade_with-Traded levels k inc best curr w s ne e in
        let l = traded_lem inc best curr w in
        let u =
          used_up w.remaining_qty (w.order_pool.pool curr).quantity more
            (s.shown.quantity curr here) in
        rw plain (elim (Bool-cases (eqb_ℤ (w1.order_pool.pool curr).quantity (pos 0))) [
          | inl spent ↦
              let z =
                settle_spent w1 curr t
                  (eqb_ℤ→eq (w1.order_pool.pool curr).quantity (pos 0) spent) in
              record {
                sound = z.sound;
                less = rw (z.same, l.0) u.0;
                nonneg = rw (z.same, l.0) u.1;
                next = inr (rw l.2 at z.next);
              }
          | inr left ↦ rw (settle_left w1 curr left) (
              let q = l.1 in
              let n = u.2 in
              let r = u.3 in
              let r0 = l.0 in
              record {
                sound = kept-Traded w1 curr t (ground arith);
                less = rw l.0 u.0;
                nonneg = rw l.0 u.1;
                next = inl (ground arith);
              })
        ])

    -- What the loop reaches.
    pub record Walked (w w' : Walk) : Type 0 where
      pub sound : WalkSound levels k w'
      pub nonneg : pos 0 ≤ℤ w'.remaining_qty
      pub no_more : w'.remaining_qty ≤ℤ w.remaining_qty

    -- Where the loop stands.
    abbrev Standing : Walk → ℕ → Type 0
    Standing w curr = (w.remaining_qty ≡ pos 0) ⊎ ((curr ≡ null_index) ⊎ (curr ≡ w.level.head))

    -- The loop ends when its fuel is more than what is left of the incoming order.
    match_level-Walked :
        (fuel : ℕ) (curr : ℕ) (w : Walk)
        → pos_part w.remaining_qty < fuel
        → WalkSound levels k w
        → pos 0 ≤ℤ w.remaining_qty
        → Standing w curr
        → (w' : Walk) × (match_level fuel inc best curr w ≡ some w') × Walked w w'
    unfolding match_level
    match_level-Walked zero curr w short s nonneg at = absurd (omega arith)
    match_level-Walked (suc fuel) curr w enough s nonneg at =
        elim (Bool-cases (not (curr == null_index) && ltb_ℤ (pos 0) w.remaining_qty)) [
          | inr done ↦
              rw (done, match_level)
                (w, refl, record { sound = s; nonneg = nonneg; no_more = omega int_laws })
          | inl more ↦
              let here : curr ≡ w.level.head = ground (arith, at) in
              let v = visit_order-Visited curr w s (ground arith) (ground arith) here in
              let less = v.less in
              let left = v.nonneg in
              let (w', e, r) =
                match_level-Walked fuel (w.order_pool.pool curr).next (visit_order inc best curr w)
                  (less_fuel _ w.remaining_qty fuel enough left less) v.sound left v.next in
              let no_more = r.no_more in
              rw (more, match_level)
                (
                  w',
                  e,
                  record {
                    sound = r.sound;
                    nonneg = r.nonneg;
                    no_more = omega (arith, no_more, less);
                  },
                )
        ]

    -- From the first order of a level on, the incoming order gets smaller.
    pub match_level-returns :
        (fuel : ℕ) (w : Walk)
        → pos_part w.remaining_qty < fuel
        → WalkSound levels k w
        → pos 0 <ℤ w.remaining_qty
        → w.level.head ≢ null_index
        → (w' : Walk) × (match_level fuel inc best w.level.head w ≡ some w')
          × WalkSound levels k w'
          × (pos 0 ≤ℤ w'.remaining_qty)
          × (w'.remaining_qty <ℤ w.remaining_qty)
    unfolding match_level
    match_level-returns zero w short s more ne = absurd (omega arith)
    match_level-returns (suc fuel) w enough s more ne =
        let v = visit_order-Visited w.level.head w s more ne refl in
        let less = v.less in
        let left = v.nonneg in
        let (w', e, r) =
          match_level-Walked fuel (w.order_pool.pool w.level.head).next
            (visit_order inc best w.level.head w)
            (less_fuel _ w.remaining_qty fuel enough left less) v.sound left v.next in
        let no_more = r.no_more in
        let goes : (not (w.level.head == null_index) && ltb_ℤ (pos 0) w.remaining_qty) ≡ true =
          ground arith in
        rw (goes, match_level) (w', e, r.sound, r.nonneg, omega (arith, no_more, less))
