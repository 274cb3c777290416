-- ===== src/Book/Match/Stuck.antt =====
-- `match_internal` of order_book.h at a best level of all-or-none orders that are all larger than the
-- incoming order.
use mathlib.Core.Path.{fun_ext, subst}
use titan_lob.Prelude.{
  ℕ, zero, suc, ◌<◌, ◌≡◌, ◌≢◌, refl, sym, ap, ◌∙◌, ◌⊎◌, inl, inr, Bool, true, false, not, ◌==◌,
  ==_iff, if◌then◌else◌, none, some, List, [], ◌∷◌, arith, ℤ, pos, ◌<ℤ◌, ltb_ℤ, lt→ltb_ℤ, update,
  update_lem, Bool-cases,
}
use titan_lob.Bitmap.{max_price_levels}
use titan_lob.Pool.{null_index}
use titan_lob.Book.Types.{TimeInForce, gtc, ioc, Order, is_aon, total_quantity, empty}
use titan_lob.Book.State.{BookSide, Book, price_to_index, other_side}
use titan_lob.Book.Add.{set_side}
use titan_lob.Book.Cancel.{take_level}
use titan_lob.Book.Match.{
  Walk, Incoming, visit_order, match_level, Progress, opposite_side_empty, is_worse, start_walk,
  finish_walk, match_loop, match_rest, match_internal, incoming, start_progress,
}
use titan_lob.Book.Match.Rounds.{best_of, level_of, goes_on, breaks, round_none, round_some}

-- From `curr` on, the links lead through `xs` to the end, past all-or-none orders larger than `qty`.
abbrev pub Blocked : (ℕ → Order) → ℤ → ℕ → List ℕ → Type 0
Blocked orders qty curr [] = curr ≡ null_index
Blocked orders qty curr (i ∷ is) =
    (curr ≡ i)
    × (i ≢ null_index)
    × (is_aon (orders i) ≡ true)
    × (qty <ℤ total_quantity (orders i))
    × Blocked orders qty (orders i).next is

-- The walk passes over every order.
Blocked-walk :
    (fuel : ℕ) (inc : Incoming) (best : ℤ) (curr : ℕ) (w : Walk) (xs : List ℕ)
    → Blocked w.order_pool.pool w.remaining_qty curr xs
    → (match_level fuel inc best curr w ≡ none) ⊎ (match_level fuel inc best curr w ≡ some w)
unfolding match_level visit_order
Blocked-walk zero inc best curr w xs h = inl refl
Blocked-walk (suc fuel) inc best curr w [] h = rw h (inr refl)
Blocked-walk (suc fuel) inc best curr w (i ∷ is) (here, ne, aon, big, rest) =
    elim (Bool-cases (ltb_ℤ (pos 0) w.remaining_qty)) [
      | inl more ↦
          rw (more, passed, not_null)
            (Blocked-walk fuel inc best (w.order_pool.pool curr).next w is (rw here rest))
      | inr done ↦ rw (done, not_null) (inr refl)
    ]
  where
    not_null : (curr == null_index) ≡ false
    not_null = rw here (ground arith)

    passed : visit_order inc best curr w ≡ w
    passed = rw (here, aon, lt→ltb_ℤ _ _ big)

-- Writing a level back unchanged changes nothing.
update_self : {A : Type 0} (a : ℕ → A) (i : ℕ) → update a i (a i) ≡ a
update_self a i = fun_ext (λ j. update_lem a i (a i) j ∙ same j)
  where
    same : (j : ℕ) → (if j == i then a i else a j) ≡ a j
    same j = elim (Bool-cases (j == i)) [ inl e ↦ rw (e, (==_iff j i).0 e) | inr ne ↦ rw ne ]

take_level_self :
    (is_buy : Bool) (s : BookSide) (price : ℤ)
    → empty (s.levels (price_to_index price)) ≡ false
    → take_level is_buy s price (s.levels (price_to_index price)) ≡ s
unfolding take_level
take_level_self is_buy s price full =
    rw full (ap (λ l. record s { levels = l }) (update_self s.levels (price_to_index price)))

set_side_self : (is_buy : Bool) (b : Book) → set_side (not is_buy) b (other_side is_buy b) ≡ b
set_side_self true b = refl
set_side_self false b = refl

finish_walk_self :
    (order_id : ℕ) (is_buy : Bool) (price : ℤ) (s : Progress)
    → let inc = incoming order_id is_buy price in
      empty (level_of inc s) ≡ false → finish_walk inc s (best_of inc s) (start_walk inc s) ≡ s
unfolding finish_walk
finish_walk_self order_id true price s full =
    ap (λ t. record s { book = record (s.book) { ask = t } })
      (take_level_self false s.book.ask s.book.ask.best full)
finish_walk_self order_id false price s full =
    ap (λ t. record s { book = record (s.book) { bid = t } })
      (take_level_self true s.book.bid s.book.bid.best full)

-- The best level of the side that an incoming order meets, and what makes the order wait there.
pub record IsBlocked (b : Book) (inc : Incoming) (qty : ℤ) (n : ℕ) (xs : List ℕ) : Type 0 where
  pub best : (other_side inc.is_buy b).best ≡ pos n
  pub in_range : n < max_price_levels
  pub meets : is_worse inc (pos n) ≡ false
  pub positive : pos 0 <ℤ qty
  pub held : empty ((other_side inc.is_buy b).levels n) ≡ false
  pub chain : Blocked b.order_pool.pool qty ((other_side inc.is_buy b).levels n).head xs

side_not_empty :
    (b : Book) (is_buy : Bool) (n : ℕ)
    → (other_side is_buy b).best ≡ pos n
    → n < max_price_levels
    → opposite_side_empty is_buy b ≡ false
side_not_empty b true n e h = rw e (ground arith)
side_not_empty b false n e h = rw e (ground arith)

blocked_loop :
    (fuel : ℕ) (inc : Incoming) (s : Progress) (n : ℕ) (xs : List ℕ)
    → IsBlocked s.book inc s.remaining_qty n xs
    → match_loop fuel inc false s ≡ none
unfolding match_loop
blocked_loop zero inc s n xs h = refl
blocked_loop (suc fuel) inc s n xs h =
    elim (Blocked-walk fuel inc (best_of inc s) (level_of inc s).head (start_walk inc s) xs chain) [
      | inl short ↦ round_none fuel inc false s more stays full short
      | inr back ↦
          round_some fuel inc false s more stays full (start_walk inc s) back
          ∙ ap (λ t. match_loop fuel inc (opposite_side_empty inc.is_buy t.book) t)
              (finish_walk_self inc.order_id inc.is_buy inc.price s full)
          ∙ ap (λ e. match_loop fuel inc e s) (side_not_empty s.book inc.is_buy n h.best h.in_range)
          ∙ blocked_loop fuel inc s n xs h
    ]
  where
    more : goes_on false s ≡ true
    more = rw (lt→ltb_ℤ (pos 0) s.remaining_qty h.positive)

    stays : breaks inc s ≡ false
    stays = rw (h.best, h.meets) (let lt = h.in_range in ground arith)

    level_at : level_of inc s ≡ (other_side inc.is_buy s.book).levels n
    level_at = ap (λ p. (other_side inc.is_buy s.book).levels (price_to_index p)) h.best

    full : empty (level_of inc s) ≡ false
    full = ap (λ l. empty l) level_at ∙ h.held

    chain : Blocked s.book.order_pool.pool s.remaining_qty (level_of inc s).head xs
    chain =
        subst (λ l. Blocked s.book.order_pool.pool s.remaining_qty l.head xs) (sym level_at) h.chain

rest-blocked :
    (fuel : ℕ) (b : Book) (inc : Incoming) (qty : ℤ) (tif : TimeInForce) (n : ℕ) (xs : List ℕ)
    → IsBlocked b inc qty n xs
    → match_rest fuel b inc qty tif ≡ none
unfolding match_rest
rest-blocked fuel b inc qty tif n xs h =
    let open_side : opposite_side_empty inc.is_buy b ≡ false =
      side_not_empty b inc.is_buy n h.best h.in_range in
    let stuck : match_loop fuel inc false (start_progress b qty) ≡ none =
      blocked_loop fuel inc (start_progress b qty) n xs h in
    rw (open_side, match_rest, stuck)

-- A GTC or IOC match of an order that meets a best level where every order is all-or-none and
-- larger than it does not end: no fuel is enough.
pub match-blocked :
    (fuel : ℕ) (b : Book) (order_id : ℕ) (is_buy : Bool) (price qty : ℤ) (n : ℕ) (xs : List ℕ)
    → IsBlocked b (incoming order_id is_buy price) qty n xs
    → (match_internal fuel b order_id is_buy price qty gtc ≡ none)
      × (match_internal fuel b order_id is_buy price qty ioc ≡ none)
unfolding match_internal
match-blocked fuel b order_id is_buy price qty n xs h = (
  rest-blocked fuel b (incoming order_id is_buy price) qty gtc n xs h,
  rest-blocked fuel b (incoming order_id is_buy price) qty ioc n xs h,
)
