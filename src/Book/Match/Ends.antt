-- ===== src/Book/Match/Ends.antt =====
-- The outer loop of `match_internal` in order_book.h, where no order of the book is all-or-none: it
-- ends, the orders of the book are in order at its end, and what is left meets no order.
use titan_lob.Prelude.{
  ℕ, zero, suc, ◌+◌, ◌<◌, ◌≡◌, refl, sym, ap, ◌∙◌, ◌⊎◌, inl, inr, Bool, true, false, not,
  Bool-cases, leb, some, arith, ℤ, pos, pos_part, ◌==◌, ==_iff, ◌<ℤ◌, ◌≤ℤ◌, update, update_lem,
}
use titan_lob.Bitmap.{max_price_levels}
use titan_lob.Book.Types.{empty}
use titan_lob.Book.State.{BookSide, Book, price_to_index, own_side, other_side}
use titan_lob.Book.Cancel.{take_level}
use titan_lob.Book.Match.{
  Walk, Incoming, match_level, Progress, opposite_side_empty, is_worse, start_walk, finish_walk,
  match_loop,
}
use titan_lob.Book.Match.Rounds.{
  best_of, level_of, goes_on, breaks, round_done, round_break, round_some,
}
use titan_lob.Book.Match.Conserve.{finish_walk_other}
use titan_lob.Book.Match.Level.{less_fuel, match_level-returns}
use titan_lob.Book.Match.Walking.{WalkSound}
use titan_lob.Book.Links.Lists.{place}
use titan_lob.Book.Tracking.{IsTracked-IsBest, take_level-IsTracked}
use titan_lob.Book.Volume.Held.{Exact-ext}
use titan_lob.Book.Add.{set_side}
use titan_lob.Book.Orders.{levels_of, IsSound}
use titan_lob.Book.Orders.Steps.{Frame-requantify}
use titan_lob.Book.Orders.Sides.{
  levels_of-place, levels_of-set, take_level-levels, IsSound-IsTracked, set_side-IsSound, BestAt,
  best_at,
}

pub own_other : (is_buy : Bool) (b : Book) → own_side (not is_buy) b ≡ other_side is_buy b
own_other true b = refl
own_other false b = refl

-- The walk starts from a sound book.
start_walk-WalkSound :
    (inc : Incoming) (s : Progress) (n : ℕ)
    → best_of inc s ≡ pos n
    → IsSound s.book
    → WalkSound (levels_of s.book) (place (not inc.is_buy) n) (start_walk inc s)
start_walk-WalkSound inc s n e h =
    let at : (levels_of s.book) (place (not inc.is_buy) n) ≡ level_of inc s =
      levels_of-place (not inc.is_buy) s.book n
      ∙ ap (λ t. t.levels n) (own_other inc.is_buy s.book)
      ∙ ap (λ q. (other_side inc.is_buy s.book).levels (price_to_index q)) (sym e) in
    record {
      frame =
          Frame-requantify h.frame refl refl (λ j. refl) (λ j. refl) (λ j. refl) (λ j. refl)
            (λ j. refl) (λ j. refl) refl
            (λ j.
              ground (
                arith,
                update_lem (levels_of s.book) (place (not inc.is_buy) n) (level_of inc s) j,
              ))
            (λ j.
              ground (
                arith,
                update_lem (levels_of s.book) (place (not inc.is_buy) n) (level_of inc s) j,
              ));
      shown = h.shown;
      volumes =
          Exact-ext s.book.order_pool s.book.order_pool (levels_of s.book)
            (update (levels_of s.book) (place (not inc.is_buy) n) (level_of inc s)) h.volumes refl
            (λ m j. refl)
            (λ m.
              ground (
                arith,
                update_lem (levels_of s.book) (place (not inc.is_buy) n) (level_of inc s) m,
              ));
    }

-- The book after the walk is sound again.
finish_walk-IsSound :
    (inc : Incoming) (s : Progress) (n : ℕ) (w : Walk)
    → BestAt (other_side inc.is_buy s.book) n
    → IsSound s.book
    → WalkSound (levels_of s.book) (place (not inc.is_buy) n) w
    → IsSound (finish_walk inc s (pos n) w).book
unfolding finish_walk
finish_walk-IsSound inc s n w best h v =
    let side : BookSide = other_side inc.is_buy s.book in
    let side' : BookSide = take_level (not inc.is_buy) side (pos n) w.level in
    let same = own_other inc.is_buy s.book in
    let levels = levels_of-set (not inc.is_buy) s.book side' n w.level (
      take_level-levels (not inc.is_buy) side (pos n) w.level
      ∙ ap (λ t. update t.levels n w.level) (sym same)) in
    set_side-IsSound (not inc.is_buy) s.book side' w.order_pool w.index w.out h
      (take_level-IsTracked (not inc.is_buy) side n w.level best.inside best.full
        (rw same at (IsSound-IsTracked s.book (not inc.is_buy) h))).0
      (Frame-requantify v.frame refl refl (λ j. refl) (λ j. refl) (λ j. refl) (λ j. refl)
        (λ j. refl) (λ j. refl) refl (λ j. ap (λ l. l.head) (levels j))
        (λ j. ap (λ l. l.tail) (levels j)))
      v.shown
      (Exact-ext w.order_pool w.order_pool
        (update (levels_of s.book) (place (not inc.is_buy) n) w.level)
        (levels_of (set_side (not inc.is_buy) s.book side')) v.volumes refl (λ m j. refl)
        (λ m. ap (λ l. l.total_volume) (levels m)))

finished :
    (inc : Incoming) (s : Progress) (n : ℕ) (price : ℤ) (w : Walk)
    → price ≡ pos n
    → IsSound (finish_walk inc s (pos n) w).book
    → IsSound (finish_walk inc s price w).book
finished inc s n price w e h = rw e h

less_fuel2 : (a b : ℤ) (n : ℕ) → pos_part b + 1 < suc n → pos 0 ≤ℤ a → a <ℤ b → pos_part a + 1 < n
less_fuel2 a b n h p l = let k = less_fuel a b (pos_part b) (omega arith) p l in omega (arith, k)

stop_at :
    (s : Progress) → pos 0 ≤ℤ s.remaining_qty → goes_on false s ≡ false → s.remaining_qty ≡ pos 0
stop_at s h done = ground arith

-- Where the loop stops.
pub record Filled (inc : Incoming) (s : Progress) : Type 0 where
  pub sound : IsSound s.book
  pub nonneg : pos 0 ≤ℤ s.remaining_qty
  pub stopped :
      (s.remaining_qty ≡ pos 0)
      ⊎ ((opposite_side_empty inc.is_buy s.book ≡ true) ⊎ (is_worse inc (best_of inc s) ≡ true))

-- The levels of the other side at a price that the incoming order does not accept are as they were.
abbrev pub Limited : Incoming → (s s' : Progress) → Type 0
Limited inc s s' =
    (m : ℕ)
    → is_worse inc (pos m) ≡ true
    → (other_side inc.is_buy s'.book).levels m ≡ (other_side inc.is_buy s.book).levels m

finish_walk-Limited :
    (inc : Incoming) (s : Progress) (n : ℕ) (w : Walk)
    → best_of inc s ≡ pos n
    → is_worse inc (best_of inc s) ≡ false
    → Limited inc s (finish_walk inc s (best_of inc s) w)
finish_walk-Limited inc s n w e meets m worse =
    let other : (m == price_to_index (best_of inc s)) ≡ false =
      apart (Bool-cases (m == price_to_index (best_of inc s))) in
    ap (λ t. t.levels m) (finish_walk_other inc s (best_of inc s) w).0
    ∙ ap (λ l. l m)
        (take_level-levels (not inc.is_buy) (other_side inc.is_buy s.book) (best_of inc s) w.level)
    ∙ update_lem (other_side inc.is_buy s.book).levels (price_to_index (best_of inc s)) w.level m
    ∙ rw other refl
  where
    apart :
        ((m == price_to_index (best_of inc s)) ≡ true)
          ⊎ ((m == price_to_index (best_of inc s)) ≡ false)
        → (m == price_to_index (best_of inc s)) ≡ false
    apart (inr ne) = ne
    apart (inl same) =
        let at : m ≡ n = (==_iff m (price_to_index (best_of inc s))).0 same ∙ ap price_to_index e in
        let no : true ≡ false =
          sym worse ∙ ap (λ k. is_worse inc (pos k)) at ∙ ap (is_worse inc) (sym e) ∙ meets in
        absurd (ground arith)

module _ (inc : Incoming) where
  full_level :
      (s : Progress) (n : ℕ)
      → BestAt (other_side inc.is_buy s.book) n
      → (breaks inc s ≡ is_worse inc (best_of inc s)) × (empty (level_of inc s) ≡ false)
  full_level s n best =
      let inside = best.inside in
      let in_book : leb max_price_levels (price_to_index (best_of inc s)) ≡ false =
        rw best.best (ground arith) in
      (
        rw in_book (ground arith),
        ap (λ q. empty ((other_side inc.is_buy s.book).levels (price_to_index q))) best.best
            ∙ best.full,
      )

  -- One round.
  round_returns :
      (fuel : ℕ) (s : Progress)
      → pos_part s.remaining_qty < fuel
      → IsSound s.book
      → pos 0 <ℤ s.remaining_qty
      → (n : ℕ) → BestAt (other_side inc.is_buy s.book) n
      → (w : Walk) × (match_level fuel inc (best_of inc s) (level_of inc s).head (start_walk inc s)
          ≡ some w)
        × IsSound (finish_walk inc s (best_of inc s) w).book
        × (pos 0 ≤ℤ (finish_walk inc s (best_of inc s) w).remaining_qty)
        × ((finish_walk inc s (best_of inc s) w).remaining_qty <ℤ s.remaining_qty)
  unfolding finish_walk
  round_returns fuel s enough h more n best =
      let full = (full_level s n best).1 in
      let (w, e, v, nonneg, less) =
        match_level-returns (levels_of s.book) (place (not inc.is_buy) n) inc (best_of inc s) fuel
          (start_walk inc s) enough (start_walk-WalkSound inc s n best.best h) more
          (ground arith) in
      (
        w,
        e,
        finished inc s n (best_of inc s) w best.best (finish_walk-IsSound inc s n w best h v),
        nonneg,
        less,
      )

  -- A book of plain orders is matched to the end when the fuel is more than the quantity and one.
  pub match_loop-returns :
      (fuel : ℕ) (side_empty : Bool) (s : Progress)
      → pos_part s.remaining_qty + 1 < fuel
      → IsSound s.book
      → pos 0 ≤ℤ s.remaining_qty
      → side_empty ≡ opposite_side_empty inc.is_buy s.book
      → (s' : Progress) × (match_loop fuel inc side_empty s ≡ some s')
        × Filled inc s'
        × Limited inc s s'
  match_loop-returns zero side_empty s enough h nonneg same = absurd (omega arith)
  match_loop-returns (suc fuel) side_empty s enough h nonneg same =
      elim (Bool-cases (goes_on side_empty s)) [
        | inr done ↦ (
          s,
          round_done fuel inc side_empty s done,
          record {
            sound = h;
            nonneg = nonneg;
            stopped = elim (Bool-cases side_empty) [
              | inl none ↦ inr (inl (sym same ∙ none))
              | inr some_left ↦ inl (stop_at s nonneg (rw some_left at done))
            ];
          },
          λ m worse. refl,
        )
        | inl more ↦
            let open_side : opposite_side_empty inc.is_buy s.book ≡ false =
              sym same ∙ ground arith in
            let (n, best) =
              best_at inc.is_buy s.book
                (IsTracked-IsBest (not inc.is_buy) (other_side inc.is_buy s.book) (
                  rw (own_other inc.is_buy s.book) at
                    (IsSound-IsTracked s.book (not inc.is_buy) h)))
                open_side in
            let (stays, full) = full_level s n best in
            elim (Bool-cases (is_worse inc (best_of inc s))) [
              | inl worse ↦ (
                s,
                round_break fuel inc side_empty s more (stays ∙ worse),
                record { sound = h; nonneg = nonneg; stopped = inr (inr worse) },
                λ m w. refl,
              )
              | inr meets ↦
                  let (w, e, sound, left, less) =
                    round_returns fuel s (omega arith) h (ground arith) n best in
                  let s1 : Progress = finish_walk inc s (best_of inc s) w in
                  let (s', e', f, limited) =
                    match_loop-returns fuel (opposite_side_empty inc.is_buy s1.book) s1
                      (less_fuel2 s1.remaining_qty s.remaining_qty fuel enough left less) sound left
                      refl in
                  (
                    s',
                    round_some fuel inc side_empty s more (stays ∙ meets) full w e ∙ e',
                    f,
                    λ m worse.
                        limited m worse ∙ finish_walk-Limited inc s n w best.best meets m worse,
                  )
            ]
      ]
