-- ===== src/Book/Match/Conserve.antt =====
-- The loops of `match_internal` in order_book.h: the volume of the two sides.
use mathlib.Core.Path.{subst}
use titan_lob.Prelude.{
  ℕ, zero, suc, ◌<◌, ◌≡◌, refl, ap, ◌∙◌, Bool, false, not, ◌&&◌, ◌==◌, Bool-cases, some_inj,
  none≢some, some, inl, inr, arith, ℤ, pos, ◌-ℤ◌, ◌≤ℤ◌, ltb_ℤ, int_laws, parts_of_eq,
}
use titan_lob.Bitmap.{max_price_levels}
use titan_lob.Pool.{null_index}
use titan_lob.Book.State.{price_to_index, own_side, other_side}
use titan_lob.Book.Volume.Side.{sum_volume, side_volume}
use titan_lob.Book.Cancel.{update_best_after_remove, take_level}
use titan_lob.Book.Cancel.Volume.{remove-SameLevels, take_level-side_volume}
use titan_lob.Book.Match.{
  Walk, Incoming, visit_order, match_level, Progress, start_walk, finish_walk, skip_level,
  match_loop,
}
use titan_lob.Book.Match.Rounds.{best_of, level_of, breaks, match_loop_inv}
use titan_lob.Book.Match.Fill.{Conserves, Conserves-refl, Conserves-trans, visit_order-Conserves}

-- The walk over a level: the incoming order loses what the level loses, and the level's two partial
-- sums go on to make up its total.
pub match_level-Conserves :
    (fuel : ℕ) (inc : Incoming) (best : ℤ) (curr : ℕ) (w w' : Walk)
    → match_level fuel inc best curr w ≡ some w'
    → Conserves w w'
unfolding match_level
match_level-Conserves zero inc best curr w w' h = absurd (none≢some h)
match_level-Conserves (suc fuel) inc best curr w w' h =
    elim (Bool-cases (not (curr == null_index) && ltb_ℤ (pos 0) w.remaining_qty)) [
      | inl more ↦ Conserves-trans (visit_order-Conserves inc best curr w) (
          match_level-Conserves fuel inc best (w.order_pool.pool curr).next
            (visit_order inc best curr w) w' (rw more at h))
      | inr done ↦
          let stopped : some w ≡ some w' = rw done at h in
          subst (λ v. Conserves w v) (some_inj stopped) (Conserves-refl w)
    ]

-- What a match has done so far: the other side has lost what was filled.
pub record Settles (inc : Incoming) (s s' : Progress) : Type 0 where
  pub balanced :
      s'.remaining_qty -ℤ side_volume (other_side inc.is_buy s'.book)
      ≡ s.remaining_qty -ℤ side_volume (other_side inc.is_buy s.book)
  pub own : own_side inc.is_buy s'.book ≡ own_side inc.is_buy s.book
  pub nonneg : pos 0 ≤ℤ s.remaining_qty → pos 0 ≤ℤ s'.remaining_qty

Settles-refl : (inc : Incoming) (s : Progress) → Settles inc s s
Settles-refl inc s = record { balanced = refl; own = refl; nonneg = λ h. h }

Settles-trans :
    {inc : Incoming} {s t u : Progress} → Settles inc s t → Settles inc t u → Settles inc s u
Settles-trans h k = record {
  balanced = k.balanced ∙ h.balanced;
  own = k.own ∙ h.own;
  nonneg = λ p. k.nonneg (h.nonneg p);
}

-- Where the sides stand after a round.
pub finish_walk_other :
    (inc : Incoming) (s : Progress) (best : ℤ) (w : Walk)
    → (other_side inc.is_buy (finish_walk inc s best w).book
        ≡ take_level (not inc.is_buy) (other_side inc.is_buy s.book) best w.level)
      × (own_side inc.is_buy (finish_walk inc s best w).book ≡ own_side inc.is_buy s.book)
unfolding finish_walk
finish_walk_other inc s best w = elim (Bool-cases inc.is_buy) [
  | inl e ↦ rw e (refl, refl)
  | inr e ↦ rw e (refl, refl)
]

pub skip_level_other :
    (inc : Incoming) (s : Progress)
    → (other_side inc.is_buy (skip_level inc s).book
        ≡ update_best_after_remove (not inc.is_buy) (other_side inc.is_buy s.book) (best_of inc s))
      × (own_side inc.is_buy (skip_level inc s).book ≡ own_side inc.is_buy s.book)
unfolding skip_level
skip_level_other inc s = elim (Bool-cases inc.is_buy) [
  | inl e ↦ rw e (refl, refl)
  | inr e ↦ rw e (refl, refl)
]

walk-Settles :
    (inc : Incoming) (s : Progress) (w : Walk)
    → price_to_index (best_of inc s) < max_price_levels
    → Conserves (start_walk inc s) w
    → Settles inc s (finish_walk inc s (best_of inc s) w)
unfolding finish_walk
walk-Settles inc s w lt c = record {
  balanced =
      rw
        (
          (finish_walk_other inc s (best_of inc s) w).0,
          take_level-side_volume (not inc.is_buy) (other_side inc.is_buy s.book) (best_of inc s)
              w.level lt,
        )
        (let b = parts_of_eq c.balanced in omega (int_laws, b));
  own = (finish_walk_other inc s (best_of inc s) w).1;
  nonneg = c.nonneg;
}

skip-Settles : (inc : Incoming) (s : Progress) → Settles inc s (skip_level inc s)
unfolding skip_level side_volume
skip-Settles inc s = record {
  balanced =
      ap (λ v. s.remaining_qty -ℤ v) (ap side_volume (skip_level_other inc s).0 ∙ same_volume);
  own = (skip_level_other inc s).1;
  nonneg = λ h. h;
}
  where
    same_volume :
        side_volume
          (update_best_after_remove (not inc.is_buy) (other_side inc.is_buy s.book) (best_of inc s))
        ≡ side_volume (other_side inc.is_buy s.book)
    same_volume =
        ap (λ l. sum_volume l max_price_levels)
          (remove-SameLevels (not inc.is_buy) (other_side inc.is_buy s.book) (best_of inc s)).levels

in_range :
    (inc : Incoming) (s : Progress)
    → breaks inc s ≡ false
    → price_to_index (best_of inc s) < max_price_levels
in_range inc s h = ground arith

-- Whatever the outer loop gives, the other side has lost what was filled, and the own side is as it
-- was.
pub match_loop-Settles :
    (fuel : ℕ) (inc : Incoming) (side_empty : Bool) (s s' : Progress)
    → match_loop fuel inc side_empty s ≡ some s'
    → Settles inc s s'
match_loop-Settles fuel inc side_empty s s' h =
    match_loop_inv inc (λ t. Settles inc s t) (λ t p stays. Settles-trans p (skip-Settles inc t))
      (λ k t w p stays full e. Settles-trans p (
        walk-Settles inc t w (in_range inc t stays) (
          match_level-Conserves k inc (best_of inc t) (level_of inc t).head (start_walk inc t) w
            e)))
      fuel side_empty s s' h (Settles-refl inc s)
