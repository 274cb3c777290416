-- ===== src/Book/Match/Rounds.antt =====
-- The rounds of the outer loop of a match, one equation for each way that a round can go.
use mathlib.Core.Path.{subst}
use titan_lob.Prelude.{
  ℕ, zero, suc, ◌≡◌, sym, ◌∙◌, inl, inr, Bool-cases, Option-cases, some_inj, none≢some, Bool, true,
  false, not, ◌&&◌, ◌||◌, leb, none, some, ℤ, pos, ltb_ℤ,
}
use titan_lob.Bitmap.{max_price_levels}
use titan_lob.Book.Types.{PriceLevel, empty}
use titan_lob.Book.State.{price_to_index, other_side}
use titan_lob.Book.Match.{
  Walk, Incoming, match_level, Progress, opposite_side_empty, is_worse, start_walk, finish_walk,
  skip_level, match_loop,
}

abbrev pub best_of : Incoming → Progress → ℤ
best_of inc s = (other_side inc.is_buy s.book).best

abbrev pub level_of : Incoming → Progress → PriceLevel
level_of inc s = (other_side inc.is_buy s.book).levels (price_to_index (best_of inc s))

-- the test of the loop
abbrev pub goes_on : Bool → Progress → Bool
goes_on side_empty s = ltb_ℤ (pos 0) s.remaining_qty && not side_empty

-- the two breaks
abbrev pub breaks : Incoming → Progress → Bool
breaks inc s = is_worse inc (best_of inc s) || leb max_price_levels (price_to_index (best_of inc s))

module _ (fuel : ℕ) (inc : Incoming) (side_empty : Bool) (s : Progress) where
  pub round_done : goes_on side_empty s ≡ false → match_loop (suc fuel) inc side_empty s ≡ some s
  unfolding match_loop
  round_done h = rw (h, match_loop)

  module _ (more : goes_on side_empty s ≡ true) where
    pub round_break : breaks inc s ≡ true → match_loop (suc fuel) inc side_empty s ≡ some s
    unfolding match_loop
    round_break h = rw (more, match_loop, h)

    pub round_skip :
        breaks inc s ≡ false
        → empty (level_of inc s) ≡ true
        → match_loop (suc fuel) inc side_empty s ≡ match_loop fuel inc side_empty (skip_level inc s)
    unfolding match_loop
    round_skip h e = rw (more, match_loop, h, e)

    module _ (stays : breaks inc s ≡ false) (full : empty (level_of inc s) ≡ false) where
      pub round_none :
          match_level fuel inc (best_of inc s) (level_of inc s).head (start_walk inc s) ≡ none
          → match_loop (suc fuel) inc side_empty s ≡ none
      unfolding match_loop
      round_none e = rw (more, match_loop, stays, full, e)

      pub round_some :
          (w : Walk)
          → match_level fuel inc (best_of inc s) (level_of inc s).head (start_walk inc s) ≡ some w
          → match_loop (suc fuel) inc side_empty s
            ≡ match_loop fuel inc
                (opposite_side_empty inc.is_buy (finish_walk inc s (best_of inc s) w).book)
                (finish_walk inc s (best_of inc s) w)
      unfolding match_loop
      round_some w e = rw (more, match_loop, stays, full, e)

-- What a round keeps, the loop keeps.
module _ (inc : Incoming) (P : Progress → Type 0)
    (skip : (s : Progress) → P s → breaks inc s ≡ false → P (skip_level inc s))
    (walk : (fuel : ℕ) (s : Progress) (w : Walk)
      → P s
      → breaks inc s ≡ false
      → empty (level_of inc s) ≡ false
      → match_level fuel inc (best_of inc s) (level_of inc s).head (start_walk inc s) ≡ some w
      → P (finish_walk inc s (best_of inc s) w)) where
  pub match_loop_inv :
      (fuel : ℕ) (side_empty : Bool) (s s' : Progress)
      → match_loop fuel inc side_empty s ≡ some s'
      → P s
      → P s'
  unfolding match_loop
  match_loop_inv zero side_empty s s' h p = absurd (none≢some h)
  match_loop_inv (suc fuel) side_empty s s' h p = elim (Bool-cases (goes_on side_empty s)) [
    | inr done ↦ subst P (some_inj (sym (round_done fuel inc side_empty s done) ∙ h)) p
    | inl more ↦ elim (Bool-cases (breaks inc s)) [
      | inl broken ↦ subst P (some_inj (sym (round_break fuel inc side_empty s more broken) ∙ h)) p
      | inr stays ↦ elim (Bool-cases (empty (level_of inc s))) [
        | inl e ↦
            match_loop_inv fuel side_empty (skip_level inc s) s'
              (sym (round_skip fuel inc side_empty s more stays e) ∙ h) (skip s p stays)
        | inr full ↦
            elim (Option-cases
              (match_level fuel inc (best_of inc s) (level_of inc s).head (start_walk inc s))) [
                | inl short ↦
                    absurd
                      (none≢some (sym (round_none fuel inc side_empty s more stays full short) ∙ h))
                | inr (w, e) ↦
                    match_loop_inv fuel
                      (opposite_side_empty inc.is_buy (finish_walk inc s (best_of inc s) w).book)
                      (finish_walk inc s (best_of inc s) w) s'
                      (sym (round_some fuel inc side_empty s more stays full w e) ∙ h)
                      (walk fuel s w p stays full e)
              ]
      ]
    ]
  ]
