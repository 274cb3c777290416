-- ===== src/Book/Best/AskSide.antt =====
-- order_book.h: the best price of the asks against the levels.
use titan_lob.Prelude.{
  ℕ, ◌<◌, ◌≡◌, refl, sym, ap, ◌∙◌, true, false, ◌||◌, Bool-cases, inl, inr, arith, ℤ, pos, negsuc,
  pos_part, eqb_ℤ→eq, ltb_ℤ, leb_ℤ, eqb_ℤ, ◌/◌, update, update_lem,
}
use mathlib.Core.Path.{subst}
use titan_lob.Bitmap
use titan_lob.Bitmap.{Words, max_price_levels, bitmap_words, set, clear, test}
use titan_lob.Bitmap.Levels.{IsWords, test-clear, set-IsWords, clear-IsWords}
use titan_lob.Bitmap.Find.{Lowest, find_lowest_lem}
use titan_lob.Bitmap.Change.{Lowest-set, Lowest-clear, Lowest-widen}
use titan_lob.Protocol.Messages.{int64_max}
use titan_lob.Book.Types.{PriceLevel, empty}
use titan_lob.Book.State.{BookSide}
use titan_lob.Book.Best.{unmark, update_best_ask_after_add, update_best_ask_after_remove}
use titan_lob.Book.Best.Marks.{Marks, Marks-set, Marks-clear}

-- the best price and its word, for the lowest level or for none
abbrev pub ask_price : ℤ → ℤ
ask_price (pos i) = pos i
ask_price (negsuc i) = int64_max

abbrev pub ask_word : ℤ → ℤ
ask_word (pos i) = pos (i / 64)
ask_word (negsuc i) = pos 0

pub record AskTracked (s : BookSide) : Type 0 where
  pub low : ℤ
  pub words : IsWords s.bitmap
  pub marks : Marks s.bitmap s.levels
  pub lowest : Lowest s.bitmap 0 max_price_levels low
  pub best : s.best ≡ ask_price low
  pub word : s.best_word ≡ ask_word low

-- The method's test is the one for a new lowest level.
add_test :
    (bitmap : Words) (n : ℕ) (r : ℤ)
    → Lowest bitmap 0 max_price_levels r
    → (eqb_ℤ (ask_price r) int64_max || ltb_ℤ (pos n) (ask_price r))
      ≡ (ltb_ℤ r (pos 0) || ltb_ℤ (pos n) r)
add_test bitmap n _ (Lowest.found i begin inside at below) = ground arith
add_test bitmap n _ (Lowest.missing gone) = refl

-- A first order at a level.
pub ask_add-AskTracked :
    (s : BookSide) (n count : ℕ) (level : PriceLevel)
    → n < max_price_levels
    → empty level ≡ false
    → AskTracked s
    → AskTracked (
        update_best_ask_after_add
          (record s { levels = update s.levels n level; level_count = count })
          (pos n))
unfolding update_best_ask_after_add
ask_add-AskTracked s n count level lt full t =
    elim (Bool-cases (eqb_ℤ s.best int64_max || ltb_ℤ (pos n) s.best)) [
      | inl c ↦ rw c (record {
        low = pos n;
        words = set-IsWords s.bitmap n t.words;
        marks = Marks-set s.bitmap s.levels n level t.marks full;
        lowest = rw (same, c) at (Lowest-set s.bitmap n (omega arith) lt t.lowest);
        best = refl;
        word = refl;
      })
      | inr c ↦ rw c (record {
        low = t.low;
        words = set-IsWords s.bitmap n t.words;
        marks = Marks-set s.bitmap s.levels n level t.marks full;
        lowest = rw (same, c) at (Lowest-set s.bitmap n (omega arith) lt t.lowest);
        best = t.best;
        word = t.word;
      })
    ]
  where
    same :
        (ltb_ℤ t.low (pos 0) || ltb_ℤ (pos n) t.low)
        ≡ (eqb_ℤ s.best int64_max || ltb_ℤ (pos n) s.best)
    same =
        sym (add_test s.bitmap n t.low t.lowest)
        ∙ ap (λ p. eqb_ℤ p int64_max || ltb_ℤ (pos n) p) (sym t.best)

-- Where the mark of the best level goes, the search from its word gives the next.
next_low :
    (bitmap : Words) (n : ℕ)
    → IsWords bitmap
    → n < max_price_levels
    → Lowest bitmap 0 max_price_levels (pos n)
    → Lowest
        (clear bitmap n)
        0
        max_price_levels
        (Bitmap.find_lowest (clear bitmap n) bitmap_words (pos (n / 64)))
next_low bitmap n words lt (Lowest.found _ begin inside at below) =
    Lowest-widen (clear bitmap n)
      (λ j q.
        test-clear bitmap n j ∙ (let gone = below j (omega arith) (omega arith) in ground arith))
      (find_lowest_lem (clear bitmap n) bitmap_words (n / 64) (clear-IsWords bitmap n words)
        (omega arith))

-- The mark of another level goes.
other_cleared :
    (bitmap : Words) (n : ℕ) (r : ℤ)
    → n < max_price_levels
    → test bitmap n ≡ true
    → eqb_ℤ (pos n) (ask_price r) ≡ false
    → Lowest bitmap 0 max_price_levels r
    → Lowest (clear bitmap n) 0 max_price_levels r
other_cleared bitmap n _ lt at ne (Lowest.found i begin inside marked below) =
    Lowest-clear bitmap n (ground arith) (Lowest.found i begin inside marked below)
other_cleared bitmap n _ lt at ne (Lowest.missing gone) =
    absurd (let h = gone n (omega arith) lt in ground arith)

low_of_price :
    (bitmap : Words) (n : ℕ) (r : ℤ)
    → n < max_price_levels
    → eqb_ℤ (pos n) (ask_price r) ≡ true
    → Lowest bitmap 0 max_price_levels r
    → r ≡ pos n
low_of_price bitmap n _ lt e (Lowest.found i begin inside at below) =
    sym (eqb_ℤ→eq (pos n) (pos i) e)
low_of_price bitmap n _ lt e (Lowest.missing gone) = absurd (ground arith)

-- what the method makes of the result of the search
search_result :
    (bitmap : Words) (r : ℤ)
    → Lowest bitmap 0 max_price_levels r
    → (leb_ℤ (pos 0) r ≡ true → (r ≡ ask_price r) × (pos (pos_part r / 64) ≡ ask_word r))
      × (leb_ℤ (pos 0) r ≡ false → (int64_max ≡ ask_price r) × (pos 0 ≡ ask_word r))
search_result bitmap _ (Lowest.found i begin inside at below) =
    (λ h. (refl, refl), λ h. absurd (ground arith))
search_result bitmap _ (Lowest.missing gone) = (λ h. absurd (ground arith), λ h. (refl, refl))

-- The last order leaves a level.
pub ask_remove-AskTracked :
    (s : BookSide) (n count : ℕ) (level : PriceLevel)
    → n < max_price_levels
    → empty (s.levels n) ≡ false
    → empty level ≡ true
    → AskTracked s
    → AskTracked (
        update_best_ask_after_remove
          (record s { levels = update s.levels n level; level_count = count })
          (pos n))
unfolding update_best_ask_after_remove unmark
ask_remove-AskTracked s n count level lt full gone t = elim (Bool-cases (eqb_ℤ (pos n) s.best)) [
  | inl e ↦
      let found = search_result (clear s.bitmap n) (next s.best_word) (next_best e) in
      elim (Bool-cases (leb_ℤ (pos 0) (next s.best_word))) [
        | inl some_left ↦
            rw (here, e, some_left)
              (record {
                low = next s.best_word;
                words = clear-IsWords s.bitmap n t.words;
                marks = Marks-clear s.bitmap s.levels n level t.marks gone;
                lowest = next_best e;
                best = (found.0 some_left).0;
                word = (found.0 some_left).1;
              })
        | inr none_left ↦
            rw (here, e, none_left)
              (record {
                low = next s.best_word;
                words = clear-IsWords s.bitmap n t.words;
                marks = Marks-clear s.bitmap s.levels n level t.marks gone;
                lowest = next_best e;
                best = (found.1 none_left).0;
                word = (found.1 none_left).1;
              })
      ]
  | inr ne ↦
      rw (here, ne)
        (record {
          low = t.low;
          words = clear-IsWords s.bitmap n t.words;
          marks = Marks-clear s.bitmap s.levels n level t.marks gone;
          lowest =
              other_cleared s.bitmap n t.low lt (t.marks n lt ∙ rw full refl)
                (ap (eqb_ℤ (pos n)) (sym t.best) ∙ ne) t.lowest;
          best = t.best;
          word = t.word;
        })
]
  where
    here : empty (update s.levels n level n) ≡ true
    here = rw (update_lem s.levels n level n) (ground arith)

    next : ℤ → ℤ
    next word = Bitmap.find_lowest (clear s.bitmap n) bitmap_words word

    next_best :
        eqb_ℤ (pos n) s.best ≡ true
        → Lowest (clear s.bitmap n) 0 max_price_levels (next s.best_word)
    next_best e =
        let low : t.low ≡ pos n =
          low_of_price s.bitmap n t.low lt (ap (eqb_ℤ (pos n)) (sym t.best) ∙ e) t.lowest in
        let word : s.best_word ≡ pos (n / 64) = t.word ∙ ap ask_word low in
        rw word (
          next_low s.bitmap n t.words lt
            (subst (λ r. Lowest s.bitmap 0 max_price_levels r) low t.lowest))

-- The best ask, read off the levels: the lowest one that holds an order, or none where no level does.
pub data BestAsk (levels : ℕ → PriceLevel) : ℤ → Type 0 where
  lowest :
      (i : ℕ)
      → i < max_price_levels
      → empty (levels i) ≡ false
      → ((j : ℕ) → j < i → empty (levels j) ≡ true)
      → BestAsk levels (pos i)
  no_asks : ((j : ℕ) → j < max_price_levels → empty (levels j) ≡ true) → BestAsk levels int64_max

unmarked :
    (levels : ℕ → PriceLevel) (bitmap : Words) (j : ℕ)
    → Marks bitmap levels
    → j < max_price_levels
    → test bitmap j ≡ false
    → empty (levels j) ≡ true
unmarked levels bitmap j marks lt h = let m = marks j lt in ground arith

BestAsk-of_marks :
    (levels : ℕ → PriceLevel) (bitmap : Words) (r : ℤ)
    → Marks bitmap levels
    → Lowest bitmap 0 max_price_levels r
    → BestAsk levels (ask_price r)
BestAsk-of_marks levels bitmap _ marks (Lowest.found i begin inside at below) =
    BestAsk.lowest i inside (let m = marks i inside in ground arith)
      (λ j p. unmarked levels bitmap j marks (omega arith) (below j (omega arith) p))
BestAsk-of_marks levels bitmap _ marks (Lowest.missing gone) =
    BestAsk.no_asks (λ j q. unmarked levels bitmap j marks q (gone j (omega arith) q))

-- On a tracked side `best_ask_` is the lowest level that holds an order.
pub AskTracked-best : (s : BookSide) → AskTracked s → BestAsk s.levels s.best
AskTracked-best s t = rw t.best (BestAsk-of_marks s.levels s.bitmap t.low t.marks t.lowest)
