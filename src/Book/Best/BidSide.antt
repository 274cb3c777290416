-- ===== src/Book/Best/BidSide.antt =====
-- order_book.h: the best price of the bids against the levels.
use titan_lob.Prelude.{
  ℕ, ◌<◌, ◌≡◌, refl, sym, ap, ◌∙◌, true, false, ◌||◌, Bool-cases, inl, inr, arith, ℤ, pos, negsuc,
  pos_part, eqb_ℤ→eq, ltb_ℤ, leb_ℤ, eqb_ℤ, ◌/◌, update, update_lem,
}
use mathlib.Core.Path.{subst}
use titan_lob.Bitmap
use titan_lob.Bitmap.{Words, max_price_levels, set, clear, test}
use titan_lob.Bitmap.Levels.{IsWords, test-clear, set-IsWords, clear-IsWords}
use titan_lob.Bitmap.Find.{Highest, find_highest_lem}
use titan_lob.Bitmap.Change.{Highest-set, Highest-clear, Highest-widen}
use titan_lob.Book.Types.{PriceLevel, empty}
use titan_lob.Book.State.{BookSide}
use titan_lob.Book.Best.{unmark, update_best_bid_after_add, update_best_bid_after_remove}
use titan_lob.Book.Best.Marks.{Marks, Marks-set, Marks-clear}

-- the word that a level's bit is in
abbrev pub bid_word : ℤ → ℤ
bid_word (pos i) = pos (i / 64)
bid_word (negsuc i) = negsuc 0

pub record BidTracked (s : BookSide) : Type 0 where
  pub words : IsWords s.bitmap
  pub marks : Marks s.bitmap s.levels
  pub best : Highest s.bitmap max_price_levels s.best
  pub word : s.best_word ≡ bid_word s.best

-- A first order at a level.
pub bid_add-BidTracked :
    (s : BookSide) (n count : ℕ) (level : PriceLevel)
    → n < max_price_levels
    → empty level ≡ false
    → BidTracked s
    → BidTracked (
        update_best_bid_after_add
          (record s { levels = update s.levels n level; level_count = count })
          (pos n))
unfolding update_best_bid_after_add
bid_add-BidTracked s n count level lt full t =
    elim (Bool-cases (ltb_ℤ s.best (pos 0) || ltb_ℤ s.best (pos n))) [
      | inl c ↦ rw c (record {
        words = set-IsWords s.bitmap n t.words;
        marks = Marks-set s.bitmap s.levels n level t.marks full;
        best = rw c at (Highest-set s.bitmap n lt t.best);
        word = refl;
      })
      | inr c ↦ rw c (record {
        words = set-IsWords s.bitmap n t.words;
        marks = Marks-set s.bitmap s.levels n level t.marks full;
        best = rw c at (Highest-set s.bitmap n lt t.best);
        word = t.word;
      })
    ]

-- Where the mark of the best level goes, the search from its word gives the next.
next_high :
    (bitmap : Words) (n : ℕ)
    → IsWords bitmap
    → n < max_price_levels
    → Highest bitmap max_price_levels (pos n)
    → Highest
        (clear bitmap n)
        max_price_levels
        (Bitmap.find_highest (clear bitmap n) (pos (n / 64)))
next_high bitmap n words lt (Highest.found _ inside at above) =
    Highest-widen (clear bitmap n) (omega arith)
      (λ j p q. test-clear bitmap n j ∙ (let gone = above j (omega arith) q in ground arith))
      (find_highest_lem (clear bitmap n) (n / 64) (clear-IsWords bitmap n words))

-- The mark of another level goes.
other_cleared :
    (bitmap : Words) (n : ℕ) (r : ℤ)
    → n < max_price_levels
    → test bitmap n ≡ true
    → eqb_ℤ (pos n) r ≡ false
    → Highest bitmap max_price_levels r
    → Highest (clear bitmap n) max_price_levels r
other_cleared bitmap n _ lt at ne (Highest.found i inside marked above) =
    Highest-clear bitmap n (ground arith) (Highest.found i inside marked above)
other_cleared bitmap n _ lt at ne (Highest.missing gone) =
    absurd (let h = gone n lt in ground arith)

-- what the method makes of the result of the search
search_result :
    (bitmap : Words) (r : ℤ)
    → Highest bitmap max_price_levels r
    → (leb_ℤ (pos 0) r ≡ true → pos (pos_part r / 64) ≡ bid_word r)
      × (leb_ℤ (pos 0) r ≡ false → r ≡ negsuc 0)
search_result bitmap _ (Highest.found i inside marked above) = (λ h. refl, λ h. ground arith)
search_result bitmap _ (Highest.missing gone) = (λ h. ground arith, λ h. refl)

-- The last order leaves a level.
pub bid_remove-BidTracked :
    (s : BookSide) (n count : ℕ) (level : PriceLevel)
    → n < max_price_levels
    → empty (s.levels n) ≡ false
    → empty level ≡ true
    → BidTracked s
    → BidTracked (
        update_best_bid_after_remove
          (record s { levels = update s.levels n level; level_count = count })
          (pos n))
unfolding update_best_bid_after_remove unmark
bid_remove-BidTracked s n count level lt full gone t = elim (Bool-cases (eqb_ℤ (pos n) s.best)) [
  | inl e ↦ elim (Bool-cases (leb_ℤ (pos 0) (next s.best_word))) [
    | inl some_left ↦
        rw (here, e, some_left)
          (record {
            words = clear-IsWords s.bitmap n t.words;
            marks = Marks-clear s.bitmap s.levels n level t.marks gone;
            best = next_best e;
            word = (search_result (clear s.bitmap n) (next s.best_word) (next_best e)).0 some_left;
          })
    | inr none_left ↦
        rw (here, e, none_left)
          (record {
            words = clear-IsWords s.bitmap n t.words;
            marks = Marks-clear s.bitmap s.levels n level t.marks gone;
            best =
                subst (λ r. Highest (clear s.bitmap n) max_price_levels r)
                  ((search_result (clear s.bitmap n) (next s.best_word) (next_best e)).1 none_left)
                  (next_best e);
            word = refl;
          })
  ]
  | inr ne ↦
      rw (here, ne)
        (record {
          words = clear-IsWords s.bitmap n t.words;
          marks = Marks-clear s.bitmap s.levels n level t.marks gone;
          best = other_cleared s.bitmap n s.best lt (t.marks n lt ∙ rw full refl) ne t.best;
          word = t.word;
        })
]
  where
    here : empty (update s.levels n level n) ≡ true
    here = rw (update_lem s.levels n level n) (ground arith)

    next : ℤ → ℤ
    next word = Bitmap.find_highest (clear s.bitmap n) word

    next_best :
        eqb_ℤ (pos n) s.best ≡ true → Highest (clear s.bitmap n) max_price_levels (next s.best_word)
    next_best e =
        let best : s.best ≡ pos n = sym (eqb_ℤ→eq (pos n) s.best e) in
        let word : s.best_word ≡ pos (n / 64) = t.word ∙ ap bid_word best in
        rw word (
          next_high s.bitmap n t.words lt
            (subst (λ r. Highest s.bitmap max_price_levels r) best t.best))

-- The best bid, read off the levels: the highest one that holds an order, or none where no level does.
pub data BestBid (levels : ℕ → PriceLevel) : ℤ → Type 0 where
  highest :
      (i : ℕ)
      → i < max_price_levels
      → empty (levels i) ≡ false
      → ((j : ℕ) → i < j → j < max_price_levels → empty (levels j) ≡ true)
      → BestBid levels (pos i)
  no_bids : ((j : ℕ) → j < max_price_levels → empty (levels j) ≡ true) → BestBid levels (negsuc 0)

unmarked :
    (levels : ℕ → PriceLevel) (bitmap : Words) (j : ℕ)
    → Marks bitmap levels
    → j < max_price_levels
    → test bitmap j ≡ false
    → empty (levels j) ≡ true
unmarked levels bitmap j marks lt h = let m = marks j lt in ground arith

BestBid-of_marks :
    (levels : ℕ → PriceLevel) (bitmap : Words) (r : ℤ)
    → Marks bitmap levels
    → Highest bitmap max_price_levels r
    → BestBid levels r
BestBid-of_marks levels bitmap _ marks (Highest.found i inside at above) =
    BestBid.highest i inside (let m = marks i inside in ground arith)
      (λ j p q. unmarked levels bitmap j marks q (above j p q))
BestBid-of_marks levels bitmap _ marks (Highest.missing gone) =
    BestBid.no_bids (λ j q. unmarked levels bitmap j marks q (gone j q))

-- On a tracked side `best_bid_` is the highest level that holds an order.
pub BidTracked-best : (s : BookSide) → BidTracked s → BestBid s.levels s.best
BidTracked-best s t = BestBid-of_marks s.levels s.bitmap s.best t.marks t.best
