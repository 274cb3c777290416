-- ===== src/Book/Best/Marks.antt =====
-- order_book.h: the bitmap of a side against its levels.
use titan_lob.Prelude.{
  ℕ, ◌<◌, ◌≡◌, refl, ◌∙◌, true, false, not, ◌==◌, ==_iff, Bool-cases, inl, inr, update, update_lem,
}
use titan_lob.Bitmap.{Words, max_price_levels, set, clear, test}
use titan_lob.Bitmap.Levels.{test-set, test-clear}
use titan_lob.Book.Types.{PriceLevel, empty}

abbrev pub Marks : Words → (ℕ → PriceLevel) → Type 0
Marks bitmap levels = (i : ℕ) → i < max_price_levels → test bitmap i ≡ not (empty (levels i))

module _ (bitmap : Words) (levels : ℕ → PriceLevel) (n : ℕ) (level : PriceLevel)
    (marks : Marks bitmap levels) where
  pub Marks-set : empty level ≡ false → Marks (set bitmap n) (update levels n level)
  Marks-set full i lt = elim (Bool-cases (i == n)) [
    | inl e ↦ test-set bitmap n i ∙ rw (e, update_lem levels n level i, e, full) refl
    | inr ne ↦ test-set bitmap n i ∙ rw (ne, update_lem levels n level i, ne) (marks i lt)
  ]

  pub Marks-keep :
      empty level ≡ false → empty (levels n) ≡ false → Marks bitmap (update levels n level)
  Marks-keep full before i lt = elim (Bool-cases (i == n)) [
    | inl e ↦ marks i lt ∙ rw (update_lem levels n level i, e, full, (==_iff i n).0 e, before) refl
    | inr ne ↦ rw (update_lem levels n level i, ne) (marks i lt)
  ]

  pub Marks-clear : empty level ≡ true → Marks (clear bitmap n) (update levels n level)
  Marks-clear gone i lt = elim (Bool-cases (i == n)) [
    | inl e ↦ test-clear bitmap n i ∙ rw (e, update_lem levels n level i, e, gone) refl
    | inr ne ↦ test-clear bitmap n i ∙ rw (ne, update_lem levels n level i, ne) (marks i lt)
  ]
