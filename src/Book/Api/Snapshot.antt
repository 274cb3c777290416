-- ===== src/Book/Api/Snapshot.antt =====
-- `get_bids_snapshot` and `get_asks_snapshot` of order_book.h: the entries and their order.
use titan_lob.Prelude.{
  ℕ, zero, suc, ◌+◌, ◌≤◌, ◌<◌, ◌≡◌, ◌∙◌, ◌&&◌, ltb, leb, ◌==◌, ==_iff, Bool-cases, inl, inr,
  if◌then◌else◌, List, [], ◌∷◌, arith, ℤ, pos, ◌<ℤ◌, ltb_ℤ, ltb_ℤ→lt, eqb_ℤ,
}
use titan_lob.Bitmap.{max_price_levels}
use titan_lob.Book.Types.{PriceLevel}
use titan_lob.Book.State.{Book}
use titan_lob.Book.Api.{snapshot_from, snapshot_down, get_asks_snapshot, get_bids_snapshot}

-- The volume that a snapshot has for a price, 0 where it has no entry.
unfoldable pub volume_at : List (ℤ × ℤ) → ℕ → ℤ
volume_at [] k = pos 0
volume_at ((p, v) ∷ xs) k = if eqb_ℤ p (pos k) then v else volume_at xs k

-- The prices ascend, from `low` on, and every volume is positive.
pub data Ascending : ℕ → List (ℤ × ℤ) → Type 0 where
  none_above : {low : ℕ} → Ascending low []
  next_above :
      {low n : ℕ}
      → {v : ℤ} → {xs : List (ℤ × ℤ)} → low ≤ n
      → pos 0 <ℤ v
      → Ascending (n + 1) xs
      → Ascending low ((pos n, v) ∷ xs)

-- The prices descend, below `high`, and every volume is positive.
pub data Descending : ℕ → List (ℤ × ℤ) → Type 0 where
  none_below : {high : ℕ} → Descending high []
  next_below :
      {high n : ℕ}
      → {v : ℤ} → {xs : List (ℤ × ℤ)} → n < high
      → pos 0 <ℤ v
      → Descending n xs
      → Descending high ((pos n, v) ∷ xs)

-- what a level shows
abbrev pub shown : PriceLevel → ℤ
shown level = if ltb_ℤ (pos 0) level.total_visible_volume then level.total_visible_volume else pos 0

Ascending-weaken :
    {low high : ℕ} {xs : List (ℤ × ℤ)} → low ≤ high → Ascending high xs → Ascending low xs
Ascending-weaken le Ascending.none_above = Ascending.none_above
Ascending-weaken le (Ascending.next_above h p rest) = Ascending.next_above (omega arith) p rest

Descending-weaken :
    {low high : ℕ} {xs : List (ℤ × ℤ)} → low ≤ high → Descending low xs → Descending high xs
Descending-weaken le Descending.none_below = Descending.none_below
Descending-weaken le (Descending.next_below h p rest) = Descending.next_below (omega arith) p rest

snapshot_from-Ascending :
    (levels : ℕ → PriceLevel) (i n : ℕ) → Ascending i (snapshot_from levels i n)
unfolding snapshot_from
snapshot_from-Ascending levels i zero = Ascending.none_above
snapshot_from-Ascending levels i (suc n) =
    elim (Bool-cases (ltb_ℤ (pos 0) (levels i).total_visible_volume)) [
      | inl shows ↦ rw shows (
          Ascending.next_above (omega arith)
            (ltb_ℤ→lt (pos 0) (levels i).total_visible_volume shows)
            (snapshot_from-Ascending levels (i + 1) n))
      | inr hides ↦
          rw hides (Ascending-weaken (omega arith) (snapshot_from-Ascending levels (i + 1) n))
    ]

snapshot_down-Descending : (levels : ℕ → PriceLevel) (n : ℕ) → Descending n (snapshot_down levels n)
unfolding snapshot_down
snapshot_down-Descending levels zero = Descending.none_below
snapshot_down-Descending levels (suc i) =
    elim (Bool-cases (ltb_ℤ (pos 0) (levels i).total_visible_volume)) [
      | inl shows ↦ rw shows (
          Descending.next_below (omega arith)
            (ltb_ℤ→lt (pos 0) (levels i).total_visible_volume shows)
            (snapshot_down-Descending levels i))
      | inr hides ↦ rw hides (Descending-weaken (omega arith) (snapshot_down-Descending levels i))
    ]

volume_at-from :
    (levels : ℕ → PriceLevel) (i n k : ℕ)
    → volume_at (snapshot_from levels i n) k
      ≡ (if leb i k && ltb k (i + n) then shown (levels k) else pos 0)
unfolding snapshot_from volume_at
volume_at-from levels i zero k = ground arith
volume_at-from levels i (suc n) k =
    let rest = volume_at-from levels (i + 1) n k in
    elim (Bool-cases (i == k)) [
      | inl e ↦ ground (arith, rest, (==_iff i k).0 e)
      | inr ne ↦ ground (arith, rest)
    ]

volume_at-down :
    (levels : ℕ → PriceLevel) (n k : ℕ)
    → volume_at (snapshot_down levels n) k ≡ (if ltb k n then shown (levels k) else pos 0)
unfolding snapshot_down volume_at
volume_at-down levels zero k = ground arith
volume_at-down levels (suc i) k =
    let rest = volume_at-down levels i k in
    elim (Bool-cases (i == k)) [
      | inl e ↦ ground (arith, rest, (==_iff i k).0 e)
      | inr ne ↦ ground (arith, rest)
    ]

-- The snapshot of the asks lists prices that ascend, that of the bids prices that descend, and every
-- volume in them is positive. Each has for a price of the book exactly the visible volume of its level
-- where that is positive, and no entry for any other price.
pub snapshots_lem :
    (b : Book) (k : ℕ)
    → Ascending 0 (get_asks_snapshot b)
      × Descending max_price_levels (get_bids_snapshot b)
      × (volume_at (get_asks_snapshot b) k
          ≡ (if ltb k max_price_levels then shown (b.ask.levels k) else pos 0))
      × (volume_at (get_bids_snapshot b) k
          ≡ (if ltb k max_price_levels then shown (b.bid.levels k) else pos 0))
unfolding get_asks_snapshot get_bids_snapshot
snapshots_lem b k = (
  snapshot_from-Ascending b.ask.levels 0 max_price_levels,
  snapshot_down-Descending b.bid.levels max_price_levels,
  volume_at-from b.ask.levels 0 max_price_levels k ∙ ground arith,
  volume_at-down b.bid.levels max_price_levels k,
)
