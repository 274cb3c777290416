-- ===== src/Book/Volume/Held.antt =====
-- The volume of a level of order_book.h against the orders in the pool: what the live orders hold at its
-- price and side.
use titan_lob.Prelude.{
  ℕ, zero, suc, ◌+◌, ◌-◌, ◌≤◌, ◌<◌, ◌≡◌, ◌≢◌, refl, sym, ap, ◌∙◌, Bool, true, false, ◌&&◌, ◌==◌,
  ==_iff, Bool-cases, inl, inr, if◌then◌else◌, arith, ℤ, pos, ◌+ℤ◌, ◌-ℤ◌, int_laws,
}
use titan_lob.Pool.{ObjectPool}
use titan_lob.Pool.Invariant.{in_use}
use titan_lob.Book.Types.{Order, total_quantity, PriceLevel}
use titan_lob.Book.Links.Lists.{home}
use titan_lob.Book.Volume.{add_to_level_volume, remove_from_level_volume, adjust_level_volume}

-- the sum of the first `n` amounts
unfoldable pub sum_to : (ℕ → ℤ) → ℕ → ℤ
sum_to f zero = pos 0
sum_to f (suc n) = sum_to f n +ℤ f n

-- what the order at index `j` adds to the level at the place `k`
abbrev pub amount : ObjectPool Order → (k j : ℕ) → ℤ
amount p k j = if in_use p j && (home (p.pool j) == k) then total_quantity (p.pool j) else pos 0

-- what the live orders of a level hold
abbrev pub held : ObjectPool Order → ℕ → ℤ
held p k = sum_to (amount p k) p.size

-- Every level's total volume is what its live orders hold.
abbrev pub Exact : ObjectPool Order → (ℕ → PriceLevel) → Type 0
Exact p levels = (k : ℕ) → (levels k).total_volume ≡ held p k

sum_to-ext : (f g : ℕ → ℤ) (n : ℕ) → ((j : ℕ) → j < n → g j ≡ f j) → sum_to g n ≡ sum_to f n
unfolding sum_to
sum_to-ext f g zero h = refl
sum_to-ext f g (suc n) h = rw (sum_to-ext f g n (λ j lt. h j (omega arith)), h n (omega arith)) refl

-- One amount changes.
sum_to-change :
    (f g : ℕ → ℤ) (i n : ℕ) (delta : ℤ)
    → i < n
    → ((j : ℕ) → j ≢ i → g j ≡ f j)
    → g i ≡ f i +ℤ delta
    → sum_to g n ≡ sum_to f n +ℤ delta
unfolding sum_to
sum_to-change f g i zero delta lt others here = absurd (omega arith)
sum_to-change f g i (suc n) delta lt others here = elim (Bool-cases (n == i)) [
  | inl e ↦
      let same : n ≡ i = (==_iff n i).0 e in
      let before = sum_to-ext f g n (λ j l. others j (omega (arith, same, l))) in
      rw (before, same, here) (omega int_laws)
  | inr ne ↦
      let before = sum_to-change f g i n delta (ground arith) others here in
      rw (before, others n (ground arith)) (omega int_laws)
]

zeros : (n : ℕ) → sum_to (λ _. pos 0) n ≡ pos 0
unfolding sum_to
zeros zero = refl
zeros (suc n) = rw (zeros n) (omega int_laws)

-- Amounts that are nothing can be left out.
sum_to-longer :
    (f : ℕ → ℤ) (n m : ℕ) → ((j : ℕ) → n ≤ j → f j ≡ pos 0) → sum_to f (m + n) ≡ sum_to f n
unfolding sum_to
sum_to-longer f n zero none = ap (sum_to f) (omega arith)
sum_to-longer f n (suc m) none =
    let more : suc m + n ≡ suc (m + n) = omega arith in
    rw (more, sum_to-longer f n m none, none (m + n) (omega arith)) (omega int_laws)

-- `delta` at one place, nothing elsewhere
abbrev pub at_place : (k : ℕ) (delta : ℤ) → ℕ → ℤ
at_place k delta m = if m == k then delta else pos 0

amount_dead : (p : ObjectPool Order) (k j : ℕ) → p.size ≤ j → amount p k j ≡ pos 0
amount_dead p k j h = ground arith

module _ (p p' : ObjectPool Order) (levels levels' : ℕ → PriceLevel) (e : Exact p levels) where
  -- Only the order at `idx` changes, and its level by the same amount.
  pub Exact-change :
      (idx k : ℕ) (delta : ℤ)
      → (extra : ℕ) → p'.size ≡ extra + p.size
      → idx < p'.size
      → ((m j : ℕ) → j ≢ idx → amount p' m j ≡ amount p m j)
      → ((m : ℕ) → amount p' m idx ≡ amount p m idx +ℤ at_place k delta m)
      → ((m : ℕ) → (levels' m).total_volume ≡ (levels m).total_volume +ℤ at_place k delta m)
      → Exact p' levels'
  Exact-change idx k delta extra size lt others here volumes m =
      volumes m
      ∙ ap (λ v. v +ℤ at_place k delta m)
          (e m ∙ sym (sum_to-longer (amount p m) p.size extra (amount_dead p m)))
      ∙ ap (λ n. sum_to (amount p m) n +ℤ at_place k delta m) (sym size)
      ∙ sym (
          sum_to-change (amount p m) (amount p' m) idx p'.size (at_place k delta m) lt (others m)
            (here m))

  -- Nothing that matters changes.
  pub Exact-ext :
      p'.size ≡ p.size
      → ((m j : ℕ) → amount p' m j ≡ amount p m j)
      → ((m : ℕ) → (levels' m).total_volume ≡ (levels m).total_volume)
      → Exact p' levels'
  Exact-ext size same volumes m =
      volumes m
      ∙ e m
      ∙ sym (sum_to-ext (amount p m) (amount p' m) p.size (λ j l. same m j))
      ∙ ap (sum_to (amount p' m)) (sym size)

-- A pool without live orders.
pub Exact-none :
    (p : ObjectPool Order) (levels : ℕ → PriceLevel)
    → ((j : ℕ) → in_use p j ≡ false)
    → ((m : ℕ) → (levels m).total_volume ≡ pos 0)
    → Exact p levels
Exact-none p levels dead volumes m = volumes m ∙ sym (nothing p.size)
  where
    nothing : (n : ℕ) → sum_to (amount p m) n ≡ pos 0
    nothing n = sum_to-ext (λ _. pos 0) (amount p m) n (λ j lt. rw (dead j) refl) ∙ zeros n

-- Amounts of orders that agree.
pub amount_same :
    (p p' : ObjectPool Order) (j : ℕ)
    → in_use p' j ≡ in_use p j
    → home (p'.pool j) ≡ home (p.pool j)
    → total_quantity (p'.pool j) ≡ total_quantity (p.pool j)
    → (m : ℕ) → amount p' m j ≡ amount p m j
amount_same p p' j live place total m = rw (live, place, total) refl

pub amount_live :
    (p : ObjectPool Order) (j : ℕ)
    → in_use p j ≡ true
    → (m : ℕ) → amount p m j ≡ at_place (home (p.pool j)) (total_quantity (p.pool j)) m
amount_live p j live m = ground (arith, live)

pub amount_none :
    (p : ObjectPool Order) (j : ℕ) → in_use p j ≡ false → (m : ℕ) → amount p m j ≡ pos 0
amount_none p j dead m = rw dead refl

pub adjust_total :
    (l : PriceLevel) (v h : ℤ) (a : Bool)
    → (adjust_level_volume l v h a).total_volume ≡ l.total_volume +ℤ (v +ℤ h)
unfolding adjust_level_volume
adjust_total l v h a = ground arith

pub add_total :
    (l : PriceLevel) (o : Order)
    → (add_to_level_volume l o).total_volume ≡ l.total_volume +ℤ total_quantity o
unfolding add_to_level_volume
add_total l o = ground arith

pub remove_total :
    (l : PriceLevel) (o : Order)
    → (remove_from_level_volume l o).total_volume ≡ l.total_volume -ℤ total_quantity o
unfolding remove_from_level_volume
remove_total l o = ground arith

-- The level at the place `k` gets the total volume `v`.
abbrev pub Revolumed : (levels levels' : ℕ → PriceLevel) (k : ℕ) (v : ℤ) → Type 0
Revolumed levels levels' k v =
    (m : ℕ) → (levels' m).total_volume ≡ (if m == k then v else (levels m).total_volume)

revolumed :
    (levels levels' : ℕ → PriceLevel) (k : ℕ) (v delta : ℤ)
    → Revolumed levels levels' k v
    → v ≡ (levels k).total_volume +ℤ delta
    → (m : ℕ) → (levels' m).total_volume ≡ (levels m).total_volume +ℤ at_place k delta m
revolumed levels levels' k v delta h e m = elim (Bool-cases (m == k)) [
  | inl q ↦ let same : m ≡ k = (==_iff m k).0 q in h m ∙ rw (q, e, same) refl
  | inr q ↦ h m ∙ rw q (omega int_laws)
]

module _ (p p' : ObjectPool Order) (levels levels' : ℕ → PriceLevel) (idx : ℕ) (v : ℤ)
    (e : Exact p levels) where
  -- The order at `idx` gets other quantities.
  pub Exact-rewrite :
      p'.size ≡ p.size
      → ((j : ℕ) → in_use p' j ≡ in_use p j)
      → ((j : ℕ) → home (p'.pool j) ≡ home (p.pool j))
      → ((j : ℕ) → j ≢ idx → total_quantity (p'.pool j) ≡ total_quantity (p.pool j))
      → in_use p idx ≡ true
      → Revolumed levels levels' (home (p.pool idx)) v
      → v
        ≡ (levels (home (p.pool idx))).total_volume
          +ℤ (total_quantity (p'.pool idx) -ℤ total_quantity (p.pool idx))
      → Exact p' levels'
  Exact-rewrite size live place total here levels_change e' =
      let k = home (p.pool idx) in
      let delta = total_quantity (p'.pool idx) -ℤ total_quantity (p.pool idx) in
      Exact-change p p' levels levels' e idx k delta 0 (omega (arith, size)) (ground arith)
        (λ m j ne. amount_same p p' j (live j) (place j) (total j ne) m)
        (λ m.
          amount_live p' idx (live idx ∙ here) m
          ∙ rw (place idx, amount_live p idx here m)
              (elim (Bool-cases (m == k)) [
                | inl q ↦ rw q (omega int_laws)
                | inr q ↦ rw q (omega int_laws)
              ]))
        (revolumed levels levels' k v delta levels_change e')

  -- The order at `idx` goes.
  pub Exact-remove :
      p'.size ≡ p.size
      → ((j : ℕ) → j ≢ idx → in_use p' j ≡ in_use p j)
      → ((j : ℕ) → j ≢ idx → home (p'.pool j) ≡ home (p.pool j))
      → ((j : ℕ) → j ≢ idx → total_quantity (p'.pool j) ≡ total_quantity (p.pool j))
      → in_use p idx ≡ true
      → in_use p' idx ≡ false
      → Revolumed levels levels' (home (p.pool idx)) v
      → v ≡ (levels (home (p.pool idx))).total_volume -ℤ total_quantity (p.pool idx)
      → Exact p' levels'
  Exact-remove size live place total here gone levels_change e' =
      let k = home (p.pool idx) in
      let delta = pos 0 -ℤ total_quantity (p.pool idx) in
      Exact-change p p' levels levels' e idx k delta 0 (omega (arith, size)) (ground arith)
        (λ m j ne. amount_same p p' j (live j ne) (place j ne) (total j ne) m)
        (λ m.
          amount_none p' idx gone m
          ∙ rw (amount_live p idx here m) (elim (Bool-cases (m == k)) [
            | inl q ↦ rw q (omega int_laws)
            | inr q ↦ rw q (omega int_laws)
          ]))
        (revolumed levels levels' k v delta levels_change (e' ∙ omega int_laws))

  -- A new order comes to `idx`.
  pub Exact-insert :
      p.size ≤ p'.size
      → idx < p'.size
      → ((j : ℕ) → j ≢ idx → in_use p' j ≡ in_use p j)
      → ((j : ℕ) → j ≢ idx → home (p'.pool j) ≡ home (p.pool j))
      → ((j : ℕ) → j ≢ idx → total_quantity (p'.pool j) ≡ total_quantity (p.pool j))
      → in_use p idx ≡ false
      → in_use p' idx ≡ true
      → Revolumed levels levels' (home (p'.pool idx)) v
      → v ≡ (levels (home (p'.pool idx))).total_volume +ℤ total_quantity (p'.pool idx)
      → Exact p' levels'
  Exact-insert grown inside live place total free here levels_change e' =
      let k = home (p'.pool idx) in
      let delta = total_quantity (p'.pool idx) in
      Exact-change p p' levels levels' e idx k delta (p'.size - p.size) (omega arith) inside
        (λ m j ne. amount_same p p' j (live j ne) (place j ne) (total j ne) m)
        (λ m. amount_live p' idx here m ∙ rw (amount_none p idx free m) (omega int_laws))
        (revolumed levels levels' k v delta levels_change e')
