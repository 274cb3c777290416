-- ===== src/Book/Links/Wiring.antt =====
-- Doubly linked lists over an array, seen from each node alone: its neighbours point back at it, and
-- the ends of its list are reached from the list's head and tail. `key` is the list that a node is in.
use titan_lob.Prelude.{
  ℕ, zero, suc, ◌<◌, ◌≡◌, ◌≢◌, Bool, true, false, not, ◌&&◌, ◌||◌, ◌==◌, Bool-cases, inl, inr, ap,
  ◌∙◌, if◌then◌else◌, arith,
}
use titan_lob.Pool.{null_index}

pub record Wired (live : ℕ → Bool) (next prev key : ℕ → ℕ) (head tail : ℕ → ℕ) : Type 0 where
  pub next_live : (i : ℕ) → live i ≡ true → next i ≢ null_index → live (next i) ≡ true
  pub next_back : (i : ℕ) → live i ≡ true → next i ≢ null_index → prev (next i) ≡ i
  pub next_key : (i : ℕ) → live i ≡ true → next i ≢ null_index → key (next i) ≡ key i
  pub prev_live : (i : ℕ) → live i ≡ true → prev i ≢ null_index → live (prev i) ≡ true
  pub prev_back : (i : ℕ) → live i ≡ true → prev i ≢ null_index → next (prev i) ≡ i
  pub prev_key : (i : ℕ) → live i ≡ true → prev i ≢ null_index → key (prev i) ≡ key i
  pub first : (i : ℕ) → live i ≡ true → prev i ≡ null_index → head (key i) ≡ i
  pub last : (i : ℕ) → live i ≡ true → next i ≡ null_index → tail (key i) ≡ i
  pub head_live : (k : ℕ) → head k ≢ null_index → live (head k) ≡ true
  pub head_first : (k : ℕ) → head k ≢ null_index → prev (head k) ≡ null_index
  pub head_key : (k : ℕ) → head k ≢ null_index → key (head k) ≡ k
  pub tail_live : (k : ℕ) → tail k ≢ null_index → live (tail k) ≡ true
  pub tail_last : (k : ℕ) → tail k ≢ null_index → next (tail k) ≡ null_index
  pub tail_key : (k : ℕ) → tail k ≢ null_index → key (tail k) ≡ k
  pub no_head : (k : ℕ) → head k ≡ null_index → tail k ≡ null_index
  pub no_tail : (k : ℕ) → tail k ≡ null_index → head k ≡ null_index
  pub null_dead : live null_index ≡ false
  pub rank : ℕ → ℕ
  pub ascends : (i : ℕ) → live i ≡ true → next i ≢ null_index → rank i < rank (next i)

module _ (live : ℕ → Bool) (next prev key head tail : ℕ → ℕ)
    (w : Wired live next prev key head tail) (idx : ℕ) where
  -- What is left when the node `idx` is taken out.
  abbrev pub live_without : ℕ → Bool
  live_without j = not (j == idx) && live j

  abbrev pub next_without : ℕ → ℕ
  next_without j =
      if j == idx
      then null_index
      else if not (prev idx == null_index) && (j == prev idx)
      then next idx
      else next j

  abbrev pub prev_without : ℕ → ℕ
  prev_without j =
      if j == idx
      then null_index
      else if not (next idx == null_index) && (j == next idx)
      then prev idx
      else prev j

  abbrev pub head_without : ℕ → ℕ
  head_without k = if (k == key idx) && (prev idx == null_index) then next idx else head k

  abbrev pub tail_without : ℕ → ℕ
  tail_without k = if (k == key idx) && (next idx == null_index) then prev idx else tail k

  module _ (here : live idx ≡ true) where
    pub without-Wired : Wired live_without next_without prev_without key head_without tail_without
    without-Wired = record {
      next_live = λ i h ne. ground (
        arith,
        w.next_live i,
        w.next_back i,
        w.prev_back i,
        w.next_live idx,
        w.next_back idx,
        w.prev_live idx,
        w.prev_back idx,
        w.null_dead,
      );
      next_back = λ i h ne. ground (
        arith,
        w.next_live i,
        w.next_back i,
        w.prev_back i,
        w.next_live idx,
        w.next_back idx,
        w.prev_live idx,
        w.prev_back idx,
        w.null_dead,
      );
      next_key = λ i h ne. ground (
        arith,
        w.next_key i,
        w.next_key idx,
        w.prev_key idx,
        w.next_live i,
        w.next_back i,
        w.prev_back i,
        w.next_live idx,
        w.next_back idx,
        w.prev_live idx,
        w.prev_back idx,
        w.null_dead,
      );
      prev_live = λ i h ne. ground (
        arith,
        w.prev_live i,
        w.prev_back i,
        w.next_back i,
        w.next_live idx,
        w.next_back idx,
        w.prev_live idx,
        w.prev_back idx,
        w.null_dead,
      );
      prev_back = λ i h ne. ground (
        arith,
        w.prev_live i,
        w.prev_back i,
        w.next_back i,
        w.next_live idx,
        w.next_back idx,
        w.prev_live idx,
        w.prev_back idx,
        w.null_dead,
      );
      prev_key = λ i h ne. ground (
        arith,
        w.prev_key i,
        w.prev_key idx,
        w.next_key idx,
        w.prev_live i,
        w.prev_back i,
        w.next_back i,
        w.next_live idx,
        w.next_back idx,
        w.prev_live idx,
        w.prev_back idx,
        w.null_dead,
      );
      first = λ i h e. ground (
        arith,
        w.first i,
        w.first idx,
        w.next_live idx,
        w.next_key idx,
        w.prev_live i,
        w.prev_back i,
        w.next_back idx,
        w.prev_back idx,
        w.null_dead,
      );
      last = λ i h e. ground (
        arith,
        w.last i,
        w.last idx,
        w.prev_live idx,
        w.prev_key idx,
        w.next_live i,
        w.next_back i,
        w.next_back idx,
        w.prev_back idx,
        w.null_dead,
      );
      head_live = λ k ne. ground (
        arith,
        w.head_live k,
        w.first idx,
        w.next_live idx,
        w.next_back idx,
        w.head_first k,
        w.head_key k,
        w.null_dead,
      );
      head_first = λ k ne. ground (
        arith,
        w.head_live k,
        w.first idx,
        w.next_live idx,
        w.next_back idx,
        w.head_first k,
        w.head_key k,
        w.prev_back idx,
        w.null_dead,
      );
      head_key = λ k ne. ground (
        arith,
        w.head_live k,
        w.first idx,
        w.next_live idx,
        w.next_key idx,
        w.head_first k,
        w.head_key k,
        w.null_dead,
      );
      tail_live = λ k ne. ground (
        arith,
        w.tail_live k,
        w.last idx,
        w.prev_live idx,
        w.prev_back idx,
        w.tail_last k,
        w.tail_key k,
        w.null_dead,
      );
      tail_last = λ k ne. ground (
        arith,
        w.tail_live k,
        w.last idx,
        w.prev_live idx,
        w.prev_back idx,
        w.tail_last k,
        w.tail_key k,
        w.next_back idx,
        w.null_dead,
      );
      tail_key = λ k ne. ground (
        arith,
        w.tail_live k,
        w.last idx,
        w.prev_live idx,
        w.prev_key idx,
        w.tail_last k,
        w.tail_key k,
        w.null_dead,
      );
      no_head = λ k e. ground (
        arith,
        w.no_head k,
        w.no_tail k,
        w.first idx,
        w.last idx,
        w.next_live idx,
        w.prev_live idx,
        w.null_dead,
      );
      no_tail = λ k e. ground (
        arith,
        w.no_head k,
        w.no_tail k,
        w.first idx,
        w.last idx,
        w.next_live idx,
        w.prev_live idx,
        w.null_dead,
      );
      null_dead = ground (arith, w.null_dead);
      rank = w.rank;
      ascends = λ i h ne.
          ground (arith, w.ascends i, w.ascends idx, w.prev_live idx, w.prev_back idx, w.null_dead);
    }

  -- What becomes of the lists when the node `idx` is put behind the list `k`.
  module _ (k : ℕ) where
    abbrev pub live_with : ℕ → Bool
    live_with j = (j == idx) || live j

    abbrev pub key_with : ℕ → ℕ
    key_with j = if j == idx then k else key j

    abbrev pub next_with : ℕ → ℕ
    next_with j =
        if j == idx
        then null_index
        else if not (tail k == null_index) && (j == tail k)
        then idx
        else next j

    abbrev pub prev_with : ℕ → ℕ
    prev_with j = if j == idx then tail k else prev j

    abbrev pub head_with : ℕ → ℕ
    head_with m = if (m == k) && (tail k == null_index) then idx else head m

    abbrev pub tail_with : ℕ → ℕ
    tail_with m = if m == k then idx else tail m

    module _ (out : live idx ≡ false) (proper : idx ≢ null_index) where
      pub with-Wired : Wired live_with next_with prev_with key_with head_with tail_with
      with-Wired = record {
        next_live = λ i h ne. ground (arith, w.next_live i, w.null_dead);
        next_back = λ i h ne. ground (
          arith,
          w.next_live i,
          w.next_back i,
          w.tail_live k,
          w.tail_last k,
          w.prev_back i,
          w.null_dead,
        );
        next_key = λ i h ne.
            ground (arith, w.next_key i, w.next_live i, w.tail_key k, w.tail_live k, w.null_dead);
        prev_live = λ i h ne. ground (arith, w.prev_live i, w.tail_live k, w.null_dead);
        prev_back = λ i h ne.
            ground (arith, w.prev_live i, w.prev_back i, w.tail_live k, w.tail_last k, w.null_dead);
        prev_key = λ i h ne.
            ground (arith, w.prev_key i, w.prev_live i, w.tail_key k, w.tail_live k, w.null_dead);
        first = λ i h e. ground (arith, w.first i, w.no_tail k, w.null_dead);
        last = λ i h e. ground (arith, w.last i, w.tail_live k, w.tail_key k, w.null_dead);
        head_live = λ m ne. ground (arith, w.head_live m);
        head_first = λ m ne. ground (arith, w.head_live m, w.head_first m);
        head_key = λ m ne. ground (arith, w.head_live m, w.head_key m);
        tail_live = λ m ne. ground (arith, w.tail_live m);
        tail_last = λ m ne.
            ground (arith, w.tail_live m, w.tail_last m, w.tail_key m, w.tail_live k, w.tail_key k);
        tail_key = λ m ne. ground (arith, w.tail_live m, w.tail_key m);
        no_head = λ m e. ground (arith, w.no_head m, w.no_tail k);
        no_tail = λ m e. ground (arith, w.no_tail m);
        null_dead = ground (arith, w.null_dead);
        rank = λ j. if j == idx then suc (w.rank (tail k)) else w.rank j;
        ascends = λ i h ne. ground (arith, w.ascends i, w.next_live i, w.tail_live k, w.null_dead);
      }

-- No list is a circle: the list of a live node has a head.
Wired-full_at :
    {live : ℕ → Bool} {next prev key head tail : ℕ → ℕ} (w : Wired live next prev key head tail)
    (fuel i : ℕ)
    → w.rank i < fuel
    → live i ≡ true
    → head (key i) ≢ null_index
Wired-full_at w zero i short here = absurd (omega arith)
Wired-full_at {live} {next} {prev} {key} {head} w (suc fuel) i enough here =
    elim (Bool-cases (prev i == null_index)) [
      | inl none ↦ (let first = w.first i here in let dead = w.null_dead in ground arith)
      | inr more ↦
          let before : prev i ≢ null_index = ground arith in
          let live = w.prev_live i here before in
          let back = w.prev_back i here before in
          let up = w.ascends (prev i) live in
          let dead = w.null_dead in
          let less : w.rank (prev i) < fuel = ground arith in
          λ none.
            Wired-full_at w fuel (prev i) less live (ap head (w.prev_key i here before) ∙ none)
    ]

pub Wired-full :
    {live : ℕ → Bool} {next prev key head tail : ℕ → ℕ} (w : Wired live next prev key head tail)
    (i : ℕ)
    → live i ≡ true
    → head (key i) ≢ null_index
Wired-full w i here = Wired-full_at w (suc (w.rank i)) i (omega arith) here
