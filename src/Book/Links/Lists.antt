-- ===== src/Book/Links/Lists.antt =====
-- `list_push_back` and `list_remove` of order_book.h on the lists of all the levels: the levels of both
-- sides stand in one array, an order's place in it is told by its price and its side.
use titan_lob.Prelude.{
  ℕ, ◌+◌, ◌*◌, ◌≡◌, ◌≢◌, refl, ap, ◌∙◌, Bool, true, false, not, ◌&&◌, ◌||◌, ◌==◌, ==_iff,
  if◌then◌else◌, Bool-cases, inl, inr, arith, update, update_lem,
}
use Prim.Native.Nat.{bit_and}
use mathlib.Core.Path.{fun_ext, ap₂}
use titan_lob.Pool.{ObjectPool, null_index}
use titan_lob.Book.Types.{Order, is_buy, PriceLevel}
use titan_lob.Book.State.{price_to_index}
use titan_lob.Book.Links.{set_next, set_prev, list_push_back, unlink_prev, unlink_next, list_remove}
use titan_lob.Book.Links.Chain.{SameData, list_remove-OnlyLinks, list_push_back-OnlyLinks}
use titan_lob.Book.Links.Wiring.{Wired, without-Wired, with-Wired}

-- the place of a level in the array: its index and its side
unfoldable pub place : (is_buy : Bool) → ℕ → ℕ
place is_buy n = n * 2 + (if is_buy then 1 else 0)

unfoldable pub home : Order → ℕ
unfolding place
home o = place (is_buy o) (price_to_index o.price)

pub home-SameData : (o o' : Order) → SameData o o' → home o' ≡ home o
unfolding home
home-SameData o o' h =
    ap₂ place (ap (λ f. not (bit_and f 1 == 0)) h.flags) (ap price_to_index h.price)

-- The orders that are live, each in the list of its level.
abbrev pub Linked : (ℕ → Bool) → (ℕ → Order) → (ℕ → PriceLevel) → Type 0
Linked live orders levels =
    Wired live (λ i. (orders i).next) (λ i. (orders i).prev) (λ i. home (orders i))
      (λ k. (levels k).head) (λ k. (levels k).tail)

-- Only the links and the homes of the orders and the ends of the levels matter.
pub Wired-ext :
    {live live' : ℕ → Bool} {next next' prev prev' key key' head head' tail tail' : ℕ → ℕ}
    → ((j : ℕ) → live' j ≡ live j)
    → ((j : ℕ) → next' j ≡ next j)
    → ((j : ℕ) → prev' j ≡ prev j)
    → ((j : ℕ) → key' j ≡ key j)
    → ((j : ℕ) → head' j ≡ head j)
    → ((j : ℕ) → tail' j ≡ tail j)
    → Wired live next prev key head tail
    → Wired live' next' prev' key' head' tail'
Wired-ext a b c d e f w = rw (fun_ext a, fun_ext b, fun_ext c, fun_ext d, fun_ext e, fun_ext f) w

-- What the nodes hold that are not live does not matter.
pub Wired-live :
    {live : ℕ → Bool} {next next' prev prev' key key' head tail : ℕ → ℕ}
    → Wired live next prev key head tail
    → ((j : ℕ) → live j ≡ true → next' j ≡ next j)
    → ((j : ℕ) → live j ≡ true → prev' j ≡ prev j)
    → ((j : ℕ) → live j ≡ true → key' j ≡ key j)
    → Wired live next' prev' key' head tail
Wired-live {live} {next} {next'} {prev} {prev'} {key} {key'} {head} {tail} w n p k = record {
  next_live = λ i h ne. ground (arith, n i h, w.next_live i h);
  next_back = λ i h ne. ground (arith, n i h, w.next_live i h, w.next_back i h, p (next i));
  next_key = λ i h ne. ground (arith, n i h, k i h, w.next_live i h, w.next_key i h, k (next i));
  prev_live = λ i h ne. ground (arith, p i h, w.prev_live i h);
  prev_back = λ i h ne. ground (arith, p i h, w.prev_live i h, w.prev_back i h, n (prev i));
  prev_key = λ i h ne. ground (arith, p i h, k i h, w.prev_live i h, w.prev_key i h, k (prev i));
  first = λ i h e. ground (arith, p i h, k i h, w.first i h);
  last = λ i h e. ground (arith, n i h, k i h, w.last i h);
  head_live = w.head_live;
  head_first = λ m ne. ground (arith, w.head_live m ne, w.head_first m ne, p (head m));
  head_key = λ m ne. ground (arith, w.head_live m ne, w.head_key m ne, k (head m));
  tail_live = w.tail_live;
  tail_last = λ m ne. ground (arith, w.tail_live m ne, w.tail_last m ne, n (tail m));
  tail_key = λ m ne. ground (arith, w.tail_live m ne, w.tail_key m ne, k (tail m));
  no_head = w.no_head;
  no_tail = w.no_tail;
  null_dead = w.null_dead;
  rank = w.rank;
  ascends = λ i h ne. ground (arith, n i h, w.ascends i h);
}

module _ (p : ObjectPool Order) (level : PriceLevel) (idx : ℕ) where
  remove_next :
      (j : ℕ)
      → ((list_remove p level idx).0.pool j).next ≡ (
          if j == idx
          then null_index
          else if not ((p.pool idx).prev == null_index) && (j == (p.pool idx).prev)
          then (p.pool idx).next
          else (p.pool j).next)
  unfolding list_remove set_next set_prev unlink_prev unlink_next update
  remove_next j = ground arith

  remove_prev :
      (j : ℕ)
      → ((list_remove p level idx).0.pool j).prev ≡ (
          if j == idx
          then null_index
          else if not ((p.pool idx).next == null_index) && (j == (p.pool idx).next)
          then (p.pool idx).prev
          else (p.pool j).prev)
  unfolding list_remove set_next set_prev unlink_prev unlink_next update
  remove_prev j = ground arith

  pub remove_ends :
      ((list_remove p level idx).1.head
        ≡ (if (p.pool idx).prev == null_index then (p.pool idx).next else level.head))
      × ((list_remove p level idx).1.tail
          ≡ (if (p.pool idx).next == null_index then (p.pool idx).prev else level.tail))
  unfolding list_remove set_next set_prev unlink_prev unlink_next update
  remove_ends = ground arith

  push_next :
      (j : ℕ)
      → level.tail ≢ idx
      → ((list_push_back p level idx).0.pool j).next ≡ (
          if j == idx
          then null_index
          else if not (level.tail == null_index) && (j == level.tail)
          then idx
          else (p.pool j).next)
  unfolding list_push_back set_next set_prev update
  push_next j ne = ground arith

  push_prev :
      (j : ℕ)
      → level.tail ≢ idx
      → ((list_push_back p level idx).0.pool j).prev
        ≡ (if j == idx then level.tail else (p.pool j).prev)
  unfolding list_push_back set_next set_prev update
  push_prev j ne = ground arith

  pub push_ends :
      ((list_push_back p level idx).1.head ≡ (if level.tail == null_index then idx else level.head))
      × ((list_push_back p level idx).1.tail ≡ idx)
  unfolding list_push_back set_next set_prev update
  push_ends = ground arith

module _ (live : ℕ → Bool) (p : ObjectPool Order) (levels : ℕ → PriceLevel)
    (w : Linked live p.pool levels) (level : PriceLevel) (idx : ℕ)
    (same_head : level.head ≡ (levels (home (p.pool idx))).head)
    (same_tail : level.tail ≡ (levels (home (p.pool idx))).tail) where
  -- `list_remove` takes a live order out of the list of its level, and leaves every list in order.
  pub list_remove-Linked :
      live idx ≡ true
      → let (p', level') = list_remove p level idx in
        Linked (λ j. not (j == idx) && live j) p'.pool (update levels (home (p.pool idx)) level')
  list_remove-Linked here =
      Wired-ext (λ j. refl) (remove_next p level idx) (remove_prev p level idx)
        (λ j. home-SameData _ _ ((list_remove-OnlyLinks p level idx).0.data_of j))
        (λ k. ap (λ l. l.head) (update_lem levels (home (p.pool idx)) _ k) ∙ heads k)
        (λ k. ap (λ l. l.tail) (update_lem levels (home (p.pool idx)) _ k) ∙ tails k)
        (without-Wired live _ _ _ _ _ w idx here)
    where
      heads :
          (k : ℕ)
          → (if k == home (p.pool idx) then (list_remove p level idx).1 else levels k).head ≡ (
              if (k == home (p.pool idx)) && ((p.pool idx).prev == null_index)
              then (p.pool idx).next
              else (levels k).head)
      heads k = ground (arith, (remove_ends p level idx).0, same_head)

      tails :
          (k : ℕ)
          → (if k == home (p.pool idx) then (list_remove p level idx).1 else levels k).tail ≡ (
              if (k == home (p.pool idx)) && ((p.pool idx).next == null_index)
              then (p.pool idx).prev
              else (levels k).tail)
      tails k = ground (arith, (remove_ends p level idx).1, same_tail)

  -- `list_push_back` puts an order that is not live behind the list of its level.
  pub list_push_back-Linked :
      live idx ≡ false
      → idx ≢ null_index
      → let (p', level') = list_push_back p level idx in
        Linked (λ j. (j == idx) || live j) p'.pool (update levels (home (p.pool idx)) level')
  list_push_back-Linked out proper =
      Wired-ext (λ j. refl) nexts prevs keys
        (λ k. ap (λ l. l.head) (update_lem levels (home (p.pool idx)) _ k) ∙ heads k)
        (λ k. ap (λ l. l.tail) (update_lem levels (home (p.pool idx)) _ k) ∙ tails k)
        (with-Wired live _ _ _ _ _ w idx (home (p.pool idx)) out proper)
    where
      apart : level.tail ≢ idx
      apart = ground (arith, w.tail_live (home (p.pool idx)), w.null_dead, same_tail)

      nexts :
          (j : ℕ)
          → ((list_push_back p level idx).0.pool j).next ≡ (
              if j == idx
              then null_index
              else if not ((levels (home (p.pool idx))).tail == null_index)
                  && (j == (levels (home (p.pool idx))).tail)
              then idx
              else (p.pool j).next)
      nexts j = push_next p level idx j apart ∙ rw same_tail refl

      prevs :
          (j : ℕ)
          → ((list_push_back p level idx).0.pool j).prev
            ≡ (if j == idx then (levels (home (p.pool idx))).tail else (p.pool j).prev)
      prevs j = push_prev p level idx j apart ∙ rw same_tail refl

      keys :
          (j : ℕ)
          → home ((list_push_back p level idx).0.pool j)
            ≡ (if j == idx then home (p.pool idx) else home (p.pool j))
      keys j =
          home-SameData _ _ ((list_push_back-OnlyLinks p level idx).0.data_of j)
          ∙ (elim (Bool-cases (j == idx)) [
            | inl e ↦ rw (e, (==_iff j idx).0 e) refl
            | inr ne ↦ rw ne refl
          ])

      heads :
          (k : ℕ)
          → (if k == home (p.pool idx) then (list_push_back p level idx).1 else levels k).head ≡ (
              if (k == home (p.pool idx)) && ((levels (home (p.pool idx))).tail == null_index)
              then idx
              else (levels k).head)
      heads k = ground (arith, (push_ends p level idx).0, same_head, same_tail)

      tails :
          (k : ℕ)
          → (if k == home (p.pool idx) then (list_push_back p level idx).1 else levels k).tail
            ≡ (if k == home (p.pool idx) then idx else (levels k).tail)
      tails k = ground (arith, (push_ends p level idx).1)
