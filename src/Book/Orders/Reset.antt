-- ===== src/Book/Orders/Reset.antt =====
-- `reset_internal` of order_book.h, and the book of the constructor: books without orders.
use titan_lob.Prelude.{ℕ, ◌<◌, ◌≡◌, true, false, ltb, Bool-cases, inl, inr, arith}
use titan_lob.Pool.{null_index}
use titan_lob.Pool.Invariant.{IsValid, in_use, reset-IsValid}
use titan_lob.Book.Types.{default_order, is_active}
use titan_lob.Book.State.{Book, new_bid, new_ask}
use titan_lob.Book.Cancel.Branches.{set_active-is_active}
use titan_lob.Book.Tracking.{new_bid-IsTracked, new_ask-IsTracked}
use titan_lob.Book.Api.{reset_internal}
use titan_lob.Book.Volume.Held.{Exact-none}
use titan_lob.Book.Orders.{IsSound, levels_of}

-- A book whose pool, index and levels hold no order is sound.
pub empty-IsSound :
    (b : Book)
    → IsValid b.order_pool
    → ((i : ℕ) → in_use b.order_pool i ≡ false)
    → ((id : ℕ) → id < b.index.size → is_active (b.index.location id) ≡ false)
    → IsSound (record b { bid = new_bid; ask = new_ask })
empty-IsSound b valid dead idle =
    let none : (i : ℕ) → in_use b.order_pool i ≡ true → ⊥ = λ i h. ground (arith, dead i) in
    record {
      frame = record {
        valid = valid;
        linked = record {
          next_live = λ i h. absurd (none i h);
          next_back = λ i h. absurd (none i h);
          next_key = λ i h. absurd (none i h);
          prev_live = λ i h. absurd (none i h);
          prev_back = λ i h. absurd (none i h);
          prev_key = λ i h. absurd (none i h);
          first = λ i h. absurd (none i h);
          last = λ i h. absurd (none i h);
          head_live = λ k ne. absurd (ground arith);
          head_first = λ k ne. absurd (ground arith);
          head_key = λ k ne. absurd (ground arith);
          tail_live = λ k ne. absurd (ground arith);
          tail_last = λ k ne. absurd (ground arith);
          tail_key = λ k ne. absurd (ground arith);
          no_head = λ k e. ground arith;
          no_tail = λ k e. ground arith;
          null_dead = dead null_index;
          rank = λ _. 0;
          ascends = λ i h. absurd (none i h);
        };
        indexed = record {
          known = λ i h. absurd (none i h);
          points = λ i h. absurd (none i h);
          active = λ i h. absurd (none i h);
          same_price = λ i h. absurd (none i h);
          same_side = λ i h. absurd (none i h);
          located = λ id lt on. absurd (ground (arith, idle id lt));
          named = λ id lt on. absurd (ground (arith, idle id lt));
          seen = λ id lt on. absurd (ground (arith, idle id lt));
        };
        placed = λ i h. absurd (none i h);
      };
      shown = record { quantity = λ i h. absurd (none i h); hidden = λ i h. absurd (none i h) };
      volumes =
          Exact-none b.order_pool (levels_of (record b { bid = new_bid; ask = new_ask })) dead
            (λ m. ground arith);
      bids = new_bid-IsTracked;
      asks = new_ask-IsTracked;
    }

-- Resetting a sound book leaves a sound book without orders: no index of the pool is in use, and no id is
-- active, also those that the loop over the index does not come to.
pub reset_internal-IsSound :
    (b : Book)
    → IsSound b
    → IsSound (reset_internal b)
      × ((i : ℕ) → in_use (reset_internal b).order_pool i ≡ false)
      × ((id : ℕ) → id < b.index.size → is_active ((reset_internal b).index.location id) ≡ false)
unfolding reset_internal
reset_internal-IsSound b h =
    let (valid, dead) = reset-IsValid default_order h.frame.valid in
    let idle : (id : ℕ)
        → id < b.index.size
        → is_active ((reset_internal b).index.location id) ≡ false =
      λ id lt. elim (Bool-cases (ltb b.index.max_order_id id)) [
        | inl past ↦ rw past (ground (arith, h.frame.indexed.seen id lt))
        | inr known ↦
            let inside : ltb id b.index.size ≡ true = ground arith in
            rw (known, inside) (set_active-is_active (b.index.location id))
      ] in
    (empty-IsSound (reset_internal b) valid dead idle, dead, idle)
