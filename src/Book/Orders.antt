-- ===== src/Book/Orders.antt =====
-- The orders of the whole book in order_book.h: the pool, the lists of all the levels and the index by
-- order id speak of the same orders.
pub mod Index
pub mod Steps
pub mod Volumes
pub mod Rest
pub mod Reset
pub mod Sides
pub mod Added
pub mod Cancelled
pub mod Modified
pub mod Matched
pub mod Apart
pub mod Filled
pub mod Reach
use titan_lob.Prelude.{
  ℕ, ◌+◌, ◌*◌, ◌/◌, ◌%◌, ◌≡◌, ◌<◌, ◌≤◌, Bool, true, false, ◌==◌, if◌then◌else◌, ℤ, pos, ◌<ℤ◌, ◌≤ℤ◌,
}
use titan_lob.Bitmap.{max_price_levels}
use titan_lob.Pool.{ObjectPool}
use titan_lob.Pool.Invariant.{IsValid, in_use}
use titan_lob.Book.Types.{Order, is_buy, is_aon, PriceLevel, location_is_buy, is_active}
use titan_lob.Book.State.{OrderIndex, Book, price_to_index}
use titan_lob.Book.Links.Lists.{Linked}
use titan_lob.Book.Volume.Held.{Exact}
use titan_lob.Book.Tracking.{IsTracked}

-- how far the index goes, and the highest id that it was given
abbrev pub reach_of : OrderIndex → ℕ × ℕ
reach_of x = (x.size, x.max_order_id)

-- Every live order is indexed under its id, every active entry of the index is a live order's, and no
-- active id is above `max_order_id_`.
pub record Indexed (live : ℕ → Bool) (orders : ℕ → Order) (x : OrderIndex) : Type 0 where
  pub known : (i : ℕ) → live i ≡ true → (orders i).order_id < x.size
  pub points : (i : ℕ) → live i ≡ true → (x.location (orders i).order_id).pool_idx ≡ i
  pub active : (i : ℕ) → live i ≡ true → is_active (x.location (orders i).order_id) ≡ true
  pub same_price :
      (i : ℕ) → live i ≡ true → (x.location (orders i).order_id).price ≡ (orders i).price
  pub same_side :
      (i : ℕ) → live i ≡ true → location_is_buy (x.location (orders i).order_id) ≡ is_buy (orders i)
  pub located :
      (id : ℕ)
      → id < x.size
      → is_active (x.location id) ≡ true
      → live (x.location id).pool_idx ≡ true
  pub named :
      (id : ℕ)
      → id < x.size
      → is_active (x.location id) ≡ true
      → (orders (x.location id).pool_idx).order_id ≡ id
  pub seen : (id : ℕ) → id < x.size → is_active (x.location id) ≡ true → id ≤ x.max_order_id

-- an order at a price of the book, not all-or-none
pub record Placed (o : Order) : Type 0 where
  pub on_grid : o.price ≡ pos (price_to_index o.price)
  pub inside : price_to_index o.price < max_price_levels
  pub plain : is_aon o ≡ false

pub record Frame (p : ObjectPool Order) (x : OrderIndex) (levels : ℕ → PriceLevel) : Type 0 where
  pub valid : IsValid p
  pub linked : Linked (in_use p) p.pool levels
  pub indexed : Indexed (in_use p) p.pool x
  pub placed : (i : ℕ) → in_use p i ≡ true → Placed (p.pool i)

-- Every live order shows a part of it.
pub record Shown (p : ObjectPool Order) : Type 0 where
  pub quantity : (i : ℕ) → in_use p i ≡ true → pos 0 <ℤ (p.pool i).quantity
  pub hidden : (i : ℕ) → in_use p i ≡ true → pos 0 ≤ℤ (p.pool i).hidden_quantity

-- the levels of both sides in one array, a level at its `place`
abbrev pub levels_of : Book → ℕ → PriceLevel
levels_of b k = if k % 2 == 1 then b.bid.levels (k / 2) else b.ask.levels (k / 2)

pub record IsSound (b : Book) : Type 0 where
  pub frame : Frame b.order_pool b.index (levels_of b)
  pub shown : Shown b.order_pool
  pub volumes : Exact b.order_pool (levels_of b)
  pub bids : IsTracked true b.bid
  pub asks : IsTracked false b.ask
