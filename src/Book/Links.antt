-- ===== src/Book/Links.antt =====
-- order_book.h, `list_push_back` and `list_remove`: the orders of a level as a doubly linked list
-- through the pool. Each assignment is made in the source's order, and reads what those before it
-- left.
pub mod Chain
pub mod Wiring
pub mod Lists
use titan_lob.Prelude.{ℕ, ◌+◌, ◌-◌, ◌%◌, ◌^◌, ◌==◌, if◌then◌else◌, update}
use titan_lob.Pool.{ObjectPool, null_index}
use titan_lob.Book.Types.{Order, PriceLevel}

-- `order_pool_[idx].next = i` and its like
pub set_next : ObjectPool Order → ℕ → ℕ → ObjectPool Order
unfolding update
set_next p idx i = record p { pool = update p.pool idx (record (p.pool idx) { next = i }) }

pub set_prev : ObjectPool Order → ℕ → ℕ → ObjectPool Order
unfolding update
set_prev p idx i = record p { pool = update p.pool idx (record (p.pool idx) { prev = i }) }

-- a `uint32_t` counter up and down
abbrev pub count_up : ℕ → ℕ
count_up n = (n + 1) % 2 ^ 32

abbrev pub count_down : ℕ → ℕ
count_down n = (n + 2 ^ 32 - 1) % 2 ^ 32

unfoldable pub list_push_back : ObjectPool Order → PriceLevel → ℕ → ObjectPool Order × PriceLevel
unfolding set_next set_prev
list_push_back p level idx =
    let p1 : ObjectPool Order = set_prev (set_next p idx null_index) idx level.tail in
    if level.tail == null_index
    then (p1, record level { head = idx; tail = idx; count = count_up level.count })
    else (set_next p1 level.tail idx, record level { tail = idx; count = count_up level.count })

-- What `list_remove` does at the node before, at the node after, and to the node itself.
pub unlink_prev : ObjectPool Order → PriceLevel → ℕ → ObjectPool Order × PriceLevel
unfolding set_next
unlink_prev p level idx =
    if (p.pool idx).prev == null_index
    then (p, record level { head = (p.pool idx).next })
    else (set_next p (p.pool idx).prev (p.pool idx).next, level)

pub unlink_next : ObjectPool Order → PriceLevel → ℕ → ObjectPool Order × PriceLevel
unfolding set_prev
unlink_next p level idx =
    if (p.pool idx).next == null_index
    then (p, record level { tail = (p.pool idx).prev })
    else (set_prev p (p.pool idx).next (p.pool idx).prev, level)

unfoldable pub list_remove : ObjectPool Order → PriceLevel → ℕ → ObjectPool Order × PriceLevel
unfolding set_next set_prev unlink_prev unlink_next
list_remove p level idx =
    let (p1, level1) = unlink_prev p level idx in
    let (p2, level2) = unlink_next p1 level1 idx in
    (
      set_prev (set_next p2 idx null_index) idx null_index,
      record level2 { count = count_down level2.count },
    )
