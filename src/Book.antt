-- ===== src/Book.antt =====
-- order_book.h: the limit order book. Its children are the class's data, then its methods in the
-- order in which they use one another; below each of these stand its theorems. (order_book.cpp
-- holds the same bodies as order_book.h.)
pub mod Types
pub mod State
pub mod Links
pub mod Volume
pub mod Best
pub mod Emit
pub mod Add
pub mod Cancel
pub mod Available
pub mod Match
pub mod Orders
pub mod Api
pub mod Tracking
