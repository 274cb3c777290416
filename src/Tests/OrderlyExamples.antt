-- ===== src/Tests/OrderlyExamples.antt =====
-- The whole book: calls of the public methods one after the other.
use titan_lob.Prelude.{ℕ, ◌<◌, update, ◌≡◌, refl, arith, true, false, some, pos, ◌<ℤ◌}
use titan_lob.Pool
use titan_lob.Book.Types.{gtc, ioc, is_active}
use titan_lob.Book.State.{Book}
use titan_lob.Tests.Starts.{start, two_asks}
use titan_lob.Book.State.{ensure_capacity}
use titan_lob.Book.Links.{list_push_back}
use titan_lob.Book.Add.{add_order_internal, rest_order, index_order, write_order, put_level}
use titan_lob.Book.Cancel.{cancel_order_internal, modify_order_internal}
use titan_lob.Book.Match.{match_internal}
use titan_lob.Book.Api.{add_order, match_order, reset_internal}
use titan_lob.Pool.Invariant.{in_use}
use titan_lob.Book.Orders.Reset.{reset_internal-IsSound}
use titan_lob.Book.Orders.{IsSound}
use titan_lob.Book.Orders.Added.{HasRoom}
use titan_lob.Book.Orders.Cancelled.{cancel_order_internal-IsSound}
use titan_lob.Book.Orders.Modified.{modify_order_internal-IsSound}
use titan_lob.Book.Orders.Filled.{Matches, match_internal-Matches}
use titan_lob.Book.Links.Lists.{place}
use titan_lob.Book.Volume.Held.{held}
use titan_lob.Book.State.{own_side}
use titan_lob.Book.Orders.Reach.{
  Step, Reachable, Reachable-IsOrderly, best_bid_below_best_ask, add_order-returns, level_volumes,
}

-- a new book for four orders
start-Reachable : Reachable start
unfolding start
start-Reachable = Reachable.start 4 (omega arith) (omega arith)

start-HasRoom : (id : ℕ) → id < 100 → HasRoom start id
unfolding start
start-HasRoom id lt = record {
  pool = omega arith;
  fits = omega arith;
  index = omega arith;
  fresh = λ _. refl;
}

-- five at 101
abbrev one_ask : Book
one_ask = add_order_internal start 1 false (pos 101) (pos 5) 0

one_ask_added : add_order 10 start 1 false (pos 101) (pos 5) 0 ≡ some one_ask
unfolding add_order start
one_ask_added = refl

one_ask-Reachable : Reachable one_ask
one_ask-Reachable = Reachable.then start one_ask start-Reachable (
    Step.added 10 start one_ask 1 false 101 (pos 5) 0 (omega arith) (omega arith)
      (start-HasRoom 1 (omega arith)) (omega arith) one_ask_added)

one_ask-HasRoom : HasRoom one_ask 2
unfolding start add_order_internal rest_order Pool.allocate list_push_back index_order
    ensure_capacity update write_order
one_ask-HasRoom = record {
  pool = omega arith;
  fits = omega arith;
  index = omega arith;
  fresh = λ _. refl;
}

two_asks_added : add_order 10 one_ask 2 false (pos 100) (pos 7) 0 ≡ some two_asks
unfolding add_order two_asks rest_order start
two_asks_added = refl

-- Five at 101 and seven at 100.
two_asks-Reachable : Reachable two_asks
two_asks-Reachable = Reachable.then one_ask two_asks one_ask-Reachable (
    Step.added 10 one_ask two_asks 2 false 100 (pos 7) 0 (omega arith) (omega arith) one_ask-HasRoom
      (omega arith) two_asks_added)

two_asks-HasRoom : HasRoom two_asks 3
unfolding start two_asks add_order_internal rest_order Pool.allocate list_push_back index_order
    ensure_capacity update write_order put_level
two_asks-HasRoom = record {
  pool = omega arith;
  fits = omega arith;
  index = omega arith;
  fresh = λ _. refl;
}

two_asks-IsSound : IsSound two_asks
two_asks-IsSound = (Reachable-IsOrderly two_asks two_asks-Reachable).sound

best_bid_below_best_ask_example : two_asks.bid.best <ℤ two_asks.ask.best
best_bid_below_best_ask_example = best_bid_below_best_ask two_asks two_asks-Reachable

-- A buy of nine at 101 meets both.
add_order-returns_example :
    ((b' : Book) × (add_order 20 two_asks 3 true (pos 101) (pos 9) 0 ≡ some b') × Reachable b')
    × ((b' : Book) × (match_order 20 two_asks 3 true (pos 101) (pos 9) ioc ≡ some b')
        × Reachable b')
add_order-returns_example =
    add_order-returns 20 two_asks 3 true 101 (pos 9) 0 ioc two_asks-Reachable tt (omega arith)
      (omega arith) two_asks-HasRoom (omega arith)

cancel_order_internal-IsSound_example : IsSound (cancel_order_internal two_asks 2)
cancel_order_internal-IsSound_example = cancel_order_internal-IsSound two_asks 2 two_asks-IsSound

modify_order_internal-IsSound_example : IsSound (modify_order_internal two_asks 2 (pos 99) (pos 8))
modify_order_internal-IsSound_example =
    modify_order_internal-IsSound two_asks 2 99 (pos 8) two_asks-IsSound two_asks-HasRoom.pool
      two_asks-HasRoom.index (omega arith) (omega arith)

reset_internal-IsSound_example :
    IsSound (reset_internal two_asks)
    × ((i : ℕ) → in_use (reset_internal two_asks).order_pool i ≡ false)
    × ((id : ℕ)
        → id < two_asks.index.size
        → is_active ((reset_internal two_asks).index.location id) ≡ false)
reset_internal-IsSound_example = reset_internal-IsSound two_asks two_asks-IsSound

match_internal-Matches_example :
    (b' : Book) × (count : ℕ) × (match_internal 20 two_asks 3 true (pos 101) (pos 9) gtc
      ≡ some (b', count))
    × IsSound b'
    × Matches gtc true 101 (pos 9) two_asks b'
match_internal-Matches_example =
    match_internal-Matches 20 two_asks 3 true 101 (pos 9) two_asks-IsSound gtc tt (omega arith)
      (omega arith) (omega arith) two_asks-HasRoom

level_volumes_example :
    ((own_side false two_asks).levels 100).total_volume ≡ held two_asks.order_pool (place false 100)
level_volumes_example = level_volumes two_asks false 100 two_asks-Reachable
