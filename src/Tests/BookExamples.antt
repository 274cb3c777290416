-- ===== src/Tests/BookExamples.antt =====
-- The order book's theorems at concrete inputs.
use titan_lob.Prelude.{◌≡◌, refl, true, none, [], ◌∷◌, pos, update, copy, ◌+ℤ◌, arith, int_laws}
use titan_lob.Tests.Starts.{two_asks, aon_ask}
use titan_lob.Pool
use titan_lob.Book.State.{ensure_capacity}
use titan_lob.Book.Links.{list_push_back}
use titan_lob.Book.Add.{
  add_order_internal, add_iceberg_internal, add_aon_internal, rest_order, put_level, write_order,
  index_order,
}
use titan_lob.Book.Add.Rest.{Rested, adds-Rested}
use titan_lob.Book.Emit.{put_message}
use titan_lob.Book.Match.{incoming}
use titan_lob.Book.Cancel.{is_cancellable, cancel_order_internal}
use titan_lob.Book.Cancel.Branches.{Cancelled, cancel_order_internal-Cancelled}
use titan_lob.Prelude.{ltb, if◌then◌else◌}
use titan_lob.Bitmap.{max_price_levels}
use titan_lob.Book.Api.{get_asks_snapshot, get_bids_snapshot}
use titan_lob.Book.Api.Snapshot.{Ascending, Descending, volume_at, shown, snapshots_lem}
use titan_lob.Book.Match.Stuck.{IsBlocked}
use titan_lob.Book.Api.{add_order}
use titan_lob.Book.Api.Blocked.{add_order-blocked}

adds-Rested_example :
    Rested true two_asks (add_order_internal two_asks 5 true (pos 50) (pos 9) 0) (pos 9)
    × Rested true two_asks (add_iceberg_internal two_asks 5 true (pos 50) (pos 9) (pos 2) 0) (pos 9)
    × Rested true two_asks (add_aon_internal two_asks 5 true (pos 50) (pos 9) 0) (pos 9)
adds-Rested_example = adds-Rested two_asks 5 true (pos 50) (pos 9) (pos 2) 0 (omega arith)

-- A buy of three at 100 that meets the all-or-none order of ten.
aon_ask-IsBlocked : IsBlocked aon_ask (incoming 2 true (pos 100)) (pos 3) 100 (0 ∷ [])
unfolding aon_ask rest_order put_level write_order update copy ◌+ℤ◌ index_order put_message
aon_ask-IsBlocked = record {
  best = refl;
  in_range = omega arith;
  meets = refl;
  positive = omega int_laws;
  held = refl;
  chain = (refl, omega arith, refl, omega int_laws, refl);
}

add_order-blocked_example : add_order 1000 aon_ask 2 true (pos 100) (pos 3) 0 ≡ none
add_order-blocked_example =
    add_order-blocked 1000 aon_ask 2 true (pos 100) (pos 3) 0 100 (0 ∷ []) aon_ask-IsBlocked

two_asks_cancellable : is_cancellable two_asks 1 ≡ true
unfolding two_asks rest_order put_level write_order update copy ◌+ℤ◌ index_order put_message
    list_push_back add_order_internal Pool.allocate ensure_capacity
two_asks_cancellable = refl

cancel_order_internal_example : Cancelled two_asks 1 (cancel_order_internal two_asks 1)
cancel_order_internal_example = cancel_order_internal-Cancelled two_asks 1 two_asks_cancellable

snapshots_example :
    Ascending 0 (get_asks_snapshot two_asks)
    × Descending max_price_levels (get_bids_snapshot two_asks)
    × (volume_at (get_asks_snapshot two_asks) 100
        ≡ (if ltb 100 max_price_levels then shown (two_asks.ask.levels 100) else pos 0))
    × (volume_at (get_bids_snapshot two_asks) 100
        ≡ (if ltb 100 max_price_levels then shown (two_asks.bid.levels 100) else pos 0))
snapshots_example = snapshots_lem two_asks 100
