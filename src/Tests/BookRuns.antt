-- ===== src/Tests/BookRuns.antt =====
-- The order book on small inputs.
use titan_lob.Prelude.{
  ℕ, true, ◌≡◌, refl, Option, none, some, ℤ, pos, negsuc, update, copy, ◌+ℤ◌, ◌-ℤ◌,
}
use titan_lob.Tests.Starts.{two_asks}
use titan_lob.Pool
use titan_lob.Bitmap
use titan_lob.Book.State.{Book}
use titan_lob.Book.Add.{add_order_internal, rest_order}
use titan_lob.Book.Links.{list_remove}
use titan_lob.Book.Volume.{remove_from_level_volume, adjust_level_volume}
use titan_lob.Book.Best.{update_best_bid_after_add, update_best_ask_after_remove}
use titan_lob.Book.Emit.{put_message, emit_trade}
use titan_lob.Book.Cancel.{cancel_order_internal}
use titan_lob.Book.Match.{match_internal}
use titan_lob.Book.Api.{add_order}

after_buy : Option Book
unfolding two_asks add_order match_internal list_remove remove_from_level_volume adjust_level_volume
    emit_trade update_best_ask_after_remove Pool.free Bitmap.find_lowest Bitmap.clear
    update_best_bid_after_add update copy ◌+ℤ◌ ◌-ℤ◌
after_buy = add_order 20 two_asks 3 true (pos 101) (pos 9) 0

abbrev view : Option Book → ℤ × ℤ × ℕ × ℕ × ℤ
view none = (pos 0, pos 0, 0, 0, pos 0)
view (some b) = (
  b.bid.best,
  b.ask.best,
  b.index.active_order_count,
  b.out.trades_executed,
  (b.ask.levels 101).total_visible_volume,
)

run : view after_buy ≡ (negsuc 0, pos 101, 1, 2, pos 3)
unfolding after_buy rest_order titan_lob.Book.Add.put_level titan_lob.Book.Match.match_rest
    titan_lob.Book.Match.match_loop titan_lob.Book.Add.write_order titan_lob.Book.Match.match_level
    titan_lob.Book.Match.finish_walk titan_lob.Book.Match.visit_order
    titan_lob.Book.Match.settle_order titan_lob.Book.Match.trade_with
    titan_lob.Book.Match.remove_order titan_lob.Book.Cancel.take_level
    titan_lob.Book.Match.rest_remainder titan_lob.Book.Add.index_order put_message
run = refl
