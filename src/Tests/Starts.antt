-- ===== src/Tests/Starts.antt =====
-- Books that the examples start from, and what a computation that has a result gives.
use titan_lob.Prelude.{◌≡◌, refl, arith, Bool, true, false, Option, none, some, pos}
use titan_lob.Pool
use titan_lob.Ring
use titan_lob.Bitmap
use titan_lob.Book.State.{Book, new, ensure_capacity}
use titan_lob.Book.Links.{list_push_back}
use titan_lob.Book.Volume.{add_to_level_volume}
use titan_lob.Book.Best.{update_best_ask_after_add}
use titan_lob.Book.Emit.{emit_order_accepted}
use titan_lob.Book.Add.{add_order_internal, add_aon_internal}

unfoldable pub start : Book
unfolding new Pool.new Ring.new
start = new 4

-- Seven at 100, and five at 101.
unfoldable pub two_asks : Book
unfolding start new Pool.new Ring.new Pool.allocate add_order_internal list_push_back
    add_to_level_volume update_best_ask_after_add emit_order_accepted ensure_capacity Bitmap.set
two_asks =
    add_order_internal (add_order_internal start 1 false (pos 101) (pos 5) 0) 2 false (pos 100)
      (pos 7) 0

-- An all-or-none order for ten at 100.
unfoldable pub aon_ask : Book
unfolding start new Pool.new Ring.new Pool.allocate add_aon_internal list_push_back
    add_to_level_volume update_best_ask_after_add emit_order_accepted ensure_capacity Bitmap.set
aon_ask = add_aon_internal start 1 false (pos 100) (pos 10) 0

abbrev pub has_result : {A : Type 0} → Option A → Bool
has_result none = false
has_result (some x) = true

abbrev pub result_or : {A : Type 0} → A → Option A → A
result_or d none = d
result_or d (some x) = x

pub result_lem :
    {A : Type 0} (d : A) (o : Option A) → has_result o ≡ true → o ≡ some (result_or d o)
result_lem d none h = ground arith
result_lem d (some x) h = refl
