-- ===== src/Web/Json.antt =====
-- titan_ws_server.h, `JsonBuilder`, and main.cpp, `build_book_snapshot`. The stream is the list of what
-- was inserted: texts, and integers that it prints in decimal. `value(double)` is left out: nothing
-- calls it.
pub mod Snapshot
use Prim.Native.String.{String}
use titan_lob.Prelude.{
  ℕ, zero, suc, ◌+◌, Bool, true, false, not, leb, if◌then◌else◌, List, [], ◌∷◌, ◌++◌, ℤ, pos,
}
use titan_lob.Protocol.Wire.{to_int64}
use titan_lob.Book.State.{Book}
use titan_lob.Book.Api.{
  get_bids_snapshot, get_asks_snapshot, get_best_bid, get_best_ask, bid_levels, ask_levels,
  order_count, trades_executed,
}

pub data Chunk : Type 0 where
  text : String → Chunk
  number : ℤ → Chunk

pub record JsonBuilder : Type 0 where
  pub ss : List Chunk
  pub first : Bool

abbrev pub new : JsonBuilder
new = record { ss = []; first = true }

abbrev pub insert : JsonBuilder → Chunk → JsonBuilder
insert j c = record j { ss = j.ss ++ (c ∷ []) }

unfoldable pub begin_object : JsonBuilder → JsonBuilder
begin_object j = record (insert j (text "{")) { first = true }

unfoldable pub end_object : JsonBuilder → JsonBuilder
end_object j = insert j (text "}")

unfoldable pub begin_array : JsonBuilder → JsonBuilder
begin_array j = record (insert j (text "[")) { first = true }

unfoldable pub end_array : JsonBuilder → JsonBuilder
end_array j = insert j (text "]")

unfoldable pub array_item : JsonBuilder → JsonBuilder
array_item j = record (if not j.first then insert j (text ",") else j) { first = false }

unfoldable pub key : String → JsonBuilder → JsonBuilder
key k j =
    let j' : JsonBuilder = record (if not j.first then insert j (text ",") else j) {
      first = false;
    } in
    insert (insert (insert j' (text "\"")) (text k)) (text "\":")

unfoldable pub value_text : String → JsonBuilder → JsonBuilder
value_text v j = insert (insert (insert j (text "\"")) (text v)) (text "\"")

unfoldable pub value_number : ℤ → JsonBuilder → JsonBuilder
value_number v j = insert j (number v)

unfoldable pub value_bool : Bool → JsonBuilder → JsonBuilder
value_bool v j = insert j (text (if v then "true" else "false"))

unfoldable pub clear : JsonBuilder → JsonBuilder
clear j = new

-- The loop over the levels of a side: `count` of them are done, and no more than ten are.
unfoldable pub add_levels : (count : ℕ) → List (ℤ × ℤ) → JsonBuilder → JsonBuilder
unfolding array_item begin_array end_array value_number
add_levels count [] j = j
add_levels count ((price, volume) ∷ levels) j =
    let item : JsonBuilder = begin_array (array_item j) in
    let rest =
      add_levels (count + 1) levels
        (end_array (value_number volume (array_item (value_number price (array_item item))))) in
    if leb 10 count then j else rest

-- `timestamp` is what the system's clock gives.
unfoldable pub build_book_snapshot : (timestamp : ℤ) → Book → JsonBuilder
unfolding begin_object end_object key value_text value_number begin_array end_array add_levels
build_book_snapshot timestamp b =
    let j0 : JsonBuilder = begin_object new in
    let j1 : JsonBuilder = value_text "book_snapshot" (key "type" j0) in
    let j2 : JsonBuilder = value_number timestamp (key "timestamp" j1) in
    let j3 : JsonBuilder = value_number (get_best_bid b) (key "best_bid" j2) in
    let j4 : JsonBuilder = value_number (get_best_ask b) (key "best_ask" j3) in
    let j5 : JsonBuilder = value_number (pos (bid_levels b)) (key "bid_levels" j4) in
    let j6 : JsonBuilder = value_number (pos (ask_levels b)) (key "ask_levels" j5) in
    let j7 : JsonBuilder = value_number (to_int64 (order_count b)) (key "order_count" j6) in
    let j8 : JsonBuilder = value_number (to_int64 (trades_executed b)) (key "trades_executed" j7) in
    let j9 : JsonBuilder =
      end_array (add_levels 0 (get_bids_snapshot b) (begin_array (key "bids" j8))) in
    let j10 : JsonBuilder =
      end_array (add_levels 0 (get_asks_snapshot b) (begin_array (key "asks" j9))) in
    end_object j10
