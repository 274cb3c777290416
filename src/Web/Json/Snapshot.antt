-- ===== src/Web/Json/Snapshot.antt =====
-- main.cpp: what `build_book_snapshot` writes, against JSON text for the same values.
use Prim.Native.String.{String}
use mathlib.Core.List.{append_assoc, append-nil}
use titan_lob.Prelude.{
  ℕ, suc, ◌+◌, ◌-◌, ◌≡◌, refl, sym, ap, ◌∙◌, inl, inr, Bool, true, false, leb, if◌then◌else◌,
  Bool-cases, List, [], ◌∷◌, ◌++◌, map, take, ℤ, pos, arith,
}
use titan_lob.Protocol.Wire.{to_int64}
use titan_lob.Book.State.{Book}
use titan_lob.Book.Api.{
  get_bids_snapshot, get_asks_snapshot, get_best_bid, get_best_ask, bid_levels, ask_levels,
  order_count, trades_executed,
}
use titan_lob.Web.Json.{
  Chunk, text, number, JsonBuilder, new, begin_object, end_object, begin_array, end_array,
  array_item, key, value_text, value_number, add_levels, build_book_snapshot,
}

-- The parts of JSON text.
abbrev pub join : List (List Chunk) → List Chunk
join [] = []
join (x ∷ xs) = elim xs [ [] ↦ x | _ ∷ _ ↦ x ++ (text "," ∷ join xs) ]

abbrev pub object : List (List Chunk) → List Chunk
object members = text "{" ∷ (join members ++ (text "}" ∷ []))

abbrev pub array : List (List Chunk) → List Chunk
array items = text "[" ∷ (join items ++ (text "]" ∷ []))

abbrev pub member : String → List Chunk → List Chunk
member k v = text "\"" ∷ text k ∷ text "\":" ∷ v

abbrev pub quoted : String → List Chunk
quoted s = text "\"" ∷ text s ∷ text "\"" ∷ []

abbrev pub pair : ℤ × ℤ → List Chunk
pair (price, volume) = array ((number price ∷ []) ∷ (number volume ∷ []) ∷ [])

-- What the loop over the levels writes: a comma stands before an item unless it is the first.
abbrev items : Bool → List (ℤ × ℤ) → List Chunk
items first [] = []
items first (l ∷ ls) = (if first then [] else text "," ∷ []) ++ (pair l ++ items false ls)

-- whether the next item is still the first
abbrev still : Bool → List (ℤ × ℤ) → Bool
still first [] = first
still first (_ ∷ _) = false

not_still : (first : Bool) (ls : List (ℤ × ℤ)) → first ≡ false → still first ls ≡ false
not_still first [] e = e
not_still first (l ∷ ls) e = refl

join-items_cons :
    (l : ℤ × ℤ) (ls : List (ℤ × ℤ)) → join (map pair (l ∷ ls)) ≡ pair l ++ items false ls
join-items_cons l [] = refl
join-items_cons l (k ∷ ks) =
    ap (λ t. text "[" ∷ number l.0 ∷ text "," ∷ number l.1 ∷ text "]" ∷ text "," ∷ t)
      (join-items_cons k ks)

join-items : (ls : List (ℤ × ℤ)) → join (map pair ls) ≡ items true ls
join-items [] = refl
join-items (l ∷ ls) = join-items_cons l ls

-- One level in the loop.
abbrev add_item : ℤ × ℤ → JsonBuilder → JsonBuilder
add_item (price, volume) j = end_array (
    value_number volume (array_item (value_number price (array_item (begin_array (array_item j))))))

add_item_lem :
    (l : ℤ × ℤ) (j : JsonBuilder)
    → ((add_item l j).ss ≡ j.ss ++ ((if j.first then [] else text "," ∷ []) ++ pair l))
      × ((add_item l j).first ≡ false)
unfolding array_item begin_array end_array value_number
add_item_lem l j = elim (Bool-cases j.first) [
  | inl e ↦ rw e (simp append_assoc refl, refl)
  | inr e ↦ rw e (simp append_assoc refl, refl)
]

add_levels_lem :
    (count : ℕ) (ls : List (ℤ × ℤ)) (j : JsonBuilder)
    → let j' = add_levels count ls j in
      (j'.ss ≡ j.ss ++ items j.first (take (10 - count) ls))
      × (j'.first ≡ still j.first (take (10 - count) ls))
unfolding add_levels
add_levels_lem count [] j = elim (Bool-cases (leb 10 count)) [
  | inl full ↦ let none : 10 - count ≡ 0 = ground arith in rw none (sym (append-nil j.ss), refl)
  | inr room ↦
      let more : 10 - count ≡ suc (10 - (count + 1)) = ground arith in
      rw more (sym (append-nil j.ss), refl)
]
add_levels_lem count (l ∷ ls) j = elim (Bool-cases (leb 10 count)) [
  | inl full ↦
      let none : 10 - count ≡ 0 = ground arith in rw (full, none) (sym (append-nil j.ss), refl)
  | inr room ↦
      let more : 10 - count ≡ suc (10 - (count + 1)) = ground arith in
      let item = add_item_lem l j in
      let rest = add_levels_lem (count + 1) ls (add_item l j) in
      let tail = take (10 - (count + 1)) ls in
      rw (room, more)
        (
          rest.0
              ∙ rw (item.0, item.1)
                  (append_assoc j.ss ((if j.first then [] else text "," ∷ []) ++ pair l)
                      (items false tail)
                    ∙ ap (λ t. j.ss ++ t)
                        (append_assoc (if j.first then [] else text "," ∷ []) (pair l)
                          (items false tail))),
          rest.1 ∙ not_still (add_item l j).first tail item.1,
        )
]

-- The members of the object, up to the two sides.
abbrev pub counts : ℤ → Book → List (List Chunk)
counts timestamp b =
    member "type" (quoted "book_snapshot")
    ∷ member "timestamp" (number timestamp ∷ [])
    ∷ member "best_bid" (number (get_best_bid b) ∷ [])
    ∷ member "best_ask" (number (get_best_ask b) ∷ [])
    ∷ member "bid_levels" (number (pos (bid_levels b)) ∷ [])
    ∷ member "ask_levels" (number (pos (ask_levels b)) ∷ [])
    ∷ member "order_count" (number (to_int64 (order_count b)) ∷ [])
    ∷ member "trades_executed" (number (to_int64 (trades_executed b)) ∷ [])
    ∷ []

abbrev pub levels_json : List (ℤ × ℤ) → List Chunk
levels_json ls = array (map pair (take 10 ls))

build_lem :
    (timestamp : ℤ) (b : Book)
    → (build_book_snapshot timestamp b).ss
      ≡ object (
          counts timestamp b
          ++ ((member "bids"
                  (text "[" ∷ (items true (take 10 (get_bids_snapshot b)) ++ (text "]" ∷ [])))
                ++ ((if still true (take 10 (get_bids_snapshot b)) then [] else text "," ∷ [])
                    ++ member "asks" (
                        text "["
                        ∷ (items true (take 10 (get_asks_snapshot b)) ++ (text "]" ∷ [])))))
              ∷ []))
unfolding build_book_snapshot begin_object end_object key value_text value_number begin_array
    end_array
build_lem timestamp b =
    let j1 : JsonBuilder = value_text "book_snapshot" (key "type" (begin_object new)) in
    let j2 : JsonBuilder = value_number timestamp (key "timestamp" j1) in
    let j3 : JsonBuilder = value_number (get_best_bid b) (key "best_bid" j2) in
    let j4 : JsonBuilder = value_number (get_best_ask b) (key "best_ask" j3) in
    let j5 : JsonBuilder = value_number (pos (bid_levels b)) (key "bid_levels" j4) in
    let j6 : JsonBuilder = value_number (pos (ask_levels b)) (key "ask_levels" j5) in
    let j7 : JsonBuilder = value_number (to_int64 (order_count b)) (key "order_count" j6) in
    let j8 : JsonBuilder = value_number (to_int64 (trades_executed b)) (key "trades_executed" j7) in
    let jb : JsonBuilder = begin_array (key "bids" j8) in
    let bids = add_levels_lem 0 (get_bids_snapshot b) jb in
    let ja : JsonBuilder =
      begin_array (key "asks" (end_array (add_levels 0 (get_bids_snapshot b) jb))) in
    let asks = add_levels_lem 0 (get_asks_snapshot b) ja in
    elim (Bool-cases (still true (take 10 (get_bids_snapshot b)))) [
      | inl e ↦ rw (asks.0, bids.1, e, bids.0) (simp append_assoc refl)
      | inr e ↦ rw (asks.0, bids.1, e, bids.0) (simp append_assoc refl)
    ]

-- The JSON text of the snapshot with these levels.
abbrev pub snapshot_json : ℤ → Book → (bids asks : List (ℤ × ℤ)) → List Chunk
snapshot_json timestamp b bids asks = object (
    counts timestamp b
    ++ (member "bids" (levels_json bids) ∷ member "asks" (levels_json asks) ∷ []))

-- The same without a comma between the two sides, when there is no bid.
abbrev pub without_comma : ℤ → Book → List Chunk
without_comma timestamp b = object (
    counts timestamp b
    ++ ((member "bids" (levels_json []) ++ member "asks" (levels_json (get_asks_snapshot b))) ∷ []))

snapshot_text_at :
    (timestamp : ℤ) (b : Book) (bids asks : List (ℤ × ℤ))
    → object (
        counts timestamp b
        ++ ((member "bids" (text "[" ∷ (items true (take 10 bids) ++ (text "]" ∷ [])))
              ++ ((if still true (take 10 bids) then [] else text "," ∷ [])
                  ++ member "asks" (text "[" ∷ (items true (take 10 asks) ++ (text "]" ∷ [])))))
            ∷ []))
      ≡ (elim bids [
        | [] ↦ object (
            counts timestamp b
            ++ ((member "bids" (levels_json []) ++ member "asks" (levels_json asks)) ∷ []))
        | l ∷ ls ↦ object (
            counts timestamp b
            ++ (member "bids" (levels_json (l ∷ ls)) ∷ member "asks" (levels_json asks) ∷ []))
      ])
snapshot_text_at timestamp b [] asks = rw (join-items (take 10 asks)) refl
snapshot_text_at timestamp b (l ∷ ls) asks =
    rw (join-items (take 10 (l ∷ ls)), join-items (take 10 asks)) refl

-- What `build_book_snapshot` writes when the book shows a bid is the JSON text of the snapshot: its
-- counts, and of each side the first ten levels. When the book shows no bid, the comma between the two
-- sides is missing, so that the text is not JSON.
pub build_book_snapshot_lem :
    (timestamp : ℤ) (b : Book)
    → (build_book_snapshot timestamp b).ss ≡ (elim (get_bids_snapshot b) [
      | [] ↦ without_comma timestamp b
      | l ∷ ls ↦ snapshot_json timestamp b (l ∷ ls) (get_asks_snapshot b)
    ])
build_book_snapshot_lem timestamp b =
    build_lem timestamp b ∙ snapshot_text_at timestamp b (get_bids_snapshot b) (get_asks_snapshot b)
