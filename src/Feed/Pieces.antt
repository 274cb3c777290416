-- ===== src/Feed/Pieces.antt =====
-- The live feed of main.cpp on a stream of well-formed messages, which `recv` cuts into pieces.
use mathlib.Core.List.{append_assoc}
use titan_lob.Prelude.{
  ℕ, suc, ◌+◌, ◌-◌, ◌≡◌, ◌⊎◌, inl, inr, refl, sym, ap, ◌∙◌, true, false, Option, none, some,
  Bool-cases, List, [], ◌∷◌, ◌++◌, length, length-append, get_or, get_or-append,
  get_or-append_right, copy, ltb, leb, ◌&&◌, arith, if◌then◌else◌,
}
use titan_lob.Protocol.Wire.{Bytes}
use titan_lob.Protocol.Wire.Image.{bytes}
use titan_lob.Protocol.Wire.Extent.{Agree}
use titan_lob.Book.State.{Book}
use titan_lob.Gateway.Dispatch.{Message, image, cast_header-image}
use titan_lob.Gateway.Session.{images, AllMessages, one_more}
use titan_lob.Feed.{
  from_offset, LiveFeed, receive_bytes, Received, some_bytes, not_yet, ended, live_loop,
}
use titan_lob.Feed.Parse.{live_all, Partial, parse_buffer-Parsed}

-- The bytes that are left of a message, in the buffer.
record Pending (t : List ℕ) (s : LiveFeed) : Type 0 where
  agree : Agree (length t) s.buffer (bytes t)
  size : s.buffer_used ≡ length t

-- The buffer after `recv`.
filled-Agree :
    (t received : List ℕ) (s : LiveFeed)
    → Pending t s
    → Agree
        (length (t ++ received))
        (copy s.buffer s.buffer_used (λ i. get_or received i 0) 0 (length received))
        (bytes (t ++ received))
unfolding copy
filled-Agree t received s h j lt =
    let size = h.size in
    let sum = length-append t received in
    elim (Bool-cases (leb s.buffer_used j)) [
      | inl new ↦
          let inside : (leb s.buffer_used j && ltb j (s.buffer_used + length received)) ≡ true =
            ground (arith, sum) in
          rw inside
            (sym (get_or-append_right t received 0 j (0 + (j - s.buffer_used)) (ground arith)))
      | inr old ↦
          let outside : (leb s.buffer_used j && ltb j (s.buffer_used + length received)) ≡ false =
            rw old refl in
          rw outside (h.agree j (ground arith) ∙ sym (get_or-append t received 0 j (ground arith)))
    ]

-- A round of the live loop.
record Taken (match_fuel : ℕ) (ms : List Message) (y : List ℕ) (s s' : LiveFeed) : Type 0 where
  left : List Message
  t : List ℕ
  all : AllMessages left
  same : live_all match_fuel ms s.book ≡ live_all match_fuel left s'.book
  counted : s'.msg_count + length left ≡ s.msg_count + length ms
  stream : t ++ y ≡ images left
  pending : Pending t s'
  part : Partial t left

-- What is left is moved to the front.
moved :
    (f : Bytes) (used offset : ℕ) (t : List ℕ) (b : Book) (count : ℕ)
    → Agree (length t) (from_offset f offset) (bytes t)
    → used ≡ offset + length t
    → Pending t (record {
      book = b;
      buffer = if ltb 0 offset then copy f 0 f offset (used - offset) else f;
      buffer_used = used - offset;
      msg_count = count;
    })
unfolding copy
moved f used offset t b count agree size = record {
  agree = front (Bool-cases (ltb 0 offset));
  size = omega arith;
}
  where
    front :
        (ltb 0 offset ≡ true) ⊎ (ltb 0 offset ≡ false)
        → Agree (length t) (if ltb 0 offset then copy f 0 f offset (used - offset) else f) (bytes t)
    front (inl e) j lt =
        let inside : (leb 0 j && ltb j (0 + (used - offset))) ≡ true = ground arith in
        let place : offset + (j - 0) ≡ offset + j = omega arith in
        rw (e, inside) (ap f place ∙ agree j lt)
    front (inr e) j lt = let place : j ≡ offset + j = ground arith in rw e (ap f place ∙ agree j lt)

receive_bytes-Taken :
    (match_fuel : ℕ) (s : LiveFeed) (received : List ℕ) (ms : List Message) (t y : List ℕ)
    → AllMessages ms
    → Pending t s
    → t ++ (received ++ y) ≡ images ms
    → ((live_all match_fuel ms s.book ≡ none) × (receive_bytes match_fuel s received ≡ none))
      ⊎ ((s' : LiveFeed) × (receive_bytes match_fuel s received ≡ some s')
          × Taken match_fuel ms y s s')
unfolding receive_bytes
receive_bytes-Taken match_fuel s received ms t y all h same =
    let used : ℕ = s.buffer_used + length received in
    let f : Bytes = copy s.buffer s.buffer_used (λ i. get_or received i 0) 0 (length received) in
    let size = h.size in
    let sum = length-append t received in
    elim (parse_buffer-Parsed match_fuel f used (suc used) 0 s.msg_count s.book ms (t ++ received) y
      all (append_assoc t received y ∙ same)
      (λ j lt. let front : 0 + j ≡ j = omega arith in ap f front ∙ filled-Agree t received s h j lt)
      (omega arith) (omega arith)) [
        | inl (stuck, short) ↦ inl (stuck, rw (receive_bytes, short) refl)
        | inr r ↦ inr (
          _,
          rw (receive_bytes, r.stopped) refl,
          record {
            left = r.left;
            t = r.t;
            all = r.all;
            same = r.same;
            counted = r.counted;
            stream = r.stream;
            pending = moved f used r.offset r.t r.book r.msg_count r.agree r.rest;
            part = r.part;
          },
        )
      ]

-- the bytes that arrive until the connection ends
abbrev pub arrived : List Received → List ℕ
arrived [] = []
arrived (some_bytes received ∷ rs) = received ++ arrived rs
arrived (not_yet ∷ rs) = arrived rs
arrived (ended ∷ rs) = []

-- what the loop leaves: the book, the number of messages, and how many bytes are not used up
abbrev pub outcome : Option LiveFeed → Option (Book × ℕ × ℕ)
outcome none = none
outcome (some s) = some (s.book, s.msg_count, s.buffer_used)

abbrev pub caught_up : ℕ → Option Book → Option (Book × ℕ × ℕ)
caught_up count none = none
caught_up count (some b) = some (b, count, 0)

at_end :
    (match_fuel : ℕ) (s : LiveFeed) (ms : List Message) (t : List ℕ)
    → Pending t s
    → Partial t ms
    → t ++ [] ≡ images ms
    → outcome (some s) ≡ caught_up (s.msg_count + length ms) (live_all match_fuel ms s.book)
unfolding images live_all
at_end match_fuel s [] t h part same =
    let sum = length-append t [] in
    let none_left : length (t ++ []) ≡ 0 = ap length same in
    let size = h.size in
    let used : s.buffer_used ≡ 0 = omega (arith, sum, none_left, size) in
    let count : s.msg_count + 0 ≡ s.msg_count = omega arith in rw (used, count) refl
at_end match_fuel s (m ∷ ms) t h part same =
    let sum = length-append t [] in
    let total = length-append (image m) (images ms) in
    let sizes : length (t ++ []) ≡ length (image m ++ images ms) = ap length same in
    absurd (omega (arith, sum, total, sizes))

live_loop-Pending :
    (match_fuel : ℕ) (rs : List Received) (s : LiveFeed) (ms : List Message) (t : List ℕ)
    → AllMessages ms
    → Pending t s
    → Partial t ms
    → t ++ arrived rs ≡ images ms
    → outcome (live_loop match_fuel rs s)
      ≡ caught_up (s.msg_count + length ms) (live_all match_fuel ms s.book)
unfolding live_loop
live_loop-Pending match_fuel [] s ms t all h part same = at_end match_fuel s ms t h part same
live_loop-Pending match_fuel (ended ∷ rs) s ms t all h part same =
    at_end match_fuel s ms t h part same
live_loop-Pending match_fuel (not_yet ∷ rs) s ms t all h part same =
    live_loop-Pending match_fuel rs s ms t all h part same
live_loop-Pending match_fuel (some_bytes received ∷ rs) s ms t all h part same =
    elim (receive_bytes-Taken match_fuel s received ms t (arrived rs) all h same) [
      | inl (stuck, short) ↦ rw (live_loop, short, stuck) refl
      | inr (s', e, r) ↦
          rw (live_loop, e, r.same, sym r.counted)
            (live_loop-Pending match_fuel rs s' r.left r.t r.all r.pending r.part r.stream)
    ]

-- However `recv` cuts a stream of well-formed messages into pieces, and however often it has nothing yet,
-- the live loop makes these calls of the book, in order and no other: `add_order` for ADD_ORDER,
-- `cancel_order` for CANCEL_ORDER and for MODIFY_ORDER, whose price and quantity it does not read. It passes
-- over ADD_ICEBERG, ADD_AON, EXECUTE and HEARTBEAT. It counts every message and has no byte left. `none` on
-- either side is a call that had too little fuel.
pub live_loop-images :
    (match_fuel : ℕ) (rs : List Received) (s : LiveFeed) (ms : List Message)
    → AllMessages ms
    → arrived rs ≡ images ms
    → s.buffer_used ≡ 0
    → outcome (live_loop match_fuel rs s)
      ≡ caught_up (s.msg_count + length ms) (live_all match_fuel ms s.book)
live_loop-images match_fuel rs s ms all same fresh =
    live_loop-Pending match_fuel rs s ms [] all
      (record { agree = λ j lt. absurd (omega arith); size = fresh }) (nothing_yet ms all) same
  where
    nothing_yet : (ms : List Message) → AllMessages ms → Partial [] ms
    nothing_yet [] all = tt
    nothing_yet (m ∷ ms) (one_more is all) =
        let sizes = cast_header-image m (bytes (image m)) is (λ j h. refl) in
        let large = sizes.2 in omega (arith, large)
