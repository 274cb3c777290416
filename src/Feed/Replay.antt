-- ===== src/Feed/Replay.antt =====
-- The replay loop of main.cpp over a file of well-formed messages.
use titan_lob.Prelude.{
  ℕ, zero, suc, ◌+◌, ◌≡◌, ◌<◌, refl, ap, ◌∙◌, inl, inr, Bool, true, false, not, ◌&&◌, ◌||◌, Option,
  none, some, List, [], ◌∷◌, ltb, ◌==◌, length, length-append, get_or-append, get_or-append_right,
  arith, Option-cases,
}
use titan_lob.Protocol.Messages.{header_size}
use titan_lob.Protocol.Wire.{Bytes, cast_header}
use titan_lob.Protocol.Wire.Image.{bytes}
use titan_lob.Protocol.Wire.Extent.{Agree}
use titan_lob.Book.State.{Book}
use titan_lob.Gateway.Dispatch.{Message, image, cast_header-image}
use titan_lob.Gateway.Session.{images, AllMessages, one_more}
use titan_lob.Feed.{from_offset, replay}
use titan_lob.Feed.Dispatch.{perform_replay, dispatch-image}

-- the calls for the messages, one after the other
unfoldable pub replay_all : (fuel : ℕ) → List Message → Book → Option Book
replay_all fuel [] b = some b
replay_all fuel (m ∷ ms) b = elim (perform_replay fuel m b) [
  | none ↦ none
  | some b' ↦ replay_all fuel ms b'
]

abbrev pub counted : ℕ → Option Book → Option (Book × ℕ)
counted n none = none
counted n (some b) = some (b, n)

-- the next message of the file, and what follows it
head_agrees :
    (m : Message) (ms : List Message) (f : Bytes)
    → Agree (length (images (m ∷ ms))) f (bytes (images (m ∷ ms)))
    → Agree (length (image m)) f (bytes (image m))
unfolding images
head_agrees m ms f h j lt =
    let total = length-append (image m) (images ms) in
    h j (omega arith) ∙ get_or-append (image m) (images ms) 0 j lt

tail_agrees :
    (m : Message) (ms : List Message) (file : Bytes) (offset : ℕ)
    → Agree (length (images (m ∷ ms))) (from_offset file offset) (bytes (images (m ∷ ms)))
    → Agree (length (images ms)) (from_offset file (offset + length (image m))) (bytes (images ms))
unfolding images
tail_agrees m ms file offset h j lt =
    let total = length-append (image m) (images ms) in
    let place : offset + length (image m) + j ≡ offset + (length (image m) + j) = omega arith in
    ap file place
    ∙ h (length (image m) + j) (omega arith)
    ∙ get_or-append_right (image m) (images ms) 0 (length (image m) + j) j refl

module _ (running : ℕ → Bool) (on : (r : ℕ) → running r ≡ true) (match_fuel : ℕ) where
  -- A file that holds well-formed messages from the offset to its end is replayed whole: the loop makes
  -- one round for each message, counts it, and calls `add_order` for ADD_ORDER and `cancel_order` for
  -- CANCEL_ORDER, both without the mutex, in order. It passes over MODIFY_ORDER, ADD_ICEBERG, ADD_AON,
  -- EXECUTE and HEARTBEAT. `none` on either side is a call of the book that had too little fuel.
  pub replay_lem :
      (fuel : ℕ) (ms : List Message) (file : Bytes) (size offset msg_count : ℕ) (b : Book)
      → AllMessages ms
      → size ≡ offset + length (images ms)
      → Agree (length (images ms)) (from_offset file offset) (bytes (images ms))
      → length ms < fuel
      → replay fuel match_fuel running file size offset msg_count b
        ≡ counted (msg_count + length ms) (replay_all match_fuel ms b)
  unfolding replay images replay_all
  replay_lem zero ms file size offset msg_count b all whole agree lt = absurd (omega arith)
  replay_lem (suc fuel) [] file size offset msg_count b all whole agree lt =
      let ends : ltb offset size ≡ false = ground arith in
      let same : msg_count + 0 ≡ msg_count = omega arith in rw (replay, ends, same) refl
  replay_lem (suc fuel) (m ∷ ms) file size offset msg_count b (one_more is all) whole agree lt =
      let here = head_agrees m ms (from_offset file offset) agree in
      let sizes = cast_header-image m (bytes (image m)) is (λ j h. refl) in
      let large = sizes.2 in
      let read = cast_header-image m (from_offset file offset) is (λ j h. here j (omega arith)) in
      let len : (cast_header (from_offset file offset) 0).length ≡ length (image m) =
        ap (λ h. h.length) read.0 ∙ read.1 in
      let total = length-append (image m) (images ms) in
      let goes = on fuel in
      let stays : (not (ltb offset size && running fuel)
            || (ltb size (offset + header_size)
                || (length (image m) == 0 || ltb size (offset + length (image m)))))
          ≡ false =
        ground arith in
      let does = (dispatch-image match_fuel m (from_offset file offset) b is here).1 in
      let count : msg_count + suc (length ms) ≡ suc msg_count + length ms = omega arith in
      elim (Option-cases (perform_replay match_fuel m b)) [
        | inl short ↦ rw (replay, len, stays, len, replay_all, does, short) refl
        | inr (b', e) ↦
            rw (replay, len, stays, len, replay_all, does, e, len, count)
              (replay_lem fuel ms file size (offset + length (image m)) (suc msg_count) b' all
                (omega arith) (tail_agrees m ms file offset agree) (omega arith))
      ]
