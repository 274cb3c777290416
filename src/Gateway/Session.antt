-- ===== src/Gateway/Session.antt =====
-- `handle_client` of gateway.h on the bytes of a client that sends well-formed messages.
use titan_lob.Prelude.{
  ℕ, zero, suc, ◌+◌, ◌-◌, ◌≤◌, ◌<◌, ◌≡◌, refl, sym, ap, ◌∙◌, inl, inr, Bool, true, Option, none,
  some, List, [], ◌∷◌, ◌++◌, length, length-append, get_or-append, get_or, slice, slice-append,
  slice_ext, length-slice, arith, Option-cases,
}
use mathlib.Core.List.{append_assoc}
use mathlib.Core.Path.{ap₂, subst}
use native.Mathlib.Decide.{dec_lt}
use titan_lob.Book.State.{Book}
use titan_lob.Protocol.Wire.{Bytes, cast_header}
use titan_lob.Protocol.Wire.Image.{bytes}
use titan_lob.Protocol.Wire.Extent.{Agree}
use titan_lob.Gateway.{Reading, read_body, read_message, handle_client}
use titan_lob.Gateway.Receive.{IsOrderly, Filled, recv_exact-Filled, recv_exact-GaveUp}
use titan_lob.Gateway.Dispatch.{
  Message, image, IsMessage, perform, cast_header-image, process_message-image,
}

get_or-slice : (f : Bytes) (i n j : ℕ) → j < n → get_or (slice f i n) j 0 ≡ f (i + j)
get_or-slice f i zero j h = absurd (omega arith)
get_or-slice f i (suc n) zero h = ap f (omega arith)
get_or-slice f i (suc n) (suc j) h = get_or-slice f (i + 1) n j (omega arith) ∙ ap f (omega arith)

-- Where a stream starts with the bytes `xs`, so does a buffer that got its first `n`.
prefix-Agree :
    (f : Bytes) (n : ℕ) (xs ys zs : List ℕ)
    → xs ++ ys ≡ slice f 0 n ++ zs
    → n ≤ length xs
    → Agree n f (bytes xs)
prefix-Agree f n xs ys zs h le j lt =
    let here : f (0 + j) ≡ f j = ap f (omega arith) in
    let size = length-slice f 0 n in
    sym here
    ∙ sym (get_or-slice f 0 n j lt)
    ∙ sym (get_or-append (slice f 0 n) zs 0 j (omega arith))
    ∙ ap (λ t. get_or t j 0) (sym h)
    ∙ get_or-append xs ys 0 j (omega arith)

tail_of : List ℕ → List ℕ
tail_of [] = []
tail_of (x ∷ xs) = xs

rest_of_stream : (xs ys us vs : List ℕ) → xs ++ ys ≡ us ++ vs → length xs ≡ length us → ys ≡ vs
unfolding tail_of
rest_of_stream [] ys [] vs h size = h
rest_of_stream [] ys (u ∷ us) vs h size = absurd (omega arith)
rest_of_stream (x ∷ xs) ys [] vs h size = absurd (omega arith)
rest_of_stream (x ∷ xs) ys (u ∷ us) vs h size =
    rest_of_stream xs ys us vs (ap tail_of h) (omega arith)

module _ {S : Type 0} (recv : S → ℕ → List ℕ × S) (pending : S → List ℕ)
    (orderly : IsOrderly recv pending) where
  -- A message has been read, and `later` is still to come.
  record ReadOne (m : Message) (later : List ℕ) (result : Option (Reading S)) : Type 0 where
    buffer : Bytes
    rest : S
    returned : result ≡ some (Reading.received buffer rest)
    agree : Agree (length (image m)) buffer (bytes (image m))
    left : pending rest ≡ later

  record Stopped (result : Option (Reading S)) : Type 0 where
    rest : S
    returned : result ≡ some (Reading.stopped rest)

  -- The whole message is in the buffer.
  all_in :
      (m : Message) (s : S) (f : Bytes) (later : List ℕ) (n : ℕ) (result : Option (Reading S))
      → n ≡ length (image m)
      → image m ++ later ≡ slice f 0 n ++ pending s
      → result ≡ some (Reading.received f s)
      → ReadOne m later result
  all_in m s f later n result size stream returned = record {
    buffer = f;
    rest = s;
    returned = returned;
    agree =
        subst (λ k. Agree k f (bytes (image m))) size
          (prefix-Agree f n (image m) later (pending s) stream (omega arith));
    left = sym (
        rest_of_stream (image m) later (slice f 0 n) (pending s) stream
          (sym size ∙ sym (length-slice f 0 n)));
  }

  -- The header, and the bytes that came behind it.
  joined :
      (s : S) (f : Bytes) (n : ℕ) (result : Option (Bool × Bytes × S))
      → (x : Filled recv pending s f 11 n result)
      → slice f 0 11 ++ pending s ≡ slice x.filled 0 (11 + n) ++ pending x.rest
  joined s f n result x =
      ap₂ ◌++◌ (slice_ext f x.filled 0 0 11 (λ j h. sym (x.outside (0 + j) (inl (omega arith)))))
        x.stream
      ∙ sym (append_assoc (slice x.filled 0 11) (slice x.filled 11 n) (pending x.rest))
      ∙ ap (λ t. t ++ pending x.rest) (sym (slice-append x.filled 0 11 n))

  read_body-ReadOne :
      (m : Message) (s : S) (f : Bytes) (later : List ℕ)
      → IsMessage m
      → image m ++ later ≡ slice f 0 11 ++ pending s
      → ReadOne m later (read_body recv s f)
  unfolding read_body
  read_body-ReadOne m s f later is stream =
      let sizes = cast_header-image m (bytes (image m)) is (λ j h. refl) in
      let read =
        cast_header-image m f is (prefix-Agree f 11 (image m) later (pending s) stream sizes.2) in
      let size : (cast_header f 0).length ≡ length (image m) = ap (λ h. h.length) read.0 ∙ read.1 in
      let small = sizes.2 in
      let large = sizes.3 in
      let sum : length (image m ++ later) ≡ length (slice f 0 11 ++ pending s) = ap length stream in
      let left_sum = length-append (image m) later in
      let right_sum = length-append (slice f 0 11) (pending s) in
      let got = length-slice f 0 11 in
      let remaining : ℕ = (cast_header f 0).length - 11 in
      elim (dec_lt 11 (length (image m))) [
        | yes more ↦
            let x =
              recv_exact-Filled recv pending orderly (suc remaining) s f 11 remaining 0
                (omega arith) (omega arith) (omega arith) in
            let returned = x.returned in
            let total : 11 + (remaining - 0) ≡ length (image m) = omega arith in
            all_in m x.rest x.filled later (11 + (remaining - 0)) _ total
              (stream ∙ joined s f (remaining - 0) _ x) (ground arith)
        | no done ↦ all_in m s f later 11 _ (omega arith) stream (ground arith)
      ]

  read_message-ReadOne :
      (m : Message) (s : S) (buffer : Bytes) (later : List ℕ)
      → IsMessage m
      → pending s ≡ image m ++ later
      → ReadOne m later (read_message recv s buffer)
  unfolding read_message
  read_message-ReadOne m s buffer later is stream =
      let sizes = cast_header-image m (bytes (image m)) is (λ j h. refl) in
      let small = sizes.2 in
      let sum : length (pending s) ≡ length (image m ++ later) = ap length stream in
      let total = length-append (image m) later in
      let x =
        recv_exact-Filled recv pending orderly 12 s buffer 0 11 0 (omega arith) (omega arith)
          (omega arith) in
      let r = read_body-ReadOne m x.rest x.filled later is (sym stream ∙ x.stream) in
      let first = x.returned in
      let second = r.returned in
      record {
        buffer = r.buffer;
        rest = r.rest;
        returned = rw (read_message, first) second;
        agree = r.agree;
        left = r.left;
      }

  -- Nothing is left of the stream.
  read_message-end :
      (s : S) (buffer : Bytes) → pending s ≡ [] → Stopped (read_message recv s buffer)
  unfolding read_message
  read_message-end s buffer ended =
      let none_left : length (pending s) ≡ 0 = ap length ended in
      let g =
        recv_exact-GaveUp recv pending orderly 12 s buffer 0 11 0 (omega arith) (omega arith) in
      let r = g.returned in record { rest = g.rest; returned = rw (read_message, r) refl }

-- the bytes of a sequence of messages
unfoldable pub images : List Message → List ℕ
images [] = []
images (m ∷ ms) = image m ++ images ms

pub data AllMessages : List Message → Type 0 where
  no_more : AllMessages []
  one_more :
      {m : Message} → {ms : List Message} → IsMessage m → AllMessages ms → AllMessages (m ∷ ms)

-- the calls for the messages, one after the other
unfoldable pub perform_all : (fuel : ℕ) → List Message → Book → Option Book
perform_all fuel [] b = some b
perform_all fuel (m ∷ ms) b = elim (perform fuel m b) [
  | none ↦ none
  | some b' ↦ perform_all fuel ms b'
]

abbrev pub book_at_end : {S : Type 0} → Option (S × Book) → Option Book
book_at_end none = none
book_at_end (some (s, b)) = some b

module _ {S : Type 0} (recv : S → ℕ → List ℕ × S) (pending : S → List ℕ)
    (orderly : IsOrderly recv pending) (running : ℕ → Bool) (on : (r : ℕ) → running r ≡ true) where
  -- A client sends well-formed messages and closes: however its bytes are cut into pieces, the
  -- gateway's loop reads the messages one by one and makes one call of the book for each, in order and
  -- no other: `add_order` for ADD_ORDER and ADD_AON, `add_order` with the visible quantity alone for
  -- ADD_ICEBERG, `cancel_order` for CANCEL_ORDER and for MODIFY_ORDER, whose price and quantity it
  -- does not read, `match_order` for EXECUTE, none for HEARTBEAT. The loop takes as many rounds as
  -- there are messages and one more; `none` on either side is a call that had too little fuel.
  pub handle_client_lem :
      (match_fuel fuel : ℕ) (ms : List Message) (s : S) (buffer : Bytes) (b : Book)
      → AllMessages ms
      → pending s ≡ images ms
      → length ms < fuel
      → book_at_end (handle_client recv fuel match_fuel running s buffer b)
        ≡ perform_all match_fuel ms b
  unfolding handle_client images perform_all
  handle_client_lem match_fuel zero ms s buffer b all stream lt = absurd (omega arith)
  handle_client_lem match_fuel (suc fuel) [] s buffer b all stream lt =
      let goes = on fuel in
      let e = read_message-end recv pending orderly s buffer stream in
      let stops = e.returned in rw (handle_client, goes, stops) refl
  handle_client_lem match_fuel (suc fuel) (m ∷ ms) s buffer b (one_more is all) stream lt =
      let goes = on fuel in
      let r = read_message-ReadOne recv pending orderly m s buffer (images ms) is stream in
      let reads = r.returned in
      let does = process_message-image match_fuel m r.buffer b is r.agree in
      elim (Option-cases (perform match_fuel m b)) [
        | inl short ↦ rw (handle_client, goes, perform_all, reads, does, short) refl
        | inr (b', e) ↦
            rw (handle_client, goes, perform_all, reads, does, e)
              (handle_client_lem match_fuel fuel ms r.rest r.buffer b' all r.left (omega arith))
      ]
