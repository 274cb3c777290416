-- ===== src/Feed/Parse.antt =====
-- The inner loop of the live feed of main.cpp, on a buffer that begins with well-formed messages.
use titan_lob.Prelude.{
  ℕ, zero, suc, ◌+◌, ◌≡◌, ◌≤◌, ◌<◌, ◌⊎◌, inl, inr, refl, sym, ap, ◌∙◌, true, false, ◌||◌, Option,
  none, some, Option-cases, Bool-cases, List, [], ◌∷◌, ◌++◌, length, length-append, drop, get_or,
  get_or-append, ltb, arith,
}
use titan_lob.Protocol.Messages.{header_size}
use titan_lob.Protocol.Wire.{Bytes, cast_header}
use titan_lob.Protocol.Wire.Image.{bytes}
use titan_lob.Protocol.Wire.Extent.{Agree}
use titan_lob.Book.State.{Book}
use titan_lob.Gateway.Dispatch.{Message, image, IsMessage, cast_header-image}
use titan_lob.Gateway.Session.{images, AllMessages, one_more}
use titan_lob.Feed.{from_offset, parse_buffer}
use titan_lob.Feed.Dispatch.{perform_live, dispatch-image}

-- the calls for the messages, one after the other
unfoldable pub live_all : (fuel : ℕ) → List Message → Book → Option Book
live_all fuel [] b = some b
live_all fuel (m ∷ ms) b = elim (perform_live fuel m b) [
  | none ↦ none
  | some b' ↦ live_all fuel ms b'
]

drop-append : (n : ℕ) (x y : List ℕ) → n ≤ length x → drop n (x ++ y) ≡ drop n x ++ y
drop-append zero x y h = refl
drop-append (suc n) [] y h = absurd (omega arith)
drop-append (suc n) (a ∷ x) y h = drop-append n x y (omega arith)

drop-append_all : (x y : List ℕ) → drop (length x) (x ++ y) ≡ y
drop-append_all [] y = refl
drop-append_all (a ∷ x) y = drop-append_all x y

get_or-drop : (n : ℕ) (x : List ℕ) (j : ℕ) → get_or (drop n x) j 0 ≡ get_or x (n + j) 0
get_or-drop zero x j = ap (λ k. get_or x k 0) (omega arith)
get_or-drop (suc n) [] j = refl
get_or-drop (suc n) (a ∷ x) j =
    let next : suc n + j ≡ suc (n + j) = omega arith in
    get_or-drop n x j ∙ sym (ap (λ k. get_or (a ∷ x) k 0) next)

length-drop : (n : ℕ) (x : List ℕ) → n ≤ length x → length (drop n x) + n ≡ length x
length-drop zero x h = omega arith
length-drop (suc n) [] h = absurd (omega arith)
length-drop (suc n) (a ∷ x) h = let r = length-drop n x (omega arith) in omega (arith, r)

-- Two ways to cut one stream agree on what both begin with.
start-Agree :
    (n : ℕ) (f : Bytes) (x y a z : List ℕ)
    → Agree (length x) f (bytes x)
    → x ++ y ≡ a ++ z
    → n ≤ length x
    → n ≤ length a
    → Agree n f (bytes a)
start-Agree n f x y a z agree same in_x in_a j lt =
    agree j (omega arith)
    ∙ sym (get_or-append x y 0 j (omega arith))
    ∙ ap (λ l. get_or l j 0) same
    ∙ get_or-append a z 0 j (omega arith)

-- A start of the stream without a whole message in it.
abbrev pub Partial : List ℕ → List Message → Type 0
Partial t [] = Unit
Partial t (m ∷ ms) = length t < length (image m)

module _ (match_fuel : ℕ) (f : Bytes) (used : ℕ) where
  -- Where the loop stops: `t` is left of the bytes in the buffer, and `left` of the messages.
  pub record Parsed (r : Option (Book × ℕ × ℕ)) (ms : List Message) (y : List ℕ) (b : Book)
      (count : ℕ) : Type 0 where
    pub book : Book
    pub offset : ℕ
    pub msg_count : ℕ
    pub left : List Message
    pub t : List ℕ
    pub stopped : r ≡ some (book, offset, msg_count)
    pub all : AllMessages left
    pub same : live_all match_fuel ms b ≡ live_all match_fuel left book
    pub counted : msg_count + length left ≡ count + length ms
    pub stream : t ++ y ≡ images left
    pub agree : Agree (length t) (from_offset f offset) (bytes t)
    pub rest : used ≡ offset + length t
    pub part : Partial t left

  -- The header of the next message, once its bytes are there.
  header_here :
      (m : Message) (ms : List Message) (offset : ℕ) (x y : List ℕ)
      → IsMessage m
      → Agree (length x) (from_offset f offset) (bytes x)
      → x ++ y ≡ image m ++ images ms
      → 11 ≤ length x
      → ((cast_header (from_offset f offset) 0).length ≡ length (image m))
        × (11 ≤ length (image m))
        × (length (image m) ≤ 52)
  header_here m ms offset x y is agree same many =
      let sizes = cast_header-image m (bytes (image m)) is (λ j h. refl) in
      let large = sizes.2 in
      let read = cast_header-image m (from_offset f offset) is (
        start-Agree 11 (from_offset f offset) x y (image m) (images ms) agree same many
          (omega (arith, large))) in
      (ap (λ h. h.length) read.0 ∙ read.1, read.2, read.3)

  -- What is behind the next message.
  behind :
      (m : Message) (ms : List Message) (offset : ℕ) (x y : List ℕ)
      → Agree (length x) (from_offset f offset) (bytes x)
      → x ++ y ≡ image m ++ images ms
      → length (image m) ≤ length x
      → (drop (length (image m)) x ++ y ≡ images ms)
        × Agree
            (length (drop (length (image m)) x))
            (from_offset f (offset + length (image m)))
            (bytes (drop (length (image m)) x))
        × (length (drop (length (image m)) x) + length (image m) ≡ length x)
  behind m ms offset x y agree same whole =
      let n : ℕ = length (image m) in
      let dropped = length-drop n x whole in
      (
        sym (drop-append n x y whole) ∙ ap (drop n) same ∙ drop-append_all (image m) (images ms),
        λ j lt.
            let place : offset + n + j ≡ offset + (n + j) = omega arith in
            ap f place ∙ agree (n + j) (omega (arith, dropped, lt)) ∙ sym (get_or-drop n x j),
        dropped,
      )

  -- Too few bytes for the next message: the loop stops.
  parse_buffer-short :
      (fuel offset count : ℕ) (b : Book) (m : Message) (ms : List Message) (x y : List ℕ)
      → IsMessage m
      → Agree (length x) (from_offset f offset) (bytes x)
      → x ++ y ≡ image m ++ images ms
      → used ≡ offset + length x
      → length x < length (image m)
      → parse_buffer (suc fuel) match_fuel f used offset count b ≡ some (b, offset, count)
  unfolding parse_buffer
  parse_buffer-short fuel offset count b m ms x y is agree same size short =
      elim (Bool-cases (ltb (length x) 11)) [
        | inl few ↦
            let ends : ltb used (offset + header_size) ≡ true = ground arith in
            rw (parse_buffer, ends) refl
        | inr more ↦
            let (len, large, small) = header_here m ms offset x y is agree same (ground arith) in
            let on : ltb used (offset + header_size) ≡ false = ground arith in
            let proper : (ltb (length (image m)) header_size || ltb 256 (length (image m)))
                ≡ false =
              ground arith in
            let part : ltb used (offset + length (image m)) ≡ true = ground arith in
            rw (parse_buffer, on, len, proper, len, part) refl
      ]

  -- A whole message: the loop does what it asks and goes on behind it.
  parse_buffer-whole :
      (fuel offset count : ℕ) (b : Book) (m : Message) (ms : List Message) (x y : List ℕ)
      → IsMessage m
      → Agree (length x) (from_offset f offset) (bytes x)
      → x ++ y ≡ image m ++ images ms
      → used ≡ offset + length x
      → length (image m) ≤ length x
      → parse_buffer (suc fuel) match_fuel f used offset count b
        ≡ (elim (perform_live match_fuel m b) [
          | none ↦ none
          | some b' ↦ parse_buffer fuel match_fuel f used (offset + length (image m)) (suc count) b'
        ])
  unfolding parse_buffer
  parse_buffer-whole fuel offset count b m ms x y is agree same size whole =
      let n : ℕ = length (image m) in
      let sizes = cast_header-image m (bytes (image m)) is (λ j h. refl) in
      let least = sizes.2 in
      let (len, large, small) = header_here m ms offset x y is agree same (omega (arith, least)) in
      let on : ltb used (offset + header_size) ≡ false = ground arith in
      let proper : (ltb n header_size || ltb 256 n) ≡ false = ground arith in
      let all_there : ltb used (offset + n) ≡ false = ground arith in
      let here =
        start-Agree n (from_offset f offset) x y (image m) (images ms) agree same whole
          (omega arith) in
      let does = (dispatch-image match_fuel m (from_offset f offset) b is here).0 in
      elim (Option-cases (perform_live match_fuel m b)) [
        | inl short ↦ rw (parse_buffer, on, len, proper, len, all_there, len, does, short) refl
        | inr (b', e) ↦
            rw (parse_buffer, on, len, proper, len, all_there, len, does, e)
              (ap (λ k. parse_buffer fuel match_fuel f used (offset + k) (suc count) b') len)
      ]

  -- What the loop gives from there is what it gives from here.
  onward :
      (r r' : Option (Book × ℕ × ℕ)) (m : Message) (ms : List Message) (y : List ℕ) (b b' : Book)
      (count : ℕ)
      → r ≡ r'
      → live_all match_fuel (m ∷ ms) b ≡ live_all match_fuel ms b'
      → Parsed r' ms y b' (suc count)
      → Parsed r (m ∷ ms) y b count
  onward r r' m ms y b b' count step does p =
      let c = p.counted in
      record {
        book = p.book;
        offset = p.offset;
        msg_count = p.msg_count;
        left = p.left;
        t = p.t;
        stopped = step ∙ p.stopped;
        all = p.all;
        same = does ∙ p.same;
        counted = omega (arith, c);
        stream = p.stream;
        agree = p.agree;
        rest = p.rest;
        part = p.part;
      }

  -- The loop stops where `t` is left, at once.
  at_once :
      (r : Option (Book × ℕ × ℕ)) (ms : List Message) (x y : List ℕ) (b : Book) (offset count : ℕ)
      → r ≡ some (b, offset, count)
      → AllMessages ms
      → x ++ y ≡ images ms
      → Agree (length x) (from_offset f offset) (bytes x)
      → used ≡ offset + length x
      → Partial x ms
      → Parsed r ms y b count
  at_once r ms x y b offset count stopped all same agree size part = record {
    book = b;
    offset = offset;
    msg_count = count;
    left = ms;
    t = x;
    stopped = stopped;
    all = all;
    same = refl;
    counted = refl;
    stream = same;
    agree = agree;
    rest = size;
    part = part;
  }

  -- Either a call of the book does not return, or the loop has done what the whole messages ask.
  pub parse_buffer-Parsed :
      (fuel offset count : ℕ) (b : Book) (ms : List Message) (x y : List ℕ)
      → AllMessages ms
      → x ++ y ≡ images ms
      → Agree (length x) (from_offset f offset) (bytes x)
      → used ≡ offset + length x
      → length x < fuel
      → ((live_all match_fuel ms b ≡ none)
          × (parse_buffer fuel match_fuel f used offset count b ≡ none))
        ⊎ Parsed (parse_buffer fuel match_fuel f used offset count b) ms y b count
  unfolding parse_buffer images live_all
  parse_buffer-Parsed zero offset count b ms x y all same agree size enough = absurd (omega arith)
  parse_buffer-Parsed (suc fuel) offset count b [] x y all same agree size enough =
      let sum = length-append x y in
      let none_left : length (x ++ y) ≡ 0 = ap length same in
      let ends : ltb used (offset + header_size) ≡ true = ground arith in
      inr (at_once _ [] x y b offset count (rw (parse_buffer, ends) refl) all same agree size tt)
  parse_buffer-Parsed (suc fuel) offset count b (m ∷ ms) x y (one_more is all) same agree size
        enough =
      elim (Bool-cases (ltb (length x) (length (image m)))) [
        | inl short ↦
            let part : length x < length (image m) = ground arith in
            inr (
              at_once _ (m ∷ ms) x y b offset count
                (parse_buffer-short fuel offset count b m ms x y is agree same size part)
                (one_more is all) same agree size part)
        | inr whole ↦
            let (left, there, size') = behind m ms offset x y agree same (ground arith) in
            let sizes = cast_header-image m (bytes (image m)) is (λ j h. refl) in
            let least = sizes.2 in
            let step =
              parse_buffer-whole fuel offset count b m ms x y is agree same size (ground arith) in
            elim (Option-cases (perform_live match_fuel m b)) [
              | inl stuck ↦ inl (rw (live_all, stuck) refl, rw stuck at step)
              | inr (b', e) ↦
                  let step' : parse_buffer (suc fuel) match_fuel f used offset count b
                      ≡ parse_buffer fuel match_fuel f used (offset + length (image m)) (suc count)
                          b' =
                    rw e at step in
                  let does : live_all match_fuel (m ∷ ms) b ≡ live_all match_fuel ms b' =
                    rw (live_all, e) refl in
                  elim (parse_buffer-Parsed fuel (offset + length (image m)) (suc count) b' ms
                    (drop (length (image m)) x) y all left there (omega (arith, size'))
                    (omega (arith, size', least))) [
                      | inl (stuck, too) ↦ inl (does ∙ stuck, step' ∙ too)
                      | inr r ↦ inr (onward _ _ m ms y b b' count step' does r)
                    ]
            ]
      ]
