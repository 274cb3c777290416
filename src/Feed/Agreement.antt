-- ===== src/Feed/Agreement.antt =====
-- The three ways into the book, the gateway of gateway.h and the live feed and the replay of main.cpp, on
-- the messages that all of them serve as the protocol's description has it.
use titan_lob.Prelude.{
  ℕ, ◌+◌, ◌≡◌, ◌<◌, refl, ap, ◌∙◌, Bool, true, Option, none, some, Option-cases, inl, inr, List, [],
  ◌∷◌, map, length, ◌==◌,
}
use titan_lob.Protocol.Side
use titan_lob.Protocol.Messages.{MsgHeader, MsgAddOrder, MsgCancel}
use titan_lob.Protocol.Wire.{Bytes}
use titan_lob.Protocol.Wire.Image.{bytes}
use titan_lob.Protocol.Wire.Extent.{Agree}
use titan_lob.Book.State.{Book}
use titan_lob.Book.Api.{add_order, cancel_order, add_order_no_lock, cancel_order_no_lock}
use titan_lob.Gateway.{handle_client, to_uint32}
use titan_lob.Gateway.Receive.{IsOrderly}
use titan_lob.Gateway.Dispatch.{Message, plain, cancel, heartbeat, perform}
use titan_lob.Gateway.Session.{images, AllMessages, perform_all, book_at_end, handle_client_lem}
use titan_lob.Feed.{from_offset, replay, LiveFeed, Received, live_loop}
use titan_lob.Feed.Dispatch.{perform_live, perform_replay}
use titan_lob.Feed.Replay.{replay_all, counted, replay_lem}
use titan_lob.Feed.Parse.{live_all}
use titan_lob.Feed.Pieces.{arrived, outcome, caught_up, live_loop-images}

-- What a client may ask of all three: a limit order, a cancellation, or nothing.
pub data Request : Type 0 where
  adds : MsgAddOrder → Request
  cancels : MsgCancel → Request
  beats : MsgHeader → Request

abbrev pub message_of : Request → Message
message_of (adds m) = plain m
message_of (cancels m) = cancel m
message_of (beats h) = heartbeat h

-- The book that a request makes.
abbrev pub asked : (fuel : ℕ) → Request → Book → Option Book
asked fuel (adds m) b =
    add_order fuel b m.order_id (m.side == Side.buy) m.price m.quantity (to_uint32 m.user_id)
asked fuel (cancels m) b = some (cancel_order b m.order_id)
asked fuel (beats h) b = some b

unfoldable pub asked_all : (fuel : ℕ) → List Request → Book → Option Book
asked_all fuel [] b = some b
asked_all fuel (r ∷ rs) b = elim (asked fuel r b) [ none ↦ none | some b' ↦ asked_all fuel rs b' ]

serves :
    (fuel : ℕ) (r : Request) (b : Book)
    → (perform fuel (message_of r) b ≡ asked fuel r b)
      × (perform_live fuel (message_of r) b ≡ asked fuel r b)
      × (perform_replay fuel (message_of r) b ≡ asked fuel r b)
unfolding titan_lob.Protocol.side_to_bool perform perform_live perform_replay add_order cancel_order
    add_order_no_lock cancel_order_no_lock
serves fuel (adds m) b = (refl, refl, refl)
serves fuel (cancels m) b = (refl, refl, refl)
serves fuel (beats h) b = (refl, refl, refl)

serves_all :
    (fuel : ℕ) (rs : List Request) (b : Book)
    → (perform_all fuel (map message_of rs) b ≡ asked_all fuel rs b)
      × (live_all fuel (map message_of rs) b ≡ asked_all fuel rs b)
      × (replay_all fuel (map message_of rs) b ≡ asked_all fuel rs b)
unfolding perform_all live_all replay_all asked_all
serves_all fuel [] b = (refl, refl, refl)
serves_all fuel (r ∷ rs) b =
    let s = serves fuel r b in
    elim (Option-cases (asked fuel r b)) [
      | inl stuck ↦ (
        rw (perform_all, s.0, asked_all, stuck) refl,
        rw (live_all, s.1, asked_all, stuck) refl,
        rw (replay_all, s.2, asked_all, stuck) refl,
      )
      | inr (b', e) ↦
          let rest = serves_all fuel rs b' in
          (
            rw (perform_all, s.0, asked_all, e) rest.0,
            rw (live_all, s.1, asked_all, e) rest.1,
            rw (replay_all, s.2, asked_all, e) rest.2,
          )
    ]

-- A client sends limit orders, cancellations and heartbeats. Sent to the gateway, sent to the live feed
-- from an empty buffer, or recorded and replayed from the offset, they make the same book from the same
-- book: the one that has each order added or cancelled as its fields say, one after the other. The streams
-- may be cut into any pieces, both loops count every message, and the live feed has no byte left. `none` is
-- a call of the book that had too little fuel; the loops have a round more than there are messages.
pub feeds_concur :
    {S : Type 0} (recv : S → ℕ → List ℕ × S) (pending : S → List ℕ) (running : ℕ → Bool)
    (match_fuel fuel : ℕ) (asks : List Request) (b : Book) (s : S) (gateway_buffer : Bytes)
    (pieces : List Received) (live : LiveFeed) (file : Bytes) (size offset : ℕ)
    → IsOrderly recv pending
    → ((r : ℕ) → running r ≡ true)
    → AllMessages (map message_of asks)
    → length (map message_of asks) < fuel
    → pending s ≡ images (map message_of asks)
    → arrived pieces ≡ images (map message_of asks)
    → live.buffer_used ≡ 0
    → size ≡ offset + length (images (map message_of asks))
    → Agree
        (length (images (map message_of asks)))
        (from_offset file offset)
        (bytes (images (map message_of asks)))
    → (book_at_end (handle_client recv fuel match_fuel running s gateway_buffer b)
        ≡ asked_all match_fuel asks b)
      × (outcome (live_loop match_fuel pieces (record live { book = b }))
          ≡ caught_up (live.msg_count + length (map message_of asks)) (asked_all match_fuel asks b))
      × (replay fuel match_fuel running file size offset 0 b
          ≡ counted (0 + length (map message_of asks)) (asked_all match_fuel asks b))
feeds_concur recv pending running match_fuel fuel asks b s gateway_buffer pieces live file size
      offset orderly on all more sent came fresh whole holds =
    let ms : List Message = map message_of asks in
    let same = serves_all match_fuel asks b in
    (
      handle_client_lem recv pending orderly running on match_fuel fuel ms s gateway_buffer b all
            sent more
          ∙ same.0,
      live_loop-images match_fuel pieces (record live { book = b }) ms all came fresh
          ∙ ap (caught_up (live.msg_count + length ms)) same.1,
      replay_lem running on match_fuel fuel ms file size offset 0 b all whole holds more
          ∙ ap (counted (0 + length ms)) same.2,
    )
