-- ===== src/Tests/FeedExamples.antt =====
-- The dispatch, the replay and the live feed of main.cpp at concrete inputs.
use titan_lob.Prelude.{
  ℕ, ◌+◌, ◌-◌, ◌≤◌, ◌<◌, ◌⊎◌, some, ◌≡◌, ap, refl, true, [], ◌∷◌, arith, length, List, take, drop,
  map,
}
use titan_lob.Protocol.Wire.Image.{bytes}
use titan_lob.Gateway.Dispatch.{image}
use titan_lob.Gateway.Session.{images, AllMessages}
use titan_lob.Feed.{
  replay, from_offset, LiveFeed, live_buffer_size, receive_bytes, Received, some_bytes, not_yet,
  ended, live_loop,
}
use titan_lob.Feed.Parse.{live_all}
use titan_lob.Feed.Pieces.{outcome, caught_up, live_loop-images}
use titan_lob.Feed.Live.{Stalls, filled, receive_bytes-Bounded}
use titan_lob.Feed.Replay.{counted, replay_all, replay_lem}
use titan_lob.Tests.Starts.{start}
use titan_lob.Feed.Agreement.{Request, adds, cancels, message_of, asked_all, feeds_concur}
use titan_lob.Gateway.{handle_client}
use titan_lob.Gateway.Session.{book_at_end}
use titan_lob.Tests.GatewayExamples.{
  sell_order, taking_back, recv_three, recv_three-IsOrderly, sell, sell-IsMessage, take_back,
  take_back-IsMessage,
}

at_start :
    (j : ℕ)
    → from_offset (bytes (images (sell ∷ take_back ∷ []))) 0 j
      ≡ bytes (images (sell ∷ take_back ∷ [])) j
at_start j =
    let zero_first : 0 + j ≡ j = omega arith in
    ap (bytes (images (sell ∷ take_back ∷ []))) zero_first

replay_example :
    replay 3 20
      (λ _. true)
      (bytes (images (sell ∷ take_back ∷ [])))
      (0 + length (images (sell ∷ take_back ∷ [])))
      0
      0
      start
    ≡ counted (0 + length (sell ∷ take_back ∷ [])) (replay_all 20 (sell ∷ take_back ∷ []) start)
replay_example =
    replay_lem (λ _. true) (λ r. refl) 20 3 (sell ∷ take_back ∷ [])
      (bytes (images (sell ∷ take_back ∷ []))) (0 + length (images (sell ∷ take_back ∷ []))) 0 0
      start
      (AllMessages.one_more sell-IsMessage
        (AllMessages.one_more take_back-IsMessage AllMessages.no_more))
      refl (λ j h. at_start j) (omega arith)

-- the live feed before its first message
abbrev live : LiveFeed
live = record { book = start; buffer = λ _. 0; buffer_used = 0; msg_count = 0 }

receive_bytes_example :
    Stalls 20 (filled live (image sell)) (live.buffer_used + length (image sell)) live.book
    ⊎ ((s' : LiveFeed) × (receive_bytes 20 live (image sell) ≡ some s')
        × (live.buffer_used + length (image sell) ≤ live_buffer_size)
        × (s'.buffer_used < 256)
        × (3840 < live_buffer_size - s'.buffer_used))
unfolding image titan_lob.Protocol.Wire.Image.image_add_order
receive_bytes_example = receive_bytes-Bounded 20 live (image sell) (omega arith) (omega arith)

-- a message in two pieces
abbrev pieces : List Received
pieces = some_bytes (take 5 (image sell)) ∷ not_yet ∷ some_bytes (drop 5 (image sell)) ∷ ended ∷ []

live_loop-images_example :
    outcome (live_loop 20 pieces live)
    ≡ caught_up (live.msg_count + length (sell ∷ [])) (live_all 20 (sell ∷ []) live.book)
unfolding image images titan_lob.Protocol.Wire.Image.image_add_order
live_loop-images_example =
    live_loop-images 20 pieces live (sell ∷ [])
      (AllMessages.one_more sell-IsMessage AllMessages.no_more) refl refl

abbrev asks : List Request
asks = adds sell_order ∷ cancels taking_back ∷ []

abbrev sent : List ℕ
sent = images (sell ∷ take_back ∷ [])

feeds_concur_example :
    (book_at_end (handle_client recv_three 3 20 (λ _. true) sent (λ _. 0) start)
      ≡ asked_all 20 asks start)
    × (outcome (
          live_loop 20
            (some_bytes (take 50 sent) ∷ not_yet ∷ some_bytes (drop 50 sent) ∷ ended ∷ [])
            (record live { book = start }))
        ≡ caught_up (live.msg_count + length (map message_of asks)) (asked_all 20 asks start))
    × (replay 3 20 (λ _. true) (bytes sent) (0 + length sent) 0 0 start
        ≡ counted (0 + length (map message_of asks)) (asked_all 20 asks start))
unfolding image images titan_lob.Protocol.Wire.Image.image_add_order
    titan_lob.Protocol.Wire.Image.image_cancel
feeds_concur_example =
    feeds_concur recv_three (λ s. s) (λ _. true) 20 3 asks start sent (λ _. 0)
      (some_bytes (take 50 sent) ∷ not_yet ∷ some_bytes (drop 50 sent) ∷ ended ∷ []) live
      (bytes sent) (0 + length sent) 0 recv_three-IsOrderly (λ r. refl)
      (AllMessages.one_more sell-IsMessage
        (AllMessages.one_more take_back-IsMessage AllMessages.no_more))
      (omega arith) refl refl refl refl (λ j h. at_start j)
