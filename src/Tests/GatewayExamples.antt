-- ===== src/Tests/GatewayExamples.antt =====
-- The gateway at concrete inputs.
use titan_lob.Prelude.{
  ℕ, ◌+◌, ◌-◌, ◌≡◌, refl, sym, true, List, [], ◌∷◌, arith, pos, take, drop, take-append-drop,
  length-take,
}
use Prim.Native.Nat.{min}
use titan_lob.Protocol.Messages.{MsgAddOrder, MsgCancel}
use titan_lob.Gateway.{recv_exact, handle_client}
use titan_lob.Gateway.Receive.{IsOrderly, Filled, recv_exact-Filled}
use titan_lob.Gateway.Dispatch.{Message, IsMessage}
use titan_lob.Gateway.Session.{images, AllMessages, perform_all, book_at_end, handle_client_lem}
use titan_lob.Tests.Starts.{start}

-- A socket that delivers at most three bytes at a time.
abbrev pub recv_three : List ℕ → ℕ → List ℕ × List ℕ
recv_three s n = (take (min n 3) s, drop (min n 3) s)

pub recv_three-IsOrderly : IsOrderly recv_three (λ s. s)
recv_three-IsOrderly = record {
  delivers = λ s n h. (
    sym (take-append-drop (min n 3) s),
    omega (arith, length-take (min n 3) s),
    λ some_left. omega (arith, length-take (min n 3) s),
  );
}

recv_exact_example :
    Filled recv_three
      (λ s. s)
      (1 ∷ 2 ∷ 3 ∷ 4 ∷ 5 ∷ [])
      (λ _. 0)
      (2 + 0)
      (4 - 0)
      (recv_exact recv_three 5 (1 ∷ 2 ∷ 3 ∷ 4 ∷ 5 ∷ []) (λ _. 0) 2 4 0)
recv_exact_example =
    recv_exact-Filled recv_three (λ s. s) recv_three-IsOrderly 5 (1 ∷ 2 ∷ 3 ∷ 4 ∷ 5 ∷ []) (λ _. 0) 2
      4 0 (omega arith) (omega arith) (omega arith)

abbrev pub sell_order : MsgAddOrder
sell_order = record {
  header = record { type = 65; length = 44; timestamp = 1000 };
  order_id = 7;
  user_id = 9;
  side = 83;
  price = pos 500;
  quantity = pos 300;
}

abbrev pub sell : Message
sell = Message.plain sell_order

pub sell-IsMessage : IsMessage sell
sell-IsMessage = (
  record {
    header_in = omega arith;
    order_id_in = omega arith;
    user_id_in = omega arith;
    side_in = omega arith;
    price_in = omega arith;
    quantity_in = omega arith;
  },
  refl,
  refl,
)

abbrev pub taking_back : MsgCancel
taking_back = record { header = record { type = 88; length = 19; timestamp = 1001 }; order_id = 7 }

abbrev pub take_back : Message
take_back = Message.cancel taking_back

pub take_back-IsMessage : IsMessage take_back
take_back-IsMessage = (record { header_in = omega arith; order_id_in = omega arith }, refl, refl)

handle_client_example :
    book_at_end
      (handle_client recv_three 3 20 (λ _. true) (images (sell ∷ take_back ∷ [])) (λ _. 0) start)
    ≡ perform_all 20 (sell ∷ take_back ∷ []) start
handle_client_example =
    handle_client_lem recv_three (λ s. s) recv_three-IsOrderly (λ _. true) (λ r. refl) 20 3
      (sell ∷ take_back ∷ []) (images (sell ∷ take_back ∷ [])) (λ _. 0) start
      (AllMessages.one_more sell-IsMessage
        (AllMessages.one_more take_back-IsMessage AllMessages.no_more))
      refl (omega arith)
