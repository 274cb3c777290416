-- ===== src/Protocol/Output.antt =====
-- output_msg.h: what the book emits. The union is a sum: the tag `type` of the source tells the
-- member that was written.
use titan_lob.Prelude.{ℕ, ℤ}
use titan_lob.Protocol.OutMsgType

pub data Payload : Type 0 where
  trade : (buy_order_id sell_order_id : ℕ) (price quantity : ℤ) → Payload
  accepted : (order_id side : ℕ) (price quantity : ℤ) → Payload
  cancelled : (order_id : ℕ) (cancelled_qty : ℤ) → Payload

pub record OutputMsg : Type 0 where
  pub type : ℕ
  pub timestamp : ℕ
  pub payload : Payload

abbrev pub make_trade : (ts buy_id sell_id : ℕ) (price qty : ℤ) → OutputMsg
make_trade ts buy_id sell_id price qty = record {
  type = OutMsgType.trade;
  timestamp = ts;
  payload = trade buy_id sell_id price qty;
}

abbrev pub make_accepted : (ts order_id side : ℕ) (price qty : ℤ) → OutputMsg
make_accepted ts order_id side price qty = record {
  type = OutMsgType.order_accepted;
  timestamp = ts;
  payload = accepted order_id side price qty;
}

abbrev pub make_cancelled : (ts order_id : ℕ) (qty : ℤ) → OutputMsg
make_cancelled ts order_id qty = record {
  type = OutMsgType.order_cancelled;
  timestamp = ts;
  payload = cancelled order_id qty;
}
