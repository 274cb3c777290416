-- ===== src/Protocol/OutMsgType.antt =====
-- `enum class OutMsgType : uint8_t` of protocol.h.
use titan_lob.Prelude.{ℕ}

abbrev pub trade : ℕ
trade = b'T'

abbrev pub order_accepted : ℕ
order_accepted = b'A'

abbrev pub order_rejected : ℕ
order_rejected = b'R'

abbrev pub order_cancelled : ℕ
order_cancelled = b'C'

abbrev pub book_update : ℕ
book_update = b'U'
