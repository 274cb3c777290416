-- ===== src/Protocol/MsgType.antt =====
-- `enum class MsgType : uint8_t` of protocol.h.
use titan_lob.Prelude.{ℕ}

abbrev pub add_order : ℕ
add_order = b'A'

abbrev pub add_iceberg : ℕ
add_iceberg = b'I'

abbrev pub add_aon : ℕ
add_aon = b'N'

abbrev pub cancel_order : ℕ
cancel_order = b'X'

abbrev pub modify_order : ℕ
modify_order = b'M'

abbrev pub execute : ℕ
execute = b'E'

abbrev pub add_stop : ℕ
add_stop = b'S'

abbrev pub add_stop_market : ℕ
add_stop_market = b'T'

abbrev pub heartbeat : ℕ
heartbeat = b'H'

abbrev pub reset : ℕ
reset = b'R'

abbrev pub snapshot_req : ℕ
snapshot_req = b'Q'
