-- ===== src/Protocol/Side.antt =====
-- `enum class Side : uint8_t` of protocol.h.
use titan_lob.Prelude.{ℕ}

abbrev pub buy : ℕ
buy = b'B'

abbrev pub sell : ℕ
sell = b'S'
