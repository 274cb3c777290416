-- ===== src/Protocol/Tif.antt =====
-- `enum class TIF : uint8_t` of protocol.h.
use titan_lob.Prelude.{ℕ}

abbrev pub gtc : ℕ
gtc = 0

abbrev pub ioc : ℕ
ioc = 1

abbrev pub fok : ℕ
fok = 2

abbrev pub aon : ℕ
aon = 3
