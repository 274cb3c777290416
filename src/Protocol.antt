-- ===== src/Protocol.antt =====
-- protocol.h and output_msg.h: the messages that the engine reads and those that it emits. An enum
-- over `uint8_t` is a byte, since any byte can stand in a message; the names of its values are
-- constants. Integers are the values of the source's types: a `uint64_t` is below 2^64, and an
-- `int64_t` is a signed integer.
pub mod MsgType
pub mod Side
pub mod Tif
pub mod OutMsgType
pub mod Messages
pub mod Output
pub mod Wire
use titan_lob.Prelude.{ℕ, Bool, ◌==◌, if◌then◌else◌}

unfoldable pub side_to_bool : ℕ → Bool
side_to_bool s = s == Side.buy

pub bool_to_side : Bool → ℕ
bool_to_side is_buy = if is_buy then Side.buy else Side.sell
