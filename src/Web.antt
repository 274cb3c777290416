-- ===== src/Web.antt =====
-- titan_ws_server.h: the websocket server that shows the book in a browser.
pub mod Frame
pub mod Base64
pub mod Sha1
pub mod Json
pub mod Server
use titan_lob.Prelude.{ℕ}
