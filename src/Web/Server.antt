-- ===== src/Web/Server.antt =====
-- titan_ws_server.h, `TitanWebSocketServer`: the handshake and the clients. A string is the list of its
-- codes; the set of clients is a list of sockets without repetition, and `send` gives what `::send` returns
-- for a client. Threads, sockets, the mutex and the text on the console are left out: the methods that take
-- the mutex follow one another.
pub mod Clients
use titan_lob.Prelude.{
  ℕ, zero, suc, ◌+◌, ◌-◌, Bool, true, false, not, ◌&&◌, ◌||◌, leb, ltb, ◌==◌, if◌then◌else◌, List,
  [], ◌∷◌, ◌++◌, Option, none, some, ℤ, pos, leb_ℤ, length, take, drop,
}
use titan_lob.Web.Base64
use titan_lob.Web.Base64.{codes}
use titan_lob.Web.Sha1
use titan_lob.Web.Frame.{encode_frame}

abbrev starts_with : (pattern s : List ℕ) → Bool
starts_with [] s = true
starts_with (p ∷ ps) [] = false
starts_with (p ∷ ps) (c ∷ cs) = (p == c) && starts_with ps cs

-- `s.find(pattern)`: `none` is `npos`.
abbrev pub find : (pattern s : List ℕ) → Option ℕ
find pattern [] = if starts_with pattern [] then some 0 else none
find pattern (c ∷ cs) =
    let later = find pattern cs in
    if starts_with pattern (c ∷ cs)
    then some 0
    else elim later [ none ↦ none | some i ↦ some (suc i) ]

-- `"\r\n"`
abbrev pub line_end : List ℕ
line_end = 13 ∷ 10 ∷ []

unfoldable pub extract_header : (request name : List ℕ) → List ℕ
extract_header request name =
    let search : List ℕ = name ++ codes ": " in
    elim (find search request) [
      | none ↦ []
      | some i ↦
          let rest : List ℕ = drop (i + length search) request in
          take (elim (find line_end rest) [ none ↦ length rest | some j ↦ j ]) rest
    ]

-- `std::string request(buffer)` ends at the first zero.
abbrev pub c_string : List ℕ → List ℕ
c_string [] = []
c_string (c ∷ cs) = let rest = c_string cs in if c == 0 then [] else c ∷ rest

abbrev pub ws_guid : List ℕ
ws_guid = codes "258EAFA5-E914-47DA-95CA-C5AB0DC85B11"

-- What `perform_handshake` does with the bytes that `recv` gave it: it goes on with a client that it has
-- sent the response of the protocol, or drops it, with the page of the server or without a word.
pub data Handshake : Type 0 where
  accepted : (response : List ℕ) → Handshake
  page : Handshake
  dropped : Handshake

abbrev pub accept_key : List ℕ → List ℕ
accept_key key = Base64.encode (Sha1.compute (key ++ ws_guid))

abbrev pub accept_response : List ℕ → List ℕ
accept_response key =
    codes "HTTP/1.1 101 Switching Protocols"
    ++ (line_end
        ++ (codes "Upgrade: websocket"
            ++ (line_end
                ++ (codes "Connection: Upgrade"
                    ++ (line_end
                        ++ (codes "Sec-WebSocket-Accept: "
                            ++ (accept_key key ++ (line_end ++ line_end))))))))

unfoldable pub perform_handshake : List ℕ → Handshake
unfolding extract_header
perform_handshake received =
    let request : List ℕ = c_string received in
    let key : List ℕ = extract_header request (codes "Sec-WebSocket-Key") in
    let upgrade : Bool = elim (find (codes "Upgrade: websocket") request) [
      | none ↦ elim (find (codes "Upgrade: WebSocket") request) [ none ↦ false | some _ ↦ true ]
      | some _ ↦ true
    ] in
    if length received == 0
    then dropped
    else if not upgrade
    then page
    else if length key == 0
    then dropped
    else accepted (accept_response key)

pub record WebSocketServer : Type 0 where
  pub running : Bool
  pub clients : List ℕ

abbrev pub contains : List ℕ → ℕ → Bool
contains [] c = false
contains (k ∷ ks) c = (k == c) || contains ks c

-- `clients_.insert` and `clients_.erase`
abbrev pub insert : List ℕ → ℕ → List ℕ
insert ks c = if contains ks c then ks else c ∷ ks

abbrev pub erase : List ℕ → ℕ → List ℕ
erase [] c = []
erase (k ∷ ks) c = let rest = erase ks c in if k == c then rest else k ∷ rest

-- What `handle_client` does to the set at its start and at its end.
unfoldable pub connect : WebSocketServer → ℕ → WebSocketServer
connect s c = record s { clients = insert s.clients c }

unfoldable pub disconnect : WebSocketServer → ℕ → WebSocketServer
disconnect s c = record s { clients = erase s.clients c }

unfoldable pub start : WebSocketServer → WebSocketServer
start s = if s.running then s else record s { running = true }

unfoldable pub stop : WebSocketServer → WebSocketServer
stop s = if not s.running then s else record s { running = false; clients = [] }

-- The clients to which `send` fails.
abbrev pub to_remove : (ℕ → List ℕ → ℤ) → List ℕ → List ℕ → List ℕ
to_remove send frame [] = []
to_remove send frame (c ∷ cs) =
    let rest = to_remove send frame cs in if leb_ℤ (send c frame) (pos 0) then c ∷ rest else rest

abbrev pub erase_all : List ℕ → List ℕ → List ℕ
erase_all ks [] = ks
erase_all ks (c ∷ cs) = erase_all (erase ks c) cs

unfoldable pub broadcast : (send : ℕ → List ℕ → ℤ) → WebSocketServer → List ℕ → WebSocketServer
broadcast send s message =
    let frame : List ℕ = encode_frame message 0x01 in
    record s { clients = erase_all s.clients (to_remove send frame s.clients) }

unfoldable pub client_count : WebSocketServer → ℕ
client_count s = length s.clients
