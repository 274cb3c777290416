-- ===== src/Web/Server/Clients.antt =====
-- titan_ws_server.h: which clients are in the set.
use titan_lob.Prelude.{
  ℕ, ◌≡◌, refl, ◌∙◌, not, ◌&&◌, ◌||◌, ◌==◌, ==_iff, Bool-cases, inl, inr, List, [], ◌∷◌, ℤ, pos,
  leb_ℤ, arith,
}
use titan_lob.Web.Frame.{encode_frame}
use titan_lob.Web.Server.{
  WebSocketServer, contains, insert, erase, connect, disconnect, to_remove, erase_all, broadcast,
}

contains-erase : (ks : List ℕ) (c d : ℕ) → contains (erase ks c) d ≡ (contains ks d && not (c == d))
contains-erase [] c d = refl
contains-erase (k ∷ ks) c d = let rest = contains-erase ks c d in ground arith

contains-insert : (ks : List ℕ) (c d : ℕ) → contains (insert ks c) d ≡ ((c == d) || contains ks d)
contains-insert ks c d = ground arith

contains-erase_all :
    (ks cs : List ℕ) (d : ℕ) → contains (erase_all ks cs) d ≡ (contains ks d && not (contains cs d))
contains-erase_all ks [] d = ground arith
contains-erase_all ks (c ∷ cs) d =
    contains-erase_all (erase ks c) cs d ∙ (let e = contains-erase ks c d in ground arith)

contains-to_remove :
    (send : ℕ → List ℕ → ℤ) (frame ks : List ℕ) (d : ℕ)
    → contains (to_remove send frame ks) d ≡ (contains ks d && leb_ℤ (send d frame) (pos 0))
contains-to_remove send frame [] d = refl
contains-to_remove send frame (k ∷ ks) d =
    let rest = contains-to_remove send frame ks d in
    elim (Bool-cases (k == d)) [
      | inl e ↦ (let same = (==_iff k d).0 e in rw same (ground arith))
      | inr ne ↦ ground arith
    ]

-- After a broadcast the clients are those that were clients and to which `send` did not fail; a client
-- that connects is added, and one that disconnects is taken out, and no other client changes.
pub clients_lem :
    (send : ℕ → List ℕ → ℤ) (s : WebSocketServer) (message : List ℕ) (c d : ℕ)
    → (contains (broadcast send s message).clients d
        ≡ (contains s.clients d && not (leb_ℤ (send d (encode_frame message 0x01)) (pos 0))))
      × (contains (connect s c).clients d ≡ ((c == d) || contains s.clients d))
      × (contains (disconnect s c).clients d ≡ (contains s.clients d && not (c == d)))
unfolding broadcast connect disconnect
clients_lem send s message c d =
    let frame = encode_frame message 0x01 in
    (
      contains-erase_all s.clients (to_remove send frame s.clients) d
          ∙ (let e = contains-to_remove send frame s.clients d in ground arith),
      contains-insert s.clients c d,
      contains-erase s.clients c d,
    )
