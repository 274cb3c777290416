-- ===== src/Tests/WebExamples.antt =====
-- The websocket server's frames, digests and texts at concrete inputs.
use titan_lob.Prelude.{ℕ, ◌+◌, ◌*◌, ◌/◌, ◌≡◌, arith, List, [], ◌∷◌, ◌++◌, length, pos, some}
use titan_lob.Book.Api.{get_bids_snapshot, get_asks_snapshot}
use titan_lob.Web.Frame.{encode_frame, length_bytes, decode_frame, decoded}
use titan_lob.Web.Frame.RoundTrip.{buffered, decode-encode_frame, decode-oversized}
use titan_lob.Web.Base64
use titan_lob.Web.Base64.{codes}
use titan_lob.Web.Base64.RoundTrip.{decode, decode-encode}
use titan_lob.Web.Sha1.Bounds.{IsPadded, padded_lem}
use titan_lob.Web.Json.{build_book_snapshot}
use titan_lob.Web.Json.Snapshot.{without_comma, snapshot_json, build_book_snapshot_lem}
use titan_lob.Tests.Starts.{two_asks}

abbrev hello : List ℕ
hello = codes "Hello"

decode-encode_frame_example :
    decode_frame buffered (encode_frame hello 0x01 ++ (1 ∷ [])) ≡ some (decoded hello (1 ∷ []))
decode-encode_frame_example = decode-encode_frame hello (1 ∷ []) (omega arith) (omega arith)

decode-oversized_example :
    decode_frame buffered (0x81 ∷ 0xff ∷ (length_bytes 8 1048576 ++ (1 ∷ 2 ∷ 3 ∷ 4 ∷ hello)))
    ≡ some (decoded [] hello)
decode-oversized_example = decode-oversized 1048576 1 2 3 4 hello (omega arith) (omega arith)

abbrev two : List ℕ
two = 7 ∷ 200 ∷ []

base64_example :
    (decode (Base64.encode two) ≡ two) × (length (Base64.encode two) ≡ (length two + 2) / 3 * 4)
base64_example = decode-encode two (omega arith, (omega arith, tt))

padded_example : IsPadded hello
padded_example = padded_lem hello (omega arith)

build_book_snapshot_example :
    (build_book_snapshot (pos 17) two_asks).ss ≡ (elim (get_bids_snapshot two_asks) [
      | [] ↦ without_comma (pos 17) two_asks
      | l ∷ ls ↦ snapshot_json (pos 17) two_asks (l ∷ ls) (get_asks_snapshot two_asks)
    ])
build_book_snapshot_example = build_book_snapshot_lem (pos 17) two_asks
