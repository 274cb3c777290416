-- ===== src/Tests/Digests.antt =====
-- `sha1::compute` and `base64::encode` on texts with known results.
use titan_lob.Prelude.{◌≡◌, refl}
use titan_lob.Web.Base64.{codes, encode}
use titan_lob.Web.Sha1
use titan_lob.Web.Sha1.{compute}

-- The key of RFC 6455, section 1.3, with the GUID of the protocol, gives the accept key of that section.
rfc_key :
    encode (compute (codes "dGhlIHNhbXBsZSBub25jZQ==258EAFA5-E914-47DA-95CA-C5AB0DC85B11"))
    ≡ codes "s3pPLMBiTxaQ9kYGzzhZRbK+xOo="
unfolding encode compute Sha1.padded Sha1.chunks Sha1.process_chunk Sha1.chunk_word Sha1.extend
    Sha1.rounds Sha1.round Sha1.left_rotate
rfc_key = refl
