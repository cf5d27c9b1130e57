-- ===== src/Examples/Attacks.antt =====
-- The attacks of attacker/attacker_proxy.py at concrete inputs.
use crypto_project.Base.{ℕ, List, [], ◌++◌, ok, raise, client_error, ◌⊎◌, ◌≢◌, ◌===◌, ◌≡◌, refl}
use crypto_project.Bytes.{be_bytes}
use crypto_project.Bytes.Laws.{be_bytes-IsBytes}
use crypto_project.Text.{codes, encode, encode_char}
use crypto_project.Encodings.Base64.{b64encode, b64decode-b64encode}
use crypto_project.Crypto.Sha256.{sha256}
use crypto_project.Formats.Reader.{pack_str, pack_u16, pack_u32, pack_u64, pack_uint}
use crypto_project.Formats.Document.{
  DocumentHeader, document_header, pack_document_header, pack_document, ParsedDocument,
  unpack_document,
}
use crypto_project.Wire.Json.{str, Fields, end, field, get_item}
use crypto_project.Client.Session.{bytes_at, decode_b64}
use crypto_project.Client.Opening.{check_delivery}
use crypto_project.Attacker.{flip_first, put_document, flipped, attack_ciphertext, attack_metadata}
use crypto_project.Attacker.Detected.{attack_ciphertext-refused, attack_metadata-forged}
use crypto_project.Examples.Blobs.{
  ciphertext, tag, zeros, doc_blob, document, own_share, changed_blob, forged_blob,
}
use crypto_project.Examples.Sealing.{hashed}
use crypto_project.Examples.Downloads.{unpacked, document_packed}

-- A reply with the document.
abbrev carrying : Fields
carrying = field (codes "document") (str (b64encode doc_blob)) end

carried : bytes_at (codes "document") carrying ≡ ok doc_blob
unfolding bytes_at decode_b64 get_item ◌===◌
carried = b64decode-b64encode doc_blob (be_bytes-IsBytes _ _)

-- The document with another first byte of the ciphertext.
repacked : pack_document document.header zeros (flip_first ciphertext) tag ≡ ok changed_blob
unfolding pack_document pack_document_header pack_str pack_u16 pack_u32 pack_u64 pack_uint encode
    encode_char be_bytes flip_first
repacked = refl

some_bytes : ciphertext ≢ []
unfolding be_bytes
some_bytes = λ e. cc e

flips : flipped carrying document ciphertext ≡ ok (put_document carrying changed_blob)
unfolding flipped be_bytes
flips = rw repacked refl

attacks : attack_ciphertext carrying ≡ ok (put_document carrying changed_blob)
unfolding attack_ciphertext
attacks = rw (carried) (rw (unpacked) flips)

attack_ciphertext-refused_example :
    (blob : List ℕ) × (doc : ParsedDocument) × (put_document carrying changed_blob
      ≡ put_document carrying blob)
    × (unpack_document blob ≡ ok doc)
    × (doc.header ≡ document.header)
    × (doc.ciphertext ≢ ciphertext)
    × ((check_delivery (codes "alice") doc own_share ≡ raise client_error)
        ⊎ (sha256 doc.ciphertext ≡ sha256 ciphertext))
attack_ciphertext-refused_example =
    attack_ciphertext-refused document.header zeros ciphertext tag doc_blob carrying
      (put_document carrying changed_blob) (codes "alice") own_share refl document_packed carried
      some_bytes hashed attacks

abbrev forged_header : DocumentHeader
forged_header = record document.header { owner = codes "alice" ++ codes "_TAMPERED" }

forged_packed : pack_document forged_header zeros ciphertext tag ≡ ok forged_blob
unfolding pack_document pack_document_header pack_str pack_u16 pack_u32 pack_u64 pack_uint encode
    encode_char be_bytes
forged_packed = refl

forges : attack_metadata carrying ≡ ok (put_document carrying forged_blob)
unfolding attack_metadata document_header
forges = rw (carried) (rw (unpacked) (rw (forged_packed) refl))

attack_metadata-forged_example :
    (blob aad aad' : List ℕ) × (put_document carrying forged_blob ≡ put_document carrying blob)
    × (unpack_document doc_blob ≡ ok (record document { header_aad = aad }))
    × (unpack_document blob ≡ ok (record document { header = forged_header; header_aad = aad' }))
    × (aad ≢ aad')
attack_metadata-forged_example =
    attack_metadata-forged document.header zeros ciphertext tag doc_blob carrying
      (put_document carrying forged_blob) refl document_packed carried forges
