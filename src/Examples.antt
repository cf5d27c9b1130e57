-- ===== src/Examples.antt =====
-- The theorems at concrete inputs: of crypto/ and formats here, of the other parts in the child modules.
mod Server
mod Blobs
mod Sealing
mod Downloads
mod Account
mod Logins
mod Uploads
mod Stored
mod Contacts
mod Attacks
mod Requests
mod Client
mod Signing
mod Payloads
use Prim.Native.Nat.{◌^◌}
use crypto_project.Base.{
  ℕ, ◌<◌, ◌≤◌, List, [], ◌∷◌, ◌++◌, length, replicate, ok, some, true, false, Outcome, ◌≡◌, ◌↔◌,
  refl, inl, inr, arith,
}
use crypto_project.Bytes.{be_bytes, from_bytes}
use crypto_project.Text.{encode, encode_char}
use crypto_project.Crypto.Sha256.{Hasher, new, digest, sha256}
use mathlib.Core.List.{flatten}
use crypto_project.Crypto.Sha256.Streaming.{feed, digest-feed}
use crypto_project.Crypto.Hmac.{consttime_equal}
use crypto_project.Crypto.Hmac.Compare.{consttime_equal_iff}
use crypto_project.Crypto.Gcm.{encrypt, decrypt}
use crypto_project.Crypto.Gcm.RoundTrip.{encrypt-decrypt_iff, encrypt_total}
use crypto_project.Crypto.Ecdsa.{Signature, verify, signature_to_bytes, signature_from_bytes}
use crypto_project.Crypto.Ecdsa.Range.{signature_from_bytes-to_bytes, verify-OutOfRange}
use crypto_project.Formats.Document.{
  DocumentHeader, magic_doc, pack_document_header, pack_document, unpack_document,
}
use crypto_project.Formats.Document.RoundTrip.{unpack_document-pack_document}
use crypto_project.Formats.Payload.{pack_payload, unpack_payload}
use crypto_project.Formats.Payload.RoundTrip.{unpack_payload-pack_payload}
use crypto_project.Formats.Share.{Share, pack_share, unpack_share}
use crypto_project.Formats.Share.RoundTrip.{unpack_share_iff}
use crypto_project.Formats.Reader.{pack_str, pack_u16, pack_u32, pack_u64, pack_uint}

abbrev key : List ℕ
key = replicate 32 0

abbrev nonce : List ℕ
nonce = replicate 12 0

encrypt-decrypt_iff_example :
    (encrypt key nonce (replicate 16 0) []
      ≡ ok (
        be_bytes 16 0xcea7403d4d606b6e074ec5d3baf39d18,
        be_bytes 16 0xd0d1c8a799996bf0265b98b5d48ab919,
      ))
    ↔ (decrypt key nonce
          (be_bytes 16 0xcea7403d4d606b6e074ec5d3baf39d18)
          (be_bytes 16 0xd0d1c8a799996bf0265b98b5d48ab919)
          []
        ≡ ok (some (replicate 16 0)))
encrypt-decrypt_iff_example =
    encrypt-decrypt_iff key nonce (replicate 16 0) []
      (be_bytes 16 0xcea7403d4d606b6e074ec5d3baf39d18)
      (be_bytes 16 0xd0d1c8a799996bf0265b98b5d48ab919) (omega arith)

encrypt_total_example :
    (ct : List ℕ) × (tag : List ℕ) × (encrypt key nonce (1 ∷ 2 ∷ 3 ∷ []) (9 ∷ []) ≡ ok (ct, tag))
    × (length ct ≡ 3)
    × (length tag ≡ 16)
encrypt_total_example =
    encrypt_total key nonce (1 ∷ 2 ∷ 3 ∷ []) (9 ∷ []) (inr refl) refl (omega arith)

abbrev pieces : List (List ℕ)
pieces = (b'a' ∷ b'b' ∷ []) ∷ ([] ∷ ((b'c' ∷ []) ∷ []))

digest-feed_example :
    (t : Hasher) × (u : Hasher) × (feed new pieces ≡ ok t)
    × (digest t ≡ ok (sha256 (flatten pieces), u))
digest-feed_example = digest-feed pieces

abbrev header : DocumentHeader
header = record {
  doc_id = replicate 16 7;
  owner = b'a' ∷ b'l' ∷ [];
  version = 1;
  created_ms = 1000;
}

abbrev packed_header : List ℕ
packed_header =
    magic_doc
    ++ (replicate 16 7
        ++ ((0 ∷ 2 ∷ b'a' ∷ b'l' ∷ [])
            ++ ((0 ∷ 0 ∷ 0 ∷ 1 ∷ []) ++ (0 ∷ 0 ∷ 0 ∷ 0 ∷ 0 ∷ 0 ∷ 3 ∷ 232 ∷ []))))

abbrev blob : List ℕ
blob = packed_header ++ (nonce ++ ((5 ∷ 6 ∷ []) ++ replicate 16 9))

packed : pack_document header nonce (5 ∷ 6 ∷ []) (replicate 16 9) ≡ ok blob
unfolding pack_document pack_document_header pack_str pack_u16 pack_u32 pack_u64 pack_uint encode
    encode_char be_bytes
packed = refl

unpack_document-pack_document_example :
    (aad : List ℕ) × (pack_document_header header ≡ ok aad)
    × (unpack_document blob
        ≡ ok (record {
          header = header;
          header_aad = aad;
          nonce = nonce;
          ciphertext = 5 ∷ 6 ∷ [];
          tag = replicate 16 9;
        }))
unpack_document-pack_document_example =
    unpack_document-pack_document header nonce (5 ∷ 6 ∷ []) (replicate 16 9) blob refl packed

abbrev payload : List ℕ
payload =
    (0 ∷ 1 ∷ b'f' ∷ [])
    ++ ((0 ∷ 0 ∷ []) ++ ((0 ∷ 0 ∷ 0 ∷ 2 ∷ []) ++ ((8 ∷ 9 ∷ []) ++ replicate 64 3)))

packed_payload : pack_payload (b'f' ∷ []) [] (8 ∷ 9 ∷ []) (replicate 64 3) ≡ ok payload
unfolding pack_payload pack_str pack_u16 pack_u32 pack_uint encode encode_char be_bytes
packed_payload = refl

abbrev share : Share
share = record {
  doc_id = replicate 16 7;
  version = 1;
  doc_hash = replicate 32 1;
  sender = b'a' ∷ [];
  recipient = b'b' ∷ [];
  issued_ms = 5;
  eph_pub = replicate 65 4;
  nonce = replicate 12 0;
  wrapped_fk = replicate 32 2;
  tag = replicate 16 9;
  share_sig = replicate 64 3;
}

abbrev share_blob : List ℕ
share_blob =
    (b'S' ∷ b'V' ∷ b'S' ∷ b'1' ∷ [])
    ++ (replicate 16 7
        ++ ((0 ∷ 0 ∷ 0 ∷ 1 ∷ [])
            ++ (replicate 32 1
                ++ ((0 ∷ 1 ∷ b'a' ∷ [])
                    ++ ((0 ∷ 1 ∷ b'b' ∷ [])
                        ++ ((0 ∷ 0 ∷ 0 ∷ 0 ∷ 0 ∷ 0 ∷ 0 ∷ 5 ∷ [])
                            ++ (replicate 65 4
                                ++ (replicate 12 0
                                    ++ (replicate 32 2
                                        ++ (replicate 16 9 ++ replicate 64 3))))))))))

unpack_share_iff_example : (unpack_share share_blob ≡ ok share) ↔ (pack_share share ≡ ok share_blob)
unpack_share_iff_example = unpack_share_iff share share_blob (ground arith)
