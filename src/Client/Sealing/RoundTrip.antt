-- ===== src/Client/Sealing/RoundTrip.antt =====
-- What client/client.py seals, client/client.py opens: the document of `upload` with its file key, and
-- the file key of a share with the recipient's private key.
use crypto_project.Base.{
  ℕ, List, some, ◌==◌, ==_iff, ok, value_error, >>=-eq-ok, if-eq-ok_then, ok-injective, ◌≡◌, refl,
  sym, ap, ap₂, ◌∙◌, length,
}
use crypto_project.Text.{Text, codes}
use crypto_project.Crypto.Sha256.{sha256}
use crypto_project.Crypto.Gcm.{encrypt, decrypt}
use crypto_project.Crypto.Gcm.RoundTrip.{decrypt-encrypt}
use crypto_project.Formats.Document.{
  doc_id_len, DocumentHeader, document_header, pack_document_header, pack_document, ParsedDocument,
  unpack_document,
}
use crypto_project.Formats.Document.RoundTrip.{unpack_document-pack_document}
use crypto_project.Formats.Payload.{pack_payload}
use crypto_project.Formats.Payload.RoundTrip.{unpack_payload-pack_payload}
use crypto_project.Client.Session.{Runtime, sign_bytes}
use crypto_project.Client.Opening.{opened, open_document}
use crypto_project.Client.Sealing.{zero_nonce, UploadDraws, encrypt_payload, seal_document}

header_of :
    (doc_id : List ℕ) (owner : Text) (version created_ms : ℕ) (hdr : DocumentHeader)
    → document_header doc_id owner version created_ms ≡ ok hdr
    → (length doc_id ≡ doc_id_len)
      × (hdr
          ≡ record { doc_id = doc_id; owner = owner; version = version; created_ms = created_ms })
unfolding document_header
header_of doc_id owner version created_ms hdr h =
    let (size, same) = if-eq-ok_then (length doc_id == doc_id_len) value_error _ h in
    ((==_iff (length doc_id) doc_id_len).0 size, sym same)

-- The document that `encrypt_payload` makes.
abbrev made : UploadDraws → Text → List ℕ → List ℕ → List ℕ → ParsedDocument
made draws owner aad ct tag = record {
  header = record {
    doc_id = draws.doc_id;
    owner = owner;
    version = 1;
    created_ms = draws.created_ms;
  };
  header_aad = aad;
  nonce = zero_nonce;
  ciphertext = ct;
  tag = tag;
}

encrypt_payload-opens :
    (draws : UploadDraws) (owner : Text) (payload blob ct : List ℕ)
    → encrypt_payload draws owner payload ≡ ok (blob, ct)
    → (aad tag : List ℕ) × (unpack_document blob ≡ ok (made draws owner aad ct tag))
      × (decrypt draws.file_key zero_nonce ct tag aad ≡ ok (some payload))
unfolding encrypt_payload
encrypt_payload-opens draws owner payload blob ct h =
    let (hdr, e1, h1) = >>=-eq-ok (document_header draws.doc_id owner 1 draws.created_ms) _ h in
    let (aad, e2, h2) = >>=-eq-ok (pack_document_header hdr) _ h1 in
    let (sealed, e3, h3) = >>=-eq-ok (encrypt draws.file_key zero_nonce payload aad) _ h2 in
    let (packed, e4, h4) = >>=-eq-ok (pack_document hdr zero_nonce sealed.0 sealed.1) _ h3 in
    let (size, is_hdr) = header_of draws.doc_id owner 1 draws.created_ms hdr e1 in
    let is_blob : packed ≡ blob = ap (λ x. x.0) (ok-injective h4) in
    let is_ct : sealed.0 ≡ ct = ap (λ x. x.1) (ok-injective h4) in
    let (aad', header, unpacked) =
      unpack_document-pack_document hdr zero_nonce sealed.0 sealed.1 packed
        (ap (λ x. length x.doc_id) is_hdr ∙ size) e4 in
    let is_aad : aad' ≡ aad = ok-injective (sym header ∙ e2) in
    (
      aad,
      sealed.1,
      ap unpack_document (sym is_blob)
          ∙ unpacked
          ∙ ap₂
              (λ x a. ok (record {
                header = x;
                header_aad = a;
                nonce = zero_nonce;
                ciphertext = sealed.0;
                tag = sealed.1;
              }))
              is_hdr is_aad
          ∙ ap (λ c. ok (made draws owner aad c sealed.1)) is_ct,
      ap (λ c. decrypt draws.file_key zero_nonce c sealed.1 aad) (sym is_ct)
          ∙ decrypt-encrypt draws.file_key zero_nonce payload aad sealed.0 sealed.1 e3,
    )

-- When `upload` has made a document of a file, its bytes unpack to a document with the ciphertext, the
-- owner and the id that were used, and the file key opens it to the file's name and content with the
-- owner's signature of the content's hash.
pub open_document-seal_document :
    (rt : Runtime) (draws : UploadDraws) (me : Text × ℕ) (filename : Text)
    (content blob ct : List ℕ)
    → seal_document rt draws me filename content ≡ ok (blob, ct)
    → (doc : ParsedDocument) × (content_sig : List ℕ) × (unpack_document blob ≡ ok doc)
      × (doc.ciphertext ≡ ct)
      × (doc.header.owner ≡ me.0)
      × (doc.header.doc_id ≡ draws.doc_id)
      × (sign_bytes rt me.1 (sha256 content) ≡ ok content_sig)
      × (open_document draws.file_key doc
          ≡ ok (record {
            filename = filename;
            mime = codes "application/octet-stream";
            content = content;
            content_sig = content_sig;
          }))
unfolding seal_document open_document opened
open_document-seal_document rt draws me filename content blob ct h =
    let (content_sig, e1, h1) = >>=-eq-ok (sign_bytes rt me.1 (sha256 content)) _ h in
    let (payload, e2, h2) =
      >>=-eq-ok (pack_payload filename (codes "application/octet-stream") content content_sig) _
        h1 in
    let (aad, tag, unpacked, decrypted) = encrypt_payload-opens draws me.0 payload blob ct h2 in
    (
      made draws me.0 aad ct tag,
      content_sig,
      unpacked,
      refl,
      refl,
      refl,
      e1,
      rw (decrypted) (
          unpack_payload-pack_payload filename (codes "application/octet-stream") content
            content_sig payload e2),
    )
