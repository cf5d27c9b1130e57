-- ===== src/Attacker/Detected.antt =====
-- What attacker/attacker_proxy.py makes of a document, and what the client's checks say of it.
use Prim.Native.Nat.{differ}
use mathlib.Core.Path.{subst}
use crypto_project.Bits.{xor_step, xor-zero}
use crypto_project.Base.{
  ℕ, Bool-cases, inl, inr, ◌⊎◌, bit_xor, List, [], ◌∷◌, ◌++◌, length, length-append, ◌===◌, ===→eq,
  ===_of_ne, ===_iff, ◌%◌, ◌/◌, ok, raise, value_error, client_error, ◌>>=◌, >>=-eq-ok,
  ok-injective, if-eq-ok_then, ◌==◌, ◌≡◌, ◌≢◌, refl, sym, ap, ◌∙◌, arith,
}
use crypto_project.Text.{Text, codes}
use crypto_project.Crypto.Sha256.{sha256}
use crypto_project.Formats.Document.{
  doc_id_len, DocumentHeader, document_header, pack_document_header, pack_document, ParsedDocument,
  unpack_document,
}
use crypto_project.Formats.Document.RoundTrip.{unpack_document-pack_document}
use crypto_project.Formats.Share.{Share}
use crypto_project.Wire.Json.{Fields}
use crypto_project.Client.Session.{bytes_at}
use crypto_project.Client.Opening.{check_delivery}
use crypto_project.Attacker.{flip_first, put_document, flipped, attack_ciphertext, attack_metadata}

flip_bit : (c r : ℕ) → c % 2 ≡ r → (r ≡ 0) ⊎ (r ≡ 1) → bit_xor c 1 ≢ c
flip_bit c r h (inl zero) e =
    absurd (omega (arith, xor_step c 1, xor-zero (c / 2), ap (λ x. differ x 1) (h ∙ zero)))
flip_bit c r h (inr one) e =
    absurd (omega (arith, xor_step c 1, xor-zero (c / 2), ap (λ x. differ x 1) (h ∙ one)))

flip_first-changes : (ct : List ℕ) → ct ≢ [] → flip_first ct ≢ ct
unfolding flip_first
flip_first-changes [] some_bytes e = some_bytes refl
flip_first-changes (c ∷ cs) some_bytes e = flip_bit c (c % 2) refl (omega arith) (cc e)

-- A document as it is read from its bytes.
abbrev read_as : DocumentHeader → List ℕ → List ℕ → List ℕ → List ℕ → ParsedDocument
read_as hdr aad nonce ct tag = record {
  header = hdr;
  header_aad = aad;
  nonce = nonce;
  ciphertext = ct;
  tag = tag;
}

-- `_attack_flip_ciphertext` once the document is read.
flipped_inv :
    (payload payload' : Fields) (doc : ParsedDocument) (ct : List ℕ)
    → ct ≢ []
    → flipped payload doc ct ≡ ok payload'
    → (blob : List ℕ) × (pack_document doc.header doc.nonce (flip_first ct) doc.tag ≡ ok blob)
      × (put_document payload blob ≡ payload')
unfolding flipped
flipped_inv payload payload' doc [] some_bytes h = absurd (some_bytes refl)
flipped_inv payload payload' doc (c ∷ cs) some_bytes h =
    let (blob, e, h1) =
      >>=-eq-ok (pack_document doc.header doc.nonce (flip_first (c ∷ cs)) doc.tag) _ h in
    (blob, e, ok-injective h1)

refused :
    (username : Text) (doc : ParsedDocument) (share : Share)
    → sha256 doc.ciphertext ≢ share.doc_hash
    → check_delivery username doc share ≡ raise client_error
unfolding check_delivery
refused username doc share other = rw (===_of_ne (sha256 doc.ciphertext) share.doc_hash other) refl

-- Where the payload carries a document that was packed, with a ciphertext that is not empty, and
-- `_attack_flip_ciphertext` changes it, the payload then carries a document with the same header and
-- another ciphertext; with a share that commits to the first, the tests that `download` makes before
-- any signature raise ClientError, or the two ciphertexts have the same SHA-256.
pub attack_ciphertext-refused :
    (hdr : DocumentHeader) (nonce ct tag doc_blob : List ℕ) (payload payload' : Fields)
    (username : Text) (share : Share)
    → length hdr.doc_id ≡ doc_id_len
    → pack_document hdr nonce ct tag ≡ ok doc_blob
    → bytes_at (codes "document") payload ≡ ok doc_blob
    → ct ≢ []
    → sha256 ct ≡ share.doc_hash
    → attack_ciphertext payload ≡ ok payload'
    → (blob : List ℕ) × (doc : ParsedDocument) × (payload' ≡ put_document payload blob)
      × (unpack_document blob ≡ ok doc)
      × (doc.header ≡ hdr)
      × (doc.ciphertext ≢ ct)
      × ((check_delivery username doc share ≡ raise client_error)
          ⊎ (sha256 doc.ciphertext ≡ sha256 ct))
unfolding attack_ciphertext
attack_ciphertext-refused hdr nonce ct tag doc_blob payload payload' username share size packed
      carried some_bytes commits h =
    let (aad, _, read) = unpack_document-pack_document hdr nonce ct tag doc_blob size packed in
    let (b, eb, h1) = >>=-eq-ok (bytes_at (codes "document") payload) _ h in
    let (parsed, ep, h2) = >>=-eq-ok (unpack_document b) _ h1 in
    let is_doc : parsed ≡ read_as hdr aad nonce ct tag =
      ok-injective (sym ep ∙ ap unpack_document (ok-injective (sym eb ∙ carried)) ∙ read) in
    let (blob, made, put) =
      flipped_inv payload payload' (read_as hdr aad nonce ct tag) ct some_bytes
        (subst (λ x. flipped payload x x.ciphertext ≡ ok payload') is_doc h2) in
    let (aad', _, read') =
      unpack_document-pack_document hdr nonce (flip_first ct) tag blob size made in
    (
      blob,
      read_as hdr aad' nonce (flip_first ct) tag,
      sym put,
      read',
      refl,
      flip_first-changes ct some_bytes,
      elim (Bool-cases (sha256 (flip_first ct) === sha256 ct)) [
        | inl same ↦ inr (===→eq (sha256 (flip_first ct)) (sha256 ct) same)
        | inr other ↦ inl (
            refused username (read_as hdr aad' nonce (flip_first ct) tag) share (λ e. absurd (
              cc (sym other ∙ (===_iff (sha256 (flip_first ct)) (sha256 ct)).1 (e ∙ sym commits)))))
      ],
    )

same_pack :
    (hdr hdr' : DocumentHeader) (nonce ct tag : List ℕ)
    → pack_document_header hdr ≡ pack_document_header hdr'
    → pack_document hdr nonce ct tag ≡ pack_document hdr' nonce ct tag
unfolding pack_document
same_pack hdr hdr' nonce ct tag h = rw h refl

-- Two headers that pack to the same bytes are the same.
pack_document_header-injective :
    (hdr hdr' : DocumentHeader) (nonce ct tag blob blob' aad : List ℕ)
    → length hdr.doc_id ≡ doc_id_len
    → length hdr'.doc_id ≡ doc_id_len
    → pack_document hdr nonce ct tag ≡ ok blob
    → pack_document hdr' nonce ct tag ≡ ok blob'
    → pack_document_header hdr ≡ ok aad
    → pack_document_header hdr' ≡ ok aad
    → hdr ≡ hdr'
pack_document_header-injective hdr hdr' nonce ct tag blob blob' aad size size' e e' h h' =
    let same : blob ≡ blob' =
      ok-injective (sym e ∙ same_pack hdr hdr' nonce ct tag (h ∙ sym h') ∙ e') in
    let (_, _, read) = unpack_document-pack_document hdr nonce ct tag blob size e in
    let (_, _, read') = unpack_document-pack_document hdr' nonce ct tag blob' size' e' in
    ap {A = ParsedDocument} (λ x. x.header)
      (ok-injective (sym read ∙ ap unpack_document same ∙ read'))

append-longer : (s t : Text) → t ≢ [] → (s ++ t) ≢ s
append-longer s [] some_text e = some_text refl
append-longer s (c ∷ t) some_text e = absurd (omega (arith, length-append s (c ∷ t), ap length e))

-- The header that `_attack_flip_metadata` forges.
abbrev forged : DocumentHeader → DocumentHeader
forged hdr = record hdr { owner = hdr.owner ++ codes "_TAMPERED" }

forged_inv :
    (hdr hdr' : DocumentHeader)
    → document_header hdr.doc_id (hdr.owner ++ codes "_TAMPERED") hdr.version hdr.created_ms
      ≡ ok hdr'
    → hdr' ≡ forged hdr
unfolding document_header
forged_inv hdr hdr' h = sym (if-eq-ok_then (length hdr.doc_id == doc_id_len) value_error _ h).1

-- `_attack_flip_metadata` once the document is read.
abbrev IsForgedTo : Fields → Fields → ParsedDocument → Type 0
IsForgedTo payload payload' doc =
    (document_header doc.header.doc_id (doc.header.owner ++ codes "_TAMPERED") doc.header.version
        doc.header.created_ms
      >>= λ hdr. pack_document hdr doc.nonce doc.ciphertext doc.tag >>= λ blob.
          ok (put_document payload blob))
    ≡ ok payload'

forging :
    (payload payload' : Fields) (hdr : DocumentHeader) (aad nonce ct tag : List ℕ)
    → IsForgedTo payload payload' (read_as hdr aad nonce ct tag)
    → (hdr' : DocumentHeader) × (blob : List ℕ) × (pack_document hdr' nonce ct tag ≡ ok blob)
      × (document_header hdr.doc_id (hdr.owner ++ codes "_TAMPERED") hdr.version hdr.created_ms
          ≡ ok hdr')
      × (put_document payload blob ≡ payload')
forging payload payload' hdr aad nonce ct tag h =
    let (hdr', e, h1) =
      >>=-eq-ok
        (document_header hdr.doc_id (hdr.owner ++ codes "_TAMPERED") hdr.version hdr.created_ms) _
        h in
    let (blob, e1, h2) = >>=-eq-ok (pack_document hdr' nonce ct tag) _ h1 in
    (hdr', blob, e1, e, ok-injective h2)

-- Where the payload carries a document that was packed and `_attack_flip_metadata` changes it, the
-- payload then carries a document with the forged owner and the same nonce, ciphertext and tag, and
-- the bytes of its header, which GCM authenticates, are others than those of the first.
pub attack_metadata-forged :
    (hdr : DocumentHeader) (nonce ct tag doc_blob : List ℕ) (payload payload' : Fields)
    → length hdr.doc_id ≡ doc_id_len
    → pack_document hdr nonce ct tag ≡ ok doc_blob
    → bytes_at (codes "document") payload ≡ ok doc_blob
    → attack_metadata payload ≡ ok payload'
    → (blob aad aad' : List ℕ) × (payload' ≡ put_document payload blob)
      × (unpack_document doc_blob ≡ ok (read_as hdr aad nonce ct tag))
      × (unpack_document blob ≡ ok (read_as (forged hdr) aad' nonce ct tag))
      × (aad ≢ aad')
unfolding attack_metadata
attack_metadata-forged hdr nonce ct tag doc_blob payload payload' size packed carried h =
    let (aad, header, read) = unpack_document-pack_document hdr nonce ct tag doc_blob size packed in
    let (b, eb, h1) = >>=-eq-ok (bytes_at (codes "document") payload) _ h in
    let (parsed, ep, h2) = >>=-eq-ok (unpack_document b) _ h1 in
    let is_doc : parsed ≡ read_as hdr aad nonce ct tag =
      ok-injective (sym ep ∙ ap unpack_document (ok-injective (sym eb ∙ carried)) ∙ read) in
    let (hdr', blob, made, forges, put) =
      forging payload payload' hdr aad nonce ct tag
        (subst (IsForgedTo payload payload') is_doc h2) in
    let is_forged = forged_inv hdr hdr' forges in
    let made' : pack_document (forged hdr) nonce ct tag ≡ ok blob =
      ap (λ x. pack_document x nonce ct tag) (sym is_forged) ∙ made in
    let (aad', header', read') =
      unpack_document-pack_document (forged hdr) nonce ct tag blob size made' in
    (
      blob,
      aad,
      aad',
      sym put,
      read,
      read',
      λ same.
          append-longer hdr.owner (codes "_TAMPERED") (λ e. cc e)
            (ap {A = DocumentHeader} (λ x. x.owner)
              (sym (
                pack_document_header-injective hdr (forged hdr) nonce ct tag doc_blob blob aad size
                  size packed made' header (header' ∙ ap ok (sym same))))),
    )
