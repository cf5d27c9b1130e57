-- ===== src/Client/Opening/Checked.antt =====
-- What the checks of client/client.py on a document and a share have established when they pass.
use crypto_project.Base.{
  ℕ, Bool, true, List, [], Option, none, some, ◌===◌, ===→eq, Outcome, ok, require, ◌>>=◌,
  client_error, >>=-eq-ok, >>-eq-ok, require-eq-ok, ◌≡◌, ap, ◌∙◌,
}
use crypto_project.Text.{Text}
use crypto_project.Crypto.Sha256.{sha256}
use crypto_project.Crypto.Gcm.{decrypt}
use crypto_project.Crypto.Ecdsa.{Signature, verify, signature_from_bytes}
use crypto_project.Crypto.Ecdh.{shared_key}
use crypto_project.Formats.Document.{ParsedDocument}
use crypto_project.Formats.Payload.{ParsedPayload, unpack_payload}
use crypto_project.Formats.Share.{Share, pack_share_body}
use crypto_project.Client.Sealing.{no_signature, wrap_info}
use crypto_project.Client.Opening.{
  opened, unwrap_with, check_delivery, check_share_sig, open_document, check_content_sig,
}

-- The document is the one that the share commits to, and the share is for the user.
abbrev pub IsDelivered : Text → ParsedDocument → Share → Type 0
IsDelivered username doc share =
    (sha256 doc.ciphertext ≡ share.doc_hash) × (share.recipient ≡ username)

-- The key signed the share.
abbrev pub IsShareSigned : List ℕ → Share → Type 0
IsShareSigned sig_pub share =
    (body : List ℕ) × (sig : Signature) × (pack_share_body
        (record share { share_sig = no_signature })
      ≡ ok body)
    × (signature_from_bytes share.share_sig ≡ ok sig)
    × (verify sig_pub body sig ≡ ok true)

-- The private key unwraps the file key from the share, with a tag that is right.
abbrev pub IsUnwrapped : ℕ → Share → List ℕ → Type 0
IsUnwrapped dh_priv share fk =
    (info wrap_key : List ℕ) × (wrap_info share.doc_id share.recipient share.sender ≡ ok info)
    × (shared_key dh_priv share.eph_pub info ≡ ok wrap_key)
    × (decrypt wrap_key share.nonce share.wrapped_fk share.tag [] ≡ ok (some fk))

-- The file key opens the document, header included, with a tag that is right.
abbrev pub IsOpened : List ℕ → ParsedDocument → ParsedPayload → Type 0
IsOpened fk doc payload =
    (plaintext : List ℕ) × (decrypt fk doc.nonce doc.ciphertext doc.tag doc.header_aad
      ≡ ok (some plaintext))
    × (unpack_payload plaintext ≡ ok payload)

-- The key signed the hash of the content.
abbrev pub IsContentSigned : List ℕ → ParsedPayload → Type 0
IsContentSigned sig_pub payload =
    (sig : Signature) × (signature_from_bytes payload.content_sig ≡ ok sig)
    × (verify sig_pub (sha256 payload.content) sig ≡ ok true)

pub check_delivery_inv :
    (username : Text) (doc : ParsedDocument) (share : Share) (u : Unit {0})
    → check_delivery username doc share ≡ ok u
    → IsDelivered username doc share
unfolding check_delivery
check_delivery_inv username doc share u h =
    let (v, first, _) =
      >>=-eq-ok (require (sha256 doc.ciphertext === share.doc_hash) client_error) _ h in
    let second = >>-eq-ok (require (sha256 doc.ciphertext === share.doc_hash) client_error) _ h in
    (
      ===→eq (sha256 doc.ciphertext) share.doc_hash (require-eq-ok _ client_error first),
      ===→eq share.recipient username (require-eq-ok _ client_error second),
    )

passed :
    (m : Outcome Bool) (u : Unit {0})
    → (m >>= λ valid. require valid client_error) ≡ ok u
    → m ≡ ok true
passed m u h =
    let (valid, e, h1) = >>=-eq-ok m _ h in e ∙ ap ok (require-eq-ok valid client_error h1)

pub check_share_sig_inv :
    (sig_pub : List ℕ) (share : Share) (u : Unit {0})
    → check_share_sig sig_pub share ≡ ok u
    → IsShareSigned sig_pub share
unfolding check_share_sig
check_share_sig_inv sig_pub share u h =
    let (body, e1, h1) =
      >>=-eq-ok (pack_share_body (record share { share_sig = no_signature })) _ h in
    let (sig, e2, h2) = >>=-eq-ok (signature_from_bytes share.share_sig) _ h1 in
    (body, sig, e1, e2, passed (verify sig_pub body sig) u h2)

pub opened_inv :
    (o : Option (List ℕ)) {plaintext : List ℕ} → opened o ≡ ok plaintext → o ≡ some plaintext
unfolding opened
opened_inv none h = cc h
opened_inv (some p) h = cc h

pub unwrap_with_inv :
    (dh_priv : ℕ) (share : Share) (fk : List ℕ)
    → unwrap_with dh_priv share ≡ ok fk
    → IsUnwrapped dh_priv share fk
unfolding unwrap_with
unwrap_with_inv dh_priv share fk h =
    let (info, e1, h1) = >>=-eq-ok (wrap_info share.doc_id share.recipient share.sender) _ h in
    let (wrap_key, e2, h2) = >>=-eq-ok (shared_key dh_priv share.eph_pub info) _ h1 in
    let (o, e3, h3) = >>=-eq-ok (decrypt wrap_key share.nonce share.wrapped_fk share.tag []) _ h2 in
    (info, wrap_key, e1, e2, e3 ∙ ap ok (opened_inv o h3))

pub open_document_inv :
    (fk : List ℕ) (doc : ParsedDocument) (payload : ParsedPayload)
    → open_document fk doc ≡ ok payload
    → IsOpened fk doc payload
unfolding open_document
open_document_inv fk doc payload h =
    let (o, e1, h1) = >>=-eq-ok (decrypt fk doc.nonce doc.ciphertext doc.tag doc.header_aad) _ h in
    let (plaintext, e2, h2) = >>=-eq-ok (opened o) _ h1 in
    (plaintext, e1 ∙ ap ok (opened_inv o e2), h2)

pub check_content_sig_inv :
    (sig_pub : List ℕ) (payload : ParsedPayload) (u : Unit {0})
    → check_content_sig sig_pub payload ≡ ok u
    → IsContentSigned sig_pub payload
unfolding check_content_sig
check_content_sig_inv sig_pub payload u h =
    let (sig, e, h1) = >>=-eq-ok (signature_from_bytes payload.content_sig) _ h in
    (sig, e, passed (verify sig_pub (sha256 payload.content) sig) u h1)
