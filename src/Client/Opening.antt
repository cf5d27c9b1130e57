-- ===== src/Client/Opening.antt =====
-- What client/client.py does with the document and the share that a server gave: the file key is
-- unwrapped, the document is opened, and the two signatures are verified.
pub mod Checked
use crypto_project.Base.{
  ℕ, List, [], Option, none, some, ◌===◌, Outcome, ok, raise, require, ◌>>=◌, ◌>>◌, client_error,
}
use crypto_project.Text.{Text}
use crypto_project.Crypto.Sha256.{sha256}
use crypto_project.Crypto.Gcm.{decrypt}
use crypto_project.Crypto.Ecdsa.{verify, signature_from_bytes}
use crypto_project.Crypto.Ecdh.{shared_key}
use crypto_project.Formats.Document.{ParsedDocument}
use crypto_project.Formats.Payload.{ParsedPayload, unpack_payload}
use crypto_project.Formats.Share.{Share, pack_share_body}
use crypto_project.Client.Sealing.{no_signature, wrap_info}

-- `if x is None: raise ClientError`
unfoldable pub opened : Option (List ℕ) → Outcome (List ℕ)
opened none = raise client_error
opened (some plaintext) = ok plaintext

-- `_unwrap_fk`, with our private key
unfoldable pub unwrap_with : ℕ → Share → Outcome (List ℕ)
unwrap_with dh_priv share = do
  info ← wrap_info share.doc_id share.recipient share.sender
  wrap_key ← shared_key dh_priv share.eph_pub info
  fk ← decrypt wrap_key share.nonce share.wrapped_fk share.tag []
  opened fk

-- The tests of `download` on what the server gave, before any signature.
unfoldable pub check_delivery : Text → ParsedDocument → Share → Outcome (Unit {0})
check_delivery username doc share = do
  require (sha256 doc.ciphertext === share.doc_hash) client_error
  require (share.recipient === username) client_error

unfoldable pub check_share_sig : List ℕ → Share → Outcome (Unit {0})
check_share_sig sender_sig_pub share = do
  body ← pack_share_body (record share { share_sig = no_signature })
  sig ← signature_from_bytes share.share_sig
  valid ← verify sender_sig_pub body sig
  require valid client_error

unfoldable pub open_document : List ℕ → ParsedDocument → Outcome ParsedPayload
open_document fk doc = do
  decrypted ← decrypt fk doc.nonce doc.ciphertext doc.tag doc.header_aad
  plaintext ← opened decrypted
  unpack_payload plaintext

unfoldable pub check_content_sig : List ℕ → ParsedPayload → Outcome (Unit {0})
check_content_sig owner_sig_pub payload = do
  sig ← signature_from_bytes payload.content_sig
  valid ← verify owner_sig_pub (sha256 payload.content) sig
  require valid client_error
