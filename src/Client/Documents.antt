-- ===== src/Client/Documents.antt =====
-- The operations of client/client.py on documents: upload, share and download. What `os.urandom`,
-- the key generation and the clock give to each is an argument.
pub mod Verified
pub mod Failed
pub mod LoggedOut
pub mod Honest
pub mod RoundTrip
pub mod Uploaded
use crypto_project.Base.{
  ℕ, List, ◌++◌, Option, none, some, ◌===◌, Outcome, ok, raise, require, client_error,
}
use crypto_project.Base as Base
use crypto_project.Actions.{Action, ◌>>=◌, ◌>>◌, pure, lift, gets}
use crypto_project.Text.{Text, codes}
use crypto_project.Encodings.Base64.{b64encode}
use crypto_project.Encodings.Hex.{hex, fromhex}
use crypto_project.Crypto.Sha256.{sha256}
use crypto_project.Formats.Document.{ParsedDocument, unpack_document}
use crypto_project.Formats.Payload.{ParsedPayload}
use crypto_project.Formats.Share.{Share, unpack_share}
use crypto_project.Wire.{MsgType}
use crypto_project.Wire.Json.{Json, get_item}
use crypto_project.Client.Disk.{write_file}
use crypto_project.Client.Paths.{basename}
use crypto_project.Client.Requests.{upload_payload, share_payload, download_payload}
use crypto_project.Client.Contacts.{get_verified_pubkey}
use crypto_project.Client.Sealing.{ShareDraws, UploadDraws, make_share, seal_document}
use crypto_project.Client.Opening.{
  unwrap_with, check_delivery, check_share_sig, open_document, check_content_sig,
}
use crypto_project.Client.Session.{
  Runtime, World, write_files, read_file, rpc, expect, decode_b64, bytes_at, get, require_login,
  present, signer, holder, sign_text,
}

-- The texts that are signed for the requests.
unfoldable pub upload_canonical : Text → Text → Text
upload_canonical username nonce_b64 = codes "upload:" ++ (username ++ (codes ":" ++ nonce_b64))

unfoldable pub share_canonical : Text → Text → Text → Text → Text
share_canonical username doc_id_hex recipient nonce_b64 =
    codes "share:"
    ++ (username
        ++ (codes ":" ++ (doc_id_hex ++ (codes ":" ++ (recipient ++ (codes ":" ++ nonce_b64))))))

unfoldable pub download_canonical : Text → Text → Text → Text
download_canonical username doc_id_hex nonce_b64 =
    codes "download:" ++ (username ++ (codes ":" ++ (doc_id_hex ++ (codes ":" ++ nonce_b64))))

-- The request of `share` and of `_store_self_share`.
unfoldable pub send_share :
    Runtime → ShareDraws → Text × ℕ → Text → Text → List ℕ → Action World (Unit {0})
send_share rt draws me recipient doc_id_hex share_blob = do
  let nonce_b64 = b64encode draws.nonce
  req_sig ← lift (sign_text rt me.1 (share_canonical me.0 doc_id_hex recipient nonce_b64))
  reply ←
      rpc rt MsgType.share (share_payload me.0 recipient doc_id_hex share_blob nonce_b64 req_sig)
  _ ← lift (expect MsgType.ok_reply reply)
  pure tt

-- `assert self.username and self.sig_priv is not None and self.dh_pub_bytes is not None`
unfoldable pub uploader : World → Outcome ((Text × ℕ) × List ℕ)
uploader w =
    Base.◌>>=◌ (signer w)
      (λ me. Base.◌>>=◌ (present w.client.dh_pub_bytes) (λ dh_pub. ok (me, dh_pub)))

unfoldable pub store_self_share :
    Runtime → ShareDraws → List ℕ → List ℕ → List ℕ → ℕ → Action World (Unit {0})
store_self_share rt draws doc_id ciphertext fk version = do
  me ← gets uploader
  share_blob ← lift (make_share rt draws me.0 me.0.0 me.1 doc_id version (sha256 ciphertext) fk)
  send_share rt draws me.0 me.0.0 (hex doc_id) share_blob

unfoldable pub upload : Runtime → UploadDraws → Text → Action World Json
upload rt draws file_path = do
  _ ← gets require_login
  me ← gets uploader
  content ← gets (read_file file_path)
  document ← lift (seal_document rt draws me.0 (basename file_path) content)
  let nonce_b64 = b64encode draws.nonce
  req_sig ← lift (sign_text rt me.0.1 (upload_canonical me.0.0 nonce_b64))
  answer ← rpc rt MsgType.upload (upload_payload me.0.0 document.0 nonce_b64 req_sig)
  reply ← lift (expect MsgType.ok_reply answer)
  store_self_share rt draws.self_share draws.doc_id document.1 draws.file_key 1
  lift (get_item (codes "doc_id") reply)

-- `share_b64 = reply.get("share")`, and what is done with it
unfoldable pub share_of : Option Json → Outcome (List ℕ)
share_of none = raise client_error
share_of (some share_b64) = decode_b64 share_b64

-- `_fetch_doc`
unfoldable pub fetch_doc : Runtime → List ℕ → Text → Action World (List ℕ × List ℕ)
fetch_doc rt nonce doc_id_hex = do
  me ← gets signer
  let nonce_b64 = b64encode nonce
  req_sig ← lift (sign_text rt me.1 (download_canonical me.0 doc_id_hex nonce_b64))
  answer ← rpc rt MsgType.get_doc (download_payload me.0 doc_id_hex nonce_b64 req_sig)
  reply ← lift (expect MsgType.doc answer)
  doc_blob ← lift (bytes_at (codes "document") reply)
  share_blob ← lift (share_of (get (codes "share") reply))
  pure (doc_blob, share_blob)

unfoldable pub unwrap_fk : Share → World → Outcome (List ℕ)
unwrap_fk share w = Base.◌>>=◌ (holder w) (λ me. unwrap_with me.1 share)

unfoldable pub share : Runtime → List ℕ → ShareDraws → Text → Text → Action World (Unit {0})
share rt nonce draws doc_id_hex recipient = do
  _ ← gets require_login
  me ← gets signer
  keys ← get_verified_pubkey rt recipient
  blobs ← fetch_doc rt nonce doc_id_hex
  doc ← lift (unpack_document blobs.0)
  our_share ← lift (unpack_share blobs.1)
  fk ← gets (unwrap_fk our_share)
  lift (require (sha256 doc.ciphertext === our_share.doc_hash) client_error)
  doc_id ← lift (fromhex doc_id_hex)
  share_blob ←
      lift (
        make_share rt draws me recipient keys.1 doc_id doc.header.version (sha256 doc.ciphertext)
          fk)
  send_share rt draws me recipient doc_id_hex share_blob

-- What `download` does with a document and a share that are for us, up to the last signature.
unfoldable pub open_verified : Runtime → ParsedDocument → Share → Action World ParsedPayload
open_verified rt doc our_share = do
  sender ← get_verified_pubkey rt our_share.sender
  lift (check_share_sig sender.0 our_share)
  fk ← gets (unwrap_fk our_share)
  payload ← lift (open_document fk doc)
  owner ← get_verified_pubkey rt doc.header.owner
  lift (check_content_sig owner.0 payload)
  pure payload

unfoldable pub download : Runtime → List ℕ → Text → Text → Action World Text
download rt nonce doc_id_hex save_path = do
  _ ← gets require_login
  me ← gets holder
  blobs ← fetch_doc rt nonce doc_id_hex
  doc ← lift (unpack_document blobs.0)
  our_share ← lift (unpack_share blobs.1)
  lift (check_delivery me.0 doc our_share)
  payload ← open_verified rt doc our_share
  write_files (write_file rt.faults save_path payload.content)
  pure doc.header.owner
