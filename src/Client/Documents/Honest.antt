-- ===== src/Client/Documents/Honest.antt =====
-- What client/client.py does with an answer as server/server.py gives it: `_fetch_doc` reads what the
-- server has stored, and a document of our own is downloaded.
use crypto_project.Base.{
  ℕ, List, [], ◌∷◌, ◌++◌, some, ◌===◌, ===_refl, ===_iff, ok, ◌≡◌, refl, ap, ◌∙◌,
}
use crypto_project.Actions.{Action, ◌>>=◌, pure, lift, gets, gets_ok, lift_ok, bind_ok}
use crypto_project.Actions as Actions
use crypto_project.Bytes.{IsBytes}
use crypto_project.Text.{Text}
use crypto_project.Encodings.Base64.{b64encode, b64decode-b64encode}
use crypto_project.Crypto.Sha256.{sha256}
use crypto_project.Formats.Document.{ParsedDocument, unpack_document}
use crypto_project.Formats.Payload.{ParsedPayload}
use crypto_project.Formats.Share.{Share, unpack_share}
use crypto_project.Wire.{MsgType, msg_code}
use crypto_project.Wire.Json.{get_item, Message}
use crypto_project.Server.Service.{Problem, document_reply}
use crypto_project.Server.Replies.{message_of, or_null}
use crypto_project.Client.Disk.{Disk, write_file}
use crypto_project.Client.TrustStore.{TrustStore}
use crypto_project.Client.Requests.{download_payload}
use crypto_project.Client.Session.{
  Runtime, World, received, rpc, expect, decode_b64, bytes_at, get, logged_in, require_login,
  present, signer, holder, sign_text,
}
use crypto_project.Client.Session.Steps.{holder_inv, write_files_ok}
use crypto_project.Client.Contacts.{is_self, own_pubkey, get_verified_pubkey}
use crypto_project.Client.Opening.{
  unwrap_with, check_delivery, check_share_sig, open_document, check_content_sig,
}
use crypto_project.Client.Opening.Checked.{IsDelivered}
use crypto_project.Client.Documents.{
  download_canonical, share_of, fetch_doc, unwrap_fk, open_verified, download,
}

-- Where the client signs for a user, the request can be signed and the peer answers it with the message
-- in which the server sends a stored document and a stored share, `_fetch_doc` returns the two.
pub fetch_doc-served :
    (rt : Runtime) (nonce : List ℕ) (doc_id_hex : Text) (w : World) (me : Text × ℕ)
    (req_sig doc_blob share_blob : List ℕ) (text_of : Problem → Text) (success : Text)
    → signer w ≡ ok me
    → sign_text rt me.1 (download_canonical me.0 doc_id_hex (b64encode nonce)) ≡ ok req_sig
    → rt.peer (
        w.sent
        ++ ((MsgType.get_doc, download_payload me.0 doc_id_hex (b64encode nonce) req_sig) ∷ []))
      ≡ ok (
          message_of text_of success
            (document_reply (b64encode doc_blob) (some (b64encode share_blob))))
    → IsBytes doc_blob
    → IsBytes share_blob
    → fetch_doc rt nonce doc_id_hex w ≡ (
      ok (doc_blob, share_blob),
      record w {
        sent =
            w.sent
            ++ ((MsgType.get_doc, download_payload me.0 doc_id_hex (b64encode nonce) req_sig) ∷ []);
      },
    )
unfolding fetch_doc rpc received expect bytes_at decode_b64 get share_of message_of or_null get_item
    gets lift pure Actions.◌>>=◌ msg_code ◌===◌
fetch_doc-served rt nonce doc_id_hex w me req_sig doc_blob share_blob text_of success signs signed
      answers doc_bytes share_bytes =
    rw
      (
        signs,
        signed,
        answers,
        b64decode-b64encode doc_blob doc_bytes,
        b64decode-b64encode share_blob share_bytes,
      )
      refl

own_keys :
    (rt : Runtime) (username : Text) (w : World) (store : TrustStore) (keys : List ℕ × List ℕ)
    → w.client.trust ≡ some store
    → w.client.username ≡ some username
    → own_pubkey w ≡ ok keys
    → get_verified_pubkey rt username w ≡ (ok keys, w)
unfolding get_verified_pubkey gets Actions.◌>>=◌ present is_self own_pubkey
own_keys rt username w store keys there user own = rw (there, user, ===_refl username, own) refl

delivered_ok :
    (username : Text) (doc : ParsedDocument) (share : Share)
    → IsDelivered username doc share
    → check_delivery username doc share ≡ ok tt
unfolding check_delivery
delivered_ok username doc share h =
    rw
      (
        (===_iff (sha256 doc.ciphertext) share.doc_hash).1 h.0,
        (===_iff share.recipient username).1 h.1,
      )
      refl

required :
    (w : World) (username : Text)
    → w.client.username ≡ some username
    → require_login w ≡ ok username
unfolding require_login logged_in
required w username h = rw h refl

unwrapped_ok :
    (share : Share) (w : World) (me : Text × ℕ) (fk : List ℕ)
    → holder w ≡ ok me
    → unwrap_with me.1 share ≡ ok fk
    → unwrap_fk share w ≡ ok fk
unfolding unwrap_fk
unwrapped_ok share w me fk h unwraps = rw h unwraps

module _ (rt : Runtime) (doc : ParsedDocument) (share : Share) (payload : ParsedPayload)
    (me : Text × ℕ) (keys : List ℕ × List ℕ) (fk : List ℕ) (store : TrustStore) where
  -- Our own document and share pass every check of the last half of `download`.
  open_verified-own :
      (w : World)
      → holder w ≡ ok me
      → w.client.trust ≡ some store
      → own_pubkey w ≡ ok keys
      → share.sender ≡ me.0
      → doc.header.owner ≡ me.0
      → check_share_sig keys.0 share ≡ ok tt
      → unwrap_with me.1 share ≡ ok fk
      → open_document fk doc ≡ ok payload
      → check_content_sig keys.0 payload ≡ ok tt
      → open_verified rt doc share w ≡ (ok payload, w)
  unfolding open_verified pure
  open_verified-own w holds there own sender owner signed unwraps opens content =
      let known : (name : Text) → name ≡ me.0 → get_verified_pubkey rt name w ≡ (ok keys, w) =
        λ name same.
          ap (λ x. get_verified_pubkey rt x w) same
          ∙ own_keys rt me.0 w store keys there (holder_inv w me holds).0 own in
      bind_ok (get_verified_pubkey rt share.sender) _ w w keys (known share.sender sender)
      ∙ lift_ok (check_share_sig keys.0 share) _ w tt signed
      ∙ gets_ok (unwrap_fk share) _ w fk (unwrapped_ok share w me fk holds unwraps)
      ∙ lift_ok (open_document fk doc) _ w payload opens
      ∙ bind_ok (get_verified_pubkey rt doc.header.owner) _ w w keys (known doc.header.owner owner)
      ∙ lift_ok (check_content_sig keys.0 payload) _ w tt content

  -- Our own document and share pass every check of `download`, which then writes the content.
  pub download-own :
      (nonce : List ℕ) (doc_id_hex save_path : Text) (w : World) (doc_blob share_blob : List ℕ)
      (sent : List Message) (d : Disk)
      → holder w ≡ ok me
      → w.client.trust ≡ some store
      → own_pubkey w ≡ ok keys
      → fetch_doc rt nonce doc_id_hex w ≡ (ok (doc_blob, share_blob), record w { sent = sent })
      → unpack_document doc_blob ≡ ok doc
      → unpack_share share_blob ≡ ok share
      → IsDelivered me.0 doc share
      → share.sender ≡ me.0
      → doc.header.owner ≡ me.0
      → check_share_sig keys.0 share ≡ ok tt
      → unwrap_with me.1 share ≡ ok fk
      → open_document fk doc ≡ ok payload
      → check_content_sig keys.0 payload ≡ ok tt
      → write_file rt.faults save_path payload.content w.disk ≡ (ok tt, d)
      → download rt nonce doc_id_hex save_path w ≡ (ok me.0, record w { sent = sent; disk = d })
  unfolding download pure holder own_pubkey
  download-own nonce doc_id_hex save_path w doc_blob share_blob sent d holds there own fetched
        unpacked unshared delivered sender owner signed unwraps opens content writes =
      let v : World = record w { sent = sent } in
      gets_ok require_login _ w me.0 (required w me.0 (holder_inv w me holds).0)
      ∙ gets_ok holder _ w me holds
      ∙ bind_ok (fetch_doc rt nonce doc_id_hex) _ w v (doc_blob, share_blob) fetched
      ∙ lift_ok (unpack_document doc_blob) _ v doc unpacked
      ∙ lift_ok (unpack_share share_blob) _ v share unshared
      ∙ lift_ok (check_delivery me.0 doc share) _ v tt (delivered_ok me.0 doc share delivered)
      ∙ bind_ok (open_verified rt doc share) _ v v payload
          (open_verified-own v holds there own sender owner signed unwraps opens content)
      ∙ write_files_ok (write_file rt.faults save_path payload.content) _ v d writes
      ∙ ap (λ n. (ok n, record w { sent = sent; disk = d })) owner
