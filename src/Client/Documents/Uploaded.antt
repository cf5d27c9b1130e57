-- ===== src/Client/Documents/Uploaded.antt =====
-- What `upload` of client/client.py has sent when it returns.
use mathlib.Core.Path.{subst}
use crypto_project.Base.{
  ℕ, List, [], ◌∷◌, ◌++◌, Option, none, some, Outcome, ok, ok-injective, ◌≡◌, sym, ap, ◌∙◌,
}
use crypto_project.Actions.{◌>>=◌, ◌>>◌, pure, lift, bind_inv, gets_inv, lift_inv}
use crypto_project.Text.{Text, codes}
use crypto_project.Encodings.Base64.{b64encode}
use crypto_project.Encodings.Hex.{hex}
use crypto_project.Crypto.Sha256.{sha256}
use crypto_project.Wire.{MsgType}
use crypto_project.Wire.Json.{Json, Message, get_item}
use crypto_project.Client.Paths.{basename}
use crypto_project.Client.Requests.{upload_payload, share_payload}
use crypto_project.Client.Session.{
  Runtime, World, rpc, expect, contents_of, read_file, signer, sign_text,
}
use crypto_project.Client.Session.Steps.{sent_after}
use crypto_project.Client.Sealing.{ShareDraws, UploadDraws, make_share, seal_document}
use crypto_project.Client.Documents.{
  share_canonical, send_share, uploader, store_self_share, upload,
}

abbrev pub upload_request : Text → UploadDraws → List ℕ → List ℕ → Message
upload_request username draws blob req_sig =
    (MsgType.upload, upload_payload username blob (b64encode draws.nonce) req_sig)

abbrev pub share_request : Text → Text → ShareDraws → Text → List ℕ → List ℕ → Message
share_request username recipient draws doc_id_hex share_blob req_sig = (
  MsgType.share,
  share_payload username recipient doc_id_hex share_blob (b64encode draws.nonce) req_sig,
)

-- The world after one more request.
abbrev pub after_sending : World → Message → World
after_sending w m = record w { sent = w.sent ++ (m ∷ []) }

send_share_inv :
    (rt : Runtime) (draws : ShareDraws) (me : Text × ℕ) (recipient doc_id_hex : Text)
    (share_blob : List ℕ) (w t : World) (u : Unit {0})
    → send_share rt draws me recipient doc_id_hex share_blob w ≡ (ok u, t)
    → (req_sig : List ℕ) × (sign_text rt me.1
          (share_canonical me.0 doc_id_hex recipient (b64encode draws.nonce))
        ≡ ok req_sig)
      × (t ≡ after_sending w (share_request me.0 recipient draws doc_id_hex share_blob req_sig))
unfolding send_share pure
send_share_inv rt draws me recipient doc_id_hex share_blob w t u h =
    let (req_sig, signed, h1) = lift_inv _ _ u w t h in
    let request =
      share_payload me.0 recipient doc_id_hex share_blob (b64encode draws.nonce) req_sig in
    let (reply, v, asked, h2) = bind_inv (rpc rt MsgType.share request) _ u w t h1 in
    let (_, _, h3) = lift_inv (expect MsgType.ok_reply reply) _ u v t h2 in
    (
      req_sig,
      signed,
      sym (ap (λ x. x.1) h3) ∙ sym (sent_after rt MsgType.share request reply w v asked),
    )

store_self_share_inv :
    (rt : Runtime) (draws : ShareDraws) (doc_id ct fk : List ℕ) (version : ℕ) (w t : World)
    (u : Unit {0})
    → store_self_share rt draws doc_id ct fk version w ≡ (ok u, t)
    → (me : (Text × ℕ) × List ℕ) × (share_blob req_sig : List ℕ) × (uploader w ≡ ok me)
      × (make_share rt draws me.0 me.0.0 me.1 doc_id version (sha256 ct) fk ≡ ok share_blob)
      × (t ≡ after_sending w (share_request me.0.0 me.0.0 draws (hex doc_id) share_blob req_sig))
unfolding store_self_share
store_self_share_inv rt draws doc_id ct fk version w t u h =
    let (me, is_me, h1) = gets_inv uploader _ u w t h in
    let (share_blob, made, h2) =
      lift_inv (make_share rt draws me.0 me.0.0 me.1 doc_id version (sha256 ct) fk) _ u w t h1 in
    let (req_sig, _, last) = send_share_inv rt draws me.0 me.0.0 (hex doc_id) share_blob w t u h2 in
    (me, share_blob, req_sig, is_me, made, last)

contents_of_inv : (o : Option (List ℕ)) (c : List ℕ) → contents_of o ≡ ok c → o ≡ some c
unfolding contents_of
contents_of_inv none c h = cc h
contents_of_inv (some d) c h = cc h

given_inv : {A : Type 0} (m : Outcome A) (a : A) (x t : World) → lift m x ≡ (ok a, t) → x ≡ t
unfolding lift
given_inv m a x t h = ap (λ y. y.1) h

same_uploader :
    (w v : World) (m : Message) (me me2 : (Text × ℕ) × List ℕ)
    → after_sending w m ≡ v
    → uploader w ≡ ok me
    → uploader v ≡ ok me2
    → me2 ≡ me
unfolding uploader signer
same_uploader w v m me me2 is_v is_me is_me2 =
    ok-injective (sym is_me2 ∙ ap uploader (sym is_v) ∙ is_me)

-- The self-share of a known user.
self_share_of :
    (rt : Runtime) (draws : ShareDraws) (doc_id ct fk : List ℕ) (version : ℕ) (w v t : World)
    (m : Message) (me : (Text × ℕ) × List ℕ) (u : Unit {0})
    → uploader w ≡ ok me
    → after_sending w m ≡ v
    → store_self_share rt draws doc_id ct fk version v ≡ (ok u, t)
    → (share_blob req_sig : List ℕ) × (make_share rt draws me.0 me.0.0 me.1 doc_id version
          (sha256 ct)
          fk
        ≡ ok share_blob)
      × (t
          ≡ after_sending
              (after_sending w m)
              (share_request me.0.0 me.0.0 draws (hex doc_id) share_blob req_sig))
self_share_of rt draws doc_id ct fk version w v t m me u is_me is_v h =
    let (me2, share_blob, req_sig, is_me2, made, last) =
      store_self_share_inv rt draws doc_id ct fk version v t u h in
    let same : me2 ≡ me = same_uploader w v m me me2 is_v is_me is_me2 in
    (
      share_blob,
      req_sig,
      subst (λ x. make_share rt draws x.0 x.0.0 x.1 doc_id version (sha256 ct) fk ≡ ok share_blob)
          same made,
      last
          ∙ ap
              (λ x.
                after_sending v (share_request x.0.0 x.0.0 draws (hex doc_id) share_blob req_sig))
              same
          ∙ ap
              (λ x.
                after_sending x (share_request me.0.0 me.0.0 draws (hex doc_id) share_blob req_sig))
              (sym is_v),
    )

-- What follows the signing of the request.
finish_inv :
    (rt : Runtime) (draws : UploadDraws) (me : (Text × ℕ) × List ℕ) (blob ct req_sig : List ℕ)
    (w t : World) (id : Json)
    → uploader w ≡ ok me
    → (rpc rt MsgType.upload (upload_payload me.0.0 blob (b64encode draws.nonce) req_sig)
          >>= λ answer. lift (expect MsgType.ok_reply answer) >>= λ reply.
              store_self_share rt draws.self_share draws.doc_id ct draws.file_key 1
              >> lift (get_item (codes "doc_id") reply))
        w
      ≡ (ok id, t)
    → (share_blob share_req_sig : List ℕ) × (make_share rt draws.self_share me.0 me.0.0 me.1
          draws.doc_id 1
          (sha256 ct)
          draws.file_key
        ≡ ok share_blob)
      × (t
          ≡ after_sending (after_sending w (upload_request me.0.0 draws blob req_sig)) (
              share_request me.0.0 me.0.0 draws.self_share
                (hex draws.doc_id)
                share_blob
                share_req_sig))
finish_inv rt draws me blob ct req_sig w t id is_me h =
    let request = upload_payload me.0.0 blob (b64encode draws.nonce) req_sig in
    let (answer, v, asked, h1) = bind_inv (rpc rt MsgType.upload request) _ id w t h in
    let (reply, _, h2) = lift_inv (expect MsgType.ok_reply answer) _ id v t h1 in
    let (u, x, stored, h3) =
      bind_inv (store_self_share rt draws.self_share draws.doc_id ct draws.file_key 1) _ id v t
        h2 in
    let last : x ≡ t = given_inv (get_item (codes "doc_id") reply) id x t h3 in
    self_share_of rt draws.self_share draws.doc_id ct draws.file_key 1 w v t
      (MsgType.upload, request) me u is_me (sent_after rt MsgType.upload request answer w v asked)
      (subst
        (λ y. store_self_share rt draws.self_share draws.doc_id ct draws.file_key 1 v ≡ (ok u, y))
        last stored)

-- When `upload` returns, two requests have been sent and no file or field of the client has changed:
-- the document that it makes of the file's content, and then a share of that document's file key
-- from the user to the user.
pub upload-sends :
    (rt : Runtime) (draws : UploadDraws) (file_path : Text) (w t : World) (id : Json)
    → upload rt draws file_path w ≡ (ok id, t)
    → (me : (Text × ℕ) × List ℕ) × (content blob ct req_sig share_blob share_req_sig : List ℕ)
      × (uploader w ≡ ok me)
      × (w.disk file_path ≡ some content)
      × (seal_document rt draws me.0 (basename file_path) content ≡ ok (blob, ct))
      × (make_share rt draws.self_share me.0 me.0.0 me.1 draws.doc_id 1 (sha256 ct) draws.file_key
          ≡ ok share_blob)
      × (t
          ≡ after_sending (after_sending w (upload_request me.0.0 draws blob req_sig)) (
              share_request me.0.0 me.0.0 draws.self_share
                (hex draws.doc_id)
                share_blob
                share_req_sig))
unfolding upload read_file
upload-sends rt draws file_path w t id h =
    let (_, _, h1) = gets_inv _ _ id w t h in
    let (me, is_me, h2) = gets_inv uploader _ id w t h1 in
    let (content, there, h3) = gets_inv (read_file file_path) _ id w t h2 in
    let ((blob, ct), sealed, h4) =
      lift_inv (seal_document rt draws me.0 (basename file_path) content) _ id w t h3 in
    let (req_sig, _, h5) = lift_inv _ _ id w t h4 in
    let (share_blob, share_req_sig, made, last) =
      finish_inv rt draws me blob ct req_sig w t id is_me h5 in
    (
      me,
      content,
      blob,
      ct,
      req_sig,
      share_blob,
      share_req_sig,
      is_me,
      contents_of_inv (w.disk file_path) content there,
      sealed,
      made,
      last,
    )
