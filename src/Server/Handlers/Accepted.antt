-- ===== src/Server/Handlers/Accepted.antt =====
-- When the signed requests of server/server.py are answered with something else than an error, and
-- what they change then.
use crypto_project.Base.{
  ok-injective, ℕ, Bool, true, false, ◌&&◌, not, List, Option, none, some, ◌===◌, ===→eq, ===_refl,
  Bool-cases, inl, inr, ◌⊎◌, Outcome, ok, ◌≡◌, ◌↔◌, refl, sym, ap,
}
use crypto_project.Text.{Text}
use crypto_project.Encodings.Base64.{b64encode}
use crypto_project.Encodings.Hex.{hex, fromhex}
use crypto_project.Formats.Document.{ParsedDocument, unpack_document}
use crypto_project.Wire.Json.{Fields}
use crypto_project.Server.Session.{SessionState, payload_upload, payload_download}
use crypto_project.Server.Db.{
  ServerDb, DocumentRecord, ShareRecord, create_document, get_document, get_share,
}
use crypto_project.Server.Access.{authenticate}
use crypto_project.Server.Requests.{UploadRequest, read_upload, GetDocRequest, read_get_doc}
use crypto_project.Server.Service.{
  Server, Reply, uploaded, document_reply, ◌>>=◌, pure, query, execute, attempt, execute_or,
  authenticated,
}
use crypto_project.Server.Handlers.{
  document_row, store_document, upload, is_none, blob_of, deliver, fetch, serve_document, get_doc,
}
use crypto_project.Server.Handlers.Steps.{
  is_error, error-fails, attempt_inv, authenticated_inv, query_inv, execute_or_inv,
}

store_document_inv :
    (q : UploadRequest) (r : Reply) (s t : Server)
    → is_error r ≡ false
    → store_document q s ≡ (ok r, t)
    → (parsed : ParsedDocument) × (db : ServerDb) × (unpack_document q.document ≡ ok parsed)
      × (parsed.header.owner ≡ q.owner)
      × (create_document (document_row parsed q.document) s.db ≡ ok db)
      × (r ≡ uploaded (hex parsed.header.doc_id))
      × (t ≡ record s { db = db })
unfolding store_document pure
store_document_inv q r s t f h =
    let (parsed, read, h1) = attempt_inv _ _ _ _ r s t f h in
    elim (Bool-cases (parsed.header.owner === q.owner)) [
      | inl same ↦
          let (db, made, reply, left) = execute_or_inv _ _ _ r s t f (rw same at h1) in
          (parsed, db, read, ===→eq _ _ same, made, reply, left)
      | inr other ↦ absurd (error-fails _ r s t f (rw other at h1))
    ]

-- An upload that is stored, from the request to the server it leaves.
pub record IsUploaded (p : Fields) (s : Server) (id : Text) (t : Server) : Type 0 where
  pub request : UploadRequest
  pub session : SessionState
  pub parsed : ParsedDocument
  pub db : ServerDb
  pub is_read : read_upload p ≡ ok request
  pub is_signed :
      authenticate s.db request.owner
        (payload_upload request.owner request.request_nonce)
        request.request_signature
        request.request_nonce
        s.session
      ≡ ok (none, session)
  pub is_document : unpack_document request.document ≡ ok parsed
  pub is_own : parsed.header.owner ≡ request.owner
  pub is_new : create_document (document_row parsed request.document) s.db ≡ ok db
  pub is_id : id ≡ hex parsed.header.doc_id
  pub is_left : t ≡ record s { db = db; session = session }

uploaded-injective : {i j : Text} → uploaded i ≡ uploaded j → i ≡ j
uploaded-injective h = cc h

-- An upload is confirmed exactly if the request can be read, its signature and nonce pass for the
-- user it names, its document parses, names that user as the owner, and has a row that the table
-- accepts; the reply is then the document's id in hex, and the server has that row and the used
-- nonce and is otherwise unchanged.
pub upload_iff :
    (p : Fields) (id : Text) (s t : Server)
    → (upload p s ≡ (ok (uploaded id), t)) ↔ IsUploaded p s id t
unfolding upload
upload_iff p id s t = (
  λ h.
      let (q, read, h1) = attempt_inv _ _ _ _ (uploaded id) s t refl h in
      let (session, signed, h2) = authenticated_inv _ _ _ _ _ (uploaded id) s t refl h1 in
      let (parsed, db, document, own, made, reply, left) =
        store_document_inv q (uploaded id) _ t refl h2 in
      record {
        request = q;
        session = session;
        parsed = parsed;
        db = db;
        is_read = read;
        is_signed = signed;
        is_document = document;
        is_own = own;
        is_new = made;
        is_id = uploaded-injective reply;
        is_left = left;
      },
  λ u.
      let own : (u.parsed.header.owner === u.request.owner) ≡ true =
        rw u.is_own (===_refl u.request.owner) in
      unfold attempt authenticated store_document execute_or execute in
      rw (u.is_read, u.is_signed, u.is_document, own, u.is_new, u.is_id, u.is_left),
)

fetch_inv :
    (user : Text) (id : List ℕ) (found : Option DocumentRecord) (r : Reply) (s t : Server)
    → is_error r ≡ false
    → fetch user id found s ≡ (ok r, t)
    → (doc : DocumentRecord) × (share : Option ShareRecord) × (found ≡ some doc)
      × (get_share id user s.db ≡ ok share)
      × ((not (doc.owner === user) && is_none share) ≡ false)
      × (r ≡ document_reply (b64encode doc.blob) (blob_of share))
      × (t ≡ s)
unfolding fetch pure deliver
fetch_inv user id none r s t f h = absurd (error-fails _ r s t f h)
fetch_inv user id (some doc) r s t f h =
    let (share, read, h1) = query_inv _ _ r s t h in
    elim (Bool-cases (not (doc.owner === user) && is_none share)) [
      | inl shut ↦ absurd (error-fails _ r s t f (rw shut at h1))
      | inr allowed ↦
          let h2 : ◌≡◌ {A = Outcome Reply × Server}
              (ok (document_reply (b64encode doc.blob) (blob_of share)), s) (ok r, t) =
            rw allowed at h1 in
          (doc, share, refl, read, allowed, cc (ap (λ x. x.0) h2), sym (ap (λ x. x.1) h2))
    ]

-- A document that is handed out, and to whom.
pub record IsFetched (p : Fields) (s : Server) (document : Text) (share_blob : Option Text)
    (t : Server) : Type 0 where
  pub request : GetDocRequest
  pub session : SessionState
  pub id : List ℕ
  pub row : DocumentRecord
  pub share : Option ShareRecord
  pub is_read : read_get_doc p ≡ ok request
  pub is_signed :
      authenticate s.db request.user
        (payload_download request.user request.doc_id request.request_nonce)
        request.request_signature
        request.request_nonce
        s.session
      ≡ ok (none, session)
  pub is_id : fromhex request.doc_id ≡ ok id
  pub is_row : get_document id s.db ≡ some row
  pub is_share : get_share id request.user s.db ≡ ok share
  pub is_allowed : ((row.owner === request.user) ≡ true) ⊎ ((r : ShareRecord) × (share ≡ some r))
  pub is_document : document ≡ b64encode row.blob
  pub is_blob : share_blob ≡ blob_of share
  pub is_left : t ≡ record s { session = session }

allowed_cases :
    (own : Bool) (share : Option ShareRecord)
    → ((not own && is_none share) ≡ false) ↔ ((own ≡ true) ⊎ ((r : ShareRecord) × (share ≡ some r)))
unfolding is_none
allowed_cases true share = (λ h. inl refl, λ h. refl)
allowed_cases false none =
    (λ h. absurd (cc h), λ c. elim c [ inl e ↦ absurd (cc e) | inr (r, e) ↦ absurd (cc e) ])
allowed_cases false (some r) = (λ h. inr (r, refl), λ h. refl)

serve_document_inv :
    (q : GetDocRequest) (r : Reply) (s t : Server)
    → is_error r ≡ false
    → serve_document q s ≡ (ok r, t)
    → (id : List ℕ) × (fromhex q.doc_id ≡ ok id)
      × (fetch q.user id (get_document id s.db) s ≡ (ok r, t))
unfolding serve_document
serve_document_inv q r s t f h =
    let (id, hexed, h1) = attempt_inv _ _ _ _ r s t f h in
    let (found, looked, h2) = query_inv _ _ r s t h1 in (id, hexed, rw (ok-injective looked) h2)

reply-injective :
    {a b : Text} {x y : Option Text} → document_reply a x ≡ document_reply b y → (a ≡ b) × (x ≡ y)
reply-injective h = (cc h, cc h)

-- A document is handed out exactly if the request can be read, its signature and nonce pass for
-- the user it names, the id is hex, a document has that id, and the user is its owner or has a
-- share of it; the reply is the blob that is stored, with the blob of the user's share if there is
-- one, and the server is unchanged but for the used nonce.
pub get_doc_iff :
    (p : Fields) (document : Text) (share_blob : Option Text) (s t : Server)
    → (get_doc p s ≡ (ok (document_reply document share_blob), t))
      ↔ IsFetched p s document share_blob t
unfolding get_doc
get_doc_iff p document share_blob s t = (
  λ h.
      let (q, read, h1) = attempt_inv _ _ _ _ (document_reply document share_blob) s t refl h in
      let (session, signed, h2) =
        authenticated_inv _ _ _ _ _ (document_reply document share_blob) s t refl h1 in
      let (id, hexed, h3) = serve_document_inv q (document_reply document share_blob) _ t refl h2 in
      let (row, share, is_row, is_share, allowed, reply, left) =
        fetch_inv q.user id (get_document id s.db) (document_reply document share_blob) _ t refl
          h3 in
      let (same, blob) = reply-injective reply in
      record {
        request = q;
        session = session;
        id = id;
        row = row;
        share = share;
        is_read = read;
        is_signed = signed;
        is_id = hexed;
        is_row = is_row;
        is_share = is_share;
        is_allowed = (allowed_cases (row.owner === q.user) share).0 allowed;
        is_document = same;
        is_blob = blob;
        is_left = left;
      },
  λ u.
      let allowed = (allowed_cases (u.row.owner === u.request.user) u.share).1 u.is_allowed in
      unfold attempt authenticated serve_document ◌>>=◌ query fetch pure deliver in
      rw (
        u.is_read, u.is_signed, u.is_id, u.is_row, u.is_share, allowed, u.is_document, u.is_blob,
        u.is_left,
      ),
)
