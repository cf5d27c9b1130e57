-- ===== src/Server/Handlers/Shared.antt =====
-- When a share is stored by `share` of server/server.py.
use crypto_project.Base.{
  ok-injective, ℕ, Bool, true, false, ◌&&◌, List, length, Option, none, some, ◌===◌, ===→eq,
  ===_refl, ◌==◌, ==_iff, Bool-cases, inl, inr, Outcome, ok, raise, ◌≡◌, ◌↔◌, refl, sym, ap, ◌∙◌,
}
use crypto_project.Encodings.Hex.{fromhex}
use crypto_project.Formats.Document.{doc_id_len}
use crypto_project.Formats.Share.{Share, unpack_share}
use crypto_project.Wire.Json.{Fields}
use crypto_project.Server.Session.{SessionState, payload_share}
use crypto_project.Server.Db.{
  ServerDb, UserRecord, DocumentRecord, get_user, get_document, create_or_replace_share,
}
use crypto_project.Server.Access.{authenticate}
use crypto_project.Server.Requests.{ShareRequest, read_share_request}
use crypto_project.Server.Service.{
  Server, done, then_run, ◌>>=◌, pure, query, stored, execute, attempt, authenticated,
}
use crypto_project.Server.Handlers.{is_none, share_row, insert_share, store_share, share}
use crypto_project.Server.Handlers.Steps.{error-fails, attempt_inv, authenticated_inv, query_inv}

is_none-some : {A : Type 0} (o : Option A) → is_none o ≡ false → (a : A) × (o ≡ some a)
unfolding is_none
is_none-some none h = cc h
is_none-some (some a) h = (a, refl)

execute_inv :
    (f : ServerDb → Outcome ServerDb) (s t : Server)
    → (execute f >>= λ _. pure done) s ≡ (ok done, t)
    → (db : ServerDb) × (f s.db ≡ ok db) × (t ≡ record s { db = db })
unfolding execute ◌>>=◌ pure
execute_inv f s t h = go (f s.db) refl h
  where
    go :
        (m : Outcome ServerDb)
        → f s.db ≡ m
        → then_run (stored s m) (λ _. λ u. (ok done, u)) ≡ (ok done, t)
        → (db : ServerDb) × (f s.db ≡ ok db) × (t ≡ record s { db = db })
    go (ok db) q h = (db, q, sym (ap (λ x. x.1) h))
    go (raise x) q h = absurd (cc (ap (λ y. y.0) h))

-- The rows that a share refers to, and the row that is put.
record IsPut (id : List ℕ) (q : ShareRequest) (parsed : Share) (s t : Server) : Type 0 where
  recipient : UserRecord
  row : DocumentRecord
  db : ServerDb
  is_recipient : get_user q.recipient s.db ≡ ok (some recipient)
  is_row : get_document id s.db ≡ some row
  is_put : create_or_replace_share (share_row id q.recipient q.share_blob parsed) s.db ≡ ok db
  is_left : t ≡ record s { db = db }

insert_share_inv :
    (id : List ℕ) (q : ShareRequest) (parsed : Share) (s t : Server)
    → insert_share id q parsed s ≡ (ok done, t)
    → IsPut id q parsed s t
unfolding insert_share pure
insert_share_inv id q parsed s t h =
    let (recipient, e1, h1) = query_inv _ _ done s t h in
    let (document, e2, h2) = query_inv _ _ done s t h1 in
    elim (Bool-cases (is_none recipient)) [
      | inl gone ↦ absurd (error-fails _ done s t refl (rw gone at h2))
      | inr there ↦ elim (Bool-cases (is_none document)) [
        | inl gone ↦ absurd (error-fails _ done s t refl (rw (there, gone) at h2))
        | inr known ↦
            let (db, put, left) = execute_inv _ s t (rw (there, known) at h2) in
            let (user, is_user) = is_none-some recipient there in
            let (row, is_row) = is_none-some document known in
            record {
              recipient = user;
              row = row;
              db = db;
              is_recipient = e1 ∙ ap ok is_user;
              is_row = ok-injective e2 ∙ is_row;
              is_put = put;
              is_left = left;
            }
      ]
    ]

-- A share that is stored, from the request to the server it leaves.
pub record IsShared (p : Fields) (s t : Server) : Type 0 where
  pub request : ShareRequest
  pub session : SessionState
  pub id : List ℕ
  pub parsed : Share
  pub recipient : UserRecord
  pub row : DocumentRecord
  pub db : ServerDb
  pub is_read : read_share_request p ≡ ok request
  pub is_signed :
      authenticate s.db request.sender
        (payload_share request.sender request.doc_id request.recipient request.request_nonce)
        request.request_signature
        request.request_nonce
        s.session
      ≡ ok (none, session)
  pub is_id : fromhex request.doc_id ≡ ok id
  pub is_long : length id ≡ doc_id_len
  pub is_share : unpack_share request.share_blob ≡ ok parsed
  pub same_sender : parsed.sender ≡ request.sender
  pub same_recipient : parsed.recipient ≡ request.recipient
  pub same_id : parsed.doc_id ≡ id
  pub is_recipient : get_user request.recipient s.db ≡ ok (some recipient)
  pub is_row : get_document id s.db ≡ some row
  pub is_put :
      create_or_replace_share (share_row id request.recipient request.share_blob parsed) s.db
      ≡ ok db
  pub is_left : t ≡ record s { db = db; session = session }

and_inv : (a b c : Bool) → (a && b && c) ≡ true → (a ≡ true) × (b ≡ true) × (c ≡ true)
and_inv true true true h = (refl, refl, refl)
and_inv true true false h = cc h
and_inv true false c h = cc h
and_inv false b c h = cc h

store_share_inv :
    (q : ShareRequest) (s t : Server)
    → store_share q s ≡ (ok done, t)
    → (id : List ℕ) × (parsed : Share) × (fromhex q.doc_id ≡ ok id)
      × (length id ≡ doc_id_len)
      × (unpack_share q.share_blob ≡ ok parsed)
      × (parsed.sender ≡ q.sender)
      × (parsed.recipient ≡ q.recipient)
      × (parsed.doc_id ≡ id)
      × IsPut id q parsed s t
unfolding store_share pure
store_share_inv q s t h =
    let (id, hexed, h1) = attempt_inv _ _ _ _ done s t refl h in
    elim (Bool-cases (length id == doc_id_len)) [
      | inr short ↦ absurd (error-fails _ done s t refl (rw short at h1))
      | inl long ↦
          let (parsed, read, h2) = attempt_inv _ _ _ _ done s t refl (rw long at h1) in
          elim (Bool-cases (
            parsed.sender === q.sender
            && parsed.recipient === q.recipient
            && parsed.doc_id === id)) [
              | inr other ↦ absurd (error-fails _ done s t refl (rw other at h2))
              | inl same ↦
                  let (sender, recipient, doc_id) =
                    and_inv (parsed.sender === q.sender) (parsed.recipient === q.recipient)
                      (parsed.doc_id === id) same in
                  (
                    id,
                    parsed,
                    hexed,
                    (==_iff (length id) doc_id_len).0 long,
                    read,
                    ===→eq _ _ sender,
                    ===→eq _ _ recipient,
                    ===→eq _ _ doc_id,
                    insert_share_inv id q parsed s t (rw same at h2),
                  )
            ]
    ]

-- A share is confirmed exactly if the request can be read, its signature and nonce pass for the
-- sender it names, its document id is the hex of 16 bytes, its blob parses and names the same sender, recipient
-- and document, the recipient is registered, a document has that id, and the row can be bound; the
-- server then has the row in place of any earlier one for that document and recipient, and the
-- used nonce. That the sender owns the document, or may read it, is not asked.
pub share_iff : (p : Fields) (s t : Server) → (share p s ≡ (ok done, t)) ↔ IsShared p s t
unfolding share
share_iff p s t = (
  λ h.
      let (q, read, h1) = attempt_inv _ _ _ _ done s t refl h in
      let (session, signed, h2) = authenticated_inv _ _ _ _ _ done s t refl h1 in
      let (id, parsed, hexed, long, is_share, sender, recipient, doc_id, put) =
        store_share_inv q _ t h2 in
      record {
        request = q;
        session = session;
        id = id;
        parsed = parsed;
        recipient = put.recipient;
        row = put.row;
        db = put.db;
        is_read = read;
        is_signed = signed;
        is_id = hexed;
        is_long = long;
        is_share = is_share;
        same_sender = sender;
        same_recipient = recipient;
        same_id = doc_id;
        is_recipient = put.is_recipient;
        is_row = put.is_row;
        is_put = put.is_put;
        is_left = put.is_left;
      },
  λ u.
      let sender : (u.parsed.sender === u.request.sender) ≡ true =
        rw u.same_sender (===_refl u.request.sender) in
      let recipient : (u.parsed.recipient === u.request.recipient) ≡ true =
        rw u.same_recipient (===_refl u.request.recipient) in
      let doc_id : (u.parsed.doc_id === u.id) ≡ true = rw u.same_id (===_refl u.id) in
      let long : (length u.id == doc_id_len) ≡ true =
        (==_iff (length u.id) doc_id_len).1 u.is_long in
      unfold attempt authenticated store_share insert_share ◌>>=◌ query is_none execute pure in
      rw (
        u.is_read, u.is_signed, u.is_id, long, u.is_share, sender, recipient, doc_id,
        u.is_recipient, u.is_row, u.is_put, u.is_left,
      ),
)
