-- ===== src/Server/Handlers/Replay.antt =====
-- No nonce serves two signed requests of server/server.py, of whatever kinds and whatever requests
-- come between.
use crypto_project.Base.{
  ok-injective, ℕ, ℤ, Bool, true, false, List, Option, none, some, if◌then◌else◌, Bool-cases, inl,
  inr, Outcome, ok, raise, value_error, >>=-eq-ok, ◌≡◌, refl, sym, ap, ◌∙◌,
}
use crypto_project.Text.{Text, codes}
use crypto_project.Wire.{MsgType}
use crypto_project.Wire.Json.{Fields, get_item}
use crypto_project.Server.Session.{SessionState, is_member, check_and_consume_nonce}
use crypto_project.Server.Session.Replay.{consumed-member, member-refused}
use crypto_project.Server.Db.{UserRecord}
use crypto_project.Server.Access.{authenticate_iff}
use crypto_project.Server.Requests.{
  salt_len, require_str, require_b64, UploadRequest, read_upload, ShareRequest, read_share_request,
  GetDocRequest, read_get_doc, ChangePasswordRequest, read_change_password,
}
use crypto_project.Server.Service.{
  Server, Problem, Reply, pure, error, Handler, ◌>>=◌, authenticated,
}
use crypto_project.Server.Handlers.{
  Env, upload, share, get_doc, use_nonce, replace_auth, check_old, change_password, dispatch,
  as_reply, respond,
}
use crypto_project.Server.Handlers.Steps.{
  is_error, error-fails, attempt_inv, authenticated_inv, query_inv, lift_inv,
}
use crypto_project.Server.Moves.{OnlyMoves}
use crypto_project.Server.Moves.Requests.{
  store_document-OnlyMoves, store_share-OnlyMoves, serve_document-OnlyMoves, replace_auth-OnlyMoves,
}
use crypto_project.Server.Moves.Histories.{Request, after, after-is_member, Moves-is_member}

-- The requests that carry a nonce.
abbrev pub is_signed : MsgType → Bool
is_signed MsgType.upload = true
is_signed MsgType.share = true
is_signed MsgType.get_doc = true
is_signed MsgType.change_password = true
is_signed other = false

abbrev nonce_of : Fields → Outcome Text
nonce_of p = require_str p (codes "request_nonce")

-- The nonce was new before and is used after.
abbrev IsSpent : Text → Server → Server → Type 0
IsSpent nonce s t =
    (is_member nonce s.session.used_nonces ≡ false) × (is_member nonce t.session.used_nonces ≡ true)

new_of :
    (nonce : Text) (s s' : SessionState)
    → check_and_consume_nonce nonce s ≡ (true, s')
    → is_member nonce s.used_nonces ≡ false
new_of nonce s s' h = elim (Bool-cases (is_member nonce s.used_nonces)) [
  | inl used ↦ absurd (cc (member-refused nonce s used, ap (λ x. x.0) h))
  | inr new ↦ new
]

used_of :
    (nonce : Text) (s s' : SessionState)
    → check_and_consume_nonce nonce s ≡ (true, s')
    → is_member nonce s'.used_nonces ≡ true
used_of nonce s s' h =
    ap (λ x. is_member nonce x.1.used_nonces) (sym h) ∙ consumed-member nonce s (ap (λ x. x.0) h)

authenticated-IsSpent :
    (user payload : Text) (signature : List ℕ) (nonce : Text) (k : Handler Reply) (r : Reply)
    (s t : Server)
    → OnlyMoves k
    → is_error r ≡ false
    → authenticated user payload signature nonce k s ≡ (ok r, t)
    → IsSpent nonce s t
authenticated-IsSpent user payload signature nonce k r s t moves f h =
    let (session, passed, h1) = authenticated_inv user payload signature nonce k r s t f h in
    let (_, _, _, taken) =
      (authenticate_iff s.db user payload signature nonce s.session session).0 passed in
    (
      new_of nonce s.session session taken,
      ap (λ x. is_member nonce x.1.session.used_nonces) (sym h1)
          ∙ Moves-is_member nonce (moves.moves (record s { session = session }))
              (used_of nonce s.session session taken),
    )

read_upload-nonce :
    (p : Fields) (q : UploadRequest) → read_upload p ≡ ok q → nonce_of p ≡ ok q.request_nonce
unfolding read_upload
read_upload-nonce p q h =
    let (owner, _, h1) = >>=-eq-ok (require_str p (codes "owner")) _ h in
    let (nonce, e, h2) = >>=-eq-ok (require_str p (codes "request_nonce")) _ h1 in
    let (sig, _, h3) = >>=-eq-ok (require_b64 p (codes "request_signature") none) _ h2 in
    let (document, _, h4) = >>=-eq-ok (require_b64 p (codes "document") none) _ h3 in
    e ∙ ap (λ r. ok r.request_nonce) (ok-injective h4)

read_share_request-nonce :
    (p : Fields) (q : ShareRequest) → read_share_request p ≡ ok q → nonce_of p ≡ ok q.request_nonce
unfolding read_share_request
read_share_request-nonce p q h =
    let (sender, _, h1) = >>=-eq-ok (require_str p (codes "sender")) _ h in
    let (recipient, _, h2) = >>=-eq-ok (require_str p (codes "recipient")) _ h1 in
    let (id, _, h3) = >>=-eq-ok (require_str p (codes "doc_id")) _ h2 in
    let (nonce, e, h4) = >>=-eq-ok (require_str p (codes "request_nonce")) _ h3 in
    let (sig, _, h5) = >>=-eq-ok (require_b64 p (codes "request_signature") none) _ h4 in
    let (blob, _, h6) = >>=-eq-ok (require_b64 p (codes "share_blob") none) _ h5 in
    e ∙ ap (λ r. ok r.request_nonce) (ok-injective h6)

read_get_doc-nonce :
    (p : Fields) (q : GetDocRequest) → read_get_doc p ≡ ok q → nonce_of p ≡ ok q.request_nonce
unfolding read_get_doc
read_get_doc-nonce p q h =
    let (user, _, h1) = >>=-eq-ok (require_str p (codes "user")) _ h in
    let (id, _, h2) = >>=-eq-ok (require_str p (codes "doc_id")) _ h1 in
    let (nonce, e, h3) = >>=-eq-ok (require_str p (codes "request_nonce")) _ h2 in
    let (sig, _, h4) = >>=-eq-ok (require_b64 p (codes "request_signature") none) _ h3 in
    e ∙ ap (λ r. ok r.request_nonce) (ok-injective h4)

read_change_password-nonce :
    (p : Fields) (q : ChangePasswordRequest)
    → read_change_password p ≡ ok q
    → nonce_of p ≡ ok q.request_nonce
unfolding read_change_password
read_change_password-nonce p q h =
    let (user, _, h1) = >>=-eq-ok (require_str p (codes "username")) _ h in
    let (nonce, e, h2) = >>=-eq-ok (require_str p (codes "request_nonce")) _ h1 in
    let (proof, _, h3) = >>=-eq-ok (require_b64 p (codes "old_auth_proof") none) _ h2 in
    let (salt, _, h4) = >>=-eq-ok (require_b64 p (codes "new_salt") (some salt_len)) _ h3 in
    let (params, _, h5) = >>=-eq-ok (get_item (codes "new_argon2_params") p) _ h4 in
    let (auth_pub, _, h6) = >>=-eq-ok (require_b64 p (codes "new_auth_pub") (some 65)) _ h5 in
    e ∙ ap (λ r. ok r.request_nonce) (ok-injective h6)

-- The nonce that `use_nonce` takes.
use_nonce-IsSpent :
    (nonce : Text) (p : Problem) (k : Handler Reply) (r : Reply) (s t : Server)
    → OnlyMoves k
    → is_error r ≡ false
    → (use_nonce nonce >>= λ fresh. if fresh then k else pure (error p)) s ≡ (ok r, t)
    → IsSpent nonce s t
unfolding ◌>>=◌ use_nonce pure
use_nonce-IsSpent nonce p k r s t moves f h = go (check_and_consume_nonce nonce s.session) refl h
  where
    go :
        (m : Bool × SessionState)
        → check_and_consume_nonce nonce s.session ≡ m
        → (if m.0 then k else λ u. (ok (error p), u)) (record s { session = m.1 }) ≡ (ok r, t)
        → IsSpent nonce s t
    go (true, session) e h = (
      new_of nonce s.session session e,
      ap (λ x. is_member nonce x.1.session.used_nonces) (sym h)
          ∙ Moves-is_member nonce (moves.moves (record s { session = session }))
              (used_of nonce s.session session e),
    )
    go (false, session) e h = absurd (error-fails p r _ t f h)

check_old-IsSpent :
    (int_of : Text → Outcome ℤ) (q : ChangePasswordRequest) (user : Option UserRecord) (r : Reply)
    (s t : Server)
    → is_error r ≡ false
    → check_old int_of q user s ≡ (ok r, t)
    → IsSpent q.request_nonce s t
unfolding check_old pure
check_old-IsSpent int_of q none r s t f h = absurd (error-fails _ r s t f h)
check_old-IsSpent int_of q (some u) r s t f h =
    let (sig, _, h1) = attempt_inv _ _ _ _ r s t f h in
    let (message, _, h2) = lift_inv _ _ r s t h1 in
    let (valid, _, h3) = lift_inv _ _ r s t h2 in
    elim (Bool-cases valid) [
      | inl good ↦
          use_nonce-IsSpent q.request_nonce _ (replace_auth int_of q) r s t
            (replace_auth-OnlyMoves int_of q) f (rw good at h3)
      | inr bad ↦ absurd (error-fails _ r s t f (rw bad at h3))
    ]

-- A signed request that is not answered with an error has a nonce, new before and used after.
dispatch-IsSpent :
    (int_of : Text → Outcome ℤ) (env : Env) (k : MsgType) (p : Fields) (r : Reply) (s t : Server)
    → is_signed k ≡ true
    → is_error r ≡ false
    → dispatch int_of env k p s ≡ (ok r, t)
    → (nonce : Text) × (nonce_of p ≡ ok nonce) × IsSpent nonce s t
unfolding dispatch upload share get_doc change_password
dispatch-IsSpent int_of env MsgType.upload p r s t signed f h =
    let (q, read, h1) = attempt_inv _ _ _ _ r s t f h in
    (
      q.request_nonce,
      read_upload-nonce p q read,
      authenticated-IsSpent _ _ _ _ _ r s t (store_document-OnlyMoves q) f h1,
    )
dispatch-IsSpent int_of env MsgType.share p r s t signed f h =
    let (q, read, h1) = attempt_inv _ _ _ _ r s t f h in
    (
      q.request_nonce,
      read_share_request-nonce p q read,
      authenticated-IsSpent _ _ _ _ _ r s t (store_share-OnlyMoves q) f h1,
    )
dispatch-IsSpent int_of env MsgType.get_doc p r s t signed f h =
    let (q, read, h1) = attempt_inv _ _ _ _ r s t f h in
    (
      q.request_nonce,
      read_get_doc-nonce p q read,
      authenticated-IsSpent _ _ _ _ _ r s t (serve_document-OnlyMoves q) f h1,
    )
dispatch-IsSpent int_of env MsgType.change_password p r s t signed f h =
    let (q, read, h1) = attempt_inv _ _ _ _ r s t f h in
    let (user, _, h2) = query_inv _ _ r s t h1 in
    (
      q.request_nonce,
      read_change_password-nonce p q read,
      check_old-IsSpent int_of q user r s t f h2,
    )
dispatch-IsSpent int_of env other p r s t signed f h = absurd (cc signed)

respond-IsSpent :
    (int_of : Text → Outcome ℤ) (env : Env) (k : MsgType) (p : Fields) (s : Server)
    → is_signed k ≡ true
    → is_error (respond int_of env k p s).0 ≡ false
    → (nonce : Text) × (nonce_of p ≡ ok nonce) × IsSpent nonce s (respond int_of env k p s).1
unfolding respond as_reply
respond-IsSpent int_of env k p s signed f = go (dispatch int_of env k p s) refl f
  where
    go :
        (m : Outcome Reply × Server)
        → dispatch int_of env k p s ≡ m
        → is_error (as_reply m.0) ≡ false
        → (nonce : Text) × (nonce_of p ≡ ok nonce) × IsSpent nonce s m.1
    go (ok r, t) e f = dispatch-IsSpent int_of env k p r s t signed f e
    go (raise value_error, t) e f = cc f
    go (raise x, t) e f = cc f

-- Of two signed requests with the same nonce, of the same kind or not, of the same user or not,
-- the later is answered with an error if the earlier was not, whatever requests come between.
pub respond-replayed :
    (int_of : Text → Outcome ℤ) (env env' : Env) (k k' : MsgType) (p p' : Fields)
    (rs : List Request) (s : Server) (nonce : Text)
    → is_signed k ≡ true
    → is_signed k' ≡ true
    → require_str p (codes "request_nonce") ≡ ok nonce
    → require_str p' (codes "request_nonce") ≡ ok nonce
    → is_error (respond int_of env k p s).0 ≡ false
    → is_error (respond int_of env' k' p' (after int_of rs (respond int_of env k p s).1)).0 ≡ true
respond-replayed int_of env env' k k' p p' rs s nonce signed signed' has has' passed =
    elim (Bool-cases
      (is_error (respond int_of env' k' p' (after int_of rs (respond int_of env k p s).1)).0)) [
        | inl refused ↦ refused
        | inr again ↦
            let (n, e, spent) = respond-IsSpent int_of env k p s signed passed in
            let (m, e', spent') =
              respond-IsSpent int_of env' k' p' (after int_of rs (respond int_of env k p s).1)
                signed' again in
            let same : n ≡ m = ok-injective (sym e ∙ has ∙ sym has' ∙ e') in
            let kept = after-is_member int_of rs n (respond int_of env k p s).1 spent.1 in
            absurd (cc (kept, same, spent'.0))
      ]
