-- ===== src/Server/Moves/Requests.antt =====
-- Every request makes only moves.
use mathlib.Core.Path.{subst}
use crypto_project.Base.{
  ℕ, ℤ, Bool, true, false, List, Option, none, some, if◌then◌else◌, Bool-cases, inl, inr, Outcome,
  ok, raise, Exc, ◌≡◌, refl, ap,
}
use crypto_project.Text.{Text}
use crypto_project.Formats.Share.{Share}
use crypto_project.Wire.{MsgType}
use crypto_project.Wire.Json.{Fields}
use crypto_project.Server.Session.{SessionState}
use crypto_project.Server.Session.Replay.{Call, perform}
use crypto_project.Server.Session.Replay as Replay
use crypto_project.Server.Db.{ServerDb, UserRecord, DocumentRecord}
use crypto_project.Server.Db.Invariant.{
  Statement, insert_user, update_auth, insert_document, put_share,
}
use crypto_project.Server.Db.Invariant as Db
use crypto_project.Server.Access.{Denial, authenticate, authenticate_iff, authenticate-denied}
use crypto_project.Server.Requests.{
  ChangePasswordRequest, UploadRequest, ShareRequest, GetDocRequest,
}
use crypto_project.Server.Service.{
  Server, Reply, Handler, then_run, ◌>>=◌, pure, lift, secret, query, stored, execute, attempt,
  on_value_error, execute_or, after_denial, authenticated,
}
use crypto_project.Server.Handlers.{
  Env, register, issue, login_challenge, consume, check_login, login, get_salt, get_user_pubkey,
  store_document, upload, is_none, insert_share, store_share, share, fetch, serve_document, get_doc,
  list_docs, use_nonce, replace_auth, check_old, change_password, dispatch, respond,
}
use crypto_project.Server.Moves.{calls, writes, Moves, stay, move, Moves-trans, OnlyMoves, IsServed}

one_call : (s : Server) (c : Call) → Moves s (record s { session = perform c s.session })
one_call s c = move stay (calls c refl)

pub bind-OnlyMoves :
    {A B : Type 0} (m : Handler A) (k : A → Handler B)
    → OnlyMoves m
    → ((a : A) → OnlyMoves (k a))
    → OnlyMoves (m >>= k)
unfolding ◌>>=◌
bind-OnlyMoves {A} {B} m k first rest = record { moves = λ s. go s (m s) (first.moves s) }
  where
    go : (s : Server) (r : Outcome A × Server) → Moves s r.1 → Moves s (then_run r k).1
    go s (ok a, t) h = Moves-trans h ((rest a).moves t)
    go s (raise e, t) h = h

pub pure-OnlyMoves : {A : Type 0} (a : A) → OnlyMoves (pure a)
unfolding pure
pure-OnlyMoves a = record { moves = λ s. stay }

pub lift-OnlyMoves : {A : Type 0} (m : Outcome A) → OnlyMoves (lift m)
unfolding lift
lift-OnlyMoves m = record { moves = λ s. stay }

pub secret-OnlyMoves : OnlyMoves secret
unfolding secret
secret-OnlyMoves = record { moves = λ s. stay }

pub query-OnlyMoves : {A : Type 0} (f : ServerDb → Outcome A) → OnlyMoves (query f)
unfolding query
query-OnlyMoves f = record { moves = λ s. stay }

pub attempt-OnlyMoves :
    {A : Type 0} (catches : Exc → Bool) (m : Outcome A) (r : Reply) (k : A → Handler Reply)
    → ((a : A) → OnlyMoves (k a))
    → OnlyMoves (attempt catches m r k)
unfolding attempt
attempt-OnlyMoves catches (ok a) r k h = h a
attempt-OnlyMoves catches (raise e) r k h = record {
  moves = λ s. elim (Bool-cases (catches e)) [ inl t ↦ rw t stay | inr f ↦ rw f stay ];
}

pub if-OnlyMoves :
    {A : Type 0} (b : Bool) (m n : Handler A)
    → OnlyMoves m
    → OnlyMoves n
    → OnlyMoves (if b then m else n)
if-OnlyMoves true m n h k = h
if-OnlyMoves false m n h k = k

pub execute-OnlyMoves : (st : Statement) → IsServed st → OnlyMoves (execute (Db.execute st))
unfolding execute
execute-OnlyMoves st served = record { moves = λ s. go s (Db.execute st s.db) refl }
  where
    go : (s : Server) (r : Outcome ServerDb) → Db.execute st s.db ≡ r → Moves s (stored s r).1
    go s (ok db) e = move stay (writes st db served e refl)
    go s (raise e) h = stay

pub execute_or-OnlyMoves :
    (st : Statement)
    → IsServed st
    → (bad good : Reply) → OnlyMoves (execute_or (Db.execute st) bad good)
unfolding execute_or
execute_or-OnlyMoves st served bad good = record {
  moves = λ s. go s (execute (Db.execute st) s) ((execute-OnlyMoves st served).moves s);
}
  where
    go :
        (s : Server) (r : Outcome (Unit {0}) × Server)
        → Moves s r.1
        → Moves s (on_value_error bad good r).1
    go s (ok u, t) h = h
    go s (raise e, t) h = h

pub authenticated-OnlyMoves :
    (user payload : Text) (signature : List ℕ) (nonce : Text) (k : Handler Reply)
    → OnlyMoves k
    → OnlyMoves (authenticated user payload signature nonce k)
unfolding authenticated
authenticated-OnlyMoves user payload signature nonce k h = record {
  moves = λ s. go s (authenticate s.db user payload signature nonce s.session) refl;
}
  where
    go :
        (s : Server) (r : Outcome (Option Denial × SessionState))
        → authenticate s.db user payload signature nonce s.session ≡ r
        → Moves s (after_denial s r k).1
    go s (raise e) p = stay
    go s (ok (some d, session)) p =
        let same = authenticate-denied s.db user payload signature nonce s.session session d p in
        subst (λ x. Moves s (record s { session = x })) same stay
    go s (ok (none, session)) p =
        let (_, _, _, taken) =
          (authenticate_iff s.db user payload signature nonce s.session session).0 p in
        let after : perform (Replay.use_nonce nonce) s.session ≡ session =
          unfold perform in ap (λ x. x.1) taken in
        Moves-trans
          (subst (λ x. Moves s (record s { session = x })) after
            (one_call s (Replay.use_nonce nonce)))
          (h.moves _)

issue-OnlyMoves : (env : Env) (user : Text) → OnlyMoves (issue env user)
unfolding issue perform
issue-OnlyMoves env user = record { moves = λ s. one_call s (Replay.issue user env.random env.now) }

consume-OnlyMoves : (env : Env) (user : Text) → OnlyMoves (consume env user)
unfolding consume perform
consume-OnlyMoves env user = record { moves = λ s. one_call s (Replay.consume user env.now) }

use_nonce-OnlyMoves : (nonce : Text) → OnlyMoves (use_nonce nonce)
unfolding use_nonce perform
use_nonce-OnlyMoves nonce = record { moves = λ s. one_call s (Replay.use_nonce nonce) }

register-OnlyMoves : (int_of : Text → Outcome ℤ) (p : Fields) → OnlyMoves (register int_of p)
unfolding register Db.execute
register-OnlyMoves int_of p =
    attempt-OnlyMoves _ _ _ _ (λ r. execute_or-OnlyMoves (insert_user _) tt _ _)

login_challenge-OnlyMoves : (env : Env) (p : Fields) → OnlyMoves (login_challenge env p)
unfolding login_challenge
login_challenge-OnlyMoves env p = attempt-OnlyMoves _ _ _ _ (λ username.
    bind-OnlyMoves (query _) _ (query-OnlyMoves _) (λ user.
      bind-OnlyMoves secret _ secret-OnlyMoves (λ key.
        bind-OnlyMoves (lift _) _ (lift-OnlyMoves _) (λ found.
          bind-OnlyMoves (issue env username) _ (issue-OnlyMoves env username)
            (λ c. pure-OnlyMoves _)))))

check_login-OnlyMoves :
    (sig_b64 : Text) (u : Option UserRecord) (c : Option (List ℕ))
    → OnlyMoves (check_login sig_b64 u c)
unfolding check_login
check_login-OnlyMoves sig_b64 none c = pure-OnlyMoves _
check_login-OnlyMoves sig_b64 (some u) none = pure-OnlyMoves _
check_login-OnlyMoves sig_b64 (some u) (some c) =
    attempt-OnlyMoves _ _ _ _
      (λ sig. bind-OnlyMoves (lift _) _ (lift-OnlyMoves _) (λ valid. pure-OnlyMoves _))

login-OnlyMoves : (env : Env) (p : Fields) → OnlyMoves (login env p)
unfolding login
login-OnlyMoves env p = attempt-OnlyMoves _ _ _ _ (λ r.
    bind-OnlyMoves (query _) _ (query-OnlyMoves _) (λ user.
      bind-OnlyMoves (consume env r.username) _ (consume-OnlyMoves env r.username)
        (λ c. check_login-OnlyMoves r.challenge_signature user c)))

get_salt-OnlyMoves : (p : Fields) → OnlyMoves (get_salt p)
unfolding get_salt
get_salt-OnlyMoves p =
    attempt-OnlyMoves _ _ _ _
      (λ username. bind-OnlyMoves (query _) _ (query-OnlyMoves _) (λ user. pure-OnlyMoves _))

get_user_pubkey-OnlyMoves : (p : Fields) → OnlyMoves (get_user_pubkey p)
unfolding get_user_pubkey
get_user_pubkey-OnlyMoves p =
    attempt-OnlyMoves _ _ _ _
      (λ username. bind-OnlyMoves (query _) _ (query-OnlyMoves _) (λ user. pure-OnlyMoves _))

pub store_document-OnlyMoves : (r : UploadRequest) → OnlyMoves (store_document r)
unfolding store_document Db.execute
store_document-OnlyMoves r = attempt-OnlyMoves _ _ _ _ (λ parsed.
    if-OnlyMoves _ _ _ (execute_or-OnlyMoves (insert_document _) tt _ _) (pure-OnlyMoves _))

upload-OnlyMoves : (p : Fields) → OnlyMoves (upload p)
unfolding upload
upload-OnlyMoves p =
    attempt-OnlyMoves _ _ _ _ (λ r. authenticated-OnlyMoves _ _ _ _ _ (store_document-OnlyMoves r))

insert_share-OnlyMoves :
    (doc_id : List ℕ) (r : ShareRequest) (parsed : Share) → OnlyMoves (insert_share doc_id r parsed)
unfolding insert_share Db.execute
insert_share-OnlyMoves doc_id r parsed =
    bind-OnlyMoves (query _) _ (query-OnlyMoves _) (λ recipient.
      bind-OnlyMoves (query _) _ (query-OnlyMoves _) (λ document.
        if-OnlyMoves (is_none recipient) _ _ (pure-OnlyMoves _) (
          if-OnlyMoves (is_none document) _ _ (pure-OnlyMoves _) (
            bind-OnlyMoves (execute _) _ (execute-OnlyMoves (put_share _) tt)
              (λ u. pure-OnlyMoves _)))))

pub store_share-OnlyMoves : (r : ShareRequest) → OnlyMoves (store_share r)
unfolding store_share
store_share-OnlyMoves r = attempt-OnlyMoves _ _ _ _ (λ doc_id.
    if-OnlyMoves _ _ _
      (attempt-OnlyMoves _ _ _ _
        (λ parsed. if-OnlyMoves _ _ _ (insert_share-OnlyMoves doc_id r parsed) (pure-OnlyMoves _)))
      (pure-OnlyMoves _))

share-OnlyMoves : (p : Fields) → OnlyMoves (share p)
unfolding share
share-OnlyMoves p =
    attempt-OnlyMoves _ _ _ _ (λ r. authenticated-OnlyMoves _ _ _ _ _ (store_share-OnlyMoves r))

fetch-OnlyMoves :
    (user : Text) (doc_id : List ℕ) (doc : Option DocumentRecord)
    → OnlyMoves (fetch user doc_id doc)
unfolding fetch
fetch-OnlyMoves user doc_id none = pure-OnlyMoves _
fetch-OnlyMoves user doc_id (some doc) =
    bind-OnlyMoves (query _) _ (query-OnlyMoves _) (λ found. pure-OnlyMoves _)

pub serve_document-OnlyMoves : (r : GetDocRequest) → OnlyMoves (serve_document r)
unfolding serve_document
serve_document-OnlyMoves r = attempt-OnlyMoves _ _ _ _ (λ doc_id.
    bind-OnlyMoves (query _) _ (query-OnlyMoves _) (λ doc. fetch-OnlyMoves r.user doc_id doc))

get_doc-OnlyMoves : (p : Fields) → OnlyMoves (get_doc p)
unfolding get_doc
get_doc-OnlyMoves p =
    attempt-OnlyMoves _ _ _ _ (λ r. authenticated-OnlyMoves _ _ _ _ _ (serve_document-OnlyMoves r))

list_docs-OnlyMoves : (p : Fields) → OnlyMoves (list_docs p)
unfolding list_docs
list_docs-OnlyMoves p = attempt-OnlyMoves _ _ _ _ (λ user.
    bind-OnlyMoves (query _) _ (query-OnlyMoves _)
      (λ owned. bind-OnlyMoves (query _) _ (query-OnlyMoves _) (λ shared. pure-OnlyMoves _)))

pub replace_auth-OnlyMoves :
    (int_of : Text → Outcome ℤ) (r : ChangePasswordRequest) → OnlyMoves (replace_auth int_of r)
unfolding replace_auth Db.execute
replace_auth-OnlyMoves int_of r = bind-OnlyMoves (lift _) _ (lift-OnlyMoves _) (λ params.
    bind-OnlyMoves (execute _) _
      (execute-OnlyMoves
        (update_auth r.username r.new_salt params.0 params.1 params.2 r.new_auth_pub) tt)
      (λ u. pure-OnlyMoves _))

check_old-OnlyMoves :
    (int_of : Text → Outcome ℤ) (r : ChangePasswordRequest) (u : Option UserRecord)
    → OnlyMoves (check_old int_of r u)
unfolding check_old
check_old-OnlyMoves int_of r none = pure-OnlyMoves _
check_old-OnlyMoves int_of r (some u) = attempt-OnlyMoves _ _ _ _ (λ sig.
    bind-OnlyMoves (lift _) _ (lift-OnlyMoves _) (λ message.
      bind-OnlyMoves (lift _) _ (lift-OnlyMoves _) (λ valid.
        if-OnlyMoves _ _ _
          (bind-OnlyMoves (use_nonce r.request_nonce) _ (use_nonce-OnlyMoves r.request_nonce)
            (λ new. if-OnlyMoves _ _ _ (replace_auth-OnlyMoves int_of r) (pure-OnlyMoves _)))
          (pure-OnlyMoves _))))

change_password-OnlyMoves :
    (int_of : Text → Outcome ℤ) (p : Fields) → OnlyMoves (change_password int_of p)
unfolding change_password
change_password-OnlyMoves int_of p = attempt-OnlyMoves _ _ _ _ (λ r.
    bind-OnlyMoves (query _) _ (query-OnlyMoves _) (λ user. check_old-OnlyMoves int_of r user))

pub dispatch-OnlyMoves :
    (int_of : Text → Outcome ℤ) (env : Env) (t : MsgType) (p : Fields)
    → OnlyMoves (dispatch int_of env t p)
unfolding dispatch
dispatch-OnlyMoves int_of env MsgType.register p = register-OnlyMoves int_of p
dispatch-OnlyMoves int_of env MsgType.login_challenge_req p = login_challenge-OnlyMoves env p
dispatch-OnlyMoves int_of env MsgType.login_response p = login-OnlyMoves env p
dispatch-OnlyMoves int_of env MsgType.get_salt p = get_salt-OnlyMoves p
dispatch-OnlyMoves int_of env MsgType.get_user_pubkey p = get_user_pubkey-OnlyMoves p
dispatch-OnlyMoves int_of env MsgType.upload p = upload-OnlyMoves p
dispatch-OnlyMoves int_of env MsgType.share p = share-OnlyMoves p
dispatch-OnlyMoves int_of env MsgType.get_doc p = get_doc-OnlyMoves p
dispatch-OnlyMoves int_of env MsgType.list_docs p = list_docs-OnlyMoves p
dispatch-OnlyMoves int_of env MsgType.change_password p = change_password-OnlyMoves int_of p
dispatch-OnlyMoves int_of env other p = pure-OnlyMoves _

-- Whatever the request, and whether it is answered, refused or fails, the server's state changes by
-- calls on the session and by statements other than the replacement of a document.
pub respond-Moves :
    (int_of : Text → Outcome ℤ) (env : Env) (t : MsgType) (p : Fields) (s : Server)
    → Moves s (respond int_of env t p s).1
unfolding respond
respond-Moves int_of env t p s = (dispatch-OnlyMoves int_of env t p).moves s
