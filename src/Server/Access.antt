-- ===== src/Server/Access.antt =====
-- `_authenticate` of server/server.py, the path that every signed request takes. The messages of
-- its error replies are constructors; a call that raises has changed nothing, since the nonce is
-- taken last.
use crypto_project.Base.{
  ℕ, Bool, true, false, List, Option, none, some, if◌then◌else◌, Bool-cases, inl, inr, Outcome, ok,
  ◌>>=◌, >>=-eq-ok, ◌≡◌, ◌≢◌, ◌↔◌, refl, sym, ap, ◌∙◌, arith,
}
use crypto_project.Text.{Text}
use crypto_project.Server.Session.{SessionState, check_and_consume_nonce, verify_request_signature}
use crypto_project.Server.Session.Replay.{Call, run, nonce-accepted_once}
use crypto_project.Server.Db.{UserRecord, ServerDb, get_user}

pub data Denial : Type 0 where
  user_not_found bad_request_signature nonce_already_used : Denial

-- The test of the nonce, with the reply.
unfoldable pub take_nonce : Bool × SessionState → Option Denial × SessionState
take_nonce (fresh, s) = (if fresh then none else some nonce_already_used, s)

unfoldable pub check_caller :
    Text → List ℕ → Text → SessionState → Option UserRecord → Outcome (Option Denial × SessionState)
check_caller payload signature nonce s none = ok (some user_not_found, s)
check_caller payload signature nonce s (some caller) = do
  valid ← verify_request_signature caller.sig_pub payload signature
  if valid
      then ok (take_nonce (check_and_consume_nonce nonce s))
      else ok (some bad_request_signature, s)

-- `none` lets the request through.
unfoldable pub authenticate :
    ServerDb → Text → Text → List ℕ → Text → SessionState → Outcome (Option Denial × SessionState)
authenticate db user payload signature nonce s = do
  caller ← get_user user db
  check_caller payload signature nonce s caller

take_nonce-none :
    (r : Bool × SessionState) (s' : SessionState) → take_nonce r ≡ (none, s') → r ≡ (true, s')
unfolding take_nonce
take_nonce-none (true, s) s' h = ap (λ x. (true, x.1)) h
take_nonce-none (false, s) s' h = cc (ap (λ x. x.0) h)

check_caller-none :
    (payload : Text) (signature : List ℕ) (nonce : Text) (s s' : SessionState)
    (found : Option UserRecord)
    → check_caller payload signature nonce s found ≡ ok (none, s')
    → (caller : UserRecord) × (found ≡ some caller)
      × (verify_request_signature caller.sig_pub payload signature ≡ ok true)
      × (check_and_consume_nonce nonce s ≡ (true, s'))
unfolding check_caller
check_caller-none payload signature nonce s s' none h = cc
check_caller-none payload signature nonce s s' (some caller) h =
    let (valid, checked, h1) =
      >>=-eq-ok (verify_request_signature caller.sig_pub payload signature) _ h in
    elim (Bool-cases valid) [
      | inl t ↦ (caller, refl, checked ∙ ap ok t, take_nonce-none _ s' (cc (rw t at h1)))
      | inr f ↦ absurd (cc (rw f at h1))
    ]

-- A request is let through exactly if the user has a row, the signature is valid under that row's
-- signing key, and the nonce was new; the new session is the one that has taken the nonce.
pub authenticate_iff :
    (db : ServerDb) (user payload : Text) (signature : List ℕ) (nonce : Text) (s s' : SessionState)
    → (authenticate db user payload signature nonce s ≡ ok (none, s')) ↔ (
        (caller : UserRecord) × (get_user user db ≡ ok (some caller))
        × (verify_request_signature caller.sig_pub payload signature ≡ ok true)
        × (check_and_consume_nonce nonce s ≡ (true, s')))
unfolding authenticate
authenticate_iff db user payload signature nonce s s' = (
  λ h.
      let (found, read, h1) = >>=-eq-ok (get_user user db) _ h in
      let (caller, same, valid, taken) = check_caller-none payload signature nonce s s' found h1 in
      (caller, read ∙ ap ok same, valid, taken),
  λ (caller, read, valid, taken). unfold check_caller take_nonce in rw (read, valid, taken),
)

take_nonce-some :
    (r : Bool × SessionState) (d : Denial) (s' : SessionState)
    → take_nonce r ≡ (some d, s')
    → (r.0 ≡ false) × (r.1 ≡ s')
unfolding take_nonce
take_nonce-some (true, s) d s' h = cc (ap (λ x. x.0) h)
take_nonce-some (false, s) d s' h = (refl, ap (λ x. x.1) h)

used-unchanged :
    (nonce : Text) (s : SessionState)
    → (check_and_consume_nonce nonce s).0 ≡ false
    → s ≡ (check_and_consume_nonce nonce s).1
unfolding check_and_consume_nonce
used-unchanged nonce s h = ground arith

check_caller-some :
    (payload : Text) (signature : List ℕ) (nonce : Text) (s s' : SessionState) (d : Denial)
    (found : Option UserRecord)
    → check_caller payload signature nonce s found ≡ ok (some d, s')
    → s ≡ s'
unfolding check_caller
check_caller-some payload signature nonce s s' d none h = cc h
check_caller-some payload signature nonce s s' d (some caller) h =
    let (valid, _, h1) =
      >>=-eq-ok (verify_request_signature caller.sig_pub payload signature) _ h in
    elim (Bool-cases valid) [
      | inl t ↦
          let (used, same) =
            take_nonce-some (check_and_consume_nonce nonce s) d s' (cc (rw t at h1)) in
          used-unchanged nonce s used ∙ same
      | inr f ↦ cc (rw f at h1)
    ]

-- A request that is refused leaves the session as it was: a nonce is never spent on it.
pub authenticate-denied :
    (db : ServerDb) (user payload : Text) (signature : List ℕ) (nonce : Text) (s s' : SessionState)
    (d : Denial)
    → authenticate db user payload signature nonce s ≡ ok (some d, s')
    → s ≡ s'
unfolding authenticate
authenticate-denied db user payload signature nonce s s' d h =
    let (found, _, h1) = >>=-eq-ok (get_user user db) _ h in
    check_caller-some payload signature nonce s s' d found h1

-- A nonce that let a request through lets no other through: not of the same user or another, with
-- any database, after any calls on the session.
pub authenticate-replayed :
    (db db' : ServerDb) (user user' payload payload' : Text) (signature signature' : List ℕ)
    (nonce : Text) (cs : List Call) (s s1 s2 : SessionState)
    → authenticate db user payload signature nonce s ≡ ok (none, s1)
    → authenticate db' user' payload' signature' nonce (run cs s1) ≢ ok (none, s2)
authenticate-replayed db db' user user' payload payload' signature signature' nonce cs s s1 s2 h
      again =
    let (_, _, _, first) = (authenticate_iff db user payload signature nonce s s1).0 h in
    let (_, _, _, second) =
      (authenticate_iff db' user' payload' signature' nonce (run cs s1) s2).0 again in
    let refused = nonce-accepted_once nonce cs s (ap (λ x. x.0) first) in
    cc (
      sym refused,
      ap (λ t. (check_and_consume_nonce nonce (run cs t)).0) (ap (λ x. x.1) first),
      ap (λ x. x.0) second,
    )
