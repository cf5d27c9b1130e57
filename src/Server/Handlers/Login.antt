-- ===== src/Server/Handlers/Login.antt =====
-- When `login` of server/server.py succeeds.
use crypto_project.Base.{
  ℕ, Bool, true, false, List, Option, none, some, if◌then◌else◌, Bool-cases, inl, inr, Outcome, ok,
  raise, ◌≡◌, ◌≢◌, ◌↔◌, refl, sym, ap, ◌∙◌,
}
use crypto_project.Base as Base
use crypto_project.Text.{Text}
use crypto_project.Encodings.Base64.{b64decode}
use crypto_project.Crypto.Ecdsa.{Signature, signature_from_bytes}
use crypto_project.Crypto.Ecdsa as Ecdsa
use crypto_project.Wire.Json.{Fields}
use crypto_project.Server.Session.{SessionState, consume_challenge}
use crypto_project.Server.Db.{UserRecord, get_user}
use crypto_project.Server.Requests.{LoginRequest, read_login}
use crypto_project.Server.Service.{
  Server, Problem, error, done, then_run, ◌>>=◌, pure, lift, query, attempt,
}
use crypto_project.Server.Handlers.{Env, consume, check_login, login}
use crypto_project.Server.Handlers.Steps.{error-fails, attempt_inv, query_inv}

-- A login that succeeds, from the request to the server it leaves.
pub record IsLoggedIn (env : Env) (p : Fields) (s t : Server) : Type 0 where
  pub request : LoginRequest
  pub user : UserRecord
  pub challenge : List ℕ
  pub session : SessionState
  pub sig : Signature
  pub is_read : read_login p ≡ ok request
  pub is_user : get_user request.username s.db ≡ ok (some user)
  pub is_consumed : consume_challenge request.username env.now s.session ≡ (some challenge, session)
  pub is_sig : Base.◌>>=◌ (b64decode request.challenge_signature) signature_from_bytes ≡ ok sig
  pub is_valid : Ecdsa.verify user.auth_pub challenge sig ≡ ok true
  pub is_left : t ≡ record s { session = session }

check_login_inv :
    (sig_b64 : Text) (user : Option UserRecord) (challenge : Option (List ℕ)) (s t : Server)
    → check_login sig_b64 user challenge s ≡ (ok done, t)
    → (u : UserRecord) × (c : List ℕ) × (sig : Signature) × (user ≡ some u)
      × (challenge ≡ some c)
      × (Base.◌>>=◌ (b64decode sig_b64) signature_from_bytes ≡ ok sig)
      × (Ecdsa.verify u.auth_pub c sig ≡ ok true)
      × (t ≡ s)
unfolding check_login pure
check_login_inv sig_b64 none challenge s t h = absurd (error-fails _ done s t refl h)
check_login_inv sig_b64 (some u) none s t h = absurd (error-fails _ done s t refl h)
check_login_inv sig_b64 (some u) (some c) s t h =
    let (sig, read, h1) = attempt_inv _ _ _ _ done s t refl h in
    go sig read (Ecdsa.verify u.auth_pub c sig) refl (unfold ◌>>=◌ lift in h1)
  where
    go :
        (sig : Signature)
        → (Base.◌>>=◌ (b64decode sig_b64) signature_from_bytes ≡ ok sig)
        → (m : Outcome Bool) → Ecdsa.verify u.auth_pub c sig ≡ m
        → then_run
            (m, s)
            (λ valid. λ x. (ok (if valid then done else error Problem.invalid_credentials), x))
          ≡ (ok done, t)
        → (u' : UserRecord) × (c' : List ℕ) × (sig' : Signature) × (some u ≡ some u')
          × (some c ≡ some c')
          × (Base.◌>>=◌ (b64decode sig_b64) signature_from_bytes ≡ ok sig')
          × (Ecdsa.verify u'.auth_pub c' sig' ≡ ok true)
          × (t ≡ s)
    go sig read (ok true) e h = (u, c, sig, refl, refl, read, e, sym (ap (λ x. x.1) h))
    go sig read (ok false) e h = absurd (error-fails _ done s t refl h)
    go sig read (raise x) e h = absurd (cc (ap (λ y. y.0) h))

-- A login succeeds exactly if the request can be read, the user is registered and has a challenge
-- that is not too old, and the signature of that challenge is valid under the key of the user's
-- row; the challenge is then consumed, and the server is otherwise unchanged.
pub login_iff :
    (env : Env) (p : Fields) (s t : Server) → (login env p s ≡ (ok done, t)) ↔ IsLoggedIn env p s t
unfolding login
login_iff env p s t = (
  λ h.
      let (q, read, h1) = attempt_inv _ _ _ _ done s t refl h in
      let (user, looked, h2) = query_inv _ _ done s t h1 in
      let consumed = consume_challenge q.username env.now s.session in
      let (u, c, sig, is_user, is_challenge, is_sig, valid, left) =
        check_login_inv q.challenge_signature user consumed.0 (record s { session = consumed.1 }) t
          (unfold ◌>>=◌ consume in h2) in
      record {
        request = q;
        user = u;
        challenge = c;
        session = consumed.1;
        sig = sig;
        is_read = read;
        is_user = looked ∙ ap ok is_user;
        is_consumed = ap (λ x. (x, consumed.1)) is_challenge;
        is_sig = is_sig;
        is_valid = valid;
        is_left = left;
      },
  λ u.
      unfold attempt ◌>>=◌ query consume check_login lift pure in
      rw (u.is_read, u.is_user, u.is_consumed, u.is_sig, u.is_valid, u.is_left),
)
