-- ===== src/Server/Handlers/Steps.antt =====
-- What a handler of server/server.py did, from what it returned: one lemma for each of the ways in
-- which Server.Service lets a handler run.
use crypto_project.Base.{
  ℕ, Bool, true, false, List, Option, none, some, Bool-cases, inl, inr, Outcome, ok, raise, Exc,
  ◌≡◌, ◌≢◌, refl, sym, ap,
}
pub use crypto_project.Actions.{bind_inv, lift_inv}
use crypto_project.Text.{Text}
use crypto_project.Server.Session.{SessionState}
use crypto_project.Server.Db.{ServerDb}
use crypto_project.Server.Access.{Denial, authenticate}
use crypto_project.Server.Service.{
  Server, Problem, Reply, error, done, uploaded, salt_reply, challenge_reply, pubkey_reply,
  document_reply, list_reply, Handler, then_run, ◌>>=◌, query, stored, execute, attempt,
  on_value_error, execute_or, after_denial, authenticated, is_value_error,
}

abbrev pub is_error : Reply → Bool
is_error (error p) = true
is_error other = false

pub error-fails :
    (p : Problem) (r : Reply) (s t : Server)
    → is_error r ≡ false
    → ◌≢◌ {A = Outcome Reply × Server} (ok (error p), s) (ok r, t)
error-fails p (error q) s t f h = cc f
error-fails p done s t f h = cc (ap (λ x. x.0) h)
error-fails p (uploaded i) s t f h = cc (ap (λ x. x.0) h)
error-fails p (salt_reply a b) s t f h = cc (ap (λ x. x.0) h)
error-fails p (challenge_reply a b c) s t f h = cc (ap (λ x. x.0) h)
error-fails p (pubkey_reply a b) s t f h = cc (ap (λ x. x.0) h)
error-fails p (document_reply a b) s t f h = cc (ap (λ x. x.0) h)
error-fails p (list_reply a b) s t f h = cc (ap (λ x. x.0) h)

pub attempt_inv :
    {A : Type 0} (catches : Exc → Bool) (m : Outcome A) (p : Problem) (k : A → Handler Reply)
    (r : Reply) (s t : Server)
    → is_error r ≡ false
    → attempt catches m (error p) k s ≡ (ok r, t)
    → (a : A) × (m ≡ ok a) × (k a s ≡ (ok r, t))
unfolding attempt
attempt_inv catches (ok a) p k r s t f h = (a, refl, h)
attempt_inv catches (raise e) p k r s t f h = elim (Bool-cases (catches e)) [
  | inl caught ↦ absurd (error-fails p r s t f (rw caught at h))
  | inr passed ↦ absurd (cc (ap (λ x. x.0) (rw passed at h)))
]

pub authenticated_inv :
    (user payload : Text) (signature : List ℕ) (nonce : Text) (k : Handler Reply) (r : Reply)
    (s t : Server)
    → is_error r ≡ false
    → authenticated user payload signature nonce k s ≡ (ok r, t)
    → (session : SessionState) × (authenticate s.db user payload signature nonce s.session
        ≡ ok (none, session))
      × (k (record s { session = session }) ≡ (ok r, t))
unfolding authenticated
authenticated_inv user payload signature nonce k r s t f h =
    go (authenticate s.db user payload signature nonce s.session) refl h
  where
    go :
        (m : Outcome (Option Denial × SessionState))
        → authenticate s.db user payload signature nonce s.session ≡ m
        → after_denial s m k ≡ (ok r, t)
        → (session : SessionState) × (authenticate s.db user payload signature nonce s.session
            ≡ ok (none, session))
          × (k (record s { session = session }) ≡ (ok r, t))
    go (raise e) q h = absurd (cc (ap (λ x. x.0) h))
    go (ok (some d, session)) q h = absurd (error-fails (Problem.denied d) r _ t f h)
    go (ok (none, session)) q h = (session, q, h)

pub query_inv :
    {A B : Type 0} (f : ServerDb → Outcome A) (k : A → Handler B) (b : B) (s t : Server)
    → (query f >>= k) s ≡ (ok b, t)
    → (a : A) × (f s.db ≡ ok a) × (k a s ≡ (ok b, t))
unfolding query ◌>>=◌
query_inv {A} {B} f k b s t h = go (f s.db) refl h
  where
    go :
        (m : Outcome A)
        → f s.db ≡ m
        → then_run (m, s) k ≡ (ok b, t)
        → (a : A) × (f s.db ≡ ok a) × (k a s ≡ (ok b, t))
    go (ok a) e h = (a, e, h)
    go (raise x) e h = absurd (cc (ap (λ y. y.0) h))

pub execute_or_inv :
    (f : ServerDb → Outcome ServerDb) (p : Problem) (good r : Reply) (s t : Server)
    → is_error r ≡ false
    → execute_or f (error p) good s ≡ (ok r, t)
    → (db : ServerDb) × (f s.db ≡ ok db) × (r ≡ good) × (t ≡ record s { db = db })
unfolding execute_or execute
execute_or_inv f p good r s t e h = go (f s.db) refl h
  where
    go :
        (m : Outcome ServerDb)
        → f s.db ≡ m
        → on_value_error (error p) good (stored s m) ≡ (ok r, t)
        → (db : ServerDb) × (f s.db ≡ ok db) × (r ≡ good) × (t ≡ record s { db = db })
    go (ok db) q h = (db, q, cc (ap (λ x. x.0) h), sym (ap (λ x. x.1) h))
    go (raise x) q h = elim (Bool-cases (is_value_error x)) [
      | inl caught ↦ absurd (error-fails p r s t e (rw caught at h))
      | inr passed ↦ absurd (cc (ap (λ y. y.0) (rw passed at h)))
    ]
