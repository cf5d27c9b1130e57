-- ===== src/Server/Service.antt =====
-- The server's state, its replies, and the ways in which the handlers of server/server.py run:
-- a handler takes the state and returns what the call does with the state it leaves, so that what
-- was written before an exception stays written. The texts of errors are constructors of Problem.
use crypto_project.Base.{
  ℕ, ℤ, Bool, true, false, ◌||◌, List, Option, none, some, if◌then◌else◌, Outcome, ok, raise, Exc,
  value_error, type_error, key_error,
}
unfoldable pub use crypto_project.Actions.{Action, ◌>>=◌, pure, lift}
pub use crypto_project.Actions.{then_run, ◌>>◌}
use crypto_project.Text.{Text}
use crypto_project.Server.Session.{SessionState}
use crypto_project.Server.Db.{ServerDb}
use crypto_project.Server.Access.{Denial, authenticate}

pub record Server : Type 0 where
  pub db : ServerDb
  pub session : SessionState
  pub server_secret : List ℕ

pub data Problem : Type 0 where
  malformed_request database_error invalid_credentials user_not_found malformed_document
        owner_mismatch bad_doc_id bad_doc_id_length :
      Problem
  malformed_share share_mismatch recipient_not_found document_not_found access_denied
        old_password_incorrect nonce_already_used :
      Problem
  denied : Denial → Problem
  unsupported value_refused internal_error : Problem

pub data Reply : Type 0 where
  error : Problem → Reply
  done : Reply
  uploaded : Text → Reply
  salt_reply : Text → ℤ × ℤ × ℤ → Reply
  challenge_reply : Text → ℤ × ℤ × ℤ → Text → Reply
  pubkey_reply : Text → Text → Reply
  document_reply : Text → Option Text → Reply
  list_reply : List Text → List Text → Reply

abbrev pub Handler : Type 0 → Type 0
Handler A = Action Server A

-- `self._server_secret`
unfoldable pub secret : Handler (List ℕ)
secret s = (ok s.server_secret, s)

-- A read of the database.
unfoldable pub query : {A : Type 0} → (ServerDb → Outcome A) → Handler A
query f s = (f s.db, s)

abbrev pub stored : Server → Outcome ServerDb → Outcome (Unit {0}) × Server
stored s (ok db) = (ok tt, record s { db = db })
stored s (raise e) = (raise e, s)

-- A write to it, which changes nothing when it raises.
unfoldable pub execute : (ServerDb → Outcome ServerDb) → Handler (Unit {0})
execute f s = stored s (f s.db)

-- `try: a = m; except (...): return r`, for an `m` that does not change the state, and the rest.
unfoldable pub attempt :
    {A : Type 0} → (Exc → Bool) → Outcome A → Reply → (A → Handler Reply) → Handler Reply
attempt catches (ok a) r k s = k a s
attempt catches (raise e) r k s = if catches e then (ok r, s) else (raise e, s)

abbrev pub is_value_error : Exc → Bool
is_value_error value_error = true
is_value_error other = false

abbrev pub is_key_error : Exc → Bool
is_key_error key_error = true
is_key_error other = false

abbrev pub is_key_or_value_error : Exc → Bool
is_key_or_value_error e = is_key_error e || is_value_error e

abbrev pub is_type_error : Exc → Bool
is_type_error type_error = true
is_type_error other = false

abbrev pub is_register_error : Exc → Bool
is_register_error e = is_key_or_value_error e || is_type_error e

abbrev pub any_error : Exc → Bool
any_error e = true

-- `try: self.db...; except ValueError as e: return r`
abbrev pub on_value_error : Reply → Reply → Outcome (Unit {0}) × Server → Outcome Reply × Server
on_value_error bad good (ok u, s) = (ok good, s)
on_value_error bad good (raise e, s) = (if is_value_error e then ok bad else raise e, s)

unfoldable pub execute_or : (ServerDb → Outcome ServerDb) → Reply → Reply → Handler Reply
execute_or f bad good s = on_value_error bad good (execute f s)

abbrev pub after_denial :
    Server → Outcome (Option Denial × SessionState) → Handler Reply → Outcome Reply × Server
after_denial s (raise e) k = (raise e, s)
after_denial s (ok (some d, session)) k = (ok (error (denied d)), record s { session = session })
after_denial s (ok (none, session)) k = k (record s { session = session })

-- `auth = self._authenticate(...)`, and `if auth is not None: return auth`.
unfoldable pub authenticated : Text → Text → List ℕ → Text → Handler Reply → Handler Reply
authenticated user payload signature nonce k s =
    after_denial s (authenticate s.db user payload signature nonce s.session) k
