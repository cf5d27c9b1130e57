-- ===== src/Server/Session.antt =====
-- The session state of server/session.py: the nonces used, and the login challenges that wait. A
-- call takes the state and returns its result with the new one; the clock (`time.monotonic`, in
-- seconds) and the random bytes (`os.urandom`) are arguments. The lock makes calls follow one another.
pub mod Replay
use crypto_project.Base.{
  ℕ, ◌-◌, Bool, true, false, List, [], ◌∷◌, ◌++◌, length, Option, none, some, ◌===◌, ltb,
  if◌then◌else◌, Outcome, ok, raise, ◌>>=◌, value_error,
}
use crypto_project.Text.{Text, encode}
use crypto_project.Crypto.Ecdsa.{Signature, signature_from_bytes}
use crypto_project.Crypto.Ecdsa as Ecdsa

pub record Pending : Type 0 where
  pub user : Text
  pub challenge : List ℕ
  pub issued_at : ℕ

pub record SessionState : Type 0 where
  pub used_nonces : List Text
  pub challenges : List Pending
  pub ttl : ℕ

abbrev pub challenge_ttl_seconds : ℕ
challenge_ttl_seconds = 60

unfoldable pub new_session : ℕ → SessionState
new_session ttl = record { used_nonces = []; challenges = []; ttl = ttl }

-- The dictionary of challenges without the key `user`.
unfoldable pub without : Text → List Pending → List Pending
without user [] = []
without user (p ∷ ps) = let rest = without user ps in if p.user === user then rest else p ∷ rest

unfoldable pub pending_for : Text → List Pending → Option Pending
pending_for user [] = none
pending_for user (p ∷ ps) =
    let rest = pending_for user ps in if p.user === user then some p else rest

-- The challenge is `os.urandom(CHALLENGE_LEN)`.
unfoldable pub issue_challenge : Text → List ℕ → ℕ → SessionState → List ℕ × SessionState
issue_challenge user challenge now s = (
  challenge,
  record s {
    challenges =
        record { user = user; challenge = challenge; issued_at = now } ∷ without user s.challenges;
  },
)

-- The challenge of an entry that is not older than the time to live.
unfoldable pub fresh : ℕ → ℕ → Option Pending → Option (List ℕ)
fresh ttl now none = none
fresh ttl now (some p) = if ltb ttl (now - p.issued_at) then none else some p.challenge

unfoldable pub consume_challenge : Text → ℕ → SessionState → Option (List ℕ) × SessionState
consume_challenge user now s = (
  fresh s.ttl now (pending_for user s.challenges),
  record s { challenges = without user s.challenges },
)

unfoldable pub is_member : Text → List Text → Bool
is_member n [] = false
is_member n (m ∷ ms) = let rest = is_member n ms in if m === n then true else rest

-- A nonce is a string; any other value is refused as the empty one is.
unfoldable pub check_and_consume_nonce : Text → SessionState → Bool × SessionState
check_and_consume_nonce nonce s =
    if nonce === []
    then (false, s)
    else (if is_member nonce s.used_nonces
        then (false, s)
        else (true, record s { used_nonces = nonce ∷ s.used_nonces }))

unfoldable pub nonce_count : SessionState → ℕ
nonce_count s = length s.used_nonces

-- `except ValueError: return False` around the decoding of the signature.
unfoldable pub with_signature : Outcome Signature → (Signature → Outcome Bool) → Outcome Bool
with_signature (ok sig) f = f sig
with_signature (raise value_error) f = ok false
with_signature (raise e) f = raise e

unfoldable pub verify_request_signature : List ℕ → Text → List ℕ → Outcome Bool
verify_request_signature pubkey payload signature =
    with_signature (signature_from_bytes signature)
      (λ sig. encode payload >>= λ message. Ecdsa.verify pubkey message sig)

abbrev colon : Text
colon = b':' ∷ []

unfoldable pub payload_upload : Text → Text → Text
payload_upload owner nonce =
    (b'u' ∷ b'p' ∷ b'l' ∷ b'o' ∷ b'a' ∷ b'd' ∷ b':' ∷ []) ++ (owner ++ (colon ++ nonce))

unfoldable pub payload_share : Text → Text → Text → Text → Text
payload_share sender doc_id recipient nonce =
    (b's' ∷ b'h' ∷ b'a' ∷ b'r' ∷ b'e' ∷ b':' ∷ [])
    ++ (sender ++ (colon ++ (doc_id ++ (colon ++ (recipient ++ (colon ++ nonce))))))

unfoldable pub payload_download : Text → Text → Text → Text
payload_download user doc_id nonce =
    (b'd' ∷ b'o' ∷ b'w' ∷ b'n' ∷ b'l' ∷ b'o' ∷ b'a' ∷ b'd' ∷ b':' ∷ [])
    ++ (user ++ (colon ++ (doc_id ++ (colon ++ nonce))))

unfoldable pub payload_change_password : Text → Text → Text
payload_change_password username nonce =
    (b'c' ∷ b'h' ∷ b'a' ∷ b'n' ∷ b'g' ∷ b'e' ∷ b'_' ∷ b'p' ∷ b'a' ∷ b's' ∷ b's' ∷ b'w' ∷ b'o' ∷ b'r'
      ∷ b'd' ∷ b':' ∷ [])
    ++ (username ++ (colon ++ nonce))
