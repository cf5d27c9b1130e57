-- ===== src/Server/Handlers.antt =====
-- The handlers of server/server.py, `_dispatch`, and the reply that `_handle_connection` makes of
-- their exceptions. What `int` reads in a text is the parameter `int_of`; the challenge that
-- `os.urandom` gives and the time are in Env.
pub mod Steps
pub mod Accepted
pub mod Shared
pub mod Login
pub mod Replay
use crypto_project.Base.{
  ℕ, ℤ, pos, ◌*◌, Bool, true, false, ◌&&◌, ◌||◌, not, List, [], ◌∷◌, length, take, map, Option,
  none, some, ◌===◌, ◌==◌, if◌then◌else◌, Outcome, ok, raise, value_error,
}
use crypto_project.Base as Base
use crypto_project.Text.{Text, codes, encode}
use crypto_project.Encodings.Base64.{b64encode, b64decode}
use crypto_project.Encodings.Hex.{hex, fromhex}
use crypto_project.Crypto.Hmac.{hmac_sha256}
use crypto_project.Crypto.Ecdsa.{Signature, signature_from_bytes}
use crypto_project.Crypto.Ecdsa as Ecdsa
use crypto_project.Formats.Document.{ParsedDocument, unpack_document, doc_id_len}
use crypto_project.Formats.Share.{Share, unpack_share}
use crypto_project.Wire.{MsgType}
use crypto_project.Wire.Json.{Json, Fields}
use crypto_project.Server.Session.{
  SessionState, issue_challenge, consume_challenge, check_and_consume_nonce, payload_upload,
  payload_share, payload_download, payload_change_password,
}
use crypto_project.Server.Db.{
  ServerDb, UserRecord, DocumentRecord, ShareRecord, create_user, get_user, update_user_auth,
  create_document, get_document, list_documents_owned_by, create_or_replace_share, get_share,
  list_shares_for,
}
use crypto_project.Server.Requests.{
  salt_len, require_str, read_params, RegisterRequest, read_register, LoginRequest, read_login,
  UploadRequest, read_upload, ShareRequest, read_share_request, GetDocRequest, read_get_doc,
  ChangePasswordRequest, read_change_password,
}
use crypto_project.Server.Service.{
  Server, Problem, malformed_request, database_error, invalid_credentials, user_not_found,
  malformed_document, owner_mismatch, bad_doc_id, bad_doc_id_length, malformed_share,
  share_mismatch, recipient_not_found, document_not_found, access_denied, old_password_incorrect,
  nonce_already_used, unsupported, value_refused, internal_error, Reply, error, done, uploaded,
  salt_reply, challenge_reply, pubkey_reply, document_reply, list_reply, Handler, ◌>>=◌, ◌>>◌, pure,
  lift, secret, query, execute, attempt, is_value_error, is_key_error, is_key_or_value_error,
  is_register_error, any_error, execute_or, authenticated,
}

abbrev read_username : Fields → Outcome Text
read_username p = require_str p (codes "username")

pub record Env : Type 0 where
  pub random : List ℕ
  pub now : ℕ

unfoldable pub register : (Text → Outcome ℤ) → Fields → Handler Reply
register int_of p =
    attempt is_register_error (read_register int_of p) (error malformed_request) (λ r.
      execute_or
        (create_user (record {
          username = r.username;
          salt = r.salt;
          argon2_t = r.argon2_t;
          argon2_m = r.argon2_m;
          argon2_p = r.argon2_p;
          auth_pub = r.auth_pub;
          sig_pub = r.sig_pub;
          dh_pub = r.dh_pub;
        }))
        (error database_error) done)

-- The salt and the parameters of a user, or those that stand in for an unknown one.
unfoldable pub salt_of : List ℕ → Text → Option UserRecord → Outcome (List ℕ × (ℤ × ℤ × ℤ))
salt_of key username (some u) = ok (u.salt, (u.argon2_t, u.argon2_m, u.argon2_p))
salt_of key username none =
    Base.◌>>=◌ (encode username)
      (λ name. ok (take salt_len (hmac_sha256 key name), (pos 2, pos (128 * 1024), pos 1)))

-- `self.session.issue_challenge(username)`
unfoldable pub issue : Env → Text → Handler (List ℕ)
issue env username s =
    let (challenge, session) = issue_challenge username env.random env.now s.session in
    (ok challenge, record s { session = session })

unfoldable pub login_challenge : Env → Fields → Handler Reply
login_challenge env p =
    attempt is_key_error (read_username p) (error malformed_request) (λ username. do
      user ← query (get_user username)
      found ← lift (salt_of (← secret) username user)
      challenge ← issue env username
      pure (challenge_reply (b64encode found.0) found.1 (b64encode challenge)))

-- `self.session.consume_challenge(username)`
unfoldable pub consume : Env → Text → Handler (Option (List ℕ))
consume env username s =
    let (challenge, session) = consume_challenge username env.now s.session in
    (ok challenge, record s { session = session })

-- The login signature against the challenge, once there are a user and a challenge.
unfoldable pub check_login : Text → Option UserRecord → Option (List ℕ) → Handler Reply
check_login sig_b64 none challenge = pure (error invalid_credentials)
check_login sig_b64 (some u) none = pure (error invalid_credentials)
check_login sig_b64 (some u) (some challenge) =
    attempt any_error (Base.◌>>=◌ (b64decode sig_b64) signature_from_bytes)
      (error invalid_credentials)
      (λ sig. do
        valid ← lift (Ecdsa.verify u.auth_pub challenge sig)
        pure (if valid then done else error invalid_credentials))

unfoldable pub login : Env → Fields → Handler Reply
login env p = attempt is_key_error (read_login p) (error invalid_credentials) (λ r. do
  user ← query (get_user r.username)
  challenge ← consume env r.username
  check_login r.challenge_signature user challenge)

abbrev salt_found : Option UserRecord → Reply
salt_found none = error user_not_found
salt_found (some u) = salt_reply (b64encode u.salt) (u.argon2_t, u.argon2_m, u.argon2_p)

unfoldable pub get_salt : Fields → Handler Reply
get_salt p =
    attempt is_key_error (read_username p) (error malformed_request)
      (λ username. do user ← query (get_user username); pure (salt_found user))

abbrev keys_found : Option UserRecord → Reply
keys_found none = error user_not_found
keys_found (some u) = pubkey_reply (b64encode u.sig_pub) (b64encode u.dh_pub)

unfoldable pub get_user_pubkey : Fields → Handler Reply
get_user_pubkey p =
    attempt is_key_error (read_username p) (error malformed_request)
      (λ username. do user ← query (get_user username); pure (keys_found user))

-- The row that `upload` stores.
unfoldable pub document_row : ParsedDocument → List ℕ → DocumentRecord
document_row parsed blob = record {
  doc_id = parsed.header.doc_id;
  owner = parsed.header.owner;
  version = parsed.header.version;
  created_ms = parsed.header.created_ms;
  blob = blob;
}

unfoldable pub store_document : UploadRequest → Handler Reply
store_document r =
    attempt is_value_error (unpack_document r.document) (error malformed_document) (λ parsed.
      if parsed.header.owner === r.owner
      then execute_or (create_document (document_row parsed r.document)) (error database_error)
          (uploaded (hex parsed.header.doc_id))
      else pure (error owner_mismatch))

unfoldable pub upload : Fields → Handler Reply
upload p = attempt is_key_or_value_error (read_upload p) (error malformed_request) (λ r.
    authenticated r.owner (payload_upload r.owner r.request_nonce) r.request_signature
      r.request_nonce (store_document r))

unfoldable pub is_none : {A : Type 0} → Option A → Bool
is_none none = true
is_none (some a) = false

unfoldable pub share_row : List ℕ → Text → List ℕ → Share → ShareRecord
share_row doc_id recipient blob parsed = record {
  doc_id = doc_id;
  recipient = recipient;
  blob = blob;
  issued_ms = parsed.issued_ms;
}

-- The tests of the rows that a share refers to, and its insertion.
unfoldable pub insert_share : List ℕ → ShareRequest → Share → Handler Reply
insert_share doc_id r parsed = do
  recipient ← query (get_user r.recipient)
  document ← query (λ db. ok (get_document doc_id db))
  if is_none recipient
      then pure (error recipient_not_found)
      else if is_none document
      then pure (error document_not_found)
      else (execute (create_or_replace_share (share_row doc_id r.recipient r.share_blob parsed))
          >>= λ _. pure done)

unfoldable pub store_share : ShareRequest → Handler Reply
store_share r = attempt is_value_error (fromhex r.doc_id) (error bad_doc_id) (λ doc_id.
    if length doc_id == doc_id_len
    then attempt is_value_error (unpack_share r.share_blob) (error malformed_share) (λ parsed.
      if parsed.sender === r.sender && parsed.recipient === r.recipient && parsed.doc_id === doc_id
      then insert_share doc_id r parsed
      else pure (error share_mismatch))
    else pure (error bad_doc_id_length))

unfoldable pub share : Fields → Handler Reply
share p = attempt is_key_or_value_error (read_share_request p) (error malformed_request) (λ r.
    authenticated r.sender (payload_share r.sender r.doc_id r.recipient r.request_nonce)
      r.request_signature r.request_nonce (store_share r))

abbrev blob_of : Option ShareRecord → Option Text
blob_of none = none
blob_of (some s) = some (b64encode s.blob)

-- The access check: the owner, or someone with a share.
unfoldable pub deliver : Text → DocumentRecord → Option ShareRecord → Reply
deliver user doc found =
    if not (doc.owner === user) && is_none found
    then error access_denied
    else document_reply (b64encode doc.blob) (blob_of found)

unfoldable pub fetch : Text → List ℕ → Option DocumentRecord → Handler Reply
fetch user doc_id none = pure (error document_not_found)
fetch user doc_id (some doc) = do
  found ← query (get_share doc_id user)
  pure (deliver user doc found)

unfoldable pub serve_document : GetDocRequest → Handler Reply
serve_document r =
    attempt is_value_error (fromhex r.doc_id) (error bad_doc_id)
      (λ doc_id. do doc ← query (λ db. ok (get_document doc_id db)); fetch r.user doc_id doc)

unfoldable pub get_doc : Fields → Handler Reply
get_doc p = attempt is_key_or_value_error (read_get_doc p) (error malformed_request) (λ r.
    authenticated r.user (payload_download r.user r.doc_id r.request_nonce) r.request_signature
      r.request_nonce (serve_document r))

unfoldable pub list_docs : Fields → Handler Reply
list_docs p = attempt is_key_error (require_str p (codes "user")) (error malformed_request) (λ user.
    do
      owned ← query (list_documents_owned_by user)
      shared ← query (list_shares_for user)
      pure (list_reply (map (λ d. hex d.doc_id) owned) (map (λ s. hex s.doc_id) shared)))

-- `self.session.check_and_consume_nonce(request_nonce)`
unfoldable pub use_nonce : Text → Handler Bool
use_nonce nonce s =
    let (fresh, session) = check_and_consume_nonce nonce s.session in
    (ok fresh, record s { session = session })

unfoldable pub replace_auth : (Text → Outcome ℤ) → ChangePasswordRequest → Handler Reply
replace_auth int_of r = do
  params ← lift (read_params int_of r.new_argon2_params)
  execute (update_user_auth r.username r.new_salt params.0 params.1 params.2 r.new_auth_pub)
  pure done

-- The old password's signature over the request, and the nonce.
unfoldable pub check_old :
    (Text → Outcome ℤ) → ChangePasswordRequest → Option UserRecord → Handler Reply
check_old int_of r none = pure (error old_password_incorrect)
check_old int_of r (some u) =
    attempt is_value_error (signature_from_bytes r.old_auth_proof) (error old_password_incorrect)
      (λ sig. do
        message ← lift (encode (payload_change_password r.username r.request_nonce))
        valid ← lift (Ecdsa.verify u.auth_pub message sig)
        if valid
            then (use_nonce r.request_nonce >>= λ fresh.
                if fresh then replace_auth int_of r else pure (error nonce_already_used))
            else pure (error old_password_incorrect))

unfoldable pub change_password : (Text → Outcome ℤ) → Fields → Handler Reply
change_password int_of p =
    attempt is_key_or_value_error (read_change_password p) (error malformed_request)
      (λ r. do user ← query (get_user r.username); check_old int_of r user)

unfoldable pub dispatch : (Text → Outcome ℤ) → Env → MsgType → Fields → Handler Reply
dispatch int_of env MsgType.register p = register int_of p
dispatch int_of env MsgType.login_challenge_req p = login_challenge env p
dispatch int_of env MsgType.login_response p = login env p
dispatch int_of env MsgType.get_salt p = get_salt p
dispatch int_of env MsgType.get_user_pubkey p = get_user_pubkey p
dispatch int_of env MsgType.upload p = upload p
dispatch int_of env MsgType.share p = share p
dispatch int_of env MsgType.get_doc p = get_doc p
dispatch int_of env MsgType.list_docs p = list_docs p
dispatch int_of env MsgType.change_password p = change_password int_of p
dispatch int_of env other p = pure (error unsupported)

-- What is sent for an exception.
unfoldable pub as_reply : Outcome Reply → Reply
as_reply (ok r) = r
as_reply (raise value_error) = error value_refused
as_reply (raise e) = error internal_error

-- One request of `_handle_connection`, from the message received to the reply to send.
unfoldable pub respond : (Text → Outcome ℤ) → Env → MsgType → Fields → Server → Reply × Server
respond int_of env t p s = let (r, s') = dispatch int_of env t p s in (as_reply r, s')
