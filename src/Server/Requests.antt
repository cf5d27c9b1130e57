-- ===== src/Server/Requests.antt =====
-- How the handlers of server/server.py read a payload: `_require_str`, `_require_b64` and the first
-- `try` block of each handler.
use crypto_project.Base.{
  ℕ, ℤ, List, length, Option, none, some, ◌==◌, if◌then◌else◌, Outcome, ok, raise, ◌>>=◌,
  value_error,
}
use crypto_project.Text.{Text, codes}
use crypto_project.Encodings.Base64.{b64decode}
use crypto_project.Wire.Json.{Json, str, Fields, get_item, subscript, to_int}

unfoldable pub as_str : Json → Outcome Text
as_str (str s) = ok s
as_str other = raise value_error

unfoldable pub require_str : Fields → Text → Outcome Text
require_str p key = get_item key p >>= as_str

-- `except Exception: raise ValueError` around the decoding.
unfoldable pub decode_or_fail : Text → Outcome (List ℕ)
decode_or_fail s = elim (b64decode s) [ ok raw ↦ ok raw | raise e ↦ raise value_error ]

unfoldable pub check_len : Option ℕ → List ℕ → Outcome (List ℕ)
check_len none raw = ok raw
check_len (some exact_len) raw = if length raw == exact_len then ok raw else raise value_error

unfoldable pub require_b64 : Fields → Text → Option ℕ → Outcome (List ℕ)
require_b64 p key exact_len = do
  s ← require_str p key
  raw ← decode_or_fail s
  check_len exact_len raw

abbrev pub salt_len : ℕ
salt_len = 16

pub record RegisterRequest : Type 0 where
  pub username : Text
  pub salt : List ℕ
  pub auth_pub : List ℕ
  pub sig_pub : List ℕ
  pub dh_pub : List ℕ
  pub argon2_t : ℤ
  pub argon2_m : ℤ
  pub argon2_p : ℤ

-- `int(argon2["t"]), int(argon2["m"]), int(argon2["p"])`
unfoldable pub read_params : (Text → Outcome ℤ) → Json → Outcome (ℤ × ℤ × ℤ)
read_params int_of argon2 = do
  t ← subscript (codes "t") argon2 >>= to_int int_of
  m ← subscript (codes "m") argon2 >>= to_int int_of
  p ← subscript (codes "p") argon2 >>= to_int int_of
  ok (t, m, p)

unfoldable pub read_register : (Text → Outcome ℤ) → Fields → Outcome RegisterRequest
read_register int_of p = do
  username ← require_str p (codes "username")
  salt ← require_b64 p (codes "salt") (some salt_len)
  argon2 ← get_item (codes "argon2_params") p
  auth_pub ← require_b64 p (codes "auth_pub") (some 65)
  sig_pub ← require_b64 p (codes "sig_pub") (some 65)
  dh_pub ← require_b64 p (codes "dh_pub") (some 65)
  params ← read_params int_of argon2
  ok (record {
    username = username;
    salt = salt;
    auth_pub = auth_pub;
    sig_pub = sig_pub;
    dh_pub = dh_pub;
    argon2_t = params.0;
    argon2_m = params.1;
    argon2_p = params.2;
  })

pub record LoginRequest : Type 0 where
  pub username : Text
  pub challenge_signature : Text

unfoldable pub read_login : Fields → Outcome LoginRequest
read_login p = do
  username ← require_str p (codes "username")
  sig_b64 ← require_str p (codes "challenge_signature")
  ok (record { username = username; challenge_signature = sig_b64 })

pub record UploadRequest : Type 0 where
  pub owner : Text
  pub request_nonce : Text
  pub request_signature : List ℕ
  pub document : List ℕ

unfoldable pub read_upload : Fields → Outcome UploadRequest
read_upload p = do
  owner ← require_str p (codes "owner")
  nonce ← require_str p (codes "request_nonce")
  sig ← require_b64 p (codes "request_signature") none
  document ← require_b64 p (codes "document") none
  ok (record { owner = owner; request_nonce = nonce; request_signature = sig; document = document })

pub record ShareRequest : Type 0 where
  pub sender : Text
  pub recipient : Text
  pub doc_id : Text
  pub request_nonce : Text
  pub request_signature : List ℕ
  pub share_blob : List ℕ

unfoldable pub read_share_request : Fields → Outcome ShareRequest
read_share_request p = do
  sender ← require_str p (codes "sender")
  recipient ← require_str p (codes "recipient")
  doc_id ← require_str p (codes "doc_id")
  nonce ← require_str p (codes "request_nonce")
  sig ← require_b64 p (codes "request_signature") none
  blob ← require_b64 p (codes "share_blob") none
  ok (record {
    sender = sender;
    recipient = recipient;
    doc_id = doc_id;
    request_nonce = nonce;
    request_signature = sig;
    share_blob = blob;
  })

pub record GetDocRequest : Type 0 where
  pub user : Text
  pub doc_id : Text
  pub request_nonce : Text
  pub request_signature : List ℕ

unfoldable pub read_get_doc : Fields → Outcome GetDocRequest
read_get_doc p = do
  user ← require_str p (codes "user")
  doc_id ← require_str p (codes "doc_id")
  nonce ← require_str p (codes "request_nonce")
  sig ← require_b64 p (codes "request_signature") none
  ok (record { user = user; doc_id = doc_id; request_nonce = nonce; request_signature = sig })

pub record ChangePasswordRequest : Type 0 where
  pub username : Text
  pub request_nonce : Text
  pub old_auth_proof : List ℕ
  pub new_salt : List ℕ
  pub new_argon2_params : Json
  pub new_auth_pub : List ℕ

unfoldable pub read_change_password : Fields → Outcome ChangePasswordRequest
read_change_password p = do
  username ← require_str p (codes "username")
  nonce ← require_str p (codes "request_nonce")
  proof ← require_b64 p (codes "old_auth_proof") none
  salt ← require_b64 p (codes "new_salt") (some salt_len)
  argon2 ← get_item (codes "new_argon2_params") p
  auth_pub ← require_b64 p (codes "new_auth_pub") (some 65)
  ok (record {
    username = username;
    request_nonce = nonce;
    old_auth_proof = proof;
    new_salt = salt;
    new_argon2_params = argon2;
    new_auth_pub = auth_pub;
  })
