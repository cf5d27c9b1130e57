-- ===== src/Client/Requests/Accepted.antt =====
-- What the server reads in the payloads that the client sends.
use crypto_project.Base.{
  ℕ, ℤ, true, List, length, none, some, ◌===◌, ==_iff, Outcome, ok, raise, value_error, pos, ◌≡◌,
  refl, ap, arith,
}
use crypto_project.Bytes.{IsBytes}
use crypto_project.Text.{Text, codes}
use crypto_project.Encodings.Base64.{b64encode, b64decode-b64encode}
use crypto_project.Crypto.P256.{is_valid_private_key}
use crypto_project.Wire.Json.{str, Fields, get_item, subscript, to_int}
use crypto_project.Server.Requests.{
  as_str, require_str, decode_or_fail, check_len, require_b64, read_params, read_register,
  read_login, read_upload, read_share_request, read_get_doc, read_change_password,
}
use crypto_project.Client.Requests.{
  derive_auth_scalar, default_params, register_payload, login_payload, upload_payload,
  share_payload, download_payload, change_password_payload,
}

-- The number that is derived from a password is a private key, whatever the password hash is.
pub derive_auth_scalar-is_valid_private_key :
    (auth_key : List ℕ) → is_valid_private_key (derive_auth_scalar auth_key) ≡ true
unfolding derive_auth_scalar is_valid_private_key
derive_auth_scalar-is_valid_private_key auth_key = ground arith

as_decoded : Outcome (List ℕ) → Outcome (List ℕ)
as_decoded m = elim m [ ok raw ↦ ok raw | raise e ↦ raise value_error ]

decode_or_fail-b64encode :
    (bytes : List ℕ) → IsBytes bytes → decode_or_fail (b64encode bytes) ≡ ok bytes
unfolding decode_or_fail as_decoded
decode_or_fail-b64encode bytes h = ap as_decoded (b64decode-b64encode bytes h)

require_b64-any :
    (p : Fields) (key : Text) (bytes : List ℕ)
    → get_item key p ≡ ok (str (b64encode bytes))
    → IsBytes bytes
    → require_b64 p key none ≡ ok bytes
unfolding require_b64 require_str as_str check_len
require_b64-any p key bytes e h = rw (e, decode_or_fail-b64encode bytes h) refl

require_b64-exact :
    (n : ℕ) (p : Fields) (key : Text) (bytes : List ℕ)
    → get_item key p ≡ ok (str (b64encode bytes))
    → IsBytes bytes
    → length bytes ≡ n
    → require_b64 p key (some n) ≡ ok bytes
unfolding require_b64 require_str as_str check_len
require_b64-exact n p key bytes e h long =
    rw (e, decode_or_fail-b64encode bytes h, (==_iff (length bytes) n).1 long) refl

-- The server reads in an upload what the client put into it, where the document and the signature are
-- bytes.
pub read_upload-upload_payload :
    (username : Text) (doc_blob : List ℕ) (nonce_b64 : Text) (req_sig : List ℕ)
    → IsBytes doc_blob
    → IsBytes req_sig
    → read_upload (upload_payload username doc_blob nonce_b64 req_sig)
      ≡ ok (record {
        owner = username;
        request_nonce = nonce_b64;
        request_signature = req_sig;
        document = doc_blob;
      })
unfolding read_upload upload_payload require_str as_str get_item ◌===◌
read_upload-upload_payload username doc_blob nonce_b64 req_sig d s =
    let p = upload_payload username doc_blob nonce_b64 req_sig in
    rw
      (
        require_b64-any p (codes "request_signature") req_sig refl s,
        require_b64-any p (codes "document") doc_blob refl d,
      )
      refl

-- The server reads in a share what the client put into it, where the blob and the signature are bytes.
pub read_share_request-share_payload :
    (username recipient doc_id_hex : Text) (share_blob : List ℕ) (nonce_b64 : Text)
    (req_sig : List ℕ)
    → IsBytes share_blob
    → IsBytes req_sig
    → read_share_request (share_payload username recipient doc_id_hex share_blob nonce_b64 req_sig)
      ≡ ok (record {
        sender = username;
        recipient = recipient;
        doc_id = doc_id_hex;
        request_nonce = nonce_b64;
        request_signature = req_sig;
        share_blob = share_blob;
      })
unfolding read_share_request share_payload require_str as_str get_item ◌===◌
read_share_request-share_payload username recipient doc_id_hex share_blob nonce_b64 req_sig b s =
    let p = share_payload username recipient doc_id_hex share_blob nonce_b64 req_sig in
    rw
      (
        require_b64-any p (codes "request_signature") req_sig refl s,
        require_b64-any p (codes "share_blob") share_blob refl b,
      )
      refl

-- The server reads in a registration what the client put into it, with the client's parameters of
-- Argon2, for a salt of 16 bytes and keys of 65 bytes.
pub read_register-register_payload :
    (int_of : Text → Outcome ℤ) (username : Text) (salt auth_pub sig_pub dh_pub : List ℕ)
    → IsBytes salt
    → IsBytes auth_pub
    → IsBytes sig_pub
    → IsBytes dh_pub
    → length salt ≡ 16
    → length auth_pub ≡ 65
    → length sig_pub ≡ 65
    → length dh_pub ≡ 65
    → read_register int_of (register_payload username salt auth_pub sig_pub dh_pub)
      ≡ ok (record {
        username = username;
        salt = salt;
        auth_pub = auth_pub;
        sig_pub = sig_pub;
        dh_pub = dh_pub;
        argon2_t = pos 2;
        argon2_m = pos 131072;
        argon2_p = pos 1;
      })
unfolding read_register register_payload default_params read_params subscript to_int require_str
    as_str get_item ◌===◌
read_register-register_payload int_of username salt auth_pub sig_pub dh_pub bs ba bg bd ls la lg
      ld =
    let p = register_payload username salt auth_pub sig_pub dh_pub in
    rw
      (
        require_b64-exact 16 p (codes "salt") salt refl bs ls,
        require_b64-exact 65 p (codes "auth_pub") auth_pub refl ba la,
        require_b64-exact 65 p (codes "sig_pub") sig_pub refl bg lg,
        require_b64-exact 65 p (codes "dh_pub") dh_pub refl bd ld,
      )
      refl

-- The server reads in a request for a document what the client put into it.
pub read_get_doc-download_payload :
    (username doc_id_hex nonce_b64 : Text) (req_sig : List ℕ)
    → IsBytes req_sig
    → read_get_doc (download_payload username doc_id_hex nonce_b64 req_sig)
      ≡ ok (record {
        user = username;
        doc_id = doc_id_hex;
        request_nonce = nonce_b64;
        request_signature = req_sig;
      })
unfolding read_get_doc download_payload require_str as_str get_item ◌===◌
read_get_doc-download_payload username doc_id_hex nonce_b64 req_sig s =
    rw
      (require_b64-any (download_payload username doc_id_hex nonce_b64 req_sig)
        (codes "request_signature") req_sig refl s)
      refl

-- The server reads in a login what the client put into it; the signature stays in base64.
pub read_login-login_payload :
    (username : Text) (sig_bytes : List ℕ)
    → read_login (login_payload username sig_bytes)
      ≡ ok (record { username = username; challenge_signature = b64encode sig_bytes })
unfolding read_login login_payload require_str as_str get_item ◌===◌
read_login-login_payload username sig_bytes = refl

-- The server reads in a change of password what the client put into it, for a salt of 16 bytes and
-- a key of 65.
pub read_change_password-change_password_payload :
    (username nonce_b64 : Text) (proof new_salt new_auth_pub : List ℕ)
    → IsBytes proof
    → IsBytes new_salt
    → IsBytes new_auth_pub
    → length new_salt ≡ 16
    → length new_auth_pub ≡ 65
    → read_change_password (change_password_payload username nonce_b64 proof new_salt new_auth_pub)
      ≡ ok (record {
        username = username;
        request_nonce = nonce_b64;
        old_auth_proof = proof;
        new_salt = new_salt;
        new_argon2_params = default_params;
        new_auth_pub = new_auth_pub;
      })
unfolding read_change_password change_password_payload require_str as_str get_item ◌===◌
read_change_password-change_password_payload username nonce_b64 proof new_salt new_auth_pub bp bs ba
      ls la =
    let p = change_password_payload username nonce_b64 proof new_salt new_auth_pub in
    rw
      (
        require_b64-any p (codes "old_auth_proof") proof refl bp,
        require_b64-exact 16 p (codes "new_salt") new_salt refl bs ls,
        require_b64-exact 65 p (codes "new_auth_pub") new_auth_pub refl ba la,
      )
      refl
