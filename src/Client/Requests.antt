-- ===== src/Client/Requests.antt =====
-- The payloads that client/client.py sends, and the private key that it derives from a password.
-- The user name is an argument where the source reads `self.username`.
pub mod Accepted
use crypto_project.Base.{ℕ, ◌+◌, ◌-◌, ◌*◌, ◌%◌, List, pos}
use crypto_project.Bytes.{from_bytes}
use crypto_project.Text.{Text, codes}
use crypto_project.Encodings.Base64.{b64encode}
use crypto_project.Crypto.P256.{n_order}
use crypto_project.Wire.Json.{Json, int, str, obj, Fields, end, field}

abbrev pub argon2_t : ℕ
argon2_t = 2

abbrev pub argon2_m_kib : ℕ
argon2_m_kib = 128 * 1024

abbrev pub argon2_p : ℕ
argon2_p = 1

unfoldable pub derive_auth_scalar : List ℕ → ℕ
derive_auth_scalar auth_key = from_bytes auth_key % (n_order - 1) + 1

abbrev b64 : List ℕ → Json
b64 bytes = str (b64encode bytes)

unfoldable pub default_params : Json
default_params = obj (
    field (codes "t") (int (pos argon2_t))
      (field (codes "m") (int (pos argon2_m_kib)) (field (codes "p") (int (pos argon2_p)) end)))

unfoldable pub register_payload : Text → List ℕ → List ℕ → List ℕ → List ℕ → Fields
register_payload username salt auth_pub sig_pub dh_pub = field (codes "username") (str username) (
    field (codes "salt") (b64 salt) (
      field (codes "argon2_params") default_params (
        field (codes "auth_pub") (b64 auth_pub)
          (field (codes "sig_pub") (b64 sig_pub) (field (codes "dh_pub") (b64 dh_pub) end)))))

unfoldable pub login_payload : Text → List ℕ → Fields
login_payload username sig_bytes =
    field (codes "username") (str username)
      (field (codes "challenge_signature") (b64 sig_bytes) end)

unfoldable pub upload_payload : Text → List ℕ → Text → List ℕ → Fields
upload_payload username doc_blob nonce_b64 req_sig = field (codes "owner") (str username) (
    field (codes "document") (b64 doc_blob) (
      field (codes "request_nonce") (str nonce_b64)
        (field (codes "request_signature") (b64 req_sig) end)))

unfoldable pub share_payload : Text → Text → Text → List ℕ → Text → List ℕ → Fields
share_payload username recipient doc_id_hex share_blob nonce_b64 req_sig =
    field (codes "sender") (str username) (
      field (codes "recipient") (str recipient) (
        field (codes "doc_id") (str doc_id_hex) (
          field (codes "share_blob") (b64 share_blob) (
            field (codes "request_nonce") (str nonce_b64)
              (field (codes "request_signature") (b64 req_sig) end)))))

unfoldable pub download_payload : Text → Text → Text → List ℕ → Fields
download_payload username doc_id_hex nonce_b64 req_sig = field (codes "user") (str username) (
    field (codes "doc_id") (str doc_id_hex) (
      field (codes "request_nonce") (str nonce_b64)
        (field (codes "request_signature") (b64 req_sig) end)))

unfoldable pub change_password_payload : Text → Text → List ℕ → List ℕ → List ℕ → Fields
change_password_payload username nonce_b64 proof new_salt new_auth_pub =
    field (codes "username") (str username) (
      field (codes "request_nonce") (str nonce_b64) (
        field (codes "old_auth_proof") (b64 proof) (
          field (codes "new_salt") (b64 new_salt) (
            field (codes "new_argon2_params") default_params
              (field (codes "new_auth_pub") (b64 new_auth_pub) end)))))
