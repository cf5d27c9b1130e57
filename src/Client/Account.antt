-- ===== src/Client/Account.antt =====
-- The operations of client/client.py on the account: signup, login, logout and change_password. What
-- `os.urandom` gives to each is an argument, in the order in which the call draws it.
pub mod SignedUp
pub mod Rekeyed
pub mod Unconfirmed
pub mod Sessions
pub mod BrokenOff
use crypto_project.Base.{
  ℕ, List, Option, none, some, Outcome, ok, raise, Exc, assertion_error, client_error,
  keystore_failure, finished, ◌++◌,
}
use crypto_project.Base as Base
use crypto_project.Actions.{Action, ◌>>=◌, ◌>>◌, pure, lift, gets}
use crypto_project.Text.{Text, codes, encode}
use crypto_project.Encodings.Base64.{b64encode}
use crypto_project.Crypto.Hmac.{derive_both}
use crypto_project.Crypto.P256.{Point, scalar_mul_g, point_to_bytes}
use crypto_project.Crypto.Ecdsa.Sign.{generate_keypair}
use crypto_project.Crypto.Ecdh as Ecdh
use crypto_project.Wire.{MsgType}
use crypto_project.Wire.Json.{Json, str, Fields, end, field, get_item, subscript}
use crypto_project.Client.Disk.{Disk}
use crypto_project.Client.Paths.{keystore_path, trust_path}
use crypto_project.Client.Keystore.{
  Loaded, keys, keystore_error, save_keys, load_keys, Rewrapped, rewrapped, not_loaded, rewrap_keys,
}
use crypto_project.Client.TrustStore.{open_store}
use crypto_project.Client.Requests.{
  derive_auth_scalar, default_params, register_payload, login_payload, change_password_payload,
}
use crypto_project.Client.Session.{
  Runtime, no_session, World, assign_fields, write_files, rpc, expect, bytes_at, require_login,
  sign_bytes, sign_text,
}

-- `_derive_master`, with the parameters in a dict
unfoldable pub derive_master : Runtime → Text → List ℕ → Json → Outcome (List ℕ)
derive_master rt password salt params = Base.◌>>=◌ (subscript (codes "t") params) (λ t.
    Base.◌>>=◌ (subscript (codes "m") params) (λ m.
      Base.◌>>=◌ (subscript (codes "p") params)
        (λ p. Base.◌>>=◌ (encode password) (λ secret. rt.argon2 secret salt t m p))))

-- `point_to_bytes(point)` after `assert point is not None`
unfoldable pub asserted : Option Point → Outcome (List ℕ)
asserted none = raise assertion_error
asserted (some p) = point_to_bytes (some p)

unfoldable pub public_bytes : ℕ → Outcome (List ℕ)
public_bytes scalar = Base.◌>>=◌ (scalar_mul_g scalar) asserted

pub record SignupDraws : Type 0 where
  pub salt : List ℕ
  pub sig_draws : List (List ℕ)
  pub dh_draws : List (List ℕ)
  pub keystore_nonce : List ℕ

-- What `signup` works out before it writes.
pub record Identity : Type 0 where
  pub kek : List ℕ
  pub auth_pub : List ℕ
  pub sig : ℕ × List ℕ
  pub dh : ℕ × List ℕ

unfoldable pub new_identity : Runtime → SignupDraws → Text → Outcome Identity
new_identity rt draws password =
    Base.◌>>=◌ (derive_master rt password draws.salt default_params) (λ master.
      let (auth_key, kek) = derive_both master in
      Base.◌>>=◌ (public_bytes (derive_auth_scalar auth_key)) (λ auth_pub.
        Base.◌>>=◌ (Base.◌>>=◌ (generate_keypair draws.sig_draws) finished) (λ sig.
          Base.◌>>=◌ (Base.◌>>=◌ (Ecdh.generate_keypair draws.dh_draws) finished)
            (λ dh. ok (record { kek = kek; auth_pub = auth_pub; sig = sig; dh = dh })))))

unfoldable pub signup : Runtime → SignupDraws → Text → Text → Action World (Unit {0})
signup rt draws username password = do
  new ← lift (new_identity rt draws password)
  write_files (
      save_keys rt.faults draws.keystore_nonce (keystore_path rt.storage_dir username) new.sig.0
        new.dh.0 new.kek)
  reply ←
      rpc rt MsgType.register (register_payload username draws.salt new.auth_pub new.sig.1 new.dh.1)
  _ ← lift (expect MsgType.ok_reply reply)
  pure tt

-- `except KeystoreError as e: raise ClientError`
unfoldable pub loaded_keys : Loaded → Outcome (ℕ × ℕ)
loaded_keys (keys sig_priv dh_priv) = ok (sig_priv, dh_priv)
loaded_keys (keystore_error f) = raise client_error

unfoldable pub load_identity : Runtime → Text → List ℕ → World → Outcome (ℕ × ℕ)
load_identity rt username kek w =
    Base.◌>>=◌ (load_keys (keystore_path rt.storage_dir username) kek w.disk) loaded_keys

unfoldable pub username_payload : Text → Fields
username_payload username = field (codes "username") (str username) end

-- `assert sig_pub_pt is not None and dh_pub_pt is not None`
unfoldable pub both_points : Option Point → Option Point → Outcome (Point × Point)
both_points (some p) (some q) = ok (p, q)
both_points other points = raise assertion_error

-- The assignments at the end of `login`. What raises leaves those before it in place.
unfoldable pub open_session : Runtime → Text → ℕ → ℕ → Action World (Unit {0})
open_session rt username sig_priv dh_priv = do
  sig_pub_pt ← lift (scalar_mul_g sig_priv)
  dh_pub_pt ← lift (scalar_mul_g dh_priv)
  points ← lift (both_points sig_pub_pt dh_pub_pt)
  assign_fields (λ c. record c { username = some username; sig_priv = some sig_priv })
  sig_pub ← lift (point_to_bytes (some points.0))
  assign_fields (λ c. record c { sig_pub_bytes = some sig_pub; dh_priv = some dh_priv })
  dh_pub ← lift (point_to_bytes (some points.1))
  assign_fields (λ c. record c { dh_pub_bytes = some dh_pub })
  store ← gets (λ w. open_store rt.read_json rt.str_of (trust_path rt.storage_dir username) w.disk)
  assign_fields (λ c. record c { trust = some store })

-- The two requests of `login`, and the key that the password gives for the keystore.
unfoldable pub answer_challenge : Runtime → Text → Text → Action World (List ℕ)
answer_challenge rt username password = do
  reply ← rpc rt MsgType.login_challenge_req (username_payload username)
  chal ← lift (expect MsgType.login_challenge reply)
  salt ← lift (bytes_at (codes "salt") chal)
  params ← lift (get_item (codes "argon2_params") chal)
  challenge ← lift (bytes_at (codes "challenge") chal)
  master ← lift (derive_master rt password salt params)
  let (auth_key, kek) = derive_both master
  sig_bytes ← lift (sign_bytes rt (derive_auth_scalar auth_key) challenge)
  answer ← rpc rt MsgType.login_response (login_payload username sig_bytes)
  _ ← lift (expect MsgType.ok_reply answer)
  pure kek

unfoldable pub login : Runtime → Text → Text → Action World (Unit {0})
login rt username password = do
  kek ← answer_challenge rt username password
  identity ← gets (load_identity rt username kek)
  open_session rt username identity.0 identity.1

unfoldable pub logout : Action World (Unit {0})
logout = assign_fields (λ c. no_session)

-- `rewrap_keys`, whose KeystoreError nothing catches.
unfoldable pub after_rewrap : Rewrapped → Outcome (Unit {0})
after_rewrap rewrapped = ok tt
after_rewrap (not_loaded f) = raise keystore_failure

pub record PasswordDraws : Type 0 where
  pub new_salt : List ℕ
  pub nonce : List ℕ
  pub keystore_nonce : List ℕ

-- What `change_password` works out before it writes: the two keys of the keystore and the request.
pub record Change : Type 0 where
  pub old_kek : List ℕ
  pub new_kek : List ℕ
  pub request : Fields

unfoldable pub new_credentials :
    Runtime → PasswordDraws → Text → Text → Text → Fields → World → Outcome Change
new_credentials rt draws username old_password new_password salt_reply w =
    Base.◌>>=◌ (bytes_at (codes "salt") salt_reply) (λ old_salt.
      Base.◌>>=◌ (get_item (codes "argon2_params") salt_reply) (λ old_params.
        Base.◌>>=◌ (derive_master rt old_password old_salt old_params) (λ old_master.
          let (old_auth_key, old_kek) = derive_both old_master in
          Base.◌>>=◌ (load_identity rt username old_kek w) (λ identity.
            Base.◌>>=◌ (derive_master rt new_password draws.new_salt default_params) (λ new_master.
              let (new_auth_key, new_kek) = derive_both new_master in
              Base.◌>>=◌ (public_bytes (derive_auth_scalar new_auth_key)) (λ new_auth_pub.
                let nonce_b64 = b64encode draws.nonce in
                Base.◌>>=◌
                  (sign_text rt (derive_auth_scalar old_auth_key)
                    (codes "change_password:" ++ (username ++ (codes ":" ++ nonce_b64))))
                  (λ proof. ok (record {
                    old_kek = old_kek;
                    new_kek = new_kek;
                    request =
                        change_password_payload username nonce_b64 proof draws.new_salt
                          new_auth_pub;
                  }))))))))

unfoldable pub rewrap_identity : Runtime → PasswordDraws → Text → Change → Action Disk (Unit {0})
rewrap_identity rt draws username change = do
  done ←
      rewrap_keys rt.faults draws.keystore_nonce (keystore_path rt.storage_dir username)
        change.old_kek change.new_kek
  lift (after_rewrap done)

-- The keystore is rewrapped, and then the server is told.
unfoldable pub rewrap_and_tell :
    Runtime → PasswordDraws → Text → Text → Text → Fields → Action World (Unit {0})
rewrap_and_tell rt draws username old_password new_password salt_reply = do
  change ← gets (new_credentials rt draws username old_password new_password salt_reply)
  write_files (rewrap_identity rt draws username change)
  answer ← rpc rt MsgType.change_password change.request
  _ ← lift (expect MsgType.ok_reply answer)
  pure tt

unfoldable pub change_password : Runtime → PasswordDraws → Text → Text → Action World (Unit {0})
change_password rt draws old_password new_password = do
  username ← gets require_login
  reply ← rpc rt MsgType.get_salt (username_payload username)
  salt_reply ← lift (expect MsgType.ok_reply reply)
  rewrap_and_tell rt draws username old_password new_password salt_reply
