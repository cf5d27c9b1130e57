-- ===== src/Client/Session.antt =====
-- What the operations of client/client.py stand on: the client's own fields, the files, the requests
-- sent so far, and the peer. The peer is any function of the requests sent so far, so the server, a
-- server that lies and a proxy between the two are instances of it.
pub mod Steps
use crypto_project.Base.{
  ℕ, Bool, true, false, List, [], ◌∷◌, ◌++◌, Option, none, some, ◌==◌, if◌then◌else◌, Outcome, ok,
  raise, Exc, value_error, type_error, assertion_error, connection_error, os_error, client_error,
  finished, ◌>>=◌, ◌===◌,
}
use crypto_project.Actions.{Action}
use crypto_project.Text.{Text, encode}
use crypto_project.Encodings.Base64.{b64decode}
use crypto_project.Crypto.Ecdsa.{signature_to_bytes}
use crypto_project.Crypto.Ecdsa.Sign.{sign}
use crypto_project.Wire.{MsgType, msg_code}
use crypto_project.Wire.Json.{Json, str, null, Fields, end, field, get_item, Message}
use crypto_project.Client.Disk.{Disk, Faults}
use crypto_project.Client.TrustStore.{TrustStore}

-- What the client calls and is not code of the repository, and the bound on the loop of RFC 6979.
pub record Runtime : Type 0 where
  -- `hash_secret_raw(secret, salt, time_cost, memory_cost, parallelism, hash_len=32, type=Type.ID)`
  pub argon2 : List ℕ → List ℕ → Json → Json → Json → Outcome (List ℕ)
  pub write_json : Fields → List ℕ
  pub read_json : List ℕ → Outcome Json
  pub faults : Faults
  pub str_of : Json → Text
  pub tofu_prompt : Text → Text → Bool
  pub peer : List Message → Outcome Message
  pub storage_dir : Text
  pub rounds : ℕ

pub record SecureVaultClient : Type 0 where
  pub username : Option Text
  pub sig_priv : Option ℕ
  pub sig_pub_bytes : Option (List ℕ)
  pub dh_priv : Option ℕ
  pub dh_pub_bytes : Option (List ℕ)
  pub trust : Option TrustStore

-- The fields that `__init__` sets, and those that `logout` leaves.
unfoldable pub no_session : SecureVaultClient
no_session = record {
  username = none;
  sig_priv = none;
  sig_pub_bytes = none;
  dh_priv = none;
  dh_pub_bytes = none;
  trust = none;
}

pub record World : Type 0 where
  pub disk : Disk
  pub client : SecureVaultClient
  pub sent : List Message

-- A change of the client's fields.
unfoldable pub assign_fields : (SecureVaultClient → SecureVaultClient) → Action World (Unit {0})
assign_fields f w = (ok tt, record w { client = f w.client })

abbrev pub stored : World → Outcome (Unit {0}) × Disk → Outcome (Unit {0}) × World
stored w (o, disk) = (o, record w { disk = disk })

-- A step on the files.
unfoldable pub write_files : Action Disk (Unit {0}) → Action World (Unit {0})
write_files f w = stored w (f w.disk)

unfoldable pub contents_of : Option (List ℕ) → Outcome (List ℕ)
contents_of none = raise os_error
contents_of (some contents) = ok contents

-- `with open(path, "rb") as f: f.read()`
unfoldable pub read_file : Text → World → Outcome (List ℕ)
read_file path w = contents_of (w.disk path)

unfoldable pub is_network_error : Exc → Bool
is_network_error connection_error = true
is_network_error os_error = true
is_network_error value_error = true
is_network_error other = false

unfoldable pub received : Outcome Message → Outcome Message
received (ok reply) = ok reply
received (raise e) = if is_network_error e then raise client_error else raise e

unfoldable pub rpc : Runtime → MsgType → Fields → Action World Message
rpc rt msg_type payload w =
    let sent = w.sent ++ ((msg_type, payload) ∷ []) in
    (received (rt.peer sent), record w { sent = sent })

unfoldable pub expect : MsgType → Message → Outcome Fields
expect expected reply =
    if msg_code reply.0 == msg_code expected then ok reply.1 else raise client_error

-- `base64.b64decode(v)` of what JSON carries
unfoldable pub decode_b64 : Json → Outcome (List ℕ)
decode_b64 (str s) = b64decode s
decode_b64 other = raise type_error

-- `base64.b64decode(payload[key])`
unfoldable pub bytes_at : Text → Fields → Outcome (List ℕ)
bytes_at key payload = get_item key payload >>= decode_b64

-- `payload.get(key)`, which is None too where the value is null
unfoldable pub get : Text → Fields → Option Json
get key end = none
get key (field k null fs) = let rest = get key fs in if k === key then none else rest
get key (field k v fs) = let rest = get key fs in if k === key then some v else rest

unfoldable pub default_tofu_prompt : Text → Text → Bool
default_tofu_prompt username fingerprint = true

unfoldable pub logged_in : Option Text → Outcome Text
logged_in none = raise client_error
logged_in (some username) = ok username

-- `_require_login`
unfoldable pub require_login : World → Outcome Text
require_login w = logged_in w.client.username

-- `assert x is not None`
unfoldable pub present {ℓ} : {A : Type ℓ} → Option A → Outcome A
present none = raise assertion_error
present (some a) = ok a

-- `assert self.username`, which the empty name does not pass
unfoldable pub named : Option Text → Outcome Text
named none = raise assertion_error
named (some []) = raise assertion_error
named (some (c ∷ s)) = ok (c ∷ s)

-- `assert self.username and self.sig_priv is not None`
unfoldable pub signer : World → Outcome (Text × ℕ)
signer w = do
  username ← named w.client.username
  sig_priv ← present w.client.sig_priv
  ok (username, sig_priv)

-- `assert self.username and self.dh_priv is not None`
unfoldable pub holder : World → Outcome (Text × ℕ)
holder w = do
  username ← named w.client.username
  dh_priv ← present w.client.dh_priv
  ok (username, dh_priv)

-- `signature_to_bytes(ecdsa_sign(private_scalar, message))`
unfoldable pub sign_bytes : Runtime → ℕ → List ℕ → Outcome (List ℕ)
sign_bytes rt private_scalar message = do
  signed ← sign rt.rounds private_scalar message
  sig ← finished signed
  signature_to_bytes sig

-- `signature_to_bytes(ecdsa_sign(private_scalar, canonical.encode()))`
unfoldable pub sign_text : Runtime → ℕ → Text → Outcome (List ℕ)
sign_text rt private_scalar canonical = encode canonical >>= sign_bytes rt private_scalar
