-- ===== src/Client/Keystore.antt =====
-- The keystore of client/keystore.py. The nonce that `os.urandom` gives is an argument, a private
-- key is a number, and KeystoreError is a result with its cause.
pub mod RoundTrip
pub mod Crash
pub mod Rewrapping
use crypto_project.Base.{
  ℕ, Bool, true, false, List, [], ◌∷◌, ◌++◌, length, take, drop, get_or, Option, none, some, ◌===◌,
  ◌==◌, ◌+◌, not, if◌then◌else◌, Outcome, ok, raise, require, ◌>>=◌, ◌>>◌, value_error,
}
use crypto_project.Bytes.{to_bytes, from_bytes}
use crypto_project.Text.{Text, codes}
use crypto_project.Crypto.Gcm.{encrypt, decrypt}
use crypto_project.Actions.{Action, pure, lift, gets}
use crypto_project.Actions as Actions
use crypto_project.Client.Disk.{Disk, FileOp, open_file, write, sync, rename, Faults, perform}

abbrev pub magic : List ℕ
magic = codes "SVKS"

abbrev pub version : ℕ
version = 1

abbrev pub nonce_len : ℕ
nonce_len = 12

abbrev pub plaintext_len : ℕ
plaintext_len = 64

abbrev pub tag_len : ℕ
tag_len = 16

-- The causes of a KeystoreError.
pub data Fault : Type 0 where
  not_found wrong_length bad_magic unsupported_version wrong_password : Fault

pub data Loaded : Type 0 where
  keys : ℕ → ℕ → Loaded
  keystore_error : Fault → Loaded

abbrev pub aad : List ℕ
aad = magic ++ (version ∷ [])

abbrev pub temporary : Text → Text
temporary path = path ++ codes ".tmp"

-- The calls of `_atomic_write` on files, in their order.
unfoldable pub atomic_ops : Text → List ℕ → List FileOp
atomic_ops path contents =
    open_file (temporary path)
    ∷ write (temporary path) contents
    ∷ sync (temporary path)
    ∷ rename (temporary path) path
    ∷ []

unfoldable pub atomic_write : Faults → Text → List ℕ → Action Disk (Unit {0})
atomic_write faults path contents = perform faults (atomic_ops path contents)

unfoldable pub encode_scalars : ℕ → ℕ → Outcome (List ℕ)
encode_scalars sig_priv dh_priv = do
  sig ← to_bytes 32 sig_priv
  dh ← to_bytes 32 dh_priv
  ok (sig ++ dh)

unfoldable pub decode_scalars : List ℕ → Loaded
decode_scalars plaintext = keys (from_bytes (take 32 plaintext)) (from_bytes (drop 32 plaintext))

-- The file that `save_keys` writes.
unfoldable pub seal : List ℕ → ℕ → ℕ → List ℕ → Outcome (List ℕ)
seal nonce sig_priv dh_priv kek = do
  require (length kek == 32) value_error
  plaintext ← encode_scalars sig_priv dh_priv
  sealed ← encrypt kek nonce plaintext aad
  ok (magic ++ (version ∷ (nonce ++ (sealed.0 ++ sealed.1))))

unfoldable pub save_keys : Faults → List ℕ → Text → ℕ → ℕ → List ℕ → Action Disk (Unit {0})
save_keys faults nonce path sig_priv dh_priv kek =
    Actions.◌>>=◌ (lift (seal nonce sig_priv dh_priv kek)) (λ blob. atomic_write faults path blob)

unfoldable pub decoded : Option (List ℕ) → Loaded
decoded none = keystore_error wrong_password
decoded (some plaintext) = decode_scalars plaintext

unfoldable pub open_blob : List ℕ → List ℕ → Outcome Loaded
open_blob kek blob =
    if not (length blob == 4 + 1 + nonce_len + plaintext_len + tag_len)
    then ok (keystore_error wrong_length)
    else if not (take 4 blob === magic)
    then ok (keystore_error bad_magic)
    else if not (get_or blob 4 0 == version)
    then ok (keystore_error unsupported_version)
    else (do
      plaintext ←
          decrypt kek (take nonce_len (drop 5 blob))
            (take plaintext_len (drop (5 + nonce_len) blob))
            (drop (5 + nonce_len + plaintext_len) blob) aad
      ok (decoded plaintext))

unfoldable pub open_stored : List ℕ → Option (List ℕ) → Outcome Loaded
open_stored kek none = ok (keystore_error not_found)
open_stored kek (some blob) = open_blob kek blob

unfoldable pub load_keys : Text → List ℕ → Disk → Outcome Loaded
load_keys path kek disk = do require (length kek == 32) value_error; open_stored kek (disk path)

-- How `rewrap_keys` ends: the keys are saved, or the load ends in a KeystoreError.
pub data Rewrapped : Type 0 where
  rewrapped : Rewrapped
  not_loaded : Fault → Rewrapped

unfoldable pub save_loaded : Faults → List ℕ → Text → List ℕ → Loaded → Action Disk Rewrapped
save_loaded faults nonce path new_kek (keystore_error f) = pure (not_loaded f)
save_loaded faults nonce path new_kek (keys sig_priv dh_priv) =
    Actions.◌>>=◌ (save_keys faults nonce path sig_priv dh_priv new_kek) (λ _. pure rewrapped)

unfoldable pub rewrap_keys : Faults → List ℕ → Text → List ℕ → List ℕ → Action Disk Rewrapped
rewrap_keys faults nonce path old_kek new_kek =
    Actions.◌>>=◌ (gets (load_keys path old_kek)) (save_loaded faults nonce path new_kek)
