-- ===== src/Client/Contacts.antt =====
-- The keys of contacts in client/client.py: `_get_verified_pubkey`, which asks the server and then
-- the trust store, and mark_contact_verified.
pub mod Grows
pub mod Trusted
use crypto_project.Base.{
  ℕ, Bool, true, false, List, Option, none, some, ◌===◌, if◌then◌else◌, Outcome, ok, raise,
  client_error,
}
use crypto_project.Base as Base
use crypto_project.Actions.{Action, ◌>>=◌, ◌>>◌, pure, lift, gets}
use crypto_project.Text.{Text, codes}
use crypto_project.Wire.{MsgType}
use crypto_project.Client.Disk.{Disk}
use crypto_project.Client.TrustStore.{
  TrustStore, TrustEntry, compute_fingerprint, Checked, trusted, no_entry, key_mismatch, check,
  record_first_contact, mark_verified,
}
use crypto_project.Client.Account.{username_payload}
use crypto_project.Client.Session.{Runtime, World, rpc, expect, bytes_at, require_login, present}

-- What a call of the trust store leaves, in the client and on the disk.
unfoldable pub keep_store :
    World → Outcome TrustEntry × (TrustStore × Disk) → Outcome (Unit {0}) × World
keep_store w (ok entry, (store, disk)) =
    (ok tt, record w { client = record w.client { trust = some store }; disk = disk })
keep_store w (raise e, (store, disk)) =
    (raise e, record w { client = record w.client { trust = some store }; disk = disk })

-- A call of a method of `self.trust` that writes.
unfoldable pub with_store :
    Action (TrustStore × Disk) TrustEntry → TrustStore → Action World (Unit {0})
with_store method store w = keep_store w (method (store, w.disk))

-- The first contact, and the mismatch that KeyMismatchError reports.
unfoldable pub after_check :
    Runtime → Text → List ℕ → List ℕ → TrustStore → Checked → Action World (Unit {0})
after_check rt username sig_pub dh_pub store (trusted e) = pure tt
after_check rt username sig_pub dh_pub store (key_mismatch e seen) = lift (raise client_error)
after_check rt username sig_pub dh_pub store no_entry =
    if rt.tofu_prompt username (compute_fingerprint sig_pub dh_pub)
    then with_store (record_first_contact rt.faults rt.write_json username sig_pub dh_pub) store
    else lift (raise client_error)

-- The keys that the server gives, run through the trust store.
unfoldable pub contact_pubkey : Runtime → Text → TrustStore → Action World (List ℕ × List ℕ)
contact_pubkey rt username store = do
  reply ← rpc rt MsgType.get_user_pubkey (username_payload username)
  payload ← lift (expect MsgType.user_pubkey reply)
  sig_pub ← lift (bytes_at (codes "sig_pub") payload)
  dh_pub ← lift (bytes_at (codes "dh_pub") payload)
  after_check rt username sig_pub dh_pub store (check username sig_pub dh_pub store)
  pure (sig_pub, dh_pub)

-- `username == self.username`
unfoldable pub is_self : Text → Option Text → Bool
is_self username none = false
is_self username (some name) = username === name

unfoldable pub own_pubkey : World → Outcome (List ℕ × List ℕ)
own_pubkey w =
    Base.◌>>=◌ (present w.client.sig_pub_bytes)
      (λ sig_pub. Base.◌>>=◌ (present w.client.dh_pub_bytes) (λ dh_pub. ok (sig_pub, dh_pub)))

unfoldable pub get_verified_pubkey : Runtime → Text → Action World (List ℕ × List ℕ)
get_verified_pubkey rt username = do
  store ← gets (λ w. present w.client.trust)
  own ← gets (λ w. ok (is_self username w.client.username))
  if own then gets own_pubkey else contact_pubkey rt username store

unfoldable pub mark_contact_verified : Runtime → Text → Action World (Unit {0})
mark_contact_verified rt username = do
  _ ← gets require_login
  store ← gets (λ w. present w.client.trust)
  with_store (mark_verified rt.faults rt.write_json username) store
