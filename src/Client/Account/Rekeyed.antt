-- ===== src/Client/Account/Rekeyed.antt =====
-- What change_password of client/client.py leaves of the keystore.
use mathlib.Core.Path.{subst}
use crypto_project.Base.{
  ℕ, List, some, ok, >>=-eq-ok, ok-injective, ◌⊎◌, ◌≡◌, refl, sym, ap, ◌∙◌, length,
}
use crypto_project.Actions.{pure, lift, bind_inv, gets_inv, lift_inv}
use crypto_project.Text.{Text, codes}
use crypto_project.Crypto.Hmac.{derive_both}
use crypto_project.Wire.Json.{Json, get_item}
use crypto_project.Client.Requests.{derive_auth_scalar, default_params}
use crypto_project.Client.Session.{bytes_at, sign_text}
use crypto_project.Client.Account.{
  derive_master, load_identity, new_credentials, public_bytes, after_rewrap,
}
use crypto_project.Wire.{MsgType}
use crypto_project.Wire.Json.{Fields}
use crypto_project.Client.Disk.{Disk}
use crypto_project.Client.Paths.{keystore_path}
use crypto_project.Client.Keystore.{keys, load_keys, Rewrapped, rewrapped, not_loaded, rewrap_keys}
use crypto_project.Client.Session.{Runtime, World, rpc, expect, require_login, logged_in}
use crypto_project.Client.Session.Steps.{rpc_kept, write_files_inv}
use crypto_project.Client.Account.{
  PasswordDraws, Change, rewrap_identity, rewrap_and_tell, change_password, username_payload,
}
use crypto_project.Client.Keystore.Rewrapping.{IsRewrapped, rewrap_keys-IsRewrapped}

-- The key for the keystore that a master key gives.
abbrev kek_of : List ℕ → List ℕ
kek_of master = (derive_both master).1

-- The key that the old password gives, with a salt and parameters that the server gave, opens the
-- keystore before; the key that the new password gives, with the new salt, opens it after; and the
-- private keys are the same.
pub record IsRekeyed (rt : Runtime) (draws : PasswordDraws) (old_password new_password : Text)
    (path : Text) (before after : Disk) : Type 0 where
  pub old_salt : List ℕ
  pub old_params : Json
  pub old_master : List ℕ
  pub new_master : List ℕ
  pub sig_priv : ℕ
  pub dh_priv : ℕ
  pub from_old : derive_master rt old_password old_salt old_params ≡ ok old_master
  pub from_new : derive_master rt new_password draws.new_salt default_params ≡ ok new_master
  pub opened_before : load_keys path (kek_of old_master) before ≡ ok (keys sig_priv dh_priv)
  pub opens_after : load_keys path (kek_of new_master) after ≡ ok (keys sig_priv dh_priv)

after_rewrap_inv : (r : Rewrapped) (u : Unit {0}) → after_rewrap r ≡ ok u → r ≡ rewrapped
unfolding after_rewrap
after_rewrap_inv rewrapped u h = refl
after_rewrap_inv (not_loaded f) u h = absurd (cc h)

-- What the two keys of a change are made of.
new_credentials-keks :
    (rt : Runtime) (draws : PasswordDraws) (username old_password new_password : Text)
    (salt_reply : Fields) (w : World) (change : Change) (path : Text) (before after : Disk)
    → new_credentials rt draws username old_password new_password salt_reply w ≡ ok change
    → IsRewrapped path change.old_kek change.new_kek before after
    → IsRekeyed rt draws old_password new_password path before after
unfolding new_credentials
new_credentials-keks rt draws username old_password new_password salt_reply w change path before
      after h (a, b, opened, opens) =
    let (old_salt, _, h1) = >>=-eq-ok (bytes_at (codes "salt") salt_reply) _ h in
    let (old_params, _, h2) = >>=-eq-ok (get_item (codes "argon2_params") salt_reply) _ h1 in
    let (old_master, e, h3) = >>=-eq-ok (derive_master rt old_password old_salt old_params) _ h2 in
    let (_, _, h4) = >>=-eq-ok (load_identity rt username (kek_of old_master) w) _ h3 in
    let (new_master, e', h5) =
      >>=-eq-ok (derive_master rt new_password draws.new_salt default_params) _ h4 in
    let (_, _, h6) =
      >>=-eq-ok (public_bytes (derive_auth_scalar (derive_both new_master).0)) _ h5 in
    let (_, _, h7) =
      >>=-eq-ok (sign_text rt (derive_auth_scalar (derive_both old_master).0) _) _ h6 in
    let same = ok-injective h7 in
    record {
      old_salt = old_salt;
      old_params = old_params;
      old_master = old_master;
      new_master = new_master;
      sig_priv = a;
      dh_priv = b;
      from_old = e;
      from_new = e';
      opened_before = ap (λ c. load_keys path c.old_kek before) same ∙ opened;
      opens_after = ap (λ c. load_keys path c.new_kek after) same ∙ opens;
    }

-- The keystore is as it was, or it is rekeyed.
abbrev IsSafe : Runtime → PasswordDraws → Text → Text → Text → World → World → Type 0
IsSafe rt draws old_password new_password path w t =
    (t.disk path ≡ w.disk path) ⊎ IsRekeyed rt draws old_password new_password path w.disk t.disk

module _ (rt : Runtime) (draws : PasswordDraws) (username old_password new_password : Text)
    (salt_reply : Fields) (w : World) where
  rewrap_and_tell-IsRekeyed :
      (u : Unit {0}) (t : World)
      → length draws.keystore_nonce ≡ 12
      → rewrap_and_tell rt draws username old_password new_password salt_reply w ≡ (ok u, t)
      → IsRekeyed rt draws old_password new_password
          (keystore_path rt.storage_dir username)
          w.disk
          t.disk
  unfolding rewrap_and_tell rewrap_identity pure lift
  rewrap_and_tell-IsRekeyed u t n h =
      let path = keystore_path rt.storage_dir username in
      let (change, e, h1) = gets_inv _ _ u w t h in
      let (d, e1, h2) = write_files_inv (rewrap_identity rt draws username change) _ u w t h1 in
      let (r, d', e2, e3) =
        bind_inv (rewrap_keys rt.faults draws.keystore_nonce path change.old_kek change.new_kek)
          (λ r. lift (after_rewrap r)) tt w.disk d e1 in
      let (answer, v, asked, h3) =
        bind_inv (rpc rt MsgType.change_password change.request) _ u _ t h2 in
      let (_, _, h4) = lift_inv (expect MsgType.ok_reply answer) _ u v t h3 in
      let last : t.disk ≡ d' =
        ap (λ x. x.1.disk) (sym h4)
        ∙ (rpc_kept rt _ _ answer (record w { disk = d }) v asked).1
        ∙ sym (ap (λ x. x.1) e3) in
      subst (IsRekeyed rt draws old_password new_password path w.disk) (sym last) (
        new_credentials-keks rt draws username old_password new_password salt_reply w change path
          w.disk d' e
          (rewrap_keys-IsRewrapped rt.faults draws.keystore_nonce path change.old_kek change.new_kek
            w.disk d' n (e2 ∙ ap (λ x. (ok x, d')) (after_rewrap_inv r tt (ap (λ x. x.0) e3)))))

pub username_of :
    (w : World) (username name : Text)
    → w.client.username ≡ some username
    → require_login w ≡ ok name
    → name ≡ username
unfolding require_login logged_in
username_of w username name there h = cc (rw there at h)

module _ (rt : Runtime) (draws : PasswordDraws) (username old_password new_password : Text)
    (w : World) where
  -- When change_password returns, with a nonce of 12 bytes and a user that is logged in, the key that the
  -- new password gives with the new salt opens the user's keystore to the two private keys to which it
  -- was opened before by the key that the old password gives with a salt and parameters of the server.
  pub change_password-IsRekeyed :
      (u : Unit {0}) (t : World)
      → length draws.keystore_nonce ≡ 12
      → w.client.username ≡ some username
      → change_password rt draws old_password new_password w ≡ (ok u, t)
      → IsRekeyed rt draws old_password new_password
          (keystore_path rt.storage_dir username)
          w.disk
          t.disk
  unfolding change_password
  change_password-IsRekeyed u t n there h =
      let (name, e, h1) = gets_inv require_login _ u w t h in
      let (reply, v, asked, h2) =
        bind_inv (rpc rt MsgType.get_salt (username_payload name)) _ u w t h1 in
      let (salt_reply, _, h3) = lift_inv (expect MsgType.ok_reply reply) _ u v t h2 in
      subst
        (λ x.
          IsRekeyed rt draws old_password new_password (keystore_path rt.storage_dir username) x
            t.disk)
        (rpc_kept rt _ _ reply w v asked).1
        (subst
          (λ x.
            IsRekeyed rt draws old_password new_password (keystore_path rt.storage_dir x) v.disk
              t.disk)
          (username_of w username name there e)
          (rewrap_and_tell-IsRekeyed rt draws name old_password new_password salt_reply v u t n h3))
