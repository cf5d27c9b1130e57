-- ===== src/Client/Account/Sessions.antt =====
-- Logging in and out in client/client.py: what the client's fields are after a login that returned or
-- was broken off, and what a client without a user does.
use crypto_project.Base.{
  ℕ, List, Option, none, some, ok, >>=-eq-ok, ok-injective, ◌≡◌, refl, sym, ap, ◌∙◌,
}
use crypto_project.Actions.{Action, ◌>>=◌, pure, bind_inv, gets_inv, lift_inv, bind_both, lift_both}
use crypto_project.Text.{Text}
use crypto_project.Wire.{MsgType}
use crypto_project.Crypto.P256.{Point, scalar_mul_g, point_to_bytes}
use crypto_project.Client.Paths.{keystore_path, trust_path}
use crypto_project.Client.Keystore.{Loaded, keys, keystore_error, load_keys}
use crypto_project.Client.TrustStore.{TrustStore, open_store}
use crypto_project.Client.Session.{Runtime, SecureVaultClient, World, assign_fields, rpc}
use crypto_project.Client.Account.{
  asserted, public_bytes, load_identity, loaded_keys, both_points, open_session, answer_challenge,
  login, username_payload,
}

-- The fields of the client are those of a user, and the files are as they were before.
pub record IsLoggedIn (rt : Runtime) (username : Text) (w t : World) : Type 0 where
  pub kek : List ℕ
  pub sig_priv : ℕ
  pub dh_priv : ℕ
  pub sig_pub : List ℕ
  pub dh_pub : List ℕ
  pub store : TrustStore
  pub loaded :
      load_keys (keystore_path rt.storage_dir username) kek w.disk ≡ ok (keys sig_priv dh_priv)
  pub sig_public : public_bytes sig_priv ≡ ok sig_pub
  pub dh_public : public_bytes dh_priv ≡ ok dh_pub
  pub contacts :
      open_store rt.read_json rt.str_of (trust_path rt.storage_dir username) w.disk ≡ ok store
  pub fields : t.client ≡ record {
    username = some username;
    sig_priv = some sig_priv;
    sig_pub_bytes = some sig_pub;
    dh_priv = some dh_priv;
    dh_pub_bytes = some dh_pub;
    trust = some store;
  }
  pub files : t.disk ≡ w.disk

loaded_keys_inv : (l : Loaded) (p : ℕ × ℕ) → loaded_keys l ≡ ok p → l ≡ keys p.0 p.1
unfolding loaded_keys
loaded_keys_inv (keys a b) p h = ap (λ x. keys x.0 x.1) (ok-injective h)
loaded_keys_inv (keystore_error f) p h = cc h

load_identity_inv :
    (rt : Runtime) (username : Text) (kek : List ℕ) (w : World) (p : ℕ × ℕ)
    → load_identity rt username kek w ≡ ok p
    → load_keys (keystore_path rt.storage_dir username) kek w.disk ≡ ok (keys p.0 p.1)
unfolding load_identity
load_identity_inv rt username kek w p h =
    let (l, e, h1) = >>=-eq-ok (load_keys (keystore_path rt.storage_dir username) kek w.disk) _ h in
    e ∙ ap ok (loaded_keys_inv l p h1)

both_points_inv :
    (a b : Option Point) (p : Point × Point)
    → both_points a b ≡ ok p
    → (a ≡ some p.0) × (b ≡ some p.1)
unfolding both_points
both_points_inv (some x) (some y) p h =
    (ap (λ z. some z.0) (ok-injective h), ap (λ z. some z.1) (ok-injective h))
both_points_inv none none p h = absurd (cc h)
both_points_inv none (some y) p h = absurd (cc h)
both_points_inv (some x) none p h = absurd (cc h)

public_bytes_lem :
    (scalar : ℕ) (o : Option Point) (p : Point) (bytes : List ℕ)
    → scalar_mul_g scalar ≡ ok o
    → o ≡ some p
    → point_to_bytes (some p) ≡ ok bytes
    → public_bytes scalar ≡ ok bytes
unfolding public_bytes asserted
public_bytes_lem scalar o p bytes e is_p h = rw (e, is_p) h

assign_fields_inv :
    {A : Type 0} (f : SecureVaultClient → SecureVaultClient) (k : Unit {0} → Action World A) (a : A)
    (w t : World)
    → (assign_fields f >>= k) w ≡ (ok a, t)
    → k tt (record w { client = f w.client }) ≡ (ok a, t)
unfolding assign_fields ◌>>=◌
assign_fields_inv f k a w t h = h

-- The fields that `open_session` has set when it returns.
pub record IsOpened (rt : Runtime) (username : Text) (sig_priv dh_priv : ℕ) (w t : World)
    : Type 0 where
  pub sig_pub : List ℕ
  pub dh_pub : List ℕ
  pub store : TrustStore
  pub sig_public : public_bytes sig_priv ≡ ok sig_pub
  pub dh_public : public_bytes dh_priv ≡ ok dh_pub
  pub contacts :
      open_store rt.read_json rt.str_of (trust_path rt.storage_dir username) w.disk ≡ ok store
  pub whole : t ≡ record w {
    client = record {
      username = some username;
      sig_priv = some sig_priv;
      sig_pub_bytes = some sig_pub;
      dh_priv = some dh_priv;
      dh_pub_bytes = some dh_pub;
      trust = some store;
    };
  }

pub open_session-IsOpened :
    (rt : Runtime) (username : Text) (sig_priv dh_priv : ℕ) (w t : World) (u : Unit {0})
    → open_session rt username sig_priv dh_priv w ≡ (ok u, t)
    → IsOpened rt username sig_priv dh_priv w t
unfolding open_session assign_fields
open_session-IsOpened rt username sig_priv dh_priv w t u h =
    let (a, ea, h1) = lift_inv (scalar_mul_g sig_priv) _ u w t h in
    let (b, eb, h2) = lift_inv (scalar_mul_g dh_priv) _ u w t h1 in
    let (p, ep, h3) = lift_inv (both_points a b) _ u w t h2 in
    let (is_a, is_b) = both_points_inv a b p ep in
    let h4 = assign_fields_inv _ _ u w t h3 in
    let (sig_pub, es, h5) = lift_inv (point_to_bytes (some p.0)) _ u _ t h4 in
    let h6 = assign_fields_inv _ _ u _ t h5 in
    let (dh_pub, ed, h7) = lift_inv (point_to_bytes (some p.1)) _ u _ t h6 in
    let h8 = assign_fields_inv _ _ u _ t h7 in
    let (store, et, h9) = gets_inv _ _ u _ t h8 in
    record {
      sig_pub = sig_pub;
      dh_pub = dh_pub;
      store = store;
      sig_public = public_bytes_lem sig_priv a p.0 sig_pub ea is_a es;
      dh_public = public_bytes_lem dh_priv b p.1 dh_pub eb is_b ed;
      contacts = et;
      whole = sym (ap (λ x. x.1) h9);
    }

-- The two requests of `login` change nothing but what was sent.
pub answer_challenge-stays :
    (rt : Runtime) (username password : Text) (w : World)
    → ((answer_challenge rt username password w).1.client ≡ w.client)
      × ((answer_challenge rt username password w).1.disk ≡ w.disk)
unfolding answer_challenge rpc pure
answer_challenge-stays rt username password w =
    let P : World → Type 0 = λ t. (t.client ≡ w.client) × (t.disk ≡ w.disk) in
    bind_both P (rpc rt MsgType.login_challenge_req (username_payload username)) _ w (refl, refl)
      (λ reply e.
        lift_both P _ _ _ (refl, refl)
          (λ chal e1.
            lift_both P _ _ _ (refl, refl)
              (λ salt e2.
                lift_both P _ _ _ (refl, refl)
                  (λ params e3.
                    lift_both P _ _ _ (refl, refl)
                      (λ challenge e4.
                        lift_both P _ _ _ (refl, refl)
                          (λ master e5.
                            lift_both P _ _ _ (refl, refl)
                              (λ sig_bytes e6.
                                bind_both P (rpc rt MsgType.login_response _) _ _ (refl, refl)
                                  (λ answer e7.
                                    lift_both P _ _ _ (refl, refl) (λ _ e8. (refl, refl))))))))))

-- When `login` returns, some key has opened the user's keystore, the client has the two private keys in
-- it with their public keys and the user's store of contacts, and no file has changed.
pub login-IsLoggedIn :
    (rt : Runtime) (username password : Text) (w t : World) (u : Unit {0})
    → login rt username password w ≡ (ok u, t)
    → IsLoggedIn rt username w t
unfolding login
login-IsLoggedIn rt username password w t u h =
    let (kek, v, e, h1) = bind_inv (answer_challenge rt username password) _ u w t h in
    let (identity, e1, h2) = gets_inv (load_identity rt username kek) _ u v t h1 in
    let o = open_session-IsOpened rt username identity.0 identity.1 v t u h2 in
    let disk : v.disk ≡ w.disk =
      ap (λ x. x.1.disk) (sym e) ∙ (answer_challenge-stays rt username password w).1 in
    record {
      kek = kek;
      sig_priv = identity.0;
      dh_priv = identity.1;
      sig_pub = o.sig_pub;
      dh_pub = o.dh_pub;
      store = o.store;
      loaded =
          ap (load_keys (keystore_path rt.storage_dir username) kek) (sym disk)
          ∙ load_identity_inv rt username kek v identity e1;
      sig_public = o.sig_public;
      dh_public = o.dh_public;
      contacts =
          ap (open_store rt.read_json rt.str_of (trust_path rt.storage_dir username)) (sym disk)
          ∙ o.contacts;
      fields = ap (λ x. x.client) o.whole;
      files = ap (λ x. x.disk) o.whole ∙ disk;
    }
