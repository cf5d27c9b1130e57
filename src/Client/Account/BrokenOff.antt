-- ===== src/Client/Account/BrokenOff.antt =====
-- The end of a login of client/client.py, where the reading of the store of contacts returns or raises.
use crypto_project.Base.{
  ℕ, List, Option, none, some, Outcome, ok, raise, Exc, >>=-eq-ok, ◌≡◌, refl, sym, ap, ◌∙◌,
}
use crypto_project.Actions.{Action, ◌>>=◌, lift, gets}
use crypto_project.Text.{Text}
use crypto_project.Actions.{bind_inv, gets_inv, bind_ok, gets_ok}
use crypto_project.Wire.Json.{Json}
use crypto_project.Client.Session.{rpc, sign_bytes, SecureVaultClient}
use crypto_project.Client.Account.{derive_master, answer_challenge, load_identity, login}
use crypto_project.Client.Account.Sessions.{open_session-IsOpened, answer_challenge-stays}
use crypto_project.Crypto.P256.{Point, scalar_mul_g, point_to_bytes}
use crypto_project.Client.Paths.{trust_path}
use crypto_project.Client.TrustStore.{TrustStore, open_store}
use crypto_project.Client.Session.{Runtime, World, assign_fields}
use crypto_project.Client.Account.{asserted, public_bytes, both_points, open_session}

asserted_inv :
    (o : Option Point) (bytes : List ℕ)
    → asserted o ≡ ok bytes
    → (p : Point) × (o ≡ some p) × (point_to_bytes (some p) ≡ ok bytes)
unfolding asserted
asserted_inv none bytes h = cc h
asserted_inv (some p) bytes h = (p, refl, h)

public_bytes_inv :
    (scalar : ℕ) (bytes : List ℕ)
    → public_bytes scalar ≡ ok bytes
    → (p : Point) × (scalar_mul_g scalar ≡ ok (some p)) × (point_to_bytes (some p) ≡ ok bytes)
unfolding public_bytes
public_bytes_inv scalar bytes h =
    let (o, e, h1) = >>=-eq-ok (scalar_mul_g scalar) _ h in
    let (p, is_p, h2) = asserted_inv o bytes h1 in (p, e ∙ ap ok is_p, h2)

store_raises :
    {A B : Type 0} (f : World → Outcome A) (k : A → Action World B) (w : World) (e : Exc)
    → f w ≡ raise e
    → (gets f >>= k) w ≡ (raise e, w)
unfolding gets ◌>>=◌
store_raises f k w e h = rw h refl

pub open_session-left_open :
    (rt : Runtime) (username : Text) (sig_priv dh_priv : ℕ) (sig_pub dh_pub : List ℕ) (w : World)
    (e : Exc)
    → public_bytes sig_priv ≡ ok sig_pub
    → public_bytes dh_priv ≡ ok dh_pub
    → open_store rt.read_json rt.str_of (trust_path rt.storage_dir username) w.disk ≡ raise e
    → open_session rt username sig_priv dh_priv w ≡ (
      raise e,
      record w {
        client = record {
          username = some username;
          sig_priv = some sig_priv;
          sig_pub_bytes = some sig_pub;
          dh_priv = some dh_priv;
          dh_pub_bytes = some dh_pub;
          trust = w.client.trust;
        };
      },
    )
unfolding open_session both_points assign_fields ◌>>=◌ lift gets
open_session-left_open rt username sig_priv dh_priv sig_pub dh_pub w e hs hd raises =
    let (p, ep, esp) = public_bytes_inv sig_priv sig_pub hs in
    let (q, eq, esq) = public_bytes_inv dh_priv dh_pub hd in rw (ep, eq, esp, esq, raises) refl

-- Where it returns, all six fields are set.
pub open_session-opens :
    (rt : Runtime) (username : Text) (sig_priv dh_priv : ℕ) (sig_pub dh_pub : List ℕ) (w : World)
    (store : TrustStore)
    → public_bytes sig_priv ≡ ok sig_pub
    → public_bytes dh_priv ≡ ok dh_pub
    → open_store rt.read_json rt.str_of (trust_path rt.storage_dir username) w.disk ≡ ok store
    → open_session rt username sig_priv dh_priv w ≡ (
      ok tt,
      record w {
        client = record {
          username = some username;
          sig_priv = some sig_priv;
          sig_pub_bytes = some sig_pub;
          dh_priv = some dh_priv;
          dh_pub_bytes = some dh_pub;
          trust = some store;
        };
      },
    )
unfolding open_session both_points assign_fields ◌>>=◌ lift gets
open_session-opens rt username sig_priv dh_priv sig_pub dh_pub w store hs hd reads =
    let (p, ep, esp) = public_bytes_inv sig_priv sig_pub hs in
    let (q, eq, esq) = public_bytes_inv dh_priv dh_pub hd in rw (ep, eq, esp, esq, reads) refl

-- Where `login` returns, the same call with a store of contacts whose reading raises makes `login` raise
-- the same, and leaves the files, the requests sent, the user and the keys as the call that returned
-- does, with the store that was there before: the client counts as logged in.
pub login-left_open :
    (rt : Runtime) (read : List ℕ → Outcome Json) (username password : Text) (w t : World)
    (u : Unit {0}) (e : Exc)
    → login rt username password w ≡ (ok u, t)
    → open_store read rt.str_of (trust_path rt.storage_dir username) w.disk ≡ raise e
    → login (record rt { read_json = read }) username password w
      ≡ (raise e, record t { client = record t.client { trust = w.client.trust } })
unfolding login answer_challenge load_identity derive_master sign_bytes rpc
login-left_open rt read username password w t u e h raises =
    let rt' : Runtime = record rt { read_json = read } in
    let (kek, v, asked, h1) = bind_inv (answer_challenge rt username password) _ u w t h in
    let (identity, loaded, h2) = gets_inv (load_identity rt username kek) _ u v t h1 in
    let o = open_session-IsOpened rt username identity.0 identity.1 v t u h2 in
    let stays = answer_challenge-stays rt username password w in
    let disk : v.disk ≡ w.disk = ap (λ x. x.1.disk) (sym asked) ∙ stays.1 in
    let client : v.client ≡ w.client = ap (λ x. x.1.client) (sym asked) ∙ stays.0 in
    bind_ok (answer_challenge rt' username password) _ w v kek asked
    ∙ gets_ok (load_identity rt' username kek) _ v identity loaded
    ∙ open_session-left_open rt' username identity.0 identity.1 o.sig_pub o.dh_pub v e o.sig_public
        o.dh_public
        (ap (open_store read rt.str_of (trust_path rt.storage_dir username)) disk ∙ raises)
    ∙ ap (λ x. (raise e, x))
        (ap {A = SecureVaultClient}
            (λ c. record v {
              client = record {
                username = some username;
                sig_priv = some identity.0;
                sig_pub_bytes = some o.sig_pub;
                dh_priv = some identity.1;
                dh_pub_bytes = some o.dh_pub;
                trust = c.trust;
              };
            })
            client
          ∙ ap {A = World} (λ x. record x { client = record x.client { trust = w.client.trust } })
              (sym o.whole))
