-- ===== src/Client/Contacts/Grows.antt =====
-- What asking for the keys of a contact can do to the client and to the files: the store of
-- contacts may get entries, and nothing else changes.
use mathlib.Core.Path.{subst}
use crypto_project.Client.Keystore.{atomic_ops, atomic_write}
use crypto_project.Client.Keystore.Crash.{IsSettled, atomic_write-IsSettled}
use crypto_project.Base.{
  ℕ, Bool, true, false, Bool-cases, Option-cases, inl, inr, List, ◌++◌, Option, none, some, ◌===◌,
  ===→eq, if◌then◌else◌, if_both, Outcome, ok, raise, client_error, ◌≡◌, refl, sym, ap, ◌∙◌,
}
use crypto_project.Actions.{
  Action, ◌>>=◌, pure, lift, gets, bind_both, gets_both, lift_both, bind-pure_state,
}
use crypto_project.Text.{Text, codes}
use crypto_project.Wire.{MsgType}
use crypto_project.Wire.Json.{Fields}
use crypto_project.Client.Disk.{Disk, Faults}
use crypto_project.Client.TrustStore.{
  TrustStore, TrustEntry, lookup, to_fields, save, store_entry, first_entry, record_first_contact,
  Checked, trusted, no_entry, key_mismatch, compute_fingerprint, unverified,
}
use crypto_project.Client.TrustStore.Kept.{lookup-assign_other}
use crypto_project.Client.Session.{Runtime, SecureVaultClient, World, rpc}
use crypto_project.Client.Session.Steps.{present-eq-ok}
use crypto_project.Client.Contacts.{
  keep_store, with_store, after_check, contact_pubkey, own_pubkey, get_verified_pubkey,
}

-- Every entry is still there, and the file has the same name.
abbrev pub Extends : Option TrustStore → Option TrustStore → Type 0
Extends none none = Unit {0}
Extends none (some t) = ⊥
Extends (some s) none = ⊥
Extends (some s) (some t) =
    (t.path ≡ s.path)
    × ((name : Text) (e : TrustEntry)
        → lookup name s.entries ≡ some e
        → lookup name t.entries ≡ some e)

-- A file that the store does not write.
abbrev pub IsApart : Text → Option TrustStore → Type 0
IsApart q none = Unit {0}
IsApart q (some s) = ((q === s.path) ≡ false) × ((q === (s.path ++ codes ".tmp")) ≡ false)

pub record Grows (w t : World) : Type 0 where
  pub session : t.client ≡ record w.client { trust = t.client.trust }
  pub store : Extends w.client.trust t.client.trust
  pub files : (q : Text) → IsApart q w.client.trust → t.disk q ≡ w.disk q

Extends-refl : (s : Option TrustStore) → Extends s s
Extends-refl none = tt
Extends-refl (some s) = (refl, λ name e h. h)

Extends-trans : (s t u : Option TrustStore) → Extends s t → Extends t u → Extends s u
Extends-trans none none none h k = tt
Extends-trans none none (some u) h k = k
Extends-trans none (some t) u h k = absurd h
Extends-trans (some s) none u h k = absurd h
Extends-trans (some s) (some t) none h k = k
Extends-trans (some s) (some t) (some u) h k =
    (k.0 ∙ h.0, λ name e there. k.1 name e (h.1 name e there))

Extends-IsApart : (q : Text) (s t : Option TrustStore) → Extends s t → IsApart q s → IsApart q t
Extends-IsApart q none none h apart = tt
Extends-IsApart q none (some t) h apart = absurd h
Extends-IsApart q (some s) none h apart = tt
Extends-IsApart q (some s) (some t) h apart =
    (ap (λ p. q === p) h.0 ∙ apart.0, ap (λ p. q === (p ++ codes ".tmp")) h.0 ∙ apart.1)

pub Grows-stay : (w t : World) → t.client ≡ w.client → t.disk ≡ w.disk → Grows w t
Grows-stay w t same disk = record {
  session = same ∙ ap (λ c. record w.client { trust = c.trust }) (sym same);
  store = subst (λ c. Extends w.client.trust c.trust) (sym same) (Extends-refl w.client.trust);
  files = λ q apart. ap (λ d. d q) disk;
}

pub Grows-trans : {w t u : World} → Grows w t → Grows t u → Grows w u
Grows-trans {w} {t} {u} h k = record {
  session =
      k.session ∙ ap {A = SecureVaultClient} (λ c. record c { trust = u.client.trust }) h.session;
  store = Extends-trans w.client.trust t.client.trust u.client.trust h.store k.store;
  files = λ q apart.
      k.files q (Extends-IsApart q w.client.trust t.client.trust h.store apart) ∙ h.files q apart;
}

pub rpc-Grows :
    (rt : Runtime) (msg_type : MsgType) (payload : Fields) (w : World)
    → Grows w (rpc rt msg_type payload w).1
unfolding rpc
rpc-Grows rt msg_type payload w = Grows-stay w _ refl refl

-- A call that grows the world and the rest of the code.
pub bind-Grows :
    {A B : Type 0} (m : Action World A) (k : A → Action World B) (w : World)
    → Grows w (m w).1
    → ((a : A) → (m w).0 ≡ ok a → Grows (m w).1 (k a (m w).1).1)
    → Grows w ((m >>= k) w).1
bind-Grows m k w first rest = bind_both (Grows w) m k w first (λ a e. Grows-trans first (rest a e))

save-apart :
    (faults : Faults) (write_json : Fields → List ℕ) (store : TrustStore) (disk : Disk) (q : Text)
    → (q === store.path) ≡ false
    → (q === (store.path ++ codes ".tmp")) ≡ false
    → (save faults write_json store disk).1 q ≡ disk q
unfolding save atomic_write atomic_ops IsSettled
save-apart faults write_json store disk q apart apart' =
    (atomic_write-IsSettled faults store.path (write_json (to_fields store.entries)) disk).1 q apart
      apart'

-- What the call of a method of the store leaves, from what the method does.
keep_store-Grows :
    (w : World) (store : TrustStore) (r : Outcome TrustEntry × (TrustStore × Disk))
    → w.client.trust ≡ some store
    → Extends (some store) (some r.1.0)
    → ((q : Text) → IsApart q (some store) → r.1.1 q ≡ w.disk q)
    → Grows w (keep_store w r).1
unfolding keep_store
keep_store-Grows w store (ok e, (left, disk)) there more files = record {
  session = refl;
  store = subst (λ s. Extends s (some left)) (sym there) more;
  files = λ q apart. files q (subst (IsApart q) there apart);
}
keep_store-Grows w store (raise e, (left, disk)) there more files = record {
  session = refl;
  store = subst (λ s. Extends s (some left)) (sym there) more;
  files = λ q apart. files q (subst (IsApart q) there apart);
}

-- The store and the disk after a first contact.
pub recorded :
    (faults : Faults) (write_json : Fields → List ℕ) (username : Text) (sig_pub dh_pub : List ℕ)
    (store : TrustStore) (disk : Disk)
    → lookup username store.entries ≡ none
    → (record_first_contact faults write_json username sig_pub dh_pub (store, disk)).1
      ≡ (store_entry faults write_json username
          (record { fingerprint = compute_fingerprint sig_pub dh_pub; status = unverified })
          (store, disk)).1
unfolding record_first_contact first_entry
recorded faults write_json username sig_pub dh_pub store disk absent =
    ap (λ o. (first_entry faults write_json username sig_pub dh_pub o (store, disk)).1) absent
    ∙ bind-pure_state (store_entry faults write_json username _) _ (store, disk)

not_recorded :
    (faults : Faults) (write_json : Fields → List ℕ) (username : Text) (sig_pub dh_pub : List ℕ)
    (store : TrustStore) (disk : Disk) (e : TrustEntry)
    → lookup username store.entries ≡ some e
    → (record_first_contact faults write_json username sig_pub dh_pub (store, disk)).1
      ≡ (store, disk)
unfolding record_first_contact first_entry lift
not_recorded faults write_json username sig_pub dh_pub store disk e known =
    ap (λ o. (first_entry faults write_json username sig_pub dh_pub o (store, disk)).1) known

-- A first contact that is recorded, whether it can be saved or not.
with_store-Grows :
    (rt : Runtime) (username : Text) (sig_pub dh_pub : List ℕ) (store : TrustStore) (w : World)
    → w.client.trust ≡ some store
    → Grows w
        (with_store
          (record_first_contact rt.faults rt.write_json username sig_pub dh_pub)
          store
          w).1
unfolding with_store store_entry
with_store-Grows rt username sig_pub dh_pub store w there =
    elim (Option-cases (lookup username store.entries)) [
      | inr (e, known) ↦
          let same =
            not_recorded rt.faults rt.write_json username sig_pub dh_pub store w.disk e known in
          keep_store-Grows w store _ there
            (subst (λ x. Extends (some store) (some x.0)) (sym same) (Extends-refl (some store)))
            (λ q apart. ap (λ x. x.1 q) same)
      | inl absent ↦
          let same = recorded rt.faults rt.write_json username sig_pub dh_pub store w.disk absent in
          keep_store-Grows w store _ there
            (subst (λ x. Extends (some store) (some x.0)) (sym same)
              (
                refl,
                λ name e h. elim (Bool-cases (name === username)) [
                  | inl here ↦ absurd (
                      cc (
                        sym h
                        ∙ ap (λ x. lookup x store.entries) (===→eq name username here)
                        ∙ absent))
                  | inr other ↦ lookup-assign_other username name _ store.entries other ∙ h
                ],
              ))
            (λ q apart.
              ap (λ x. x.1 q) same ∙ save-apart rt.faults rt.write_json _ w.disk q apart.0 apart.1)
    ]

after_check-Grows :
    (rt : Runtime) (username : Text) (sig_pub dh_pub : List ℕ) (store : TrustStore) (c : Checked)
    (w : World)
    → w.client.trust ≡ some store
    → Grows w (after_check rt username sig_pub dh_pub store c w).1
unfolding after_check pure lift
after_check-Grows rt username sig_pub dh_pub store (trusted e) w there = Grows-stay w w refl refl
after_check-Grows rt username sig_pub dh_pub store (key_mismatch e seen) w there =
    Grows-stay w w refl refl
after_check-Grows rt username sig_pub dh_pub store no_entry w there =
    if_both (λ m. Grows w (m w).1) (rt.tofu_prompt username (compute_fingerprint sig_pub dh_pub))
      (with_store (record_first_contact rt.faults rt.write_json username sig_pub dh_pub) store)
      (lift (raise client_error)) (with_store-Grows rt username sig_pub dh_pub store w there)
      (Grows-stay w w refl refl)

contact_pubkey-Grows :
    (rt : Runtime) (username : Text) (store : TrustStore) (w : World)
    → w.client.trust ≡ some store
    → Grows w (contact_pubkey rt username store w).1
unfolding contact_pubkey rpc pure
contact_pubkey-Grows rt username store w there =
    bind-Grows (rpc rt MsgType.get_user_pubkey _) _ w (rpc-Grows rt _ _ w) (λ reply e.
      lift_both (Grows _) _ _ _ (Grows-stay _ _ refl refl) (λ payload e1.
        lift_both (Grows _) _ _ _ (Grows-stay _ _ refl refl) (λ sig_pub e2.
          lift_both (Grows _) _ _ _ (Grows-stay _ _ refl refl) (λ dh_pub e3.
            bind-Grows (after_check rt username sig_pub dh_pub store _) _ _
              (after_check-Grows rt username sig_pub dh_pub store _ _ there)
              (λ u e4. Grows-stay _ _ refl refl)))))

own_or-Grows :
    (rt : Runtime) (username : Text) (store : TrustStore) (own : Bool) (w : World)
    → w.client.trust ≡ some store
    → Grows w ((if own then gets own_pubkey else contact_pubkey rt username store) w).1
unfolding gets
own_or-Grows rt username store true w there = Grows-stay w w refl refl
own_or-Grows rt username store false w there = contact_pubkey-Grows rt username store w there

-- Whatever the peer answers, `_get_verified_pubkey`, whether it returns or raises, leaves the fields of
-- the client but the store of contacts, every entry of the store, and every file but the store's.
pub get_verified_pubkey-Grows :
    (rt : Runtime) (username : Text) (w : World) → Grows w (get_verified_pubkey rt username w).1
unfolding get_verified_pubkey
get_verified_pubkey-Grows rt username w =
    gets_both (Grows w) _ _ w (Grows-stay w w refl refl) (λ store e.
      gets_both (Grows w) _ _ w (Grows-stay w w refl refl)
        (λ own e1. own_or-Grows rt username store own w (present-eq-ok w.client.trust e)))
