-- ===== src/Client/Contacts/Trusted.antt =====
-- Which keys `_get_verified_pubkey` of client/client.py returns: our own, or keys with the
-- fingerprint that the store of contacts has for the name.
use mathlib.Core.Path.{subst}
use crypto_project.Client.Disk.{Disk}
use crypto_project.Client.Contacts.Grows.{recorded}
use crypto_project.Base.{
  ℕ, Bool, true, false, Bool-cases, inl, inr, ◌⊎◌, List, Option, none, some, ◌===◌, ===→eq,
  if◌then◌else◌, Outcome, ok, raise, >>=-eq-ok, ok-injective, ◌≡◌, refl, sym, ap, ◌∙◌,
}
use crypto_project.Actions.{pure, lift, gets, bind_inv, gets_inv, lift_inv}
use crypto_project.Text.{Text}
use crypto_project.Client.TrustStore.{
  TrustStore, TrustEntry, lookup, store_entry, record_first_contact, Checked, trusted, no_entry,
  key_mismatch, check, check_entry, compute_fingerprint,
}
use crypto_project.Client.TrustStore.Kept.{lookup-assign}
use crypto_project.Client.Session.{Runtime, SecureVaultClient, World, present}
use crypto_project.Client.Session.Steps.{present-eq-ok, rpc_kept}
use crypto_project.Client.Contacts.{
  keep_store, with_store, after_check, contact_pubkey, is_self, own_pubkey, get_verified_pubkey,
}
use crypto_project.Client.Contacts.Grows.{Extends, Grows, get_verified_pubkey-Grows}

-- The keys of a name that a client takes: its own, or keys with the fingerprint in its store.
abbrev pub IsTrusted : Text → List ℕ × List ℕ → SecureVaultClient → Type 0
IsTrusted username keys c =
    ((is_self username c.username ≡ true)
      × (c.sig_pub_bytes ≡ some keys.0)
      × (c.dh_pub_bytes ≡ some keys.1))
    ⊎ ((store : TrustStore) × (e : TrustEntry) × (is_self username c.username ≡ false)
        × (c.trust ≡ some store)
        × (lookup username store.entries ≡ some e)
        × (e.fingerprint ≡ compute_fingerprint keys.0 keys.1))

-- What a call that returned has in the store.
abbrev IsPinned : Runtime → Text → List ℕ → List ℕ → TrustStore → World → Type 0
IsPinned rt username sig_pub dh_pub before t =
    (store : TrustStore) × (e : TrustEntry) × (t.client.trust ≡ some store)
    × (lookup username store.entries ≡ some e)
    × (e.fingerprint ≡ compute_fingerprint sig_pub dh_pub)
    × (lookup username before.entries ≡ none
        → rt.tofu_prompt username (compute_fingerprint sig_pub dh_pub) ≡ true)

check_inv :
    (username : Text) (sig_pub dh_pub : List ℕ) (store : TrustStore) (e : TrustEntry)
    → check username sig_pub dh_pub store ≡ trusted e
    → (lookup username store.entries ≡ some e)
      × (e.fingerprint ≡ compute_fingerprint sig_pub dh_pub)
unfolding check check_entry
check_inv username sig_pub dh_pub store e h = go (lookup username store.entries) refl h
  where
    go :
        (o : Option TrustEntry)
        → lookup username store.entries ≡ o
        → check_entry (compute_fingerprint sig_pub dh_pub) o ≡ trusted e
        → (lookup username store.entries ≡ some e)
          × (e.fingerprint ≡ compute_fingerprint sig_pub dh_pub)
    go none there h = cc h
    go (some f) there h = elim (Bool-cases (compute_fingerprint sig_pub dh_pub === f.fingerprint)) [
      | inl same ↦
          let f_is_e : f ≡ e = cc (rw same at h) in
          (
            there ∙ ap some f_is_e,
            ap (λ x. x.fingerprint) (sym f_is_e)
                ∙ sym (===→eq (compute_fingerprint sig_pub dh_pub) f.fingerprint same),
          )
      | inr other ↦ absurd (cc (rw other at h))
    ]

check-no_entry_inv :
    (username : Text) (sig_pub dh_pub : List ℕ) (store : TrustStore)
    → check username sig_pub dh_pub store ≡ no_entry
    → lookup username store.entries ≡ none
unfolding check check_entry
check-no_entry_inv username sig_pub dh_pub store h = go (lookup username store.entries) refl h
  where
    go :
        (o : Option TrustEntry)
        → lookup username store.entries ≡ o
        → check_entry (compute_fingerprint sig_pub dh_pub) o ≡ no_entry
        → lookup username store.entries ≡ none
    go none there h = there
    go (some f) there h = elim (Bool-cases (compute_fingerprint sig_pub dh_pub === f.fingerprint)) [
      | inl same ↦ absurd (cc (rw same at h))
      | inr other ↦ absurd (cc (rw other at h))
    ]

keep_store-trust :
    (w : World) (r : Outcome TrustEntry × (TrustStore × Disk))
    → (keep_store w r).1.client.trust ≡ some r.1.0
unfolding keep_store
keep_store-trust w (ok e, (left, disk)) = refl
keep_store-trust w (raise e, (left, disk)) = refl

-- A first contact that was accepted is in the store.
with_store-IsPinned :
    (rt : Runtime) (username : Text) (sig_pub dh_pub : List ℕ) (store : TrustStore) (w t : World)
    (u : Unit {0})
    → lookup username store.entries ≡ none
    → rt.tofu_prompt username (compute_fingerprint sig_pub dh_pub) ≡ true
    → with_store (record_first_contact rt.faults rt.write_json username sig_pub dh_pub) store w
      ≡ (ok u, t)
    → IsPinned rt username sig_pub dh_pub store t
unfolding with_store store_entry
with_store-IsPinned rt username sig_pub dh_pub store w t u absent accepted h = (
  _,
  _,
  ap (λ x. x.1.client.trust) (sym h)
      ∙ keep_store-trust w
          (record_first_contact rt.faults rt.write_json username sig_pub dh_pub (store, w.disk))
      ∙ ap (λ x. some x.0)
          (recorded rt.faults rt.write_json username sig_pub dh_pub store w.disk absent),
  lookup-assign username _ store.entries,
  refl,
  λ first. accepted,
)

after_check-IsPinned :
    (rt : Runtime) (username : Text) (sig_pub dh_pub : List ℕ) (store : TrustStore) (c : Checked)
    (w t : World) (u : Unit {0})
    → check username sig_pub dh_pub store ≡ c
    → w.client.trust ≡ some store
    → after_check rt username sig_pub dh_pub store c w ≡ (ok u, t)
    → IsPinned rt username sig_pub dh_pub store t
unfolding after_check pure lift
after_check-IsPinned rt username sig_pub dh_pub store (trusted e) w t u c there h =
    let (known, same) = check_inv username sig_pub dh_pub store e c in
    (
      store,
      e,
      ap (λ x. x.1.client.trust) (sym h) ∙ there,
      known,
      same,
      λ absent. absurd (cc (sym known ∙ absent)),
    )
after_check-IsPinned rt username sig_pub dh_pub store (key_mismatch e seen) w t u c there h =
    absurd (cc (ap (λ x. x.0) h))
after_check-IsPinned rt username sig_pub dh_pub store no_entry w t u c there h =
    elim (Bool-cases (rt.tofu_prompt username (compute_fingerprint sig_pub dh_pub))) [
      | inl accepted ↦
          with_store-IsPinned rt username sig_pub dh_pub store w t u
            (check-no_entry_inv username sig_pub dh_pub store c) accepted (rw accepted at h)
      | inr declined ↦ absurd (cc (ap (λ x. x.0) (rw declined at h)))
    ]

contact_pubkey-IsPinned :
    (rt : Runtime) (username : Text) (store : TrustStore) (w t : World) (keys : List ℕ × List ℕ)
    → w.client.trust ≡ some store
    → contact_pubkey rt username store w ≡ (ok keys, t)
    → IsPinned rt username keys.0 keys.1 store t
unfolding contact_pubkey pure
contact_pubkey-IsPinned rt username store w t keys there h =
    let (reply, u, asked, h1) = bind_inv _ _ keys w t h in
    let (payload, _, h2) = lift_inv _ _ keys u t h1 in
    let (sig_pub, _, h3) = lift_inv _ _ keys u t h2 in
    let (dh_pub, _, h4) = lift_inv _ _ keys u t h3 in
    let (x, v, checked, h5) = bind_inv _ _ keys u t h4 in
    let pinned =
      after_check-IsPinned rt username sig_pub dh_pub store _ u v x refl
        (ap (λ c. c.trust) (rpc_kept rt _ _ reply w u asked).0 ∙ there) checked in
    subst (λ r. IsPinned rt username r.0 r.1 store t) (ok-injective (ap (λ x. x.0) h5))
      (subst (IsPinned rt username sig_pub dh_pub store) (ap (λ x. x.1) h5) pinned)

own_pubkey_inv :
    (w : World) (keys : List ℕ × List ℕ)
    → own_pubkey w ≡ ok keys
    → (w.client.sig_pub_bytes ≡ some keys.0) × (w.client.dh_pub_bytes ≡ some keys.1)
unfolding own_pubkey
own_pubkey_inv w keys h =
    let (sig_pub, e1, h1) = >>=-eq-ok (present w.client.sig_pub_bytes) _ h in
    let (dh_pub, e2, h2) = >>=-eq-ok (present w.client.dh_pub_bytes) _ h1 in
    let same = ok-injective h2 in
    (
      present-eq-ok w.client.sig_pub_bytes e1 ∙ ap (λ m. some m.0) same,
      present-eq-ok w.client.dh_pub_bytes e2 ∙ ap (λ m. some m.1) same,
    )

-- What each of the two ways of `_get_verified_pubkey` returned.
own_or_inv :
    (rt : Runtime) (username : Text) (store : TrustStore) (own : Bool) (w t : World)
    (keys : List ℕ × List ℕ)
    → is_self username w.client.username ≡ own
    → w.client.trust ≡ some store
    → (if own then gets own_pubkey else contact_pubkey rt username store) w ≡ (ok keys, t)
    → ((is_self username w.client.username ≡ true)
        × (w.client.sig_pub_bytes ≡ some keys.0)
        × (w.client.dh_pub_bytes ≡ some keys.1)
        × (t ≡ w))
      ⊎ ((before : TrustStore) × (is_self username w.client.username ≡ false)
          × (w.client.trust ≡ some before)
          × IsPinned rt username keys.0 keys.1 before t)
unfolding gets
own_or_inv rt username store true w t keys own known h =
    let (sig_pub, dh_pub) = own_pubkey_inv w keys (ap (λ x. x.0) h) in
    inl (own, sig_pub, dh_pub, sym (ap (λ x. x.1) h))
own_or_inv rt username store false w t keys other known h =
    inr (store, other, known, contact_pubkey-IsPinned rt username store w t keys known h)

get_verified_pubkey_inv :
    (rt : Runtime) (username : Text) (w t : World) (keys : List ℕ × List ℕ)
    → get_verified_pubkey rt username w ≡ (ok keys, t)
    → ((is_self username w.client.username ≡ true)
        × (w.client.sig_pub_bytes ≡ some keys.0)
        × (w.client.dh_pub_bytes ≡ some keys.1)
        × (t ≡ w))
      ⊎ ((before : TrustStore) × (is_self username w.client.username ≡ false)
          × (w.client.trust ≡ some before)
          × IsPinned rt username keys.0 keys.1 before t)
unfolding get_verified_pubkey
get_verified_pubkey_inv rt username w t keys h =
    let (store, there, h1) = gets_inv _ _ keys w t h in
    let (own, asked, h2) = gets_inv _ _ keys w t h1 in
    own_or_inv rt username store own w t keys (ok-injective asked)
      (present-eq-ok w.client.trust there) h2

-- Whatever the peer answers, keys that `_get_verified_pubkey` returns are our own where the name is
-- ours, and otherwise their fingerprint is the one that the store has for the name after the call.
pub get_verified_pubkey-IsTrusted :
    (rt : Runtime) (username : Text) (w t : World) (keys : List ℕ × List ℕ)
    → get_verified_pubkey rt username w ≡ (ok keys, t)
    → IsTrusted username keys t.client
get_verified_pubkey-IsTrusted rt username w t keys h =
    elim (get_verified_pubkey_inv rt username w t keys h) [
      | inl (own, sig_pub, dh_pub, same) ↦
          subst (λ u. IsTrusted username keys u.client) (sym same) (inl (own, sig_pub, dh_pub))
      | inr (before, other, known, (store, e, there, entry, same, asked)) ↦ inr (
        store,
        e,
        ap (λ c. is_self username c.username)
              (subst (λ x. Grows w x.1) h (get_verified_pubkey-Grows rt username w)).session
            ∙ other,
        there,
        entry,
        same,
      )
    ]

-- The two stores, where the store before is known.
grown_store :
    (before store after : TrustStore) (w t : World)
    → Grows w t
    → w.client.trust ≡ some store
    → w.client.trust ≡ some before
    → t.client.trust ≡ some after
    → (store ≡ before) × Extends (some store) (some after)
grown_store before store after w t g known same there = (
  cc (sym known ∙ same),
  subst (λ s. Extends (some store) s) there (subst (λ s. Extends s t.client.trust) known g.store),
)

-- Where the store has an entry for a name that is not ours, and whatever the peer answers, keys that
-- `_get_verified_pubkey` returns for the name have the entry's fingerprint.
pub get_verified_pubkey-pinned :
    (rt : Runtime) (username : Text) (store : TrustStore) (e : TrustEntry) (w t : World)
    (keys : List ℕ × List ℕ)
    → is_self username w.client.username ≡ false
    → w.client.trust ≡ some store
    → lookup username store.entries ≡ some e
    → get_verified_pubkey rt username w ≡ (ok keys, t)
    → compute_fingerprint keys.0 keys.1 ≡ e.fingerprint
get_verified_pubkey-pinned rt username store e w t keys other known held h =
    elim (get_verified_pubkey_inv rt username w t keys h) [
      | inl (own, _, _, _) ↦ absurd (cc (sym own ∙ other))
      | inr (before, _, same_store, (after, f, there, entry, same, asked)) ↦
          let (_, extended) =
            grown_store before store after w t
              (subst (λ x. Grows w x.1) h (get_verified_pubkey-Grows rt username w)) known
              same_store there in
          let one : f ≡ e = cc (sym entry ∙ extended.1 username e held) in
          sym same ∙ ap (λ x. x.fingerprint) one
    ]

-- Where the store has no entry for a name that is not ours, and whatever the peer answers, the user
-- was asked for the fingerprint of the keys that `_get_verified_pubkey` returns, and accepted it.
pub get_verified_pubkey-asked :
    (rt : Runtime) (username : Text) (store : TrustStore) (w t : World) (keys : List ℕ × List ℕ)
    → is_self username w.client.username ≡ false
    → w.client.trust ≡ some store
    → lookup username store.entries ≡ none
    → get_verified_pubkey rt username w ≡ (ok keys, t)
    → rt.tofu_prompt username (compute_fingerprint keys.0 keys.1) ≡ true
get_verified_pubkey-asked rt username store w t keys other known absent h =
    elim (get_verified_pubkey_inv rt username w t keys h) [
      | inl (own, _, _, _) ↦ absurd (cc (sym own ∙ other))
      | inr (before, _, same_store, (after, f, there, entry, same, asked)) ↦
          let is_before : store ≡ before = cc (sym known ∙ same_store) in
          asked (ap (λ s. lookup username s.entries) (sym is_before) ∙ absent)
    ]
