-- ===== src/Client/TrustStore/Kept.antt =====
-- An entry of the trust store is never dropped, given another fingerprint or made less trusted.
use mathlib.Core.Path.{subst}
use crypto_project.Base.{
  ℕ, true, false, Bool-cases, Option-cases, inl, inr, List, [], ◌∷◌, Option, none, some, ◌===◌,
  ===→eq, ===_refl, if◌then◌else◌, ◌≡◌, refl, sym, ap, ◌∙◌,
}
use crypto_project.Text.{Text}
use crypto_project.Wire.Json.{Fields}
use crypto_project.Actions.{pure, lift, bind-pure_state}
use crypto_project.Client.Disk.{Disk, Faults}
use crypto_project.Client.TrustStore.{
  TrustStatus, unverified, verified, TrustEntry, compute_fingerprint, Entries, lookup, assign,
  TrustStore, store_entry, record_first_contact, trusted, key_mismatch, check, check_entry,
  first_entry, mark_found, mark_entry, mark_verified,
}

pub lookup-assign :
    (name : Text) (e : TrustEntry) (es : Entries) → lookup name (assign name e es) ≡ some e
unfolding lookup assign
lookup-assign name e [] = rw (===_refl name) refl
lookup-assign name e (item ∷ items) = elim (Bool-cases (name === item.0)) [
  | inl same ↦ rw (same) (rw (same) refl)
  | inr other ↦ rw (other) (rw (other) (lookup-assign name e items))
]

pub lookup-assign_other :
    (name q : Text) (e : TrustEntry) (es : Entries)
    → (q === name) ≡ false
    → lookup q (assign name e es) ≡ lookup q es
unfolding lookup assign
lookup-assign_other name q e [] h = rw h refl
lookup-assign_other name q e (item ∷ items) h = elim (Bool-cases (name === item.0)) [
  | inl same ↦
      let apart : (q === item.0) ≡ false = ap (λ x. q === x) (sym (===→eq name item.0 same)) ∙ h in
      rw (same, apart) refl
  | inr other ↦
      rw (other)
        (ap (λ r. if q === item.0 then some item.1 else r) (lookup-assign_other name q e items h))
]

-- The operations that change a store.
pub data Change : Type 0 where
  contact : Text → List ℕ → List ℕ → Change
  mark : Text → Change

-- The state after calls, whether they return or raise.
module _ (faults : Faults) (write_json : Fields → List ℕ) where
  unfoldable pub change : Change → TrustStore × Disk → TrustStore × Disk
  change (contact name sig_pub dh_pub) s =
      (record_first_contact faults write_json name sig_pub dh_pub s).1
  change (mark name) s = (mark_verified faults write_json name s).1

  unfoldable pub changes : List Change → TrustStore × Disk → TrustStore × Disk
  changes [] s = s
  changes (c ∷ cs) s = changes cs (change c s)

module _ (faults : Faults) (write_json : Fields → List ℕ) (q : Text) (s : TrustStore × Disk) where
  contact_known :
      (sig_pub dh_pub : List ℕ) (old : TrustEntry)
      → lookup q s.0.entries ≡ some old
      → s ≡ change faults write_json (contact q sig_pub dh_pub) s
  unfolding change record_first_contact first_entry lift
  contact_known sig_pub dh_pub old h =
      ap (λ o. (first_entry faults write_json q sig_pub dh_pub o s).1) (sym h)

  contact_new :
      (sig_pub dh_pub : List ℕ)
      → lookup q s.0.entries ≡ none
      → (store_entry faults write_json q
          (record { fingerprint = compute_fingerprint sig_pub dh_pub; status = unverified })
          s).1
        ≡ change faults write_json (contact q sig_pub dh_pub) s
  unfolding change record_first_contact first_entry
  contact_new sig_pub dh_pub h =
      sym (bind-pure_state (store_entry faults write_json q _) _ s)
      ∙ ap (λ o. (first_entry faults write_json q sig_pub dh_pub o s).1) (sym h)

  mark_unknown : lookup q s.0.entries ≡ none → s ≡ change faults write_json (mark q) s
  unfolding change mark_verified mark_found lift
  mark_unknown h = ap (λ o. (mark_found faults write_json q o s).1) (sym h)

  mark_known :
      (old : TrustEntry)
      → lookup q s.0.entries ≡ some old
      → (mark_entry faults write_json q old old.status s).1 ≡ change faults write_json (mark q) s
  unfolding change mark_verified mark_found
  mark_known old h = ap (λ o. (mark_found faults write_json q o s).1) (sym h)

-- At least the trust that `e` has, in the same keys.
abbrev pub Keeps : TrustEntry → Option TrustEntry → Type 0
Keeps e none = ⊥
Keeps e (some f) = (f.fingerprint ≡ e.fingerprint) × (e.status ≡ verified → f.status ≡ verified)

module _ (faults : Faults) (write_json : Fields → List ℕ) (name : Text) (e : TrustEntry) where
  store_entry-Keeps :
      (q : Text) (new : TrustEntry) (s : TrustStore × Disk)
      → ((name === q) ≡ true → Keeps e (some new))
      → Keeps e (lookup name s.0.entries)
      → Keeps e (lookup name (store_entry faults write_json q new s).1.0.entries)
  unfolding store_entry
  store_entry-Keeps q new s same h = elim (Bool-cases (name === q)) [
    | inl here ↦
        let e1 : lookup name (assign q new s.0.entries) ≡ some new =
          ap (λ x. lookup x (assign q new s.0.entries)) (===→eq name q here)
          ∙ lookup-assign q new s.0.entries in
        rw e1 (same here)
    | inr apart ↦ rw (lookup-assign_other q name new s.0.entries apart) h
  ]

  contact-Keeps :
      (q : Text) (sig_pub dh_pub : List ℕ) (s : TrustStore × Disk)
      → Keeps e (lookup name s.0.entries)
      → Keeps e (lookup name (change faults write_json (contact q sig_pub dh_pub) s).0.entries)
  contact-Keeps q sig_pub dh_pub s h = elim (Option-cases (lookup q s.0.entries)) [
    | inr (old, there) ↦
        subst (λ t. Keeps e (lookup name t.0.entries))
          (contact_known faults write_json q s sig_pub dh_pub old there) h
    | inl absent ↦
        subst (λ t. Keeps e (lookup name t.0.entries))
          (contact_new faults write_json q s sig_pub dh_pub absent)
          (store_entry-Keeps q _ s
            (λ same.
              absurd
                (subst (Keeps e) (ap (λ x. lookup x s.0.entries) (===→eq name q same) ∙ absent) h))
            h)
  ]

  marked :
      (q : Text) (s : TrustStore × Disk) (old : TrustEntry) (status : TrustStatus)
      → ((name === q) ≡ true → Keeps e (some old))
      → Keeps e (lookup name s.0.entries)
      → Keeps e (lookup name (mark_entry faults write_json q old status s).1.0.entries)
  unfolding mark_entry pure
  marked q s old verified same h = h
  marked q s old unverified same h =
      subst (λ t. Keeps e (lookup name t.0.entries))
        (sym (bind-pure_state (store_entry faults write_json q _) _ s))
        (store_entry-Keeps q _ s (λ here. ((same here).0, λ v. refl)) h)

  mark-Keeps :
      (q : Text) (s : TrustStore × Disk)
      → Keeps e (lookup name s.0.entries)
      → Keeps e (lookup name (change faults write_json (mark q) s).0.entries)
  mark-Keeps q s h = elim (Option-cases (lookup q s.0.entries)) [
    | inl absent ↦
        subst (λ t. Keeps e (lookup name t.0.entries)) (mark_unknown faults write_json q s absent) h
    | inr (old, there) ↦
        subst (λ t. Keeps e (lookup name t.0.entries)) (mark_known faults write_json q s old there)
          (marked q s old old.status
            (λ same.
              subst (Keeps e) (ap (λ x. lookup x s.0.entries) (===→eq name q same) ∙ there) h)
            h)
  ]

  changes-Keeps :
      (cs : List Change) (s : TrustStore × Disk)
      → Keeps e (lookup name s.0.entries)
      → Keeps e (lookup name (changes faults write_json cs s).0.entries)
  unfolding changes
  changes-Keeps [] s h = h
  changes-Keeps (contact q sig_pub dh_pub ∷ cs) s h =
      changes-Keeps cs _ (contact-Keeps q sig_pub dh_pub s h)
  changes-Keeps (mark q ∷ cs) s h = changes-Keeps cs _ (mark-Keeps q s h)

kept_some :
    (e : TrustEntry) (o : Option TrustEntry)
    → Keeps e o
    → (f : TrustEntry) × (o ≡ some f) × Keeps e (some f)
kept_some e none h = absurd h
kept_some e (some f) h = (f, refl, h)

check-some :
    (name : Text) (sig_pub dh_pub : List ℕ) (store : TrustStore) (e f : TrustEntry)
    → lookup name store.entries ≡ some f
    → f.fingerprint ≡ e.fingerprint
    → check name sig_pub dh_pub store ≡ (
        if compute_fingerprint sig_pub dh_pub === e.fingerprint
        then trusted f
        else key_mismatch f (compute_fingerprint sig_pub dh_pub))
unfolding check check_entry
check-some name sig_pub dh_pub store e f there same = rw there (
    ap
      (λ x.
        if compute_fingerprint sig_pub dh_pub === x
        then trusted f
        else key_mismatch f (compute_fingerprint sig_pub dh_pub))
      same)

-- Once a contact has an entry, and whatever calls of `record_first_contact` and `mark_verified`
-- follow, `check` accepts a bundle with the entry's fingerprint and refuses any other as a
-- mismatch; the entry it gives has that fingerprint, and is verified if it was before.
pub check-changes :
    (faults : Faults) (write_json : Fields → List ℕ) (name : Text) (e : TrustEntry)
    (cs : List Change) (s : TrustStore × Disk) (sig_pub dh_pub : List ℕ)
    → lookup name s.0.entries ≡ some e
    → (f : TrustEntry) × (f.fingerprint ≡ e.fingerprint)
      × (e.status ≡ verified → f.status ≡ verified)
      × (check name sig_pub dh_pub (changes faults write_json cs s).0 ≡ (
          if compute_fingerprint sig_pub dh_pub === e.fingerprint
          then trusted f
          else key_mismatch f (compute_fingerprint sig_pub dh_pub)))
check-changes faults write_json name e cs s sig_pub dh_pub h =
    let kept =
      changes-Keeps faults write_json name e cs s (subst (Keeps e) (sym h) (refl, λ v. v)) in
    let (f, there, same) =
      kept_some e (lookup name (changes faults write_json cs s).0.entries) kept in
    (
      f,
      same.0,
      same.1,
      check-some name sig_pub dh_pub (changes faults write_json cs s).0 e f there same.0,
    )
