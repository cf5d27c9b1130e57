-- ===== src/Client/Keystore/Rewrapping.antt =====
-- What rewrap_keys of client/keystore.py leaves, whichever of its calls on files raises.
use crypto_project.Base.{
  ℕ, List, Outcome, ok, raise, ◌⊎◌, inl, inr, ◌≡◌, refl, sym, ap, ◌∙◌, length,
}
use crypto_project.Actions.{pure, lift, ◌>>=◌, bind_inv, gets_inv, bind_both, gets_both}
use crypto_project.Text.{Text}
use crypto_project.Client.Disk.{Faults}
use crypto_project.Client.Keystore.{seal, atomic_write}
use crypto_project.Client.Keystore.Crash.{IsSettled, atomic_write-IsSettled}
use crypto_project.Client.Disk.{Disk}
use crypto_project.Client.Keystore.{
  Loaded, keys, keystore_error, save_keys, load_keys, rewrapped, save_loaded, rewrap_keys,
}
use crypto_project.Client.Keystore.RoundTrip.{load_keys-saved}

-- The old key opens the file before, the new one opens it after, and the private keys are the same.
abbrev pub IsRewrapped : Text → List ℕ → List ℕ → Disk → Disk → Type 0
IsRewrapped path old_kek new_kek before after =
    (sig_priv dh_priv : ℕ) × (load_keys path old_kek before ≡ ok (keys sig_priv dh_priv))
    × (load_keys path new_kek after ≡ ok (keys sig_priv dh_priv))

-- ... or the file is as it was.
abbrev pub StaysOr : Text → List ℕ → List ℕ → Disk → Disk → Type 0
StaysOr path old_kek new_kek before after =
    (after path ≡ before path) ⊎ IsRewrapped path old_kek new_kek before after

-- The file is as it was, or the keys can be loaded from it.
save_keys-Settles :
    (faults : Faults) (nonce : List ℕ) (path : Text) (a b : ℕ) (kek : List ℕ) (disk : Disk)
    → length nonce ≡ 12
    → ((save_keys faults nonce path a b kek disk).1 path ≡ disk path)
      ⊎ (load_keys path kek (save_keys faults nonce path a b kek disk).1 ≡ ok (keys a b))
unfolding save_keys IsSettled lift ◌>>=◌
save_keys-Settles faults nonce path a b kek disk n = elim (settle (seal nonce a b kek)) [
  | inl same ↦ inl same
  | inr done ↦ inr (
      load_keys-saved faults nonce path a b kek disk _ tt n
        (ap (λ o. (o, (save_keys faults nonce path a b kek disk).1)) done))
]
  where
    settle :
        (m : Outcome (List ℕ))
        → (((lift m >>= λ blob. atomic_write faults path blob) disk).1 path ≡ disk path)
          ⊎ (((lift m >>= λ blob. atomic_write faults path blob) disk).0 ≡ ok tt)
    settle (raise e) = inl refl
    settle (ok blob) = elim ((atomic_write-IsSettled faults path blob disk).0) [
      | inl (done, _) ↦ inr done
      | inr (_, same) ↦ inl same
    ]

pub rewrap_keys-StaysOr :
    (faults : Faults) (nonce : List ℕ) (path : Text) (old_kek new_kek : List ℕ) (before : Disk)
    → length nonce ≡ 12
    → StaysOr path old_kek new_kek before (rewrap_keys faults nonce path old_kek new_kek before).1
unfolding rewrap_keys save_loaded pure
rewrap_keys-StaysOr faults nonce path old_kek new_kek before n =
    gets_both P (load_keys path old_kek) (save_loaded faults nonce path new_kek) before (inl refl)
      go
  where
    P : Disk → Type 0
    P = StaysOr path old_kek new_kek before

    go :
        (loaded : Loaded)
        → load_keys path old_kek before ≡ ok loaded
        → P (save_loaded faults nonce path new_kek loaded before).1
    go (keystore_error f) e = inl refl
    go (keys a b) e =
        let base : P (save_keys faults nonce path a b new_kek before).1 =
          elim (save_keys-Settles faults nonce path a b new_kek before n) [
            | inl same ↦ inl same
            | inr loads ↦ inr (a, b, e, loads)
          ] in
        bind_both P (save_keys faults nonce path a b new_kek) _ before base (λ _ _. base)

pub rewrap_keys-IsRewrapped :
    (faults : Faults) (nonce : List ℕ) (path : Text) (old_kek new_kek : List ℕ)
    (before after : Disk)
    → length nonce ≡ 12
    → rewrap_keys faults nonce path old_kek new_kek before ≡ (ok rewrapped, after)
    → IsRewrapped path old_kek new_kek before after
unfolding rewrap_keys save_loaded pure
rewrap_keys-IsRewrapped faults nonce path old_kek new_kek before after n h =
    let (loaded, e, h1) =
      gets_inv (load_keys path old_kek) (save_loaded faults nonce path new_kek) rewrapped before
        after h in
    go loaded e h1
  where
    go :
        (loaded : Loaded)
        → load_keys path old_kek before ≡ ok loaded
        → save_loaded faults nonce path new_kek loaded before ≡ (ok rewrapped, after)
        → IsRewrapped path old_kek new_kek before after
    go (keystore_error f) e h = absurd (cc (ap (λ x. x.0) h))
    go (keys a b) e h =
        let (u, d, saved, h1) =
          bind_inv (save_keys faults nonce path a b new_kek) _ rewrapped before after h in
        (
          a,
          b,
          e,
          ap (load_keys path new_kek) (sym (ap (λ x. x.1) h1))
              ∙ load_keys-saved faults nonce path a b new_kek before d u n saved,
        )
