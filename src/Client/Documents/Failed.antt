-- ===== src/Client/Documents/Failed.antt =====
-- What a `download` of client/client.py that raises has changed.
use crypto_project.Base.{
  ℕ, List, [], ◌∷◌, Outcome, ok, raise, Exc, os_error, ◌≡◌, ◌≢◌, ◌⊎◌, inl, inr, refl, sym, ◌∙◌,
}
use crypto_project.Actions.{Action, then_run, ◌>>=◌, pure, lift, gets}
use crypto_project.Text.{Text}
use crypto_project.Client.Disk.{
  Disk, FileOp, Faults, perform, apply, write_ops, write_file, Along, perform-Along,
}
use crypto_project.Client.Session.{World, Runtime, stored, write_files}
use crypto_project.Client.Contacts.Grows.{Grows, Grows-stay, Grows-trans}
use crypto_project.Client.Documents.Verified.{fetch_doc-Grows, open_verified-Grows}
use crypto_project.Client.Documents.{fetch_doc, open_verified, download}

-- A first step that only grows the world, before a rest that does so if it raises.
bind-Grows_raised :
    {A B : Type 0} (m : Action World A) (k : A → Action World B) (w : World) (e : Exc)
    → Grows w (m w).1
    → ((a : A) → (k a (m w).1).0 ≡ raise e → Grows (m w).1 (k a (m w).1).1)
    → ((m >>= k) w).0 ≡ raise e
    → Grows w ((m >>= k) w).1
unfolding ◌>>=◌
bind-Grows_raised {A} {B} m k w e first rest h = go (m w) first rest h
  where
    go :
        (r : Outcome A × World)
        → Grows w r.1
        → ((a : A) → (k a r.1).0 ≡ raise e → Grows r.1 (k a r.1).1)
        → (then_run r k).0 ≡ raise e
        → Grows w (then_run r k).1
    go (ok a, u) first rest h = Grows-trans first (rest a h)
    go (raise x, u) first rest h = first

step-Grows_raised :
    {A B : Type 0} (m : Outcome A) (k : A → Action World B) (w : World) (e : Exc)
    → ((a : A) → (k a w).0 ≡ raise e → Grows w (k a w).1)
    → ((lift m >>= k) w).0 ≡ raise e
    → Grows w ((lift m >>= k) w).1
unfolding lift
step-Grows_raised m k w e rest h =
    bind-Grows_raised (lift m) k w e (Grows-stay w w refl refl) rest h

gets-Grows_raised :
    {A B : Type 0} (f : World → Outcome A) (k : A → Action World B) (w : World) (e : Exc)
    → ((a : A) → (k a w).0 ≡ raise e → Grows w (k a w).1)
    → ((gets f >>= k) w).0 ≡ raise e
    → Grows w ((gets f >>= k) w).1
unfolding gets
gets-Grows_raised f k w e rest h =
    bind-Grows_raised (gets f) k w e (Grows-stay w w refl refl) rest h

perform-raised :
    (faults : Faults) (ops : List FileOp) (disk : Disk)
    → ((perform faults ops disk).0 ≡ ok tt) ⊎ ((perform faults ops disk).0 ≡ raise os_error)
unfolding Along
perform-raised faults ops disk = perform-Along P faults ops disk (along ops disk)
  where
    P : Outcome (Unit {0}) × Disk → Type 0
    P r = (r.0 ≡ ok tt) ⊎ (r.0 ≡ raise os_error)

    along : (ops : List FileOp) (disk : Disk) → Along P ops disk
    along [] disk = inl refl
    along (op ∷ ops) disk = (λ n. inr refl, along ops (apply op disk))

raise-injective : {A : Type 0} {x y : Exc} → ◌≡◌ {A = Outcome A} (raise x) (raise y) → x ≡ y
raise-injective h = cc h

write_files-raised :
    {A : Type 0} (faults : Faults) (path : Text) (content : List ℕ) (a : A) (w : World) (e : Exc)
    {P : Type 0}
    → e ≢ os_error
    → ((write_files (write_file faults path content) >>= λ u. pure a) w).0 ≡ raise e
    → P
unfolding write_files write_file ◌>>=◌ pure
write_files-raised {A} faults path content a w e {P} other h =
    go (write_file faults path content w.disk)
      (perform-raised faults (write_ops path content) w.disk) h
  where
    go :
        (r : Outcome (Unit {0}) × Disk)
        → (r.0 ≡ ok tt) ⊎ (r.0 ≡ raise os_error)
        → (then_run (stored w r) (λ u. pure a)).0 ≡ raise e
        → P
    go (ok u, d) one h = absurd (cc h)
    go (raise x, d) (inl same) h = absurd (cc same)
    go (raise x, d) (inr same) h = absurd (other (sym (raise-injective h) ∙ raise-injective same))

-- Whatever the peer answers, a `download` that raises anything but OSError has changed no file but the
-- store's and its temporary one, no entry of the store that was there, and no other field of the
-- client: in particular, nothing is written at the path.
pub download-Grows :
    (rt : Runtime) (nonce : List ℕ) (doc_id_hex save_path : Text) (w : World) (e : Exc)
    → e ≢ os_error
    → (download rt nonce doc_id_hex save_path w).0 ≡ raise e
    → Grows w (download rt nonce doc_id_hex save_path w).1
unfolding download
download-Grows rt nonce doc_id_hex save_path w e other h =
    gets-Grows_raised _ _ w e
      (λ _ h1.
        gets-Grows_raised _ _ w e
          (λ me h2.
            bind-Grows_raised (fetch_doc rt nonce doc_id_hex) _ w e
              (fetch_doc-Grows rt nonce doc_id_hex w)
              (λ blobs h3.
                step-Grows_raised _ _ _ e
                  (λ doc h4.
                    step-Grows_raised _ _ _ e
                      (λ our_share h5.
                        step-Grows_raised _ _ _ e
                          (λ _ h6.
                            bind-Grows_raised (open_verified rt doc our_share) _ _ e
                              (open_verified-Grows rt doc our_share _)
                              (λ payload h7.
                                write_files-raised rt.faults save_path payload.content
                                  doc.header.owner _ e other h7)
                              h6)
                          h5)
                      h4)
                  h3)
              h2)
          h1)
      h
