-- ===== src/Client/Keystore/RoundTrip.antt =====
-- What is saved can be loaded, before and after the password is changed.
use crypto_project.Base.{
  ℕ, ◌^◌, ◌<◌, true, List, ◌∷◌, ◌++◌, length, length-append, append_assoc, take, drop,
  take-append_exact, drop-append_exact, some, ◌===◌, ===_refl, ◌==◌, ==_iff, ok, require,
  value_error, overflow_error, ltb, ltb→lt, if-eq-ok_then, >>=-eq-ok, require-eq-ok, ◌≡◌, inr, refl,
  sym, ap, ◌∙◌, arith,
}
use crypto_project.Bytes.{be_bytes, to_bytes}
use crypto_project.Bytes.Laws.{length-be_bytes, to_bytes_fits, from_bytes-be_bytes}
use crypto_project.Text.{Text}
use crypto_project.Crypto.Gcm.{decrypt}
use crypto_project.Crypto.Gcm.RoundTrip.{encrypt-decrypt_iff, encrypt_total}
use crypto_project.Actions.{lift, lift_inv}
use crypto_project.Actions as Actions
use crypto_project.Client.Disk.{
  Disk, put, replace, so_far, apply, apply_all, Faults, reliable, perform-eq-ok, perform-reliable,
}
use crypto_project.Client.Keystore.{
  magic, version, aad, temporary, keys, atomic_ops, atomic_write, encode_scalars, decode_scalars,
  seal, save_keys, decoded, open_blob, open_stored, load_keys,
}

pub atomic_ops-reads :
    (path : Text) (contents : List ℕ) (disk : Disk)
    → apply_all (atomic_ops path contents) disk path ≡ some contents
unfolding atomic_ops apply_all apply so_far replace put
atomic_ops-reads path contents disk = rw (===_refl path, ===_refl (temporary path)) refl

-- The plaintext of two keys that fit in 32 bytes.
abbrev scalars : ℕ → ℕ → List ℕ
scalars a b = be_bytes 32 a ++ be_bytes 32 b

length-scalars : (a b : ℕ) → length (scalars a b) ≡ 64
length-scalars a b = omega (
  arith,
  length-append (be_bytes 32 a) (be_bytes 32 b),
  length-be_bytes 32 a,
  length-be_bytes 32 b,
)

decode_scalars-scalars :
    (a b : ℕ) → a < 256 ^ 32 → b < 256 ^ 32 → decode_scalars (scalars a b) ≡ keys a b
unfolding decode_scalars
decode_scalars-scalars a b ha hb =
    rw
      (
        take-append_exact 32 (be_bytes 32 a) (be_bytes 32 b) (length-be_bytes 32 a),
        drop-append_exact 32 (be_bytes 32 a) (be_bytes 32 b) (length-be_bytes 32 a),
        from_bytes-be_bytes 32 a ha,
        from_bytes-be_bytes 32 b hb,
      )
      refl

module _ (kek nonce ct tag : List ℕ) (long : length kek ≡ 32) (n : length nonce ≡ 12)
    (c : length ct ≡ 64) (t : length tag ≡ 16) where
  nonce_part : take 12 (nonce ++ (ct ++ tag)) ≡ nonce
  nonce_part = take-append_exact 12 nonce (ct ++ tag) n

  ct_part : take 64 (drop 12 (nonce ++ (ct ++ tag))) ≡ ct
  ct_part = rw (drop-append_exact 12 nonce (ct ++ tag) n) (take-append_exact 64 ct tag c)

  tag_part : drop 76 (nonce ++ (ct ++ tag)) ≡ tag
  tag_part =
      ap (drop 76) (sym (append_assoc nonce ct tag))
      ∙ drop-append_exact 76 (nonce ++ ct) tag (omega (arith, length-append nonce ct))

  size : (length (magic ++ (version ∷ (nonce ++ (ct ++ tag)))) == 97) ≡ true
  size =
      (==_iff (length (magic ++ (version ∷ (nonce ++ (ct ++ tag))))) 97).1
        (omega (arith, length-append nonce (ct ++ tag), length-append ct tag))

  open_blob-layout :
      (pt : List ℕ)
      → decrypt kek nonce ct tag aad ≡ ok (some pt)
      → open_blob kek (magic ++ (version ∷ (nonce ++ (ct ++ tag)))) ≡ ok (decode_scalars pt)
  unfolding open_blob decoded ◌===◌
  open_blob-layout pt opened = rw (size, nonce_part, ct_part, tag_part, opened) refl

-- Saving two keys that fit in 32 bytes, with a key of 32 bytes and a nonce of 12, succeeds, and
-- loading with the same key from the disk that is left gives the two keys.
pub load_keys-save_keys :
    (nonce : List ℕ) (path : Text) (a b : ℕ) (kek : List ℕ) (disk : Disk)
    → length kek ≡ 32
    → length nonce ≡ 12
    → a < 256 ^ 32
    → b < 256 ^ 32
    → (left : Disk) × (save_keys reliable nonce path a b kek disk ≡ (ok tt, left))
      × (load_keys path kek left ≡ ok (keys a b))
unfolding save_keys seal encode_scalars load_keys open_stored atomic_write lift Actions.◌>>=◌
load_keys-save_keys nonce path a b kek disk long n ha hb =
    let (ct, tag, sealed, same, t) =
      encrypt_total kek nonce (scalars a b) aad (inr long) n (omega (arith, length-scalars a b)) in
    let opened =
      (encrypt-decrypt_iff kek nonce (scalars a b) aad ct tag (omega (arith, length-scalars a b))).0
        sealed in
    let passes : (length kek == 32) ≡ true = (==_iff (length kek) 32).1 long in
    let blob = magic ++ (version ∷ (nonce ++ (ct ++ tag))) in
    (
      apply_all (atomic_ops path blob) disk,
      rw (passes, to_bytes_fits 32 a ha, to_bytes_fits 32 b hb, sealed)
          (perform-reliable (atomic_ops path blob) disk),
      rw
          (
            passes,
            atomic_ops-reads path blob disk,
            open_blob-layout kek nonce ct tag long n (same ∙ length-scalars a b) t (scalars a b)
                opened,
            decode_scalars-scalars a b ha hb,
          )
          refl,
    )

to_bytes-lt : (n x : ℕ) (bytes : List ℕ) → to_bytes n x ≡ ok bytes → x < 256 ^ n
unfolding to_bytes
to_bytes-lt n x bytes h =
    ltb→lt x (256 ^ n) (if-eq-ok_then (ltb x (256 ^ n)) overflow_error (be_bytes n x) h).0

encode_scalars-lt :
    (a b : ℕ) (bytes : List ℕ) → encode_scalars a b ≡ ok bytes → (a < 256 ^ 32) × (b < 256 ^ 32)
unfolding encode_scalars
encode_scalars-lt a b bytes h =
    let (sig, e1, h1) = >>=-eq-ok (to_bytes 32 a) _ h in
    let (dh, e2, h2) = >>=-eq-ok (to_bytes 32 b) _ h1 in
    (to_bytes-lt 32 a sig e1, to_bytes-lt 32 b dh e2)

-- What `save_keys` leaves when it returns does not depend on the faults that were possible.
save_keys-reliable :
    (faults : Faults) (nonce : List ℕ) (path : Text) (a b : ℕ) (kek blob : List ℕ)
    (disk left : Disk)
    → seal nonce a b kek ≡ ok blob
    → atomic_write faults path blob disk ≡ (ok tt, left)
    → save_keys reliable nonce path a b kek disk ≡ (ok tt, left)
unfolding save_keys atomic_write lift Actions.◌>>=◌
save_keys-reliable faults nonce path a b kek blob disk left sealed h = rw sealed (
    perform-reliable (atomic_ops path blob) disk
    ∙ ap (λ d. (ok tt, d)) (sym (perform-eq-ok faults (atomic_ops path blob) disk left tt h)))

-- What `save_keys` has saved, with a nonce of 12 bytes, is loaded.
pub load_keys-saved :
    (faults : Faults) (nonce : List ℕ) (path : Text) (a b : ℕ) (kek : List ℕ) (disk left : Disk)
    (u : Unit {0})
    → length nonce ≡ 12
    → save_keys faults nonce path a b kek disk ≡ (ok u, left)
    → load_keys path kek left ≡ ok (keys a b)
unfolding save_keys seal
load_keys-saved faults nonce path a b kek disk left u n h =
    let (blob, sealed, h0) = lift_inv (seal nonce a b kek) _ u disk left h in
    let (v, long, h1) = >>=-eq-ok (require (length kek == 32) value_error) _ sealed in
    let (bytes, fits, _) = >>=-eq-ok (encode_scalars a b) _ h1 in
    let (ha, hb) = encode_scalars-lt a b bytes fits in
    let (left', saved, loaded) =
      load_keys-save_keys nonce path a b kek disk
        ((==_iff (length kek) 32).0 (require-eq-ok _ value_error long)) n ha hb in
    let same = save_keys-reliable faults nonce path a b kek blob disk left sealed h0 in
    ap (load_keys path kek) (ap (λ x. x.1) (sym same ∙ saved)) ∙ loaded
