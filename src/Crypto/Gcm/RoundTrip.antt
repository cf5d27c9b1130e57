-- ===== src/Crypto/Gcm/RoundTrip.antt =====
-- `encrypt` against `decrypt` of crypto/gcm.py.
use crypto_project.Base.{
  ℕ, ◌+◌, ◌/◌, ◌≤◌, List, [], ◌∷◌, length, length-append, replicate, some, leb, Bool, true, false,
  ◌==◌, ==_iff, Bool-cases, Outcome, ok, raise, require, value_error, >>=-eq-ok, ◌≡◌, ◌↔◌, ◌⊎◌, inl,
  inr, refl, sym, ap, ◌∙◌, arith,
}
use crypto_project.Bytes.{zip_xor, from_bytes}
use crypto_project.Bytes.Laws.{length-be_bytes, length-zip_xor}
use crypto_project.Crypto.Hmac.{consttime_equal}
use crypto_project.Crypto.Hmac.Compare.{consttime_equal_iff}
use crypto_project.Crypto.Aes.{Aes, aes_init}
use crypto_project.Crypto.Aes.Block.{IsCipher, aes_init-IsCipher, aes_init_total}
use crypto_project.Crypto.Aes.Lengths.{IsBlock}
use crypto_project.Crypto.Gcm.{
  inc32, ghash_loop, gctr, ghash, ghash_input, validate, initial_counter, compute_tag, encrypt,
  decrypt, decrypt_tagged, open_if, max_pt_len,
}
use crypto_project.Crypto.Gcm.Counter.{inc32-IsBlock, gctr-Undoes}

abbrev pub KeyFits : List ℕ → Type 0
KeyFits key = (length key ≡ 16) ⊎ (length key ≡ 32)

validate→fits :
    (key nonce : List ℕ) → validate key nonce ≡ ok tt → KeyFits key × (length nonce ≡ 12)
unfolding validate
validate→fits key nonce h =
    ground (arith, ==_iff (length key) 16, ==_iff (length key) 32, ==_iff (length nonce) 12)

fits→validate : (key nonce : List ℕ) → KeyFits key → length nonce ≡ 12 → validate key nonce ≡ ok tt
unfolding validate
fits→validate key nonce h e =
    ground (arith, ==_iff (length key) 16, ==_iff (length key) 32, ==_iff (length nonce) 12)

abbrev pub first_counter : List ℕ → List ℕ
first_counter nonce = inc32 (initial_counter nonce)

first_counter-IsBlock : (nonce : List ℕ) → length nonce ≡ 12 → IsBlock (first_counter nonce)
first_counter-IsBlock nonce h =
    inc32-IsBlock (initial_counter nonce) (omega (arith, length-append nonce (0 ∷ 0 ∷ 0 ∷ 1 ∷ [])))

length-ghash : (h b : List ℕ) → length (ghash h b) ≡ 16
unfolding ghash
length-ghash h b = length-be_bytes 16 (ghash_loop ((length b + 15) / 16) (from_bytes h) b 0)

-- The tag is computed for every associated data and ciphertext, and has 16 bytes.
compute_tag_total :
    (c : Aes) (nonce aad ct : List ℕ)
    → IsCipher c
    → length nonce ≡ 12
    → (tag : List ℕ) × (compute_tag c nonce aad ct ≡ ok tag) × (length tag ≡ 16)
unfolding compute_tag
compute_tag_total c nonce aad ct cip e =
    let (h, eh, _) = cip.encrypts (replicate 16 0) refl in
    let (mask, em, size) =
      cip.encrypts (initial_counter nonce)
        (omega (arith, length-append nonce (0 ∷ 0 ∷ 0 ∷ 1 ∷ []))) in
    let g = ghash h (ghash_input aad ct) in
    (
      zip_xor g mask,
      rw (eh, em),
      omega (arith, length-zip_xor g mask, length-ghash h (ghash_input aad ct)),
    )

-- What a call of `encrypt` that returns has done.
record Sealed (key nonce pt aad ct tag : List ℕ) : Type 0 where
  fits : KeyFits key × (length nonce ≡ 12)
  short : length pt ≤ max_pt_len
  cipher : Aes
  made : aes_init key ≡ ok cipher
  sealed : gctr cipher (first_counter nonce) pt ≡ ok ct
  tagged : compute_tag cipher nonce aad ct ≡ ok tag

module _ (key nonce pt aad ct tag : List ℕ) where
  encrypt→Sealed : encrypt key nonce pt aad ≡ ok (ct, tag) → Sealed key nonce pt aad ct tag
  unfolding encrypt
  encrypt→Sealed h =
      let (u, valid, h1) = >>=-eq-ok (validate key nonce) _ h in
      let (v, short, h2) = >>=-eq-ok (require (leb (length pt) max_pt_len) value_error) _ h1 in
      let (c, made, h3) = >>=-eq-ok (aes_init key) _ h2 in
      let (ct', sealed, h4) = >>=-eq-ok (gctr c (first_counter nonce) pt) _ h3 in
      let (tag', tagged, h5) = >>=-eq-ok (compute_tag c nonce aad ct') _ h4 in
      let (ect, etag) = same_pair ct' tag' h5 in
      record {
        fits = validate→fits key nonce valid;
        short = ground arith;
        cipher = c;
        made = made;
        sealed = sealed ∙ ap ok ect;
        tagged = ap (compute_tag c nonce aad) (sym ect) ∙ tagged ∙ ap ok etag;
      }
    where
      same_pair :
          (x y : List ℕ)
          → ◌≡◌ {A = Outcome (List ℕ × List ℕ)} (ok (x, y)) (ok (ct, tag))
          → (x ≡ ct) × (y ≡ tag)
      same_pair x y e = ground arith

  Sealed→encrypt : Sealed key nonce pt aad ct tag → encrypt key nonce pt aad ≡ ok (ct, tag)
  unfolding encrypt
  Sealed→encrypt s =
      rw (fits→validate key nonce s.fits.0 s.fits.1, short, s.made, s.sealed, s.tagged)
    where
      short : leb (length pt) max_pt_len ≡ true
      short = ground (arith, s.short)

  -- With the tag checked, `decrypt` undoes counter mode.
  Sealed→decrypt : Sealed key nonce pt aad ct tag → decrypt key nonce ct tag aad ≡ ok (some pt)
  unfolding decrypt decrypt_tagged open_if
  Sealed→decrypt s =
      let cip = aes_init-IsCipher key s.cipher s.made in
      let u =
        gctr-Undoes s.cipher (first_counter nonce) pt cip (first_counter-IsBlock nonce s.fits.1) in
      let (t, et, size) = compute_tag_total s.cipher nonce aad ct cip s.fits.1 in
      let same_tag : t ≡ tag = cc (et, s.tagged) in
      let same_ct : u.out ≡ ct = cc (u.forward, s.sealed) in
      let back : gctr s.cipher (first_counter nonce) ct ≡ ok pt =
        ap (gctr s.cipher (first_counter nonce)) (sym same_ct) ∙ u.back in
      rw (
        fits→validate key nonce s.fits.0 s.fits.1,
        (==_iff (length tag) 16).1 (ap length (sym same_tag) ∙ size),
        s.made,
        s.tagged,
        (consttime_equal_iff tag tag).1 refl,
        back,
      )

  open_if-some :
      (b : Bool) (m : Outcome (List ℕ)) → open_if b m ≡ ok (some pt) → (b ≡ true) × (m ≡ ok pt)
  unfolding open_if
  open_if-some true (ok p) h = (refl, cc)
  open_if-some true (raise e) h = cc
  open_if-some false m h = cc

  decrypt→tagged :
      decrypt key nonce ct tag aad ≡ ok (some pt)
      → KeyFits key × (length nonce ≡ 12) × (decrypt_tagged key nonce ct tag aad ≡ ok (some pt))
  unfolding decrypt
  decrypt→tagged h =
      let (u, valid, h1) = >>=-eq-ok (validate key nonce) _ h in
      let (k, n) = validate→fits key nonce valid in
      elim (Bool-cases (length tag == 16)) [
        | inl e ↦ (k, n, rw e at h1)
        | inr e ↦ absurd (cc (rw e at h1))
      ]

  decrypt→Sealed :
      length pt ≤ max_pt_len
      → decrypt key nonce ct tag aad ≡ ok (some pt)
      → Sealed key nonce pt aad ct tag
  unfolding decrypt_tagged
  decrypt→Sealed short h =
      let (k, n, h0) = decrypt→tagged h in
      let (c, made, h1) = >>=-eq-ok (aes_init key) _ h0 in
      let (t, tagged, h2) = >>=-eq-ok (compute_tag c nonce aad ct) _ h1 in
      let (same, opened) =
        open_if-some (consttime_equal t tag) (gctr c (first_counter nonce) ct) h2 in
      let u =
        gctr-Undoes c (first_counter nonce) ct (aes_init-IsCipher key c made)
          (first_counter-IsBlock nonce n) in
      let same_pt : u.out ≡ pt = cc (u.forward, opened) in
      record {
        fits = (k, n);
        short = short;
        cipher = c;
        made = made;
        sealed = ap (gctr c (first_counter nonce)) (sym same_pt) ∙ u.back;
        tagged = tagged ∙ ap ok ((consttime_equal_iff t tag).0 same);
      }

-- For a plaintext within the size limit, `encrypt` returns (ct, tag) exactly when `decrypt` of
-- (ct, tag) under the same key, nonce and associated data returns that plaintext.
pub encrypt-decrypt_iff :
    (key nonce pt aad ct tag : List ℕ)
    → length pt ≤ max_pt_len
    → (encrypt key nonce pt aad ≡ ok (ct, tag)) ↔ (decrypt key nonce ct tag aad ≡ ok (some pt))
encrypt-decrypt_iff key nonce pt aad ct tag short = (
  λ h. Sealed→decrypt key nonce pt aad ct tag (encrypt→Sealed key nonce pt aad ct tag h),
  λ h. Sealed→encrypt key nonce pt aad ct tag (decrypt→Sealed key nonce pt aad ct tag short h),
)

-- What was encrypted is opened again, whatever its length.
pub decrypt-encrypt :
    (key nonce pt aad ct tag : List ℕ)
    → encrypt key nonce pt aad ≡ ok (ct, tag)
    → decrypt key nonce ct tag aad ≡ ok (some pt)
decrypt-encrypt key nonce pt aad ct tag h =
    Sealed→decrypt key nonce pt aad ct tag (encrypt→Sealed key nonce pt aad ct tag h)

-- `encrypt` returns, with a ciphertext as long as the plaintext and a tag of 16 bytes, whenever
-- the key has 16 or 32 bytes, the nonce 12, and the plaintext is within the limit.
pub encrypt_total :
    (key nonce pt aad : List ℕ)
    → KeyFits key
    → length nonce ≡ 12
    → length pt ≤ max_pt_len
    → (ct : List ℕ) × (tag : List ℕ) × (encrypt key nonce pt aad ≡ ok (ct, tag))
      × (length ct ≡ length pt)
      × (length tag ≡ 16)
encrypt_total key nonce pt aad k n short =
    let (c, made) = aes_init_total key k in
    let cip = aes_init-IsCipher key c made in
    let u = gctr-Undoes c (first_counter nonce) pt cip (first_counter-IsBlock nonce n) in
    let (tag, tagged, size) = compute_tag_total c nonce aad u.out cip n in
    (
      u.out,
      tag,
      Sealed→encrypt key nonce pt aad u.out tag (record {
        fits = (k, n);
        short = short;
        cipher = c;
        made = made;
        sealed = u.forward;
        tagged = tagged;
      }),
      u.same_length,
      size,
    )
