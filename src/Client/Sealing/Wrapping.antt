-- ===== src/Client/Sealing/Wrapping.antt =====
-- The shares that client/client.py makes open for their recipient.
use crypto_project.Base.{
  ℕ, List, [], Option, none, some, ok, finished, >>=-eq-ok, ◌≡◌, refl, ap, ◌∙◌,
}
use crypto_project.Text.{Text}
use crypto_project.Crypto.Gcm.{encrypt, decrypt}
use crypto_project.Crypto.Gcm.RoundTrip.{decrypt-encrypt}
use crypto_project.Crypto.Ecdh.{shared_key, generate_keypair}
use crypto_project.Formats.Share.{Share, pack_share_body, unpack_share}
use crypto_project.Formats.Share.RoundTrip.{unpack_share-pack_share}
use crypto_project.Client.Session.{Runtime, sign_bytes}
use crypto_project.Client.Opening.{opened, unwrap_with}
use crypto_project.Client.Sealing.{
  zero_nonce, no_signature, ShareDraws, wrap_info, sign_share, make_share,
}

finished_inv : {A : Type 0} (o : Option A) {a : A} → finished o ≡ ok a → o ≡ some a
finished_inv none h = cc h
finished_inv (some b) h = cc h

-- The signature is of the body with the signature left out, and the share unpacks.
sign_share_inv :
    (rt : Runtime) (sig_priv : ℕ) (unsigned : Share) (blob : List ℕ)
    → sign_share rt sig_priv unsigned ≡ ok blob
    → (body share_sig : List ℕ) × (pack_share_body unsigned ≡ ok body)
      × (sign_bytes rt sig_priv body ≡ ok share_sig)
      × (unpack_share blob ≡ ok (record unsigned { share_sig = share_sig }))
unfolding sign_share
sign_share_inv rt sig_priv unsigned blob h =
    let (body, e1, h1) = >>=-eq-ok (pack_share_body unsigned) _ h in
    let (share_sig, e2, h2) = >>=-eq-ok (sign_bytes rt sig_priv body) _ h1 in
    (
      body,
      share_sig,
      e1,
      e2,
      unpack_share-pack_share (record unsigned { share_sig = share_sig }) blob h2,
    )

unwrap_with_ok :
    (dh_priv : ℕ) (share : Share) (info wrap_key fk : List ℕ)
    → wrap_info share.doc_id share.recipient share.sender ≡ ok info
    → shared_key dh_priv share.eph_pub info ≡ ok wrap_key
    → decrypt wrap_key share.nonce share.wrapped_fk share.tag [] ≡ ok (some fk)
    → unwrap_with dh_priv share ≡ ok fk
unfolding unwrap_with opened
unwrap_with_ok dh_priv share info wrap_key fk e1 e2 e3 = rw (e1, e2, e3) refl

-- When a share is made for a recipient whose private key and the ephemeral public key give the same
-- shared keys as the ephemeral private key and the recipient's public key, its bytes unpack to a
-- share with the document's hash, the sender and the recipient, the recipient's private key unwraps
-- the file key from it, and the signature in it is the sender's, of the bytes that `download` verifies.
pub unwrap_with-make_share :
    (rt : Runtime) (draws : ShareDraws) (me : Text × ℕ) (recipient : Text)
    (recipient_dh doc_id : List ℕ) (version : ℕ) (doc_hash fk blob : List ℕ) (dh_priv : ℕ)
    → ((eph : ℕ × List ℕ) (info : List ℕ)
        → generate_keypair draws.eph_draws ≡ ok (some eph)
        → shared_key dh_priv eph.1 info ≡ shared_key eph.0 recipient_dh info)
    → make_share rt draws me recipient recipient_dh doc_id version doc_hash fk ≡ ok blob
    → (share : Share) × (body : List ℕ) × (unpack_share blob ≡ ok share)
      × (share.doc_hash ≡ doc_hash)
      × (share.sender ≡ me.0)
      × (share.recipient ≡ recipient)
      × (unwrap_with dh_priv share ≡ ok fk)
      × (pack_share_body (record share { share_sig = no_signature }) ≡ ok body)
      × (sign_bytes rt me.1 body ≡ ok share.share_sig)
unfolding make_share
unwrap_with-make_share rt draws me recipient recipient_dh doc_id version doc_hash fk blob dh_priv
      agree h =
    let (drawn, e1, h1) = >>=-eq-ok (generate_keypair draws.eph_draws) _ h in
    let (eph, e2, h2) = >>=-eq-ok (finished drawn) _ h1 in
    let (info, e3, h3) = >>=-eq-ok (wrap_info doc_id recipient me.0) _ h2 in
    let (wrap_key, e4, h4) = >>=-eq-ok (shared_key eph.0 recipient_dh info) _ h3 in
    let (wrapped, e5, h5) = >>=-eq-ok (encrypt wrap_key zero_nonce fk []) _ h4 in
    let (body, share_sig, e6, e7, unpacked) = sign_share_inv rt me.1 _ blob h5 in
    let same_key : shared_key dh_priv eph.1 info ≡ ok wrap_key =
      agree eph info (e1 ∙ ap ok (finished_inv drawn e2)) ∙ e4 in
    (
      _,
      body,
      unpacked,
      refl,
      refl,
      refl,
      unwrap_with_ok dh_priv _ info wrap_key fk e3 same_key
          (decrypt-encrypt wrap_key zero_nonce fk [] wrapped.0 wrapped.1 e5),
      e6,
      e7,
    )
