-- ===== src/Crypto/Ecdsa/Range.antt =====
-- Signatures as bytes and as pairs, and what `verify` refuses before it computes anything.
use crypto_project.Base.{
  ℕ, ◌^◌, ◌≤◌, ◌<◌, false, ◌&&◌, List, ◌++◌, length, length-append, take-append_exact,
  drop-append_exact, ok, ◌≡◌, ◌⊎◌, ap, arith, if◌then◌else◌,
}
use crypto_project.Bytes.{be_bytes}
use crypto_project.Bytes.Laws.{length-be_bytes, from_bytes-be_bytes, to_bytes_fits}
use crypto_project.Crypto.P256.{n_order}
use crypto_project.Crypto.Ecdsa.{
  Signature, in_range, verify, verify_in_range, signature_to_bytes, signature_from_bytes,
}

signature_to_bytes_fits :
    (sig : Signature)
    → sig.r < 256 ^ 32
    → sig.s < 256 ^ 32
    → signature_to_bytes sig ≡ ok (be_bytes 32 sig.r ++ be_bytes 32 sig.s)
unfolding signature_to_bytes
signature_to_bytes_fits sig hr hs = rw (to_bytes_fits 32 sig.r hr, to_bytes_fits 32 sig.s hs)

-- A pair of 32-byte numbers is encoded in 64 bytes, and decoded to the same pair.
pub signature_from_bytes-to_bytes :
    (sig : Signature)
    → sig.r < 256 ^ 32
    → sig.s < 256 ^ 32
    → (bytes : List ℕ) × (signature_to_bytes sig ≡ ok bytes)
      × (length bytes ≡ 64)
      × (signature_from_bytes bytes ≡ ok sig)
unfolding signature_from_bytes
signature_from_bytes-to_bytes sig hr hs =
    let a = be_bytes 32 sig.r in
    let b = be_bytes 32 sig.s in
    let la = length-be_bytes 32 sig.r in
    let size : length (a ++ b) ≡ 64 =
      omega (arith, length-append a b, la, length-be_bytes 32 sig.s) in
    (
      a ++ b,
      signature_to_bytes_fits sig hr hs,
      size,
      rw (size, take-append_exact 32 a b la, drop-append_exact 32 a b la)
          (λ i. ok (record {
            r = from_bytes-be_bytes 32 sig.r hr i;
            s = from_bytes-be_bytes 32 sig.s hs i;
          })),
    )

abbrev pub OutOfRange : Signature → Type 0
OutOfRange sig = (sig.r ≡ 0) ⊎ (n_order ≤ sig.r) ⊎ (sig.s ≡ 0) ⊎ (n_order ≤ sig.s)

not-in_range : (sig : Signature) → OutOfRange sig → (in_range sig.r && in_range sig.s) ≡ false
unfolding in_range
not-in_range sig h = ground arith

-- A pair outside the range [1, N - 1] is never a valid signature, under any key: `verify` answers
-- False and does not raise.
pub verify-OutOfRange :
    (key message : List ℕ) (sig : Signature) → OutOfRange sig → verify key message sig ≡ ok false
unfolding verify
verify-OutOfRange key message sig h =
    ap (λ b. if b then verify_in_range key message sig else ok false) (not-in_range sig h)
