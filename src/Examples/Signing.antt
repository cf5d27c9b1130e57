-- ===== src/Examples/Signing.antt =====
-- Signing and key generation at concrete inputs: RFC 6979, appendix A.2.5, message "sample".
use crypto_project.Base.{ℕ, List, [], ◌∷◌, length, some, ok, true, false, ◌≡◌, refl}
use crypto_project.Bytes.{to_bytes, be_bytes, from_bytes}
use crypto_project.Text.{codes}
use crypto_project.Crypto.Sha256.{sha256}
use crypto_project.Crypto.Hmac.{hmac_sha256}
use crypto_project.Crypto.P256.{mod_inv, scalar_mul, is_valid_private_key}
use crypto_project.Crypto.Ecdsa.{Signature, in_range, signature_to_bytes, signature_from_bytes}
use crypto_project.Crypto.Ecdsa.Sign.{
  bits2octets, feed, start, fill, candidate, generator_loop, generate_k, sign_with, attempt_k,
  attempt, after_attempt, sign_loop, sign,
}
use crypto_project.Crypto.Ecdsa.Sign.Laws.{sign-signature_to_bytes}

abbrev private_scalar : ℕ
private_scalar = 0xC9AFA9D845BA75166B5C215767B1D6934E50C3DB36E89B127B8A622B120F6721

abbrev signature : Signature
signature = record {
  r = 0xEFD48B2AACB6A8FD1140DD9CD45E81D69D2C877B56AAF991C34D0EA84EAF3716;
  s = 0xF7CB1C942D657C41D436C7A1B6E29F65F3E900DBB9AFF4064DC4AB2F843ACDA8;
}

signed_sample : sign 1 private_scalar (codes "sample") ≡ ok (some signature)
unfolding sign sign_loop attempt attempt_k sign_with after_attempt generate_k generator_loop start
    feed fill candidate bits2octets to_bytes be_bytes hmac_sha256 sha256 mod_inv scalar_mul
    is_valid_private_key
signed_sample = refl

sign-signature_to_bytes_example :
    (in_range signature.r ≡ true)
    × (in_range signature.s ≡ true)
    × ((bytes : List ℕ) × (signature_to_bytes signature ≡ ok bytes)
        × (length bytes ≡ 64)
        × (signature_from_bytes bytes ≡ ok signature))
sign-signature_to_bytes_example =
    sign-signature_to_bytes 1 private_scalar (codes "sample") signature signed_sample

-- A draw of zeros and one above the order, then the key.
no_key :
    (is_valid_private_key (from_bytes (0 ∷ [])) ≡ false)
    × ((is_valid_private_key (
            from_bytes
              (be_bytes 32 0xFFFFFFFFFFFFFFFFFFFFFFFFFFFFFFFFFFFFFFFFFFFFFFFFFFFFFFFFFFFFFFFF))
          ≡ false)
        × Unit {0})
unfolding is_valid_private_key from_bytes be_bytes
no_key = (refl, (refl, tt))

a_key : is_valid_private_key (from_bytes (be_bytes 32 private_scalar)) ≡ true
unfolding is_valid_private_key from_bytes be_bytes
a_key = refl
