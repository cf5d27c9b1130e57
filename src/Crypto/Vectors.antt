-- ===== src/Crypto/Vectors.antt =====
-- Published test vectors, run on the definitions of crypto/.
use crypto_project.Base.{ℕ, List, [], ◌∷◌, replicate, Outcome, ◌>>=◌, ok, some, true, ◌≡◌, refl}
use crypto_project.Bytes.{be_bytes, from_bytes}
use crypto_project.Crypto.Sha256.{sha256}
use crypto_project.Crypto.Hmac.{hmac_sha256, consttime_equal}
use crypto_project.Crypto.Aes.{encrypt_block, aes_init, aes_encrypt_block}
use crypto_project.Crypto.Gcm.{encrypt, decrypt}
use crypto_project.Crypto.P256.{
  point_from_bytes, mod_inv, scalar_mul, point_add, point_double, point_to_bytes, scalar_mul_g,
  is_on_curve, is_valid_private_key,
}
use crypto_project.Crypto.Ecdh.{shared_key, raw_shared_x, x_bytes}
use crypto_project.Crypto.Ecdsa.{Signature, verify}

sha256_abc :
    from_bytes (sha256 (b'a' ∷ b'b' ∷ b'c' ∷ []))
    ≡ 0xba7816bf8f01cfea414140de5dae2223b00361a396177a9cb410ff61f20015ad
unfolding sha256 from_bytes
sha256_abc = refl

-- RFC 4231, test case 2.
hmac_rfc4231 :
    from_bytes (
      hmac_sha256
        (b'J' ∷ b'e' ∷ b'f' ∷ b'e' ∷ [])
        (be_bytes 28 0x7768617420646f2079612077616e7420666f72206e6f7468696e673f))
    ≡ 0x5bdcc146bf60754e6a042426089575c75a003f089d2739839dec58b964ec3843
unfolding hmac_sha256 sha256 from_bytes be_bytes
hmac_rfc4231 = refl

-- FIPS 197, appendix C.3.
aes256_fips197 :
    encrypt_block
      (be_bytes 32 0x000102030405060708090a0b0c0d0e0f101112131415161718191a1b1c1d1e1f)
      (be_bytes 16 0x00112233445566778899aabbccddeeff)
    ≡ ok (be_bytes 16 0x8ea2b7ca516745bfeafc49904b496089)
unfolding encrypt_block be_bytes
aes256_fips197 = refl

-- The GCM specification, test case 13 and 14 (AES-256).
gcm_case14 :
    encrypt (replicate 32 0) (replicate 12 0) (replicate 16 0) []
    ≡ ok (
      be_bytes 16 0xcea7403d4d606b6e074ec5d3baf39d18,
      be_bytes 16 0xd0d1c8a799996bf0265b98b5d48ab919,
    )
unfolding encrypt aes_init aes_encrypt_block be_bytes
gcm_case14 = refl

gcm_case14_open :
    decrypt
      (replicate 32 0)
      (replicate 12 0)
      (be_bytes 16 0xcea7403d4d606b6e074ec5d3baf39d18)
      (be_bytes 16 0xd0d1c8a799996bf0265b98b5d48ab919)
      []
    ≡ ok (some (replicate 16 0))
unfolding decrypt aes_init aes_encrypt_block be_bytes consttime_equal
gcm_case14_open = refl

-- RFC 6979, appendix A.2.5: P-256 with SHA-256, message "sample".
abbrev sample_key : List ℕ
sample_key =
    4
    ∷ be_bytes 64
        0x60FED4BA255A9D31C961EB74C6356D68C049B8923B61FA6CE669622E60F29FB67903FE1008B8BC99A41AE9E95628BC64F2F1B20C2D7E9F5177A3C294D4462299

abbrev sample_signature : Signature
sample_signature = record {
  r = 0xEFD48B2AACB6A8FD1140DD9CD45E81D69D2C877B56AAF991C34D0EA84EAF3716;
  s = 0xF7CB1C942D657C41D436C7A1B6E29F65F3E900DBB9AFF4064DC4AB2F843ACDA8;
}

ecdsa_rfc6979 :
    verify sample_key (b's' ∷ b'a' ∷ b'm' ∷ b'p' ∷ b'l' ∷ b'e' ∷ []) sample_signature ≡ ok true
unfolding verify be_bytes sha256 point_from_bytes mod_inv scalar_mul point_add is_on_curve
ecdsa_rfc6979 = refl

-- Two private keys and their public keys give one shared key, on either side.
abbrev shared_by : ℕ → ℕ → Outcome (List ℕ)
shared_by mine theirs = do
  peer ← scalar_mul_g theirs
  peer_public ← point_to_bytes peer
  shared_key mine peer_public (1 ∷ [])

shared_by_both : shared_by 2 3 ≡ shared_by 3 2
unfolding shared_key raw_shared_x x_bytes sha256 point_from_bytes point_to_bytes mod_inv scalar_mul
    scalar_mul_g point_add point_double is_on_curve is_valid_private_key
shared_by_both = refl
