-- ===== src/Crypto/Gcm.antt =====
-- crypto/gcm.py: AES-GCM over the block cipher of crypto/aes.py.
pub mod Counter
pub mod RoundTrip
use crypto_project.Base.{
  ℕ, zero, suc, ◌+◌, ◌-◌, ◌*◌, ◌/◌, ◌%◌, ◌^◌, bit_and, bit_xor, ◌||◌, List, [], ◌∷◌, ◌++◌, length,
  take, drop, replicate, Option, none, some, ◌==◌, leb, Bool, true, false, if◌then◌else◌, Outcome,
  ok, require, value_error, ◌>>=◌, ◌>>◌,
}
use crypto_project.Bytes.{be_bytes, from_bytes, zip_xor}
use crypto_project.Crypto.Hmac.{consttime_equal}
use crypto_project.Crypto.Aes.{Aes, aes_init, aes_encrypt_block}

abbrev pub max_pt_len : ℕ
max_pt_len = 2 ^ 36 - 32

abbrev pub r_poly : ℕ
r_poly = 0xE1 * 2 ^ 120

-- The loop of `_gf128_mul`: `n` rounds left, so the bit of `x` that is read is bit `n - 1`.
pub gf128_loop : ℕ → ℕ → ℕ → ℕ → ℕ
gf128_loop zero x v z = z
gf128_loop (suc n) x v z =
    gf128_loop n x (if bit_and v 1 == 0 then v / 2 else bit_xor (v / 2) r_poly)
      (if bit_and (x / 2 ^ n) 1 == 0 then z else bit_xor z v)

pub gf128_mul : ℕ → ℕ → ℕ
unfolding gf128_loop
gf128_mul x y = gf128_loop 128 x y 0

-- The loop of `_ghash` over the blocks of `bytes`, with the rounds left.
pub ghash_loop : ℕ → ℕ → List ℕ → ℕ → ℕ
unfolding gf128_mul from_bytes
ghash_loop zero h bytes y = y
ghash_loop (suc n) h bytes y =
    ghash_loop n h (drop 16 bytes) (gf128_mul (bit_xor y (from_bytes (take 16 bytes))) h)

pub ghash : List ℕ → List ℕ → List ℕ
unfolding ghash_loop be_bytes
ghash h bytes = be_bytes 16 (ghash_loop ((length bytes + 15) / 16) (from_bytes h) bytes 0)

pub inc32 : List ℕ → List ℕ
unfolding be_bytes from_bytes
inc32 block = take 12 block ++ be_bytes 4 ((from_bytes (drop 12 block) + 1) % 2 ^ 32)

-- The loop of `_gctr`, with the rounds left.
pub gctr_loop : ℕ → Aes → List ℕ → List ℕ → Outcome (List ℕ)
unfolding inc32 zip_xor
gctr_loop zero cipher counter bytes = ok []
gctr_loop (suc n) cipher counter bytes = do
  keystream ← aes_encrypt_block cipher counter
  rest ← gctr_loop n cipher (inc32 counter) (drop 16 bytes)
  ok (zip_xor (take 16 bytes) keystream ++ rest)

pub gctr : Aes → List ℕ → List ℕ → Outcome (List ℕ)
unfolding gctr_loop
gctr cipher icb bytes = gctr_loop ((length bytes + 15) / 16) cipher icb bytes

pub zero_pad : ℕ → List ℕ
zero_pad n = replicate ((16 - n % 16) % 16) 0

pub validate : List ℕ → List ℕ → Outcome (Unit {0})
validate key nonce = do
  require (length key == 16 || length key == 32) value_error
  require (length nonce == 12) value_error

-- A || 0-pad || C || 0-pad || len(A) || len(C)
pub ghash_input : List ℕ → List ℕ → List ℕ
unfolding zero_pad be_bytes
ghash_input aad ct =
    aad
    ++ (zero_pad (length aad)
        ++ (ct
            ++ (zero_pad (length ct)
                ++ (be_bytes 8 (length aad * 8) ++ be_bytes 8 (length ct * 8)))))

abbrev pub initial_counter : List ℕ → List ℕ
initial_counter nonce = nonce ++ (0 ∷ 0 ∷ 0 ∷ 1 ∷ [])

-- S XOR AES(J0), which both directions compute.
pub compute_tag : Aes → List ℕ → List ℕ → List ℕ → Outcome (List ℕ)
unfolding ghash ghash_input zip_xor
compute_tag cipher nonce aad ct = do
  h ← aes_encrypt_block cipher (replicate 16 0)
  mask ← aes_encrypt_block cipher (initial_counter nonce)
  ok (zip_xor (ghash h (ghash_input aad ct)) mask)

unfoldable pub encrypt : List ℕ → List ℕ → List ℕ → List ℕ → Outcome (List ℕ × List ℕ)
unfolding gctr compute_tag validate
encrypt key nonce plaintext aad = do
  validate key nonce
  require (leb (length plaintext) max_pt_len) value_error
  cipher ← aes_init key
  ct ← gctr cipher (inc32 (initial_counter nonce)) plaintext
  tag ← compute_tag cipher nonce aad ct
  ok (ct, tag)

-- `none` is Python's None: the tag did not verify, and nothing was decrypted.
pub open_if : Bool → Outcome (List ℕ) → Outcome (Option (List ℕ))
open_if false m = ok none
open_if true m = do p ← m; ok (some p)

pub decrypt_tagged : List ℕ → List ℕ → List ℕ → List ℕ → List ℕ → Outcome (Option (List ℕ))
unfolding gctr compute_tag open_if
decrypt_tagged key nonce ct tag aad = do
  cipher ← aes_init key
  expected_tag ← compute_tag cipher nonce aad ct
  open_if (consttime_equal expected_tag tag) (gctr cipher (inc32 (initial_counter nonce)) ct)

unfoldable pub decrypt : List ℕ → List ℕ → List ℕ → List ℕ → List ℕ → Outcome (Option (List ℕ))
unfolding validate decrypt_tagged
decrypt key nonce ct tag aad = do
  validate key nonce
  if length tag == 16 then decrypt_tagged key nonce ct tag aad else ok none
