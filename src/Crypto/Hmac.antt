-- ===== src/Crypto/Hmac.antt =====
-- crypto/hmac.py and crypto/kdf.py.
pub mod Compare
use crypto_project.Base.{
  ℕ, zero, ◌-◌, bit_or, bit_xor, Bool, false, List, [], ◌∷◌, ◌++◌, map, length, replicate, ltb,
  ◌==◌, if◌then◌else◌,
}
use crypto_project.Crypto.Sha256.{sha256}

-- Long keys are hashed.
pub reduce_key : List ℕ → List ℕ
reduce_key key = if ltb 64 (length key) then sha256 key else key

-- Short keys are padded with zeros to one block.
pub pad_key : List ℕ → List ℕ
pad_key key = if ltb (length key) 64 then key ++ replicate (64 - length key) 0 else key

pub block_key : List ℕ → List ℕ
unfolding reduce_key pad_key
block_key key = pad_key (reduce_key key)

unfoldable pub hmac_sha256 : List ℕ → List ℕ → List ℕ
unfolding block_key
hmac_sha256 key message =
    let key' = block_key key in
    let inner_key = map (λ b. bit_xor b 0x36) key' in
    let outer_key = map (λ b. bit_xor b 0x5C) key' in
    sha256 (outer_key ++ sha256 (inner_key ++ message))

-- The loop of `_consttime_equal`: `diff |= x ^ y` over the zipped bytes.
pub diff_loop : ℕ → List ℕ → List ℕ → ℕ
diff_loop diff (x ∷ xs) (y ∷ ys) = diff_loop (bit_or diff (bit_xor x y)) xs ys
diff_loop diff _ _ = diff

unfoldable pub consttime_equal : List ℕ → List ℕ → Bool
unfolding diff_loop
consttime_equal a b = if length a == length b then diff_loop 0 a b == 0 else false

pub verify : List ℕ → List ℕ → List ℕ → Bool
unfolding hmac_sha256 consttime_equal
verify key message tag = consttime_equal (hmac_sha256 key message) tag

-- crypto/kdf.py
pub derive_auth_key : List ℕ → List ℕ
derive_auth_key master = hmac_sha256 master (b'a' ∷ b'u' ∷ b't' ∷ b'h' ∷ [])

pub derive_kek : List ℕ → List ℕ
derive_kek master = hmac_sha256 master (b'k' ∷ b'e' ∷ b'k' ∷ [])

unfoldable pub derive_both : List ℕ → List ℕ × List ℕ
unfolding derive_auth_key derive_kek
derive_both master = (derive_auth_key master, derive_kek master)
