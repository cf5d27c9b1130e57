-- ===== src/Crypto/Ecdh.antt =====
-- crypto/ecdh.py: the key that two parties share.
use crypto_project.Base.{
  ℕ, List, [], ◌∷◌, ◌++◌, Option, none, some, Outcome, ok, raise, require, ◌>>=◌, ◌>>◌, value_error,
  pos,
}
use crypto_project.Bytes.{to_bytes}
use crypto_project.Crypto.Sha256.{sha256}
use crypto_project.Crypto.Ecdsa.Sign.{choose_scalar, with_public}
use crypto_project.Crypto.P256.{
  Point, scalar_mul, point_from_bytes, is_on_curve, is_valid_private_key,
}

-- b"SecureVault-ECDH-v1"
abbrev domain_label : List ℕ
domain_label =
    b'S' ∷ b'e' ∷ b'c' ∷ b'u' ∷ b'r' ∷ b'e' ∷ b'V' ∷ b'a' ∷ b'u' ∷ b'l' ∷ b't' ∷ b'-' ∷ b'E' ∷ b'C'
    ∷ b'D' ∷ b'H' ∷ b'-' ∷ b'v' ∷ b'1' ∷ []

-- The x-coordinate as 32 bytes, unless the point is at infinity.
unfoldable pub x_bytes : Option Point → Outcome (List ℕ)
x_bytes none = raise value_error
x_bytes (some p) = to_bytes 32 p.x

unfoldable pub raw_shared_x : ℕ → List ℕ → Outcome (List ℕ)
raw_shared_x private_scalar peer_public = do
  require (is_valid_private_key private_scalar) value_error
  peer ← point_from_bytes peer_public
  require (is_on_curve (some peer)) value_error
  shared ← scalar_mul (pos private_scalar) (some peer)
  x_bytes shared

unfoldable pub shared_key : ℕ → List ℕ → List ℕ → Outcome (List ℕ)
shared_key private_scalar peer_public info = do
  raw_x ← raw_shared_x private_scalar peer_public
  ok (sha256 (domain_label ++ (raw_x ++ info)))

-- The loop of crypto/ecdsa.py, written a second time.
unfoldable pub generate_keypair : List (List ℕ) → Outcome (Option (ℕ × List ℕ))
generate_keypair draws = with_public (choose_scalar draws)
