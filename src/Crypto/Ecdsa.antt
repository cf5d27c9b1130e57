-- ===== src/Crypto/Ecdsa.antt =====
-- crypto/ecdsa.py: verification, and the fixed-length encoding of signatures.
pub mod Range
pub mod Sign
use crypto_project.Base.{
  ℕ, zero, suc, ◌+◌, ◌-◌, ◌*◌, ◌/◌, ◌%◌, ◌^◌, Bool, true, false, ◌&&◌, not, List, [], ◌∷◌, ◌++◌,
  length, take, drop, Option, none, some, ◌==◌, leb, if◌then◌else◌, Outcome, ok, raise, ◌>>=◌,
  value_error, Exc, type_error, pos,
}
use crypto_project.Bytes.{to_bytes, from_bytes}
use crypto_project.Crypto.Sha256.{sha256}
use crypto_project.Crypto.P256.{
  Point, n_order, mod_inv, point_add, scalar_mul, point_from_bytes, is_on_curve, base_point,
}

pub record Signature : Type 0 where
  pub r : ℕ
  pub s : ℕ

pub bits2int : List ℕ → ℕ → ℕ
unfolding from_bytes
bits2int bytes qlen = from_bytes bytes / 2 ^ (length bytes * 8 - qlen)

pub hash_to_scalar : List ℕ → ℕ
unfolding bits2int
hash_to_scalar message = bits2int (sha256 message) 256

pub in_range : ℕ → Bool
in_range v = leb 1 v && leb v (n_order - 1)

-- The last step: the x-coordinate against `r`.
pub matches_r : ℕ → Option Point → Bool
matches_r r none = false
matches_r r (some p) = p.x % n_order == r

pub check_point : ℕ → ℕ → ℕ → ℕ → Point → Outcome Bool
unfolding matches_r
check_point z r s w q = do
  a ← scalar_mul (pos ((z * w) % n_order)) base_point
  b ← scalar_mul (pos ((r * w) % n_order)) (some q)
  sum ← point_add a b
  ok (matches_r r sum)

-- `except ValueError: return False` around the inverse of `s`.
pub with_inverse : Outcome ℕ → (ℕ → Outcome Bool) → Outcome Bool
with_inverse (ok w) f = f w
with_inverse (raise value_error) f = ok false
with_inverse (raise e) f = raise e

-- `except (ValueError, TypeError): return False` around the decoding of the key.
pub with_key : Outcome Point → (Point → Outcome Bool) → Outcome Bool
with_key (ok q) f = if is_on_curve (some q) then f q else ok false
with_key (raise value_error) f = ok false
with_key (raise type_error) f = ok false
with_key (raise e) f = raise e

-- `verify` once both parts of the signature are in range.
pub verify_in_range : List ℕ → List ℕ → Signature → Outcome Bool
unfolding hash_to_scalar check_point with_inverse with_key
verify_in_range public_key message sig = with_key (point_from_bytes public_key) (λ q.
    with_inverse (mod_inv sig.s n_order)
      (λ w. check_point (hash_to_scalar message) sig.r sig.s w q))

unfoldable pub verify : List ℕ → List ℕ → Signature → Outcome Bool
unfolding in_range verify_in_range
verify public_key message sig =
    if in_range sig.r && in_range sig.s then verify_in_range public_key message sig else ok false

unfoldable pub signature_to_bytes : Signature → Outcome (List ℕ)
unfolding to_bytes
signature_to_bytes sig = do r ← to_bytes 32 sig.r; s ← to_bytes 32 sig.s; ok (r ++ s)

unfoldable pub signature_from_bytes : List ℕ → Outcome Signature
unfolding from_bytes
signature_from_bytes bytes =
    if length bytes == 64
    then ok (record { r = from_bytes (take 32 bytes); s = from_bytes (drop 32 bytes) })
    else raise value_error
