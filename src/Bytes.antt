-- ===== src/Bytes.antt =====
-- `int.to_bytes(n, "big")` and `int.from_bytes(b, "big")`. A bytes object is a list of numbers,
-- each below 256.
pub mod Laws
use crypto_project.Base.{
  ℕ, zero, suc, ◌+◌, ◌*◌, ◌/◌, ◌%◌, ◌^◌, ◌<◌, List, [], ◌∷◌, ◌++◌, map, bit_xor, ltb, if◌then◌else◌,
  Outcome, ok, raise, overflow_error, length, All,
}

abbrev pub IsByte : ℕ → Type 0
IsByte b = b < 256

abbrev pub IsBytes : List ℕ → Type 0
IsBytes = All IsByte

-- The last `n` bytes of `x`, the first one most significant.
unfoldable pub be_bytes : ℕ → ℕ → List ℕ
be_bytes zero x = []
be_bytes (suc n) x = be_bytes n (x / 256) ++ (x % 256 ∷ [])

-- `x.to_bytes(n, "big")`: OverflowError where `x` does not fit.
unfoldable pub to_bytes : ℕ → ℕ → Outcome (List ℕ)
to_bytes n x = if ltb x (256 ^ n) then ok (be_bytes n x) else raise overflow_error

pub from_bytes_acc : ℕ → List ℕ → ℕ
from_bytes_acc acc [] = acc
from_bytes_acc acc (b ∷ bs) = from_bytes_acc (acc * 256 + b) bs

-- `int.from_bytes(b, "big")`
unfoldable pub from_bytes : List ℕ → ℕ
unfolding from_bytes_acc
from_bytes = from_bytes_acc 0

-- `bytes(a ^ b for a, b in zip(xs, ys))`
unfoldable pub zip_xor : List ℕ → List ℕ → List ℕ
zip_xor [] ys = []
zip_xor (x ∷ xs) [] = []
zip_xor (x ∷ xs) (y ∷ ys) = bit_xor x y ∷ zip_xor xs ys
