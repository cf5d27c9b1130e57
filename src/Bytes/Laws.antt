-- ===== src/Bytes/Laws.antt =====
-- Big-endian conversion: lengths, ranges and both round trips; `zip_xor` is undone by itself.
use native.Mathlib.Nat.{add-zero, zero-add, add-suc, suc-add, pow-suc}
use crypto_project.Base.{
  ℕ, zero, suc, ◌+◌, ◌*◌, ◌/◌, ◌%◌, ◌^◌, ◌≤◌, ◌<◌, List, [], ◌∷◌, ◌++◌, min, lt→ltb, ok, ◌≡◌, refl,
  sym, ap, ap₂, ◌∙◌, arith, length, All-append, append-nil, append_assoc, length-append,
}
use crypto_project.Bits.{xor_cancel, xor_lt}
use crypto_project.Bytes.{IsByte, IsBytes, be_bytes, to_bytes, from_bytes_acc, from_bytes, zip_xor}

pub length-be_bytes : (n x : ℕ) → length (be_bytes n x) ≡ n
unfolding be_bytes
length-be_bytes zero x = refl
length-be_bytes (suc n) x =
    omega (arith, length-append (be_bytes n (x / 256)) (x % 256 ∷ []), length-be_bytes n (x / 256))

pub be_bytes-IsBytes : (n x : ℕ) → IsBytes (be_bytes n x)
unfolding be_bytes
be_bytes-IsBytes zero x = tt
be_bytes-IsBytes (suc n) x =
    All-append IsByte (be_bytes n (x / 256)) _ (be_bytes-IsBytes n (x / 256)) (omega arith, tt)

from_bytes_acc-append :
    (acc : ℕ) (xs ys : List ℕ)
    → from_bytes_acc acc (xs ++ ys) ≡ from_bytes_acc (from_bytes_acc acc xs) ys
unfolding from_bytes_acc
from_bytes_acc-append acc [] ys = refl
from_bytes_acc-append acc (x ∷ xs) ys = from_bytes_acc-append (acc * 256 + x) xs ys

-- Reading back what was written: the number, if it fits.
pub from_bytes-be_bytes : (n x : ℕ) → x < 256 ^ n → from_bytes (be_bytes n x) ≡ x
unfolding from_bytes be_bytes
from_bytes-be_bytes zero x h = omega arith
from_bytes-be_bytes (suc n) x h =
    from_bytes_acc-append 0 (be_bytes n (x / 256)) (x % 256 ∷ [])
    ∙ omega (arith, from_bytes-be_bytes n (x / 256) (omega (arith, pow-suc 256 n)))

from_bytes_acc-lt :
    (acc n : ℕ) (bs : List ℕ)
    → IsBytes bs
    → acc < 256 ^ n
    → from_bytes_acc acc bs < 256 ^ (n + length bs)
unfolding from_bytes_acc
from_bytes_acc-lt acc n [] h a = rw add-zero a
from_bytes_acc-lt acc n (b ∷ bs) h a =
    rw (add-suc, ← suc-add)
      (from_bytes_acc-lt (acc * 256 + b) (suc n) bs h.1 (omega (arith, pow-suc 256 n, h.0)))

-- What is read from `n` bytes is below `256 ^ n`.
pub from_bytes-lt : (bs : List ℕ) → IsBytes bs → from_bytes bs < 256 ^ length bs
unfolding from_bytes
from_bytes-lt bs h = rw (← zero-add (length bs)) (from_bytes_acc-lt 0 0 bs h (omega arith))

be_bytes-from_bytes_acc :
    (acc n : ℕ) (bs : List ℕ)
    → IsBytes bs
    → be_bytes (length bs + n) (from_bytes_acc acc bs) ≡ be_bytes n acc ++ bs
unfolding from_bytes_acc
be_bytes-from_bytes_acc acc n [] h = rw (zero-add, append-nil)
be_bytes-from_bytes_acc acc n (b ∷ bs) h =
    rw (suc-add, ← add-suc)
      (be_bytes-from_bytes_acc (acc * 256 + b) (suc n) bs h.1
        ∙ ap (λ t. t ++ bs) (pushed h.0)
        ∙ append_assoc (be_bytes n acc) (b ∷ []) bs)
  where
    pushed : b < 256 → be_bytes (suc n) (acc * 256 + b) ≡ be_bytes n acc ++ (b ∷ [])
    pushed hb = unfold be_bytes in ap₂ (λ p q. be_bytes n p ++ (q ∷ [])) (omega arith) (omega arith)

-- Writing what was read gives the same bytes.
pub be_bytes-from_bytes : (bs : List ℕ) → IsBytes bs → be_bytes (length bs) (from_bytes bs) ≡ bs
unfolding from_bytes
be_bytes-from_bytes bs h =
    ap (λ n. be_bytes n (from_bytes_acc 0 bs)) (sym (add-zero (length bs)))
    ∙ be_bytes-from_bytes_acc 0 0 bs h
    ∙ unfold be_bytes in refl

pub to_bytes_fits : (n x : ℕ) → x < 256 ^ n → to_bytes n x ≡ ok (be_bytes n x)
unfolding to_bytes
to_bytes_fits n x h = ground (arith, lt→ltb x (256 ^ n) h)

pub zip_xor_cancel : (xs ys : List ℕ) → length xs ≤ length ys → zip_xor (zip_xor xs ys) ys ≡ xs
unfolding zip_xor
zip_xor_cancel [] ys h = refl
zip_xor_cancel (x ∷ xs) [] h = absurd (omega arith)
zip_xor_cancel (x ∷ xs) (y ∷ ys) h = ap₂ ◌∷◌ (xor_cancel x y) (zip_xor_cancel xs ys (omega arith))

pub length-zip_xor : (xs ys : List ℕ) → length (zip_xor xs ys) ≡ min (length xs) (length ys)
unfolding zip_xor
length-zip_xor [] ys = omega arith
length-zip_xor (x ∷ xs) [] = omega arith
length-zip_xor (x ∷ xs) (y ∷ ys) = omega (arith, length-zip_xor xs ys)

pub zip_xor-IsBytes : (xs ys : List ℕ) → IsBytes xs → IsBytes ys → IsBytes (zip_xor xs ys)
unfolding zip_xor
zip_xor-IsBytes [] ys hx hy = tt
zip_xor-IsBytes (x ∷ xs) [] hx hy = tt
zip_xor-IsBytes (x ∷ xs) (y ∷ ys) hx hy = (xor_lt 8 x y hx.0 hy.0, zip_xor-IsBytes xs ys hx.1 hy.1)
