-- ===== src/Crypto/Sha256/Padding.antt =====
-- `_pad` and the tail of `digest`: how many zeros are written, and the length of the result.
use crypto_project.Base.{
  ℕ, zero, suc, ◌+◌, ◌-◌, ◌*◌, ◌%◌, ◌<◌, List, [], ◌∷◌, ◌++◌, length, replicate, length-append,
  length-replicate, append-nil, append_assoc, Bool-cases, inl, inr, ◌==◌, ==_iff, ◌≡◌, sym, ap, ◌∙◌,
  arith, true, false,
}
use crypto_project.Bytes.{be_bytes}
use crypto_project.Bytes.Laws.{length-be_bytes}
use crypto_project.Crypto.Sha256.{pad_zeros, finish}

-- The number of zeros that bring a length of `n` to 56 modulo 64.
abbrev pub zeros_for : ℕ → ℕ
zeros_for n = (120 - n % 64) % 64

append_zero : (n : ℕ) (p : List ℕ) → (p ++ (0 ∷ [])) ++ replicate n 0 ≡ p ++ replicate (suc n) 0
append_zero n p = append_assoc p (0 ∷ []) (replicate n 0)

zeros_left :
    (p : List ℕ)
    → (length p % 64 == 56) ≡ false
    → zeros_for (length p) ≡ suc (zeros_for (length (p ++ (0 ∷ []))))
zeros_left p more = ground (arith, length-append p (0 ∷ []), ==_iff (length p % 64) 56)

-- With enough fuel the loop stops by its test, after exactly that many zeros.
pub pad_zeros_lem :
    (fuel : ℕ) (p : List ℕ)
    → zeros_for (length p) < fuel
    → pad_zeros fuel p ≡ p ++ replicate (zeros_for (length p)) 0
unfolding pad_zeros
pad_zeros_lem zero p h = elim h [ ]
pad_zeros_lem (suc fuel) p h = elim (Bool-cases (length p % 64 == 56)) [
  | inl done ↦ rw (done, zeros_none done) (sym (append-nil p))
  | inr more ↦
      rw (more, zeros_left p more)
        (pad_zeros_lem fuel (p ++ (0 ∷ [])) (omega (arith, zeros_left p more))
          ∙ append_zero (zeros_for (length (p ++ (0 ∷ [])))) p)
]
  where
    zeros_none : (length p % 64 == 56) ≡ true → zeros_for (length p) ≡ 0
    zeros_none e = omega (arith, (==_iff (length p % 64) 56).0 e)

-- What `finish` writes behind `message`.
pub tail_of : ℕ → ℕ → List ℕ
unfolding be_bytes
tail_of size bit_len = 0x80 ∷ (replicate (zeros_for (size + 1)) 0 ++ be_bytes 8 bit_len)

pub finish-tail_of : (m : List ℕ) (n : ℕ) → finish m n ≡ m ++ tail_of (length m) n
unfolding finish tail_of
finish-tail_of m n =
    ap (λ t. t ++ be_bytes 8 n) (pad_zeros_lem 64 (m ++ (0x80 ∷ [])) (omega arith))
    ∙ rw length-append
        (append_assoc (m ++ (0x80 ∷ [])) _ (be_bytes 8 n) ∙ append_assoc m (0x80 ∷ []) _)

pub length-finish : (m : List ℕ) (n : ℕ) → length (finish m n) % 64 ≡ 0
length-finish m n =
    rw (finish-tail_of, length-append)
      (unfold tail_of in rw (length-append, length-replicate, length-be_bytes) (omega arith))

-- The tail depends on the size modulo the block length only.
pub tail_of_cut : (k m bit_len : ℕ) → tail_of (64 * k + m) bit_len ≡ tail_of m bit_len
unfolding tail_of
tail_of_cut k m bit_len = ap (λ z. 0x80 ∷ (replicate z 0 ++ be_bytes 8 bit_len)) (same_zeros k m)
  where
    same_zeros : (k m : ℕ) → zeros_for (64 * k + m + 1) ≡ zeros_for (m + 1)
    same_zeros k m = omega arith
