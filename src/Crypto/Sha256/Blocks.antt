-- ===== src/Crypto/Sha256/Blocks.antt =====
-- `absorb` over a buffer that is cut at a block boundary.
use crypto_project.Base.{
  ℕ, zero, suc, ◌+◌, ◌*◌, ◌≤◌, List, [], ◌∷◌, ◌++◌, length, take, drop, length-take, length-drop,
  take-append-drop, ◌≡◌, refl, sym, ap, ap₂, ◌∙◌, arith,
}
use native.Mathlib.Nat.{add-zero, zero-add, suc-add}
use crypto_project.Crypto.Sha256.{Words, compress, absorb}

take-append_le {ℓ} :
    {A : Type ℓ} (n : ℕ) (xs ys : List A) → n ≤ length xs → take n (xs ++ ys) ≡ take n xs
take-append_le zero xs ys h = refl
take-append_le (suc n) [] ys h = absurd (omega arith)
take-append_le (suc n) (x ∷ xs) ys h = ap (◌∷◌ x) (take-append_le n xs ys (omega arith))

drop-append_le {ℓ} :
    {A : Type ℓ} (n : ℕ) (xs ys : List A) → n ≤ length xs → drop n (xs ++ ys) ≡ drop n xs ++ ys
drop-append_le zero xs ys h = refl
drop-append_le (suc n) [] ys h = absurd (omega arith)
drop-append_le (suc n) (x ∷ xs) ys h = drop-append_le n xs ys (omega arith)

absorb-suc :
    (n : ℕ) (buf : List ℕ) (s : Words)
    → absorb (suc n) buf s ≡ absorb n (drop 64 buf) (compress (take 64 buf) s)
unfolding absorb
absorb-suc n buf s = refl

absorb-zero : (buf : List ℕ) (s : Words) → absorb 0 buf s ≡ s
unfolding absorb
absorb-zero buf s = refl

-- The whole blocks of the first part come first, and the rounds go on behind them.
pub absorb-append :
    (n m : ℕ) (xs ys : List ℕ) (s : Words)
    → length xs ≡ 64 * n
    → absorb (n + m) (xs ++ ys) s ≡ absorb m ys (absorb n xs s)
absorb-append zero m [] ys s h = rw (zero-add, absorb-zero)
absorb-append zero m (x ∷ xs) ys s h = absurd (omega arith)
absorb-append (suc n) m xs ys s h =
    rw (suc-add, absorb-suc, absorb-suc)
      (ap₂ (λ p q. absorb (n + m) p (compress q s)) (drop-append_le 64 xs ys (omega arith))
          (take-append_le 64 xs ys (omega arith))
        ∙ absorb-append n m (drop 64 xs) ys (compress (take 64 xs) s)
            (omega (arith, length-drop 64 xs)))

-- Bytes behind the last block that is consumed make no difference.
pub absorb-take :
    (n : ℕ) (buf : List ℕ) (s : Words)
    → n * 64 ≤ length buf
    → absorb n (take (n * 64) buf) s ≡ absorb n buf s
absorb-take n buf s h =
    sym (absorb-zero (drop (n * 64) buf) (absorb n (take (n * 64) buf) s))
    ∙ sym (
        absorb-append n 0 (take (n * 64) buf) (drop (n * 64) buf) s
          (omega (arith, length-take (n * 64) buf)))
    ∙ rw (take-append-drop (n * 64) buf, add-zero) refl
