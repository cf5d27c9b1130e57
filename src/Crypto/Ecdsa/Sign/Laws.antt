-- ===== src/Crypto/Ecdsa/Sign/Laws.antt =====
-- What signing and key generation give.
use crypto_project.Base.{
  ok-injective, ℕ, zero, suc, ◌+◌, ◌*◌, ◌%◌, ◌^◌, ◌<◌, true, false, Bool-cases, inl, inr, List, [],
  ◌∷◌, ◌++◌, length, Option, none, some, ◌==◌, ==_iff, ok, require, value_error, pos, >>=-eq-ok,
  >>-eq-ok, ◌≡◌, refl, sym, ap, ◌∙◌, arith, All,
}
use crypto_project.Bytes.{from_bytes}
use crypto_project.Crypto.Sha256.{sha256}
use crypto_project.Crypto.P256.{
  Point, n_order, mod_inv, scalar_mul, base_point, is_valid_private_key,
}
use crypto_project.Crypto.Ecdsa.{
  Signature, hash_to_scalar, in_range, signature_to_bytes, signature_from_bytes,
}
use crypto_project.Crypto.Ecdsa.Range.{signature_from_bytes-to_bytes}
use crypto_project.Crypto.Ecdsa.Sign.{
  choose_scalar, generate_keypair, with_public, generate_k, Attempt, again, unfinished, signed,
  sign_with, attempt_k, attempt, after_attempt, sign_loop, sign,
}

-- Key generation passes over the draws that are no private key and takes the first that is one,
-- whatever the source gives after it.
pub generate_keypair_first :
    (bad : List (List ℕ)) (good : List ℕ) (rest : List (List ℕ))
    → All (λ draw. is_valid_private_key (from_bytes draw) ≡ false) bad
    → is_valid_private_key (from_bytes good) ≡ true
    → generate_keypair (bad ++ (good ∷ rest)) ≡ with_public (some (from_bytes good))
unfolding generate_keypair choose_scalar
generate_keypair_first bad good rest none_valid valid = ap with_public (first bad none_valid)
  where
    first :
        (bad : List (List ℕ))
        → All (λ draw. is_valid_private_key (from_bytes draw) ≡ false) bad
        → choose_scalar (bad ++ (good ∷ rest)) ≡ some (from_bytes good)
    first [] h = rw valid refl
    first (draw ∷ draws) h = rw (h.0) (first draws h.1)

below : (a : ℕ) → a % n_order < n_order
below a = omega arith

residue-in_range : (a : ℕ) → (a % n_order == 0) ≡ false → in_range (a % n_order) ≡ true
unfolding in_range
residue-in_range a h = ground (arith, below a, ==_iff (a % n_order) 0)

some-injective : {A : Type 0} {a b : A} → some a ≡ some b → a ≡ b
some-injective h = cc h

signed-injective : {a b : Signature} → signed a ≡ signed b → a ≡ b
signed-injective h = cc h

-- Both parts are in the range that `verify` asks for.
abbrev IsInRange : Signature → Type 0
IsInRange sig = (in_range sig.r ≡ true) × (in_range sig.s ≡ true)

sign_with-IsInRange :
    (x z k : ℕ) (p : Option Point) (sig : Signature)
    → sign_with x z k p ≡ ok (signed sig)
    → IsInRange sig
unfolding sign_with
sign_with-IsInRange x z k none sig h = cc h
sign_with-IsInRange x z k (some p) sig h = elim (Bool-cases (p.x % n_order == 0)) [
  | inl zero_r ↦ absurd (cc (rw zero_r at h))
  | inr r_ok ↦
      let (w, _, h1) = >>=-eq-ok (mod_inv k n_order) _ (rw r_ok at h) in
      elim (Bool-cases ((w * (z + p.x % n_order * x)) % n_order == 0)) [
        | inl zero_s ↦ absurd (cc (rw zero_s at h1))
        | inr s_ok ↦
            let same = signed-injective (ok-injective (rw s_ok at h1)) in
            (
              ap (λ t. in_range t.r) (sym same) ∙ residue-in_range p.x r_ok,
              ap (λ t. in_range t.s) (sym same)
                  ∙ residue-in_range (w * (z + p.x % n_order * x)) s_ok,
            )
      ]
]

attempt_k-IsInRange :
    (x z : ℕ) (k : Option ℕ) (sig : Signature) → attempt_k x z k ≡ ok (signed sig) → IsInRange sig
unfolding attempt_k
attempt_k-IsInRange x z none sig h = absurd (cc h)
attempt_k-IsInRange x z (some k) sig h =
    let (p, _, h1) = >>=-eq-ok (scalar_mul (pos k) base_point) _ h in
    sign_with-IsInRange x z k p sig h1

attempt-IsInRange :
    (rounds x : ℕ) (message : List ℕ) (sig : Signature)
    → attempt rounds x message ≡ ok (signed sig)
    → IsInRange sig
unfolding attempt
attempt-IsInRange rounds x message sig h =
    let (k, _, h1) = >>=-eq-ok (generate_k rounds x (sha256 message)) _ h in
    attempt_k-IsInRange x (hash_to_scalar message) k sig h1

sign_loop-IsInRange :
    (tries rounds x : ℕ) (message : List ℕ) (sig : Signature)
    → sign_loop tries rounds x message ≡ ok (some sig)
    → IsInRange sig
unfolding sign_loop after_attempt
sign_loop-IsInRange zero rounds x message sig h = absurd (cc h)
sign_loop-IsInRange (suc tries) rounds x message sig h =
    let (a, e, h1) = >>=-eq-ok (attempt rounds x message) _ h in
    go a e (λ h2. sign_loop-IsInRange tries rounds x message sig h2) h1
  where
    go :
        (a : Attempt)
        → attempt rounds x message ≡ ok a
        → (sign_loop tries rounds x message ≡ ok (some sig) → IsInRange sig)
        → after_attempt a (λ u. sign_loop tries rounds x message) ≡ ok (some sig)
        → IsInRange sig
    go again e ih h1 = ih h1
    go unfinished e ih h1 = absurd (cc h1)
    go (signed made) e ih h1 =
        attempt-IsInRange rounds x message sig
          (e ∙ ap (λ t. ok (signed t)) (some-injective (ok-injective h1)))

in_range-lt : (v : ℕ) → in_range v ≡ true → v < 256 ^ 32
unfolding in_range
in_range-lt v h = ground arith

-- A signature that `sign` gives has both parts in the range that `verify` asks for, and is encoded
-- in 64 bytes that decode to it.
pub sign-signature_to_bytes :
    (rounds x : ℕ) (message : List ℕ) (sig : Signature)
    → sign rounds x message ≡ ok (some sig)
    → (in_range sig.r ≡ true)
      × (in_range sig.s ≡ true)
      × ((bytes : List ℕ) × (signature_to_bytes sig ≡ ok bytes)
          × (length bytes ≡ 64)
          × (signature_from_bytes bytes ≡ ok sig))
unfolding sign
sign-signature_to_bytes rounds x message sig h =
    let h1 = >>-eq-ok (require (is_valid_private_key x) value_error) _ h in
    let (r, t) = sign_loop-IsInRange 1000 rounds x message sig h1 in
    (r, t, signature_from_bytes-to_bytes sig (in_range-lt sig.r r) (in_range-lt sig.s t))
