-- ===== src/Crypto/Ecdsa/Sign.antt =====
-- Key generation and signing of crypto/ecdsa.py. The draws of `os.urandom` are a list, and `none` says
-- that the loop has not ended with these draws; the loop of RFC 6979 has a number of rounds, and
-- `none` says that it has not ended in them.
pub mod Laws
use crypto_project.Base.{
  ℕ, zero, suc, ◌+◌, ◌*◌, ◌%◌, Bool, true, false, List, [], ◌∷◌, ◌++◌, length, replicate, Option,
  none, some, ◌==◌, ltb, if◌then◌else◌, Outcome, ok, raise, require, ◌>>=◌, ◌>>◌, value_error,
  runtime_error, assertion_error, pos,
}
use crypto_project.Bytes.{to_bytes, from_bytes}
use crypto_project.Crypto.Sha256.{sha256}
use crypto_project.Crypto.Hmac.{hmac_sha256}
use crypto_project.Crypto.P256.{
  Point, n_order, mod_inv, scalar_mul, scalar_mul_g, base_point, point_to_bytes,
  is_valid_private_key,
}
use crypto_project.Crypto.Ecdsa.{Signature, bits2int, hash_to_scalar, in_range}

-- The loop of `generate_keypair`.
unfoldable pub choose_scalar : List (List ℕ) → Option ℕ
choose_scalar [] = none
choose_scalar (draw ∷ draws) =
    let rest = choose_scalar draws in
    if is_valid_private_key (from_bytes draw) then some (from_bytes draw) else rest

unfoldable pub with_public : Option ℕ → Outcome (Option (ℕ × List ℕ))
with_public none = ok none
with_public (some candidate) = do
  public_point ← scalar_mul_g candidate
  public_bytes ← (elim public_point [
    | none ↦ raise assertion_error
    | some p ↦ point_to_bytes (some p)
  ])
  ok (some (candidate, public_bytes))

unfoldable pub generate_keypair : List (List ℕ) → Outcome (Option (ℕ × List ℕ))
generate_keypair draws = with_public (choose_scalar draws)

unfoldable pub bits2octets : List ℕ → ℕ → ℕ → ℕ → Outcome (List ℕ)
unfolding bits2int
bits2octets bytes q qlen rlen_bytes = to_bytes rlen_bytes (bits2int bytes qlen % q)

-- The values K and V of the generator.
pub record Generator : Type 0 where
  pub key : List ℕ
  pub value : List ℕ

-- `K = HMAC_K(V || tail)`, `V = HMAC_K(V)`
unfoldable pub feed : List ℕ → Generator → Generator
feed tail g =
    let key = hmac_sha256 g.key (g.value ++ tail) in
    record { key = key; value = hmac_sha256 key g.value }

-- Steps b to g.
unfoldable pub start : List ℕ → List ℕ → Generator
start x_octets h1_octets =
    feed (1 ∷ (x_octets ++ h1_octets))
      (feed (0 ∷ (x_octets ++ h1_octets)) (record { key = replicate 32 0; value = replicate 32 1 }))

-- The inner loop of step h, with as many rounds as it may take.
unfoldable pub fill : ℕ → List ℕ → Generator → List ℕ × Generator
fill zero t g = (t, g)
fill (suc n) t g =
    let value = hmac_sha256 g.key g.value in
    let more = fill n (t ++ value) (record g { value = value }) in
    if ltb (length t) 32 then more else (t, g)

-- The candidate of a round, and the generator after it.
unfoldable pub candidate : Generator → ℕ × Generator
unfolding bits2int
candidate g = let (t, g') = fill 32 [] g in (bits2int t 256, g')

unfoldable pub next_generator : Generator → Generator
next_generator g = feed (0 ∷ []) (candidate g).1

-- The outer loop of step h.
unfoldable pub generator_loop : ℕ → Generator → Option ℕ
unfolding in_range
generator_loop zero g = none
generator_loop (suc rounds) g = elim (in_range (candidate g).0) [
  | true ↦ some (candidate g).0
  | false ↦ generator_loop rounds (next_generator g)
]

unfoldable pub generate_k : ℕ → ℕ → List ℕ → Outcome (Option ℕ)
generate_k rounds private_scalar message_hash = do
  x_octets ← to_bytes 32 private_scalar
  h1_octets ← bits2octets message_hash n_order 256 32
  ok (generator_loop rounds (start x_octets h1_octets))

-- What one turn of the loop of `sign` comes to.
pub data Attempt : Type 0 where
  again unfinished : Attempt
  signed : Signature → Attempt

unfoldable pub sign_with : ℕ → ℕ → ℕ → Option Point → Outcome Attempt
sign_with private_scalar z k none = raise assertion_error
sign_with private_scalar z k (some p) =
    let r = p.x % n_order in
    if r == 0 then ok again else (do
      k_inv ← mod_inv k n_order
      let s = (k_inv * (z + r * private_scalar)) % n_order
      if s == 0 then ok again else ok (signed (record { r = r; s = s })))

unfoldable pub attempt_k : ℕ → ℕ → Option ℕ → Outcome Attempt
attempt_k private_scalar z none = ok unfinished
attempt_k private_scalar z (some k) = do
  point ← scalar_mul (pos k) base_point
  sign_with private_scalar z k point

unfoldable pub attempt : ℕ → ℕ → List ℕ → Outcome Attempt
unfolding hash_to_scalar
attempt rounds private_scalar message = do
  k ← generate_k rounds private_scalar (sha256 message)
  attempt_k private_scalar (hash_to_scalar message) k

unfoldable pub after_attempt :
    Attempt → (Unit {0} → Outcome (Option Signature)) → Outcome (Option Signature)
after_attempt again next = next tt
after_attempt unfinished next = ok none
after_attempt (signed sig) next = ok (some sig)

unfoldable pub sign_loop : ℕ → ℕ → ℕ → List ℕ → Outcome (Option Signature)
sign_loop zero rounds private_scalar message = raise runtime_error
sign_loop (suc tries) rounds private_scalar message = attempt rounds private_scalar message >>= λ a.
    after_attempt a (λ u. sign_loop tries rounds private_scalar message)

unfoldable pub sign : ℕ → ℕ → List ℕ → Outcome (Option Signature)
sign rounds private_scalar message = do
  require (is_valid_private_key private_scalar) value_error
  sign_loop 1000 rounds private_scalar message
