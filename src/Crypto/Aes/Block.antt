-- ===== src/Crypto/Aes/Block.antt =====
-- `encrypt_block` of crypto/aes.py turns 16 bytes into 16 bytes.
use mathlib.Core.Path.{subst}
use native.Mathlib.Decide.{ℕ_discrete}
use crypto_project.Base.{
  ◌≢◌, ◌⊎◌, ℕ, zero, suc, ◌*◌, List, [], ◌∷◌, length, All, ◌≡◌, refl, ap, ◌∙◌, arith, Outcome, ok,
  raise, value_error, >>=-eq-ok, inl, inr,
}
use crypto_project.Bytes.Laws.{length-zip_xor}
use crypto_project.Crypto.Aes.{
  sub_bytes, shift_rows, mix_columns, add_round_key, cipher_rounds, encrypt_state, Aes, aes_init,
  aes_encrypt_block, key_expansion,
}
use crypto_project.Crypto.Aes.Lengths.{IsBlock, key_expansion_lem}

length-mix_columns : (n : ℕ) (s : List ℕ) → length s ≡ 4 * n → length (mix_columns s) ≡ length s
unfolding mix_columns
length-mix_columns zero [] h = refl
length-mix_columns zero (x ∷ s) h = absurd (omega arith)
length-mix_columns (suc n) (s0 ∷ s1 ∷ s2 ∷ s3 ∷ rest) h =
    ap (λ k. suc (suc (suc (suc k)))) (length-mix_columns n rest (omega arith))
length-mix_columns (suc n) [] h = absurd (omega arith)
length-mix_columns (suc n) (a ∷ []) h = absurd (omega arith)
length-mix_columns (suc n) (a ∷ b ∷ []) h = absurd (omega arith)
length-mix_columns (suc n) (a ∷ b ∷ c ∷ []) h = absurd (omega arith)

shift_rows-IsBlock : (s : List ℕ) → IsBlock (shift_rows s)
unfolding shift_rows
shift_rows-IsBlock s = refl

add_round_key-IsBlock : (s k : List ℕ) → IsBlock s → IsBlock k → IsBlock (add_round_key s k)
unfolding add_round_key
add_round_key-IsBlock s k hs hk = omega (arith, length-zip_xor s k)

cipher_rounds-IsBlock :
    (ks : List (List ℕ)) (s : List ℕ) → IsBlock s → All IsBlock ks → IsBlock (cipher_rounds s ks)
unfolding cipher_rounds
cipher_rounds-IsBlock [] s hs hk = hs
cipher_rounds-IsBlock (k ∷ []) s hs hk =
    add_round_key-IsBlock (shift_rows (sub_bytes s)) k (shift_rows-IsBlock (sub_bytes s)) hk.0
cipher_rounds-IsBlock (k ∷ l ∷ ks) s hs hk =
    cipher_rounds-IsBlock (l ∷ ks) _
      (add_round_key-IsBlock (mix_columns (shift_rows (sub_bytes s))) k
        (length-mix_columns 4 (shift_rows (sub_bytes s)) (shift_rows-IsBlock (sub_bytes s))
          ∙ shift_rows-IsBlock (sub_bytes s))
        hk.0)
      hk.1

encrypt_state-IsBlock :
    (ks : List (List ℕ)) (b : List ℕ) → IsBlock b → All IsBlock ks → IsBlock (encrypt_state ks b)
unfolding encrypt_state
encrypt_state-IsBlock [] b hb hk = hb
encrypt_state-IsBlock (k ∷ ks) b hb hk =
    cipher_rounds-IsBlock ks _ (add_round_key-IsBlock b k hb hk.0) hk.1

-- Every whole block is encrypted, to a whole block.
pub record IsCipher (c : Aes) : Type 0 where
  pub encrypts :
      (b : List ℕ) → IsBlock b → (out : List ℕ) × (aes_encrypt_block c b ≡ ok out) × IsBlock out

keys-IsBlock : (key : List ℕ) (ks : List (List ℕ)) → key_expansion key ≡ ok ks → All IsBlock ks
keys-IsBlock key ks h =
    let (short, long, bad) = key_expansion_lem key in
    elim (ℕ_discrete (length key) 16) [
      | yes e ↦ let (ks', e', all, _) = short e in subst (All IsBlock) (cc (h, e')) all
      | no n ↦ elim (ℕ_discrete (length key) 32) [
        | yes e ↦ let (ks', e', all, _) = long e in subst (All IsBlock) (cc (h, e')) all
        | no m ↦ absurd (cc (h, bad n m))
      ]
    ]

blocks_encrypt :
    (c : Aes) (b : List ℕ) → IsBlock b → aes_encrypt_block c b ≡ ok (encrypt_state c.round_keys b)
unfolding aes_encrypt_block
blocks_encrypt c b h = rw h

-- The constructor `AES(key)` makes such a cipher or raises ValueError, by the key's length.
pub aes_init-IsCipher : (key : List ℕ) (c : Aes) → aes_init key ≡ ok c → IsCipher c
unfolding aes_init
aes_init-IsCipher key c h =
    let (ks, e, f) = >>=-eq-ok (key_expansion key) _ h in
    let all : All IsBlock c.round_keys =
      subst (λ a. All IsBlock (keys_of a)) f (keys-IsBlock key ks e) in
    record {
      encrypts = λ b hb. (
        encrypt_state c.round_keys b,
        blocks_encrypt c b hb,
        encrypt_state-IsBlock c.round_keys b hb all,
      );
    }
  where
    keys_of : Outcome Aes → List (List ℕ)
    keys_of (ok a) = a.round_keys
    keys_of (raise e) = []

pub aes_init_total :
    (key : List ℕ) → (length key ≡ 16) ⊎ (length key ≡ 32) → (c : Aes) × (aes_init key ≡ ok c)
unfolding aes_init
aes_init_total key (inl e) =
    let (ks, e', _, _) = (key_expansion_lem key).0 e in (record { round_keys = ks }, rw e')
aes_init_total key (inr e) =
    let (ks, e', _, _) = (key_expansion_lem key).1 e in (record { round_keys = ks }, rw e')

pub aes_init_refuses :
    (key : List ℕ) → length key ≢ 16 → length key ≢ 32 → aes_init key ≡ raise value_error
unfolding aes_init
aes_init_refuses key p q = rw ((key_expansion_lem key).2 p q)
