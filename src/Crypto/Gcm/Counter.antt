-- ===== src/Crypto/Gcm/Counter.antt =====
-- Counter mode: `_gctr` never raises on a cipher's blocks, keeps the length, and undoes itself.
use crypto_project.Base.{
  ℕ, zero, suc, ◌+◌, ◌-◌, ◌*◌, ◌/◌, ◌≤◌, min, List, [], ◌∷◌, ◌++◌, length, take, drop,
  length-append, length-take, length-drop, take-append-drop, take-append_exact, drop-append_exact,
  take_all, drop_all, append-nil, ok, ◌≡◌, ◌⊎◌, inl, inr, refl, sym, ap, ◌∙◌, arith,
}
use crypto_project.Bytes.{zip_xor}
use crypto_project.Bytes.Laws.{length-be_bytes, length-zip_xor, zip_xor_cancel}
use crypto_project.Crypto.Aes.{Aes, aes_encrypt_block}
use crypto_project.Crypto.Aes.Lengths.{IsBlock}
use crypto_project.Crypto.Aes.Block.{IsCipher}
use crypto_project.Crypto.Gcm.{inc32, gctr_loop, gctr}

pub inc32-IsBlock : (b : List ℕ) → IsBlock b → IsBlock (inc32 b)
unfolding inc32
inc32-IsBlock b h = rw (length-append, length-be_bytes) (omega (arith, length-take 12 b))

nil_of_length : (xs : List ℕ) → length xs ≡ 0 → xs ≡ []
nil_of_length [] h = refl
nil_of_length (x ∷ xs) h = absurd (omega arith)

-- The first block of what was joined block by block.
split_block :
    (z rest : List ℕ)
    → (length z ≡ 16) ⊎ ((length z ≤ 16) × (length rest ≡ 0))
    → (take 16 (z ++ rest) ≡ z) × (drop 16 (z ++ rest) ≡ rest)
split_block z rest (inl e) = (take-append_exact 16 z rest e, drop-append_exact 16 z rest e)
split_block z rest (inr (le, none_left)) =
    let nil = nil_of_length rest none_left in
    (
      ap (λ r. take 16 (z ++ r)) nil ∙ ap (take 16) (append-nil z) ∙ take_all 16 z le,
      ap (λ r. drop 16 (z ++ r)) nil ∙ ap (drop 16) (append-nil z) ∙ drop_all 16 z le ∙ sym nil,
    )

-- `gctr_loop` turns `bytes` into `out`, of the same length, and `out` back into `bytes`.
pub record Inverts (n : ℕ) (c : Aes) (counter bytes : List ℕ) : Type 0 where
  pub out : List ℕ
  pub forward : gctr_loop n c counter bytes ≡ ok out
  pub same_length : length out ≡ length bytes
  pub back : gctr_loop n c counter out ≡ ok bytes

gctr_loop-suc :
    (n : ℕ) (c : Aes) (counter bytes k rest : List ℕ)
    → aes_encrypt_block c counter ≡ ok k
    → gctr_loop n c (inc32 counter) (drop 16 bytes) ≡ ok rest
    → gctr_loop (suc n) c counter bytes ≡ ok (zip_xor (take 16 bytes) k ++ rest)
unfolding gctr_loop
gctr_loop-suc n c counter bytes k rest e f = rw (e, f)

pub gctr_loop-Inverts :
    (n : ℕ) (c : Aes) (counter bytes : List ℕ)
    → IsCipher c
    → IsBlock counter
    → length bytes ≤ 16 * n
    → Inverts n c counter bytes
gctr_loop-Inverts zero c counter bytes cip blk le =
    let nil = nil_of_length bytes (omega arith) in
    record {
      out = [];
      forward = unfold gctr_loop in refl;
      same_length = ap length (sym nil);
      back = unfold gctr_loop in ap ok (sym nil);
    }
gctr_loop-Inverts (suc n) c counter bytes cip blk le =
    let (k, enc, size) = cip.encrypts counter blk in
    let tail =
      gctr_loop-Inverts n c (inc32 counter) (drop 16 bytes) cip (inc32-IsBlock counter blk)
        (omega (arith, length-drop 16 bytes)) in
    let z = zip_xor (take 16 bytes) k in
    let zlen = length-zip_xor (take 16 bytes) k in
    let tlen = length-take 16 bytes in
    let dlen = length-drop 16 bytes in
    let (t16, d16) = split_block z tail.out (
      block_or_end z tail.out (omega (arith, zlen, tlen))
        (omega (arith, tail.same_length, dlen))) in
    record {
      out = z ++ tail.out;
      forward = gctr_loop-suc n c counter bytes k tail.out enc tail.forward;
      same_length = omega (arith, length-append z tail.out, zlen, tlen, dlen, tail.same_length);
      back =
          gctr_loop-suc n c counter (z ++ tail.out) k (drop 16 bytes) enc (rw d16 tail.back)
          ∙ ap (λ t. ok (zip_xor t k ++ drop 16 bytes)) t16
          ∙ ap (λ t. ok (t ++ drop 16 bytes))
              (zip_xor_cancel (take 16 bytes) k (omega (arith, tlen)))
          ∙ ap ok (take-append-drop 16 bytes);
    }
  where
    block_or_end :
        (z rest : List ℕ)
        → length z ≡ min 16 (length bytes)
        → length rest ≡ length bytes - 16
        → (length z ≡ 16) ⊎ ((length z ≤ 16) × (length rest ≡ 0))
    block_or_end z rest p q = ground arith

-- For every message `_gctr` returns a message of the same length, which it turns back.
pub record Undoes (c : Aes) (icb bytes : List ℕ) : Type 0 where
  pub out : List ℕ
  pub forward : gctr c icb bytes ≡ ok out
  pub same_length : length out ≡ length bytes
  pub back : gctr c icb out ≡ ok bytes

pub gctr-Undoes : (c : Aes) (icb bytes : List ℕ) → IsCipher c → IsBlock icb → Undoes c icb bytes
unfolding gctr
gctr-Undoes c icb bytes cip blk =
    let r = gctr_loop-Inverts ((length bytes + 15) / 16) c icb bytes cip blk (omega arith) in
    record {
      out = r.out;
      forward = r.forward;
      same_length = r.same_length;
      back = rw r.same_length r.back;
    }
