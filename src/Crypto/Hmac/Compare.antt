-- ===== src/Crypto/Hmac/Compare.antt =====
-- `_consttime_equal` decides equality.
use crypto_project.Base.{
  ℕ, List, [], ◌∷◌, length, bit_or, bit_xor, true, ◌≡◌, ◌↔◌, refl, ap₂, arith,
}
use crypto_project.Bits.{xor_self, eq_of_xor-eq-zero, or-eq-zero}
use crypto_project.Crypto.Hmac.{diff_loop, consttime_equal}

diff_loop-eq-zero :
    (d : ℕ) (a b : List ℕ) → length a ≡ length b → diff_loop d a b ≡ 0 → (d ≡ 0) × (a ≡ b)
unfolding diff_loop
diff_loop-eq-zero d [] [] e h = (h, refl)
diff_loop-eq-zero d [] (y ∷ b) e h = absurd (omega arith)
diff_loop-eq-zero d (x ∷ a) [] e h = absurd (omega arith)
diff_loop-eq-zero d (x ∷ a) (y ∷ b) e h =
    let (z, t) = diff_loop-eq-zero (bit_or d (bit_xor x y)) a b (omega arith) h in
    let (d0, x0) = or-eq-zero d (bit_xor x y) z in (d0, ap₂ ◌∷◌ (eq_of_xor-eq-zero x y x0) t)

diff_loop_self : (a : List ℕ) → diff_loop 0 a a ≡ 0
unfolding diff_loop
diff_loop_self [] = refl
diff_loop_self (x ∷ a) = rw (xor_self x) (diff_loop_self a)

-- The comparison returns True exactly on equal byte strings, of whatever lengths.
pub consttime_equal_iff : (a b : List ℕ) → (consttime_equal a b ≡ true) ↔ (a ≡ b)
unfolding consttime_equal
consttime_equal_iff a b = (sound, λ e. rw e complete)
  where
    sound : consttime_equal a b ≡ true → a ≡ b
    sound h = ground (arith, diff_loop-eq-zero 0 a b)

    complete : consttime_equal b b ≡ true
    complete = ground (arith, diff_loop_self b)
