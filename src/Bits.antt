-- ===== src/Bits.antt =====
-- `^` on integers: it is undone by a second `^`, it is symmetric, and it stays within a width.
use Prim.Native.Nat.{max, digits, differ, bit_or-bitwise, bit_xor-bitwise}
use native.Mathlib.Nat.{le_refl, pow-suc}
use crypto_project.Base.{
  ℕ, zero, suc, ◌+◌, ◌*◌, ◌/◌, ◌%◌, ◌^◌, ◌≤◌, ◌<◌, bit_or, bit_xor, ◌≡◌, refl, sym, ap, ◌∙◌, arith,
}

xor_fuel :
    (n m a b : ℕ) → a ≤ n → a ≤ m → digits (λ y. y) differ n a b ≡ digits (λ y. y) differ m a b
xor_fuel zero zero a b p q = refl
xor_fuel zero (suc m) zero b p q = refl
xor_fuel zero (suc m) (suc a) b p q = absurd (omega arith)
xor_fuel (suc n) zero zero b p q = refl
xor_fuel (suc n) zero (suc a) b p q = absurd (omega arith)
xor_fuel (suc n) (suc m) zero b p q = refl
xor_fuel (suc n) (suc m) (suc a) b p q =
    rw (xor_fuel n m (suc a / 2) (b / 2) (omega arith) (omega arith))

pub zero-xor : (b : ℕ) → bit_xor 0 b ≡ b
zero-xor b = bit_xor-bitwise 0 b

-- The lowest digit of `a ^ b`, and the rest.
pub xor_step : (a b : ℕ) → bit_xor a b ≡ bit_xor (a / 2) (b / 2) * 2 + differ (a % 2) (b % 2)
xor_step zero b = omega (arith, zero-xor b, zero-xor (b / 2))
xor_step (suc a) b = omega (
  arith,
  bit_xor-bitwise (suc a) b,
  bit_xor-bitwise (suc a / 2) (b / 2),
  xor_fuel a (suc a / 2) (suc a / 2) (b / 2) (omega arith) (le_refl _),
)

-- One binary digit, by cases.
abbrev DigitCancels : ℕ → ℕ → Type 0
DigitCancels p q = (differ p q < 2) × (differ (differ p q) q ≡ p) × (differ p q ≡ differ q p)

differ_digit : (p q : ℕ) → p < 2 → q < 2 → DigitCancels p q
differ_digit zero zero hp hq = omega arith
differ_digit zero (suc zero) hp hq = omega arith
differ_digit (suc zero) zero hp hq = omega arith
differ_digit (suc zero) (suc zero) hp hq = omega arith
differ_digit zero (suc (suc q)) hp hq = absurd (omega arith)
differ_digit (suc zero) (suc (suc q)) hp hq = absurd (omega arith)
differ_digit (suc (suc p)) q hp hq = absurd (omega arith)

low_digits : (a b : ℕ) → DigitCancels (a % 2) (b % 2)
low_digits a b = differ_digit (a % 2) (b % 2) (omega arith) (omega arith)

xor-zero_fuel : (n a : ℕ) → a ≤ n → bit_xor a 0 ≡ a
xor-zero_fuel n zero p = refl
xor-zero_fuel zero (suc a) p = absurd (omega arith)
xor-zero_fuel (suc n) (suc a) p = omega (
  arith,
  xor_step (suc a) 0,
  low_digits (suc a) 0,
  differ-zero (suc a % 2),
  xor-zero_fuel n (suc a / 2) (omega arith),
)
  where
    differ-zero : (p : ℕ) → differ p 0 ≡ p
    differ-zero zero = refl
    differ-zero (suc p) = refl

pub xor-zero : (a : ℕ) → bit_xor a 0 ≡ a
xor-zero a = xor-zero_fuel a a (le_refl a)

xor_cancel_fuel : (n a b : ℕ) → a ≤ n → b ≤ n → bit_xor (bit_xor a b) b ≡ a
xor_cancel_fuel n a zero p q = xor-zero _ ∙ xor-zero a
xor_cancel_fuel zero a (suc b) p q = absurd (omega arith)
xor_cancel_fuel (suc n) a (suc b) p q =
    let x' = bit_xor (a / 2) (suc b / 2) in
    let d = differ (a % 2) (suc b % 2) in
    let e : bit_xor a (suc b) ≡ x' * 2 + d = xor_step a (suc b) in
    let (lt, back, _) = low_digits a (suc b) in
    let halved : bit_xor a (suc b) / 2 ≡ x' = omega arith in
    let digit : bit_xor a (suc b) % 2 ≡ d = omega arith in
    xor_step (bit_xor a (suc b)) (suc b)
    ∙ rw (halved, digit, back)
        (omega (arith, xor_cancel_fuel n (a / 2) (suc b / 2) (omega arith) (omega arith)))

-- A second `^` with the same number takes the first one back.
pub xor_cancel : (a b : ℕ) → bit_xor (bit_xor a b) b ≡ a
xor_cancel a b = xor_cancel_fuel (a + b) a b (omega arith) (omega arith)

pub xor_lt : (k a b : ℕ) → a < 2 ^ k → b < 2 ^ k → bit_xor a b < 2 ^ k
xor_lt zero a b p q = rw (small a p, small b q) (omega arith)
  where
    small : (n : ℕ) → n < 2 ^ 0 → n ≡ 0
    small n h = omega arith
xor_lt (suc k) a b p q = omega (
  arith,
  pow-suc 2 k,
  xor_step a b,
  low_digits a b,
  xor_lt k (a / 2) (b / 2) (omega (arith, pow-suc 2 k)) (omega (arith, pow-suc 2 k)),
)

pub xor_self : (a : ℕ) → bit_xor a a ≡ 0
xor_self a = ap (λ t. bit_xor t a) (sym (zero-xor a)) ∙ xor_cancel 0 a

-- `^` is zero on equal numbers only.
pub eq_of_xor-eq-zero : (a b : ℕ) → bit_xor a b ≡ 0 → a ≡ b
eq_of_xor-eq-zero a b h = sym (xor_cancel a b) ∙ ap (λ t. bit_xor t b) h ∙ zero-xor b

or_fuel : (n m a b : ℕ) → a ≤ n → a ≤ m → digits (λ y. y) max n a b ≡ digits (λ y. y) max m a b
or_fuel zero zero a b p q = refl
or_fuel zero (suc m) zero b p q = refl
or_fuel zero (suc m) (suc a) b p q = absurd (omega arith)
or_fuel (suc n) zero zero b p q = refl
or_fuel (suc n) zero (suc a) b p q = absurd (omega arith)
or_fuel (suc n) (suc m) zero b p q = refl
or_fuel (suc n) (suc m) (suc a) b p q =
    rw (or_fuel n m (suc a / 2) (b / 2) (omega arith) (omega arith))

or-suc : (a b : ℕ) → bit_or (suc a) b ≡ bit_or (suc a / 2) (b / 2) * 2 + max (suc a % 2) (b % 2)
or-suc a b = omega (
  arith,
  bit_or-bitwise (suc a) b,
  bit_or-bitwise (suc a / 2) (b / 2),
  or_fuel a (suc a / 2) (suc a / 2) (b / 2) (omega arith) (le_refl _),
)

or-eq-zero_fuel : (n a b : ℕ) → a ≤ n → bit_or a b ≡ 0 → (a ≡ 0) × (b ≡ 0)
or-eq-zero_fuel n zero b p h = (refl, sym (bit_or-bitwise 0 b) ∙ h)
or-eq-zero_fuel zero (suc a) b p h = absurd (omega arith)
or-eq-zero_fuel (suc n) (suc a) b p h =
    let halves = or-eq-zero_fuel n (suc a / 2) (b / 2) (omega arith) (omega (arith, or-suc a b)) in
    absurd (omega (arith, or-suc a b, halves))

-- `|` is zero on zeros only.
pub or-eq-zero : (a b : ℕ) → bit_or a b ≡ 0 → (a ≡ 0) × (b ≡ 0)
or-eq-zero a b = or-eq-zero_fuel a a b (le_refl a)
