-- ===== src/Crypto/P256.antt =====
-- crypto/ec_p256.py: the curve P-256. A point is `some` of its coordinates, and `none` is the
-- point at infinity. Python's `(a - b) % m` is `sub_mod m a b`.
use crypto_project.Base.{
  ℕ, zero, suc, ◌+◌, ◌-◌, ◌*◌, ◌/◌, ◌%◌, bit_and, Bool, true, false, ◌&&◌, ◌||◌, not, List, ◌∷◌,
  ◌++◌, length, take, drop, get_or, Option, none, some, ◌==◌, ltb, leb, if◌then◌else◌, Outcome, ok,
  raise, ◌>>=◌, value_error, ℤ, pos, negsuc,
}
use crypto_project.Bytes.{to_bytes, from_bytes}

abbrev pub p_mod : ℕ
p_mod = 0xFFFFFFFF_00000001_00000000_00000000_00000000_FFFFFFFF_FFFFFFFF_FFFFFFFF

abbrev pub a_coef : ℕ
a_coef = p_mod - 3

abbrev pub b_coef : ℕ
b_coef = 0x5AC635D8_AA3A93E7_B3EBBD55_769886BC_651D06B0_CC53B0F6_3BCE3C3E_27D2604B

abbrev pub n_order : ℕ
n_order = 0xFFFFFFFF_00000000_FFFFFFFF_FFFFFFFF_BCE6FAAD_A7179E84_F3B9CAC2_FC632551

abbrev pub gx : ℕ
gx = 0x6B17D1F2_E12C4247_F8BCE6E5_63A440F2_77037D81_2DEB33A0_F4A13945_D898C296

abbrev pub gy : ℕ
gy = 0x4FE342E2_FE1A7F9B_8EE7EB4A_7C0F9E16_2BCE3357_6B315ECE_CBB64068_37BF51F5

pub record Point : Type 0 where
  pub x : ℕ
  pub y : ℕ

pub sub_mod : ℕ → ℕ → ℕ → ℕ
sub_mod m a b = (a + (m - b % m)) % m

-- Euclid's algorithm for `pow(a, -1, m)`: `c` and `d` are the coefficients of `r` and `s`, modulo
-- `m`. The second remainder falls, so `suc s` rounds are enough.
pub inv_loop : ℕ → ℕ → ℕ → ℕ → ℕ → ℕ → Outcome ℕ
unfolding sub_mod
inv_loop zero m r s c d = raise value_error
inv_loop (suc fuel) m r s c d = elim (s == 0) [
  | true ↦ if r == 1 then ok (c % m) else raise value_error
  | false ↦ inv_loop fuel m s (r % s) d (sub_mod m c (r / s * d))
]

unfoldable pub mod_inv : ℕ → ℕ → Outcome ℕ
unfolding inv_loop
mod_inv a m = inv_loop (suc m) m (a % m) m 1 0

unfoldable pub is_on_curve : Option Point → Bool
is_on_curve none = true
is_on_curve (some p) =
    ltb p.x p_mod
    && ltb p.y p_mod
    && (p.y * p.y) % p_mod == (p.x * p.x * p.x + a_coef * p.x + b_coef) % p_mod

-- The third point on the line of slope `m` through the points at `x1`, `y1` and `x2`, mirrored.
pub chord : ℕ → ℕ → ℕ → ℕ → Option Point
unfolding sub_mod
chord m x1 y1 x2 =
    let x3 = sub_mod p_mod (m * m) (x1 + x2) in
    some (record { x = x3; y = sub_mod p_mod (m * sub_mod p_mod x1 x3) y1 })

unfoldable pub point_double : Option Point → Outcome (Option Point)
unfolding mod_inv chord
point_double none = ok none
point_double (some p) = if p.y == 0 then ok none else (do
  i ← mod_inv ((2 * p.y) % p_mod) p_mod
  ok (chord (((3 * p.x * p.x + a_coef) * i) % p_mod) p.x p.y p.x))

unfoldable pub point_add : Option Point → Option Point → Outcome (Option Point)
unfolding point_double mod_inv chord sub_mod
point_add none q = ok q
point_add (some p) none = ok (some p)
point_add (some p) (some q) =
    if p.x == q.x
    then (if (p.y + q.y) % p_mod == 0 then ok none else point_double (some p))
    else (do
      i ← mod_inv (sub_mod p_mod q.x p.x) p_mod
      ok (chord ((sub_mod p_mod q.y p.y * i) % p_mod) p.x p.y q.x))

-- `while k: ...`: `k` is halved, so `k` itself bounds the rounds.
pub mul_loop : ℕ → ℕ → Option Point → Option Point → Outcome (Option Point)
unfolding point_add point_double
mul_loop zero k result addend = ok result
mul_loop (suc fuel) k result addend = elim (k == 0) [
  | true ↦ ok result
  | false ↦ (do
    sum ← if bit_and k 1 == 0 then ok result else point_add result addend
    twice ← point_double addend
    mul_loop fuel (k / 2) sum twice)
]

pub negate : Option Point → Option Point
negate none = none
negate (some p) = some (record { x = p.x; y = (p_mod - p.y) % p_mod })

-- By the absolute value of the scalar.
pub mul_abs : ℕ → Option Point → Outcome (Option Point)
unfolding mul_loop
mul_abs k none = ok none
mul_abs k (some p) = elim (k % n_order == 0) [ true ↦ ok none | false ↦ mul_loop k k none (some p) ]

unfoldable pub scalar_mul : ℤ → Option Point → Outcome (Option Point)
unfolding mul_abs negate
scalar_mul (pos k) p = mul_abs k p
scalar_mul (negsuc k) p = mul_abs (suc k) (negate p)

abbrev pub base_point : Option Point
base_point = some (record { x = gx; y = gy })

unfoldable pub scalar_mul_g : ℕ → Outcome (Option Point)
unfolding scalar_mul
scalar_mul_g k = scalar_mul (pos k) base_point

unfoldable pub point_to_bytes : Option Point → Outcome (List ℕ)
unfolding to_bytes
point_to_bytes none = raise value_error
point_to_bytes (some p) = do xs ← to_bytes 32 p.x; ys ← to_bytes 32 p.y; ok (4 ∷ (xs ++ ys))

unfoldable pub point_from_bytes : List ℕ → Outcome Point
unfolding from_bytes is_on_curve
point_from_bytes bytes =
    let pt : Point = record {
      x = from_bytes (take 32 (drop 1 bytes));
      y = from_bytes (take 32 (drop 33 bytes));
    } in
    if not (length bytes == 65) || not (get_or bytes 0 0 == 4)
    then raise value_error
    else if is_on_curve (some pt)
    then ok pt
    else raise value_error

unfoldable pub is_valid_private_key : ℕ → Bool
is_valid_private_key d = leb 1 d && leb d (n_order - 1)
