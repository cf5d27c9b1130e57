-- ===== src/Encodings/Base64.antt =====
-- `base64.b64encode(b).decode()`, and `base64.b64decode(s)` without validation: characters outside
-- the alphabet are passed over, and what follows complete padding is not read.
use crypto_project.Base.{
  ℕ, ◌+◌, ◌-◌, ◌*◌, ◌/◌, ◌%◌, ◌<◌, Bool, true, false, ◌&&◌, List, [], ◌∷◌, Option, none, some, ◌==◌,
  ltb, leb, if◌then◌else◌, Outcome, ok, raise, ◌>>=◌, value_error, ◌≡◌, refl, ap, ap₂, arith,
}
use crypto_project.Bytes.{IsBytes}
use crypto_project.Text.{Text}

unfoldable pub b64_char : ℕ → ℕ
b64_char v =
    if ltb v 26
    then b'A' + v
    else if ltb v 52
    then b'a' + (v - 26)
    else if ltb v 62
    then b'0' + (v - 52)
    else if v == 62
    then b'+'
    else b'/'

unfoldable pub b64_value : ℕ → Option ℕ
b64_value c =
    if leb b'A' c && leb c b'Z'
    then some (c - b'A')
    else if leb b'a' c && leb c b'z'
    then some (c - b'a' + 26)
    else if leb b'0' c && leb c b'9'
    then some (c - b'0' + 52)
    else if c == b'+'
    then some 62
    else if c == b'/'
    then some 63
    else none

unfoldable pub b64encode : List ℕ → Text
b64encode [] = []
b64encode (x ∷ []) = b64_char (x / 4) ∷ b64_char (x % 4 * 16) ∷ b'=' ∷ b'=' ∷ []
b64encode (x ∷ y ∷ []) =
    b64_char (x / 4) ∷ b64_char (x % 4 * 16 + y / 16) ∷ b64_char (y % 16 * 4) ∷ b'=' ∷ []
b64encode (x ∷ y ∷ z ∷ more) =
    b64_char (x / 4)
    ∷ b64_char (x % 4 * 16 + y / 16)
    ∷ b64_char (y % 16 * 4 + z / 64)
    ∷ b64_char (z % 64)
    ∷ b64encode more

-- The place in a group of four characters, with the bits that wait.
pub data Quad : Type 0 where
  first : Quad
  second third fourth : ℕ → Quad

unfoldable pub take_value : Quad → ℕ → Quad
take_value first v = second v
take_value (second left) v = third (v % 16)
take_value (third left) v = fourth (v % 4)
take_value (fourth left) v = first

unfoldable pub put_value : Quad → ℕ → List ℕ → List ℕ
put_value first v out = out
put_value (second left) v out = (left * 4 + v / 16) ∷ out
put_value (third left) v out = (left * 16 + v / 4) ∷ out
put_value (fourth left) v out = (left * 64 + v) ∷ out

-- Whether one more `=` completes the padding, after `pads` of them.
unfoldable pub pad_ends : Quad → ℕ → Bool
pad_ends first pads = false
pad_ends (second left) pads = false
pad_ends (third left) pads = leb 1 pads
pad_ends (fourth left) pads = true

unfoldable pub count_pad : Quad → ℕ → ℕ
count_pad first pads = pads
count_pad (second left) pads = pads
count_pad (third left) pads = pads + 1
count_pad (fourth left) pads = pads + 1

unfoldable pub at_end : Quad → Outcome (List ℕ)
at_end first = ok []
at_end (second left) = raise value_error
at_end (third left) = raise value_error
at_end (fourth left) = raise value_error

unfoldable pub b64_loop : Quad → ℕ → Text → Outcome (List ℕ)
unfolding at_end pad_ends count_pad take_value put_value b64_value
b64_loop q pads [] = at_end q
b64_loop q pads (c ∷ cs) = elim (c == b'=') [
  | true ↦ elim (pad_ends q pads) [ true ↦ ok [] | false ↦ b64_loop q (count_pad q pads) cs ]
  | false ↦ elim (b64_value c) [
    | none ↦ b64_loop q pads cs
    | some v ↦ b64_loop (take_value q v) 0 cs >>= λ out. ok (put_value q v out)
  ]
]

unfoldable pub is_ascii : Text → Bool
is_ascii [] = true
is_ascii (c ∷ cs) = ltb c 128 && is_ascii cs

unfoldable pub b64decode : Text → Outcome (List ℕ)
unfolding b64_loop is_ascii
b64decode s = if is_ascii s then b64_loop first 0 s else raise value_error

module _ (v : ℕ) (h : v < 64) where
  b64_value-b64_char : b64_value (b64_char v) ≡ some v
  unfolding b64_value b64_char
  b64_value-b64_char = ground arith

  b64_char-ne-pad : (b64_char v == b'=') ≡ false
  unfolding b64_char
  b64_char-ne-pad = ground arith

  b64_char-lt : ltb (b64_char v) 128 ≡ true
  unfolding b64_char
  b64_char-lt = ground arith

b64_loop-char :
    (v : ℕ)
    → v < 64
    → (q : Quad) (pads : ℕ) (cs : Text)
    → b64_loop q pads (b64_char v ∷ cs)
      ≡ (b64_loop (take_value q v) 0 cs >>= λ out. ok (put_value q v out))
unfolding b64_loop
b64_loop-char v h q pads cs = ground (arith, b64_char-ne-pad v h, b64_value-b64_char v h)

padding_one : (left : ℕ) → b64_loop (fourth left) 0 (b'=' ∷ []) ≡ ok []
unfolding b64_loop pad_ends
padding_one left = refl

padding_two : (left : ℕ) → b64_loop (third left) 0 (b'=' ∷ b'=' ∷ []) ≡ ok []
unfolding b64_loop pad_ends count_pad
padding_two left = refl

cons_same : {x y : ℕ} {xs ys : List ℕ} → x ≡ y → xs ≡ ys → (x ∷ xs) ≡ (y ∷ ys)
cons_same p q = ap₂ (λ a rest. a ∷ rest) p q

b64_loop-b64encode :
    (bytes : List ℕ) → IsBytes bytes → b64_loop first 0 (b64encode bytes) ≡ ok bytes
unfolding b64encode take_value put_value
b64_loop-b64encode [] h = unfold b64_loop at_end in refl
b64_loop-b64encode (x ∷ []) h =
    rw
      (
        b64_loop-char (x / 4) (omega arith),
        b64_loop-char (x % 4 * 16) (omega arith),
        padding_two (x % 4 * 16 % 16),
      )
      (ap ok (cons_same (omega arith) refl))
b64_loop-b64encode (x ∷ y ∷ []) h =
    rw
      (
        b64_loop-char (x / 4) (omega arith),
        b64_loop-char (x % 4 * 16 + y / 16) (omega arith),
        b64_loop-char (y % 16 * 4) (omega arith),
        padding_one (y % 16 * 4 % 4),
      )
      (ap ok (cons_same (omega arith) (cons_same (omega arith) refl)))
b64_loop-b64encode (x ∷ y ∷ z ∷ more) h =
    rw
      (
        b64_loop-char (x / 4) (omega arith),
        b64_loop-char (x % 4 * 16 + y / 16) (omega arith),
        b64_loop-char (y % 16 * 4 + z / 64) (omega arith),
        b64_loop-char (z % 64) (omega arith),
        b64_loop-b64encode more h.1.1.1,
      )
      (ap ok (cons_same (omega arith) (cons_same (omega arith) (cons_same (omega arith) refl))))

is_ascii-b64encode : (bytes : List ℕ) → IsBytes bytes → is_ascii (b64encode bytes) ≡ true
unfolding is_ascii b64encode
is_ascii-b64encode [] h = refl
is_ascii-b64encode (x ∷ []) h =
    rw (b64_char-lt (x / 4) (omega arith), b64_char-lt (x % 4 * 16) (omega arith))
is_ascii-b64encode (x ∷ y ∷ []) h = rw (
  b64_char-lt (x / 4) (omega arith),
  b64_char-lt (x % 4 * 16 + y / 16) (omega arith),
  b64_char-lt (y % 16 * 4) (omega arith),
)
is_ascii-b64encode (x ∷ y ∷ z ∷ more) h = rw (
  b64_char-lt (x / 4) (omega arith),
  b64_char-lt (x % 4 * 16 + y / 16) (omega arith),
  b64_char-lt (y % 16 * 4 + z / 64) (omega arith),
  b64_char-lt (z % 64) (omega arith),
  is_ascii-b64encode more h.1.1.1,
)

pub b64decode-b64encode : (bytes : List ℕ) → IsBytes bytes → b64decode (b64encode bytes) ≡ ok bytes
unfolding b64decode
b64decode-b64encode bytes h = rw (is_ascii-b64encode bytes h) (b64_loop-b64encode bytes h)
