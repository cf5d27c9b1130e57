-- ===== src/Encodings/Hex.antt =====
-- `b.hex()` and `bytes.fromhex(s)`, which passes over ASCII white space between the bytes.
use crypto_project.Base.{
  ℕ, ◌+◌, ◌-◌, ◌*◌, ◌/◌, ◌%◌, ◌<◌, Bool, false, ◌&&◌, ◌||◌, List, [], ◌∷◌, Option, none, some, ◌==◌,
  ltb, leb, if◌then◌else◌, Outcome, ok, raise, ◌>>=◌, value_error, ◌≡◌, refl, ap₂, arith,
}
use crypto_project.Bytes.{IsBytes}
use crypto_project.Text.{Text}

unfoldable pub hex_char : ℕ → ℕ
hex_char v = if ltb v 10 then b'0' + v else b'a' + (v - 10)

unfoldable pub hex_value : ℕ → Option ℕ
hex_value c =
    if leb b'0' c && leb c b'9'
    then some (c - b'0')
    else if leb b'a' c && leb c b'f'
    then some (c - b'a' + 10)
    else if leb b'A' c && leb c b'F'
    then some (c - b'A' + 10)
    else none

-- Tab, line feed, vertical tab, form feed, carriage return and space.
unfoldable pub is_space : ℕ → Bool
is_space c = leb 9 c && leb c 13 || c == 32

unfoldable pub hex : List ℕ → Text
hex [] = []
hex (x ∷ xs) = hex_char (x / 16) ∷ hex_char (x % 16) ∷ hex xs

-- A byte in front of what follows, if both its digits are digits.
unfoldable pub put_byte : Option ℕ → Option ℕ → Outcome (List ℕ) → Outcome (List ℕ)
put_byte (some high) (some low) rest = rest >>= λ out. ok ((high * 16 + low) ∷ out)
put_byte (some high) none rest = raise value_error
put_byte none low rest = raise value_error

unfoldable pub fromhex : Text → Outcome (List ℕ)
unfolding is_space hex_value put_byte
fromhex [] = ok []
fromhex (c ∷ []) = if is_space c then ok [] else raise value_error
fromhex (c ∷ d ∷ cs) =
    let skipped = fromhex (d ∷ cs) in
    let paired = put_byte (hex_value c) (hex_value d) (fromhex cs) in
    if is_space c then skipped else paired

module _ (v : ℕ) (h : v < 16) where
  hex_value-hex_char : hex_value (hex_char v) ≡ some v
  unfolding hex_value hex_char
  hex_value-hex_char = ground arith

  hex_char_not_space : is_space (hex_char v) ≡ false
  unfolding is_space hex_char
  hex_char_not_space = ground arith

-- The digits of a byte string are read back.
pub fromhex-hex : (bytes : List ℕ) → IsBytes bytes → fromhex (hex bytes) ≡ ok bytes
unfolding fromhex hex put_byte
fromhex-hex [] h = refl
fromhex-hex (x ∷ xs) h =
    rw
      (
        hex_char_not_space (x / 16) (omega arith),
        hex_value-hex_char (x / 16) (omega arith),
        hex_value-hex_char (x % 16) (omega arith),
        fromhex-hex xs h.1,
      )
      (ap₂ (λ b bs. ok (b ∷ bs)) (omega arith) refl)

fromhex_mixed : fromhex (b'0' ∷ b'A' ∷ b' ' ∷ b'f' ∷ b'f' ∷ []) ≡ ok (10 ∷ 255 ∷ [])
unfolding fromhex hex_value put_byte is_space
fromhex_mixed = refl
