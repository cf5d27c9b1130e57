-- ===== src/Text.antt =====
-- Python's `str` as a list of code points: `encode("utf-8")` and `decode("utf-8")`, with the
-- errors of the strict codec (both are ValueErrors).
pub mod Utf8
use Prim.Native.Char.{code}
use Prim.Native.String.{String}
use crypto_project.Base.{
  ℕ, zero, suc, ◌+◌, ◌-◌, ◌*◌, ◌/◌, ◌%◌, Bool, ◌&&◌, not, List, [], ◌∷◌, ◌++◌, length, ltb, leb,
  if◌then◌else◌, Outcome, ok, raise, ◌>>=◌, value_error,
}

abbrev pub Text : Type 0
Text = List ℕ

-- A literal of the source.
abbrev pub codes : String → Text
codes String.[] = []
codes (String.◌∷◌ c s) = code c ∷ codes s

unfoldable pub is_surrogate : ℕ → Bool
is_surrogate c = leb 0xD800 c && ltb c 0xE000

unfoldable pub encode_char : ℕ → Outcome (List ℕ)
unfolding is_surrogate
encode_char c =
    if ltb c 0x80
    then ok (c ∷ [])
    else if ltb c 0x800
    then ok ((0xC0 + c / 64) ∷ (0x80 + c % 64) ∷ [])
    else if is_surrogate c
    then raise value_error
    else if ltb c 0x10000
    then ok ((0xE0 + c / 4096) ∷ (0x80 + c / 64 % 64) ∷ (0x80 + c % 64) ∷ [])
    else if ltb c 0x110000
    then ok
        ((0xF0 + c / 262144) ∷ (0x80 + c / 4096 % 64) ∷ (0x80 + c / 64 % 64) ∷ (0x80 + c % 64) ∷ [])
    else raise value_error

unfoldable pub encode : Text → Outcome (List ℕ)
encode [] = ok []
encode (c ∷ s) = do e ← encode_char c; rest ← encode s; ok (e ++ rest)

unfoldable pub is_continuation : ℕ → Bool
is_continuation b = leb 0x80 b && ltb b 0xC0

unfoldable pub decode_two : ℕ → List ℕ → Outcome (ℕ × List ℕ)
unfolding is_continuation
decode_two b (x ∷ r) =
    if is_continuation x then ok ((b - 0xC0) * 64 + (x - 0x80), r) else raise value_error
decode_two b [] = raise value_error

unfoldable pub decode_three : ℕ → List ℕ → Outcome (ℕ × List ℕ)
unfolding is_continuation is_surrogate
decode_three b (x ∷ y ∷ r) =
    let c = (b - 0xE0) * 4096 + (x - 0x80) * 64 + (y - 0x80) in
    if is_continuation x && is_continuation y && leb 0x800 c && not (is_surrogate c)
    then ok (c, r)
    else raise value_error
decode_three b _ = raise value_error

unfoldable pub decode_four : ℕ → List ℕ → Outcome (ℕ × List ℕ)
unfolding is_continuation
decode_four b (x ∷ y ∷ z ∷ r) =
    let c = (b - 0xF0) * 262144 + (x - 0x80) * 4096 + (y - 0x80) * 64 + (z - 0x80) in
    if is_continuation x
      && is_continuation y
      && is_continuation z
      && leb 0x10000 c
      && ltb c 0x110000
    then ok (c, r)
    else raise value_error
decode_four b _ = raise value_error

-- One character from the front.
unfoldable pub decode_char : List ℕ → Outcome (ℕ × List ℕ)
decode_char [] = raise value_error
decode_char (b ∷ r) =
    if ltb b 0x80
    then ok (b, r)
    else if leb 0xC2 b && ltb b 0xE0
    then decode_two b r
    else if leb 0xE0 b && ltb b 0xF0
    then decode_three b r
    else if leb 0xF0 b && ltb b 0xF5
    then decode_four b r
    else raise value_error

-- A character takes a byte at least, so the length is enough fuel.
unfoldable pub decode_loop : ℕ → List ℕ → Outcome Text
decode_loop fuel [] = ok []
decode_loop zero (b ∷ r) = raise value_error
decode_loop (suc fuel) (b ∷ r) = do
  (c, rest) ← decode_char (b ∷ r)
  s ← decode_loop fuel rest
  ok (c ∷ s)

unfoldable pub decode : List ℕ → Outcome Text
decode bytes = decode_loop (length bytes) bytes
