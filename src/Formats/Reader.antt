-- ===== src/Formats/Reader.antt =====
-- The packing helpers and the class `_Reader` of common/formats.py. A method that moves the
-- cursor takes a reader and returns its result with the moved reader.
use crypto_project.Base.{
  ℕ, ◌+◌, ◌-◌, ◌^◌, Bool, true, false, List, ◌++◌, length, take, drop, leb, ltb, ◌==◌, ◌===◌,
  if◌then◌else◌, Outcome, ok, raise, require, value_error, Exc,
}
use crypto_project.Base as Base
use crypto_project.Bytes.{be_bytes, from_bytes}
use crypto_project.Text.{Text, encode, decode}

abbrev pub max_str_len : ℕ
max_str_len = 4096

-- `_pack_u16`, `_pack_u32` and `_pack_u64`, by the number of bytes.
unfoldable pub pack_uint : ℕ → ℕ → Outcome (List ℕ)
pack_uint n x = if ltb x (256 ^ n) then ok (be_bytes n x) else raise value_error

unfoldable pub pack_u16 : ℕ → Outcome (List ℕ)
pack_u16 = pack_uint 2

unfoldable pub pack_u32 : ℕ → Outcome (List ℕ)
pack_u32 = pack_uint 4

unfoldable pub pack_u64 : ℕ → Outcome (List ℕ)
pack_u64 = pack_uint 8

unfoldable pub pack_str : Text → Outcome (List ℕ)
pack_str s = Base.◌>>=◌ (encode s) (λ encoded.
    if ltb max_str_len (length encoded)
    then raise value_error
    else Base.◌>>=◌ (pack_u16 (length encoded)) (λ size. ok (size ++ encoded)))

pub record Reader : Type 0 where
  pub buf : List ℕ
  pub pos : ℕ

unfoldable pub open_reader : List ℕ → Reader
open_reader bytes = record { buf = bytes; pos = 0 }

abbrev pub Read : Type 0 → Type 0
Read A = Reader → Outcome (A × Reader)

infixl 5 ◌>>=◌ ◌>>◌
unfoldable pub ◌>>=◌ : {A B : Type 0} → Read A → (A → Read B) → Read B
◌>>=◌ m f r = Base.◌>>=◌ (m r) (λ (a, r'). f a r')

abbrev pub ◌>>◌ : {B : Type 0} → Read (Unit {0}) → Read B → Read B
m >> k = m >>= λ _. k

unfoldable pub pure : {A : Type 0} → A → Read A
pure a r = ok (a, r)

unfoldable pub lift : {A : Type 0} → Outcome A → Read A
lift m r = Base.◌>>=◌ m (λ a. ok (a, r))

unfoldable pub read : ℕ → Read (List ℕ)
read n r =
    if ltb (length r.buf) (r.pos + n)
    then raise value_error
    else ok (take n (drop r.pos r.buf), record r { pos = r.pos + n })

unfoldable pub read_uint : ℕ → Read ℕ
read_uint n = do b ← read n; pure (from_bytes b)

unfoldable pub read_u16 : Read ℕ
read_u16 = read_uint 2

unfoldable pub read_u32 : Read ℕ
read_u32 = read_uint 4

unfoldable pub read_u64 : Read ℕ
read_u64 = read_uint 8

unfoldable pub read_str : Read Text
read_str = do
  n ← read_u16
  lift (require (leb n max_str_len) value_error)
  b ← read n
  lift (decode b)

unfoldable pub remaining : Reader → ℕ
remaining r = length r.buf - r.pos

unfoldable pub assert_done : Read (Unit {0})
assert_done r = lift (require (remaining r == 0) value_error) r

-- `magic = r.read(4)` and the test of it.
unfoldable pub read_magic : List ℕ → Read (Unit {0})
read_magic magic = do m ← read 4; lift (require (m === magic) value_error)
