-- ===== src/Formats/Codec.antt =====
-- What a pair of a packing function and a reading method must satisfy, and that the helpers of
-- common/formats.py do.
pub mod Strings
pub mod Pairs
use mathlib.Core.Path.{subst}
use crypto_project.Base.{
  ℕ, zero, suc, ◌+◌, ◌-◌, ◌^◌, ◌≤◌, ◌<◌, Bool, true, false, List, [], ◌∷◌, ◌++◌, length, take, drop,
  min, length-append, length-take, length-drop, take-append-drop, take-append_exact,
  drop-append_exact, ltb, leb, ◌===◌, ===→eq, ===_refl, ◌==◌, ==_iff, if◌then◌else◌, Bool-cases,
  Outcome, ok, raise, require, value_error, >>=-eq-ok, ◌≡◌, refl, sym, ap, ap₂, ◌∙◌, inl, inr,
  arith, All, All-take, All-drop, lt→ltb, ltb→lt,
}
use native.Mathlib.Nat.{zero-add, suc-add}
use crypto_project.Base as Base
use crypto_project.Bytes.{IsByte, IsBytes, be_bytes, from_bytes}
use crypto_project.Bytes.Laws.{
  length-be_bytes, from_bytes-be_bytes, be_bytes-from_bytes, from_bytes-lt,
}
use crypto_project.Text.{Text, encode, decode}
use crypto_project.Text.Utf8.{decode-encode_iff}
use crypto_project.Formats.Reader.{
  Reader, Read, ◌>>=◌, pure, pack_uint, pack_u16, pack_str, max_str_len, read, read_uint, read_u16,
  read_str, read_magic, remaining, assert_done,
}

-- The cursor of `r` stands before the bytes `s`, which go to the end.
pub record At (r : Reader) (s : List ℕ) : Type 0 where
  pub ahead : drop r.pos r.buf ≡ s
  pub inside : r.pos ≤ length r.buf

unfoldable pub advance : Reader → ℕ → Reader
advance r n = record r { pos = r.pos + n }

drop-drop {ℓ} : {A : Type ℓ} (m n : ℕ) (xs : List A) → drop (m + n) xs ≡ drop n (drop m xs)
drop-drop zero n xs = rw zero-add
drop-drop (suc m) zero [] = rw suc-add
drop-drop (suc m) (suc n) [] = rw suc-add
drop-drop (suc m) n (x ∷ xs) = rw suc-add (drop-drop m n xs)

pub At-advance : (r : Reader) (w t : List ℕ) → At r (w ++ t) → At (advance r (length w)) t
unfolding advance
At-advance r w t h = record {
  ahead =
      drop-drop r.pos (length w) r.buf
      ∙ ap (drop (length w)) h.ahead
      ∙ drop-append_exact (length w) w t refl;
  inside = omega (arith, ap length h.ahead, length-drop r.pos r.buf, length-append w t, h.inside);
}

module _ {A : Type 0} (pack : A → Outcome (List ℕ)) (p : Read A) where
  -- `p` reads exactly what `pack` writes.
  pub record IsCodec : Type 0 where
    pub forward :
        (v : A) (w t : List ℕ) (r : Reader)
        → pack v ≡ ok w
        → At r (w ++ t)
        → p r ≡ ok (v, advance r (length w))
    pub backward :
        (v : A) (s : List ℕ) (r r' : Reader)
        → IsBytes s
        → At r s
        → p r ≡ ok (v, r')
        → (w : List ℕ) × (t : List ℕ) × (pack v ≡ ok w) × (s ≡ w ++ t) × (r' ≡ advance r (length w))

-- Bytes of a fixed size are their own packing.
unfoldable pub pack_fixed : ℕ → List ℕ → Outcome (List ℕ)
pack_fixed n b = if length b == n then ok b else raise value_error

read_forward :
    (n : ℕ) (w t : List ℕ) (r : Reader)
    → length w ≡ n
    → At r (w ++ t)
    → read n r ≡ ok (w, advance r (length w))
unfolding read advance
read_forward n w t r e h = rw (fits, h.ahead, take-append_exact n w t e, e) refl
  where
    fits : ltb (length r.buf) (r.pos + n) ≡ false
    fits = ground (arith, ap length h.ahead, length-drop r.pos r.buf, length-append w t, h.inside)

read_inv :
    (n : ℕ) (v : List ℕ) (r r' : Reader)
    → read n r ≡ ok (v, r')
    → (r.pos + n ≤ length r.buf) × (take n (drop r.pos r.buf) ≡ v) × (advance r n ≡ r')
unfolding read advance
read_inv n v r r' e = ground arith

read_backward :
    (n : ℕ) (v s : List ℕ) (r r' : Reader)
    → At r s
    → read n r ≡ ok (v, r')
    → (length v ≡ n) × (s ≡ v ++ drop n s) × (r' ≡ advance r (length v))
read_backward n v s r r' h e =
    let (fits, taken, moved) = read_inv n v r r' e in
    let same : take n s ≡ v = ap (take n) (sym h.ahead) ∙ taken in
    let size : length v ≡ n =
      omega (arith, ap length same, length-take n s, ap length h.ahead, length-drop r.pos r.buf) in
    (
      size,
      sym (take-append-drop n s) ∙ ap (λ t. t ++ drop n s) same,
      sym moved ∙ ap (advance r) (sym size),
    )

pub pack_fixed_inv : (n : ℕ) (v w : List ℕ) → pack_fixed n v ≡ ok w → (length v ≡ n) × (v ≡ w)
unfolding pack_fixed
pack_fixed_inv n v w h = ground (arith, ==_iff (length v) n)

pub pack_fixed_ok : (n : ℕ) (v : List ℕ) → length v ≡ n → pack_fixed n v ≡ ok v
unfolding pack_fixed
pack_fixed_ok n v h = ground (arith, ==_iff (length v) n)

pub read-IsCodec : (n : ℕ) → IsCodec (pack_fixed n) (read n)
read-IsCodec n = record {
  forward = λ v w t r packed h.
      let (size, same) = pack_fixed_inv n v w packed in
      read_forward n w t r (ap length (sym same) ∙ size) h
      ∙ ap (λ x. ok (x, advance r (length w))) (sym same);
  backward = λ v s r r' bytes h e.
      let (size, split, moved) = read_backward n v s r r' h e in
      (v, drop n s, pack_fixed_ok n v size, split, moved);
}

pub IsBytes-split : (xs ys : List ℕ) → IsBytes (xs ++ ys) → IsBytes xs × IsBytes ys
IsBytes-split [] ys h = (tt, h)
IsBytes-split (x ∷ xs) ys h = let (a, b) = IsBytes-split xs ys h.1 in ((h.0, a), b)

pack_uint_inv : (n x : ℕ) (w : List ℕ) → pack_uint n x ≡ ok w → (x < 256 ^ n) × (be_bytes n x ≡ w)
unfolding pack_uint
pack_uint_inv n x w h = elim (Bool-cases (ltb x (256 ^ n))) [
  | inl lt ↦ (ltb→lt x (256 ^ n) lt, cc (rw lt at h))
  | inr ge ↦ absurd (cc (rw ge at h))
]

pub pack_uint_ok : (n x : ℕ) → x < 256 ^ n → pack_uint n x ≡ ok (be_bytes n x)
unfolding pack_uint
pack_uint_ok n x h = rw (lt→ltb x (256 ^ n) h)

read_uint_of :
    (n : ℕ) (r r' : Reader) (b : List ℕ)
    → read n r ≡ ok (b, r')
    → read_uint n r ≡ ok (from_bytes b, r')
unfolding read_uint ◌>>=◌ pure
read_uint_of n r r' b e = rw e

read_uint_inv :
    (n x : ℕ) (r r' : Reader)
    → read_uint n r ≡ ok (x, r')
    → (b : List ℕ) × (read n r ≡ ok (b, r')) × (from_bytes b ≡ x)
unfolding read_uint ◌>>=◌ pure
read_uint_inv n x r r' e =
    let ((b, r''), one, two) = Base.>>=-eq-ok (read n r) _ e in (b, cc (one, two), cc two)

pub read_uint-IsCodec : (n : ℕ) → IsCodec (pack_uint n) (read_uint n)
read_uint-IsCodec n = record {
  forward = λ x w t r packed h.
      let (lt, same) = pack_uint_inv n x w packed in
      let size : length w ≡ n = ap length (sym same) ∙ length-be_bytes n x in
      read_uint_of n r _ w (read_forward n w t r size h)
      ∙ ap (λ y. ok (y, advance r (length w)))
          (ap from_bytes (sym same) ∙ from_bytes-be_bytes n x lt);
  backward = λ x s r r' bytes h e.
      let (b, one, value) = read_uint_inv n x r r' e in
      let (size, split, moved) = read_backward n b s r r' h one in
      let byte = (IsBytes-split b (drop n s) (subst IsBytes split bytes)).0 in
      (
        b,
        drop n s,
        subst (λ y. pack_uint n y ≡ ok b) value
            (subst (λ k. pack_uint k (from_bytes b) ≡ ok b) size
              (pack_uint_ok (length b) (from_bytes b) (from_bytes-lt b byte)
                ∙ ap ok (be_bytes-from_bytes b byte))),
        split,
        moved,
      );
}
