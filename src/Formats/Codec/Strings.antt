-- ===== src/Formats/Codec/Strings.antt =====
-- Chains of reads; the length-prefixed strings, the magic bytes and the end of the input.
use mathlib.Core.Path.{subst}
use crypto_project.Base.{
  ℕ, ◌+◌, ◌≤◌, Bool, true, false, List, ◌++◌, length, length-append, append_assoc, le→ltb, le→leb,
  leb→le, ltb, leb, ◌===◌, ===→eq, ===_refl, Bool-cases, Outcome, ok, require, value_error,
  >>=-eq-ok, ◌≡◌, refl, sym, ap, ap₂, ◌∙◌, inl, inr, arith,
}
use crypto_project.Bytes.{IsBytes}
use crypto_project.Text.{Text, encode, decode}
use crypto_project.Text.Utf8.{decode-encode_iff}
use crypto_project.Formats.Reader.{
  Reader, Read, ◌>>=◌, lift, pack_uint, pack_u16, pack_str, max_str_len, read, read_uint, read_u16,
  read_str, read_magic,
}
use crypto_project.Formats.Codec.{
  At, At-advance, advance, IsCodec, IsBytes-split, pack_fixed, pack_fixed_ok, pack_fixed_inv,
  read-IsCodec, read_uint-IsCodec,
}

pub bind_ok :
    {A B : Type 0} (m : Read A) (f : A → Read B) (r : Reader) {a : A} {r' : Reader}
    → m r ≡ ok (a, r')
    → (m >>= f) r ≡ f a r'
unfolding ◌>>=◌
bind_ok m f r e = rw e

pub bind_inv :
    {A B : Type 0} (m : Read A) (f : A → Read B) (r : Reader) {b : B} {r'' : Reader}
    → (m >>= f) r ≡ ok (b, r'')
    → (a : A) × (r' : Reader) × (m r ≡ ok (a, r')) × (f a r' ≡ ok (b, r''))
unfolding ◌>>=◌
bind_inv m f r e = let ((a, r'), one, two) = >>=-eq-ok (m r) _ e in (a, r', one, two)

pub lift_inv :
    {A : Type 0} (m : Outcome A) (r : Reader) {a : A} {r' : Reader}
    → lift m r ≡ ok (a, r')
    → (m ≡ ok a) × (r' ≡ r)
unfolding lift
lift_inv m r e = let (a, one, two) = >>=-eq-ok m _ e in (cc (one, two), cc two)

pub require_inv : (b : Bool) (u : Unit {0}) → require b value_error ≡ ok u → b ≡ true
require_inv true u h = refl
require_inv false u h = cc

-- Two steps over adjacent parts are one step over both.
pub advance-advance :
    (r : Reader) (v w : List ℕ)
    → advance (advance r (length v)) (length w) ≡ advance r (length (v ++ w))
unfolding advance
advance-advance r v w =
    let e : r.pos + length v + length w ≡ r.pos + length (v ++ w) =
      omega (arith, length-append v w) in
    λ i. record { buf = r.buf; pos = e i }

pack_str_inv :
    (s : Text) (w : List ℕ)
    → pack_str s ≡ ok w
    → (b : List ℕ) × (z : List ℕ) × (encode s ≡ ok b)
      × (length b ≤ max_str_len)
      × (pack_uint 2 (length b) ≡ ok z)
      × (w ≡ z ++ b)
unfolding pack_str pack_u16
pack_str_inv s w h =
    let (b, enc, h1) = >>=-eq-ok (encode s) _ h in
    elim (Bool-cases (ltb max_str_len (length b))) [
      | inl long ↦ absurd (cc (rw long at h1))
      | inr short ↦
          let (z, size, h2) = >>=-eq-ok (pack_uint 2 (length b)) _ (rw short at h1) in
          (b, z, enc, ground arith, size, cc h2)
    ]

pack_str_ok :
    (s : Text) (b z : List ℕ)
    → encode s ≡ ok b
    → length b ≤ max_str_len
    → pack_uint 2 (length b) ≡ ok z
    → pack_str s ≡ ok (z ++ b)
unfolding pack_str pack_u16
pack_str_ok s b z enc short size = rw (enc, le→ltb max_str_len (length b) short, size)

read_str_ok :
    (s : Text) (n : ℕ) (b : List ℕ) (r r1 r2 : Reader)
    → read_uint 2 r ≡ ok (n, r1)
    → n ≤ max_str_len
    → read n r1 ≡ ok (b, r2)
    → decode b ≡ ok s
    → read_str r ≡ ok (s, r2)
unfolding read_str read_u16 ◌>>=◌ lift
read_str_ok s n b r r1 r2 size short bytes dec = rw (size, le→leb n max_str_len short, bytes, dec)

read_str_inv :
    (s : Text) (r r2 : Reader)
    → read_str r ≡ ok (s, r2)
    → (n : ℕ) × (b : List ℕ) × (r1 : Reader) × (read_uint 2 r ≡ ok (n, r1))
      × (n ≤ max_str_len)
      × (read n r1 ≡ ok (b, r2))
      × (decode b ≡ ok s)
unfolding read_str read_u16 ◌>>=◌ lift
read_str_inv s r r2 h =
    let (n, r1, size, h1) = bind_inv (read_uint 2) _ r h in
    let (u, r1', test, h2) = bind_inv (lift (require (leb n max_str_len) value_error)) _ r1 h1 in
    let (req, same) = lift_inv (require (leb n max_str_len) value_error) r1 test in
    let (b, r2', bytes, h3) = bind_inv (read n) _ r1' h2 in
    let (dec, last) = lift_inv (decode b) r2' h3 in
    (
      n,
      b,
      r1,
      size,
      leb→le n max_str_len (require_inv _ u req),
      ap (read n) (sym same) ∙ bytes ∙ ap (λ x. ok (b, x)) (sym last),
      dec,
    )

pub read_str-IsCodec : IsCodec pack_str read_str
read_str-IsCodec = record {
  forward = λ s w t r packed h.
      let (b, z, enc, short, size, split) = pack_str_inv s w packed in
      let at0 : At r (z ++ (b ++ t)) =
        subst (At r) (ap (λ x. x ++ t) split ∙ append_assoc z b t) h in
      let one = (read_uint-IsCodec 2).forward (length b) z (b ++ t) r size at0 in
      let two =
        (read-IsCodec (length b)).forward b b t _ (pack_fixed_self b)
          (At-advance r z (b ++ t) at0) in
      read_str_ok s (length b) b r _ _ one short two ((decode-encode_iff s b).0 enc)
      ∙ ap (λ x. ok (s, x)) (advance-advance r z b ∙ ap (λ x. advance r (length x)) (sym split));
  backward = λ s i r r' bytes h e.
      let (n, b, r1, size, short, body, dec) = read_str_inv s r r' e in
      let (z, t, packed, split, moved) = (read_uint-IsCodec 2).backward n i r r1 bytes h size in
      let at1 : At r1 t =
        subst (λ x. At x t) (sym moved) (At-advance r z t (subst (At r) split h)) in
      let (b', t', same, split', moved') =
        (read-IsCodec n).backward b t r1 r' (IsBytes-split z t (subst IsBytes split bytes)).1 at1
          body in
      let (eb, len) = pack_fixed_eq n b b' same in
      (
        z ++ b',
        t',
        subst (λ x. pack_str s ≡ ok (z ++ x)) eb
            (pack_str_ok s b z ((decode-encode_iff s b).1 dec) (omega arith)
              (subst (λ k. pack_uint 2 k ≡ ok z) (sym len) packed)),
        split ∙ ap (λ x. z ++ x) split' ∙ sym (append_assoc z b' t'),
        moved' ∙ ap (λ x. advance x (length b')) moved ∙ advance-advance r z b',
      );
}
  where
    pack_fixed_self : (b : List ℕ) → pack_fixed (length b) b ≡ ok b
    pack_fixed_self b = pack_fixed_ok (length b) b refl

    pack_fixed_eq : (n : ℕ) (b b' : List ℕ) → pack_fixed n b ≡ ok b' → (b ≡ b') × (length b ≡ n)
    pack_fixed_eq n b b' e = let (l, s) = pack_fixed_inv n b b' e in (s, l)

unfoldable pub pack_magic : List ℕ → Unit {0} → Outcome (List ℕ)
pack_magic magic u = ok magic

read_magic_ok :
    (magic : List ℕ) (r r' : Reader) → read 4 r ≡ ok (magic, r') → read_magic magic r ≡ ok (tt, r')
unfolding read_magic ◌>>=◌ lift
read_magic_ok magic r r' e = rw (e, ===_refl magic)

read_magic_inv :
    (magic : List ℕ) (u : Unit {0}) (r r' : Reader)
    → read_magic magic r ≡ ok (u, r')
    → read 4 r ≡ ok (magic, r')
unfolding read_magic
read_magic_inv magic u r r' e =
    let (m, r1, one, e1) = bind_inv (read 4) _ r e in
    let (req, same) = lift_inv (require (m === magic) value_error) r1 e1 in
    one ∙ ap₂ (λ x y. ok (x, y)) (===→eq m magic (require_inv (m === magic) u req)) (sym same)

pub read_magic-IsCodec :
    (magic : List ℕ) → length magic ≡ 4 → IsCodec (pack_magic magic) (read_magic magic)
unfolding pack_magic
read_magic-IsCodec magic size = record {
  forward = λ u w t r packed h.
      let same : magic ≡ w = cc packed in
      let packed' = pack_fixed_ok 4 magic size ∙ ap ok same in
      read_magic_ok magic r _ ((read-IsCodec 4).forward magic w t r packed' h);
  backward = λ u s r r' bytes h e.
      let (w, t, packed, split, moved) =
        (read-IsCodec 4).backward magic s r r' bytes h (read_magic_inv magic u r r' e) in
      let (_, same) = pack_fixed_inv 4 magic w packed in (w, t, ap ok same, split, moved);
}
