-- ===== src/Text/Utf8.antt =====
-- The UTF-8 codec is exact both ways: each text has one encoding, and only that one decodes to it.
use mathlib.Core.Path.{subst}
use crypto_project.Base.{
  ℕ, zero, suc, ◌+◌, ◌/◌, ◌%◌, ◌≤◌, ◌<◌, false, List, [], ◌∷◌, ◌++◌, length, length-append, ok,
  >>=-eq-ok, ◌≡◌, ◌↔◌, refl, sym, ap, ◌∙◌, arith, inl, inr, ◌⊎◌,
}
use crypto_project.Text.{
  Text, is_surrogate, encode_char, encode, decode_two, decode_three, decode_four, decode_char,
  decode_loop, decode,
}

-- What `decode_char` takes from the front is the encoding of what it returns.
abbrev Takes : List ℕ → ℕ → List ℕ → Type 0
Takes bytes c rest = (e : List ℕ) × (encode_char c ≡ ok e) × (bytes ≡ e ++ rest) × (0 < length e)

decode_two-Takes :
    (b : ℕ) (r : List ℕ) (c : ℕ) (rest : List ℕ)
    → 0xC2 ≤ b
    → b < 0xE0
    → decode_two b r ≡ ok (c, rest)
    → Takes (b ∷ r) c rest
unfolding decode_two encode_char
decode_two-Takes b [] c rest lo hi h = cc
decode_two-Takes b (x ∷ r) c rest lo hi h = (b ∷ x ∷ [], ground arith, ground arith, omega arith)

decode_three-Takes :
    (b : ℕ) (r : List ℕ) (c : ℕ) (rest : List ℕ)
    → 0xE0 ≤ b
    → b < 0xF0
    → decode_three b r ≡ ok (c, rest)
    → Takes (b ∷ r) c rest
unfolding decode_three encode_char
decode_three-Takes b [] c rest lo hi h = cc
decode_three-Takes b (x ∷ []) c rest lo hi h = cc
decode_three-Takes b (x ∷ y ∷ r) c rest lo hi h =
    (b ∷ x ∷ y ∷ [], ground arith, ground arith, omega arith)

decode_four-Takes :
    (b : ℕ) (r : List ℕ) (c : ℕ) (rest : List ℕ)
    → 0xF0 ≤ b
    → b < 0xF5
    → decode_four b r ≡ ok (c, rest)
    → Takes (b ∷ r) c rest
unfolding decode_four encode_char
decode_four-Takes b [] c rest lo hi h = cc
decode_four-Takes b (x ∷ []) c rest lo hi h = cc
decode_four-Takes b (x ∷ y ∷ []) c rest lo hi h = cc
decode_four-Takes b (x ∷ y ∷ z ∷ r) c rest lo hi h =
    (b ∷ x ∷ y ∷ z ∷ [], ground arith, ground arith, omega arith)

-- The four kinds of lead byte.
lead_cases :
    (b : ℕ) (r : List ℕ) (c : ℕ) (rest : List ℕ)
    → decode_char (b ∷ r) ≡ ok (c, rest)
    → ((b < 0x80) × (c ≡ b) × (rest ≡ r))
      ⊎ ((0xC2 ≤ b) × (b < 0xE0) × (decode_two b r ≡ ok (c, rest)))
      ⊎ ((0xE0 ≤ b) × (b < 0xF0) × (decode_three b r ≡ ok (c, rest)))
      ⊎ ((0xF0 ≤ b) × (b < 0xF5) × (decode_four b r ≡ ok (c, rest)))
unfolding decode_char
lead_cases b r c rest h = ground arith

decode_char-Takes :
    (bytes : List ℕ) (c : ℕ) (rest : List ℕ) → decode_char bytes ≡ ok (c, rest) → Takes bytes c rest
decode_char-Takes [] c rest h = unfold decode_char in cc
decode_char-Takes (b ∷ r) c rest h = elim (lead_cases b r c rest h) [
  | inl (lt, same, tail) ↦ unfold encode_char in (b ∷ [], ground arith, ground arith, omega arith)
  | inr (inl (lo, hi, two)) ↦ decode_two-Takes b r c rest lo hi two
  | inr (inr (inl (lo, hi, three))) ↦ decode_three-Takes b r c rest lo hi three
  | inr (inr (inr (lo, hi, four))) ↦ decode_four-Takes b r c rest lo hi four
]

-- The four lengths of an encoding.
encode_cases :
    (c : ℕ) (e : List ℕ)
    → encode_char c ≡ ok e
    → ((c < 0x80) × (e ≡ c ∷ []))
      ⊎ ((0x80 ≤ c) × (c < 0x800) × (e ≡ (0xC0 + c / 64) ∷ (0x80 + c % 64) ∷ []))
      ⊎ ((0x800 ≤ c)
          × (c < 0x10000)
          × (is_surrogate c ≡ false)
          × (e ≡ (0xE0 + c / 4096) ∷ (0x80 + c / 64 % 64) ∷ (0x80 + c % 64) ∷ []))
      ⊎ ((0x10000 ≤ c)
          × (c < 0x110000)
          × (e
              ≡ (0xF0 + c / 262144)
                ∷ (0x80 + c / 4096 % 64)
                ∷ (0x80 + c / 64 % 64)
                ∷ (0x80 + c % 64)
                ∷ []))
unfolding encode_char
encode_cases c e h = ground arith

two_back :
    (c : ℕ) (rest : List ℕ)
    → 0x80 ≤ c
    → c < 0x800
    → decode_char ((0xC0 + c / 64) ∷ (0x80 + c % 64) ∷ rest) ≡ ok (c, rest)
unfolding decode_char decode_two
two_back c rest lo hi = ground arith

three_back :
    (c : ℕ) (rest : List ℕ)
    → 0x800 ≤ c
    → c < 0x10000
    → is_surrogate c ≡ false
    → decode_char ((0xE0 + c / 4096) ∷ (0x80 + c / 64 % 64) ∷ (0x80 + c % 64) ∷ rest) ≡ ok (c, rest)
unfolding decode_char decode_three
three_back c rest lo hi sur = ground arith

four_back :
    (c : ℕ) (rest : List ℕ)
    → 0x10000 ≤ c
    → c < 0x110000
    → decode_char (
        (0xF0 + c / 262144)
        ∷ (0x80 + c / 4096 % 64)
        ∷ (0x80 + c / 64 % 64)
        ∷ (0x80 + c % 64)
        ∷ rest)
      ≡ ok (c, rest)
unfolding decode_char decode_four
four_back c rest lo hi = ground arith

-- And the encoding of a character in front is decoded to it.
decode_char-append :
    (c : ℕ) (e rest : List ℕ) → encode_char c ≡ ok e → decode_char (e ++ rest) ≡ ok (c, rest)
decode_char-append c e rest h = elim (encode_cases c e h) [
  | inl (lt, e1) ↦ rw e1 (unfold decode_char in ground arith)
  | inr (inl (lo, hi, e2)) ↦ rw e2 (two_back c rest lo hi)
  | inr (inr (inl (lo, hi, sur, e3))) ↦ rw e3 (three_back c rest lo hi sur)
  | inr (inr (inr (lo, hi, e4))) ↦ rw e4 (four_back c rest lo hi)
]

encode_char-pos : (c : ℕ) (e : List ℕ) → encode_char c ≡ ok e → 0 < length e
unfolding encode_char
encode_char-pos c e h = ground arith

encode-cons :
    (c : ℕ) (s : Text) (e rest : List ℕ)
    → encode_char c ≡ ok e
    → encode s ≡ ok rest
    → encode (c ∷ s) ≡ ok (e ++ rest)
unfolding encode
encode-cons c s e rest h k = rw (h, k)

decode_loop_sound :
    (fuel : ℕ) (bytes : List ℕ) (s : Text) → decode_loop fuel bytes ≡ ok s → encode s ≡ ok bytes
unfolding decode_loop
decode_loop_sound fuel [] s h =
    let e : [] ≡ s = cc in subst (λ t. encode t ≡ ok []) e (unfold encode in refl)
decode_loop_sound zero (b ∷ r) s h = cc
decode_loop_sound (suc fuel) (b ∷ r) s h =
    let ((c, rest), one, h1) = >>=-eq-ok (decode_char (b ∷ r)) _ h in
    let (s', more, h2) = >>=-eq-ok (decode_loop fuel rest) _ h1 in
    let (e, enc, split, _) = decode_char-Takes (b ∷ r) c rest one in
    let whole : encode (c ∷ s') ≡ ok (b ∷ r) =
      encode-cons c s' e rest enc (decode_loop_sound fuel rest s' more) ∙ ap ok (sym split) in
    let same : c ∷ s' ≡ s = cc h2 in subst (λ t. encode t ≡ ok (b ∷ r)) same whole

decode_loop-step :
    (fuel : ℕ) (bytes : List ℕ) (c : ℕ) (rest : List ℕ) (s : Text)
    → decode_char bytes ≡ ok (c, rest)
    → decode_loop fuel rest ≡ ok s
    → decode_loop (suc fuel) bytes ≡ ok (c ∷ s)
unfolding decode_loop
decode_loop-step fuel [] c rest s h k = absurd (unfold decode_char in cc h)
decode_loop-step fuel (b ∷ r) c rest s h k = rw (h, k)

encode-nil : encode [] ≡ ok []
unfolding encode
encode-nil = refl

decode_loop-nil : (fuel : ℕ) → decode_loop fuel [] ≡ ok []
unfolding decode_loop
decode_loop-nil zero = refl
decode_loop-nil (suc fuel) = refl

-- The bytes of a text that is not empty, cut behind its first character.
encode-uncons :
    (c : ℕ) (s : Text) (bytes : List ℕ)
    → encode (c ∷ s) ≡ ok bytes
    → (e : List ℕ) × (rest : List ℕ) × (encode_char c ≡ ok e)
      × (encode s ≡ ok rest)
      × (e ++ rest ≡ bytes)
      × (length rest < length bytes)
unfolding encode
encode-uncons c s bytes h =
    let (e, enc, h1) = >>=-eq-ok (encode_char c) _ h in
    let (rest, more, h2) = >>=-eq-ok (encode s) _ h1 in
    let same : e ++ rest ≡ bytes = cc h2 in
    (
      e,
      rest,
      enc,
      more,
      same,
      omega (arith, ap length same, length-append e rest, encode_char-pos c e enc),
    )

decode_loop-encode :
    (fuel : ℕ) (s : Text) (bytes : List ℕ)
    → encode s ≡ ok bytes
    → length bytes ≤ fuel
    → decode_loop fuel bytes ≡ ok s
decode_loop-encode fuel [] bytes h le =
    let e : [] ≡ bytes = cc (h, encode-nil) in
    subst (λ t. decode_loop fuel t ≡ ok []) e (decode_loop-nil fuel)
decode_loop-encode zero (c ∷ s) bytes h le = absurd (omega (arith, encode-uncons c s bytes h))
decode_loop-encode (suc fuel) (c ∷ s) bytes h le =
    let (e, rest, enc, more, same, shorter) = encode-uncons c s bytes h in
    subst (λ t. decode_loop (suc fuel) t ≡ ok (c ∷ s)) same
      (decode_loop-step fuel (e ++ rest) c rest s (decode_char-append c e rest enc)
        (decode_loop-encode fuel s rest more (omega arith)))

-- Bytes decode to a text exactly when they are its encoding.
pub decode-encode_iff : (s : Text) (bytes : List ℕ) → (encode s ≡ ok bytes) ↔ (decode bytes ≡ ok s)
unfolding decode
decode-encode_iff s bytes = (
  λ h. decode_loop-encode (length bytes) s bytes h (omega arith),
  λ h. decode_loop_sound (length bytes) bytes s h,
)
