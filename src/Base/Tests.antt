-- ===== src/Base/Tests.antt =====
-- Boolean tests on the native numbers and on byte strings, and the conditional.
use Prim.Native.Nat.{ℕ, ◌≤◌, ◌<◌, compare, Ordering}
use mathlib.Core.Path.{◌≡◌, refl}
use mathlib.Core.Logic.{◌≢◌, ◌↔◌, ◌⊎◌, inl, inr}
use mathlib.Core.Bool.{Bool, true, false, ◌&&◌}
use mathlib.Core.Option.{Option, none, some}
use mathlib.Core.List.{List, [], ◌∷◌}
use native.Mathlib.Omega.{arith}

abbrev pub ltb : ℕ → ℕ → Bool
ltb a b = elim (compare a b) [ Ordering.lt ↦ true | _ ↦ false ]

abbrev pub leb : ℕ → ℕ → Bool
leb a b = elim (compare a b) [ Ordering.gt ↦ false | _ ↦ true ]

infix 50 ◌==◌
abbrev pub ◌==◌ : ℕ → ℕ → Bool
a == b = elim (compare a b) [ Ordering.eq ↦ true | _ ↦ false ]

infix 1 if◌then◌else◌
abbrev pub if◌then◌else◌ {ℓ} : {A : Type ℓ} → Bool → A → A → A
if true then x else y = x
if false then x else y = y

pub ltb→lt : (a b : ℕ) → ltb a b ≡ true → a < b
ltb→lt a b h = ground arith

pub ltb→le : (a b : ℕ) → ltb a b ≡ false → b ≤ a
ltb→le a b h = ground arith

pub lt→ltb : (a b : ℕ) → a < b → ltb a b ≡ true
lt→ltb a b h = ground arith

pub le→ltb : (a b : ℕ) → b ≤ a → ltb a b ≡ false
le→ltb a b h = ground arith

pub leb→le : (a b : ℕ) → leb a b ≡ true → a ≤ b
leb→le a b h = ground arith

pub le→leb : (a b : ℕ) → a ≤ b → leb a b ≡ true
le→leb a b h = ground arith

pub ==_iff : (a b : ℕ) → ((a == b) ≡ true) ↔ (a ≡ b)
==_iff a b = ground arith

pub ruleset tests = (arith, ltb→lt, ltb→le, lt→ltb, le→ltb)

pub Bool-cases : (b : Bool) → (b ≡ true) ⊎ (b ≡ false)
Bool-cases true = inl refl
Bool-cases false = inr refl

pub Option-cases {ℓ} : {A : Type ℓ} (o : Option A) → (o ≡ none) ⊎ ((a : A) × (o ≡ some a))
Option-cases none = inl refl
Option-cases (some a) = inr (a, refl)

-- `==` of two bytes objects, or of two texts as lists of code points.
infix 50 ◌===◌
unfoldable pub ◌===◌ : List ℕ → List ℕ → Bool
[] === [] = true
[] === (y ∷ ys) = false
(x ∷ xs) === [] = false
(x ∷ xs) === (y ∷ ys) = x == y && xs === ys

pub ===→eq : (xs ys : List ℕ) → (xs === ys) ≡ true → xs ≡ ys
unfolding ◌===◌
===→eq [] [] h = refl
===→eq [] (y ∷ ys) h = cc
===→eq (x ∷ xs) [] h = cc
===→eq (x ∷ xs) (y ∷ ys) h = ground (arith, ===→eq xs ys)

pub ===_refl : (xs : List ℕ) → (xs === xs) ≡ true
unfolding ◌===◌
===_refl [] = refl
===_refl (x ∷ xs) = ground (arith, ===_refl xs)

pub ===_sym : (xs ys : List ℕ) → (xs === ys) ≡ (ys === xs)
unfolding ◌===◌
===_sym [] [] = refl
===_sym [] (y ∷ ys) = refl
===_sym (x ∷ xs) [] = refl
===_sym (x ∷ xs) (y ∷ ys) = ground (arith, ===_sym xs ys)

pub ===_iff : (xs ys : List ℕ) → ((xs === ys) ≡ true) ↔ (xs ≡ ys)
===_iff xs ys = (===→eq xs ys, λ e. rw e (===_refl ys))

pub ===_of_ne : (xs ys : List ℕ) → xs ≢ ys → (xs === ys) ≡ false
===_of_ne xs ys h = elim (Bool-cases (xs === ys)) [
  | inl e ↦ absurd (h (===→eq xs ys e))
  | inr e ↦ e
]

-- What holds of both branches holds of the conditional.
pub if_both {ℓ κ} :
    {A : Type ℓ} (P : A → Type κ) (b : Bool) (x y : A) → P x → P y → P (if b then x else y)
if_both P true x y px py = px
if_both P false x y px py = py
