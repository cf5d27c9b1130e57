-- ===== src/Formats/Codec/Pairs.antt =====
-- Two codecs one after the other.
use mathlib.Core.Path.{subst, fun_ext}
use crypto_project.Base.{
  ℕ, ◌+◌, List, [], ◌∷◌, ◌++◌, length, append_assoc, Outcome, ok, raise, >>=-eq-ok, ◌≡◌, refl, sym,
  ap, ap₂, ◌∙◌,
}
use crypto_project.Base as Base
use crypto_project.Bytes.{IsBytes}
use crypto_project.Formats.Reader.{Reader, Read, ◌>>=◌, pure}
use crypto_project.Formats.Codec.{At, At-advance, advance, IsCodec, IsBytes-split}
use crypto_project.Formats.Codec.Strings.{bind_ok, bind_inv, advance-advance}

pub bind_assoc :
    {A B C : Type 0} (m : Read A) (f : A → Read B) (g : B → Read C)
    → ((m >>= f) >>= g) ≡ (m >>= λ a. f a >>= g)
unfolding ◌>>=◌
bind_assoc m f g = fun_ext λ r. go (m r) f g
  where
    go :
        {A B C : Type 0} (o : Outcome (A × Reader)) (f : A → Read B) (g : B → Read C)
        → Base.◌>>=◌ (Base.◌>>=◌ o (λ (a, r'). f a r')) (λ (b, r'). g b r')
          ≡ Base.◌>>=◌ o (λ (a, r'). Base.◌>>=◌ (f a r') (λ (b, r''). g b r''))
    go (ok x) f g = refl
    go (raise e) f g = refl

pub pure-bind : {A B : Type 0} (a : A) (f : A → Read B) → (pure a >>= f) ≡ f a
unfolding ◌>>=◌ pure
pure-bind a f = refl

module _ {A B : Type 0} where
  unfoldable pub pack_pair :
      (A → Outcome (List ℕ)) → (B → Outcome (List ℕ)) → A × B → Outcome (List ℕ)
  pack_pair f g (a, b) = Base.◌>>=◌ (f a) (λ x. Base.◌>>=◌ (g b) (λ y. ok (x ++ y)))

  pub pack_pair_ok :
      (f : A → Outcome (List ℕ)) (g : B → Outcome (List ℕ)) (a : A) (b : B) (x y : List ℕ)
      → f a ≡ ok x
      → g b ≡ ok y
      → pack_pair f g (a, b) ≡ ok (x ++ y)
  unfolding pack_pair
  pack_pair_ok f g a b x y e h = rw (e, h)

  pub pack_pair_inv :
      (f : A → Outcome (List ℕ)) (g : B → Outcome (List ℕ)) (a : A) (b : B) {w : List ℕ}
      → pack_pair f g (a, b) ≡ ok w
      → (x : List ℕ) × (y : List ℕ) × (f a ≡ ok x) × (g b ≡ ok y) × (x ++ y ≡ w)
  unfolding pack_pair
  pack_pair_inv f g a b h =
      let (x, px, rest) = >>=-eq-ok (f a) _ h in
      let (y, py, last) = >>=-eq-ok (g b) _ rest in (x, y, px, py, cc last)

  unfoldable pub read_pair : Read A → Read B → Read (A × B)
  read_pair p q = do a ← p; b ← q; pure (a, b)

module _ {A B : Type 0} {f : A → Outcome (List ℕ)} {g : B → Outcome (List ℕ)} {p : Read A}
    {q : Read B} (one : IsCodec f p) (two : IsCodec g q) where
  pair_forward :
      (v : A × B) (w t : List ℕ) (r : Reader)
      → pack_pair f g v ≡ ok w
      → At r (w ++ t)
      → read_pair p q r ≡ ok (v, advance r (length w))
  unfolding pack_pair read_pair
  pair_forward (a, b) w t r packed h =
      let (x, px, rest) = >>=-eq-ok (f a) _ packed in
      let (y, py, last) = >>=-eq-ok (g b) _ rest in
      let split : x ++ y ≡ w = cc last in
      let at0 : At r (x ++ (y ++ t)) =
        subst (At r) (ap (λ z. z ++ t) (sym split) ∙ append_assoc x y t) h in
      bind_ok p _ r (one.forward a x (y ++ t) r px at0)
      ∙ bind_ok q _ _ (two.forward b y t _ py (At-advance r x (y ++ t) at0))
      ∙ unfold pure in
        ap (λ z. ok ((a, b), z)) (advance-advance r x y ∙ ap (λ z. advance r (length z)) split)

  pair_backward :
      (v : A × B) (s : List ℕ) (r r' : Reader)
      → IsBytes s
      → At r s
      → read_pair p q r ≡ ok (v, r')
      → (w : List ℕ) × (t : List ℕ) × (pack_pair f g v ≡ ok w)
        × (s ≡ w ++ t)
        × (r' ≡ advance r (length w))
  unfolding pack_pair read_pair pure
  pair_backward (a, b) s r r' bytes h e =
      let (a', r1, e1, rest) = bind_inv p _ r e in
      let (b', r2, e2, last) = bind_inv q _ r1 rest in
      let sa : a' ≡ a = cc last in
      let sb : b' ≡ b = cc last in
      let sr : r2 ≡ r' = cc last in
      let (x, t, px, split, moved) = one.backward a' s r r1 bytes h e1 in
      let at1 : At r1 t =
        subst (λ z. At z t) (sym moved) (At-advance r x t (subst (At r) split h)) in
      let (y, t', py, split', moved') =
        two.backward b' t r1 r2 (IsBytes-split x t (subst IsBytes split bytes)).1 at1 e2 in
      (
        x ++ y,
        t',
        pack_pair_ok f g a b x y (ap f (sym sa) ∙ px) (ap g (sym sb) ∙ py),
        split ∙ ap (λ z. x ++ z) split' ∙ sym (append_assoc x y t'),
        sym sr ∙ moved' ∙ ap (λ z. advance z (length y)) moved ∙ advance-advance r x y,
      )

  pub pair-IsCodec : IsCodec (pack_pair f g) (read_pair p q)
  pair-IsCodec = record { forward = pair_forward; backward = pair_backward }
