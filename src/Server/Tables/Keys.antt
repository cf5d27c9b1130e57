-- ===== src/Server/Tables/Keys.antt =====
-- Primary keys: no two rows of a table have the same key, and every statement keeps that.
use crypto_project.Base.{
  Bool, false, List, [], ◌∷◌, ◌++◌, Bool-cases, All, inl, inr, ◌≡◌, refl, ap, ◌∙◌, arith,
}
use crypto_project.Server.Tables.{any, update_where, remove_where}

module _ {R : Type 0} where
  -- No row after a row has its key.
  unfoldable pub Distinct : (R → R → Bool) → List R → Type 0
  Distinct same [] = Unit {0}
  Distinct same (x ∷ xs) = (any (same x) xs ≡ false) × Distinct same xs

  any-append_one :
      (test : R → Bool) (xs : List R) (x : R)
      → any test xs ≡ false
      → test x ≡ false
      → any test (xs ++ (x ∷ [])) ≡ false
  unfolding any
  any-append_one test [] x h e = rw e
  any-append_one test (y ∷ ys) x h e = ground (arith, any-append_one test ys x)

  any-remove_where :
      (test drop : R → Bool) (xs : List R)
      → any test xs ≡ false
      → any test (remove_where drop xs) ≡ false
  unfolding any remove_where
  any-remove_where test drop [] h = refl
  any-remove_where test drop (y ∷ ys) h = ground (arith, any-remove_where test drop ys)

  pub any-removed : (test : R → Bool) (xs : List R) → any test (remove_where test xs) ≡ false
  unfolding any remove_where
  any-removed test [] = refl
  any-removed test (y ∷ ys) = ground (arith, any-removed test ys)

  -- Where a test does not see what `f` changes, an update does not change its answer.
  any-update_where :
      (test hit : R → Bool) (f : R → R) (xs : List R)
      → ((x : R) → test (f x) ≡ test x)
      → any test (update_where hit f xs) ≡ any test xs
  unfolding any update_where
  any-update_where test hit f [] h = refl
  any-update_where test hit f (y ∷ ys) h = ground (arith, any-update_where test hit f ys h, h y)

  pub append-Distinct :
      (same : R → R → Bool) (symmetric : (x y : R) → same x y ≡ same y x) (xs : List R) (x : R)
      → Distinct same xs
      → any (same x) xs ≡ false
      → Distinct same (xs ++ (x ∷ []))
  unfolding Distinct any
  append-Distinct same symmetric [] x h e = (refl, tt)
  append-Distinct same symmetric (y ∷ ys) x h e = (
    any-append_one (same y) ys x h.0 (ground (arith, symmetric x y)),
    append-Distinct same symmetric ys x h.1 (ground arith),
  )

  pub remove_where-Distinct :
      (same : R → R → Bool) (drop : R → Bool) (xs : List R)
      → Distinct same xs
      → Distinct same (remove_where drop xs)
  unfolding Distinct remove_where
  remove_where-Distinct same drop [] h = tt
  remove_where-Distinct same drop (y ∷ ys) h = elim (Bool-cases (drop y)) [
    | inl t ↦ rw t (remove_where-Distinct same drop ys h.1)
    | inr f ↦ rw f ((any-remove_where (same y) drop ys h.0, remove_where-Distinct same drop ys h.1))
  ]

  pub update_where-Distinct :
      (same : R → R → Bool) (hit : R → Bool) (f : R → R) (xs : List R)
      → ((x y : R) → same (f x) y ≡ same x y)
      → ((x y : R) → same x (f y) ≡ same x y)
      → Distinct same xs
      → Distinct same (update_where hit f xs)
  unfolding Distinct update_where
  update_where-Distinct same hit f [] left right h = tt
  update_where-Distinct same hit f (y ∷ ys) left right h =
      let rest = update_where-Distinct same hit f ys left right h.1 in
      elim (Bool-cases (hit y)) [
        | inl t ↦
            rw t
              ((any-update_where (same (f y)) hit f ys (right (f y)) ∙ any-same y ys ∙ h.0, rest))
        | inr n ↦ rw n ((any-update_where (same y) hit f ys (right y) ∙ h.0, rest))
      ]
    where
      any-same : (y : R) (zs : List R) → any (same (f y)) zs ≡ any (same y) zs
      any-same y zs = ap (λ t. any t zs) (λ i z. left y z i)

  pub All-append_one :
      (P : R → Type 0) (xs : List R) (x : R) → All P xs → P x → All P (xs ++ (x ∷ []))
  All-append_one P [] x h p = (p, tt)
  All-append_one P (y ∷ ys) x h p = (h.0, All-append_one P ys x h.1 p)

  pub All-update_where :
      (P : R → Type 0) (hit : R → Bool) (f : R → R) (xs : List R)
      → ((x : R) → P (f x))
      → All P xs
      → All P (update_where hit f xs)
  unfolding update_where
  All-update_where P hit f [] h e = tt
  All-update_where P hit f (y ∷ ys) h e =
      let rest = All-update_where P hit f ys h e.1 in
      elim (Bool-cases (hit y)) [ inl t ↦ rw t ((h y, rest)) | inr n ↦ rw n ((e.0, rest)) ]
