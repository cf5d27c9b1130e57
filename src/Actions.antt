-- ===== src/Actions.antt =====
-- Calls that change the state of an object and may raise, in the server and in the client. What was
-- written before an exception stays written, so the state comes back beside the exception too.
use crypto_project.Base.{Outcome, ok, raise, ◌≡◌, refl, ap}

abbrev pub Action : Type 0 → Type 0 → Type 0
Action S A = S → Outcome A × S

module _ {S A B : Type 0} where
  abbrev pub then_run : Outcome A × S → (A → Action S B) → Outcome B × S
  then_run (ok a, s) k = k a s
  then_run (raise e, s) k = (raise e, s)

  infixl 5 ◌>>=◌
  unfoldable pub ◌>>=◌ : Action S A → (A → Action S B) → Action S B
  ◌>>=◌ m k s = then_run (m s) k

module _ {S B : Type 0} where
  infixl 5 ◌>>◌
  abbrev pub ◌>>◌ : Action S (Unit {0}) → Action S B → Action S B
  m >> k = m >>= λ _. k

module _ {S A : Type 0} where
  unfoldable pub pure : A → Action S A
  pure a s = (ok a, s)

  unfoldable pub lift : Outcome A → Action S A
  lift m s = (m, s)

  -- A step that changes nothing, on the state.
  unfoldable pub gets : (S → Outcome A) → Action S A
  gets f s = (f s, s)

-- What the first step of a call that returned did, and what was left to the rest.
module _ {S A B : Type 0} where
  pub bind_inv :
      (m : Action S A) (k : A → Action S B) (b : B) (s t : S)
      → (m >>= k) s ≡ (ok b, t)
      → (a : A) × (u : S) × (m s ≡ (ok a, u)) × (k a u ≡ (ok b, t))
  unfolding ◌>>=◌
  bind_inv m k b s t h = go (m s) refl h
    where
      go :
          (r : Outcome A × S)
          → m s ≡ r
          → then_run r k ≡ (ok b, t)
          → (a : A) × (u : S) × (m s ≡ (ok a, u)) × (k a u ≡ (ok b, t))
      go (ok a, u) e h = (a, u, e, h)
      go (raise x, u) e h = absurd (cc (ap (λ y. y.0) h))

  pub lift_inv :
      (m : Outcome A) (k : A → Action S B) (b : B) (s t : S)
      → (lift m >>= k) s ≡ (ok b, t)
      → (a : A) × (m ≡ ok a) × (k a s ≡ (ok b, t))
  unfolding ◌>>=◌ lift
  lift_inv (ok a) k b s t h = (a, refl, h)
  lift_inv (raise x) k b s t h = absurd (cc (ap (λ y. y.0) h))

  pub gets_inv :
      (f : S → Outcome A) (k : A → Action S B) (b : B) (s t : S)
      → (gets f >>= k) s ≡ (ok b, t)
      → (a : A) × (f s ≡ ok a) × (k a s ≡ (ok b, t))
  unfolding ◌>>=◌ gets
  gets_inv f k b s t h = go (f s) refl h
    where
      go :
          (r : Outcome A)
          → f s ≡ r
          → then_run (r, s) k ≡ (ok b, t)
          → (a : A) × (f s ≡ ok a) × (k a s ≡ (ok b, t))
      go (ok a) e h = (a, e, h)
      go (raise x) e h = absurd (cc (ap (λ y. y.0) h))

-- What holds of the states after the first step and after the rest, whether they return or raise.
pub bind_both {κ} :
    {S A B : Type 0} (P : S → Type κ) (m : Action S A) (k : A → Action S B) (s : S)
    → P (m s).1
    → ((a : A) → (m s).0 ≡ ok a → P (k a (m s).1).1)
    → P ((m >>= k) s).1
unfolding ◌>>=◌
bind_both {S} {A} {B} P m k s first rest = go (m s) first rest
  where
    go : (r : Outcome A × S) → P r.1 → ((a : A) → r.0 ≡ ok a → P (k a r.1).1) → P (then_run r k).1
    go (ok a, t) first rest = rest a refl
    go (raise e, t) first rest = first

pub gets_both {κ} :
    {S A B : Type 0} (P : S → Type κ) (f : S → Outcome A) (k : A → Action S B) (s : S)
    → P s
    → ((a : A) → f s ≡ ok a → P (k a s).1)
    → P ((gets f >>= k) s).1
unfolding gets
gets_both P f k s first rest = bind_both P (gets f) k s first rest

pub lift_both {κ} :
    {S A B : Type 0} (P : S → Type κ) (m : Outcome A) (k : A → Action S B) (s : S)
    → P s
    → ((a : A) → m ≡ ok a → P (k a s).1)
    → P ((lift m >>= k) s).1
unfolding lift
lift_both P m k s first rest = bind_both P (lift m) k s first rest

-- A value that is given after a step changes no state.
pub bind-pure_state :
    {S A B : Type 0} (m : Action S A) (b : B) (s : S) → ((m >>= λ _. pure b) s).1 ≡ (m s).1
unfolding ◌>>=◌ pure
bind-pure_state {S} {A} {B} m b s = go (m s)
  where
    go : (r : Outcome A × S) → (then_run r (λ _. pure b)).1 ≡ r.1
    go (ok a, t) = refl
    go (raise e, t) = refl

-- A step that gives its value, before the rest.
pub gets_ok :
    {S A B : Type 0} (f : S → Outcome A) (k : A → Action S B) (s : S) (a : A)
    → f s ≡ ok a
    → (gets f >>= k) s ≡ k a s
unfolding gets ◌>>=◌
gets_ok f k s a h = rw h refl

pub lift_ok :
    {S A B : Type 0} (m : Outcome A) (k : A → Action S B) (s : S) (a : A)
    → m ≡ ok a
    → (lift m >>= k) s ≡ k a s
unfolding lift ◌>>=◌
lift_ok m k s a h = rw h refl

pub bind_ok :
    {S A B : Type 0} (m : Action S A) (k : A → Action S B) (s t : S) (a : A)
    → m s ≡ (ok a, t)
    → (m >>= k) s ≡ k a t
unfolding ◌>>=◌
bind_ok m k s t a h = rw h refl
