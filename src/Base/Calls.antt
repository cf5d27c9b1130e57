-- ===== src/Base/Calls.antt =====
-- What a Python call does: it returns a value, or it raises. The texts of exceptions are not
-- kept, only their classes. `unfinished` is no exception of Python's: it is where the model stops in
-- a loop that draws random numbers and has not ended with the draws or the rounds it was given.
use mathlib.Core.Path.{◌≡◌, refl}
use mathlib.Core.Bool.{Bool, true, false}
use mathlib.Core.Option.{Option, none, some}
use crypto_project.Base.Tests.{if◌then◌else◌}

pub data Exc : Type 0 where
  value_error type_error key_error index_error overflow_error runtime_error assertion_error
        connection_error os_error keystore_failure client_error unfinished :
      Exc

pub data Outcome {ℓ} (A : Type ℓ) : Type ℓ where
  raise : Exc → Outcome A
  ok : A → Outcome A

-- The rest of the code runs on the value, or the exception goes on.
infixl 5 ◌>>=◌
abbrev pub ◌>>=◌ {ℓ ℓ'} : {A : Type ℓ} → {B : Type ℓ'} → Outcome A → (A → Outcome B) → Outcome B
raise exc >>= k = raise exc
ok value >>= k = k value

-- `if not test: raise e`
abbrev pub require : Bool → Exc → Outcome (Unit {0})
require false exc = raise exc
require true exc = ok tt

-- Inversion of a call that returned.
pub >>=-eq-ok {ℓ ℓ'} :
    {A : Type ℓ} {B : Type ℓ'} (m : Outcome A) (k : A → Outcome B) {result : B}
    → (m >>= k) ≡ ok result
    → (value : A) × (m ≡ ok value) × (k value ≡ ok result)
>>=-eq-ok (raise exc) k h = cc
>>=-eq-ok (ok value) k h = (value, refl, h)

infixl 5 ◌>>◌
abbrev pub ◌>>◌ {ℓ} : {A : Type ℓ} → Outcome (Unit {0}) → Outcome A → Outcome A
first >> second = first >>= λ _. second

-- What comes after a step that returned nothing.
pub >>-eq-ok {ℓ} :
    {B : Type ℓ} (m : Outcome (Unit {0})) (k : Outcome B) {b : B} → (m >> k) ≡ ok b → k ≡ ok b
>>-eq-ok (ok u) k h = h
>>-eq-ok (raise e) k h = cc

-- A test that passed.
pub require-eq-ok : (test : Bool) (e : Exc) {u : Unit {0}} → require test e ≡ ok u → test ≡ true
require-eq-ok true e h = refl
require-eq-ok false e h = cc

pub if-eq-ok {ℓ} :
    {A : Type ℓ} (test : Bool) (e : Exc) (a : A) {b : A}
    → (if test then raise e else ok a) ≡ ok b
    → (test ≡ false) × (a ≡ b)
if-eq-ok true e a h = cc
if-eq-ok false e a h = (refl, cc)

pub if-eq-ok_then {ℓ} :
    {A : Type ℓ} (test : Bool) (e : Exc) (a : A) {b : A}
    → (if test then ok a else raise e) ≡ ok b
    → (test ≡ true) × (a ≡ b)
if-eq-ok_then true e a h = (refl, cc)
if-eq-ok_then false e a h = cc

pub ok-injective {ℓ} : {A : Type ℓ} {a b : A} → ok a ≡ ok b → a ≡ b
ok-injective h = cc h

-- The result of such a loop, for what comes after it.
abbrev pub finished {ℓ} : {A : Type ℓ} → Option A → Outcome A
finished none = raise unfinished
finished (some a) = ok a
