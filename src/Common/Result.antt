-- ===== src/Common/Result.antt =====
-- The exceptions of xdrpp/types.h as values, and what a call that may throw comes to.
use mathlib.Core.Path.{◌≡◌, refl, subst}
use mathlib.Core.Logic.{◌⊎◌, inl, inr}

-- One constructor for each exception class that is thrown while a value is archived.
pub data Error : Type 0 where
  overflow : Error
  stack_overflow : Error
  bad_message_size : Error
  bad_discriminant : Error
  should_be_zero : Error
  invariant_failed : Error

-- `fault` is an access outside the buffer, which C++ leaves undefined. `ill_typed` is no run of the
-- program: the value is not one of the C++ type that it is archived as.
pub data Res {ℓ} (A : Type ℓ) : Type ℓ where
  ok : A → Res A
  throw : Error → Res A
  fault : Res A
  ill_typed : Res A

infixl 5 ◌>>=◌
abbrev pub ◌>>=◌ {ℓ κ} : {A : Type ℓ} {B : Type κ} → Res A → (A → Res B) → Res B
ok a >>= f = f a
throw e >>= f = throw e
fault >>= f = fault
ill_typed >>= f = ill_typed

pub bind-eq-ok {ℓ κ} :
    {A : Type ℓ} {B : Type κ} (m : Res A) (f : A → Res B) {b : B}
    → (m >>= f) ≡ ok b
    → (a : A) × (m ≡ ok a) × (f a ≡ ok b)
bind-eq-ok (ok a) f h = (a, refl, h)
bind-eq-ok (throw e) f h = cc
bind-eq-ok fault f h = cc
bind-eq-ok ill_typed f h = cc

-- A call that meets no fault and whose result, if it does not throw, has the property `P`.
pub data Ensures {ℓ} {A : Type ℓ} (P : A → Type 0) : Res A → Type ℓ where
  returns : {a : A} → P a → Ensures P (ok a)
  throws : {e : Error} → Ensures P (throw e)

pub Ensures-bind {ℓ κ} :
    {A : Type ℓ} {B : Type κ} {P : A → Type 0} {Q : B → Type 0} {m : Res A} {f : A → Res B}
    → Ensures P m
    → ((a : A) → P a → Ensures Q (f a))
    → Ensures Q (m >>= f)
Ensures-bind (returns {a} h) k = k a h
Ensures-bind throws k = throws

pub Ensures-weaken {ℓ} :
    {A : Type ℓ} {P Q : A → Type 0} {m : Res A} → Ensures P m → ((a : A) → P a → Q a) → Ensures Q m
Ensures-weaken (returns {a} h) k = returns (k a h)
Ensures-weaken throws k = throws

-- A call that returns, with a result that has the property `P`.
pub data Returns {ℓ} {A : Type ℓ} (P : A → Type 0) : Res A → Type ℓ where
  gives : {a : A} → P a → Returns P (ok a)

pub Returns-bind {ℓ κ} :
    {A : Type ℓ} {B : Type κ} {P : A → Type 0} {Q : B → Type 0} {m : Res A} {f : A → Res B}
    → Returns P m
    → ((a : A) → P a → Returns Q (f a))
    → Returns Q (m >>= f)
Returns-bind (gives {a} h) k = k a h

pub Returns-ok {ℓ} :
    {A : Type ℓ} {P : A → Type 0} {m : Res A} {b : A} → Returns P m → m ≡ ok b → P b
Returns-ok {P} {b} (gives {a} h) e = subst P (cc) h

pub Returns-weaken {ℓ} :
    {A : Type ℓ} {P Q : A → Type 0} {m : Res A} → Returns P m → ((a : A) → P a → Q a) → Returns Q m
Returns-weaken (gives {a} h) k = gives (k a h)

-- A step that runs after `r`, and knows what `r` gave.
pub Returns-then :
    {A B : Type 0} {P : A → Type 0} {Q : B → Type 0} {f : A → Res B} (r : Res A)
    → Returns P r
    → ((a : A) → r ≡ ok a → P a → Returns Q (f a))
    → Returns Q (r >>= f)
Returns-then r (gives {a} p) h = h a refl p

-- To split on how a call ends, and keep the equation.
pub Ensures-cases {ℓ} :
    {A : Type ℓ} {P : A → Type 0} (m : Res A)
    → Ensures P m
    → ((a : A) × (m ≡ ok a) × P a) ⊎ ((e : Error) × (m ≡ throw e))
Ensures-cases m (returns {a} h) = inl (a, refl, h)
Ensures-cases m (throws {e}) = inr (e, refl)
