-- ===== src/Errors.antt =====
-- Domain errors (backend/src/homeflow/errors.py), and what a call returns or raises.
use homeflow.Base.{String, Option, none, some, Bool, true, false, ◌≡◌, refl, ◌⊎◌, inl, inr, arith}

-- One constructor for each class below `HomeFlowError`; `unexpected` is any other exception.
pub data Error : Type 0 where
  unauthenticated forbidden action_authorization_required device_not_found : Error
  command_not_found schedule_not_found capability_not_supported invalid_parameters : Error
  parameter_out_of_range device_unavailable rate_limited unexpected : Error

-- The class attribute `problem_type`; an exception outside the hierarchy has none.
unfoldable pub problem_type : Error → Option String
problem_type Error.unauthenticated = some "unauthenticated"
problem_type Error.forbidden = some "forbidden"
problem_type Error.action_authorization_required = some "action_authorization_required"
problem_type Error.device_not_found = some "device_not_found"
problem_type Error.command_not_found = some "command_not_found"
problem_type Error.schedule_not_found = some "schedule_not_found"
problem_type Error.capability_not_supported = some "capability_not_supported"
problem_type Error.invalid_parameters = some "invalid_parameters"
problem_type Error.parameter_out_of_range = some "parameter_out_of_range"
problem_type Error.device_unavailable = some "device_unavailable"
problem_type Error.rate_limited = some "rate_limited"
problem_type Error.unexpected = none

pub data Result {ℓ} (A : Type ℓ) : Type ℓ where
  ok : A → Result A
  err : Error → Result A

-- A method of a service over the state `S`: state and exceptions. What was written before a raise
-- stays written.
abbrev pub Method : Type 0 → Type 0 → Type 0
Method S A = S → Result A × S

module _ {S A : Type 0} where
  abbrev pub pure : A → Method S A
  pure a s = (ok a, s)

  abbrev pub raise : Error → Method S A
  raise e s = (err e, s)

  abbrev pub gets : (S → A) → Method S A
  gets f s = (ok (f s), s)

  abbrev pub or_raise : Option A → Error → Method S A
  or_raise none e s = (err e, s)
  or_raise (some a) e s = (ok a, s)

module _ {S : Type 0} where
  abbrev pub modify : (S → S) → Method S (Unit {0})
  modify f s = (ok tt, f s)

  -- `if test: raise e`
  abbrev pub raise_if : Bool → Error → Method S (Unit {0})
  raise_if true e s = (err e, s)
  raise_if false e s = (ok tt, s)

infixl 5 ◌>>=◌ ◌>>◌
abbrev pub ◌>>=◌ : {S A B : Type 0} → Method S A → (A → Method S B) → Method S B
◌>>=◌ m f s = let (r, s') = m s in elim r [ ok a ↦ f a s' | err e ↦ (err e, s') ]

abbrev pub ◌>>◌ : {S A B : Type 0} → Method S A → Method S B → Method S B
m >> k = m >>= λ _. k

-- A step that has returned hands its value and its state on.
pub bind_ok :
    {S A B : Type 0} (m : Method S A) (f : A → Method S B) (s : S) {a : A}
    → (m s).0 ≡ ok a
    → (m >>= f) s ≡ f a (m s).1
bind_ok m f s e = ground arith

-- A step that has raised ends the chain.
pub bind_err :
    {S A B : Type 0} (m : Method S A) (f : A → Method S B) (s : S) {e : Error}
    → (m s).0 ≡ err e
    → (m >>= f) s ≡ (err e, (m s).1)
bind_err m f s h = ground arith

-- To split on what a call returned, and keep the equation.
pub Result-cases {ℓ} :
    {A : Type ℓ} (r : Result A) → ((a : A) × (r ≡ ok a)) ⊎ ((e : Error) × (r ≡ err e))
Result-cases (ok a) = inl (a, refl)
Result-cases (err e) = inr (e, refl)
