-- ===== src/Integrations/Flow.antt =====
-- How the calls of an adapter end (backend/src/homeflow/integrations/base/errors.py), and chains of
-- them over the adapter's state.
use homeflow.Base.{Option, none, some}

-- The exceptions of the adapters: `ProviderUnavailableError`, `ControllerMisbehaved` below it,
-- `ProtocolError`, `ProviderRejectedError`, the `ValidationError` of a state out of its bounds, and a
-- `TimeoutError` that is not handled yet.
pub data Failure : Type 0 where
  unavailable misbehaved protocol_error rejected validation_error timed_out : Failure

pub data Outcome (A : Type 0) : Type 0 where
  returned : A → Outcome A
  failed : Failure → Outcome A

abbrev pub Flow : Type 0 → Type 0 → Type 0
Flow S A = S → Outcome A × S

abbrev pub returns : {S A : Type 0} → A → Flow S A
returns a s = (returned a, s)

abbrev pub fails : {S A : Type 0} → Failure → Flow S A
fails e s = (failed e, s)

-- The rest of a chain, by how its first step ended.
abbrev pub continue_with : {S A B : Type 0} → (A → Flow S B) → Outcome A × S → Outcome B × S
continue_with f (returned a, s) = f a s
continue_with f (failed e, s) = (failed e, s)

infixl 5 ◌>>=◌
abbrev pub ◌>>=◌ : {S A B : Type 0} → Flow S A → (A → Flow S B) → Flow S B
◌>>=◌ m f s = continue_with f (m s)

abbrev pub or_fail : {S A : Type 0} → Option A → Failure → Flow S A
or_fail none e s = (failed e, s)
or_fail (some a) e s = (returned a, s)
