-- ===== src/Bestway/Provider/Confirmed.antt =====
-- What a command that comes back as applied has seen
-- (backend/src/homeflow/integrations/bestway/provider.py).
use homeflow.Base.{
  ℕ, zero, suc, ◌≡◌, refl, ◌∙◌, subst, Bool, true, false, Option, none, some, List, if◌then◌else◌,
  ◌⊎◌, inl, inr,
}
use homeflow.Integrations.Flow.{Failure, Outcome, returned, failed, continue_with, ◌>>=◌, or_fail}
use homeflow.Bestway.Client.{Client, send_control}
use homeflow.Bestway.Datapoints.{Datapoint, Value, decode, encode_control}
use homeflow.Bestway.Provider.{
  Adapter, Setup, Work, on_client, action_datapoint, require_known_device, read_with_retry, accept,
  read_payload, value_for, is_value, read_point, snapshot,
}
use homeflow.Bestway.Provider.Execution.{look, confirm, judge, write_and_confirm, execute}
use homeflow.Integrations.{
  CommandOutcome, ProviderCommand, ProviderCommandResult, ProviderDeviceRef,
}

-- What holds of the result of a call that returns.
abbrev Holds : {A : Type 0} → (A → Adapter → Type 0) → Outcome A × Adapter → Type 0
Holds P (returned a, q) = P a q
Holds P (failed e, q) = Unit

bind-Holds :
    {A B : Type 0} (Q : A → Adapter → Type 0) (P : B → Adapter → Type 0) (f : A → Work B)
    (x : Outcome A × Adapter)
    → Holds Q x
    → ((a : A) (q : Adapter) → Q a q → Holds P (f a q))
    → Holds P (continue_with f x)
bind-Holds Q P f (returned a, q) h r = r a q h
bind-Holds Q P f (failed e, q) h r = tt

any_step :
    {A B : Type 0} (P : B → Adapter → Type 0) (f : A → Work B) (x : Outcome A × Adapter)
    → ((a : A) (q : Adapter) → Holds P (f a q))
    → Holds P (continue_with f x)
any_step P f (returned a, q) r = r a q
any_step P f (failed e, q) r = tt

or_fail-Holds :
    {A B : Type 0} (P : B → Adapter → Type 0) (f : A → Work B) (o : Option A) (e : Failure)
    (p : Adapter)
    → ((a : A) → o ≡ some a → Holds P (f a p))
    → Holds P ((or_fail o e >>= f) p)
or_fail-Holds P f none e p r = tt
or_fail-Holds P f (some a) e p r = r a refl

-- A read that returns is the last one, and one that fails leaves the last one.
abbrev HasRead : Option (List ℕ) → Outcome (List ℕ) × Adapter → Type 0
HasRead before (returned payload, q) = q.last_payload ≡ some payload
HasRead before (failed e, q) = q.last_payload ≡ before

accept-HasRead :
    (payload : List ℕ) (o : Option (List (Datapoint × Value))) (p : Adapter)
    → HasRead p.last_payload (accept payload o p)
accept-HasRead payload none p = refl
accept-HasRead payload (some _) p = refl

read_payload-HasRead : (s : Setup) (p : Adapter) → HasRead p.last_payload (read_payload s p)
unfolding read_payload
read_payload-HasRead s p = go (read_with_retry p.client)
  where
    go :
        (x : Outcome (List ℕ) × Client)
        → HasRead p.last_payload (
            continue_with
              (λ payload. accept payload (decode s.profile payload))
              (x.0, record p { client = x.1 }))
    go (returned payload, c) =
        accept-HasRead payload (decode s.profile payload) (record p { client = c })
    go (failed e, c) = refl

-- The block that a confirmation ends with was read last.
abbrev IsLatest : Option (List ℕ) → Adapter → Type 0
IsLatest o q = (o ≡ none) ⊎ (q.last_payload ≡ o)

look-Holds :
    (s : Setup) (d : Datapoint) (v : Value) (again : Option (List ℕ) → Work (Option (List ℕ)))
    (latest : Option (List ℕ)) (before : Option (List ℕ)) (x : Outcome (List ℕ) × Adapter)
    → ((o : Option (List ℕ)) (q : Adapter) → IsLatest o q → Holds IsLatest (again o q))
    → (latest ≡ none) ⊎ (before ≡ latest)
    → HasRead before x
    → Holds IsLatest (look s d v again latest x)
look-Holds s d v again latest before (returned payload, q) r l h =
    go (is_value v (read_point s.profile payload d))
  where
    go :
        (b : Bool)
        → Holds IsLatest (
            if◌then◌else◌ {A = Outcome (Option (List ℕ)) × Adapter} b
              (returned (some payload), q)
              (again (some payload) q))
    go true = inr h
    go false = r (some payload) q (inr h)
look-Holds s d v again latest before (failed Failure.unavailable, q) r (inl n) h =
    r latest q (inl n)
look-Holds s d v again latest before (failed Failure.unavailable, q) r (inr l) h =
    r latest q (inr (h ∙ l))
look-Holds s d v again latest before (failed Failure.misbehaved, q) r (inl n) h = r latest q (inl n)
look-Holds s d v again latest before (failed Failure.misbehaved, q) r (inr l) h =
    r latest q (inr (h ∙ l))
look-Holds s d v again latest before (failed Failure.protocol_error, q) r l h = tt
look-Holds s d v again latest before (failed Failure.rejected, q) r l h = tt
look-Holds s d v again latest before (failed Failure.validation_error, q) r l h = tt
look-Holds s d v again latest before (failed Failure.timed_out, q) r l h = tt

confirm-Holds :
    (s : Setup) (d : Datapoint) (v : Value) (attempts : ℕ) (latest : Option (List ℕ)) (p : Adapter)
    → IsLatest latest p
    → Holds IsLatest (confirm s d v attempts latest p)
unfolding confirm
confirm-Holds s d v zero latest p l = l
confirm-Holds s d v (suc attempts) latest p l =
    look-Holds s d v (confirm s d v attempts) latest p.last_payload (read_payload s p)
      (confirm-Holds s d v attempts) l (read_payload-HasRead s p)

-- An applied command: the datapoint of its action has, in the block that the adapter read last, the
-- value that the parameters stand for, and the reported state is the one of that block.
pub record IsConfirmed (s : Setup) (command : ProviderCommand) (q : Adapter)
    (r : ProviderCommandResult) : Type 0 where
  pub datapoint : Datapoint
  pub value : Value
  pub base : List ℕ
  pub observed : List ℕ
  pub of_action : action_datapoint command.action ≡ some datapoint
  pub of_params : value_for s.profile command.params base ≡ some value
  pub is_last : q.last_payload ≡ some observed
  pub is_read : is_value value (read_point s.profile observed datapoint) ≡ true
  pub is_state : r.state ≡ some (snapshot s observed q)

abbrev Honest : Setup → ProviderCommand → ProviderCommandResult → Adapter → Type 0
Honest s command r q = r.outcome ≡ CommandOutcome.applied → IsConfirmed s command q r

judge-Honest :
    (s : Setup) (command : ProviderCommand) (d : Datapoint) (v : Value) (base : List ℕ)
    → action_datapoint command.action ≡ some d
    → value_for s.profile command.params base ≡ some v
    → (o : Option (List ℕ)) (q : Adapter) → IsLatest o q
    → Honest s command (judge s d v o q) q
judge-Honest s command d v base a w none q l h = cc
judge-Honest s command d v base a w (some observed) q (inl n) h = cc
judge-Honest s command d v base a w (some observed) q (inr l) h =
    go (is_value v (read_point s.profile observed d)) refl h
  where
    seen : (b : Bool) → ProviderCommandResult
    seen b =
        if b
        then record {
          outcome = CommandOutcome.applied;
          state = some (snapshot s observed q);
          failure_code = none;
        }
        else record {
          outcome = CommandOutcome.unknown;
          state = some (snapshot s observed q);
          failure_code = some "not_confirmed_by_device";
        }

    go :
        (b : Bool)
        → is_value v (read_point s.profile observed d) ≡ b
        → (seen b).outcome ≡ CommandOutcome.applied
        → IsConfirmed s command q (seen b)
    go true e h = record {
      datapoint = d;
      value = v;
      base = base;
      observed = observed;
      of_action = a;
      of_params = w;
      is_last = l;
      is_read = e;
      is_state = refl;
    }
    go false e h = cc

write_and_confirm-Honest :
    (s : Setup) (command : ProviderCommand) (d : Datapoint) (v : Value) (base : List ℕ)
    (control : ℕ × List ℕ) (p : Adapter)
    → action_datapoint command.action ≡ some d
    → value_for s.profile command.params base ≡ some v
    → Holds (Honest s command) (write_and_confirm s d v control p)
unfolding write_and_confirm
write_and_confirm-Honest s command d v base (attr_flags, attr_vals) p a w =
    any_step (Honest s command)
      (λ _. confirm s d v s.confirm_attempts none >>= λ observed q.
        (returned (judge s d v observed q), q))
      (on_client (send_control attr_flags attr_vals) p)
      (λ _ q.
        bind-Holds IsLatest (Honest s command)
          (λ observed q'. (returned (judge s d v observed q'), q'))
          (confirm s d v s.confirm_attempts none q)
          (confirm-Holds s d v s.confirm_attempts none q (inl refl))
          (judge-Honest s command d v base a w))

value_and_write-Honest :
    (s : Setup) (command : ProviderCommand) (d : Datapoint) (base : List ℕ) (p : Adapter)
    → action_datapoint command.action ≡ some d
    → Holds (Honest s command) (
        (or_fail (value_for s.profile command.params base) Failure.rejected >>= λ v.
        or_fail (encode_control s.profile d v base) Failure.rejected >>= write_and_confirm s d v)
          p)
value_and_write-Honest s command d base p a =
    or_fail-Holds (Honest s command)
      (λ v.
        or_fail (encode_control s.profile d v base) Failure.rejected >>= write_and_confirm s d v)
      (value_for s.profile command.params base) Failure.rejected p
      (λ v w.
        or_fail-Holds (Honest s command) (write_and_confirm s d v)
          (encode_control s.profile d v base) Failure.rejected p
          (λ control _. write_and_confirm-Honest s command d v base control p a w))

execute-Honest :
    (s : Setup) (ref : ProviderDeviceRef) (command : ProviderCommand) (p : Adapter)
    → Holds (Honest s command) (execute s ref command p)
unfolding execute
execute-Honest s ref command p =
    any_step (Honest s command)
      (λ _. or_fail (action_datapoint command.action) Failure.rejected >>= λ d.
        read_payload s >>= λ base.
        or_fail (value_for s.profile command.params base) Failure.rejected >>= λ v.
        or_fail (encode_control s.profile d v base) Failure.rejected >>= write_and_confirm s d v)
      (require_known_device s ref p)
      (λ _ q.
        or_fail-Holds (Honest s command)
          (λ d. read_payload s >>= λ base.
            or_fail (value_for s.profile command.params base) Failure.rejected >>= λ v.
            or_fail (encode_control s.profile d v base) Failure.rejected
            >>= write_and_confirm s d v)
          (action_datapoint command.action) Failure.rejected q
          (λ d a.
            any_step (Honest s command)
              (λ base. or_fail (value_for s.profile command.params base) Failure.rejected >>= λ v.
                or_fail (encode_control s.profile d v base) Failure.rejected
                >>= write_and_confirm s d v)
              (read_payload s q) (λ base q'. value_and_write-Honest s command d base q' a)))

-- When a command comes back as applied, the datapoint of its action has the value that its
-- parameters stand for in the block that the adapter read last, and the state that it reports is the
-- one of that block. The write itself is never taken for the result.
pub applied-IsConfirmed :
    (s : Setup) (ref : ProviderDeviceRef) (command : ProviderCommand) (p : Adapter)
    (r : ProviderCommandResult)
    → (execute s ref command p).0 ≡ returned r
    → r.outcome ≡ CommandOutcome.applied
    → IsConfirmed s command (execute s ref command p).1 r
applied-IsConfirmed s ref command p r e =
    let q = (execute s ref command p).1 in
    let h : Holds (Honest s command) (returned r, q) =
      subst (λ o. Holds (Honest s command) (o, q)) e (execute-Honest s ref command p) in
    h
