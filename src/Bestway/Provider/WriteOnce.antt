-- ===== src/Bestway/Provider/WriteOnce.antt =====
-- How often a command writes to the controller
-- (backend/src/homeflow/integrations/bestway/provider.py).
use homeflow.Base.{
  ℕ, zero, suc, ◌+◌, ◌≤◌, ◌≡◌, refl, ◌∙◌, Bool, true, false, Option, none, some, List,
  if◌then◌else◌, arith, Bool-cases, inl, inr,
}
use homeflow.Integrations.Flow.{
  Failure, Outcome, returned, failed, fails, continue_with, ◌>>=◌, or_fail,
}
use homeflow.Bestway.Client.{Client, Talk, close, connect, read_status, send_control}
use homeflow.Bestway.Client.Quiet.{
  controls, Quiet, bind-Quiet, read_status-Quiet, connect-Quiet, send_control_bounded,
}
use homeflow.Bestway.Datapoints.{
  Datapoint, DatapointProfile, Value, decode, encode_control, may_write,
}
use homeflow.Bestway.Provider.{
  Adapter, Setup, Work, on_client, action_datapoint, is_device, read_once, handle_read,
  last_attempt, read_with_retry, accept, accept_payload, read_payload, value_for, is_value,
  read_point,
}
use homeflow.Bestway.Provider.Execution.{look, confirm, judge, write_and_confirm, execute}
use homeflow.Commands.Models.{Action}
use homeflow.Integrations.{ProviderCommand, ProviderDeviceRef}

-- The control requests that the adapter has written.
abbrev pub written : Adapter → ℕ
written p = controls p.client.sent

-- A call writes at most `n` of them.
abbrev Writes : {A : Type 0} → ℕ → Work A → Type 0
Writes n m = (p : Adapter) → written (m p).1 ≤ written p + n

bind-Writes :
    {A B : Type 0} (k n : ℕ) (m : Work A) (f : A → Work B)
    → Writes k m
    → ((a : A) → Writes n (f a))
    → Writes (k + n) (m >>= f)
bind-Writes {A = A} {B = B} k n m f w r p = go (m p) (w p)
  where
    go :
        (x : Outcome A × Adapter)
        → written x.1 ≤ written p + k
        → written (continue_with f x).1 ≤ written p + (k + n)
    go (returned a, q) h = let t = r a q in omega arith
    go (failed e, q) h = omega arith

-- A first step that writes none.
after-Writes :
    {A B : Type 0} (n : ℕ) (m : Work A) (f : A → Work B)
    → Writes 0 m
    → ((a : A) → Writes n (f a))
    → Writes n (m >>= f)
after-Writes n m f w r p = let h = bind-Writes 0 n m f w r p in omega arith

read_once-Quiet : Quiet read_once
unfolding read_once
read_once-Quiet c = go c.is_connected
  where
    go :
        (b : Bool)
        → controls
            (if b then read_status c else continue_with (λ _. read_status) (connect c)).1.sent
          ≡ controls c.sent
    go true = read_status-Quiet c
    go false = bind-Quiet connect (λ _. read_status) connect-Quiet (λ _. read_status-Quiet) c

handle_read-Quiet :
    (again : Talk (List ℕ)) (x : Outcome (List ℕ) × Client) (n : ℕ)
    → Quiet again
    → controls x.1.sent ≡ n
    → controls (handle_read again x).1.sent ≡ n
unfolding close
handle_read-Quiet again (returned a, c) n q h = h
handle_read-Quiet again (failed Failure.misbehaved, c) n q h = h
handle_read-Quiet again (failed Failure.unavailable, c) n q h = q (close c) ∙ h
handle_read-Quiet again (failed Failure.protocol_error, c) n q h = h
handle_read-Quiet again (failed Failure.rejected, c) n q h = h
handle_read-Quiet again (failed Failure.validation_error, c) n q h = h
handle_read-Quiet again (failed Failure.timed_out, c) n q h = h

last_attempt-Quiet : Quiet last_attempt
last_attempt-Quiet c =
    handle_read-Quiet (fails Failure.unavailable) (read_once c) (controls c.sent) (λ c'. refl)
      (read_once-Quiet c)

read_with_retry-Quiet : Quiet read_with_retry
unfolding read_with_retry
read_with_retry-Quiet c =
    handle_read-Quiet last_attempt (read_once c) (controls c.sent) last_attempt-Quiet
      (read_once-Quiet c)

accept-Writes :
    (payload : List ℕ) (o : Option (List (Datapoint × Value))) → Writes 0 (accept payload o)
accept-Writes payload none p = omega arith
accept-Writes payload (some _) p = omega arith

-- A read writes none, a retry included.
pub read_payload-Writes : (s : Setup) → Writes 0 (read_payload s)
unfolding read_payload
read_payload-Writes s =
    bind-Writes 0 0 (on_client read_with_retry) (accept_payload s)
      (λ p. let e = read_with_retry-Quiet p.client in omega arith)
      (λ payload. accept-Writes payload (decode s.profile payload))

look-Writes :
    (s : Setup) (d : Datapoint) (v : Value) (again : Option (List ℕ) → Work (Option (List ℕ)))
    (latest : Option (List ℕ)) (n : ℕ) (x : Outcome (List ℕ) × Adapter)
    → ((o : Option (List ℕ)) → Writes 0 (again o))
    → written x.1 ≤ n
    → written (look s d v again latest x).1 ≤ n
look-Writes s d v again latest n (returned payload, p) w h =
    go (is_value v (read_point s.profile payload d))
  where
    go :
        (b : Bool)
        → written
            (if◌then◌else◌ {A = Outcome (Option (List ℕ)) × Adapter} b
              (returned (some payload), p)
              (again (some payload) p)).1
          ≤ n
    go true = h
    go false = let t = w (some payload) p in omega arith
look-Writes s d v again latest n (failed Failure.unavailable, p) w h =
    let t = w latest p in omega arith
look-Writes s d v again latest n (failed Failure.misbehaved, p) w h =
    let t = w latest p in omega arith
look-Writes s d v again latest n (failed Failure.protocol_error, p) w h = h
look-Writes s d v again latest n (failed Failure.rejected, p) w h = h
look-Writes s d v again latest n (failed Failure.validation_error, p) w h = h
look-Writes s d v again latest n (failed Failure.timed_out, p) w h = h

confirm-Writes :
    (s : Setup) (d : Datapoint) (v : Value) (attempts : ℕ) (latest : Option (List ℕ))
    → Writes 0 (confirm s d v attempts latest)
unfolding confirm
confirm-Writes s d v zero latest p = omega arith
confirm-Writes s d v (suc attempts) latest p =
    look-Writes s d v (confirm s d v attempts) latest (written p + 0) (read_payload s p)
      (confirm-Writes s d v attempts) (read_payload-Writes s p)

write_and_confirm-Writes :
    (s : Setup) (d : Datapoint) (v : Value) (control : ℕ × List ℕ)
    → Writes 1 (write_and_confirm s d v control)
unfolding write_and_confirm
write_and_confirm-Writes s d v (attr_flags, attr_vals) =
    bind-Writes 1 0 (on_client (send_control attr_flags attr_vals)) _
      (λ p. send_control_bounded attr_flags attr_vals p.client)
      (λ _.
        bind-Writes 0 0 (confirm s d v s.confirm_attempts none)
          (λ observed p. (returned (judge s d v observed p), p))
          (confirm-Writes s d v s.confirm_attempts none) (λ observed p. omega arith))

-- What a command may write at most: one control request for a datapoint of the action that is
-- released for the adapter's device, none otherwise.
abbrev pub allowance_of : DatapointProfile → Option Datapoint → ℕ
allowance_of profile none = 0
allowance_of profile (some d) = if may_write profile d then 1 else 0

or_fail-Writes : {A : Type 0} (o : Option A) (e : Failure) → Writes 0 (or_fail o e)
or_fail-Writes none e p = omega arith
or_fail-Writes (some a) e p = omega arith

-- A control request is only made up for a datapoint that is released.
encode_unreleased :
    (profile : DatapointProfile) (d : Datapoint) (v : Value) (base : List ℕ)
    → may_write profile d ≡ false
    → encode_control profile d v base ≡ none
unfolding encode_control
encode_unreleased profile d v base e = rw e refl

encode_and_write :
    (s : Setup) (d : Datapoint) (v : Value) (base : List ℕ)
    → Writes
        (allowance_of s.profile (some d))
        (or_fail (encode_control s.profile d v base) Failure.rejected >>= write_and_confirm s d v)
encode_and_write s d v base p = elim (Bool-cases (may_write s.profile d)) [
  | inl e ↦ rw e (
      after-Writes 1 (or_fail (encode_control s.profile d v base) Failure.rejected)
        (write_and_confirm s d v)
        (or_fail-Writes (encode_control s.profile d v base) Failure.rejected)
        (write_and_confirm-Writes s d v) p)
  | inr e ↦ rw (e, encode_unreleased s.profile d v base e) (omega arith)
]

value_and_write :
    (s : Setup) (command : ProviderCommand) (d : Datapoint) (base : List ℕ)
    → Writes (allowance_of s.profile (some d)) (
        or_fail (value_for s.profile command.params base) Failure.rejected >>= λ v.
        or_fail (encode_control s.profile d v base) Failure.rejected >>= write_and_confirm s d v)
value_and_write s command d base =
    after-Writes (allowance_of s.profile (some d))
      (or_fail (value_for s.profile command.params base) Failure.rejected)
      (λ v.
        or_fail (encode_control s.profile d v base) Failure.rejected >>= write_and_confirm s d v)
      (or_fail-Writes (value_for s.profile command.params base) Failure.rejected)
      (λ v. encode_and_write s d v base)

read_and_write :
    (s : Setup) (command : ProviderCommand) (o : Option Datapoint)
    → Writes (allowance_of s.profile o) (
        or_fail o Failure.rejected >>= λ d. read_payload s >>= λ base.
        or_fail (value_for s.profile command.params base) Failure.rejected >>= λ v.
        or_fail (encode_control s.profile d v base) Failure.rejected >>= write_and_confirm s d v)
read_and_write s command none p = omega arith
read_and_write s command (some d) p =
    after-Writes (allowance_of s.profile (some d)) (read_payload s)
      (λ base. or_fail (value_for s.profile command.params base) Failure.rejected >>= λ v.
        or_fail (encode_control s.profile d v base) Failure.rejected >>= write_and_confirm s d v)
      (read_payload-Writes s) (value_and_write s command d) p

abbrev pub allowance : Setup → ProviderDeviceRef → Action → ℕ
allowance s ref action =
    if is_device s ref then allowance_of s.profile (action_datapoint action) else 0

-- A command that is given to the adapter in any state, whatever the network does and however often
-- it is read back, adds at most one control request to what the client has written, and none unless
-- the device is the adapter's own and the action's datapoint is released for writing.
pub execute-WritesOnce :
    (s : Setup) (ref : ProviderDeviceRef) (command : ProviderCommand) (p : Adapter)
    → written (execute s ref command p).1 ≤ written p + allowance s ref command.action
unfolding execute
execute-WritesOnce s ref command p = elim (Bool-cases (is_device s ref)) [
  | inl e ↦ rw e (read_and_write s command (action_datapoint command.action) p)
  | inr e ↦ rw e (omega arith)
]
