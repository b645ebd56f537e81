-- ===== src/Bestway/Provider/Execution.antt =====
-- Commands to the controller (backend/src/homeflow/integrations/bestway/provider.py).
use homeflow.Base.{ℕ, zero, suc, Option, none, some, List, if◌then◌else◌}
use homeflow.Bestway.Client.{send_control}
use homeflow.Integrations.Flow.{Failure, Outcome, returned, failed, ◌>>=◌, or_fail}
use homeflow.Bestway.Datapoints.{Datapoint, Value, encode_control}
use homeflow.Integrations.{
  CommandOutcome, ProviderCommand, ProviderCommandResult, ProviderDeviceRef,
}
use homeflow.Bestway.Provider.{
  Adapter, Setup, Work, on_client, action_datapoint, require_known_device, read_payload, is_value,
  read_point, value_for, snapshot,
}

-- An attempt of `_confirm` after its read: `again` is the attempts that are left.
abbrev pub look :
    Setup
    → Datapoint
    → Value
    → (Option (List ℕ) → Work (Option (List ℕ)))
    → Option (List ℕ)
    → Outcome (List ℕ) × Adapter
    → Outcome (Option (List ℕ)) × Adapter
look s d v again latest (returned payload, p) =
    if is_value v (read_point s.profile payload d)
    then (returned (some payload), p)
    else again (some payload) p
look s d v again latest (failed Failure.unavailable, p) = again latest p
look s d v again latest (failed Failure.misbehaved, p) = again latest p
look s d v again latest (failed e, p) = (failed e, p)

-- `_confirm`, with the attempts that are left and the block read last.
unfoldable pub confirm : Setup → Datapoint → Value → ℕ → Option (List ℕ) → Work (Option (List ℕ))
confirm s d v zero latest p = (returned latest, p)
confirm s d v (suc attempts) latest p =
    look s d v (confirm s d v attempts) latest (read_payload s p)

-- The result of `execute`, by the block that was read back.
abbrev pub judge : Setup → Datapoint → Value → Option (List ℕ) → Adapter → ProviderCommandResult
judge s d v none p = record {
  outcome = CommandOutcome.unknown;
  state = none;
  failure_code = some "read_back_failed";
}
judge s d v (some observed) p =
    if is_value v (read_point s.profile observed d)
    then record {
      outcome = CommandOutcome.applied;
      state = some (snapshot s observed p);
      failure_code = none;
    }
    else record {
      outcome = CommandOutcome.unknown;
      state = some (snapshot s observed p);
      failure_code = some "not_confirmed_by_device";
    }

-- `execute` from the control request on.
unfoldable pub write_and_confirm :
    Setup → Datapoint → Value → ℕ × List ℕ → Work ProviderCommandResult
write_and_confirm s d v (attr_flags, attr_vals) =
    on_client (send_control attr_flags attr_vals) >>= λ _.
    confirm s d v s.confirm_attempts none >>= λ observed p. (returned (judge s d v observed p), p)

unfoldable pub execute : Setup → ProviderDeviceRef → ProviderCommand → Work ProviderCommandResult
execute s ref command = require_known_device s ref >>= λ _.
    or_fail (action_datapoint command.action) Failure.rejected >>= λ d. read_payload s >>= λ base.
    or_fail (value_for s.profile command.params base) Failure.rejected >>= λ v.
    or_fail (encode_control s.profile d v base) Failure.rejected >>= λ control.
    write_and_confirm s d v control
