-- ===== src/Commands/Service.antt =====
-- The single mutation pipeline, `CommandService.submit` (backend/src/homeflow/commands/service.py).
pub mod Admission
pub mod Submit
pub mod Safety
use homeflow.Base.{ℕ, Bool, true, false, ◌&&◌, not, Option, some, String}
use homeflow.Base.Int.{ℤ, leb_ℤ}
use homeflow.Base.Dict.{lookup}
use homeflow.Auth.{Principal}
use homeflow.Commands.Execution.{Attempt, execute}
use homeflow.Commands.Models.{
  Action, Command, CommandParams, RawParameters, RiskClass, Coercion, model_validate,
}
use homeflow.Commands.Policy.{action_spec, classify, required_capability_for}
use homeflow.Commands.Records.{audit_denied, create}
use homeflow.Devices.Models.{Device, supports, is_offline}
use homeflow.Devices.Service.{require_device}
use homeflow.Errors.{Error, pure, raise, gets, or_raise, raise_if, ◌>>=◌, ◌>>◌}
use homeflow.Gateway.{Wiring, Call}

unfoldable pub get : ℕ → Call Command
get command_id = do
  found ← gets (λ g. lookup command_id g.commands)
  or_raise found Error.command_not_found

-- `_validate`
unfoldable pub validate : Coercion → Action → RawParameters → Call CommandParams
validate c action raw =
    or_raise (model_validate c (action_spec action).params_model raw) Error.invalid_parameters

abbrev in_range : Option ℤ → Option ℤ → ℤ → Bool
in_range (some lo) (some hi) t = leb_ℤ lo t && leb_ℤ t hi
in_range _ _ t = false

-- The device's own verified limits.
unfoldable pub meets_constraints : Device → CommandParams → Bool
meets_constraints d (CommandParams.target_temperature t) =
    in_range d.constraints.target_temperature_min_c d.constraints.target_temperature_max_c t
meets_constraints d _ = true

-- `_check_constraints`
unfoldable pub check_constraints : Device → CommandParams → Call (Unit {0})
check_constraints d p = raise_if (not (meets_constraints d p)) Error.parameter_out_of_range

-- A guard of `submit` that leaves an audit record behind.
abbrev deny_if : Bool → Principal → Device → Action → String → String → Error → Call (Unit {0})
deny_if true principal device action correlation_id reason e =
    audit_denied principal device action correlation_id reason >> raise e
deny_if false principal device action correlation_id reason e = pure tt

abbrev pub is_high : RiskClass → Bool
is_high RiskClass.high = true
is_high RiskClass.medium = false
is_high RiskClass.low = false

-- The guards of `submit` on a device that exists, in order.
unfoldable pub admit :
    Wiring → Principal → Device → Action → RawParameters → String → Call CommandParams
admit w principal device action raw correlation_id = do
  p ← validate w.coercion action raw
  deny_if (not (supports device (required_capability_for action p))) principal device action
      correlation_id "capability_not_supported" Error.capability_not_supported
  check_constraints device p
  deny_if (is_high (classify action p)) principal device action correlation_id
      "action_authorization_required" Error.action_authorization_required
  deny_if (is_offline device.availability) principal device action correlation_id
      "device_unavailable" Error.device_unavailable
  pure p

unfoldable pub submit :
    Wiring → Attempt → Principal → ℕ → Action → RawParameters → String → Call Command
submit w a principal device_id action raw correlation_id = do
  device ← require_device device_id
  p ← admit w principal device action raw correlation_id
  command ← create a.new_id principal device action p (classify action p) correlation_id
  execute w a command device p
