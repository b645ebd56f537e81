-- ===== src/Tests/Commands.antt =====
-- Runs of the theorems on commands and devices.
use homeflow.Base.{false, ℕ, ◌≡◌, ◌≢◌, refl, ◌↔◌, ◌⊎◌, true, some, none, [], ◌∷◌, ◌++◌, arith}
use homeflow.Base.Int.{pos, ◌-ℤ◌}
use homeflow.Commands.Execution.Trace.{IsAlone}
use homeflow.Commands.Models.{
  Action, Command, CommandParams, CommandStatus, Json, RiskClass, RawParameters, model_validate,
  sole_field, with_status,
}
use homeflow.Commands.Policy.{action_spec, classify, required_capability_for}
use homeflow.Commands.Policy.Risk.{GrantsAccess, IsRead, classify-high, model_validate-IsRead}
use homeflow.Commands.Reconcile.{desired_matches}
use homeflow.Commands.Reconcile.Desired.{Reports, applied, desired_matches-applied}
use homeflow.Commands.Records.{requested_entry, completed_entry, finish}
use homeflow.Commands.Service.{
  admit, submit, is_high, meets_constraints, validate, check_constraints,
}
use homeflow.Commands.Service.Admission.{IsAdmissible}
use homeflow.Commands.Service.Submit.{IsRefused, IsExecuted, requested, submit_cases}
use homeflow.Commands.Service.Safety.{ShowsDesired, submit_high, submit_once, submit_timeout}
use homeflow.Commands.Sound.{IsSound, Keeps}
use homeflow.Capabilities.{contains, Capability-discrete}
use homeflow.Devices.Models.{supports, LockState, StateSource}
use homeflow.Devices.Registry.{init, register, require, ref_for, device_of, id_for_ref}
use homeflow.Devices.Registry.Consistent.{IsConsistent, init-IsConsistent, register-IsConsistent}
use homeflow.Base.Dict.{lookup}
use homeflow.Devices.Service.{ingest}
use homeflow.Commands.Execution.{Attempt, execute, execute_wired, conclude}
use homeflow.Integrations.{CommandOutcome, ExecuteReply}
use homeflow.Schedules.Models.{Schedule, ScheduleKind, ScheduleStatus}
use homeflow.Schedules.Service.{create, check, arm, new_schedule, supersede}
use homeflow.Schedules.Service.Pipeline.{Started, run_for-Started}
use homeflow.Commands.Records as Records
use homeflow.Commands.Locks.{device_lock}
use homeflow.Schedules.Hours.{validate_hours}
use homeflow.Base.Round.{round_half_even}
use homeflow.Commands.Reconcile.{desired_matches}
use homeflow.Devices.Service.Observed.{Ingests, ingest-Ingests}
use homeflow.Errors.{Result, ok}
use homeflow.Gateway.{Gateway}
use homeflow.Tests.{
  identity, warm, wiring, blank, tub, cold, handle, household, device, gateway, user, late,
}

abbrev heat : RawParameters
heat = ("on", Json.bool true) ∷ []

abbrev heat_params : CommandParams
heat_params = CommandParams.on_off true

gateway-IsSound : IsSound identity gateway
gateway-IsSound = record {
  registry = register-IsConsistent identity init (init-IsConsistent identity) tub cold;
  commands = tt;
  bounded = omega arith;
}

late-Keeps : Keeps identity late
late-Keeps = record { locked_out = λ g s. s; executing = λ g s. s; reading = λ g s. s }

late-IsAlone : IsAlone late
late-IsAlone = record {
  locked_out = λ g. record { writes = refl; recorded = refl };
  executing = λ g. record { writes = refl; recorded = refl };
  reading = λ g. record { writes = refl; recorded = refl };
}

gateway-exists : require gateway.registry 7 ≡ ok device
unfolding require register init device_of
gateway-exists = refl

gateway-routed : ref_for gateway.registry device.id ≡ ok handle
unfolding ref_for register init device_of
gateway-routed = refl

heat-IsAdmissible : IsAdmissible wiring device Action.set_heater heat heat_params
unfolding model_validate sole_field action_spec supports contains required_capability_for classify
    register init device_of meets_constraints Capability-discrete
heat-IsAdmissible = record {
  valid = refl;
  capable = refl;
  in_bounds = refl;
  released = refl;
  reachable = refl;
}

submit_cases_example :
    IsRefused wiring late user 7 Action.set_heater heat "c" gateway
      (submit wiring late user 7 Action.set_heater heat "c" gateway)
    ⊎ IsExecuted wiring late user 7 Action.set_heater heat "c" gateway
        (submit wiring late user 7 Action.set_heater heat "c" gateway)
submit_cases_example =
    submit_cases wiring late user 7 Action.set_heater heat "c" gateway gateway-IsSound late-Keeps

open_valid :
    model_validate wiring.coercion (action_spec Action.unlatch).params_model []
    ≡ some CommandParams.no_params
unfolding model_validate action_spec
open_valid = refl

open_high : is_high (classify Action.unlatch CommandParams.no_params) ≡ true
unfolding classify action_spec
open_high = refl

submit_high_example :
    IsRefused wiring late user 7 Action.unlatch [] "c" gateway
      (submit wiring late user 7 Action.unlatch [] "c" gateway)
submit_high_example =
    submit_high wiring late user 7 Action.unlatch [] "c" gateway gateway-IsSound late-Keeps
      CommandParams.no_params open_valid open_high

submit_once_example :
    let r = submit wiring late user 7 Action.set_heater heat "c" gateway in
    (c : Command) × (t : ℕ) × (r.0 ≡ ok c)
    × (r.1.writes ≡ (handle, record { action = Action.set_heater; params = heat_params }) ∷ [])
    × (r.1.recorded
        ≡ (requested_entry
              (requested wiring late user 7 Action.set_heater heat "c" gateway device heat_params)
              1000
            ∷ [])
          ++ completed_entry c c.status c.failure_code t ∷ [])
submit_once_example =
    submit_once wiring late user 7 Action.set_heater heat "c" gateway gateway-IsSound late-Keeps
      late-IsAlone device heat_params handle gateway-exists heat-IsAdmissible gateway-routed refl

submit_timeout_example :
    (c : Command) × ((submit wiring late user 7 Action.set_heater heat "c" gateway).0 ≡ ok c)
    × (c.status ≢ CommandStatus.failed)
    × ((c.status ≡ CommandStatus.succeeded)
        ↔ ShowsDesired Action.set_heater heat_params late.readback)
submit_timeout_example =
    submit_timeout wiring late user 7 Action.set_heater heat "c" gateway gateway-IsSound late-Keeps
      refl device heat_params handle gateway-exists heat-IsAdmissible gateway-routed refl

classify-high_example :
    (classify Action.set_lock_state (CommandParams.lock_state LockState.unlocked) ≡ RiskClass.high)
    ↔ GrantsAccess Action.set_lock_state (CommandParams.lock_state LockState.unlocked)
classify-high_example =
    classify-high Action.set_lock_state (CommandParams.lock_state LockState.unlocked)

abbrev warmth : RawParameters
warmth = ("celsius", Json.float (pos 38000)) ∷ []

warmth_valid :
    model_validate wiring.coercion (action_spec Action.set_target_temperature).params_model warmth
    ≡ some (CommandParams.target_temperature (pos 38000))
unfolding model_validate sole_field action_spec
warmth_valid = refl

model_validate-IsRead_example :
    IsRead wiring.coercion Action.set_target_temperature warmth
      (CommandParams.target_temperature (pos 38000))
model_validate-IsRead_example =
    model_validate-IsRead wiring.coercion Action.set_target_temperature warmth
      (CommandParams.target_temperature (pos 38000)) warmth_valid

desired_matches-applied_example :
    (Action.set_heater ≢ Action.unlatch
      → desired_matches Action.set_heater heat_params (applied Action.set_heater heat_params blank)
        ≡ some true)
    × (desired_matches Action.unlatch heat_params blank ≡ none)
    × ((desired_matches Action.set_heater heat_params blank ≡ some true)
        ↔ Reports Action.set_heater heat_params blank)
desired_matches-applied_example = desired_matches-applied Action.set_heater heat_params blank tt

abbrev locked : Gateway
locked = record gateway { locks = (7, 0) ∷ []; next_lock = 1 }

register-IsConsistent_example : IsConsistent identity (register identity household tub warm).1
register-IsConsistent_example =
    register-IsConsistent identity household gateway-IsSound.registry tub warm

known : id_for_ref gateway.registry handle ≡ some 7
unfolding id_for_ref register init device_of
known = refl

held : lookup 7 gateway.registry.devices ≡ some device
unfolding register init device_of
held = refl

ingest-Ingests_example :
    Ingests 7 device warm StateSource.provider_event none gateway
      (ingest handle warm StateSource.provider_event none gateway)
ingest-Ingests_example =
    ingest-Ingests handle warm StateSource.provider_event none gateway 7 device known held

-- The adapter answers that it does not know the outcome of the switch-on.
abbrev unsure : Attempt
unsure = record late {
  reply =
      ExecuteReply.returned
        (record { outcome = CommandOutcome.unknown; state = none; failure_code = none });
}

unsure-Keeps : Keeps identity unsure
unsure-Keeps = record { locked_out = λ g s. s; executing = λ g s. s; reading = λ g s. s }

-- The heater runs for one hour and a half.
abbrev heating : Result Schedule × Gateway
heating =
    create (submit wiring unsure) 12000000000 4 user 7 Action.set_heater ScheduleKind.run_for
      (pos 1500000000) "c" gateway

abbrev hot_tub_timer : Schedule
hot_tub_timer = record {
  id = 4;
  device_id = 7;
  kind = ScheduleKind.run_for;
  action = Action.set_heater;
  desired = false;
  requested_by_user_id = 1;
  requested_by_client_id = 2;
  requested_by_display_name = "Ada";
  created_at = 1000;
  due_at = 5400001000;
  correlation_id = "c";
  status = ScheduleStatus.armed;
  failure_code = none;
  command_id = some 3;
}

heating_returned : heating ≡ (ok hot_tub_timer, heating.1)
unfolding create check submit admit Records.create execute execute_wired conclude device_lock finish
    validate validate_hours classify action_spec required_capability_for supports contains
    Capability-discrete require ref_for register init device_of model_validate sole_field
    check_constraints meets_constraints arm supersede ◌-ℤ◌ round_half_even with_status new_schedule
heating_returned = refl

run_for-Started_example :
    Started wiring unsure user 7 Action.set_heater "c" gateway hot_tub_timer heating.1
run_for-Started_example =
    run_for-Started wiring unsure user 7 Action.set_heater "c" gateway gateway-IsSound unsure-Keeps
      12000000000 4 (pos 1500000000) hot_tub_timer heating.1 heating_returned
