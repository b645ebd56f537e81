-- ===== src/Tests/Deployment.antt =====
-- Runs of the theorems on a configuration and on the demo household.
use homeflow.Base.{arith, ◌≡◌, refl, true, false, some, none, [], ◌∷◌}
use homeflow.Auth.Registry.{authenticate}
use homeflow.Bestway.Datapoints.{Datapoint, DatapointProfile, airjet_19byte_profile}
use homeflow.Commands.Models.{Action, CommandParams}
use homeflow.Capabilities.{Capability, DeviceKind}
use homeflow.Demo.Household.{build_devices, ref_of, DemoDevice, defined, no_limits, find_device}
use homeflow.Demo.Finishing.{Shows, after_ticks, after_ticks-finishes}
use homeflow.Devices.Models.{Availability, ProgramState, unreported}
use homeflow.Demo.Interlock.{
  Happenings, done as finished_run, ticked, asked, first, all_interlocked, happen_all,
  household_interlocked,
}
use homeflow.Errors.{Error, err}
use homeflow.HomeAssistant.Entities.{is_one_of}
use homeflow.Settings.{
  Environment, Settings, fail_closed, effective_id_salt, build_client_registry, build_providers,
}
use homeflow.Settings.Production.{all_safe, production_closed}

abbrev household_settings : Settings
household_settings = record {
  env = Environment.production;
  demo_mode = false;
  allowed_hosts = "home.local" ∷ [];
  id_salt = some "salt";
  dev_client_token = none;
  home_assistant_enabled = true;
  home_assistant_base_url = some "http://hub.local:8123";
  home_assistant_token = some (5 ∷ 6 ∷ []);
  home_assistant_write_enabled = "light" ∷ "climate" ∷ [];
  weather_enabled = false;
  weather_latitude = none;
  weather_longitude = none;
  bestway_enabled = true;
  bestway_host = some "10.0.0.7";
  bestway_trust_profile = true;
  bestway_write_enabled = "HEATER" ∷ [];
}

household_accepted : fail_closed household_settings ≡ none
unfolding fail_closed
household_accepted = refl

production_closed_example :
    (all_safe (build_providers household_settings) ≡ true)
    × (is_one_of "*" household_settings.allowed_hosts ≡ false)
    × (household_settings.id_salt ≡ some (effective_id_salt household_settings))
    × (authenticate
          (λ _. 1)
          (build_client_registry (λ _. 1) (λ _ _. 2) household_settings)
          (some (5 ∷ []))
        ≡ err Error.unauthenticated)
production_closed_example =
    production_closed (λ _. 1) (λ _ _. 2) household_settings (some (5 ∷ [])) household_accepted refl

-- The heater is switched on while the filter pump is switched off in its latency, and time passes.
abbrev evening : Happenings
evening =
    first
      (asked
        (first
          (asked finished_run false 5 (ref_of 4)
            (record { action = Action.set_filter; params = CommandParams.on_off false }))
          finished_run)
        false 5 (ref_of 4)
        (record { action = Action.set_heater; params = CommandParams.on_off true }))
      (first (ticked 120000) finished_run)

household_interlocked_example : all_interlocked (happen_all evening build_devices) ≡ true
household_interlocked_example = household_interlocked evening

-- The washing machine has 2700 seconds left, which 23 ticks of two minutes use up.
abbrev washing_machine : DemoDevice
washing_machine = record {
  definition =
      defined 5 "Demo Washer" DeviceKind.washing_machine
        (Capability.program_status ∷ Capability.remaining_time ∷ []) "Utility Room" no_limits;
  state = record unreported {
    program = some ProgramState.running;
    program_name = some "Cottons 40";
    remaining_seconds = some 2700;
  };
  availability = Availability.online;
}

washing_machine_built : find_device (ref_of 5) build_devices ≡ some washing_machine
washing_machine_built = refl

after_ticks-finishes_example : Shows ProgramState.finished 0 (after_ticks 23 120000 washing_machine)
after_ticks-finishes_example =
    after_ticks-finishes 23 120000 2700 washing_machine (refl, refl, refl, refl) (omega arith)

-- The heater is released in the second shipped layout.
abbrev released_heater : DatapointProfile
released_heater = record airjet_19byte_profile { trusted = true; writable = Datapoint.heater ∷ [] }
