-- ===== src/Demo/Household.antt =====
-- The devices of the demo household and their operations
-- (backend/src/homeflow/integrations/demo/provider.py). The identifiers of the devices count them from 1,
-- and 0 stands for the name of the provider.
use homeflow.Base.{
  ℕ, ◌&&◌, Bool, true, false, Option, none, some, List, [], ◌∷◌, map, ◌==◌, if◌then◌else◌, String,
}
use homeflow.Base.Int.{pos}
use homeflow.Capabilities.{Capability, DeviceKind}
use homeflow.Demo.Simulation.{apply_to, advance}
use homeflow.Devices.Models.{
  Availability, DeviceConstraints, DeviceState, DeviceState-discrete, LockState, PlaybackState,
  ProgramState, unreported,
}
use homeflow.Integrations.{
  CommandOutcome, ProviderCommand, ProviderCommandResult, ProviderDevice, ProviderDeviceRef,
  ProviderState,
}
use homeflow.Integrations.Flow.{Failure, Outcome, returned, failed}

-- `_DemoDevice`
pub record DemoDevice : Type 0 where
  pub definition : ProviderDevice
  pub state : DeviceState
  pub availability : Availability

abbrev pub ref_of : ℕ → ProviderDeviceRef
ref_of id = record { provider = 0; provider_device_id = id }

abbrev pub no_limits : DeviceConstraints
no_limits = record {
  target_temperature_min_c = none;
  target_temperature_max_c = none;
  target_temperature_step_c = none;
}

abbrev pub defined :
    ℕ → String → DeviceKind → List Capability → String → DeviceConstraints → ProviderDevice
defined id name kind capabilities room constraints = record {
  ref = ref_of id;
  suggested_name = name;
  kind = kind;
  capabilities = capabilities;
  room_hint = some room;
  constraints = constraints;
}

-- `_build_devices`, in order.
abbrev pub pool_limits : DeviceConstraints
pool_limits = record {
  target_temperature_min_c = some (pos 20000);
  target_temperature_max_c = some (pos 40000);
  target_temperature_step_c = some (pos 500);
}

abbrev pub build_devices : List DemoDevice
build_devices =
    record {
      definition =
          defined 1 "Ceiling Light" DeviceKind.light (Capability.power ∷ Capability.brightness ∷ [])
            "Living Room" no_limits;
      state = record unreported { power = some true; brightness = some 60 };
      availability = Availability.online;
    }
    ∷ record {
      definition =
          defined 2 "Speaker" DeviceKind.media_player
            (Capability.media_playback ∷ Capability.volume ∷ []) "Living Room" no_limits;
      state = record unreported { playback = some PlaybackState.paused; volume = some 25 };
      availability = Availability.online;
    }
    ∷ record {
      definition =
          defined 3 "Demo Lock" DeviceKind.lock (Capability.lock ∷ Capability.unlock ∷ []) "Hallway"
            no_limits;
      state = record unreported { lock_state = some LockState.locked };
      availability = Availability.online;
    }
    ∷ record {
      definition =
          defined 4 "Demo Pool" DeviceKind.pool
            (Capability.current_temperature ∷ Capability.target_temperature ∷ Capability.heating
              ∷ Capability.filter ∷ Capability.bubbles ∷ Capability.control_panel_lock ∷ [])
            "Terrace" pool_limits;
      state = record unreported {
        current_temperature_c = some (pos 24500);
        target_temperature_c = some (pos 36000);
        heater = some false;
        filter_pump = some true;
        bubbles = some false;
        control_panel_lock = some false;
      };
      availability = Availability.online;
    }
    ∷ record {
      definition =
          defined 5 "Demo Washer" DeviceKind.washing_machine
            (Capability.program_status ∷ Capability.remaining_time ∷ []) "Utility Room" no_limits;
      state = record unreported {
        program = some ProgramState.running;
        program_name = some "Cottons 40";
        remaining_seconds = some 2700;
      };
      availability = Availability.online;
    }
    ∷ record {
      definition =
          defined 6 "Demo Dishwasher" DeviceKind.dishwasher
            (Capability.program_status ∷ Capability.remaining_time ∷ []) "Utility Room" no_limits;
      state = record unreported { program = some ProgramState.idle };
      availability = Availability.offline;
    }
    ∷ []

abbrev pub same_ref : ProviderDeviceRef → ProviderDeviceRef → Bool
same_ref a b = (a.provider == b.provider) && (a.provider_device_id == b.provider_device_id)

-- `_require`
abbrev pub find_device : ProviderDeviceRef → List DemoDevice → Option DemoDevice
find_device ref [] = none
find_device ref (d ∷ ds) = if same_ref ref d.definition.ref then some d else find_device ref ds

-- A change of one device's state.
abbrev pub change_state :
    ProviderDeviceRef → (DeviceState → DeviceState) → List DemoDevice → List DemoDevice
change_state ref f [] = []
change_state ref f (d ∷ ds) =
    let rest = change_state ref f ds in
    if same_ref ref d.definition.ref then record d { state = f d.state } ∷ ds else d ∷ rest

abbrev pub is_offline : Availability → Bool
is_offline Availability.offline = true
is_offline _ = false

abbrev pub snapshot_at : ℕ → DemoDevice → ProviderState
snapshot_at clock d = record { state = d.state; availability = d.availability; observed_at = clock }

-- `get_state`
unfoldable pub get_state : ℕ → ProviderDeviceRef → List DemoDevice → Outcome ProviderState
get_state clock ref ds = elim (find_device ref ds) [
  | none ↦ failed Failure.unavailable
  | some d ↦ returned (snapshot_at clock d)
]

-- The end of `execute`, after the latency.
abbrev pub answer : ℕ → Option DemoDevice → Outcome ProviderCommandResult
answer clock none = failed Failure.unavailable
answer clock (some d) = returned (record {
  outcome = CommandOutcome.applied;
  state = some (snapshot_at clock d);
  failure_code = none;
})

abbrev pub complete :
    Bool
    → ℕ
    → ProviderDeviceRef
    → ProviderCommand
    → List DemoDevice
    → Outcome ProviderCommandResult × List DemoDevice
complete true clock ref command ds = (failed Failure.unavailable, ds)
complete false clock ref command ds =
    let changed = change_state ref (apply_to command.action command.params) ds in
    (answer clock (find_device ref changed), changed)

-- `execute`: what other tasks do in the latency is a function, whether the failure is simulated a choice.
unfoldable pub execute :
    (List DemoDevice → List DemoDevice)
    → Bool
    → ℕ
    → ProviderDeviceRef
    → ProviderCommand
    → List DemoDevice
    → Outcome ProviderCommandResult × List DemoDevice
execute during fails clock ref command ds =
    let done = complete fails clock ref command (during ds) in
    elim (find_device ref ds) [
      | none ↦ (failed Failure.unavailable, ds)
      | some d ↦ if is_offline d.availability then (failed Failure.unavailable, ds) else done
    ]

-- `device.state != before`
abbrev pub has_changed : DeviceState → DeviceState → Bool
has_changed before after = elim (DeviceState-discrete after before) [ yes _ ↦ false | no _ ↦ true ]

-- `tick`: the devices after it, and its events.
abbrev pub tick_device : ℕ → DemoDevice → DemoDevice
tick_device time d =
    if is_offline d.availability
    then d
    else record d { state = advance d.definition.kind time d.state }

unfoldable pub tick : ℕ → List DemoDevice → List DemoDevice
tick time ds = map (tick_device time) ds

unfoldable pub tick_events : ℕ → ℕ → List DemoDevice → List (ProviderDeviceRef × ProviderState)
tick_events time clock [] = []
tick_events time clock (d ∷ ds) =
    let d' = tick_device time d in
    let rest = tick_events time clock ds in
    if has_changed d.state d'.state then (d.definition.ref, snapshot_at clock d') ∷ rest else rest

-- `discover_devices`
abbrev pub discover_devices : List DemoDevice → List ProviderDevice
discover_devices ds = map (λ d. d.definition) ds
