-- ===== src/Devices/Service.antt =====
-- Device state synchronisation and event emission (backend/src/homeflow/devices/service.py).
pub mod Frame
pub mod Observed
use homeflow.Base.{
  ℕ, Bool, true, false, ◌&&◌, not, Option, none, some, List, [], ◌∷◌, ◌++◌, String, if◌then◌else◌,
}
use homeflow.Capabilities.{DeviceKind}
use homeflow.Devices.Models.{
  Device, DeviceState, DeviceState-discrete, Availability-discrete, OptionTemperature-discrete,
  OptionProgram-discrete, ProgramState, StateSource, Availability, is_offline,
}
use homeflow.Devices.Registry.{Identity, register, require, id_for_ref, apply}
use homeflow.Errors.{Result, ok, err, pure, gets, ◌>>=◌, ◌>>◌}
use homeflow.Events.Models.{DomainEvent, EventType, Payload}
use homeflow.Gateway.{Call, publish}
use homeflow.Integrations.{ProviderDevice, ProviderDeviceRef, ProviderState}

-- Truth of an optional flag.
abbrev pub is_set : Option Bool → Bool
is_set (some true) = true
is_set (some false) = false
is_set none = false

abbrev pub carried : Option ℕ → Option ℕ → Option ℕ
carried _ (some t) = some t
carried (some t) none = some t
carried none none = none

-- The derived start of the filter pump.
unfoldable pub with_derived : ℕ → Device → DeviceState → DeviceState
with_derived now before observed =
    if is_set observed.filter_pump && not (is_set before.state.filter_pump)
    then record observed { filter_last_started_at = some now }
    else record observed {
      filter_last_started_at =
          carried before.state.filter_last_started_at observed.filter_last_started_at;
    }

abbrev pub when : Bool → EventType → List EventType
when true t = t ∷ []
when false t = []

abbrev pub changed {ℓ} : {A : Type ℓ} → Discrete A → A → A → Bool
changed dec a b = elim (dec a b) [ yes _ ↦ false | no _ ↦ true ]

abbrev pub is_pool : DeviceKind → Bool
is_pool DeviceKind.pool = true
is_pool _ = false

abbrev pub is_appliance : DeviceKind → Bool
is_appliance DeviceKind.washing_machine = true
is_appliance DeviceKind.dishwasher = true
is_appliance _ = false

abbrev pub program_event : Option ProgramState → List EventType
program_event (some ProgramState.running) = EventType.appliance_program_started ∷ []
program_event (some ProgramState.finished) = EventType.appliance_program_finished ∷ []
program_event _ = []

unfoldable pub pool_events : Device → Device → List EventType
pool_events before after =
    when
      (changed OptionTemperature-discrete before.state.current_temperature_c
        after.state.current_temperature_c)
      EventType.pool_temperature_changed
    ++ when
        (changed OptionTemperature-discrete before.state.target_temperature_c
          after.state.target_temperature_c)
        EventType.pool_target_temperature_changed

-- What `_publish_transitions` emits once the state has changed.
unfoldable pub state_events : Device → Device → List EventType
unfolding pool_events
state_events before after =
    EventType.device_state_changed
    ∷ ((if is_pool after.kind then pool_events before after else [])
        ++ (if is_appliance after.kind
              && changed OptionProgram-discrete before.state.program after.state.program
            then program_event after.state.program
            else []))

unfoldable pub transitions : Device → Device → List EventType
transitions before after =
    when (changed Availability-discrete before.availability after.availability)
      EventType.device_availability_changed
    ++ (if changed DeviceState-discrete before.state after.state
        then state_events before after
        else [])

-- The event that `emit` publishes.
abbrev pub device_event : Device → Option String → ℕ → EventType → DomainEvent
device_event after correlation_id now t = record {
  type = t;
  occurred_at = now;
  device_id = some after.id;
  command_id = none;
  correlation_id = correlation_id;
  payload = Payload.empty;
}

-- `emit` for each event, all at one moment.
unfoldable pub emit_all : Device → Option String → List EventType → Call (Unit {0})
emit_all after correlation_id [] g = (ok tt, g)
emit_all after correlation_id (t ∷ ts) g =
    emit_all after correlation_id ts
      (record g { published = g.published ++ device_event after correlation_id g.clock t ∷ [] })

-- The calls into the registry, as methods on the gateway.
abbrev pub require_device : ℕ → Call Device
require_device device_id g = (require g.registry device_id, g)

abbrev pub apply_state : ℕ → DeviceState → Availability → ℕ → StateSource → Call Device
apply_state device_id state availability observed_at source g =
    let (r, registry) = apply g.registry device_id state availability observed_at source in
    (r, record g { registry = registry })

-- The part of `ingest` after the device is found.
ingest_known : ℕ → ProviderState → StateSource → Option String → Call Device
ingest_known device_id s source correlation_id = do
  before ← require_device device_id
  now ← gets (λ g. g.clock)
  let state = with_derived now before s.state
  after ← apply_state device_id state s.availability s.observed_at source
  emit_all after correlation_id (transitions before after)
  pure after

unfoldable pub ingest :
    ProviderDeviceRef → ProviderState → StateSource → Option String → Call (Option Device)
unfolding ingest_known
ingest ref s source correlation_id = do
  found ← gets (λ g. id_for_ref g.registry ref)
  elim found [
    | none ↦ pure none
    | some device_id ↦ ingest_known device_id s source correlation_id >>= λ d. pure (some d)
  ]

-- One turn of the inner loop of `bootstrap`: the snapshot of a discovered device.
discover : Identity → ProviderDevice × Result ProviderState → Call (Unit {0})
discover i (pd, err e) g = (err e, g)
discover i (pd, ok s) g =
    let (device, registry) = register i g.registry pd s in
    publish (device_event device none g.clock EventType.device_discovered)
      (record g { registry = registry })

-- The inner loop of `bootstrap`, over what one provider discovers.
discover_all : Identity → List (ProviderDevice × Result ProviderState) → Call (Unit {0})
unfolding discover
discover_all i [] g = (ok tt, g)
discover_all i (d ∷ ds) g = (discover i d >> discover_all i ds) g

-- The providers in order: each answers with its devices, and with what `get_state` says of each,
-- or its discovery raises.
unfoldable pub bootstrap :
    Identity → List (Result (List (ProviderDevice × Result ProviderState))) → Call (Unit {0})
unfolding discover_all
bootstrap i [] g = (ok tt, g)
bootstrap i (err e ∷ ps) g = (err e, g)
bootstrap i (ok ds ∷ ps) g = (discover_all i ds >> bootstrap i ps) g

pub is_reachable : Device → Bool
is_reachable d = not (is_offline d.availability)
