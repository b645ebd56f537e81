-- ===== src/Bestway/Provider.antt =====
-- The adapter of one controller (backend/src/homeflow/integrations/bestway/provider.py).
pub mod Execution
pub mod Polling
pub mod WriteOnce
pub mod Confirmed
pub mod Outage
use homeflow.Base.{
  ℕ, zero, suc, ◌+◌, Bool, true, false, not, ◌&&◌, Option, none, some, List, [], ◌∷◌, ◌++◌, String,
  ◌==◌, if◌then◌else◌,
}
use homeflow.Base.Int.{ℤ, pos, leb_ℤ, pos_part, neg_part}
use homeflow.Bestway.Client.{Client, Talk, close, connect, read_status, send_control}
use homeflow.Integrations.Flow.{
  Failure, Outcome, returned, failed, fails, Flow, continue_with, ◌>>=◌, or_fail,
}
use homeflow.Bestway.Datapoints.{
  Datapoint, DatapointProfile, Value, decode, encode_control, get_point, may_write, truth,
}
use homeflow.Bestway.Datapoints.Units.{to_celsius, from_celsius}
use homeflow.Capabilities.{Capability, DeviceKind}
use homeflow.Commands.Models.{Action, CommandParams}
use homeflow.Devices.Models.{Availability, DeviceState, unreported}
use homeflow.Integrations.{
  CommandOutcome, ProviderCommand, ProviderCommandResult, ProviderDevice, ProviderDeviceRef,
  ProviderState,
}

-- `BestwayProvider`: what changes. The clock stands still within a call.
pub record Adapter : Type 0 where
  pub client : Client
  pub availability : Availability
  pub last_payload : Option (List ℕ)
  pub clock : ℕ

-- What it is built with; the reference that `airjet_ref` gives stands for its two names.
pub record Setup : Type 0 where
  pub profile : DatapointProfile
  pub airjet_ref : ProviderDeviceRef
  pub display_name : String
  pub room_hint : Option String
  pub confirm_attempts : ℕ

abbrev pub Work : Type 0 → Type 0
Work A = Flow Adapter A

-- A call of the client.
abbrev pub on_client : {A : Type 0} → Talk A → Work A
on_client m p = let (o, c) = m p.client in (o, record p { client = c })

-- `_WRITE_CAPABILITIES`, in order.
abbrev pub write_capabilities : List (Datapoint × Capability)
write_capabilities =
    (Datapoint.target_temperature, Capability.target_temperature)
    ∷ (Datapoint.heater, Capability.heating)
    ∷ (Datapoint.filter_pump, Capability.filter)
    ∷ (Datapoint.bubbles, Capability.bubbles)
    ∷ (Datapoint.control_panel_lock, Capability.control_panel_lock)
    ∷ []

-- `_ACTION_DATAPOINTS`
unfoldable pub action_datapoint : Action → Option Datapoint
action_datapoint Action.set_target_temperature = some Datapoint.target_temperature
action_datapoint Action.set_heater = some Datapoint.heater
action_datapoint Action.set_filter = some Datapoint.filter_pump
action_datapoint Action.set_bubbles = some Datapoint.bubbles
action_datapoint Action.set_control_panel_lock = some Datapoint.control_panel_lock
action_datapoint _ = none

abbrev pub released : DatapointProfile → List (Datapoint × Capability) → List Capability
released p [] = []
released p ((d, c) ∷ m) = if may_write p d then c ∷ released p m else released p m

unfoldable pub capabilities : DatapointProfile → List Capability
capabilities p = elim (get_point Datapoint.current_temperature p.locations) [
  | none ↦ released p write_capabilities
  | some _ ↦ Capability.current_temperature ∷ released p write_capabilities
]

-- `discover_devices`
unfoldable pub discover_devices : Setup → List ProviderDevice
discover_devices s =
    if not s.profile.trusted
    then []
    else record {
      ref = s.airjet_ref;
      suggested_name = s.display_name;
      kind = DeviceKind.pool;
      capabilities = capabilities s.profile;
      room_hint = s.room_hint;
      constraints = record {
        target_temperature_min_c = some (pos s.profile.target_temperature_min_c);
        target_temperature_max_c = some (pos s.profile.target_temperature_max_c);
        target_temperature_step_c = some (pos s.profile.target_temperature_step_c);
      };
    }
      ∷ []

-- `device_ref == self._ref()`
abbrev pub is_device : Setup → ProviderDeviceRef → Bool
is_device s ref =
    (ref.provider == s.airjet_ref.provider)
    && (ref.provider_device_id == s.airjet_ref.provider_device_id)

-- `_require_known_device`
abbrev pub require_known_device : Setup → ProviderDeviceRef → Work (Unit {0})
require_known_device s ref p =
    if is_device s ref then (returned tt, p) else (failed Failure.unavailable, p)

-- One attempt of `_read_with_retry`.
unfoldable pub read_once : Talk (List ℕ)
read_once c = if c.is_connected then read_status c else continue_with (λ _. read_status) (connect c)

-- The handlers of an attempt: the last one raises, one before it is repeated.
abbrev pub handle_read : Talk (List ℕ) → Outcome (List ℕ) × Client → Outcome (List ℕ) × Client
handle_read again (failed Failure.misbehaved, c) = (failed Failure.misbehaved, close c)
handle_read again (failed Failure.unavailable, c) = again (close c)
handle_read again (o, c) = (o, c)

abbrev pub last_attempt : Talk (List ℕ)
last_attempt c = handle_read (fails Failure.unavailable) (read_once c)

unfoldable pub read_with_retry : Talk (List ℕ)
read_with_retry c = handle_read last_attempt (read_once c)

-- The end of `_read_payload`: the layout has to fit.
abbrev pub accept : List ℕ → Option (List (Datapoint × Value)) → Work (List ℕ)
accept payload none p = (failed Failure.unavailable, p)
accept payload (some _) p =
    (returned payload, record p { last_payload = some payload; availability = Availability.online })

abbrev pub accept_payload : Setup → List ℕ → Work (List ℕ)
accept_payload s payload = accept payload (decode s.profile payload)

unfoldable pub read_payload : Setup → Work (List ℕ)
read_payload s = on_client read_with_retry >>= accept_payload s

-- `int(value)` of a number or a flag, by which Python compares the two.
abbrev pub as_int : Value → ℤ
as_int (Value.number n) = n
as_int (Value.flag true) = pos 1
as_int (Value.flag false) = pos 0

abbrev pub same_int : ℤ → ℤ → Bool
same_int a b = (pos_part a == pos_part b) && (neg_part a == neg_part b)

abbrev pub is_value : Value → Option Value → Bool
is_value v none = false
is_value v (some w) = same_int (as_int v) (as_int w)

abbrev pub point_of : Datapoint → Option (List (Datapoint × Value)) → Option Value
point_of d none = none
point_of d (some vs) = get_point d vs

-- `self.profile.decode(payload).get(datapoint)`
abbrev pub read_point : DatapointProfile → List ℕ → Datapoint → Option Value
read_point profile payload d = point_of d (decode profile payload)

abbrev pub truth_of : Option Value → Bool
truth_of none = false
truth_of (some v) = truth v

abbrev pub is_fahrenheit : DatapointProfile → List ℕ → Bool
is_fahrenheit profile payload = truth_of (read_point profile payload Datapoint.unit_is_fahrenheit)

-- `_value_for`
unfoldable pub value_for : DatapointProfile → CommandParams → List ℕ → Option Value
value_for profile (CommandParams.on_off on) base = some (Value.flag on)
value_for profile (CommandParams.target_temperature t) base =
    if leb_ℤ (pos profile.target_temperature_min_c) t
      && leb_ℤ t (pos profile.target_temperature_max_c)
    then some (Value.number (from_celsius t (is_fahrenheit profile base)))
    else none
value_for profile _ base = none

-- The closures of `_to_state`.
abbrev pub temperature_of : Bool → Option Value → Option ℤ
temperature_of fahrenheit none = none
temperature_of fahrenheit (some v) = some (to_celsius (as_int v) fahrenheit)

abbrev pub flag_of : Option Value → Option Bool
flag_of none = none
flag_of (some v) = some (truth v)

unfoldable pub to_state : DatapointProfile → List ℕ → DeviceState
to_state profile payload =
    let fahrenheit = is_fahrenheit profile payload in
    record unreported {
      current_temperature_c =
          temperature_of fahrenheit (read_point profile payload Datapoint.current_temperature);
      target_temperature_c =
          temperature_of fahrenheit (read_point profile payload Datapoint.target_temperature);
      heater = flag_of (read_point profile payload Datapoint.heater);
      filter_pump = flag_of (read_point profile payload Datapoint.filter_pump);
      bubbles = flag_of (read_point profile payload Datapoint.bubbles);
      control_panel_lock = flag_of (read_point profile payload Datapoint.control_panel_lock);
    }

-- `_snapshot` and `_offline_snapshot`
unfoldable pub snapshot : Setup → List ℕ → Adapter → ProviderState
snapshot s payload p = record {
  state = to_state s.profile payload;
  availability = Availability.online;
  observed_at = p.clock;
}

abbrev pub offline_snapshot : Adapter → ProviderState
offline_snapshot p = record {
  state = unreported;
  availability = Availability.offline;
  observed_at = p.clock;
}

unfoldable pub get_state : Setup → ProviderDeviceRef → Work ProviderState
get_state s ref = require_known_device s ref >>= λ _.
    read_payload s >>= λ payload p. (returned (snapshot s payload p), p)
