-- ===== src/Tests.antt =====
-- Runs of the theorems on a small household: a hot tub with a wired provider.
mod Commands
mod Schedules
mod Parts
mod Adapters
mod Deployment
use homeflow.Base.{ℕ, Bool, true, false, Option, none, some, List, [], ◌∷◌, String}
use homeflow.Base.Int.{ℤ, pos}
use homeflow.Auth.{Principal}
use homeflow.Capabilities.{DeviceKind, Capability}
use homeflow.Commands.Execution.{Attempt}
use homeflow.Commands.Models.{Coercion, Json}
use homeflow.Devices.Models.{Availability, Device, DeviceConstraints, DeviceState, StateSource}
use homeflow.Devices.Registry.{DeviceRegistry, Identity, init, register}
use homeflow.Gateway.{Gateway, Wiring}
use homeflow.Integrations.{
  CommandOutcome, ExecuteReply, ProviderCommandResult, ProviderDevice, ProviderDeviceRef,
  ProviderState, ReadReply,
}

abbrev pub identity : Identity
identity = record { device_uuid = λ p d. d; room_uuid = λ n. 0 }

abbrev pub read_bool : Json → Option Bool
read_bool (Json.bool b) = some b
read_bool _ = none

abbrev pub read_int : Json → Option ℤ
read_int (Json.int n) = some n
read_int _ = none

abbrev pub read_float : Json → Option ℤ
read_float (Json.float n) = some n
read_float _ = none

abbrev pub read_text : Json → Option String
read_text (Json.text t) = some t
read_text _ = none

abbrev pub coercion : Coercion
coercion = record {
  as_bool = read_bool;
  as_int = read_int;
  as_float = read_float;
  as_text = read_text;
}

abbrev pub wiring : Wiring
wiring = record { identity = identity; coercion = coercion; has_provider = λ p. true }

abbrev pub blank : DeviceState
blank = record {
  power = none;
  brightness = none;
  current_temperature_c = none;
  target_temperature_c = none;
  heater = none;
  filter_pump = none;
  filter_last_started_at = none;
  bubbles = none;
  control_panel_lock = none;
  lock_state = none;
  volume = none;
  playback = none;
  program = none;
  program_name = none;
  remaining_seconds = none;
}

abbrev pub handle : ProviderDeviceRef
handle = record { provider = 1; provider_device_id = 7 }

abbrev pub tub : ProviderDevice
tub = record {
  ref = handle;
  suggested_name = "Hot tub";
  kind = DeviceKind.pool;
  capabilities = Capability.heating ∷ Capability.filter ∷ Capability.unlatch ∷ [];
  room_hint = none;
  constraints = record {
    target_temperature_min_c = some (pos 20000);
    target_temperature_max_c = some (pos 40000);
    target_temperature_step_c = none;
  };
}

abbrev pub cold : ProviderState
cold = record { state = blank; availability = Availability.online; observed_at = 10 }

abbrev pub warm : ProviderState
warm = record {
  state = record blank { heater = some true };
  availability = Availability.online;
  observed_at = 20;
}

abbrev pub household : DeviceRegistry
household = (register identity init tub cold).1

abbrev pub device : Device
device = (register identity init tub cold).0

abbrev pub gateway : Gateway
gateway = record {
  clock = 1000;
  registry = household;
  commands = [];
  locks = [];
  next_lock = 0;
  schedules = [];
  published = [];
  recorded = [];
  writes = [];
  reads = [];
}

abbrev pub user : Principal
user = record { user_id = 1; client_id = 2; display_name = "Ada" }

-- The write times out, and the state that is read back is the one asked for.
abbrev pub late : Attempt
late = record {
  new_id = 3;
  while_locked_out = λ g. g;
  while_executing = λ g. g;
  reply = ExecuteReply.timed_out;
  while_reading = λ g. g;
  readback = ReadReply.observed warm;
}
