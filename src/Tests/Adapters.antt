-- ===== src/Tests/Adapters.antt =====
-- Runs of the theorems on the provider adapters.
use homeflow.Base.{
  ℕ, ◌+◌, ◌≤◌, ◌≡◌, refl, true, false, some, none, List, [], ◌∷◌, ◌⊎◌, ◌++◌, if◌then◌else◌,
}
use homeflow.Base.Int.{pos, ◌*ℤ◌, ◌+ℤ◌, ◌≤ℤ◌}
use homeflow.Integrations.Flow.{Failure, returned, failed}
use homeflow.Bestway.Client.{
  Read, send, unsolicited, await_frame, await_answer, exchange, read_status, send_control, close,
  connect, login, enter,
}
use homeflow.Bestway.Datapoints.{
  Datapoint, Datapoint-discrete, airjet_19byte_profile, decode, encode_control, may_write,
}
use homeflow.Bestway.Datapoints.Units.{to_celsius, from_celsius}
use homeflow.Bestway.Datapoints.Units.Back.{slack, to_celsius-from_celsius}
use homeflow.Bestway.Protocol.{encode, encode_varint, decode_frame, decode_varint, feed}
use homeflow.Bestway.Protocol.Fields.{
  build_control_payload, encode_length_prefixed, decode_length_prefixed,
}
use homeflow.Bestway.Provider.{
  offline_snapshot, Adapter, Setup, action_datapoint, read_once, read_with_retry, read_payload,
  value_for, to_state, snapshot,
}
use homeflow.Bestway.Provider.Execution.{confirm, write_and_confirm, execute}
use homeflow.Bestway.Provider.Polling.{is_offline, poll}
use homeflow.Bestway.Provider.Outage.{away, poll_hides_return}
use homeflow.Bestway.Provider.Confirmed.{IsConfirmed, applied-IsConfirmed}
use homeflow.Bestway.Provider.WriteOnce.{written, allowance, execute-WritesOnce}
use homeflow.Commands.Models.{Action, CommandParams}
use homeflow.Devices.Models.{Availability, unreported}
use homeflow.Base.Text.{same_text}
use homeflow.Capabilities.{DeviceKind}
use homeflow.HomeAssistant.Entities.{Attribute, EntityId, HaEntity, availability}
use homeflow.HomeAssistant.Provider.{HaAdapter, HaSetup, ServiceData}
use homeflow.HomeAssistant.Execution as Gated
use homeflow.HomeAssistant.Provider as HaP
use homeflow.HomeAssistant.Matching.{matches, fits}
use homeflow.HomeAssistant.States.{normalise}
use homeflow.Base.Round.{round_ratio, round_half_even}
use homeflow.HomeAssistant.Execution.Gate.{IsAsked, execute-IsGated}
use homeflow.Weather.{Answer, Step, fetch, subscribe}
use homeflow.Weather as Weather
use homeflow.Weather.Patience.{all_failed, is_failure, subscribe_backs_off}
use homeflow.Integrations.{
  CommandOutcome, ProviderCommand, ProviderCommandResult, ProviderDeviceRef,
}

abbrev zeros : List ℕ
zeros = 0 ∷ 0 ∷ 0 ∷ 0 ∷ 0 ∷ 0 ∷ 0 ∷ 0 ∷ 0 ∷ 0 ∷ 0 ∷ 0 ∷ 0 ∷ 0 ∷ 0 ∷ 0 ∷ []

abbrev pool_ref : ProviderDeviceRef
pool_ref = record { provider = 1; provider_device_id = 7 }

abbrev setup : Setup
setup = record {
  profile = record airjet_19byte_profile { trusted = true; writable = Datapoint.heater ∷ [] };
  airjet_ref = pool_ref;
  display_name = "Hot tub";
  room_hint = none;
  confirm_attempts = 2;
}

abbrev heater_off : List ℕ
heater_off = 3 ∷ 65 ∷ 30 ∷ zeros

abbrev heater_on : List ℕ
heater_on = 3 ∷ 67 ∷ 30 ∷ zeros

-- A status frame as the controller sends it.
abbrev status_frame : List ℕ → List ℕ
status_frame payload = 0 ∷ 0 ∷ 0 ∷ 3 ∷ 22 ∷ 0 ∷ 0 ∷ 145 ∷ payload

abbrev adapter : Adapter
adapter = record {
  client = record {
    is_connected = true;
    buffer = [];
    pending = [];
    passcode = 1 ∷ [];
    sequence = 0;
    sent = [];
    connects = [];
    drains = [];
    reads = Read.chunk (status_frame heater_off) ∷ Read.chunk (status_frame heater_on) ∷ [];
  };
  availability = Availability.unknown;
  last_payload = none;
  clock = 5;
}

abbrev heat : ProviderCommand
heat = record { action = Action.set_heater; params = CommandParams.on_off true }

execute-WritesOnce_example :
    written (execute setup pool_ref heat adapter).1
    ≤ written adapter + allowance setup pool_ref Action.set_heater
execute-WritesOnce_example = execute-WritesOnce setup pool_ref heat adapter

abbrev heated : ProviderCommandResult
heated = record {
  outcome = CommandOutcome.applied;
  state = some (record {
    state = record unreported {
      current_temperature_c = some (pos 0);
      target_temperature_c = some (pos 30000);
      heater = some true;
      filter_pump = some false;
      bubbles = some false;
      control_panel_lock = some false;
    };
    availability = Availability.online;
    observed_at = 5;
  });
  failure_code = none;
}

execute_heats : (execute setup pool_ref heat adapter).0 ≡ returned heated
unfolding execute action_datapoint Datapoint-discrete read_payload read_with_retry read_once
    read_status exchange send encode encode_varint await_answer await_frame feed decode_frame
    decode_varint unsolicited decode value_for encode_control may_write write_and_confirm
    send_control build_control_payload confirm to_state snapshot close to_celsius from_celsius ◌*ℤ◌
execute_heats = refl

applied-IsConfirmed_example : IsConfirmed setup heat (execute setup pool_ref heat adapter).1 heated
applied-IsConfirmed_example =
    applied-IsConfirmed setup pool_ref heat adapter heated execute_heats refl

to_celsius-from_celsius_example :
    (to_celsius (from_celsius (pos 37500) true) true ≤ℤ pos (37500 + slack true))
    × (pos 37500 ≤ℤ to_celsius (from_celsius (pos 37500) true) true +ℤ pos (slack true))
to_celsius-from_celsius_example = to_celsius-from_celsius 37500 true

abbrev floor_lamp : EntityId
floor_lamp = record { domain = "light"; object_id = "floor_lamp" }

-- The lamp as it is reported after a call that dims it to 40 percent.
abbrev dimmed : HaEntity
dimmed = record {
  entity_id = floor_lamp;
  state = "on";
  attributes = λ key. if same_text key "brightness" then some (Attribute.int (pos 102)) else none;
}

abbrev ha_setup : HaSetup
ha_setup = record {
  released_domains = "light" ∷ [];
  confirm_attempts = 4;
  read_float = λ _. none;
  provider_name = 2;
  code = λ id. if same_text id.object_id "floor_lamp" then 9 else 0;
}

abbrev ha : HaAdapter
ha = record {
  kinds = (9, (floor_lamp, DeviceKind.light)) ∷ [];
  calls = [];
  service_replies = returned [] ∷ [];
  state_replies = failed Failure.unavailable ∷ returned dimmed ∷ [];
  clock = 5;
}

abbrev lamp_ref : ProviderDeviceRef
lamp_ref = record { provider = 2; provider_device_id = 9 }

abbrev dim : ProviderCommand
dim = record { action = Action.set_brightness; params = CommandParams.brightness 40 }

-- The first read back fails, the second shows the lamp dimmed.
dim_run : Gated.execute ha_setup lamp_ref dim ha ≡ (
  returned (
      Gated.applied (record {
        state = record unreported { power = some true; brightness = some 40 };
        availability = Availability.online;
        observed_at = 5;
      })),
  record ha {
    calls =
        record {
          domain = "light";
          service = "turn_on";
          entity_id = floor_lamp;
          content = ServiceData.brightness_pct 40;
        }
        ∷ [];
    service_replies = [];
    state_replies = [];
  },
)
unfolding Gated.execute Gated.command_entity Gated.call_and_judge Gated.among Gated.read_back
    Gated.confirm HaP.entity_of HaP.call_service HaP.call_for HaP.snapshot matches fits normalise
    availability round_ratio round_half_even ◌*ℤ◌
dim_run = refl

execute-IsGated_example :
    ((Gated.execute ha_setup lamp_ref dim ha).1.calls ≡ ha.calls)
    ⊎ IsAsked ha_setup lamp_ref dim ha (Gated.execute ha_setup lamp_ref dim ha).1
execute-IsGated_example = execute-IsGated ha_setup lamp_ref dim ha

-- A controller that hangs up and does not accept the next connection, but the one after that.
abbrev interrupted : Adapter
interrupted = record adapter {
  client = record {
    is_connected = true;
    buffer = [];
    pending = [];
    passcode = 1 ∷ [];
    sequence = 0;
    sent = [];
    connects = false ∷ true ∷ [];
    drains = [];
    reads =
        Read.os_error
        ∷ Read.chunk (0 ∷ 0 ∷ 0 ∷ 3 ∷ 6 ∷ 0 ∷ 0 ∷ 7 ∷ 0 ∷ 1 ∷ 42 ∷ [])
        ∷ Read.chunk (0 ∷ 0 ∷ 0 ∷ 3 ∷ 3 ∷ 0 ∷ 0 ∷ 9 ∷ [])
        ∷ Read.chunk (status_frame heater_on)
        ∷ [];
  };
  availability = Availability.online;
}

abbrev after_outage : Adapter
after_outage = (read_payload setup interrupted).1

abbrev after_return : Adapter
after_return = (read_payload setup (away after_outage)).1

outage : read_payload setup interrupted ≡ (failed Failure.unavailable, after_outage)
unfolding read_payload read_with_retry read_once read_status exchange send encode encode_varint
    await_answer await_frame feed decode_frame decode_varint unsolicited decode close connect login
    enter encode_length_prefixed decode_length_prefixed Datapoint-discrete
outage = refl

outage_online : is_offline after_outage.availability ≡ false
unfolding read_payload read_with_retry read_once read_status exchange send encode encode_varint
    await_answer await_frame feed decode_frame decode_varint unsolicited decode close connect login
    enter encode_length_prefixed decode_length_prefixed Datapoint-discrete
outage_online = refl

return : read_payload setup (away after_outage) ≡ (returned heater_on, after_return)
unfolding read_payload read_with_retry read_once read_status exchange send encode encode_varint
    await_answer await_frame feed decode_frame decode_varint unsolicited decode close connect login
    enter encode_length_prefixed decode_length_prefixed Datapoint-discrete
return = refl

poll_hides_return_example :
    (poll setup (some heater_on) interrupted
      ≡ (returned (some (offline_snapshot (away after_outage)), some heater_on), away after_outage))
    × (poll setup (some heater_on) (poll setup (some heater_on) interrupted).1
        ≡ (returned (none, some heater_on), after_return))
poll_hides_return_example =
    poll_hides_return setup heater_on interrupted after_outage after_return outage outage_online
      return

abbrev mild : Weather.Turn
mild = record { answer = Answer.temperature_2m (pos 12340); jitter = 0; now = 900000 }

abbrev silent : Weather.Turn
silent = record { answer = Answer.no_answer; jitter = 7000; now = 1800000 }

abbrev absurd_heat : Weather.Turn
absurd_heat = record { answer = Answer.temperature_2m (pos 60001); jitter = 9000; now = 2800000 }

mild_read : fetch mild.answer ≡ returned (pos 12300)
unfolding fetch round_ratio round_half_even ◌*ℤ◌
mild_read = refl

none_read :
    (all_failed (silent ∷ silent ∷ []) ≡ true) × (is_failure (fetch absurd_heat.answer) ≡ true)
unfolding fetch
none_read = (refl, refl)

-- The third failure in a row waits four minutes and the jitter.
subscribe_backs_off_example :
    subscribe 900000 (silent ∷ mild ∷ silent ∷ silent ∷ absurd_heat ∷ [])
    ≡ subscribe 900000 (silent ∷ mild ∷ silent ∷ silent ∷ [])
      ++ Step.slept 900000 ∷ Step.asked ∷ Step.slept 249000 ∷ []
subscribe_backs_off_example =
    subscribe_backs_off 900000 (silent ∷ []) mild (pos 12300) (silent ∷ silent ∷ []) absurd_heat
      mild_read none_read.0 none_read.1
