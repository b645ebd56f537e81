-- ===== src/Weather.antt =====
-- The adapter for the outdoor temperature
-- (backend/src/homeflow/integrations/weather/provider.py). Temperatures count thousandths of a degree
-- and times thousandths of a second; a number stands for each name in a reference. What the service answers, and the jitter, are choices of the
-- environment.
pub mod Patience
use homeflow.Base.{
  ℕ, ◌+◌, ◌*◌, min, ◌==◌, ◌&&◌, Bool, Option, some, none, List, [], ◌∷◌, ◌++◌, if◌then◌else◌,
  String,
}
use homeflow.Base.Int.{ℤ, pos, ◌*ℤ◌, negsuc, leb_ℤ}
use homeflow.Base.Round.{round_ratio}
use homeflow.Capabilities.{Capability, DeviceKind}
use homeflow.Devices.Models.{Availability, DeviceConstraints, DeviceState, unreported}
use homeflow.Integrations.{
  ProviderCommand, ProviderCommandResult, ProviderDevice, ProviderDeviceRef, ProviderState,
}
use homeflow.Integrations.Flow.{Failure, Outcome, returned, failed}

-- `outdoor_ref`; the one device is number 0 of the provider 3.
abbrev pub outdoor_ref : ProviderDeviceRef
outdoor_ref = record { provider = 3; provider_device_id = 0 }

abbrev pub is_outdoor : ProviderDeviceRef → Bool
is_outdoor ref = (ref.provider == 3) && (ref.provider_device_id == 0)

-- `discover_devices`
abbrev pub discover_devices : String → Option String → List ProviderDevice
discover_devices name room =
    record {
      ref = outdoor_ref;
      suggested_name = name;
      kind = DeviceKind.sensor;
      capabilities = Capability.current_temperature ∷ [];
      room_hint = room;
      constraints = record {
        target_temperature_min_c = none;
        target_temperature_max_c = none;
        target_temperature_step_c = none;
      };
    }
    ∷ []

-- What the service answers: no response or one that is no JSON, JSON without a temperature, or a
-- temperature.
pub data Answer : Type 0 where
  no_answer unexpected_payload : Answer
  temperature_2m : ℤ → Answer

abbrev pub is_plausible : ℤ → Bool
is_plausible t = leb_ℤ (negsuc 89999) t && leb_ℤ t (pos 60000)

-- `_fetch`
unfoldable pub fetch : Answer → Outcome ℤ
fetch Answer.no_answer = failed Failure.unavailable
fetch Answer.unexpected_payload = failed Failure.unavailable
fetch (Answer.temperature_2m t) =
    if is_plausible t then returned (round_ratio t 100 *ℤ pos 100) else failed Failure.unavailable

abbrev pub reading : ℤ → ℕ → ProviderState
reading celsius now = record {
  state = record unreported { current_temperature_c = some celsius };
  availability = Availability.online;
  observed_at = now;
}

-- `get_state`
abbrev pub read_at : ℕ → Outcome ℤ → Outcome ProviderState
read_at now (returned celsius) = returned (reading celsius now)
read_at now (failed e) = failed e

unfoldable pub get_state : ProviderDeviceRef → Answer → ℕ → Outcome ProviderState
get_state ref answer now =
    if is_outdoor ref then read_at now (fetch answer) else failed Failure.unavailable

-- `execute`
abbrev pub execute : ProviderDeviceRef → ProviderCommand → Outcome ProviderCommandResult
execute ref command = failed Failure.rejected

abbrev pub initial_backoff : ℕ
initial_backoff = 60000

abbrev pub max_backoff : ℕ
max_backoff = 3600000

-- What `subscribe` does, in order.
pub data Step : Type 0 where
  slept : ℕ → Step
  asked : Step
  yielded : ProviderDeviceRef → ProviderState → Step

-- What a turn of the loop meets: the answer, the jitter and the time of the answer.
pub record Turn : Type 0 where
  pub answer : Answer
  pub jitter : ℕ
  pub now : ℕ

-- The end of a turn, and the backoff for the next one.
abbrev pub after_fetch : ℕ → Turn → Outcome ℤ → List Step × ℕ
after_fetch backoff t (failed _) =
    (Step.slept (min (backoff + t.jitter) max_backoff) ∷ [], min (backoff * 2) max_backoff)
after_fetch backoff t (returned celsius) =
    (Step.yielded outdoor_ref (reading celsius t.now) ∷ [], initial_backoff)

unfoldable pub turn : ℕ → ℕ → Turn → List Step × ℕ
turn poll backoff t =
    let (steps, next) = after_fetch backoff t (fetch t.answer) in
    (Step.slept poll ∷ Step.asked ∷ steps, next)

-- `subscribe` over so many turns, from a backoff.
unfoldable pub run : ℕ → ℕ → List Turn → List Step × ℕ
run poll backoff [] = ([], backoff)
run poll backoff (t ∷ ts) =
    let (steps, next) = turn poll backoff t in
    let (rest, last) = run poll next ts in (steps ++ rest, last)

unfoldable pub subscribe : ℕ → List Turn → List Step
subscribe poll ts = (run poll initial_backoff ts).0
