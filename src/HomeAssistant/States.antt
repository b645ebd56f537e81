-- ===== src/HomeAssistant/States.antt =====
-- The state of an entity (backend/src/homeflow/integrations/home_assistant/entities.py). `read_float` is
-- Python's `float` of a text, in thousandths; a text that it reads as no finite number is left out.
use homeflow.Base.{Bool, ℕ, Option, none, some, List, [], ◌∷◌, String, leb, if◌then◌else◌}
use homeflow.Base.Int.{ℤ, pos, negsuc, ◌*ℤ◌}
use homeflow.Base.Round.{round_ratio}
use homeflow.Base.Text.{same_text}
use homeflow.Capabilities.{DeviceKind}
use homeflow.Devices.Models.{DeviceState, LockState, PlaybackState, unreported}
use homeflow.HomeAssistant.Entities.{HaEntity, is_one_of, number, text}

abbrev pub look_up {ℓ} : {A : Type ℓ} → A → List (String × A) → String → A
look_up default [] key = default
look_up default ((k, a) ∷ rest) key = if same_text key k then a else look_up default rest key

-- `_LOCK_STATES`
abbrev pub lock_states : List (String × LockState)
lock_states =
    ("locked", LockState.locked)
    ∷ ("unlocked", LockState.unlocked)
    ∷ ("open", LockState.unlocked)
    ∷ ("opening", LockState.unknown)
    ∷ ("locking", LockState.unknown)
    ∷ ("unlocking", LockState.unknown)
    ∷ ("jammed", LockState.unknown)
    ∷ []

-- `_PLAYBACK_STATES`
abbrev pub playback_states : List (String × PlaybackState)
playback_states =
    ("playing", PlaybackState.playing)
    ∷ ("paused", PlaybackState.paused)
    ∷ ("idle", PlaybackState.stopped)
    ∷ ("standby", PlaybackState.stopped)
    ∷ ("off", PlaybackState.stopped)
    ∷ ("buffering", PlaybackState.playing)
    ∷ []

-- A percentage, where the bounds of `DeviceState` hold; `none` is its `ValidationError`.
abbrev pub percent : ℤ → Option ℕ
percent (pos n) = if leb n 100 then some n else none
percent (negsuc n) = none

abbrev pub with_percent : (Option ℕ → DeviceState) → Option ℕ → Option DeviceState
with_percent f none = none
with_percent f (some n) = some (f (some n))

abbrev pub percent_of : (ℤ → ℤ) → (Option ℕ → DeviceState) → Option ℤ → Option DeviceState
percent_of scale f none = some (f none)
percent_of scale f (some v) = with_percent f (percent (scale v))

abbrev pub heating : String → Option Bool
heating state =
    if same_text state "off" then none else some (is_one_of state ("heat" ∷ "heat_cool" ∷ []))

abbrev pub temperature_only : Option ℤ → DeviceState
temperature_only t = record unreported { current_temperature_c = t }

-- The branches of `normalise` by the kind of the device.
abbrev pub reported : (String → Option ℤ) → HaEntity → DeviceKind → Option DeviceState
reported read_float entity DeviceKind.light =
    percent_of (λ b. round_ratio (b *ℤ pos 100) 255000)
      (λ b. record unreported { power = some (same_text entity.state "on"); brightness = b })
      (number entity "brightness")
reported read_float entity DeviceKind.switch =
    percent_of (λ b. round_ratio (b *ℤ pos 100) 255000)
      (λ b. record unreported { power = some (same_text entity.state "on"); brightness = b })
      (number entity "brightness")
reported read_float entity DeviceKind.media_player =
    percent_of (λ v. round_ratio v 10)
      (λ v. record unreported {
        playback = some (look_up PlaybackState.unknown playback_states entity.state);
        volume = v;
        program_name = text entity "media_title" 120;
      })
      (number entity "volume_level")
reported read_float entity DeviceKind.lock =
    some
      (record unreported { lock_state = some (look_up LockState.unknown lock_states entity.state) })
reported read_float entity DeviceKind.thermostat = some (record unreported {
  current_temperature_c = number entity "current_temperature";
  target_temperature_c = number entity "temperature";
  heater = heating entity.state;
})
reported read_float entity DeviceKind.sensor = some (temperature_only (read_float entity.state))
reported read_float entity _ = some unreported

-- `normalise`
unfoldable pub normalise : (String → Option ℤ) → HaEntity → DeviceKind → Option DeviceState
normalise read_float entity kind =
    if is_one_of entity.state ("unavailable" ∷ "unknown" ∷ [])
    then some unreported
    else reported read_float entity kind
