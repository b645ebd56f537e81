-- ===== src/Devices/Models.antt =====
-- The canonical device model (backend/src/homeflow/devices/models.py). A temperature is a number of
-- thousandths of a degree, a moment a number of microseconds, an identifier a number.
use homeflow.Base.{
  ℕ, ◌-◌, ◌*◌, Bool, true, false, Option, none, some, List, String, ltb, ℕ_discrete, Bool-cases,
  inl, inr, ◌≡◌,
}
use homeflow.Base.Int.{ℤ}
use homeflow.Capabilities.{DeviceKind, Capability, contains}
use text.Mathlib.Text.{◌==◌ as str_eq}
use text.Mathlib.TextEquality.{eq_iff}

pub data Availability : Type 0 where
  online offline unknown : Availability

pub data LockState : Type 0 where
  locked unlocked unknown : LockState

pub data PlaybackState : Type 0 where
  playing paused stopped unknown : PlaybackState

pub data ProgramState : Type 0 where
  idle running finished unknown : ProgramState

pub data StateSource : Type 0 where
  provider_snapshot provider_event command_result : StateSource

-- `none` is a field that was not reported.
pub record DeviceState : Type 0 where
  pub power : Option Bool
  pub brightness : Option ℕ
  pub current_temperature_c : Option ℤ
  pub target_temperature_c : Option ℤ
  pub heater : Option Bool
  pub filter_pump : Option Bool
  pub filter_last_started_at : Option ℕ
  pub bubbles : Option Bool
  pub control_panel_lock : Option Bool
  pub lock_state : Option LockState
  pub volume : Option ℕ
  pub playback : Option PlaybackState
  pub program : Option ProgramState
  pub program_name : Option String
  pub remaining_seconds : Option ℕ

-- `DeviceState()`
abbrev pub unreported : DeviceState
unreported = record {
  power = none;
  brightness = none;
  current_temperature_c = none;
  target_temperature_c = none;
  heater = none;
  filter_pump = none;
  filter_last_started_at = none;
  bubbles = none;
  control_panel_lock = none;
  lock_state = none;
  volume = none;
  playback = none;
  program = none;
  program_name = none;
  remaining_seconds = none;
}

-- A field of `other` where it is reported.
abbrev pub overlay {ℓ} : {A : Type ℓ} → Option A → Option A → Option A
overlay mine none = mine
overlay mine (some theirs) = some theirs

unfoldable pub merged_with : DeviceState → DeviceState → DeviceState
merged_with s other = record {
  power = overlay s.power other.power;
  brightness = overlay s.brightness other.brightness;
  current_temperature_c = overlay s.current_temperature_c other.current_temperature_c;
  target_temperature_c = overlay s.target_temperature_c other.target_temperature_c;
  heater = overlay s.heater other.heater;
  filter_pump = overlay s.filter_pump other.filter_pump;
  filter_last_started_at = overlay s.filter_last_started_at other.filter_last_started_at;
  bubbles = overlay s.bubbles other.bubbles;
  control_panel_lock = overlay s.control_panel_lock other.control_panel_lock;
  lock_state = overlay s.lock_state other.lock_state;
  volume = overlay s.volume other.volume;
  playback = overlay s.playback other.playback;
  program = overlay s.program other.program;
  program_name = overlay s.program_name other.program_name;
  remaining_seconds = overlay s.remaining_seconds other.remaining_seconds;
}

pub record DeviceConstraints : Type 0 where
  pub target_temperature_min_c : Option ℤ
  pub target_temperature_max_c : Option ℤ
  pub target_temperature_step_c : Option ℤ

pub record Device : Type 0 where
  pub id : ℕ
  pub display_name : String
  pub kind : DeviceKind
  pub room_id : Option ℕ
  pub room_name : Option String
  pub capabilities : List Capability
  pub availability : Availability
  pub state : DeviceState
  pub constraints : DeviceConstraints
  pub state_observed_at : ℕ
  pub last_seen_at : ℕ
  pub state_source : StateSource

unfoldable pub supports : Device → Capability → Bool
supports d capability = contains capability d.capabilities

abbrev pub is_offline : Availability → Bool
is_offline Availability.offline = true
is_offline _ = false

abbrev pub is_online : Availability → Bool
is_online Availability.online = true
is_online _ = false

-- An observation in the future has a negative age, which is below every limit.
unfoldable pub is_stale : Device → ℕ → ℕ → Bool
is_stale d now stale_after_seconds = elim (is_offline d.availability) [
  | true ↦ true
  | false ↦ ltb (stale_after_seconds * 1_000_000) (now - d.state_observed_at)
]

pub String-discrete : Discrete String
String-discrete s t = elim (Bool-cases (str_eq s t)) [
  | inl e ↦ yes ((eq_iff s t).0 e)
  | inr e ↦ no (λ p. differs ((eq_iff s t).1 p) e)
]
  where
    differs : {b : Bool} → b ≡ true → b ≡ false → ⊥
    differs p q = cc

pub Availability-discrete : Discrete Availability
Availability-discrete = hlevel

pub LockState-discrete : Discrete LockState
LockState-discrete = hlevel

pub PlaybackState-discrete : Discrete PlaybackState
PlaybackState-discrete = hlevel

pub OptionProgram-discrete : Discrete (Option ProgramState)
OptionProgram-discrete = hlevel

pub OptionTemperature-discrete : Discrete (Option ℤ)
OptionTemperature-discrete = hlevel ℕ_discrete

-- `before.state == after.state`
pub DeviceState-discrete : Discrete DeviceState
DeviceState-discrete = hlevel (ℕ_discrete, String-discrete)
