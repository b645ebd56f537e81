-- ===== src/Commands/Models.antt =====
-- Commands and their parameters (backend/src/homeflow/commands/models.py).
use homeflow.Base.{
  ℕ, Bool, true, false, ◌&&◌, Option, none, some, List, [], ◌∷◌, String, if◌then◌else◌,
}
use homeflow.Base.Int.{ℤ, pos, pos_part, leb_ℤ}
use homeflow.Devices.Models.{LockState}
use package.text.Mathlib.Text.{◌==◌ as str_eq}

pub data RiskClass : Type 0 where
  low medium high : RiskClass

pub data CommandStatus : Type 0 where
  pending running succeeded failed timed_out cancelled superseded unknown : CommandStatus

pub data Action : Type 0 where
  set_power set_brightness set_volume set_playback set_target_temperature set_heater : Action
  set_filter set_bubbles set_control_panel_lock set_lock_state unlatch : Action

pub Action-discrete : Discrete Action
Action-discrete = hlevel

pub data PlaybackCommand : Type 0 where
  play pause : PlaybackCommand

-- One constructor for each class below `CommandParams`.
pub data CommandParams : Type 0 where
  on_off : Bool → CommandParams
  brightness : ℕ → CommandParams
  volume : ℕ → CommandParams
  playback : PlaybackCommand → CommandParams
  target_temperature : ℤ → CommandParams
  lock_state : LockState → CommandParams
  no_params : CommandParams

-- The classes themselves, as `ActionSpec.params_model` names them.
pub data ParamsModel : Type 0 where
  on_off brightness volume playback target_temperature lock_state no_params : ParamsModel

-- A decoded JSON value; a number with a fraction counts thousandths.
pub data Json : Type 0 where
  null : Json
  bool : Bool → Json
  int : ℤ → Json
  float : ℤ → Json
  text : String → Json
  other : Json

abbrev pub RawParameters : Type 0
RawParameters = List (String × Json)

-- How pydantic reads a JSON value as a field of a given type; `none` is a validation error.
pub record Coercion : Type 0 where
  pub as_bool : Json → Option Bool
  pub as_int : Json → Option ℤ
  pub as_float : Json → Option ℤ
  pub as_text : Json → Option String

-- A required field, with `extra="forbid"`.
unfoldable pub sole_field : String → RawParameters → Option Json
sole_field name ((key, v) ∷ []) = if str_eq key name then some v else none
sole_field name [] = none
sole_field name (e ∷ e' ∷ raw) = none

infixl 5 ◌>>=◌
abbrev ◌>>=◌ : {A B : Type 0} → Option A → (A → Option B) → Option B
none >>= f = none
some a >>= f = f a

-- `Field(ge=lo, le=hi)`
abbrev within : ℤ → ℤ → ℤ → Option ℤ
within lo hi v = if leb_ℤ lo v && leb_ℤ v hi then some v else none

unfoldable pub parse_playback : String → Option PlaybackCommand
parse_playback s =
    if str_eq s "PLAY"
    then some PlaybackCommand.play
    else if str_eq s "PAUSE"
    then some PlaybackCommand.pause
    else none

unfoldable pub parse_lock_state : String → Option LockState
parse_lock_state s =
    if str_eq s "LOCKED"
    then some LockState.locked
    else if str_eq s "UNLOCKED"
    then some LockState.unlocked
    else if str_eq s "UNKNOWN"
    then some LockState.unknown
    else none

-- `_reject_unknown`
abbrev reject_unknown : LockState → Option LockState
reject_unknown LockState.unknown = none
reject_unknown LockState.locked = some LockState.locked
reject_unknown LockState.unlocked = some LockState.unlocked

abbrev empty_model : RawParameters → Option CommandParams
empty_model [] = some CommandParams.no_params
empty_model (e ∷ raw) = none

-- `params_model.model_validate(raw)`
unfoldable pub model_validate : Coercion → ParamsModel → RawParameters → Option CommandParams
unfolding sole_field
model_validate c ParamsModel.on_off raw = do
  on ← sole_field "on" raw >>= c.as_bool
  some (CommandParams.on_off on)
model_validate c ParamsModel.brightness raw = do
  v ← sole_field "brightness" raw >>= c.as_int >>= within (pos 0) (pos 100)
  some (CommandParams.brightness (pos_part v))
model_validate c ParamsModel.volume raw = do
  v ← sole_field "volume" raw >>= c.as_int >>= within (pos 0) (pos 100)
  some (CommandParams.volume (pos_part v))
model_validate c ParamsModel.playback raw = do
  p ← sole_field "playback" raw >>= c.as_text >>= parse_playback
  some (CommandParams.playback p)
model_validate c ParamsModel.target_temperature raw = do
  t ← sole_field "celsius" raw >>= c.as_float >>= within (pos 0) (pos 60_000)
  some (CommandParams.target_temperature t)
model_validate c ParamsModel.lock_state raw = do
  l ← sole_field "desired" raw >>= c.as_text >>= parse_lock_state >>= reject_unknown
  some (CommandParams.lock_state l)
model_validate c ParamsModel.no_params raw = empty_model raw

pub record Command : Type 0 where
  pub id : ℕ
  pub device_id : ℕ
  pub requested_by_user_id : ℕ
  pub requested_by_client_id : ℕ
  pub action : Action
  pub parameters : CommandParams
  pub risk_class : RiskClass
  pub correlation_id : String
  pub created_at : ℕ
  pub expires_at : ℕ
  pub started_at : Option ℕ
  pub completed_at : Option ℕ
  pub status : CommandStatus
  pub failure_code : Option String

abbrev pub is_running : CommandStatus → Bool
is_running CommandStatus.running = true
is_running _ = false

unfoldable pub with_status : Command → CommandStatus → ℕ → Option String → Command
with_status c status at code =
    if is_running status
    then record c { status = status; failure_code = code; started_at = some at }
    else record c { status = status; failure_code = code; completed_at = some at }
