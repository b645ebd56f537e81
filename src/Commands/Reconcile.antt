-- ===== src/Commands/Reconcile.antt =====
-- Desired-state reconciliation after a timeout (backend/src/homeflow/commands/reconcile.py).
pub mod Desired
use homeflow.Base.{Bool, true, false, Option, none, some, ℕ_discrete, ◌&&◌}
use homeflow.Base.Int.{ℤ, pos, ◌-ℤ◌, leb_ℤ}
use homeflow.Commands.Models.{Action, CommandParams, PlaybackCommand}
use homeflow.Devices.Models.{DeviceState, PlaybackState, LockState-discrete, PlaybackState-discrete}

-- `_compare`
abbrev pub compare_with {ℓ} : {A : Type ℓ} → Discrete A → Option A → A → Option Bool
compare_with dec none expected = none
compare_with dec (some observed) expected =
    some (elim (dec observed expected) [ yes _ ↦ true | no _ ↦ false ])

pub Bool-discrete : Discrete Bool
Bool-discrete = hlevel

abbrev pub expected_playback : PlaybackCommand → PlaybackState
expected_playback PlaybackCommand.play = PlaybackState.playing
expected_playback PlaybackCommand.pause = PlaybackState.paused

-- `abs(observed - wanted) <= _TEMPERATURE_EPSILON_C`, which is fifty thousandths.
abbrev pub close_to : Option ℤ → ℤ → Option Bool
close_to none wanted = none
close_to (some observed) wanted =
    some (leb_ℤ (observed -ℤ wanted) (pos 50) && leb_ℤ (wanted -ℤ observed) (pos 50))

-- `none` means that the outcome cannot be told from the state.
unfoldable pub desired_matches : Action → CommandParams → DeviceState → Option Bool
desired_matches Action.set_power (CommandParams.on_off on) s = compare_with Bool-discrete s.power on
desired_matches Action.set_brightness (CommandParams.brightness b) s =
    compare_with ℕ_discrete s.brightness b
desired_matches Action.set_volume (CommandParams.volume v) s = compare_with ℕ_discrete s.volume v
desired_matches Action.set_playback (CommandParams.playback p) s =
    compare_with PlaybackState-discrete s.playback (expected_playback p)
desired_matches Action.set_target_temperature (CommandParams.target_temperature t) s =
    close_to s.target_temperature_c t
desired_matches Action.set_heater (CommandParams.on_off on) s =
    compare_with Bool-discrete s.heater on
desired_matches Action.set_filter (CommandParams.on_off on) s =
    compare_with Bool-discrete s.filter_pump on
desired_matches Action.set_bubbles (CommandParams.on_off on) s =
    compare_with Bool-discrete s.bubbles on
desired_matches Action.set_control_panel_lock (CommandParams.on_off on) s =
    compare_with Bool-discrete s.control_panel_lock on
desired_matches Action.set_lock_state (CommandParams.lock_state l) s =
    compare_with LockState-discrete s.lock_state l
desired_matches _ _ s = none
