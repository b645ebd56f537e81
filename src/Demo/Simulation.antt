-- ===== src/Demo/Simulation.antt =====
-- How a demo device answers and how time changes it
-- (backend/src/homeflow/integrations/demo/provider.py). A simulated time counts thousandths of a second.
use homeflow.Base.{ℕ, ◌-◌, ◌*◌, ◌/◌, Bool, true, false, Option, none, some, ◌==◌, if◌then◌else◌}
use homeflow.Base.Int.{ℤ, pos, ◌+ℤ◌, ◌-ℤ◌, ◌*ℤ◌, leb_ℤ}
use homeflow.Base.Round.{round_ratio}
use homeflow.Capabilities.{DeviceKind}
use homeflow.Commands.Models.{Action, CommandParams, PlaybackCommand}
use homeflow.Devices.Models.{DeviceState, PlaybackState, ProgramState}

-- `_apply`
abbrev pub playback_after : PlaybackCommand → PlaybackState
playback_after PlaybackCommand.play = PlaybackState.playing
playback_after PlaybackCommand.pause = PlaybackState.paused

-- The heater runs with the filter pump, and stops with it.
abbrev pub with_heater : Bool → DeviceState → DeviceState
with_heater true s = record s { heater = some true; filter_pump = some true }
with_heater false s = record s { heater = some false }

abbrev pub with_filter : Bool → DeviceState → DeviceState
with_filter true s = record s { filter_pump = some true }
with_filter false s = record s { filter_pump = some false; heater = some false }

unfoldable pub apply_to : Action → CommandParams → DeviceState → DeviceState
apply_to Action.set_power (CommandParams.on_off on) s = record s { power = some on }
apply_to Action.set_brightness (CommandParams.brightness b) s = record s {
  brightness = some b;
  power = some true;
}
apply_to Action.set_volume (CommandParams.volume v) s = record s { volume = some v }
apply_to Action.set_playback (CommandParams.playback p) s = record s {
  playback = some (playback_after p);
}
apply_to Action.set_target_temperature (CommandParams.target_temperature t) s = record s {
  target_temperature_c = some t;
}
apply_to Action.set_heater (CommandParams.on_off on) s = with_heater on s
apply_to Action.set_filter (CommandParams.on_off on) s = with_filter on s
apply_to Action.set_bubbles (CommandParams.on_off on) s = record s { bubbles = some on }
apply_to Action.set_control_panel_lock (CommandParams.on_off on) s = record s {
  control_panel_lock = some on;
}
apply_to Action.set_lock_state (CommandParams.lock_state l) s = record s { lock_state = some l }
apply_to _ _ s = s

abbrev pub is_on : Option Bool → Bool
is_on none = false
is_on (some on) = on

-- The temperature after heating, or cooling to the air's 22 degrees, to a hundredth of a degree.
unfoldable pub heated : ℕ → ℤ → ℤ → ℤ
heated time target current =
    let warmer = current *ℤ pos 60000 +ℤ pos (35 * time) in
    let limit = target *ℤ pos 60000 in
    round_ratio (if leb_ℤ limit warmer then limit else warmer) 600000 *ℤ pos 10

unfoldable pub cooled : ℕ → Bool → ℤ → ℤ
cooled time bubbling current =
    let rate = if bubbling then 8 else 4 in
    let colder = current *ℤ pos 60000000 -ℤ (current -ℤ pos 22000) *ℤ pos (rate * time) in
    let limit = pos 1320000000000 in
    round_ratio (if leb_ℤ limit colder then colder else limit) 600000000 *ℤ pos 10

-- `_advance_pool`; to store the temperature that is there already changes nothing.
abbrev pub pool_at : ℕ → ℤ → DeviceState → DeviceState
pool_at time current s =
    let cooler = record s {
      current_temperature_c = some (cooled time (is_on s.bubbles) current);
    } in
    if is_on s.heater
    then elim s.target_temperature_c [
      | none ↦ cooler
      | some target ↦
          if leb_ℤ target current
          then s
          else record s { current_temperature_c = some (heated time target current) }
    ]
    else cooler

unfoldable pub advance_pool : ℕ → DeviceState → DeviceState
advance_pool time s = elim s.current_temperature_c [
  | none ↦ s
  | some current ↦ pool_at time current s
]

-- `_advance_appliance`
abbrev pub appliance_at : ℕ → Option ProgramState → Option ℕ → DeviceState → DeviceState
appliance_at seconds (some ProgramState.running) (some remaining) s =
    let left = remaining - seconds in
    if left == remaining
    then s
    else if left == 0
    then record s { remaining_seconds = some 0; program = some ProgramState.finished }
    else record s { remaining_seconds = some left }
appliance_at seconds _ _ s = s

unfoldable pub advance_appliance : ℕ → DeviceState → DeviceState
advance_appliance time s = appliance_at (time / 1000) s.program s.remaining_seconds s

-- `_advance`
unfoldable pub advance : DeviceKind → ℕ → DeviceState → DeviceState
advance DeviceKind.pool time s = advance_pool time s
advance DeviceKind.washing_machine time s = advance_appliance time s
advance DeviceKind.dishwasher time s = advance_appliance time s
advance _ time s = s
