-- ===== src/Commands/Reconcile/Desired.antt =====
-- Reconciliation against the state that an action asks for
-- (backend/src/homeflow/commands/reconcile.py).
use homeflow.Base.{◌≡◌, ◌↔◌, ap, Option, refl, ◌≢◌, true, false, none, some, arith, ℕ_discrete}
use homeflow.Base.Int.{ℤ, pos, ◌-ℤ◌, ◌+ℤ◌, ◌≤ℤ◌}
use homeflow.Commands.Models.{Action, CommandParams, PlaybackCommand}
use homeflow.Commands.Policy.Risk.{Fits}
use homeflow.Commands.Reconcile.{
  Bool-discrete, compare_with, close_to, expected_playback, desired_matches,
}
use homeflow.Devices.Models.{DeviceState, PlaybackState, LockState-discrete, PlaybackState-discrete}

-- The state that a device reports once it has done what was asked.
abbrev pub applied : Action → CommandParams → DeviceState → DeviceState
applied Action.set_power (CommandParams.on_off on) s = record s { power = some on }
applied Action.set_brightness (CommandParams.brightness b) s = record s { brightness = some b }
applied Action.set_volume (CommandParams.volume v) s = record s { volume = some v }
applied Action.set_playback (CommandParams.playback p) s = record s {
  playback = some (expected_playback p);
}
applied Action.set_target_temperature (CommandParams.target_temperature t) s = record s {
  target_temperature_c = some t;
}
applied Action.set_heater (CommandParams.on_off on) s = record s { heater = some on }
applied Action.set_filter (CommandParams.on_off on) s = record s { filter_pump = some on }
applied Action.set_bubbles (CommandParams.on_off on) s = record s { bubbles = some on }
applied Action.set_control_panel_lock (CommandParams.on_off on) s = record s {
  control_panel_lock = some on;
}
applied Action.set_lock_state (CommandParams.lock_state l) s = record s { lock_state = some l }
applied _ _ s = s

compare_self {ℓ} : {A : Type ℓ} (dec : Discrete A) (x : A) → compare_with dec (some x) x ≡ some true
compare_self dec x =
    elim (dec x x) as (λ d. some (elim d [ yes _ ↦ true | no _ ↦ false ]) ≡ some true) [
      | yes _ ↦ refl
      | no n ↦ absurd (n refl)
    ]

close_self : (t : ℤ) → close_to (some t) t ≡ some true
unfolding ◌-ℤ◌
close_self t = ground arith

-- Within fifty thousandths of a degree.
abbrev pub IsClose : Option ℤ → ℤ → Type 0
IsClose none wanted = ⊥
IsClose (some t) wanted = (t ≤ℤ wanted +ℤ pos 50) × (wanted ≤ℤ t +ℤ pos 50)

-- The device reports what was asked for, a temperature within the tolerance.
abbrev pub Reports : Action → CommandParams → DeviceState → Type 0
Reports Action.set_power (CommandParams.on_off on) s = s.power ≡ some on
Reports Action.set_brightness (CommandParams.brightness b) s = s.brightness ≡ some b
Reports Action.set_volume (CommandParams.volume v) s = s.volume ≡ some v
Reports Action.set_playback (CommandParams.playback PlaybackCommand.play) s =
    s.playback ≡ some PlaybackState.playing
Reports Action.set_playback (CommandParams.playback PlaybackCommand.pause) s =
    s.playback ≡ some PlaybackState.paused
Reports Action.set_target_temperature (CommandParams.target_temperature t) s =
    IsClose s.target_temperature_c t
Reports Action.set_heater (CommandParams.on_off on) s = s.heater ≡ some on
Reports Action.set_filter (CommandParams.on_off on) s = s.filter_pump ≡ some on
Reports Action.set_bubbles (CommandParams.on_off on) s = s.bubbles ≡ some on
Reports Action.set_control_panel_lock (CommandParams.on_off on) s = s.control_panel_lock ≡ some on
Reports Action.set_lock_state (CommandParams.lock_state l) s = s.lock_state ≡ some l
Reports _ _ s = ⊥

some-injective {ℓ} : {A : Type ℓ} {x y : A} → some x ≡ some y → x ≡ y
some-injective {x = x} e = ap (λ o. elim o [ some z ↦ z | none ↦ x ]) e

compare_iff {ℓ} :
    {A : Type ℓ} (dec : Discrete A) (o : Option A) (x : A)
    → (compare_with dec o x ≡ some true) ↔ (o ≡ some x)
compare_iff dec none x = (λ e. ground arith, λ e. ground arith)
compare_iff dec (some y) x = go (dec y x)
  where
    go :
        (d : Dec (y ≡ x))
        → (some (elim d [ yes _ ↦ true | no _ ↦ false ]) ≡ some true) ↔ (some y ≡ some x)
    go (yes e) = (λ _. ap some e, λ _. refl)
    go (no n) = (λ f. ground arith, λ e. absurd (n (some-injective e)))

close_to_iff : (o : Option ℤ) (t : ℤ) → (close_to o t ≡ some true) ↔ IsClose o t
unfolding ◌-ℤ◌ ◌+ℤ◌
close_to_iff none t = (λ e. ground arith, λ f. absurd f)
close_to_iff (some o) t = ground arith

reports_lem :
    (action : Action) (p : CommandParams) (s : DeviceState)
    → Fits action p
    → (desired_matches action p s ≡ some true) ↔ Reports action p s
unfolding desired_matches
reports_lem Action.set_power (CommandParams.on_off v) s f = compare_iff Bool-discrete s.power v
reports_lem Action.set_brightness (CommandParams.brightness v) s f =
    compare_iff ℕ_discrete s.brightness v
reports_lem Action.set_volume (CommandParams.volume v) s f = compare_iff ℕ_discrete s.volume v
reports_lem Action.set_playback (CommandParams.playback PlaybackCommand.play) s f =
    compare_iff PlaybackState-discrete s.playback PlaybackState.playing
reports_lem Action.set_playback (CommandParams.playback PlaybackCommand.pause) s f =
    compare_iff PlaybackState-discrete s.playback PlaybackState.paused
reports_lem Action.set_target_temperature (CommandParams.target_temperature v) s f =
    close_to_iff s.target_temperature_c v
reports_lem Action.set_heater (CommandParams.on_off v) s f = compare_iff Bool-discrete s.heater v
reports_lem Action.set_filter (CommandParams.on_off v) s f =
    compare_iff Bool-discrete s.filter_pump v
reports_lem Action.set_bubbles (CommandParams.on_off v) s f = compare_iff Bool-discrete s.bubbles v
reports_lem Action.set_control_panel_lock (CommandParams.on_off v) s f =
    compare_iff Bool-discrete s.control_panel_lock v
reports_lem Action.set_lock_state (CommandParams.lock_state v) s f =
    compare_iff LockState-discrete s.lock_state v
reports_lem Action.unlatch CommandParams.no_params s f = (λ e. ground arith, λ g. absurd g)
reports_lem _ _ s f = absurd f

recognised :
    (action : Action) (p : CommandParams) (s : DeviceState)
    → Fits action p
    → (action ≢ Action.unlatch → desired_matches action p (applied action p s) ≡ some true)
      × (desired_matches Action.unlatch p s ≡ none)
unfolding desired_matches
recognised Action.set_power (CommandParams.on_off v) s f = (λ _. compare_self Bool-discrete v, refl)
recognised Action.set_brightness (CommandParams.brightness v) s f =
    (λ _. compare_self ℕ_discrete v, refl)
recognised Action.set_volume (CommandParams.volume v) s f = (λ _. compare_self ℕ_discrete v, refl)
recognised Action.set_playback (CommandParams.playback v) s f =
    (λ _. compare_self PlaybackState-discrete (expected_playback v), refl)
recognised Action.set_target_temperature (CommandParams.target_temperature v) s f =
    (λ _. close_self v, refl)
recognised Action.set_heater (CommandParams.on_off v) s f =
    (λ _. compare_self Bool-discrete v, refl)
recognised Action.set_filter (CommandParams.on_off v) s f =
    (λ _. compare_self Bool-discrete v, refl)
recognised Action.set_bubbles (CommandParams.on_off v) s f =
    (λ _. compare_self Bool-discrete v, refl)
recognised Action.set_control_panel_lock (CommandParams.on_off v) s f =
    (λ _. compare_self Bool-discrete v, refl)
recognised Action.set_lock_state (CommandParams.lock_state v) s f =
    (λ _. compare_self LockState-discrete v, refl)
recognised Action.unlatch CommandParams.no_params s f = (λ n. absurd (n refl), refl)
recognised _ _ s f = absurd f

-- Of every action but unlatching, the requested state is recognised when the device reports it; of
-- unlatching a door, no state tells the outcome. A state is recognised exactly when it reports the
-- requested value, a temperature within 0.05 degrees.
pub desired_matches-applied :
    (action : Action) (p : CommandParams) (s : DeviceState)
    → Fits action p
    → (action ≢ Action.unlatch → desired_matches action p (applied action p s) ≡ some true)
      × (desired_matches Action.unlatch p s ≡ none)
      × ((desired_matches action p s ≡ some true) ↔ Reports action p s)
desired_matches-applied action p s f =
    let (found, unknown) = recognised action p s f in (found, unknown, reports_lem action p s f)
