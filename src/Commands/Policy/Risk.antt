-- ===== src/Commands/Policy/Risk.antt =====
-- What the policy table implies (backend/src/homeflow/commands/policy.py), and what validated
-- parameters look like (backend/src/homeflow/commands/models.py).
use text.Mathlib.TextEquality.{eq_iff}
use homeflow.Base.{
  ◌≤◌, ◌≡◌, ◌≢◌, ◌↔◌, refl, ℕ, inl, inr, Option-cases, Bool, some, [], ◌∷◌, arith, String,
}
use homeflow.Base.Int.{ℤ, pos, negsuc, ◌≤ℤ◌}
use homeflow.Commands.Models.{
  Action, Coercion, CommandParams, Json, PlaybackCommand, RawParameters, ParamsModel, RiskClass,
  model_validate, sole_field, parse_playback, parse_lock_state,
}
use homeflow.Commands.Policy.{action_spec, classify}
use homeflow.Devices.Models.{LockState}

-- The actions that open a door.
abbrev pub GrantsAccess : Action → CommandParams → Type 0
GrantsAccess Action.unlatch p = Unit
GrantsAccess Action.set_lock_state (CommandParams.lock_state LockState.unlocked) = Unit
GrantsAccess _ _ = ⊥

-- An action has the risk class HIGH exactly when it unlatches or unlocks a door.
pub classify-high :
    (action : Action) (p : CommandParams)
    → (classify action p ≡ RiskClass.high) ↔ GrantsAccess action p
unfolding classify
classify-high action p = ground arith

-- Parameters of the class that an action's policy names, within the bounds of their fields.
abbrev pub Fits : Action → CommandParams → Type 0
Fits Action.set_power (CommandParams.on_off on) = Unit
Fits Action.set_brightness (CommandParams.brightness b) = b ≤ 100
Fits Action.set_volume (CommandParams.volume v) = v ≤ 100
Fits Action.set_playback (CommandParams.playback p) = Unit
Fits Action.set_target_temperature (CommandParams.target_temperature t) =
    (pos 0 ≤ℤ t) × (t ≤ℤ pos 60_000)
Fits Action.set_heater (CommandParams.on_off on) = Unit
Fits Action.set_filter (CommandParams.on_off on) = Unit
Fits Action.set_bubbles (CommandParams.on_off on) = Unit
Fits Action.set_control_panel_lock (CommandParams.on_off on) = Unit
Fits Action.set_lock_state (CommandParams.lock_state l) = l ≢ LockState.unknown
Fits Action.unlatch CommandParams.no_params = Unit
Fits _ _ = ⊥

-- The client sent one field, of this name and value.
abbrev Sole : RawParameters → String → Json → Type 0
Sole raw name v = raw ≡ (name, v) ∷ []

abbrev Switched : Coercion → RawParameters → Bool → Type 0
Switched c raw on = (v : Json) × Sole raw "on" v × (c.as_bool v ≡ some on)

abbrev Sent : Coercion → RawParameters → String → ℕ → Type 0
Sent c raw name b = (v : Json) × Sole raw name v × (c.as_int v ≡ some (pos b)) × (b ≤ 100)

abbrev Warmth : Coercion → RawParameters → ℤ → Type 0
Warmth c raw t =
    (v : Json) × Sole raw "celsius" v × (c.as_float v ≡ some t) × (pos 0 ≤ℤ t) × (t ≤ℤ pos 60_000)

abbrev Named : Coercion → RawParameters → String → String → Type 0
Named c raw name word = (v : Json) × Sole raw name v × (c.as_text v ≡ some word)

abbrev playback_name : PlaybackCommand → String
playback_name PlaybackCommand.play = "PLAY"
playback_name PlaybackCommand.pause = "PAUSE"

abbrev lock_name : LockState → String
lock_name LockState.locked = "LOCKED"
lock_name LockState.unlocked = "UNLOCKED"
lock_name LockState.unknown = "UNKNOWN"

-- Parameters of the class that an action's policy names: the value that the client sent, as the
-- library reads it, within the bounds of its field.
abbrev pub IsRead : Coercion → Action → RawParameters → CommandParams → Type 0
IsRead c Action.set_brightness raw (CommandParams.brightness b) = Sent c raw "brightness" b
IsRead c Action.set_volume raw (CommandParams.volume b) = Sent c raw "volume" b
IsRead c Action.set_target_temperature raw (CommandParams.target_temperature t) = Warmth c raw t
IsRead c Action.set_playback raw (CommandParams.playback p) =
    Named c raw "playback" (playback_name p)
IsRead c Action.set_lock_state raw (CommandParams.lock_state l) =
    Named c raw "desired" (lock_name l) × (l ≢ LockState.unknown)
IsRead c Action.unlatch raw CommandParams.no_params = raw ≡ []
IsRead c Action.set_power raw (CommandParams.on_off on) = Switched c raw on
IsRead c Action.set_heater raw (CommandParams.on_off on) = Switched c raw on
IsRead c Action.set_filter raw (CommandParams.on_off on) = Switched c raw on
IsRead c Action.set_bubbles raw (CommandParams.on_off on) = Switched c raw on
IsRead c Action.set_control_panel_lock raw (CommandParams.on_off on) = Switched c raw on
IsRead c _ raw _ = ⊥

sole_field_lem :
    (name : String) (raw : RawParameters) (v : Json)
    → sole_field name raw ≡ some v
    → Sole raw name v
unfolding sole_field
sole_field_lem name [] v h = ground arith
sole_field_lem name ((key, w) ∷ []) v h = ground (arith, eq_iff key name)
sole_field_lem name (e ∷ e' ∷ raw) v h = ground arith

parse_playback_lem :
    (s : String) (p : PlaybackCommand) → parse_playback s ≡ some p → playback_name p ≡ s
unfolding parse_playback
parse_playback_lem s p h = ground (arith, eq_iff s "PLAY", eq_iff s "PAUSE")

parse_lock_state_lem : (s : String) (l : LockState) → parse_lock_state s ≡ some l → lock_name l ≡ s
unfolding parse_lock_state
parse_lock_state_lem s l h =
    ground (arith, eq_iff s "LOCKED", eq_iff s "UNLOCKED", eq_iff s "UNKNOWN")

read_nothing :
    (c : Coercion) (raw : RawParameters) (p : CommandParams)
    → model_validate c ParamsModel.no_params raw ≡ some p
    → (p ≡ CommandParams.no_params) × (raw ≡ [])
unfolding model_validate
read_nothing c [] p h = (ground arith, refl)
read_nothing c (e ∷ raw) p h = ground arith

-- One class at a time: what `model_validate` read, and from which field.
module _ (c : Coercion) (raw : RawParameters) (p : CommandParams) where
  read_switch :
      model_validate c ParamsModel.on_off raw ≡ some p
      → (on : Bool) × (p ≡ CommandParams.on_off on) × Switched c raw on
  unfolding model_validate
  read_switch h = elim (Option-cases (sole_field "on" raw)) [
    | inl e ↦ ground arith
    | inr (v, e) ↦ elim (Option-cases (c.as_bool v)) [
      | inl r ↦ ground arith
      | inr (on, r) ↦ (on, ground arith, (v, sole_field_lem "on" raw v e, r))
    ]
  ]

  read_brightness :
      model_validate c ParamsModel.brightness raw ≡ some p
      → (b : ℕ) × (p ≡ CommandParams.brightness b) × Sent c raw "brightness" b
  unfolding model_validate
  read_brightness h = elim (Option-cases (sole_field "brightness" raw)) [
    | inl e ↦ ground arith
    | inr (v, e) ↦ elim (Option-cases (c.as_int v)) [
      | inl r ↦ ground arith
      | inr (pos b, r) ↦
          (b, ground arith, (v, sole_field_lem "brightness" raw v e, r, ground arith))
      | inr (negsuc b, r) ↦ ground arith
    ]
  ]

  read_volume :
      model_validate c ParamsModel.volume raw ≡ some p
      → (b : ℕ) × (p ≡ CommandParams.volume b) × Sent c raw "volume" b
  unfolding model_validate
  read_volume h = elim (Option-cases (sole_field "volume" raw)) [
    | inl e ↦ ground arith
    | inr (v, e) ↦ elim (Option-cases (c.as_int v)) [
      | inl r ↦ ground arith
      | inr (pos b, r) ↦ (b, ground arith, (v, sole_field_lem "volume" raw v e, r, ground arith))
      | inr (negsuc b, r) ↦ ground arith
    ]
  ]

  read_temperature :
      model_validate c ParamsModel.target_temperature raw ≡ some p
      → (t : ℤ) × (p ≡ CommandParams.target_temperature t) × Warmth c raw t
  unfolding model_validate
  read_temperature h = elim (Option-cases (sole_field "celsius" raw)) [
    | inl e ↦ ground arith
    | inr (v, e) ↦ elim (Option-cases (c.as_float v)) [
      | inl r ↦ ground arith
      | inr (t, r) ↦
          (t, ground arith, (v, sole_field_lem "celsius" raw v e, r, ground arith, ground arith))
    ]
  ]

  read_playback :
      model_validate c ParamsModel.playback raw ≡ some p
      → (q : PlaybackCommand) × (p ≡ CommandParams.playback q)
        × Named c raw "playback" (playback_name q)
  unfolding model_validate
  read_playback h = elim (Option-cases (sole_field "playback" raw)) [
    | inl e ↦ ground arith
    | inr (v, e) ↦ elim (Option-cases (c.as_text v)) [
      | inl r ↦ ground arith
      | inr (t, r) ↦ elim (Option-cases (parse_playback t)) [
        | inl x ↦ ground arith
        | inr (q, x) ↦ (
          q,
          ground arith,
          (v, sole_field_lem "playback" raw v e, rw (parse_playback_lem t q x) r),
        )
      ]
    ]
  ]

  read_lock :
      model_validate c ParamsModel.lock_state raw ≡ some p
      → (l : LockState) × (p ≡ CommandParams.lock_state l)
        × Named c raw "desired" (lock_name l)
        × (l ≢ LockState.unknown)
  unfolding model_validate
  read_lock h = elim (Option-cases (sole_field "desired" raw)) [
    | inl e ↦ ground arith
    | inr (v, e) ↦ elim (Option-cases (c.as_text v)) [
      | inl r ↦ ground arith
      | inr (t, r) ↦ elim (Option-cases (parse_lock_state t)) [
        | inl x ↦ ground arith
        | inr (l, x) ↦ (
          l,
          ground arith,
          (v, sole_field_lem "desired" raw v e, rw (parse_lock_state_lem t l x) r),
          ground arith,
        )
      ]
    ]
  ]

-- Parameters that validation accepts for an action, whatever the client sent, have the class that the
-- action's policy names, and carry the one value that was sent, which lies within the bounds of its
-- field.
pub model_validate-IsRead :
    (c : Coercion) (action : Action) (raw : RawParameters) (p : CommandParams)
    → model_validate c (action_spec action).params_model raw ≡ some p
    → IsRead c action raw p
unfolding model_validate action_spec
model_validate-IsRead c Action.set_power raw p h =
    let (x, e, read) = read_switch c raw p h in rw e read
model_validate-IsRead c Action.set_brightness raw p h =
    let (x, e, read) = read_brightness c raw p h in rw e read
model_validate-IsRead c Action.set_volume raw p h =
    let (x, e, read) = read_volume c raw p h in rw e read
model_validate-IsRead c Action.set_playback raw p h =
    let (x, e, read) = read_playback c raw p h in rw e read
model_validate-IsRead c Action.set_target_temperature raw p h =
    let (x, e, read) = read_temperature c raw p h in rw e read
model_validate-IsRead c Action.set_heater raw p h =
    let (x, e, read) = read_switch c raw p h in rw e read
model_validate-IsRead c Action.set_filter raw p h =
    let (x, e, read) = read_switch c raw p h in rw e read
model_validate-IsRead c Action.set_bubbles raw p h =
    let (x, e, read) = read_switch c raw p h in rw e read
model_validate-IsRead c Action.set_control_panel_lock raw p h =
    let (x, e, read) = read_switch c raw p h in rw e read
model_validate-IsRead c Action.set_lock_state raw p h =
    let (x, e, named, known) = read_lock c raw p h in rw e (named, known)
model_validate-IsRead c Action.unlatch raw p h = let (e, read) = read_nothing c raw p h in rw e read
