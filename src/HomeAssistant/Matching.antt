-- ===== src/HomeAssistant/Matching.antt =====
-- Whether an entity reads the way a command asked for
-- (backend/src/homeflow/integrations/home_assistant/provider.py).
use homeflow.Base.{
  ℕ, ◌+◌, Bool, true, false, not, ◌&&◌, Option, none, some, String, leb, ◌==◌, if◌then◌else◌,
}
use homeflow.Base.Int.{ℤ, pos, ◌-ℤ◌, leb_ℤ}
use homeflow.Capabilities.{DeviceKind}
use homeflow.Devices.Models.{DeviceState}
use homeflow.HomeAssistant.Entities.{HaEntity}
use homeflow.HomeAssistant.States.{normalise}

-- A wanted value that is absent asks for nothing; a seen one that is absent never matches.
abbrev pub agrees {ℓ} : {A : Type ℓ} → (A → A → Bool) → Option A → Option A → Bool
agrees test seen none = true
agrees test none (some value) = false
agrees test (some seen) (some value) = test seen value

abbrev pub same_bool : Bool → Bool → Bool
same_bool true b = b
same_bool false b = not b

-- Within one percent, within 0.51 degrees.
abbrev pub near_percent : ℕ → ℕ → Bool
near_percent seen value = leb seen (value + 1) && leb value (seen + 1)

abbrev pub near_degrees : ℤ → ℤ → Bool
near_degrees seen value = leb_ℤ (seen -ℤ value) (pos 510) && leb_ℤ (value -ℤ seen) (pos 510)

-- The loop of `_matches`, over the fields that a command of this adapter asks for.
unfoldable pub fits : DeviceState → DeviceState → Bool
fits observed expected =
    agrees same_bool observed.power expected.power
    && agrees near_percent observed.brightness expected.brightness
    && agrees near_degrees observed.target_temperature_c expected.target_temperature_c
    && agrees (λ a b. a == b) observed.volume expected.volume

abbrev pub wants_nothing : DeviceState → Bool
wants_nothing expected = elim expected.power [
  | some _ ↦ false
  | none ↦ elim expected.brightness [
    | some _ ↦ false
    | none ↦ elim expected.target_temperature_c [
      | some _ ↦ false
      | none ↦ elim expected.volume [ some _ ↦ false | none ↦ true ]
    ]
  ]
]

abbrev pub compared : Option DeviceState → DeviceState → Option Bool
compared none expected = none
compared (some observed) expected = some (fits observed expected)

-- `_matches`; `none` is the `ValidationError` of `normalise`.
unfoldable pub matches : (String → Option ℤ) → HaEntity → DeviceKind → DeviceState → Option Bool
matches read_float entity kind expected =
    if wants_nothing expected
    then some true
    else compared (normalise read_float entity kind) expected
