-- ===== src/HomeAssistant/Entities.antt =====
-- What an entity becomes (backend/src/homeflow/integrations/home_assistant/entities.py). An entity id
-- is the pair of its two parts, which its pattern keeps apart. A number is counted in thousandths.
use homeflow.Base.{
  ℕ, zero, ◌/◌, ◌%◌, ◌^◌, Bool, true, false, not, ◌||◌, Option, none, some, List, [], ◌∷◌, ◌++◌,
  String, ◌==◌, if◌then◌else◌,
}
use homeflow.Base.Int.{ℤ, pos, negsuc, ◌*ℤ◌}
use homeflow.Base.Text.{same_text, prefix}
use homeflow.Capabilities.{Capability, DeviceKind}
use homeflow.Devices.Models.{Availability, DeviceConstraints}

pub record EntityId : Type 0 where
  pub domain : String
  pub object_id : String

-- A value in `attributes`: a list is kept by the texts in it, `none` for anything else.
pub data Attribute : Type 0 where
  flag : Bool → Attribute
  int : ℤ → Attribute
  float : ℤ → Attribute
  not_finite : Attribute
  text_value : String → Attribute
  list_value : List (Option String) → Attribute
  other : Attribute

pub record HaEntity : Type 0 where
  pub entity_id : EntityId
  pub state : String
  pub attributes : String → Option Attribute

abbrev pub is_one_of : String → List String → Bool
is_one_of s [] = false
is_one_of s (t ∷ ts) = same_text s t || is_one_of s ts

-- `number`
abbrev pub as_number : Option Attribute → Option ℤ
as_number (some (Attribute.int n)) = some (n *ℤ pos 1000)
as_number (some (Attribute.float t)) = some t
as_number _ = none

abbrev pub number : HaEntity → String → Option ℤ
number entity key = as_number (entity.attributes key)

-- `features`
abbrev pub as_features : Option Attribute → ℤ
as_features (some (Attribute.int n)) = n
as_features _ = pos 0

abbrev pub features : HaEntity → ℤ
features entity = as_features (entity.attributes "supported_features")

-- `text`
abbrev pub is_empty : String → Bool
is_empty s = same_text s ""

abbrev pub as_text : ℕ → Option Attribute → Option String
as_text limit (some (Attribute.text_value s)) = if is_empty s then none else some (prefix limit s)
as_text limit _ = none

abbrev pub text : HaEntity → String → ℕ → Option String
text entity key limit = as_text limit (entity.attributes key)

-- The bit of value `2 ^ k` of an integer in two's complement.
abbrev pub has_bit : ℕ → ℤ → Bool
has_bit k (pos n) = (n / 2 ^ k) % 2 == 1
has_bit k (negsuc n) = not ((n / 2 ^ k) % 2 == 1)

-- `Mapping`
pub record Mapping : Type 0 where
  pub kind : DeviceKind
  pub capabilities : List Capability
  pub writable : List Capability
  pub constraints : DeviceConstraints

abbrev pub no_constraints : DeviceConstraints
no_constraints = record {
  target_temperature_min_c = none;
  target_temperature_max_c = none;
  target_temperature_step_c = none;
}

abbrev pub when : Bool → Capability → List Capability
when true c = c ∷ []
when false c = []

abbrev pub is_some {ℓ} : {A : Type ℓ} → Option A → Bool
is_some none = false
is_some (some a) = true

-- `_light`
abbrev pub is_dimming_mode : Option String → Bool
is_dimming_mode none = false
is_dimming_mode (some mode) = not (is_one_of mode ("onoff" ∷ "unknown" ∷ []))

abbrev pub any_dimming : List (Option String) → Bool
any_dimming [] = false
any_dimming (m ∷ ms) = is_dimming_mode m || any_dimming ms

abbrev pub is_dimmable : Option Attribute → Bool
is_dimmable (some (Attribute.list_value modes)) = any_dimming modes
is_dimmable _ = false

abbrev pub same_both : DeviceKind → List Capability → Mapping
same_both kind capabilities = record {
  kind = kind;
  capabilities = capabilities;
  writable = capabilities;
  constraints = no_constraints;
}

unfoldable pub light : HaEntity → Mapping
light entity = same_both DeviceKind.light (
    Capability.power
    ∷ when (is_dimmable (entity.attributes "supported_color_modes")) Capability.brightness)

-- `_media_player`: the flags 1 and 16384, 32, 16 and 4.
unfoldable pub media_player : HaEntity → Mapping
media_player entity =
    let f = features entity in
    same_both DeviceKind.media_player (
      when (has_bit 0 f || has_bit 14 f) Capability.media_playback
      ++ when (has_bit 5 f) Capability.media_next
      ++ when (has_bit 4 f) Capability.media_previous
      ++ when (has_bit 2 f) Capability.volume)

-- `_lock`
abbrev pub lock : HaEntity → Mapping
lock entity = same_both DeviceKind.lock []

-- `entity.number("target_temp_step") or 0.5`
abbrev pub step_or_default : Option ℤ → ℤ
step_or_default none = pos 500
step_or_default (some (pos zero)) = pos 500
step_or_default (some n) = n

-- `_climate`
unfoldable pub climate : HaEntity → Mapping
climate entity =
    let has_target = is_some (number entity "temperature") in
    let has_humidity =
      is_some (number entity "humidity") || is_some (number entity "current_humidity") in
    record {
      kind = DeviceKind.thermostat;
      capabilities =
          when (is_some (number entity "current_temperature")) Capability.current_temperature
          ++ when has_humidity Capability.humidity
          ++ when has_target Capability.target_temperature;
      writable = when has_target Capability.target_temperature;
      constraints =
          if has_target
          then record {
            target_temperature_min_c = number entity "min_temp";
            target_temperature_max_c = number entity "max_temp";
            target_temperature_step_c = some (step_or_default (number entity "target_temp_step"));
          }
          else no_constraints;
    }

-- `_sensor`
abbrev pub is_text : String → Option Attribute → Bool
is_text expected (some (Attribute.text_value s)) = same_text s expected
is_text expected _ = false

unfoldable pub sensor : HaEntity → Option Mapping
sensor entity =
    if is_text "temperature" (entity.attributes "device_class")
    then some (record {
      kind = DeviceKind.sensor;
      capabilities = Capability.current_temperature ∷ [];
      writable = [];
      constraints = no_constraints;
    })
    else none

-- `describe`
unfoldable pub describe : HaEntity → Option Mapping
describe entity =
    let domain = entity.entity_id.domain in
    if same_text domain "light"
    then some (light entity)
    else if same_text domain "switch"
    then some (same_both DeviceKind.switch (Capability.power ∷ []))
    else if same_text domain "media_player"
    then some (media_player entity)
    else if same_text domain "lock"
    then some (lock entity)
    else if same_text domain "climate"
    then some (climate entity)
    else if same_text domain "sensor"
    then sensor entity
    else none

-- `RELEASABLE_DOMAINS`
abbrev pub releasable_domains : List String
releasable_domains = "light" ∷ "switch" ∷ "media_player" ∷ "climate" ∷ []

-- `availability`
unfoldable pub availability : HaEntity → Availability
availability entity =
    if same_text entity.state "unavailable"
    then Availability.offline
    else if same_text entity.state "unknown"
    then Availability.unknown
    else Availability.online

-- `display_name`
unfoldable pub display_name : HaEntity → String
display_name entity = elim (text entity "friendly_name" 80) [
  | none ↦ entity.entity_id.object_id
  | some name ↦ name
]
