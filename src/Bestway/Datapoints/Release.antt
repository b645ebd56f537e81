-- ===== src/Bestway/Datapoints/Release.antt =====
-- Which layout an adapter gets and what is released in it: the validators of `DatapointProfile` and
-- `builtin_profile` (backend/src/homeflow/integrations/bestway/datapoints.py), and
-- `build_bestway_profile` (backend/src/homeflow/container.py). None is a `ProfileError` or a
-- `ValidationError`. A layout of the operator's own is read from a file, so it is a parameter.
pub mod Named
use homeflow.Base.{
  ℕ, Bool, true, false, not, ◌&&◌, ◌||◌, ◌≡◌, refl, sym, ap, ◌∙◌, subst, Option, none, some, List,
  [], ◌∷◌, String, ltb, leb, if◌then◌else◌, arith, Bool-cases, Option-cases, inl, inr,
}
use homeflow.Base.Text.{same_text}
use homeflow.Bestway.Datapoints.{
  Datapoint, DatapointProfile, same, is_in, get_point, may_write, candidate_profile,
  airjet_19byte_profile,
}

abbrev pub has_point : {A : Type 0} → Option A → Bool
has_point none = false
has_point (some a) = true

-- `_range_is_ordered`
abbrev pub range_is_ordered : DatapointProfile → Bool
range_is_ordered p = ltb p.target_temperature_min_c p.target_temperature_max_c

-- `_writable_is_known`, for one datapoint.
abbrev pub is_known : DatapointProfile → Datapoint → Bool
is_known p d =
    not (same Datapoint.unit_is_fahrenheit d)
    && has_point (get_point d p.locations)
    && has_point (get_point d p.control_flag_bits)

abbrev pub writable_is_known : DatapointProfile → List Datapoint → Bool
writable_is_known p [] = true
writable_is_known p (d ∷ ds) = is_known p d && writable_is_known p ds

-- `model_validate`, the two validators.
unfoldable pub validate : DatapointProfile → Option DatapointProfile
validate p = if range_is_ordered p && writable_is_known p p.writable then some p else none

-- `Datapoint(name)`
unfoldable pub datapoint_of : String → Option Datapoint
datapoint_of name =
    if same_text name "CURRENT_TEMPERATURE"
    then some Datapoint.current_temperature
    else if same_text name "TARGET_TEMPERATURE"
    then some Datapoint.target_temperature
    else if same_text name "HEATER"
    then some Datapoint.heater
    else if same_text name "FILTER_PUMP"
    then some Datapoint.filter_pump
    else if same_text name "BUBBLES"
    then some Datapoint.bubbles
    else if same_text name "CONTROL_PANEL_LOCK"
    then some Datapoint.control_panel_lock
    else if same_text name "UNIT_IS_FAHRENHEIT"
    then some Datapoint.unit_is_fahrenheit
    else none

abbrev pub add_point : Option Datapoint → Option (List Datapoint) → Option (List Datapoint)
add_point none rest = none
add_point (some d) none = none
add_point (some d) (some ds) = some (d ∷ ds)

abbrev pub datapoints_of : List String → Option (List Datapoint)
datapoints_of [] = some []
datapoints_of (name ∷ names) = add_point (datapoint_of name) (datapoints_of names)

-- `builtin_profile`
unfoldable pub builtin_profile : String → Option DatapointProfile
builtin_profile name =
    if same_text name "airjet-candidate"
    then some candidate_profile
    else if same_text name "airjet-19byte"
    then some airjet_19byte_profile
    else none

-- The operator's releases applied to a layout.
abbrev pub release : Bool → DatapointProfile → Option (List Datapoint) → Option DatapointProfile
release trusted base none = none
release trusted base (some ds) = validate (record base { trusted = trusted; writable = ds })

abbrev pub release_in : Bool → List String → Option DatapointProfile → Option DatapointProfile
release_in trusted names none = none
release_in trusted names (some base) = release trusted base (datapoints_of names)

-- The layout that is read from the operator's file, where one is named, and the shipped one otherwise.
abbrev pub base_profile : Option (Option DatapointProfile) → String → Option DatapointProfile
base_profile none name = builtin_profile name
base_profile (some loaded) name = loaded

-- `build_bestway_profile`
unfoldable pub build_bestway_profile :
    Option (Option DatapointProfile) → String → Bool → List String → Option DatapointProfile
build_bestway_profile loaded name trusted names =
    release_in trusted names (base_profile loaded name)
