-- ===== src/Bestway/Datapoints.antt =====
-- The layout of a status block and the gate that guards it
-- (backend/src/homeflow/integrations/bestway/datapoints.py). A temperature counts thousandths of a
-- degree. The offset and the length of the control values, and the flag bits, are taken as numbers
-- that are not negative, which the source leaves to the operator. None is a `ProfileError`.
pub mod Gate
pub mod Units
pub mod Release
use homeflow.Base.{
  ℕ, zero, suc, ◌+◌, ◌-◌, ◌*◌, ◌/◌, ◌%◌, ◌^◌, Bool, true, false, ◌&&◌, ◌||◌, not, Option, none,
  some, List, [], ◌∷◌, String, ltb, leb, ◌==◌, if◌then◌else◌, length, take, drop,
}
use homeflow.Base.Int.{ℤ, pos, negsuc}

pub data Datapoint : Type 0 where
  current_temperature target_temperature heater filter_pump bubbles : Datapoint
  control_panel_lock unit_is_fahrenheit : Datapoint

unfoldable pub Datapoint-discrete : Discrete Datapoint
Datapoint-discrete = hlevel

abbrev pub same : Datapoint → Datapoint → Bool
same a b = elim (Datapoint-discrete a b) [ yes _ ↦ true | no _ ↦ false ]

-- `ByteLocation` and `BitLocation`.
pub data Location : Type 0 where
  byte : ℕ → Location
  bit : ℕ → ℕ → Location

abbrev pub offset : Location → ℕ
offset (Location.byte o) = o
offset (Location.bit o b) = o

pub record DatapointProfile : Type 0 where
  pub minimum_payload_length : ℕ
  pub locations : List (Datapoint × Location)
  pub target_temperature_min_c : ℕ
  pub target_temperature_max_c : ℕ
  pub target_temperature_step_c : ℕ
  pub control_values_offset : Option ℕ
  pub control_values_length : Option ℕ
  pub control_flag_bits : List (Datapoint × ℕ)
  pub trusted : Bool
  pub writable : List Datapoint

-- `datapoint in self.writable`
abbrev pub is_in : Datapoint → List Datapoint → Bool
is_in d [] = false
is_in d (x ∷ xs) = same d x || is_in d xs

-- `d.get(datapoint)`
abbrev pub get_point : {A : Type 0} → Datapoint → List (Datapoint × A) → Option A
get_point d [] = none
get_point d ((x, a) ∷ m) = if same d x then some a else get_point d m

-- `int | bool`
pub data Value : Type 0 where
  number : ℤ → Value
  flag : Bool → Value

-- `payload[offset]`; none past the end.
abbrev pub nth : List ℕ → ℕ → Option ℕ
nth [] i = none
nth (x ∷ xs) zero = some x
nth (x ∷ xs) (suc i) = nth xs i

abbrev pub set_nth : ℕ → ℕ → List ℕ → List ℕ
set_nth i v [] = []
set_nth zero v (x ∷ xs) = v ∷ xs
set_nth (suc i) v (x ∷ xs) = x ∷ set_nth i v xs

-- `bool(raw >> bit & 1)`
abbrev pub bit_of : ℕ → ℕ → Bool
bit_of b raw = raw / 2 ^ b % 2 == 1

-- The value that a byte holds at a location.
abbrev pub value_at : Location → ℕ → Value
value_at (Location.byte o) raw = Value.number (pos raw)
value_at (Location.bit o b) raw = Value.flag (bit_of b raw)

-- The loop of `decode`.
abbrev pub decode_locations :
    List ℕ → List (Datapoint × Location) → Option (List (Datapoint × Value))
decode_locations payload [] = some []
decode_locations payload ((d, l) ∷ m) =
    let rest = decode_locations payload m in
    elim (nth payload (offset l)) [
      | none ↦ none
      | some raw ↦ elim rest [ none ↦ none | some vs ↦ some ((d, value_at l raw) ∷ vs) ]
    ]

unfoldable pub decode : DatapointProfile → List ℕ → Option (List (Datapoint × Value))
decode p payload =
    if ltb (length payload) p.minimum_payload_length
    then none
    else decode_locations payload p.locations

unfoldable pub may_write : DatapointProfile → Datapoint → Bool
may_write p d = p.trusted && is_in d p.writable

-- `if value:`
abbrev pub truth : Value → Bool
truth (Value.flag b) = b
truth (Value.number (pos zero)) = false
truth (Value.number (pos (suc n))) = true
truth (Value.number (negsuc n)) = true

-- `raw | 1 << bit` and `raw & (0xFF ^ 1 << bit)`, of a byte and a bit below eight.
abbrev pub set_bit : ℕ → Bool → ℕ → ℕ
set_bit b true raw = if bit_of b raw then raw else raw + 2 ^ b
set_bit b false raw = if bit_of b raw then raw - 2 ^ b else raw

-- `int(value)`, if it fits one byte.
abbrev pub to_byte : Value → Option ℕ
to_byte (Value.flag true) = some 1
to_byte (Value.flag false) = some 0
to_byte (Value.number (pos n)) = if leb n 255 then some n else none
to_byte (Value.number (negsuc n)) = none

-- The new byte at a location, from the old one.
abbrev pub changed_byte : Location → Value → ℕ → Option ℕ
changed_byte (Location.bit o b) v raw = some (set_bit b (truth v) raw)
changed_byte (Location.byte o) v raw = to_byte v

-- The end of `encode_control`: the location's byte of the value block is changed.
abbrev pub change_block : ℕ → Location → Value → ℕ → List ℕ → Option (ℕ × List ℕ)
change_block start l v flag_bit values =
    if ltb (offset l) start then none else elim (nth values (offset l - start)) [
      | none ↦ none
      | some raw ↦ elim (changed_byte l v raw) [
        | none ↦ none
        | some b ↦ some (2 ^ flag_bit, set_nth (offset l - start) b values)
      ]
    ]

-- The guards of `encode_control` after the permission.
abbrev pub encode_block :
    DatapointProfile → Datapoint → Value → List ℕ → Option ℕ → Option ℕ → Option (ℕ × List ℕ)
encode_block p d v base none n = none
encode_block p d v base (some start) none = none
encode_block p d v base (some start) (some n) =
    if ltb (length base) (start + n) then none else elim (get_point d p.control_flag_bits) [
      | none ↦ none
      | some flag_bit ↦ elim (get_point d p.locations) [
        | none ↦ none
        | some l ↦ change_block start l v flag_bit (take n (drop start base))
      ]
    ]

unfoldable pub encode_control : DatapointProfile → Datapoint → Value → List ℕ → Option (ℕ × List ℕ)
encode_control p d v base =
    if may_write p d
    then encode_block p d v base p.control_values_offset p.control_values_length
    else none

-- `CANDIDATE_PROFILE`
abbrev pub candidate_profile : DatapointProfile
candidate_profile = record {
  minimum_payload_length = 12;
  locations =
      (Datapoint.current_temperature, Location.byte 6)
      ∷ (Datapoint.target_temperature, Location.byte 5)
      ∷ (Datapoint.heater, Location.bit 4 2)
      ∷ (Datapoint.filter_pump, Location.bit 4 1)
      ∷ (Datapoint.bubbles, Location.bit 4 0)
      ∷ (Datapoint.control_panel_lock, Location.bit 4 3)
      ∷ (Datapoint.unit_is_fahrenheit, Location.bit 4 4)
      ∷ [];
  target_temperature_min_c = 20000;
  target_temperature_max_c = 40000;
  target_temperature_step_c = 1000;
  control_values_offset = some 4;
  control_values_length = some 8;
  control_flag_bits =
      (Datapoint.bubbles, 0)
      ∷ (Datapoint.filter_pump, 1)
      ∷ (Datapoint.heater, 2)
      ∷ (Datapoint.control_panel_lock, 3)
      ∷ (Datapoint.target_temperature, 7)
      ∷ [];
  trusted = false;
  writable = [];
}

-- `AIRJET_19BYTE_PROFILE`
abbrev pub airjet_19byte_profile : DatapointProfile
airjet_19byte_profile = record {
  minimum_payload_length = 19;
  locations =
      (Datapoint.target_temperature, Location.byte 2)
      ∷ (Datapoint.current_temperature, Location.byte 15)
      ∷ (Datapoint.heater, Location.bit 1 1)
      ∷ (Datapoint.filter_pump, Location.bit 1 2)
      ∷ (Datapoint.bubbles, Location.bit 1 3)
      ∷ (Datapoint.control_panel_lock, Location.bit 1 4)
      ∷ [];
  target_temperature_min_c = 20000;
  target_temperature_max_c = 40000;
  target_temperature_step_c = 1000;
  control_values_offset = some 1;
  control_values_length = some 14;
  control_flag_bits =
      (Datapoint.heater, 1)
      ∷ (Datapoint.filter_pump, 2)
      ∷ (Datapoint.bubbles, 3)
      ∷ (Datapoint.control_panel_lock, 4)
      ∷ (Datapoint.target_temperature, 7)
      ∷ [];
  trusted = false;
  writable = [];
}
