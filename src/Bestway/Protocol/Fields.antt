-- ===== src/Bestway/Protocol/Fields.antt =====
-- Length-prefixed fields and the body of a control request
-- (backend/src/homeflow/integrations/bestway/protocol.py). None is a `ProtocolError`.
use homeflow.Base.{
  ℕ, ◌+◌, ◌*◌, ◌/◌, ◌%◌, ◌≤◌, ◌≡◌, Bool, Option, none, some, List, [], ◌∷◌, arith, ltb, ◌==◌, false,
  true, if◌then◌else◌, length, ◌||◌,
}

unfoldable pub encode_length_prefixed : List ℕ → Option (List ℕ)
encode_length_prefixed field =
    if ltb 65535 (length field)
    then none
    else some ((length field / 256) ∷ (length field % 256) ∷ field)

-- A payload whose first two bytes are not its length is taken as it is, if it is not too long.
unfoldable pub decode_length_prefixed : List ℕ → Option (List ℕ)
decode_length_prefixed (high ∷ low ∷ body) =
    if high * 256 + low == length body
    then some body
    else if ltb 2048 (length (high ∷ low ∷ body))
    then none
    else some (high ∷ low ∷ body)
decode_length_prefixed _ = none

abbrev is_empty : List ℕ → Bool
is_empty [] = true
is_empty (v ∷ vs) = false

-- Sequence number, action byte, attribute flags and values.
unfoldable pub build_control_payload : ℕ → ℕ → List ℕ → Option (List ℕ)
build_control_payload sequence attr_flags attr_vals =
    if ltb 4294967295 sequence || (ltb 65535 attr_flags || is_empty attr_vals)
    then none
    else some (
        (sequence / 16777216)
        ∷ (sequence / 65536 % 256)
        ∷ (sequence / 256 % 256)
        ∷ (sequence % 256)
        ∷ 1
        ∷ (attr_flags / 256)
        ∷ (attr_flags % 256)
        ∷ attr_vals)

-- A field of at most 65535 bytes is encoded, and reads back, whatever its length.
decode-encode_length_prefixed :
    (field : List ℕ)
    → length field ≤ 65535
    → (bytes : List ℕ) × (encode_length_prefixed field ≡ some bytes)
      × (decode_length_prefixed bytes ≡ some field)
unfolding encode_length_prefixed decode_length_prefixed
decode-encode_length_prefixed field h =
    let t : ltb 65535 (length field) ≡ false = ground arith in
    let n : length field / 256 * 256 + length field % 256 ≡ length field = omega arith in
    let s : (length field / 256 * 256 + length field % 256 == length field) ≡ true = ground arith in
    ((length field / 256) ∷ (length field % 256) ∷ field, rw t, rw s)
