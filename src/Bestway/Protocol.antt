-- ===== src/Bestway/Protocol.antt =====
-- Framing on the controller's socket (backend/src/homeflow/integrations/bestway/protocol.py).
-- A byte is a number below 256, `bytes` a list of them. Masks and shifts are written as remainders
-- and quotients: `value & 0x7F` is `value % 128`, `value >> 7` is `value / 128`, and `|=` of bits
-- that do not overlap is a sum. `Command` is an `IntEnum`, so a frame's command is its number.
pub mod Fields
pub mod Varint
pub mod RoundTrip
pub mod Reader
use homeflow.Base.{
  ℕ, zero, suc, ◌+◌, ◌*◌, ◌/◌, ◌%◌, ◌<◌, Bool, true, false, ◌&&◌, ◌||◌, Option, none, some, List,
  [], ◌∷◌, ◌++◌, ltb, ◌==◌, if◌then◌else◌, length, take, drop,
}

abbrev pub max_payload_bytes : ℕ
max_payload_bytes = 2048

abbrev pub max_varint_bytes : ℕ
max_varint_bytes = 4

abbrev pub magic : List ℕ
magic = 0 ∷ 0 ∷ 0 ∷ 3 ∷ []

pub record Frame : Type 0 where
  pub command : ℕ
  pub payload : List ℕ
  pub flag : ℕ

-- What a decoder returns, or the exception it raises: `IncompleteFrame` or another `ProtocolError`.
pub data Parse {ℓ} (A : Type ℓ) : Type ℓ where
  done : A → Parse A
  incomplete refused : Parse A

abbrev pub and_then : {A B : Type 0} → Parse A → (A → Parse B) → Parse B
and_then (done a) f = f a
and_then incomplete f = incomplete
and_then refused f = refused

-- The loop of `encode_varint`, with room for so many more bytes; none is its exception.
abbrev pub encode_groups : ℕ → ℕ → Option (List ℕ)
encode_groups zero value = none
encode_groups (suc room) value =
    let rest = encode_groups room (value / 128) in
    if value / 128 == 0
    then some ((value % 128) ∷ [])
    else elim rest [ none ↦ none | some out ↦ some ((value % 128 + 128) ∷ out) ]

unfoldable pub encode_varint : ℕ → Option (List ℕ)
encode_varint value = encode_groups max_varint_bytes value

-- The loop of `decode_varint`: the passes left, the index, `1 << 7 * index`, the value so far.
abbrev pub decode_groups : ℕ → ℕ → ℕ → ℕ → List ℕ → Parse (ℕ × ℕ)
decode_groups zero index unit value bytes = refused
decode_groups (suc passes) index unit value [] = incomplete
decode_groups (suc passes) index unit value (byte ∷ bytes) =
    let rest = decode_groups passes (suc index) (unit * 128) (value + byte % 128 * unit) bytes in
    if ltb byte 128 then done (value + byte % 128 * unit, suc index) else rest

unfoldable pub decode_varint : List ℕ → ℕ → Parse (ℕ × ℕ)
decode_varint bytes offset = decode_groups max_varint_bytes 0 1 0 (drop offset bytes)

-- `Frame.encode`; none is an exception, also the one of a flag or a command that does not fit.
unfoldable pub encode : Frame → Option (List ℕ)
encode f =
    if ltb max_payload_bytes (length f.payload) || (ltb 255 f.flag || ltb 65535 f.command)
    then none
    else (let body = f.flag ∷ (f.command / 256) ∷ (f.command % 256) ∷ f.payload in
        elim (encode_varint (length body)) [
          | none ↦ none
          | some size ↦ some (magic ++ size ++ body)
        ])

-- `data.startswith(prefix)`
abbrev pub starts_with : List ℕ → List ℕ → Bool
starts_with bytes [] = true
starts_with [] (b ∷ bs) = false
starts_with (byte ∷ bytes) (b ∷ bs) = (byte == b) && starts_with bytes bs

-- The fields of a body; one of fewer than three bytes has been refused before.
abbrev pub read_body : List ℕ → ℕ → Parse (Frame × ℕ)
read_body (flag ∷ high ∷ low ∷ payload) end =
    done (record { command = high * 256 + low; payload = payload; flag = flag }, end)
read_body _ end = refused

-- The rest of `decode_frame` after the length has been read.
abbrev pub decode_body : List ℕ → ℕ × ℕ → Parse (Frame × ℕ)
decode_body bytes (size, consumed) =
    let start = length magic + consumed in
    if ltb max_payload_bytes size
    then refused
    else if ltb size 3
    then refused
    else if ltb (length bytes) (start + size)
    then incomplete
    else read_body (take size (drop start bytes)) (start + size)

unfoldable pub decode_frame : List ℕ → Parse (Frame × ℕ)
decode_frame bytes =
    if ltb (length bytes) (length magic)
    then incomplete
    else if starts_with bytes magic
    then and_then (decode_varint bytes (length magic)) (decode_body bytes)
    else refused

-- The loop of `FrameReader.feed`, and the buffer it leaves; none is an exception. A frame takes at
-- least one byte from the buffer, so the buffer's length is fuel enough.
abbrev pub drain : ℕ → List ℕ → Option (List Frame) × List ℕ
drain zero buffer = (some [], buffer)
drain (suc n) [] = (some [], [])
drain (suc n) (b ∷ bs) = elim (decode_frame (b ∷ bs)) [
  | done (f, consumed) ↦
      let (frames, left) = drain n (drop consumed (b ∷ bs)) in
      elim frames [ none ↦ (none, left) | some fs ↦ (some (f ∷ fs), left) ]
  | incomplete ↦ (some [], b ∷ bs)
  | refused ↦ (none, b ∷ bs)
]

-- `FrameReader.feed`
unfoldable pub feed : List ℕ → List ℕ → Option (List Frame) × List ℕ
feed buffer chunk =
    let all = buffer ++ chunk in
    if ltb (max_payload_bytes * 4) (length all) then (none, []) else drain (length all) all
