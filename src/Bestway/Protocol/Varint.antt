-- ===== src/Bestway/Protocol/Varint.antt =====
-- A varint reads back as it was written.
use homeflow.Base.{
  ℕ, zero, suc, ◌+◌, ◌*◌, ◌/◌, ◌%◌, ◌<◌, ◌≤◌, ◌≡◌, ◌∙◌, ap, subst, none, some, List, [], ◌∷◌, ◌++◌,
  arith, ltb, inl, inr, true, false, sym, ◌≢◌, ℕ_discrete, Option-cases, length,
}
use homeflow.Bestway.Protocol.{
  encode_groups,
  encode_varint,
  decode_groups,
  decode_varint,
  Parse.{done},
}

shift : (a r q u : ℕ) → a + r * u + q * (u * 128) ≡ a + (r + 128 * q) * u
shift a r q u = grind arith

-- The first byte of more than one.
byte_lem : (v : ℕ) → (v % 128 + 128) % 128 ≡ v % 128
byte_lem v = omega arith

split_lem : (v : ℕ) → v % 128 + 128 * (v / 128) ≡ v
split_lem v = omega arith

fold_lem :
    (value v unit : ℕ)
    → (value + (v % 128 + 128) % 128 * unit) + v / 128 * (unit * 128) ≡ value + v * unit
fold_lem value v unit =
    ap (λ r. (value + r * unit) + v / 128 * (unit * 128)) (byte_lem v)
    ∙ shift value (v % 128) (v / 128) unit
    ∙ ap (λ w. value + w * unit) (split_lem v)

one_group : (room v : ℕ) → v / 128 ≡ 0 → encode_groups (suc room) v ≡ some ((v % 128) ∷ [])
one_group room v h = ground arith

more_groups :
    (room v : ℕ) (tail : List ℕ)
    → v / 128 ≢ 0
    → encode_groups room (v / 128) ≡ some tail
    → encode_groups (suc room) v ≡ some ((v % 128 + 128) ∷ tail)
more_groups room v tail n t = ground arith

too_many :
    (room v : ℕ)
    → v / 128 ≢ 0
    → encode_groups room (v / 128) ≡ none
    → encode_groups (suc room) v ≡ none
too_many room v n t = ground arith

read_last :
    (passes index unit value b : ℕ) (rest : List ℕ)
    → b < 128
    → decode_groups (suc passes) index unit value (b ∷ rest) ≡ done (value + b * unit, suc index)
read_last passes index unit value b rest h =
    let m : b % 128 ≡ b = omega arith in let t : ltb b 128 ≡ true = ground arith in rw (t, m)

read_more :
    (passes index unit value b : ℕ) (rest : List ℕ)
    → 128 ≤ b
    → decode_groups (suc passes) index unit value (b ∷ rest)
      ≡ decode_groups passes (suc index) (unit * 128) (value + b % 128 * unit) rest
read_more passes index unit value b rest h = let t : ltb b 128 ≡ false = ground arith in rw t

pub decode-encode_groups :
    (room index unit value v : ℕ) (out rest : List ℕ)
    → encode_groups room v ≡ some out
    → decode_groups room index unit value (out ++ rest)
      ≡ done (value + v * unit, index + length out)
decode-encode_groups zero index unit value v out rest h = cc
decode-encode_groups (suc room) index unit value v out rest h = elim (ℕ_discrete (v / 128) 0) [
  | yes z ↦
      let q : some ((v % 128) ∷ []) ≡ some out = sym (one_group room v z) ∙ h in
      let o : (v % 128) ∷ [] ≡ out = cc in
      let s : v % 128 ≡ v = omega arith in
      let b : v % 128 < 128 = omega arith in
      let i : suc index ≡ index + 1 = omega arith in
      subst
        (λ (l : List ℕ).
          decode_groups (suc room) index unit value (l ++ rest)
          ≡ done (value + v * unit, index + length l))
        o (let r = read_last room index unit value (v % 128) rest b in cc)
  | no n ↦ elim (Option-cases (encode_groups room (v / 128))) [
    | inl e ↦ let q : none ≡ some out = sym (too_many room v n e) ∙ h in cc
    | inr (tail, t) ↦
        let q : some ((v % 128 + 128) ∷ tail) ≡ some out = sym (more_groups room v tail n t) ∙ h in
        let o : (v % 128 + 128) ∷ tail ≡ out = cc in
        let b : 128 ≤ v % 128 + 128 = omega arith in
        let i : suc index + length tail ≡ index + suc (length tail) = omega arith in
        subst
          (λ (l : List ℕ).
            decode_groups (suc room) index unit value (l ++ rest)
            ≡ done (value + v * unit, index + length l))
          o
          (let first = read_more room index unit value (v % 128 + 128) (tail ++ rest) b in
            let others =
              decode-encode_groups room (suc index) (unit * 128)
                (value + (v % 128 + 128) % 128 * unit) (v / 128) tail rest t in
            let sum = fold_lem value v unit in cc)
  ]
]

step :
    (room bound : ℕ)
    → ((w : ℕ) → w < bound → (out : List ℕ) × (encode_groups room w ≡ some out))
    → (v : ℕ) → v < bound * 128
    → (out : List ℕ) × (encode_groups (suc room) v ≡ some out)
step room bound f v h = elim (ℕ_discrete (v / 128) 0) [
  | yes z ↦ ((v % 128) ∷ [], one_group room v z)
  | no n ↦
      let less : v / 128 < bound = omega arith in
      let (tail, t) = f (v / 128) less in ((v % 128 + 128) ∷ tail, more_groups room v tail n t)
]

last_group : (v : ℕ) → v < 128 → (out : List ℕ) × (encode_groups 1 v ≡ some out)
last_group v h = let z : v / 128 ≡ 0 = omega arith in ((v % 128) ∷ [], one_group 0 v z)

-- Every number below 2 ^ 28 has an encoding.
pub encode_varint_total : (v : ℕ) → v < 268435456 → (out : List ℕ) × (encode_varint v ≡ some out)
unfolding encode_varint
encode_varint_total v h = step 3 2097152 (step 2 16384 (step 1 128 last_group)) v h

-- An encoding is not empty.
pub encode_varint_pos : (v : ℕ) (out : List ℕ) → encode_varint v ≡ some out → 0 < length out
unfolding encode_varint
encode_varint_pos v [] h = elim (ℕ_discrete (v / 128) 0) [
  | yes z ↦ let q : some ((v % 128) ∷ []) ≡ some [] = sym (one_group 3 v z) ∙ h in cc
  | no n ↦ elim (Option-cases (encode_groups 3 (v / 128))) [
    | inl e ↦ let q : none ≡ some [] = sym (too_many 3 v n e) ∙ h in cc
    | inr (tail, t) ↦
        let q : some ((v % 128 + 128) ∷ tail) ≡ some [] = sym (more_groups 3 v tail n t) ∙ h in cc
  ]
]
encode_varint_pos v (b ∷ out) h = omega arith

-- A varint that `encode_varint` wrote reads back, whatever bytes follow it: the same value, and the
-- number of bytes it took.
pub decode_varint-encode_varint :
    (v : ℕ) (out rest : List ℕ)
    → encode_varint v ≡ some out
    → decode_varint (out ++ rest) 0 ≡ done (v, length out)
unfolding encode_varint decode_varint
decode_varint-encode_varint v out rest h =
    let r = decode-encode_groups 4 0 1 0 v out rest h in
    let q : 0 + v * 1 ≡ v = omega arith in let z : 0 + length out ≡ length out = omega arith in cc
