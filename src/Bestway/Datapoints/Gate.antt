-- ===== src/Bestway/Datapoints/Gate.antt =====
-- What a control request may contain.
use homeflow.Base.{
  ℕ, zero, suc, ◌+◌, ◌-◌, ◌≤◌, ◌<◌, ◌≡◌, ◌≢◌, refl, true, false, Option, none, some, List, [], ◌∷◌,
  arith, ltb, length, take, drop, subst, sym, ◌∙◌, Bool-cases, Option-cases, inl, inr, length-take,
  length-drop, map, ap,
}
use homeflow.Bestway.Datapoints.{
  Datapoint, Location, DatapointProfile, Value, nth, set_nth, offset, changed_byte, change_block,
  encode_block, encode_control, may_write, get_point, decode, decode_locations, value_at,
}

length-set_nth : (i v : ℕ) (xs : List ℕ) → length (set_nth i v xs) ≡ length xs
length-set_nth i v [] = refl
length-set_nth zero v (x ∷ xs) = refl
length-set_nth (suc i) v (x ∷ xs) = omega (arith, length-set_nth i v xs)

nth-set_nth_ne : (i j v : ℕ) (xs : List ℕ) → i ≢ j → nth (set_nth j v xs) i ≡ nth xs i
nth-set_nth_ne i j v [] n = refl
nth-set_nth_ne zero zero v (x ∷ xs) n = absurd (n refl)
nth-set_nth_ne (suc i) zero v (x ∷ xs) n = refl
nth-set_nth_ne zero (suc j) v (x ∷ xs) n = refl
nth-set_nth_ne (suc i) (suc j) v (x ∷ xs) n = nth-set_nth_ne i j v xs (omega arith)

nth-set_nth : (i v w : ℕ) (xs : List ℕ) → nth xs i ≡ some w → nth (set_nth i v xs) i ≡ some v
nth-set_nth i v w [] h = cc
nth-set_nth zero v w (x ∷ xs) h = refl
nth-set_nth (suc i) v w (x ∷ xs) h = nth-set_nth i v w xs h

-- A control request that `encode_control` makes from a reported block.
pub record IsOneChange (p : DatapointProfile) (d : Datapoint) (v : Value) (base values : List ℕ)
    : Type 0 where
  pub start : ℕ
  pub size : ℕ
  pub location : Location
  pub raw : ℕ
  pub new : ℕ
  pub starts : p.control_values_offset ≡ some start
  pub sized : p.control_values_length ≡ some size
  pub located : get_point d p.locations ≡ some location
  pub inside : start ≤ offset location
  pub was : nth (take size (drop start base)) (offset location - start) ≡ some raw
  pub becomes : changed_byte location v raw ≡ some new
  pub now : nth values (offset location - start) ≡ some new
  pub rest :
      (i : ℕ) → i ≢ offset location - start → nth values i ≡ nth (take size (drop start base)) i
  pub whole : length values ≡ size

change_block_lem :
    (start : ℕ) (l : Location) (v : Value) (flag_bit flags : ℕ) (values out : List ℕ)
    → change_block start l v flag_bit values ≡ some (flags, out)
    → (start ≤ offset l)
      × ((raw : ℕ) × (new : ℕ) × (nth values (offset l - start) ≡ some raw)
          × (changed_byte l v raw ≡ some new)
          × (set_nth (offset l - start) new values ≡ out))
change_block_lem start l v flag_bit flags values out h = elim (Bool-cases (ltb (offset l) start)) [
  | inl e ↦ ground arith
  | inr e ↦ elim (Option-cases (nth values (offset l - start))) [
    | inl q ↦ ground arith
    | inr (raw, q) ↦ elim (Option-cases (changed_byte l v raw)) [
      | inl r ↦ ground arith
      | inr (new, r) ↦ (ground arith, (raw, new, q, r, ground arith))
    ]
  ]
]

length-block :
    (n start : ℕ) (base : List ℕ) → start + n ≤ length base → length (take n (drop start base)) ≡ n
length-block n start base h = omega (arith, length-take n (drop start base), length-drop start base)

block-IsOneChange :
    (p : DatapointProfile) (d : Datapoint) (v : Value) (base out : List ℕ)
    (flag_bit flags start n : ℕ) (l : Location)
    → p.control_values_offset ≡ some start
    → p.control_values_length ≡ some n
    → get_point d p.locations ≡ some l
    → start + n ≤ length base
    → change_block start l v flag_bit (take n (drop start base)) ≡ some (flags, out)
    → IsOneChange p d v base out
block-IsOneChange p d v base out flag_bit flags start n l o z e m h =
    let values = take n (drop start base) in
    let (le, (raw, new, was, becomes, same)) =
      change_block_lem start l v flag_bit flags values out h in
    record {
      start = start;
      size = n;
      location = l;
      raw = raw;
      new = new;
      starts = o;
      sized = z;
      located = e;
      inside = le;
      was = was;
      becomes = becomes;
      now =
          subst (λ x. nth x (offset l - start) ≡ some new) same
            (nth-set_nth (offset l - start) new raw values was);
      rest = λ i ne.
          subst (λ x. nth x i ≡ nth values i) same
            (nth-set_nth_ne i (offset l - start) new values ne);
      whole =
          subst (λ x. length x ≡ n) same
            (length-set_nth (offset l - start) new values ∙ length-block n start base m);
    }

encode_block_lem :
    (p : DatapointProfile) (d : Datapoint) (v : Value) (base : List ℕ) (o z : Option ℕ) (flags : ℕ)
    (out : List ℕ)
    → p.control_values_offset ≡ o
    → p.control_values_length ≡ z
    → encode_block p d v base o z ≡ some (flags, out)
    → IsOneChange p d v base out
encode_block_lem p d v base none z flags out eo ez h = cc
encode_block_lem p d v base (some start) none flags out eo ez h = cc
encode_block_lem p d v base (some start) (some n) flags out eo ez h =
    elim (Bool-cases (ltb (length base) (start + n))) [
      | inl e ↦ (let no : none ≡ some (flags, out) = sym (rw e) ∙ h in cc)
      | inr e ↦ elim (Option-cases (get_point d p.control_flag_bits)) [
        | inl q ↦ (let no : none ≡ some (flags, out) = sym (rw (e, q)) ∙ h in cc)
        | inr (b, q) ↦ elim (Option-cases (get_point d p.locations)) [
          | inl r ↦ (let no : none ≡ some (flags, out) = sym (rw (e, q, r)) ∙ h in cc)
          | inr (l, r) ↦
              let same : change_block start l v b (take n (drop start base)) ≡ some (flags, out) =
                sym (rw (e, q, r)) ∙ h in
              block-IsOneChange p d v base out b flags start n l eo ez r (ground arith) same
        ]
      ]
    ]

-- A control request is made only for a datapoint that the profile allows to write. Its values are
-- the reported block with one byte changed, the one of the datapoint's location, to what the value
-- asks for there; the block has the length that the profile says.
pub encode_control_gated :
    (p : DatapointProfile) (d : Datapoint) (v : Value) (base : List ℕ) (flags : ℕ) (values : List ℕ)
    → encode_control p d v base ≡ some (flags, values)
    → (may_write p d ≡ true) × IsOneChange p d v base values
unfolding encode_control
encode_control_gated p d v base flags values h = elim (Bool-cases (may_write p d)) [
  | inr e ↦ (let no : none ≡ some (flags, values) = sym (rw (e, encode_control)) ∙ h in cc)
  | inl e ↦
      let block : encode_block p d v base p.control_values_offset p.control_values_length
          ≡ some (flags, values) =
        sym (rw (e, encode_control)) ∙ h in
      (
        e,
        encode_block_lem p d v base p.control_values_offset p.control_values_length flags values
            refl refl block,
      )
]

-- Every location of a layout lies within a payload.
abbrev pub Reaches : ℕ → List (Datapoint × Location) → Type 0
Reaches n [] = Unit
Reaches n ((d, l) ∷ m) = (offset l < n) × Reaches n m

nth_below : (xs : List ℕ) (i : ℕ) → i < length xs → (v : ℕ) × (nth xs i ≡ some v)
nth_below [] i h = (let no : ⊥ = omega arith in elim no [ ])
nth_below (x ∷ xs) zero h = (x, refl)
nth_below (x ∷ xs) (suc i) h = nth_below xs i (omega arith)

decode_locations_total :
    (payload : List ℕ) (m : List (Datapoint × Location))
    → Reaches (length payload) m
    → (vs : List (Datapoint × Value)) × (decode_locations payload m ≡ some vs)
      × (map (λ e. e.0) vs ≡ map (λ e. e.0) m)
decode_locations_total payload [] h = ([], refl, refl)
decode_locations_total payload ((d, l) ∷ m) h =
    let (raw, q) = nth_below payload (offset l) h.0 in
    let (vs, e, keys) = decode_locations_total payload m h.1 in
    ((d, value_at l raw) ∷ vs, rw (q, e, decode_locations), ap (λ t. d ∷ t) keys)

-- A payload of the minimum length, or longer, that reaches every location of the layout is decoded,
-- to one value for each datapoint of the layout, in the layout's order; a shorter payload is refused.
decode_total :
    (p : DatapointProfile) (payload : List ℕ)
    → Reaches (length payload) p.locations
    → (p.minimum_payload_length ≤ length payload
        → (vs : List (Datapoint × Value)) × (decode p payload ≡ some vs)
          × (map (λ e. e.0) vs ≡ map (λ e. e.0) p.locations))
      × (length payload < p.minimum_payload_length → decode p payload ≡ none)
unfolding decode
decode_total p payload h = (
  (λ le.
      let t : ltb (length payload) p.minimum_payload_length ≡ false = ground arith in
      rw t (decode_locations_total payload p.locations h)),
  (λ lt. let t : ltb (length payload) p.minimum_payload_length ≡ true = ground arith in rw t),
)
