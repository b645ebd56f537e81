-- ===== src/Bestway/Protocol/RoundTrip.antt =====
-- A frame reads back as it was written, and what the two directions disagree on.
use homeflow.Base.{
  ℕ, suc, ◌+◌, ◌*◌, ◌/◌, ◌%◌, ◌<◌, ◌≤◌, ◌≡◌, refl, ◌∙◌, sym, ap, some, List, [], ◌∷◌, ◌++◌, arith,
  ltb, true, false, length, length-append, take, drop,
}
use homeflow.Bestway.Protocol.{
  Frame,
  encode,
  encode_varint,
  decode_frame,
  decode_varint,
  decode_body,
  read_body,
  magic,
  Parse.{done, refused},
}
use homeflow.Bestway.Protocol.Varint.{encode_varint_total, decode_varint-encode_varint}

module _ {A : Type 0} where
  append_assoc : (xs ys zs : List A) → (xs ++ ys) ++ zs ≡ xs ++ (ys ++ zs)
  append_assoc [] ys zs = refl
  append_assoc (x ∷ xs) ys zs = ap (λ l. x ∷ l) (append_assoc xs ys zs)

  pub drop_append : (xs ys : List A) → drop (length xs) (xs ++ ys) ≡ ys
  drop_append [] ys = refl
  drop_append (x ∷ xs) ys = drop_append xs ys

  take_append : (xs ys : List A) → take (length xs) (xs ++ ys) ≡ xs
  take_append [] ys = refl
  take_append (x ∷ xs) ys = ap (λ l. x ∷ l) (take_append xs ys)

-- What stands behind a frame's length.
abbrev pub body_of : Frame → List ℕ
body_of f = f.flag ∷ (f.command / 256) ∷ (f.command % 256) ∷ f.payload

-- A frame that `encode` takes.
abbrev pub IsSendable : Frame → Type 0
IsSendable f = (length f.payload ≤ 2048) × (f.flag ≤ 255) × (f.command ≤ 65535)

pub encode_lem :
    (f : Frame) (size : List ℕ)
    → IsSendable f
    → encode_varint (length (body_of f)) ≡ some size
    → encode f ≡ some (magic ++ (size ++ body_of f))
unfolding encode
encode_lem f size s e =
    let a : ltb 2048 (length f.payload) ≡ false = ground arith in
    let b : ltb 255 f.flag ≡ false = ground arith in
    let c : ltb 65535 f.command ≡ false = ground arith in rw (a, b, c, e)

decode_frame_lem :
    (bytes : List ℕ) {size taken : ℕ}
    → decode_varint bytes 0 ≡ done (size, taken)
    → decode_frame (magic ++ bytes) ≡ decode_body (magic ++ bytes) (size, taken)
unfolding decode_frame decode_varint
decode_frame_lem bytes h =
    let l : ltb (length (magic ++ bytes)) 4 ≡ false = ground arith in rw (l, h)

read_body_lem : (f : Frame) (end : ℕ) → read_body (body_of f) end ≡ done (f, end)
read_body_lem f end =
    let q : f.command / 256 * 256 + f.command % 256 ≡ f.command = omega arith in rw q

decode_body_lem :
    (f : Frame) (size rest : List ℕ)
    → length f.payload ≤ 2045
    → decode_body (magic ++ (size ++ (body_of f ++ rest))) (length (body_of f), length size)
      ≡ done (f, 4 + length size + length (body_of f))
decode_body_lem f size rest h =
    let a : ltb 2048 (length (body_of f)) ≡ false = ground arith in
    let b : ltb (length (body_of f)) 3 ≡ false = ground arith in
    let n = length-append size (body_of f ++ rest) in
    let m = length-append (body_of f) rest in
    let c : ltb (length (magic ++ (size ++ (body_of f ++ rest))))
          (4 + length size + length (body_of f))
        ≡ false =
      ground (arith, n, m) in
    let d : drop (4 + length size) (magic ++ (size ++ (body_of f ++ rest))) ≡ body_of f ++ rest =
      (let four : 4 + length size ≡ suc (suc (suc (suc (length size)))) = omega arith in
        rw four (drop_append size (body_of f ++ rest))) in
    let t = take_append (body_of f) rest in
    rw (a, b, c, d)
      (ap (λ l. read_body l (4 + length size + length (body_of f))) t
        ∙ read_body_lem f (4 + length size + length (body_of f)))

-- An encoding is not empty.
pub encode_pos :
    (f : Frame) (bytes : List ℕ) → IsSendable f → encode f ≡ some bytes → 0 < length bytes
encode_pos f bytes s h =
    let fits : length (body_of f) < 268435456 = ground arith in
    let (size, e) = encode_varint_total (length (body_of f)) fits in
    let q : some (magic ++ (size ++ body_of f)) ≡ some bytes = sym (encode_lem f size s e) ∙ h in
    let p : magic ++ (size ++ body_of f) ≡ bytes = cc in let l = ap length p in omega arith

-- A frame that `encode` takes and whose payload has at most 2045 bytes is encoded, and reads back
-- from the head of any stream: the same frame, and the number of bytes it took.
pub decode_frame-encode :
    (f : Frame) (rest : List ℕ)
    → IsSendable f
    → length f.payload ≤ 2045
    → (bytes : List ℕ) × (encode f ≡ some bytes)
      × (decode_frame (bytes ++ rest) ≡ done (f, length bytes))
decode_frame-encode f rest s h =
    let fits : length (body_of f) < 268435456 = omega arith in
    let (size, e) = encode_varint_total (length (body_of f)) fits in
    let r = decode_varint-encode_varint (length (body_of f)) size (body_of f ++ rest) e in
    let frame = decode_frame_lem (size ++ (body_of f ++ rest)) r in
    let body = decode_body_lem f size rest h in
    let a = append_assoc size (body_of f) rest in
    let l = length-append size (body_of f) in
    let n : 4 + length size + length (body_of f) ≡ length (magic ++ (size ++ body_of f)) =
      omega (arith, l) in
    (
      magic ++ (size ++ body_of f),
      encode_lem f size s e,
      ap (λ t. decode_frame (magic ++ t)) a ∙ frame ∙ body ∙ ap (λ k. done (f, k)) n,
    )

-- A frame that `encode` takes and whose payload is longer than 2045 bytes is encoded, and
-- `decode_frame` refuses what was encoded.
pub decode_frame-encode_long :
    (f : Frame) (rest : List ℕ)
    → IsSendable f
    → 2045 < length f.payload
    → (bytes : List ℕ) × (encode f ≡ some bytes) × (decode_frame (bytes ++ rest) ≡ refused)
decode_frame-encode_long f rest s h =
    let fits : length (body_of f) < 268435456 = ground arith in
    let (size, e) = encode_varint_total (length (body_of f)) fits in
    let r = decode_varint-encode_varint (length (body_of f)) size (body_of f ++ rest) e in
    let frame = decode_frame_lem (size ++ (body_of f ++ rest)) r in
    let a = append_assoc size (body_of f) rest in
    let big : ltb 2048 (length (body_of f)) ≡ true = ground arith in
    let body : decode_body (magic ++ (size ++ (body_of f ++ rest)))
          (length (body_of f), length size)
        ≡ refused =
      rw big in
    (
      magic ++ (size ++ body_of f),
      encode_lem f size s e,
      ap (λ t. decode_frame (magic ++ t)) a ∙ frame ∙ body,
    )
