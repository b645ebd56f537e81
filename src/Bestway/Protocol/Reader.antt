-- ===== src/Bestway/Protocol/Reader.antt =====
-- The reader returns every frame of a stream.
use homeflow.Base.{
  ℕ, zero, suc, ◌<◌, ◌≤◌, ◌≡◌, refl, ◌∙◌, ap, subst, none, some, List, [], ◌∷◌, ◌++◌, arith, ltb,
  length, length-append, drop, All, false,
}
use homeflow.Bestway.Protocol.{Frame, encode, decode_frame, drain, feed, Parse.{done}}
use homeflow.Bestway.Protocol.RoundTrip.{IsSendable, decode_frame-encode, encode_pos, drop_append}

-- Frames that both directions take.
abbrev pub IsReadable : Frame → Type 0
IsReadable f = IsSendable f × (length f.payload ≤ 2045)

-- Frames encoded one after another.
abbrev pub stream : List Frame → List ℕ
stream [] = []
stream (f ∷ fs) = elim (encode f) [ none ↦ stream fs | some bytes ↦ bytes ++ stream fs ]

drain_step :
    (n : ℕ) (f : Frame) (bytes rest : List ℕ)
    → 0 < length bytes
    → decode_frame (bytes ++ rest) ≡ done (f, length bytes)
    → (fs : List Frame) → drain n rest ≡ (some fs, [])
    → drain (suc n) (bytes ++ rest) ≡ (some (f ∷ fs), [])
drain_step n f [] rest p d fs r = (let no : ⊥ = omega arith in elim no [ ])
drain_step n f (b ∷ bytes) rest p d fs r =
    let t : drop n' (b ∷ (bytes ++ rest)) ≡ rest = drop_append (b ∷ bytes) rest in
    let left = ap (drain n) t ∙ r in
    rw (d, drain)
      (let frames = ap (λ x. x.0) left in let buffer = ap (λ x. x.1) left in rw (frames, buffer))
  where
    n' : ℕ
    n' = length (b ∷ bytes)

drain-stream :
    (n : ℕ) (fs : List Frame)
    → All IsReadable fs
    → length (stream fs) ≤ n
    → drain n (stream fs) ≡ (some fs, [])
drain-stream zero [] h l = refl
drain-stream (suc n) [] h l = refl
drain-stream zero (f ∷ fs) h l =
    let (bytes, e, d) = decode_frame-encode f (stream fs) h.0.0 h.0.1 in
    let p = encode_pos f bytes h.0.0 e in
    let m = length-append bytes (stream fs) in
    let all : stream (f ∷ fs) ≡ bytes ++ stream fs = rw (e, stream) in
    let l' : length (bytes ++ stream fs) ≤ 0 = subst (λ t. length t ≤ 0) all l in
    let no : ⊥ = omega (arith, l', m, p) in elim no [ ]
drain-stream (suc n) (f ∷ fs) h l =
    let (bytes, e, d) = decode_frame-encode f (stream fs) h.0.0 h.0.1 in
    let p = encode_pos f bytes h.0.0 e in
    let m = length-append bytes (stream fs) in
    let all : stream (f ∷ fs) ≡ bytes ++ stream fs = rw (e, stream) in
    let l' : length (bytes ++ stream fs) ≤ suc n = subst (λ t. length t ≤ suc n) all l in
    let less : length (stream fs) ≤ n = omega (arith, l', m, p) in
    ap (drain (suc n)) all ∙ drain_step n f bytes (stream fs) p d fs (drain-stream n fs h.1 less)

-- The encodings of any number of frames that both directions take, fed to an empty reader in one
-- chunk of at most 8192 bytes, come back as exactly these frames, in order, and nothing is left in
-- the buffer.
pub feed-stream :
    (fs : List Frame)
    → All IsReadable fs
    → length (stream fs) ≤ 8192
    → feed [] (stream fs) ≡ (some fs, [])
unfolding feed
feed-stream fs h l =
    let t : ltb 8192 (length (stream fs)) ≡ false = ground arith in
    rw t (drain-stream (length (stream fs)) fs h (omega arith))
