-- ===== src/Base/Dict.antt =====
-- Python's dict and OrderedDict: an association list in insertion order. Keys are identifiers,
-- which are only compared.
use homeflow.Base.{
  ℕ, suc, ◌≤◌, ◌<◌, ◌≡◌, refl, subst, ◌∙◌, ◌≢◌, inl, inr, List, [], ◌∷◌, ◌++◌, Option, none, some,
  arith, ltb, ◌==◌, if◌then◌else◌, Bool-cases, Option-cases, length, length-append,
}

abbrev pub Dict {ℓ} : Type ℓ → Type ℓ
Dict V = List (ℕ × V)

module _ {ℓ} {V : Type ℓ} where
  -- `d.get(k)`
  abbrev pub lookup : ℕ → Dict V → Option V
  lookup k [] = none
  lookup k ((j, v) ∷ d) = if k == j then some v else lookup k d

  -- `d[k] = v`: in place, or at the end.
  abbrev pub insert : ℕ → V → Dict V → Dict V
  insert k v [] = (k, v) ∷ []
  insert k v ((j, w) ∷ d) = if k == j then (k, v) ∷ d else (j, w) ∷ insert k v d

  -- `del d[k]`
  abbrev pub erase : ℕ → Dict V → Dict V
  erase k [] = []
  erase k ((j, w) ∷ d) = if k == j then d else (j, w) ∷ erase k d

  -- `d.move_to_end(k)`
  abbrev pub move_to_end : ℕ → Dict V → Dict V
  move_to_end k d = elim (lookup k d) [ none ↦ d | some v ↦ erase k d ++ (k, v) ∷ [] ]

  -- `d.popitem(last=False)`
  abbrev pub pop_first : Dict V → Dict V
  pop_first [] = []
  pop_first (e ∷ d) = d

  -- `while len(d) > n: d.popitem(last=False)`
  abbrev pub trim : ℕ → Dict V → Dict V
  trim n [] = []
  trim n (e ∷ d) = if ltb n (length (e ∷ d)) then trim n d else e ∷ d

  -- No key stands twice.
  abbrev pub IsDict : Dict V → Type ℓ
  IsDict [] = Unit
  IsDict ((k, v) ∷ d) = (lookup k d ≡ none) × IsDict d

  pub lookup-insert :
      (j k : ℕ) (v : V) (d : Dict V)
      → lookup j (insert k v d) ≡ (if j == k then some v else lookup j d)
  lookup-insert j k v [] = refl
  lookup-insert j k v ((i, w) ∷ d) = ground (arith, lookup-insert j k v d)

  pub lookup-erase_ne : (j k : ℕ) (d : Dict V) → j ≢ k → lookup j (erase k d) ≡ lookup j d
  lookup-erase_ne j k [] h = refl
  lookup-erase_ne j k ((i, w) ∷ d) h = ground (arith, lookup-erase_ne j k d h)

  pub lookup-erase_self : (k : ℕ) (d : Dict V) → IsDict d → lookup k (erase k d) ≡ none
  lookup-erase_self k [] h = refl
  lookup-erase_self k ((i, w) ∷ d) h = ground (arith, lookup-erase_self k d h.1)

  pub lookup-append :
      (j k : ℕ) (v : V) (d : Dict V)
      → lookup j d ≡ none
      → lookup j (d ++ (k, v) ∷ []) ≡ (if j == k then some v else none)
  lookup-append j k v [] h = refl
  lookup-append j k v ((i, w) ∷ d) h = ground (arith, lookup-append j k v d)

  pub lookup-append_ne :
      (j k : ℕ) (v : V) (d : Dict V) → j ≢ k → lookup j (d ++ (k, v) ∷ []) ≡ lookup j d
  lookup-append_ne j k v [] h = ground arith
  lookup-append_ne j k v ((i, w) ∷ d) h = ground (arith, lookup-append_ne j k v d h)

  pub lookup-append_hit :
      (j : ℕ) (d e : Dict V) (v : V) → lookup j d ≡ some v → lookup j (d ++ e) ≡ some v
  lookup-append_hit j [] e v h = cc
  lookup-append_hit j ((i, w) ∷ d) e v h = ground (arith, lookup-append_hit j d e v)

  pub insert-IsDict : (k : ℕ) (v : V) (d : Dict V) → IsDict d → IsDict (insert k v d)
  insert-IsDict k v [] h = (refl, tt)
  insert-IsDict k v ((i, w) ∷ d) h = ground (arith, insert-IsDict k v d h.1, lookup-insert i k v d)

  pub erase-IsDict : (k : ℕ) (d : Dict V) → IsDict d → IsDict (erase k d)
  erase-IsDict k [] h = tt
  erase-IsDict k ((i, w) ∷ d) h =
      let rest = erase-IsDict k d h.1 in
      elim (Bool-cases (k == i)) [
        | inl e ↦ let q : d ≡ erase k ((i, w) ∷ d) = ground arith in subst IsDict q h.1
        | inr e ↦
            let q : (i, w) ∷ erase k d ≡ erase k ((i, w) ∷ d) = ground arith in
            let ne : i ≢ k = ground arith in subst IsDict q (lookup-erase_ne i k d ne ∙ h.0, rest)
      ]

  append-IsDict :
      (k : ℕ) (v : V) (d : Dict V) → lookup k d ≡ none → IsDict d → IsDict (d ++ (k, v) ∷ [])
  append-IsDict k v [] n h = (refl, tt)
  append-IsDict k v ((i, w) ∷ d) n h =
      ground (arith, append-IsDict k v d, lookup-append i k v d h.0)

  pub move_to_end-IsDict : (k : ℕ) (d : Dict V) → IsDict d → IsDict (move_to_end k d)
  move_to_end-IsDict k d h = elim (Option-cases (lookup k d)) [
    | inl e ↦ rw (e, move_to_end) h
    | inr (v, e) ↦
        rw (e, move_to_end)
          (append-IsDict k v (erase k d) (lookup-erase_self k d h) (erase-IsDict k d h))
  ]

  pub length-insert :
      (k : ℕ) (v : V) (d : Dict V)
      → length (insert k v d) ≡ (elim (lookup k d) [ none ↦ suc (length d) | some _ ↦ length d ])
  length-insert k v [] = refl
  length-insert k v ((i, w) ∷ d) = ground (arith, length-insert k v d)

  pub length-erase :
      (k : ℕ) (v : V) (d : Dict V) → lookup k d ≡ some v → suc (length (erase k d)) ≡ length d
  length-erase k v [] h = cc
  length-erase k v ((i, w) ∷ d) h = ground (arith, length-erase k v d)

  pub length-move_to_end : (k : ℕ) (d : Dict V) → length (move_to_end k d) ≡ length d
  length-move_to_end k d = elim (Option-cases (lookup k d)) [
    | inl e ↦ rw (e, move_to_end)
    | inr (v, e) ↦
        rw (e, move_to_end)
          (omega (arith, length-erase k v d e, length-append (erase k d) ((k, v) ∷ [])))
  ]

  pub length-trim : (n : ℕ) (d : Dict V) → length (trim n d) ≤ n
  length-trim n [] = omega arith
  length-trim n (e ∷ d) = ground (arith, length-trim n d)

  -- The newest entry survives.
  pub lookup-trim_last :
      (n k : ℕ) (v : V) (d : Dict V)
      → 0 < n
      → lookup k d ≡ none
      → lookup k (trim n (d ++ (k, v) ∷ [])) ≡ some v
  lookup-trim_last n k v [] h e = ground arith
  lookup-trim_last n k v ((i, w) ∷ d) h e =
      ground (arith, lookup-trim_last n k v d, lookup-append k k v d)

  -- What `move_to_end` does after `d[k] = v`.
  pub lookup-move_to_end-insert :
      (n k : ℕ) (v : V) (d : Dict V)
      → 0 < n
      → IsDict d
      → lookup k (trim n (move_to_end k (insert k v d))) ≡ some v
  lookup-move_to_end-insert n k v d p h =
      rw (hit, move_to_end)
        (lookup-trim_last n k v (erase k (insert k v d)) p
          (lookup-erase_self k (insert k v d) (insert-IsDict k v d h)))
    where
      hit : lookup k (insert k v d) ≡ some v
      hit = ground (arith, lookup-insert k k v d)

  pub trim-IsDict : (n : ℕ) (d : Dict V) → IsDict d → IsDict (trim n d)
  trim-IsDict n [] h = tt
  trim-IsDict n (e ∷ d) h =
      let rest = trim-IsDict n d h.1 in
      elim (Bool-cases (ltb n (length (e ∷ d)))) [
        | inl q ↦ let p : trim n d ≡ trim n (e ∷ d) = ground arith in subst IsDict p rest
        | inr q ↦ let p : e ∷ d ≡ trim n (e ∷ d) = ground arith in subst IsDict p h
      ]

  -- To move a key to the end changes no lookup.
  pub lookup-move_to_end :
      (j k : ℕ) (d : Dict V) → IsDict d → lookup j (move_to_end k d) ≡ lookup j d
  lookup-move_to_end j k d h = elim (Option-cases (lookup k d)) [
    | inl e ↦ rw (e, move_to_end)
    | inr (v, e) ↦
        rw (e, move_to_end)
          (elim (Bool-cases (j == k)) [
            | inl q ↦
                let same : j ≡ k = ground arith in
                rw (same, e)
                  (lookup-append k k v (erase k d) (lookup-erase_self k d h) ∙ (ground arith))
            | inr q ↦
                let ne : j ≢ k = ground arith in
                lookup-append_ne j k v (erase k d) ne ∙ lookup-erase_ne j k d ne
          ])
  ]
