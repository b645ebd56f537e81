-- ===== src/Events/Bus/Lag.antt =====
-- What a subscriber that does not keep up still gets.
use homeflow.Base.{
  ℕ, suc, ◌+◌, ◌-◌, ◌<◌, ◌≤◌, ◌≡◌, refl, ◌∙◌, sym, ap, Bool, true, false, ◌||◌, Option, some, List,
  [], ◌∷◌, ◌++◌, inl, inr, arith, ltb, leb, length, length-append, drop, map, Bool-cases,
}
use homeflow.Events.Models.{DomainEvent}
use homeflow.Events.Bus.{Subscription, is_full, offer}

-- Offer events one after another.
abbrev pub offers : List DomainEvent → Subscription → Subscription
offers [] s = s
offers (e ∷ es) s = offers es (offer e s)

module _ (e : DomainEvent) where
  offer_full :
      (s : Subscription) (x : Option DomainEvent) (rest : List (Option DomainEvent))
      → s.is_closed ≡ false
      → s.queue ≡ x ∷ rest
      → length s.queue ≡ s.maxsize
      → offer e s ≡ record s { queue = rest ++ some e ∷ []; is_lagged = true }
  offer_full s x rest c q l =
      let pos : length (x ∷ rest) ≡ s.maxsize = ap length (sym q) ∙ l in
      let f : is_full s ≡ true = ground arith in
      let t : leb s.maxsize (length rest) ≡ false = ground arith in
      let p : ltb 0 s.maxsize ≡ true = ground (arith, pos) in rw (c, f, q, t, p)

  offer_room :
      (s : Subscription)
      → s.is_closed ≡ false
      → length s.queue < s.maxsize
      → offer e s ≡ record s { queue = s.queue ++ some e ∷ [] }
  offer_room s c l = let f : is_full s ≡ false = ground arith in rw (c, f)

append_one : {A : Type 0} (xs ys : List A) (x : A) → (xs ++ x ∷ []) ++ ys ≡ xs ++ x ∷ ys
append_one [] ys x = refl
append_one (z ∷ xs) ys x = ap (λ l. z ∷ l) (append_one xs ys x)

append_nil : {A : Type 0} (xs : List A) → xs ++ [] ≡ xs
append_nil [] = refl
append_nil (x ∷ xs) = ap (λ l. x ∷ l) (append_nil xs)

or_false : (b : Bool) → b ≡ (b || false)
or_false true = refl
or_false false = refl

true_or : (b : Bool) → true ≡ (b || true)
true_or true = refl
true_or false = refl

-- `n` events have come to a queue, and it has kept the newest of them.
abbrev Newest :
    List DomainEvent → Subscription → ℕ → List (Option DomainEvent) → Subscription → Type 0
Newest es after n all s =
    ((offers es after).queue ≡ drop (n - s.maxsize) all)
    × ((offers es after).is_lagged ≡ (s.is_lagged || ltb s.maxsize n))

abbrev Keeps : List DomainEvent → Type 0
Keeps es =
    (s : Subscription)
    → s.is_closed ≡ false
    → 0 < s.maxsize
    → length s.queue ≤ s.maxsize
    → Newest es s (length s.queue + length es) (s.queue ++ map some es) s

-- An open subscription with a positive bound, whose queue respects it, is offered any number of
-- events: its queue keeps the newest ones, in order and as many as the bound allows, and it is
-- flagged as lagged exactly if it was before or if something has been dropped.
pub offers_keep_newest :
    (es : List DomainEvent) (s : Subscription)
    → s.is_closed ≡ false
    → 0 < s.maxsize
    → length s.queue ≤ s.maxsize
    → ((offers es s).queue ≡ drop (length s.queue + length es - s.maxsize) (s.queue ++ map some es))
      × ((offers es s).is_lagged ≡ (s.is_lagged || ltb s.maxsize (length s.queue + length es)))
offers_keep_newest [] s c m b =
    let z : length s.queue + 0 - s.maxsize ≡ 0 = omega arith in
    let t : ltb s.maxsize (length s.queue + 0) ≡ false = ground arith in
    rw (z, t) (sym (append_nil s.queue), or_false s.is_lagged)
offers_keep_newest (e ∷ es) s c m b = go (offers_keep_newest es) s.queue refl
  where
    room :
        Keeps es
        → length s.queue < s.maxsize
        → Newest es
            (offer e s)
            (length s.queue + suc (length es))
            (s.queue ++ some e ∷ map some es)
            s
    room ih l =
        let s' = record s { queue = s.queue ++ some e ∷ [] } in
        let n = length-append s.queue (some e ∷ []) in
        let fits : length s'.queue ≤ s.maxsize = omega (arith, n) in
        let (kept, flag) = ih s' c m fits in
        let sum : length (s.queue ++ some e ∷ []) + length es ≡ length s.queue + suc (length es) =
          omega (arith, n) in
        let one = append_one s.queue (map some es) (some e) in
        rw (offer_room e s c l) (
          let k =
            kept
            ∙ ap (λ x. drop (x - s.maxsize) ((s.queue ++ some e ∷ []) ++ map some es)) sum
            ∙ ap (drop (length s.queue + suc (length es) - s.maxsize)) one in
          (k, flag ∙ ap (λ x. s.is_lagged || ltb s.maxsize x) sum))

    go :
        Keeps es
        → (q : List (Option DomainEvent)) → s.queue ≡ q
        → Newest es
            (offer e s)
            (length s.queue + suc (length es))
            (s.queue ++ some e ∷ map some es)
            s
    go ih [] q = let l : length s.queue < s.maxsize = rw q m in room ih l
    go ih (x ∷ rest) q = elim (Bool-cases (leb s.maxsize (length s.queue))) [
      | inr l ↦ let less : length s.queue < s.maxsize = ground arith in room ih less
      | inl l ↦
          let same : length s.queue ≡ s.maxsize = ground arith in
          let s' = record s { queue = rest ++ some e ∷ []; is_lagged = true } in
          let size : suc (length rest) ≡ s.maxsize = sym (ap length q) ∙ same in
          let n = length-append rest (some e ∷ []) in
          let fits : length s'.queue ≤ s.maxsize = omega (arith, n, size) in
          let (kept, flag) = ih s' c m fits in
          let left : length (rest ++ some e ∷ []) + length es - s.maxsize ≡ length es =
            omega (arith, n, size) in
          let more : suc (length rest) + suc (length es) - s.maxsize ≡ suc (length es) =
            omega (arith, size) in
          let t : ltb s.maxsize (suc (length rest) + suc (length es)) ≡ true =
            ground (arith, size) in
          rw (offer_full e s x rest c q same, q, more, t)
            (
              kept
                  ∙ ap (λ k. drop k ((rest ++ some e ∷ []) ++ map some es)) left
                  ∙ ap (drop (length es)) (append_one rest (map some es) (some e)),
              flag ∙ true_or s.is_lagged,
            )
    ]
