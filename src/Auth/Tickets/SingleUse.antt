-- ===== src/Auth/Tickets/SingleUse.antt =====
-- A ticket is worth one handshake, for a short time.
use homeflow.Base.{
  ℕ, ◌+◌, ◌≤◌, ◌≡◌, refl, ◌∙◌, sym, ap, true, false, Option, none, some, List, [], ◌∷◌, inl, inr,
  Bool-cases, Option-cases, arith, leb, ltb, ◌==◌, if◌then◌else◌, length,
}
use homeflow.Base.Dict.{
  Dict, IsDict, lookup, insert, erase, pop_first, lookup-insert, lookup-erase_self, insert-IsDict,
  length-insert,
}
use homeflow.Auth.{Principal}
use homeflow.Errors.{Error, Result.{ok, err}}
use homeflow.Auth.Tickets.{
  Issued, TicketStore, prune, find_digest, claim, or_empty, issue, redeem, max_outstanding,
}

-- What a store holds under a key at a time.
abbrev pub live : ℕ → Option Issued → Option Issued
live now none = none
live now (some i) = if leb i.expires_at now then none else some i

lookup-prune-none :
    (now k : ℕ) (d : Dict Issued) → lookup k d ≡ none → lookup k (prune now d) ≡ none
lookup-prune-none now k [] h = refl
lookup-prune-none now k ((j, i) ∷ d) h = ground (arith, lookup-prune-none now k d)

lookup-prune :
    (now k : ℕ) (d : Dict Issued) → IsDict d → lookup k (prune now d) ≡ live now (lookup k d)
lookup-prune now k [] h = refl
lookup-prune now k ((j, i) ∷ d) h =
    ground (arith, lookup-prune now k d h.1, lookup-prune-none now k d)

prune-IsDict : (now : ℕ) (d : Dict Issued) → IsDict d → IsDict (prune now d)
prune-IsDict now [] h = tt
prune-IsDict now ((j, i) ∷ d) h =
    ground (arith, prune-IsDict now d h.1, lookup-prune-none now j d h.0)

length-prune : (now : ℕ) (d : Dict Issued) → length (prune now d) ≤ length d
length-prune now [] = omega arith
length-prune now ((j, i) ∷ d) = ground (arith, length-prune now d)

-- The loop finds the one key that is the digest.
find_miss :
    (k : ℕ) (d : Dict Issued) (o : Option (ℕ × Issued)) → lookup k d ≡ none → find_digest k d o ≡ o
find_miss k [] o h = refl
find_miss k ((j, i) ∷ d) o h = ground (arith, find_miss k d o)

find_hit :
    (k : ℕ) (d : Dict Issued) (o : Option (ℕ × Issued)) (i : Issued)
    → IsDict d
    → lookup k d ≡ some i
    → find_digest k d o ≡ some (k, i)
find_hit k [] o i h e = cc
find_hit k ((j, w) ∷ d) o i h e = elim (Bool-cases (k == j)) [
  | inl q ↦
      let same : k ≡ j = ground arith in
      let miss : lookup k d ≡ none = ground arith in
      let rest = find_miss k d (some (j, w)) miss in ground arith
  | inr q ↦ let rest = find_hit k d o i h.1 in ground arith
]

live_lem :
    (now : ℕ) (o : Option Issued) (i : Issued) → live now o ≡ some i → leb i.expires_at now ≡ false
live_lem now none i h = cc
live_lem now (some w) i h = ground arith

claim_empty :
    (o : Option (ℕ × Issued)) (now : ℕ) (s : TicketStore)
    → (claim o [] now s).0 ≡ err Error.unauthenticated
claim_empty none now s = refl
claim_empty (some e) now s = refl

module _ (digest : List ℕ → ℕ) where
  redeem_miss :
      (c : ℕ) (cs : List ℕ) (now : ℕ) (s : TicketStore)
      → lookup (digest (c ∷ cs)) (prune now s.tickets) ≡ none
      → redeem digest (some (c ∷ cs)) now s
        ≡ (err Error.unauthenticated, record s { tickets = prune now s.tickets })
  unfolding redeem
  redeem_miss c cs now s h = rw (find_miss (digest (c ∷ cs)) (prune now s.tickets) none h)

  redeem_empty :
      (ticket : Option (List ℕ)) (now : ℕ) (s : TicketStore)
      → or_empty ticket ≡ []
      → (redeem digest ticket now s).0 ≡ err Error.unauthenticated
  unfolding redeem
  redeem_empty ticket now s e = rw e (
      claim_empty (find_digest (digest []) (prune now s.tickets) none) now
        (record s { tickets = prune now s.tickets }))

  redeem_hit :
      (c : ℕ) (cs : List ℕ) (now : ℕ) (s : TicketStore) (i : Issued)
      → IsDict s.tickets
      → lookup (digest (c ∷ cs)) (prune now s.tickets) ≡ some i
      → leb i.expires_at now ≡ false
      → redeem digest (some (c ∷ cs)) now s
        ≡ (ok i.principal, record s { tickets = erase (digest (c ∷ cs)) (prune now s.tickets) })
  unfolding redeem
  redeem_hit c cs now s i d h e =
      rw (
        find_hit (digest (c ∷ cs)) (prune now s.tickets) none i (prune-IsDict now s.tickets d) h,
        e,
      )

  pop_first-IsDict : (d : Dict Issued) → IsDict d → IsDict (pop_first d)
  pop_first-IsDict [] h = tt
  pop_first-IsDict (e ∷ d) h = h.1

  make_room-IsDict :
      (d : Dict Issued) → IsDict d → IsDict (if leb 64 (length d) then pop_first d else d)
  make_room-IsDict d h = elim (Bool-cases (leb 64 (length d))) [
    | inl e ↦ rw e (pop_first-IsDict d h)
    | inr e ↦ rw e h
  ]

  length-make_room :
      (d : Dict Issued) → length d ≤ 64 → length (if leb 64 (length d) then pop_first d else d) ≤ 63
  length-make_room [] h = ground arith
  length-make_room (e ∷ d) h = ground arith

  -- A store of at most 64 tickets, none stored twice, is one after `issue` too.
  pub issue_bounded :
      (ticket : List ℕ) (p : Principal) (now : ℕ) (s : TicketStore)
      → IsDict s.tickets
      → length s.tickets ≤ max_outstanding
      → IsDict (issue digest ticket p now s).1.tickets
        × (length (issue digest ticket p now s).1.tickets ≤ max_outstanding)
  unfolding issue
  issue_bounded ticket p now s d h =
      let q = prune-IsDict now s.tickets d in
      let l = length-prune now s.tickets in
      let room =
        (if leb 64 (length (prune now s.tickets))
          then pop_first (prune now s.tickets)
          else prune now s.tickets) in
      let i : Issued = record { principal = p; expires_at = now + s.ttl } in
      let less : length (prune now s.tickets) ≤ 64 = omega arith in
      let n = length-make_room (prune now s.tickets) less in
      let m = length-insert (digest ticket) i room in
      (
        insert-IsDict (digest ticket) i room (make_room-IsDict (prune now s.tickets) q),
        ground arith,
      )

  -- In a store where no key stands twice, a ticket that has just been issued is redeemed for the
  -- principal it was issued to, until its
  -- lifetime is over; from then on it is refused.
  pub redeem-issue :
      (c : ℕ) (cs : List ℕ) (p : Principal) (now later : ℕ) (s : TicketStore)
      → IsDict s.tickets
      → (redeem digest (some (c ∷ cs)) later (issue digest (c ∷ cs) p now s).1).0
        ≡ (if ltb later (now + s.ttl) then ok p else err Error.unauthenticated)
  unfolding issue
  redeem-issue c cs p now later s d = elim (Bool-cases (leb (now + s.ttl) later)) [
    | inl e ↦
        let gone : lookup k (prune later after) ≡ none = here ∙ (rw e) in
        let late : ltb later (now + s.ttl) ≡ false = ground arith in
        rw late (ap (λ r. r.0) (redeem_miss c cs later store gone))
    | inr e ↦
        let there : lookup k (prune later after) ≡ some i = here ∙ (rw e) in
        let early : ltb later (now + s.ttl) ≡ true = ground arith in
        rw early (ap (λ r. r.0) (redeem_hit c cs later store i dict there e))
  ]
    where
      k : ℕ
      k = digest (c ∷ cs)

      i : Issued
      i = record { principal = p; expires_at = now + s.ttl }

      room : Dict Issued
      room =
          if leb 64 (length (prune now s.tickets))
          then pop_first (prune now s.tickets)
          else prune now s.tickets

      after : Dict Issued
      after = insert k i room

      store : TicketStore
      store = record s { tickets = after }

      dict : IsDict after
      dict =
          insert-IsDict k i room
            (make_room-IsDict (prune now s.tickets) (prune-IsDict now s.tickets d))

      stored : lookup k after ≡ some i
      stored = ground (arith, lookup-insert k k i room)

      here : lookup k (prune later after) ≡ live later (some i)
      here = lookup-prune later k after dict ∙ ap (live later) stored

  -- In a store where no key stands twice, a ticket that has been redeemed is refused when it is
  -- presented again, at whatever time.
  pub redeem_once :
      (ticket : Option (List ℕ)) (now later : ℕ) (s : TicketStore) (p : Principal)
      → IsDict s.tickets
      → (redeem digest ticket now s).0 ≡ ok p
      → (redeem digest ticket later (redeem digest ticket now s).1).0 ≡ err Error.unauthenticated
  redeem_once none now later s p d h = let q = redeem_empty none now s refl in cc
  redeem_once (some []) now later s p d h = let q = redeem_empty (some []) now s refl in cc
  redeem_once (some (c ∷ cs)) now later s p d h =
      elim (Option-cases (lookup (digest (c ∷ cs)) (prune now s.tickets))) [
        | inl e ↦ let q = redeem_miss c cs now s e in cc
        | inr (i, e) ↦ elim (Bool-cases (leb i.expires_at now)) [
          | inl x ↦
              let y = lookup-prune now (digest (c ∷ cs)) s.tickets d in
              let z = live_lem now (lookup (digest (c ∷ cs)) s.tickets) i (sym y ∙ e) in cc
          | inr x ↦
              let q = redeem_hit c cs now s i d e x in
              let gone =
                lookup-erase_self (digest (c ∷ cs)) (prune now s.tickets)
                  (prune-IsDict now s.tickets d) in
              let still =
                lookup-prune-none later (digest (c ∷ cs))
                  (erase (digest (c ∷ cs)) (prune now s.tickets)) gone in
              let r =
                redeem_miss c cs later
                  (record s { tickets = erase (digest (c ∷ cs)) (prune now s.tickets) }) still in
              rw q (ap (λ r. r.0) r)
        ]
      ]
