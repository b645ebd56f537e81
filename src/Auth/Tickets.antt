-- ===== src/Auth/Tickets.antt =====
-- Tickets of the WebSocket handshake (backend/src/homeflow/auth/tickets.py). A text is the list of
-- its characters; the hash is a parameter, and so is the random ticket that `issue` draws.
pub mod SingleUse
use homeflow.Base.{
  ℕ, ◌+◌, ◌*◌, Bool, true, false, not, Option, none, some, List, [], ◌∷◌, ◌++◌, leb, ◌&&◌, ◌==◌,
  if◌then◌else◌, length, keep, map,
}
use homeflow.Base.Dict.{Dict, insert, erase, pop_first}
use homeflow.Auth.{Principal}
use homeflow.Errors.{Error, Result.{ok, err}, Result}

-- `TICKET_TTL_SECONDS`, in microseconds, and `_MAX_OUTSTANDING`.
abbrev pub ticket_ttl : ℕ
ticket_ttl = 30 * 1000000

abbrev pub max_outstanding : ℕ
max_outstanding = 64

-- `homeflow.ticket.`
abbrev pub protocol_prefix : List ℕ
protocol_prefix =
    104 ∷ 111 ∷ 109 ∷ 101 ∷ 102 ∷ 108 ∷ 111 ∷ 119 ∷ 46 ∷ 116 ∷ 105 ∷ 99 ∷ 107 ∷ 101 ∷ 116 ∷ 46 ∷ []

abbrev pub ticket_protocol : List ℕ → List ℕ
ticket_protocol ticket = protocol_prefix ++ ticket

-- What is left of a text behind a prefix.
abbrev pub remove_prefix : List ℕ → List ℕ → Option (List ℕ)
remove_prefix [] text = some text
remove_prefix (p ∷ ps) [] = none
remove_prefix (p ∷ ps) (c ∷ text) = if p == c then remove_prefix ps text else none

abbrev pub or_none : Option (List ℕ) → Option (List ℕ)
or_none none = none
or_none (some []) = none
or_none (some (c ∷ text)) = some (c ∷ text)

abbrev pub ticket_from_protocol : List ℕ → Option (List ℕ)
ticket_from_protocol protocol = or_none (remove_prefix protocol_prefix protocol)

pub record Issued : Type 0 where
  pub principal : Principal
  pub expires_at : ℕ

pub record TicketStore : Type 0 where
  pub ttl : ℕ
  pub tickets : Dict Issued

-- `_prune`: every key whose ticket has expired is deleted.
abbrev pub prune : ℕ → Dict Issued → Dict Issued
prune now tickets = keep (λ e. not (leb e.1.expires_at now)) tickets

-- The loop of `redeem`: every candidate is compared, and the last match stays.
abbrev pub find_digest : ℕ → Dict Issued → Option (ℕ × Issued) → Option (ℕ × Issued)
find_digest digest [] found = found
find_digest digest ((key, issued) ∷ d) found =
    find_digest digest d (if digest == key then some (key, issued) else found)

-- The end of `redeem`, on what the loop found.
abbrev pub claim : Option (ℕ × Issued) → List ℕ → ℕ → TicketStore → Result Principal × TicketStore
claim none ticket now s = (err Error.unauthenticated, s)
claim (some (key, issued)) [] now s = (err Error.unauthenticated, s)
claim (some (key, issued)) (c ∷ cs) now s =
    let s' = record s { tickets = erase key s.tickets } in
    if leb issued.expires_at now then (err Error.unauthenticated, s') else (ok issued.principal, s')

-- `ticket or ""`
abbrev pub or_empty : Option (List ℕ) → List ℕ
or_empty none = []
or_empty (some ticket) = ticket

module _ (digest : List ℕ → ℕ) where
  -- `issue`, of the ticket that `secrets` draws.
  unfoldable pub issue : List ℕ → Principal → ℕ → TicketStore → List ℕ × TicketStore
  issue ticket principal now s =
      let tickets = prune now s.tickets in
      let room = if leb max_outstanding (length tickets) then pop_first tickets else tickets in
      let issued : Issued = record { principal = principal; expires_at = now + s.ttl } in
      (ticket, record s { tickets = insert (digest ticket) issued room })

  unfoldable pub redeem : Option (List ℕ) → ℕ → TicketStore → Result Principal × TicketStore
  redeem ticket now s =
      let s' = record s { tickets = prune now s.tickets } in
      claim (find_digest (digest (or_empty ticket)) s'.tickets none) (or_empty ticket) now s'
