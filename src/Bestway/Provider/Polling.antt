-- ===== src/Bestway/Provider/Polling.antt =====
-- Polling the controller (backend/src/homeflow/integrations/bestway/provider.py).
use homeflow.Base.{
  ℕ, Bool, true, false, ◌&&◌, Option, none, some, List, [], ◌∷◌, ◌==◌, if◌then◌else◌,
}
use homeflow.Integrations.Flow.{Failure, Outcome, returned, failed}
use homeflow.Devices.Models.{Availability}
use homeflow.Integrations.{ProviderState}
use homeflow.Bestway.Provider.{Adapter, Setup, Work, read_payload, snapshot, offline_snapshot}

abbrev pub is_offline : Availability → Bool
is_offline Availability.offline = true
is_offline _ = false

-- `payload != previous`
abbrev pub same_bytes : List ℕ → List ℕ → Bool
same_bytes [] [] = true
same_bytes (a ∷ xs) (b ∷ ys) = (a == b) && same_bytes xs ys
same_bytes _ _ = false

abbrev pub is_previous : Option (List ℕ) → List ℕ → Bool
is_previous none payload = false
is_previous (some q) payload = same_bytes q payload

-- What a turn of `subscribe` yields, and the block that is the previous one from then on.
abbrev pub Polled : Type 0
Polled = Option ProviderState × Option (List ℕ)

abbrev pub report_absence : Option (List ℕ) → Work Polled
report_absence previous p =
    let offline = record p { availability = Availability.offline } in
    if is_offline p.availability
    then (returned (none, previous), p)
    else (returned (some (offline_snapshot offline), previous), offline)

abbrev pub report : Setup → Option (List ℕ) → Outcome (List ℕ) × Adapter → Outcome Polled × Adapter
report s previous (returned payload, p) =
    if is_previous previous payload
    then (returned (none, previous), p)
    else (returned (some (snapshot s payload p), some payload), p)
report s previous (failed Failure.unavailable, p) = report_absence previous p
report s previous (failed Failure.misbehaved, p) = report_absence previous p
report s previous (failed e, p) = (failed e, p)

-- One turn of the loop of `subscribe`, after its sleep.
unfoldable pub poll : Setup → Option (List ℕ) → Work Polled
poll s previous p = report s previous (read_payload s p)
