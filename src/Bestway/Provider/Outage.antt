-- ===== src/Bestway/Provider/Outage.antt =====
-- What polling reports of an outage (backend/src/homeflow/integrations/bestway/provider.py).
use homeflow.Base.{
  ℕ, ◌≡◌, refl, ap, ◌∙◌, Bool, true, false, Option, none, some, List, [], ◌∷◌, arith, if◌then◌else◌,
}
use homeflow.Devices.Models.{Availability}
use homeflow.Integrations.Flow.{Failure, Outcome, returned, failed}
use homeflow.Bestway.Provider.{Adapter, Setup, read_payload, offline_snapshot, snapshot}
use homeflow.Bestway.Provider.Polling.{is_offline, same_bytes, Polled, report, poll}

same_bytes_refl : (xs : List ℕ) → same_bytes xs xs ≡ true
same_bytes_refl [] = refl
same_bytes_refl (x ∷ xs) = let rest = same_bytes_refl xs in ground (arith, rest)

-- The adapter when it has noted that the controller is away.
abbrev pub away : Adapter → Adapter
away p = record p { availability = Availability.offline }

poll_unreachable :
    (s : Setup) (previous : Option (List ℕ)) (p q : Adapter)
    → read_payload s p ≡ (failed Failure.unavailable, q)
    → is_offline q.availability ≡ false
    → poll s previous p ≡ (returned (some (offline_snapshot (away q)), previous), away q)
unfolding poll
poll_unreachable s previous p q e o = ap (report s previous) e ∙ go (is_offline q.availability) o
  where
    go :
        (b : Bool)
        → b ≡ false
        → (if◌then◌else◌ {A = Outcome Polled × Adapter} b
            (returned (none, previous), q)
            (returned (some (offline_snapshot (away q)), previous), away q))
          ≡ (returned (some (offline_snapshot (away q)), previous), away q)
    go b h = rw h refl

poll_unchanged :
    (s : Setup) (block : List ℕ) (p q : Adapter)
    → read_payload s p ≡ (returned block, q)
    → poll s (some block) p ≡ (returned (none, some block), q)
unfolding poll snapshot
poll_unchanged s block p q e = ap (report s (some block)) e ∙ rw (same_bytes_refl block) refl

-- The controller cannot be read in one poll, and the next one reads the block that was yielded last.
-- Then the first poll yields that the device is offline and the second yields nothing, so the device
-- stays offline for the rest of the gateway although it was read.
pub poll_hides_return :
    (s : Setup) (block : List ℕ) (p q r : Adapter)
    → read_payload s p ≡ (failed Failure.unavailable, q)
    → is_offline q.availability ≡ false
    → read_payload s (away q) ≡ (returned block, r)
    → (poll s (some block) p ≡ (returned (some (offline_snapshot (away q)), some block), away q))
      × (poll s (some block) (poll s (some block) p).1 ≡ (returned (none, some block), r))
poll_hides_return s block p q r e o h =
    let first = poll_unreachable s (some block) p q e o in
    (first, ap (λ x. poll s (some block) x.1) first ∙ poll_unchanged s block (away q) r h)
