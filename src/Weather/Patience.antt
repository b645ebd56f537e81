-- ===== src/Weather/Patience.antt =====
-- How the adapter for the weather waits for a service that is down.
use homeflow.Base.{
  ℕ, suc, ◌+◌, ◌*◌, ◌^◌, min, ◌&&◌, ◌≡◌, refl, sym, ap, ◌∙◌, Bool, true, false, List, [], ◌∷◌, ◌++◌,
  arith, length,
}
use homeflow.Base.Int.{ℤ}
use mathlib.Core.List.{append_assoc}
use homeflow.Integrations.Flow.{Outcome, returned, failed}
use homeflow.Weather.{Turn, Step, fetch, turn, run, subscribe, initial_backoff}

abbrev pub is_failure : {A : Type 0} → Outcome A → Bool
is_failure (returned _) = false
is_failure (failed _) = true

abbrev pub all_failed : List Turn → Bool
all_failed [] = true
all_failed (t ∷ ts) = is_failure (fetch t.answer) && all_failed ts

-- A minute, doubled so often, and at most an hour.
abbrev pub doubled : ℕ → ℕ
doubled k = min (60000 * 2 ^ k) 3600000

doubled-suc : (k : ℕ) → min (doubled k * 2) 3600000 ≡ doubled (suc k)
doubled-suc k = omega arith

plus-zero : (k : ℕ) → k + 0 ≡ k
plus-zero k = omega arith

zero-plus : (k : ℕ) → 0 + k ≡ k
zero-plus k = omega arith

plus-suc : (k n : ℕ) → k + suc n ≡ suc k + n
plus-suc k n = omega arith

both : {a b : Bool} → (a && b) ≡ true → (a ≡ true) × (b ≡ true)
both {a} {b} h = ground arith

turn-failed :
    (poll backoff : ℕ) (t : Turn)
    → is_failure (fetch t.answer) ≡ true
    → turn poll backoff t ≡ (
      Step.slept poll ∷ Step.asked ∷ Step.slept (min (backoff + t.jitter) 3600000) ∷ [],
      min (backoff * 2) 3600000,
    )
unfolding turn
turn-failed poll backoff t h = ground arith

turn-yielded :
    (poll backoff : ℕ) (t : Turn) (celsius : ℤ)
    → fetch t.answer ≡ returned celsius
    → (turn poll backoff t).1 ≡ doubled 0
unfolding turn
turn-yielded poll backoff t celsius g = rw g refl

run-failed :
    (poll k : ℕ) (ts : List Turn)
    → all_failed ts ≡ true
    → (run poll (doubled k) ts).1 ≡ doubled (k + length ts)
unfolding run
run-failed poll k [] h = rw (plus-zero k) refl
run-failed poll k (t ∷ ts) h =
    let (now, later) = both h in
    rw (turn-failed poll (doubled k) t now, doubled-suc k, plus-suc k (length ts))
      (run-failed poll (suc k) ts later)

run-append :
    (poll backoff : ℕ) (ts us : List Turn)
    → (run poll backoff (ts ++ us)).0
      ≡ (run poll backoff ts).0 ++ (run poll (run poll backoff ts).1 us).0
unfolding run
run-append poll backoff [] us = refl
run-append poll backoff (t ∷ ts) us = rw (run-append poll (turn poll backoff t).1 ts us) (
    sym (
      append_assoc (turn poll backoff t).0 (run poll (turn poll backoff t).1 ts).0
        (run poll (run poll (turn poll backoff t).1 ts).1 us).0))

backoff-append :
    (poll backoff : ℕ) (ts us : List Turn)
    → (run poll backoff (ts ++ us)).1 ≡ (run poll (run poll backoff ts).1 us).1
unfolding run
backoff-append poll backoff [] us = refl
backoff-append poll backoff (t ∷ ts) us = backoff-append poll (turn poll backoff t).1 ts us

-- After a turn that yielded, and failures in a row since.
backoff-since :
    (poll : ℕ) (before : List Turn) (good : Turn) (celsius : ℤ) (ts : List Turn)
    → fetch good.answer ≡ returned celsius
    → all_failed ts ≡ true
    → (run poll initial_backoff (before ++ good ∷ ts)).1 ≡ doubled (length ts)
unfolding run
backoff-since poll before good celsius ts g h =
    let start = (run poll initial_backoff before).1 in
    rw
      (
        backoff-append poll initial_backoff before (good ∷ ts),
        turn-yielded poll start good celsius g,
      )
      (run-failed poll 0 ts h ∙ ap doubled (zero-plus (length ts)))

run-one :
    (poll backoff : ℕ) (t : Turn) → (run poll backoff (t ∷ [])).0 ≡ (turn poll backoff t).0 ++ []
unfolding run
run-one poll backoff t = refl

-- A turn that fails after a turn that yielded and any number of failures since sleeps for the polling
-- time, asks once, and sleeps for a minute doubled by each of those failures, with its jitter, and
-- at most an hour.
pub subscribe_backs_off :
    (poll : ℕ) (before : List Turn) (good : Turn) (celsius : ℤ) (ts : List Turn) (t : Turn)
    → fetch good.answer ≡ returned celsius
    → all_failed ts ≡ true
    → is_failure (fetch t.answer) ≡ true
    → subscribe poll ((before ++ good ∷ ts) ++ t ∷ [])
      ≡ subscribe poll (before ++ good ∷ ts)
        ++ Step.slept poll
          ∷ Step.asked
          ∷ Step.slept (min (min (60000 * 2 ^ length ts) 3600000 + t.jitter) 3600000)
          ∷ []
unfolding subscribe
subscribe_backs_off poll before good celsius ts t g h f =
    rw
      (
        run-append poll initial_backoff (before ++ good ∷ ts) (t ∷ []),
        run-one poll (run poll initial_backoff (before ++ good ∷ ts)).1 t,
        backoff-since poll before good celsius ts g h,
        turn-failed poll (doubled (length ts)) t f,
      )
      refl
