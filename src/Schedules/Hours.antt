-- ===== src/Schedules/Hours.antt =====
-- The delay of a timer, `_validate_hours` (backend/src/homeflow/schedules/service.py). A number of
-- hours counts thousand-millionths of an hour, and a delay is in microseconds. Infinite hours and NaN are
-- left out: the model of the request (backend/src/homeflow/api/schemas.py) admits numbers above 0 and
-- up to 48 alone.
use homeflow.Base.{
  ℕ, suc, ◌+◌, ◌*◌, ◌/◌, ◌≤◌, ◌≡◌, ◌∙◌, sym, ap, ◌↔◌, Bool, ◌||◌, Option, none, some, if◌then◌else◌,
  arith,
}
use homeflow.Base.Round.{round_half_even}
use homeflow.Base.Int.{ℤ, pos, negsuc, ◌-ℤ◌, ltb_ℤ}

-- `_STEP_HOURS`, which is also `_MIN_HOURS`.
abbrev pub step_hours : ℕ
step_hours = 500_000_000

round_hours : ℤ → ℤ
unfolding round_half_even
round_hours (pos n) = pos (round_half_even n step_hours * step_hours)
round_hours (negsuc n) = pos 0 -ℤ pos (round_half_even (suc n) step_hours * step_hours)

-- `abs(a - b) > 1e-9`
abbrev differs : ℤ → ℤ → Bool
differs a b = ltb_ℤ (pos 1) (a -ℤ b) || ltb_ℤ (pos 1) (b -ℤ a)

-- `timedelta(hours=rounded)`
abbrev to_delay : ℤ → ℕ
to_delay (pos n) = n * 18 / 5
to_delay (negsuc n) = 0

-- The delay; `none` where the hours are refused.
unfoldable pub validate_hours : ℕ → ℤ → Option ℕ
unfolding round_hours
validate_hours maximum hours =
    let rounded = round_hours hours in
    if ltb_ℤ rounded (pos step_hours) || (ltb_ℤ (pos maximum) rounded || differs rounded hours)
    then none
    else some (to_delay rounded)

validate_hours_negative : (maximum n : ℕ) → validate_hours maximum (negsuc n) ≡ none
unfolding validate_hours ◌-ℤ◌
validate_hours_negative maximum n = ground arith

-- Hours within a thousand-millionth of so many half hours.
abbrev pub IsNear : ℤ → ℕ → Type 0
IsNear (pos n) k = (n ≤ k * step_hours + 1) × (k * step_hours ≤ n + 1)
IsNear (negsuc n) k = ⊥

round_near : (n k : ℕ) → IsNear (pos n) k → round_half_even n step_hours ≡ k
unfolding round_half_even
round_near n k h = ground arith

validate_hours_bounds :
    (maximum : ℕ) (hours : ℤ) (delay : ℕ)
    → validate_hours maximum hours ≡ some delay
    → (k : ℕ) × IsNear hours k × (delay ≡ k * 1_800_000_000) × (1 ≤ k) × (k * step_hours ≤ maximum)
unfolding validate_hours ◌-ℤ◌
validate_hours_bounds maximum (pos n) delay h =
    (round_half_even n step_hours, ground arith, ground arith, ground arith, ground arith)
validate_hours_bounds maximum (negsuc n) delay h = ground (arith, validate_hours_negative maximum n)

validate_hours_accepts :
    (maximum n k : ℕ)
    → IsNear (pos n) k
    → 1 ≤ k
    → k * step_hours ≤ maximum
    → validate_hours maximum (pos n) ≡ some (k * 1_800_000_000)
unfolding validate_hours ◌-ℤ◌
validate_hours_accepts maximum n k near p h = ground (arith, round_near n k near)

-- Hours are accepted, with a delay, exactly when they are within a thousand-millionth of a whole
-- number of half hours, at least one and at most the maximum, which is the delay.
pub validate_hours_exact :
    (maximum : ℕ) (hours : ℤ) (delay : ℕ)
    → (validate_hours maximum hours ≡ some delay) ↔ (
        (k : ℕ) × IsNear hours k
        × (delay ≡ k * 1_800_000_000)
        × (1 ≤ k)
        × (k * step_hours ≤ maximum))
validate_hours_exact maximum (pos n) delay = (
  validate_hours_bounds maximum (pos n) delay,
  λ (k, near, e, p, q). validate_hours_accepts maximum n k near p q ∙ ap some (sym e),
)
validate_hours_exact maximum (negsuc n) delay =
    (validate_hours_bounds maximum (negsuc n) delay, λ (k, none_near, _, _, _). absurd none_near)
