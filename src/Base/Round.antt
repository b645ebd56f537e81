-- ===== src/Base/Round.antt =====
-- Python's `round` of a quotient: to the nearest integer, a half to the even one.
use Prim.Native.Nat.{ℕ, suc, ◌+◌, ◌*◌, ◌/◌, ◌%◌}
use homeflow.Base.Tests.{ltb, ◌==◌, if◌then◌else◌}
use homeflow.Base.Int.{ℤ, pos, negsuc, ◌-ℤ◌}

unfoldable pub round_half_even : ℕ → ℕ → ℕ
round_half_even n step =
    let q = n / step in
    let twice = 2 * (n % step) in
    if ltb twice step then q else if ltb step twice then q + 1 else if q % 2 == 0 then q else q + 1

-- The same of an integer.
unfoldable pub round_ratio : ℤ → ℕ → ℤ
round_ratio (pos n) step = pos (round_half_even n step)
round_ratio (negsuc n) step = pos 0 -ℤ pos (round_half_even (suc n) step)
