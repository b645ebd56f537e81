-- ===== src/Bestway/Datapoints/Units/Back.antt =====
-- A setpoint survives its way to the controller and back.
use homeflow.Base.{ℕ, ◌+◌, ◌-◌, ◌*◌, ◌≤◌, ◌≡◌, Bool, true, false, arith}
use homeflow.Base.Int.{pos, ◌-ℤ◌, ◌+ℤ◌, ◌*ℤ◌, ◌≤ℤ◌}
use homeflow.Base.Round.{round_ratio, round_half_even}
use homeflow.Bestway.Datapoints.Units.{to_celsius, from_celsius}

-- The error that the two roundings may make, in thousandths of a degree.
abbrev pub slack : Bool → ℕ
slack true = 328
slack false = 500

from_fahrenheit : (t : ℕ) → from_celsius (pos t) true ≡ pos (round_half_even (t * 9 + 160000) 5000)
unfolding from_celsius round_ratio ◌+ℤ◌ ◌*ℤ◌
from_fahrenheit t = ground arith

to_fahrenheit :
    (q : ℕ) → 32 ≤ q → to_celsius (pos q) true ≡ pos (round_half_even ((q - 32) * 50) 9 * 100)
unfolding to_celsius round_ratio ◌-ℤ◌ ◌*ℤ◌
to_fahrenheit q h = ground arith

round_5000 :
    (n : ℕ)
    → (5000 * round_half_even n 5000 ≤ n + 2500) × (n ≤ 5000 * round_half_even n 5000 + 2500)
unfolding round_half_even
round_5000 n = ground arith

round_9 : (n : ℕ) → (18 * round_half_even n 9 ≤ 2 * n + 9) × (2 * n ≤ 18 * round_half_even n 9 + 9)
unfolding round_half_even
round_9 n = ground arith

in_celsius :
    (t : ℕ)
    → (to_celsius (from_celsius (pos t) false) false ≤ℤ pos (t + 500))
      × (pos t ≤ℤ to_celsius (from_celsius (pos t) false) false +ℤ pos 500)
unfolding to_celsius from_celsius round_ratio round_half_even ◌+ℤ◌ ◌*ℤ◌
in_celsius t = ground arith

plus : (n t : ℕ) → t ≤ n + 328 → pos t ≤ℤ pos n +ℤ pos 328
unfolding ◌+ℤ◌
plus n t h = ground arith

in_fahrenheit :
    (t : ℕ)
    → (to_celsius (from_celsius (pos t) true) true ≤ℤ pos (t + 328))
      × (pos t ≤ℤ to_celsius (from_celsius (pos t) true) true +ℤ pos 328)
in_fahrenheit t =
    let q = round_half_even (t * 9 + 160000) 5000 in
    let (a, b) = round_5000 (t * 9 + 160000) in
    let above : 32 ≤ q = omega (arith, b) in
    let (c, d) = round_9 ((q - 32) * 50) in
    let n = round_half_even ((q - 32) * 50) 9 * 100 in
    let low : t ≤ n + 328 = omega (arith, a, b, c, d) in
    let near : pos t ≤ℤ pos n +ℤ pos 328 = plus n t low in
    rw (from_fahrenheit t, to_fahrenheit q above) (omega (arith, a, b, c, d), near)

-- A setpoint of zero degrees or more on the controller's scale, read back in Celsius, is off by at
-- most half a degree where the unit is Celsius, and by at most 0.328 degrees where it is Fahrenheit.
pub to_celsius-from_celsius :
    (t : ℕ) (fahrenheit : Bool)
    → (to_celsius (from_celsius (pos t) fahrenheit) fahrenheit ≤ℤ pos (t + slack fahrenheit))
      × (pos t ≤ℤ to_celsius (from_celsius (pos t) fahrenheit) fahrenheit +ℤ pos (slack fahrenheit))
to_celsius-from_celsius t true = in_fahrenheit t
to_celsius-from_celsius t false = in_celsius t
