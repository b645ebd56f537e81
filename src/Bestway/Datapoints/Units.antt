-- ===== src/Bestway/Datapoints/Units.antt =====
-- Conversion of temperatures (backend/src/homeflow/integrations/bestway/datapoints.py). The controller
-- counts whole degrees of its own unit, the gateway thousandths of a degree Celsius.
pub mod Back
use homeflow.Base.{ℕ, Bool, true, false}
use homeflow.Base.Int.{ℤ, pos, ◌-ℤ◌, ◌+ℤ◌, ◌*ℤ◌}
use homeflow.Base.Round.{round_ratio}

-- To a tenth of a degree where the unit is Fahrenheit.
unfoldable pub to_celsius : ℤ → Bool → ℤ
to_celsius value true = round_ratio ((value -ℤ pos 32) *ℤ pos 50) 9 *ℤ pos 100
to_celsius value false = value *ℤ pos 1000

unfoldable pub from_celsius : ℤ → Bool → ℤ
from_celsius value true = round_ratio (value *ℤ pos 9 +ℤ pos 160000) 5000
from_celsius value false = round_ratio value 1000
