-- ===== src/PrReview/Delay.antt =====
-- The delays between the ticks of the review scheduler after failures.
use coderus.Base.{ℕ, zero, suc, ◌-◌, ◌*◌, ◌^◌, ◌≤◌, min, max, arith}
use coderus.PrReview.{retry_delay}

power_positive : (k : ℕ) → 1 ≤ 2 ^ k
power_positive zero = omega arith
power_positive (suc k) = grind (arith, power_positive k)

grows : (a p : ℕ) → 1 ≤ p → a ≤ a * p
grows a zero h = omega (arith, h)
grows a (suc q) h = grind arith

-- After a failed tick the review scheduler waits at least a second and at most a minute,
-- whatever the poll interval and the number of failures.
pub retry_delay-bounds :
    (poll failures : ℕ) → (1000 ≤ retry_delay poll failures) × (retry_delay poll failures ≤ 60000)
unfolding retry_delay
retry_delay-bounds poll failures =
    let enough =
      grows (max 1000 poll) (2 ^ min (failures - 1) 6) (power_positive (min (failures - 1) 6)) in
    (omega (arith, enough), omega arith)
