-- ===== src/Limit/Tests.antt =====
-- common/utils/limit at concrete inputs.
use recreation_test.Base.{◌+◌, ◌-◌, ◌*◌, ◌≤◌, [], ◌∷◌, arith}
use recreation_test.Limit.{RateLimiter, unit}
use recreation_test.Limit.Bound.{allow_all, allow_all_bound}

-- Ten tokens a second, and room for twenty.
abbrev ten : RateLimiter
ten = record { rate = 10; capacity = 20_000_000_000; tokens = 20_000_000_000; last_refill = 5 }

allow_all_bound_example : (allow_all ten (7 ∷ 9 ∷ [])).0 * unit ≤ 20_000_000_000 + (11 - 5) * 10
allow_all_bound_example =
    allow_all_bound ten (7 ∷ 9 ∷ []) 11 (omega arith, (omega arith, omega arith))
