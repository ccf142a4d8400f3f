-- ===== src/Limit.antt =====
-- common/utils/limit/rate_limiter.go: the token bucket. The mutex makes each call one step. The Go code
-- counts tokens in `float64` and time in seconds; here a token is `unit` parts and time is in
-- nanoseconds, so that a refill, time multiplied by rate, is a whole number of parts, and rounding is
-- not modelled. Rates and bursts are not negative, and the clock does not run backwards.
pub mod Bound
mod Tests
use recreation_test.Base.{ℕ, ◌+◌, ◌-◌, ◌*◌, ◌/◌, Bool, true, false, ltb, leb, if◌then◌else◌}

-- One token, and the nanoseconds in a second.
abbrev pub unit : ℕ
unit = 1_000_000_000

pub record RateLimiter : Type 0 where
  pub rate : ℕ
  pub capacity : ℕ
  pub tokens : ℕ
  pub last_refill : ℕ

unfoldable pub new_rate_limiter : ℕ → ℕ → ℕ → RateLimiter
new_rate_limiter rate burst now = record {
  rate = rate;
  capacity = burst * rate * unit;
  tokens = burst * rate * unit;
  last_refill = now;
}

unfoldable pub min : ℕ → ℕ → ℕ
min a b = if ltb a b then a else b

-- The tokens after the refill of `Allow` at time `now`.
unfoldable pub refilled : RateLimiter → ℕ → ℕ
unfolding min
refilled rl now =
    let new_tokens = (now - rl.last_refill) * rl.rate in
    if ltb rl.tokens rl.capacity then min rl.capacity (rl.tokens + new_tokens) else rl.tokens

unfoldable pub allow : RateLimiter → ℕ → Bool × RateLimiter
unfolding refilled
allow rl now =
    let tokens = refilled rl now in
    if leb unit tokens
    then (true, record rl { tokens = tokens - unit; last_refill = now })
    else (false, record rl { tokens = tokens; last_refill = now })

unfoldable pub set_rate : RateLimiter → ℕ → RateLimiter
set_rate rl rate = record rl { rate = rate }

unfoldable pub set_burst : RateLimiter → ℕ → RateLimiter
set_burst rl burst =
    let new_capacity = burst * rl.rate * unit in
    record rl {
      tokens =
          if ltb rl.capacity new_capacity
          then rl.tokens + (new_capacity - rl.capacity)
          else rl.tokens;
      capacity = new_capacity;
    }

unfoldable pub get_rate : RateLimiter → ℕ
get_rate rl = rl.rate

-- `int(rl.capacity / rl.rate)`, for a rate that is not 0.
unfoldable pub get_burst : RateLimiter → ℕ
get_burst rl = rl.capacity / (rl.rate * unit)
