-- ===== src/Limit/Bound.antt =====
-- How many calls the token bucket lets through.
use recreation_test.Base.{
  ℕ, ◌+◌, ◌-◌, ◌*◌, ◌≤◌, ◌<◌, ◌≡◌, true, leb, if◌then◌else◌, List, [], ◌∷◌, arith,
}
use recreation_test.Limit.{RateLimiter, unit, refilled, allow, set_burst}

-- The number of calls that are let through at the given times, with the limiter behind them.
unfoldable pub allow_all : RateLimiter → List ℕ → ℕ × RateLimiter
allow_all rl [] = (0, rl)
allow_all rl (now ∷ later) =
    let (passed, rl') = allow rl now in
    let (n, last) = allow_all rl' later in (if passed then n + 1 else n, last)

-- Times do not fall, and none is before `start`; the last of them is at most `finish`.
abbrev pub AreTimes : ℕ → List ℕ → ℕ → Type 0
AreTimes start [] finish = start ≤ finish
AreTimes start (now ∷ later) finish = (start ≤ now) × AreTimes now later finish

-- What one call takes from the bucket and puts in.
allow_step :
    (rl : RateLimiter) (now : ℕ)
    → rl.last_refill ≤ now
    → ((allow rl now).1.rate ≡ rl.rate)
      × ((allow rl now).1.capacity ≡ rl.capacity)
      × ((allow rl now).1.last_refill ≡ now)
      × ((allow rl now).1.tokens + (if (allow rl now).0 then unit else 0)
          ≤ rl.tokens + (now - rl.last_refill) * rl.rate)
      × ((allow rl now).1.tokens ≤ rl.tokens + (now - rl.last_refill) * rl.rate)
unfolding allow
allow_step rl now h = (ground arith, ground arith, ground arith, ground arith, ground arith)

finish-above :
    (start : ℕ) (times : List ℕ) (finish : ℕ) → AreTimes start times finish → start ≤ finish
finish-above start [] finish h = h
finish-above start (now ∷ later) finish (h, rest) =
    omega (arith, finish-above now later finish rest)

-- Time and tokens add up over two stretches.
two_stretches :
    (n taken left tokens rate start now finish : ℕ)
    → start ≤ now
    → now ≤ finish
    → n ≤ left + (finish - now) * rate
    → left + taken ≤ tokens + (now - start) * rate
    → n + taken ≤ tokens + (finish - start) * rate
two_stretches n taken left tokens rate start now finish h k p q =
    let whole : finish - start ≡ (now - start) + (finish - now) = omega arith in
    rw whole (omega arith)

allow_all_bound_lem :
    (rl : RateLimiter) (times : List ℕ) (finish : ℕ)
    → AreTimes rl.last_refill times finish
    → (allow_all rl times).0 * unit ≤ rl.tokens + (finish - rl.last_refill) * rl.rate
unfolding allow_all
allow_all_bound_lem rl [] finish h = omega arith
allow_all_bound_lem rl (now ∷ later) finish (h, rest) =
    let (same_rate, same_cap, refilled_now, sum, le) = allow_step rl now h in
    let rl' = (allow rl now).1 in
    let rest' : AreTimes rl'.last_refill later finish = rw refilled_now rest in
    let ih = allow_all_bound_lem rl' later finish rest' in
    let ih' : (allow_all rl' later).0 * unit ≤ rl'.tokens + (finish - now) * rl.rate =
      rw (refilled_now, same_rate) at ih in
    ground (
      arith,
      two_stretches ((allow_all rl' later).0 * unit) (if (allow rl now).0 then unit else 0)
          rl'.tokens rl.tokens rl.rate rl.last_refill now finish h
          (finish-above now later finish rest) ih' sum,
    )

-- In any stretch of time, whatever the calls in it, at most as many are let through as there were tokens
-- in the bucket at its start and as the rate adds until its end: passed * unit <= tokens + time * rate.
pub allow_all_bound :
    (rl : RateLimiter) (times : List ℕ) (finish : ℕ)
    → AreTimes rl.last_refill times finish
    → (allow_all rl times).0 * unit ≤ rl.tokens + (finish - rl.last_refill) * rl.rate
allow_all_bound = allow_all_bound_lem

-- The bucket of a limiter whose rate and burst are never changed holds at most its capacity.
pub allow-tokens :
    (rl : RateLimiter) (now : ℕ)
    → rl.tokens ≤ rl.capacity
    → ((allow rl now).1.tokens ≤ (allow rl now).1.capacity)
      × ((allow rl now).0 ≡ true → unit ≤ rl.capacity)
unfolding allow
allow-tokens rl now h = (ground arith, ground arith)

-- A call is refused only if the bucket, after the refill, has less than one token; then nothing is taken
-- from it, and otherwise exactly one token is.
pub allow_exact :
    (rl : RateLimiter) (now : ℕ)
    → ((allow rl now).0 ≡ leb unit (refilled rl now))
      × ((allow rl now).1.tokens + (if (allow rl now).0 then unit else 0) ≡ refilled rl now)
unfolding allow
allow_exact rl now = (ground arith, ground arith)

-- Lowering the burst lowers the capacity and leaves the tokens: from a full bucket the bucket then holds
-- more than its new capacity.
pub set_burst_overfull :
    (rl : RateLimiter) (burst : ℕ)
    → rl.tokens ≡ rl.capacity
    → burst * rl.rate * unit < rl.capacity
    → (set_burst rl burst).capacity < (set_burst rl burst).tokens
unfolding set_burst
set_burst_overfull rl burst full less = ground arith
