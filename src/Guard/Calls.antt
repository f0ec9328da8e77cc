-- ===== src/Guard/Calls.antt =====
-- `McpRuntimeGuard` (src/mcp/runtime-guard.ts) in exact arithmetic: a rate in tenths of a call per
-- second and tokens in ten-thousandths, so that a millisecond refills `rate` units. The time is an
-- argument. As a duration, and as what is summed of durations, `none` is NaN, and `not_finite` stands
-- for positive infinity.
use antigravity_browser.Base.{
  floor_of, below_zero, not_finite, ℕ, suc, ◌+◌, ◌-◌, ◌*◌, min, max, Bool, ◌&&◌, Option, none, some,
  [], ltb, if◌then◌else◌, Text, or_else, Amount, Dict, floor_of, insert, lookup,
}

-- Tokens in a call.
abbrev pub whole : ℕ
whole = 10000

pub record Metric : Type 0 where
  pub calls : ℕ
  pub successes : ℕ
  pub failures : ℕ
  pub total_duration_ms : Option ℕ
  pub max_duration_ms : Option ℕ

pub record RuntimeGuard : Type 0 where
  pub rate_per_second : ℕ
  pub capacity : ℕ
  pub tokens : ℕ
  pub last_refill_ms : ℕ
  pub metrics : Dict Metric

pub record GuardOptions : Type 0 where
  pub rate_per_second : Option Amount
  pub burst : Option Amount

pub record RuntimeCallContext : Type 0 where
  pub tool_name : Option Text
  pub write : Bool
  pub user_controlled : Bool
  pub paused_challenge : Bool

pub data Verdict : Type 0 where
  admitted session_paused_challenge user_control_hard_stop rate_limited : Verdict

-- `boundedNumber`, in the units of the setting.
unfoldable pub bounded_number : Option Amount → ℕ → ℕ → ℕ → ℕ
bounded_number none minimum maximum fallback = fallback
bounded_number (some not_finite) minimum maximum fallback = fallback
bounded_number (some below_zero) minimum maximum fallback = max minimum (min maximum 0)
bounded_number (some (floor_of n)) minimum maximum fallback = max minimum (min maximum n)

-- The constructor, at its reading of the clock.
unfoldable pub create : GuardOptions → ℕ → RuntimeGuard
create o now = record {
  rate_per_second = bounded_number o.rate_per_second 1 10000 200;
  capacity = bounded_number o.burst whole (10000 * whole) (40 * whole);
  tokens = bounded_number o.burst whole (10000 * whole) (40 * whole);
  last_refill_ms = now;
  metrics = [];
}

unfoldable pub refill : ℕ → RuntimeGuard → RuntimeGuard
refill now g = record g {
  tokens = min g.capacity (g.tokens + (now - g.last_refill_ms) * g.rate_per_second);
  last_refill_ms = now;
}

-- The end of `beforeCall`: a token, or the refusal.
unfoldable pub spend : RuntimeGuard → Verdict × RuntimeGuard
spend g =
    if ltb g.tokens whole
    then (rate_limited, g)
    else (admitted, record g { tokens = g.tokens - whole })

unfoldable pub before_call : RuntimeCallContext → ℕ → RuntimeGuard → Verdict × RuntimeGuard
unfolding refill spend
before_call c now g =
    if c.write && c.paused_challenge
    then (session_paused_challenge, g)
    else if c.write && c.user_controlled
    then (user_control_hard_stop, g)
    else spend (refill now g)

unfoldable pub bounded_duration : Option Amount → Option ℕ
bounded_duration none = none
bounded_duration (some not_finite) = some 86400000
bounded_duration (some below_zero) = some 0
bounded_duration (some (floor_of n)) = some (min 86400000 n)

-- An operation of which NaN gives NaN.
abbrev pub unless_nan : (ℕ → ℕ → ℕ) → Option ℕ → Option ℕ → Option ℕ
unless_nan f (some m) (some n) = some (f m n)
unless_nan f _ _ = none

abbrev pub no_calls : Metric
no_calls = record {
  calls = 0;
  successes = 0;
  failures = 0;
  total_duration_ms = some 0;
  max_duration_ms = some 0;
}

unfoldable pub add_call : Bool → Option Amount → Metric → Metric
unfolding bounded_duration
add_call success duration m = record {
  calls = suc m.calls;
  successes = if success then suc m.successes else m.successes;
  failures = if success then m.failures else suc m.failures;
  total_duration_ms = unless_nan (λ a b. a + b) m.total_duration_ms (bounded_duration duration);
  max_duration_ms = unless_nan (λ a b. max a b) m.max_duration_ms (bounded_duration duration);
}

-- `record`.
unfoldable pub record_call : Text → Bool → Option Amount → RuntimeGuard → RuntimeGuard
unfolding add_call
record_call tool success duration g = record g {
  metrics =
      insert tool (add_call success duration (or_else (lookup tool g.metrics) no_calls)) g.metrics;
}

unfoldable pub snapshot : RuntimeGuard → Dict Metric
snapshot g = g.metrics
