-- ===== src/Core/Backoff.antt =====
-- What internal/core/core.go promises of `NextRetryDelay`.
use chronos_engine.Prelude.{◌≡◌, ℤ, pos, ◌≤ℤ◌, ◌<ℤ◌, some, arith, ltb_ℤ, ◌&&◌, if◌then◌else◌}
use chronos_engine.Messages.{RetryPolicy, as_duration}
use chronos_engine.Core.{Float64, backoff_delay, next_retry_delay}

clamped : (d max : ℤ) → pos 0 <ℤ max → (if ltb_ℤ (pos 0) max && ltb_ℤ max d then max else d) ≤ℤ max
clamped d max h = ground arith

backoff_delay-bounded :
    (fl : Float64) (p : RetryPolicy) (attempt : ℤ)
    → pos 0 <ℤ as_duration p.max_interval
    → backoff_delay fl p attempt ≤ℤ as_duration p.max_interval
unfolding backoff_delay
backoff_delay-bounded fl p attempt h = clamped _ (as_duration p.max_interval) h

-- A delay is never above a positive maximal interval of the policy, whatever the float64 arithmetic comes to.
pub next_retry_delay-bounded :
    (fl : Float64) (p : RetryPolicy) (attempt delay : ℤ)
    → pos 0 <ℤ as_duration p.max_interval
    → next_retry_delay fl (some p) attempt ≡ some delay
    → delay ≤ℤ as_duration p.max_interval
unfolding next_retry_delay
next_retry_delay-bounded fl p attempt delay h e =
    ground (arith, backoff_delay-bounded fl p attempt h)
