-- ===== src/Tests/Core.antt =====
-- The retry policy of internal/core/core.go, on a policy of three attempts.
use chronos_engine.Prelude.{pos, some, ◌≡◌, refl, arith, ◌≤ℤ◌}
use chronos_engine.Messages.{RetryPolicy}
use chronos_engine.Core.{next_retry_delay, backoff_delay, policy_or_default, grow}
use chronos_engine.Core.Backoff.{next_retry_delay-bounded}
use chronos_engine.Tests.Fixtures.{whole}

abbrev three_attempts : RetryPolicy
three_attempts = record {
  initial_interval = some (pos 10);
  backoff_coefficient = 4;
  max_interval = some (pos 100);
  max_attempts = pos 3;
}

second_delay : next_retry_delay whole (some three_attempts) (pos 2) ≡ some (pos 40)
unfolding next_retry_delay backoff_delay grow policy_or_default
second_delay = refl

next_retry_delay-bounded_example : pos 40 ≤ℤ pos 100
next_retry_delay-bounded_example =
    next_retry_delay-bounded whole three_attempts (pos 2) (pos 40) (omega arith) second_delay
