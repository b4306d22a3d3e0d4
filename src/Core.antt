-- ===== src/Core.antt =====
-- internal/core/core.go: the default retry policy and the backoff delay.
pub mod Backoff
use Prim.Native.Nat.{◌*◌}
use chronos_engine.Prelude.{
  ℕ, zero, suc, ◌-◌, ℤ, pos, negsuc, pos_part, ltb, leb_ℤ, ltb_ℤ, Option, none, some, Bool, ◌&&◌,
  if◌then◌else◌,
}
use chronos_engine.Messages.{RetryPolicy, Duration, as_duration}

-- Go's float64 on bit patterns: conversion of an int64, product, `<`, conversion to an int64.
pub record Float64 : Type 0 where
  pub from_int64 : ℤ → ℕ
  pub mul : ℕ → ℕ → ℕ
  pub lt : ℕ → ℕ → Bool
  pub to_int64 : ℕ → ℤ
  pub one : ℕ
  pub two : ℕ

abbrev pub second : Duration
second = pos 1000000000

unfoldable pub default_activity_retry_policy : Float64 → RetryPolicy
default_activity_retry_policy fl = record {
  initial_interval = some second;
  backoff_coefficient = fl.two;
  max_interval = some (pos 100000000000);
  max_attempts = pos 5;
}

-- `for i := 1; i < attempt; i++ { delay *= coeff }`, on the rounds left.
unfoldable pub grow : Float64 → ℕ → ℕ → ℕ → ℕ
grow fl coeff zero delay = delay
grow fl coeff (suc rounds) delay = grow fl coeff rounds (fl.mul delay coeff)

abbrev rounds : ℤ → ℕ
rounds attempt = pos_part attempt - 1

unfoldable pub policy_or_default : Float64 → Option RetryPolicy → RetryPolicy
unfolding default_activity_retry_policy
policy_or_default fl none = default_activity_retry_policy fl
policy_or_default fl (some p) = p

unfoldable pub backoff_delay : Float64 → RetryPolicy → ℤ → Duration
unfolding grow
backoff_delay fl p attempt =
    let initial = as_duration p.initial_interval in
    let initial = if leb_ℤ initial (pos 0) then second else initial in
    let coeff = if fl.lt p.backoff_coefficient fl.one then fl.two else p.backoff_coefficient in
    let d = fl.to_int64 (grow fl coeff (rounds attempt) (fl.from_int64 initial)) in
    let max = as_duration p.max_interval in if ltb_ℤ (pos 0) max && ltb_ℤ max d then max else d

-- `none` stands for `(0, false)`: no attempt is left.
unfoldable pub next_retry_delay : Float64 → Option RetryPolicy → ℤ → Option Duration
unfolding policy_or_default backoff_delay
next_retry_delay fl policy attempt =
    let p = policy_or_default fl policy in
    if ltb_ℤ (pos 0) p.max_attempts && leb_ℤ p.max_attempts attempt
    then none
    else some (backoff_delay fl p attempt)
