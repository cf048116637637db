-- ===== src/Auth/Examples.antt =====
-- Runs of the authentication state on concrete inputs.
use veila.Prelude.{◌+◌, ◌-◌, ◌*◌, ◌≤◌, ◌≡◌, refl, false, some, arith, ltb, if◌then◌else◌, nat_eq}
use veila.Clock.{from_secs}
use veila.Auth.Policy
use veila.Auth.Policy.{AuthPolicy, failure_delay, multiplier}
use veila.Auth.State
use veila.Auth.State.{
  AuthState, admit, finish_failure, start_attempt, finish_success, rate_limited, allowed,
  next_failed_attempts,
}
use veila.Auth.Backoff.{IsPolicy, new-IsPolicy}
use veila.Auth.Throttle.{Failures, fresh, failed, Failures-rate, finish_failure-throttles}

-- The program's default policy: one second, at most sixteen.
default-IsPolicy : IsPolicy Policy.default
unfolding Policy.default
default-IsPolicy = new-IsPolicy (from_secs 1) (from_secs 16) (omega arith) (omega arith)

third_delay : failure_delay Policy.default 3 ≡ from_secs 4
unfolding failure_delay Policy.default multiplier
third_delay = refl

late_delay : failure_delay Policy.default 200 ≡ from_secs 16
unfolding failure_delay Policy.default multiplier
late_delay = refl

-- Two wrong passwords: one at once, the next after a second, answered a second later.
abbrev once : AuthState
once = record {
  failed_attempts = 1;
  retry_after = some (from_secs 1);
  in_flight = false;
  policy = Policy.default;
}

abbrev twice : AuthState
twice = record once { failed_attempts = 2; retry_after = some (from_secs 4) }

first_failure : finish_failure (start_attempt (State.new Policy.default)) 0 ≡ some once
unfolding finish_failure start_attempt State.new Policy.default failure_delay multiplier
first_failure = refl

second_failure : finish_failure (start_attempt once) (from_secs 2) ≡ some twice
unfolding finish_failure start_attempt Policy.default failure_delay multiplier
second_failure = refl

two-Failures : Failures Policy.default 0 2 (from_secs 2) twice
unfolding admit State.new
two-Failures =
    failed (from_secs 1) (from_secs 2)
      (failed 0 0 fresh (omega arith) refl (omega arith) first_failure) (omega arith) refl
      (omega arith) second_failure

Failures-rate_example : 0 + 1 * Policy.default.base_delay ≤ from_secs 2
Failures-rate_example = Failures-rate default-IsPolicy two-Failures

finish_failure-throttles_example :
    (s' : AuthState) × (finish_failure once (from_secs 2) ≡ some s')
    × (s'.failed_attempts ≡ next_failed_attempts once)
    × (admit s' (from_secs 3) ≡ (
        let until = from_secs 2 + failure_delay Policy.default (next_failed_attempts once) in
        if ltb (from_secs 3) until then rate_limited (until - from_secs 3) else allowed))
unfolding Policy.default
finish_failure-throttles_example =
    finish_failure-throttles once (from_secs 2) (from_secs 3) default-IsPolicy (omega arith)
