-- ===== src/Auth/State.antt =====
-- `AuthState` and `AuthAdmission` of crates/daemon/src/domain/auth.rs. A method that mutates
-- returns the new state; `none` is the panic of `Instant + Duration`.
use veila.Prelude.{ℕ, Bool, true, false, Option, none, some, ltb, if◌then◌else◌}
use mathlib.Core.Option
use veila.Clock.{Duration, Instant, checked_add, saturating_duration_since, saturating_add_u8}
use veila.Auth.Policy.{AuthPolicy, failure_delay}

pub data AuthAdmission : Type 0 where
  allowed : AuthAdmission
  busy : AuthAdmission
  rate_limited : Duration → AuthAdmission

pub record AuthState : Type 0 where
  pub failed_attempts : ℕ  -- u8
  pub retry_after : Option Instant
  pub in_flight : Bool
  pub policy : AuthPolicy

unfoldable pub new : AuthPolicy → AuthState
new policy = record { failed_attempts = 0; retry_after = none; in_flight = false; policy = policy }

unfoldable pub next_failed_attempts : AuthState → ℕ
next_failed_attempts s = saturating_add_u8 s.failed_attempts 1

-- The `if let` of `admit`, on the stored deadline.
admit_after : Option Instant → Instant → AuthAdmission
admit_after none now = allowed
admit_after (some retry_after) now =
    if ltb now retry_after
    then rate_limited (saturating_duration_since retry_after now)
    else allowed

unfoldable pub admit : AuthState → Instant → AuthAdmission
unfolding admit_after
admit s now = if s.in_flight then busy else admit_after s.retry_after now

unfoldable pub start_attempt : AuthState → AuthState
start_attempt s = record s { in_flight = true }

unfoldable pub finish_success : AuthState → AuthState
finish_success s = record s { in_flight = false; failed_attempts = 0; retry_after = none }

unfoldable pub finish_failure : AuthState → Instant → Option AuthState
finish_failure s now =
    let attempts = saturating_add_u8 s.failed_attempts 1 in
    Option.map
      (λ deadline. record s {
        in_flight = false;
        failed_attempts = attempts;
        retry_after = some deadline;
      })
      (checked_add now (failure_delay s.policy attempts))
