-- ===== src/Auth/Throttle.antt =====
-- Throttling: what admission answers after a failure, and how fast attempts can be made.
use veila.Prelude.{
  ℕ, zero, suc, ◌+◌, ◌-◌, ◌*◌, ◌≤◌, min, ◌≡◌, refl, ◌↔◌, ◌⊎◌, false, none, some, arith, ltb,
  if◌then◌else◌,
}
use veila.Clock.{Duration, Instant, instant_max}
use veila.Auth.Policy.{AuthPolicy, failure_delay}
use veila.Auth.State
use veila.Auth.State.{
  AuthState, AuthAdmission, allowed, busy, rate_limited, admit, start_attempt, finish_failure,
  finish_success, next_failed_attempts,
}
use veila.Auth.Backoff.{IsPolicy, failure_delay_bounds}

-- `admit` answers `allowed` exactly when no attempt is in flight and the stored deadline, if any,
-- has been reached.
admit-allowed_iff :
    (s : AuthState) (now : Instant)
    → (admit s now ≡ allowed) ↔ (
        (s.in_flight ≡ false)
        × ((s.retry_after ≡ none) ⊎ ((t : Instant) × (s.retry_after ≡ some t) × (t ≤ now))))
unfolding admit
admit-allowed_iff s now = (λ h. ground arith, λ h. ground arith)

-- A failure recorded at `done` throttles until the delay for the new count has passed: before that
-- instant `admit` answers with exactly the time that is left, from then on it allows. The record
-- itself does not overflow as long as the longest delay fits after `done`.
pub finish_failure-throttles :
    (s : AuthState) (done now : Instant)
    → IsPolicy s.policy
    → done + s.policy.max_delay ≤ instant_max
    → (s' : AuthState) × (finish_failure s done ≡ some s')
      × (s'.failed_attempts ≡ next_failed_attempts s)
      × (admit s' now ≡ (
          let until = done + failure_delay s.policy (next_failed_attempts s) in
          if ltb now until then rate_limited (until - now) else allowed))
unfolding finish_failure admit next_failed_attempts
finish_failure-throttles s done now v fits =
    let n = min (s.failed_attempts + 1) 255 in
    let bound = failure_delay_bounds s.policy n v in
    (
      record s {
        in_flight = false;
        failed_attempts = n;
        retry_after = some (done + failure_delay s.policy n);
      },
      ground arith,
      refl,
      refl,
    )

-- Attempts that all fail, one after the other: `Failures p start n t s` says that n admitted
-- attempts failed since `start`, the last at t, and that s is the state then.
pub data Failures (p : AuthPolicy) (start : Instant) : ℕ → Instant → AuthState → Type 0 where
  fresh : Failures p start zero start (State.new p)
  failed :
      {n : ℕ} {t : Instant} {s s' : AuthState} (at done : Instant)
      → Failures p start n t s
      → t ≤ at
      → admit s at ≡ allowed
      → at ≤ done
      → finish_failure (start_attempt s) done ≡ some s'
      → Failures p start (suc n) done s'

-- The time that the delays between n failed attempts take up.
pub waited : AuthPolicy → ℕ → Duration
waited p zero = 0
waited p (suc zero) = 0
waited p (suc (suc n)) = waited p (suc n) + failure_delay p (min (suc n) 255)

-- What holds after n failures in a row.
record HasFailed (p : AuthPolicy) (start : Instant) (n : ℕ) (t : Instant) (s : AuthState)
    : Type 0 where
  policy_kept : s.policy ≡ p
  idle : s.in_flight ≡ false
  counted : s.failed_attempts ≡ min n 255
  armed : 1 ≤ n → s.retry_after ≡ some (t + failure_delay p (min n 255))
  paced : start + waited p n ≤ t
  unarmed : n ≡ 0 → s.retry_after ≡ none

failed_step :
    {p : AuthPolicy} {start t : Instant} {n : ℕ} {s s' : AuthState} (at done : Instant)
    → HasFailed p start n t s
    → t ≤ at
    → admit s at ≡ allowed
    → at ≤ done
    → finish_failure (start_attempt s) done ≡ some s'
    → HasFailed p start (suc n) done s'
unfolding admit start_attempt finish_failure waited
failed_step {n = zero} at done h le ok le' e = ground arith
failed_step {n = suc n} at done h le ok le' e = ground (arith, h.armed (omega arith))

Failures-HasFailed :
    {p : AuthPolicy} {start t : Instant} {n : ℕ} {s : AuthState}
    → Failures p start n t s
    → HasFailed p start n t s
unfolding State.new waited
Failures-HasFailed fresh = ground arith
Failures-HasFailed (failed at done f le ok le' e) =
    failed_step at done (Failures-HasFailed f) le ok le' e

-- Guessing is slowed down as the policy says: after n failed attempts in a row the count is n (at
-- most 255), no attempt is in flight, and at least the sum of the delays in between has passed.
Failures-paced :
    {p : AuthPolicy} {start t : Instant} {n : ℕ} {s : AuthState}
    → Failures p start n t s
    → (s.failed_attempts ≡ min n 255) × (s.in_flight ≡ false) × (start + waited p n ≤ t)
Failures-paced f = let h = Failures-HasFailed f in (h.counted, h.idle, h.paced)

waited-ge : (p : AuthPolicy) (n : ℕ) → IsPolicy p → n * p.base_delay ≤ waited p (suc n)
unfolding waited
waited-ge p zero v = omega arith
waited-ge p (suc n) v =
    omega (arith, waited-ge p n v, (failure_delay_bounds p (min (suc n) 255) v).0)

-- So n + 1 failed attempts take at least n base delays, whatever the attempts were.
pub Failures-rate :
    {p : AuthPolicy} {start t : Instant} {n : ℕ} {s : AuthState}
    → IsPolicy p
    → Failures p start (suc n) t s
    → start + n * p.base_delay ≤ t
Failures-rate {p} {n = n} v f = omega (arith, waited-ge p n v, (Failures-HasFailed f).paced)

-- A success wipes the slate: whatever came before, the next attempt is admitted at once and the
-- next failure counts as the first.
finish_success-admits :
    (s : AuthState) (now : Instant)
    → (admit (finish_success s) now ≡ allowed) × (next_failed_attempts (finish_success s) ≡ 1)
unfolding admit finish_success next_failed_attempts
finish_success-admits s now = (refl, refl)
