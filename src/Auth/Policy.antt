-- ===== src/Auth/Policy.antt =====
-- `AuthPolicy` of crates/daemon/src/domain/auth.rs: the delay after each failed attempt.
use veila.Prelude.{ℕ, ◌-◌, ◌%◌, ◌^◌, min, max, ltb, if◌then◌else◌}
use veila.Clock.{Duration, u32_max, from_millis, from_secs, saturating_mul}

pub record AuthPolicy : Type 0 where
  pub base_delay : Duration
  pub max_delay : Duration

unfoldable pub new : Duration → Duration → AuthPolicy
new base_delay max_delay =
    let base = max base_delay (from_millis 1) in
    record { base_delay = base; max_delay = max max_delay base }

unfoldable pub default : AuthPolicy
unfolding new
default = new (from_secs 1) (from_secs 16)

-- `1u32.checked_shl(exponent).unwrap_or(u32::MAX)`
unfoldable pub multiplier : ℕ → ℕ
multiplier exponent = if ltb exponent 32 then 2 ^ exponent % 2 ^ 32 else u32_max

unfoldable pub failure_delay : AuthPolicy → ℕ → Duration
failure_delay p failed_attempts =
    let exponent = min (failed_attempts - 1) 16 in
    min (saturating_mul p.base_delay (multiplier exponent)) p.max_delay
