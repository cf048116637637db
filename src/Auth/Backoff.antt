-- ===== src/Auth/Backoff.antt =====
-- The delays of the backoff (crates/daemon/src/domain/auth.rs): their range and their growth.
use veila.Prelude.{ℕ, zero, suc, ◌-◌, ◌*◌, ◌^◌, ◌≤◌, min, ◌≡◌, arith, lt→ltb, nat_eq}
use native.Mathlib.Nat.{one-le-pow, pow-le-pow_right, pow-suc, mul-le-mul_left}
use veila.Clock.{Duration, duration_max}
use veila.Auth.Policy
use veila.Auth.Policy.{AuthPolicy, failure_delay, multiplier}

-- What `AuthPolicy::new` makes of a policy.
pub record IsPolicy (p : AuthPolicy) : Type 0 where
  pub positive : 1000000 ≤ p.base_delay
  pub ordered : p.base_delay ≤ p.max_delay
  pub representable : p.max_delay ≤ duration_max

-- For durations that Rust can represent, `AuthPolicy::new` yields a base delay of at least one
-- millisecond and a maximum that is no smaller than the base and still representable.
pub new-IsPolicy :
    (base_delay max_delay : Duration)
    → base_delay ≤ duration_max
    → max_delay ≤ duration_max
    → IsPolicy (Policy.new base_delay max_delay)
unfolding Policy.new
new-IsPolicy b m hb hm = record {
  positive = omega arith;
  ordered = omega arith;
  representable = omega arith;
}

-- Up to the cap of the exponent the shift neither overflows nor saturates.
multiplier-pow : (e : ℕ) → e ≤ 16 → multiplier e ≡ 2 ^ e
unfolding multiplier
multiplier-pow e h =
    rw (lt→ltb e 32 (omega arith))
      (omega (arith, pow-le-pow_right {n = 2} (omega arith) {i = e} {j = 16} h))

multiplier_pos : (e : ℕ) → e ≤ 16 → 1 ≤ multiplier e
multiplier_pos e h = rw (multiplier-pow e h) (one-le-pow e 2 (omega arith))

-- Every delay lies between the policy's base delay and its maximum.
pub failure_delay_bounds :
    (p : AuthPolicy) (n : ℕ)
    → IsPolicy p
    → (p.base_delay ≤ failure_delay p n) × (failure_delay p n ≤ p.max_delay)
unfolding failure_delay
failure_delay_bounds p n v =
    let k = multiplier (min (n - 1) 16) in
    let h : 1 ≤ k = multiplier_pos (min (n - 1) 16) (omega arith) in
    let grown : p.base_delay ≤ p.base_delay * k = grind arith in (omega arith, omega arith)

-- Failing once more never shortens the delay.
failure_delay_mono : (p : AuthPolicy) (m n : ℕ) → m ≤ n → failure_delay p m ≤ failure_delay p n
unfolding failure_delay
failure_delay_mono p m n h =
    let a = min (m - 1) 16 in
    let b = min (n - 1) 16 in
    let powers : 2 ^ a ≤ 2 ^ b =
      pow-le-pow_right {n = 2} (omega arith) {i = a} {j = b} (omega arith) in
    let ma : multiplier a ≡ 2 ^ a = multiplier-pow a (omega arith) in
    let mb : multiplier b ≡ 2 ^ b = multiplier-pow b (omega arith) in
    let grown : p.base_delay * multiplier a ≤ p.base_delay * multiplier b =
      rw (ma, mb) (mul-le-mul_left p.base_delay powers) in
    omega arith

-- The intended schedule: start from the base delay and double up to the maximum.
pub doubling : AuthPolicy → ℕ → Duration
doubling p zero = p.base_delay
doubling p (suc k) = min (2 * doubling p k) p.max_delay

doubling-pow :
    (p : AuthPolicy) (k : ℕ) → IsPolicy p → doubling p k ≡ min (p.base_delay * 2 ^ k) p.max_delay
unfolding doubling
doubling-pow p zero v = omega (arith, v)
doubling-pow p (suc k) v = rw (doubling-pow p k v, pow-suc 2 k) (omega arith)

-- The delay after k + 1 failures in a row is the doubled schedule, for up to seventeen failures,
-- and stays at the seventeenth value from then on.
failure_delay_schedule :
    (p : AuthPolicy) (k : ℕ) → IsPolicy p → failure_delay p (suc k) ≡ doubling p (min k 16)
unfolding failure_delay
failure_delay_schedule p k v =
    let e = min k 16 in
    let arg : min (suc k - 1) 16 ≡ e = omega arith in
    let m : multiplier e ≡ 2 ^ e = multiplier-pow e (omega arith) in
    rw (arg, m, doubling-pow p e v) (omega (arith, v))
