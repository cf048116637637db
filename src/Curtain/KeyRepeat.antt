-- ===== src/Curtain/KeyRepeat.antt =====
-- The repetition of a held key: `KeyRepeatState` of crates/curtain/src/state/repeat.rs. A sum that
-- leaves the range of `Instant` is a panic there, and `none` here.
use veila.Prelude.{
  ℕ, ◌+◌, ◌*◌, ◌≤◌, ◌≡◌, refl, ap, ◌⊎◌, inl, inr, Bool, true, false, ◌&&◌, Option, none, some, List,
  [], ◌∷◌, arith, ltb, leb, if◌then◌else◌, leb→le, Bool-cases, and_parts, le→leb, nat_eq,
}
use native.Mathlib.Nat.{add-mul, one-mul, zero-mul}
use mathlib.Core.Option
use veila.Clock.{Instant, Duration, checked_add, saturating_duration_since, instant_max}

pub record KeyRepeatState : Type 0 where
  pub next_at : Instant
  pub interval : Duration

unfoldable pub new : Instant → Duration → Duration → Option KeyRepeatState
new now initial_delay interval =
    Option.map (λ t. record { next_at = t; interval = interval }) (checked_add now initial_delay)

unfoldable pub due_in : Instant → KeyRepeatState → Duration
due_in now s = saturating_duration_since s.next_at now

unfoldable pub consume_if_due : Instant → KeyRepeatState → Option (KeyRepeatState × Bool)
consume_if_due now s =
    if ltb now s.next_at
    then some (s, false)
    else Option.map (λ t. (record s { next_at = t }, true)) (checked_add now s.interval)

-- The event loop asks at these times, one after the other: how often the key is repeated.
count_one : Bool → Option (KeyRepeatState × ℕ) → Option (KeyRepeatState × ℕ)
count_one true (some (s, n)) = some (s, n + 1)
count_one false (some (s, n)) = some (s, n)
count_one _ none = none

-- The answer to one question, and the rest of the run.
after_one :
    Option (KeyRepeatState × Bool)
    → (KeyRepeatState → Option (KeyRepeatState × ℕ))
    → Option (KeyRepeatState × ℕ)
unfolding count_one
after_one none rest = none
after_one (some (s, fired)) rest = count_one fired (rest s)

unfoldable pub poll : List Instant → KeyRepeatState → Option (KeyRepeatState × ℕ)
unfolding after_one
poll [] s = some (s, 0)
poll (t ∷ ts) s = after_one (consume_if_due t s) (poll ts)

abbrev pub all_le : Instant → List Instant → Bool
all_le end [] = true
all_le end (t ∷ ts) = leb t end && all_le end ts

-- The first repetition does not come before `next_at`, and each further one takes an interval.
abbrev pub Spaced : KeyRepeatState → Instant → ℕ → Type 0
Spaced s end n = (n ≡ 0) ⊎ (s.next_at + n * s.interval ≤ end + s.interval)

fired_step :
    (next_at interval t end n : ℕ)
    → next_at ≤ t
    → t ≤ end
    → (n ≡ 0) ⊎ (t + interval + n * interval ≤ end + interval)
    → next_at + (n + 1) * interval ≤ end + interval
fired_step next_at interval t end n h k (inl z) = omega (
  arith,
  h,
  k,
  add-mul n 1 interval,
  one-mul interval,
  ap (λ m. m * interval) z,
  zero-mul interval,
)
fired_step next_at interval t end n h k (inr l) =
    omega (arith, h, k, l, add-mul n 1 interval, one-mul interval)

rearmed : Instant → KeyRepeatState → KeyRepeatState
rearmed t s = record s { next_at = t + s.interval }

consume_cases :
    (t end : Instant) (s : KeyRepeatState)
    → t ≤ end
    → end + s.interval ≤ instant_max
    → (consume_if_due t s ≡ some (s, false))
      ⊎ ((s.next_at ≤ t) × (consume_if_due t s ≡ some (rearmed t s, true)))
unfolding consume_if_due rearmed
consume_cases t end s h b = elim (Bool-cases (ltb t s.next_at)) [
  | inl e ↦ inl (rw e)
  | inr e ↦ inr (ground arith, rw (e, le→leb (t + s.interval) instant_max (omega arith)))
]

-- Polled at any times up to `end`, if the clock can represent an interval after it, the timer never
-- panics, the first repetition does not come before the initial delay is over, and each further one
-- has waited for an interval: n repetitions take next_at + (n - 1) * interval ≤ end.
pub poll-Spaced :
    (ts : List Instant) (end : Instant) (s : KeyRepeatState)
    → all_le end ts ≡ true
    → end + s.interval ≤ instant_max
    → (q : KeyRepeatState) × (n : ℕ) × (poll ts s ≡ some (q, n)) × Spaced s end n
unfolding poll after_one count_one rearmed
poll-Spaced [] end s h b = (s, 0, refl, inl refl)
poll-Spaced (t ∷ ts) end s h b =
    let (k, ks) = and_parts (leb t end) (all_le end ts) h in
    elim (consume_cases t end s (leb→le t end k) b) [
      | inl e ↦ let (q, n, f, w) = poll-Spaced ts end s ks b in (q, n, rw (e, f), w)
      | inr (d, e) ↦
          let (q, n, f, w) = poll-Spaced ts end (rearmed t s) ks b in
          (q, n + 1, rw (e, f), inr (fired_step s.next_at s.interval t end n d (leb→le t end k) w))
    ]
