-- ===== src/Prelude/Equality.antt =====
-- Equality tests (`PartialEq`) as an interface, with the instances for numbers and options.
use Prim.Native.Nat.{ℕ, compare, Ordering}
use mathlib.Core.Path.{◌≡◌, refl, ap}
use mathlib.Core.Logic.{◌↔◌}
use mathlib.Core.Bool.{Bool, true, false}
use mathlib.Core.Option.{Option, none, some}
use native.Mathlib.Omega.{arith}

pub record PartialEq {ℓ} (A : Type ℓ) : Type ℓ where
  pub eq : A → A → Bool
  pub eq_iff : (a b : A) → (eq a b ≡ true) ↔ (a ≡ b)

module _ {ℓ} {A : Type ℓ} ⦃e : PartialEq A⦄ where
  abbrev pub eq_option : Option A → Option A → Bool
  eq_option none none = true
  eq_option (some a) (some b) = e.eq a b
  eq_option _ _ = false

  pub eq_option_iff : (a b : Option A) → (eq_option a b ≡ true) ↔ (a ≡ b)
  eq_option_iff none none = (λ _. refl, λ _. refl)
  eq_option_iff (some a) (some b) =
      (λ h. ap some ((e.eq_iff a b).0 h), λ h. (e.eq_iff a b).1 (cc h))
  eq_option_iff none (some b) = (λ h. cc h, λ h. cc h)
  eq_option_iff (some a) none = (λ h. cc h, λ h. cc h)

abbrev pub eq_ℕ : ℕ → ℕ → Bool
eq_ℕ a b = elim (compare a b) [ Ordering.eq ↦ true | _ ↦ false ]

pub eq_ℕ_iff : (a b : ℕ) → (eq_ℕ a b ≡ true) ↔ (a ≡ b)
eq_ℕ_iff a b = ground arith

instance abbrev pub nat_eq : PartialEq ℕ
nat_eq = record { eq = eq_ℕ; eq_iff = eq_ℕ_iff }
