-- ===== src/Int.antt =====
-- Signed integers over the native numbers and their 32-bit form (`i32`), which the geometry of the
-- renderer computes with. Sums and orders go through the two parts of an integer.
use veila.Prelude.{
  ℕ, suc, ◌+◌, ◌-◌, ◌%◌, ◌≤◌, ◌<◌, ◌≡◌, refl, ap, ◌∙◌, ◌⊎◌, inl, inr, Bool, ◌&&◌, arith, ltb, leb,
  if◌then◌else◌, if_true, if_false, nat_eq,
}
use native.Mathlib.Nat.{mod-eq_of_lt}

-- `negsuc n` is -(n + 1).
pub data ℤ : Type 0 where
  pos : ℕ → ℤ
  negsuc : ℕ → ℤ

abbrev pub pos_part : ℤ → ℕ
pos_part (pos n) = n
pos_part (negsuc n) = 0

abbrev pub neg_part : ℤ → ℕ
neg_part (pos n) = 0
neg_part (negsuc n) = suc n

abbrev pub sub_ℕ : ℕ → ℕ → ℤ
sub_ℕ a b = if leb b a then pos (a - b) else negsuc (b - a - 1)

infixl 65 ◌+ℤ◌ ◌-ℤ◌
infix 50 ◌≤ℤ◌ ◌<ℤ◌
unfoldable pub ◌+ℤ◌ : ℤ → ℤ → ℤ
a +ℤ b = sub_ℕ (pos_part a + pos_part b) (neg_part a + neg_part b)

unfoldable pub ◌-ℤ◌ : ℤ → ℤ → ℤ
a -ℤ b = sub_ℕ (pos_part a + neg_part b) (neg_part a + pos_part b)

abbrev pub ◌≤ℤ◌ : ℤ → ℤ → Type 0
a ≤ℤ b = pos_part a + neg_part b ≤ pos_part b + neg_part a

abbrev pub ◌<ℤ◌ : ℤ → ℤ → Type 0
a <ℤ b = pos_part a + neg_part b < pos_part b + neg_part a

abbrev pub ltb_ℤ : ℤ → ℤ → Bool
ltb_ℤ a b = ltb (pos_part a + neg_part b) (pos_part b + neg_part a)

abbrev pub leb_ℤ : ℤ → ℤ → Bool
leb_ℤ a b = leb (pos_part a + neg_part b) (pos_part b + neg_part a)

unfoldable pub min_ℤ : ℤ → ℤ → ℤ
min_ℤ a b = if leb_ℤ a b then a else b

unfoldable pub max_ℤ : ℤ → ℤ → ℤ
max_ℤ a b = if leb_ℤ a b then b else a

-- `i32::clamp`, for a lower bound that is not above the upper one.
unfoldable pub clamp : ℤ → ℤ → ℤ → ℤ
clamp a low high = if ltb_ℤ a low then low else if ltb_ℤ high a then high else a

abbrev pub i32_max : ℕ
i32_max = 2147483647

abbrev pub InI32 : ℤ → Type 0
InI32 a = (pos_part a ≤ i32_max) × (neg_part a ≤ i32_max + 1)

abbrev pub in_i32 : ℤ → Bool
in_i32 a = leb (pos_part a) i32_max && leb (neg_part a) (i32_max + 1)

-- `n as i32`, for an unsigned n.
unfoldable pub as_i32 : ℕ → ℤ
as_i32 n =
    let low : ℕ = n % 4294967296 in if leb low i32_max then pos low else negsuc (4294967295 - low)

-- What is left of a result in 32 bits.
unfoldable pub wrap_i32 : ℤ → ℤ
wrap_i32 (pos n) = as_i32 n
wrap_i32 (negsuc n) = as_i32 (4294967295 - n % 4294967296)

pub +ℤ_parts :
    (a b : ℤ)
    → pos_part (a +ℤ b) + neg_part a + neg_part b ≡ neg_part (a +ℤ b) + pos_part a + pos_part b
unfolding ◌+ℤ◌
+ℤ_parts a b = ground arith

pub -ℤ_parts :
    (a b : ℤ)
    → pos_part (a -ℤ b) + neg_part a + pos_part b ≡ neg_part (a -ℤ b) + pos_part a + neg_part b
unfolding ◌-ℤ◌
-ℤ_parts a b = ground arith

-- One part of an integer is zero.
pub one_part : (a : ℤ) → (pos_part a ≡ 0) ⊎ (neg_part a ≡ 0)
one_part (pos n) = inr refl
one_part (negsuc n) = inl refl

abbrev pub mod_word : (n : ℕ) → n < 4294967296 → n % 4294967296 ≡ n
mod_word n h = mod-eq_of_lt h

pub as_i32_small : (n : ℕ) → n ≤ i32_max → as_i32 n ≡ pos n
unfolding as_i32
as_i32_small n h = rw (mod_word n (omega arith)) (if_true (leb n i32_max) _ _ (ground arith))

pub wrap_i32-InI32 : (a : ℤ) → InI32 a → wrap_i32 a ≡ a
unfolding wrap_i32 as_i32
wrap_i32-InI32 (pos n) h = as_i32_small n (omega arith)
wrap_i32-InI32 (negsuc n) h =
    rw (mod_word n (omega arith), mod_word (4294967295 - n) (omega arith))
      (if_false (leb (4294967295 - n) i32_max) _ _ (ground arith) ∙ ap negsuc (omega arith))
