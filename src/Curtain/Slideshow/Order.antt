-- ===== src/Curtain/Slideshow/Order.antt =====
-- The order of a slideshow is a permutation of the indices.
use veila.Prelude.{
  ℕ, zero, suc, ◌+◌, ◌-◌, ◌%◌, ◌≤◌, ◌<◌, ◌≡◌, refl, ap, ◌∙◌, inl, inr, Bool, ◌&&◌, List, [], ◌∷◌,
  arith, ltb, leb, ◌==◌, if◌then◌else◌, ltb→lt, Bool-cases, length, nat_eq,
}
use native.Mathlib.Nat.{mod-eq_of_lt, mod-eq-sub-mod}
use veila.Shuffle.Permutes.{count, indicator, count-shuffle, length-shuffle}
use veila.Background.{SlideshowOrder, sequence, random}
use veila.Curtain.Slideshow.{range_from, without, rotated, slideshow_sequence, shuffle_seed}

-- A number is at most once in a list.
abbrev pub once_if : Bool → ℕ
once_if b = if b then 1 else 0

count-range_from : (p s n : ℕ) → count p (range_from s n) ≡ once_if (leb s p && ltb p (s + n))
count-range_from p s zero = ground arith
count-range_from p s (suc n) = ground (arith, count-range_from p (s + 1) n)

count-without :
    (p i : ℕ) (xs : List ℕ) → count p (without i xs) ≡ (if p == i then 0 else count p xs)
count-without p i [] = ground arith
count-without p i (x ∷ xs) = ground (arith, count-without p i xs)

mod_small : (x n : ℕ) → x < n → x % n ≡ x
mod_small x n h = mod-eq_of_lt h

mod_once : (x n : ℕ) → n ≤ x → x < n + n → x % n ≡ x - n
mod_once x n h k = mod-eq-sub-mod h ∙ mod_small (x - n) n (omega arith)

-- The offset at which a rotation by `i` comes to `p`.
abbrev offset_of : ℕ → ℕ → ℕ → ℕ
offset_of n i p = if leb i p then p - i else p + n - i

rotated_value :
    (n i a p : ℕ)
    → i < n
    → a < n
    → indicator p ((i + a) % n) ≡ once_if (ltb p n && offset_of n i p == a)
rotated_value n i a p hi ha = elim (Bool-cases (ltb (i + a) n)) [
  | inl e ↦ rw (mod_small (i + a) n (ltb→lt (i + a) n e)) (ground arith)
  | inr e ↦ rw (mod_once (i + a) n (ground arith) (omega arith)) (ground arith)
]

count-rotated :
    (n i p a k : ℕ)
    → i < n
    → a + k ≤ n
    → count p (rotated n i (range_from a k))
      ≡ once_if (ltb p n && leb a (offset_of n i p) && ltb (offset_of n i p) (a + k))
count-rotated n i p a zero hi h = ground arith
count-rotated n i p a (suc k) hi h =
    ground (arith, rotated_value n i a p hi (omega arith), count-rotated n i p (a + 1) k)

-- Every index below the number of wallpapers stands exactly once in a new order, and no other
-- number does, in both orders and whatever the seed.
pub count-slideshow_sequence :
    (len initial_index p seed : ℕ) (order : SlideshowOrder)
    → initial_index < len
    → count p (slideshow_sequence len order initial_index seed) ≡ once_if (ltb p len)
unfolding slideshow_sequence
count-slideshow_sequence len i p seed sequence h = ground (arith, count-rotated len i p 1 (len - 1))
count-slideshow_sequence len i p seed random h = ground (
  arith,
  count-shuffle p (shuffle_seed seed) (without i (range_from 0 len)),
  count-without p i (range_from 0 len),
  count-range_from p 0 len,
)

length-rotated : (n i : ℕ) (xs : List ℕ) → length (rotated n i xs) ≡ length xs
length-rotated n i [] = refl
length-rotated n i (x ∷ xs) = ap suc (length-rotated n i xs)

length-range_from : (s n : ℕ) → length (range_from s n) ≡ n
length-range_from s zero = refl
length-range_from s (suc n) = ap suc (length-range_from (s + 1) n)

length-without : (i : ℕ) (xs : List ℕ) → length (without i xs) + count i xs ≡ length xs
length-without i [] = omega arith
length-without i (x ∷ xs) = ground (arith, length-without i xs)

pub length-slideshow_sequence :
    (len initial_index seed : ℕ) (order : SlideshowOrder)
    → initial_index < len
    → length (slideshow_sequence len order initial_index seed) ≡ len
unfolding slideshow_sequence
length-slideshow_sequence len i seed sequence h =
    omega (arith, length-rotated len i (range_from 1 (len - 1)), length-range_from 1 (len - 1))
length-slideshow_sequence len i seed random h = ground (
  arith,
  length-shuffle (shuffle_seed seed) (without i (range_from 0 len)),
  length-without i (range_from 0 len),
  length-range_from 0 len,
  count-range_from i 0 len,
)
