-- ===== src/Shuffle.antt =====
-- The shuffle that the daemon and the curtain share, word for word, but for the constant in the
-- seed: `shuffle_paths` and `next_u64` of crates/daemon/src/app/state.rs, and `shuffle` and
-- `next_u64` of crates/curtain/src/background/slideshow.rs. A `u64` shift to the left drops the
-- bits above 2^64.
use veila.Prelude.{
  ℕ, zero, suc, ◌+◌, ◌-◌, ◌*◌, ◌/◌, ◌%◌, ◌^◌, ◌≤◌, ◌<◌, min, max, ◌≡◌, refl, sym, ap, subst, ◌∙◌,
  ◌≢◌, ◌↔◌, ◌⊎◌, inl, inr, Bool, true, false, not, ◌&&◌, ◌||◌, Option, none, some, List, [], ◌∷◌,
  ◌++◌, map, arith, ltb, leb, ◌==◌, if◌then◌else◌, ltb→lt, lt→ltb, leb→le, Bool-cases, Option-cases,
  is_some, or_else, length, get_elem?, length-append, set, is_empty, length-set, nat_eq, PartialEq,
  eq_option, eq_option_iff,
}
pub mod Permutes
use Prim.Native.Nat.{bit_xor}

-- `*state ^= *state << 13; *state ^= *state >> 7; *state ^= *state << 17`
unfoldable pub next_u64 : ℕ → ℕ
next_u64 state =
    let a = bit_xor state (state * 2 ^ 13 % 2 ^ 64) in
    let b = bit_xor a (a / 2 ^ 7) in bit_xor b (b * 2 ^ 17 % 2 ^ 64)

abbrev swap_found {ℓ} : {A : Type ℓ} → Option A → Option A → List A → ℕ → ℕ → List A
swap_found (some a) (some b) xs i j = set (set xs i b) j a
swap_found _ _ xs i j = xs

-- `slice::swap`; the callers' indices are in range.
unfoldable pub swap {ℓ} : {A : Type ℓ} → List A → ℕ → ℕ → List A
swap xs i j = swap_found (get_elem? xs i) (get_elem? xs j) xs i j

-- `for index in (1..len).rev()`: from index `n` down to 1.
unfoldable pub shuffle_from {ℓ} : {A : Type ℓ} → ℕ → ℕ → List A → List A
shuffle_from zero state xs = xs
shuffle_from (suc n) state xs =
    let next = next_u64 state in shuffle_from n next (swap xs (suc n) (next % (suc n + 1)))

unfoldable pub shuffle {ℓ} : {A : Type ℓ} → ℕ → List A → List A
unfolding shuffle_from
shuffle seed xs = shuffle_from (length xs - 1) seed xs
