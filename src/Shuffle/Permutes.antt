-- ===== src/Shuffle/Permutes.antt =====
-- A shuffle only changes the order: every element keeps its number of occurrences.
use veila.Prelude.{
  ℕ, zero, suc, ◌+◌, ◌-◌, ◌%◌, ◌≤◌, ◌≡◌, refl, ap, ◌∙◌, inl, inr, some, List, [], ◌∷◌, arith, ◌==◌,
  if◌then◌else◌, Option-cases, length, get_elem?, set, length-set, nat_eq,
}
use veila.Shuffle.{swap, shuffle_from, shuffle, next_u64}

abbrev pub indicator : ℕ → ℕ → ℕ
indicator p q = if p == q then 1 else 0

-- The occurrences of `p`.
abbrev pub count : ℕ → List ℕ → ℕ
count p [] = 0
count p (q ∷ qs) = indicator p q + count p qs

count-set :
    (p : ℕ) (xs : List ℕ) (i a b : ℕ)
    → get_elem? xs i ≡ some a
    → count p (set xs i b) + indicator p a ≡ count p xs + indicator p b
count-set p [] i a b h = cc h
count-set p (x ∷ xs) zero a b h = ground arith
count-set p (x ∷ xs) (suc i) a b h = omega (arith, count-set p xs i a b h)

get_elem?-set :
    (xs : List ℕ) (i j a b : ℕ)
    → get_elem? xs i ≡ some a
    → get_elem? xs j ≡ some b
    → get_elem? (set xs i b) j ≡ some b
get_elem?-set [] i j a b h k = cc k
get_elem?-set (x ∷ xs) zero zero a b h k = refl
get_elem?-set (x ∷ xs) zero (suc j) a b h k = k
get_elem?-set (x ∷ xs) (suc i) zero a b h k = k
get_elem?-set (x ∷ xs) (suc i) (suc j) a b h k = get_elem?-set xs i j a b h k

pub count-swap : (p : ℕ) (xs : List ℕ) (i j : ℕ) → count p (swap xs i j) ≡ count p xs
unfolding swap
count-swap p xs i j = elim (Option-cases (get_elem? xs i)) [
  | inl e ↦ rw e
  | inr (a, e) ↦ elim (Option-cases (get_elem? xs j)) [
    | inl f ↦ rw (e, f)
    | inr (b, f) ↦
        rw (e, f)
          (omega (
            arith,
            count-set p xs i a b e,
            count-set p (set xs i b) j b a (get_elem?-set xs i j a b e f),
          ))
  ]
]

-- Shuffling from any index on keeps the occurrences.
pub count-shuffle_from :
    (p n state : ℕ) (xs : List ℕ) → count p (shuffle_from n state xs) ≡ count p xs
unfolding shuffle_from
count-shuffle_from p zero state xs = refl
count-shuffle_from p (suc n) state xs =
    let next = next_u64 state in
    count-shuffle_from p n next (swap xs (suc n) (next % (suc n + 1)))
    ∙ count-swap p xs (suc n) (next % (suc n + 1))

-- A shuffled list is a permutation of the list: every path occurs in it as often as before, whatever
-- the seed.
pub count-shuffle : (p seed : ℕ) (xs : List ℕ) → count p (shuffle seed xs) ≡ count p xs
unfolding shuffle
count-shuffle p seed xs = count-shuffle_from p (length xs - 1) seed xs

pub length-swap : (xs : List ℕ) (i j : ℕ) → length (swap xs i j) ≡ length xs
unfolding swap
length-swap xs i j = elim (Option-cases (get_elem? xs i)) [
  | inl e ↦ rw e
  | inr (a, e) ↦ elim (Option-cases (get_elem? xs j)) [
    | inl f ↦ rw (e, f)
    | inr (b, f) ↦ rw (e, f) (length-set (set xs i b) j a ∙ length-set xs i b)
  ]
]

length-shuffle_from : (n state : ℕ) (xs : List ℕ) → length (shuffle_from n state xs) ≡ length xs
unfolding shuffle_from
length-shuffle_from zero state xs = refl
length-shuffle_from (suc n) state xs =
    let next = next_u64 state in
    length-shuffle_from n next (swap xs (suc n) (next % (suc n + 1)))
    ∙ length-swap xs (suc n) (next % (suc n + 1))

pub length-shuffle : (seed : ℕ) (xs : List ℕ) → length (shuffle seed xs) ≡ length xs
unfolding shuffle
length-shuffle seed xs = length-shuffle_from (length xs - 1) seed xs

pub get_elem?-count : (p : ℕ) (xs : List ℕ) (i : ℕ) → get_elem? xs i ≡ some p → 1 ≤ count p xs
get_elem?-count p [] i h = cc h
get_elem?-count p (x ∷ xs) zero h = ground arith
get_elem?-count p (x ∷ xs) (suc i) h = omega (arith, get_elem?-count p xs i h)

-- An element that occurs once has one index.
pub one_index :
    (p : ℕ) (xs : List ℕ) (i j : ℕ)
    → count p xs ≤ 1
    → get_elem? xs i ≡ some p
    → get_elem? xs j ≡ some p
    → i ≡ j
one_index p [] i j c h k = cc h
one_index p (x ∷ xs) zero zero c h k = refl
one_index p (x ∷ xs) zero (suc j) c h k = ground (arith, get_elem?-count p xs j k)
one_index p (x ∷ xs) (suc i) zero c h k = ground (arith, get_elem?-count p xs i h)
one_index p (x ∷ xs) (suc i) (suc j) c h k = ap suc (one_index p xs i j (omega arith) h k)
