-- ===== src/Background/Selection.antt =====
-- What synchronising, shuffling and reordering keep of the paths.
use veila.Prelude.{
  ℕ, ◌≤◌, ◌<◌, ◌≡◌, refl, ◌≢◌, ◌↔◌, inl, inr, true, ◌&&◌, Option, none, some, List, [], ◌∷◌, arith,
  ltb, ◌==◌, Bool-cases, and_parts, length, get_elem?, nat_eq,
}
use veila.Shuffle.{swap}
use veila.Shuffle.Permutes.{count, count-swap, length-swap}
use veila.Background.{
  FilePath, SelectionState, eq_paths, contains, sync_paths, position_ne, swap_first, avoid_repeat,
}

pub eq_paths_sound : (ps qs : List FilePath) → eq_paths ps qs ≡ true → ps ≡ qs
eq_paths_sound [] [] h = refl
eq_paths_sound [] (q ∷ qs) h = cc h
eq_paths_sound (p ∷ ps) [] h = cc h
eq_paths_sound (p ∷ ps) (q ∷ qs) h =
    let (same, rest) = and_parts (p == q) (eq_paths ps qs) h in
    let ih = eq_paths_sound ps qs rest in let e = (nat_eq.eq_iff p q).0 same in cc (e, ih)

pub sync_paths-paths :
    (s : SelectionState) (paths : List FilePath) → (sync_paths s paths).paths ≡ paths
unfolding sync_paths
sync_paths-paths s paths = elim (Bool-cases (eq_paths s.paths paths)) [
  | inl e ↦ rw e (eq_paths_sound s.paths paths e)
  | inr e ↦ rw e
]

pub contains-count : (p : FilePath) (xs : List FilePath) → contains p xs ≡ true ↔ (1 ≤ count p xs)
contains-count p [] = (λ h. cc h, λ h. ground arith)
contains-count p (x ∷ xs) = let ih = contains-count p xs in (λ h. ground arith, λ h. ground arith)

count-swap_first :
    (p : FilePath) (o : Option ℕ) (xs : List FilePath) → count p (swap_first o xs) ≡ count p xs
unfolding swap_first
count-swap_first p none xs = refl
count-swap_first p (some i) xs = count-swap p xs 0 i

pub count-avoid_repeat :
    (p : FilePath) (o : Option FilePath) (xs : List FilePath)
    → count p (avoid_repeat o xs) ≡ count p xs
unfolding avoid_repeat
count-avoid_repeat p none xs = refl
count-avoid_repeat p (some last) [] = refl
count-avoid_repeat p (some last) (x ∷ xs) =
    elim (Bool-cases (ltb 1 (length (x ∷ xs)) && x == last)) [
      | inl e ↦ rw e (count-swap_first p (position_ne last (x ∷ xs)) (x ∷ xs))
      | inr e ↦ rw e
    ]

length-swap_first : (o : Option ℕ) (xs : List FilePath) → length (swap_first o xs) ≡ length xs
unfolding swap_first
length-swap_first none xs = refl
length-swap_first (some i) xs = length-swap xs 0 i

pub length-avoid_repeat :
    (o : Option FilePath) (xs : List FilePath) → length (avoid_repeat o xs) ≡ length xs
unfolding avoid_repeat
length-avoid_repeat none xs = refl
length-avoid_repeat (some last) [] = refl
length-avoid_repeat (some last) (x ∷ xs) =
    elim (Bool-cases (ltb 1 (length (x ∷ xs)) && x == last)) [
      | inl e ↦ rw e (length-swap_first (position_ne last (x ∷ xs)) (x ∷ xs))
      | inr e ↦ rw e
    ]

pub avoid_repeat-head :
    (last : FilePath) (xs : List FilePath)
    → 1 < length xs
    → count last xs ≤ 1
    → get_elem? (avoid_repeat (some last) xs) 0 ≢ some last
unfolding avoid_repeat swap_first position_ne swap
avoid_repeat-head last [] h k = ground arith
avoid_repeat-head last (x ∷ []) h k = ground arith
avoid_repeat-head last (x ∷ y ∷ xs) h k = ground arith
