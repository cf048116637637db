-- ===== src/Background/Cycles.antt =====
-- Which wallpapers a row of locks shows.
use veila.Prelude.{
  ℕ, ◌+◌, ◌≤◌, ◌≡◌, refl, ap, subst, ◌∙◌, inl, inr, true, Option, none, some, List, [], ◌∷◌, arith,
  Bool-cases, List-cases, length, nat_eq,
}
use veila.Shuffle.{shuffle}
use veila.Shuffle.Permutes.{count, indicator, count-shuffle, length-shuffle}
use veila.Background.{
  FilePath, SlideshowOrder, random, SelectionState, eq_paths, sync_paths, refill, take_first,
  choose, next_path, shuffle_seed,
}
use veila.Background.Selection.{sync_paths-paths, count-avoid_repeat, length-avoid_repeat}

-- The wallpapers of a row of locks with the same paths, one seed for each.
unfoldable pub shown :
    SlideshowOrder → List FilePath → List ℕ → SelectionState → List (Option FilePath)
shown order paths [] s = []
shown order paths (seed ∷ seeds) s =
    let (s', path) = next_path s paths order seed in path ∷ shown order paths seeds s'

abbrev pub count_shown : FilePath → List (Option FilePath) → ℕ
count_shown p [] = 0
count_shown p (none ∷ os) = count_shown p os
count_shown p (some q ∷ os) = indicator p q + count_shown p os

eq_paths_refl : (ps : List FilePath) → eq_paths ps ps ≡ true
eq_paths_refl [] = refl
eq_paths_refl (p ∷ ps) = let ih = eq_paths_refl ps in ground arith

pub sync_paths-same :
    (s : SelectionState) (paths : List FilePath) → s.paths ≡ paths → sync_paths s paths ≡ s
unfolding sync_paths
sync_paths-same s paths e = rw (e, eq_paths_refl paths)

-- What a choice does when the list to take from is known.
unfoldable pub taken : SelectionState → FilePath → List FilePath → SelectionState × Option FilePath
taken s x xs = (record s { remaining = xs; last = some x }, some x)

pub next_path-taken :
    (s : SelectionState) (paths : List FilePath) (seed : ℕ) (x : FilePath) (xs : List FilePath)
    → 1 ≤ length paths
    → refill (sync_paths s paths) seed ≡ x ∷ xs
    → next_path s paths random seed ≡ taken (sync_paths s paths) x xs
unfolding next_path choose take_first taken
next_path-taken s [] seed x xs h e = ground arith
next_path-taken s (q ∷ qs) seed x xs h e = rw e

pub refill-remaining :
    (s : SelectionState) (seed : ℕ) (x : FilePath) (xs : List FilePath)
    → s.remaining ≡ x ∷ xs
    → refill s seed ≡ x ∷ xs
unfolding refill
refill-remaining s seed x xs e = rw e

next_path-remaining :
    (s : SelectionState) (paths : List FilePath) (seed : ℕ) (x : FilePath) (xs : List FilePath)
    → 1 ≤ length paths
    → s.paths ≡ paths
    → s.remaining ≡ x ∷ xs
    → next_path s paths random seed ≡ taken s x xs
next_path-remaining s paths seed x xs h e r =
    let same = sync_paths-same s paths e in
    subst (λ q. next_path s paths random seed ≡ taken q x xs) same
      (next_path-taken s paths seed x xs h (rw same (refill-remaining s seed x xs r)))

count-no_length : (p : FilePath) (xs : List FilePath) → 0 ≡ length xs → 0 ≡ count p xs
count-no_length p [] h = refl
count-no_length p (x ∷ xs) h = omega (arith, h)

-- The rest of a round shows what remains.
shown-remaining :
    (p : FilePath) (paths : List FilePath) (seeds : List ℕ) (s : SelectionState)
    → 1 ≤ length paths
    → s.paths ≡ paths
    → length seeds ≡ length s.remaining
    → count_shown p (shown random paths seeds s) ≡ count p s.remaining
unfolding shown taken
shown-remaining p paths [] s h e l = count-no_length p s.remaining l
shown-remaining p paths (seed ∷ seeds) s h e l = elim (List-cases s.remaining) [
  | inl r ↦ omega (arith, l, ap length r)
  | inr (x, xs, r) ↦
      rw (next_path-remaining s paths seed x xs h e r, r)
        (ap (λ n. indicator p x + n)
          (shown-remaining p paths seeds (taken s x xs).0 h e (omega (arith, l, ap length r))))
]

sync_paths-remaining :
    (s : SelectionState) (paths : List FilePath)
    → s.remaining ≡ []
    → (sync_paths s paths).remaining ≡ []
unfolding sync_paths
sync_paths-remaining s paths r = elim (Bool-cases (eq_paths s.paths paths)) [
  | inl e ↦ rw e r
  | inr e ↦ rw e
]

pub refill-permutes :
    (p : FilePath) (s : SelectionState) (paths : List FilePath) (seed : ℕ)
    → s.remaining ≡ []
    → let xs = refill (sync_paths s paths) seed in
      (count p xs ≡ count p paths) × (length xs ≡ length paths)
unfolding refill
refill-permutes p s paths seed r =
    let k = shuffle_seed seed in
    let last = (sync_paths s paths).last in
    rw (sync_paths-remaining s paths r, sync_paths-paths s paths)
      (
        count-avoid_repeat p last (shuffle k paths) ∙ count-shuffle p k paths,
        length-avoid_repeat last (shuffle k paths) ∙ length-shuffle k paths,
      )

-- From the beginning of a round on, as many locks in random order as there are wallpapers show each
-- wallpaper exactly as often as the list holds it, whatever the seeds.
pub count-shown :
    (p : FilePath) (paths : List FilePath) (seeds : List ℕ) (s : SelectionState)
    → s.remaining ≡ []
    → length seeds ≡ length paths
    → count_shown p (shown random paths seeds s) ≡ count p paths
unfolding shown taken
count-shown p [] [] s r l = refl
count-shown p [] (seed ∷ seeds) s r l = omega (arith, l)
count-shown p (q ∷ qs) [] s r l = omega (arith, l)
count-shown p (q ∷ qs) (seed ∷ seeds) s r l =
    let paths = q ∷ qs in
    let s1 = sync_paths s paths in
    let (c, n) = refill-permutes p s paths seed r in
    elim (List-cases (refill s1 seed)) [
      | inl e ↦ omega (arith, n, ap length e)
      | inr (x, xs, e) ↦ rw (next_path-taken s paths seed x xs (omega arith) e) (
          omega (
            arith,
            c,
            ap (count p) e,
            shown-remaining p paths seeds (taken s1 x xs).0 (omega arith) (sync_paths-paths s paths)
                (omega (arith, l, n, ap length e)),
          ))
    ]
