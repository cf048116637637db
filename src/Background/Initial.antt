-- ===== src/Background/Initial.antt =====
-- The wallpaper that a lock starts with is one of the configured ones.
use veila.Prelude.{
  ℕ, zero, suc, ◌%◌, ◌≤◌, ◌≡◌, refl, ap, subst, inl, inr, true, Option, some, List, [], ◌∷◌, arith,
  List-cases, length, get_elem?, nat_eq,
}
use veila.Shuffle.Permutes.{count}
use veila.Background.{
  FilePath, SlideshowOrder, sequence, random, SlideshowMode, timed, lock_only, SelectionState,
  contains, sync_paths, refill, next_path, BackgroundConfig, select_initial_background_path,
  select_by, select_slideshow, get_or_default,
}
use veila.Background.Selection.{sync_paths-paths, contains-count}
use veila.Background.Rounds.{IsRound, sync_paths-IsRound, indicator_self}
use veila.Background.Cycles.{
  taken, next_path-taken, refill-permutes, refill-remaining, sync_paths-same,
}
use veila.Background.InOrder.{next_path-in_order}

abbrev pub Chosen : List FilePath → Option FilePath → Type 0
Chosen paths o = (p : FilePath) × (o ≡ some p) × (contains p paths ≡ true)

get_elem?-contains :
    (x : FilePath) (xs : List FilePath) (i : ℕ) → get_elem? xs i ≡ some x → contains x xs ≡ true
get_elem?-contains x [] i h = cc h
get_elem?-contains x (y ∷ ys) zero h = ground arith
get_elem?-contains x (y ∷ ys) (suc i) h = let ih = get_elem?-contains x ys i h in ground arith

-- A refilled list has the paths as its elements.
new_round :
    (s : SelectionState) (paths : List FilePath) (seed : ℕ)
    → s.paths ≡ paths
    → s.remaining ≡ []
    → (p : FilePath)
    → (count p (refill s seed) ≡ count p paths) × (length (refill s seed) ≡ length paths)
new_round s paths seed e r p =
    subst (λ q. (count p (refill q seed) ≡ count p paths) × (length (refill q seed) ≡ length paths))
      (sync_paths-same s paths e) (refill-permutes p s paths seed r)

-- The list of a random choice, where a round may be under way.
refill-cases :
    (s : SelectionState) (paths : List FilePath) (seed : ℕ)
    → IsRound s
    → 1 ≤ length paths
    → (x : FilePath) × (xs : List FilePath) × (refill (sync_paths s paths) seed ≡ x ∷ xs)
      × (contains x paths ≡ true)
refill-cases s paths seed w h =
    let s1 = sync_paths s paths in
    let w1 = sync_paths-IsRound s paths w in
    elim (List-cases s1.remaining) [
      | inl r ↦ elim (List-cases (refill s1 seed)) [
        | inl e ↦
            let (_, n) = new_round s1 paths seed (sync_paths-paths s paths) r 0 in
            ground (arith, h, n, ap length e)
        | inr (x, xs, e) ↦
            let (c, _) = new_round s1 paths seed (sync_paths-paths s paths) r x in
            (
              x,
              xs,
              e,
              (contains-count x paths).1 (omega (arith, c, ap (count x) e, indicator_self x)),
            )
      ]
      | inr (x, xs, r) ↦ (
        x,
        xs,
        refill-remaining s1 seed x xs r,
        (contains-count x paths).1 (
            omega (
              arith,
              w1.inside x,
              ap (count x) r,
              indicator_self x,
              ap (count x) (sync_paths-paths s paths),
            )),
      )
    ]

next_path-Chosen :
    (order : SlideshowOrder) (s : SelectionState) (paths : List FilePath) (seed : ℕ)
    → IsRound s
    → 1 ≤ length paths
    → Chosen paths (next_path s paths order seed).1
unfolding taken
next_path-Chosen sequence s paths seed w h =
    let (x, f, g) = next_path-in_order s paths seed (sync_paths s paths).sequence_index h refl in
    (
      x,
      ap (λ r. r.1) g,
      get_elem?-contains x paths ((sync_paths s paths).sequence_index % length paths) f,
    )
next_path-Chosen random s paths seed w h =
    let (x, xs, e, m) = refill-cases s paths seed w h in
    (x, ap (λ r. r.1) (next_path-taken s paths seed x xs h e), m)

select_by-Chosen :
    (mode : SlideshowMode) (order : SlideshowOrder) (paths : List FilePath)
    (selection : Option SelectionState) (seed : ℕ)
    → IsRound (get_or_default selection)
    → 1 ≤ length paths
    → Chosen paths (select_by mode order paths selection seed).1
unfolding select_by
select_by-Chosen timed sequence [] selection seed w h = ground arith
select_by-Chosen timed sequence (x ∷ xs) selection seed w h =
    (x, refl, get_elem?-contains x (x ∷ xs) 0 refl)
select_by-Chosen timed random paths selection seed w h =
    next_path-Chosen random (get_or_default selection) paths seed w h
select_by-Chosen lock_only order paths selection seed w h =
    next_path-Chosen order (get_or_default selection) paths seed w h

-- If the configuration enables a slideshow and its paths are resolved and not empty, the lock starts
-- with one of these paths, in every mode and order, whatever the seed: also when the list has changed
-- since the last lock, if what was left of the round came from the paths of that time.
select_initial_background_path-Chosen :
    (b : BackgroundConfig) (mode : SlideshowMode) (order : SlideshowOrder) (paths : List FilePath)
    (selection : Option SelectionState) (seed : ℕ)
    → b.slideshow_enabled ≡ true
    → b.slideshow ≡ some (mode, order)
    → b.resolved_slideshow_paths ≡ some paths
    → 1 ≤ length paths
    → IsRound (get_or_default selection)
    → Chosen paths (select_initial_background_path b selection seed).1
unfolding select_initial_background_path select_slideshow
select_initial_background_path-Chosen b mode order [] selection seed e f g h w = ground arith
select_initial_background_path-Chosen b mode order (x ∷ xs) selection seed e f g h w =
    rw (e, f, g) (select_by-Chosen mode order (x ∷ xs) selection seed w h)
