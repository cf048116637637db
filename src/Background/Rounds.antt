-- ===== src/Background/Rounds.antt =====
-- Which wallpaper the next lock gets, in random order.
use veila.Prelude.{
  ℕ, ◌≤◌, ◌<◌, ◌≡◌, refl, sym, subst, ◌≢◌, inl, inr, true, false, Option, some, List, [], ◌∷◌,
  arith, Bool-cases, some_inj, length, get_elem?, is_empty, nat_eq,
}
use veila.Shuffle.{shuffle}
use veila.Shuffle.Permutes.{count, indicator, count-shuffle, length-shuffle}
use veila.Background.{
  FilePath, random, SelectionState, default, eq_paths, contains, keep_last, sync_paths, refill,
  take_first, choose, next_path, shuffle_seed,
}
use veila.Background.Selection.{
  sync_paths-paths, contains-count, count-avoid_repeat, length-avoid_repeat, avoid_repeat-head,
}

abbrev pub Distinct : List FilePath → Type 0
Distinct paths = (p : FilePath) → count p paths ≤ 1

-- What is left of the round comes from the paths and does not hold the path shown last.
pub record IsRound (s : SelectionState) : Type 0 where
  pub inside : (p : FilePath) → count p s.remaining ≤ count p s.paths
  pub apart : (p : FilePath) → s.last ≡ some p → count p s.remaining ≡ 0

pub default-IsRound : IsRound default
unfolding default
default-IsRound = record { inside = λ p. omega arith; apart = λ p e. refl }

pub sync_paths-IsRound :
    (s : SelectionState) (paths : List FilePath) → IsRound s → IsRound (sync_paths s paths)
unfolding sync_paths
sync_paths-IsRound s paths w = elim (Bool-cases (eq_paths s.paths paths)) [
  | inl e ↦ rw e w
  | inr e ↦ rw e (record { inside = λ p. omega arith; apart = λ p h. refl })
]

-- The last path is only forgotten if it is not among the new paths.
sync_paths-last :
    (s : SelectionState) (paths : List FilePath) (p : FilePath)
    → s.last ≡ some p
    → contains p paths ≡ true
    → (sync_paths s paths).last ≡ some p
unfolding sync_paths keep_last
sync_paths-last s paths p e h = ground arith

not_empty : (xs : List FilePath) → is_empty xs ≡ false → 1 ≤ length xs
not_empty [] h = cc h
not_empty (x ∷ xs) h = omega arith

get_elem?-count : (p : FilePath) (xs : List FilePath) → get_elem? xs 0 ≡ some p → 1 ≤ count p xs
get_elem?-count p [] h = cc h
get_elem?-count p (x ∷ xs) h = ground arith

-- The list that a choice takes its first element from.
record IsRefilled (s : SelectionState) (xs : List FilePath) : Type 0 where
  nonempty : 1 ≤ length xs
  within : (p : FilePath) → count p xs ≤ count p s.paths
  fresh : (p : FilePath) → s.last ≡ some p → get_elem? xs 0 ≢ some p

refill-IsRefilled :
    (s : SelectionState) (seed : ℕ)
    → IsRound s
    → Distinct s.paths
    → 1 < length s.paths
    → IsRefilled s (refill s seed)
unfolding refill
refill-IsRefilled s seed w d h =
    let k = shuffle_seed seed in
    let ys = shuffle k s.paths in
    elim (Bool-cases (is_empty s.remaining)) [
      | inl e ↦ rw e (record {
        nonempty = omega (arith, length-avoid_repeat s.last ys, length-shuffle k s.paths, h);
        within = λ p. omega (arith, count-avoid_repeat p s.last ys, count-shuffle p k s.paths);
        fresh = λ p g. rw g (
            avoid_repeat-head p ys (omega (arith, length-shuffle k s.paths, h))
              (omega (arith, count-shuffle p k s.paths, d p)));
      })
      | inr e ↦ rw e (record {
        nonempty = not_empty s.remaining e;
        within = w.inside;
        fresh = λ p g q. omega (arith, get_elem?-count p s.remaining q, w.apart p g);
      })
    ]

-- A choice of `take_first` and what it leaves.
record IsTurn (s : SelectionState) (r : SelectionState × Option FilePath) : Type 0 where
  chosen : FilePath
  result : r.1 ≡ some chosen
  member : contains chosen s.paths ≡ true
  differs : s.last ≢ some chosen
  round : IsRound r.0

pub indicator_self : (p : FilePath) → indicator p p ≡ 1
indicator_self p = ground arith

rest_apart :
    (x p : FilePath) (xs : List FilePath) → some x ≡ some p → count x (x ∷ xs) ≤ 1 → count p xs ≡ 0
rest_apart x p xs e h =
    subst (λ q. count q xs ≡ 0) (some_inj x p e) (omega (arith, h, indicator_self x))

take_first-IsTurn :
    (s : SelectionState) (xs : List FilePath)
    → IsRefilled s xs
    → Distinct s.paths
    → IsTurn s (take_first s xs)
unfolding take_first
take_first-IsTurn s [] w d = ground (arith, w.nonempty)
take_first-IsTurn s (x ∷ xs) w d = record {
  chosen = x;
  result = refl;
  member = (contains-count x s.paths).1 (omega (arith, w.within x, indicator_self x));
  differs = λ e. w.fresh x e refl;
  round = record {
    inside = λ p. omega (arith, w.within p);
    apart = λ p e. rest_apart x p xs e (omega (arith, w.within x, d x));
  };
}

-- With at least two wallpapers, none of them twice in the list, a lock in random order shows one of
-- them and not the one shown last, whatever the seed and although the list may have changed since;
-- and the selection keeps the invariant that this rests on.
pub next_path-random :
    (s : SelectionState) (paths : List FilePath) (seed : ℕ)
    → IsRound s
    → Distinct paths
    → 1 < length paths
    → let (s', path) = next_path s paths random seed in
      (p : FilePath) × (path ≡ some p) × (contains p paths ≡ true) × (s.last ≢ some p) × IsRound s'
unfolding next_path choose
next_path-random s [] seed w d h = ground arith
next_path-random s (x ∷ xs) seed w d h =
    let s1 = sync_paths s (x ∷ xs) in
    let e = sync_paths-paths s (x ∷ xs) in
    let d1 = subst Distinct (sym e) d in
    let turn =
      take_first-IsTurn s1 (refill s1 seed)
        (refill-IsRefilled s1 seed (sync_paths-IsRound s (x ∷ xs) w) d1 (rw e h)) d1 in
    let m = subst (λ ps. contains turn.chosen ps ≡ true) e turn.member in
    (
      turn.chosen,
      turn.result,
      m,
      (λ g. turn.differs (sync_paths-last s (x ∷ xs) turn.chosen g m)),
      turn.round,
    )
