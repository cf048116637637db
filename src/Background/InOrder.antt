-- ===== src/Background/InOrder.antt =====
-- A slideshow in sequence, and the wallpaper that a lock starts with.
use veila.Prelude.{
  ℕ, zero, suc, ◌+◌, ◌%◌, ◌≤◌, ◌<◌, ◌≡◌, refl, sym, ap, ◌∙◌, some, List, [], ◌∷◌, arith, length,
  get_elem?, get_elem?-some, nat_eq,
}
use native.Mathlib.Nat.{mod-add-mod, mod-mod, mod-lt}
use veila.Background.{
  FilePath, sequence, SelectionState, default, sync_paths, take_sequence, choose, next_path,
}
use veila.Background.Selection.{sync_paths-paths}
use veila.Background.Cycles.{shown, sync_paths-same}

-- The state after a choice in sequence.
unfoldable pub advanced : SelectionState → FilePath → SelectionState
advanced s x = record s { sequence_index = (s.sequence_index + 1) % length s.paths; last = some x }

choose-in_order :
    (s : SelectionState) (seed : ℕ) (x : FilePath)
    → get_elem? s.paths (s.sequence_index % length s.paths) ≡ some x
    → choose sequence s seed ≡ (advanced s x, some x)
unfolding choose take_sequence advanced
choose-in_order s seed x e = rw e

next-index : (i k n : ℕ) → i % n ≡ k % n → (i + 1) % n % n ≡ (k + 1) % n
next-index i k n e =
    mod-mod (i + 1) n ∙ (sym (mod-add-mod i n 1) ∙ (ap (λ j. (j + 1) % n) e ∙ mod-add-mod k n 1))

advanced-index :
    (s : SelectionState) (paths : List FilePath) (x : FilePath) (k : ℕ)
    → s.paths ≡ paths
    → s.sequence_index % length paths ≡ k % length paths
    → (sync_paths (advanced s x) paths).sequence_index % length paths ≡ (k + 1) % length paths
unfolding advanced
advanced-index s paths x k e h =
    ap (λ q. q.sequence_index % length paths) (sync_paths-same (advanced s x) paths e)
    ∙ rw e (next-index s.sequence_index k (length paths) h)

pub next_path-in_order :
    (s : SelectionState) (paths : List FilePath) (seed k : ℕ)
    → 1 ≤ length paths
    → (sync_paths s paths).sequence_index % length paths ≡ k % length paths
    → (x : FilePath) × (get_elem? paths (k % length paths) ≡ some x)
      × (next_path s paths sequence seed ≡ (advanced (sync_paths s paths) x, some x))
unfolding next_path
next_path-in_order s [] seed k h e = ground arith
next_path-in_order s (q ∷ qs) seed k h e =
    let (x, f) = get_elem?-some (q ∷ qs) (k % length (q ∷ qs)) (mod-lt k (omega arith)) in
    let s1 = sync_paths s (q ∷ qs) in
    (x, f, choose-in_order s1 seed x (rw (sync_paths-paths s (q ∷ qs), e) f))

shown-in_order :
    (paths : List FilePath) (seeds : List ℕ) (i k : ℕ) (s : SelectionState)
    → 1 ≤ length paths
    → (sync_paths s paths).sequence_index % length paths ≡ k % length paths
    → i < length seeds
    → get_elem? (shown sequence paths seeds s) i ≡ some (get_elem? paths ((k + i) % length paths))
unfolding shown advanced
shown-in_order paths [] i k s h e l = ground arith
shown-in_order paths (seed ∷ seeds) zero k s h e l =
    let (x, f, g) = next_path-in_order s paths seed k h e in
    rw g (ap some (sym f ∙ ap (λ j. get_elem? paths (j % length paths)) (omega arith)))
shown-in_order paths (seed ∷ seeds) (suc i) k s h e l =
    let (x, f, g) = next_path-in_order s paths seed k h e in
    let s1 = sync_paths s paths in
    rw g (
      shown-in_order paths seeds i (k + 1) (advanced s1 x) h
        (advanced-index s1 paths x k (sync_paths-paths s paths) e) (omega arith)
      ∙ ap (λ j. some (get_elem? paths (j % length paths))) (omega arith))

-- Locks in sequence go through the list in its order and start again at its end: with at least one
-- wallpaper, the i-th lock from a fresh selection on shows the wallpaper at i modulo their number.
shown-sequence :
    (paths : List FilePath) (seeds : List ℕ) (i : ℕ)
    → 1 ≤ length paths
    → i < length seeds
    → get_elem? (shown sequence paths seeds default) i ≡ some (get_elem? paths (i % length paths))
unfolding sync_paths default
shown-sequence [] seeds i h l = ground arith
shown-sequence (q ∷ qs) seeds i h l =
    shown-in_order (q ∷ qs) seeds i 0 default h refl l
    ∙ ap (λ j. some (get_elem? (q ∷ qs) (j % length (q ∷ qs)))) (omega arith)
