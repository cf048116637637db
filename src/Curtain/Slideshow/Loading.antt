-- ===== src/Curtain/Slideshow/Loading.antt =====
-- A slideshow that `load` returns is valid.
use veila.Prelude.{
  ℕ, suc, ◌<◌, ◌≡◌, refl, subst, ◌∙◌, inl, inr, ◌&&◌, Option, none, some, List, [], ◌∷◌, arith, ltb,
  ◌==◌, Bool-cases, some_inj, or_else, length, nat_eq,
}
use mathlib.Core.Option
use veila.Clock.{Instant, Duration}
use veila.Background.{FilePath, SlideshowOrder, SlideshowMode}
use veila.Curtain.Slideshow.{
  Slideshow, SlideshowConfig, position_of, index_of, or_first, first_change, start, load_with, load,
  change_interval, rotates_while_locked,
}
use veila.Curtain.Slideshow.Valid.{IsValid}
use veila.Curtain.Slideshow.Order.{count-slideshow_sequence, length-slideshow_sequence}

map_inv {ℓ κ} :
    {A : Type ℓ} {B : Type κ} (f : A → B) (o : Option A) (b : B)
    → Option.map f o ≡ some b
    → (a : A) × (o ≡ some a) × (f a ≡ b)
map_inv f none b h = cc h
map_inv f (some a) b h = (a, refl, some_inj (f a) b h)

position_of-lt :
    (path : FilePath) (paths : List FilePath) (i : ℕ)
    → position_of path paths ≡ some i
    → i < length paths
unfolding position_of
position_of-lt path [] i h = cc h
position_of-lt path (p ∷ ps) i h = elim (Bool-cases (p == path)) [
  | inl e ↦ let z : 0 ≡ i = some_inj 0 i (rw e at h) in omega (arith, z)
  | inr e ↦
      let (j, f, g) = map_inv suc (position_of path ps) i (rw e at h) in
      omega (arith, g, position_of-lt path ps j f)
]

or_first-lt : (o : Option ℕ) (n : ℕ) → ((i : ℕ) → o ≡ some i → i < n) → 0 < n → or_first o < n
or_first-lt none n h pos = pos
or_first-lt (some i) n h pos = h i refl

index_of-lt :
    (initial : Option FilePath) (p : FilePath) (paths : List FilePath)
    → index_of initial (p ∷ paths) < length (p ∷ paths)
unfolding index_of
index_of-lt none p paths = omega arith
index_of-lt (some path) p paths =
    or_first-lt (position_of path (p ∷ paths)) (length (p ∷ paths))
      (position_of-lt path (p ∷ paths)) (omega arith)

start-IsValid :
    (p : FilePath) (paths : List FilePath) (mode : SlideshowMode) (order : SlideshowOrder)
    (interval : Duration) (initial : Option FilePath) (now : Instant) (seed : ℕ) (s : Slideshow)
    → start (p ∷ paths) mode order interval initial now seed ≡ some s
    → IsValid s
unfolding start
start-IsValid p paths mode order interval initial now seed s h =
    let (next, e, f) =
      map_inv _
        (first_change (ltb 1 (length (p ∷ paths)) && rotates_while_locked mode) now interval) s h in
    let at = index_of initial (p ∷ paths) in
    let fits = index_of-lt initial p paths in
    subst IsValid f record {
      complete = λ q. count-slideshow_sequence (length (p ∷ paths)) at q seed order fits;
      sized = length-slideshow_sequence (length (p ∷ paths)) at seed order fits;
      placed = omega arith;
    }

load_with-IsValid :
    (config : Option (SlideshowMode × SlideshowOrder × ℕ)) (resolved : Option (List FilePath))
    (initial : Option FilePath) (now : Instant) (seed : ℕ) (s : Slideshow)
    → load_with config resolved initial now seed ≡ some (some s)
    → IsValid s
unfolding load_with
load_with-IsValid none resolved initial now seed s h = cc h
load_with-IsValid (some c) none initial now seed s h = cc h
load_with-IsValid (some (mode, order, seconds)) (some []) initial now seed s h = cc h
load_with-IsValid (some (mode, order, seconds)) (some (p ∷ ps)) initial now seed s h =
    let (q, e, f) =
      map_inv some (start (p ∷ ps) mode order (change_interval seconds) initial now seed) (some s)
        h in
    start-IsValid p ps mode order (change_interval seconds) initial now seed s (e ∙ f)

-- Whatever the configuration, the path that the daemon chose and the seed: a slideshow that is loaded
-- has a permutation of the indices as its order, and a position in it.
pub load-IsValid :
    (background : SlideshowConfig) (initial_path : Option FilePath) (now : Instant) (seed : ℕ)
    (s : Slideshow)
    → load background initial_path now seed ≡ some (some s)
    → IsValid s
unfolding load
load-IsValid background initial_path now seed s h = elim (Bool-cases background.slideshow_enabled) [
  | inl e ↦
      load_with-IsValid background.slideshow background.resolved_slideshow_paths
        (or_else initial_path background.resolved_slideshow_initial_path) now seed s (rw e at h)
  | inr e ↦ cc (h, e)
]
