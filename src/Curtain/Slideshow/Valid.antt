-- ===== src/Curtain/Slideshow/Valid.antt =====
-- The invariant of a slideshow, and one step of its order.
use veila.Prelude.{
  ℕ, ◌+◌, ◌-◌, ◌≤◌, ◌<◌, ◌≡◌, refl, ap, ◌∙◌, ◌≢◌, some, arith, ltb, le→leb, lt→not_leb, length,
  get_elem?, get_elem?-some, nat_eq,
}
use veila.Shuffle.Permutes.{count, get_elem?-count, one_index}
use veila.Background.{FilePath, SlideshowOrder, sequence, random}
use veila.Curtain.Slideshow.{
  Slideshow, slideshow_sequence, path_at, current_path, reset_sequence, step,
}
use veila.Curtain.Slideshow.Order.{once_if, count-slideshow_sequence, length-slideshow_sequence}

-- The order is a permutation of the indices of the wallpapers, and the position lies in it.
pub record IsValid (s : Slideshow) : Type 0 where
  pub complete : (p : ℕ) → count p s.sequence ≡ once_if (ltb p (length s.paths))
  pub sized : length s.sequence ≡ length s.paths
  pub placed : s.position < length s.paths

pub index_lt :
    (s : Slideshow) (i p : ℕ) → IsValid s → get_elem? s.sequence i ≡ some p → p < length s.paths
index_lt s i p v h = ground (arith, v.complete p, get_elem?-count p s.sequence i h)

pub path_at-some :
    (s : Slideshow) (i : ℕ)
    → IsValid s
    → i < length s.paths
    → (p : ℕ) × (path : FilePath) × (get_elem? s.sequence i ≡ some p)
      × (get_elem? s.paths p ≡ some path)
      × (path_at s i ≡ some path)
unfolding path_at
path_at-some s i v h =
    let (p, e) = get_elem?-some s.sequence i (omega (arith, v.sized)) in
    let (path, f) = get_elem?-some s.paths p (index_lt s i p v e) in (p, path, e, f, rw (e, f))

-- A new round that begins with `p`.
pub restarted : ℕ → ℕ → Slideshow → Slideshow
restarted p seed s = record s {
  sequence = slideshow_sequence (length s.paths) s.order p seed;
  position = 0;
}

pub restarted-IsValid :
    (p seed : ℕ) (s : Slideshow) → p < length s.paths → IsValid (restarted p seed s)
unfolding restarted
restarted-IsValid p seed s h = record {
  complete = λ q. count-slideshow_sequence (length s.paths) p q seed s.order h;
  sized = length-slideshow_sequence (length s.paths) p seed s.order h;
  placed = omega arith;
}

slideshow_sequence-head :
    (len p seed : ℕ) (order : SlideshowOrder)
    → get_elem? (slideshow_sequence len order p seed) 0 ≡ some p
unfolding slideshow_sequence
slideshow_sequence-head len p seed sequence = refl
slideshow_sequence-head len p seed random = refl

-- A new round begins with the wallpaper that ends the one before.
pub restarted-current_path :
    (p seed : ℕ) (s : Slideshow) → current_path (restarted p seed s) ≡ get_elem? s.paths p
unfolding restarted current_path
restarted-current_path p seed s = rw (slideshow_sequence-head (length s.paths) p seed s.order)

pub moved : Slideshow → Slideshow
moved s = record s { position = s.position + 1 }

pub step-within_round :
    (seed : ℕ) (s : Slideshow)
    → IsValid s
    → s.position + 1 < length s.paths
    → step seed s ≡ some (moved s)
unfolding step moved
step-within_round seed s v h =
    rw (lt→not_leb (s.position + 1) (length s.sequence) (omega (arith, v.sized, h)))

pub moved-current_path : (s : Slideshow) → current_path (moved s) ≡ path_at s (s.position + 1)
unfolding current_path moved path_at
moved-current_path s = refl

pub moved-IsValid :
    (s : Slideshow) → IsValid s → s.position + 1 < length s.paths → IsValid (moved s)
unfolding moved
moved-IsValid s v h = record { complete = v.complete; sized = v.sized; placed = h }

pub step-end_of_round :
    (seed p : ℕ) (s : Slideshow)
    → IsValid s
    → s.position + 1 ≡ length s.paths
    → get_elem? s.sequence s.position ≡ some p
    → step seed s ≡ some (restarted p seed s)
unfolding step restarted reset_sequence
step-end_of_round seed p s v h e =
    let last : length s.sequence - 1 ≡ s.position = omega (arith, v.sized, h) in
    rw (le→leb (length s.sequence) (s.position + 1) (omega (arith, v.sized, h)), last, e)

pub current_path_lem : (s : Slideshow) → current_path s ≡ path_at s s.position
unfolding current_path
current_path_lem s = refl

at_most_once : (s : Slideshow) (p : ℕ) → IsValid s → count p s.sequence ≤ 1
at_most_once s p v = ground (arith, v.complete p)

-- The first and the last wallpaper of an order differ.
pub ends_differ :
    (s : Slideshow) (p0 p : ℕ) (path0 path : FilePath)
    → IsValid s
    → 2 ≤ length s.paths
    → s.position + 1 ≡ length s.paths
    → ((q : FilePath) → count q s.paths ≤ 1)
    → get_elem? s.sequence 0 ≡ some p0
    → get_elem? s.sequence s.position ≡ some p
    → get_elem? s.paths p0 ≡ some path0
    → get_elem? s.paths p ≡ some path
    → path0 ≢ path
ends_differ s p0 p path0 path v two h distinct e0 e f0 f same =
    let one_path = one_index path s.paths p0 p (distinct path) (f0 ∙ ap some same) f in
    let here = one_index p s.sequence 0 s.position (at_most_once s p v) (e0 ∙ ap some one_path) e in
    omega (arith, here)
