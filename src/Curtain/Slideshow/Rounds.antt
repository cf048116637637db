-- ===== src/Curtain/Slideshow/Rounds.antt =====
-- What a change shows, and what was loaded in advance.
use veila.Prelude.{
  ℕ, ◌+◌, ◌≤◌, ◌<◌, ◌≡◌, ap, ◌∙◌, ◌≢◌, some, arith, le→leb, lt→not_leb, le→not_ltb, length, nat_eq,
}
use veila.Clock.{Instant, instant_max}
use veila.Shuffle.Permutes.{count}
use veila.Background.{FilePath, timed}
use veila.Curtain.Slideshow.{
  Slideshow, path_at, current_path, step, shown_after, change, advance_due, advance,
  next_preload_path, rotates_while_locked,
}
use veila.Curtain.Slideshow.Valid.{
  IsValid, index_lt, path_at-some, restarted, restarted-IsValid, restarted-current_path, moved,
  step-within_round, moved-current_path, moved-IsValid, step-end_of_round, current_path_lem,
  ends_differ,
}

-- The new deadline of a slideshow that has changed its wallpaper.
due_at : Instant → Slideshow → Slideshow
due_at t s = record s { next_change_at = some t }

advance_due_lem :
    (now t seed : ℕ) (s s' : Slideshow) (path : FilePath)
    → t ≤ now
    → 2 ≤ length s.paths
    → now + s.change_interval ≤ instant_max
    → step seed s ≡ some s'
    → current_path s' ≡ some path
    → advance_due (some t) now seed s ≡ some (due_at (now + s.change_interval) s', some path)
unfolding advance_due change shown_after due_at
advance_due_lem now t seed s s' path le two fits st c = rw (
  le→not_ltb t now le,
  le→not_ltb 2 (length s.paths) two,
  le→leb (now + s.change_interval) instant_max fits,
  st,
  c,
)

advance_lem :
    (now t seed : ℕ) (s s' : Slideshow) (path : FilePath)
    → s.next_change_at ≡ some t
    → t ≤ now
    → 2 ≤ length s.paths
    → now + s.change_interval ≤ instant_max
    → step seed s ≡ some s'
    → current_path s' ≡ some path
    → advance now seed s ≡ some (due_at (now + s.change_interval) s', some path)
unfolding advance
advance_lem now t seed s s' path e le two fits st c =
    ap (λ o. advance_due o now seed s) e ∙ advance_due_lem now t seed s s' path le two fits st c

due_at-IsValid : (t : Instant) (s : Slideshow) → IsValid s → IsValid (due_at t s)
unfolding due_at
due_at-IsValid t s v = record { complete = v.complete; sized = v.sized; placed = v.placed }

-- What a change needs: a deadline that has passed, another wallpaper, and a next deadline that the
-- clock can represent.
pub record IsDue (now : Instant) (s : Slideshow) : Type 0 where
  pub deadline : Instant
  pub armed : s.next_change_at ≡ some deadline
  pub passed : deadline ≤ now
  pub several : 2 ≤ length s.paths
  pub representable : now + s.change_interval ≤ instant_max

preload-within_round :
    (s : Slideshow) (path : FilePath)
    → 2 ≤ length s.paths
    → s.position + 1 < length s.sequence
    → s.mode ≡ timed
    → path_at s (s.position + 1) ≡ some path
    → next_preload_path s ≡ some (some path)
unfolding next_preload_path rotates_while_locked
preload-within_round s path two h m e =
    rw (le→not_ltb 2 (length s.paths) two, m, lt→not_leb (s.position + 1) (length s.sequence) h, e)

preload-end_of_round :
    (s : Slideshow) (path : FilePath)
    → 2 ≤ length s.paths
    → length s.sequence ≤ s.position + 1
    → s.mode ≡ timed
    → path_at s 0 ≡ some path
    → next_preload_path s ≡ some (some path)
unfolding next_preload_path rotates_while_locked
preload-end_of_round s path two h m e =
    rw (le→not_ltb 2 (length s.paths) two, m, le→leb (length s.sequence) (s.position + 1) h, e)

-- Within a round a change does not panic, keeps the order valid, and shows the next wallpaper of the
-- order: the one that was loaded in advance, if the slideshow rotates.
advance-within_round :
    (now seed : ℕ) (s : Slideshow)
    → IsValid s
    → IsDue now s
    → s.position + 1 < length s.paths
    → s.mode ≡ timed
    → (s' : Slideshow) × (path : FilePath) × (advance now seed s ≡ some (s', some path))
      × IsValid s'
      × (path_at s (s.position + 1) ≡ some path)
      × (next_preload_path s ≡ some (some path))
advance-within_round now seed s v d more m =
    let (p, path, e, f, g) = path_at-some s (s.position + 1) v more in
    (
      due_at (now + s.change_interval) (moved s),
      path,
      advance_lem now d.deadline seed s (moved s) path d.armed d.passed d.several d.representable
          (step-within_round seed s v more) (moved-current_path s ∙ g),
      due_at-IsValid (now + s.change_interval) (moved s) (moved-IsValid s v more),
      g,
      preload-within_round s path d.several (omega (arith, v.sized, more)) m g,
    )

-- A defect of the end of a round: the change shows the wallpaper that is already there for another
-- interval, whatever the order and the seed, and not the one that was loaded in advance, if the
-- wallpapers are distinct.
pub advance-end_of_round :
    (now seed : ℕ) (s : Slideshow)
    → IsValid s
    → IsDue now s
    → s.position + 1 ≡ length s.paths
    → s.mode ≡ timed
    → ((p : FilePath) → count p s.paths ≤ 1)
    → (s' : Slideshow) × (path preloaded : FilePath) × (advance now seed s ≡ some (s', some path))
      × IsValid s'
      × (current_path s ≡ some path)
      × (next_preload_path s ≡ some (some preloaded))
      × (preloaded ≢ path)
advance-end_of_round now seed s v d h m distinct =
    let (p, path, e, f, g) = path_at-some s s.position v v.placed in
    let (p0, path0, e0, f0, g0) = path_at-some s 0 v (omega (arith, d.several)) in
    let s1 = restarted p seed s in
    (
      due_at (now + s.change_interval) s1,
      path,
      path0,
      advance_lem now d.deadline seed s s1 path d.armed d.passed d.several d.representable
          (step-end_of_round seed p s v h e) (restarted-current_path p seed s ∙ f),
      due_at-IsValid (now + s.change_interval) s1
          (restarted-IsValid p seed s (index_lt s s.position p v e)),
      current_path_lem s ∙ g,
      preload-end_of_round s path0 d.several (omega (arith, v.sized, h)) m g0,
      ends_differ s p0 p path0 path v d.several h distinct e0 e f0 f,
    )
