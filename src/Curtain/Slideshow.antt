-- ===== src/Curtain/Slideshow.antt =====
-- The slideshow of wallpapers while the session is locked: `BackgroundSlideshow` of
-- crates/curtain/src/background/slideshow.rs. A read out of bounds or an `Instant` out of range is a
-- panic there, and `none` here. `seed` is the time that `shuffle_seed` read.
use veila.Prelude.{
  ℕ, zero, suc, ◌+◌, ◌-◌, ◌*◌, ◌/◌, ◌%◌, ◌^◌, ◌≤◌, ◌<◌, min, max, ◌≡◌, refl, sym, ap, subst, ◌∙◌,
  ◌≢◌, ◌↔◌, ◌⊎◌, inl, inr, Bool, true, false, not, ◌&&◌, ◌||◌, Option, none, some, List, [], ◌∷◌,
  ◌++◌, map, arith, ltb, leb, ◌==◌, if◌then◌else◌, ltb→lt, lt→ltb, leb→le, Bool-cases, and_parts,
  le→leb, lt→not_leb, le→not_ltb, some_inj, List-cases, Option-cases, is_some, or_else, length,
  get_elem?, get_elem?-some, length-append, set, is_empty, length-set, nat_eq, PartialEq, eq_option,
  eq_option_iff,
}
pub mod Order
pub mod Valid
pub mod Loading
pub mod Rounds
use Prim.Native.Nat.{bit_xor}
use mathlib.Core.Option
use veila.Clock.{Instant, Duration, from_secs, checked_add, saturating_duration_since}
use veila.Shuffle.{shuffle}
use veila.Background.{FilePath, SlideshowOrder, sequence, random, SlideshowMode, timed, lock_only}

pub record Slideshow : Type 0 where
  pub paths : List FilePath
  pub mode : SlideshowMode
  pub order : SlideshowOrder
  pub sequence : List ℕ
  pub position : ℕ
  pub change_interval : Duration
  pub next_change_at : Option Instant

unfoldable pub shuffle_seed : ℕ → ℕ
shuffle_seed nanos = bit_xor (nanos % 2 ^ 64) 0x9E3779B97F4A7C15

-- `start..start + n`
abbrev pub range_from : ℕ → ℕ → List ℕ
range_from start zero = []
range_from start (suc n) = start ∷ range_from (start + 1) n

-- `.filter(|index| *index != initial_index)`
abbrev pub without : ℕ → List ℕ → List ℕ
without i [] = []
without i (x ∷ xs) = let rest = without i xs in if x == i then rest else x ∷ rest

-- `(initial_index + offset) % len` for each offset.
abbrev pub rotated : ℕ → ℕ → List ℕ → List ℕ
rotated len i [] = []
rotated len i (offset ∷ offsets) = ((i + offset) % len) ∷ rotated len i offsets

unfoldable pub slideshow_sequence : ℕ → SlideshowOrder → ℕ → ℕ → List ℕ
unfolding shuffle_seed
slideshow_sequence len sequence initial_index seed =
    initial_index ∷ rotated len initial_index (range_from 1 (len - 1))
slideshow_sequence len random initial_index seed =
    initial_index ∷ shuffle (shuffle_seed seed) (without initial_index (range_from 0 len))

-- `paths.iter().position(|path| path == initial_path)`
unfoldable pub position_of : FilePath → List FilePath → Option ℕ
position_of path [] = none
position_of path (p ∷ ps) = if p == path then some 0 else Option.map suc (position_of path ps)

-- What `load` reads of the configuration. `resolved_slideshow_paths` is none on its error, and
-- `resolved_slideshow_initial_path` is none on its error and where there is none.
pub record SlideshowConfig : Type 0 where
  pub slideshow_enabled : Bool
  pub slideshow : Option (SlideshowMode × SlideshowOrder × ℕ)
  pub resolved_slideshow_paths : Option (List FilePath)
  pub resolved_slideshow_initial_path : Option FilePath

-- `.unwrap_or(0)`
abbrev pub or_first : Option ℕ → ℕ
or_first none = 0
or_first (some i) = i

unfoldable pub index_of : Option FilePath → List FilePath → ℕ
unfolding position_of
index_of none paths = 0
index_of (some path) paths = or_first (position_of path paths)

unfoldable pub rotates_while_locked : SlideshowMode → Bool
rotates_while_locked timed = true
rotates_while_locked lock_only = false

unfoldable pub change_interval : ℕ → Duration
change_interval change_every_seconds = from_secs (max change_every_seconds 1)

-- `next_change_at` of a new slideshow; the sum may panic.
unfoldable pub first_change : Bool → Instant → Duration → Option (Option Instant)
first_change true now interval = Option.map some (checked_add now interval)
first_change false now interval = some none

unfoldable pub start :
    List FilePath
    → SlideshowMode
    → SlideshowOrder
    → Duration
    → Option FilePath
    → Instant
    → ℕ
    → Option Slideshow
unfolding index_of rotates_while_locked first_change slideshow_sequence
start paths mode order interval initial_path now seed =
    Option.map
      (λ next. record {
        paths = paths;
        mode = mode;
        order = order;
        sequence = slideshow_sequence (length paths) order (index_of initial_path paths) seed;
        position = 0;
        change_interval = interval;
        next_change_at = next;
      })
      (first_change (ltb 1 (length paths) && rotates_while_locked mode) now interval)

unfoldable pub load_with :
    Option (SlideshowMode × SlideshowOrder × ℕ)
    → Option (List FilePath)
    → Option FilePath
    → Instant
    → ℕ
    → Option (Option Slideshow)
unfolding start change_interval
load_with none _ _ now seed = some none
load_with (some _) none _ now seed = some none
load_with (some (mode, order, seconds)) (some paths) initial_path now seed =
    if is_empty paths
    then some none
    else Option.map some (start paths mode order (change_interval seconds) initial_path now seed)

-- The outer option is the panic, the inner one the code's result.
unfoldable pub load : SlideshowConfig → Option FilePath → Instant → ℕ → Option (Option Slideshow)
unfolding load_with
load background initial_path now seed =
    if not background.slideshow_enabled
    then some none
    else load_with background.slideshow background.resolved_slideshow_paths
        (or_else initial_path background.resolved_slideshow_initial_path) now seed

unfoldable pub read_path : List FilePath → Option ℕ → Option FilePath
read_path paths none = none
read_path paths (some index) = get_elem? paths index

-- `self.paths[self.sequence[position]]`
unfoldable pub path_at : Slideshow → ℕ → Option FilePath
unfolding read_path
path_at s position = read_path s.paths (get_elem? s.sequence position)

unfoldable pub current_path : Slideshow → Option FilePath
unfolding path_at
current_path s = path_at s s.position

unfoldable pub next_due_in : Instant → Slideshow → Option Duration
next_due_in now s = Option.map (λ t. saturating_duration_since t now) s.next_change_at

-- The sequence is never empty: the subtraction cannot wrap.
unfoldable pub reset_sequence : ℕ → Slideshow → Option Slideshow
unfolding slideshow_sequence
reset_sequence seed s =
    Option.map
      (λ current_index. record s {
        sequence = slideshow_sequence (length s.paths) s.order current_index seed;
        position = 0;
      })
      (get_elem? s.sequence (length s.sequence - 1))

-- `self.position += 1`, and a new sequence at the end of the old one.
unfoldable pub step : ℕ → Slideshow → Option Slideshow
unfolding reset_sequence
step seed s =
    if leb (length s.sequence) (s.position + 1)
    then reset_sequence seed (record s { position = s.position + 1 })
    else some (record s { position = s.position + 1 })

shown_after : Instant → Option Slideshow → Option (Slideshow × Option FilePath)
unfolding current_path
shown_after t none = none
shown_after t (some s) =
    Option.map (λ path. (record s { next_change_at = some t }, some path)) (current_path s)

-- The deadline is set again after the step.
change : Option Instant → ℕ → Slideshow → Option (Slideshow × Option FilePath)
unfolding shown_after step
change none seed s = none
change (some t) seed s = shown_after t (step seed s)

advance_due : Option Instant → Instant → ℕ → Slideshow → Option (Slideshow × Option FilePath)
unfolding change
advance_due none now seed s = some (s, none)
advance_due (some next_change_at) now seed s =
    if ltb now next_change_at || ltb (length s.paths) 2
    then some (s, none)
    else change (checked_add now s.change_interval) seed s

unfoldable pub advance : Instant → ℕ → Slideshow → Option (Slideshow × Option FilePath)
unfolding advance_due
advance now seed s = advance_due s.next_change_at now seed s

-- The outer option is the panic.
unfoldable pub next_preload_path : Slideshow → Option (Option FilePath)
unfolding path_at rotates_while_locked
next_preload_path s =
    if ltb (length s.paths) 2 || not (rotates_while_locked s.mode)
    then some none
    else Option.map some
        (path_at s (if leb (length s.sequence) (s.position + 1) then 0 else s.position + 1))
