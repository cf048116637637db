-- ===== src/Background.antt =====
-- The wallpaper that each lock starts with: `BackgroundSelectionState` of
-- crates/daemon/src/app/state.rs and `select_initial_background_path` of
-- crates/daemon/src/app/helpers.rs. The code only compares paths, so a path is a number. `seed` is
-- what `shuffle_seed` read from the clock.
use veila.Prelude.{
  ℕ, zero, suc, ◌+◌, ◌-◌, ◌*◌, ◌/◌, ◌%◌, ◌^◌, ◌≤◌, ◌<◌, min, max, ◌≡◌, refl, sym, ap, subst, ◌∙◌,
  ◌≢◌, ◌↔◌, ◌⊎◌, inl, inr, Bool, true, false, not, ◌&&◌, ◌||◌, Option, none, some, List, [], ◌∷◌,
  ◌++◌, map, arith, ltb, leb, ◌==◌, if◌then◌else◌, ltb→lt, lt→ltb, leb→le, Bool-cases, Option-cases,
  is_some, or_else, length, get_elem?, length-append, set, is_empty, length-set, nat_eq, PartialEq,
  eq_option, eq_option_iff,
}
pub mod Selection
pub mod Rounds
pub mod Cycles
pub mod InOrder
pub mod Initial
mod Examples
use Prim.Native.Nat.{bit_xor}
use mathlib.Core.Option
use veila.Shuffle.{shuffle, swap}

abbrev pub FilePath : Type 0
FilePath = ℕ

pub data SlideshowOrder : Type 0 where
  sequence random : SlideshowOrder

pub data SlideshowMode : Type 0 where
  timed lock_only : SlideshowMode

pub record SelectionState : Type 0 where
  pub paths : List FilePath
  pub remaining : List FilePath
  pub last : Option FilePath
  pub sequence_index : ℕ

unfoldable pub default : SelectionState
default = record { paths = []; remaining = []; last = none; sequence_index = 0 }

-- `duration.as_nanos() as u64 ^ 0xA076_1D64_78BD_642F`
unfoldable pub shuffle_seed : ℕ → ℕ
shuffle_seed nanos = bit_xor (nanos % 2 ^ 64) 0xA0761D6478BD642F

abbrev pub eq_paths : List FilePath → List FilePath → Bool
eq_paths [] [] = true
eq_paths (p ∷ ps) (q ∷ qs) = p == q && eq_paths ps qs
eq_paths _ _ = false

-- `paths.iter().any(|path| path == last)`
abbrev pub contains : FilePath → List FilePath → Bool
contains p [] = false
contains p (q ∷ qs) = q == p || contains p qs

-- `Option::filter` on the last path.
unfoldable pub keep_last : Option FilePath → List FilePath → Option FilePath
keep_last none paths = none
keep_last (some p) paths = if contains p paths then some p else none

-- A changed list of paths starts the selection anew, but for the last path if it is still there.
unfoldable pub sync_paths : SelectionState → List FilePath → SelectionState
unfolding keep_last
sync_paths s paths =
    if eq_paths s.paths paths
    then s
    else record { paths = paths; remaining = []; last = keep_last s.last paths; sequence_index = 0 }

-- `remaining.iter().position(|path| path != last)`
unfoldable pub position_ne : FilePath → List FilePath → Option ℕ
position_ne last [] = none
position_ne last (p ∷ ps) = if p == last then Option.map suc (position_ne last ps) else some 0

unfoldable pub swap_first : Option ℕ → List FilePath → List FilePath
swap_first none xs = xs
swap_first (some i) xs = swap xs 0 i

-- A new round must not begin with the path that was shown last, if another one is there.
unfoldable pub avoid_repeat : Option FilePath → List FilePath → List FilePath
unfolding swap_first position_ne
avoid_repeat none xs = xs
avoid_repeat (some last) [] = []
avoid_repeat (some last) (x ∷ xs) =
    if ltb 1 (length (x ∷ xs)) && x == last
    then swap_first (position_ne last (x ∷ xs)) (x ∷ xs)
    else x ∷ xs

unfoldable pub refill : SelectionState → ℕ → List FilePath
unfolding avoid_repeat shuffle shuffle_seed
refill s seed =
    if is_empty s.remaining
    then avoid_repeat s.last (shuffle (shuffle_seed seed) s.paths)
    else s.remaining

-- `self.remaining.remove(0)`; the code panics on an empty list, which `refill` never returns here.
unfoldable pub take_first : SelectionState → List FilePath → SelectionState × Option FilePath
take_first s [] = (s, none)
take_first s (x ∷ xs) = (record s { remaining = xs; last = some x }, some x)

unfoldable pub take_sequence : SelectionState → Option FilePath → SelectionState × Option FilePath
take_sequence s none = (s, none)
take_sequence s (some next) = (
  record s { sequence_index = (s.sequence_index + 1) % length s.paths; last = some next },
  some next,
)

unfoldable pub choose : SlideshowOrder → SelectionState → ℕ → SelectionState × Option FilePath
unfolding take_first take_sequence refill
choose sequence s seed = take_sequence s (get_elem? s.paths (s.sequence_index % length s.paths))
choose random s seed = take_first s (refill s seed)

unfoldable pub next_path :
    SelectionState → List FilePath → SlideshowOrder → ℕ → SelectionState × Option FilePath
unfolding choose sync_paths default
next_path s paths order seed =
    if is_empty paths then (default, none) else choose order (sync_paths s paths) seed

-- What `select_initial_background_path` reads of the configuration. `resolved_slideshow_paths` is
-- none on its error.
pub record BackgroundConfig : Type 0 where
  pub slideshow_enabled : Bool
  pub slideshow : Option (SlideshowMode × SlideshowOrder)
  pub resolved_slideshow_paths : Option (List FilePath)

unfoldable pub get_or_default : Option SelectionState → SelectionState
unfolding default
get_or_default none = default
get_or_default (some s) = s

unfoldable pub select_by :
    SlideshowMode
    → SlideshowOrder
    → List FilePath
    → Option SelectionState
    → ℕ
    → Option SelectionState × Option FilePath
unfolding next_path get_or_default
select_by timed sequence paths selection seed = (none, get_elem? paths 0)
select_by _ order paths selection seed =
    let (s, path) = next_path (get_or_default selection) paths order seed in (some s, path)

unfoldable pub select_slideshow :
    Option (SlideshowMode × SlideshowOrder)
    → Option (List FilePath)
    → Option SelectionState
    → ℕ
    → Option SelectionState × Option FilePath
unfolding select_by
select_slideshow none _ selection seed = (selection, none)
select_slideshow (some _) none selection seed = (selection, none)
select_slideshow (some (mode, order)) (some paths) selection seed =
    if is_empty paths then (none, none) else select_by mode order paths selection seed

unfoldable pub select_initial_background_path :
    BackgroundConfig → Option SelectionState → ℕ → Option SelectionState × Option FilePath
unfolding select_slideshow
select_initial_background_path background selection seed =
    if not background.slideshow_enabled
    then (none, none)
    else select_slideshow background.slideshow background.resolved_slideshow_paths selection seed
