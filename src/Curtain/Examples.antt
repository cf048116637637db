-- ===== src/Curtain/Examples.antt =====
-- The timers at concrete times.
mod Input
use veila.Prelude.{
  ℕ, zero, suc, ◌+◌, ◌-◌, ◌*◌, ◌/◌, ◌%◌, ◌^◌, ◌≤◌, ◌<◌, min, max, ◌≡◌, refl, sym, ap, subst, ◌∙◌,
  ◌≢◌, ◌↔◌, ◌⊎◌, inl, inr, Bool, true, false, not, ◌&&◌, ◌||◌, Option, none, some, List, [], ◌∷◌,
  ◌++◌, map, arith, ltb, leb, ◌==◌, if◌then◌else◌, ltb→lt, lt→ltb, leb→le, Bool-cases, and_parts,
  le→leb, lt→not_leb, le→not_ltb, not_ltb→le, branches, if_true, if_false, some_inj, List-cases,
  Option-cases, is_some, or_else, length, get_elem?, get_elem?-some, length-append, set, is_empty,
  length-set, nat_eq, PartialEq, eq_option, eq_option_iff,
}
use veila.Clock.{from_secs, from_millis}
use veila.Curtain.ScreenOff.{ScreenOffState, due_in, should_power_off, note_activity}
use veila.Shuffle.{shuffle}
use veila.Shuffle.Permutes.{count}
use veila.Background.{FilePath, timed, sequence, random}
use veila.Curtain.Slideshow.Order.{once_if}
use veila.Curtain.Slideshow.{
  Slideshow, SlideshowConfig, path_at, current_path, advance, next_preload_path, load, load_with,
  start, position_of, index_of, first_change, rotates_while_locked, change_interval, shuffle_seed,
  slideshow_sequence,
}
use veila.Curtain.Slideshow.Valid.{IsValid}
use veila.Curtain.Slideshow.Rounds.{IsDue, advance-end_of_round}
use veila.Curtain.Slideshow.Loading.{load-IsValid}
use veila.Curtain.KeyRepeat.{KeyRepeatState, poll, Spaced, poll-Spaced}

abbrev dark : ScreenOffState
dark = record { delay = some (from_secs 60); last_activity_at = some 0; outputs_powered_off = true }

abbrev held : KeyRepeatState
held = record { next_at = from_millis 300; interval = from_millis 32 }

poll-Spaced_example :
    (q : KeyRepeatState) × (n : ℕ) × (poll
        (from_millis 299 ∷ from_millis 300 ∷ from_millis 331 ∷ from_millis 332 ∷ [])
        held
      ≡ some (q, n))
    × Spaced held (from_millis 400) n
poll-Spaced_example =
    poll-Spaced (from_millis 299 ∷ from_millis 300 ∷ from_millis 331 ∷ from_millis 332 ∷ [])
      (from_millis 400) held refl (omega arith)

abbrev shown_second : Slideshow
shown_second = record {
  paths = 10 ∷ 20 ∷ 30 ∷ [];
  mode = timed;
  order = sequence;
  sequence = 1 ∷ 2 ∷ 0 ∷ [];
  position = 1;
  change_interval = from_secs 5;
  next_change_at = some (from_secs 5);
}

abbrev shown_last : Slideshow
shown_last = record shown_second { position = 2 }

shown_second_complete :
    (p : ℕ) → count p (1 ∷ 2 ∷ 0 ∷ []) ≡ once_if (ltb p (length shown_second.paths))
shown_second_complete p = ground arith

shown_second-IsValid : IsValid shown_second
shown_second-IsValid = record {
  complete = shown_second_complete;
  sized = refl;
  placed = omega arith;
}

shown_last-IsValid : IsValid shown_last
shown_last-IsValid = record { complete = shown_second_complete; sized = refl; placed = omega arith }

distinct_paths : (p : FilePath) → count p (10 ∷ 20 ∷ 30 ∷ []) ≤ 1
distinct_paths p = ground arith

shown_second-IsDue : IsDue (from_secs 5) shown_second
shown_second-IsDue = record {
  deadline = from_secs 5;
  armed = refl;
  passed = omega arith;
  several = omega arith;
  representable = omega arith;
}

shown_last-IsDue : IsDue (from_secs 5) shown_last
shown_last-IsDue = record {
  deadline = from_secs 5;
  armed = refl;
  passed = omega arith;
  several = omega arith;
  representable = omega arith;
}

advance-end_of_round_example :
    (s' : Slideshow) × (path preloaded : FilePath) × (advance (from_secs 5) 77 shown_last
      ≡ some (s', some path))
    × IsValid s'
    × (current_path shown_last ≡ some path)
    × (next_preload_path shown_last ≡ some (some preloaded))
    × (preloaded ≢ path)
advance-end_of_round_example =
    advance-end_of_round (from_secs 5) 77 shown_last shown_last-IsValid shown_last-IsDue refl refl
      distinct_paths

abbrev two_wallpapers : SlideshowConfig
two_wallpapers = record {
  slideshow_enabled = true;
  slideshow = some (timed, random, 0);
  resolved_slideshow_paths = some (10 ∷ 20 ∷ []);
  resolved_slideshow_initial_path = none;
}

abbrev loaded_slideshow : Slideshow
loaded_slideshow = record {
  paths = 10 ∷ 20 ∷ [];
  mode = timed;
  order = random;
  sequence = 1 ∷ 0 ∷ [];
  position = 0;
  change_interval = from_secs 1;
  next_change_at = some (from_secs 3);
}

two_wallpapers_loaded :
    load two_wallpapers (some 20) (from_secs 2) 77 ≡ some (some loaded_slideshow)
unfolding load load_with start position_of index_of first_change rotates_while_locked
    change_interval slideshow_sequence shuffle_seed shuffle
two_wallpapers_loaded = refl

load-IsValid_example : IsValid loaded_slideshow
load-IsValid_example =
    load-IsValid two_wallpapers (some 20) (from_secs 2) 77 loaded_slideshow two_wallpapers_loaded
