-- ===== src/Background/Examples.antt =====
-- Locks that start with one of three wallpapers.
use veila.Prelude.{◌≡◌, refl, ◌≢◌, true, some, List, [], ◌∷◌, arith, nat_eq}
use veila.Background.{
  FilePath, random, lock_only, SelectionState, default, contains, next_path, BackgroundConfig,
}
use veila.Background.Rounds.{IsRound, Distinct, next_path-random}
use veila.Background.Cycles.{shown, count_shown, count-shown}

abbrev walls : List FilePath
walls = 11 ∷ 22 ∷ 33 ∷ []

walls-Distinct : Distinct walls
walls-Distinct p = ground arith

-- In the middle of a round: 22 was shown, 11 remains of a list without 33.
abbrev halfway : SelectionState
halfway = record { paths = 11 ∷ 22 ∷ []; remaining = 11 ∷ []; last = some 22; sequence_index = 0 }

halfway-IsRound : IsRound halfway
halfway-IsRound = record { inside = λ p. ground arith; apart = λ p e. ground arith }

abbrev lock_slideshow : BackgroundConfig
lock_slideshow = record {
  slideshow_enabled = true;
  slideshow = some (lock_only, random);
  resolved_slideshow_paths = some walls;
}

next_path-random_example :
    let (s', path) = next_path halfway walls random 7 in
    (p : FilePath) × (path ≡ some p)
    × (contains p walls ≡ true)
    × (halfway.last ≢ some p)
    × IsRound s'
next_path-random_example =
    next_path-random halfway walls 7 halfway-IsRound walls-Distinct (omega arith)

count-shown_example : count_shown 33 (shown random walls (1 ∷ 2 ∷ 3 ∷ []) default) ≡ 1
unfolding default
count-shown_example = count-shown 33 walls (1 ∷ 2 ∷ 3 ∷ []) default refl refl
