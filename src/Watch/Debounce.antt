-- ===== src/Watch/Debounce.antt =====
-- When a change of the files reloads the configuration.
use veila.Prelude.{
  ◌+◌, ◌≤◌, ◌≡◌, refl, ap, ◌∙◌, Bool, true, ◌&&◌, Option, none, some, List, [], ◌∷◌, ◌++◌, arith,
  ltb, ltb→lt, and_parts, le→leb, lt→not_leb, nat_eq,
}
use veila.Clock.{Instant, from_millis}
use veila.Watch.{
  AutoReloadTrigger, Filesystem, AutoReloadWatcher, Targets, effective_auto_reload_debounce_ms,
  sync_targets, detect, fire, debounce, poll,
}
use veila.Watch.Quiet.{armed, IsQuiet, detected-IsQuiet}

noted :
    Instant
    → Option AutoReloadTrigger
    → List (Instant × AutoReloadTrigger)
    → List (Instant × AutoReloadTrigger)
noted now none log = log
noted now (some trigger) log = (now, trigger) ∷ log

-- The watcher polled at these times, while the files and the loaded configuration stay as they are: what it triggers, and when.
unfoldable pub polls :
    Filesystem → Targets → List Instant → AutoReloadWatcher → List (Instant × AutoReloadTrigger)
unfolding noted
polls fs targets [] w = []
polls fs targets (now ∷ times) w =
    let r = poll fs targets now w in noted now r.1 (polls fs targets times r.0)

abbrev pub all_before : Instant → List Instant → Bool
all_before deadline [] = true
all_before deadline (t ∷ ts) = ltb t deadline && all_before deadline ts

module _ (fs : Filesystem) (targets : Targets) (w : AutoReloadWatcher)
    (quiet : IsQuiet fs targets w) where
  quiet_poll :
      (p : Option AutoReloadTrigger) (d : Option Instant) (now : Instant)
      → poll fs targets now (armed p d w) ≡ fire p d now (armed p d w)
  unfolding poll debounce IsQuiet
  quiet_poll p d now = ap (debounce targets now) (quiet p d)

  polls-idle : (times : List Instant) → polls fs targets times (armed none none w) ≡ []
  unfolding polls noted fire
  polls-idle [] = refl
  polls-idle (now ∷ times) = rw (quiet_poll none none now) (polls-idle times)

  polls-pending :
      (trigger : AutoReloadTrigger) (deadline now : Instant) (early later : List Instant)
      → all_before deadline early ≡ true
      → deadline ≤ now
      → polls fs targets (early ++ (now ∷ later)) (armed (some trigger) (some deadline) w)
        ≡ (now, trigger) ∷ []
  unfolding polls noted fire
  polls-pending trigger deadline now [] later h le =
      rw (quiet_poll (some trigger) (some deadline) now, le→leb deadline now le, polls-idle later)
  polls-pending trigger deadline now (t ∷ early) later h le =
      let (a, b) = and_parts (ltb t deadline) (all_before deadline early) h in
      rw (quiet_poll (some trigger) (some deadline) t, lt→not_leb t deadline (ltb→lt t deadline a))
        (polls-pending trigger deadline now early later b le)

-- If a poll finds a change, and both the files and what the loaded configuration says of them then stay
-- as they are, the watcher triggers exactly once: at the first poll after the pause, with the last
-- change that was found, and never before the pause is over or again after it. Nothing is said of
-- polls after a reload that changes the paths, the pause or whether reloads are wanted. The pause is between 250 ms and 5 s, whatever is configured.
pub change-triggers_once :
    (fs : Filesystem) (targets : Targets) (w : AutoReloadWatcher) (trigger : AutoReloadTrigger)
    (found now : Instant) (early later : List Instant)
    → (detect fs targets (sync_targets fs targets w)).1 ≡ some trigger
    → let pause = from_millis (effective_auto_reload_debounce_ms targets.auto_reload_debounce_ms) in
      all_before (found + pause) early ≡ true
      → found + pause ≤ now
      → (polls fs targets (found ∷ (early ++ (now ∷ later))) w ≡ (now, trigger) ∷ [])
        × (from_millis 250 ≤ pause)
        × (pause ≤ from_millis 5000)
unfolding polls noted poll debounce effective_auto_reload_debounce_ms
change-triggers_once fs targets w trigger found now early later e h le =
    let r = detect fs targets (sync_targets fs targets w) in
    let pause = from_millis (effective_auto_reload_debounce_ms targets.auto_reload_debounce_ms) in
    (
      ap
            (λ c.
              noted found (debounce targets found (r.0, c)).1
                (polls fs targets (early ++ (now ∷ later)) (debounce targets found (r.0, c)).0))
            e
          ∙ polls-pending fs targets r.0 (detected-IsQuiet fs targets w) trigger (found + pause) now
              early later h le,
      ground arith,
      ground arith,
    )
