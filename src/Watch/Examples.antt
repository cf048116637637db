-- ===== src/Watch/Examples.antt =====
-- A configuration file that changes.
use veila.Prelude.{ℕ, ◌≤◌, ◌≡◌, refl, true, none, some, [], ◌∷◌, ◌++◌, arith, nat_eq}
use veila.Clock.{from_millis}
use veila.Watch.{
  config, Filesystem, AutoReloadWatcher, Targets, effective_auto_reload_debounce_ms, new, detect,
  sync_targets, sync_path, sync_paths, check_file, check_others, check_includes, read,
  read_with_content_hash, is_stamp, eq_stamp, eq_bool, paths_of, stamped,
}
use veila.Watch.Debounce.{polls, change-triggers_once}

abbrev files : ℕ → Filesystem
files size = record {
  metadata = λ path. some (some 7, size);
  file_content_hash = λ path. some size;
}

abbrev one_target : Targets
one_target = record {
  config_path = some 1;
  wallpaper_path = none;
  theme_path = none;
  include_paths = [];
  auto_reload_config = true;
  auto_reload_debounce_ms = 100;
}

abbrev watcher : AutoReloadWatcher
watcher = new (files 40) one_target

abbrev pause : ℕ
pause = from_millis (effective_auto_reload_debounce_ms 100)

config_changed :
    (detect (files 41) one_target (sync_targets (files 41) one_target watcher)).1 ≡ some config
unfolding new detect sync_targets sync_path sync_paths check_file check_others check_includes read
    read_with_content_hash is_stamp eq_stamp eq_bool paths_of stamped
config_changed = refl

pause_short : pause ≡ from_millis 250
unfolding effective_auto_reload_debounce_ms
pause_short = refl

change-triggers_once_example :
    (polls
        (files 41)
        one_target
        (from_millis 1 ∷ ((from_millis 200 ∷ []) ++ (from_millis 260 ∷ (from_millis 900 ∷ []))))
        watcher
      ≡ (from_millis 260, config) ∷ [])
    × (from_millis 250 ≤ pause)
    × (pause ≤ from_millis 5000)
unfolding effective_auto_reload_debounce_ms
change-triggers_once_example =
    change-triggers_once (files 41) one_target watcher config (from_millis 1) (from_millis 260)
      (from_millis 200 ∷ []) (from_millis 900 ∷ []) config_changed refl (omega arith)
