-- ===== src/Watch/Quiet.antt =====
-- A poll that follows another one finds no change, as long as no file changes.
use veila.Prelude.{◌≡◌, refl, ap, ◌∙◌, true, Option, none, branches, nat_eq}
use veila.Clock.{Instant}
use veila.Background.{eq_paths}
use veila.Watch.{
  AutoReloadTrigger, config, theme, wallpaper, Filesystem, read, read_with_content_hash,
  AutoReloadWatcher, Targets, paths_of, sync_paths, sync_targets, check_file, check_includes,
  check_others, detect,
}
use veila.Watch.Stamps.{
  sync_path-path, sync_path-again, sync_paths-paths, check_file-again, check_includes-again,
  check_includes-paths,
}

abbrev pub armed : Option AutoReloadTrigger → Option Instant → AutoReloadWatcher → AutoReloadWatcher
armed pending deadline w = record w { pending = pending; debounce_until = deadline }

-- The watched paths are those that the configuration resolves to.
record IsSynced (targets : Targets) (w : AutoReloadWatcher) : Type 0 where
  config_synced : w.config_path ≡ targets.config_path
  wallpaper_synced : w.wallpaper_path ≡ targets.wallpaper_path
  theme_synced : w.theme_path ≡ targets.theme_path
  includes_synced : eq_paths (paths_of w.include_files) targets.include_paths ≡ true

-- The stamps of the other files are those of the filesystem.
record IsSeen (fs : Filesystem) (w : AutoReloadWatcher) : Type 0 where
  wallpaper_seen :
      check_file w.wallpaper_path w.wallpaper_stamp (read fs) wallpaper none
      ≡ (w.wallpaper_stamp, none)
  theme_seen :
      check_file w.theme_path w.theme_stamp (read_with_content_hash fs) theme none
      ≡ (w.theme_stamp, none)
  includes_seen : check_includes fs w.include_files none ≡ (w.include_files, none)

record IsUpToDate (fs : Filesystem) (targets : Targets) (w : AutoReloadWatcher) : Type 0 where
  synced : IsSynced targets w
  config_seen :
      check_file w.config_path w.config_stamp (read_with_content_hash fs) config none
      ≡ (w.config_stamp, none)
  others_seen : targets.auto_reload_config ≡ true → IsSeen fs w

sync_targets-again :
    (fs : Filesystem) (targets : Targets) (w : AutoReloadWatcher)
    → IsSynced targets w
    → sync_targets fs targets w ≡ w
unfolding sync_targets sync_paths
sync_targets-again fs targets w i = rw (
  sync_path-again w.config_path w.config_stamp targets.config_path (read_with_content_hash fs)
      i.config_synced,
  sync_path-again w.wallpaper_path w.wallpaper_stamp targets.wallpaper_path (read fs)
      i.wallpaper_synced,
  sync_path-again w.theme_path w.theme_stamp targets.theme_path (read_with_content_hash fs)
      i.theme_synced,
  i.includes_synced,
)

detect-again :
    (fs : Filesystem) (targets : Targets) (w : AutoReloadWatcher)
    → IsUpToDate fs targets w
    → detect fs targets w ≡ (w, none)
unfolding detect check_others
detect-again fs targets w i = rw (i.config_seen) (
    branches (λ (r : AutoReloadWatcher × Option AutoReloadTrigger). r ≡ (w, none))
      targets.auto_reload_config _ _
      (λ e. let s = i.others_seen e in rw (s.wallpaper_seen, s.theme_seen, s.includes_seen))
      (λ _. refl))

unfoldable pub IsQuiet : Filesystem → Targets → AutoReloadWatcher → Type 0
IsQuiet fs targets w =
    (p : Option AutoReloadTrigger) (d : Option Instant)
    → detect fs targets (sync_targets fs targets (armed p d w)) ≡ (armed p d w, none)

IsUpToDate-IsQuiet :
    (fs : Filesystem) (targets : Targets) (w : AutoReloadWatcher)
    → IsUpToDate fs targets w
    → IsQuiet fs targets w
unfolding IsQuiet
IsUpToDate-IsQuiet fs targets w i p d =
    let s = i.synced in
    let v = armed p d w in
    let j : IsSynced targets v = record {
      config_synced = s.config_synced;
      wallpaper_synced = s.wallpaper_synced;
      theme_synced = s.theme_synced;
      includes_synced = s.includes_synced;
    } in
    ap (detect fs targets) (sync_targets-again fs targets v j)
    ∙ detect-again fs targets v (record {
      synced = j;
      config_seen = i.config_seen;
      others_seen = λ e.
          let o = i.others_seen e in
          record {
            wallpaper_seen = o.wallpaper_seen;
            theme_seen = o.theme_seen;
            includes_seen = o.includes_seen;
          };
    })

sync_targets-IsSynced :
    (fs : Filesystem) (targets : Targets) (w : AutoReloadWatcher)
    → IsSynced targets (sync_targets fs targets w)
unfolding sync_targets
sync_targets-IsSynced fs targets w = record {
  config_synced =
      sync_path-path w.config_path w.config_stamp targets.config_path (read_with_content_hash fs);
  wallpaper_synced =
      sync_path-path w.wallpaper_path w.wallpaper_stamp targets.wallpaper_path (read fs);
  theme_synced =
      sync_path-path w.theme_path w.theme_stamp targets.theme_path (read_with_content_hash fs);
  includes_synced = sync_paths-paths fs w.include_files targets.include_paths;
}

detected-IsUpToDate :
    (fs : Filesystem) (targets : Targets) (w : AutoReloadWatcher)
    → IsSynced targets w
    → IsUpToDate fs targets (detect fs targets w).0
unfolding detect check_others
detected-IsUpToDate fs targets w i =
    let rh = read_with_content_hash fs in
    let c = check_file w.config_path w.config_stamp rh config none in
    let p = check_file w.wallpaper_path w.wallpaper_stamp (read fs) wallpaper c.1 in
    let t = check_file w.theme_path w.theme_stamp rh theme p.1 in
    branches (λ (r : AutoReloadWatcher × Option AutoReloadTrigger). IsUpToDate fs targets r.0)
      targets.auto_reload_config _ _
      (λ _. record {
        synced = record {
          config_synced = i.config_synced;
          wallpaper_synced = i.wallpaper_synced;
          theme_synced = i.theme_synced;
          includes_synced =
              ap (λ l. eq_paths l targets.include_paths)
                (check_includes-paths fs w.include_files t.1)
              ∙ i.includes_synced;
        };
        config_seen = check_file-again w.config_path w.config_stamp rh config none;
        others_seen = λ _. record {
          wallpaper_seen =
              check_file-again w.wallpaper_path w.wallpaper_stamp (read fs) wallpaper c.1;
          theme_seen = check_file-again w.theme_path w.theme_stamp rh theme p.1;
          includes_seen = check_includes-again fs w.include_files t.1;
        };
      })
      (λ off. record {
        synced = record {
          config_synced = i.config_synced;
          wallpaper_synced = i.wallpaper_synced;
          theme_synced = i.theme_synced;
          includes_synced = i.includes_synced;
        };
        config_seen = check_file-again w.config_path w.config_stamp rh config none;
        others_seen = λ on. cc (on, off);
      })

pub detected-IsQuiet :
    (fs : Filesystem) (targets : Targets) (w : AutoReloadWatcher)
    → IsQuiet fs targets (detect fs targets (sync_targets fs targets w)).0
detected-IsQuiet fs targets w =
    let s = sync_targets fs targets w in
    IsUpToDate-IsQuiet fs targets (detect fs targets s).0
      (detected-IsUpToDate fs targets s (sync_targets-IsSynced fs targets w))
