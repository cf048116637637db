-- ===== src/Watch.antt =====
-- The watcher that reloads the configuration when its files change: crates/daemon/src/app/watch.rs.
-- The filesystem and the resolution of theme and include paths are arguments.
use veila.Prelude.{
  ℕ, zero, suc, ◌+◌, ◌-◌, ◌*◌, ◌/◌, ◌%◌, ◌^◌, ◌≤◌, ◌<◌, min, max, ◌≡◌, refl, sym, ap, subst, ◌∙◌,
  ◌≢◌, ◌↔◌, ◌⊎◌, inl, inr, Bool, true, false, not, ◌&&◌, ◌||◌, Option, none, some, List, [], ◌∷◌,
  ◌++◌, map, arith, ltb, leb, ◌==◌, if◌then◌else◌, ltb→lt, lt→ltb, leb→le, Bool-cases, and_parts,
  le→leb, lt→not_leb, le→not_ltb, not_ltb→le, branches, if_true, if_false, some_inj, List-cases,
  Option-cases, is_some, or_else, length, get_elem?, get_elem?-some, length-append, set, is_empty,
  length-set, nat_eq, PartialEq, eq_option, eq_option_iff,
}
pub mod Stamps
pub mod Quiet
pub mod Debounce
mod Examples
use mathlib.Core.Option
use veila.Clock.{Instant, from_millis}
use veila.Background.{FilePath, eq_paths}

pub data AutoReloadTrigger : Type 0 where
  config include theme wallpaper : AutoReloadTrigger

pub record FileStamp : Type 0 where
  pub exists : Bool
  pub modified : Option ℕ
  pub len : ℕ
  pub content_hash : Option ℕ

-- What the system answers about a path: the time of change and the length, and the hash of the
-- content, if it can be read.
pub record Filesystem : Type 0 where
  pub metadata : FilePath → Option (Option ℕ × ℕ)
  pub file_content_hash : FilePath → Option ℕ

stamp_of : Option (Option ℕ × ℕ) → Option ℕ → FileStamp
stamp_of none hash = record { exists = false; modified = none; len = 0; content_hash = none }
stamp_of (some (modified, len)) hash = record {
  exists = true;
  modified = modified;
  len = len;
  content_hash = hash;
}

unfoldable pub read : Filesystem → FilePath → FileStamp
unfolding stamp_of
read fs path = stamp_of (fs.metadata path) none

unfoldable pub read_with_content_hash : Filesystem → FilePath → FileStamp
unfolding stamp_of
read_with_content_hash fs path = stamp_of (fs.metadata path) (fs.file_content_hash path)

unfoldable pub eq_bool : Bool → Bool → Bool
eq_bool true b = b
eq_bool false b = not b

unfoldable pub eq_stamp : FileStamp → FileStamp → Bool
unfolding eq_bool
eq_stamp a b =
    eq_bool a.exists b.exists
    && eq_option a.modified b.modified
    && a.len == b.len
    && eq_option a.content_hash b.content_hash

pub record WatchedFile : Type 0 where
  pub path : FilePath
  pub stamp : FileStamp

pub record AutoReloadWatcher : Type 0 where
  pub config_path : Option FilePath
  pub config_stamp : Option FileStamp
  pub wallpaper_path : Option FilePath
  pub wallpaper_stamp : Option FileStamp
  pub theme_path : Option FilePath
  pub theme_stamp : Option FileStamp
  pub include_files : List WatchedFile
  pub pending : Option AutoReloadTrigger
  pub debounce_until : Option Instant

-- What a poll takes from the loaded configuration, with the paths that it resolves to.
pub record Targets : Type 0 where
  pub config_path : Option FilePath
  pub wallpaper_path : Option FilePath
  pub theme_path : Option FilePath
  pub include_paths : List FilePath
  pub auto_reload_config : Bool
  pub auto_reload_debounce_ms : ℕ

-- `.clamp(MIN_AUTO_RELOAD_DEBOUNCE_MS, MAX_AUTO_RELOAD_DEBOUNCE_MS)`
unfoldable pub effective_auto_reload_debounce_ms : ℕ → ℕ
effective_auto_reload_debounce_ms ms = min (max ms 250) 5000

unfoldable pub sync_path :
    Option FilePath
    → Option FileStamp
    → Option FilePath
    → (FilePath → FileStamp)
    → Option FilePath × Option FileStamp
sync_path current_path current_stamp next read_stamp =
    if eq_option current_path next
    then (current_path, current_stamp)
    else (next, Option.map read_stamp next)

unfoldable pub paths_of : List WatchedFile → List FilePath
paths_of [] = []
paths_of (file ∷ files) = file.path ∷ paths_of files

unfoldable pub stamped : Filesystem → List FilePath → List WatchedFile
stamped fs [] = []
stamped fs (path ∷ paths) =
    record { path = path; stamp = read_with_content_hash fs path } ∷ stamped fs paths

unfoldable pub sync_paths : Filesystem → List WatchedFile → List FilePath → List WatchedFile
unfolding paths_of stamped
sync_paths fs current_files next_paths =
    if eq_paths (paths_of current_files) next_paths then current_files else stamped fs next_paths

unfoldable pub sync_targets : Filesystem → Targets → AutoReloadWatcher → AutoReloadWatcher
unfolding sync_path sync_paths
sync_targets fs targets w =
    let c =
      sync_path w.config_path w.config_stamp targets.config_path (read_with_content_hash fs) in
    let p = sync_path w.wallpaper_path w.wallpaper_stamp targets.wallpaper_path (read fs) in
    let t = sync_path w.theme_path w.theme_stamp targets.theme_path (read_with_content_hash fs) in
    record w {
      config_path = c.0;
      config_stamp = c.1;
      wallpaper_path = p.0;
      wallpaper_stamp = p.1;
      theme_path = t.0;
      theme_stamp = t.1;
      include_files = sync_paths fs w.include_files targets.include_paths;
    }

unfoldable pub new : Filesystem → Targets → AutoReloadWatcher
unfolding sync_targets
new fs targets = sync_targets fs targets (record {
  config_path = none;
  config_stamp = none;
  wallpaper_path = none;
  wallpaper_stamp = none;
  theme_path = none;
  theme_stamp = none;
  include_files = [];
  pending = none;
  debounce_until = none;
})

unfoldable pub is_stamp : Option FileStamp → FileStamp → Bool
unfolding eq_stamp
is_stamp none stamp = false
is_stamp (some s) stamp = eq_stamp s stamp

-- One file of a poll: its stamp, and the last change that was found.
unfoldable pub check_file :
    Option FilePath
    → Option FileStamp
    → (FilePath → FileStamp)
    → AutoReloadTrigger
    → Option AutoReloadTrigger
    → Option FileStamp × Option AutoReloadTrigger
unfolding is_stamp
check_file none stamp read_stamp trigger changed = (stamp, changed)
check_file (some path) stamp read_stamp trigger changed =
    if is_stamp stamp (read_stamp path)
    then (stamp, changed)
    else (some (read_stamp path), some trigger)

unfoldable pub check_includes :
    Filesystem
    → List WatchedFile
    → Option AutoReloadTrigger
    → List WatchedFile × Option AutoReloadTrigger
unfolding eq_stamp
check_includes fs [] changed = ([], changed)
check_includes fs (file ∷ files) changed =
    let stamp = read_with_content_hash fs file.path in
    let same = eq_stamp file.stamp stamp in
    let (rest, found) = check_includes fs files (if same then changed else some include) in
    ((if same then file else record file { stamp = stamp }) ∷ rest, found)

-- Wallpaper, theme and includes, only if the configuration asks for it.
unfoldable pub check_others :
    Filesystem
    → AutoReloadWatcher
    → Option AutoReloadTrigger
    → AutoReloadWatcher × Option AutoReloadTrigger
unfolding check_file check_includes
check_others fs w changed =
    let p = check_file w.wallpaper_path w.wallpaper_stamp (read fs) wallpaper changed in
    let t = check_file w.theme_path w.theme_stamp (read_with_content_hash fs) theme p.1 in
    let i = check_includes fs w.include_files t.1 in
    (record w { wallpaper_stamp = p.0; theme_stamp = t.0; include_files = i.0 }, i.1)

unfoldable pub detect :
    Filesystem → Targets → AutoReloadWatcher → AutoReloadWatcher × Option AutoReloadTrigger
unfolding check_file check_others
detect fs targets w =
    let c = check_file w.config_path w.config_stamp (read_with_content_hash fs) config none in
    let q = record w { config_stamp = c.0 } in
    if targets.auto_reload_config then check_others fs q c.1 else (q, c.1)

unfoldable pub fire :
    Option AutoReloadTrigger
    → Option Instant
    → Instant
    → AutoReloadWatcher
    → AutoReloadWatcher × Option AutoReloadTrigger
fire (some trigger) (some deadline) now w =
    if leb deadline now
    then (record w { pending = none; debounce_until = none }, some trigger)
    else (w, none)
fire _ _ now w = (w, none)

unfoldable pub debounce :
    Targets
    → Instant
    → AutoReloadWatcher × Option AutoReloadTrigger
    → AutoReloadWatcher × Option AutoReloadTrigger
unfolding fire effective_auto_reload_debounce_ms
debounce targets now (w, some trigger) = (
  record w {
    pending = some trigger;
    debounce_until =
        some
          (now + from_millis (effective_auto_reload_debounce_ms targets.auto_reload_debounce_ms));
  },
  none,
)
debounce targets now (w, none) = fire w.pending w.debounce_until now w

-- `now` is the one time that a poll reads.
unfoldable pub poll :
    Filesystem
    → Targets
    → Instant
    → AutoReloadWatcher
    → AutoReloadWatcher × Option AutoReloadTrigger
unfolding debounce detect sync_targets
poll fs targets now w = debounce targets now (detect fs targets (sync_targets fs targets w))
