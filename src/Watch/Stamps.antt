-- ===== src/Watch/Stamps.antt =====
-- Each part of a poll finds no change if it follows another one.
use veila.Prelude.{
  ℕ, ◌≡◌, refl, ap, ◌∙◌, Bool, true, false, Option, none, some, List, [], ◌∷◌, arith, ◌==◌,
  if◌then◌else◌, branches, if_true, nat_eq, eq_option, eq_option_iff,
}
use veila.Background.{FilePath, eq_paths}
use veila.Watch.{
  AutoReloadTrigger, include, FileStamp, Filesystem, read_with_content_hash, eq_bool, eq_stamp,
  WatchedFile, sync_path, paths_of, stamped, sync_paths, is_stamp, check_file, check_includes,
}

eq_option_refl : (o : Option ℕ) → eq_option o o ≡ true
eq_option_refl o = (eq_option_iff o o).1 refl

eq_nat_refl : (n : ℕ) → (n == n) ≡ true
eq_nat_refl n = ground arith

eq_bool_refl : (b : Bool) → eq_bool b b ≡ true
unfolding eq_bool
eq_bool_refl true = refl
eq_bool_refl false = refl

eq_stamp_refl : (s : FileStamp) → eq_stamp s s ≡ true
unfolding eq_stamp
eq_stamp_refl s = rw (
  eq_bool_refl s.exists,
  eq_option_refl s.modified,
  eq_nat_refl s.len,
  eq_option_refl s.content_hash,
)

eq_paths_refl : (ps : List FilePath) → eq_paths ps ps ≡ true
eq_paths_refl [] = refl
eq_paths_refl (p ∷ ps) = rw (eq_nat_refl p) (eq_paths_refl ps)

pub sync_path-path :
    (path : Option FilePath) (stamp : Option FileStamp) (next : Option FilePath)
    (read_stamp : FilePath → FileStamp)
    → (sync_path path stamp next read_stamp).0 ≡ next
unfolding sync_path
sync_path-path path stamp next read_stamp =
    branches (λ (r : Option FilePath × Option FileStamp). r.0 ≡ next) (eq_option path next) _ _
      (λ e. (eq_option_iff path next).0 e) (λ _. refl)

pub sync_path-again :
    (path : Option FilePath) (stamp : Option FileStamp) (next : Option FilePath)
    (read_stamp : FilePath → FileStamp)
    → path ≡ next
    → sync_path path stamp next read_stamp ≡ (path, stamp)
unfolding sync_path
sync_path-again path stamp next read_stamp e =
    if_true (eq_option path next) _ _ ((eq_option_iff path next).1 e)

paths_of-stamped : (fs : Filesystem) (ps : List FilePath) → paths_of (stamped fs ps) ≡ ps
unfolding paths_of stamped
paths_of-stamped fs [] = refl
paths_of-stamped fs (p ∷ ps) = ap (λ l. p ∷ l) (paths_of-stamped fs ps)

pub sync_paths-paths :
    (fs : Filesystem) (files : List WatchedFile) (next : List FilePath)
    → eq_paths (paths_of (sync_paths fs files next)) next ≡ true
unfolding sync_paths
sync_paths-paths fs files next =
    branches (λ (l : List WatchedFile). eq_paths (paths_of l) next ≡ true)
      (eq_paths (paths_of files) next) files (stamped fs next) (λ e. e)
      (λ _. ap (λ l. eq_paths l next) (paths_of-stamped fs next) ∙ eq_paths_refl next)

pub check_file-again :
    (path : Option FilePath) (stamp : Option FileStamp) (read_stamp : FilePath → FileStamp)
    (trigger : AutoReloadTrigger) (changed : Option AutoReloadTrigger)
    → let seen = (check_file path stamp read_stamp trigger changed).0 in
      check_file path seen read_stamp trigger none ≡ (seen, none)
unfolding check_file is_stamp
check_file-again none stamp read_stamp trigger changed = refl
check_file-again (some p) stamp read_stamp trigger changed =
    branches
      (λ (r : Option FileStamp × Option AutoReloadTrigger).
        check_file (some p) r.0 read_stamp trigger none ≡ (r.0, none))
      (is_stamp stamp (read_stamp p)) _ _ (λ e. if_true (is_stamp stamp (read_stamp p)) _ _ e)
      (λ _. if_true (eq_stamp (read_stamp p) (read_stamp p)) _ _ (eq_stamp_refl (read_stamp p)))

seen_file : Filesystem → WatchedFile → WatchedFile
seen_file fs file =
    if eq_stamp file.stamp (read_with_content_hash fs file.path)
    then file
    else record file { stamp = read_with_content_hash fs file.path }

seen_file_same :
    (fs : Filesystem) (file : WatchedFile)
    → eq_stamp (seen_file fs file).stamp (read_with_content_hash fs (seen_file fs file).path) ≡ true
unfolding seen_file
seen_file_same fs file =
    branches (λ (f : WatchedFile). eq_stamp f.stamp (read_with_content_hash fs f.path) ≡ true)
      (eq_stamp file.stamp (read_with_content_hash fs file.path)) _ _ (λ e. e)
      (λ _. eq_stamp_refl (read_with_content_hash fs file.path))

pub check_includes-again :
    (fs : Filesystem) (files : List WatchedFile) (changed : Option AutoReloadTrigger)
    → let seen = (check_includes fs files changed).0 in check_includes fs seen none ≡ (seen, none)
unfolding check_includes seen_file
check_includes-again fs [] changed = refl
check_includes-again fs (file ∷ files) changed = rw (
  seen_file_same fs file,
  check_includes-again fs files
      (if eq_stamp file.stamp (read_with_content_hash fs file.path) then changed else some include),
)

pub check_includes-paths :
    (fs : Filesystem) (files : List WatchedFile) (changed : Option AutoReloadTrigger)
    → paths_of (check_includes fs files changed).0 ≡ paths_of files
unfolding check_includes paths_of
check_includes-paths fs [] changed = refl
check_includes-paths fs (file ∷ files) changed =
    let same = eq_stamp file.stamp (read_with_content_hash fs file.path) in
    let first =
      branches (λ (f : WatchedFile). f.path ≡ file.path) same file
        (record file { stamp = read_with_content_hash fs file.path }) (λ _. refl) (λ _. refl) in
    rw (check_includes-paths fs files (if same then changed else some include), first)
