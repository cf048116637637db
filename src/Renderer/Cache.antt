-- ===== src/Renderer/Cache.antt =====
-- Pruning the cache of rendered backgrounds: crates/renderer/src/background/render_cache.rs. What
-- the directory holds and what `remove_file` answers for a path are arguments; times are numbers.
use veila.Prelude.{
  ℕ, zero, suc, ◌+◌, ◌-◌, ◌*◌, ◌/◌, ◌%◌, ◌^◌, ◌≤◌, ◌<◌, min, max, ◌≡◌, refl, sym, ap, subst, ◌∙◌,
  ◌≢◌, ◌↔◌, ◌⊎◌, inl, inr, Bool, true, false, not, ◌&&◌, ◌||◌, Option, none, some, List, [], ◌∷◌,
  ◌++◌, map, arith, ltb, leb, ◌==◌, if◌then◌else◌, ltb→lt, lt→ltb, leb→le, Bool-cases, and_parts,
  le→leb, lt→not_leb, le→not_ltb, not_ltb→le, branches, if_true, if_false, some_inj, List-cases,
  Option-cases, is_some, or_else, length, get_elem?, get_elem?-some, length-append, set, is_empty,
  length-set, nat_eq, PartialEq, eq_option, eq_option_iff,
}
use veila.Clock.{saturating_add_u64, u64_max}
use veila.Renderer.{RendererError, io, image, Result, ok, err, panicked}
pub mod Format
pub mod Pruning

pub record RenderCachePrunePolicy : Type 0 where
  pub max_bytes : ℕ
  pub max_age : ℕ

pub record RenderCachePruneReport : Type 0 where
  pub scanned_files : ℕ
  pub removed_files : ℕ
  pub removed_bytes : ℕ
  pub retained_bytes : ℕ

pub record PruneEntry (PathBuf : Type 0) : Type 0 where
  pub path : PathBuf
  pub byte_len : ℕ
  pub modified : ℕ

-- A file whose time cannot be read has none.
pub record Metadata : Type 0 where
  pub is_file : Bool
  pub len : ℕ
  pub modified : Option ℕ

-- An entry of the directory; its metadata may not be readable.
pub record DirEntry (PathBuf : Type 0) : Type 0 where
  pub path : PathBuf
  pub is_argb : Bool
  pub metadata : Option Metadata

-- An entry itself may not be readable either.
pub data ReadDir (PathBuf : Type 0) : Type 0 where
  entries : List (Option (DirEntry PathBuf)) → ReadDir PathBuf
  dir_not_found : ReadDir PathBuf
  dir_failed : ReadDir PathBuf

pub data Removal : Type 0 where
  file_removed : Removal
  file_not_found : Removal
  file_failed : Removal

abbrev pub empty_report : RenderCachePruneReport
empty_report = record {
  scanned_files = 0;
  removed_files = 0;
  removed_bytes = 0;
  retained_bytes = 0;
}

unfoldable pub total : {PathBuf : Type 0} → List (PruneEntry PathBuf) → ℕ
total [] = 0
total (e ∷ rest) = e.byte_len + total rest

-- `sort_by_key`, which is stable.
unfoldable pub insert :
    {PathBuf : Type 0} → PruneEntry PathBuf → List (PruneEntry PathBuf) → List (PruneEntry PathBuf)
insert e [] = e ∷ []
insert e (f ∷ rest) =
    let later = insert e rest in if leb (e.modified) (f.modified) then e ∷ f ∷ rest else f ∷ later

unfoldable pub sort_by_modified :
    {PathBuf : Type 0} → List (PruneEntry PathBuf) → List (PruneEntry PathBuf)
sort_by_modified [] = []
sort_by_modified (e ∷ rest) = insert e (sort_by_modified rest)

unfoldable pub removal_report : Removal → ℕ → RenderCachePruneReport → Result RenderCachePruneReport
removal_report file_removed len report = ok (record report {
  removed_files = report.removed_files + 1;
  removed_bytes = saturating_add_u64 (report.removed_bytes) len;
})
removal_report file_not_found len report = ok report
removal_report file_failed len report = err io

-- The time of a file, and whether it is older than the policy allows at `now`.
unfoldable pub time_of : Option ℕ → ℕ
time_of none = 0
time_of (some t) = t

unfoldable pub too_old : RenderCachePrunePolicy → ℕ → ℕ → Bool
too_old policy now modified = leb modified now && ltb (policy.max_age) (now - modified)

-- What is left when the loops are done: the report, and the files that stay.
pub record Pruned (PathBuf : Type 0) : Type 0 where
  pub report : RenderCachePruneReport
  pub kept : List (PruneEntry PathBuf)

-- `?` on the removal of a file, then the rest of a loop.
unfoldable pub after {ℓ} :
    {B : Type ℓ} → Result RenderCachePruneReport → (RenderCachePruneReport → Result B) → Result B
after (ok r) next = next r
after (err e) next = err e
after panicked next = panicked

-- An entry that has been looked at.
pub record Scanned (PathBuf : Type 0) : Type 0 where
  pub report : RenderCachePruneReport
  pub stays : Option (PruneEntry PathBuf)

unfoldable pub and_scan :
    {PathBuf : Type 0}
    → Result (Scanned PathBuf)
    → (Scanned PathBuf → Result (Pruned PathBuf))
    → Result (Pruned PathBuf)
and_scan (ok s) next = next s
and_scan (err e) next = err e
and_scan panicked next = panicked

unfoldable pub keep :
    {PathBuf : Type 0} → PruneEntry PathBuf → Result (Pruned PathBuf) → Result (Pruned PathBuf)
keep e (ok p) = ok (record p { kept = e ∷ p.kept })
keep e (err f) = err f
keep e panicked = panicked

unfoldable pub keep_some :
    {PathBuf : Type 0}
    → Option (PruneEntry PathBuf)
    → Result (Pruned PathBuf)
    → Result (Pruned PathBuf)
keep_some none r = r
keep_some (some e) r = keep e r

module _ {PathBuf : Type 0} (remove_file : PathBuf → Removal) (policy : RenderCachePrunePolicy)
    (now : ℕ) where
  unfoldable pub remove_pruned_file :
      PathBuf → ℕ → RenderCachePruneReport → Result RenderCachePruneReport
  remove_pruned_file path len report = removal_report (remove_file path) len report

  -- What the first loop does with an entry: a file that stays is given on.
  unfoldable pub scan_file : PathBuf → Metadata → RenderCachePruneReport → Result (Scanned PathBuf)
  scan_file path meta report =
      let counted = record report { scanned_files = report.scanned_files + 1 } in
      let time = time_of (meta.modified) in
      if not (meta.is_file)
      then ok (record { report = report; stays = none })
      else if too_old policy now time
      then after (remove_pruned_file path (meta.len) counted)
          (λ r. ok (record { report = r; stays = none }))
      else ok (record {
        report = counted;
        stays = some (record { path = path; byte_len = meta.len; modified = time });
      })

  unfoldable pub scan_metadata :
      PathBuf → Option Metadata → RenderCachePruneReport → Result (Scanned PathBuf)
  scan_metadata path none report = err io
  scan_metadata path (some meta) report = scan_file path meta report

  unfoldable pub scan_entry : DirEntry PathBuf → RenderCachePruneReport → Result (Scanned PathBuf)
  scan_entry d report =
      if d.is_argb
      then scan_metadata (d.path) (d.metadata) report
      else ok (record { report = report; stays = none })

  unfoldable pub scan :
      List (Option (DirEntry PathBuf)) → RenderCachePruneReport → Result (Pruned PathBuf)
  scan [] report = ok (record { report = report; kept = [] })
  scan (none ∷ rest) report = err io
  scan (some d ∷ rest) report =
      and_scan (scan_entry d report) (λ s. keep_some (s.stays) (scan rest (s.report)))

  -- The second loop: the files in the order of their times, the bytes that are still there.
  unfoldable pub shrink :
      List (PruneEntry PathBuf) → ℕ → RenderCachePruneReport → Result (Pruned PathBuf)
  shrink [] retained_bytes report =
      ok (record { report = record report { retained_bytes = retained_bytes }; kept = [] })
  shrink (e ∷ rest) retained_bytes report =
      if leb retained_bytes (policy.max_bytes)
      then ok
          (record { report = record report { retained_bytes = retained_bytes }; kept = e ∷ rest })
      else after (remove_pruned_file (e.path) (e.byte_len) report)
          (λ r. shrink rest (retained_bytes - e.byte_len) r)

  -- Both loops; the sum of the lengths is one of 64 bits.
  unfoldable pub shrink_scanned : Result (Pruned PathBuf) → Result (Pruned PathBuf)
  shrink_scanned (ok p) =
      shrink (sort_by_modified (p.kept)) (total (p.kept) % 18446744073709551616) (p.report)
  shrink_scanned (err e) = err e
  shrink_scanned panicked = panicked

  unfoldable pub prune_directory : ReadDir PathBuf → Result (Pruned PathBuf)
  prune_directory (entries ds) = shrink_scanned (scan ds empty_report)
  prune_directory dir_not_found = ok (record { report = empty_report; kept = [] })
  prune_directory dir_failed = err io

  -- There is no directory to look in when neither variable of the environment is set.
  unfoldable pub prune_render_cache_at : Option (ReadDir PathBuf) → Result (Pruned PathBuf)
  prune_render_cache_at none = err image
  prune_render_cache_at (some dir) = prune_directory dir
