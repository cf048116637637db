-- ===== src/Renderer/Cache/Pruning.antt =====
-- What a pruning leaves: crates/renderer/src/background/render_cache.rs.
use veila.Prelude.{
  ℕ, ◌+◌, ◌-◌, ◌%◌, ◌≤◌, ◌<◌, ◌≡◌, refl, sym, ap, subst, ◌∙◌, Option, some, List, [], ◌∷◌, ◌++◌,
  arith, leb, leb→le, branches, nat_eq,
}
use native.Mathlib.Nat.{mod-eq_of_lt}
use veila.Clock.{u64_max}
use veila.Renderer.{Result, ok, err, panicked}
use veila.Renderer.Cache.{
  RenderCachePrunePolicy, RenderCachePruneReport, PruneEntry, DirEntry, entries, Removal,
  empty_report, total, insert, sort_by_modified, Pruned, after, remove_pruned_file, scan, shrink,
  shrink_scanned, prune_directory, prune_render_cache_at,
}

module _ {PathBuf : Type 0} where
  -- From the oldest file to the newest.
  abbrev pub StartsAfter : ℕ → List (PruneEntry PathBuf) → Type 0
  StartsAfter t [] = 0 ≤ t
  StartsAfter t (e ∷ rest) = t ≤ e.modified

  abbrev pub IsSorted : List (PruneEntry PathBuf) → Type 0
  IsSorted [] = 0 ≤ 0
  IsSorted (e ∷ rest) = StartsAfter (e.modified) rest × IsSorted rest

  StartsAfter-insert :
      (t : ℕ) (e : PruneEntry PathBuf) (xs : List (PruneEntry PathBuf))
      → t ≤ e.modified
      → StartsAfter t xs
      → StartsAfter t (insert e xs)
  unfolding insert
  StartsAfter-insert t e [] h k = h
  StartsAfter-insert t e (f ∷ rest) h k = ground arith

  insert-IsSorted :
      (e : PruneEntry PathBuf) (xs : List (PruneEntry PathBuf))
      → IsSorted xs
      → IsSorted (insert e xs)
  unfolding insert
  insert-IsSorted e [] h = (omega arith, omega arith)
  insert-IsSorted e (f ∷ rest) (h, k) =
      branches IsSorted (leb (e.modified) (f.modified)) (e ∷ f ∷ rest) (f ∷ insert e rest)
        (λ c. (leb→le (e.modified) (f.modified) c, (h, k)))
        (λ c. (StartsAfter-insert (f.modified) e rest (ground arith) h, insert-IsSorted e rest k))

  sort-IsSorted : (xs : List (PruneEntry PathBuf)) → IsSorted (sort_by_modified xs)
  unfolding sort_by_modified
  sort-IsSorted [] = omega arith
  sort-IsSorted (e ∷ rest) = insert-IsSorted e (sort_by_modified rest) (sort-IsSorted rest)

  total-insert :
      (e : PruneEntry PathBuf) (xs : List (PruneEntry PathBuf))
      → total (insert e xs) ≡ e.byte_len + total xs
  unfolding insert total
  total-insert e [] = refl
  total-insert e (f ∷ rest) = ground (arith, total-insert e rest)

  total-sort : (xs : List (PruneEntry PathBuf)) → total (sort_by_modified xs) ≡ total xs
  unfolding sort_by_modified total
  total-sort [] = refl
  total-sort (e ∷ rest) = omega (arith, total-insert e (sort_by_modified rest), total-sort rest)

  -- The last of the files removed had to go: with it the others are too many bytes.
  abbrev pub Needed : ℕ → List (PruneEntry PathBuf) → List (PruneEntry PathBuf) → Type 0
  Needed bound [] kept = 0 ≤ bound
  Needed bound (e ∷ []) kept = bound < e.byte_len + total kept
  Needed bound (e ∷ f ∷ gone) kept = Needed bound (f ∷ gone) kept

  -- The files that stay are the newest ones, as few as possible have gone, and the report is right.
  abbrev pub Bounded : RenderCachePrunePolicy → List (PruneEntry PathBuf) → Pruned PathBuf → Type 0
  Bounded policy files p =
      (p.report.retained_bytes ≡ total (p.kept))
      × (total (p.kept) ≤ policy.max_bytes)
      × ((gone : List (PruneEntry PathBuf)) × (gone ++ p.kept ≡ files)
          × Needed (policy.max_bytes) gone (p.kept))

module _ {PathBuf : Type 0} (remove_file : PathBuf → Removal) (policy : RenderCachePrunePolicy)
    (now : ℕ) where
  Needed-more :
      (e : PruneEntry PathBuf) (gone kept : List (PruneEntry PathBuf))
      → policy.max_bytes < e.byte_len + total (gone ++ kept)
      → Needed (policy.max_bytes) gone kept
      → Needed (policy.max_bytes) (e ∷ gone) kept
  Needed-more e [] kept h k = h
  Needed-more e (f ∷ gone) kept h k = k

  after-ok :
      (r : Result RenderCachePruneReport) (next : RenderCachePruneReport → Result (Pruned PathBuf))
      (p : Pruned PathBuf)
      → after r next ≡ ok p
      → (report : RenderCachePruneReport) × (next report ≡ ok p)
  unfolding after
  after-ok (ok r) next p h = (r, h)
  after-ok (err e) next p h = absurd (ground (arith, h))
  after-ok panicked next p h = absurd (ground (arith, h))

  ok_inj : (p q : Pruned PathBuf) → ok p ≡ ok q → p ≡ q
  ok_inj p q h = ground (arith, h)

  shrink-Bounded :
      (xs : List (PruneEntry PathBuf)) (report : RenderCachePruneReport) (p : Pruned PathBuf)
      → shrink remove_file policy now xs (total xs) report ≡ ok p
      → Bounded policy xs p
  unfolding shrink total
  shrink-Bounded [] report p =
      λ h. subst (Bounded policy []) (ok_inj _ p h) (refl, omega arith, ([], refl, omega arith))
  shrink-Bounded (e ∷ rest) report p =
      branches (λ r. r ≡ ok p → Bounded policy (e ∷ rest) p)
        (leb (e.byte_len + total rest) (policy.max_bytes)) _ _
        (λ c h.
          subst (Bounded policy (e ∷ rest)) (ok_inj _ p h)
            (refl, ground arith, ([], refl, omega arith)))
        (λ c h.
          let (r, g) =
            after-ok (remove_pruned_file remove_file policy now (e.path) (e.byte_len) report)
              (λ r. shrink remove_file policy now rest (e.byte_len + total rest - e.byte_len) r) p
              h in
          let m : e.byte_len + total rest - e.byte_len ≡ total rest = omega arith in
          let (a, b, (gone, q, n)) =
            shrink-Bounded rest r p
              (subst (λ n. shrink remove_file policy now rest n r ≡ ok p) m g) in
          (
            a,
            b,
            (e ∷ gone, ap (λ xs. e ∷ xs) q, Needed-more e gone (p.kept) (rw (q) (ground arith)) n),
          ))

  -- A successful pruning of a directory keeps the bound: it ends with the bytes of the files that
  -- stay in its report, which are not more than the policy allows; what it removes of the files
  -- that are not too old, in the order of their times, are the oldest ones, and without the last
  -- of these removals the bound would not be kept. The lengths of the files are assumed to sum up
  -- to less than 2 ^ 64.
  pub prune-keeps_bound :
      (listed : List (Option (DirEntry PathBuf))) (young p : Pruned PathBuf)
      → scan remove_file policy now listed empty_report ≡ ok young
      → total (young.kept) ≤ u64_max
      → prune_render_cache_at remove_file policy now (some (entries listed)) ≡ ok p
      → Bounded policy (sort_by_modified (young.kept)) p × IsSorted (sort_by_modified (young.kept))
  unfolding prune_render_cache_at prune_directory shrink_scanned
  prune-keeps_bound listed young p e h k =
      let m : total (young.kept) % 18446744073709551616 ≡ total (sort_by_modified (young.kept)) =
        mod-eq_of_lt (omega arith) ∙ sym (total-sort (young.kept)) in
      let g : shrink_scanned remove_file policy now (ok young) ≡ ok p =
        subst (λ r. shrink_scanned remove_file policy now r ≡ ok p) e k in
      (
        shrink-Bounded (sort_by_modified (young.kept)) (young.report) p (
            subst
              (λ n.
                shrink remove_file policy now (sort_by_modified (young.kept)) n (young.report)
                ≡ ok p)
              m g),
        sort-IsSorted (young.kept),
      )
