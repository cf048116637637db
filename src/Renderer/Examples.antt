-- ===== src/Renderer/Examples.antt =====
-- The renderer on concrete inputs.
use veila.Prelude.{
  ℕ, zero, suc, ◌+◌, ◌-◌, ◌≤◌, ◌≡◌, refl, ap, subst, Bool, true, false, ◌&&◌, Option, none, some,
  List, [], ◌∷◌, ◌++◌, map, arith, if◌then◌else◌, some_inj, length, length-append, nat_eq,
}
use Prim.{Unit, tt}
use veila.Int.{pos, negsuc, ◌+ℤ◌}
use veila.Renderer.{FrameSize, Result, ok}
use veila.Renderer.Rect.{Rect, contains, sides_fit, clipped_to}
use veila.Renderer.Rect.Intersection.{within, clipped_to-contains}
use veila.Renderer.Shm.{RawPool, BufferSlot, SurfaceBufferPool, compacted}
use veila.Renderer.Shm.Compaction.{goes_on, all_released, compacted-ends}
use veila.Renderer.Shm.Valid.{IsValid, Sound}
use veila.Renderer.Shm.Placement.{Presented}
use veila.Renderer.Shm.Drawing.{render_buffer, render_buffer_region}
use veila.Renderer.Shm.Frames.{render_buffer-Presented, RegionDone, render_buffer_region-RegionDone}
use veila.Renderer.Pixels.{ClearColor, Pixel, SoftwareBuffer, clear, blend_from}
use veila.Renderer.Pixels.Blending.{IsPremultiplied, AllPremultiplied, blend_from-AllPremultiplied}
use veila.Renderer.Pixels.Opacity.{AllOpaque, layered, clear-stays_opaque}
use veila.Renderer.Cache.{
  RenderCachePrunePolicy, PruneEntry, DirEntry, Removal, file_removed, empty_report, total, insert,
  sort_by_modified, Pruned, scan, scan_entry, scan_metadata, scan_file, and_scan, keep_some, keep,
  too_old, time_of, prune_render_cache_at, prune_directory, shrink_scanned, shrink, after,
  remove_pruned_file, removal_report,
}
use veila.Renderer.Pixels.{eq_size}
use veila.Renderer.Cache.Format.{stored, load_cached_buffer, load_cached_buffer-stored}
use veila.Renderer.Cache.Pruning.{Bounded, IsSorted, prune-keeps_bound}

-- A rectangle that begins left of the buffer.
abbrev half_outside : Rect
half_outside = record { x = negsuc 1; y = pos 1; width = pos 5; height = pos 9 }

clipped_to-contains_example :
    contains (clipped_to half_outside (pos 4) (pos 6)) (pos 2) (pos 5)
    ≡ contains half_outside (pos 2) (pos 5)
      && (within (pos 2) (pos 0) (pos 4) && within (pos 5) (pos 0) (pos 6))
unfolding ◌+ℤ◌
clipped_to-contains_example =
    clipped_to-contains half_outside (pos 4) (pos 6) (pos 2) (pos 5)
      ((omega arith, omega arith), (omega arith, omega arith)) (omega arith, omega arith)
      (omega arith, omega arith)

-- A resize that fills a bigger mapping with zeros.
abbrev zeros : ℕ → List ℕ
zeros zero = []
zeros (suc n) = 0 ∷ zeros n

length-zeros : (n : ℕ) → length (zeros n) ≡ n
length-zeros zero = refl
length-zeros (suc n) = ap suc (length-zeros n)

abbrev extend : ℕ → RawPool (Unit {0}) → RawPool (Unit {0}) × Bool
extend n r = (record r { mmap = r.mmap ++ zeros (n - length (r.mmap)) }, true)

extend-fits :
    (n : ℕ) (r : RawPool (Unit {0})) → (extend n r).1 ≡ true → n ≤ length ((extend n r).0.mmap)
extend-fits n r h = omega (
  arith,
  length-append (r.mmap) (zeros (n - length (r.mmap))),
  length-zeros (n - length (r.mmap)),
)

extend-grows : (n : ℕ) (r : RawPool (Unit {0})) → length (r.mmap) ≤ length ((extend n r).0.mmap)
extend-grows n r = omega (arith, length-append (r.mmap) (zeros (n - length (r.mmap))))

abbrev one_pixel : FrameSize
one_pixel = record { width = 1; height = 1 }

abbrev fresh_pool : SurfaceBufferPool (Unit {0})
fresh_pool = record {
  pool = record { handle = tt; mmap = [] };
  slot_len = 4;
  slots = [];
  next_slot = 0;
  arcs = 0;
  sent = [];
}

fresh_pool-IsValid : IsValid fresh_pool
fresh_pool-IsValid = (omega arith, omega arith, omega arith)

abbrev paint : List ℕ → List ℕ × Result {0} Unit
paint bytes = (map (λ _. 7) bytes, ok tt)

abbrev paint_region : List ℕ → List ℕ × Result (Option Rect)
paint_region bytes = (map (λ _. 7) bytes, ok none)

render_buffer-Presented_example :
    Sound IsValid
      (λ q _. IsValid q × Presented one_pixel q)
      (render_buffer extend one_pixel (pos 1) paint fresh_pool)
render_buffer-Presented_example =
    render_buffer-Presented extend extend-fits extend-grows one_pixel (pos 1) paint fresh_pool
      (λ _ h. ground (arith, h)) fresh_pool-IsValid

render_buffer_region-RegionDone_example :
    Sound IsValid
      (λ q _. IsValid q × RegionDone one_pixel half_outside paint_region q)
      (render_buffer_region extend one_pixel (pos 1) half_outside paint_region fresh_pool)
unfolding sides_fit ◌+ℤ◌
render_buffer_region-RegionDone_example =
    render_buffer_region-RegionDone extend extend-fits extend-grows one_pixel (pos 1) half_outside
      paint_region fresh_pool (λ _ h. ground (arith, h)) refl fresh_pool-IsValid

abbrev slot_of : Bool → ℕ → BufferSlot
slot_of r n = record { arc = n; released = r; buffer = none }

abbrev two_slots : List BufferSlot
two_slots = slot_of true 0 ∷ slot_of true 1 ∷ []

compacted-ends_example :
    (goes_on (compacted (length two_slots) two_slots) ≡ false)
    × (compacted (length two_slots + 3) two_slots ≡ compacted (length two_slots) two_slots)
    × ((gone : List BufferSlot) × (compacted (length two_slots) two_slots ++ gone ≡ two_slots)
        × (all_released gone ≡ true))
compacted-ends_example = compacted-ends two_slots 3

abbrev dark : Pixel
dark = record { blue = 10; green = 20; red = 30; alpha = 255 }

abbrev veil : Pixel
veil = record { blue = 0; green = 60; red = 100; alpha = 128 }

abbrev buffer_of : Pixel → SoftwareBuffer
buffer_of p = record { size = one_pixel; pixels = p ∷ [] }

single-AllPremultiplied : (q : Pixel) → IsPremultiplied q → AllPremultiplied (q ∷ [])
single-AllPremultiplied q k zero p h = subst IsPremultiplied (some_inj q p h) k
single-AllPremultiplied q k (suc i) p h = absurd (ground (arith, h))

blend_from-AllPremultiplied_example :
    AllPremultiplied ((blend_from (buffer_of dark) (buffer_of veil)).0.pixels)
blend_from-AllPremultiplied_example =
    blend_from-AllPremultiplied (buffer_of dark) (buffer_of veil)
      (single-AllPremultiplied dark (omega arith, omega arith, omega arith, omega arith))
      (single-AllPremultiplied veil (omega arith, omega arith, omega arith, omega arith))

abbrev navy : ClearColor
navy = record { red = 0; green = 10; blue = 80; alpha = 255 }

clear-stays_opaque_example :
    AllOpaque
      ((layered (clear navy (buffer_of veil)) (buffer_of veil ∷ buffer_of dark ∷ [])).pixels)
clear-stays_opaque_example =
    clear-stays_opaque navy (buffer_of veil) (buffer_of veil ∷ buffer_of dark ∷ []) refl
      ((omega arith, tt), ((omega arith, tt), tt))

abbrev policy : RenderCachePrunePolicy
policy = record { max_bytes = 15; max_age = 1000 }

abbrev file_of : ℕ → ℕ → DirEntry ℕ
file_of name time = record {
  path = name;
  is_argb = true;
  metadata = some (record { is_file = true; len = 10; modified = some time });
}

abbrev entry_of : ℕ → ℕ → PruneEntry ℕ
entry_of name time = record { path = name; byte_len = 10; modified = time }

abbrev listed : List (Option (DirEntry ℕ))
listed = some (file_of 1 90) ∷ some (file_of 2 50) ∷ []

abbrev always : ℕ → Removal
always _ = file_removed

abbrev young : Pruned ℕ
young = record {
  report = record empty_report { scanned_files = 2 };
  kept = entry_of 1 90 ∷ entry_of 2 50 ∷ [];
}

abbrev after_pruning : Pruned ℕ
after_pruning = record {
  report = record { scanned_files = 2; removed_files = 1; removed_bytes = 10; retained_bytes = 10 };
  kept = entry_of 1 90 ∷ [];
}

prune-keeps_bound_example :
    Bounded policy (sort_by_modified (young.kept)) after_pruning
    × IsSorted (sort_by_modified (young.kept))
unfolding scan scan_entry scan_metadata scan_file and_scan keep_some keep too_old time_of total
    prune_render_cache_at prune_directory shrink_scanned shrink after remove_pruned_file
    removal_report sort_by_modified insert
prune-keeps_bound_example =
    prune-keeps_bound always policy 100 listed young after_pruning refl (omega arith) refl

abbrev four_bytes : List ℕ
four_bytes = 3 ∷ 7 ∷ 0 ∷ 255 ∷ []

load_cached_buffer-stored_example :
    load_cached_buffer one_pixel (some (stored one_pixel four_bytes))
    ≡ (if eq_size one_pixel one_pixel then ok (some four_bytes) else ok none)
load_cached_buffer-stored_example =
    load_cached_buffer-stored one_pixel one_pixel four_bytes (omega arith) (omega arith) refl
      (omega arith)
