-- ===== src/Renderer/Shm/Frames.antt =====
-- What drawing leaves in the pool: crates/renderer/src/shm.rs.
use veila.Prelude.{
  ℕ, ◌*◌, ◌≤◌, ◌≡◌, refl, sym, subst, ◌≢◌, ◌⊎◌, inl, inr, Bool, true, false, Option, none, some,
  List, [], ◌∷◌, ◌++◌, arith, ◌==◌, branches, if_true, length, get_elem?, get_elem?-some, nat_eq,
}
use Prim.{Unit, tt}
use veila.Int.{ℤ, pos, max_ℤ, as_i32}
use veila.Renderer.{FrameSize, Result, ok, err, panicked}
use veila.Renderer.Rect.{Rect, rect_is_empty, sides_fit, checked_clipped_to, clipped_to}
use veila.Renderer.Shm.{
  RawPool, SurfaceBufferPool, modify, Run, and_then, Request, set_buffer_scale, attach,
  damage_buffer, commit, WlBuffer, BufferSlot,
}
use veila.Renderer.Shm.Valid.{IsValid, Sound, length-modify}
use veila.Renderer.Shm.Drawing.{
  window, submit, whole, drawn, finish_region, or_clipped, copy_draw, render_draw, region_draw,
  commit_buffer, render_buffer, render_buffer_region, or_panic, present, attached, wl_buffer,
}
use veila.Renderer.Shm.Placement.{
  Presented, Placed, submit-Sound, drawn-Placed, on_slot-Sound, get_elem?-modify,
}

-- The last requests show a buffer, with this damage, which is not empty.
abbrev pub Damaged {ℓ} : {Handle : Type ℓ} → Rect → SurfaceBufferPool Handle → Type 0
Damaged d q =
    (before : List Request) × (scale : ℤ) × (b : WlBuffer) × (rect_is_empty d ≡ false)
    × (q.sent
        ≡ before
          ++ (set_buffer_scale scale
              ∷ attach b
              ∷ damage_buffer (d.x) (d.y) (d.width) (d.height)
              ∷ commit
              ∷ []))

-- A slot may be drawn in again.
abbrev pub HasReleased {ℓ} : {Handle : Type ℓ} → SurfaceBufferPool Handle → Type 0
HasReleased q =
    (index : ℕ) × (s : BufferSlot) × (get_elem? (q.slots) index ≡ some s) × (s.released ≡ true)

abbrev pub RegionShown {ℓ} :
    {Handle : Type ℓ} → FrameSize → Rect → SurfaceBufferPool Handle → Type 0
RegionShown size d q = (Presented size q × Damaged d q) ⊎ ((rect_is_empty d ≡ true) × HasReleased q)

-- The region to show: what the drawing names, or else the damage within the frame.
abbrev pub IsRegion : FrameSize → Rect → Option Rect → Rect → Type 0
IsRegion size damage none d = d ≡ clipped_to damage (as_i32 (size.width)) (as_i32 (size.height))
IsRegion size damage (some r) d = d ≡ r

abbrev pub RegionDone {ℓ} :
    {Handle : Type ℓ}
    → FrameSize
    → Rect
    → (List ℕ → List ℕ × Result (Option Rect))
    → SurfaceBufferPool Handle
    → Type 0
RegionDone size damage render q =
    (bytes : List ℕ) × (rendered : Option Rect) × ((render bytes).1 ≡ ok rendered)
    × ((d : Rect) × (IsRegion size damage rendered d) × (RegionShown size d q))

or_clipped-calm :
    (size : FrameSize) (damage : Rect) (rendered : Option Rect)
    → sides_fit damage ≡ true
    → or_clipped size damage rendered ≢ panicked
unfolding or_clipped or_panic checked_clipped_to
or_clipped-calm size damage none f h = ground arith
or_clipped-calm size damage (some r) f h = ground arith

or_clipped-IsRegion :
    (size : FrameSize) (damage : Rect) (rendered : Option Rect) (d : Rect)
    → sides_fit damage ≡ true
    → or_clipped size damage rendered ≡ ok d
    → IsRegion size damage rendered d
unfolding or_clipped or_panic checked_clipped_to
or_clipped-IsRegion size damage none d f h = ground arith
or_clipped-IsRegion size damage (some r) d f h = ground arith

module _ {ℓ} {Handle : Type ℓ} where
  both-Sound :
      (A B : SurfaceBufferPool Handle → Unit → Type 0) (m : Run Handle Unit)
      → Sound IsValid A m
      → Sound IsValid B m
      → Sound IsValid (λ q u. A q u × B q u) m
  unfolding Sound
  both-Sound A B (q, ok a) h k = (h, k)
  both-Sound A B (q, err e) h k = h
  both-Sound A B (q, panicked) h k = h

  weaker-Sound :
      (A B : SurfaceBufferPool Handle → Unit → Type 0) (m : Run Handle Unit)
      → ((q : SurfaceBufferPool Handle) (u : Unit) → A q u → B q u)
      → Sound IsValid A m
      → Sound IsValid B m
  unfolding Sound
  weaker-Sound A B (q, ok a) f h = f q a h
  weaker-Sound A B (q, err e) f h = h
  weaker-Sound A B (q, panicked) f h = h

  rendered-Sound :
      {A : Type 0}
      → (size : FrameSize) (index offset len : ℕ) (q : SurfaceBufferPool Handle) (r : Result A)
      → (next : SurfaceBufferPool Handle → A → Run Handle Unit)
      → (Done : SurfaceBufferPool Handle → Unit → Type 0) → r ≢ panicked
      → Placed size index offset len q
      → ((a : A) → r ≡ ok a → Sound IsValid Done (next q a))
      → Sound IsValid Done (and_then (q, r) next)
  unfolding and_then Sound
  rendered-Sound size index offset len q (ok a) next Done calm k h = h a refl
  rendered-Sound size index offset len q (err e) next Done calm (_, (v, _, _), _, _) h = v
  rendered-Sound size index offset len q panicked next Done calm k h = absurd (calm refl)

  submit-Damaged :
      (size : FrameSize) (scale : ℤ) (damage : Rect) (index offset len : ℕ)
      (q : SurfaceBufferPool Handle)
      → rect_is_empty damage ≡ false
      → Placed size index offset len q
      → Sound IsValid (λ r _. Damaged damage r) (submit size scale damage offset index q)
  unfolding submit present attached Sound
  submit-Damaged size scale damage index offset len q f (n, (v, e, l), o, b) =
      let (s, g) = get_elem?-some (q.slots) index l in
      rw (g) (q.sent, max_ℤ scale (pos 1), wl_buffer size offset (s.arc), f, refl)

  finish_region-Sound :
      (size : FrameSize) (scale : ℤ) (damaged : Rect) (index offset len : ℕ)
      (q : SurfaceBufferPool Handle)
      → Placed size index offset len q
      → Sound IsValid
          (λ r _. IsValid r × RegionShown size damaged r)
          (finish_region size scale offset index damaged q)
  unfolding finish_region Sound
  finish_region-Sound size scale damaged index offset len q k =
      let free : BufferSlot → BufferSlot = λ s. record s { released = true } in
      let freed : SurfaceBufferPool Handle = record q { slots = modify index free (q.slots) } in
      let (n, ((v, w, t), e, l), o, b) = k in
      let (s, g) = get_elem?-some (q.slots) index l in
      let m : length (freed.slots) ≡ length (q.slots) = length-modify index free (q.slots) in
      let valid : IsValid freed = (rw (m) v, rw (m) w, rw (m) t) in
      branches (λ r. Sound IsValid (λ r _. IsValid r × RegionShown size damaged r) r)
        (rect_is_empty damaged) (freed, ok tt) (submit size scale damaged offset index q)
        (λ e. (valid, inr (e, (index, free s, get_elem?-modify index free (q.slots) s g, refl))))
        (λ f.
          weaker-Sound (λ r _. (IsValid r × Presented size r) × Damaged damaged r)
            (λ r _. IsValid r × RegionShown size damaged r)
            (submit size scale damaged offset index q) (λ r _ ((a, b), c). (a, inl (b, c)))
            (both-Sound (λ r _. IsValid r × Presented size r) (λ r _. Damaged damaged r)
              (submit size scale damaged offset index q)
              (submit-Sound size scale damaged index offset len q k)
              (submit-Damaged size scale damaged index offset len q f k)))

module _ {ℓ} {Handle : Type ℓ} (resize : ℕ → RawPool Handle → RawPool Handle × Bool)
    (fits : (n : ℕ) (r : RawPool Handle) → (resize n r).1 ≡ true → n ≤ length ((resize n r).0.mmap))
    (grows : (n : ℕ) (r : RawPool Handle) → length (r.mmap) ≤ length ((resize n r).0.mmap)) where
  -- Drawing a frame does not panic, whatever its size and whatever the pool holds: after an error
  -- the pool is still valid, and after a success a slot holds a buffer of exactly that size, whose
  -- place, sides and stride are the exact numbers in `i32` and whose bytes lie in the mapping.
  -- This is for a pool that is valid, a drawing that does not itself panic, and a `resize` that
  -- never shrinks the mapping and after a success maps what was asked for.
  pub render_buffer-Presented :
      (size : FrameSize) (scale : ℤ) (render : List ℕ → List ℕ × Result {0} Unit)
      → (p : SurfaceBufferPool Handle) → ((bytes : List ℕ) → (render bytes).1 ≢ panicked)
      → IsValid p
      → Sound IsValid
          (λ q _. IsValid q × Presented size q)
          (render_buffer resize size scale render p)
  unfolding render_buffer render_draw
  render_buffer-Presented size scale render p calm h =
      on_slot-Sound resize fits grows size (render_draw size scale render) p
        (λ q _. IsValid q × Presented size q) h
        (λ index offset len q k.
          let bytes = window offset len (q.pool.mmap) in
          rendered-Sound size index offset len (drawn offset ((render bytes).0) q)
            ((render bytes).1) (λ q _. submit size scale (whole size) offset index q)
            (λ q _. IsValid q × Presented size q) (calm bytes)
            (drawn-Placed size index offset len ((render bytes).0) q k)
            (λ _ _.
              submit-Sound size scale (whole size) index offset len _
                (drawn-Placed size index offset len ((render bytes).0) q k)))

  -- Drawing a region does not panic either, whatever the size of the frame: after an error the pool
  -- is still valid, and after a success it is too. The region to show is then what the drawing
  -- names, or else the damage within the frame: if it is not empty, a slot holds a buffer of exactly
  -- that size that lies in the mapping, and the last requests have shown a buffer with that region as
  -- its damage; if it is empty, a slot is free to be drawn in again. This is for a pool that is valid, a drawing that
  -- does not itself panic, a damage whose sides end within `i32`, and a `resize` that never shrinks
  -- the mapping and after a success maps what was asked for.
  pub render_buffer_region-RegionDone :
      (size : FrameSize) (scale : ℤ) (damage : Rect)
      → (render : List ℕ → List ℕ × Result (Option Rect)) → (p : SurfaceBufferPool Handle)
      → ((bytes : List ℕ) → (render bytes).1 ≢ panicked)
      → sides_fit damage ≡ true
      → IsValid p
      → Sound IsValid
          (λ q _. IsValid q × RegionDone size damage render q)
          (render_buffer_region resize size scale damage render p)
  unfolding render_buffer_region region_draw
  render_buffer_region-RegionDone size scale damage render p calm f h =
      let Done : SurfaceBufferPool Handle → Unit → Type 0 =
        λ q _. IsValid q × RegionDone size damage render q in
      on_slot-Sound resize fits grows size (region_draw size scale damage render) p Done h
        (λ index offset len q k.
          let bytes = window offset len (q.pool.mmap) in
          let drew = drawn offset ((render bytes).0) q in
          let placed = drawn-Placed size index offset len ((render bytes).0) q k in
          rendered-Sound size index offset len drew ((render bytes).1)
            (λ q rendered.
              and_then (q, or_clipped size damage rendered)
                (λ q damaged. finish_region size scale offset index damaged q))
            Done (calm bytes) placed
            (λ rendered e.
              rendered-Sound size index offset len drew (or_clipped size damage rendered)
                (λ q damaged. finish_region size scale offset index damaged q) Done
                (or_clipped-calm size damage rendered f) placed
                (λ d c.
                  weaker-Sound (λ q _. IsValid q × RegionShown size d q) Done
                    (finish_region size scale offset index d drew)
                    (λ q _ (v, shown). (
                      v,
                      (
                        bytes,
                        rendered,
                        e,
                        (d, or_clipped-IsRegion size damage rendered d f c, shown),
                      ),
                    ))
                    (finish_region-Sound size scale d index offset len drew placed))))

  -- Copying a buffer whose bytes are as many as its size says does not panic either.
  pub commit_buffer-Presented :
      (size : FrameSize) (scale : ℤ) (pixels : List ℕ) (p : SurfaceBufferPool Handle)
      → length pixels ≡ size.width * size.height * 4
      → IsValid p
      → Sound IsValid
          (λ q _. IsValid q × Presented size q)
          (commit_buffer resize size pixels scale p)
  unfolding commit_buffer copy_draw
  commit_buffer-Presented size scale pixels p e h =
      on_slot-Sound resize fits grows size (copy_draw size scale pixels) p
        (λ q _. IsValid q × Presented size q) h
        (λ index offset len q k.
          subst (λ m. Sound IsValid (λ q _. IsValid q × Presented size q) m)
            (sym (
              if_true (length pixels == len)
                (submit size scale (whole size) offset index (drawn offset pixels q)) (q, panicked)
                (ground (arith, k.0.0))))
            (submit-Sound size scale (whole size) index offset len _
              (drawn-Placed size index offset len pixels q k)))
