-- ===== src/Renderer/Shm/Drawing.antt =====
-- Drawing in the pool of shared memory: `commit_buffer`, `render_buffer` and
-- `render_buffer_region` of crates/renderer/src/shm.rs.
use veila.Prelude.{
  ℕ, zero, suc, ◌+◌, ◌*◌, Bool, true, Option, none, some, List, [], ◌∷◌, ◌++◌, leb, ◌==◌,
  if◌then◌else◌, length, get_elem?, nat_eq,
}
use Prim.{Unit, tt}
use veila.Int.{ℤ, pos, as_i32, max_ℤ}
use veila.Renderer.{
  FrameSize, no_area, checked_mul, invalid_frame_size, empty_frame, Result, ok, err, panicked,
}
use veila.Renderer.Rect.{Rect, rect_is_empty, checked_clipped_to}
use veila.Renderer.Shm.{
  RawPool, WlBuffer, set_buffer_scale, attach, damage_buffer, commit, BufferSlot, SurfaceBufferPool,
  required_pool_len, modify, Run, and_then, next_buffer_slot,
}

unfoldable pub overwrite : List ℕ → List ℕ → List ℕ
overwrite [] bytes = bytes
overwrite (x ∷ new) [] = []
overwrite (x ∷ new) (b ∷ bytes) = x ∷ overwrite new bytes

-- Bytes written from an offset on.
unfoldable pub splice : ℕ → List ℕ → List ℕ → List ℕ
splice zero new bytes = overwrite new bytes
splice (suc offset) new [] = []
splice (suc offset) new (b ∷ bytes) = b ∷ splice offset new bytes

unfoldable pub prefix : ℕ → List ℕ → List ℕ
prefix zero bytes = []
prefix (suc n) [] = []
prefix (suc n) (b ∷ bytes) = b ∷ prefix n bytes

unfoldable pub window : ℕ → ℕ → List ℕ → List ℕ
window zero n bytes = prefix n bytes
window (suc offset) n [] = []
window (suc offset) n (b ∷ bytes) = window offset n bytes

abbrev pub wl_buffer : FrameSize → ℕ → ℕ → WlBuffer
wl_buffer size offset arc = record {
  offset = as_i32 offset;
  width = as_i32 (size.width);
  height = as_i32 (size.height);
  stride = as_i32 (size.width * 4);
  release = arc;
}

abbrev pub with_buffer : WlBuffer → BufferSlot → BufferSlot
with_buffer b slot = record slot { buffer = some b }

abbrev pub whole : FrameSize → Rect
whole size = record {
  x = pos 0;
  y = pos 0;
  width = as_i32 (size.width);
  height = as_i32 (size.height);
}

unfoldable pub or_panic : Option Rect → Result Rect
or_panic none = panicked
or_panic (some r) = ok r

-- The region that was drawn, or the damage within the frame; the sums of the latter may overflow.
unfoldable pub or_clipped : FrameSize → Rect → Option Rect → Result Rect
or_clipped size damage none =
    or_panic (checked_clipped_to damage (as_i32 (size.width)) (as_i32 (size.height)))
or_clipped size damage (some r) = ok r

-- What an operation does once its slot is known: its index, its offset, and what the frame needs.
abbrev pub Draw {ℓ} : Type ℓ → Type ℓ
Draw Handle = ℕ → ℕ → ℕ → SurfaceBufferPool Handle → Run Handle Unit

module _ {ℓ} {Handle : Type ℓ} where
  -- The buffer that is attached stays with its slot.
  unfoldable pub attached : ℤ → WlBuffer → Rect → ℕ → SurfaceBufferPool Handle → Run Handle Unit
  attached buffer_scale b damage index p = (
    record p {
      slots = modify index (with_buffer b) (p.slots);
      sent =
          p.sent
          ++ (set_buffer_scale (max_ℤ buffer_scale (pos 1))
              ∷ attach b
              ∷ damage_buffer (damage.x) (damage.y) (damage.width) (damage.height)
              ∷ commit
              ∷ []);
    },
    ok tt,
  )

  unfoldable pub present :
      FrameSize → ℤ → Rect → ℕ → ℕ → Option BufferSlot → SurfaceBufferPool Handle → Run Handle Unit
  present size scale damage offset index none p = (p, panicked)
  present size scale damage offset index (some slot) p =
      attached scale (wl_buffer size offset (slot.arc)) damage index p

  unfoldable pub submit : FrameSize → ℤ → Rect → ℕ → ℕ → SurfaceBufferPool Handle → Run Handle Unit
  submit size scale damage offset index p =
      present size scale damage offset index (get_elem? (p.slots) index) p

  -- Bytes in the place of those of a slot.
  unfoldable pub drawn : ℕ → List ℕ → SurfaceBufferPool Handle → SurfaceBufferPool Handle
  drawn offset bytes p = record p {
    pool = record (p.pool) { mmap = splice offset bytes (p.pool.mmap) };
  }

  -- What follows the drawing: a region that is empty sets its slot free again.
  unfoldable pub finish_region :
      FrameSize → ℤ → ℕ → ℕ → Rect → SurfaceBufferPool Handle → Run Handle Unit
  finish_region size scale offset index damaged p =
      if rect_is_empty damaged
      then (record p { slots = modify index (λ s. record s { released = true }) (p.slots) }, ok tt)
      else submit size scale damaged offset index p

  unfoldable pub at_offset :
      FrameSize → ℕ → Draw Handle → ℕ → Option ℕ → SurfaceBufferPool Handle → Run Handle Unit
  at_offset size len draw index none p = (p, err (invalid_frame_size size))
  at_offset size len draw index (some offset) p =
      if leb (offset + len) (length (p.pool.mmap)) then draw index offset len p else (p, panicked)

  -- A copy of the bytes of a buffer: `copy_from_slice` panics when the lengths differ.
  unfoldable pub copy_draw : FrameSize → ℤ → List ℕ → Draw Handle
  copy_draw size scale pixels index offset len p =
      if length pixels == len
      then submit size scale (whole size) offset index (drawn offset pixels p)
      else (p, panicked)

  -- `render` is given the bytes of the slot; it leaves others in their place, and answers.
  unfoldable pub render_draw : FrameSize → ℤ → (List ℕ → List ℕ × Result {0} Unit) → Draw Handle
  render_draw size scale render index offset len p =
      let r = render (window offset len (p.pool.mmap)) in
      and_then (drawn offset (r.0) p, r.1) (λ q _. submit size scale (whole size) offset index q)

  unfoldable pub region_draw :
      FrameSize → ℤ → Rect → (List ℕ → List ℕ × Result (Option Rect)) → Draw Handle
  region_draw size scale damage render index offset len p =
      let r = render (window offset len (p.pool.mmap)) in
      and_then (drawn offset (r.0) p, r.1)
        (λ q rendered.
          and_then (q, or_clipped size damage rendered)
            (λ q damaged. finish_region size scale offset index damaged q))

module _ {ℓ} {Handle : Type ℓ} (resize : ℕ → RawPool Handle → RawPool Handle × Bool) where
  unfoldable pub with_len :
      FrameSize → Draw Handle → Result ℕ → SurfaceBufferPool Handle → Run Handle Unit
  with_len size draw (ok len) p =
      and_then (next_buffer_slot resize size len p)
        (λ q index. at_offset size len draw index (checked_mul index len) q)
  with_len size draw (err e) p = (p, err e)
  with_len size draw panicked p = (p, panicked)

  -- What the three operations have in common.
  unfoldable pub on_slot : FrameSize → Draw Handle → SurfaceBufferPool Handle → Run Handle Unit
  on_slot size draw p =
      if no_area size then (p, err empty_frame) else with_len size draw (required_pool_len size) p

  unfoldable pub commit_buffer : FrameSize → List ℕ → ℤ → SurfaceBufferPool Handle → Run Handle Unit
  commit_buffer size pixels scale = on_slot size (copy_draw size scale pixels)

  unfoldable pub render_buffer :
      FrameSize
      → ℤ
      → (List ℕ → List ℕ × Result {0} Unit)
      → SurfaceBufferPool Handle
      → Run Handle Unit
  render_buffer size scale render = on_slot size (render_draw size scale render)

  unfoldable pub render_buffer_region :
      FrameSize
      → ℤ
      → Rect
      → (List ℕ → List ℕ × Result (Option Rect))
      → SurfaceBufferPool Handle
      → Run Handle Unit
  render_buffer_region size scale damage render =
      on_slot size (region_draw size scale damage render)
