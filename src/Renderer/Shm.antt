-- ===== src/Renderer/Shm.antt =====
-- The pool of shared memory that the frames of a surface are drawn in: crates/renderer/src/shm.rs.
-- `RawPool::resize` of the toolkit is an argument: what it leaves of the pool, and whether it
-- succeeded. The requests of the Wayland protocol are a list, in the order they are sent.
use veila.Prelude.{
  ℕ, zero, suc, ◌+◌, ◌-◌, ◌*◌, ◌/◌, ◌%◌, ◌^◌, ◌≤◌, ◌<◌, min, max, ◌≡◌, refl, sym, ap, subst, ◌∙◌,
  ◌≢◌, ◌↔◌, ◌⊎◌, inl, inr, Bool, true, false, not, ◌&&◌, ◌||◌, Option, none, some, List, [], ◌∷◌,
  ◌++◌, map, arith, ltb, leb, ◌==◌, if◌then◌else◌, ltb→lt, lt→ltb, leb→le, Bool-cases, and_parts,
  le→leb, lt→not_leb, le→not_ltb, not_ltb→le, branches, if_true, if_false, some_inj, List-cases,
  Option-cases, is_some, or_else, length, get_elem?, get_elem?-some, length-append, set, is_empty,
  length-set, nat_eq, PartialEq, eq_option, eq_option_iff,
}
use Prim.{Unit, tt}
use mathlib.Core.Option
use veila.Int.{ℤ, pos, as_i32, max_ℤ, i32_max}
use veila.Renderer.{
  FrameSize, no_area, checked_mul, byte_len, RendererError, invalid_frame_size, empty_frame, io,
  Result, ok, err, panicked, ok_or,
}
pub mod Compaction
pub mod Drawing
pub mod Placement
pub mod Frames
pub mod Valid

-- The mapping of the pool's file.
pub record RawPool {ℓ} (Handle : Type ℓ) : Type ℓ where
  pub handle : Handle
  pub mmap : List ℕ

-- `release` is the identity of the `Arc` that the buffer's release object writes to.
pub record WlBuffer : Type 0 where
  pub offset : ℤ
  pub width : ℤ
  pub height : ℤ
  pub stride : ℤ
  pub release : ℕ

pub data Request : Type 0 where
  set_buffer_scale : ℤ → Request
  attach : WlBuffer → Request
  damage_buffer : ℤ → ℤ → ℤ → ℤ → Request
  commit : Request
  destroy : WlBuffer → Request

-- The flag of a slot is shared with the release objects that carry the same `arc`.
pub record BufferSlot : Type 0 where
  pub arc : ℕ
  pub released : Bool
  pub buffer : Option WlBuffer

-- `arcs` counts the flags allocated so far, `sent` are the requests.
pub record SurfaceBufferPool {ℓ} (Handle : Type ℓ) : Type ℓ where
  pub pool : RawPool Handle
  pub slot_len : ℕ
  pub slots : List BufferSlot
  pub next_slot : ℕ
  pub arcs : ℕ
  pub sent : List Request

abbrev pub max_buffer_slots : ℕ
max_buffer_slots = 2

unfoldable pub mark : ℕ → BufferSlot → BufferSlot
mark arc slot = if arc == slot.arc then record slot { released = true } else slot

unfoldable pub required_pool_len : FrameSize → Result ℕ
required_pool_len size =
    if no_area size then err empty_frame else ok_or (invalid_frame_size size) (byte_len size)

-- The last slot is there and released.
unfoldable pub last_released : List BufferSlot → Bool
last_released [] = false
last_released (s ∷ []) = s.released
last_released (s ∷ t ∷ rest) = last_released (t ∷ rest)

unfoldable pub pop : List BufferSlot → List BufferSlot
pop [] = []
pop (s ∷ []) = []
pop (s ∷ t ∷ rest) = s ∷ pop (t ∷ rest)

-- The loop of `compact_released_slots`.
unfoldable pub compacted : ℕ → List BufferSlot → List BufferSlot
compacted zero slots = slots
compacted (suc fuel) slots =
    let rest = compacted fuel (pop slots) in
    if ltb 1 (length slots) && last_released slots then rest else slots

unfoldable pub find_released : List BufferSlot → Option ℕ
find_released [] = none
find_released (s ∷ rest) = if s.released then some 0 else Option.map suc (find_released rest)

unfoldable pub take_slot : BufferSlot → BufferSlot
take_slot slot = record slot { released = false; buffer = none }

-- A change of the slot at an index.
unfoldable pub modify : ℕ → (BufferSlot → BufferSlot) → List BufferSlot → List BufferSlot
modify i f [] = []
modify zero f (s ∷ rest) = f s ∷ rest
modify (suc i) f (s ∷ rest) = s ∷ modify i f rest

-- The destruction of the buffer that a slot holds.
unfoldable pub destroyed_buffer : Option WlBuffer → List Request
destroyed_buffer none = []
destroyed_buffer (some b) = destroy b ∷ []

unfoldable pub destroyed : Option BufferSlot → List Request
destroyed none = []
destroyed (some slot) = destroyed_buffer (slot.buffer)

-- What a call leaves, and its answer.
abbrev pub Run {ℓ} : Type ℓ → Type 0 → Type ℓ
Run Handle A = SurfaceBufferPool Handle × Result A

-- `?`: the next call, after a success.
unfoldable pub and_then {ℓ} :
    {Handle : Type ℓ} {A B : Type 0}
    → Run Handle A
    → (SurfaceBufferPool Handle → A → Run Handle B)
    → Run Handle B
and_then (p, ok a) next = next p a
and_then (p, err e) next = (p, err e)
and_then (p, panicked) next = (p, panicked)

unfoldable pub at_index {ℓ} : {Handle : Type ℓ} → ℕ → SurfaceBufferPool Handle → Run Handle ℕ
at_index index p = (record p { next_slot = (index + 1) % max (length (p.slots)) 1 }, ok index)

unfoldable pub mark_released {ℓ} :
    {Handle : Type ℓ} → ℕ → SurfaceBufferPool Handle → SurfaceBufferPool Handle
mark_released arc p = record p { slots = map (mark arc) (p.slots) }

module _ {ℓ} {Handle : Type ℓ} (resize : ℕ → RawPool Handle → RawPool Handle × Bool) where
  unfoldable pub resized : ℕ → SurfaceBufferPool Handle → Run Handle Unit
  resized n p =
      let q = resize n (p.pool) in (record p { pool = q.0 }, (if q.1 then ok tt else err io))

  unfoldable pub resized_to : FrameSize → Option ℕ → SurfaceBufferPool Handle → Run Handle Unit
  resized_to size none p = (p, err (invalid_frame_size size))
  resized_to size (some n) p = resized n p

  unfoldable pub compact_released_slots : FrameSize → ℕ → SurfaceBufferPool Handle → Run Handle Unit
  compact_released_slots size len p =
      let slots = compacted (length (p.slots)) (p.slots) in
      let next : ℕ = if is_empty slots then p.next_slot else p.next_slot % length slots in
      resized_to size (checked_mul len (max (length slots) 1))
        (record p { slots = slots; next_slot = next })

  unfoldable pub reset : ℕ → SurfaceBufferPool Handle → Run Handle Unit
  reset len p =
      if p.slot_len == len
      then (p, ok tt)
      else resized len (record p { slot_len = len; slots = []; next_slot = 0 })

  abbrev new_slot : ℕ → BufferSlot
  new_slot arc = record { arc = arc; released = false; buffer = none }

  unfoldable pub pushed : ℕ → SurfaceBufferPool Handle → Run Handle ℕ
  pushed index p =
      at_index index (record p { slots = p.slots ++ (new_slot (p.arcs) ∷ []); arcs = p.arcs + 1 })

  unfoldable pub grown : FrameSize → ℕ → Option ℕ → SurfaceBufferPool Handle → Run Handle ℕ
  grown size index none p = (p, err (invalid_frame_size size))
  grown size index (some n) p =
      if ltb i32_max n
      then (p, err (invalid_frame_size size))
      else and_then (resized n p) (λ q _. pushed index q)

  -- The slot whose turn it is, taken from the compositor.
  unfoldable pub stolen : ℕ → SurfaceBufferPool Handle → Run Handle ℕ
  stolen index p = at_index index (record p {
    slots = modify index take_slot (p.slots);
    sent = p.sent ++ destroyed (get_elem? (p.slots) index);
  })

  unfoldable pub unreleased_slot : FrameSize → ℕ → SurfaceBufferPool Handle → Run Handle ℕ
  unreleased_slot size len p =
      let n = length (p.slots) in
      if leb max_buffer_slots n
      then stolen (p.next_slot % n) p
      else grown size n (checked_mul len (n + 1)) p

  unfoldable pub chosen : FrameSize → ℕ → Option ℕ → SurfaceBufferPool Handle → Run Handle ℕ
  chosen size len none p = unreleased_slot size len p
  chosen size len (some index) p =
      at_index index (record p { slots = modify index take_slot (p.slots) })

  unfoldable pub next_buffer_slot : FrameSize → ℕ → SurfaceBufferPool Handle → Run Handle ℕ
  next_buffer_slot size len p = and_then (reset len p) (λ q _.
      and_then (compact_released_slots size len q)
        (λ r _. chosen size len (find_released (r.slots)) r))
