-- ===== src/Renderer/Shm/Placement.antt =====
-- Where a slot lies, and what it takes to draw in it: crates/renderer/src/shm.rs.
use veila.Prelude.{
  ℕ, zero, suc, ◌+◌, ◌*◌, ◌≤◌, ◌<◌, ◌≡◌, refl, ap, ◌∙◌, ◌≢◌, Bool, true, none, some, List, [], ◌∷◌,
  arith, leb, branches, if_true, some_inj, length, get_elem?, get_elem?-some, nat_eq,
}
use Prim.{Unit}
use native.Mathlib.Nat.{mul-le-mul_left, mul-le-mul_right}
use veila.Int.{ℤ, pos, as_i32_small, i32_max}
use veila.Renderer.{
  FrameSize, no_area, byte_len, times_four, usize_max, checked_mul, empty_frame, Result, ok, err,
  panicked, ok_or,
}
use veila.Renderer.Rect.{Rect}
use veila.Renderer.Shm.{
  RawPool, WlBuffer, BufferSlot, SurfaceBufferPool, required_pool_len, modify, next_buffer_slot,
}
use veila.Renderer.Shm.Valid.{
  IsValid, Sound, and_then-Sound, Chosen, next_buffer_slot-Chosen, length-modify,
}
use veila.Renderer.Shm.Drawing.{
  overwrite, splice, wl_buffer, with_buffer, attached, present, submit, drawn, Draw, at_offset,
  with_len, on_slot,
}

length-overwrite : (new bytes : List ℕ) → length (overwrite new bytes) ≡ length bytes
unfolding overwrite
length-overwrite [] bytes = refl
length-overwrite (x ∷ new) [] = refl
length-overwrite (x ∷ new) (b ∷ bytes) = ap suc (length-overwrite new bytes)

pub length-splice :
    (offset : ℕ) (new bytes : List ℕ) → length (splice offset new bytes) ≡ length bytes
unfolding splice
length-splice zero new bytes = length-overwrite new bytes
length-splice (suc offset) new [] = refl
length-splice (suc offset) new (b ∷ bytes) = ap suc (length-splice offset new bytes)

pub get_elem?-modify :
    (i : ℕ) (f : BufferSlot → BufferSlot) (slots : List BufferSlot) (s : BufferSlot)
    → get_elem? slots i ≡ some s
    → get_elem? (modify i f slots) i ≡ some (f s)
unfolding modify
get_elem?-modify i f [] s h = ground (arith, h)
get_elem?-modify zero f (t ∷ rest) s h = ap (λ o. some (f o)) (some_inj t s h)
get_elem?-modify (suc i) f (t ∷ rest) s h = get_elem?-modify i f rest s h

-- The bytes that a frame needs.
abbrev pub Needs : FrameSize → ℕ → Type 0
Needs size len = (len ≡ size.width * size.height * 4) × (1 ≤ size.width) × (1 ≤ size.height)

pub required_pool_len-Needs :
    (size : FrameSize) (len : ℕ) → required_pool_len size ≡ ok len → Needs size len
unfolding required_pool_len no_area ok_or byte_len times_four checked_mul
required_pool_len-Needs size len h = ground arith

required_pool_len-calm : (size : FrameSize) → required_pool_len size ≢ panicked
unfolding required_pool_len ok_or
required_pool_len-calm size h = ground arith

-- The buffer of some slot is that of a frame of the size: its place in the pool, and its sides and
-- its stride in bytes are the exact numbers, and it lies in the mapping.
abbrev pub Presented {ℓ} : {Handle : Type ℓ} → FrameSize → SurfaceBufferPool Handle → Type 0
Presented size p =
    (index : ℕ) × (s : BufferSlot) × (get_elem? (p.slots) index ≡ some s)
    × (s.buffer
        ≡ some (record {
          offset = pos (index * (size.width * size.height * 4));
          width = pos (size.width);
          height = pos (size.height);
          stride = pos (size.width * 4);
          release = s.arc;
        }))
    × ((index + 1) * (size.width * size.height * 4) ≤ length (p.pool.mmap))

exact_sides :
    (size : FrameSize) (len index n arc : ℕ)
    → Needs size len
    → index < n
    → len * n ≤ i32_max
    → wl_buffer size (index * len) arc ≡ record {
      offset = pos (index * len);
      width = pos (size.width);
      height = pos (size.height);
      stride = pos (size.width * 4);
      release = arc;
    }
exact_sides size len index n arc (e, w, h) l b =
    let a : suc index * len ≤ n * len = mul-le-mul_right len l in
    let c : size.width * 4 * 1 ≤ size.width * 4 * size.height =
      mul-le-mul_left (size.width * 4) h in
    let d : size.height * 4 * 1 ≤ size.height * 4 * size.width =
      mul-le-mul_left (size.height * 4) w in
    rw
      (
        as_i32_small (index * len) (omega arith),
        as_i32_small (size.width) (omega arith),
        as_i32_small (size.height) (omega arith),
        as_i32_small (size.width * 4) (omega arith),
      )
      refl

module _ {ℓ} {Handle : Type ℓ} where
  -- A slot's bytes lie in the mapping.
  abbrev pub Placed : FrameSize → ℕ → ℕ → ℕ → SurfaceBufferPool Handle → Type 0
  Placed size index offset len q =
      Needs size len
      × Chosen len q index
      × (offset ≡ index * len)
      × ((index + 1) * len ≤ length (q.pool.mmap))

  pub submit-Sound :
      (size : FrameSize) (scale : ℤ) (damage : Rect) (index offset len : ℕ)
      (q : SurfaceBufferPool Handle)
      → Placed size index offset len q
      → Sound IsValid
          (λ r _. IsValid r × Presented size r)
          (submit size scale damage offset index q)
  unfolding submit present attached Sound
  submit-Sound size scale damage index offset len q (n, ((v, w, t), e, l), o, b) =
      let (s, g) = get_elem?-some (q.slots) index l in
      let m : length (modify index (with_buffer (wl_buffer size offset (s.arc))) (q.slots))
          ≡ length (q.slots) =
        length-modify index (with_buffer (wl_buffer size offset (s.arc))) (q.slots) in
      let c : (index + 1) * len ≡ (index + 1) * (size.width * size.height * 4) =
        ap (λ x. (index + 1) * x) (n.0) in
      let wb : WlBuffer = wl_buffer size offset (s.arc) in
      let valid : IsValid (record q { slots = modify index (with_buffer wb) (q.slots) }) =
        (rw (m) v, rw (m) w, rw (m) t) in
      let len_eq : q.slot_len * length (q.slots) ≡ len * length (q.slots) =
        ap (λ x. x * length (q.slots)) e in
      let exact = exact_sides size len index (length (q.slots)) (s.arc) n l (omega arith) in
      let place : index * len ≡ index * (size.width * size.height * 4) =
        ap (λ x. index * x) (n.0) in
      rw (g) (
        valid,
        (
          index,
          with_buffer wb s,
          get_elem?-modify index (with_buffer wb) (q.slots) s g,
          ap (λ x. some (wl_buffer size x (s.arc))) o
              ∙ ap some (
                  exact
                  ∙ ap
                      (λ x. record {
                        offset = pos x;
                        width = pos (size.width);
                        height = pos (size.height);
                        stride = pos (size.width * 4);
                        release = s.arc;
                      })
                      place),
          omega arith,
        ),
      )

  pub drawn-Placed :
      (size : FrameSize) (index offset len : ℕ) (bytes : List ℕ) (q : SurfaceBufferPool Handle)
      → Placed size index offset len q
      → Placed size index offset len (drawn offset bytes q)
  unfolding drawn
  drawn-Placed size index offset len bytes q (n, ((v, w, t), e, l), o, b) =
      let m : length (splice offset bytes (q.pool.mmap)) ≡ length (q.pool.mmap) =
        length-splice offset bytes (q.pool.mmap) in
      (n, ((omega arith, w, t), e, l), o, omega arith)

  at_offset-Sound :
      (size : FrameSize) (draw : Draw Handle) (len index : ℕ) (q : SurfaceBufferPool Handle)
      → (Done : SurfaceBufferPool Handle → Unit → Type 0) → Needs size len
      → Chosen len q index
      → ((index offset len : ℕ) (q : SurfaceBufferPool Handle)
          → Placed size index offset len q
          → Sound IsValid Done (draw index offset len q))
      → Sound IsValid Done (at_offset size len draw index (checked_mul index len) q)
  unfolding at_offset checked_mul Sound
  at_offset-Sound size draw len index q Done n (v, e, l) k =
      let a : suc index * len ≤ length (q.slots) * len = mul-le-mul_right len l in
      let c : q.slot_len * length (q.slots) ≡ len * length (q.slots) = rw (e) refl in
      let b : index * len + len ≤ length (q.pool.mmap) = omega arith in
      branches (λ o. Sound IsValid Done (at_offset size len draw index o q))
        (leb (index * len) usize_max) (some (index * len)) none
        (λ _.
          rw
            (if_true (leb (index * len + len) (length (q.pool.mmap)))
              (draw index (index * len) len q) (q, panicked) (ground arith))
            (k index (index * len) len q (n, (v, e, l), refl, omega arith)))
        (λ _. v)

module _ {ℓ} {Handle : Type ℓ} (resize : ℕ → RawPool Handle → RawPool Handle × Bool)
    (fits : (n : ℕ) (r : RawPool Handle) → (resize n r).1 ≡ true → n ≤ length ((resize n r).0.mmap))
    (grows : (n : ℕ) (r : RawPool Handle) → length (r.mmap) ≤ length ((resize n r).0.mmap)) where
  with_len-Sound :
      (size : FrameSize) (draw : Draw Handle) (p : SurfaceBufferPool Handle) (needed : Result ℕ)
      → (Done : SurfaceBufferPool Handle → Unit → Type 0) → required_pool_len size ≡ needed
      → IsValid p
      → ((index offset len : ℕ) (q : SurfaceBufferPool Handle)
          → Placed size index offset len q
          → Sound IsValid Done (draw index offset len q))
      → Sound IsValid Done (with_len resize size draw needed p)
  unfolding with_len Sound
  with_len-Sound size draw p (ok len) Done e h k =
      and_then-Sound IsValid (Chosen len) Done (next_buffer_slot resize size len p) _
        (next_buffer_slot-Chosen resize fits grows size len p h)
        (λ q index c.
          at_offset-Sound size draw len index q Done (required_pool_len-Needs size len e) c k)
  with_len-Sound size draw p (err _) Done e h k = h
  with_len-Sound size draw p panicked Done e h k = absurd (required_pool_len-calm size e)

  pub on_slot-Sound :
      (size : FrameSize) (draw : Draw Handle) (p : SurfaceBufferPool Handle)
      → (Done : SurfaceBufferPool Handle → Unit → Type 0) → IsValid p
      → ((index offset len : ℕ) (q : SurfaceBufferPool Handle)
          → Placed size index offset len q
          → Sound IsValid Done (draw index offset len q))
      → Sound IsValid Done (on_slot resize size draw p)
  unfolding on_slot Sound
  on_slot-Sound size draw p Done h k =
      branches (λ r. Sound IsValid Done r) (no_area size) (p, err empty_frame)
        (with_len resize size draw (required_pool_len size) p) (λ _. h)
        (λ _. with_len-Sound size draw p (required_pool_len size) Done refl h k)
