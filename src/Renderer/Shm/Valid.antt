-- ===== src/Renderer/Shm/Valid.antt =====
-- The slots of the pool lie in its mapping: crates/renderer/src/shm.rs.
use veila.Prelude.{
  ℕ, zero, suc, ◌+◌, ◌*◌, ◌%◌, ◌≤◌, ◌<◌, max, ◌≡◌, refl, sym, ap, inl, inr, Bool, true, false, ◌&&◌,
  Option, none, some, List, [], ◌∷◌, ◌++◌, arith, ltb, leb, ◌==◌, Bool-cases, branches, some_inj,
  length, get_elem?, length-append, nat_eq,
}
use Prim.{Unit, tt}
use mathlib.Core.Option
use native.Mathlib.Nat.{mul-le-mul_left}
use veila.Int.{i32_max}
use veila.Renderer.{FrameSize, usize_max, checked_mul, invalid_frame_size, ok, err, panicked}
use veila.Renderer.Shm.{
  RawPool, BufferSlot, SurfaceBufferPool, max_buffer_slots, last_released, pop, compacted,
  find_released, take_slot, modify, destroyed, Run, and_then, at_index, resized, resized_to,
  compact_released_slots, reset, pushed, grown, stolen, unreleased_slot, chosen, next_buffer_slot,
}

module _ {ℓ} {Handle : Type ℓ} where
  -- The slots lie in the mapping, one after the other, their offsets are those of an `i32`, and
  -- there are two of them at most.
  abbrev pub IsValid : SurfaceBufferPool Handle → Type 0
  IsValid p =
      (p.slot_len * length (p.slots) ≤ length (p.pool.mmap))
      × (p.slot_len * length (p.slots) ≤ i32_max)
      × (length (p.slots) ≤ max_buffer_slots)

  -- A run that does not panic: what holds after a success, and after an error.
  unfoldable pub Sound :
      {A : Type 0}
      → (SurfaceBufferPool Handle → Type 0)
      → (SurfaceBufferPool Handle → A → Type 0)
      → Run Handle A
      → Type 0
  Sound Kept Done (p, ok a) = Done p a
  Sound Kept Done (p, err e) = Kept p
  Sound Kept Done (p, panicked) = true ≡ false

  pub and_then-Sound :
      {A B : Type 0}
      → (Kept : SurfaceBufferPool Handle → Type 0) → (Mid : SurfaceBufferPool Handle → A → Type 0)
      → (Done : SurfaceBufferPool Handle → B → Type 0) → (m : Run Handle A)
      → (next : SurfaceBufferPool Handle → A → Run Handle B) → Sound Kept Mid m
      → ((q : SurfaceBufferPool Handle) (a : A) → Mid q a → Sound Kept Done (next q a))
      → Sound Kept Done (and_then m next)
  unfolding and_then Sound
  and_then-Sound Kept Mid Done (p, ok a) next h k = k p a h
  and_then-Sound Kept Mid Done (p, err e) next h k = h
  and_then-Sound Kept Mid Done (p, panicked) next h k = h

  -- The slots of a length, with a mapping that holds `n` bytes.
  abbrev pub Sized : ℕ → ℕ → SurfaceBufferPool Handle → Type 0
  Sized len n p = IsValid p × (p.slot_len ≡ len) × (n ≤ length (p.pool.mmap))

  -- A slot is chosen: it is one of the slots of that length.
  abbrev pub Chosen : ℕ → SurfaceBufferPool Handle → ℕ → Type 0
  Chosen len p index = IsValid p × (p.slot_len ≡ len) × (index < length (p.slots))

pub length-pop : (slots : List BufferSlot) → length (pop slots) ≤ length slots
unfolding pop
length-pop [] = omega arith
length-pop (s ∷ []) = omega arith
length-pop (s ∷ t ∷ rest) = omega (arith, length-pop (t ∷ rest))

pub length-compacted :
    (fuel : ℕ) (slots : List BufferSlot) → length (compacted fuel slots) ≤ length slots
unfolding compacted
length-compacted zero slots = omega arith
length-compacted (suc fuel) slots =
    branches (λ r. length r ≤ length slots) (ltb 1 (length slots) && last_released slots)
      (compacted fuel (pop slots)) slots
      (λ _. omega (arith, length-compacted fuel (pop slots), length-pop slots)) (λ _. omega arith)

pub length-modify :
    (i : ℕ) (f : BufferSlot → BufferSlot) (slots : List BufferSlot)
    → length (modify i f slots) ≡ length slots
unfolding modify
length-modify i f [] = refl
length-modify zero f (s ∷ rest) = refl
length-modify (suc i) f (s ∷ rest) = ap suc (length-modify i f rest)

pub fewer-IsValid {ℓ} :
    {Handle : Type ℓ}
    → (p : SurfaceBufferPool Handle) → (slots : List BufferSlot) → (next : ℕ)
    → length slots ≤ length (p.slots)
    → IsValid p
    → IsValid (record p { slots = slots; next_slot = next })
fewer-IsValid p slots next l (a, b, c) =
    let m : p.slot_len * length slots ≤ p.slot_len * length (p.slots) =
      mul-le-mul_left (p.slot_len) l in
    (omega arith, omega arith, omega arith)

pub map-some :
    (o : Option ℕ) (i : ℕ) → Option.map suc o ≡ some i → (j : ℕ) × (o ≡ some j) × (i ≡ suc j)
map-some none i h = absurd (ground (arith, h))
map-some (some j) i h = (j, refl, sym (some_inj (suc j) i h))

pub find_released-lt :
    (slots : List BufferSlot) (i : ℕ) → find_released slots ≡ some i → i < length slots
unfolding find_released
find_released-lt [] i = λ h. ground arith
find_released-lt (s ∷ rest) i =
    branches (λ o. o ≡ some i → i < suc (length rest)) (s.released) (some 0)
      (Option.map suc (find_released rest)) (λ _ h. ground (arith, some_inj 0 i h))
      (λ _ h.
        let (j, e, k) = map-some (find_released rest) i h in
        let l : j < length rest = find_released-lt rest j e in omega arith)

module _ {ℓ} {Handle : Type ℓ} (resize : ℕ → RawPool Handle → RawPool Handle × Bool)
    (fits : (n : ℕ) (r : RawPool Handle) → (resize n r).1 ≡ true → n ≤ length ((resize n r).0.mmap))
    (grows : (n : ℕ) (r : RawPool Handle) → length (r.mmap) ≤ length ((resize n r).0.mmap)) where
  resized-Sound :
      (len n : ℕ) (p : SurfaceBufferPool Handle)
      → IsValid p
      → p.slot_len ≡ len
      → Sound IsValid
          (λ q _. Sized len n q × (length (q.slots) ≡ length (p.slots)))
          (resized resize n p)
  unfolding resized Sound
  resized-Sound len n p h e = elim (Bool-cases ((resize n (p.pool)).1)) [
    | inl s ↦ rw (s) (ground (arith, fits n (p.pool) s, grows n (p.pool)))
    | inr s ↦ rw (s) (ground (arith, grows n (p.pool)))
  ]

  unsized :
      (len n k : ℕ) (m : Run Handle Unit)
      → Sound IsValid (λ q _. Sized len n q × (length (q.slots) ≡ k)) m
      → Sound IsValid (λ q _. Sized len 0 q) m
  unfolding Sound
  unsized len n k (q, ok a) ((h, l, _), _) = (h, l, omega arith)
  unsized len n k (q, err e) h = h
  unsized len n k (q, panicked) h = h

  resized_to-Sound :
      (size : FrameSize) (len : ℕ) (n : Option ℕ) (p : SurfaceBufferPool Handle)
      → IsValid p
      → p.slot_len ≡ len
      → Sound IsValid (λ q _. Sized len 0 q) (resized_to resize size n p)
  unfolding resized_to Sound
  resized_to-Sound size len none p h e = h
  resized_to-Sound size len (some n) p h e =
      unsized len n (length (p.slots)) (resized resize n p) (resized-Sound len n p h e)

  compacted-Sized :
      (size : FrameSize) (len : ℕ) (p : SurfaceBufferPool Handle)
      → IsValid p
      → p.slot_len ≡ len
      → Sound IsValid (λ q _. Sized len 0 q) (compact_released_slots resize size len p)
  unfolding compact_released_slots
  compacted-Sized size len p h e =
      let slots = compacted (length (p.slots)) (p.slots) in
      resized_to-Sound size len (checked_mul len (max (length slots) 1)) _
        (fewer-IsValid p slots 0 (length-compacted (length (p.slots)) (p.slots)) h) e

  reset-Sized :
      (len : ℕ) (p : SurfaceBufferPool Handle)
      → IsValid p
      → Sound IsValid (λ q _. Sized len 0 q) (reset resize len p)
  unfolding reset Sound
  reset-Sized len p h =
      let same : Run Handle Unit = (p, ok tt) in
      let cleared : SurfaceBufferPool Handle = record p {
        slot_len = len;
        slots = [];
        next_slot = 0;
      } in
      branches (λ m. Sound IsValid (λ q _. Sized len 0 q) m) (p.slot_len == len) same
        (resized resize len cleared) (λ e. (h, ground arith, omega arith))
        (λ _.
          unsized len len 0 (resized resize len cleared)
            (resized-Sound len len cleared (omega arith, omega arith, omega arith) refl))

  at_index-Chosen :
      (len index : ℕ) (p : SurfaceBufferPool Handle)
      → IsValid p
      → p.slot_len ≡ len
      → index < length (p.slots)
      → Sound IsValid (Chosen len) (at_index index p)
  unfolding at_index Sound
  at_index-Chosen len index p h e l = (h, e, l)

  stolen-Chosen :
      (len : ℕ) (p : SurfaceBufferPool Handle)
      → IsValid p
      → p.slot_len ≡ len
      → 2 ≤ length (p.slots)
      → Sound IsValid (Chosen len) (stolen resize (p.next_slot % length (p.slots)) p)
  unfolding stolen
  stolen-Chosen len p h e l =
      let i = p.next_slot % length (p.slots) in
      let b : i < length (p.slots) = ground arith in
      at_index-Chosen len i
        (record p {
          slots = modify i take_slot (p.slots);
          sent = p.sent ++ destroyed (get_elem? (p.slots) i);
        })
        (fewer-IsValid p (modify i take_slot (p.slots)) 0
          (omega (arith, length-modify i take_slot (p.slots))) h)
        e (omega (arith, length-modify i take_slot (p.slots)))

  pushed-Chosen :
      (len n : ℕ) (p : SurfaceBufferPool Handle)
      → IsValid p
      → p.slot_len ≡ len
      → len * (n + 1) ≤ length (p.pool.mmap)
      → len * (n + 1) ≤ i32_max
      → length (p.slots) ≡ n
      → n < 2
      → Sound IsValid (Chosen len) (pushed resize n p)
  unfolding pushed
  pushed-Chosen len n p h e a b l k =
      let grown_slots : List BufferSlot =
        p.slots ++ (record { arc = p.arcs; released = false; buffer = none } ∷ []) in
      let m : length grown_slots ≡ n + 1 = omega (
        arith,
        length-append (p.slots) (record { arc = p.arcs; released = false; buffer = none } ∷ []),
      ) in
      let c : p.slot_len * length grown_slots ≡ len * (n + 1) = rw (m, e) refl in
      at_index-Chosen len n (record p { slots = grown_slots; arcs = p.arcs + 1 })
        (omega arith, omega arith, omega arith) e (omega arith)

  grown-Chosen :
      (size : FrameSize) (len n k : ℕ) (p : SurfaceBufferPool Handle)
      → IsValid p
      → p.slot_len ≡ len
      → k ≡ len * (n + 1)
      → length (p.slots) ≡ n
      → n < 2
      → Sound IsValid (Chosen len) (grown resize size n (some k) p)
  unfolding grown Sound
  grown-Chosen size len n k p h e m l b =
      let failed : Run Handle ℕ = (p, err (invalid_frame_size size)) in
      branches (λ r. Sound IsValid (Chosen len) r) (ltb i32_max k) failed
        (and_then (resized resize k p) (λ q _. pushed resize n q)) (λ _. h)
        (λ f.
          and_then-Sound IsValid (λ q _. Sized len k q × (length (q.slots) ≡ length (p.slots)))
            (Chosen len) (resized resize k p) (λ q _. pushed resize n q) (resized-Sound len k p h e)
            (λ q _ ((g, i, j), o).
              pushed-Chosen len n q g i (omega arith) (ground arith) (omega arith) b))

  chosen-Chosen :
      (size : FrameSize) (len : ℕ) (o : Option ℕ) (p : SurfaceBufferPool Handle)
      → find_released (p.slots) ≡ o
      → IsValid p
      → p.slot_len ≡ len
      → Sound IsValid (Chosen len) (chosen resize size len o p)
  unfolding chosen unreleased_slot checked_mul grown Sound
  chosen-Chosen size len none p f h e =
      let n = length (p.slots) in
      branches (λ r. Sound IsValid (Chosen len) r) (leb max_buffer_slots n)
        (stolen resize (p.next_slot % n) p) (grown resize size n (checked_mul len (n + 1)) p)
        (λ g. stolen-Chosen len p h e (ground arith))
        (λ g.
          branches (λ o. Sound IsValid (Chosen len) (grown resize size n o p))
            (leb (len * (n + 1)) usize_max) (some (len * (n + 1))) none
            (λ _. grown-Chosen size len n (len * (n + 1)) p h e refl refl (ground arith)) (λ _. h))
  chosen-Chosen size len (some index) p f h e =
      at_index-Chosen len index _
        (fewer-IsValid p (modify index take_slot (p.slots)) 0
          (omega (arith, length-modify index take_slot (p.slots))) h)
        e
        (omega (arith, length-modify index take_slot (p.slots), find_released-lt (p.slots) index f))

  -- Choosing a slot keeps the pool valid on every path, whatever the sizes of the frames, and does
  -- not panic: after an error no slot is outside the mapping, and after a success the slot chosen
  -- is one of the slots of the new length.
  pub next_buffer_slot-Chosen :
      (size : FrameSize) (len : ℕ) (p : SurfaceBufferPool Handle)
      → IsValid p
      → Sound IsValid (Chosen len) (next_buffer_slot resize size len p)
  unfolding next_buffer_slot
  next_buffer_slot-Chosen size len p h =
      and_then-Sound IsValid (λ q _. Sized len 0 q) (Chosen len) (reset resize len p) _
        (reset-Sized len p h)
        (λ q _ (k, e, _).
          and_then-Sound IsValid (λ q _. Sized len 0 q) (Chosen len)
            (compact_released_slots resize size len q) _ (compacted-Sized size len q k e)
            (λ r _ (l, f, _). chosen-Chosen size len (find_released (r.slots)) r refl l f))
