-- ===== src/Renderer/Rect/Intersection.antt =====
-- The points of a clipped rectangle, and of the union of two: crates/renderer/src/draw/shape/mod.rs.
use veila.Prelude.{
  ◌≡◌, ap, ◌∙◌, ◌⊎◌, Bool, true, false, ◌&&◌, ◌||◌, arith, branches, length, nat_eq,
}
use veila.Int.{
  ℤ, pos, ◌+ℤ◌, ◌-ℤ◌, ◌≤ℤ◌, ltb_ℤ, leb_ℤ, max_ℤ, clamp, InI32, as_i32, wrap_i32, wrap_i32-InI32,
}
use veila.Renderer.Rect.{
  Rect, rect_is_empty, right, bottom, contains, zero_rect, clipped_extent, clipped, clipped_to,
}

-- The point is from `low` on and below `high`.
abbrev pub within : ℤ → ℤ → ℤ → Bool
within p low high = leb_ℤ low p && ltb_ℤ p high

-- Sums of the coordinates do not leave 32 bits.
abbrev pub Fits : Rect → Type 0
Fits r = InI32 (r.x +ℤ r.width) × InI32 (r.y +ℤ r.height)

abbrev Inside : ℤ → ℤ → Type 0
Inside a size = (pos 0 ≤ℤ a) × (a ≤ℤ size)

clamp-Inside : (a size : ℤ) → pos 0 ≤ℤ size → Inside (clamp a (pos 0) size) size
unfolding clamp
clamp-Inside a size h = ground arith

max_value : (a b : ℤ) → a ≤ℤ max_ℤ a b × b ≤ℤ max_ℤ a b × ((max_ℤ a b ≡ a) ⊎ (max_ℤ a b ≡ b))
unfolding max_ℤ
max_value a b = ground arith

extent_end :
    (l r size : ℤ)
    → InI32 size
    → Inside l size
    → Inside r size
    → wrap_i32 (l +ℤ max_ℤ (wrap_i32 (r -ℤ l)) (pos 0)) ≡ max_ℤ l r
unfolding max_ℤ ◌+ℤ◌ ◌-ℤ◌
extent_end l r size h hl hr =
    let e : wrap_i32 (r -ℤ l) ≡ r -ℤ l = wrap_i32-InI32 (r -ℤ l) (ground arith) in
    rw (e) (wrap_i32-InI32 (l +ℤ max_ℤ (r -ℤ l) (pos 0)) (ground arith) ∙ ground arith)

clamped_within :
    (p start end size : ℤ)
    → pos 0 ≤ℤ size
    → within p
        (clamp start (pos 0) size)
        (max_ℤ (clamp start (pos 0) size) (clamp end (pos 0) size))
      ≡ within p start end && within p (pos 0) size
unfolding clamp max_ℤ
clamped_within p start end size h = ground arith

side-within :
    (p start end size : ℤ)
    → InI32 size
    → pos 0 ≤ℤ size
    → within p
        (clamp start (pos 0) size)
        (wrap_i32 (clamp start (pos 0) size +ℤ clipped_extent start end size))
      ≡ within p start end && within p (pos 0) size
unfolding clipped_extent
side-within p start end size h k =
    ap (within p (clamp start (pos 0) size)) (
      extent_end (clamp start (pos 0) size) (clamp end (pos 0) size) size h
        (clamp-Inside start size k) (clamp-Inside end size k))
    ∙ clamped_within p start end size k

empty_within :
    (p start length : ℤ) → leb_ℤ length (pos 0) ≡ true → within p start (start +ℤ length) ≡ false
unfolding ◌+ℤ◌
empty_within p start length h = ground arith

-- Tests grouped by the coordinate they are on.
pub sides :
    (r : Rect) (px py : ℤ)
    → contains r px py ≡ within px (r.x) (right r) && within py (r.y) (bottom r)
unfolding contains
sides r px py = ground arith

pub empty-contains :
    (r : Rect) (px py : ℤ) → Fits r → rect_is_empty r ≡ true → contains r px py ≡ false
unfolding rect_is_empty contains right bottom
empty-contains r px py (hx, hy) e =
    rw (wrap_i32-InI32 (r.x +ℤ r.width) hx, wrap_i32-InI32 (r.y +ℤ r.height) hy)
      (ground (arith, empty_within px (r.x) (r.width), empty_within py (r.y) (r.height)))

zero-contains : (px py : ℤ) → contains zero_rect px py ≡ false
unfolding contains right bottom wrap_i32 as_i32 ◌+ℤ◌
zero-contains px py = ground arith

clipped-contains :
    (r : Rect) (width height px py : ℤ)
    → InI32 width
    → InI32 height
    → pos 0 ≤ℤ width
    → pos 0 ≤ℤ height
    → contains (clipped r width height) px py
      ≡ contains r px py && (within px (pos 0) width && within py (pos 0) height)
unfolding right bottom
clipped-contains r w h px py hw hh kw kh =
    sides (clipped r w h) px py
    ∙ rw
        (
          side-within px (r.x) (right r) w hw kw,
          side-within py (r.y) (bottom r) h hh kh,
          sides r px py,
        )
        (ground arith)

-- Clipping a rectangle is intersection with the buffer: when the sides of the rectangle end within
-- `i32`, the clipped rectangle contains a point if and only if the rectangle contains it and both
-- coordinates are from 0 on and below the buffer's width and height, for every width and height
-- of 32 bits, also negative ones.
pub clipped_to-contains :
    (r : Rect) (width height px py : ℤ)
    → Fits r
    → InI32 width
    → InI32 height
    → contains (clipped_to r width height) px py
      ≡ contains r px py && (within px (pos 0) width && within py (pos 0) height)
unfolding clipped_to
clipped_to-contains r w h px py f hw hh =
    branches
      (λ q. contains q px py ≡ contains r px py && (within px (pos 0) w && within py (pos 0) h))
      ((rect_is_empty r || leb_ℤ w (pos 0)) || leb_ℤ h (pos 0)) zero_rect (clipped r w h)
      (λ e. zero-contains px py ∙ ground (arith, empty-contains r px py f))
      (λ e. clipped-contains r w h px py hw hh (ground arith) (ground arith))
