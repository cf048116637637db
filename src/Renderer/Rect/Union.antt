-- ===== src/Renderer/Rect/Union.antt =====
-- The union of two rectangles: crates/renderer/src/draw/shape/mod.rs.
use veila.Prelude.{ℕ, ◌-◌, ◌%◌, ◌≡◌, ◌∙◌, true, ◌||◌, arith, if◌then◌else◌, branches, nat_eq}
use veila.Int.{ℤ, pos, negsuc, ◌+ℤ◌, ◌-ℤ◌, min_ℤ, max_ℤ, InI32, as_i32, wrap_i32, wrap_i32-InI32}
use veila.Renderer.Rect.{Rect, rect_is_empty, right, bottom, contains, joined, union}
use veila.Renderer.Rect.Intersection.{Fits, within, sides, empty-contains}

-- The hull of two rectangles is no longer than an `i32` can say.
abbrev pub HullFits : Rect → Rect → Type 0
HullFits r other =
    InI32 (max_ℤ (right r) (right other) -ℤ min_ℤ (r.x) (other.x))
    × InI32 (max_ℤ (bottom r) (bottom other) -ℤ min_ℤ (r.y) (other.y))

hull_end :
    (left end : ℤ)
    → InI32 end
    → InI32 (end -ℤ left)
    → wrap_i32 (left +ℤ wrap_i32 (end -ℤ left)) ≡ end
unfolding ◌+ℤ◌ ◌-ℤ◌
hull_end left end h k =
    let e : left +ℤ (end -ℤ left) ≡ end = ground arith in
    rw (wrap_i32-InI32 (end -ℤ left) k, e) (wrap_i32-InI32 end h)

hull_within :
    (p a b c d : ℤ) → within p a b || within p c d ≡ true → within p (min_ℤ a c) (max_ℤ b d) ≡ true
unfolding min_ℤ max_ℤ
hull_within p a b c d h = ground arith

as_i32-InI32 : (n : ℕ) → InI32 (as_i32 n)
unfolding as_i32
as_i32-InI32 n = ground arith

wrap_i32-range : (a : ℤ) → InI32 (wrap_i32 a)
unfolding wrap_i32
wrap_i32-range (pos n) = as_i32-InI32 n
wrap_i32-range (negsuc n) = as_i32-InI32 (4294967295 - n % 4294967296)

max-InI32 : (a b : ℤ) → InI32 a → InI32 b → InI32 (max_ℤ a b)
unfolding max_ℤ
max-InI32 a b h k = ground arith

right-joined :
    (r other : Rect) → HullFits r other → right (joined r other) ≡ max_ℤ (right r) (right other)
unfolding right
right-joined r o (h, _) =
    hull_end (min_ℤ (r.x) (o.x)) (max_ℤ (right r) (right o))
      (max-InI32 (right r) (right o) (wrap_i32-range (r.x +ℤ r.width))
        (wrap_i32-range (o.x +ℤ o.width)))
      h

bottom-joined :
    (r other : Rect) → HullFits r other → bottom (joined r other) ≡ max_ℤ (bottom r) (bottom other)
unfolding bottom
bottom-joined r o (_, h) =
    hull_end (min_ℤ (r.y) (o.y)) (max_ℤ (bottom r) (bottom o))
      (max-InI32 (bottom r) (bottom o) (wrap_i32-range (r.y +ℤ r.height))
        (wrap_i32-range (o.y +ℤ o.height)))
      h

joined-contains :
    (r other : Rect) (px py : ℤ)
    → HullFits r other
    → contains r px py || contains other px py ≡ true
    → contains (joined r other) px py ≡ true
joined-contains r o px py f h =
    sides (joined r o) px py
    ∙ rw (right-joined r o f, bottom-joined r o f)
        (ground (
          arith,
          sides r px py,
          sides o px py,
          hull_within px (r.x) (right r) (o.x) (right o),
          hull_within py (r.y) (bottom r) (o.y) (bottom o),
        ))

-- The union contains every point of the two rectangles, when the sides of both and of their hull
-- are within `i32`, also when one of them is empty.
pub union-contains :
    (r other : Rect) (px py : ℤ)
    → Fits r
    → Fits other
    → HullFits r other
    → contains r px py || contains other px py ≡ true
    → contains (union r other) px py ≡ true
unfolding union
union-contains r o px py f g h k =
    branches (λ q. contains q px py ≡ true) (rect_is_empty r) o
      (if rect_is_empty o then r else joined r o) (λ e. ground (arith, empty-contains r px py f))
      (λ _.
        branches (λ q. contains q px py ≡ true) (rect_is_empty o) r (joined r o)
          (λ e. ground (arith, empty-contains o px py g)) (λ _. joined-contains r o px py h k))
