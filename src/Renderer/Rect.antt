-- ===== src/Renderer/Rect.antt =====
-- Rectangles in buffer pixel coordinates: crates/renderer/src/draw/shape/mod.rs. Sums are those of
-- `i32`: they wrap around.
use veila.Prelude.{
  ℕ, zero, suc, ◌+◌, ◌-◌, ◌*◌, ◌/◌, ◌%◌, ◌^◌, ◌≤◌, ◌<◌, min, max, ◌≡◌, refl, sym, ap, subst, ◌∙◌,
  ◌≢◌, ◌↔◌, ◌⊎◌, inl, inr, Bool, true, false, not, ◌&&◌, ◌||◌, Option, none, some, List, [], ◌∷◌,
  ◌++◌, map, arith, ltb, leb, ◌==◌, if◌then◌else◌, ltb→lt, lt→ltb, leb→le, Bool-cases, and_parts,
  le→leb, lt→not_leb, le→not_ltb, not_ltb→le, branches, if_true, if_false, some_inj, List-cases,
  Option-cases, is_some, or_else, length, get_elem?, get_elem?-some, length-append, set, is_empty,
  length-set, nat_eq, PartialEq, eq_option, eq_option_iff,
}
use veila.Int.{
  ℤ, pos, negsuc, pos_part, neg_part, ◌+ℤ◌, ◌-ℤ◌, ◌≤ℤ◌, ◌<ℤ◌, ltb_ℤ, leb_ℤ, min_ℤ, max_ℤ, clamp,
  InI32, in_i32, i32_max, wrap_i32, wrap_i32-InI32, +ℤ_parts, -ℤ_parts, one_part,
}
pub mod Intersection
pub mod Union

pub record Rect : Type 0 where
  pub x : ℤ
  pub y : ℤ
  pub width : ℤ
  pub height : ℤ

unfoldable pub rect_is_empty : Rect → Bool
rect_is_empty r = leb_ℤ (r.width) (pos 0) || leb_ℤ (r.height) (pos 0)

-- The sides end within `i32`. A build with overflow checks panics in `right` or `bottom` where they do
-- not, and one without them wraps around, as `right` and `bottom` do here.
unfoldable pub sides_fit : Rect → Bool
sides_fit r = in_i32 (r.x +ℤ r.width) && in_i32 (r.y +ℤ r.height)

unfoldable pub right : Rect → ℤ
right r = wrap_i32 (r.x +ℤ r.width)

unfoldable pub bottom : Rect → ℤ
bottom r = wrap_i32 (r.y +ℤ r.height)

unfoldable pub contains : Rect → ℤ → ℤ → Bool
contains r px py = (leb_ℤ (r.x) px && leb_ℤ (r.y) py) && (ltb_ℤ px (right r) && ltb_ℤ py (bottom r))

unfoldable pub inflated : Rect → ℤ → Rect
inflated r amount =
    let a : ℤ = max_ℤ amount (pos 0) in
    let twice : ℤ = wrap_i32 (a +ℤ a) in
    if rect_is_empty r then r else record {
      x = wrap_i32 (r.x -ℤ a);
      y = wrap_i32 (r.y -ℤ a);
      width = wrap_i32 (r.width +ℤ twice);
      height = wrap_i32 (r.height +ℤ twice);
    }

abbrev pub joined : Rect → Rect → Rect
joined r other =
    let left : ℤ = min_ℤ (r.x) (other.x) in
    let top : ℤ = min_ℤ (r.y) (other.y) in
    record {
      x = left;
      y = top;
      width = wrap_i32 (max_ℤ (right r) (right other) -ℤ left);
      height = wrap_i32 (max_ℤ (bottom r) (bottom other) -ℤ top);
    }

unfoldable pub union : Rect → Rect → Rect
union r other = if rect_is_empty r then other else if rect_is_empty other then r else joined r other

abbrev pub zero_rect : Rect
zero_rect = record { x = pos 0; y = pos 0; width = pos 0; height = pos 0 }

-- One side of a clipped rectangle: where it starts, and how long it is.
unfoldable pub clipped_extent : ℤ → ℤ → ℤ → ℤ
clipped_extent start end size =
    max_ℤ (wrap_i32 (clamp end (pos 0) size -ℤ clamp start (pos 0) size)) (pos 0)

abbrev pub clipped : Rect → ℤ → ℤ → Rect
clipped r width height = record {
  x = clamp (r.x) (pos 0) width;
  y = clamp (r.y) (pos 0) height;
  width = clipped_extent (r.x) (right r) width;
  height = clipped_extent (r.y) (bottom r) height;
}

unfoldable pub clipped_to : Rect → ℤ → ℤ → Rect
clipped_to r width height =
    if (rect_is_empty r || leb_ℤ width (pos 0)) || leb_ℤ height (pos 0)
    then zero_rect
    else clipped r width height

-- `clipped_to` in a build with overflow checks: `none` is its panic.
unfoldable pub checked_clipped_to : Rect → ℤ → ℤ → Option Rect
checked_clipped_to r width height =
    if ((rect_is_empty r || leb_ℤ width (pos 0)) || leb_ℤ height (pos 0)) || sides_fit r
    then some (clipped_to r width height)
    else none
