-- ===== src/Renderer.antt =====
-- The renderer crate, crates/renderer/src: the sizes of frames and the errors that its modules
-- share (lib.rs). Rect is draw/shape/mod.rs, Shm the pool of shared memory (shm.rs), Pixels the
-- colours and the blending of buffers (lib.rs).
use veila.Prelude.{
  ℕ, zero, suc, ◌+◌, ◌-◌, ◌*◌, ◌/◌, ◌%◌, ◌^◌, ◌≤◌, ◌<◌, min, max, ◌≡◌, refl, sym, ap, subst, ◌∙◌,
  ◌≢◌, ◌↔◌, ◌⊎◌, inl, inr, Bool, true, false, not, ◌&&◌, ◌||◌, Option, none, some, List, [], ◌∷◌,
  ◌++◌, map, arith, ltb, leb, ◌==◌, if◌then◌else◌, ltb→lt, lt→ltb, leb→le, Bool-cases, and_parts,
  le→leb, lt→not_leb, le→not_ltb, not_ltb→le, branches, if_true, if_false, some_inj, List-cases,
  Option-cases, is_some, or_else, length, get_elem?, get_elem?-some, length-append, set, is_empty,
  length-set, nat_eq, PartialEq, eq_option, eq_option_iff,
}
pub mod Rect
pub mod Shm
pub mod Pixels
pub mod Cache
mod Examples

pub record FrameSize : Type 0 where
  pub width : ℕ
  pub height : ℕ

unfoldable pub no_area : FrameSize → Bool
no_area size = (size.width == 0) || (size.height == 0)

abbrev pub usize_max : ℕ
usize_max = 18446744073709551615

unfoldable pub checked_mul : ℕ → ℕ → Option ℕ
checked_mul a b = if leb (a * b) usize_max then some (a * b) else none

unfoldable pub times_four : Option ℕ → Option ℕ
times_four none = none
times_four (some n) = checked_mul n 4

unfoldable pub byte_len : FrameSize → Option ℕ
byte_len size = times_four (checked_mul (size.width) (size.height))

pub data RendererError : Type 0 where
  invalid_frame_size : FrameSize → RendererError
  empty_frame : RendererError
  buffer_size_mismatch : FrameSize → FrameSize → RendererError
  io : RendererError
  shm_pool : RendererError
  image : RendererError

pub data Result {ℓ} (A : Type ℓ) : Type ℓ where
  ok : A → Result A
  err : RendererError → Result A
  panicked : Result A

unfoldable pub ok_or {ℓ} : {A : Type ℓ} → RendererError → Option A → Result A
ok_or e none = err e
ok_or e (some a) = ok a
