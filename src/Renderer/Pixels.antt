-- ===== src/Renderer/Pixels.antt =====
-- Colours, and the blending of buffers of ARGB8888 bytes: crates/renderer/src/lib.rs. The bytes of
-- a pixel are blue, green, red and alpha; the colours of a pixel are multiplied by its alpha.
use veila.Prelude.{
  ℕ, zero, suc, ◌+◌, ◌-◌, ◌*◌, ◌/◌, ◌%◌, ◌^◌, ◌≤◌, ◌<◌, min, max, ◌≡◌, refl, sym, ap, subst, ◌∙◌,
  ◌≢◌, ◌↔◌, ◌⊎◌, inl, inr, Bool, true, false, not, ◌&&◌, ◌||◌, Option, none, some, List, [], ◌∷◌,
  ◌++◌, map, arith, ltb, leb, ◌==◌, if◌then◌else◌, ltb→lt, lt→ltb, leb→le, Bool-cases, and_parts,
  le→leb, lt→not_leb, le→not_ltb, not_ltb→le, branches, if_true, if_false, some_inj, List-cases,
  Option-cases, is_some, or_else, length, get_elem?, get_elem?-some, length-append, set, is_empty,
  length-set, nat_eq, PartialEq, eq_option, eq_option_iff,
}
use veila.Renderer.{
  FrameSize, byte_len, RendererError, invalid_frame_size, buffer_size_mismatch, Result, ok, err,
}
use Prim.{Unit, tt}
pub mod Blending
pub mod Opacity

pub record ClearColor : Type 0 where
  pub red : ℕ
  pub green : ℕ
  pub blue : ℕ
  pub alpha : ℕ

-- Four bytes, in the order of the buffer.
pub record Pixel : Type 0 where
  pub blue : ℕ
  pub green : ℕ
  pub red : ℕ
  pub alpha : ℕ

abbrev pub u8_max : ℕ
u8_max = 255

-- The product is computed in 16 bits, and the quotient kept in 8.
unfoldable pub premultiply_channel : ℕ → ℕ → ℕ
premultiply_channel channel alpha = (channel * alpha + 127) % 65536 / 255 % 256

unfoldable pub to_argb8888_bytes : ClearColor → Pixel
to_argb8888_bytes c = record {
  blue = premultiply_channel (c.blue) (c.alpha);
  green = premultiply_channel (c.green) (c.alpha);
  red = premultiply_channel (c.red) (c.alpha);
  alpha = c.alpha;
}

unfoldable pub unpremultiply_channel : ℕ → ℕ → ℕ
unpremultiply_channel channel alpha =
    if alpha == 0 then 0 else min ((channel * 255 + alpha / 2) / alpha) 255

unfoldable pub blend_component : ℕ → ℕ → ℕ → ℕ
blend_component dst src inverse_alpha =
    min ((src + (dst * inverse_alpha + 127) % 65536 / 255) % 65536) u8_max

unfoldable pub blend_pixel : Pixel → Pixel → Pixel
blend_pixel dst src =
    let inverse : ℕ = u8_max - src.alpha in
    if src.alpha == 0 then dst else if src.alpha == u8_max then src else record {
      blue = blend_component (dst.blue) (src.blue) inverse;
      green = blend_component (dst.green) (src.green) inverse;
      red = blend_component (dst.red) (src.red) inverse;
      alpha = blend_component (dst.alpha) (src.alpha) inverse;
    }

-- A buffer holds the pixels of its rows, one after the other.
pub record SoftwareBuffer : Type 0 where
  pub size : FrameSize
  pub pixels : List Pixel

unfoldable pub clear : ClearColor → SoftwareBuffer → SoftwareBuffer
clear color buffer = record buffer { pixels = map (λ _. to_argb8888_bytes color) (buffer.pixels) }

unfoldable pub blend_pixels : List Pixel → List Pixel → List Pixel
blend_pixels [] src = []
blend_pixels (d ∷ dst) [] = d ∷ dst
blend_pixels (d ∷ dst) (s ∷ src) = blend_pixel d s ∷ blend_pixels dst src

unfoldable pub eq_size : FrameSize → FrameSize → Bool
eq_size a b = (a.width == b.width) && (a.height == b.height)

-- A mismatch of the sizes leaves the buffer as it is.
unfoldable pub blend_from : SoftwareBuffer → SoftwareBuffer → SoftwareBuffer × Result {0} Unit
blend_from buffer overlay =
    if eq_size (buffer.size) (overlay.size)
    then (record buffer { pixels = blend_pixels (buffer.pixels) (overlay.pixels) }, ok tt)
    else (buffer, err (buffer_size_mismatch (buffer.size) (overlay.size)))
