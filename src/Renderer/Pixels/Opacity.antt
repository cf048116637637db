-- ===== src/Renderer/Pixels/Opacity.antt =====
-- A buffer that is cleared with an opaque colour stays opaque, whatever is drawn over it: crates/renderer/src/lib.rs.
use veila.Prelude.{ℕ, ◌≤◌, ◌≡◌, List, [], ◌∷◌, map, arith, branches, nat_eq}
use Prim.{Unit, tt}
use veila.Renderer.{Result}
use veila.Renderer.Pixels.{
  ClearColor, Pixel, u8_max, to_argb8888_bytes, blend_component, blend_pixel, SoftwareBuffer,
  eq_size, blend_from, clear, blend_pixels,
}

-- Every pixel has an alpha in the bound.
abbrev pub AllAlpha : (ℕ → Type 0) → List Pixel → Type 0
AllAlpha P [] = Unit
AllAlpha P (p ∷ rest) = P (p.alpha) × AllAlpha P rest

abbrev pub AllOpaque : List Pixel → Type 0
AllOpaque = AllAlpha (λ a. a ≡ u8_max)

abbrev pub AllBytes : List Pixel → Type 0
AllBytes = AllAlpha (λ a. a ≤ u8_max)

blend_pixel-opaque :
    (dst src : Pixel)
    → dst.alpha ≡ u8_max
    → src.alpha ≤ u8_max
    → (blend_pixel dst src).alpha ≡ u8_max
unfolding blend_pixel blend_component
blend_pixel-opaque dst src h k = ground arith

blend_pixels-AllOpaque :
    (dst src : List Pixel) → AllOpaque dst → AllBytes src → AllOpaque (blend_pixels dst src)
unfolding blend_pixels
blend_pixels-AllOpaque [] src h k = h
blend_pixels-AllOpaque (d ∷ dst) [] h k = h
blend_pixels-AllOpaque (d ∷ dst) (s ∷ src) (h, hs) (k, ks) =
    (blend_pixel-opaque d s h k, blend_pixels-AllOpaque dst src hs ks)

cleared-AllOpaque :
    (color : ClearColor) (ps : List Pixel)
    → color.alpha ≡ u8_max
    → AllOpaque (map (λ _. to_argb8888_bytes color) ps)
unfolding to_argb8888_bytes
cleared-AllOpaque color [] h = tt
cleared-AllOpaque color (p ∷ ps) h = (h, cleared-AllOpaque color ps h)

-- Layers blended over a buffer, one after the other.
abbrev pub layered : SoftwareBuffer → List SoftwareBuffer → SoftwareBuffer
layered buffer [] = buffer
layered buffer (o ∷ rest) = layered ((blend_from buffer o).0) rest

abbrev pub LayersBytes : List SoftwareBuffer → Type 0
LayersBytes [] = Unit
LayersBytes (o ∷ rest) = AllBytes (o.pixels) × LayersBytes rest

blend_from-AllOpaque :
    (buffer overlay : SoftwareBuffer)
    → AllOpaque (buffer.pixels)
    → AllBytes (overlay.pixels)
    → AllOpaque ((blend_from buffer overlay).0.pixels)
unfolding blend_from
blend_from-AllOpaque buffer overlay h k =
    branches (λ (r : SoftwareBuffer × Result {0} Unit). AllOpaque (r.0.pixels))
      (eq_size (buffer.size) (overlay.size)) _ (buffer, _)
      (λ _. blend_pixels-AllOpaque (buffer.pixels) (overlay.pixels) h k) (λ _. h)

layered-AllOpaque :
    (buffer : SoftwareBuffer) (overlays : List SoftwareBuffer)
    → AllOpaque (buffer.pixels)
    → LayersBytes overlays
    → AllOpaque ((layered buffer overlays).pixels)
layered-AllOpaque buffer [] h k = h
layered-AllOpaque buffer (o ∷ rest) h (k, ks) =
    layered-AllOpaque ((blend_from buffer o).0) rest (blend_from-AllOpaque buffer o h k) ks

-- Nothing shines through a frame: a buffer cleared with an opaque colour has only opaque pixels
-- after any layers whose alphas are bytes have been blended over it, in any number and order, also
-- when some of them have another size.
pub clear-stays_opaque :
    (color : ClearColor) (buffer : SoftwareBuffer) (overlays : List SoftwareBuffer)
    → color.alpha ≡ u8_max
    → LayersBytes overlays
    → AllOpaque ((layered (clear color buffer) overlays).pixels)
unfolding clear
clear-stays_opaque color buffer overlays h k =
    layered-AllOpaque (clear color buffer) overlays (cleared-AllOpaque color (buffer.pixels) h) k
