-- ===== src/Renderer/Pixels/Blending.antt =====
-- Blending keeps colours multiplied by their alpha, and never saturates: crates/renderer/src/lib.rs.
use veila.Prelude.{
  ℕ, zero, suc, ◌+◌, ◌-◌, ◌*◌, ◌/◌, ◌%◌, ◌≤◌, ◌≡◌, refl, subst, some, List, [], ◌∷◌, arith, ◌==◌,
  branches, some_inj, get_elem?, nat_eq,
}
use native.Mathlib.Nat.{mul-le-mul_right}
use Prim.{Unit}
use veila.Renderer.{Result}
use veila.Renderer.Pixels.{
  ClearColor, Pixel, u8_max, premultiply_channel, to_argb8888_bytes, blend_component, blend_pixel,
  SoftwareBuffer, eq_size, blend_from, blend_pixels,
}

-- No colour is above its alpha, which is a byte.
abbrev pub IsPremultiplied : Pixel → Type 0
IsPremultiplied p =
    (p.blue ≤ p.alpha) × (p.green ≤ p.alpha) × (p.red ≤ p.alpha) × (p.alpha ≤ u8_max)

-- The part of the pixel below that a blend keeps.
kept_le :
    (d a inverse : ℕ)
    → d ≤ a
    → a ≤ 255
    → inverse ≤ 255
    → ((d * inverse + 127) % 65536 / 255 ≤ (a * inverse + 127) / 255)
      × ((a * inverse + 127) / 255 ≤ inverse)
      × ((a * inverse + 127) % 65536 ≡ a * inverse + 127)
kept_le d a inverse h k l =
    let m : d * inverse ≤ a * inverse = mul-le-mul_right inverse h in
    let n : a * inverse ≤ 255 * inverse = mul-le-mul_right inverse k in
    (omega arith, omega arith, omega arith)

-- For a colour that is not above its alpha the sum stays below the bound, so nothing is cut off.
component_le :
    (d da s sa : ℕ)
    → d ≤ da
    → da ≤ 255
    → s ≤ sa
    → sa ≤ 255
    → (blend_component d s (255 - sa) ≤ blend_component da sa (255 - sa))
      × (blend_component da sa (255 - sa) ≤ 255)
unfolding blend_component
component_le d da s sa h k l m =
    let (x, y, z) = kept_le d da (255 - sa) h k (omega arith) in (ground arith, ground arith)

blend_pixel-IsPremultiplied :
    (dst src : Pixel)
    → IsPremultiplied dst
    → IsPremultiplied src
    → IsPremultiplied (blend_pixel dst src)
unfolding blend_pixel
blend_pixel-IsPremultiplied dst src h k =
    branches IsPremultiplied (src.alpha == 0) dst _ (λ _. h)
      (λ _.
        branches IsPremultiplied (src.alpha == u8_max) src _ (λ _. k)
          (λ _.
            let (hb, hg, hr, ha) = h in
            let (kb, kg, kr, ka) = k in
            (
              (component_le (dst.blue) (dst.alpha) (src.blue) (src.alpha) hb ha kb ka).0,
              (component_le (dst.green) (dst.alpha) (src.green) (src.alpha) hg ha kg ka).0,
              (component_le (dst.red) (dst.alpha) (src.red) (src.alpha) hr ha kr ka).0,
              (component_le (dst.red) (dst.alpha) (src.red) (src.alpha) hr ha kr ka).1,
            )))

abbrev pub AllPremultiplied : List Pixel → Type 0
AllPremultiplied ps = (i : ℕ) (p : Pixel) → get_elem? ps i ≡ some p → IsPremultiplied p

blend_pixels-AllPremultiplied :
    (dst src : List Pixel)
    → AllPremultiplied dst
    → AllPremultiplied src
    → AllPremultiplied (blend_pixels dst src)
unfolding blend_pixels
blend_pixels-AllPremultiplied [] src h k i p e = h i p e
blend_pixels-AllPremultiplied (d ∷ dst) [] h k i p e = h i p e
blend_pixels-AllPremultiplied (d ∷ dst) (s ∷ src) h k zero p e =
    subst IsPremultiplied (some_inj _ _ e)
      (blend_pixel-IsPremultiplied d s (h 0 d refl) (k 0 s refl))
blend_pixels-AllPremultiplied (d ∷ dst) (s ∷ src) h k (suc i) p e =
    blend_pixels-AllPremultiplied dst src (λ j. h (suc j)) (λ j. k (suc j)) i p e

to_argb8888_bytes-IsPremultiplied :
    (c : ClearColor)
    → c.red ≤ u8_max
    → c.green ≤ u8_max
    → c.blue ≤ u8_max
    → c.alpha ≤ u8_max
    → IsPremultiplied (to_argb8888_bytes c)
unfolding to_argb8888_bytes premultiply_channel
to_argb8888_bytes-IsPremultiplied c r g b a =
    let lr = mul-le-mul_right (c.alpha) r in
    let lg = mul-le-mul_right (c.alpha) g in
    let lb = mul-le-mul_right (c.alpha) b in (omega arith, omega arith, omega arith, a)

-- Blending keeps every pixel of a buffer multiplied by its alpha, when the pixels of both buffers
-- are: no colour is above its alpha and every alpha is a byte; so it is also when the sizes differ,
-- and the buffer stays as it is.
pub blend_from-AllPremultiplied :
    (buffer overlay : SoftwareBuffer)
    → AllPremultiplied (buffer.pixels)
    → AllPremultiplied (overlay.pixels)
    → AllPremultiplied ((blend_from buffer overlay).0.pixels)
unfolding blend_from
blend_from-AllPremultiplied buffer overlay h k =
    branches (λ (r : SoftwareBuffer × Result {0} Unit). AllPremultiplied (r.0.pixels))
      (eq_size (buffer.size) (overlay.size)) _ (buffer, _)
      (λ _. blend_pixels-AllPremultiplied (buffer.pixels) (overlay.pixels) h k) (λ _. h)
