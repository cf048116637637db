-- ===== src/Renderer/Cache/Format.antt =====
-- The file of a cached background: `store_cached_buffer_for_source` and
-- `load_cached_buffer_for_source` of crates/renderer/src/background/render_cache.rs.
use veila.Prelude.{
  ℕ, zero, suc, ◌+◌, ◌*◌, ◌/◌, ◌%◌, ◌≤◌, ◌<◌, ◌≡◌, refl, sym, ap, ◌∙◌, inl, inr, Bool, true, false,
  ◌&&◌, Option, none, some, List, [], ◌∷◌, ◌++◌, arith, leb, ◌==◌, if◌then◌else◌, Bool-cases,
  if_true, if_false, length, nat_eq,
}
use veila.Renderer.{
  FrameSize, byte_len, times_four, usize_max, checked_mul, image, invalid_frame_size, Result, ok,
  err,
}
use mathlib.Core.List.{append-nil}
use veila.Renderer.Pixels.{eq_size}

-- "KWYBG001"
abbrev pub cache_magic : List ℕ
cache_magic = 75 ∷ 87 ∷ 89 ∷ 66 ∷ 71 ∷ 48 ∷ 48 ∷ 49 ∷ []

unfoldable pub to_le_bytes : ℕ → List ℕ
to_le_bytes n = n % 256 ∷ n / 256 % 256 ∷ n / 65536 % 256 ∷ n / 16777216 % 256 ∷ []

-- The four bytes of a number; the header has them all.
unfoldable pub from_le_bytes : List ℕ → ℕ
from_le_bytes (a ∷ b ∷ c ∷ d ∷ []) = a + b * 256 + c * 65536 + d * 16777216
from_le_bytes _ = 0

-- What is written to the temporary file, which is then renamed.
unfoldable pub stored : FrameSize → List ℕ → List ℕ
stored size pixels =
    cache_magic ++ (to_le_bytes (size.width) ++ (to_le_bytes (size.height) ++ pixels))

unfoldable pub read_next : ℕ → Option (List ℕ × List ℕ) → Option (List ℕ × List ℕ)
read_next b none = none
read_next b (some (read, rest)) = some (b ∷ read, rest)

-- `read_exact`: the bytes read and those that follow.
unfoldable pub read_exact : ℕ → List ℕ → Option (List ℕ × List ℕ)
read_exact zero bytes = some ([], bytes)
read_exact (suc n) [] = none
read_exact (suc n) (b ∷ bytes) = read_next b (read_exact n bytes)

unfoldable pub eq_bytes : List ℕ → List ℕ → Bool
eq_bytes [] [] = true
eq_bytes (a ∷ xs) (b ∷ ys) = (a == b) && eq_bytes xs ys
eq_bytes _ _ = false

unfoldable pub pixels_read : Option (List ℕ × List ℕ) → Result (Option (List ℕ))
pixels_read none = err image
pixels_read (some (pixels, rest)) = ok (some pixels)

-- The pixels, once the header is that of the size; bytes after them are not read.
unfoldable pub read_pixels : FrameSize → Option ℕ → List ℕ → Result (Option (List ℕ))
read_pixels size none rest = err (invalid_frame_size size)
read_pixels size (some n) rest = pixels_read (read_exact n rest)

unfoldable pub check_size : FrameSize → FrameSize → List ℕ → Result (Option (List ℕ))
check_size size cached rest =
    if eq_size cached size then read_pixels size (byte_len size) rest else ok none

-- The header is read whole: the magic bytes, then the two numbers.
unfoldable pub check_header : FrameSize → List ℕ → List ℕ → Result (Option (List ℕ))
check_header size (a ∷ b ∷ c ∷ d ∷ e ∷ f ∷ g ∷ h ∷ i ∷ j ∷ k ∷ l ∷ m ∷ n ∷ o ∷ p ∷ []) rest =
    if eq_bytes (a ∷ b ∷ c ∷ d ∷ e ∷ f ∷ g ∷ h ∷ []) cache_magic
    then check_size size
        (record {
          width = from_le_bytes (i ∷ j ∷ k ∷ l ∷ []);
          height = from_le_bytes (m ∷ n ∷ o ∷ p ∷ []);
        })
        rest
    else ok none
check_header size _ rest = err image

unfoldable pub header_read : FrameSize → Option (List ℕ × List ℕ) → Result (Option (List ℕ))
header_read size none = err image
header_read size (some (header, rest)) = check_header size header rest

-- A file that cannot be opened is a miss.
unfoldable pub load_cached_buffer : FrameSize → Option (List ℕ) → Result (Option (List ℕ))
load_cached_buffer size none = ok none
load_cached_buffer size (some file) = header_read size (read_exact 16 file)

from-to_le_bytes : (n : ℕ) → n < 4294967296 → from_le_bytes (to_le_bytes n) ≡ n
unfolding from_le_bytes to_le_bytes
from-to_le_bytes n h = omega arith

read_exact-append : (xs rest : List ℕ) → read_exact (length xs) (xs ++ rest) ≡ some (xs, rest)
unfolding read_exact read_next
read_exact-append [] rest = refl
read_exact-append (x ∷ xs) rest = ap (read_next x) (read_exact-append xs rest)

header_lem :
    (wanted size : FrameSize) (pixels : List ℕ)
    → load_cached_buffer wanted (some (stored size pixels))
      ≡ check_size wanted
          (record {
            width = from_le_bytes (to_le_bytes (size.width));
            height = from_le_bytes (to_le_bytes (size.height));
          })
          pixels
unfolding load_cached_buffer header_read check_header stored to_le_bytes eq_bytes read_exact
    read_next
header_lem wanted size pixels = refl

all_read :
    (pixels : List ℕ) (size : FrameSize)
    → read_pixels size (some (length pixels)) pixels ≡ ok (some pixels)
unfolding read_pixels pixels_read
all_read pixels size =
    ap (λ bytes. pixels_read (read_exact (length pixels) bytes)) (sym (append-nil pixels))
    ∙ ap pixels_read (read_exact-append pixels [])

pixels_lem :
    (wanted size : FrameSize) (pixels : List ℕ)
    → length pixels ≡ size.width * size.height * 4
    → length pixels ≤ usize_max
    → eq_size size wanted ≡ true
    → read_pixels wanted (byte_len wanted) pixels ≡ ok (some pixels)
unfolding eq_size byte_len times_four checked_mul
pixels_lem wanted size pixels l b e =
    let same_width : wanted.width ≡ size.width = ground (arith, e) in
    let same_height : wanted.height ≡ size.height = ground (arith, e) in
    let area : wanted.width * wanted.height ≡ size.width * size.height =
      rw (same_width, same_height) refl in
    let needed : byte_len wanted ≡ some (length pixels) =
      ap times_four (if_true (leb (wanted.width * wanted.height) usize_max) _ _ (ground arith))
      ∙ if_true (leb (wanted.width * wanted.height * 4) usize_max) _ _ (ground arith)
      ∙ ap some (omega arith) in
    ap (λ o. read_pixels wanted o pixels) needed ∙ all_read pixels wanted

-- What is stored for a size is loaded for that size, and for no other one: a file that holds the
-- pixels of a size gives exactly these pixels when that size is wanted, and is a miss when another
-- one is, if the sides are of 32 bits and the pixels as many bytes as they say, in 64 bits.
pub load_cached_buffer-stored :
    (wanted size : FrameSize) (pixels : List ℕ)
    → size.width < 4294967296
    → size.height < 4294967296
    → length pixels ≡ size.width * size.height * 4
    → length pixels ≤ usize_max
    → load_cached_buffer wanted (some (stored size pixels))
      ≡ (if eq_size size wanted then ok (some pixels) else ok none)
unfolding check_size
load_cached_buffer-stored wanted size pixels w h l b =
    header_lem wanted size pixels
    ∙ ap
        (λ x.
          check_size wanted
            (record { width = x; height = from_le_bytes (to_le_bytes (size.height)) }) pixels)
        (from-to_le_bytes (size.width) w)
    ∙ ap (λ x. check_size wanted (record { width = size.width; height = x }) pixels)
        (from-to_le_bytes (size.height) h)
    ∙ elim (Bool-cases (eq_size size wanted)) [
      | inl e ↦
          if_true (eq_size size wanted) _ _ e
          ∙ pixels_lem wanted size pixels l b e
          ∙ sym (if_true (eq_size size wanted) _ _ e)
      | inr e ↦ if_false (eq_size size wanted) _ _ e ∙ sym (if_false (eq_size size wanted) _ _ e)
    ]
