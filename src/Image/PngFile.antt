-- ===== src/Image/PngFile.antt =====
-- frontend/src/image/header.ts, `parsePng`: the size of a PNG, and the orientation in its eXIf chunk.
-- A chunk's length is read as a signed integer, so offsets may fall.
pub mod Laws
use portrait_booth.Base.{
  ℕ, zero, suc, Bool, not, ◌&&◌, ◌||◌, Option, none, some, List, ltb, if◌then◌else◌, length, take,
  drop, Loop, out_of_fuel, done,
}
use portrait_booth.Base.Int.{ℤ, pos, pos_part, ◌+ℤ◌, leb_ℤ}
use portrait_booth.Bytes.{is_byte, is_byte_ℤ, u32_be}
use portrait_booth.Image.JpegFile.{orientation_or_1}
use portrait_booth.Image.Tiff.{parse_tiff_orientation}

-- Sizes are integers here: 2 ^ 31 and more are read as negative.
pub record PngScan : Type 0 where
  pub width : ℤ
  pub height : ℤ
  pub orientation : ℕ

pub data Round : Type 0 where
  leave : (orientation : ℕ) → Round
  advance : (off : ℤ) → Round

-- `type === "…"`, by the codes of the four characters, none of which is 0.
unfoldable pub is_type : List ℕ → ℤ → ℕ → ℕ → ℕ → ℕ → Bool
unfolding is_byte_ℤ ◌+ℤ◌
is_type b off c0 c1 c2 c3 =
    is_byte_ℤ b off c0
    && is_byte_ℤ b (off +ℤ pos 1) c1
    && is_byte_ℤ b (off +ℤ pos 2) c2
    && is_byte_ℤ b (off +ℤ pos 3) c3

-- The eXIf chunk, or EXIF in a WebP, where the orientation is still 1. Its type was read at `off + 4`, so `start` is not negative.
unfoldable pub exif_chunk : List ℕ → ℤ → ℤ → ℕ
unfolding ◌+ℤ◌
exif_chunk b start len =
    if leb_ℤ (pos 8) len && leb_ℤ (start +ℤ len) (pos (length b))
    then orientation_or_1 (parse_tiff_orientation (take (pos_part len) (drop (pos_part start) b)))
    else 1

unfoldable pub png_round : List ℕ → ℤ → Round
png_round b off =
    if not (leb_ℤ (off +ℤ pos 12) (pos (length b)))
    then leave 1
    else if is_type b (off +ℤ pos 4) 0x65 0x58 0x49 0x66
    then leave (exif_chunk b (off +ℤ pos 8) (u32_be b off))
    else if is_type b (off +ℤ pos 4) 0x49 0x44 0x41 0x54
    then leave 1
    else advance (off +ℤ (pos 12 +ℤ u32_be b off))

unfoldable pub png_loop : ℕ → List ℕ → ℤ → Loop ℕ
png_loop zero b off = out_of_fuel
png_loop (suc fuel) b off = elim (png_round b off) [
  | leave orientation ↦ done orientation
  | advance off' ↦ png_loop fuel b off'
]

abbrev pub with_size : ℤ → ℤ → Loop ℕ → Loop (Option PngScan)
with_size width height out_of_fuel = out_of_fuel
with_size width height (done orientation) =
    done (some (record { width = width; height = height; orientation = orientation }))

abbrev pub is_zero : ℤ → Bool
is_zero z = leb_ℤ z (pos 0) && leb_ℤ (pos 0) z

unfoldable pub parse_png : ℕ → List ℕ → Loop (Option PngScan)
unfolding png_loop png_round is_type exif_chunk u32_be
parse_png fuel b =
    let width = u32_be b (pos 16) in
    let height = u32_be b (pos 20) in
    let ihdr = is_byte b 12 0x49 && is_byte b 13 0x48 && is_byte b 14 0x44 && is_byte b 15 0x52 in
    if ltb (length b) 24
    then done none
    else if not ihdr
    then done none
    else if is_zero width || is_zero height
    then done none
    else with_size width height (png_loop fuel b (pos 8))
