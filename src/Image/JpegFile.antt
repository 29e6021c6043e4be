-- ===== src/Image/JpegFile.antt =====
-- frontend/src/image/header.ts, `parseJpeg`: the size and the orientation of a JPEG.
pub mod Laws
use portrait_booth.Base.{
  ℕ, zero, suc, ◌+◌, ◌-◌, Bool, not, ◌&&◌, ◌||◌, Option, none, some, List, ltb, leb, ◌==◌,
  if◌then◌else◌, length, take, drop, Loop, out_of_fuel, done,
}
use portrait_booth.Bytes.{is_byte, bits_at, u16_at}
use portrait_booth.Image.Tiff.{parse_tiff_orientation}

-- The three variables of the loop that its caller reads.
pub record Scan : Type 0 where
  pub width : ℕ
  pub height : ℕ
  pub orientation : ℕ

-- One round of the `while` loop: it leaves with a size, or goes on at an offset.
pub data Round : Type 0 where
  leave : (width height : ℕ) → Round
  advance : (off orientation : ℕ) → Round

-- `parseTiffOrientation(b.subarray(from, to)) ?? 1`.
abbrev pub orientation_or_1 : Option ℕ → ℕ
orientation_or_1 none = 1
orientation_or_1 (some o) = o

unfoldable pub tiff_in : List ℕ → ℕ → ℕ → ℕ
tiff_in b from to = orientation_or_1 (parse_tiff_orientation (take (to - from) (drop from b)))

-- APP1: "Exif\0\0" and TIFF data.
unfoldable pub is_exif_app1 : List ℕ → ℕ → ℕ → Bool
is_exif_app1 b p len =
    leb 8 len
    && is_byte b p 0x45
    && is_byte b (p + 1) 0x78
    && is_byte b (p + 2) 0x69
    && is_byte b (p + 3) 0x66
    && is_byte b (p + 4) 0x00
    && is_byte b (p + 5) 0x00

-- SOF0 to SOF15, without DHT, JPG and DAC.
unfoldable pub is_sof : ℕ → Bool
is_sof marker =
    (leb 0xc0 marker && leb marker 0xc3)
    || (leb 0xc5 marker && leb marker 0xc7)
    || (leb 0xc9 marker && leb marker 0xcb)
    || (leb 0xcd marker && leb marker 0xcf)

-- What is done with a segment whose length field is in order.
unfoldable pub jpeg_segment : List ℕ → ℕ → ℕ → ℕ → ℕ → Round
jpeg_segment b off orientation marker len =
    if marker == 0xe1
    then advance (off + 2 + len) (
        if is_exif_app1 b (off + 4) len
        then tiff_in b (off + 4 + 6) (off + 2 + len)
        else orientation)
    else if is_sof marker
    then leave (u16_at b (off + 7)) (u16_at b (off + 5))
    else advance (off + 2 + len) orientation

unfoldable pub jpeg_round : List ℕ → ℕ → ℕ → Round
jpeg_round b off orientation =
    let marker = bits_at b (off + 1) in
    let len = u16_at b (off + 2) in
    if not (leb (off + 4) (length b))
    then leave 0 0
    else if not (is_byte b off 0xff)
    then leave 0 0
    else if marker == 0xd9 || marker == 0xda
    then leave 0 0
    else if marker == 0x01 || (leb 0xd0 marker && leb marker 0xd7)
    then advance (off + 2) orientation
    else if ltb len 2 || ltb (length b) (off + 2 + len)
    then leave 0 0
    else jpeg_segment b off orientation marker len

unfoldable pub jpeg_loop : ℕ → List ℕ → ℕ → ℕ → Loop Scan
jpeg_loop zero b off orientation = out_of_fuel
jpeg_loop (suc fuel) b off orientation = elim (jpeg_round b off orientation) [
  | leave width height ↦ done (record { width = width; height = height; orientation = orientation })
  | advance off' orientation' ↦ jpeg_loop fuel b off' orientation'
]

-- The check behind the loop, which all three parsers make.
unfoldable pub sized : Scan → Option Scan
sized s = if s.width == 0 || s.height == 0 then none else some s

abbrev pub after_loop : Loop Scan → Loop (Option Scan)
after_loop out_of_fuel = out_of_fuel
after_loop (done s) = done (sized s)

unfoldable pub parse_jpeg : ℕ → List ℕ → Loop (Option Scan)
unfolding jpeg_loop jpeg_round jpeg_segment is_exif_app1 is_sof tiff_in sized
parse_jpeg fuel b = after_loop (jpeg_loop fuel b 2 1)
