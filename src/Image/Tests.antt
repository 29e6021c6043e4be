-- ===== src/Image/Tests.antt =====
-- frontend/src/image/header.ts and exif.ts on small files.
use portrait_booth.Base.{
  ℕ, ◌%◌, ◌<◌, ◌≡◌, refl, ◌⊎◌, inl, true, false, none, some, List, [], ◌∷◌, arith, out_of_fuel,
  done, Ends, All,
}
use portrait_booth.Base.Int.{pos, negsuc, ◌+ℤ◌, int_laws}
use portrait_booth.Bytes.{bits_at_ℤ, u32_be, is_byte_ℤ}
use portrait_booth.Image.Tiff.{find_orientation, tiff_u16, parse_tiff_orientation}
use portrait_booth.Image.Tiff.Laws.{parse_tiff_orientation-big_endian}
use portrait_booth.Image.JpegFile.{Scan, parse_jpeg, jpeg_loop, jpeg_round, jpeg_segment, sized}
use portrait_booth.Image.JpegFile.Laws.{parse_jpeg-Ends}
use portrait_booth.Image.PngFile.{png_loop, is_type}
use portrait_booth.Image.PngFile.Laws.{png_loop_hangs, HasNegativeLength, png_loop-Ends}
use portrait_booth.Image.WebpFile.{webp_loop}
use portrait_booth.Image.WebpFile.Laws.{webp_loop-lossy, webp_loop-image_data}
use portrait_booth.Image.Exif.{normalized_size}
use portrait_booth.Image.Exif.Laws.{
  moved, displayed, exchange, IsInside, orientation_transform-displayed,
  orientation_transform-IsInside,
}

-- One entry: tag 0x0112, type SHORT, one value, 6.
abbrev entry : List ℕ
entry = 0x12 ∷ 0x01 ∷ 3 ∷ 0 ∷ 1 ∷ 0 ∷ 0 ∷ 0 ∷ 6 ∷ 0 ∷ 0 ∷ 0 ∷ []

found : find_orientation true entry 1 (pos 0) ≡ some 6
unfolding find_orientation tiff_u16 bits_at_ℤ ◌+ℤ◌
found = refl

parse_tiff_orientation-big_endian_example :
    parse_tiff_orientation (0x4d ∷ 0x4d ∷ 0x00 ∷ 0x2a ∷ 0 ∷ 0 ∷ 0 ∷ 8 ∷ []) ≡ none
parse_tiff_orientation-big_endian_example = parse_tiff_orientation-big_endian (0 ∷ 0 ∷ 0 ∷ 8 ∷ [])

-- A start of frame for a picture of 2 by 3.
abbrev tiny : List ℕ
tiny = 0xff ∷ 0xd8 ∷ 0xff ∷ 0xc0 ∷ 0 ∷ 8 ∷ 8 ∷ 0 ∷ 3 ∷ 0 ∷ 2 ∷ 0 ∷ 0 ∷ []

tiny-parsed : parse_jpeg 13 tiny ≡ done (some (record { orientation = 1; width = 2; height = 3 }))
unfolding parse_jpeg jpeg_loop jpeg_round jpeg_segment sized
tiny-parsed = refl

parse_jpeg-Ends_example : Ends (parse_jpeg 13 tiny)
parse_jpeg-Ends_example = parse_jpeg-Ends tiny 13 (omega arith) (omega arith)

tiny-bytes : All (λ n. n < 256) tiny
tiny-bytes = ground arith

-- A chunk with the length field 0xFFFFFFF4 and the type "tEXt".
abbrev negative_chunk : List ℕ
negative_chunk = 0xff ∷ 0xff ∷ 0xff ∷ 0xf4 ∷ 0x74 ∷ 0x45 ∷ 0x58 ∷ 0x74 ∷ 0 ∷ 0 ∷ 0 ∷ 0 ∷ []

negative : u32_be negative_chunk (pos 0) ≡ negsuc 11
unfolding u32_be
negative = refl

not_type :
    (is_type negative_chunk (pos 0 +ℤ pos 4) 0x65 0x58 0x49 0x66 ≡ false)
    × (is_type negative_chunk (pos 0 +ℤ pos 4) 0x49 0x44 0x41 0x54 ≡ false)
unfolding is_type is_byte_ℤ ◌+ℤ◌
not_type = (refl, refl)

png_loop_hangs_example : png_loop 1000 negative_chunk (pos 0) ≡ out_of_fuel
png_loop_hangs_example =
    png_loop_hangs negative_chunk (pos 0) 1000 (omega int_laws) negative not_type.0 not_type.1

-- A chunk without data and of the type "tEXt".
abbrev text_chunk : List ℕ
text_chunk = 0 ∷ 0 ∷ 0 ∷ 0 ∷ 0x74 ∷ 0x45 ∷ 0x58 ∷ 0x74 ∷ 0 ∷ 0 ∷ 0 ∷ 0 ∷ []

png_loop-Ends_example : Ends (png_loop 13 text_chunk (pos 0)) ⊎ HasNegativeLength text_chunk 0
png_loop-Ends_example = png_loop-Ends 13 text_chunk 0 (omega arith)

-- "VP8 ", a length, a frame tag and the start code, then 16 by 16.
abbrev lossy : List ℕ
lossy =
    0x56 ∷ 0x50 ∷ 0x38 ∷ 0x20 ∷ 10 ∷ 0 ∷ 0 ∷ 0 ∷ 0 ∷ 0 ∷ 0 ∷ 0x9d ∷ 0x01 ∷ 0x2a ∷ 16 ∷ 0 ∷ 16 ∷ 0
    ∷ []

lossy-bytes :
    (is_type lossy (pos 0) 0x56 0x50 0x38 0x20 ≡ true)
    × (bits_at_ℤ lossy (pos 0 +ℤ pos 11) ≡ 0x9d)
    × (bits_at_ℤ lossy (pos 0 +ℤ pos 12) ≡ 0x01)
    × (bits_at_ℤ lossy (pos 0 +ℤ pos 13) ≡ 0x2a)
unfolding is_type is_byte_ℤ bits_at_ℤ ◌+ℤ◌
lossy-bytes = (refl, refl, refl, refl)

abbrev blank : Scan
blank = record { orientation = 1; width = 0; height = 0 }

webp_loop-lossy_example :
    (t : Scan) × (webp_loop 3 lossy (pos 0) blank ≡ done (some t))
    × (t.width ≡ 413)
    × (t.height % 256 ≡ 0x2a)
webp_loop-lossy_example =
    webp_loop-lossy lossy (pos 0) blank 2 lossy-bytes.0 (omega int_laws) lossy-bytes.1 lossy-bytes.2
      lossy-bytes.3

webp_loop-image_data_example :
    (webp_loop 3 lossy (pos 0) blank ≡ done none)
    ⊎ ((t : Scan) × (webp_loop 3 lossy (pos 0) blank ≡ done (some t)) × (t.orientation ≡ 1))
webp_loop-image_data_example = webp_loop-image_data lossy (pos 0) blank 2 (inl lossy-bytes.0)

orientation_transform-displayed_example :
    moved 6 (pos 4) (pos 3) (pos 1) (pos 2) ≡ displayed (exchange 6) (pos 4) (pos 3) (pos 1) (pos 2)
orientation_transform-displayed_example =
    orientation_transform-displayed 6 (pos 4) (pos 3) (pos 1) (pos 2)

orientation_transform-IsInside_example :
    IsInside
      (moved 6 (pos 4) (pos 3) (pos 1) (pos 2))
      (normalized_size (record { width = pos 4; height = pos 3 }) 6)
orientation_transform-IsInside_example =
    orientation_transform-IsInside 6 (pos 4) (pos 3) (pos 1) (pos 2)
      (omega arith, omega arith, omega arith, omega arith)
