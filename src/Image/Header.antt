-- ===== src/Image/Header.antt =====
-- frontend/src/image/header.ts, `parseImageHeader`: the format by its first bytes, then its parser.
use portrait_booth.Base.{
  ℕ, Bool, ◌&&◌, ◌||◌, Option, none, some, List, ltb, if◌then◌else◌, length, Loop, out_of_fuel,
  done,
}
use portrait_booth.Base.Int.{ℤ, pos}
use portrait_booth.Bytes.{is_byte}
use portrait_booth.Image.JpegFile.{Scan, parse_jpeg}
use portrait_booth.Image.PngFile.{PngScan, parse_png}
use portrait_booth.Image.WebpFile.{parse_webp}

pub data ImageFormat : Type 0 where
  jpeg png webp heif : ImageFormat

pub record ImageHeader : Type 0 where
  pub format : ImageFormat
  pub width : ℤ
  pub height : ℤ
  pub orientation : ℕ

unfoldable pub is_jpeg : List ℕ → Bool
is_jpeg b = is_byte b 0 0xff && is_byte b 1 0xd8 && is_byte b 2 0xff

unfoldable pub is_png : List ℕ → Bool
is_png b =
    is_byte b 0 0x89
    && is_byte b 1 0x50
    && is_byte b 2 0x4e
    && is_byte b 3 0x47
    && is_byte b 4 0x0d
    && is_byte b 5 0x0a
    && is_byte b 6 0x1a
    && is_byte b 7 0x0a

unfoldable pub is_webp : List ℕ → Bool
is_webp b =
    is_byte b 0 0x52
    && is_byte b 1 0x49
    && is_byte b 2 0x46
    && is_byte b 3 0x46
    && is_byte b 8 0x57
    && is_byte b 9 0x45
    && is_byte b 10 0x42
    && is_byte b 11 0x50

unfoldable pub is_brand : List ℕ → ℕ → ℕ → ℕ → ℕ → Bool
is_brand b c0 c1 c2 c3 = is_byte b 8 c0 && is_byte b 9 c1 && is_byte b 10 c2 && is_byte b 11 c3

-- "ftyp" and one of the brands heic, heix, hevc, hevx, hevm, hevs, mif1, msf1.
unfoldable pub is_heif : List ℕ → Bool
unfolding is_brand
is_heif b =
    is_byte b 4 0x66
    && is_byte b 5 0x74
    && is_byte b 6 0x79
    && is_byte b 7 0x70
    && (is_brand b 0x68 0x65 0x69 0x63
        || is_brand b 0x68 0x65 0x69 0x78
        || is_brand b 0x68 0x65 0x76 0x63
        || is_brand b 0x68 0x65 0x76 0x78
        || is_brand b 0x68 0x65 0x76 0x6d
        || is_brand b 0x68 0x65 0x76 0x73
        || is_brand b 0x6d 0x69 0x66 0x31
        || is_brand b 0x6d 0x73 0x66 0x31)

abbrev pub of_scan : ImageFormat → Loop (Option Scan) → Loop (Option ImageHeader)
of_scan format out_of_fuel = out_of_fuel
of_scan format (done none) = done none
of_scan format (done (some s)) = done (
    some (record {
      format = format;
      width = pos s.width;
      height = pos s.height;
      orientation = s.orientation;
    }))

abbrev pub of_png_scan : Loop (Option PngScan) → Loop (Option ImageHeader)
of_png_scan out_of_fuel = out_of_fuel
of_png_scan (done none) = done none
of_png_scan (done (some s)) = done (
    some (record {
      format = ImageFormat.png;
      width = s.width;
      height = s.height;
      orientation = s.orientation;
    }))

unfoldable pub parse_image_header : ℕ → List ℕ → Loop (Option ImageHeader)
unfolding is_jpeg is_png is_webp is_heif parse_jpeg parse_png parse_webp
parse_image_header fuel b =
    if ltb (length b) 12
    then done none
    else if is_jpeg b
    then of_scan jpeg (parse_jpeg fuel b)
    else if is_png b
    then of_png_scan (parse_png fuel b)
    else if is_webp b
    then of_scan webp (parse_webp fuel b)
    else if is_heif b
    then done (some (record { format = heif; width = pos 0; height = pos 0; orientation = 1 }))
    else done none
