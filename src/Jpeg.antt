-- ===== src/Jpeg.antt =====
-- frontend/src/render/jpeg.ts: the JFIF density of an encoded JPEG and the search for EXIF data.
-- A `Uint8Array` is a list of numbers, each below 256. A read outside of it is `undefined`, here
-- `none`; `blob.arrayBuffer` and `new Blob` are only wrapped around these functions.
pub mod Laws
pub mod Rewrite
mod Tests
use portrait_booth.Base.{
  ℕ, zero, suc, ◌+◌, ◌*◌, ◌/◌, ◌%◌, ◌≡◌, Bool, true, false, ◌&&◌, Option, none, some, List, ltb,
  leb, ◌==◌, if◌then◌else◌, length, get_elem?, set, Loop, out_of_fuel, done,
}
use portrait_booth.Bytes.{is_byte, bits_at, u16_at}

pub record JpegDensity : Type 0 where
  pub units : ℕ
  pub xdensity : ℕ
  pub ydensity : ℕ

pub record Segment : Type 0 where
  pub marker : ℕ
  pub len : ℕ

-- The loop condition and the guards at the head of the three loops: the segment at `off`, or `none`
-- where the loop is left.
unfoldable pub next_segment : List ℕ → ℕ → Option Segment
next_segment bytes off =
    let marker = bits_at bytes (off + 1) in
    let len = u16_at bytes (off + 2) in
    if leb (off + 4) (length bytes)
      && is_byte bytes off 0xff
      && (if marker == 0xd9 then false else if marker == 0xda then false else true)
      && leb 2 len
      && leb (off + 2 + len) (length bytes)
    then some (record { marker = marker; len = len })
    else none

-- "JFIF\0" at `p`.
pub is_jfif : List ℕ → ℕ → Bool
is_jfif bytes p =
    is_byte bytes p 0x4a
    && is_byte bytes (p + 1) 0x46
    && is_byte bytes (p + 2) 0x49
    && is_byte bytes (p + 3) 0x46
    && is_byte bytes (p + 4) 0x00

-- The test that `readJpegDensity` and `rewriteJfifDensityBytes` make of a segment.
unfoldable pub is_app0 : List ℕ → ℕ → Segment → Bool
unfolding is_jfif
is_app0 bytes off s = s.marker == 0xe0 && leb 14 s.len && is_jfif bytes (off + 4)

pub density_at : List ℕ → ℕ → JpegDensity
density_at bytes p = record {
  units = bits_at bytes (p + 7);
  xdensity = u16_at bytes (p + 8);
  ydensity = u16_at bytes (p + 10);
}

pub read_loop : ℕ → List ℕ → ℕ → Loop (Option JpegDensity)
read_loop zero bytes off = out_of_fuel
read_loop (suc fuel) bytes off = elim (next_segment bytes off) [
  | none ↦ done none
  | some s ↦ elim (is_app0 bytes off s) [
    | true ↦ done (some (density_at bytes (off + 4)))
    | false ↦ read_loop fuel bytes (off + 2 + s.len)
  ]
]

-- The fuel is one more than the length: each round goes on by at least four bytes.
unfoldable pub read_jpeg_density : List ℕ → Loop (Option JpegDensity)
unfolding read_loop
read_jpeg_density bytes = read_loop (suc (length bytes)) bytes 2

-- The five writes. `(ppi >> 8) & 0xff` and `ppi & 0xff`, for a ppi below 2 ^ 31.
unfoldable pub write_density : List ℕ → ℕ → ℕ → List ℕ
write_density out p ppi =
    let hi = ppi / 256 % 256 in
    let lo = ppi % 256 in
    set (set (set (set (set out (p + 7) 1) (p + 8) hi) (p + 9) lo) (p + 10) hi) (p + 11) lo

-- `none` is the thrown error.
pub rewrite_loop : ℕ → List ℕ → ℕ → ℕ → Loop (Option (List ℕ))
rewrite_loop zero out off ppi = out_of_fuel
rewrite_loop (suc fuel) out off ppi = elim (next_segment out off) [
  | none ↦ done none
  | some s ↦ elim (is_app0 out off s) [
    | true ↦ done (some (write_density out (off + 4) ppi))
    | false ↦ rewrite_loop fuel out (off + 2 + s.len) ppi
  ]
]

unfoldable pub rewrite_jfif_density_bytes : List ℕ → ℕ → Loop (Option (List ℕ))
unfolding rewrite_loop
rewrite_jfif_density_bytes bytes ppi = rewrite_loop (suc (length bytes)) bytes 2 ppi

-- "Exif" at `p`.
pub is_exif : List ℕ → ℕ → Bool
is_exif bytes p =
    is_byte bytes p 0x45
    && is_byte bytes (p + 1) 0x78
    && is_byte bytes (p + 2) 0x69
    && is_byte bytes (p + 3) 0x66

unfoldable pub is_app1 : List ℕ → ℕ → Segment → Bool
unfolding is_exif
is_app1 bytes off s = s.marker == 0xe1 && leb 8 s.len && is_exif bytes (off + 4)

pub exif_loop : ℕ → List ℕ → ℕ → Loop Bool
exif_loop zero bytes off = out_of_fuel
exif_loop (suc fuel) bytes off = elim (next_segment bytes off) [
  | none ↦ done false
  | some s ↦ elim (is_app1 bytes off s) [
    | true ↦ done true
    | false ↦ exif_loop fuel bytes (off + 2 + s.len)
  ]
]

unfoldable pub has_exif_segment : List ℕ → Loop Bool
unfolding exif_loop
has_exif_segment bytes = exif_loop (suc (length bytes)) bytes 2
