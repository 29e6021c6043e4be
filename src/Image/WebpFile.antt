-- ===== src/Image/WebpFile.antt =====
-- frontend/src/image/header.ts, `parseWebp`: the size of a WebP, and the orientation in its EXIF chunk.
pub mod Laws
use portrait_booth.Base.{
  ℕ, zero, suc, ◌+◌, ◌*◌, ◌/◌, ◌%◌, not, Option, none, List, ◌==◌, if◌then◌else◌, length, Loop,
  out_of_fuel, done,
}
use portrait_booth.Base.Int.{ℤ, pos, negsuc, ◌+ℤ◌, leb_ℤ}
use portrait_booth.Bytes.{bits_at_ℤ, u32_le}
use portrait_booth.Image.JpegFile.{Scan, sized}
use portrait_booth.Image.PngFile.{is_type, exif_chunk}

-- One round of the `while` loop: it returns null, leaves with its variables, or goes on.
pub data Round : Type 0 where
  reject : Round
  leave : Scan → Round
  advance : ℤ → Scan → Round

-- `off += size % 2 === 1 ? 9 + size : 8 + size`: a remainder of a negative number is never 1.
unfoldable pub next_chunk : ℤ → ℤ → ℤ
unfolding ◌+ℤ◌
next_chunk off (pos n) = off +ℤ pos (if n % 2 == 1 then 9 + n else 8 + n)
next_chunk off (negsuc n) = off +ℤ (pos 8 +ℤ negsuc n)

-- VP8X: the canvas size, in two times 24 bits.
unfoldable pub extended_chunk : List ℕ → ℤ → ℤ → Scan → Round
unfolding bits_at_ℤ ◌+ℤ◌ next_chunk
extended_chunk b off size s =
    let at = λ (k : ℕ). bits_at_ℤ b (off +ℤ pos (8 + k)) in
    if leb_ℤ (off +ℤ pos 18) (pos (length b))
    then advance (next_chunk off size) (record s {
      width = 1 + (at 4 + at 5 * 256 + at 6 * 65536);
      height = 1 + (at 7 + at 8 * 256 + at 9 * 65536);
    })
    else reject

-- "VP8 ": the lossy bit stream.
unfoldable pub lossy_chunk : List ℕ → ℤ → Scan → Round
unfolding bits_at_ℤ ◌+ℤ◌
lossy_chunk b off s =
    let at = λ (k : ℕ). bits_at_ℤ b (off +ℤ pos (8 + k)) in
    if leb_ℤ (off +ℤ pos 15) (pos (length b))
    then leave (record s { width = at 3 + at 4 % 64 * 256; height = at 5 + at 6 % 64 * 256 })
    else reject

-- VP8L: the lossless bit stream.
unfoldable pub lossless_chunk : List ℕ → ℤ → Scan → Round
unfolding bits_at_ℤ ◌+ℤ◌
lossless_chunk b off s =
    let at = λ (k : ℕ). bits_at_ℤ b (off +ℤ pos (8 + k)) in
    if leb_ℤ (off +ℤ pos 13) (pos (length b))
    then leave (record s {
      width = 1 + (at 1 + at 2 % 64 * 256);
      height = 1 + (at 2 / 64 + at 3 * 4 + at 4 % 16 * 1024);
    })
    else reject

unfoldable pub webp_round : List ℕ → ℤ → Scan → Round
webp_round b off s =
    let size = u32_le b (off +ℤ pos 4) in
    if not (leb_ℤ (off +ℤ pos 8) (pos (length b)))
    then leave s
    else if is_type b off 0x56 0x50 0x38 0x58
    then extended_chunk b off size s
    else if is_type b off 0x56 0x50 0x38 0x20
    then lossy_chunk b off s
    else if is_type b off 0x56 0x50 0x38 0x4c
    then lossless_chunk b off s
    else if is_type b off 0x45 0x58 0x49 0x46
    then leave (record s { orientation = exif_chunk b (off +ℤ pos 8) size })
    else advance (next_chunk off size) s

-- `none` is the `return null` out of the loop.
unfoldable pub webp_loop : ℕ → List ℕ → ℤ → Scan → Loop (Option Scan)
webp_loop zero b off s = out_of_fuel
webp_loop (suc fuel) b off s = elim (webp_round b off s) [
  | reject ↦ done none
  | leave s' ↦ done (sized s')
  | advance off' s' ↦ webp_loop fuel b off' s'
]

unfoldable pub parse_webp : ℕ → List ℕ → Loop (Option Scan)
unfolding webp_loop webp_round is_type exif_chunk extended_chunk lossy_chunk lossless_chunk
    next_chunk u32_le sized
parse_webp fuel b = webp_loop fuel b (pos 12) (record { width = 0; height = 0; orientation = 1 })
