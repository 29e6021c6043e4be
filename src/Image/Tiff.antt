-- ===== src/Image/Tiff.antt =====
-- frontend/src/image/header.ts, `parseTiffOrientation`: the walk through the first directory.
pub mod Laws
use portrait_booth.Base.{
  ℕ, zero, suc, ◌+◌, ◌*◌, Bool, true, false, not, ◌&&◌, ◌||◌, Option, none, some, List, ltb, ◌==◌,
  if◌then◌else◌, length,
}
use portrait_booth.Base.Int.{ℤ, pos, ◌+ℤ◌, leb_ℤ}
use portrait_booth.Bytes.{is_byte, bits_at_ℤ, u32_be, u32_le}

abbrev pub orientation_tag : ℕ
orientation_tag = 0x0112

unfoldable pub tiff_u16 : Bool → List ℕ → ℤ → ℕ
unfolding bits_at_ℤ ◌+ℤ◌
tiff_u16 true bytes off = bits_at_ℤ bytes off + bits_at_ℤ bytes (off +ℤ pos 1) * 256
tiff_u16 false bytes off = bits_at_ℤ bytes off * 256 + bits_at_ℤ bytes (off +ℤ pos 1)

unfoldable pub tiff_u32 : Bool → List ℕ → ℤ → ℤ
unfolding u32_le u32_be
tiff_u32 true bytes off = u32_le bytes off
tiff_u32 false bytes off = u32_be bytes off

-- The `for` loop: `left` entries of twelve bytes to go, the next one at `entry`.
unfoldable pub find_orientation : Bool → List ℕ → ℕ → ℤ → Option ℕ
find_orientation le bytes zero entry = none
find_orientation le bytes (suc left) entry =
    let rest = find_orientation le bytes left (entry +ℤ pos 12) in
    if not (leb_ℤ (entry +ℤ pos 12) (pos (length bytes)))
    then none
    else if tiff_u16 le bytes entry == orientation_tag && tiff_u16 le bytes (entry +ℤ pos 2) == 3
    then some (tiff_u16 le bytes (entry +ℤ pos 8))
    else rest

unfoldable pub parse_directory : Bool → List ℕ → Option ℕ
parse_directory le bytes =
    let ifd = tiff_u32 le bytes (pos 4) in
    if leb_ℤ (ifd +ℤ pos 2) (pos (length bytes))
    then find_orientation le bytes (tiff_u16 le bytes ifd) (ifd +ℤ pos 2)
    else none

unfoldable pub parse_tiff_orientation : List ℕ → Option ℕ
parse_tiff_orientation bytes =
    let little = is_byte bytes 0 0x49 && is_byte bytes 1 0x49 in
    if ltb (length bytes) 8
    then none
    else if not little && not (is_byte bytes 0 0x4d && is_byte bytes 1 0x4d)
    then none
    else if not (is_byte bytes 2 0x2a) || not (is_byte bytes 3 0x00)
    then none
    else parse_directory little bytes
