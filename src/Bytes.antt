-- ===== src/Bytes.antt =====
-- Reading a `Uint8Array`, as frontend/src/image/header.ts and frontend/src/render/jpeg.ts do.
-- The array is a list of numbers, each below 256; a read outside of it is `undefined`, here `none`.
use portrait_booth.Base.{
  ℕ, ◌+◌, ◌-◌, ◌*◌, ◌^◌, Bool, false, none, some, List, ltb, ◌==◌, if◌then◌else◌, get_elem?,
}
use portrait_booth.Base.Int.{ℤ, pos, negsuc, ◌+ℤ◌}

-- `bytes[i] === c`, which `undefined` never satisfies.
abbrev pub is_byte : List ℕ → ℕ → ℕ → Bool
is_byte bytes i c = elim (get_elem? bytes i) [ none ↦ false | some v ↦ v == c ]

-- `bytes[i]` as an operand of `<<` and `|`, where `undefined` counts as 0.
abbrev pub bits_at : List ℕ → ℕ → ℕ
bits_at bytes i = elim (get_elem? bytes i) [ none ↦ 0 | some v ↦ v ]

-- `(bytes[i] << 8) | bytes[i + 1]`: the operands share no bit, since they are bytes.
abbrev pub u16_at : List ℕ → ℕ → ℕ
u16_at bytes i = bits_at bytes i * 256 + bits_at bytes (i + 1)

-- A number below 2 ^ 32 as the signed 32-bit integer that `|` and `<< 24` make of it.
unfoldable pub to_int32 : ℕ → ℤ
to_int32 v = if ltb v (2 ^ 31) then pos v else negsuc (2 ^ 32 - 1 - v)

-- The same reads at an offset that may have become negative.
unfoldable pub bits_at_ℤ : List ℕ → ℤ → ℕ
bits_at_ℤ bytes (pos i) = bits_at bytes i
bits_at_ℤ bytes (negsuc i) = 0

unfoldable pub is_byte_ℤ : List ℕ → ℤ → ℕ → Bool
is_byte_ℤ bytes (pos i) c = is_byte bytes i c
is_byte_ℤ bytes (negsuc i) c = false

-- `(b[i] << 24) | (b[i + 1] << 16) | (b[i + 2] << 8) | b[i + 3]`.
unfoldable pub u32_be : List ℕ → ℤ → ℤ
unfolding to_int32 bits_at_ℤ ◌+ℤ◌
u32_be bytes i = to_int32 (
    bits_at_ℤ bytes i * 2 ^ 24
    + bits_at_ℤ bytes (i +ℤ pos 1) * 2 ^ 16
    + bits_at_ℤ bytes (i +ℤ pos 2) * 2 ^ 8
    + bits_at_ℤ bytes (i +ℤ pos 3))

-- `b[i] | (b[i + 1] << 8) | (b[i + 2] << 16) | (b[i + 3] << 24)`.
unfoldable pub u32_le : List ℕ → ℤ → ℤ
unfolding to_int32 bits_at_ℤ ◌+ℤ◌
u32_le bytes i = to_int32 (
    bits_at_ℤ bytes i
    + bits_at_ℤ bytes (i +ℤ pos 1) * 2 ^ 8
    + bits_at_ℤ bytes (i +ℤ pos 2) * 2 ^ 16
    + bits_at_ℤ bytes (i +ℤ pos 3) * 2 ^ 24)
