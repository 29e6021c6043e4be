-- ===== src/Image/Tiff/Laws.antt =====
-- frontend/src/image/header.ts, `parseTiffOrientation`: which entry is read, and which files are not.
use portrait_booth.Base.{
  ℕ, zero, suc, ◌*◌, ◌<◌, ◌≡◌, Bool, none, some, List, ◌∷◌, arith, length, Bool-cases, inl, inr,
  ◌==◌, ◌&&◌,
}
use portrait_booth.Base.Int.{ℤ, pos, ◌+ℤ◌, ◌≤ℤ◌, leb_ℤ, int_laws, eq_of_parts}
use portrait_booth.Image.Tiff.{orientation_tag, tiff_u16, find_orientation, parse_tiff_orientation}

-- An entry of the directory that carries the value `o`: tag 0x0112 of type SHORT, inside the data.
abbrev pub IsOrientationEntry : Bool → List ℕ → ℤ → ℕ → Type 0
IsOrientationEntry le bytes entry o =
    (entry +ℤ pos 12 ≤ℤ pos (length bytes))
    × (tiff_u16 le bytes entry ≡ orientation_tag)
    × (tiff_u16 le bytes (entry +ℤ pos 2) ≡ 3)
    × (tiff_u16 le bytes (entry +ℤ pos 8) ≡ o)

shift : (entry : ℤ) (k : ℕ) → entry +ℤ pos 12 +ℤ pos (12 * k) ≡ entry +ℤ pos (12 * suc k)
shift entry k = eq_of_parts _ _ (omega int_laws)

start : (entry : ℤ) → entry ≡ entry +ℤ pos (12 * 0)
start entry = eq_of_parts _ _ (omega int_laws)

-- What the walk returns is the value of one of the entries that the directory counts.
find_orientation_found :
    (le : Bool) (bytes : List ℕ) (left : ℕ) (entry : ℤ) (o : ℕ)
    → find_orientation le bytes left entry ≡ some o
    → (k : ℕ) × (k < left) × IsOrientationEntry le bytes (entry +ℤ pos (12 * k)) o
unfolding find_orientation
find_orientation_found le bytes zero entry o h = cc
find_orientation_found le bytes (suc left) entry o h =
    elim (Bool-cases (leb_ℤ (entry +ℤ pos 12) (pos (length bytes)))) [
      | inr out ↦ absurd (ground arith)
      | inl fits ↦
          elim (Bool-cases (
            tiff_u16 le bytes entry == orientation_tag
            && tiff_u16 le bytes (entry +ℤ pos 2) == 3)) [
              | inl t ↦ (
                0,
                omega arith,
                rw (← start entry) (ground arith, ground arith, ground arith, ground arith),
              )
              | inr t ↦
                  let (k, below, found) =
                    find_orientation_found le bytes left (entry +ℤ pos 12) o (ground arith) in
                  (suc k, omega arith, rw (shift entry k) at found)
            ]
    ]

-- Data that begins with "MM" and the number 42 in the byte order that "MM" announces, 00 2A, is
-- never read: the magic number is compared in little-endian order whatever the byte order.
pub parse_tiff_orientation-big_endian :
    (rest : List ℕ) → parse_tiff_orientation (0x4d ∷ 0x4d ∷ 0x00 ∷ 0x2a ∷ rest) ≡ none
unfolding parse_tiff_orientation
parse_tiff_orientation-big_endian rest = ground arith
