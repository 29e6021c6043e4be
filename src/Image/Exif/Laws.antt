-- ===== src/Image/Exif/Laws.antt =====
-- frontend/src/image/exif.ts against the meaning that the EXIF standard gives an orientation.
use portrait_booth.Base.{ℕ, zero, suc, ◌≡◌, arith, ◌<◌, ◌==◌, ◌||◌, if◌then◌else◌}
use portrait_booth.Base.Int.{
  ℤ, pos, negsuc, ◌+ℤ◌, ◌-ℤ◌, ◌*ℤ◌, ◌≤ℤ◌, int_laws, -ℤ_parts, eq_of_parts,
}
use portrait_booth.Number.{int_ring}
use portrait_booth.Image.Exif.{Point, Rect, normalized_size, apply_transform, orientation_transform}

-- Multiplication by the entries of the matrices.
mul_nought : (x : ℤ) → pos 0 *ℤ x ≡ pos 0
unfolding ◌*ℤ◌
mul_nought x = ground arith

mul_one : (x : ℤ) → pos 1 *ℤ x ≡ x
unfolding ◌*ℤ◌
mul_one x = ground arith

mul_minus : (x : ℤ) → negsuc 0 *ℤ x ≡ pos 0 -ℤ x
unfolding ◌*ℤ◌ ◌-ℤ◌
mul_minus x = ground arith

-- The side of the displayed picture on which row 0, or column 0, of the stored one stands.
pub data Side : Type 0 where
  top bottom left right : Side

-- The table of the standard (EXIF 2.3, tag 0x0112): the side of row 0, and that of column 0.
abbrev pub row_0 : ℕ → Side
row_0 o =
    if o == 3 || o == 4
    then bottom
    else if o == 5 || o == 8
    then left
    else if o == 6 || o == 7
    then right
    else top

abbrev pub column_0 : ℕ → Side
column_0 o =
    if o == 2 || o == 3
    then right
    else if o == 5 || o == 6
    then top
    else if o == 7 || o == 8
    then bottom
    else left

-- Where the point (x, y) of a stored picture of `w` by `h` is displayed, from the left and the top.
across : Side → Side → (w h x y : ℤ) → ℤ
across left column w h x y = y
across right column w h x y = h -ℤ y
across row right w h x y = w -ℤ x
across row column w h x y = x

down : Side → Side → (w h x y : ℤ) → ℤ
down top column w h x y = y
down bottom column w h x y = h -ℤ y
down row bottom w h x y = w -ℤ x
down row column w h x y = x

pub displayed : ℕ → (w h x y : ℤ) → Point ℤ
unfolding across down
displayed o w h x y = record {
  x = across (row_0 o) (column_0 o) w h x y;
  y = down (row_0 o) (column_0 o) w h x y;
}

-- 6 for 8 and 8 for 6.
abbrev pub exchange : ℕ → ℕ
exchange o = if o == 6 then 8 else if o == 8 then 6 else o

add_nought : (x : ℤ) → x +ℤ pos 0 ≡ x
add_nought x = eq_of_parts _ _ (omega int_laws)

nought_add : (x : ℤ) → pos 0 +ℤ x ≡ x
nought_add x = eq_of_parts _ _ (omega int_laws)

minus_add : (x w : ℤ) → pos 0 -ℤ x +ℤ w ≡ w -ℤ x
minus_add x w = eq_of_parts _ _ (omega int_laws)

minus_one : pos 0 -ℤ pos 1 ≡ negsuc 0
minus_one = eq_of_parts _ _ (omega int_laws)

ruleset exif_laws = (minus_one, mul_nought, mul_one, mul_minus, add_nought, nought_add, minus_add)

-- The orientation of a picture whose pixels are counted, as the code moves its points.
abbrev pub moved : ℕ → (w h x y : ℤ) → Point ℤ
moved o w h x y = apply_transform ⦃r = int_ring⦄ (orientation_transform ⦃r = int_ring⦄ o w h) x y

transform_above :
    (o : ℕ) (w h : ℤ)
    → 8 < o
    → orientation_transform ⦃r = int_ring⦄ o w h ≡ orientation_transform ⦃r = int_ring⦄ 1 w h
unfolding orientation_transform
transform_above o w h big = ground arith

displayed_above :
    (o : ℕ) (w h x y : ℤ) → 8 < o → displayed (exchange o) w h x y ≡ displayed 1 w h x y
unfolding displayed
displayed_above o w h x y big = ground arith

-- The transform of every orientation puts a point where the standard displays it, but for 6 and 8,
-- of which each is given the display of the other. Any other number is displayed as 1.
pub orientation_transform-displayed :
    (o : ℕ) (w h x y : ℤ) → moved o w h x y ≡ displayed (exchange o) w h x y
unfolding apply_transform orientation_transform displayed
orientation_transform-displayed zero w h x y = simp exif_laws
orientation_transform-displayed (suc zero) w h x y = simp exif_laws
orientation_transform-displayed (suc (suc zero)) w h x y = simp exif_laws
orientation_transform-displayed (suc (suc (suc zero))) w h x y = simp exif_laws
orientation_transform-displayed (suc (suc (suc (suc zero)))) w h x y = simp exif_laws
orientation_transform-displayed (suc (suc (suc (suc (suc zero))))) w h x y = simp exif_laws
orientation_transform-displayed (suc (suc (suc (suc (suc (suc zero)))))) w h x y = simp exif_laws
orientation_transform-displayed (suc (suc (suc (suc (suc (suc (suc zero))))))) w h x y =
    simp exif_laws
orientation_transform-displayed (suc (suc (suc (suc (suc (suc (suc (suc zero)))))))) w h x y =
    simp exif_laws
orientation_transform-displayed (suc (suc (suc (suc (suc (suc (suc (suc (suc n))))))))) w h x y =
    rw (transform_above (suc (suc (suc (suc (suc (suc (suc (suc (suc n))))))))) w h (omega arith)) (
      rw
        (displayed_above (suc (suc (suc (suc (suc (suc (suc (suc (suc n))))))))) w h x y
          (omega arith))
        (simp exif_laws))

-- A point inside the stored picture.
abbrev pub IsInside : Point ℤ → Rect ℤ → Type 0
IsInside p s = (pos 0 ≤ℤ p.x) × (p.x ≤ℤ s.width) × (pos 0 ≤ℤ p.y) × (p.y ≤ℤ s.height)

displayed-IsInside :
    (o : ℕ) (w h x y : ℤ)
    → IsInside (record { x = x; y = y }) (record { width = w; height = h })
    → IsInside
        (displayed (exchange o) w h x y)
        (normalized_size (record { width = w; height = h }) o)
unfolding displayed normalized_size
displayed-IsInside o w h x y inside = ground (arith, -ℤ_parts w x, -ℤ_parts h y)

-- No point of the picture is moved out of the canvas of the normalized size.
pub orientation_transform-IsInside :
    (o : ℕ) (w h x y : ℤ)
    → IsInside (record { x = x; y = y }) (record { width = w; height = h })
    → IsInside (moved o w h x y) (normalized_size (record { width = w; height = h }) o)
orientation_transform-IsInside o w h x y inside =
    rw (orientation_transform-displayed o w h x y) (displayed-IsInside o w h x y inside)
