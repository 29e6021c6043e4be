-- ===== src/Jpeg/Tests.antt =====
-- frontend/src/render/jpeg.ts on a small file: an APP0 segment with "JFIF" and 72 dpi.
use portrait_booth.Base.{
  ℕ, ◌<◌, ◌+◌, ◌≤◌, ◌≡◌, ◌↔◌, ◌⊎◌, refl, false, none, some, List, [], ◌∷◌, arith, length, get_elem?,
  done, Ends,
}
use portrait_booth.Jpeg.{
  read_jpeg_density, rewrite_jfif_density_bytes, has_exif_segment, next_segment, is_app0, is_app1,
  write_density,
}
use portrait_booth.Jpeg.Laws.{loops_end}
use portrait_booth.Jpeg.Rewrite.{read-rewrite, rewrite-none_iff, rewrite_keeps}

-- SOI, then the marker and length of APP0, "JFIF\0", version 1.1, the units and the two densities.
abbrev jfif : ℕ → ℕ → ℕ → List ℕ
jfif units hi lo =
    0xff ∷ 0xd8 ∷ 0xff ∷ 0xe0 ∷ 0 ∷ 16 ∷ 0x4a ∷ 0x46 ∷ 0x49 ∷ 0x46 ∷ 0 ∷ 1 ∷ 1 ∷ units ∷ hi ∷ lo
    ∷ hi ∷ lo ∷ 0 ∷ 0 ∷ 0xff ∷ 0xd9 ∷ 0 ∷ 0 ∷ []

no_exif : has_exif_segment (jfif 1 0 72) ≡ done false
unfolding has_exif_segment next_segment is_app1
no_exif = refl

rewritten : rewrite_jfif_density_bytes (jfif 0 0 72) 600 ≡ done (some (jfif 1 2 88))
unfolding rewrite_jfif_density_bytes next_segment is_app0 write_density
rewritten = refl

read-rewrite_example :
    read_jpeg_density (jfif 1 2 88)
    ≡ done (some (record { units = 1; xdensity = 600; ydensity = 600 }))
read-rewrite_example = read-rewrite (jfif 0 0 72) 600 (jfif 1 2 88) (omega arith) rewritten

rewrite-none_iff_example :
    (rewrite_jfif_density_bytes (0xff ∷ 0xd8 ∷ []) 300 ≡ done none)
    ↔ (read_jpeg_density (0xff ∷ 0xd8 ∷ []) ≡ done none)
rewrite-none_iff_example = rewrite-none_iff (0xff ∷ 0xd8 ∷ []) 300

rewrite_keeps_example :
    (length (jfif 1 2 88) ≡ length (jfif 0 0 72))
    × (has_exif_segment (jfif 1 2 88) ≡ has_exif_segment (jfif 0 0 72))
    × ((q : ℕ) × ((i : ℕ)
          → (i < q + 11) ⊎ (q + 16 ≤ i)
          → get_elem? (jfif 1 2 88) i ≡ get_elem? (jfif 0 0 72) i))
rewrite_keeps_example = rewrite_keeps (jfif 0 0 72) 600 (jfif 1 2 88) rewritten

loops_end_example :
    Ends (read_jpeg_density (jfif 0 0 72))
    × Ends (rewrite_jfif_density_bytes (jfif 0 0 72) 600)
    × Ends (has_exif_segment (jfif 0 0 72))
loops_end_example = loops_end (jfif 0 0 72) 600
