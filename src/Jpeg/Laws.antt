-- ===== src/Jpeg/Laws.antt =====
-- frontend/src/render/jpeg.ts: the three segment loops are one search for a segment, which ends.
use portrait_booth.Base.{
  ℕ, zero, suc, ◌+◌, ◌-◌, ◌≤◌, ◌<◌, ◌≡◌, refl, Bool, true, false, Option, none, some, List, arith,
  inl, inr, length, Option-cases, Bool-cases, Loop, out_of_fuel, done, Ends,
}
use portrait_booth.Jpeg.{
  JpegDensity, Segment, next_segment, is_app0, density_at, read_loop, read_jpeg_density,
  write_density, rewrite_loop, rewrite_jfif_density_bytes, is_app1, exif_loop, has_exif_segment,
}

-- A segment has at least its length field, and lies inside the file.
pub next_segment_bounds :
    (bytes : List ℕ) (off : ℕ) (s : Segment)
    → next_segment bytes off ≡ some s
    → (off + 4 ≤ length bytes) × (2 ≤ s.len) × (off + 2 + s.len ≤ length bytes)
unfolding next_segment
next_segment_bounds bytes off s h = ground arith

abbrev pub Test : Type 0
Test = List ℕ → ℕ → Segment → Bool

-- The offset of the first segment from `off` on that passes the test.
unfoldable pub find_segment : Test → ℕ → List ℕ → ℕ → Loop (Option ℕ)
find_segment test zero bytes off = out_of_fuel
find_segment test (suc fuel) bytes off = elim (next_segment bytes off) [
  | none ↦ done none
  | some s ↦ elim (test bytes off s) [
    | true ↦ done (some off)
    | false ↦ find_segment test fuel bytes (off + 2 + s.len)
  ]
]

-- What a loop makes of the search.
abbrev pub map_loop {ℓ κ} : {A : Type ℓ} {B : Type κ} → (A → B) → Loop A → Loop B
map_loop f out_of_fuel = out_of_fuel
map_loop f (done a) = done (f a)

pub find_segment-Ends :
    (test : Test) (fuel : ℕ) (bytes : List ℕ) (off : ℕ)
    → length bytes - off < fuel
    → Ends (find_segment test fuel bytes off)
unfolding find_segment
find_segment-Ends test zero bytes off h = absurd (omega arith)
find_segment-Ends test (suc fuel) bytes off h = elim (Option-cases (next_segment bytes off)) [
  | inl e ↦ (none, rw (e, find_segment))
  | inr (s, e) ↦ elim (Bool-cases (test bytes off s)) [
    | inl t ↦ (some off, rw (e, find_segment) (rw (t, find_segment)))
    | inr t ↦
        rw (e, find_segment)
          (rw (t, find_segment)
            (find_segment-Ends test fuel bytes (off + 2 + s.len)
              (omega (arith, next_segment_bounds bytes off s e))))
  ]
]

-- What is found is a segment that passes the test.
pub find_segment_found :
    (test : Test) (fuel : ℕ) (bytes : List ℕ) (off q : ℕ)
    → find_segment test fuel bytes off ≡ done (some q)
    → (off ≤ q) × ((s : Segment) × (next_segment bytes q ≡ some s) × (test bytes q s ≡ true))
unfolding find_segment
find_segment_found test zero bytes off q h = cc
find_segment_found test (suc fuel) bytes off q h = elim (Option-cases (next_segment bytes off)) [
  | inl e ↦ absurd (ground arith)
  | inr (s, e) ↦ elim (Bool-cases (test bytes off s)) [
    | inl t ↦ let here : off ≡ q = ground arith in (omega arith, rw (← here) (s, e, t))
    | inr t ↦
        let (later, found) =
          find_segment_found test fuel bytes (off + 2 + s.len) q (ground arith) in
        (omega arith, found)
  ]
]

abbrev pub read_found : List ℕ → Option ℕ → Option JpegDensity
read_found bytes none = none
read_found bytes (some q) = some (density_at bytes (q + 4))

abbrev pub write_found : List ℕ → ℕ → Option ℕ → Option (List ℕ)
write_found bytes ppi none = none
write_found bytes ppi (some q) = some (write_density bytes (q + 4) ppi)

abbrev pub is_found : Option ℕ → Bool
is_found none = false
is_found (some q) = true

read_loop-find :
    (fuel : ℕ) (bytes : List ℕ) (off : ℕ)
    → read_loop fuel bytes off ≡ map_loop (read_found bytes) (find_segment is_app0 fuel bytes off)
unfolding read_loop find_segment
read_loop-find zero bytes off = refl
read_loop-find (suc fuel) bytes off = grind (arith, read_loop-find fuel)

rewrite_loop-find :
    (fuel : ℕ) (bytes : List ℕ) (off ppi : ℕ)
    → rewrite_loop fuel bytes off ppi
      ≡ map_loop (write_found bytes ppi) (find_segment is_app0 fuel bytes off)
unfolding rewrite_loop find_segment
rewrite_loop-find zero bytes off ppi = refl
rewrite_loop-find (suc fuel) bytes off ppi = grind (arith, rewrite_loop-find fuel)

exif_loop-find :
    (fuel : ℕ) (bytes : List ℕ) (off : ℕ)
    → exif_loop fuel bytes off ≡ map_loop is_found (find_segment is_app1 fuel bytes off)
unfolding exif_loop find_segment
exif_loop-find zero bytes off = refl
exif_loop-find (suc fuel) bytes off = grind (arith, exif_loop-find fuel)

-- The three functions in terms of the search.
pub read_jpeg_density-find :
    (bytes : List ℕ)
    → read_jpeg_density bytes
      ≡ map_loop (read_found bytes) (find_segment is_app0 (suc (length bytes)) bytes 2)
unfolding read_jpeg_density
read_jpeg_density-find bytes = read_loop-find (suc (length bytes)) bytes 2

pub rewrite_jfif_density_bytes-find :
    (bytes : List ℕ) (ppi : ℕ)
    → rewrite_jfif_density_bytes bytes ppi
      ≡ map_loop (write_found bytes ppi) (find_segment is_app0 (suc (length bytes)) bytes 2)
unfolding rewrite_jfif_density_bytes
rewrite_jfif_density_bytes-find bytes ppi = rewrite_loop-find (suc (length bytes)) bytes 2 ppi

pub has_exif_segment-find :
    (bytes : List ℕ)
    → has_exif_segment bytes ≡ map_loop is_found (find_segment is_app1 (suc (length bytes)) bytes 2)
unfolding has_exif_segment
has_exif_segment-find bytes = exif_loop-find (suc (length bytes)) bytes 2

map_loop-Ends {ℓ κ} :
    {A : Type ℓ} {B : Type κ} (f : A → B) (r : Loop A) → Ends r → Ends (map_loop f r)
map_loop-Ends f out_of_fuel (a, e) = cc
map_loop-Ends f (done a) e = (f a, refl)

-- On every file the three loops end: they return, or leave with the error.
pub loops_end :
    (bytes : List ℕ) (ppi : ℕ)
    → Ends (read_jpeg_density bytes)
      × Ends (rewrite_jfif_density_bytes bytes ppi)
      × Ends (has_exif_segment bytes)
loops_end bytes ppi =
    let found =
      λ (test : Test). find_segment-Ends test (suc (length bytes)) bytes 2 (omega arith) in
    (
      rw (read_jpeg_density-find bytes) (map_loop-Ends _ _ (found is_app0)),
      rw (rewrite_jfif_density_bytes-find bytes ppi) (map_loop-Ends _ _ (found is_app0)),
      rw (has_exif_segment-find bytes) (map_loop-Ends _ _ (found is_app1)),
    )
