-- ===== src/Jpeg/Rewrite.antt =====
-- frontend/src/render/jpeg.ts: what rewriting the density changes, and what it leaves alone.
use portrait_booth.Base.{
  ℕ, zero, suc, ◌+◌, ◌/◌, ◌%◌, ◌≤◌, ◌<◌, ◌≡◌, ◌≢◌, ◌↔◌, ◌⊎◌, inl, inr, refl, sym, ◌∙◌, true, false,
  Option, none, some, List, arith, length, get_elem?, set, length-set, get_elem?-set_self,
  get_elem?-set_ne, Option-cases, Bool-cases, Loop, out_of_fuel, done,
}
use portrait_booth.Jpeg.{
  Segment, next_segment, is_app0, density_at, write_density, read_jpeg_density,
  rewrite_jfif_density_bytes, is_app1, has_exif_segment,
}
use portrait_booth.Bytes.{bits_at}
use portrait_booth.Jpeg.Laws.{
  Test, find_segment, find_segment_found, map_loop, read_found, write_found, next_segment_bounds,
  read_jpeg_density-find, rewrite_jfif_density_bytes-find, has_exif_segment-find,
}

length-write_density : (out : List ℕ) (p ppi : ℕ) → length (write_density out p ppi) ≡ length out
unfolding write_density
length-write_density out p ppi = simp length-set

-- The bytes that are not written.
get_elem?-write_density :
    (out : List ℕ) (p ppi i : ℕ)
    → (i < p + 7) ⊎ (p + 12 ≤ i)
    → get_elem? (write_density out p ppi) i ≡ get_elem? out i
unfolding write_density
get_elem?-write_density out p ppi i h =
    get_elem?-set_ne _ _ i _ (omega arith)
    ∙ get_elem?-set_ne _ _ i _ (omega arith)
    ∙ get_elem?-set_ne _ _ i _ (omega arith)
    ∙ get_elem?-set_ne _ _ i _ (omega arith)
    ∙ get_elem?-set_ne _ _ i _ (omega arith)

-- Two files that differ in the density of a segment at `q` alone.
record SameOutside (q : ℕ) (a b : List ℕ) : Type 0 where
  same_length : length a ≡ length b
  same_byte : (i : ℕ) → (i < q + 11) ⊎ (q + 16 ≤ i) → get_elem? a i ≡ get_elem? b i

write_density-SameOutside :
    (out : List ℕ) (q ppi : ℕ) → SameOutside q (write_density out (q + 4) ppi) out
write_density-SameOutside out q ppi = record {
  same_length = length-write_density out (q + 4) ppi;
  same_byte = λ i h. get_elem?-write_density out (q + 4) ppi i (omega arith);
}

app0_not_app1 :
    (b : List ℕ) (off : ℕ) (s : Segment)
    → is_app0 b off s ≡ true
    → (14 ≤ s.len) × (is_app1 b off s ≡ false)
unfolding is_app0 is_app1
app0_not_app1 b off s h = ground arith

module _ (q : ℕ) (a b : List ℕ) (same : SameOutside q a b) where
  open same use {same_length, same_byte}

  next_segment-same :
      (off : ℕ) → (off ≤ q) ⊎ (q + 16 ≤ off) → next_segment a off ≡ next_segment b off
  unfolding next_segment
  next_segment-same off h = ground (
    arith,
    same_length,
    same_byte off (omega arith),
    same_byte (off + 1) (omega arith),
    same_byte (off + 2) (omega arith),
    same_byte (off + 2 + 1) (omega arith),
  )

  is_app0-same :
      (off : ℕ) (s : Segment) → (off ≤ q) ⊎ (q + 16 ≤ off) → is_app0 a off s ≡ is_app0 b off s
  unfolding is_app0
  is_app0-same off s h = ground (
    arith,
    same_byte (off + 4) (omega arith),
    same_byte (off + 4 + 1) (omega arith),
    same_byte (off + 4 + 2) (omega arith),
    same_byte (off + 4 + 3) (omega arith),
    same_byte (off + 4 + 4) (omega arith),
  )

  is_app1-same :
      (off : ℕ) (s : Segment) → (off ≤ q) ⊎ (q + 16 ≤ off) → is_app1 a off s ≡ is_app1 b off s
  unfolding is_app1
  is_app1-same off s h = ground (
    arith,
    same_byte (off + 4) (omega arith),
    same_byte (off + 4 + 1) (omega arith),
    same_byte (off + 4 + 2) (omega arith),
    same_byte (off + 4 + 3) (omega arith),
  )

  -- From behind the segment on, a search goes the same way.
  find_segment-after :
      (test : Test)
      → ((off : ℕ) (s : Segment) → (off ≤ q) ⊎ (q + 16 ≤ off) → test a off s ≡ test b off s)
      → (fuel off : ℕ) → q + 16 ≤ off
      → find_segment test fuel a off ≡ find_segment test fuel b off
  unfolding find_segment
  find_segment-after test local zero off h = refl
  find_segment-after test local (suc fuel) off h = elim (Option-cases (next_segment b off)) [
    | inl e ↦ ground (arith, next_segment-same off (inr h))
    | inr (s, e) ↦ ground (
      arith,
      next_segment-same off (inr h),
      local off s (inr h),
      next_segment_bounds b off s e,
      find_segment-after test local fuel (off + 2 + s.len),
    )
  ]

  -- The search for the segment itself finds it again.
  find_app0-same :
      (fuel off : ℕ)
      → find_segment is_app0 fuel b off ≡ done (some q)
      → find_segment is_app0 fuel a off ≡ done (some q)
  unfolding find_segment
  find_app0-same zero off h = h
  find_app0-same (suc fuel) off h = elim (Option-cases (next_segment b off)) [
    | inl e ↦ absurd (ground arith)
    | inr (s, e) ↦
        let reached = (find_segment_found is_app0 (suc fuel) b off q h).0 in
        ground (
          arith,
          next_segment-same off (inl reached),
          is_app0-same off s (inl reached),
          find_app0-same fuel (off + 2 + s.len),
        )
  ]

  -- A search for EXIF data passes the segment by.
  find_app1-same :
      (fuel off : ℕ)
      → find_segment is_app0 fuel b off ≡ done (some q)
      → find_segment is_app1 fuel a off ≡ find_segment is_app1 fuel b off
  unfolding find_segment
  find_app1-same zero off h = refl
  find_app1-same (suc fuel) off h = elim (Option-cases (next_segment b off)) [
    | inl e ↦ absurd (ground arith)
    | inr (s, e) ↦
        let reached = (find_segment_found is_app0 (suc fuel) b off q h).0 in
        elim (Bool-cases (is_app0 b off s)) [
          | inl t ↦ ground (
            arith,
            next_segment-same off (inl reached),
            is_app1-same off s (inl reached),
            app0_not_app1 b off s t,
            find_segment-after is_app1 is_app1-same fuel (off + 2 + s.len),
          )
          | inr t ↦ ground (
            arith,
            next_segment-same off (inl reached),
            is_app1-same off s (inl reached),
            find_app1-same fuel (off + 2 + s.len),
          )
        ]
  ]

written_at :
    (bytes : List ℕ) (ppi : ℕ) (out : List ℕ) (r : Loop (Option ℕ))
    → map_loop (write_found bytes ppi) r ≡ done (some out)
    → (q : ℕ) × (r ≡ done (some q)) × (out ≡ write_density bytes (q + 4) ppi)
written_at bytes ppi out out_of_fuel h = cc
written_at bytes ppi out (done none) h = cc
written_at bytes ppi out (done (some q)) h = (q, refl, cc)

-- What a successful rewrite returns: the bytes with the density of one segment written.
pub rewrite_at :
    (bytes : List ℕ) (ppi : ℕ) (out : List ℕ)
    → rewrite_jfif_density_bytes bytes ppi ≡ done (some out)
    → (q : ℕ) × (find_segment is_app0 (suc (length bytes)) bytes 2 ≡ done (some q))
      × (out ≡ write_density bytes (q + 4) ppi)
rewrite_at bytes ppi out h =
    written_at bytes ppi out (find_segment is_app0 (suc (length bytes)) bytes 2)
      (sym (rewrite_jfif_density_bytes-find bytes ppi) ∙ h)

-- A write is read back at its own index, and is not seen at another.
bits_at-set_self :
    (xs : List ℕ) (i j v n : ℕ) → i ≡ j → length xs ≡ n → i < n → bits_at (set xs i v) j ≡ v
bits_at-set_self xs i j v n e l h =
    rw (← e) (ground (arith, get_elem?-set_self xs i v (omega arith)))

bits_at-set_ne : (xs : List ℕ) (i j v : ℕ) → i ≢ j → bits_at (set xs i v) j ≡ bits_at xs j
bits_at-set_ne xs i j v h = ground (arith, get_elem?-set_ne xs i j v h)

density_at-write_density :
    (out : List ℕ) (p ppi : ℕ)
    → p + 11 < length out
    → ppi < 65536
    → density_at (write_density out p ppi) p ≡ record { units = 1; xdensity = ppi; ydensity = ppi }
unfolding density_at write_density
density_at-write_density out p ppi h small =
    let hi = ppi / 256 % 256 in
    let lo = ppi % 256 in
    let w0 = set out (p + 7) 1 in
    let w1 = set w0 (p + 8) hi in
    let w2 = set w1 (p + 9) lo in
    let w3 = set w2 (p + 10) hi in
    let l0 = length-set out (p + 7) 1 in
    let l1 = length-set w0 (p + 8) hi ∙ l0 in
    let l2 = length-set w1 (p + 9) lo ∙ l1 in
    let l3 = length-set w2 (p + 10) hi ∙ l2 in
    let skip4 = λ (j : ℕ) (d : p + 11 ≢ j). bits_at-set_ne w3 (p + 11) j lo d in
    let skip3 = λ (j : ℕ) (d : p + 10 ≢ j). bits_at-set_ne w2 (p + 10) j hi d in
    let skip2 = λ (j : ℕ) (d : p + 9 ≢ j). bits_at-set_ne w1 (p + 9) j lo d in
    let skip1 = λ (j : ℕ) (d : p + 8 ≢ j). bits_at-set_ne w0 (p + 8) j hi d in
    ground (
      arith,
      skip4 (p + 7) (omega arith),
      skip3 (p + 7) (omega arith),
      skip2 (p + 7) (omega arith),
      skip1 (p + 7) (omega arith),
      bits_at-set_self out (p + 7) (p + 7) 1 (length out) refl refl (omega arith),
      skip4 (p + 8) (omega arith),
      skip3 (p + 8) (omega arith),
      skip2 (p + 8) (omega arith),
      bits_at-set_self w0 (p + 8) (p + 8) hi (length out) refl l0 (omega arith),
      skip4 (p + 8 + 1) (omega arith),
      skip3 (p + 8 + 1) (omega arith),
      bits_at-set_self w1 (p + 9) (p + 8 + 1) lo (length out) (omega arith) l1 (omega arith),
      skip4 (p + 10) (omega arith),
      bits_at-set_self w2 (p + 10) (p + 10) hi (length out) refl l2 (omega arith),
      bits_at-set_self w3 (p + 11) (p + 10 + 1) lo (length out) (omega arith) l3 (omega arith),
    )

-- A density that was written is read back, for every value that two bytes hold.
pub read-rewrite :
    (bytes : List ℕ) (ppi : ℕ) (out : List ℕ)
    → ppi < 65536
    → rewrite_jfif_density_bytes bytes ppi ≡ done (some out)
    → read_jpeg_density out ≡ done (some (record { units = 1; xdensity = ppi; ydensity = ppi }))
read-rewrite bytes ppi out small h =
    let (q, found, e) = rewrite_at bytes ppi out h in
    let (_, (s, segment, test)) = find_segment_found is_app0 (suc (length bytes)) bytes 2 q found in
    let bounds = next_segment_bounds bytes q s segment in
    let long = (app0_not_app1 bytes q s test).0 in
    let same = write_density-SameOutside bytes q ppi in
    rw (
      read_jpeg_density-find out,
      e,
      length-write_density bytes (q + 4) ppi,
      find_app0-same q (write_density bytes (q + 4) ppi) bytes same (suc (length bytes)) 2 found,
      density_at-write_density bytes (q + 4) ppi (omega arith) small,
    )

-- The rewrite fails exactly where there is no density to read.
pub rewrite-none_iff :
    (bytes : List ℕ) (ppi : ℕ)
    → (rewrite_jfif_density_bytes bytes ppi ≡ done none) ↔ (read_jpeg_density bytes ≡ done none)
rewrite-none_iff bytes ppi =
    rw (rewrite_jfif_density_bytes-find bytes ppi, read_jpeg_density-find bytes)
      (none_iff (find_segment is_app0 (suc (length bytes)) bytes 2))
  where
    none_iff :
        (r : Loop (Option ℕ))
        → (map_loop (write_found bytes ppi) r ≡ done none)
          ↔ (map_loop (read_found bytes) r ≡ done none)
    none_iff out_of_fuel = (λ h. cc, λ h. cc)
    none_iff (done none) = (λ h. refl, λ h. refl)
    none_iff (done (some q)) = (λ h. cc, λ h. cc)

-- A successful rewrite changes five bytes at most: the file keeps its length and every other byte,
-- and the search for EXIF data has the result that it had.
pub rewrite_keeps :
    (bytes : List ℕ) (ppi : ℕ) (out : List ℕ)
    → rewrite_jfif_density_bytes bytes ppi ≡ done (some out)
    → (length out ≡ length bytes)
      × (has_exif_segment out ≡ has_exif_segment bytes)
      × ((q : ℕ) × ((i : ℕ) → (i < q + 11) ⊎ (q + 16 ≤ i) → get_elem? out i ≡ get_elem? bytes i))
rewrite_keeps bytes ppi out h =
    let (q, found, e) = rewrite_at bytes ppi out h in
    let same = write_density-SameOutside bytes q ppi in
    let exif =
      find_app1-same q (write_density bytes (q + 4) ppi) bytes same (suc (length bytes)) 2 found in
    rw e (
      length-write_density bytes (q + 4) ppi,
      rw (
        has_exif_segment-find bytes,
        has_exif_segment-find (write_density bytes (q + 4) ppi),
        length-write_density bytes (q + 4) ppi,
        exif,
      ),
      (q, same.same_byte),
    )
