-- ===== src/Image/PngFile/Laws.antt =====
-- frontend/src/image/header.ts, `parsePng`: when the walk through the chunks ends, and when it does not.
use portrait_booth.Base.{
  ℕ, zero, suc, ◌+◌, ◌-◌, ◌<◌, ◌≡◌, refl, ◌∙◌, false, List, arith, length, out_of_fuel, Ends, inl,
  inr, ◌⊎◌,
}
use portrait_booth.Base.Int.{ℤ, pos, negsuc, ◌+ℤ◌, ◌≤ℤ◌, int_laws, eq_of_parts}
use portrait_booth.Bytes.{u32_be}
use portrait_booth.Image.PngFile.{Round, leave, advance, is_type, png_round, png_loop}

Round-cases : (r : Round) → ((o : ℕ) × (r ≡ leave o)) ⊎ ((off : ℤ) × (r ≡ advance off))
Round-cases (leave o) = inl (o, refl)
Round-cases (advance off) = inr (off, refl)

png_round-advance :
    (b : List ℕ) (off off' : ℤ)
    → png_round b off ≡ advance off'
    → (off +ℤ pos 12 ≤ℤ pos (length b))
      × (is_type b (off +ℤ pos 4) 0x65 0x58 0x49 0x66 ≡ false)
      × (is_type b (off +ℤ pos 4) 0x49 0x44 0x41 0x54 ≡ false)
      × (off' ≡ off +ℤ (pos 12 +ℤ u32_be b off))
unfolding png_round
png_round-advance b off off' h = ground arith

-- A chunk whose length the signed read makes -12: the round goes on at its own offset.
pub png_round-stuck :
    (b : List ℕ) (off : ℤ)
    → off +ℤ pos 12 ≤ℤ pos (length b)
    → u32_be b off ≡ negsuc 11
    → is_type b (off +ℤ pos 4) 0x65 0x58 0x49 0x66 ≡ false
    → is_type b (off +ℤ pos 4) 0x49 0x44 0x41 0x54 ≡ false
    → png_round b off ≡ advance off
unfolding png_round
png_round-stuck b off inside len not_exif not_data =
    let back : off +ℤ (pos 12 +ℤ negsuc 11) ≡ off = eq_of_parts _ _ (omega int_laws) in ground arith

-- The loop never ends at such a chunk, a chunk of another type than eXIf and IDAT with the length
-- field 0xFFFFFFF4, however long it runs.
pub png_loop_hangs :
    (b : List ℕ) (off : ℤ) (fuel : ℕ)
    → off +ℤ pos 12 ≤ℤ pos (length b)
    → u32_be b off ≡ negsuc 11
    → is_type b (off +ℤ pos 4) 0x65 0x58 0x49 0x66 ≡ false
    → is_type b (off +ℤ pos 4) 0x49 0x44 0x41 0x54 ≡ false
    → png_loop fuel b off ≡ out_of_fuel
unfolding png_loop
png_loop_hangs b off zero inside len not_exif not_data = refl
png_loop_hangs b off (suc fuel) inside len not_exif not_data =
    rw (png_round-stuck b off inside len not_exif not_data, png_loop)
      (png_loop_hangs b off fuel inside len not_exif not_data)

-- The chunks that follow the one at `off`, each by its length, which is not negative.
pub data ChunkAfter (b : List ℕ) (off : ℕ) : ℕ → Type 0 where
  here : ChunkAfter b off off
  next :
      (at n : ℕ)
      → u32_be b (pos at) ≡ pos n
      → ChunkAfter b off at
      → ChunkAfter b off (at + (12 + n))

-- One of these chunks, inside the file and neither eXIf nor IDAT, has a length that is read as a negative
-- number.
abbrev pub HasNegativeLength : List ℕ → ℕ → Type 0
HasNegativeLength b off =
    (at : ℕ) × ChunkAfter b off at
    × (pos at +ℤ pos 12 ≤ℤ pos (length b))
    × (is_type b (pos at +ℤ pos 4) 0x65 0x58 0x49 0x66 ≡ false)
    × (is_type b (pos at +ℤ pos 4) 0x49 0x44 0x41 0x54 ≡ false)
    × ((n : ℕ) × (u32_be b (pos at) ≡ negsuc n))

sign : (z : ℤ) → ((n : ℕ) × (z ≡ negsuc n)) ⊎ ((n : ℕ) × (z ≡ pos n))
sign (pos n) = inr (n, refl)
sign (negsuc n) = inl (n, refl)

loop_from-Ends :
    (b : List ℕ) (off fuel at : ℕ)
    → ChunkAfter b off at
    → length b - at < fuel
    → Ends (png_loop fuel b (pos at)) ⊎ HasNegativeLength b off
unfolding png_loop
loop_from-Ends b off zero at path h = absurd (omega arith)
loop_from-Ends b off (suc fuel) at path h = elim (Round-cases (png_round b (pos at))) [
  | inl (o, e) ↦ inl (o, rw (e, png_loop))
  | inr (off', e) ↦
      let (inside, not_exif, not_data, there) = png_round-advance b (pos at) off' e in
      elim (sign (u32_be b (pos at))) [
        | inl (n, negative) ↦ inr (at, path, inside, not_exif, not_data, (n, negative))
        | inr (n, len) ↦
            let to_next : off' ≡ pos (at + (12 + n)) =
              there ∙ rw len (eq_of_parts _ _ (omega int_laws)) in
            rw (e, png_loop)
              (rw to_next
                (loop_from-Ends b off fuel (at + (12 + n)) (next at n len path) (omega int_laws)))
      ]
]

-- From an offset that is not negative the loop ends within as many rounds as the file has bytes,
-- unless one of the chunks from there on, each found by the lengths before it, is neither eXIf nor IDAT and has
-- a length that is read as a negative number.
pub png_loop-Ends :
    (fuel : ℕ) (b : List ℕ) (off : ℕ)
    → length b - off < fuel
    → Ends (png_loop fuel b (pos off)) ⊎ HasNegativeLength b off
png_loop-Ends fuel b off h = loop_from-Ends b off fuel off here h
