-- ===== src/Image/JpegFile/Laws.antt =====
-- frontend/src/image/header.ts, `parseJpeg`: the loop ends, and the size fits 16 bits.
use portrait_booth.Base.{
  ℕ, zero, suc, ◌+◌, ◌-◌, ◌≤◌, ◌<◌, ◌≡◌, refl, List, arith, length, Loop, out_of_fuel, done, Ends,
  inl, inr, ◌⊎◌,
}
use portrait_booth.Base.{All, some, [], ◌∷◌}
use portrait_booth.Bytes.{bits_at}
use portrait_booth.Image.JpegFile.{
  Scan, Round, leave, advance, jpeg_segment, jpeg_round, jpeg_loop, sized, after_loop, parse_jpeg,
}

Round-cases :
    (r : Round)
    → ((w : ℕ) × (h : ℕ) × (r ≡ leave w h)) ⊎ ((off : ℕ) × (o : ℕ) × (r ≡ advance off o))
Round-cases (leave w h) = inl (w, h, refl)
Round-cases (advance off o) = inr (off, o, refl)

-- A round that goes on moves forward, from a place inside the file.
jpeg_round-advance :
    (b : List ℕ) (off o off' o' : ℕ)
    → jpeg_round b off o ≡ advance off' o'
    → (off + 4 ≤ length b) × (off + 2 ≤ off')
unfolding jpeg_round jpeg_segment
jpeg_round-advance b off o off' o' h = ground arith

jpeg_loop-Ends :
    (fuel : ℕ) (b : List ℕ) (off o : ℕ) → length b - off < fuel → Ends (jpeg_loop fuel b off o)
unfolding jpeg_loop
jpeg_loop-Ends zero b off o h = absurd (omega arith)
jpeg_loop-Ends (suc fuel) b off o h = elim (Round-cases (jpeg_round b off o)) [
  | inl (w, ht, e) ↦ (record { width = w; height = ht; orientation = o }, rw (e, jpeg_loop))
  | inr (off', o', e) ↦
      rw (e, jpeg_loop)
        (jpeg_loop-Ends fuel b off' o' (omega (arith, jpeg_round-advance b off o off' o' e)))
]

after_loop-Ends : (r : Loop Scan) → Ends r → Ends (after_loop r)
after_loop-Ends out_of_fuel (a, e) = cc
after_loop-Ends (done s) e = (sized s, refl)

-- The walk through the segments ends on every file, within as many rounds as the file has bytes.
pub parse_jpeg-Ends :
    (b : List ℕ) (fuel : ℕ) → length b ≤ fuel → 0 < fuel → Ends (parse_jpeg fuel b)
unfolding parse_jpeg
parse_jpeg-Ends b fuel h p = after_loop-Ends _ (jpeg_loop-Ends fuel b 2 1 (omega arith))

abbrev pub IsByte : ℕ → Type 0
IsByte n = n < 256

pub bits_at-lt : (b : List ℕ) (i : ℕ) → All IsByte b → bits_at b i < 256
bits_at-lt [] i h = omega arith
bits_at-lt (x ∷ b) zero h = h.0
bits_at-lt (x ∷ b) (suc i) h = bits_at-lt b i h.1

jpeg_round-leave :
    (b : List ℕ) (off o w h : ℕ)
    → All IsByte b
    → jpeg_round b off o ≡ leave w h
    → (w < 65536) × (h < 65536)
unfolding jpeg_round jpeg_segment
jpeg_round-leave b off o w h bytes e = ground (
  arith,
  bits_at-lt b (off + 5) bytes,
  bits_at-lt b (off + 5 + 1) bytes,
  bits_at-lt b (off + 7) bytes,
  bits_at-lt b (off + 7 + 1) bytes,
)

jpeg_loop_size :
    (fuel : ℕ) (b : List ℕ) (off o : ℕ) (s : Scan)
    → All IsByte b
    → jpeg_loop fuel b off o ≡ done s
    → (s.width < 65536) × (s.height < 65536)
unfolding jpeg_loop
jpeg_loop_size zero b off o s bytes e = cc
jpeg_loop_size (suc fuel) b off o s bytes e = elim (Round-cases (jpeg_round b off o)) [
  | inl (w, h, left) ↦ ground (arith, jpeg_round-leave b off o w h bytes left)
  | inr (off', o', on) ↦ jpeg_loop_size fuel b off' o' s bytes (ground arith)
]

after_loop_size :
    (r : Loop Scan) (s : Scan)
    → after_loop r ≡ done (some s)
    → (r ≡ done s) × (0 < s.width) × (0 < s.height)
unfolding sized
after_loop_size out_of_fuel s e = cc
after_loop_size (done t) s e = ground arith

-- A size that is returned has two positive edges below 65536, whatever the file claims elsewhere.
pub parse_jpeg_size :
    (fuel : ℕ) (b : List ℕ) (s : Scan)
    → All IsByte b
    → parse_jpeg fuel b ≡ done (some s)
    → ((0 < s.width) × (s.width < 65536)) × ((0 < s.height) × (s.height < 65536))
unfolding parse_jpeg
parse_jpeg_size fuel b s bytes e =
    let (ended, w, h) = after_loop_size (jpeg_loop fuel b 2 1) s e in
    let (w', h') = jpeg_loop_size fuel b 2 1 s bytes ended in ((w, w'), (h, h'))
