-- ===== src/Image/WebpFile/Laws.antt =====
-- frontend/src/image/header.ts, `parseWebp`: what the chunks of the image data lead to.
use portrait_booth.Base.{
  ℕ, suc, ◌+◌, ◌*◌, ◌%◌, ◌/◌, ◌≡◌, refl, ap, true, false, none, some, List, arith, length, done,
  inl, inr, ◌⊎◌, Bool-cases,
}
use portrait_booth.Base.Int.{ℤ, pos, ◌+ℤ◌, ◌≤ℤ◌, leb_ℤ, +ℤ_parts}
use portrait_booth.Bytes.{bits_at_ℤ}
use portrait_booth.Image.JpegFile.{Scan, sized}
use portrait_booth.Image.PngFile.{is_type}
use portrait_booth.Image.WebpFile.{
  reject, leave, lossy_chunk, lossless_chunk, webp_round, webp_loop,
}

-- A chunk has one type.
type_lossy :
    (b : List ℕ) (off : ℤ)
    → is_type b off 0x56 0x50 0x38 0x20 ≡ true
    → is_type b off 0x56 0x50 0x38 0x58 ≡ false
unfolding is_type
type_lossy b off h = ground arith

type_lossless :
    (b : List ℕ) (off : ℤ)
    → is_type b off 0x56 0x50 0x38 0x4c ≡ true
    → (is_type b off 0x56 0x50 0x38 0x58 ≡ false) × (is_type b off 0x56 0x50 0x38 0x20 ≡ false)
unfolding is_type
type_lossless b off h = ground arith

-- The scan that three bytes of start code and the two behind them make.
abbrev pub start_code_scan : List ℕ → ℤ → Scan → Scan
start_code_scan b off s = record s {
  width = 413;
  height = 0x2a + bits_at_ℤ b (off +ℤ pos 14) % 64 * 256;
}

webp_round-lossy :
    (b : List ℕ) (off : ℤ) (s : Scan)
    → is_type b off 0x56 0x50 0x38 0x20 ≡ true
    → off +ℤ pos 15 ≤ℤ pos (length b)
    → bits_at_ℤ b (off +ℤ pos 11) ≡ 0x9d
    → bits_at_ℤ b (off +ℤ pos 12) ≡ 0x01
    → bits_at_ℤ b (off +ℤ pos 13) ≡ 0x2a
    → webp_round b off s ≡ leave (start_code_scan b off s)
unfolding webp_round lossy_chunk
webp_round-lossy b off s lossy inside c0 c1 c2 =
    ground (arith, type_lossy b off lossy, +ℤ_parts off (pos 8), +ℤ_parts off (pos 15))

-- The lossy bit stream begins with a frame tag of three bytes and the start code 9D 01 2A (RFC 6386,
-- section 9.1). A chunk of that form inside the file is always given the width 413, which is the
-- start code read as a number, and a height that ends in 2A, whatever the size of the picture.
pub webp_loop-lossy :
    (b : List ℕ) (off : ℤ) (s : Scan) (fuel : ℕ)
    → is_type b off 0x56 0x50 0x38 0x20 ≡ true
    → off +ℤ pos 15 ≤ℤ pos (length b)
    → bits_at_ℤ b (off +ℤ pos 11) ≡ 0x9d
    → bits_at_ℤ b (off +ℤ pos 12) ≡ 0x01
    → bits_at_ℤ b (off +ℤ pos 13) ≡ 0x2a
    → (t : Scan) × (webp_loop (suc fuel) b off s ≡ done (some t))
      × (t.width ≡ 413)
      × (t.height % 256 ≡ 0x2a)
unfolding webp_loop
webp_loop-lossy b off s fuel lossy inside c0 c1 c2 = (
  start_code_scan b off s,
  rw (webp_round-lossy b off s lossy inside c0 c1 c2, webp_loop) (unfold sized in ground arith),
  refl,
  omega arith,
)

webp_round-image :
    (b : List ℕ) (off : ℤ) (s : Scan)
    → (is_type b off 0x56 0x50 0x38 0x20 ≡ true) ⊎ (is_type b off 0x56 0x50 0x38 0x4c ≡ true)
    → (webp_round b off s ≡ reject)
      ⊎ ((t : Scan) × (webp_round b off s ≡ leave t) × (t.orientation ≡ s.orientation))
unfolding webp_round lossy_chunk lossless_chunk
webp_round-image b off s (inl lossy) =
    let other = type_lossy b off lossy in
    let at = λ (k : ℕ). bits_at_ℤ b (off +ℤ pos (8 + k)) in
    elim (Bool-cases (leb_ℤ (off +ℤ pos 8) (pos (length b)))) [
      | inr out ↦ inr (s, ground arith, refl)
      | inl fits ↦ elim (Bool-cases (leb_ℤ (off +ℤ pos 15) (pos (length b)))) [
        | inr out ↦ inl (ground (arith, other))
        | inl inside ↦ inr (
          record s { width = at 3 + at 4 % 64 * 256; height = at 5 + at 6 % 64 * 256 },
          ground (arith, other),
          refl,
        )
      ]
    ]
webp_round-image b off s (inr lossless) =
    let other = type_lossless b off lossless in
    let at = λ (k : ℕ). bits_at_ℤ b (off +ℤ pos (8 + k)) in
    elim (Bool-cases (leb_ℤ (off +ℤ pos 8) (pos (length b)))) [
      | inr out ↦ inr (s, ground arith, refl)
      | inl fits ↦ elim (Bool-cases (leb_ℤ (off +ℤ pos 13) (pos (length b)))) [
        | inr out ↦ inl (ground (arith, other))
        | inl inside ↦ inr (
          record s {
            width = 1 + (at 1 + at 2 % 64 * 256);
            height = 1 + (at 2 / 64 + at 3 * 4 + at 4 % 16 * 1024);
          },
          ground (arith, other),
          refl,
        )
      ]
    ]

sized-cases : (s : Scan) → (sized s ≡ none) ⊎ (sized s ≡ some s)
unfolding sized
sized-cases s = ground arith

-- The image data, lossy or lossless, ends the loop: an EXIF chunk behind it, which is where the
-- container format puts it, is never read, and the orientation stays as it was before.
pub webp_loop-image_data :
    (b : List ℕ) (off : ℤ) (s : Scan) (fuel : ℕ)
    → (is_type b off 0x56 0x50 0x38 0x20 ≡ true) ⊎ (is_type b off 0x56 0x50 0x38 0x4c ≡ true)
    → (webp_loop (suc fuel) b off s ≡ done none)
      ⊎ ((t : Scan) × (webp_loop (suc fuel) b off s ≡ done (some t))
          × (t.orientation ≡ s.orientation))
unfolding webp_loop
webp_loop-image_data b off s fuel h = elim (webp_round-image b off s h) [
  | inl e ↦ inl (rw (e, webp_loop))
  | inr (t, e, same) ↦ elim (sized-cases t) [
    | inl lost ↦ inl (rw (e, webp_loop) (ap done lost))
    | inr kept ↦ inr (t, rw (e, webp_loop) (ap done kept), same)
  ]
]
