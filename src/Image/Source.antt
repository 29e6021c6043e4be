-- ===== src/Image/Source.antt =====
-- frontend/src/image/source.ts: loading a photo. The decoder and the canvas are the browser's, the fields of
-- `SourceImageDeps`. Bitmaps and object URLs are handles, numbered as they are made; those that were made and
-- those that were released are listed, the last one first.
pub mod Laws
mod Tests
use Prim.Native.String.{String}
use portrait_booth.Base.{
  ℕ, ◌+◌, Bool, true, false, Option, none, some, List, [], ◌∷◌, if◌then◌else◌, length, take, Loop,
  out_of_fuel, done,
}
use portrait_booth.Base.Int.{ℤ, pos, negsuc}
use portrait_booth.Number.{Number, ◌⊗◌, number_ring}
use portrait_booth.Image.Exif.{
  Rect, Transform2D, normalized_size, orientation_transform, with_scale,
}
use portrait_booth.Image.Header.{
  ImageFormat, jpeg, png, webp, heif, ImageHeader, parse_image_header,
}

pub data SourceErrorKind : Type 0 where
  file_too_large dimension_too_large unsupported_format heif_unsupported : SourceErrorKind
  decode_failed : SourceErrorKind

pub record SourceLimits {ℓ} (R : Type ℓ) : Type ℓ where
  pub max_bytes : R
  pub max_megapixels : R
  pub max_edge_px : R
  pub max_work_megapixels : R

-- What is on the canvas when it is made into a bitmap.
pub record Drawn {ℓ} (R : Type ℓ) : Type ℓ where
  pub size : Rect R
  pub transform : Transform2D R
  pub bitmap : ℕ

-- `decode true` is a call with the option `imageOrientation`, and answers with the size of the bitmap; `none`
-- is an exception. `copy` makes a bitmap of the canvas.
pub record SourceImageDeps {ℓ} (R : Type ℓ) : Type ℓ where
  pub decode : Bool → List ℕ → Option (Rect R)
  pub has_context : Rect R → Bool
  pub copy : Drawn R → Bool

-- `staticChecks` is not there yet when a photo is loaded.
pub record SourceImage {ℓ} (R : Type ℓ) : Type ℓ where
  pub file : List ℕ
  pub format : ImageFormat
  pub orientation : ℕ
  pub raw_width : ℤ
  pub raw_height : ℤ
  pub size : Rect R
  pub bitmap : ℕ
  pub preview_url : ℕ

pub record Handles : Type 0 where
  pub next : ℕ
  pub made : List ℕ
  pub released : List ℕ

pub data SourceResult {ℓ} (R : Type ℓ) : Type ℓ where
  loaded : SourceImage R → SourceResult R
  failed : SourceErrorKind → SourceResult R

unfoldable pub make : Handles → Handles
make h = record { next = h.next + 1; made = h.next ∷ h.made; released = h.released }

unfoldable pub release : ℕ → Handles → Handles
release i h = record h { released = i ∷ h.released }

unfoldable pub is_unsupported : ImageFormat → Bool
is_unsupported heif = true
is_unsupported _ = false

abbrev pub header_read_bytes : ℕ
header_read_bytes = 65536

unfoldable pub dispose {ℓ} : {R : Type ℓ} → SourceImage R → Handles → Handles
unfolding release
dispose image h = release image.preview_url (release image.bitmap h)

-- A whole number as a double.
unfoldable pub of_int {ℓ} : {R : Type ℓ} ⦃n : Number R⦄ → ℤ → R
of_int ⦃n⦄ (pos k) = n.lit k 0
of_int ⦃n⦄ (negsuc k) = n.ring.neg (n.lit (k + 1) 0)

module _ {ℓ} {R : Type ℓ} ⦃n : Number R⦄ where
  unfoldable pub default_source_limits : SourceLimits R
  default_source_limits = record {
    max_bytes = n.lit 15 0 ⊗ n.lit 1024 0 ⊗ n.lit 1024 0;
    max_megapixels = n.lit 24 0;
    max_edge_px = n.lit 8000 0;
    max_work_megapixels = n.lit 16 0;
  }

  unfoldable pub has_too_many_pixels : SourceLimits R → ImageHeader → Bool
  unfolding of_int
  has_too_many_pixels limits head =
      n.lt (limits.max_megapixels ⊗ n.lit 1000000 0) (of_int head.width ⊗ of_int head.height)

  unfoldable pub has_long_edge : SourceLimits R → ImageHeader → Bool
  unfolding of_int
  has_long_edge limits head =
      n.lt limits.max_edge_px (n.max (of_int head.width) (of_int head.height))

  unfoldable pub work_scale : SourceLimits R → Rect R → R
  work_scale limits s =
      n.min (n.lit 1 0)
        (n.sqrt (n.div (limits.max_work_megapixels ⊗ n.lit 1000000 0) (s.width ⊗ s.height)))

  unfoldable pub work_size : R → Rect R → Rect R
  work_size scale s = record {
    width = n.max (n.lit 1 0) (n.round (s.width ⊗ scale));
    height = n.max (n.lit 1 0) (n.round (s.height ⊗ scale));
  }

-- The canvas was drawn and the bitmap of the file is closed; `copied` tells whether the canvas became a bitmap.
unfoldable pub finish {ℓ} :
    {R : Type ℓ} → List ℕ → ImageHeader → ℕ → Rect R → Bool → Handles → SourceResult R × Handles
unfolding make
finish file head orientation size false h = (failed decode_failed, h)
finish file head orientation size true h = (
  loaded (record {
    file = file;
    format = head.format;
    orientation = orientation;
    raw_width = head.width;
    raw_height = head.height;
    size = size;
    bitmap = h.next;
    preview_url = h.next + 1;
  }),
  make (make h),
)

module _ {ℓ} {R : Type ℓ} ⦃n : Number R⦄ (deps : SourceImageDeps R) where
  -- The bitmap of the file is there; it is the handle made last.
  unfoldable pub draw :
      List ℕ → SourceLimits R → ImageHeader → ℕ → Rect R → Handles → SourceResult R × Handles
  unfolding make release finish normalized_size work_scale work_size orientation_transform
      with_scale
  draw file limits head orientation raw h =
      let normalized = normalized_size raw orientation in
      let scale = work_scale limits normalized in
      let size = work_size scale normalized in
      let drawn : Drawn R = record {
        size = size;
        transform = with_scale (orientation_transform orientation raw.width raw.height) scale;
        bitmap = h.next;
      } in
      if deps.has_context size
      then finish file head orientation size (deps.copy drawn) (release h.next (make h))
      else (failed decode_failed, make h)

  unfoldable pub decode_again :
      List ℕ → SourceLimits R → ImageHeader → Option (Rect R) → Handles → SourceResult R × Handles
  unfolding draw
  decode_again file limits head none h = (failed decode_failed, h)
  decode_again file limits head (some raw) h = draw file limits head 1 raw h

  unfoldable pub decode_file :
      List ℕ → SourceLimits R → ImageHeader → Option (Rect R) → Handles → SourceResult R × Handles
  unfolding draw decode_again
  decode_file file limits head none h = decode_again file limits head (deps.decode false file) h
  decode_file file limits head (some raw) h = draw file limits head head.orientation raw h

  unfoldable pub check_head :
      List ℕ → SourceLimits R → ImageHeader → Handles → SourceResult R × Handles
  unfolding is_unsupported has_too_many_pixels has_long_edge decode_file
  check_head file limits head h =
      if is_unsupported head.format
      then (failed heif_unsupported, h)
      else if has_too_many_pixels limits head
      then (failed dimension_too_large, h)
      else if has_long_edge limits head
      then (failed dimension_too_large, h)
      else decode_file file limits head (deps.decode true file) h

  unfoldable pub on_head :
      List ℕ
      → SourceLimits R
      → Loop (Option ImageHeader)
      → Handles
      → Loop (SourceResult R × Handles)
  unfolding check_head
  on_head file limits out_of_fuel h = out_of_fuel
  on_head file limits (done none) h = done (failed unsupported_format, h)
  on_head file limits (done (some head)) h = done (check_head file limits head h)

  -- The file is its bytes. Only the loops of the header take fuel.
  unfoldable pub load_source_image :
      ℕ → List ℕ → SourceLimits R → Handles → Loop (SourceResult R × Handles)
  unfolding on_head parse_image_header
  load_source_image fuel file limits h =
      if n.lt limits.max_bytes (n.lit (length file) 0)
      then done (failed file_too_large, h)
      else on_head file limits (parse_image_header fuel (take header_read_bytes file)) h

unfoldable pub source_error_message : Option SourceErrorKind → String
source_error_message none = "failed to read the file; please retry."
source_error_message (some file_too_large) =
    "file size exceeds the limit (15 MB); compress or choose another photo."
source_error_message (some dimension_too_large) =
    "photo pixels exceed the limit (24 MP or 8,000 px per edge); choose another photo."
source_error_message (some unsupported_format) =
    "unrecognized image format; only JPEG, PNG, and WebP are supported."
source_error_message (some heif_unsupported) =
    "HEIC/HEIF is not supported. Convert the photo to JPEG/PNG/WebP and retry, or use camera capture instead."
source_error_message (some decode_failed) = "image decoding failed; the file may be corrupt."
