-- ===== src/Render/Artifact.antt =====
-- frontend/src/render/final-artifact.ts, `renderFinalArtifact`. The canvas, its context and the encoder
-- are not code of the repository: they are the fields of `RenderDeps`, where `draw` is the canvas after
-- `setTransform` and `drawImage`. A file is its bytes, a picture's data are its RGBA bytes.
pub mod Laws
pub mod File
use Prim.Native.String.{String}
use portrait_booth.Base.{
  ℕ, zero, suc, ◌+◌, ◌*◌, Bool, true, false, not, ◌||◌, Option, none, some, List, [], ◌∷◌, ltb,
  if◌then◌else◌, length, Loop, out_of_fuel, done,
}
use portrait_booth.Number.{Number}
use portrait_booth.Jpeg.{rewrite_jfif_density_bytes}
use portrait_booth.Template.{
  OutputFile, OutputProfile, exact_pixels, ranged_pixels, physical_raster, portal_source,
  guidance_only, TemplateRevision, TemplateEntry,
}
use portrait_booth.Image.Exif.{Rect, Transform2D}
use portrait_booth.Editor.OutputSize.{OutputSizeOption, whole, resolve_output_size}
use portrait_booth.Editor.Transform.{EditTransform, nought, render_matrix, is_valid_transform}
use portrait_booth.Editor.Reproject.{rect_of}
use portrait_booth.Create.{SourceImage}
use portrait_booth.Render.Quality.{
  RenderError, thrown, render_failed, ppi_failed, crop_out_of_bounds, Rendered, failed, rendered,
  ◌>>=◌, max_quality, encode, search_quality,
}

pub record RenderDeps {ℓ} (R : Type ℓ) (C X : Type 0) : Type ℓ where
  pub create_canvas : ℕ → ℕ → C
  pub canvas_context : C → Option X
  pub draw : X → Transform2D R → SourceImage → C
  pub to_blob : C → R → Option (List ℕ)
  pub random_id : String
  pub read_pixels : C → ℕ → ℕ → Option (List ℕ)

pub record CoverageReport : Type 0 where
  pub scanned_pixels : ℕ
  pub transparent_pixels : ℕ

-- `schemaVersion`, `mime` and `orientationNormalized` are constants.
pub record FinalManifest {ℓ} (R : Type ℓ) : Type ℓ where
  pub template_id : String
  pub template_version : ℕ
  pub width_px : ℕ
  pub height_px : ℕ
  pub matrix : Transform2D R
  pub flip_x : Bool

pub record FinalArtifact {ℓ} (R : Type ℓ) : Type ℓ where
  pub artifact_id : String
  pub blob : List ℕ
  pub coverage : CoverageReport
  pub manifest : FinalManifest R

-- The loop over every fourth byte, from the fourth on.
unfoldable pub count_transparent : List ℕ → ℕ
count_transparent (r ∷ g ∷ b ∷ a ∷ rest) = (if ltb a 255 then 1 else 0) + count_transparent rest
count_transparent _ = 0

unfoldable pub scan_data : ℕ → ℕ → Option (List ℕ) → CoverageReport
unfolding count_transparent
scan_data width height none = record { scanned_pixels = 0; transparent_pixels = 0 }
scan_data width height (some bytes) =
    if ltb (length bytes) (width * height * 4)
    then record { scanned_pixels = 0; transparent_pixels = 0 }
    else record { scanned_pixels = width * height; transparent_pixels = count_transparent bytes }

-- What the source does with a value that can be absent: `?? fallback`.
abbrev pub or_else {ℓ} : {A : Type ℓ} → Option A → A → A
or_else none fallback = fallback
or_else (some a) fallback = a

-- `rev.outputFile?.sizeLimit?.maxBytes`.
unfoldable pub max_bytes_of {ℓ} : {R : Type ℓ} → Option (OutputFile R) → Option ℕ
max_bytes_of none = none
max_bytes_of (some file) = elim file.size_limit [ none ↦ none | some limit ↦ limit.max_bytes ]

-- The assertion that the crop is inside; an exception of `invert` is passed on.
unfoldable pub check_crop : Option Bool → Rendered {0} Unit
check_crop none = failed thrown
check_crop (some false) = failed crop_out_of_bounds
check_crop (some true) = rendered tt

unfoldable pub context_of : {X : Type 0} → Option X → Rendered X
context_of none = failed render_failed
context_of (some ctx) = rendered ctx

unfoldable pub density_result : Loop (Option (List ℕ)) → Rendered (List ℕ)
density_result (done (some bytes)) = rendered bytes
density_result _ = failed ppi_failed

module _ {ℓ} {R : Type ℓ} ⦃n : Number R⦄ where
  -- The size and the density of the file, by the kind of the profile.
  unfoldable pub render_size :
      OutputProfile R → Option OutputSizeOption → Rendered (OutputSizeOption × Option R)
  render_size (exact_pixels p) resolved =
      rendered (record { width = p.width_px; height = p.height_px }, none)
  render_size (ranged_pixels p) resolved =
      rendered (
        or_else resolved (record { width = p.default_width_px; height = p.default_height_px }),
        none,
      )
  render_size (physical_raster p) resolved =
      rendered (record { width = p.width_px; height = p.height_px }, some p.print_ppi)
  render_size (portal_source p) resolved = failed render_failed
  render_size (guidance_only reason) resolved = failed render_failed

  -- A limit of no bytes is no limit: it is false in a condition.
  unfoldable pub compress : (R → Option (List ℕ)) → Option ℕ → Rendered (List ℕ)
  unfolding encode search_quality
  compress to_blob (some (suc k)) = search_quality to_blob (suc k)
  compress to_blob _ = encode to_blob max_quality

  unfoldable pub is_truthy : R → Bool
  is_truthy x = n.lt x nought || n.lt nought x

  unfoldable pub with_density : Option R → List ℕ → Rendered (List ℕ)
  unfolding density_result is_truthy rewrite_jfif_density_bytes
  with_density none blob = rendered blob
  with_density (some ppi) blob =
      if is_truthy ppi
      then density_result (rewrite_jfif_density_bytes blob (n.to_uint32 ppi))
      else rendered blob

  abbrev pub source_rect : SourceImage → Rect R
  source_rect img = record { width = whole img.width; height = whole img.height }

  unfoldable pub manifest_of :
      TemplateRevision R → EditTransform R → SourceImage → OutputSizeOption → FinalManifest R
  unfolding render_matrix
  manifest_of rev t img size = record {
    template_id = rev.id;
    template_version = rev.version;
    width_px = size.width;
    height_px = size.height;
    matrix = render_matrix t (source_rect img) (rect_of size);
    flip_x = t.flip_x;
  }

  unfoldable pub render_final_artifact :
      {C X : Type 0}
      → RenderDeps R C X
      → SourceImage
      → TemplateEntry R
      → EditTransform R
      → Option OutputSizeOption
      → Rendered (FinalArtifact R)
  unfolding render_size check_crop context_of compress with_density manifest_of scan_data
  render_final_artifact deps img entry t selected = do
    let rev = entry.revision
    (size, ppi) ← render_size rev.output (resolve_output_size rev selected)
    _ ← check_crop (is_valid_transform t (source_rect img) (rect_of size))
    ctx ← context_of (deps.canvas_context (deps.create_canvas size.width size.height))
    let manifest = manifest_of rev t img size
    let canvas = deps.draw ctx manifest.matrix img
    let coverage = scan_data size.width size.height (deps.read_pixels canvas size.width size.height)
    blob ← compress (deps.to_blob canvas) (max_bytes_of rev.output_file)
    final_blob ← with_density ppi blob
    rendered (record {
      artifact_id = deps.random_id;
      blob = final_blob;
      coverage = coverage;
      manifest = manifest;
    })
