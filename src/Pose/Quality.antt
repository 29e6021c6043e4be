-- ===== src/Pose/Quality.antt =====
-- frontend/src/pose/quality.ts: exposure, sharpness and background of a photo, from the data of a canvas
-- on which it is drawn. The canvas is the browser's: its data are four bytes for each pixel.
pub mod Pixels
use Prim.Native.String.{String, ◌++◌ as append}
use portrait_booth.Base.{
  ℕ, zero, suc, ◌+◌, ◌-◌, ◌*◌, ◌/◌, Bool, true, false, not, ◌&&◌, ◌||◌, Option, none, some, List,
  [], ◌∷◌, ◌++◌, map, if◌then◌else◌, length, get_elem?, filter, ltb, leb,
}
use portrait_booth.Number.{Number, ◌⊕◌, ◌⊖◌, ◌⊗◌, number_ring}
use portrait_booth.Image.Exif.{Rect}
use portrait_booth.Editor.OutputSize.{whole}
use portrait_booth.Editor.Transform.{nought, one}
use portrait_booth.Pose.FaceGeometry.{FaceRoi}
use portrait_booth.Pose.Quality.Pixels.{
  BackgroundMetrics, lumas, laplacian_variance, background_metrics,
}

-- The numbers of `QualityConfig` that the code reads.
pub record QualityConfig {ℓ} (R : Type ℓ) : Type ℓ where
  pub normalize_long_edge : R
  pub dark_clip_level : R
  pub dark_clip_ratio_limit : R
  pub bright_clip_level : R
  pub bright_clip_ratio_limit : R
  pub sharpness_min : R
  pub background_luma_std_max : R
  pub background_block_range_max : R
  pub shadow_left_right_diff_max : R
  pub shadow_top_bottom_diff_max : R

pub record QualityMetrics {ℓ} (R : Type ℓ) : Type ℓ where
  pub dark_clip_ratio : R
  pub bright_clip_ratio : R
  pub sharpness : R
  pub background : Option (BackgroundMetrics R)

pub data QualityStatus : Type 0 where
  warn unknown : QualityStatus

pub record QualityResult {ℓ} (R : Type ℓ) : Type ℓ where
  pub status : QualityStatus
  pub issues : List String
  pub metrics : QualityMetrics R

abbrev pub blurry_issue : String
blurry_issue = "image may be blurry: sharpness below the heuristic threshold"

abbrev pub no_issue : String
no_issue = "exposure and sharpness show no obvious issues (heuristic, for reference only)"

unfoldable pub or_no_issue : List String → List String
or_no_issue [] = no_issue ∷ []
or_no_issue (x ∷ xs) = x ∷ xs

module _ {ℓ} {R : Type ℓ} ⦃n : Number R⦄ where
  unfoldable pub quality_config : QualityConfig R
  quality_config = record {
    normalize_long_edge = n.lit 512 0;
    dark_clip_level = n.lit 10 0;
    dark_clip_ratio_limit = n.lit 2 2;
    bright_clip_level = n.lit 245 0;
    bright_clip_ratio_limit = n.lit 2 2;
    sharpness_min = n.lit 60 0;
    background_luma_std_max = n.lit 30 0;
    background_block_range_max = n.lit 60 0;
    shadow_left_right_diff_max = n.lit 40 0;
    shadow_top_bottom_diff_max = n.lit 40 0;
  }

  unfoldable pub empty_metrics : QualityMetrics R
  empty_metrics = record {
    dark_clip_ratio = nought;
    bright_clip_ratio = nought;
    sharpness = nought;
    background = none;
  }

  unfoldable pub share : List R → (R → Bool) → ℕ → R
  share xs p count = n.div (whole (length (filter p xs))) (whole count)

  unfoldable pub dark_issue : R → String
  dark_issue ratio =
      append "underexposed: dark-clipped pixels are "
        (append (n.to_fixed (ratio ⊗ n.lit 100 0) 1) "%")

  unfoldable pub bright_issue : R → String
  bright_issue ratio =
      append "overexposed: bright-clipped pixels are "
        (append (n.to_fixed (ratio ⊗ n.lit 100 0) 1) "%")

  unfoldable pub quality_issues : QualityConfig R → QualityMetrics R → List String
  unfolding dark_issue bright_issue or_no_issue
  quality_issues config m = or_no_issue (
      (if n.lt config.dark_clip_ratio_limit m.dark_clip_ratio
        then dark_issue m.dark_clip_ratio ∷ []
        else [])
      ++ ((if n.lt config.bright_clip_ratio_limit m.bright_clip_ratio
            then bright_issue m.bright_clip_ratio ∷ []
            else [])
          ++ (if n.lt m.sharpness config.sharpness_min then blurry_issue ∷ [] else [])))

  unfoldable pub background_of : List R → ℕ → ℕ → Option (FaceRoi R) → Option (BackgroundMetrics R)
  unfolding background_metrics
  background_of luma width height none = none
  background_of luma width height (some roi) = background_metrics luma width height roi

  unfoldable pub measure : QualityConfig R → List ℕ → ℕ → ℕ → Option (FaceRoi R) → QualityMetrics R
  unfolding lumas share laplacian_variance background_of
  measure config bytes width height roi =
      let values = lumas bytes in
      let luma = map n.fround values in
      record {
        dark_clip_ratio = share values (λ v. n.le v config.dark_clip_level) (width * height);
        bright_clip_ratio = share values (λ v. n.le config.bright_clip_level v) (width * height);
        sharpness = laplacian_variance luma width height;
        background = background_of luma width height roi;
      }

  unfoldable pub unreadable : String → QualityResult R
  unfolding empty_metrics
  unreadable issue = record { status = unknown; issues = issue ∷ []; metrics = empty_metrics }

  unfoldable pub judge_quality :
      QualityConfig R → Option (List ℕ) → ℕ → ℕ → Option (FaceRoi R) → QualityResult R
  unfolding unreadable measure quality_issues
  judge_quality config none width height roi = unreadable "cannot create the analysis canvas"
  judge_quality config (some bytes) width height roi =
      let m = measure config bytes width height roi in
      record { status = warn; issues = quality_issues config m; metrics = m }

  -- `Math.max(1, Math.round(edge * scale))`.
  unfoldable pub scaled_edge : QualityConfig R → R → R → ℕ
  scaled_edge config long_edge edge =
      n.to_uint32 (n.max one (n.round (edge ⊗ n.div config.normalize_long_edge long_edge)))

  -- `drawn` gives the data of a canvas of a size on which the photo is drawn, or none where it has no
  -- context.
  unfoldable pub analyze_quality :
      QualityConfig R → (ℕ → ℕ → Option (List ℕ)) → Rect R → Option (FaceRoi R) → QualityResult R
  unfolding unreadable judge_quality scaled_edge
  analyze_quality config drawn bitmap roi =
      let long_edge = n.max bitmap.width bitmap.height in
      let width = scaled_edge config long_edge bitmap.width in
      let height = scaled_edge config long_edge bitmap.height in
      if n.lt long_edge nought || n.lt nought long_edge
      then judge_quality config (drawn width height) width height roi
      else unreadable "cannot read the image"
