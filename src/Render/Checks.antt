-- ===== src/Render/Checks.antt =====
-- frontend/src/render/checks.ts: the summary of checks of a finished picture. The text `detail` of an item
-- is left out; a file is its bytes, and its media type, which the encoder sets, is an argument.
pub mod Laws
pub mod Final
pub mod Exposure
mod Tests
use Prim.Native.String.{String, ◌++◌ as append}
use portrait_booth.Base.{
  ℕ, zero, suc, Bool, true, false, not, ◌&&◌, ◌||◌, Option, none, some, List, [], ◌∷◌, ◌++◌, map,
  leb, ◌==◌, if◌then◌else◌, length, filter, same_text, Loop, out_of_fuel, done,
}
use portrait_booth.Number.{Number, ◌⊖◌, ◌⊗◌, number_ring}
use portrait_booth.Jpeg.{JpegDensity, read_jpeg_density, has_exif_segment}
use portrait_booth.Template.{
  OutputProfile, physical_raster, PhysicalRaster, Provenance, PublicationStatus,
  TemplatePublication, Enforcement, Evaluation, CaptureRule, TemplateRevision, TemplateEntry,
}
use portrait_booth.Image.Exif.{Transform2D}
use portrait_booth.Editor.OutputSize.{OutputSizeOption, whole, resolve_output_size}
use portrait_booth.Pose.Tracking.{PoseState, is_ready}
use portrait_booth.Pose.FaceGeometry.{FaceAnchors}
use portrait_booth.Pose.Quality.Pixels.{BackgroundMetrics}
use portrait_booth.Pose.Quality
use portrait_booth.Pose.Quality.{QualityResult, quality_config}
use portrait_booth.Pose.StaticCheck.{StaticCheckResult, is_problem}
use portrait_booth.Render.Artifact.{CoverageReport, FinalManifest, FinalArtifact, max_bytes_of}
use portrait_booth.Render.Geometry.{
  CheckStatus, pass, warn, fail, unknown, manual, CheckItem, geometry_checks,
}

unfoldable pub pass_or_fail : Bool → CheckStatus
pass_or_fail true = pass
pass_or_fail false = fail

-- The checks that are pushed together.
unfoldable pub item : String → String → CheckStatus → List CheckItem
item id label status = record { id = id; label = label; status = status } ∷ []

-- The loops over a file end (frontend/src/render/jpeg.ts), so that the second case does not occur.
abbrev pub ended {ℓ} : {A : Type ℓ} → Loop A → A → A
ended (done a) other = a
ended out_of_fuel other = other

unfoldable pub is_active : PublicationStatus → Bool
is_active PublicationStatus.active = true
is_active _ = false

unfoldable pub is_portal_verified : Provenance → Bool
is_portal_verified Provenance.portal_verified = true
is_portal_verified _ = false

unfoldable pub alpha_status : CoverageReport → CheckStatus
alpha_status c =
    if c.scanned_pixels == 0 then unknown else if c.transparent_pixels == 0 then pass else fail

unfoldable pub file_size_check : Option ℕ → ℕ → List CheckItem
unfolding item pass_or_fail
file_size_check (some (suc k)) size = item "file-size" "File size" (pass_or_fail (leb size (suc k)))
file_size_check _ size = []

unfoldable pub matches_size {ℓ} : {R : Type ℓ} → Option OutputSizeOption → FinalManifest R → Bool
matches_size none m = false
matches_size (some s) m = m.width_px == s.width && m.height_px == s.height

unfoldable pub publication_check : TemplatePublication → List CheckItem
unfolding item is_active
publication_check p =
    if is_active p.status then [] else item "publication" "Template publication status" warn

unfoldable pub is_manual : Evaluation → Bool
is_manual Evaluation.manual = true
is_manual _ = false

unfoldable pub is_mandatory : Enforcement → Bool
is_mandatory Enforcement.mandatory = true
is_mandatory _ = false

-- `problems.length === 0`.
unfoldable pub problems_status : List String → CheckStatus
problems_status [] = pass
problems_status (x ∷ xs) = warn

module _ {ℓ} {R : Type ℓ} where
  unfoldable pub capture_rule_check : CaptureRule R → CheckItem
  unfolding is_mandatory is_manual
  capture_rule_check rule = record {
    id = append "capture:" rule.id;
    label =
        if is_mandatory rule.enforcement
        then "Capture requirement"
        else "Capture requirement (recommended)";
    status = if is_manual rule.evaluation then manual else unknown;
  }

  unfoldable pub capture_rule_checks : TemplateRevision R → List CheckItem
  unfolding capture_rule_check
  capture_rule_checks rev = map capture_rule_check rev.capture_rules

  unfoldable pub is_print_ready_profile : OutputProfile R → Bool → Bool
  unfolding is_portal_verified
  is_print_ready_profile (physical_raster p) active = active && is_portal_verified p.ppi_provenance
  is_print_ready_profile _ active = false

  unfoldable pub is_print_ready : TemplateEntry R → Bool
  unfolding is_print_ready_profile is_active
  is_print_ready entry =
      is_print_ready_profile entry.revision.output (is_active entry.publication.status)

  unfoldable pub pose_status : Option (PoseState R) → CheckStatus
  pose_status none = unknown
  pose_status (some pose) = if is_ready pose.status then pass else warn

  unfoldable pub pose_check : Option (StaticCheckResult R) → List CheckItem
  unfolding item pose_status
  pose_check none = item "pose" "Pose check" unknown
  pose_check (some r) =
      item "pose" "Pose check" (if r.pose_available then pose_status r.pose else unknown)

  unfoldable pub exposure_status : QualityResult R → CheckStatus
  unfolding problems_status is_problem
  exposure_status q = elim q.status [
    | Quality.QualityStatus.unknown ↦ unknown
    | Quality.QualityStatus.warn ↦ problems_status (filter is_problem q.issues)
  ]

  unfoldable pub exposure_check : Option (StaticCheckResult R) → List CheckItem
  unfolding item exposure_status
  exposure_check none = item "exposure" "Exposure & sharpness" unknown
  exposure_check (some r) = item "exposure" "Exposure & sharpness" (exposure_status r.quality)

module _ {ℓ} {R : Type ℓ} ⦃n : Number R⦄ where
  -- One of the four numbers is above its limit.
  unfoldable pub is_uneven : BackgroundMetrics R → Bool
  unfolding quality_config
  is_uneven bg =
      n.lt quality_config.background_luma_std_max bg.luma_std
      || n.lt quality_config.background_block_range_max bg.block_range
      || n.lt quality_config.shadow_left_right_diff_max bg.left_right_diff
      || n.lt quality_config.shadow_top_bottom_diff_max bg.top_bottom_diff

  unfoldable pub background_status : Option (BackgroundMetrics R) → CheckStatus
  unfolding is_uneven
  background_status none = unknown
  background_status (some bg) = if is_uneven bg then warn else unknown

  unfoldable pub background_check : Option (StaticCheckResult R) → List CheckItem
  unfolding item background_status
  background_check none = item "background" "Background check" unknown
  background_check (some r) =
      item "background" "Background check" (background_status r.quality.metrics.background)

  unfoldable pub has_density : R → Option JpegDensity → Bool
  has_density ppi none = false
  has_density ppi (some d) = d.units == 1 && n.eq (whole d.xdensity) ppi

  unfoldable pub print_density_check : OutputProfile R → List ℕ → List CheckItem
  unfolding item pass_or_fail has_density
  print_density_check (physical_raster p) bytes =
      item "print-density" "Print density"
        (pass_or_fail (has_density p.print_ppi (ended (read_jpeg_density bytes) none)))
  print_density_check _ bytes = []

  unfoldable pub resolution_status : Transform2D R → CheckStatus
  resolution_status m =
      if n.lt (n.lit 1001 3) (n.sqrt (n.abs (m.a ⊗ m.d ⊖ m.b ⊗ m.c))) then warn else pass

  unfoldable pub anchors_of_check : Option (StaticCheckResult R) → Option (FaceAnchors R)
  anchors_of_check none = none
  anchors_of_check (some r) = r.face_anchors

  -- The media type of the file is the first argument.
  unfoldable pub build_checks :
      String
      → FinalArtifact R
      → TemplateEntry R
      → Option (StaticCheckResult R)
      → Option OutputSizeOption
      → List CheckItem
  unfolding item pass_or_fail matches_size file_size_check print_density_check alpha_status
      resolution_status pose_check exposure_check background_check geometry_checks anchors_of_check
      publication_check capture_rule_checks
  build_checks mime a entry checks selected =
      let rev = entry.revision in
      item "exact-pixels" "Pixel size"
        (pass_or_fail (matches_size (resolve_output_size rev selected) a.manifest))
      ++ (item "format" "Format" (pass_or_fail (same_text mime "image/jpeg"))
          ++ (item "metadata" "Metadata"
                (pass_or_fail (not (ended (has_exif_segment a.blob) false)))
              ++ (file_size_check (max_bytes_of rev.output_file) (length a.blob)
                  ++ (print_density_check rev.output a.blob
                      ++ (item "no-alpha" "Crop integrity" (alpha_status a.coverage)
                          ++ (item "source-resolution" "Source resolution"
                                (resolution_status a.manifest.matrix)
                              ++ (pose_check checks
                                  ++ (exposure_check checks
                                      ++ (background_check checks
                                          ++ (geometry_checks rev a.manifest
                                                (anchors_of_check checks)
                                              ++ (publication_check entry.publication
                                                  ++ capture_rule_checks rev)))))))))))
