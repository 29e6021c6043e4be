-- ===== src/Pose/StaticCheck.antt =====
-- frontend/src/pose/static-check.ts: the recheck of a photo that was taken. The landmarker and the canvas
-- are the browser's: `detected` is what the landmarker finds in the photo, or none where it fails.
use Prim.Native.String.{String, ◌++◌ as append}
use text.Mathlib.Text.{find?}
use portrait_booth.Base.{
  is_none, ℕ, Bool, true, false, not, Option, none, some, List, [], ◌∷◌, ◌++◌, if◌then◌else◌, ◌>>=◌,
  filter,
}
use portrait_booth.Number.{Number, number_ring}
use portrait_booth.Image.Exif.{Rect}
use portrait_booth.Editor.Transform.{nought}
use portrait_booth.Pose.Tracking.{
  FaceObservation, PoseState, PoseThresholds, is_ready, select_primary_face,
}
use portrait_booth.Pose.Tracker.{new_tracker, update}
use portrait_booth.Pose.GuidanceText.{format_guidance}
use portrait_booth.Pose.FaceGeometry.{
  FaceAnchors, ear_closed_max, mar_open_min, face_anchors, eye_aspect_ratio, mouth_aspect_ratio,
  face_roi,
}
use portrait_booth.Pose.Quality.{QualityConfig, QualityResult, analyze_quality}

pub record EyesAndMouth : Type 0 where
  pub eyes_closed : Bool
  pub mouth_open : Bool

pub record StaticCheckResult {ℓ} (R : Type ℓ) : Type ℓ where
  pub pose : Option (PoseState R)
  pub quality : QualityResult R
  pub pose_available : Bool
  pub face_geometry : Option EyesAndMouth
  pub face_anchors : Option (FaceAnchors R)

-- `includes`.
unfoldable pub includes : String → String → Bool
includes text part = elim (find? text part) [ none ↦ false | some i ↦ true ]

-- An issue of the quality result that is not the remark that there is none.
unfoldable pub is_problem : String → Bool
unfolding includes
is_problem issue = not (includes issue "no obvious issues")

abbrev pub pushed_if : Bool → String → List String
pushed_if true text = text ∷ []
pushed_if false text = []

unfoldable pub geometry_warnings : Option EyesAndMouth → List String
geometry_warnings none = []
geometry_warnings (some g) =
    pushed_if g.eyes_closed "eyes may be closed: eye-opening is below the heuristic threshold"
    ++ pushed_if g.mouth_open "mouth may be open: mouth-opening is above the heuristic threshold"

module _ {ℓ} {R : Type ℓ} where
  unfoldable pub pose_warning : Option (PoseState R) → List String
  pose_warning none = []
  pose_warning (some pose) =
      if is_ready pose.status
      then []
      else append "pose recheck failed: " (format_guidance pose.status pose.guidance_hints) ∷ []

  unfoldable pub static_check_warnings : StaticCheckResult R → List String
  unfolding pose_warning geometry_warnings is_problem
  static_check_warnings r =
      pose_warning r.pose
      ++ (geometry_warnings r.face_geometry ++ filter is_problem r.quality.issues)

  unfoldable pub static_check_unknowns : StaticCheckResult R → List String
  static_check_unknowns r =
      pushed_if (not r.pose_available) "pose recheck"
      ++ (pushed_if (is_none r.face_geometry) "face geometry (eyes/mouth)"
          ++ pushed_if (is_none r.quality.metrics.background) "background uniformity")

module _ {ℓ} {R : Type ℓ} ⦃n : Number R⦄ where
  unfoldable pub eyes_and_mouth : FaceObservation R → R → Option EyesAndMouth
  eyes_and_mouth face aspect = do
    ear ← eye_aspect_ratio face aspect
    mar ← mouth_aspect_ratio face aspect
    some (record { eyes_closed = n.lt ear ear_closed_max; mouth_open = n.lt mar_open_min mar })

  -- The only face that the tracker is given, or none.
  unfoldable pub faces_of : Option (FaceObservation R) → List (FaceObservation R)
  faces_of none = []
  faces_of (some face) = face ∷ []

  -- `DEFAULT_POSE_THRESHOLDS`.
  unfoldable pub default_pose_thresholds : PoseThresholds R
  default_pose_thresholds = record {
    yaw_deg = n.lit 7 0;
    pitch_deg = n.lit 7 0;
    roll_deg = n.lit 5 0;
    stable_ms = n.lit 800 0;
    face_width_min = n.lit 15 2;
    face_width_max = n.lit 6 1;
    face_offset_max = n.lit 25 2;
  }

  unfoldable pub recheck_pose : Option (FaceObservation R) → PoseState R
  unfolding faces_of default_pose_thresholds
  recheck_pose primary =
      (update (new_tracker default_pose_thresholds false (n.lit 5 1)) (faces_of primary) nought).1

  unfoldable pub primary_of : Option (List (FaceObservation R)) → Option (FaceObservation R)
  primary_of none = none
  primary_of (some faces) = select_primary_face faces none

  unfoldable pub pose_of : Option (List (FaceObservation R)) → Option (PoseState R)
  unfolding primary_of recheck_pose
  pose_of none = none
  pose_of (some faces) = some (recheck_pose (primary_of (some faces)))

  unfoldable pub run_static_check :
      QualityConfig R
      → Option (List (FaceObservation R))
      → (ℕ → ℕ → Option (List ℕ))
      → Rect R
      → StaticCheckResult R
  unfolding primary_of pose_of eyes_and_mouth
  run_static_check config detected drawn bitmap =
      let primary = primary_of detected in
      let aspect = n.div bitmap.height bitmap.width in
      record {
        pose = pose_of detected;
        quality = analyze_quality config drawn bitmap (primary >>= face_roi);
        pose_available = not (is_none detected);
        face_geometry = primary >>= λ face. eyes_and_mouth face aspect;
        face_anchors = primary >>= λ face. face_anchors face bitmap.width bitmap.height;
      }
