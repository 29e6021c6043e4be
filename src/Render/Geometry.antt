-- ===== src/Render/Geometry.antt =====
-- frontend/src/render/geometry-checks.ts and check-types.ts: the crop rules that are measured on the
-- finished picture. The text `detail` of an item, which quotes the measured numbers, is left out.
pub mod Laws
use Prim.Native.String.{String, ◌++◌ as append}
use portrait_booth.Base.{
  Bool, true, false, not, ◌&&◌, ◌||◌, Option, none, some, List, [], ◌∷◌, ◌++◌, if◌then◌else◌,
  same_text,
}
use portrait_booth.Number.{Number, ◌⊕◌, ◌⊖◌, ◌⊗◌, number_ring}
use portrait_booth.Template.{MeasurementRule, TemplateRevision}
use portrait_booth.Image.Exif.{Rect, Transform2D}
use portrait_booth.Editor.OutputSize.{whole}
use portrait_booth.Editor.Transform.{nought, two}
use portrait_booth.Editor.Overlay.{metric_label, bound, has_bound}
use portrait_booth.Pose.Tracking.{Point}
use portrait_booth.Pose.FaceGeometry.{FaceAnchors}
use portrait_booth.Render.Artifact.{FinalManifest}

pub data CheckStatus : Type 0 where
  pass warn fail unknown manual : CheckStatus

pub record CheckItem : Type 0 where
  pub id : String
  pub label : String
  pub status : CheckStatus

-- Which rule `HANDLED_METRICS` and the `switch` mean by a metric.
pub data Measured : Type 0 where
  head_height face_center_offset_x chin_bottom_margin eye_line_from_bottom : Measured

unfoldable pub measured_of : String → Option Measured
measured_of metric =
    if same_text metric "head_height"
    then some head_height
    else if same_text metric "face_center_offset_x"
    then some face_center_offset_x
    else if same_text metric "chin_bottom_margin"
    then some chin_bottom_margin
    else if same_text metric "eye_line_from_bottom"
    then some eye_line_from_bottom
    else none

unfoldable pub crop_item {ℓ} : {R : Type ℓ} → MeasurementRule R → CheckStatus → CheckItem
unfolding metric_label
crop_item rule status = record {
  id = append "crop:" rule.id;
  label = metric_label rule.metric;
  status = status;
}

unfoldable pub unmeasured {ℓ} : {R : Type ℓ} → MeasurementRule R → CheckItem
unfolding crop_item
unmeasured rule = crop_item rule unknown

module _ {ℓ} {R : Type ℓ} ⦃n : Number R⦄ where
  unfoldable pub to_output : Point R → Transform2D R → Point R
  to_output p m = record { x = m.a ⊗ p.x ⊕ m.c ⊗ p.y ⊕ m.e; y = m.b ⊗ p.x ⊕ m.d ⊗ p.y ⊕ m.f }

  -- `max !== null && span > max`.
  unfoldable pub above : R → Option R → Bool
  above value none = false
  above value (some max) = n.lt max value

  -- `(min === null || value >= min) && (max === null || value <= max)`.
  unfoldable pub at_least : Option R → R → Bool
  at_least none value = true
  at_least (some min) value = n.le min value

  unfoldable pub at_most : R → Option R → Bool
  at_most value none = true
  at_most value (some max) = n.le value max

  unfoldable pub within : Option R → R → Option R → Bool
  unfolding at_least at_most
  within min value max = at_least min value && at_most value max

  -- The head's height: only its excess can be seen.
  unfoldable pub head_height_status : Option R → R → Option R → CheckStatus
  unfolding above has_bound
  head_height_status min span max =
      if not (n.is_finite span) || n.le span nought
      then unknown
      else if not (has_bound min max)
      then unknown
      else if above span max
      then warn
      else unknown

  -- A position: inside or outside of the bounds.
  unfoldable pub position_status : Option R → R → Option R → CheckStatus
  unfolding within has_bound
  position_status min value max =
      if not (n.is_finite value)
      then unknown
      else if not (has_bound min max)
      then unknown
      else if within min value max
      then pass
      else warn

  module _ (rev : TemplateRevision R) (out : Rect R) where
    unfoldable pub head_height_check : MeasurementRule R → FaceAnchors R → Transform2D R → CheckItem
    unfolding to_output head_height_status crop_item bound
    head_height_check rule anchors m =
        let span = (to_output anchors.chin_tip m).y ⊖ (to_output anchors.hairline m).y in
        crop_item rule
          (head_height_status (bound rule.min rule rev out) span (bound rule.max rule rev out))

    unfoldable pub face_center_offset_check :
        MeasurementRule R → FaceAnchors R → Transform2D R → CheckItem
    unfolding to_output position_status crop_item bound
    face_center_offset_check rule anchors m =
        let offset = (to_output anchors.face_center m).x ⊖ n.div out.width two in
        crop_item rule
          (position_status (bound rule.min rule rev out) offset (bound rule.max rule rev out))

    unfoldable pub margin_from_bottom_check :
        MeasurementRule R → Point R → Transform2D R → CheckItem
    unfolding to_output position_status crop_item bound
    margin_from_bottom_check rule point m =
        let distance = out.height ⊖ (to_output point m).y in
        crop_item rule
          (position_status (bound rule.min rule rev out) distance (bound rule.max rule rev out))

    unfoldable pub measure_rule :
        Measured → MeasurementRule R → FaceAnchors R → Transform2D R → CheckItem
    unfolding head_height_check face_center_offset_check margin_from_bottom_check
    measure_rule head_height rule anchors m = head_height_check rule anchors m
    measure_rule face_center_offset_x rule anchors m = face_center_offset_check rule anchors m
    measure_rule chin_bottom_margin rule anchors m =
        margin_from_bottom_check rule anchors.chin_tip m
    measure_rule eye_line_from_bottom rule anchors m =
        margin_from_bottom_check rule anchors.eye_line m

    -- What the loop pushes for a rule.
    unfoldable pub rule_items :
        Option Measured
        → MeasurementRule R
        → Option (FaceAnchors R)
        → Transform2D R
        → List CheckItem
    unfolding unmeasured measure_rule
    rule_items none rule anchors m = []
    rule_items (some k) rule none m = unmeasured rule ∷ []
    rule_items (some k) rule (some anchors) m = measure_rule k rule anchors m ∷ []

    unfoldable pub geometry_loop :
        List (MeasurementRule R) → Option (FaceAnchors R) → Transform2D R → List CheckItem
    unfolding rule_items measured_of
    geometry_loop [] anchors m = []
    geometry_loop (rule ∷ rules) anchors m =
        rule_items (measured_of rule.metric) rule anchors m ++ geometry_loop rules anchors m

  unfoldable pub manifest_rect : FinalManifest R → Rect R
  manifest_rect m = record { width = whole m.width_px; height = whole m.height_px }

  unfoldable pub geometry_checks :
      TemplateRevision R → FinalManifest R → Option (FaceAnchors R) → List CheckItem
  unfolding geometry_loop manifest_rect
  geometry_checks rev manifest anchors =
      geometry_loop rev (manifest_rect manifest) rev.crop_rules anchors manifest.matrix
