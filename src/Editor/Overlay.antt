-- ===== src/Editor/Overlay.antt =====
-- frontend/src/editor/overlay.ts: a template's rules as bands on the canvas, in output pixels.
use Prim.Native.String.{String}
use portrait_booth.Base.{
  Bool, true, false, not, ◌||◌, Option, none, some, List, [], ◌∷◌, if◌then◌else◌, same_text, ◌>>=◌,
}
use portrait_booth.Number.{Number, ◌⊕◌, ◌⊖◌, ◌⊗◌, number_ring}
use portrait_booth.Template.{
  Axis, x_axis, Enforcement, MeasurementRule, OutputProfile, physical_raster, TemplateRevision,
}
use portrait_booth.Image.Exif.{Rect}
use portrait_booth.Editor.Transform.{nought, two}

pub data GuideKind : Type 0 where
  horizontal_band vertical_band size_y size_x : GuideKind

pub record OverlayGuide {ℓ} (R : Type ℓ) : Type ℓ where
  pub rule_id : String
  pub metric : String
  pub kind : GuideKind
  pub from_px : R
  pub to_px : R
  pub label : String
  pub enforcement : Enforcement
  pub source_literal : Option String

unfoldable pub metric_label : String → String
metric_label metric =
    if same_text metric "head_height"
    then "Head height"
    else if same_text metric "head_top_margin"
    then "Head top margin"
    else if same_text metric "chin_bottom_margin"
    then "Chin to bottom edge"
    else if same_text metric "eye_line_from_bottom"
    then "Eye height (from bottom)"
    else if same_text metric "face_center_offset_x"
    then "Face center-line offset"
    else if same_text metric "face_width"
    then "Face width"
    else if same_text metric "interpupil_distance"
    then "Interpupillary distance"
    else if same_text metric "face_left_margin"
    then "Face left margin"
    else if same_text metric "face_right_margin"
    then "Face right margin"
    else metric

pub record Span {ℓ} (R : Type ℓ) : Type ℓ where
  pub start : R
  pub end : R
  pub kind : GuideKind

pub record Ellipse {ℓ} (R : Type ℓ) : Type ℓ where
  pub cx : R
  pub cy : R
  pub rx : R
  pub ry : R

-- `a ?? b`.
abbrev pub or_value {ℓ} : {A : Type ℓ} → Option A → A → A
or_value none b = b
or_value (some a) b = a

module _ {ℓ} {R : Type ℓ} ⦃n : Number R⦄ where
  abbrev pub mm_per_inch : R
  mm_per_inch = n.lit 254 1

  unfoldable pub mm_to_pixels : R → OutputProfile R → Option R
  mm_to_pixels value (physical_raster p) = some (n.div value mm_per_inch ⊗ p.print_ppi)
  mm_to_pixels value _ = none

  unfoldable pub along_axis : R → Axis → Rect R → R
  along_axis value x_axis out = value ⊗ out.width
  along_axis value _ out = value ⊗ out.height

  unfoldable pub to_output_pixels : R → MeasurementRule R → TemplateRevision R → Rect R → Option R
  unfolding mm_to_pixels along_axis
  to_output_pixels value rule rev out =
      if same_text rule.coordinate_space "output_pixel_top_left"
      then some value
      else if same_text rule.coordinate_space "output_physical_mm_top_left"
      then mm_to_pixels value rev.output
      else if same_text rule.coordinate_space "output_normalized_top_left"
      then some (along_axis value rule.axis out)
      else none

  -- A bound of a rule: none where it is absent or cannot be converted.
  unfoldable pub bound : Option R → MeasurementRule R → TemplateRevision R → Rect R → Option R
  unfolding to_output_pixels
  bound none rule rev out = none
  bound (some value) rule rev out = to_output_pixels value rule rev out

  unfoldable pub span_for : String → Option R → Option R → Rect R → Option (Span R)
  span_for metric min max out =
      let h = out.height in
      let w = out.width in
      let center = n.div w two in
      if same_text metric "head_top_margin"
      then some
          (record { start = or_value min nought; end = or_value max h; kind = horizontal_band })
      else if same_text metric "chin_bottom_margin" || same_text metric "eye_line_from_bottom"
      then some (record {
        start = h ⊖ or_value max h;
        end = h ⊖ or_value min nought;
        kind = horizontal_band;
      })
      else if same_text metric "face_left_margin"
      then some (record { start = or_value min nought; end = or_value max w; kind = vertical_band })
      else if same_text metric "face_right_margin"
      then some (record {
        start = w ⊖ or_value max w;
        end = w ⊖ or_value min nought;
        kind = vertical_band;
      })
      else if same_text metric "face_center_offset_x"
      then some (record {
        start = center ⊕ or_value min nought;
        end = center ⊕ or_value max nought;
        kind = vertical_band;
      })
      else if same_text metric "head_height"
      then some (record { start = or_value min nought; end = or_value max h; kind = size_y })
      else if same_text metric "face_width" || same_text metric "interpupil_distance"
      then some (record { start = or_value min nought; end = or_value max w; kind = size_x })
      else none

  -- `byId.get(ruleId)`: the map keeps the last rule of an id.
  unfoldable pub rule_by_id : String → List (MeasurementRule R) → Option (MeasurementRule R)
  rule_by_id id [] = none
  rule_by_id id (rule ∷ rules) = elim (rule_by_id id rules) [
    | some later ↦ some later
    | none ↦ if same_text rule.id id then some rule else none
  ]

  unfoldable pub has_bound : Option R → Option R → Bool
  has_bound none none = false
  has_bound _ _ = true

  -- A span as a guide, where both ends are numbers.
  unfoldable pub guide_along : MeasurementRule R → Span R → Option (OverlayGuide R)
  unfolding metric_label
  guide_along rule span =
      let from = n.min span.start span.end in
      let to = n.max span.start span.end in
      if not (n.is_finite from) || not (n.is_finite to)
      then none
      else some (record {
        rule_id = rule.id;
        metric = rule.metric;
        kind = span.kind;
        from_px = from;
        to_px = to;
        label = metric_label rule.metric;
        enforcement = rule.enforcement;
        source_literal = rule.source_literal;
      })

  -- The guide of one rule, where there is something to draw.
  unfoldable pub guide_of :
      TemplateRevision R → Rect R → MeasurementRule R → Option (OverlayGuide R)
  unfolding bound span_for guide_along has_bound
  guide_of rev out rule =
      let min = bound rule.min rule rev out in
      let max = bound rule.max rule rev out in
      if has_bound min max then span_for rule.metric min max out >>= guide_along rule else none

  unfoldable pub guides_for : TemplateRevision R → Rect R → List String → List (OverlayGuide R)
  unfolding rule_by_id guide_of
  guides_for rev out [] = []
  guides_for rev out (id ∷ ids) =
      let rest = guides_for rev out ids in
      elim (rule_by_id id rev.crop_rules >>= guide_of rev out) [
        | none ↦ rest
        | some guide ↦ guide ∷ rest
      ]

  unfoldable pub build_overlay_guides : TemplateRevision R → Rect R → List (OverlayGuide R)
  unfolding guides_for
  build_overlay_guides rev out =
      if same_text rev.overlay.kind "none" then [] else guides_for rev out rev.overlay.rule_ids

  unfoldable pub guide_of_metric : String → List (OverlayGuide R) → Option (OverlayGuide R)
  guide_of_metric metric [] = none
  guide_of_metric metric (g ∷ gs) =
      if same_text g.metric metric then some g else guide_of_metric metric gs

  unfoldable pub head_ellipse : List (OverlayGuide R) → Rect R → Option (Ellipse R)
  unfolding guide_of_metric
  head_ellipse guides out = do
    top ← guide_of_metric "head_top_margin" guides
    bottom ← guide_of_metric "chin_bottom_margin" guides
    let crown = n.div (top.from_px ⊕ top.to_px) two
    let chin = n.div (bottom.from_px ⊕ bottom.to_px) two
    let ry = n.div (chin ⊖ crown) two
    if n.le chin crown
        then none
        else some
            (record { cx = n.div out.width two; cy = crown ⊕ ry; rx = ry ⊗ n.lit 72 2; ry = ry })
