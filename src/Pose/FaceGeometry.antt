-- ===== src/Pose/FaceGeometry.antt =====
-- frontend/src/pose/face-geometry.ts: distances and places in the landmarks of a face.
use portrait_booth.Base.{
  ℕ, not, ◌||◌, Option, none, some, List, [], ◌∷◌, if◌then◌else◌, get_elem?, ◌>>=◌,
}
use portrait_booth.Number.{Number, ◌⊕◌, ◌⊖◌, ◌⊗◌, number_ring}
use portrait_booth.Editor.Transform.{nought, one, two}
use portrait_booth.Pose.Tracking.{Point, FaceObservation, or_other}

pub record FaceRoi {ℓ} (R : Type ℓ) : Type ℓ where
  pub x : R
  pub y : R
  pub width : R
  pub height : R

pub record FaceAnchors {ℓ} (R : Type ℓ) : Type ℓ where
  pub chin_tip : Point R
  pub hairline : Point R
  pub face_center : Point R
  pub eye_line : Point R

-- The box around the points so far: `none` is the box from Infinity to -Infinity.
pub record Box {ℓ} (R : Type ℓ) : Type ℓ where
  pub min_x : R
  pub min_y : R
  pub max_x : R
  pub max_y : R

module _ {ℓ} {R : Type ℓ} ⦃n : Number R⦄ where
  abbrev pub ear_closed_max : R
  ear_closed_max = n.lit 25 2

  abbrev pub mar_open_min : R
  mar_open_min = n.lit 5 1

  abbrev pub roi_expand_ratio : R
  roi_expand_ratio = n.lit 15 2

  unfoldable pub usable : Point R → Option (Point R)
  usable p = if not (n.is_finite p.x) || not (n.is_finite p.y) then none else some p

  unfoldable pub pt : FaceObservation R → ℕ → Option (Point R)
  unfolding usable
  pt face index = get_elem? face.landmarks index >>= usable

  unfoldable pub middle : Point R → Point R → Point R
  middle a b = record { x = n.div (a.x ⊕ b.x) two; y = n.div (a.y ⊕ b.y) two }

  unfoldable pub to_pixels : R → R → Point R → Point R
  to_pixels width height p = record { x = p.x ⊗ width; y = p.y ⊗ height }

  unfoldable pub anchors_of : FaceObservation R → R → R → Option (FaceAnchors R)
  unfolding pt middle to_pixels
  anchors_of face width height = do
    chin_tip ← pt face 152
    hairline ← or_other (pt face 10) (pt face 9)
    left_outer ← pt face 33
    left_inner ← pt face 133
    right_inner ← pt face 362
    right_outer ← pt face 263
    some (record {
      chin_tip = to_pixels width height chin_tip;
      hairline = to_pixels width height hairline;
      face_center = to_pixels width height (middle left_outer right_outer);
      eye_line =
          to_pixels width height
            (middle (middle left_outer left_inner) (middle right_inner right_outer));
    })

  unfoldable pub face_anchors : FaceObservation R → R → R → Option (FaceAnchors R)
  unfolding anchors_of
  face_anchors face width height =
      if not (n.is_finite width)
        || not (n.is_finite height)
        || n.le width nought
        || n.le height nought
      then none
      else anchors_of face width height

  unfoldable pub finite : R → Option R
  finite r = if n.is_finite r then some r else none

  unfoldable pub ratio_with_aspect : R → R → R → Option R
  unfolding finite
  ratio_with_aspect dy dx aspect =
      if n.eq dx nought || not (n.is_finite dy) || not (n.is_finite aspect)
      then none
      else finite (n.div dy dx ⊗ aspect)

  -- The distance of two points over that of two others.
  unfoldable pub vertical_over_horizontal :
      FaceObservation R → (top bottom outer inner : ℕ) → R → Option R
  unfolding pt ratio_with_aspect
  vertical_over_horizontal face top bottom outer inner aspect = do
    a ← pt face top
    b ← pt face bottom
    c ← pt face outer
    d ← pt face inner
    ratio_with_aspect (n.abs (b.y ⊖ a.y)) (n.abs (d.x ⊖ c.x)) aspect

  unfoldable pub eye_aspect_ratio : FaceObservation R → R → Option R
  unfolding vertical_over_horizontal
  eye_aspect_ratio face aspect = do
    left ← vertical_over_horizontal face 159 145 33 133 one
    right ← vertical_over_horizontal face 386 374 362 263 one
    some (n.div (left ⊕ right) two ⊗ aspect)

  unfoldable pub mouth_aspect_ratio : FaceObservation R → R → Option R
  unfolding vertical_over_horizontal
  mouth_aspect_ratio face aspect = vertical_over_horizontal face 13 14 61 291 aspect

  unfoldable pub extend : Point R → Option (Box R) → Box R
  extend p none = record { min_x = p.x; min_y = p.y; max_x = p.x; max_y = p.y }
  extend p (some box) = record {
    min_x = n.min box.min_x p.x;
    min_y = n.min box.min_y p.y;
    max_x = n.max box.max_x p.x;
    max_y = n.max box.max_y p.y;
  }

  unfoldable pub bounding_box : List (Point R) → Option (Box R) → Option (Box R)
  unfolding usable extend
  bounding_box [] box = box
  bounding_box (p ∷ ps) box =
      bounding_box ps (elim (usable p) [ none ↦ box | some q ↦ some (extend q box) ])

  unfoldable pub roi_of : Box R → Option (FaceRoi R)
  roi_of box =
      let w = box.max_x ⊖ box.min_x in
      let h = box.max_y ⊖ box.min_y in
      let x = n.max nought (box.min_x ⊖ w ⊗ roi_expand_ratio) in
      let y = n.max nought (box.min_y ⊖ h ⊗ roi_expand_ratio) in
      let right = n.min one (box.max_x ⊕ w ⊗ roi_expand_ratio) in
      let bottom = n.min one (box.max_y ⊕ h ⊗ roi_expand_ratio) in
      if n.le w nought || n.le h nought
      then none
      else some (record { x = x; y = y; width = right ⊖ x; height = bottom ⊖ y })

  unfoldable pub face_roi : FaceObservation R → Option (FaceRoi R)
  unfolding bounding_box roi_of
  face_roi face = bounding_box face.landmarks none >>= roi_of
