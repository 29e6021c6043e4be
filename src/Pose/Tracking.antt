-- ===== src/Pose/Tracking.antt =====
-- frontend/src/pose/tracking.ts: the tracker of the face in front of the camera. The setters of the mirror
-- flag have no effect on what `update` answers.
use portrait_booth.Base.{
  ℕ, Bool, true, false, Option, none, some, List, [], ◌∷◌, if◌then◌else◌, get_elem?, ◌>>=◌,
}
use portrait_booth.Number.{Number, ◌⊕◌, ◌⊖◌, ◌⊗◌, number_ring}
use portrait_booth.Editor.Transform.{nought, one, two}
use portrait_booth.Pose.Angles.{PoseAngles}

pub record PoseThresholds {ℓ} (R : Type ℓ) : Type ℓ where
  pub yaw_deg : R
  pub pitch_deg : R
  pub roll_deg : R
  pub stable_ms : R
  pub face_width_min : R
  pub face_width_max : R
  pub face_offset_max : R

pub record Point {ℓ} (R : Type ℓ) : Type ℓ where
  pub x : R
  pub y : R

pub record FaceObservation {ℓ} (R : Type ℓ) : Type ℓ where
  pub face_index : ℕ
  pub landmarks : List (Point R)
  pub matrix : List R

pub data GuidanceStatus : Type 0 where
  no_face multi_face out_of_position unstable ready : GuidanceStatus

pub data GuidanceHint : Type 0 where
  move_closer move_farther move_own_left move_own_right move_up move_down adjust_position
        turn_own_left turn_own_right raise_head lower_head level_own_left level_own_right
        hold_still :
      GuidanceHint

pub record PoseState {ℓ} (R : Type ℓ) : Type ℓ where
  pub status : GuidanceStatus
  pub angles : PoseAngles R
  pub face_width_ratio : R
  pub face_offset : Point R
  pub stable_ms : R
  pub shootable : Bool
  pub guidance_hints : List GuidanceHint

pub record FaceMetrics {ℓ} (R : Type ℓ) : Type ℓ where
  pub width : R
  pub center : Point R

pub record PoseTracker {ℓ} (R : Type ℓ) : Type ℓ where
  pub thresholds : PoseThresholds R
  pub mirrored : Bool
  pub alpha : R
  pub smoothed : Option (PoseAngles R)
  pub last_status : GuidanceStatus
  pub last_computed : GuidanceStatus
  pub stable_since : Option R
  pub last_angles : PoseAngles R
  pub last_face_width : R
  pub last_face_offset : Point R
  pub last_center : Option (Point R)

unfoldable pub is_ready : GuidanceStatus → Bool
is_ready GuidanceStatus.ready = true
is_ready _ = false

-- `a ?? b`.
unfoldable pub or_other {ℓ} : {A : Type ℓ} → Option A → Option A → Option A
or_other none b = b
or_other (some a) b = some a

module _ {ℓ} {R : Type ℓ} ⦃n : Number R⦄ where
  abbrev pub half : R
  half = n.lit 5 1

  -- The vertical center, of the top of the face if it is there.
  unfoldable pub center_y : Option (Point R) → Point R → Point R → Point R → R
  center_y (some top) left right chin = n.div (top.y ⊕ chin.y) two
  center_y none left right chin = n.div (left.y ⊕ right.y) two

  unfoldable pub face_metrics : FaceObservation R → Option (FaceMetrics R)
  unfolding center_y or_other
  face_metrics face = do
    left ← get_elem? face.landmarks 33
    right ← get_elem? face.landmarks 263
    chin ← get_elem? face.landmarks 152
    let top = or_other (get_elem? face.landmarks 10) (get_elem? face.landmarks 9)
    some (record {
      width = n.abs (left.x ⊖ right.x);
      center = record { x = n.div (left.x ⊕ right.x) two; y = center_y top left right chin };
    })

  unfoldable pub with_prior : Option (Point R) → Point R → R → R
  with_prior none center score = score
  with_prior (some prior) center score =
      n.div score (one ⊕ n.hypot (center.x ⊖ prior.x) (center.y ⊖ prior.y) ⊗ n.lit 4 0)

  unfoldable pub face_score : FaceMetrics R → Option (Point R) → R
  unfolding with_prior
  face_score m prior =
      let off_center = n.hypot (m.center.x ⊖ half) (m.center.y ⊖ half) in
      let centering = one ⊖ n.min one (off_center ⊗ two) in
      with_prior prior m.center (m.width ⊗ (half ⊕ half ⊗ centering))

  unfoldable pub better :
      FaceObservation R × R → FaceObservation R → Option R → FaceObservation R × R
  better best face none = best
  better best face (some score) = if n.lt best.1 score then (face, score) else best

  -- `metrics` is needed for a score.
  unfoldable pub score_of : Option (Point R) → Option (FaceMetrics R) → Option R
  unfolding face_score
  score_of prior none = none
  score_of prior (some m) = some (face_score m prior)

  unfoldable pub select_loop :
      Option (Point R) → List (FaceObservation R) → FaceObservation R × R → FaceObservation R
  unfolding better score_of face_metrics
  select_loop prior [] best = best.0
  select_loop prior (face ∷ faces) best =
      select_loop prior faces (better best face (score_of prior (face_metrics face)))

  -- The best score starts at minus infinity, -1 / 0.
  unfoldable pub select_primary_face :
      List (FaceObservation R) → Option (Point R) → Option (FaceObservation R)
  unfolding select_loop
  select_primary_face [] prior = none
  select_primary_face (face ∷ []) prior = some face
  select_primary_face (face ∷ other ∷ faces) prior =
      some (select_loop prior (face ∷ other ∷ faces) (face, n.div (n.ring.neg one) nought))
