-- ===== src/Pose/Tracker.antt =====
-- frontend/src/pose/tracking.ts: `update` of the pose tracker, with the state that it shows and the hints.
pub mod Laws
pub mod Since
use portrait_booth.Base.{
  ℕ, suc, Bool, true, false, not, ◌&&◌, ◌||◌, Option, none, some, List, [], ◌∷◌, ◌++◌,
  if◌then◌else◌,
}
use portrait_booth.Number.{Number, ◌⊕◌, ◌⊖◌, ◌⊗◌, number_ring}
use portrait_booth.Editor.Transform.{nought, one}
use portrait_booth.Pose.Angles.{PoseAngles, decompose_face_matrix}
use portrait_booth.Pose.Tracking.{
  PoseThresholds, Point, FaceObservation, GuidanceStatus, GuidanceHint, PoseState, FaceMetrics,
  PoseTracker, is_ready, half, face_metrics, select_primary_face, move_closer, move_farther,
  move_own_left, move_own_right, move_up, move_down, adjust_position, turn_own_left, turn_own_right,
  raise_head, lower_head, level_own_left, level_own_right, hold_still,
}

-- `parts.push(...)` when `parts` is still empty.
unfoldable pub or_push : GuidanceHint → List GuidanceHint → List GuidanceHint
or_push hint [] = hint ∷ []
or_push hint (part ∷ parts) = part ∷ parts

unfoldable pub status_of : Bool → Bool → GuidanceStatus
status_of in_position within_angles =
    if not in_position
    then GuidanceStatus.out_of_position
    else if not within_angles
    then GuidanceStatus.unstable
    else GuidanceStatus.ready

-- More than one face is shown as such.
unfoldable pub shown_status {ℓ} : {A : Type ℓ} → List A → GuidanceStatus → GuidanceStatus
shown_status (f ∷ g ∷ faces) computed = GuidanceStatus.multi_face
shown_status _ computed = computed

-- `this.stableSince ??= nowMs` when ready, and none otherwise.
unfoldable pub since {ℓ} : {A : Type ℓ} → GuidanceStatus → Option A → A → Option A
since GuidanceStatus.ready none now = some now
since GuidanceStatus.ready (some t) now = some t
since _ t now = none

module _ {ℓ} {R : Type ℓ} ⦃n : Number R⦄ where
  abbrev pub exit_factor : R
  exit_factor = n.lit 13 1

  abbrev pub origin : Point R
  origin = record { x = nought; y = nought }

  unfoldable pub new_tracker : PoseThresholds R → Bool → R → PoseTracker R
  new_tracker thresholds mirrored alpha = record {
    thresholds = thresholds;
    mirrored = mirrored;
    alpha = alpha;
    smoothed = none;
    last_status = GuidanceStatus.no_face;
    last_computed = GuidanceStatus.no_face;
    stable_since = none;
    last_angles = record { yaw = nought; pitch = nought; roll = nought };
    last_face_width = nought;
    last_face_offset = origin;
    last_center = none;
  }

  unfoldable pub distance_hint : PoseTracker R → List GuidanceHint
  distance_hint t =
      if n.lt t.last_face_width t.thresholds.face_width_min
      then move_closer ∷ []
      else if n.lt t.thresholds.face_width_max t.last_face_width
      then move_farther ∷ []
      else []

  -- The hint for a value that is over its limit in either direction.
  unfoldable pub side_hint : R → R → GuidanceHint → GuidanceHint → List GuidanceHint
  side_hint v limit above below =
      if n.lt limit (n.abs v) then (if n.lt nought v then above else below) ∷ [] else []

  unfoldable pub position_hints : PoseTracker R → List GuidanceHint
  unfolding or_push distance_hint side_hint
  position_hints t =
      let limit = t.thresholds.face_offset_max in
      or_push adjust_position (
        distance_hint t
        ++ (side_hint t.last_face_offset.x limit move_own_right move_own_left
            ++ side_hint t.last_face_offset.y limit move_up move_down))

  unfoldable pub angle_hints : PoseTracker R → List GuidanceHint
  unfolding or_push side_hint
  angle_hints t = or_push hold_still (
      side_hint t.last_angles.yaw t.thresholds.yaw_deg turn_own_right turn_own_left
      ++ (side_hint t.last_angles.pitch t.thresholds.pitch_deg raise_head lower_head
          ++ side_hint t.last_angles.roll t.thresholds.roll_deg level_own_right level_own_left))

  unfoldable pub guidance : PoseTracker R → GuidanceStatus → List GuidanceHint
  unfolding position_hints angle_hints
  guidance t GuidanceStatus.out_of_position = position_hints t
  guidance t GuidanceStatus.unstable = angle_hints t
  guidance t _ = []

  unfoldable pub stable_for : Option R → R → R
  stable_for none now = nought
  stable_for (some since) now = n.max nought (now ⊖ since)

  unfoldable pub build_state : PoseTracker R → GuidanceStatus → R → PoseState R
  unfolding stable_for guidance is_ready
  build_state t status now =
      let stable_ms = stable_for t.stable_since now in
      record {
        status = status;
        angles = t.last_angles;
        face_width_ratio = t.last_face_width;
        face_offset = t.last_face_offset;
        stable_ms = stable_ms;
        shootable = is_ready status && n.le t.thresholds.stable_ms stable_ms;
        guidance_hints = guidance t status;
      }

  unfoldable pub smooth : R → Option (PoseAngles R) → PoseAngles R → PoseAngles R
  smooth alpha none a = a
  smooth alpha (some s) a = record {
    yaw = s.yaw ⊗ (one ⊖ alpha) ⊕ a.yaw ⊗ alpha;
    pitch = s.pitch ⊗ (one ⊖ alpha) ⊕ a.pitch ⊗ alpha;
    roll = s.roll ⊗ (one ⊖ alpha) ⊕ a.roll ⊗ alpha;
  }

  unfoldable pub in_position : PoseThresholds R → R → Point R → R → Bool
  in_position limits width offset factor =
      n.le (n.div limits.face_width_min factor) width
      && n.le width (limits.face_width_max ⊗ factor)
      && n.le (n.abs offset.x) (limits.face_offset_max ⊗ factor)
      && n.le (n.abs offset.y) (limits.face_offset_max ⊗ factor)

  unfoldable pub within_angles : PoseThresholds R → PoseAngles R → R → Bool
  within_angles limits a factor =
      n.le (n.abs a.yaw) (limits.yaw_deg ⊗ factor)
      && n.le (n.abs a.pitch) (limits.pitch_deg ⊗ factor)
      && n.le (n.abs a.roll) (limits.roll_deg ⊗ factor)

  -- What the metrics of the face leave in the tracker.
  unfoldable pub place : Option (FaceMetrics R) → PoseTracker R → PoseTracker R
  place none t = record t {
    last_face_width = nought;
    last_center = none;
    last_face_offset = origin;
  }
  place (some m) t = record t {
    last_face_width = m.width;
    last_center = some m.center;
    last_face_offset = record { x = m.center.x ⊖ half; y = m.center.y ⊖ half };
  }

  -- The judgement of a placed face, by the thresholds that are wider once ready.
  unfoldable pub judge : PoseTracker R → PoseAngles R → GuidanceStatus
  unfolding is_ready in_position within_angles status_of
  judge t a =
      let factor = if is_ready t.last_computed then exit_factor else one in
      status_of (in_position t.thresholds t.last_face_width t.last_face_offset factor)
        (within_angles t.thresholds a factor)

  -- The tracker after a frame with usable angles.
  unfoldable pub track :
      PoseTracker R
      → List (FaceObservation R)
      → FaceObservation R
      → PoseAngles R
      → R
      → PoseTracker R
  unfolding smooth place judge since shown_status face_metrics
  track t faces face a now =
      let smoothed = smooth t.alpha t.smoothed a in
      let placed =
        place (face_metrics face) (record t { smoothed = some smoothed; last_angles = smoothed }) in
      let computed = judge placed smoothed in
      record placed {
        stable_since = since computed t.stable_since now;
        last_computed = computed;
        last_status = shown_status faces computed;
      }

  unfoldable pub lose : PoseTracker R → PoseTracker R
  lose t = record t {
    last_status = GuidanceStatus.no_face;
    last_computed = GuidanceStatus.no_face;
    stable_since = none;
    smoothed = none;
    last_center = none;
  }

  -- The tracker after a frame with a primary face, by its angles: without them the state is kept.
  unfoldable pub track_or_keep :
      PoseTracker R
      → List (FaceObservation R)
      → FaceObservation R
      → Option (PoseAngles R)
      → R
      → PoseTracker R
  unfolding track
  track_or_keep t faces face none now = t
  track_or_keep t faces face (some a) now = track t faces face a now

  -- The tracker after a frame whose primary face is given.
  unfoldable pub follow :
      PoseTracker R → List (FaceObservation R) → Option (FaceObservation R) → R → PoseTracker R
  unfolding lose track_or_keep decompose_face_matrix
  follow t faces none now = lose t
  follow t faces (some face) now =
      track_or_keep t faces face (decompose_face_matrix face.matrix) now

  -- In all cases the answer is built from the status that the tracker has last.
  unfoldable pub update : PoseTracker R → List (FaceObservation R) → R → PoseTracker R × PoseState R
  unfolding follow build_state select_primary_face
  update t faces now =
      let new = follow t faces (select_primary_face faces t.last_center) now in
      (new, build_state new new.last_status now)

  -- The tracker after frames, each with its time.
  unfoldable pub run_frames : PoseTracker R → List (List (FaceObservation R) × R) → PoseTracker R
  unfolding update
  run_frames t [] = t
  run_frames t ((faces, now) ∷ frames) = run_frames (update t faces now).0 frames
