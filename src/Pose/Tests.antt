-- ===== src/Pose/Tests.antt =====
-- frontend/src/pose/tracking.ts on whole numbers: a face in the middle for two frames, 800 ms apart.
use portrait_booth.Base.{ℕ, zero, suc, ◌≡◌, refl, true, false, List, [], ◌∷◌, ◌++◌}
use portrait_booth.Base.Int.{ℤ, pos, ◌+ℤ◌, ◌-ℤ◌, ◌*ℤ◌}
use portrait_booth.Number.{◌⊖◌, number_ring}
use portrait_booth.Editor.Transform.{nought}
use portrait_booth.Number.Whole.{whole_numbers}
use portrait_booth.Pose.Tracking.{PoseThresholds, Point, FaceObservation, PoseTracker, is_ready}
use portrait_booth.Pose.Tracker.{new_tracker, update, run_frames}
use portrait_booth.Pose.Tracker.Laws.{IsTimerStep, update-timer}
use portrait_booth.Pose.Tracker.Since.{ReadySince, update-shootable_since}

abbrev limits : PoseThresholds ℤ
limits = record {
  yaw_deg = pos 7;
  pitch_deg = pos 7;
  roll_deg = pos 5;
  stable_ms = pos 800;
  face_width_min = pos 0;
  face_width_max = pos 6;
  face_offset_max = pos 2;
}

abbrev repeat : ℕ → List (Point ℤ)
repeat zero = []
repeat (suc k) = (record { x = pos 1; y = pos 1 }) ∷ repeat k

abbrev face : FaceObservation ℤ
face = record {
  face_index = 0;
  landmarks = repeat 264;
  matrix =
      pos 1
      ∷ pos 0
      ∷ pos 0
      ∷ pos 0
      ∷ pos 0
      ∷ pos 1
      ∷ pos 0
      ∷ pos 0
      ∷ pos 0
      ∷ pos 0
      ∷ pos 1
      ∷ pos 0
      ∷ pos 0
      ∷ pos 0
      ∷ pos 0
      ∷ pos 1
      ∷ [];
}

abbrev frames : List (List (FaceObservation ℤ) × ℤ)
frames = (face ∷ [], pos 100) ∷ []

abbrev tracker : PoseTracker ℤ
tracker = new_tracker limits false (pos 1)

shootable : (update (run_frames tracker frames) (face ∷ []) (pos 900)).1.shootable ≡ true
unfolding update run_frames new_tracker ◌+ℤ◌ ◌-ℤ◌ ◌*ℤ◌
shootable = refl

update-shootable_since_example :
    let r = update (run_frames tracker frames) (face ∷ []) (pos 900) in
    (is_ready r.0.last_computed ≡ true)
    × ((start : ℤ) × ReadySince tracker (frames ++ ((face ∷ [], pos 900) ∷ [])) start
        × (whole_numbers.le r.0.thresholds.stable_ms (whole_numbers.max nought (pos 900 ⊖ start))
            ≡ true))
update-shootable_since_example =
    update-shootable_since limits false (pos 1) frames (face ∷ []) (pos 900) shootable

update-timer_example :
    IsTimerStep
      (run_frames tracker frames)
      (pos 900)
      (update (run_frames tracker frames) (face ∷ []) (pos 900)).0
update-timer_example = update-timer limits false (pos 1) frames (face ∷ []) (pos 900)
