-- ===== src/Pose/Tracker/Laws.antt =====
-- frontend/src/pose/tracking.ts: when the photo may be taken, and when there is a hint.
use portrait_booth.Base.{
  ◌≡◌, refl, sym, ◌∙◌, ◌⊎◌, inl, inr, Bool, true, false, &&_parts, Option, none, some, List, [],
  ◌∷◌,
}
use portrait_booth.Number.{Number, ◌⊖◌, number_ring}
use portrait_booth.Editor.Transform.{nought}
use portrait_booth.Pose.Angles.{PoseAngles, decompose_face_matrix}
use portrait_booth.Pose.Tracking.{
  PoseThresholds, FaceObservation, GuidanceStatus, GuidanceHint, FaceMetrics, PoseTracker, is_ready,
  select_primary_face,
}
use portrait_booth.Pose.Tracker.{
  or_push, shown_status, new_tracker, position_hints, angle_hints, guidance, stable_for,
  build_state, place, since, track, track_or_keep, lose, follow, update, run_frames,
}
use portrait_booth.Create.{is_some}

or_push-some :
    (hint : GuidanceHint) (parts : List GuidanceHint)
    → (h : GuidanceHint) × (hs : List GuidanceHint) × (or_push hint parts ≡ h ∷ hs)
unfolding or_push
or_push-some hint [] = (hint, [], refl)
or_push-some hint (p ∷ ps) = (p, ps, refl)

-- The statuses whose text is a whole sentence.
abbrev pub is_whole : GuidanceStatus → Bool
is_whole GuidanceStatus.out_of_position = false
is_whole GuidanceStatus.unstable = false
is_whole _ = true

shown_status-ready {ℓ} :
    {A : Type ℓ} (faces : List A) (computed : GuidanceStatus)
    → is_ready (shown_status faces computed) ≡ true
    → is_ready computed ≡ true
unfolding shown_status is_ready
shown_status-ready [] computed h = h
shown_status-ready (f ∷ []) computed h = h
shown_status-ready (f ∷ g ∷ faces) computed h = cc

since-timed {ℓ} :
    {A : Type ℓ} (computed : GuidanceStatus) (t : Option A) (now : A)
    → is_some (since computed t now) ≡ is_ready computed
unfolding since is_some is_ready
since-timed GuidanceStatus.ready none now = refl
since-timed GuidanceStatus.ready (some t) now = refl
since-timed GuidanceStatus.no_face t now = refl
since-timed GuidanceStatus.multi_face t now = refl
since-timed GuidanceStatus.out_of_position t now = refl
since-timed GuidanceStatus.unstable t now = refl

since-step {ℓ} :
    {A : Type ℓ} (computed : GuidanceStatus) (t : Option A) (now : A) (before : Bool)
    → is_some t ≡ before
    → (since computed t now ≡ t)
      ⊎ ((since computed t now ≡ none) ⊎ ((before ≡ false) × (since computed t now ≡ some now)))
unfolding since is_some
since-step GuidanceStatus.ready none now before h = inr (inr (sym h, refl))
since-step GuidanceStatus.ready (some t) now before h = inl refl
since-step _ t now before h = inr (inl refl)

module _ {ℓ} {R : Type ℓ} ⦃n : Number R⦄ where
  -- There is no hint where the status has a whole sentence, and there is one where its text ends in the
  -- hints.
  pub guidance-whole :
      (t : PoseTracker R) (status : GuidanceStatus)
      → (is_whole status ≡ true → guidance t status ≡ [])
        × (is_whole status ≡ false
            → (h : GuidanceHint) × (hs : List GuidanceHint) × (guidance t status ≡ h ∷ hs))
  unfolding guidance position_hints angle_hints
  guidance-whole t GuidanceStatus.out_of_position = (λ e. cc, λ e. or_push-some _ _)
  guidance-whole t GuidanceStatus.unstable = (λ e. cc, λ e. or_push-some _ _)
  guidance-whole t _ = (λ e. refl, λ e. cc)

  -- The timer runs exactly while the judgement is "ready", and only then is that status shown.
  pub record IsTimed (t : PoseTracker R) : Type ℓ where
    pub timed : is_some t.stable_since ≡ is_ready t.last_computed
    pub shown : is_ready t.last_status ≡ true → is_ready t.last_computed ≡ true

  place-kept :
      (m : Option (FaceMetrics R)) (t : PoseTracker R) → (place m t).stable_since ≡ t.stable_since
  unfolding place
  place-kept none t = refl
  place-kept (some m) t = refl

  track_or_keep-IsTimed :
      (t : PoseTracker R) (faces : List (FaceObservation R)) (face : FaceObservation R)
      (angles : Option (PoseAngles R)) (now : R)
      → IsTimed t
      → IsTimed (track_or_keep t faces face angles now)
  unfolding track_or_keep track
  track_or_keep-IsTimed t faces face none now h = h
  track_or_keep-IsTimed t faces face (some a) now h = record {
    timed = since-timed _ t.stable_since now;
    shown = shown_status-ready faces _;
  }

  follow-IsTimed :
      (t : PoseTracker R) (faces : List (FaceObservation R)) (face : Option (FaceObservation R))
      (now : R)
      → IsTimed t
      → IsTimed (follow t faces face now)
  unfolding follow lose is_some is_ready
  follow-IsTimed t faces none now h = record { timed = refl; shown = λ e. e }
  follow-IsTimed t faces (some face) now h =
      track_or_keep-IsTimed t faces face (decompose_face_matrix face.matrix) now h

  pub update-IsTimed :
      (t : PoseTracker R) (faces : List (FaceObservation R)) (now : R)
      → IsTimed t
      → IsTimed (update t faces now).0
  unfolding update
  update-IsTimed t faces now h =
      follow-IsTimed t faces (select_primary_face faces t.last_center) now h

  pub run_frames-IsTimed :
      (frames : List (List (FaceObservation R) × R)) (t : PoseTracker R)
      → IsTimed t
      → IsTimed (run_frames t frames)
  unfolding run_frames
  run_frames-IsTimed [] t h = h
  run_frames-IsTimed ((faces, now) ∷ frames) t h =
      run_frames-IsTimed frames (update t faces now).0 (update-IsTimed t faces now h)

  pub new_tracker-IsTimed :
      (limits : PoseThresholds R) (mirrored : Bool) (alpha : R)
      → IsTimed (new_tracker limits mirrored alpha)
  unfolding new_tracker is_some is_ready
  new_tracker-IsTimed limits mirrored alpha = record { timed = refl; shown = λ e. e }

  -- The timer of a tracker has run for as long as the thresholds ask.
  abbrev pub IsStable : PoseTracker R → R → Type ℓ
  IsStable t now =
      (start : R) × (t.stable_since ≡ some start)
      × (n.le t.thresholds.stable_ms (n.max nought (now ⊖ start)) ≡ true)

  some-timer :
      (t : PoseTracker R) (timer : Option R) (now : R)
      → t.stable_since ≡ timer
      → is_some timer ≡ true
      → n.le t.thresholds.stable_ms (stable_for timer now) ≡ true
      → IsStable t now
  unfolding stable_for is_some
  some-timer t none now e h long = cc
  some-timer t (some start) now e h long = (start, e, long)

  -- A tracker that has followed any frames says that the photo may be taken only when its judgement is
  -- "ready" and has been since a frame that is as long ago as the thresholds ask.
  pub update-shootable :
      (limits : PoseThresholds R) (mirrored : Bool) (alpha : R)
      (frames : List (List (FaceObservation R) × R)) (faces : List (FaceObservation R)) (now : R)
      → let r = update (run_frames (new_tracker limits mirrored alpha) frames) faces now in
        r.1.shootable ≡ true → (is_ready r.0.last_computed ≡ true) × IsStable r.0 now
  unfolding update build_state
  update-shootable limits mirrored alpha frames faces now h =
      let t = run_frames (new_tracker limits mirrored alpha) frames in
      let new = follow t faces (select_primary_face faces t.last_center) now in
      let ok =
        follow-IsTimed t faces (select_primary_face faces t.last_center) now
          (run_frames-IsTimed frames _ (new_tracker-IsTimed limits mirrored alpha)) in
      let (shown, long) = &&_parts _ _ h in
      (ok.shown shown, some-timer new new.stable_since now refl (ok.timed ∙ ok.shown shown) long)

  -- What a frame may do to the timer.
  abbrev pub IsTimerStep : PoseTracker R → R → PoseTracker R → Type ℓ
  IsTimerStep t now new =
      (new.stable_since ≡ t.stable_since)
      ⊎ ((new.stable_since ≡ none)
          ⊎ ((is_ready t.last_computed ≡ false) × (new.stable_since ≡ some now)))

  track_or_keep-timer :
      (t : PoseTracker R) (faces : List (FaceObservation R)) (face : FaceObservation R)
      (angles : Option (PoseAngles R)) (now : R)
      → IsTimed t
      → IsTimerStep t now (track_or_keep t faces face angles now)
  unfolding track_or_keep track
  track_or_keep-timer t faces face none now h = inl refl
  track_or_keep-timer t faces face (some a) now h =
      since-step _ t.stable_since now (is_ready t.last_computed) h.timed

  follow-timer :
      (t : PoseTracker R) (faces : List (FaceObservation R)) (face : Option (FaceObservation R))
      (now : R)
      → IsTimed t
      → IsTimerStep t now (follow t faces face now)
  unfolding follow lose
  follow-timer t faces none now h = inr (inl refl)
  follow-timer t faces (some face) now h =
      track_or_keep-timer t faces face (decompose_face_matrix face.matrix) now h

  -- After any frames, one more frame leaves the timer, stops it, or starts it at the frame's time where
  -- the judgement before was another one than "ready".
  pub update-timer :
      (limits : PoseThresholds R) (mirrored : Bool) (alpha : R)
      (frames : List (List (FaceObservation R) × R)) (faces : List (FaceObservation R)) (now : R)
      → let t = run_frames (new_tracker limits mirrored alpha) frames in
        IsTimerStep t now (update t faces now).0
  unfolding update
  update-timer limits mirrored alpha frames faces now =
      let t = run_frames (new_tracker limits mirrored alpha) frames in
      follow-timer t faces (select_primary_face faces t.last_center) now
        (run_frames-IsTimed frames _ (new_tracker-IsTimed limits mirrored alpha))
