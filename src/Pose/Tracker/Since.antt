-- ===== src/Pose/Tracker/Since.antt =====
-- frontend/src/pose/tracking.ts: the frames since which the judgement is "ready".
use portrait_booth.Base.{
  ◌≡◌, refl, sym, subst, ◌∙◌, ap, inl, inr, Bool, true, false, some, List, [], ◌∷◌, ◌++◌,
}
use mathlib.Core.List.{append_assoc, append-nil}
use mathlib.Core.Option.{some-injective}
use portrait_booth.Number.{Number, ◌⊖◌, number_ring}
use portrait_booth.Editor.Transform.{nought}
use portrait_booth.Create.{is_some}
use portrait_booth.Pose.Tracking.{PoseThresholds, FaceObservation, PoseTracker, is_ready}
use portrait_booth.Pose.Tracker.{new_tracker, update, run_frames}
use portrait_booth.Pose.Tracker.Laws.{
  run_frames-IsTimed, new_tracker-IsTimed, update-IsTimed, update-timer, update-shootable,
}

-- The faces of a frame and its time.
abbrev pub Frame {ℓ} : Type ℓ → Type ℓ
Frame R = List (FaceObservation R) × R

module _ {ℓ} {R : Type ℓ} ⦃n : Number R⦄ where
  -- The judgement of a tracker is "ready", and stays so after each frame.
  abbrev pub StaysReady : PoseTracker R → List (Frame R) → Type 0
  StaysReady t [] = is_ready t.last_computed ≡ true
  StaysReady t (f ∷ fs) = (is_ready t.last_computed ≡ true) × StaysReady (update t f.0 f.1).0 fs

  run_frames-append :
      (t : PoseTracker R) (fs : List (Frame R)) (f : Frame R)
      → run_frames t (fs ++ (f ∷ [])) ≡ (update (run_frames t fs) f.0 f.1).0
  unfolding run_frames
  run_frames-append t [] f = refl
  run_frames-append t (g ∷ fs) f = run_frames-append (update t g.0 g.1).0 fs f

  run_frames-split :
      (t : PoseTracker R) (before : List (Frame R)) (faces : List (FaceObservation R)) (now : R)
      (after : List (Frame R))
      → run_frames t (before ++ ((faces, now) ∷ after))
        ≡ run_frames (update (run_frames t before) faces now).0 after
  unfolding run_frames
  run_frames-split t [] faces now after = refl
  run_frames-split t (g ∷ before) faces now after =
      run_frames-split (update t g.0 g.1).0 before faces now after

  StaysReady-append :
      (t : PoseTracker R) (fs : List (Frame R)) (f : Frame R)
      → StaysReady t fs
      → is_ready (update (run_frames t fs) f.0 f.1).0.last_computed ≡ true
      → StaysReady t (fs ++ (f ∷ []))
  unfolding run_frames
  StaysReady-append t [] f h ready = (h, ready)
  StaysReady-append t (g ∷ fs) f (first, h) ready =
      (first, StaysReady-append (update t g.0 g.1).0 fs f h ready)

  module _ (t : PoseTracker R) where
    -- Among the frames that the tracker has followed is one at the time `start` before which its judgement
    -- was not "ready", and from which on it is.
    abbrev pub ReadySince : List (Frame R) → R → Type ℓ
    ReadySince frames start =
        (before : List (Frame R)) × (faces : List (FaceObservation R)) × (after : List (Frame R))
        × (frames ≡ before ++ ((faces, start) ∷ after))
        × (is_ready (run_frames t before).last_computed ≡ false)
        × StaysReady (update (run_frames t before) faces start).0 after

    abbrev HasStart : List (Frame R) → Type ℓ
    HasStart frames =
        (start : R) → (run_frames t frames).stable_since ≡ some start → ReadySince frames start

    goes_on :
        (frames : List (Frame R)) (f : Frame R) (start : R)
        → ReadySince frames start
        → is_ready (update (run_frames t frames) f.0 f.1).0.last_computed ≡ true
        → ReadySince (frames ++ (f ∷ [])) start
    goes_on frames f start (before, faces, after, e, idle, stays) ready = (
      before,
      faces,
      after ++ (f ∷ []),
      ap (λ l. l ++ (f ∷ [])) e ∙ append_assoc before ((faces, start) ∷ after) (f ∷ []),
      idle,
      StaysReady-append (update (run_frames t before) faces start).0 after f stays (
          subst (λ u. is_ready (update u f.0 f.1).0.last_computed ≡ true)
            (ap (run_frames t) e ∙ run_frames-split t before faces start after) ready),
    )

  module _ (limits : PoseThresholds R) (mirrored : Bool) (alpha : R) where
    abbrev pub tracker : PoseTracker R
    tracker = new_tracker limits mirrored alpha

    -- The timer of a tracker runs since the frame from which on its judgement is "ready".
    one_more :
        (frames : List (Frame R)) (f : Frame R)
        → HasStart tracker frames
        → HasStart tracker (frames ++ (f ∷ []))
    unfolding is_some
    one_more frames f h start e =
        let t = run_frames tracker frames in
        let new = (update t f.0 f.1).0 in
        let runs : new.stable_since ≡ some start =
          subst (λ u. u.stable_since ≡ some start) (run_frames-append tracker frames f) e in
        let timed =
          (update-IsTimed t f.0 f.1 (
            run_frames-IsTimed frames tracker (new_tracker-IsTimed limits mirrored alpha))).timed in
        let ready : is_ready new.last_computed ≡ true = sym timed ∙ ap is_some runs in
        elim (update-timer limits mirrored alpha frames f.0 f.1) [
          | inl kept ↦ goes_on tracker frames f start (h start (sym kept ∙ runs)) ready
          | inr (inl stopped) ↦ cc
          | inr (inr (idle, fresh)) ↦
              let now : f.1 ≡ start = some-injective _ _ (sym fresh ∙ runs) in
              subst (ReadySince tracker (frames ++ (f ∷ []))) now
                (frames, f.0, [], refl, idle, ready)
        ]

    all_frames :
        (past rest : List (Frame R)) → HasStart tracker past → HasStart tracker (past ++ rest)
    all_frames past [] h = subst (HasStart tracker) (sym (append-nil past)) h
    all_frames past (f ∷ rest) h =
        subst (HasStart tracker) (append_assoc past (f ∷ []) rest)
          (all_frames (past ++ (f ∷ [])) rest (one_more past f h))

    no_frames : HasStart tracker []
    unfolding run_frames new_tracker
    no_frames start e = cc

    -- A tracker that has followed any frames says that the photo may be taken only where its judgement is
    -- "ready", and has been after each frame from one on that is as long ago as the thresholds ask; after the
    -- frames before that one it was not.
    pub update-shootable_since :
        (frames : List (Frame R)) (faces : List (FaceObservation R)) (now : R)
        → let r = update (run_frames tracker frames) faces now in
          r.1.shootable ≡ true
          → (is_ready r.0.last_computed ≡ true)
            × ((start : R) × ReadySince tracker (frames ++ ((faces, now) ∷ [])) start
                × (n.le r.0.thresholds.stable_ms (n.max nought (now ⊖ start)) ≡ true))
    update-shootable_since frames faces now h =
        let (ready, (start, runs, long)) =
          update-shootable limits mirrored alpha frames faces now h in
        let since =
          all_frames [] (frames ++ ((faces, now) ∷ [])) no_frames start
            (ap (λ u. u.stable_since) (run_frames-append tracker frames (faces, now)) ∙ runs) in
        (ready, (start, since, long))
