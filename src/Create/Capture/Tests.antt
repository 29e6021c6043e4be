-- ===== src/Create/Capture/Tests.antt =====
-- frontend/src/create/capture-step.tsx: a photo that is decoded when the step has gone away.
use portrait_booth.Base.{count, ℕ, ◌≡◌, refl, true, false, some, List, [], ◌∷◌}
use portrait_booth.Create.Capture.{
  CaptureEvent, start_camera, camera_opened, played, press_shoot, toggle_countdown, tick,
  still_taken, photo_loaded, rechecked, unmount, start, capture_run,
}
use portrait_booth.Create.Capture.Laws.{Streams, Photos}
use portrait_booth.Create.Capture.Away.{accounted, released}

abbrev session : List CaptureEvent
session =
    start_camera
    ∷ (camera_opened 0 7
        ∷ (played 0
            ∷ (toggle_countdown
                ∷ (press_shoot
                    ∷ (start_camera
                        ∷ (tick ∷ (tick ∷ (tick ∷ (still_taken 0 true ∷ (unmount ∷ []))))))))))

abbrev late : List CaptureEvent
late = photo_loaded 0 (some 4) ∷ (camera_opened 0 8 ∷ (rechecked 0 ∷ []))

left : (capture_run session start).mounted ≡ false
unfolding capture_run
left = refl

accounted_example : Streams 7 (capture_run session start) × Photos 7 (capture_run session start)
accounted_example = accounted session 7

released_example :
    let c = capture_run session start in
    let d = capture_run late c in
    (d.ready ≡ c.ready) × ((s : ℕ) → count s d.opened ≡ count s d.stopped) × ((p : ℕ) → Photos p d)
released_example = released session late left

-- The late photo is disposed of, and the late stream is stopped, after the one before it.
late_photo : (capture_run late (capture_run session start)).disposed ≡ 4 ∷ []
unfolding capture_run
late_photo = refl

late_stream : (capture_run late (capture_run session start)).stopped ≡ 8 ∷ (7 ∷ [])
unfolding capture_run
late_stream = refl
