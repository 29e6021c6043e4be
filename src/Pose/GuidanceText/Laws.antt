-- ===== src/Pose/GuidanceText/Laws.antt =====
-- frontend/src/pose/guidance-text.ts on the hints that the tracker gives.
use portrait_booth.Base.{◌≡◌, refl, List, ◌∷◌, if◌then◌else◌, ap}
use portrait_booth.Number.{Number}
use portrait_booth.Pose.Tracking.{GuidanceStatus, GuidanceHint, PoseTracker}
use portrait_booth.Pose.Tracker.{guidance}
use portrait_booth.Pose.Tracker.Laws.{is_whole, guidance-whole}
use portrait_booth.Pose.GuidanceText.{shell_text, sentence, effective, format_guidance}

effective-some :
    (fallback : GuidanceHint) (hs : List GuidanceHint)
    → (h : GuidanceHint) × (t : List GuidanceHint) × (hs ≡ h ∷ t)
    → effective fallback hs ≡ hs
unfolding effective
effective-some fallback hs (h, t, e) = rw e refl

-- The text of the tracker's status and hints is the whole sentence of the status, or its shell with the
-- hints themselves: the fallbacks are not used.
format_guidance-guidance {ℓ} :
    {R : Type ℓ} ⦃n : Number R⦄ (t : PoseTracker R) (status : GuidanceStatus)
    → format_guidance status (guidance t status)
      ≡ (if is_whole status then shell_text status else sentence status (guidance t status))
unfolding format_guidance
format_guidance-guidance t GuidanceStatus.out_of_position =
    ap (sentence GuidanceStatus.out_of_position)
      (effective-some _ _ ((guidance-whole t GuidanceStatus.out_of_position).1 refl))
format_guidance-guidance t GuidanceStatus.unstable =
    ap (sentence GuidanceStatus.unstable)
      (effective-some _ _ ((guidance-whole t GuidanceStatus.unstable).1 refl))
format_guidance-guidance t _ = refl
