-- ===== src/Render/Checks/Exposure.antt =====
-- frontend/src/render/checks.ts, `exposureCheck`, on what frontend/src/pose/quality.ts finds.
use portrait_booth.Base.{
  ◌≡◌, refl, ◌↔◌, ◌⊎◌, inl, inr, Bool, true, false, Option, none, some, List, filter, Bool-cases,
  if_both, ℕ,
}
use portrait_booth.Number.{Number}
use portrait_booth.Image.Exif.{Rect}
use portrait_booth.Pose.FaceGeometry.{FaceRoi}
use portrait_booth.Pose.Quality.{
  QualityStatus, QualityResult, QualityMetrics, QualityConfig, dark_issue, bright_issue,
  blurry_issue, no_issue, or_no_issue, quality_issues, unreadable, measure, judge_quality,
  analyze_quality,
}
use portrait_booth.Pose.StaticCheck.{is_problem}
use portrait_booth.Render.Geometry.{pass, unknown}
use portrait_booth.Render.Checks.{problems_status, exposure_status}

blurry-is_problem : is_problem blurry_issue ≡ true
unfolding is_problem
blurry-is_problem = refl

no_issue-is_problem : is_problem no_issue ≡ false
unfolding is_problem
no_issue-is_problem = refl

-- The remark that there is no issue stands in none of the issues: a number is written in digits.
abbrev pub Speaks {ℓ} : (R : Type ℓ) → ⦃n : Number R⦄ → Type ℓ
Speaks R = (r : R) → (is_problem (dark_issue r) ≡ true) × (is_problem (bright_issue r) ≡ true)

module _ {ℓ} {R : Type ℓ} ⦃n : Number R⦄ where
  -- No limit of the configuration is crossed.
  pub record IsClear (config : QualityConfig R) (m : QualityMetrics R) : Type 0 where
    pub lit : n.lt config.dark_clip_ratio_limit m.dark_clip_ratio ≡ false
    pub unclipped : n.lt config.bright_clip_ratio_limit m.bright_clip_ratio ≡ false
    pub sharp : n.lt m.sharpness config.sharpness_min ≡ false

  problems-pass_iff :
      (config : QualityConfig R) (m : QualityMetrics R)
      → Speaks R
      → (problems_status (filter is_problem (quality_issues config m)) ≡ pass) ↔ IsClear config m
  unfolding quality_issues or_no_issue problems_status
  problems-pass_iff config m speaks =
      let (dark, _) = speaks m.dark_clip_ratio in
      let (_, bright) = speaks m.bright_clip_ratio in
      elim (Bool-cases (n.lt config.dark_clip_ratio_limit m.dark_clip_ratio)) [
        | inl e ↦ rw (e, dark) (λ h. cc, λ c. absurd (clash c.lit e))
        | inr e ↦
            rw e (elim (Bool-cases (n.lt config.bright_clip_ratio_limit m.bright_clip_ratio)) [
              | inl e1 ↦ rw (e1, bright) (λ h. cc, λ c. absurd (clash c.unclipped e1))
              | inr e1 ↦ rw e1 (elim (Bool-cases (n.lt m.sharpness config.sharpness_min)) [
                | inl e2 ↦ rw (e2, blurry-is_problem) (λ h. cc, λ c. absurd (clash c.sharp e2))
                | inr e2 ↦
                    rw (e2, no_issue-is_problem)
                      (λ h. record { lit = e; unclipped = e1; sharp = e2 }, λ c. refl)
              ])
            ])
      ]
    where
      clash : {b : Bool} → b ≡ false → b ≡ true → ⊥
      clash h k = cc

  -- What the check on the exposure says of a result.
  abbrev pub IsJudged : QualityConfig R → QualityResult R → Type 0
  IsJudged config q =
      ((q.status ≡ QualityStatus.unknown) × (exposure_status q ≡ unknown))
      ⊎ ((q.status ≡ QualityStatus.warn) × ((exposure_status q ≡ pass) ↔ IsClear config q.metrics))

  judge_quality-IsJudged :
      (config : QualityConfig R) (bytes : Option (List ℕ)) (width height : ℕ)
      (roi : Option (FaceRoi R))
      → Speaks R
      → IsJudged config (judge_quality config bytes width height roi)
  unfolding judge_quality unreadable exposure_status
  judge_quality-IsJudged config none width height roi speaks = inl (refl, refl)
  judge_quality-IsJudged config (some bytes) width height roi speaks =
      inr (refl, problems-pass_iff config (measure config bytes width height roi) speaks)

  -- The check on the exposure of a photo that was analyzed: it is unknown where the photo could not be
  -- read, and otherwise it passes exactly where neither the dark nor the bright pixels are too many and
  -- the sharpness is not too low, if the remark that there is no issue stands in none of the issues.
  exposure_status-analyzed :
      (config : QualityConfig R) (drawn : ℕ → ℕ → Option (List ℕ)) (bitmap : Rect R)
      (roi : Option (FaceRoi R))
      → Speaks R
      → IsJudged config (analyze_quality config drawn bitmap roi)
  unfolding analyze_quality unreadable exposure_status
  exposure_status-analyzed config drawn bitmap roi speaks =
      if_both (IsJudged config) _ (judge_quality config (drawn _ _) _ _ roi) _
        (judge_quality-IsJudged config (drawn _ _) _ _ roi speaks) (inl (refl, refl))
