-- ===== src/Render/Checks/Laws.antt =====
-- frontend/src/render/checks.ts on the pictures that frontend/src/render/final-artifact.ts makes.
use Prim.Native.String.{String}
use portrait_booth.Base.{
  ◌≡◌, refl, ◌≢◌, ◌⊎◌, inl, inr, Bool, true, false, Option, none, some, List, [], ◌∷◌, ◌++◌, All,
  All-append, All-map, if_both, filter,
}
use portrait_booth.Number.{Number}
use portrait_booth.Template.{CaptureRule, TemplatePublication, TemplateRevision}
use portrait_booth.Pose.Tracking.{PoseState, is_ready}
use portrait_booth.Pose.Quality.{QualityStatus, QualityResult}
use portrait_booth.Pose.Quality.Pixels.{BackgroundMetrics}
use portrait_booth.Image.Exif.{Transform2D}
use portrait_booth.Pose.StaticCheck.{StaticCheckResult, is_problem}
use portrait_booth.Render.Geometry.{CheckStatus, pass, warn, fail, unknown, manual, CheckItem}
use portrait_booth.Render.Checks.{
  pass_or_fail, item, is_active, publication_check, is_manual, capture_rule_check,
  capture_rule_checks, pose_status, pose_check, problems_status, exposure_status, exposure_check,
  is_uneven, background_status, background_check, resolution_status,
}

-- No item is a failure.
abbrev pub NoFail : List CheckItem → Type 0
NoFail items = All (λ i. i.status ≢ fail) items

pub NoFail-append : (xs ys : List CheckItem) → NoFail xs → NoFail ys → NoFail (xs ++ ys)
NoFail-append xs ys h k = All-append (λ (i : CheckItem). i.status ≢ fail) xs ys h k

pub item-NoFail :
    (id label : String) (status : CheckStatus) → status ≢ fail → NoFail (item id label status)
unfolding item
item-NoFail id label status h = (h, tt)

pub pass_or_fail-ne_fail : (b : Bool) → b ≡ true → pass_or_fail b ≢ fail
unfolding pass_or_fail
pass_or_fail-ne_fail true h = λ e. cc
pass_or_fail-ne_fail false h = cc

-- The statuses that are no failure.
abbrev pub NotFail : CheckStatus → Type 0
NotFail s = s ≢ fail

-- The checks that only warn.
capture_rule_check-ne_fail {ℓ} :
    {R : Type ℓ} (rule : CaptureRule R) → NotFail (capture_rule_check rule).status
unfolding capture_rule_check
capture_rule_check-ne_fail rule =
    if_both NotFail (is_manual rule.evaluation) manual unknown (λ h. cc) (λ h. cc)

pub capture_rule_checks-NoFail {ℓ} :
    {R : Type ℓ} (rev : TemplateRevision R) → NoFail (capture_rule_checks rev)
unfolding capture_rule_checks
capture_rule_checks-NoFail rev =
    All-map (λ (i : CheckItem). i.status ≢ fail) capture_rule_check rev.capture_rules
      capture_rule_check-ne_fail

pub publication_check-NoFail : (p : TemplatePublication) → NoFail (publication_check p)
unfolding publication_check item
publication_check-NoFail p = if_both NoFail (is_active p.status) [] _ tt (λ h. cc, tt)

problems_status-ne_fail : (xs : List String) → NotFail (problems_status xs)
unfolding problems_status
problems_status-ne_fail [] h = cc
problems_status-ne_fail (x ∷ xs) h = cc

module _ {ℓ} {R : Type ℓ} where
  pose_status-ne_fail : (pose : Option (PoseState R)) → NotFail (pose_status pose)
  unfolding pose_status
  pose_status-ne_fail none = λ h. cc
  pose_status-ne_fail (some pose) =
      if_both NotFail (is_ready pose.status) pass warn (λ h. cc) (λ h. cc)

  pub pose_check-NoFail : (r : Option (StaticCheckResult R)) → NoFail (pose_check r)
  unfolding pose_check item
  pose_check-NoFail none = (λ h. cc, tt)
  pose_check-NoFail (some r) =
      (if_both NotFail r.pose_available _ unknown (pose_status-ne_fail r.pose) (λ h. cc), tt)

  exposure_status-ne_fail : (q : QualityResult R) → NotFail (exposure_status q)
  unfolding exposure_status
  exposure_status-ne_fail q = elim (status-cases q.status) [
    | inl e ↦ rw e (λ h. cc)
    | inr e ↦ rw e (problems_status-ne_fail (filter is_problem q.issues))
  ]
    where
      status-cases : (s : QualityStatus) → (s ≡ QualityStatus.unknown) ⊎ (s ≡ QualityStatus.warn)
      status-cases QualityStatus.unknown = inl refl
      status-cases QualityStatus.warn = inr refl

  pub exposure_check-NoFail : (r : Option (StaticCheckResult R)) → NoFail (exposure_check r)
  unfolding exposure_check item
  exposure_check-NoFail none = (λ h. cc, tt)
  exposure_check-NoFail (some r) = (exposure_status-ne_fail r.quality, tt)

module _ {ℓ} {R : Type ℓ} ⦃n : Number R⦄ where
  background_status-ne_fail : (bg : Option (BackgroundMetrics R)) → NotFail (background_status bg)
  unfolding background_status
  background_status-ne_fail none = λ h. cc
  background_status-ne_fail (some bg) =
      if_both NotFail (is_uneven bg) warn unknown (λ h. cc) (λ h. cc)

  pub background_check-NoFail : (r : Option (StaticCheckResult R)) → NoFail (background_check r)
  unfolding background_check item
  background_check-NoFail none = (λ h. cc, tt)
  background_check-NoFail (some r) = (background_status-ne_fail r.quality.metrics.background, tt)

  pub resolution_status-ne_fail : (m : Transform2D R) → NotFail (resolution_status m)
  unfolding resolution_status
  resolution_status-ne_fail m = if_both NotFail _ warn pass (λ h. cc) (λ h. cc)
