-- ===== src/Render/Geometry/Laws.antt =====
-- frontend/src/render/geometry-checks.ts: what the items say of the rules.
use Prim.Native.String.{String, ◌++◌ as append}
use portrait_booth.Base.{
  ◌≡◌, refl, ◌≢◌, ◌⊎◌, inl, inr, Bool, true, false, not, ◌||◌, Option, none, some, List, [], ◌∷◌,
  ◌++◌, same_text, filter, any, Bool-cases, All,
}
use portrait_booth.Number.{Number, ◌⊖◌, number_ring}
use portrait_booth.Template.{MeasurementRule, TemplateRevision}
use portrait_booth.Image.Exif.{Rect, Transform2D}
use portrait_booth.Editor.Transform.{nought}
use portrait_booth.Editor.Overlay.{bound, has_bound}
use portrait_booth.Pose.FaceGeometry.{FaceAnchors}
use portrait_booth.Render.Artifact.{FinalManifest}
use portrait_booth.Render.Geometry.{
  pass, warn, fail, unknown, CheckItem, Measured, to_output, head_height, face_center_offset_x,
  chin_bottom_margin, eye_line_from_bottom, measured_of, crop_item, unmeasured, above, within,
  head_height_status, position_status, head_height_check, face_center_offset_check,
  margin_from_bottom_check, measure_rule, rule_items, geometry_loop, manifest_rect, geometry_checks,
}

-- The metrics that are handled, as the source lists them.
abbrev pub handled_metrics : List String
handled_metrics =
    "head_height"
    ∷ ("face_center_offset_x" ∷ ("chin_bottom_margin" ∷ ("eye_line_from_bottom" ∷ [])))

module _ {ℓ} {R : Type ℓ} where
  abbrev pub is_handled : MeasurementRule R → Bool
  is_handled rule = any (same_text rule.metric) handled_metrics

  -- An item answers a rule: it has the rule's id, it is not a failure, it is unknown where no face was
  -- found, and it never passes a rule on the height of the head.
  pub record IsAnswer (anchors : Option (FaceAnchors R)) (rule : MeasurementRule R) (i : CheckItem)
      : Type ℓ where
    pub named : i.id ≡ append "crop:" rule.id
    pub not_failed : i.status ≢ fail
    pub not_guessed : anchors ≡ none → i.status ≡ unknown
    pub never_passed : same_text rule.metric "head_height" ≡ true → i.status ≢ pass

  -- The items answer the rules, one by one and in their order.
  pub data Answers (anchors : Option (FaceAnchors R))
      : List (MeasurementRule R) → List CheckItem → Type ℓ where
    nothing : Answers anchors [] []
    next :
        {rule : MeasurementRule R} {i : CheckItem} {rules : List (MeasurementRule R)}
        {items : List CheckItem}
        → IsAnswer anchors rule i
        → Answers anchors rules items
        → Answers anchors (rule ∷ rules) (i ∷ items)

-- What a metric is measured as, by the tests on its name.
measured_of-cases :
    (metric : String)
    → ((measured_of metric ≡ none) × (any (same_text metric) handled_metrics ≡ false))
      ⊎ ((k : Measured) × (measured_of metric ≡ some k)
          × (any (same_text metric) handled_metrics ≡ true)
          × ((same_text metric "head_height" ≡ true) → k ≡ head_height))
unfolding measured_of
measured_of-cases metric = elim (Bool-cases (same_text metric "head_height")) [
  | inl e ↦ rw e (inr (head_height, refl, refl, λ _. refl))
  | inr e ↦ rw e (elim (Bool-cases (same_text metric "face_center_offset_x")) [
    | inl e1 ↦ rw e1 (inr (face_center_offset_x, refl, refl, λ h. cc))
    | inr e1 ↦ rw e1 (elim (Bool-cases (same_text metric "chin_bottom_margin")) [
      | inl e2 ↦ rw e2 (inr (chin_bottom_margin, refl, refl, λ h. cc))
      | inr e2 ↦ rw e2 (elim (Bool-cases (same_text metric "eye_line_from_bottom")) [
        | inl e3 ↦ rw e3 (inr (eye_line_from_bottom, refl, refl, λ h. cc))
        | inr e3 ↦ rw e3 (inl (refl, refl))
      ])
    ])
  ])
]

module _ {ℓ} {R : Type ℓ} ⦃n : Number R⦄ where
  head_height_status-cases :
      (min : Option R) (span : R) (max : Option R)
      → (head_height_status min span max ≡ unknown) ⊎ (head_height_status min span max ≡ warn)
  unfolding head_height_status
  head_height_status-cases min span max =
      elim (Bool-cases (not (n.is_finite span) || n.le span nought)) [
        | inl e ↦ rw e (inl refl)
        | inr e ↦ rw e (elim (Bool-cases (has_bound min max)) [
          | inr e1 ↦ rw e1 (inl refl)
          | inl e1 ↦ rw e1 (elim (Bool-cases (above span max)) [
            | inl e2 ↦ rw e2 (inr refl)
            | inr e2 ↦ rw e2 (inl refl)
          ])
        ])
      ]

  position_status-ne_fail :
      (min : Option R) (value : R) (max : Option R) → position_status min value max ≢ fail
  unfolding position_status
  position_status-ne_fail min value max h = elim (Bool-cases (n.is_finite value)) [
    | inr e ↦ cc (let g = rw e at h in g)
    | inl e ↦ elim (Bool-cases (has_bound min max)) [
      | inr e1 ↦ cc
      | inl e1 ↦ elim (Bool-cases (within min value max)) [ inl e2 ↦ cc | inr e2 ↦ cc ]
    ]
  ]

  module _ (rev : TemplateRevision R) (out : Rect R) (anchors : FaceAnchors R)
      (m : Transform2D R) where
    head_height_check-IsAnswer :
        (rule : MeasurementRule R)
        → IsAnswer (some anchors) rule (head_height_check rev out rule anchors m)
    unfolding head_height_check crop_item
    head_height_check-IsAnswer rule =
        let seen =
          head_height_status-cases (bound rule.min rule rev out)
            ((to_output anchors.chin_tip m).y ⊖ (to_output anchors.hairline m).y)
            (bound rule.max rule rev out) in
        record {
          named = refl;
          not_failed = λ h. elim seen [ inl e ↦ cc | inr e ↦ cc ];
          not_guessed = λ h. cc;
          never_passed = λ _ h. elim seen [ inl e ↦ cc | inr e ↦ cc ];
        }

    -- An item by a position, of a rule that is not on the height of the head.
    position-IsAnswer :
        (rule : MeasurementRule R) (value : R)
        → ¬ (same_text rule.metric "head_height" ≡ true)
        → IsAnswer (some anchors) rule (
            crop_item rule
              (position_status (bound rule.min rule rev out) value (bound rule.max rule rev out)))
    unfolding crop_item
    position-IsAnswer rule value other = record {
      named = refl;
      not_failed =
          position_status-ne_fail (bound rule.min rule rev out) value (bound rule.max rule rev out);
      not_guessed = λ h. cc;
      never_passed = λ e. absurd (other e);
    }

    measure_rule-IsAnswer :
        (k : Measured) (rule : MeasurementRule R)
        → ((same_text rule.metric "head_height" ≡ true) → k ≡ head_height)
        → IsAnswer (some anchors) rule (measure_rule rev out k rule anchors m)
    unfolding measure_rule face_center_offset_check margin_from_bottom_check
    measure_rule-IsAnswer head_height rule only = head_height_check-IsAnswer rule
    measure_rule-IsAnswer face_center_offset_x rule only =
        position-IsAnswer rule _ (λ e. let h = only e in cc)
    measure_rule-IsAnswer chin_bottom_margin rule only =
        position-IsAnswer rule _ (λ e. let h = only e in cc)
    measure_rule-IsAnswer eye_line_from_bottom rule only =
        position-IsAnswer rule _ (λ e. let h = only e in cc)

  unmeasured-IsAnswer : (rule : MeasurementRule R) → IsAnswer none rule (unmeasured rule)
  unfolding unmeasured crop_item
  unmeasured-IsAnswer rule = record {
    named = refl;
    not_failed = λ h. cc;
    not_guessed = λ h. refl;
    never_passed = λ e h. cc;
  }

  module _ (rev : TemplateRevision R) (out : Rect R) (m : Transform2D R) where
    rule_items-Answers :
        (k : Measured) (rule : MeasurementRule R) (anchors : Option (FaceAnchors R))
        (rules : List (MeasurementRule R)) (items : List CheckItem)
        → ((same_text rule.metric "head_height" ≡ true) → k ≡ head_height)
        → Answers anchors rules items
        → Answers anchors (rule ∷ rules) (rule_items rev out (some k) rule anchors m ++ items)
    unfolding rule_items
    rule_items-Answers k rule none rules items only rest = next (unmeasured-IsAnswer rule) rest
    rule_items-Answers k rule (some a) rules items only rest =
        next (measure_rule-IsAnswer rev out a m k rule only) rest

    geometry_loop-Answers :
        (rules : List (MeasurementRule R)) (anchors : Option (FaceAnchors R))
        → Answers anchors (filter is_handled rules) (geometry_loop rev out rules anchors m)
    unfolding geometry_loop
    geometry_loop-Answers [] anchors = nothing
    geometry_loop-Answers (rule ∷ rules) anchors = elim (measured_of-cases rule.metric) [
      | inl (e, h) ↦ rw (e, h) (unfold rule_items in geometry_loop-Answers rules anchors)
      | inr (k, e, h, only) ↦
          rw (e, h)
            (rule_items-Answers k rule anchors _ _ only (geometry_loop-Answers rules anchors))
    ]

  -- The items answer, one by one and in their order, the crop rules whose metric is one of the four that
  -- are handled, and no others. An item has the id of its rule, it is not a failure, it is unknown where
  -- no face was found, and it never passes a rule on the height of the head.
  pub geometry_checks-Answers :
      (rev : TemplateRevision R) (manifest : FinalManifest R) (anchors : Option (FaceAnchors R))
      → Answers anchors (filter is_handled rev.crop_rules) (geometry_checks rev manifest anchors)
  unfolding geometry_checks
  geometry_checks-Answers rev manifest anchors =
      geometry_loop-Answers rev (manifest_rect manifest) manifest.matrix rev.crop_rules anchors

  pub Answers-ne_fail :
      (anchors : Option (FaceAnchors R)) (rules : List (MeasurementRule R)) (items : List CheckItem)
      → Answers anchors rules items
      → All (λ i. i.status ≢ fail) items
  Answers-ne_fail anchors _ _ nothing = tt
  Answers-ne_fail anchors _ _ (next a rest) = (a.not_failed, Answers-ne_fail anchors _ _ rest)
