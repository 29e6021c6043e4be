-- ===== src/Create/Sound.antt =====
-- frontend/src/create/create-page.tsx: the page has what its step shows, or it shows nothing.
pub mod Callbacks
use portrait_booth.Base.{
  Bool, true, false, not, ◌&&◌, ◌||◌, if_cases, Option, none, some, List, [], ◌∷◌, ◌≡◌, refl, sym,
  subst, ◌⊎◌, inl, inr, Option-cases, Bool-cases, &&_parts, arith,
}
use portrait_booth.Number.{Number}
use portrait_booth.Template.{TemplateEntry}
use portrait_booth.Editor.Transform.{EditTransform}
use portrait_booth.Editor.Reproject.{EditorState, ReprojectNote, is_forbidden}
use portrait_booth.Create.{
  Step, SourceImage, Receipt, Page, initial_page, Event, is_some, shown, replace_source,
  retake_step, on_restart, on_staged, carry_over, switch_template, enter, on_select, calls_back,
  reset_all, offers, act, step_page, run, go, template_changed, with_mode, with_state,
}
use portrait_booth.Create.Sound.Callbacks.{IsSound, IsTimely, initial_page-IsSound, act-IsSound}

allowed : (late there visible : Bool) → (late || (there && visible)) ≡ true → (late || there) ≡ true
allowed true there visible h = refl
allowed false true visible h = refl
allowed false false visible h = h

module _ {ℓ} {R : Type ℓ} ⦃n : Number R⦄ where
  abbrev pub AreTimely : List (Event R) → Page R → Type 0
  AreTimely [] p = Unit
  AreTimely (e ∷ es) p = IsTimely e p × AreTimely es (step_page e p)

  step_page-IsSound :
      (e : Event R) (p : Page R) → IsTimely e p → IsSound p → IsSound (step_page e p)
  unfolding step_page
  step_page-IsSound e p timely h =
      if_cases IsSound (calls_back e || (offers e p.step && shown p p.step)) _ _
        (λ o.
          act-IsSound e p (allowed (calls_back e) (offers e p.step) (shown p p.step) o) timely h)
        (λ o. h)

  -- The page has a photo and no template, and shows nothing.
  pub record IsStranded (p : Page R) : Type ℓ where
    pub at_review : p.step ≡ Step.review
    pub unchosen : p.selected ≡ none
    pub held : is_some p.source ≡ true
    pub agrees : p.source_ref ≡ p.source

  take_photo-IsStranded :
      (img : SourceImage) (p : Page R)
      → p.selected ≡ none
      → IsStranded (step_page (Event.ready img) p)
  unfolding step_page calls_back act go replace_source is_some
  take_photo-IsStranded img p unchosen = record {
    at_review = refl;
    unchosen = unchosen;
    held = refl;
    agrees = refl;
  }

  -- It shows no control that could change this.
  quiet : (e : Event R) (p : Page R) → calls_back e ≡ false → IsStranded p → step_page e p ≡ p
  unfolding step_page shown is_some
  quiet e p late h = elim (Bool-cases (offers e Step.review)) [
    | inl there ↦ rw (late, h.at_review, h.unchosen, there) refl
    | inr away ↦ rw (late, h.at_review, h.unchosen, away) refl
  ]

  step_page-IsStranded : (e : Event R) (p : Page R) → IsStranded p → IsStranded (step_page e p)
  unfolding step_page calls_back act on_staged
  step_page-IsStranded (Event.ready img) p h = take_photo-IsStranded img p h.unchosen
  step_page-IsStranded (Event.staged_change src t none) p h = record {
    at_review = h.at_review;
    unchosen = h.unchosen;
    held = h.held;
    agrees = h.agrees;
  }
  step_page-IsStranded (Event.staged_change src t (some r)) p h = record {
    at_review = h.at_review;
    unchosen = h.unchosen;
    held = h.held;
    agrees = h.agrees;
  }
  step_page-IsStranded e p h = subst IsStranded (sym (quiet e p refl h)) h

  run-IsStranded : (es : List (Event R)) (p : Page R) → IsStranded p → IsStranded (run es p)
  unfolding run
  run-IsStranded [] p h = h
  run-IsStranded (e ∷ es) p h = run-IsStranded es (step_page e p) (step_page-IsStranded e p h)

  IsTimely-cases :
      (e : Event R) (p : Page R)
      → IsTimely e p ⊎ ((img : SourceImage) × (e ≡ Event.ready img) × (p.selected ≡ none))
  unfolding is_some
  IsTimely-cases (Event.ready img) p = elim (Option-cases p.selected) [
    | inl e ↦ inr (img, refl, e)
    | inr (entry, e) ↦ inl (rw e refl)
  ]
  IsTimely-cases _ p = inl tt

  run-cases :
      (es : List (Event R)) (p : Page R)
      → IsSound p
      → IsSound (run es p) ⊎ (IsStranded (run es p) × (¬ AreTimely es p))
  unfolding run is_some
  run-cases [] p h = inl h
  run-cases (e ∷ es) p h = elim (IsTimely-cases e p) [
    | inl timely ↦ elim (run-cases es (step_page e p) (step_page-IsSound e p timely h)) [
      | inl sound ↦ inl sound
      | inr (stranded, late) ↦ inr (stranded, λ t. late t.1)
    ]
    | inr (img, here', unchosen) ↦ inr (
      run-IsStranded es (step_page e p) (
          subst (λ e. IsStranded (step_page e p)) (sym here')
            (take_photo-IsStranded img p unchosen)),
      λ t.
          let timely : is_some p.selected ≡ true = subst (λ e. IsTimely e p) here' t.0 in
          let absent : false ≡ true = subst (λ o. is_some o ≡ true) unchosen timely in cc,
    )
  ]

  -- After any events from the start, the current step has all it needs to be shown, an editor state
  -- belongs to a photo, a photo to a template, and `sourceRef` is the photo of the state. Or else a photo was
  -- handed over while no template was selected, and the page is at the confirmation with a photo and no
  -- template, so that it shows no step.
  pub run_initial-IsSound :
      (es : List (Event R))
      → IsSound (run es initial_page)
        ⊎ (IsStranded (run es initial_page) × (¬ AreTimely es initial_page))
  run_initial-IsSound es = run-cases es initial_page initial_page-IsSound
