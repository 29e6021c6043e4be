-- ===== src/Create/Sound/Callbacks.antt =====
-- frontend/src/create/create-page.tsx: what each callback keeps.
use portrait_booth.Base.{
  Bool, true, not, ◌&&◌, ◌||◌, Option, none, some, List, ◌≡◌, refl, inl, inr, Bool-cases, arith,
}
use portrait_booth.Number.{Number}
use portrait_booth.Template.{TemplateEntry}
use portrait_booth.Editor.Transform.{EditTransform}
use portrait_booth.Editor.Reproject.{EditorState, ReprojectNote, is_forbidden}
use portrait_booth.Create.{
  Step, SourceImage, Receipt, Page, initial_page, Event, is_some, shown, replace_source,
  retake_step, on_restart, on_staged, carry_over, switch_template, enter, on_select, calls_back,
  offers, act, go, template_changed, with_mode, with_state,
}

-- `sourceRef` agrees with the state, the step is one that the page can render, and there is no editor
-- state without a photo and no photo without a template.
pub record IsSound {ℓ} {R : Type ℓ} (p : Page R) : Type ℓ where
  pub agrees : p.source_ref ≡ p.source
  pub visible : shown p p.step ≡ true
  pub edited : is_some p.editor_state ≡ true → is_some p.source ≡ true
  pub chosen : is_some p.source ≡ true → is_some p.selected ≡ true

module _ {ℓ} {R : Type ℓ} where
  pub initial_page-IsSound : IsSound {R = R} initial_page
  unfolding shown is_some
  initial_page-IsSound = record { agrees = refl; visible = refl; edited = λ h. h; chosen = λ h. h }

  on_restart-IsSound : (answer : Bool) (p : Page R) → IsSound p → IsSound (on_restart answer p)
  unfolding on_restart replace_source shown is_some
  on_restart-IsSound answer p h = elim (Bool-cases (is_some p.staged && not answer)) [
    | inl e ↦ rw e h
    | inr e ↦ rw e (record { agrees = refl; visible = refl; edited = λ h. h; chosen = λ h. h })
  ]

  on_staged-IsSound :
      (src : SourceImage) (t : EditTransform R) (r : Option Receipt) (p : Page R)
      → IsSound p
      → IsSound (on_staged src t r p)
  unfolding on_staged shown
  on_staged-IsSound src t none p h = record {
    agrees = h.agrees;
    visible = h.visible;
    edited = h.edited;
    chosen = h.chosen;
  }
  on_staged-IsSound src t (some r) p h = record {
    agrees = h.agrees;
    visible = h.visible;
    edited = h.edited;
    chosen = h.chosen;
  }

  -- A photo that comes while a template is selected, whatever the step.
  take_photo-IsSound :
      (img : SourceImage) (p : Page R)
      → is_some p.selected ≡ true
      → IsSound (go Step.review (replace_source (some img) p))
  unfolding go replace_source shown is_some
  take_photo-IsSound img p selected = record {
    agrees = refl;
    visible = rw selected refl;
    edited = λ e. refl;
    chosen = λ e. selected;
  }

module _ {ℓ} {R : Type ℓ} ⦃n : Number R⦄ where
  carry_over-IsSound :
      (r : Option (EditorState R × List ReprojectNote)) (p : Page R)
      → IsSound p
      → is_some p.source ≡ true
      → IsSound (carry_over r p)
  unfolding carry_over go shown is_some
  carry_over-IsSound none p h photo = h
  carry_over-IsSound (some (state, notes)) p h photo = record {
    agrees = h.agrees;
    visible = rw (h.chosen photo, photo) refl;
    edited = λ e. photo;
    chosen = h.chosen;
  }

  -- Every callback but the choice of a template, the photo, the restart and the staging.
  abbrev pub IsPlain : Event R → Type 0
  IsPlain (Event.select entry) = ⊥
  IsPlain (Event.restart answer) = ⊥
  IsPlain (Event.staged_change src t r) = ⊥
  IsPlain (Event.ready img) = ⊥
  IsPlain _ = Unit

  plain_act-IsSound :
      (e : Event R) (p : Page R) (s : Step)
      → IsPlain e
      → offers e s ≡ true
      → p.step ≡ s
      → IsSound p
      → IsSound (act e p)
  unfolding offers act shown is_some go replace_source retake_step with_mode with_state
  plain_act-IsSound _ p s plain o at h = record {
    agrees = ground arith;
    visible = ground (arith, h.visible, h.chosen);
    edited = ground (arith, h.edited);
    chosen = ground (arith, h.visible, h.chosen);
  }

  switch_template-IsSound :
      (changed : Bool) (entry : TemplateEntry R) (src : SourceImage)
      (state : Option (EditorState R)) (p : Page R)
      → IsSound p
      → is_some p.source ≡ true
      → IsSound (switch_template changed entry src state p)
  unfolding switch_template go shown is_some
  switch_template-IsSound changed entry src none p h photo = record {
    agrees = h.agrees;
    visible = rw (h.chosen photo, photo) refl;
    edited = h.edited;
    chosen = h.chosen;
  }
  switch_template-IsSound changed entry src (some state) p h photo =
      elim (Bool-cases (changed && is_forbidden entry.revision.capabilities.crop)) [
        | inl e ↦ rw e (record {
          agrees = h.agrees;
          visible = rw (h.chosen photo, photo) refl;
          edited = λ e. photo;
          chosen = h.chosen;
        })
        | inr e ↦ rw e (carry_over-IsSound _ p h photo)
      ]

  choose-IsSound :
      (entry : TemplateEntry R) (p : Page R)
      → p.step ≡ Step.template
      → IsSound p
      → IsSound (record p { selected = some entry; selected_size = none })
  unfolding shown is_some
  choose-IsSound entry p at h = record {
    agrees = h.agrees;
    visible = rw at refl;
    edited = h.edited;
    chosen = λ e. refl;
  }

  enter-IsSound :
      (changed : Bool) (entry : TemplateEntry R) (state : Option (EditorState R))
      (src : Option SourceImage) (p : Page R)
      → p.source ≡ src
      → is_some p.selected ≡ true
      → IsSound p
      → IsSound (enter changed entry state src p)
  unfolding enter go shown is_some
  enter-IsSound changed entry state none p e chosen h = record {
    agrees = h.agrees;
    visible = chosen;
    edited = h.edited;
    chosen = h.chosen;
  }
  enter-IsSound changed entry state (some src) p e chosen h =
      switch_template-IsSound changed entry src state p h (rw e refl)

  -- A photo is handed over while a template is selected.
  abbrev pub IsTimely : Event R → Page R → Type 0
  IsTimely (Event.ready img) p = is_some p.selected ≡ true
  IsTimely _ p = Unit

  pub act-IsSound :
      (e : Event R) (p : Page R)
      → (calls_back e || offers e p.step) ≡ true
      → IsTimely e p
      → IsSound p
      → IsSound (act e p)
  unfolding act offers on_select calls_back
  act-IsSound (Event.select entry) p o timely h =
      enter-IsSound (template_changed p.selected entry) entry p.editor_state p.source _ refl refl
        (choose-IsSound entry p (select_step p.step o) h)
    where
      select_step : (s : Step) → offers (Event.select entry) s ≡ true → s ≡ Step.template
      select_step s o = ground arith
  act-IsSound (Event.restart answer) p o timely h = on_restart-IsSound answer p h
  act-IsSound (Event.staged_change src t r) p o timely h = on_staged-IsSound src t r p h
  act-IsSound (Event.ready img) p o timely h = take_photo-IsSound img p timely
  act-IsSound e p o timely h = plain_act-IsSound e p p.step tt o refl h
