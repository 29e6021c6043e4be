-- ===== src/Create/Switch.antt =====
-- frontend/src/create/create-page.tsx: what navigation keeps, and what a switch of templates leaves.
use portrait_booth.Base.{
  Bool, true, false, ◌&&◌, ◌||◌, Option, some, [], ◌∷◌, ◌≡◌, refl, inl, inr, Bool-cases, ==_iff,
  arith,
}
use portrait_booth.Number.{Number}
use portrait_booth.Template.{TemplateEntry}
use portrait_booth.Image.Exif.{Rect}
use portrait_booth.Editor.OutputSize.{OutputSizeOption, whole, output_size}
use portrait_booth.Editor.Reproject.{EditorState, is_forbidden, same_transform}
use portrait_booth.Editor.Reproject.Laws.{IsCarried, IsKept}
use portrait_booth.Editor.Reproject.Origin.{Pairwise, IsFrom}
use portrait_booth.Create.{
  Step, SourceImage, Receipt, Staged, Page, Event, is_some, shown, replace_source, on_restart,
  reset_all, on_staged, template_changed, enter, on_select, calls_back, offers, act, step_page, run,
  go, with_mode, with_state, staged_stale,
}

module _ {ℓ} {R : Type ℓ} ⦃n : Number R⦄ where
  -- What the user would lose.
  abbrev pub work : Page R → Option SourceImage × Option (EditorState R) × Option (Staged R)
  work p = (p.source, p.editor_state, p.staged)

  -- The callbacks that only change the step, the size or the way to take a photo.
  abbrev pub IsNavigation : Event R → Type 0
  IsNavigation (Event.select entry) = ⊥
  IsNavigation (Event.ready img) = ⊥
  IsNavigation Event.retake = ⊥
  IsNavigation Event.review_back = ⊥
  IsNavigation (Event.editor_done s) = ⊥
  IsNavigation (Event.editor_back s) = ⊥
  IsNavigation (Event.restart answer) = ⊥
  IsNavigation (Event.staged_change src t r) = ⊥
  IsNavigation _ = Unit

  act-work : (e : Event R) (p : Page R) → IsNavigation e → work (act e p) ≡ work p
  unfolding act go with_mode
  act-work Event.keep_template p nav = ground arith
  act-work _ p nav = ground arith

  -- Every callback but those that hand over a photo, an editor state, a template or a receipt, and those
  -- of the buttons that take the photo again, go back from the confirmation or restart, keeps the
  -- photo, the editor state and the receipt.
  pub step_page-work : (e : Event R) (p : Page R) → IsNavigation e → work (step_page e p) ≡ work p
  unfolding step_page
  step_page-work e p nav = elim (Bool-cases (calls_back e || (offers e p.step && shown p p.step))) [
    | inl o ↦ rw o (act-work e p nav)
    | inr o ↦ rw o refl
  ]

  -- The editor's state is carried over to the template of `entry`.
  abbrev pub IsCarriedOver : TemplateEntry R → SourceImage → EditorState R → Page R → Type ℓ
  IsCarriedOver entry src state q =
      let rect : Rect R = record { width = whole src.width; height = whole src.height } in
      let carried = IsCarried entry.revision.capabilities rect (output_size entry.revision) in
      let from = IsFrom entry.revision.capabilities rect (output_size entry.revision) in
      (new : EditorState R) × (q.editor_state ≡ some new)
      × (from state.transform new.transform
          × Pairwise from state.history.undo new.history.undo
          × Pairwise from state.history.redo new.history.redo)
      × carried new.transform
      × IsKept carried state.history new.history

  -- The crop of the old template must not be kept.
  abbrev pub is_voided : Option (TemplateEntry R) → TemplateEntry R → Bool
  is_voided old entry = template_changed old entry && is_forbidden entry.revision.capabilities.crop

  offered :
      (e : Event R) (p : Page R)
      → offers e p.step ≡ true
      → shown p p.step ≡ true
      → step_page e p ≡ act e p
  unfolding step_page
  offered e p o v = elim (Bool-cases (calls_back e)) [
    | inl late ↦ rw late refl
    | inr there ↦ rw (there, o, v) refl
  ]

  at_final : (p : Page R) → p.step ≡ Step.final → shown p Step.final ≡ true → shown p p.step ≡ true
  unfolding shown
  at_final p at visible = rw at visible

  on_restart-true : (p : Page R) → on_restart true p ≡ reset_all p
  unfolding on_restart
  on_restart-true p = elim (Bool-cases (is_some p.staged)) [ inl e ↦ rw e refl | inr e ↦ rw e refl ]

  -- The way from a new start to the confirmation of a photo leaves the notice alone.
  new_photo-notice :
      (entry : TemplateEntry R) (img : SourceImage) (p : Page R)
      → let q =
          run (Event.select entry ∷ Event.choose_upload ∷ Event.ready img ∷ []) (reset_all p) in
        (q.step ≡ Step.review) × (q.source ≡ some img) × (q.template_notice ≡ p.template_notice)
  unfolding run step_page calls_back offers shown act on_select enter go with_mode replace_source
      reset_all is_some
  new_photo-notice entry img p = (refl, refl, refl)

  -- The photo that follows a restart is shown for confirmation with the notice of the session before.
  pub restart-stale_notice :
      (entry : TemplateEntry R) (img : SourceImage) (p : Page R)
      → p.step ≡ Step.final
      → shown p Step.final ≡ true
      → let q =
          run
            (Event.restart true ∷ Event.select entry ∷ Event.choose_upload ∷ Event.ready img ∷ [])
            p in
        (q.step ≡ Step.review) × (q.source ≡ some img) × (q.template_notice ≡ p.template_notice)
  unfolding run act offers
  restart-stale_notice entry img p at visible =
      rw (offered (Event.restart true) p (rw at refl) (at_final p at visible), on_restart-true p)
        (new_photo-notice entry img p)

  -- A staged photo counts as up to date after the size was changed from the confirmation step, where the
  -- transform equals itself.
  pub staged_stale-size :
      (entry : TemplateEntry R) (img : SourceImage) (receipt : Receipt) (state : EditorState R)
      (size : Option OutputSizeOption) (p : Page R)
      → p.step ≡ Step.final
      → p.selected ≡ some entry
      → p.source ≡ some img
      → p.editor_state ≡ some state
      → same_transform state.transform state.transform ≡ true
      → let q =
          run
            (Event.staged_change img state.transform (some receipt)
              ∷ Event.final_back
              ∷ Event.editor_back state
              ∷ Event.size_change size
              ∷ Event.confirm
              ∷ Event.editor_done state
              ∷ [])
            p in
        (q.step ≡ Step.final) × (q.selected_size ≡ size) × (staged_stale q ≡ false)
  unfolding run step_page calls_back offers shown act on_staged go with_state is_some staged_stale
  staged_stale-size entry img receipt state size p at chosen photo edited same =
      rw (at, chosen, photo, edited, same, (==_iff img.ref img.ref).1 refl) (refl, refl, refl)

  -- A photo that was still being loaded when the user restarts is shown by no step: the page is at the
  -- confirmation, without a template.
  late_photo-hidden :
      (img : SourceImage) (p : Page R)
      → p.step ≡ Step.final
      → shown p Step.final ≡ true
      → let q = run (Event.restart true ∷ Event.ready img ∷ []) p in
        (q.step ≡ Step.review) × (q.source ≡ some img) × (shown q q.step ≡ false)
  unfolding run step_page calls_back act go replace_source reset_all shown is_some offers
  late_photo-hidden img p at visible =
      rw (offered (Event.restart true) p (rw at refl) (at_final p at visible), on_restart-true p)
        (hidden img p)
    where
      hidden :
          (img : SourceImage) (p : Page R)
          → let q = step_page (Event.ready img) (reset_all p) in
            (q.step ≡ Step.review) × (q.source ≡ some img) × (shown q q.step ≡ false)
      hidden img p = (refl, refl, refl)
