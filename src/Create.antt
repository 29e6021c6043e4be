-- ===== src/Create.antt =====
-- frontend/src/create/create-page.tsx: the state of the creation flow and the callbacks of its steps.
-- A photo has the identity of its object, `ref`; `disposed` lists the photos that `dispose` was called
-- on, the last first.
pub mod Sound
pub mod Photos
pub mod Switch
pub mod Capture
mod Tests
use Prim.Native.String.{String}
use portrait_booth.Base.{
  ℕ, Bool, true, false, not, ◌&&◌, ◌||◌, Option, none, some, List, [], ◌∷◌, if◌then◌else◌, ◌==◌,
  any, find_index, same_text,
}
use portrait_booth.Number.{Number}
use portrait_booth.Template.{TemplateEntry}
use portrait_booth.Image.Exif.{Rect}
use portrait_booth.Editor.OutputSize.{OutputSizeOption, whole}
use portrait_booth.Editor.Transform.{EditTransform}
use portrait_booth.Editor.Reproject.{
  EditorState, ReprojectNote, is_forbidden, same_transform, reproject_editor_state,
}

pub data Step : Type 0 where
  template source capture upload review edit final : Step

pub data SourceMode : Type 0 where
  upload camera : SourceMode

-- The index of the step's group in the progress bar, `groupIndexOf`.
unfoldable pub group_index : Step → ℕ
group_index Step.template = 0
group_index Step.source = 1
group_index Step.capture = 1
group_index Step.upload = 1
group_index Step.review = 2
group_index Step.edit = 3
group_index Step.final = 4

pub record SourceImage : Type 0 where
  pub ref : ℕ
  pub width : ℕ
  pub height : ℕ

pub record SaveResponse : Type 0 where
  pub key : String
  pub key_display : String
  pub delete_secret : String
  pub expires_at : String
  pub template_id : String
  pub template_version : ℕ
  pub photo_width : ℕ
  pub photo_height : ℕ
  pub photo_mime : String

-- What the page shows after a switch of templates: each value is one text.
pub data TemplateNotice : Type 0 where
  crop_reset : TemplateNotice
  carried : List ReprojectNote → TemplateNotice

pub record Receipt : Type 0 where
  pub saved : SaveResponse
  pub idempotency_key : String

pub record Staged {ℓ} (R : Type ℓ) : Type ℓ where
  pub receipt : Receipt
  pub source : SourceImage
  pub transform : EditTransform R

pub record Page {ℓ} (R : Type ℓ) : Type ℓ where
  pub step : Step
  pub selected : Option (TemplateEntry R)
  pub source_mode : Option SourceMode
  pub source : Option SourceImage
  pub editor_state : Option (EditorState R)
  pub selected_size : Option OutputSizeOption
  pub staged : Option (Staged R)
  pub template_notice : Option TemplateNotice
  pub source_ref : Option SourceImage
  pub disposed : List ℕ

abbrev pub initial_page {ℓ} : {R : Type ℓ} → Page R
initial_page = record {
  step = Step.template;
  selected = none;
  source_mode = none;
  source = none;
  editor_state = none;
  selected_size = none;
  staged = none;
  template_notice = none;
  source_ref = none;
  disposed = [];
}

-- The callbacks, each with what the step hands over. `restart` has the answer to the question that is
-- put to the user when a photo is staged. `staged_change` has, besides the receipt, what its closure
-- holds: the photo and the transform of the page on which the upload or the deletion was started.
pub data Event {ℓ} (R : Type ℓ) : Type ℓ where
  select : TemplateEntry R → Event R
  keep_template choose_upload choose_camera back_to_template : Event R
  ready : SourceImage → Event R
  back_to_source : Event R
  size_change : Option OutputSizeOption → Event R
  confirm retake review_back change_template : Event R
  editor_done editor_back : EditorState R → Event R
  use_default_size final_back : Event R
  restart : Bool → Event R
  staged_change : SourceImage → EditTransform R → Option Receipt → Event R

unfoldable pub is_some {ℓ} : {A : Type ℓ} → Option A → Bool
is_some none = false
is_some (some x) = true

-- `sourceRef.current?.dispose()`.
unfoldable pub dispose_current : Option SourceImage → List ℕ → List ℕ
dispose_current none disposed = disposed
dispose_current (some img) disposed = img.ref ∷ disposed

-- `setStep(sourceMode === "camera" ? "capture" : "upload")`.
unfoldable pub retake_step : Option SourceMode → Step
retake_step (some SourceMode.camera) = Step.capture
retake_step _ = Step.upload

module _ {ℓ} {R : Type ℓ} where
  -- What the page renders: the step, where what it needs is there.
  unfoldable pub shown : Page R → Step → Bool
  unfolding is_some
  shown p Step.template = true
  shown p Step.source = is_some p.selected
  shown p Step.capture = is_some p.selected
  shown p Step.upload = is_some p.selected
  shown p Step.review = is_some p.selected && is_some p.source
  shown p Step.edit = is_some p.selected && is_some p.source
  shown p Step.final = is_some p.selected && is_some p.source && is_some p.editor_state

  unfoldable pub is_dirty : Page R → Bool
  unfolding is_some
  is_dirty p = is_some p.source || is_some p.editor_state || is_some p.staged

  unfoldable pub replace_source : Option SourceImage → Page R → Page R
  unfolding dispose_current
  replace_source next p = record p {
    disposed = dispose_current p.source_ref p.disposed;
    source_ref = next;
    source = next;
    editor_state = none;
  }

  unfoldable pub go : Step → Page R → Page R
  go s p = record p { step = s }

  unfoldable pub with_mode : SourceMode → Page R → Page R
  with_mode m p = record p { source_mode = some m }

  unfoldable pub with_state : EditorState R → Page R → Page R
  with_state s p = record p { editor_state = some s }

  -- The effect that runs when the page goes away.
  unfoldable pub unmount : Page R → Page R
  unfolding dispose_current
  unmount p = record p { disposed = dispose_current p.source_ref p.disposed; source_ref = none }

  unfoldable pub reset_all : Page R → Page R
  unfolding replace_source
  reset_all p = record (replace_source none p) {
    source_mode = none;
    selected = none;
    selected_size = none;
    staged = none;
    step = Step.template;
  }

  unfoldable pub on_restart : Bool → Page R → Page R
  unfolding reset_all is_some
  on_restart answer p = if is_some p.staged && not answer then p else reset_all p

  unfoldable pub template_changed : Option (TemplateEntry R) → TemplateEntry R → Bool
  template_changed none entry = false
  template_changed (some old) entry =
      not (same_text old.revision.revision_id entry.revision.revision_id)

  unfoldable pub on_staged : SourceImage → EditTransform R → Option Receipt → Page R → Page R
  on_staged src t none p = record p { staged = none }
  on_staged src t (some receipt) p = record p {
    staged = some (record { receipt = receipt; source = src; transform = t });
  }

module _ {ℓ} {R : Type ℓ} ⦃n : Number R⦄ where
  -- The `stagedStale` of the last step.
  unfoldable pub staged_stale : Page R → Bool
  unfolding same_transform
  staged_stale p = stale p.staged p.source p.editor_state
    where
      stale : Option (Staged R) → Option SourceImage → Option (EditorState R) → Bool
      stale (some held) (some src) (some state) =
          not (held.source.ref == src.ref) || not (same_transform held.transform state.transform)
      stale _ _ _ = false

  -- The end of a switch that carries the editor state over. Where `reprojectEditorState` throws, the
  -- calls before it stand and those after it are not made.
  unfoldable pub carry_over : Option (EditorState R × List ReprojectNote) → Page R → Page R
  unfolding go
  carry_over none p = p
  carry_over (some (state, notes)) p =
      go Step.review
        (record p { editor_state = some state; template_notice = some (carried notes) })

  unfoldable pub switch_template :
      Bool → TemplateEntry R → SourceImage → Option (EditorState R) → Page R → Page R
  unfolding go is_forbidden carry_over
  switch_template changed entry src none p = go Step.review (record p { template_notice = none })
  switch_template changed entry src (some state) p =
      if changed && is_forbidden entry.revision.capabilities.crop
      then go Step.review (record p { editor_state = none; template_notice = some crop_reset })
      else carry_over
          (reproject_editor_state state
            (record { width = whole src.width; height = whole src.height }) entry.revision)
          p

  unfoldable pub enter :
      Bool → TemplateEntry R → Option (EditorState R) → Option SourceImage → Page R → Page R
  unfolding go switch_template
  enter changed entry state none p = go Step.source p
  enter changed entry state (some src) p = switch_template changed entry src state p

  unfoldable pub on_select : TemplateEntry R → Page R → Page R
  unfolding enter template_changed
  on_select entry p =
      enter (template_changed p.selected entry) entry p.editor_state p.source
        (record p { selected = some entry; selected_size = none })

  -- The step that has the control for a callback.
  unfoldable pub offers : Event R → Step → Bool
  offers (select entry) Step.template = true
  offers keep_template Step.template = true
  offers choose_upload Step.source = true
  offers choose_camera Step.source = true
  offers back_to_template Step.source = true
  offers back_to_source Step.upload = true
  offers back_to_source Step.capture = true
  offers (size_change s) Step.review = true
  offers confirm Step.review = true
  offers retake Step.review = true
  offers review_back Step.review = true
  offers change_template Step.review = true
  offers (editor_done s) Step.edit = true
  offers (editor_back s) Step.edit = true
  offers use_default_size Step.final = true
  offers final_back Step.final = true
  offers (restart answer) Step.final = true
  offers _ _ = false

  unfoldable pub act : Event R → Page R → Page R
  unfolding on_select go with_mode with_state replace_source retake_step on_restart on_staged
  act (select entry) p = on_select entry p
  act keep_template p = if is_some p.source then go Step.review p else p
  act choose_upload p = go Step.upload (with_mode SourceMode.upload p)
  act choose_camera p = go Step.capture (with_mode SourceMode.camera p)
  act back_to_template p = go Step.template p
  act (ready img) p = go Step.review (replace_source (some img) p)
  act back_to_source p = go Step.source p
  act (size_change s) p = record p { selected_size = s }
  act confirm p = go Step.edit p
  act retake p = go (retake_step p.source_mode) (replace_source none p)
  act review_back p = go Step.source (replace_source none p)
  act change_template p = go Step.template p
  act (editor_done s) p = go Step.final (with_state s p)
  act (editor_back s) p = go Step.review (with_state s p)
  act use_default_size p = record p { selected_size = none }
  act final_back p = go Step.edit p
  act (restart answer) p = on_restart answer p
  act (staged_change src t r) p = on_staged src t r p

  -- The loading of a photo and the calls of the server go on when their step has gone, and still call
  -- back. (The camera step is silent once it has gone; its photos come while it is there.)
  unfoldable pub calls_back : Event R → Bool
  calls_back (ready img) = true
  calls_back (staged_change src t r) = true
  calls_back _ = false

  -- A control that the page does not show is not used.
  unfoldable pub step_page : Event R → Page R → Page R
  unfolding calls_back offers shown act
  step_page e p = if calls_back e || (offers e p.step && shown p p.step) then act e p else p

  unfoldable pub run : List (Event R) → Page R → Page R
  run [] p = p
  run (e ∷ es) p = run es (step_page e p)
