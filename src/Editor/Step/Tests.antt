-- ===== src/Editor/Step/Tests.antt =====
-- frontend/src/editor/editor-step.tsx on whole numbers: a square photo of 10 pixels.
use portrait_booth.Base.{
  ◌≡◌, refl, ◌≤◌, ◌+◌, true, false, none, some, [], ◌∷◌, ◌==◌, if◌then◌else◌, List, arith, ◌≢◌,
}
use portrait_booth.Base.Int.{ℤ, pos, ◌+ℤ◌, ◌-ℤ◌, ◌*ℤ◌}
use portrait_booth.Number.{Number}
use portrait_booth.Number.Whole.{whole_numbers}
use portrait_booth.Samples.{square, kept, portrait, squares, flipped}
use portrait_booth.Image.Exif.{Rect}
use portrait_booth.Template.{Permission}
use portrait_booth.Template.Policy.{editor_policy}
use portrait_booth.Editor.OutputSize.{output_size}
use portrait_booth.Editor.Transform.{EditTransform, is_valid_transform, identity_transform}
use portrait_booth.Editor.Fit.{fit_transform}
use portrait_booth.Editor.Reproject.{EditorState, reproject_editor_state}
use portrait_booth.Editor.Reproject.Laws.{IsAllowed}
use portrait_booth.Editor.Step.{EditorView, mount, undo, redo, apply, done_state, back_state}
use portrait_booth.Editor.Step.Controls.{
  EditorEvent, press_undo, press_reset, flip, rotate, nudge_by, pointer_down, pointer_move,
  pointer_up, run,
}
use portrait_booth.Editor.Step.Everywhere.{Everywhere}
use portrait_booth.Editor.Step.Allowed.{Enters, carried, run-IsAllowed, run-IsLocked}
use portrait_booth.Editor.Step.History
use portrait_booth.Editor.Step.History.{undo_redo, kept-run, reset_count}
use portrait_booth.Editor.Step.Stale.{undo-stale}

-- A flipped and turned photo, carried over to a template that forbids everything.
abbrev upright : EditorState ℤ
upright = record { transform = kept; history = record { undo = kept ∷ []; redo = [] } }

abbrev strict_view : EditorView ℤ
strict_view = record {
  transform = kept;
  history = record { undo = kept ∷ []; redo = [] };
  auto_scaled = false;
  out_of_bounds = false;
  pointers = [];
  drag = none;
  pinch = none;
}

abbrev presses : List (EditorEvent ℤ)
presses =
    flip ∷ (rotate true ∷ (nudge_by (pos 1) (pos 0) ∷ (press_undo ∷ (press_reset false ∷ []))))

enters : Enters square square (portrait Permission.forbidden squares) (some upright)
unfolding reproject_editor_state fit_transform ◌*ℤ◌ ◌+ℤ◌ ◌-ℤ◌ is_valid_transform output_size
enters = carried flipped square (upright, _) refl

mounts :
    mount square square
      (editor_policy (portrait Permission.forbidden squares).capabilities)
      (some upright)
    ≡ some strict_view
unfolding mount editor_policy fit_transform ◌*ℤ◌ ◌+ℤ◌ ◌-ℤ◌ is_valid_transform
mounts = refl

run-IsAllowed_example :
    let caps = (portrait Permission.forbidden squares).capabilities in
    Everywhere (IsAllowed caps) (run square square (editor_policy caps) presses strict_view)
run-IsAllowed_example =
    run-IsAllowed square square (portrait Permission.forbidden squares) (some upright) strict_view
      presses enters mounts

run-IsLocked_example :
    let policy = editor_policy (portrait Permission.forbidden squares).capabilities in
    Everywhere (λ t. t ≡ kept) (run square square policy presses strict_view)
unfolding editor_policy identity_transform
run-IsLocked_example =
    run-IsLocked square square (editor_policy (portrait Permission.forbidden squares).capabilities)
      strict_view presses (λ t. t ≡ kept) refl refl refl refl (refl, (refl, tt), tt)

undo_redo_example :
    (strict_view.history.undo ≢ [] → redo (undo strict_view) ≡ strict_view)
    × (strict_view.history.redo ≢ [] → undo (redo strict_view) ≡ strict_view)
    × (strict_view.history.undo ≡ [] → undo strict_view ≡ strict_view)
    × (strict_view.history.redo ≡ [] → redo strict_view ≡ strict_view)
undo_redo_example = undo_redo strict_view

kept-run_example :
    let policy = editor_policy (portrait Permission.allowed squares).capabilities in
    History.kept (run square square policy presses strict_view).history ≤ 50 + reset_count presses
kept-run_example =
    kept-run square square (editor_policy (portrait Permission.allowed squares).capabilities)
      presses strict_view (omega arith)

-- Numbers on which every literal but 0 is 1, so that the largest scale is 1, and a photo that is too small.
abbrev coarse : Number ℤ
coarse = record whole_numbers { lit = λ m k. if m == 0 then pos 0 else pos 1 }

abbrev large : Rect ℤ
large = record { width = pos 15; height = pos 15 }

abbrev enlarged : EditTransform ℤ
enlarged = record kept { scale = pos 2 }

undo-stale_example :
    let w = undo (
      apply ⦃n = coarse⦄ square large enlarged
        (apply ⦃n = coarse⦄ square large kept strict_view)) in
    let w' = undo (apply ⦃n = coarse⦄ square large kept strict_view) in
    (w.transform ≡ kept)
    × (done_state w ≡ some (back_state w))
    × (w'.transform ≡ kept)
    × (done_state w' ≡ none)
unfolding fit_transform ◌*ℤ◌ ◌+ℤ◌ ◌-ℤ◌ is_valid_transform
undo-stale_example =
    undo-stale ⦃n = coarse⦄ square large strict_view kept enlarged kept enlarged refl refl refl refl

-- Once the finger is up, no drag is left.
dragged :
    (run square square
      (editor_policy (portrait Permission.allowed squares).capabilities)
      (pointer_down 1 (record { x = pos 0; y = pos 0 })
        ∷ (pointer_move 1 (record { x = pos 0; y = pos 0 }) square ∷ (pointer_up 1 ∷ [])))
      strict_view).drag
    ≡ none
unfolding run editor_policy fit_transform ◌*ℤ◌ ◌+ℤ◌ ◌-ℤ◌ is_valid_transform
dragged = refl
