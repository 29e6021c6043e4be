-- ===== src/Editor/Step/Stale.antt =====
-- frontend/src/editor/editor-step.tsx: the guard of the "Next" button after undoing.
use portrait_booth.Base.{
  ◌≡◌, refl, ◌∙◌, ◌-◌, Bool, true, false, not, none, some, split_last-append, take_last,
}
use portrait_booth.Number.{Number}
use portrait_booth.Image.Exif.{Rect}
use portrait_booth.Editor.Transform.{EditTransform, max_scale, is_valid_transform}
use portrait_booth.Editor.Fit.{fit_transform}
use portrait_booth.Editor.Step.{
  EditorView, push_undo, undo_to, undo, undo_limit, commit, apply_fitted, apply, done_state,
  back_state,
}

module _ {ℓ} {R : Type ℓ} ⦃n : Number R⦄ where
  module _ (src out : Rect R) where
    -- What `apply` leaves where the fit and the test go through.
    apply_lem :
        (next fitted : EditTransform R) (valid : Bool) (v : EditorView R)
        → fit_transform next src out max_scale ≡ some fitted
        → is_valid_transform fitted src out ≡ some valid
        → let w = apply src out next v in
          (w.transform ≡ fitted)
          × (w.history ≡ push_undo v.transform v.history)
          × (w.out_of_bounds ≡ not valid)
    unfolding apply apply_fitted commit
    apply_lem next fitted valid v fit seen = rw (fit, seen) (refl, refl, refl)

    undo-apply :
        (next fitted : EditTransform R) (valid : Bool) (v : EditorView R)
        → fit_transform next src out max_scale ≡ some fitted
        → is_valid_transform fitted src out ≡ some valid
        → let w = undo (apply src out next v) in
          (w.transform ≡ v.transform) × (w.out_of_bounds ≡ not valid)
    unfolding undo undo_to push_undo
    undo-apply next fitted valid v fit seen =
        let (_, pushed, guard) = apply_lem next fitted valid v fit seen in
        rw (pushed, split_last-append (take_last (undo_limit - 1) v.history.undo) v.transform)
          (refl, guard)

    -- A transform `t` whose fit `f` is out of bounds, and a transform `u` whose fit is not: undoing `u` after
    -- both shows `f` again, and "Next" is enabled and hands it over; undoing `t` alone shows the transform
    -- before it, and "Next" stays disabled.
    pub undo-stale :
        (v : EditorView R) (t u f g : EditTransform R)
        → fit_transform t src out max_scale ≡ some f
        → is_valid_transform f src out ≡ some false
        → fit_transform u src out max_scale ≡ some g
        → is_valid_transform g src out ≡ some true
        → let w = undo (apply src out u (apply src out t v)) in
          let w' = undo (apply src out t v) in
          (w.transform ≡ f)
          × (done_state w ≡ some (back_state w))
          × (w'.transform ≡ v.transform)
          × (done_state w' ≡ none)
    unfolding done_state back_state
    undo-stale v t u f g fit_t bad fit_u good =
        let (shown, _, _) = apply_lem t f false v fit_t bad in
        let (back, enabled) = undo-apply u g true (apply src out t v) fit_u good in
        let (before, disabled) = undo-apply t f false v fit_t bad in
        (back ∙ shown, rw enabled refl, before, rw disabled refl)
