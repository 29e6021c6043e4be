-- ===== src/Editor/Step/Allowed.antt =====
-- frontend/src/editor/editor-step.tsx: the editor under the locks of a template.
use portrait_booth.Base.{
  ◌≡◌, ◌∙◌, sym, subst, Bool, true, false, Option, none, some, List, >>=-eq-some, All, All-imp,
}
use mathlib.Core.Option.{some-injective}
use portrait_booth.Number.{Number}
use portrait_booth.Image.Exif.{Rect}
use portrait_booth.Template.{Permission, Capabilities, TemplateRevision}
use portrait_booth.Template.Policy.{EditorPolicy, is_locked, editor_policy}
use portrait_booth.Editor.Transform.{EditTransform, identity_transform, max_scale}
use portrait_booth.Editor.Reproject.{
  EditorState, ReprojectNote, is_forbidden, reproject_editor_state,
}
use portrait_booth.Editor.Reproject.Laws.{
  IsAllowed, identity-IsAllowed, IsAllowed-shape, fit_transform-shape,
  reproject_editor_state-IsCarried,
}
use portrait_booth.Editor.Step.{
  EditorView, mount, mount_transform, mount_history, mount_out_of_bounds,
}
use portrait_booth.Editor.Step.Controls.{EditorEvent, run}
use portrait_booth.Editor.Step.Everywhere.{Everywhere, IsStable, run-Everywhere}

-- A lock is off only where the operation is not forbidden.
unlocked : (p : Permission) → is_locked p ≡ false → is_forbidden p ≡ true → ⊥
unfolding is_locked is_forbidden
unlocked Permission.allowed h k = cc
unlocked Permission.warn h k = cc
unlocked Permission.forbidden h k = cc

module _ {ℓ} {R : Type ℓ} ⦃n : Number R⦄ where
  module _ (src out : Rect R) where
    IsAllowed-IsStable :
        (caps : Capabilities) → IsStable src out (editor_policy caps) (IsAllowed caps)
    unfolding editor_policy
    IsAllowed-IsStable caps = record {
      initial = identity-IsAllowed caps;
      composed = λ free t r x y s allowed fit.
          IsAllowed-shape caps t r allowed (fit_transform-shape _ r src out max_scale fit);
      turned = λ free t r a s allowed fit.
          let (_, flip) = fit_transform-shape _ r src out max_scale fit in
          record {
            unflipped = λ e. flip ∙ allowed.unflipped e;
            unrotated = λ e. absurd (unlocked caps.rotate free e);
          };
      mirrored = λ free t r b allowed fit.
          let (rotation, _) = fit_transform-shape _ r src out max_scale fit in
          record {
            unflipped = λ e. absurd (unlocked caps.mirror free e);
            unrotated = λ e. rotation ∙ allowed.unrotated e;
          };
    }

    -- The transform on mounting has the flip and the rotation of the state that is handed in.
    mount_transform-IsAllowed :
        (caps : Capabilities) (locked : Bool) (state : EditorState R) (t : EditTransform R)
        → IsAllowed caps state.transform
        → mount_transform src out locked (some state) ≡ some t
        → IsAllowed caps t
    unfolding mount_transform
    mount_transform-IsAllowed caps false state t allowed h =
        subst (IsAllowed caps) (some-injective _ _ h) allowed
    mount_transform-IsAllowed caps true state t allowed h =
        IsAllowed-shape caps state.transform t allowed (fit_transform-shape _ t src out max_scale h)

    mount-some :
        (policy : EditorPolicy) (initial : Option (EditorState R)) (v : EditorView R)
        → mount src out policy initial ≡ some v
        → (mount_transform src out policy.compose_locked initial ≡ some v.transform)
          × (v.history ≡ mount_history src out initial)
    unfolding mount
    mount-some policy initial v h =
        let (t, first, rest) =
          >>=-eq-some (mount_transform src out policy.compose_locked initial) _ h in
        let (b, _, e) = >>=-eq-some (mount_out_of_bounds src out initial) _ rest in
        let same = some-injective _ _ e in
        (first ∙ (λ i. some ((same i).transform)), λ i. (sym same i).history)

    mount-IsAllowed :
        (caps : Capabilities) (state : EditorState R) (v : EditorView R)
        → mount src out (editor_policy caps) (some state) ≡ some v
        → IsAllowed caps state.transform
        → All (IsAllowed caps) state.history.undo
        → All (IsAllowed caps) state.history.redo
        → Everywhere (IsAllowed caps) v
    unfolding mount_history
    mount-IsAllowed caps state v h here undos redos =
        let (shown, kept) = mount-some (editor_policy caps) (some state) v h in
        (
          mount_transform-IsAllowed caps (editor_policy caps).compose_locked state v.transform here
              shown,
          subst (λ h. All (IsAllowed caps) h.undo) (sym kept) undos,
          subst (λ h. All (IsAllowed caps) h.redo) (sym kept) redos,
        )

    mount_new-IsAllowed :
        (caps : Capabilities) (v : EditorView R)
        → mount src out (editor_policy caps) none ≡ some v
        → Everywhere (IsAllowed caps) v
    unfolding mount_history mount_transform
    mount_new-IsAllowed caps v h =
        let (shown, kept) = mount-some (editor_policy caps) none v h in
        (
          subst (IsAllowed caps) (some-injective _ _ shown) (identity-IsAllowed caps),
          subst (λ h. All (IsAllowed caps) h.undo) (sym kept) tt,
          subst (λ h. All (IsAllowed caps) h.redo) (sym kept) tt,
        )

    -- How the editor gets its state on entering: there is none, or a state of whatever template before was
    -- carried over to this one.
    pub data Enters (rev : TemplateRevision R) : Option (EditorState R) → Type ℓ where
      afresh : Enters rev none
      carried :
          (old : EditorState R) (photo : Rect R) (r : EditorState R × List ReprojectNote)
          → reproject_editor_state old photo rev ≡ some r
          → Enters rev (some r.0)

    entered-IsAllowed :
        {rev : TemplateRevision R} {initial : Option (EditorState R)} (v : EditorView R)
        → Enters rev initial
        → mount src out (editor_policy rev.capabilities) initial ≡ some v
        → Everywhere (IsAllowed rev.capabilities) v
    entered-IsAllowed {rev} v afresh h = mount_new-IsAllowed rev.capabilities v h
    entered-IsAllowed {rev} v (carried old photo r e) h =
        let ((here, _), (_, _, undos, redos)) =
          reproject_editor_state-IsCarried old photo rev r e in
        mount-IsAllowed rev.capabilities r.0 v h here
          (All-imp _ _ (λ t p. p.0) r.0.history.undo undos)
          (All-imp _ _ (λ t p. p.0) r.0.history.redo redos)

    -- An editor that is entered afresh, or with a state carried over from any template, shows after any
    -- events a transform, and keeps a history, without a flip where the template forbids mirroring and
    -- without an angle where it forbids rotation.
    pub run-IsAllowed :
        (rev : TemplateRevision R) (initial : Option (EditorState R)) (v : EditorView R)
        (es : List (EditorEvent R))
        → Enters rev initial
        → mount src out (editor_policy rev.capabilities) initial ≡ some v
        → Everywhere
            (IsAllowed rev.capabilities)
            (run src out (editor_policy rev.capabilities) es v)
    run-IsAllowed rev initial v es enters h =
        run-Everywhere src out (IsAllowed-IsStable rev.capabilities) es v
          (entered-IsAllowed v enters h)

    -- Where composing, rotating and mirroring are all locked, every transform that the editor shows or
    -- keeps after any events is the identity or was shown or kept before them.
    pub run-IsLocked :
        (policy : EditorPolicy) (v : EditorView R) (es : List (EditorEvent R))
        (P : EditTransform R → Type ℓ)
        → policy.compose_locked ≡ true
        → policy.rotate_locked ≡ true
        → policy.mirror_locked ≡ true
        → P identity_transform
        → Everywhere P v
        → Everywhere P (run src out policy es v)
    run-IsLocked policy v es P c r m start h =
        run-Everywhere src out
          (record {
            initial = start;
            composed = λ free. cc;
            turned = λ free. cc;
            mirrored = λ free. cc;
          })
          es v h
