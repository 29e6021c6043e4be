-- ===== src/Editor/Step/Everywhere.antt =====
-- frontend/src/editor/editor-step.tsx: what holds of every transform that the editor keeps.
use portrait_booth.Base.{
  ◌≡◌, ◌-◌, Bool, true, false, some, List, [], ◌∷◌, ◌++◌, subst, Option-cases, All, All-append,
  All-drop, split_last, split_last-some, take_last, length, inl, inr,
}
use portrait_booth.Number.{Number}
use portrait_booth.Image.Exif.{Rect}
use portrait_booth.Template.Policy.{EditorPolicy}
use portrait_booth.Editor.Transform.{EditTransform, max_scale, identity_transform}
use portrait_booth.Editor.Fit.{fit_transform}
use portrait_booth.Editor.Reproject.{EditorHistory}
use portrait_booth.Editor.Step.{
  EditorView, undo_limit, push_undo, undo_to, undo, redo_to, redo, reset,
}
use portrait_booth.Editor.Step.Closed.{At, IsClosed, resets, step-At}
use portrait_booth.Editor.Step.Controls.{EditorEvent, press_reset, step, run}

-- Every transform of a view: the one that is shown, and those of the history.
abbrev pub Kept {ℓ κ} :
    {R : Type ℓ} → (EditTransform R → Type κ) → EditTransform R → EditorHistory R → Type κ
Kept P t h = P t × All P h.undo × All P h.redo

abbrev pub Everywhere {ℓ κ} : {R : Type ℓ} → (EditTransform R → Type κ) → EditorView R → Type κ
Everywhere P v = At (Kept P) v

All-split {ℓ κ} :
    {A : Type ℓ} (P : A → Type κ) (xs : List A) (y : A) → All P (xs ++ (y ∷ [])) → All P xs × P y
All-split P [] y (h, _) = (tt, h)
All-split P (x ∷ xs) y (h, hs) = let (init, last) = All-split P xs y hs in ((h, init), last)

All-split_last {ℓ κ} :
    {A : Type ℓ} (P : A → Type κ) (xs ys : List A) (y : A)
    → split_last xs ≡ some (ys, y)
    → All P xs
    → All P ys × P y
All-split_last P xs ys y e h = All-split P ys y (subst (All P) (split_last-some xs ys y e) h)

module _ {ℓ κ} {R : Type ℓ} (P : EditTransform R → Type κ) where
  undo-Everywhere : (v : EditorView R) → Everywhere P v → Everywhere P (undo v)
  unfolding undo undo_to
  undo-Everywhere v (here, undos, redos) = elim (Option-cases (split_last v.history.undo)) [
    | inl e ↦ rw e (here, undos, redos)
    | inr (last, e) ↦ rw e (
        let (init, prev) = All-split_last P v.history.undo last.0 last.1 e undos in
        (prev, init, All-append P v.history.redo _ redos (here, tt)))
  ]

  redo-Everywhere : (v : EditorView R) → Everywhere P v → Everywhere P (redo v)
  unfolding redo redo_to
  redo-Everywhere v (here, undos, redos) = elim (Option-cases (split_last v.history.redo)) [
    | inl e ↦ rw e (here, undos, redos)
    | inr (last, e) ↦ rw e (
        let (init, next) = All-split_last P v.history.redo last.0 last.1 e redos in
        (next, All-append P v.history.undo _ undos (here, tt), init))
  ]

  reset-Everywhere :
      ⦃n : Number R⦄ (same : Bool) (v : EditorView R)
      → P identity_transform
      → Everywhere P v
      → Everywhere P (reset same v)
  unfolding reset
  reset-Everywhere true v start h = h
  reset-Everywhere false v start (here, undos, redos) =
      (start, All-append P v.history.undo _ undos (here, tt), tt)

  push_undo-Everywhere :
      (t r : EditTransform R) (h : EditorHistory R) → P r → Kept P t h → Kept P r (push_undo t h)
  unfolding push_undo
  push_undo-Everywhere t r h p (here, undos, redos) =
      let kept = All-drop P (length h.undo - (undo_limit - 1)) h.undo undos in
      (p, All-append P (take_last (undo_limit - 1) h.undo) _ kept (here, tt), tt)

module _ {ℓ κ} {R : Type ℓ} ⦃n : Number R⦄ where
  module _ (src out : Rect R) where
    -- A property of transforms that survives what the locks of a policy leave possible: a composed, a
    -- turned or a mirrored transform, fitted, has it again.
    pub record IsStable (policy : EditorPolicy) (P : EditTransform R → Type κ) : Type (ℓ ⊔ κ) where
      pub initial : P identity_transform
      pub composed :
          policy.compose_locked ≡ false
          → (t r : EditTransform R) (x y s : R) → P t
          → fit_transform
              (record t { translate_x = x; translate_y = y; scale = s })
              src
              out
              max_scale
            ≡ some r
          → P r
      pub turned :
          policy.rotate_locked ≡ false
          → (t r : EditTransform R) (a s : R) → P t
          → fit_transform (record t { rotation_deg = a; scale = s }) src out max_scale ≡ some r
          → P r
      pub mirrored :
          policy.mirror_locked ≡ false
          → (t r : EditTransform R) (b : Bool) → P t
          → fit_transform (record t { flip_x = b }) src out max_scale ≡ some r
          → P r

    module _ {policy : EditorPolicy} {P : EditTransform R → Type κ}
        (stable : IsStable policy P) where
      Kept-IsClosed : IsClosed src out policy (Kept P)
      Kept-IsClosed = record {
        undone = undo-Everywhere P;
        redone = redo-Everywhere P;
        composed = λ free t r h x y s p e.
            push_undo-Everywhere P t r h (stable.composed free t r x y s p.0 e) p;
        turned =
            λ free t r h a s p e. push_undo-Everywhere P t r h (stable.turned free t r a s p.0 e) p;
        mirrored =
            λ free t r h b p e. push_undo-Everywhere P t r h (stable.mirrored free t r b p.0 e) p;
      }

      step-Everywhere :
          (e : EditorEvent R) (v : EditorView R)
          → Everywhere P v
          → resets e ≡ true
          → Everywhere P (step src out policy e v)
      unfolding step resets
      step-Everywhere (press_reset same) v h _ = reset-Everywhere P same v stable.initial h
      step-Everywhere _ v h e = cc

      pub run-Everywhere :
          (es : List (EditorEvent R)) (v : EditorView R)
          → Everywhere P v
          → Everywhere P (run src out policy es v)
      unfolding run
      run-Everywhere [] v h = h
      run-Everywhere (e ∷ es) v h =
          run-Everywhere es (step src out policy e v)
            (step-At src out Kept-IsClosed e v h (step-Everywhere e v h))
