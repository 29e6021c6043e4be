-- ===== src/Editor/Step/Closed.antt =====
-- frontend/src/editor/editor-step.tsx: what holds of every transform that the editor keeps.
use portrait_booth.Base.{
  ℕ, ◌≡◌, refl, ◌==◌, arith, Bool, true, false, not, ◌&&◌, Option, none, some, if◌then◌else◌,
  Option-cases, length, Bool-cases, inl, inr,
}
use portrait_booth.Number.{Number}
use portrait_booth.Image.Exif.{Rect, Point}
use portrait_booth.Template.Policy.{EditorPolicy}
use portrait_booth.Editor.Transform.{EditTransform, max_scale, is_valid_transform, nought}
use portrait_booth.Editor.Fit.{fit_transform}
use portrait_booth.Editor.Reproject.{EditorHistory}
use portrait_booth.Editor.Step.{
  EditorView, Pinch, push_undo, undo, redo, reset, commit, apply_fitted, apply, rotate_90,
  toggle_flip,
}
use portrait_booth.Editor.Step.Controls.{
  KeyName, arrow_left, arrow_right, arrow_up, arrow_down, plus, equals, minus, key_z, key_y, other,
  Modifiers, composes, EditorEvent, press_undo, press_redo, flip, center, press_reset, rotate,
  nudge_by, set_x, set_y, set_scale, slide_rotation, set_rotation, press_key, pointer_down,
  pointer_move, pointer_up, handle_pointer_up, handle_pointer_down, handle_pointer_move,
  put_pointer, has_pointer, pointer_distance, move_by, zoom_to, pinch_to, drag_to, pinch_or_drag,
  on_key, handle_key_down, step,
}

-- A statement about the transform that is shown and the history.
abbrev pub At {ℓ κ} :
    {R : Type ℓ} → (EditTransform R → EditorHistory R → Type κ) → EditorView R → Type κ
At Q v = Q v.transform v.history

-- A reset of a view that does not show the initial transform.
unfoldable pub resets {ℓ} : {R : Type ℓ} → EditorEvent R → Bool
resets (press_reset same) = not same
resets _ = false

module _ {ℓ κ} {R : Type ℓ} (Q : EditTransform R → EditorHistory R → Type κ) where
  pointer_up-At : (id : ℕ) (v : EditorView R) → At Q v → At Q (handle_pointer_up id v)
  unfolding handle_pointer_up
  pointer_up-At id v h = h

  -- A callback behind a lock.
  unless-At :
      (locked : Bool) (v next : EditorView R)
      → (locked ≡ false → At Q next)
      → At Q v
      → At Q (if locked then v else next)
  unless-At true v next each h = h
  unless-At false v next each h = each refl

module _ {ℓ κ} {R : Type ℓ} ⦃n : Number R⦄ where
  module _ (src out : Rect R) where
    -- What the events, within the locks of a policy, have to keep: taking back and repeating, and
    -- pushing what a composed, a turned or a mirrored transform is fitted to.
    pub record IsClosed (policy : EditorPolicy) (Q : EditTransform R → EditorHistory R → Type κ)
        : Type (ℓ ⊔ κ) where
      pub undone : (v : EditorView R) → At Q v → At Q (undo v)
      pub redone : (v : EditorView R) → At Q v → At Q (redo v)
      pub composed :
          policy.compose_locked ≡ false
          → (t r : EditTransform R) (h : EditorHistory R) (x y s : R) → Q t h
          → fit_transform
              (record t { translate_x = x; translate_y = y; scale = s })
              src
              out
              max_scale
            ≡ some r
          → Q r (push_undo t h)
      pub turned :
          policy.rotate_locked ≡ false
          → (t r : EditTransform R) (h : EditorHistory R) (a s : R) → Q t h
          → fit_transform (record t { rotation_deg = a; scale = s }) src out max_scale ≡ some r
          → Q r (push_undo t h)
      pub mirrored :
          policy.mirror_locked ≡ false
          → (t r : EditTransform R) (h : EditorHistory R) (b : Bool) → Q t h
          → fit_transform (record t { flip_x = b }) src out max_scale ≡ some r
          → Q r (push_undo t h)

    module _ (Q : EditTransform R → EditorHistory R → Type κ) where
      commit-At :
          (fitted : EditTransform R) (v : EditorView R) (valid : Option Bool)
          → Q fitted (push_undo v.transform v.history)
          → At Q v
          → At Q (commit src out fitted v valid)
      unfolding commit
      commit-At fitted v none p h = h
      commit-At fitted v (some valid) p h = p

      apply-At :
          (next : EditTransform R) (v : EditorView R)
          → ((r : EditTransform R)
              → fit_transform next src out max_scale ≡ some r
              → Q r (push_undo v.transform v.history))
          → At Q v
          → At Q (apply src out next v)
      unfolding apply apply_fitted
      apply-At next v fits h = elim (Option-cases (fit_transform next src out max_scale)) [
        | inl e ↦ rw e h
        | inr (r, e) ↦ rw e (commit-At r _ (is_valid_transform r src out) (fits r e) h)
      ]

    module _ {policy : EditorPolicy} {Q : EditTransform R → EditorHistory R → Type κ}
        (closed : IsClosed policy Q) where
      -- A view that is composed anew, where that is not locked.
      compose-At :
          policy.compose_locked ≡ false
          → (x y s : R) (v : EditorView R) → At Q v
          → At Q
              (apply src out (record v.transform { translate_x = x; translate_y = y; scale = s }) v)
      compose-At free x y s v h =
          apply-At Q _ v (λ r e. closed.composed free v.transform r v.history x y s h e) h

      turn-At :
          policy.rotate_locked ≡ false
          → (a s : R) (v : EditorView R) → At Q v
          → At Q (apply src out (record v.transform { rotation_deg = a; scale = s }) v)
      turn-At free a s v h =
          apply-At Q _ v (λ r e. closed.turned free v.transform r v.history a s h e) h

      flip-At :
          policy.mirror_locked ≡ false
          → (b : Bool) (v : EditorView R) → At Q v
          → At Q (apply src out (record v.transform { flip_x = b }) v)
      flip-At free b v h =
          apply-At Q _ v (λ r e. closed.mirrored free v.transform r v.history b h e) h

      pointer_down-At :
          (id : ℕ) (p : Point R) (v : EditorView R)
          → At Q v
          → At Q (handle_pointer_down policy id p v)
      unfolding handle_pointer_down
      pointer_down-At id p v h =
          unless-At Q policy.compose_locked v _
            (λ _. elim (Bool-cases (length (put_pointer id p v.pointers) == 2)) [
              | inl e ↦ rw e h
              | inr e ↦ rw e h
            ])
            h

      drag_to-At :
          policy.compose_locked ≡ false
          → (from : Option (Point R)) (p : Point R) (shown : Rect R) (v : EditorView R) → At Q v
          → At Q (drag_to src out from p shown v)
      unfolding drag_to move_by
      drag_to-At free none p shown v h = h
      drag_to-At free (some from) p shown v h = compose-At free _ _ _ _ h

      pinch_to-At :
          policy.compose_locked ≡ false
          → (k : Pinch R) (v : EditorView R) → At Q v
          → At Q (pinch_to src out k v)
      unfolding pinch_to zoom_to
      pinch_to-At free k v h =
          elim (Bool-cases (n.lt nought (pointer_distance v.pointers) && n.lt nought k.distance)) [
            | inl e ↦ rw e (compose-At free _ _ _ v h)
            | inr e ↦ rw e h
          ]

      pinch_or_drag-At :
          policy.compose_locked ≡ false
          → (b : Bool) (k : Option (Pinch R)) (p : Point R) (shown : Rect R) (v : EditorView R)
          → At Q v
          → At Q (pinch_or_drag src out b k p shown v)
      unfolding pinch_or_drag
      pinch_or_drag-At free true (some k) p shown v h = pinch_to-At free k v h
      pinch_or_drag-At free true none p shown v h = drag_to-At free v.drag p shown v h
      pinch_or_drag-At free false k p shown v h = drag_to-At free v.drag p shown v h

      pointer_move-At :
          (id : ℕ) (p : Point R) (shown : Rect R) (v : EditorView R)
          → At Q v
          → At Q (handle_pointer_move src out policy id p shown v)
      unfolding handle_pointer_move
      pointer_move-At id p shown v h =
          unless-At Q policy.compose_locked v _
            (λ free. elim (Bool-cases (has_pointer id v.pointers)) [
              | inl e ↦ rw e (pinch_or_drag-At free _ v.pinch p shown _ h)
              | inr e ↦ rw e h
            ])
            h

      -- The keys that compose, where that is not locked, and the others.
      on_key-At :
          (k : KeyName) (m : Modifiers) (v : EditorView R)
          → (composes k ≡ true → policy.compose_locked ≡ false)
          → At Q v
          → At Q (on_key src out k m v)
      unfolding on_key move_by zoom_to composes
      on_key-At arrow_left m v free h = compose-At (free refl) _ _ _ v h
      on_key-At arrow_right m v free h = compose-At (free refl) _ _ _ v h
      on_key-At arrow_up m v free h = compose-At (free refl) _ _ _ v h
      on_key-At arrow_down m v free h = compose-At (free refl) _ _ _ v h
      on_key-At plus m v free h = compose-At (free refl) _ _ _ v h
      on_key-At equals m v free h = compose-At (free refl) _ _ _ v h
      on_key-At minus m v free h = compose-At (free refl) _ _ _ v h
      on_key-At key_z m v free h = elim (Bool-cases m.command) [
        | inr e ↦ rw e h
        | inl e ↦ elim (Bool-cases m.shift) [
          | inl e' ↦ rw (e, e') (closed.redone v h)
          | inr e' ↦ rw (e, e') (closed.undone v h)
        ]
      ]
      on_key-At key_y m v free h = elim (Bool-cases m.command) [
        | inl e ↦ rw e (closed.redone v h)
        | inr e ↦ rw e h
      ]
      on_key-At other m v free h = h

      key_down-At :
          (k : KeyName) (m : Modifiers) (v : EditorView R)
          → At Q v
          → At Q (handle_key_down src out policy k m v)
      unfolding handle_key_down
      key_down-At k m v h =
          unless-At Q (policy.compose_locked && composes k) v _
            (λ free. on_key-At k m v (λ e. ground arith) h) h

      -- Every event keeps such a property; of one that resets it has to be shown.
      pub step-At :
          (e : EditorEvent R) (v : EditorView R)
          → At Q v
          → (resets e ≡ true → At Q (step src out policy e v))
          → At Q (step src out policy e v)
      unfolding step reset resets move_by zoom_to rotate_90 toggle_flip
      step-At press_undo v h fresh = closed.undone v h
      step-At press_redo v h fresh = closed.redone v h
      step-At (press_reset true) v h fresh = h
      step-At (press_reset false) v h fresh = fresh refl
      step-At (rotate clockwise) v h fresh =
          unless-At Q policy.rotate_locked v _ (λ free. turn-At free _ _ v h) h
      step-At flip v h fresh = unless-At Q policy.mirror_locked v _ (λ free. flip-At free _ v h) h
      step-At (nudge_by x y) v h fresh =
          unless-At Q policy.compose_locked v _ (λ free. compose-At free _ _ _ v h) h
      step-At center v h fresh =
          unless-At Q policy.compose_locked v _ (λ free. compose-At free _ _ _ v h) h
      step-At (set_x x) v h fresh =
          unless-At Q policy.compose_locked v _ (λ free. compose-At free _ _ _ v h) h
      step-At (set_y y) v h fresh =
          unless-At Q policy.compose_locked v _ (λ free. compose-At free _ _ _ v h) h
      step-At (set_scale s) v h fresh =
          unless-At Q policy.compose_locked v _ (λ free. compose-At free _ _ _ v h) h
      step-At (slide_rotation deg) v h fresh =
          unless-At Q policy.rotate_locked v _ (λ free. turn-At free _ _ v h) h
      step-At (set_rotation deg) v h fresh =
          unless-At Q policy.rotate_locked v _ (λ free. turn-At free _ _ v h) h
      step-At (press_key k m) v h fresh = key_down-At k m v h
      step-At (pointer_down id p) v h fresh = pointer_down-At id p v h
      step-At (pointer_move id p shown) v h fresh = pointer_move-At id p shown v h
      step-At (pointer_up id) v h fresh = pointer_up-At Q id v h
