-- ===== src/Editor/Step/History.antt =====
-- frontend/src/editor/editor-step.tsx: the two stacks.
use portrait_booth.Base.{
  ℕ, ◌+◌, ◌≤◌, ◌≡◌, refl, ◌∙◌, sym, ap, ◌≢◌, inl, inr, true, false, some, List, [], ◌∷◌,
  if◌then◌else◌, split_last, split_last-append, split_last-some, take_last, length, length-append,
  length-take_last, Option-cases, Bool-cases, arith,
}
use portrait_booth.Number.{Number}
use portrait_booth.Image.Exif.{Rect}
use portrait_booth.Template.Policy.{EditorPolicy}
use portrait_booth.Editor.Transform.{EditTransform}
use portrait_booth.Editor.Reproject.{EditorHistory}
use portrait_booth.Editor.Step.{EditorView, push_undo, undo_to, undo, redo_to, redo, reset}
use portrait_booth.Editor.Step.Controls.{EditorEvent, press_reset, step, run}
use portrait_booth.Editor.Step.Closed.{At, IsClosed, resets, step-At}

module _ {ℓ} {A : Type ℓ} where
  split_last-ne_nil : (xs : List A) → xs ≢ [] → (p : List A × A) × (split_last xs ≡ some p)
  split_last-ne_nil [] h = absurd (h refl)
  split_last-ne_nil (x ∷ xs) h = (_, refl)

module _ {ℓ} {R : Type ℓ} where
  redo-undo : (v : EditorView R) → v.history.undo ≢ [] → redo (undo v) ≡ v
  unfolding undo undo_to redo redo_to
  redo-undo v h =
      let (last, e) = split_last-ne_nil v.history.undo h in
      let whole = sym (split_last-some v.history.undo last.0 last.1 e) in
      rw (e, split_last-append v.history.redo v.transform)
        (λ i. record v { history = record v.history { undo = whole i } })

  undo-redo : (v : EditorView R) → v.history.redo ≢ [] → undo (redo v) ≡ v
  unfolding undo undo_to redo redo_to
  undo-redo v h =
      let (last, e) = split_last-ne_nil v.history.redo h in
      let whole = sym (split_last-some v.history.redo last.0 last.1 e) in
      rw (e, split_last-append v.history.undo v.transform)
        (λ i. record v { history = record v.history { redo = whole i } })

  -- Undo and redo take each other back, the whole state included, where there is something to undo or
  -- to redo, and otherwise change nothing.
  pub undo_redo :
      (v : EditorView R)
      → (v.history.undo ≢ [] → redo (undo v) ≡ v)
        × (v.history.redo ≢ [] → undo (redo v) ≡ v)
        × (v.history.undo ≡ [] → undo v ≡ v)
        × (v.history.redo ≡ [] → redo v ≡ v)
  unfolding undo undo_to redo redo_to
  undo_redo v =
      (redo-undo v, undo-redo v, λ e. rw (ap split_last e) refl, λ e. rw (ap split_last e) refl)

  -- The transforms that are kept, to undo and to redo.
  abbrev pub kept : EditorHistory R → ℕ
  kept h = length h.undo + length h.redo

  length-split_last :
      (xs ys : List (EditTransform R)) (y : EditTransform R)
      → split_last xs ≡ some (ys, y)
      → length xs ≡ length ys + 1
  length-split_last xs ys y e = ap length (split_last-some xs ys y e) ∙ length-append ys (y ∷ [])

  -- Undoing and redoing move one transform from one stack to the other.
  kept-undo : (v : EditorView R) → kept (undo v).history ≡ kept v.history
  unfolding undo undo_to
  kept-undo v = elim (Option-cases (split_last v.history.undo)) [
    | inl e ↦ rw e refl
    | inr (last, e) ↦ rw e (
        omega (
          arith,
          length-split_last v.history.undo last.0 last.1 e,
          length-append v.history.redo (v.transform ∷ []),
        ))
  ]

  kept-redo : (v : EditorView R) → kept (redo v).history ≡ kept v.history
  unfolding redo redo_to
  kept-redo v = elim (Option-cases (split_last v.history.redo)) [
    | inl e ↦ rw e refl
    | inr (last, e) ↦ rw e (
        omega (
          arith,
          length-split_last v.history.redo last.0 last.1 e,
          length-append v.history.undo (v.transform ∷ []),
        ))
  ]

  kept-push_undo : (t : EditTransform R) (h : EditorHistory R) → kept (push_undo t h) ≤ 50
  unfolding push_undo
  kept-push_undo t h =
      omega (arith, length-take_last 49 h.undo, length-append (take_last 49 h.undo) (t ∷ []))

  -- How many times the view is reset.
  abbrev pub reset_count : List (EditorEvent R) → ℕ
  reset_count [] = 0
  reset_count (e ∷ es) = (if resets e then 1 else 0) + reset_count es

module _ {ℓ} {R : Type ℓ} ⦃n : Number R⦄ where
  kept-reset : (v : EditorView R) → kept (reset false v).history ≤ kept v.history + 1
  unfolding reset
  kept-reset v = omega (arith, length-append v.history.undo (v.transform ∷ []))

  module _ (src out : Rect R) (policy : EditorPolicy) where
    -- At most `k` more than the limit are kept.
    abbrev Bounded : ℕ → EditTransform R → EditorHistory R → Type 0
    Bounded k t h = kept h ≤ 50 + k

    Bounded-IsClosed : (k : ℕ) → IsClosed src out policy (Bounded k)
    Bounded-IsClosed k = record {
      undone = λ v h. omega (arith, kept-undo v);
      redone = λ v h. omega (arith, kept-redo v);
      composed = λ free t r h x y s p e. omega (arith, kept-push_undo t h);
      turned = λ free t r h a s p e. omega (arith, kept-push_undo t h);
      mirrored = λ free t r h b p e. omega (arith, kept-push_undo t h);
    }

    reset-Bounded :
        (k : ℕ) (e : EditorEvent R) (v : EditorView R)
        → resets e ≡ true
        → At (Bounded k) v
        → At (Bounded (k + 1)) (step src out policy e v)
    unfolding resets step
    reset-Bounded k (press_reset false) v e h = omega (arith, kept-reset v)
    reset-Bounded k _ v e h = cc

    step-Bounded :
        (k : ℕ) (e : EditorEvent R) (v : EditorView R)
        → At (Bounded k) v
        → At (Bounded (k + (if resets e then 1 else 0))) (step src out policy e v)
    step-Bounded k e v h = elim (Bool-cases (resets e)) [
      | inl yes' ↦ rw yes' (reset-Bounded k e v yes' h)
      | inr no' ↦
          rw no'
            (let r = step-At src out (Bounded-IsClosed k) e v h (λ yes'. cc) in omega (arith, r))
    ]

    run-Bounded :
        (k : ℕ) (es : List (EditorEvent R)) (v : EditorView R)
        → At (Bounded k) v
        → kept (run src out policy es v).history ≤ 50 + (k + reset_count es)
    unfolding run
    run-Bounded k [] v h = omega arith
    run-Bounded k (e ∷ es) v h =
        let here = k + (if resets e then 1 else 0) in
        omega (arith, run-Bounded here es (step src out policy e v) (step-Bounded k e v h))

    -- If the history holds no more than 50 transforms, to undo and to redo, it holds after any events no
    -- more than 50 and one for each reset of a view that does not show the initial transform.
    pub kept-run :
        (es : List (EditorEvent R)) (v : EditorView R)
        → kept v.history ≤ 50
        → kept (run src out policy es v).history ≤ 50 + reset_count es
    kept-run es v h = omega (arith, run-Bounded 0 es v (omega arith))
