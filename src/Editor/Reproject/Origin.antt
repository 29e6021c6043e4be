-- ===== src/Editor/Reproject/Origin.antt =====
-- frontend/src/editor/edit-transform.ts, `reprojectEditorState`: which old transform each new one comes from.
use mathlib.Core.Option.{some-injective}
use portrait_booth.Base.{
  ◌≡◌, refl, sym, ap, subst, ◌∙◌, ◌⊎◌, inl, inr, Bool, true, false, Option, some, none, List, [],
  ◌∷◌, ◌++◌, if◌then◌else◌, ◌>>=◌, >>=-eq-some,
}
use portrait_booth.Number.{Number}
use portrait_booth.Template.{Capabilities, TemplateRevision}
use portrait_booth.Image.Exif.{Rect}
use portrait_booth.Editor.OutputSize.{OutputSizeOption, output_size}
use portrait_booth.Editor.Transform.{
  EditTransform, identity_transform, is_valid_transform, max_scale,
}
use portrait_booth.Editor.Fit.{centered, fit_transform, clamp_translation, min_scale_for_rotation}
use portrait_booth.Editor.Reproject.{
  EditorHistory, EditorState, ReprojectNote, map_all, rect_of, same_transform, normalize, project,
  cleared_notes, refit_notes, keep_or_reset, settle, reproject_transform, reproject_history,
  reproject_editor_state,
}

-- Two lists of one length, with P of the members at each place.
pub data Pairwise {ℓ κ} {A B : Type ℓ} (P : A → B → Type κ) : List A → List B → Type (ℓ ⊔ κ) where
  none_left : Pairwise P [] []
  pair :
      {x : A} {y : B} {xs : List A} {ys : List B}
      → P x y
      → Pairwise P xs ys
      → Pairwise P (x ∷ xs) (y ∷ ys)

map_all-Pairwise {ℓ κ} :
    {A B : Type ℓ} (P : A → B → Type κ) (f : A → Option B) (xs : List A) (ys : List B)
    → ((x : A) (y : B) → f x ≡ some y → P x y)
    → map_all f xs ≡ some ys
    → Pairwise P xs ys
map_all-Pairwise P f [] ys each h = subst (Pairwise P []) (some-injective _ _ h) none_left
map_all-Pairwise P f (x ∷ xs) ys each h =
    let (y, first, rest) = >>=-eq-some (f x) (λ y. map_all f xs >>= λ ys. some (y ∷ ys)) h in
    let (zs, tail, e) = >>=-eq-some (map_all f xs) (λ ys. some (y ∷ ys)) rest in
    subst (Pairwise P (x ∷ xs)) (some-injective _ _ e)
      (pair (each x y first) (map_all-Pairwise P f xs zs each tail))

module _ {ℓ} {R : Type ℓ} ⦃n : Number R⦄ where
  -- Valid where it is, and in the center at its scale.
  abbrev pub IsSettled : Rect R → Rect R → EditTransform R → Type 0
  IsSettled src out t =
      (is_valid_transform (centered t t.scale) src out ≡ some true)
      × (is_valid_transform t src out ≡ some true)

  -- Such a transform is left as it is.
  fit_transform-settled :
      (t : EditTransform R) (src out : Rect R) (limit : R)
      → IsSettled src out t
      → fit_transform t src out limit ≡ some t
  unfolding fit_transform min_scale_for_rotation clamp_translation
  fit_transform-settled t src out limit (center, valid) = rw (center, valid) refl

  -- `fitted` or, where it is equal by the numbers' equality, the transform before the fit.
  abbrev pub IsFitted : EditTransform R → EditTransform R → EditTransform R → Type ℓ
  IsFitted start fitted kept =
      (kept ≡ fitted) ⊎ ((same_transform fitted start ≡ true) × (kept ≡ start))

  -- `r` is `t` without the flip and the angle that the template forbids. Where the template has a size, this
  -- is fitted to it; the identity stands for it only if the result is not valid; and what is settled at the
  -- size is not moved.
  abbrev pub IsFrom :
      Capabilities → Rect R → Option OutputSizeOption → EditTransform R → EditTransform R → Type ℓ
  IsFrom caps src none t r = r ≡ normalize caps t
  IsFrom caps src (some out) t r =
      ((fitted : EditTransform R) × (kept : EditTransform R) × (fit_transform (normalize caps t) src
            (rect_of out) max_scale
          ≡ some fitted)
        × IsFitted (normalize caps t) fitted kept
        × (((is_valid_transform kept src (rect_of out) ≡ some true) × (r ≡ kept))
            ⊎ ((is_valid_transform kept src (rect_of out) ≡ some false)
                × (r ≡ identity_transform))))
      × (IsSettled src (rect_of out) (normalize caps t) → r ≡ normalize caps t)

  -- The last step of both pipelines.
  fitted-IsFrom :
      (caps : Capabilities) (src : Rect R) (out : OutputSizeOption)
      (t fitted kept : EditTransform R) (valid : Bool)
      → fit_transform (normalize caps t) src (rect_of out) max_scale ≡ some fitted
      → IsFitted (normalize caps t) fitted kept
      → is_valid_transform kept src (rect_of out) ≡ some valid
      → IsFrom caps src (some out) t (if valid then kept else identity_transform)
  fitted-IsFrom caps src out t fitted kept valid fit is_fit seen = (
    (fitted, kept, fit, is_fit, choice valid seen),
    λ settled.
        let start = normalize caps t in
        let same : fitted ≡ start =
          some-injective _ _
            (sym fit ∙ fit_transform-settled start src (rect_of out) max_scale settled) in
        let still : kept ≡ start = elim is_fit [ inl e ↦ e ∙ same | inr (_, e) ↦ e ] in
        let yes' : valid ≡ true =
          some-injective _ _
            (sym seen ∙ ap (λ k. is_valid_transform k src (rect_of out)) still ∙ settled.1) in
        rw yes' still,
  )
    where
      choice :
          (valid : Bool)
          → is_valid_transform kept src (rect_of out) ≡ some valid
          → ((is_valid_transform kept src (rect_of out) ≡ some true)
              × ((if valid then kept else identity_transform) ≡ kept))
            ⊎ ((is_valid_transform kept src (rect_of out) ≡ some false)
                × ((if valid then kept else identity_transform) ≡ identity_transform))
      choice true e = inl (e, refl)
      choice false e = inr (e, refl)

  project-IsFrom :
      (caps : Capabilities) (src : Rect R) (out : Option OutputSizeOption) (t r : EditTransform R)
      → project caps src out t ≡ some r
      → IsFrom caps src out t r
  unfolding project
  project-IsFrom caps src none t r h = sym (some-injective _ _ h)
  project-IsFrom caps src (some out) t r h =
      let (fitted, fit, rest) =
        >>=-eq-some (fit_transform (normalize caps t) src (rect_of out) max_scale)
          (λ fitted. is_valid_transform fitted src (rect_of out) >>= λ valid.
            some (if valid then fitted else identity_transform))
          h in
      let (valid, seen, e) =
        >>=-eq-some (is_valid_transform fitted src (rect_of out))
          (λ valid. some (if valid then fitted else identity_transform)) rest in
      subst (IsFrom caps src (some out) t) (some-injective _ _ e)
        (fitted-IsFrom caps src out t fitted fitted valid fit (inl refl) seen)

  keep_or_reset-if :
      (t : EditTransform R) (notes : List ReprojectNote) (valid : Bool)
      → (keep_or_reset t notes valid).0 ≡ (if valid then t else identity_transform)
  unfolding keep_or_reset
  keep_or_reset-if t notes true = refl
  keep_or_reset-if t notes false = refl

  choose-IsFitted :
      (start fitted : EditTransform R) (b : Bool)
      → same_transform fitted start ≡ b
      → IsFitted start fitted (if b then start else fitted)
  choose-IsFitted start fitted true e = inr (e, refl)
  choose-IsFitted start fitted false e = inl refl

  reproject_transform-IsFrom :
      (caps : Capabilities) (src : Rect R) (out : Option OutputSizeOption) (t : EditTransform R)
      (r : EditTransform R × List ReprojectNote)
      → reproject_transform caps src out t ≡ some r
      → IsFrom caps src out t r.0
  unfolding reproject_transform settle
  reproject_transform-IsFrom caps src none t r h = ap (λ q. q.0) (sym (some-injective _ _ h))
  reproject_transform-IsFrom caps src (some out) t r h =
      let start = normalize caps t in
      let (fitted, fit, rest) =
        >>=-eq-some (fit_transform start src (rect_of out) max_scale)
          (settle caps src (rect_of out) t) h in
      let unchanged = same_transform fitted start in
      let kept = if unchanged then start else fitted in
      let notes = cleared_notes caps t ++ refit_notes unchanged in
      let (valid, seen, e) =
        >>=-eq-some (is_valid_transform kept src (rect_of out))
          (λ valid. some (keep_or_reset kept notes valid)) rest in
      subst (λ q. IsFrom caps src (some out) t q.0) (some-injective _ _ e)
        (subst (IsFrom caps src (some out) t) (sym (keep_or_reset-if kept notes valid)) (
          fitted-IsFrom caps src out t fitted kept valid fit
            (choose-IsFitted start fitted unchanged refl) seen))

  -- The transform and both stacks, each new one from the old one in its place.
  pub reproject_editor_state-IsFrom :
      (state : EditorState R) (src : Rect R) (rev : TemplateRevision R)
      (r : EditorState R × List ReprojectNote)
      → reproject_editor_state state src rev ≡ some r
      → let from = IsFrom rev.capabilities src (output_size rev) in
        from state.transform r.0.transform
        × Pairwise from state.history.undo r.0.history.undo
        × Pairwise from state.history.redo r.0.history.redo
  unfolding reproject_editor_state reproject_history
  reproject_editor_state-IsFrom state src rev r h =
      let out = output_size rev in
      let caps = rev.capabilities in
      let each = project caps src out in
      let (current, first, rest) =
        >>=-eq-some (reproject_transform caps src out state.transform)
          (λ current. reproject_history each state.history >>= λ history.
            some (record { transform = current.0; history = history }, current.1))
          h in
      let (history, second, e) =
        >>=-eq-some (reproject_history each state.history)
          (λ history. some (record { transform = current.0; history = history }, current.1)) rest in
      let (us, left, rest') =
        >>=-eq-some (map_all each state.history.undo)
          (λ us. map_all each state.history.redo >>= λ rs. some (record { undo = us; redo = rs }))
          second in
      let (rs, right, e') =
        >>=-eq-some (map_all each state.history.redo) (λ rs. some (record { undo = us; redo = rs }))
          rest' in
      let made : (
        record { transform = current.0; history = record { undo = us; redo = rs } },
        current.1,
      )
          ≡ r =
        ap (λ (g : EditorHistory R). (record { transform = current.0; history = g }, current.1))
          (some-injective _ _ e')
        ∙ some-injective _ _ e in
      subst
        (λ q.
          IsFrom caps src out state.transform q.0.transform
          × Pairwise (IsFrom caps src out) state.history.undo q.0.history.undo
          × Pairwise (IsFrom caps src out) state.history.redo q.0.history.redo)
        made
        (
          reproject_transform-IsFrom caps src out state.transform current first,
          map_all-Pairwise _ each state.history.undo us (project-IsFrom caps src out) left,
          map_all-Pairwise _ each state.history.redo rs (project-IsFrom caps src out) right,
        )
