-- ===== src/Editor/Reproject/Laws.antt =====
-- frontend/src/editor/edit-transform.ts, `reprojectEditorState`: what is left of the state.
use mathlib.Core.Option.{some-injective}
use portrait_booth.Base.{
  suc, ◌≡◌, refl, ◌∙◌, ap, subst, ◌⊎◌, inl, inr, Bool, true, false, Option, none, some, List, [],
  ◌∷◌, ◌++◌, if◌then◌else◌, ◌>>=◌, >>=-eq-some, length, All,
}
use portrait_booth.Number.{Number}
use portrait_booth.Template.{Capabilities, TemplateRevision}
use portrait_booth.Image.Exif.{Rect}
use portrait_booth.Editor.OutputSize.{OutputSizeOption, output_size}
use portrait_booth.Editor.Transform.{
  EditTransform, identity_transform, is_valid_transform, max_scale, nought,
}
use portrait_booth.Editor.Fit.{
  fit_transform, clamp_translation, min_scale_for_rotation, with_scale_of,
}
use portrait_booth.Editor.Fit.Laws.{SameShape, clamp_translation-shape}
use portrait_booth.Editor.Reproject.{
  EditorHistory, EditorState, ReprojectNote, is_forbidden, map_all, rect_of, same_transform,
  normalize, project, cleared_notes, refit_notes, keep_or_reset, settle, reproject_transform,
  reproject_history, reproject_editor_state,
}

module _ {ℓ κ} {A : Type ℓ} {B : Type κ} (f : A → Option B) where
  length-map_all : (xs : List A) (ys : List B) → map_all f xs ≡ some ys → length ys ≡ length xs
  length-map_all [] ys h = rw (← some-injective _ _ h) refl
  length-map_all (x ∷ xs) ys h =
      let (y, _, rest) = >>=-eq-some (f x) (λ y. map_all f xs >>= λ ys. some (y ∷ ys)) h in
      let (zs, tail, e) = >>=-eq-some (map_all f xs) (λ ys. some (y ∷ ys)) rest in
      rw (← some-injective _ _ e) (ap suc (length-map_all xs zs tail))

  All-map_all {ι} :
      (P : B → Type ι) (xs : List A) (ys : List B)
      → ((x : A) (y : B) → f x ≡ some y → P y)
      → map_all f xs ≡ some ys
      → All P ys
  All-map_all P [] ys each h = rw (← some-injective _ _ h) tt
  All-map_all P (x ∷ xs) ys each h =
      let (y, first, rest) = >>=-eq-some (f x) (λ y. map_all f xs >>= λ ys. some (y ∷ ys)) h in
      let (zs, tail, e) = >>=-eq-some (map_all f xs) (λ ys. some (y ∷ ys)) rest in
      rw (← some-injective _ _ e) (each x y first, All-map_all P xs zs each tail)

module _ {ℓ} {R : Type ℓ} ⦃n : Number R⦄ where
  -- Fitting keeps rotation and flip.
  pub fit_transform-shape :
      (t r : EditTransform R) (src out : Rect R) (limit : R)
      → fit_transform t src out limit ≡ some r
      → (r.rotation_deg ≡ t.rotation_deg) × (r.flip_x ≡ t.flip_x)
  unfolding fit_transform
  fit_transform-shape t r src out limit h =
      let (o, _, rest) =
        >>=-eq-some (min_scale_for_rotation t src out limit)
          (λ o. clamp_translation (with_scale_of t o) src out) h in
      same_shape t r o (clamp_translation-shape src out (with_scale_of t o) r rest)
    where
      same_shape :
          (t r : EditTransform R) (o : Option R)
          → SameShape src out r (with_scale_of t o)
          → (r.rotation_deg ≡ t.rotation_deg) × (r.flip_x ≡ t.flip_x)
      same_shape t r none h = (h.1, h.2)
      same_shape t r (some s) h = (h.1, h.2)

  -- What the capabilities of a template allow: no flip where mirroring is forbidden, and no angle where
  -- rotation is.
  pub record IsAllowed (caps : Capabilities) (t : EditTransform R) : Type ℓ where
    pub unflipped : is_forbidden caps.mirror ≡ true → t.flip_x ≡ false
    pub unrotated : is_forbidden caps.rotate ≡ true → t.rotation_deg ≡ nought

  normalize-IsAllowed :
      (caps : Capabilities) (t : EditTransform R) → IsAllowed caps (normalize caps t)
  unfolding normalize
  normalize-IsAllowed caps t = record { unflipped = λ h. rw h refl; unrotated = λ h. rw h refl }

  pub identity-IsAllowed : (caps : Capabilities) → IsAllowed caps identity_transform
  unfolding identity_transform
  identity-IsAllowed caps = record { unflipped = λ h. refl; unrotated = λ h. refl }

  pub IsAllowed-shape :
      (caps : Capabilities) (t r : EditTransform R)
      → IsAllowed caps t
      → (r.rotation_deg ≡ t.rotation_deg) × (r.flip_x ≡ t.flip_x)
      → IsAllowed caps r
  IsAllowed-shape caps t r h (rotation, flip) = record {
    unflipped = λ e. flip ∙ h.unflipped e;
    unrotated = λ e. rotation ∙ h.unrotated e;
  }

  -- A transform that the new template can render: its corners are inside the source, or it is the
  -- identity. A template without an output size renders nothing.
  abbrev pub IsRenderable : Rect R → Option OutputSizeOption → EditTransform R → Type ℓ
  IsRenderable src none t = Unit
  IsRenderable src (some out) t =
      (is_valid_transform t src (rect_of out) ≡ some true) ⊎ (t ≡ identity_transform)

  abbrev pub IsCarried : Capabilities → Rect R → Option OutputSizeOption → EditTransform R → Type ℓ
  IsCarried caps src out t = IsAllowed caps t × IsRenderable src out t

  -- The last step of both pipelines: a transform that is not valid gives way to the identity.
  checked :
      (caps : Capabilities) (src : Rect R) (out : OutputSizeOption) (t : EditTransform R)
      (valid : Bool)
      → is_valid_transform t src (rect_of out) ≡ some valid
      → IsAllowed caps t
      → IsCarried caps src (some out) (if valid then t else identity_transform)
  checked caps src out t true seen allowed = (allowed, inl seen)
  checked caps src out t false seen allowed = (identity-IsAllowed caps, inr refl)

  project-IsCarried :
      (caps : Capabilities) (src : Rect R) (out : Option OutputSizeOption) (t r : EditTransform R)
      → project caps src out t ≡ some r
      → IsCarried caps src out r
  unfolding project
  project-IsCarried caps src none t r h =
      rw (← some-injective _ _ h) (normalize-IsAllowed caps t, tt)
  project-IsCarried caps src (some out) t r h =
      let start = normalize caps t in
      let (fitted, fit, rest) =
        >>=-eq-some (fit_transform start src (rect_of out) max_scale)
          (λ fitted. is_valid_transform fitted src (rect_of out) >>= λ valid.
            some (if valid then fitted else identity_transform))
          h in
      let (valid, seen, e) =
        >>=-eq-some (is_valid_transform fitted src (rect_of out))
          (λ valid. some (if valid then fitted else identity_transform)) rest in
      rw (← some-injective _ _ e) (
        checked caps src out fitted valid seen (
          IsAllowed-shape caps start fitted (normalize-IsAllowed caps t)
            (fit_transform-shape start fitted src (rect_of out) max_scale fit)))

  choose-IsAllowed :
      (caps : Capabilities) (s t : EditTransform R) (b : Bool)
      → IsAllowed caps s
      → IsAllowed caps t
      → IsAllowed caps (if b then s else t)
  choose-IsAllowed caps s t true hs ht = hs
  choose-IsAllowed caps s t false hs ht = ht

  keep_or_reset-IsCarried :
      (caps : Capabilities) (src : Rect R) (out : OutputSizeOption) (t : EditTransform R)
      (notes : List ReprojectNote) (valid : Bool)
      → is_valid_transform t src (rect_of out) ≡ some valid
      → IsAllowed caps t
      → IsCarried caps src (some out) (keep_or_reset t notes valid).0
  unfolding keep_or_reset
  keep_or_reset-IsCarried caps src out t notes true seen allowed = (allowed, inl seen)
  keep_or_reset-IsCarried caps src out t notes false seen allowed =
      (identity-IsAllowed caps, inr refl)

  settle-IsCarried :
      (caps : Capabilities) (src : Rect R) (out : OutputSizeOption) (t fitted : EditTransform R)
      (r : EditTransform R × List ReprojectNote)
      → IsAllowed caps fitted
      → settle caps src (rect_of out) t fitted ≡ some r
      → IsCarried caps src (some out) r.0
  unfolding settle
  settle-IsCarried caps src out t fitted r allowed h =
      let start = normalize caps t in
      let unchanged = same_transform fitted start in
      let kept = if unchanged then start else fitted in
      let notes = cleared_notes caps t ++ refit_notes unchanged in
      let (valid, seen, e) =
        >>=-eq-some (is_valid_transform kept src (rect_of out))
          (λ valid. some (keep_or_reset kept notes valid)) h in
      subst (λ q. IsCarried caps src (some out) q.0) (some-injective _ _ e)
        (keep_or_reset-IsCarried caps src out kept notes valid seen
          (choose-IsAllowed caps start fitted unchanged (normalize-IsAllowed caps t) allowed))

  reproject_transform-IsCarried :
      (caps : Capabilities) (src : Rect R) (out : Option OutputSizeOption) (t : EditTransform R)
      (r : EditTransform R × List ReprojectNote)
      → reproject_transform caps src out t ≡ some r
      → IsCarried caps src out r.0
  unfolding reproject_transform
  reproject_transform-IsCarried caps src none t r h =
      subst (λ q. IsCarried caps src none q.0) (some-injective _ _ h)
        (normalize-IsAllowed caps t, tt)
  reproject_transform-IsCarried caps src (some out) t r h =
      let start = normalize caps t in
      let (fitted, fit, rest) =
        >>=-eq-some (fit_transform start src (rect_of out) max_scale)
          (settle caps src (rect_of out) t) h in
      settle-IsCarried caps src out t fitted r
        (IsAllowed-shape caps start fitted (normalize-IsAllowed caps t)
          (fit_transform-shape start fitted src (rect_of out) max_scale fit))
        rest

  -- Two stacks of the lengths of the old ones, every entry with P.
  abbrev pub IsKept : (EditTransform R → Type ℓ) → EditorHistory R → EditorHistory R → Type ℓ
  IsKept P old new =
      (length new.undo ≡ length old.undo)
      × (length new.redo ≡ length old.redo)
      × All P new.undo
      × All P new.redo

  reproject_history-IsKept :
      (f : EditTransform R → Option (EditTransform R)) (P : EditTransform R → Type ℓ)
      (old new : EditorHistory R)
      → ((t r : EditTransform R) → f t ≡ some r → P r)
      → reproject_history f old ≡ some new
      → IsKept P old new
  unfolding reproject_history
  reproject_history-IsKept f P old new each h =
      let (us, left, rest) =
        >>=-eq-some (map_all f old.undo)
          (λ us. map_all f old.redo >>= λ rs. some (record { undo = us; redo = rs })) h in
      let (rs, right, e) =
        >>=-eq-some (map_all f old.redo) (λ rs. some (record { undo = us; redo = rs })) rest in
      subst (IsKept P old) (some-injective _ _ e) (
        length-map_all f old.undo us left,
        length-map_all f old.redo rs right,
        All-map_all f P old.undo us each left,
        All-map_all f P old.redo rs each right,
      )

  -- When the switch to another template succeeds, both stacks of the history have their lengths, and
  -- the transform and every entry of the history is unflipped where the new template forbids
  -- mirroring, unrotated where it forbids rotation, and, where the template has an output size, valid
  -- at that size or the identity.
  pub reproject_editor_state-IsCarried :
      (state : EditorState R) (src : Rect R) (rev : TemplateRevision R)
      (r : EditorState R × List ReprojectNote)
      → reproject_editor_state state src rev ≡ some r
      → IsCarried rev.capabilities src (output_size rev) r.0.transform
        × IsKept (IsCarried rev.capabilities src (output_size rev)) state.history r.0.history
  unfolding reproject_editor_state
  reproject_editor_state-IsCarried state src rev r h =
      let out = output_size rev in
      let caps = rev.capabilities in
      let (current, first, rest) =
        >>=-eq-some (reproject_transform caps src out state.transform)
          (λ current. reproject_history (project caps src out) state.history >>= λ history.
            some (record { transform = current.0; history = history }, current.1))
          h in
      let (history, second, e) =
        >>=-eq-some (reproject_history (project caps src out) state.history)
          (λ history. some (record { transform = current.0; history = history }, current.1)) rest in
      subst
        (λ q.
          IsCarried caps src out q.0.transform
          × IsKept (IsCarried caps src out) state.history q.0.history)
        (some-injective _ _ e)
        (
          reproject_transform-IsCarried caps src out state.transform current first,
          reproject_history-IsKept (project caps src out) (IsCarried caps src out) state.history
              history (project-IsCarried caps src out) second,
        )
