-- ===== src/Editor/Reproject.antt =====
-- frontend/src/editor/edit-transform.ts: the editor's state, and carrying it over to another template.
pub mod Laws
pub mod Origin
use portrait_booth.Base.{
  ℕ, Bool, true, false, not, ◌&&◌, Option, none, some, List, [], ◌∷◌, ◌++◌, if◌then◌else◌, ◌>>=◌,
}
use portrait_booth.Number.{Number}
use portrait_booth.Template.{Permission, Capabilities, TemplateRevision}
use portrait_booth.Image.Exif.{Rect}
use portrait_booth.Editor.OutputSize.{OutputSizeOption, whole, output_size}
use portrait_booth.Editor.Transform.{
  EditTransform, nought, max_scale, identity_transform, is_valid_transform,
}
use portrait_booth.Editor.Fit.{fit_transform}

pub record EditorHistory {ℓ} (R : Type ℓ) : Type ℓ where
  pub undo : List (EditTransform R)
  pub redo : List (EditTransform R)

pub record EditorState {ℓ} (R : Type ℓ) : Type ℓ where
  pub transform : EditTransform R
  pub history : EditorHistory R

pub data ReprojectNote : Type 0 where
  refit reset mirror_cleared rotation_cleared : ReprojectNote

-- `=== "forbidden"`.
unfoldable pub is_forbidden : Permission → Bool
is_forbidden Permission.forbidden = true
is_forbidden _ = false

abbrev pub map_all {ℓ κ} : {A : Type ℓ} {B : Type κ} → (A → Option B) → List A → Option (List B)
map_all f [] = some []
map_all f (x ∷ xs) = f x >>= λ y. map_all f xs >>= λ ys. some (y ∷ ys)

-- What the note list gains from the fit.
unfoldable pub refit_notes : Bool → List ReprojectNote
refit_notes true = []
refit_notes false = refit ∷ []

module _ {ℓ} {R : Type ℓ} ⦃n : Number R⦄ where
  abbrev pub rect_of : OutputSizeOption → Rect R
  rect_of s = record { width = whole s.width; height = whole s.height }

  unfoldable pub initial_editor_state : EditorState R
  unfolding identity_transform
  initial_editor_state = record {
    transform = identity_transform;
    history = record { undo = []; redo = [] };
  }

  unfoldable pub same_transform : EditTransform R → EditTransform R → Bool
  same_transform s t =
      n.eq s.translate_x t.translate_x
      && n.eq s.translate_y t.translate_y
      && n.eq s.scale t.scale
      && n.eq s.rotation_deg t.rotation_deg
      && (if s.flip_x then t.flip_x else not t.flip_x)

  unfoldable pub normalize : Capabilities → EditTransform R → EditTransform R
  unfolding is_forbidden
  normalize caps t = record t {
    flip_x = if is_forbidden caps.mirror then false else t.flip_x;
    rotation_deg = if is_forbidden caps.rotate then nought else t.rotation_deg;
  }

  -- The pipeline of a history entry.
  unfoldable pub project :
      Capabilities → Rect R → Option OutputSizeOption → EditTransform R → Option (EditTransform R)
  unfolding normalize
  project caps src none t = some (normalize caps t)
  project caps src (some out) t = do
    fitted ← fit_transform (normalize caps t) src (rect_of out) max_scale
    valid ← is_valid_transform fitted src (rect_of out)
    some (if valid then fitted else identity_transform)

  unfoldable pub cleared_notes : Capabilities → EditTransform R → List ReprojectNote
  unfolding is_forbidden
  cleared_notes caps t =
      (if t.flip_x && is_forbidden caps.mirror then mirror_cleared ∷ [] else [])
      ++ (if not (n.eq t.rotation_deg nought) && is_forbidden caps.rotate
          then rotation_cleared ∷ []
          else [])

  unfoldable pub keep_or_reset :
      EditTransform R → List ReprojectNote → Bool → EditTransform R × List ReprojectNote
  unfolding identity_transform
  keep_or_reset t notes true = (t, notes)
  keep_or_reset t notes false = (identity_transform, notes ++ (reset ∷ []))

  -- The current transform after the fit: the values before it where nothing changed.
  unfoldable pub settle :
      Capabilities
      → Rect R
      → Rect R
      → EditTransform R
      → EditTransform R
      → Option (EditTransform R × List ReprojectNote)
  unfolding same_transform normalize refit_notes cleared_notes keep_or_reset
  settle caps src out t fitted = do
    let start = normalize caps t
    let unchanged = same_transform fitted start
    let kept = if unchanged then start else fitted
    valid ← is_valid_transform kept src out
    some (keep_or_reset kept (cleared_notes caps t ++ refit_notes unchanged) valid)

  -- The current transform, with its notes.
  unfoldable pub reproject_transform :
      Capabilities
      → Rect R
      → Option OutputSizeOption
      → EditTransform R
      → Option (EditTransform R × List ReprojectNote)
  unfolding normalize cleared_notes settle
  reproject_transform caps src none t = some (normalize caps t, cleared_notes caps t)
  reproject_transform caps src (some out) t =
      fit_transform (normalize caps t) src (rect_of out) max_scale
      >>= settle caps src (rect_of out) t

  unfoldable pub reproject_history :
      (EditTransform R → Option (EditTransform R)) → EditorHistory R → Option (EditorHistory R)
  reproject_history f history = do
    undo ← map_all f history.undo
    redo ← map_all f history.redo
    some (record { undo = undo; redo = redo })

  unfoldable pub reproject_editor_state :
      EditorState R → Rect R → TemplateRevision R → Option (EditorState R × List ReprojectNote)
  unfolding reproject_transform project reproject_history
  reproject_editor_state state src rev = do
    current ← reproject_transform rev.capabilities src (output_size rev) state.transform
    history ← reproject_history (project rev.capabilities src (output_size rev)) state.history
    some (record { transform = current.0; history = history }, current.1)
