-- ===== src/Editor/Step.antt =====
-- frontend/src/editor/editor-step.tsx: the editor's own state, its callbacks and what they leave.
-- An event is handled when the state of the one before it is settled, so the reference to the transform
-- holds the transform shown. Objects are compared by the browser: `reset` is told the result.
pub mod Controls
pub mod Closed
pub mod Everywhere
pub mod Allowed
pub mod History
pub mod Stale
mod Tests
use portrait_booth.Base.{
  ℕ, Bool, true, false, not, ◌-◌, Option, none, some, List, [], ◌∷◌, ◌++◌, if◌then◌else◌, ◌>>=◌,
  split_last, take_last,
}
use portrait_booth.Number.{Number, ◌⊕◌, ◌⊖◌, ◌⊗◌, number_ring}
use portrait_booth.Image.Exif.{Rect, Point}
use portrait_booth.Template.Policy.{EditorPolicy}
use portrait_booth.Editor.Transform.{
  EditTransform, nought, one, max_scale, identity_transform, normalize_rotation_deg, cover_scale,
  is_valid_transform,
}
use portrait_booth.Editor.Fit.{fit_transform}
use portrait_booth.Editor.Reproject.{EditorHistory, EditorState, initial_editor_state}

-- `pinchRef`: the distance of the two fingers and the scale when the second one came down.
pub record Pinch {ℓ} (R : Type ℓ) : Type ℓ where
  pub distance : R
  pub scale : R

-- The state of the component with its references; the pointers are in the order of the map's keys.
pub record EditorView {ℓ} (R : Type ℓ) : Type ℓ where
  pub transform : EditTransform R
  pub history : EditorHistory R
  pub auto_scaled : Bool
  pub out_of_bounds : Bool
  pub pointers : List (ℕ × Point R)
  pub drag : Option (Point R)
  pub pinch : Option (Pinch R)

abbrev pub undo_limit : ℕ
undo_limit = 50

-- What `apply` pushes: the transform on the last 49 entries, and nothing to redo.
unfoldable pub push_undo {ℓ} : {R : Type ℓ} → EditTransform R → EditorHistory R → EditorHistory R
push_undo t h = record { undo = take_last (undo_limit - 1) h.undo ++ (t ∷ []); redo = [] }

unfoldable pub undo_to {ℓ} :
    {R : Type ℓ} → EditorView R → Option (List (EditTransform R) × EditTransform R) → EditorView R
undo_to v none = v
undo_to v (some last) = record v {
  transform = last.1;
  history = record { undo = last.0; redo = v.history.redo ++ (v.transform ∷ []) };
}

unfoldable pub undo {ℓ} : {R : Type ℓ} → EditorView R → EditorView R
unfolding undo_to
undo v = undo_to v (split_last v.history.undo)

unfoldable pub redo_to {ℓ} :
    {R : Type ℓ} → EditorView R → Option (List (EditTransform R) × EditTransform R) → EditorView R
redo_to v none = v
redo_to v (some last) = record v {
  transform = last.1;
  history = record { undo = v.history.undo ++ (v.transform ∷ []); redo = last.0 };
}

unfoldable pub redo {ℓ} : {R : Type ℓ} → EditorView R → EditorView R
unfolding redo_to
redo v = redo_to v (split_last v.history.redo)

-- What the "Next" button hands over; it is disabled where the crop frame is out of bounds.
unfoldable pub done_state {ℓ} : {R : Type ℓ} → EditorView R → Option (EditorState R)
done_state v =
    if v.out_of_bounds then none else some (record { transform = v.transform; history = v.history })

-- What the "Back" button hands over.
unfoldable pub back_state {ℓ} : {R : Type ℓ} → EditorView R → EditorState R
back_state v = record { transform = v.transform; history = v.history }

module _ {ℓ} {R : Type ℓ} ⦃n : Number R⦄ where
  -- `cur === IDENTITY_TRANSFORM` is the argument.
  unfoldable pub reset : Bool → EditorView R → EditorView R
  unfolding identity_transform
  reset true v = v
  reset false v = record v {
    transform = identity_transform;
    history = record { undo = v.history.undo ++ (v.transform ∷ []); redo = [] };
  }

  module _ (src out : Rect R) where
    -- The end of `apply`; `none` is an exception of the test.
    unfoldable pub commit : EditTransform R → EditorView R → Option Bool → EditorView R
    unfolding push_undo
    commit fitted v none = v
    commit fitted v (some valid) = record v {
      transform = fitted;
      history = push_undo v.transform v.history;
      out_of_bounds = not valid;
    }

    unfoldable pub apply_fitted :
        EditTransform R → EditorView R → Option (EditTransform R) → EditorView R
    unfolding commit
    apply_fitted next v none = v
    apply_fitted next v (some fitted) =
        commit fitted (record v { auto_scaled = n.lt (next.scale ⊕ n.lit 1 6) fitted.scale })
          (is_valid_transform fitted src out)

    unfoldable pub apply : EditTransform R → EditorView R → EditorView R
    unfolding apply_fitted
    apply next v = apply_fitted next v (fit_transform next src out max_scale)

    unfoldable pub rotate_90 : EditorPolicy → Bool → EditorView R → EditorView R
    unfolding apply normalize_rotation_deg cover_scale
    rotate_90 policy clockwise v =
        let t = v.transform in
        let turn = if clockwise then n.lit 90 0 else n.ring.neg (n.lit 90 0) in
        let old = cover_scale src out in
        let new = cover_scale (record { width = src.height; height = src.width }) out in
        if policy.rotate_locked
        then v
        else apply
            (record t {
              rotation_deg = normalize_rotation_deg (t.rotation_deg ⊕ turn);
              scale = t.scale ⊗ n.max one (n.div new old);
            })
            v

    unfoldable pub toggle_flip : EditorPolicy → EditorView R → EditorView R
    unfolding apply
    toggle_flip policy v =
        if policy.mirror_locked
        then v
        else apply (record v.transform { flip_x = not v.transform.flip_x }) v

    -- The transform on mounting: under a composition lock that of the state before, fitted anew.
    unfoldable pub mount_transform : Bool → Option (EditorState R) → Option (EditTransform R)
    unfolding identity_transform
    mount_transform locked none = some identity_transform
    mount_transform false (some state) = some state.transform
    mount_transform true (some state) =
        fit_transform
          (record identity_transform {
            rotation_deg = state.transform.rotation_deg;
            flip_x = state.transform.flip_x;
          })
          src out max_scale

    unfoldable pub mount_history : Option (EditorState R) → EditorHistory R
    mount_history none = record { undo = []; redo = [] }
    mount_history (some state) = state.history

    -- The guard on mounting, of the transform that was handed in.
    unfoldable pub mount_out_of_bounds : Option (EditorState R) → Option Bool
    mount_out_of_bounds none = some false
    mount_out_of_bounds (some state) =
        is_valid_transform state.transform src out >>= λ valid. some (not valid)

    -- `none` is an exception while the component is mounted.
    unfoldable pub mount : EditorPolicy → Option (EditorState R) → Option (EditorView R)
    unfolding mount_transform mount_history mount_out_of_bounds
    mount policy initial = do
      t ← mount_transform policy.compose_locked initial
      outside ← mount_out_of_bounds initial
      some (record {
        transform = t;
        history = mount_history initial;
        auto_scaled = false;
        out_of_bounds = outside;
        pointers = [];
        drag = none;
        pinch = none;
      })

    -- The factor by which the source is enlarged, and whether the user is warned of it.
    unfoldable pub effective_upscale : EditorView R → R
    unfolding cover_scale
    effective_upscale v = cover_scale src out ⊗ v.transform.scale

    unfoldable pub warns_upscale : EditorView R → Bool
    unfolding effective_upscale
    warns_upscale v = n.lt (n.lit 1001 3) (effective_upscale v)

  -- A template that the portal crops: the buttons hand over the state that came in, or the initial one.
  unfoldable pub done_unsized : Option (EditorState R) → EditorState R
  unfolding initial_editor_state
  done_unsized none = initial_editor_state
  done_unsized (some state) = state
