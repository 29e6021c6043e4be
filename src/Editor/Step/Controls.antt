-- ===== src/Editor/Step/Controls.antt =====
-- frontend/src/editor/editor-step.tsx: buttons, fields, keys and pointers.
use portrait_booth.Base.{
  ℕ, Bool, true, false, ◌&&◌, ◌||◌, Option, none, some, List, [], ◌∷◌, leb, ltb, ◌==◌,
  if◌then◌else◌, length, any, filter, not,
}
use portrait_booth.Number.{Number, ◌⊕◌, ◌⊖◌, ◌⊗◌, number_ring}
use portrait_booth.Image.Exif.{Rect, Point}
use portrait_booth.Template.Policy.{EditorPolicy}
use portrait_booth.Editor.Transform.{
  nought, one, min_scale_floor, max_scale, normalize_rotation_deg,
}
use portrait_booth.Editor.Step.{Pinch, EditorView, undo, redo, reset, apply, rotate_90, toggle_flip}

-- The keys that are handled, by `e.key`.
pub data KeyName : Type 0 where
  arrow_left arrow_right arrow_up arrow_down plus equals minus key_z key_y other : KeyName

-- `command` is `metaKey || ctrlKey`.
pub record Modifiers : Type 0 where
  pub shift : Bool
  pub command : Bool

-- The keys that a composition lock disables.
unfoldable pub composes : KeyName → Bool
composes key_z = false
composes key_y = false
composes other = false
composes _ = true

pub data EditorEvent {ℓ} (R : Type ℓ) : Type ℓ where
  press_undo press_redo flip center : EditorEvent R
  press_reset rotate : Bool → EditorEvent R
  nudge_by : R → R → EditorEvent R
  set_x set_y set_scale slide_rotation set_rotation : R → EditorEvent R
  press_key : KeyName → Modifiers → EditorEvent R
  pointer_down : ℕ → Point R → EditorEvent R
  pointer_move : ℕ → Point R → Rect R → EditorEvent R
  pointer_up : ℕ → EditorEvent R

module _ {ℓ} {R : Type ℓ} where
  -- `Map.set`, which keeps the place of a key that is there.
  unfoldable pub put_pointer : ℕ → Point R → List (ℕ × Point R) → List (ℕ × Point R)
  put_pointer id p [] = (id, p) ∷ []
  put_pointer id p (q ∷ qs) = if q.0 == id then (id, p) ∷ qs else q ∷ put_pointer id p qs

  unfoldable pub has_pointer : ℕ → List (ℕ × Point R) → Bool
  has_pointer id = any (λ q. q.0 == id)

  unfoldable pub delete_pointer : ℕ → List (ℕ × Point R) → List (ℕ × Point R)
  delete_pointer id = filter (λ q. not (q.0 == id))

  unfoldable pub handle_pointer_up : ℕ → EditorView R → EditorView R
  unfolding delete_pointer
  handle_pointer_up id v =
      let pointers = delete_pointer id v.pointers in
      record v {
        pointers = pointers;
        pinch = if ltb (length pointers) 2 then none else v.pinch;
        drag = if length pointers == 0 then none else v.drag;
      }

module _ {ℓ} {R : Type ℓ} ⦃n : Number R⦄ where
  abbrev pub nudge_step : R
  nudge_step = n.lit 2 2

  -- The distance of the first two pointers.
  unfoldable pub pointer_distance : List (ℕ × Point R) → R
  pointer_distance (a ∷ (b ∷ rest)) = n.hypot (a.1.x ⊖ b.1.x) (a.1.y ⊖ b.1.y)
  pointer_distance _ = nought

  -- `a || b` of numbers.
  unfoldable pub or_nonzero : R → R → R
  or_nonzero a b = if n.lt a nought || n.lt nought a then a else b

  unfoldable pub handle_pointer_down : EditorPolicy → ℕ → Point R → EditorView R → EditorView R
  unfolding put_pointer pointer_distance
  handle_pointer_down policy id p v =
      let pointers = put_pointer id p v.pointers in
      if policy.compose_locked
      then v
      else if length pointers == 2
      then record v {
        pointers = pointers;
        pinch = some (record { distance = pointer_distance pointers; scale = v.transform.scale });
        drag = none;
      }
      else record v { pointers = pointers; drag = some p }

  module _ (src out : Rect R) where
    unfoldable pub move_by : R → R → EditorView R → EditorView R
    unfolding apply
    move_by x y v =
        let t = v.transform in
        apply src out
          (record t { translate_x = t.translate_x ⊕ x; translate_y = t.translate_y ⊕ y }) v

    unfoldable pub zoom_to : R → EditorView R → EditorView R
    unfolding apply
    zoom_to s v = apply src out (record v.transform { scale = s }) v

    unfoldable pub pinch_to : Pinch R → EditorView R → EditorView R
    unfolding zoom_to pointer_distance
    pinch_to k v =
        let distance = pointer_distance v.pointers in
        let next = n.div (k.scale ⊗ distance) k.distance in
        if n.lt nought distance && n.lt nought k.distance
        then zoom_to (n.min max_scale (n.max min_scale_floor next)) v
        else v

    -- The movement since the last event, in parts of the canvas as it is shown.
    unfoldable pub drag_to : Option (Point R) → Point R → Rect R → EditorView R → EditorView R
    unfolding move_by or_nonzero
    drag_to none p shown v = v
    drag_to (some from) p shown v =
        move_by (n.div (p.x ⊖ from.x) (or_nonzero shown.width out.width))
          (n.div (p.y ⊖ from.y) (or_nonzero shown.height out.height)) (record v { drag = some p })

    unfoldable pub pinch_or_drag :
        Bool → Option (Pinch R) → Point R → Rect R → EditorView R → EditorView R
    unfolding pinch_to drag_to
    pinch_or_drag true (some k) p shown v = pinch_to k v
    pinch_or_drag _ _ p shown v = drag_to v.drag p shown v

    unfoldable pub handle_pointer_move :
        EditorPolicy → ℕ → Point R → Rect R → EditorView R → EditorView R
    unfolding has_pointer put_pointer pinch_or_drag
    handle_pointer_move policy id p shown v =
        let pointers = put_pointer id p v.pointers in
        if policy.compose_locked
        then v
        else if has_pointer id v.pointers
        then pinch_or_drag (leb 2 (length pointers)) v.pinch p shown
            (record v { pointers = pointers })
        else v

    -- `0.01 * step`.
    abbrev pub key_step : Modifiers → R
    key_step m = n.lit 1 2 ⊗ (if m.shift then n.lit 5 0 else one)

    abbrev pub key_step_back : Modifiers → R
    key_step_back m = n.ring.neg (n.lit 1 2) ⊗ (if m.shift then n.lit 5 0 else one)

    -- The `switch` on the key.
    unfoldable pub on_key : KeyName → Modifiers → EditorView R → EditorView R
    unfolding move_by zoom_to undo redo
    on_key arrow_left m v = move_by (key_step_back m) nought v
    on_key arrow_right m v = move_by (key_step m) nought v
    on_key arrow_up m v = move_by nought (key_step_back m) v
    on_key arrow_down m v = move_by nought (key_step m) v
    on_key plus m v = zoom_to (n.min max_scale (v.transform.scale ⊕ n.lit 1 1)) v
    on_key equals m v = zoom_to (n.min max_scale (v.transform.scale ⊕ n.lit 1 1)) v
    on_key minus m v = zoom_to (n.max min_scale_floor (v.transform.scale ⊖ n.lit 1 1)) v
    on_key key_z m v = if m.command then (if m.shift then redo v else undo v) else v
    on_key key_y m v = if m.command then redo v else v
    on_key other m v = v

    unfoldable pub handle_key_down :
        EditorPolicy → KeyName → Modifiers → EditorView R → EditorView R
    unfolding composes on_key
    handle_key_down policy k m v = if policy.compose_locked && composes k then v else on_key k m v

    -- A callback that a lock disables.
    abbrev pub unless : Bool → EditorView R → EditorView R → EditorView R
    unless locked v next = if locked then v else next

    unfoldable pub step : EditorPolicy → EditorEvent R → EditorView R → EditorView R
    unfolding undo redo reset apply rotate_90 toggle_flip move_by zoom_to handle_key_down
        handle_pointer_down handle_pointer_move handle_pointer_up
    step policy press_undo v = undo v
    step policy press_redo v = redo v
    step policy (press_reset same) v = reset same v
    step policy (rotate clockwise) v = rotate_90 src out policy clockwise v
    step policy flip v = toggle_flip src out policy v
    step policy (nudge_by x y) v = unless policy.compose_locked v (move_by x y v)
    step policy center v =
        unless policy.compose_locked v
          (apply src out (record v.transform { translate_x = nought; translate_y = nought }) v)
    step policy (set_x x) v =
        unless policy.compose_locked v (apply src out (record v.transform { translate_x = x }) v)
    step policy (set_y y) v =
        unless policy.compose_locked v (apply src out (record v.transform { translate_y = y }) v)
    step policy (set_scale s) v = unless policy.compose_locked v (zoom_to s v)
    step policy (slide_rotation deg) v =
        unless policy.rotate_locked v
          (apply src out (record v.transform { rotation_deg = normalize_rotation_deg deg }) v)
    step policy (set_rotation deg) v =
        unless policy.rotate_locked v (apply src out (record v.transform { rotation_deg = deg }) v)
    step policy (press_key k m) v = handle_key_down policy k m v
    step policy (pointer_down id p) v = handle_pointer_down policy id p v
    step policy (pointer_move id p shown) v = handle_pointer_move policy id p shown v
    step policy (pointer_up id) v = handle_pointer_up id v

    unfoldable pub run : EditorPolicy → List (EditorEvent R) → EditorView R → EditorView R
    unfolding step
    run policy [] v = v
    run policy (e ∷ es) v = run policy es (step policy e v)
