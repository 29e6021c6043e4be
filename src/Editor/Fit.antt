-- ===== src/Editor/Fit.antt =====
-- frontend/src/editor/edit-transform.ts: projecting a transform into the valid region.
pub mod Search
pub mod Laws
pub mod Valid
use portrait_booth.Base.{
  ℕ, zero, suc, Bool, true, false, not, ◌&&◌, Option, none, some, if◌then◌else◌, ◌>>=◌,
}
use portrait_booth.Number.{Number, ◌⊕◌, ◌⊖◌, ◌⊗◌, number_ring}
use portrait_booth.Image.Exif.{Rect}
use portrait_booth.Editor.Transform.{
  EditTransform, nought, one, two, min_scale_floor, max_scale, is_valid_transform,
}

module _ {ℓ} {R : Type ℓ} ⦃n : Number R⦄ where
  abbrev pub midpoint : R → R → R
  midpoint lo hi = n.div (lo ⊕ hi) two

  -- `{ ...base, translateX: tx * t, translateY: ty * t }`.
  abbrev pub along : EditTransform R → R → EditTransform R
  along t k = record t { translate_x = t.translate_x ⊗ k; translate_y = t.translate_y ⊗ k }

  -- The rounds left of the search on the segment from the center; the result is `lo`.
  unfoldable pub clamp_search : (R → Option Bool) → ℕ → R → R → Option R
  clamp_search probe zero lo hi = some lo
  clamp_search probe (suc left) lo hi =
      let mid = midpoint lo hi in
      let rest = (do
        inside ← probe mid
        clamp_search probe left (if inside then mid else lo) (if inside then hi else mid)) in
      if n.lt (n.lit 1 5) (hi ⊖ lo) then rest else some lo

  -- The parameter of the nearest point that is known to be valid, where the target is not.
  unfoldable pub segment_end : EditTransform R → Rect R → Rect R → Option R
  unfolding clamp_search
  segment_end t src out = do
    let probe = λ (k : R). is_valid_transform (along t k) src out
    target ← probe one
    if target then some nought else clamp_search probe 24 nought one

  unfoldable pub clamp_translation : EditTransform R → Rect R → Rect R → Option (EditTransform R)
  unfolding segment_end
  clamp_translation t src out = do
    valid ← is_valid_transform t src out
    if valid then some t else (segment_end t src out >>= λ lo. some (along t lo))

  -- `{ ...transform, translateX: 0, translateY: 0, scale }`.
  abbrev pub centered : EditTransform R → R → EditTransform R
  centered t s = record t { translate_x = nought; translate_y = nought; scale = s }

  -- The rounds left of the search for a scale; the result is `hi`.
  unfoldable pub scale_search : (R → Option Bool) → ℕ → R → R → Option R
  scale_search at zero lo hi = some hi
  scale_search at (suc left) lo hi =
      let mid = midpoint lo hi in
      let rest = (do
        inside ← at mid
        scale_search at left (if inside then lo else mid) (if inside then mid else hi)) in
      if n.lt (n.lit 1 4) (hi ⊖ lo) then rest else some hi

  -- The search between the present scale and the limit, where only the limit is known to serve.
  unfoldable pub search_scale : EditTransform R → Rect R → Rect R → R → Option (Option R)
  unfolding scale_search
  search_scale t src out limit = do
    let at = λ (s : R). is_valid_transform (centered t s) src out
    let search = scale_search at 30 (n.max min_scale_floor t.scale) limit >>= λ s. some (some s)
    reachable ← at limit
    if reachable then search else some none

  -- The outer `none` is an exception, the inner one the `null` that is returned.
  unfoldable pub min_scale_for_rotation : EditTransform R → Rect R → Rect R → R → Option (Option R)
  unfolding search_scale
  min_scale_for_rotation t src out limit = do
    enough ← is_valid_transform (centered t t.scale) src out
    if enough then some (some t.scale) else search_scale t src out limit

  abbrev pub with_scale_of : EditTransform R → Option R → EditTransform R
  with_scale_of t none = t
  with_scale_of t (some s) = record t { scale = s }

  unfoldable pub fit_transform : EditTransform R → Rect R → Rect R → R → Option (EditTransform R)
  unfolding min_scale_for_rotation clamp_translation
  fit_transform t src out limit = do
    s ← min_scale_for_rotation t src out limit
    clamp_translation (with_scale_of t s) src out
