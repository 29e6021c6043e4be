-- ===== src/Editor/Fit/Valid.antt =====
-- frontend/src/editor/edit-transform.ts, `fitTransform`: the transform that it returns.
use portrait_booth.Base.{◌≡◌, refl, ◌∙◌, ap, ◌⊎◌, false, inl, inr, Option, none, some}
use portrait_booth.Number.{Number, ◌⊗◌, number_ring}
use portrait_booth.Image.Exif.{Rect}
use portrait_booth.Editor.Transform.{EditTransform, nought, is_valid_transform}
use portrait_booth.Editor.Fit.{
  along, centered, min_scale_for_rotation, with_scale_of, clamp_translation, fit_transform,
}
use portrait_booth.Editor.Fit.Laws.{
  Valid, Scales, clamp_translation-valid, clamp_translation-total, clamp_translation-shape,
  min_scale_for_rotation-valid, min_scale_for_rotation-total, min_scale_for_rotation-none,
}

module _ {ℓ} {R : Type ℓ} ⦃n : Number R⦄ where
  -- A translation whose product with 0 is 0, as that of a finite number is, up to the sign of 0.
  pub record IsFinite (t : EditTransform R) : Type ℓ where
    pub finite_x : t.translate_x ⊗ nought ≡ nought
    pub finite_y : t.translate_y ⊗ nought ≡ nought

  module _ (src out : Rect R) where
    centered-along :
        (t : EditTransform R) (s : R)
        → IsFinite t
        → along (record t { scale = s }) nought ≡ centered t s
    centered-along t s f =
        λ i. record t { translate_x = f.finite_x i; translate_y = f.finite_y i; scale = s }

    clamped :
        (t : EditTransform R) (limit : R) (scales : Scales src out t limit) (s : R)
        → scales.Fits s
        → let u = record t { scale = s } in
          (r : EditTransform R) × (clamp_translation u src out ≡ some r)
          × ((r.rotation_deg ≡ t.rotation_deg) × (r.flip_x ≡ t.flip_x))
    clamped t limit scales s p =
        let u = record t { scale = s } in
        let (r, e) = clamp_translation-total src out u (λ x y. scales.regular s x y p) in
        let (_, rotation, flip) = clamp_translation-shape src out u r e in (r, e, (rotation, flip))

    fitted :
        (t : EditTransform R) (limit : R) (scales : Scales src out t limit) (o : Option R)
        → IsFinite t
        → min_scale_for_rotation t src out limit ≡ some o
        → ((s : R) → o ≡ some s → scales.Fits s)
        → (r : EditTransform R) × (clamp_translation (with_scale_of t o) src out ≡ some r)
          × ((r.rotation_deg ≡ t.rotation_deg) × (r.flip_x ≡ t.flip_x))
          × ((o ≡ none) ⊎ Valid src out r)
    fitted t limit scales none finite found fits =
        let (r, e, shape) = clamped t limit scales t.scale scales.present in (r, e, shape, inl refl)
    fitted t limit scales (some s) finite found fits =
        let (r, e, shape) = clamped t limit scales s (fits s refl) in
        let center : Valid src out (along (record t { scale = s }) nought) =
          rw (centered-along t s finite) (min_scale_for_rotation-valid src out t limit s found) in
        (r, e, shape, inr (clamp_translation-valid src out (record t { scale = s }) r center e))

    -- Where the matrices of the scales that are tried can be inverted and the translation times 0 is 0,
    -- `fitTransform` returns; it keeps rotation and flip, and what it returns is valid, unless the photo in
    -- the center is valid neither at its present scale nor at the limit.
    pub fit_transform-valid :
        (t : EditTransform R) (limit : R)
        → IsFinite t
        → Scales src out t limit
        → (r : EditTransform R) × (fit_transform t src out limit ≡ some r)
          × ((r.rotation_deg ≡ t.rotation_deg) × (r.flip_x ≡ t.flip_x))
          × (((is_valid_transform (centered t t.scale) src out ≡ some false)
                × (is_valid_transform (centered t limit) src out ≡ some false))
              ⊎ Valid src out r)
    unfolding fit_transform
    fit_transform-valid t limit finite scales =
        let (o, found, fits) = min_scale_for_rotation-total src out t limit scales in
        let (r, e, shape, valid) = fitted t limit scales o finite found fits in
        rw found (
          r,
          e,
          shape,
          elim valid [
            | inl nothing ↦
                inl (min_scale_for_rotation-none src out t limit (found ∙ ap some nothing))
            | inr v ↦ inr v
          ],
        )
