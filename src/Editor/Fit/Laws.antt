-- ===== src/Editor/Fit/Laws.antt =====
-- frontend/src/editor/edit-transform.ts: the parts of `fitTransform`.
use portrait_booth.Base.{
  ◌≡◌, refl, sym, ◌∙◌, ap, ◌⊎◌, inl, inr, Bool, true, false, Option, none, some, if◌then◌else◌,
  ◌>>=◌, >>=-eq-some, Bool-cases,
}
use mathlib.Core.Option.{some-injective}
use portrait_booth.Number.{Number, ◌⊗◌, number_ring}
use portrait_booth.Image.Exif.{Rect}
use portrait_booth.Editor.Transform.{
  EditTransform, nought, one, min_scale_floor, is_valid_transform,
}
use portrait_booth.Editor.Fit.{
  midpoint, along, clamp_search, clamp_translation, centered, scale_search, search_scale,
  segment_end, min_scale_for_rotation,
}
use portrait_booth.Editor.Fit.Search.{
  clamp_search-valid, clamp_search-total, scale_search-valid, scale_search-total,
}

module _ {ℓ} {R : Type ℓ} ⦃n : Number R⦄ where
  module _ (src out : Rect R) where
    abbrev pub Valid : EditTransform R → Type 0
    Valid t = is_valid_transform t src out ≡ some true

    segment_end-valid :
        (t : EditTransform R) (k : R)
        → Valid (along t nought)
        → segment_end t src out ≡ some k
        → Valid (along t k)
    unfolding segment_end
    segment_end-valid t k center h =
        let probe = λ (k : R). is_valid_transform (along t k) src out in
        let (target, seen, rest) =
          >>=-eq-some (probe one)
            (λ target. if target then some nought else clamp_search probe 24 nought one) h in
        elim (Bool-cases target) [
          | inl yes' ↦
              let e : some nought ≡ some k = rw yes' at rest in rw (← some-injective _ _ e) center
          | inr no' ↦ clamp_search-valid probe 24 nought one k (rw no' at rest) center
        ]

    -- The transform with the translation scaled by `k` differs from `t` in the translation alone.
    abbrev pub SameShape : EditTransform R → EditTransform R → Type ℓ
    SameShape r t = (r.scale ≡ t.scale) × (r.rotation_deg ≡ t.rotation_deg) × (r.flip_x ≡ t.flip_x)

    pub clamp_translation-cases :
        (t r : EditTransform R)
        → clamp_translation t src out ≡ some r
        → ((r ≡ t) × Valid t) ⊎ ((k : R) × (segment_end t src out ≡ some k) × (r ≡ along t k))
    unfolding clamp_translation
    clamp_translation-cases t r h =
        let (valid, seen, rest) =
          >>=-eq-some (is_valid_transform t src out)
            (λ valid. if valid then some t else (segment_end t src out >>= λ lo. some (along t lo)))
            h in
        elim (Bool-cases valid) [
          | inl yes' ↦
              let e : some t ≡ some r = rw yes' at rest in
              inl (sym (some-injective _ _ e), seen ∙ ap some yes')
          | inr no' ↦
              let (k, found, e) =
                >>=-eq-some (segment_end t src out) (λ lo. some (along t lo)) (rw no' at rest) in
              inr (k, found, sym (some-injective _ _ e))
        ]

    -- A transform that is pulled back keeps its scale, rotation and flip.
    pub clamp_translation-shape :
        (t r : EditTransform R) → clamp_translation t src out ≡ some r → SameShape r t
    clamp_translation-shape t r h = elim (clamp_translation-cases t r h) [
      | inl (same, valid) ↦ rw same (refl, refl, refl)
      | inr (k, found, e) ↦ rw e (refl, refl, refl)
    ]

    -- It is valid if its center is.
    pub clamp_translation-valid :
        (t r : EditTransform R)
        → Valid (along t nought)
        → clamp_translation t src out ≡ some r
        → Valid r
    clamp_translation-valid t r center h = elim (clamp_translation-cases t r h) [
      | inl (same, valid) ↦ rw same valid
      | inr (k, found, e) ↦ rw e (segment_end-valid t k center found)
    ]

    pub clamp_translation-total :
        (t : EditTransform R)
        → ((x y : R)
            → (v : Bool) × (is_valid_transform
                  (record t { translate_x = x; translate_y = y })
                  src
                  out
                ≡ some v))
        → (r : EditTransform R) × (clamp_translation t src out ≡ some r)
    unfolding clamp_translation segment_end
    clamp_translation-total t total =
        let probe = λ (k : R). is_valid_transform (along t k) src out in
        let (valid, seen) = total t.translate_x t.translate_y in
        let (target, at_one) = total (t.translate_x ⊗ one) (t.translate_y ⊗ one) in
        let (k, found) =
          clamp_search-total probe 24 nought one
            (λ k. total (t.translate_x ⊗ k) (t.translate_y ⊗ k)) in
        rw (seen, at_one)
          (elim (Bool-cases valid) [
            | inl yes' ↦ (t, rw yes' refl)
            | inr no' ↦ rw no' (elim (Bool-cases target) [
              | inl on ↦ (along t nought, rw on refl)
              | inr off ↦ (along t k, rw off (rw found refl))
            ])
          ])

    search_scale-valid :
        (t : EditTransform R) (limit s : R)
        → search_scale t src out limit ≡ some (some s)
        → Valid (centered t s)
    unfolding search_scale
    search_scale-valid t limit s h =
        let at = λ (s : R). is_valid_transform (centered t s) src out in
        let found = scale_search at 30 (n.max min_scale_floor t.scale) limit in
        let (reachable, seen, rest) =
          >>=-eq-some (at limit)
            (λ reachable. if reachable then (found >>= λ s. some (some s)) else some none) h in
        elim (Bool-cases reachable) [
          | inl yes' ↦
              let (k, e, same) =
                >>=-eq-some {B = Option R} found (λ s. some (some s)) (rw yes' at rest) in
              scale_search-valid at 30 (n.max min_scale_floor t.scale) limit s
                (e ∙ some-injective _ _ same) (seen ∙ ap some yes')
          | inr no' ↦
              let e : some none ≡ some (some s) = rw no' at rest in cc (some-injective _ _ e)
        ]

    -- A scale that is returned makes the centered transform valid.
    pub min_scale_for_rotation-valid :
        (t : EditTransform R) (limit s : R)
        → min_scale_for_rotation t src out limit ≡ some (some s)
        → Valid (centered t s)
    unfolding min_scale_for_rotation
    min_scale_for_rotation-valid t limit s h =
        let at = λ (s : R). is_valid_transform (centered t s) src out in
        let (enough, seen, rest) =
          >>=-eq-some (at t.scale)
            (λ enough. if enough then some (some t.scale) else search_scale t src out limit) h in
        elim (Bool-cases enough) [
          | inl yes' ↦
              let e : some (some t.scale) ≡ some (some s) = rw yes' at rest in
              rw (← some-injective _ _ (some-injective _ _ e)) (seen ∙ ap some yes')
          | inr no' ↦ search_scale-valid t limit s (rw no' at rest)
        ]

    -- The scales that the search for one can meet, on each of which the matrix can be inverted.
    pub record Scales (t : EditTransform R) (limit : R) : Type (ℓ + 1) where
      pub Fits : R → Type ℓ
      pub present : Fits t.scale
      pub floor : Fits (n.max min_scale_floor t.scale)
      pub top : Fits limit
      pub between : (x y : R) → Fits x → Fits y → Fits (midpoint x y)
      pub regular :
          (s x y : R)
          → Fits s
          → (v : Bool) × (is_valid_transform
                (record t { translate_x = x; translate_y = y; scale = s })
                src
                out
              ≡ some v)

    pub min_scale_for_rotation-total :
        (t : EditTransform R) (limit : R) (scales : Scales t limit)
        → (o : Option R) × (min_scale_for_rotation t src out limit ≡ some o)
          × ((s : R) → o ≡ some s → scales.Fits s)
    unfolding min_scale_for_rotation search_scale
    min_scale_for_rotation-total t limit scales =
        let at = λ (s : R). is_valid_transform (centered t s) src out in
        let (enough, seen) = scales.regular t.scale nought nought scales.present in
        let (reachable, seen') = scales.regular limit nought nought scales.top in
        let (r, found, fits) =
          scale_search-total scales.Fits at 30 (n.max min_scale_floor t.scale) limit scales.between
            (λ s p. scales.regular s nought nought p) scales.floor scales.top in
        rw (seen, seen', found)
          (elim (Bool-cases enough) [
            | inl yes' ↦
                (some t.scale, rw yes' refl, λ s e. rw (← some-injective _ _ e) scales.present)
            | inr no' ↦ rw no' (elim (Bool-cases reachable) [
              | inl on ↦ (some r, rw on refl, λ s e. rw (← some-injective _ _ e) fits)
              | inr off ↦ (none, rw off refl, λ s e. cc)
            ])
          ])

    -- Where no scale is returned, the centered photo covers the picture neither at the present scale nor at
    -- the limit.
    pub min_scale_for_rotation-none :
        (t : EditTransform R) (limit : R)
        → min_scale_for_rotation t src out limit ≡ some none
        → (is_valid_transform (centered t t.scale) src out ≡ some false)
          × (is_valid_transform (centered t limit) src out ≡ some false)
    unfolding min_scale_for_rotation search_scale
    min_scale_for_rotation-none t limit h =
        let at = λ (s : R). is_valid_transform (centered t s) src out in
        let found = scale_search at 30 (n.max min_scale_floor t.scale) limit in
        let (enough, seen, rest) =
          >>=-eq-some (at t.scale)
            (λ enough. if enough then some (some t.scale) else search_scale t src out limit) h in
        elim (Bool-cases enough) [
          | inl yes' ↦
              let e : some (some t.scale) ≡ some none = rw yes' at rest in cc (some-injective _ _ e)
          | inr no' ↦
              let (reachable, at_top, last) =
                >>=-eq-some (at limit)
                  (λ reachable. if reachable then (found >>= λ s. some (some s)) else some none)
                  (rw no' at rest) in
              elim (Bool-cases reachable) [
                | inl on ↦
                    let (k, _, same) =
                      >>=-eq-some {B = Option R} found (λ s. some (some s)) (rw on at last) in
                    cc (some-injective _ _ same)
                | inr off ↦ (seen ∙ ap some no', at_top ∙ ap some off)
              ]
        ]
