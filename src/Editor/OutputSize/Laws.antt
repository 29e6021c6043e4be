-- ===== src/Editor/OutputSize/Laws.antt =====
-- frontend/src/editor/edit-transform.ts: which sizes `resolveOutputSize` can return.
use portrait_booth.Base.{
  ◌≤◌, ◌≡◌, refl, ap, ◌⊎◌, inl, inr, true, Option, none, some, List, [], ◌∷◌, map, any, any-filter,
  Bool-cases, arith,
}
use portrait_booth.Number.{Number}
use portrait_booth.Template.{
  PixelSize, RangedPixels, OutputProfile, ranged_pixels, TemplateRevision,
}
use portrait_booth.Editor.OutputSize.{
  OutputSizeOption, of_pixel_size, same_size, in_range, default_and_max, ranged_sizes,
  profile_sizes, resolve_ranged, resolve_profile, resolve_output_size,
}

same_size-eq : (s t : OutputSizeOption) → same_size s t ≡ true → s ≡ t
unfolding same_size
same_size-eq s t h = ground arith

-- The edges of a size lie between those of the profile.
abbrev pub IsWithin {ℓ} : {R : Type ℓ} → RangedPixels R → OutputSizeOption → Type 0
IsWithin p s =
    (p.min_width_px ≤ s.width)
    × (s.width ≤ p.max_width_px)
    × (p.min_height_px ≤ s.height)
    × (s.height ≤ p.max_height_px)

abbrev pub default_of {ℓ} : {R : Type ℓ} → RangedPixels R → OutputSizeOption
default_of p = record { width = p.default_width_px; height = p.default_height_px }

abbrev pub max_of {ℓ} : {R : Type ℓ} → RangedPixels R → OutputSizeOption
max_of p = record { width = p.max_width_px; height = p.max_height_px }

resolve_ranged-cases :
    (sizes : List OutputSizeOption) (fallback : OutputSizeOption)
    (selected : Option OutputSizeOption)
    → (resolve_ranged sizes fallback selected ≡ fallback)
      ⊎ ((any (λ t. same_size t (resolve_ranged sizes fallback selected)) sizes ≡ true)
          × (selected ≡ some (resolve_ranged sizes fallback selected)))
unfolding resolve_ranged
resolve_ranged-cases sizes fallback none = inl refl
resolve_ranged-cases sizes fallback (some s) = elim (Bool-cases (any (λ t. same_size t s) sizes)) [
  | inl offered ↦ inr (rw offered (offered, refl))
  | inr unknown ↦ inl (rw unknown refl)
]

resolve_ranged-fallback :
    (sizes : List OutputSizeOption) (fallback : OutputSizeOption)
    → resolve_ranged sizes fallback (some fallback) ≡ fallback
unfolding resolve_ranged
resolve_ranged-fallback sizes fallback = elim (Bool-cases (any (λ t. same_size t fallback) sizes)) [
  | inl offered ↦ rw offered refl
  | inr unknown ↦ rw unknown refl
]

resolve_ranged_twice :
    (sizes : List OutputSizeOption) (fallback : OutputSizeOption)
    (selected : Option OutputSizeOption)
    → resolve_ranged sizes fallback (some (resolve_ranged sizes fallback selected))
      ≡ resolve_ranged sizes fallback selected
unfolding resolve_ranged
resolve_ranged_twice sizes fallback none = resolve_ranged-fallback sizes fallback
resolve_ranged_twice sizes fallback (some s) = elim (Bool-cases (any (λ t. same_size t s) sizes)) [
  | inl offered ↦ rw offered (rw offered refl)
  | inr unknown ↦ rw unknown (resolve_ranged-fallback sizes fallback)
]

module _ {ℓ} {R : Type ℓ} ⦃n : Number R⦄ where
  in_range-IsWithin :
      (p : RangedPixels R) (s : OutputSizeOption) → in_range p s ≡ true → IsWithin p s
  unfolding in_range
  in_range-IsWithin p s h = ground arith

  any-default_and_max :
      (p : RangedPixels R) (s : OutputSizeOption)
      → IsWithin p (default_of p)
      → any (λ t. same_size t s) (default_and_max p) ≡ true
      → IsWithin p s
  unfolding default_and_max
  any-default_and_max p s fits h = ground arith

  -- A size that is offered lies within the profile, if its default does.
  any-sizes :
      (p : RangedPixels R) (sizes : Option (List PixelSize)) (s : OutputSizeOption)
      → IsWithin p (default_of p)
      → any (λ t. same_size t s) (ranged_sizes p sizes) ≡ true
      → IsWithin p s
  unfolding ranged_sizes
  any-sizes p (some (x ∷ xs)) s fits h =
      let (t, same, ranged) =
        any-filter (λ t. same_size t s) (in_range p) (map of_pixel_size (x ∷ xs)) h in
      rw (← same_size-eq t s same) (in_range-IsWithin p t ranged)
  any-sizes p (some []) s fits h = any-default_and_max p s fits h
  any-sizes p none s fits h = any-default_and_max p s fits h

  -- Whatever is selected, the size of a ranged template lies within its limits, if its default does.
  pub resolve_output_size-IsWithin :
      (rev : TemplateRevision R) (p : RangedPixels R) (selected : Option OutputSizeOption)
      → rev.output ≡ ranged_pixels p
      → IsWithin p (default_of p)
      → (s : OutputSizeOption) × (resolve_output_size rev selected ≡ some s) × IsWithin p s
  unfolding resolve_output_size
  resolve_output_size-IsWithin rev p selected e fits =
      let s = resolve_ranged (profile_sizes (ranged_pixels p)) (default_of p) selected in
      (
        s,
        rw e refl,
        elim (resolve_ranged-cases (profile_sizes (ranged_pixels p)) (default_of p) selected) [
          | inl fallback ↦ rw fallback fits
          | inr (offered, _) ↦ any-sizes p p.allowed_sizes s fits offered
        ],
      )

  resolve_profile_twice :
      (output : OutputProfile R) (selected : Option OutputSizeOption)
      → resolve_profile output (resolve_profile output selected) ≡ resolve_profile output selected
  unfolding resolve_profile
  resolve_profile_twice (ranged_pixels p) selected =
      ap some (resolve_ranged_twice (profile_sizes (ranged_pixels p)) (default_of p) selected)
  resolve_profile_twice _ selected = refl

  -- Resolving a resolved size gives that size again, for every template and selection, so that the
  -- pages that resolve it each on their own agree.
  pub resolve_output_size_twice :
      (rev : TemplateRevision R) (selected : Option OutputSizeOption)
      → resolve_output_size rev (resolve_output_size rev selected)
        ≡ resolve_output_size rev selected
  unfolding resolve_output_size
  resolve_output_size_twice rev selected = resolve_profile_twice rev.output selected
