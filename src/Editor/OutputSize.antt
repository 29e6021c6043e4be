-- ===== src/Editor/OutputSize.antt =====
-- frontend/src/editor/edit-transform.ts: the size that a template's picture is rendered at.
pub mod Laws
use portrait_booth.Base.{
  ℕ, zero, suc, ◌+◌, Bool, true, false, ◌&&◌, Option, none, some, List, [], ◌∷◌, map, leb, ◌==◌,
  if◌then◌else◌, filter, any, find_index,
}
use portrait_booth.Number.{Number, ◌⊗◌, number_ring}
use portrait_booth.Template.{
  PixelSize, RangedPixels, OutputProfile, exact_pixels, ranged_pixels, physical_raster,
  portal_source, guidance_only, TemplateRevision,
}

pub record OutputSizeOption : Type 0 where
  pub width : ℕ
  pub height : ℕ

-- `outputSize`, by the kind of the profile.
unfoldable pub profile_size {ℓ} : {R : Type ℓ} → OutputProfile R → Option OutputSizeOption
profile_size (exact_pixels p) = some (record { width = p.width_px; height = p.height_px })
profile_size (ranged_pixels p) =
    some (record { width = p.default_width_px; height = p.default_height_px })
profile_size (physical_raster p) = some (record { width = p.width_px; height = p.height_px })
profile_size (portal_source p) = none
profile_size (guidance_only reason) = none

unfoldable pub output_size {ℓ} : {R : Type ℓ} → TemplateRevision R → Option OutputSizeOption
unfolding profile_size
output_size rev = profile_size rev.output

unfoldable pub same_size : OutputSizeOption → OutputSizeOption → Bool
same_size s t = s.width == t.width && s.height == t.height

unfoldable pub of_pixel_size : PixelSize → OutputSizeOption
of_pixel_size s = record { width = s.width_px; height = s.height_px }

-- `cands.filter((c, i) => cands.findIndex((x) => …) === i)`: the first of each size.
unfoldable pub keep_first :
    List OutputSizeOption → ℕ → List OutputSizeOption → List OutputSizeOption
keep_first all i [] = []
keep_first all i (c ∷ cs) =
    if find_index (same_size c) all == i
    then c ∷ keep_first all (i + 1) cs
    else keep_first all (i + 1) cs

-- The fallback of a ranged template, where nothing is selected or the selection is not offered.
unfoldable pub resolve_ranged :
    List OutputSizeOption → OutputSizeOption → Option OutputSizeOption → OutputSizeOption
unfolding same_size
resolve_ranged sizes fallback none = fallback
resolve_ranged sizes fallback (some s) = if any (λ t. same_size t s) sizes then s else fallback

module _ {ℓ} {R : Type ℓ} ⦃n : Number R⦄ where
  -- A whole number as a JavaScript number.
  abbrev pub whole : ℕ → R
  whole k = n.lit k 0

  unfoldable pub in_range : RangedPixels R → OutputSizeOption → Bool
  in_range p s =
      leb p.min_width_px s.width
      && leb s.width p.max_width_px
      && leb p.min_height_px s.height
      && leb s.height p.max_height_px
      && n.eq (whole s.width ⊗ p.aspect.height) (whole s.height ⊗ p.aspect.width)

  -- The two sizes that a template without a list of sizes offers, as one where they agree.
  unfoldable pub default_and_max : RangedPixels R → List OutputSizeOption
  unfolding keep_first same_size
  default_and_max p =
      let cands =
        (record { width = p.default_width_px; height = p.default_height_px })
        ∷ (record { width = p.max_width_px; height = p.max_height_px })
        ∷ [] in
      keep_first cands 0 cands

  unfoldable pub ranged_sizes : RangedPixels R → Option (List PixelSize) → List OutputSizeOption
  unfolding default_and_max in_range of_pixel_size
  ranged_sizes p (some (s ∷ sizes)) = filter (in_range p) (map of_pixel_size (s ∷ sizes))
  ranged_sizes p _ = default_and_max p

  unfoldable pub profile_sizes : OutputProfile R → List OutputSizeOption
  unfolding ranged_sizes
  profile_sizes (ranged_pixels p) = ranged_sizes p p.allowed_sizes
  profile_sizes _ = []

  unfoldable pub allowed_output_sizes : TemplateRevision R → List OutputSizeOption
  unfolding profile_sizes
  allowed_output_sizes rev = profile_sizes rev.output

  unfoldable pub resolve_profile :
      OutputProfile R → Option OutputSizeOption → Option OutputSizeOption
  unfolding resolve_ranged profile_sizes profile_size
  resolve_profile (ranged_pixels p) selected = some (
      resolve_ranged (profile_sizes (ranged_pixels p))
        (record { width = p.default_width_px; height = p.default_height_px }) selected)
  resolve_profile output selected = profile_size output

  unfoldable pub resolve_output_size :
      TemplateRevision R → Option OutputSizeOption → Option OutputSizeOption
  unfolding resolve_profile
  resolve_output_size rev selected = resolve_profile rev.output selected
