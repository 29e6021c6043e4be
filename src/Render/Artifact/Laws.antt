-- ===== src/Render/Artifact/Laws.antt =====
-- frontend/src/render/final-artifact.ts: what a finished picture is.
use portrait_booth.Base.{ℕ, ◌≡◌, refl, subst, ap, Bool, true, false, Option, none, some, List}
use portrait_booth.Number.{Number}
use portrait_booth.Template.{
  OutputProfile, exact_pixels, ranged_pixels, physical_raster, portal_source, guidance_only,
  TemplateEntry,
}
use portrait_booth.Editor.OutputSize.{
  OutputSizeOption, resolve_output_size, resolve_profile, profile_size,
}
use portrait_booth.Editor.Transform.{EditTransform, is_valid_transform}
use portrait_booth.Editor.Reproject.{rect_of}
use portrait_booth.Create.{SourceImage}
use portrait_booth.Render.Quality.{Rendered, failed, rendered, ◌>>=◌}
use portrait_booth.Render.Artifact.{
  RenderDeps, FinalArtifact, render_size, check_crop, context_of, compress, with_density,
  source_rect, max_bytes_of, scan_data, manifest_of, render_final_artifact,
}

-- A result that is there comes from a first result that is there.
pub >>=-eq-rendered {ℓ κ} :
    {A : Type ℓ} {B : Type κ} (m : Rendered A) (f : A → Rendered B) {b : B}
    → (m >>= f) ≡ rendered b
    → (a : A) × (m ≡ rendered a) × (f a ≡ rendered b)
>>=-eq-rendered (failed e) f h = cc
>>=-eq-rendered (rendered a) f h = (a, refl, h)

pub rendered-injective {ℓ} : {A : Type ℓ} (a b : A) → rendered a ≡ rendered b → a ≡ b
rendered-injective a b h = cc

check_crop-true :
    (valid : Option Bool) (u : Unit) → check_crop valid ≡ rendered u → valid ≡ some true
unfolding check_crop
check_crop-true none u h = cc
check_crop-true (some true) u h = refl
check_crop-true (some false) u h = cc

context_of-some : {X : Type 0} (o : Option X) (ctx : X) → context_of o ≡ rendered ctx → o ≡ some ctx
unfolding context_of
context_of-some none ctx h = cc
context_of-some (some x) ctx h = ap some (rendered-injective _ _ h)

module _ {ℓ} {R : Type ℓ} ⦃n : Number R⦄ where
  render_size-resolved :
      (output : OutputProfile R) (selected : Option OutputSizeOption) (size : OutputSizeOption)
      (ppi : Option R)
      → render_size output (resolve_profile output selected) ≡ rendered (size, ppi)
      → resolve_profile output selected ≡ some size
  unfolding render_size resolve_profile profile_size
  render_size-resolved (exact_pixels p) selected size ppi h =
      ap some (ap (λ x. x.0) (rendered-injective _ _ h))
  render_size-resolved (ranged_pixels p) selected size ppi h =
      ap some (ap (λ x. x.0) (rendered-injective _ _ h))
  render_size-resolved (physical_raster p) selected size ppi h =
      ap some (ap (λ x. x.0) (rendered-injective _ _ h))
  render_size-resolved (portal_source p) selected size ppi h = cc
  render_size-resolved (guidance_only reason) selected size ppi h = cc

  -- The steps that a finished picture went through, with what came in between.
  abbrev pub IsFinal :
      {C X : Type 0}
      → RenderDeps R C X
      → SourceImage
      → TemplateEntry R
      → EditTransform R
      → Option OutputSizeOption
      → FinalArtifact R
      → Type ℓ
  IsFinal {X = X} deps img entry t selected a =
      (size : OutputSizeOption) × (ppi : Option R) × (ctx : X) × (blob : List ℕ)
      × (resolve_output_size entry.revision selected ≡ some size)
      × (render_size entry.revision.output (some size) ≡ rendered (size, ppi))
      × (is_valid_transform t (source_rect img) (rect_of size) ≡ some true)
      × (deps.canvas_context (deps.create_canvas size.width size.height) ≡ some ctx)
      × (a.manifest ≡ manifest_of entry.revision t img size)
      × (a.coverage
          ≡ scan_data size.width size.height
              (deps.read_pixels (deps.draw ctx a.manifest.matrix img) size.width size.height))
      × (compress (deps.to_blob (deps.draw ctx a.manifest.matrix img))
            (max_bytes_of entry.revision.output_file)
          ≡ rendered blob)
      × (with_density ppi blob ≡ rendered a.blob)

  -- Each step of the renderer that led to a finished picture.
  pub render_final_artifact-IsFinal :
      {C X : Type 0} (deps : RenderDeps R C X) (img : SourceImage) (entry : TemplateEntry R)
      (t : EditTransform R) (selected : Option OutputSizeOption) (a : FinalArtifact R)
      → render_final_artifact deps img entry t selected ≡ rendered a
      → IsFinal deps img entry t selected a
  unfolding render_final_artifact resolve_output_size
  render_final_artifact-IsFinal deps img entry t selected a h =
      let rev = entry.revision in
      let (pair, sized, h1) =
        >>=-eq-rendered (render_size rev.output (resolve_output_size rev selected)) _ h in
      let (u, valid, h2) =
        >>=-eq-rendered (check_crop (is_valid_transform t (source_rect img) (rect_of pair.0))) _
          h1 in
      let (ctx, drawn, h3) =
        >>=-eq-rendered
          (context_of (deps.canvas_context (deps.create_canvas pair.0.width pair.0.height))) _ h2 in
      let resolved = render_size-resolved rev.output selected pair.0 pair.1 sized in
      let m = manifest_of rev t img pair.0 in
      let (blob, small, h4) =
        >>=-eq-rendered
          (compress (deps.to_blob (deps.draw ctx m.matrix img)) (max_bytes_of rev.output_file)) _
          h3 in
      let (final, dense, e) = >>=-eq-rendered (with_density pair.1 blob) _ h4 in
      subst (IsFinal deps img entry t selected) (rendered-injective _ _ e) (
        pair.0,
        pair.1,
        ctx,
        blob,
        resolved,
        subst (λ o. render_size rev.output o ≡ rendered (pair.0, pair.1)) resolved sized,
        check_crop-true _ u valid,
        context_of-some _ ctx drawn,
        refl,
        refl,
        small,
        dense,
      )
