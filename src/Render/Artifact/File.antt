-- ===== src/Render/Artifact/File.antt =====
-- frontend/src/render/final-artifact.ts: the file of a finished picture.
use portrait_booth.Base.{
  ℕ, zero, suc, ◌≤◌, ◌≡◌, refl, ◌∙◌, ap, subst, ◌≢◌, inl, inr, true, Option, none, some, List,
  length, Bool-cases, Option-cases, Loop, out_of_fuel, done,
}
use mathlib.Core.Option.{some-injective}
use portrait_booth.Number.{Number}
use portrait_booth.Jpeg.{has_exif_segment}
use portrait_booth.Jpeg.Rewrite.{rewrite_keeps}
use portrait_booth.Template.{TemplateEntry}
use portrait_booth.Editor.OutputSize.{OutputSizeOption, resolve_output_size}
use portrait_booth.Editor.Transform.{EditTransform, is_valid_transform, render_matrix}
use portrait_booth.Editor.Reproject.{rect_of}
use portrait_booth.Create.{SourceImage}
use portrait_booth.Render.Quality.{RenderError, failed, rendered, max_quality, encode, encoded}
use portrait_booth.Render.Quality.Laws.{search_quality-IsFit}
use portrait_booth.Render.Artifact.{
  RenderDeps, FinalArtifact, compress, with_density, density_result, is_truthy, render_size,
  max_bytes_of, manifest_of, scan_data, source_rect,
}
use portrait_booth.Render.Artifact.Laws.{rendered-injective}

pub failed-ne_rendered {ℓ} : {A : Type ℓ} {e : RenderError} {a : A} → failed e ≢ rendered a
failed-ne_rendered h = cc

encode-made {ℓ} :
    {R : Type ℓ} ⦃n : Number R⦄ (to_blob : R → Option (List ℕ)) (q : R) (blob : List ℕ)
    → encode to_blob q ≡ rendered blob
    → (q : R) × (to_blob q ≡ some blob)
unfolding encode encoded
encode-made to_blob q blob h = elim (Option-cases (to_blob q)) [
  | inl e ↦ absurd (failed-ne_rendered (rw e at h))
  | inr (b, e) ↦ (q, e ∙ ap some (rendered-injective _ _ (rw e at h)))
]

pub density_result-some :
    (r : Loop (Option (List ℕ))) (out : List ℕ)
    → density_result r ≡ rendered out
    → r ≡ done (some out)
unfolding density_result
density_result-some out_of_fuel out h = cc
density_result-some (done none) out h = cc
density_result-some (done (some bytes)) out h = ap (λ b. done (some b)) (rendered-injective _ _ h)

module _ {ℓ} {R : Type ℓ} ⦃n : Number R⦄ where
  pub compress-encoded :
      (to_blob : R → Option (List ℕ)) (max : Option ℕ) (blob : List ℕ)
      → compress to_blob max ≡ rendered blob
      → ((q : R) × (to_blob q ≡ some blob)) × ((k : ℕ) → max ≡ some (suc k) → length blob ≤ suc k)
  unfolding compress
  compress-encoded to_blob (some (suc k)) blob h =
      let (small, made) = search_quality-IsFit to_blob (suc k) blob h in
      (made, λ j e. subst (λ b. length blob ≤ b) (some-injective _ _ e) small)
  compress-encoded to_blob (some zero) blob h = (encode-made to_blob max_quality blob h, λ j e. cc)
  compress-encoded to_blob none blob h = (encode-made to_blob max_quality blob h, λ j e. cc)

  -- Setting the density keeps the length and the search for EXIF data.
  pub with_density_keeps :
      (ppi : Option R) (blob out : List ℕ)
      → with_density ppi blob ≡ rendered out
      → (length out ≡ length blob) × (has_exif_segment out ≡ has_exif_segment blob)
  unfolding with_density
  with_density_keeps none blob out h = rw (rendered-injective _ _ h) (refl, refl)
  with_density_keeps (some ppi) blob out h = elim (Bool-cases (is_truthy ppi)) [
    | inr e ↦ let same = rendered-injective _ _ (rw e at h) in rw same (refl, refl)
    | inl e ↦
        let (long, exif, _) =
          rewrite_keeps blob (n.to_uint32 ppi) out (density_result-some _ out (rw e at h)) in
        (long, exif)
  ]

  -- A picture of the size that the editor resolves, drawn on a canvas of this size with the matrix of the
  -- preview: the file is one of the encoder's on this canvas, of whatever quality, with the density of the
  -- template, as many bytes, and within
  -- the limit of the template; the manifest and the scan are those of this size, matrix and canvas.
  abbrev pub IsFinished :
      {C X : Type 0}
      → RenderDeps R C X
      → SourceImage
      → TemplateEntry R
      → EditTransform R
      → Option OutputSizeOption
      → FinalArtifact R
      → Type ℓ
  IsFinished {X = X} deps img entry t selected a =
      (size : OutputSizeOption) × (ppi : Option R) × (ctx : X) × (q : R) × (blob : List ℕ)
      × (resolve_output_size entry.revision selected ≡ some size)
      × (is_valid_transform t (source_rect img) (rect_of size) ≡ some true)
      × (deps.canvas_context (deps.create_canvas size.width size.height) ≡ some ctx)
      × (a.manifest ≡ manifest_of entry.revision t img size)
      × (deps.to_blob (deps.draw ctx (render_matrix t (source_rect img) (rect_of size)) img) q
          ≡ some blob)
      × (render_size entry.revision.output (some size) ≡ rendered (size, ppi))
      × (with_density ppi blob ≡ rendered a.blob)
      × (length a.blob ≡ length blob)
      × ((k : ℕ) → max_bytes_of entry.revision.output_file ≡ some (suc k) → length a.blob ≤ suc k)
      × (a.coverage
          ≡ scan_data size.width size.height (
              deps.read_pixels
                (deps.draw ctx (render_matrix t (source_rect img) (rect_of size)) img) size.width
                size.height))
