-- ===== src/Render/Checks/Final.antt =====
-- frontend/src/render/checks.ts on the pictures that frontend/src/render/final-artifact.ts makes.
use portrait_booth.Base.{
  ℕ, zero, suc, ◌≤◌, ◌<◌, ◌≡◌, ◌++◌, refl, sym, ◌∙◌, ap, subst, true, false, not, Option, none,
  some, List, leb, le→leb, length, if_both, done, arith,
}
use portrait_booth.Number.{Number}
use portrait_booth.Jpeg.{read_jpeg_density, has_exif_segment}
use portrait_booth.Jpeg.Rewrite.{read-rewrite}
use portrait_booth.Template.{
  OutputProfile, exact_pixels, ranged_pixels, physical_raster, portal_source, guidance_only,
  TemplateRevision, TemplateEntry,
}
use portrait_booth.Editor.OutputSize.{OutputSizeOption, whole, resolve_output_size}
use portrait_booth.Editor.Transform.{EditTransform}
use portrait_booth.Create.{SourceImage}
use portrait_booth.Pose.StaticCheck.{StaticCheckResult}
use portrait_booth.Render.Quality.{rendered}
use portrait_booth.Render.Artifact.{
  RenderDeps, FinalArtifact, CoverageReport, render_size, with_density, is_truthy, max_bytes_of,
  manifest_of, render_final_artifact,
}
use portrait_booth.Render.Artifact.Laws.{IsFinal, render_final_artifact-IsFinal, rendered-injective}
use portrait_booth.Render.Artifact.File.{density_result-some, compress-encoded, with_density_keeps}
use portrait_booth.Render.Geometry.{pass, unknown}
use portrait_booth.Render.Geometry.{geometry_checks}
use portrait_booth.Render.Geometry.Laws.{geometry_checks-Answers, Answers-ne_fail}
use portrait_booth.Render.Checks.{
  pose_check, exposure_check, background_check, anchors_of_check, publication_check,
  capture_rule_checks, item, ended, alpha_status, file_size_check, matches_size, has_density,
  print_density_check, build_checks,
}
use portrait_booth.Render.Checks.Laws.{
  NoFail, NoFail-append, NotFail, item-NoFail, pass_or_fail-ne_fail, capture_rule_checks-NoFail,
  publication_check-NoFail, pose_check-NoFail, exposure_check-NoFail, background_check-NoFail,
  resolution_status-ne_fail,
}

module _ {ℓ} {R : Type ℓ} ⦃n : Number R⦄ where
  -- The pixel size, the file size and the density of what the renderer makes.
  matches_size-manifest :
      (rev : TemplateRevision R) (t : EditTransform R) (img : SourceImage) (size : OutputSizeOption)
      → matches_size (some size) (manifest_of rev t img size) ≡ true
  unfolding matches_size manifest_of
  matches_size-manifest rev t img size = ground arith

  -- A whole density, of which the number operations give back what the literal says.
  pub record IsWhole (ppi : R) (k : ℕ) : Type ℓ where
    pub value : ppi ≡ whole k
    pub small : k < 65536
    pub truthy : is_truthy ppi ≡ true
    pub as_uint32 : n.to_uint32 ppi ≡ k
    pub same : n.eq (whole k) ppi ≡ true

  with_density-read :
      (ppi : R) (k : ℕ) (blob out : List ℕ)
      → IsWhole ppi k
      → with_density (some ppi) blob ≡ rendered out
      → read_jpeg_density out ≡ done (some (record { units = 1; xdensity = k; ydensity = k }))
  unfolding with_density
  with_density-read ppi k blob out w h =
      let written = density_result-some _ out (rw w.truthy at h) in
      read-rewrite blob k out w.small (rw w.as_uint32 at written)

  -- The density that the template of a print asks for is a whole number of two bytes.
  abbrev pub HasWholePpi : OutputProfile R → Type ℓ
  HasWholePpi (physical_raster p) = (k : ℕ) × IsWhole p.print_ppi k
  HasWholePpi _ = Unit

  print_density_check-NoFail :
      (output : OutputProfile R) (size : OutputSizeOption) (ppi : Option R) (blob out : List ℕ)
      → HasWholePpi output
      → render_size output (some size) ≡ rendered (size, ppi)
      → with_density ppi blob ≡ rendered out
      → NoFail (print_density_check output out)
  unfolding print_density_check render_size has_density
  print_density_check-NoFail (physical_raster p) size ppi blob out (k, w) sized h =
      let same : some p.print_ppi ≡ ppi = ap (λ x. x.1) (rendered-injective _ _ sized) in
      let read = with_density-read p.print_ppi k blob out w (rw same h) in
      rw (read, w.same)
        (item-NoFail "print-density" "Print density" _ (pass_or_fail-ne_fail true refl))
  print_density_check-NoFail (exact_pixels p) size ppi blob out w sized h = tt
  print_density_check-NoFail (ranged_pixels p) size ppi blob out w sized h = tt
  print_density_check-NoFail (portal_source p) size ppi blob out w sized h = tt
  print_density_check-NoFail (guidance_only r) size ppi blob out w sized h = tt

file_size_check-NoFail :
    (max : Option ℕ) (size : ℕ)
    → ((k : ℕ) → max ≡ some (suc k) → size ≤ suc k)
    → NoFail (file_size_check max size)
unfolding file_size_check
file_size_check-NoFail (some (suc k)) size h =
    item-NoFail "file-size" "File size" _
      (pass_or_fail-ne_fail (leb size (suc k)) (le→leb size (suc k) (h k refl)))
file_size_check-NoFail (some zero) size h = tt
file_size_check-NoFail none size h = tt

alpha_status-ne_fail : (c : CoverageReport) → c.transparent_pixels ≡ 0 → NotFail (alpha_status c)
unfolding alpha_status
alpha_status-ne_fail c h = rw h (if_both NotFail _ unknown pass (λ e. cc) (λ e. cc))

module _ {ℓ} {R : Type ℓ} ⦃n : Number R⦄ where
  -- The checks that only warn.
  observed :
      (a : FinalArtifact R) (entry : TemplateEntry R) (checks : Option (StaticCheckResult R))
      → NoFail (
          pose_check checks
          ++ (exposure_check checks
              ++ (background_check checks
                  ++ (geometry_checks entry.revision a.manifest (anchors_of_check checks)
                      ++ (publication_check entry.publication
                          ++ capture_rule_checks entry.revision)))))
  observed a entry checks =
      let rev = entry.revision in
      let anchors = anchors_of_check checks in
      NoFail-append (pose_check checks) _ (pose_check-NoFail checks) (
        NoFail-append (exposure_check checks) _ (exposure_check-NoFail checks) (
          NoFail-append (background_check checks) _ (background_check-NoFail checks) (
            NoFail-append (geometry_checks rev a.manifest anchors) _
              (Answers-ne_fail anchors _ _ (geometry_checks-Answers rev a.manifest anchors))
              (NoFail-append (publication_check entry.publication) (capture_rule_checks rev)
                (publication_check-NoFail entry.publication) (capture_rule_checks-NoFail rev)))))

  -- The checks of a picture that has what `IsFinal` says.
  final-NoFail :
      {C X : Type 0} (deps : RenderDeps R C X) (img : SourceImage) (entry : TemplateEntry R)
      (t : EditTransform R) (selected : Option OutputSizeOption) (a : FinalArtifact R)
      (checks : Option (StaticCheckResult R))
      → ((c : C) (q : R) (blob : List ℕ)
          → deps.to_blob c q ≡ some blob
          → has_exif_segment blob ≡ done false)
      → HasWholePpi entry.revision.output
      → a.coverage.transparent_pixels ≡ 0
      → IsFinal deps img entry t selected a
      → NoFail (build_checks "image/jpeg" a entry checks selected)
  unfolding build_checks item
  final-NoFail deps img entry t selected a checks clean ppi_ok opaque
        (size, ppi, ctx, blob, resolved, sized, _, _, manifest, _, small, dense) =
      let rev = entry.revision in
      let (made, fits) = compress-encoded _ (max_bytes_of rev.output_file) blob small in
      let (long, exif) = with_density_keeps ppi blob a.blob dense in
      let (q, from) = made in
      let no_exif = exif ∙ clean _ q blob from in
      let stripped : not (ended (has_exif_segment a.blob) false) ≡ true = rw no_exif refl in
      let exact : matches_size (resolve_output_size rev selected) a.manifest ≡ true =
        rw (resolved, manifest) (matches_size-manifest rev t img size) in
      let rest =
        NoFail-append (print_density_check rev.output a.blob) _
          (print_density_check-NoFail rev.output size ppi blob a.blob ppi_ok sized dense)
          (
            alpha_status-ne_fail a.coverage opaque,
            (resolution_status-ne_fail a.manifest.matrix, observed a entry checks),
          ) in
      let files =
        NoFail-append (file_size_check (max_bytes_of rev.output_file) (length a.blob)) _
          (file_size_check-NoFail _ _ (λ k e. subst (λ x. x ≤ suc k) (sym long) (fits k e))) rest in
      (
        pass_or_fail-ne_fail _ exact,
        (pass_or_fail-ne_fail _ refl, (pass_or_fail-ne_fail _ stripped, files)),
      )

  -- A picture that the renderer makes, saved as image/jpeg, of which no pixel that was scanned is
  -- transparent, with an encoder that writes no EXIF data, and with a whole density of two bytes where the
  -- template is a print: checked against the same template and the same selected size, whatever the
  -- recheck of the photo found, none of its checks fails.
  pub build_checks-NoFail :
      {C X : Type 0} (deps : RenderDeps R C X) (img : SourceImage) (entry : TemplateEntry R)
      (t : EditTransform R) (selected : Option OutputSizeOption) (a : FinalArtifact R)
      (checks : Option (StaticCheckResult R))
      → ((c : C) (q : R) (blob : List ℕ)
          → deps.to_blob c q ≡ some blob
          → has_exif_segment blob ≡ done false)
      → HasWholePpi entry.revision.output
      → render_final_artifact deps img entry t selected ≡ rendered a
      → a.coverage.transparent_pixels ≡ 0
      → NoFail (build_checks "image/jpeg" a entry checks selected)
  build_checks-NoFail deps img entry t selected a checks clean ppi_ok made opaque =
      final-NoFail deps img entry t selected a checks clean ppi_ok opaque
        (render_final_artifact-IsFinal deps img entry t selected a made)
