-- ===== src/Render/Checks/Tests.antt =====
-- frontend/src/render/checks.ts on whole numbers: a print of 10 pixels at 600 dots per inch.
use Prim.Native.String.{String}
use portrait_booth.Base.{
  ℕ, ◌≡◌, refl, Option, none, some, List, [], ◌∷◌, filter, done, false, arith,
}
use portrait_booth.Base.Int.{ℤ, pos, ◌+ℤ◌, ◌-ℤ◌, ◌*ℤ◌}
use portrait_booth.Number.Whole.{whole_numbers}
use portrait_booth.Samples.{kept, entry}
use portrait_booth.Jpeg.{
  has_exif_segment, rewrite_jfif_density_bytes, next_segment, is_app0, is_app1, write_density,
}
use portrait_booth.Template.{
  Permission, Provenance, physical_raster, PhysicalRaster, TemplateEntry, MeasurementRule, Measure,
  Axis, Evaluation, Enforcement, TemplateRevision,
}
use portrait_booth.Editor.OutputSize.{resolve_output_size}
use portrait_booth.Editor.Transform.{is_valid_transform, render_matrix, cover_scale, compose}
use portrait_booth.Create.{SourceImage}
use portrait_booth.Pose.FaceGeometry.{FaceAnchors}
use portrait_booth.Pose.Quality.{dark_issue, bright_issue}
use portrait_booth.Pose.StaticCheck.{is_problem}
use portrait_booth.Render.Quality.{rendered}
use portrait_booth.Render.Artifact.{
  RenderDeps, FinalArtifact, is_truthy, render_final_artifact, manifest_of, max_bytes_of,
}
use portrait_booth.Render.Geometry.{geometry_checks, CheckStatus}
use portrait_booth.Render.Geometry.Laws.{Answers, is_handled, geometry_checks-Answers}
use mathlib.Core.Option.{some-injective}
use portrait_booth.Render.Checks.{build_checks}
use portrait_booth.Render.Checks.Laws.{NoFail}
use portrait_booth.Render.Checks.Final.{IsWhole, build_checks-NoFail}
use portrait_booth.Render.Checks.Exposure.{Speaks}

abbrev raster : PhysicalRaster ℤ
raster = record {
  width_mm = pos 35;
  height_mm = pos 35;
  print_ppi = pos 600;
  width_px = 10;
  height_px = 10;
  ppi_provenance = Provenance.derived;
  calibration_profile_id = "";
}

abbrev rule : String → String → MeasurementRule ℤ
rule id metric = record {
  id = id;
  metric = metric;
  min = some (pos 1);
  max = some (pos 4);
  target = none;
  tolerance = none;
  measure = Measure.px;
  anchors = [];
  axis = Axis.y_axis;
  coordinate_space = "output_pixel_top_left";
  evaluation = Evaluation.automatic;
  enforcement = Enforcement.mandatory;
  provenance = "";
  source_refs = [];
  source_literal = none;
}

abbrev print_revision : TemplateRevision ℤ
print_revision = record (entry "r1" Permission.allowed).revision {
  output = physical_raster raster;
  crop_rules =
      rule "h" "head_height" ∷ (rule "w" "face_width" ∷ (rule "c" "chin_bottom_margin" ∷ []));
}

abbrev print : TemplateEntry ℤ
print = record (entry "r1" Permission.allowed) { revision = print_revision }

-- SOI, APP0 with "JFIF\0", the units and the density, EOI.
abbrev jfif : ℕ → ℕ → ℕ → List ℕ
jfif units hi lo =
    0xff ∷ 0xd8 ∷ 0xff ∷ 0xe0 ∷ 0 ∷ 16 ∷ 0x4a ∷ 0x46 ∷ 0x49 ∷ 0x46 ∷ 0 ∷ 1 ∷ 1 ∷ units ∷ hi ∷ lo
    ∷ hi ∷ lo ∷ 0 ∷ 0 ∷ 0xff ∷ 0xd9 ∷ 0 ∷ 0 ∷ []

abbrev photo : SourceImage
photo = record { ref = 1; width = 10; height = 10 }

abbrev deps : RenderDeps ℤ Unit Unit
deps = record {
  create_canvas = λ w h. tt;
  canvas_context = λ c. some tt;
  draw = λ x m img. tt;
  to_blob = λ c q. some (jfif 0 0 72);
  random_id = "a";
  read_pixels = λ c w h. none;
}

abbrev artifact : FinalArtifact ℤ
artifact = record {
  artifact_id = "a";
  blob = jfif 1 2 88;
  coverage = record { scanned_pixels = 0; transparent_pixels = 0 };
  manifest = manifest_of print_revision kept photo (record { width = 10; height = 10 });
}

drawn : render_final_artifact deps photo print kept none ≡ rendered artifact
unfolding render_final_artifact max_bytes_of is_valid_transform resolve_output_size ◌+ℤ◌ ◌-ℤ◌ ◌*ℤ◌
    rewrite_jfif_density_bytes next_segment is_app0 write_density
drawn = refl

clean :
    (c : Unit) (q : ℤ) (blob : List ℕ)
    → deps.to_blob c q ≡ some blob
    → has_exif_segment blob ≡ done false
unfolding has_exif_segment next_segment is_app1
clean c q blob h = rw (← some-injective _ _ h) refl

ppi-IsWhole : IsWhole (pos 600) 600
unfolding is_truthy
ppi-IsWhole = record {
  value = refl;
  small = omega arith;
  truthy = refl;
  as_uint32 = refl;
  same = refl;
}

build_checks-NoFail_example : NoFail (build_checks "image/jpeg" artifact print none none)
build_checks-NoFail_example =
    build_checks-NoFail deps photo print kept none artifact none clean (600, ppi-IsWhole) drawn refl

abbrev anchors : FaceAnchors ℤ
anchors = record {
  chin_tip = record { x = pos 5; y = pos 8 };
  hairline = record { x = pos 5; y = pos 2 };
  face_center = record { x = pos 5; y = pos 4 };
  eye_line = record { x = pos 5; y = pos 4 };
}

geometry_checks-Answers_example :
    Answers
      (some anchors)
      (filter is_handled print_revision.crop_rules)
      (geometry_checks print_revision artifact.manifest (some anchors))
geometry_checks-Answers_example =
    geometry_checks-Answers print_revision artifact.manifest (some anchors)

-- A head of 6 pixels, where 4 are allowed, and a chin 2 pixels above the edge.
measured :
    geometry_checks print_revision artifact.manifest (some anchors)
    ≡ (record { id = "crop:h"; label = "Head height"; status = CheckStatus.warn })
      ∷ ((record { id = "crop:c"; label = "Chin to bottom edge"; status = CheckStatus.pass }) ∷ [])
unfolding geometry_checks ◌+ℤ◌ ◌-ℤ◌ ◌*ℤ◌ render_matrix cover_scale compose manifest_of
measured = refl

speaks : Speaks ℤ
unfolding is_problem dark_issue bright_issue
speaks r = (refl, refl)

abbrev gray : ℕ → ℕ → Option (List ℕ)
gray w h = some (128 ∷ 128 ∷ 128 ∷ 255 ∷ [])
