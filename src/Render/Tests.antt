-- ===== src/Render/Tests.antt =====
-- frontend/src/render/final-artifact.ts on whole numbers, with an encoder whose files have two bytes.
use portrait_booth.Base.{ℕ, ◌<◌, ◌≡◌, refl, ◌⊎◌, Option, none, some, List, [], ◌∷◌}
use portrait_booth.Base.Int.{ℤ}
use portrait_booth.Number.Whole.{whole_numbers}
use portrait_booth.Samples.{kept, entry}
use portrait_booth.Template.{Permission}
use portrait_booth.Create.{SourceImage}
use portrait_booth.Render.Quality.{rendered, failed, size_limit, search_quality}
use portrait_booth.Render.Quality.Laws.{IsFit, search_quality-outcome}
use portrait_booth.Render.Artifact.{RenderDeps, FinalArtifact, manifest_of}

abbrev encoder : ℤ → Option (List ℕ)
encoder q = some (0xff ∷ 0xd8 ∷ [])

search_quality-outcome_example :
    ((blob : List ℕ) × (search_quality encoder 2 ≡ rendered blob) × IsFit encoder 2 blob)
    ⊎ ((search_quality encoder 2 ≡ failed size_limit) × (2 < 2))
search_quality-outcome_example =
    search_quality-outcome encoder 2 (λ q. (0xff ∷ 0xd8 ∷ [], refl)) (0xff ∷ 0xd8 ∷ []) refl

abbrev photo : SourceImage
photo = record { ref = 1; width = 10; height = 10 }

-- A canvas is its size.
abbrev deps : RenderDeps ℤ (ℕ × ℕ) (ℕ × ℕ)
deps = record {
  create_canvas = λ w h. (w, h);
  canvas_context = λ c. some c;
  draw = λ x m img. x;
  to_blob = λ c q. some (0xff ∷ 0xd8 ∷ []);
  random_id = "a";
  read_pixels = λ c w h. none;
}

abbrev artifact : FinalArtifact ℤ
artifact = record {
  artifact_id = "a";
  blob = 0xff ∷ 0xd8 ∷ [];
  coverage = record { scanned_pixels = 0; transparent_pixels = 0 };
  manifest =
      manifest_of (entry "r1" Permission.allowed).revision kept photo
        (record { width = 10; height = 10 });
}
