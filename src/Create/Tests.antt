-- ===== src/Create/Tests.antt =====
-- frontend/src/create/create-page.tsx: one user's way through the page.
use portrait_booth.Base.{◌≡◌, ◌⊎◌, refl, true, false, none, some, List, [], ◌∷◌, ℕ}
use portrait_booth.Base.Int.{ℤ}
use portrait_booth.Number.Whole.{whole_numbers}
use portrait_booth.Template.{Permission}
use portrait_booth.Samples.{flipped, entry}
use portrait_booth.Editor.Reproject.{same_transform}
use portrait_booth.Create.{
  dispose_current, Step, SourceMode, SourceImage, Receipt, Page, crop_reset, initial_page, Event,
  shown, staged_stale, step_page, run, calls_back, offers, act, is_some, with_mode, replace_source,
  on_select, enter, go, unmount,
}
use portrait_booth.Create.Sound.Callbacks.{IsSound}
use portrait_booth.Create.Sound.{AreTimely, IsStranded, run_initial-IsSound}
use portrait_booth.Create.Photos.{photos, holds, IsUnique, Reaches, here, next, Reaches-IsUnique}
use portrait_booth.Create.Switch.{work, step_page-work, restart-stale_notice, staged_stale-size}

abbrev photo : ℕ → SourceImage
photo ref = record { ref = ref; width = 10; height = 10 }

-- At the last step, with a flipped photo.
abbrev final_page : Page ℤ
final_page = record {
  step = Step.final;
  selected = some (entry "r1" Permission.allowed);
  source_mode = some SourceMode.upload;
  source = some (photo 1);
  editor_state = some flipped;
  selected_size = none;
  staged = none;
  template_notice = none;
  source_ref = some (photo 1);
  disposed = [];
}

abbrev receipt : Receipt
receipt = record {
  saved = record {
    key = "k";
    key_display = "k";
    delete_secret = "s";
    expires_at = "";
    template_id = "portrait";
    template_version = 1;
    photo_width = 10;
    photo_height = 10;
    photo_mime = "image/jpeg";
  };
  idempotency_key = "i";
}

-- A photo is loaded twice, the second time when the editor is there already.
abbrev session : List (Event ℤ)
session =
    Event.select (entry "r1" Permission.allowed)
    ∷ Event.choose_upload
    ∷ Event.ready (photo 1)
    ∷ Event.confirm
    ∷ Event.ready (photo 2)
    ∷ Event.confirm
    ∷ Event.editor_done flipped
    ∷ Event.final_back
    ∷ []

session-timely : AreTimely session initial_page
unfolding step_page calls_back offers shown act on_select enter go is_some with_mode replace_source
session-timely = (tt, (tt, (refl, (tt, (refl, (tt, (tt, (tt, tt))))))))

run_initial-IsSound_example :
    IsSound (run session initial_page)
    ⊎ (IsStranded (run session initial_page) × (¬ AreTimely session initial_page))
run_initial-IsSound_example = run_initial-IsSound session

abbrev upload_page : Page ℤ
upload_page = record final_page { step = Step.upload; editor_state = none }

replaced : Reaches upload_page (step_page (Event.ready (photo 2)) upload_page)
unfolding dispose_current
replaced = next (Event.ready (photo 2)) upload_page refl here

upload_page-IsUnique : IsUnique (photos upload_page)
unfolding dispose_current
upload_page-IsUnique = (refl, tt)

Reaches-IsUnique_example :
    IsUnique (photos (step_page (Event.ready (photo 2)) upload_page))
    × ((r : ℕ)
        → holds r (photos upload_page) ≡ true
        → holds r (unmount (step_page (Event.ready (photo 2)) upload_page)).disposed ≡ true)
Reaches-IsUnique_example =
    Reaches-IsUnique upload_page (step_page (Event.ready (photo 2)) upload_page) replaced
      upload_page-IsUnique

step_page-work_example : work (step_page Event.final_back final_page) ≡ work final_page
step_page-work_example = step_page-work Event.final_back final_page tt

abbrev template_page : Page ℤ
template_page = record final_page { step = Step.template }

abbrev chosen : Page ℤ
chosen = step_page (Event.select (entry "r1" Permission.forbidden)) template_page

-- The page came by a switch that reset the crop.
abbrev noted_page : Page ℤ
noted_page = record final_page { template_notice = some crop_reset }

noted_page-shown : shown noted_page Step.final ≡ true
unfolding shown
noted_page-shown = refl

restart-stale_notice_example :
    let q =
      run
        (Event.restart true
          ∷ Event.select (entry "r2" Permission.allowed)
          ∷ Event.choose_upload
          ∷ Event.ready (photo 2)
          ∷ [])
        noted_page in
    (q.step ≡ Step.review) × (q.source ≡ some (photo 2)) × (q.template_notice ≡ some crop_reset)
restart-stale_notice_example =
    restart-stale_notice (entry "r2" Permission.allowed) (photo 2) noted_page refl noted_page-shown

same : same_transform flipped.transform flipped.transform ≡ true
unfolding same_transform
same = refl

staged_stale-size_example :
    let q =
      run
        (Event.staged_change (photo 1) flipped.transform (some receipt)
          ∷ Event.final_back
          ∷ Event.editor_back flipped
          ∷ Event.size_change (some (record { width = 20; height = 20 }))
          ∷ Event.confirm
          ∷ Event.editor_done flipped
          ∷ [])
        final_page in
    (q.step ≡ Step.final)
    × (q.selected_size ≡ some (record { width = 20; height = 20 }))
    × (staged_stale q ≡ false)
staged_stale-size_example =
    staged_stale-size (entry "r1" Permission.allowed) (photo 1) receipt flipped
      (some (record { width = 20; height = 20 })) final_page refl refl refl refl same
