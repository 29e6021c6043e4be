-- ===== src/Retrieve/Tests.antt =====
-- frontend/src/pages/retrieve-page.tsx: two photos are fetched by the Enter key, and one after leaving.
use portrait_booth.Base.{ℕ, ◌+◌, ◌≡◌, refl, true, some, none, List, [], ◌∷◌, count}
use portrait_booth.Key.{is_complete_key, normalize_key_input}
use portrait_booth.Retrieve.{
  Fetched, PageEvent, type_key, press_enter, press_retrieve, fetched, unmount, start, preview_url,
  page_run,
}
use portrait_booth.Retrieve.Laws.{urls, run-balanced}

abbrev same : List ℕ → List ℕ
same text = text

abbrev answer : Fetched
answer = record {
  mime = "image/jpeg";
  expires_at = "2026-01-01T00:00:00Z";
  width = some 600;
  height = some 600;
  byte_length = none;
  blob_size = 9000;
  template = none;
}

abbrev code : List ℕ
code = 0x41 ∷ (0x37 ∷ (0x43 ∷ (0x32 ∷ (0x46 ∷ (0x39 ∷ [])))))

-- The Enter key starts a second fetch while the first one is on its way.
abbrev hasty : List PageEvent
hasty =
    type_key code ∷ (press_retrieve ∷ (press_enter ∷ (fetched 1 answer ∷ (fetched 0 answer ∷ []))))

there : (page_run same same hasty start).mounted ≡ true
unfolding page_run is_complete_key normalize_key_input
there = refl

run-balanced_example :
    let p = page_run same same hasty start in
    count 1 p.made ≡ count 1 p.revoked + count 1 (urls (preview_url p.stage))
run-balanced_example = run-balanced same same hasty 1 there

first_revoked : (page_run same same hasty start).revoked ≡ 0 ∷ []
unfolding page_run is_complete_key normalize_key_input
first_revoked = refl

-- A photo that comes when the page has been left gets a URL that nothing revokes.
left_late :
    let p =
      page_run same same
        (type_key code ∷ (press_retrieve ∷ (unmount ∷ (fetched 0 answer ∷ []))))
        start in
    (p.made ≡ 0 ∷ []) × (p.revoked ≡ [])
unfolding page_run is_complete_key normalize_key_input
left_late = (refl, refl)
