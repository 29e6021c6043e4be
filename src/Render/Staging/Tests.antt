-- ===== src/Render/Staging/Tests.antt =====
-- frontend/src/render/staging-panel.tsx: a panel whose first upload arrives and whose answer is lost.
use Prim.Native.String.{String}
use text.Mathlib.TextPositions.{eq_refl}
use portrait_booth.Base.{
  ℕ, ◌+◌, ◌≤◌, ◌≡◌, refl, ◌⊎◌, inl, inr, Bool, true, false, Option, none, some, if◌then◌else◌,
  same_text, if_both, if_cases, arith,
}
use portrait_booth.Create.{SaveResponse}
use portrait_booth.Render.Staging.{
  Failure, Reply, ok, rejected, Server, Panel, error, done, is_session_expired, open_panel,
  show_artifact, upload, press_stage, press_upload, panel_step,
}
use portrait_booth.Render.Staging.Laws.{IsIdempotent, upload_twice}

-- The photos, the key of the last save, and whether the next answer is lost.
record Store : Type 0 where
  photos : ℕ
  last : Option String
  loses : Bool

abbrev lost : Failure
lost = record { code = none; message = "Failed to fetch" }

abbrev envelope : SaveResponse
envelope = record {
  key = "AAAA";
  key_display = "AA-AA";
  delete_secret = "s";
  expires_at = "2026-01-01T00:00:00Z";
  template_id = "us-visa";
  template_version = 1;
  photo_width = 600;
  photo_height = 600;
  photo_mime = "image/jpeg";
}

abbrev held : Option String → String → Bool
held none k = false
held (some j) k = same_text j k

abbrev stored : String → Store → Store
stored k v = record { photos = v.photos + 1; last = some k; loses = false }

abbrev store : Server Store
store = record {
  create_session = λ v. (ok tt, v);
  save = λ k v.
      if held v.last k
      then (ok envelope, v)
      else if v.loses
      then (rejected lost, stored k v)
      else (ok envelope, stored k v);
  delete = λ k s v. (ok tt, v);
}

abbrev key_of : ℕ → String
key_of n = "k"

abbrev holds : String → Store → Bool
holds k v = held v.last k

-- A save keeps its key, whichever way it is answered.
store_saves :
    (P : Reply SaveResponse × Store → Type 0) (k : String) (v : Store)
    → (holds k v ≡ true → P (ok envelope, v))
    → P (rejected lost, stored k v)
    → P (ok envelope, stored k v)
    → P (store.save k v)
store_saves P k v old gone new =
    if_cases P (held v.last k) _ _ old (λ e. if_both P v.loses _ _ gone new)

store-lives :
    (k : String) (v : Store) (f : Failure)
    → (store.save k v).0 ≡ rejected f
    → is_session_expired f ≡ false
unfolding is_session_expired
store-lives k v f =
    store_saves (λ x. x.0 ≡ rejected f → is_session_expired f ≡ false) k v (λ h e. cc) (λ e. cc)
      (λ e. cc)

store-IsIdempotent : IsIdempotent store key_of Store.photos holds
store-IsIdempotent = record {
  session_adds_none = λ v. omega arith;
  save_adds_one = λ k v.
      store_saves (λ x. x.1.photos ≤ v.photos + 1) k v (λ h. omega arith) (omega arith)
        (omega arith);
  save_is_held = λ k v.
      store_saves (λ x. (x.1.photos ≤ v.photos) ⊎ (holds k x.1 ≡ true)) k v (λ h. inl (omega arith))
        (inr (eq_refl k)) (inr (eq_refl k));
  replay_adds_none = λ k v e. rw e (omega arith);
  expired_adds_none = λ k v f e gone. let lives = store-lives k v f e in cc;
}

abbrev shown : Panel Store
shown =
    panel_step store key_of press_stage
      (show_artifact "a1" (open_panel none (record { photos = 4; last = none; loses = true })))

upload_twice_example :
    let q = upload store key_of shown in
    (q.server.photos ≤ shown.server.photos + 1)
    × ((upload store key_of q).server.photos ≤ shown.server.photos + 1)
upload_twice_example =
    upload_twice store key_of store-IsIdempotent shown
      (λ k f key e. store-lives k (upload store key_of shown).server f e)

-- The first upload is answered by an error, and the photo is stored; the second shows it.
stored_once :
    ((panel_step store key_of press_upload shown).stage ≡ error "Failed to fetch")
    × ((panel_step store key_of press_upload shown).server.photos ≡ 5)
unfolding panel_step open_panel
stored_once = (refl, refl)

shown_once :
    let q = panel_step store key_of press_upload (panel_step store key_of press_upload shown) in
    (q.stage ≡ done envelope) × (q.server.photos ≡ 5)
unfolding panel_step open_panel
shown_once = (refl, refl)
