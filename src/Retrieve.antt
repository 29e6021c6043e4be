-- ===== src/Retrieve.antt =====
-- frontend/src/pages/retrieve-page.tsx: fetching a photo by its retrieval code, and deleting it. The server's
-- answers come in any order: what waits is kept in lists, and an answer ends one of the waits by its place in
-- the list. The resolving and the download are one wait. Object URLs are numbered as they are made.
pub mod Laws
mod Tests
use Prim.Native.String.{String}
use portrait_booth.Base.{
  ℕ, zero, suc, ◌+◌, ◌==◌, Bool, true, false, not, ◌&&◌, ◌||◌, Option, none, some, List, [], ◌∷◌,
  if◌then◌else◌,
}
use portrait_booth.Key.{normalize_key_input, is_complete_key}
use portrait_booth.Create.Capture.{pick}

-- What a call throws; the status is that of an `ApiError`.
pub record Failure : Type 0 where
  pub status : Option ℕ
  pub message : String

-- An answer, with the size of the blob; the photo's own length may be absent.
pub record Fetched : Type 0 where
  pub mime : String
  pub expires_at : String
  pub width : Option ℕ
  pub height : Option ℕ
  pub byte_length : Option ℕ
  pub blob_size : ℕ
  pub template : Option (String × ℕ)

pub record Shown : Type 0 where
  pub photo_url : ℕ
  pub mime : String
  pub expires_at : String
  pub width : Option ℕ
  pub height : Option ℕ
  pub byte_length : ℕ
  pub template : Option (String × ℕ)

pub data Stage : Type 0 where
  idle resolving : Stage
  resolved : Shown → Stage
  error : String → Stage

pub data DeleteStage : Type 0 where
  idle confirm deleting done : DeleteStage
  error : String → DeleteStage

-- `fetches` are the keys of the photos that are waited for, `deletes` those of the deletions with their
-- secrets.
pub record Page : Type 0 where
  pub mounted : Bool
  pub key : List ℕ
  pub stage : Stage
  pub delete_secret : List ℕ
  pub delete_stage : DeleteStage
  pub fetches : List (List ℕ)
  pub deletes : List (List ℕ × List ℕ)
  pub next_url : ℕ
  pub made : List ℕ
  pub revoked : List ℕ

-- Typing, the buttons and the Enter key, the two kinds of answer, and leaving the page.
pub data PageEvent : Type 0 where
  type_key type_secret : List ℕ → PageEvent
  press_retrieve press_enter press_delete press_confirm press_cancel : PageEvent
  fetched : ℕ → Fetched → PageEvent
  fetch_failed : ℕ → Failure → PageEvent
  deleted : ℕ → PageEvent
  delete_failed : ℕ → Failure → PageEvent
  unmount : PageEvent

abbrev pub start : Page
start = record {
  mounted = true;
  key = [];
  stage = Stage.idle;
  delete_secret = [];
  delete_stage = DeleteStage.idle;
  fetches = [];
  deletes = [];
  next_url = 0;
  made = [];
  revoked = [];
}

unfoldable pub resolve_error_message : Failure → String
resolve_error_message f = elim f.status [
  | none ↦ f.message
  | some status ↦
      if status == 404
      then "photo unavailable: the retrieval code is invalid, expired, or the photo was deleted."
      else f.message
]

-- `previewUrl`.
unfoldable pub preview_url : Stage → Option ℕ
preview_url (Stage.resolved s) = some s.photo_url
preview_url _ = none

unfoldable pub is_resolving : Stage → Bool
is_resolving Stage.resolving = true
is_resolving _ = false

-- The effect's cleanup: the URL that was shown is revoked.
unfoldable pub revoke : Option ℕ → List ℕ → List ℕ
revoke none revoked = revoked
revoke (some url) revoked = url ∷ revoked

-- `setStage` and the effect that follows; a new stage never shows the URL of the one before. Once the page
-- is left, a state is not set any more.
unfoldable pub set_stage : Stage → Page → Page
unfolding preview_url revoke
set_stage stage p =
    if p.mounted
    then record p { stage = stage; revoked = revoke (preview_url p.stage) p.revoked }
    else p

unfoldable pub set_delete_stage : DeleteStage → Page → Page
set_delete_stage stage p = if p.mounted then record p { delete_stage = stage } else p

-- `resolve` up to its first wait.
unfoldable pub resolve : Page → Page
unfolding set_stage
resolve p =
    if is_complete_key p.key
    then set_stage Stage.resolving
        (record p { delete_stage = DeleteStage.idle; fetches = p.key ∷ p.fetches })
    else set_stage (Stage.error "the retrieval code must be 6 letters or digits") p

unfoldable pub shown : ℕ → Fetched → Shown
shown url f = record {
  photo_url = url;
  mime = f.mime;
  expires_at = f.expires_at;
  width = f.width;
  height = f.height;
  byte_length = elim f.byte_length [ none ↦ f.blob_size | some n ↦ n ];
  template = f.template;
}

-- The URL is made first, whether or not the page is still there.
unfoldable pub show_fetched : Fetched → Page → Page
unfolding set_stage shown
show_fetched f p =
    set_stage (Stage.resolved (shown p.next_url f))
      (record p { next_url = p.next_url + 1; made = p.next_url ∷ p.made })

unfoldable pub is_empty : List ℕ → Bool
is_empty [] = true
is_empty (c ∷ cs) = false

-- The buttons for deleting are enabled.
unfoldable pub may_delete : Page → Bool
unfolding is_empty
may_delete p = is_complete_key p.key && not (is_empty p.delete_secret)

-- `remove` up to its wait, from the stage "confirm".
unfoldable pub remove : DeleteStage → Page → Page
unfolding may_delete set_delete_stage
remove DeleteStage.confirm p =
    if may_delete p
    then set_delete_stage DeleteStage.deleting
        (record p { deletes = (p.key, p.delete_secret) ∷ p.deletes })
    else p
remove _ p = p

unfoldable pub ask_delete : DeleteStage → Page → Page
unfolding may_delete set_delete_stage
ask_delete DeleteStage.idle p = if may_delete p then set_delete_stage DeleteStage.confirm p else p
ask_delete (DeleteStage.error m) p =
    if may_delete p then set_delete_stage DeleteStage.confirm p else p
ask_delete _ p = p

unfoldable pub cancel_delete : DeleteStage → Page → Page
unfolding set_delete_stage
cancel_delete DeleteStage.confirm p = set_delete_stage DeleteStage.idle p
cancel_delete _ p = p

unfoldable pub end_fetch : Option (List ℕ × List (List ℕ)) → (Page → Page) → Page → Page
end_fetch none after p = p
end_fetch (some w) after p = after (record p { fetches = w.1 })

unfoldable pub end_delete :
    Option ((List ℕ × List ℕ) × List (List ℕ × List ℕ)) → (Page → Page) → Page → Page
end_delete none after p = p
end_delete (some w) after p = after (record p { deletes = w.1 })

module _ (upper trim : List ℕ → List ℕ) where
  -- A control of the page.
  unfoldable pub press : PageEvent → Page → Page
  unfolding resolve ask_delete remove cancel_delete is_resolving
  press (type_key raw) p = record p { key = normalize_key_input upper raw }
  press (type_secret raw) p = record p { delete_secret = trim raw }
  press press_retrieve p =
      if is_resolving p.stage || not (is_complete_key p.key) then p else resolve p
  press press_enter p = resolve p
  press press_delete p = ask_delete p.delete_stage p
  press press_confirm p = remove p.delete_stage p
  press press_cancel p = cancel_delete p.delete_stage p
  press unmount p = record p { mounted = false; revoked = revoke (preview_url p.stage) p.revoked }
  press _ p = p

  unfoldable pub page_step : PageEvent → Page → Page
  unfolding press end_fetch end_delete show_fetched set_stage set_delete_stage resolve_error_message
      pick
  page_step (fetched i f) p = end_fetch (pick i p.fetches) (show_fetched f) p
  page_step (fetch_failed i f) p =
      end_fetch (pick i p.fetches) (set_stage (Stage.error (resolve_error_message f))) p
  page_step (deleted i) p =
      end_delete (pick i p.deletes)
        (λ q. set_stage Stage.idle (set_delete_stage DeleteStage.done q)) p
  page_step (delete_failed i f) p =
      end_delete (pick i p.deletes) (set_delete_stage (DeleteStage.error f.message)) p
  page_step e p = if p.mounted then press e p else p

  unfoldable pub page_run : List PageEvent → Page → Page
  unfolding page_step
  page_run [] p = p
  page_run (e ∷ es) p = page_run es (page_step e p)
