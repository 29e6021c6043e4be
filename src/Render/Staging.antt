-- ===== src/Render/Staging.antt =====
-- frontend/src/render/staging-panel.tsx and frontend/src/api/error-text.ts: staging a photo and deleting
-- it. The server is a parameter with a state of its own: frontend/src/api/save.ts only calls it. A call of
-- it is answered before the next event; the artifact does not change while one is on its way, and what is thrown is an Error.
pub mod Laws
mod Tests
use Prim.Native.String.{String, ◌++◌ as append}
use portrait_booth.Base.{
  ℕ, zero, suc, ◌+◌, Bool, true, false, not, ◌&&◌, ◌||◌, Option, none, some, List, [], ◌∷◌,
  if◌then◌else◌, same_text,
}
use portrait_booth.Create.{SaveResponse, Receipt}

-- What a call throws; the code is that of an `ApiError`.
pub record Failure : Type 0 where
  pub code : Option String
  pub message : String

pub data Reply (A : Type 0) : Type 0 where
  ok : A → Reply A
  rejected : Failure → Reply A

-- The three calls of the server, of the photo of this panel.
pub record Server (V : Type 0) : Type 0 where
  pub create_session : V → Reply (Unit {0}) × V
  pub save : String → V → Reply SaveResponse × V
  pub delete : String → String → V → Reply (Unit {0}) × V

pub data Stage : Type 0 where
  idle confirm uploading : Stage
  done : SaveResponse → Stage
  deleting : SaveResponse → Stage
  error : String → Stage

-- The state of the panel with its references; `made` counts the keys that were made, and `receipt` is
-- what `onStaged` was called with last.
pub record Panel (V : Type 0) : Type 0 where
  pub stage : Stage
  pub delete_error : Option String
  pub idempotency_key : Option String
  pub session_ready : Bool
  pub previous_artifact : Option String
  pub receipt : Option Receipt
  pub made : ℕ
  pub server : V

unfoldable pub error_message : String → Option String
error_message code =
    if same_text code "SESSION_REQUIRED"
    then some
        "could not start a save session. This usually means the page is not on a secure origin: browsers drop the session cookie over plain http, so saving cannot work from a bare IP address. Open the app on localhost or over HTTPS and try again."
    else if same_text code "CROSS_ORIGIN_REJECTED"
    then some
        "the server rejected this request as cross-site. Open the app from the address the server itself is published on, rather than through a proxy or tunnel that rewrites the host."
    else if same_text code "IDEMPOTENCY_IN_PROGRESS"
    then some
        "this photo is still being saved. Wait a moment and retry - retrying is safe and will not create a second copy."
    else if same_text code "IDEMPOTENCY_CONFLICT"
    then some
        "this save was already completed with a different photo. Go back, regenerate the photo, and save again."
    else if same_text code "IDEMPOTENCY_KEY_REQUIRED"
    then some "the save request was incomplete. Retry from this page."
    else if same_text code "IDEMPOTENCY_UNAVAILABLE"
    then some "saving is temporarily unavailable. Wait a moment and retry."
    else if same_text code "PHOTO_TOO_LARGE"
    then some
        "the photo is larger than the server accepts. Go back to the editor and regenerate it at a smaller output size."
    else if same_text code "PHOTO_INVALID"
    then some
        "the server could not read this photo. Go back to the editor and generate the final photo again."
    else if same_text code "PHOTO_SIZE_MISMATCH"
    then some
        "the photo no longer matches the template's required pixel size. Go back to the editor and regenerate it."
    else if same_text code "KEY_EXHAUSTED"
    then some
        "no retrieval code could be allocated right now. Wait a moment and retry; if it keeps failing, staged photos need to expire first."
    else if same_text code "INTERNAL"
    then some "the server hit an unexpected error. Retry; if it persists, the photo was not saved."
    else none

-- `a || b` of texts.
unfoldable pub or_text : String → String → String
or_text a b = if same_text a "" then b else a

unfoldable pub message_of : Option String → String → String
unfolding or_text
message_of none fallback = or_text fallback "saving failed, please retry"
message_of (some message) fallback = message

-- A code that every object has as a property, such as "constructor", is none of the server's.
unfoldable pub error_text : Option String → String → String
unfolding message_of error_message
error_text none fallback = message_of none fallback
error_text (some code) fallback = message_of (error_message code) fallback

unfoldable pub is_session_expired : Failure → Bool
is_session_expired f = elim f.code [ none ↦ false | some code ↦ same_text code "SESSION_REQUIRED" ]

-- `receiptText`, whose lines are joined by line feeds; `decimal` writes a number.
unfoldable pub receipt_lines : (ℕ → String) → SaveResponse → List String
receipt_lines decimal saved =
    "Portrait Booth staging receipt"
    ∷ (""
        ∷ (append "Retrieval code: " saved.key_display
            ∷ (append "Delete secret: " saved.delete_secret
                ∷ (append "Server expiry time: " saved.expires_at
                    ∷ (append "Template: "
                          (append saved.template_id (append "@" (decimal saved.template_version)))
                        ∷ (""
                            ∷ ("The retrieval code retrieves the photo; the delete secret deletes it early."
                                ∷ ("Neither can be recovered; keep this file safe." ∷ []))))))))

unfoldable pub first_stage : Option Receipt → Stage
first_stage none = idle
first_stage (some r) = done r.saved

unfoldable pub first_key : Option Receipt → Option String
first_key none = none
first_key (some r) = some r.idempotency_key

-- The panel when it is mounted, with the receipt that it is given.
unfoldable pub open_panel : {V : Type 0} → Option Receipt → V → Panel V
unfolding first_stage first_key
open_panel staged server = record {
  stage = first_stage staged;
  delete_error = none;
  idempotency_key = first_key staged;
  session_ready = false;
  previous_artifact = none;
  receipt = staged;
  made = 0;
  server = server;
}

unfoldable pub is_other : Option String → String → Bool
is_other none id = false
is_other (some previous) id = not (same_text previous id)

unfoldable pub or_fresh : Option String → String → String
or_fresh none fresh = fresh
or_fresh (some key) fresh = key

unfoldable pub is_absent : Option String → Bool
is_absent none = true
is_absent (some key) = false

module _ {V : Type 0} where
  -- The effect on the id of the artifact: another one is another save.
  unfoldable pub show_artifact : String → Panel V → Panel V
  unfolding is_other
  show_artifact id p = record p {
    idempotency_key = if is_other p.previous_artifact id then none else p.idempotency_key;
    previous_artifact = some id;
  }

module _ {V : Type 0} (server : Server V) (new_key : ℕ → String) where
  -- A `catch` of the loop: `again` is the next round, where there is one.
  unfoldable pub on_failure : Option (Panel V → Panel V) → Failure → Panel V → Panel V
  unfolding is_session_expired error_text
  on_failure none f p = record p { stage = error (error_text f.code f.message) }
  on_failure (some again) f p =
      if is_session_expired f
      then again (record p {
        session_ready = false;
        idempotency_key = some (new_key p.made);
        made = p.made + 1;
      })
      else record p { stage = error (error_text f.code f.message) }

  unfoldable pub on_saved :
      Option (Panel V → Panel V) → String → Reply SaveResponse × V → Panel V → Panel V
  unfolding on_failure
  on_saved again key (ok saved, v) p = record p {
    stage = done saved;
    receipt = some (record { saved = saved; idempotency_key = key });
    server = v;
  }
  on_saved again key (rejected f, v) p = on_failure again f (record p { server = v })

  unfoldable pub send : Option (Panel V → Panel V) → String → Panel V → Panel V
  unfolding on_saved
  send again key p = on_saved again key (server.save key p.server) p

  unfoldable pub on_session :
      Option (Panel V → Panel V) → String → Reply (Unit {0}) × V → Panel V → Panel V
  unfolding send on_failure
  on_session again key (ok u, v) p = send again key (record p { server = v; session_ready = true })
  on_session again key (rejected f, v) p = on_failure again f (record p { server = v })

  -- One round of the loop: `ensureSaveSession`, then the save. The key is there since `upload` began.
  unfoldable pub attempt : Option (Panel V → Panel V) → Panel V → Panel V
  unfolding send on_session or_fresh
  attempt again p =
      let key = or_fresh p.idempotency_key "" in
      if p.session_ready
      then send again key p
      else on_session again key (server.create_session p.server) p

  -- Two rounds at most.
  unfoldable pub upload : Panel V → Panel V
  unfolding attempt or_fresh is_absent
  upload p = attempt (some (attempt none)) (record p {
    stage = uploading;
    idempotency_key = some (or_fresh p.idempotency_key (new_key p.made));
    made = if is_absent p.idempotency_key then p.made + 1 else p.made;
  })

  unfoldable pub on_deleted : SaveResponse → Reply (Unit {0}) × V → Panel V → Panel V
  unfolding error_text
  on_deleted saved (ok u, v) p = record p {
    stage = idle;
    delete_error = none;
    idempotency_key = none;
    receipt = none;
    server = v;
  }
  on_deleted saved (rejected f, v) p = record p {
    stage = done saved;
    delete_error = some (error_text f.code f.message);
    server = v;
  }

  unfoldable pub remove_saved : Stage → Panel V → Panel V
  unfolding on_deleted
  remove_saved (done saved) p =
      on_deleted saved (server.delete saved.key saved.delete_secret p.server) p
  remove_saved (deleting saved) p =
      on_deleted saved (server.delete saved.key saved.delete_secret p.server) p
  remove_saved _ p = p

  unfoldable pub remove : Panel V → Panel V
  unfolding remove_saved
  remove p = remove_saved p.stage p

-- The buttons that the panel shows by its stage, and the effect on the artifact.
pub data PanelEvent : Type 0 where
  press_stage press_cancel press_upload press_delete : PanelEvent
  artifact_shown : String → PanelEvent

module _ {V : Type 0} (server : Server V) (new_key : ℕ → String) where
  unfoldable pub press : PanelEvent → Stage → Panel V → Panel V
  unfolding upload remove show_artifact
  press press_stage idle p = record p { stage = confirm }
  press press_cancel confirm p = record p { stage = idle }
  press press_cancel (error message) p = record p { stage = idle }
  press press_upload confirm p = upload server new_key p
  press press_upload (error message) p = upload server new_key p
  press press_delete (done saved) p = remove server new_key p
  press (artifact_shown id) stage p = show_artifact id p
  press _ _ p = p

  unfoldable pub panel_step : PanelEvent → Panel V → Panel V
  unfolding press
  panel_step e p = press e p.stage p
