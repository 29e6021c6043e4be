-- ===== src/Retrieve/Laws.antt =====
-- frontend/src/pages/retrieve-page.tsx: the object URLs of the page.
use portrait_booth.Base.{
  ℕ, ◌+◌, ◌≡◌, refl, ap, true, not, ◌||◌, Option, none, some, List, [], ◌∷◌, if◌then◌else◌, if_both,
  if_cases, count, arith,
}
use portrait_booth.Key.{is_complete_key}
use portrait_booth.Create.Capture.{pick}
use portrait_booth.Retrieve.{
  Fetched, Stage, DeleteStage, Page, PageEvent, type_key, type_secret, press_retrieve, press_enter,
  press_delete, press_confirm, press_cancel, fetched, fetch_failed, deleted, delete_failed, unmount,
  start, preview_url, is_resolving, revoke, resolve_error_message, set_stage, set_delete_stage,
  resolve, show_fetched, may_delete, remove, ask_delete, cancel_delete, end_fetch, end_delete,
  shown, press, page_step, page_run,
}

abbrev pub urls : Option ℕ → List ℕ
urls none = []
urls (some url) = url ∷ []

-- While the page is there, the URLs that were made are those that were revoked and the one that is shown.
abbrev pub IsBalanced : Page → Type 0
IsBalanced p =
    p.mounted ≡ true
    → (u : ℕ) → count u p.made ≡ count u p.revoked + count u (urls (preview_url p.stage))

-- The stage to come shows what is not accounted for.
abbrev Brings : Stage → Page → Type 0
Brings stage p =
    p.mounted ≡ true
    → (u : ℕ)
    → count u p.made
      ≡ count u p.revoked
        + count u (urls (preview_url p.stage))
        + count u (urls (preview_url stage))

count-revoke :
    (u : ℕ) (o : Option ℕ) (revoked : List ℕ)
    → count u (revoke o revoked) ≡ count u revoked + count u (urls o)
unfolding revoke
count-revoke u none revoked = omega arith
count-revoke u (some url) revoked = omega arith

set_stage-IsBalanced : (stage : Stage) (p : Page) → Brings stage p → IsBalanced (set_stage stage p)
unfolding set_stage
set_stage-IsBalanced stage p h =
    if_cases IsBalanced p.mounted _ p
      (λ e _ u. omega (arith, h e u, count-revoke u (preview_url p.stage) p.revoked)) (λ e m. cc)

set_delete_stage-IsBalanced :
    (s : DeleteStage) (p : Page) → IsBalanced p → IsBalanced (set_delete_stage s p)
unfolding set_delete_stage
set_delete_stage-IsBalanced s p h = if_both IsBalanced p.mounted _ p h h

-- A stage that shows no photo.
set_plain_stage :
    (stage : Stage) (p : Page)
    → preview_url stage ≡ none
    → IsBalanced p
    → IsBalanced (set_stage stage p)
set_plain_stage stage p plain h =
    set_stage-IsBalanced stage p
      (λ m u. let empty = ap (λ o. count u (urls o)) plain in omega (arith, h m u, empty))

resolve-IsBalanced : (p : Page) → IsBalanced p → IsBalanced (resolve p)
unfolding resolve preview_url
resolve-IsBalanced p h =
    if_both IsBalanced (is_complete_key p.key) _ _
      (set_plain_stage Stage.resolving
        (record p { delete_stage = DeleteStage.idle; fetches = p.key ∷ p.fetches }) refl h)
      (set_plain_stage (Stage.error "the retrieval code must be 6 letters or digits") p refl h)

show_fetched-IsBalanced : (f : Fetched) (p : Page) → IsBalanced p → IsBalanced (show_fetched f p)
unfolding show_fetched preview_url shown
show_fetched-IsBalanced f p h =
    set_stage-IsBalanced (Stage.resolved (shown p.next_url f))
      (record p { next_url = p.next_url + 1; made = p.next_url ∷ p.made })
      (λ m u. omega (arith, h m u))

end_fetch-IsBalanced :
    (o : Option (List ℕ × List (List ℕ))) (after : Page → Page) (p : Page)
    → ((q : Page) → IsBalanced q → IsBalanced (after q))
    → IsBalanced p
    → IsBalanced (end_fetch o after p)
unfolding end_fetch
end_fetch-IsBalanced none after p keeps h = h
end_fetch-IsBalanced (some w) after p keeps h = keeps (record p { fetches = w.1 }) h

end_delete-IsBalanced :
    (o : Option ((List ℕ × List ℕ) × List (List ℕ × List ℕ))) (after : Page → Page) (p : Page)
    → ((q : Page) → IsBalanced q → IsBalanced (after q))
    → IsBalanced p
    → IsBalanced (end_delete o after p)
unfolding end_delete
end_delete-IsBalanced none after p keeps h = h
end_delete-IsBalanced (some w) after p keeps h = keeps (record p { deletes = w.1 }) h

ask_delete-IsBalanced : (s : DeleteStage) (p : Page) → IsBalanced p → IsBalanced (ask_delete s p)
unfolding ask_delete
ask_delete-IsBalanced DeleteStage.idle p h =
    if_both IsBalanced (may_delete p) _ p (set_delete_stage-IsBalanced DeleteStage.confirm p h) h
ask_delete-IsBalanced (DeleteStage.error m) p h =
    if_both IsBalanced (may_delete p) _ p (set_delete_stage-IsBalanced DeleteStage.confirm p h) h
ask_delete-IsBalanced DeleteStage.confirm p h = h
ask_delete-IsBalanced DeleteStage.deleting p h = h
ask_delete-IsBalanced DeleteStage.done p h = h

remove-IsBalanced : (s : DeleteStage) (p : Page) → IsBalanced p → IsBalanced (remove s p)
unfolding remove
remove-IsBalanced DeleteStage.confirm p h =
    if_both IsBalanced (may_delete p) _ p (set_delete_stage-IsBalanced DeleteStage.deleting _ h) h
remove-IsBalanced DeleteStage.idle p h = h
remove-IsBalanced (DeleteStage.error m) p h = h
remove-IsBalanced DeleteStage.deleting p h = h
remove-IsBalanced DeleteStage.done p h = h

cancel_delete-IsBalanced :
    (s : DeleteStage) (p : Page) → IsBalanced p → IsBalanced (cancel_delete s p)
unfolding cancel_delete
cancel_delete-IsBalanced DeleteStage.confirm p h = set_delete_stage-IsBalanced DeleteStage.idle p h
cancel_delete-IsBalanced DeleteStage.idle p h = h
cancel_delete-IsBalanced (DeleteStage.error m) p h = h
cancel_delete-IsBalanced DeleteStage.deleting p h = h
cancel_delete-IsBalanced DeleteStage.done p h = h

start-IsBalanced : IsBalanced start
unfolding preview_url
start-IsBalanced m u = refl

module _ (upper trim : List ℕ → List ℕ) where
  press-IsBalanced : (e : PageEvent) (p : Page) → IsBalanced p → IsBalanced (press upper trim e p)
  unfolding press
  press-IsBalanced (type_key raw) p h = h
  press-IsBalanced (type_secret raw) p h = h
  press-IsBalanced press_retrieve p h =
      if_both IsBalanced (is_resolving p.stage || not (is_complete_key p.key)) p _ h
        (resolve-IsBalanced p h)
  press-IsBalanced press_enter p h = resolve-IsBalanced p h
  press-IsBalanced press_delete p h = ask_delete-IsBalanced p.delete_stage p h
  press-IsBalanced press_confirm p h = remove-IsBalanced p.delete_stage p h
  press-IsBalanced press_cancel p h = cancel_delete-IsBalanced p.delete_stage p h
  press-IsBalanced unmount p h = λ m. cc
  press-IsBalanced (fetched i f) p h = h
  press-IsBalanced (fetch_failed i f) p h = h
  press-IsBalanced (deleted i) p h = h
  press-IsBalanced (delete_failed i f) p h = h

  if_there-IsBalanced :
      (e : PageEvent) (p : Page)
      → IsBalanced p
      → IsBalanced (if p.mounted then press upper trim e p else p)
  if_there-IsBalanced e p h = if_both IsBalanced p.mounted _ p (press-IsBalanced e p h) h

  page_step-IsBalanced :
      (e : PageEvent) (p : Page) → IsBalanced p → IsBalanced (page_step upper trim e p)
  unfolding page_step preview_url
  page_step-IsBalanced (fetched i f) p h =
      end_fetch-IsBalanced (pick i p.fetches) (show_fetched f) p (show_fetched-IsBalanced f) h
  page_step-IsBalanced (fetch_failed i f) p h =
      let failure = Stage.error (resolve_error_message f) in
      end_fetch-IsBalanced (pick i p.fetches) (set_stage failure) p
        (λ q. set_plain_stage failure q refl) h
  page_step-IsBalanced (deleted i) p h =
      end_delete-IsBalanced (pick i p.deletes)
        (λ q. set_stage Stage.idle (set_delete_stage DeleteStage.done q)) p
        (λ q k.
          set_plain_stage Stage.idle (set_delete_stage DeleteStage.done q) refl
            (set_delete_stage-IsBalanced DeleteStage.done q k))
        h
  page_step-IsBalanced (delete_failed i f) p h =
      end_delete-IsBalanced (pick i p.deletes) (set_delete_stage (DeleteStage.error f.message)) p
        (set_delete_stage-IsBalanced (DeleteStage.error f.message)) h
  page_step-IsBalanced (type_key raw) p h = if_there-IsBalanced (type_key raw) p h
  page_step-IsBalanced (type_secret raw) p h = if_there-IsBalanced (type_secret raw) p h
  page_step-IsBalanced press_retrieve p h = if_there-IsBalanced press_retrieve p h
  page_step-IsBalanced press_enter p h = if_there-IsBalanced press_enter p h
  page_step-IsBalanced press_delete p h = if_there-IsBalanced press_delete p h
  page_step-IsBalanced press_confirm p h = if_there-IsBalanced press_confirm p h
  page_step-IsBalanced press_cancel p h = if_there-IsBalanced press_cancel p h
  page_step-IsBalanced unmount p h = if_there-IsBalanced unmount p h

  page_run-IsBalanced :
      (es : List PageEvent) (p : Page) → IsBalanced p → IsBalanced (page_run upper trim es p)
  unfolding page_run
  page_run-IsBalanced [] p h = h
  page_run-IsBalanced (e ∷ es) p h =
      page_run-IsBalanced es (page_step upper trim e p) (page_step-IsBalanced e p h)

  -- After any events, in any order of the answers, while the page is there: every object URL has been
  -- revoked as often as it was made, but for the one that is shown, which is left once more.
  pub run-balanced :
      (es : List PageEvent) (u : ℕ)
      → let p = page_run upper trim es start in
        p.mounted ≡ true → count u p.made ≡ count u p.revoked + count u (urls (preview_url p.stage))
  run-balanced es u there = page_run-IsBalanced es start start-IsBalanced there u
