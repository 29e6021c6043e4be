-- ===== src/Create/Capture/Laws.antt =====
-- frontend/src/create/capture-step.tsx: every stream and every photo is accounted for.
use portrait_booth.Base.{
  ℕ, zero, suc, ◌+◌, ◌≡◌, refl, sym, inl, inr, Bool, not, Option, none, some, List, [], ◌∷◌, map,
  if_both, count, Option-cases, All, arith,
}
use mathlib.Core.Option.{some-injective}
use portrait_booth.Create.Capture.{
  Capture, CaptureEvent, start_camera, camera_opened, camera_failed, played, press_shoot,
  cancel_countdown, toggle_countdown, tick, still_taken, photo_loaded, rechecked, hidden_too_long,
  unmount, pick, has_video, is_current, stop_stream, request, open_stream, fail_request, shoot,
  trigger_shoot, count_down, take_still, load_photo, hand_over, drop_stream, auto_stop,
  unmount_step, ending, capture_step, capture_run,
}

abbrev pub to_list {ℓ} : {A : Type ℓ} → Option A → List A
to_list none = []
to_list (some a) = a ∷ []

abbrev pub photo_of : ℕ × ℕ → ℕ
photo_of w = w.1

count-stop_stream :
    (s : ℕ) (o : Option ℕ) (stopped : List ℕ)
    → count s (stop_stream o stopped) ≡ count s stopped + count s (to_list o)
unfolding stop_stream
count-stop_stream s none stopped = omega arith
count-stop_stream s (some t) stopped = omega arith

-- A wait that ends leaves the others.
module _ {ℓ} {A : Type ℓ} where
  pick-cons :
      (i : ℕ) (x : A) (xs : List A) (p : A × List A)
      → pick (suc i) (x ∷ xs) ≡ some p
      → (q : A × List A) × (pick i xs ≡ some q) × (p ≡ (q.0, x ∷ q.1))
  unfolding pick
  pick-cons i x xs p h = elim (Option-cases (pick i xs)) [
    | inl e ↦ let k = rw e at h in cc
    | inr (q, e) ↦ let k = rw e at h in (q, e, sym (some-injective _ _ k))
  ]

  pub All-pick {κ} :
      (P : A → Type κ) (i : ℕ) (xs : List A) (p : A × List A)
      → pick i xs ≡ some p
      → All P xs
      → P p.0 × All P p.1
  unfolding pick
  All-pick P i [] p h all = cc
  All-pick P zero (x ∷ xs) p h (hx, hxs) = rw (← some-injective _ _ h) (hx, hxs)
  All-pick P (suc i) (x ∷ xs) p h (hx, hxs) =
      let (q, e, same) = pick-cons i x xs p h in
      let (picked, rest) = All-pick P i xs q e hxs in rw same (picked, (hx, rest))

count-pick :
    (s i : ℕ) (xs : List (ℕ × ℕ)) (p : (ℕ × ℕ) × List (ℕ × ℕ))
    → pick i xs ≡ some p
    → count s (map photo_of xs) ≡ count s (p.0.1 ∷ []) + count s (map photo_of p.1)
unfolding pick
count-pick s i [] p h = cc
count-pick s zero (x ∷ xs) p h = rw (← some-injective _ _ h) (omega arith)
count-pick s (suc i) (x ∷ xs) p h =
    let (q, e, same) = pick-cons i x xs p h in rw same (omega (arith, count-pick s i xs q e))

-- What holds before and after the end of a wait.
pub ending-both {ℓ κ} :
    {A : Type ℓ} (P : Capture → Type κ) (o : Option (A × List A)) (next : A → List A → Capture)
    (c : Capture)
    → P c
    → ((p : A × List A) → o ≡ some p → P (next p.0 p.1))
    → P (ending o next c)
ending-both P none next c h each = h
ending-both P (some p) next c h each = each p refl

-- Each stream that was opened is stopped, once, or it is the current one.
abbrev pub Streams : ℕ → Capture → Type 0
Streams s c = count s c.opened ≡ count s c.stopped + count s (to_list c.current)

-- Each photo that was decoded is handed over, or disposed of, or waits for its recheck: just once.
abbrev pub Photos : ℕ → Capture → Type 0
Photos p c =
    count p c.loaded ≡ count p c.ready + count p c.disposed + count p (map photo_of c.rechecks)

abbrev pub Balanced : ℕ → Capture → Type 0
Balanced s c = Streams s c × Photos s c

module _ (s : ℕ) where
  shoot-Balanced : (c : Capture) → Balanced s c → Balanced s (shoot c)
  unfolding shoot
  shoot-Balanced c h = if_both (Balanced s) (has_video c) _ c h h

  trigger_shoot-Balanced : (c : Capture) → Balanced s c → Balanced s (trigger_shoot c)
  unfolding trigger_shoot
  trigger_shoot-Balanced c h =
      if_both (Balanced s) c.auto_countdown _ (shoot c) h (shoot-Balanced c h)

  count_down-Balanced : (o : Option ℕ) (c : Capture) → Balanced s c → Balanced s (count_down o c)
  unfolding count_down
  count_down-Balanced none c h = h
  count_down-Balanced (some zero) c h = shoot-Balanced _ h
  count_down-Balanced (some (suc zero)) c h = shoot-Balanced _ h
  count_down-Balanced (some (suc (suc k))) c h = h

  open_stream-Balanced :
      (g stream : ℕ) (c : Capture) → Balanced s c → Balanced s (open_stream g stream c)
  unfolding open_stream
  open_stream-Balanced g stream c (streams, photos) =
      let moved : count s (stream ∷ c.opened)
          ≡ count s (stop_stream c.current c.stopped) + count s (stream ∷ []) =
        omega (arith, streams, count-stop_stream s c.current c.stopped) in
      if_both (Balanced s) (not (is_current g c)) _ _ (omega (arith, streams), photos)
        (if_both (Balanced s) (has_video c) _ _ (moved, photos) (moved, photos))

  load_photo-Balanced :
      (g : ℕ) (o : Option ℕ) (c : Capture) → Balanced s c → Balanced s (load_photo g o c)
  unfolding load_photo
  load_photo-Balanced g none c h = if_both (Balanced s) (is_current g c) _ c h h
  load_photo-Balanced g (some p) c (streams, photos) =
      if_both (Balanced s) (is_current g c) _ _ (streams, omega (arith, photos))
        (streams, omega (arith, photos))

  take_still-Balanced :
      (g : ℕ) (ok : Bool) (c : Capture) → Balanced s c → Balanced s (take_still g ok c)
  unfolding take_still
  take_still-Balanced g ok c h =
      if_both (Balanced s) (not (is_current g c)) c _ h (if_both (Balanced s) ok _ _ h h)

  hand_over-Balanced :
      (w : ℕ × ℕ) (rest : List (ℕ × ℕ)) (c : Capture)
      → Balanced s c
      → count s (map photo_of c.rechecks) ≡ count s (w.1 ∷ []) + count s (map photo_of rest)
      → Balanced s (hand_over w (record c { rechecks = rest }))
  unfolding hand_over
  hand_over-Balanced w rest c (streams, photos) e =
      if_both (Balanced s) (is_current w.0 (record c { rechecks = rest })) _ _
        (streams, omega (arith, photos, e)) (streams, omega (arith, photos, e))

  drop_stream-Balanced : (c : Capture) → Balanced s c → Balanced s (drop_stream c)
  unfolding drop_stream
  drop_stream-Balanced c (streams, photos) =
      (omega (arith, streams, count-stop_stream s c.current c.stopped), photos)

  step-Balanced : (e : CaptureEvent) (c : Capture) → Balanced s c → Balanced s (capture_step e c)
  unfolding capture_step request fail_request auto_stop unmount_step
  step-Balanced start_camera c h = if_both (Balanced s) _ _ c h h
  step-Balanced (camera_opened i stream) c h =
      ending-both (Balanced s) (pick i c.requests) _ c h
        (λ p e. open_stream-Balanced p.0 stream _ h)
  step-Balanced (camera_failed i) c h =
      ending-both (Balanced s) (pick i c.requests) _ c h (λ p e. if_both (Balanced s) _ _ _ h h)
  step-Balanced (played i) c h = ending-both (Balanced s) (pick i c.playing) _ c h (λ p e. h)
  step-Balanced press_shoot c h =
      if_both (Balanced s) _ (trigger_shoot c) c (trigger_shoot-Balanced c h) h
  step-Balanced cancel_countdown c h = if_both (Balanced s) _ _ c h h
  step-Balanced toggle_countdown c h = if_both (Balanced s) _ _ c h h
  step-Balanced tick c h = count_down-Balanced c.countdown c h
  step-Balanced (still_taken i ok) c h =
      ending-both (Balanced s) (pick i c.stills) _ c h (λ p e. take_still-Balanced p.0 ok _ h)
  step-Balanced (photo_loaded i o) c h =
      ending-both (Balanced s) (pick i c.loads) _ c h (λ p e. load_photo-Balanced p.0 o _ h)
  step-Balanced (rechecked i) c h =
      ending-both (Balanced s) (pick i c.rechecks) _ c h
        (λ p e. hand_over-Balanced p.0 p.1 c h (count-pick s i c.rechecks p e))
  step-Balanced hidden_too_long c h = if_both (Balanced s) _ _ c (drop_stream-Balanced c h) h
  step-Balanced unmount c h = if_both (Balanced s) _ _ c (drop_stream-Balanced c h) h

  pub run-Balanced :
      (es : List CaptureEvent) (c : Capture) → Balanced s c → Balanced s (capture_run es c)
  unfolding capture_run
  run-Balanced [] c h = h
  run-Balanced (e ∷ es) c h = run-Balanced es (capture_step e c) (step-Balanced e c h)
