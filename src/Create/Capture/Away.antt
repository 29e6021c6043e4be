-- ===== src/Create/Capture/Away.antt =====
-- frontend/src/create/capture-step.tsx: what comes late, after the step has gone away.
use portrait_booth.Base.{
  count, ℕ, zero, suc, ◌+◌, ◌<◌, ◌≤◌, ◌≡◌, refl, ap, Bool, true, false, not, ◌&&◌, ◌||◌, Option,
  none, some, List, [], ◌∷◌, if◌then◌else◌, if_both, if_cases, &&_parts, All, All-imp, arith,
}
use portrait_booth.Create.Capture.{
  Capture, CaptureEvent, start_camera, camera_opened, camera_failed, played, press_shoot,
  cancel_countdown, toggle_countdown, tick, still_taken, photo_loaded, rechecked, hidden_too_long,
  unmount, start, pick, is_live, is_idle, has_video, is_current, request, open_stream, fail_request,
  shoot, trigger_shoot, count_down, take_still, load_photo, hand_over, drop_stream, auto_stop,
  unmount_step, capture_step, capture_run,
}
use portrait_booth.Create.Capture.Laws.{
  All-pick, ending-both, to_list, Streams, Photos, run-Balanced,
}

-- All waits started in a generation below `k`.
abbrev Waits : ℕ → Capture → Type 0
Waits k c =
    All (λ g. g < k) c.requests
    × All (λ g. g < k) c.stills
    × All (λ g. g < k) c.loads
    × All (λ (w : ℕ × ℕ). w.0 < k) c.rechecks

Waits-weaken : (k m : ℕ) (c : Capture) → k ≤ m → Waits k c → Waits m c
Waits-weaken k m c h (a, b, d, e) = (
  All-imp _ _ (λ (g : ℕ) p. omega arith) c.requests a,
  All-imp _ _ (λ (g : ℕ) p. omega arith) c.stills b,
  All-imp _ _ (λ (g : ℕ) p. omega arith) c.loads d,
  All-imp _ _ (λ (w : ℕ × ℕ) p. omega arith) c.rechecks e,
)

-- The generations in use: the present one only while the step is there.
abbrev limit : Capture → ℕ
limit c = c.generation + (if c.mounted then 1 else 0)

abbrev IsPast : Capture → Type 0
IsPast c = Waits (limit c) c × (c.mounted ≡ false → c.current ≡ none)

not-false : (b : Bool) → not b ≡ false → b ≡ true
not-false true h = refl
not-false false h = cc

-- A wait of the present generation ends while the step is there.
mounted_of : (g : ℕ) (c : Capture) → g < limit c → is_current g c ≡ true → c.mounted ≡ true
unfolding is_current
mounted_of g c h e = ground arith

-- While the step is there, its generation is in use.
in_use : (c : Capture) → c.mounted ≡ true → limit c ≡ c.generation + 1
in_use c m = ap (λ (b : Bool). c.generation + (if b then 1 else 0)) m

there : (c : Capture) → c.mounted ≡ true → c.mounted ≡ false → ⊥
there c m away = cc

has_video-mounted : (c : Capture) → has_video c ≡ true → c.mounted ≡ true
unfolding has_video
has_video-mounted c h = (&&_parts c.mounted _ h).0

request-IsPast : (c : Capture) → IsPast c → IsPast (request c)
unfolding request
request-IsPast c (waits, here) =
    if_cases IsPast (c.mounted && (is_idle c.status || is_live c.status)) _ c
      (λ test.
        let m = (&&_parts c.mounted _ test).0 in
        let (a, b, d, e) =
          Waits-weaken (limit c) (limit (record c { generation = c.generation + 1 })) c
            (omega arith) waits in
        (((omega (arith, in_use c m), a), b, d, e), here))
      (λ _. (waits, here))

shoot-IsPast : (c : Capture) → IsPast c → IsPast (shoot c)
unfolding shoot
shoot-IsPast c ((a, b, d, e), here) =
    if_cases IsPast (has_video c) _ c
      (λ test. ((a, (omega (arith, in_use c (has_video-mounted c test)), b), d, e), here))
      (λ _. ((a, b, d, e), here))

trigger_shoot-IsPast : (c : Capture) → IsPast c → IsPast (trigger_shoot c)
unfolding trigger_shoot
trigger_shoot-IsPast c h = if_both IsPast c.auto_countdown _ (shoot c) h (shoot-IsPast c h)

count_down-IsPast : (o : Option ℕ) (c : Capture) → IsPast c → IsPast (count_down o c)
unfolding count_down
count_down-IsPast none c h = h
count_down-IsPast (some zero) c h = shoot-IsPast _ h
count_down-IsPast (some (suc zero)) c h = shoot-IsPast _ h
count_down-IsPast (some (suc (suc k))) c h = h

open_stream-IsPast :
    (g stream : ℕ) (c : Capture) → g < limit c → IsPast c → IsPast (open_stream g stream c)
unfolding open_stream
open_stream-IsPast g stream c small (waits, here) =
    if_cases IsPast (not (is_current g c)) _ _ (λ _. (waits, here))
      (λ test.
        let m = mounted_of g c small (not-false _ test) in
        if_both IsPast (has_video c) _ _ (waits, λ away. absurd (there c m away))
          (waits, λ away. absurd (there c m away)))

take_still-IsPast :
    (g : ℕ) (ok : Bool) (c : Capture) → g < limit c → IsPast c → IsPast (take_still g ok c)
unfolding take_still
take_still-IsPast g ok c small ((a, b, d, e), here) =
    if_both IsPast (not (is_current g c)) c _ ((a, b, d, e), here)
      (if_both IsPast ok _ _ ((a, b, (small, d), e), here) ((a, b, d, e), here))

load_photo-IsPast :
    (g : ℕ) (o : Option ℕ) (c : Capture) → g < limit c → IsPast c → IsPast (load_photo g o c)
unfolding load_photo
load_photo-IsPast g none c small h = if_both IsPast (is_current g c) _ c h h
load_photo-IsPast g (some p) c small ((a, b, d, e), here) =
    if_both IsPast (is_current g c) _ _ ((a, b, d, (small, e)), here) ((a, b, d, e), here)

hand_over-IsPast : (w : ℕ × ℕ) (c : Capture) → IsPast c → IsPast (hand_over w c)
unfolding hand_over
hand_over-IsPast w c h = if_both IsPast (is_current w.0 c) _ _ h h

auto_stop-IsPast : (c : Capture) → IsPast c → IsPast (auto_stop c)
unfolding auto_stop drop_stream
auto_stop-IsPast c (waits, here) =
    if_both IsPast (c.mounted && is_live c.status) _ c
      (
        Waits-weaken (limit c) (limit (record c { generation = c.generation + 1 })) c (omega arith)
            waits,
        λ _. refl,
      )
      (waits, here)

unmount_step-IsPast : (c : Capture) → IsPast c → IsPast (unmount_step c)
unfolding unmount_step drop_stream
unmount_step-IsPast c (waits, here) =
    if_cases IsPast c.mounted _ c
      (λ m. (
        Waits-weaken (limit c) (c.generation + 1 + 0) c (omega (arith, in_use c m)) waits,
        λ _. refl,
      ))
      (λ _. (waits, here))

step-IsPast : (e : CaptureEvent) (c : Capture) → IsPast c → IsPast (capture_step e c)
unfolding capture_step fail_request
step-IsPast start_camera c h = request-IsPast c h
step-IsPast (camera_opened i stream) c ((a, b, d, e), here) =
    ending-both IsPast (pick i c.requests) _ c ((a, b, d, e), here)
      (λ p found.
        let (small, rest) = All-pick _ i c.requests p found a in
        open_stream-IsPast p.0 stream (record c { requests = p.1 }) small ((rest, b, d, e), here))
step-IsPast (camera_failed i) c ((a, b, d, e), here) =
    ending-both IsPast (pick i c.requests) _ c ((a, b, d, e), here)
      (λ p found.
        let (_, rest) = All-pick _ i c.requests p found a in
        if_both IsPast (is_current p.0 (record c { requests = p.1 })) _ _ ((rest, b, d, e), here)
          ((rest, b, d, e), here))
step-IsPast (played i) c h = ending-both IsPast (pick i c.playing) _ c h (λ p e. h)
step-IsPast press_shoot c h = if_both IsPast _ (trigger_shoot c) c (trigger_shoot-IsPast c h) h
step-IsPast cancel_countdown c h = if_both IsPast _ _ c h h
step-IsPast toggle_countdown c h = if_both IsPast _ _ c h h
step-IsPast tick c h = count_down-IsPast c.countdown c h
step-IsPast (still_taken i ok) c ((a, b, d, e), here) =
    ending-both IsPast (pick i c.stills) _ c ((a, b, d, e), here)
      (λ p found.
        let (small, rest) = All-pick _ i c.stills p found b in
        take_still-IsPast p.0 ok (record c { stills = p.1 }) small ((a, rest, d, e), here))
step-IsPast (photo_loaded i o) c ((a, b, d, e), here) =
    ending-both IsPast (pick i c.loads) _ c ((a, b, d, e), here)
      (λ p found.
        let (small, rest) = All-pick _ i c.loads p found d in
        load_photo-IsPast p.0 o (record c { loads = p.1 }) small ((a, b, rest, e), here))
step-IsPast (rechecked i) c ((a, b, d, e), here) =
    ending-both IsPast (pick i c.rechecks) _ c ((a, b, d, e), here)
      (λ p found.
        let (_, rest) = All-pick _ i c.rechecks p found e in
        hand_over-IsPast p.0 (record c { rechecks = p.1 }) ((a, b, d, rest), here))
step-IsPast hidden_too_long c h = auto_stop-IsPast c h
step-IsPast unmount c h = unmount_step-IsPast c h

run-IsPast : (es : List CaptureEvent) (c : Capture) → IsPast c → IsPast (capture_run es c)
unfolding capture_run
run-IsPast [] c h = h
run-IsPast (e ∷ es) c h = run-IsPast es (capture_step e c) (step-IsPast e c h)

-- A step that has gone away, with the photos that it had handed over.
abbrev Gone : List ℕ → Capture → Type 0
Gone r c = (c.mounted ≡ false) × (c.ready ≡ r)

module _ (r : List ℕ) where
  shoot-Gone : (c : Capture) → Gone r c → Gone r (shoot c)
  unfolding shoot
  shoot-Gone c h = if_both (Gone r) (has_video c) _ c h h

  trigger_shoot-Gone : (c : Capture) → Gone r c → Gone r (trigger_shoot c)
  unfolding trigger_shoot
  trigger_shoot-Gone c h = if_both (Gone r) c.auto_countdown _ (shoot c) h (shoot-Gone c h)

  count_down-Gone : (o : Option ℕ) (c : Capture) → Gone r c → Gone r (count_down o c)
  unfolding count_down
  count_down-Gone none c h = h
  count_down-Gone (some zero) c h = shoot-Gone _ h
  count_down-Gone (some (suc zero)) c h = shoot-Gone _ h
  count_down-Gone (some (suc (suc k))) c h = h

  open_stream-Gone : (g stream : ℕ) (c : Capture) → Gone r c → Gone r (open_stream g stream c)
  unfolding open_stream
  open_stream-Gone g stream c h =
      if_both (Gone r) (not (is_current g c)) _ _ h (if_both (Gone r) (has_video c) _ _ h h)

  take_still-Gone : (g : ℕ) (ok : Bool) (c : Capture) → Gone r c → Gone r (take_still g ok c)
  unfolding take_still
  take_still-Gone g ok c h =
      if_both (Gone r) (not (is_current g c)) c _ h (if_both (Gone r) ok _ _ h h)

  load_photo-Gone : (g : ℕ) (o : Option ℕ) (c : Capture) → Gone r c → Gone r (load_photo g o c)
  unfolding load_photo
  load_photo-Gone g none c h = if_both (Gone r) (is_current g c) _ c h h
  load_photo-Gone g (some p) c h = if_both (Gone r) (is_current g c) _ _ h h

  -- A photo is handed over in its own generation only, and that is over.
  hand_over-Gone : (w : ℕ × ℕ) (c : Capture) → w.0 < limit c → Gone r c → Gone r (hand_over w c)
  unfolding hand_over
  hand_over-Gone w c small h =
      if_cases (Gone r) (is_current w.0 c) _ _
        (λ test. absurd (there c (mounted_of w.0 c small test) h.0)) (λ _. h)

  step-Gone : (e : CaptureEvent) (c : Capture) → IsPast c → Gone r c → Gone r (capture_step e c)
  unfolding capture_step request fail_request auto_stop unmount_step drop_stream
  step-Gone start_camera c past h = if_both (Gone r) _ _ c h h
  step-Gone (camera_opened i stream) c past h =
      ending-both (Gone r) (pick i c.requests) _ c h (λ p e. open_stream-Gone p.0 stream _ h)
  step-Gone (camera_failed i) c past h =
      ending-both (Gone r) (pick i c.requests) _ c h (λ p e. if_both (Gone r) _ _ _ h h)
  step-Gone (played i) c past h = ending-both (Gone r) (pick i c.playing) _ c h (λ p e. h)
  step-Gone press_shoot c past h = if_both (Gone r) _ (trigger_shoot c) c (trigger_shoot-Gone c h) h
  step-Gone cancel_countdown c past h = if_both (Gone r) _ _ c h h
  step-Gone toggle_countdown c past h = if_both (Gone r) _ _ c h h
  step-Gone tick c past h = count_down-Gone c.countdown c h
  step-Gone (still_taken i ok) c past h =
      ending-both (Gone r) (pick i c.stills) _ c h (λ p e. take_still-Gone p.0 ok _ h)
  step-Gone (photo_loaded i o) c past h =
      ending-both (Gone r) (pick i c.loads) _ c h (λ p e. load_photo-Gone p.0 o _ h)
  step-Gone (rechecked i) c ((_, _, _, waits), _) h =
      ending-both (Gone r) (pick i c.rechecks) _ c h (λ p e.
        hand_over-Gone p.0 (record c { rechecks = p.1 }) (All-pick _ i c.rechecks p e waits).0 h)
  step-Gone hidden_too_long c past h = if_both (Gone r) _ _ c h h
  step-Gone unmount c past h = if_both (Gone r) _ _ c (refl, h.1) h

  run-Gone :
      (es : List CaptureEvent) (c : Capture) → IsPast c → Gone r c → Gone r (capture_run es c)
  unfolding capture_run
  run-Gone [] c past h = h
  run-Gone (e ∷ es) c past h =
      run-Gone es (capture_step e c) (step-IsPast e c past) (step-Gone e c past h)

start-IsPast : IsPast start
start-IsPast = ((tt, tt, tt, tt), λ h. refl)

-- After any events from the start, in any order: a stream was stopped as often as it was opened, or once
-- less where it is the current one, and a photo was handed over, was disposed of or waits for its
-- recheck, together as often as it was decoded.
pub accounted :
    (es : List CaptureEvent) (x : ℕ)
    → Streams x (capture_run es start) × Photos x (capture_run es start)
accounted es x = run-Balanced x es start (refl, refl)

-- Once the step has gone away, whatever comes later, no photo more is handed over, every stream is
-- stopped as often as it was opened, and a photo is disposed of, was handed over before or waits for its
-- recheck, together as often as it was decoded.
pub released :
    (es later : List CaptureEvent)
    → (capture_run es start).mounted ≡ false
    → let c = capture_run es start in
      let d = capture_run later c in
      (d.ready ≡ c.ready)
      × ((s : ℕ) → count s d.opened ≡ count s d.stopped)
      × ((p : ℕ) → Photos p d)
released es later away =
    let c = capture_run es start in
    let d = capture_run later c in
    let past = run-IsPast es start start-IsPast in
    let (gone, kept) = run-Gone c.ready later c past (away, refl) in
    let none' = (run-IsPast later c past).1 gone in
    let balanced = λ (x : ℕ). run-Balanced x later c (accounted es x) in
    (kept, λ s. all_stopped s d none' (balanced s).0, λ p. (balanced p).1)
  where
    all_stopped :
        (s : ℕ) (d : Capture)
        → d.current ≡ none
        → Streams s d
        → count s d.opened ≡ count s d.stopped
    all_stopped s d e h = omega (arith, h, ap (λ (o : Option ℕ). count s (to_list o)) e)
