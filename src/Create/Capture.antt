-- ===== src/Create/Capture.antt =====
-- frontend/src/create/capture-step.tsx: the camera step, whose waits end in any order. A stream and a
-- photo are numbers. What waits is kept in lists, and an event ends one of the waits by its place in the
-- list; the second attempt with relaxed constraints is part of the wait for the camera. Left out are the
-- messages, the list of cameras and the flag for mirroring, which nothing here reads.
pub mod Laws
pub mod Away
mod Tests
use portrait_booth.Base.{
  ℕ, zero, suc, ◌+◌, Bool, true, false, not, ◌&&◌, ◌||◌, Option, none, some, List, [], ◌∷◌,
  if◌then◌else◌, ◌==◌, is_none,
}

pub data Status : Type 0 where
  idle requesting live capturing : Status

-- `requests` wait for the camera, `playing` for the video to play, `stills` for a picture, `loads` for
-- the picture to be decoded and `rechecks` for its recheck: each with the generation it started in.
pub record Capture : Type 0 where
  pub mounted : Bool
  pub status : Status
  pub auto_countdown : Bool
  pub countdown : Option ℕ
  pub generation : ℕ
  pub current : Option ℕ
  pub requests : List ℕ
  pub playing : List ℕ
  pub stills : List ℕ
  pub loads : List ℕ
  pub rechecks : List (ℕ × ℕ)
  pub opened : List ℕ
  pub stopped : List ℕ
  pub loaded : List ℕ
  pub disposed : List ℕ
  pub ready : List ℕ

pub data CaptureEvent : Type 0 where
  start_camera : CaptureEvent
  camera_opened : ℕ → ℕ → CaptureEvent
  camera_failed : ℕ → CaptureEvent
  played : ℕ → CaptureEvent
  press_shoot cancel_countdown toggle_countdown tick : CaptureEvent
  still_taken : ℕ → Bool → CaptureEvent
  photo_loaded : ℕ → Option ℕ → CaptureEvent
  rechecked : ℕ → CaptureEvent
  hidden_too_long unmount : CaptureEvent

abbrev pub start : Capture
start = record {
  mounted = true;
  status = idle;
  auto_countdown = false;
  countdown = none;
  generation = 0;
  current = none;
  requests = [];
  playing = [];
  stills = [];
  loads = [];
  rechecks = [];
  opened = [];
  stopped = [];
  loaded = [];
  disposed = [];
  ready = [];
}

-- What waits at a place of a list, and the others.
unfoldable pub pick {ℓ} : {A : Type ℓ} → ℕ → List A → Option (A × List A)
pick i [] = none
pick zero (x ∷ xs) = some (x, xs)
pick (suc i) (x ∷ xs) = elim (pick i xs) [ none ↦ none | some p ↦ some (p.0, x ∷ p.1) ]

unfoldable pub is_live : Status → Bool
is_live live = true
is_live _ = false

unfoldable pub is_idle : Status → Bool
is_idle idle = true
is_idle _ = false

-- The video element is there in every other status than "idle".
unfoldable pub has_video : Capture → Bool
unfolding is_idle
has_video c = c.mounted && not (is_idle c.status)

-- `gen === genRef.current`.
unfoldable pub is_current : ℕ → Capture → Bool
is_current gen c = gen == c.generation

-- `stopStream`.
unfoldable pub stop_stream : Option ℕ → List ℕ → List ℕ
stop_stream none stopped = stopped
stop_stream (some s) stopped = s ∷ stopped

-- `startCamera` up to its first wait; its buttons are there in the statuses "idle" and "live".
unfoldable pub request : Capture → Capture
unfolding is_idle is_live
request c =
    if c.mounted && (is_idle c.status || is_live c.status)
    then record c {
      status = requesting;
      generation = c.generation + 1;
      requests = (c.generation + 1) ∷ c.requests;
    }
    else c

-- The stream of a request is there.
unfoldable pub open_stream : ℕ → ℕ → Capture → Capture
unfolding is_current has_video stop_stream
open_stream gen stream c =
    let taken = record c {
      opened = stream ∷ c.opened;
      stopped = stop_stream c.current c.stopped;
      current = some stream;
    } in
    if not (is_current gen c)
    then record c { opened = stream ∷ c.opened; stopped = stream ∷ c.stopped }
    else if has_video c
    then record taken { playing = gen ∷ c.playing }
    else record taken { status = live }

unfoldable pub fail_request : ℕ → Capture → Capture
unfolding is_current
fail_request gen c = if is_current gen c then record c { status = idle } else c

-- `shoot` up to its first wait.
unfoldable pub shoot : Capture → Capture
unfolding has_video
shoot c =
    if has_video c then record c { status = capturing; stills = c.generation ∷ c.stills } else c

unfoldable pub trigger_shoot : Capture → Capture
unfolding shoot
trigger_shoot c = if c.auto_countdown then record c { countdown = some 3 } else shoot c

-- The timer of the countdown, which is cleared on unmounting.
unfoldable pub count_down : Option ℕ → Capture → Capture
unfolding shoot
count_down (some (suc (suc k))) c = record c { countdown = some (suc k) }
count_down (some _) c = shoot (record c { countdown = none })
count_down none c = c

unfoldable pub take_still : ℕ → Bool → Capture → Capture
unfolding is_current
take_still gen ok c =
    if not (is_current gen c)
    then c
    else if ok
    then record c { loads = gen ∷ c.loads }
    else record c { status = live }

unfoldable pub load_photo : ℕ → Option ℕ → Capture → Capture
unfolding is_current
load_photo gen none c = if is_current gen c then record c { status = live } else c
load_photo gen (some p) c =
    if is_current gen c
    then record c { loaded = p ∷ c.loaded; rechecks = (gen, p) ∷ c.rechecks }
    else record c { loaded = p ∷ c.loaded; disposed = p ∷ c.disposed }

-- After the recheck, whether or not it threw.
unfoldable pub hand_over : ℕ × ℕ → Capture → Capture
unfolding is_current
hand_over (gen, p) c =
    if is_current gen c
    then record c { ready = p ∷ c.ready }
    else record c { disposed = p ∷ c.disposed }

-- What the auto-stop and the unmounting have in common.
unfoldable pub drop_stream : Capture → Capture
unfolding stop_stream
drop_stream c = record c {
  generation = c.generation + 1;
  stopped = stop_stream c.current c.stopped;
  current = none;
}

-- The timer of the auto-stop runs while the status is "live".
unfoldable pub auto_stop : Capture → Capture
unfolding is_live drop_stream
auto_stop c = if c.mounted && is_live c.status then record (drop_stream c) { status = idle } else c

unfoldable pub unmount_step : Capture → Capture
unfolding drop_stream
unmount_step c =
    if c.mounted then record (drop_stream c) { mounted = false; countdown = none } else c

-- The end of a wait, where there is one at the place.
abbrev pub ending {ℓ} :
    {A : Type ℓ} → Option (A × List A) → (A → List A → Capture) → Capture → Capture
ending none next c = c
ending (some p) next c = next p.0 p.1

unfoldable pub capture_step : CaptureEvent → Capture → Capture
unfolding pick request open_stream fail_request trigger_shoot count_down take_still load_photo
    hand_over auto_stop unmount_step is_live
capture_step start_camera c = request c
capture_step (camera_opened i stream) c =
    ending (pick i c.requests) (λ g rest. open_stream g stream (record c { requests = rest })) c
capture_step (camera_failed i) c =
    ending (pick i c.requests) (λ g rest. fail_request g (record c { requests = rest })) c
capture_step (played i) c =
    ending (pick i c.playing) (λ g rest. record c { playing = rest; status = live }) c
capture_step press_shoot c =
    if c.mounted && is_live c.status && is_none c.countdown then trigger_shoot c else c
capture_step cancel_countdown c =
    if c.mounted && is_live c.status then record c { countdown = none } else c
capture_step toggle_countdown c =
    if c.mounted && is_live c.status then record c { auto_countdown = not c.auto_countdown } else c
capture_step tick c = count_down c.countdown c
capture_step (still_taken i ok) c =
    ending (pick i c.stills) (λ g rest. take_still g ok (record c { stills = rest })) c
capture_step (photo_loaded i p) c =
    ending (pick i c.loads) (λ g rest. load_photo g p (record c { loads = rest })) c
capture_step (rechecked i) c =
    ending (pick i c.rechecks) (λ w rest. hand_over w (record c { rechecks = rest })) c
capture_step hidden_too_long c = auto_stop c
capture_step unmount c = unmount_step c

unfoldable pub capture_run : List CaptureEvent → Capture → Capture
unfolding capture_step
capture_run [] c = c
capture_run (e ∷ es) c = capture_run es (capture_step e c)
