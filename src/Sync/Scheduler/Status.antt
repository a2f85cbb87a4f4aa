-- ===== src/Sync/Scheduler/Status.antt =====
-- The status of a request for a sync, by the steps that follow it: it waits until a sync that covers
-- it starts, and waits again if that sync could not run.
use strmline.Prelude.{
  ℕ, ◌≡◌, refl, ◌⊎◌, String, Bool, true, false, ◌||◌, List, [], ◌∷◌, Option, none, some,
  if◌then◌else◌, ◌==◌, string_eq, eq_iff, contains, arith,
}
use strmline.Sync.Scheduler.{
  AutoSyncScheduler, Worker, Job, Step, enqueued, fired, began, ended, set_add, set_remove,
  schedule_queued_sync, enqueue_post_add_sync, request_sync, fire_job, loop_head, leave_worker,
  run_queued_sync, put_back,
}

-- What the caller asked for: the item, or with `none` the whole account. A full sync covers all.
abbrev pub covers : Option String → Worker → Bool
covers asked Worker.idle = false
covers asked Worker.launched = false
covers asked (Worker.awaiting Job.full) = true
covers none (Worker.awaiting (Job.item j)) = false
covers (some torrent_id) (Worker.awaiting (Job.item j)) = torrent_id == j

abbrev pub requested : Option String → AutoSyncScheduler → Bool
requested none s = s.full_sync_requested
requested (some torrent_id) s = s.full_sync_requested || contains s.pending_torrent_ids torrent_id

-- A request waits, is served by a sync that started after it, or is done.
pub data Status : Type 0 where
  waiting : Status
  serving : Status
  done : Status

abbrev pub after_start : Bool → Status → Status
after_start covered Status.waiting = if covered then Status.serving else Status.waiting
after_start covered Status.serving = Status.serving
after_start covered Status.done = Status.done

abbrev pub after_end : Bool → Status → Status
after_end completed Status.waiting = Status.waiting
after_end completed Status.serving = if completed then Status.done else Status.waiting
after_end completed Status.done = Status.done

-- The steps that follow the request.
pub data Trace (origin : AutoSyncScheduler) : AutoSyncScheduler → Type 0 where
  here : Trace origin origin
  followed : {s t : AutoSyncScheduler} → Trace origin s → Step s t → Trace origin t

abbrev pub after_step : {s t : AutoSyncScheduler} → Option String → Step s t → Status → Status
after_step asked (enqueued _) status = status
after_step asked (fired _ _) status = status
after_step {t} asked (began _ _ _) status = after_start (covers asked t.worker) status
after_step {t} asked (ended _ _ outcome _ _) status =
    after_start (covers asked t.worker) (after_end (run_queued_sync outcome) status)

abbrev pub status : {origin t : AutoSyncScheduler} → Option String → Trace origin t → Status
status asked here = Status.waiting
status asked (followed trace step) = after_step asked step (status asked trace)

-- What the scheduler holds for a request of that status.
abbrev pub Holds : Option String → AutoSyncScheduler → Status → Type 0
Holds asked s Status.waiting = requested asked s ≡ true
Holds asked s Status.serving = covers asked s.worker ≡ true
Holds asked s Status.done = Unit {0}

pub contains-set_add :
    (x y : String) (xs : List String) → contains (set_add x xs) y ≡ (y == x || contains xs y)
contains-set_add x y xs = ground (arith, eq_iff y x)

pub contains-set_remove :
    (x y : String) (xs : List String)
    → (y == x) ≡ false
    → contains (set_remove x xs) y ≡ contains xs y
contains-set_remove x y [] h = refl
contains-set_remove x y (z ∷ xs) h =
    ground (arith, contains-set_remove x y xs h, eq_iff z x, eq_iff y z, eq_iff y x)

pub requested-set :
    (asked : Option String) (s : AutoSyncScheduler)
    → s.full_sync_requested ≡ true
    → requested asked s ≡ true
requested-set none s h = h
requested-set (some id) s h = rw h refl

pub requested-request_sync :
    (asked other : Option String) (s : AutoSyncScheduler)
    → requested asked s ≡ true
    → requested asked (request_sync other s) ≡ true
unfolding request_sync
requested-request_sync asked none s h = requested-set asked (request_sync none s) refl
requested-request_sync none (some x) s h = h
requested-request_sync (some id) (some x) s h =
    ground (arith, contains-set_add x id s.pending_torrent_ids)

pub requested-enqueue :
    (asked other : Option String) (s : AutoSyncScheduler)
    → requested asked s ≡ true
    → requested asked (enqueue_post_add_sync other s).0 ≡ true
unfolding enqueue_post_add_sync schedule_queued_sync
requested-enqueue none other s h = ground (arith, requested-request_sync none other s)
requested-enqueue (some id) other s h = ground (arith, requested-request_sync (some id) other s)

pub worker-enqueue :
    (other : Option String) (s : AutoSyncScheduler)
    → (enqueue_post_add_sync other s).0.worker ≡ s.worker
unfolding enqueue_post_add_sync schedule_queued_sync request_sync
worker-enqueue none s = ground arith
worker-enqueue (some id) s = ground arith

pub requested-fire_job :
    (asked : Option String) (s : AutoSyncScheduler)
    → requested asked s ≡ true
    → requested asked (fire_job s) ≡ true
unfolding fire_job
requested-fire_job none s h = ground arith
requested-fire_job (some id) s h = ground arith

pub covers-fire_job :
    (asked : Option String) (s : AutoSyncScheduler)
    → covers asked s.worker ≡ true
    → covers asked (fire_job s).worker ≡ true
unfolding fire_job
covers-fire_job none s h = ground arith
covers-fire_job (some id) s h = ground arith

-- At the head of the loop a request starts to be served or still waits.
pub loop_head-cases :
    (asked : Option String) (popped : String) (s : AutoSyncScheduler)
    → requested asked s ≡ true
    → (covers asked (loop_head popped s).worker ≡ true)
      ⊎ ((covers asked (loop_head popped s).worker ≡ false)
          × (requested asked (loop_head popped s) ≡ true))
unfolding loop_head
loop_head-cases none popped s h = ground arith
loop_head-cases (some id) popped s h =
    ground (arith, contains-set_remove popped id s.pending_torrent_ids)

pub leave_worker-requested :
    (asked : Option String) (delay : ℕ) (s : AutoSyncScheduler)
    → (requested asked (leave_worker delay s) ≡ requested asked s)
      × (covers asked (leave_worker delay s).worker ≡ false)
unfolding leave_worker schedule_queued_sync
leave_worker-requested none delay s = ground arith
leave_worker-requested (some id) delay s = ground arith

pub requested-put_back :
    (asked : Option String) (job : Job) (s : AutoSyncScheduler)
    → (requested asked s ≡ true) ⊎ (covers asked (Worker.awaiting job) ≡ true)
    → requested asked (put_back job s) ≡ true
unfolding put_back
requested-put_back asked Job.full s h = requested-set asked (put_back Job.full s) refl
requested-put_back none (Job.item j) s h = ground arith
requested-put_back (some id) (Job.item j) s h =
    ground (arith, contains-set_add j id s.pending_torrent_ids)
