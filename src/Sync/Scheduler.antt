-- ===== src/Sync/Scheduler.antt =====
-- api/app/sync/scheduler.py: the queue of syncs that follow an added torrent, which
-- `AutoSyncScheduler.enqueue_post_add_sync` fills and `run_queued_syncs` empties. The worker is a
-- coroutine that gives way only where it awaits a sync, so what it does between two awaits is one
-- step. A set is a list without repetitions; `set.pop` takes any element, which is an argument.
use strmline.Prelude.{
  ℕ, zero, suc, ◌+◌, length, ◌≡◌, String, Bool, true, false, not, ◌||◌, List, [], ◌∷◌, Option, none,
  some, if◌then◌else◌, ◌==◌, string_eq, keep, contains,
}
pub mod Progress
pub mod Status
pub mod Fate
pub mod Drain

abbrev pub queued_sync_retry_seconds : ℕ
queued_sync_retry_seconds = 2

-- A sync that the worker awaits.
pub data Job : Type 0 where
  full : Job
  item : String → Job

-- Where the coroutine `run_queued_syncs` is: not started, submitted to the event loop but not
-- started, or awaiting a sync.
pub data Worker : Type 0 where
  idle : Worker
  launched : Worker
  awaiting : Job → Worker

-- `scheduler_running` is `self._scheduler.running`, and `queued_job` the delay of the job with the
-- id `torbox-queued-sync` in the job store, if there is one.
pub record AutoSyncScheduler : Type 0 where
  pub scheduler_running : Bool
  pub pending_torrent_ids : List String
  pub full_sync_requested : Bool
  pub queued_worker_running : Bool
  pub queued_job : Option ℕ
  pub worker : Worker

abbrev pub new_scheduler : Bool → AutoSyncScheduler
new_scheduler running = record {
  scheduler_running = running;
  pending_torrent_ids = [];
  full_sync_requested = false;
  queued_worker_running = false;
  queued_job = none;
  worker = Worker.idle;
}

-- `set.add` and `set.discard`
abbrev pub set_add : String → List String → List String
set_add x xs = if contains xs x then xs else x ∷ xs

abbrev pub set_remove : String → List String → List String
set_remove x = keep (λ y. not (y == x))

abbrev pub is_empty : List String → Bool
is_empty [] = true
is_empty (_ ∷ _) = false

-- `self._full_sync_requested or self._pending_torrent_ids`
unfoldable pub has_work : AutoSyncScheduler → Bool
has_work s = s.full_sync_requested || not (is_empty s.pending_torrent_ids)

-- `add_job` with `replace_existing=True`.
unfoldable pub schedule_queued_sync : ℕ → AutoSyncScheduler → AutoSyncScheduler
schedule_queued_sync delay s = record s { queued_job = some delay }

-- The branch on `torrent_id`.
unfoldable pub request_sync : Option String → AutoSyncScheduler → AutoSyncScheduler
request_sync none s = record s { full_sync_requested = true }
request_sync (some torrent_id) s = record s {
  pending_torrent_ids = set_add torrent_id s.pending_torrent_ids;
}

unfoldable pub enqueue_post_add_sync : Option String → AutoSyncScheduler → AutoSyncScheduler × Bool
unfolding request_sync schedule_queued_sync
enqueue_post_add_sync torrent_id s =
    if s.scheduler_running
    then (
      (if s.queued_worker_running
          then request_sync torrent_id s
          else schedule_queued_sync 0 (request_sync torrent_id s)),
      true,
    )
    else (s, false)

-- The `finally` block.
unfoldable pub leave_worker : ℕ → AutoSyncScheduler → AutoSyncScheduler
unfolding has_work schedule_queued_sync
leave_worker retry_delay s =
    let left : AutoSyncScheduler = record s {
      queued_worker_running = false;
      worker = Worker.idle;
    } in
    if has_work left then schedule_queued_sync retry_delay left else left

-- The head of the `while` loop, up to the next await or the end; `popped` is what `set.pop` takes.
unfoldable pub loop_head : String → AutoSyncScheduler → AutoSyncScheduler
unfolding leave_worker
loop_head popped s =
    if s.full_sync_requested
    then record s {
      full_sync_requested = false;
      pending_torrent_ids = [];
      worker = Worker.awaiting Job.full;
    }
    else if is_empty s.pending_torrent_ids
    then leave_worker 0 s
    else record s {
      pending_torrent_ids = set_remove popped s.pending_torrent_ids;
      worker = Worker.awaiting (Job.item popped);
    }

-- `run_queued_syncs` from its start.
unfoldable pub begin_worker : String → AutoSyncScheduler → AutoSyncScheduler
unfolding loop_head
begin_worker popped s = loop_head popped (record s { queued_worker_running = true })

-- The request of a sync that another one kept from running is put back.
unfoldable pub put_back : Job → AutoSyncScheduler → AutoSyncScheduler
put_back Job.full s = record s { full_sync_requested = true }
put_back (Job.item torrent_id) s = record s {
  pending_torrent_ids = set_add torrent_id s.pending_torrent_ids;
}

-- The worker after the awaited sync returned `completed`.
unfoldable pub resume_worker : String → Job → Bool → AutoSyncScheduler → AutoSyncScheduler
unfolding loop_head put_back leave_worker
resume_worker popped job completed s =
    if completed
    then loop_head popped s
    else leave_worker queued_sync_retry_seconds (put_back job s)

-- What a sync that was awaited came to: it ran, it failed in a way that is logged, or
-- `SyncAlreadyRunningError`. `_run_queued_full_sync` and `_run_queued_item_sync` return this.
pub data SyncOutcome : Type 0 where
  ran : SyncOutcome
  configuration_error : SyncOutcome
  execution_error : SyncOutcome
  unexpected_error : SyncOutcome
  already_running : SyncOutcome

unfoldable pub run_queued_sync : SyncOutcome → Bool
run_queued_sync SyncOutcome.already_running = false
run_queued_sync SyncOutcome.ran = true
run_queued_sync SyncOutcome.configuration_error = true
run_queued_sync SyncOutcome.execution_error = true
run_queued_sync SyncOutcome.unexpected_error = true

-- `set.pop` on a set whose elements come in the order of the list.
abbrev pub first : List String → String
first [] = ""
first (x ∷ xs) = x

-- `run_queued_syncs` after it was launched, when nothing happens in between, with the syncs that
-- it ran. `none` means that the fuel ran out.
unfoldable pub await_syncs :
    ℕ → (Job → SyncOutcome) → AutoSyncScheduler → Option (AutoSyncScheduler × List Job)
unfolding resume_worker run_queued_sync
await_syncs zero sync s = none
await_syncs (suc fuel) sync s = elim s.worker [
  | Worker.awaiting job ↦
      elim (await_syncs fuel sync
        (resume_worker (first s.pending_torrent_ids) job (run_queued_sync (sync job)) s)) [
          | some (t, jobs) ↦ some (t, job ∷ jobs)
          | none ↦ none
        ]
  | _ ↦ some (s, [])
]

-- There is at most a full sync and one for each item, so the fuel is enough.
unfoldable pub run_queued_syncs :
    (Job → SyncOutcome) → AutoSyncScheduler → Option (AutoSyncScheduler × List Job)
unfolding await_syncs begin_worker
run_queued_syncs sync s =
    await_syncs (suc (suc (length s.pending_torrent_ids))) sync
      (begin_worker (first s.pending_torrent_ids) s)

-- The job store starts the job when it is due. With `max_instances=1` the start is skipped while
-- the worker exists.
unfoldable pub fire_job : AutoSyncScheduler → AutoSyncScheduler
fire_job s = elim s.worker [
  | Worker.idle ↦ record s { queued_job = none; worker = Worker.launched }
  | Worker.launched ↦ record s { queued_job = none }
  | Worker.awaiting _ ↦ record s { queued_job = none }
]

-- One thing that happens: a request, the due job, the start of the coroutine, or the end of the
-- sync that it awaits.
pub data Step : AutoSyncScheduler → AutoSyncScheduler → Type 0 where
  enqueued :
      {s : AutoSyncScheduler} (torrent_id : Option String)
      → Step s (enqueue_post_add_sync torrent_id s).0
  fired : {s : AutoSyncScheduler} (delay : ℕ) → s.queued_job ≡ some delay → Step s (fire_job s)
  began :
      {s : AutoSyncScheduler} (popped : String)
      → s.worker ≡ Worker.launched
      → (is_empty s.pending_torrent_ids ≡ false → contains s.pending_torrent_ids popped ≡ true)
      → Step s (begin_worker popped s)
  ended :
      {s : AutoSyncScheduler} (popped : String) (job : Job) (outcome : SyncOutcome)
      → s.worker ≡ Worker.awaiting job
      → (is_empty s.pending_torrent_ids ≡ false → contains s.pending_torrent_ids popped ≡ true)
      → Step s (resume_worker popped job (run_queued_sync outcome) s)
