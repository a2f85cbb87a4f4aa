-- ===== src/Sync/Scheduler/Progress.antt =====
-- api/app/sync/scheduler.py: the queue, the worker and its job, however they are interleaved.
use strmline.Prelude.{ℕ, ◌≡◌, refl, String, Bool, true, false, ◌||◌, Option, none, some, arith}
use strmline.Sync.Scheduler.{
  AutoSyncScheduler, Worker, Job, Step, enqueued, fired, began, ended, has_work, new_scheduler,
  enqueue_post_add_sync, request_sync, schedule_queued_sync, fire_job, begin_worker,
  queued_sync_retry_seconds, loop_head, leave_worker, resume_worker, run_queued_sync, put_back,
}

pub data Reach : AutoSyncScheduler → Type 0 where
  start : (running : Bool) → Reach (new_scheduler running)
  next : {s t : AutoSyncScheduler} → Reach s → Step s t → Reach t

-- Whether the coroutine has started and not ended.
abbrev pub is_awaiting : Worker → Bool
is_awaiting Worker.idle = false
is_awaiting Worker.launched = false
is_awaiting (Worker.awaiting _) = true

abbrev pub exists : Worker → Bool
exists Worker.idle = false
exists Worker.launched = true
exists (Worker.awaiting _) = true

abbrev pub is_some : Option ℕ → Bool
is_some none = false
is_some (some _) = true

-- The flag tells whether the worker runs, and work has someone to do it.
pub record IsAttended (s : AutoSyncScheduler) : Type 0 where
  pub flag : s.queued_worker_running ≡ is_awaiting s.worker
  pub attended : has_work s ≡ true → (exists s.worker || is_some s.queued_job) ≡ true

new_scheduler-IsAttended : (running : Bool) → IsAttended (new_scheduler running)
unfolding has_work
new_scheduler-IsAttended running = record { flag = refl; attended = λ h. absurd (ground arith) }

leave_worker-IsAttended : (delay : ℕ) (s : AutoSyncScheduler) → IsAttended (leave_worker delay s)
unfolding leave_worker has_work schedule_queued_sync
leave_worker-IsAttended delay s = record { flag = ground arith; attended = λ h. ground arith }

loop_head-IsAttended :
    (popped : String) (s : AutoSyncScheduler)
    → s.queued_worker_running ≡ true
    → IsAttended (loop_head popped s)
unfolding loop_head has_work leave_worker schedule_queued_sync
loop_head-IsAttended popped s r = record { flag = ground arith; attended = λ h. ground arith }

begin_worker-IsAttended :
    (popped : String) (s : AutoSyncScheduler) → IsAttended (begin_worker popped s)
unfolding begin_worker
begin_worker-IsAttended popped s =
    loop_head-IsAttended popped (record s { queued_worker_running = true }) refl

resume_worker-IsAttended :
    (popped : String) (job : Job) (completed : Bool) (s : AutoSyncScheduler)
    → s.queued_worker_running ≡ true
    → IsAttended (resume_worker popped job completed s)
unfolding resume_worker
resume_worker-IsAttended popped job true s r = loop_head-IsAttended popped s r
resume_worker-IsAttended popped job false s r =
    leave_worker-IsAttended queued_sync_retry_seconds (put_back job s)

enqueue-IsAttended :
    (torrent_id : Option String) (s : AutoSyncScheduler)
    → IsAttended s
    → IsAttended (enqueue_post_add_sync torrent_id s).0
unfolding enqueue_post_add_sync request_sync schedule_queued_sync has_work
enqueue-IsAttended none s i = record { flag = ground arith; attended = λ h. ground arith }
enqueue-IsAttended (some id) s i = record { flag = ground arith; attended = λ h. ground arith }

fire_job-IsAttended : (s : AutoSyncScheduler) → IsAttended s → IsAttended (fire_job s)
unfolding fire_job has_work
fire_job-IsAttended s i = record { flag = ground arith; attended = λ h. ground arith }

Step-IsAttended : {s t : AutoSyncScheduler} → Step s t → IsAttended s → IsAttended t
Step-IsAttended (enqueued {s} torrent_id) i = enqueue-IsAttended torrent_id s i
Step-IsAttended (fired {s} delay d) i = fire_job-IsAttended s i
Step-IsAttended (began {s} popped w c) i = begin_worker-IsAttended popped s
Step-IsAttended (ended {s} popped job outcome w c) i =
    resume_worker-IsAttended popped job (run_queued_sync outcome) s (rw (i.flag, w) refl)

Reach-IsAttended : {s : AutoSyncScheduler} → Reach s → IsAttended s
Reach-IsAttended (start running) = new_scheduler-IsAttended running
Reach-IsAttended (next r t) = Step-IsAttended t (Reach-IsAttended r)

-- However requests, due jobs and the ends of syncs are interleaved: while a sync is requested, the
-- worker exists or its job is in the job store.
pub work_attended :
    {s : AutoSyncScheduler}
    → Reach s
    → has_work s ≡ true
    → (exists s.worker || is_some s.queued_job) ≡ true
work_attended r h = (Reach-IsAttended r).attended h
