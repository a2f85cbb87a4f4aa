-- ===== src/Sync/Scheduler/Fate.antt =====
-- What becomes of a request for a sync.
use strmline.Prelude.{
  ℕ, ◌≡◌, refl, subst, inl, inr, String, Bool, true, false, Option, none, some, string_eq, eq_iff,
  arith,
}
use strmline.Sync.Scheduler.{
  AutoSyncScheduler, Worker, Job, Step, enqueued, fired, began, ended, schedule_queued_sync,
  queued_sync_retry_seconds, enqueue_post_add_sync, request_sync, begin_worker, loop_head,
  leave_worker, resume_worker, run_queued_sync, put_back,
}
use strmline.Sync.Scheduler.Status.{
  covers, requested, Status, after_start, after_end, Trace, here, followed, after_step, status,
  Holds, contains-set_add, requested-enqueue, worker-enqueue, requested-fire_job, covers-fire_job,
  loop_head-cases, leave_worker-requested, requested-put_back,
}

loop_head-Holds :
    (asked : Option String) (popped : String) (s : AutoSyncScheduler)
    → requested asked s ≡ true
    → Holds asked
        (loop_head popped s)
        (after_start (covers asked (loop_head popped s).worker) Status.waiting)
loop_head-Holds asked popped s h = elim (loop_head-cases asked popped s h) [
  | inl c ↦ rw c c
  | inr (n, w) ↦ rw n w
]

leave_worker-Holds :
    (asked : Option String) (delay : ℕ) (s : AutoSyncScheduler)
    → requested asked s ≡ true
    → Holds asked
        (leave_worker delay s)
        (after_start (covers asked (leave_worker delay s).worker) Status.waiting)
leave_worker-Holds asked delay s h = let p = leave_worker-requested asked delay s in rw (p.1, p.0) h

covers-launched :
    (asked : Option String) (w : Worker) → w ≡ Worker.launched → covers asked w ≡ true → ⊥
covers-launched none w e h = ground arith
covers-launched (some id) w e h = ground arith

begin_worker-Holds :
    (asked : Option String) (popped : String) (s : AutoSyncScheduler) (st : Status)
    → s.worker ≡ Worker.launched
    → Holds asked s st
    → Holds asked
        (begin_worker popped s)
        (after_start (covers asked (begin_worker popped s).worker) st)
unfolding begin_worker
begin_worker-Holds none popped s Status.waiting w h =
    loop_head-Holds none popped (record s { queued_worker_running = true }) h
begin_worker-Holds (some id) popped s Status.waiting w h =
    loop_head-Holds (some id) popped (record s { queued_worker_running = true }) h
begin_worker-Holds asked popped s Status.serving w h = absurd (covers-launched asked s.worker w h)
begin_worker-Holds asked popped s Status.done w h = tt

resume_worker-Holds :
    (asked : Option String) (popped : String) (job : Job) (completed : Bool) (s : AutoSyncScheduler)
    (st : Status)
    → s.worker ≡ Worker.awaiting job
    → Holds asked s st
    → Holds asked (resume_worker popped job completed s) (
        after_start
          (covers asked (resume_worker popped job completed s).worker)
          (after_end completed st))
unfolding resume_worker
resume_worker-Holds asked popped job true s Status.waiting w h = loop_head-Holds asked popped s h
resume_worker-Holds asked popped job true s Status.serving w h = tt
resume_worker-Holds asked popped job false s Status.waiting w h =
    leave_worker-Holds asked queued_sync_retry_seconds (put_back job s)
      (requested-put_back asked job s (inl h))
resume_worker-Holds asked popped job false s Status.serving w h =
    leave_worker-Holds asked queued_sync_retry_seconds (put_back job s)
      (requested-put_back asked job s (inr (subst (λ x. covers asked x ≡ true) w h)))
resume_worker-Holds asked popped job completed s Status.done w h = tt

Step-Holds :
    (asked : Option String) {s t : AutoSyncScheduler} (step : Step s t) (st : Status)
    → Holds asked s st
    → Holds asked t (after_step asked step st)
Step-Holds asked (enqueued {s} other) Status.waiting h = requested-enqueue asked other s h
Step-Holds asked (enqueued {s} other) Status.serving h = rw (worker-enqueue other s) h
Step-Holds asked (enqueued {s} other) Status.done h = tt
Step-Holds asked (fired {s} delay d) Status.waiting h = requested-fire_job asked s h
Step-Holds asked (fired {s} delay d) Status.serving h = covers-fire_job asked s h
Step-Holds asked (fired {s} delay d) Status.done h = tt
Step-Holds asked (began {s} popped w c) st h = begin_worker-Holds asked popped s st w h
Step-Holds asked (ended {s} popped job outcome w c) st h =
    resume_worker-Holds asked popped job (run_queued_sync outcome) s st w h

Trace-Holds :
    (asked : Option String) {s t : AutoSyncScheduler} (trace : Trace s t)
    → requested asked s ≡ true
    → Holds asked t (status asked trace)
Trace-Holds asked here h = h
Trace-Holds asked (followed trace step) h =
    Step-Holds asked step (status asked trace) (Trace-Holds asked trace h)

requested-after :
    (asked : Option String) (s : AutoSyncScheduler)
    → s.scheduler_running ≡ true
    → requested asked (enqueue_post_add_sync asked s).0 ≡ true
unfolding enqueue_post_add_sync request_sync schedule_queued_sync
requested-after none s h = ground arith
requested-after (some id) s h =
    ground (arith, contains-set_add id id s.pending_torrent_ids, eq_iff id id)

-- A request that a running scheduler accepts is not lost, however what follows is interleaved: it
-- is in the queue, or the worker awaits a sync that covers it and started after it, or such a sync
-- has come to an end other than `SyncAlreadyRunningError`.
pub request_kept :
    (asked : Option String) (s t : AutoSyncScheduler)
    → s.scheduler_running ≡ true
    → (trace : Trace (enqueue_post_add_sync asked s).0 t)
    → ((enqueue_post_add_sync asked s).1 ≡ true) × Holds asked t (status asked trace)
unfolding enqueue_post_add_sync
request_kept asked s t h trace = (rw h refl, Trace-Holds asked trace (requested-after asked s h))
