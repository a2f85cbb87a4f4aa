-- ===== src/Sync/Scheduler/Drain.antt =====
-- api/app/sync/scheduler.py: how `run_queued_syncs` runs and what it leaves behind.
use strmline.Prelude.{
  ℕ, zero, suc, ◌+◌, ◌≤◌, ◌<◌, ◌≡◌, refl, ◌⊎◌, inl, inr, String, true, false, not, List, [], ◌∷◌,
  some, if◌then◌else◌, ◌==◌, string_eq, eq_iff, length, length-keep-le, In, ◌∙◌, Bool-cases,
  List-cases, arith,
}
use strmline.Sync.Scheduler.{
  AutoSyncScheduler, Worker, Job, SyncOutcome, is_empty, set_add, set_remove, schedule_queued_sync,
  has_work, queued_sync_retry_seconds, first, begin_worker, loop_head, leave_worker, resume_worker,
  run_queued_sync, put_back, await_syncs, run_queued_syncs,
}

-- How many syncs the queue may still take.
abbrev pub size : AutoSyncScheduler → ℕ
size s = length s.pending_torrent_ids + (if s.full_sync_requested then 1 else 0)

-- A worker that has ended.
pub record IsIdle (s : AutoSyncScheduler) : Type 0 where
  pub worker_idle : s.worker ≡ Worker.idle
  pub flag_reset : s.queued_worker_running ≡ false

-- The worker has ended after some syncs: with an empty queue, or because the last sync could not
-- run, and then the queue is tried again in two seconds.
pub record IsLeft (sync : Job → SyncOutcome) (jobs : List Job) (s : AutoSyncScheduler)
    : Type 0 where
  pub ended : IsIdle s
  pub rest :
      (has_work s ≡ false)
      ⊎ ((job : Job) × In job jobs
          × (sync job ≡ SyncOutcome.already_running)
          × (s.queued_job ≡ some queued_sync_retry_seconds))

length-remove-first :
    (x : String) (xs : List String) → length (set_remove x (x ∷ xs)) < length (x ∷ xs)
length-remove-first x xs =
    ground (arith, eq_iff x x, length-keep-le (λ (y : String). not (y == x)) xs)

leave_worker-IsIdle : (delay : ℕ) (s : AutoSyncScheduler) → IsIdle (leave_worker delay s)
unfolding leave_worker schedule_queued_sync
leave_worker-IsIdle delay s = record { worker_idle = ground arith; flag_reset = ground arith }

has_work-leave_worker :
    (delay : ℕ) (s : AutoSyncScheduler) → has_work (leave_worker delay s) ≡ has_work s
unfolding leave_worker has_work schedule_queued_sync
has_work-leave_worker delay s = ground arith

is_empty-set_add : (x : String) (xs : List String) → is_empty (set_add x xs) ≡ false
is_empty-set_add x [] = refl
is_empty-set_add x (y ∷ xs) = ground arith

has_work-put_back : (job : Job) (s : AutoSyncScheduler) → has_work (put_back job s) ≡ true
unfolding has_work put_back
has_work-put_back Job.full s = refl
has_work-put_back (Job.item x) s = ground (arith, is_empty-set_add x s.pending_torrent_ids)

leave_worker-retry :
    (delay : ℕ) (s : AutoSyncScheduler)
    → has_work s ≡ true
    → (leave_worker delay s).queued_job ≡ some delay
unfolding leave_worker has_work schedule_queued_sync
leave_worker-retry delay s h = ground arith

refused : (o : SyncOutcome) → run_queued_sync o ≡ false → o ≡ SyncOutcome.already_running
unfolding run_queued_sync
refused SyncOutcome.ran h = absurd (ground arith)
refused SyncOutcome.configuration_error h = absurd (ground arith)
refused SyncOutcome.execution_error h = absurd (ground arith)
refused SyncOutcome.unexpected_error h = absurd (ground arith)
refused SyncOutcome.already_running h = refl

module _ (popped : String) (s : AutoSyncScheduler) where
  loop_head-full :
      s.full_sync_requested ≡ true
      → loop_head popped s ≡ record s {
        full_sync_requested = false;
        pending_torrent_ids = [];
        worker = Worker.awaiting Job.full;
      }
  unfolding loop_head
  loop_head-full f = rw f refl

  loop_head-empty :
      s.full_sync_requested ≡ false
      → s.pending_torrent_ids ≡ []
      → loop_head popped s ≡ leave_worker 0 s
  unfolding loop_head
  loop_head-empty f e = rw (f, e) refl

  loop_head-item :
      (x : String) (xs : List String)
      → s.full_sync_requested ≡ false
      → s.pending_torrent_ids ≡ x ∷ xs
      → loop_head popped s ≡ record s {
        pending_torrent_ids = set_remove popped s.pending_torrent_ids;
        worker = Worker.awaiting (Job.item popped);
      }
  unfolding loop_head
  loop_head-item x xs f e = rw (f, e) refl

has_work-empty :
    (s : AutoSyncScheduler)
    → s.full_sync_requested ≡ false
    → s.pending_torrent_ids ≡ []
    → has_work s ≡ false
unfolding has_work
has_work-empty s f e = rw (f, e) refl

size-remove :
    (xs : List String) (x : String) (ys : List String)
    → xs ≡ x ∷ ys
    → length (set_remove (first xs) xs) < length xs
size-remove xs x ys e = rw e (length-remove-first x ys)

-- The loop ends with an empty queue, or awaits a sync that it took from the queue.
loop_head-takes :
    (s : AutoSyncScheduler)
    → (IsIdle (loop_head (first s.pending_torrent_ids) s)
        × (has_work (loop_head (first s.pending_torrent_ids) s) ≡ false))
      ⊎ ((job : Job) × ((loop_head (first s.pending_torrent_ids) s).worker ≡ Worker.awaiting job)
          × (size (loop_head (first s.pending_torrent_ids) s) < size s))
loop_head-takes s = elim (Bool-cases s.full_sync_requested) [
  | inl f ↦
      rw (loop_head-full (first s.pending_torrent_ids) s f)
        (inr (Job.full, refl, rw f (omega arith)))
  | inr f ↦ elim (List-cases s.pending_torrent_ids) [
    | inl e ↦
        rw (loop_head-empty (first s.pending_torrent_ids) s f e)
          (inl (leave_worker-IsIdle 0 s, has_work-leave_worker 0 s ∙ has_work-empty s f e))
    | inr (x, xs, e) ↦ rw (loop_head-item (first s.pending_torrent_ids) s x xs f e) (
        inr (
          Job.item (first s.pending_torrent_ids),
          refl,
          omega (arith, size-remove s.pending_torrent_ids x xs e),
        ))
  ]
]

-- The state after a sync that was awaited.
resume_worker-true :
    (popped : String) (job : Job) (s : AutoSyncScheduler)
    → resume_worker popped job true s ≡ loop_head popped s
unfolding resume_worker
resume_worker-true popped job s = refl

resume_worker-false :
    (popped : String) (job : Job) (s : AutoSyncScheduler)
    → resume_worker popped job false s ≡ leave_worker queued_sync_retry_seconds (put_back job s)
unfolding resume_worker
resume_worker-false popped job s = refl

await_syncs-idle :
    (fuel : ℕ) (sync : Job → SyncOutcome) (s : AutoSyncScheduler)
    → s.worker ≡ Worker.idle
    → await_syncs (suc fuel) sync s ≡ some (s, [])
unfolding await_syncs
await_syncs-idle fuel sync s w = simp (await_syncs, w) refl

await_syncs-awaiting :
    (fuel : ℕ) (sync : Job → SyncOutcome) (s t : AutoSyncScheduler) (job : Job) (jobs : List Job)
    → s.worker ≡ Worker.awaiting job
    → await_syncs fuel sync
        (resume_worker (first s.pending_torrent_ids) job (run_queued_sync (sync job)) s)
      ≡ some (t, jobs)
    → await_syncs (suc fuel) sync s ≡ some (t, job ∷ jobs)
unfolding await_syncs
await_syncs-awaiting fuel sync s t job jobs w e = rw (await_syncs, w, e) refl

IsLeft-cons :
    (sync : Job → SyncOutcome) (job : Job) (jobs : List Job) (s : AutoSyncScheduler)
    → IsLeft sync jobs s
    → IsLeft sync (job ∷ jobs) s
IsLeft-cons sync job jobs s l = record {
  ended = l.ended;
  rest = elim l.rest [ inl n ↦ inl n | inr (j, m, r, q) ↦ inr (j, inr m, r, q) ];
}

size-le : (s : AutoSyncScheduler) → size s ≤ length s.pending_torrent_ids + 1
size-le s = ground arith

-- Enough fuel, from a worker that awaits a sync.
await_syncs-IsLeft :
    (fuel : ℕ) (sync : Job → SyncOutcome) (s : AutoSyncScheduler) (job : Job)
    → s.worker ≡ Worker.awaiting job
    → size s + 1 < fuel
    → (t : AutoSyncScheduler) × (jobs : List Job) × (await_syncs fuel sync s ≡ some (t, jobs))
      × IsLeft sync jobs t
      × (length jobs ≤ size s + 1)
await_syncs-IsLeft zero sync s job w h = absurd (omega (arith, h))
await_syncs-IsLeft (suc zero) sync s job w h = absurd (omega (arith, h))
await_syncs-IsLeft (suc (suc fuel)) sync s job w h =
    elim (Bool-cases (run_queued_sync (sync job))) [
      | inr refuse ↦
          let t = leave_worker queued_sync_retry_seconds (put_back job s) in
          (
            t,
            job ∷ [],
            await_syncs-awaiting (suc fuel) sync s t job [] w (
                rw (refuse, resume_worker-false (first s.pending_torrent_ids) job s)
                  (await_syncs-idle fuel sync t
                    (leave_worker-IsIdle queued_sync_retry_seconds (put_back job s)).worker_idle)),
            record {
              ended = leave_worker-IsIdle queued_sync_retry_seconds (put_back job s);
              rest = inr (
                job,
                inl refl,
                refused (sync job) refuse,
                leave_worker-retry queued_sync_retry_seconds (put_back job s)
                    (has_work-put_back job s),
              );
            },
            omega arith,
          )
      | inl complete ↦ elim (loop_head-takes s) [
        | inl (idle, empty) ↦
            let t = loop_head (first s.pending_torrent_ids) s in
            (
              t,
              job ∷ [],
              await_syncs-awaiting (suc fuel) sync s t job [] w (
                  rw (complete, resume_worker-true (first s.pending_torrent_ids) job s)
                    (await_syncs-idle fuel sync t idle.worker_idle)),
              record { ended = idle; rest = inl empty },
              omega arith,
            )
        | inr (j, wj, less) ↦
            let q =
              await_syncs-IsLeft (suc fuel) sync (loop_head (first s.pending_torrent_ids) s) j wj
                (omega (arith, h, less)) in
            (
              q.0,
              job ∷ q.1,
              await_syncs-awaiting (suc fuel) sync s q.0 job q.1 w
                  (rw (complete, resume_worker-true (first s.pending_torrent_ids) job s) q.2),
              IsLeft-cons sync job q.1 q.0 q.3,
              omega (arith, q.4, less),
            )
      ]
    ]

-- The worker ends, whatever the syncs come to, when nothing else happens meanwhile. It has run at
-- most one sync for each pending item and one more, its flag is reset, and either the queue is
-- empty or a sync found another one running and the worker is scheduled again in two seconds.
pub run_queued_syncs_ends :
    (sync : Job → SyncOutcome) (s : AutoSyncScheduler)
    → (t : AutoSyncScheduler) × (jobs : List Job) × (run_queued_syncs sync s ≡ some (t, jobs))
      × IsLeft sync jobs t
      × (length jobs ≤ length s.pending_torrent_ids + 1)
unfolding run_queued_syncs begin_worker
run_queued_syncs_ends sync s =
    let b : AutoSyncScheduler = record s { queued_worker_running = true } in
    elim (loop_head-takes b) [
      | inl (idle, empty) ↦ (
        loop_head (first s.pending_torrent_ids) b,
        [],
        await_syncs-idle (suc (length s.pending_torrent_ids)) sync
            (loop_head (first s.pending_torrent_ids) b) idle.worker_idle,
        record { ended = idle; rest = inl empty },
        omega arith,
      )
      | inr (job, w, less) ↦
          let q =
            await_syncs-IsLeft (suc (suc (length s.pending_torrent_ids))) sync
              (loop_head (first s.pending_torrent_ids) b) job w (omega (arith, less, size-le b)) in
          (q.0, q.1, q.2, q.3, omega (arith, q.4, less, size-le b))
    ]
