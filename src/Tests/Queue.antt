-- ===== src/Tests/Queue.antt =====
-- A request for one item, up to the sync that it waits for.
use strmline.Prelude.{◌+◌, ◌≤◌, ◌≡◌, refl, true, ◌||◌, List, [], ◌∷◌, some, length}
use strmline.Sync.Scheduler.{
  AutoSyncScheduler, Worker, Job, SyncOutcome, new_scheduler, enqueue_post_add_sync, fire_job,
  begin_worker, run_queued_syncs, has_work, enqueued, fired, began,
}
use strmline.Sync.Scheduler.Progress.{Reach, start, next, exists, is_some, work_attended}
use strmline.Sync.Scheduler.Status.{Trace, here, followed, Holds, status}
use strmline.Sync.Scheduler.Fate.{request_kept}
use strmline.Sync.Scheduler.Drain.{IsLeft, run_queued_syncs_ends}

abbrev asked : AutoSyncScheduler
asked = (enqueue_post_add_sync (some "t") (new_scheduler true)).0

asked-Reach : Reach asked
asked-Reach = next (start true) (enqueued (some "t"))

asked-has_work : has_work asked ≡ true
unfolding has_work enqueue_post_add_sync
asked-has_work = refl

work_attended_example : (exists asked.worker || is_some asked.queued_job) ≡ true
work_attended_example = work_attended asked-Reach asked-has_work

has_job : asked.queued_job ≡ some 0
unfolding enqueue_post_add_sync
has_job = refl

is_launched : (fire_job asked).worker ≡ Worker.launched
unfolding enqueue_post_add_sync fire_job
is_launched = refl

holds_t : (fire_job asked).pending_torrent_ids ≡ "t" ∷ []
unfolding enqueue_post_add_sync fire_job
holds_t = refl

begun : Trace asked (begin_worker "t" (fire_job asked))
begun = followed (followed here (fired 0 has_job)) (began "t" is_launched (λ _. rw holds_t refl))

request_kept_example :
    ((enqueue_post_add_sync (some "t") (new_scheduler true)).1 ≡ true)
    × Holds (some "t") (begin_worker "t" (fire_job asked)) (status (some "t") begun)
request_kept_example =
    request_kept (some "t") (new_scheduler true) (begin_worker "t" (fire_job asked)) refl begun

run_queued_syncs_ends_example :
    (t : AutoSyncScheduler) × (jobs : List Job) × (run_queued_syncs (λ _. SyncOutcome.ran) asked
      ≡ some (t, jobs))
    × IsLeft (λ _. SyncOutcome.ran) jobs t
    × (length jobs ≤ length asked.pending_torrent_ids + 1)
run_queued_syncs_ends_example = run_queued_syncs_ends (λ _. SyncOutcome.ran) asked
