-- ===== src/Sync/Service/Ending.antt =====
-- api/app/sync/service.py: how `run_torbox_account_sync` can end.
use strmline.Prelude.{
  ℕ, ◌≡◌, refl, sym, subst, ◌⊎◌, inl, inr, String, true, false, Option, Result, ok, raise,
  Result-cases, Bool-cases,
}
use strmline.Prelude.Dict.{lookup}
use strmline.Prelude.Text.{Unicode}
use strmline.Library.Journal.{FilePath, path_eq, Files, LibraryMutationJournal, restore}
use strmline.Library.Journal.Rollback.{Sync, restore_undoes, restore-stopped}
use strmline.Sync.TorboxStrm.{SyncDiagnostic, TorBoxStrmSyncResult}
use strmline.Sync.Runs.{SyncRunSource, record_success, record_failure}
use strmline.Sync.Service.{
  ResolverUrlConfig, SettingsSnapshot, Fault, GeneratedSync, Generation, SyncError, SyncRunSummary,
  Clock, Backend, World,
}
use strmline.Sync.Service.Execution.{
  configure, failure_of, persist, remove_stale, persist_sync, generate_and_persist, execute_sync,
  run_torbox_account_sync, report_failure, undo, persistence_failed, generation_failed,
  sync_finished, release,
}
use strmline.Sync.Service.Undone.{remove_stale-Sync}

module _ {D : Type 0} (u : Unicode) (backend : Backend D)
    (generate : FilePath → Option ResolverUrlConfig → D → Files → Generation D) (clock : Clock)
    (source : SyncRunSource) (snapshot : SettingsSnapshot) (w : World D) where
  -- What was there at each path before the sync is there.
  abbrev pub SameFiles : World D → Type 0
  SameFiles after = (path : FilePath) → lookup path after.files ≡ lookup path w.files

  -- How a sync ends: the settings are incomplete, or it fails and is undone, or it succeeds; or,
  -- each with the call that has raised, it breaks off before its first `try` statement, the failure
  -- cannot be recorded, the files cannot be restored, or what follows a success raises.
  pub data Ended : World D × Result SyncError SyncRunSummary → Type 0 where
    misconfigured :
        {after : World D} {message : String}
        → after.files ≡ w.files
        → after.database ≡ w.database
        → after.tables
          ≡ (record_failure clock.now clock.created_at source
              (failure_of "configuration" message)
              0
              0
              0
              w.tables).0
        → Ended (after, raise (SyncError.configuration message))
    undone :
        {after : World D} {error : String} (root : FilePath) (resolver : Option ResolverUrlConfig)
        (failure : SyncDiagnostic) (scanned written skipped : ℕ)
        → SameFiles after
        → after.database ≡ (generate root resolver w.database w.files).database
        → after.tables
          ≡ (record_failure clock.now clock.created_at source failure scanned written skipped
              w.tables).0
        → Ended (after, raise (SyncError.execution error))
    succeeded :
        {after : World D} {summary : SyncRunSummary} (result : TorBoxStrmSyncResult)
        → after.tables ≡ (record_success clock.now clock.created_at source result w.tables).0
        → summary.sync_run_id ≡ (record_success clock.now clock.created_at source result w.tables).1
        → Ended (after, ok summary)
    broken_off :
        {after : World D} {fault : Fault}
        → (backend.lock_asked ≡ raise fault)
          ⊎ (backend.settings_read ≡ raise fault)
          ⊎ (backend.context ≡ raise fault)
        → after.files ≡ w.files
        → after.database ≡ w.database
        → after.tables ≡ w.tables
        → Ended (after, raise (SyncError.unexpected fault))
    unrecorded :
        {after : World D} {fault : Fault}
        → backend.failure_recorded ≡ raise fault
        → SameFiles after
        → after.tables ≡ w.tables
        → Ended (after, raise (SyncError.unexpected fault))
    unrestored :
        {after : World D} {fault : Fault}
        → (backend.rolled_back ≡ raise fault)
          ⊎ ((path : FilePath) × (backend.can_restore path ≡ false))
        → after.tables ≡ w.tables
        → Ended (after, raise (SyncError.unexpected fault))
    unfinished :
        {after : World D} {fault : Fault} (result : TorBoxStrmSyncResult)
        → backend.finished ≡ raise fault
        → after.tables ≡ (record_success clock.now clock.created_at source result w.tables).0
        → Ended (after, raise (SyncError.unexpected fault))

  -- How an `except` clause ends, from the state in which the generation has left the tables.
  undo-Ended :
      (root : FilePath) (resolver : Option ResolverUrlConfig) (failure : SyncDiagnostic)
      → (scanned written skipped : ℕ) (message : String) (journal : LibraryMutationJournal)
      → (files : Files) → Sync root w.files journal files
      → Ended (
          undo u backend clock source failure scanned written skipped
            (SyncError.execution message)
            journal
            files
            (record w { database = (generate root resolver w.database w.files).database }))
  unfolding undo report_failure
  undo-Ended root resolver failure scanned written skipped message journal files s =
      elim (Result-cases backend.rolled_back) [
        | inl (fault, p) ↦ simp (undo, p) (Ended.unrestored (inl p) refl)
        | inr (_, p) ↦ elim (Bool-cases (restore backend.can_restore journal files).1) [
          | inr e ↦
              simp (undo, p, e)
                (Ended.unrestored (inr (restore-stopped backend.can_restore journal files e)) refl)
          | inl e ↦ elim (Result-cases backend.failure_recorded) [
            | inl (fault, q) ↦
                simp (undo, report_failure, p, e, q)
                  (Ended.unrecorded q (restore_undoes backend.can_restore s e) refl)
            | inr (_, q) ↦
                simp (undo, report_failure, p, e, q)
                  (Ended.undone root resolver failure scanned written skipped
                    (restore_undoes backend.can_restore s e) refl refl)
          ]
        ]
      ]

  persist_sync-Ended :
      (root : FilePath) (resolver : Option ResolverUrlConfig) (g : GeneratedSync)
      → (journal : LibraryMutationJournal) (files : Files) → Sync root w.files journal files
      → Ended (
          persist_sync u backend clock source snapshot root g journal files
            (record w { database = (generate root resolver w.database w.files).database }))
  unfolding persist_sync sync_finished persistence_failed
  persist_sync-Ended root resolver g journal files s =
      elim (Result-cases
        (persist u backend g root (generate root resolver w.database w.files).database)) [
          | inl (e, p) ↦ rw (persist_sync, p) (undo-Ended root resolver _ _ _ _ _ journal files s)
          | inr ((d, stale), p) ↦
              let removed = remove_stale-Sync u backend root g.result stale d journal files s in
              elim (Bool-cases (remove_stale u backend root g.result stale d journal files).2) [
                | inl e ↦ elim (Result-cases backend.finished) [
                  | inl (fault, q) ↦
                      simp (persist_sync, sync_finished, p, e, q) (Ended.unfinished g.result q refl)
                  | inr (_, q) ↦
                      simp (persist_sync, sync_finished, p, e, q)
                        (Ended.succeeded g.result refl refl)
                ]
                | inr e ↦ rw (persist_sync, p, e) (undo-Ended root resolver _ _ _ _ _ _ _ removed)
              ]
        ]

  generate-Ended :
      (root : FilePath) (resolver : Option ResolverUrlConfig)
      → Sync root w.files
          (generate root resolver w.database w.files).journal
          (generate root resolver w.database w.files).files
      → Ended (generate_and_persist u backend generate clock source snapshot root resolver w)
  unfolding generate_and_persist generation_failed
  generate-Ended root resolver s =
      elim (Result-cases (generate root resolver w.database w.files).outcome) [
        | inl (fault, p) ↦ rw (generate_and_persist, p) (undo-Ended root resolver _ 0 0 0 _ _ _ s)
        | inr (g, p) ↦ rw (generate_and_persist, p) (persist_sync-Ended root resolver g _ _ s)
      ]

  execute_sync-Ended :
      ((root : FilePath) (resolver : Option ResolverUrlConfig)
        → Sync root w.files
            (generate root resolver w.database w.files).journal
            (generate root resolver w.database w.files).files)
      → Ended (execute_sync u backend generate clock source snapshot w)
  unfolding execute_sync report_failure
  execute_sync-Ended tracks = elim (Result-cases backend.settings_read) [
    | inl (fault, q) ↦ simp (execute_sync, q) (Ended.broken_off (inr (inl q)) refl refl refl)
    | inr (_, q) ↦ elim (Result-cases (configure snapshot)) [
      | inl (message, p) ↦ elim (Result-cases backend.failure_recorded) [
        | inl (fault, r) ↦
            simp (execute_sync, report_failure, q, p, r) (Ended.unrecorded r (λ path. refl) refl)
        | inr (_, r) ↦
            simp (execute_sync, report_failure, q, p, r) (Ended.misconfigured refl refl refl)
      ]
      | inr ((root, resolver), p) ↦ elim (Result-cases backend.context) [
        | inl (fault, r) ↦
            simp (execute_sync, q, p, r) (Ended.broken_off (inr (inr r)) refl refl refl)
        | inr (_, r) ↦
            simp (execute_sync, q, p, r) (generate-Ended root resolver (tracks root resolver))
      ]
    ]
  ]

module _ {D : Type 0} (u : Unicode) (backend : Backend D)
    (generate : FilePath → Option ResolverUrlConfig → D → Files → Generation D) (clock : Clock)
    (source : SyncRunSource) (snapshot : SettingsSnapshot) (w : World D) where
  released-Ended :
      (r : World D × Result SyncError SyncRunSummary)
      → Ended u backend generate clock source snapshot (record w { locked = true }) r
      → Ended u backend generate clock source snapshot w (record r.0 { locked = false }, r.1)
  released-Ended _ (Ended.misconfigured f d t) = Ended.misconfigured f d t
  released-Ended _ (Ended.undone root resolver failure a b c f d t) =
      Ended.undone root resolver failure a b c f d t
  released-Ended _ (Ended.succeeded result t i) = Ended.succeeded result t i
  released-Ended _ (Ended.broken_off from f d t) = Ended.broken_off from f d t
  released-Ended _ (Ended.unrecorded from f t) = Ended.unrecorded from f t
  released-Ended _ (Ended.unrestored from t) = Ended.unrestored from t
  released-Ended _ (Ended.unfinished result from t) = Ended.unfinished result from t

  -- A sync that takes the lock and can release it.
  run-locked :
      (t : Unit {0})
      → backend.lock_asked ≡ ok t
      → w.locked ≡ false
      → (r : Unit {0}) → backend.released ≡ ok r
      → run_torbox_account_sync u backend generate clock source snapshot w ≡ (
        record (execute_sync u backend generate clock source snapshot
            (record w { locked = true })).0 { locked = false },
        (execute_sync u backend generate clock source snapshot (record w { locked = true })).1,
      )
  unfolding run_torbox_account_sync release
  run-locked t asked free r released =
      simp (run_torbox_account_sync, release, asked, free, released) refl

  run-broken :
      (fault : Fault)
      → backend.lock_asked ≡ raise fault
      → run_torbox_account_sync u backend generate clock source snapshot w
        ≡ (w, raise (SyncError.unexpected fault))
  unfolding run_torbox_account_sync
  run-broken fault asked = simp (run_torbox_account_sync, asked) refl

  -- When no other sync is running, the lock can be released, and the generation tracks each file
  -- before it changes it: a sync with incomplete settings changes nothing but the record of this
  -- failure; one that fails, in the generation, in the database or among the stale files, leaves at
  -- every path what was there before, keeps of the other tables only what the generation has
  -- committed, and records one failed run; one that succeeds records one run and answers with its
  -- identifier. Otherwise a call outside of this has raised: the query for the lock, the reading of
  -- the settings or of the reusable files, and then nothing is changed or recorded; the record of
  -- the failure, and then none is recorded but each file is as before; the rollback, or the
  -- restoration of some file, and then no run is recorded; or what follows the commit of a success,
  -- which is recorded. The lock is free in the end.
  pub run_sync-Ended :
      w.locked ≡ false
      → backend.released ≡ ok tt
      → ((root : FilePath) (resolver : Option ResolverUrlConfig)
          → Sync root w.files
              (generate root resolver w.database w.files).journal
              (generate root resolver w.database w.files).files)
      → Ended u backend generate clock source snapshot w
          (run_torbox_account_sync u backend generate clock source snapshot w)
        × ((run_torbox_account_sync u backend generate clock source snapshot w).0.locked ≡ false)
  run_sync-Ended free released tracks = elim (Result-cases backend.lock_asked) [
    | inl (fault, p) ↦
        subst (λ r. Ended u backend generate clock source snapshot w r × (r.0.locked ≡ false))
          (sym (run-broken fault p)) (Ended.broken_off (inl p) refl refl refl, free)
    | inr (t, p) ↦
        subst (λ r. Ended u backend generate clock source snapshot w r × (r.0.locked ≡ false))
          (sym (run-locked t p free tt released))
          (
            released-Ended _ (
                execute_sync-Ended u backend generate clock source snapshot
                  (record w { locked = true }) tracks),
            refl,
          )
  ]
