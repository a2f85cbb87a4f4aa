-- ===== src/Sync/Service/Execution.antt =====
-- api/app/sync/service.py: `run_torbox_account_sync`, with the transaction of `_execute_sync`. The
-- `except` clauses roll the other tables back to what was committed before, restore the files and
-- record the failure; each of these calls may raise in turn, which ends the clause.
use strmline.Prelude.{
  ℕ, String, Bool, true, false, List, [], ◌∷◌, Option, none, if◌then◌else◌, Result, ok, raise,
}
use strmline.Prelude.Text.{Unicode}
use strmline.Library.Journal.{FilePath, Files, LibraryMutationJournal, restore}
use strmline.Sync.TorboxStrm.{SyncDiagnostic, TorBoxStrmSyncResult}
use strmline.Sync.Runs.{SyncRunSource, record_success, record_failure}
use strmline.Sync.Service.Chosen.{watchlist_identities, can_reconcile_exclusions}
use strmline.Sync.Service.{
  ResolverUrlConfig, SettingsSnapshot, require_torbox_api_key, configured_root, resolver_config,
  Fault, safe_failure_message, GeneratedSync, Generation, SyncError, SyncRunSummary, Clock, Backend,
  World, track_all, remove_stale_sync_files,
}

-- The `try` statement of the configuration: the root of the library and the resolver.
unfoldable pub configure : SettingsSnapshot → Result String (FilePath × Option ResolverUrlConfig)
unfolding require_torbox_api_key configured_root resolver_config
configure snapshot = elim (require_torbox_api_key snapshot.api_key) [
  | raise message ↦ raise message
  | ok _ ↦ elim (configured_root snapshot) [
    | raise message ↦ raise message
    | ok root ↦ elim (resolver_config snapshot) [
      | raise message ↦ raise message
      | ok resolver ↦ ok (root, resolver)
    ]
  ]
]

abbrev pub failure_of : String → String → SyncDiagnostic
failure_of phase message = record { phase = phase; item_ref = none; message = message }

module _ {D : Type 0} (u : Unicode) (backend : Backend D) where
  -- `_remove_synced_from_watchlist`
  unfoldable pub remove_synced_from_watchlist : TorBoxStrmSyncResult → D → Result Fault D
  unfolding watchlist_identities
  remove_synced_from_watchlist result d = elim (watchlist_identities u result.synced_files) [
    | [] ↦ ok d
    | i ∷ is ↦ backend.delete_identities (i ∷ is) d
  ]

  -- `_reconcile_exclusions`
  unfoldable pub reconcile_exclusions : TorBoxStrmSyncResult → D → Result Fault D
  unfolding can_reconcile_exclusions
  reconcile_exclusions result d =
      if can_reconcile_exclusions result
      then backend.clear_unobserved result.observed_excluded_prefixes d
      else ok d

  -- What the session has done to the other tables before any file is removed, and the paths that
  -- have become stale. The run that is flushed here is recorded in `sync_finished`, once the commit
  -- has made it last.
  unfoldable pub persist : GeneratedSync → FilePath → D → Result Fault (D × List FilePath)
  unfolding remove_synced_from_watchlist reconcile_exclusions
  persist g root d = elim (remove_synced_from_watchlist g.result d) [
    | raise fault ↦ raise fault
    | ok watched ↦ elim backend.success_flushed [
      | raise fault ↦ raise fault
      | ok _ ↦ elim (backend.persist_result g.result root g.selected_hashes watched) [
        | raise fault ↦ raise fault
        | ok (persisted, stale_paths) ↦ elim (reconcile_exclusions g.result persisted) [
          | raise fault ↦ raise fault
          | ok reconciled ↦ ok (reconciled, stale_paths)
        ]
      ]
    ]
  ]

  -- The rest of the `try` statement: the journal and the files when it ends, and whether it does so
  -- with a commit.
  unfoldable pub remove_stale :
      FilePath
      → TorBoxStrmSyncResult
      → List FilePath
      → D
      → LibraryMutationJournal
      → Files
      → LibraryMutationJournal × Files × Bool
  unfolding track_all remove_stale_sync_files
  remove_stale root result stale_paths d journal files =
      let (tracked, all_tracked) = track_all backend.can_read files stale_paths journal in
      elim all_tracked [
        | false ↦ (tracked, files, false)
        | true ↦
            let (removed, outcome) =
              remove_stale_sync_files u backend.can_unlink root result stale_paths files in
            elim outcome [
              | raise _ ↦ (tracked, removed, false)
              | ok _ ↦ (tracked, removed, backend.commit d)
            ]
      ]

  -- `record_failure` and the commit after it, and then the exception that the clause raises.
  unfoldable pub report_failure :
      Clock
      → SyncRunSource
      → SyncDiagnostic
      → ℕ
      → ℕ
      → ℕ
      → SyncError
      → World D
      → World D × Result SyncError SyncRunSummary
  unfolding record_failure
  report_failure clock source failure scanned written skipped error w =
      elim backend.failure_recorded [
        | raise fault ↦ (w, raise (SyncError.unexpected fault))
        | ok _ ↦ (
          record w {
            tables =
                (record_failure clock.now clock.created_at source failure scanned written skipped
                  w.tables).0;
          },
          raise error,
        )
      ]

  -- What the two `except` clauses do: the rollback, the restoration and the record.
  unfoldable pub undo :
      Clock
      → SyncRunSource
      → SyncDiagnostic
      → ℕ
      → ℕ
      → ℕ
      → SyncError
      → LibraryMutationJournal
      → Files
      → World D
      → World D × Result SyncError SyncRunSummary
  unfolding restore report_failure
  undo clock source failure scanned written skipped error journal files w =
      elim backend.rolled_back [
        | raise fault ↦ (record w { files = files }, raise (SyncError.unexpected fault))
        | ok _ ↦
            let (restored, is_done) = restore backend.can_restore journal files in
            let after : World D = record w { files = restored } in
            elim is_done [
              | false ↦ (after, raise (SyncError.unexpected Fault.os_error))
              | true ↦ report_failure clock source failure scanned written skipped error after
            ]
      ]

  unfoldable pub persistence_failed :
      Clock
      → SyncRunSource
      → TorBoxStrmSyncResult
      → LibraryMutationJournal
      → Files
      → World D
      → World D × Result SyncError SyncRunSummary
  unfolding undo
  persistence_failed clock source result journal files w =
      undo clock source
        (failure_of "persistence" "Database persistence failed; generated files were restored.")
        result.scanned_files result.written_files result.skipped_files
        (SyncError.execution "Sync persistence failed; generated files were restored.") journal
        files w

  unfoldable pub generation_failed :
      Clock
      → SyncRunSource
      → Fault
      → LibraryMutationJournal
      → Files
      → World D
      → World D × Result SyncError SyncRunSummary
  unfolding undo safe_failure_message
  generation_failed clock source fault journal files w =
      undo clock source (failure_of "torbox_sync" (safe_failure_message fault)) 0 0 0
        (SyncError.execution "TorBox sync failed.") journal files w

  -- After the commit: `_finish_sync` and the summary.
  unfoldable pub sync_finished :
      Clock
      → SyncRunSource
      → SettingsSnapshot
      → FilePath
      → TorBoxStrmSyncResult
      → D
      → Files
      → World D
      → World D × Result SyncError SyncRunSummary
  unfolding record_success
  sync_finished clock source snapshot root result d files w =
      let (tables, sync_run_id) =
        record_success clock.now clock.created_at source result w.tables in
      (
        record w { database = d; tables = tables; files = files },
        elim backend.finished [
          | raise fault ↦ raise (SyncError.unexpected fault)
          | ok _ ↦ ok (record {
            sync_run_id = sync_run_id;
            playback_mode = snapshot.playback_mode;
            library_root = root;
            scanned_files = result.scanned_files;
            written_files = result.written_files;
            skipped_files = result.skipped_files;
          })
        ],
      )

  -- The second `try` statement.
  unfoldable pub persist_sync :
      Clock
      → SyncRunSource
      → SettingsSnapshot
      → FilePath
      → GeneratedSync
      → LibraryMutationJournal
      → Files
      → World D
      → World D × Result SyncError SyncRunSummary
  unfolding persist remove_stale persistence_failed sync_finished
  persist_sync clock source snapshot root g journal files w = elim (persist g root w.database) [
    | raise _ ↦ persistence_failed clock source g.result journal files w
    | ok (d, stale_paths) ↦
        let (tracked, removed, is_committed) =
          remove_stale root g.result stale_paths d journal files in
        elim is_committed [
          | true ↦ sync_finished clock source snapshot root g.result d removed w
          | false ↦ persistence_failed clock source g.result tracked removed w
        ]
  ]

  module _ (generate : FilePath → Option ResolverUrlConfig → D → Files → Generation D) where
    -- `_execute_sync` once the configuration is read.
    unfoldable pub generate_and_persist :
        Clock
        → SyncRunSource
        → SettingsSnapshot
        → FilePath
        → Option ResolverUrlConfig
        → World D
        → World D × Result SyncError SyncRunSummary
    unfolding generation_failed persist_sync
    generate_and_persist clock source snapshot root resolver w =
        let g = generate root resolver w.database w.files in
        let after : World D = record w { database = g.database } in
        elim g.outcome [
          | raise fault ↦ generation_failed clock source fault g.journal g.files after
          | ok generated ↦ persist_sync clock source snapshot root generated g.journal g.files after
        ]

    unfoldable pub execute_sync :
        Clock
        → SyncRunSource
        → SettingsSnapshot
        → World D
        → World D × Result SyncError SyncRunSummary
    unfolding configure report_failure generate_and_persist
    execute_sync clock source snapshot w = elim backend.settings_read [
      | raise fault ↦ (w, raise (SyncError.unexpected fault))
      | ok _ ↦ elim (configure snapshot) [
        | raise message ↦
            report_failure clock source (failure_of "configuration" message) 0 0 0
              (SyncError.configuration message) w
        | ok (root, resolver) ↦ elim backend.context [
          | raise fault ↦ (w, raise (SyncError.unexpected fault))
          | ok _ ↦ generate_and_persist clock source snapshot root resolver w
        ]
      ]
    ]

    -- `coordination.release()` in the `finally` clause; an exception of it replaces the outcome.
    unfoldable pub release :
        World D × Result SyncError SyncRunSummary → World D × Result SyncError SyncRunSummary
    release (after, outcome) = elim backend.released [
      | raise fault ↦ (after, raise (SyncError.unexpected fault))
      | ok _ ↦ (record after { locked = false }, outcome)
    ]

    -- The lock is taken if it is free, and released however the sync ends.
    unfoldable pub run_torbox_account_sync :
        Clock
        → SyncRunSource
        → SettingsSnapshot
        → World D
        → World D × Result SyncError SyncRunSummary
    unfolding execute_sync release
    run_torbox_account_sync clock source snapshot w = elim backend.lock_asked [
      | raise fault ↦ (w, raise (SyncError.unexpected fault))
      | ok _ ↦
          if w.locked
          then (w, raise SyncError.already_running)
          else release (execute_sync clock source snapshot (record w { locked = true }))
    ]
