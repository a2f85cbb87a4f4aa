-- ===== src/Sync/Service.antt =====
-- api/app/sync/service.py: one sync of the TorBox account as a transaction over the files of the
-- library and the database. What the sync generates, and what the other tables make of its result,
-- are parameters: functions that may raise. The poster cache, which is filled after a sync has
-- succeeded, is left out but for the choice of what it checks.
pub mod Chosen
pub mod Execution
pub mod Undone
pub mod Ending
use strmline.Prelude.{
  ℕ, String, Bool, true, false, not, ◌&&◌, ◌||◌, List, [], ◌∷◌, Option, none, some, if◌then◌else◌,
  ◌==◌, string_eq, any, Result, ok, raise,
}
use strmline.Prelude.Dict.{erase}
use strmline.Prelude.Text.{Unicode, ends_with, last_of}
use strmline.Library.Journal.{
  FilePath, path_eq, Files, OutsideRoot, ensure_within_root, LibraryMutationJournal, track, restore,
}
use strmline.Sync.TorboxStrm.{SyncDiagnostic, TorBoxStrmSyncResult}
use strmline.Sync.Runs.{SyncRunSource, Tables, record_success, record_failure}
use strmline.Sync.Service.Chosen.{watchlist_identities, can_reconcile_exclusions}

pub record ResolverUrlConfig : Type 0 where
  pub base_url : String
  pub token : String

-- What the settings say of the library and the playback.
pub record SettingsSnapshot : Type 0 where
  pub library_root : Option FilePath
  pub playback_mode : String
  pub base_url : Option String
  pub api_key : Option String
  pub resolver_token : Option String

-- `_require_torbox_api_key`, whose error is a `SyncConfigurationError` with its message
unfoldable pub require_torbox_api_key : Option String → Result String String
require_torbox_api_key none = raise "TorBox API key is not configured."
require_torbox_api_key (some api_key) = ok api_key

unfoldable pub configured_root : SettingsSnapshot → Result String FilePath
configured_root snapshot = elim snapshot.library_root [
  | none ↦ raise "Library root is not configured."
  | some root ↦ ok root
]

unfoldable pub resolver_config : SettingsSnapshot → Result String (Option ResolverUrlConfig)
resolver_config snapshot =
    if snapshot.playback_mode == "direct" then ok none else elim snapshot.base_url [
      | none ↦ raise "Base URL is required for resolver playback mode."
      | some base_url ↦ elim snapshot.resolver_token [
        | none ↦ raise "Resolver token is required to generate resolver STRM files."
        | some token ↦ ok (some (record { base_url = base_url; token = token }))
      ]
    ]

-- The classes of exceptions that `_safe_failure_message` tells apart, with their messages.
pub data Fault : Type 0 where
  torbox_api_error : String → Fault
  os_error : Fault
  value_error : String → Fault
  other_error : Fault

-- `str(error) or default`
abbrev pub message_or : String → String → String
message_or message default = if message == "" then default else message

unfoldable pub safe_failure_message : Fault → String
safe_failure_message (Fault.torbox_api_error message) =
    message_or message "TorBox API request failed."
safe_failure_message Fault.os_error = "Filesystem error while writing generated STRM files."
safe_failure_message (Fault.value_error message) =
    message_or message "Sync input validation failed."
safe_failure_message Fault.other_error = "TorBox sync failed."

-- `_GeneratedSync`, as far as the persistence reads it
pub record GeneratedSync : Type 0 where
  pub result : TorBoxStrmSyncResult
  pub selected_hashes : List String

-- What the generation leaves: the journal and the files as it has changed them when it returns or
-- raises, and what it has committed to the other tables.
pub record Generation (D : Type 0) : Type 0 where
  pub journal : LibraryMutationJournal
  pub files : Files
  pub database : D
  pub outcome : Result Fault GeneratedSync

-- The exceptions of a sync: those that it makes, and any other that it lets through.
pub data SyncError : Type 0 where
  already_running : SyncError
  configuration : String → SyncError
  execution : String → SyncError
  unexpected : Fault → SyncError

pub record SyncRunSummary : Type 0 where
  pub sync_run_id : ℕ
  pub playback_mode : String
  pub library_root : FilePath
  pub scanned_files : ℕ
  pub written_files : ℕ
  pub skipped_files : ℕ

-- The readings of the clock for the row of a run and for those of its errors.
pub record Clock : Type 0 where
  pub now : ℕ
  pub created_at : ℕ → ℕ

-- What the database and the file system answer during a sync: each call may raise. `lock_asked`,
-- `settings_read` and `context` are the query for the lock, the reading of the settings, and what
-- `_execute_sync` does from there to its first `try` of a generation: a commit and
-- `_incremental_context`. `success_flushed` and `failure_recorded` are the flush of a successful run
-- and, for a failed one, its flush and commit; `finished` is `_finish_sync`. The functions on paths
-- tell where the file system lets a file be read, removed and put back, `commit` whether the last
-- commit succeeds. The others are the operations on the other tables.
pub record Backend (D : Type 0) : Type 0 where
  pub lock_asked : Result Fault (Unit {0})
  pub settings_read : Result Fault (Unit {0})
  pub context : Result Fault (Unit {0})
  pub delete_identities : List (String × ℕ) → D → Result Fault D
  pub success_flushed : Result Fault (Unit {0})
  pub persist_result :
      TorBoxStrmSyncResult → FilePath → List String → D → Result Fault (D × List FilePath)
  pub clear_unobserved : List String → D → Result Fault D
  pub can_read : FilePath → Bool
  pub can_unlink : FilePath → Bool
  pub commit : D → Bool
  pub rolled_back : Result Fault (Unit {0})
  pub can_restore : FilePath → Bool
  pub failure_recorded : Result Fault (Unit {0})
  pub finished : Result Fault (Unit {0})
  pub released : Result Fault (Unit {0})

-- What a sync changes: whether the lock is taken, the other tables, the tables of the runs, and the
-- files.
pub record World (D : Type 0) : Type 0 where
  pub locked : Bool
  pub database : D
  pub tables : Tables
  pub files : Files

-- `for stale_path in stale_paths: journal.track(stale_path)`: the journal, and whether the loop ends
-- without an exception.
unfoldable pub track_all :
    (FilePath → Bool)
    → Files
    → List FilePath
    → LibraryMutationJournal
    → LibraryMutationJournal × Bool
unfolding track
track_all can_read files [] j = (j, true)
track_all can_read files (path ∷ paths) j = elim (track can_read files path j) [
  | raise _ ↦ (j, false)
  | ok k ↦ track_all can_read files paths k
]

module _ (u : Unicode) where
  -- `path.suffix.casefold() == ".strm"`: a name that begins with its only dot has no suffix.
  abbrev pub is_strm : FilePath → Bool
  is_strm path =
      let name = u.casefold (last_of "" path) in ends_with ".strm" name && not (name == ".strm")

  module _ (can_unlink : FilePath → Bool) where
    -- `remove_stale_strm_paths` of library/stale_cleanup.py, without the removal of empty
    -- directories: the files when it returns or raises.
    unfoldable pub remove_stale_strm_paths :
        FilePath → List FilePath → Files → Files × Result Fault (Unit {0})
    unfolding ensure_within_root erase
    remove_stale_strm_paths root [] files = (files, ok tt)
    remove_stale_strm_paths root (path ∷ paths) files = elim (ensure_within_root root path) [
      | raise _ ↦ (files, raise (Fault.value_error "Target path is outside library root."))
      | ok safe_path ↦ elim (is_strm safe_path) [
        | false ↦ remove_stale_strm_paths root paths files
        | true ↦ elim (can_unlink safe_path) [
          | false ↦ (files, raise Fault.os_error)
          | true ↦ remove_stale_strm_paths root paths (erase safe_path files)
        ]
      ]
    ]

    unfoldable pub remove_stale_sync_files :
        FilePath → TorBoxStrmSyncResult → List FilePath → Files → Files × Result Fault (Unit {0})
    unfolding remove_stale_strm_paths
    remove_stale_sync_files root result stale_paths files =
        if result.partial then (files, ok tt) else remove_stale_strm_paths root stale_paths files
