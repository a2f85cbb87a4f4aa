-- ===== src/Tests/Synced.antt =====
-- Syncs over a library of one file, and the runs that are recorded.
use strmline.Prelude.{
  ℕ, ◌≤◌, ◌≡◌, ◌≢◌, refl, true, false, [], ◌∷◌, Option, none, some, length, In, ok, raise,
  Result-cases, inl, inr, arith,
}
use strmline.Prelude.Dict.{insert, lookup}
use strmline.Prelude.Text.{Unicode}
use strmline.Library.Journal.{FilePath, path_eq, Files, create, track}
use strmline.Library.Journal.Rollback.{Sync}
use strmline.Library.Journal.Tracking.{track-is_tracked}
use strmline.Sync.TorboxStrm.{SyncDiagnostic, TorBoxStrmSyncResult}
use strmline.Sync.Runs.{
  SyncRunSource, SyncErrorRecord, Tables, new_tables, record_success, record_failure,
  record_season_completion, status, dismiss_error,
}
use strmline.Sync.Runs.Shown.{Later, History, Shows, status-Shows}
use strmline.Sync.Runs.Dismissed.{dismissed-never_shown}
use strmline.Sync.Service.{
  ResolverUrlConfig, SettingsSnapshot, Fault, Generation, Clock, Backend, World,
}
use strmline.Sync.Service.Execution.{run_torbox_account_sync}
use strmline.Sync.Service.Ending.{Ended, run_sync-Ended}

abbrev result : TorBoxStrmSyncResult
result = record {
  scanned_files = 1;
  written_files = 1;
  skipped_files = 0;
  written_paths = [];
  synced_files = [];
  manifest_path = none;
  partial = false;
  diagnostics = [];
  observed_excluded_prefixes = [];
  reused_files = 0;
}

abbrev trouble : SyncDiagnostic
trouble = record { phase = "torbox_sync"; item_ref = none; message = "gone" }

abbrev failed_once : Tables
failed_once = (record_failure 3 (λ id. 3) SyncRunSource.auto trouble 0 0 0 new_tables).0

failed_once-History : History 3 failed_once
failed_once-History =
    Later.failed 3 (λ id. 3) SyncRunSource.auto trouble 0 0 0 (omega arith) Later.unchanged

status-Shows_example :
    Shows SyncRunSource.manual
      (record_success 5 (λ id. 5) SyncRunSource.manual result failed_once).1
      (status 5 failed_once)
      (status 5 (record_success 5 (λ id. 5) SyncRunSource.manual result failed_once).0)
    × Shows SyncRunSource.manual
        (record_failure 5 (λ id. 5) SyncRunSource.manual trouble 1 0 0 failed_once).1
        (status 5 failed_once)
        (status 5 (record_failure 5 (λ id. 5) SyncRunSource.manual trouble 1 0 0 failed_once).0)
    × Shows SyncRunSource.season_auto_complete
        (record_season_completion 5 (λ id. 5) 2 1 1 [] failed_once).1
        (status 5 failed_once)
        (status 5 (record_season_completion 5 (λ id. 5) 2 1 1 [] failed_once).0)
status-Shows_example =
    status-Shows failed_once-History 5 (λ id. 5) (omega arith) 5 SyncRunSource.manual result trouble
      1 0 0 2 1 1 []

dismissed-never_shown_example :
    ((x : SyncErrorRecord)
      → In x (status 5 (dismiss_error 4 1 failed_once).0).recent_errors
      → x.id ≢ 1)
    × (length (status 5 (dismiss_error 4 1 failed_once).0).recent_errors ≤ 5)
unfolding dismiss_error record_failure
dismissed-never_shown_example = dismissed-never_shown failed_once-History 4 1 refl Later.unchanged 5

abbrev ascii : Unicode
ascii = record { casefold = λ s. s; digit_value = λ c. none }

abbrev root : FilePath
root = "library" ∷ []

abbrev film : FilePath
film = "library" ∷ "film.strm" ∷ []

abbrev before : Files
before = (film, "old") ∷ []

-- The generation overwrites the film, if it lies in the library, and raises.
generate : FilePath → Option ResolverUrlConfig → ℕ → Files → Generation ℕ
unfolding track insert
generate at resolver d files = elim (track (λ path. true) files film (create at)) [
  | raise e ↦ record {
    journal = create at;
    files = files;
    database = d;
    outcome = raise (Fault.value_error "outside");
  }
  | ok k ↦ record {
    journal = k;
    files = insert film "new" files;
    database = d;
    outcome = raise (Fault.torbox_api_error "gone");
  }
]

generate-Sync :
    (at : FilePath) (resolver : Option ResolverUrlConfig)
    → Sync at before (generate at resolver 0 before).journal (generate at resolver 0 before).files
unfolding generate
generate-Sync at resolver = elim (Result-cases (track (λ path. true) before film (create at))) [
  | inl (e, p) ↦ rw (generate, p) Sync.begun
  | inr (k, p) ↦
      rw (generate, p)
        (Sync.written film "new"
          (track-is_tracked (λ path. true) before film film (create at) k p).0
          (Sync.tracked (λ path. true) film p Sync.begun))
]

abbrev backend : Backend ℕ
backend = record {
  delete_identities = λ identities d. ok d;
  persist_result = λ r at hashes d. ok (d, []);
  clear_unobserved = λ prefixes d. ok d;
  commit = λ d. true;
  lock_asked = ok tt;
  settings_read = ok tt;
  context = ok tt;
  success_flushed = ok tt;
  can_read = λ path. true;
  can_unlink = λ path. true;
  rolled_back = ok tt;
  can_restore = λ path. true;
  failure_recorded = ok tt;
  finished = ok tt;
  released = ok tt;
}

abbrev world : World ℕ
world = record { locked = false; database = 0; tables = new_tables; files = before }

abbrev settings : SettingsSnapshot
settings = record {
  library_root = some root;
  playback_mode = "direct";
  base_url = none;
  api_key = some "key";
  resolver_token = none;
}

abbrev clock : Clock
clock = record { now = 7; created_at = λ id. 7 }

run_sync-Ended_example :
    Ended ascii backend generate clock SyncRunSource.manual settings world
      (run_torbox_account_sync ascii backend generate clock SyncRunSource.manual settings world)
    × ((run_torbox_account_sync ascii backend generate clock SyncRunSource.manual settings
          world).0.locked
        ≡ false)
run_sync-Ended_example =
    run_sync-Ended ascii backend generate clock SyncRunSource.manual settings world refl refl
      generate-Sync

restored :
    lookup film
      (run_torbox_account_sync ascii backend generate clock SyncRunSource.manual settings
        world).0.files
    ≡ some "old"
unfolding run_torbox_account_sync generate lookup
restored = refl

-- A file system that lets no file be put back.
abbrev read_only : Backend ℕ
read_only = record backend { can_restore = λ path. false }

nothing_recorded :
    (run_torbox_account_sync ascii read_only generate clock SyncRunSource.manual settings
      world).0.tables
    ≡ new_tables
unfolding run_torbox_account_sync generate lookup
nothing_recorded = refl
