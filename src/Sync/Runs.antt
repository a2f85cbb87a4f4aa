-- ===== src/Sync/Runs.antt =====
-- api/app/db/repositories/sync_runs.py: the tables `sync_runs` and `sync_errors`. The rows stand in
-- the order of their identifiers, which the database counts up. The readings of the clock are
-- arguments, in ticks: one for the times of a run, and for an error the one at which its row is
-- added.
pub mod Shown
pub mod Dismissed
use strmline.Prelude.{
  ℕ, suc, String, Bool, true, false, ◌&&◌, ◌||◌, List, [], ◌∷◌, ◌++◌, Option, none, some,
  if◌then◌else◌, ltb, nat_beq, keep, any, map, sort_by,
}
use strmline.Sync.TorboxStrm.{SyncDiagnostic, TorBoxStrmSyncResult}

pub data SyncRunSource : Type 0 where
  manual : SyncRunSource
  auto : SyncRunSource
  season_auto_complete : SyncRunSource

-- A row of `sync_runs` and the record that is made of it have the same columns.
pub record SyncRunRecord : Type 0 where
  pub id : ℕ
  pub status : String
  pub source : SyncRunSource
  pub started_at : ℕ
  pub finished_at : Option ℕ
  pub scanned_count : ℕ
  pub written_count : ℕ
  pub skipped_count : ℕ

pub record SyncErrorRecord : Type 0 where
  pub id : ℕ
  pub sync_run_id : ℕ
  pub phase : String
  pub item_ref : Option String
  pub message : String
  pub created_at : ℕ

-- A row of `sync_errors`.
pub record SyncError : Type 0 where
  pub error : SyncErrorRecord
  pub dismissed_at : Option ℕ

pub record SyncStatusSnapshot : Type 0 where
  pub last_run : Option SyncRunRecord
  pub last_auto_run : Option SyncRunRecord
  pub recent_errors : List SyncErrorRecord

-- The tables, with the identifiers that come next.
pub record Tables : Type 0 where
  pub runs : List SyncRunRecord
  pub next_run_id : ℕ
  pub errors : List SyncError
  pub next_error_id : ℕ

abbrev pub new_tables : Tables
new_tables = record { runs = []; next_run_id = 1; errors = []; next_error_id = 1 }

-- `_run`, and the flush that gives it its identifier
unfoldable pub add_run : ℕ → String → SyncRunSource → ℕ → ℕ → ℕ → Tables → Tables
add_run now status source scanned written skipped t = record t {
  runs =
      t.runs
      ++ (record {
        id = t.next_run_id;
        status = status;
        source = source;
        started_at = now;
        finished_at = some now;
        scanned_count = scanned;
        written_count = written;
        skipped_count = skipped;
      }
          ∷ []);
  next_run_id = suc t.next_run_id;
}

-- A row of `sync_errors` for a run.
unfoldable pub add_error : ℕ → ℕ → SyncDiagnostic → Tables → Tables
add_error now run_id d t = record t {
  errors =
      t.errors
      ++ (record {
        error = record {
          id = t.next_error_id;
          sync_run_id = run_id;
          phase = d.phase;
          item_ref = d.item_ref;
          message = d.message;
          created_at = now;
        };
        dismissed_at = none;
      }
          ∷ []);
  next_error_id = suc t.next_error_id;
}

-- `add_all`: `created_at` gives the reading for each identifier.
unfoldable pub add_errors : (ℕ → ℕ) → ℕ → List SyncDiagnostic → Tables → Tables
unfolding add_error
add_errors created_at run_id [] t = t
add_errors created_at run_id (d ∷ ds) t =
    add_errors created_at run_id ds (add_error (created_at t.next_error_id) run_id d t)

-- `"partial" if ... else "success"`
abbrev pub run_status : Bool → List SyncDiagnostic → String
run_status true _ = "partial"
run_status false [] = "success"
run_status false (_ ∷ _) = "partial"

-- What the three ways to record a run do: a run, its identifier, and its errors.
unfoldable pub record_run :
    ℕ → (ℕ → ℕ) → String → SyncRunSource → ℕ → ℕ → ℕ → List SyncDiagnostic → Tables → Tables × ℕ
unfolding add_run add_errors
record_run now created_at status source scanned written skipped ds t = (
  add_errors created_at t.next_run_id ds (add_run now status source scanned written skipped t),
  t.next_run_id,
)

unfoldable pub record_success :
    ℕ → (ℕ → ℕ) → SyncRunSource → TorBoxStrmSyncResult → Tables → Tables × ℕ
unfolding record_run
record_success now created_at source result t =
    record_run now created_at (run_status result.partial result.diagnostics) source
      result.scanned_files result.written_files result.skipped_files result.diagnostics t

unfoldable pub record_failure :
    ℕ → (ℕ → ℕ) → SyncRunSource → SyncDiagnostic → ℕ → ℕ → ℕ → Tables → Tables × ℕ
unfolding record_run
record_failure now created_at source failure scanned written skipped t =
    record_run now created_at "failed" source scanned written skipped (failure ∷ []) t

abbrev pub season_diagnostics : List (Option String × String) → List SyncDiagnostic
season_diagnostics [] = []
season_diagnostics ((item_ref, message) ∷ ds) =
    record { phase = "season_auto_complete"; item_ref = item_ref; message = message }
    ∷ season_diagnostics ds

unfoldable pub record_season_completion :
    ℕ → (ℕ → ℕ) → ℕ → ℕ → ℕ → List (Option String × String) → Tables → Tables × ℕ
unfolding record_run
record_season_completion now created_at checked_shows missing_episodes added_torrents ds t =
    record_run now created_at (run_status false (season_diagnostics ds))
      SyncRunSource.season_auto_complete checked_shows added_torrents missing_episodes
      (season_diagnostics ds) t

-- `order_by(time.desc(), id.desc())`
abbrev pub newer : ℕ → ℕ → ℕ → ℕ → Bool
newer time id other_time other_id =
    ltb other_time time || (nat_beq time other_time && ltb other_id id)

abbrev pub newer_run : SyncRunRecord → SyncRunRecord → Bool
newer_run a b = newer a.started_at a.id b.started_at b.id

abbrev pub newer_error : SyncErrorRecord → SyncErrorRecord → Bool
newer_error a b = newer a.created_at a.id b.created_at b.id

-- `limit(1)` and `scalar_one_or_none`
abbrev pub first {ℓ} : {A : Type ℓ} → List A → Option A
first [] = none
first (x ∷ xs) = some x

-- `limit(n)`
abbrev pub take {ℓ} : {A : Type ℓ} → ℕ → List A → List A
take ℕ.zero xs = []
take (ℕ.suc n) [] = []
take (ℕ.suc n) (x ∷ xs) = x ∷ take n xs

-- `source IN ('manual', 'auto')`
abbrev pub is_sync : SyncRunRecord → Bool
is_sync r = elim r.source [ season_auto_complete ↦ false | _ ↦ true ]

abbrev pub is_auto : SyncRunRecord → Bool
is_auto r = elim r.source [ auto ↦ true | _ ↦ false ]

-- `dismissed_at IS NULL`
abbrev pub is_open : SyncError → Bool
is_open e = elim e.dismissed_at [ none ↦ true | some _ ↦ false ]

abbrev pub open_errors : List SyncError → List SyncErrorRecord
open_errors es = map (λ e. e.error) (keep is_open es)

unfoldable pub status : ℕ → Tables → SyncStatusSnapshot
status error_limit t = record {
  last_run = first (sort_by newer_run (keep is_sync t.runs));
  last_auto_run = first (sort_by newer_run (keep is_auto t.runs));
  recent_errors = take error_limit (sort_by newer_error (open_errors t.errors));
}

abbrev pub dismissed : ℕ → SyncError → SyncError
dismissed now e = record e { dismissed_at = some (elim e.dismissed_at [ none ↦ now | some t ↦ t ]) }

-- The identifier is the primary key, so that at most one row changes.
unfoldable pub dismiss_in : ℕ → ℕ → List SyncError → List SyncError
dismiss_in now error_id [] = []
dismiss_in now error_id (e ∷ es) =
    (if nat_beq e.error.id error_id then dismissed now e else e) ∷ dismiss_in now error_id es

unfoldable pub dismiss_error : ℕ → ℕ → Tables → Tables × Bool
unfolding dismiss_in
dismiss_error now error_id t = (
  record t { errors = dismiss_in now error_id t.errors },
  any (λ e. nat_beq e.error.id error_id) t.errors,
)
