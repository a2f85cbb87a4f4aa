-- ===== src/Sync/Runs/Shown.antt =====
-- What `status` shows after any operations on the tables.
use mathlib.Core.List.{append-nil}
use strmline.Prelude.{
  ℕ, ◌≤◌, ◌<◌, ◌≡◌, refl, sym, ap, subst, ◌∙◌, ◌⊎◌, inl, inr, String, Bool, true, false, List, [],
  ◌∷◌, ◌++◌, Option, none, some, keep, keep-append, In, In-keep, sort_by, sort_by-snoc, arith,
}
use strmline.Sync.TorboxStrm.{SyncDiagnostic, TorBoxStrmSyncResult}
use strmline.Sync.Runs.{
  SyncRunSource, SyncRunRecord, Tables, new_tables, add_run, add_error, add_errors, run_status,
  season_diagnostics, record_run, record_success, record_failure, record_season_completion,
  newer_run, first, is_sync, is_auto, SyncStatusSnapshot, status, dismiss_error,
}

-- Operations on the tables, with the last reading of the clock, which never goes back.
pub data Later (before : ℕ) (t : Tables) : ℕ → Tables → Type 0 where
  unchanged : Later before t before t
  succeeded :
      {top : ℕ} {s : Tables} (now : ℕ) (created_at : ℕ → ℕ) (source : SyncRunSource)
      → (result : TorBoxStrmSyncResult) → top ≤ now
      → Later before t top s
      → Later before t now (record_success now created_at source result s).0
  failed :
      {top : ℕ} {s : Tables} (now : ℕ) (created_at : ℕ → ℕ) (source : SyncRunSource)
      → (failure : SyncDiagnostic) (scanned written skipped : ℕ) → top ≤ now
      → Later before t top s
      → Later before t now
          (record_failure now created_at source failure scanned written skipped s).0
  completed :
      {top : ℕ} {s : Tables} (now : ℕ) (created_at : ℕ → ℕ) (checked missing added : ℕ)
      → (ds : List (Option String × String)) → top ≤ now
      → Later before t top s
      → Later before t now (record_season_completion now created_at checked missing added ds s).0
  hidden :
      {top : ℕ} {s : Tables} (now error_id : ℕ)
      → top ≤ now
      → Later before t top s
      → Later before t now (dismiss_error now error_id s).0

-- Every run has an identifier that was given out, and a time that has passed.
RunsKnown : ℕ → Tables → Type 0
RunsKnown top t = (r : SyncRunRecord) → In r t.runs → (r.id < t.next_run_id) × (r.started_at ≤ top)

runs-add_errors :
    (created_at : ℕ → ℕ) (run_id : ℕ) (ds : List SyncDiagnostic) (t : Tables)
    → ((add_errors created_at run_id ds t).runs ≡ t.runs)
      × ((add_errors created_at run_id ds t).next_run_id ≡ t.next_run_id)
unfolding add_errors add_error
runs-add_errors created_at run_id [] t = (refl, refl)
runs-add_errors created_at run_id (d ∷ ds) t = runs-add_errors created_at run_id ds _

pub In-snoc : {A : Type 0} (x y : A) (xs : List A) → In x (xs ++ (y ∷ [])) → In x xs ⊎ (x ≡ y)
In-snoc x y [] (inl e) = inr e
In-snoc x y [] (inr m) = absurd m
In-snoc x y (z ∷ xs) (inl e) = inl (inl e)
In-snoc x y (z ∷ xs) (inr m) = elim (In-snoc x y xs m) [ inl n ↦ inl (inr n) | inr e ↦ inr e ]

add_run-RunsKnown :
    (top now : ℕ) (state : String) (source : SyncRunSource) (a b c : ℕ) (t : Tables)
    → top ≤ now
    → RunsKnown top t
    → RunsKnown now (add_run now state source a b c t)
unfolding add_run RunsKnown
add_run-RunsKnown top now state source a b c t h k r m = elim (In-snoc r _ t.runs m) [
  | inl n ↦ let (i, j) = k r n in (omega (arith, i), omega (arith, j, h))
  | inr e ↦ rw e (omega arith, omega arith)
]

record_run-RunsKnown :
    (top now : ℕ) (created_at : ℕ → ℕ) (state : String) (source : SyncRunSource) (a b c : ℕ)
    → (ds : List SyncDiagnostic) (t : Tables) → top ≤ now
    → RunsKnown top t
    → RunsKnown now (record_run now created_at state source a b c ds t).0
unfolding record_run RunsKnown
record_run-RunsKnown top now created_at state source a b c ds t h k r m =
    let added = add_run now state source a b c t in
    let (same, next) = runs-add_errors created_at t.next_run_id ds added in
    let (i, j) =
      add_run-RunsKnown top now state source a b c t h k r (subst (λ rs. In r rs) same m) in
    (subst (λ n. r.id < n) (sym next) i, j)

later-RunsKnown :
    {before : ℕ} {t : Tables} {top : ℕ} {s : Tables}
    → RunsKnown before t
    → Later before t top s
    → RunsKnown top s
unfolding record_success record_failure record_season_completion dismiss_error RunsKnown
later-RunsKnown k unchanged = k
later-RunsKnown k (succeeded {top} {s} now created_at source result h l) =
    record_run-RunsKnown top now created_at (run_status result.partial result.diagnostics) source
      result.scanned_files result.written_files result.skipped_files result.diagnostics s h
      (later-RunsKnown k l)
later-RunsKnown k (failed {top} {s} now created_at source failure scanned written skipped h l) =
    record_run-RunsKnown top now created_at "failed" source scanned written skipped (failure ∷ []) s
      h (later-RunsKnown k l)
later-RunsKnown k (completed {top} {s} now created_at checked missing added ds h l) =
    record_run-RunsKnown top now created_at (run_status false (season_diagnostics ds))
      SyncRunSource.season_auto_complete checked added missing (season_diagnostics ds) s h
      (later-RunsKnown k l)
later-RunsKnown k (hidden now error_id h l) =
    λ r m. let (i, j) = later-RunsKnown k l r m in (i, omega (arith, j, h))

-- The tables after any operations on empty ones.
abbrev pub History : ℕ → Tables → Type 0
History = Later 0 new_tables

history-RunsKnown : {top : ℕ} {t : Tables} → History top t → RunsKnown top t
unfolding RunsKnown
history-RunsKnown h = later-RunsKnown (λ r m. absurd m) h

-- The identifiers of the runs that `status` shows.
unfoldable pub shown_run_id : Option SyncRunRecord → Option ℕ
shown_run_id none = none
shown_run_id (some r) = some r.id

-- What a run changes of what is shown.
abbrev pub Shows : SyncRunSource → ℕ → SyncStatusSnapshot → SyncStatusSnapshot → Type 0
Shows SyncRunSource.manual id before after =
    (shown_run_id after.last_run ≡ some id) × (after.last_auto_run ≡ before.last_auto_run)
Shows SyncRunSource.auto id before after =
    (shown_run_id after.last_run ≡ some id) × (shown_run_id after.last_auto_run ≡ some id)
Shows SyncRunSource.season_auto_complete id before after =
    (after.last_run ≡ before.last_run) × (after.last_auto_run ≡ before.last_auto_run)

module _ {top : ℕ} {t : Tables} (history : History top t) (now : ℕ) (created_at : ℕ → ℕ)
    (later : top ≤ now) where
  newer_run-known :
      (r x : SyncRunRecord)
      → In r t.runs
      → x.id ≡ t.next_run_id
      → x.started_at ≡ now
      → newer_run x r ≡ true
  unfolding RunsKnown
  newer_run-known r x m i at = ground (arith, history-RunsKnown history r m, i, at, later)

  -- Among the runs of some sources, the one that is recorded now comes first.
  newest-first :
      (p : SyncRunRecord → Bool) (x : SyncRunRecord)
      → p x ≡ true
      → x.id ≡ t.next_run_id
      → x.started_at ≡ now
      → first (sort_by newer_run (keep p (t.runs ++ (x ∷ [])))) ≡ some x
  newest-first p x e i at =
      ap (λ rs. first (sort_by newer_run rs)) (keep-append p t.runs (x ∷ []))
      ∙ rw e (
          ap first (
            sort_by-snoc newer_run x (keep p t.runs)
              (λ r m. newer_run-known r x (In-keep p r t.runs m).0 i at)))

  not_counted :
      (p : SyncRunRecord → Bool) (x : SyncRunRecord)
      → p x ≡ false
      → first (sort_by newer_run (keep p (t.runs ++ (x ∷ []))))
        ≡ first (sort_by newer_run (keep p t.runs))
  not_counted p x e =
      ap (λ rs. first (sort_by newer_run rs)) {y = keep p t.runs}
        (keep-append p t.runs (x ∷ []) ∙ rw e (append-nil (keep p t.runs)))

  recorded-Shows :
      (limit : ℕ) (state : String) (source : SyncRunSource) (a b c : ℕ) (ds : List SyncDiagnostic)
      → Shows source t.next_run_id
          (status limit t)
          (status limit (record_run now created_at state source a b c ds t).0)
  unfolding status record_run add_run shown_run_id
  recorded-Shows limit state SyncRunSource.manual a b c ds =
      let (same, _) =
        runs-add_errors created_at t.next_run_id ds
          (add_run now state SyncRunSource.manual a b c t) in
      (
        rw same (ap shown_run_id (newest-first is_sync _ refl refl refl)),
        rw same (not_counted is_auto _ refl),
      )
  recorded-Shows limit state SyncRunSource.auto a b c ds =
      let (same, _) =
        runs-add_errors created_at t.next_run_id ds
          (add_run now state SyncRunSource.auto a b c t) in
      (
        rw same (ap shown_run_id (newest-first is_sync _ refl refl refl)),
        rw same (ap shown_run_id (newest-first is_auto _ refl refl refl)),
      )
  recorded-Shows limit state SyncRunSource.season_auto_complete a b c ds =
      let (same, _) =
        runs-add_errors created_at t.next_run_id ds
          (add_run now state SyncRunSource.season_auto_complete a b c t) in
      (rw same (not_counted is_sync _ refl), rw same (not_counted is_auto _ refl))

  -- If the clock never reads earlier than at the operations before, the status that is read right
  -- after a run has succeeded or failed shows it under the identifier that it is given: a manual
  -- sync as the last run, an automatic one as the last run and the last automatic run. A season
  -- completion changes neither, and a manual sync not the last automatic run.
  pub status-Shows :
      (limit : ℕ) (source : SyncRunSource) (result : TorBoxStrmSyncResult)
      (failure : SyncDiagnostic)
      → (a b c checked missing added : ℕ) (ds : List (Option String × String))
      → Shows source
          (record_success now created_at source result t).1
          (status limit t)
          (status limit (record_success now created_at source result t).0)
        × Shows source
            (record_failure now created_at source failure a b c t).1
            (status limit t)
            (status limit (record_failure now created_at source failure a b c t).0)
        × Shows SyncRunSource.season_auto_complete
            (record_season_completion now created_at checked missing added ds t).1
            (status limit t)
            (status limit (record_season_completion now created_at checked missing added ds t).0)
  unfolding record_success record_failure record_season_completion record_run
  status-Shows limit source result failure a b c checked missing added ds = (
    recorded-Shows limit (run_status result.partial result.diagnostics) source result.scanned_files
        result.written_files result.skipped_files result.diagnostics,
    recorded-Shows limit "failed" source a b c (failure ∷ []),
    recorded-Shows limit (run_status false (season_diagnostics ds))
        SyncRunSource.season_auto_complete checked added missing (season_diagnostics ds),
  )
