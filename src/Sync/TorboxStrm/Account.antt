-- ===== src/Sync/TorboxStrm/Account.antt =====
-- api/app/sync/torbox_strm.py: `TorBoxStrmSync.run` over all listings of an account, up to its
-- result, as what a sync of api/app/sync/service.py generates. The manifest is that of
-- api/app/resolver/manifest.py; `manifest_json` stands for `json.dumps`.
pub mod Restored
use strmline.Prelude.{
  ℕ, suc, ◌+◌, ◌≡◌, refl, sym, ap, subst, ◌∙◌, inl, inr, String, Bool, true, false, not, ◌&&◌, ◌||◌,
  List, [], ◌∷◌, ◌++◌, Option, none, some, if◌then◌else◌, ◌==◌, string_eq, string_lt, length,
  contains, sort_by, Result, ok, raise, Result-cases, Bool-cases, Option-cases, arith,
}
use strmline.Prelude.Dict.{Dict, lookup, insert}
use strmline.Prelude.Text.{Unicode, universal_newlines}
use strmline.Prelude.Json.{Fields}
use strmline.Library.Journal.{
  FilePath, path_eq, Files, LibraryMutationJournal, create, track, ensure_within_root,
}
use strmline.Library.Journal.Rollback.{Sync}
use strmline.Library.Journal.Tracking.{track-is_tracked}
use strmline.Torbox.Files.{DownloadKind, TorBoxFile}
use strmline.Torbox.Files.Extract.{extract_torbox_files}
use strmline.Sync.Runs.{SyncRunSource}
use strmline.Sync.Service.{
  ResolverUrlConfig, SettingsSnapshot, Fault, GeneratedSync, Generation, SyncError, SyncRunSummary,
  Clock, Backend, World,
}
use strmline.Sync.Service.Execution.{run_torbox_account_sync}
use strmline.Sync.Service.Ending.{Ended, run_sync-Ended}
use strmline.Sync.TorboxStrm.{SyncDiagnostic, SyncedStrmFile, TorBoxStrmSyncResult}
use strmline.Sync.TorboxStrm.Sources.{SourceFileKey, key_eq, torrent_hashes}
use strmline.Sync.TorboxStrm.Claims.{Claims}
use strmline.Sync.TorboxStrm.Reuse.{holds}
use strmline.Sync.TorboxStrm.Run.{Pipeline, Progress, Outcome, outside, track_fault}
use strmline.Sync.TorboxStrm.Run.Loop.{add_files}
use strmline.Sync.TorboxStrm.Run.Tracked.{add_files-Dealt}

-- `item_ref or ""`
abbrev pub ref_text : SyncDiagnostic → String
ref_text d = elim d.item_ref [ none ↦ "" | some t ↦ t ]

-- The order of the diagnostics: by phase, by reference, by message.
abbrev pub diagnostic_lt : SyncDiagnostic → SyncDiagnostic → Bool
diagnostic_lt a b =
    string_lt a.phase b.phase
    || (a.phase == b.phase
        && (string_lt (ref_text a) (ref_text b)
            || (ref_text a == ref_text b && string_lt a.message b.message)))

-- `set(written_paths)`
unfoldable pub distinct : List FilePath → List FilePath
distinct [] = []
distinct (path ∷ paths) =
    let rest = distinct paths in if contains rest path then rest else path ∷ rest

-- The entries of the manifest by identifier: a later target replaces an earlier one.
unfoldable pub manifest_of : List (String × String) → Dict String String → Dict String String
unfolding insert
manifest_of [] entries = entries
manifest_of ((entry_id, target_url) ∷ rest) entries =
    manifest_of rest (insert entry_id target_url entries)

abbrev pub manifest_path : FilePath → FilePath
manifest_path root = root ++ (".strmline" ∷ "resolver_manifest.json" ∷ [])

abbrev pub is_given : {A : Type 0} → Option A → Bool
is_given none = false
is_given (some _) = true

abbrev pub is_nil : {A : Type 0} → List A → Bool
is_nil [] = true
is_nil (_ ∷ _) = false

module _ (manifest_json : Dict String String → String) (c : Pipeline) where
  -- `write_manifest_entries` with `replace_existing`: a manifest that holds the content already is
  -- left alone.
  unfoldable pub write_manifest : Progress → Outcome
  unfolding manifest_of track lookup insert universal_newlines
  write_manifest p =
      let content = manifest_json (manifest_of p.manifest_entries []) in
      let path = manifest_path c.library_root in
      if holds (lookup path p.files) content
      then (p, ok tt)
      else elim (track c.can_read p.files path p.journal) [
        | raise e ↦ (p, raise (track_fault e))
        | ok journal ↦
            if c.can_write path
            then (record p { journal = journal; files = insert path content p.files }, ok tt)
            else (record p { journal = journal }, raise Fault.os_error)
      ]

  -- The manifest is written by a sync with a resolver.
  unfoldable pub finish_manifest : Progress → Outcome
  unfolding write_manifest
  finish_manifest p =
      if not (is_nil p.manifest_entries) || is_given c.resolver
      then write_manifest p
      else (p, ok tt)

  -- `_result`
  unfoldable pub result_of : Progress → TorBoxStrmSyncResult
  unfolding distinct
  result_of p = record {
    scanned_files = p.scanned_files;
    written_files = length (distinct p.written_paths);
    skipped_files = p.skipped_files;
    written_paths = p.written_paths;
    synced_files = p.synced_files;
    manifest_path =
        if not (is_nil p.manifest_entries) || is_given c.resolver
        then some (manifest_path c.library_root)
        else none;
    partial = false;
    diagnostics = sort_by diagnostic_lt p.diagnostics;
    observed_excluded_prefixes = p.observed_prefixes;
    reused_files = p.reused_files;
  }

  -- The files of a listing, whose skipped entries are counted first.
  unfoldable pub add_listing : DownloadKind → List Fields → Progress → Outcome
  unfolding extract_torbox_files torrent_hashes add_files
  add_listing kind downloads p =
      let extracted = extract_torbox_files c.unicode downloads kind in
      add_files c
        (elim kind [ DownloadKind.torrents ↦ torrent_hashes c.unicode downloads | _ ↦ [] ])
        extracted.files (record p { skipped_files = p.skipped_files + extracted.skipped_count })

  -- The loop over the kinds of downloads, with what the client answers for each, and the manifest.
  unfoldable pub add_listings :
      List (DownloadKind × Result Fault (List Fields)) → Progress → Outcome
  unfolding add_listing finish_manifest
  add_listings [] p = finish_manifest p
  add_listings ((kind, listed) ∷ rest) p = elim listed [
    | raise fault ↦ (p, raise fault)
    | ok downloads ↦
        let added = add_listing kind downloads p in
        elim added.1 [ raise fault ↦ (added.0, raise fault) | ok _ ↦ add_listings rest added.0 ]
  ]

-- The claims of `__init__`: each path that was written before belongs to its source.
unfoldable pub initial_claims :
    FilePath → Dict SourceFileKey SyncedStrmFile → Claims → Result Fault Claims
unfolding ensure_within_root insert
initial_claims root [] claimed = ok claimed
initial_claims root ((key, f) ∷ reusable) claimed = elim (ensure_within_root root f.path) [
  | raise _ ↦ raise outside
  | ok path ↦ initial_claims root reusable (insert path key claimed)
]

abbrev pub begin_run : FilePath → Files → Claims → Progress
begin_run root files claimed = record {
  files = files;
  journal = create root;
  claimed = claimed;
  written_paths = [];
  synced_files = [];
  manifest_entries = [];
  diagnostics = [];
  observed_prefixes = [];
  scanned_files = 0;
  skipped_files = 0;
  reused_files = 0;
}

-- `_generate_sync_files` of api/app/sync/service.py: what it reads from the other tables makes the
-- pipeline, what the client lists is given, and `prepared` is what it commits before the run.
module _ {D : Type 0} (manifest_json : Dict String String → String) (prepared : D → D)
    (pipeline : FilePath → Option ResolverUrlConfig → D → Pipeline)
    (listings : List (DownloadKind × Result Fault (List Fields)))
    (selected_hashes : List String) where
  abbrev pub generated_from : Pipeline → Outcome → D → Generation D
  generated_from c o d = record {
    journal = o.0.journal;
    files = o.0.files;
    database = d;
    outcome = elim o.1 [
      | raise fault ↦ raise fault
      | ok _ ↦
          ok (record { result = result_of manifest_json c o.0; selected_hashes = selected_hashes })
    ];
  }

  unfoldable pub generate_sync_files :
      FilePath → Option ResolverUrlConfig → D → Files → Generation D
  unfolding initial_claims add_listings result_of
  generate_sync_files root resolver d files =
      let c = pipeline root resolver (prepared d) in
      elim (initial_claims c.library_root c.reusable_files []) [
        | raise fault ↦ generated_from c (begin_run root files [], raise fault) (prepared d)
        | ok claimed ↦
            generated_from c (add_listings manifest_json c listings (begin_run root files claimed))
              (prepared d)
      ]
