-- ===== src/Sync/TorboxStrm/Account/Restored.antt =====
-- api/app/sync/service.py with api/app/sync/torbox_strm.py: how a sync of an account can end.
use strmline.Prelude.{
  ◌≡◌, inl, inr, String, false, not, ◌||◌, List, [], ◌∷◌, Option, string_eq, Result, ok, raise,
  Result-cases, Bool-cases,
}
use strmline.Prelude.Dict.{Dict, lookup}
use strmline.Prelude.Text.{Unicode}
use strmline.Prelude.Json.{Fields}
use strmline.Library.Journal.{FilePath, path_eq, Files, track}
use strmline.Library.Journal.Rollback.{Sync}
use strmline.Library.Journal.Tracking.{track-is_tracked}
use strmline.Torbox.Files.{DownloadKind}
use strmline.Sync.Runs.{SyncRunSource}
use strmline.Sync.Service.{ResolverUrlConfig, SettingsSnapshot, Fault, Clock, Backend, World}
use strmline.Sync.Service.Execution.{run_torbox_account_sync}
use strmline.Sync.Service.Ending.{Ended, run_sync-Ended}
use strmline.Sync.TorboxStrm.Sources.{key_eq}
use strmline.Sync.TorboxStrm.Reuse.{holds}
use strmline.Sync.TorboxStrm.Run.{Pipeline, Progress, Outcome}
use strmline.Sync.TorboxStrm.Run.Tracked.{add_files-Dealt}
use strmline.Sync.TorboxStrm.Account.{
  write_manifest, finish_manifest, add_listing, add_listings, initial_claims, begin_run,
  manifest_of, manifest_path, generate_sync_files, is_nil, is_given,
}

module _ (root : FilePath) (before : Files) (manifest_json : Dict String String → String)
    (c : Pipeline) where
  -- A step of a run changes files only as the journal has tracked them.
  abbrev Tracks : Progress → Outcome → Type 0
  Tracks p o = Sync root before p.journal p.files → Sync root before o.0.journal o.0.files

  write_manifest-Tracks : (p : Progress) → Tracks p (write_manifest manifest_json c p)
  unfolding write_manifest
  write_manifest-Tracks p s =
      let path = manifest_path c.library_root in
      let content = manifest_json (manifest_of p.manifest_entries []) in
      elim (Bool-cases (holds (lookup path p.files) content)) [
        | inl e ↦ rw (write_manifest, e) s
        | inr e ↦ elim (Result-cases (track c.can_read p.files path p.journal)) [
          | inl (f, q) ↦ rw (write_manifest, e, q) s
          | inr (k, q) ↦ elim (Bool-cases (c.can_write path)) [
            | inl w ↦
                rw (write_manifest, e, q, w)
                  (Sync.written path content
                    (track-is_tracked c.can_read p.files path path p.journal k q).0
                    (Sync.tracked c.can_read path q s))
            | inr w ↦ rw (write_manifest, e, q, w) (Sync.tracked c.can_read path q s)
          ]
        ]
      ]

  finish_manifest-Tracks : (p : Progress) → Tracks p (finish_manifest manifest_json c p)
  unfolding finish_manifest
  finish_manifest-Tracks p s =
      elim (Bool-cases (not (is_nil p.manifest_entries) || is_given c.resolver)) [
        | inl e ↦ rw (finish_manifest, e) (write_manifest-Tracks p s)
        | inr e ↦ rw (finish_manifest, e) s
      ]

  add_listing-Tracks :
      (kind : DownloadKind) (downloads : List Fields) (p : Progress)
      → Tracks p (add_listing manifest_json c kind downloads p)
  unfolding add_listing
  add_listing-Tracks kind downloads p = (add_files-Dealt root before c _ _ _).0

  add_listings-Tracks :
      (listings : List (DownloadKind × Result Fault (List Fields))) (p : Progress)
      → Tracks p (add_listings manifest_json c listings p)
  unfolding add_listings
  add_listings-Tracks [] p s = finish_manifest-Tracks p s
  add_listings-Tracks ((kind, raise fault) ∷ rest) p s = s
  add_listings-Tracks ((kind, ok downloads) ∷ rest) p s =
      elim (Result-cases (add_listing manifest_json c kind downloads p).1) [
        | inl (fault, q) ↦ rw (add_listings, q) (add_listing-Tracks kind downloads p s)
        | inr (t, q) ↦
            rw (add_listings, q)
              (add_listings-Tracks rest (add_listing manifest_json c kind downloads p).0
                (add_listing-Tracks kind downloads p s))
      ]

module _ {D : Type 0} (manifest_json : Dict String String → String) (prepared : D → D)
    (pipeline : FilePath → Option ResolverUrlConfig → D → Pipeline)
    (listings : List (DownloadKind × Result Fault (List Fields)))
    (selected_hashes : List String) where
  generate-Sync :
      (root : FilePath) (resolver : Option ResolverUrlConfig) (d : D) (files : Files)
      → Sync root files
          (generate_sync_files manifest_json prepared pipeline listings selected_hashes root
            resolver d files).journal
          (generate_sync_files manifest_json prepared pipeline listings selected_hashes root
            resolver d files).files
  unfolding generate_sync_files
  generate-Sync root resolver d files =
      let c = pipeline root resolver (prepared d) in
      elim (Result-cases (initial_claims c.library_root c.reusable_files [])) [
        | inl (fault, q) ↦ rw (generate_sync_files, q) Sync.begun
        | inr (claimed, q) ↦
            rw (generate_sync_files, q)
              (add_listings-Tracks root files manifest_json c listings
                (begin_run root files claimed) Sync.begun)
      ]

  -- A sync of an account, when no other sync is running and the lock can be released: whatever
  -- TorBox lists, however the names, the identities and the other tables answer, and wherever the
  -- generation raises or a file cannot be read, written or removed, a sync that fails leaves at
  -- every path what was there before and records one failed run; with incomplete settings it
  -- records the failure and changes no file; and one that succeeds records one run and answers with
  -- its identifier. Otherwise a call outside of this has raised: the query for the lock, the
  -- reading of the settings or of the reusable files, and then nothing is changed or recorded; the
  -- record of the failure, and then none is recorded but each file is as before; the rollback, or
  -- the restoration of some file, and then no run is recorded; or what follows the commit of a
  -- success, which is recorded. The lock is free in the end.
  pub account_sync-Ended :
      (u : Unicode) (backend : Backend D) (clock : Clock) (source : SyncRunSource)
      → (snapshot : SettingsSnapshot) (w : World D) → w.locked ≡ false
      → backend.released ≡ ok tt
      → Ended u backend
          (generate_sync_files manifest_json prepared pipeline listings selected_hashes)
          clock
          source
          snapshot
          w
          (run_torbox_account_sync u backend
            (generate_sync_files manifest_json prepared pipeline listings selected_hashes)
            clock
            source
            snapshot
            w)
        × ((run_torbox_account_sync u backend
              (generate_sync_files manifest_json prepared pipeline listings selected_hashes)
              clock
              source
              snapshot
              w).0.locked
            ≡ false)
  account_sync-Ended u backend clock source snapshot w free released =
      run_sync-Ended u backend
        (generate_sync_files manifest_json prepared pipeline listings selected_hashes) clock source
        snapshot w free released λ root resolver. generate-Sync root resolver w.database w.files
