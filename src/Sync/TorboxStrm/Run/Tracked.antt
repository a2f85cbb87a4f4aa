-- ===== src/Sync/TorboxStrm/Run/Tracked.antt =====
-- What each file of a listing adds to a run.
use strmline.Prelude.{
  ℕ, suc, ◌+◌, ◌≡◌, refl, sym, subst, inl, inr, String, true, List, [], ◌∷◌, Option, none, some,
  length, length-append, ok, raise, Result-cases, Bool-cases, Option-cases, arith,
}
use Prim.Native.String.{slice}
use strmline.Prelude.Dict.{Dict, lookup}
use strmline.Domain.MediaIdentity.{ResolutionStatus}
use strmline.Library.Entries.{LibraryEntry}
use strmline.Library.Journal.{FilePath, path_eq, Files, LibraryMutationJournal, track}
use strmline.Library.Journal.Rollback.{Sync, is_tracked}
use strmline.Library.Journal.Tracking.{track-is_tracked}
use strmline.Torbox.Files.{TorBoxFile}
use strmline.Torbox.Files.Bluray.{library_name}
use strmline.Sync.Service.{Fault}
use strmline.Sync.TorboxStrm.{SyncedStrmFile}
use strmline.Sync.TorboxStrm.Sources.{
  source_file_key, key_eq, MediaIdentity, selected_media_identity,
}
use strmline.Sync.TorboxStrm.Claims.{target_path}
use strmline.Sync.TorboxStrm.Reuse.{holds, strm_content, write_strm_file, reusable_file}
use strmline.Sync.TorboxStrm.Run.{
  Pipeline, Progress, Outcome, Source, source_name, resolver_entry_id,
}
use strmline.Sync.TorboxStrm.Run.Loop.{
  exclusions_of, reuse, write_target, write_entry, add_resolved, add_by_status, add_new, add_source,
  playback_url, hash_of, add_file, add_files,
}

-- What counts as dealt with: the files that were written or reused, and those that were skipped.
abbrev pub dealt_with : Progress → ℕ
dealt_with p = length p.written_paths + p.skipped_files

written-Sync :
    {root : FilePath} {before files : Files} {j : LibraryMutationJournal} (path : FilePath)
    → (content : String) → is_tracked j path ≡ true
    → Sync root before j files
    → Sync root before j (write_strm_file path content files)
unfolding write_strm_file
written-Sync {files} path content t s = elim (Bool-cases (holds (lookup path files) content)) [
  | inl e ↦ rw (write_strm_file, e) s
  | inr e ↦ rw (write_strm_file, e) (Sync.written path content t s)
]

module _ (root : FilePath) (before : Files) (c : Pipeline) where
  -- A step of a run: the files are changed as the journal has tracked them, and unless it raises,
  -- one more file is dealt with.
  abbrev Adds : Progress → Outcome → Type 0
  Adds p o =
      (Sync root before p.journal p.files → Sync root before o.0.journal o.0.files)
      × (o.1 ≡ ok tt → dealt_with o.0 ≡ suc (dealt_with p))
      × (o.0.scanned_files ≡ p.scanned_files)

  raises-Adds : (p : Progress) (fault : Fault) → Adds p (p, raise fault)
  raises-Adds p fault = (λ s. s, λ e. absurd (ground (arith, e)), refl)

  write_target-Adds :
      (s : Source) (entry : LibraryEntry) (identity : Option MediaIdentity) (source_title : String)
      → (path : FilePath) (p : Progress)
      → Adds p (write_target c s entry identity source_title path p)
  unfolding write_target
  write_target-Adds s entry identity source_title path p =
      elim (Result-cases (track c.can_read p.files path p.journal)) [
        | inl (e, q) ↦ rw (write_target, q) (raises-Adds p _)
        | inr (k, q) ↦ elim (Bool-cases (c.can_write path)) [
          | inl w ↦
              rw (write_target, q, w)
                (
                  λ t.
                      written-Sync path (strm_content entry.resolver_url)
                        (track-is_tracked c.can_read p.files path path p.journal k q).0
                        (Sync.tracked c.can_read path q t),
                  λ e. omega (arith, length-append p.written_paths (path ∷ [])),
                  refl,
                )
          | inr w ↦
              rw (write_target, q, w)
                (λ t. Sync.tracked c.can_read path q t, λ e. absurd (ground (arith, e)), refl)
        ]
      ]

  write_entry-Adds :
      (s : Source) (entry : LibraryEntry) (identity : Option MediaIdentity) (source_title : String)
      → (p : Progress) → Adds p (write_entry c s entry identity source_title p)
  unfolding write_entry
  write_entry-Adds s entry identity source_title p =
      elim (Result-cases (
        target_path c.library_root (source_file_key s.file)
          (lookup (source_file_key s.file) c.reusable_files) (c.canonical entry)
          (c.alternate (c.canonical entry) (source_name s.file) none)
          (c.alternate (c.canonical entry) (source_name s.file) (some (slice s.entry_id 0 8)))
          p.claimed)) [
            | inl (e, q) ↦ rw (write_entry, q) (raises-Adds p _)
            | inr ((claimed, path), q) ↦
                rw (write_entry, q)
                  (write_target-Adds s entry identity source_title path
                    (record p { claimed = claimed }))
          ]

  add_resolved-Adds :
      (s : Source) (entry : LibraryEntry) (identity : Option MediaIdentity) (source_title : String)
      → (p : Progress) → Adds p (add_resolved c s entry identity source_title p)
  unfolding add_resolved
  add_resolved-Adds s entry identity source_title p =
      elim (Result-cases (exclusions_of c (ok (c.relative_path entry)))) [
        | inl (e, q) ↦ rw (add_resolved, q) (raises-Adds p e)
        | inr ([], q) ↦ rw (add_resolved, q) (write_entry-Adds s entry identity source_title p)
        | inr (x ∷ xs, q) ↦ rw (add_resolved, q) (λ t. t, λ e. omega arith, refl)
      ]

  by_status-Adds :
      (s : Source) (entry : LibraryEntry) (identity : Option MediaIdentity) (source_title : String)
      → (p : Progress) → Adds p (add_by_status c s entry identity source_title p)
  unfolding add_by_status
  by_status-Adds s entry none source_title p = add_resolved-Adds s entry none source_title p
  by_status-Adds s entry (some identity) source_title p =
      elim identity.status
          as (λ x.
            identity.status ≡ x → Adds p (add_by_status c s entry (some identity) source_title p)) [
              | ResolutionStatus.provider_error ↦
                  λ q. rw (add_by_status, q) (λ t. t, λ e. omega arith, refl)
              | ResolutionStatus.no_match ↦ λ q.
                  rw (add_by_status, q) (add_resolved-Adds s entry (some identity) source_title _)
              | ResolutionStatus.resolved ↦ λ q.
                  rw (add_by_status, q) (add_resolved-Adds s entry (some identity) source_title p)
            ]
        refl

  add_new-Adds :
      (s : Source) (selected : Option MediaIdentity) (p : Progress)
      → Adds p (add_new c s selected p)
  unfolding add_new
  add_new-Adds s selected p =
      elim (Result-cases
        (c.entry_from (library_name c.unicode s.file) s.playback_url s.file.folder_name)) [
          | inl (e, q) ↦ rw (add_new, q) (raises-Adds p e)
          | inr (entry, q) ↦ elim (Result-cases (c.resolve entry selected)) [
            | inl (e, r) ↦ rw (add_new, q, r) (raises-Adds p e)
            | inr ((resolved, identity), r) ↦
                rw (add_new, q, r) (by_status-Adds s resolved identity entry.title p)
          ]
        ]

  reuse-Adds :
      (cached : SyncedStrmFile) (url : String) (p : Progress) → Adds p (reuse c cached url p)
  unfolding reuse
  reuse-Adds cached url p = elim (Result-cases (exclusions_of c (c.written_path cached url))) [
    | inl (e, q) ↦ rw (reuse, q) (raises-Adds p e)
    | inr ([], q) ↦
        rw (reuse, q)
          (λ t. t, λ e. omega (arith, length-append p.written_paths (cached.path ∷ [])), refl)
    | inr (x ∷ xs, q) ↦ rw (reuse, q) (λ t. t, λ e. omega arith, refl)
  ]

  add_source-Adds : (s : Source) (p : Progress) → Adds p (add_source c s p)
  unfolding add_source
  add_source-Adds s p =
      elim (Result-cases (
        reusable_file c.sha256 c.fingerprint c.library_root c.can_read c.reusable_files p.files
          s.file s.entry_id s.playback_url s.info_hash
          (selected_media_identity c.unicode c.by_torrent_id c.by_info_hash s.file.item_id
            s.info_hash))) [
              | inl (e, q) ↦ rw (add_source, q) (raises-Adds p _)
              | inr (some cached, q) ↦ rw (add_source, q) (reuse-Adds cached s.playback_url p)
              | inr (none, q) ↦ rw (add_source, q) (add_new-Adds s _ p)
            ]

  -- Addressing the playback changes only the entries of the manifest.
  addressed :
      (f : TorBoxFile) (entry_id : String) (p : Progress) (o : Outcome)
      → Adds (playback_url c f entry_id p).0 o
      → Adds p o
  unfolding playback_url
  addressed f entry_id p o a = elim (Option-cases c.resolver) [
    | inl e ↦ rw (playback_url, e) at a
    | inr (r, e) ↦ rw (playback_url, e) at a
  ]

  add_file-Adds :
      (discovered : Dict String String) (f : TorBoxFile) (p : Progress)
      → Adds (record p { scanned_files = suc p.scanned_files }) (add_file c discovered f p)
  unfolding add_file
  add_file-Adds discovered f p =
      let entry_id = resolver_entry_id c.sha256 f in
      let start : Progress = record p { scanned_files = suc p.scanned_files } in
      addressed f entry_id start (add_file c discovered f p) (
        add_source-Adds
          (record {
            file = f;
            entry_id = entry_id;
            playback_url = (playback_url c f entry_id start).1;
            info_hash = hash_of c discovered f.item_id;
          })
          (playback_url c f entry_id start).0)

  add_file-raised :
      (discovered : Dict String String) (f : TorBoxFile) (files : List TorBoxFile) (p : Progress)
      → (fault : Fault) → (add_file c discovered f p).1 ≡ raise fault
      → add_files c discovered (f ∷ files) p ≡ ((add_file c discovered f p).0, raise fault)
  unfolding add_files
  add_file-raised discovered f files p fault e = rw (add_files, e) refl

  add_file-added :
      (discovered : Dict String String) (f : TorBoxFile) (files : List TorBoxFile) (p : Progress)
      → (t : Unit {0}) → (add_file c discovered f p).1 ≡ ok t
      → add_files c discovered (f ∷ files) p
        ≡ add_files c discovered files (add_file c discovered f p).0
  unfolding add_files
  add_file-added discovered f files p t e = rw (add_files, e) refl

  -- What a run comes to, of the files of a listing.
  abbrev pub Dealt : List TorBoxFile → Progress → Outcome → Type 0
  Dealt files p o =
      (Sync root before p.journal p.files → Sync root before o.0.journal o.0.files)
      × (o.1 ≡ ok tt
          → (dealt_with o.0 ≡ dealt_with p + length files)
            × (o.0.scanned_files ≡ p.scanned_files + length files))

  -- However the loop over the files of a listing ends, it has tracked every file before it changed
  -- it; and when it does not raise, each file was scanned and is counted once, as written, reused
  -- or skipped.
  pub add_files-Dealt :
      (discovered : Dict String String) (files : List TorBoxFile) (p : Progress)
      → Dealt files p (add_files c discovered files p)
  unfolding add_files
  add_files-Dealt discovered [] p = (λ s. s, λ e. (omega arith, omega arith))
  add_files-Dealt discovered (f ∷ files) p =
      let (tracked, counted, scanned) = add_file-Adds discovered f p in
      elim (Result-cases (add_file c discovered f p).1) [
        | inl (fault, q) ↦
            subst (λ o. Dealt (f ∷ files) p o) (sym (add_file-raised discovered f files p fault q))
              (tracked, λ e. absurd (ground (arith, e)))
        | inr (t, q) ↦
            let (later, rest) = add_files-Dealt discovered files (add_file c discovered f p).0 in
            subst (λ o. Dealt (f ∷ files) p o) (sym (add_file-added discovered f files p t q))
              (
                λ s. later (tracked s),
                λ e.
                    let (a, b) = rest e in (omega (arith, a, counted q), omega (arith, b, scanned)),
              )
      ]
