-- ===== src/Sync/TorboxStrm/Run/Loop.antt =====
-- api/app/sync/torbox_strm.py: the body of the loop of `TorBoxStrmSync.run`, a step a function, and
-- the loop over the files of a listing.
use Prim.Native.String.{slice}
use strmline.Prelude.{
  suc, String, true, List, [], ◌∷◌, ◌++◌, Option, none, some, if◌then◌else◌, string_eq, Result, ok,
  raise,
}
use strmline.Prelude.Dict.{Dict, lookup}
use strmline.Domain.MediaIdentity.{ResolutionStatus}
use strmline.Library.Entries.{LibraryEntry}
use strmline.Library.Journal.{FilePath, path_eq, track}
use strmline.Torbox.Files.{TorBoxFile, request_download_url}
use strmline.Torbox.Files.Bluray.{library_name}
use strmline.Sync.Service.{Fault}
use strmline.Sync.TorboxStrm.{SyncedStrmFile}
use strmline.Sync.TorboxStrm.Sources.{
  key_eq, source_file_key, MediaIdentity, selected_media_identity, no_match_diagnostic,
  provider_error_diagnostic, synced_file,
}
use strmline.Sync.TorboxStrm.Claims.{target_path}
use strmline.Sync.TorboxStrm.Reuse.{strm_content, write_strm_file, reusable_file}
use strmline.Sync.TorboxStrm.Run.{
  Pipeline, Progress, Outcome, outside, track_fault, resolver_entry_id, resolver_playback_url,
  add_diagnostic, add_prefixes, matching_excluded_prefixes, skip, exclude, tmdb_id_of, poster_of,
  status_of, source_name, Source,
}

module _ (c : Pipeline) where
  -- `_playback_url`
  unfoldable pub playback_url : TorBoxFile → String → Progress → Progress × String
  unfolding request_download_url resolver_playback_url
  playback_url f entry_id p =
      let direct_url = request_download_url c.urlencode c.torbox_base_url c.api_key f in
      elim c.resolver [
        | none ↦ (p, direct_url)
        | some resolver ↦ (
          record p { manifest_entries = p.manifest_entries ++ ((entry_id, direct_url) ∷ []) },
          resolver_playback_url resolver entry_id,
        )
      ]

  -- `_matching_excluded_prefixes`, which does not name the path when there are no prefixes
  unfoldable pub exclusions_of : Result Fault String → Result Fault (List String)
  unfolding matching_excluded_prefixes
  exclusions_of relative_path = elim c.excluded_prefixes [
    | [] ↦ ok []
    | q ∷ qs ↦ elim relative_path [
      | raise fault ↦ raise fault
      | ok path ↦ ok (matching_excluded_prefixes (q ∷ qs) path)
    ]
  ]

  -- The branch of a file that was written before.
  unfoldable pub reuse : SyncedStrmFile → String → Progress → Outcome
  unfolding exclusions_of add_prefixes
  reuse cached url p = elim (exclusions_of (c.written_path cached url)) [
    | raise fault ↦ (p, raise fault)
    | ok (q ∷ qs) ↦ (exclude (q ∷ qs) p, ok tt)
    | ok [] ↦ (
      record p {
        written_paths = p.written_paths ++ (cached.path ∷ []);
        synced_files = p.synced_files ++ (record cached { reused = true } ∷ []);
        reused_files = suc p.reused_files;
      },
      ok tt,
    )
  ]

  -- The writing of a file to its target, which is tracked first. A write that fails leaves the file
  -- as it is.
  unfoldable pub write_target :
      Source → LibraryEntry → Option MediaIdentity → String → FilePath → Progress → Outcome
  unfolding track write_strm_file synced_file
  write_target s entry identity source_title path p =
      elim (track c.can_read p.files path p.journal) [
        | raise e ↦ (p, raise (track_fault e))
        | ok journal ↦
            let tracked : Progress = record p { journal = journal } in
            if c.can_write path
            then (
              record tracked {
                files = write_strm_file path (strm_content entry.resolver_url) p.files;
                written_paths = p.written_paths ++ (path ∷ []);
                synced_files =
                    p.synced_files
                    ++ (synced_file c.sha256 path s.entry_id entry s.file s.info_hash
                          (tmdb_id_of identity) (poster_of identity) source_title identity
                          (some c.fingerprint)
                        ∷ []);
              },
              ok tt,
            )
            else (tracked, raise Fault.os_error)
      ]

  -- The choice of the target.
  unfoldable pub write_entry :
      Source → LibraryEntry → Option MediaIdentity → String → Progress → Outcome
  unfolding source_file_key lookup target_path write_target
  write_entry s entry identity source_title p =
      elim (target_path c.library_root (source_file_key s.file)
        (lookup (source_file_key s.file) c.reusable_files) (c.canonical entry)
        (c.alternate (c.canonical entry) (source_name s.file) none)
        (c.alternate (c.canonical entry) (source_name s.file) (some (slice s.entry_id 0 8)))
        p.claimed) [
          | raise _ ↦ (p, raise outside)
          | ok (claimed, path) ↦
              write_target s entry identity source_title path (record p { claimed = claimed })
        ]

  -- Once the identity is resolved: what a provider could not answer is skipped, and so is what is
  -- excluded.
  unfoldable pub add_resolved :
      Source → LibraryEntry → Option MediaIdentity → String → Progress → Outcome
  unfolding exclusions_of add_prefixes write_entry
  add_resolved s entry identity source_title p = elim (exclusions_of (ok (c.relative_path entry))) [
    | raise fault ↦ (p, raise fault)
    | ok (q ∷ qs) ↦ (exclude (q ∷ qs) p, ok tt)
    | ok [] ↦ write_entry s entry identity source_title p
  ]

  unfoldable pub add_by_status :
      Source → LibraryEntry → Option MediaIdentity → String → Progress → Outcome
  unfolding add_diagnostic provider_error_diagnostic no_match_diagnostic add_resolved
  add_by_status s entry identity source_title p = elim (status_of identity) [
    | ResolutionStatus.provider_error ↦ (
      record (skip p) {
        diagnostics = add_diagnostic (provider_error_diagnostic source_title) p.diagnostics;
      },
      ok tt,
    )
    | ResolutionStatus.no_match ↦
        add_resolved s entry identity source_title (record p {
          diagnostics = add_diagnostic (no_match_diagnostic source_title) p.diagnostics;
        })
    | ResolutionStatus.resolved ↦ add_resolved s entry identity source_title p
  ]

  -- The branch of a file that is written.
  unfoldable pub add_new : Source → Option MediaIdentity → Progress → Outcome
  unfolding library_name add_by_status
  add_new s selected p =
      elim (c.entry_from (library_name c.unicode s.file) s.playback_url s.file.folder_name) [
        | raise fault ↦ (p, raise fault)
        | ok entry ↦ elim (c.resolve entry selected) [
          | raise fault ↦ (p, raise fault)
          | ok (resolved, identity) ↦ add_by_status s resolved identity entry.title p
        ]
      ]

  -- A file whose playback is addressed.
  unfoldable pub add_source : Source → Progress → Outcome
  unfolding selected_media_identity reusable_file reuse add_new
  add_source s p =
      let selected =
        selected_media_identity c.unicode c.by_torrent_id c.by_info_hash s.file.item_id
          s.info_hash in
      elim (reusable_file c.sha256 c.fingerprint c.library_root c.can_read c.reusable_files p.files
        s.file s.entry_id s.playback_url s.info_hash selected) [
          | raise _ ↦ (p, raise outside)
          | ok (some cached) ↦ reuse cached s.playback_url p
          | ok none ↦ add_new s selected p
        ]

  -- `discovered_hashes.get(item_id) or self._torrent_hashes.get(item_id)`; a hash is never empty.
  unfoldable pub hash_of : Dict String String → String → Option String
  unfolding lookup
  hash_of discovered item_id = elim (lookup item_id discovered) [
    | some h ↦ some h
    | none ↦ lookup item_id c.torrent_hashes
  ]

  -- The body of the loop.
  unfoldable pub add_file : Dict String String → TorBoxFile → Progress → Outcome
  unfolding resolver_entry_id playback_url hash_of add_source
  add_file discovered f p =
      let entry_id = resolver_entry_id c.sha256 f in
      let (addressed, url) =
        playback_url f entry_id (record p { scanned_files = suc p.scanned_files }) in
      add_source
        (record {
          file = f;
          entry_id = entry_id;
          playback_url = url;
          info_hash = hash_of discovered f.item_id;
        })
        addressed

  -- The loop over the files of a listing.
  unfoldable pub add_files : Dict String String → List TorBoxFile → Progress → Outcome
  unfolding add_file
  add_files discovered [] p = (p, ok tt)
  add_files discovered (f ∷ files) p =
      let added = add_file discovered f p in
      elim added.1 [
        | raise fault ↦ (added.0, raise fault)
        | ok _ ↦ add_files discovered files added.0
      ]
