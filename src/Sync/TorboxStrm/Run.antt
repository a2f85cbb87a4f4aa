-- ===== src/Sync/TorboxStrm/Run.antt =====
-- api/app/sync/torbox_strm.py: what a run of `TorBoxStrmSync` has and keeps, and its texts. A run
-- is that of a sync: with a journal and without a limit of files. The parsing of a file name, the
-- naming of paths and the resolution of an identity are parameters, which may raise.
pub mod Loop
pub mod Tracked
use Prim.Native.String.{slice, ◌++◌ as ◌followed_by◌}
use strmline.Prelude.{
  ℕ, suc, ◌+◌, String, Bool, true, false, not, ◌&&◌, ◌||◌, List, [], ◌∷◌, ◌++◌, Option, none, some,
  if◌then◌else◌, ◌==◌, string_eq, contains, keep, any, Result, ok, raise,
}
use strmline.Prelude.Dict.{Dict, lookup, insert}
use strmline.Prelude.Text.{Unicode, is_slash, strip_right_by, starts_with}
use strmline.Domain.MediaIdentity.{ResolutionStatus}
use strmline.Library.Entries.{LibraryEntry}
use strmline.Library.Journal.{
  FilePath, path_eq, Files, OutsideRoot, TrackError, LibraryMutationJournal, track,
}
use strmline.Torbox.Files.{TorBoxFile, kind_text, request_download_url}
use strmline.Torbox.Files.Bluray.{library_name}
use strmline.Sync.Service.{ResolverUrlConfig, Fault}
use strmline.Sync.TorboxStrm.{SyncDiagnostic, SyncedStrmFile}
use strmline.Sync.TorboxStrm.Sources.{
  SourceFileKey, key_eq, source_file_key, MediaIdentity, same_text, selected_media_identity,
  no_match_diagnostic, provider_error_diagnostic, synced_file,
}
use strmline.Sync.TorboxStrm.Claims.{Claims, target_path}
use strmline.Sync.TorboxStrm.Reuse.{strm_content, write_strm_file, reusable_file}

-- What is fixed for a run. `entry_from` is `library_entry_from_file_name`; `resolve` is
-- `_resolve_entry`; `relative_path` gives the text of `library_entry_relative_path`, which does not
-- raise for an entry that was made, and `written_path` that of the entry of a file that was written
-- before, which is made anew; `canonical` and `alternate` give the path of an entry and the
-- alternates of a path for a name, without and with a unique suffix; `can_read` and `can_write` tell
-- whether the file system lets a file be read as a text or for the journal, and be written.
pub record Pipeline : Type 0 where
  pub unicode : Unicode
  pub urlencode : List (String × String) → String
  pub sha256 : String → String
  pub entry_from : String → String → String → Result Fault LibraryEntry
  pub resolve :
      LibraryEntry → Option MediaIdentity → Result Fault (LibraryEntry × Option MediaIdentity)
  pub relative_path : LibraryEntry → String
  pub written_path : SyncedStrmFile → String → Result Fault String
  pub canonical : LibraryEntry → FilePath
  pub alternate : FilePath → String → Option String → FilePath
  pub can_read : FilePath → Bool
  pub can_write : FilePath → Bool
  pub library_root : FilePath
  pub api_key : String
  pub torbox_base_url : String
  pub resolver : Option ResolverUrlConfig
  pub excluded_prefixes : List String
  pub fingerprint : String
  pub torrent_hashes : Dict String String
  pub by_torrent_id : Dict String MediaIdentity
  pub by_info_hash : Dict String MediaIdentity
  pub reusable_files : Dict SourceFileKey SyncedStrmFile

-- What a run has done so far; `manifest_entries` are pairs of an identifier and a target.
pub record Progress : Type 0 where
  pub files : Files
  pub journal : LibraryMutationJournal
  pub claimed : Claims
  pub written_paths : List FilePath
  pub synced_files : List SyncedStrmFile
  pub manifest_entries : List (String × String)
  pub diagnostics : List SyncDiagnostic
  pub observed_prefixes : List String
  pub scanned_files : ℕ
  pub skipped_files : ℕ
  pub reused_files : ℕ

-- A step that may raise, and what is done when it does.
abbrev pub Outcome : Type 0
Outcome = Progress × Result Fault (Unit {0})

abbrev pub outside : Fault
outside = Fault.value_error "Target path is outside library root."

abbrev pub track_fault : TrackError → Fault
track_fault (TrackError.outside _) = outside
track_fault TrackError.unreadable = Fault.os_error

-- `resolver_entry_id` of api/app/resolver/manifest.py: a digest has one byte for each digit.
unfoldable pub resolver_entry_id : (String → String) → TorBoxFile → String
resolver_entry_id sha256 f =
    slice
      (sha256 (
        kind_text f.kind
        followed_by ":"
        followed_by f.item_id
        followed_by ":"
        followed_by f.file_id))
      0 24

unfoldable pub resolver_playback_url : ResolverUrlConfig → String → String
unfolding strip_right_by
resolver_playback_url resolver entry_id =
    strip_right_by is_slash resolver.base_url
    followed_by "/play/"
    followed_by entry_id
    followed_by "?token="
    followed_by resolver.token

abbrev pub same_diagnostic : SyncDiagnostic → SyncDiagnostic → Bool
same_diagnostic a b =
    a.phase == b.phase && same_text a.item_ref b.item_ref && a.message == b.message

-- `diagnostics.add(d)`
unfoldable pub add_diagnostic : SyncDiagnostic → List SyncDiagnostic → List SyncDiagnostic
add_diagnostic d ds = if any (same_diagnostic d) ds then ds else ds ++ (d ∷ [])

-- `excluded_prefixes.update(prefixes)`
unfoldable pub add_prefixes : List String → List String → List String
add_prefixes [] known = known
add_prefixes (p ∷ prefixes) known =
    add_prefixes prefixes (if contains known p then known else known ++ (p ∷ []))

-- `_matching_excluded_prefixes`, of the text of a path
unfoldable pub matching_excluded_prefixes : List String → String → List String
matching_excluded_prefixes prefixes relative_path =
    keep (λ p. relative_path == p || starts_with (p followed_by "/") relative_path) prefixes

abbrev pub skip : Progress → Progress
skip p = record p { skipped_files = suc p.skipped_files }

-- A match is observed and the file skipped.
abbrev pub exclude : List String → Progress → Progress
exclude prefixes p = record (skip p) {
  observed_prefixes = add_prefixes prefixes p.observed_prefixes;
}

abbrev pub tmdb_id_of : Option MediaIdentity → Option String
tmdb_id_of none = none
tmdb_id_of (some identity) = identity.tmdb_id

abbrev pub poster_of : Option MediaIdentity → Option String
poster_of none = none
poster_of (some identity) = identity.poster_path

abbrev pub status_of : Option MediaIdentity → ResolutionStatus
status_of none = ResolutionStatus.resolved
status_of (some identity) = identity.status

-- `" ".join(value for value in (folder_name, file_name) if value)`
abbrev pub source_name : TorBoxFile → String
source_name f =
    if f.folder_name == ""
    then f.file_name
    else if f.file_name == ""
    then f.folder_name
    else f.folder_name followed_by " " followed_by f.file_name

-- What is known of a file once its playback is addressed.
pub record Source : Type 0 where
  pub file : TorBoxFile
  pub entry_id : String
  pub playback_url : String
  pub info_hash : Option String
