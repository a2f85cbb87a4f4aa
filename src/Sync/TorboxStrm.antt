-- ===== src/Sync/TorboxStrm.antt =====
-- api/app/sync/torbox_strm.py: what a sync of a TorBox account answers with.
pub mod Sources
pub mod Claims
pub mod Reuse
pub mod Run
pub mod Account
use strmline.Prelude.{ℕ, String, Bool, List, Option}
use strmline.Prelude.Json.{ℤ}
use strmline.Domain.MediaIdentity.{IdentityAuthority}
use strmline.Library.Journal.{FilePath}

pub record SyncDiagnostic : Type 0 where
  pub phase : String
  pub item_ref : Option String
  pub message : String

pub record SyncedStrmFile : Type 0 where
  pub path : FilePath
  pub entry_id : String
  pub category : String
  pub title : String
  pub year : Option ℤ
  pub season_number : Option ℤ
  pub episode_number : Option ℤ
  pub provider : String
  pub provider_item_id : String
  pub provider_file_id : String
  pub content_hash : String
  pub tmdb_id : Option String
  pub tmdb_poster_path : Option String
  pub provider_item_name : String
  pub provider_file_name : String
  pub provider_file_path : String
  pub provider_file_mime_type : String
  pub provider_file_size : Option ℤ
  pub info_hash : Option String
  pub source_title : String
  pub identity_authority : IdentityAuthority
  pub identity_confidence : Option ℤ
  pub identity_resolver_version : Option String
  pub processing_fingerprint : Option String
  pub reused : Bool

-- The sets are lists without repetition.
pub record TorBoxStrmSyncResult : Type 0 where
  pub scanned_files : ℕ
  pub written_files : ℕ
  pub skipped_files : ℕ
  pub written_paths : List FilePath
  pub synced_files : List SyncedStrmFile
  pub manifest_path : Option FilePath
  pub partial : Bool
  pub diagnostics : List SyncDiagnostic
  pub observed_excluded_prefixes : List String
  pub reused_files : ℕ
