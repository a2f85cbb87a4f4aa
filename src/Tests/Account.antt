-- ===== src/Tests/Account.antt =====
-- A sync of an account that lists two films, the second of which cannot be written.
use Prim.Native.String.{◌++◌ as ◌followed_by◌}
use strmline.Prelude.{
  ℕ, ◌≡◌, ◌↔◌, refl, String, true, false, not, List, [], ◌∷◌, Option, none, some, ◌==◌, Result, ok,
}
use strmline.Prelude.Dict.{lookup}
use strmline.Prelude.Text.{Unicode}
use strmline.Prelude.Json.{Json, Items, Fields, ℤ}
use strmline.Domain.MediaIdentity.{LibraryCategory, IdentityAuthority}
use strmline.Library.Journal.{FilePath, path_eq, Files}
use strmline.Torbox.Files.{DownloadKind, TorBoxFile}
use strmline.Sync.TorboxStrm.{SyncedStrmFile}
use strmline.Sync.TorboxStrm.Sources.{SourceFileKey, key_eq}
use strmline.Sync.TorboxStrm.Claims.{IsClaim, target_path, target_path-IsClaim}
use strmline.Sync.TorboxStrm.Reuse.{IsReusable, reusable_file, reusable_file-exact}
use strmline.Sync.TorboxStrm.Run.{Pipeline}
use strmline.Sync.TorboxStrm.Run.Loop.{add_files}
use strmline.Sync.TorboxStrm.Run.Tracked.{Dealt, add_files-Dealt}
use strmline.Sync.TorboxStrm.Account.{begin_run, generate_sync_files}
use strmline.Sync.TorboxStrm.Account.Restored.{account_sync-Ended}
use strmline.Sync.Runs.{SyncRunSource, new_tables}
use strmline.Sync.Service.{ResolverUrlConfig, SettingsSnapshot, Fault, Clock, Backend, World}
use strmline.Sync.Service.Execution.{run_torbox_account_sync}
use strmline.Sync.Service.Ending.{Ended}

abbrev ascii : Unicode
ascii = record { casefold = λ s. s; digit_value = λ c. none }

abbrev root : FilePath
root = "library" ∷ []

abbrev film : String → FilePath
film title = "library" ∷ "movies" ∷ (title followed_by ".strm") ∷ []

abbrev before : Files
before = (film "a.mkv", "old") ∷ []

abbrev pipeline : FilePath → Option ResolverUrlConfig → ℕ → Pipeline
pipeline at resolver d = record {
  unicode = ascii;
  urlencode = λ params. "q";
  sha256 = λ s. s;
  entry_from = λ name url folder. ok (record {
    category = LibraryCategory.movies;
    title = name;
    resolver_url = url;
    year = none;
    season_number = none;
    episode_number = none;
  });
  resolve = λ entry identity. ok (entry, none);
  relative_path = λ entry. entry.title;
  written_path = λ f url. ok f.title;
  canonical = λ entry. film entry.title;
  alternate = λ path name suffix. path;
  can_read = λ path. true;
  can_write = λ path. not (path == film "b.mkv");
  library_root = at;
  api_key = "key";
  torbox_base_url = "http://x";
  resolver = resolver;
  excluded_prefixes = [];
  fingerprint = "v";
  torrent_hashes = [];
  by_torrent_id = [];
  by_info_hash = [];
  reusable_files = [];
}

abbrev source : String → TorBoxFile
source name = record {
  kind = DownloadKind.webdl;
  item_id = "7";
  file_id = name;
  folder_name = "";
  file_name = name;
  path = name;
  mime_type = "";
  size = none;
}

abbrev key : String → SourceFileKey
key name = record { kind = "webdl"; item_id = "7"; file_id = name }

abbrev taken : FilePath × SourceFileKey
taken = (film "a.mkv", key "a.mkv")

alternate_claimed :
    target_path root (key "b.mkv") none (film "a.mkv") (film "a (2)") (film "a (3)") (taken ∷ [])
    ≡ ok (taken ∷ (film "a (2)", key "b.mkv") ∷ [], film "a (2)")
unfolding target_path
alternate_claimed = refl

target_path-IsClaim_example :
    IsClaim root
      (key "b.mkv")
      (film "a (3)")
      (taken ∷ [])
      (taken ∷ (film "a (2)", key "b.mkv") ∷ [], film "a (2)")
target_path-IsClaim_example =
    target_path-IsClaim root (key "b.mkv") none (film "a.mkv") (film "a (2)") (film "a (3)")
      (taken ∷ []) (taken ∷ (film "a (2)", key "b.mkv") ∷ [], film "a (2)") alternate_claimed

abbrev written : SyncedStrmFile
written = record {
  path = film "a.mkv";
  entry_id = "e";
  category = "movies";
  title = "a.mkv";
  year = none;
  season_number = none;
  episode_number = none;
  provider = "webdl";
  provider_item_id = "7";
  provider_file_id = "a.mkv";
  content_hash = "old";
  tmdb_id = none;
  tmdb_poster_path = none;
  provider_item_name = "";
  provider_file_name = "a.mkv";
  provider_file_path = "a.mkv";
  provider_file_mime_type = "";
  provider_file_size = none;
  info_hash = none;
  source_title = "a.mkv";
  identity_authority = IdentityAuthority.fallback;
  identity_confidence = none;
  identity_resolver_version = none;
  processing_fingerprint = some "v";
  reused = false;
}

reusable_file-exact_example :
    (reusable_file
        (λ s. s)
        "v"
        root
        (λ path. true)
        ((key "a.mkv", written) ∷ [])
        ((film "a.mkv", "old\n") ∷ [])
        (source "a.mkv")
        "e"
        "old"
        none
        none
      ≡ ok (some written))
    ↔ IsReusable
        (λ s. s)
        "v"
        root
        (λ path. true)
        ((key "a.mkv", written) ∷ [])
        ((film "a.mkv", "old\n") ∷ [])
        (source "a.mkv")
        "e"
        "old"
        none
        none
        written
reusable_file-exact_example =
    reusable_file-exact (λ s. s) "v" root (λ path. true) ((key "a.mkv", written) ∷ [])
      ((film "a.mkv", "old\n") ∷ []) (source "a.mkv") "e" "old" none none written

reused :
    reusable_file
      (λ s. s)
      "v"
      root
      (λ path. true)
      ((key "a.mkv", written) ∷ [])
      ((film "a.mkv", "old\n") ∷ [])
      (source "a.mkv")
      "e"
      "old"
      none
      none
    ≡ ok (some written)
unfolding reusable_file
reused = refl

add_files-Dealt_example :
    Dealt root before
      (pipeline root none 0)
      (source "a.mkv" ∷ source "b.mkv" ∷ [])
      (begin_run root before [])
      (add_files
        (pipeline root none 0)
        []
        (source "a.mkv" ∷ source "b.mkv" ∷ [])
        (begin_run root before []))
add_files-Dealt_example =
    add_files-Dealt root before (pipeline root none 0) [] (source "a.mkv" ∷ source "b.mkv" ∷ [])
      (begin_run root before [])

abbrev raw : String → Json
raw name =
    Json.object
      (Fields.field "id" (Json.text name) (Fields.field "name" (Json.text name) Fields.end))

abbrev download : Fields
download = Fields.field "id" (Json.integer (ℤ.pos 7)) (
    Fields.field "files"
      (Json.array (Items.cons (raw "a.mkv") (Items.cons (raw "b.mkv") Items.nil))) Fields.end)

abbrev listings : List (DownloadKind × Result Fault (List Fields))
listings = (DownloadKind.webdl, ok (download ∷ [])) ∷ []

abbrev backend : Backend ℕ
backend = record {
  delete_identities = λ identities d. ok d;
  persist_result = λ r at hashes d. ok (d, []);
  clear_unobserved = λ prefixes d. ok d;
  commit = λ d. true;
  lock_asked = ok tt;
  settings_read = ok tt;
  context = ok tt;
  success_flushed = ok tt;
  can_read = λ path. true;
  can_unlink = λ path. true;
  rolled_back = ok tt;
  can_restore = λ path. true;
  failure_recorded = ok tt;
  finished = ok tt;
  released = ok tt;
}

abbrev world : World ℕ
world = record { locked = false; database = 0; tables = new_tables; files = before }

abbrev settings : SettingsSnapshot
settings = record {
  library_root = some root;
  playback_mode = "direct";
  base_url = none;
  api_key = some "key";
  resolver_token = none;
}

abbrev clock : Clock
clock = record { now = 7; created_at = λ id. 7 }

account_sync-Ended_example :
    Ended ascii backend
      (generate_sync_files (λ m. "{}") (λ d. d) pipeline listings [])
      clock
      SyncRunSource.manual
      settings
      world
      (run_torbox_account_sync ascii backend
        (generate_sync_files (λ m. "{}") (λ d. d) pipeline listings [])
        clock
        SyncRunSource.manual
        settings
        world)
    × ((run_torbox_account_sync ascii backend
          (generate_sync_files (λ m. "{}") (λ d. d) pipeline listings [])
          clock
          SyncRunSource.manual
          settings
          world).0.locked
        ≡ false)
account_sync-Ended_example =
    account_sync-Ended (λ m. "{}") (λ d. d) pipeline listings [] ascii backend clock
      SyncRunSource.manual settings world refl refl

-- The first film was overwritten before the second failed.
film_restored :
    lookup
      (film "a.mkv")
      (run_torbox_account_sync ascii backend
        (generate_sync_files (λ m. "{}") (λ d. d) pipeline listings [])
        clock
        SyncRunSource.manual
        settings
        world).0.files
    ≡ some "old"
unfolding run_torbox_account_sync generate_sync_files lookup
film_restored = refl

overwritten :
    lookup
      (film "a.mkv")
      (generate_sync_files (λ m. "{}") (λ d. d) pipeline listings [] root none 0 before).files
    ≡ some "http://x/webdl/requestdl?q\n"
unfolding generate_sync_files lookup
overwritten = refl
