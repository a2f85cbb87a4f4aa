-- ===== src/Tests/Files.antt =====
-- A torrent with two streams of a Blu-ray disc, and the recovery of a file of it.
use strmline.Prelude.{
  ℕ, zero, suc, ◌-◌, ◌&&◌, ◌≡◌, refl, inl, String, true, false, List, [], ◌∷◌, none, some,
  if◌then◌else◌, leb, ok, raise, In, All,
}
use Prim.Native.String.{◌++◌ as ◌followed_by◌}
use strmline.Prelude.Text.{Unicode}
use strmline.Prelude.Json.{Json, Items, Fields, ℤ}
use strmline.Operations.Metrics.{new_metrics}
use strmline.Torbox.Files.{DownloadKind, TorBoxFile}
use strmline.Torbox.Files.Bluray.{
  bluray_stream_group, select_bluray_feature_files, is_sized, size_key, int_lt,
}
use strmline.Torbox.Files.Bluray.Selection.{select-keeps_disc}
use strmline.Torbox.Files.Extract.{extract_torbox_files}
use strmline.Torbox.Files.Extract.Accepted.{IsExtracted, extract-IsExtracted}
use strmline.Resolver.FailureGuard.{default_config}
use strmline.Resolver.Play.{Resolver}
use strmline.Resolver.Recovery.{
  ClientError, TorBoxPlaybackClient, matching_file, recover_loop, playback_recovery_attempts,
}
use strmline.Resolver.Recovery.Matching.{Offered, matching_file-Offered}
use strmline.Resolver.Recovery.Polling.{Ended, recover_loop-Ended}
use strmline.Resolver.Recovery.Target.{
  SavedEntry, State, Session, TargetFailure, resolve_torbox_target,
}
use strmline.Resolver.Recovery.Target.Recorded.{RecordsOnce, resolve-RecordsOnce}

-- The names are in lower case.
abbrev ascii : Unicode
ascii = record {
  casefold = λ s. s;
  digit_value = λ c. if leb 48 c && leb c 57 then some (c - 48) else none;
}

abbrev stream : String → ℕ → TorBoxFile
stream name size = record {
  kind = DownloadKind.torrents;
  item_id = "7";
  file_id = name;
  folder_name = "film";
  file_name = name;
  path = "film/bdmv/stream/" followed_by name;
  mime_type = "video/mp2t";
  size = some (ℤ.pos size);
}

abbrev streams : List TorBoxFile
streams = stream "1.m2ts" 10 ∷ stream "2.m2ts" 90 ∷ []

first_disc : bluray_stream_group ascii (stream "1.m2ts" 10).path ≡ some "film/bdmv"
unfolding bluray_stream_group
first_disc = refl

the_feature : select_bluray_feature_files ascii streams ≡ (stream "2.m2ts" 90 ∷ [], 1)
unfolding select_bluray_feature_files
the_feature = refl

select-keeps_disc_example :
    (s : TorBoxFile) × In s (select_bluray_feature_files ascii streams).0
    × (bluray_stream_group ascii s.path ≡ some "film/bdmv")
    × (is_sized (0, stream "1.m2ts" 10) ≡ true
        → int_lt (size_key (0, s)) (size_key (0, stream "1.m2ts" 10)) ≡ false)
select-keeps_disc_example =
    select-keeps_disc ascii streams (stream "1.m2ts" 10) "film/bdmv" (inl refl) first_disc

abbrev raw_stream : String → ℕ → Json
raw_stream name size = Json.object (
    Fields.field "id" (Json.text name) (
      Fields.field "short_name" (Json.text name) (
        Fields.field "name" (Json.text ("film/bdmv/stream/" followed_by name)) (
          Fields.field "mimetype" (Json.text "video/mp2t")
            (Fields.field "size" (Json.integer (ℤ.pos size)) Fields.end)))))

abbrev torrent : Fields
torrent = Fields.field "id" (Json.integer (ℤ.pos 7)) (
    Fields.field "name" (Json.text "film") (
      Fields.field "files"
        (Json.array (
          Items.cons (raw_stream "1.m2ts" 10)
            (Items.cons Json.null (Items.cons (raw_stream "2.m2ts" 90) Items.nil))))
        Fields.end))

two_skipped :
    extract_torbox_files ascii (torrent ∷ []) DownloadKind.torrents
    ≡ record { files = stream "2.m2ts" 90 ∷ []; skipped_count = 2 }
unfolding extract_torbox_files
two_skipped = refl

extract-IsExtracted_example :
    All
      (IsExtracted ascii DownloadKind.torrents)
      (extract_torbox_files ascii (torrent ∷ []) DownloadKind.torrents).files
extract-IsExtracted_example = extract-IsExtracted ascii DownloadKind.torrents (torrent ∷ [])

feature_found : matching_file ascii torrent (stream "2.m2ts" 90) ≡ some (stream "2.m2ts" 90)
unfolding matching_file
feature_found = refl

matching_file-Offered_example :
    In (stream "2.m2ts" 90) (extract_torbox_files ascii (torrent ∷ []) DownloadKind.torrents).files
    × Offered ascii
        (stream "2.m2ts" 90)
        (extract_torbox_files ascii (torrent ∷ []) DownloadKind.torrents).files
        (stream "2.m2ts" 90)
matching_file-Offered_example =
    matching_file-Offered ascii torrent (stream "2.m2ts" 90) (stream "2.m2ts" 90) feature_found

abbrev refusal : ClientError
refusal = ClientError.api_error (record { message = "gone"; error_code = none })

-- The saved file is gone, the torrent is found again, and the link is refused once.
abbrev client : TorBoxPlaybackClient
client = record {
  request_download_link = λ polls f. elim polls [ zero ↦ raise refusal | suc _ ↦ ok "link" ];
  find_torrent_by_hash = λ polls h. ok (some torrent);
  create_torrent = λ magnet title. raise refusal;
  get_download = λ polls id. ok (some torrent);
}

recover_loop-Ended_example :
    Ended ascii client "hash"
      (stream "2.m2ts" 90)
      (some torrent, some "7")
      (recover_loop ascii client "hash"
        (stream "2.m2ts" 90)
        playback_recovery_attempts
        0
        (some torrent, some "7"))
recover_loop-Ended_example =
    recover_loop-Ended ascii client "hash" (stream "2.m2ts" 90) (some torrent, some "7")

abbrev entry : SavedEntry
entry = record {
  id = 3;
  opaque_id = "e";
  info_hash = some "hash";
  torbox_file = none;
  source_kind = some "torrents";
  source_item_id = some "6";
  source_item_name = some "film";
  source_file_id = some "9";
  source_file_name = some "2.m2ts";
  source_file_path = some "film/bdmv/stream/2.m2ts";
  source_file_mime_type = none;
  source_file_size = none;
}

abbrev urlencode : List (String × String) → String
urlencode params = "token"

abbrev start : State
start = record { attempts = []; metrics = new_metrics }

abbrev session : Session
session = record { library_entry = ok (some entry); flushed = ok tt; can_commit = true }

recovered :
    (resolve_torbox_target ascii urlencode session "e" "key" "http://x" (some client) start).1
    ≡ ok "link"
unfolding resolve_torbox_target
recovered = refl

-- TorBox cannot be reached for the first link: no attempt is recorded.
abbrev unreachable : TorBoxPlaybackClient
unreachable = record client { request_download_link = λ polls f. raise ClientError.http_error }

escaped :
    resolve_torbox_target ascii urlencode session "e" "key" "http://x" (some unreachable) start
    ≡ (start, raise (TargetFailure.client_failed ClientError.http_error))
unfolding resolve_torbox_target
escaped = refl

resolve-RecordsOnce_example :
    RecordsOnce ascii urlencode session "e" start
      (resolve_torbox_target ascii urlencode session "e" "key" "http://x" (some client) start)
resolve-RecordsOnce_example =
    resolve-RecordsOnce ascii urlencode session "e" "key" "http://x" (some client) start

abbrev resolver : Resolver
resolver = record {
  cache = record { ttl = 30; max_entries = 2; entries = [] };
  guard = record { config = default_config; negative_until = []; failure_states = [] };
  metrics = new_metrics;
}
