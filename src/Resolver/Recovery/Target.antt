-- ===== src/Resolver/Recovery/Target.antt =====
-- api/app/db/repositories/resolver.py: `resolve_torbox_target`, with the attempts that it
-- records and the target that it answers with.
pub mod Recorded
use strmline.Prelude.{
  ℕ, zero, suc, ◌+◌, String, Bool, true, false, not, ◌&&◌, ◌||◌, List, [], ◌∷◌, ◌++◌, Option, none,
  some, if◌then◌else◌, ◌==◌, string_eq, Result, ok, raise,
}
use strmline.Prelude.Text.{Unicode}
use strmline.Prelude.Json.{ℤ}
use strmline.Operations.Metrics.{
  OperationalMetrics, resolver_recovery_started, resolver_recovery_finished,
}
use strmline.Torbox.Files.{DownloadKind, TorBoxFile, request_download_url}
use strmline.Torbox.Files.Extract.{or_else}
use strmline.Resolver.Recovery.{
  ClientError, RecoveryFailure, TorBoxPlaybackClient, recover_torrent_file,
}

-- A row of `torbox_files` with the columns of its item.
pub record StoredFile : Type 0 where
  pub kind : String
  pub item_external_id : String
  pub item_name : String
  pub external_id : String
  pub file_name : String
  pub path : String
  pub mime_type : String
  pub size : Option ℤ

-- The columns of a row of `library_entries` that a playback reads.
pub record SavedEntry : Type 0 where
  pub id : ℕ
  pub opaque_id : String
  pub info_hash : Option String
  pub torbox_file : Option StoredFile
  pub source_kind : Option String
  pub source_item_id : Option String
  pub source_item_name : Option String
  pub source_file_id : Option String
  pub source_file_name : Option String
  pub source_file_path : Option String
  pub source_file_mime_type : Option String
  pub source_file_size : Option ℤ

-- `value or ""`
abbrev pub or_empty : Option String → String
or_empty none = ""
or_empty (some value) = value

-- `_torbox_kind`
unfoldable pub torbox_kind : String → Option DownloadKind
torbox_kind kind =
    if kind == "torrents"
    then some DownloadKind.torrents
    else if kind == "usenet"
    then some DownloadKind.usenet
    else if kind == "webdl"
    then some DownloadKind.webdl
    else none

-- The file of an entry without a stored file: none, if a column is missing.
unfoldable pub source_file : SavedEntry → Option TorBoxFile
unfolding torbox_kind
source_file entry = elim (torbox_kind (or_empty entry.source_kind)) [
  | none ↦ none
  | some kind ↦ elim entry.source_item_id [
    | none ↦ none
    | some source_item_id ↦ elim entry.source_file_id [
      | none ↦ none
      | some source_file_id ↦ elim entry.source_file_name [
        | none ↦ none
        | some source_file_name ↦ some (record {
          kind = kind;
          item_id = source_item_id;
          file_id = source_file_id;
          folder_name = or_empty entry.source_item_name;
          file_name = source_file_name;
          path = or_else (or_empty entry.source_file_path) source_file_name;
          mime_type = or_empty entry.source_file_mime_type;
          size = entry.source_file_size;
        })
      ]
    ]
  ]
]

unfoldable pub saved_torbox_file : SavedEntry → Option TorBoxFile
unfolding torbox_kind source_file
saved_torbox_file entry = elim entry.torbox_file [
  | none ↦ source_file entry
  | some stored ↦ elim (torbox_kind stored.kind) [
    | none ↦ none
    | some kind ↦ some (record {
      kind = kind;
      item_id = stored.item_external_id;
      file_id = stored.external_id;
      folder_name = stored.item_name;
      file_name = stored.file_name;
      path = stored.path;
      mime_type = stored.mime_type;
      size = stored.size;
    })
  ]
]

pub record PlaybackAttempt : Type 0 where
  pub library_entry_id : Option ℕ
  pub entry_opaque_id : String
  pub status : String
  pub failure_reason : Option String

-- What a request changes: the attempts that are recorded, the newest last, and the metrics.
pub record State : Type 0 where
  pub attempts : List PlaybackAttempt
  pub metrics : OperationalMetrics

abbrev pub entry_id_of : Option SavedEntry → Option ℕ
entry_id_of none = none
entry_id_of (some entry) = some entry.id

unfoldable pub record_attempt : String → Option SavedEntry → String → Option String → State → State
record_attempt entry_id library_entry status failure_reason s = record s {
  attempts =
      s.attempts
      ++ (record {
        library_entry_id = entry_id_of library_entry;
        entry_opaque_id = entry_id;
        status = status;
        failure_reason = failure_reason;
      }
          ∷ []);
}

-- The exceptions of a database session that the endpoint tells apart: `SQLAlchemyError`, `OSError`.
pub data SessionError : Type 0 where
  sql_error : SessionError
  os_error : SessionError

-- What the session answers in a request: the entry under the identifier, or an exception; whether
-- the attempt can be flushed; and whether the commit succeeds.
pub record Session : Type 0 where
  pub library_entry : Result SessionError (Option SavedEntry)
  pub flushed : Result SessionError (Unit {0})
  pub can_commit : Bool

-- The exceptions of a request. `client_failed` is an exception of the client that nothing catches.
pub data TargetFailure : Type 0 where
  lookup_error : String → TargetFailure
  recovery_failed : RecoveryFailure → TargetFailure
  client_failed : ClientError → TargetFailure
  session_failed : SessionError → TargetFailure

-- The `except` clause of a recovery that was begun: of a `TorBoxAPIError` only that it is the cause
-- is kept, and other errors of the client are not caught.
unfoldable pub end_recovery :
    RecoveryFailure → OperationalMetrics → OperationalMetrics × Result RecoveryFailure String
unfolding resolver_recovery_finished
end_recovery (RecoveryFailure.recovery_error message) metrics =
    (resolver_recovery_finished false metrics, raise (RecoveryFailure.recovery_error message))
end_recovery (RecoveryFailure.client_error (ClientError.api_error _)) metrics = (
  resolver_recovery_finished false metrics,
  raise (RecoveryFailure.recovery_error "TorBox playback recovery failed."),
)
end_recovery (RecoveryFailure.client_error ClientError.http_error) metrics =
    (metrics, raise (RecoveryFailure.client_error ClientError.http_error))
end_recovery (RecoveryFailure.client_error ClientError.other_error) metrics =
    (metrics, raise (RecoveryFailure.client_error ClientError.other_error))

module _ (u : Unicode) (urlencode : List (String × String) → String) where
  -- The recovery and the link of what it finds, with all its exceptions.
  unfoldable pub recovered_link :
      TorBoxPlaybackClient → String → TorBoxFile → Result RecoveryFailure String
  unfolding recover_torrent_file
  recovered_link client info_hash saved_file =
      let (polls, recovered) =
        recover_torrent_file u client info_hash saved_file
          (or_else saved_file.folder_name saved_file.file_name) in
      elim recovered [
        | raise failure ↦ raise failure
        | ok recovered_file ↦ elim (client.request_download_link (suc polls) recovered_file) [
          | raise error ↦ raise (RecoveryFailure.client_error error)
          | ok link ↦ ok link
        ]
      ]

  -- `_playback_target` from the start of the recovery.
  unfoldable pub recover_target :
      TorBoxPlaybackClient
      → String
      → TorBoxFile
      → OperationalMetrics
      → OperationalMetrics × Result RecoveryFailure String
  unfolding recovered_link resolver_recovery_started end_recovery resolver_recovery_finished
  recover_target client info_hash saved_file metrics =
      let started = resolver_recovery_started metrics in
      elim (recovered_link client info_hash saved_file) [
        | raise failure ↦ end_recovery failure started
        | ok target_url ↦ (resolver_recovery_finished true started, ok target_url)
      ]

  -- `_playback_target` for a torrent whose hash is known: the saved file first.
  unfoldable pub linked_target :
      TorBoxPlaybackClient
      → String
      → TorBoxFile
      → OperationalMetrics
      → OperationalMetrics × Result RecoveryFailure String
  unfolding recover_target
  linked_target client info_hash saved_file metrics =
      elim (client.request_download_link 0 saved_file) [
        | ok link ↦ (metrics, ok link)
        | raise (ClientError.api_error _) ↦ recover_target client info_hash saved_file metrics
        | raise ClientError.http_error ↦
            (metrics, raise (RecoveryFailure.client_error ClientError.http_error))
        | raise ClientError.other_error ↦
            (metrics, raise (RecoveryFailure.client_error ClientError.other_error))
      ]

  abbrev pub is_torrent : DownloadKind → Bool
  is_torrent DownloadKind.torrents = true
  is_torrent DownloadKind.usenet = false
  is_torrent DownloadKind.webdl = false

  unfoldable pub playback_target :
      TorBoxFile
      → Option String
      → String
      → String
      → Option TorBoxPlaybackClient
      → OperationalMetrics
      → OperationalMetrics × Result RecoveryFailure String
  unfolding request_download_url linked_target
  playback_target saved_file info_hash api_key torbox_base_url torbox_client metrics =
      let direct : OperationalMetrics × Result RecoveryFailure String =
        (metrics, ok (request_download_url urlencode torbox_base_url api_key saved_file)) in
      elim torbox_client [
        | none ↦ direct
        | some client ↦ elim (is_torrent saved_file.kind) [
          | false ↦ direct
          | true ↦ elim info_hash [
            | none ↦ direct
            | some hash ↦ linked_target client hash saved_file metrics
          ]
        ]
      ]

  -- `_record_attempt`, which flushes the session, and how the request ends after it.
  unfoldable pub attempted :
      Session
      → String
      → Option SavedEntry
      → String
      → Option String
      → Result TargetFailure String
      → State
      → State × Result TargetFailure String
  unfolding record_attempt
  attempted session entry_id library_entry status failure_reason outcome s = elim session.flushed [
    | raise e ↦ (s, raise (TargetFailure.session_failed e))
    | ok _ ↦ (record_attempt entry_id library_entry status failure_reason s, outcome)
  ]

  -- `resolve_torbox_target` for an entry whose saved file is known.
  unfoldable pub resolve_saved :
      Session
      → String
      → SavedEntry
      → TorBoxFile
      → String
      → String
      → Option TorBoxPlaybackClient
      → State
      → State × Result TargetFailure String
  unfolding playback_target attempted
  resolve_saved session entry_id entry saved_file api_key torbox_base_url torbox_client s =
      let (metrics, target) =
        playback_target saved_file entry.info_hash api_key torbox_base_url torbox_client
          s.metrics in
      let after : State = record s { metrics = metrics } in
      elim target [
        | raise (RecoveryFailure.recovery_error message) ↦
            attempted session entry_id (some entry) "failed" (some "torbox_recovery_failed")
              (raise (TargetFailure.recovery_failed (RecoveryFailure.recovery_error message))) after
        | raise (RecoveryFailure.client_error (ClientError.api_error error)) ↦
            attempted session entry_id (some entry) "failed" (some "torbox_recovery_failed")
              (raise (
                TargetFailure.recovery_failed
                  (RecoveryFailure.client_error (ClientError.api_error error))))
              after
        | raise (RecoveryFailure.client_error ClientError.http_error) ↦
            (after, raise (TargetFailure.client_failed ClientError.http_error))
        | raise (RecoveryFailure.client_error ClientError.other_error) ↦
            (after, raise (TargetFailure.client_failed ClientError.other_error))
        | ok target_url ↦
            attempted session entry_id (some entry) "redirect" none (ok target_url) after
      ]

  -- `resolve_torbox_target`, from the entry that the session has found.
  unfoldable pub resolve_entry :
      Session
      → String
      → Option SavedEntry
      → String
      → String
      → Option TorBoxPlaybackClient
      → State
      → State × Result TargetFailure String
  unfolding saved_torbox_file resolve_saved attempted
  resolve_entry session entry_id none api_key torbox_base_url torbox_client s =
      attempted session entry_id none "not_found" (some "library_entry_not_found")
        (raise (TargetFailure.lookup_error "Resolver entry was not found.")) s
  resolve_entry session entry_id (some entry) api_key torbox_base_url torbox_client s =
      elim (saved_torbox_file entry) [
        | none ↦
            attempted session entry_id (some entry) "failed" (some "unsupported_provider")
              (raise (TargetFailure.lookup_error "Resolver entry provider is not supported.")) s
        | some saved_file ↦
            resolve_saved session entry_id entry saved_file api_key torbox_base_url torbox_client s
      ]

  unfoldable pub resolve_torbox_target :
      Session
      → String
      → String
      → String
      → Option TorBoxPlaybackClient
      → State
      → State × Result TargetFailure String
  unfolding resolve_entry
  resolve_torbox_target session entry_id api_key torbox_base_url torbox_client s =
      elim session.library_entry [
        | raise e ↦ (s, raise (TargetFailure.session_failed e))
        | ok entry ↦ resolve_entry session entry_id entry api_key torbox_base_url torbox_client s
      ]
