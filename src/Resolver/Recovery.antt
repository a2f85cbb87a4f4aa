-- ===== src/Resolver/Recovery.antt =====
-- api/app/db/repositories/resolver.py: the target of a playback. A file that TorBox has dropped is
-- recovered: its torrent is found or created anew and polled until it is ready and lists the file.
-- The client's answers are a parameter; each call is given the number of polls that were made
-- before it, so that answers can change while the recovery waits.
pub mod Matching
pub mod Polling
pub mod Target
pub mod Committed
use strmline.Prelude.{
  ℕ, zero, suc, ◌+◌, String, Bool, true, false, not, ◌&&◌, ◌||◌, List, [], ◌∷◌, Option, none, some,
  if◌then◌else◌, ◌==◌, string_eq, nat_beq, keep, contains, Result, ok, raise, Eq, ltb, ◌↔◌, ◌≡◌,
}
use Prim.Native.String.{◌++◌ as ◌followed_by◌}
use strmline.Prelude.Text.{Unicode, strip, strip_by, is_slash, replace_char}
use strmline.Prelude.Json.{Json, Fields, ℤ, get, is_false, is_list, str_of_int}
use strmline.Torbox.Files.{DownloadKind, TorBoxFile}
use strmline.Torbox.Files.Bluray.{int_lt}
use strmline.Torbox.Files.Extract.{bool_text, or_else, extract_torbox_files}

abbrev pub playback_recovery_attempts : ℕ
playback_recovery_attempts = 30

-- `TorBoxAPIError`
pub record TorBoxApiError : Type 0 where
  pub message : String
  pub error_code : Option String

-- What a call of the client raises: `TorBoxAPIError`, an `httpx.HTTPError` of the connection, which
-- the client lets through, or another exception, such as that of an answer that is not JSON.
pub data ClientError : Type 0 where
  api_error : TorBoxApiError → ClientError
  http_error : ClientError
  other_error : ClientError

-- The exceptions of a recovery: `ResolverRecoveryError` with its message, or one of the client.
pub data RecoveryFailure : Type 0 where
  recovery_error : String → RecoveryFailure
  client_error : ClientError → RecoveryFailure

pub record TorBoxPlaybackClient : Type 0 where
  pub request_download_link : ℕ → TorBoxFile → Result ClientError String
  pub find_torrent_by_hash : ℕ → String → Result ClientError (Option Fields)
  pub create_torrent : String → String → Result ClientError Fields
  pub get_download : ℕ → String → Result ClientError (Option Fields)

-- `_string_id`
unfoldable pub string_id : Json → Option String
unfolding strip str_of_int
string_id (Json.integer value) = some (str_of_int value)
string_id (Json.boolean value) = some (bool_text value)
string_id (Json.text value) = if strip value == "" then none else some (strip value)
string_id _ = none

unfoldable pub item_id : Option Fields → Option String
unfolding string_id
item_id none = none
item_id (some item) = string_id (get "id" item)

-- An identifier is never empty, so that `or` falls back only from `None`.
unfoldable pub created_torrent_id : Fields → Option String
unfolding string_id
created_torrent_id item = elim (string_id (get "torrent_id" item)) [
  | some id ↦ some id
  | none ↦ string_id (get "id" item)
]

abbrev pub int_eq : ℤ → ℤ → Bool
int_eq a b = not (int_lt a b) && not (int_lt b a)

-- `candidate.size == saved_file.size`, for a saved size that is known
abbrev pub has_size : ℤ → TorBoxFile → Bool
has_size size candidate = elim candidate.size [ none ↦ false | some n ↦ int_eq n size ]

abbrev pub first_of : List TorBoxFile → Option TorBoxFile
first_of [] = none
first_of (f ∷ fs) = some f

-- `xs[0] if len(xs) == 1`
abbrev pub only_one : List TorBoxFile → Option TorBoxFile
only_one (f ∷ []) = some f
only_one _ = none

abbrev pub or_option : Option TorBoxFile → Option TorBoxFile → Option TorBoxFile
or_option (some f) other = some f
or_option none other = other

-- `if saved_file.size is not None: ...`
abbrev pub only_of_size : Option ℤ → List TorBoxFile → Option TorBoxFile
only_of_size none matching_names = none
only_of_size (some size) matching_names = only_one (keep (has_size size) matching_names)

module _ (u : Unicode) where
  unfoldable pub normalized_path : String → String
  unfolding strip_by
  normalized_path value = u.casefold (strip_by is_slash (replace_char 92 "/" value))

  abbrev pub same_path : TorBoxFile → TorBoxFile → Bool
  same_path saved_file candidate = normalized_path candidate.path == normalized_path saved_file.path

  abbrev pub same_name : TorBoxFile → TorBoxFile → Bool
  same_name saved_file candidate = u.casefold candidate.file_name == u.casefold saved_file.file_name

  -- `_matching_file`, on the extracted candidates
  unfoldable pub match_candidates : List TorBoxFile → TorBoxFile → Option TorBoxFile
  unfolding normalized_path
  match_candidates candidates saved_file =
      let matching_names = keep (same_name saved_file) candidates in
      or_option (first_of (keep (same_path saved_file) candidates))
        (or_option (only_of_size saved_file.size matching_names) (only_one matching_names))

  unfoldable pub matching_file : Fields → TorBoxFile → Option TorBoxFile
  unfolding match_candidates extract_torbox_files
  matching_file torrent saved_file =
      match_candidates (extract_torbox_files u (torrent ∷ []) DownloadKind.torrents).files
        saved_file

  -- By the state of the download.
  unfoldable pub state_is_ready : Json → Fields → Bool
  unfolding strip
  state_is_ready (Json.text state) torrent =
      if strip state == ""
      then not (is_false (get "cached" torrent)) && is_list (get "files" torrent)
      else contains ("cached" ∷ "completed" ∷ "uploading" ∷ []) (u.casefold state)
  state_is_ready _ torrent = not (is_false (get "cached" torrent)) && is_list (get "files" torrent)

  unfoldable pub torrent_is_ready : Fields → Bool
  unfolding state_is_ready
  torrent_is_ready torrent = elim (get "download_finished" torrent) [
    | Json.boolean download_finished ↦ download_finished
    | _ ↦ state_is_ready (get "download_state" torrent) torrent
  ]

  -- What an attempt of the loop returns: the file, if the torrent is ready and lists it.
  unfoldable pub found_in : Option Fields → TorBoxFile → Option TorBoxFile
  unfolding torrent_is_ready matching_file
  found_in none saved_file = none
  found_in (some torrent) saved_file =
      if torrent_is_ready torrent then matching_file torrent saved_file else none

-- A torrent and its identifier, as far as they are known.
abbrev pub Known : Type 0
Known = Option Fields × Option String

-- `TorBoxAPIError` with `error_code == "DUPLICATE_ITEM"`, the one error that is passed over
abbrev pub is_duplicate : ClientError → Bool
is_duplicate (ClientError.api_error error) = elim error.error_code [
  | none ↦ false
  | some code ↦ code == "DUPLICATE_ITEM"
]
is_duplicate ClientError.http_error = false
is_duplicate ClientError.other_error = false

module _ (client : TorBoxPlaybackClient) (info_hash : String) where
  -- `_find_or_create_torrent`, from the answers of its two calls.
  unfoldable pub create_unless_duplicate : String → Result RecoveryFailure Known
  unfolding created_torrent_id
  create_unless_duplicate title =
      elim (client.create_torrent ("magnet:?xt=urn:btih:" followed_by info_hash) title) [
        | raise error ↦
            if is_duplicate error
            then ok (none, none)
            else raise (RecoveryFailure.client_error error)
        | ok created ↦ ok (none, created_torrent_id created)
      ]

  unfoldable pub find_or_create_torrent : String → Result RecoveryFailure Known
  unfolding create_unless_duplicate item_id
  find_or_create_torrent title = elim (client.find_torrent_by_hash 0 info_hash) [
    | raise error ↦ raise (RecoveryFailure.client_error error)
    | ok (some torrent) ↦ ok (some torrent, item_id (some torrent))
    | ok none ↦ create_unless_duplicate title
  ]

  -- What a poll answers, after `polls` polls.
  unfoldable pub poll : ℕ → Option String → Result ClientError Known
  unfolding item_id
  poll polls (some torrent_id) = elim (client.get_download polls torrent_id) [
    | raise error ↦ raise error
    | ok torrent ↦ ok (torrent, some torrent_id)
  ]
  poll polls none = elim (client.find_torrent_by_hash polls info_hash) [
    | raise error ↦ raise error
    | ok torrent ↦ ok (torrent, item_id torrent)
  ]

abbrev pub not_produced : RecoveryFailure
not_produced =
    RecoveryFailure.recovery_error "TorBox playback recovery did not produce the saved media file."

module _ (u : Unicode) (client : TorBoxPlaybackClient) (info_hash : String)
    (saved_file : TorBoxFile) where
  -- The loop, with the attempts that `range` has left, the number of this attempt and what is
  -- known. It answers with the number of polls that it has made.
  unfoldable pub recover_loop : ℕ → ℕ → Known → ℕ × Result RecoveryFailure TorBoxFile
  unfolding found_in poll
  recover_loop zero attempt known = (attempt, raise not_produced)
  recover_loop (suc left) attempt known = elim (found_in u known.0 saved_file) [
    | some match ↦ (attempt, ok match)
    | none ↦ elim (nat_beq (attempt + 1) playback_recovery_attempts) [
      | true ↦ (attempt, raise not_produced)
      | false ↦ elim (poll client info_hash (attempt + 1) known.1) [
        | raise error ↦ (attempt + 1, raise (RecoveryFailure.client_error error))
        | ok next ↦ recover_loop left (attempt + 1) next
      ]
    ]
  ]

  unfoldable pub recover_torrent_file : String → ℕ × Result RecoveryFailure TorBoxFile
  unfolding find_or_create_torrent recover_loop
  recover_torrent_file title = elim (find_or_create_torrent client info_hash title) [
    | raise failure ↦ (0, raise failure)
    | ok known ↦ recover_loop playback_recovery_attempts 0 known
  ]
