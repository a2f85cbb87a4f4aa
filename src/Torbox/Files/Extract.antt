-- ===== src/Torbox/Files/Extract.antt =====
-- api/app/providers/torbox/files.py: what is read from the JSON of a listing.
pub mod Accepted
pub mod Checks
use strmline.Prelude.{
  ℕ, suc, ◌+◌, String, Bool, true, false, not, ◌&&◌, ◌||◌, List, [], ◌∷◌, ◌++◌, Option, none, some,
  if◌then◌else◌, ◌==◌, string_eq,
}
use strmline.Prelude.Text.{Unicode, is_path_separator, strip, after_last, decimal}
use strmline.Prelude.Json.{Json, Items, Fields, ℤ, get, is_false, str_of_int}
use strmline.Domain.Normalization.{normalize_info_hash}
use strmline.Torbox.Files.{DownloadKind, TorBoxFile, is_video, is_sample_file, is_pack_extra}
use strmline.Torbox.Files.Bluray.{select_bluray_feature_files}

pub record ExtractedTorBoxFiles : Type 0 where
  pub files : List TorBoxFile
  pub skipped_count : ℕ

-- `str(value)` of a Boolean, which is an `int`.
abbrev pub bool_text : Bool → String
bool_text true = "True"
bool_text false = "False"

unfoldable pub string_value : Json → String
unfolding strip str_of_int
string_value (Json.text value) = strip value
string_value (Json.integer value) = str_of_int value
string_value (Json.boolean value) = bool_text value
string_value _ = ""

unfoldable pub first_string : Fields → List String → String
unfolding strip
first_string fields [] = ""
first_string fields (key ∷ keys) =
    let later = first_string fields keys in
    elim (get key fields) [
      | Json.text value ↦ if strip value == "" then later else strip value
      | _ ↦ later
    ]

unfoldable pub basename : String → String
unfolding strip after_last
basename value = strip (after_last is_path_separator value)

-- `a or b` on texts
abbrev pub or_else : String → String → String
or_else a b = if a == "" then b else a

module _ (u : Unicode) where
  unfoldable pub int_value : Json → Option ℤ
  unfolding decimal
  int_value (Json.integer value) = some value
  int_value (Json.text value) = elim (decimal u value) [ none ↦ none | some n ↦ some (ℤ.pos n) ]
  int_value _ = none

  -- The file that the fields describe.
  unfoldable pub read_file : Fields → Fields → DownloadKind → TorBoxFile
  unfolding string_value first_string basename int_value
  read_file item raw_file kind =
      let file_name = basename (first_string raw_file ("short_name" ∷ "name" ∷ "filename" ∷ [])) in
      record {
        kind = kind;
        item_id = string_value (get "id" item);
        file_id = string_value (get "id" raw_file);
        folder_name = string_value (get "name" item);
        file_name = file_name;
        path = or_else (string_value (get "name" raw_file)) file_name;
        mime_type = string_value (get "mimetype" raw_file);
        size = int_value (get "size" raw_file);
      }

  -- The early returns of `_build_torbox_file`.
  unfoldable pub is_accepted : TorBoxFile → Bool
  unfolding is_video is_sample_file is_pack_extra
  is_accepted f =
      if f.item_id == "" || f.file_id == "" || f.file_name == ""
      then false
      else if not (is_video u f.file_name f.mime_type)
      then false
      else not (is_sample_file u f.file_name f.path f.size || is_pack_extra u f.file_name)

  unfoldable pub build_torbox_file : Fields → Fields → DownloadKind → Option TorBoxFile
  unfolding read_file is_accepted
  build_torbox_file item raw_file kind =
      let f = read_file item raw_file kind in if is_accepted f then some f else none

  -- What the loop takes from an entry, which it skips when it is no `dict`.
  unfoldable pub raw_torbox_file : Fields → DownloadKind → Json → Option TorBoxFile
  unfolding build_torbox_file
  raw_torbox_file item kind (Json.object raw_file) = build_torbox_file item raw_file kind
  raw_torbox_file item kind _ = none

  -- The loop over the files of one download, from the count so far.
  unfoldable pub item_files_loop :
      Fields → DownloadKind → Items → List TorBoxFile → ℕ → List TorBoxFile × ℕ
  unfolding raw_torbox_file
  item_files_loop item kind Items.nil extracted skipped = (extracted, skipped)
  item_files_loop item kind (Items.cons raw_file rest) extracted skipped =
      elim (raw_torbox_file item kind raw_file) [
        | none ↦ item_files_loop item kind rest extracted (suc skipped)
        | some f ↦ item_files_loop item kind rest (extracted ++ (f ∷ [])) skipped
      ]

  -- What a download adds, by what it lists under "files".
  unfoldable pub listed_files : Fields → DownloadKind → Json → ℕ → List TorBoxFile × ℕ
  unfolding item_files_loop select_bluray_feature_files
  listed_files item kind (Json.array raw_files) skipped_count =
      let (extracted, skipped) = item_files_loop item kind raw_files [] skipped_count in
      let (selected, bluray_skipped) = select_bluray_feature_files u extracted in
      (selected, skipped + bluray_skipped)
  listed_files item kind _ skipped_count = ([], suc skipped_count)

  -- What a download adds.
  unfoldable pub item_files : Fields → DownloadKind → ℕ → List TorBoxFile × ℕ
  unfolding listed_files
  item_files item kind skipped_count =
      if is_false (get "cached" item)
      then ([], suc skipped_count)
      else listed_files item kind (get "files" item) skipped_count

  unfoldable pub extract_loop :
      List Fields → DownloadKind → List TorBoxFile → ℕ → ExtractedTorBoxFiles
  unfolding item_files
  extract_loop [] kind files skipped_count = record { files = files; skipped_count = skipped_count }
  extract_loop (item ∷ downloads) kind files skipped_count =
      let (selected, skipped) = item_files item kind skipped_count in
      extract_loop downloads kind (files ++ selected) skipped

  unfoldable pub extract_torbox_files : List Fields → DownloadKind → ExtractedTorBoxFiles
  unfolding extract_loop
  extract_torbox_files downloads kind = extract_loop downloads kind [] 0

  -- `for candidate in alternative_hashes`
  unfoldable pub first_info_hash : Items → Option String
  unfolding normalize_info_hash
  first_info_hash Items.nil = none
  first_info_hash (Items.cons candidate rest) =
      let later = first_info_hash rest in
      elim (normalize_info_hash u candidate) [ none ↦ later | some h ↦ some h ]

  unfoldable pub torrent_info_hash : Fields → Option String
  unfolding normalize_info_hash first_info_hash
  torrent_info_hash item = elim (normalize_info_hash u (get "hash" item)) [
    | some h ↦ some h
    | none ↦ elim (get "alternative_hashes" item) [
      | Json.array candidates ↦ first_info_hash candidates
      | _ ↦ none
    ]
  ]
