-- ===== src/Torbox/Files.antt =====
-- api/app/providers/torbox/files.py: the files that an answer of TorBox lists. Here: what a file is,
-- and which names are of videos that belong in a library. The Blu-ray selection and the extraction
-- from the JSON are in the modules below.
pub mod Bluray
pub mod Extract
use Prim.Native.Char.{code}
use strmline.Prelude.{
  ℕ, ◌*◌, String, Bool, true, false, not, ◌&&◌, ◌||◌, List, [], ◌∷◌, Option, none, some, Eq,
  if◌then◌else◌, ◌==◌, string_eq, ◌≡◌, ◌↔◌, nat_beq, leb, keep, any, contains, arith,
}
use Prim.Native.String.{◌++◌ as ◌followed_by◌}
use strmline.Prelude.Text.{
  Unicode, is_space, is_slash, is_path_separator, is_dot, strip, strip_right_by, split_by,
  after_last, before_last, starts_with, ends_with,
}
use strmline.Prelude.Json.{ℤ}

pub data DownloadKind : Type 0 where
  torrents : DownloadKind
  usenet : DownloadKind
  webdl : DownloadKind

abbrev pub kind_text : DownloadKind → String
kind_text DownloadKind.torrents = "torrents"
kind_text DownloadKind.usenet = "usenet"
kind_text DownloadKind.webdl = "webdl"

abbrev pub id_param_by_kind : DownloadKind → String
id_param_by_kind DownloadKind.torrents = "torrent_id"
id_param_by_kind DownloadKind.usenet = "usenet_id"
id_param_by_kind DownloadKind.webdl = "web_id"

abbrev pub video_extensions : List String
video_extensions =
    ".avi" ∷ ".m2ts" ∷ ".m4v" ∷ ".mkv" ∷ ".mov" ∷ ".mp4" ∷ ".mpeg" ∷ ".mpg" ∷ ".webm" ∷ ".wmv" ∷ []

abbrev pub small_sample_max_bytes : ℕ
small_sample_max_bytes = 250 * 1024 * 1024

abbrev pub named_extra_tokens : List String
named_extra_tokens = "ncop" ∷ "nced" ∷ "opening" ∷ "ending" ∷ []

pub record TorBoxFile : Type 0 where
  pub kind : DownloadKind
  pub item_id : String
  pub file_id : String
  pub folder_name : String
  pub file_name : String
  pub path : String
  pub mime_type : String
  pub size : Option ℤ

-- `urlencode` is the library's, on the parameters in order.
unfoldable pub request_download_url :
    (List (String × String) → String) → String → String → TorBoxFile → String
unfolding strip_right_by
request_download_url urlencode base_url api_key f =
    strip_right_by is_slash base_url
    followed_by "/"
    followed_by kind_text f.kind
    followed_by "/requestdl?"
    followed_by urlencode (
        ("token", api_key)
        ∷ (id_param_by_kind f.kind, f.item_id)
        ∷ ("file_id", f.file_id)
        ∷ ("redirect", "true")
        ∷ [])

-- `SEPARATORS`: `[._\-\s]`
unfoldable pub is_separator : ℕ → Bool
unfolding is_space
is_separator c = nat_beq c 46 || nat_beq c 95 || nat_beq c 45 || is_space c

unfoldable pub stem_of : String → String
unfolding after_last before_last
stem_of value = before_last is_dot (after_last is_path_separator value)

-- `size is None or size <= SMALL_SAMPLE_MAX_BYTES`
abbrev pub is_small : Option ℤ → Bool
is_small none = true
is_small (some (ℤ.pos n)) = leb n small_sample_max_bytes
is_small (some (ℤ.negsuc _)) = true

-- `name_tokens in (["sample"], ["sample2"])`
abbrev pub only_sample : List String → Bool
only_sample (t ∷ []) = t == "sample" || t == "sample2"
only_sample _ = false

module _ (u : Unicode) where
  unfoldable pub is_video : String → String → Bool
  is_video file_name mime_type =
      if not (mime_type == "")
      then starts_with "video/" mime_type
      else any (λ extension. ends_with extension (u.casefold file_name)) video_extensions

  unfoldable pub tokens : String → List String
  unfolding split_by is_separator stem_of
  tokens value = keep (λ t. not (t == "")) (split_by is_separator (u.casefold (stem_of value)))

  unfoldable pub is_sample_file : String → String → Option ℤ → Bool
  unfolding tokens
  is_sample_file file_name path size =
      if only_sample (tokens file_name)
      then true
      else if not (contains (tokens file_name) "sample") && not (contains (tokens path) "samples")
      then false
      else is_small size

  -- `\d` on a character
  abbrev is_digit : ℕ → Bool
  is_digit c = elim (u.digit_value c) [ none ↦ false | some _ ↦ true ]

  -- `[\s._-]*(?:op|ed|sp)` in lower case: the `\d*(?:\D|$)` behind it matches whatever follows.
  unfoldable pub extra_mark : String → Bool
  unfolding is_separator
  extra_mark String.[] = false
  extra_mark (String.◌∷◌ c s) =
      let rest = extra_mark s in
      if is_separator (code c)
      then rest
      else starts_with "op" (String.◌∷◌ c s)
        || starts_with "ed" (String.◌∷◌ c s)
        || starts_with "sp" (String.◌∷◌ c s)

  -- The second of `\d{1,2}`: where it is a digit no mark can begin, so it is taken.
  abbrev second_digit : String → Bool
  second_digit String.[] = false
  second_digit (String.◌∷◌ c s) =
      if is_digit (code c) then extra_mark s else extra_mark (String.◌∷◌ c s)

  abbrev first_digit : String → Bool
  first_digit String.[] = false
  first_digit (String.◌∷◌ c s) = is_digit (code c) && second_digit s

  -- `PACK_EXTRA.match` on a stem that `casefold` has put in lower case.
  unfoldable pub pack_extra : String → Bool
  unfolding extra_mark
  pack_extra String.[] = false
  pack_extra (String.◌∷◌ c s) = nat_beq (code c) 115 && first_digit s

  unfoldable pub is_pack_extra : String → Bool
  unfolding pack_extra tokens stem_of
  is_pack_extra file_name =
      pack_extra (u.casefold (stem_of file_name))
      || any (λ t. contains named_extra_tokens t) (tokens file_name)
