-- ===== src/Domain/Normalization.antt =====
-- api/app/domain/normalization.py: how info hashes and paths are compared.
use Prim.Native.Char.{code}
use Prim.Native.String.{count}
use strmline.Prelude.{
  ℕ, String, Bool, true, ◌&&◌, ◌||◌, Option, none, some, if◌then◌else◌, leb, nat_beq,
}
use strmline.Prelude.Text.{Unicode, strip, strip_by, is_slash, replace_char}
use strmline.Prelude.Json.{Json}

-- `[A-Za-z0-9]`
abbrev pub is_alphanumeric : ℕ → Bool
is_alphanumeric c = (leb 65 c && leb c 90) || (leb 97 c && leb c 122) || (leb 48 c && leb c 57)

abbrev pub all_alphanumeric : String → Bool
all_alphanumeric String.[] = true
all_alphanumeric (String.◌∷◌ c s) = is_alphanumeric (code c) && all_alphanumeric s

-- `INFO_HASH_PATTERN.fullmatch`
unfoldable pub is_info_hash : String → Bool
is_info_hash s = all_alphanumeric s && leb 20 (count s) && leb (count s) 100

-- `re.sub(r"/+", "/", s)`
unfoldable pub collapse_slashes : String → String
collapse_slashes String.[] = ""
collapse_slashes (String.◌∷◌ c String.[]) = String.◌∷◌ c ""
collapse_slashes (String.◌∷◌ c (String.◌∷◌ d s)) =
    let rest = collapse_slashes (String.◌∷◌ d s) in
    if nat_beq (code c) 47 && nat_beq (code d) 47 then rest else String.◌∷◌ c rest

module _ (u : Unicode) where
  unfoldable pub normalize_info_hash : Json → Option String
  unfolding strip is_info_hash
  normalize_info_hash (Json.text value) =
      if is_info_hash (strip value) then some (u.casefold (strip value)) else none
  normalize_info_hash _ = none

  unfoldable pub normalize_source_path : String → String
  unfolding strip_by collapse_slashes
  normalize_source_path value =
      collapse_slashes (u.casefold (strip_by is_slash (replace_char 92 "/" value)))
