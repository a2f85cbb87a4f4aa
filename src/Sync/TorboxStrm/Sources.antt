-- ===== src/Sync/TorboxStrm/Sources.antt =====
-- api/app/sync/torbox_strm.py: what is compared between a file of TorBox and the one that was
-- written for it before, and what an identity makes of an entry. `sha256` stands for the digest of
-- a text in hexadecimal digits.
pub mod Same
use strmline.Prelude.{
  ◌≡◌, ◌↔◌, String, Bool, true, false, ◌&&◌, ◌||◌, List, [], ◌∷◌, Option, none, some, if◌then◌else◌,
  Eq, ◌==◌, string_eq, nat_beq, eq_iff, ltb, Result, ValueError, arith,
}
use Prim.Native.String.{count, ◌++◌ as ◌followed_by◌}
use strmline.Prelude.Dict.{Dict, lookup, insert}
use strmline.Prelude.Text.{Unicode, strip}
use strmline.Prelude.Json.{Json, Fields, ℤ, get, str_of_int}
use strmline.Domain.MediaIdentity.{
  LibraryCategory, IdentityAuthority, ResolutionStatus, category_text,
}
use strmline.Library.Entries.{LibraryEntry, new_entry, is_given}
use strmline.Library.Journal.{FilePath}
use strmline.Torbox.Files.{TorBoxFile, kind_text}
use strmline.Torbox.Files.Extract.{bool_text, or_else, torrent_info_hash}
use strmline.Sync.TorboxStrm.{SyncDiagnostic, SyncedStrmFile}

-- `MediaIdentity` of api/app/sync/media_identity.py
pub record MediaIdentity : Type 0 where
  pub tmdb_id : Option String
  pub title : String
  pub year : Option ℤ
  pub media_type : String
  pub poster_path : Option String
  pub authority : IdentityAuthority
  pub status : ResolutionStatus
  pub confidence : Option ℤ
  pub resolver_version : String
  pub library_category : Option LibraryCategory

abbrev pub same_int : ℤ → ℤ → Bool
same_int (ℤ.pos a) (ℤ.pos b) = nat_beq a b
same_int (ℤ.negsuc a) (ℤ.negsuc b) = nat_beq a b
same_int _ _ = false

-- `a == b` for values that may be `None`
abbrev pub same_option {ℓ} : {A : Type ℓ} → (A → A → Bool) → Option A → Option A → Bool
same_option same none none = true
same_option same (some a) (some b) = same a b
same_option same _ _ = false

abbrev pub same_text : Option String → Option String → Bool
same_text = same_option (λ a b. a == b)

-- `_source_file_key`
pub record SourceFileKey : Type 0 where
  pub kind : String
  pub item_id : String
  pub file_id : String

unfoldable pub source_file_key : TorBoxFile → SourceFileKey
source_file_key f = record { kind = kind_text f.kind; item_id = f.item_id; file_id = f.file_id }

abbrev pub key_beq : SourceFileKey → SourceFileKey → Bool
key_beq a b = a.kind == b.kind && a.item_id == b.item_id && a.file_id == b.file_id

pub key_beq_iff : (a b : SourceFileKey) → (key_beq a b ≡ true) ↔ (a ≡ b)
key_beq_iff a b =
    ground (arith, eq_iff a.kind b.kind, eq_iff a.item_id b.item_id, eq_iff a.file_id b.file_id)

instance abbrev pub key_eq : Eq SourceFileKey
key_eq = record { equal = key_beq; equal_iff = key_beq_iff }

unfoldable pub same_source_file : SyncedStrmFile → TorBoxFile → Option String → Bool
same_source_file cached current info_hash =
    cached.provider == kind_text current.kind
    && cached.provider_item_id == current.item_id
    && cached.provider_file_id == current.file_id
    && cached.provider_item_name == current.folder_name
    && cached.provider_file_name == current.file_name
    && cached.provider_file_path == current.path
    && cached.provider_file_mime_type == current.mime_type
    && same_option same_int cached.provider_file_size current.size
    && same_text cached.info_hash info_hash

-- `current.library_category is None or ...`
abbrev pub has_category : Option LibraryCategory → SyncedStrmFile → Bool
has_category none cached = true
has_category (some category) cached = cached.category == category_text category

unfoldable pub same_identity : SyncedStrmFile → Option MediaIdentity → Bool
same_identity cached none = same_text cached.tmdb_id none
same_identity cached (some current) =
    same_text cached.tmdb_id current.tmdb_id
    && cached.title == current.title
    && same_option same_int cached.year current.year
    && same_text cached.tmdb_poster_path current.poster_path
    && has_category current.library_category cached

module _ (strip : String → String) where
  -- `_should_check_anilist`
  unfoldable pub should_check_anilist : LibraryEntry → Bool
  should_check_anilist entry = is_given entry.year || ltb 1 (count (strip entry.title))

-- `_category_from_identity`
unfoldable pub category_from_identity : LibraryEntry → String → LibraryCategory
category_from_identity entry media_type = elim entry.category [
  | LibraryCategory.anime ↦ LibraryCategory.anime
  | LibraryCategory.movies ↦
      if media_type == "tv" && is_given entry.season_number
      then LibraryCategory.shows
      else LibraryCategory.movies
  | LibraryCategory.shows ↦ LibraryCategory.shows
]

-- `identity.library_category or ...`
abbrev pub or_category : Option LibraryCategory → LibraryCategory → LibraryCategory
or_category none other = other
or_category (some category) other = category

-- `_entry_with_identity`: making the entry checks its fields.
unfoldable pub entry_with_identity :
    (String → String) → LibraryEntry → MediaIdentity → Result ValueError LibraryEntry
unfolding new_entry category_from_identity
entry_with_identity strip entry identity = new_entry strip (record {
  category =
      or_category identity.library_category (category_from_identity entry identity.media_type);
  title = identity.title;
  resolver_url = entry.resolver_url;
  year = identity.year;
  season_number = entry.season_number;
  episode_number = entry.episode_number;
})

unfoldable pub no_match_diagnostic : String → SyncDiagnostic
no_match_diagnostic title = record {
  phase = "metadata_match";
  item_ref = some title;
  message =
      "No confident TMDB match was found. The existing library item was preserved; "
      followed_by "set its TMDB ID manually if the title remains unmatched.";
}

unfoldable pub provider_error_diagnostic : String → SyncDiagnostic
provider_error_diagnostic title = record {
  phase = "metadata_provider";
  item_ref = some title;
  message = "TMDB lookup failed. The item was skipped and existing library state was preserved.";
}

-- `identity.authority if identity is not None else ...`
abbrev pub authority_of : Option MediaIdentity → IdentityAuthority
authority_of none = IdentityAuthority.fallback
authority_of (some identity) = identity.authority

abbrev pub confidence_of : Option MediaIdentity → Option ℤ
confidence_of none = none
confidence_of (some identity) = identity.confidence

abbrev pub version_of : Option MediaIdentity → Option String
version_of none = none
version_of (some identity) = some identity.resolver_version

module _ (sha256 : String → String) where
  unfoldable pub synced_file :
      FilePath
      → String
      → LibraryEntry
      → TorBoxFile
      → Option String
      → Option String
      → Option String
      → String
      → Option MediaIdentity
      → Option String
      → SyncedStrmFile
  synced_file path entry_id entry f info_hash tmdb_id tmdb_poster_path source_title identity
        fingerprint =
      record {
        path = path;
        entry_id = entry_id;
        category = category_text entry.category;
        title = entry.title;
        year = entry.year;
        season_number = entry.season_number;
        episode_number = entry.episode_number;
        provider = kind_text f.kind;
        provider_item_id = f.item_id;
        provider_file_id = f.file_id;
        content_hash = sha256 entry.resolver_url;
        tmdb_id = tmdb_id;
        tmdb_poster_path = tmdb_poster_path;
        provider_item_name = f.folder_name;
        provider_file_name = f.file_name;
        provider_file_path = f.path;
        provider_file_mime_type = f.mime_type;
        provider_file_size = f.size;
        info_hash = info_hash;
        source_title = or_else source_title entry.title;
        identity_authority = authority_of identity;
        identity_confidence = confidence_of identity;
        identity_resolver_version = version_of identity;
        processing_fingerprint = fingerprint;
        reused = false;
      }

-- `str(item_id).strip()` where the identifier is an `int` or a `str`
abbrev pub normalized_id : Json → String
normalized_id (Json.text id) = id
normalized_id (Json.integer id) = str_of_int id
normalized_id (Json.boolean id) = bool_text id
normalized_id _ = ""

-- The loop of `_torrent_hashes`, with the hashes that it has found.
unfoldable pub torrent_hashes_loop : Unicode → List Fields → Dict String String → Dict String String
unfolding strip torrent_info_hash insert
torrent_hashes_loop u [] hashes = hashes
torrent_hashes_loop u (item ∷ downloads) hashes =
    let id = strip (normalized_id (get "id" item)) in
    torrent_hashes_loop u downloads (elim (torrent_info_hash u item) [
      | none ↦ hashes
      | some info_hash ↦ if id == "" then hashes else insert id info_hash hashes
    ])

unfoldable pub torrent_hashes : Unicode → List Fields → Dict String String
unfolding torrent_hashes_loop
torrent_hashes u downloads = torrent_hashes_loop u downloads []

-- `_selected_media_identity`
unfoldable pub selected_media_identity :
    Unicode
    → Dict String MediaIdentity
    → Dict String MediaIdentity
    → String
    → Option String
    → Option MediaIdentity
unfolding lookup
selected_media_identity u by_torrent_id by_info_hash torrent_id info_hash =
    elim (lookup torrent_id by_torrent_id) [
      | some identity ↦ some identity
      | none ↦ elim info_hash [ none ↦ none | some h ↦ lookup (u.casefold h) by_info_hash ]
    ]
