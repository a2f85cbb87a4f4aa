-- ===== src/Domain/MediaIdentity.antt =====
-- api/app/domain/media_identity.py: categories of the library, kinds of media, and how much an
-- identity is trusted. The functions that accept an enumeration or its text are given for the
-- enumeration; `strip` stands for `str.strip`.
use strmline.Prelude.{
  ℕ, ◌≡◌, ◌↔◌, refl, String, Bool, true, false, if◌then◌else◌, ◌==◌, string_eq, Result, ok, raise,
  ◌>>=◌, leb, arith,
}

pub data LibraryCategory : Type 0 where
  movies : LibraryCategory
  shows : LibraryCategory
  anime : LibraryCategory

pub data ContentKind : Type 0 where
  movie : ContentKind
  series : ContentKind

pub data ProviderMediaKind : Type 0 where
  movie : ProviderMediaKind
  tv : ProviderMediaKind

pub data IdentityAuthority : Type 0 where
  manual : IdentityAuthority
  search_confirmed : IdentityAuthority
  provider_resolved : IdentityAuthority
  migrated : IdentityAuthority
  fallback : IdentityAuthority

pub data ResolutionStatus : Type 0 where
  resolved : ResolutionStatus
  no_match : ResolutionStatus
  provider_error : ResolutionStatus

-- A `ValueError` and the text that it names.
pub data Invalid : Type 0 where
  invalid_category : String → Invalid
  invalid_search_type : String → Invalid
  provider_required : Invalid
  external_required : Invalid

unfoldable pub authoritative : IdentityAuthority → Bool
authoritative IdentityAuthority.manual = true
authoritative IdentityAuthority.search_confirmed = true
authoritative IdentityAuthority.provider_resolved = false
authoritative IdentityAuthority.migrated = false
authoritative IdentityAuthority.fallback = false

unfoldable pub identity_authority_priority : IdentityAuthority → ℕ
identity_authority_priority IdentityAuthority.manual = 50
identity_authority_priority IdentityAuthority.search_confirmed = 40
identity_authority_priority IdentityAuthority.migrated = 30
identity_authority_priority IdentityAuthority.provider_resolved = 20
identity_authority_priority IdentityAuthority.fallback = 0

pub record ExternalMediaIdentity : Type 0 where
  pub provider : String
  pub provider_kind : ProviderMediaKind
  pub external_id : String

unfoldable pub new_external_identity :
    (String → String) → String → ProviderMediaKind → String → Result Invalid ExternalMediaIdentity
new_external_identity strip provider provider_kind external_id =
    if strip provider == ""
    then raise provider_required
    else if strip external_id == ""
    then raise external_required
    else ok
        (record { provider = provider; provider_kind = provider_kind; external_id = external_id })

-- The text of a category, which is its name.
abbrev pub category_text : LibraryCategory → String
category_text LibraryCategory.movies = "movies"
category_text LibraryCategory.shows = "shows"
category_text LibraryCategory.anime = "anime"

unfoldable pub parse_library_category : String → Result Invalid LibraryCategory
parse_library_category category =
    if category == "movies"
    then ok LibraryCategory.movies
    else if category == "shows"
    then ok LibraryCategory.shows
    else if category == "anime"
    then ok LibraryCategory.anime
    else raise (invalid_category category)

-- `ContentKind.MOVIE if parsed == "movies" else ContentKind.SERIES`
abbrev pub kind_of : LibraryCategory → ContentKind
kind_of LibraryCategory.movies = ContentKind.movie
kind_of LibraryCategory.shows = ContentKind.series
kind_of LibraryCategory.anime = ContentKind.series

unfoldable pub content_kind_for_category : String → Result Invalid ContentKind
unfolding parse_library_category
content_kind_for_category category = elim (parse_library_category category) [
  | ok parsed ↦ ok (kind_of parsed)
  | raise e ↦ raise e
]

unfoldable pub provider_kind_for_content : ContentKind → ProviderMediaKind
provider_kind_for_content ContentKind.movie = ProviderMediaKind.movie
provider_kind_for_content ContentKind.series = ProviderMediaKind.tv

unfoldable pub provider_kind_for_search : String → Result Invalid ProviderMediaKind
provider_kind_for_search media_type =
    if media_type == "movie"
    then ok ProviderMediaKind.movie
    else if media_type == "series"
    then ok ProviderMediaKind.tv
    else raise (invalid_search_type media_type)

unfoldable pub content_kind_for_provider : ProviderMediaKind → ContentKind
content_kind_for_provider ProviderMediaKind.movie = ContentKind.movie
content_kind_for_provider ProviderMediaKind.tv = ContentKind.series

-- `"movie" if parse_library_category(category) == "movies" else "series"`
abbrev pub media_type_of : LibraryCategory → String
media_type_of LibraryCategory.movies = "movie"
media_type_of LibraryCategory.shows = "series"
media_type_of LibraryCategory.anime = "series"

unfoldable pub search_media_type_for_category : String → Result Invalid String
unfolding parse_library_category
search_media_type_for_category category = elim (parse_library_category category) [
  | ok parsed ↦ ok (media_type_of parsed)
  | raise e ↦ raise e
]

searched :
    (c : LibraryCategory)
    → provider_kind_for_search (media_type_of c) ≡ ok (provider_kind_for_content (kind_of c))
unfolding provider_kind_for_search provider_kind_for_content
searched LibraryCategory.movies = refl
searched LibraryCategory.shows = refl
searched LibraryCategory.anime = refl

returned :
    (c : LibraryCategory)
    → content_kind_for_provider (provider_kind_for_content (kind_of c)) ≡ kind_of c
unfolding content_kind_for_provider provider_kind_for_content
returned LibraryCategory.movies = refl
returned LibraryCategory.shows = refl
returned LibraryCategory.anime = refl

-- The two ways from the text of a category to the provider's kind agree, on errors too: by the
-- search type, and by the kind of content.
pub kinds_agree :
    (category : String)
    → (search_media_type_for_category category >>= provider_kind_for_search)
      ≡ (content_kind_for_category category >>= λ kind. ok (provider_kind_for_content kind))
unfolding search_media_type_for_category content_kind_for_category
kinds_agree category =
    elim (parse_library_category category)
      as (λ r.
        (elim r [ ok parsed ↦ ok (media_type_of parsed) | raise e ↦ raise e ]
          >>= provider_kind_for_search)
        ≡ (elim r [ ok parsed ↦ ok (kind_of parsed) | raise e ↦ raise e ] >>= λ kind.
            ok (provider_kind_for_content kind))) [ ok parsed ↦ searched parsed | raise e ↦ refl ]

-- Each authority has a priority of its own, and the authoritative ones are those of at least 40.
pub priority_inj :
    (a b : IdentityAuthority)
    → ((identity_authority_priority a ≡ identity_authority_priority b) ↔ (a ≡ b))
      × (authoritative a ≡ leb 40 (identity_authority_priority a))
unfolding identity_authority_priority authoritative
priority_inj a b = ground arith
