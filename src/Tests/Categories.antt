-- ===== src/Tests/Categories.antt =====
-- A movie that is moved to the anime category, and the kinds of a category.
use strmline.Prelude.{◌≡◌, refl, String, none, some, if◌then◌else◌, ok, ◌>>=◌}
use strmline.Domain.MediaIdentity.{
  LibraryCategory, search_media_type_for_category, provider_kind_for_search,
  content_kind_for_category, provider_kind_for_content, kinds_agree,
}
use strmline.Library.Entries.{LibraryEntry, new_entry}
use strmline.Library.Overrides.{
  LibraryClassificationOverride, applies, apply_classification_override, override_valid,
}

-- Texts without space at the ends.
abbrev strip : String → String
strip text = text

abbrev film : LibraryEntry
film = record {
  category = LibraryCategory.movies;
  title = "Film";
  resolver_url = "http://host/play/1";
  year = none;
  season_number = none;
  episode_number = none;
}

abbrev to_anime : LibraryClassificationOverride
to_anime = record {
  source_category = LibraryCategory.movies;
  source_prefix = "movies/Film";
  title = "Film";
  target_category = LibraryCategory.anime;
}

film_valid : new_entry strip film ≡ ok film
unfolding new_entry
film_valid = refl

override_valid_example :
    (apply_classification_override strip film (some to_anime)
      ≡ ok (
          if applies film to_anime then record film { category = LibraryCategory.anime } else film))
    × (new_entry strip
          (if applies film to_anime then record film { category = LibraryCategory.anime } else film)
        ≡ ok (
            if applies film to_anime
            then record film { category = LibraryCategory.anime }
            else film))
override_valid_example = override_valid strip film to_anime film_valid (refl, refl)

kinds_agree_example :
    (search_media_type_for_category "anime" >>= provider_kind_for_search)
    ≡ (content_kind_for_category "anime" >>= λ kind. ok (provider_kind_for_content kind))
kinds_agree_example = kinds_agree "anime"
