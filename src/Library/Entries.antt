-- ===== src/Library/Entries.antt =====
-- api/app/library/entries.py: `LibraryEntry`, whose fields are checked when it is made. `strip`
-- stands for `str.strip`.
use strmline.Prelude.{
  String, Bool, true, false, not, ◌&&◌, ◌||◌, Option, none, some, if◌then◌else◌, ◌==◌, string_eq,
  Result, ok, raise, ValueError, value_error,
}
use strmline.Prelude.Json.{ℤ}
use strmline.Domain.MediaIdentity.{LibraryCategory}

pub record LibraryEntry : Type 0 where
  pub category : LibraryCategory
  pub title : String
  pub resolver_url : String
  pub year : Option ℤ
  pub season_number : Option ℤ
  pub episode_number : Option ℤ

abbrev pub is_given : Option ℤ → Bool
is_given none = false
is_given (some _) = true

-- `number < 0`, for a number that is given
abbrev pub is_negative : Option ℤ → Bool
is_negative none = false
is_negative (some (ℤ.pos _)) = false
is_negative (some (ℤ.negsuc _)) = true

-- The checks of a series.
unfoldable pub check_numbers : LibraryEntry → Result ValueError LibraryEntry
check_numbers entry =
    if not (is_given entry.season_number) || not (is_given entry.episode_number)
    then raise (value_error "Series entries require season and episode numbers.")
    else if is_negative entry.season_number || is_negative entry.episode_number
    then raise (value_error "Season and episode numbers cannot be negative.")
    else ok entry

-- The checks by category.
unfoldable pub check_category : LibraryCategory → LibraryEntry → Result ValueError LibraryEntry
unfolding check_numbers
check_category LibraryCategory.movies entry = ok entry
check_category LibraryCategory.anime entry =
    if not (is_given entry.season_number) && not (is_given entry.episode_number)
    then ok entry
    else check_numbers entry
check_category LibraryCategory.shows entry = check_numbers entry

-- `__post_init__`
unfoldable pub new_entry : (String → String) → LibraryEntry → Result ValueError LibraryEntry
unfolding check_category
new_entry strip entry =
    if strip entry.title == ""
    then raise (value_error "Library entry title is required.")
    else if strip entry.resolver_url == ""
    then raise (value_error "Library entry resolver URL is required.")
    else check_category entry.category entry
