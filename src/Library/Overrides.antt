-- ===== src/Library/Overrides.antt =====
-- api/app/library/classification_override.py: an entry is moved to the category that was chosen for
-- its title, if it fits there. The prefixes of paths, which name the override that belongs to an
-- entry, are not modelled.
use strmline.Prelude.{
  ◌≡◌, refl, inl, inr, String, Bool, true, false, not, ◌&&◌, ◌||◌, Option, none, some,
  if◌then◌else◌, string_eq, Result, ok, ValueError, Bool-cases, arith,
}
use strmline.Domain.MediaIdentity.{LibraryCategory}
use strmline.Library.Entries.{
  LibraryEntry, is_given, is_negative, check_numbers, check_category, new_entry,
}

pub record LibraryClassificationOverride : Type 0 where
  pub source_category : LibraryCategory
  pub source_prefix : String
  pub title : String
  pub target_category : LibraryCategory

abbrev pub same_category : LibraryCategory → LibraryCategory → Bool
same_category LibraryCategory.movies LibraryCategory.movies = true
same_category LibraryCategory.shows LibraryCategory.shows = true
same_category LibraryCategory.anime LibraryCategory.anime = true
same_category _ _ = false

abbrev pub is_episode : LibraryEntry → Bool
is_episode entry = is_given entry.season_number || is_given entry.episode_number

unfoldable pub can_apply_target : LibraryEntry → LibraryCategory → Bool
can_apply_target entry LibraryCategory.movies = not (is_episode entry)
can_apply_target entry LibraryCategory.shows = is_episode entry
can_apply_target entry LibraryCategory.anime = true

-- The guards of `apply_classification_override` for an override that is given.
unfoldable pub applies : LibraryEntry → LibraryClassificationOverride → Bool
unfolding can_apply_target
applies entry override =
    same_category override.source_category entry.category
    && (not (same_category override.target_category entry.category)
        && can_apply_target entry override.target_category)

unfoldable pub apply_classification_override :
    (String → String)
    → LibraryEntry
    → Option LibraryClassificationOverride
    → Result ValueError LibraryEntry
unfolding applies new_entry
apply_classification_override strip entry none = ok entry
apply_classification_override strip entry (some override) =
    if applies entry override
    then new_entry strip (record entry { category = override.target_category })
    else ok entry

-- A movie that has one of the two numbers has both, and neither is negative.
abbrev pub BothOrNone : LibraryEntry → Type 0
BothOrNone entry =
    (is_given entry.season_number ≡ is_given entry.episode_number)
    × ((is_negative entry.season_number || is_negative entry.episode_number) ≡ false)

check-target :
    (entry : LibraryEntry) (c : LibraryCategory)
    → BothOrNone entry
    → can_apply_target entry c ≡ true
    → check_category c (record entry { category = c }) ≡ ok (record entry { category = c })
unfolding check_category check_numbers can_apply_target
check-target entry LibraryCategory.movies b h = refl
check-target entry LibraryCategory.shows b h = ground arith
check-target entry LibraryCategory.anime b h = ground arith

moved-valid :
    (strip : String → String) (entry : LibraryEntry) (c : LibraryCategory)
    → new_entry strip entry ≡ ok entry
    → BothOrNone entry
    → can_apply_target entry c ≡ true
    → new_entry strip (record entry { category = c }) ≡ ok (record entry { category = c })
unfolding new_entry
moved-valid strip entry c v b h = ground (arith, check-target entry c b h)

applies-can_apply :
    (entry : LibraryEntry) (override : LibraryClassificationOverride)
    → applies entry override ≡ true
    → can_apply_target entry override.target_category ≡ true
unfolding applies
applies-can_apply entry override h = ground arith

-- For a valid entry with both numbers or neither, none of them negative: the override never
-- raises; the result is the entry, in the chosen category if the override applies, and is valid.
pub override_valid :
    (strip : String → String) (entry : LibraryEntry) (override : LibraryClassificationOverride)
    → new_entry strip entry ≡ ok entry
    → BothOrNone entry
    → (apply_classification_override strip entry (some override)
        ≡ ok (
            if applies entry override
            then record entry { category = override.target_category }
            else entry))
      × (new_entry strip (
            if applies entry override
            then record entry { category = override.target_category }
            else entry)
          ≡ ok (
              if applies entry override
              then record entry { category = override.target_category }
              else entry))
unfolding apply_classification_override
override_valid strip entry override v b = elim (Bool-cases (applies entry override)) [
  | inl h ↦
      let m =
        moved-valid strip entry override.target_category v b (applies-can_apply entry override h) in
      rw h (m, m)
  | inr n ↦ rw n (refl, v)
]
