-- ===== src/Sync/TorboxStrm/Sources/Same.antt =====
-- api/app/sync/torbox_strm.py: what `_same_source_file` and `_same_identity` compare, field by field.
use strmline.Prelude.{
  ◌≡◌, refl, ◌↔◌, String, Bool, true, false, ◌&&◌, Option, none, some, ◌==◌, string_eq, eq_iff,
  nat_beq_iff, arith,
}
use strmline.Prelude.Json.{ℤ}
use strmline.Domain.MediaIdentity.{LibraryCategory, category_text}
use strmline.Torbox.Files.{TorBoxFile, kind_text}
use strmline.Sync.TorboxStrm.{SyncedStrmFile}
use strmline.Sync.TorboxStrm.Sources.{
  MediaIdentity, same_int, same_option, same_text, same_source_file, has_category, same_identity,
}

-- What was written says of its source what TorBox says of the file now.
abbrev pub IsSameSource : SyncedStrmFile → TorBoxFile → Option String → Type 0
IsSameSource cached current info_hash =
    (cached.provider ≡ kind_text current.kind)
    × (cached.provider_item_id ≡ current.item_id)
    × (cached.provider_file_id ≡ current.file_id)
    × (cached.provider_item_name ≡ current.folder_name)
    × (cached.provider_file_name ≡ current.file_name)
    × (cached.provider_file_path ≡ current.path)
    × (cached.provider_file_mime_type ≡ current.mime_type)
    × (cached.provider_file_size ≡ current.size)
    × (cached.info_hash ≡ info_hash)

-- The category of the identity, if it has one.
abbrev pub IsSameCategory : SyncedStrmFile → Option LibraryCategory → Type 0
IsSameCategory cached none = Unit {0}
IsSameCategory cached (some category) = cached.category ≡ category_text category

-- What was written has the identity that is selected, or none where none is selected.
abbrev pub IsSameIdentity : SyncedStrmFile → Option MediaIdentity → Type 0
IsSameIdentity cached none = cached.tmdb_id ≡ none
IsSameIdentity cached (some current) =
    (cached.tmdb_id ≡ current.tmdb_id)
    × (cached.title ≡ current.title)
    × (cached.year ≡ current.year)
    × (cached.tmdb_poster_path ≡ current.poster_path)
    × IsSameCategory cached current.library_category

pub both_iff {ℓ κ} :
    {P : Type ℓ} {Q : Type κ} (a b : Bool)
    → (a ≡ true) ↔ P
    → (b ≡ true) ↔ Q
    → ((a && b) ≡ true) ↔ (P × Q)
both_iff true true p q = (λ _. (p.0 refl, q.0 refl), λ _. refl)
both_iff true false p q = (λ h. absurd (ground (arith, h)), λ h. q.1 h.1)
both_iff false b p q = (λ h. absurd (ground (arith, h)), λ h. p.1 h.0)

same_int_iff : (a b : ℤ) → (same_int a b ≡ true) ↔ (a ≡ b)
same_int_iff (ℤ.pos a) (ℤ.pos b) = ground (arith, nat_beq_iff a b)
same_int_iff (ℤ.negsuc a) (ℤ.negsuc b) = ground (arith, nat_beq_iff a b)
same_int_iff (ℤ.pos a) (ℤ.negsuc b) = ground arith
same_int_iff (ℤ.negsuc a) (ℤ.pos b) = ground arith

module _ {A : Type 0} (same : A → A → Bool)
    (same_iff : (a b : A) → (same a b ≡ true) ↔ (a ≡ b)) where
  same_option_iff : (a b : Option A) → (same_option same a b ≡ true) ↔ (a ≡ b)
  same_option_iff none none = (λ _. refl, λ _. refl)
  same_option_iff none (some b) = ground arith
  same_option_iff (some a) none = ground arith
  same_option_iff (some a) (some b) = ground (arith, same_iff a b)

pub same_text_iff : (a b : Option String) → (same_text a b ≡ true) ↔ (a ≡ b)
same_text_iff = same_option_iff (λ a b. a == b) eq_iff

pub sources_agree :
    (cached : SyncedStrmFile) (current : TorBoxFile) (info_hash : Option String)
    → (same_source_file cached current info_hash ≡ true) ↔ IsSameSource cached current info_hash
unfolding same_source_file
sources_agree cached current info_hash =
    let left =
      both_iff _ _
        (both_iff _ _
          (both_iff _ _
            (both_iff _ _
              (both_iff _ _
                (both_iff _ _
                  (both_iff _ _
                    (both_iff _ _ (eq_iff cached.provider (kind_text current.kind))
                      (eq_iff cached.provider_item_id current.item_id))
                    (eq_iff cached.provider_file_id current.file_id))
                  (eq_iff cached.provider_item_name current.folder_name))
                (eq_iff cached.provider_file_name current.file_name))
              (eq_iff cached.provider_file_path current.path))
            (eq_iff cached.provider_file_mime_type current.mime_type))
          (same_option_iff same_int same_int_iff cached.provider_file_size current.size))
        (same_text_iff cached.info_hash info_hash) in
    (
      λ h. let ((((((((a, b), c), d), e), f), g), h), i) = left.0 h in (a, b, c, d, e, f, g, h, i),
      λ (a, b, c, d, e, f, g, h, i). left.1 ((((((((a, b), c), d), e), f), g), h), i),
    )

categories_agree :
    (category : Option LibraryCategory) (cached : SyncedStrmFile)
    → (has_category category cached ≡ true) ↔ IsSameCategory cached category
categories_agree none cached = (λ _. tt, λ _. refl)
categories_agree (some category) cached = eq_iff cached.category (category_text category)

pub identities_agree :
    (cached : SyncedStrmFile) (selected : Option MediaIdentity)
    → (same_identity cached selected ≡ true) ↔ IsSameIdentity cached selected
unfolding same_identity
identities_agree cached none = same_text_iff cached.tmdb_id none
identities_agree cached (some current) =
    let left =
      both_iff _ _
        (both_iff _ _
          (both_iff _ _
            (both_iff _ _ (same_text_iff cached.tmdb_id current.tmdb_id)
              (eq_iff cached.title current.title))
            (same_option_iff same_int same_int_iff cached.year current.year))
          (same_text_iff cached.tmdb_poster_path current.poster_path))
        (categories_agree current.library_category cached) in
    (
      λ h. let ((((a, b), c), d), e) = left.0 h in (a, b, c, d, e),
      λ (a, b, c, d, e). left.1 ((((a, b), c), d), e),
    )
