-- ===== src/Torbox/Files/Bluray.antt =====
-- api/app/providers/torbox/files.py: the selection among the streams of one Blu-ray disc.
pub mod Grouping
pub mod Largest
pub mod Selection
use strmline.Prelude.{
  ℕ, suc, ◌+◌, ◌-◌, String, Bool, true, false, not, ◌&&◌, ◌||◌, List, [], ◌∷◌, ◌++◌, Option, none,
  some, if◌then◌else◌, ◌==◌, string_eq, ltb, nat_beq, keep, map, length,
}
use strmline.Prelude.Dict.{Dict, lookup, insert}
use strmline.Prelude.Text.{Unicode, is_path_separator, split_by, ends_with, join, last_of}
use strmline.Prelude.Json.{ℤ}
use strmline.Torbox.Files.{TorBoxFile}

abbrev pub min_bluray_stream_files : ℕ
min_bluray_stream_files = 2

-- A file object: its place in the list stands for its identity, which `is` compares.
abbrev pub Object : Type 0
Object = ℕ × TorBoxFile

-- `enumerate(files)`
unfoldable pub objects_from : ℕ → List TorBoxFile → List Object
objects_from n [] = []
objects_from n (f ∷ files) = (n, f) ∷ objects_from (suc n) files

-- The parts up to the `bdmv` of the first `bdmv/stream` that has a part behind it.
unfoldable pub disc_parts : List String → Option (List String)
disc_parts (a ∷ b ∷ c ∷ parts) =
    let rest = disc_parts (b ∷ c ∷ parts) in
    if a == "bdmv" && b == "stream"
    then some (a ∷ [])
    else elim rest [ none ↦ none | some front ↦ some (a ∷ front) ]
disc_parts (a ∷ b ∷ []) = none
disc_parts (a ∷ []) = none
disc_parts [] = none

module _ (u : Unicode) where
  unfoldable pub bluray_stream_group : String → Option String
  unfolding split_by disc_parts join
  bluray_stream_group path =
      let parts = map u.casefold (keep (λ p. not (p == "")) (split_by is_path_separator path)) in
      if not (ends_with ".m2ts" (last_of "" parts))
      then none
      else elim (disc_parts parts) [ none ↦ none | some front ↦ some (join "/" front) ]

  unfoldable pub is_bluray_stream_path : String → Bool
  unfolding bluray_stream_group
  is_bluray_stream_path path = elim (bluray_stream_group path) [ none ↦ false | some _ ↦ true ]

  -- The property `library_name`
  unfoldable pub library_name : TorBoxFile → String
  unfolding is_bluray_stream_path
  library_name f =
      if is_bluray_stream_path f.path && not (f.folder_name == "")
      then f.folder_name
      else f.file_name

-- `size is not None`
abbrev pub is_sized : Object → Bool
is_sized o = elim o.1.size [ none ↦ false | some _ ↦ true ]

abbrev pub int_lt : ℤ → ℤ → Bool
int_lt (ℤ.pos a) (ℤ.pos b) = ltb a b
int_lt (ℤ.pos a) (ℤ.negsuc b) = false
int_lt (ℤ.negsuc a) (ℤ.pos b) = true
int_lt (ℤ.negsuc a) (ℤ.negsuc b) = ltb b a

-- `candidate.size or 0`
abbrev pub size_key : Object → ℤ
size_key o = elim o.1.size [ none ↦ ℤ.pos 0 | some n ↦ n ]

-- `max(..., key=...)`: the first of the largest.
unfoldable pub largest : Object → List Object → Object
largest best [] = best
largest best (o ∷ os) =
    if int_lt (size_key best) (size_key o) then largest o os else largest best os

-- What a group keeps, if it is reduced.
unfoldable pub selection : List Object → Option Object
unfolding largest
selection candidates =
    if ltb (length candidates) min_bluray_stream_files
    then none
    else elim (keep is_sized candidates) [ [] ↦ none | o ∷ os ↦ some (largest o os) ]

-- `groups.setdefault(group, []).append(torbox_file)`
unfoldable pub append_to_group :
    String → Object → Dict String (List Object) → Dict String (List Object)
unfolding lookup insert
append_to_group group o groups = elim (lookup group groups) [
  | none ↦ insert group (o ∷ []) groups
  | some candidates ↦ insert group (candidates ++ (o ∷ [])) groups
]

-- The loop over the groups; their names differ, so that each selection is a new entry.
unfoldable pub selected_by_group : Dict String (List Object) → Dict String Object × ℕ
unfolding selection
selected_by_group [] = ([], 0)
selected_by_group ((group, candidates) ∷ groups) =
    let rest = selected_by_group groups in
    elim (selection candidates) [
      | none ↦ rest
      | some selected ↦ ((group, selected) ∷ rest.0, length candidates - 1 + rest.1)
    ]

-- `group not in selected_by_group or torbox_file is selected_by_group[group]`
unfoldable pub is_kept : Dict String Object → Option String → Object → Bool
unfolding lookup
is_kept selected none o = true
is_kept selected (some group) o = elim (lookup group selected) [
  | none ↦ true
  | some s ↦ nat_beq o.0 s.0
]

module _ (u : Unicode) where
  unfoldable pub group_files : List Object → Dict String (List Object) → Dict String (List Object)
  unfolding bluray_stream_group append_to_group
  group_files [] groups = groups
  group_files (o ∷ os) groups = group_files os (elim (bluray_stream_group u o.1.path) [
    | none ↦ groups
    | some group ↦ append_to_group group o groups
  ])

  abbrev pub keep_selected : Dict String Object → List Object → List Object
  keep_selected selected os = keep (λ o. is_kept selected (bluray_stream_group u o.1.path) o) os

  unfoldable pub select_bluray_feature_files : List TorBoxFile → List TorBoxFile × ℕ
  unfolding objects_from group_files selected_by_group is_kept
  select_bluray_feature_files files =
      let objects = objects_from 0 files in
      let (selected, skipped_count) = selected_by_group (group_files objects []) in
      (map (λ o. o.1) (keep_selected selected objects), skipped_count)
