-- ===== src/Library/Journal.antt =====
-- api/app/library/mutation_journal.py: `LibraryMutationJournal`, which keeps the files that a sync
-- is about to change so that they can be restored, with `ensure_within_root` of
-- api/app/library/paths.py. A path is resolved: a list of names below the file system's root,
-- without symbolic links. The file system is what each path holds; directories are not modelled,
-- so neither is that a restoration removes those that are empty.
pub mod Rollback
pub mod Tracking
use strmline.Prelude.{
  ◌≡◌, ◌↔◌, String, Bool, true, false, ◌&&◌, List, [], ◌∷◌, ◌++◌, Option, none, some, if◌then◌else◌,
  Eq, ◌==◌, string_eq, eq_iff, Result, ok, raise, arith,
}
use strmline.Prelude.Dict.{Dict, lookup, insert, erase}

abbrev pub FilePath : Type 0
FilePath = List String

abbrev pub path_beq : FilePath → FilePath → Bool
path_beq [] [] = true
path_beq [] (_ ∷ _) = false
path_beq (_ ∷ _) [] = false
path_beq (x ∷ xs) (y ∷ ys) = x == y && path_beq xs ys

pub path_beq_iff : (p q : FilePath) → (path_beq p q ≡ true) ↔ (p ≡ q)
path_beq_iff [] [] = ground arith
path_beq_iff [] (y ∷ q) = ground arith
path_beq_iff (x ∷ p) [] = ground arith
path_beq_iff (x ∷ p) (y ∷ q) = ground (arith, path_beq_iff p q, eq_iff x y)

instance abbrev pub path_eq : Eq FilePath
path_eq = record { equal = path_beq; equal_iff = path_beq_iff }

abbrev pub Files : Type 0
Files = Dict FilePath String

-- `path.is_relative_to(root)` and `path.relative_to(root)`
abbrev pub is_within : FilePath → FilePath → Bool
is_within [] path = true
is_within (x ∷ root) [] = false
is_within (x ∷ root) (y ∷ path) = x == y && is_within root path

abbrev pub relative_to : FilePath → FilePath → FilePath
relative_to [] path = path
relative_to (x ∷ root) [] = []
relative_to (x ∷ root) (y ∷ path) = relative_to root path

-- `ValueError`, whose message names the path.
pub data OutsideRoot : Type 0 where
  outside_root : FilePath → OutsideRoot

unfoldable pub ensure_within_root : FilePath → FilePath → Result OutsideRoot FilePath
ensure_within_root root path = if is_within root path then ok path else raise (outside_root path)

-- For each relative path that is tracked, what it held, or that it did not exist.
pub record LibraryMutationJournal : Type 0 where
  pub root : FilePath
  pub originals : Dict FilePath (Option String)

abbrev pub create : FilePath → LibraryMutationJournal
create library_root = record { root = library_root; originals = [] }

-- A path that is tracked already keeps what was captured first.
unfoldable pub capture : Files → FilePath → LibraryMutationJournal → LibraryMutationJournal
unfolding lookup insert
capture files safe_path j = elim (lookup (relative_to j.root safe_path) j.originals) [
  | some _ ↦ j
  | none ↦ record j {
    originals = insert (relative_to j.root safe_path) (lookup safe_path files) j.originals;
  }
]

-- What `track` raises: `ValueError`, or `OSError` of `read_bytes`.
pub data TrackError : Type 0 where
  outside : OutsideRoot → TrackError
  unreadable : TrackError

-- Whether nothing is read, or what is read can be read.
unfoldable pub can_capture : (FilePath → Bool) → Files → FilePath → LibraryMutationJournal → Bool
unfolding lookup
can_capture can_read files safe_path j = elim (lookup (relative_to j.root safe_path) j.originals) [
  | some _ ↦ true
  | none ↦ elim (lookup safe_path files) [ none ↦ true | some _ ↦ can_read safe_path ]
]

unfoldable pub track :
    (FilePath → Bool)
    → Files
    → FilePath
    → LibraryMutationJournal
    → Result TrackError LibraryMutationJournal
unfolding ensure_within_root can_capture capture
track can_read files path j = elim (ensure_within_root j.root path) [
  | raise e ↦ raise (TrackError.outside e)
  | ok safe_path ↦
      if can_capture can_read files safe_path j
      then ok (capture files safe_path j)
      else raise TrackError.unreadable
]

-- `path.unlink(missing_ok=True)` or `atomic_write_bytes(path, content)`
unfoldable pub put_back : FilePath → Option String → Files → Files
unfolding insert erase
put_back path none files = erase path files
put_back path (some content) files = insert path content files

-- The loop of `restore`: the files when it ends or raises an `OSError`, and whether it has ended.
-- What is put back lies below the root, so that `ensure_within_root` does not raise here.
unfoldable pub restore_from :
    (FilePath → Bool) → FilePath → Dict FilePath (Option String) → Files → Files × Bool
unfolding put_back
restore_from can_restore root [] files = (files, true)
restore_from can_restore root ((relative_path, content) ∷ originals) files =
    elim (can_restore (root ++ relative_path)) [
      | false ↦ (files, false)
      | true ↦
          restore_from can_restore root originals (put_back (root ++ relative_path) content files)
    ]

-- `can_restore` tells where the file system lets a file be put back or removed.
unfoldable pub restore : (FilePath → Bool) → LibraryMutationJournal → Files → Files × Bool
unfolding restore_from
restore can_restore j files = restore_from can_restore j.root j.originals files
