-- ===== src/Library/Health.antt =====
-- api/app/library/health.py: which library entries TorBox can still play. What TorBox answers, the
-- hashes that it holds and which others are cached, comes from arguments.
pub mod Partition
use strmline.Prelude.{
  ℕ, ◌+◌, String, Bool, true, false, not, ◌&&◌, List, [], ◌∷◌, Option, none, some, if◌then◌else◌,
  ◌==◌, nat_eq, string_eq, string_lt, sort_by, contains, keep, length,
}
use strmline.Prelude.Dict.{Dict, lookup, insert}

-- `LibraryHealthSource`, with what is read of it.
pub record LibraryHealthSource : Type 0 where
  pub library_entry_id : ℕ
  pub source_kind : Option String
  pub info_hash : Option String

pub data LibraryHealthStatus : Type 0 where
  ready : LibraryHealthStatus
  recoverable : LibraryHealthStatus
  unavailable : LibraryHealthStatus
  unknown : LibraryHealthStatus

-- The counts of the statuses.
pub record Counts : Type 0 where
  pub ready_count : ℕ
  pub recoverable_count : ℕ
  pub unavailable_count : ℕ
  pub unknown_count : ℕ

abbrev pub no_counts : Counts
no_counts = record {
  ready_count = 0;
  recoverable_count = 0;
  unavailable_count = 0;
  unknown_count = 0;
}

pub record LibraryHealthCheckResult : Type 0 where
  pub checked_entries : ℕ
  pub distinct_hashes : ℕ
  pub counts : Counts

-- `source_kind == "torrents"`
abbrev pub is_torrents : Option String → Bool
is_torrents none = false
is_torrents (some kind) = kind == "torrents"

-- The hash of a source that is a torrent.
abbrev pub torrent_hash : LibraryHealthSource → Option String
torrent_hash source = if is_torrents source.source_kind then source.info_hash else none

abbrev pub add_hash : Option String → List String → List String
add_hash none hashes = hashes
add_hash (some info_hash) hashes = if contains hashes info_hash then hashes else info_hash ∷ hashes

abbrev pub hash_set : List LibraryHealthSource → List String
hash_set [] = []
hash_set (source ∷ sources) = add_hash (torrent_hash source) (hash_set sources)

-- `sorted` of the set
abbrev pub hashes_of : List LibraryHealthSource → List String
hashes_of sources = sort_by string_lt (hash_set sources)

-- `cached.get(info_hash, False)`
abbrev pub is_cached : Option Bool → Bool
is_cached none = false
is_cached (some b) = b

unfoldable pub source_status :
    List String → Dict String Bool → LibraryHealthSource → LibraryHealthStatus
unfolding lookup
source_status current cached source = elim (torrent_hash source) [
  | none ↦ unknown
  | some info_hash ↦
      if contains current info_hash
      then ready
      else if is_cached (lookup info_hash cached)
      then recoverable
      else unavailable
]

-- `{source.library_entry_id: ... for source in sources}`, from the statuses so far
unfoldable pub status_dict :
    (LibraryHealthSource → LibraryHealthStatus)
    → List LibraryHealthSource
    → Dict ℕ LibraryHealthStatus
    → Dict ℕ LibraryHealthStatus
unfolding insert
status_dict status [] d = d
status_dict status (source ∷ sources) d =
    status_dict status sources (insert source.library_entry_id (status source) d)

-- `counts[status] += 1`
abbrev pub add_count : LibraryHealthStatus → Counts → Counts
add_count ready c = record c { ready_count = c.ready_count + 1 }
add_count recoverable c = record c { recoverable_count = c.recoverable_count + 1 }
add_count unavailable c = record c { unavailable_count = c.unavailable_count + 1 }
add_count unknown c = record c { unknown_count = c.unknown_count + 1 }

unfoldable pub count_statuses : Dict ℕ LibraryHealthStatus → Counts → Counts
count_statuses [] c = c
count_statuses ((_, status) ∷ d) c = count_statuses d (add_count status c)

-- `find` gives the hashes of the torrents that TorBox holds, among those asked for, and
-- `check_cached` whether each of the others is cached. The statuses are what is persisted.
module _ (find : List String → List String) (check_cached : List String → Dict String Bool) where
  abbrev pub current_hashes : List LibraryHealthSource → List String
  current_hashes sources = find (hashes_of sources)

  abbrev pub cached_hashes : List LibraryHealthSource → Dict String Bool
  cached_hashes sources =
      check_cached (keep (λ h. not (contains (current_hashes sources) h)) (hashes_of sources))

  unfoldable pub check_library_health :
      List LibraryHealthSource → Dict ℕ LibraryHealthStatus × LibraryHealthCheckResult
  unfolding source_status status_dict count_statuses
  check_library_health sources =
      let statuses =
        status_dict (source_status (current_hashes sources) (cached_hashes sources)) sources [] in
      (
        statuses,
        record {
          checked_entries = length sources;
          distinct_hashes = length (hashes_of sources);
          counts = count_statuses statuses no_counts;
        },
      )
