-- ===== src/Library/Health/Partition.antt =====
-- The report of a health check against the entries that were checked.
use strmline.Prelude.{
  ℕ, suc, ◌+◌, ◌≡◌, refl, String, Bool, true, false, ◌||◌, List, [], ◌∷◌, none, some, ◌==◌, nat_eq,
  nat_beq_iff, In, length, arith, string_eq, ◌≢◌,
}
use strmline.Prelude.Dict.{Dict, lookup, insert, lookup-insert}
use strmline.Library.Health.{
  LibraryHealthSource, LibraryHealthStatus, ready, recoverable, unavailable, unknown, Counts,
  no_counts, add_count, count_statuses, source_status, status_dict, check_library_health,
  current_hashes, cached_hashes,
}

abbrev pub has_id : ℕ → List LibraryHealthSource → Bool
has_id k [] = false
has_id k (source ∷ sources) = k == source.library_entry_id || has_id k sources

-- No two sources are of the same entry.
unfoldable pub DistinctIds : List LibraryHealthSource → Type 0
DistinctIds [] = Unit {0}
DistinctIds (source ∷ sources) =
    (has_id source.library_entry_id sources ≡ false) × DistinctIds sources

abbrev pub total : Counts → ℕ
total c = c.ready_count + c.recoverable_count + c.unavailable_count + c.unknown_count

total-count_statuses :
    (d : Dict ℕ LibraryHealthStatus) (c : Counts) → total (count_statuses d c) ≡ total c + length d
unfolding count_statuses
total-count_statuses [] c = omega arith
total-count_statuses ((_, ready) ∷ d) c = omega (arith, total-count_statuses d (add_count ready c))
total-count_statuses ((_, recoverable) ∷ d) c =
    omega (arith, total-count_statuses d (add_count recoverable c))
total-count_statuses ((_, unavailable) ∷ d) c =
    omega (arith, total-count_statuses d (add_count unavailable c))
total-count_statuses ((_, unknown) ∷ d) c =
    omega (arith, total-count_statuses d (add_count unknown c))

length-insert-fresh :
    (k : ℕ) (v : LibraryHealthStatus) (d : Dict ℕ LibraryHealthStatus)
    → lookup k d ≡ none
    → length (insert k v d) ≡ suc (length d)
unfolding lookup insert
length-insert-fresh k v [] h = refl
length-insert-fresh k v ((j, w) ∷ d) h = ground (arith, length-insert-fresh k v d)

module _ (status : LibraryHealthSource → LibraryHealthStatus) where
  still_fresh :
      (source : LibraryHealthSource) (sources : List LibraryHealthSource)
      (d : Dict ℕ LibraryHealthStatus)
      → has_id source.library_entry_id sources ≡ false
      → ((k : ℕ) → has_id k (source ∷ sources) ≡ true → lookup k d ≡ none)
      → (k : ℕ) → has_id k sources ≡ true
      → lookup k (insert source.library_entry_id (status source) d) ≡ none
  still_fresh source sources d n f k h = ground (
    arith,
    lookup-insert k source.library_entry_id (status source) d,
    f k,
    nat_beq_iff k source.library_entry_id,
  )

  length-status_dict :
      (sources : List LibraryHealthSource) (d : Dict ℕ LibraryHealthStatus)
      → DistinctIds sources
      → ((k : ℕ) → has_id k sources ≡ true → lookup k d ≡ none)
      → length (status_dict status sources d) ≡ length d + length sources
  unfolding status_dict DistinctIds
  length-status_dict [] d u f = omega arith
  length-status_dict (source ∷ sources) d u f = omega (
    arith,
    length-status_dict sources (insert source.library_entry_id (status source) d) u.1
        (λ k h. still_fresh source sources d u.0 f k h),
    length-insert-fresh source.library_entry_id (status source) d
        (f source.library_entry_id (ground arith)),
  )

  has_id-of_In :
      (source : LibraryHealthSource) (sources : List LibraryHealthSource)
      → In source sources
      → has_id source.library_entry_id sources ≡ true
  has_id-of_In source [] m = absurd m
  has_id-of_In source (other ∷ sources) m = ground (
    arith,
    has_id-of_In source sources,
    nat_beq_iff source.library_entry_id other.library_entry_id,
  )

nothing : (k : ℕ) → lookup {V = LibraryHealthStatus} k [] ≡ none
unfolding lookup
nothing k = refl

-- The hash of a torrent that the source is.
abbrev pub HashOf : String → LibraryHealthSource → Type 0
HashOf h source = (source.source_kind ≡ some "torrents") × (source.info_hash ≡ some h)

-- What each status says of a source, by the hashes that TorBox holds, `current`, and what it says
-- of the others, `cached`.
pub data IsHealth (current : List String) (cached : Dict String Bool) (source : LibraryHealthSource)
    : LibraryHealthStatus → Type 0 where
  no_torrent : ((h : String) → ¬ HashOf h source) → IsHealth current cached source unknown
  held : {h : String} → HashOf h source → In h current → IsHealth current cached source ready
  only_cached :
      {h : String}
      → HashOf h source
      → ¬ In h current
      → lookup h cached ≡ some true
      → IsHealth current cached source recoverable
  lost :
      {h : String}
      → HashOf h source
      → ¬ In h current
      → lookup h cached ≢ some true
      → IsHealth current cached source unavailable

module _ (find : List String → List String) (check_cached : List String → Dict String Bool) where
  -- Where no two sources are of one entry, the four counts of the report add up to the entries
  -- that were checked.
  pub counts_total :
      (sources : List LibraryHealthSource)
      → DistinctIds sources
      → total (check_library_health find check_cached sources).1.counts
        ≡ (check_library_health find check_cached sources).1.checked_entries
  unfolding check_library_health
  counts_total sources u =
      let status =
        source_status (current_hashes find check_cached sources)
          (cached_hashes find check_cached sources) in
      omega (
        arith,
        total-count_statuses (status_dict status sources []) no_counts,
        length-status_dict status sources [] u (λ k h. nothing k),
      )
