-- ===== src/Tests/Disk.antt =====
-- A sync of one file that is undone, and a health check of two entries.
use strmline.Prelude.{ℕ, ◌≡◌, refl, String, Bool, true, List, [], ◌∷◌, some, ok, nat_eq}
use strmline.Prelude.Dict.{Dict, lookup, insert}
use strmline.Library.Journal.{
  FilePath, path_eq, Files, LibraryMutationJournal, create, track, restore,
}
use strmline.Library.Journal.Rollback.{begun, tracked, written, is_tracked, restore_undoes}
use strmline.Library.Health.{LibraryHealthSource, check_library_health}
use strmline.Library.Health.Partition.{DistinctIds, total, counts_total}

abbrev root : FilePath
root = "library" ∷ []

abbrev movie : FilePath
movie = "library" ∷ "movies" ∷ "m.strm" ∷ []

abbrev before : Files
before = (movie, "old") ∷ []

abbrev journal : LibraryMutationJournal
journal = record { root = root; originals = ("movies" ∷ "m.strm" ∷ [], some "old") ∷ [] }

tracks_movie : track (λ path. true) before movie (create root) ≡ ok journal
unfolding track lookup
tracks_movie = refl

movie_tracked : is_tracked journal movie ≡ true
unfolding lookup
movie_tracked = refl

journal_restored : (restore (λ path. true) journal (insert movie "new" before)).1 ≡ true
unfolding restore
journal_restored = refl

restore_undoes_example :
    lookup movie (restore (λ path. true) journal (insert movie "new" before)).0
    ≡ lookup movie before
restore_undoes_example =
    restore_undoes (λ path. true)
      (written movie "new" movie_tracked (tracked (λ path. true) movie tracks_movie begun))
      journal_restored movie

abbrev source : ℕ → String → LibraryHealthSource
source id info_hash = record {
  library_entry_id = id;
  source_kind = some "torrents";
  info_hash = some info_hash;
}

abbrev sources : List LibraryHealthSource
sources = source 1 "aa" ∷ source 2 "bb" ∷ []

-- TorBox holds the first torrent, and has the second cached.
abbrev find : List String → List String
find hashes = "aa" ∷ []

abbrev check_cached : List String → Dict String Bool
check_cached hashes = ("bb", true) ∷ []

sources-DistinctIds : DistinctIds sources
unfolding DistinctIds
sources-DistinctIds = (refl, (refl, tt))

counts_total_example :
    total (check_library_health find check_cached sources).1.counts
    ≡ (check_library_health find check_cached sources).1.checked_entries
counts_total_example = counts_total find check_cached sources sources-DistinctIds
