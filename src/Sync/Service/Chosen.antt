-- ===== src/Sync/Service/Chosen.antt =====
-- api/app/sync/service.py: what of a result the watchlist, the exclusions and the poster cache are
-- told.
use strmline.Prelude.{
  ℕ, String, Bool, true, false, not, ◌&&◌, ◌||◌, List, [], ◌∷◌, Option, none, some, if◌then◌else◌,
  ◌==◌, string_eq, any, contains,
}
use strmline.Prelude.Text.{Unicode, decimal}
use strmline.Sync.TorboxStrm.{SyncedStrmFile, TorBoxStrmSyncResult}

-- `"movie" if ... else "series"`
abbrev pub media_type : SyncedStrmFile → String
media_type f = if f.category == "movies" then "movie" else "series"

-- The TMDB number of a file that was not reused, if its identifier is one.
unfoldable pub watchlist_number : Unicode → SyncedStrmFile → Option ℕ
unfolding decimal
watchlist_number u f =
    if f.reused then none else elim f.tmdb_id [ none ↦ none | some tmdb_id ↦ decimal u tmdb_id ]

-- `_watchlist_identities`; of the set, the list in the order of the files.
unfoldable pub watchlist_identities : Unicode → List SyncedStrmFile → List (String × ℕ)
unfolding watchlist_number
watchlist_identities u [] = []
watchlist_identities u (f ∷ files) =
    let rest = watchlist_identities u files in
    elim (watchlist_number u f) [ none ↦ rest | some n ↦ (media_type f, n) ∷ rest ]

unfoldable pub can_reconcile_exclusions : TorBoxStrmSyncResult → Bool
can_reconcile_exclusions result =
    not result.partial && not (any (λ d. d.phase == "metadata_provider") result.diagnostics)

module _ (poster_is_cached : String → Bool) where
  unfoldable pub poster_is_missing : SyncedStrmFile → Bool
  poster_is_missing f = elim f.tmdb_id [
    | none ↦ false
    | some tmdb_id ↦ elim f.tmdb_poster_path [
      | none ↦ false
      | some _ ↦ not (poster_is_cached tmdb_id)
    ]
  ]

  -- The loop of `_poster_sources_needing_check`, with the identifiers that it has seen.
  unfoldable pub poster_sources : List String → List SyncedStrmFile → List SyncedStrmFile
  unfolding poster_is_missing
  poster_sources seen [] = []
  poster_sources seen (f ∷ files) = elim f.tmdb_id [
    | none ↦ poster_sources seen files
    | some tmdb_id ↦ elim (contains seen tmdb_id) [
      | true ↦ poster_sources seen files
      | false ↦
          let rest = poster_sources (tmdb_id ∷ seen) files in
          if not f.reused || poster_is_missing f then f ∷ rest else rest
    ]
  ]

  unfoldable pub poster_sources_needing_check : TorBoxStrmSyncResult → List SyncedStrmFile
  unfolding poster_sources
  poster_sources_needing_check result = poster_sources [] result.synced_files
