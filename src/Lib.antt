-- ===== src/Lib.antt =====
-- Strmline: a service that keeps a media library of .strm files for a TorBox account and resolves
-- their playback. This library models the parts of the Python backend (api/app) that decide
-- something on their own: admission of requests, caches, failure handling, the queue of syncs,
-- the transaction of a sync with the rollback of files, the record of runs, the recovery of dropped
-- torrents, the extraction of files, the health check and the choice of releases. Each file's first
-- comment names the code that it is about.
--
-- How the parts interact. The playback endpoint (api/app/api/resolver.py) answers from the cache of
-- targets, asks the failure guard before it goes to the upstream, and reports the answer of the
-- upstream to both. The TorBox client asks the request coordinator before each call; both count in
-- the operational metrics. Adding a torrent enqueues a sync in the scheduler. A season with missing
-- episodes is completed by the releases that the ranking chooses. Behind the playback endpoint the
-- resolver's repository recovers a torrent that TorBox has dropped: it polls for it, extracts its
-- files and takes the one that matches. A sync takes the lock, tracks in the journal the files that
-- it changes, and either commits and is recorded as a run, or rolls back, restores the files and is
-- recorded as a failed one. Where a call before its try statements or in its except clauses raises,
-- it breaks off. The health check classifies the entries of the library.
--
--   Operations.Metrics       api/app/operations/metrics.py: OperationalMetrics, a method a function
--   Torbox.Runtime           api/app/providers/torbox/runtime.py: TorBoxRequestCoordinator;
--                            reserve_or_wait is _reserve_or_wait, acquire its loop
--   Torbox.ManifestCache     api/app/providers/torbox/manifest_cache.py: TorBoxManifestCache
--   Aiostreams.ResultCache   api/app/providers/aiostreams/result_cache.py: AioStreamsResultCache
--   Resolver.TargetCache     api/app/resolver/target_cache.py: ResolvedTargetCache
--   Caches                   the bodies of get and put that these three caches share
--   Resolver.FailureGuard    api/app/resolver/failure_guard.py: ResolverFailureGuard; the defaults
--                            are those of api/app/operations/defaults.py
--   Resolver.Play            api/app/api/resolver.py: _play in two halves, begin_play up to the
--                            request of the upstream and finish_play from its answer
--   Resolver.Recovery        api/app/db/repositories/resolver.py: recover_torrent_file is
--                            _recover_torrent_file; Target has resolve_torbox_target, Committed
--                            the commit in _database_resolver_target of api/app/api/resolver.py
--   Torbox.Files             api/app/providers/torbox/files.py: Extract has extract_torbox_files,
--                            Bluray the selection among the streams of a disc
--   Sync.Service             api/app/sync/service.py: Execution has run_torbox_account_sync and
--                            _execute_sync, Chosen what a result tells the other tables
--   Sync.Runs                api/app/db/repositories/sync_runs.py: SyncRunRepository on tables
--   Sync.TorboxStrm          api/app/sync/torbox_strm.py: Run.Loop has the body of the loop of
--                            TorBoxStrmSync.run, Account the loop over the listings, the result and
--                            the manifest of api/app/resolver/manifest.py, Claims _target_path,
--                            Reuse _reusable_file, Sources what is compared of a file
--   Sync.Scheduler           api/app/sync/scheduler.py: enqueue_post_add_sync, run_queued_syncs
--   Library.Journal          api/app/library/mutation_journal.py: LibraryMutationJournal
--   Library.Health           api/app/library/health.py: check_library_health
--   Library.Entries          api/app/library/entries.py: LibraryEntry and its checks
--   Library.Overrides        api/app/library/classification_override.py:
--                            apply_classification_override
--   Domain.MediaIdentity     api/app/domain/media_identity.py
--   Domain.Normalization     api/app/domain/normalization.py: info hashes and source paths
--   SeasonCompletion.Ranking api/app/season_completion/ranking.py: choose_candidates
--   Prelude                  dicts, sliding windows, sorting, tests, Python's str (Text) and JSON
--                            (Json); Tests has runs and examples
--
-- Time. The clocks are monotonic; a reading is a natural number of nanoseconds and an argument of
-- the operation, and floating-point rounding is not modelled. `t <= now - window` is written
-- `t + window <= now`. Settings that the code requires to be positive are natural numbers, so the
-- refusal of a negative number is that of 0.
--
-- State. An object is a record, a method a function that returns the new record. Methods that hold
-- a lock are one step. Where code gives way (the wait for the budget, the request of the upstream,
-- an awaited sync), the halves are separate steps, and relations (Reach, Logged, Step, Trace) let
-- other steps come in between.
--
-- Fuel. choose_candidates runs its loop one round more often than there are candidates, since each
-- round removes one; run_queued_syncs has two rounds more than there are pending items; acquire has
-- a fuel argument. In each case running out is the result none, and it is shown not to happen.
-- The loop of a recovery has the 30 attempts that the code gives it.
--
-- Parameters. What Python takes from the Unicode database (case folding, the values of digits) is
-- the record Unicode; urlencode, the manifests and the streams are arguments of what uses them. The
-- answers of TorBox to a health check and to a playback, of the database, of the manifest file and
-- of the upstream are inputs; those of the playback client depend on the number of polls that were
-- made before. Of a sync, the parsing of file names, the naming of paths, the resolution of
-- identities and the tables beside those of the runs are functions that may raise. Sync.Service
-- takes any generation as a function; Sync.TorboxStrm.Account has the one of the code. The order of
-- Python's strings is that of the native strings, by code points.
--
-- Failures. A call that may raise answers with a Result, or a Boolean for each path where only
-- whether it raises matters: the client of TorBox (an error of TorBox, of httpx, or another), the
-- session of a playback (Session), the file system and the database during a sync (Backend, and
-- can_read and can_write of Pipeline). A write that fails leaves the file as it was.
--
-- The scheduler library is modelled by what the code relies on: add_job with replace_existing sets
-- the one job with its id, a due job starts the worker, and max_instances=1 skips the start while
-- the worker exists. A job that is dropped since it is more than 30 seconds late, and a worker that
-- ends by an exception of the settings or of the session factory, are not modelled.
--
-- Files. A path is a list of names that is resolved already, and the file system is what each path
-- holds; directories, and so the removal of empty ones after a restoration, are not modelled.
--
-- Not modelled: HTTP handlers beside playback, SQL, reading and parsing of files, provider clients,
-- the command line, the naming of library files, the resolution of media identities, and the
-- parsing of release names in season_completion/ranking.py.
pub mod Prelude
pub mod Operations
pub mod Torbox
pub mod Aiostreams
pub mod Caches
pub mod Resolver
pub mod SeasonCompletion
pub mod Sync
pub mod Domain
pub mod Library
pub mod Tests
