-- ===== src/Resolver/Play.antt =====
-- api/app/api/resolver.py: the playback endpoint, which answers from the cache of targets, is kept
-- from the upstream by the failure guard, and reports to both what the upstream answered. The
-- answers of the database, of the manifest file and of the upstream are arguments, and so is each
-- reading of the clock. A request gives way while it waits for the upstream, so its two halves are
-- separate steps.
pub mod Guarded
use strmline.Prelude.{
  ℕ, String, Bool, true, false, ◌||◌, leb, Option, none, some, if◌then◌else◌, ◌==◌, string_eq,
  Result, ok, raise, ValueError,
}
use strmline.Prelude.Text.{has_char}
use strmline.Operations.Metrics.{OperationalMetrics, resolver_cache_hit, resolver_cache_miss}
use strmline.Resolver.TargetCache.{ResolvedTargetCache, get_target, put_target, clear_targets}
use strmline.Resolver.FailureGuard.{
  ResolverFailureGuard, default_config, reconfigure, Unavailable, temporarily_unavailable, check,
  record_failure, record_success, clear,
}

-- `HTTPException` with its status and detail.
pub record HttpException : Type 0 where
  pub status_code : ℕ
  pub detail : String

abbrev pub forbidden : HttpException
forbidden = record { status_code = 403; detail = "Invalid resolver token." }

abbrev pub not_found : HttpException
not_found = record { status_code = 404; detail = "Resolver entry was not found." }

abbrev pub unavailable : String → HttpException
unavailable detail = record { status_code = 503; detail = detail }

-- What the framework makes of an exception that no handler catches.
abbrev pub server_error : HttpException
server_error = record { status_code = 500; detail = "Internal Server Error" }

-- The objects of the process: `_resolved_target_cache`, `_failure_guard` and the metrics.
pub record Resolver : Type 0 where
  pub cache : ResolvedTargetCache
  pub guard : ResolverFailureGuard
  pub metrics : OperationalMetrics

unfoldable pub clear_resolved_target_cache : Resolver → Resolver
unfolding clear_targets clear
clear_resolved_target_cache r = record r { cache = clear_targets r.cache; guard = clear r.guard }

-- The bound of the guard keeps its default.
unfoldable pub configure_resolver_failure_guard :
    ℕ → ℕ → ℕ → ℕ → Resolver → Result ValueError Resolver
unfolding reconfigure
configure_resolver_failure_guard negative_cache circuit_failures window cooldown r =
    elim (reconfigure
      (record {
        negative_cache = negative_cache;
        circuit_failures = circuit_failures;
        circuit_window = window;
        circuit_cooldown = cooldown;
        max_entries = default_config.max_entries;
      })
      r.guard) [ ok guard ↦ ok (record r { guard = guard }) | raise e ↦ raise e ]

-- What `_request_database_target` comes to: a URL or one of the exceptions that its caller tells
-- apart. Without an API key it raises an `HTTPException`, which the caller lets through, as it
-- does any other exception.
pub data Upstream : Type 0 where
  target : String → Upstream
  no_api_key : Upstream
  lookup_error : Upstream
  recovery_error : String → Upstream
  torbox_error : String → Upstream
  os_error : Upstream
  http_error : Upstream
  sql_error : Upstream
  other_error : Upstream

-- What a request says of itself, and what the other parts answer to it: whether there is a database
-- session, the database's verdict on the token (`none` if it raises), and the manifest's target
-- (`none` if it raises).
pub record Request : Type 0 where
  pub entry_id : String
  pub token : String
  pub resolver_token : Option String
  pub session : Bool
  pub database_token : Option Bool
  pub manifest_target : Option String

-- `secrets.compare_digest`, which raises a `TypeError` on a character outside ASCII
unfoldable pub token_matches : String → Option String → Result HttpException Bool
token_matches token none = ok false
token_matches token (some expected) =
    if has_char (leb 128) token || has_char (leb 128) expected
    then raise server_error
    else ok (token == expected)

unfoldable pub resolver_token_is_valid : Request → Result HttpException Bool
unfolding token_matches
resolver_token_is_valid q = elim (token_matches q.token q.resolver_token) [
  | raise e ↦ raise e
  | ok true ↦ ok true
  | ok false ↦
      if q.session
      then elim q.database_token [
        | some valid ↦ ok valid
        | none ↦ raise (unavailable "Resolver is not available.")
      ]
      else elim q.resolver_token [
        | none ↦ raise (unavailable "Resolver is not configured.")
        | some _ ↦ ok false
      ]
]

-- A lookup ends with a response, or goes on to the upstream.
pub data Lookup : Type 0 where
  respond : Result HttpException String → Lookup
  ask_upstream : Lookup

-- `_check_resolver_guard`
unfoldable pub check_resolver_guard : ℕ → String → Resolver → Resolver × Lookup
unfolding check
check_resolver_guard now entry_id r =
    let checked = check now entry_id r.metrics r.guard in
    let after : Resolver = record r { guard = checked.guard; metrics = checked.metrics } in
    elim checked.outcome [
      | ok _ ↦ (after, ask_upstream)
      | raise (temporarily_unavailable message) ↦ (after, respond (raise (unavailable message)))
    ]

-- `_cached_database_resolver_target` with a session, up to the request of the upstream.
unfoldable pub look_up : ℕ → ℕ → String → Resolver → Resolver × Lookup
unfolding get_target check_resolver_guard resolver_cache_hit resolver_cache_miss
look_up now checked_at entry_id r =
    let (cache, found) = get_target now entry_id r.cache in
    elim found [
      | some url ↦
          (record r { cache = cache; metrics = resolver_cache_hit r.metrics }, respond (ok url))
      | none ↦
          check_resolver_guard checked_at entry_id
            (record r { cache = cache; metrics = resolver_cache_miss r.metrics })
    ]

-- `_play` up to the request of the upstream.
unfoldable pub begin_play : ℕ → ℕ → Request → Resolver → Resolver × Lookup
unfolding resolver_token_is_valid look_up
begin_play now checked_at q r = elim (resolver_token_is_valid q) [
  | raise e ↦ (r, respond (raise e))
  | ok false ↦ (r, respond (raise forbidden))
  | ok true ↦
      if q.session
      then look_up now checked_at q.entry_id r
      else (r, respond (elim q.manifest_target [ some url ↦ ok url | none ↦ raise not_found ]))
]

-- The `try` statement of `_database_resolver_target`: an error of the upstream is recorded, and so
-- is a success, but not that an entry is unknown or that the database failed.
unfoldable pub record_upstream : ℕ → String → Upstream → Resolver → Resolver
unfolding record_failure record_success
record_upstream now entry_id (target url) r = record r { guard = record_success entry_id r.guard }
record_upstream now entry_id no_api_key r = r
record_upstream now entry_id lookup_error r = r
record_upstream now entry_id (recovery_error message) r = record r {
  guard = record_failure now entry_id r.guard;
}
record_upstream now entry_id (torbox_error message) r = record r {
  guard = record_failure now entry_id r.guard;
}
record_upstream now entry_id os_error r = record r { guard = record_failure now entry_id r.guard }
record_upstream now entry_id http_error r = record r { guard = record_failure now entry_id r.guard }
record_upstream now entry_id sql_error r = r
record_upstream now entry_id other_error r = r

unfoldable pub upstream_response : Upstream → Result HttpException String
upstream_response (target url) = ok url
upstream_response no_api_key = raise (unavailable "TorBox API key is not configured.")
upstream_response lookup_error = raise not_found
upstream_response (recovery_error message) = raise (unavailable message)
upstream_response (torbox_error message) = raise (unavailable message)
upstream_response os_error = raise (unavailable "Resolver is not available.")
upstream_response http_error = raise (unavailable "Resolver is not available.")
upstream_response sql_error = raise (unavailable "Resolver is not available.")
upstream_response other_error = raise server_error

-- `_play` from the answer of the upstream: a target is cached.
unfoldable pub finish_play :
    ℕ → ℕ → String → Upstream → Resolver → Resolver × Result HttpException String
unfolding record_upstream upstream_response put_target
finish_play now stored_at entry_id answer r =
    let recorded = record_upstream now entry_id answer r in
    elim (upstream_response answer) [
      | ok url ↦
          (record recorded { cache = put_target stored_at entry_id url recorded.cache }, ok url)
      | raise e ↦ (recorded, raise e)
    ]
