-- ===== src/Tests/Playback.antt =====
-- Requests for one entry, with a configured token.
use strmline.Prelude.{◌≡◌, ◌↔◌, String, true, false, [], none, some, ok, raise, arith}
use strmline.Operations.Metrics.{new_metrics, resolver_cache_miss}
use strmline.Resolver.TargetCache.{get_target}
use strmline.Resolver.FailureGuard.{default_config, check}
use strmline.Resolver.Play.{
  token_matches, HttpException, Resolver, Request, respond, ask_upstream, resolver_token_is_valid,
  begin_play,
}
use strmline.Resolver.Play.Guarded.{Authorised, unauthorised_refused, asks_upstream_exact}

abbrev resolver : Resolver
resolver = record {
  cache = record { ttl = 30; max_entries = 2; entries = [] };
  guard = record { config = default_config; negative_until = []; failure_states = [] };
  metrics = new_metrics;
}

abbrev request : String → Request
request token = record {
  entry_id = "e";
  token = token;
  resolver_token = some "secret";
  session = true;
  database_token = some false;
  manifest_target = none;
}

wrong_token : ¬ Authorised (request "guess")
unfolding token_matches
wrong_token a = ground arith

unauthorised_refused_example :
    ((begin_play 1 1 (request "guess") resolver).0 ≡ resolver)
    × ((e : HttpException) × ((begin_play 1 1 (request "guess") resolver).1 ≡ respond (raise e)))
unauthorised_refused_example = unauthorised_refused 1 1 (request "guess") resolver wrong_token

asks_upstream_exact_example : ((begin_play 1 1 (request "secret") resolver).1 ≡ ask_upstream) ↔ (
    (resolver_token_is_valid (request "secret") ≡ ok true)
    × (true ≡ true)
    × ((get_target 1 "e" resolver.cache).1 ≡ none)
    × ((check 1 "e" (resolver_cache_miss new_metrics) resolver.guard).outcome ≡ ok tt))
asks_upstream_exact_example = asks_upstream_exact 1 1 (request "secret") resolver
