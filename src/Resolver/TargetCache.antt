-- ===== src/Resolver/TargetCache.antt =====
-- api/app/resolver/target_cache.py: `ResolvedTargetCache`, the redirect targets of the last
-- playbacks. Times are in nanoseconds, and the clock's reading is an argument.
use strmline.Prelude.{
  ℕ, ◌+◌, String, [], Option, nat_beq, if◌then◌else◌, Result, ok, raise, ValueError, value_error,
}
use strmline.Caches
use strmline.Caches.{Entries}

pub record ResolvedTargetCache : Type 0 where
  pub ttl : ℕ
  pub max_entries : ℕ
  pub entries : Entries String

-- `__init__`
unfoldable pub new_target_cache : ℕ → ℕ → Result ValueError ResolvedTargetCache
new_target_cache ttl max_entries =
    if nat_beq ttl 0
    then raise (value_error "Resolved target cache TTL must be positive.")
    else if nat_beq max_entries 0
    then raise (value_error "Resolved target cache size must be positive.")
    else ok (record { ttl = ttl; max_entries = max_entries; entries = [] })

unfoldable pub get_target : ℕ → String → ResolvedTargetCache → ResolvedTargetCache × Option String
get_target now entry_id c =
    let (entries, found) = Caches.get now entry_id c.entries in
    (record c { entries = entries }, found)

unfoldable pub put_target : ℕ → String → String → ResolvedTargetCache → ResolvedTargetCache
put_target now entry_id target_url c = record c {
  entries = Caches.put c.max_entries (now + c.ttl) entry_id target_url c.entries;
}

unfoldable pub clear_targets : ResolvedTargetCache → ResolvedTargetCache
clear_targets c = record c { entries = [] }
