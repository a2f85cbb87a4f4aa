-- ===== src/Caches.antt =====
-- What the three process-local caches share: an `OrderedDict` of values that expire, least recently
-- used first. `ResolvedTargetCache` (api/app/resolver/target_cache.py), `TorBoxManifestCache`
-- (api/app/providers/torbox/manifest_cache.py) and `AioStreamsResultCache`
-- (api/app/providers/aiostreams/result_cache.py) have the same bodies of `get` and `put` over it.
-- The clock's reading, in nanoseconds, is an argument.
pub mod Laws
use strmline.Prelude.{ℕ, suc, ◌+◌, String, Option, none, some, leb, if◌then◌else◌, string_eq}
use strmline.Prelude.Dict.{Dict, lookup, insert, erase, move_to_end, trim}

-- `_CachedTarget`, `_CachedManifest`, `_CachedStreams`.
pub record Cached (V : Type 0) : Type 0 where
  pub value : V
  pub expires_at : ℕ

abbrev pub Entries : Type 0 → Type 0
Entries V = Dict String (Cached V)

module _ {V : Type 0} where
  -- A hit becomes the most recent entry, and an entry that has expired is deleted.
  unfoldable pub get : ℕ → String → Entries V → Entries V × Option V
  unfolding lookup erase move_to_end
  get now key entries = elim (lookup key entries) [
    | none ↦ (entries, none)
    | some cached ↦
        if leb cached.expires_at now
        then (erase key entries, none)
        else (move_to_end key entries, some cached.value)
  ]

  unfoldable pub put : ℕ → ℕ → String → V → Entries V → Entries V
  unfolding insert move_to_end trim
  put max_entries expires_at key value entries =
      trim max_entries
        (move_to_end key (insert key (record { value = value; expires_at = expires_at }) entries))
