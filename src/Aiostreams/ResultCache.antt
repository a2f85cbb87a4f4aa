-- ===== src/Aiostreams/ResultCache.antt =====
-- api/app/providers/aiostreams/result_cache.py: `AioStreamsResultCache`, the streams that were
-- displayed last. `Streams` stands for the tuple of streams, which the cache never looks into.
use strmline.Prelude.{
  ℕ, ◌+◌, ◌||◌, String, [], Option, nat_beq, if◌then◌else◌, Result, ok, raise, ValueError,
  value_error,
}
use strmline.Caches
use strmline.Caches.{Entries}

module _ (Streams : Type 0) where
  pub record AioStreamsResultCache : Type 0 where
    pub ttl : ℕ
    pub max_entries : ℕ
    pub entries : Entries Streams

  -- `__init__`
  unfoldable pub new_result_cache : ℕ → ℕ → Result ValueError AioStreamsResultCache
  new_result_cache ttl max_entries =
      if nat_beq ttl 0 || nat_beq max_entries 0
      then raise (value_error "AIOStreams cache limits must be positive.")
      else ok (record { ttl = ttl; max_entries = max_entries; entries = [] })

  unfoldable pub get_streams :
      ℕ → String → AioStreamsResultCache → AioStreamsResultCache × Option Streams
  get_streams now key c =
      let (entries, found) = Caches.get now key c.entries in (record c { entries = entries }, found)

  unfoldable pub put_streams : ℕ → String → Streams → AioStreamsResultCache → AioStreamsResultCache
  put_streams now key streams c = record c {
    entries = Caches.put c.max_entries (now + c.ttl) key streams c.entries;
  }

  unfoldable pub clear_streams : AioStreamsResultCache → AioStreamsResultCache
  clear_streams c = record c { entries = [] }
