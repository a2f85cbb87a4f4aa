-- ===== src/Torbox/ManifestCache.antt =====
-- api/app/providers/torbox/manifest_cache.py: `TorBoxManifestCache`, which also remembers for a
-- shorter time that a torrent has no manifest. `Manifest` stands for `TorBoxTorrentManifest`, which
-- the cache never looks into.
use strmline.Prelude.{
  ℕ, ◌+◌, ◌<◌, ◌≡◌, String, [], Bool, true, false, ◌||◌, Option, none, some, leb, nat_beq,
  if◌then◌else◌, Result, ok, raise, ValueError, value_error, arith,
}
use strmline.Caches
use strmline.Caches.Laws
use strmline.Caches.{Entries}

module _ (Manifest : Type 0) where
  pub record TorBoxManifestCache : Type 0 where
    pub ttl : ℕ
    pub negative_ttl : ℕ
    pub max_entries : ℕ
    pub entries : Entries (Option Manifest)

  -- `__init__`
  unfoldable pub new_manifest_cache : ℕ → ℕ → ℕ → Result ValueError TorBoxManifestCache
  new_manifest_cache ttl negative_ttl max_entries =
      if nat_beq ttl 0 || nat_beq negative_ttl 0 || nat_beq max_entries 0
      then raise (value_error "TorBox manifest cache limits must be positive.")
      else ok (record {
        ttl = ttl;
        negative_ttl = negative_ttl;
        max_entries = max_entries;
        entries = [];
      })

  -- `(False, None)` for a miss, `(True, manifest)` for a hit.
  abbrev found : Option (Option Manifest) → Bool × Option Manifest
  found none = (false, none)
  found (some manifest) = (true, manifest)

  unfoldable pub get_manifest :
      ℕ → String → TorBoxManifestCache → TorBoxManifestCache × (Bool × Option Manifest)
  get_manifest now key c =
      let (entries, answer) = Caches.get now key c.entries in
      (record c { entries = entries }, found answer)

  abbrev pub ttl_of : Option Manifest → TorBoxManifestCache → ℕ
  ttl_of none c = c.negative_ttl
  ttl_of (some _) c = c.ttl

  unfoldable pub put_manifest :
      ℕ → String → Option Manifest → TorBoxManifestCache → TorBoxManifestCache
  put_manifest now key manifest c = record c {
    entries = Caches.put c.max_entries (now + ttl_of manifest c) key manifest c.entries;
  }

  unfoldable pub clear_manifests : TorBoxManifestCache → TorBoxManifestCache
  clear_manifests c = record c { entries = [] }

  -- What is stored, a manifest or its absence, is a hit until its own time to live is over, and a
  -- miss from then on.
  pub get_manifest-put_manifest :
      (now later : ℕ) (key : String) (manifest : Option Manifest) (c : TorBoxManifestCache)
      → 0 < c.max_entries
      → (get_manifest later key (put_manifest now key manifest c)).1
        ≡ (if leb (now + ttl_of manifest c) later then (false, none) else (true, manifest))
  unfolding get_manifest put_manifest
  get_manifest-put_manifest now later key manifest c h = ground (
    arith,
    Laws.get-put_self c.max_entries (now + ttl_of manifest c) later key manifest c.entries h,
  )
