-- ===== src/Tests/Cached.antt =====
-- A cache of one entry, in which a second entry takes the place of the first.
use strmline.Prelude.{ℕ, ◌≤◌, ◌<◌, ◌≡◌, refl, [], none, some, leb, length, if◌then◌else◌, arith}
use strmline.Caches.{Cached, Entries, get, put}
use strmline.Caches.Laws.{Reach, empty, stores, stored, get-put_self, length-le-bound, never_stale}
use strmline.Torbox.ManifestCache.{TorBoxManifestCache}

abbrev two_stored : Entries ℕ
two_stored = put 1 20 "b" 8 (put 1 10 "a" 7 [])

two_stored-Reach : Reach 1 two_stored (
    stored "b"
      (record { value = 8; expires_at = 20 })
      (stored "a" (record { value = 7; expires_at = 10 }) (λ _. none)))
two_stored-Reach = stores 20 "b" 8 (stores 10 "a" 7 empty)

length-le-bound_example : length two_stored ≤ 1
length-le-bound_example = length-le-bound two_stored-Reach

found : (get 19 "b" two_stored).1 ≡ some 8
unfolding get put
found = refl

never_stale_example :
    (c : Cached ℕ) × (stored "b"
        (record { value = 8; expires_at = 20 })
        (stored "a" (record { value = 7; expires_at = 10 }) (λ _. none))
        "b"
      ≡ some c)
    × (c.value ≡ 8)
    × (19 < c.expires_at)
never_stale_example = never_stale 19 "b" 8 two_stored-Reach found

get-put_self_example : (get 19 "b" two_stored).1 ≡ (if leb 20 19 then none else some 8)
get-put_self_example = get-put_self 1 20 19 "b" 8 (put 1 10 "a" 7 []) (omega arith)

abbrev manifests : TorBoxManifestCache ℕ
manifests = record { ttl = 30; negative_ttl = 5; max_entries = 2; entries = [] }
