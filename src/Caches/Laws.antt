-- ===== src/Caches/Laws.antt =====
-- What the bodies of `get` and `put` in api/app's three caches do to the entries.
use strmline.Prelude.{
  ℕ, ◌≤◌, ◌<◌, ◌≡◌, String, Option, Option-cases, none, some, [], ◌∷◌, ◌++◌, length, leb,
  if◌then◌else◌, string_eq, ◌==◌, eq_iff, Bool-cases, inl, inr, arith,
}
use strmline.Prelude.Dict.{
  lookup, erase, trim, NodupKeys, move_to_end-insert, move_to_end_of_some, erase-snoc-NodupKeys,
  lookup-erase-snoc, lookup-trim-erase-snoc_self, length-erase-snoc, erase-NodupKeys, lookup-erase,
  length-erase-le, trim-NodupKeys, length-trim-le, lookup-trim,
}
use strmline.Caches.{Cached, Entries, get, put}

module _ {V : Type 0} where
  -- A `get` that hits, by what it finds.
  get_hit :
      (now : ℕ) (key : String) (c : Cached V) (d : Entries V)
      → lookup key d ≡ some c
      → get now key d ≡ (
          if leb c.expires_at now
          then (erase key d, none)
          else (erase key d ++ ((key, c) ∷ []), some c.value))
  unfolding get
  get_hit now key c d h = rw (h, get) (rw (move_to_end_of_some key c d h))

  get_miss :
      (now : ℕ) (key : String) (d : Entries V) → lookup key d ≡ none → get now key d ≡ (d, none)
  unfolding get
  get_miss now key d h = rw (h, get)

  put_lem :
      (bound expires_at : ℕ) (key : String) (v : V) (d : Entries V)
      → put bound expires_at key v d
        ≡ trim bound (erase key d ++ ((key, record { value = v; expires_at = expires_at }) ∷ []))
  unfolding put
  put_lem bound expires_at key v d = rw move_to_end-insert

  -- In a cache that may hold an entry, a `get` straight after the `put` of a value finds the value
  -- before it expires, and nothing from then on, whatever else the cache held.
  pub get-put_self :
      (bound expires_at later : ℕ) (key : String) (v : V) (d : Entries V)
      → 0 < bound
      → (get later key (put bound expires_at key v d)).1
        ≡ (if leb expires_at later then none else some v)
  get-put_self bound expires_at later key v d h =
      let c : Cached V = record { value = v; expires_at = expires_at } in
      let found : lookup key (put bound expires_at key v d) ≡ some c =
        rw put_lem (lookup-trim-erase-snoc_self bound key c d h) in
      rw (get_hit later key c (put bound expires_at key v d) found) (ground arith)

-- What was last stored under each key since the cache was last cleared.
abbrev pub Stored : Type 0 → Type 0
Stored V = String → Option (Cached V)

module _ {V : Type 0} where
  abbrev pub stored : String → Cached V → Stored V → Stored V
  stored key c before j = if j == key then some c else before j

-- A cache of at most `bound` entries after some calls of its methods.
pub data Reach {V : Type 0} (bound : ℕ) : Entries V → Stored V → Type 0 where
  empty : Reach bound [] (λ _. none)
  got :
      {d : Entries V} {s : Stored V} (now : ℕ) (key : String)
      → Reach bound d s
      → Reach bound (get now key d).0 s
  stores :
      {d : Entries V} {s : Stored V} (expires_at : ℕ) (key : String) (v : V)
      → Reach bound d s
      → Reach bound
          (put bound expires_at key v d)
          (stored key (record { value = v; expires_at = expires_at }) s)
  cleared : {d : Entries V} {s : Stored V} → Reach bound d s → Reach bound [] (λ _. none)

module _ {V : Type 0} where
  record Inv (bound : ℕ) (d : Entries V) (s : Stored V) : Type 0 where
    once : NodupKeys d
    limited : length d ≤ bound
    sound : (key : String) (c : Cached V) → lookup key d ≡ some c → s key ≡ some c

  got-Inv :
      (bound now : ℕ) (key : String) (d : Entries V) (s : Stored V)
      → Inv bound d s
      → Inv bound (get now key d).0 s
  got-Inv bound now key d s inv = elim (Option-cases (lookup key d)) [
    | inl missing ↦ rw (get_miss now key d missing) inv
    | inr (c, found) ↦ elim (Bool-cases (leb c.expires_at now)) [
      | inl expired ↦
          rw (get_hit now key c d found, expired)
            (record {
              once = erase-NodupKeys key d inv.once;
              limited = omega (arith, inv.limited, length-erase-le key d);
              sound = λ j e. rw lookup-erase (ground (arith, inv.sound j e));
            })
      | inr live ↦
          rw (get_hit now key c d found, live)
            (record {
              once = erase-snoc-NodupKeys key c d inv.once;
              limited = omega (arith, inv.limited, length-erase-snoc key c c d found);
              sound = λ j e. rw lookup-erase-snoc (ground (arith, inv.sound j e, eq_iff j key));
            })
    ]
  ]

  stores-Inv :
      (bound expires_at : ℕ) (key : String) (v : V) (d : Entries V) (s : Stored V)
      → Inv bound d s
      → Inv bound
          (put bound expires_at key v d)
          (stored key (record { value = v; expires_at = expires_at }) s)
  stores-Inv bound expires_at key v d s inv =
      let c : Cached V = record { value = v; expires_at = expires_at } in
      let once = erase-snoc-NodupKeys key c d inv.once in
      rw put_lem (record {
        once = trim-NodupKeys bound (erase key d ++ ((key, c) ∷ [])) once;
        limited = length-trim-le bound (erase key d ++ ((key, c) ∷ []));
        sound = λ j e h. ground (
          arith,
          lookup-trim bound j e (erase key d ++ ((key, c) ∷ [])) once h,
          lookup-erase-snoc j key c d,
          inv.sound j e,
        );
      })

  Reach-Inv : {bound : ℕ} {d : Entries V} {s : Stored V} → Reach bound d s → Inv bound d s
  Reach-Inv empty = record {
    once = tt;
    limited = omega arith;
    sound = λ key c h. unfold lookup in cc;
  }
  Reach-Inv (got now key r) = got-Inv _ now key _ _ (Reach-Inv r)
  Reach-Inv (stores expires_at key v r) = stores-Inv _ expires_at key v _ _ (Reach-Inv r)
  Reach-Inv (cleared r) = record {
    once = tt;
    limited = omega arith;
    sound = λ key c h. unfold lookup in cc;
  }

  -- The cache never holds more entries than its bound.
  pub length-le-bound :
      {bound : ℕ} {d : Entries V} {s : Stored V} → Reach bound d s → length d ≤ bound
  length-le-bound r = (Reach-Inv r).limited

  -- An answer is the value that was last stored under the key since the last clear, and it has
  -- not expired.
  pub never_stale :
      {bound : ℕ} {d : Entries V} {s : Stored V} (now : ℕ) (key : String) (v : V)
      → Reach bound d s
      → (get now key d).1 ≡ some v
      → (c : Cached V) × (s key ≡ some c) × (c.value ≡ v) × (now < c.expires_at)
  never_stale {d} now key v r h = elim (Option-cases (lookup key d)) [
    | inl missing ↦ absurd (ground (arith, get_miss now key d missing))
    | inr (c, found) ↦ (
      c,
      (Reach-Inv r).sound key c found,
      ground (arith, get_hit now key c d found),
      ground (arith, get_hit now key c d found),
    )
  ]
