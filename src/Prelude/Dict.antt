-- ===== src/Prelude/Dict.antt =====
-- Python's `dict` and `OrderedDict`: associations in insertion order.
use Prim.Native.Nat.{ℕ, suc, ◌≤◌, ◌<◌}
use mathlib.Core.Path.{◌≡◌, refl, sym, ◌∙◌}
use mathlib.Core.Option.{Option, none, some}
use mathlib.Core.Logic.{◌≢◌, ◌⊎◌, inl, inr}
use mathlib.Core.List.{List, [], ◌∷◌, ◌++◌}
use native.Mathlib.Omega.{arith}
use strmline.Prelude.Tests.{Eq, ◌==◌, ltb, Option-cases, if◌then◌else◌}
use strmline.Prelude.Lists.{length, length-append}

abbrev pub Dict {ℓ κ} : Type ℓ → Type κ → Type (ℓ ⊔ κ)
Dict K V = List (K × V)

abbrev pub keys {ℓ κ} : {K : Type ℓ} {V : Type κ} → Dict K V → List K
keys [] = []
keys ((k, v) ∷ d) = k ∷ keys d

module _ {ℓ κ} {K : Type ℓ} {V : Type κ} ⦃e : Eq K⦄ where
  -- `d.get(k)`
  unfoldable pub lookup : K → Dict K V → Option V
  lookup k [] = none
  lookup k ((j, v) ∷ d) = if k == j then some v else lookup k d

  -- `d[k] = v`: a key that is there keeps its place
  unfoldable pub insert : K → V → Dict K V → Dict K V
  insert k v [] = (k, v) ∷ []
  insert k v ((j, w) ∷ d) = if k == j then (j, v) ∷ d else (j, w) ∷ insert k v d

  -- `del d[k]`, `d.pop(k, None)`
  unfoldable pub erase : K → Dict K V → Dict K V
  erase k [] = []
  erase k ((j, w) ∷ d) = let rest = erase k d in if k == j then rest else (j, w) ∷ rest

  -- `d.move_to_end(k)`, which the program calls for keys that are there
  unfoldable pub move_to_end : K → Dict K V → Dict K V
  unfolding lookup erase
  move_to_end k d = elim (lookup k d) [ none ↦ d | some v ↦ erase k d ++ ((k, v) ∷ []) ]

  -- `while len(d) > bound: d.popitem(last=False)`
  unfoldable pub trim : ℕ → Dict K V → Dict K V
  trim bound [] = []
  trim bound (entry ∷ d) = if ltb bound (suc (length d)) then trim bound d else entry ∷ d

  abbrev pub NodupKeys : Dict K V → Type κ
  NodupKeys [] = Unit
  NodupKeys ((k, _) ∷ d) = (lookup k d ≡ none) × NodupKeys d

  pub lookup-insert :
      (j k : K) (v : V) (d : Dict K V)
      → lookup j (insert k v d) ≡ (if j == k then some v else lookup j d)
  unfolding insert lookup
  lookup-insert j k v [] = refl
  lookup-insert j k v ((i, w) ∷ d) =
      ground (arith, lookup-insert j k v d, e.equal_iff j k, e.equal_iff j i, e.equal_iff k i)

  pub lookup-erase :
      (j k : K) (d : Dict K V) → lookup j (erase k d) ≡ (if j == k then none else lookup j d)
  unfolding erase lookup
  lookup-erase j k [] = ground arith
  lookup-erase j k ((i, w) ∷ d) =
      ground (arith, lookup-erase j k d, e.equal_iff j k, e.equal_iff j i, e.equal_iff k i)

  pub length-erase-le : (k : K) (d : Dict K V) → length (erase k d) ≤ length d
  unfolding erase
  length-erase-le k [] = omega arith
  length-erase-le k ((j, w) ∷ d) = ground (arith, length-erase-le k d)

  pub length-erase-lt : (k : K) (d : Dict K V) → lookup k d ≢ none → length (erase k d) < length d
  unfolding erase lookup
  length-erase-lt k [] h = absurd (h refl)
  length-erase-lt k ((j, w) ∷ d) h = ground (arith, length-erase-lt k d, length-erase-le k d)

  -- An insertion grows the dict by one key at most, and only if the key is new.
  pub length-insert :
      (k : K) (v : V) (d : Dict K V)
      → length (insert k v d) ≡ elim (lookup k d) [ none ↦ suc (length d) | some _ ↦ length d ]
  unfolding insert lookup
  length-insert k v [] = refl
  length-insert k v ((j, w) ∷ d) = ground (arith, length-insert k v d)

  pub erase-NodupKeys : (k : K) (d : Dict K V) → NodupKeys d → NodupKeys (erase k d)
  unfolding erase
  erase-NodupKeys k [] u = tt
  erase-NodupKeys k ((j, w) ∷ d) (fresh, u) =
      ground (arith, erase-NodupKeys k d u, lookup-erase j k d)

  pub insert-NodupKeys : (k : K) (v : V) (d : Dict K V) → NodupKeys d → NodupKeys (insert k v d)
  unfolding insert
  insert-NodupKeys k v [] u = (unfold lookup in refl, tt)
  insert-NodupKeys k v ((j, w) ∷ d) (fresh, u) =
      ground
        (arith, insert-NodupKeys k v d u, lookup-insert j k v d, e.equal_iff k j, e.equal_iff j k)

  pub lookup-snoc :
      (j k : K) (v : V) (d : Dict K V)
      → lookup j (d ++ ((k, v) ∷ []))
        ≡ elim (lookup j d) [ none ↦ (if j == k then some v else none) | some w ↦ some w ]
  unfolding lookup
  lookup-snoc j k v [] = refl
  lookup-snoc j k v ((i, w) ∷ d) = ground (arith, lookup-snoc j k v d)

  pub snoc-NodupKeys :
      (k : K) (v : V) (d : Dict K V)
      → NodupKeys d
      → lookup k d ≡ none
      → NodupKeys (d ++ ((k, v) ∷ []))
  unfolding lookup
  snoc-NodupKeys k v [] u h = (refl, tt)
  snoc-NodupKeys k v ((i, w) ∷ d) (fresh, u) h =
      ground (arith, lookup-snoc i k v d, snoc-NodupKeys k v d u, e.equal_iff i k, e.equal_iff k i)

  pub length-trim-le : (bound : ℕ) (d : Dict K V) → length (trim bound d) ≤ bound
  unfolding trim
  length-trim-le bound [] = omega arith
  length-trim-le bound (x ∷ d) = ground (arith, length-trim-le bound d)

  pub trim_of_length-le : (bound : ℕ) (d : Dict K V) → length d ≤ bound → trim bound d ≡ d
  unfolding trim
  trim_of_length-le bound [] h = refl
  trim_of_length-le bound (x ∷ d) h = ground arith

  pub lookup-trim-none :
      (bound : ℕ) (k : K) (d : Dict K V) → lookup k d ≡ none → lookup k (trim bound d) ≡ none
  unfolding trim lookup
  lookup-trim-none bound k [] h = refl
  lookup-trim-none bound k ((i, w) ∷ d) h = ground (arith, lookup-trim-none bound k d)

  pub trim-NodupKeys : (bound : ℕ) (d : Dict K V) → NodupKeys d → NodupKeys (trim bound d)
  unfolding trim
  trim-NodupKeys bound [] u = tt
  trim-NodupKeys bound ((i, w) ∷ d) (fresh, u) = ground (arith, trim-NodupKeys bound d u)

  -- What is still there after the trim was there before, with the same value.
  pub lookup-trim :
      (bound : ℕ) (k : K) (v : V) (d : Dict K V)
      → NodupKeys d
      → lookup k (trim bound d) ≡ some v
      → lookup k d ≡ some v
  unfolding trim lookup
  lookup-trim bound k v [] u h = h
  lookup-trim bound k v ((i, w) ∷ d) (fresh, u) h =
      ground (arith, lookup-trim bound k v d u, lookup-trim-none bound k d, e.equal_iff k i)

  -- The newest key survives, since the trim pops from the other end.
  pub lookup-trim-snoc :
      (bound : ℕ) (k : K) (v : V) (d : Dict K V)
      → 0 < bound
      → lookup k d ≡ none
      → lookup k (trim bound (d ++ ((k, v) ∷ []))) ≡ some v
  unfolding trim lookup
  lookup-trim-snoc bound k v [] h fresh = ground (arith, e.equal_iff k k)
  lookup-trim-snoc bound k v ((i, w) ∷ d) h fresh =
      ground (arith, lookup-trim-snoc bound k v d, lookup-snoc k k v d, e.equal_iff k k)

  insert_of_none :
      (k : K) (v : V) (d : Dict K V) → lookup k d ≡ none → insert k v d ≡ d ++ ((k, v) ∷ [])
  unfolding insert lookup
  insert_of_none k v [] h = refl
  insert_of_none k v ((i, w) ∷ d) h = ground (arith, insert_of_none k v d)

  -- In a dict that is within the bound, an entry that has just been written survives the trim.
  pub lookup-trim-insert_self :
      (bound : ℕ) (k : K) (v : V) (d : Dict K V)
      → 0 < bound
      → length d ≤ bound
      → lookup k (trim bound (insert k v d)) ≡ some v
  lookup-trim-insert_self bound k v d pos fits = elim (Option-cases (lookup k d)) [
    | inl fresh ↦ rw (insert_of_none k v d fresh) (lookup-trim-snoc bound k v d pos fresh)
    | inr (w, old) ↦
        let same : length (insert k v d) ≡ length d = rw (length-insert, old) in
        rw (trim_of_length-le bound (insert k v d) (omega arith), lookup-insert)
          (rw ((e.equal_iff k k).1 refl))
  ]

  -- A trim keeps an entry, or drops it.
  pub lookup-trim-cases :
      (bound : ℕ) (k : K) (d : Dict K V)
      → NodupKeys d
      → (lookup k (trim bound d) ≡ none) ⊎ (lookup k (trim bound d) ≡ lookup k d)
  lookup-trim-cases bound k d u = elim (Option-cases (lookup k (trim bound d))) [
    | inl gone ↦ inl gone
    | inr (v, kept) ↦ inr (kept ∙ sym (lookup-trim bound k v d u kept))
  ]

  erase-insert : (k : K) (v : V) (d : Dict K V) → erase k (insert k v d) ≡ erase k d
  unfolding erase insert
  erase-insert k v [] = ground (arith, e.equal_iff k k)
  erase-insert k v ((i, w) ∷ d) = ground (arith, erase-insert k v d)

  pub move_to_end_of_some :
      (k : K) (v : V) (d : Dict K V)
      → lookup k d ≡ some v
      → move_to_end k d ≡ erase k d ++ ((k, v) ∷ [])
  unfolding move_to_end
  move_to_end_of_some k v d h = rw (h, move_to_end)

  -- To write a key and to move it to the end is to put it behind the other keys.
  pub move_to_end-insert :
      (k : K) (v : V) (d : Dict K V) → move_to_end k (insert k v d) ≡ erase k d ++ ((k, v) ∷ [])
  move_to_end-insert k v d =
      move_to_end_of_some k v (insert k v d) (rw lookup-insert (rw ((e.equal_iff k k).1 refl)))
      ∙ rw erase-insert

  pub erase-snoc-NodupKeys :
      (k : K) (v : V) (d : Dict K V) → NodupKeys d → NodupKeys (erase k d ++ ((k, v) ∷ []))
  erase-snoc-NodupKeys k v d u =
      snoc-NodupKeys k v (erase k d) (erase-NodupKeys k d u)
        (rw lookup-erase (rw ((e.equal_iff k k).1 refl)))

  pub lookup-erase-snoc :
      (j k : K) (v : V) (d : Dict K V)
      → lookup j (erase k d ++ ((k, v) ∷ [])) ≡ (if j == k then some v else lookup j d)
  lookup-erase-snoc j k v d = ground (arith, lookup-snoc j k v (erase k d), lookup-erase j k d)

  pub lookup-trim-erase-snoc_self :
      (bound : ℕ) (k : K) (v : V) (d : Dict K V)
      → 0 < bound
      → lookup k (trim bound (erase k d ++ ((k, v) ∷ []))) ≡ some v
  lookup-trim-erase-snoc_self bound k v d h =
      lookup-trim-snoc bound k v (erase k d) h (rw lookup-erase (rw ((e.equal_iff k k).1 refl)))

  pub length-erase-snoc :
      (k : K) (v w : V) (d : Dict K V)
      → lookup k d ≡ some w
      → length (erase k d ++ ((k, v) ∷ [])) ≤ length d
  length-erase-snoc k v w d h = omega (
    arith,
    length-append (erase k d) ((k, v) ∷ []),
    length-erase-lt k d (λ missing. ground arith),
  )

-- A dict whose keys all stand in another one is not longer.
pub length-le_of_subset {ℓ κ μ} :
    {K : Type ℓ} {V : Type κ} {W : Type μ} ⦃e : Eq K⦄ (a : Dict K V) (b : Dict K W)
    → NodupKeys a
    → ((k : K) → lookup k b ≡ none → lookup k a ≡ none)
    → length a ≤ length b
unfolding lookup
length-le_of_subset [] b u h = omega arith
length-le_of_subset ⦃e⦄ ((k, v) ∷ a) b (fresh, u) h = omega (
  arith,
  length-le_of_subset a (erase k b) u
      (λ j. ground (arith, h j, lookup-erase j k b, e.equal_iff j k)),
  length-erase-lt k b (λ missing. ground (arith, h k missing, e.equal_iff k k)),
)
