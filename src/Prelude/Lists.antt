-- ===== src/Prelude/Lists.antt =====
-- Lists measured by native numbers, under the library's names, and a few folds.
use Prim.Native.Nat.{ℕ, suc, ◌+◌, ◌≤◌}
use mathlib.Core.Path.{◌≡◌, refl}
use mathlib.Core.Logic.{◌⊎◌, ◌↔◌}
use mathlib.Core.Bool.{Bool, true, false, ◌||◌}
use mathlib.Core.List.{List, [], ◌∷◌, ◌++◌}
use native.Mathlib.Omega.{arith}
use strmline.Prelude.Tests.{Eq, ◌==◌, if◌then◌else◌}

module _ {ℓ} {A : Type ℓ} where
  abbrev pub length : List A → ℕ
  length [] = 0
  length (x ∷ xs) = suc (length xs)

  pub length-append : (xs ys : List A) → length (xs ++ ys) ≡ length xs + length ys
  length-append [] ys = omega arith
  length-append (x ∷ xs) ys = omega (arith, length-append xs ys)

  abbrev pub All {κ} : (A → Type κ) → List A → Type κ
  All P [] = Unit
  All P (x ∷ xs) = P x × All P xs

  pub All-append {κ} :
      (P : A → Type κ) (left right : List A) → All P left → All P right → All P (left ++ right)
  All-append P [] right p q = q
  All-append P (x ∷ left) right (first, rest) q = (first, All-append P left right rest q)

  -- `[x for x in xs if p(x)]`
  abbrev pub keep : (A → Bool) → List A → List A
  keep p [] = []
  keep p (x ∷ xs) = let rest = keep p xs in if p x then x ∷ rest else rest

  -- `any(p(x) for x in xs)`
  abbrev pub any : (A → Bool) → List A → Bool
  any p [] = false
  any p (x ∷ xs) = p x || any p xs

  pub length-keep-le : (p : A → Bool) (xs : List A) → length (keep p xs) ≤ length xs
  length-keep-le p [] = omega arith
  length-keep-le p (x ∷ xs) = ground (arith, length-keep-le p xs)

  pub keep-append : (p : A → Bool) (xs ys : List A) → keep p (xs ++ ys) ≡ keep p xs ++ keep p ys
  keep-append p [] ys = refl
  keep-append p (x ∷ xs) ys = ground (arith, keep-append p xs ys)

  -- `sorted(xs)` by a strict order: a stable insertion sort.
  abbrev pub insert_sorted : (A → A → Bool) → A → List A → List A
  insert_sorted lt x [] = x ∷ []
  insert_sorted lt x (y ∷ ys) = if lt y x then y ∷ insert_sorted lt x ys else x ∷ y ∷ ys

  abbrev pub sort_by : (A → A → Bool) → List A → List A
  sort_by lt [] = []
  sort_by lt (x ∷ xs) = insert_sorted lt x (sort_by lt xs)

module _ {A : Type 0} where
  -- Membership with its place, by recursion, which the tactics read.
  abbrev pub In : A → List A → Type 0
  In x [] = ⊥
  In x (y ∷ ys) = (x ≡ y) ⊎ In x ys

  pub In-keep : (p : A → Bool) (x : A) (xs : List A) → In x (keep p xs) → In x xs × (p x ≡ true)
  In-keep p x (y ∷ ys) m = ground (arith, In-keep p x ys)
  In-keep p x [] m = absurd m

  pub keep-In : (p : A → Bool) (x : A) (xs : List A) → In x xs → p x ≡ true → In x (keep p xs)
  keep-In p x (y ∷ ys) m h = ground (arith, keep-In p x ys)
  keep-In p x [] m h = absurd m

-- `x in xs`
module _ {ℓ} {Key : Type ℓ} ⦃eq : Eq Key⦄ where
  abbrev pub contains : List Key → Key → Bool
  contains [] k = false
  contains (y ∷ ys) k = k == y || contains ys k

  pub contains-append :
      (ys zs : List Key) (k : Key) → contains (ys ++ zs) k ≡ (contains ys k || contains zs k)
  contains-append [] zs k = refl
  contains-append (y ∷ ys) zs k = ground (arith, contains-append ys zs k)

module _ {Key : Type 0} ⦃eq : Eq Key⦄ where
  pub contains_iff : (xs : List Key) (k : Key) → (contains xs k ≡ true) ↔ In k xs
  contains_iff [] k = (λ h. absurd (ground (arith, h)), λ m. absurd m)
  contains_iff (y ∷ ys) k = ground (arith, contains_iff ys k, eq.equal_iff k y)
