-- ===== src/Prelude/Sorting.antt =====
-- What `sort_by` keeps: its elements, and a number that the order respects.
use Prim.Native.Nat.{ℕ, ◌≤◌}
use mathlib.Core.Path.{◌≡◌, refl, ap, ◌∙◌}
use mathlib.Core.Logic.{◌⊎◌, inl, inr}
use mathlib.Core.Bool.{Bool, true, false}
use mathlib.Core.List.{List, [], ◌∷◌, ◌++◌}
use native.Mathlib.Omega.{arith}
use strmline.Prelude.Lists.{In, insert_sorted, sort_by}

module _ {A : Type 0} (lt : A → A → Bool) where
  insert_sorted-In : (x y : A) (ys : List A) → In x (insert_sorted lt y ys) → (x ≡ y) ⊎ In x ys
  insert_sorted-In x y [] m = ground arith
  insert_sorted-In x y (z ∷ ys) m = ground (arith, insert_sorted-In x y ys)

  pub sort_by-In : (x : A) (xs : List A) → In x (sort_by lt xs) → In x xs
  sort_by-In x [] m = m
  sort_by-In x (y ∷ ys) m = ground (arith, insert_sorted-In x y (sort_by lt ys) m, sort_by-In x ys)

  In-insert_sorted : (z x : A) (ys : List A) → (z ≡ x) ⊎ In z ys → In z (insert_sorted lt x ys)
  In-insert_sorted z x [] m = m
  In-insert_sorted z x (y ∷ ys) m = ground (arith, In-insert_sorted z x ys)

  In-sort_by : (z : A) (xs : List A) → In z xs → In z (sort_by lt xs)
  In-sort_by z [] m = m
  In-sort_by z (x ∷ xs) m = ground (arith, In-insert_sorted z x (sort_by lt xs), In-sort_by z xs)

  insert_sorted-ne-nil : (x : A) (xs : List A) → insert_sorted lt x xs ≡ [] → ⊥
  insert_sorted-ne-nil x [] e = cc
  insert_sorted-ne-nil x (y ∷ ys) e = ground arith

  pub sort_by-eq-nil : (xs : List A) → sort_by lt xs ≡ [] → xs ≡ []
  sort_by-eq-nil [] e = refl
  sort_by-eq-nil (x ∷ xs) e = absurd (insert_sorted-ne-nil x (sort_by lt xs) e)

-- What comes before all others and is added last, stands first.
module _ {A : Type 0} (lt : A → A → Bool) where
  pub sort_by-snoc :
      (x : A) (xs : List A)
      → ((y : A) → In y xs → lt x y ≡ true)
      → sort_by lt (xs ++ (x ∷ [])) ≡ x ∷ sort_by lt xs
  sort_by-snoc x [] h = refl
  sort_by-snoc x (y ∷ xs) h =
      ap (insert_sorted lt y) (sort_by-snoc x xs (λ z m. h z (inr m))) ∙ rw (h y (inl refl)) refl

-- A number that the order respects is least at the head of the sorted list.
module _ {A : Type 0} (lt : A → A → Bool) (key : A → ℕ)
    (below : (a b : A) → lt a b ≡ true → key a ≤ key b)
    (above : (a b : A) → lt a b ≡ false → key b ≤ key a) where
  insert_sorted-least :
      (x : A) (ys : List A)
      → ((y : A) (r : List A) → ys ≡ y ∷ r → (z : A) → In z ys → key y ≤ key z)
      → (h : A) (t : List A) → insert_sorted lt x ys ≡ h ∷ t
      → (z : A) → In z (x ∷ ys)
      → key h ≤ key z
  insert_sorted-least x [] hyp h t e z m = ground arith
  insert_sorted-least x (y ∷ ys) hyp h t e z m =
      ground (arith, hyp y ys refl y (inl refl), hyp y ys refl z, below y x, above y x)

  pub sort_by-least :
      (xs : List A) (h : A) (t : List A) → sort_by lt xs ≡ h ∷ t → (z : A) → In z xs → key h ≤ key z
  sort_by-least [] h t e z m = absurd m
  sort_by-least (x ∷ xs) h t e z m =
      insert_sorted-least x (sort_by lt xs)
        (λ y r p w n. sort_by-least xs y r p w (sort_by-In lt w xs n)) h t e z
        (elim m [ inl p ↦ inl p | inr p ↦ inr (In-sort_by lt z xs p) ])
