-- ===== src/Torbox/Files/Bluray/Largest.antt =====
-- `max` over the candidates whose size is known.
use strmline.Prelude.{
  some_inj, ◌≡◌, refl, sym, ap, subst, ◌∙◌, inl, inr, Bool, true, false, List, [], ◌∷◌, some,
  if◌then◌else◌, string_eq, length, ltb, keep, In, Bool-cases, List-cases, arith,
}
use strmline.Prelude.Json.{ℤ}
use strmline.Torbox.Files.Bluray.{Object, is_sized, int_lt, size_key, largest, selection}

pub int_lt_irrefl : (a : ℤ) → int_lt a a ≡ false
int_lt_irrefl (ℤ.pos a) = ground arith
int_lt_irrefl (ℤ.negsuc a) = ground arith

not-int_lt_trans : (a b c : ℤ) → int_lt b a ≡ false → int_lt c b ≡ false → int_lt c a ≡ false
not-int_lt_trans (ℤ.pos a) (ℤ.pos b) (ℤ.pos c) h k = ground arith
not-int_lt_trans (ℤ.pos a) (ℤ.pos b) (ℤ.negsuc c) h k = ground arith
not-int_lt_trans (ℤ.pos a) (ℤ.negsuc b) c h k = absurd (ground arith)
not-int_lt_trans (ℤ.negsuc a) (ℤ.pos b) (ℤ.pos c) h k = refl
not-int_lt_trans (ℤ.negsuc a) (ℤ.pos b) (ℤ.negsuc c) h k = absurd (ground arith)
not-int_lt_trans (ℤ.negsuc a) (ℤ.negsuc b) (ℤ.pos c) h k = refl
not-int_lt_trans (ℤ.negsuc a) (ℤ.negsuc b) (ℤ.negsuc c) h k = ground arith

int_lt_asymm : (a b : ℤ) → int_lt a b ≡ true → int_lt b a ≡ false
int_lt_asymm (ℤ.pos a) (ℤ.pos b) h = ground arith
int_lt_asymm (ℤ.pos a) (ℤ.negsuc b) h = absurd (ground arith)
int_lt_asymm (ℤ.negsuc a) (ℤ.pos b) h = refl
int_lt_asymm (ℤ.negsuc a) (ℤ.negsuc b) h = ground arith

-- The largest is one of the objects, and none of them is larger.
abbrev pub IsLargest : Object → List Object → Type 0
IsLargest s os = In s os × ((o : Object) → In o os → int_lt (size_key s) (size_key o) ≡ false)

-- What is not above `s` when `os` and `best` are not.
below_all :
    (s best : Object) (os : List Object)
    → ((o : Object) → In o os → int_lt (size_key s) (size_key o) ≡ false)
    → int_lt (size_key s) (size_key best) ≡ false
    → (o : Object) → In o (best ∷ os)
    → int_lt (size_key s) (size_key o) ≡ false
below_all s best os most h o (inl e) = ap (λ x. int_lt (size_key s) (size_key x)) e ∙ h
below_all s best os most h o (inr m) = most o m

second_place : (s a b : Object) (os : List Object) → In s (a ∷ os) → In s (a ∷ b ∷ os)
second_place s a b os (inl e) = inl e
second_place s a b os (inr m) = inr (inr m)

largest-cons :
    (best o : Object) (os : List Object) (b : Bool)
    → int_lt (size_key best) (size_key o) ≡ b
    → largest best (o ∷ os) ≡ (if b then largest o os else largest best os)
unfolding largest
largest-cons best o os b h = rw h refl

largest-IsLargest : (best : Object) (os : List Object) → IsLargest (largest best os) (best ∷ os)
unfolding largest
largest-IsLargest best [] = (
  inl refl,
  λ o m. ground (arith, λ (e : o ≡ best). ap size_key e, int_lt_irrefl (size_key best)),
)
largest-IsLargest best (o ∷ os) = elim (Bool-cases (int_lt (size_key best) (size_key o))) [
  | inl h ↦
      let (m, most) = largest-IsLargest o os in
      subst (λ s. IsLargest s (best ∷ o ∷ os)) (sym (largest-cons best o os true h))
        (
          inr m,
          below_all (largest o os) best (o ∷ os) most (
              not-int_lt_trans (size_key best) (size_key o) (size_key (largest o os))
                (int_lt_asymm (size_key best) (size_key o) h) (most o (inl refl))),
        )
  | inr h ↦
      let (m, most) = largest-IsLargest best os in
      subst (λ s. IsLargest s (best ∷ o ∷ os)) (sym (largest-cons best o os false h))
        (
          second_place (largest best os) best o os m,
          below_all (largest best os) best (o ∷ os)
              (below_all (largest best os) o os (λ x i. most x (inr i))
                (not-int_lt_trans (size_key o) (size_key best) (size_key (largest best os)) h
                  (most best (inl refl))))
              (most best (inl refl)),
        )
]

-- What `selection` answers: no choice, or the largest of the sized candidates.
pub selection-IsLargest :
    (candidates : List Object) (s : Object)
    → selection candidates ≡ some s
    → IsLargest s (keep is_sized candidates)
unfolding selection
selection-IsLargest candidates s e = elim (Bool-cases (ltb (length candidates) 2)) [
  | inl few ↦ absurd (ground (arith, few, e))
  | inr h ↦ elim (List-cases (keep is_sized candidates)) [
    | inl z ↦ absurd (ground (arith, h, z, e))
    | inr (o, os, z) ↦
        subst (λ xs. IsLargest s xs) (sym z)
          (subst (λ x. IsLargest x (o ∷ os)) (some_inj (sym (rw (selection, h, z) refl) ∙ e))
            (largest-IsLargest o os))
  ]
]
