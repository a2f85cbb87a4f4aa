-- ===== src/Torbox/Files/Bluray/Grouping.antt =====
-- The groups that `_select_bluray_feature_files` makes, and its verdict on a file.
use strmline.Prelude.{
  ◌≡◌, refl, sym, ap, ◌∙◌, inl, inr, String, Bool, true, false, List, [], ◌∷◌, ◌++◌, Option, none,
  some, if◌then◌else◌, ◌==◌, string_eq, eq_iff, nat_beq, keep, Bool-cases, Option-cases,
}
use mathlib.Core.List.{append-nil, append_assoc}
use strmline.Prelude.Dict.{Dict, lookup, NodupKeys, lookup-insert, insert-NodupKeys}
use strmline.Prelude.Text.{Unicode}
use strmline.Torbox.Files.Bluray.{
  Object, bluray_stream_group, selection, append_to_group, group_files, selected_by_group, is_kept,
}

abbrev pub is_group : String → Option String → Bool
is_group g none = false
is_group g (some h) = g == h

-- The streams of a disc, in order.
abbrev pub streams : Unicode → String → List Object → List Object
streams u g os = keep (λ o. is_group g (bluray_stream_group u o.1.path)) os

-- What is known of a group when further streams come in.
abbrev extend : Option (List Object) → List Object → Option (List Object)
extend none [] = none
extend none (o ∷ os) = some (o ∷ os)
extend (some before) os = some (before ++ os)

lookup-append_to_group :
    (g h : String) (o : Object) (groups : Dict String (List Object))
    → lookup g (append_to_group h o groups)
      ≡ (if g == h then extend (lookup h groups) (o ∷ []) else lookup g groups)
unfolding append_to_group
lookup-append_to_group g h o groups = elim (Option-cases (lookup h groups)) [
  | inl e ↦ rw (append_to_group, e) (lookup-insert g h (o ∷ []) groups)
  | inr (before, e) ↦ rw (append_to_group, e) (lookup-insert g h (before ++ (o ∷ [])) groups)
]

lookup-append_to_group_self :
    (g h : String) (o : Object) (groups : Dict String (List Object))
    → (g == h) ≡ true
    → lookup g (append_to_group h o groups) ≡ extend (lookup g groups) (o ∷ [])
lookup-append_to_group_self g h o groups e =
    lookup-append_to_group g h o groups
    ∙ rw e (ap (λ k. extend (lookup k groups) (o ∷ [])) (sym ((eq_iff g h).0 e)))

append_to_group-NodupKeys :
    (h : String) (o : Object) (groups : Dict String (List Object))
    → NodupKeys groups
    → NodupKeys (append_to_group h o groups)
unfolding append_to_group
append_to_group-NodupKeys h o groups n = elim (Option-cases (lookup h groups)) [
  | inl e ↦ rw (append_to_group, e) (insert-NodupKeys h (o ∷ []) groups n)
  | inr (before, e) ↦ rw (append_to_group, e) (insert-NodupKeys h (before ++ (o ∷ [])) groups n)
]

extend-cons :
    (before : Option (List Object)) (o : Object) (os : List Object)
    → extend (extend before (o ∷ [])) os ≡ extend before (o ∷ os)
extend-cons none o os = refl
extend-cons (some before) o os = ap some (append_assoc before (o ∷ []) os)

extend-nil : (before : Option (List Object)) → extend before [] ≡ before
extend-nil none = refl
extend-nil (some before) = ap some (append-nil before)

module _ (u : Unicode) where
  grouped-step :
      (g : String) (o : Object) (os : List Object) (groups : Dict String (List Object))
      → (h : Option String)
      → extend
          (lookup g (elim h [ none ↦ groups | some group ↦ append_to_group group o groups ]))
          (streams u g os)
        ≡ extend (lookup g groups) (if is_group g h then o ∷ streams u g os else streams u g os)
  grouped-step g o os groups none = refl
  grouped-step g o os groups (some h) = elim (Bool-cases (g == h)) [
    | inl e ↦
        rw (e, lookup-append_to_group_self g h o groups e)
          (extend-cons (lookup g groups) o (streams u g os))
    | inr e ↦ rw (e, lookup-append_to_group g h o groups, e) refl
  ]

  -- A disc's entry is extended by its streams in order.
  lookup-group_files :
      (g : String) (os : List Object) (groups : Dict String (List Object))
      → lookup g (group_files u os groups) ≡ extend (lookup g groups) (streams u g os)
  unfolding group_files
  lookup-group_files g [] groups = sym (extend-nil (lookup g groups))
  lookup-group_files g (o ∷ os) groups =
      lookup-group_files g os _ ∙ grouped-step g o os groups (bluray_stream_group u o.1.path)

  group_files-NodupKeys :
      (os : List Object) (groups : Dict String (List Object))
      → NodupKeys groups
      → NodupKeys (group_files u os groups)
  unfolding group_files
  group_files-NodupKeys [] groups n = n
  group_files-NodupKeys (o ∷ os) groups n = elim (Option-cases (bluray_stream_group u o.1.path)) [
    | inl e ↦ rw e (group_files-NodupKeys os groups n)
    | inr (g, e) ↦ rw e (
        group_files-NodupKeys os (append_to_group g o groups)
          (append_to_group-NodupKeys g o groups n))
  ]

abbrev chosen_for : Option (List Object) → Option Object
chosen_for none = none
chosen_for (some candidates) = selection candidates

lookup-selected_by_group :
    (g : String) (groups : Dict String (List Object))
    → NodupKeys groups
    → lookup g (selected_by_group groups).0 ≡ chosen_for (lookup g groups)
unfolding lookup selected_by_group
lookup-selected_by_group g [] n = refl
lookup-selected_by_group g ((h, candidates) ∷ groups) n =
    elim (Option-cases (selection candidates)) [
      | inl e ↦
          rw (selected_by_group, e)
            (elim (Bool-cases (g == h)) [
              | inl same ↦
                  rw (same, e)
                    (ap (λ k. lookup k (selected_by_group groups).0) ((eq_iff g h).0 same)
                      ∙ lookup-selected_by_group h groups n.1
                      ∙ ap chosen_for n.0)
              | inr other ↦ rw other (lookup-selected_by_group g groups n.1)
            ])
      | inr (s, e) ↦
          rw (selected_by_group, e)
            (elim (Bool-cases (g == h)) [
              | inl same ↦ rw (same, e) refl
              | inr other ↦ rw other (lookup-selected_by_group g groups n.1)
            ])
    ]

-- The verdict on a file, told from the streams of its disc alone.
abbrev pub verdict : Option Object → Object → Bool
verdict none o = true
verdict (some s) o = nat_beq o.0 s.0

is_kept-verdict :
    (selected : Dict String Object) (g : String) (o : Object)
    → is_kept selected (some g) o ≡ verdict (lookup g selected) o
unfolding is_kept
is_kept-verdict selected g o = elim (Option-cases (lookup g selected)) [
  | inl e ↦ rw (is_kept, e) refl
  | inr (s, e) ↦ rw (is_kept, e) refl
]

selection-extend : (os : List Object) → chosen_for (extend none os) ≡ selection os
unfolding selection
selection-extend [] = refl
selection-extend (o ∷ os) = refl

module _ (u : Unicode) where
  lookup-selected :
      (g : String) (os : List Object)
      → lookup g (selected_by_group (group_files u os [])).0 ≡ selection (streams u g os)
  unfolding lookup
  lookup-selected g os =
      lookup-selected_by_group g (group_files u os []) (group_files-NodupKeys u os [] tt)
      ∙ ap chosen_for (lookup-group_files u g os [])
      ∙ selection-extend (streams u g os)

  -- Of the streams of a disc a file is kept when the disc has fewer than two streams or none whose
  -- size is known, and otherwise when it is the first of the largest.
  pub is_kept-streams :
      (os : List Object) (o : Object) (g : String)
      → bluray_stream_group u o.1.path ≡ some g
      → is_kept (selected_by_group (group_files u os [])).0 (bluray_stream_group u o.1.path) o
        ≡ verdict (selection (streams u g os)) o
  is_kept-streams os o g e = rw e (
      is_kept-verdict (selected_by_group (group_files u os [])).0 g o
      ∙ ap (λ h. verdict h o) (lookup-selected g os))
