-- ===== src/Torbox/Files/Bluray/Selection.antt =====
-- Which files of a disc `_select_bluray_feature_files` keeps.
use strmline.Prelude.{
  ℕ, suc, ◌≡◌, refl, sym, ap, ◌∙◌, inl, inr, String, true, false, List, [], ◌∷◌, Option, none, some,
  string_eq, eq_iff, nat_beq_iff, map, In, In-keep, keep-In, Option-cases, arith,
}
use strmline.Prelude.Text.{Unicode}
use strmline.Torbox.Files.{TorBoxFile}
use strmline.Torbox.Files.Bluray.{
  Object, objects_from, bluray_stream_group, is_sized, int_lt, size_key, selection, group_files,
  selected_by_group, keep_selected, select_bluray_feature_files,
}
use strmline.Torbox.Files.Bluray.Grouping.{streams, is_group, is_kept-streams, verdict}
use strmline.Torbox.Files.Bluray.Largest.{selection-IsLargest, int_lt_irrefl}

is_group-eq : (g : String) (h : Option String) → is_group g h ≡ true → h ≡ some g
is_group-eq g none e = absurd (ground arith)
is_group-eq g (some h) e = ap some (sym ((eq_iff g h).0 e))

In-map : (f : Object → TorBoxFile) (o : Object) (os : List Object) → In o os → In (f o) (map f os)
In-map f o (p ∷ os) (inl e) = inl (ap f e)
In-map f o (p ∷ os) (inr m) = inr (In-map f o os m)
In-map f o [] m = absurd m

objects_from-In :
    (n : ℕ) (f : TorBoxFile) (files : List TorBoxFile)
    → In f files
    → (k : ℕ) × In (k, f) (objects_from n files)
unfolding objects_from
objects_from-In n f (g ∷ files) (inl e) = (n, inl (ap (λ x. (n, x)) e))
objects_from-In n f (g ∷ files) (inr m) =
    let (k, i) = objects_from-In (suc n) f files m in (k, inr i)
objects_from-In n f [] m = absurd m

module _ (u : Unicode) where
  -- For an object of a disc: an object of the same disc that is kept and not smaller.
  keep_selected-streams :
      (os : List Object) (o : Object) (g : String)
      → In o os
      → bluray_stream_group u o.1.path ≡ some g
      → (s : Object) × In s (keep_selected u (selected_by_group (group_files u os [])).0 os)
        × (bluray_stream_group u s.1.path ≡ some g)
        × (is_sized o ≡ true → int_lt (size_key s) (size_key o) ≡ false)
  keep_selected-streams os o g m e = elim (Option-cases (selection (streams u g os))) [
    | inl n ↦ (
      o,
      keep-In _ o os m (is_kept-streams u os o g e ∙ ap (λ h. verdict h o) n),
      e,
      λ z. int_lt_irrefl (size_key o),
    )
    | inr (s, n) ↦
        let (i, most) = selection-IsLargest (streams u g os) s n in
        let (j, z) = In-keep is_sized s (streams u g os) i in
        let (k, same) = In-keep _ s os j in
        let of_disc = is_group-eq g (bluray_stream_group u s.1.path) same in
        (
          s,
          keep-In _ s os k (
              is_kept-streams u os s g of_disc
              ∙ ap (λ h. verdict h s) n
              ∙ (nat_beq_iff s.0 s.0).1 refl),
          of_disc,
          λ sized. most o (
              keep-In is_sized o (streams u g os)
                (keep-In _ o os m (ap (is_group g) e ∙ (eq_iff g g).1 refl)) sized),
        )
  ]

  -- A file of a Blu-ray disc is selected itself, or a file of the same disc is that is not smaller:
  -- no disc is left without a stream, and a stream whose size is known only gives way to one that
  -- is at least as large.
  pub select-keeps_disc :
      (files : List TorBoxFile) (f : TorBoxFile) (g : String)
      → In f files
      → bluray_stream_group u f.path ≡ some g
      → (s : TorBoxFile) × In s (select_bluray_feature_files u files).0
        × (bluray_stream_group u s.path ≡ some g)
        × (is_sized (0, f) ≡ true → int_lt (size_key (0, s)) (size_key (0, f)) ≡ false)
  unfolding select_bluray_feature_files
  select-keeps_disc files f g m e =
      let (k, i) = objects_from-In 0 f files m in
      let (s, kept, disc, most) = keep_selected-streams (objects_from 0 files) (k, f) g i e in
      (s.1, In-map (λ o. o.1) s _ kept, disc, most)
