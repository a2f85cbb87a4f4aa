-- ===== src/Torbox/Files/Extract/Accepted.antt =====
-- api/app/providers/torbox/files.py: what the files that `extract_torbox_files` returns have passed.
use strmline.Prelude.{
  some_inj, ℕ, suc, ◌≡◌, refl, sym, subst, ◌∙◌, inl, inr, Bool, List, [], ◌∷◌, ◌++◌, some, map,
  keep, All, All-append, Bool-cases, Option-cases, arith,
}
use strmline.Prelude.Text.{Unicode}
use strmline.Prelude.Json.{Json, Items, Fields, get, is_false}
use strmline.Torbox.Files.{DownloadKind, TorBoxFile}
use strmline.Torbox.Files.Bluray.{Object, objects_from, select_bluray_feature_files}
use strmline.Torbox.Files.Extract.Checks.{
  IsIdentified, IsVideo, IsNoSample, IsNoExtra, accepted-checks,
}
use strmline.Torbox.Files.Extract.{
  read_file, raw_torbox_file, listed_files, is_accepted, build_torbox_file, item_files_loop,
  item_files, extract_loop, extract_torbox_files,
}

-- The selection drops files and adds none.
module _ {κ} (P : TorBoxFile → Type κ) where
  objects-All :
      (n : ℕ) (files : List TorBoxFile) → All P files → All (λ o. P o.1) (objects_from n files)
  unfolding objects_from
  objects-All n [] a = tt
  objects-All n (f ∷ files) (p, a) = (p, objects-All (suc n) files a)

  map-keep-All :
      (p : Object → Bool) (os : List Object)
      → All (λ o. P o.1) os
      → All P (map (λ o. o.1) (keep p os))
  map-keep-All p [] a = tt
  map-keep-All p (o ∷ os) (h, a) = elim (Bool-cases (p o)) [
    | inl e ↦ rw e (h, map-keep-All p os a)
    | inr e ↦ rw e (map-keep-All p os a)
  ]

  pub select-All :
      (u : Unicode) (files : List TorBoxFile)
      → All P files
      → All P (select_bluray_feature_files u files).0
  unfolding select_bluray_feature_files
  select-All u files a = map-keep-All _ (objects_from 0 files) (objects-All 0 files a)

module _ (u : Unicode) (kind : DownloadKind) where
  -- A file with its identifiers and a name, of a video, no sample and no extra, of the kind that
  -- was asked for.
  abbrev pub IsExtracted : TorBoxFile → Type 0
  IsExtracted f =
      (IsIdentified u f × IsVideo u f × IsNoSample u f × IsNoExtra u f) × (f.kind ≡ kind)

  read_file-kind : (item raw_file : Fields) → (read_file u item raw_file kind).kind ≡ kind
  unfolding read_file
  read_file-kind item raw_file = refl

  raw-IsExtracted :
      (item : Fields) (raw_file : Json) (f : TorBoxFile)
      → raw_torbox_file u item kind raw_file ≡ some f
      → IsExtracted f
  unfolding raw_torbox_file build_torbox_file
  raw-IsExtracted item (Json.object raw_file) f e =
      elim (Bool-cases (is_accepted u (read_file u item raw_file kind))) [
        | inl h ↦
            subst IsExtracted {x = read_file u item raw_file kind} (some_inj (sym (rw h refl) ∙ e))
              (accepted-checks u (read_file u item raw_file kind) h, read_file-kind item raw_file)
        | inr h ↦ absurd (ground (arith, h, e))
      ]
  raw-IsExtracted item Json.null f e = absurd (ground (arith, e))
  raw-IsExtracted item (Json.boolean _) f e = absurd (ground (arith, e))
  raw-IsExtracted item (Json.integer _) f e = absurd (ground (arith, e))
  raw-IsExtracted item (Json.float _) f e = absurd (ground (arith, e))
  raw-IsExtracted item (Json.text _) f e = absurd (ground (arith, e))
  raw-IsExtracted item (Json.array _) f e = absurd (ground (arith, e))

  item_files_loop-All :
      (item : Fields) (raw_files : Items) (extracted : List TorBoxFile) (skipped : ℕ)
      → All IsExtracted extracted
      → All IsExtracted (item_files_loop u item kind raw_files extracted skipped).0
  unfolding item_files_loop
  item_files_loop-All item Items.nil extracted skipped a = a
  item_files_loop-All item (Items.cons raw_file rest) extracted skipped a =
      elim (Option-cases (raw_torbox_file u item kind raw_file)) [
        | inl e ↦ rw (item_files_loop, e) (item_files_loop-All item rest extracted (suc skipped) a)
        | inr (f, e) ↦
            rw (item_files_loop, e)
              (item_files_loop-All item rest (extracted ++ (f ∷ [])) skipped (
                All-append IsExtracted extracted (f ∷ []) a
                  (raw-IsExtracted item raw_file f e, tt)))
      ]

  listed-All :
      (item : Fields) (listed : Json) (skipped : ℕ)
      → All IsExtracted (listed_files u item kind listed skipped).0
  unfolding listed_files
  listed-All item (Json.array raw_files) skipped =
      select-All IsExtracted u _ (item_files_loop-All item raw_files [] skipped tt)
  listed-All item Json.null skipped = tt
  listed-All item (Json.boolean _) skipped = tt
  listed-All item (Json.integer _) skipped = tt
  listed-All item (Json.float _) skipped = tt
  listed-All item (Json.text _) skipped = tt
  listed-All item (Json.object _) skipped = tt

  item_files-All :
      (item : Fields) (skipped : ℕ) → All IsExtracted (item_files u item kind skipped).0
  unfolding item_files
  item_files-All item skipped = elim (Bool-cases (is_false (get "cached" item))) [
    | inl e ↦ rw e tt
    | inr e ↦ rw e (listed-All item (get "files" item) skipped)
  ]

  extract_loop-All :
      (downloads : List Fields) (files : List TorBoxFile) (skipped : ℕ)
      → All IsExtracted files
      → All IsExtracted (extract_loop u downloads kind files skipped).files
  unfolding extract_loop
  extract_loop-All [] files skipped a = a
  extract_loop-All (item ∷ downloads) files skipped a =
      extract_loop-All downloads _ _
        (All-append IsExtracted files _ a (item_files-All item skipped))

  -- Whatever TorBox answers, each extracted file has an item, an identifier and a name, and the kind
  -- that was asked for. Its type begins with "video/", or is empty and the name in lower case ends
  -- with the extension of a video. Its name is not just "sample" or "sample2", and if "sample" is a
  -- word of the name or "samples" one of the path, its size is known and above 250 MiB. No word of
  -- the name is "ncop", "nced", "opening" or "ending", and the name does not begin like an extra of
  -- a pack ("s01op1").
  pub extract-IsExtracted :
      (downloads : List Fields) → All IsExtracted (extract_torbox_files u downloads kind).files
  unfolding extract_torbox_files
  extract-IsExtracted downloads = extract_loop-All downloads [] 0 tt
