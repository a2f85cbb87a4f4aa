-- ===== src/Torbox/Files/Extract/Checks.antt =====
-- api/app/providers/torbox/files.py: what the checks of `_build_torbox_file` mean, stated on the
-- names, the tokens and the size of a file.
use strmline.Prelude.{
  ℕ, ◌*◌, ◌<◌, ◌≡◌, subst, if◌then◌else◌, ◌≢◌, ◌⊎◌, refl, inl, inr, String, Bool, true, false, not,
  ◌||◌, List, [], ◌∷◌, Option, none, some, ◌==◌, string_eq, eq_iff, In, any, contains, contains_iff,
  Bool-cases, arith,
}
use strmline.Prelude.Text.{Unicode, starts_with, ends_with}
use strmline.Prelude.Json.{ℤ}
use strmline.Torbox.Files.{
  TorBoxFile, video_extensions, named_extra_tokens, is_small, only_sample, is_video, tokens,
  is_sample_file, pack_extra, is_pack_extra, stem_of,
}
use strmline.Torbox.Files.Extract.{is_accepted}

-- A size that is known and above 250 MiB.
abbrev pub IsLarge : Option ℤ → Type 0
IsLarge size = (n : ℕ) × (size ≡ some (ℤ.pos n)) × (250 * 1024 * 1024 < n)

is_small-false : (size : Option ℤ) → is_small size ≡ false → IsLarge size
is_small-false none h = absurd (ground (arith, h))
is_small-false (some (ℤ.pos n)) h = (n, refl, ground (arith, h))
is_small-false (some (ℤ.negsuc n)) h = absurd (ground (arith, h))

any-In :
    (p : String → Bool) (xs : List String) → any p xs ≡ true → (x : String) × In x xs × (p x ≡ true)
any-In p [] h = absurd (ground (arith, h))
any-In p (y ∷ ys) h = elim (Bool-cases (p y)) [
  | inl e ↦ (y, inl refl, e)
  | inr e ↦ let (x, m, q) = any-In p ys (ground (arith, e, h)) in (x, inr m, q)
]

In-any :
    (p : String → Bool) (x : String) (xs : List String) → any p xs ≡ false → p x ≡ true → ¬ In x xs
In-any p x [] h e m = m
In-any p x (y ∷ ys) h e (inl s) =
    let at : p y ≡ true = subst (λ z. p z ≡ true) s e in ground (arith, at, h)
In-any p x (y ∷ ys) h e (inr m) = In-any p x ys (ground (arith, h)) e m

not_only : (t : String) → only_sample (t ∷ []) ≡ true → ¬ (only_sample (t ∷ []) ≡ false)
not_only t e h = ground (arith, e, h)

-- What an accepted file has passed, on the outcomes of the tests.
accepted_if :
    (a b c video sample extra : Bool)
    → (if a || b || c then false else if not video then false else not (sample || extra)) ≡ true
    → (a ≡ false) × (b ≡ false) × (c ≡ false) × (video ≡ true) × (sample ≡ false) × (extra ≡ false)
accepted_if a b c video sample extra h = ground (arith, h)

not_empty : (s : String) → (s == "") ≡ false → s ≢ ""
not_empty s h e = ground (arith, h, (eq_iff s "").1 e)

only_sample-false :
    (ts : List String) → only_sample ts ≡ false → (ts ≢ "sample" ∷ []) × (ts ≢ "sample2" ∷ [])
only_sample-false ts h = (
  λ e. not_only "sample" refl (subst (λ xs. only_sample xs ≡ false) e h),
  λ e. not_only "sample2" refl (subst (λ xs. only_sample xs ≡ false) e h),
)

absent : (xs : List String) (k : String) → contains xs k ≡ false → ¬ In k xs
absent xs k h m = ground (arith, h, (contains_iff xs k).1 m)

module _ (u : Unicode) where
  -- The type of a video, or no type and the extension of one.
  abbrev pub IsVideo : TorBoxFile → Type 0
  IsVideo f =
      ((f.mime_type ≢ "") × (starts_with "video/" f.mime_type ≡ true))
      ⊎ ((f.mime_type ≡ "")
          × ((extension : String) × In extension video_extensions
              × (ends_with extension (u.casefold f.file_name) ≡ true)))

  -- No name of a sample, unless it is large and its name says more than that.
  abbrev pub IsNoSample : TorBoxFile → Type 0
  IsNoSample f =
      (tokens u f.file_name ≢ "sample" ∷ [])
      × (tokens u f.file_name ≢ "sample2" ∷ [])
      × (((¬ In "sample" (tokens u f.file_name)) × (¬ In "samples" (tokens u f.path)))
          ⊎ IsLarge f.size)

  -- No name of an opening, an ending or another extra.
  abbrev pub IsNoExtra : TorBoxFile → Type 0
  IsNoExtra f =
      (pack_extra u (u.casefold (stem_of f.file_name)) ≡ false)
      × (¬ In "ncop" (tokens u f.file_name))
      × (¬ In "nced" (tokens u f.file_name))
      × (¬ In "opening" (tokens u f.file_name))
      × (¬ In "ending" (tokens u f.file_name))

  abbrev pub IsIdentified : TorBoxFile → Type 0
  IsIdentified f = (f.item_id ≢ "") × (f.file_id ≢ "") × (f.file_name ≢ "")

  is_video-IsVideo : (f : TorBoxFile) → is_video u f.file_name f.mime_type ≡ true → IsVideo f
  unfolding is_video
  is_video-IsVideo f h = elim (Bool-cases (f.mime_type == "")) [
    | inr n ↦ inl (λ e. ground (arith, n, (eq_iff f.mime_type "").1 e), ground (arith, n, h))
    | inl e ↦ inr ((eq_iff f.mime_type "").0 e, any-In _ video_extensions (ground (arith, e, h)))
  ]

  sample-IsNoSample :
      (f : TorBoxFile) → is_sample_file u f.file_name f.path f.size ≡ false → IsNoSample f
  unfolding is_sample_file
  sample-IsNoSample f h = elim (Bool-cases (only_sample (tokens u f.file_name))) [
    | inl o ↦ absurd (ground (arith, o, h))
    | inr o ↦
        let named = only_sample-false (tokens u f.file_name) o in
        (
          named.0,
          named.1,
          elim (Bool-cases (is_small f.size)) [
            | inr s ↦ inr (is_small-false f.size s)
            | inl s ↦ inl (
              absent (tokens u f.file_name) "sample" (ground (arith, o, s, h)),
              absent (tokens u f.path) "samples" (ground (arith, o, s, h)),
            )
          ],
        )
  ]

  extra-IsNoExtra : (f : TorBoxFile) → is_pack_extra u f.file_name ≡ false → IsNoExtra f
  unfolding is_pack_extra
  extra-IsNoExtra f h =
      let ts = tokens u f.file_name in
      let mark : pack_extra u (u.casefold (stem_of f.file_name)) ≡ false = ground (arith, h) in
      let named : any (λ t. contains named_extra_tokens t) ts ≡ false = ground (arith, h) in
      (
        mark,
        In-any _ "ncop" ts named refl,
        In-any _ "nced" ts named refl,
        In-any _ "opening" ts named refl,
        In-any _ "ending" ts named refl,
      )

  pub accepted-checks :
      (f : TorBoxFile)
      → is_accepted u f ≡ true
      → IsIdentified f × IsVideo f × IsNoSample f × IsNoExtra f
  unfolding is_accepted
  accepted-checks f h =
      let (item, file, name, video, sample, extra) =
        accepted_if (f.item_id == "") (f.file_id == "") (f.file_name == "")
          (is_video u f.file_name f.mime_type) (is_sample_file u f.file_name f.path f.size)
          (is_pack_extra u f.file_name) h in
      (
        (not_empty _ item, not_empty _ file, not_empty _ name),
        is_video-IsVideo f video,
        sample-IsNoSample f sample,
        extra-IsNoExtra f extra,
      )
