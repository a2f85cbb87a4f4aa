-- ===== src/Resolver/Recovery/Matching.antt =====
-- The file that a recovered torrent offers in place of the saved one.
use strmline.Prelude.{
  some_inj, ◌≡◌, refl, sym, ap, ◌⊎◌, inl, inr, true, List, [], ◌∷◌, Option, none, some, keep, In,
  In-keep, arith,
}
use strmline.Prelude.Text.{Unicode}
use strmline.Prelude.Json.{Fields, ℤ}
use strmline.Torbox.Files.{TorBoxFile, DownloadKind}
use strmline.Torbox.Files.Extract.{extract_torbox_files}
use strmline.Resolver.Recovery.{
  has_size, first_of, only_one, only_of_size, or_option, same_path, same_name, match_candidates,
  matching_file,
}

first_of-In : (f : TorBoxFile) (fs : List TorBoxFile) → first_of fs ≡ some f → In f fs
first_of-In f [] e = absurd (ground (arith, e))
first_of-In f (g ∷ fs) e = inl (sym (some_inj e))

only_one-eq : (f : TorBoxFile) (fs : List TorBoxFile) → only_one fs ≡ some f → fs ≡ f ∷ []
only_one-eq f [] e = absurd (ground (arith, e))
only_one-eq f (g ∷ []) e = ap (λ x. x ∷ []) (some_inj e)
only_one-eq f (g ∷ h ∷ fs) e = absurd (ground (arith, e))

or_option-cases :
    (a b : Option TorBoxFile) (f : TorBoxFile)
    → or_option a b ≡ some f
    → (a ≡ some f) ⊎ ((a ≡ none) × (b ≡ some f))
or_option-cases none b f e = inr (refl, e)
or_option-cases (some a) b f e = inl e

module _ (u : Unicode) where
  -- Why a candidate is offered: its path is that of the saved file, or no candidate has that path
  -- and among those with its name it is the only one, or the only one of its size.
  pub data Offered (saved_file : TorBoxFile) (candidates : List TorBoxFile) (f : TorBoxFile)
      : Type 0 where
    by_path : same_path u saved_file f ≡ true → Offered saved_file candidates f
    by_name_and_size :
        {size : ℤ}
        → keep (same_path u saved_file) candidates ≡ []
        → saved_file.size ≡ some size
        → keep (has_size size) (keep (same_name u saved_file) candidates) ≡ f ∷ []
        → Offered saved_file candidates f
    by_name :
        keep (same_path u saved_file) candidates ≡ []
        → keep (same_name u saved_file) candidates ≡ f ∷ []
        → Offered saved_file candidates f

  first_of-none : (fs : List TorBoxFile) → first_of fs ≡ none → fs ≡ []
  first_of-none [] e = refl
  first_of-none (f ∷ fs) e = absurd (ground (arith, e))

  only_of_size-eq :
      (size : Option ℤ) (fs : List TorBoxFile) (f : TorBoxFile)
      → only_of_size size fs ≡ some f
      → (n : ℤ) × (size ≡ some n) × (keep (has_size n) fs ≡ f ∷ [])
  only_of_size-eq none fs f e = absurd (ground (arith, e))
  only_of_size-eq (some n) fs f e = (n, refl, only_one-eq f (keep (has_size n) fs) e)

  match_candidates-Offered :
      (candidates : List TorBoxFile) (saved_file f : TorBoxFile)
      → match_candidates u candidates saved_file ≡ some f
      → In f candidates × Offered saved_file candidates f
  unfolding match_candidates
  match_candidates-Offered candidates saved_file f e =
      elim (or_option-cases (first_of (keep (same_path u saved_file) candidates)) _ f e) [
        | inl p ↦
            let (m, same) =
              In-keep (same_path u saved_file) f candidates
                (first_of-In f (keep (same_path u saved_file) candidates) p) in
            (m, Offered.by_path same)
        | inr (z, p) ↦
            let no_path = first_of-none (keep (same_path u saved_file) candidates) z in
            elim (or_option-cases
              (only_of_size saved_file.size (keep (same_name u saved_file) candidates)) _ f p) [
                | inl q ↦
                    let (n, known, only) =
                      only_of_size-eq saved_file.size (keep (same_name u saved_file) candidates) f
                        q in
                    (
                      (In-keep (same_name u saved_file) f candidates
                          (In-keep (has_size n) f (keep (same_name u saved_file) candidates)
                            (rw only (inl refl))).0).0,
                      Offered.by_name_and_size no_path known only,
                    )
                | inr (z2, q) ↦
                    let only = only_one-eq f (keep (same_name u saved_file) candidates) q in
                    (
                      (In-keep (same_name u saved_file) f candidates (rw only (inl refl))).0,
                      Offered.by_name no_path only,
                    )
              ]
      ]

  -- The file that is offered is one of those that the torrent lists, and it is offered because it
  -- has the path of the saved file, or, when none has, because it is the only one with that name,
  -- or with that name and size.
  pub matching_file-Offered :
      (torrent : Fields) (saved_file f : TorBoxFile)
      → matching_file u torrent saved_file ≡ some f
      → In f (extract_torbox_files u (torrent ∷ []) DownloadKind.torrents).files
        × Offered saved_file (extract_torbox_files u (torrent ∷ []) DownloadKind.torrents).files f
  unfolding matching_file
  matching_file-Offered torrent saved_file f e = match_candidates-Offered _ saved_file f e
