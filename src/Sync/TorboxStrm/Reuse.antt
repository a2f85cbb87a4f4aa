-- ===== src/Sync/TorboxStrm/Reuse.antt =====
-- api/app/sync/torbox_strm.py: which file that was written before is kept as it is, and how a file
-- is written.
use strmline.Prelude.{
  some_inj, ◌≡◌, refl, sym, ap, subst, ◌∙◌, ◌↔◌, inl, inr, String, Bool, true, false, ◌&&◌, Option,
  none, some, if◌then◌else◌, ◌==◌, string_eq, eq_iff, Result, ok, raise, Bool-cases, Option-cases,
  arith,
}
use Prim.Native.String.{◌++◌ as ◌followed_by◌}
use strmline.Prelude.Dict.{Dict, lookup, insert}
use strmline.Prelude.Text.{universal_newlines}
use strmline.Sync.TorboxStrm.Sources.Same.{
  IsSameSource, IsSameIdentity, both_iff, same_text_iff, sources_agree, identities_agree,
}
use strmline.Library.Journal.{FilePath, path_eq, Files, OutsideRoot, is_within, ensure_within_root}
use strmline.Torbox.Files.{TorBoxFile}
use strmline.Sync.TorboxStrm.{SyncedStrmFile}
use strmline.Sync.TorboxStrm.Sources.{
  SourceFileKey, key_eq, source_file_key, same_source_file, same_identity, same_text, MediaIdentity,
}

-- `f"{url}\n"`
abbrev pub strm_content : String → String
strm_content url = url followed_by "\n"

-- `read_text() == content`, which reads the ends of lines alike: a file that does not exist does not
-- match.
abbrev pub holds : Option String → String → Bool
holds none content = false
holds (some text) content = universal_newlines text == content

-- `write_strm_file` of api/app/library/strm_writer.py, to a path below the root: a file that holds
-- the content already is left alone.
unfoldable pub write_strm_file : FilePath → String → Files → Files
unfolding lookup insert universal_newlines
write_strm_file path content files =
    if holds (lookup path files) content then files else insert path content files

not_kept :
    (r : SyncedStrmFile)
    → Path (Result OutsideRoot (Option SyncedStrmFile)) (ok none) (ok (some r))
    → ⊥
not_kept r e = ground (arith, e)

not_raised :
    {e : OutsideRoot} (r : SyncedStrmFile)
    → Path (Result OutsideRoot (Option SyncedStrmFile)) (raise e) (ok (some r))
    → ⊥
not_raised r p = ground (arith, p)

kept_inj :
    (a b : SyncedStrmFile)
    → Path (Result OutsideRoot (Option SyncedStrmFile)) (ok (some a)) (ok (some b))
    → a ≡ b
kept_inj a b e = ground (arith, e)

module _ (sha256 : String → String) (fingerprint : String) (root : FilePath)
    (can_read : FilePath → Bool) (reusable_files : Dict SourceFileKey SyncedStrmFile)
    (files : Files) (f : TorBoxFile) (entry_id playback_url : String) (info_hash : Option String)
    (selected_identity : Option MediaIdentity) where
  unfoldable pub metadata_matches : SyncedStrmFile → Bool
  unfolding same_source_file same_identity
  metadata_matches cached =
      cached.entry_id == entry_id
      && same_text cached.processing_fingerprint (some fingerprint)
      && same_source_file cached f info_hash
      && same_identity cached selected_identity
      && cached.content_hash == sha256 playback_url

  -- The rest of `_reusable_file` for what was written before.
  unfoldable pub check_written : SyncedStrmFile → Result OutsideRoot (Option SyncedStrmFile)
  unfolding metadata_matches ensure_within_root lookup universal_newlines
  check_written cached = elim (metadata_matches cached) [
    | false ↦ ok none
    | true ↦ elim (ensure_within_root root cached.path) [
      | raise e ↦ raise e
      | ok safe_path ↦
          if can_read safe_path && holds (lookup safe_path files) (strm_content playback_url)
          then ok (some cached)
          else ok none
    ]
  ]

  unfoldable pub reusable_file : Result OutsideRoot (Option SyncedStrmFile)
  unfolding source_file_key lookup check_written
  reusable_file = elim (lookup (source_file_key f) reusable_files) [
    | none ↦ ok none
    | some cached ↦ check_written cached
  ]

  -- What was written agrees with the entry, the source, the identity and the address.
  abbrev pub IsCurrent : SyncedStrmFile → Type 0
  IsCurrent cached =
      (cached.entry_id ≡ entry_id)
      × (cached.processing_fingerprint ≡ some fingerprint)
      × IsSameSource cached f info_hash
      × IsSameIdentity cached selected_identity
      × (cached.content_hash ≡ sha256 playback_url)

  -- What was written for the source, agrees with it, and still stands in its file, as it is read.
  abbrev pub IsReusable : SyncedStrmFile → Type 0
  IsReusable cached =
      (lookup (source_file_key f) reusable_files ≡ some cached)
      × IsCurrent cached
      × (is_within root cached.path ≡ true)
      × ((can_read cached.path ≡ true)
          × ((text : String) × (lookup cached.path files ≡ some text)
              × (universal_newlines text ≡ strm_content playback_url)))

  holds_iff :
      (o : Option String) (content : String)
      → (holds o content ≡ true)
        ↔ ((text : String) × (o ≡ some text) × (universal_newlines text ≡ content))
  holds_iff none content =
      (λ h. absurd (ground (arith, h)), λ (t, e, _). absurd (ground (arith, e)))
  holds_iff (some text) content = (
    λ h. (text, refl, (eq_iff (universal_newlines text) content).0 h),
    λ (t, e, q).
        (eq_iff (universal_newlines text) content).1 (ap universal_newlines (some_inj e) ∙ q),
  )

  reads :
      (cached : SyncedStrmFile)
      → ((can_read cached.path && holds (lookup cached.path files) (strm_content playback_url))
          ≡ true)
        ↔ ((can_read cached.path ≡ true)
            × ((text : String) × (lookup cached.path files ≡ some text)
                × (universal_newlines text ≡ strm_content playback_url)))
  reads cached =
      both_iff _ _ (λ h. h, λ h. h)
        (holds_iff (lookup cached.path files) (strm_content playback_url))

  metadata_agrees : (cached : SyncedStrmFile) → (metadata_matches cached ≡ true) ↔ IsCurrent cached
  unfolding metadata_matches
  metadata_agrees cached =
      let left =
        both_iff _ _
          (both_iff _ _
            (both_iff _ _
              (both_iff _ _ (eq_iff cached.entry_id entry_id)
                (same_text_iff cached.processing_fingerprint (some fingerprint)))
              (sources_agree cached f info_hash))
            (identities_agree cached selected_identity))
          (eq_iff cached.content_hash (sha256 playback_url)) in
      (
        λ h. let ((((a, b), c), d), e) = left.0 h in (a, b, c, d, e),
        λ (a, b, c, d, e). left.1 ((((a, b), c), d), e),
      )

  check_written-kept :
      (cached : SyncedStrmFile)
      → metadata_matches cached ≡ true
      → is_within root cached.path ≡ true
      → (can_read cached.path && holds (lookup cached.path files) (strm_content playback_url))
        ≡ true
      → check_written cached ≡ ok (some cached)
  unfolding check_written ensure_within_root
  check_written-kept cached e w h = rw (check_written, e, ensure_within_root, w, h) refl

  check_written-some :
      (cached r : SyncedStrmFile)
      → check_written cached ≡ ok (some r)
      → (cached ≡ r)
        × (metadata_matches cached ≡ true)
        × (is_within root cached.path ≡ true)
        × ((can_read cached.path && holds (lookup cached.path files) (strm_content playback_url))
            ≡ true)
  unfolding check_written ensure_within_root
  check_written-some cached r e = elim (Bool-cases (metadata_matches cached)) [
    | inr n ↦ absurd (not_kept r (sym (rw (check_written, n) refl) ∙ e))
    | inl m ↦ elim (Bool-cases (is_within root cached.path)) [
      | inr n ↦ absurd (
          not_raised {e = OutsideRoot.outside_root cached.path} r
            (sym (rw (check_written, m, ensure_within_root, n) refl) ∙ e))
      | inl w ↦
          elim (Bool-cases (
            can_read cached.path && holds (lookup cached.path files) (strm_content playback_url))) [
              | inr n ↦
                  absurd
                    (not_kept r (sym (rw (check_written, m, ensure_within_root, w, n) refl) ∙ e))
              | inl h ↦ (kept_inj cached r (sym (check_written-kept cached m w h) ∙ e), m, w, h)
            ]
    ]
  ]

  -- A file is kept as it was written exactly if it was written for the same source and entry under
  -- the same settings, agrees with what TorBox says of the source now (kind, identifiers, names,
  -- path, type, size and info hash), has the selected identity's TMDB id, title, year, poster and,
  -- if that has one, category (or no TMDB id, where no identity is selected), has the digest of the
  -- address of its playback, lies in the library, and its file can be read and still reads as this
  -- address and the end of a line.
  pub reusable_file-exact : (r : SyncedStrmFile) → (reusable_file ≡ ok (some r)) ↔ IsReusable r
  unfolding reusable_file
  reusable_file-exact r = elim (Option-cases (lookup (source_file_key f) reusable_files)) [
    | inl n ↦ (
      λ e. absurd (not_kept r (sym (rw (reusable_file, n) refl) ∙ e)),
      λ i. absurd (ground (arith, n, i.0)),
    )
    | inr (cached, n) ↦ (
      λ e.
          let (same, m, w, h) =
            check_written-some cached r (sym (rw (reusable_file, n) refl) ∙ e) in
          subst IsReusable {x = cached} same
            (n, (metadata_agrees cached).0 m, w, (reads cached).0 h),
      λ (k, m, w, h).
          rw (reusable_file, k) (check_written-kept r ((metadata_agrees r).1 m) w ((reads r).1 h)),
    )
  ]
