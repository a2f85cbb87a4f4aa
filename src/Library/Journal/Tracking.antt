-- ===== src/Library/Journal/Tracking.antt =====
-- What tracking a path leaves tracked.
use strmline.Prelude.{◌≡◌, refl, sym, ap, subst, ◌∙◌, inl, inr, Bool, true, ok, Option-cases, arith}
use strmline.Prelude.Dict.{lookup, lookup-insert}
use strmline.Library.Journal.{
  FilePath, path_eq, path_beq_iff, Files, is_within, relative_to, ensure_within_root,
  LibraryMutationJournal, capture, track,
}
use strmline.Library.Journal.Rollback.{is_tracked, Sync}

track-eq-ok :
    (can_read : FilePath → Bool) (files : Files) (path : FilePath) (j k : LibraryMutationJournal)
    → track can_read files path j ≡ ok k
    → (is_within j.root path ≡ true) × (capture files path j ≡ k)
unfolding track ensure_within_root
track-eq-ok can_read files path j k e = ground arith

capture-root :
    (files : Files) (path : FilePath) (j : LibraryMutationJournal)
    → (capture files path j).root ≡ j.root
unfolding capture
capture-root files path j = elim (Option-cases (lookup (relative_to j.root path) j.originals)) [
  | inl e ↦ rw (capture, e) refl
  | inr (o, e) ↦ rw (capture, e) refl
]

-- The journal of a sync has the root of the library.
pub Sync-root :
    {root : FilePath} {before files : Files} {j : LibraryMutationJournal}
    → Sync root before j files
    → j.root ≡ root
Sync-root Sync.begun = refl
Sync-root (Sync.tracked {j} {k} {files} can_read path e s) =
    ap (λ x. x.root) (sym (track-eq-ok can_read files path j k e).1)
    ∙ capture-root files path j
    ∙ Sync-root s
Sync-root (Sync.written path content t s) = Sync-root s
Sync-root (Sync.removed path t s) = Sync-root s

capture-is_tracked :
    (files : Files) (path q : FilePath) (j : LibraryMutationJournal)
    → is_within j.root path ≡ true
    → (is_tracked (capture files path j) path ≡ true)
      × (is_tracked j q ≡ true → is_tracked (capture files path j) q ≡ true)
unfolding capture
capture-is_tracked files path q j w =
    elim (Option-cases (lookup (relative_to j.root path) j.originals)) [
      | inr (o, e) ↦ rw (capture, e) (rw (w, e) refl, λ t. t)
      | inl e ↦
          rw (capture, e)
            (
              rw
                  (
                    w,
                    lookup-insert (relative_to j.root path) (relative_to j.root path)
                        (lookup path files) j.originals,
                    (path_beq_iff (relative_to j.root path) (relative_to j.root path)).1 refl,
                  )
                  refl,
              λ t. ground (
                arith,
                lookup-insert (relative_to j.root q) (relative_to j.root path) (lookup path files)
                    j.originals,
              ),
            )
    ]

-- A path that is tracked stays tracked, and the path is tracked from now on.
pub track-is_tracked :
    (can_read : FilePath → Bool) (files : Files) (path q : FilePath)
    → (j k : LibraryMutationJournal) → track can_read files path j ≡ ok k
    → (is_tracked k path ≡ true) × (is_tracked j q ≡ true → is_tracked k q ≡ true)
track-is_tracked can_read files path q j k e =
    let (w, same) = track-eq-ok can_read files path j k e in
    subst (λ i. (is_tracked i path ≡ true) × (is_tracked j q ≡ true → is_tracked i q ≡ true)) same
      (capture-is_tracked files path q j w)

-- The path that `ensure_within_root` answers with is the one that it is given.
pub ensure_within_root-eq :
    (root path safe : FilePath) → ensure_within_root root path ≡ ok safe → safe ≡ path
unfolding ensure_within_root
ensure_within_root-eq root path safe e = ground (arith, e)
