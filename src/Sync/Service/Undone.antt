-- ===== src/Sync/Service/Undone.antt =====
-- api/app/sync/service.py: what the removal of stale files tracks and changes.
use strmline.Prelude.{
  ◌≡◌, refl, sym, ap, subst, ◌∙◌, inl, inr, true, Bool, List, [], ◌∷◌, ok, Result-cases, Bool-cases,
  In, arith,
}
use strmline.Prelude.Text.{Unicode}
use strmline.Library.Journal.{
  FilePath, path_eq, Files, ensure_within_root, LibraryMutationJournal, track,
}
use strmline.Library.Journal.Rollback.{is_tracked, Sync}
use strmline.Library.Journal.Tracking.{ensure_within_root-eq, track-is_tracked}
use strmline.Sync.TorboxStrm.{TorBoxStrmSyncResult}
use strmline.Sync.Service.{
  Backend, track_all, is_strm, remove_stale_strm_paths, remove_stale_sync_files,
}
use strmline.Sync.Service.Execution.{remove_stale}

-- What the loop over the stale paths tracks.
track_all-Sync :
    (can_read : FilePath → Bool) {root : FilePath} {before : Files} (files : Files)
    (paths : List FilePath)
    → (j : LibraryMutationJournal) → Sync root before j files
    → Sync root before (track_all can_read files paths j).0 files
unfolding track_all
track_all-Sync can_read files [] j s = s
track_all-Sync can_read files (path ∷ paths) j s =
    elim (Result-cases (track can_read files path j)) [
      | inl (e, p) ↦ rw (track_all, p) s
      | inr (k, p) ↦
          rw (track_all, p) (track_all-Sync can_read files paths k (Sync.tracked can_read path p s))
    ]

track_all-keeps :
    (can_read : FilePath → Bool) (files : Files) (paths : List FilePath)
    (j : LibraryMutationJournal) (q : FilePath)
    → is_tracked j q ≡ true
    → is_tracked (track_all can_read files paths j).0 q ≡ true
unfolding track_all
track_all-keeps can_read files [] j q t = t
track_all-keeps can_read files (path ∷ paths) j q t =
    elim (Result-cases (track can_read files path j)) [
      | inl (e, p) ↦ rw (track_all, p) t
      | inr (k, p) ↦
          rw (track_all, p)
            (track_all-keeps can_read files paths k q
              ((track-is_tracked can_read files path q j k p).1 t))
    ]

track_all-cons :
    (can_read : FilePath → Bool) (files : Files) (path : FilePath) (paths : List FilePath)
    (j k : LibraryMutationJournal)
    → track can_read files path j ≡ ok k
    → track_all can_read files (path ∷ paths) j ≡ track_all can_read files paths k
unfolding track_all
track_all-cons can_read files path paths j k p = rw (track_all, p) refl

track_all-is_tracked :
    (can_read : FilePath → Bool) (files : Files) (paths : List FilePath)
    (j : LibraryMutationJournal)
    → (track_all can_read files paths j).1 ≡ true
    → (q : FilePath) → In q paths
    → is_tracked (track_all can_read files paths j).0 q ≡ true
unfolding track_all
track_all-is_tracked can_read files [] j h q m = absurd m
track_all-is_tracked can_read files (path ∷ paths) j h q m =
    elim (Result-cases (track can_read files path j)) [
      | inl (e, p) ↦ absurd (ground (arith, h, p))
      | inr (k, p) ↦
          rw (track_all, p)
            (elim m [
              | inl e ↦ track_all-keeps can_read files paths k q (
                  subst (λ x. is_tracked k x ≡ true) (sym e)
                    (track-is_tracked can_read files path path j k p).0)
              | inr n ↦
                  track_all-is_tracked can_read files paths k
                    (sym (ap (λ x. x.1) (track_all-cons can_read files path paths j k p)) ∙ h) q n
            ])
    ]

module _ (u : Unicode) (can_unlink : FilePath → Bool) where
  -- Removing paths that are tracked is part of the sync.
  remove_stale_strm-Sync :
      (base : FilePath) {root : FilePath} {before : Files} (paths : List FilePath)
      (j : LibraryMutationJournal)
      → (files : Files) → ((q : FilePath) → In q paths → is_tracked j q ≡ true)
      → Sync root before j files
      → Sync root before j (remove_stale_strm_paths u can_unlink base paths files).0
  unfolding remove_stale_strm_paths
  remove_stale_strm-Sync base [] j files t s = s
  remove_stale_strm-Sync base {root} (path ∷ paths) j files t s =
      elim (Result-cases (ensure_within_root base path)) [
        | inl (e, p) ↦ rw (remove_stale_strm_paths, p) s
        | inr (safe, p) ↦
            let tracked : is_tracked j safe ≡ true =
              subst (λ x. is_tracked j x ≡ true) (sym (ensure_within_root-eq base path safe p))
                (t path (inl refl)) in
            let later : (q : FilePath) → In q paths → is_tracked j q ≡ true = λ q m. t q (inr m) in
            elim (Bool-cases (is_strm u safe)) [
              | inr e ↦
                  rw (remove_stale_strm_paths, p, e)
                    (remove_stale_strm-Sync base paths j files later s)
              | inl e ↦ elim (Bool-cases (can_unlink safe)) [
                | inr n ↦ rw (remove_stale_strm_paths, p, e, n) s
                | inl n ↦
                    rw (remove_stale_strm_paths, p, e, n)
                      (remove_stale_strm-Sync base paths j _ later (Sync.removed safe tracked s))
              ]
            ]
      ]

  remove_stale_sync-Sync :
      (base : FilePath) {root : FilePath} {before : Files} (result : TorBoxStrmSyncResult)
      (paths : List FilePath)
      → (j : LibraryMutationJournal) (files : Files)
      → ((q : FilePath) → In q paths → is_tracked j q ≡ true)
      → Sync root before j files
      → Sync root before j (remove_stale_sync_files u can_unlink base result paths files).0
  unfolding remove_stale_sync_files
  remove_stale_sync-Sync base result paths j files t s = elim (Bool-cases result.partial) [
    | inl e ↦ rw e s
    | inr e ↦ rw e (remove_stale_strm-Sync base paths j files t s)
  ]

module _ {D : Type 0} (u : Unicode) (backend : Backend D) where
  -- Whatever the removal of stale files comes to, the journal knows of what it has changed.
  pub remove_stale-Sync :
      {root : FilePath} {before : Files} (base : FilePath) (result : TorBoxStrmSyncResult)
      → (paths : List FilePath) (d : D) (j : LibraryMutationJournal) (files : Files)
      → Sync root before j files
      → Sync root before
          (remove_stale u backend base result paths d j files).0
          (remove_stale u backend base result paths d j files).1
  unfolding remove_stale
  remove_stale-Sync base result paths d j files s =
      let tracked = track_all-Sync backend.can_read files paths j s in
      elim (Bool-cases (track_all backend.can_read files paths j).1) [
        | inr e ↦ rw (remove_stale, e) tracked
        | inl e ↦
            let removed =
              remove_stale_sync-Sync u backend.can_unlink base result paths
                (track_all backend.can_read files paths j).0 files
                (track_all-is_tracked backend.can_read files paths j e) tracked in
            elim (Result-cases
              (remove_stale_sync_files u backend.can_unlink base result paths files).1) [
                | inl (f, p) ↦ rw (remove_stale, e, p) removed
                | inr (_, p) ↦ rw (remove_stale, e, p) removed
              ]
      ]
