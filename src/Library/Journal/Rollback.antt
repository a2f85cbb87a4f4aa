-- ===== src/Library/Journal/Rollback.antt =====
-- api/app/library/mutation_journal.py: what a restoration makes of the changes of tracked files.
use strmline.Prelude.{
  ◌≡◌, refl, sym, subst, ap, ◌∙◌, ◌⊎◌, inl, inr, String, Bool, true, false, ◌&&◌, [], ◌∷◌, ◌++◌,
  Option, none, some, if◌then◌else◌, ◌==◌, string_eq, eq_iff, ok, All, Bool-cases, Option-cases,
  arith,
}
use strmline.Prelude.Dict.{Dict, lookup, insert, erase, lookup-insert, lookup-erase}
use strmline.Library.Journal.{
  FilePath, path_eq, path_beq_iff, Files, is_within, relative_to, ensure_within_root,
  LibraryMutationJournal, create, capture, track, put_back, restore_from, restore,
}

abbrev pub has : Option (Option String) → Bool
has none = false
has (some _) = true

abbrev pub is_tracked : LibraryMutationJournal → FilePath → Bool
is_tracked j path = is_within j.root path && has (lookup (relative_to j.root path) j.originals)

-- A sync on a library that held `before`: it tracks files, and writes and removes only files that
-- it tracks.
pub data Sync (root : FilePath) (before : Files) : LibraryMutationJournal → Files → Type 0 where
  begun : Sync root before (create root) before
  tracked :
      {j k : LibraryMutationJournal} {files : Files} (can_read : FilePath → Bool)
      → (path : FilePath) → track can_read files path j ≡ ok k
      → Sync root before j files
      → Sync root before k files
  written :
      {j : LibraryMutationJournal} {files : Files} (path : FilePath) (content : String)
      → is_tracked j path ≡ true
      → Sync root before j files
      → Sync root before j (insert path content files)
  removed :
      {j : LibraryMutationJournal} {files : Files} (path : FilePath)
      → is_tracked j path ≡ true
      → Sync root before j files
      → Sync root before j (erase path files)

relative_to-append : (root r : FilePath) → relative_to root (root ++ r) ≡ r
relative_to-append [] r = refl
relative_to-append (x ∷ root) r = relative_to-append root r

is_within-append : (root r : FilePath) → is_within root (root ++ r) ≡ true
is_within-append [] r = refl
is_within-append (x ∷ root) r = ground (arith, is_within-append root r, eq_iff x x)

append-relative_to :
    (root path : FilePath) → is_within root path ≡ true → root ++ relative_to root path ≡ path
append-relative_to [] path h = refl
append-relative_to (x ∷ root) [] h = absurd (ground arith)
append-relative_to (x ∷ root) (y ∷ path) h =
    ground (arith, append-relative_to root path, eq_iff x y)

lookup-put_back :
    (p q : FilePath) (o : Option String) (files : Files)
    → lookup p (put_back q o files) ≡ (if p == q then o else lookup p files)
unfolding put_back
lookup-put_back p q none files = lookup-erase p q files
lookup-put_back p q (some c) files = lookup-insert p q c files

-- What the journal knows of the library before the sync: each entry is right, and what is not
-- tracked has not changed.
record Knows (root : FilePath) (before : Files) (j : LibraryMutationJournal) (files : Files)
    : Type 0 where
  rooted : j.root ≡ root
  right : All (λ e. lookup (root ++ e.0) before ≡ e.1) j.originals
  kept : (path : FilePath) → is_tracked j path ≡ false → lookup path files ≡ lookup path before

differs : (f : FilePath → Bool) (p q : FilePath) → f p ≡ false → f q ≡ true → (p == q) ≡ false
differs f p q n t = elim (Bool-cases (p == q)) [
  | inl e ↦ absurd (ground (arith, ap f ((path_beq_iff p q).0 e)))
  | inr e ↦ e
]

-- Writing at a tracked path keeps the knowledge.
changed-Knows :
    (root : FilePath) (before files after : Files) (j : LibraryMutationJournal) (path : FilePath)
    → is_tracked j path ≡ true
    → ((q : FilePath) → (q == path) ≡ false → lookup q after ≡ lookup q files)
    → Knows root before j files
    → Knows root before j after
changed-Knows root before files after j path t same k = record {
  rooted = k.rooted;
  right = k.right;
  kept = λ q n. same q (differs (is_tracked j) q path n t) ∙ k.kept q n;
}

insert-right :
    (root : FilePath) (before : Files) (r : FilePath) (o : Option String)
    → (d : Dict FilePath (Option String)) → lookup r d ≡ none
    → lookup (root ++ r) before ≡ o
    → All (λ e. lookup (root ++ e.0) before ≡ e.1) d
    → All (λ e. lookup (root ++ e.0) before ≡ e.1) (insert r o d)
unfolding insert lookup
insert-right root before r o [] n h a = (h, tt)
insert-right root before r o ((s, c) ∷ d) n h a = elim (Bool-cases (r == s)) [
  | inl e ↦ absurd (ground (arith, n, e))
  | inr e ↦ rw e (a.0, insert-right root before r o d (ground (arith, n, e)) h a.1)
]

was_there :
    (root : FilePath) (before files : Files) (j : LibraryMutationJournal) (path : FilePath)
    → is_within j.root path ≡ true
    → Knows root before j files
    → lookup (relative_to j.root path) j.originals ≡ none
    → lookup (root ++ relative_to j.root path) before ≡ lookup path files
was_there root before files j path w k e =
    ap (λ p. lookup p before)
      (ap (λ r. r ++ relative_to j.root path) (sym k.rooted) ∙ append-relative_to j.root path w)
    ∙ sym (k.kept path (rw (w, e) refl))

captured-Knows :
    (root : FilePath) (before files : Files) (j : LibraryMutationJournal) (path : FilePath)
    → is_within j.root path ≡ true
    → Knows root before j files
    → Knows root before (capture files path j) files
unfolding capture
captured-Knows root before files j path w k =
    elim (Option-cases (lookup (relative_to j.root path) j.originals)) [
      | inr (o, e) ↦ rw (capture, e) k
      | inl e ↦
          rw (capture, e)
            (record {
              rooted = k.rooted;
              right =
                  insert-right root before (relative_to j.root path) (lookup path files) j.originals
                    e (was_there root before files j path w k e) k.right;
              kept = λ q n. k.kept q (
                  ground (
                    arith,
                    lookup-insert (relative_to j.root q) (relative_to j.root path)
                        (lookup path files) j.originals,
                  ));
            })
    ]

not_tracked-cons :
    (root r path : FilePath) (o : Option String) (d : Dict FilePath (Option String))
    → (path == (root ++ r)) ≡ false
    → (is_within root path && has (lookup (relative_to root path) d)) ≡ false
    → (is_within root path && has (lookup (relative_to root path) ((r, o) ∷ d))) ≡ false
unfolding lookup
not_tracked-cons root r path o d other n = ground (
  arith,
  path_beq_iff (relative_to root path) r,
  path_beq_iff path (root ++ r),
  append-relative_to root path,
)

-- A restoration in which nothing fails.
unfoldable restore_all : FilePath → Dict FilePath (Option String) → Files → Files
unfolding put_back
restore_all root [] files = files
restore_all root ((r, content) ∷ d) files = restore_all root d (put_back (root ++ r) content files)

restore_from-step :
    (can_restore : FilePath → Bool) (root r : FilePath) (o : Option String)
    → (d : Dict FilePath (Option String)) (files : Files) → can_restore (root ++ r) ≡ true
    → restore_from can_restore root ((r, o) ∷ d) files
      ≡ restore_from can_restore root d (put_back (root ++ r) o files)
unfolding restore_from
restore_from-step can_restore root r o d files e = rw (restore_from, e) refl

restore_from-ended :
    (can_restore : FilePath → Bool) (root : FilePath) (d : Dict FilePath (Option String))
    → (files : Files) → (restore_from can_restore root d files).1 ≡ true
    → (restore_from can_restore root d files).0 ≡ restore_all root d files
unfolding restore_from restore_all
restore_from-ended can_restore root [] files h = refl
restore_from-ended can_restore root ((r, o) ∷ d) files h =
    elim (Bool-cases (can_restore (root ++ r))) [
      | inl e ↦
          let step = restore_from-step can_restore root r o d files e in
          ap (λ x. x.0) step
          ∙ restore_from-ended can_restore root d (put_back (root ++ r) o files)
              (sym (ap (λ x. x.1) step) ∙ h)
      | inr e ↦ absurd (ground (arith, e, h))
    ]

-- A restoration that raises was not let put a file back.
restore_from-stopped :
    (can_restore : FilePath → Bool) (root : FilePath) (d : Dict FilePath (Option String))
    → (files : Files) → (restore_from can_restore root d files).1 ≡ false
    → (path : FilePath) × (can_restore path ≡ false)
unfolding restore_from
restore_from-stopped can_restore root [] files h = absurd (ground (arith, h))
restore_from-stopped can_restore root ((r, o) ∷ d) files h =
    elim (Bool-cases (can_restore (root ++ r))) [
      | inl e ↦
          restore_from-stopped can_restore root d (put_back (root ++ r) o files)
            (sym (ap (λ x. x.1) (restore_from-step can_restore root r o d files e)) ∙ h)
      | inr e ↦ (root ++ r, e)
    ]

pub restore-stopped :
    (can_restore : FilePath → Bool) (j : LibraryMutationJournal) (files : Files)
    → (restore can_restore j files).1 ≡ false
    → (path : FilePath) × (can_restore path ≡ false)
unfolding restore
restore-stopped can_restore j files h = restore_from-stopped can_restore j.root j.originals files h

-- The restoration of a list of right entries.
restore_all-right :
    (root : FilePath) (before : Files) (d : Dict FilePath (Option String)) (files : Files)
    → All (λ e. lookup (root ++ e.0) before ≡ e.1) d
    → (path : FilePath)
    → (lookup path (restore_all root d files) ≡ lookup path before)
      ⊎ ((lookup path (restore_all root d files) ≡ lookup path files)
          × ((is_within root path && has (lookup (relative_to root path) d)) ≡ false))
unfolding restore_all lookup
restore_all-right root before [] files a path = inr (refl, ground arith)
restore_all-right root before ((r, o) ∷ d) files a path =
    elim (restore_all-right root before d (put_back (root ++ r) o files) a.1 path) [
      | inl e ↦ inl e
      | inr (e, n) ↦ elim (Bool-cases (path == (root ++ r))) [
        | inl same ↦ inl (
            e
            ∙ lookup-put_back path (root ++ r) o files
            ∙ rw same (sym a.0)
            ∙ ap (λ p. lookup p before) (sym ((path_beq_iff path (root ++ r)).0 same)))
        | inr other ↦ inr (
          e ∙ lookup-put_back path (root ++ r) o files ∙ rw other refl,
          not_tracked-cons root r path o d other n,
        )
      ]
    ]

track-eq-ok :
    (can_read : FilePath → Bool) (files : Files) (path : FilePath) (j k : LibraryMutationJournal)
    → track can_read files path j ≡ ok k
    → (is_within j.root path ≡ true) × (capture files path j ≡ k)
unfolding track ensure_within_root
track-eq-ok can_read files path j k e = ground arith

Sync-Knows :
    (root : FilePath) (before : Files) (j : LibraryMutationJournal) (files : Files)
    → Sync root before j files
    → Knows root before j files
Sync-Knows root before _ _ begun = record { rooted = refl; right = tt; kept = λ p n. refl }
Sync-Knows root before _ files (tracked {j} {k} can_read path e s) =
    let t = track-eq-ok can_read files path j k e in
    subst (λ i. Knows root before i files) t.1
      (captured-Knows root before files j path t.0 (Sync-Knows root before j files s))
Sync-Knows root before j _ (written {files} path content t s) =
    changed-Knows root before files (insert path content files) j path t
      (λ q n. lookup-insert q path content files ∙ rw n refl) (Sync-Knows root before j files s)
Sync-Knows root before j _ (removed {files} path t s) =
    changed-Knows root before files (erase path files) j path t
      (λ q n. lookup-erase q path files ∙ rw n refl) (Sync-Knows root before j files s)

all_undone :
    {root : FilePath} {before files : Files} {j : LibraryMutationJournal}
    → Sync root before j files
    → (path : FilePath) → lookup path (restore_all j.root j.originals files) ≡ lookup path before
all_undone {root} {before} {files} {j} s path =
    let k = Sync-Knows root before j files s in
    subst (λ r. lookup path (restore_all r j.originals files) ≡ lookup path before) (sym k.rooted)
      (elim (restore_all-right root before j.originals files k.right path) [
        | inl e ↦ e
        | inr (e, n) ↦
            e
            ∙ k.kept path (
                subst
                  (λ r. (is_within r path && has (lookup (relative_to r path) j.originals)) ≡ false)
                  (sym k.rooted) n)
      ])

-- A sync that tracks each file before it changes it can be undone: after any such changes, a
-- restoration that runs to its end leaves at every path what was there when the journal was
-- created.
pub restore_undoes :
    {root : FilePath} {before files : Files} {j : LibraryMutationJournal}
    (can_restore : FilePath → Bool)
    → Sync root before j files
    → (restore can_restore j files).1 ≡ true
    → (path : FilePath) → lookup path (restore can_restore j files).0 ≡ lookup path before
unfolding restore
restore_undoes {files} {j} can_restore s done path =
    ap (λ fs. lookup path fs) (restore_from-ended can_restore j.root j.originals files done)
    ∙ all_undone s path
