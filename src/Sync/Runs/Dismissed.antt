-- ===== src/Sync/Runs/Dismissed.antt =====
-- api/app/db/repositories/sync_runs.py: what becomes of an error that was dismissed.
use strmline.Prelude.{
  ℕ, zero, suc, ◌≤◌, ◌<◌, ◌≡◌, ◌≢◌, refl, sym, ap, ◌∙◌, ◌⊎◌, inl, inr, String, true, false, List,
  [], ◌∷◌, nat_beq, nat_beq_iff, keep, any, map, length, In, In-keep, sort_by, sort_by-In,
  Bool-cases, arith,
}
use strmline.Sync.TorboxStrm.{SyncDiagnostic}
use strmline.Sync.Runs.{
  SyncRunSource, SyncErrorRecord, SyncError, Tables, add_run, add_error, add_errors,
  season_diagnostics, record_run, record_success, record_failure, record_season_completion,
  newer_error, take, is_open, open_errors, status, dismissed, dismiss_in, dismiss_error,
}
use strmline.Sync.Runs.Shown.{Later, History, In-snoc}

-- An identifier that was given out, and whose row is closed.
Hidden : ℕ → Tables → Type 0
Hidden k t =
    (k < t.next_error_id) × ((e : SyncError) → In e t.errors → e.error.id ≡ k → is_open e ≡ false)

Known : Tables → Type 0
Known t = (e : SyncError) → In e t.errors → e.error.id < t.next_error_id

add_errors-Known :
    (created_at : ℕ → ℕ) (run_id : ℕ) (ds : List SyncDiagnostic) (t : Tables)
    → Known t
    → Known (add_errors created_at run_id ds t)
unfolding add_errors add_error Known
add_errors-Known created_at run_id [] t k = k
add_errors-Known created_at run_id (d ∷ ds) t k =
    add_errors-Known created_at run_id ds (add_error (created_at t.next_error_id) run_id d t) λ e m.
      elim (In-snoc e _ t.errors m) [
        | inl n ↦ omega (arith, k e n)
        | inr same ↦ rw same (omega arith)
      ]

add_errors-Hidden :
    (i : ℕ) (created_at : ℕ → ℕ) (run_id : ℕ) (ds : List SyncDiagnostic) (t : Tables)
    → Hidden i t
    → Hidden i (add_errors created_at run_id ds t)
unfolding add_errors add_error Hidden
add_errors-Hidden i created_at run_id [] t h = h
add_errors-Hidden i created_at run_id (d ∷ ds) t (given, h) =
    add_errors-Hidden i created_at run_id ds (add_error (created_at t.next_error_id) run_id d t) (
      omega (arith, given),
      λ e m same. elim (In-snoc e _ t.errors m) [
        | inl n ↦ h e n same
        | inr new ↦ absurd (omega (arith, given, same, ap (λ x. x.error.id) new))
      ],
    )

-- A row of the table after a dismissal is a row of the table before it, and another identifier
-- than the dismissed one, or it is closed.
dismiss_in-In :
    (now i : ℕ) (es : List SyncError) (e : SyncError)
    → In e (dismiss_in now i es)
    → (x : SyncError) × In x es
      × (e.error.id ≡ x.error.id)
      × ((is_open e ≡ false) ⊎ ((e ≡ x) × (nat_beq x.error.id i ≡ false)))
unfolding dismiss_in
dismiss_in-In now i [] e m = absurd m
dismiss_in-In now i (x ∷ es) e (inr m) =
    let (y, n, same, r) = dismiss_in-In now i es e m in (y, inr n, same, r)
dismiss_in-In now i (x ∷ es) e (inl p) = elim (Bool-cases (nat_beq x.error.id i)) [
  | inl q ↦
      let is : e ≡ dismissed now x = p ∙ rw q refl in
      (x, inl refl, ap (λ y. y.error.id) is, inl (ap is_open is))
  | inr q ↦ let is : e ≡ x = p ∙ rw q refl in (x, inl refl, ap (λ y. y.error.id) is, inr (is, q))
]

dismiss-Known : (now i : ℕ) (t : Tables) → Known t → Known (dismiss_error now i t).0
unfolding dismiss_error Known
dismiss-Known now i t k e m =
    let (x, n, same, _) = dismiss_in-In now i t.errors e m in omega (arith, k x n, same)

dismiss-Hidden : (now i k : ℕ) (t : Tables) → Hidden k t → Hidden k (dismiss_error now i t).0
unfolding dismiss_error Hidden
dismiss-Hidden now i k t (given, h) = (
  given,
  λ e m same.
      let (x, n, id, r) = dismiss_in-In now i t.errors e m in
      elim r [ inl closed ↦ closed | inr (is, _) ↦ ap is_open is ∙ h x n (sym id ∙ same) ],
)

In-any :
    (k : ℕ) (es : List SyncError)
    → any (λ e. nat_beq e.error.id k) es ≡ true
    → (e : SyncError) × In e es × (e.error.id ≡ k)
In-any k [] h = absurd (ground arith)
In-any k (e ∷ es) h = elim (Bool-cases (nat_beq e.error.id k)) [
  | inl same ↦ (e, inl refl, (nat_beq_iff e.error.id k).0 same)
  | inr other ↦ let (x, m, i) = In-any k es (ground (arith, h, other)) in (x, inr m, i)
]

-- What was found is hidden.
dismissed-Hidden :
    (now k : ℕ) (t : Tables)
    → Known t
    → (dismiss_error now k t).1 ≡ true
    → Hidden k (dismiss_error now k t).0
unfolding dismiss_error Hidden Known
dismissed-Hidden now k t known found =
    let (x, m, id) = In-any k t.errors found in
    (
      omega (arith, known x m, id),
      λ e n same.
          let (y, _, id2, r) = dismiss_in-In now k t.errors e n in
          elim r [
            | inl closed ↦ closed
            | inr (_, other) ↦ absurd (ground (arith, nat_beq_iff y.error.id k, other, id2, same))
          ],
    )

record_run-Known :
    (now : ℕ) (created_at : ℕ → ℕ) (state : String) (source : SyncRunSource) (a b c : ℕ)
    → (ds : List SyncDiagnostic) (t : Tables) → Known t
    → Known (record_run now created_at state source a b c ds t).0
unfolding record_run add_run Known
record_run-Known now created_at state source a b c ds t k =
    add_errors-Known created_at t.next_run_id ds (add_run now state source a b c t) k

record_run-Hidden :
    (i now : ℕ) (created_at : ℕ → ℕ) (state : String) (source : SyncRunSource) (a b c : ℕ)
    → (ds : List SyncDiagnostic) (t : Tables) → Hidden i t
    → Hidden i (record_run now created_at state source a b c ds t).0
unfolding record_run add_run Hidden
record_run-Hidden i now created_at state source a b c ds t k =
    add_errors-Hidden i created_at t.next_run_id ds (add_run now state source a b c t) k

later-Known :
    {before : ℕ} {t : Tables} {top : ℕ} {s : Tables} → Known t → Later before t top s → Known s
unfolding record_success record_failure record_season_completion
later-Known k Later.unchanged = k
later-Known k (Later.succeeded now created_at source result h l) =
    record_run-Known now created_at _ source _ _ _ result.diagnostics _ (later-Known k l)
later-Known k (Later.failed now created_at source failure a b c h l) =
    record_run-Known now created_at _ source a b c (failure ∷ []) _ (later-Known k l)
later-Known k (Later.completed now created_at checked missing added ds h l) =
    record_run-Known now created_at _ _ _ _ _ (season_diagnostics ds) _ (later-Known k l)
later-Known k (Later.hidden now error_id h l) = dismiss-Known now error_id _ (later-Known k l)

later-Hidden :
    (i : ℕ) {before : ℕ} (t : Tables) {top : ℕ} {s : Tables}
    → Hidden i t
    → Later before t top s
    → Hidden i s
unfolding record_success record_failure record_season_completion
later-Hidden i t k Later.unchanged = k
later-Hidden i t k (Later.succeeded now created_at source result h l) =
    record_run-Hidden i now created_at _ source _ _ _ result.diagnostics _ (later-Hidden i t k l)
later-Hidden i t k (Later.failed now created_at source failure a b c h l) =
    record_run-Hidden i now created_at _ source a b c (failure ∷ []) _ (later-Hidden i t k l)
later-Hidden i t k (Later.completed now created_at checked missing added ds h l) =
    record_run-Hidden i now created_at _ _ _ _ _ (season_diagnostics ds) _ (later-Hidden i t k l)
later-Hidden i t k (Later.hidden now error_id h l) =
    dismiss-Hidden now error_id _ _ (later-Hidden i t k l)

In-take : (x : SyncErrorRecord) (n : ℕ) (xs : List SyncErrorRecord) → In x (take n xs) → In x xs
In-take x zero xs m = absurd m
In-take x (suc n) [] m = absurd m
In-take x (suc n) (y ∷ xs) (inl e) = inl e
In-take x (suc n) (y ∷ xs) (inr m) = inr (In-take x n xs m)

length-take-le : (n : ℕ) (xs : List SyncErrorRecord) → length (take n xs) ≤ n
length-take-le zero xs = omega arith
length-take-le (suc n) [] = omega arith
length-take-le (suc n) (x ∷ xs) = omega (arith, length-take-le n xs)

In-map :
    (x : SyncErrorRecord) (es : List SyncError)
    → In x (map (λ e. e.error) es)
    → (e : SyncError) × In e es × (x ≡ e.error)
In-map x [] m = absurd m
In-map x (e ∷ es) (inl p) = (e, inl refl, p)
In-map x (e ∷ es) (inr m) = let (y, n, p) = In-map x es m in (y, inr n, p)

history-Known : {top : ℕ} {t : Tables} → History top t → Known t
unfolding Known
history-Known h = later-Known (λ e m. absurd m) h

Hidden-is_open :
    (k : ℕ) (t : Tables)
    → Hidden k t
    → (e : SyncError) → In e t.errors
    → e.error.id ≡ k
    → is_open e ≡ false
unfolding Hidden
Hidden-is_open k t h = h.1

-- Whatever is recorded or dismissed after an error was dismissed, it is never again among the
-- recent errors, which are at most as many as the limit.
pub dismissed-never_shown :
    {top : ℕ} {t : Tables}
    → History top t
    → (now k : ℕ) → (dismiss_error now k t).1 ≡ true
    → {end : ℕ} {s : Tables} → Later now (dismiss_error now k t).0 end s
    → (limit : ℕ)
    → ((x : SyncErrorRecord) → In x (status limit s).recent_errors → x.id ≢ k)
      × (length (status limit s).recent_errors ≤ limit)
unfolding status
dismissed-never_shown {t} history now k found {s} later limit = (
  λ x m same.
      let n =
        sort_by-In newer_error x (open_errors s.errors)
          (In-take x limit (sort_by newer_error (open_errors s.errors)) m) in
      let (e, i, is) = In-map x (keep is_open s.errors) n in
      let (j, is_shown) = In-keep is_open e s.errors i in
      absurd (
        ground (
          arith,
          is_shown,
          Hidden-is_open k s
              (later-Hidden k _ (dismissed-Hidden now k t (history-Known history) found) later) e j
              (ap (λ y. y.id) (sym is) ∙ same),
        )),
  length-take-le limit _,
)
