-- ===== src/Sync/TorboxStrm/Claims.antt =====
-- api/app/sync/torbox_strm.py: which path a file is written to. A path that another file of TorBox
-- has claimed is not taken. The names are parameters: the canonical path of the entry, and
-- `alternate` for `alternate_version_path`, without and with its unique suffix.
use strmline.Prelude.{
  ◌≡◌, refl, sym, subst, ◌∙◌, ◌⊎◌, inl, inr, Bool, true, false, Option, none, some, if◌then◌else◌,
  ◌==◌, Result, ok, raise, Result-cases, Bool-cases, arith,
}
use strmline.Prelude.Dict.{Dict, lookup, insert, lookup-insert}
use strmline.Library.Journal.Tracking.{ensure_within_root-eq}
use strmline.Library.Journal.{FilePath, path_eq, path_beq_iff, OutsideRoot, ensure_within_root}
use strmline.Sync.TorboxStrm.{SyncedStrmFile}
use strmline.Sync.TorboxStrm.Sources.{SourceFileKey, key_eq}

abbrev pub Claims : Type 0
Claims = Dict FilePath SourceFileKey

-- `claimed.get(path) in (None, source_key)`
unfoldable pub is_free : SourceFileKey → FilePath → Claims → Bool
unfolding lookup
is_free key path claimed = elim (lookup path claimed) [ none ↦ true | some owner ↦ owner == key ]

-- The claims afterwards, and the path.
abbrev pub Claimed : Type 0
Claimed = Claims × FilePath

unfoldable pub claim : SourceFileKey → FilePath → Claims → Claimed
unfolding insert
claim key path claimed = (insert path key claimed, path)

ok_inj : (a b : Claimed) → Path (Result OutsideRoot Claimed) (ok a) (ok b) → a ≡ b
ok_inj a b e = ground (arith, e)

raise_ne_ok : {e : OutsideRoot} {a : Claimed} → raise e ≡ ok a → ⊥
raise_ne_ok p = ground (arith, p)

module _ (root : FilePath) (key : SourceFileKey) where
  -- The alternate path with the unique suffix, which is taken without a further look.
  unfoldable pub claim_unique : FilePath → Claims → Result OutsideRoot Claimed
  unfolding ensure_within_root claim
  claim_unique unique claimed = elim (ensure_within_root root unique) [
    | raise e ↦ raise e
    | ok path ↦ ok (claim key path claimed)
  ]

  unfoldable pub claim_alternate : FilePath → FilePath → Claims → Result OutsideRoot Claimed
  unfolding ensure_within_root is_free claim claim_unique
  claim_alternate alternate unique claimed = elim (ensure_within_root root alternate) [
    | raise e ↦ raise e
    | ok path ↦
        if is_free key path claimed
        then ok (claim key path claimed)
        else claim_unique unique claimed
  ]

  -- `strm_file_path` checks the canonical path.
  unfoldable pub claim_canonical :
      FilePath → FilePath → FilePath → Claims → Result OutsideRoot Claimed
  unfolding ensure_within_root is_free claim claim_alternate
  claim_canonical canonical alternate unique claimed = elim (ensure_within_root root canonical) [
    | raise e ↦ raise e
    | ok path ↦
        if is_free key path claimed
        then ok (claim key path claimed)
        else claim_alternate alternate unique claimed
  ]

  -- `_target_path`
  unfoldable pub target_path :
      Option SyncedStrmFile → FilePath → FilePath → FilePath → Claims → Result OutsideRoot Claimed
  unfolding ensure_within_root is_free claim claim_canonical
  target_path none canonical alternate unique claimed =
      claim_canonical canonical alternate unique claimed
  target_path (some cached) canonical alternate unique claimed =
      elim (ensure_within_root root cached.path) [
        | raise e ↦ raise e
        | ok path ↦
            if is_free key path claimed
            then ok (claim key path claimed)
            else claim_canonical canonical alternate unique claimed
      ]

  -- What a claim may do: the path is the file's, the other paths keep their owners, and the path
  -- was free, or it is the alternate path with the unique suffix.
  pub record IsClaim (unique : FilePath) (claimed : Claims) (r : Claimed) : Type 0 where
    pub owned : lookup r.1 r.0 ≡ some key
    pub kept : (q : FilePath) → (q == r.1) ≡ false → lookup q r.0 ≡ lookup q claimed
    pub taken : (is_free key r.1 claimed ≡ true) ⊎ (r.1 ≡ unique)

  claim-IsClaim :
      (unique path : FilePath) (claimed : Claims)
      → (is_free key path claimed ≡ true) ⊎ (path ≡ unique)
      → IsClaim unique claimed (claim key path claimed)
  unfolding claim
  claim-IsClaim unique path claimed t = record {
    owned = lookup-insert path path key claimed ∙ rw ((path_beq_iff path path).1 refl) refl;
    kept = λ q n. lookup-insert q path key claimed ∙ rw n refl;
    taken = t;
  }

  -- What may be answered: an error for a path outside the library, or a claim.
  abbrev pub Answers : FilePath → Claims → Result OutsideRoot Claimed → Type 0
  Answers unique claimed r = (x : Claimed) → r ≡ ok x → IsClaim unique claimed x

  claimed-Answers :
      (unique path : FilePath) (claimed : Claims)
      → (is_free key path claimed ≡ true) ⊎ (path ≡ unique)
      → Answers unique claimed (ok (claim key path claimed))
  claimed-Answers unique path claimed t x e =
      subst (IsClaim unique claimed) (ok_inj _ x e) (claim-IsClaim unique path claimed t)

  refused-Answers :
      (unique : FilePath) (claimed : Claims) (e : OutsideRoot) → Answers unique claimed (raise e)
  refused-Answers unique claimed e x p = absurd (raise_ne_ok p)

  -- A path is taken if it is free, and else the rest decides.
  tried-Answers :
      (unique path : FilePath) (claimed : Claims) (rest : Result OutsideRoot Claimed)
      → Answers unique claimed rest
      → Answers unique claimed
          (if is_free key path claimed then ok (claim key path claimed) else rest)
  tried-Answers unique path claimed rest a = elim (Bool-cases (is_free key path claimed)) [
    | inl free ↦
        subst (Answers unique claimed) (sym (rw free refl))
          (claimed-Answers unique path claimed (inl free))
    | inr taken ↦ subst (Answers unique claimed) (sym (rw taken refl)) a
  ]

  claim_unique-Answers :
      (unique : FilePath) (claimed : Claims) → Answers unique claimed (claim_unique unique claimed)
  unfolding claim_unique
  claim_unique-Answers unique claimed = elim (Result-cases (ensure_within_root root unique)) [
    | inl (e, p) ↦ rw (claim_unique, p) (refused-Answers unique claimed e)
    | inr (path, p) ↦
        rw (claim_unique, p)
          (claimed-Answers unique path claimed (inr (ensure_within_root-eq root unique path p)))
  ]

  claim_alternate-Answers :
      (alternate unique : FilePath) (claimed : Claims)
      → Answers unique claimed (claim_alternate alternate unique claimed)
  unfolding claim_alternate
  claim_alternate-Answers alternate unique claimed =
      elim (Result-cases (ensure_within_root root alternate)) [
        | inl (e, p) ↦ rw (claim_alternate, p) (refused-Answers unique claimed e)
        | inr (path, p) ↦
            rw (claim_alternate, p)
              (tried-Answers unique path claimed _ (claim_unique-Answers unique claimed))
      ]

  claim_canonical-Answers :
      (canonical alternate unique : FilePath) (claimed : Claims)
      → Answers unique claimed (claim_canonical canonical alternate unique claimed)
  unfolding claim_canonical
  claim_canonical-Answers canonical alternate unique claimed =
      elim (Result-cases (ensure_within_root root canonical)) [
        | inl (e, p) ↦ rw (claim_canonical, p) (refused-Answers unique claimed e)
        | inr (path, p) ↦
            rw (claim_canonical, p)
              (tried-Answers unique path claimed _
                (claim_alternate-Answers alternate unique claimed))
      ]

  -- The path that a file is given belongs to it from then on, and no other path changes hands. It
  -- was free, or the file's own, before; only the alternate path with the unique suffix is taken
  -- whoever has claimed it.
  pub target_path-IsClaim :
      (cached : Option SyncedStrmFile) (canonical alternate unique : FilePath) (claimed : Claims)
      → (r : Claimed) → target_path cached canonical alternate unique claimed ≡ ok r
      → IsClaim unique claimed r
  unfolding target_path
  target_path-IsClaim none canonical alternate unique claimed =
      claim_canonical-Answers canonical alternate unique claimed
  target_path-IsClaim (some cached) canonical alternate unique claimed =
      elim (Result-cases (ensure_within_root root cached.path)) [
        | inl (e, p) ↦ rw (target_path, p) (refused-Answers unique claimed e)
        | inr (path, p) ↦
            rw (target_path, p)
              (tried-Answers unique path claimed _
                (claim_canonical-Answers canonical alternate unique claimed))
      ]
