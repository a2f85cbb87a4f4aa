-- ===== src/SeasonCompletion/Ranking/Choice.antt =====
-- api/app/season_completion/ranking.py: the loop of `choose_candidates` and its fuel.
use mathlib.Core.List.{append-nil, append_assoc}
use strmline.Prelude.{
  ℕ, zero, suc, ◌+◌, ◌≤◌, ◌<◌, ◌≡◌, refl, sym, ap, ◌∙◌, inl, inr, String, true, false, not, List,
  [], ◌∷◌, ◌++◌, Option, some, if◌then◌else◌, ◌==◌, string_eq, eq_iff, length, contains, In,
  In-keep, sort_by-In, sort_by-eq-nil, sort_by-least, length-keep-le, List-cases, arith,
}
use strmline.SeasonCompletion.Ranking.{
  EpisodeRef, episode_eq, episode_beq_iff, CompletionCandidate, rank, rank_lt, same_family,
  intersection, difference, is_empty, sort_by_rank, useful, without_source, choose_loop,
}

-- Cached before uncached, and then the dominant family before the others.
unfoldable pub preference : Option String → CompletionCandidate → ℕ
unfolding same_family
preference family c =
    (if c.cached then 0 else 2) + (if same_family family c.release_family then 0 else 1)

-- `c` is preferred to, or as good as, each of the candidates.
abbrev pub Preferred : Option String → CompletionCandidate → List CompletionCandidate → Type 0
Preferred family c xs =
    (d : CompletionCandidate) → In d xs → preference family c ≤ preference family d

-- A choice of candidates, one after the other: each holds something that the ones before it left
-- missing, none that does so is preferred to it, and its source is not taken again; it ends when
-- nothing that is available helps.
pub data Plan (family : Option String)
    : List EpisodeRef → List CompletionCandidate → List CompletionCandidate → Type 0 where
  done :
      {remaining : List EpisodeRef} {available : List CompletionCandidate}
      → ((c : CompletionCandidate)
          → In c available
          → (e : EpisodeRef) → contains remaining e ≡ true
          → contains c.episodes e ≡ false)
      → Plan family remaining available []
  take :
      {remaining : List EpisodeRef} {available : List CompletionCandidate}
      {r : List CompletionCandidate} (c : CompletionCandidate)
      → In c available
      → is_empty (intersection c.episodes remaining) ≡ false
      → Preferred family c (useful remaining available)
      → Plan family (difference remaining c.episodes) (without_source c.source_id available) r
      → Plan family remaining available (c ∷ r)

length-without_source-lt :
    (c : CompletionCandidate) (available : List CompletionCandidate)
    → In c available
    → length (without_source c.source_id available) < length available
length-without_source-lt c [] m = absurd m
length-without_source-lt c (d ∷ available) m = ground (
  arith,
  length-without_source-lt c available,
  length-keep-le (λ (candidate : CompletionCandidate). not (candidate.source_id == c.source_id))
      available,
  eq_iff d.source_id c.source_id,
)

-- A candidate whose intersection is empty holds nothing of what remains.
intersection-empty :
    (a b : List EpisodeRef) (e : EpisodeRef)
    → is_empty (intersection a b) ≡ true
    → contains b e ≡ true
    → contains a e ≡ false
intersection-empty [] b e h m = refl
intersection-empty (x ∷ a) b e h m = ground (arith, intersection-empty a b e, episode_beq_iff e x)

useful-eq-nil :
    (remaining : List EpisodeRef) (available : List CompletionCandidate)
    → useful remaining available ≡ []
    → (c : CompletionCandidate) → In c available
    → is_empty (intersection c.episodes remaining) ≡ true
useful-eq-nil remaining [] h c m = absurd m
useful-eq-nil remaining (d ∷ available) h c m = ground (
  arith,
  λ (p : useful remaining available ≡ []) (n : In c available).
      useful-eq-nil remaining available p c n,
)

module _ (casefold : String → String) where
  pub sort_by_rank-In :
      (remaining : List EpisodeRef) (family : Option String)
      → (c : CompletionCandidate) (xs rest : List CompletionCandidate)
      → sort_by_rank casefold remaining family xs ≡ c ∷ rest
      → In c xs
  unfolding sort_by_rank
  sort_by_rank-In remaining family c xs rest e =
      sort_by-In
        (λ a b. rank_lt (rank casefold a remaining family) (rank casefold b remaining family)) c xs
        (rw e (inl refl))

  pub sort_by_rank-eq-nil :
      (remaining : List EpisodeRef) (family : Option String) (xs : List CompletionCandidate)
      → sort_by_rank casefold remaining family xs ≡ []
      → xs ≡ []
  unfolding sort_by_rank
  sort_by_rank-eq-nil remaining family =
      sort_by-eq-nil
        (λ a b. rank_lt (rank casefold a remaining family) (rank casefold b remaining family))

  rank_lt-preference :
      (remaining : List EpisodeRef) (family : Option String) (a b : CompletionCandidate)
      → rank_lt (rank casefold a remaining family) (rank casefold b remaining family) ≡ true
      → preference family a ≤ preference family b
  unfolding rank_lt rank preference
  rank_lt-preference remaining family a b h = ground arith

  not-rank_lt-preference :
      (remaining : List EpisodeRef) (family : Option String) (a b : CompletionCandidate)
      → rank_lt (rank casefold a remaining family) (rank casefold b remaining family) ≡ false
      → preference family b ≤ preference family a
  unfolding rank_lt rank preference
  not-rank_lt-preference remaining family a b h = ground arith

  pub sort_by_rank-Preferred :
      (remaining : List EpisodeRef) (family : Option String)
      → (c : CompletionCandidate) (xs rest : List CompletionCandidate)
      → sort_by_rank casefold remaining family xs ≡ c ∷ rest
      → Preferred family c xs
  unfolding sort_by_rank
  sort_by_rank-Preferred remaining family c xs rest e =
      sort_by-least
        (λ a b. rank_lt (rank casefold a remaining family) (rank casefold b remaining family))
        (preference family) (rank_lt-preference remaining family)
        (not-rank_lt-preference remaining family) xs c rest e

  -- The first of the sorted useful candidates is available and useful.
  head-useful :
      (remaining : List EpisodeRef) (family : Option String) (available : List CompletionCandidate)
      → (c : CompletionCandidate) (rest : List CompletionCandidate)
      → sort_by_rank casefold remaining family (useful remaining available) ≡ c ∷ rest
      → In c available × (is_empty (intersection c.episodes remaining) ≡ false)
  head-useful remaining family available c rest e = ground (
    arith,
    In-keep (λ (d : CompletionCandidate). not (is_empty (intersection d.episodes remaining))) c
        available (sort_by_rank-In remaining family c (useful remaining available) rest e),
  )

  nothing-useful :
      (remaining : List EpisodeRef) (family : Option String) (available : List CompletionCandidate)
      → sort_by_rank casefold remaining family (useful remaining available) ≡ []
      → Plan family remaining available []
  nothing-useful remaining family available h = done λ c m e.
      intersection-empty c.episodes remaining e (
        useful-eq-nil remaining available
          (sort_by_rank-eq-nil remaining family (useful remaining available) h) c m)

  pub loop-Plan :
      (fuel : ℕ) (family : Option String)
      → (remaining : List EpisodeRef) (available selected : List CompletionCandidate)
      → length available < fuel
      → (r : List CompletionCandidate) × (choose_loop casefold fuel family remaining available
            selected
          ≡ some (selected ++ r))
        × Plan family remaining available r
  unfolding choose_loop
  loop-Plan fuel family [] available selected h =
      ([], ap some (sym (append-nil selected)), done λ c m e z. absurd (ground arith))
  loop-Plan zero family (e ∷ remaining) available selected h = absurd (omega (arith, h))
  loop-Plan (suc fuel) family (e ∷ remaining) available selected h =
      elim (List-cases
        (sort_by_rank casefold (e ∷ remaining) family (useful (e ∷ remaining) available))) [
          | inl z ↦ (
            [],
            rw (choose_loop, z, append-nil selected) refl,
            nothing-useful (e ∷ remaining) family available z,
          )
          | inr (c, rest, z) ↦
              let p = head-useful (e ∷ remaining) family available c rest z in
              let q =
                loop-Plan fuel family (difference (e ∷ remaining) c.episodes)
                  (without_source c.source_id available) (selected ++ (c ∷ []))
                  (omega (arith, h, length-without_source-lt c available p.0)) in
              (
                c ∷ q.0,
                rw (choose_loop, z) (q.1 ∙ ap some (append_assoc selected (c ∷ []) q.0)),
                take c p.0 p.1
                    (sort_by_rank-Preferred (e ∷ remaining) family c
                      (useful (e ∷ remaining) available) rest z)
                    q.2,
              )
        ]
