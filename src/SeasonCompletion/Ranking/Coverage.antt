-- ===== src/SeasonCompletion/Ranking/Coverage.antt =====
-- api/app/season_completion/ranking.py: `choose_candidates` against its contract.
use strmline.Prelude.{
  suc, ◌≡◌, refl, sym, subst, inl, inr, String, Bool, true, false, not, ◌||◌, List, [], ◌∷◌, Option,
  some, length, ◌==◌, string_eq, eq_iff, contains, keep, In, In-keep, keep-In, Bool-cases,
  List-cases, arith,
}
use strmline.SeasonCompletion.Ranking.{
  EpisodeRef, episode_eq, episode_beq_iff, CompletionCandidate, difference, is_subset, sort_by_rank,
  without_source, choose_candidates, eligible, complete,
}
use strmline.SeasonCompletion.Ranking.Choice.{
  Preferred, Plan, done, take, loop-Plan, sort_by_rank-In, sort_by_rank-eq-nil,
  sort_by_rank-Preferred,
}

-- What is acquired for the missing episodes: a candidate with all of them, and none of these is
-- preferred to it; or a plan, when no candidate has all.
pub data Choice (family : Option String) (missing : List EpisodeRef)
    (available : List CompletionCandidate) : List CompletionCandidate → Type 0 where
  whole :
      (best : CompletionCandidate)
      → In best available
      → is_subset missing best.episodes ≡ true
      → Preferred family best (complete missing available)
      → Choice family missing available (best ∷ [])
  parts :
      {r : List CompletionCandidate}
      → complete missing available ≡ []
      → Plan family missing available r
      → Choice family missing available r

-- Candidates of one source hold the same episodes.
unfoldable pub OneOffer : List CompletionCandidate → Type 0
OneOffer xs =
    (c d : CompletionCandidate)
    → In c xs
    → In d xs
    → c.source_id ≡ d.source_id
    → c.episodes ≡ d.episodes

OneOffer-keep :
    (p : CompletionCandidate → Bool) (xs : List CompletionCandidate)
    → OneOffer xs
    → OneOffer (keep p xs)
unfolding OneOffer
OneOffer-keep p xs h c d m n e = h c d (In-keep p c xs m).0 (In-keep p d xs n).0 e

contains-difference :
    (remaining taken : List EpisodeRef) (e : EpisodeRef)
    → contains remaining e ≡ true
    → contains taken e ≡ false
    → contains (difference remaining taken) e ≡ true
contains-difference [] taken e h n = absurd (ground arith)
contains-difference (x ∷ remaining) taken e h n =
    ground (arith, contains-difference remaining taken e, episode_beq_iff e x)

is_subset-contains :
    (a b : List EpisodeRef) (e : EpisodeRef)
    → is_subset a b ≡ true
    → contains a e ≡ true
    → contains b e ≡ true
is_subset-contains [] b e h m = absurd (ground arith)
is_subset-contains (x ∷ a) b e h m = ground (arith, is_subset-contains a b e, episode_beq_iff e x)

-- Where a candidate of a source other than `d`'s is, it stays when `d`'s source is removed.
stays :
    (c d : CompletionCandidate) (available : List CompletionCandidate)
    → OneOffer available
    → In c available
    → In d available
    → (e : EpisodeRef) → contains c.episodes e ≡ true
    → contains d.episodes e ≡ false
    → In c (without_source d.source_id available)
unfolding OneOffer
stays c d available h m n e y z =
    keep-In (λ (x : CompletionCandidate). not (x.source_id == d.source_id)) c available m
      (ground (arith, eq_iff c.source_id d.source_id, h c d m n))

Plan-covers :
    (family : Option String) (remaining : List EpisodeRef)
    → (available r : List CompletionCandidate) → Plan family remaining available r
    → OneOffer available
    → (e : EpisodeRef) → contains remaining e ≡ true
    → (c : CompletionCandidate) → In c available
    → contains c.episodes e ≡ true
    → (d : CompletionCandidate) × In d r × (contains d.episodes e ≡ true)
Plan-covers family remaining available [] (done nothing) h e m c n y =
    absurd (ground (arith, nothing c n e m))
Plan-covers family remaining available (_ ∷ r) (take d nd useful best plan) h e m c n y =
    elim (Bool-cases (contains d.episodes e)) [
      | inl z ↦ (d, inl refl, z)
      | inr z ↦
          let p =
            Plan-covers family (difference remaining d.episodes)
              (without_source d.source_id available) r plan
              (OneOffer-keep (λ x. not (x.source_id == d.source_id)) available h) e
              (contains-difference remaining d.episodes e m z) c (stays c d available h n nd e y z)
              y in
          (p.0, inr p.1, p.2)
    ]

Plan-In :
    (family : Option String) (remaining : List EpisodeRef)
    → (available r : List CompletionCandidate) → Plan family remaining available r
    → (c : CompletionCandidate) → In c r
    → In c available
Plan-In family remaining available [] (done nothing) c m = absurd m
Plan-In family remaining available (_ ∷ r) (take d nd useful best plan) c (inl e) =
    subst (λ x. In x available) (sym e) nd
Plan-In family remaining available (_ ∷ r) (take d nd useful best plan) c (inr m) =
    (In-keep (λ x. not (x.source_id == d.source_id)) c available
      (Plan-In family (difference remaining d.episodes) (without_source d.source_id available) r
        plan c m)).0

Choice-covers :
    (family : Option String) (missing : List EpisodeRef) (available r : List CompletionCandidate)
    → Choice family missing available r
    → OneOffer available
    → (e : EpisodeRef) → contains missing e ≡ true
    → (c : CompletionCandidate) → In c available
    → contains c.episodes e ≡ true
    → (d : CompletionCandidate) × In d r × (contains d.episodes e ≡ true)
Choice-covers family missing available _ (whole best n all p) h e m c i y =
    (best, inl refl, is_subset-contains missing best.episodes e all m)
Choice-covers family missing available r (parts none_whole plan) h e m c i y =
    Plan-covers family missing available r plan h e m c i y

Choice-In :
    (family : Option String) (missing : List EpisodeRef) (available r : List CompletionCandidate)
    → Choice family missing available r
    → (c : CompletionCandidate) → In c r
    → In c available
Choice-In family missing available _ (whole best n all p) c (inl e) =
    subst (λ x. In x available) (sym e) n
Choice-In family missing available _ (whole best n all p) c (inr m) = absurd m
Choice-In family missing available r (parts none_whole plan) c m =
    Plan-In family missing available r plan c m

same_value : {A : Type 0} (o : Option A) (x y : A) → o ≡ some x → o ≡ some y → x ≡ y
same_value o x y h h' = cc

module _ (casefold : String → String) where
  -- The loop of `choose_candidates` ends, and what it returns is a choice from the allowed
  -- candidates: one candidate with every missing episode, cached before uncached and of the
  -- dominant family before others, where there is one; or else the candidates of a greedy plan,
  -- of which each adds a missing episode, with the same preference, and which ends when no
  -- candidate that is left adds one.
  pub choose_candidates-Choice :
      (candidates : List CompletionCandidate) (missing : List EpisodeRef)
      → (family : Option String) (allow_uncached : Bool)
      → (r : List CompletionCandidate) × (choose_candidates casefold candidates missing family
            allow_uncached
          ≡ some r)
        × Choice family missing (eligible allow_uncached candidates) r
  unfolding choose_candidates
  choose_candidates-Choice candidates missing family allow_uncached =
      let available = eligible allow_uncached candidates in
      elim (List-cases (sort_by_rank casefold missing family (complete missing available))) [
        | inl z ↦
            let q =
              loop-Plan casefold (suc (length available)) family missing available []
                (omega arith) in
            (
              q.0,
              rw (choose_candidates, z) q.1,
              parts (sort_by_rank-eq-nil casefold missing family (complete missing available) z)
                  q.2,
            )
        | inr (best, rest, z) ↦
            let n =
              In-keep (λ (c : CompletionCandidate). is_subset missing c.episodes) best available
                (sort_by_rank-In casefold missing family best (complete missing available) rest
                  z) in
            (
              best ∷ [],
              rw (choose_candidates, z) refl,
              whole best n.0 n.1 (
                  sort_by_rank-Preferred casefold missing family best (complete missing available)
                    rest z),
            )
      ]

  -- Where candidates of one source hold the same episodes: each missing episode that an allowed
  -- candidate holds is held by one of the returned candidates.
  pub choose_candidates-covers :
      (candidates : List CompletionCandidate) (missing : List EpisodeRef)
      → (family : Option String) (allow_uncached : Bool) → OneOffer candidates
      → (e : EpisodeRef) → contains missing e ≡ true
      → (c : CompletionCandidate) → In c candidates
      → (c.cached || allow_uncached) ≡ true
      → contains c.episodes e ≡ true
      → (r : List CompletionCandidate) × (choose_candidates casefold candidates missing family
            allow_uncached
          ≡ some r)
        × ((d : CompletionCandidate) × In d r × (contains d.episodes e ≡ true))
  choose_candidates-covers candidates missing family allow_uncached one e m c n a y =
      let p = choose_candidates-Choice candidates missing family allow_uncached in
      (
        p.0,
        p.1,
        Choice-covers family missing (eligible allow_uncached candidates) p.0 p.2
            (OneOffer-keep (λ x. x.cached || allow_uncached) candidates one) e m c
            (keep-In (λ (x : CompletionCandidate). x.cached || allow_uncached) c candidates n a) y,
      )

  -- Only candidates that were offered are returned, and without permission only cached ones.
  pub choose_candidates-In :
      (candidates : List CompletionCandidate) (missing : List EpisodeRef)
      → (family : Option String) (allow_uncached : Bool) → (r : List CompletionCandidate)
      → choose_candidates casefold candidates missing family allow_uncached ≡ some r
      → (c : CompletionCandidate) → In c r
      → In c candidates × ((c.cached || allow_uncached) ≡ true)
  choose_candidates-In candidates missing family allow_uncached r e c m =
      let p = choose_candidates-Choice candidates missing family allow_uncached in
      In-keep (λ x. x.cached || allow_uncached) c candidates
        (Choice-In family missing (eligible allow_uncached candidates) p.0 p.2 c (
          subst (λ l. In c l)
            (same_value (choose_candidates casefold candidates missing family allow_uncached) r p.0
              e p.1)
            m))
