-- ===== src/Tests/Choices.antt =====
-- Two missing episodes that no single release holds.
use strmline.Prelude.{
  ℕ, ◌≡◌, ◌≢◌, ◌∙◌, ap, sym, refl, inl, inr, String, true, false, ◌||◌, List, [], ◌∷◌, none, some,
  contains, In, eq_iff, arith,
}
use strmline.SeasonCompletion.Ranking.{
  EpisodeRef, episode_eq, CompletionCandidate, choose_candidates, eligible,
}
use strmline.SeasonCompletion.Ranking.Coverage.{
  Choice, OneOffer, choose_candidates-Choice, choose_candidates-covers, choose_candidates-In,
}

abbrev episode_of_one : ℕ → EpisodeRef
episode_of_one n = record { season = 1; episode = n }

abbrev missing : List EpisodeRef
missing = episode_of_one 1 ∷ episode_of_one 2 ∷ []

abbrev offer : String → ℕ → CompletionCandidate
offer source n = record {
  source_id = source;
  info_hash = none;
  title = source;
  release_family = none;
  episodes = episode_of_one n ∷ [];
  cached = true;
  action_url = none;
  match_labels = [];
}

abbrev offers : List CompletionCandidate
offers = offer "x" 1 ∷ offer "y" 2 ∷ []

-- The titles are in lower case.
abbrev casefold : String → String
casefold title = title

choose_candidates-Choice_example :
    (r : List CompletionCandidate) × (choose_candidates casefold offers missing none false ≡ some r)
    × Choice none missing (eligible false offers) r
choose_candidates-Choice_example = choose_candidates-Choice casefold offers missing none false

abbrev source_x : String
source_x = "x"

differ : source_x ≢ "y"
differ e = ground (arith, (eq_iff source_x "y").1 e)

offers-OneOffer : OneOffer offers
unfolding OneOffer
offers-OneOffer c d (inl p) (inl q) e = ap (λ o. o.episodes) (p ∙ sym q)
offers-OneOffer c d (inl p) (inr (inl q)) e =
    absurd (differ (sym (ap (λ o. o.source_id) p) ∙ e ∙ ap (λ o. o.source_id) q))
offers-OneOffer c d (inr (inl p)) (inl q) e =
    absurd (differ (sym (ap (λ o. o.source_id) q) ∙ sym e ∙ ap (λ o. o.source_id) p))
offers-OneOffer c d (inr (inl p)) (inr (inl q)) e = ap (λ o. o.episodes) (p ∙ sym q)
offers-OneOffer c d (inr (inr m)) n e = absurd m
offers-OneOffer c d (inl m) (inr (inr n)) e = absurd n
offers-OneOffer c d (inr (inl m)) (inr (inr n)) e = absurd n

choose_candidates-covers_example :
    (r : List CompletionCandidate) × (choose_candidates casefold offers missing none false ≡ some r)
    × ((d : CompletionCandidate) × In d r × (contains d.episodes (episode_of_one 2) ≡ true))
choose_candidates-covers_example =
    choose_candidates-covers casefold offers missing none false offers-OneOffer (episode_of_one 2)
      refl (offer "y" 2) (inr (inl refl)) refl refl

chosen : choose_candidates casefold offers missing none false ≡ some offers
unfolding choose_candidates
chosen = refl

choose_candidates-In_example : In (offer "y" 2) offers × (((offer "y" 2).cached || false) ≡ true)
choose_candidates-In_example =
    choose_candidates-In casefold offers missing none false offers chosen (offer "y" 2)
      (inr (inl refl))
