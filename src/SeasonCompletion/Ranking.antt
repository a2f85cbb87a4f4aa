-- ===== src/SeasonCompletion/Ranking.antt =====
-- api/app/season_completion/ranking.py: which releases are acquired for the missing episodes of a
-- season. A set is a list without repetitions. `casefold` stands for `str.casefold`, whose
-- table is Unicode's; the release families, which regular expressions extract, are given.
pub mod Coverage
pub mod Choice
use Prim.Native.Nat.{Ordering}
use Prim.Native.String
use strmline.Prelude.{
  ℕ, zero, suc, ◌+◌, ◌≡◌, ◌↔◌, String, Bool, true, false, not, ◌&&◌, ◌||◌, List, [], ◌∷◌, ◌++◌,
  Option, none, some, nat_beq, ltb, if◌then◌else◌, Eq, ◌==◌, string_eq, string_lt, length, keep,
  any, contains, sort_by, arith,
}

pub record EpisodeRef : Type 0 where
  pub season : ℕ
  pub episode : ℕ

abbrev pub episode_beq : EpisodeRef → EpisodeRef → Bool
episode_beq a b = nat_beq a.season b.season && nat_beq a.episode b.episode

pub episode_beq_iff : (a b : EpisodeRef) → (episode_beq a b ≡ true) ↔ (a ≡ b)
episode_beq_iff a b = ground arith

instance abbrev pub episode_eq : Eq EpisodeRef
episode_eq = record { equal = episode_beq; equal_iff = episode_beq_iff }

pub record CompletionCandidate : Type 0 where
  pub source_id : String
  pub info_hash : Option String
  pub title : String
  pub release_family : Option String
  pub episodes : List EpisodeRef
  pub cached : Bool
  pub action_url : Option String
  pub match_labels : List String

-- `a.intersection(b)`, `a.difference(b)`, `a.issubset(b)`.
abbrev pub intersection : List EpisodeRef → List EpisodeRef → List EpisodeRef
intersection a b = keep (contains b) a

abbrev pub difference : List EpisodeRef → List EpisodeRef → List EpisodeRef
difference a b = keep (λ e. not (contains b e)) a

abbrev pub is_subset : List EpisodeRef → List EpisodeRef → Bool
is_subset [] b = true
is_subset (e ∷ a) b = contains b e && is_subset a b

abbrev pub is_empty {ℓ} : {A : Type ℓ} → List A → Bool
is_empty [] = true
is_empty (_ ∷ _) = false

-- The tuple that `_rank` returns; `more` is the coverage, of which the tuple has the negation.
pub record Rank : Type 0 where
  pub uncached : ℕ
  pub foreign : ℕ
  pub more : ℕ
  pub title : String

-- Tuples are compared from the left, and the third place the other way round.
unfoldable pub rank_lt : Rank → Rank → Bool
rank_lt a b =
    ltb a.uncached b.uncached
    || (nat_beq a.uncached b.uncached
        && (ltb a.foreign b.foreign
            || (nat_beq a.foreign b.foreign
                && (ltb b.more a.more || (nat_beq a.more b.more && string_lt a.title b.title)))))

-- `dominant_family is not None and candidate.release_family == dominant_family`
unfoldable pub same_family : Option String → Option String → Bool
same_family none family = false
same_family (some dominant) none = false
same_family (some dominant) (some family) = family == dominant

-- Those of the candidates that hold something that remains.
abbrev pub useful : List EpisodeRef → List CompletionCandidate → List CompletionCandidate
useful remaining = keep (λ candidate. not (is_empty (intersection candidate.episodes remaining)))

abbrev pub without_source : String → List CompletionCandidate → List CompletionCandidate
without_source source_id = keep (λ candidate. not (candidate.source_id == source_id))

abbrev pub eligible : Bool → List CompletionCandidate → List CompletionCandidate
eligible allow_uncached = keep (λ candidate. candidate.cached || allow_uncached)

abbrev pub complete : List EpisodeRef → List CompletionCandidate → List CompletionCandidate
complete missing = keep (λ candidate. is_subset missing candidate.episodes)

module _ (casefold : String → String) where
  unfoldable pub rank : CompletionCandidate → List EpisodeRef → Option String → Rank
  unfolding same_family
  rank candidate remaining dominant_family = record {
    uncached = if candidate.cached then 0 else 1;
    foreign = if same_family dominant_family candidate.release_family then 0 else 1;
    more = length (intersection candidate.episodes remaining);
    title = casefold candidate.title;
  }

  -- `candidates.sort(key=lambda candidate: _rank(candidate, remaining, dominant_family))`
  unfoldable pub sort_by_rank :
      List EpisodeRef → Option String → List CompletionCandidate → List CompletionCandidate
  unfolding rank rank_lt
  sort_by_rank remaining dominant_family =
      sort_by (λ a b. rank_lt (rank a remaining dominant_family) (rank b remaining dominant_family))

  -- The `while remaining` loop. `none` means that the fuel ran out.
  unfoldable pub choose_loop :
      ℕ
      → Option String
      → List EpisodeRef
      → List CompletionCandidate
      → List CompletionCandidate
      → Option (List CompletionCandidate)
  unfolding sort_by_rank
  choose_loop fuel dominant_family [] available selected = some selected
  choose_loop zero dominant_family (e ∷ remaining) available selected = none
  choose_loop (suc fuel) dominant_family (e ∷ remaining) available selected =
      elim (sort_by_rank (e ∷ remaining) dominant_family (useful (e ∷ remaining) available)) [
        | [] ↦ some selected
        | chosen ∷ _ ↦
            choose_loop fuel dominant_family (difference (e ∷ remaining) chosen.episodes)
              (without_source chosen.source_id available) (selected ++ (chosen ∷ []))
      ]

  -- A round of the loop removes its choice from what is available, so one round more than there
  -- are candidates is enough.
  unfoldable pub choose_candidates :
      List CompletionCandidate
      → List EpisodeRef
      → Option String
      → Bool
      → Option (List CompletionCandidate)
  unfolding choose_loop
  choose_candidates candidates missing dominant_family allow_uncached =
      let available = eligible allow_uncached candidates in
      elim (sort_by_rank missing dominant_family (complete missing available)) [
        | best ∷ _ ↦ some (best ∷ [])
        | [] ↦ choose_loop (suc (length available)) dominant_family missing available []
      ]
