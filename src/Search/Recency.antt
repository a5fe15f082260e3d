-- ===== src/Search/Recency.antt =====
-- src/memstem/core/recency.py: the factor by which a memory's score grows with how new its content is. Times
-- are seconds since the epoch; whether a query names an earlier time is given, as its expression is not run.
pub mod Decay
use mathlib.Core.Option
use memstem.Prelude.{
  ℕ, ◌+◌, ◌-◌, Bool, true, false, not, ◌&&◌, ◌||◌, Option, none, some, List, [], ◌∷◌, elem,
  if◌then◌else◌,
}
use memstem.Search.{Floats, Memory, Ranking}

-- a value that may be a datetime, a text, or anything else
pub data Moment : Type 0 where
  at : ℕ → Moment
  text : List ℕ → Moment
  other : Moment

-- what `recency_multiplier` reads of a memory's frontmatter
pub record Dated : Type 0 where
  pub kind : ℕ
  pub pinned : Bool
  -- `provenance.source_updated`: none for no provenance or no such field
  pub source_updated : Option Moment
  pub updated : ℕ

pub record RecencyPolicy (S : Type 0) : Type 0 where
  pub weight : S
  pub half_life_days : S
  pub timeless_types : List ℕ
  pub skip_historical_queries : Bool

pub record RecencyConfig (S : Type 0) : Type 0 where
  pub enabled : Bool
  pub weight : S
  pub half_life_days : S
  pub timeless_types : List ℕ
  pub skip_historical_queries : Bool

module _ {S : Type 0} where
  unfoldable pub policy_from_config : Option (RecencyConfig S) → Option (RecencyPolicy S)
  policy_from_config none = none
  policy_from_config (some config) =
      if config.enabled
      then some (record {
        weight = config.weight;
        half_life_days = config.half_life_days;
        timeless_types = config.timeless_types;
        skip_historical_queries = config.skip_historical_queries;
      })
      else none

  -- `is_historical` is the match of the query with `_HISTORICAL_RE`
  unfoldable pub policy_for_query :
      Floats S → Option (RecencyPolicy S) → Bool → Option (RecencyPolicy S)
  policy_for_query f none is_historical = none
  policy_for_query f (some policy) is_historical =
      if f.is_zero policy.weight
      then none
      else if policy.skip_historical_queries && is_historical
      then none
      else some policy

-- `parse` is `fromisoformat` on the text, in UTC where it names no zone: none where it raises
unfoldable pub as_utc : (List ℕ → Option ℕ) → Moment → Option ℕ
as_utc parse (at moment) = some moment
as_utc parse (text []) = none
as_utc parse (text (c ∷ cs)) = parse (c ∷ cs)
as_utc parse other = none

unfoldable pub content_date : (List ℕ → Option ℕ) → Dated → ℕ
unfolding as_utc
content_date parse memory =
    Option.get_or (Option.bind memory.source_updated (as_utc parse)) memory.updated

module _ {S : Type 0} where
  unfoldable pub is_timeless : Dated → RecencyPolicy S → Bool
  unfolding elem
  is_timeless memory policy = elem memory.kind policy.timeless_types || memory.pinned

  -- `power` is `2.0 ** (-age_days / half_life_days)` at an age in seconds
  unfoldable pub recency_multiplier :
      Floats S → (ℕ → S → S) → (List ℕ → Option ℕ) → Dated → ℕ → RecencyPolicy S → S
  unfolding is_timeless content_date
  recency_multiplier f power parse memory now policy =
      if is_timeless memory policy
      then f.add f.one policy.weight
      else f.add f.one
          (f.mul policy.weight (power (now - content_date parse memory) policy.half_life_days))

  -- the policy of a search, as its ranking takes it
  unfoldable pub with_recency :
      Floats S
      → (ℕ → S → S)
      → (List ℕ → Option ℕ)
      → (Memory S → Dated)
      → Option (RecencyPolicy S)
      → Bool
      → Ranking S
      → Ranking S
  unfolding policy_for_query recency_multiplier
  with_recency f power parse dated recency is_historical ranking = record ranking {
    recency =
        Option.map
          (λ policy memory. recency_multiplier f power parse (dated memory) ranking.now policy)
          (policy_for_query f recency is_historical);
  }
