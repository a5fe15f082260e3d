-- ===== src/Search/Status.antt =====
-- src/memstem/core/search.py: `search_with_status` around one search: the read-only mode, the shadow reranker,
-- and (src/memstem/core/index.py) the count of the searches in flight that bulk ingest yields to.
pub mod Shadowed
use mathlib.Core.Option
use memstem.Prelude.{
  ℕ, suc, ◌-◌, Bool, true, false, ◌&&◌, Option, none, some, List, [], ◌∷◌, max, is_some,
  if◌then◌else◌,
}
use memstem.Mmr.{Numbers}
use memstem.Search.{Floats, Result}
use memstem.Search.Retrieve.{Engine, Waits, Request, Outcome, Run, retrieve_and_rank}

-- `JevShadow`: `serve` is none where it keeps the normal order; `submit` may raise, and only has effects
pub record Shadow (S : Type 0) : Type 0 where
  pub wants : List ℕ → ℕ → Bool
  pub serves : Bool
  pub serve : ℕ → List ℕ → Outcome S → List (Result S) → Option (List (Result S))

-- what a search returns, what it appends to the query log, and what it submits to the shadow reranker
pub record Report (S : Type 0) : Type 0 where
  pub outcome : Outcome S
  pub logged : Option (List (Result S))
  pub submitted : Option (ℕ × Outcome S × List (Result S))

unfoldable pub search_started : ℕ → ℕ
search_started searches_in_flight = suc searches_in_flight

unfoldable pub search_finished : ℕ → ℕ
search_finished searches_in_flight = max 0 (searches_in_flight - 1)

-- what the read-only mode makes of a value that leads to a write
abbrev pub unless : {A : Type 0} → Bool → Option A → Option A
unless read_only value = if read_only then none else value

module _ {S : Type 0} where
  abbrev pub asked : Option (Shadow S) → Option ℕ → Request S → Option (Shadow S × ℕ)
  asked none client request = none
  asked (some shadow) none request = none
  asked (some shadow) (some client) request =
      if shadow.wants request.query request.limit then some (shadow, client) else none

  abbrev pub report : Request S → Run S → Option (Shadow S × ℕ) → Report S
  report request run none = record { outcome = run.outcome; logged = run.logged; submitted = none }
  report request run (some (shadow, client)) =
      if shadow.serves
      then record {
        outcome = record run.outcome {
          results =
              Option.get_or (shadow.serve client request.query run.outcome run.pool_out)
                run.outcome.results;
        };
        logged = run.logged;
        submitted = none;
      }
      else record {
        outcome = run.outcome;
        logged = run.logged;
        submitted = some (client, run.outcome, run.pool_out);
      }

  -- a `Search` that was made with `read_only` has no shadow reranker
  unfoldable pub search_with_status :
      Floats S
      → Numbers S
      → Engine S
      → Waits
      → Bool
      → Option (Shadow S)
      → Option ℕ
      → Request S
      → Option (Report S)
  unfolding retrieve_and_rank
  search_with_status f n engine waits read_only shadow shadow_client request =
      let once = record request { log_client = unless read_only request.log_client } in
      Option.map
        (λ run.
          report once run (asked (unless read_only shadow) (unless read_only shadow_client) once))
        (retrieve_and_rank f n engine waits once)

-- a search begins or ends, on whatever thread; `_search_once` ends each that it began, also where it raises
pub data Event : Type 0 where
  started finished : Event

unfoldable pub searches_in_flight : List Event → ℕ → ℕ
unfolding search_started search_finished
searches_in_flight [] count = count
searches_in_flight (started ∷ events) count = searches_in_flight events (search_started count)
searches_in_flight (finished ∷ events) count = searches_in_flight events (search_finished count)
