-- ===== src/Tests/Retrieve.antt =====
-- Whole searches over three memories, with an embedder that answers, one that raises, and a late one.
use mathlib.Core.Option
use Prim.Native.Nat.{◌/◌}
use memstem.Prelude.{
  ℕ, ◌+◌, ◌-◌, ◌*◌, ◌≤◌, ◌≡◌, refl, true, false, not, ◌&&◌, Option, some, none, List, [], ◌∷◌, map,
  arith, get_elem?, is_some, length, length-map, ltb, ◌==◌, All, if◌then◌else◌,
}
use memstem.Prelude.Counting.{NoRepeat}
use memstem.Prelude.Sorting.{sort_by}
use memstem.Prelude.Table.{upsert}
use memstem.Mmr.{Numbers, pair_sim}
use memstem.Search.Retrieve.Stages.{IsTameFor}
use memstem.Search.{Floats, Memory, is_hidden, at_least}
use memstem.Search.Retrieve.{
  Call, returned, Engine, Request, Waits, Run, leg_of, semantic, retrieve_and_rank,
}
use memstem.Search.Retrieve.Outcomes.{retrieve_and_rank-visible}
use memstem.Search.Retrieve.Fallback.{
  without_embedder, as_degraded, in_time, scans, semantic-degraded, retrieve_and_rank-fallback,
}
use memstem.Search.Status.{Shadow, search_with_status, Event, started, finished, searches_in_flight}
use memstem.Search.Status.Shadowed.{
  begun, ended, searches_in_flight-begun, quiet_report, shown, search_with_status-read_only,
  search_with_status-shadow,
}
use memstem.Search.Recency.{Dated, at, RecencyPolicy, recency_multiplier}
use memstem.Search.Recency.Decay.{age_at, recency_multiplier-age}

abbrev floats : Floats ℕ
floats = record {
  add = λ a b. a + b;
  mul = λ a b. a * b;
  divide = λ a n. a / n;
  less = ltb;
  equal = λ a b. a == b;
  is_zero = λ a. a == 0;
  one = 1;
  half = 1;
}

abbrev dot : List ℕ → List ℕ → ℕ
dot [] b = 0
dot (x ∷ a) [] = 0
dot (x ∷ a) (y ∷ b) = x * y + dot a b

-- whole numbers, with differences and quotients that are always above the bottom
abbrev numbers : Numbers ℕ
numbers = record {
  sub = λ a b. 1 + (a - b);
  mul = λ a b. a * b;
  div = λ a b. 1 + a / b;
  dot = dot;
  sqrt = λ a. a;
  less = ltb;
  is_zero = λ a. a == 0;
  nought = 1;
  one = 1;
  bottom = 0;
}

-- memory 2 is deprecated
abbrev memory : ℕ → Memory ℕ
memory m = record {
  id = m;
  kind = 0;
  importance = none;
  valid_to = none;
  deprecated_by = if m == 2 then some 1 else none;
  deleted_at = none;
}

-- the words of queries are numbers; the embedder answers as it is told
abbrev engine : Call (List ℕ) → Option ℕ → Engine ℕ
engine reply timeout = record {
  embed_query = some (λ q. reply);
  query_vec = λ v n. returned (3 ∷ 3 ∷ 1 ∷ []);
  query_fts = λ q n. returned (1 ∷ 2 ∷ []);
  is_special = λ c. c == 63;
  strip = λ q. q;
  should_expand = λ q. false;
  expand_cached = λ q. [];
  read = λ m. some (memory m);
  read_raises = λ m. false;
  score_candidates = λ q ms. map (λ m. m.id) ms;
  first_chunk_embedding = λ m. some (m ∷ 1 ∷ []);
  semantic_timeout = timeout;
  is_timeout = λ exc. exc == 6;
}

abbrev request : Request ℕ
request = record {
  query = 100 ∷ 63 ∷ [];
  limit = 2;
  rrf_k = 60;
  bm25_weight = 1000000;
  vector_weight = 1000000;
  ranking = record {
    importance_weight = 0;
    type_bias = [];
    recency = none;
    include_expired = false;
    include_deprecated = false;
    include_deleted = false;
    now = 50;
  };
  mmr_lambda = some 1;
  rerank_top_n = some 2;
  use_hyde = true;
  log_client = some 7;
}

abbrev early : Waits
early = record { late_start = false; late_scan = false; overrun = false }

abbrev late : Waits
late = record { late_start = false; late_scan = true; overrun = true }

abbrev vector : List ℕ
vector = 1 ∷ 0 ∷ []

abbrev ids : Option (Run ℕ) → List ℕ
ids none = []
ids (some run) = map (λ r. r.memory.id) run.outcome.results

hybrid-run :
    ids (retrieve_and_rank floats numbers (engine (returned vector) none) early request)
    ≡ 3 ∷ 1 ∷ []
unfolding retrieve_and_rank sort_by upsert
hybrid-run = refl

degraded-run :
    ids (retrieve_and_rank floats numbers (engine (returned vector) (some 5)) late request) ≡ 1 ∷ []
unfolding retrieve_and_rank sort_by upsert
degraded-run = refl

abbrev here : Engine ℕ
here = engine (returned vector) none

abbrev slow : Engine ℕ
slow = engine (returned vector) (some 5)

one_score_each :
    (q : List ℕ) (ms : List (Memory ℕ)) → length (map (λ (m : Memory ℕ). m.id) ms) ≡ length ms
one_score_each q ms = length-map (λ (m : Memory ℕ). m.id) ms

numbers_tame : IsTameFor numbers here 1 vector
unfolding pair_sim
numbers_tame e stored = record {
  pairs = λ c d. ground arith;
  firsts = λ c. ground arith;
  nexts = λ c d. ground arith;
}

keyed : (m : ℕ) (found : Memory ℕ) → some (memory m) ≡ some found → found.id ≡ m
keyed m found e = ground (arith, e)

retrieve_and_rank-visible_example :
    (run : Run ℕ) × (retrieve_and_rank floats numbers here early request ≡ some run)
    × All (λ r. is_hidden floats request.ranking r.memory ≡ false) run.outcome.results
    × NoRepeat (map (λ r. r.memory.id) run.outcome.results)
    × (length run.outcome.results ≤ 2)
    × (run.logged ≡ (
        if is_some request.log_client && is_some (get_elem? run.outcome.results 0)
        then some run.outcome.results
        else none))
unfolding semantic
retrieve_and_rank-visible_example =
    retrieve_and_rank-visible floats numbers here early request numbers_tame (λ m. refl)
      one_score_each keyed

late_leg : (leg_of slow late request).degraded ≡ true
unfolding semantic
late_leg = refl

retrieve_and_rank-fallback_example :
    retrieve_and_rank floats numbers slow late request
    ≡ Option.map
        (as_degraded (leg_of slow late request).degraded_reason)
        (retrieve_and_rank floats numbers (without_embedder slow) late request)
retrieve_and_rank-fallback_example =
    retrieve_and_rank-fallback floats numbers slow late request late_leg

semantic-degraded_example :
    (semantic slow early (100 ∷ []) false 10).degraded
    ≡ not (in_time (some 5) early && scans slow (returned vector) 10)
semantic-degraded_example = semantic-degraded slow early (100 ∷ []) false 10

-- a shadow reranker that would turn the results around, if it served
abbrev shadow : Shadow ℕ
shadow = record { wants = λ q limit. true; serves = false; serve = λ c q outcome pool. some pool }

search_with_status-read_only_run :
    search_with_status floats numbers here early true (some shadow) (some 9) request
    ≡ Option.map quiet_report (retrieve_and_rank floats numbers here early request)
search_with_status-read_only_run =
    search_with_status-read_only floats numbers here early (some shadow) (some 9) request

search_with_status-shadow_run :
    Option.map shown
      (search_with_status floats numbers here early false (some shadow) (some 9) request)
    ≡ Option.map shown (search_with_status floats numbers here early false none (some 9) request)
search_with_status-shadow_run =
    search_with_status-shadow floats numbers here early false shadow (some 9) request refl

abbrev events : List Event
events = started ∷ started ∷ finished ∷ started ∷ []

searches_in_flight-begun_run : searches_in_flight events 0 + ended events ≡ 0 + begun events
searches_in_flight-begun_run = searches_in_flight-begun 0 events (refl, tt)

abbrev policy : RecencyPolicy ℕ
policy = record {
  weight = 2;
  half_life_days = 30;
  timeless_types = 4 ∷ [];
  skip_historical_queries = true;
}

abbrev fresh : Dated
fresh = record { kind = 1; pinned = true; source_updated = some (at 3); updated = 90 }

abbrev stale : Dated
stale = record { kind = 1; pinned = false; source_updated = some (at 3); updated = 90 }

-- a power that falls from 1 to 0
abbrev power : ℕ → ℕ → ℕ
power age half_life = 1 - age

power_falls :
    (a b : ℕ)
    → a ≤ b
    → at_least floats (power a policy.half_life_days) (power b policy.half_life_days) ≡ true
power_falls a b h = ground (arith, h)

boost_keeps :
    (x y : ℕ) → at_least floats x y ≡ true → at_least floats (1 + 2 * x) (1 + 2 * y) ≡ true
boost_keeps x y h = ground (arith, h)

fresh_first : age_at (λ t. none) fresh 100 policy ≤ age_at (λ t. none) stale 100 policy
unfolding recency_multiplier
fresh_first = omega arith

recency_multiplier-age_run :
    (recency_multiplier floats power (λ t. none) fresh 100 policy
      ≡ 1 + 2 * power (age_at (λ t. none) fresh 100 policy) 30)
    × (at_least floats
          (recency_multiplier floats power (λ t. none) fresh 100 policy)
          (recency_multiplier floats power (λ t. none) stale 100 policy)
        ≡ true)
recency_multiplier-age_run =
    recency_multiplier-age floats power (λ t. none) 100 policy fresh stale refl refl power_falls
      boost_keeps fresh_first
