-- ===== src/Search/Retrieve.antt =====
-- src/memstem/core/search.py: one whole search, from the two legs to the results that are served. What the
-- index, the vault, the embedder, the reranker and the expander answer is given, exceptions included.
pub mod Fallback
pub mod Outcomes
pub mod Stages
use mathlib.Core.Option
use memstem.Prelude.{
  ℕ, zero, suc, ◌*◌, Bool, true, false, ◌&&◌, Option, none, some, List, [], ◌∷◌, map, length, take,
  get_elem?, ltb, max, is_some, if◌then◌else◌,
}
use memstem.Prelude.Table.{Table}
use memstem.Mmr.{Numbers, mmr_rerank}
use memstem.Search.{
  Floats, FusedHit, Memory, Ranking, Result, overfetch_multiplier, rrf_combine, materialize,
  pool_raises, pool_target, rescores, apply_rerank,
}

-- a call that returns, or raises an exception
pub data Call {ℓ} (A : Type ℓ) : Type ℓ where
  returned : A → Call A
  raised : ℕ → Call A

-- what a `Search` is made of; the queries of the index are for one choice of types
pub record Engine (S : Type 0) : Type 0 where
  pub embed_query : Option (List ℕ → Call (List S))
  pub query_vec : List S → ℕ → Call (List ℕ)
  pub query_fts : List ℕ → ℕ → Call (List ℕ)
  pub is_special : ℕ → Bool
  pub strip : List ℕ → List ℕ
  pub should_expand : List ℕ → Bool
  pub expand_cached : List ℕ → List ℕ
  -- `get_path` followed by `vault.read`, and where the latter raises another exception than
  -- MemoryNotFoundError
  pub read : ℕ → Option (Memory S)
  pub read_raises : ℕ → Bool
  pub score_candidates : List ℕ → List (Memory S) → List S
  pub first_chunk_embedding : ℕ → Option (List S)
  pub semantic_timeout : Option ℕ
  -- the exceptions that are a TimeoutError
  pub is_timeout : ℕ → Bool

pub record Request (S : Type 0) : Type 0 where
  pub query : List ℕ
  pub limit : ℕ
  pub rrf_k : ℕ
  pub bm25_weight : S
  pub vector_weight : S
  pub ranking : Ranking S
  pub mmr_lambda : Option S
  pub rerank_top_n : Option ℕ
  pub use_hyde : Bool
  pub log_client : Option ℕ

-- what the clock decides for a leg with a deadline: whether each `check` finds it over, and whether the
-- search stops waiting before the leg has an answer
pub record Waits : Type 0 where
  pub late_start : Bool
  pub late_scan : Bool
  pub overrun : Bool

pub data Reason : Type 0 where
  exceeded : ℕ → Reason
  exception : ℕ → Reason

-- what a semantic leg's future holds
pub data Future (A : Type 0) : Type 0 where
  answered : A → Future A
  abandoned : Future A
  failed : ℕ → Future A

-- `query_embedding`, `vec`, `degraded` and `degraded_reason`
pub record Semantic (S : Type 0) : Type 0 where
  pub query_embedding : Option (List S)
  pub vec : List ℕ
  pub degraded : Bool
  pub degraded_reason : Option Reason

pub record Outcome (S : Type 0) : Type 0 where
  pub results : List (Result S)
  pub degraded : Bool
  pub degraded_reason : Option Reason

-- the outcome, with what is handed to `pool_out` and to the query log
pub record Run (S : Type 0) : Type 0 where
  pub outcome : Outcome S
  pub pool_out : List (Result S)
  pub logged : Option (List (Result S))

abbrev pub is_empty {ℓ} : {A : Type ℓ} → List A → Bool
is_empty [] = true
is_empty (x ∷ xs) = false

abbrev pub upto : ℕ → ℕ → List ℕ
upto start zero = []
upto start (suc n) = start ∷ upto (suc start) n

abbrev pub cons_some {ℓ} : {A : Type ℓ} → Option A → List A → List A
cons_some none xs = xs
cons_some (some x) xs = x ∷ xs

-- the objects at the given places of a list
unfoldable pub at_places {ℓ} : {A : Type ℓ} → List A → List ℕ → List A
at_places results [] = []
at_places results (i ∷ places) = cons_some (get_elem? results i) (at_places results places)

module _ {S : Type 0} where
  unfoldable pub sanitize_fts_query : Engine S → List ℕ → List ℕ
  sanitize_fts_query engine query =
      engine.strip (map (λ c. if engine.is_special c then b' ' else c) query)

  unfoldable pub query_bm25 : Engine S → List ℕ → ℕ → List ℕ
  unfolding sanitize_fts_query
  query_bm25 engine query limit =
      let sanitized = sanitize_fts_query engine query in
      if is_empty sanitized
      then []
      else elim (engine.query_fts sanitized limit) [ returned hits ↦ hits | raised exc ↦ [] ]

  unfoldable pub maybe_expand_for_hyde : Engine S → List ℕ → Bool → List ℕ
  maybe_expand_for_hyde engine query use_hyde =
      let hypothesis = engine.expand_cached query in
      if use_hyde && engine.should_expand query
      then if is_empty hypothesis then query else hypothesis
      else query

  abbrev pub keyword_only : Reason → Semantic S
  keyword_only reason = record {
    query_embedding = none;
    vec = [];
    degraded = true;
    degraded_reason = some reason;
  }

  abbrev pub no_semantic : Semantic S
  no_semantic = record {
    query_embedding = none;
    vec = [];
    degraded = false;
    degraded_reason = none;
  }

  abbrev pub semantic_hits : List S → List ℕ → Semantic S
  semantic_hits embedding hits = record {
    query_embedding = some embedding;
    vec = hits;
    degraded = false;
    degraded_reason = none;
  }

  -- `attach` finds the leg abandoned only where the search has stopped waiting, so that nobody sees it
  unfoldable pub run_semantic_leg :
      Engine S → (List ℕ → Call (List S)) → Waits → List ℕ → Bool → ℕ → Future (List S × List ℕ)
  unfolding maybe_expand_for_hyde
  run_semantic_leg engine embed_query waits query use_hyde fetch_limit =
      if waits.late_start
      then abandoned
      else elim (embed_query (maybe_expand_for_hyde engine query use_hyde)) [
        | raised exc ↦ failed exc
        | returned embedding ↦
            if waits.late_scan then abandoned else elim (engine.query_vec embedding fetch_limit) [
              | raised exc ↦ failed exc
              | returned hits ↦ answered (embedding, hits)
            ]
      ]

  -- the leg beside BM25, with a deadline
  -- a TimeoutError that the leg itself raises is caught as an overrun, too
  abbrev pub await_leg : (ℕ → Bool) → Bool → ℕ → Future (List S × List ℕ) → Semantic S
  await_leg is_timeout true semantic_timeout future = keyword_only (exceeded semantic_timeout)
  await_leg is_timeout false semantic_timeout abandoned = keyword_only (exceeded semantic_timeout)
  await_leg is_timeout false semantic_timeout (failed exc) =
      keyword_only (if is_timeout exc then exceeded semantic_timeout else exception exc)
  await_leg is_timeout false semantic_timeout (answered (embedding, hits)) =
      semantic_hits embedding hits

  -- the leg in line, with no deadline
  unfoldable pub semantic_inline :
      Engine S → (List ℕ → Call (List S)) → List ℕ → Bool → ℕ → Semantic S
  unfolding maybe_expand_for_hyde
  semantic_inline engine embed_query query use_hyde fetch_limit =
      elim (embed_query (maybe_expand_for_hyde engine query use_hyde)) [
        | raised exc ↦ keyword_only (exception exc)
        | returned embedding ↦ elim (engine.query_vec embedding fetch_limit) [
          | raised exc ↦ keyword_only (exception exc)
          | returned hits ↦ semantic_hits embedding hits
        ]
      ]

  abbrev pub semantic_with :
      Engine S → Option ℕ → (List ℕ → Call (List S)) → Waits → List ℕ → Bool → ℕ → Semantic S
  semantic_with engine (some t) embed_query waits query use_hyde fetch_limit =
      await_leg engine.is_timeout waits.overrun t
        (run_semantic_leg engine embed_query waits query use_hyde fetch_limit)
  semantic_with engine none embed_query waits query use_hyde fetch_limit =
      semantic_inline engine embed_query query use_hyde fetch_limit

  unfoldable pub semantic : Engine S → Waits → List ℕ → Bool → ℕ → Semantic S
  unfolding run_semantic_leg semantic_inline
  semantic engine waits query use_hyde fetch_limit = elim engine.embed_query [
    | none ↦ no_semantic
    | some embed_query ↦
        semantic_with engine engine.semantic_timeout embed_query waits query use_hyde fetch_limit
  ]

  unfoldable pub materialize_limit : Request S → Bool → ℕ
  materialize_limit request has_embedding =
      let diverse =
        if is_some request.mmr_lambda && has_embedding
        then max request.limit (request.limit * overfetch_multiplier)
        else request.limit in
      elim request.rerank_top_n [
        | none ↦ diverse
        | some top_n ↦ if ltb 0 top_n then max diverse top_n else diverse
      ]

  abbrev pub vector_of : Engine S → Option (Result S) → Option (List S)
  vector_of engine none = none
  vector_of engine (some r) = engine.first_chunk_embedding r.memory.id

  -- `mmr_rerank` on the results: its candidates are their places
  unfoldable pub diversify :
      Numbers S → Engine S → List (Result S) → List S → S → ℕ → Option (List (Result S))
  unfolding mmr_rerank at_places
  diversify n engine results query_embedding lambda_ k = Option.map (at_places results) (
      mmr_rerank n (upto 0 (length results)) query_embedding
        (λ c. vector_of engine (get_elem? results c)) lambda_ k)

  unfoldable pub rerank_stage :
      Floats S → Engine S → Request S → List (Result S) → Option (List (Result S))
  unfolding apply_rerank
  rerank_stage f engine request [] = some []
  rerank_stage f engine request (r ∷ results) = elim request.rerank_top_n [
    | none ↦ some (r ∷ results)
    | some top_n ↦
        if ltb 0 top_n
        then apply_rerank f (engine.score_candidates request.query) top_n (r ∷ results)
        else some (r ∷ results)
  ]

  abbrev pub cut_stage :
      Numbers S
      → Engine S
      → Option S
      → Option (List S)
      → ℕ
      → List (Result S)
      → Option (List (Result S))
  cut_stage n engine (some lambda_) (some query_embedding) limit results =
      diversify n engine results query_embedding lambda_ limit
  cut_stage n engine (some lambda_) none limit results = some (take limit results)
  cut_stage n engine none query_embedding limit results = some (take limit results)

  abbrev pub serve : Request S → Semantic S → List (Result S) → List (Result S) → Run S
  serve request leg pool results = record {
    outcome = record {
      results = results;
      degraded = leg.degraded;
      degraded_reason = leg.degraded_reason;
    };
    pool_out = pool;
    logged =
        if is_some request.log_client && is_some (get_elem? results 0) then some results else none;
  }

  -- the results that the vault gives for the fused hits
  unfoldable pub materialized : Floats S → Engine S → Request S → Semantic S → List (Result S)
  unfolding query_bm25 rrf_combine materialize_limit materialize
  materialized f engine request leg =
      let bm25 = query_bm25 engine request.query (request.limit * overfetch_multiplier) in
      let fused =
        rrf_combine f bm25 leg.vec request.rrf_k request.bm25_weight request.vector_weight in
      materialize f engine.read request.ranking
        (materialize_limit request (is_some leg.query_embedding)) fused

  -- whether a read of the materialization raises, which ends the search
  unfoldable pub materialization_raises : Floats S → Engine S → Request S → Semantic S → Bool
  unfolding query_bm25 rrf_combine materialize_limit pool_raises rescores
  materialization_raises f engine request leg =
      let bm25 = query_bm25 engine request.query (request.limit * overfetch_multiplier) in
      let fused =
        rrf_combine f bm25 leg.vec request.rrf_k request.bm25_weight request.vector_weight in
      pool_raises f engine.read_raises engine.read request.ranking
        (pool_target f request.ranking (materialize_limit request (is_some leg.query_embedding)))
        fused []

  -- what follows the two legs: none where a stage raises
  unfoldable pub rank : Floats S → Numbers S → Engine S → Request S → Semantic S → Option (Run S)
  unfolding materialization_raises materialized rerank_stage diversify
  rank f n engine request leg =
      if materialization_raises f engine request leg
      then none
      else elim (rerank_stage f engine request (materialized f engine request leg)) [
        | none ↦ none
        | some pool ↦
            Option.map (serve request leg pool)
              (cut_stage n engine request.mmr_lambda leg.query_embedding request.limit pool)
      ]

  -- the semantic leg of a request
  abbrev pub leg_of : Engine S → Waits → Request S → Semantic S
  leg_of engine waits request =
      semantic engine waits request.query request.use_hyde (request.limit * overfetch_multiplier)

  unfoldable pub retrieve_and_rank :
      Floats S → Numbers S → Engine S → Waits → Request S → Option (Run S)
  unfolding semantic rank
  retrieve_and_rank f n engine waits request = rank f n engine request (leg_of engine waits request)
