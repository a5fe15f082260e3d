-- ===== src/Search/Retrieve/Fallback.antt =====
-- src/memstem/core/search.py: what a search serves when its semantic leg fails or is late.
use mathlib.Core.Option
use memstem.Prelude.{
  ℕ, ◌*◌, ◌≡◌, refl, true, false, Bool, Option, none, some, List, [], ◌∷◌, take, not, ◌&&◌, arith,
  inl, inr, Option-cases, Bool-cases,
}
use memstem.Mmr.{Numbers}
use memstem.Search.{Floats, Result, overfetch_multiplier}
use memstem.Search.Retrieve.{
  Call, returned, raised, Engine, Request, Waits, Semantic, Future, Run, leg_of, Reason, Reason,
  semantic, await_leg, run_semantic_leg, semantic_inline, no_semantic, rank, rerank_stage,
  materialized, materialization_raises, query_bm25, sanitize_fts_query, cut_stage,
  retrieve_and_rank, maybe_expand_for_hyde,
}

-- the search with no embedder
abbrev pub without_embedder : {S : Type 0} → Engine S → Engine S
without_embedder engine = record engine { embed_query = none }

abbrev pub as_degraded : {S : Type 0} → Option Reason → Run S → Run S
as_degraded reason run = record run {
  outcome = record run.outcome { degraded = true; degraded_reason = reason };
}

abbrev pub in_time : Option ℕ → Waits → Bool
in_time none waits = true
in_time (some t) waits = not waits.overrun && (not waits.late_start && not waits.late_scan)

abbrev pub returns : {A : Type 0} → Call A → Bool
returns (returned a) = true
returns (raised exc) = false

module _ {S : Type 0} (engine : Engine S) where
  -- the embedder gives a vector, and the index gives hits for it
  abbrev pub scans : Call (List S) → ℕ → Bool
  scans (raised exc) limit = false
  scans (returned embedding) limit = returns (engine.query_vec embedding limit)

  scan_inline :
      (embed_query : List ℕ → Call (List S)) (query : List ℕ) (use_hyde : Bool) (limit : ℕ)
      → (semantic_inline engine embed_query query use_hyde limit).degraded
        ≡ not (scans (embed_query (maybe_expand_for_hyde engine query use_hyde)) limit)
  unfolding semantic_inline
  scan_inline embed_query query use_hyde limit = ground arith

  scan_waited :
      (embed_query : List ℕ → Call (List S)) (waits : Waits) (t : ℕ) (query : List ℕ)
      (use_hyde : Bool) (limit : ℕ)
      → (await_leg engine.is_timeout waits.overrun t
          (run_semantic_leg engine embed_query waits query use_hyde limit)).degraded
        ≡ not (
            in_time (some t) waits
            && scans (embed_query (maybe_expand_for_hyde engine query use_hyde)) limit)
  unfolding run_semantic_leg
  scan_waited embed_query waits t query use_hyde limit = ground arith

  fails_inline :
      (embed_query : List ℕ → Call (List S)) (query : List ℕ) (use_hyde : Bool) (limit : ℕ)
      → (semantic_inline engine embed_query query use_hyde limit).degraded ≡ true
      → ((semantic_inline engine embed_query query use_hyde limit).vec ≡ [])
        × ((semantic_inline engine embed_query query use_hyde limit).query_embedding ≡ none)
  unfolding semantic_inline
  fails_inline embed_query query use_hyde limit h = ground arith

  fails_waited :
      (overrun : Bool) (t : ℕ) (future : Future (List S × List ℕ))
      → (await_leg engine.is_timeout overrun t future).degraded ≡ true
      → ((await_leg engine.is_timeout overrun t future).vec ≡ [])
        × ((await_leg engine.is_timeout overrun t future).query_embedding ≡ none)
  fails_waited overrun t future h = ground arith

  -- a leg that failed has no embedding and no hits
  semantic-fails :
      (waits : Waits) (query : List ℕ) (use_hyde : Bool) (limit : ℕ)
      → (semantic engine waits query use_hyde limit).degraded ≡ true
      → ((semantic engine waits query use_hyde limit).vec ≡ [])
        × ((semantic engine waits query use_hyde limit).query_embedding ≡ none)
  unfolding semantic
  semantic-fails waits query use_hyde limit h = elim (Option-cases engine.embed_query) [
    | inl e ↦ rw (semantic, e) (refl, refl)
    | inr (embed_query, e) ↦ elim (Option-cases engine.semantic_timeout) [
      | inl u ↦
          rw (semantic, e, u)
            (fails_inline embed_query query use_hyde limit (rw (semantic, e, u) at h))
      | inr (t, u) ↦
          rw (semantic, e, u)
            (fails_waited waits.overrun t
              (run_semantic_leg engine embed_query waits query use_hyde limit)
              (rw (semantic, e, u) at h))
    ]
  ]

-- A search is marked as degraded exactly when it has an embedder and its semantic leg gives no answer: the query
-- cannot be embedded, the index cannot be searched, or, under a time limit, the leg finds the limit over before
-- either or the search stops waiting for it.
pub semantic-degraded :
    {S : Type 0} (engine : Engine S) (waits : Waits) (query : List ℕ) (use_hyde : Bool) (limit : ℕ)
    → (semantic engine waits query use_hyde limit).degraded ≡ elim engine.embed_query [
      | none ↦ false
      | some embed_query ↦ not (
          in_time engine.semantic_timeout waits
          && scans engine (embed_query (maybe_expand_for_hyde engine query use_hyde)) limit)
    ]
unfolding semantic
semantic-degraded engine waits query use_hyde limit = elim (Option-cases engine.embed_query) [
  | inl e ↦ rw (semantic, e) refl
  | inr (embed_query, e) ↦ elim (Option-cases engine.semantic_timeout) [
    | inl u ↦ rw (semantic, e, u) (scan_inline engine embed_query query use_hyde limit)
    | inr (t, u) ↦ rw (semantic, e, u) (scan_waited engine embed_query waits t query use_hyde limit)
  ]
]

module _ {S : Type 0} (f : Floats S) (n : Numbers S) (engine : Engine S) (request : Request S) where
  -- the stages see of a failed leg that there are no hits and no embedding
  materialized-fails :
      (leg : Semantic S)
      → leg.vec ≡ []
      → leg.query_embedding ≡ none
      → materialized f engine request leg
        ≡ materialized f (without_embedder engine) request no_semantic
  unfolding materialized query_bm25 sanitize_fts_query
  materialized-fails leg e e' = rw (materialized, e, e') refl

  raises-fails :
      (leg : Semantic S)
      → leg.vec ≡ []
      → leg.query_embedding ≡ none
      → materialization_raises f engine request leg
        ≡ materialization_raises f (without_embedder engine) request no_semantic
  unfolding materialization_raises query_bm25 sanitize_fts_query
  raises-fails leg e e' = rw (materialization_raises, e, e') refl

  same_rerank :
      (results : List (Result S))
      → rerank_stage f (without_embedder engine) request results
        ≡ rerank_stage f engine request results
  unfolding rerank_stage
  same_rerank [] = refl
  same_rerank (r ∷ results) = refl

  same_cut :
      (lambda_ : Option S) (limit : ℕ) (results : List (Result S))
      → cut_stage n engine lambda_ none limit results ≡ some (take limit results)
  same_cut none limit results = refl
  same_cut (some lambda_) limit results = refl

  rank-fails :
      (leg : Semantic S)
      → leg.vec ≡ []
      → leg.query_embedding ≡ none
      → leg.degraded ≡ true
      → rank f n engine request leg
        ≡ Option.map
            (as_degraded leg.degraded_reason)
            (rank f n (without_embedder engine) request no_semantic)
  unfolding rank rerank_stage
  rank-fails leg e e' e'' =
      let pool = materialized f (without_embedder engine) request no_semantic in
      elim (Bool-cases (materialization_raises f (without_embedder engine) request no_semantic)) [
        | inl broken ↦ rw (rank, raises-fails leg e e', broken) refl
        | inr whole ↦ elim (Option-cases (rerank_stage f engine request pool)) [
          | inl raises ↦
              rw
                (
                  rank,
                  raises-fails leg e e',
                  whole,
                  materialized-fails leg e e',
                  same_rerank pool,
                  raises,
                )
                refl
          | inr (out, reranked) ↦
              rw
                (
                  rank,
                  raises-fails leg e e',
                  whole,
                  materialized-fails leg e e',
                  same_rerank pool,
                  reranked,
                  e',
                  same_cut request.mmr_lambda request.limit out,
                  e'',
                )
                refl
        ]
      ]

-- When the semantic leg of a search fails or is late, the search serves what the same search would serve if it
-- had no embedder: the same results in the same order, the same pool and the same rows for the log. Only the
-- outcome is marked as degraded, with the reason.
pub retrieve_and_rank-fallback :
    {S : Type 0} (f : Floats S) (n : Numbers S) (engine : Engine S) (waits : Waits)
    (request : Request S)
    → (leg_of engine waits request).degraded ≡ true
    → retrieve_and_rank f n engine waits request
      ≡ Option.map
          (as_degraded (leg_of engine waits request).degraded_reason)
          (retrieve_and_rank f n (without_embedder engine) waits request)
unfolding retrieve_and_rank semantic
retrieve_and_rank-fallback f n engine waits request h =
    let limit = request.limit * overfetch_multiplier in
    let (e, e') = semantic-fails engine waits request.query request.use_hyde limit h in
    rank-fails f n engine request (leg_of engine waits request) e e' h
