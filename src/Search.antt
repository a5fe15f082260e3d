-- ===== src/Search.antt =====
-- src/memstem/core/search.py: the fusion of the two hit lists, the pool of results read from the vault, and
-- the rerank stage. The scores are floats, whose operations are given.
pub mod Fusion
pub mod Leg
pub mod Limits
pub mod Pool
pub mod Recency
pub mod Rerank
pub mod Retrieve
pub mod Status
use memstem.Prelude.{
  ℕ, suc, ◌+◌, ◌*◌, Bool, true, false, not, ◌&&◌, ◌||◌, Option, none, some, List, [], ◌∷◌, ◌++◌,
  map, length, take, drop, elem, leb, max, is_some, if◌then◌else◌,
}
use memstem.Prelude.Sorting.{sort_by}
use memstem.Prelude.Table.{Table, lookup, upsert}

-- Python's operations on floats, with the constants that the stages use
pub record Floats (S : Type 0) : Type 0 where
  pub add : S → S → S
  pub mul : S → S → S
  pub divide : S → ℕ → S
  pub less : S → S → Bool
  pub equal : S → S → Bool
  pub is_zero : S → Bool
  pub one : S
  pub half : S

-- the key of its row is its `memory_id`
pub record FusedHit (S : Type 0) : Type 0 where
  pub score : S
  pub bm25_rank : Option ℕ
  pub vec_rank : Option ℕ

-- the frontmatter that ranking reads
pub record Memory (S : Type 0) : Type 0 where
  pub id : ℕ
  pub kind : ℕ
  pub importance : Option S
  pub valid_to : Option ℕ
  pub deprecated_by : Option ℕ
  pub deleted_at : Option ℕ

-- `type_bias` is empty for None; `recency` is the multiplier of a policy
pub record Ranking (S : Type 0) : Type 0 where
  pub importance_weight : S
  pub type_bias : Table S
  pub recency : Option (Memory S → S)
  pub include_expired : Bool
  pub include_deprecated : Bool
  pub include_deleted : Bool
  pub now : ℕ

pub record Result (S : Type 0) : Type 0 where
  pub memory : Memory S
  pub score : S
  pub bm25_rank : Option ℕ
  pub vec_rank : Option ℕ

-- OVERFETCH_MULTIPLIER
abbrev pub overfetch_multiplier : ℕ
overfetch_multiplier = 5

module _ {S : Type 0} (f : Floats S) where
  abbrev pub bm25_hit : S → ℕ → FusedHit S
  bm25_hit contribution rank = record {
    score = contribution;
    bm25_rank = some rank;
    vec_rank = none;
  }

  abbrev pub add_bm25 : S → ℕ → FusedHit S → FusedHit S
  add_bm25 contribution rank existing = record existing {
    score = f.add existing.score contribution;
    bm25_rank = some rank;
  }

  unfoldable pub fuse_bm25 : ℕ → S → ℕ → List ℕ → Table (FusedHit S) → Table (FusedHit S)
  fuse_bm25 k weight rank [] fused = fused
  fuse_bm25 k weight rank (m ∷ hits) fused =
      let contribution = f.divide weight (k + rank) in
      fuse_bm25 k weight (suc rank) hits
        (upsert m (bm25_hit contribution rank) (add_bm25 contribution rank) fused)

  abbrev pub vec_only_hit : S → ℕ → FusedHit S
  vec_only_hit contribution rank = record {
    score = contribution;
    bm25_rank = none;
    vec_rank = some rank;
  }

  abbrev pub add_vec : S → ℕ → FusedHit S → FusedHit S
  add_vec contribution rank existing = record existing {
    score = f.add existing.score contribution;
    vec_rank = some rank;
  }

  -- `vec_rank` is the rank of the last hit that counted
  unfoldable pub fuse_vec : ℕ → S → List ℕ → ℕ → List ℕ → Table (FusedHit S) → Table (FusedHit S)
  unfolding elem
  fuse_vec k weight seen vec_rank [] fused = fused
  fuse_vec k weight seen vec_rank (m ∷ hits) fused =
      let rank = suc vec_rank in
      let contribution = f.divide weight (k + rank) in
      let skip = fuse_vec k weight seen vec_rank hits fused in
      let count =
        fuse_vec k weight (m ∷ seen) rank hits
          (upsert m (vec_only_hit contribution rank) (add_vec contribution rank) fused) in
      if elem m seen then skip else count

  -- `sorted(…, reverse=True)`: equal scores keep their order
  abbrev pub at_least : S → S → Bool
  at_least a b = not (f.less a b)

  unfoldable pub rrf_combine : List ℕ → List ℕ → ℕ → S → S → Table (FusedHit S)
  unfolding fuse_bm25 fuse_vec
  rrf_combine bm25_hits vec_hits k bm25_weight vector_weight =
      sort_by (λ a b. at_least a.1.score b.1.score)
        (fuse_vec k vector_weight [] 0 vec_hits (fuse_bm25 k bm25_weight 1 bm25_hits []))

  unfoldable pub apply_importance : S → Memory S → S → S
  apply_importance rrf_score memory importance_weight =
      if f.is_zero importance_weight
      then rrf_score
      else f.mul rrf_score (
          f.add f.one
            (f.mul importance_weight (elim memory.importance [ none ↦ f.half | some i ↦ i ])))

  unfoldable pub apply_type_bias : S → Memory S → Table S → S
  apply_type_bias score memory [] = score
  apply_type_bias score memory (b ∷ type_bias) =
      f.mul score
        (elim (lookup memory.kind (b ∷ type_bias)) [ none ↦ f.one | some weight ↦ weight ])

  abbrev pub is_expired : Memory S → ℕ → Bool
  is_expired memory now = elim memory.valid_to [ none ↦ false | some at ↦ leb at now ]

  -- the three tests that skip a hit
  unfoldable pub is_hidden : Ranking S → Memory S → Bool
  is_hidden ranking memory =
      (not ranking.include_expired && is_expired memory ranking.now)
      || (not ranking.include_deprecated && is_some memory.deprecated_by)
      || (not ranking.include_deleted && is_some memory.deleted_at)

  unfoldable pub final_score : Ranking S → S → Memory S → S
  unfolding apply_importance apply_type_bias
  final_score ranking score memory =
      let biased =
        apply_type_bias (apply_importance score memory ranking.importance_weight) memory
          ranking.type_bias in
      elim ranking.recency [ none ↦ biased | some multiplier ↦ f.mul biased (multiplier memory) ]

  -- one turn of the loop: the result that a hit adds to the pool
  unfoldable pub consider : (ℕ → Option (Memory S)) → Ranking S → ℕ × FusedHit S → Option (Result S)
  unfolding is_hidden final_score
  consider read ranking (m, hit) = elim (read m) [
    | none ↦ none
    | some memory ↦
        if is_hidden ranking memory
        then none
        else some (record {
          memory = memory;
          score = final_score ranking hit.score memory;
          bm25_rank = hit.bm25_rank;
          vec_rank = hit.vec_rank;
        })
  ]

  abbrev pub add_result : Option (Result S) → List (Result S) → List (Result S)
  add_result none pool = pool
  add_result (some r) pool = pool ++ r ∷ []

  unfoldable pub fill_pool :
      (ℕ → Option (Memory S))
      → Ranking S
      → ℕ
      → Table (FusedHit S)
      → List (Result S)
      → List (Result S)
  unfolding consider
  fill_pool read ranking target [] pool = pool
  fill_pool read ranking target (hit ∷ hits) pool =
      let rest = fill_pool read ranking target hits (add_result (consider read ranking hit) pool) in
      if leb target (length pool) then pool else rest

  -- whether `vault.read` raises for a hit that the loop comes to; `raises` are the hits for which it does
  unfoldable pub pool_raises :
      (ℕ → Bool)
      → (ℕ → Option (Memory S))
      → Ranking S
      → ℕ
      → Table (FusedHit S)
      → List (Result S)
      → Bool
  unfolding consider
  pool_raises raises read ranking target [] pool = false
  pool_raises raises read ranking target (hit ∷ hits) pool =
      let rest =
        pool_raises raises read ranking target hits (add_result (consider read ranking hit) pool) in
      not (leb target (length pool)) && (raises hit.0 || rest)

  abbrev pub is_empty : Table S → Bool
  is_empty [] = true
  is_empty (b ∷ type_bias) = false

  unfoldable pub rescores : Ranking S → Bool
  rescores ranking =
      not (f.is_zero ranking.importance_weight)
      || not (is_empty ranking.type_bias)
      || is_some ranking.recency

  abbrev pub pool_target : Ranking S → ℕ → ℕ
  pool_target ranking limit =
      if rescores ranking then max (limit * overfetch_multiplier) limit else limit

  -- `read` is `get_path` followed by `vault.read`: none where either finds nothing. This is the result where no
  -- read raises (`pool_raises`).
  unfoldable pub materialize :
      (ℕ → Option (Memory S)) → Ranking S → ℕ → Table (FusedHit S) → List (Result S)
  unfolding fill_pool rescores
  materialize read ranking limit hits =
      let rescore = rescores ranking in
      let target = if rescore then max (limit * overfetch_multiplier) limit else limit in
      let pool = fill_pool read ranking target hits [] in
      take limit (if rescore then sort_by (λ a b. at_least a.score b.score) pool else pool)

  -- `zip(…, strict=True)`: none where it raises
  unfoldable pub zip_strict : List S → List (Result S) → Option (List (S × Result S))
  zip_strict [] [] = some []
  zip_strict [] (r ∷ rs) = none
  zip_strict (s ∷ ss) [] = none
  zip_strict (s ∷ ss) (r ∷ rs) = elim (zip_strict ss rs) [
    | none ↦ none
    | some pairs ↦ some ((s, r) ∷ pairs)
  ]

  -- the order of the pairs `(rerank score, score)`
  abbrev pub ranks_below : S × Result S → S × Result S → Bool
  ranks_below (s, r) (s', r') = if f.equal s s' then f.less r.score r'.score else f.less s s'

  -- `score_candidates` is the reranker: none where the lengths differ
  unfoldable pub apply_rerank :
      (List (Memory S) → List S) → ℕ → List (Result S) → Option (List (Result S))
  unfolding zip_strict
  apply_rerank score_candidates top_n results =
      let head = take top_n results in
      elim (zip_strict (score_candidates (map (λ r. r.memory) head)) head) [
        | none ↦ none
        | some pairs ↦
            some
              (map (λ p. p.1) (sort_by (λ p q. not (ranks_below p q)) pairs) ++ drop top_n results)
      ]
