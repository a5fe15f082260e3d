-- ===== src/Search/Retrieve/Outcomes.antt =====
-- src/memstem/core/search.py: what a whole search serves, for every answer of the parts it calls.
use mathlib.Core.List.{Perm}
use mathlib.Core.List.Perm
use memstem.Prelude.{
  ℕ, zero, suc, ◌*◌, ◌≤◌, ◌≡◌, refl, Bool, true, false, ◌||◌, Option, none, some, List, [], ◌∷◌,
  ◌++◌, map, arith, length, take, elem, min, ◌==◌, All, All-take, ap, is_some, get_elem?,
  if◌then◌else◌, ◌&&◌, Bool-cases, inl, inr,
}
use memstem.Prelude.Counting.{NoRepeat, NoRepeat-take}
use memstem.Search.Fusion.{rrf_combine-NoRepeat}
use memstem.Prelude.Entries.{keys}
use memstem.Prelude.Sorting.{sort_by, sort_by-perm}
use memstem.Prelude.Table.{Table}
use memstem.Prelude.Perms.{length-perm, perm-NoRepeat, perm-All_at}
use memstem.Mmr.{Numbers}
use memstem.Search.{
  pool_target, Floats, FusedHit, Memory, Ranking, Result, at_least, is_hidden, rescores,
  overfetch_multiplier, consider, add_result, pool_raises, materialize, rrf_combine,
}
use memstem.Search.Pool.{visible, prepend, materialize-visible, materialize_hides}
use memstem.Search.Retrieve.{
  Engine, Request, Waits, Run, leg_of, materialized, materialize_limit, serve, rank,
  retrieve_and_rank, query_bm25, Semantic, materialization_raises,
}
use memstem.Search.Retrieve.Stages.{IsTameCut, cut_stage-perm, rerank_stage-perm}

map-take {ℓ κ} :
    {A : Type ℓ} {B : Type κ} (f : A → B) (n : ℕ) (xs : List A)
    → map f (take n xs) ≡ take n (map f xs)
map-take f zero xs = refl
map-take f (suc n) [] = refl
map-take f (suc n) (x ∷ xs) = ap (λ t. f x ∷ t) (map-take f n xs)

take-append {ℓ} : {A : Type ℓ} (xs ys : List A) → take (length xs) (xs ++ ys) ≡ xs
take-append [] ys = refl
take-append (x ∷ xs) ys = ap (λ t. x ∷ t) (take-append xs ys)

module _ {S : Type 0} (f : Floats S) (read : ℕ → Option (Memory S)) (ranking : Ranking S)
    (keyed : (m : ℕ) (memory : Memory S) → read m ≡ some memory → memory.id ≡ m) where
  -- what a hit adds is the memory of its key
  elem-prepend :
      (k m : ℕ) (hit : FusedHit S) (found : Option (Memory S)) (rs : List (Result S))
      → read m ≡ found
      → elem k
          (map (λ r. r.memory.id) (prepend f read ranking (consider f read ranking (m, hit)) rs))
        ≡ true
      → (m == k || elem k (map (λ r. r.memory.id) rs)) ≡ true
  unfolding consider elem
  elem-prepend k m hit none rs at h = ground (arith, rw (consider, at) at h)
  elem-prepend k m hit (some memory) rs at h = elim (Bool-cases (is_hidden f ranking memory)) [
    | inl e ↦ ground (arith, rw (consider, at, e) at h)
    | inr e ↦ ground (arith, rw (consider, at, e) at h, keyed m memory at)
  ]

  elem-visible :
      (k : ℕ) (hits : Table (FusedHit S))
      → elem k (keys hits) ≡ false
      → elem k (map (λ r. r.memory.id) (visible f read ranking hits)) ≡ false
  unfolding visible elem
  elem-visible k [] h = refl
  elem-visible k ((m, hit) ∷ hits) h =
      ground (
        arith,
        elem-visible k hits,
        elem-prepend k m hit (read m) (visible f read ranking hits) refl,
      )

  prepend-NoRepeat :
      (m : ℕ) (hit : FusedHit S) (found : Option (Memory S)) (rs : List (Result S))
      → read m ≡ found
      → elem m (map (λ r. r.memory.id) rs) ≡ false
      → NoRepeat (map (λ r. r.memory.id) rs)
      → NoRepeat
          (map (λ r. r.memory.id) (prepend f read ranking (consider f read ranking (m, hit)) rs))
  unfolding consider
  prepend-NoRepeat m hit none rs at absent once = rw (consider, at) once
  prepend-NoRepeat m hit (some memory) rs at absent once =
      elim (Bool-cases (is_hidden f ranking memory)) [
        | inl e ↦ rw (consider, at, e) once
        | inr e ↦ rw (consider, at, e, keyed m memory at) (absent, once)
      ]

  visible-NoRepeat :
      (hits : Table (FusedHit S))
      → NoRepeat (keys hits)
      → NoRepeat (map (λ r. r.memory.id) (visible f read ranking hits))
  unfolding visible
  visible-NoRepeat [] once = tt
  visible-NoRepeat ((m, hit) ∷ hits) once =
      prepend-NoRepeat m hit (read m) (visible f read ranking hits) refl
        (elem-visible m hits once.0) (visible-NoRepeat hits once.1)

  ids_take-NoRepeat :
      (limit : ℕ) (rs : List (Result S))
      → NoRepeat (map (λ r. r.memory.id) rs)
      → NoRepeat (map (λ r. r.memory.id) (take limit rs))
  ids_take-NoRepeat limit rs once =
      rw map-take (NoRepeat-take limit (map (λ r. r.memory.id) rs) once)

  materialize-NoRepeat :
      (limit : ℕ) (hits : Table (FusedHit S))
      → NoRepeat (keys hits)
      → NoRepeat (map (λ r. r.memory.id) (materialize f read ranking limit hits))
  materialize-NoRepeat limit hits once =
      let all = visible f read ranking hits in
      let order = λ (a b : Result S). at_least f a.score b.score in
      rw (materialize-visible f read ranking limit hits) (elim (Bool-cases (rescores f ranking)) [
        | inl e ↦ rw e (
            ids_take-NoRepeat limit (sort_by order (take (limit * 5) all)) (
              perm-NoRepeat
                (Perm.map (λ r. r.memory.id)
                  (Perm.symm (sort_by-perm order (take (limit * 5) all))))
                (ids_take-NoRepeat (limit * 5) all (visible-NoRepeat hits once))))
        | inr e ↦ rw e (ids_take-NoRepeat limit all (visible-NoRepeat hits once))
      ])

pool-reads :
    {S : Type 0} (f : Floats S) (raises : ℕ → Bool) (read : ℕ → Option (Memory S))
    (ranking : Ranking S) (target : ℕ) (hits : Table (FusedHit S)) (pool : List (Result S))
    → ((m : ℕ) → raises m ≡ false)
    → pool_raises f raises read ranking target hits pool ≡ false
unfolding pool_raises
pool-reads f raises read ranking target [] pool none_raises = refl
pool-reads f raises read ranking target ((m, hit) ∷ hits) pool none_raises = ground (
  arith,
  none_raises m,
  pool-reads f raises read ranking target hits
      (add_result f (consider f read ranking (m, hit)) pool) none_raises,
)

reads_raise :
    {S : Type 0} (f : Floats S) (engine : Engine S) (request : Request S)
    → ((m : ℕ) → engine.read_raises m ≡ false)
    → (leg : Semantic S) → materialization_raises f engine request leg ≡ false
unfolding materialization_raises
reads_raise f engine request reads leg =
    pool-reads f engine.read_raises engine.read request.ranking
      (pool_target f request.ranking (materialize_limit request (is_some leg.query_embedding)))
      (rrf_combine f (query_bm25 engine request.query (request.limit * overfetch_multiplier))
        leg.vec request.rrf_k request.bm25_weight request.vector_weight)
      [] reads

pub retrieve_and_rank-perm :
    {S : Type 0} (f : Floats S) (n : Numbers S) (engine : Engine S) (waits : Waits)
    (request : Request S)
    → IsTameCut n engine request.mmr_lambda (leg_of engine waits request).query_embedding
    → ((m : ℕ) → engine.read_raises m ≡ false)
    → ((q : List ℕ) (ms : List (Memory S)) → length (engine.score_candidates q ms) ≡ length ms)
    → (run : Run S) × (left : List (Result S)) × (retrieve_and_rank f n engine waits request
        ≡ some run)
      × Perm
          (run.outcome.results ++ left)
          (materialized f engine request (leg_of engine waits request))
      × (length run.outcome.results
          ≡ min request.limit
              (length (materialized f engine request (leg_of engine waits request))))
      × Perm run.pool_out (materialized f engine request (leg_of engine waits request))
      × (run.logged ≡ (
          if is_some request.log_client && is_some (get_elem? run.outcome.results 0)
          then some run.outcome.results
          else none))
unfolding retrieve_and_rank rank
retrieve_and_rank-perm f n engine waits request tame reads sized =
    let leg = leg_of engine waits request in
    let (pool, reranked, same) =
      rerank_stage-perm f n engine sized request (materialized f engine request leg) in
    let (out, left, cut, perm, size) =
      cut_stage-perm f n engine sized request.mmr_lambda leg.query_embedding request.limit pool
        tame in
    (
      serve request leg pool out,
      left,
      rw (retrieve_and_rank, rank, reads_raise f engine request reads leg, reranked, cut) refl,
      Perm.trans perm same,
      omega (arith, size, length-perm same),
      same,
      refl,
    )

-- Where the vault's files are read without another exception than that of a missing file, the reranker gives a
-- score for each candidate, and no similarity of stored vectors, nor a score that the diversification makes of
-- them, is minus infinity or no number, and the file that a key finds holds the memory of that key, a search
-- serves no memory that it hides, none of them twice, and no more than `limit`, and what it hands to the query log
-- is what it serves, or nothing.
pub retrieve_and_rank-visible :
    {S : Type 0} (f : Floats S) (n : Numbers S) (engine : Engine S) (waits : Waits)
    (request : Request S)
    → IsTameCut n engine request.mmr_lambda (leg_of engine waits request).query_embedding
    → ((m : ℕ) → engine.read_raises m ≡ false)
    → ((q : List ℕ) (ms : List (Memory S)) → length (engine.score_candidates q ms) ≡ length ms)
    → ((m : ℕ) (memory : Memory S) → engine.read m ≡ some memory → memory.id ≡ m)
    → (run : Run S) × (retrieve_and_rank f n engine waits request ≡ some run)
      × All (λ r. is_hidden f request.ranking r.memory ≡ false) run.outcome.results
      × NoRepeat (map (λ r. r.memory.id) run.outcome.results)
      × (length run.outcome.results ≤ request.limit)
      × (run.logged ≡ (
          if is_some request.log_client && is_some (get_elem? run.outcome.results 0)
          then some run.outcome.results
          else none))
unfolding materialized
retrieve_and_rank-visible {S = S} f n engine waits request tame reads sized keyed =
    let leg = leg_of engine waits request in
    let (run, left, served, perm, size, _, logged) =
      retrieve_and_rank-perm f n engine waits request tame reads sized in
    let served_of = take-append run.outcome.results left in
    let bm25 = query_bm25 engine request.query (request.limit * overfetch_multiplier) in
    let fused =
      rrf_combine f bm25 leg.vec request.rrf_k request.bm25_weight request.vector_weight in
    let room = materialize_limit request (is_some leg.query_embedding) in
    let back : Perm (materialize f engine.read request.ranking room fused)
        (run.outcome.results ++ left) =
      Perm.symm perm in
    let seen : All (λ r. is_hidden f request.ranking r.memory ≡ false)
        (run.outcome.results ++ left) =
      perm-All_at (λ (r : Result S). is_hidden f request.ranking r.memory) false back
        (materialize_hides f engine.read request.ranking room fused).0 in
    let once : NoRepeat (map (λ r. r.memory.id) (run.outcome.results ++ left)) =
      perm-NoRepeat (Perm.map (λ r. r.memory.id) back) (
        materialize-NoRepeat f engine.read request.ranking keyed room fused (
          rrf_combine-NoRepeat f bm25 leg.vec request.rrf_k request.bm25_weight
            request.vector_weight)) in
    (
      run,
      served,
      rw served_of at (
          All-take (λ (r : Result S). is_hidden f request.ranking r.memory ≡ false)
            (length run.outcome.results) (run.outcome.results ++ left) seen),
      rw served_of at (
          ids_take-NoRepeat f engine.read request.ranking keyed (length run.outcome.results)
            (run.outcome.results ++ left) once),
      omega (arith, size),
      logged,
    )
