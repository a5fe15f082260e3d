-- ===== src/Tests/Search.antt =====
-- The stages of a search on three memories, with whole numbers for the scores.
use mathlib.Core.List.{Perm}
use Prim.Native.Nat.{◌/◌}
use memstem.Prelude.{
  ℕ, ◌+◌, ◌*◌, ◌≤◌, ◌≡◌, refl, true, false, not, Option, some, none, List, [], ◌∷◌, ◌++◌, map,
  arith, elem, length, length-map, take, drop, ltb, ◌==◌, All, if◌then◌else◌,
}
use memstem.Prelude.Sorting.{sort_by, IsSorted}
use memstem.Prelude.Table.{Table, lookup, upsert, Distinct}
use memstem.Search.{
  Floats, FusedHit, Memory, Ranking, Result, at_least, rrf_combine, materialize, is_hidden,
  rescores, ranks_below, apply_rerank,
}
use memstem.Search.Fusion.{rank_in, first_hits, row_at, rrf_combine-ranks}
use memstem.Search.Pool.{visible, materialize-visible, materialize_hides}
use memstem.Search.Rerank.{apply_rerank-perm}

abbrev floats : Floats ℕ
floats = record {
  add = λ a b. a + b;
  mul = λ a b. a * b;
  divide = λ a n. a / n;
  less = ltb;
  equal = λ a b. a == b;
  is_zero = λ a. a == 0;
  one = 1;
  half = 1;
}

-- memory 2 is in both lists, and has two chunks
abbrev fused : Table (FusedHit ℕ)
fused = rrf_combine floats (1 ∷ 2 ∷ []) (2 ∷ 2 ∷ 3 ∷ []) 60 1000000 1000000

fused-order :
    map {B = ℕ × ℕ} (λ e. (e.0, e.1.score)) fused ≡ (2, 32522) ∷ (1, 16393) ∷ (3, 16129) ∷ []
unfolding rrf_combine upsert sort_by elem
fused-order = refl

at_least_total : (x y : ℕ) → at_least floats x y ≡ false → at_least floats y x ≡ true
at_least_total x y h = ground arith

at_least_trans :
    (x y z : ℕ)
    → at_least floats x y ≡ true
    → at_least floats y z ≡ true
    → at_least floats x z ≡ true
at_least_trans x y z h h' = ground arith

rrf_combine-ranks_example :
    (rows : Table (FusedHit ℕ)) × Perm fused rows
    × Distinct rows
    × ((m : ℕ)
        → lookup m rows
          ≡ row_at floats 60 1000000 1000000
              (rank_in m 1 (1 ∷ 2 ∷ []))
              (rank_in m 1 (first_hits [] (2 ∷ 2 ∷ 3 ∷ []))))
    × IsSorted (λ a b. at_least floats a.1.score b.1.score) fused
unfolding elem
rrf_combine-ranks_example =
    rrf_combine-ranks floats (1 ∷ 2 ∷ []) (2 ∷ 2 ∷ 3 ∷ []) 60 1000000 1000000 (refl, (refl, tt))
      at_least_total at_least_trans

-- memory 1 is deprecated, memory 3 has no file
abbrev memory : ℕ → Memory ℕ
memory m = record {
  id = m;
  kind = 0;
  importance = none;
  valid_to = none;
  deprecated_by = if m == 1 then some 2 else none;
  deleted_at = none;
}

abbrev read : ℕ → Option (Memory ℕ)
read m = if m == 3 then none else some (memory m)

abbrev ranking : Ranking ℕ
ranking = record {
  importance_weight = 2;
  type_bias = [];
  recency = none;
  include_expired = false;
  include_deprecated = false;
  include_deleted = false;
  now = 50;
}

materialize-visible_example : materialize floats read ranking 2 fused ≡ (
    if rescores floats ranking
    then take 2 (
        sort_by
          (λ a b. at_least floats a.score b.score)
          (take 10 (visible floats read ranking fused)))
    else take 2 (visible floats read ranking fused))
materialize-visible_example = materialize-visible floats read ranking 2 fused

materialize_hides_run :
    All (λ r. is_hidden floats ranking r.memory ≡ false) (materialize floats read ranking 2 fused)
    × (length (materialize floats read ranking 2 fused) ≤ 2)
materialize_hides_run = materialize_hides floats read ranking 2 fused

abbrev result : ℕ → ℕ → Result ℕ
result m score = record { memory = memory m; score = score; bm25_rank = none; vec_rank = none }

abbrev results : List (Result ℕ)
results = result 5 9 ∷ result 6 8 ∷ result 7 7 ∷ []

-- the reranker of a test: a memory's score is its id
abbrev by_id : List (Memory ℕ) → List ℕ
by_id ms = map (λ m. m.id) ms

below_total :
    (p q : ℕ × Result ℕ)
    → not (ranks_below floats p q) ≡ false
    → not (ranks_below floats q p) ≡ true
below_total (s, r) (s', r') h = ground arith

below_trans :
    (p q r : ℕ × Result ℕ)
    → not (ranks_below floats p q) ≡ true
    → not (ranks_below floats q r) ≡ true
    → not (ranks_below floats p r) ≡ true
below_trans (s, r) (s', r') (s'', r'') h h' = ground arith

apply_rerank-perm_run :
    (pairs : List (ℕ × Result ℕ)) × (scored : List (ℕ × Result ℕ)) × (apply_rerank floats by_id 2
        results
      ≡ some (map (λ p. p.1) pairs ++ drop 2 results))
    × IsSorted (λ p q. not (ranks_below floats p q)) pairs
    × Perm pairs scored
    × (map (λ p. p.1) scored ≡ take 2 results)
    × (map (λ p. p.0) scored ≡ by_id (map (λ r. r.memory) (take 2 results)))
apply_rerank-perm_run =
    apply_rerank-perm floats by_id 2 results (λ ms. length-map (λ m. m.id) ms) below_total
      below_trans
