-- ===== src/Search/Rerank.antt =====
-- src/memstem/core/search.py: what the rerank stage does to the order of the results.
use mathlib.Core.List.{Perm}
use memstem.Prelude.{
  ℕ, ◌≡◌, refl, ◌∙◌, ap, true, false, not, some, List, [], ◌∷◌, ◌++◌, map, arith, length,
  length-map, take, drop,
}
use memstem.Prelude.Sorting.{sort_by, sort_by-perm, sort_by-IsSorted, IsSorted}
use memstem.Search.{Floats, Memory, Result, zip_strict, ranks_below, apply_rerank}

module _ {S : Type 0} where
  pub zip_strict-pairs :
      (f : Floats S) (ss : List S) (rs : List (Result S))
      → length ss ≡ length rs
      → (pairs : List (S × Result S)) × (zip_strict f ss rs ≡ some pairs)
        × (map (λ p. p.0) pairs ≡ ss)
        × (map (λ p. p.1) pairs ≡ rs)
  unfolding zip_strict
  zip_strict-pairs f [] [] h = ([], refl, refl, refl)
  zip_strict-pairs f [] (r ∷ rs) h = absurd (omega (arith, h))
  zip_strict-pairs f (s ∷ ss) [] h = absurd (omega (arith, h))
  zip_strict-pairs f (s ∷ ss) (r ∷ rs) h =
      let (pairs, zip, left, right) = zip_strict-pairs f ss rs (omega (arith, h)) in
      ((s, r) ∷ pairs, rw zip refl, ap (λ t. s ∷ t) left, ap (λ t. r ∷ t) right)

-- Where the reranker gives a score for each of the first `top_n` results, the stage loses and adds no result:
-- the rest keeps its place behind them, and the first, each with its own rerank score, are permuted so that they
-- stand by falling rerank score and, for equal ones, by falling earlier score.
pub apply_rerank-perm :
    {S : Type 0} (f : Floats S) (score_candidates : List (Memory S) → List S) (top_n : ℕ)
    (results : List (Result S))
    → ((ms : List (Memory S)) → length (score_candidates ms) ≡ length ms)
    → ((p q : S × Result S) → not (ranks_below f p q) ≡ false → not (ranks_below f q p) ≡ true)
    → ((p q r : S × Result S)
        → not (ranks_below f p q) ≡ true
        → not (ranks_below f q r) ≡ true
        → not (ranks_below f p r) ≡ true)
    → (pairs : List (S × Result S)) × (scored : List (S × Result S)) × (apply_rerank f
          score_candidates top_n results
        ≡ some (map (λ p. p.1) pairs ++ drop top_n results))
      × IsSorted (λ p q. not (ranks_below f p q)) pairs
      × Perm pairs scored
      × (map (λ p. p.1) scored ≡ take top_n results)
      × (map (λ p. p.0) scored ≡ score_candidates (map (λ r. r.memory) (take top_n results)))
unfolding apply_rerank
apply_rerank-perm f score_candidates top_n results sized total trans =
    let head = take top_n results in
    let (pairs, zip, left, right) =
      zip_strict-pairs f (score_candidates (map (λ r. r.memory) head)) head
        (sized (map (λ r. r.memory) head) ∙ length-map (λ r. r.memory) head) in
    (
      sort_by (λ p q. not (ranks_below f p q)) pairs,
      pairs,
      rw (apply_rerank, zip) refl,
      sort_by-IsSorted (λ p q. not (ranks_below f p q)) total trans pairs,
      sort_by-perm (λ p q. not (ranks_below f p q)) pairs,
      right,
      left,
    )
