-- ===== src/Mmr.antt =====
-- src/memstem/core/mmr.py: the greedy choice of diverse results. A candidate is a number, the identity of the
-- object; the operations on floats are given, the sum of products (`_dot`) among them.
pub mod Greedy
pub mod Selection
use mathlib.Core.Option
use memstem.Prelude.{
  ℕ, zero, suc, ◌-◌, Bool, true, false, not, ◌&&◌, ◌||◌, Option, none, some, List, [], ◌∷◌, ◌++◌,
  length, take, filter, elem, ◌==◌, if◌then◌else◌,
}

pub record Numbers (S : Type 0) : Type 0 where
  pub sub : S → S → S
  pub mul : S → S → S
  pub div : S → S → S
  pub dot : List S → List S → S
  pub sqrt : S → S
  pub less : S → S → Bool
  pub is_zero : S → Bool
  pub nought : S
  pub one : S
  -- float("-inf")
  pub bottom : S

module _ {S : Type 0} (f : Numbers S) where
  abbrev pub is_degenerate : List S → List S → Bool
  is_degenerate [] b = true
  is_degenerate (x ∷ a) [] = true
  is_degenerate (x ∷ a) (y ∷ b) = not (length a == length b)

  unfoldable pub cosine_similarity : List S → List S → S
  cosine_similarity a b =
      let na = f.sqrt (f.dot a a) in
      let nb = f.sqrt (f.dot b b) in
      if is_degenerate a b
      then f.nought
      else if f.is_zero na || f.is_zero nb
      then f.nought
      else f.div (f.dot a b) (f.mul na nb)

  -- max(0.0, min(1.0, lambda_))
  unfoldable pub clamp : S → S
  clamp lambda_ =
      let low = if f.less lambda_ f.one then lambda_ else f.one in
      if f.less f.nought low then low else f.nought

  -- the similarity of two candidates, by their stored norms
  unfoldable pub pair_sim : (ℕ → List S) → ℕ → ℕ → S
  pair_sim embeddings a b =
      let na = f.sqrt (f.dot (embeddings a) (embeddings a)) in
      let nb = f.sqrt (f.dot (embeddings b) (embeddings b)) in
      if f.is_zero na || f.is_zero nb
      then f.nought
      else f.div (f.dot (embeddings a) (embeddings b)) (f.mul na nb)

  -- the scan for the best of the remaining candidates: none where no score is above -inf
  unfoldable pub best_of : (ℕ → S) → List ℕ → Option ℕ → S → Option ℕ
  best_of score [] best best_score = best
  best_of score (c ∷ remaining) best best_score =
      let better = best_of score remaining (some c) (score c) in
      let same = best_of score remaining best best_score in
      if f.less best_score (score c) then better else same

  abbrev pub is_nil : List ℕ → Bool
  is_nil [] = true
  is_nil (p ∷ picked) = false

  abbrev pub mmr_score : S → (ℕ → S) → List ℕ → (ℕ → S) → ℕ → S
  mmr_score lambda_ query_sim picked redundancy c =
      let penalty = if is_nil picked then f.nought else redundancy c in
      f.sub (f.mul lambda_ (query_sim c)) (f.mul (f.sub f.one lambda_) penalty)

  -- `list.remove`
  unfoldable pub remove_first : ℕ → List ℕ → List ℕ
  remove_first k [] = []
  remove_first k (x ∷ xs) = let rest = remove_first k xs in if x == k then xs else x ∷ rest

  -- the update of `redundancy` by the newest pick
  abbrev pub raise_redundancy : (ℕ → ℕ → S) → ℕ → List ℕ → (ℕ → S) → ℕ → S
  raise_redundancy sim best remaining redundancy c =
      if elem c remaining && f.less (redundancy c) (sim c best) then sim c best else redundancy c

  -- the loop, on the room that is left: none where the assertion fails
  unfoldable pub select :
      S → (ℕ → S) → (ℕ → ℕ → S) → ℕ → List ℕ → List ℕ → (ℕ → S) → Option (List ℕ)
  unfolding best_of remove_first elem
  select lambda_ query_sim sim zero picked remaining redundancy = some picked
  select lambda_ query_sim sim (suc room) picked [] redundancy = some picked
  select lambda_ query_sim sim (suc room) picked (r ∷ remaining) redundancy =
      elim (best_of (mmr_score lambda_ query_sim picked redundancy) (r ∷ remaining) none f.bottom) [
        | none ↦ none
        | some best ↦
            let left = remove_first best (r ∷ remaining) in
            select lambda_ query_sim sim room (picked ++ best ∷ []) left
              (raise_redundancy sim best left redundancy)
      ]

  abbrev pub has_embedding : (ℕ → Option (List S)) → ℕ → ℕ → Bool
  has_embedding embedding_lookup dimensions c = elim (embedding_lookup c) [
    | none ↦ false
    | some emb ↦ length emb == dimensions
  ]

  abbrev pub embedding_of : (ℕ → Option (List S)) → ℕ → List S
  embedding_of embedding_lookup c = elim (embedding_lookup c) [ none ↦ [] | some emb ↦ emb ]

  -- what follows the two early returns, for a query that has an embedding
  abbrev pub rerank_by :
      List ℕ → List S → (ℕ → Option (List S)) → S → ℕ → List ℕ → List ℕ → Option (List ℕ)
  rerank_by candidates query_embedding embedding_lookup lambda_ k [] without_emb =
      some (take k candidates)
  rerank_by candidates query_embedding embedding_lookup lambda_ k (c ∷ with_emb) without_emb =
      let embeddings = embedding_of embedding_lookup in
      elim (select (clamp lambda_) (λ x. cosine_similarity query_embedding (embeddings x))
        (pair_sim embeddings) k [] (c ∷ with_emb) (λ x. f.bottom)) [
          | none ↦ none
          | some picked ↦ some (take k (picked ++ without_emb))
        ]

  unfoldable pub mmr_rerank : List ℕ → List S → (ℕ → Option (List S)) → S → ℕ → Option (List ℕ)
  unfolding select clamp cosine_similarity pair_sim filter
  mmr_rerank [] query_embedding embedding_lookup lambda_ k = some []
  mmr_rerank (c ∷ candidates) query_embedding embedding_lookup lambda_ zero = some []
  mmr_rerank (c ∷ candidates) [] embedding_lookup lambda_ (suc k) =
      some (take (suc k) (c ∷ candidates))
  mmr_rerank (c ∷ candidates) (q ∷ query) embedding_lookup lambda_ (suc k) =
      let has = has_embedding embedding_lookup (suc (length query)) in
      rerank_by (c ∷ candidates) (q ∷ query) embedding_lookup lambda_ (suc k)
        (filter has (c ∷ candidates)) (filter (λ x. not (has x)) (c ∷ candidates))
