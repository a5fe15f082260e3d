-- ===== src/Search/Fusion.antt =====
-- src/memstem/core/search.py: what the reciprocal rank fusion of two hit lists is, memory by memory.
use mathlib.Core.Option
use mathlib.Core.List.{Perm}
use mathlib.Core.List.Perm
use memstem.Prelude.{
  ℕ, suc, ◌+◌, ◌≡◌, refl, ◌∙◌, ap, true, false, Option, none, some, List, [], ◌∷◌, arith, elem,
  ◌==◌, ==_iff, if◌then◌else◌, Bool-cases, inl, inr,
}
use memstem.Prelude.Counting.{NoRepeat, Distinct-NoRepeat}
use memstem.Prelude.Entries.{keys}
use memstem.Prelude.Perms.{perm-NoRepeat}
use memstem.Prelude.Sorting.{sort_by-perm, sort_by-IsSorted, IsSorted}
use memstem.Prelude.Table.{Table, lookup, upsert, lookup-upsert, Distinct, upsert-Distinct}
use memstem.Search.{
  Floats, FusedHit, bm25_hit, add_bm25, vec_only_hit, add_vec, fuse_bm25, fuse_vec, rrf_combine,
  at_least,
}

-- the place of a memory in a list of hits whose first place is `rank`
unfoldable pub rank_in : ℕ → ℕ → List ℕ → Option ℕ
rank_in m rank [] = none
rank_in m rank (h ∷ hits) = if h == m then some rank else rank_in m (suc rank) hits

-- the hits of chunks with one for each memory, the first, and none for the memories seen before
unfoldable pub first_hits : List ℕ → List ℕ → List ℕ
unfolding elem
first_hits seen [] = []
first_hits seen (h ∷ hits) =
    let skip = first_hits seen hits in
    let count = h ∷ first_hits (h ∷ seen) hits in if elem h seen then skip else count

rank_in-absent : (m rank : ℕ) (hits : List ℕ) → elem m hits ≡ false → rank_in m rank hits ≡ none
unfolding rank_in elem
rank_in-absent m rank [] h = refl
rank_in-absent m rank (x ∷ hits) h = ground (arith, rank_in-absent m (suc rank) hits)

rank_in-seen :
    (m rank : ℕ) (seen hits : List ℕ)
    → elem m seen ≡ true
    → rank_in m rank (first_hits seen hits) ≡ none
unfolding rank_in elem first_hits
rank_in-seen m rank seen [] h = refl
rank_in-seen m rank seen (x ∷ hits) h = elim (Bool-cases (elem x seen)) [
  | inl e ↦ rw e (rank_in-seen m rank seen hits h)
  | inr e ↦ ground (arith, e, ==_iff x m, rank_in-seen m (suc rank) (x ∷ seen) hits)
]

module _ {S : Type 0} (f : Floats S) (k : ℕ) (bm25_weight vector_weight : S) where
  -- what a hit at a place of the keyword list makes of the row that is there
  abbrev pub with_bm25 : Option ℕ → Option (FusedHit S) → Option (FusedHit S)
  with_bm25 none row = row
  with_bm25 (some i) row =
      let contribution = f.divide bm25_weight (k + i) in
      some (Option.get_or (Option.map (add_bm25 f contribution i) row) (bm25_hit f contribution i))

  abbrev pub with_vec : Option ℕ → Option (FusedHit S) → Option (FusedHit S)
  with_vec none row = row
  with_vec (some j) row =
      let contribution = f.divide vector_weight (k + j) in
      some
        (Option.get_or (Option.map (add_vec f contribution j) row) (vec_only_hit f contribution j))

  lookup-fuse_bm25 :
      (m rank : ℕ) (hits : List ℕ) (fused : Table (FusedHit S))
      → NoRepeat hits
      → lookup m (fuse_bm25 f k bm25_weight rank hits fused)
        ≡ with_bm25 (rank_in m rank hits) (lookup m fused)
  unfolding fuse_bm25 rank_in
  lookup-fuse_bm25 m rank [] fused once = refl
  lookup-fuse_bm25 m rank (h ∷ hits) fused once =
      let contribution = f.divide bm25_weight (k + rank) in
      let ih =
        lookup-fuse_bm25 m (suc rank) hits
          (upsert h (bm25_hit f contribution rank) (add_bm25 f contribution rank) fused) once.1 in
      let row =
        lookup-upsert h m (bm25_hit f contribution rank) (add_bm25 f contribution rank) fused in
      elim (Bool-cases (h == m)) [
        | inl e ↦ ground (arith, ih, row, ==_iff h m, rank_in-absent h (suc rank) hits once.0)
        | inr e ↦ ground (arith, ih, row)
      ]

  lookup-fuse_vec :
      (m rank : ℕ) (seen hits : List ℕ) (fused : Table (FusedHit S))
      → lookup m (fuse_vec f k vector_weight seen rank hits fused)
        ≡ with_vec (rank_in m (suc rank) (first_hits seen hits)) (lookup m fused)
  unfolding fuse_vec rank_in first_hits elem
  lookup-fuse_vec m rank seen [] fused = refl
  lookup-fuse_vec m rank seen (h ∷ hits) fused =
      let contribution = f.divide vector_weight (k + suc rank) in
      let ih = lookup-fuse_vec m (suc rank) (h ∷ seen) hits (
        upsert h (vec_only_hit f contribution (suc rank)) (add_vec f contribution (suc rank))
          fused) in
      let row =
        lookup-upsert h m (vec_only_hit f contribution (suc rank))
          (add_vec f contribution (suc rank)) fused in
      elim (Bool-cases (elem h seen)) [
        | inl e ↦ rw e (lookup-fuse_vec m rank seen hits fused)
        | inr e ↦ rw e (elim (Bool-cases (h == m)) [
          | inl here ↦
              ground
                (arith, ih, row, here, ==_iff h m, rank_in-seen h (suc (suc rank)) (h ∷ seen) hits)
          | inr other ↦ ground (arith, ih, row, other)
        ])
      ]

  fuse_bm25-Distinct :
      (rank : ℕ) (hits : List ℕ) (fused : Table (FusedHit S))
      → Distinct fused
      → Distinct (fuse_bm25 f k bm25_weight rank hits fused)
  unfolding fuse_bm25
  fuse_bm25-Distinct rank [] fused d = d
  fuse_bm25-Distinct rank (h ∷ hits) fused d =
      fuse_bm25-Distinct (suc rank) hits _ (upsert-Distinct h _ _ fused d)

  fuse_vec-Distinct :
      (rank : ℕ) (seen hits : List ℕ) (fused : Table (FusedHit S))
      → Distinct fused
      → Distinct (fuse_vec f k vector_weight seen rank hits fused)
  unfolding fuse_vec
  fuse_vec-Distinct rank seen [] fused d = d
  fuse_vec-Distinct rank seen (h ∷ hits) fused d = elim (Bool-cases (elem h seen)) [
    | inl e ↦ rw e (fuse_vec-Distinct rank seen hits fused d)
    | inr e ↦ rw e (fuse_vec-Distinct (suc rank) (h ∷ seen) hits _ (upsert-Distinct h _ _ fused d))
  ]

-- the row of a memory by its places in the two lists, with the sum of `weight / (k + place)` over them
abbrev pub row_at : {S : Type 0} → Floats S → ℕ → S → S → Option ℕ → Option ℕ → Option (FusedHit S)
row_at f k wb wv none none = none
row_at f k wb wv (some i) none =
    some (record { score = f.divide wb (k + i); bm25_rank = some i; vec_rank = none })
row_at f k wb wv none (some j) =
    some (record { score = f.divide wv (k + j); bm25_rank = none; vec_rank = some j })
row_at f k wb wv (some i) (some j) = some (record {
  score = f.add (f.divide wb (k + i)) (f.divide wv (k + j));
  bm25_rank = some i;
  vec_rank = some j;
})

with_both :
    {S : Type 0} (f : Floats S) (k : ℕ) (wb wv : S) (i j : Option ℕ)
    → with_vec f k wb wv j (with_bm25 f k wb wv i none) ≡ row_at f k wb wv i j
with_both f k wb wv none none = refl
with_both f k wb wv (some i) none = refl
with_both f k wb wv none (some j) = refl
with_both f k wb wv (some i) (some j) = refl

-- The fusion gives each memory one row, made of its place in the keyword list, where each memory stands
-- once, and of its place among the memories of the vector list counted at their first chunk: its score is the
-- sum of `weight / (k + place)` over the lists that hold it, and a memory of neither list has no row. The
-- result is these rows by falling score.
pub rrf_combine-ranks :
    {S : Type 0} (f : Floats S) (bm25_hits vec_hits : List ℕ) (k : ℕ)
    (bm25_weight vector_weight : S)
    → NoRepeat bm25_hits
    → ((x y : S) → at_least f x y ≡ false → at_least f y x ≡ true)
    → ((x y z : S) → at_least f x y ≡ true → at_least f y z ≡ true → at_least f x z ≡ true)
    → (fused : Table (FusedHit S)) × Perm
        (rrf_combine f bm25_hits vec_hits k bm25_weight vector_weight)
        fused
      × Distinct fused
      × ((m : ℕ)
          → lookup m fused
            ≡ row_at f k bm25_weight vector_weight
                (rank_in m 1 bm25_hits)
                (rank_in m 1 (first_hits [] vec_hits)))
      × IsSorted
          (λ a b. at_least f a.1.score b.1.score)
          (rrf_combine f bm25_hits vec_hits k bm25_weight vector_weight)
unfolding rrf_combine lookup
rrf_combine-ranks f bm25_hits vec_hits k wb wv once total trans =
    let first = fuse_bm25 f k wb 1 bm25_hits [] in
    let fused = fuse_vec f k wv [] 0 vec_hits first in
    (
      fused,
      sort_by-perm (λ a b. at_least f a.1.score b.1.score) fused,
      fuse_vec-Distinct f k wb wv 0 [] vec_hits first
          (fuse_bm25-Distinct f k wb wv 1 bm25_hits [] tt),
      λ m.
          lookup-fuse_vec f k wb wv m 0 [] vec_hits first
          ∙ ap (with_vec f k wb wv (rank_in m 1 (first_hits [] vec_hits)))
              (lookup-fuse_bm25 f k wb wv m 1 bm25_hits [] once)
          ∙ with_both f k wb wv (rank_in m 1 bm25_hits) (rank_in m 1 (first_hits [] vec_hits)),
      sort_by-IsSorted (λ a b. at_least f a.1.score b.1.score) (λ x y. total x.1.score y.1.score)
          (λ x y z. trans x.1.score y.1.score z.1.score) fused,
    )

-- the fused list has one row for each memory
pub rrf_combine-NoRepeat :
    {S : Type 0} (f : Floats S) (bm25_hits vec_hits : List ℕ) (k : ℕ)
    (bm25_weight vector_weight : S)
    → NoRepeat (keys (rrf_combine f bm25_hits vec_hits k bm25_weight vector_weight))
unfolding rrf_combine
rrf_combine-NoRepeat f bm25_hits vec_hits k wb wv =
    let first = fuse_bm25 f k wb 1 bm25_hits [] in
    let fused = fuse_vec f k wv [] 0 vec_hits first in
    let distinct =
      fuse_vec-Distinct f k wb wv 0 [] vec_hits first
        (fuse_bm25-Distinct f k wb wv 1 bm25_hits [] tt) in
    perm-NoRepeat
      (Perm.map (λ e. e.0) (Perm.symm (sort_by-perm (λ a b. at_least f a.1.score b.1.score) fused)))
      (Distinct-NoRepeat fused distinct)
