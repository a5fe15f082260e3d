-- ===== src/Search/Retrieve/Stages.antt =====
-- src/memstem/core/search.py: what the stages behind the materialization keep of its results.
use mathlib.Core.Logic.{∥∥₁_map}
use mathlib.Core.List.{Perm, Permᴰ, append_assoc}
use mathlib.Core.List.Perm
use mathlib.Core.List.Permᴰ
use memstem.Prelude.{
  ℕ, zero, suc, ◌≤◌, ◌≡◌, refl, ◌∙◌, ap, not, Option, none, some, List, [], ◌∷◌, ◌++◌, map, arith,
  length, length-append, length-map, length-take, take, drop, take-drop, get_elem?, ltb, min,
  Bool-cases, Option-cases, inl, inr, ◌⊎◌,
}
use memstem.Prelude.Sorting.{sort_by, sort_by-perm}
use memstem.Prelude.Perms.{length-perm}
use memstem.Mmr.{Numbers, clamp, cosine_similarity, pair_sim, embedding_of}
use memstem.Mmr.Selection.{IsTame, mmr_rerank-perm}
use memstem.Search.{Floats, Memory, Result, ranks_below, apply_rerank}
use memstem.Search.Rerank.{zip_strict-pairs}
use memstem.Search.Retrieve.{
  Engine, Request, upto, cons_some, at_places, vector_of, diversify, rerank_stage, cut_stage,
}

length-upto : (start n : ℕ) → length (upto start n) ≡ n
length-upto start zero = refl
length-upto start (suc n) = ap suc (length-upto (suc start) n)

module _ {ℓ} {A : Type ℓ} where
  at_places-append :
      (xs : List A) (is js : List ℕ) → at_places xs (is ++ js) ≡ at_places xs is ++ at_places xs js
  unfolding at_places
  at_places-append xs [] js = refl
  at_places-append xs (i ∷ is) js = elim (Option-cases (get_elem? xs i)) [
    | inl e ↦ rw e (at_places-append xs is js)
    | inr (x, e) ↦ rw e (ap (λ t. x ∷ t) (at_places-append xs is js))
  ]

  length-at_places : (xs : List A) (is : List ℕ) → length (at_places xs is) ≤ length is
  unfolding at_places
  length-at_places xs [] = omega arith
  length-at_places xs (i ∷ is) = elim (Option-cases (get_elem? xs i)) [
    | inl e ↦ rw e (omega (arith, length-at_places xs is))
    | inr (x, e) ↦ rw e (omega (arith, length-at_places xs is))
  ]

  get_elem?-append : (xs ys : List A) (y : A) → get_elem? (xs ++ y ∷ ys) (length xs) ≡ some y
  get_elem?-append [] ys y = refl
  get_elem?-append (x ∷ xs) ys y = get_elem?-append xs ys y

  at_places-upto : (xs ys : List A) → at_places (xs ++ ys) (upto (length xs) (length ys)) ≡ ys
  unfolding at_places
  at_places-upto xs [] = refl
  at_places-upto xs (y ∷ ys) =
      let longer : length (xs ++ y ∷ []) ≡ suc (length xs) =
        omega (arith, length-append xs (y ∷ [])) in
      let rest : at_places (xs ++ y ∷ ys) (upto (suc (length xs)) (length ys)) ≡ ys =
        rw (longer, append_assoc xs (y ∷ []) ys) at (at_places-upto (xs ++ y ∷ []) ys) in
      rw (get_elem?-append xs ys y, rest) refl

  cons_some-Permᴰ :
      {o o' : Option A} {xs ys : List A}
      → o ≡ o'
      → Permᴰ xs ys
      → Permᴰ (cons_some o xs) (cons_some o' ys)
  cons_some-Permᴰ {o = none} {xs = xs} {ys = ys} e d = rw (← e) d
  cons_some-Permᴰ {o = some x} {xs = xs} {ys = ys} e d = rw (← e) (Permᴰ.cons refl d)

  cons_some_swap :
      {o p o' p' : Option A} (xs : List A)
      → o ≡ p'
      → p ≡ o'
      → Permᴰ (cons_some o (cons_some p xs)) (cons_some o' (cons_some p' xs))
  cons_some_swap {o = none} {p = none} xs e e' = rw (← e, ← e') (Permᴰ.refl xs)
  cons_some_swap {o = none} {p = some y} xs e e' = rw (← e, ← e') (Permᴰ.refl (y ∷ xs))
  cons_some_swap {o = some x} {p = none} xs e e' = rw (← e, ← e') (Permᴰ.refl (x ∷ xs))
  cons_some_swap {o = some x} {p = some y} xs e e' = rw (← e, ← e') (Permᴰ.swap refl refl)

  at_places-Permᴰ :
      (xs : List A) {is js : List ℕ} → Permᴰ is js → Permᴰ (at_places xs is) (at_places xs js)
  unfolding at_places
  at_places-Permᴰ xs Permᴰ.nil = Permᴰ.nil
  at_places-Permᴰ xs (Permᴰ.cons e d) = cons_some-Permᴰ (ap (get_elem? xs) e) (at_places-Permᴰ xs d)
  at_places-Permᴰ xs (Permᴰ.swap {l = l} e e') =
      cons_some_swap (at_places xs l) (ap (get_elem? xs) e) (ap (get_elem? xs) e')
  at_places-Permᴰ xs (Permᴰ.trans d d') = Permᴰ.trans (at_places-Permᴰ xs d) (at_places-Permᴰ xs d')

  -- where the places are those of a list, put in two parts, so are the objects
  at_places-perm :
      (xs : List A) (out left : List ℕ)
      → Perm (out ++ left) (upto 0 (length xs))
      → Perm (at_places xs out ++ at_places xs left) xs × (length (at_places xs out) ≡ length out)
  at_places-perm xs out left perm =
      let same : Perm (at_places xs (out ++ left)) (at_places xs (upto 0 (length xs))) =
        ∥∥₁_map perm (at_places-Permᴰ xs) in
      let parted : Perm (at_places xs out ++ at_places xs left) xs =
        rw (at_places-append xs out left, at_places-upto [] xs) at same in
      (
        parted,
        omega (
          arith,
          length-perm parted,
          length-perm perm,
          length-upto 0 (length xs),
          length-append out left,
          length-append (at_places xs out) (at_places xs left),
          length-at_places xs out,
          length-at_places xs left,
        ),
      )

-- a vector that the index holds for the first chunk of a memory; none of a memory without one
abbrev pub IsStored : {S : Type 0} → Engine S → List S → Type 0
IsStored engine v = (v ≡ []) ⊎ ((m : ℕ) × (engine.first_chunk_embedding m ≡ some v))

-- No similarity of stored vectors, and no score that the diversification makes of them and of the query's vector,
-- is minus infinity or no number.
abbrev pub IsTameFor : {S : Type 0} → Numbers S → Engine S → S → List S → Type 0
IsTameFor {S = S} n engine lambda_ query =
    (e : ℕ → List S)
    → ((c : ℕ) → IsStored engine (e c))
    → IsTame n (clamp n lambda_) (λ c. cosine_similarity n query (e c)) (pair_sim n e)

-- the same of a search: it has both where it diversifies
abbrev pub IsTameCut : {S : Type 0} → Numbers S → Engine S → Option S → Option (List S) → Type 0
IsTameCut n engine (some lambda_) (some query) = IsTameFor n engine lambda_ query
IsTameCut n engine _ _ = Unit

module _ {S : Type 0} (f : Floats S) (n : Numbers S) (engine : Engine S)
    (sized : (q : List ℕ) (ms : List (Memory S))
      → length (engine.score_candidates q ms) ≡ length ms) where
  vector_of-IsStored :
      (r : Option (Result S))
      → IsStored engine (elim (vector_of engine r) [ none ↦ [] | some emb ↦ emb ])
  vector_of-IsStored none = inl refl
  vector_of-IsStored (some r) = elim (Option-cases (engine.first_chunk_embedding r.memory.id)) [
    | inl e ↦ rw e (inl refl)
    | inr (v, e) ↦ rw e (inr (r.memory.id, e))
  ]

  diversify-perm :
      (results : List (Result S)) (query : List S) (lambda_ : S) (k : ℕ)
      → IsTameFor n engine lambda_ query
      → (out left : List (Result S)) × (diversify n engine results query lambda_ k ≡ some out)
        × Perm (out ++ left) results
        × (length out ≡ min k (length results))
  unfolding diversify
  diversify-perm results query lambda_ k tame =
      let lookup = λ (c : ℕ). vector_of engine (get_elem? results c) in
      let (out, left, run, perm, size) =
        mmr_rerank-perm n (upto 0 (length results)) query lookup lambda_ k
          (tame (embedding_of n lookup) (λ c. vector_of-IsStored (get_elem? results c))) in
      let (parted, kept) = at_places-perm results out left perm in
      (
        at_places results out,
        at_places results left,
        rw (diversify, run) refl,
        parted,
        omega (arith, size, kept, length-upto 0 (length results)),
      )

  pub cut_stage-perm :
      (lambda_ : Option S) (query : Option (List S)) (limit : ℕ) (results : List (Result S))
      → IsTameCut n engine lambda_ query
      → (out left : List (Result S)) × (cut_stage n engine lambda_ query limit results ≡ some out)
        × Perm (out ++ left) results
        × (length out ≡ min limit (length results))
  cut_stage-perm (some lambda_) (some query) limit results tame =
      diversify-perm results query lambda_ limit tame
  cut_stage-perm (some lambda_) none limit results tame = (
    take limit results,
    drop limit results,
    refl,
    rw take-drop Perm.rfl,
    length-take limit results,
  )
  cut_stage-perm none query limit results tame = (
    take limit results,
    drop limit results,
    refl,
    rw take-drop Perm.rfl,
    length-take limit results,
  )

  apply_rerank_kept :
      (q : List ℕ) (top_n : ℕ) (results : List (Result S))
      → (out : List (Result S)) × (apply_rerank f (engine.score_candidates q) top_n results
          ≡ some out)
        × Perm out results
  unfolding apply_rerank
  apply_rerank_kept q top_n results =
      let head = take top_n results in
      let (pairs, zip, left, right) =
        zip_strict-pairs f (engine.score_candidates q (map (λ r. r.memory) head)) head
          (sized q (map (λ r. r.memory) head) ∙ length-map (λ r. r.memory) head) in
      let order = λ (a b : S × Result S). not (ranks_below f a b) in
      let sorted : Perm (map (λ p. p.1) (sort_by order pairs)) (map (λ p. p.1) pairs) =
        Perm.map (λ p. p.1) (sort_by-perm order pairs) in
      let whole : map (λ p. p.1) pairs ++ drop top_n results ≡ results =
        rw right (take-drop top_n results) in
      (
        map (λ p. p.1) (sort_by order pairs) ++ drop top_n results,
        rw (apply_rerank, zip) refl,
        rw whole at (Perm.append_right (drop top_n results) sorted),
      )

  pub rerank_stage-perm :
      (request : Request S) (results : List (Result S))
      → (out : List (Result S)) × (rerank_stage f engine request results ≡ some out)
        × Perm out results
  unfolding rerank_stage
  rerank_stage-perm request [] = ([], refl, Perm.rfl)
  rerank_stage-perm request (r ∷ results) = elim (Option-cases request.rerank_top_n) [
    | inl e ↦ (r ∷ results, rw (rerank_stage, e) refl, Perm.rfl)
    | inr (top_n, e) ↦ elim (Bool-cases (ltb 0 top_n)) [
      | inl on ↦
          let (out, run, perm) = apply_rerank_kept request.query top_n (r ∷ results) in
          (out, rw (rerank_stage, e, on) run, perm)
      | inr off ↦ (r ∷ results, rw (rerank_stage, e, off) refl, Perm.rfl)
    ]
  ]
