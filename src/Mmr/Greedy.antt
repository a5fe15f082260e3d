-- ===== src/Mmr/Greedy.antt =====
-- src/memstem/core/mmr.py: the running maximum of the loop against the formula of the module.
use memstem.Prelude.{
  ℕ, zero, suc, ◌≡◌, refl, ap, true, Option, none, some, List, [], ◌∷◌, ◌++◌, arith, elem, ==_iff,
  if◌then◌else◌, Option-cases, inl, inr,
}
use memstem.Mmr.{Numbers, best_of, is_nil, mmr_score, remove_first, select}

module _ {S : Type 0} (f : Numbers S) where
  -- max(sim(c, picked)), over the picks from the first
  unfoldable pub max_sim : (ℕ → ℕ → S) → ℕ → List ℕ → S → S
  max_sim sim c [] so_far = so_far
  max_sim sim c (p ∷ picked) so_far =
      max_sim sim c picked (if f.less so_far (sim c p) then sim c p else so_far)

  -- the loop by the formula of the module: every similarity computed anew for every pick
  unfoldable pub select_by_formula :
      S → (ℕ → S) → (ℕ → ℕ → S) → ℕ → List ℕ → List ℕ → Option (List ℕ)
  unfolding best_of remove_first max_sim
  select_by_formula lambda_ query_sim sim zero picked remaining = some picked
  select_by_formula lambda_ query_sim sim (suc room) picked [] = some picked
  select_by_formula lambda_ query_sim sim (suc room) picked (r ∷ remaining) =
      elim (best_of f (mmr_score f lambda_ query_sim picked (λ c. max_sim sim c picked f.bottom))
        (r ∷ remaining) none f.bottom) [
          | none ↦ none
          | some best ↦
              select_by_formula lambda_ query_sim sim room (picked ++ best ∷ [])
                (remove_first f best (r ∷ remaining))
        ]

  max_sim-append :
      (sim : ℕ → ℕ → S) (c p : ℕ) (picked : List ℕ) (so_far : S)
      → max_sim sim c (picked ++ p ∷ []) so_far ≡ (
          if f.less (max_sim sim c picked so_far) (sim c p)
          then sim c p
          else max_sim sim c picked so_far)
  unfolding max_sim
  max_sim-append sim c p [] so_far = refl
  max_sim-append sim c p (q ∷ picked) so_far =
      max_sim-append sim c p picked (if f.less so_far (sim c q) then sim c q else so_far)

  best_of-cong :
      (score score' : ℕ → S) (cs : List ℕ) (best : Option ℕ) (best_score : S)
      → ((c : ℕ) → elem c cs ≡ true → score c ≡ score' c)
      → best_of f score cs best best_score ≡ best_of f score' cs best best_score
  unfolding best_of elem
  best_of-cong score score' [] best best_score same = refl
  best_of-cong score score' (c ∷ cs) best best_score same =
      let here : score c ≡ score' c = same c (ground (arith, ==_iff c c)) in
      let rest : (d : ℕ) → elem d cs ≡ true → score d ≡ score' d =
        λ d h. same d (ground (arith, h)) in
      rw
        (
          here,
          best_of-cong score score' cs (some c) (score' c) rest,
          best_of-cong score score' cs best best_score rest,
        )
        refl

  elem-remove_first :
      (c k : ℕ) (xs : List ℕ) → elem c (remove_first f k xs) ≡ true → elem c xs ≡ true
  unfolding elem remove_first
  elem-remove_first c k [] h = h
  elem-remove_first c k (x ∷ xs) h = ground (arith, elem-remove_first c k xs)

  select_lem :
      (lambda_ : S) (query_sim : ℕ → S) (sim : ℕ → ℕ → S) (room : ℕ) (picked remaining : List ℕ)
      (redundancy : ℕ → S)
      → ((c : ℕ) → elem c remaining ≡ true → redundancy c ≡ max_sim sim c picked f.bottom)
      → select f lambda_ query_sim sim room picked remaining redundancy
        ≡ select_by_formula lambda_ query_sim sim room picked remaining
  unfolding select select_by_formula
  select_lem lambda_ query_sim sim zero picked remaining redundancy inv = refl
  select_lem lambda_ query_sim sim (suc room) picked [] redundancy inv = refl
  select_lem lambda_ query_sim sim (suc room) picked (r ∷ remaining) redundancy inv =
      let same =
        best_of-cong (mmr_score f lambda_ query_sim picked redundancy)
          (mmr_score f lambda_ query_sim picked (λ c. max_sim sim c picked f.bottom))
          (r ∷ remaining) none f.bottom
          (λ c here.
            ap
              (λ x.
                f.sub (f.mul lambda_ (query_sim c))
                  (f.mul (f.sub f.one lambda_) (if is_nil f picked then f.nought else x)))
              (inv c here)) in
      (elim (Option-cases (
        best_of f (mmr_score f lambda_ query_sim picked (λ c. max_sim sim c picked f.bottom))
          (r ∷ remaining) none f.bottom)) [
            | inl none_best ↦ rw (select, same, none_best, select_by_formula) refl
            | inr (best, found) ↦
                rw (select, same, found, select_by_formula)
                  (select_lem lambda_ query_sim sim room (picked ++ best ∷ [])
                    (remove_first f best (r ∷ remaining)) _
                    (λ c here. ground (
                      arith,
                      here,
                      inv c (elem-remove_first c best (r ∷ remaining) here),
                      max_sim-append sim c best picked f.bottom,
                    )))
          ])

-- The loop, which keeps for each candidate the greatest similarity to the picks so far and raises it by the newest
-- pick alone, picks what the formula picks that computes all similarities to the picks anew at every step.
pub select-formula :
    {S : Type 0} (f : Numbers S) (lambda_ : S) (query_sim : ℕ → S) (sim : ℕ → ℕ → S) (k : ℕ)
    (candidates : List ℕ)
    → select f lambda_ query_sim sim k [] candidates (λ c. f.bottom)
      ≡ select_by_formula f lambda_ query_sim sim k [] candidates
unfolding max_sim
select-formula f lambda_ query_sim sim k candidates =
    select_lem f lambda_ query_sim sim k [] candidates (λ c. f.bottom) (λ c here. refl)
