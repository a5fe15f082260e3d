-- ===== src/Search/Pool.antt =====
-- src/memstem/core/search.py: the results that the pool holds, which the loop stops filling early.
use memstem.Prelude.{
  ℕ, zero, suc, ◌-◌, ◌*◌, ◌≤◌, ◌≡◌, refl, sym, ◌∙◌, ap, false, Option, none, some, List, [], ◌∷◌,
  ◌++◌, arith, length, length-append, length-take, take, All, All-take, leb, max, if◌then◌else◌,
  Bool-cases, inl, inr,
}
use mathlib.Core.List.{append_assoc, append-nil}
use memstem.Prelude.Sorting.{sort_by, All-sort_by}
use memstem.Prelude.Table.{Table}
use memstem.Search.{
  Floats, FusedHit, Memory, Ranking, Result, at_least, consider, add_result, fill_pool, rescores,
  materialize, is_hidden, overfetch_multiplier,
}

take_nil {ℓ} : {A : Type ℓ} (n : ℕ) → take {A = A} n [] ≡ []
take_nil zero = refl
take_nil (suc n) = refl

take-take {ℓ} : {A : Type ℓ} (n : ℕ) (xs : List A) → take n (take n xs) ≡ take n xs
take-take zero xs = refl
take-take (suc n) [] = refl
take-take (suc n) (x ∷ xs) = ap (λ t. x ∷ t) (take-take n xs)

widest : (limit : ℕ) → max (limit * 5) limit - 0 ≡ limit * 5
widest limit = omega arith

none_shorter : (limit : ℕ) → limit - 0 ≡ limit
none_shorter limit = omega arith

module _ {S : Type 0} (f : Floats S) (read : ℕ → Option (Memory S)) (ranking : Ranking S) where
  abbrev pub prepend : Option (Result S) → List (Result S) → List (Result S)
  prepend none rs = rs
  prepend (some r) rs = r ∷ rs

  -- the results of all hits that are not skipped, in the order of the hits
  unfoldable pub visible : Table (FusedHit S) → List (Result S)
  visible [] = []
  visible (hit ∷ hits) = prepend (consider f read ranking hit) (visible hits)

  -- where there is room, what a hit adds is at the front of what is still to come
  add_result-prepend :
      (target : ℕ) (pool : List (Result S)) (found : Option (Result S)) (rs : List (Result S))
      → leb target (length pool) ≡ false
      → add_result f found pool ++ take (target - length (add_result f found pool)) rs
        ≡ pool ++ take (target - length pool) (prepend found rs)
  add_result-prepend target pool none rs room = refl
  add_result-prepend target pool (some r) rs room =
      let more : target - length pool ≡ suc (target - length (pool ++ r ∷ [])) =
        ground (arith, room, length-append pool (r ∷ [])) in
      append_assoc pool (r ∷ []) _ ∙ sym (rw more refl)

  fill_pool-visible :
      (target : ℕ) (hits : Table (FusedHit S)) (pool : List (Result S))
      → fill_pool f read ranking target hits pool
        ≡ pool ++ take (target - length pool) (visible hits)
  unfolding fill_pool visible
  fill_pool-visible target [] pool =
      let none_left = take_nil {A = Result S} (target - length pool) in
      rw (none_left, append-nil) refl
  fill_pool-visible target (hit ∷ hits) pool = elim (Bool-cases (leb target (length pool))) [
    | inl full ↦
        let filled : target - length pool ≡ 0 = ground (arith, full) in
        rw (full, filled, append-nil) refl
    | inr room ↦
        let found = consider f read ranking hit in
        rw room (
          fill_pool-visible target hits (add_result f found pool)
          ∙ add_result-prepend target pool found (visible hits) room)
  ]

  -- what the loop adds is not hidden
  prepend-IsVisible :
      (m : ℕ) (hit : FusedHit S) (found : Option (Memory S)) (rs : List (Result S))
      → read m ≡ found
      → All (λ r. is_hidden f ranking r.memory ≡ false) rs
      → All
          (λ r. is_hidden f ranking r.memory ≡ false)
          (prepend (consider f read ranking (m, hit)) rs)
  unfolding consider
  prepend-IsVisible m hit none rs at a = rw (consider, at) a
  prepend-IsVisible m hit (some memory) rs at a = elim (Bool-cases (is_hidden f ranking memory)) [
    | inl e ↦ rw (consider, at, e) a
    | inr e ↦ rw (consider, at, e) (e, a)
  ]

  visible-IsVisible :
      (hits : Table (FusedHit S)) → All (λ r. is_hidden f ranking r.memory ≡ false) (visible hits)
  unfolding visible
  visible-IsVisible [] = tt
  visible-IsVisible ((m, hit) ∷ hits) =
      prepend-IsVisible m hit (read m) (visible hits) refl (visible-IsVisible hits)

-- Reading the vault only until the pool is full gives what reading it for every hit would give: without a
-- stage that scores again, the first `limit` results that are not skipped; with one, the best `limit` of the
-- first `5 * limit`, where equal scores keep the order of the fusion.
pub materialize-visible :
    {S : Type 0} (f : Floats S) (read : ℕ → Option (Memory S)) (ranking : Ranking S) (limit : ℕ)
    (hits : Table (FusedHit S))
    → materialize f read ranking limit hits ≡ (
        if rescores f ranking
        then take limit (
            sort_by
              (λ a b. at_least f a.score b.score)
              (take (limit * 5) (visible f read ranking hits)))
        else take limit (visible f read ranking hits))
unfolding materialize
materialize-visible f read ranking limit hits = elim (Bool-cases (rescores f ranking)) [
  | inl e ↦
      rw
        (
          e,
          fill_pool-visible f read ranking (max (limit * overfetch_multiplier) limit) hits [],
          widest limit,
        )
        refl
  | inr e ↦
      rw (e, fill_pool-visible f read ranking limit hits [], none_shorter limit, take-take) refl
]

-- A result is never a memory that the search hides: unless they are asked for, none is expired, deprecated or
-- deleted. There are at most `limit` results.
pub materialize_hides :
    {S : Type 0} (f : Floats S) (read : ℕ → Option (Memory S)) (ranking : Ranking S) (limit : ℕ)
    (hits : Table (FusedHit S))
    → All (λ r. is_hidden f ranking r.memory ≡ false) (materialize f read ranking limit hits)
      × (length (materialize f read ranking limit hits) ≤ limit)
materialize_hides {S = S} f read ranking limit hits =
    let all = visible-IsVisible f read ranking hits in
    let order = λ (a b : Result S). at_least f a.score b.score in
    rw (materialize-visible f read ranking limit hits) (elim (Bool-cases (rescores f ranking)) [
      | inl e ↦ rw e (
        All-take _ limit _ (All-sort_by order _ _ (All-take _ (limit * 5) _ all)),
        omega (
          arith,
          length-take limit (sort_by order (take (limit * 5) (visible f read ranking hits))),
        ),
      )
      | inr e ↦
          rw e
            (All-take _ limit _ all, omega (arith, length-take limit (visible f read ranking hits)))
    ])
