-- ===== src/Search/Recency/Decay.antt =====
-- src/memstem/core/recency.py: how the factor depends on the age of a memory, and when there is none.
use memstem.Prelude.{
  ℕ, ◌-◌, ◌≤◌, ◌≡◌, refl, Bool, true, false, ◌&&◌, Option, none, some, List, arith, is_some,
  if◌then◌else◌, not, Bool-cases, inl, inr,
}
use memstem.Search.{Floats, Memory, Ranking, at_least}
use memstem.Search.Recency.{
  Dated, RecencyPolicy, content_date, is_timeless, recency_multiplier, with_recency,
}

-- the age that counts: none for a timeless memory and for one whose date is not over yet
abbrev pub age_at : {S : Type 0} → (List ℕ → Option ℕ) → Dated → ℕ → RecencyPolicy S → ℕ
age_at parse memory now policy =
    if is_timeless memory policy then 0 else now - content_date parse memory

multiplier_by_age :
    {S : Type 0} (f : Floats S) (power : ℕ → S → S) (parse : List ℕ → Option ℕ) (now : ℕ)
    (policy : RecencyPolicy S)
    → power 0 policy.half_life_days ≡ f.one
    → f.mul policy.weight f.one ≡ policy.weight
    → (memory : Dated)
    → recency_multiplier f power parse memory now policy
      ≡ f.add f.one
          (f.mul policy.weight (power (age_at parse memory now policy) policy.half_life_days))
unfolding recency_multiplier
multiplier_by_age f power parse now policy start unit memory =
    elim (Bool-cases (is_timeless memory policy)) [
      | inl e ↦ rw (e, start, unit) refl
      | inr e ↦ rw e refl
    ]

-- Where the power is 1 at age 0 and a product with 1 is exact, the factor is `1 + weight * power` at the age
-- that counts, so that a timeless memory, and one dated in the future, scores as one updated now. Where,
-- besides, the power falls with the age and the two operations keep the order, a memory with the smaller age
-- that counts has a factor that is no smaller.
pub recency_multiplier-age :
    {S : Type 0} (f : Floats S) (power : ℕ → S → S) (parse : List ℕ → Option ℕ) (now : ℕ)
    (policy : RecencyPolicy S) (newer older : Dated)
    → power 0 policy.half_life_days ≡ f.one
    → f.mul policy.weight f.one ≡ policy.weight
    → ((a b : ℕ)
        → a ≤ b
        → at_least f (power a policy.half_life_days) (power b policy.half_life_days) ≡ true)
    → ((x y : S)
        → at_least f x y ≡ true
        → at_least f (f.add f.one (f.mul policy.weight x)) (f.add f.one (f.mul policy.weight y))
          ≡ true)
    → age_at parse newer now policy ≤ age_at parse older now policy
    → (recency_multiplier f power parse newer now policy
        ≡ f.add f.one
            (f.mul policy.weight (power (age_at parse newer now policy) policy.half_life_days)))
      × (at_least f
            (recency_multiplier f power parse newer now policy)
            (recency_multiplier f power parse older now policy)
          ≡ true)
recency_multiplier-age f power parse now policy newer older start unit falls keeps h =
    let by_age = multiplier_by_age f power parse now policy start unit in
    (by_age newer, rw (by_age newer, by_age older) (keeps _ _ (falls _ _ h)))

-- A search has no factor exactly when it has no policy, the weight of its policy is 0, or its query names an
-- earlier time and the policy minds that.
pub with_recency-policy :
    {S : Type 0} (f : Floats S) (power : ℕ → S → S) (parse : List ℕ → Option ℕ)
    (dated : Memory S → Dated) (policy : Option (RecencyPolicy S)) (is_historical : Bool)
    (ranking : Ranking S)
    → is_some (with_recency f power parse dated policy is_historical ranking).recency
      ≡ elim policy [
        | none ↦ false
        | some p ↦ not (f.is_zero p.weight) && not (p.skip_historical_queries && is_historical)
      ]
unfolding with_recency
with_recency-policy f power parse dated none is_historical ranking = refl
with_recency-policy f power parse dated (some p) is_historical ranking = ground arith
