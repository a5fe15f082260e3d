-- ===== src/Importance/Faults.antt =====
-- src/memstem/hygiene/importance.py: an application that raises, and one that does not.
use memstem.Prelude.{
  ℕ, ◌≡◌, refl, ◌∙◌, false, none, some, [], ◌∷◌, Option-cases, Bool-cases, inl, inr, arith,
}
use memstem.Prelude.Table.{Table, lookup, Each}
use memstem.Importance.{
  Reals, State, ImportanceUpdate, ImportancePlan, Fault, sound, read_raises, upsert_raises, is_skip,
  raised_at, apply_one, apply_all, apply_until, apply_with_faults, apply_importance_updates,
}

module _ {S : Type 0} (f : Reals S) where
  apply_until-sound :
      (faults : ℕ → Fault) (now : ℕ) (updates : Table (ImportanceUpdate S)) (run : State S × ℕ)
      → ((m : ℕ) → faults m ≡ sound)
      → apply_until f faults now updates run ≡ (apply_all f now updates run, false)
  unfolding apply_until apply_all raised_at
  apply_until-sound faults now [] run fine = refl
  apply_until-sound faults now ((m, u) ∷ updates) run fine =
      rw (apply_until, fine m) (apply_until-sound faults now updates (apply_one f now m u run) fine)

  raised_at-cursor :
      (fault : Fault) (now m : ℕ) (u : ImportanceUpdate S) (s : State S)
      → Each (λ t. t.cursor ≡ s.cursor) (raised_at f fault now m u s)
  unfolding raised_at
  raised_at-cursor sound now m u s = tt
  raised_at-cursor read_raises now m u s = elim (Option-cases (lookup m s.memories)) [
    | inl e ↦ rw (raised_at, e) tt
    | inr (note, e) ↦ rw (raised_at, e) refl
  ]
  raised_at-cursor upsert_raises now m u s = elim (Option-cases (lookup m s.memories)) [
    | inl e ↦ rw (raised_at, e) tt
    | inr (note, e) ↦ elim (Bool-cases (is_skip f note now)) [
      | inl skip ↦ rw (raised_at, e, skip) tt
      | inr keep ↦ rw (raised_at, e, keep) refl
    ]
  ]

  apply_one-cursor :
      (now m : ℕ) (u : ImportanceUpdate S) (run : State S × ℕ)
      → (apply_one f now m u run).0.cursor ≡ run.0.cursor
  unfolding apply_one
  apply_one-cursor now m u (s, n) = elim (Option-cases (lookup m s.memories)) [
    | inl e ↦ rw (apply_one, e) refl
    | inr (note, e) ↦ elim (Bool-cases (is_skip f note now)) [
      | inl skip ↦ rw (apply_one, e, skip) refl
      | inr keep ↦ rw (apply_one, e, keep) refl
    ]
  ]

  apply_until-cursor :
      (faults : ℕ → Fault) (now : ℕ) (updates : Table (ImportanceUpdate S)) (run : State S × ℕ)
      → (apply_until f faults now updates run).0.0.cursor ≡ run.0.cursor
  unfolding apply_until
  apply_until-cursor faults now [] run = refl
  apply_until-cursor faults now ((m, u) ∷ updates) run =
      elim (Option-cases (raised_at f (faults m) now m u run.0)) [
        | inl e ↦
            rw (apply_until, e)
              (apply_until-cursor faults now updates (apply_one f now m u run)
                ∙ apply_one-cursor now m u run)
        | inr (t, e) ↦ rw (apply_until, e) (rw e at (raised_at-cursor (faults m) now m u run.0))
      ]

-- Where nothing raises, an application with its exceptions is the application without them. One that raises leaves
-- the cursor where it was, so that the next sweep reads the same rows again.
apply_with_faults-cursor :
    {S : Type 0} (f : Reals S) (faults : ℕ → Fault) (now : ℕ) (plan : ImportancePlan S)
    (s : State S)
    → (((m : ℕ) → faults m ≡ sound)
        → apply_with_faults f faults now plan s ≡ (
          (apply_importance_updates f now plan s).0,
          some (apply_importance_updates f now plan s).1,
        ))
      × (((apply_with_faults f faults now plan s).1 ≡ none)
          → (apply_with_faults f faults now plan s).0.cursor ≡ s.cursor)
unfolding apply_with_faults apply_importance_updates
apply_with_faults-cursor f faults now plan s = (
  λ fine. rw (apply_with_faults, apply_until-sound f faults now plan.updates (s, 0) fine) refl,
  elim (Bool-cases (apply_until f faults now plan.updates (s, 0)).1) [
    | inl broken ↦
        λ h. rw (apply_with_faults, broken) (apply_until-cursor f faults now plan.updates (s, 0))
    | inr whole ↦ λ h. absurd (ground (arith, rw (apply_with_faults, whole) at h))
  ],
)
