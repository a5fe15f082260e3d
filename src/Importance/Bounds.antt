-- ===== src/Importance/Bounds.antt =====
-- src/memstem/hygiene/importance.py: how far a sweep may raise the importance of a memory.
use mathlib.Core.Option
use memstem.Prelude.{
  ℕ, ◌≡◌, refl, ◌∙◌, true, false, ◌⊎◌, Option, none, some, arith, Bool-cases, inl, inr,
}
use memstem.Prelude.Table.{Table, lookup}
use memstem.Importance.{
  Reals, Note, State, ImportanceUpdate, read_cursor, rows_after, is_skip, least, current_importance,
  set_importance, propose,
}
use memstem.Importance.Sweep.{improve, proposed, sweep, sweep-lookup, total_of}

-- what the bounds rely on of the comparison and the sum of floats that are numbers
pub record IsOrdered {S : Type 0} (f : Reals S) : Type 0 where
  pub leq_refl : (x : S) → f.leq x x ≡ true
  pub leq_trans : (x y z : S) → f.leq x y ≡ true → f.leq y z ≡ true → f.leq x z ≡ true
  pub less_leq : (x y : S) → f.less x y ≡ true → f.leq x y ≡ true
  pub not-less_leq : (x y : S) → f.less x y ≡ false → f.leq y x ≡ true
  pub leq-add : (c x y : S) → f.leq x y ≡ true → f.leq (f.add c x) (f.add c y) ≡ true

module _ {S : Type 0} (f : Reals S) (order : IsOrdered f) where
  least-bounds : (a b : S) → (f.leq (least f a b) a ≡ true) × (f.leq (least f a b) b ≡ true)
  least-bounds a b = elim (Bool-cases (f.less b a)) [
    | inl e ↦ rw e (order.less_leq b a e, order.leq_refl b)
    | inr e ↦ rw e (order.leq_refl a, order.not-less_leq b a e)
  ]

  -- an update raises, to no more than 1 and by no more than the cap
  abbrev pub IsRaise : Note S → S → Type 0
  IsRaise note p =
      (f.leq p (current_importance f note) ≡ false)
      × (f.leq p f.one ≡ true)
      × (f.leq p (f.add (current_importance f note) f.max_bump_per_run) ≡ true)

  propose-IsRaise :
      (now : ℕ) (raw_bump : S) (note : Note S) (u : ImportanceUpdate S)
      → propose f now raw_bump note ≡ some u
      → IsRaise note u.proposed
  unfolding propose
  propose-IsRaise now raw_bump note u e =
      let current = current_importance f note in
      let capped = least f f.max_bump_per_run raw_bump in
      let p = least f f.one (f.add current capped) in
      let (below_one, below_sum) = least-bounds f.one (f.add current capped) in
      let (below_cap, _) = least-bounds f.max_bump_per_run raw_bump in
      let far =
        order.leq_trans p (f.add current capped) (f.add current f.max_bump_per_run) below_sum
          (order.leq-add current capped f.max_bump_per_run below_cap) in
      elim (Bool-cases (is_skip f note now)) [
        | inl skip ↦ absurd (ground (arith, rw (propose, skip) at e))
        | inr keep ↦ elim (Bool-cases (f.leq f.one current)) [
          | inl full ↦ absurd (ground (arith, rw (propose, keep, full) at e))
          | inr room ↦ elim (Bool-cases (f.leq p current)) [
            | inl low ↦ absurd (ground (arith, rw (propose, keep, room, low) at e))
            | inr high ↦
                let same : p ≡ u.proposed = ground (arith, rw (propose, keep, room, high) at e) in
                rw (← same) (high, below_one, far)
          ]
        ]
      ]

  improved :
      (now later : ℕ) (memories : Table (Note S)) (j : ℕ) (note : Note S) (weight : Option S)
      → lookup j memories ≡ some note
      → (u : Option (ImportanceUpdate S)) → proposed f now memories j weight ≡ u
      → (improve f later u note ≡ note)
        ⊎ ((p : S) × (improve f later u note ≡ set_importance f p note)
            × (is_skip f note later ≡ false)
            × (f.leq p (current_importance f note) ≡ false)
            × (f.leq p f.one ≡ true)
            × (f.leq p (f.add (current_importance f note) f.max_bump_per_run) ≡ true))
  unfolding Option.bind
  improved now later memories j note weight here none e = inl refl
  improved now later memories j note none here (some u) e = absurd (ground (arith, e))
  improved now later memories j note (some raw_bump) here (some u) e =
      let (high, one, cap) = propose-IsRaise now raw_bump note u (rw here at e) in
      elim (Bool-cases (is_skip f note later)) [
        | inl skip ↦ rw skip (inl refl)
        | inr keep ↦ rw keep (inr (u.proposed, refl, refl, high, one, cap))
      ]

-- Where the operations on floats are ordered as `IsOrdered` says, a sweep whose application completes leaves a
-- memory as it is, or sets only its importance, when it is not to be skipped, to a value that is above the old
-- one, where a memory without one counts as 0.5, at most 1, and at most the cap of one sweep above it: no sweep
-- lowers an importance, and none removes a memory.
pub sweep-IsRaise :
    {S : Type 0} (f : Reals S) (now later : ℕ) (s : State S) (j : ℕ) (note : Note S)
    → IsOrdered f
    → lookup j s.memories ≡ some note
    → (after : Note S) × (lookup j (sweep f now later s).memories ≡ some after)
      × ((after ≡ note)
          ⊎ ((p : S) × (after ≡ set_importance f p note)
              × (is_skip f note later ≡ false)
              × (f.leq p (current_importance f note) ≡ false)
              × (f.leq p f.one ≡ true)
              × (f.leq p (f.add (current_importance f note) f.max_bump_per_run) ≡ true)))
sweep-IsRaise f now later s j note order here =
    let rows = rows_after (read_cursor s.cursor) s.query_log in
    let u = proposed f now s.memories j (total_of f now j rows none) in
    (
      improve f later u note,
      sweep-lookup f now later s j ∙ rw here refl,
      improved f order now later s.memories j note (total_of f now j rows none) here u refl,
    )
