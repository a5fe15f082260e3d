-- ===== src/Importance/Rows.antt =====
-- src/memstem/hygiene/importance.py: which rows of the query log a sweep counts.
use mathlib.Core.List.Perm
use memstem.Prelude.{
  ℕ, ◌≤◌, ◌≡◌, refl, ap, ◌∙◌, true, false, List, [], ◌∷◌, ◌++◌, arith, All, All-filter, filter, leb,
  ltb, max, Bool-cases, inl, inr, Option-cases,
}
use memstem.Prelude.Perms.{perm-All_at}
use memstem.Prelude.Sorting.{sort_by, sort_by-perm}
use memstem.Prelude.Table.{Table, lookup}
use memstem.Importance.{
  Reals, LogRow, Note, State, ImportanceUpdate, read_cursor, rows_after, last_id, plan_rows,
  is_skip, compute_importance_updates, apply_importance_updates, apply_all, apply_one,
}

last_id-bound :
    (seen : ℕ) (rows : List LogRow)
    → (seen ≤ last_id seen rows) × All (λ r. leb r.id (last_id seen rows) ≡ true) rows
unfolding last_id
last_id-bound seen [] = (omega arith, tt)
last_id-bound seen (r ∷ rows) =
    let (most, all) = last_id-bound (max seen r.id) rows in
    (omega (arith, most), (ground (arith, most), all))

-- a row is either not after the cursor, or among the rows that are
filter_passed :
    (cursor last : ℕ) (log : List LogRow)
    → cursor ≤ last
    → All (λ r. leb r.id last ≡ true) (filter (λ r. ltb cursor r.id) log)
    → filter (λ r. ltb last r.id) log ≡ []
unfolding filter
filter_passed cursor last [] le a = refl
filter_passed cursor last (r ∷ log) le a = elim (Bool-cases (ltb cursor r.id)) [
  | inl e ↦
      let a' = rw e at a in
      let out : ltb last r.id ≡ false = ground (arith, a'.0) in
      rw out (filter_passed cursor last log le a'.1)
  | inr e ↦
      let out : ltb last r.id ≡ false = ground (arith, e, le) in
      rw out (filter_passed cursor last log le (rw e at a))
]

filter-append :
    (last : ℕ) (log new : List LogRow)
    → filter (λ r. ltb last r.id) log ≡ []
    → All (λ r. ltb last r.id ≡ true) new
    → filter (λ r. ltb last r.id) (log ++ new) ≡ new
unfolding filter
filter-append last [] [] e a = refl
filter-append last [] (r ∷ new) e a = rw a.0 (ap (λ t. r ∷ t) (filter-append last [] new refl a.1))
filter-append last (r ∷ log) new e a = elim (Bool-cases (ltb last r.id)) [
  | inl h ↦ absurd (ground (arith, rw h at e))
  | inr h ↦ rw h (filter-append last log new (rw h at e) a)
]

module _ {S : Type 0} (f : Reals S) where
  apply_one-log :
      (now m : ℕ) (u : ImportanceUpdate S) (run : State S × ℕ)
      → (apply_one f now m u run).0.query_log ≡ run.0.query_log
  unfolding apply_one
  apply_one-log now m u (s, n) = elim (Option-cases (lookup m s.memories)) [
    | inl e ↦ rw (apply_one, e) refl
    | inr (note, e) ↦ elim (Bool-cases (is_skip f note now)) [
      | inl skip ↦ rw (apply_one, e, skip) refl
      | inr keep ↦ rw (apply_one, e, keep) refl
    ]
  ]

  -- applying a plan leaves the log alone
  apply_all-log :
      (now : ℕ) (updates : Table (ImportanceUpdate S)) (run : State S × ℕ)
      → (apply_all f now updates run).0.query_log ≡ run.0.query_log
  unfolding apply_all
  apply_all-log now [] run = refl
  apply_all-log now ((m, u) ∷ updates) run =
      apply_all-log now updates (apply_one f now m u run) ∙ apply_one-log now m u run

  plan_rows-bound :
      (now cursor : ℕ) (memories : Table (Note S)) (rows : List LogRow)
      → All (λ r. ltb cursor r.id ≡ true) rows
      → (cursor ≤ (plan_rows f now cursor memories rows).last_seen_id)
        × All (λ r. leb r.id (plan_rows f now cursor memories rows).last_seen_id ≡ true) rows
  plan_rows-bound now cursor memories [] a = (omega arith, tt)
  plan_rows-bound now cursor memories (row ∷ rows) a =
      let (most, all) = last_id-bound row.id rows in
      (ground (arith, most, a.0), (ground (arith, most), all))

  -- no row of the log is after the last one that the plan has seen
  planned_rows :
      (now : ℕ) (s : State S)
      → filter (λ r. ltb (compute_importance_updates f now s).last_seen_id r.id) s.query_log ≡ []
  unfolding compute_importance_updates rows_after
  planned_rows now s =
      let cursor = read_cursor s.cursor in
      let rows = filter (λ (r : LogRow). ltb cursor r.id) s.query_log in
      let order = λ (a b : LogRow). leb a.id b.id in
      let last = (plan_rows f now cursor s.memories (sort_by order rows)).last_seen_id in
      let sorted = sort_by-perm order rows in
      let after =
        perm-All_at (λ (r : LogRow). ltb cursor r.id) true (Perm.symm sorted)
          (All-filter (λ (r : LogRow). ltb cursor r.id) s.query_log) in
      let (le, all) = plan_rows-bound now cursor s.memories (sort_by order rows) after in
      filter_passed cursor last s.query_log le
        (perm-All_at (λ (r : LogRow). leb r.id last) true sorted all)

-- After a sweep whose application completes, whatever it proposed, the rows that the next sweep counts are exactly
-- those written since with a higher id, by id: no row is counted by two sweeps, and none between them is lost.
pub apply-rows_after :
    {S : Type 0} (f : Reals S) (now now' : ℕ) (s : State S) (new : List LogRow)
    → All (λ r. ltb (compute_importance_updates f now s).last_seen_id r.id ≡ true) new
    → let after = (apply_importance_updates f now' (compute_importance_updates f now s) s).0 in
      rows_after (read_cursor after.cursor) (after.query_log ++ new)
      ≡ sort_by (λ a b. leb a.id b.id) new
unfolding apply_importance_updates rows_after
apply-rows_after f now now' s new a =
    let plan = compute_importance_updates f now s in
    rw (apply_all-log f now' plan.updates (s, 0)) (
      ap (sort_by (λ b c. leb b.id c.id))
        (filter-append plan.last_seen_id s.query_log new (planned_rows f now s) a))
