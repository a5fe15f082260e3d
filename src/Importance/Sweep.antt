-- ===== src/Importance/Sweep.antt =====
-- src/memstem/hygiene/importance.py: what a sweep, planned and then applied, does to each memory.
use mathlib.Core.Option
use memstem.Prelude.{
  ℕ, ◌-◌, ◌≡◌, refl, ap, ◌∙◌, sym, not, Option, none, some, List, [], ◌∷◌, arith, ◌==◌, ==_iff,
  if◌then◌else◌, Bool-cases, Option-cases, inl, inr,
}
use memstem.Prelude.Entries.{sort_by-lookup}
use memstem.Prelude.Table.{Table, lookup, lookup-modify, lookup-upsert, upsert-Distinct, Distinct}
use memstem.Importance.{
  Reals, LogRow, Note, State, ImportanceUpdate, read_cursor, rows_after, plan_rows, is_skip, bump,
  set_importance, add_row, add_rows, add_update, propose, propose_all, per_row_weight,
  compute_importance_updates, apply_importance_updates, apply_all, apply_one,
}

module _ {S : Type 0} (f : Reals S) where
  -- what an update makes of a memory when it is applied
  abbrev pub improve : ℕ → Option (ImportanceUpdate S) → Note S → Note S
  improve now none note = note
  improve now (some u) note = if is_skip f note now then note else set_importance f u.proposed note

  map-improve : (now : ℕ) (note : Option (Note S)) → Option.map (improve now none) note ≡ note
  map-improve now none = refl
  map-improve now (some note) = refl

  apply_one-lookup :
      (now m j : ℕ) (u : ImportanceUpdate S) (run : State S × ℕ)
      → lookup j (apply_one f now m u run).0.memories
        ≡ Option.map (improve now (if m == j then some u else none)) (lookup j run.0.memories)
  unfolding apply_one
  apply_one-lookup now m j u (s, n) =
      let other = map-improve now (lookup j s.memories) in
      elim (Bool-cases (m == j)) [
        | inr apart ↦ elim (Option-cases (lookup m s.memories)) [
          | inl e ↦ rw (apart, apply_one, e) (sym other)
          | inr (note, e) ↦ elim (Bool-cases (is_skip f note now)) [
            | inl skip ↦ rw (apart, apply_one, e, skip) (sym other)
            | inr keep ↦
                rw (apart, apply_one, e, keep)
                  (lookup-modify m j (set_importance f u.proposed) s.memories
                    ∙ rw apart (sym other))
          ]
        ]
        | inl same ↦
            let here : lookup j s.memories ≡ lookup m s.memories = rw ((==_iff m j).0 same) refl in
            elim (Option-cases (lookup m s.memories)) [
              | inl e ↦ rw (same, apply_one, here, e) (here ∙ e)
              | inr (note, e) ↦ elim (Bool-cases (is_skip f note now)) [
                | inl skip ↦ rw (same, apply_one, here, e, skip) (here ∙ e)
                | inr keep ↦
                    rw (same, apply_one, here, e, keep)
                      (lookup-modify m j (set_importance f u.proposed) s.memories
                        ∙ rw (same, here, e) refl)
              ]
            ]
      ]

  apply_all-lookup :
      (now j : ℕ) (updates : Table (ImportanceUpdate S)) (run : State S × ℕ)
      → Distinct updates
      → lookup j (apply_all f now updates run).0.memories
        ≡ Option.map (improve now (lookup j updates)) (lookup j run.0.memories)
  unfolding apply_all lookup
  apply_all-lookup now j [] run d = sym (map-improve now (lookup j run.0.memories))
  apply_all-lookup now j ((m, u) ∷ updates) run d =
      let rest = apply_all-lookup now j updates (apply_one f now m u run) d.1 in
      let first = apply_one-lookup now m j u run in
      elim (Bool-cases (m == j)) [
        | inl same ↦
            let absent : lookup j updates ≡ none = rw (← (==_iff m j).0 same) (d.0) in
            rw same (rest ∙ rw absent (map-improve now _ ∙ rw same at first))
        | inr apart ↦
            let kept = rw apart at first ∙ map-improve now (lookup j run.0.memories) in
            rw apart (rest ∙ ap (Option.map (improve now (lookup j updates))) kept)
      ]

  -- what the plan proposes for a memory of a given weight
  abbrev pub proposed : ℕ → Table (Note S) → ℕ → Option S → Option (ImportanceUpdate S)
  proposed now memories j weight =
      Option.bind weight (λ raw_bump. Option.bind (lookup j memories) (propose f now raw_bump))

  lookup-add_update :
      (m j : ℕ) (u : Option (ImportanceUpdate S)) (updates : Table (ImportanceUpdate S))
      → lookup m updates ≡ none
      → lookup j (add_update f m u updates) ≡ (if m == j then u else lookup j updates)
  unfolding lookup
  lookup-add_update m j none updates h = ground (arith, ==_iff m j, h)
  lookup-add_update m j (some u) updates h = refl

  add_update-Distinct :
      (m : ℕ) (u : Option (ImportanceUpdate S)) (updates : Table (ImportanceUpdate S))
      → lookup m updates ≡ none
      → Distinct updates
      → Distinct (add_update f m u updates)
  add_update-Distinct m none updates h d = d
  add_update-Distinct m (some u) updates h d = (h, d)

  propose_all-lookup :
      (now : ℕ) (memories : Table (Note S)) (weights : Table S)
      → Distinct weights
      → Distinct (propose_all f now memories weights)
        × ((j : ℕ)
            → lookup j (propose_all f now memories weights)
              ≡ proposed now memories j (lookup j weights))
  unfolding propose_all lookup Option.bind
  propose_all-lookup now memories [] d = (tt, λ j. refl)
  propose_all-lookup now memories ((m, raw_bump) ∷ weights) d =
      let (distinct, same) = propose_all-lookup now memories weights d.1 in
      let u = Option.bind (lookup m memories) (propose f now raw_bump) in
      let absent : lookup m (propose_all f now memories weights) ≡ none = same m ∙ rw (d.0) refl in
      (
        add_update-Distinct m u (propose_all f now memories weights) absent distinct,
        λ j.
            lookup-add_update m j u (propose_all f now memories weights) absent
            ∙ elim (Bool-cases (m == j)) [
              | inl here ↦ rw (here, (==_iff m j).0 here) refl
              | inr apart ↦ rw apart (same j)
            ],
      )

  add_row-Distinct :
      (now : ℕ) (row : LogRow) (weights : Table S)
      → Distinct weights
      → Distinct (add_row f now row weights)
  unfolding add_row
  add_row-Distinct now row weights d = elim (Option-cases row.ts) [
    | inl e ↦ rw (add_row, e) d
    | inr (ts, e) ↦
        let weight = per_row_weight f row.kind row.rank (now - ts) in
        elim (Bool-cases (f.leq weight f.nought)) [
          | inl idle ↦ rw (add_row, e, idle) d
          | inr counts ↦
              rw (add_row, e, counts)
                (upsert-Distinct row.memory_id (f.add f.nought weight) (λ w. f.add w weight) weights
                  d)
        ]
  ]

  add_rows-Distinct :
      (now : ℕ) (rows : List LogRow) (weights : Table S)
      → Distinct weights
      → Distinct (add_rows f now rows weights)
  unfolding add_rows
  add_rows-Distinct now [] weights d = d
  add_rows-Distinct now (row ∷ rows) weights d =
      add_rows-Distinct now rows (add_row f now row weights) (add_row-Distinct now row weights d)

  plan_rows-lookup :
      (now cursor : ℕ) (memories : Table (Note S)) (rows : List LogRow)
      → Distinct (plan_rows f now cursor memories rows).updates
        × ((j : ℕ)
            → lookup j (plan_rows f now cursor memories rows).updates
              ≡ proposed now memories j (lookup j (add_rows f now rows [])))
  unfolding lookup Option.bind add_rows
  plan_rows-lookup now cursor memories [] = (tt, λ j. refl)
  plan_rows-lookup now cursor memories (row ∷ rows) =
      let weights = add_rows f now (row ∷ rows) [] in
      let (distinct, same) =
        propose_all-lookup now memories weights (add_rows-Distinct now (row ∷ rows) [] tt) in
      let (distinct', same') =
        sort_by-lookup (λ (a b : ℕ × ImportanceUpdate S). not (f.less (bump f a.1) (bump f b.1)))
          (propose_all f now memories weights) distinct in
      (distinct', λ j. same' j ∙ same j)

  -- what a row of a memory adds to its total: nothing without a readable time or without a positive weight
  abbrev pub credited : ℕ → LogRow → Option S → Option S
  credited now row total = elim row.ts [
    | none ↦ total
    | some ts ↦
        if f.leq (per_row_weight f row.kind row.rank (now - ts)) f.nought
        then total
        else some
            (f.add (Option.get_or total f.nought) (per_row_weight f row.kind row.rank (now - ts)))
  ]

  -- the total of one memory over its own rows, in their order: none where none of them counts
  abbrev pub total_of : ℕ → ℕ → List LogRow → Option S → Option S
  total_of now j [] total = total
  total_of now j (row ∷ rows) total =
      total_of now j rows (if row.memory_id == j then credited now row total else total)

  add_row-lookup :
      (now j : ℕ) (row : LogRow) (weights : Table S)
      → lookup j (add_row f now row weights)
        ≡ (if row.memory_id == j then credited now row (lookup j weights) else lookup j weights)
  unfolding add_row
  add_row-lookup now j row weights = elim (Option-cases row.ts) [
    | inl e ↦ rw (add_row, e) (ground arith)
    | inr (ts, e) ↦
        let weight = per_row_weight f row.kind row.rank (now - ts) in
        elim (Bool-cases (f.leq weight f.nought)) [
          | inl idle ↦ rw (add_row, e, idle) (ground arith)
          | inr counts ↦
              rw (add_row, e, counts)
                (ground (
                  arith,
                  ==_iff row.memory_id j,
                  lookup-upsert row.memory_id j (f.add f.nought weight) (λ w. f.add w weight)
                      weights,
                ))
        ]
  ]

  add_rows-lookup :
      (now j : ℕ) (rows : List LogRow) (weights : Table S)
      → lookup j (add_rows f now rows weights) ≡ total_of now j rows (lookup j weights)
  unfolding add_rows
  add_rows-lookup now j [] weights = refl
  add_rows-lookup now j (row ∷ rows) weights =
      add_rows-lookup now j rows (add_row f now row weights)
      ∙ ap (total_of now j rows) (add_row-lookup now j row weights)

  -- a sweep at `now` that is applied at `later`
  abbrev pub sweep : ℕ → ℕ → State S → State S
  sweep now later s = (apply_importance_updates f later (compute_importance_updates f now s) s).0

-- A sweep whose application raises nothing gives every memory what its own rows of the log are worth, and nothing
-- else: what it makes of a memory is the update that is proposed for the sum of the weights of the rows after the
-- cursor that name this memory, applied to it unless it is to be skipped by then. The rows and the updates of other
-- memories, and the order of the updates, do not matter.
pub sweep-lookup :
    {S : Type 0} (f : Reals S) (now later : ℕ) (s : State S) (j : ℕ)
    → lookup j (sweep f now later s).memories
      ≡ Option.map
          (improve f later (
            proposed f now s.memories j
              (total_of f now j (rows_after (read_cursor s.cursor) s.query_log) none)))
          (lookup j s.memories)
unfolding compute_importance_updates apply_importance_updates lookup
sweep-lookup f now later s j =
    let cursor = read_cursor s.cursor in
    let rows = rows_after cursor s.query_log in
    let plan = compute_importance_updates f now s in
    let (distinct, same) = plan_rows-lookup f now cursor s.memories rows in
    apply_all-lookup f later j plan.updates (s, 0) distinct
    ∙ ap (λ u. Option.map (improve f later u) (lookup j s.memories))
        (same j ∙ ap (proposed f now s.memories j) (add_rows-lookup f now j rows []))
