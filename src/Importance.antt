-- ===== src/Importance.antt =====
-- src/memstem/hygiene/importance.py: the sweep that turns rows of the query log into importance. The operations
-- on floats are given; times are seconds since the epoch.
pub mod Bounds
pub mod Faults
pub mod Rows
pub mod Sweep
use mathlib.Core.Option
use memstem.Prelude.{
  ℕ, zero, suc, ◌-◌, ◌*◌, Bool, true, false, not, ◌&&◌, Option, none, some, List, [], ◌∷◌, filter,
  leb, ltb, max, is_some, if◌then◌else◌,
}
use memstem.Prelude.Sorting.{sort_by}
use memstem.Prelude.Table.{Table, lookup, upsert, modify}

pub record Reals (S : Type 0) : Type 0 where
  pub add : S → S → S
  pub sub : S → S → S
  pub mul : S → S → S
  pub divide : S → ℕ → S
  pub less : S → S → Bool
  pub leq : S → S → Bool
  pub nought : S
  pub half : S
  pub one : S
  -- GET_WEIGHT, SEARCH_WEIGHT_ROOT, MAX_BUMP_PER_RUN
  pub get_weight : S
  pub search_weight_root : S
  pub max_bump_per_run : S

pub data Kind : Type 0 where
  get search other : Kind

-- a row of query_log; `ts` is none where it is no ISO time, and a rank below 1 is 0
pub record LogRow : Type 0 where
  pub id : ℕ
  pub ts : Option ℕ
  pub kind : Kind
  pub memory_id : ℕ
  pub rank : Option ℕ

-- what the sweep reads and writes of a memory's frontmatter
pub record Note (S : Type 0) : Type 0 where
  pub importance : Option S
  pub deprecated_by : Option ℕ
  pub valid_to : Option ℕ

-- `cursor` is the row of hygiene_state, none inside where its value is no number; `memories` are those with a
-- row in the index and a file in the vault, and `reindexed` those that `index.upsert` was given
pub record State (S : Type 0) : Type 0 where
  pub cursor : Option (Option ℕ)
  pub query_log : List LogRow
  pub memories : Table (Note S)
  pub reindexed : List ℕ

-- the key of its row is its `memory_id`
pub record ImportanceUpdate (S : Type 0) : Type 0 where
  pub current : S
  pub proposed : S

pub record ImportancePlan (S : Type 0) : Type 0 where
  pub updates : Table (ImportanceUpdate S)
  pub last_seen_id : ℕ

-- what goes wrong with a memory when its update is applied: nothing, `vault.read` raises another exception than
-- MemoryNotFoundError, or `index.upsert` raises
pub data Fault : Type 0 where
  sound read_raises upsert_raises : Fault

-- RECENT_DAYS, in seconds
abbrev pub recent_seconds : ℕ
recent_seconds = 30 * 86400

abbrev pub read_cursor : Option (Option ℕ) → ℕ
read_cursor none = 0
read_cursor (some value) = Option.get_or value 0

-- WHERE id > ? ORDER BY id ASC
unfoldable pub rows_after : ℕ → List LogRow → List LogRow
unfolding filter sort_by
rows_after cursor query_log =
    sort_by (λ a b. leb a.id b.id) (filter (λ r. ltb cursor r.id) query_log)

-- max(int(r["id"]) for r in rows), of the rest of the rows and the largest so far
unfoldable pub last_id : ℕ → List LogRow → ℕ
last_id seen [] = seen
last_id seen (r ∷ rows) = last_id (max seen r.id) rows

module _ {S : Type 0} (f : Reals S) where
  unfoldable pub per_row_weight : Kind → Option ℕ → ℕ → S
  per_row_weight get rank age =
      f.mul f.get_weight (if leb age recent_seconds then f.one else f.half)
  per_row_weight search none age = f.nought
  per_row_weight search (some zero) age = f.nought
  per_row_weight search (some (suc rank)) age =
      f.mul (f.divide f.search_weight_root (suc rank))
        (if leb age recent_seconds then f.one else f.half)
  per_row_weight other rank age = f.nought

  -- whether a reason to skip the memory is given
  unfoldable pub is_skip : Note S → ℕ → Bool
  is_skip note now =
      if is_some note.deprecated_by
      then true
      else elim note.valid_to [ none ↦ false | some at ↦ leb at now ]

  abbrev pub current_importance : Note S → S
  current_importance note = Option.get_or note.importance f.half

  -- min(a, b)
  abbrev pub least : S → S → S
  least a b = if f.less b a then b else a

  -- the weights of the rows, memory by memory, in the order of their first rows
  unfoldable pub add_row : ℕ → LogRow → Table S → Table S
  unfolding per_row_weight upsert
  add_row now row weights = elim row.ts [
    | none ↦ weights
    | some ts ↦
        let weight = per_row_weight row.kind row.rank (now - ts) in
        if f.leq weight f.nought
        then weights
        else upsert row.memory_id (f.add f.nought weight) (λ w. f.add w weight) weights
  ]

  unfoldable pub add_rows : ℕ → List LogRow → Table S → Table S
  unfolding add_row
  add_rows now [] weights = weights
  add_rows now (row ∷ rows) weights = add_rows now rows (add_row now row weights)

  -- the bump of one memory, if it gets one
  unfoldable pub propose : ℕ → S → Note S → Option (ImportanceUpdate S)
  unfolding is_skip
  propose now raw_bump note =
      let current = current_importance note in
      let proposed = least f.one (f.add current (least f.max_bump_per_run raw_bump)) in
      if is_skip note now
      then none
      else if f.leq f.one current
      then none
      else if f.leq proposed current
      then none
      else some (record { current = current; proposed = proposed })

  abbrev pub add_update :
      ℕ → Option (ImportanceUpdate S) → Table (ImportanceUpdate S) → Table (ImportanceUpdate S)
  add_update m none updates = updates
  add_update m (some u) updates = (m, u) ∷ updates

  unfoldable pub propose_all : ℕ → Table (Note S) → Table S → Table (ImportanceUpdate S)
  unfolding propose
  propose_all now memories [] = []
  propose_all now memories ((m, raw_bump) ∷ weights) =
      add_update m (Option.bind (lookup m memories) (propose now raw_bump))
        (propose_all now memories weights)

  abbrev pub bump : ImportanceUpdate S → S
  bump u = f.sub u.proposed u.current

  abbrev pub plan_rows : ℕ → ℕ → Table (Note S) → List LogRow → ImportancePlan S
  plan_rows now cursor memories [] = record { updates = []; last_seen_id = cursor }
  plan_rows now cursor memories (row ∷ rows) = record {
    updates =
        sort_by (λ a b. not (f.less (bump a.1) (bump b.1)))
          (propose_all now memories (add_rows now (row ∷ rows) []));
    last_seen_id = last_id row.id rows;
  }

  unfoldable pub compute_importance_updates : ℕ → State S → ImportancePlan S
  unfolding rows_after last_id add_rows propose_all
  compute_importance_updates now s =
      let cursor = read_cursor s.cursor in
      plan_rows now cursor s.memories (rows_after cursor s.query_log)

  abbrev pub set_importance : S → Note S → Note S
  set_importance proposed note = record note { importance = some proposed }

  -- one update of the plan, on the memory as it is by then; the count is of the memories written
  unfoldable pub apply_one : ℕ → ℕ → ImportanceUpdate S → State S × ℕ → State S × ℕ
  unfolding is_skip modify
  apply_one now m u (s, n) = elim (lookup m s.memories) [
    | none ↦ (s, n)
    | some note ↦ if is_skip note now then (s, n) else (
      record s {
        memories = modify m (set_importance u.proposed) s.memories;
        reindexed = m ∷ s.reindexed;
      },
      suc n,
    )
  ]

  unfoldable pub apply_all : ℕ → Table (ImportanceUpdate S) → State S × ℕ → State S × ℕ
  unfolding apply_one
  apply_all now [] run = run
  apply_all now ((m, u) ∷ updates) run = apply_all now updates (apply_one now m u run)

  -- the state in which an exception leaves the application at this memory: none where it raises none. The vault
  -- is written before the index is.
  unfoldable pub raised_at : Fault → ℕ → ℕ → ImportanceUpdate S → State S → Option (State S)
  unfolding is_skip modify
  raised_at sound now m u s = none
  raised_at read_raises now m u s = elim (lookup m s.memories) [ none ↦ none | some note ↦ some s ]
  raised_at upsert_raises now m u s = elim (lookup m s.memories) [
    | none ↦ none
    | some note ↦
        if is_skip note now
        then none
        else some (record s { memories = modify m (set_importance u.proposed) s.memories })
  ]

  -- the loop over the updates, with whether it was left by an exception
  unfoldable pub apply_until :
      (ℕ → Fault) → ℕ → Table (ImportanceUpdate S) → State S × ℕ → (State S × ℕ) × Bool
  unfolding raised_at apply_one
  apply_until faults now [] run = (run, false)
  apply_until faults now ((m, u) ∷ updates) run =
      let rest = apply_until faults now updates (apply_one now m u run) in
      elim (raised_at (faults m) now m u run.0) [ none ↦ rest | some s ↦ ((s, run.1), true) ]

  -- the whole function with its exceptions: none for the count where it raises, with the cursor where it was
  unfoldable pub apply_with_faults :
      (ℕ → Fault) → ℕ → ImportancePlan S → State S → State S × Option ℕ
  unfolding apply_until
  apply_with_faults faults now plan s =
      let (run, raised) = apply_until faults now plan.updates (s, 0) in
      if raised
      then (run.0, none)
      else (record run.0 { cursor = some (some plan.last_seen_id) }, some run.1)

  -- the function where nothing raises
  unfoldable pub apply_importance_updates : ℕ → ImportancePlan S → State S → State S × ℕ
  unfolding apply_all
  apply_importance_updates now plan s =
      let (after, n) = apply_all now plan.updates (s, 0) in
      (record after { cursor = some (some plan.last_seen_id) }, n)

  unfoldable pub reset_cursor : State S → State S
  reset_cursor s = record s { cursor = none }
