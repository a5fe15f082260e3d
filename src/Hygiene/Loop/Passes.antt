-- ===== src/Hygiene/Loop/Passes.antt =====
-- src/memstem/hygiene/loop.py: which stages a tick of the loop runs, and what it leaves of each.
use memstem.Prelude.{
  ℕ, ◌+◌, ◌≡◌, refl, ap, ◌∙◌, Bool, true, false, ◌&&◌, Option, none, some, List, [], ◌∷◌, arith,
  leb, ◌==◌, ==_iff, if◌then◌else◌, Bool-cases, inl, inr, All,
}
use memstem.Prelude.Table.{Table, lookup, upsert, lookup-put, Distinct}
use memstem.Hygiene.{Stamp, at, may_claim, claim, acquire_stage_lock, release_stage_lock}
use memstem.Hygiene.Races.{same_stamp_self}
use memstem.Hygiene.Loop.{
  StageRow, row_of, due_for_run, set_last_run, Outcome, returns, raises, cancelled, Stage, Pass,
  idle, ran, stopped, run_stage, maybe_run_stage, go_on, tick,
}

-- whether a pass calls the function of a stage: it is due, and no other runner has a fresh lock
abbrev pub runs : ℕ → Stage → StageRow → Bool
runs max_age stage row =
    due_for_run stage.interval_seconds stage.checked row
    && may_claim max_age stage.locked row.running_since

abbrev pub last_run_after : Outcome → ℕ → Option Stamp → Option Stamp
last_run_after returns done last = some (at done)
last_run_after raises done last = last
last_run_after cancelled done last = last

abbrev pub pass_of : Outcome → Pass
pass_of returns = ran
pass_of raises = ran
pass_of cancelled = stopped

-- the row after a stage that was run
abbrev pub after_run : Stage → StageRow → StageRow
after_run stage row = record {
  last_run = last_run_after stage.outcome stage.done row.last_run;
  running_since = none;
}

acquire_claims :
    (max_age now : ℕ) (row : Option Stamp)
    → acquire_stage_lock max_age now row
      ≡ (if may_claim max_age now row then (some (at now), true) else (row, false))
unfolding acquire_stage_lock claim
acquire_claims max_age now none = refl
acquire_claims max_age now (some held) = rw (same_stamp_self held) refl

run_stage-after :
    (stage : Stage) (row : StageRow)
    → run_stage stage row ≡ (after_run stage row, pass_of stage.outcome)
unfolding run_stage release_stage_lock set_last_run
run_stage-after stage row = ground arith

maybe_run_stage-runs :
    (max_age : ℕ) (stage : Stage) (row : StageRow)
    → maybe_run_stage max_age stage row ≡ (
        if runs max_age stage row
        then (after_run stage row, pass_of stage.outcome)
        else (row, idle))
unfolding maybe_run_stage
maybe_run_stage-runs max_age stage row =
    rw (acquire_claims max_age stage.locked row.running_since)
      (elim (Bool-cases (due_for_run stage.interval_seconds stage.checked row)) [
        | inl due ↦ elim (Bool-cases (may_claim max_age stage.locked row.running_since)) [
          | inl may ↦
              rw (due, may)
                (run_stage-after stage (record row { running_since = some (at stage.locked) }))
          | inr held ↦ rw (due, held) refl
        ]
        | inr early ↦ rw early refl
      ])

abbrev pub stage_after : ℕ → Option Stage → StageRow → StageRow
stage_after max_age none row = row
stage_after max_age (some stage) row = if runs max_age stage row then after_run stage row else row

abbrev pub GoesOn : Stage → Type 0
GoesOn stage = pass_of stage.outcome ≡ ran

-- the two parts of one stage of a tick, where the loop is not cancelled
tick_cons :
    (max_age name : ℕ) (stage : Stage) (stages : Table Stage) (s : Table StageRow)
    → GoesOn stage
    → let row = stage_after max_age (some stage) (row_of name s) in
      let rest = tick max_age stages (upsert name row (λ _. row) s) in
      tick max_age ((name, stage) ∷ stages) s
      ≡ (rest.0, if runs max_age stage (row_of name s) then name ∷ rest.1 else rest.1)
unfolding tick
tick_cons max_age name stage stages s on =
    let next : StageRow × Pass → Table StageRow × List ℕ = λ out.
      let s' = upsert name out.0 (λ _. out.0) s in go_on out.1 name s' (tick max_age stages s') in
    ap next (maybe_run_stage-runs max_age stage (row_of name s))
    ∙ elim (Bool-cases (runs max_age stage (row_of name s))) [
      | inl e ↦ rw (e, on) refl
      | inr e ↦ rw e refl
    ]

row_of-upsert :
    (name j : ℕ) (row : StageRow) (s : Table StageRow)
    → row_of j (upsert name row (λ _. row) s) ≡ (if name == j then row else row_of j s)
row_of-upsert name j row s =
    rw lookup-put (elim (Bool-cases (name == j)) [ inl e ↦ rw e refl | inr e ↦ rw e refl ])

tick_rows :
    (max_age : ℕ) (stages : Table Stage) (s : Table StageRow) (j : ℕ)
    → Distinct stages
    → All (λ e. GoesOn e.1) stages
    → row_of j (tick max_age stages s).0 ≡ stage_after max_age (lookup j stages) (row_of j s)
unfolding tick lookup
tick_rows max_age [] s j d on = refl
tick_rows max_age ((name, stage) ∷ stages) s j d on =
    let row = stage_after max_age (some stage) (row_of name s) in
    let rest = tick_rows max_age stages (upsert name row (λ _. row) s) j d.1 on.1 in
    let own = row_of-upsert name j row s in
    rw (tick_cons max_age name stage stages s on.0) (elim (Bool-cases (name == j)) [
      | inl e ↦
          let same : name ≡ j = (==_iff name j).0 e in
          let absent : lookup j stages ≡ none = rw (← same) (d.0) in
          rest ∙ rw (absent, e, own, e, same) refl
      | inr e ↦ rest ∙ rw (e, own, e) refl
    ])

-- the stages that are due and free, by the rows as they are before the tick
abbrev pub called : ℕ → Table Stage → Table StageRow → List ℕ
called max_age [] s = []
called max_age ((name, stage) ∷ stages) s =
    if runs max_age stage (row_of name s)
    then name ∷ called max_age stages s
    else called max_age stages s

called-upsert :
    (max_age name : ℕ) (row : StageRow) (stages : Table Stage) (s : Table StageRow)
    → lookup name stages ≡ none
    → called max_age stages (upsert name row (λ _. row) s) ≡ called max_age stages s
unfolding lookup
called-upsert max_age name row [] s h = refl
called-upsert max_age name row ((n, stage) ∷ stages) s h =
    let apart : (name == n) ≡ false = ground (arith, h, ==_iff n name, ==_iff name n) in
    let rest : lookup name stages ≡ none = ground (arith, h, ==_iff n name) in
    let other : row_of n (upsert name row (λ _. row) s) ≡ row_of n s =
      row_of-upsert name n row s ∙ rw apart refl in
    rw (other, called-upsert max_age name row stages s rest) refl

go_on-called :
    (max_age : ℕ) (stages : Table Stage) (s : Table StageRow)
    → Distinct stages
    → All (λ e. GoesOn e.1) stages
    → (tick max_age stages s).1 ≡ called max_age stages s
unfolding tick lookup
go_on-called max_age [] s d on = refl
go_on-called max_age ((name, stage) ∷ stages) s d on =
    let row = stage_after max_age (some stage) (row_of name s) in
    let rest =
      go_on-called max_age stages (upsert name row (λ _. row) s) d.1 on.1
      ∙ called-upsert max_age name row stages s d.0 in
    rw (tick_cons max_age name stage stages s on.0, rest) refl

-- A tick of stages with different names that is not cancelled calls exactly the stages that are due and whose lock
-- is free or stale, in their order. Each of them ends with its lock free, and with the time of this run as its
-- last one where it returned; where it raised, its last run is what it was. No stage changes what another one does
-- or leaves: a stage that is not called keeps its rows, whatever the others do.
pub tick-called :
    (max_age : ℕ) (stages : Table Stage) (s : Table StageRow)
    → Distinct stages
    → All (λ e. pass_of e.1.outcome ≡ ran) stages
    → ((tick max_age stages s).1 ≡ called max_age stages s)
      × ((j : ℕ)
          → row_of j (tick max_age stages s).0 ≡ elim (lookup j stages) [
            | none ↦ row_of j s
            | some stage ↦
                if runs max_age stage (row_of j s)
                then record {
                  last_run = last_run_after stage.outcome stage.done (row_of j s).last_run;
                  running_since = none;
                }
                else row_of j s
          ])
tick-called max_age stages s d on = (
  go_on-called max_age stages s d on,
  λ j. tick_rows max_age stages s j d on ∙ by_stage j (lookup j stages),
)
  where
    by_stage :
        (j : ℕ) (stage : Option Stage)
        → stage_after max_age stage (row_of j s) ≡ elim stage [
          | none ↦ row_of j s
          | some stage ↦
              if runs max_age stage (row_of j s)
              then record {
                last_run = last_run_after stage.outcome stage.done (row_of j s).last_run;
                running_since = none;
              }
              else row_of j s
        ]
    by_stage j none = refl
    by_stage j (some stage) = refl

next_due :
    (max_age : ℕ) (next : Stage) (outcome : Outcome) (done : ℕ) (row : StageRow)
    → runs max_age next
        (record { last_run = last_run_after outcome done row.last_run; running_since = none })
      ≡ elim outcome [
        | returns ↦ leb (done + next.interval_seconds) next.checked
        | raises ↦ due_for_run next.interval_seconds next.checked row
        | cancelled ↦ due_for_run next.interval_seconds next.checked row
      ]
unfolding due_for_run may_claim
next_due max_age next returns done row = ground arith
next_due max_age next raises done row = ground arith
next_due max_age next cancelled done row = ground arith

-- After a stage was called, the next pass calls it again exactly when it is due: where it returned, when its
-- interval has gone by since the end of that run, and where it raised, as soon as the next pass finds it due,
-- for no lock is left.
pub maybe_run_stage-next :
    (max_age max_age' : ℕ) (stage next : Stage) (row : StageRow)
    → runs max_age stage row ≡ true
    → runs max_age' next (maybe_run_stage max_age stage row).0 ≡ elim stage.outcome [
      | returns ↦ leb (stage.done + next.interval_seconds) next.checked
      | raises ↦ due_for_run next.interval_seconds next.checked row
      | cancelled ↦ due_for_run next.interval_seconds next.checked row
    ]
unfolding due_for_run
maybe_run_stage-next max_age max_age' stage next row called =
    rw (maybe_run_stage-runs max_age stage row, called)
      (next_due max_age' next stage.outcome stage.done row)
