-- ===== src/Tests/Loop.antt =====
-- A tick over three stages: one that is due and returns, one that is due and raises, one that another runner holds.
use memstem.Prelude.{ℕ, ◌+◌, ◌≡◌, refl, some, none, [], ◌∷◌, leb, if◌then◌else◌}
use memstem.Prelude.Table.{Table, lookup, upsert}
use memstem.Hygiene.{at, may_claim}
use memstem.Hygiene.Loop.{
  StageRow, row_of, Outcome, returns, raises, Stage, due_for_run, maybe_run_stage, tick,
}
use memstem.Hygiene.Loop.Passes.{runs, last_run_after, called, tick-called, maybe_run_stage-next}

abbrev stage : Outcome → Stage
stage outcome = record {
  interval_seconds = 10;
  outcome = outcome;
  checked = 100;
  locked = 101;
  done = 120;
}

abbrev stages : Table Stage
stages = (1, stage returns) ∷ (2, stage raises) ∷ (3, stage returns) ∷ []

-- stage 1 ran at 90, stage 2 never, and stage 3 is held since 99
abbrev rows : Table StageRow
rows =
    (1, record { last_run = some (at 90); running_since = none })
    ∷ (3, record { last_run = none; running_since = some (at 99) })
    ∷ []

tick-run : (tick 3600 stages rows).1 ≡ 1 ∷ 2 ∷ []
unfolding tick lookup upsert may_claim
tick-run = refl

tick-called_example :
    ((tick 3600 stages rows).1 ≡ called 3600 stages rows)
    × ((j : ℕ)
        → row_of j (tick 3600 stages rows).0 ≡ elim (lookup j stages) [
          | none ↦ row_of j rows
          | some stage ↦
              if runs 3600 stage (row_of j rows)
              then record {
                last_run = last_run_after stage.outcome stage.done (row_of j rows).last_run;
                running_since = none;
              }
              else row_of j rows
        ])
unfolding lookup
tick-called_example =
    tick-called 3600 stages rows (refl, (refl, (refl, tt))) (refl, (refl, (refl, tt)))

abbrev first : StageRow
first = record { last_run = some (at 90); running_since = none }

later-run :
    runs 3600 (stage returns) (maybe_run_stage 3600 (stage returns) first).0 ≡ leb (120 + 10) 100
unfolding due_for_run may_claim
later-run = maybe_run_stage-next 3600 3600 (stage returns) (stage returns) first refl
