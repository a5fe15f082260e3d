-- ===== src/Hygiene/Loop.antt =====
-- src/memstem/hygiene/loop.py with src/memstem/hygiene/state.py: the loop that runs the stages of the hygiene when
-- they are due. What a stage does is an outcome, and the clock is read once for each of its steps.
pub mod Passes
use mathlib.Core.Option
use memstem.Prelude.{
  ℕ, ◌+◌, Bool, true, false, Option, none, some, List, [], ◌∷◌, leb, if◌then◌else◌, map, filter,
  is_some,
}
use memstem.Prelude.Table.{Table, lookup, upsert}
use memstem.Hygiene.{Stamp, at, unparseable, acquire_stage_lock, release_stage_lock}

-- the rows `last_run:<stage>` and `running_since:<stage>` of hygiene_state
pub record StageRow : Type 0 where
  pub last_run : Option Stamp
  pub running_since : Option Stamp

abbrev pub new_row : StageRow
new_row = record { last_run = none; running_since = none }

abbrev pub row_of : ℕ → Table StageRow → StageRow
row_of stage s = Option.get_or (lookup stage s) new_row

-- the value of a key: none where it is no time
abbrev pub parse_iso : Option Stamp → Option ℕ
parse_iso none = none
parse_iso (some (unparseable v)) = none
parse_iso (some (at t)) = some t

unfoldable pub get_last_run : StageRow → Option ℕ
get_last_run row = parse_iso row.last_run

unfoldable pub get_lock_holder : StageRow → Option ℕ
get_lock_holder row = parse_iso row.running_since

unfoldable pub set_last_run : ℕ → StageRow → StageRow
set_last_run ts row = record row { last_run = some (at ts) }

unfoldable pub due_for_run : ℕ → ℕ → StageRow → Bool
unfolding get_last_run
due_for_run interval_seconds now row = elim (get_last_run row) [
  | none ↦ true
  | some last ↦ leb (last + interval_seconds) now
]

-- what the function of a stage does: it returns, it raises, or the loop is cancelled while it runs
pub data Outcome : Type 0 where
  returns raises cancelled : Outcome

-- a stage of the loop, with the clock at the check, at the lock and at the end
pub record Stage : Type 0 where
  pub interval_seconds : ℕ
  pub outcome : Outcome
  pub checked : ℕ
  pub locked : ℕ
  pub done : ℕ

-- whether the function of the stage was called, and whether the loop is cancelled
pub data Pass : Type 0 where
  idle ran stopped : Pass

abbrev pub release : StageRow → StageRow
release row = record row { running_since = release_stage_lock row.running_since }

-- the `try` around the function; a cancellation releases the lock twice
unfoldable pub run_stage : Stage → StageRow → StageRow × Pass
unfolding set_last_run release_stage_lock
run_stage stage row = elim stage.outcome [
  | returns ↦ (release (set_last_run stage.done row), ran)
  | raises ↦ (release row, ran)
  | cancelled ↦ (release (release row), stopped)
]

unfoldable pub maybe_run_stage : ℕ → Stage → StageRow → StageRow × Pass
unfolding due_for_run acquire_stage_lock run_stage
maybe_run_stage max_age stage row =
    let (held, acquired) = acquire_stage_lock max_age stage.locked row.running_since in
    if due_for_run stage.interval_seconds stage.checked row
    then if acquired
      then run_stage stage (record row { running_since = held })
      else (record row { running_since = held }, idle)
    else (row, idle)

-- a cancellation ends the tick
abbrev pub go_on : Pass → ℕ → Table StageRow → Table StageRow × List ℕ → Table StageRow × List ℕ
go_on idle name s rest = rest
go_on ran name s rest = (rest.0, name ∷ rest.1)
go_on stopped name s rest = (s, name ∷ [])

-- the stages in their order, and those whose function was called
unfoldable pub tick : ℕ → Table Stage → Table StageRow → Table StageRow × List ℕ
unfolding maybe_run_stage upsert
tick max_age [] s = (s, [])
tick max_age ((name, stage) ∷ stages) s =
    let out = maybe_run_stage max_age stage (row_of name s) in
    let s' = upsert name out.0 (λ _. out.0) s in go_on out.1 name s' (tick max_age stages s')

-- `last_run` and `running` for /health
unfoldable pub snapshot : List ℕ → Table StageRow → List (ℕ × Option ℕ) × List ℕ
unfolding get_last_run get_lock_holder filter
snapshot all_stages s = (
  map (λ stage. (stage, get_last_run (row_of stage s))) all_stages,
  filter (λ stage. is_some (get_lock_holder (row_of stage s))) all_stages,
)
