-- ===== src/QueryLog/Prune.antt =====
-- src/memstem/core/retrieval_log.py: which rows the cap of the query log takes away.
use memstem.Prelude.{
  ℕ, zero, suc, ◌-◌, ◌*◌, ◌/◌, ◌≤◌, ◌<◌, ◌≡◌, refl, sym, true, false, Bool, some, List, [], ◌∷◌,
  ◌++◌, arith, length, length-take, length-drop, take, drop, take-drop, All, leb, ◌==◌,
  if◌then◌else◌, Bool-cases, Option-cases, inl, inr,
}
use memstem.Prelude.Table.{Table}
use memstem.QueryLog.{
  Codec, Row, File, Log, append_row, insert_existing, insert_all, replay_files, pending_rows,
  replay, replay_from, remove_replayed, maybe_prune, write_rows, Contention, lock_busy, writer_busy,
  free, System, enqueue, log_rows, sorted_files,
}

-- the rows stand by id, the ids from `lo` to below `hi`
abbrev pub IsById : ℕ → ℕ → Table Row → Type 0
IsById lo hi [] = lo ≤ hi
IsById lo hi ((i, r) ∷ t) = (lo ≤ i) × IsById (suc i) hi t

IsById-weaken : (lo lo' hi : ℕ) (t : Table Row) → lo ≤ lo' → IsById lo' hi t → IsById lo hi t
IsById-weaken lo lo' hi [] le b = omega (arith, le, b)
IsById-weaken lo lo' hi ((i, r) ∷ t) le b = (omega (arith, le, b.0), b.1)

IsById-append :
    (lo hi : ℕ) (r : Row) (t : Table Row) → IsById lo hi t → IsById lo (suc hi) (t ++ (hi, r) ∷ [])
IsById-append lo hi r [] b = (b, omega arith)
IsById-append lo hi r ((i, q) ∷ t) b = (b.0, IsById-append (suc i) hi r t b.1)

IsById-drop : (n lo hi : ℕ) (t : Table Row) → IsById lo hi t → IsById lo hi (drop n t)
IsById-drop zero lo hi t b = b
IsById-drop (suc n) lo hi [] b = b
IsById-drop (suc n) lo hi ((i, r) ∷ t) b =
    IsById-weaken lo (suc i) hi (drop n t) (omega (arith, b.0)) (IsById-drop n (suc i) hi t b.1)

IsById-above : (lo i hi : ℕ) (t : Table Row) → IsById lo hi t → i < lo → All (λ e. i < e.0) t
IsById-above lo i hi [] b lt = tt
IsById-above lo i hi ((j, r) ∷ t) b lt =
    (omega (arith, b.0, lt), IsById-above (suc j) i hi t b.1 (omega (arith, b.0, lt)))

-- what is taken from the front is older than what is left
IsById-split :
    (n lo hi : ℕ) (t : Table Row)
    → IsById lo hi t
    → All (λ e. All (λ e'. e.0 < e'.0) (drop n t)) (take n t)
IsById-split zero lo hi t b = tt
IsById-split (suc n) lo hi [] b = tt
IsById-split (suc n) lo hi ((i, r) ∷ t) b = (
  IsById-above (suc i) i hi (drop n t) (IsById-drop n (suc i) hi t b.1) (omega arith),
  IsById-split n (suc i) hi t b.1,
)

-- With a cap, a prune leaves no more rows than the cap, and what it takes away are the oldest: nothing while
-- the log is within the cap, and else all but nine tenths of the cap.
pub maybe_prune-oldest :
    (max_rows : ℕ) (s : Log)
    → 0 < max_rows
    → IsById 0 s.next_id s.query_log
    → (gone : Table Row) × (s.query_log ≡ gone ++ (maybe_prune max_rows s).query_log)
      × (length gone ≡ (
          if leb (length s.query_log) max_rows then 0 else length s.query_log - max_rows * 9 / 10))
      × (length (maybe_prune max_rows s).query_log ≤ max_rows)
      × All (λ e. All (λ e'. e.0 < e'.0) (maybe_prune max_rows s).query_log) gone
unfolding maybe_prune
maybe_prune-oldest max_rows s positive by_id =
    let log = s.query_log in
    let n = length log - max_rows * 9 / 10 in
    let capped : (max_rows == 0) ≡ false = ground (arith, positive) in
    elim (Bool-cases (leb (length log) max_rows)) [
      | inl e ↦ rw (capped, e) ([], refl, refl, ground (arith, e), tt)
      | inr e ↦
          rw (capped, e)
            (
              take n log,
              sym (take-drop n log),
              omega (arith, length-take n log),
              omega (arith, length-drop n log),
              IsById-split n 0 s.next_id log by_id,
            )
    ]

insert_existing-IsById :
    (rows : List Row) (s s' : Log)
    → insert_existing rows s ≡ some s'
    → IsById 0 s.next_id s.query_log
    → IsById 0 s'.next_id s'.query_log
unfolding insert_existing
insert_existing-IsById [] s s' e b = let same : s ≡ s' = ground (arith, e) in rw (← same) b
insert_existing-IsById (r ∷ rows) s s' e b = ground (
  arith,
  e,
  b,
  insert_existing-IsById rows s s',
  insert_existing-IsById rows (append_row r s) s',
  IsById-append 0 s.next_id r s.query_log b,
)

insert_all-IsById :
    (rows : List Row) (s s' : Log)
    → insert_all rows s ≡ some s'
    → IsById 0 s.next_id s.query_log
    → IsById 0 s'.next_id s'.query_log
unfolding insert_all
insert_all-IsById [] s s' e b = let same : s ≡ s' = ground (arith, e) in rw (← same) b
insert_all-IsById (r ∷ rows) s s' e b = ground (
  arith,
  e,
  b,
  insert_all-IsById rows (append_row r s) s',
  IsById-append 0 s.next_id r s.query_log b,
)

replay_files-IsById :
    (codec : Codec) (files : Table File) (completed names : List ℕ) (s s' : Log)
    → replay_files codec files completed s ≡ some (s', names)
    → IsById 0 s.next_id s.query_log
    → IsById 0 s'.next_id s'.query_log
unfolding replay_files
replay_files-IsById codec [] completed names s s' e b =
    let same : s ≡ s' = ground (arith, e) in rw (← same) b
replay_files-IsById codec ((name, file) ∷ files) completed names s s' e b =
    elim (Option-cases (pending_rows codec file)) [
      | inl bad ↦
          replay_files-IsById codec files completed names s s' (rw (replay_files, bad) at e) b
      | inr (rows, good) ↦ elim (Option-cases (insert_existing rows s)) [
        | inl fails ↦ absurd (ground (arith, rw (replay_files, good, fails) at e))
        | inr (t, done) ↦
            replay_files-IsById codec files (completed ++ name ∷ []) names t s'
              (rw (replay_files, good, done) at e) (insert_existing-IsById rows s t done b)
      ]
    ]

replay_from-IsById :
    (on : Bool) (codec : Codec) (s s' : Log) (names : List ℕ)
    → replay_from on codec s ≡ some (s', names)
    → IsById 0 s.next_id s.query_log
    → IsById 0 s'.next_id s'.query_log
replay_from-IsById true codec s s' names e b =
    replay_files-IsById codec (take 100 (sorted_files s)) [] names s s' e b
replay_from-IsById false codec s s' names e b =
    let same : s ≡ s' = ground (arith, e) in rw (← same) b

maybe_prune-IsById :
    (max_rows : ℕ) (s : Log)
    → IsById 0 s.next_id s.query_log
    → IsById 0 (maybe_prune max_rows s).next_id (maybe_prune max_rows s).query_log
unfolding maybe_prune
maybe_prune-IsById max_rows s b =
    ground
      (arith, b, IsById-drop (length s.query_log - max_rows * 9 / 10) 0 s.next_id s.query_log b)

remove_replayed-IsById :
    (refused paths : List ℕ) (s : Log)
    → IsById 0 s.next_id s.query_log
    → IsById 0 (remove_replayed refused paths s).next_id (remove_replayed refused paths s).query_log
unfolding remove_replayed
remove_replayed-IsById refused [] s b = b
remove_replayed-IsById refused (name ∷ paths) s b = remove_replayed-IsById refused paths _ b

-- Whatever a log write meets, the rows of the log stand in the order of their ids, each below the next new one:
-- a row that is written later, from a batch or at once, has the higher id.
pub log_rows-IsById :
    (codec : Codec) (contention : Contention) (system : System) (rows : List Row) (max_rows : ℕ)
    (s : Log)
    → IsById 0 s.next_id s.query_log
    → IsById 0
        (log_rows codec contention system rows max_rows s).next_id
        (log_rows codec contention system rows max_rows s).query_log
unfolding log_rows write_rows replay enqueue
log_rows-IsById codec lock_busy system rows max_rows s b = b
log_rows-IsById codec writer_busy system rows max_rows s b = ground (arith, b)
log_rows-IsById codec free system rows max_rows s b =
    elim (Option-cases (replay_from s.has_directory codec s)) [
      | inl e ↦ rw (write_rows, e) b
      | inr ((t, names), e) ↦ elim (Option-cases (insert_all rows t)) [
        | inl fails ↦ rw (write_rows, e, fails) b
        | inr (u, done) ↦
            let kept = replay_from-IsById s.has_directory codec s t names e b in
            rw (write_rows, e, done)
              (remove_replayed-IsById system.refused names (maybe_prune max_rows u)
                (maybe_prune-IsById max_rows u (insert_all-IsById rows t u done kept)))
      ]
    ]
