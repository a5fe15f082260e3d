-- ===== src/Tests/QueryLog.antt =====
-- A log of two rows with one batch put aside, and JSON that writes the numbers of the rows one after another.
use mathlib.Core.List.{Perm}
use Prim.Native.Nat.{◌/◌}
use memstem.Prelude.{
  ℕ, zero, suc, ◌+◌, ◌-◌, ◌*◌, ◌≤◌, ◌<◌, ◌≡◌, refl, true, false, Option, some, none, List, [], ◌∷◌,
  ◌++◌, arith, length, filter, elem, All, leb, if◌then◌else◌,
}
use memstem.Prelude.Sorting.{sort_by}
use memstem.Prelude.Table.{Table, lookup, upsert, remove}
use memstem.QueryLog.{
  Codec, Row, File, Log, max_pending_bytes, max_pending_files, total_size, writer_busy, free,
  System, pending_rows, log_rows, maybe_prune,
}
use memstem.QueryLog.Pending.{log_rows-IsBounded}
use memstem.QueryLog.Prune.{IsById, maybe_prune-oldest, log_rows-IsById}
use memstem.QueryLog.Replay.{texts, kept, queued}
use memstem.QueryLog.RoundTrip.{log_rows-roundtrip}

abbrev opened : ℕ → ℕ → Row
opened now m = some now ∷ some 1 ∷ none ∷ none ∷ some m ∷ none ∷ none ∷ []

abbrev write_row : Row → List ℕ
write_row [] = 1 ∷ []
write_row (none ∷ r) = 0 ∷ write_row r
write_row (some n ∷ r) = (n + 2) ∷ write_row r

abbrev write_all : List Row → List ℕ
write_all [] = []
write_all (r ∷ rows) = write_row r ++ write_all rows

-- the rows read so far stand in reverse before the row that is being read
abbrev put : Option ℕ → List Row → List Row
put v [] = (v ∷ []) ∷ []
put v (r ∷ rows) = (v ∷ r) ∷ rows

abbrev read_all : List ℕ → List Row
read_all [] = []
read_all (zero ∷ text) = put none (read_all text)
read_all (suc zero ∷ text) = [] ∷ read_all text
read_all (suc (suc n) ∷ text) = put (some n) (read_all text)

abbrev codec : Codec
codec = record { dumps = write_all; loads = λ text. some (some (read_all text)) }

abbrev batch : File
batch = record { payload = write_row (opened 4 2); is_symlink = false }

-- memory 3 is gone
abbrev s : Log
s = record {
  has_directory = true;
  pending = (8, batch) ∷ [];
  memories = 1 ∷ 2 ∷ [];
  query_log = (1, opened 1 1) ∷ (2, opened 2 2) ∷ [];
  next_id = 3;
}

abbrev system : System
system = record { disk = true; synced = true; new_name = 5; refused = [] }

abbrev late_rows : List Row
late_rows = opened 5 1 ∷ opened 5 3 ∷ []

after-run :
    texts
      (log_rows codec free system
        (opened 6 1 ∷ [])
        0
        (log_rows codec writer_busy system late_rows 0 s)).query_log
    ≡ opened 1 1 ∷ opened 2 2 ∷ opened 5 1 ∷ opened 4 2 ∷ opened 6 1 ∷ []
unfolding log_rows upsert remove sort_by elem filter
after-run = refl

log_rows-IsBounded_example :
    (length (log_rows codec writer_busy system late_rows 0 s).pending ≤ max_pending_files)
    × (total_size (log_rows codec writer_busy system late_rows 0 s).pending ≤ max_pending_bytes)
log_rows-IsBounded_example =
    log_rows-IsBounded codec writer_busy system late_rows 0 s (omega arith) (omega arith)

log_rows-IsById_run :
    IsById 0
      (log_rows codec free system late_rows 0 s).next_id
      (log_rows codec free system late_rows 0 s).query_log
log_rows-IsById_run =
    log_rows-IsById codec free system late_rows 0 s (omega arith, (omega arith, omega arith))

maybe_prune-oldest_example :
    (gone : Table Row) × (s.query_log ≡ gone ++ (maybe_prune 1 s).query_log)
    × (length gone ≡ (if leb (length s.query_log) 1 then 0 else length s.query_log - 1 * 9 / 10))
    × (length (maybe_prune 1 s).query_log ≤ 1)
    × All (λ e. All (λ e'. e.0 < e'.0) (maybe_prune 1 s).query_log) gone
maybe_prune-oldest_example =
    maybe_prune-oldest 1 s (omega arith) (omega arith, (omega arith, omega arith))

log_rows-roundtrip_example :
    let busy = log_rows codec writer_busy system late_rows 0 s in
    let after = log_rows codec free system (opened 6 1 ∷ []) 0 busy in
    (busy.query_log ≡ s.query_log)
    × Perm (texts after.query_log) (
        texts s.query_log
        ++ (kept s.memories late_rows ++ queued codec s.memories s.pending)
        ++ opened 6 1 ∷ [])
    × (lookup 5 after.pending ≡ none)
unfolding lookup elem filter pending_rows
log_rows-roundtrip_example =
    log_rows-roundtrip codec system system late_rows (opened 6 1 ∷ []) 0 s refl refl refl
      (omega arith) (omega arith) (omega arith) refl refl refl (refl, (refl, tt)) (refl, tt)
      (refl, tt)
