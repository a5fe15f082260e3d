-- ===== src/QueryLog.antt =====
-- src/memstem/core/retrieval_log.py and src/memstem/core/retrieval_pending.py: the query log, and the directory
-- of batches that could not be written because another process was writing. Text and floats of a row are
-- numbers that stand for them, NULL is none; JSON and the file system's answers are given.
pub mod Prune
pub mod Pending
pub mod Replay
pub mod RoundTrip
use mathlib.Core.Option
use memstem.Prelude.{
  ℕ, suc, ◌+◌, ◌-◌, ◌*◌, ◌/◌, Bool, true, false, not, ◌&&◌, ◌||◌, Option, none, some, List, [], ◌∷◌,
  ◌++◌, map, length, take, drop, get_elem?, elem, ltb, leb, ◌==◌, is_some, if◌then◌else◌,
}
use memstem.Prelude.Sorting.{sort_by}
use memstem.Prelude.Table.{Table, upsert, remove}

-- ts, kind, query, client, memory_id, rank, score
abbrev pub Row : Type 0
Row = List (Option ℕ)

-- `json.dumps(…).encode()`, and `json.loads` of a text: none where it raises a ValueError, and none inside for
-- JSON that is not a list of lists
pub record Codec : Type 0 where
  pub dumps : List Row → List ℕ
  pub loads : List ℕ → Option (Option (List Row))

pub record File : Type 0 where
  pub payload : List ℕ
  pub is_symlink : Bool

-- `has_directory` is false for a database in memory; the key of a pending file is its name, and the rows of
-- query_log stand behind their ids, in the order of their insertion
pub record Log : Type 0 where
  pub has_directory : Bool
  pub pending : Table File
  pub memories : List ℕ
  pub query_log : Table Row
  pub next_id : ℕ

-- MAX_PENDING_BYTES, MAX_BATCH_BYTES, MAX_PENDING_FILES
abbrev pub max_pending_bytes : ℕ
max_pending_bytes = 16 * 1024 * 1024

abbrev pub max_batch_bytes : ℕ
max_batch_bytes = 512 * 1024

abbrev pub max_pending_files : ℕ
max_pending_files = 1000

abbrev pub total_size : Table File → ℕ
total_size [] = 0
total_size ((name, file) ∷ files) = length file.payload + total_size files

-- `disk` is false where the file cannot be written, and `synced` where the directory cannot be synced then, which
-- leaves the file; `_queue_if_busy` turns both into false. The directory is read and written in one step: other
-- writers between the two are not modelled.
unfoldable pub enqueue : Codec → Bool → Bool → ℕ → List Row → Log → Bool × Log
unfolding upsert
enqueue codec disk synced name rows s =
    let payload = codec.dumps rows in
    let file : File = record { payload = payload; is_symlink = false } in
    if not s.has_directory
    then (false, s)
    else if ltb max_batch_bytes (length payload)
    then (false, s)
    else if leb max_pending_files (length s.pending)
        || ltb max_pending_bytes (total_size s.pending + length payload)
    then (false, s)
    else if disk
    then (synced, record s { pending = upsert name file (λ _. file) s.pending })
    else (false, s)

abbrev pub all_seven : List Row → Bool
all_seven [] = true
all_seven (r ∷ rows) = length r == 7 && all_seven rows

-- the rows of a pending file: none where the `try` of its replay raises before it writes
unfoldable pub pending_rows : Codec → File → Option (List Row)
pending_rows codec file =
    if file.is_symlink || ltb max_batch_bytes (length file.payload)
    then none
    else elim (codec.loads file.payload) [
      | none ↦ none
      | some none ↦ none
      | some (some rows) ↦ if all_seven rows then some rows else none
    ]

-- the value of a column: none for NULL
abbrev pub column : Row → ℕ → Option ℕ
column r i = Option.get_or (get_elem? r i) none

abbrev pub has_memory : List ℕ → Option ℕ → Bool
has_memory memories none = false
has_memory memories (some m) = elem m memories

abbrev pub append_row : Row → Log → Log
append_row r s = record s {
  query_log = s.query_log ++ (s.next_id, r) ∷ [];
  next_id = suc s.next_id;
}

-- the two columns, besides `memory_id`, that are NOT NULL
abbrev pub is_full : Row → Bool
is_full r = is_some (column r 0) && is_some (column r 1)

-- INSERT … SELECT … WHERE EXISTS(…), for each row: none where a constraint fails
unfoldable pub insert_existing : List Row → Log → Option Log
insert_existing [] s = some s
insert_existing (r ∷ rows) s =
    if has_memory s.memories (column r 4)
    then if is_full r then insert_existing rows (append_row r s) else none
    else insert_existing rows s

-- INSERT … VALUES, for each row: none where a constraint fails
unfoldable pub insert_all : List Row → Log → Option Log
insert_all [] s = some s
insert_all (r ∷ rows) s =
    if has_memory s.memories (column r 4) && is_full r
    then insert_all rows (append_row r s)
    else none

unfoldable pub replay_files : Codec → Table File → List ℕ → Log → Option (Log × List ℕ)
unfolding pending_rows insert_existing
replay_files codec [] completed s = some (s, completed)
replay_files codec ((name, file) ∷ files) completed s = elim (pending_rows codec file) [
  | none ↦ replay_files codec files completed s
  | some rows ↦ elim (insert_existing rows s) [
    | none ↦ none
    | some s' ↦ replay_files codec files (completed ++ name ∷ []) s'
  ]
]

abbrev pub sorted_files : Log → Table File
sorted_files s = sort_by (λ a b. leb a.0 b.0) s.pending

abbrev pub replay_from : Bool → Codec → Log → Option (Log × List ℕ)
replay_from true codec s = replay_files codec (take 100 (sorted_files s)) [] s
replay_from false codec s = some (s, [])

unfoldable pub replay : Codec → Log → Option (Log × List ℕ)
unfolding replay_files sort_by
replay codec s = replay_from s.has_directory codec s

-- `refused` are the files whose `unlink` raises
unfoldable pub remove_replayed : List ℕ → List ℕ → Log → Log
unfolding remove elem
remove_replayed refused [] s = s
remove_replayed refused (name ∷ paths) s =
    let kept = if elem name refused then s.pending else remove name s.pending in
    remove_replayed refused paths (record s { pending = kept })

-- int(max_rows * 0.9) is the number of rows that stay; the rows stand by id
unfoldable pub maybe_prune : ℕ → Log → Log
maybe_prune max_rows s =
    let count = length s.query_log in
    if max_rows == 0
    then s
    else if leb count max_rows
    then s
    else record s { query_log = drop (count - max_rows * 9 / 10) s.query_log }

-- the transaction of `_log_writer` with what its block does: none where it raises and is rolled back
unfoldable pub write_rows : Codec → List ℕ → List Row → ℕ → Log → Option Log
unfolding replay insert_all maybe_prune remove_replayed
write_rows codec refused rows max_rows s = elim (replay codec s) [
  | none ↦ none
  | some (s', replayed) ↦
      Option.map (λ t. remove_replayed refused replayed (maybe_prune max_rows t))
        (insert_all rows s')
]

-- what a log write meets: the shared lock is not free in time, another process is writing, or neither
pub data Contention : Type 0 where
  lock_busy writer_busy free : Contention

-- what else the system decides: whether the disk can be written and the directory synced, the name of a new
-- file, and the files that cannot be removed
pub record System : Type 0 where
  pub disk : Bool
  pub synced : Bool
  pub new_name : ℕ
  pub refused : List ℕ

unfoldable pub log_rows : Codec → Contention → System → List Row → ℕ → Log → Log
unfolding enqueue write_rows
log_rows codec lock_busy system rows max_rows s = s
log_rows codec writer_busy system rows max_rows s =
    (enqueue codec system.disk system.synced system.new_name rows s).1
log_rows codec free system rows max_rows s =
    Option.get_or (write_rows codec system.refused rows max_rows s) s

pub record LoggedHit : Type 0 where
  pub memory_id : ℕ
  pub rank : ℕ
  pub score : ℕ

-- the numbers that stand for the two kinds
abbrev pub search_kind : ℕ
search_kind = 0

abbrev pub get_kind : ℕ
get_kind = 1

abbrev pub search_row : ℕ → ℕ → Option ℕ → LoggedHit → Row
search_row timestamp query client h =
    some timestamp
    ∷ some search_kind
    ∷ some query
    ∷ client
    ∷ some h.memory_id
    ∷ some h.rank
    ∷ some h.score
    ∷ []

unfoldable pub log_search_results :
    Codec → Contention → System → ℕ → List LoggedHit → Option ℕ → ℕ → ℕ → Log → Log
unfolding log_rows
log_search_results codec contention system query [] client max_rows now s = s
log_search_results codec contention system query (h ∷ hits) client max_rows now s =
    log_rows codec contention system (map (search_row now query client) (h ∷ hits)) max_rows s

unfoldable pub log_get : Codec → Contention → System → ℕ → Option ℕ → ℕ → ℕ → Log → Log
unfolding log_rows
log_get codec contention system memory_id client max_rows now s =
    log_rows codec contention system
      ((some now ∷ some get_kind ∷ none ∷ client ∷ some memory_id ∷ none ∷ none ∷ []) ∷ []) max_rows
      s

unfoldable pub count : Log → ℕ
count s = length s.query_log
