-- ===== src/QueryLog/Pending.antt =====
-- src/memstem/core/retrieval_pending.py: how large the directory of pending batches can grow.
use mathlib.Core.Option
use memstem.Prelude.{
  ℕ, suc, ◌+◌, ◌≤◌, ◌≡◌, ◌∙◌, true, false, Bool, some, List, [], ◌∷◌, ◌++◌, arith, length, take,
  Option-cases, inl, inr,
}
use memstem.Prelude.Table.{Table, upsert, remove}
use memstem.QueryLog.{
  Codec, Row, File, Log, max_pending_bytes, max_pending_files, total_size, enqueue, append_row,
  insert_existing, insert_all, replay_files, pending_rows, sorted_files, replay, replay_from,
  remove_replayed, maybe_prune, write_rows, Contention, lock_busy, writer_busy, free, System,
  log_rows,
}

-- the bounds of the directory
abbrev pub IsBounded : Table File → Type 0
IsBounded pending = (length pending ≤ max_pending_files) × (total_size pending ≤ max_pending_bytes)

length-upsert :
    (name : ℕ) (file : File) (t : Table File)
    → length (upsert name file (λ _. file) t) ≤ suc (length t)
unfolding upsert
length-upsert name file [] = omega arith
length-upsert name file ((n, f) ∷ t) = ground (arith, length-upsert name file t)

total_size-upsert :
    (name : ℕ) (file : File) (t : Table File)
    → total_size (upsert name file (λ _. file) t) ≤ total_size t + length file.payload
unfolding upsert
total_size-upsert name file [] = omega arith
total_size-upsert name file ((n, f) ∷ t) = ground (arith, total_size-upsert name file t)

remove_le :
    (name : ℕ) (t : Table File)
    → (length (remove name t) ≤ length t) × (total_size (remove name t) ≤ total_size t)
unfolding remove
remove_le name [] = (omega arith, omega arith)
remove_le name ((n, f) ∷ t) = ground (arith, remove_le name t)

remove-IsBounded : (name : ℕ) (t : Table File) → IsBounded t → IsBounded (remove name t)
remove-IsBounded name t b =
    let (fewer, smaller) = remove_le name t in (omega (arith, b, fewer), omega (arith, b, smaller))

enqueue-IsBounded :
    (codec : Codec) (disk synced : Bool) (name : ℕ) (rows : List Row) (s : Log)
    → IsBounded s.pending
    → IsBounded (enqueue codec disk synced name rows s).1.pending
unfolding enqueue
enqueue-IsBounded codec disk synced name rows s b =
    let file : File = record { payload = codec.dumps rows; is_symlink = false } in
    ground (arith, b, length-upsert name file s.pending, total_size-upsert name file s.pending)

insert_existing-pending :
    (rows : List Row) (s s' : Log) → insert_existing rows s ≡ some s' → s'.pending ≡ s.pending
unfolding insert_existing
insert_existing-pending [] s s' e = ground (arith, e)
insert_existing-pending (r ∷ rows) s s' e =
    ground (
      arith,
      e,
      insert_existing-pending rows s s',
      insert_existing-pending rows (append_row r s) s',
    )

insert_all-pending :
    (rows : List Row) (s s' : Log) → insert_all rows s ≡ some s' → s'.pending ≡ s.pending
unfolding insert_all
insert_all-pending [] s s' e = ground (arith, e)
insert_all-pending (r ∷ rows) s s' e =
    ground (arith, e, insert_all-pending rows (append_row r s) s')

replay_files-pending :
    (codec : Codec) (files : Table File) (completed names : List ℕ) (s s' : Log)
    → replay_files codec files completed s ≡ some (s', names)
    → s'.pending ≡ s.pending
unfolding replay_files
replay_files-pending codec [] completed names s s' e = ground (arith, e)
replay_files-pending codec ((name, file) ∷ files) completed names s s' e =
    elim (Option-cases (pending_rows codec file)) [
      | inl bad ↦
          replay_files-pending codec files completed names s s' (rw (replay_files, bad) at e)
      | inr (rows, good) ↦ elim (Option-cases (insert_existing rows s)) [
        | inl fails ↦ absurd (ground (arith, rw (replay_files, good, fails) at e))
        | inr (t, done) ↦
            replay_files-pending codec files (completed ++ name ∷ []) names t s'
              (rw (replay_files, good, done) at e)
            ∙ insert_existing-pending rows s t done
      ]
    ]

remove_replayed-IsBounded :
    (refused paths : List ℕ) (s : Log)
    → IsBounded s.pending
    → IsBounded (remove_replayed refused paths s).pending
unfolding remove_replayed
remove_replayed-IsBounded refused [] s b = b
remove_replayed-IsBounded refused (name ∷ paths) s b =
    remove_replayed-IsBounded refused paths _ (ground (arith, b, remove-IsBounded name s.pending b))

replay_from-pending :
    (on : Bool) (codec : Codec) (s s' : Log) (names : List ℕ)
    → replay_from on codec s ≡ some (s', names)
    → s'.pending ≡ s.pending
replay_from-pending true codec s s' names e =
    replay_files-pending codec (take 100 (sorted_files s)) [] names s s' e
replay_from-pending false codec s s' names e = ground (arith, e)

maybe_prune-pending : (max_rows : ℕ) (s : Log) → (maybe_prune max_rows s).pending ≡ s.pending
unfolding maybe_prune
maybe_prune-pending max_rows s = ground arith

write_rows-IsBounded :
    (codec : Codec) (refused : List ℕ) (rows : List Row) (max_rows : ℕ) (s : Log)
    → IsBounded s.pending
    → IsBounded (Option.get_or (write_rows codec refused rows max_rows s) s).pending
unfolding write_rows replay
write_rows-IsBounded codec refused rows max_rows s b =
    elim (Option-cases (replay_from s.has_directory codec s)) [
      | inl e ↦ rw (write_rows, e) b
      | inr ((t, names), e) ↦ elim (Option-cases (insert_all rows t)) [
        | inl fails ↦ rw (write_rows, e, fails) b
        | inr (u, done) ↦
            let same : (maybe_prune max_rows u).pending ≡ s.pending =
              maybe_prune-pending max_rows u
              ∙ insert_all-pending rows t u done
              ∙ replay_from-pending s.has_directory codec s t names e in
            rw (write_rows, e, done)
              (remove_replayed-IsBounded refused names (maybe_prune max_rows u) (rw same b))
      ]
    ]

-- Whatever a log write meets, a directory of pending batches within 1000 files and 16 MiB in all stays within
-- them.
pub log_rows-IsBounded :
    (codec : Codec) (contention : Contention) (system : System) (rows : List Row) (max_rows : ℕ)
    (s : Log)
    → length s.pending ≤ max_pending_files
    → total_size s.pending ≤ max_pending_bytes
    → (length (log_rows codec contention system rows max_rows s).pending ≤ max_pending_files)
      × (total_size (log_rows codec contention system rows max_rows s).pending ≤ max_pending_bytes)
unfolding log_rows
log_rows-IsBounded codec lock_busy system rows max_rows s few small = (few, small)
log_rows-IsBounded codec writer_busy system rows max_rows s few small =
    enqueue-IsBounded codec system.disk system.synced system.new_name rows s (few, small)
log_rows-IsBounded codec free system rows max_rows s few small =
    write_rows-IsBounded codec system.refused rows max_rows s (few, small)
