-- ===== src/QueryLog/RoundTrip.antt =====
-- src/memstem/core/retrieval_log.py and src/memstem/core/retrieval_pending.py: rows that meet another writer, and
-- come into the log with the next write.
use mathlib.Core.Option
use mathlib.Core.List.{Perm}
use mathlib.Core.List.Perm
use memstem.Prelude.{
  Bool, ℕ, zero, suc, ◌+◌, ◌≤◌, ◌<◌, ◌≡◌, refl, ap, ◌∙◌, true, false, none, some, List, [], ◌∷◌,
  ◌++◌, arith, length, length-append, take, All, elem, leb, ltb, ==_iff, is_some, if◌then◌else◌,
}
use memstem.Prelude.Perms.{gather, gather-perm, append-perm, perm-All_at, elem-perm}
use memstem.Prelude.Sorting.{sort_by, sort_by-perm, length-sort_by}
use memstem.Prelude.Table.{Table, lookup, upsert, remove, lookup-remove}
use memstem.QueryLog.{
  Codec, Row, File, Log, column, has_memory, is_full, insert_all, pending_rows, all_seven,
  replay_files, sorted_files, replay, replay_from, enqueue, max_batch_bytes, max_pending_bytes,
  total_size, maybe_prune, remove_replayed, write_rows, writer_busy, free, System, log_rows,
}
use memstem.QueryLog.Replay.{
  texts, kept, kept_rows, queued, readable, insert_all-Writes, replay_files-Writes,
}

upsert_absent :
    (name : ℕ) (file : File) (t : Table File)
    → lookup name t ≡ none
    → upsert name file (λ _. file) t ≡ t ++ (name, file) ∷ []
unfolding lookup upsert
upsert_absent name file [] h = refl
upsert_absent name file ((n, f) ∷ t) h = ground (arith, upsert_absent name file t)

take_all {ℓ} : {A : Type ℓ} (n : ℕ) (xs : List A) → length xs ≤ n → take n xs ≡ xs
take_all zero [] h = refl
take_all zero (x ∷ xs) h = absurd (omega (arith, h))
take_all (suc n) [] h = refl
take_all (suc n) (x ∷ xs) h = ap (λ t. x ∷ t) (take_all n xs (omega (arith, h)))

-- the files of a replay are all of them, where there are no more than 100
sorted_files-perm : (s : Log) → length s.pending ≤ 100 → Perm (take 100 (sorted_files s)) s.pending
sorted_files-perm s few =
    let order = λ (a b : ℕ × File). leb a.0 b.0 in
    let few' : length (sort_by order s.pending) ≤ 100 = rw length-sort_by few in
    rw (take_all 100 (sort_by order s.pending) few') (sort_by-perm order s.pending)

-- a batch that was accepted is one more file, from which its rows can be read
enqueue-pending :
    (codec : Codec) (synced : Bool) (name : ℕ) (rows : List Row) (s : Log)
    → s.has_directory ≡ true
    → length (codec.dumps rows) ≤ max_batch_bytes
    → length s.pending < 100
    → total_size s.pending + length (codec.dumps rows) ≤ max_pending_bytes
    → lookup name s.pending ≡ none
    → enqueue codec true synced name rows s ≡ (
      synced,
      record s {
        pending =
            s.pending ++ (name, record { payload = codec.dumps rows; is_symlink = false }) ∷ [];
      },
    )
unfolding enqueue
enqueue-pending codec synced name rows s on small few room fresh =
    let file : File = record { payload = codec.dumps rows; is_symlink = false } in
    let a : ltb max_batch_bytes (length (codec.dumps rows)) ≡ false = ground (arith, small) in
    let b : leb 1000 (length s.pending) ≡ false = ground (arith, few) in
    let c : ltb max_pending_bytes (total_size s.pending + length (codec.dumps rows)) ≡ false =
      ground (arith, room) in
    rw (on, a, b, c, upsert_absent name file s.pending fresh) refl

pending_rows-dumps :
    (codec : Codec) (rows : List Row)
    → codec.loads (codec.dumps rows) ≡ some (some rows)
    → length (codec.dumps rows) ≤ max_batch_bytes
    → all_seven rows ≡ true
    → pending_rows codec (record { payload = codec.dumps rows; is_symlink = false }) ≡ some rows
unfolding pending_rows
pending_rows-dumps codec rows loads small seven =
    let a : ltb max_batch_bytes (length (codec.dumps rows)) ≡ false = ground (arith, small) in
    rw (a, loads, seven) refl

lookup-remove_replayed :
    (refused paths : List ℕ) (s : Log) (name : ℕ)
    → elem name refused ≡ false
    → lookup name (remove_replayed refused paths s).pending
      ≡ (if elem name paths then none else lookup name s.pending)
unfolding remove_replayed elem
lookup-remove_replayed refused [] s name kept = refl
lookup-remove_replayed refused (p ∷ paths) s name kept =
    let left = if elem p refused then s.pending else remove p s.pending in
    ground (
      arith,
      kept,
      lookup-remove_replayed refused paths (record s { pending = left }) name kept,
      lookup-remove p name s.pending,
      ==_iff p name,
    )

remove_replayed-log :
    (refused paths : List ℕ) (s : Log) → (remove_replayed refused paths s).query_log ≡ s.query_log
unfolding remove_replayed
remove_replayed-log refused [] s = refl
remove_replayed-log refused (name ∷ paths) s = remove_replayed-log refused paths _

replay_on :
    (codec : Codec) (s : Log)
    → s.has_directory ≡ true
    → replay codec s ≡ replay_files codec (take 100 (sorted_files s)) [] s
unfolding replay
replay_on codec s on = ap (λ b. replay_from b codec s) on

write_rows_run :
    (codec : Codec) (refused : List ℕ) (rows : List Row) (s t u : Log) (names : List ℕ)
    → replay codec s ≡ some (t, names)
    → insert_all rows t ≡ some u
    → write_rows codec refused rows 0 s ≡ some (remove_replayed refused names u)
unfolding write_rows maybe_prune
write_rows_run codec refused rows s t u names run run' = rw (write_rows, run, run') refl

-- the transaction that writes the queued rows and the new ones, with no cap on the log
write_rows-Writes :
    (codec : Codec) (refused : List ℕ) (rows : List Row) (s : Log)
    → s.has_directory ≡ true
    → length s.pending ≤ 100
    → All (λ r. is_full r ≡ true) (queued codec s.memories (take 100 (sorted_files s)))
    → All (λ r. is_full r ≡ true) rows
    → All (λ r. has_memory s.memories (column r 4) ≡ true) rows
    → (s' : Log) × (write_rows codec refused rows 0 s
        ≡ some (remove_replayed refused (readable codec (take 100 (sorted_files s))) s'))
      × Perm (texts s'.query_log) (texts s.query_log ++ queued codec s.memories s.pending ++ rows)
      × (s'.pending ≡ s.pending)
write_rows-Writes codec refused rows s on few full full' there =
    let files = take 100 (sorted_files s) in
    let (t, run, (log, memories, pending)) = replay_files-Writes codec files [] s full in
    let (u, run', (log', memories', pending')) =
      insert_all-Writes rows t full' (rw memories there) in
    let same : Perm (queued codec s.memories files) (queued codec s.memories s.pending) =
      gather-perm (λ e. kept_rows s.memories (pending_rows codec e.1)) (sorted_files-perm s few) in
    (
      u,
      write_rows_run codec refused rows s t u (readable codec files) (replay_on codec s on ∙ run)
          run',
      rw (log', log) (Perm.append_right rows (Perm.append_left (texts s.query_log) same)),
      pending' ∙ pending,
    )

-- a state with one more batch, whose rows can be read
abbrev with_file : ℕ → File → Log → Log
with_file name file s = record s { pending = s.pending ++ (name, file) ∷ [] }

queued-with_file :
    (codec : Codec) (name : ℕ) (file : File) (rows : List Row) (s : Log)
    → pending_rows codec file ≡ some rows
    → Perm
        (queued codec s.memories (with_file name file s).pending)
        (kept s.memories rows ++ queued codec s.memories s.pending)
queued-with_file codec name file rows s good = rw (ap (kept_rows s.memories) good) at (
    gather-perm (λ e. kept_rows s.memories (pending_rows codec e.1))
      (append-perm s.pending ((name, file) ∷ [])))

readable-with_file :
    (codec : Codec) (name : ℕ) (file : File) (rows : List Row) (s : Log)
    → pending_rows codec file ≡ some rows
    → length s.pending < 100
    → elem name (readable codec (take 100 (sorted_files (with_file name file s)))) ≡ true
unfolding elem
readable-with_file codec name file rows s good few =
    let after = with_file name file s in
    let few' : length after.pending ≤ 100 =
      omega (arith, few, length-append s.pending ((name, file) ∷ [])) in
    let names = λ (e : ℕ × File). if is_some (pending_rows codec e.1) then e.0 ∷ [] else [] in
    let perm : Perm (gather names (take 100 (sorted_files after)))
        (gather names ((name, file) ∷ s.pending)) =
      gather-perm names
        (Perm.trans (sorted_files-perm after few') (append-perm s.pending ((name, file) ∷ []))) in
    elem-perm name perm ∙ rw good (ground (arith, ==_iff name name))

-- the write after a batch was put aside
write_after :
    (codec : Codec) (refused : List ℕ) (name : ℕ) (file : File) (rows own : List Row) (s : Log)
    → s.has_directory ≡ true
    → pending_rows codec file ≡ some rows
    → length s.pending < 100
    → elem name refused ≡ false
    → All (λ r. is_full r ≡ true) (kept s.memories rows ++ queued codec s.memories s.pending)
    → All (λ r. is_full r ≡ true) own
    → All (λ r. has_memory s.memories (column r 4) ≡ true) own
    → let busy = with_file name file s in
      let after = Option.get_or (write_rows codec refused own 0 busy) busy in
      Perm
        (texts after.query_log)
        (texts s.query_log ++ (kept s.memories rows ++ queued codec s.memories s.pending) ++ own)
      × (lookup name after.pending ≡ none)
write_after codec refused name file rows own s on good few unrefused full full' there =
    let busy = with_file name file s in
    let files = take 100 (sorted_files busy) in
    let few' : length busy.pending ≤ 100 =
      omega (arith, few, length-append s.pending ((name, file) ∷ [])) in
    let all_queued = queued-with_file codec name file rows s good in
    let same : Perm (queued codec s.memories files) (queued codec s.memories busy.pending) =
      gather-perm (λ e. kept_rows s.memories (pending_rows codec e.1))
        (sorted_files-perm busy few') in
    let ready = perm-All_at is_full true (Perm.symm (Perm.trans same all_queued)) full in
    let (u, run, perm, pending) =
      write_rows-Writes codec refused own busy on few' ready full' there in
    let removed =
      lookup-remove_replayed refused (readable codec files) u name unrefused
      ∙ rw (readable-with_file codec name file rows s good few) refl in
    rw (run, remove_replayed-log refused (readable codec files) u)
      (
        Perm.trans perm (Perm.append_right own (Perm.append_left (texts s.query_log) all_queued)),
        removed,
      )

-- Rows that meet another writer are not lost. Where the pending directory is there and can be written, holds fewer
-- than 100 batches, none under the new name, and has room, where the JSON of the rows is read back as these rows
-- and is no more than 512 KiB, and where each row has 7 columns and those that must not be NULL are not, the rows
-- are put aside, and the log stays as it is. The next write that meets no other writer, has no cap, and whose rows
-- are complete and of memories that are there, then adds to the log exactly these rows, less those whose memory is
-- gone, the rows of the other batches, and its own, each once, where those of the other batches are complete too;
-- and the batch is gone, where its file can be removed, so that no later write adds it again.
pub log_rows-roundtrip :
    (codec : Codec) (system later : System) (rows own : List Row) (max_rows : ℕ) (s : Log)
    → s.has_directory ≡ true
    → system.disk ≡ true
    → codec.loads (codec.dumps rows) ≡ some (some rows)
    → length (codec.dumps rows) ≤ max_batch_bytes
    → length s.pending < 100
    → total_size s.pending + length (codec.dumps rows) ≤ max_pending_bytes
    → lookup system.new_name s.pending ≡ none
    → elem system.new_name later.refused ≡ false
    → all_seven rows ≡ true
    → All (λ r. is_full r ≡ true) (kept s.memories rows ++ queued codec s.memories s.pending)
    → All (λ r. is_full r ≡ true) own
    → All (λ r. has_memory s.memories (column r 4) ≡ true) own
    → let busy = log_rows codec writer_busy system rows max_rows s in
      let after = log_rows codec free later own 0 busy in
      (busy.query_log ≡ s.query_log)
      × Perm
          (texts after.query_log)
          (texts s.query_log ++ (kept s.memories rows ++ queued codec s.memories s.pending) ++ own)
      × (lookup system.new_name after.pending ≡ none)
unfolding log_rows
log_rows-roundtrip codec system later rows own max_rows s on disk loads small few room fresh
      unrefused seven full full' there =
    let file : File = record { payload = codec.dumps rows; is_symlink = false } in
    let good = pending_rows-dumps codec rows loads small seven in
    let queues =
      enqueue-pending codec system.synced system.new_name rows s on small few room fresh in
    let (perm, gone) =
      write_after codec later.refused system.new_name file rows own s on good few unrefused full
        full' there in
    let busy : log_rows codec writer_busy system rows max_rows s
        ≡ with_file system.new_name file s =
      ap (λ d. (enqueue codec d system.synced system.new_name rows s).1) disk
      ∙ ap (λ p. p.1) queues in
    rw busy (refl, perm, gone)
