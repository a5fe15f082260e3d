-- ===== src/QueryLog/Replay.antt =====
-- src/memstem/core/retrieval_log.py and src/memstem/core/retrieval_pending.py: what becomes of rows that could not
-- be written at once.
use mathlib.Core.List.{append_assoc, append-nil}
use memstem.Prelude.{
  ℕ, ◌≡◌, refl, sym, ap, ◌∙◌, true, Option, none, some, List, [], ◌∷◌, ◌++◌, map, filter, All,
  is_some, if◌then◌else◌, Bool-cases, Option-cases, inl, inr,
}
use memstem.Prelude.Table.{Table}
use memstem.Prelude.Perms.{gather}
use memstem.QueryLog.{
  Codec, Row, File, Log, column, has_memory, is_full, append_row, insert_existing, insert_all,
  pending_rows, replay_files,
}

abbrev pub texts : Table Row → List Row
texts t = map (λ e. e.1) t

-- the rows whose memory is still there
abbrev pub kept : List ℕ → List Row → List Row
kept memories rows = filter (λ r. has_memory memories (column r 4)) rows

abbrev pub kept_rows : List ℕ → Option (List Row) → List Row
kept_rows memories none = []
kept_rows memories (some rows) = kept memories rows

-- the rows that a replay of the files has to write
abbrev pub queued : Codec → List ℕ → Table File → List Row
queued codec memories = gather (λ e. kept_rows memories (pending_rows codec e.1))

map-append : (t u : Table Row) → texts (t ++ u) ≡ texts t ++ texts u
map-append [] u = refl
map-append (e ∷ t) u = ap (λ x. e.1 ∷ x) (map-append t u)

All-split {ℓ κ} :
    {A : Type ℓ} (P : A → Type κ) (xs ys : List A) → All P (xs ++ ys) → All P xs × All P ys
All-split P [] ys a = (tt, a)
All-split P (x ∷ xs) ys a = let (l, r) = All-split P xs ys a.1 in ((a.0, l), r)

-- what a run of insertions leaves: the rows behind those that were there, and all else as it was
abbrev pub Writes : Log → List Row → Log → Type 0
Writes s rows s' =
    (texts s'.query_log ≡ texts s.query_log ++ rows)
    × (s'.memories ≡ s.memories)
    × (s'.pending ≡ s.pending)

insert_existing-Writes :
    (rows : List Row) (s : Log)
    → All (λ r. is_full r ≡ true) (kept s.memories rows)
    → (s' : Log) × (insert_existing rows s ≡ some s') × Writes s (kept s.memories rows) s'
unfolding insert_existing filter
insert_existing-Writes [] s full = (s, refl, (sym (append-nil (texts s.query_log)), refl, refl))
insert_existing-Writes (r ∷ rows) s full = elim (Bool-cases (has_memory s.memories (column r 4))) [
  | inl e ↦
      let full' = rw e at full in
      let (s', run, (log, memories, pending)) =
        insert_existing-Writes rows (append_row r s) full'.1 in
      (
        s',
        rw (insert_existing, e, full'.0) run,
        (
          rw e (
              log
              ∙ ap (λ t. t ++ kept s.memories rows) (map-append s.query_log ((s.next_id, r) ∷ []))
              ∙ append_assoc (texts s.query_log) (r ∷ []) (kept s.memories rows)),
          memories,
          pending,
        ),
      )
  | inr e ↦
      let (s', run, (log, memories, pending)) = insert_existing-Writes rows s (rw e at full) in
      (s', rw (insert_existing, e) run, (rw e log, memories, pending))
]

pub insert_all-Writes :
    (rows : List Row) (s : Log)
    → All (λ r. is_full r ≡ true) rows
    → All (λ r. has_memory s.memories (column r 4) ≡ true) rows
    → (s' : Log) × (insert_all rows s ≡ some s') × Writes s rows s'
unfolding insert_all
insert_all-Writes [] s full there = (s, refl, (sym (append-nil (texts s.query_log)), refl, refl))
insert_all-Writes (r ∷ rows) s full there =
    let (s', run, (log, memories, pending)) =
      insert_all-Writes rows (append_row r s) full.1 there.1 in
    (
      s',
      rw (insert_all, there.0, full.0) run,
      (
        log
            ∙ ap (λ t. t ++ rows) (map-append s.query_log ((s.next_id, r) ∷ []))
            ∙ append_assoc (texts s.query_log) (r ∷ []) rows,
        memories,
        pending,
      ),
    )

-- the files whose rows can be read
abbrev pub readable : Codec → Table File → List ℕ
readable codec = gather (λ e. if is_some (pending_rows codec e.1) then e.0 ∷ [] else [])

pub replay_files-Writes :
    (codec : Codec) (files : Table File) (completed : List ℕ) (s : Log)
    → All (λ r. is_full r ≡ true) (queued codec s.memories files)
    → (s' : Log) × (replay_files codec files completed s
        ≡ some (s', completed ++ readable codec files))
      × Writes s (queued codec s.memories files) s'
unfolding replay_files
replay_files-Writes codec [] completed s full =
    (s, rw append-nil refl, (sym (append-nil (texts s.query_log)), refl, refl))
replay_files-Writes codec ((name, file) ∷ files) completed s full =
    elim (Option-cases (pending_rows codec file)) [
      | inl bad ↦
          let (s', run, writes) = replay_files-Writes codec files completed s (rw bad at full) in
          (s', rw (replay_files, bad) run, rw bad writes)
      | inr (rows, good) ↦
          let (own, rest) =
            All-split (λ r. is_full r ≡ true) (kept s.memories rows) (queued codec s.memories files)
              (rw good at full) in
          let (t, done, (log, memories, pending)) = insert_existing-Writes rows s own in
          let (s', run, (log', memories', pending')) =
            replay_files-Writes codec files (completed ++ name ∷ []) t (rw memories rest) in
          (
            s',
            rw (replay_files, good, done)
                (run
                  ∙ ap (λ names. some (s', names))
                      (append_assoc completed (name ∷ []) (readable codec files))),
            rw good (
              log'
                  ∙ rw (log, memories)
                      (append_assoc (texts s.query_log) (kept s.memories rows)
                        (queued codec s.memories files)),
              memories' ∙ memories,
              pending' ∙ pending,
            ),
          )
    ]
