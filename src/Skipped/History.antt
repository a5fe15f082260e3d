-- ===== src/Skipped/History.antt =====
-- src/memstem/core/skipped.py: what the registry says of a file, by what happened to it.
use memstem.Prelude.{
  ℕ, ◌≡◌, refl, ◌∙◌, ap, sym, ◌++◌, Bool, false, Option, none, some, List, [], ◌∷◌, take, ◌==◌,
  ==_iff, if◌then◌else◌, Bool-cases, inl, inr,
}
use memstem.Prelude.Table.{Table, lookup, lookup-put, lookup-remove}
use memstem.Skipped.{SkippedFile, since_of, squeeze, record_file, clear, reset}

-- a file that cannot be read, at a time; a file that can; the end of the process
pub data Event : Type 0 where
  skipped : ℕ → List ℕ → ℕ → ℕ → ℕ → Event
  parsed : ℕ → Event
  started_anew : Event

module _ (is_space : ℕ → Bool) where
  abbrev pub handle : Event → Table SkippedFile → Table SkippedFile
  handle (skipped path reason source kind now) files =
      record_file is_space path reason source kind now files
  handle (parsed path) files = clear path files
  handle started_anew files = reset files

  abbrev pub handle_all : List Event → Table SkippedFile → Table SkippedFile
  handle_all [] files = files
  handle_all (e ∷ events) files = handle_all events (handle e files)

  -- what an event makes of the row of one path: the rows of the others do not matter
  abbrev row_after : ℕ → Event → Option SkippedFile → Option SkippedFile
  row_after j (skipped path reason source kind now) row =
      if path == j
      then some (record {
        source = source;
        kind = kind;
        reason = take 300 (squeeze is_space false false reason);
        since = since_of row now;
        last_seen = now;
      })
      else row
  row_after j (parsed path) row = if path == j then none else row
  row_after j started_anew row = none

  handle-lookup :
      (j : ℕ) (e : Event) (files : Table SkippedFile)
      → lookup j (handle e files) ≡ row_after j e (lookup j files)
  unfolding record_file clear reset lookup
  handle-lookup j (skipped path reason source kind now) files = elim (Bool-cases (path == j)) [
    | inl e ↦ rw (lookup-put, e, (==_iff path j).0 e) refl
    | inr e ↦ rw (lookup-put, e) refl
  ]
  handle-lookup j (parsed path) files = lookup-remove path j files
  handle-lookup j started_anew files = refl

-- one failure to read a file, at its time
pub record Failure : Type 0 where
  pub source : ℕ
  pub kind : ℕ
  pub reason : List ℕ
  pub time : ℕ

-- the failures of a file since it was last read and since the process started, the oldest first; `seen` are those
-- before the events
abbrev pub failures_of : ℕ → List Failure → List Event → List Failure
failures_of j seen [] = seen
failures_of j seen (skipped path reason source kind now ∷ events) =
    failures_of j
      (if path == j
        then seen ++ record { source = source; kind = kind; reason = reason; time = now } ∷ []
        else seen)
      events
failures_of j seen (parsed path ∷ events) = failures_of j (if path == j then [] else seen) events
failures_of j seen (started_anew ∷ events) = failures_of j [] events

abbrev pub last_of : Failure → List Failure → Failure
last_of first [] = first
last_of first (next ∷ rest) = last_of next rest

-- the row that a list of failures should have: dated by the first one, and told by the last one
abbrev pub row_of : (ℕ → Bool) → List Failure → Option SkippedFile
row_of is_space [] = none
row_of is_space (first ∷ rest) = some (record {
  source = (last_of first rest).source;
  kind = (last_of first rest).kind;
  reason = take 300 (squeeze is_space false false (last_of first rest).reason);
  since = first.time;
  last_seen = (last_of first rest).time;
})

last_of-append :
    (first : Failure) (rest : List Failure) (f : Failure) → last_of first (rest ++ f ∷ []) ≡ f
last_of-append first [] f = refl
last_of-append first (next ∷ rest) f = last_of-append next rest f

-- one more failure keeps the date of the row that is there
row_of-append :
    (is_space : ℕ → Bool) (seen : List Failure) (f : Failure)
    → row_of is_space (seen ++ f ∷ [])
      ≡ some (record {
        source = f.source;
        kind = f.kind;
        reason = take 300 (squeeze is_space false false f.reason);
        since = since_of (row_of is_space seen) f.time;
        last_seen = f.time;
      })
row_of-append is_space [] f = refl
row_of-append is_space (first ∷ rest) f = rw (last_of-append first rest f) refl

row_after-row_of :
    (is_space : ℕ → Bool) (j : ℕ) (e : Event) (seen : List Failure)
    → row_after is_space j e (row_of is_space seen) ≡ row_of is_space (failures_of j seen (e ∷ []))
row_after-row_of is_space j (skipped path reason source kind now) seen =
    elim (Bool-cases (path == j)) [
      | inl e ↦
          let f : Failure = record { source = source; kind = kind; reason = reason; time = now } in
          rw e (sym (row_of-append is_space seen f))
      | inr e ↦ rw e refl
    ]
row_after-row_of is_space j (parsed path) seen = elim (Bool-cases (path == j)) [
  | inl e ↦ rw e refl
  | inr e ↦ rw e refl
]
row_after-row_of is_space j started_anew seen = refl

failures_of-cons :
    (j : ℕ) (e : Event) (seen : List Failure) (events : List Event)
    → failures_of j (failures_of j seen (e ∷ [])) events ≡ failures_of j seen (e ∷ events)
failures_of-cons j (skipped path reason source kind now) seen events = refl
failures_of-cons j (parsed path) seen events = refl
failures_of-cons j started_anew seen events = refl

history_from :
    (is_space : ℕ → Bool) (j : ℕ) (events : List Event) (files : Table SkippedFile)
    (seen : List Failure)
    → lookup j files ≡ row_of is_space seen
    → lookup j (handle_all is_space events files) ≡ row_of is_space (failures_of j seen events)
history_from is_space j [] files seen h = h
history_from is_space j (e ∷ events) files seen h =
    history_from is_space j events (handle is_space e files) (failures_of j seen (e ∷ [])) (
      handle-lookup is_space j e files
      ∙ ap (row_after is_space j e) h
      ∙ row_after-row_of is_space j e seen)
    ∙ ap (row_of is_space) (failures_of-cons j e seen events)

-- After any events a registry that began empty has a row for a path exactly when the file could not be read after it
-- was last read and after the process last started: the row has the time of the first of these failures as `since`,
-- and the last one, with its reason cut to 300 characters, as what it tells and as `last_seen`. What happens to
-- other files does not matter.
pub handle_all-history :
    (is_space : ℕ → Bool) (j : ℕ) (events : List Event)
    → lookup j (handle_all is_space events []) ≡ row_of is_space (failures_of j [] events)
unfolding lookup
handle_all-history is_space j events = history_from is_space j events [] [] refl
