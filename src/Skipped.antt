-- ===== src/Skipped.antt =====
-- src/memstem/core/skipped.py: the registry of the files that an adapter could not read. Times are numbers, and
-- so are paths, in the order of their texts.
pub mod History
use mathlib.Core.Option
use memstem.Prelude.{
  ℕ, Bool, true, false, ◌&&◌, Option, none, some, List, [], ◌∷◌, map, length, take, leb, ltb, ◌==◌,
  if◌then◌else◌,
}
use memstem.Prelude.Sorting.{sort_by}
use memstem.Prelude.Table.{Table, lookup, upsert, remove}

-- the key of its row is its `path`
pub record SkippedFile : Type 0 where
  pub source : ℕ
  pub kind : ℕ
  pub reason : List ℕ
  pub since : ℕ
  pub last_seen : ℕ

-- " ".join(text.split()), of the rest of the text: whether a word has been seen, and whether blanks since then
unfoldable pub squeeze : (ℕ → Bool) → Bool → Bool → List ℕ → List ℕ
squeeze is_space seen gap [] = []
squeeze is_space seen gap (c ∷ cs) =
    let blank = squeeze is_space seen true cs in
    let rest = c ∷ squeeze is_space true false cs in
    if is_space c then blank else if seen && gap then b' ' ∷ rest else rest

abbrev pub since_of : Option SkippedFile → ℕ → ℕ
since_of none now = now
since_of (some prev) now = prev.since

unfoldable pub record_file :
    (ℕ → Bool) → ℕ → List ℕ → ℕ → ℕ → ℕ → Table SkippedFile → Table SkippedFile
unfolding squeeze lookup upsert
record_file is_space path reason source kind now files =
    let file : SkippedFile = record {
      source = source;
      kind = kind;
      reason = take 300 (squeeze is_space false false reason);
      since = since_of (lookup path files) now;
      last_seen = now;
    } in
    upsert path file (λ _. file) files

unfoldable pub clear : ℕ → Table SkippedFile → Table SkippedFile
unfolding remove
clear path files = remove path files

unfoldable pub count : Table SkippedFile → ℕ
count files = length files

abbrev pub before : ℕ × SkippedFile → ℕ × SkippedFile → Bool
before a b = if a.1.since == b.1.since then leb a.0 b.0 else ltb a.1.since b.1.since

unfoldable pub snapshot : Option ℕ → Table SkippedFile → Table SkippedFile
unfolding sort_by
snapshot limit files =
    let items = sort_by before files in elim limit [ none ↦ items | some n ↦ take n items ]

unfoldable pub reset : Table SkippedFile → Table SkippedFile
reset files = []
