-- ===== src/Hygiene/Expired.antt =====
-- src/memstem/hygiene/expired_vectors.py: the pass that strips the vectors of expired memories. The column
-- `valid_to` of the memories, a text where it is not NULL, is given beside the tables.
pub mod Stripped
use mathlib.Core.Option
use memstem.Prelude.{
  ℕ, ◌+◌, Bool, true, false, ◌&&◌, Option, none, some, List, [], ◌∷◌, length, elem, leb, ◌==◌,
  if◌then◌else◌,
}
use memstem.Prelude.Table.{Table}
use memstem.Index.Store.{Index, MemoryRow, strip_vectors}

-- the key of its row is its `id`
pub record ExpiredVectorHit : Type 0 where
  pub kind : ℕ
  pub title : Option ℕ
  pub chunks : ℕ

abbrev pub StripPlan : Type 0
StripPlan = Table ExpiredVectorHit

unfoldable pub chunks_of : StripPlan → ℕ
chunks_of [] = 0
chunks_of ((m, h) ∷ hits) = h.chunks + chunks_of hits

-- what a pass is given: the types it is restricted to, the column, the parser of a text, none where it is
-- empty or no time, and the clock
pub record Sweep : Type 0 where
  pub types : Option (List ℕ)
  pub valid_to : ℕ → Option ℕ
  pub parse : ℕ → Option ℕ
  pub now : ℕ

unfoldable pub is_wanted : Option (List ℕ) → ℕ → Bool
unfolding elem
is_wanted none kind = true
is_wanted (some types) kind = elem kind types

unfoldable pub has_elapsed : Sweep → ℕ → Bool
has_elapsed sweep m = elim (Option.bind (sweep.valid_to m) sweep.parse) [
  | none ↦ false
  | some valid_to ↦ leb valid_to sweep.now
]

-- the hit of one memory: none where it is not expired, or has no chunks
unfoldable pub hit_of : Sweep → Index → ℕ → MemoryRow → Option ExpiredVectorHit
unfolding is_wanted has_elapsed
hit_of sweep ix m row =
    let n = length (ix.vectors m) in
    if is_wanted sweep.types row.kind && has_elapsed sweep m
    then if n == 0 then none else some (record { kind = row.kind; title = row.title; chunks = n })
    else none

abbrev pub add_hit : ℕ → Option ExpiredVectorHit → StripPlan → StripPlan
add_hit m none hits = hits
add_hit m (some h) hits = (m, h) ∷ hits

unfoldable pub find_in : Sweep → Index → Table MemoryRow → StripPlan
unfolding hit_of
find_in sweep ix [] = []
find_in sweep ix ((m, row) ∷ rows) = add_hit m (hit_of sweep ix m row) (find_in sweep ix rows)

unfoldable pub find_expired_with_vectors : Sweep → Index → StripPlan
unfolding find_in
find_expired_with_vectors sweep ix = find_in sweep ix ix.memories

-- the index, and the chunks that were removed
unfoldable pub apply_strip : StripPlan → Index → Index × ℕ
unfolding strip_vectors
apply_strip [] ix = (ix, 0)
apply_strip ((m, h) ∷ hits) ix =
    let (stripped, n) = strip_vectors m ix in
    let (out, rest) = apply_strip hits stripped in (out, n + rest)
