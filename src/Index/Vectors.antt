-- ===== src/Index/Vectors.antt =====
-- The chunk-level reuse of vectors of src/memstem/core/index.py: `VectorReusePlan`,
-- `Index.plan_vector_reuse` and `Index.apply_vectors`. A plan is read from the state that it is
-- applied to or from an earlier one; the dictionaries of the code are tables.
pub mod Planning
pub mod Writing
pub mod Reuse
use memstem.Prelude.{
  ℕ, zero, suc, ◌+◌, Bool, true, false, not, ◌&&◌, ◌||◌, Option, none, some, List, [], ◌∷◌, length,
  filter, elem, get_elem?, leb, ltb, ◌==◌, opt_eq, is_some, if◌then◌else◌,
}
use memstem.Prelude.Sorting.{sort_by}
use memstem.Prelude.Table.{Table, lookup, upsert}
use memstem.Index.Result.{Result, ok, err, value_error, stale_plan, index_error, ◌>>=◌}
use memstem.Index.Store.{Index, EmbedState, Vector, set_at, has_memory}

pub record VectorReusePlan : Type 0 where
  pub unchanged : List ℕ
  pub copied : Table Vector

abbrev pub empty_plan : VectorReusePlan
empty_plan = record { unchanged = []; copied = [] }

-- i in self.unchanged or i in self.copied
abbrev pub is_covered : VectorReusePlan → ℕ → Bool
is_covered plan i = elem i plan.unchanged || is_some (lookup i plan.copied)

-- the indexes from `i` on that have to be embedded, `n` of them looked at
unfoldable pub misses_from : VectorReusePlan → ℕ → ℕ → List ℕ
misses_from plan i zero = []
misses_from plan i (suc n) =
    let rest = misses_from plan (suc i) n in if is_covered plan i then rest else i ∷ rest

unfoldable pub misses : VectorReusePlan → ℕ → List ℕ
unfolding misses_from
misses plan n_chunks = misses_from plan 0 n_chunks

abbrev pub is_hash : Option ℕ → ℕ → Bool
is_hash none h = false
is_hash (some g) h = g == h

-- `by_hash[h]`: the first stored index, in order, with this hash and a row
unfoldable pub source_of : ℕ → Table ℕ → Table Vector → Option ℕ
source_of h [] rows = none
source_of h ((i, g) ∷ t) rows =
    if is_some (lookup i rows) && g == h then some i else source_of h t rows

abbrev pub by_index : ℕ × ℕ → ℕ × ℕ → Bool
by_index a b = leb a.0 b.0

abbrev pub add_copy : ℕ → Option Vector → VectorReusePlan → VectorReusePlan
add_copy i none plan = plan
add_copy i (some v) plan = record plan { copied = (i, v) ∷ plan.copied }

abbrev pub copy_source : Option ℕ → Table Vector → Option Vector
copy_source none rows = none
copy_source (some src) rows = lookup src rows

-- the loop over the new hashes, the next index being `i`
unfoldable pub plan_from : Table ℕ → Table Vector → ℕ → List ℕ → VectorReusePlan
unfolding source_of
plan_from stored rows i [] = empty_plan
plan_from stored rows i (h ∷ hs) =
    let rest = plan_from stored rows (suc i) hs in
    if is_hash (lookup i stored) h && is_some (lookup i rows)
    then record rest { unchanged = i ∷ rest.unchanged }
    else add_copy i (copy_source (source_of h (sort_by by_index stored) rows) rows) rest

-- the stored hashes describe the body that was embedded last
abbrev pub is_owner : Option ℕ → Option ℕ → Bool
is_owner (some o) (some b) = o == b
is_owner _ _ = false

abbrev pub trusts : ℕ → Option EmbedState → Option ℕ → Bool
trusts signature none owner = false
trusts signature (some s) owner =
    opt_eq s.embed_signature (some signature) && is_owner owner s.body_hash

-- one step: what another thread writes between the plan and the reading of the copied vectors is not modelled
unfoldable pub plan_vector_reuse : ℕ → List ℕ → ℕ → Index → VectorReusePlan
unfolding plan_from
plan_vector_reuse m hashes signature ix =
    if trusts signature (lookup m ix.embed_state) (ix.hash_owner m)
    then plan_from (ix.chunk_hashes m) (ix.vectors m) 0 hashes
    else empty_plan

-- every index below i + n is unchanged or has a vector
unfoldable pub all_present : List ℕ → Table Vector → ℕ → ℕ → Bool
all_present unchanged vectors i zero = true
all_present unchanged vectors i (suc n) =
    (elem i unchanged || is_some (lookup i vectors)) && all_present unchanged vectors (suc i) n

unfoldable pub all_sized : ℕ → Table Vector → Bool
all_sized dimensions [] = true
all_sized dimensions ((i, v) ∷ t) = length v == dimensions && all_sized dimensions t

-- the rows and stored hashes that the plan relies on are still there
unfoldable pub check_unchanged : List ℕ → Table Vector → Table ℕ → List ℕ → Result (Unit {0})
check_unchanged [] rows stored hashes = ok tt
check_unchanged (i ∷ is) rows stored hashes =
    let rest = check_unchanged is rows stored hashes in
    if not (is_some (lookup i rows)) then err stale_plan else elim (get_elem? hashes i) [
      | none ↦ err index_error
      | some h ↦ if is_hash (lookup i stored) h then rest else err stale_plan
    ]

abbrev pub put_vector : ℕ → Option Vector → Table Vector → Table Vector
put_vector i none rows = rows
put_vector i (some v) rows = upsert i v (λ _. v) rows

-- the loop that updates or inserts, the next index being `i`
unfoldable pub write_from : List ℕ → Table Vector → ℕ → List ℕ → Table Vector → Table Vector
write_from unchanged vectors i [] rows = rows
write_from unchanged vectors i (h ∷ hs) rows =
    write_from unchanged vectors (suc i) hs
      (if elem i unchanged then rows else put_vector i (lookup i vectors) rows)

-- how many of the written indexes had a row before, and how many had none
unfoldable pub count_from : List ℕ → Table Vector → Bool → ℕ → ℕ → ℕ
count_from unchanged rows present i zero = 0
count_from unchanged rows present i (suc n) =
    let rest = count_from unchanged rows present (suc i) n in
    if not (elem i unchanged)
      && (if present then is_some (lookup i rows) else not (is_some (lookup i rows)))
    then suc rest
    else rest

-- enumerate(hashes)
unfoldable pub number_from : ℕ → List ℕ → Table ℕ
number_from i [] = []
number_from i (h ∷ hs) = (i, h) ∷ number_from (suc i) hs

pub record Written : Type 0 where
  pub index : Index
  pub updated : ℕ
  pub inserted : ℕ
  pub deleted : ℕ

abbrev pub is_below : ℕ → ℕ × Vector → Bool
is_below n e = ltb e.0 n

unfoldable pub write_vectors : ℕ → List ℕ → Table Vector → List ℕ → Option ℕ → Index → Written
unfolding write_from count_from number_from
write_vectors m hashes vectors unchanged body_hash ix =
    let n = length hashes in
    let rows = ix.vectors m in
    record {
      index = record ix {
        vectors =
            set_at m (filter (is_below n) (write_from unchanged vectors 0 hashes rows)) ix.vectors;
        chunk_hashes = set_at m (number_from 0 hashes) ix.chunk_hashes;
        hash_owner = set_at m body_hash ix.hash_owner;
      };
      updated = count_from unchanged rows true 0 n;
      inserted = count_from unchanged rows false 0 n;
      deleted = length (filter (λ e. not (is_below n e)) rows);
    }

unfoldable pub apply_vectors :
    ℕ → ℕ → List ℕ → Table Vector → List ℕ → Option ℕ → Index → Result Written
unfolding all_present all_sized check_unchanged write_vectors has_memory
apply_vectors dimensions m hashes vectors unchanged body_hash ix =
    if not (all_present unchanged vectors 0 (length hashes))
    then err value_error
    else if not (all_sized dimensions vectors)
    then err value_error
    else if not (has_memory m ix)
    then ok (record {
      index = record ix { vectors = set_at m [] ix.vectors };
      updated = 0;
      inserted = 0;
      deleted = length (ix.vectors m);
    })
    else check_unchanged unchanged (ix.vectors m) (ix.chunk_hashes m) hashes >>= λ _.
        ok (write_vectors m hashes vectors unchanged body_hash ix)

-- `vectors.update(zip(misses, fresh))`
unfoldable pub merge : List ℕ → List Vector → Table Vector → Table Vector
merge (i ∷ is) (v ∷ vs) t = merge is vs (upsert i v (λ _. v) t)
merge _ _ t = t
