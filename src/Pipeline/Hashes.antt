-- ===== src/Pipeline/Hashes.antt =====
-- src/memstem/core/dedup.py: the table of body hashes through an upsert and the recording of a hash.
use memstem.Prelude.{
  ℕ, ◌≡◌, refl, Bool, not, ◌&&◌, none, some, List, [], ◌∷◌, arith, filter, ◌==◌, ==_iff, ==_self,
  if◌then◌else◌, Option-cases, inl, inr, ◌⊎◌,
}
use memstem.Prelude.Table.{Table, lookup, Distinct, lookup-upsert, upsert-Distinct}
use memstem.Index.Result.{ok}
use memstem.Index.Store.{Index, Memory, upsert_memory, clear_displaced, displaced, write_memory}
use memstem.Pipeline.{
  lookup_record_mapping, record_mapping, record_body_hash, find_memory_id_for_body_hash, seen_again,
}

lookup-filter {ℓ} :
    {V : Type ℓ} (p : ℕ × V → Bool) (k : ℕ) (t : Table V)
    → Distinct t
    → lookup k (filter p t)
      ≡ elim (lookup k t) [ none ↦ none | some v ↦ if p (k, v) then some v else none ]
unfolding lookup filter
lookup-filter p k [] d = refl
lookup-filter p k ((j, v) ∷ t) d = ground (arith, lookup-filter p k t d.1, d.0, ==_iff j k)

pub filter-Distinct {ℓ} :
    {V : Type ℓ} (p : ℕ × V → Bool) (t : Table V) → Distinct t → Distinct (filter p t)
unfolding lookup filter
filter-Distinct p [] d = tt
filter-Distinct p ((j, v) ∷ t) d = ground (arith, filter-Distinct p t d.1, lookup-filter p j t d.1)

pub lookup-record_mapping :
    (source ref m : ℕ) (rows : List (ℕ × ℕ × ℕ))
    → lookup_record_mapping source ref (record_mapping source ref m rows) ≡ some m
unfolding lookup_record_mapping record_mapping
lookup-record_mapping source ref m rows = ground (arith, ==_self source, ==_self ref)

-- the index after the hash is recorded knows the body under the memory's id
pub find-record_body_hash :
    (hash m : ℕ) (ix : Index)
    → Distinct ix.body_hash_index
    → (find_memory_id_for_body_hash hash ix ≡ none)
      ⊎ (find_memory_id_for_body_hash hash ix ≡ some m)
    → (find_memory_id_for_body_hash hash (record_body_hash hash m ix) ≡ some m)
      × Distinct (record_body_hash hash m ix).body_hash_index
unfolding find_memory_id_for_body_hash record_body_hash
find-record_body_hash hash m ix d known = (
  ground (
    arith,
    known,
    lookup-upsert hash hash (record { memory_id = m; seen_count = 1 }) seen_again
        (filter (λ e. not (e.1.memory_id == m && not (e.0 == hash))) ix.body_hash_index),
    lookup-filter (λ e. not (e.1.memory_id == m && not (e.0 == hash))) hash ix.body_hash_index d,
    ==_self hash,
  ),
  upsert-Distinct hash _ seen_again _ (filter-Distinct _ ix.body_hash_index d),
)

pub upsert_memory-hashes :
    (m : Memory) (hash : ℕ) (ix ix' : Index)
    → Distinct ix.body_hash_index
    → upsert_memory m ix ≡ ok ix'
    → (find_memory_id_for_body_hash hash ix ≡ none)
      ⊎ (find_memory_id_for_body_hash hash ix ≡ some m.id)
    → Distinct ix'.body_hash_index
      × ((find_memory_id_for_body_hash hash ix' ≡ none)
          ⊎ (find_memory_id_for_body_hash hash ix' ≡ some m.id))
unfolding upsert_memory write_memory clear_displaced find_memory_id_for_body_hash
upsert_memory-hashes m hash ix ix' d done known =
    elim (Option-cases (displaced m.row.path m.id ix.memories)) [
      | inl none_there ↦ (ground (arith, d), ground (arith, known))
      | inr (old, there) ↦ (
        ground (arith, filter-Distinct (λ e. not (e.1.memory_id == old)) ix.body_hash_index d),
        ground (
          arith,
          known,
          lookup-filter (λ e. not (e.1.memory_id == old)) hash ix.body_hash_index d,
        ),
      )
    ]
