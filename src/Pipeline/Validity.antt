-- ===== src/Pipeline/Validity.antt =====
-- src/memstem/core/pipeline.py: the tables of the index through every branch of an ingestion.
use mathlib.Core.Option
use memstem.Prelude.{
  ℕ, ◌≡◌, refl, true, false, not, ◌&&◌, Option, none, some, List, ◌==◌, ltb, Bool-cases,
  Option-cases, inl, inr,
}
use memstem.Prelude.Table.{Distinct, modify-Distinct}
use memstem.Index.Store.{Index, Memory, repeats, upsert_memory}
use memstem.Index.Store.Orphans.{IsValid, delete-IsValid}
use memstem.Pipeline.{
  MemoryRecord, World, Noise, keep, drop, tag_transient, lookup_record_mapping,
  delete_record_mapping, count_record_mappings, record_mapping, increment_seen_count, seen_again,
  on_index, unmap_ref, find_memory_id_for_body_hash, retire_superseded_session, drop_record,
  has_session, is_session, is_authored, attach_ref, id_for_ref, is_duplicate, existing_memory,
  memory_of, store, ingest, process,
}
use memstem.Pipeline.Hashes.{filter-Distinct}
use memstem.Pipeline.Storing.{store-IsStored, known_hash}
use memstem.Pipeline.Duplicates.{unmap_ref-IsValid}

abbrev pub IsSound : Index → Type 0
IsSound ix = IsValid ix × Distinct ix.body_hash_index

-- a change of the mappings or of the counts of the hashes leaves the tables valid
same_tables :
    (ix : Index) (rows : List (ℕ × ℕ × ℕ)) (hash : ℕ)
    → IsSound ix
    → IsSound (record (increment_seen_count hash ix) { record_map = rows })
unfolding increment_seen_count
same_tables ix rows hash (v, d) = (
  record {
    distinct = v.distinct;
    orphans = λ k gone.
        let old = v.orphans k gone in
        record {
          tags = old.tags;
          links = old.links;
          fts = old.fts;
          queue = old.queue;
          embed_state = old.embed_state;
          vectors = old.vectors;
          chunk_hashes = old.chunk_hashes;
          hash_owner = old.hash_owner;
        };
    paths = v.paths;
  },
  modify-Distinct hash seen_again ix.body_hash_index d,
)

retire-IsSound :
    (r : MemoryRecord) (stale : ℕ) (w : World)
    → IsSound w.index
    → IsSound (retire_superseded_session r stale w).index
unfolding retire_superseded_session
retire-IsSound r stale w (v, d) =
    let unmapped = unmap_ref-IsValid r w.index v in
    elim (Bool-cases (
      ltb 0
        (count_record_mappings stale (delete_record_mapping r.source r.ref w.index.record_map)))) [
          | inl e ↦ rw e (unmapped, d)
          | inr e ↦ rw e (
            (delete-IsValid stale (unmap_ref r w.index) unmapped).0,
            filter-Distinct (λ b. not (b.1.memory_id == stale)) w.index.body_hash_index d,
          )
        ]

drop_record-IsSound :
    (r : MemoryRecord) (w : World) → IsSound w.index → IsSound (drop_record r w).index
drop_record-IsSound r w s =
    elim (Bool-cases (not (has_session r.openclaw_session) && is_session r.kind)) [
      | inr e ↦ rw e s
      | inl e ↦ elim (Option-cases (lookup_record_mapping r.source r.ref w.index.record_map)) [
        | inl unmapped ↦ rw (e, unmapped) s
        | inr (stale, mapped) ↦ rw (e, mapped) (retire-IsSound r stale w s)
      ]
    ]

attach_ref-IsSound :
    (r : MemoryRecord) (canonical : ℕ) (for_ref : Option ℕ) (w : World)
    → IsSound w.index
    → IsSound
        (attach_ref r canonical for_ref
          (on_index (increment_seen_count r.normalized_body_hash) w)).index
unfolding increment_seen_count
attach_ref-IsSound r canonical none w s = elim (Bool-cases (is_authored r.kind)) [
  | inl e ↦ rw e (
      same_tables w.index (record_mapping r.source r.ref canonical w.index.record_map)
        r.normalized_body_hash s)
  | inr e ↦ rw e (same_tables w.index w.index.record_map r.normalized_body_hash s)
]
attach_ref-IsSound r canonical (some stale) w s =
    let counted = same_tables w.index w.index.record_map r.normalized_body_hash s in
    elim (Bool-cases (not (has_session r.openclaw_session) && is_session r.kind)) [
      | inl e ↦ rw e (
          retire-IsSound r stale (on_index (increment_seen_count r.normalized_body_hash) w) counted)
      | inr e ↦ rw e counted
    ]

store-repeated :
    (r : MemoryRecord) (signature now : ℕ) (m : Memory) (w : World)
    → repeats m.tags ≡ true
    → (store r signature now m w).0.index ≡ w.index
unfolding store upsert_memory
store-repeated r signature now m w twice = rw (store, twice) refl

store-IsSound :
    (r : MemoryRecord) (signature now : ℕ) (m : Memory) (fresh : ℕ) (w : World)
    → is_duplicate (find_memory_id_for_body_hash r.normalized_body_hash w.index) (id_for_ref r w)
      ≡ false
    → m.id ≡ Option.get_or (id_for_ref r w) fresh
    → IsSound w.index
    → IsSound (store r signature now m w).0.index
store-IsSound r signature now m fresh w new made (v, d) = elim (Bool-cases (repeats m.tags)) [
  | inl twice ↦ rw (store-repeated r signature now m w twice) (v, d)
  | inr once ↦
      let (w', run, stored) =
        store-IsStored r signature now m w v d once (rw made (known_hash r fresh w new)) in
      rw run (stored.valid, stored.distinct)
]

ingest-IsSound :
    (r : MemoryRecord) (valid_to : Option ℕ) (fresh signature now : ℕ) (w : World)
    → IsSound w.index
    → IsSound (ingest r valid_to fresh signature now w).0.index
unfolding ingest
ingest-IsSound r valid_to fresh signature now w s =
    let for_hash = find_memory_id_for_body_hash r.normalized_body_hash w.index in
    elim (Bool-cases (is_duplicate for_hash (id_for_ref r w))) [
      | inl dup ↦ rw dup (attach_ref-IsSound r (Option.get_or for_hash 0) (id_for_ref r w) w s)
      | inr new ↦ rw new (
          store-IsSound r signature now
            (memory_of r valid_to (Option.get_or (id_for_ref r w) fresh)
              (existing_memory (id_for_ref r w) w))
            fresh w new refl s)
    ]

process-by_noise :
    (n : Noise) (r : MemoryRecord) (fresh signature now : ℕ) (w : World)
    → r.noise ≡ n
    → IsSound w.index
    → IsSound (process r fresh signature now w).0.index
unfolding process
process-by_noise keep r fresh signature now w e s =
    rw e (ingest-IsSound r none fresh signature now w s)
process-by_noise drop r fresh signature now w e s = rw e (drop_record-IsSound r w s)
process-by_noise (tag_transient at) r fresh signature now w e s =
    rw e (ingest-IsSound r (some at) fresh signature now w s)

-- Whatever record is ingested, stored, dropped as noise, skipped as a duplicate or failing half way, the tables of
-- the index stay valid: one memory for each path, no tags, links, text, queue row, embed state, vectors or chunk
-- hashes of a memory that is not there, and one row for each body hash.
pub process-IsSound :
    (r : MemoryRecord) (fresh signature now : ℕ) (w : World)
    → IsSound w.index
    → IsSound (process r fresh signature now w).0.index
process-IsSound r fresh signature now w s = process-by_noise r.noise r fresh signature now w refl s
