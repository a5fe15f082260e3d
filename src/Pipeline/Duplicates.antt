-- ===== src/Pipeline/Duplicates.antt =====
-- src/memstem/core/pipeline.py: a record whose body is held already, a session that is retired, and an error
-- between the vault and the index.
use mathlib.Core.Option
use memstem.Prelude.{
  ℕ, ◌≡◌, ◌≢◌, refl, true, false, ◌&&◌, Option, none, some, List, [], ◌∷◌, arith, filter, ◌==◌,
  ==_iff, ==_self, ltb, if◌then◌else◌, Bool-cases, inl, inr,
}
use memstem.Prelude.Table.{lookup, upsert, lookup-upsert, lookup-modify, lookup-remove}
use memstem.Index.Result.{ok, err, integrity_error}
use memstem.Index.Store.{Index, Memory, HashRow, upsert_memory, repeats, delete}
use memstem.Index.Store.Orphans.{IsValid, delete-IsValid}
use memstem.Pipeline.{
  MemoryRecord, World, is_authored, lookup_record_mapping, delete_record_mapping,
  count_record_mappings, record_mapping, find_memory_id_for_body_hash, increment_seen_count,
  seen_again, unmap_ref, on_index, id_for_ref, is_duplicate, attach_ref, existing_memory, memory_of,
  retire_superseded_session, store, ingest,
}

lookup-delete_record_mapping :
    (source ref s f : ℕ) (rows : List (ℕ × ℕ × ℕ))
    → lookup_record_mapping s f (delete_record_mapping source ref rows)
      ≡ (if s == source && f == ref then none else lookup_record_mapping s f rows)
unfolding lookup_record_mapping delete_record_mapping filter
lookup-delete_record_mapping source ref s f [] = ground arith
lookup-delete_record_mapping source ref s f ((a, b, m) ∷ rows) = ground (
  arith,
  lookup-delete_record_mapping source ref s f rows,
  ==_iff a source,
  ==_iff b ref,
  ==_iff a s,
  ==_iff b f,
  ==_iff s source,
  ==_iff f ref,
)

lookup-record_mapping :
    (source ref m s f : ℕ) (rows : List (ℕ × ℕ × ℕ))
    → lookup_record_mapping s f (record_mapping source ref m rows)
      ≡ (if s == source && f == ref then some m else lookup_record_mapping s f rows)
unfolding lookup_record_mapping record_mapping
lookup-record_mapping source ref m s f rows = ground (
  arith,
  lookup-delete_record_mapping source ref s f rows,
  ==_iff source s,
  ==_iff ref f,
  ==_iff s source,
  ==_iff f ref,
)

-- A record from a new source whose body another memory holds makes no memory: the vault, the memories and the queue
-- are as before, the body counts as seen once more, and the source is mapped to that memory exactly where
-- the record is of an authored type; no other source changes its mapping.
pub ingest-duplicate :
    (r : MemoryRecord) (valid_to : Option ℕ) (fresh signature now s f : ℕ) (row : HashRow)
    (w : World)
    → lookup r.normalized_body_hash w.index.body_hash_index ≡ some row
    → id_for_ref r w ≡ none
    → (w' : World) × (ingest r valid_to fresh signature now w ≡ (w', ok none))
      × (w'.vault ≡ w.vault)
      × (w'.index.memories ≡ w.index.memories)
      × (w'.index.queue ≡ w.index.queue)
      × (lookup r.normalized_body_hash w'.index.body_hash_index ≡ some (seen_again row))
      × (lookup_record_mapping s f w'.index.record_map ≡ (
          if is_authored r.kind && (s == r.source && f == r.ref)
          then some row.memory_id
          else lookup_record_mapping s f w.index.record_map))
unfolding ingest find_memory_id_for_body_hash increment_seen_count
ingest-duplicate r valid_to fresh signature now s f row w held unmapped = (
  attach_ref r row.memory_id none (on_index (increment_seen_count r.normalized_body_hash) w),
  rw (ingest, unmapped, held) refl,
  ground arith,
  ground arith,
  ground arith,
  ground (
    arith,
    held,
    lookup-modify r.normalized_body_hash r.normalized_body_hash seen_again w.index.body_hash_index,
    ==_self r.normalized_body_hash,
  ),
  ground (arith, lookup-record_mapping r.source r.ref row.memory_id s f w.index.record_map),
)

pub unmap_ref-IsValid : (r : MemoryRecord) (ix : Index) → IsValid ix → IsValid (unmap_ref r ix)
unmap_ref-IsValid r ix v = record {
  distinct = v.distinct;
  orphans = λ k gone.
      let old = v.orphans k gone in
      record {
        tags = old.tags;
        links = old.links;
        fts = old.fts;
        queue = old.queue;
        embed_state = old.embed_state;
        vectors = old.vectors;
        chunk_hashes = old.chunk_hashes;
        hash_owner = old.hash_owner;
      };
  paths = v.paths;
}

-- Retiring the old version of a session drops the mapping of its source, and the memory exactly where no other
-- source maps to it; every other memory stays, and the tables stay valid, so that a memory that goes takes its tags,
-- links, text, queue row, embed state and vectors along.
pub retire_superseded_session-IsValid :
    (r : MemoryRecord) (stale k : ℕ) (w : World)
    → IsValid w.index
    → k ≢ stale
    → IsValid (retire_superseded_session r stale w).index
      × (lookup_record_mapping r.source r.ref (retire_superseded_session r stale w).index.record_map
          ≡ none)
      × (lookup stale (retire_superseded_session r stale w).index.memories ≡ (
          if ltb 0
            (count_record_mappings stale (delete_record_mapping r.source r.ref w.index.record_map))
          then lookup stale w.index.memories
          else none))
      × (lookup k (retire_superseded_session r stale w).index.memories ≡ lookup k w.index.memories)
unfolding retire_superseded_session delete
retire_superseded_session-IsValid r stale k w v other =
    let unmapped = unmap_ref-IsValid r w.index v in
    let (valid, gone) = delete-IsValid stale (unmap_ref r w.index) unmapped in
    let mapping = lookup-delete_record_mapping r.source r.ref r.source r.ref w.index.record_map in
    elim (Bool-cases (
      ltb 0
        (count_record_mappings stale (delete_record_mapping r.source r.ref w.index.record_map)))) [
          | inl e ↦
              rw e (unmapped, ground (arith, mapping, ==_self r.source, ==_self r.ref), refl, refl)
          | inr e ↦ rw e (
            valid,
            ground (arith, mapping, ==_self r.source, ==_self r.ref),
            ground (arith, lookup-remove stale stale w.index.memories, ==_self stale),
            ground (arith, lookup-remove stale k w.index.memories, ==_iff stale k),
          )
        ]

-- A record with a tag that its frontmatter repeats raises after its file is written: the vault holds the memory, and
-- the index nothing of it, neither its row nor the mapping of its source.
pub ingest-repeated_tag :
    (r : MemoryRecord) (valid_to : Option ℕ) (fresh signature now : ℕ) (w : World)
    → is_duplicate (find_memory_id_for_body_hash r.normalized_body_hash w.index) (id_for_ref r w)
      ≡ false
    → ((m : ℕ) (old : Option Memory) → repeats (r.build valid_to m old).tags ≡ true)
    → (w' : World) × (m : Memory) × (ingest r valid_to fresh signature now w
        ≡ (w', err integrity_error))
      × (lookup m.row.path w'.vault ≡ some m)
      × (m.id ≡ Option.get_or (id_for_ref r w) fresh)
      × (w'.index ≡ w.index)
unfolding ingest store upsert_memory
ingest-repeated_tag r valid_to fresh signature now w new twice =
    let m =
      memory_of r valid_to (Option.get_or (id_for_ref r w) fresh)
        (existing_memory (id_for_ref r w) w) in
    (
      record w { vault = upsert m.row.path m (λ _. m) w.vault },
      m,
      rw (ingest, new, store, twice) refl,
      ground (arith, lookup-upsert m.row.path m.row.path m (λ _. m) w.vault, ==_self m.row.path),
      refl,
      refl,
    )
