-- ===== src/Pipeline/Storing.antt =====
-- src/memstem/core/pipeline.py: a record that is stored, and the same record emitted again.
use mathlib.Core.Option
use memstem.Prelude.{
  ℕ, ◌≡◌, ◌≢◌, refl, ◌∙◌, ap, true, false, not, ◌&&◌, Option, none, some, arith, ==_iff, ==_self,
  Bool-cases, Option-cases, inl, inr, ◌⊎◌,
}
use memstem.Prelude.Table.{lookup, upsert, Distinct, lookup-upsert}
use memstem.Index.Result.{ok}
use memstem.Index.Queue.{Queue, enqueue_embed, fresh_row, requeue_row}
use memstem.Index.Store.{
  Index, Memory, MemoryRow, upsert_memory, repeats, has_memory, enqueue, needs_reembed,
}
use memstem.Index.Store.Orphans.{IsValid, upsert_memory-IsValid}
use memstem.Pipeline.{
  MemoryRecord, World, lookup_record_mapping, record_body_hash, find_memory_id_for_body_hash,
  map_ref, id_for_ref, is_duplicate, existing_memory, at_path, memory_of, enqueue_stale, store,
  ingest,
}
use memstem.Pipeline.Hashes.{lookup-record_mapping, find-record_body_hash, upsert_memory-hashes}

-- the memory is there, so its enqueue does not raise, and touches its own row alone
enqueue_stale-ok :
    (r : MemoryRecord) (signature now : ℕ) (m : Memory) (ix : Index)
    → has_memory m.id ix ≡ true
    → (q : Queue) × (enqueue_stale r signature now m ix ≡ ok (record ix { queue = q }))
      × ((k : ℕ) → k ≢ m.id → lookup k q ≡ lookup k ix.queue)
unfolding enqueue enqueue_embed
enqueue_stale-ok r signature now m ix there =
    elim (Bool-cases (not (r.is_expired m) && needs_reembed m.id r.body_hash signature ix)) [
      | inl e ↦ (
        enqueue_embed m.id now ix.queue,
        rw (e, enqueue, there) refl,
        λ k other.
            ground (
              arith,
              lookup-upsert m.id k (fresh_row now) (requeue_row now) ix.queue,
              ==_iff m.id k,
            ),
      )
      | inr e ↦ (ix.queue, rw e refl, λ k other. refl)
    ]

-- What the world holds of a stored memory: its file, its row, the mapping of its source, and its body's hash.
pub record IsStored (r : MemoryRecord) (m : Memory) (w : World) : Type 0 where
  pub file : lookup m.row.path w.vault ≡ some m
  pub row : lookup m.id w.index.memories ≡ some m.row
  pub mapping : lookup_record_mapping r.source r.ref w.index.record_map ≡ some m.id
  pub hash : find_memory_id_for_body_hash r.normalized_body_hash w.index ≡ some m.id
  pub valid : IsValid w.index
  pub distinct : Distinct w.index.body_hash_index

-- a mapping, a hash and a queue row of a memory that is there leave the tables valid
touched-IsValid :
    (r : MemoryRecord) (m : Memory) (ix : Index) (q : Queue)
    → IsValid ix
    → lookup m.id ix.memories ≡ some m.row
    → ((k : ℕ) → k ≢ m.id → lookup k q ≡ lookup k ix.queue)
    → IsValid
        (record (record_body_hash r.normalized_body_hash m.id (map_ref r m.id ix)) { queue = q })
unfolding record_body_hash
touched-IsValid r m ix q v there others = record {
  distinct = v.distinct;
  orphans = λ k gone.
      let old = v.orphans k gone in
      let other : k ≢ m.id = λ e. absurd (ground (arith, gone, there, e)) in
      record {
        tags = old.tags;
        links = old.links;
        fts = old.fts;
        queue = others k other ∙ old.queue;
        embed_state = old.embed_state;
        vectors = old.vectors;
        chunk_hashes = old.chunk_hashes;
        hash_owner = old.hash_owner;
      };
  paths = v.paths;
}

store-runs :
    (r : MemoryRecord) (signature now : ℕ) (m : Memory) (w : World) (ix ix' : Index)
    → upsert_memory m w.index ≡ ok ix
    → enqueue_stale r signature now m
        (record_body_hash r.normalized_body_hash m.id (map_ref r m.id ix))
      ≡ ok ix'
    → store r signature now m w
      ≡ (record { vault = upsert m.row.path m (λ _. m) w.vault; index = ix' }, ok (some m))
unfolding store
store-runs r signature now m w ix ix' done queued = rw (store, done, queued) refl

existing_memory-found :
    (m : Memory) (w : World)
    → lookup m.id w.index.memories ≡ some m.row
    → lookup m.row.path w.vault ≡ some m
    → existing_memory (some m.id) w ≡ some (at_path m.row.path m)
existing_memory-found m w row file = ground (arith, row, file)

has_memory-lookup :
    (m : ℕ) (row : MemoryRow) (ix : Index)
    → lookup m ix.memories ≡ some row
    → has_memory m ix ≡ true
unfolding has_memory
has_memory-lookup m row ix there = ground (arith, there)

pub store-IsStored :
    (r : MemoryRecord) (signature now : ℕ) (m : Memory) (w : World)
    → IsValid w.index
    → Distinct w.index.body_hash_index
    → repeats m.tags ≡ false
    → (find_memory_id_for_body_hash r.normalized_body_hash w.index ≡ none)
      ⊎ (find_memory_id_for_body_hash r.normalized_body_hash w.index ≡ some m.id)
    → (w' : World) × (store r signature now m w ≡ (w', ok (some m))) × IsStored r m w'
unfolding store find_memory_id_for_body_hash has_memory record_body_hash
store-IsStored r signature now m w v d once known =
    let (ix, done, valid, there) = upsert_memory-IsValid m w.index v once in
    let (distinct, hashes) =
      upsert_memory-hashes m r.normalized_body_hash w.index ix d done known in
    let indexed = record_body_hash r.normalized_body_hash m.id (map_ref r m.id ix) in
    let (found, once_each) =
      find-record_body_hash r.normalized_body_hash m.id (map_ref r m.id ix) distinct hashes in
    let (q, queued, others) =
      enqueue_stale-ok r signature now m indexed (has_memory-lookup m.id m.row indexed there) in
    (
      record { vault = upsert m.row.path m (λ _. m) w.vault; index = record indexed { queue = q } },
      store-runs r signature now m w ix _ done queued,
      record {
        file =
            ground
              (arith, lookup-upsert m.row.path m.row.path m (λ _. m) w.vault, ==_self m.row.path);
        row = there;
        mapping = lookup-record_mapping r.source r.ref m.id ix.record_map;
        hash = found;
        valid = touched-IsValid r m ix q valid there others;
        distinct = once_each;
      },
    )

-- where a record is no duplicate, its body's hash is unknown or known under the id of its own source
pub known_hash :
    (r : MemoryRecord) (fresh : ℕ) (w : World)
    → is_duplicate (find_memory_id_for_body_hash r.normalized_body_hash w.index) (id_for_ref r w)
      ≡ false
    → (find_memory_id_for_body_hash r.normalized_body_hash w.index ≡ none)
      ⊎ (find_memory_id_for_body_hash r.normalized_body_hash w.index
          ≡ some (Option.get_or (id_for_ref r w) fresh))
known_hash r fresh w new =
    elim (Option-cases (find_memory_id_for_body_hash r.normalized_body_hash w.index)) [
      | inl unknown ↦ inl unknown
      | inr (h, found) ↦ elim (Option-cases (id_for_ref r w)) [
        | inl none_there ↦ absurd (ground (arith, new, found, none_there))
        | inr (m, mapped) ↦ inr (ground (arith, new, found, mapped, ==_iff h m))
      ]
    ]

pub ingest-IsStored :
    (r : MemoryRecord) (valid_to : Option ℕ) (fresh signature now : ℕ) (w : World)
    → IsValid w.index
    → Distinct w.index.body_hash_index
    → is_duplicate (find_memory_id_for_body_hash r.normalized_body_hash w.index) (id_for_ref r w)
      ≡ false
    → ((m : ℕ) (old : Option Memory) → repeats (r.build valid_to m old).tags ≡ false)
    → (w' : World) × (m : Memory) × (ingest r valid_to fresh signature now w ≡ (w', ok (some m)))
      × (m
          ≡ memory_of r valid_to
              (Option.get_or (id_for_ref r w) fresh)
              (existing_memory (id_for_ref r w) w))
      × IsStored r m w'
unfolding ingest
ingest-IsStored r valid_to fresh signature now w v d new once =
    let m =
      memory_of r valid_to (Option.get_or (id_for_ref r w) fresh)
        (existing_memory (id_for_ref r w) w) in
    let (w', run, stored) =
      store-IsStored r signature now m w v d (once _ _) (known_hash r fresh w new) in
    (w', m, rw new run, refl, stored)

-- A stored record that is emitted again, with any frontmatter that repeats no tag, and is not the transcript of an
-- OpenClaw session that continues another memory, makes no second memory: it is stored under the same id and at
-- the same path, whatever fresh id is offered, and the world holds it as before.
pub ingest-again :
    (r : MemoryRecord) (valid_to : Option ℕ) (fresh signature now : ℕ) (m : Memory) (w : World)
    → IsStored r m w
    → r.openclaw_session ≡ none
    → ((k : ℕ) (old : Option Memory) → repeats (r.build valid_to k old).tags ≡ false)
    → (w' : World) × (m' : Memory) × (ingest r valid_to fresh signature now w ≡ (w', ok (some m')))
      × (m'.id ≡ m.id)
      × (m'.row.path ≡ m.row.path)
      × IsStored r m' w'
ingest-again r valid_to fresh signature now m w s plain once =
    let mapped : id_for_ref r w ≡ some m.id = rw (plain, s.mapping) refl in
    let new : is_duplicate (find_memory_id_for_body_hash r.normalized_body_hash w.index)
          (id_for_ref r w)
        ≡ false =
      rw (s.hash, mapped) (ground (arith, ==_self m.id)) in
    let (w', m', run, made, stored) =
      ingest-IsStored r valid_to fresh signature now w s.valid s.distinct new once in
    let old : existing_memory (id_for_ref r w) w ≡ some (at_path m.row.path m) =
      ap (λ o. existing_memory o w) mapped ∙ existing_memory-found m w s.row s.file in
    (
      w',
      m',
      run,
      ap (λ (x : Memory). x.id) made ∙ ap (λ o. Option.get_or o fresh) mapped,
      ap (λ (x : Memory). x.row.path) made
          ∙ ap (λ o. (memory_of r valid_to (Option.get_or (id_for_ref r w) fresh) o).row.path) old,
      stored,
    )
