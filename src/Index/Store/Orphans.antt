-- ===== src/Index/Store/Orphans.antt =====
-- How the tables of src/memstem/core/index.py stand together while memories are written and deleted: the
-- paths of the memories, and rows that belong to none.
use memstem.Prelude.{
  ℕ, ◌≡◌, ◌≢◌, false, not, ◌&&◌, none, some, [], ◌∷◌, arith, ◌==◌, ==_iff, Bool-cases, Option-cases,
  inl, inr,
}
use memstem.Prelude.Table.{
  Table, lookup, remove, Distinct, lookup-upsert, lookup-remove, upsert-Distinct, remove-Distinct,
}
use memstem.Index.Result.{ok}
use memstem.Index.Store.{
  Index, Memory, MemoryRow, displaced, clear_displaced, write_memory, upsert_memory, repeats,
  delete,
}

-- No tag, link, text, queue row, embed state, vector or chunk hash is kept for this memory.
pub record IsGone (ix : Index) (k : ℕ) : Type 0 where
  pub tags : ix.tags k ≡ []
  pub links : ix.links k ≡ []
  pub fts : ix.fts k ≡ []
  pub queue : lookup k ix.queue ≡ none
  pub embed_state : lookup k ix.embed_state ≡ none
  pub vectors : ix.vectors k ≡ []
  pub chunk_hashes : ix.chunk_hashes k ≡ []
  pub hash_owner : ix.hash_owner k ≡ none

pub record IsValid (ix : Index) : Type 0 where
  pub distinct : Distinct ix.memories
  pub orphans : (k : ℕ) → lookup k ix.memories ≡ none → IsGone ix k
  pub paths :
      (j k : ℕ) (r s : MemoryRow)
      → lookup j ix.memories ≡ some r
      → lookup k ix.memories ≡ some s
      → r.path ≡ s.path
      → j ≡ k

displaced-none :
    (path m : ℕ) (t : Table MemoryRow)
    → displaced path m t ≡ none
    → (k : ℕ) (r : MemoryRow) → lookup k t ≡ some r
    → r.path ≡ path
    → k ≡ m
unfolding displaced lookup
displaced-none path m [] h k r found e = cc
displaced-none path m ((j, s) ∷ t) h k r found e =
    ground (arith, displaced-none path m t (ground arith) k r, ==_iff j k, ==_iff j m)

displaced-some :
    (path m : ℕ) (t : Table MemoryRow) (old : ℕ)
    → Distinct t
    → displaced path m t ≡ some old
    → (r : MemoryRow) × (lookup old t ≡ some r) × (r.path ≡ path) × (old ≢ m)
unfolding displaced lookup
displaced-some path m [] old d h = cc
displaced-some path m ((j, s) ∷ t) old d h = elim (Bool-cases (s.path == path && not (j == m))) [
  | inl hit ↦ (s, ground (arith, ==_iff j old), ground arith, ground (arith, ==_iff j m))
  | inr miss ↦
      let (r, found, e, other) = displaced-some path m t old d.1 (ground arith) in
      (r, ground (arith, ==_iff j old), e, other)
]

module _ (old : ℕ) (ix : Index) (v : IsValid ix) where
  delete_orphans : (k : ℕ) → lookup k (remove old ix.memories) ≡ none → IsGone (delete old ix) k
  unfolding delete
  delete_orphans k h = ground (
    arith,
    v.orphans k,
    lookup-remove old k ix.memories,
    lookup-remove old k ix.queue,
    lookup-remove old k ix.embed_state,
  )

  -- Where the tables are valid, deleting a memory leaves nothing of its tags, links, text, queue row, embed state,
  -- vectors and chunk hashes, and keeps the tables valid.
  pub delete-IsValid : IsValid (delete old ix) × IsGone (delete old ix) old
  unfolding delete
  delete-IsValid = (
    record {
      distinct = remove-Distinct old ix.memories v.distinct;
      orphans = delete_orphans;
      paths = λ j k r s hj hk e.
          v.paths j k r s (ground (arith, lookup-remove old j ix.memories))
            (ground (arith, lookup-remove old k ix.memories)) e;
    },
    delete_orphans old (ground (arith, lookup-remove old old ix.memories)),
  )

-- no other memory has the path
abbrev IsFree : ℕ → ℕ → Index → Type 0
IsFree path m ix = (k : ℕ) (r : MemoryRow) → lookup k ix.memories ≡ some r → r.path ≡ path → k ≡ m

clear_displaced-IsFree :
    (m path : ℕ) (ix : Index)
    → IsValid ix
    → IsValid (clear_displaced (displaced path m ix.memories) ix)
      × IsFree path m (clear_displaced (displaced path m ix.memories) ix)
unfolding clear_displaced delete
clear_displaced-IsFree m path ix v = elim (Option-cases (displaced path m ix.memories)) [
  | inl none_there ↦ rw none_there (v, displaced-none path m ix.memories none_there)
  | inr (old, there) ↦
      let (r, found, e, other) = displaced-some path m ix.memories old v.distinct there in
      rw there (
        (delete-IsValid old ix v).0,
        λ k s hk p. ground (arith, lookup-remove old k ix.memories, v.paths old k r s),
      )
]

write_memory-IsValid :
    (m : Memory) (ix : Index) → IsValid ix → IsFree m.row.path m.id ix → IsValid (write_memory m ix)
unfolding write_memory
write_memory-IsValid m ix v free = record {
  distinct = upsert-Distinct m.id m.row (λ _. m.row) ix.memories v.distinct;
  orphans = λ k h. ground (arith, v.orphans k, lookup-upsert m.id k m.row (λ _. m.row) ix.memories);
  paths = λ j k r s hj hk e. ground (
    arith,
    lookup-upsert m.id j m.row (λ _. m.row) ix.memories,
    lookup-upsert m.id k m.row (λ _. m.row) ix.memories,
    free j r,
    free k s,
    v.paths j k r s,
    ==_iff m.id j,
    ==_iff m.id k,
  );
}

-- An upsert of a memory with no repeated tag succeeds and keeps the tables valid (one memory for each
-- path, and no tags, links, text, queue row, embed state, vectors or chunk hashes without their memory),
-- and the memory's row is stored.
pub upsert_memory-IsValid :
    (m : Memory) (ix : Index)
    → IsValid ix
    → repeats m.tags ≡ false
    → (ix' : Index) × (upsert_memory m ix ≡ ok ix')
      × IsValid ix'
      × (lookup m.id ix'.memories ≡ some m.row)
unfolding upsert_memory
upsert_memory-IsValid m ix v once =
    let (cleared, free) = clear_displaced-IsFree m.id m.row.path ix v in
    let ix' = clear_displaced (displaced m.row.path m.id ix.memories) ix in
    (
      write_memory m ix',
      rw once,
      write_memory-IsValid m ix' cleared free,
      unfold write_memory in
          ground (arith, lookup-upsert m.id m.id m.row (λ _. m.row) ix'.memories),
    )

-- When a memory takes the path of another one, nothing is left of the other one's tags, links, text, queue row,
-- embed state, vectors and chunk hashes.
pub upsert_memory-displaced :
    (m : Memory) (ix ix' : Index) (old : ℕ)
    → IsValid ix
    → displaced m.row.path m.id ix.memories ≡ some old
    → upsert_memory m ix ≡ ok ix'
    → IsGone ix' old
unfolding upsert_memory write_memory delete
upsert_memory-displaced m ix ix' old v there h =
    let (r, found, e, other) = displaced-some m.row.path m.id ix.memories old v.distinct there in
    let gone = (delete-IsValid old ix v).1 in ground (arith, ==_iff m.id old)

-- What survives an upsert: for every memory but the displaced one, its own one included, the state of its
-- embedding, its place in the queue, its vectors and its chunk hashes.
pub upsert_memory_keeps :
    (m : Memory) (ix ix' : Index) (k : ℕ)
    → upsert_memory m ix ≡ ok ix'
    → displaced m.row.path m.id ix.memories ≢ some k
    → (lookup k ix'.queue ≡ lookup k ix.queue)
      × (lookup k ix'.embed_state ≡ lookup k ix.embed_state)
      × (ix'.vectors k ≡ ix.vectors k)
      × (ix'.chunk_hashes k ≡ ix.chunk_hashes k)
unfolding upsert_memory write_memory clear_displaced
upsert_memory_keeps m ix ix' k h other =
    elim (Option-cases (displaced m.row.path m.id ix.memories)) [
      | inl none_there ↦ ground arith
      | inr (old, there) ↦
          ground
            (arith, ==_iff old k, lookup-remove old k ix.queue, lookup-remove old k ix.embed_state)
    ]
