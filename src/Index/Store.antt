-- ===== src/Index/Store.antt =====
-- The tables of src/memstem/core/index.py, and the methods of `Index` that write memories. Ids,
-- digests, paths, tags and the other texts that the code only compares are numbers. `vectors` holds the rows of
-- `memories_vec` and `chunk_hashes` those of `vec_chunk_hashes`, for each memory by chunk index;
-- `hash_owner` is the row with chunk index -1.
pub mod Orphans
pub mod Embedded
use memstem.Prelude.{
  ℕ, ◌+◌, Bool, true, false, not, ◌&&◌, ◌||◌, Option, none, some, List, [], ◌∷◌, ◌++◌, map, filter,
  elem, leb, ◌==◌, opt_eq, if◌then◌else◌, length,
}
use memstem.Prelude.Sorting.{sort_by}
use memstem.Prelude.Table.{Table, lookup, upsert, remove}
use memstem.Index.Result.{Result, ok, err, integrity_error}
use memstem.Index.Queue.{Queue, fresh_row, requeue_row, enqueue_embed}

pub record MemoryRow : Type 0 where
  pub kind : ℕ
  pub source : ℕ
  pub title : Option ℕ
  pub body : ℕ
  pub path : ℕ

pub record FtsRow : Type 0 where
  pub title : Option ℕ
  pub body : ℕ
  pub tags : List ℕ

pub record EmbedState : Type 0 where
  pub body_hash : Option ℕ
  pub embed_signature : Option ℕ

pub record HashRow : Type 0 where
  pub memory_id : ℕ
  pub seen_count : ℕ

-- float32 values, as their bit patterns
abbrev pub Vector : Type 0
Vector = List ℕ

pub record Index : Type 0 where
  pub memories : Table MemoryRow
  pub tags : ℕ → List ℕ
  pub links : ℕ → List ℕ
  pub fts : ℕ → List FtsRow
  pub queue : Queue
  pub embed_state : Table EmbedState
  pub body_hash_index : Table HashRow
  pub vectors : ℕ → Table Vector
  pub chunk_hashes : ℕ → Table ℕ
  pub hash_owner : ℕ → Option ℕ
  pub record_map : List (ℕ × ℕ × ℕ)
  pub embedding_signature : Option ℕ

-- the rows of one memory, replaced
abbrev pub set_at {ℓ} : {A : Type ℓ} → ℕ → A → (ℕ → A) → ℕ → A
set_at k a f j = if k == j then a else f j

-- a `Memory` with the fields that the index stores, and the targets that `extract_wikilinks` finds
-- in its body
pub record Memory : Type 0 where
  pub id : ℕ
  pub row : MemoryRow
  pub tags : List ℕ
  pub links : List ℕ
  pub wikilinks : List ℕ

unfoldable pub delete_vectors : ℕ → Index → Index
delete_vectors m ix = record ix {
  vectors = set_at m [] ix.vectors;
  chunk_hashes = set_at m [] ix.chunk_hashes;
  hash_owner = set_at m none ix.hash_owner;
}

-- `DELETE FROM memories`, with the tables that declare ON DELETE CASCADE
unfoldable pub delete_row : ℕ → Index → Index
delete_row m ix = record ix {
  memories = remove m ix.memories;
  tags = set_at m [] ix.tags;
  links = set_at m [] ix.links;
  queue = remove m ix.queue;
  embed_state = remove m ix.embed_state;
  body_hash_index = filter (λ e. not (e.1.memory_id == m)) ix.body_hash_index;
  chunk_hashes = set_at m [] ix.chunk_hashes;
  hash_owner = set_at m none ix.hash_owner;
}

unfoldable pub delete_fts : ℕ → Index → Index
delete_fts m ix = record ix { fts = set_at m [] ix.fts }

-- the first row with this path and another id
unfoldable pub displaced : ℕ → ℕ → Table MemoryRow → Option ℕ
displaced path m [] = none
displaced path m ((k, r) ∷ t) =
    if r.path == path && not (k == m) then some k else displaced path m t

unfoldable pub clear_displaced : Option ℕ → Index → Index
unfolding delete_row delete_fts delete_vectors
clear_displaced none ix = ix
clear_displaced (some old) ix = delete_row old (delete_vectors old (delete_fts old ix))

-- the same tag twice breaks the primary key of `tags`
unfoldable pub repeats : List ℕ → Bool
unfolding elem
repeats [] = false
repeats (x ∷ xs) = elem x xs || repeats xs

-- `sorted(set(xs))`
unfoldable pub distinct_of : List ℕ → List ℕ
unfolding elem
distinct_of [] = []
distinct_of (x ∷ xs) = let rest = distinct_of xs in if elem x xs then rest else x ∷ rest

unfoldable pub link_targets : Memory → List ℕ
unfolding distinct_of
link_targets m = sort_by leb (distinct_of (m.links ++ m.wikilinks))

unfoldable pub write_memory : Memory → Index → Index
unfolding link_targets
write_memory m ix = record ix {
  memories = upsert m.id m.row (λ _. m.row) ix.memories;
  tags = set_at m.id m.tags ix.tags;
  links = set_at m.id (link_targets m) ix.links;
  fts = set_at m.id (record { title = m.row.title; body = m.row.body; tags = m.tags } ∷ []) ix.fts;
}

unfoldable pub upsert_memory : Memory → Index → Result Index
unfolding displaced clear_displaced repeats write_memory
upsert_memory m ix =
    if repeats m.tags
    then err integrity_error
    else ok (write_memory m (clear_displaced (displaced m.row.path m.id ix.memories) ix))

unfoldable pub delete : ℕ → Index → Index
unfolding delete_vectors delete_fts delete_row
delete m ix = delete_row m (delete_fts m (delete_vectors m ix))

-- the chunks removed are counted
unfoldable pub strip_vectors : ℕ → Index → Index × ℕ
unfolding delete_vectors
strip_vectors m ix =
    (record (delete_vectors m ix) { queue = remove m ix.queue }, length (ix.vectors m))

unfoldable pub has_memory : ℕ → Index → Bool
has_memory m ix = elim (lookup m ix.memories) [ none ↦ false | some r ↦ true ]

-- the foreign key of `embed_queue`
unfoldable pub enqueue : ℕ → ℕ → Index → Result Index
unfolding has_memory
enqueue m now ix =
    if has_memory m ix
    then ok (record ix { queue = enqueue_embed m now ix.queue })
    else err integrity_error

unfoldable pub needs_reembed : ℕ → ℕ → ℕ → Index → Bool
needs_reembed m content_hash signature ix = elim (lookup m ix.embed_state) [
  | none ↦ true
  | some s ↦
      not (opt_eq s.body_hash (some content_hash))
      || elim s.embed_signature [ none ↦ false | some stored ↦ not (stored == signature) ]
]

abbrev pub embedded_row : ℕ → ℕ → EmbedState
embedded_row content_hash signature = record {
  body_hash = some content_hash;
  embed_signature = some signature;
}

-- without a parent row the foreign key refuses the INSERT, and orphan vectors are cleaned
unfoldable pub record_embed_state : ℕ → ℕ → ℕ → Index → Index
unfolding has_memory delete_vectors
record_embed_state m content_hash signature ix =
    let row = embedded_row content_hash signature in
    if has_memory m ix
    then record ix { embed_state = upsert m row (λ _. row) ix.embed_state }
    else delete_vectors m ix

-- the INSERT … SELECT of the sweep, row by row of `embed_state`
unfoldable pub requeue_stale : ℕ → ℕ → Table EmbedState → Queue → Queue
requeue_stale now signature [] q = q
requeue_stale now signature ((m, s) ∷ t) q = requeue_stale now signature t (
    if elim s.embed_signature [ none ↦ false | some stored ↦ not (stored == signature) ]
    then enqueue_embed m now q
    else q)

pub data Verdict : Type 0 where
  verdict_ok verdict_stamped verdict_changed : Verdict

unfoldable pub verify_embedding_signature : ℕ → ℕ → Index → Index × Verdict
unfolding requeue_stale
verify_embedding_signature now signature ix =
    let stamped = record ix { embedding_signature = some signature } in
    elim ix.embedding_signature [
      | none ↦ (stamped, verdict_stamped)
      | some stored ↦ if stored == signature then (ix, verdict_ok) else (
        record stamped { queue = requeue_stale now signature ix.embed_state ix.queue },
        verdict_changed,
      )
    ]
