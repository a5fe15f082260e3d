-- ===== src/Pipeline.antt =====
-- src/memstem/core/pipeline.py and dedup.py: the ingestion of a record. Given with a record are the noise filter's
-- decision, the memory of an OpenClaw session that it continues, and the making of the frontmatter and path.
pub mod Filter
pub mod Hashes
pub mod Storing
pub mod Duplicates
pub mod Validity
use mathlib.Core.Option
use memstem.Prelude.{
  ℕ, zero, suc, ◌+◌, Bool, true, false, not, ◌&&◌, Option, none, some, List, [], ◌∷◌, ◌++◌, filter,
  length, ltb, ◌==◌, if◌then◌else◌,
}
use memstem.Prelude.Table.{Table, lookup, upsert, remove, modify}
use memstem.Index.Result.{Result, ok, err}
use memstem.Index.Store.{Index, Memory, HashRow, upsert_memory, delete, enqueue, needs_reembed}

-- the type of a record, as far as `_is_authored_type` and `_is_session_type` tell it
pub data Kind : Type 0 where
  authored : Kind
  session : Kind
  derived : Kind

-- `NoiseAction`, with the `valid_to` of a transient record
pub data Noise : Type 0 where
  keep : Noise
  drop : Noise
  tag_transient : ℕ → Noise

pub record MemoryRecord : Type 0 where
  pub source : ℕ
  pub ref : ℕ
  pub kind : Kind
  pub normalized_body_hash : ℕ
  pub body_hash : ℕ
  pub noise : Noise
  pub openclaw_session : Option Memory
  -- `_build_frontmatter` and `_path_for_memory`, for an expiry, an id and an existing memory
  pub build : Option ℕ → ℕ → Option Memory → Memory
  -- the frontmatter's `valid_to` is past
  pub is_expired : Memory → Bool

-- the vault, its files by their paths, and the index
pub record World : Type 0 where
  pub vault : Table Memory
  pub index : Index

abbrev pub is_mapping : ℕ → ℕ → ℕ × ℕ × ℕ → Bool
is_mapping source ref (s, r, m) = s == source && r == ref

unfoldable pub lookup_record_mapping : ℕ → ℕ → List (ℕ × ℕ × ℕ) → Option ℕ
lookup_record_mapping source ref [] = none
lookup_record_mapping source ref (e ∷ rows) =
    if is_mapping source ref e then some e.2 else lookup_record_mapping source ref rows

unfoldable pub delete_record_mapping : ℕ → ℕ → List (ℕ × ℕ × ℕ) → List (ℕ × ℕ × ℕ)
unfolding filter
delete_record_mapping source ref rows = filter (λ e. not (is_mapping source ref e)) rows

unfoldable pub count_record_mappings : ℕ → List (ℕ × ℕ × ℕ) → ℕ
unfolding filter
count_record_mappings memory_id rows = length (filter (λ e. e.2 == memory_id) rows)

-- INSERT OR REPLACE
unfoldable pub record_mapping : ℕ → ℕ → ℕ → List (ℕ × ℕ × ℕ) → List (ℕ × ℕ × ℕ)
unfolding delete_record_mapping
record_mapping source ref memory_id rows =
    (source, ref, memory_id) ∷ delete_record_mapping source ref rows

abbrev pub on_index : (Index → Index) → World → World
on_index f w = record w { index = f w.index }

unfoldable pub find_memory_id_for_body_hash : ℕ → Index → Option ℕ
find_memory_id_for_body_hash hash ix =
    Option.map (λ r. r.memory_id) (lookup hash ix.body_hash_index)

abbrev pub seen_again : HashRow → HashRow
seen_again r = record r { seen_count = suc r.seen_count }

unfoldable pub increment_seen_count : ℕ → Index → Index
increment_seen_count hash ix = record ix {
  body_hash_index = modify hash seen_again ix.body_hash_index;
}

unfoldable pub record_body_hash : ℕ → ℕ → Index → Index
unfolding filter
record_body_hash hash memory_id ix = record ix {
  body_hash_index =
      upsert hash (record { memory_id = memory_id; seen_count = 1 }) seen_again
        (filter (λ e. not (e.1.memory_id == memory_id && not (e.0 == hash))) ix.body_hash_index);
}

abbrev pub map_ref : MemoryRecord → ℕ → Index → Index
map_ref r m ix = record ix { record_map = record_mapping r.source r.ref m ix.record_map }

abbrev pub unmap_ref : MemoryRecord → Index → Index
unmap_ref r ix = record ix { record_map = delete_record_mapping r.source r.ref ix.record_map }

abbrev pub get_path : ℕ → Index → Option ℕ
get_path m ix = Option.map (λ r. r.path) (lookup m ix.memories)

abbrev pub delete_file : ℕ → Option ℕ → Table Memory → Table Memory
delete_file stale none vault = vault
delete_file stale (some path) vault = elim (lookup path vault) [
  | none ↦ vault
  | some m ↦ if m.id == stale then remove path vault else vault
]

unfoldable pub retire_superseded_session : MemoryRecord → ℕ → World → World
unfolding delete_record_mapping count_record_mappings delete
retire_superseded_session r stale w =
    let unmapped = on_index (unmap_ref r) w in
    if ltb 0 (count_record_mappings stale unmapped.index.record_map) then unmapped else record {
      vault = delete_file stale (get_path stale unmapped.index) w.vault;
      index = delete stale unmapped.index;
    }

abbrev pub is_session : Kind → Bool
is_session session = true
is_session _ = false

abbrev pub is_authored : Kind → Bool
is_authored authored = true
is_authored _ = false

-- `existing_id_for_ref`
abbrev pub id_for_ref : MemoryRecord → World → Option ℕ
id_for_ref r w = elim r.openclaw_session [
  | none ↦ lookup_record_mapping r.source r.ref w.index.record_map
  | some m ↦ some m.id
]

abbrev pub has_session : Option Memory → Bool
has_session none = false
has_session (some m) = true

-- what a record that the filter drops leaves behind
abbrev pub drop_record : MemoryRecord → World → World
drop_record r w =
    if not (has_session r.openclaw_session) && is_session r.kind
    then elim (lookup_record_mapping r.source r.ref w.index.record_map) [
      | none ↦ w
      | some stale ↦ retire_superseded_session r stale w
    ]
    else w

abbrev pub is_duplicate : Option ℕ → Option ℕ → Bool
is_duplicate none for_ref = false
is_duplicate (some m) none = true
is_duplicate (some m) (some k) = not (m == k)

-- `_record_mapping` for a new ref of an authored record, or the retirement of a session's old version
abbrev pub attach_ref : MemoryRecord → ℕ → Option ℕ → World → World
attach_ref r canonical none w = if is_authored r.kind then on_index (map_ref r canonical) w else w
attach_ref r canonical (some stale) w =
    if not (has_session r.openclaw_session) && is_session r.kind
    then retire_superseded_session r stale w
    else w

-- `vault.read` gives the memory the path that it is read from
abbrev pub at_path : ℕ → Memory → Memory
at_path path m = record m { row = record m.row { path = path } }

abbrev pub existing_memory : Option ℕ → World → Option Memory
existing_memory none w = none
existing_memory (some m) w = elim (get_path m w.index) [
  | none ↦ none
  | some path ↦ Option.map (at_path path) (lookup path w.vault)
]

-- the memory as written: the id, and the path of the existing memory where there is one
abbrev pub memory_of : MemoryRecord → Option ℕ → ℕ → Option Memory → Memory
memory_of r valid_to m existing =
    let built = r.build valid_to m existing in
    record built {
      id = m;
      row = record built.row {
        path = elim existing [ none ↦ built.row.path | some old ↦ old.row.path ];
      };
    }

-- the enqueue at the end, whose foreign key holds: the memory was just stored
abbrev pub enqueue_stale : MemoryRecord → ℕ → ℕ → Memory → Index → Result Index
enqueue_stale r signature now m ix =
    if not (r.is_expired m) && needs_reembed m.id r.body_hash signature ix
    then enqueue m.id now ix
    else ok ix

-- from `vault.write` on; an error leaves what was written before it
unfoldable pub store : MemoryRecord → ℕ → ℕ → Memory → World → World × Result (Option Memory)
unfolding record_mapping record_body_hash upsert_memory enqueue needs_reembed
store r signature now m w =
    let vault = upsert m.row.path m (λ _. m) w.vault in
    elim (upsert_memory m w.index) [
      | err e ↦ (record w { vault = vault }, err e)
      | ok ix ↦
          let indexed = record_body_hash r.normalized_body_hash m.id (map_ref r m.id ix) in
          elim (enqueue_stale r signature now m indexed) [
            | err e ↦ (record { vault = vault; index = indexed }, err e)
            | ok ix' ↦ (record { vault = vault; index = ix' }, ok (some m))
          ]
    ]

-- a record that passes the filter; `fresh` is what `uuid4` gives
unfoldable pub ingest : MemoryRecord → Option ℕ → ℕ → ℕ → ℕ → World → World × Result (Option Memory)
unfolding store lookup_record_mapping find_memory_id_for_body_hash retire_superseded_session
    increment_seen_count
ingest r valid_to fresh signature now w =
    let for_ref = id_for_ref r w in
    let for_hash = find_memory_id_for_body_hash r.normalized_body_hash w.index in
    if is_duplicate for_hash for_ref
    then (
      attach_ref r (Option.get_or for_hash 0) for_ref
          (on_index (increment_seen_count r.normalized_body_hash) w),
      ok none,
    )
    else store r signature now
        (memory_of r valid_to (Option.get_or for_ref fresh) (existing_memory for_ref w)) w

unfoldable pub process : MemoryRecord → ℕ → ℕ → ℕ → World → World × Result (Option Memory)
unfolding ingest retire_superseded_session lookup_record_mapping
process r fresh signature now w = elim r.noise [
  | drop ↦ (drop_record r w, ok none)
  | keep ↦ ingest r none fresh signature now w
  | tag_transient valid_to ↦ ingest r (some valid_to) fresh signature now w
]
