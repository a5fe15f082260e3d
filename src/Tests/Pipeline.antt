-- ===== src/Tests/Pipeline.antt =====
-- A note that is emitted twice, one that repeats another's body, and a session that is retired.
use mathlib.Core.Option
use memstem.Prelude.{◌≡◌, refl, false, ◌&&◌, some, none, [], ◌∷◌, arith, ltb, ◌==◌, if◌then◌else◌}
use memstem.Prelude.Table.{lookup}
use memstem.Index.Result.{ok, err, integrity_error}
use memstem.Index.Store.{Memory}
use memstem.Index.Store.Orphans.{IsValid}
use memstem.Pipeline.{
  MemoryRecord, World, authored, session, keep, lookup_record_mapping, delete_record_mapping,
  count_record_mappings, find_memory_id_for_body_hash, seen_again, id_for_ref, existing_memory,
  memory_of, is_authored, retire_superseded_session, ingest, process,
}
use memstem.Pipeline.Storing.{IsStored, ingest-IsStored, ingest-again}
use memstem.Pipeline.Duplicates.{
  ingest-duplicate, retire_superseded_session-IsValid, ingest-repeated_tag,
}
use memstem.Pipeline.Validity.{IsSound, process-IsSound}
use memstem.Tests.Store.{one, one-IsValid, program}

-- a new note of source 1, ref 2, whose normalized body has the digest 44
abbrev note : MemoryRecord
note = record {
  source = 1;
  ref = 2;
  kind = authored;
  normalized_body_hash = 44;
  body_hash = 45;
  noise = keep;
  openclaw_session = none;
  build = λ valid_to m old. record {
    id = m;
    row = record { kind = 0; source = 1; title = none; body = 45; path = 71 };
    tags = 5 ∷ [];
    links = [];
    wikilinks = [];
  };
  is_expired = λ m. false;
}

-- memory 1 is held, its body with the digest 43
abbrev world : World
world = record {
  vault = [];
  index = record one {
    body_hash_index = (43, record { memory_id = 1; seen_count = 1 }) ∷ [];
    record_map = (7, 7, 1) ∷ [];
  };
}

world-IsValid : IsValid world.index
world-IsValid = record {
  distinct = one-IsValid.distinct;
  orphans = λ k gone.
      let old = one-IsValid.orphans k gone in
      record {
        tags = old.tags;
        links = old.links;
        fts = old.fts;
        queue = old.queue;
        embed_state = old.embed_state;
        vectors = old.vectors;
        chunk_hashes = old.chunk_hashes;
        hash_owner = old.hash_owner;
      };
  paths = one-IsValid.paths;
}

-- the world after the note is stored, for the runs that start from it
stored_once :
    (w' : World) × (m : Memory) × (ingest note none 9 3 50 world ≡ (w', ok (some m)))
    × (m
        ≡ memory_of note none
            (Option.get_or (id_for_ref note world) 9)
            (existing_memory (id_for_ref note world) world))
    × IsStored note m w'
unfolding program lookup_record_mapping find_memory_id_for_body_hash
stored_once = ingest-IsStored note none 9 3 50 world world-IsValid (refl, tt) refl (λ m old. refl)

ingest-again_example :
    (w' : World) × (m' : Memory) × (ingest note none 8 3 60 stored_once.0 ≡ (w', ok (some m')))
    × (m'.id ≡ stored_once.1.id)
    × (m'.row.path ≡ stored_once.1.row.path)
    × IsStored note m' w'
unfolding program
ingest-again_example =
    ingest-again note none 8 3 60 stored_once.1 stored_once.0 stored_once.4 refl (λ m old. refl)

-- another source with the body of memory 1
abbrev copy : MemoryRecord
copy = record note { normalized_body_hash = 43 }

ingest-duplicate_example :
    (w' : World) × (ingest copy none 9 3 50 world ≡ (w', ok none))
    × (w'.vault ≡ [])
    × (w'.index.memories ≡ world.index.memories)
    × (w'.index.queue ≡ world.index.queue)
    × (lookup 43 w'.index.body_hash_index
        ≡ some (seen_again (record { memory_id = 1; seen_count = 1 })))
    × (lookup_record_mapping 1 2 w'.index.record_map ≡ (
        if is_authored authored && (1 == 1 && 2 == 2)
        then some 1
        else lookup_record_mapping 1 2 world.index.record_map))
unfolding program lookup_record_mapping
ingest-duplicate_example =
    ingest-duplicate copy none 9 3 50 1 2 (record { memory_id = 1; seen_count = 1 }) world refl refl

abbrev old_session : MemoryRecord
old_session = record note { source = 7; ref = 7; kind = session }

retire_superseded_session-IsValid_example :
    IsValid (retire_superseded_session old_session 1 world).index
    × (lookup_record_mapping 7 7 (retire_superseded_session old_session 1 world).index.record_map
        ≡ none)
    × (lookup 1 (retire_superseded_session old_session 1 world).index.memories ≡ (
        if ltb 0 (count_record_mappings 1 (delete_record_mapping 7 7 world.index.record_map))
        then lookup 1 world.index.memories
        else none))
    × (lookup 2 (retire_superseded_session old_session 1 world).index.memories
        ≡ lookup 2 world.index.memories)
retire_superseded_session-IsValid_example =
    retire_superseded_session-IsValid old_session 1 2 world world-IsValid
      (λ e. absurd (omega (arith, e)))

-- the note with a tag given twice
abbrev twice_tagged : MemoryRecord
twice_tagged = record note {
  build = λ valid_to m old. record (note.build valid_to m old) { tags = 5 ∷ 5 ∷ [] };
}

ingest-repeated_tag_run :
    (w' : World) × (m : Memory) × (ingest twice_tagged none 9 3 50 world
      ≡ (w', err integrity_error))
    × (lookup m.row.path w'.vault ≡ some m)
    × (m.id ≡ Option.get_or (id_for_ref twice_tagged world) 9)
    × (w'.index ≡ world.index)
unfolding program lookup_record_mapping find_memory_id_for_body_hash
ingest-repeated_tag_run = ingest-repeated_tag twice_tagged none 9 3 50 world refl (λ m old. refl)

process-IsSound_example : IsSound (process note 9 3 50 world).0.index
unfolding program
process-IsSound_example = process-IsSound note 9 3 50 world (world-IsValid, (refl, tt))
