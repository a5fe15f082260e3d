-- ===== src/Tests/Store.antt =====
-- The tables of the index on concrete memories.
use mathlib.Core.Path.{subst}
use memstem.Prelude.{
  ℕ, ◌≡◌, refl, not, ◌||◌, none, some, [], ◌∷◌, arith, ◌==◌, elem, filter, if◌then◌else◌,
}
use memstem.Prelude.Sorting.{sort_by}
use memstem.Prelude.Table.{lookup, upsert, remove}
use memstem.Index.Result.{ok, err, integrity_error}
use memstem.Index.Queue.{enqueue_embed, fresh_row}
use memstem.Index.Store.{
  Index, Memory, repeats, displaced, upsert_memory, write_memory, clear_displaced, delete,
  delete_vectors, delete_row, delete_fts, has_memory, needs_reembed, record_embed_state,
  verify_embedding_signature, verdict_changed, link_targets, distinct_of, embedded_row,
}
use memstem.Index.Store.Orphans.{
  IsGone, IsValid, upsert_memory-IsValid, upsert_memory-displaced, upsert_memory_keeps,
  delete-IsValid,
}
use memstem.Index.Store.Embedded.{
  needs_reembed-record_embed_state, verify_embedding_signature-changed, is_stale, requeued,
}

abbrev pub empty_index : Index
empty_index = record {
  memories = [];
  tags = λ k. [];
  links = λ k. [];
  fts = λ k. [];
  queue = [];
  embed_state = [];
  body_hash_index = [];
  vectors = λ k. [];
  chunk_hashes = λ k. [];
  hash_owner = λ k. none;
  record_map = [];
  embedding_signature = none;
}

-- memory `id` with the body 40 at the path
abbrev note : ℕ → ℕ → Memory
note id path = record {
  id = id;
  row = record { kind = 0; source = 1; title = none; body = 40; path = path };
  tags = 5 ∷ 6 ∷ [];
  links = 9 ∷ [];
  wikilinks = 8 ∷ 9 ∷ [];
}

unfoldable pub program : Unit {0}
unfolding lookup upsert remove filter elem sort_by upsert_memory clear_displaced write_memory
    link_targets distinct_of displaced delete_vectors delete_row delete_fts repeats has_memory
    record_embed_state verify_embedding_signature enqueue_embed
program = tt

-- memory 1 at path 70, and what is left of it when memory 2 takes the path
abbrev pub one : Index
one = write_memory (note 1 70) empty_index

abbrev two : Index
two = write_memory (note 2 70) (clear_displaced (some 1) one)

links_sorted : link_targets (note 1 70) ≡ 8 ∷ 9 ∷ []
unfolding program
links_sorted = refl

repeated_tag : upsert_memory (record (note 3 71) { tags = 5 ∷ 5 ∷ [] }) one ≡ err integrity_error
unfolding program
repeated_tag = refl

one-upsert : upsert_memory (note 1 70) empty_index ≡ ok one
unfolding program
one-upsert = refl

two-upsert : upsert_memory (note 2 70) one ≡ ok two
unfolding program
two-upsert = refl

empty_index-IsValid : IsValid empty_index
unfolding program
empty_index-IsValid = record {
  distinct = tt;
  orphans = λ k h. record {
    tags = refl;
    links = refl;
    fts = refl;
    queue = refl;
    embed_state = refl;
    vectors = refl;
    chunk_hashes = refl;
    hash_owner = refl;
  };
  paths = λ j k r s hj hk e. cc;
}

pub one-IsValid : IsValid one
unfolding program
one-IsValid =
    let (ix', stored, valid, _) =
      upsert_memory-IsValid (note 1 70) empty_index empty_index-IsValid refl in
    let same : ix' ≡ one = cc one-upsert in subst IsValid same valid

upsert_memory-IsValid_example :
    (ix : Index) × (upsert_memory (note 2 70) one ≡ ok ix)
    × IsValid ix
    × (lookup 2 ix.memories ≡ some (note 2 70).row)
unfolding program
upsert_memory-IsValid_example = upsert_memory-IsValid (note 2 70) one one-IsValid refl

upsert_memory-displaced_run : IsGone two 1
unfolding program
upsert_memory-displaced_run =
    upsert_memory-displaced (note 2 70) one two 1 one-IsValid refl two-upsert

abbrev embedded : Index
embedded = record one {
  embed_state = (1, embedded_row 40 3) ∷ [];
  embedding_signature = some 3;
  queue = (1, fresh_row 12) ∷ [];
}

abbrev rewritten : Index
rewritten = write_memory (note 1 71) embedded

upsert_memory_keeps_example :
    (lookup 1 rewritten.queue ≡ lookup 1 embedded.queue)
    × (lookup 1 rewritten.embed_state ≡ lookup 1 embedded.embed_state)
    × (rewritten.vectors 1 ≡ embedded.vectors 1)
    × (rewritten.chunk_hashes 1 ≡ embedded.chunk_hashes 1)
unfolding program
upsert_memory_keeps_example = upsert_memory_keeps (note 1 71) embedded rewritten 1 refl (λ e. cc)

delete-IsValid_run : IsValid (delete 1 one) × IsGone (delete 1 one) 1
delete-IsValid_run = delete-IsValid 1 one one-IsValid

needs_reembed-record_embed_state_run :
    needs_reembed 1 41 3 (record_embed_state 1 40 3 one) ≡ (not (40 == 41) || not (3 == 3))
unfolding program
needs_reembed-record_embed_state_run = needs_reembed-record_embed_state 1 40 3 41 3 one refl

verify_embedding_signature-changed_example :
    ((verify_embedding_signature 50 4 embedded).1 ≡ verdict_changed)
    × (lookup 1 (verify_embedding_signature 50 4 embedded).0.queue ≡ (
        if is_stale 4 (lookup 1 embedded.embed_state)
        then some (requeued 50 (lookup 1 embedded.queue))
        else lookup 1 embedded.queue))
    × ((verify_embedding_signature 60 4 (verify_embedding_signature 50 4 embedded).0).0
        ≡ (verify_embedding_signature 50 4 embedded).0)
unfolding program
verify_embedding_signature-changed_example =
    verify_embedding_signature-changed 50 60 4 3 1 embedded (refl, tt) refl (omega arith)
