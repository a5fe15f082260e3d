-- ===== src/Tests/Expired.antt =====
-- A pass over an index with an expired memory, one without vectors, one of another type and one that is current.
use mathlib.Core.Option
use memstem.Prelude.{
  ℕ, ◌≡◌, refl, not, ◌&&◌, none, some, [], ◌∷◌, elem, length, ◌==◌, if◌then◌else◌,
}
use memstem.Prelude.Table.{lookup, remove}
use memstem.Index.Queue.{fresh_row}
use memstem.Index.Store.{Index, MemoryRow, delete_vectors, strip_vectors}
use memstem.Hygiene.Expired.{
  Sweep, chunks_of, is_wanted, has_elapsed, hit_of, find_in, find_expired_with_vectors, apply_strip,
}
use memstem.Hygiene.Expired.Stripped.{is_due, apply_strip-find}
use memstem.Tests.Store.{empty_index}

abbrev row_of_kind : ℕ → MemoryRow
row_of_kind kind = record { kind = kind; source = 1; title = none; body = 40; path = 70 }

abbrev full : Index
full = record empty_index {
  memories = (1, row_of_kind 0) ∷ (2, row_of_kind 0) ∷ (3, row_of_kind 9) ∷ (4, row_of_kind 0) ∷ [];
  queue = (1, fresh_row 5) ∷ (2, fresh_row 5) ∷ (4, fresh_row 5) ∷ [];
  vectors = λ m. if m == 2 then [] else (0, 7 ∷ []) ∷ (1, 8 ∷ []) ∷ [];
}

-- the texts of `valid_to` are the times themselves; 0 is the empty text, and memory 4 is valid for longer
abbrev sweep : Sweep
sweep = record {
  types = some (0 ∷ 1 ∷ []);
  valid_to = λ m. some (if m == 4 then 90 else 30);
  parse = λ text. if text == 0 then none else some text;
  now = 50;
}

unfoldable program : Unit {0}
unfolding lookup remove elem Option.bind delete_vectors strip_vectors chunks_of is_wanted
    has_elapsed hit_of find_in find_expired_with_vectors apply_strip
program = tt

found : chunks_of (find_expired_with_vectors sweep full) ≡ 2
unfolding program
found = refl

removed : (apply_strip (find_expired_with_vectors sweep full) full).1 ≡ 2
unfolding program
removed = refl

apply_strip-find_example :
    ((j : ℕ)
      → (apply_strip (find_expired_with_vectors sweep full) full).0.vectors j
        ≡ (if is_due sweep j (lookup j full.memories) then [] else full.vectors j))
    × ((j : ℕ)
        → lookup j (apply_strip (find_expired_with_vectors sweep full) full).0.queue ≡ (
            if is_due sweep j (lookup j full.memories) && not (length (full.vectors j) == 0)
            then none
            else lookup j full.queue))
    × ((apply_strip (find_expired_with_vectors sweep full) full).0.memories ≡ full.memories)
    × ((apply_strip (find_expired_with_vectors sweep full) full).0.fts ≡ full.fts)
    × ((apply_strip (find_expired_with_vectors sweep full) full).0.embed_state ≡ full.embed_state)
    × ((apply_strip (find_expired_with_vectors sweep full) full).1
        ≡ chunks_of (find_expired_with_vectors sweep full))
    × (find_expired_with_vectors sweep (apply_strip (find_expired_with_vectors sweep full) full).0
        ≡ [])
unfolding lookup
apply_strip-find_example = apply_strip-find sweep full (refl, (refl, (refl, (refl, tt))))
