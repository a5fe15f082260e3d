-- ===== src/Tests/Vectors.antt =====
-- A session that grows: two of its three chunks keep their vectors.
use mathlib.Core.Option
use memstem.Prelude.{ℕ, ◌+◌, ◌≡◌, refl, none, some, List, [], ◌∷◌, arith, get_elem?}
use memstem.Prelude.Table.{lookup}
use memstem.Index.Result.{ok, err, value_error, stale_plan}
use memstem.Index.Store.{Index, Vector, embedded_row, record_embed_state}
use memstem.Index.Vectors.{plan_vector_reuse, misses, apply_vectors, Written}
use memstem.Index.Vectors.Reuse.{IsTrue, filled, apply_vectors-plan}
use memstem.Tests.Store.{one, program}

-- the embedder: a vector of two floats
abbrev pub embedding : ℕ → Vector
embedding h = h ∷ (h + 1) ∷ []

-- chunks 61 and 62 of memory 1 are embedded with signature 3, for body 40
abbrev pub embedded : Index
embedded = record one {
  embed_state = (1, embedded_row 40 3) ∷ [];
  vectors = λ k. (0, embedding 61) ∷ (1, embedding 62) ∷ [];
  chunk_hashes = λ k. (0, 61) ∷ (1, 62) ∷ [];
  hash_owner = λ k. some 40;
}

abbrev grown : List ℕ
grown = 61 ∷ 60 ∷ 62 ∷ []

plan_grown :
    plan_vector_reuse 1 grown 3 embedded
    ≡ record { unchanged = 0 ∷ []; copied = (2, embedding 62) ∷ [] }
unfolding program plan_vector_reuse
plan_grown = refl

misses-grown : misses (plan_vector_reuse 1 grown 3 embedded) 3 ≡ 1 ∷ []
unfolding program plan_vector_reuse misses
misses-grown = refl

other_signature : misses (plan_vector_reuse 1 grown 4 embedded) 3 ≡ 0 ∷ 1 ∷ 2 ∷ []
unfolding program plan_vector_reuse misses
other_signature = refl

stale :
    apply_vectors 2 1 grown ((1, embedding 60) ∷ (2, embedding 62) ∷ []) (0 ∷ []) none one
    ≡ err stale_plan
unfolding program apply_vectors
stale = refl

wrong_size : apply_vectors 2 1 (60 ∷ []) ((0, 1 ∷ []) ∷ []) [] none one ≡ err value_error
unfolding program apply_vectors
wrong_size = refl

pub embedded-IsTrue : IsTrue embedding 3 1 embedded
unfolding program
embedded-IsTrue = record {
  distinct = (refl, (refl, tt));
  honest = λ trusted i h v stored found. ground arith;
}

apply_vectors-plan_example :
    (w : Written) × (apply_vectors 2 1 grown
        (filled embedding grown (plan_vector_reuse 1 grown 3 embedded))
        (plan_vector_reuse 1 grown 3 embedded).unchanged
        (some 41)
        embedded
      ≡ ok w)
    × ((k : ℕ) → lookup k (w.index.vectors 1) ≡ Option.map embedding (get_elem? grown k))
    × ((k : ℕ) → lookup k (w.index.chunk_hashes 1) ≡ get_elem? grown k)
    × (w.index.queue ≡ embedded.queue)
    × (w.index.memories ≡ embedded.memories)
    × IsTrue embedding 3 1 (record_embed_state 1 41 3 w.index)
unfolding program
apply_vectors-plan_example =
    apply_vectors-plan embedding 3 1 grown 41 2 embedded embedded-IsTrue refl (λ h. refl)
