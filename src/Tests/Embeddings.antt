-- ===== src/Tests/Embeddings.antt =====
-- A breaker of threshold 2, and a text of three paragraphs.
use memstem.Prelude.{
  ℕ, ◌<◌, ◌≡◌, refl, false, true, Bool, some, List, [], ◌∷◌, arith, All, ltb, if◌then◌else◌,
}
use memstem.Index.Store.{Vector}
use memstem.Worker.{Reply, vectors, transient, refused}
use memstem.Embeddings.{Breaker, closed, is_open, guarded, after_reply, chunk_text}
use memstem.Embeddings.Circuit.{run, transients, guarded-opens, run-closed}
use memstem.Embeddings.Ink.{ink, concat}
use memstem.Embeddings.Chunks.{IsFit, chunk_text-keeps}

-- a transient failure, and a permanent error after it
abbrev calls : List (ℕ × Reply)
calls = (10, transient) ∷ (11, refused []) ∷ []

guarded-opens_example :
    (s : Breaker) × ((guarded 2 60 20 20 transient (run 2 60 calls closed)).0 ≡ s)
    × ((run 2 60 calls closed).open_until ≡ 0)
    × (s.open_until ≡ 80)
    × (guarded 2 60 79 79 (vectors []) s ≡ (
        if ltb 79 80
        then (s, transient, false)
        else (after_reply 2 60 79 (vectors []) s, vectors [], true)))
    × ((after_reply 2 60 79 transient s).open_until ≡ 139)
    × ((vs : List Vector)
        → (guarded 2 60 79 79 (vectors vs) s).0 ≡ (if ltb 79 80 then s else closed))
unfolding transients
guarded-opens_example = guarded-opens 2 60 20 79 79 calls (vectors []) tt refl (omega arith)

run-closed_test : is_open 30 (run 2 60 calls closed) ≡ false
unfolding run guarded
run-closed_test = run-closed 2 60 calls 30 (omega arith)

-- "ab", a blank line, " cdefg", a blank line, "h"
abbrev text : List ℕ
text = 97 ∷ 98 ∷ 10 ∷ 10 ∷ 32 ∷ 99 ∷ 100 ∷ 101 ∷ 102 ∷ 103 ∷ 10 ∷ 10 ∷ 104 ∷ []

chunk_text-run :
    chunk_text text 4
    ≡ some ((97 ∷ 98 ∷ []) ∷ (99 ∷ 100 ∷ 101 ∷ 102 ∷ []) ∷ (103 ∷ []) ∷ (104 ∷ []) ∷ [])
unfolding chunk_text memstem.Prelude.filter
chunk_text-run = refl

chunk_text-keeps_example :
    (chunks : List (List ℕ)) × (chunk_text text 4 ≡ some chunks)
    × All (IsFit 4) chunks
    × (ink (concat chunks) ≡ ink text)
chunk_text-keeps_example = chunk_text-keeps text 4 (omega arith)
