-- ===== src/Worker/Misses.antt =====
-- src/memstem/core/embed_worker.py: what a good embedder answers for the chunks that the plan misses.
use memstem.Prelude.{
  ℕ, zero, suc, ◌≤◌, ◌≡◌, refl, not, List, [], ◌∷◌, ◌++◌, map, arith, filter, ltb, Bool-cases, inl,
  inr,
}
use mathlib.Core.List.{map-append}
use memstem.Index.Store.{Vector}
use memstem.Index.Vectors.{VectorReusePlan, misses, misses_from}
use memstem.Index.Vectors.Reuse.{hash_at, vector_at}
use memstem.Worker.{Reply, vectors, Environment, embed_misses, ask}

-- splitting the misses into texts and images keeps their order
low_empty :
    (plan : VectorReusePlan) (t i n : ℕ)
    → t ≤ i
    → (filter (λ k. ltb k t) (misses_from plan i n) ≡ [])
      × (filter (λ k. not (ltb k t)) (misses_from plan i n) ≡ misses_from plan i n)
unfolding filter misses_from
low_empty plan t i zero h = (refl, refl)
low_empty plan t i (suc n) h =
    let ih = low_empty plan t (suc i) n (omega arith) in (ground (arith, ih), ground (arith, ih))

misses-split :
    (plan : VectorReusePlan) (t i n : ℕ)
    → filter (λ k. ltb k t) (misses_from plan i n)
        ++ filter (λ k. not (ltb k t)) (misses_from plan i n)
      ≡ misses_from plan i n
unfolding filter misses_from
misses-split plan t i zero = refl
misses-split plan t i (suc n) = elim (Bool-cases (ltb i t)) [
  | inl low ↦ ground (arith, misses-split plan t (suc i) n)
  | inr high ↦ ground (arith, low_empty plan t (suc i) n (ground arith))
]

ask_lem :
    (call : List ℕ → Reply) (embedding : ℕ → Vector) (cs : List ℕ)
    → ((ds : List ℕ) → call ds ≡ vectors (map embedding ds))
    → ask call cs ≡ vectors (map embedding cs)
ask_lem call embedding [] h = refl
ask_lem call embedding (c ∷ cs) h = h (c ∷ cs)

map-hash_at :
    (embedding : ℕ → Vector) (hashes is : List ℕ)
    → map embedding (map (hash_at hashes) is) ≡ map (vector_at embedding hashes) is
map-hash_at embedding hashes [] = refl
map-hash_at embedding hashes (i ∷ is) = rw (map-hash_at embedding hashes is)

-- a good embedder answers with the vectors of the misses, in order
pub embed_misses_lem :
    (env : Environment) (embedding : ℕ → Vector) (hashes : List ℕ) (n_text n : ℕ)
    (plan : VectorReusePlan)
    → ((ds : List ℕ) → env.embed_batch ds ≡ vectors (map embedding ds))
    → ((ds : List ℕ) → env.embed_images ds ≡ vectors (map embedding ds))
    → embed_misses env hashes n_text (misses plan n)
      ≡ vectors (map (vector_at embedding hashes) (misses plan n))
unfolding embed_misses misses
embed_misses_lem env embedding hashes n_text n plan texts images =
    let here = filter (λ i. ltb i n_text) (misses_from plan 0 n) in
    let there = filter (λ i. not (ltb i n_text)) (misses_from plan 0 n) in
    rw (
      ask_lem env.embed_batch embedding (map (hash_at hashes) here) texts,
      ask_lem env.embed_images embedding (map (hash_at hashes) there) images,
      map-hash_at embedding hashes here,
      map-hash_at embedding hashes there,
      ← map-append (vector_at embedding hashes) here there,
      misses-split plan n_text 0 n,
    )
