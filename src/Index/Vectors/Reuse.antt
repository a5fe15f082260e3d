-- ===== src/Index/Vectors/Reuse.antt =====
-- The plan, the vectors of the misses and the write in a row, against a full rewrite.
use mathlib.Core.Option
use memstem.Prelude.{
  ℕ, zero, suc, ◌≤◌, ◌<◌, ◌≡◌, refl, sym, ◌∙◌, ap, true, false, none, some, List, [], ◌∷◌, arith,
  elem, get_elem?, ==_self, Bool-cases, Option-cases, inl, inr, All, length, filter, map,
}
use memstem.Prelude.Table.{Table, lookup, Distinct}
use memstem.Index.Result.{ok}
use memstem.Index.Store.{Index, Vector, has_memory, record_embed_state}
use memstem.Index.Vectors.{
  VectorReusePlan, trusts, plan_vector_reuse, misses, merge, apply_vectors, write_vectors, Written,
  is_below, all_sized, all_present, write_from, number_from,
}
use memstem.Index.Vectors.Planning.{
  IsHonest, IsSound, plan_from-IsSound, elem-misses_from, All-elem, All-find, Kept, Moved,
}
use memstem.Index.Vectors.Writing.{
  lookup-write_from, lookup-filter_below, lookup-number, number_from-Distinct, all_present_lem,
  lookup-merge, all_sized-merge, check_unchanged_lem,
}

-- hashes[i], for an index that the code has checked
abbrev pub hash_at : List ℕ → ℕ → ℕ
hash_at hashes i = Option.get_or (get_elem? hashes i) 0

pub get_elem?-lt : (hashes : List ℕ) (k h : ℕ) → get_elem? hashes k ≡ some h → k < length hashes
get_elem?-lt [] k h e = cc
get_elem?-lt (x ∷ xs) zero h e = omega arith
get_elem?-lt (x ∷ xs) (suc k) h e = omega (arith, get_elem?-lt xs k h e)

get_elem?-none : (hashes : List ℕ) (k : ℕ) → get_elem? hashes k ≡ none → length hashes ≤ k
get_elem?-none [] k e = omega arith
get_elem?-none (x ∷ xs) zero e = cc
get_elem?-none (x ∷ xs) (suc k) e = omega (arith, get_elem?-none xs k e)

-- What the index knows of one memory: hashes stand once, and where the plan trusts them, a row
-- whose hash is stored holds the vector of that hash.
pub record IsTrue (embedding : ℕ → Vector) (signature m : ℕ) (ix : Index) : Type 0 where
  pub distinct : Distinct (ix.chunk_hashes m)
  pub honest :
      trusts signature (lookup m ix.embed_state) (ix.hash_owner m) ≡ true
      → IsHonest embedding (ix.chunk_hashes m) (ix.vectors m)

-- the embedder's vector for the chunk at an index
abbrev pub vector_at : (ℕ → Vector) → List ℕ → ℕ → Vector
vector_at embedding hashes i = embedding (hash_at hashes i)

-- the plan's copies, with the embedder's vectors for the misses
abbrev pub filled : (ℕ → Vector) → List ℕ → VectorReusePlan → Table Vector
filled embedding hashes plan =
    let missed = misses plan (length hashes) in
    merge missed (map (vector_at embedding hashes) missed) plan.copied

module _ (embedding : ℕ → Vector) (signature m : ℕ) (hashes : List ℕ) (ix : Index)
    (t : IsTrue embedding signature m ix) where
  abbrev plan : VectorReusePlan
  plan = plan_vector_reuse m hashes signature ix

  plan-IsSound : IsSound embedding (ix.chunk_hashes m) (ix.vectors m) hashes plan
  unfolding plan_vector_reuse
  plan-IsSound = elim (Bool-cases (trusts signature (lookup m ix.embed_state) (ix.hash_owner m))) [
    | inl trusted ↦ rw trusted (
        plan_from-IsSound embedding (ix.chunk_hashes m) (ix.vectors m) t.distinct (t.honest trusted)
          hashes 0 hashes (λ j. ap (get_elem? hashes) (omega arith)))
    | inr other ↦ rw other (record { kept = tt; moved = tt })
  ]

  lookup-filled :
      (k h : ℕ)
      → get_elem? hashes k ≡ some h
      → elem k plan.unchanged ≡ false
      → lookup k (filled embedding hashes plan) ≡ some (embedding h)
  unfolding misses
  lookup-filled k h at new = elim (Option-cases (lookup k plan.copied)) [
    | inl absent ↦ ground (
      arith,
      lookup-merge (vector_at embedding hashes) k (misses plan (length hashes)) plan.copied,
      elem-misses_from plan k 0 (length hashes),
      get_elem?-lt hashes k h at,
    )
    | inr (v, found) ↦
        let (h', at', same) =
          All-find (Moved embedding (ix.chunk_hashes m) (ix.vectors m) hashes) k v plan.copied
            plan-IsSound.moved found in
        ground (
          arith,
          lookup-merge (vector_at embedding hashes) k (misses plan (length hashes)) plan.copied,
          elem-misses_from plan k 0 (length hashes),
        )
  ]

  abbrev written_rows : Table Vector
  written_rows =
      filter (is_below (length hashes))
        (write_from plan.unchanged (filled embedding hashes plan) 0 hashes (ix.vectors m))

  lookup-written_rows : (k : ℕ) → lookup k written_rows ≡ Option.map embedding (get_elem? hashes k)
  lookup-written_rows k = elim (Option-cases (get_elem? hashes k)) [
    | inl past ↦ ground (
      arith,
      lookup-filter_below (length hashes) k
          (write_from plan.unchanged (filled embedding hashes plan) 0 hashes (ix.vectors m)),
      get_elem?-none hashes k past,
    )
    | inr (h, at) ↦ elim (Bool-cases (elem k plan.unchanged)) [
      | inl keep ↦
          let (h', at', same, there) =
            All-elem (Kept embedding (ix.chunk_hashes m) (ix.vectors m) hashes) k plan.unchanged
              plan-IsSound.kept keep in
          ground (
            arith,
            lookup-filter_below (length hashes) k
                (write_from plan.unchanged (filled embedding hashes plan) 0 hashes (ix.vectors m)),
            lookup-write_from plan.unchanged (filled embedding hashes plan) 0 k hashes
                (ix.vectors m),
            get_elem?-lt hashes k h at,
          )
      | inr new ↦ ground (
        arith,
        lookup-filter_below (length hashes) k
            (write_from plan.unchanged (filled embedding hashes plan) 0 hashes (ix.vectors m)),
        lookup-write_from plan.unchanged (filled embedding hashes plan) 0 k hashes (ix.vectors m),
        get_elem?-lt hashes k h at,
        lookup-filled k h at new,
      )
    ]
  ]

  filled_present :
      all_present plan.unchanged (filled embedding hashes plan) 0 (length hashes) ≡ true
  filled_present =
      all_present_lem plan.unchanged (filled embedding hashes plan) 0 (length hashes) (λ k lo hi.
        elim (Option-cases (get_elem? hashes k)) [
          | inl past ↦ absurd (omega (arith, get_elem?-none hashes k past))
          | inr (h, at) ↦ elim (Bool-cases (elem k plan.unchanged)) [
            | inl keep ↦ ground arith
            | inr new ↦ ground (arith, lookup-filled k h at new)
          ]
        ])

  module _ (dimensions : ℕ) (sized : (h : ℕ) → length (embedding h) ≡ dimensions) where
    copied_sized :
        (copies : Table Vector)
        → All (λ e. Moved embedding (ix.chunk_hashes m) (ix.vectors m) hashes e.0 e.1) copies
        → all_sized dimensions copies ≡ true
    unfolding all_sized
    copied_sized [] a = refl
    copied_sized ((k, v) ∷ copies) a =
        let (h, at, same) = a.0 in
        ground (arith, ap (λ (u : Vector). length u) same, sized h, copied_sized copies a.1)

    filled_sized : all_sized dimensions (filled embedding hashes plan) ≡ true
    filled_sized =
        all_sized-merge dimensions (vector_at embedding hashes) (misses plan (length hashes))
          plan.copied (λ k. sized (hash_at hashes k)) (copied_sized plan.copied plan-IsSound.moved)

  abbrev written : ℕ → Written
  written body = write_vectors m hashes (filled embedding hashes plan) plan.unchanged (some body) ix

  written-IsHonest : IsHonest embedding (number_from 0 hashes) written_rows
  written-IsHonest i h v stored found =
      let at = sym (lookup-number i hashes) ∙ stored in
      let e = sym (lookup-written_rows i) ∙ found in ground arith

  written-IsTrue :
      (body : ℕ)
      → has_memory m ix ≡ true
      → IsTrue embedding signature m (record_embed_state m body signature (written body).index)
  unfolding record_embed_state write_vectors has_memory
  written-IsTrue body there =
      let after = record_embed_state m body signature (written body).index in
      let hashes_after : after.chunk_hashes m ≡ number_from 0 hashes = ground (arith, ==_self m) in
      let rows_after : after.vectors m ≡ written_rows = ground (arith, ==_self m) in
      record {
        distinct = rw hashes_after (number_from-Distinct 0 hashes);
        honest = λ _. rw (hashes_after, rows_after) written-IsHonest;
      }

-- A re-embed that reuses vectors gives what embedding every chunk anew would give. Let the hashes that
-- are stored for a memory, where a plan trusts them, be those of its vectors. If only the chunks
-- that the plan misses are embedded, then the write succeeds, and afterwards the memory has
-- exactly one vector for each new chunk, the one of that chunk, and exactly the new hashes; the queue and the
-- memories are as before, and after the state is recorded the stored hashes are again those of the vectors.
pub apply_vectors-plan :
    (embedding : ℕ → Vector) (signature m : ℕ) (hashes : List ℕ) (body dimensions : ℕ) (ix : Index)
    (t : IsTrue embedding signature m ix)
    → has_memory m ix ≡ true
    → ((h : ℕ) → length (embedding h) ≡ dimensions)
    → (w : Written) × (apply_vectors dimensions m hashes
          (filled embedding hashes (plan_vector_reuse m hashes signature ix))
          (plan_vector_reuse m hashes signature ix).unchanged
          (some body)
          ix
        ≡ ok w)
      × ((k : ℕ) → lookup k (w.index.vectors m) ≡ Option.map embedding (get_elem? hashes k))
      × ((k : ℕ) → lookup k (w.index.chunk_hashes m) ≡ get_elem? hashes k)
      × (w.index.queue ≡ ix.queue)
      × (w.index.memories ≡ ix.memories)
      × IsTrue embedding signature m (record_embed_state m body signature w.index)
unfolding apply_vectors
apply_vectors-plan embedding signature m hashes body dimensions ix t there sized = (
  written embedding signature m hashes ix t body,
  rw (
    filled_present embedding signature m hashes ix t,
    filled_sized embedding signature m hashes ix t dimensions sized,
    there,
    check_unchanged_lem embedding (ix.chunk_hashes m) (ix.vectors m) hashes
        (plan_vector_reuse m hashes signature ix).unchanged
        (plan-IsSound embedding signature m hashes ix t).kept,
  ),
  λ k. unfold write_vectors in rw ==_self (lookup-written_rows embedding signature m hashes ix t k),
  λ k. unfold write_vectors in rw ==_self (lookup-number k hashes),
  unfold write_vectors in refl,
  unfold write_vectors in refl,
  written-IsTrue embedding signature m hashes ix t body there,
)
