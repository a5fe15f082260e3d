-- ===== src/Hygiene/Expired/Stripped.antt =====
-- src/memstem/hygiene/expired_vectors.py: what a plan holds, and what its application leaves.
use mathlib.Core.Option
use memstem.Prelude.{
  ℕ, ◌≡◌, refl, sym, ap, ◌∙◌, Bool, true, false, ◌&&◌, Option, none, some, List, [], ◌∷◌, length,
  is_some, not, arith, ◌==◌, ==_iff, if◌then◌else◌, Bool-cases, inl, inr,
}
use memstem.Prelude.Table.{Table, lookup, lookup-remove, Distinct, Each}
use memstem.Index.Store.{Index, MemoryRow, strip_vectors, delete_vectors}
use memstem.Hygiene.Expired.{
  ExpiredVectorHit, StripPlan, Sweep, chunks_of, hit_of, add_hit, find_in,
  find_expired_with_vectors, apply_strip, is_wanted, has_elapsed,
}

add_hit-lookup :
    (m j : ℕ) (hit : Option ExpiredVectorHit) (hits : StripPlan)
    → (m == j ≡ true → lookup j hits ≡ none)
    → lookup j (add_hit m hit hits) ≡ (if m == j then hit else lookup j hits)
unfolding lookup
add_hit-lookup m j none hits h = elim (Bool-cases (m == j)) [
  | inl same ↦ rw same (h same)
  | inr apart ↦ rw apart refl
]
add_hit-lookup m j (some hit) hits h = refl

find_in-lookup :
    (sweep : Sweep) (ix : Index) (j : ℕ) (rows : Table MemoryRow)
    → Distinct rows
    → lookup j (find_in sweep ix rows) ≡ Option.bind (lookup j rows) (hit_of sweep ix j)
unfolding find_in lookup Option.bind
find_in-lookup sweep ix j [] d = refl
find_in-lookup sweep ix j ((m, row) ∷ rows) d =
    let rest = find_in-lookup sweep ix j rows d.1 in
    elim (Bool-cases (m == j)) [
      | inl same ↦
          let e : m ≡ j = (==_iff m j).0 same in
          let gone : lookup j (find_in sweep ix rows) ≡ none =
            rest
            ∙ ap (λ o. Option.bind o (hit_of sweep ix j)) (ap (λ k. lookup k rows) (sym e) ∙ d.0) in
          add_hit-lookup m j (hit_of sweep ix m row) (find_in sweep ix rows) (λ t. gone)
          ∙ rw same (ap (λ k. hit_of sweep ix k row) e)
      | inr apart ↦
          add_hit-lookup m j (hit_of sweep ix m row) (find_in sweep ix rows) (λ t. ground arith)
          ∙ rw apart rest
    ]

apply_strip-vectors :
    (j : ℕ) (hits : StripPlan) (ix : Index)
    → (apply_strip hits ix).0.vectors j ≡ (if is_some (lookup j hits) then [] else ix.vectors j)
unfolding apply_strip lookup strip_vectors delete_vectors
apply_strip-vectors j [] ix = refl
apply_strip-vectors j ((m, h) ∷ hits) ix =
    ground (arith, apply_strip-vectors j hits (strip_vectors m ix).0)

apply_strip-queue :
    (j : ℕ) (hits : StripPlan) (ix : Index)
    → lookup j (apply_strip hits ix).0.queue
      ≡ (if is_some (lookup j hits) then none else lookup j ix.queue)
unfolding apply_strip lookup strip_vectors
apply_strip-queue j [] ix = refl
apply_strip-queue j ((m, h) ∷ hits) ix =
    ground (arith, apply_strip-queue j hits (strip_vectors m ix).0, lookup-remove m j ix.queue)

apply_strip-memories :
    (hits : StripPlan) (ix : Index) → (apply_strip hits ix).0.memories ≡ ix.memories
unfolding apply_strip strip_vectors delete_vectors
apply_strip-memories [] ix = refl
apply_strip-memories ((m, h) ∷ hits) ix = apply_strip-memories hits (strip_vectors m ix).0

apply_strip-fts : (hits : StripPlan) (ix : Index) → (apply_strip hits ix).0.fts ≡ ix.fts
unfolding apply_strip strip_vectors delete_vectors
apply_strip-fts [] ix = refl
apply_strip-fts ((m, h) ∷ hits) ix = apply_strip-fts hits (strip_vectors m ix).0

apply_strip-embed_state :
    (hits : StripPlan) (ix : Index) → (apply_strip hits ix).0.embed_state ≡ ix.embed_state
unfolding apply_strip strip_vectors delete_vectors
apply_strip-embed_state [] ix = refl
apply_strip-embed_state ((m, h) ∷ hits) ix = apply_strip-embed_state hits (strip_vectors m ix).0

-- the plan counts the chunks that the index has
abbrev Counts : StripPlan → Index → Type 0
Counts [] ix = Unit
Counts ((m, h) ∷ hits) ix = (h.chunks ≡ length (ix.vectors m)) × Counts hits ix

Counts-strip :
    (m : ℕ) (hits : StripPlan) (ix : Index)
    → lookup m hits ≡ none
    → Counts hits ix
    → Counts hits (strip_vectors m ix).0
unfolding lookup strip_vectors delete_vectors
Counts-strip m [] ix e c = tt
Counts-strip m ((j, h) ∷ hits) ix e c =
    (ground (arith, e, c.0), Counts-strip m hits ix (ground (arith, e)) c.1)

apply_strip-count :
    (hits : StripPlan) (ix : Index)
    → Distinct hits
    → Counts hits ix
    → (apply_strip hits ix).1 ≡ chunks_of hits
unfolding apply_strip chunks_of strip_vectors
apply_strip-count [] ix d c = refl
apply_strip-count ((m, h) ∷ hits) ix d c =
    omega (
      arith,
      c.0,
      apply_strip-count hits (strip_vectors m ix).0 d.1 (Counts-strip m hits ix d.0 c.1),
    )

hit_of-chunks :
    (sweep : Sweep) (ix : Index) (m : ℕ) (row : MemoryRow)
    → Each (λ h. h.chunks ≡ length (ix.vectors m)) (hit_of sweep ix m row)
unfolding hit_of
hit_of-chunks sweep ix m row =
    elim (Bool-cases (is_wanted sweep.types row.kind && has_elapsed sweep m)) [
      | inr e ↦ rw (hit_of, e) tt
      | inl e ↦ elim (Bool-cases (length (ix.vectors m) == 0)) [
        | inl e' ↦ rw (hit_of, e, e') tt
        | inr e' ↦ rw (hit_of, e, e') refl
      ]
    ]

add_hit-Counts :
    (m : ℕ) (hit : Option ExpiredVectorHit) (hits : StripPlan) (ix : Index)
    → Each (λ h. h.chunks ≡ length (ix.vectors m)) hit
    → Counts hits ix
    → Counts (add_hit m hit hits) ix
add_hit-Counts m none hits ix e c = c
add_hit-Counts m (some h) hits ix e c = (e, c)

add_hit-Distinct :
    (m : ℕ) (hit : Option ExpiredVectorHit) (hits : StripPlan)
    → lookup m hits ≡ none
    → Distinct hits
    → Distinct (add_hit m hit hits)
add_hit-Distinct m none hits e d = d
add_hit-Distinct m (some h) hits e d = (e, d)

find_in-Counts :
    (sweep : Sweep) (ix : Index) (rows : Table MemoryRow) → Counts (find_in sweep ix rows) ix
unfolding find_in
find_in-Counts sweep ix [] = tt
find_in-Counts sweep ix ((m, row) ∷ rows) =
    add_hit-Counts m (hit_of sweep ix m row) (find_in sweep ix rows) ix
      (hit_of-chunks sweep ix m row) (find_in-Counts sweep ix rows)

find_in-Distinct :
    (sweep : Sweep) (ix : Index) (rows : Table MemoryRow)
    → Distinct rows
    → Distinct (find_in sweep ix rows)
unfolding find_in Option.bind
find_in-Distinct sweep ix [] d = tt
find_in-Distinct sweep ix ((m, row) ∷ rows) d =
    add_hit-Distinct m (hit_of sweep ix m row) (find_in sweep ix rows)
      (find_in-lookup sweep ix m rows d.1 ∙ ap (λ o. Option.bind o (hit_of sweep ix m)) d.0)
      (find_in-Distinct sweep ix rows d.1)

-- whether a pass strips a memory with this row
abbrev pub is_due : Sweep → ℕ → Option MemoryRow → Bool
is_due sweep j none = false
is_due sweep j (some row) = is_wanted sweep.types row.kind && has_elapsed sweep j

found_row :
    (sweep : Sweep) (ix : Index) (j : ℕ) (row : Option MemoryRow)
    → is_some (Option.bind row (hit_of sweep ix j))
      ≡ (is_due sweep j row && not (length (ix.vectors j) == 0))
unfolding hit_of Option.bind
found_row sweep ix j none = refl
found_row sweep ix j (some row) =
    elim (Bool-cases (is_wanted sweep.types row.kind && has_elapsed sweep j)) [
      | inr u ↦ rw (hit_of, u) refl
      | inl u ↦ elim (Bool-cases (length (ix.vectors j) == 0)) [
        | inl v ↦ rw (hit_of, u, v) refl
        | inr v ↦ rw (hit_of, u, v) refl
      ]
    ]

found-is_due :
    (sweep : Sweep) (ix : Index) (j : ℕ)
    → Distinct ix.memories
    → is_some (lookup j (find_expired_with_vectors sweep ix))
      ≡ (is_due sweep j (lookup j ix.memories) && not (length (ix.vectors j) == 0))
unfolding find_expired_with_vectors
found-is_due sweep ix j d =
    ap is_some (find_in-lookup sweep ix j ix.memories d)
    ∙ found_row sweep ix j (lookup j ix.memories)

empty_length : {A : Type 0} (xs : List A) → length xs == 0 ≡ true → xs ≡ []
empty_length [] e = refl
empty_length (x ∷ xs) e = ground (arith, e)

nothing_found : (hits : StripPlan) → ((j : ℕ) → lookup j hits ≡ none) → hits ≡ []
unfolding lookup
nothing_found [] h = refl
nothing_found ((m, hit) ∷ hits) h = ground (arith, h m)

stripped_vectors :
    {A : Type 0} (found due : Bool) (xs : List A)
    → found ≡ (due && not (length xs == 0))
    → (if found then [] else xs) ≡ (if due then [] else xs)
stripped_vectors found false xs e = rw e refl
stripped_vectors found true [] e = ground (arith, e)
stripped_vectors found true (x ∷ xs) e = rw e (ground arith)

no_row : {A : Type 0} (row : Option A) → is_some row ≡ false → row ≡ none
no_row none e = refl
no_row (some x) e = ground (arith, e)

due_again :
    {A : Type 0} (due : Bool) (xs : List A)
    → (due && not (length (if due then [] else xs) == 0)) ≡ false
due_again false xs = refl
due_again true xs = refl

-- Where no two rows share an id, a pass removes the vectors of exactly the memories of the wanted types whose
-- `valid_to` has elapsed, and takes those of them that had vectors off the queue; every other memory keeps its
-- vectors and its place in the queue. All memories, their text for the keyword search and their embed states
-- stay, the pass returns the number of chunks that its plan announced, and a second pass finds nothing.
pub apply_strip-find :
    (sweep : Sweep) (ix : Index)
    → Distinct ix.memories
    → ((j : ℕ)
        → (apply_strip (find_expired_with_vectors sweep ix) ix).0.vectors j
          ≡ (if is_due sweep j (lookup j ix.memories) then [] else ix.vectors j))
      × ((j : ℕ)
          → lookup j (apply_strip (find_expired_with_vectors sweep ix) ix).0.queue ≡ (
              if is_due sweep j (lookup j ix.memories) && not (length (ix.vectors j) == 0)
              then none
              else lookup j ix.queue))
      × ((apply_strip (find_expired_with_vectors sweep ix) ix).0.memories ≡ ix.memories)
      × ((apply_strip (find_expired_with_vectors sweep ix) ix).0.fts ≡ ix.fts)
      × ((apply_strip (find_expired_with_vectors sweep ix) ix).0.embed_state ≡ ix.embed_state)
      × ((apply_strip (find_expired_with_vectors sweep ix) ix).1
          ≡ chunks_of (find_expired_with_vectors sweep ix))
      × (find_expired_with_vectors sweep (apply_strip (find_expired_with_vectors sweep ix) ix).0
          ≡ [])
unfolding find_expired_with_vectors
apply_strip-find sweep ix d =
    let plan = find_expired_with_vectors sweep ix in
    let after = (apply_strip plan ix).0 in
    let kept = apply_strip-memories plan ix in
    let gone : (j : ℕ)
        → after.vectors j ≡ (if is_due sweep j (lookup j ix.memories) then [] else ix.vectors j) =
      λ j.
        apply_strip-vectors j plan ix
        ∙ stripped_vectors (is_some (lookup j plan)) (is_due sweep j (lookup j ix.memories))
            (ix.vectors j) (found-is_due sweep ix j d) in
    (
      gone,
      (λ j. rw (apply_strip-queue j plan ix, found-is_due sweep ix j d) refl),
      kept,
      apply_strip-fts plan ix,
      apply_strip-embed_state plan ix,
      apply_strip-count plan ix (find_in-Distinct sweep ix ix.memories d)
          (find_in-Counts sweep ix ix.memories),
      nothing_found (find_expired_with_vectors sweep after) (λ j.
          no_row (lookup j (find_expired_with_vectors sweep after)) (
            found-is_due sweep after j (rw kept d)
            ∙ rw (kept, gone j)
                (due_again (is_due sweep j (lookup j ix.memories)) (ix.vectors j)))),
    )
