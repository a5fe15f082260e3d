-- ===== src/Index/Vectors/Planning.antt =====
-- What the unchanged indexes and the copied vectors of a plan are, against the stored hashes and rows.
use mathlib.Core.Path.{subst}
use memstem.Prelude.{
  ℕ, zero, suc, ◌+◌, ◌≡◌, ◌∙◌, ap, true, not, ◌&&◌, some, List, [], ◌∷◌, arith, elem, get_elem?,
  ◌==◌, ==_iff, ltb, leb, is_some, Bool-cases, Option-cases, inl, inr, All,
}
use memstem.Prelude.Sorting.{sort_by, All-sort_by}
use memstem.Prelude.Table.{Table, lookup, Distinct}
use memstem.Prelude.Entries.{All-lookup}
use memstem.Index.Store.{Vector}
use memstem.Index.Vectors.{
  VectorReusePlan, is_hash, source_of, by_index, copy_source, plan_from, misses_from, is_covered,
}

pub All-elem {κ} : (P : ℕ → Type κ) (k : ℕ) (xs : List ℕ) → All P xs → elem k xs ≡ true → P k
unfolding elem
All-elem P k [] a h = cc
All-elem P k (x ∷ xs) a h = elim (Bool-cases (x == k)) [
  | inl e ↦ subst P ((==_iff x k).0 e) a.0
  | inr e ↦ All-elem P k xs a.1 (ground arith)
]

pub All-find {ℓ κ} :
    {V : Type ℓ} (P : ℕ → V → Type κ) (k : ℕ) (v : V) (t : Table V)
    → All (λ e. P e.0 e.1) t
    → lookup k t ≡ some v
    → P k v
unfolding lookup
All-find P k v [] a h = cc
All-find P k v ((j, w) ∷ t) a h = elim (Bool-cases (j == k)) [
  | inl e ↦
      let same : w ≡ v = ground arith in
      subst (λ n. P n v) ((==_iff j k).0 e) (subst (P j) same a.0)
  | inr e ↦ All-find P k v t a.1 (ground arith)
]

module _ (embedding : ℕ → Vector) (stored : Table ℕ) (rows : Table Vector) (all : List ℕ) where
  abbrev pub Kept : ℕ → Type 0
  Kept k =
      (h : ℕ) × (get_elem? all k ≡ some h)
      × (is_hash (lookup k stored) h ≡ true)
      × (lookup k rows ≡ some (embedding h))

  abbrev pub Moved : ℕ → Vector → Type 0
  Moved k v = (h : ℕ) × (get_elem? all k ≡ some h) × (v ≡ embedding h)

  pub record IsSound (plan : VectorReusePlan) : Type 0 where
    pub kept : All Kept plan.unchanged
    pub moved : All (λ e. Moved e.0 e.1) plan.copied

-- the stored hashes tell the truth about the rows
abbrev pub IsHonest : (ℕ → Vector) → Table ℕ → Table Vector → Type 0
IsHonest embedding stored rows =
    (i h : ℕ) (v : Vector) → lookup i stored ≡ some h → lookup i rows ≡ some v → v ≡ embedding h

module _ (embedding : ℕ → Vector) (stored : Table ℕ) (rows : Table Vector) (d : Distinct stored)
    (honest : IsHonest embedding stored rows) where
  source_lem :
      (h src : ℕ) (t : Table ℕ)
      → All (λ e. lookup e.0 stored ≡ some e.1) t
      → source_of h t rows ≡ some src
      → (v : Vector) → lookup src rows ≡ some v
      → v ≡ embedding h
  unfolding source_of
  source_lem h src [] a e v found = cc
  source_lem h src ((i, g) ∷ t) a e v found =
      elim (Bool-cases (is_some (lookup i rows) && g == h)) [
        | inl hit ↦ ground (arith, honest i g v, ==_iff g h)
        | inr miss ↦ source_lem h src t a.1 (ground arith) v found
      ]

  keep_lem :
      (i h : ℕ)
      → is_hash (lookup i stored) h ≡ true
      → is_some (lookup i rows) ≡ true
      → lookup i rows ≡ some (embedding h)
  keep_lem i h same there = elim (Option-cases (lookup i rows)) [
    | inl absent ↦ absurd (ground arith)
    | inr (v, found) ↦ elim (Option-cases (lookup i stored)) [
      | inl absent ↦ absurd (ground arith)
      | inr (g, at) ↦ ground (arith, honest i g v, ==_iff g h)
    ]
  ]

  copy_lem :
      (h : ℕ) (v : Vector)
      → copy_source (source_of h (sort_by by_index stored) rows) rows ≡ some v
      → v ≡ embedding h
  copy_lem h v e = elim (Option-cases (source_of h (sort_by by_index stored) rows)) [
    | inl none_there ↦ absurd (ground arith)
    | inr (src, there) ↦
        source_lem h src (sort_by by_index stored)
          (All-sort_by by_index _ stored (All-lookup stored d)) there v (ground arith)
  ]

  pub plan_from-IsSound :
      (all : List ℕ) (i : ℕ) (hs : List ℕ)
      → ((j : ℕ) → get_elem? all (i + j) ≡ get_elem? hs j)
      → IsSound embedding stored rows all (plan_from stored rows i hs)
  unfolding plan_from
  plan_from-IsSound all i [] at = record { kept = tt; moved = tt }
  plan_from-IsSound all i (h ∷ hs) at =
      let rest =
        plan_from-IsSound all (suc i) hs (λ j. ap (get_elem? all) (omega arith) ∙ at (suc j)) in
      let here : get_elem? all i ≡ some h = ap (get_elem? all) (omega arith) ∙ at 0 in
      elim (Bool-cases (is_hash (lookup i stored) h && is_some (lookup i rows))) [
        | inl keep ↦ rw keep (record {
          kept = ((h, here, ground arith, keep_lem i h (ground arith) (ground arith)), rest.kept);
          moved = rest.moved;
        })
        | inr other ↦
            rw other
              (elim (Option-cases (copy_source (source_of h (sort_by by_index stored) rows) rows)) [
                | inl absent ↦ rw absent rest
                | inr (v, found) ↦ rw found (record {
                  kept = rest.kept;
                  moved = ((h, here, copy_lem h v found), rest.moved);
                })
              ])
      ]

pub elem-misses_from :
    (plan : VectorReusePlan) (k i n : ℕ)
    → elem k (misses_from plan i n) ≡ (leb i k && ltb k (i + n) && not (is_covered plan k))
unfolding misses_from elem
elem-misses_from plan k i zero = ground arith
elem-misses_from plan k i (suc n) = ground (arith, elem-misses_from plan k (suc i) n, ==_iff i k)
