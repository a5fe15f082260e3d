-- ===== src/Mmr/Selection.antt =====
-- src/memstem/core/mmr.py: which candidates the choice returns, and which it leaves out.
use mathlib.Core.List.{Perm, append_assoc}
use mathlib.Core.List.Perm
use memstem.Prelude.{
  ℕ, zero, suc, ◌+◌, ◌≡◌, refl, Bool, true, not, Option, none, some, List, [], ◌∷◌, ◌++◌, arith,
  length, take, drop, take-drop, filter, elem, min, length-append, length-take, ◌==◌, ==_iff,
  Bool-cases, inl, inr,
}
use memstem.Prelude.Perms.{middle-perm, append-perm}
use memstem.Mmr.{
  Numbers, best_of, mmr_score, remove_first, raise_redundancy, select, mmr_rerank, has_embedding,
  embedding_of, rerank_by, clamp, cosine_similarity, pair_sim,
}

partition-perm : (p : ℕ → Bool) (xs : List ℕ) → Perm (filter p xs ++ filter (λ x. not (p x)) xs) xs
unfolding filter
partition-perm p [] = Perm.rfl
partition-perm p (x ∷ xs) = elim (Bool-cases (p x)) [
  | inl e ↦ rw e (Perm.cons x (partition-perm p xs))
  | inr e ↦ rw e (
      Perm.trans (middle-perm x (filter p xs) (filter (λ y. not (p y)) xs))
        (Perm.cons x (partition-perm p xs)))
]

partition_count :
    (p : ℕ → Bool) (xs : List ℕ)
    → length (filter p xs) + length (filter (λ x. not (p x)) xs) ≡ length xs
unfolding filter
partition_count p [] = omega arith
partition_count p (x ∷ xs) = elim (Bool-cases (p x)) [
  | inl e ↦ rw e (omega (arith, partition_count p xs))
  | inr e ↦ rw e (omega (arith, partition_count p xs))
]

-- cutting the picks and the rest to `k` leaves out the tail and what the loop left
kept_perm :
    (picked without left candidates : List ℕ) (k : ℕ) (with_emb : List ℕ)
    → Perm (picked ++ left) with_emb
    → Perm (with_emb ++ without) candidates
    → Perm (take k (picked ++ without) ++ (drop k (picked ++ without) ++ left)) candidates
kept_perm picked without left candidates k with_emb same perm =
    let all = picked ++ without in
    let swapped : Perm (picked ++ (without ++ left)) (picked ++ (left ++ without)) =
      Perm.append_left picked (append-perm without left) in
    let joined : Perm (picked ++ (left ++ without)) candidates =
      rw (← append_assoc picked left without) (Perm.trans (Perm.append_right without same) perm) in
    rw (← append_assoc (take k all) (drop k all) left, take-drop, append_assoc picked without left)
      (Perm.trans swapped joined)

module _ {S : Type 0} (f : Numbers S) where
  remove_first-perm : (k : ℕ) (xs : List ℕ) → elem k xs ≡ true → Perm (k ∷ remove_first f k xs) xs
  unfolding remove_first elem
  remove_first-perm k [] h = absurd (ground (arith, h))
  remove_first-perm k (x ∷ xs) h = elim (Bool-cases (x == k)) [
    | inl e ↦ let same : x ≡ k = ground (arith, e) in rw (e, same) Perm.rfl
    | inr e ↦ rw e (
        Perm.trans (Perm.swap x k (remove_first f k xs))
          (Perm.cons x (remove_first-perm k xs (ground (arith, e, h)))))
  ]

  length-remove_first :
      (k : ℕ) (xs : List ℕ) → elem k xs ≡ true → length xs ≡ suc (length (remove_first f k xs))
  unfolding remove_first elem
  length-remove_first k [] h = absurd (ground (arith, h))
  length-remove_first k (x ∷ xs) h = ground (arith, h, length-remove_first k xs)

  -- once there is a best candidate, the scan ends with one of those it has seen
  best_of-found :
      (score : ℕ → S) (cs : List ℕ) (best : ℕ) (best_score : S)
      → (b : ℕ) × (best_of f score cs (some best) best_score ≡ some b) × (elem b (best ∷ cs) ≡ true)
  unfolding best_of elem
  best_of-found score [] best best_score = (best, refl, ground (arith, ==_iff best best))
  best_of-found score (c ∷ cs) best best_score = elim (Bool-cases (f.less best_score (score c))) [
    | inl e ↦
        let (b, found, here) = best_of-found score cs c (score c) in
        (b, rw e found, ground (arith, here))
    | inr e ↦
        let (b, found, here) = best_of-found score cs best best_score in
        (b, rw e found, ground (arith, here))
  ]

  elem-remove_first :
      (k c : ℕ) (xs : List ℕ) → elem c (remove_first f k xs) ≡ true → elem c xs ≡ true
  unfolding remove_first elem
  elem-remove_first k c [] h = h
  elem-remove_first k c (x ∷ xs) h = ground (arith, h, elem-remove_first k c xs)

  -- the score of a candidate whose penalty is given
  abbrev pub score_with : S → S → S → S
  score_with lambda_ query_sim penalty =
      f.sub (f.mul lambda_ query_sim) (f.mul (f.sub f.one lambda_) penalty)

  -- No similarity of two candidates, and no score that is made of them, is minus infinity or no number.
  pub record IsTame (lambda_ : S) (query_sim : ℕ → S) (sim : ℕ → ℕ → S) : Type 0 where
    pub pairs : (c d : ℕ) → f.less f.bottom (sim c d) ≡ true
    pub firsts : (c : ℕ) → f.less f.bottom (score_with lambda_ (query_sim c) f.nought) ≡ true
    pub nexts : (c d : ℕ) → f.less f.bottom (score_with lambda_ (query_sim c) (sim c d)) ≡ true

  -- after the first pick, the redundancy of each candidate that is left is one of its similarities
  abbrev IsKnown : (ℕ → ℕ → S) → List ℕ → List ℕ → (ℕ → S) → Type 0
  IsKnown sim [] remaining redundancy = (c : ℕ) → redundancy c ≡ f.bottom
  IsKnown sim (p ∷ picked) remaining redundancy =
      (c : ℕ) → elem c remaining ≡ true → (d : ℕ) × (redundancy c ≡ sim c d)

  module _ (lambda_ : S) (query_sim : ℕ → S) (sim : ℕ → ℕ → S)
      (tame : IsTame lambda_ query_sim sim) where
    raised-IsKnown :
        (best : ℕ) (picked remaining : List ℕ) (redundancy : ℕ → S)
        → IsKnown sim picked remaining redundancy
        → IsKnown sim
            (picked ++ best ∷ [])
            (remove_first f best remaining)
            (raise_redundancy f sim best (remove_first f best remaining) redundancy)
    raised-IsKnown best [] remaining redundancy known =
        λ c here. (best, rw (here, known c, tame.pairs c best) refl)
    raised-IsKnown best (p ∷ picked) remaining redundancy known = λ c here.
        let (d, e) = known c (elem-remove_first best c remaining here) in
        elim (Bool-cases (f.less (redundancy c) (sim c best))) [
          | inl more ↦ (best, rw (here, more) refl)
          | inr less ↦ (d, rw (here, less) e)
        ]

    scored :
        (r : ℕ) (picked remaining : List ℕ) (redundancy : ℕ → S)
        → IsKnown sim picked (r ∷ remaining) redundancy
        → f.less f.bottom (mmr_score f lambda_ query_sim picked redundancy r) ≡ true
    unfolding elem
    scored r [] remaining redundancy known = tame.firsts r
    scored r (p ∷ picked) remaining redundancy known =
        let (d, e) = known r (ground (arith, ==_iff r r)) in rw (mmr_score, e) (tame.nexts r d)

    best_of-some :
        (score : ℕ → S) (c : ℕ) (cs : List ℕ)
        → f.less f.bottom (score c) ≡ true
        → (b : ℕ) × (best_of f score (c ∷ cs) none f.bottom ≡ some b) × (elem b (c ∷ cs) ≡ true)
    unfolding best_of
    best_of-some score c cs scored =
        let (b, found, here) = best_of-found score cs c (score c) in (b, rw scored found, here)

    select-perm :
        (room : ℕ) (picked remaining : List ℕ) (redundancy : ℕ → S)
        → IsKnown sim picked remaining redundancy
        → (out left : List ℕ) × (select f lambda_ query_sim sim room picked remaining redundancy
            ≡ some out)
          × Perm (out ++ left) (picked ++ remaining)
          × (length out ≡ length picked + min room (length remaining))
    unfolding select
    select-perm zero picked remaining redundancy known =
        (picked, remaining, refl, Perm.rfl, omega arith)
    select-perm (suc room) picked [] redundancy known = (picked, [], refl, Perm.rfl, omega arith)
    select-perm (suc room) picked (r ∷ remaining) redundancy known =
        let (best, found, here) =
          best_of-some (mmr_score f lambda_ query_sim picked redundancy) r remaining
            (scored r picked remaining redundancy known) in
        let fewer = remove_first f best (r ∷ remaining) in
        let (out, left, run, perm, count) =
          select-perm room (picked ++ best ∷ []) fewer
            (raise_redundancy f sim best fewer redundancy)
            (raised-IsKnown best picked (r ∷ remaining) redundancy known) in
        (
          out,
          left,
          rw (select, found) run,
          Perm.trans perm (
              rw append_assoc
                (Perm.append_left picked (remove_first-perm best (r ∷ remaining) here))),
          omega (
            arith,
            count,
            length-append picked (best ∷ []),
            length-remove_first best (r ∷ remaining) here,
          ),
        )

  rerank_by-perm :
      (candidates : List ℕ) (q : List S) (lookup : ℕ → Option (List S)) (lambda_ : S) (k : ℕ)
      (with_emb without_emb : List ℕ)
      → IsTame
          (clamp f lambda_)
          (λ x. cosine_similarity f q (embedding_of f lookup x))
          (pair_sim f (embedding_of f lookup))
      → Perm (with_emb ++ without_emb) candidates
      → length with_emb + length without_emb ≡ length candidates
      → (out left : List ℕ) × (rerank_by f candidates q lookup lambda_ k with_emb without_emb
          ≡ some out)
        × Perm (out ++ left) candidates
        × (length out ≡ min k (length candidates))
  rerank_by-perm candidates q lookup lambda_ k [] without_emb tame perm count =
      (take k candidates, drop k candidates, refl, rw take-drop Perm.rfl, length-take k candidates)
  rerank_by-perm candidates q lookup lambda_ k (c ∷ with_emb) without_emb tame perm count =
      let embeddings = embedding_of f lookup in
      let (picked, left, run, same, size) =
        select-perm (clamp f lambda_) (λ x. cosine_similarity f q (embeddings x))
          (pair_sim f embeddings) tame k [] (c ∷ with_emb) (λ x. f.bottom) (λ x. refl) in
      let all = picked ++ without_emb in
      (
        take k all,
        drop k all ++ left,
        rw (rerank_by, run) refl,
        kept_perm picked without_emb left candidates k (c ∷ with_emb) same perm,
        omega (arith, length-take k all, length-append picked without_emb, size, count),
      )

-- Where no similarity of the embeddings, and no score made of them, is minus infinity or no number, the rerank
-- never fails its assertion: it returns as many candidates as asked for, or all of them, each as often as it was given, and
-- what it leaves out are the other candidates.
pub mmr_rerank-perm :
    {S : Type 0} (f : Numbers S) (candidates : List ℕ) (query_embedding : List S)
    (lookup : ℕ → Option (List S)) (lambda_ : S) (k : ℕ)
    → IsTame f
        (clamp f lambda_)
        (λ x. cosine_similarity f query_embedding (embedding_of f lookup x))
        (pair_sim f (embedding_of f lookup))
    → (out left : List ℕ) × (mmr_rerank f candidates query_embedding lookup lambda_ k ≡ some out)
      × Perm (out ++ left) candidates
      × (length out ≡ min k (length candidates))
unfolding mmr_rerank
mmr_rerank-perm f [] query lookup lambda_ k tame = ([], [], refl, Perm.rfl, omega arith)
mmr_rerank-perm f (c ∷ cs) query lookup lambda_ zero tame =
    ([], c ∷ cs, refl, Perm.rfl, omega arith)
mmr_rerank-perm f (c ∷ cs) [] lookup lambda_ (suc k) tame = (
  take (suc k) (c ∷ cs),
  drop (suc k) (c ∷ cs),
  refl,
  rw take-drop Perm.rfl,
  length-take (suc k) (c ∷ cs),
)
mmr_rerank-perm f (c ∷ cs) (q ∷ query) lookup lambda_ (suc k) tame =
    let has = has_embedding f lookup (suc (length query)) in
    rerank_by-perm f (c ∷ cs) (q ∷ query) lookup lambda_ (suc k) (filter has (c ∷ cs))
      (filter (λ x. not (has x)) (c ∷ cs)) tame (partition-perm has (c ∷ cs))
      (partition_count has (c ∷ cs))
