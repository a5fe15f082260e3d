-- ===== src/Index/Queue/Claims.antt =====
-- Claims of queue rows: which rows a claim takes, and what two claimants can both get.
use memstem.Prelude.{
  ℕ, ◌+◌, ◌-◌, ◌≤◌, ◌≡◌, refl, ap, ◌∙◌, Bool, true, false, some, List, [], ◌∷◌, arith,
  if◌then◌else◌, elem, length, length-map, map, min, filter, take, drop, length-take, All, All-take,
}
use memstem.Prelude.Sorting.{sort_by, length-sort_by, sort_by-IsSorted, All-sort_by}
use memstem.Prelude.Table.{lookup, Distinct, lookup-map_rows, map_rows-Distinct}
use memstem.Prelude.Entries.{
  keys, holds, elem-keys-filter, elem-keys-sort_by, elem-keys-take-drop, find_key, All-lookup,
  All-filter_of, All-drop, All-×, IsSorted-take-drop,
}
use memstem.Prelude.Counting.{selection-NoRepeat, length-filter-among}
use memstem.Index.Queue.{
  Queue, QueueRow, claim_pending, oldest_claimable, is_claimable, is_taken, claim_row, older, key,
  token,
}

-- the rows that a claim could take, and the ids that it returned
abbrev pub claimable_rows : ℕ → Queue → Queue
claimable_rows cutoff q = filter (λ e. is_claimable cutoff e.1) q

abbrev pub claimed_ids : Queue × List (ℕ × ℕ) → List ℕ
claimed_ids c = keys c.1

keys-tokens : (l : Queue) → keys (map token l) ≡ keys l
keys-tokens [] = refl
keys-tokens (e ∷ l) = ap (◌∷◌ e.0) (keys-tokens l)

module _ (limit lease now : ℕ) (q : Queue) where
  abbrev pub taken : ℕ × QueueRow → Bool
  taken e = is_taken (now - lease) (oldest_claimable limit (now - lease) q) e.0 e.1

  pub elem-claimed_ids :
      Distinct q
      → (claimant k : ℕ)
      → elem k (claimed_ids (claim_pending limit claimant lease now q)) ≡ holds taken k (lookup k q)
  unfolding claim_pending
  elem-claimed_ids d claimant k = rw keys-tokens (elem-keys-filter taken k q d)

  abbrev claimable : ℕ × QueueRow → Bool
  claimable e = is_claimable (now - lease) e.1

  abbrev candidates : Queue
  candidates = sort_by older (claimable_rows (now - lease) q)

  elem-candidates : Distinct q → (k : ℕ) → elem k (keys candidates) ≡ holds claimable k (lookup k q)
  elem-candidates d k = elem-keys-sort_by older k _ ∙ elem-keys-filter claimable k q d

  -- an id that the subselect gives has a claimable row
  oldest_claimable-holds :
      Distinct q
      → (k : ℕ) → elem k (oldest_claimable limit (now - lease) q) ≡ true
      → holds claimable k (lookup k q) ≡ true
  unfolding oldest_claimable
  oldest_claimable-holds d k h =
      ground (arith, elem-candidates d k, elem-keys-take-drop limit k candidates)

older_total : (a b : ℕ × QueueRow) → older a b ≡ false → older b a ≡ true
older_total a b h = ground arith

older_trans : (a b c : ℕ × QueueRow) → older a b ≡ true → older b c ≡ true → older a c ≡ true
older_trans a b c h k = ground arith

-- Two claims in a row, the second at a time when the first one's lease has not run out, give no
-- memory to both: an id that the first claim returned is not returned by the second, whatever the
-- limits and the claimants.
pub claim_pending-disjoint :
    (limit limit' claimant claimant' lease lease' now now' : ℕ) (q : Queue)
    → Distinct q
    → now' ≤ now + lease'
    → (k : ℕ) → elem k (claimed_ids (claim_pending limit claimant lease now q)) ≡ true
    → elem k (
        claimed_ids
          (claim_pending limit' claimant' lease' now' (claim_pending limit claimant lease now q).0))
      ≡ false
unfolding claim_pending
claim_pending-disjoint limit limit' claimant claimant' lease lease' now now' q d within k first =
    let q' = (claim_pending limit claimant lease now q).0 in
    let step = λ (k : ℕ) (r : QueueRow).
      if taken limit lease now q (k, r) then claim_row now claimant r else r in
    ground (
      arith,
      elem-claimed_ids limit lease now q d claimant k,
      elem-claimed_ids limit' lease' now' q' (map_rows-Distinct step q d) claimant' k,
      lookup-map_rows step k q,
    )

-- A claim takes as many rows as it may: the limit, or every claimable row if they are fewer.
pub claim_pending-length :
    (limit claimant lease now : ℕ) (q : Queue)
    → Distinct q
    → length (claim_pending limit claimant lease now q).1
      ≡ min limit (length (claimable_rows (now - lease) q))
unfolding claim_pending
claim_pending-length limit claimant lease now q d =
    let ids = oldest_claimable limit (now - lease) q in
    length-map token _
    ∙ length-filter-among (claimable limit lease now q) ids q d
        (unfold oldest_claimable in
          selection-NoRepeat older (claimable limit lease now q) limit q d)
        (oldest_claimable-holds limit lease now q d)
    ∙ unfold oldest_claimable in
      length-map key (take limit (candidates limit lease now q))
      ∙ length-take limit (candidates limit lease now q)
      ∙ ap (min limit) (length-sort_by older (claimable_rows (now - lease) q))

-- A claim takes the oldest rows: a row that was claimable and was left behind is not older than
-- any row that was taken, by the time of its enqueueing and then by its retries.
pub claim_pending-oldest :
    (limit claimant lease now : ℕ) (q : Queue)
    → Distinct q
    → (k j : ℕ) (r s : QueueRow) → lookup k q ≡ some r
    → lookup j q ≡ some s
    → elem k (claimed_ids (claim_pending limit claimant lease now q)) ≡ true
    → is_claimable (now - lease) s ≡ true
    → elem j (claimed_ids (claim_pending limit claimant lease now q)) ≡ false
    → older (k, r) (j, s) ≡ true
unfolding oldest_claimable
claim_pending-oldest limit claimant lease now q d k j r s hk hj took free left =
    let rows =
      All-sort_by older _ _ (All-filter_of _ (claimable limit lease now q) q (All-lookup q d)) in
    let sorted = sort_by-IsSorted older older_total older_trans (claimable_rows (now - lease) q) in
    let (r', (kr, ahead)) =
      find_key (λ e. (lookup e.0 q ≡ some e.1) × All (λ b. older e b ≡ true) (drop limit chosen)) k
        (take limit chosen) k_in
        (All-× _ _ (take limit chosen) (All-take _ limit chosen rows)
          (IsSorted-take-drop older limit chosen sorted)) in
    let (s', (js, before)) =
      find_key (λ e. (lookup e.0 q ≡ some e.1) × (older (k, r') e ≡ true)) j (drop limit chosen)
        j_in (All-× _ _ (drop limit chosen) (All-drop _ limit chosen rows) ahead) in
    ground arith
  where
    chosen : Queue
    chosen = candidates limit lease now q

    k_in : elem k (keys (take limit chosen)) ≡ true
    k_in = ground (arith, elem-claimed_ids limit lease now q d claimant k)

    j_in : elem j (keys (drop limit chosen)) ≡ true
    j_in = ground (
      arith,
      elem-claimed_ids limit lease now q d claimant j,
      elem-candidates limit lease now q d j,
      elem-keys-take-drop limit j chosen,
    )
