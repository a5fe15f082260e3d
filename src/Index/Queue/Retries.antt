-- ===== src/Index/Queue/Retries.antt =====
-- The life of a queue row: failures, fresh requests during an embedding, leases that run out.
use mathlib.Core.Option
use memstem.Prelude.{
  ℕ, zero, suc, ◌+◌, ◌-◌, ◌≡◌, ◌≢◌, refl, true, false, none, some, List, arith, elem, ltb, leb,
  if◌then◌else◌, Option-cases, inl, inr,
}
use memstem.Prelude.Table.{lookup, Distinct, lookup-map_rows, lookup-modify, lookup-upsert}
use memstem.Index.Queue.{
  Queue, QueueRow, enqueue_embed, dequeue_embed_if_unchanged, release_row, requeue_row, fresh_row,
  mark_embed_error, error_row, claim_pending, is_claimable, claim_row, is_taken, oldest_claimable,
}
use memstem.Index.Queue.Claims.{claimed_ids, elem-claimed_ids}

-- n errors in a row on one memory
pub fail_times : ℕ → ℕ → List ℕ → ℕ → Queue → Queue
fail_times zero k error max_retries q = q
fail_times (suc n) k error max_retries q =
    fail_times n k error max_retries (mark_embed_error k error max_retries q)

fail_times-row :
    (n k : ℕ) (error : List ℕ) (max_retries : ℕ) (q : Queue) (r : QueueRow)
    → lookup k q ≡ some r
    → (s : QueueRow) × (lookup k (fail_times (suc n) k error max_retries q) ≡ some s)
      × (s.retry_count ≡ r.retry_count + suc n)
      × (s.failed ≡ leb max_retries (r.retry_count + suc n))
      × (s.claimed_at ≡ none)
unfolding fail_times mark_embed_error
fail_times-row zero k error max_retries q r h = (
  error_row error max_retries r,
  ground (arith, lookup-modify k k (error_row error max_retries) q),
  ground arith,
  ground arith,
  refl,
)
fail_times-row (suc n) k error max_retries q r h =
    let (s, found, count, failed, free) =
      fail_times-row n k error max_retries (mark_embed_error k error max_retries q)
        (error_row error max_retries r)
        (ground (arith, lookup-modify k k (error_row error max_retries) q)) in
    (s, found, omega arith, ground arith, free)

lookup-enqueue_embed :
    (k now : ℕ) (q : Queue)
    → (r : QueueRow) × (lookup k (enqueue_embed k now q) ≡ some r)
      × (r.enqueued_at ≡ now)
      × (r.retry_count ≡ 0)
      × (r.failed ≡ false)
unfolding enqueue_embed
lookup-enqueue_embed k now q = (
  Option.get_or (Option.map (requeue_row now) (lookup k q)) (fresh_row now),
  ground (arith, lookup-upsert k k (fresh_row now) (requeue_row now) q),
  ground arith,
  ground arith,
  ground arith,
)

-- After a record is enqueued, it is given up exactly at its `max_retries`-th error in a row: after n + 1
-- errors its row is still there, counts n + 1 retries, is marked failed exactly if
-- max_retries ≤ n + 1, and no worker holds it.
pub enqueue-fail_times :
    (n k now : ℕ) (error : List ℕ) (max_retries : ℕ) (q : Queue)
    → (s : QueueRow) × (lookup k (fail_times (suc n) k error max_retries (enqueue_embed k now q))
        ≡ some s)
      × (s.retry_count ≡ suc n)
      × (s.failed ≡ leb max_retries (suc n))
      × (s.claimed_at ≡ none)
enqueue-fail_times n k now error max_retries q =
    let (r, found, _, zero_retries, _) = lookup-enqueue_embed k now q in
    let (s, kept, count, failed, free) =
      fail_times-row n k error max_retries (enqueue_embed k now q) r found in
    (s, kept, omega arith, ground arith, free)

-- A record that is enqueued again while a worker embeds its old content is not lost. When the worker
-- then dequeues with its old token, nothing is consumed: the row stays, with the new time, no
-- retries and no claim, and so the next claim can take it, whatever its lease.
pub requeue-survives :
    (k token now : ℕ) (q : Queue)
    → now ≢ token
    → ((dequeue_embed_if_unchanged k token (enqueue_embed k now q)).1 ≡ false)
      × (s : QueueRow) × (lookup k (dequeue_embed_if_unchanged k token (enqueue_embed k now q)).0
          ≡ some s)
      × (s.enqueued_at ≡ now)
      × (s.retry_count ≡ 0)
      × ((cutoff : ℕ) → is_claimable cutoff s ≡ true)
unfolding dequeue_embed_if_unchanged
requeue-survives k token now q fresh =
    let (r, found, stamp, none_yet, live) = lookup-enqueue_embed k now q in
    (
      ground arith,
      release_row r,
      ground (arith, lookup-modify k k release_row (enqueue_embed k now q)),
      stamp,
      none_yet,
      λ cutoff. ground arith,
    )

-- A worker that took a row and never answers blocks it for its lease and no longer: until someone
-- else writes the row, a later claim with cutoff time c finds it claimable exactly if the claim was made
-- before c, and when it is claimed again it keeps its token and its retries.
pub claim-expiry :
    (limit claimant lease now k : ℕ) (q : Queue)
    → Distinct q
    → elem k (claimed_ids (claim_pending limit claimant lease now q)) ≡ true
    → (r s : QueueRow) × (lookup k q ≡ some r)
      × (lookup k (claim_pending limit claimant lease now q).0 ≡ some s)
      × ((cutoff : ℕ) → is_claimable cutoff s ≡ ltb now cutoff)
      × (s.enqueued_at ≡ r.enqueued_at)
      × (s.retry_count ≡ r.retry_count)
unfolding claim_pending
claim-expiry limit claimant lease now k q d h = elim (Option-cases (lookup k q)) [
  | inl absent ↦ absurd (ground (arith, elem-claimed_ids limit lease now q d claimant k))
  | inr (r, found) ↦ (
    r,
    claim_row now claimant r,
    found,
    ground (arith, elem-claimed_ids limit lease now q d claimant k, lookup-map_rows step k q),
    λ cutoff. ground (arith, elem-claimed_ids limit lease now q d claimant k),
    refl,
    refl,
  )
]
  where
    step : ℕ → QueueRow → QueueRow
    step j r =
        if is_taken (now - lease) (oldest_claimable limit (now - lease) q) j r
        then claim_row now claimant r
        else r
