-- ===== src/Tests/Queue.antt =====
-- The embed queue on concrete rows.
use memstem.Prelude.{
  ℕ, ◌+◌, ◌-◌, ◌≡◌, refl, true, false, none, some, List, [], ◌∷◌, arith, length, leb, ltb, min,
  elem, filter,
}
use memstem.Prelude.Sorting.{sort_by}
use memstem.Prelude.Table.{lookup, Distinct, map_rows, modify, remove, upsert}
use memstem.Index.Queue.{
  Queue, QueueRow, fresh_row, enqueue_embed, dequeue_embed_if_unchanged, mark_embed_error,
  claim_pending, is_claimable, older, queue_stats, reset_failed_queue, queue_pending,
  oldest_claimable,
}
use memstem.Index.Queue.Claims.{
  claimed_ids, claimable_rows, claim_pending-disjoint, claim_pending-length, claim_pending-oldest,
}
use memstem.Index.Queue.Retries.{fail_times, enqueue-fail_times, requeue-survives, claim-expiry}
use memstem.Index.Queue.Validity.{
  Operation, enqueue, claim, mark_error, dequeue_if_unchanged, run_all, IsValid, run_all-IsValid,
  reset_failed_queue-stats,
}

-- three rows: the oldest has failed, the second was claimed at 150
abbrev failed_row : QueueRow
failed_row = record (fresh_row 90) { retry_count = 5; failed = true; last_error = some (1 ∷ []) }

abbrev held_row : QueueRow
held_row = record (fresh_row 100) { claimed_at = some 150; claimed_by = some 7 }

abbrev rows : Queue
rows = (1, failed_row) ∷ (2, held_row) ∷ (3, fresh_row 120) ∷ (4, fresh_row 110) ∷ []

program : Unit {0}
unfolding lookup map_rows modify remove upsert sort_by filter elem oldest_claimable claim_pending
    mark_embed_error enqueue_embed dequeue_embed_if_unchanged queue_pending queue_stats
program = tt

rows-Distinct : Distinct rows
unfolding program
rows-Distinct = (refl, (refl, (refl, (refl, tt))))

claim_one : claimed_ids (claim_pending 1 8 300 200 rows) ≡ 4 ∷ []
unfolding program
claim_one = refl

claim_late : (claim_pending 9 8 20 200 rows).1 ≡ (2, 100) ∷ (3, 120) ∷ (4, 110) ∷ []
unfolding program
claim_late = refl

pending_order : queue_pending 2 rows ≡ 2 ∷ 4 ∷ []
unfolding program
pending_order = refl

claim_pending-disjoint_example :
    elem 4 (claimed_ids (claim_pending 9 5 300 210 (claim_pending 1 8 300 200 rows).0)) ≡ false
unfolding program
claim_pending-disjoint_example =
    claim_pending-disjoint 1 9 8 5 300 300 200 210 rows rows-Distinct (omega arith) 4 refl

claim_pending-length_run :
    length (claim_pending 9 8 20 200 rows).1 ≡ min 9 (length (claimable_rows (200 - 20) rows))
claim_pending-length_run = claim_pending-length 9 8 20 200 rows rows-Distinct

claim_pending-oldest_run : older (4, fresh_row 110) (3, fresh_row 120) ≡ true
unfolding program
claim_pending-oldest_run =
    claim_pending-oldest 1 8 300 200 rows rows-Distinct 4 3 (fresh_row 110) (fresh_row 120) refl
      refl refl refl refl

enqueue-fail_times_example :
    (s : QueueRow) × (lookup 1 (fail_times 5 1 (69 ∷ []) 5 (enqueue_embed 1 300 rows)) ≡ some s)
    × (s.retry_count ≡ 5)
    × (s.failed ≡ leb 5 5)
    × (s.claimed_at ≡ none)
enqueue-fail_times_example = enqueue-fail_times 4 1 300 (69 ∷ []) 5 rows

requeue-survives_example :
    ((dequeue_embed_if_unchanged 2 100 (enqueue_embed 2 160 rows)).1 ≡ false)
    × (s : QueueRow) × (lookup 2 (dequeue_embed_if_unchanged 2 100 (enqueue_embed 2 160 rows)).0
        ≡ some s)
    × (s.enqueued_at ≡ 160)
    × (s.retry_count ≡ 0)
    × ((cutoff : ℕ) → is_claimable cutoff s ≡ true)
requeue-survives_example = requeue-survives 2 100 160 rows (omega arith)

claim-expiry_example :
    (r s : QueueRow) × (lookup 4 rows ≡ some r)
    × (lookup 4 (claim_pending 1 8 300 200 rows).0 ≡ some s)
    × ((cutoff : ℕ) → is_claimable cutoff s ≡ ltb 200 cutoff)
    × (s.enqueued_at ≡ r.enqueued_at)
    × (s.retry_count ≡ r.retry_count)
unfolding program
claim-expiry_example = claim-expiry 1 8 300 200 4 rows rows-Distinct refl

abbrev calls : List Operation
calls =
    enqueue 1 10
    ∷ enqueue 2 20
    ∷ claim 8 0 300 30
    ∷ mark_error 1 (69 ∷ []) 1
    ∷ enqueue 2 40
    ∷ dequeue_if_unchanged 2 20
    ∷ []

empty-IsValid : IsValid []
unfolding lookup
empty-IsValid = record { distinct = tt; rows = λ k. tt }

run_all-IsValid_example : IsValid (run_all calls [])
run_all-IsValid_example = run_all-IsValid calls [] empty-IsValid

reset_failed_queue-stats_run :
    ((queue_stats rows).pending + (queue_stats rows).failed ≡ (queue_stats rows).total)
    × ((reset_failed_queue rows).1 ≡ (queue_stats rows).failed)
    × ((queue_stats (reset_failed_queue rows).0).failed ≡ 0)
    × ((queue_stats (reset_failed_queue rows).0).pending ≡ (queue_stats rows).total)
    × ((queue_stats (reset_failed_queue rows).0).total ≡ (queue_stats rows).total)
reset_failed_queue-stats_run = reset_failed_queue-stats rows
