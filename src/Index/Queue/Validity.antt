-- ===== src/Index/Queue/Validity.antt =====
-- The invariant of the embed queue, over every sequence of the operations that write it.
use memstem.Prelude.{
  ℕ, ◌+◌, ◌<◌, ◌≡◌, refl, true, none, List, [], ◌∷◌, arith, filter, is_some, ◌==◌, Bool-cases, inl,
  inr, if◌then◌else◌,
}
use memstem.Prelude.Table.{
  lookup, Distinct, map_rows, remove, upsert-Distinct, remove-Distinct, map_rows-Distinct, Each,
  map_rows-Each, remove-Each, upsert-Each, modify,
}
use memstem.Index.Queue.{
  Queue, QueueRow, enqueue_embed, dequeue_embed, dequeue_embed_if_unchanged, release_embed_claim,
  release_row, requeue_row, mark_embed_error, error_row, claim_pending, queue_stats,
  reset_failed_queue, fresh_row, has_token,
}

-- one call of a method that writes the queue, with the clock's value where it reads one
pub data Operation : Type 0 where
  enqueue : ℕ → ℕ → Operation
  dequeue : ℕ → Operation
  dequeue_if_unchanged : ℕ → ℕ → Operation
  mark_error : ℕ → List ℕ → ℕ → Operation
  claim : ℕ → ℕ → ℕ → ℕ → Operation
  release : ℕ → Operation
  reset_failed : Operation

unfoldable pub run : Operation → Queue → Queue
run (enqueue k now) q = enqueue_embed k now q
run (dequeue k) q = dequeue_embed k q
run (dequeue_if_unchanged k token) q = (dequeue_embed_if_unchanged k token q).0
run (mark_error k error max_retries) q = mark_embed_error k error max_retries q
run (claim limit claimant lease now) q = (claim_pending limit claimant lease now q).0
run (release k) q = release_embed_claim k q
run reset_failed q = (reset_failed_queue q).0

unfoldable pub run_all : List Operation → Queue → Queue
run_all [] q = q
run_all (op ∷ ops) q = run_all ops (run op q)

-- The claim columns are set together; a row that was given up has failed, says why, and is
-- nobody's.
pub record RowIsValid (r : QueueRow) : Type 0 where
  pub together : is_some r.claimed_at ≡ is_some r.claimed_by
  pub free : r.failed ≡ true → r.claimed_at ≡ none
  pub counted : r.failed ≡ true → 0 < r.retry_count
  pub said : r.failed ≡ true → is_some r.last_error ≡ true

pub record IsValid (q : Queue) : Type 0 where
  pub distinct : Distinct q
  pub rows : (k : ℕ) → Each RowIsValid (lookup k q)

enqueue-IsValid : (k now : ℕ) (q : Queue) → IsValid q → IsValid (enqueue_embed k now q)
unfolding enqueue_embed
enqueue-IsValid k now q v = record {
  distinct = upsert-Distinct k (fresh_row now) (requeue_row now) q v.distinct;
  rows =
      upsert-Each RowIsValid k (fresh_row now) (requeue_row now) q (ground arith)
        (λ r h. ground arith) v.rows;
}

map_rows-IsValid :
    (f : ℕ → QueueRow → QueueRow) (q : Queue)
    → ((k : ℕ) (r : QueueRow) → RowIsValid r → RowIsValid (f k r))
    → IsValid q
    → IsValid (map_rows f q)
map_rows-IsValid f q keep v = record {
  distinct = map_rows-Distinct f q v.distinct;
  rows = map_rows-Each RowIsValid f q keep v.rows;
}

remove-IsValid : (k : ℕ) (q : Queue) → IsValid q → IsValid (remove k q)
remove-IsValid k q v = record {
  distinct = remove-Distinct k q v.distinct;
  rows = remove-Each RowIsValid k q v.rows;
}

release-IsValid : (k : ℕ) (q : Queue) → IsValid q → IsValid (release_embed_claim k q)
unfolding release_embed_claim modify
release-IsValid k q v =
    map_rows-IsValid (λ j r. if j == k then release_row r else r) q (λ j r h. ground arith) v

dequeue-IsValid :
    (k token : ℕ) (q : Queue) → IsValid q → IsValid (dequeue_embed_if_unchanged k token q).0
unfolding dequeue_embed_if_unchanged
dequeue-IsValid k token q v = elim (Bool-cases (has_token (lookup k q) token)) [
  | inl same ↦ rw same (remove-IsValid k q v)
  | inr other ↦ rw other (release-IsValid k q v)
]

-- Every method keeps the invariant: one row for each memory, claim columns set together, and a row
-- that was given up is unclaimed, counts at least one retry and holds the error.
pub run-IsValid : (op : Operation) (q : Queue) → IsValid q → IsValid (run op q)
unfolding run dequeue_embed mark_embed_error modify claim_pending reset_failed_queue
run-IsValid (enqueue k now) q v = enqueue-IsValid k now q v
run-IsValid (dequeue k) q v = remove-IsValid k q v
run-IsValid (dequeue_if_unchanged k token) q v = dequeue-IsValid k token q v
run-IsValid (mark_error k error max_retries) q v =
    map_rows-IsValid (λ j r. if j == k then error_row error max_retries r else r) q
      (λ j r h. ground arith) v
run-IsValid (claim limit claimant lease now) q v = map_rows-IsValid _ q (λ j r h. ground arith) v
run-IsValid (release k) q v = release-IsValid k q v
run-IsValid reset_failed q v = map_rows-IsValid _ q (λ j r h. ground arith) v

-- The invariant holds of every queue that any sequence of calls makes of an empty one.
pub run_all-IsValid : (ops : List Operation) (q : Queue) → IsValid q → IsValid (run_all ops q)
unfolding run_all
run_all-IsValid [] q v = v
run_all-IsValid (op ∷ ops) q v = run_all-IsValid ops (run op q) (run-IsValid op q v)

-- The statistics count each row once, and a reset turns exactly the failed rows into pending ones: it
-- returns their number, leaves none failed, and keeps the total.
pub reset_failed_queue-stats :
    (q : Queue)
    → ((queue_stats q).pending + (queue_stats q).failed ≡ (queue_stats q).total)
      × ((reset_failed_queue q).1 ≡ (queue_stats q).failed)
      × ((queue_stats (reset_failed_queue q).0).failed ≡ 0)
      × ((queue_stats (reset_failed_queue q).0).pending ≡ (queue_stats q).total)
      × ((queue_stats (reset_failed_queue q).0).total ≡ (queue_stats q).total)
unfolding queue_stats reset_failed_queue filter map_rows
reset_failed_queue-stats [] = (refl, refl, refl, refl, refl)
reset_failed_queue-stats (e ∷ q) =
    let ih = reset_failed_queue-stats q in
    (ground arith, ground arith, ground arith, ground arith, ground arith)
