-- ===== src/Index/Queue.antt =====
-- The embed queue of src/memstem/core/index.py: the table `embed_queue`, keyed by memory id, and
-- the methods of `Index` that change it. Each method is one transaction, so one function. Time is
-- a number of microseconds, read from the clock by the caller; the source compares ISO texts of
-- UTC times, which sort the same way. SQL leaves the order of ties open: here ties keep the order
-- of the rows.
pub mod Claims
pub mod Retries
pub mod Validity
use memstem.Prelude.{
  ℕ, ◌+◌, ◌-◌, Bool, true, false, not, ◌&&◌, ◌||◌, Option, none, some, List, map, ltb, leb, ◌==◌,
  if◌then◌else◌, take, length, filter, elem,
}
use memstem.Prelude.Sorting.{sort_by}
use memstem.Prelude.Table.{Table, lookup, upsert, remove, map_rows, modify}

pub record QueueRow : Type 0 where
  pub enqueued_at : ℕ
  pub retry_count : ℕ
  pub last_error : Option (List ℕ)
  pub failed : Bool
  pub claimed_at : Option ℕ
  pub claimed_by : Option ℕ

abbrev pub Queue : Type 0
Queue = Table QueueRow

-- the values of a fresh INSERT; the claim columns default to NULL
abbrev pub fresh_row : ℕ → QueueRow
fresh_row now = record {
  enqueued_at = now;
  retry_count = 0;
  last_error = none;
  failed = false;
  claimed_at = none;
  claimed_by = none;
}

-- the SET list of the conflict clause: the claim columns are not in it
abbrev pub requeue_row : ℕ → QueueRow → QueueRow
requeue_row now r = record r {
  enqueued_at = now;
  retry_count = 0;
  last_error = none;
  failed = false;
}

unfoldable pub enqueue_embed : ℕ → ℕ → Queue → Queue
enqueue_embed memory_id now q = upsert memory_id (fresh_row now) (requeue_row now) q

unfoldable pub dequeue_embed : ℕ → Queue → Queue
dequeue_embed memory_id q = remove memory_id q

abbrev pub release_row : QueueRow → QueueRow
release_row r = record r { claimed_at = none; claimed_by = none }

unfoldable pub release_embed_claim : ℕ → Queue → Queue
release_embed_claim memory_id q = modify memory_id release_row q

-- does the row still carry the token of the claim?
abbrev pub has_token : Option QueueRow → ℕ → Bool
has_token none token = false
has_token (some r) token = r.enqueued_at == token

unfoldable pub dequeue_embed_if_unchanged : ℕ → ℕ → Queue → Queue × Bool
unfolding release_embed_claim
dequeue_embed_if_unchanged memory_id enqueued_at q =
    if has_token (lookup memory_id q) enqueued_at
    then (remove memory_id q, true)
    else (release_embed_claim memory_id q, false)

abbrev pub error_row : List ℕ → ℕ → QueueRow → QueueRow
error_row error max_retries r = record r {
  retry_count = r.retry_count + 1;
  last_error = some (take 500 error);
  failed = leb max_retries (r.retry_count + 1);
  claimed_at = none;
  claimed_by = none;
}

unfoldable pub mark_embed_error : ℕ → List ℕ → ℕ → Queue → Queue
mark_embed_error memory_id error max_retries q = modify memory_id (error_row error max_retries) q

-- ORDER BY enqueued_at ASC, retry_count ASC
abbrev pub older : ℕ × QueueRow → ℕ × QueueRow → Bool
older (_, a) (_, b) =
    ltb a.enqueued_at b.enqueued_at
    || (a.enqueued_at == b.enqueued_at && leb a.retry_count b.retry_count)

abbrev pub key : ℕ × QueueRow → ℕ
key e = e.0

unfoldable pub queue_pending : ℕ → Queue → List ℕ
queue_pending limit q = map key (take limit (sort_by older (filter (λ e. not e.1.failed) q)))

-- claimed_at IS NULL OR claimed_at < cutoff
abbrev pub is_free : Option ℕ → ℕ → Bool
is_free none cutoff = true
is_free (some at) cutoff = ltb at cutoff

abbrev pub is_claimable : ℕ → QueueRow → Bool
is_claimable cutoff r = not r.failed && is_free r.claimed_at cutoff

-- the subselect of the claim
unfoldable pub oldest_claimable : ℕ → ℕ → Queue → List ℕ
oldest_claimable limit cutoff q =
    map key (take limit (sort_by older (filter (λ e. is_claimable cutoff e.1) q)))

-- the WHERE clause of the claim, the subselect's ids given
abbrev pub is_taken : ℕ → List ℕ → ℕ → QueueRow → Bool
is_taken cutoff ids k r = is_claimable cutoff r && elem k ids

abbrev pub claim_row : ℕ → ℕ → QueueRow → QueueRow
claim_row now claimant r = record r { claimed_at = some now; claimed_by = some claimant }

abbrev pub token : ℕ × QueueRow → ℕ × ℕ
token (k, r) = (k, r.enqueued_at)

-- RETURNING gives the ids with the tokens, in the order of the rows
unfoldable pub claim_pending : ℕ → ℕ → ℕ → ℕ → Queue → Queue × List (ℕ × ℕ)
unfolding oldest_claimable
claim_pending limit claimant lease now q =
    let cutoff = now - lease in
    let ids = oldest_claimable limit cutoff q in
    (
      map_rows (λ k r. if is_taken cutoff ids k r then claim_row now claimant r else r) q,
      map token (filter (λ e. is_taken cutoff ids e.0 e.1) q),
    )

pub record QueueStats : Type 0 where
  pub pending : ℕ
  pub failed : ℕ
  pub total : ℕ

unfoldable pub queue_stats : Queue → QueueStats
queue_stats q = record {
  pending = length (filter (λ e. not e.1.failed) q);
  failed = length (filter (λ e. e.1.failed) q);
  total = length q;
}

abbrev pub reset_row : QueueRow → QueueRow
reset_row r = record r { failed = false; retry_count = 0; last_error = none }

unfoldable pub reset_failed_queue : Queue → Queue × ℕ
reset_failed_queue q =
    (map_rows (λ k r. if r.failed then reset_row r else r) q, length (filter (λ e. e.1.failed) q))
