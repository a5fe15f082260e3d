-- ===== src/Index/Store/Embedded.antt =====
-- When a memory needs its vectors made again, and what a change of the embedder queues.
use mathlib.Core.Option
use memstem.Prelude.{
  ℕ, ◌≡◌, ◌≢◌, refl, Bool, true, false, not, ◌||◌, Option, none, some, [], ◌∷◌, arith, ◌==◌, ==_iff,
  if◌then◌else◌,
}
use memstem.Prelude.Table.{Table, lookup, Distinct, lookup-upsert}
use memstem.Index.Queue.{Queue, QueueRow, fresh_row, requeue_row, enqueue_embed}
use memstem.Index.Store.{
  Index, EmbedState, embedded_row, has_memory, needs_reembed, record_embed_state, requeue_stale,
  verify_embedding_signature, verdict_changed,
}

-- Once a memory is recorded as embedded with a body and a signature, it needs to be embedded again
-- exactly for another body or another signature.
pub needs_reembed-record_embed_state :
    (m content_hash signature content_hash' signature' : ℕ) (ix : Index)
    → has_memory m ix ≡ true
    → needs_reembed m content_hash' signature' (record_embed_state m content_hash signature ix)
      ≡ (not (content_hash == content_hash') || not (signature == signature'))
unfolding needs_reembed record_embed_state
needs_reembed-record_embed_state m h g h' g' ix there =
    ground (arith, lookup-upsert m m (embedded_row h g) (λ _. embedded_row h g) ix.embed_state)

-- the state says that another embedder made the vectors
abbrev pub is_stale : ℕ → Option EmbedState → Bool
is_stale signature none = false
is_stale signature (some s) = elim s.embed_signature [
  | none ↦ false
  | some g ↦ not (g == signature)
]

abbrev pub requeued : ℕ → Option QueueRow → QueueRow
requeued now o = Option.get_or (Option.map (requeue_row now) o) (fresh_row now)

lookup-requeue_stale :
    (now signature k : ℕ) (t : Table EmbedState) (q : Queue)
    → Distinct t
    → lookup k (requeue_stale now signature t q)
      ≡ (if is_stale signature (lookup k t) then some (requeued now (lookup k q)) else lookup k q)
unfolding requeue_stale enqueue_embed lookup
lookup-requeue_stale now signature k [] q d = refl
lookup-requeue_stale now signature k ((m, s) ∷ t) q d = ground (
  arith,
  lookup-requeue_stale now signature k t q d.1,
  lookup-requeue_stale now signature k t (enqueue_embed m now q) d.1,
  lookup-upsert m k (fresh_row now) (requeue_row now) q,
  ==_iff m k,
)

-- When the index was verified against another embedder, exactly the memories whose vectors a known other
-- embedder made are queued, afresh, and every other queue row stays; a second check with
-- the same signature then finds nothing to do.
pub verify_embedding_signature-changed :
    (now now' signature stored k : ℕ) (ix : Index)
    → Distinct ix.embed_state
    → ix.embedding_signature ≡ some stored
    → stored ≢ signature
    → ((verify_embedding_signature now signature ix).1 ≡ verdict_changed)
      × (lookup k (verify_embedding_signature now signature ix).0.queue ≡ (
          if is_stale signature (lookup k ix.embed_state)
          then some (requeued now (lookup k ix.queue))
          else lookup k ix.queue))
      × ((verify_embedding_signature now' signature
            (verify_embedding_signature now signature ix).0).0
          ≡ (verify_embedding_signature now signature ix).0)
unfolding verify_embedding_signature
verify_embedding_signature-changed now now' signature stored k ix d known other = (
  ground arith,
  ground (arith, lookup-requeue_stale now signature k ix.embed_state ix.queue d),
  ground arith,
)
