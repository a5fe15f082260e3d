-- ===== src/Worker/Success.antt =====
-- src/memstem/core/embed_worker.py: what the embedding of a record leaves where it succeeds, also where another
-- thread writes the queue between the plan and the write.
use mathlib.Core.Option
use memstem.Prelude.{
  ℕ, ◌≡◌, refl, ◌∙◌, ap, true, false, Option, some, none, ◌==◌, if◌then◌else◌, List, [], ◌∷◌, ◌++◌,
  map, arith, get_elem?, length, length-map, ==_iff, ==_self,
}
use memstem.Prelude.Table.{lookup, lookup-remove, lookup-modify, lookup-upsert}
use memstem.Index.Result.{ok}
use memstem.Index.Queue.{
  Queue, QueueRow, dequeue_embed_if_unchanged, release_embed_claim, release_row,
}
use memstem.Index.Store.{Index, Vector, has_memory, record_embed_state, needs_reembed, embedded_row}
use memstem.Index.Vectors.{plan_vector_reuse, misses, apply_vectors, Written}
use memstem.Index.Vectors.Reuse.{vector_at, filled, IsTrue, apply_vectors-plan}
use memstem.Worker.{
  Content, readable, vectors, Environment, Settings, Outcome, embed_one, embed_content, path_of,
  finished, on_queue,
}
use memstem.Worker.Misses.{embed_misses_lem}

-- what another thread does to the queue leaves the vectors alone
on_queue-IsTrue :
    (embedding : ℕ → Vector) (signature m : ℕ) (f : Queue → Queue) (ix : Index)
    → IsTrue embedding signature m ix
    → IsTrue embedding signature m (on_queue f ix)
on_queue-IsTrue embedding signature m f ix t = record { distinct = t.distinct; honest = t.honest }

has_memory-path_of : (m path : ℕ) (ix : Index) → path_of m ix ≡ some path → has_memory m ix ≡ true
unfolding has_memory
has_memory-path_of m path ix at = ground (arith, at)

embed_content-finished :
    (env : Environment) (st : Settings) (embedding : ℕ → Vector) (m token body n_text h : ℕ)
    (hs : List ℕ) (f : Queue → Queue) (ix : Index) (w : Written)
    → ((ds : List ℕ) → env.embed_batch ds ≡ vectors (map embedding ds))
    → ((ds : List ℕ) → env.embed_images ds ≡ vectors (map embedding ds))
    → env.meanwhile ix ≡ on_queue f ix
    → apply_vectors st.dimensions m
        (h ∷ hs)
        (filled embedding (h ∷ hs) (plan_vector_reuse m (h ∷ hs) st.signature ix))
        (plan_vector_reuse m (h ∷ hs) st.signature ix).unchanged
        (some body)
        (on_queue f ix)
      ≡ ok w
    → embed_content env st m token body n_text (h ∷ hs) ix
      ≡ ok (finished m token body st.signature w.index)
unfolding embed_content
embed_content-finished env st embedding m token body n_text h hs f ix w texts images quiet write =
    let plan = plan_vector_reuse m (h ∷ hs) st.signature ix in
    rw (
      embed_misses_lem env embedding (h ∷ hs) n_text (length (h ∷ hs)) plan texts images,
      quiet,
      length-map (vector_at embedding (h ∷ hs)) (misses plan (length (h ∷ hs))),
      ==_self (length (misses plan (length (h ∷ hs)))),
      write,
    )

consumed :
    (m token : ℕ) (r : QueueRow) (q : Queue)
    → lookup m q ≡ some r
    → r.enqueued_at ≡ token
    → lookup m (dequeue_embed_if_unchanged m token q).0 ≡ none
unfolding dequeue_embed_if_unchanged
consumed m token r q waiting same =
    ground (arith, waiting, ==_iff r.enqueued_at token, lookup-remove m m q)

-- what the guarded dequeue leaves of a row: nothing where it carries the token, else the row without its claim
abbrev pub left_of : ℕ → Option QueueRow → Option QueueRow
left_of token none = none
left_of token (some r) =
    if r.enqueued_at == token
    then none
    else some (record r { claimed_at = none; claimed_by = none })

dequeued-lookup :
    (m token j : ℕ) (q : Queue)
    → lookup j (dequeue_embed_if_unchanged m token q).0
      ≡ (if m == j then left_of token (lookup m q) else lookup j q)
unfolding dequeue_embed_if_unchanged release_embed_claim
dequeued-lookup m token j q =
    ground (arith, ==_iff m j, lookup-remove m j q, lookup-modify m j release_row q)

-- recording the state of a memory that is there changes its embed state only
record_embed_state-rest :
    (m body signature : ℕ) (ix : Index)
    → has_memory m ix ≡ true
    → ((record_embed_state m body signature ix).vectors m ≡ ix.vectors m)
      × ((record_embed_state m body signature ix).queue ≡ ix.queue)
      × (needs_reembed m body signature (record_embed_state m body signature ix) ≡ false)
unfolding record_embed_state needs_reembed has_memory
record_embed_state-rest m body signature ix there = (
  rw there refl,
  rw there refl,
  ground (
    arith,
    there,
    lookup-upsert m m (embedded_row body signature) (λ _. embedded_row body signature)
        ix.embed_state,
  ),
)

-- Where the embedder answers with vectors of the right dimension, no other thread writes more than the queue, and
-- the hashes that are stored for the memory, where a plan trusts them, are those of its vectors (`IsTrue`), the
-- embedding of a readable record with a chunk succeeds: afterwards the memory has exactly the vectors of its
-- chunks, in order, and nothing is left to re-embed for this body and embedder. Of the queue that the other
-- threads left, the row of the memory is gone where it carries the token of the claim; a row that was enqueued
-- anew meanwhile stays, unclaimed, and so do all rows of other memories.
pub embed_one-success :
    (env : Environment) (st : Settings) (embedding : ℕ → Vector) (m token path : ℕ) (c : Content)
    (h : ℕ) (hs : List ℕ) (f : Queue → Queue) (ix : Index)
    → path_of m ix ≡ some path
    → env.files path ≡ readable c
    → c.text_chunks ++ c.image_urls ≡ h ∷ hs
    → ((ds : List ℕ) → env.embed_batch ds ≡ vectors (map embedding ds))
    → ((ds : List ℕ) → env.embed_images ds ≡ vectors (map embedding ds))
    → ((d : ℕ) → length (embedding d) ≡ st.dimensions)
    → env.meanwhile ix ≡ on_queue f ix
    → IsTrue embedding st.signature m ix
    → (o : Outcome) × (embed_one env st m token ix ≡ ok o)
      × (o.done ≡ true)
      × ((k : ℕ) → lookup k (o.index.vectors m) ≡ Option.map embedding (get_elem? (h ∷ hs) k))
      × (needs_reembed m c.body st.signature o.index ≡ false)
      × ((j : ℕ)
          → lookup j o.index.queue
            ≡ (if m == j then left_of token (lookup m (f ix.queue)) else lookup j (f ix.queue)))
unfolding embed_one record_embed_state needs_reembed has_memory plan_vector_reuse
embed_one-success env st embedding m token path c h hs f ix at file chunks texts images sized quiet
      t =
    let there : has_memory m (on_queue f ix) ≡ true =
      has_memory-path_of m path (on_queue f ix) at in
    let (w, wrote, stored, hashes, queue, memories, true_after) =
      apply_vectors-plan embedding st.signature m (h ∷ hs) c.body st.dimensions (on_queue f ix)
        (on_queue-IsTrue embedding st.signature m f ix t) there sized in
    let here : has_memory m w.index ≡ true =
      has_memory-path_of m path w.index
        (ap (λ t. elim (lookup m t) [ none ↦ none | some r ↦ some r.path ]) memories ∙ at) in
    let (same, waiting, fresh) = record_embed_state-rest m c.body st.signature w.index here in
    let run =
      embed_content-finished env st embedding m token c.body (length c.text_chunks) h hs f ix w
        texts images quiet wrote in
    (
      finished m token c.body st.signature w.index,
      rw (at, file, chunks) run,
      refl,
      λ k. rw same (stored k),
      fresh,
      λ j. rw (waiting, queue) (dequeued-lookup m token j (f ix.queue)),
    )

-- A record whose body has no chunk is recorded as embedded and leaves the queue, whatever the embedder and the
-- other threads do; the vectors that the memory had before stay.
pub embed_one-empty_body :
    (env : Environment) (st : Settings) (m token path : ℕ) (c : Content) (r : QueueRow) (ix : Index)
    → path_of m ix ≡ some path
    → env.files path ≡ readable c
    → c.text_chunks ++ c.image_urls ≡ []
    → lookup m ix.queue ≡ some r
    → r.enqueued_at ≡ token
    → (o : Outcome) × (embed_one env st m token ix ≡ ok o)
      × (o.done ≡ true)
      × (o.index.vectors m ≡ ix.vectors m)
      × (needs_reembed m c.body st.signature o.index ≡ false)
      × (lookup m o.index.queue ≡ none)
unfolding embed_one embed_content record_embed_state lookup needs_reembed
embed_one-empty_body env st m token path c r ix at file chunks waiting same =
    let (vs, queue, fresh) =
      record_embed_state-rest m c.body st.signature ix (has_memory-path_of m path ix at) in
    (
      finished m token c.body st.signature ix,
      rw (at, file, chunks) refl,
      refl,
      vs,
      fresh,
      rw queue (consumed m token r ix.queue waiting same),
    )
