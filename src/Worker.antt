-- ===== src/Worker.antt =====
-- src/memstem/core/embed_worker.py: one worker of the embed queue. A chunk is given by its digest
-- (`_chunk_hash`), a body by `body_hash`. What lies outside the program enters as a value: the vault's
-- files, the embedder's answers, and what other threads do to the index between the plan and the write.
pub mod One
pub mod Failures
pub mod Misses
pub mod Success
pub mod Ticks
use memstem.Prelude.{
  ℕ, zero, suc, ◌+◌, ◌-◌, ◌*◌, ◌≤◌, Bool, true, false, not, ◌&&◌, ◌||◌, Option, none, some, List,
  [], ◌∷◌, ◌++◌, map, length, filter, get_elem?, ltb, leb, ◌==◌, min, if◌then◌else◌,
}
use Prim.Native.Nat.{◌^◌}
use memstem.Prelude.Table.{lookup}
use memstem.Index.Result.{
  Result, ok, err, stale_plan, value_error, index_error, read_error, integrity_error, ◌>>=◌,
}
use memstem.Index.Queue.{
  Queue, claim_pending, release_embed_claim, mark_embed_error, dequeue_embed_if_unchanged,
}
use memstem.Index.Store.{Index, Vector, delete, record_embed_state}
use memstem.Index.Vectors.{
  plan_vector_reuse, misses, merge, apply_vectors, VectorReusePlan, Written,
}
use memstem.Index.Vectors.Reuse.{hash_at}

pub record Content : Type 0 where
  pub body : ℕ
  pub text_chunks : List ℕ
  pub image_urls : List ℕ

-- what `Vault.read` makes of a path: no file, a file with a bad header, a memory, or another exception, such as
-- those of `coerce` and of a text that is not UTF-8
pub data File : Type 0 where
  raising : File
  absent : File
  invalid : List ℕ → File
  readable : Content → File

-- what a call of the embedder gives
pub data Reply : Type 0 where
  vectors : List Vector → Reply
  transient : Reply
  refused : List ℕ → Reply

pub record Environment : Type 0 where
  pub files : ℕ → File
  -- the same files at the second look, after a read that found nothing
  pub files_later : ℕ → File
  pub embed_batch : List ℕ → Reply
  pub embed_images : List ℕ → Reply
  pub meanwhile : Index → Index

-- the settings of a worker, and its `_claimant`
pub record Settings : Type 0 where
  pub batch_size : ℕ
  pub max_retries : ℕ
  pub signature : ℕ
  pub dimensions : ℕ
  pub claimant : ℕ

-- the index, and the pair `(ok, transient)`
pub record Outcome : Type 0 where
  pub index : Index
  pub done : Bool
  pub transient : Bool

abbrev pub on_queue : (Queue → Queue) → Index → Index
on_queue f ix = record ix { queue = f ix.queue }

abbrev pub consume : ℕ → ℕ → Index → Index
consume m token = on_queue (λ q. (dequeue_embed_if_unchanged m token q).0)

abbrev pub failed : ℕ → List ℕ → ℕ → Index → Outcome
failed m error max_retries ix = record {
  index = on_queue (mark_embed_error m error max_retries) ix;
  done = false;
  transient = false;
}

abbrev pub released : ℕ → Bool → Index → Outcome
released m for_now ix = record {
  index = on_queue (release_embed_claim m) ix;
  done = false;
  transient = for_now;
}

-- `record_embed_state`, then the guarded dequeue
abbrev pub finished : ℕ → ℕ → ℕ → ℕ → Index → Outcome
finished m token body signature ix = record {
  index = consume m token (record_embed_state m body signature ix);
  done = true;
  transient = false;
}

abbrev pub path_of : ℕ → Index → Option ℕ
path_of m ix = elim (lookup m ix.memories) [ none ↦ none | some r ↦ some r.path ]

abbrev pub is_file : File → Bool
is_file absent = false
is_file raising = true
is_file (invalid e) = true
is_file (readable c) = true

abbrev pub read_for_embed : (ℕ → File) → Option ℕ → File
read_for_embed files none = absent
read_for_embed files (some path) = files path

-- the handler of `_RecordMissingError`
abbrev pub prune : Environment → ℕ → ℕ → Option ℕ → Index → Outcome
prune env m token none ix = record { index = consume m token ix; done = false; transient = false }
prune env m token (some path) ix =
    if is_file (env.files_later path)
    then released m false ix
    else record { index = delete m ix; done = false; transient = false }

abbrev pub ask : (List ℕ → Reply) → List ℕ → Reply
ask call [] = vectors []
ask call (c ∷ cs) = call (c ∷ cs)

abbrev pub join : Reply → Reply → Reply
join (vectors vs) (vectors ws) = vectors (vs ++ ws)
join (vectors vs) reply = reply
join reply _ = reply

-- the chunks of the misses among the texts, then among the images
unfoldable pub embed_misses : Environment → List ℕ → ℕ → List ℕ → Reply
embed_misses env hashes n_text missed =
    join (ask env.embed_batch (map (hash_at hashes) (filter (λ i. ltb i n_text) missed)))
      (ask env.embed_images (map (hash_at hashes) (filter (λ i. not (ltb i n_text)) missed)))

-- "embedder returned … vectors for … chunks", "vector upsert rejected"
abbrev pub count_error : List ℕ
count_error = 1 ∷ []

abbrev pub value_message : List ℕ
value_message = 2 ∷ []

abbrev pub stored : Settings → ℕ → ℕ → ℕ → Index → Result Written → Result Outcome
stored st m token body ix (ok w) = ok (finished m token body st.signature w.index)
stored st m token body ix (err stale_plan) = ok (released m false ix)
stored st m token body ix (err value_error) = ok (failed m value_message st.max_retries ix)
stored st m token body ix (err integrity_error) = err integrity_error
stored st m token body ix (err index_error) = err index_error
stored st m token body ix (err read_error) = err read_error

-- from the reply of the embedder on; `ix` is the index at the time of the write
abbrev pub write_reply :
    Settings → ℕ → ℕ → ℕ → List ℕ → VectorReusePlan → List ℕ → Reply → Index → Result Outcome
write_reply st m token body hashes plan missed transient ix = ok (released m true ix)
write_reply st m token body hashes plan missed (refused e) ix = ok (failed m e st.max_retries ix)
write_reply st m token body hashes plan missed (vectors fresh) ix =
    if length fresh == length missed
    then stored st m token body ix (
        apply_vectors st.dimensions m hashes (merge missed fresh plan.copied) plan.unchanged
          (some body) ix)
    else ok (failed m count_error st.max_retries ix)

unfoldable pub embed_content :
    Environment → Settings → ℕ → ℕ → ℕ → ℕ → List ℕ → Index → Result Outcome
unfolding embed_misses
embed_content env st m token body n_text [] ix = ok (finished m token body st.signature ix)
embed_content env st m token body n_text (h ∷ hs) ix =
    let hashes = h ∷ hs in
    let plan = plan_vector_reuse m hashes st.signature ix in
    let missed = misses plan (length hashes) in
    write_reply st m token body hashes plan missed (embed_misses env hashes n_text missed)
      (env.meanwhile ix)

abbrev pub embed_file : Environment → Settings → ℕ → ℕ → File → Index → Result Outcome
embed_file env st m token absent ix = ok (prune env m token (path_of m ix) ix)
embed_file env st m token raising ix = err read_error
embed_file env st m token (invalid e) ix = ok (failed m e 1 ix)
embed_file env st m token (readable c) ix =
    embed_content env st m token c.body (length c.text_chunks) (c.text_chunks ++ c.image_urls) ix

unfoldable pub embed_one : Environment → Settings → ℕ → ℕ → Index → Result Outcome
unfolding embed_content
embed_one env st m token ix = embed_file env st m token (read_for_embed env.files (path_of m ix)) ix

-- the records embedded, whether one failed for a transient reason, and the index
pub record Batch : Type 0 where
  pub index : Index
  pub embedded : ℕ
  pub any_transient : Bool

abbrev pub add_outcome : Outcome → Batch → Batch
add_outcome o b = record {
  index = o.index;
  embedded = if o.done then suc b.embedded else b.embedded;
  any_transient = (not o.done && o.transient) || b.any_transient;
}

-- the loop of `tick` over the claimed rows
unfoldable pub embed_all : (ℕ → Environment) → Settings → List (ℕ × ℕ) → Batch → Result Batch
embed_all env st [] b = ok b
embed_all env st ((m, token) ∷ rest) b = do
  o ← embed_one (env m) st m token b.index
  embed_all env st rest (add_outcome o b)

pub record Tick : Type 0 where
  pub index : Index
  pub embedded : ℕ
  pub streak : ℕ

-- an empty claim gives an empty batch, which leaves the streak alone
abbrev pub next_streak : Batch → ℕ → ℕ
next_streak b streak =
    if ltb 0 b.embedded then 0 else if b.any_transient then suc streak else streak

-- CLAIM_LEASE_SECONDS, in microseconds
abbrev pub claim_lease : ℕ
claim_lease = 300000000

unfoldable pub tick : (ℕ → Environment) → Settings → ℕ → ℕ → Index → Result Tick
unfolding embed_all
tick env st now streak ix =
    let (q, claimed) = claim_pending st.batch_size st.claimant claim_lease now ix.queue in
    do
      b ←
          embed_all env st claimed
            (record { index = record ix { queue = q }; embedded = 0; any_transient = false })
      ok (record { index = b.index; embedded = b.embedded; streak = next_streak b streak })

-- MAX_TRANSIENT_BACKOFF, in milliseconds
abbrev pub max_transient_backoff : ℕ
max_transient_backoff = 60000

-- `_transient_sleep`, in milliseconds, for a whole `backoff_base`
unfoldable pub transient_sleep : ℕ → ℕ → ℕ → ℕ
transient_sleep idle_sleep backoff_base zero = idle_sleep
transient_sleep idle_sleep backoff_base (suc n) =
    min (idle_sleep * backoff_base ^ n) max_transient_backoff
