-- ===== src/Tests/Worker.antt =====
-- The worker on a memory whose session grew, and on records that fail.
use mathlib.Core.Option
use memstem.Prelude.{
  ℕ, ◌≤◌, ◌≡◌, refl, true, false, ◌⊎◌, some, none, [], ◌∷◌, arith, get_elem?, map, ◌==◌,
  if◌then◌else◌,
}
use memstem.Prelude.Table.{lookup}
use memstem.Index.Result.{ok}
use memstem.Index.Queue.{Queue, QueueRow, fresh_row, is_claimable, enqueue_embed}
use memstem.Index.Store.{Index, needs_reembed}
use memstem.Index.Store.Orphans.{IsValid, IsGone}
use memstem.Worker.{
  Content, readable, absent, invalid, vectors, Environment, Settings, Outcome, embed_one, tick,
  Tick, transient_sleep, max_transient_backoff,
}
use memstem.Worker.One.{embed_one-returns}
use memstem.Worker.Failures.{embed_one-pruned, embed_one-invalid}
use memstem.Worker.Success.{left_of, embed_one-success, embed_one-empty_body}
use memstem.Worker.Ticks.{tick-returns, transient_sleep-bounds}
use memstem.Tests.Store.{one, one-IsValid, program}
use memstem.Tests.Vectors.{embedding, embedded, embedded-IsTrue}

-- memory 1 waits since time 5
abbrev waiting : Index
waiting = record embedded { queue = (1, fresh_row 5) ∷ [] }

abbrev content : Content
content = record { body = 41; text_chunks = 61 ∷ 60 ∷ []; image_urls = 62 ∷ [] }

-- another thread puts the record on the queue again, at time 9
abbrev again : Queue → Queue
again q = enqueue_embed 1 9 q

abbrev good : Environment
good = record {
  files = λ p. readable content;
  files_later = λ p. readable content;
  embed_batch = λ ds. vectors (map embedding ds);
  embed_images = λ ds. vectors (map embedding ds);
  meanwhile = λ ix. record ix { queue = again ix.queue };
}

abbrev settings : Settings
settings = record { batch_size = 8; max_retries = 3; signature = 3; dimensions = 2; claimant = 7 }

embed_one-success_example :
    (o : Outcome) × (embed_one good settings 1 5 waiting ≡ ok o)
    × (o.done ≡ true)
    × ((k : ℕ)
        → lookup k (o.index.vectors 1) ≡ Option.map embedding (get_elem? (61 ∷ 60 ∷ 62 ∷ []) k))
    × (needs_reembed 1 41 3 o.index ≡ false)
    × ((j : ℕ)
        → lookup j o.index.queue ≡ (
            if 1 == j
            then left_of 5 (lookup 1 (again waiting.queue))
            else lookup j (again waiting.queue)))
unfolding program
embed_one-success_example =
    embed_one-success good settings embedding 1 5 70 content 61 (60 ∷ 62 ∷ []) again waiting refl
      refl refl (λ ds. refl) (λ ds. refl) (λ d. refl) refl
      (record { distinct = embedded-IsTrue.distinct; honest = embedded-IsTrue.honest })

embed_one-empty_body_run :
    (o : Outcome) × (embed_one
        (record good {
          files = λ p. readable (record content { text_chunks = []; image_urls = [] });
        })
        settings
        1
        5
        waiting
      ≡ ok o)
    × (o.done ≡ true)
    × (o.index.vectors 1 ≡ waiting.vectors 1)
    × (needs_reembed 1 41 3 o.index ≡ false)
    × (lookup 1 o.index.queue ≡ none)
unfolding program
embed_one-empty_body_run =
    embed_one-empty_body
      (record good { files = λ p. readable (record content { text_chunks = []; image_urls = [] }) })
      settings 1 5 70 (record content { text_chunks = []; image_urls = [] }) (fresh_row 5) waiting
      refl refl refl refl refl

embed_one-pruned_run :
    (o : Outcome) × (embed_one
        (record good { files = λ p. absent; files_later = λ p. absent })
        settings
        1
        5
        one
      ≡ ok o)
    × IsValid o.index
    × IsGone o.index 1
unfolding program
embed_one-pruned_run =
    embed_one-pruned (record good { files = λ p. absent; files_later = λ p. absent }) settings 1 5
      70 one one-IsValid refl refl refl

embed_one-invalid_run :
    (o : Outcome) × (s : QueueRow) × (embed_one
        (record good { files = λ p. invalid (4 ∷ []) })
        settings
        1
        5
        waiting
      ≡ ok o)
    × (lookup 1 o.index.queue ≡ some s)
    × ((cutoff : ℕ) → is_claimable cutoff s ≡ false)
unfolding program
embed_one-invalid_run =
    embed_one-invalid (record good { files = λ p. invalid (4 ∷ []) }) settings 1 5 70 (4 ∷ [])
      (fresh_row 5) waiting refl refl refl

embed_one-returns_run : (o : Outcome) × (embed_one good settings 1 5 waiting ≡ ok o)
embed_one-returns_run = embed_one-returns good settings 1 5 waiting (λ p. refl)

tick-returns_example :
    (t : Tick) × (tick (λ m. good) settings 20 2 waiting ≡ ok t)
    × (t.embedded ≤ 8)
    × (t.streak ≤ 3)
    × ((t.embedded ≡ 0) ⊎ (t.streak ≡ 0))
unfolding lookup
tick-returns_example = tick-returns (λ m. good) settings 20 2 waiting (refl, tt) (λ m p. refl)

transient_sleep-bounds_run :
    (2000 ≤ transient_sleep 2000 2 9)
    × (transient_sleep 2000 2 9 ≤ max_transient_backoff)
    × (transient_sleep 2000 2 9 ≤ transient_sleep 2000 2 10)
transient_sleep-bounds_run = transient_sleep-bounds 2000 2 9 (omega arith) (omega arith)
