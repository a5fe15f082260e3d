-- ===== src/Worker/Failures.antt =====
-- src/memstem/core/embed_worker.py: the records that are not embedded, and what is left of them.
use memstem.Prelude.{ℕ, ◌≡◌, false, some, List, arith}
use memstem.Prelude.Table.{lookup, lookup-modify}
use memstem.Index.Result.{ok}
use memstem.Index.Queue.{QueueRow, mark_embed_error, error_row, is_claimable}
use memstem.Index.Store.Orphans.{IsValid, IsGone, delete-IsValid}
use memstem.Index.Store.{delete, Index}
use memstem.Worker.{absent, invalid, Environment, Settings, Outcome, embed_one, path_of, failed}

-- A record whose file is gone from the vault at both looks is pruned: nothing is left of the memory's tags, links,
-- text, queue row, embed state, vectors and chunk hashes, and the tables stay valid.
pub embed_one-pruned :
    (env : Environment) (st : Settings) (m token path : ℕ) (ix : Index)
    → IsValid ix
    → path_of m ix ≡ some path
    → env.files path ≡ absent
    → env.files_later path ≡ absent
    → (o : Outcome) × (embed_one env st m token ix ≡ ok o) × IsValid o.index × IsGone o.index m
unfolding embed_one
embed_one-pruned env st m token path ix v at file later =
    let (valid, gone) = delete-IsValid m ix v in
    (
      record { index = delete m ix; done = false; transient = false },
      rw (at, file, at, later),
      valid,
      gone,
    )

-- A record whose header does not parse is given up at its first error, whatever the settings: its row
-- is marked failed, so that no claim takes it until it is enqueued again or reset.
pub embed_one-invalid :
    (env : Environment) (st : Settings) (m token path : ℕ) (e : List ℕ) (r : QueueRow) (ix : Index)
    → path_of m ix ≡ some path
    → env.files path ≡ invalid e
    → lookup m ix.queue ≡ some r
    → (o : Outcome) × (s : QueueRow) × (embed_one env st m token ix ≡ ok o)
      × (lookup m o.index.queue ≡ some s)
      × ((cutoff : ℕ) → is_claimable cutoff s ≡ false)
unfolding embed_one mark_embed_error
embed_one-invalid env st m token path e r ix at file there = (
  failed m e 1 ix,
  error_row e 1 r,
  rw (at, file),
  ground (arith, lookup-modify m m (error_row e 1) ix.queue),
  λ cutoff. ground arith,
)
