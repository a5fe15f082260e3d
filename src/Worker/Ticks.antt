-- ===== src/Worker/Ticks.antt =====
-- src/memstem/core/embed_worker.py: one pass of the worker over its claimed records, and the sleep after a pass.
use memstem.Prelude.{
  ℕ, zero, suc, ◌+◌, ◌*◌, ◌≤◌, ◌≡◌, refl, ◌⊎◌, false, List, [], ◌∷◌, arith, length,
}
use Prim.Native.Nat.{◌^◌}
use mathlib.Core.Path.{subst}
use native.Mathlib.Nat.{pow-zero, mul-le-mul_left, pow-le-pow_right}
use memstem.Prelude.Table.{Distinct}
use memstem.Index.Result.{ok}
use memstem.Index.Queue.{claim_pending}
use memstem.Index.Queue.Claims.{claim_pending-length}
use memstem.Index.Store.{Index}
use memstem.Worker.{
  Environment, Settings, Batch, add_outcome, embed_all, Tick, next_streak, claim_lease, tick,
  max_transient_backoff, transient_sleep,
}
use memstem.Worker.One.{is_raising, embed_one-returns}

-- the loop goes through every row, and counts at most one record for each
embed_all-returns :
    (env : ℕ → Environment) (st : Settings) (rows : List (ℕ × ℕ)) (b : Batch)
    → ((m p : ℕ) → is_raising ((env m).files p) ≡ false)
    → (b' : Batch) × (embed_all env st rows b ≡ ok b') × (b'.embedded ≤ b.embedded + length rows)
unfolding embed_all
embed_all-returns env st [] b read = (b, refl, omega arith)
embed_all-returns env st ((m, token) ∷ rest) b read =
    let (o, one) = embed_one-returns (env m) st m token b.index (read m) in
    let (b', run, bound) = embed_all-returns env st rest (add_outcome o b) read in
    let step : (add_outcome o b).embedded ≤ suc b.embedded = ground arith in
    (b', rw one run, omega (arith, bound, step))

-- Where no memory stands twice in the queue, and `Vault.read` raises nothing but the two exceptions that the worker
-- handles, a pass raises nothing, whatever the embedder and other threads do to each of its records. It embeds no
-- more records than its batch size, and the streak of transient failures that sets the next sleep grows by at
-- most one, and starts again at zero as soon as one record is embedded.
pub tick-returns :
    (env : ℕ → Environment) (st : Settings) (now streak : ℕ) (ix : Index)
    → Distinct ix.queue
    → ((m p : ℕ) → is_raising ((env m).files p) ≡ false)
    → (t : Tick) × (tick env st now streak ix ≡ ok t)
      × (t.embedded ≤ st.batch_size)
      × (t.streak ≤ suc streak)
      × ((t.embedded ≡ 0) ⊎ (t.streak ≡ 0))
unfolding tick
tick-returns env st now streak ix d read =
    let claim = claim_pending st.batch_size st.claimant claim_lease now ix.queue in
    let n = claim_pending-length st.batch_size st.claimant claim_lease now ix.queue d in
    let (b, run, bound) =
      embed_all-returns env st claim.1
        (record { index = record ix { queue = claim.0 }; embedded = 0; any_transient = false })
        read in
    (
      record { index = b.index; embedded = b.embedded; streak = next_streak b streak },
      rw run refl,
      omega (arith, n, bound),
      ground arith,
      ground arith,
    )

-- Where the idle sleep is within the cap and the base is at least one, the sleep after transient failures is
-- never below the idle sleep nor above the cap, and a longer streak never sleeps less.
pub transient_sleep-bounds :
    (idle_sleep backoff_base streak : ℕ)
    → idle_sleep ≤ max_transient_backoff
    → 1 ≤ backoff_base
    → (idle_sleep ≤ transient_sleep idle_sleep backoff_base streak)
      × (transient_sleep idle_sleep backoff_base streak ≤ max_transient_backoff)
      × (transient_sleep idle_sleep backoff_base streak
          ≤ transient_sleep idle_sleep backoff_base (suc streak))
unfolding transient_sleep
transient_sleep-bounds idle base zero within grow =
    (omega arith, omega arith, rw pow-zero (omega arith))
transient_sleep-bounds idle base (suc n) within grow =
    let one : 1 ≤ base ^ n =
      subst (λ x. x ≤ base ^ n) (pow-zero base)
        (pow-le-pow_right {n = base} grow {i = 0} {j = n} (omega arith)) in
    let up : base ^ n ≤ base ^ suc n = pow-le-pow_right {n = base} grow (omega arith) in
    let low : idle ≤ idle * base ^ n = omega (arith, mul-le-mul_left idle one) in
    let more : idle * base ^ n ≤ idle * base ^ suc n = mul-le-mul_left idle up in
    (omega arith, omega arith, omega arith)
