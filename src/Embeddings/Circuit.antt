-- ===== src/Embeddings/Circuit.antt =====
-- src/memstem/core/embeddings.py: when the circuit breaker opens, what it then does, and when it closes.
use memstem.Prelude.{
  ℕ, suc, ◌+◌, ◌≤◌, ◌<◌, ◌≡◌, refl, true, false, ◌⊎◌, inl, inr, List, [], ◌∷◌, arith, ltb,
  if◌then◌else◌,
}
use memstem.Index.Store.{Vector}
use memstem.Worker.{Reply, vectors, transient, refused}
use memstem.Embeddings.{Breaker, closed, is_open, guarded, after_reply}

-- calls at their times, with what the provider answers if it is called
unfoldable pub run : ℕ → ℕ → List (ℕ × Reply) → Breaker → Breaker
unfolding guarded
run threshold cooldown [] s = s
run threshold cooldown ((now, reply) ∷ calls) s =
    run threshold cooldown calls (guarded threshold cooldown now now reply s).0

unfoldable pub transients : List (ℕ × Reply) → ℕ
transients [] = 0
transients ((now, transient) ∷ calls) = suc (transients calls)
transients ((now, refused e) ∷ calls) = transients calls
transients ((now, vectors vs) ∷ calls) = transients calls

-- no call of the list is answered
abbrev pub IsFailing : List (ℕ × Reply) → Type 0
IsFailing [] = Unit
IsFailing ((now, transient) ∷ calls) = IsFailing calls
IsFailing ((now, refused e) ∷ calls) = IsFailing calls
IsFailing ((now, vectors vs) ∷ calls) = ⊥

run-counts :
    (threshold cooldown : ℕ) (calls : List (ℕ × Reply)) (s : Breaker)
    → IsFailing calls
    → s.open_until ≡ 0
    → s.fails + transients calls < threshold
    → ((run threshold cooldown calls s).fails ≡ s.fails + transients calls)
      × ((run threshold cooldown calls s).open_until ≡ 0)
unfolding run transients
run-counts threshold cooldown [] s a shut few = (omega arith, shut)
run-counts threshold cooldown ((now, refused e) ∷ calls) s a shut few =
    let same : (guarded threshold cooldown now now (refused e) s).0 ≡ s =
      unfold guarded in ground (arith, shut) in
    rw (run, same) (run-counts threshold cooldown calls s a shut few)
run-counts threshold cooldown ((now, transient) ∷ calls) s a shut few =
    let counted : (guarded threshold cooldown now now transient s).0
        ≡ record { fails = suc s.fails; open_until = 0 } =
      unfold guarded in ground (arith, shut, few) in
    rw (run, counted)
      (let (fails, still) =
          run-counts threshold cooldown calls (record { fails = suc s.fails; open_until = 0 }) a
            refl (omega (arith, few)) in
        (omega (arith, fails), still))
run-counts threshold cooldown ((now, vectors vs) ∷ calls) s a shut few = absurd a

-- The breaker opens at exactly the threshold-th transient failure after a success, whatever permanent errors
-- stand between, which neither count nor reset. It is then open until the cooldown has passed since that failure:
-- a call before fails as a transient failure without reaching the provider and changes nothing, a call from then
-- on reaches the provider, and there one more transient failure opens it again, and an answer closes it and
-- starts the count anew. The cooldown ends after time 0.
pub guarded-opens :
    (threshold cooldown last now later : ℕ) (calls : List (ℕ × Reply)) (reply : Reply)
    → IsFailing calls
    → suc (transients calls) ≡ threshold
    → 0 < last + cooldown
    → (s : Breaker) × ((guarded threshold cooldown last last transient
          (run threshold cooldown calls closed)).0
        ≡ s)
      × ((run threshold cooldown calls closed).open_until ≡ 0)
      × (s.open_until ≡ last + cooldown)
      × (guarded threshold cooldown now later reply s ≡ (
          if ltb now (last + cooldown)
          then (s, transient, false)
          else (after_reply threshold cooldown later reply s, reply, true)))
      × ((after_reply threshold cooldown later transient s).open_until ≡ later + cooldown)
      × ((vs : List Vector)
          → (guarded threshold cooldown now later (vectors vs) s).0
            ≡ (if ltb now (last + cooldown) then s else closed))
unfolding guarded run
guarded-opens threshold cooldown last now later calls reply a count positive =
    let (fails, shut) = run-counts threshold cooldown calls closed a refl (omega (arith, count)) in
    let before = run threshold cooldown calls closed in
    (
      (guarded threshold cooldown last last transient before).0,
      refl,
      shut,
      ground (arith, fails, shut, count),
      ground (arith, fails, shut, count),
      ground (arith, fails, shut, count),
      λ vs. ground (arith, fails, shut, count),
    )

guarded-counted :
    (threshold cooldown now : ℕ) (reply : Reply) (s : Breaker)
    → (s.open_until ≡ 0) ⊎ (threshold ≤ s.fails)
    → ((guarded threshold cooldown now now reply s).0.open_until ≡ 0)
      ⊎ (threshold ≤ (guarded threshold cooldown now now reply s).0.fails)
unfolding guarded
guarded-counted threshold cooldown now (vectors vs) s inv = ground (arith, inv)
guarded-counted threshold cooldown now transient s inv = ground (arith, inv)
guarded-counted threshold cooldown now (refused e) s inv = ground (arith, inv)

run-counted :
    (threshold cooldown : ℕ) (calls : List (ℕ × Reply)) (s : Breaker)
    → (s.open_until ≡ 0) ⊎ (threshold ≤ s.fails)
    → ((run threshold cooldown calls s).open_until ≡ 0)
      ⊎ (threshold ≤ (run threshold cooldown calls s).fails)
unfolding run
run-counted threshold cooldown [] s inv = inv
run-counted threshold cooldown ((now, reply) ∷ calls) s inv =
    run-counted threshold cooldown calls _ (guarded-counted threshold cooldown now reply s inv)

-- Through any calls, an open breaker has counted the threshold of failures: with fewer, every call reaches
-- the provider.
pub run-closed :
    (threshold cooldown : ℕ) (calls : List (ℕ × Reply)) (now : ℕ)
    → (run threshold cooldown calls closed).fails < threshold
    → is_open now (run threshold cooldown calls closed) ≡ false
run-closed threshold cooldown calls now few =
    elim (run-counted threshold cooldown calls closed (inl refl)) [
      | inl shut ↦ ground (arith, shut)
      | inr many ↦ absurd (omega (arith, few, many))
    ]
