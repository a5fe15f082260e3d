-- ===== src/Hygiene/Races.antt =====
-- src/memstem/hygiene/state.py: runners that race for a stage, and runners that start while it is held.
use memstem.Prelude.{
  ℕ, suc, ◌+◌, ◌<◌, ◌≡◌, refl, true, false, Option, none, some, List, [], ◌∷◌, arith, ltb, ==_self,
  if◌then◌else◌,
}
use memstem.Hygiene.{
  Stamp, at, unparseable, same_stamp, may_claim, claim, acquire_stage_lock, release_stage_lock,
}

-- the claims of runners at their times, after all of them observed the same row: how many change a row
unfoldable pub race : Option Stamp → List ℕ → Option Stamp → Option Stamp × ℕ
unfolding claim
race seen [] row = (row, 0)
race seen (now ∷ later) row =
    let (row', won) = claim seen now row in
    let (final, wins) = race seen later row' in (final, if won then suc wins else wins)

-- the row is not the one that the runners observed
abbrev pub IsPast : Option Stamp → Option Stamp → Type 0
IsPast none none = ⊥
IsPast none (some held) = Unit
IsPast (some seen) none = Unit
IsPast (some seen) (some held) = same_stamp held seen ≡ false

race-lost :
    (seen row : Option Stamp) (runners : List ℕ)
    → IsPast seen row
    → race seen runners row ≡ (row, 0)
unfolding race claim
race-lost seen row [] past = refl
race-lost none none (now ∷ later) past = absurd past
race-lost none (some held) (now ∷ later) past = rw (race-lost none (some held) later tt) refl
race-lost (some seen) none (now ∷ later) past = rw (race-lost (some seen) none later tt) refl
race-lost (some seen) (some held) (now ∷ later) past =
    rw (past, race-lost (some seen) (some held) later past) refl

claimed-IsPast :
    (max_age now : ℕ) (seen : Option Stamp)
    → may_claim max_age now seen ≡ true
    → 0 < max_age
    → IsPast seen (some (at now))
unfolding may_claim
claimed-IsPast max_age now none may positive = tt
claimed-IsPast max_age now (some (unparseable v)) may positive = refl
claimed-IsPast max_age now (some (at t)) may positive = ground (arith, may, positive)

pub same_stamp_self : (s : Stamp) → same_stamp s s ≡ true
same_stamp_self (at t) = ==_self t
same_stamp_self (unparseable t) = ==_self t

claim-first : (now : ℕ) (seen : Option Stamp) → claim seen now seen ≡ (some (at now), true)
unfolding claim
claim-first now none = refl
claim-first now (some s) = rw same_stamp_self refl

-- Of any number of runners that observed the same row and then claim the stage one after another, exactly the first
-- gets it, where the lock is free, stale or unreadable for that runner: the row then holds its time.
pub race-one :
    (max_age now : ℕ) (later : List ℕ) (seen : Option Stamp)
    → 0 < max_age
    → may_claim max_age now seen ≡ true
    → race seen (now ∷ later) seen ≡ (some (at now), 1)
unfolding race
race-one max_age now later seen positive may =
    rw
      (
        claim-first now seen,
        race-lost seen (some (at now)) later (claimed-IsPast max_age now seen may positive),
      )
      refl

-- A runner that gets the stage keeps every other one out until the age limit has passed, and not after: a
-- runner that starts within it gets nothing and changes nothing, one that starts later takes the stage over.
-- A release frees the stage whoever holds it, so that the first runner, when it ends after such a
-- takeover, lets a third one in while the second still runs.
pub acquire_stage_lock-excludes :
    (max_age start now third : ℕ) (row : Option Stamp)
    → may_claim max_age start row ≡ true
    → (held : Option Stamp) × (acquire_stage_lock max_age start row ≡ (held, true))
      × (acquire_stage_lock max_age now held
          ≡ (if ltb now (start + max_age) then (held, false) else (some (at now), true)))
      × (acquire_stage_lock max_age third
            (release_stage_lock (acquire_stage_lock max_age now held).0)
          ≡ (some (at third), true))
unfolding acquire_stage_lock
acquire_stage_lock-excludes max_age start now third row may = (
  some (at start),
  rw may (claim-first start row),
  unfold may_claim in unfold claim in ground (arith, ==_self start),
  unfold release_stage_lock in unfold may_claim in unfold claim in refl,
)
