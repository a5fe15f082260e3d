-- ===== src/Tests/Hygiene.antt =====
-- Runners on a lock of one hour whose holder crashed at time 100.
use memstem.Prelude.{◌+◌, ◌≡◌, refl, true, false, Option, some, [], ◌∷◌, arith, ltb, if◌then◌else◌}
use memstem.Hygiene.{Stamp, at, may_claim, acquire_stage_lock, release_stage_lock}
use memstem.Hygiene.Races.{race, race-one, acquire_stage_lock-excludes}

race-one_example :
    race (some (at 100)) (4000 ∷ 4000 ∷ 4001 ∷ []) (some (at 100)) ≡ (some (at 4000), 1)
unfolding may_claim
race-one_example = race-one 3600 4000 (4000 ∷ 4001 ∷ []) (some (at 100)) (omega arith) refl

acquire_stage_lock-excludes_example :
    (held : Option Stamp) × (acquire_stage_lock 3600 4000 (some (at 100)) ≡ (held, true))
    × (acquire_stage_lock 3600 8000 held
        ≡ (if ltb 8000 (4000 + 3600) then (held, false) else (some (at 8000), true)))
    × (acquire_stage_lock 3600 8001 (release_stage_lock (acquire_stage_lock 3600 8000 held).0)
        ≡ (some (at 8001), true))
unfolding may_claim
acquire_stage_lock-excludes_example =
    acquire_stage_lock-excludes 3600 4000 8000 8001 (some (at 100)) refl
