-- ===== src/Hygiene.antt =====
-- src/memstem/hygiene/state.py: the lock of a hygiene stage, shared by processes. A stamp is a time in seconds; a stored
-- value that does not parse as a time is `unparseable`.
pub mod Expired
pub mod Loop
pub mod Races
use memstem.Prelude.{
  ℕ, ◌+◌, ◌-◌, Bool, true, false, ◌&&◌, Option, none, some, List, [], ◌∷◌, ltb, leb, not, ◌==◌,
  if◌then◌else◌,
}

pub data Stamp : Type 0 where
  at : ℕ → Stamp
  unparseable : ℕ → Stamp

abbrev pub same_stamp : Stamp → Stamp → Bool
same_stamp (at t) (at u) = t == u
same_stamp (unparseable t) (unparseable u) = t == u
same_stamp _ _ = false

-- the first statement and the age check: false where a fresh holder is seen. A stamp of the future is fresh.
unfoldable pub may_claim : ℕ → ℕ → Option Stamp → Bool
may_claim max_age now none = true
may_claim max_age now (some (unparseable v)) = true
may_claim max_age now (some (at t)) = leb (t + max_age) now

-- the claiming statement, by what was observed before: the row after it, and whether it changed a row
unfoldable pub claim : Option Stamp → ℕ → Option Stamp → Option Stamp × Bool
claim none now none = (some (at now), true)
claim none now (some held) = (some held, false)
claim (some seen) now none = (none, false)
claim (some seen) now (some held) =
    if same_stamp held seen then (some (at now), true) else (some held, false)

-- without a race: both statements on the same row
unfoldable pub acquire_stage_lock : ℕ → ℕ → Option Stamp → Option Stamp × Bool
unfolding may_claim claim
acquire_stage_lock max_age now row =
    if may_claim max_age now row then claim row now row else (row, false)

unfoldable pub release_stage_lock : Option Stamp → Option Stamp
release_stage_lock row = none
