-- ===== src/Search/Leg.antt =====
-- src/memstem/core/search.py: `_SemanticLeg`, the handle by which a search stops the vector scan of its semantic
-- leg. The leg's thread and the search's thread take their steps in any order; each method is one step, since it
-- holds the leg's lock.
pub mod Interrupts
use memstem.Prelude.{ℕ, Bool, true, false, ◌||◌, Option, none, some, ◌≡◌, if◌then◌else◌}

-- a connection is a number
pub record Leg : Type 0 where
  pub abandoned : Bool
  pub conn : Option ℕ

-- none where the method raises `_SemanticLegAbandonedError`
unfoldable pub check : Bool → Leg → Option Leg
check past_deadline leg = if leg.abandoned || past_deadline then none else some leg

unfoldable pub attach : Option ℕ → Leg → Option Leg
attach conn leg = if leg.abandoned then none else some (record leg { conn = conn })

unfoldable pub detach : Leg → Leg
detach leg = record leg { conn = none }

-- the connection that is interrupted, if any, and the leg
unfoldable pub abandon : Leg → Option ℕ × Leg
abandon leg = (leg.conn, record leg { abandoned = true })

abbrev pub new_leg : Leg
new_leg = record { abandoned = false; conn = none }

-- Where the leg's thread stands in `_run_semantic_leg`. From `borrowed` on it has what `index.reader()` gave: a
-- reader of the pool, or none, where the scan runs on the shared connection. `scanned` is between the end of the
-- scan and `detach`.
pub data Place : Type 0 where
  start embedding embedded : Place
  borrowed scanning scanned leaving : Option ℕ → Place
  finished : Place

pub record Threads : Type 0 where
  pub leg : Leg
  pub place : Place
  pub waiting : Bool

abbrev pub begin : Threads
begin = record { leg = new_leg; place = start; waiting = true }

-- One step of either thread. `index.reader()` takes its reader back when its block is left; a scan ends at
-- any time, interrupted or not.
pub data Step : Threads → Threads → Type 0 where
  check_start :
      (s : Threads) (leg : Leg) (past : Bool)
      → s.place ≡ start
      → check past s.leg ≡ some leg
      → Step s (record s { leg = leg; place = embedding })
  refuse_start :
      (s : Threads) (past : Bool)
      → s.place ≡ start
      → check past s.leg ≡ none
      → Step s (record s { place = finished })
  embed : (s : Threads) → s.place ≡ embedding → Step s (record s { place = embedded })
  embed_fails : (s : Threads) → s.place ≡ embedding → Step s (record s { place = finished })
  check_scan :
      (s : Threads) (leg : Leg) (past : Bool) (reader : Option ℕ)
      → s.place ≡ embedded
      → check past s.leg ≡ some leg
      → Step s (record s { leg = leg; place = borrowed reader })
  refuse_scan :
      (s : Threads) (past : Bool)
      → s.place ≡ embedded
      → check past s.leg ≡ none
      → Step s (record s { place = finished })
  attach_reader :
      (s : Threads) (leg : Leg) (reader : Option ℕ)
      → s.place ≡ borrowed reader
      → attach reader s.leg ≡ some leg
      → Step s (record s { leg = leg; place = scanning reader })
  refuse_reader :
      (s : Threads) (reader : Option ℕ)
      → s.place ≡ borrowed reader
      → attach reader s.leg ≡ none
      → Step s (record s { place = finished })
  scan_ends :
      (s : Threads) (reader : Option ℕ)
      → s.place ≡ scanning reader
      → Step s (record s { place = scanned reader })
  detach_reader :
      (s : Threads) (reader : Option ℕ)
      → s.place ≡ scanned reader
      → Step s (record s { leg = detach s.leg; place = leaving reader })
  give_back :
      (s : Threads) (reader : Option ℕ)
      → s.place ≡ leaving reader
      → Step s (record s { place = finished })
  stop_waiting :
      (s : Threads)
      → s.waiting ≡ true
      → Step s (record s { leg = (abandon s.leg).1; waiting = false })

pub data Reaches : Threads → Type 0 where
  begins : Reaches begin
  steps : {s t : Threads} → Reaches s → Step s t → Reaches t
