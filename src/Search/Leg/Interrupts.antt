-- ===== src/Search/Leg/Interrupts.antt =====
-- src/memstem/core/search.py: which connections the handle of a semantic leg interrupts.
use memstem.Prelude.{ℕ, ◌≡◌, refl, Bool, true, false, not, Option, none, arith}
use memstem.Search.Leg.{
  check, attach, detach, abandon, Place, start, embedding, embedded, borrowed, scanning, scanned,
  leaving, finished, Threads, Step, check_start, refuse_start, embed, embed_fails, check_scan,
  refuse_scan, attach_reader, refuse_reader, scan_ends, detach_reader, give_back, stop_waiting,
  Reaches, begins, steps,
}

-- the reader that is attached: from the start of the scan until `detach`
abbrev pub attached : Place → Option ℕ
attached start = none
attached embedding = none
attached embedded = none
attached (borrowed reader) = none
attached (scanning reader) = reader
attached (scanned reader) = reader
attached (leaving reader) = none
attached finished = none

-- whether a vector scan is running
abbrev pub is_scanning : Place → Bool
is_scanning (scanning reader) = true
is_scanning _ = false

abbrev IsHeld : Threads → Type 0
IsHeld s = (s.leg.conn ≡ attached s.place) × (s.leg.abandoned ≡ not s.waiting)

Step-IsHeld : {s t : Threads} → Step s t → IsHeld s → IsHeld t
unfolding check attach detach abandon
Step-IsHeld (check_start s leg past e c) h = ground (arith, e, c, h)
Step-IsHeld (refuse_start s past e c) h = ground (arith, e, c, h)
Step-IsHeld (embed s e) h = ground (arith, e, h)
Step-IsHeld (embed_fails s e) h = ground (arith, e, h)
Step-IsHeld (check_scan s leg past reader e c) h = ground (arith, e, c, h)
Step-IsHeld (refuse_scan s past e c) h = ground (arith, e, c, h)
Step-IsHeld (attach_reader s leg reader e c) h = ground (arith, e, c, h)
Step-IsHeld (refuse_reader s reader e c) h = ground (arith, e, c, h)
Step-IsHeld (scan_ends s reader e) h = ground (arith, e, h)
Step-IsHeld (detach_reader s reader e) h = ground (arith, e, h)
Step-IsHeld (give_back s reader e) h = ground (arith, e, h)
Step-IsHeld (stop_waiting s e) h = ground (arith, e, h)

Reaches-IsHeld : {s : Threads} → Reaches s → IsHeld s
Reaches-IsHeld begins = (refl, refl)
Reaches-IsHeld (steps r step) = Step-IsHeld step (Reaches-IsHeld r)

-- Whatever the order of the steps of the two threads, `abandon` interrupts exactly the reader of the pool on which
-- the leg's scan runs, or has ended without `detach` yet, and nothing where there is none: neither a reader that has
-- gone back to the pool nor the shared connection, on which the leg scans where the pool gave no reader.
pub abandon-attached : {s : Threads} → Reaches s → (abandon s.leg).0 ≡ attached s.place
unfolding abandon
abandon-attached r = (Reaches-IsHeld r).0

Step-scan : {s t : Threads} → Step s t → IsHeld s → s.waiting ≡ false → is_scanning t.place ≡ false
unfolding check attach
Step-scan (check_start s leg past e c) h over = ground (arith, e, c, h, over)
Step-scan (refuse_start s past e c) h over = ground (arith, e, c, h, over)
Step-scan (embed s e) h over = ground (arith, e, h, over)
Step-scan (embed_fails s e) h over = ground (arith, e, h, over)
Step-scan (check_scan s leg past reader e c) h over = ground (arith, e, c, h, over)
Step-scan (refuse_scan s past e c) h over = ground (arith, e, c, h, over)
Step-scan (attach_reader s leg reader e c) h over = ground (arith, e, c, h, over)
Step-scan (refuse_reader s reader e c) h over = ground (arith, e, c, h, over)
Step-scan (scan_ends s reader e) h over = ground (arith, e, h, over)
Step-scan (detach_reader s reader e) h over = ground (arith, e, h, over)
Step-scan (give_back s reader e) h over = ground (arith, e, h, over)
Step-scan (stop_waiting s e) h over = ground (arith, e, h, over)

-- Once the search has stopped waiting, no scan runs after any further step: the only step of a leg that is
-- scanning ends its scan, and no other step starts one.
pub stopped_scan :
    {s t : Threads} → Reaches s → Step s t → s.waiting ≡ false → is_scanning t.place ≡ false
stopped_scan r step over = Step-scan step (Reaches-IsHeld r) over
