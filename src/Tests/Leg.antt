-- ===== src/Tests/Leg.antt =====
-- A leg that is abandoned in the middle of its scan.
use memstem.Prelude.{◌≡◌, refl, true, false, some}
use memstem.Search.Leg.{
  Leg, check, attach, abandon, new_leg, scanning, scanned, Threads, begin, check_start, embed,
  check_scan, attach_reader, scan_ends, stop_waiting, Reaches, begins, steps,
}
use memstem.Search.Leg.Interrupts.{is_scanning, abandon-attached, stopped_scan}

-- the leg scans on the reader 4
abbrev held : Leg
held = record { abandoned = false; conn = some 4 }

abbrev in_scan : Threads
in_scan = record { leg = held; place = scanning (some 4); waiting = true }

in_scan-Reaches : Reaches in_scan
unfolding check attach
in_scan-Reaches =
    steps
      (steps (steps (steps begins (check_start begin new_leg false refl refl)) (embed _ refl))
        (check_scan _ new_leg false (some 4) refl refl))
      (attach_reader _ held (some 4) refl refl)

abandon-attached_example : (abandon held).0 ≡ some 4
abandon-attached_example = abandon-attached in_scan-Reaches

abbrev stopped : Threads
stopped = record {
  leg = record { abandoned = true; conn = some 4 };
  place = scanning (some 4);
  waiting = false;
}

stopped-Reaches : Reaches stopped
unfolding abandon
stopped-Reaches = steps in_scan-Reaches (stop_waiting in_scan refl)

stopped_scan_run : is_scanning (scanned (some 4)) ≡ false
stopped_scan_run = stopped_scan stopped-Reaches (scan_ends stopped (some 4) refl) refl
