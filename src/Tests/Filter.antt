-- ===== src/Tests/Filter.antt =====
-- The noise filter on a dump of tools, and on a scheduled session that is read twice.
use memstem.Prelude.{ℕ, zero, suc, ◌≡◌, refl, true, false, Bool, some, List, [], ◌∷◌, filter, elem}
use memstem.Pipeline.{drop}
use memstem.Pipeline.Filter.{Settings, Seen, session_type, noise_filter, noise_of}

abbrev settings : Settings
settings = record {
  head_hash = λ body. 5;
  boot_echo_hashes = some (6 ∷ []);
  openclaw_scheduled_session_ttl_days = some 2;
}

abbrev repeat : {A : Type 0} → ℕ → A → List A
repeat zero x = []
repeat (suc n) x = x ∷ repeat n x

abbrev seen : List (Bool × Bool) → Bool → Seen
seen lines scheduled = record {
  body = repeat 200 65;
  is_blank = false;
  heartbeat_match = false;
  cron_match = false;
  lines = lines;
  from_openclaw = true;
  record_type = session_type;
  scheduled_match = scheduled;
  created = some 1000;
  has_ref = true;
  automation_match = false;
  task_match = false;
}

-- eight of ten lines look like a machine's
dump-run :
    noise_of 50
      (noise_filter settings (seen ((false, false) ∷ (false, false) ∷ repeat 8 (false, true)) true))
    ≡ drop
unfolding noise_filter noise_of filter elem
dump-run = refl

-- one of ten lines does, and the expiry is the same at 50 and at 90
session-run :
    noise_of 50 (noise_filter settings (seen ((false, true) ∷ repeat 9 (false, false)) true))
    ≡ noise_of 90 (noise_filter settings (seen ((false, true) ∷ repeat 9 (false, false)) true))
unfolding noise_filter noise_of filter elem
session-run = refl
