-- ===== src/Pipeline/Filter/Decisions.antt =====
-- src/memstem/core/extraction.py: which records the filter drops, and how long the others stay.
use mathlib.Core.Option
use memstem.Prelude.{ℕ, ◌+◌, ◌*◌, ◌≡◌, Bool, false, ◌||◌, Option, none, some, arith, if◌then◌else◌}
use memstem.Pipeline.{keep, drop, tag_transient}
use memstem.Pipeline.Filter.{
  Settings, Seen, is_heartbeat, is_cron_output, is_tool_dump, echoes, is_automation_log,
  is_transient_task, is_openclaw_scheduled_session, noise_filter, noise_of, seconds_per_day,
}

-- the four kinds of noise that are not kept
abbrev pub is_noise : Settings → Seen → Bool
is_noise settings r =
    is_heartbeat r
    || (is_cron_output r || (is_tool_dump r || echoes settings r settings.boot_echo_hashes))

abbrev pub is_scheduled : Option ℕ → Seen → Bool
is_scheduled none r = false
is_scheduled (some days) r = is_openclaw_scheduled_session r

-- A record is dropped exactly when it is a heartbeat, output of a cron job, a tool dump or an echo of a system
-- prompt. Else a scheduled session, where the rule for them is on, expires its number of days after it was
-- created, at the same time however often it is read again, or after now where that is not known; a record of
-- automation or of a task expires 28 days from now; and any other is kept.
pub noise_filter-kinds :
    (settings : Settings) (r : Seen) (now : ℕ)
    → noise_of now (noise_filter settings r) ≡ (
        if is_noise settings r
        then drop
        else if is_scheduled settings.openclaw_scheduled_session_ttl_days r
        then tag_transient (
            Option.get_or r.created now
            + Option.get_or settings.openclaw_scheduled_session_ttl_days 0 * seconds_per_day)
        else if is_automation_log r || is_transient_task r
        then tag_transient (now + 28 * seconds_per_day)
        else keep)
unfolding noise_filter noise_of
noise_filter-kinds settings r now = ground arith
