-- ===== src/Pipeline/Filter.antt =====
-- src/memstem/core/extraction.py: the noise filter, and (src/memstem/core/pipeline.py) the expiry that its decision
-- gives a record. The matches of the regular expressions and the hash are given; times are in seconds.
pub mod Decisions
use mathlib.Core.Option
use memstem.Prelude.{
  ℕ, ◌+◌, ◌*◌, Bool, true, false, not, ◌&&◌, ◌||◌, Option, none, some, List, [], ◌∷◌, length, take,
  filter, leb, ltb, elem, ◌==◌, is_some, if◌then◌else◌,
}
use memstem.Pipeline.{Noise, keep, drop, tag_transient}

pub data NoiseKind : Type 0 where
  heartbeat cron_output tool_dump boot_echo openclaw_scheduled_session automation_log
        transient_task :
      NoiseKind

pub data NoiseAction : Type 0 where
  keep_record drop_record tag_record : NoiseAction

pub record NoiseDecision : Type 0 where
  pub action : NoiseAction
  pub kind : Option NoiseKind
  pub ttl_days : Option ℕ
  pub expires_at : Option ℕ

-- the type of a record in its metadata: none, "session" or another
pub data RecordType : Type 0 where
  untyped session_type other_type : RecordType

-- what the filter sees of a record: the body with the results of the expressions on it, each line with whether it
-- is blank and whether it looks like a machine's, and the length of the ref
pub record Seen : Type 0 where
  pub body : List ℕ
  pub is_blank : Bool
  pub heartbeat_match : Bool
  pub cron_match : Bool
  pub lines : List (Bool × Bool)
  pub from_openclaw : Bool
  pub record_type : RecordType
  pub scheduled_match : Bool
  pub created : Option ℕ
  pub has_ref : Bool
  pub automation_match : Bool
  pub task_match : Bool

-- `head_hash` is SHA-256 of a text's first 1024 bytes
pub record Settings : Type 0 where
  pub head_hash : List ℕ → ℕ
  pub boot_echo_hashes : Option (List ℕ)
  pub openclaw_scheduled_session_ttl_days : Option ℕ

abbrev pub is_nil {ℓ} : {A : Type ℓ} → List A → Bool
is_nil [] = true
is_nil (x ∷ xs) = false

unfoldable pub is_heartbeat : Seen → Bool
is_heartbeat r = not (is_nil r.body || r.is_blank) && r.heartbeat_match

unfoldable pub is_cron_output : Seen → Bool
is_cron_output r = not (is_nil r.body || r.is_blank) && r.cron_match

-- a ratio of 0.8 of the lines that are not blank
unfoldable pub is_tool_dump : Seen → Bool
unfolding filter
is_tool_dump r =
    let lines = filter (λ line. not line.0) r.lines in
    let machine_lines = length (filter (λ line. line.1) lines) in
    if is_nil r.body || ltb (length r.body) 200
    then false
    else if ltb (length lines) 6
    then false
    else leb (4 * length lines) (5 * machine_lines)

unfoldable pub is_boot_echo : Settings → Seen → List ℕ → Bool
unfolding elem
is_boot_echo settings r hashes =
    not (is_nil r.body || is_nil hashes) && elem (settings.head_hash r.body) hashes

unfoldable pub is_transient_task : Seen → Bool
is_transient_task r = not (is_nil r.body || r.is_blank) && r.task_match

unfoldable pub is_automation_log : Seen → Bool
is_automation_log r = r.has_ref && r.automation_match

abbrev pub may_be_session : RecordType → Bool
may_be_session untyped = true
may_be_session session_type = true
may_be_session other_type = false

unfoldable pub is_openclaw_scheduled_session : Seen → Bool
is_openclaw_scheduled_session r =
    (r.from_openclaw && not (is_nil r.body)) && (may_be_session r.record_type && r.scheduled_match)

abbrev pub drop_as : NoiseKind → NoiseDecision
drop_as kind = record { action = drop_record; kind = some kind; ttl_days = none; expires_at = none }

abbrev pub tag_as : NoiseKind → ℕ → Option ℕ → NoiseDecision
tag_as kind days expires_at = record {
  action = tag_record;
  kind = some kind;
  ttl_days = some days;
  expires_at = expires_at;
}

abbrev pub keep_it : NoiseDecision
keep_it = record { action = keep_record; kind = none; ttl_days = none; expires_at = none }

abbrev pub seconds_per_day : ℕ
seconds_per_day = 86400

-- the tests that are behind the boot echo's
abbrev pub tag_or_keep : Seen → NoiseDecision
tag_or_keep r =
    if is_automation_log r
    then tag_as automation_log 28 none
    else if is_transient_task r
    then tag_as transient_task 28 none
    else keep_it

abbrev pub scheduled : Option ℕ → Seen → NoiseDecision
scheduled none r = tag_or_keep r
scheduled (some days) r =
    if is_openclaw_scheduled_session r
    then tag_as openclaw_scheduled_session days
        (Option.map (λ created. created + days * seconds_per_day) r.created)
    else tag_or_keep r

abbrev pub echoes : Settings → Seen → Option (List ℕ) → Bool
echoes settings r none = false
echoes settings r (some hashes) = is_boot_echo settings r hashes

unfoldable pub noise_filter : Settings → Seen → NoiseDecision
unfolding is_heartbeat is_cron_output is_tool_dump is_boot_echo is_transient_task is_automation_log
    is_openclaw_scheduled_session
noise_filter settings r =
    if is_heartbeat r
    then drop_as heartbeat
    else if is_cron_output r
    then drop_as cron_output
    else if is_tool_dump r
    then drop_as tool_dump
    else if echoes settings r settings.boot_echo_hashes
    then drop_as boot_echo
    else scheduled settings.openclaw_scheduled_session_ttl_days r

-- what `process` makes of the decision at the time `now`
unfoldable pub noise_of : ℕ → NoiseDecision → Noise
noise_of now decision = elim decision.action [
  | keep_record ↦ keep
  | drop_record ↦ drop
  | tag_record ↦ tag_transient (
      Option.get_or decision.expires_at
        (now + Option.get_or decision.ttl_days 28 * seconds_per_day))
]
