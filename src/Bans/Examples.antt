-- ===== src/Bans/Examples.antt =====
-- Two sources that fail to log in on a device whose policy allows one ban of an hour.
use witshield.Bans.Recorded.{ban_stands, Recorded}
use witshield.Actions.Approval.{
  draft_row, is_stale_draft, is_unfinished_of, ensure_unfinished_action_capacity_tx,
  expire_draft_actions_tx,
}
use witshield.Actions.Policy.{
  pending_ban, policy_row, insert_policy_action_and_command, insert_policy_action_and_enqueue,
  is_live_ban_of, is_recent_ban_of,
}
use witshield.Bans.Verdict.{is_attempt_against, judge}
use witshield.Base.{
  eq_iff, ◌≢◌, arith, if◌then◌else◌, ℕ, ◌+◌, ◌*◌, ◌≤◌, String, true, false, ◌≡◌, refl, none, some,
  List, [], ◌∷◌, str_eq,
}
use witshield.Base.Dict.{lookup}
use witshield.Defense.Correlator.{evaluate, Net, default_policy, DefensePolicy, second, hour}
use witshield.Actions.Tables.{Tables}
use witshield.Actions.Statement.{
  done, queued, first_where, find_ban, find_command, find_action, update_where, update_actions,
  fail, require, change, constrained, insert_ban, insert_command, insert_audit, insert_action,
  count_where, pure, read, ◌>>=◌, settle, transact,
}
use witshield.Bans.Targets.{Netip, validate_temporary_ip_ban_target, policy_admin_ip}
use witshield.Bans.Process.{ProcessOutcome, carry_out, Encoding, process_failure}
use witshield.Bans.Hourly.{
  one, Failure, ended, followed, bans_of_hour, process_failures, hourly_limit,
}

-- Addresses are texts, and the only network is that of this host.
abbrev net : Net
net = record {
  Ip = String;
  Network = String;
  parse_ip = λ s. if str_eq s "127.0.0.0/8" then none else some s;
  parse_cidr = λ s. if str_eq s "127.0.0.0/8" then some "127.0.0.1" else none;
  equal = str_eq;
  contains = str_eq;
  base = λ s. s;
  is_loopback = λ s. str_eq s "127.0.0.1";
  is_unspecified = λ _. false;
  text = λ s. s;
  trim_space = λ s. s;
  decimal = λ _. "0";
  quote = λ s. s;
}

abbrev policy : DefensePolicy
policy = record default_policy {
  enabled = true;
  auto_ban = true;
  allowlist = "127.0.0.0/8" ∷ "198.51.100.7" ∷ [];
}

-- Every address but one is public.
abbrev netip : Netip
netip = record {
  Addr = String;
  parse_addr = λ s. some s;
  has_zone = λ _. false;
  unmap = λ s. s;
  is_global_unicast = λ _. true;
  is_loopback = λ s. str_eq s "127.0.0.1";
  is_private = λ _. false;
  is_link_local_unicast = λ _. false;
  is_link_local_multicast = λ _. false;
  is_multicast = λ _. false;
  is_unspecified = λ _. false;
  prefix_contains = λ _ _. false;
}

abbrev encoding : Encoding
encoding = record {
  ban_id = "ban-1";
  action_id = "act-1";
  command_id = "cmd-1";
  parameters = λ ip ttl admin. ip;
  preview = λ ip ttl count. ip;
}

abbrev one_ban : DefensePolicy
one_ban = record policy { max_bans_per_hour = 1 }

abbrev begin : ℕ
begin = 10 * hour

abbrev tables : Tables
tables = record {
  devices = ("web-1", false) ∷ [];
  actions = [];
  commands = [];
  audit = [];
  bans = [];
  policies = ("web-1", one_ban) ∷ [];
  grants = [];
  plan_actions = [];
  plans = [];
  incidents = [];
  timeline = [];
}

abbrev first_failure : Failure
first_failure = record {
  encoding = encoding;
  policy = one_ban;
  device_id = "web-1";
  source_ip = "203.0.113.4";
  observer_only = false;
  count = 10;
  at = begin;
}

abbrev second_failure : Failure
second_failure = record first_failure {
  encoding = record encoding { ban_id = "ban-2"; action_id = "act-2"; command_id = "cmd-2" };
  source_ip = "198.51.100.200";
  at = begin + 60 * second;
}

abbrev failures : List Failure
failures = first_failure ∷ second_failure ∷ []

run_failures :
    bans_of_hour "web-1" (begin + 60 * second) (process_failures net netip failures tables) ≡ 1
unfolding process_failures process_failure transact settle ◌>>=◌ read pure judge carry_out
    count_where is_recent_ban_of is_live_ban_of is_attempt_against evaluate
    insert_policy_action_and_enqueue insert_policy_action_and_command expire_draft_actions_tx
    ensure_unfinished_action_capacity_tx insert_action insert_audit insert_command insert_ban
    constrained change require fail update_actions update_where find_action find_command find_ban
    first_where lookup is_unfinished_of is_stale_draft policy_row draft_row pending_ban queued
    validate_temporary_ip_ban_target policy_admin_ip
run_failures = refl

admin : policy_admin_ip net one_ban.allowlist ≡ "198.51.100.7"
unfolding policy_admin_ip
admin = refl

none_before : bans_of_hour "web-1" begin tables ≤ 1
unfolding count_where
none_before = omega arith

-- The second failure finds the limit of the hour reached, and the device keeps one ban.
hourly_limit_example :
    bans_of_hour "web-1" (begin + 60 * second) (process_failures net netip failures tables) ≤ 1
hourly_limit_example =
    hourly_limit net netip 1 begin (begin + 60 * second) failures "web-1" tables
      (followed (omega arith) (omega arith) (followed (omega arith) (omega arith) ended))
      none_before

abbrev banned : Tables
banned = (transact (one net netip first_failure) tables).0

abbrev banned_outcome : ProcessOutcome
banned_outcome = record {
  recorded = true;
  decision = record {
    matched = true;
    should_ban = true;
    simulated = false;
    reason = "SSH authentication failure threshold reached";
    expires_at = some (begin + 900 * second);
  };
  action_id = "act-1";
  command_id = "cmd-1";
  ban_id = "ban-1";
}

ban_run :
    process_failure net netip encoding one_ban "web-1" "203.0.113.4" false 10 begin tables
    ≡ done banned_outcome banned
unfolding process_failures process_failure transact settle ◌>>=◌ read pure judge carry_out
    count_where is_recent_ban_of is_live_ban_of is_attempt_against evaluate
    insert_policy_action_and_enqueue insert_policy_action_and_command expire_draft_actions_tx
    ensure_unfinished_action_capacity_tx insert_action insert_audit insert_command insert_ban
    constrained change require fail update_actions update_where find_action find_command find_ban
    first_where lookup is_unfinished_of is_stale_draft policy_row draft_row pending_ban queued
    validate_temporary_ip_ban_target policy_admin_ip
ban_run = refl

named : banned_outcome.action_id ≢ ""
named h = ground (arith, h, eq_iff "act-1" "")

ban_stands_example :
    (expires_at : ℕ) × Recorded net netip encoding one_ban "web-1" "203.0.113.4" false 10 begin
      tables banned banned_outcome expires_at
ban_stands_example =
    ban_stands net netip encoding one_ban "web-1" "203.0.113.4" false 10 begin tables banned
      banned_outcome ban_run named
