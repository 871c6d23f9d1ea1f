-- ===== src/Actions/Queue/Examples.antt =====
-- Tests of the expiry of action commands and of the queue, and its theorems at concrete inputs.
use witshield.Base.{
  ◌*◌, ◌≤◌, String, false, ◌≡◌, refl, Option, none, some, List, [], ◌∷◌, All, length, arith,
}
use witshield.Base.Dict.{lookup}
use witshield.Actions.Tables.{
  ActionStatus, approved, failed, CommandRow, scan, execute_action, DeviceCommand, Tables,
}
use witshield.Actions.Statement.{done, count_where, transact, find_action}
use witshield.Actions.Approval.{minute}
use witshield.Actions.Gate.{contains, is_action_command}
use witshield.Actions.Expiry.{
  on_device, is_undelivered, is_overdue, is_unanswered, expire_stale_action_commands,
}
use witshield.Actions.Expiry.Select.{ids}
use witshield.Actions.Expiry.Aged.{Aged, Pairs}
use witshield.Actions.Expiry.Sweep.{sweep_complete}
use witshield.Actions.Queue.{queue, is_scan, is_pending_scan, enqueue_command, claim_commands}
use witshield.Actions.Queue.Delivery.{Delivered}
use witshield.Actions.Queue.Reached.{claims_deliver}
use witshield.Actions.Calls.{Call, enqueue, perform, perform_all}
use witshield.Actions.Queue.Lease.{claimed_once}
use witshield.Actions.Queue.Scans.{one_scan}
use witshield.Actions.Examples.{empty_tables, draft_repair}

abbrev old_run : CommandRow
old_run = record {
  id = "old";
  device_id = "dev";
  type = execute_action;
  payload = record {
    action_id = "act";
    policy_authorized = false;
    type = "file_permission_repair";
    parameters = "{}";
    ttl_seconds = none;
  };
  created_at = 0;
  claimed_at = none;
  started_at = none;
  completed_at = none;
  result = "";
  error = "";
}

abbrev scan_row : CommandRow
scan_row = record old_run {
  id = "scan";
  type = scan;
  payload = record old_run.payload { action_id = ""; type = "" };
  created_at = 2 * minute;
}

-- An approved action whose command was never claimed, and a scan.
abbrev waiting_tables : Tables
waiting_tables = record empty_tables {
  actions = record draft_repair { status = approved } ∷ [];
  commands = old_run ∷ scan_row ∷ [];
}

abbrev status_of : String → Tables → Option ActionStatus
status_of id s = elim (find_action id s.actions) [ none ↦ none | some r ↦ some r.status ]

abbrev swept : Tables
swept = (transact (expire_stale_action_commands "" (11 * minute)) waiting_tables).0

swept_status : status_of "act" swept ≡ some failed
unfolding queue
swept_status = refl

abbrev claimed_run : CommandRow
claimed_run = record old_run { claimed_at = some (3 * minute) }

abbrev claimed_scan : CommandRow
claimed_scan = record scan_row { claimed_at = some (4 * minute) }

abbrev delivered : Tables
delivered = (transact (claim_commands "dev" 1 (3 * minute)) waiting_tables).0

first_claim : claim_commands "dev" 1 (3 * minute) waiting_tables ≡ done (claimed_run ∷ []) delivered
unfolding queue
first_claim = refl

abbrev delivered_twice : Tables
delivered_twice = (transact (claim_commands "dev" 1 (4 * minute)) delivered).0

second_claim :
    claim_commands "dev" 1 (4 * minute) delivered ≡ done (claimed_scan ∷ []) delivered_twice
unfolding queue
second_claim = refl

sweep_complete_example :
    (t : Tables) × (expire_stale_action_commands "" (11 * minute) waiting_tables ≡ done tt t)
    × Pairs Aged waiting_tables.commands t.commands
    × (count_where (is_undelivered "" (11 * minute)) t.commands ≡ 0)
    × (count_where (is_unanswered "" (11 * minute)) t.commands ≡ 0)
sweep_complete_example =
    sweep_complete "" (11 * minute) waiting_tables
      (unfold count_where is_undelivered on_device is_action_command in omega arith)
      (unfold count_where is_unanswered on_device is_action_command is_overdue in omega arith)

claimed_once_example :
    All (λ (c : CommandRow). contains c.id (ids (claimed_run ∷ [])) ≡ false) (claimed_scan ∷ [])
claimed_once_example =
    claimed_once "dev" "dev" 1 1 (3 * minute) (4 * minute) waiting_tables delivered delivered_twice
      (claimed_run ∷ []) (claimed_scan ∷ []) (omega arith) first_claim second_claim

abbrev new_scan : DeviceCommand
new_scan = record {
  id = "";
  device_id = "dev";
  type = scan;
  payload = scan_row.payload;
  created_at = 3 * minute;
}

abbrev scanning : Tables
scanning = (transact (enqueue_command new_scan "cmd_1") waiting_tables).0

scan_enqueued : enqueue_command new_scan "cmd_1" waiting_tables ≡ done tt scanning
unfolding queue lookup
scan_enqueued = refl

one_scan_left : count_where (is_pending_scan "dev") scanning.commands ≡ 1
one_scan_left =
    one_scan new_scan "cmd_1" waiting_tables scanning (unfold is_scan in refl) scan_enqueued

abbrev scan_calls : List Call
scan_calls = enqueue new_scan "cmd_1" ∷ enqueue (record new_scan { id = "cmd_2" }) "" ∷ []

claims_deliver_example :
    (out : List CommandRow) × (t : Tables) × (claim_commands "dev" 10
        (11 * minute)
        (perform_all scan_calls empty_tables)
      ≡ done out t)
    × (length out ≤ 20)
    × All (Delivered "dev" (11 * minute)) out
unfolding queue perform perform_all lookup
claims_deliver_example =
    claims_deliver scan_calls empty_tables "dev" 10 (11 * minute) refl (omega arith) (omega arith)
