-- ===== src/Actions/Examples.antt =====
-- Tests of the store of actions, and its theorems at concrete inputs.
use witshield.Actions.Stop.Race.{stop_holds}
use witshield.Actions.Lifecycle.Approved.{calls-Approved}
use witshield.Actions.Lifecycle.ApprovedOnce.{approve_once, WasDraft}
use witshield.Actions.Stop.{Waits}
use witshield.Defense.Correlator.{default_policy, DefensePolicy}
use witshield.Base.Dict.{insert, lookup}
use witshield.Actions.Gate.{is_command_of, start_action_command}
use witshield.Base.{inl, ◌≢◌, ℕ, String, true, false, ◌≡◌, refl, Option, none, some, List, [], ◌∷◌}
use witshield.Actions.Tables.{
  awaiting_confirmation, indeterminate, cancelled, approved, CommandRow, ActionRow, ActionStatus,
  draft, rolling_back, DeviceCommand, CommandType, execute_action, rollback_action, Tables,
}
use witshield.Actions.Statement.{conflict, fault, done, is_some, first_where, transact, find_action}
use witshield.Actions.Approval.{has_incident, approve_action_and_enqueue, approve_action, Action}
use witshield.Actions.Policy.{put_defense_policy_and_cancel_queued, is_execute}
use witshield.Actions.PolicyGrants.{PolicyGrant}
use witshield.Actions.PlanDrafts.{
  PlanRequest, create_action_from_response_plan, prepare_step, release_previous, matches_step,
  is_recent_action, insert_plan_action, mark_prepared, store_draft, found_step, prepare_of,
  assign_step,
}
use witshield.Actions.Completion.{
  Completion, complete_command_and_action, end_execution, end_action, executed, result_status,
  is_own, warn, is_open_of, ended,
}
use witshield.Actions.Revocation.{
  revoke_open_commands, revoke_each, revoke_command, revoke_action, is_revoked_action, is_given_up,
}
use witshield.Actions.Calls.{
  propose, finish, give_up, set_grant, calls, expire_drafts, put_policy, revoke_and_enqueue,
  complete, start, approve_and_enqueue, create, Call, perform_all,
}

abbrev pub empty_tables : Tables
empty_tables = record {
  devices = ("dev", false) ∷ [];
  actions = [];
  commands = [];
  audit = [];
  bans = [];
  policies = [];
  grants = [];
  plan_actions = [];
  plans = [];
  incidents = [];
  timeline = [];
}

abbrev repair : Action
repair = record {
  id = "act";
  device_id = "dev";
  finding_id = "";
  type = "file_permission_repair";
  parameters = "{}";
  preview = "";
  status = draft;
  approved_at = none;
  created_at = 5;
  updated_at = 5;
}

abbrev repair_command : CommandType → String → DeviceCommand
repair_command type id = record {
  id = id;
  device_id = "dev";
  type = type;
  payload = record {
    action_id = "act";
    policy_authorized = false;
    type = "file_permission_repair";
    parameters = "{}";
    ttl_seconds = none;
  };
  created_at = 9;
}

-- A repair is proposed, approved, executed, and taken back.
abbrev repair_calls : List Call
repair_calls =
    create repair "hash" "admin" "" refl
    ∷ approve_and_enqueue "act" "hash" "admin" (repair_command execute_action "run") 9
    ∷ start "dev" "run" 11
    ∷ complete "act" true "{}" "state" "" 20
    ∷ revoke_and_enqueue "act" "admin" (repair_command rollback_action "undo") 30
    ∷ []

abbrev status_of : String → Tables → Option ActionStatus
status_of id s = elim (find_action id s.actions) [ none ↦ none | some r ↦ some r.status ]

repair_status : status_of "act" (perform_all repair_calls empty_tables) ≡ some rolling_back
unfolding calls lookup
repair_status = refl

abbrev pub draft_repair : ActionRow
draft_repair = record {
  id = "act";
  device_id = "dev";
  finding_id = "";
  type = "file_permission_repair";
  parameters = "{}";
  preview = "{}";
  status = draft;
  approval_nonce_hash = "hash";
  approved_by = "";
  approved_at = none;
  executed_at = none;
  completed_at = none;
  rollback_payload = none;
  confirm_by = none;
  error = "";
  created_at = 5;
  updated_at = 5;
}

abbrev drafted : Tables
drafted = record empty_tables { actions = draft_repair ∷ [] }

-- A step of a response plan becomes the draft of an action.
abbrev planned : Tables
planned = record empty_tables {
  plans =
      record {
        id = "plan";
        incident_id = "incident";
        status = "proposed";
        steps =
            record {
              id = "step";
              action_type = "file_permission_repair";
              parameters = "{}";
              action_id = "";
            }
            ∷ [];
        updated_at = 1;
      }
      ∷ [];
  incidents = record { id = "incident"; device_id = "dev"; status = "open"; updated_at = 1 } ∷ [];
}

abbrev plan_request : PlanRequest
plan_request = record {
  plan_id = "plan";
  step_id = "step";
  action = record repair { parameters = "{}"; preview = "{}" };
  nonce_hash = "hash";
  actor = "admin";
  max_actions_per_hour = 5;
  preview_details = "{}";
}

planned_status : status_of "act" (perform_all (propose plan_request refl ∷ []) planned) ≡ some draft
unfolding calls lookup create_action_from_response_plan prepare_step release_previous matches_step
    is_recent_action insert_plan_action mark_prepared store_draft found_step prepare_of assign_step
    has_incident
planned_status = refl

abbrev to_be_confirmed : Completion
to_be_confirmed = record {
  judged = record {
    ok = true;
    error_text = "";
    indeterminate = false;
    legacy_process_resume = false;
    trusted_successful_receipt = false;
    rollback = "state";
  };
  confirm_by = some 100;
  stored = "{\"ok\":true}";
  details = "{}";
  resume = repair_command rollback_action "resume";
  resume_details = "{}";
  warning = "{}";
  ban_warning = "{}";
}

abbrev approval_calls : List Call
approval_calls =
    approve_and_enqueue "act" "hash" "admin" (repair_command execute_action "run") 9
    ∷ start "dev" "run" 11
    ∷ finish (λ c. to_be_confirmed) "dev" "run" 20
    ∷ give_up "dev" (λ c. "{}") 30
    ∷ []

-- The success of the run asks for a confirmation.
awaiting_status : status_of "act" (perform_all approval_calls drafted) ≡ some awaiting_confirmation
unfolding calls lookup complete_command_and_action end_execution end_action executed result_status
    revoke_open_commands is_own warn is_open_of
awaiting_status = refl

-- The device is revoked while the run is under way.
lost_status :
    status_of "act" (
      perform_all
        (approve_and_enqueue "act" "hash" "admin" (repair_command execute_action "run") 9
          ∷ start "dev" "run" 11
          ∷ give_up "dev" (λ c. "{}") 30
          ∷ [])
        drafted)
    ≡ some indeterminate
unfolding calls lookup revoke_open_commands revoke_each revoke_command revoke_action
    is_revoked_action is_given_up ended
lost_status = refl

abbrev revoked_repair : ActionRow
revoked_repair = record draft_repair {
  status = rolling_back;
  approved_by = "admin";
  approved_at = some 9;
  executed_at = some 11;
  completed_at = some 20;
  rollback_payload = some "state";
  updated_at = 30;
}

repair_row : find_action "act" (perform_all repair_calls empty_tables).actions ≡ some revoked_repair
unfolding calls lookup
repair_row = refl

calls-Approved_example : is_some revoked_repair.approved_at ≡ true
calls-Approved_example =
    calls-Approved repair_calls empty_tables "act" revoked_repair refl repair_row (λ e. cc)
      (λ e. cc)

abbrev approve_enqueued : Tables
approve_enqueued =
    (transact
      (approve_action_and_enqueue "act" "hash" "admin" (repair_command execute_action "run") 9)
      drafted).0

drafted_enqueue :
    approve_action_and_enqueue "act" "hash" "admin" (repair_command execute_action "run") 9 drafted
    ≡ done
        (record draft_repair {
          status = approved;
          approved_by = "admin";
          approved_at = some 9;
          updated_at = 9;
        })
        approve_enqueued
unfolding calls lookup
drafted_enqueue = refl

approve_once_example :
    WasDraft "act" "hash" 9 drafted
    × ((nonce' admin' : String) (cmd' : DeviceCommand) (now' : ℕ)
        → (approve_action_and_enqueue "act" nonce' admin' cmd' now'
              (perform_all (expire_drafts 40 ∷ []) approve_enqueued)
            ≡ fault conflict)
          × (approve_action "act" nonce' admin' now'
                (perform_all (expire_drafts 40 ∷ []) approve_enqueued)
              ≡ fault conflict))
approve_once_example =
    approve_once "act" "hash" "admin" (repair_command execute_action "run") 9 drafted
      approve_enqueued _ (expire_drafts 40 ∷ []) (unfold find_action first_where in (refl, tt))
      (inl drafted_enqueue)

-- A ban that a policy queued, before an emergency stop.
abbrev ban_action : ActionRow
ban_action = record draft_repair {
  id = "ban";
  type = "temporary_ip_ban";
  status = approved;
  approval_nonce_hash = "";
  approved_by = "policy:ssh_bruteforce";
  approved_at = some 5;
}

abbrev ban_command : CommandRow
ban_command = record {
  id = "run";
  device_id = "dev";
  type = execute_action;
  payload = record {
    action_id = "ban";
    policy_authorized = true;
    type = "temporary_ip_ban";
    parameters = "{}";
    ttl_seconds = some 900;
  };
  created_at = 5;
  claimed_at = none;
  started_at = none;
  completed_at = none;
  result = "";
  error = "";
}

abbrev banning : Tables
banning = record empty_tables { actions = ban_action ∷ []; commands = ban_command ∷ [] }

abbrev stop_policy : DefensePolicy
stop_policy = record default_policy { enabled = true; emergency_stop = true; auto_ban = true }

abbrev stopped : Tables
stopped = (transact (put_defense_policy_and_cancel_queued "dev" stop_policy 8) banning).0

stop_done : put_defense_policy_and_cancel_queued "dev" stop_policy 8 banning ≡ done 1 stopped
unfolding calls insert lookup
stop_done = refl

stopped_status : status_of "ban" stopped ≡ some cancelled
unfolding calls insert lookup
stopped_status = refl

abbrev stopped_grant : PolicyGrant
stopped_grant = record {
  device_id = "dev";
  capability = "workload.runtime";
  enabled = true;
  mode = "enhanced";
  allowed_action_types = "temporary_process_suspend" ∷ [];
  max_actions_per_hour = 5;
  emergency_stop = true;
  updated_at = 10;
}

abbrev late_calls : List Call
late_calls = start "dev" "run" 9 ∷ set_grant stopped_grant ∷ put_policy "dev" stop_policy 12 ∷ []

stop_holds_example :
    Waits "dev" "run" (perform_all late_calls stopped).commands
    × ((now' : ℕ) (u : Tables)
        → start_action_command "dev" "run" now' (perform_all late_calls stopped) ≢ done true u)
stop_holds_example =
    stop_holds "dev" "run" stop_policy 8 banning stopped 1 late_calls stop_done refl
      (
        ban_command,
        unfold first_where is_command_of in refl,
        (refl, unfold is_execute in refl, refl),
      )
      (tt, ((λ _. refl), ((λ _. refl), tt)))
