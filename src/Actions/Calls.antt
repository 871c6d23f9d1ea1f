-- ===== src/Actions/Calls.antt =====
-- Sequences of calls on the store of actions. Each call is a transaction; internal/store/store.go opens
-- the database with one connection, so the calls follow one another. Of the calls that write these
-- tables, the deletion of old rows by Compact (maintenance.go) is left out, the enrollment of a device
-- (auth_devices.go), which may switch its automatic bans off, and PutDefensePolicy, which nothing calls.
use witshield.Actions.Gate.{
  is_unstarted, mark_started, extend_ban, started_action, is_action_of, is_approved_action,
  begin_execution, begin_on, is_command_of, is_action_command, is_authorized, is_stale,
  start_unstarted, start_on, start_command, start_found, start_action_command,
}
use witshield.Actions.Expiry.{expire_stale_action_commands}
use witshield.Actions.Queue.{enqueue_command, claim_commands, complete_command}
use witshield.Actions.Transitions.{
  set_status, is_revocable, nullable_json, completed, is_completable, complete_rollback,
  expire_action_confirmations, request_confirmation_and_enqueue, request_rollback_and_enqueue,
  request_rollback, complete_action, mark_action_executing,
}
use witshield.Actions.Statement.{statements, transact}
use witshield.Actions.Tables.{is_pending_ban, is_finished, draft, CommandRow, DeviceCommand, Tables}
use witshield.Actions.Policy.{
  is_execute, is_pending_ban_of, called_off, dropped, is_open_command, is_grant, mode_of,
  bruteforce_grant, put_at, put_grant, lower, starts_like, is_waiting, waiting, cancel_queued,
  cancel_each, cancel_waiting, store_policy, put_defense_policy_and_cancel_queued,
  create_policy_action_and_enqueue_limited, insert_policy_action_and_enqueue, TemporaryBan,
}
use witshield.Actions.Approval.{
  found, action, mark_incident_responding_for_action_tx, approved_row, is_approvable, draft_row,
  is_unfinished_of, ensure_unfinished_action_capacity_tx, lapsed, is_stale_draft,
  expire_draft_actions_tx, create_identified, approve_action_and_enqueue, approve_action,
  expire_draft_actions, create_action, Action,
}
use witshield.Actions.Completion.{Completion, complete_command_and_action}
use witshield.Actions.Revocation.{revoke_open_commands}
use witshield.Actions.PlanDrafts.{PlanRequest, create_action_from_response_plan}
use witshield.Actions.PolicyGrants.{PolicyGrant, put_policy_grant}
use witshield.Base.{ℕ, String, Bool, ◌≡◌, List, [], ◌∷◌}
use witshield.Defense.Correlator.{DefensePolicy}

pub data Call : Type 0 where
  create : (x : Action) (nonce_hash actor fresh : String) → x.status ≡ draft → Call
  propose : (q : PlanRequest) → q.action.status ≡ draft → Call
  expire_drafts : ℕ → Call
  approve : (id nonce_hash admin_id : String) (now : ℕ) → Call
  approve_and_enqueue : (id nonce_hash admin_id : String) (cmd : DeviceCommand) (now : ℕ) → Call
  mark_executing : (id : String) (now : ℕ) → Call
  complete : (id : String) (ok : Bool) (result rollback error_text : String) (now : ℕ) → Call
  revoke : (id admin_id : String) (now : ℕ) → Call
  revoke_and_enqueue : (id admin_id : String) (cmd : DeviceCommand) (now : ℕ) → Call
  confirm_and_enqueue : (id admin_id : String) (cmd : DeviceCommand) (now : ℕ) → Call
  expire_confirmations : ℕ → Call
  end_revocation : (id : String) (ok : Bool) (details error_text : String) (now : ℕ) → Call
  policy_action :
      (x : Action) (cmd : DeviceCommand) (ban : TemporaryBan) (policy_actor : String) → Call
  limited_policy_action :
      (x : Action) (cmd : DeviceCommand) (ban : TemporaryBan) (policy_actor : String)
      (max_per_hour since : ℕ)
      → Call
  put_policy : (device_id : String) (p : DefensePolicy) (now : ℕ) → Call
  set_grant : PolicyGrant → Call
  start : (device_id command_id : String) (now : ℕ) → Call
  expire_commands : ℕ → Call
  enqueue : (cmd : DeviceCommand) (fresh : String) → Call
  claim : (device_id : String) (limit now : ℕ) → Call
  finish : (effect : CommandRow → Completion) (device_id command_id : String) (now : ℕ) → Call
  give_up : (device_id : String) (details : CommandRow → String) (now : ℕ) → Call
  answer : (device_id command_id result error_text : String) (now : ℕ) → Call

-- The tables after the transaction of the call.
unfoldable pub perform : Call → Tables → Tables
perform (create x nonce_hash actor fresh _) s =
    (transact (create_action x nonce_hash actor fresh) s).0
perform (propose q _) s = (transact (create_action_from_response_plan q) s).0
perform (expire_drafts now) s = (transact (expire_draft_actions now) s).0
perform (approve id nonce_hash admin_id now) s =
    (transact (approve_action id nonce_hash admin_id now) s).0
perform (approve_and_enqueue id nonce_hash admin_id cmd now) s =
    (transact (approve_action_and_enqueue id nonce_hash admin_id cmd now) s).0
perform (mark_executing id now) s = (transact (mark_action_executing id now) s).0
perform (complete id ok result rollback error_text now) s =
    (transact (complete_action id ok result rollback error_text now) s).0
perform (revoke id admin_id now) s = (transact (request_rollback id admin_id now) s).0
perform (revoke_and_enqueue id admin_id cmd now) s =
    (transact (request_rollback_and_enqueue id admin_id cmd now) s).0
perform (confirm_and_enqueue id admin_id cmd now) s =
    (transact (request_confirmation_and_enqueue id admin_id cmd now) s).0
perform (expire_confirmations now) s = (transact (expire_action_confirmations now) s).0
perform (end_revocation id ok details error_text now) s =
    (transact (complete_rollback id ok details error_text now) s).0
perform (policy_action x cmd ban policy_actor) s =
    (transact (insert_policy_action_and_enqueue x cmd ban policy_actor) s).0
perform (limited_policy_action x cmd ban policy_actor max_per_hour since) s =
    (transact (create_policy_action_and_enqueue_limited x cmd ban policy_actor max_per_hour since)
      s).0
perform (put_policy device_id p now) s =
    (transact (put_defense_policy_and_cancel_queued device_id p now) s).0
perform (set_grant g) s = (transact (put_policy_grant g) s).0
perform (start device_id command_id now) s =
    (transact (start_action_command device_id command_id now) s).0
perform (expire_commands now) s = (transact (expire_stale_action_commands "" now) s).0
perform (enqueue cmd fresh) s = (transact (enqueue_command cmd fresh) s).0
perform (claim device_id limit now) s = (transact (claim_commands device_id limit now) s).0
perform (finish effect device_id command_id now) s =
    (transact (complete_command_and_action effect device_id command_id now) s).0
perform (give_up device_id details now) s =
    (transact (revoke_open_commands device_id details now) s).0
perform (answer device_id command_id result error_text now) s =
    (transact (complete_command device_id command_id result error_text now) s).0

unfoldable pub perform_all : List Call → Tables → Tables
unfolding perform
perform_all [] s = s
perform_all (c ∷ calls) s = perform_all calls (perform c s)

-- Opens the calls and their statements, for a run at a concrete input.
unfoldable pub calls : Unit {0}
unfolding statements perform perform_all create_action create_identified expire_draft_actions_tx
    is_stale_draft lapsed ensure_unfinished_action_capacity_tx is_unfinished_of is_finished
    draft_row approve_action approve_action_and_enqueue is_approvable approved_row
    mark_incident_responding_for_action_tx action found start_action_command start_found
    start_command start_on start_unstarted is_stale is_authorized is_action_command is_command_of
    begin_on begin_execution is_approved_action is_action_of started_action extend_ban mark_started
    is_unstarted complete_action is_completable completed nullable_json request_rollback_and_enqueue
    is_revocable set_status put_defense_policy_and_cancel_queued store_policy cancel_waiting
    cancel_each cancel_queued waiting is_waiting starts_like lower put_grant put_at bruteforce_grant
    mode_of is_grant is_open_command dropped called_off is_pending_ban_of is_pending_ban is_execute
calls = tt
