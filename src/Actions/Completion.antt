-- ===== src/Actions/Completion.antt =====
-- What a completed command writes (`CompleteCommandAndActionWithOutcome` of
-- internal/store/action_results.go), once its result is judged, but for the notification and the response
-- plan.
use witshield.Base.{
  ℕ, ◌+◌, ◌*◌, String, Bool, false, not, ◌&&◌, ◌||◌, Option, none, some, ltb, ◌==◌, str_eq,
  if◌then◌else◌,
}
use witshield.Actions.Tables.{
  ActionStatus, ActionRow, CommandRow, DeviceCommand, BanRow, BanStatus, executing,
  awaiting_confirmation, confirming, succeeded, failed, rolling_back, rolled_back, indeterminate,
  is_status, is_pending_ban, is_in_force, execute_action, rollback_action, confirm_action, scan,
}
use witshield.Actions.Statement.{
  Tx, not_found, conflict, invalid, pure, fail, read, ◌>>=◌, ◌>>◌, require, first_where,
  insert_audit, insert_command, update_actions, update_commands, update_bans, is_some, is_none,
}
use witshield.Actions.Policy.{is_pending_ban_of}
use witshield.Actions.Gate.{is_command_of, is_action_command}
use witshield.Actions.Transitions.{nullable_json}
use witshield.Actions.Judgement.{Judgement}

-- The effective result of a command, with the texts and the new identifier that the writes need.
pub record Completion : Type 0 where
  pub judged : Judgement
  pub confirm_by : Option ℕ
  -- the stored result, and the details of the audit
  pub stored : String
  pub details : String
  -- the rollback command of a resumed suspension
  pub resume : DeviceCommand
  pub resume_details : String
  pub warning : String
  pub ban_warning : String

unfoldable pub finished : Completion → ℕ → CommandRow → CommandRow
finished x now c = record c {
  completed_at = some now;
  result = x.stored;
  error = x.judged.error_text;
}

abbrev pub outcome_text : ActionStatus → String
outcome_text succeeded = "succeeded"
outcome_text rolled_back = "rolled_back"
outcome_text rolling_back = "rolling_back"
outcome_text awaiting_confirmation = "awaiting_confirmation"
outcome_text indeterminate = "indeterminate"
outcome_text _ = "failed"

unfoldable pub is_own : String → String → ActionStatus → ActionRow → Bool
is_own action_id device_id status r =
    str_eq r.id action_id && str_eq r.device_id device_id && is_status r.status status

-- The status of a result, where a success leads to `good`.
unfoldable pub result_status : Judgement → ActionStatus → ActionStatus
result_status j good = if j.indeterminate then indeterminate else if j.ok then good else failed

unfoldable pub awaits : Completion → Bool
awaits x = not x.judged.legacy_process_resume && x.judged.ok && is_some x.confirm_by

unfoldable pub executed_status : Completion → ActionStatus
unfolding result_status awaits
executed_status x =
    if x.judged.legacy_process_resume
    then rolling_back
    else if awaits x
    then awaiting_confirmation
    else result_status x.judged succeeded

unfoldable pub executed : Completion → ℕ → ActionRow → ActionRow
unfolding executed_status
executed x now r = record r {
  status = executed_status x;
  executed_at = elim r.executed_at [ some t ↦ some t | none ↦ some now ];
  completed_at = if x.judged.legacy_process_resume || awaits x then none else some now;
  rollback_payload = nullable_json x.judged.rollback;
  confirm_by = if awaits x then x.confirm_by else none;
  error = x.judged.error_text;
  updated_at = now;
}

unfoldable pub ended : ActionStatus → String → ℕ → ActionRow → ActionRow
ended status error_text now r = record r {
  status = status;
  completed_at = some now;
  error = error_text;
  updated_at = now;
}

-- The ban of an execution that may have taken effect lasts from its start.
unfoldable pub settle_ban_by : Option ℕ → Option ℕ → Judgement → String → ℕ → Tx Bool
settle_ban_by (some started) (some ttl) j action_id now = do
  let expires_at = started + ttl * 1000000000
  let late = not (ltb now expires_at)
  update_bans (is_pending_ban_of action_id) (λ b. record b {
    status = if late || j.indeterminate then BanStatus.indeterminate else BanStatus.active;
    expires_at = expires_at;
  })
  pure late
settle_ban_by _ _ j action_id now = fail (invalid "temporary ban action parameters are invalid")

-- The result is whether it is uncertain that the ban still stands.
unfoldable pub settle_ban : CommandRow → Judgement → ℕ → Tx Bool
unfolding settle_ban_by
settle_ban c j now =
    if (j.ok || j.indeterminate) && str_eq c.payload.type "temporary_ip_ban"
    then settle_ban_by c.started_at c.payload.ttl_seconds j c.payload.action_id now
    else do
      update_bans (is_pending_ban_of c.payload.action_id) (λ b. record b {
        status =
            if j.indeterminate
            then BanStatus.indeterminate
            else if j.ok
            then BanStatus.active
            else BanStatus.failed;
      })
      pure false

unfoldable pub resume_process : Completion → String → ℕ → Tx (Unit {0})
resume_process x action_id now = do
  insert_command x.resume
  insert_audit action_id "controller" "legacy_process_resume_queued" x.resume_details now

unfoldable pub queue_resume : Completion → String → ℕ → Tx (Unit {0})
unfolding resume_process
queue_resume x action_id now =
    if x.judged.legacy_process_resume then resume_process x action_id now else pure tt

unfoldable pub end_execution : Completion → CommandRow → ℕ → Tx Bool
unfolding executed queue_resume settle_ban
end_execution x c now = do
  n ← update_actions (is_own c.payload.action_id c.device_id executing) (executed x now)
  require (n == 1) conflict
  queue_resume x c.payload.action_id now
  late ← settle_ban c x.judged now
  insert_audit c.payload.action_id "agent" (outcome_text (executed_status x)) x.details now
  pure late

unfoldable pub is_forceful_ban_of : String → BanRow → Bool
is_forceful_ban_of action_id b = str_eq b.action_id action_id && is_in_force b.status

unfoldable pub is_unsettled_ban_of : String → BanRow → Bool
is_unsettled_ban_of action_id b =
    str_eq b.action_id action_id && (is_pending_ban b.status || is_in_force b.status)

unfoldable pub end_rollback : Completion → CommandRow → ℕ → Tx Bool
unfolding ended result_status
end_rollback x c now = do
  let status = result_status x.judged rolled_back
  n ←
      update_actions (is_own c.payload.action_id c.device_id rolling_back)
        (ended status x.judged.error_text now)
  require (n == 1) conflict
  update_bans (λ b. x.judged.ok && is_forceful_ban_of c.payload.action_id b)
      (λ b. record b { status = BanStatus.rolled_back })
  update_bans
      (λ b. not x.judged.ok && x.judged.indeterminate && is_unsettled_ban_of c.payload.action_id b)
      (λ b. record b { status = BanStatus.indeterminate })
  insert_audit c.payload.action_id "agent" (outcome_text status) x.details now
  pure false

unfoldable pub end_confirmation : Completion → CommandRow → ℕ → Tx Bool
unfolding ended result_status
end_confirmation x c now = do
  n ←
      update_actions (is_own c.payload.action_id c.device_id confirming)
        (ended (result_status x.judged succeeded) x.judged.error_text now)
  require (n == 1) conflict
  insert_audit c.payload.action_id "agent"
      (if x.judged.ok then "confirmed" else "confirmation_failed") x.details now
  pure false

unfoldable pub warn : Bool → String → String → String → ℕ → Tx (Unit {0})
warn b action_id event details now =
    if b then insert_audit action_id "controller" event details now else pure tt

unfoldable pub end_action : Completion → CommandRow → ℕ → Tx (Unit {0})
unfolding warn
end_action x c now = do
  late ← elim c.type [
    | execute_action ↦ end_execution x c now
    | rollback_action ↦ end_rollback x c now
    | confirm_action ↦ end_confirmation x c now
    | scan ↦ pure false
  ]
  warn x.judged.trusted_successful_receipt c.payload.action_id "helper_receipt_persistence_warning"
      x.warning now
  warn late c.payload.action_id "temporary_ban_expiry_indeterminate" x.ban_warning now

unfoldable pub is_open_of : String → String → CommandRow → Bool
unfolding is_command_of
is_open_of command_id device_id c = is_command_of command_id device_id c && is_none c.completed_at

unfoldable pub finish_command : Completion → CommandRow → ℕ → Tx (Unit {0})
unfolding finished end_action
finish_command x c now = do
  _ ← update_commands (is_open_of c.id c.device_id) (finished x now)
  if is_action_command c.type then end_action x c now else pure tt

unfoldable pub complete_open : Completion → CommandRow → ℕ → Tx (Unit {0})
unfolding finish_command
complete_open x c now = do
  require (not (is_action_command c.type && str_eq c.payload.action_id ""))
      (invalid "action command payload is invalid")
  require (not (is_action_command c.type && is_none c.started_at)) conflict
  finish_command x c now

-- A command that is completed already is not written again; what it is answered, and the digest that
-- it may get, are left out.
unfoldable pub complete_found : (CommandRow → Completion) → Option CommandRow → ℕ → Tx (Unit {0})
unfolding complete_open
complete_found effect none now = fail not_found
complete_found effect (some c) now =
    if is_some c.completed_at then pure tt else complete_open (effect c) c now

-- `effect` is what the command's row and the submission lead to, by `judge`.
unfoldable pub complete_command_and_action :
    (CommandRow → Completion) → String → String → ℕ → Tx (Unit {0})
unfolding complete_found
complete_command_and_action effect device_id command_id now = do
  s ← read
  complete_found effect (first_where (is_command_of command_id device_id) s.commands) now
