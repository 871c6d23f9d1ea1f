-- ===== src/Actions/Transitions.antt =====
-- Execution, completion, rollback and confirmation of an action, and the expiry of confirmations
-- (internal/store/settings_actions_defense.go).
use Prim.Native.String.{len}
use witshield.Base.{
  ℕ, String, Bool, false, not, ◌&&◌, ◌||◌, Option, none, some, List, [], ◌∷◌, leb, ltb, ◌==◌,
  str_eq, if◌then◌else◌,
}
use witshield.Actions.Tables.{
  ActionStatus, approved, executing, awaiting_confirmation, confirming, succeeded, failed,
  rolling_back, rolled_back, cancelled, indeterminate, is_status, ActionRow, DeviceCommand,
}
use witshield.Actions.Statement.{
  Tx, conflict, pure, read, ◌>>=◌, ◌>>◌, require, insert_command, insert_audit, update_actions,
  is_some,
}
use witshield.Actions.Approval.{or_empty_object, ensure_unfinished_action_capacity_tx}

abbrev pub status_text : ActionStatus → String
status_text succeeded = "succeeded"
status_text rolled_back = "rolled_back"
status_text _ = "failed"

unfoldable pub is_action_in : String → ActionStatus → ActionRow → Bool
is_action_in id from r = str_eq r.id id && is_status r.status from

unfoldable pub moved : ActionStatus → String → ℕ → ActionRow → ActionRow
moved to error_text now r = record r { status = to; error = error_text; updated_at = now }

-- `transitionAction`
unfoldable pub transition_action :
    String → ActionStatus → ActionStatus → String → String → String → String → ℕ → Tx (Unit {0})
transition_action id from to actor event details error_text now = do
  n ← update_actions (is_action_in id from) (moved to error_text now)
  require (not (n == 0)) conflict
  insert_audit id actor event (or_empty_object details) now

-- `MarkActionExecuting`
unfoldable pub mark_action_executing : String → ℕ → Tx (Unit {0})
mark_action_executing id now =
    transition_action id approved executing "agent" "execution_started" "" "" now

unfoldable pub is_completable : String → ActionRow → Bool
is_completable id r =
    str_eq r.id id && (is_status r.status executing || is_status r.status approved)

-- `nullableJSON`
unfoldable pub nullable_json : String → Option String
nullable_json v = if len v == 0 then none else some v

unfoldable pub completed : ActionStatus → String → String → ℕ → ActionRow → ActionRow
unfolding nullable_json
completed status rollback error_text now r = record r {
  status = status;
  completed_at = some now;
  rollback_payload = nullable_json rollback;
  error = error_text;
  updated_at = now;
}

-- `CompleteAction`
unfoldable pub complete_action : String → Bool → String → String → String → ℕ → Tx (Unit {0})
complete_action id ok result rollback error_text now = do
  let status = if ok then succeeded else failed
  n ← update_actions (is_completable id) (completed status rollback error_text now)
  require (not (n == 0)) conflict
  insert_audit id "agent" (status_text status) (or_empty_object result) now

-- `RequestRollback`
unfoldable pub request_rollback : String → String → ℕ → Tx (Unit {0})
request_rollback id admin_id now =
    transition_action id succeeded rolling_back admin_id "rollback_requested" "" "" now

unfoldable pub is_revocable : String → ActionRow → Bool
is_revocable id r =
    str_eq r.id id
    && is_some r.rollback_payload
    && (is_status r.status succeeded
        || is_status r.status awaiting_confirmation
        || is_status r.status failed
        || is_status r.status indeterminate)

unfoldable pub set_status : ActionStatus → ℕ → ActionRow → ActionRow
set_status to now r = record r { status = to; updated_at = now }

-- `RequestRollbackAndEnqueue`
unfoldable pub request_rollback_and_enqueue : String → String → DeviceCommand → ℕ → Tx (Unit {0})
request_rollback_and_enqueue id admin_id cmd now = do
  ensure_unfinished_action_capacity_tx cmd.device_id
  n ← update_actions (is_revocable id) (set_status rolling_back now)
  require (not (n == 0)) conflict
  insert_command cmd
  insert_audit id admin_id "rollback_requested" "{}" now

-- The confirmation window of a row, if it has one, ends after the time.
unfoldable pub is_open : ℕ → Option ℕ → Bool
is_open now none = false
is_open now (some confirm_by) = ltb now confirm_by

unfoldable pub is_confirmable : String → ℕ → ActionRow → Bool
unfolding is_open
is_confirmable id now r =
    str_eq r.id id
    && is_status r.status awaiting_confirmation
    && is_some r.rollback_payload
    && is_open now r.confirm_by

-- `RequestConfirmationAndEnqueue`
unfoldable pub request_confirmation_and_enqueue :
    String → String → DeviceCommand → ℕ → Tx (Unit {0})
request_confirmation_and_enqueue id admin_id cmd now = do
  n ← update_actions (is_confirmable id now) (set_status confirming now)
  require (n == 1) conflict
  insert_command cmd
  insert_audit id admin_id "confirmation_requested" "{}" now

unfoldable pub is_over : ℕ → Option ℕ → Bool
is_over now none = false
is_over now (some confirm_by) = leb confirm_by now

-- SELECT of the ids whose confirmation is overdue.
unfoldable pub overdue : ℕ → List ActionRow → List String
unfolding is_over
overdue now [] = []
overdue now (r ∷ rest) =
    let ids = overdue now rest in
    if is_status r.status awaiting_confirmation && is_over now r.confirm_by then r.id ∷ ids else ids

unfoldable pub unconfirmed : ℕ → ActionRow → ActionRow
unconfirmed now r = record r {
  status = cancelled;
  completed_at = some now;
  error = "confirmation window expired; the helper safety rollback was triggered";
  updated_at = now;
}

-- One round of the loop of `ExpireActionConfirmations`.
unfoldable pub expire_confirmation : ℕ → String → Tx (Unit {0})
expire_confirmation now id = do
  n ← update_actions (is_action_in id awaiting_confirmation) (unconfirmed now)
  if n == 1
      then insert_audit id "controller" "confirmation_expired_safety_rollback_triggered" "{}" now
      else pure tt

unfoldable pub expire_each : ℕ → List String → Tx (Unit {0})
expire_each now [] = pure tt
expire_each now (id ∷ ids) = do expire_confirmation now id; expire_each now ids

-- `ExpireActionConfirmations`
unfoldable pub expire_action_confirmations : ℕ → Tx (Unit {0})
expire_action_confirmations now = do s ← read; expire_each now (overdue now s.actions)

-- `CompleteRollback`
unfoldable pub complete_rollback : String → Bool → String → String → ℕ → Tx (Unit {0})
complete_rollback id ok details error_text now =
    let status = if ok then rolled_back else failed in
    transition_action id rolling_back status "agent" (status_text status) details error_text now
