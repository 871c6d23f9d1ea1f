-- ===== src/Actions/Expiry.antt =====
-- The expiry of action commands: `ExpireStaleActionCommands` of internal/store/reports_commands.go.
pub mod Select
pub mod Aged
pub mod Rounds
pub mod Ended
pub mod Sweep
use Prim.Native.String.{len, ◌++◌ as cat}
use witshield.Base.{
  ℕ, zero, suc, ◌+◌, ◌*◌, String, Bool, not, false, ◌&&◌, ◌||◌, Option, none, some, List, [], ◌∷◌,
  leb, ltb, ◌==◌, str_eq, if◌then◌else◌,
}
use witshield.Actions.Tables.{
  ActionStatus, approved, executing, awaiting_confirmation, confirming, failed, rolling_back,
  indeterminate, is_status, ActionRow, CommandRow, CommandType, scan, execute_action,
  rollback_action, confirm_action, BanRow, BanStatus, is_pending_ban, is_in_force,
}
use witshield.Actions.Statement.{
  Tx, pure, read, ◌>>=◌, ◌>>◌, insert_audit, update_actions, update_commands, update_bans, is_none,
}
use witshield.Actions.Approval.{minute}
use witshield.Actions.Policy.{is_open_command, dropped, is_pending_ban_of}
use witshield.Actions.Gate.{is_action_command, is_action_of, action_command_ttl}
use witshield.Actions.Details.{json_string}

-- `domain.ActionExecutionTimeout`
abbrev pub action_execution_timeout : ℕ
action_execution_timeout = 120 * minute

-- No device means all devices.
unfoldable pub on_device : String → CommandRow → Bool
on_device device_id c = str_eq device_id "" || str_eq c.device_id device_id

-- An open action command that has not started and is past its lifetime.
unfoldable pub is_undelivered : String → ℕ → CommandRow → Bool
unfolding on_device
is_undelivered device_id now c =
    is_none c.completed_at
    && is_none c.started_at
    && is_action_command c.type
    && ltb (c.created_at + action_command_ttl) now
    && on_device device_id c

unfoldable pub is_overdue : ℕ → Option ℕ → Bool
is_overdue now none = false
is_overdue now (some started_at) = ltb (started_at + action_execution_timeout) now

-- An open action command that started and whose result is overdue.
unfoldable pub is_unanswered : String → ℕ → CommandRow → Bool
unfolding on_device is_overdue
is_unanswered device_id now c =
    is_none c.completed_at
    && is_action_command c.type
    && is_overdue now c.started_at
    && on_device device_id c

abbrev pub start_time : CommandRow → ℕ
start_time c = elim c.started_at [ none ↦ 0 | some t ↦ t ]

module _ {ℓ} {A : Type ℓ} where
  -- SELECT … WHERE
  unfoldable pub select_where : (A → Bool) → List A → List A
  select_where p [] = []
  select_where p (x ∷ xs) = let rest = select_where p xs in if p x then x ∷ rest else rest

  -- LIMIT
  unfoldable pub limit_to : ℕ → List A → List A
  limit_to zero xs = []
  limit_to (suc n) [] = []
  limit_to (suc n) (x ∷ xs) = x ∷ limit_to n xs

  -- ORDER BY: rows of one key stay in the order of the table.
  unfoldable pub insert_row : (A → ℕ) → A → List A → List A
  insert_row key x [] = x ∷ []
  insert_row key x (y ∷ ys) =
      let rest = insert_row key x ys in if leb (key x) (key y) then x ∷ y ∷ ys else y ∷ rest

  unfoldable pub order_by : (A → ℕ) → List A → List A
  unfolding insert_row
  order_by key [] = []
  order_by key (x ∷ xs) = insert_row key x (order_by key xs)

  -- One statement after the other, for each row.
  unfoldable pub for_each : (A → Tx (Unit {0})) → List A → Tx (Unit {0})
  for_each f [] = pure tt
  for_each f (x ∷ xs) = do f x; for_each f xs

abbrev pub undelivered_message : String
undelivered_message = "action approval expired before device delivery"

abbrev pub unanswered_message : String
unanswered_message =
    "privileged execution result was not received before the safety timeout; remote state is unknown and requires manual verification"

-- An action whose command was not delivered in time.
unfoldable pub is_abandoned : CommandRow → ActionRow → Bool
unfolding is_action_of
is_abandoned c r =
    is_action_of c.payload.action_id c.device_id r
    && (is_status r.status approved
        || is_status r.status executing
        || is_status r.status rolling_back
        || is_status r.status awaiting_confirmation
        || is_status r.status confirming)

-- An action whose command may have run.
unfoldable pub is_lost : CommandRow → ActionRow → Bool
unfolding is_action_of
is_lost c r =
    is_action_of c.payload.action_id c.device_id r
    && (is_status r.status executing
        || is_status r.status rolling_back
        || is_status r.status confirming)

unfoldable pub ended : ActionStatus → String → ℕ → ActionRow → ActionRow
ended to message now r = record r {
  status = to;
  completed_at = some now;
  error = message;
  updated_at = now;
}

abbrev pub failed_ban : BanRow → BanRow
failed_ban b = record b { status = BanStatus.failed }

unfoldable pub is_uncertain_ban_of : String → BanRow → Bool
is_uncertain_ban_of action_id b =
    str_eq b.action_id action_id && (is_pending_ban b.status || is_in_force b.status)

abbrev pub uncertain_ban : BanRow → BanRow
uncertain_ban b = record b { status = BanStatus.indeterminate }

abbrev pub type_text : CommandType → String
type_text scan = "scan"
type_text execute_action = "execute_action"
type_text rollback_action = "rollback_action"
type_text confirm_action = "confirm_action"

-- The entries of the audit as JSON.
unfoldable pub command_details : CommandRow → String → String
unfolding json_string
command_details c rest =
    cat "{\"commandId\":"
      (cat (json_string c.id) (cat ",\"commandType\":\"" (cat (type_text c.type) (cat "\"," rest))))

unfoldable pub undelivered_details : CommandRow → String
unfolding command_details
undelivered_details c = command_details c "\"ttl\":\"10m0s\"}"

unfoldable pub unanswered_details : CommandRow → String
unfolding command_details
unanswered_details c =
    command_details c "\"manualVerificationRequired\":true,\"timeout\":\"2h0m0s\"}"

-- What follows for the action of a command that was not delivered in time.
unfoldable pub fail_action : ℕ → CommandRow → Tx (Unit {0})
fail_action now c = do
  n ← update_actions (is_abandoned c) (ended failed undelivered_message now)
  if not (n == 1) then pure tt else do
    update_bans (is_pending_ban_of c.payload.action_id) failed_ban
    insert_audit c.payload.action_id "controller" "expired_before_delivery" (undelivered_details c)
        now

-- One round of the first loop of `expireStaleActionCommands`; a payload without an action ends it.
unfoldable pub expire_undelivered : ℕ → CommandRow → Tx (Unit {0})
expire_undelivered now c = do
  _ ← update_commands (is_open_command c.id) (dropped undelivered_message now)
  if len c.payload.action_id == 0 then pure tt else fail_action now c

unfoldable pub lost_command : ℕ → CommandRow → CommandRow
lost_command now c = record c {
  completed_at = some now;
  result = "{\"ok\":false,\"indeterminate\":true}";
  error = unanswered_message;
}

-- What follows for the action of a command whose result is overdue.
unfoldable pub lose_action : ℕ → CommandRow → Tx (Unit {0})
lose_action now c = do
  n ← update_actions (is_lost c) (ended indeterminate unanswered_message now)
  if not (n == 1) then pure tt else do
    update_bans (is_uncertain_ban_of c.payload.action_id) uncertain_ban
    insert_audit c.payload.action_id "controller" "execution_result_indeterminate"
        (unanswered_details c) now

-- One round of the second loop.
unfoldable pub expire_unanswered : ℕ → CommandRow → Tx (Unit {0})
expire_unanswered now c = do
  _ ← update_commands (is_open_command c.id) (lost_command now)
  if len c.payload.action_id == 0 then pure tt else lose_action now c

-- `expireStaleActionCommands`
unfoldable pub expire_stale_action_commands : String → ℕ → Tx (Unit {0})
expire_stale_action_commands device_id now = do
  s ← read
  for_each (expire_undelivered now) (
      limit_to 500
        (order_by (λ c. c.created_at) (select_where (is_undelivered device_id now) s.commands)))
  t ← read
  for_each (expire_unanswered now)
      (limit_to 500 (order_by start_time (select_where (is_unanswered device_id now) t.commands)))
