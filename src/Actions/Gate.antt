-- ===== src/Actions/Gate.antt =====
-- The last authorization before a command runs: `StartActionCommand` of internal/store/action_results.go.
use Prim.Native.String.{len}
use witshield.Base.{
  ℕ, ◌+◌, ◌*◌, String, Bool, true, false, not, ◌&&◌, ◌||◌, Option, none, some, List, [], ◌∷◌, ltb,
  ◌==◌, str_eq, if◌then◌else◌,
}
use witshield.Base.Dict.{lookup}
use witshield.Actions.Tables.{
  ActionStatus, approved, executing, confirming, rolling_back, is_status, ActionRow, CommandRow,
  CommandType, scan, execute_action, rollback_action, confirm_action, BanRow, is_enhanced, Tables,
}
use witshield.Actions.Statement.{
  Tx, not_found, conflict, no_rows, invalid, pure, fail, read, ◌>>=◌, ◌>>◌, require, first_where,
  insert_audit, update_actions, update_commands, update_bans, is_some, is_none,
}
use witshield.Actions.Approval.{minute}
use witshield.Actions.Policy.{
  is_execute, is_grant, is_open_command, dropped, called_off, is_pending_ban_of, cancelled_ban,
}

-- `domain.ActionCommandTTL`
abbrev pub action_command_ttl : ℕ
action_command_ttl = 10 * minute

unfoldable pub is_command_of : String → String → CommandRow → Bool
is_command_of command_id device_id c = str_eq c.id command_id && str_eq c.device_id device_id

unfoldable pub is_action_command : CommandType → Bool
is_action_command scan = false
is_action_command _ = true

unfoldable pub is_action_of : String → String → ActionRow → Bool
is_action_of action_id device_id r = str_eq r.id action_id && str_eq r.device_id device_id

-- An action that waits for one of its commands.
unfoldable pub is_requested : ActionStatus → Bool
is_requested status =
    is_status status approved || is_status status rolling_back || is_status status confirming

-- The command is dropped, its action called off where it satisfies the condition, and its ban.
unfoldable pub call_off : CommandRow → (ActionRow → Bool) → Bool → String → String → ℕ → Tx Bool
call_off c calls_off with_ban message event now = do
  _ ← update_commands (is_open_command c.id) (dropped message now)
  _ ← update_actions calls_off (called_off message now)
  update_bans (λ b. with_ban && is_pending_ban_of c.payload.action_id b) cancelled_ban
  insert_audit c.payload.action_id "controller" event "{}" now
  pure false

unfoldable pub is_requested_action : CommandRow → ActionRow → Bool
unfolding is_action_of is_requested
is_requested_action c r = is_action_of c.payload.action_id c.device_id r && is_requested r.status

unfoldable pub is_approved_action : CommandRow → ActionRow → Bool
unfolding is_action_of
is_approved_action c r =
    is_action_of c.payload.action_id c.device_id r && is_status r.status approved

unfoldable pub is_stale : CommandRow → ℕ → Bool
is_stale c now = ltb (now + 5 * minute) c.created_at || ltb (c.created_at + action_command_ttl) now

-- Automatic bans are on for the device.
unfoldable pub bans_allowed : String → Tables → Bool
bans_allowed device_id s = elim (lookup device_id s.policies) [
  | none ↦ false
  | some p ↦ p.enabled && not p.emergency_stop && p.auto_ban
]

unfoldable pub capability_of : String → Option String
capability_of type =
    if str_eq type "temporary_process_suspend" then some "workload.runtime" else none

unfoldable pub contains : String → List String → Bool
contains name [] = false
contains name (x ∷ xs) = str_eq x name || contains name xs

-- The grant of the capability that the type belongs to allows it.
unfoldable pub is_granted : String → String → Tables → Bool
unfolding capability_of contains is_grant
is_granted device_id type s = elim (capability_of type) [
  | none ↦ false
  | some capability ↦ elim (first_where (is_grant device_id capability) s.grants) [
    | none ↦ false
    | some g ↦
        g.enabled
        && not g.emergency_stop
        && is_enhanced g.mode
        && contains type g.allowed_action_types
  ]
]

-- The policy that authorized the command still does; an administrator's command needs none.
unfoldable pub is_authorized : CommandRow → Tables → Bool
unfolding bans_allowed is_granted
is_authorized c s =
    if is_execute c.type && c.payload.policy_authorized
    then if str_eq c.payload.type "temporary_ip_ban"
      then bans_allowed c.device_id s
      else is_granted c.device_id c.payload.type s
    else true

abbrev pub revoked_message : String → String
revoked_message type =
    if str_eq type "temporary_ip_ban"
    then "automatic defense command cancelled before execution"
    else "pre-authorized action cancelled because its policy grant is no longer active"

unfoldable pub started_action : ℕ → ActionRow → ActionRow
started_action now r = record r {
  status = executing;
  executed_at = elim r.executed_at [ some t ↦ some t | none ↦ some now ];
  updated_at = now;
}

unfoldable pub in_status : CommandRow → ActionStatus → Tables → Bool
unfolding is_action_of
in_status c status s = elim (first_where (is_action_of c.payload.action_id c.device_id) s.actions) [
  | none ↦ false
  | some r ↦ is_status r.status status
]

unfoldable pub extended : ℕ → BanRow → BanRow
extended horizon b = record b {
  expires_at = if ltb b.expires_at horizon then horizon else b.expires_at;
}

unfoldable pub extend_by : Option ℕ → String → ℕ → Tx (Unit {0})
extend_by none action_id now = fail (invalid "temporary ban action parameters are invalid")
extend_by (some ttl) action_id now =
    update_bans (is_pending_ban_of action_id) (extended (now + ttl * 1000000000))

-- The ban of the action lasts at least its lifetime from now.
unfoldable pub extend_ban : CommandRow → ℕ → Tx (Unit {0})
extend_ban c now =
    if str_eq c.payload.type "temporary_ip_ban"
    then extend_by c.payload.ttl_seconds c.payload.action_id now
    else pure tt

-- The action of an execution starts, or is started already.
unfoldable pub begin_execution : CommandRow → ℕ → Tx (Unit {0})
begin_execution c now = do
  n ← update_actions (is_approved_action c) (started_action now)
  s ← read
  if n == 1
      then insert_audit c.payload.action_id "agent" "execution_started" "{}" now
      else require (in_status c executing s) (
          if is_some (first_where (is_action_of c.payload.action_id c.device_id) s.actions)
          then conflict
          else no_rows)
  extend_ban c now

unfoldable pub expect_status : CommandRow → ActionStatus → Tx (Unit {0})
expect_status c status = do
  s ← read
  require (in_status c status s) (
      if is_some (first_where (is_action_of c.payload.action_id c.device_id) s.actions)
      then conflict
      else no_rows)

unfoldable pub begin_on : CommandType → CommandRow → ℕ → Tx (Unit {0})
begin_on execute_action c now = begin_execution c now
begin_on rollback_action c now = expect_status c rolling_back
begin_on confirm_action c now = expect_status c confirming
begin_on scan c now = fail conflict

unfoldable pub is_unstarted : String → String → CommandRow → Bool
unfolding is_command_of
is_unstarted command_id device_id c =
    is_command_of command_id device_id c && is_none c.started_at && is_none c.completed_at

unfoldable pub mark_started : CommandRow → ℕ → Tx Bool
mark_started c now = do
  n ← update_commands (is_unstarted c.id c.device_id) (λ r. record r { started_at = some now })
  require (n == 1) conflict
  pure true

-- The command of a device that may act and has not started it.
unfoldable pub start_unstarted : CommandRow → ℕ → Tx Bool
start_unstarted c now = do
  s ← read
  if is_stale c now
      then call_off c (is_requested_action c) true
          "action command expired before privileged execution" "command_expired_before_execution"
          now
      else if not (is_authorized c s)
      then call_off c (is_approved_action c) (str_eq c.payload.type "temporary_ip_ban")
          (revoked_message c.payload.type) "policy_command_cancelled_before_execution" now
      else do begin_on c.type c now; mark_started c now

unfoldable pub start_on : Option Bool → CommandRow → ℕ → Tx Bool
start_on none c now = fail no_rows
start_on (some true) c now =
    call_off c (is_requested_action c) true
      "action command cancelled because the device is read-only observer mode"
      "observer_mode_cancelled" now
start_on (some false) c now = if is_some c.started_at then pure true else start_unstarted c now

-- The gate, for the row of the command.
unfoldable pub start_command : CommandRow → ℕ → Tx Bool
start_command c now s =
    (if is_some c.completed_at
        then pure false
        else if not (is_action_command c.type)
        then fail conflict
        else if len c.payload.action_id == 0
        then fail (invalid "action command payload is invalid")
        else start_on (lookup c.device_id s.devices) c now)
      s

unfoldable pub start_found : Option CommandRow → ℕ → Tx Bool
start_found none now = fail not_found
start_found (some c) now = start_command c now

-- `StartActionCommand`
unfoldable pub start_action_command : String → String → ℕ → Tx Bool
start_action_command device_id command_id now s =
    start_found (first_where (is_command_of command_id device_id) s.commands) now s
