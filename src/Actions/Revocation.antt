-- ===== src/Actions/Revocation.antt =====
-- The commands and actions of a device that is revoked (`RevokeDevice` of internal/store/auth_devices.go).
-- Its statements on the device's status and tokens come first; these follow where the device was not
-- revoked already.
use witshield.Base.{
  some, ℕ, String, Bool, not, ◌&&◌, ◌||◌, List, [], ◌∷◌, ◌==◌, str_eq, if◌then◌else◌,
}
use witshield.Actions.Tables.{
  ActionStatus, ActionRow, CommandRow, BanStatus, approved, executing, awaiting_confirmation,
  confirming, rolling_back, cancelled, indeterminate, is_status,
}
use witshield.Actions.Statement.{
  Tx, pure, read, ◌>>=◌, ◌>>◌, insert_audit, update_actions, update_commands, update_bans, is_some,
  is_none,
}
use witshield.Actions.Policy.{is_open_command, is_pending_ban_of}
use witshield.Actions.Gate.{is_action_command}
use witshield.Actions.Expiry.{unanswered_message}
use witshield.Actions.Completion.{ended, is_unsettled_ban_of}

-- An action command that was under way.
unfoldable pub is_under_way : CommandRow → Bool
is_under_way c = is_action_command c.type && is_some c.started_at

unfoldable pub revocation_message : CommandRow → String
unfolding is_under_way
revocation_message c =
    if is_under_way c then unanswered_message else "device was revoked before command completion"

unfoldable pub revoked_command : CommandRow → ℕ → CommandRow → CommandRow
unfolding revocation_message is_under_way
revoked_command c now d = record d {
  completed_at = some now;
  result =
      if is_under_way c
      then "{\"ok\":false,\"indeterminate\":true}"
      else "{\"ok\":false,\"cancelled\":true}";
  error = revocation_message c;
}

-- The statuses from which an action is given up, with or without a start of its command.
unfoldable pub is_given_up : Bool → ActionStatus → Bool
is_given_up started status =
    is_status status executing
    || is_status status rolling_back
    || is_status status confirming
    || (not started && (is_status status approved || is_status status awaiting_confirmation))

unfoldable pub is_revoked_action : String → String → Bool → ActionRow → Bool
unfolding is_given_up
is_revoked_action action_id device_id started r =
    str_eq r.id action_id && str_eq r.device_id device_id && is_given_up started r.status

unfoldable pub settle_revoked_ban : CommandRow → Tx (Unit {0})
unfolding is_under_way
settle_revoked_ban c =
    if is_under_way c
    then update_bans (is_unsettled_ban_of c.payload.action_id)
        (λ b. record b { status = BanStatus.indeterminate })
    else update_bans (is_pending_ban_of c.payload.action_id)
        (λ b. record b { status = BanStatus.cancelled })

-- `details` is the JSON with the command's id and whether a manual verification is required.
unfoldable pub record_revocation : String → CommandRow → ℕ → Tx (Unit {0})
unfolding settle_revoked_ban
record_revocation details c now = do
  settle_revoked_ban c
  insert_audit c.payload.action_id "controller"
      (if is_under_way c
        then "device_revoked_during_execution"
        else "device_revoked_before_execution")
      details now

unfoldable pub revoke_action : String → (CommandRow → String) → CommandRow → ℕ → Tx (Unit {0})
unfolding is_revoked_action record_revocation revocation_message
revoke_action device_id details c now = do
  n ←
      update_actions (is_revoked_action c.payload.action_id device_id (is_under_way c))
        (ended (if is_under_way c then indeterminate else cancelled) (revocation_message c) now)
  if n == 1 then record_revocation (details c) c now else pure tt

-- One round of the loop.
unfoldable pub revoke_command : String → (CommandRow → String) → ℕ → CommandRow → Tx (Unit {0})
unfolding revoked_command revoke_action
revoke_command device_id details now c = do
  _ ← update_commands (is_open_command c.id) (revoked_command c now)
  if not (is_action_command c.type) || str_eq c.payload.action_id ""
      then pure tt
      else revoke_action device_id details c now

unfoldable pub revoke_each : String → (CommandRow → String) → ℕ → List CommandRow → Tx (Unit {0})
unfolding revoke_command
revoke_each device_id details now [] = pure tt
revoke_each device_id details now (c ∷ rest) = do
  revoke_command device_id details now c
  revoke_each device_id details now rest

-- SELECT of the open commands of the device.
unfoldable pub open_commands : String → List CommandRow → List CommandRow
open_commands device_id [] = []
open_commands device_id (c ∷ rest) =
    let others = open_commands device_id rest in
    if str_eq c.device_id device_id && is_none c.completed_at then c ∷ others else others

unfoldable pub revoke_open_commands : String → (CommandRow → String) → ℕ → Tx (Unit {0})
unfolding revoke_each open_commands
revoke_open_commands device_id details now = do
  s ← read
  revoke_each device_id details now (open_commands device_id s.commands)
