-- ===== src/Actions/Queue.antt =====
-- The queue of commands of a device (internal/store/reports_commands.go): a command is enqueued, claimed
-- by its device under a lease of two minutes, and completed.
pub mod Claims
pub mod Keyed
pub mod Delivery
pub mod Lease
pub mod Scans
pub mod Reached
pub mod Examples
use witshield.Actions.Details.{json_char, json_chars, json_string}
use Prim.Native.String.{len}
use witshield.Base.{
  ℕ, ◌+◌, ◌*◌, String, Bool, true, false, not, ◌&&◌, ◌||◌, Option, none, some, List, [], ◌∷◌, ltb,
  ◌==◌, str_eq, if◌then◌else◌,
}
use witshield.Actions.Tables.{
  is_in_force, is_pending_ban, CommandRow, CommandType, scan, DeviceCommand,
}
use witshield.Actions.Statement.{
  statements, Tx, Fault, Outcome, done, fault, not_found, conflict, constraint, pure, fail, read,
  ◌>>=◌, ◌>>◌, require, first_where, insert_command, update_commands, is_some, is_none,
}
use witshield.Actions.Approval.{minute, or_empty_object}
use witshield.Actions.Policy.{dropped, is_pending_ban_of, is_open_command}
use witshield.Actions.Gate.{is_action_command, is_action_of, is_command_of}
use witshield.Actions.Expiry.{
  is_uncertain_ban_of, unanswered_details, lost_command, is_lost, lose_action, expire_unanswered,
  command_details, undelivered_details, ended, is_abandoned, fail_action, expire_undelivered,
  for_each, insert_row, is_overdue, on_device, is_unanswered, is_undelivered, select_where,
  order_by, limit_to, expire_stale_action_commands,
}

unfoldable pub is_scan : CommandType → Bool
is_scan scan = true
is_scan _ = false

-- A scan that the device has still to do.
unfoldable pub is_pending_scan : String → CommandRow → Bool
unfolding is_scan
is_pending_scan device_id c =
    str_eq c.device_id device_id && is_scan c.type && is_none c.completed_at

unfoldable pub superseded : ℕ → CommandRow → CommandRow
superseded now c = record c {
  completed_at = some now;
  result = "{\"ok\":false,\"superseded\":true}";
  error = "superseded by a newer scan request";
}

unfoldable pub is_superseded : String → String → CommandRow → Bool
unfolding is_pending_scan
is_superseded device_id keep_id c =
    is_pending_scan device_id c && (len keep_id == 0 || not (str_eq c.id keep_id))

-- `supersedePendingScanCommands`
unfoldable pub supersede_pending_scan_commands : String → String → ℕ → Tx (Unit {0})
supersede_pending_scan_commands device_id keep_id now = do
  _ ← update_commands (is_superseded device_id keep_id) (superseded now)
  pure tt

-- ORDER BY created_at DESC, rowid DESC LIMIT 1
unfoldable pub latest_scan : String → List CommandRow → Option CommandRow
unfolding is_pending_scan
latest_scan device_id [] = none
latest_scan device_id (c ∷ rest) =
    let later = latest_scan device_id rest in
    if not (is_pending_scan device_id c) then later else elim later [
      | none ↦ some c
      | some d ↦ if ltb d.created_at c.created_at then some c else some d
    ]

-- `latestPendingScanCommand`
unfoldable pub latest_pending_scan_command : String → List CommandRow → String
unfolding latest_scan
latest_pending_scan_command device_id rows = elim (latest_scan device_id rows) [
  | none ↦ ""
  | some c ↦ c.id
]

-- `mapSQLError`
abbrev pub map_sql_error : Fault → Fault
map_sql_error constraint = conflict
map_sql_error e = e

abbrev pub mapped : {A : Type 0} → Outcome A → Outcome A
mapped (done a t) = done a t
mapped (fault e) = fault (map_sql_error e)

-- A scan takes the place of those that are pending.
unfoldable pub insert_or_replace : DeviceCommand → Tx (Unit {0})
unfolding is_scan
insert_or_replace c =
    if not (is_scan c.type)
    then insert_command c
    else do supersede_pending_scan_commands c.device_id "" c.created_at; insert_command c

-- `EnqueueCommand`; the second argument is the id that a command without one is given.
unfoldable pub enqueue_command : DeviceCommand → String → Tx (Unit {0})
enqueue_command c fresh s =
    mapped (insert_or_replace (if len c.id == 0 then record c { id = fresh } else c) s)

-- The claim of the row has lapsed, if there is one.
unfoldable pub is_lapsed : ℕ → Option ℕ → Bool
is_lapsed now none = true
is_lapsed now (some claimed_at) = ltb (claimed_at + 2 * minute) now

unfoldable pub is_claimable : String → ℕ → CommandRow → Bool
unfolding is_lapsed
is_claimable device_id now c =
    str_eq c.device_id device_id && is_none c.completed_at && is_lapsed now c.claimed_at

unfoldable pub claimed : ℕ → CommandRow → CommandRow
claimed now c = record c { claimed_at = some now }

unfoldable pub claim_each : ℕ → List CommandRow → Tx (List CommandRow)
claim_each now [] = pure []
claim_each now (c ∷ cs) = do
  n ← update_commands (is_open_command c.id) (claimed now)
  require (n == 1) conflict
  out ← claim_each now cs
  pure (claimed now c ∷ out)

-- The newest pending scan is kept.
unfoldable pub supersede_older : String → String → ℕ → Tx (Unit {0})
supersede_older device_id latest now =
    if len latest == 0 then pure tt else supersede_pending_scan_commands device_id latest now

abbrev pub claim_limit : ℕ → ℕ
claim_limit limit = if limit == 0 || ltb 20 limit then 10 else limit

unfoldable pub claimable : String → ℕ → ℕ → List CommandRow → List CommandRow
claimable device_id limit now rows =
    limit_to (claim_limit limit)
      (order_by (λ c. c.created_at) (select_where (is_claimable device_id now) rows))

-- `ClaimCommands`; a negative limit stands as 0.
unfoldable pub claim_commands : String → ℕ → ℕ → Tx (List CommandRow)
claim_commands device_id limit now = do
  expire_stale_action_commands device_id now
  s ← read
  supersede_older device_id (latest_pending_scan_command device_id s.commands) now
  t ← read
  claim_each now (claimable device_id limit now t.commands)

unfoldable pub answered : String → String → ℕ → CommandRow → CommandRow
answered result error_text now c = record c {
  completed_at = some now;
  result = result;
  error = error_text;
}

-- No open command was updated: a repeated result is accepted where it is the one on record.
unfoldable pub same_answer : Option CommandRow → String → String → Tx (Unit {0})
same_answer none result error_text = fail not_found
same_answer (some c) result error_text =
    require (str_eq c.result result && str_eq c.error error_text) conflict

-- `CompleteCommand`
unfoldable pub complete_command : String → String → String → String → ℕ → Tx (Unit {0})
unfolding is_command_of
complete_command device_id id result error_text now = do
  let answer = or_empty_object result
  n ←
      update_commands (λ c. is_command_of id device_id c && is_none c.completed_at)
        (answered answer error_text now)
  s ← read
  if not (n == 0)
      then pure tt
      else same_answer
          (first_where (λ c. is_command_of id device_id c && is_some c.completed_at) s.commands)
          answer error_text

-- Opens the queue, the expiry and their statements, for a run at a concrete input.
unfoldable pub queue : Unit {0}
unfolding statements expire_stale_action_commands is_undelivered is_unanswered on_device is_overdue
    select_where limit_to insert_row order_by for_each expire_undelivered fail_action is_abandoned
    is_action_of is_action_command ended undelivered_details command_details json_string json_chars
    json_char expire_unanswered lose_action is_lost lost_command unanswered_details
    is_uncertain_ban_of is_pending_ban_of is_pending_ban is_in_force is_open_command dropped
    claim_commands claimable claim_each claimed is_claimable is_lapsed supersede_older
    latest_pending_scan_command latest_scan is_pending_scan is_scan supersede_pending_scan_commands
    is_superseded superseded enqueue_command insert_or_replace complete_command answered same_answer
    is_command_of
queue = tt
