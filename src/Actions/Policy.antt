-- ===== src/Actions/Policy.antt =====
-- Actions that a policy authorizes (internal/store/action_results.go), and the switch of the defense
-- policy with its emergency stop (internal/store/settings_actions_defense.go).
use Prim.Native.Char.{code}
use witshield.Base.{
  Option, ℕ, ◌+◌, String, Bool, true, false, not, ◌&&◌, ◌||◌, none, some, List, [], ◌∷◌, ◌++◌, leb,
  ltb, ◌==◌, str_eq, if◌then◌else◌, length,
}
use witshield.Base.Dict.{lookup, insert}
use witshield.Defense.Correlator.{DefensePolicy}
use witshield.Actions.Tables.{
  Tables, approved, cancelled, is_status, ActionRow, CommandRow, DeviceCommand, CommandType,
  execute_action, BanRow, BanStatus, is_pending_ban, is_live, GrantRow, Mode, observe, assist,
  auto_low_risk,
}
use witshield.Actions.Statement.{
  Tx, constraint, policy_stopped, ban_already_live, ban_rate_limited, pure, fail, read, constrained,
  ◌>>=◌, ◌>>◌, require, first_where, count_where, update_where, find_action, insert_action,
  insert_command, insert_ban, insert_audit, update_actions, update_commands, update_bans, is_some,
  is_none,
}
use witshield.Actions.Approval.{
  Action, draft_row, expire_draft_actions_tx, ensure_unfinished_action_capacity_tx, or_empty_object,
}

-- `approvedAt`
unfoldable pub approved_at : Action → ℕ
approved_at x = elim x.approved_at [ some t ↦ t | none ↦ x.created_at ]

unfoldable pub policy_row : Action → String → ActionRow
unfolding approved_at draft_row
policy_row x policy_actor = record (draft_row x "") {
  status = approved;
  approved_by = policy_actor;
  approved_at = some (approved_at x);
}

-- `insertPolicyActionAndCommand`
unfoldable pub insert_policy_action_and_command : Action → DeviceCommand → String → Tx (Unit {0})
insert_policy_action_and_command x cmd policy_actor = do
  expire_draft_actions_tx x.device_id x.created_at
  ensure_unfinished_action_capacity_tx x.device_id
  insert_action (policy_row x policy_actor)
  insert_audit x.id policy_actor "policy_preauthorized_and_queued" (or_empty_object x.preview)
      x.created_at
  insert_command cmd

-- `domain.TemporaryBan`, as it is recorded for a policy action.
pub record TemporaryBan : Type 0 where
  pub id : String
  pub device_id : String
  pub source_ip : String
  pub reason : String
  pub expires_at : ℕ
  pub created_at : ℕ

unfoldable pub pending_ban : TemporaryBan → String → BanRow
pending_ban b action_id = record {
  id = b.id;
  device_id = b.device_id;
  action_id = action_id;
  source_ip = b.source_ip;
  reason = b.reason;
  expires_at = b.expires_at;
  created_at = b.created_at;
  simulated = false;
  status = BanStatus.pending;
}

-- `insertPolicyActionAndEnqueue`, and `CreatePolicyActionAndEnqueue`, which is its transaction
unfoldable pub insert_policy_action_and_enqueue :
    Action → DeviceCommand → TemporaryBan → String → Tx (Unit {0})
insert_policy_action_and_enqueue x cmd ban policy_actor = do
  insert_policy_action_and_command x cmd policy_actor
  insert_ban (pending_ban ban x.id)

unfoldable pub is_live_ban_of : String → String → ℕ → BanRow → Bool
unfolding is_live
is_live_ban_of device_id source_ip now b =
    str_eq b.device_id device_id && str_eq b.source_ip source_ip && is_live now b

unfoldable pub is_recent_ban_of : String → ℕ → BanRow → Bool
is_recent_ban_of device_id since b =
    str_eq b.device_id device_id && leb since b.created_at && not b.simulated

-- The policy of the device allows a ban within its budget of an hour.
unfoldable pub limited :
    Option DefensePolicy
    → Action
    → DeviceCommand
    → TemporaryBan
    → String
    → ℕ
    → ℕ
    → Tables
    → Tx (Unit {0})
limited none x cmd ban policy_actor max_per_hour since s = fail policy_stopped
limited (some p) x cmd ban policy_actor max_per_hour since s =
    if not p.enabled || p.emergency_stop || not p.auto_ban then fail policy_stopped else do
      let limit =
          if ltb p.max_bans_per_hour max_per_hour || max_per_hour == 0
          then p.max_bans_per_hour
          else max_per_hour
      require (count_where (is_live_ban_of x.device_id ban.source_ip x.created_at) s.bans == 0)
          ban_already_live
      require (ltb (count_where (is_recent_ban_of x.device_id since) s.bans) limit) ban_rate_limited
      insert_policy_action_and_enqueue x cmd ban policy_actor

-- `CreatePolicyActionAndEnqueueLimited`
unfoldable pub create_policy_action_and_enqueue_limited :
    Action → DeviceCommand → TemporaryBan → String → ℕ → ℕ → Tx (Unit {0})
create_policy_action_and_enqueue_limited x cmd ban policy_actor max_per_hour since = do
  s ← read
  limited (lookup x.device_id s.policies) x cmd ban policy_actor max_per_hour since s

-- The order of an upsert on the key of `policy_grants`: the old row keeps its place.
unfoldable pub is_grant : String → String → GrantRow → Bool
is_grant device_id capability g = str_eq g.device_id device_id && str_eq g.capability capability

unfoldable pub put_at : Option GrantRow → GrantRow → List GrantRow → List GrantRow
unfolding is_grant
put_at none g grants = grants ++ g ∷ []
put_at (some _) g grants = update_where (is_grant g.device_id g.capability) (λ _. g) grants

unfoldable pub put_grant : GrantRow → List GrantRow → List GrantRow
unfolding put_at
put_grant g grants = put_at (first_where (is_grant g.device_id g.capability) grants) g grants

unfoldable pub mode_of : DefensePolicy → Mode
mode_of p = if p.enabled && p.auto_ban then auto_low_risk else if p.enabled then assist else observe

unfoldable pub bruteforce_grant : String → DefensePolicy → ℕ → GrantRow
unfolding mode_of
bruteforce_grant device_id p now = record {
  device_id = device_id;
  capability = "network.auth_bruteforce";
  enabled = p.enabled;
  mode = mode_of p;
  allowed_action_types = "temporary_ip_ban" ∷ [];
  max_actions_per_hour = p.max_bans_per_hour;
  emergency_stop = p.emergency_stop;
  updated_at = now;
}

abbrev pub stop_all : String → Bool → ℕ → List GrantRow → List GrantRow
stop_all device_id stop now =
    update_where (λ g. str_eq g.device_id device_id)
      (λ g. record g { emergency_stop = stop; updated_at = now })

unfoldable pub lower : ℕ → ℕ
lower c = if leb b'A' c && leb c b'Z' then c + 32 else c

-- LIKE with a constant prefix in lower case: SQLite ignores the case of ASCII letters.
unfoldable pub starts_like : List ℕ → String → Bool
unfolding lower
starts_like [] s = true
starts_like (c ∷ cs) String.[] = false
starts_like (c ∷ cs) (String.◌∷◌ d s) = lower (code d) == c && starts_like cs s

-- "policy:"
abbrev pub policy_prefix : List ℕ
policy_prefix = b'p' ∷ b'o' ∷ b'l' ∷ b'i' ∷ b'c' ∷ b'y' ∷ b':' ∷ []

unfoldable pub is_execute : CommandType → Bool
is_execute execute_action = true
is_execute _ = false

-- The join of an open command with its action, where a policy approved it and it has not started.
unfoldable pub is_waiting : String → List ActionRow → CommandRow → Bool
unfolding is_execute starts_like
is_waiting device_id actions c =
    str_eq c.device_id device_id
    && is_none c.completed_at
    && is_execute c.type
    && elim (find_action c.payload.action_id actions) [
      | none ↦ false
      | some a ↦ starts_like policy_prefix a.approved_by && is_status a.status approved
    ]

unfoldable pub waiting : String → List ActionRow → List CommandRow → List (String × String)
unfolding is_waiting
waiting device_id actions [] = []
waiting device_id actions (c ∷ rest) =
    let items = waiting device_id actions rest in
    if is_waiting device_id actions c then (c.id, c.payload.action_id) ∷ items else items

unfoldable pub is_open_command : String → CommandRow → Bool
is_open_command id c = str_eq c.id id && is_none c.completed_at

-- A command that ends before it runs.
unfoldable pub dropped : String → ℕ → CommandRow → CommandRow
dropped message now c = record c {
  completed_at = some now;
  result = "{\"ok\":false}";
  error = message;
}

unfoldable pub called_off : String → ℕ → ActionRow → ActionRow
called_off message now r = record r {
  status = cancelled;
  completed_at = some now;
  error = message;
  updated_at = now;
}

unfoldable pub is_pending_ban_of : String → BanRow → Bool
unfolding is_pending_ban
is_pending_ban_of action_id b = str_eq b.action_id action_id && is_pending_ban b.status

abbrev pub cancelled_ban : BanRow → BanRow
cancelled_ban b = record b { status = BanStatus.cancelled }

abbrev pub stop_message : String
stop_message = "cancelled by automatic-defense emergency stop"

-- One round of the loop of `PutDefensePolicyAndCancelQueued`.
unfoldable pub cancel_queued : ℕ → String → String → Tx (Unit {0})
cancel_queued now command_id action_id = do
  _ ← update_commands (is_open_command command_id) (dropped stop_message now)
  _ ←
      update_actions (λ r. str_eq r.id action_id && is_status r.status approved)
        (called_off stop_message now)
  update_bans (is_pending_ban_of action_id) cancelled_ban
  insert_audit action_id "controller" "cancelled_by_emergency_stop" "{}" now

unfoldable pub cancel_each : ℕ → List (String × String) → Tx (Unit {0})
cancel_each now [] = pure tt
cancel_each now ((command_id, action_id) ∷ items) = do
  cancel_queued now command_id action_id
  cancel_each now items

unfoldable pub store_policy : String → DefensePolicy → ℕ → Tx (Unit {0})
store_policy device_id p now =
    constrained (λ s. is_some (lookup device_id s.devices)) constraint
      (λ s. record s {
        policies = insert device_id p s.policies;
        grants =
            stop_all device_id p.emergency_stop now
              (put_grant (bruteforce_grant device_id p now) s.grants);
      })

-- Under the emergency stop, what a policy queued for the device is cancelled.
unfoldable pub cancel_waiting : String → Bool → ℕ → Tx ℕ
cancel_waiting device_id stop now = do
  s ← read
  let items = waiting device_id s.actions s.commands
  if not stop then pure 0 else do cancel_each now items; pure (length items)

-- `PutDefensePolicyAndCancelQueued`
unfoldable pub put_defense_policy_and_cancel_queued : String → DefensePolicy → ℕ → Tx ℕ
put_defense_policy_and_cancel_queued device_id p now = do
  store_policy device_id p now
  cancel_waiting device_id p.emergency_stop now
