-- ===== src/Bans/Process.antt =====
-- The writes of `ProcessSecurityEvent` of internal/store/security_events.go: the simulated ban, or the ban
-- with its action and command.
use witshield.Base.{ℕ, ◌/◌, String, Bool, true, false, none, some, ltb, if◌then◌else◌}
use witshield.Actions.Tables.{BanRow, BanStatus, approved, execute_action, DeviceCommand}
use witshield.Actions.Statement.{Tx, pure, read, ◌>>=◌, ◌>>◌, insert_ban}
use witshield.Actions.Approval.{Action}
use witshield.Actions.Policy.{TemporaryBan, insert_policy_action_and_enqueue}
use witshield.Defense.Correlator.{Net, DefensePolicy, Evaluation, second}
use witshield.Bans.Targets.{Netip, policy_admin_ip}
use witshield.Bans.Verdict.{Verdict, idle, simulate, ban, judge}

-- Fresh identifiers, and the JSON of the parameters and of the preview.
pub record Encoding : Type 0 where
  pub ban_id : String
  pub action_id : String
  pub command_id : String
  -- the address, the lifetime in seconds, and the address of the administrator
  pub parameters : String → ℕ → String → String
  -- the address, the lifetime in seconds, and the number of failures
  pub preview : String → ℕ → ℕ → String

-- The fields of `SecurityEventProcessOutcome` on the decision.
pub record ProcessOutcome : Type 0 where
  pub recorded : Bool
  pub decision : Evaluation
  pub action_id : String
  pub command_id : String
  pub ban_id : String

abbrev pub unrecorded : Evaluation → ProcessOutcome
unrecorded e = record {
  recorded = false;
  decision = e;
  action_id = "";
  command_id = "";
  ban_id = "";
}

module _ (n : Net) (a : Netip) (c : Encoding) (p : DefensePolicy) (device_id source_ip : String)
    (observer_only : Bool) (failure_count now : ℕ) where
  unfoldable pub simulated_ban : Evaluation → ℕ → BanRow
  simulated_ban e expires_at = record {
    id = c.ban_id;
    device_id = device_id;
    action_id = "";
    source_ip = source_ip;
    reason = e.reason;
    expires_at = expires_at;
    created_at = now;
    simulated = true;
    status = BanStatus.simulated_only;
  }

  unfoldable pub temporary_ban : Evaluation → ℕ → TemporaryBan
  temporary_ban e expires_at = record {
    id = c.ban_id;
    device_id = device_id;
    source_ip = source_ip;
    reason = e.reason;
    expires_at = expires_at;
    created_at = now;
  }

  ban_parameters : String
  ban_parameters = c.parameters source_ip (p.ban_duration / second) (policy_admin_ip n p.allowlist)

  unfoldable pub policy_action : Action
  unfolding ban_parameters
  policy_action = record {
    id = c.action_id;
    device_id = device_id;
    finding_id = "";
    type = "temporary_ip_ban";
    parameters = ban_parameters;
    preview = c.preview source_ip (p.ban_duration / second) failure_count;
    status = approved;
    approved_at = some now;
    created_at = now;
    updated_at = now;
  }

  unfoldable pub ban_command : DeviceCommand
  unfolding ban_parameters
  ban_command = record {
    id = c.command_id;
    device_id = device_id;
    type = execute_action;
    payload = record {
      action_id = c.action_id;
      policy_authorized = true;
      type = "temporary_ip_ban";
      parameters = ban_parameters;
      ttl_seconds =
          if ltb 0 (p.ban_duration / second) then some (p.ban_duration / second) else none;
    };
    created_at = now;
  }

  unfoldable pub carry_out : Verdict → Tx ProcessOutcome
  unfolding simulated_ban temporary_ban policy_action ban_command
  carry_out (idle e) = pure (unrecorded e)
  carry_out (simulate e expires_at) = do
    insert_ban (simulated_ban e expires_at)
    pure (record (unrecorded e) { recorded = true; ban_id = c.ban_id })
  carry_out (ban e expires_at) = do
    insert_policy_action_and_enqueue policy_action ban_command (temporary_ban e expires_at)
        "policy:ssh_bruteforce"
    pure (record (unrecorded e) {
      recorded = true;
      action_id = c.action_id;
      command_id = c.command_id;
      ban_id = c.ban_id;
    })

  -- `ProcessSecurityEvent`, once the failures are counted and the policy is read
  unfoldable pub process_failure : Tx ProcessOutcome
  unfolding carry_out judge
  process_failure = do
    s ← read
    carry_out (judge n a p device_id source_ip observer_only failure_count now s.bans)
