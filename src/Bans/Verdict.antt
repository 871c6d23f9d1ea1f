-- ===== src/Bans/Verdict.antt =====
-- What a login failure leads to: nothing, a simulated ban, or a ban (`ProcessSecurityEvent` of
-- internal/store/security_events.go, from the evaluation of the policy to the writes).
use Prim.Native.String.{◌++◌ as cat}
use witshield.Base.{
  ℕ, ◌-◌, ◌*◌, String, Bool, true, false, not, ◌&&◌, Option, none, some, List, ltb, leb, str_eq,
  if◌then◌else◌,
}
use witshield.Actions.Tables.{BanRow, BanStatus}
use witshield.Actions.Statement.{count_where, is_none}
use witshield.Actions.Policy.{is_live_ban_of, is_recent_ban_of}
use witshield.Defense.Correlator.{Net, DefensePolicy, Evaluation, evaluate, second, hour}
use witshield.Bans.Targets.{Netip, validate_temporary_ip_ban_target}

abbrev pub max_active_simulations_per_device : ℕ
max_active_simulations_per_device = 1000

abbrev pub max_defense_simulations_per_hour : ℕ
max_defense_simulations_per_hour = 100

is_simulated_status : BanStatus → Bool
is_simulated_status BanStatus.simulated_only = true
is_simulated_status _ = false

-- simulated=1 AND status='simulated' AND expires_at>now
unfoldable pub is_shown : ℕ → BanRow → Bool
unfolding is_simulated_status
is_shown now b = b.simulated && (is_simulated_status b.status && ltb now b.expires_at)

unfoldable pub is_simulation_of : String → ℕ → BanRow → Bool
unfolding is_shown
is_simulation_of device_id now b = str_eq b.device_id device_id && is_shown now b

unfoldable pub is_simulation_against : String → String → ℕ → BanRow → Bool
unfolding is_shown
is_simulation_against device_id source_ip now b =
    str_eq b.device_id device_id && (str_eq b.source_ip source_ip && is_shown now b)

unfoldable pub is_recent_simulation_of : String → ℕ → BanRow → Bool
is_recent_simulation_of device_id since b =
    str_eq b.device_id device_id && (b.simulated && leb since b.created_at)

-- A ban of the source that is not simulated, since the time.
unfoldable pub is_attempt_against : String → String → ℕ → BanRow → Bool
is_attempt_against device_id source_ip since b =
    str_eq b.device_id device_id
    && (str_eq b.source_ip source_ip && (not b.simulated && leb since b.created_at))

-- A ban of a protected address, or of a device that only observes, is simulated.
unfoldable pub simulated_for : String → Bool → Evaluation → Evaluation
simulated_for reason b e =
    if b && e.should_ban
    then record e { should_ban = false; simulated = true; reason = cat e.reason reason }
    else e

limited_by : String → Evaluation → Evaluation
limited_by reason e = record e { reason = cat e.reason reason; expires_at = none }

cooling : Evaluation → Evaluation
cooling e = record e {
  should_ban = false;
  expires_at = none;
  reason = "source is in automatic-action retry cooldown";
}

abbrev pub cooldown : DefensePolicy → ℕ
cooldown p = if ltb (300 * second) p.window then 300 * second else p.window

-- The decision, with the expiry of the ban that is to be recorded.
pub data Verdict : Type 0 where
  idle : Evaluation → Verdict
  simulate ban : Evaluation → ℕ → Verdict

module _ (n : Net) (a : Netip) (p : DefensePolicy) (device_id source_ip : String)
    (observer_only : Bool) (failure_count now : ℕ) (bans : List BanRow) where
  unfoldable pub judge_simulation : Evaluation → ℕ → Verdict
  unfolding limited_by
  judge_simulation e expires_at =
      if ltb 0 (count_where (is_simulation_against device_id source_ip now) bans)
      then idle e
      else if leb max_defense_simulations_per_hour
          (count_where (is_recent_simulation_of device_id (now - hour)) bans)
      then idle (limited_by "; simulation audit rate limit reached" e)
      else if leb max_active_simulations_per_device
          (count_where (is_simulation_of device_id now) bans)
      then idle (limited_by "; simulation retention limit reached" e)
      else simulate e expires_at

  unfoldable pub judge_ban : Evaluation → ℕ → Verdict
  unfolding cooling
  judge_ban e expires_at =
      if not e.should_ban
      then idle e
      else if ltb 0 (count_where (is_attempt_against device_id source_ip (now - cooldown p)) bans)
      then idle (cooling e)
      else ban e expires_at

  unfoldable pub judge_matched : Evaluation → ℕ → Verdict
  unfolding simulated_for judge_simulation judge_ban
  judge_matched e expires_at =
      let e' =
        simulated_for "; target is protected from automatic firewall changes"
          (is_none (validate_temporary_ip_ban_target a source_ip)) e in
      let e'' = simulated_for "; observer-only device recorded a simulation" observer_only e' in
      if e''.simulated then judge_simulation e'' expires_at else judge_ban e'' expires_at

  unfoldable pub judge_at : Evaluation → Option ℕ → Verdict
  unfolding judge_matched
  judge_at e none = idle e
  judge_at e (some expires_at) = if e.matched then judge_matched e expires_at else idle e

  abbrev pub evaluation : Evaluation
  evaluation =
      evaluate n p source_ip failure_count
        (count_where (is_recent_ban_of device_id (now - hour)) bans)
        (ltb 0 (count_where (is_live_ban_of device_id source_ip now) bans)) now

  unfoldable pub judge : Verdict
  unfolding judge_at
  judge = judge_at evaluation evaluation.expires_at
