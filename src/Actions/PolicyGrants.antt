-- ===== src/Actions/PolicyGrants.antt =====
-- `PutPolicyGrant` of internal/store/security_engineer.go: an administrator sets the grant of one
-- capability of a device.
use Prim.Native.String.{len}
use witshield.Base.{
  ◌==◌, false, ℕ, String, Bool, not, ◌&&◌, Option, none, some, List, [], ◌∷◌, leb, str_eq,
  if◌then◌else◌, length,
}
use witshield.Base.Dict.{lookup}
use witshield.Actions.Tables.{GrantRow, Mode, observe, assist, auto_low_risk, enhanced}
use witshield.Actions.Statement.{
  Tx, constraint, invalid, pure, fail, constrained, ◌>>=◌, ◌>>◌, require, is_some,
}
use witshield.Actions.Policy.{put_grant}
use witshield.Actions.Gate.{contains}

-- `domain.PolicyGrant`, with its mode as it is written.
pub record PolicyGrant : Type 0 where
  pub device_id : String
  pub capability : String
  pub enabled : Bool
  pub mode : String
  pub allowed_action_types : List String
  pub max_actions_per_hour : ℕ
  pub emergency_stop : Bool
  pub updated_at : ℕ

-- The one entry of `allowedPolicyActions` for a capability; the keys of the map are those of
-- `supportedPolicyCapabilities`.
unfoldable pub allowed_policy_action : String → Option String
allowed_policy_action capability =
    if str_eq capability "network.auth_bruteforce"
    then some "temporary_ip_ban"
    else if str_eq capability "identity.persistence"
    then some "ssh_password_hardening"
    else if str_eq capability "workload.runtime"
    then some "temporary_process_suspend"
    else if str_eq capability "file.integrity"
    then some "file_permission_repair"
    else if str_eq capability "vulnerability.remediation"
    then some "package_security_upgrade"
    else none

unfoldable pub known_mode : String → Tx Mode
known_mode text =
    if str_eq text "observe"
    then pure observe
    else if str_eq text "assist"
    then pure assist
    else if str_eq text "auto_low_risk"
    then pure auto_low_risk
    else if str_eq text "enhanced"
    then pure enhanced
    else fail (invalid "unsupported autonomy mode")

-- The loop over the action types, with those that it has seen.
unfoldable pub check_types : Option String → List String → List String → Tx (Unit {0})
unfolding contains
check_types allowed seen [] = pure tt
check_types allowed seen (type ∷ types) =
    if not (elim allowed [ none ↦ false | some supported ↦ str_eq type supported ])
    then fail (invalid "unsupported action type for policy capability")
    else if contains type seen
    then fail (invalid "duplicate action type in policy capability")
    else check_types allowed (type ∷ seen) types

unfoldable pub has_size : PolicyGrant → Bool
has_size g =
    not (str_eq g.device_id "")
    && not (len g.capability == 0)
    && leb (len g.capability) 128
    && leb 1 g.max_actions_per_hour
    && leb g.max_actions_per_hour 1000

abbrev pub grant_row : PolicyGrant → Mode → GrantRow
grant_row g mode = record {
  device_id = g.device_id;
  capability = g.capability;
  enabled = g.enabled;
  mode = mode;
  allowed_action_types = g.allowed_action_types;
  max_actions_per_hour = g.max_actions_per_hour;
  emergency_stop = g.emergency_stop;
  updated_at = g.updated_at;
}

-- INSERT … ON CONFLICT(device_id,capability) DO UPDATE; the grant refers to a device.
unfoldable pub store_grant : PolicyGrant → Mode → Tx (Unit {0})
store_grant g mode =
    constrained (λ s. is_some (lookup g.device_id s.devices)) constraint
      (λ s. record s { grants = put_grant (grant_row g mode) s.grants })

-- `PutPolicyGrant`
unfoldable pub put_policy_grant : PolicyGrant → Tx (Unit {0})
unfolding allowed_policy_action known_mode check_types has_size store_grant
put_policy_grant g = do
  require (has_size g) (invalid "policy grant is invalid")
  require (is_some (allowed_policy_action g.capability)) (invalid "unsupported policy capability")
  mode ← known_mode g.mode
  require (leb (length g.allowed_action_types) 32) (invalid "too many allowed action types")
  check_types (allowed_policy_action g.capability) [] g.allowed_action_types
  store_grant g mode
