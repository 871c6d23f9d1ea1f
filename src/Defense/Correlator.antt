-- ===== src/Defense/Correlator.antt =====
-- `ValidatePolicy` and `Evaluate` of internal/defense/correlator.go.
pub mod Decisions
use Prim.Native.String.{◌++◌ as cat}
use witshield.Base.{
  ℕ, ◌+◌, ◌*◌, String, Bool, true, false, not, ◌&&◌, ◌||◌, Option, none, some, List, [], ◌∷◌, ltb,
  leb, if◌then◌else◌,
}

abbrev pub max_failure_threshold : ℕ
max_failure_threshold = 100

abbrev pub max_automatic_bans_per_hour : ℕ
max_automatic_bans_per_hour = 100

-- Durations and times are whole numbers of nanoseconds.
abbrev pub second : ℕ
second = 1000000000

abbrev pub hour : ℕ
hour = 3600 * second

-- What the package takes from net, strings and fmt.
pub record Net : Type 1 where
  pub Ip : Type 0
  pub Network : Type 0
  -- net.ParseIP and net.ParseCIDR
  pub parse_ip : String → Option Ip
  pub parse_cidr : String → Option Network
  pub equal : Ip → Ip → Bool
  pub contains : Network → Ip → Bool
  pub base : Network → Ip
  pub is_loopback : Ip → Bool
  pub is_unspecified : Ip → Bool
  -- the String method
  pub text : Ip → String
  pub trim_space : String → String
  pub decimal : ℕ → String
  -- the verb %q
  pub quote : String → String

-- The fields of `domain.DefensePolicy` that the decisions read.
pub record DefensePolicy : Type 0 where
  pub enabled : Bool
  pub emergency_stop : Bool
  pub auto_ban : Bool
  pub failure_threshold : ℕ
  pub window : ℕ
  pub ban_duration : ℕ
  pub max_bans_per_hour : ℕ
  pub allowlist : List String

pub record Evaluation : Type 0 where
  pub matched : Bool
  pub should_ban : Bool
  pub simulated : Bool
  pub reason : String
  pub expires_at : Option ℕ

abbrev pub outcome : Bool → String → Evaluation
outcome matched reason = record {
  matched = matched;
  should_ban = false;
  simulated = false;
  reason = reason;
  expires_at = none;
}

module _ (n : Net) where
  -- An address that is neither of this host nor unspecified.
  unfoldable pub is_outside : n.Ip → Bool
  is_outside ip = not (n.is_loopback ip) && not (n.is_unspecified ip)

  -- One entry of the loop of `hasNonLoopbackAllowlist`.
  unfoldable pub names_outside : String → Bool
  unfolding is_outside
  names_outside entry = elim (n.parse_ip entry) [
    | some ip ↦ is_outside ip
    | none ↦ elim (n.parse_cidr entry) [ some network ↦ is_outside (n.base network) | none ↦ false ]
  ]

  unfoldable pub has_non_loopback_allowlist : List String → Bool
  unfolding names_outside
  has_non_loopback_allowlist [] = false
  has_non_loopback_allowlist (entry ∷ rest) = names_outside entry || has_non_loopback_allowlist rest

  unfoldable pub is_entry : String → Bool
  is_entry entry = elim (n.parse_cidr entry) [
    | some _ ↦ true
    | none ↦ elim (n.parse_ip entry) [ some _ ↦ true | none ↦ false ]
  ]

  -- The first entry that is neither a network nor an address.
  unfoldable pub invalid_entry : List String → Option String
  unfolding is_entry
  invalid_entry [] = none
  invalid_entry (entry ∷ rest) = if is_entry entry then invalid_entry rest else some entry

  unfoldable pub validate_policy : DefensePolicy → Option String
  unfolding invalid_entry has_non_loopback_allowlist
  validate_policy p =
      if ltb p.failure_threshold 3 || ltb max_failure_threshold p.failure_threshold
      then some "failureThreshold must be between 3 and 100"
      else if ltb p.window (10 * second) || ltb (24 * hour) p.window
      then some "window must be between 10s and 24h"
      else if ltb p.ban_duration (60 * second) || ltb (24 * hour) p.ban_duration
      then some "banDuration must be between 1m and 24h"
      else if ltb p.max_bans_per_hour 1 || ltb max_automatic_bans_per_hour p.max_bans_per_hour
      then some "maxBansPerHour must be between 1 and 100"
      else elim (invalid_entry p.allowlist) [
        | some entry ↦ some (cat "invalid allowlist entry " (n.quote entry))
        | none ↦
            if p.auto_ban && not (has_non_loopback_allowlist p.allowlist)
            then some
                "autoBan requires an explicit non-loopback administrator IP or network in allowlist"
            else none
      ]

  -- One entry of the loop of `allowlisted`.
  unfoldable pub covers : n.Ip → String → Bool
  covers ip entry =
      elim (n.parse_ip entry) [ some parsed ↦ n.equal parsed ip | none ↦ false ]
      || elim (n.parse_cidr entry) [ some network ↦ n.contains network ip | none ↦ false ]

  unfoldable pub allowlisted : n.Ip → List String → Bool
  unfolding covers
  allowlisted ip [] = false
  allowlisted ip (entry ∷ rest) = covers ip entry || allowlisted ip rest

  -- `Evaluate`
  unfoldable pub evaluate : DefensePolicy → String → ℕ → ℕ → Bool → ℕ → Evaluation
  unfolding allowlisted
  evaluate p source_ip failure_count recent_ban_count already_banned now =
      elim (n.parse_ip (n.trim_space source_ip)) [
        | none ↦ outcome false "invalid source IP"
        | some ip ↦
            if allowlisted ip p.allowlist
            then outcome false "source is allowlisted"
            else if not p.enabled
            then outcome false "defense policy is disabled"
            else if p.emergency_stop
            then outcome false "emergency stop is active"
            else if ltb failure_count p.failure_threshold
            then outcome false (
                cat "threshold not met (" (
                  cat (n.decimal failure_count)
                    (cat "/" (cat (n.decimal p.failure_threshold) ")"))))
            else if already_banned
            then outcome true "source already has an active ban"
            else if leb p.max_bans_per_hour recent_ban_count
            then outcome true "hourly ban safety limit reached"
            else record {
              matched = true;
              should_ban = p.auto_ban;
              simulated = not p.auto_ban;
              reason = "SSH authentication failure threshold reached";
              expires_at = some (now + p.ban_duration);
            }
      ]

-- `DefaultPolicy`
abbrev pub default_policy : DefensePolicy
default_policy = record {
  enabled = false;
  emergency_stop = false;
  auto_ban = false;
  failure_threshold = 10;
  window = 300 * second;
  ban_duration = 900 * second;
  max_bans_per_hour = 10;
  allowlist = "127.0.0.0/8" ∷ "::1/128" ∷ [];
}
