-- ===== src/Defense/Examples.antt =====
-- Runs of the defense at concrete inputs.
use witshield.Base.{
  ℕ, String, ◌≡◌, refl, ◌↔◌, true, false, Option, none, some, [], ◌∷◌, ◌==◌, str_eq, if◌then◌else◌,
}
use witshield.Defense.Correlator.{Net, DefensePolicy, default_policy, validate_policy, evaluate}
use witshield.Defense.Correlator.Decisions.{Banned, evaluate_bans}

-- Three addresses: 0 of this host, 1 of the administrator, and 2; the network 127.0.0.0/8 has 0.
address : String → Option ℕ
address s =
    if str_eq s "127.0.0.1"
    then some 0
    else if str_eq s "198.51.100.7"
    then some 1
    else if str_eq s "203.0.113.4"
    then some 2
    else none

network : String → Option ℕ
network s = if str_eq s "127.0.0.0/8" then some 0 else if str_eq s "::1/128" then some 3 else none

abbrev net : Net
net = record {
  Ip = ℕ;
  Network = ℕ;
  parse_ip = address;
  parse_cidr = network;
  equal = ◌==◌;
  contains = ◌==◌;
  base = λ n. n;
  is_loopback = λ n. n == 0;
  is_unspecified = λ _. false;
  text = λ n. if n == 0 then "127.0.0.1" else "198.51.100.7";
  trim_space = λ s. s;
  decimal = λ _. "0";
  quote = λ s. s;
}

abbrev policy : DefensePolicy
policy = record default_policy {
  enabled = true;
  auto_ban = true;
  allowlist = "198.51.100.7" ∷ "127.0.0.0/8" ∷ [];
}

-- The default policy is valid, and so is the administrator's; without the administrator it is not.
policies : (validate_policy net default_policy ≡ none) × (validate_policy net policy ≡ none)
unfolding validate_policy address network
policies = (refl, refl)

evaluate_bans_example :
    ((evaluate net policy "203.0.113.4" 10 3 false 5).should_ban ≡ true)
    ↔ Banned net policy 2 10 3 false
unfolding address
evaluate_bans_example = evaluate_bans net policy "203.0.113.4" 2 10 3 false 5 refl

ban_run : (evaluate net policy "203.0.113.4" 10 3 false 5).should_ban ≡ true
unfolding evaluate address network
ban_run = refl
