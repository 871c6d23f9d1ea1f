-- ===== src/Bans/Verdicts.antt =====
-- When a login failure leads to a ban.
use witshield.Base.{
  ◌+◌, ℕ, ◌-◌, String, Bool, true, false, ◌≡◌, inl, inr, some, List, ltb, Bool-cases, Option-cases,
  arith,
}
use witshield.Actions.Tables.{BanRow}
use witshield.Actions.Statement.{count_where, is_none}
use witshield.Actions.Policy.{is_live_ban_of, is_recent_ban_of}
use witshield.Defense.Correlator.{Net, DefensePolicy, Evaluation, evaluate, hour}
use witshield.Defense.Correlator.Decisions.{Banned, evaluate_bans}
use witshield.Bans.Targets.{Netip, validate_temporary_ip_ban_target}
use witshield.Bans.Verdict.{
  ban, judge, judge_at, judge_matched, judge_ban, judge_simulation, simulated_for, cooldown,
  evaluation, is_attempt_against,
}

module _ (n : Net) (a : Netip) (p : DefensePolicy) (device_id source_ip : String)
    (observer_only : Bool) (failure_count now : ℕ) (bans : List BanRow) where
  abbrev pub recent_bans : ℕ
  recent_bans = count_where (is_recent_ban_of device_id (now - hour)) bans

  abbrev pub live_bans : ℕ
  live_bans = count_where (is_live_ban_of device_id source_ip now) bans

  -- The reasons for a ban.
  pub record Justified (expires_at : ℕ) : Type 0 where
    pub ip : n.Ip
    pub source : n.parse_ip (n.trim_space source_ip) ≡ some ip
    pub allowed : Banned n p ip failure_count recent_bans (ltb 0 live_bans)
    pub target : a.Addr
    pub public : validate_temporary_ip_ban_target a source_ip ≡ some target
    pub acting : observer_only ≡ false
    pub cooled : count_where (is_attempt_against device_id source_ip (now - cooldown p)) bans ≡ 0
    pub expiry : expires_at ≡ now + p.ban_duration

  judge_ban-inv :
      (e e' : Evaluation) (x y : ℕ)
      → judge_matched n a p device_id source_ip observer_only failure_count now bans e x ≡ ban e' y
      → (e.should_ban ≡ true)
        × (x ≡ y)
        × (is_none (validate_temporary_ip_ban_target a source_ip) ≡ false)
        × (observer_only ≡ false)
        × (count_where (is_attempt_against device_id source_ip (now - cooldown p)) bans ≡ 0)
  unfolding judge_matched judge_ban judge_simulation simulated_for
  judge_ban-inv e e' x y h = ground arith

  source_is :
      (recent : ℕ) (live : Bool)
      → (evaluate n p source_ip failure_count recent live now).should_ban ≡ true
      → (ip : n.Ip) × (n.parse_ip (n.trim_space source_ip) ≡ some ip)
  unfolding evaluate
  source_is recent live h = elim (Option-cases (n.parse_ip (n.trim_space source_ip))) [
    | inl e ↦ ground (arith, e, h)
    | inr found ↦ found
  ]

  expiry_is :
      (recent : ℕ) (live : Bool)
      → (evaluate n p source_ip failure_count recent live now).should_ban ≡ true
      → (evaluate n p source_ip failure_count recent live now).expires_at
        ≡ some (now + p.ban_duration)
  unfolding evaluate
  expiry_is recent live h = ground arith

  target_is :
      is_none (validate_temporary_ip_ban_target a source_ip) ≡ false
      → (target : a.Addr) × (validate_temporary_ip_ban_target a source_ip ≡ some target)
  target_is h = elim (Option-cases (validate_temporary_ip_ban_target a source_ip)) [
    | inl e ↦ ground (arith, e, h)
    | inr found ↦ found
  ]

  -- A ban is decided only where the policy bans the source, which is a public address, the device
  -- does more than observe, and the source had no ban in the cooldown.
  pub judge-Justified :
      (e : Evaluation) (x : ℕ)
      → judge n a p device_id source_ip observer_only failure_count now bans ≡ ban e x
      → Justified x
  unfolding judge judge_at
  judge-Justified e x h =
      let d = evaluation n a p device_id source_ip observer_only failure_count now bans in
      elim (Option-cases d.expires_at) [
        | inl o ↦ ground (arith, o, h)
        | inr (y, o) ↦ elim (Bool-cases d.matched) [
          | inr m ↦ ground (arith, o, m, h)
          | inl m ↦
              let matched : judge_matched n a p device_id source_ip observer_only failure_count now
                    bans d y
                  ≡ ban e x =
                ground (arith, o, m, h) in
              let (bans_it, same, public, acting, cooled) = judge_ban-inv d e y x matched in
              let (ip, source) = source_is recent_bans (ltb 0 live_bans) bans_it in
              let (target, valid) = target_is public in
              record {
                ip = ip;
                source = source;
                allowed =
                    (evaluate_bans n p source_ip ip failure_count recent_bans (ltb 0 live_bans) now
                        source).0
                      bans_it;
                target = target;
                public = valid;
                acting = acting;
                cooled = cooled;
                expiry = ground (arith, same, o, expiry_is recent_bans (ltb 0 live_bans) bans_it);
              }
        ]
      ]
