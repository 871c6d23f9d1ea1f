-- ===== src/Defense/Correlator/Decisions.antt =====
-- Whom the defense bans (internal/defense/correlator.go).
use witshield.Base.{
  ◌≢◌, sym, ◌∙◌, Option-cases, refl, ℕ, ◌*◌, ◌≤◌, ◌<◌, String, ◌≡◌, ◌↔◌, inl, inr, Bool, true,
  false, none, some, List, [], ◌∷◌, Bool-cases, arith, Listed, first, later,
}
use witshield.Defense.Correlator.{
  second, hour, Net, DefensePolicy, names_outside, has_non_loopback_allowlist, is_entry,
  invalid_entry, validate_policy, covers, allowlisted, evaluate,
}

true_ne_false : true ≢ false
true_ne_false e = cc

module _ (n : Net) where
  allowlisted-Listed :
      (ip : n.Ip) (entry : String) (entries : List String)
      → Listed entry entries
      → covers n ip entry ≡ true
      → allowlisted n ip entries ≡ true
  unfolding allowlisted
  allowlisted-Listed ip entry [] l h = elim l [ ]
  allowlisted-Listed ip entry (_ ∷ rest) first h = ground arith
  allowlisted-Listed ip entry (other ∷ rest) (later l) h =
      ground (arith, allowlisted-Listed ip entry rest l h)

  -- The entry is neither the address itself nor a network that contains it.
  abbrev Misses : n.Ip → String → Type 0
  Misses ip entry =
      ((parsed : n.Ip) → n.parse_ip entry ≡ some parsed → n.equal parsed ip ≡ false)
      × ((network : n.Network) → n.parse_cidr entry ≡ some network → n.contains network ip ≡ false)

  Misses-covers : (ip : n.Ip) (entry : String) → covers n ip entry ≡ false → Misses ip entry
  unfolding covers
  Misses-covers ip entry h = (λ parsed e. ground arith, λ network e. ground arith)

  covers-Misses : (ip : n.Ip) (entry : String) → Misses ip entry → covers n ip entry ≡ false
  unfolding covers
  covers-Misses ip entry (addresses, networks) = elim (Option-cases (n.parse_ip entry)) [
    | inl e ↦ elim (Option-cases (n.parse_cidr entry)) [
      | inl f ↦ ground arith
      | inr (network, f) ↦ let out = networks network f in ground arith
    ]
    | inr (parsed, e) ↦
        let apart = addresses parsed e in
        elim (Option-cases (n.parse_cidr entry)) [
          | inl f ↦ ground arith
          | inr (network, f) ↦ let out = networks network f in ground arith
        ]
  ]

  allowlisted-Misses :
      (ip : n.Ip) (entries : List String)
      → ((entry : String) → Listed entry entries → Misses ip entry)
      → allowlisted n ip entries ≡ false
  unfolding allowlisted
  allowlisted-Misses ip [] h = refl
  allowlisted-Misses ip (entry ∷ rest) h =
      let head = covers-Misses ip entry (h entry first) in
      let tail = allowlisted-Misses ip rest (λ other l. h other (later l)) in ground arith

  Misses-allowlisted :
      (ip : n.Ip) (entries : List String)
      → allowlisted n ip entries ≡ false
      → (entry : String) → Listed entry entries
      → Misses ip entry
  Misses-allowlisted ip entries h entry l =
      Misses-covers ip entry (elim (Bool-cases (covers n ip entry)) [
        | inl e ↦ absurd (true_ne_false (sym (allowlisted-Listed ip entry entries l e) ∙ h))
        | inr e ↦ e
      ])

  -- The reasons that the source is banned.
  pub record Banned (p : DefensePolicy) (ip : n.Ip) (failure_count recent_ban_count : ℕ)
      (already_banned : Bool) : Type 0 where
    pub enabled : p.enabled ≡ true
    pub running : p.emergency_stop ≡ false
    pub automatic : p.auto_ban ≡ true
    pub unlisted : (entry : String) → Listed entry p.allowlist → Misses ip entry
    pub over_threshold : p.failure_threshold ≤ failure_count
    pub new : already_banned ≡ false
    pub room : recent_ban_count < p.max_bans_per_hour

  module _ (p : DefensePolicy) (source_ip : String) (ip : n.Ip) (failure_count recent_ban_count : ℕ)
      (already_banned : Bool) (now : ℕ) where
    evaluate_bans_only :
        n.parse_ip (n.trim_space source_ip) ≡ some ip
        → (evaluate n p source_ip failure_count recent_ban_count already_banned now).should_ban
          ≡ true
        → Banned p ip failure_count recent_ban_count already_banned
    unfolding evaluate
    evaluate_bans_only h b = record {
      enabled = ground arith;
      running = ground arith;
      automatic = ground arith;
      unlisted = Misses-allowlisted ip p.allowlist (ground arith);
      over_threshold = ground arith;
      new = ground arith;
      room = ground arith;
    }

    evaluate_bans_all :
        n.parse_ip (n.trim_space source_ip) ≡ some ip
        → Banned p ip failure_count recent_ban_count already_banned
        → (evaluate n p source_ip failure_count recent_ban_count already_banned now).should_ban
          ≡ true
    unfolding evaluate
    evaluate_bans_all h b =
        let e1 = b.enabled in
        let e2 = b.running in
        let e3 = b.automatic in
        let e4 = allowlisted-Misses ip p.allowlist b.unlisted in
        let e5 = b.over_threshold in let e6 = b.new in let e7 = b.room in ground arith

    -- For a source that is an address, a ban is decided exactly where the policy is enabled and not
    -- stopped, and bans by itself, no entry of its allowlist is an equal address or a network that
    -- contains the address, the failures reach the threshold, the source has no ban yet, and the bans
    -- of the hour are below their limit.
    pub evaluate_bans :
        n.parse_ip (n.trim_space source_ip) ≡ some ip
        → ((evaluate n p source_ip failure_count recent_ban_count already_banned now).should_ban
            ≡ true)
          ↔ Banned p ip failure_count recent_ban_count already_banned
    evaluate_bans h = (evaluate_bans_only h, evaluate_bans_all h)

    -- A source that an entry of the allowlist covers is neither matched nor banned nor simulated,
    -- whatever the policy, the failures and the bans.
    pub evaluate_spares :
        (entry : String)
        → n.parse_ip (n.trim_space source_ip) ≡ some ip
        → Listed entry p.allowlist
        → covers n ip entry ≡ true
        → let e = evaluate n p source_ip failure_count recent_ban_count already_banned now in
          (e.matched ≡ false) × (e.should_ban ≡ false) × (e.simulated ≡ false)
    unfolding evaluate
    evaluate_spares entry h l c = ground (arith, allowlisted-Listed ip entry p.allowlist l c)

  has_outside :
      (entries : List String)
      → has_non_loopback_allowlist n entries ≡ true
      → (entry : String) × Listed entry entries × (names_outside n entry ≡ true)
  unfolding has_non_loopback_allowlist
  has_outside [] h = absurd (ground arith)
  has_outside (entry ∷ rest) h = elim (Bool-cases (names_outside n entry)) [
    | inl e ↦ (entry, first, e)
    | inr e ↦
        let (found, listed, outside) = has_outside rest (ground arith) in
        (found, later listed, outside)
  ]

  -- What a policy that passes validation satisfies.
  pub record Valid (p : DefensePolicy) : Type 0 where
    pub threshold : (3 ≤ p.failure_threshold) × (p.failure_threshold ≤ 100)
    pub window : (10 * second ≤ p.window) × (p.window ≤ 24 * hour)
    pub ban_duration : (60 * second ≤ p.ban_duration) × (p.ban_duration ≤ 24 * hour)
    pub bans : (1 ≤ p.max_bans_per_hour) × (p.max_bans_per_hour ≤ 100)
    pub entries : (entry : String) → Listed entry p.allowlist → is_entry n entry ≡ true
    pub administrator :
        p.auto_ban ≡ true
        → (entry : String) × Listed entry p.allowlist × (names_outside n entry ≡ true)

  entries_valid :
      (entries : List String)
      → invalid_entry n entries ≡ none
      → (entry : String) → Listed entry entries
      → is_entry n entry ≡ true
  unfolding invalid_entry
  entries_valid [] h entry l = elim l [ ]
  entries_valid (_ ∷ rest) h entry first = ground arith
  entries_valid (other ∷ rest) h entry (later l) = entries_valid rest (ground arith) entry l

  -- A policy that passes validation has its numbers in their bounds and only addresses and networks
  -- in its allowlist, and where it bans by itself, an entry that is neither this host nor unspecified.
  pub validate_policy-Valid : (p : DefensePolicy) → validate_policy n p ≡ none → Valid p
  unfolding validate_policy
  validate_policy-Valid p h = record {
    threshold = ground arith;
    window = ground arith;
    ban_duration = ground arith;
    bans = ground arith;
    entries = entries_valid p.allowlist (ground arith);
    administrator = λ a. has_outside p.allowlist (ground arith);
  }
