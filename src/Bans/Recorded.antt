-- ===== src/Bans/Recorded.antt =====
-- What stands behind a ban that `ProcessSecurityEvent` records.
use mathlib.Core.Path.{subst}
use witshield.Base.{ℕ, String, Bool, false, sym, arith, ◌≡◌, ◌≢◌, refl, [], ◌∷◌, ◌++◌}
use witshield.Actions.Tables.{Tables, BanRow, BanStatus}
use witshield.Actions.Statement.{done, read, pure, ◌>>=◌}
use witshield.Actions.Statement.Rules.{bind-inv}
use witshield.Actions.Policy.{pending_ban, insert_policy_action_and_enqueue}
use witshield.Defense.Correlator.{Net, DefensePolicy}
use witshield.Bans.Targets.{Netip}
use witshield.Bans.Verdict.{Verdict, idle, simulate, ban, judge}
use witshield.Bans.Verdicts.{Justified, judge-Justified}
use witshield.Bans.Process.{
  Encoding, ProcessOutcome, carry_out, process_failure, simulated_ban, temporary_ban, policy_action,
  ban_command,
}
use witshield.Bans.Hourly.{enqueue-bans}
use witshield.Actions.Statement.{insert_ban}

module _ (n : Net) (a : Netip) (c : Encoding) (p : DefensePolicy) (device_id source_ip : String)
    (observer_only : Bool) (failure_count now : ℕ) where
  -- The pending ban that is queued with the action of the outcome until it expires.
  pub record Recorded (s t : Tables) (o : ProcessOutcome) (expires_at : ℕ) : Type 0 where
    pub reasons :
        Justified n a p device_id source_ip observer_only failure_count now s.bans expires_at
    pub row : BanRow
    pub added : t.bans ≡ s.bans ++ row ∷ []
    pub of_device : row.device_id ≡ device_id
    pub of_source : row.source_ip ≡ source_ip
    pub of_action : row.action_id ≡ o.action_id
    pub of_outcome : row.id ≡ o.ban_id
    pub waiting : row.status ≡ BanStatus.pending
    pub real : row.simulated ≡ false
    pub begun : row.created_at ≡ now
    pub until : row.expires_at ≡ expires_at

  carry_out-Recorded :
      (s t : Tables) (o : ProcessOutcome) (v : Verdict)
      → judge n a p device_id source_ip observer_only failure_count now s.bans ≡ v
      → carry_out n a c p device_id source_ip observer_only failure_count now v s ≡ done o t
      → o.action_id ≢ ""
      → (expires_at : ℕ) × Recorded s t o expires_at
  unfolding carry_out
  carry_out-Recorded s t o (idle e) j h some_action =
      let empty : o.action_id ≡ "" = unfold pure in cc in elim (some_action empty) [ ]
  carry_out-Recorded s t o (simulate e x) j h some_action =
      let (_, v, _, last) =
        bind-inv
          (insert_ban
            (simulated_ban n a c p device_id source_ip observer_only failure_count now e x))
          (λ _. pure _) s h in
      let empty : o.action_id ≡ "" = unfold pure in cc in elim (some_action empty) [ ]
  carry_out-Recorded s t o (ban e x) j h some_action =
      let b = temporary_ban n a c p device_id source_ip observer_only failure_count now e x in
      let action = policy_action n a c p device_id source_ip observer_only failure_count now in
      let command = ban_command n a c p device_id source_ip observer_only failure_count now in
      let (u, v, first, last) =
        bind-inv (insert_policy_action_and_enqueue action command b "policy:ssh_bruteforce")
          (λ _. pure _) s h in
      let same : v ≡ t = unfold pure in cc in
      let action_of : o.action_id ≡ c.action_id = unfold pure in ground arith in
      let ban_of : o.ban_id ≡ c.ban_id = unfold pure in ground arith in
      (
        x,
        record {
          reasons =
              judge-Justified n a p device_id source_ip observer_only failure_count now s.bans e x
                j;
          row = pending_ban b action.id;
          added =
              subst (λ w. w.bans ≡ s.bans ++ pending_ban b action.id ∷ []) same
                (enqueue-bans action command b "policy:ssh_bruteforce" s v u first);
          of_device = unfold pending_ban in unfold temporary_ban in refl;
          of_source = unfold pending_ban in unfold temporary_ban in refl;
          of_action = unfold pending_ban in unfold policy_action in sym action_of;
          of_outcome = unfold pending_ban in unfold temporary_ban in sym ban_of;
          waiting = unfold pending_ban in refl;
          real = unfold pending_ban in refl;
          begun = unfold pending_ban in unfold temporary_ban in refl;
          until = unfold pending_ban in unfold temporary_ban in refl;
        },
      )

  -- Where the outcome of a login failure names an action, one ban of the device and the source has
  -- been recorded, with the ids of the action and of the ban that the outcome names, pending, not
  -- simulated, and created now; and for a reason: the policy is enabled, not stopped,
  -- and bans by itself; the source is an address that it does not list, and that is public; the
  -- failures reach the threshold; the device does more than observe; the source has no live ban
  -- and none in the cooldown; the bans of the hour are below their limit; and the ban ends after
  -- the time of the policy.
  pub ban_stands :
      (s t : Tables) (o : ProcessOutcome)
      → process_failure n a c p device_id source_ip observer_only failure_count now s ≡ done o t
      → o.action_id ≢ ""
      → (expires_at : ℕ) × Recorded s t o expires_at
  unfolding process_failure ◌>>=◌ read
  ban_stands s t o h some_action =
      carry_out-Recorded s t o
        (judge n a p device_id source_ip observer_only failure_count now s.bans) refl h some_action
