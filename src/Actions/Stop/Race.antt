-- ===== src/Actions/Stop/Race.antt =====
-- Once an emergency stop is committed, a policy command that has not started stays so.
use witshield.Actions.PolicyGrants.{PolicyGrant, store_grant, grant_row}
use witshield.Actions.Lifecycle.PolicyOperations.{
  put_policy_grant-Keeps, cancel_waiting-Keeps, start_action_command-Ends, put_policy-Keeps,
}
use witshield.Actions.Gate.{
  start_command, revoked_message, is_approved_action, start_found, is_requested_action,
  is_authorized, start_unstarted, start_on, is_command_of, call_off, start_action_command,
}
use witshield.Actions.Statement.Rules.{
  Keeps-done, bind-inv, transact-Ends, Keeps-constrained, transact-Keeps, Ends,
}
use witshield.Actions.Lifecycle.Sequences.{perform-R, Special}
use witshield.Actions.Calls.{set_grant, start, create, put_policy, perform_all, perform, Call}
use witshield.Base.{
  ◌&&◌, [], ◌∷◌, All, ℕ, String, Bool, true, false, ◌≡◌, ◌≢◌, refl, sym, ap, ◌∙◌, inl, inr, Option,
  none, some, List, str_eq, eq_iff, Bool-cases, arith,
}
use witshield.Base.Dict.{insert}
use witshield.Defense.Correlator.{DefensePolicy}
use witshield.Actions.Tables.{Mode, ActionRow}
use witshield.Actions.Statement.{
  pure, constrained, insert_audit, change, update_bans, update_actions, fail, read, update_commands,
  ◌>>=◌, fault, done, Outcome, first_where,
}
use witshield.Actions.Statement.Find.{first_where-holds}
use witshield.Actions.Policy.{
  put_defense_policy_and_cancel_queued, store_policy, put_grant, stop_all, bruteforce_grant,
}
use witshield.Actions.Stop.{
  subst, Waits, lookup, Shut-unauthorized, start_other, Closed-kept, Closed-order, CommandRow, Shut,
  Closed, Keeps, ◌∷◌, Tables, AllStopped, IsStopped, true_ne_false,
}
use witshield.Actions.Stop.Grants.{AllStopped-put, AllStopped-put_grant, IsStopped-put}

-- The calls do not lift the stop of the device.
abbrev pub LeavesStopped : String → Call → Type 0
LeavesStopped device_id (put_policy d p now) = d ≡ device_id → p.emergency_stop ≡ true
LeavesStopped device_id (set_grant g) = g.device_id ≡ device_id → g.emergency_stop ≡ true
LeavesStopped device_id _ = Unit

module _ (device_id command_id : String) where
  abbrev R : Tables → Tables → Type 0
  R = Closed device_id command_id

  -- The relation is shown where the command waits under the stop.
  Ends-assume :
      {A : Type 0} (s : Tables) (r : Outcome A)
      → (Shut device_id command_id s.commands s.policies s.grants → Ends R s r)
      → Ends R s r
  Ends-assume s (done a t) k = λ h. k h h
  Ends-assume s (fault e) k = tt

  store_policy-Keeps :
      (d : String) (p : DefensePolicy) (now : ℕ)
      → (d ≡ device_id → p.emergency_stop ≡ true)
      → Keeps R (store_policy d p now)
  unfolding store_policy
  store_policy-Keeps d p now stays =
      Keeps-constrained (Closed-order device_id command_id) _ _ _ (λ s known (waits, stopped, all).
        (
          waits,
          IsStopped-put device_id d p s.policies stays (inr stopped),
          AllStopped-put device_id d p now s.grants stays (inr all),
        ))

  store_grant-Keeps :
      (g : PolicyGrant) (mode : Mode)
      → (g.device_id ≡ device_id → g.emergency_stop ≡ true)
      → Keeps R (store_grant g mode)
  unfolding store_grant
  store_grant-Keeps g mode stays =
      Keeps-constrained (Closed-order device_id command_id) _ _ _ (λ s known (waits, stopped, all).
        (waits, stopped, AllStopped-put_grant device_id (grant_row g mode) s.grants stays all))

  start-Ends : (d k : String) (now : ℕ) (s : Tables) → Ends R s (start_action_command d k now s)
  start-Ends d k now s = Ends-assume s (start_action_command d k now s) (λ shut.
      start_action_command-Ends (Closed-kept device_id command_id) d k now s (λ c found granted.
        elim (Bool-cases (str_eq k command_id && str_eq d device_id)) [
          | inr other ↦
              start_other device_id command_id d k now c other
                (first_where-holds _ s.commands found)
          | inl ours ↦ absurd (
              true_ne_false (
                sym granted
                ∙ Shut-unauthorized device_id command_id s c shut (mine d k s c ours found)))
        ]))
    where
      mine :
          (d k : String) (s : Tables) (c : CommandRow)
          → str_eq k command_id && str_eq d device_id ≡ true
          → first_where (is_command_of k d) s.commands ≡ some c
          → first_where (is_command_of command_id device_id) s.commands ≡ some c
      mine d k s c ours found =
          let same_k : k ≡ command_id = ground (arith, eq_iff k command_id) in
          let same_d : d ≡ device_id = ground (arith, eq_iff d device_id) in
          ap (λ x. first_where (is_command_of x device_id) s.commands) (sym same_k)
          ∙ ap (λ x. first_where (is_command_of k x) s.commands) (sym same_d)
          ∙ found

  special : (c : Call) (s : Tables) → LeavesStopped device_id c → Special R s c
  unfolding perform
  special (put_policy d p now) s stays =
      transact-Keeps (Closed-order device_id command_id)
        (put_policy-Keeps (Closed-kept device_id command_id) d p now
          (store_policy-Keeps d p now stays))
        s
  special (set_grant g) s stays =
      transact-Keeps (Closed-order device_id command_id)
        (put_policy_grant-Keeps (Closed-kept device_id command_id) g
          (λ mode. store_grant-Keeps g mode stays))
        s
  special (start d k now) s stays =
      transact-Ends (Closed-order device_id command_id) (start_action_command d k now) s
        (start-Ends d k now s)
  special (create x nonce_hash actor fresh e) s stays = tt
  special _ s stays = tt

  perform_all-Shut :
      (calls : List Call) (s : Tables)
      → All (LeavesStopped device_id) calls
      → R s (perform_all calls s)
  unfolding perform_all
  perform_all-Shut [] s stays h = h
  perform_all-Shut (c ∷ calls) s (stay, stays) h =
      perform_all-Shut calls (perform c s) stays
        (perform-R (Closed-kept device_id command_id) c s (special c s stay) h)

-- A command that is called off is not answered with leave to run.
call_off-false :
    (c : CommandRow) (calls_off : ActionRow → Bool) (with_ban : Bool) (message event : String)
    (now : ℕ) (s t : Tables)
    → call_off c calls_off with_ban message event now s ≢ done true t
unfolding call_off ◌>>=◌ update_commands update_actions update_bans change insert_audit constrained
    pure
call_off-false c calls_off with_ban message event now s t h = ground arith

start_unauthorized :
    (o : Option Bool) (c : CommandRow) (now : ℕ) (s t : Tables)
    → is_authorized c s ≡ false
    → c.started_at ≡ none
    → start_on o c now s ≢ done true t
unfolding start_on start_unstarted ◌>>=◌ read fail
start_unauthorized none c now s t closed unstarted h = cc
start_unauthorized (some true) c now s t closed unstarted h = call_off-false c _ _ _ _ now s t h
start_unauthorized (some false) c now s t closed unstarted h = ground (
  arith,
  call_off-false c (is_requested_action c) true "action command expired before privileged execution"
      "command_expired_before_execution" now s t,
  call_off-false c (is_approved_action c) (str_eq c.payload.type "temporary_ip_ban")
      (revoked_message c.payload.type) "policy_command_cancelled_before_execution" now s t,
)

module _ (device_id command_id : String) where
  gate_refuses :
      (s : Tables)
      → Shut device_id command_id s.commands s.policies s.grants
      → (now : ℕ) (t : Tables) → start_action_command device_id command_id now s ≢ done true t
  unfolding start_action_command start_found start_command pure fail
  gate_refuses s ((c, found, queued), stopped, grants) now t h =
      let closed =
        Shut-unauthorized device_id command_id s c ((c, found, queued), stopped, grants) found in
      ground
        (arith, found, start_unauthorized (lookup c.device_id s.devices) c now s t closed queued.0)

  store_policy-Shut :
      (p : DefensePolicy) (now : ℕ) (s u : Tables) (x : Unit {0})
      → store_policy device_id p now s ≡ done x u
      → p.emergency_stop ≡ true
      → Waits device_id command_id s.commands
      → Shut device_id command_id u.commands u.policies u.grants
  unfolding store_policy constrained
  store_policy-Shut p now s u x h stop waits =
      let same : u.commands ≡ s.commands = ground arith in
      let policies : u.policies ≡ insert device_id p s.policies = ground arith in
      let grants : u.grants
          ≡ stop_all device_id p.emergency_stop now
              (put_grant (bruteforce_grant device_id p now) s.grants) =
        ground arith in
      (
        subst (Waits device_id command_id) (sym same) waits,
        subst (IsStopped device_id) (sym policies)
            (IsStopped-put device_id device_id p s.policies (λ _. stop) (inl refl)),
        subst (AllStopped device_id) (sym grants)
            (AllStopped-put device_id device_id p now s.grants (λ _. stop) (inl refl)),
      )

  put_policy-Shut :
      (p : DefensePolicy) (now : ℕ) (s t : Tables) {n : ℕ}
      → put_defense_policy_and_cancel_queued device_id p now s ≡ done n t
      → p.emergency_stop ≡ true
      → Waits device_id command_id s.commands
      → Shut device_id command_id t.commands t.policies t.grants
  unfolding put_defense_policy_and_cancel_queued
  put_policy-Shut p now s t h stop waits =
      let (x, u, stored, rest) = bind-inv (store_policy device_id p now) _ s h in
      Keeps-done
        (cancel_waiting-Keeps (Closed-kept device_id command_id) device_id p.emergency_stop now)
        rest (store_policy-Shut p now s u x stored stop waits)

-- A policy command that has not started when an emergency stop of its device is committed never starts
-- under the stop: whatever calls follow, but for a policy or a grant of the device without the stop, it
-- is still unstarted, and the gate does not let it run.
pub stop_holds :
    (device_id command_id : String) (p : DefensePolicy) (now : ℕ) (s t : Tables) (n : ℕ)
    (calls : List Call)
    → put_defense_policy_and_cancel_queued device_id p now s ≡ done n t
    → p.emergency_stop ≡ true
    → Waits device_id command_id s.commands
    → All (LeavesStopped device_id) calls
    → Waits device_id command_id (perform_all calls t).commands
      × ((now' : ℕ) (u : Tables)
          → start_action_command device_id command_id now' (perform_all calls t) ≢ done true u)
stop_holds device_id command_id p now s t n calls h stop waits stays =
    let shut =
      perform_all-Shut device_id command_id calls t stays
        (put_policy-Shut device_id command_id p now s t h stop waits) in
    (shut.0, gate_refuses device_id command_id (perform_all calls t) shut)
