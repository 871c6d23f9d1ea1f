-- ===== src/Actions/Lifecycle/PolicyOperations.antt =====
-- The policy actions, the emergency stop, and the gate keep what their statements keep. What stores the
-- policy and what starts a command is an argument, since some relations allow only some of these.
use witshield.Actions.PolicyGrants.{
  PolicyGrant, put_policy_grant, store_grant, known_mode, check_types,
}
use witshield.Actions.Tables.{
  Mode, scan, execute_action, rollback_action, confirm_action, CommandType,
}
use witshield.Actions.Lifecycle.Rows.{
  requested_of_requested_action, requested_of_approved, approved_of_approved_action,
  started_action-Step, policy_row-Fresh, called_off-Step,
}
use witshield.Actions.Gate.{
  contains, is_action_command, is_command_of, start_action_command, start_on, start_command,
  start_found, is_authorized, is_stale, mark_started, is_requested, begin_on, start_unstarted,
  extend_by, expect_status, call_off, begin_execution, extend_ban,
}
use witshield.Actions.Approval.{Action}
use witshield.Actions.Policy.{
  cancel_waiting, limited, create_policy_action_and_enqueue_limited, TemporaryBan, store_policy,
  put_defense_policy_and_cancel_queued, cancel_queued, insert_policy_action_and_command,
  cancel_each, dropped, insert_policy_action_and_enqueue,
}
use witshield.Base.{
  if◌then◌else◌, sym, len, true, false, ℕ, String, Bool, not, ◌≡◌, refl, Option, none, some, List,
  [], ◌∷◌, ◌==◌, str_eq, ◌||◌, arith,
}
use witshield.Base.Dict.{lookup}
use witshield.Defense.Correlator.{DefensePolicy}
use witshield.Actions.Statement.{
  fail, invalid, read, ◌>>=◌, first_where, no_rows, not_found, conflict, policy_stopped,
}
use witshield.Actions.Statement.Rules.{
  Ends-if, Relation, Keeps, Keeps-pure, Keeps-fail, Keeps-require, Keeps-if, Keeps-bind, Keeps-read,
  Ends,
}
use witshield.Actions.Lifecycle.{
  is_some, confirming, rolling_back, ActionStatus, ActionRow, Tables, update_commands, CommandRow,
  DeviceCommand, KeptByActions,
}
use witshield.Actions.Lifecycle.Operations.{
  Keeps-audit, Keeps-bans, Keeps-insert_ban, expire_draft_actions_tx-Keeps, ensure-Keeps,
}

granted : (b : Bool) → not b ≡ false → b ≡ true
granted true h = refl
granted false h = sym h

module _ {R : Relation} (k : KeptByActions R) where
  open k use {order, quiet, moves, adds, queues, ends}

  insert_command-Keeps :
      (x : Action) (cmd : DeviceCommand) (policy_actor : String)
      → Keeps R (insert_policy_action_and_command x cmd policy_actor)
  unfolding insert_policy_action_and_command
  insert_command-Keeps x cmd policy_actor =
      Keeps-bind order (expire_draft_actions_tx-Keeps k _ _) (λ _.
        Keeps-bind order (ensure-Keeps k _) (λ _.
          Keeps-bind order (adds _ (policy_row-Fresh x policy_actor))
            (λ _. Keeps-bind order (Keeps-audit k _ _ _ _ _) (λ _. queues cmd))))

  pub insert_enqueue-Keeps :
      (x : Action) (cmd : DeviceCommand) (ban : TemporaryBan) (policy_actor : String)
      → Keeps R (insert_policy_action_and_enqueue x cmd ban policy_actor)
  unfolding insert_policy_action_and_enqueue
  insert_enqueue-Keeps x cmd ban policy_actor =
      Keeps-bind order (insert_command-Keeps x cmd policy_actor) (λ _. Keeps-insert_ban k _)

  module _ (x : Action) (cmd : DeviceCommand) (ban : TemporaryBan) (policy_actor : String)
      (max_per_hour since : ℕ) where
    limited-Keeps :
        (s : Tables) (o : Option DefensePolicy)
        → Ends R s (limited o x cmd ban policy_actor max_per_hour since s s)
    unfolding limited
    limited-Keeps s none = (Keeps-fail order policy_stopped).at s
    limited-Keeps s (some p) =
        (Keeps-if order (not p.enabled || p.emergency_stop || not p.auto_ban)
            (λ _. Keeps-fail order policy_stopped)
            (λ _. Keeps-bind order (Keeps-require order _ _) (λ _.
              Keeps-bind order (Keeps-require order _ _)
                (λ _. insert_enqueue-Keeps x cmd ban policy_actor)))).at
          s

    pub create_limited-Keeps :
        Keeps R (create_policy_action_and_enqueue_limited x cmd ban policy_actor max_per_hour since)
    unfolding create_policy_action_and_enqueue_limited
    create_limited-Keeps = Keeps-read order _ (λ s. limited-Keeps s (lookup x.device_id s.policies))

  pub dropped-Keeps :
      (p : CommandRow → Bool) (message : String) (now : ℕ)
      → Keeps R (update_commands p (dropped message now))
  unfolding dropped
  dropped-Keeps p message now = ends p _ (λ c. refl) (λ c. refl) (λ c. refl) (λ c. refl) (λ c. refl)

  cancel_queued-Keeps :
      (now : ℕ) (command_id action_id : String) → Keeps R (cancel_queued now command_id action_id)
  unfolding cancel_queued
  cancel_queued-Keeps now command_id action_id = Keeps-bind order (dropped-Keeps _ _ _) (λ _.
      Keeps-bind order
        (moves _ _ (λ r h. called_off-Step _ now r (requested_of_approved r.status (ground arith))))
        (λ _. Keeps-bind order (Keeps-bans k _ _) (λ _. Keeps-audit k _ _ _ _ _)))

  cancel_each-Keeps : (now : ℕ) (items : List (String × String)) → Keeps R (cancel_each now items)
  unfolding cancel_each
  cancel_each-Keeps now [] = Keeps-pure order tt
  cancel_each-Keeps now ((command_id, action_id) ∷ items) =
      Keeps-bind order (cancel_queued-Keeps now command_id action_id)
        (λ _. cancel_each-Keeps now items)

  pub cancel_waiting-Keeps :
      (device_id : String) (stop : Bool) (now : ℕ) → Keeps R (cancel_waiting device_id stop now)
  unfolding cancel_waiting
  cancel_waiting-Keeps device_id stop now = Keeps-read order _ (λ s.
      (Keeps-if order (not stop) (λ _. Keeps-pure order _)
          (λ _. Keeps-bind order (cancel_each-Keeps now _) (λ _. Keeps-pure order _))).at
        s)

  pub put_policy-Keeps :
      (device_id : String) (p : DefensePolicy) (now : ℕ)
      → Keeps R (store_policy device_id p now)
      → Keeps R (put_defense_policy_and_cancel_queued device_id p now)
  unfolding put_defense_policy_and_cancel_queued
  put_policy-Keeps device_id p now stores =
      Keeps-bind order stores (λ _. cancel_waiting-Keeps device_id p.emergency_stop now)

  known_mode-Keeps : (text : String) → Keeps R (known_mode text)
  unfolding known_mode
  known_mode-Keeps text =
      Keeps-if order (str_eq text "observe") (λ _. Keeps-pure order _)
        (λ _.
          Keeps-if order (str_eq text "assist") (λ _. Keeps-pure order _)
            (λ _.
              Keeps-if order (str_eq text "auto_low_risk") (λ _. Keeps-pure order _)
                (λ _.
                  Keeps-if order (str_eq text "enhanced") (λ _. Keeps-pure order _)
                    (λ _. Keeps-fail order _))))

  check_types-Keeps :
      (allowed : Option String) (seen types : List String)
      → Keeps R (check_types allowed seen types)
  unfolding check_types
  check_types-Keeps allowed seen [] = Keeps-pure order tt
  check_types-Keeps allowed seen (type ∷ types) =
      Keeps-if order _ {m = fail (invalid "unsupported action type for policy capability")}
        {n = if contains type seen
          then fail (invalid "duplicate action type in policy capability")
          else check_types allowed (type ∷ seen) types}
        (λ _. Keeps-fail order _)
        (λ _.
          Keeps-if order (contains type seen) (λ _. Keeps-fail order _)
            (λ _. check_types-Keeps allowed (type ∷ seen) types))

  pub put_policy_grant-Keeps :
      (g : PolicyGrant)
      → ((mode : Mode) → Keeps R (store_grant g mode))
      → Keeps R (put_policy_grant g)
  unfolding put_policy_grant
  put_policy_grant-Keeps g stores = Keeps-bind order (Keeps-require order _ _) (λ _.
      Keeps-bind order (Keeps-require order _ _) (λ _.
        Keeps-bind order (known_mode-Keeps g.mode) (λ mode.
          Keeps-bind order (Keeps-require order _ _) (λ _.
            Keeps-bind order (check_types-Keeps _ [] g.allowed_action_types) (λ _. stores mode)))))

  pub call_off-Keeps :
      (c : CommandRow) (calls_off : ActionRow → Bool) (with_ban : Bool) (message event : String)
      (now : ℕ)
      → ((r : ActionRow) → calls_off r ≡ true → is_requested r.status ≡ true)
      → Keeps R (call_off c calls_off with_ban message event now)
  unfolding call_off
  call_off-Keeps c calls_off with_ban message event now h =
      Keeps-bind order (dropped-Keeps _ _ _) (λ _.
        Keeps-bind order (moves _ _ (λ r e. called_off-Step _ now r (h r e))) (λ _.
          Keeps-bind order (Keeps-bans k _ _)
            (λ _. Keeps-bind order (Keeps-audit k _ _ _ _ _) (λ _. Keeps-pure order false))))

  extend_by-Keeps :
      (ttl : Option ℕ) (action_id : String) (now : ℕ) → Keeps R (extend_by ttl action_id now)
  unfolding extend_by
  extend_by-Keeps none action_id now = Keeps-fail order _
  extend_by-Keeps (some ttl) action_id now = Keeps-bans k _ _

  extend_ban-Keeps : (c : CommandRow) (now : ℕ) → Keeps R (extend_ban c now)
  unfolding extend_ban
  extend_ban-Keeps c now =
      Keeps-if order (str_eq c.payload.type "temporary_ip_ban") (λ _. extend_by-Keeps _ _ now)
        (λ _. Keeps-pure order tt)

  begin_execution-Keeps : (c : CommandRow) (now : ℕ) → Keeps R (begin_execution c now)
  unfolding begin_execution
  begin_execution-Keeps c now =
      Keeps-bind order
        (moves _ _ (λ r h. started_action-Step now r (approved_of_approved_action c r h)))
        (λ n. Keeps-read order _ (λ s.
          (Keeps-bind order
              (Keeps-if order (n == 1) (λ _. Keeps-audit k _ _ _ _ _)
                (λ _. Keeps-require order _ _))
              (λ _. extend_ban-Keeps c now)).at
            s))

  expect_status-Keeps : (c : CommandRow) (status : ActionStatus) → Keeps R (expect_status c status)
  unfolding expect_status
  expect_status-Keeps c status = Keeps-read order _ (λ s. (Keeps-require order _ _).at s)

  begin_on-Keeps : (type : CommandType) (c : CommandRow) (now : ℕ) → Keeps R (begin_on type c now)
  unfolding begin_on
  begin_on-Keeps execute_action c now = begin_execution-Keeps c now
  begin_on-Keeps rollback_action c now = expect_status-Keeps c rolling_back
  begin_on-Keeps confirm_action c now = expect_status-Keeps c confirming
  begin_on-Keeps scan c now = Keeps-fail order conflict

  -- The gate marks a command as started only where it is authorized.
  module _ (c : CommandRow) (now : ℕ) (s : Tables)
      (starts : is_authorized c s ≡ true → Keeps R (mark_started c now)) where
    start_unstarted-Ends : Ends R s (start_unstarted c now s)
    unfolding start_unstarted ◌>>=◌ read
    start_unstarted-Ends =
        (Keeps-if order (is_stale c now)
            (λ _. call_off-Keeps c _ _ _ _ now (requested_of_requested_action c))
            (λ _.
              Keeps-if order (not (is_authorized c s))
                (λ _.
                  call_off-Keeps c _ _ _ _ now
                    (λ r h. requested_of_approved r.status (approved_of_approved_action c r h)))
                (λ e.
                  Keeps-bind order (begin_on-Keeps c.type c now)
                    (λ _. starts (granted (is_authorized c s) e))))).at
          s

    start_on-Ends : (o : Option Bool) → Ends R s (start_on o c now s)
    unfolding start_on
    start_on-Ends none = (Keeps-fail order no_rows).at s
    start_on-Ends (some true) =
        (call_off-Keeps c _ _ _ _ now (requested_of_requested_action c)).at s
    start_on-Ends (some false) =
        Ends-if R s (is_some c.started_at) _ _ ((Keeps-pure order true).at s) start_unstarted-Ends

    start_command-Ends : Ends R s (start_command c now s)
    unfolding start_command
    start_command-Ends = Ends-if R s (is_some c.completed_at) _ _ ((Keeps-pure order false).at s) (
        Ends-if R s (not (is_action_command c.type)) _ _ ((Keeps-fail order conflict).at s) (
          Ends-if R s (len c.payload.action_id == 0) _ _ ((Keeps-fail order _).at s)
            (start_on-Ends (lookup c.device_id s.devices))))

  found_command-Ends :
      (o : Option CommandRow) (now : ℕ) (s : Tables)
      → ((c : CommandRow) → o ≡ some c → is_authorized c s ≡ true → Keeps R (mark_started c now))
      → Ends R s (start_found o now s)
  unfolding start_found
  found_command-Ends none now s starts = (Keeps-fail order not_found).at s
  found_command-Ends (some c) now s starts = start_command-Ends c now s (starts c refl)

  pub start_action_command-Ends :
      (device_id command_id : String) (now : ℕ) (s : Tables)
      → ((c : CommandRow)
          → first_where (is_command_of command_id device_id) s.commands ≡ some c
          → is_authorized c s ≡ true
          → Keeps R (mark_started c now))
      → Ends R s (start_action_command device_id command_id now s)
  unfolding start_action_command
  start_action_command-Ends device_id command_id now s starts =
      found_command-Ends (first_where (is_command_of command_id device_id) s.commands) now s starts
