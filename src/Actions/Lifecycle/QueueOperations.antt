-- ===== src/Actions/Lifecycle/QueueOperations.antt =====
-- The expiry of action commands and the operations of the queue of commands keep what their statements
-- keep (internal/store/reports_commands.go).
use witshield.Base.{
  ℕ, String, true, not, ◌≡◌, refl, inl, inr, Option, none, some, List, [], ◌∷◌, ◌==◌, ◌||◌, len,
  arith,
}
use witshield.Actions.Tables.{
  ActionStatus, approved, executing, awaiting_confirmation, confirming, failed, rolling_back,
  indeterminate, is_status, eq_of_is_status, ActionRow, CommandRow, DeviceCommand, Tables,
}
use witshield.Actions.Statement.{conflict, not_found, Outcome, done, fault, Tx}
use witshield.Actions.Statement.Rules.{
  Relation, Keeps, Keeps-pure, Keeps-fail, Keeps-require, Keeps-if, Keeps-bind, Keeps-read, Ends,
}
use witshield.Actions.Expiry.{
  is_abandoned, is_lost, ended, fail_action, expire_undelivered, lose_action, expire_unanswered,
  expire_stale_action_commands, for_each, lost_command,
}
use witshield.Actions.Queue.{
  is_scan, mapped, insert_or_replace, enqueue_command, supersede_pending_scan_commands, superseded,
  claimed, claim_each, supersede_older, claim_commands, answered, same_answer, complete_command,
}
use witshield.Actions.Lifecycle.{Step, move, Move, KeptByActions}
use witshield.Actions.Lifecycle.Rows.{or_cases}
use witshield.Actions.Lifecycle.Operations.{Keeps-audit, Keeps-bans}
use witshield.Actions.Lifecycle.PolicyOperations.{dropped-Keeps}

ended-Step :
    (message : String) (now : ℕ) (from to : ActionStatus) (r : ActionRow)
    → Move from to
    → is_status r.status from ≡ true
    → Step r (ended to message now r)
unfolding ended
ended-Step message now from to r m h =
    move (ground arith) refl refl (eq_of_is_status r.status from h) refl m

lost-Step :
    (c : CommandRow) (message : String) (now : ℕ) (r : ActionRow)
    → is_lost c r ≡ true
    → Step r (ended indeterminate message now r)
unfolding is_lost
lost-Step c message now r h =
    let step = λ (from : ActionStatus) (m : Move from indeterminate).
      ended-Step message now from indeterminate r m in
    elim (or_cases (is_status r.status executing)
      (is_status r.status rolling_back || is_status r.status confirming) (ground arith)) [
        | inl e ↦ step executing Move.lose_run e
        | inr h ↦
            elim (or_cases (is_status r.status rolling_back) (is_status r.status confirming) h) [
              | inl e ↦ step rolling_back Move.lose_rollback e
              | inr e ↦ step confirming Move.lose_confirmation e
            ]
      ]

abandoned-Step :
    (c : CommandRow) (message : String) (now : ℕ) (r : ActionRow)
    → is_abandoned c r ≡ true
    → Step r (ended failed message now r)
unfolding is_abandoned
abandoned-Step c message now r h =
    let step =
      λ (from : ActionStatus) (m : Move from failed). ended-Step message now from failed r m in
    let waits = is_status r.status awaiting_confirmation || is_status r.status confirming in
    let late = is_status r.status rolling_back || waits in
    elim (or_cases (is_status r.status approved || is_status r.status executing) late
      (ground arith)) [
        | inl h ↦ elim (or_cases (is_status r.status approved) (is_status r.status executing) h) [
          | inl e ↦ step approved Move.fail_early e
          | inr e ↦ step executing Move.fail_run e
        ]
        | inr h ↦ elim (or_cases (is_status r.status rolling_back) waits h) [
          | inl e ↦ step rolling_back Move.fail_back e
          | inr h ↦
              elim (or_cases (is_status r.status awaiting_confirmation)
                (is_status r.status confirming) h) [
                  | inl e ↦ step awaiting_confirmation Move.fail_waiting e
                  | inr e ↦ step confirming Move.fail_confirmation e
                ]
        ]
      ]

module _ {R : Relation} (k : KeptByActions R) where
  open k use {order, quiet, moves, queues, ends}

  for_each-Keeps :
      {A : Type 0} (f : A → Tx (Unit {0})) (xs : List A)
      → ((x : A) → Keeps R (f x))
      → Keeps R (for_each f xs)
  unfolding for_each
  for_each-Keeps f [] kf = Keeps-pure order tt
  for_each-Keeps f (x ∷ xs) kf = Keeps-bind order (kf x) (λ _. for_each-Keeps f xs kf)

  fail_action-Keeps : (now : ℕ) (c : CommandRow) → Keeps R (fail_action now c)
  unfolding fail_action
  fail_action-Keeps now c = Keeps-bind order (moves _ _ (abandoned-Step c _ now)) (λ n.
      Keeps-if order (not (n == 1)) (λ _. Keeps-pure order tt)
        (λ _. Keeps-bind order (Keeps-bans k _ _) (λ _. Keeps-audit k _ _ _ _ _)))

  lose_action-Keeps : (now : ℕ) (c : CommandRow) → Keeps R (lose_action now c)
  unfolding lose_action
  lose_action-Keeps now c = Keeps-bind order (moves _ _ (lost-Step c _ now)) (λ n.
      Keeps-if order (not (n == 1)) (λ _. Keeps-pure order tt)
        (λ _. Keeps-bind order (Keeps-bans k _ _) (λ _. Keeps-audit k _ _ _ _ _)))

  expire_undelivered-Keeps : (now : ℕ) (c : CommandRow) → Keeps R (expire_undelivered now c)
  unfolding expire_undelivered
  expire_undelivered-Keeps now c = Keeps-bind order (dropped-Keeps k _ _ _) (λ _.
      Keeps-if order (len c.payload.action_id == 0) (λ _. Keeps-pure order tt)
        (λ _. fail_action-Keeps now c))

  expire_unanswered-Keeps : (now : ℕ) (c : CommandRow) → Keeps R (expire_unanswered now c)
  unfolding expire_unanswered lost_command
  expire_unanswered-Keeps now c =
      Keeps-bind order (ends _ _ (λ c. refl) (λ c. refl) (λ c. refl) (λ c. refl) (λ c. refl)) (λ _.
        Keeps-if order (len c.payload.action_id == 0) (λ _. Keeps-pure order tt)
          (λ _. lose_action-Keeps now c))

  pub expire_stale-Keeps :
      (device_id : String) (now : ℕ) → Keeps R (expire_stale_action_commands device_id now)
  unfolding expire_stale_action_commands
  expire_stale-Keeps device_id now = Keeps-read order _ (λ s.
      (Keeps-bind order (for_each-Keeps _ _ (expire_undelivered-Keeps now)) (λ _.
          Keeps-read order _ (λ t. (for_each-Keeps _ _ (expire_unanswered-Keeps now)).at t))).at
        s)

  supersede-Keeps :
      (device_id keep_id : String) (now : ℕ)
      → Keeps R (supersede_pending_scan_commands device_id keep_id now)
  unfolding supersede_pending_scan_commands superseded
  supersede-Keeps device_id keep_id now =
      Keeps-bind order (ends _ _ (λ c. refl) (λ c. refl) (λ c. refl) (λ c. refl) (λ c. refl))
        (λ _. Keeps-pure order tt)

  mapped-Ends : {A : Type 0} (s : Tables) (o : Outcome A) → Ends R s o → Ends R s (mapped o)
  mapped-Ends s (done a t) h = h
  mapped-Ends s (fault e) h = tt

  mapped-Keeps : {A : Type 0} {m : Tx A} → Keeps R m → Keeps R (λ s. mapped (m s))
  mapped-Keeps {m = m} km = record { at = λ s. mapped-Ends s (m s) (km.at s) }

  insert_or_replace-Keeps : (c : DeviceCommand) → Keeps R (insert_or_replace c)
  unfolding insert_or_replace
  insert_or_replace-Keeps c =
      Keeps-if order (not (is_scan c.type)) (λ _. queues c)
        (λ _. Keeps-bind order (supersede-Keeps _ "" _) (λ _. queues c))

  pub enqueue_command-Keeps :
      (c : DeviceCommand) (fresh : String) → Keeps R (enqueue_command c fresh)
  unfolding enqueue_command
  enqueue_command-Keeps c fresh = mapped-Keeps (insert_or_replace-Keeps _)

  claim_each-Keeps : (now : ℕ) (cs : List CommandRow) → Keeps R (claim_each now cs)
  unfolding claim_each claimed
  claim_each-Keeps now [] = Keeps-pure order []
  claim_each-Keeps now (c ∷ cs) =
      Keeps-bind order (ends _ _ (λ c. refl) (λ c. refl) (λ c. refl) (λ c. refl) (λ c. refl)) (λ n.
        Keeps-bind order (Keeps-require order _ _)
          (λ _. Keeps-bind order (claim_each-Keeps now cs) (λ out. Keeps-pure order _)))

  supersede_older-Keeps :
      (device_id latest : String) (now : ℕ) → Keeps R (supersede_older device_id latest now)
  unfolding supersede_older
  supersede_older-Keeps device_id latest now =
      Keeps-if order (len latest == 0) (λ _. Keeps-pure order tt)
        (λ _. supersede-Keeps device_id latest now)

  pub claim_commands-Keeps :
      (device_id : String) (limit now : ℕ) → Keeps R (claim_commands device_id limit now)
  unfolding claim_commands
  claim_commands-Keeps device_id limit now =
      Keeps-bind order (expire_stale-Keeps device_id now) (λ _. Keeps-read order _ (λ s.
        (Keeps-bind order (supersede_older-Keeps device_id _ now)
            (λ _. Keeps-read order _ (λ t. (claim_each-Keeps now _).at t))).at
          s))

  same_answer-Keeps :
      (o : Option CommandRow) (result error_text : String)
      → Keeps R (same_answer o result error_text)
  unfolding same_answer
  same_answer-Keeps none result error_text = Keeps-fail order not_found
  same_answer-Keeps (some c) result error_text = Keeps-require order _ conflict

  pub complete_command-Keeps :
      (device_id id result error_text : String) (now : ℕ)
      → Keeps R (complete_command device_id id result error_text now)
  unfolding complete_command answered
  complete_command-Keeps device_id id result error_text now =
      Keeps-bind order (ends _ _ (λ c. refl) (λ c. refl) (λ c. refl) (λ c. refl) (λ c. refl)) (λ n.
        Keeps-read order _ (λ s.
          (Keeps-if order (not (n == 0)) (λ _. Keeps-pure order tt)
              (λ _. same_answer-Keeps _ _ _)).at
            s))
