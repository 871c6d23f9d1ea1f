-- ===== src/Actions/Lifecycle/Operations.antt =====
-- Every operation on actions keeps what its statements keep; the gate and the switch of the policy,
-- which also start commands and change policies, stand in what they need beside.
use witshield.Actions.Transitions.{
  overdue, complete_action, expire_each, expire_action_confirmations, request_rollback_and_enqueue,
  expire_confirmation, request_confirmation_and_enqueue, transition_action, complete_rollback,
}
use witshield.Base.{
  [], ◌∷◌, ◌∷◌, true, false, str_eq, ◌==◌, some, none, Option, ℕ, String, Bool, ◌≡◌, arith,
}
use witshield.Actions.Tables.{PlanRow, PlanAction, draft, BanRow}
use witshield.Actions.Statement.{
  find_action, no_rows, first_where, pure, insert_ban, insert_audit, update_bans,
}
use witshield.Actions.Statement.Rules.{
  Keeps-fail, Keeps-if, Ends, Relation, Keeps, Keeps-pure, Keeps-require, Keeps-bind, Keeps-read,
  Keeps-change, Keeps-constrained,
}
use witshield.Actions.Approval.{
  found, identified, mark_incident_responding_for_action_tx, action, mark_responding,
  approve_action_and_enqueue, approve_action, create_action, Action, expire_draft_actions_tx,
  ensure_unfinished_action_capacity_tx, create_identified,
}
use witshield.Actions.Lifecycle.{
  List, Move, ActionStatus, ActionRow, DeviceCommand, Tables, KeptByActions,
}
use witshield.Actions.Lifecycle.Rows.{
  moved-Step, unconfirmed-Step, completed-Step, confirming-Step, revoked-Step, approved_row-Step,
  lapsed-Step, draft_row-Fresh,
}

module _ {R : Relation} (k : KeptByActions R) where
  open k use {order, quiet, moves, adds, queues}

  pub Keeps-audit :
      (action_id actor event details : String) (created_at : ℕ)
      → Keeps R (insert_audit action_id actor event details created_at)
  unfolding insert_audit
  Keeps-audit action_id actor event details created_at =
      Keeps-constrained order _ _ _ (λ s h. quiet _ _ (ground arith))

  pub Keeps-bans : (p : BanRow → Bool) (f : BanRow → BanRow) → Keeps R (update_bans p f)
  unfolding update_bans
  Keeps-bans p f = Keeps-change order _ (λ s. quiet _ _ (ground arith))

  pub Keeps-insert_ban : (b : BanRow) → Keeps R (insert_ban b)
  unfolding insert_ban
  Keeps-insert_ban b = Keeps-constrained order _ _ _ (λ s h. quiet _ _ (ground arith))

  pub expire_draft_actions_tx-Keeps :
      (device_id : String) (now : ℕ) → Keeps R (expire_draft_actions_tx device_id now)
  unfolding expire_draft_actions_tx
  expire_draft_actions_tx-Keeps device_id now =
      Keeps-bind order (Keeps-change order _ (λ s. quiet _ _ (ground arith)))
        (λ _. Keeps-bind order (moves _ _ (lapsed-Step device_id now)) (λ _. Keeps-pure order tt))

  pub ensure-Keeps : (device_id : String) → Keeps R (ensure_unfinished_action_capacity_tx device_id)
  unfolding ensure_unfinished_action_capacity_tx
  ensure-Keeps device_id = Keeps-read order _ (λ s. (Keeps-require order _ _).at s)

  create_identified-Keeps :
      (x : Action) (nonce_hash actor : String)
      → x.status ≡ draft
      → Keeps R (create_identified x nonce_hash actor)
  unfolding create_identified
  create_identified-Keeps x nonce_hash actor d =
      Keeps-bind order (expire_draft_actions_tx-Keeps _ _) (λ _.
        Keeps-bind order (ensure-Keeps _) (λ _.
          Keeps-bind order (adds _ (draft_row-Fresh x nonce_hash d)) (λ _. Keeps-audit _ _ _ _ _)))

  pub create_action-Keeps :
      (x : Action) (nonce_hash actor fresh : String)
      → x.status ≡ draft
      → Keeps R (create_action x nonce_hash actor fresh)
  unfolding create_action
  create_action-Keeps x nonce_hash actor fresh d =
      create_identified-Keeps (identified x fresh) nonce_hash actor (ground arith)

  found-Keeps : (o : Option ActionRow) → Keeps R (found o)
  unfolding found
  found-Keeps none = Keeps-fail order no_rows
  found-Keeps (some r) = Keeps-pure order r

  pub action-Keeps : (id : String) → Keeps R (action id)
  unfolding action
  action-Keeps id = Keeps-read order _ (λ s. (found-Keeps (find_action id s.actions)).at s)

  pub approve_action-Keeps :
      (id nonce_hash admin_id : String) (now : ℕ)
      → Keeps R (approve_action id nonce_hash admin_id now)
  unfolding approve_action
  approve_action-Keeps id nonce_hash admin_id now =
      Keeps-bind order (moves _ _ (approved_row-Step id nonce_hash admin_id now)) (λ n.
        Keeps-bind order (Keeps-require order _ _)
          (λ _. Keeps-bind order (Keeps-audit _ _ _ _ _) (λ _. action-Keeps id)))

  mark_responding-Keeps :
      (x : PlanAction) (p : PlanRow) (actor : String) (now : ℕ)
      → Keeps R (mark_responding x p actor now)
  unfolding mark_responding
  mark_responding-Keeps x p actor now =
      Keeps-bind order (Keeps-change order _ (λ s. quiet _ _ (ground arith)))
        (λ _. Keeps-constrained order _ _ _ (λ s h. quiet _ _ (ground arith)))

  pub mark_incident-Keeps :
      (action_id actor : String) (now : ℕ)
      → Keeps R (mark_incident_responding_for_action_tx action_id actor now)
  unfolding mark_incident_responding_for_action_tx
  mark_incident-Keeps action_id actor now = record {
    at = λ s. step s (first_where (λ x. str_eq x.action_id action_id) s.plan_actions);
  }
    where
      plan :
          (s : Tables) (x : PlanAction) (o : Option PlanRow)
          → Ends R s (elim o [ none ↦ pure tt s | some p ↦ mark_responding x p actor now s ])
      plan s x none = (Keeps-pure order tt).at s
      plan s x (some p) = (mark_responding-Keeps x p actor now).at s

      step :
          (s : Tables) (o : Option PlanAction)
          → Ends R s (elim o [
            | none ↦ pure tt s
            | some x ↦ elim (first_where (λ p. str_eq p.id x.plan_id) s.plans) [
              | none ↦ pure tt s
              | some p ↦ mark_responding x p actor now s
            ]
          ])
      step s none = (Keeps-pure order tt).at s
      step s (some x) = plan s x (first_where (λ p. str_eq p.id x.plan_id) s.plans)

  pub approve_action_and_enqueue-Keeps :
      (id nonce_hash admin_id : String) (cmd : DeviceCommand) (now : ℕ)
      → Keeps R (approve_action_and_enqueue id nonce_hash admin_id cmd now)
  unfolding approve_action_and_enqueue
  approve_action_and_enqueue-Keeps id nonce_hash admin_id cmd now =
      Keeps-bind order (moves _ _ (approved_row-Step id nonce_hash admin_id now)) (λ n.
        Keeps-bind order (Keeps-require order _ _) (λ _. Keeps-bind order (queues cmd) (λ _.
          Keeps-bind order (Keeps-audit _ _ _ _ _)
            (λ _. Keeps-bind order (mark_incident-Keeps id admin_id now) (λ _. action-Keeps id)))))

  pub transition_action-Keeps :
      (id : String) (from to : ActionStatus) (actor event details error_text : String) (now : ℕ)
      → Move from to
      → Keeps R (transition_action id from to actor event details error_text now)
  unfolding transition_action
  transition_action-Keeps id from to actor event details error_text now m =
      Keeps-bind order (moves _ _ (λ r. moved-Step id error_text now from to r m))
        (λ n. Keeps-bind order (Keeps-require order _ _) (λ _. Keeps-audit _ _ _ _ _))

  pub complete_action-Keeps :
      (id : String) (ok : Bool) (result rollback error_text : String) (now : ℕ)
      → Keeps R (complete_action id ok result rollback error_text now)
  unfolding complete_action
  complete_action-Keeps id ok result rollback error_text now =
      Keeps-bind order (moves _ _ (completed-Step id rollback error_text ok now))
        (λ n. Keeps-bind order (Keeps-require order _ _) (λ _. Keeps-audit _ _ _ _ _))

  pub complete_rollback-Keeps :
      (id : String) (ok : Bool) (details error_text : String) (now : ℕ)
      → Keeps R (complete_rollback id ok details error_text now)
  unfolding complete_rollback
  complete_rollback-Keeps id true details error_text now =
      transition_action-Keeps _ _ _ _ _ _ _ _ Move.roll_back
  complete_rollback-Keeps id false details error_text now =
      transition_action-Keeps _ _ _ _ _ _ _ _ Move.fail_back

  pub request_rollback_and_enqueue-Keeps :
      (id admin_id : String) (cmd : DeviceCommand) (now : ℕ)
      → Keeps R (request_rollback_and_enqueue id admin_id cmd now)
  unfolding request_rollback_and_enqueue
  request_rollback_and_enqueue-Keeps id admin_id cmd now = Keeps-bind order (ensure-Keeps _) (λ _.
      Keeps-bind order (moves _ _ (revoked-Step id now)) (λ n.
        Keeps-bind order (Keeps-require order _ _)
          (λ _. Keeps-bind order (queues cmd) (λ _. Keeps-audit _ _ _ _ _))))

  pub request_confirmation_and_enqueue-Keeps :
      (id admin_id : String) (cmd : DeviceCommand) (now : ℕ)
      → Keeps R (request_confirmation_and_enqueue id admin_id cmd now)
  unfolding request_confirmation_and_enqueue
  request_confirmation_and_enqueue-Keeps id admin_id cmd now =
      Keeps-bind order (moves _ _ (confirming-Step id now)) (λ n.
        Keeps-bind order (Keeps-require order _ _)
          (λ _. Keeps-bind order (queues cmd) (λ _. Keeps-audit _ _ _ _ _)))

  expire_confirmation-Keeps : (now : ℕ) (id : String) → Keeps R (expire_confirmation now id)
  unfolding expire_confirmation
  expire_confirmation-Keeps now id =
      Keeps-bind order (moves _ _ (unconfirmed-Step id now))
        (λ n. Keeps-if order (n == 1) (λ _. Keeps-audit _ _ _ _ _) (λ _. Keeps-pure order tt))

  expire_each-Keeps : (now : ℕ) (ids : List String) → Keeps R (expire_each now ids)
  unfolding expire_each
  expire_each-Keeps now [] = Keeps-pure order tt
  expire_each-Keeps now (id ∷ ids) =
      Keeps-bind order (expire_confirmation-Keeps now id) (λ _. expire_each-Keeps now ids)

  pub expire_action_confirmations-Keeps : (now : ℕ) → Keeps R (expire_action_confirmations now)
  unfolding expire_action_confirmations
  expire_action_confirmations-Keeps now =
      Keeps-read order _ (λ s. (expire_each-Keeps now (overdue now s.actions)).at s)
