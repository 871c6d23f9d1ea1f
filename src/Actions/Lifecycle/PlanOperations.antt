-- ===== src/Actions/Lifecycle/PlanOperations.antt =====
-- What every statement of `CreateActionFromResponsePlan` keeps (internal/store/security_engineer.go).
use witshield.Base.{String, ◌≡◌, Option, none, some, str_eq, arith}
use witshield.Actions.Tables.{PlanRow, IncidentRow, ResponseStep, draft}
use witshield.Actions.Statement.{first_where}
use witshield.Actions.Statement.Rules.{
  Relation, Keeps, Keeps-pure, Keeps-fail, Keeps-require, Keeps-if, Keeps-bind, Keeps-read,
  Keeps-change, Keeps-constrained,
}
use witshield.Actions.PlanDrafts.{
  PlanRequest, release_step, release_previous, insert_plan_action, mark_prepared, store_draft,
  found_step, prepare_step, prepare_of, create_action_from_response_plan,
}
use witshield.Actions.Lifecycle.{KeptByActions}
use witshield.Actions.Lifecycle.Rows.{draft_row-Fresh}
use witshield.Actions.Lifecycle.Operations.{
  Keeps-audit, expire_draft_actions_tx-Keeps, ensure-Keeps,
}

module _ {R : Relation} (k : KeptByActions R) where
  open k use {order, quiet, adds}

  release_step-Keeps :
      (plan_id step_id action_id : String) → Keeps R (release_step plan_id step_id action_id)
  unfolding release_step
  release_step-Keeps plan_id step_id action_id = Keeps-read order _ (λ s.
      (Keeps-bind order (Keeps-require order _ _)
          (λ _. Keeps-change order _ (λ t. quiet _ _ (ground arith)))).at
        s)

  release_previous-Keeps :
      (plan_id step_id action_id : String) → Keeps R (release_previous plan_id step_id action_id)
  unfolding release_previous
  release_previous-Keeps plan_id step_id action_id =
      Keeps-if order (str_eq action_id "") (λ _. Keeps-pure order tt)
        (λ _. release_step-Keeps plan_id step_id action_id)

  insert_plan_action-Keeps : (q : PlanRequest) → Keeps R (insert_plan_action q)
  unfolding insert_plan_action
  insert_plan_action-Keeps q = Keeps-constrained order _ _ _ (λ s h. quiet _ _ (ground arith))

  mark_prepared-Keeps : (q : PlanRequest) (p : PlanRow) → Keeps R (mark_prepared q p)
  unfolding mark_prepared
  mark_prepared-Keeps q p =
      Keeps-bind order (Keeps-change order _ (λ s. quiet _ _ (ground arith))) (λ _.
        Keeps-bind order (Keeps-audit k _ _ _ _ _)
          (λ _. Keeps-constrained order _ _ _ (λ s h. quiet _ _ (ground arith))))

  found_step-Keeps : (o : Option ResponseStep) → Keeps R (found_step o)
  unfolding found_step
  found_step-Keeps none = Keeps-fail order _
  found_step-Keeps (some step) = Keeps-pure order step

  module _ (q : PlanRequest) (is_draft : q.action.status ≡ draft) where
    store_draft-Keeps : Keeps R (store_draft q)
    unfolding store_draft
    store_draft-Keeps = Keeps-read order _ (λ s.
        (Keeps-bind order (Keeps-require order _ _) (λ _.
            Keeps-bind order (expire_draft_actions_tx-Keeps k _ _) (λ _.
              Keeps-bind order (ensure-Keeps k _)
                (λ _. adds _ (draft_row-Fresh q.action q.nonce_hash is_draft))))).at
          s)

    prepare_step-Keeps : (p : PlanRow) (i : IncidentRow) → Keeps R (prepare_step q p i)
    unfolding prepare_step
    prepare_step-Keeps p i = Keeps-bind order (Keeps-require order _ _) (λ _.
        Keeps-bind order (found_step-Keeps _) (λ step.
          Keeps-bind order (Keeps-require order _ _) (λ _.
            Keeps-bind order (release_previous-Keeps q.plan_id q.step_id step.action_id) (λ _.
              Keeps-bind order (Keeps-require order _ _) (λ _.
                Keeps-bind order (Keeps-require order _ _) (λ _.
                  Keeps-bind order store_draft-Keeps (λ _.
                    Keeps-bind order (insert_plan_action-Keeps q)
                      (λ _. mark_prepared-Keeps q p))))))))

    prepare_of-Keeps :
        (plan : Option PlanRow) (incident : Option IncidentRow)
        → Keeps R (prepare_of q plan incident)
    unfolding prepare_of
    prepare_of-Keeps (some p) (some i) = prepare_step-Keeps p i
    prepare_of-Keeps (some p) none = Keeps-fail order _
    prepare_of-Keeps none (some i) = Keeps-fail order _
    prepare_of-Keeps none none = Keeps-fail order _

    pub create_action_from_response_plan-Keeps : Keeps R (create_action_from_response_plan q)
    unfolding create_action_from_response_plan
    create_action_from_response_plan-Keeps = Keeps-read order _ (λ s.
        (prepare_of-Keeps (first_where (λ (p : PlanRow). str_eq p.id q.plan_id) s.plans) _).at s)
