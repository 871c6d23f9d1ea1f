-- ===== src/Actions/PlanDrafts.antt =====
-- A draft for a step of a response plan (`CreateActionFromResponsePlan` of
-- internal/store/security_engineer.go).
use witshield.Base.{
  ℕ, ◌*◌, ◌-◌, String, len, Bool, false, not, ◌&&◌, ◌||◌, Option, none, some, List, [], ◌∷◌, ◌++◌,
  ltb, leb, ◌==◌, str_eq, if◌then◌else◌,
}
use witshield.Actions.Tables.{
  ActionRow, ResponseStep, PlanRow, IncidentRow, PlanAction, TimelineRow, draft, cancelled,
  is_status,
}
use witshield.Actions.Statement.{
  Tx, not_found, conflict, constraint, invalid, pure, fail, read, change, constrained, ◌>>=◌, ◌>>◌,
  require, first_where, count_where, update_where, find_action, insert_action, insert_audit,
  is_none,
}
use witshield.Actions.Approval.{
  minute, Action, draft_row, expire_draft_actions_tx, ensure_unfinished_action_capacity_tx,
  has_incident,
}

-- What a request for the draft names.
pub record PlanRequest : Type 0 where
  pub plan_id : String
  pub step_id : String
  pub action : Action
  pub nonce_hash : String
  pub actor : String
  pub max_actions_per_hour : ℕ
  -- the JSON of the details
  pub preview_details : String

unfoldable pub is_step_action : String → String → String → PlanAction → Bool
is_step_action plan_id step_id action_id x =
    str_eq x.plan_id plan_id && str_eq x.step_id step_id && str_eq x.action_id action_id

unfoldable pub delete_step_action : String → String → String → List PlanAction → List PlanAction
unfolding is_step_action
delete_step_action plan_id step_id action_id [] = []
delete_step_action plan_id step_id action_id (x ∷ rest) =
    let kept = delete_step_action plan_id step_id action_id rest in
    if is_step_action plan_id step_id action_id x then kept else x ∷ kept

-- The action of the step before must be cancelled; it gives the step free.
unfoldable pub release_step : String → String → String → Tx (Unit {0})
unfolding delete_step_action
release_step plan_id step_id action_id = do
  s ← read
  require
      (elim (find_action action_id s.actions) [
        | none ↦ false
        | some r ↦ is_status r.status cancelled
      ])
      conflict
  change
      (λ t. record t { plan_actions = delete_step_action plan_id step_id action_id t.plan_actions })

unfoldable pub release_previous : String → String → String → Tx (Unit {0})
unfolding release_step
release_previous plan_id step_id action_id =
    if str_eq action_id "" then pure tt else release_step plan_id step_id action_id

unfoldable pub matches_step : Action → String → ResponseStep → Bool
matches_step x device_id step =
    str_eq x.device_id device_id
    && str_eq x.type step.action_type
    && str_eq x.parameters step.parameters

unfoldable pub is_recent_action : Action → ActionRow → Bool
is_recent_action x r =
    str_eq r.device_id x.device_id
    && str_eq r.type x.type
    && leb (x.created_at - 60 * minute) r.created_at

-- The first step with the id gets the action.
unfoldable pub assign_step : String → String → List ResponseStep → List ResponseStep
assign_step step_id action_id [] = []
assign_step step_id action_id (step ∷ steps) =
    let rest = assign_step step_id action_id steps in
    if str_eq step.id step_id then record step { action_id = action_id } ∷ steps else step ∷ rest

unfoldable pub insert_plan_action : PlanRequest → Tx (Unit {0})
insert_plan_action q =
    constrained
      (λ s. is_none (
        first_where
          (λ (x : PlanAction).
            str_eq x.plan_id q.plan_id && str_eq x.step_id q.step_id
            || str_eq x.action_id q.action.id)
          s.plan_actions))
      conflict
      (λ s. record s {
        plan_actions =
            s.plan_actions
            ++ record { plan_id = q.plan_id; step_id = q.step_id; action_id = q.action.id } ∷ [];
      })

abbrev pub step_prepared : PlanRequest → String → TimelineRow
step_prepared q incident_id = record {
  incident_id = incident_id;
  actor = q.actor;
  type = "response_step_prepared";
  summary = "管理员正在审查响应计划动作";
  details =
      ("responsePlanId", q.plan_id) ∷ ("stepId", q.step_id) ∷ ("preview", q.action.preview) ∷ [];
  created_at = q.action.created_at;
}

-- The plan is approved with its step assigned, and the incident awaits the approval of the action.
unfoldable pub mark_prepared : PlanRequest → PlanRow → Tx (Unit {0})
unfolding assign_step has_incident
mark_prepared q p = do
  change (λ s. record s {
    plans =
        update_where (λ r. str_eq r.id q.plan_id)
          (λ r. record r {
            status = "approved";
            steps = assign_step q.step_id q.action.id p.steps;
            updated_at = q.action.updated_at;
          })
          s.plans;
    incidents =
        update_where (λ i. str_eq i.id p.incident_id)
          (λ i. record i { status = "awaiting_approval"; updated_at = q.action.updated_at })
          s.incidents;
  })
  insert_audit q.action.id q.actor "response_plan_step_prepared" q.preview_details
      q.action.created_at
  constrained (has_incident p.incident_id) constraint
      (λ s. record s { timeline = s.timeline ++ step_prepared q p.incident_id ∷ [] })

-- The draft itself, as `CreateAction` stores it.
unfoldable pub store_draft : PlanRequest → Tx (Unit {0})
unfolding is_recent_action
store_draft q = do
  s ← read
  require (ltb (count_where (is_recent_action q.action) s.actions) q.max_actions_per_hour) conflict
  expire_draft_actions_tx q.action.device_id q.action.created_at
  ensure_unfinished_action_capacity_tx q.action.device_id
  insert_action (draft_row q.action q.nonce_hash)

unfoldable pub found_step : Option ResponseStep → Tx ResponseStep
found_step none = fail conflict
found_step (some step) = pure step

unfoldable pub prepare_step : PlanRequest → PlanRow → IncidentRow → Tx (Unit {0})
unfolding release_previous matches_step insert_plan_action mark_prepared store_draft found_step
prepare_step q p i = do
  require (str_eq p.status "proposed" || str_eq p.status "approved") conflict
  step ← found_step (first_where (λ x. str_eq x.id q.step_id) p.steps)
  require (matches_step q.action i.device_id step) conflict
  release_previous q.plan_id q.step_id step.action_id
  require
      (not (len q.action.parameters == 0)
        && not (len q.action.preview == 0)
        && is_status q.action.status draft)
      (invalid "response plan action is invalid")
  require (leb 1 q.max_actions_per_hour && leb q.max_actions_per_hour 1000)
      (invalid "response plan action limit is invalid")
  store_draft q
  insert_plan_action q
  mark_prepared q p

unfoldable pub prepare_of : PlanRequest → Option PlanRow → Option IncidentRow → Tx (Unit {0})
unfolding prepare_step
prepare_of q (some p) (some i) = prepare_step q p i
prepare_of q _ _ = fail not_found

-- `CreateActionFromResponsePlan`
unfoldable pub create_action_from_response_plan : PlanRequest → Tx (Unit {0})
unfolding prepare_of
create_action_from_response_plan q = do
  s ← read
  let plan = first_where (λ (p : PlanRow). str_eq p.id q.plan_id) s.plans
  prepare_of q plan (elim plan [
    | none ↦ none
    | some p ↦ first_where (λ (i : IncidentRow). str_eq i.id p.incident_id) s.incidents
  ])
