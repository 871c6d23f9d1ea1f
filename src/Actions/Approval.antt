-- ===== src/Actions/Approval.antt =====
-- Drafts and their approval: `CreateAction`, `ExpireDraftActions`, `ApproveAction` and
-- `ApproveActionAndEnqueue` of internal/store/settings_actions_defense.go.
use Prim.Native.String.{len}
use witshield.Base.{
  ℕ, ◌+◌, ◌*◌, String, Bool, not, ◌&&◌, ◌||◌, Option, none, some, List, [], ◌∷◌, ◌++◌, ltb, leb,
  ◌==◌, str_eq, if◌then◌else◌,
}
use witshield.Actions.Tables.{
  IncidentRow, Tables, PlanRow, ActionStatus, draft, approved, cancelled, is_status, is_finished,
  ActionRow, DeviceCommand, AuditRow, PlanAction, TimelineRow,
}
use witshield.Actions.Statement.{
  Tx, conflict, constraint, no_rows, pure, fail, read, change, constrained, ◌>>=◌, ◌>>◌, require,
  first_where, count_where, update_where, find_action, insert_action, insert_command, insert_audit,
  update_actions, is_some,
}

-- Times are whole numbers of nanoseconds.
abbrev pub minute : ℕ
minute = 60 * 1000000000

abbrev pub action_approval_ttl : ℕ
action_approval_ttl = 10 * minute

abbrev pub max_unfinished_actions_per_device : ℕ
max_unfinished_actions_per_device = 200

-- The condition of `expireDraftActionsTx`; no device means all devices.
unfoldable pub is_stale_draft : String → ℕ → ActionRow → Bool
is_stale_draft device_id now r =
    is_status r.status draft
    && ltb (r.created_at + action_approval_ttl) now
    && (str_eq device_id "" || str_eq r.device_id device_id)

unfoldable pub lapsed : ℕ → ActionRow → ActionRow
lapsed now r = record r {
  status = cancelled;
  completed_at = some now;
  error = "action approval expired before confirmation";
  updated_at = now;
}

-- INSERT … SELECT of an entry for each row.
pub expiry_entries : (ActionRow → Bool) → ℕ → List ActionRow → List AuditRow
expiry_entries p now [] = []
expiry_entries p now (r ∷ rest) =
    let entries = expiry_entries p now rest in
    if p r
    then record {
      action_id = r.id;
      actor = "controller";
      event = "approval_expired";
      details = "{}";
      created_at = now;
    }
      ∷ entries
    else entries

-- `expireDraftActionsTx`
unfoldable pub expire_draft_actions_tx : String → ℕ → Tx (Unit {0})
expire_draft_actions_tx device_id now = do
  change (λ s. record s {
    audit = s.audit ++ expiry_entries (is_stale_draft device_id now) now s.actions;
  })
  _ ← update_actions (is_stale_draft device_id now) (lapsed now)
  pure tt

unfoldable pub is_unfinished_of : String → ActionRow → Bool
is_unfinished_of device_id r = str_eq r.device_id device_id && not (is_finished r.status)

-- `ensureUnfinishedActionCapacityTx`
unfoldable pub ensure_unfinished_action_capacity_tx : String → Tx (Unit {0})
ensure_unfinished_action_capacity_tx device_id = do
  s ← read
  require
      (ltb (count_where (is_unfinished_of device_id) s.actions) max_unfinished_actions_per_device)
      conflict

abbrev pub or_empty_object : String → String
or_empty_object text = if len text == 0 then "{}" else text

-- `domain.Action`, as the callers of `CreateAction` and of the policy actions fill it.
pub record Action : Type 0 where
  pub id : String
  pub device_id : String
  pub finding_id : String
  pub type : String
  pub parameters : String
  pub preview : String
  pub status : ActionStatus
  pub approved_at : Option ℕ
  pub created_at : ℕ
  pub updated_at : ℕ

unfoldable pub draft_row : Action → String → ActionRow
draft_row x nonce_hash = record {
  id = x.id;
  device_id = x.device_id;
  finding_id = x.finding_id;
  type = x.type;
  parameters = or_empty_object x.parameters;
  preview = or_empty_object x.preview;
  status = x.status;
  approval_nonce_hash = nonce_hash;
  approved_by = "";
  approved_at = none;
  executed_at = none;
  completed_at = none;
  rollback_payload = none;
  confirm_by = none;
  error = "";
  created_at = x.created_at;
  updated_at = x.updated_at;
}

abbrev pub identified : Action → String → Action
identified x fresh = if len x.id == 0 then record x { id = fresh } else x

unfoldable pub create_identified : Action → String → String → Tx (Unit {0})
create_identified x nonce_hash actor = do
  expire_draft_actions_tx x.device_id x.created_at
  ensure_unfinished_action_capacity_tx x.device_id
  insert_action (draft_row x nonce_hash)
  insert_audit x.id actor "preview_created" (or_empty_object x.preview) x.created_at

-- `CreateAction`; an action without an id gets a fresh one.
unfoldable pub create_action : Action → String → String → String → Tx (Unit {0})
unfolding create_identified
create_action x nonce_hash actor fresh = create_identified (identified x fresh) nonce_hash actor

-- `ExpireDraftActions`
unfoldable pub expire_draft_actions : ℕ → Tx (Unit {0})
expire_draft_actions now = expire_draft_actions_tx "" now

-- The condition of an approval: the draft, with the nonce that was issued for it, in time.
unfoldable pub is_approvable : String → String → ℕ → ActionRow → Bool
is_approvable id nonce_hash now r =
    str_eq r.id id
    && is_status r.status draft
    && str_eq r.approval_nonce_hash nonce_hash
    && leb now (r.created_at + action_approval_ttl)

unfoldable pub approved_row : String → ℕ → ActionRow → ActionRow
approved_row admin_id now r = record r {
  status = approved;
  approved_by = admin_id;
  approved_at = some now;
  updated_at = now;
}

unfoldable pub found : Option ActionRow → Tx ActionRow
found none = fail no_rows
found (some r) = pure r

-- SELECT of one action, for the answer: it finds the row that the transaction changed.
unfoldable pub action : String → Tx ActionRow
action id = do s ← read; found (find_action id s.actions)

-- `ApproveAction`
unfoldable pub approve_action : String → String → String → ℕ → Tx ActionRow
approve_action id nonce_hash admin_id now = do
  n ← update_actions (is_approvable id nonce_hash now) (approved_row admin_id now)
  require (not (n == 0)) conflict
  insert_audit id admin_id "approved" "{}" now
  action id

abbrev pub response_started : PlanAction → String → String → ℕ → TimelineRow
response_started x incident_id actor now = record {
  incident_id = incident_id;
  actor = actor;
  type = "response_started";
  summary = "响应计划动作已批准并开始执行";
  details = ("responsePlanId", x.plan_id) ∷ ("stepId", x.step_id) ∷ ("actionId", x.action_id) ∷ [];
  created_at = now;
}

unfoldable pub has_incident : String → Tables → Bool
unfolding first_where
has_incident id s = is_some (first_where (λ (i : IncidentRow). str_eq i.id id) s.incidents)

-- The plan executes and its incident is being responded to.
unfoldable pub mark_responding : PlanAction → PlanRow → String → ℕ → Tx (Unit {0})
unfolding has_incident
mark_responding x p actor now = do
  change (λ s. record s {
    plans =
        update_where (λ q. str_eq q.id x.plan_id)
          (λ q. record q { status = "executing"; updated_at = now }) s.plans;
    incidents =
        update_where (λ i. str_eq i.id p.incident_id)
          (λ i. record i { status = "responding"; updated_at = now }) s.incidents;
  })
  constrained (has_incident p.incident_id) constraint
      (λ s. record s { timeline = s.timeline ++ response_started x p.incident_id actor now ∷ [] })

-- `markIncidentRespondingForActionTx`: the plan that the action is a step of, if there is one.
unfoldable pub mark_incident_responding_for_action_tx : String → String → ℕ → Tx (Unit {0})
mark_incident_responding_for_action_tx action_id actor now s =
    elim (first_where (λ x. str_eq x.action_id action_id) s.plan_actions) [
      | none ↦ pure tt s
      | some x ↦ elim (first_where (λ p. str_eq p.id x.plan_id) s.plans) [
        | none ↦ pure tt s
        | some p ↦ mark_responding x p actor now s
      ]
    ]

-- `ApproveActionAndEnqueue`
unfoldable pub approve_action_and_enqueue :
    String → String → String → DeviceCommand → ℕ → Tx ActionRow
approve_action_and_enqueue id nonce_hash admin_id cmd now = do
  n ← update_actions (is_approvable id nonce_hash now) (approved_row admin_id now)
  require (not (n == 0)) conflict
  insert_command cmd
  insert_audit id admin_id "approved_and_queued" "{}" now
  mark_incident_responding_for_action_tx id admin_id now
  action id
