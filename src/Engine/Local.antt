-- ===== src/Engine/Local.antt =====
-- The entry points of internal/action/engine.go for local callers: Preview, Execute, Rollback.
pub mod Undo
use witshield.Base.{String, Option, none, some, str_eq, if◌then◌else◌}
use witshield.Engine.Types.{Operation, preview, execute, rollback, Request, Receipt, Library}
use witshield.Engine.Requests.{Engine, action_id_ok, run}

-- `receiptError`
unfoldable pub receipt_error : Receipt → Option String
receipt_error r =
    if r.success then none else if str_eq r.error "" then some "action failed" else some r.error

abbrev pub local_request : String → String → Operation → String → String → Request
local_request action_id type operation parameters state = record {
  action_id = action_id;
  actor = "local-agent";
  type = type;
  operation = operation;
  parameters = parameters;
  state = state;
}

-- The action that a rollback names: that of the sealed state, else a fresh one.
unfoldable pub rollback_action_id : Library → String → String → String
rollback_action_id l fresh rollback_state = elim (l.decode_sealed rollback_state) [
  | none ↦ fresh
  | some sealed ↦ if action_id_ok sealed.action_id then sealed.action_id else fresh
]

module _ {H : Type 0} (l : Library) (e : Engine H) where
  -- A request of a local caller; `fresh` and `id` are the identifiers that are drawn.
  unfoldable pub run_local : String → Request → H → H × Receipt × Option String
  unfolding receipt_error
  run_local id request host =
      let (host', receipt) = run l e id request host in (host', receipt, receipt_error receipt)

  unfoldable pub preview_local : String → String → String → String → H → H × Receipt × Option String
  unfolding run_local
  preview_local fresh id type parameters =
      run_local id (local_request fresh type preview parameters "")

  unfoldable pub execute_local : String → String → String → String → H → H × Receipt × Option String
  unfolding run_local
  execute_local fresh id type parameters =
      run_local id (local_request fresh type execute parameters "")

  unfoldable pub rollback_local :
      String → String → String → String → String → H → H × Receipt × Option String
  unfolding run_local rollback_action_id
  rollback_local fresh id type parameters rollback_state = run_local id (
      local_request (rollback_action_id l fresh rollback_state) type rollback parameters
        rollback_state)
