-- ===== src/Actions/Judgement/Honest.antt =====
-- The controller believes an honest helper: from `Engine.Run` of internal/action/engine.go to
-- `CompleteCommandAndActionWithOutcome` of internal/store/action_results.go.
use witshield.Base.{
  ℕ, String, Bool, true, false, ◌≡◌, ap, ◌∙◌, Option, none, some, map, eq_iff, arith,
}
use witshield.Engine.Types.{
  Operation, precheck, preview, apply, verify, execute, Request, Receipt, AuditStep, Result,
  Library,
}
use witshield.Engine.Seal.{digest_bytes, digest_parameters}
use witshield.Engine.Lifecycle.Success.{IsDone, Succeeds}
use witshield.Engine.Requests.{Engine, run}
use witshield.Engine.Requests.Receipts.{run_claims}
use witshield.Engine.Requests.Success.{OfRequest, run-Succeeds}
use witshield.Actions.Tables.{execute_action}
use witshield.Actions.Receipt.{
  HelperReceipt, HelperReceiptStep, is_operation, all_succeeded, expected_steps,
  valid_successful_receipt_steps,
}
use witshield.Actions.Statement.{is_some}
use witshield.Actions.Policy.{is_execute}
use witshield.Actions.Gate.{is_action_command}
use witshield.Actions.Submission.{
  Submission, is_ssh, receipt_matches, proves_success, has_state, valid_rollback_state, checked,
  after_receipt, after_state, after_other_state, after_window, after_ssh, may_resume,
  expected_operation,
}
use witshield.Actions.Judgement.{
  judge, was_interrupted, is_recovered, unknown_with_state, unknown_without_state, admits_unknown,
}

-- `pending` reads the detail confirmationPending of a result.
module _ (pending : String → Option Bool) where
  abbrev pub read_result : Option Result → Option (Option Bool)
  read_result none = none
  read_result (some r) = some (pending r.details)

  abbrev pub read_step : AuditStep → HelperReceiptStep
  read_step x = record {
    operation = x.operation;
    started_at = x.started_at;
    finished_at = x.finished_at;
    success = x.success;
    result = read_result x.result;
  }

  -- The receipt as the controller decodes it.
  abbrev pub read_receipt : Receipt → HelperReceipt
  read_receipt r = record {
    action_id = r.action_id;
    type = r.type;
    operation = r.operation;
    parameters_digest = r.parameters_digest;
    started_at = r.started_at;
    finished_at = r.finished_at;
    success = r.success;
    indeterminate = r.indeterminate;
    rollback_state_digest = r.rollback_state_digest;
    confirm_by = r.confirm_by;
    steps = map read_step r.steps;
  }

  -- The agent submits what the helper answered to the request of the command.
  abbrev pub honest : Request → Receipt → ℕ → Submission
  honest request r now = record {
    command_type = execute_action;
    action_id = request.action_id;
    type = request.type;
    parameters = request.parameters;
    completed = false;
    has_digest = false;
    ok = true;
    error_text = "";
    rollback = r.state;
    receipt = some (read_receipt r);
    now = now;
  }

  step-done :
      (o : Operation) (x : AuditStep)
      → IsDone o x
      → (x.operation ≡ o) × (x.success ≡ true) × (is_some (read_result x.result) ≡ true)
  step-done o x d = (d.ran, d.success, ap (λ y. is_some (read_result y)) d.result.1)

  steps-valid :
      (l : Library) (r : Receipt)
      → Succeeds l r
      → valid_successful_receipt_steps (map read_step r.steps) execute_action ≡ true
  unfolding valid_successful_receipt_steps all_succeeded expected_steps is_operation
  steps-valid l r s =
      ap (λ xs. valid_successful_receipt_steps (map read_step xs) execute_action) s.steps
      ∙ ground (
        arith,
        step-done precheck s.first s.checks,
        step-done preview s.second s.previews,
        step-done apply s.third s.applies,
        step-done verify s.fourth s.verifies,
      )

  module _ (l : Library) (is_object : String → Bool) (request : Request) (r : Receipt) (now : ℕ)
      (all : Succeeds l r) (same : OfRequest l request r) (succeeded : r.success ≡ true)
      (known : r.indeterminate ≡ false) (executes : request.operation ≡ execute) where
    matches : receipt_matches l is_object (honest request r now) ≡ true
    unfolding receipt_matches is_operation expected_operation is_action_command
    matches = ground (
      arith,
      same,
      eq_iff r.action_id request.action_id,
      eq_iff r.type request.type,
      eq_iff r.parameters_digest (digest_parameters l request.parameters),
    )

    proven : proves_success l is_object (honest request r now) ≡ true
    unfolding proves_success
    proven = ground (arith, matches, steps-valid l r all)

    stated :
        valid_rollback_state l is_object r.state ≡ true
        → has_state l is_object r.state (read_receipt r) ≡ true
    unfolding has_state
    stated valid =
        ground (arith, valid, all.state, eq_iff r.rollback_state_digest (digest_bytes l r.state))

    passes :
        valid_rollback_state l is_object r.state ≡ true
        → r.confirm_by ≡ none
        → is_ssh request.type ≡ false
        → checked l is_object (honest request r now) ≡ (true, "")
    unfolding checked after_ssh after_window after_other_state after_state after_receipt may_resume
        is_execute is_action_command
    passes valid no_window not_ssh = ground (arith, proven, stated valid)

    believed :
        valid_rollback_state l is_object r.state ≡ true
        → r.confirm_by ≡ none
        → is_ssh request.type ≡ false
        → ((judge l is_object (honest request r now)).ok ≡ true)
          × ((judge l is_object (honest request r now)).indeterminate ≡ false)
          × ((judge l is_object (honest request r now)).rollback ≡ r.state)
    unfolding judge was_interrupted unknown_with_state unknown_without_state admits_unknown
        is_recovered
    believed valid no_window not_ssh = ground (arith, passes valid no_window not_ssh)

-- An execution that the helper's engine runs with success, and that asks for no window of confirmation,
-- is believed by the controller, where the sealed rollback state is a JSON object and the type of the
-- action is not that of an SSH hardening: the effective result is a success, not unknown, and keeps the
-- rollback state of the helper's receipt.
pub run_believed :
    {H : Type 0} (l : Library) (is_object : String → Bool) (pending : String → Option Bool)
    (e : Engine H) (request : Request) (id : String) (host : H) (now : ℕ)
    → request.operation ≡ execute
    → (run l e id request host).1.success ≡ true
    → valid_rollback_state l is_object (run l e id request host).1.state ≡ true
    → (run l e id request host).1.confirm_by ≡ none
    → is_ssh request.type ≡ false
    → let j = judge l is_object (honest pending request (run l e id request host).1 now) in
      (j.ok ≡ true) × (j.indeterminate ≡ false) × (j.rollback ≡ (run l e id request host).1.state)
run_believed l is_object pending e request id host now executes success valid no_window not_ssh =
    let r = (run l e id request host).1 in
    let (all, same) = run-Succeeds l e request id host executes success in
    believed pending l is_object request r now all same success
      ((run_claims l e request id host).0 success) executes valid no_window not_ssh
