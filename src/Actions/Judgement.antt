-- ===== src/Actions/Judgement.antt =====
-- What the controller makes of a submitted result: the part of `CompleteCommandAndActionWithOutcome`
-- of internal/store/action_results.go between the row of the command and its writes.
pub mod Proven
pub mod Honest
pub mod Examples
use witshield.Base.{
  ℕ, ◌+◌, ◌*◌, String, Bool, true, false, not, ◌&&◌, ◌||◌, Option, none, some, [], len, leb, ◌==◌,
  str_eq, if◌then◌else◌,
}
use witshield.Engine.Types.{Operation, execute, rollback, confirm, Library}
use witshield.Engine.Seal.{digest_bytes, digest_parameters}
use witshield.Actions.Tables.{CommandType, execute_action, rollback_action, confirm_action}
use witshield.Actions.Statement.{is_some, is_none}
use witshield.Actions.Approval.{minute}
use witshield.Actions.Policy.{is_execute}
use witshield.Actions.Gate.{is_action_command}
use witshield.Actions.Expiry.{unanswered_message}
use witshield.Actions.Receipt.{
  HelperReceipt, is_operation, valid_successful_receipt_steps,
  valid_execute_receipt_with_recoverable_state, valid_execute_receipt_with_unavailable_state,
  valid_failed_receipt, receipt_confirmation_pending,
}
use witshield.Actions.Submission.{
  Submission, no_receipt, received, expected_operation, check, is_ssh, is_suspension, ssh_complaint,
  complain, deadline_invalid, valid_rollback_state, has_state, receipt_matches, proves_success,
  may_resume, after_receipt, after_state, after_other_state, after_window, after_ssh, checked,
}

-- The effective result.
pub record Judgement : Type 0 where
  pub ok : Bool
  pub error_text : String
  pub indeterminate : Bool
  pub legacy_process_resume : Bool
  pub trusted_successful_receipt : Bool
  pub rollback : String

-- `is_object` says that a text decodes to a JSON object with a member.
module _ (l : Library) (is_object : String → Bool) where
  -- The agent reports that the helper was interrupted.
  unfoldable pub was_interrupted : Submission → String → Bool
  was_interrupted x error_text =
      is_action_command x.command_type
      && not x.ok
      && str_eq error_text
          "privileged execution was interrupted after entering the helper; remote state is unknown and requires manual verification"

  -- `validRecoveredSuccessfulResult`
  unfoldable pub valid_recovered_successful_result : Submission → Bool
  unfolding has_state
  valid_recovered_successful_result x =
      let r = received x.receipt in
      if not (is_execute x.command_type)
      then len x.rollback == 0 && is_none r.confirm_by
      else has_state l is_object x.rollback r
        && not (is_some r.confirm_by && not (is_ssh x.type))
        && (if is_ssh x.type
            then elim (receipt_confirmation_pending r.steps) [
              | none ↦ false
              | some pending ↦ if pending then is_some r.confirm_by else is_none r.confirm_by
            ]
            else true)
        && not (deadline_invalid r.confirm_by x.now false)

  -- The helper succeeded, and only its cache of receipts failed.
  unfoldable pub is_recovered : Submission → Bool → String → Bool
  unfolding proves_success valid_recovered_successful_result
  is_recovered x indeterminate error_text =
      not x.completed
      && not x.ok
      && not indeterminate
      && str_eq error_text "action succeeded but durable receipt persistence failed"
      && proves_success l is_object x
      && valid_recovered_successful_result x

  -- A matching receipt that says that the outcome is unknown.
  unfoldable pub admits_unknown : Submission → Bool → Bool
  unfolding receipt_matches
  admits_unknown x indeterminate =
      let r = received x.receipt in
      not x.completed
      && not x.ok
      && not indeterminate
      && receipt_matches l is_object x
      && not r.success
      && r.indeterminate

  unfoldable pub unknown_with_state : Submission → Bool → Bool
  unfolding admits_unknown has_state
  unknown_with_state x indeterminate =
      is_execute x.command_type
      && admits_unknown x indeterminate
      && has_state l is_object x.rollback (received x.receipt)
      && valid_execute_receipt_with_recoverable_state (received x.receipt)

  abbrev pub has_no_state : Submission → Bool
  has_no_state x = len x.rollback == 0 && len (received x.receipt).rollback_state_digest == 0

  abbrev pub failed_as : CommandType → HelperReceipt → Bool
  failed_as execute_action r = valid_execute_receipt_with_unavailable_state r
  failed_as rollback_action r = valid_failed_receipt rollback r
  failed_as confirm_action r = valid_failed_receipt confirm r
  failed_as CommandType.scan r = false

  unfoldable pub unknown_without_state : Submission → Bool → Bool
  unfolding admits_unknown
  unknown_without_state x indeterminate =
      admits_unknown x indeterminate
      && has_no_state x
      && failed_as x.command_type (received x.receipt)

  -- The effective result of a submission.
  unfoldable pub judge : Submission → Judgement
  unfolding checked was_interrupted is_recovered unknown_with_state unknown_without_state may_resume
  judge x =
      let (ok, error_text) = checked l is_object x in
      let interrupted = was_interrupted x error_text in
      let error_text' = if interrupted then unanswered_message else error_text in
      let recovered = is_recovered x interrupted error_text' in
      let with_state = unknown_with_state x interrupted in
      let unknown = with_state || unknown_without_state x interrupted in
      let ok' = (ok && not interrupted || recovered) && not unknown in
      record {
        ok = ok';
        error_text = error_text';
        indeterminate = interrupted || unknown;
        legacy_process_resume = may_resume l is_object x && ok;
        trusted_successful_receipt = recovered;
        rollback =
            if not ok' && not ((recovered && is_execute x.command_type) || with_state)
            then ""
            else x.rollback;
      }
