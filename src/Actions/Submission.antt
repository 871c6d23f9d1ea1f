-- ===== src/Actions/Submission.antt =====
-- A submitted result of an action command and the checks of what it claims
-- (`CompleteCommandAndActionWithOutcome` of internal/store/action_results.go).
use witshield.Base.{
  ℕ, ◌+◌, ◌*◌, String, Bool, true, false, not, ◌&&◌, ◌||◌, Option, none, some, [], len, leb, ◌==◌,
  str_eq, if◌then◌else◌,
}
use witshield.Engine.Types.{Operation, execute, rollback, confirm, Library}
use witshield.Engine.Seal.{digest_bytes, digest_parameters}
use witshield.Actions.Tables.{CommandType, rollback_action, confirm_action}
use witshield.Actions.Statement.{is_some}
use witshield.Actions.Approval.{minute}
use witshield.Actions.Policy.{is_execute}
use witshield.Actions.Gate.{is_action_command}
use witshield.Actions.Receipt.{
  HelperReceipt, is_operation, valid_successful_receipt_steps, receipt_confirmation_pending,
}

-- A submitted result, with what the row of its command says: its type and payload (`commandActionMeta`),
-- whether it is completed, and whether it has a digest of its completion. The receipt is none where
-- the command has no action, where there is no audit, and where it does not decode.
pub record Submission : Type 0 where
  pub command_type : CommandType
  pub action_id : String
  pub type : String
  pub parameters : String
  pub completed : Bool
  pub has_digest : Bool
  pub ok : Bool
  pub error_text : String
  pub rollback : String
  pub receipt : Option HelperReceipt
  pub now : ℕ

abbrev pub no_receipt : HelperReceipt
no_receipt = record {
  action_id = "";
  type = "";
  operation = Operation.other "";
  parameters_digest = "";
  started_at = 0;
  finished_at = 0;
  success = false;
  indeterminate = false;
  rollback_state_digest = "";
  confirm_by = none;
  steps = [];
}

abbrev pub received : Option HelperReceipt → HelperReceipt
received none = no_receipt
received (some r) = r

unfoldable pub expected_operation : CommandType → Operation
expected_operation rollback_action = rollback
expected_operation confirm_action = confirm
expected_operation _ = execute

-- A condition that turns a result into a failure with a message.
abbrev pub check : Bool → String → Bool × String → Bool × String
check bad message (true, e) = if bad then (false, message) else (true, e)
check bad message (false, e) = (false, e)

abbrev pub is_ssh : String → Bool
is_ssh type = str_eq type "ssh_password_hardening"

abbrev pub is_suspension : String → Bool
is_suspension type = str_eq type "temporary_process_suspend"

-- What an SSH hardening must have proved of its safety window.
unfoldable pub ssh_complaint : Option Bool → Bool → Option String
ssh_complaint none asks = some "SSH helper receipt did not prove whether the configuration changed"
ssh_complaint (some true) false =
    some "SSH change lacked a matching durable rollback state or safety confirmation deadline"
ssh_complaint (some false) true =
    some "SSH receipt requested confirmation even though verification reported no pending change"
ssh_complaint (some _) _ = none

abbrev pub complain : Option String → Bool × String → Bool × String
complain none v = v
complain (some message) v = check true message v

-- The deadline is not before the time plus fifteen minutes, or, unless a suspension is resumed, not
-- after the time.
abbrev pub deadline_invalid : Option ℕ → ℕ → Bool → Bool
deadline_invalid none now resumes = false
deadline_invalid (some t) now resumes = leb (now + 15 * minute) t || (not resumes && leb t now)

-- `is_object` says that a text decodes to a JSON object with a member.
module _ (l : Library) (is_object : String → Bool) where
  -- `validRollbackState`
  unfoldable pub valid_rollback_state : String → Bool
  valid_rollback_state value = not (len value == 0) && l.json_valid value && is_object value

  -- The rollback state is the one that the receipt names.
  unfoldable pub has_state : String → HelperReceipt → Bool
  unfolding valid_rollback_state
  has_state state r =
      valid_rollback_state state && str_eq r.rollback_state_digest (digest_bytes l state)

  unfoldable pub receipt_matches : Submission → Bool
  unfolding is_operation expected_operation
  receipt_matches x = elim x.receipt [
    | none ↦ false
    | some r ↦
        is_action_command x.command_type
        && str_eq r.action_id x.action_id
        && str_eq r.type x.type
        && is_operation r.operation (expected_operation x.command_type)
        && str_eq r.parameters_digest (digest_parameters l x.parameters)
  ]

  -- A matching receipt of a success, with the steps of the command.
  unfoldable pub proves_success : Submission → Bool
  unfolding receipt_matches
  proves_success x =
      let r = received x.receipt in
      receipt_matches x
      && r.success
      && not r.indeterminate
      && valid_successful_receipt_steps r.steps x.command_type

  -- An execution of the helper that has no journal of its own, and must be resumed.
  unfoldable pub may_resume : Submission → Bool
  may_resume x =
      is_some (received x.receipt).confirm_by && is_suspension x.type && is_execute x.command_type

  -- The checks of a result that claims success, one after the other: of the receipt, of the rollback
  -- state of an execution, and that nothing else returns one;
  unfoldable pub after_receipt : Submission → Bool × String
  unfolding proves_success
  after_receipt x =
      check (is_action_command x.command_type && not (proves_success x))
        "privileged helper receipt was missing or did not match the approved action"
        (x.ok, x.error_text)

  unfoldable pub after_state : Submission → Bool × String
  unfolding has_state after_receipt
  after_state x =
      check (is_execute x.command_type && not (has_state x.rollback (received x.receipt)))
        "privileged helper receipt lacked a matching durable rollback state" (after_receipt x)

  unfoldable pub after_other_state : Submission → Bool × String
  unfolding after_state
  after_other_state x =
      check
        (is_action_command x.command_type
          && not (is_execute x.command_type)
          && not (len x.rollback == 0))
        "only an action execution may return durable rollback state" (after_state x)

  -- of who may ask for a window of confirmation, and whether an SSH hardening must;
  unfoldable pub after_window : Submission → Bool × String
  unfolding after_other_state may_resume
  after_window x =
      check
        (is_some (received x.receipt).confirm_by
          && not (may_resume x)
          && not (is_ssh x.type && is_execute x.command_type))
        "only an SSH hardening execution may request a safety confirmation window"
        (after_other_state x)

  unfoldable pub after_ssh : Submission → Bool × String
  unfolding after_window ssh_complaint
  after_ssh x =
      let r = received x.receipt in
      if is_ssh x.type && is_execute x.command_type
      then complain (ssh_complaint (receipt_confirmation_pending r.steps) (is_some r.confirm_by))
          (after_window x)
      else after_window x

  -- and of its deadline.
  unfoldable pub checked : Submission → Bool × String
  unfolding after_ssh may_resume
  checked x =
      check
        (not (x.completed && not x.has_digest)
          && deadline_invalid (received x.receipt).confirm_by x.now (may_resume x))
        "safety recovery deadline was invalid or already elapsed" (after_ssh x)
