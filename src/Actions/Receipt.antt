-- ===== src/Actions/Receipt.antt =====
-- The receipts of the privileged helper, as the controller reads them before it believes the result of
-- a command (internal/store/action_results.go).
use witshield.Base.{
  ℕ, String, Bool, true, false, not, ◌&&◌, Option, none, some, List, [], ◌∷◌, ◌==◌, length,
  if◌then◌else◌,
}
use witshield.Engine.Types.{Operation, precheck, preview, apply, verify, rollback, execute, confirm}
use witshield.Actions.Tables.{CommandType, rollback_action, confirm_action, execute_action}
use witshield.Actions.Statement.{is_some}

-- `helperReceiptStep`. Of a result only the detail confirmationPending is read, where it is a Boolean.
pub record HelperReceiptStep : Type 0 where
  pub operation : Operation
  pub started_at : ℕ
  pub finished_at : ℕ
  pub success : Bool
  pub result : Option (Option Bool)

-- `helperReceiptProjection`
pub record HelperReceipt : Type 0 where
  pub action_id : String
  pub type : String
  pub operation : Operation
  pub parameters_digest : String
  pub started_at : ℕ
  pub finished_at : ℕ
  pub success : Bool
  pub indeterminate : Bool
  pub rollback_state_digest : String
  pub confirm_by : Option ℕ
  pub steps : List HelperReceiptStep

-- Go's `==` of an operation with one of the constants.
unfoldable pub is_operation : Operation → Operation → Bool
is_operation precheck precheck = true
is_operation preview preview = true
is_operation apply apply = true
is_operation verify verify = true
is_operation rollback rollback = true
is_operation execute execute = true
is_operation confirm confirm = true
is_operation _ _ = false

-- The steps are these operations, each successful and with a result.
unfoldable pub all_succeeded : List Operation → List HelperReceiptStep → Bool
unfolding is_operation
all_succeeded [] [] = true
all_succeeded (o ∷ os) (s ∷ steps) =
    is_operation s.operation o && s.success && is_some s.result && all_succeeded os steps
all_succeeded _ _ = false

unfoldable pub expected_steps : CommandType → List Operation
expected_steps rollback_action = rollback ∷ []
expected_steps confirm_action = confirm ∷ []
expected_steps _ = precheck ∷ preview ∷ apply ∷ verify ∷ []

-- `validSuccessfulReceiptSteps`
unfoldable pub valid_successful_receipt_steps : List HelperReceiptStep → CommandType → Bool
unfolding all_succeeded expected_steps
valid_successful_receipt_steps steps type = all_succeeded (expected_steps type) steps

abbrev is_equal : Bool → Bool → Bool
is_equal true b = b
is_equal false b = not b

-- The steps are these operations with these outcomes; a successful one has a result.
unfoldable pub follows : List (Operation × Bool) → List HelperReceiptStep → Bool
unfolding is_operation
follows [] [] = true
follows ((o, success) ∷ wanted) (s ∷ steps) =
    is_operation s.operation o
    && is_equal s.success success
    && (if success then is_some s.result else true)
    && follows wanted steps
follows _ _ = false

abbrev pub verify_rollback_failure : List (Operation × Bool)
verify_rollback_failure =
    (precheck, true) ∷ (preview, true) ∷ (apply, true) ∷ (verify, false) ∷ (rollback, false) ∷ []

abbrev pub apply_rollback_failure : List (Operation × Bool)
apply_rollback_failure =
    (precheck, true) ∷ (preview, true) ∷ (apply, false) ∷ (rollback, false) ∷ []

-- `validExecuteReceiptWithRecoverableState`
unfoldable pub valid_execute_receipt_with_recoverable_state : HelperReceipt → Bool
unfolding valid_successful_receipt_steps follows
valid_execute_receipt_with_recoverable_state r =
    if r.success
    then valid_successful_receipt_steps r.steps execute_action
    else if length r.steps == 4
    then follows apply_rollback_failure r.steps
    else follows verify_rollback_failure r.steps

abbrev pub apply_failure : List (Operation × Bool)
apply_failure = (precheck, true) ∷ (preview, true) ∷ (apply, false) ∷ []

-- `validExecuteReceiptWithUnavailableState`
unfoldable pub valid_execute_receipt_with_unavailable_state : HelperReceipt → Bool
unfolding follows
valid_execute_receipt_with_unavailable_state r = not r.success && follows apply_failure r.steps

-- `validFailedRollbackReceipt`, and `validFailedConfirmReceipt` for the other operation
unfoldable pub valid_failed_receipt : Operation → HelperReceipt → Bool
unfolding is_operation
valid_failed_receipt operation r = not r.success && elim r.steps [
  | [] ↦ false
  | s ∷ steps ↦ length steps == 0 && is_operation s.operation operation && not s.success
]

-- `receiptConfirmationPending`: the detail of the first successful verification that has a result.
unfoldable pub receipt_confirmation_pending : List HelperReceiptStep → Option Bool
unfolding is_operation
receipt_confirmation_pending [] = none
receipt_confirmation_pending (s ∷ steps) =
    let later = receipt_confirmation_pending steps in
    elim s.result [
      | none ↦ later
      | some detail ↦ if is_operation s.operation verify && s.success then detail else later
    ]
