-- ===== src/Actions/Judgement/Proven.antt =====
-- What stands behind a result that the controller believes (`CompleteCommandAndActionWithOutcome` of
-- internal/store/action_results.go).
use witshield.Base.{
  String, Bool, true, false, not, ◌&&◌, ◌||◌, ◌≡◌, ◌⊎◌, refl, ap, ◌∙◌, inl, inr, Option, none, some,
  List, [], ◌∷◌, All, map, len, ◌==◌, eq_iff, if◌then◌else◌, Option-cases, arith,
}
use witshield.Engine.Types.{
  Operation, precheck, preview, apply, verify, rollback, execute, confirm, Library,
}
use witshield.Engine.Seal.{digest_parameters}
use witshield.Actions.Policy.{is_execute}
use witshield.Actions.Gate.{is_action_command}
use witshield.Actions.Expiry.{unanswered_message}
use witshield.Actions.Receipt.{
  HelperReceipt, HelperReceiptStep, is_operation, all_succeeded, expected_steps,
  valid_successful_receipt_steps,
}
use witshield.Actions.Submission.{
  Submission, checked, is_ssh, after_receipt, after_state, after_other_state, after_window,
  after_ssh, check, complain, received, receipt_matches, proves_success, has_state,
}
use witshield.Actions.Judgement.{
  judge, valid_recovered_successful_result, is_recovered, was_interrupted,
}

check-ok :
    (bad : Bool) (message : String) (v : Bool × String)
    → (check bad message v).0 ≡ true
    → (v.0 ≡ true) × (bad ≡ false)
check-ok true message (true, e) h = absurd (cc)
check-ok false message (true, e) h = (refl, refl)
check-ok bad message (false, e) h = absurd (cc)

complain-ok : (o : Option String) (v : Bool × String) → (complain o v).0 ≡ true → v.0 ≡ true
complain-ok none v h = h
complain-ok (some message) v h = (check-ok true message v h).0

if-ok :
    (b : Bool) (o : Option String) (v : Bool × String)
    → (if b then complain o v else v).0 ≡ true
    → v.0 ≡ true
if-ok true o v h = complain-ok o v h
if-ok false o v h = h

-- The operation is the one that it is compared with.
is_operation-eq : (a b : Operation) → is_operation a b ≡ true → a ≡ b
unfolding is_operation
is_operation-eq precheck precheck h = refl
is_operation-eq preview preview h = refl
is_operation-eq apply apply h = refl
is_operation-eq verify verify h = refl
is_operation-eq rollback rollback h = refl
is_operation-eq execute execute h = refl
is_operation-eq confirm confirm h = refl
is_operation-eq a b h = cc

-- The steps are those of the operations, and all successful.
all_succeeded-Steps :
    (os : List Operation) (steps : List HelperReceiptStep)
    → all_succeeded os steps ≡ true
    → (map (λ (s : HelperReceiptStep). s.operation) steps ≡ os)
      × All (λ (s : HelperReceiptStep). s.success ≡ true) steps
unfolding all_succeeded
all_succeeded-Steps [] [] h = (refl, tt)
all_succeeded-Steps [] (s ∷ steps) h = cc
all_succeeded-Steps (o ∷ os) [] h = cc
all_succeeded-Steps (o ∷ os) (s ∷ steps) h =
    let (ran, all) = all_succeeded-Steps os steps (ground arith) in
    (ground (arith, is_operation-eq s.operation o), (ground arith, all))

-- The ways to a success: the checks passed, or the result was recovered.
ways :
    (ok interrupted recovered unknown : Bool)
    → ((ok && not interrupted || recovered) && not unknown) ≡ true
    → (((ok ≡ true) × (interrupted ≡ false)) ⊎ (recovered ≡ true)) × (unknown ≡ false)
ways true false recovered false h = (inl (refl, refl), refl)
ways true true recovered false h = (inr (ground arith), refl)
ways false interrupted recovered false h = (inr (ground arith), refl)
ways ok interrupted recovered true h = absurd (ground arith)

kept :
    (ok trusted : Bool) (state : String)
    → ok ≡ true
    → (if not ok && trusted then "" else state) ≡ state
kept true trusted state h = refl
kept false trusted state h = cc

module _ (l : Library) (is_object : String → Bool) (x : Submission) where
  -- The helper's receipt is for the action, its type and its parameters, and reports a success of
  -- all steps of the command, each with a result.
  pub record IsProven : Type 0 where
    pub receipt : HelperReceipt
    pub arrived : x.receipt ≡ some receipt
    pub of_action : receipt.action_id ≡ x.action_id
    pub of_type : receipt.type ≡ x.type
    pub of_parameters : receipt.parameters_digest ≡ digest_parameters l x.parameters
    pub success : receipt.success ≡ true
    pub known : receipt.indeterminate ≡ false
    pub ran :
        map (λ (s : HelperReceiptStep). s.operation) receipt.steps ≡ expected_steps x.command_type
    pub succeeded : All (λ (s : HelperReceiptStep). s.success ≡ true) receipt.steps

  proves_success-IsProven : proves_success l is_object x ≡ true → IsProven
  unfolding proves_success receipt_matches valid_successful_receipt_steps
  proves_success-IsProven h = elim (Option-cases x.receipt) [
    | inl e ↦ absurd (ground arith)
    | inr (r, e) ↦
        let steps = all_succeeded-Steps (expected_steps x.command_type) r.steps (ground arith) in
        record {
          receipt = r;
          arrived = e;
          of_action = ground (arith, eq_iff r.action_id x.action_id);
          of_type = ground (arith, eq_iff r.type x.type);
          of_parameters =
              ground (arith, eq_iff r.parameters_digest (digest_parameters l x.parameters));
          success = ground arith;
          known = ground arith;
          ran = steps.0;
          succeeded = steps.1;
        }
  ]

  state-ok :
      (checked l is_object x).0 ≡ true
      → ((after_state l is_object x).0 ≡ true)
        × (is_action_command x.command_type
              && not (is_execute x.command_type)
              && not (len x.rollback == 0)
            ≡ false)
  unfolding checked after_ssh after_window after_other_state
  state-ok h =
      let (h₅, _) = check-ok _ _ (after_ssh l is_object x) h in
      let h₄ =
        if-ok (is_ssh x.type && is_execute x.command_type) _ (after_window l is_object x) h₅ in
      let (h₃, _) = check-ok _ _ (after_other_state l is_object x) h₄ in
      check-ok _ _ (after_state l is_object x) h₃

  -- A claim of success that passes the checks.
  checked-ok :
      is_action_command x.command_type ≡ true
      → (checked l is_object x).0 ≡ true
      → (proves_success l is_object x ≡ true)
        × (is_execute x.command_type ≡ true
            → has_state l is_object x.rollback (received x.receipt) ≡ true)
        × (is_execute x.command_type ≡ false → len x.rollback == 0 ≡ true)
        × (x.ok ≡ true)
  unfolding after_state after_receipt
  checked-ok acts h =
      let (h₂, bad₃) = state-ok h in
      let (h₁, bad₂) = check-ok _ _ (after_receipt l is_object x) h₂ in
      let (h₀, bad₁) = check-ok _ _ (x.ok, x.error_text) h₁ in
      (ground arith, (λ e. ground arith), (λ e. ground arith), h₀)

  recovered-ok :
      (interrupted : Bool) (error_text : String)
      → is_recovered l is_object x interrupted error_text ≡ true
      → (proves_success l is_object x ≡ true)
        × (is_execute x.command_type ≡ true
            → has_state l is_object x.rollback (received x.receipt) ≡ true)
        × (is_execute x.command_type ≡ false → len x.rollback == 0 ≡ true)
        × (interrupted ≡ false)
  unfolding is_recovered valid_recovered_successful_result
  recovered-ok interrupted error_text h =
      (ground arith, (λ e. ground arith), (λ e. ground arith), ground arith)

  believed :
      (recovered_text : String) (interrupted : Bool)
      → is_action_command x.command_type ≡ true
      → (((checked l is_object x).0 ≡ true) × (interrupted ≡ false))
        ⊎ (is_recovered l is_object x interrupted recovered_text ≡ true)
      → (proves_success l is_object x ≡ true)
        × (is_execute x.command_type ≡ true
            → has_state l is_object x.rollback (received x.receipt) ≡ true)
        × (is_execute x.command_type ≡ false → len x.rollback == 0 ≡ true)
        × (interrupted ≡ false)
  believed recovered_text interrupted acts (inl (h, i)) =
      let (proves, state, no_state, _) = checked-ok acts h in (proves, state, no_state, i)
  believed recovered_text interrupted acts (inr h) = recovered-ok _ _ h

  -- What the controller believes of the result of an action command: a success only with the helper's
  -- receipt of a success of this very action and of all its steps, and never together with an unknown
  -- outcome; it keeps the state of an execution, which the receipt names, and no state of any other
  -- command.
  pub judge-IsProven :
      is_action_command x.command_type ≡ true
      → (judge l is_object x).ok ≡ true
      → IsProven
        × ((judge l is_object x).indeterminate ≡ false)
        × (is_execute x.command_type ≡ true
            → has_state l is_object (judge l is_object x).rollback (received x.receipt) ≡ true)
        × (is_execute x.command_type ≡ false → len (judge l is_object x).rollback == 0 ≡ true)
  unfolding judge
  judge-IsProven acts h =
      let interrupted = was_interrupted l is_object x (checked l is_object x).1 in
      let (way, known) = ways (checked l is_object x).0 interrupted _ _ h in
      let (proves, state, no_state, not_interrupted) =
        believed (if interrupted then unanswered_message else (checked l is_object x).1) interrupted
          acts way in
      let same = kept _ _ x.rollback h in
      (
        proves_success-IsProven proves,
        ground (arith, known, not_interrupted),
        (λ e. ap (λ s. has_state l is_object s (received x.receipt)) same ∙ state e),
        (λ e. ap (λ s. len s == 0) same ∙ no_state e),
      )
