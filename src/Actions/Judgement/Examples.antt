-- ===== src/Actions/Judgement/Examples.antt =====
-- The judgement of a submitted result at concrete inputs.
use witshield.Base.{String, Bool, ◌≡◌, refl, true, false, none, [], ◌∷◌, len, ◌==◌}
use witshield.Engine.Types.{execute, Request, Receipt}
use witshield.Engine.Seal.{valid_state, seal_state}
use witshield.Engine.Lifecycle.{lifecycle}
use witshield.Engine.Requests.{run}
use witshield.Engine.Toy.{pop, toy, engine}
use witshield.Actions.Policy.{is_execute}
use witshield.Actions.Gate.{is_action_command}
use witshield.Actions.Submission.{Submission, received, has_state, valid_rollback_state}
use witshield.Actions.Judgement.{judge}
use witshield.Actions.Judgement.Proven.{IsProven, judge-IsProven}
use witshield.Actions.Judgement.Honest.{honest, run_believed}

abbrev push : Request
push = record {
  action_id = "a1";
  actor = "admin";
  type = "push";
  operation = execute;
  parameters = "{}";
  state = "";
}

abbrev push_receipt : Receipt
push_receipt = (run toy (engine none) "r" push (7 ∷ [])).1

abbrev all_objects : String → Bool
all_objects _ = true

run_believed_example :
    let j = judge toy all_objects (honest (λ _. none) push push_receipt 9) in
    (j.ok ≡ true) × (j.indeterminate ≡ false) × (j.rollback ≡ push_receipt.state)
unfolding run lifecycle pop valid_state seal_state valid_rollback_state
run_believed_example =
    run_believed toy all_objects (λ _. none) (engine none) push "r" (7 ∷ []) 9 refl refl refl refl
      refl

abbrev submitted : Submission
submitted = honest (λ _. none) push push_receipt 9

judge-IsProven_example :
    IsProven toy all_objects submitted
    × ((judge toy all_objects submitted).indeterminate ≡ false)
    × (is_execute submitted.command_type ≡ true
        → has_state toy all_objects
            (judge toy all_objects submitted).rollback
            (received submitted.receipt)
          ≡ true)
    × (is_execute submitted.command_type ≡ false
        → len (judge toy all_objects submitted).rollback == 0 ≡ true)
unfolding run lifecycle pop valid_state seal_state is_action_command valid_rollback_state
judge-IsProven_example =
    judge-IsProven toy all_objects submitted refl
      (run_believed toy all_objects (λ _. none) (engine none) push "r" (7 ∷ []) 9 refl refl refl
        refl refl).0
