-- ===== src/Engine/Examples.antt =====
-- Runs of the engine at concrete inputs.
use witshield.Base.{String, ◌≡◌, refl, ◌⊎◌, true, false, none, some, [], ◌∷◌, arith}
use witshield.Engine.Types.{Operation, execute, rollback, Request, SealedRollbackState}
use witshield.Engine.Seal.{
  opened, digest_parameters, state_mac, seal_state, valid_state, open_state,
}
use witshield.Engine.Toy.{pop, toy_state, toy, engine}
use witshield.Engine.Seal.Integrity.{open-seal, Accepted, open-Accepted, Framed, Accepted-as_issued}
use witshield.Engine.Lifecycle.{lifecycle}
use witshield.Engine.Lifecycle.Phases.{Course, operations}
use witshield.Engine.Requests.{run}
use witshield.Engine.Requests.Receipts.{run_claims, run-Course}

abbrev ask : Operation → String → Request
ask operation state = record {
  action_id = "a1";
  actor = "admin";
  type = "push";
  operation = operation;
  parameters = "{}";
  state = state;
}

-- The failed change is undone, and the receipt says so.
failed_run :
    let (host, receipt) = run toy (engine (some "disk full")) "r" (ask execute "") (7 ∷ []) in
    (host ≡ 7 ∷ [])
    × (receipt.success ≡ false)
    × (receipt.indeterminate ≡ false)
    × (receipt.error ≡ "apply failed and the change was rolled back: disk full")
unfolding run lifecycle pop valid_state
failed_run = (refl, refl, refl, refl)

good_run :
    let (host, receipt) = run toy (engine none) "r" (ask execute "") (7 ∷ []) in
    (host ≡ 1 ∷ 7 ∷ []) × (receipt.success ≡ true) × (receipt.state ≡ "sealed")
unfolding run lifecycle pop valid_state seal_state
good_run = (refl, refl, refl)

-- The sealed state of the change undoes it in a later request.
rollback_run :
    let (host, receipt) = run toy (engine none) "r" (ask rollback "sealed") (1 ∷ 7 ∷ []) in
    (host ≡ 7 ∷ []) × (receipt.success ≡ true)
unfolding run lifecycle pop open_state
rollback_run = (refl, refl)

run_claims_example :
    let receipt = (run toy (engine none) "r" (ask execute "") (7 ∷ [])).1 in
    (receipt.success ≡ true → receipt.indeterminate ≡ false)
    × (receipt.success ≡ false → receipt.indeterminate ≡ false → receipt.state ≡ "")
run_claims_example = run_claims toy (engine none) (ask execute "") "r" (7 ∷ [])

run-Course_example :
    let receipt = (run toy (engine none) "r" (ask execute "") (7 ∷ [])).1 in
    (operations receipt.steps ≡ []) × (receipt.success ≡ false)
    ⊎ Course (operations receipt.steps) receipt.success
run-Course_example = run-Course toy (engine none) (ask execute "") "r" (7 ∷ []) refl

open-seal_example : open_state toy "key" (ask rollback "sealed") ≡ opened "{}"
unfolding state_mac digest_parameters seal_state valid_state
open-seal_example =
    open-seal toy "key" (ask rollback "sealed") "{}"
      (record { compacted = "{}"; marshal_valid = refl; decode_marshal = refl }) refl (omega arith)
      refl refl

open-Accepted_example :
    (s : SealedRollbackState) × Accepted toy "key" (ask rollback "sealed") s × (s.payload ≡ "{}")
open-Accepted_example =
    open-Accepted toy "key" (ask rollback "sealed") {payload = "{}"} open-seal_example

toy_state-Accepted : Accepted toy "key" (ask rollback "sealed") toy_state
unfolding state_mac digest_parameters
toy_state-Accepted = record {
  decoded = refl;
  version_one = refl;
  same_action = refl;
  same_type = refl;
  same_parameters = refl;
  signed = refl;
  small = omega arith;
}

toy_state-Framed : Framed toy_state
toy_state-Framed = record {
  version_one = refl;
  action_framed = omega arith;
  type_framed = omega arith;
  digest_framed = omega arith;
}

Accepted-as_issued_example :
    (toy_state.action_id ≡ "a1")
    × (toy_state.type ≡ "push")
    × (toy_state.parameters_digest ≡ digest_parameters toy "{}")
    × (toy_state.payload ≡ toy_state.payload)
Accepted-as_issued_example =
    Accepted-as_issued toy "key" (ask rollback "sealed") toy_state toy_state toy_state-Accepted
      toy_state-Framed toy_state-Framed (λ e. refl) toy_state-Accepted.signed
